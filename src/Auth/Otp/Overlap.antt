-- ===== src/Auth/Otp/Overlap.antt =====
-- How many codes a phone gets when requests overlap: each counts the codes there are, and inserts its
-- own later.
use yukbor_backend.Common.{
  ℕ, ◌+◌, ◌≤◌, ◌<◌, String, Bool, true, false, ◌&&◌, List, [], ◌∷◌, ◌++◌, ◌==◌, string_Eq,
  if◌then◌else◌, ◌≡◌, refl, arith, length, length-append, ap, leb,
}
use yukbor_backend.Common.Int.{pos}
use yukbor_backend.Common.Table.{update_where}
use yukbor_backend.Models.Enums.{Time}
use yukbor_backend.Auth.Otp.{
  OtpRow, Verdict, is_id, settle, counted, confirmed, is_limited, new_otp,
}
use yukbor_backend.Auth.Otp.Limit.{codes_in, codes_in-append, codes_in-le-recent}

-- A request that may insert its code, and when it counted.
pub record Asked : Type 0 where
  pub id : String
  pub code : String
  pub phone : String
  pub counted_at : Time

pub record Desk : Type 0 where
  pub rows : List OtpRow
  pub asked : List Asked

-- At most `k` requests are between their two statements at a time.
pub data Step (hash : String → String) (limit k : ℕ) : Desk → Desk → Type 0 where
  count :
      (d : Desk) (a : Asked)
      → is_limited a.counted_at a.phone (pos limit) d.rows ≡ false
      → length d.asked < k
      → Step hash limit k d (record d { asked = a ∷ d.asked })
  insert :
      (d : Desk) (now : Time) (a : Asked) (before after : List Asked)
      → d.asked ≡ before ++ a ∷ after
      → a.counted_at ≤ now
      → Step hash limit k d (record {
        rows = d.rows ++ new_otp hash now a.id a.code a.phone ∷ [];
        asked = before ++ after;
      })
  fail :
      (d : Desk) (a : Asked) (before after : List Asked)
      → d.asked ≡ before ++ a ∷ after
      → Step hash limit k d (record d { asked = before ++ after })
  -- the write of `VerifyOTP`
  verify :
      (d : Desk) (lost : Bool) (id : String) (v : Verdict)
      → Step hash limit k d (record d { rows = (settle lost id v d.rows).1 })

pub data Reach (hash : String → String) (limit k : ℕ) (d : Desk) : Desk → Type 0 where
  here : Reach hash limit k d d
  next : {e f : Desk} → Reach hash limit k d e → Step hash limit k e f → Reach hash limit k d f

-- The codes for a phone that are still to come and may stand in the window that ends at `t`.
abbrev coming : Time → String → List Asked → ℕ
coming t phone [] = 0
coming t phone (a ∷ as_) =
    (if a.phone == phone && leb a.counted_at t then 1 else 0) + coming t phone as_

coming-append :
    (t : Time) (phone : String) (xs ys : List Asked)
    → coming t phone (xs ++ ys) ≡ coming t phone xs + coming t phone ys
coming-append t phone [] ys = omega arith
coming-append t phone (x ∷ xs) ys = omega (arith, coming-append t phone xs ys)

coming-le : (t : Time) (phone : String) (xs : List Asked) → coming t phone xs ≤ length xs
coming-le t phone [] = omega arith
coming-le t phone (x ∷ xs) = ground (arith, coming-le t phone xs)

record IsBounded (phone : String) (limit k : ℕ) (d : Desk) : Type 0 where
  few : length d.asked ≤ k
  bound : (t : Time) → codes_in t phone d.rows + coming t phone d.asked + 1 ≤ limit + k

-- A request that counts finds room for one code at least.
count-bound :
    (phone : String) (limit k : ℕ) (d : Desk) (a : Asked) (t : Time)
    → 0 < limit
    → is_limited a.counted_at a.phone (pos limit) d.rows ≡ false
    → length d.asked < k
    → codes_in t phone d.rows + coming t phone d.asked + 1 ≤ limit + k
    → codes_in t phone d.rows + coming t phone (a ∷ d.asked) + 1 ≤ limit + k
count-bound phone limit k d a t pos_ room few h =
    ground (arith, codes_in-le-recent a.counted_at t phone d.rows, coming-le t phone d.asked)

insert-bound :
    (hash : String → String) (phone : String) (now t : Time) (a : Asked) (rows : List OtpRow)
    → a.counted_at ≤ now
    → codes_in t phone (rows ++ new_otp hash now a.id a.code a.phone ∷ [])
      ≤ codes_in t phone rows + (if a.phone == phone && leb a.counted_at t then 1 else 0)
insert-bound hash phone now t a rows le =
    ground (arith, codes_in-append t phone rows (new_otp hash now a.id a.code a.phone))

same_codes :
    (t : Time) (phone : String) (p : OtpRow → Bool) (f : OtpRow → OtpRow) (rows : List OtpRow)
    → ((r : OtpRow) → (f r).phone_number ≡ r.phone_number)
    → ((r : OtpRow) → (f r).created_at ≡ r.created_at)
    → codes_in t phone (update_where p f rows) ≡ codes_in t phone rows
same_codes t phone p f [] same when = refl
same_codes t phone p f (r ∷ rows) same when =
    ground (arith, same_codes t phone p f rows same when, same r, when r)

settle-codes :
    (t : Time) (phone : String) (lost : Bool) (id : String) (v : Verdict) (rows : List OtpRow)
    → codes_in t phone (settle lost id v rows).1 ≡ codes_in t phone rows
unfolding settle
settle-codes t phone lost id Verdict.already rows = refl
settle-codes t phone lost id Verdict.late rows = refl
settle-codes t phone lost id Verdict.worn_out rows = refl
settle-codes t phone true id Verdict.wrong rows = refl
settle-codes t phone false id Verdict.wrong rows =
    same_codes t phone (is_id id) counted rows (λ r. refl) (λ r. refl)
settle-codes t phone true id Verdict.right rows = refl
settle-codes t phone false id Verdict.right rows =
    same_codes t phone (is_id id) confirmed rows (λ r. refl) (λ r. refl)

Step-IsBounded :
    {hash : String → String} {phone : String} {limit k : ℕ} {d e : Desk}
    → 0 < limit
    → Step hash limit k d e
    → IsBounded phone limit k d
    → IsBounded phone limit k e
Step-IsBounded {hash} {phone} {limit} {k} some_ (count d a room few) b = record {
  few = omega arith;
  bound = λ t. count-bound phone limit k d a t some_ room few (b.bound t);
}
Step-IsBounded {hash} {phone} some_ (insert d now a before after shape le) b = record {
  few =
      omega (
        arith,
        b.few,
        ap length shape,
        length-append before (a ∷ after),
        length-append before after,
      );
  bound = λ t. omega (
    arith,
    b.bound t,
    ap (coming t phone) shape,
    coming-append t phone before (a ∷ after),
    coming-append t phone before after,
    insert-bound hash phone now t a d.rows le,
  );
}
Step-IsBounded {hash} {phone} some_ (fail d a before after shape) b = record {
  few =
      omega (
        arith,
        b.few,
        ap length shape,
        length-append before (a ∷ after),
        length-append before after,
      );
  bound = λ t. omega (
    arith,
    b.bound t,
    ap (coming t phone) shape,
    coming-append t phone before (a ∷ after),
    coming-append t phone before after,
  );
}
Step-IsBounded {hash} {phone} some_ (verify d lost id v) b = record {
  few = b.few;
  bound = λ t. omega (arith, b.bound t, settle-codes t phone lost id v d.rows);
}

Reach-IsBounded :
    {hash : String → String} {phone : String} {limit k : ℕ} {d e : Desk}
    → 0 < limit
    → Reach hash limit k d e
    → IsBounded phone limit k d
    → IsBounded phone limit k e
Reach-IsBounded some_ here b = b
Reach-IsBounded some_ (next r s) b = Step-IsBounded some_ s (Reach-IsBounded some_ r b)

-- In any ten minutes a phone gets at most `limit + k - 1` codes, where at most `k` requests for a
-- code are between counting and inserting at a time, in whatever order they do so: no more than the
-- limit where they come one by one. Nothing is under way at first, the phone has had no more codes
-- before, and the limit is not 0, which turns it off.
pub Reach-codes_in :
    (hash : String → String) (limit k : ℕ) (rows : List OtpRow) (d : Desk) (phone : String)
    → 0 < limit
    → ((t : Time) → codes_in t phone rows + 1 ≤ limit + k)
    → Reach hash limit k (record { rows = rows; asked = [] }) d
    → (t : Time) → codes_in t phone d.rows + 1 ≤ limit + k
Reach-codes_in hash limit k rows d phone some_ before r t = omega (
  arith,
  (Reach-IsBounded {phone = phone} some_ r
        (record { few = omega arith; bound = λ u. omega (arith, before u) })).bound
      t,
)
