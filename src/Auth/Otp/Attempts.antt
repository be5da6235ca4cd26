-- ===== src/Auth/Otp/Attempts.antt =====
-- How many guesses a code allows, when requests overlap: each reads the row of its code, and writes
-- later.
use mathlib.Core.Option
use yukbor_backend.Common.{
  ℕ, ◌+◌, ◌≤◌, ◌<◌, String, Option, none, some, Bool, true, false, ◌&&◌, List, [], ◌∷◌, ◌++◌, ◌==◌,
  string_Eq, if◌then◌else◌, ◌≡◌, refl, arith, length, length-append, ap, Option-cases, inl, inr,
}
use yukbor_backend.Common.Table.{query_row, query_row-update_where, query_row-fits}
use yukbor_backend.Models.Enums.{Time}
use yukbor_backend.Auth.Otp.{OtpRow, OtpPolicy, Verdict, judge, settle, is_id, counted, confirmed}

-- A request that has read its row: the code's id, what it found, and whether its write will fail.
pub record Pending : Type 0 where
  pub id : String
  pub verdict : Verdict
  pub lost : Bool

pub record Desk : Type 0 where
  pub rows : List OtpRow
  pub pending : List Pending

-- At most `k` requests are under way at a time.
pub data Step (hash : String → String) (k : ℕ) : Desk → Desk → Type 0 where
  create :
      (d : Desk) (r : OtpRow)
      → r.attempts ≡ 0
      → Step hash k d (record d { rows = d.rows ++ r ∷ [] })
  read :
      (d : Desk) (policy : OtpPolicy) (now : Time) (lost : Bool) (id code : String) (r : OtpRow)
      → query_row (is_id id) d.rows ≡ some r
      → length d.pending < k
      → Step hash k d (record d {
        pending =
            record { id = id; verdict = judge hash policy now code r; lost = lost } ∷ d.pending;
      })
  write :
      (d : Desk) (p : Pending) (before after : List Pending)
      → d.pending ≡ before ++ p ∷ after
      → Step hash k d
          (record { rows = (settle p.lost p.id p.verdict d.rows).1; pending = before ++ after })

pub data Reach (hash : String → String) (k : ℕ) (d : Desk) : Desk → Type 0 where
  here : Reach hash k d d
  next : {e f : Desk} → Reach hash k d e → Step hash k e f → Reach hash k d f

attempts_in : Option OtpRow → ℕ
attempts_in none = 0
attempts_in (some r) = r.attempts

-- The wrong guesses that the row of a code counts.
unfoldable pub attempts_of : String → List OtpRow → ℕ
unfolding attempts_in
attempts_of id rows = attempts_in (query_row (is_id id) rows)

abbrev is_wrong : Verdict → Bool
is_wrong Verdict.wrong = true
is_wrong _ = false

-- The wrong guesses that are read and not yet written.
abbrev wrong_pending : String → List Pending → ℕ
wrong_pending id [] = 0
wrong_pending id (p ∷ ps) =
    (if p.id == id && is_wrong p.verdict then 1 else 0) + wrong_pending id ps

wrong_pending-append :
    (id : String) (ps qs : List Pending)
    → wrong_pending id (ps ++ qs) ≡ wrong_pending id ps + wrong_pending id qs
wrong_pending-append id [] qs = omega arith
wrong_pending-append id (p ∷ ps) qs = omega (arith, wrong_pending-append id ps qs)

wrong_pending-le : (id : String) (ps : List Pending) → wrong_pending id ps ≤ length ps
wrong_pending-le id [] = omega arith
wrong_pending-le id (p ∷ ps) = ground (arith, wrong_pending-le id ps)

query_row-append :
    (id : String) (rows : List OtpRow) (r : OtpRow)
    → query_row (is_id id) (rows ++ r ∷ [])
      ≡ Option.get_or
          (Option.map some (query_row (is_id id) rows))
          (if is_id id r then some r else none)
query_row-append id [] r = ground arith
query_row-append id (q ∷ rows) r = ground (arith, query_row-append id rows r)

create-attempts :
    (id : String) (rows : List OtpRow) (r : OtpRow)
    → r.attempts ≡ 0
    → attempts_of id (rows ++ r ∷ []) ≡ attempts_of id rows
unfolding attempts_of
create-attempts id rows r new = ground (arith, query_row-append id rows r)

-- A write counts one guess, of its own code, if that was wrong.
settle-attempts :
    (lost : Bool) (id id' : String) (v : Verdict) (rows : List OtpRow)
    → attempts_of id' (settle lost id v rows).1
      ≤ attempts_of id' rows + (if id == id' && is_wrong v then 1 else 0)
unfolding settle attempts_of
settle-attempts lost id id' Verdict.already rows = omega arith
settle-attempts lost id id' Verdict.late rows = omega arith
settle-attempts lost id id' Verdict.worn_out rows = omega arith
settle-attempts true id id' Verdict.wrong rows = omega arith
settle-attempts false id id' Verdict.wrong rows =
    let found = query_row-update_where (is_id id') (is_id id) counted rows (λ r. refl) in
    elim (Option-cases (query_row (is_id id') rows)) [
      | inl gone ↦ ground (arith, found)
      | inr (r, row) ↦ ground (arith, found, query_row-fits (is_id id') rows r row)
    ]
settle-attempts true id id' Verdict.right rows = omega arith
settle-attempts false id id' Verdict.right rows =
    ground (arith, query_row-update_where (is_id id') (is_id id) confirmed rows (λ r. refl))

-- The guesses counted, and those on their way, of each code.
record IsBounded (k : ℕ) (d : Desk) : Type 0 where
  few : length d.pending ≤ k
  bound : (id : String) → attempts_of id d.rows + wrong_pending id d.pending ≤ 4 + k

judge-attempts :
    (hash : String → String) (policy : OtpPolicy) (now : Time) (code : String) (r : OtpRow)
    → is_wrong (judge hash policy now code r) ≡ true
    → r.attempts < 5
unfolding judge
judge-attempts hash policy now code r h = ground arith

read-bound :
    (hash : String → String) (policy : OtpPolicy) (now : Time) (lost : Bool) (id code id' : String)
    (k : ℕ) (d : Desk) (r : OtpRow)
    → query_row (is_id id) d.rows ≡ some r
    → length d.pending < k
    → attempts_of id' d.rows + wrong_pending id' d.pending ≤ 4 + k
    → let p : Pending = record { id = id; verdict = judge hash policy now code r; lost = lost } in
      attempts_of id' d.rows + wrong_pending id' (p ∷ d.pending) ≤ 4 + k
unfolding attempts_of
read-bound hash policy now lost id code id' k d r found room h =
    ground (arith, judge-attempts hash policy now code r, wrong_pending-le id' d.pending)

Step-IsBounded :
    {hash : String → String} {k : ℕ} {d e : Desk} → Step hash k d e → IsBounded k d → IsBounded k e
Step-IsBounded (create d r new) b = record {
  few = b.few;
  bound = λ id. omega (arith, create-attempts id d.rows r new, b.bound id);
}
Step-IsBounded {hash} {k} (read d policy now lost id code r found room) b = record {
  few = omega arith;
  bound = λ id'. read-bound hash policy now lost id code id' k d r found room (b.bound id');
}
Step-IsBounded (write d p before after shape) b = record {
  few =
      omega (
        arith,
        b.few,
        ap length shape,
        length-append before (p ∷ after),
        length-append before after,
      );
  bound = λ id. omega (
    arith,
    b.bound id,
    ap (wrong_pending id) shape,
    wrong_pending-append id before (p ∷ after),
    wrong_pending-append id before after,
    settle-attempts p.lost p.id id p.verdict d.rows,
  );
}

Reach-IsBounded :
    {hash : String → String} {k : ℕ} {d e : Desk} → Reach hash k d e → IsBounded k d → IsBounded k e
Reach-IsBounded here b = b
Reach-IsBounded (next r s) b = Step-IsBounded s (Reach-IsBounded r b)

-- A code counts `4 + k` wrong guesses at most, where at most `k` requests to confirm a code are
-- under way at a time, in whatever order they read and write: five where they come one by one.
-- Nothing is under way at first, and no code has counted more before.
pub Reach-attempts :
    (hash : String → String) (k : ℕ) (rows : List OtpRow) (d : Desk) (id : String)
    → ((id : String) → attempts_of id rows ≤ 4 + k)
    → Reach hash k (record { rows = rows; pending = [] }) d
    → attempts_of id d.rows ≤ 4 + k
Reach-attempts hash k rows d id fresh r = omega (
  arith,
  (Reach-IsBounded r (record { few = omega arith; bound = λ id. omega (arith, fresh id) })).bound
      id,
)
