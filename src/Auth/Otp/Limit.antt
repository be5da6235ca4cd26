-- ===== src/Auth/Otp/Limit.antt =====
-- How many codes a phone gets, and how a code is confirmed.

use yukbor_backend.Common.{
  ℕ, ◌+◌, ◌≤◌, ◌<◌, String, some, Bool, true, false, ◌&&◌, List, [], ◌∷◌, ◌++◌, ◌==◌, string_Eq,
  ◌≡◌, refl, arith, leb,
}
use yukbor_backend.Common.Int.{ℤ, pos}
use yukbor_backend.Common.Table.{query_row, query_row-update_where, count_where}
use yukbor_backend.Models.Enums.{Time}
use yukbor_backend.Auth.Otp.{
  OtpRow, OtpPolicy, judge, settle, is_id, counted, otp_window, is_recent, recent_codes, new_otp,
  create_otp, verify_otp, accepts,
}

-- A request for a code: when it comes, what is drawn, and for which phone.
pub record Ask : Type 0 where
  pub now : Time
  pub id : String
  pub code : String
  pub phone : String

unfoldable pub ask_all : (String → String) → ℤ → List Ask → List OtpRow → List OtpRow
ask_all hash limit [] rows = rows
ask_all hash limit (a ∷ asks) rows =
    ask_all hash limit asks (create_otp hash a.now a.id a.code a.phone limit rows).1

-- The codes of a phone in the ten minutes that end at `t`.
abbrev pub codes_in : Time → String → List OtpRow → ℕ
codes_in t phone rows =
    count_where (λ r. r.phone_number == phone && (is_recent otp_window t r && leb r.created_at t))
      rows

pub codes_in-append :
    (t : Time) (phone : String) (rows : List OtpRow) (r : OtpRow)
    → codes_in t phone (rows ++ r ∷ []) ≡ codes_in t phone rows + codes_in t phone (r ∷ [])
codes_in-append t phone [] r = omega arith
codes_in-append t phone (q ∷ rows) r = omega (arith, codes_in-append t phone rows r)

-- Later windows hold no more of the codes that are there now.
pub codes_in-le-recent :
    (now t : Time) (phone : String) (rows : List OtpRow)
    → now ≤ t
    → codes_in t phone rows ≤ recent_codes now phone rows
unfolding recent_codes
codes_in-le-recent now t phone [] le = omega arith
codes_in-le-recent now t phone (q ∷ rows) le =
    ground (arith, codes_in-le-recent now t phone rows le)

new_code : (String → String) → Ask → OtpRow
new_code hash a = new_otp hash a.now a.id a.code a.phone

-- The new code of `a` counts where there was room for it.
new_code-fits :
    (hash : String → String) (n : ℕ) (a : Ask) (rows : List OtpRow) (t : Time) (phone : String)
    → recent_codes a.now a.phone rows < n
    → codes_in t phone rows ≤ n
    → codes_in t phone rows + codes_in t phone (new_code hash a ∷ []) ≤ n
unfolding new_code
new_code-fits hash n a rows t phone room h = ground (arith, codes_in-le-recent a.now t phone rows)

ask-codes_in :
    (hash : String → String) (n : ℕ) (a : Ask) (rows : List OtpRow) (t : Time) (phone : String)
    → 0 < n
    → codes_in t phone rows ≤ n
    → codes_in t phone (create_otp hash a.now a.id a.code a.phone (pos n) rows).1 ≤ n
unfolding create_otp new_code
ask-codes_in hash n a rows t phone some_limit h =
    ground
      (arith, new_code-fits hash n a rows t phone, codes_in-append t phone rows (new_code hash a))

-- Where requests come one after the other, a phone gets no more codes than the limit allows in any ten
-- minutes, if it had no more before. The limit is not 0, which turns it off.
pub ask_all-codes_in :
    (hash : String → String) (n : ℕ) (asks : List Ask) (rows : List OtpRow) (phone : String)
    → 0 < n
    → ((t : Time) → codes_in t phone rows ≤ n)
    → (t : Time) → codes_in t phone (ask_all hash (pos n) asks rows) ≤ n
unfolding ask_all
ask_all-codes_in hash n [] rows phone limited h t = h t
ask_all-codes_in hash n (a ∷ asks) rows phone limited h t =
    ask_all-codes_in hash n asks _ phone limited
      (λ t. ask-codes_in hash n a rows t phone limited (h t)) t

-- A code is confirmed only by a request that comes in time, finds fewer than five wrong guesses, and
-- sends a code that the policy accepts for the row's phone: where the row was not confirmed before
-- a request and is after it, that request did so.
pub verify_otp-confirmed :
    (hash : String → String) (policy : OtpPolicy) (now : Time) (lost : Bool) (id code : String)
    (rows : List OtpRow) (r r' : OtpRow)
    → query_row (is_id id) rows ≡ some r
    → r.verified ≡ false
    → query_row (is_id id) (verify_otp hash policy now lost id code rows).1 ≡ some r'
    → r'.verified ≡ true
    → (now ≤ r.expires_at)
      × (r.attempts < 5)
      × (accepts hash policy r.phone_number code r.code_hash ≡ true)
unfolding verify_otp settle judge
verify_otp-confirmed hash policy now lost id code rows r r' found unset found' set =
    ground (arith, query_row-update_where (is_id id) (is_id id) counted rows (λ r. refl))
