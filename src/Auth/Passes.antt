-- ===== src/Auth/Passes.antt =====
-- internal/auth/store.go over the table auth.myid_verifications: a passed identity check, which one
-- registration uses up.
use yukbor_backend.Common.{
  ℕ, ◌+◌, ◌≤◌, String, Option, none, some, Bool, true, false, ◌&&◌, not, List, [], ◌∷◌, ◌++◌, ◌==◌,
  string_Eq, ltb, arith,
}
use yukbor_backend.Common.Table.{query_row, update_where, count_where, update_where-alive}
use yukbor_backend.Common.Exec.{Result, ok, err, is_ok}
use yukbor_backend.Models.Enums.{Time}
use yukbor_backend.Auth.Otp.{seconds}

abbrev pub myid_token_ttl : Time
myid_token_ttl = seconds 600

-- `confidence` is in hundredths.
pub record MyIdRecord : Type 0 where
  pub token : String
  pub verification_id : String
  pub pinfl : String
  pub passport_series : String
  pub passport_number : String
  pub verified_full_name : String
  pub confidence : ℕ
  pub birth_date : Option Time

-- A row of auth.myid_verifications.
pub record PassRow : Type 0 where
  pub pass : MyIdRecord
  pub open pass use *
  pub consumed : Bool
  pub expires_at : Time

-- `CreateMyIDVerification`
unfoldable pub create_pass : Time → MyIdRecord → List PassRow → List PassRow
create_pass now rec rows =
    rows ++ record { pass = rec; consumed = false; expires_at = now + myid_token_ttl } ∷ []

-- `WHERE token = $1 AND consumed = FALSE AND expires_at > now()`
abbrev pub is_usable : Time → String → PassRow → Bool
is_usable now token r = r.token == token && (not r.consumed && ltb now r.expires_at)

abbrev pub used : PassRow → PassRow
used r = record r { consumed = true }

pub data PassError : Type 0 where
  no_pass : PassError

passed : Option PassRow → Result PassError MyIdRecord
passed none = err PassError.no_pass
passed (some r) = ok r.pass

-- `ConsumeMyIDToken`: one conditional UPDATE.
unfoldable pub consume_pass :
    Time → String → List PassRow → Result PassError MyIdRecord × List PassRow
unfolding passed
consume_pass now token rows =
    (passed (query_row (is_usable now token) rows), update_where (is_usable now token) used rows)

-- A pass that no registration has used.
abbrev pub is_unused : String → PassRow → Bool
is_unused token r = r.token == token && not r.consumed

-- How many of the attempts on one pass succeed.
unfoldable pub uses : String → List Time → List PassRow → ℕ
uses token [] rows = 0
uses token (now ∷ times) rows =
    let (r, rows') = consume_pass now token rows in is_ok r + uses token times rows'

consume_pass-unused :
    (now : Time) (token : String) (rows : List PassRow)
    → let (r, rows') = consume_pass now token rows in
      count_where (is_unused token) rows' + is_ok r ≤ count_where (is_unused token) rows
unfolding consume_pass
consume_pass-unused now token rows = ground (
  arith,
  update_where-alive (is_usable now token) (is_unused token) used rows (λ r h. ground arith),
)

-- However many registrations race for a pass, and whenever they come, it is used up no more often
-- than the table has unused rows for it: once at most, since the token is the primary key.
pub uses-le-unused :
    (token : String) (times : List Time) (rows : List PassRow)
    → uses token times rows ≤ count_where (is_unused token) rows
unfolding uses
uses-le-unused token [] rows = omega arith
uses-le-unused token (now ∷ times) rows = omega (
  arith,
  consume_pass-unused now token rows,
  uses-le-unused token times (consume_pass now token rows).1,
)
