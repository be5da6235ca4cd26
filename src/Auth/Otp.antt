-- ===== src/Auth/Otp.antt =====
-- internal/auth/otp.go and store.go over the table auth.otp_codes: one-time codes.
pub mod Attempts
pub mod Limit
pub mod Overlap
use Prim.Native.String
use yukbor_backend.Common.{
  ℕ, suc, ◌+◌, ◌*◌, String, Option, none, some, Bool, true, false, ◌&&◌, ◌||◌, not, List, [], ◌∷◌,
  ◌++◌, ◌==◌, string_Eq, if◌then◌else◌, ltb, leb, contains,
}
use yukbor_backend.Common.Int.{ℤ, pos, ltb_ℤ, leb_ℤ}
use yukbor_backend.Common.Table.{query_row, update_where, count_where}
use yukbor_backend.Common.Exec.{Result, ok, err}
use yukbor_backend.Models.Enums.{Time}

-- Seconds as nanoseconds.
abbrev pub seconds : ℕ → Time
seconds n = n * 1000000000

abbrev pub otp_ttl : Time
otp_ttl = seconds 120

abbrev pub otp_max_attempts : ℕ
otp_max_attempts = 5

abbrev pub otp_window : Time
otp_window = seconds 600

abbrev pub otp_master_code : String
otp_master_code = "7777"

-- `LoginWindow`
abbrev pub login_window : Time
login_window = seconds 900

-- A row of auth.otp_codes.
pub record OtpRow : Type 0 where
  pub verification_id : String
  pub phone_number : String
  pub code_hash : String
  pub attempts : ℕ
  pub verified : Bool
  pub expires_at : Time
  pub created_at : Time

pub data OtpError : Type 0 where
  rate_limited expired invalid not_verified database : OtpError

-- `created_at > now() - interval`
abbrev pub is_recent : Time → Time → OtpRow → Bool
is_recent window now r = ltb now (r.created_at + window)

-- `CreateOTP`'s count
unfoldable pub recent_codes : Time → String → List OtpRow → ℕ
recent_codes now phone rows =
    count_where (λ r. r.phone_number == phone && is_recent otp_window now r) rows

abbrev pub new_otp : (String → String) → Time → String → String → String → OtpRow
new_otp hash now id code phone = record {
  verification_id = id;
  phone_number = phone;
  code_hash = hash code;
  attempts = 0;
  verified = false;
  expires_at = now + otp_ttl;
  created_at = now;
}

-- The first statement of `CreateOTP`: whether the phone has had its codes.
abbrev pub is_limited : Time → String → ℤ → List OtpRow → Bool
is_limited now phone limit rows =
    ltb_ℤ (pos 0) limit && leb_ℤ limit (pos (recent_codes now phone rows))

-- `CreateOTP` where no other request comes between its two statements; Otp/Overlap has them apart.
-- `hash` is SHA-256 in hexadecimal, `id` and `code` are drawn at random.
unfoldable pub create_otp :
    (String → String)
    → Time
    → String
    → String
    → String
    → ℤ
    → List OtpRow
    → Result OtpError (String × String) × List OtpRow
unfolding recent_codes
create_otp hash now id code phone limit rows =
    if is_limited now phone limit rows
    then (err OtpError.rate_limited, rows)
    else (ok (id, code), rows ++ new_otp hash now id code phone ∷ [])

pub record OtpPolicy : Type 0 where
  pub allow_master : Bool
  pub test_phones : List String
  pub test_all_phones : Bool
  pub test_code : String

-- `accepts`, without the flag that only a log line reads.
unfoldable pub accepts : (String → String) → OtpPolicy → String → String → String → Bool
accepts hash p phone code stored =
    if stored == hash code
    then true
    else if p.allow_master && code == otp_master_code
    then true
    else not (p.test_code == "")
      && code == p.test_code
      && (p.test_all_phones || contains phone p.test_phones)

abbrev pub is_id : String → OtpRow → Bool
is_id id r = r.verification_id == id

abbrev pub counted : OtpRow → OtpRow
counted r = record r { attempts = suc r.attempts }

abbrev pub confirmed : OtpRow → OtpRow
confirmed r = record r { verified = true }

-- The outcome for the row of the code: whether it is confirmed now, or a wrong guess is counted.
pub data Verdict : Type 0 where
  already late worn_out wrong right : Verdict

unfoldable pub judge : (String → String) → OtpPolicy → Time → String → OtpRow → Verdict
unfolding accepts
judge hash policy now code r =
    if r.verified
    then Verdict.already
    else if ltb r.expires_at now
    then Verdict.late
    else if leb otp_max_attempts r.attempts
    then Verdict.worn_out
    else if accepts hash policy r.phone_number code r.code_hash
    then Verdict.right
    else Verdict.wrong

-- `lost` says that the UPDATE fails: that of a wrong guess goes unnoticed.
unfoldable pub settle :
    Bool → String → Verdict → List OtpRow → Result OtpError (Unit {0}) × List OtpRow
settle lost id Verdict.already rows = (ok tt, rows)
settle lost id Verdict.late rows = (err OtpError.expired, rows)
settle lost id Verdict.worn_out rows = (err OtpError.invalid, rows)
settle lost id Verdict.wrong rows =
    (err OtpError.invalid, if lost then rows else update_where (is_id id) counted rows)
settle true id Verdict.right rows = (err OtpError.database, rows)
settle false id Verdict.right rows = (ok tt, update_where (is_id id) confirmed rows)

settle_found :
    (String → String)
    → OtpPolicy
    → Time
    → Bool
    → String
    → String
    → Option OtpRow
    → List OtpRow
    → Result OtpError (Unit {0}) × List OtpRow
unfolding judge settle
settle_found hash policy now lost id code none rows = (err OtpError.invalid, rows)
settle_found hash policy now lost id code (some r) rows =
    settle lost id (judge hash policy now code r) rows

-- `VerifyOTP`
unfoldable pub verify_otp :
    (String → String)
    → OtpPolicy
    → Time
    → Bool
    → String
    → String
    → List OtpRow
    → Result OtpError (Unit {0}) × List OtpRow
unfolding settle_found
verify_otp hash policy now lost id code rows =
    settle_found hash policy now lost id code (query_row (is_id id) rows) rows

-- `RecentlyVerified`
unfoldable pub recently_verified : Time → String → List OtpRow → Bool
recently_verified now phone rows =
    ltb 0 (
      count_where (λ r. r.phone_number == phone && r.verified && is_recent login_window now r) rows)

phone_of : Option OtpRow → Result OtpError String
phone_of none = err OtpError.not_verified
phone_of (some r) = if r.verified then ok r.phone_number else err OtpError.not_verified

-- `VerifiedPhone`
unfoldable pub verified_phone : String → List OtpRow → Result OtpError String
unfolding phone_of
verified_phone id rows = phone_of (query_row (is_id id) rows)
