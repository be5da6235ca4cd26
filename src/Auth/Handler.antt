-- ===== src/Auth/Handler.antt =====
-- internal/auth/handler.go: the codes and the identity check.

use yukbor_backend.Common.{
  ℕ, String, Option, none, some, Bool, ◌||◌, ◌&&◌, not, List, ◌==◌, string_Eq, if◌then◌else◌,
}
use yukbor_backend.Common.Int.{pos, ltb_ℤ}
use yukbor_backend.Common.Exec.{
  Result, ok, err, pure, raise, gets, or_raise, raise_if, modify, ◌>>=◌, ◌>>◌,
}
use yukbor_backend.Httpx.{Code, failure, fail, Handler}
use yukbor_backend.Config.{Config, is_prod, test_phone_set, test_phones_are_universal}
use yukbor_backend.Auth.Otp.{OtpRow, OtpError, OtpPolicy, create_otp, verify_otp}
use yukbor_backend.Auth.Passes.{MyIdRecord, create_pass}
use yukbor_backend.Auth.Registry.{MyIdVerifyRequest, MyIdVerifyResult, MyIdError, verify_person}
use yukbor_backend.Auth.Core.{AuthDb, Env, Point, valid_phone, phone_behind}

-- The reply of POST /auth/otp/request; `dev_code` is left out in production.
pub record CodeSent : Type 0 where
  pub verification_id : String
  pub expires_in_seconds : ℕ
  pub dev_code : Option String

abbrev code_reply : Config → String → String → CodeSent
code_reply cfg id code = record {
  verification_id = id;
  expires_in_seconds = 120;
  dev_code = if is_prod cfg then none else some code;
}

-- What `CreateOTP` came to, and the table that it leaves.
unfoldable pub code_created :
    Env → Config → Result OtpError (String × String) × List OtpRow → Handler AuthDb CodeSent
unfolding is_prod
code_created env cfg (err OtpError.rate_limited, rows) = raise (failure 429 Code.otp_rate_limited)
code_created env cfg (err _, rows) = fail
code_created env cfg (ok (id, code), rows) =
    raise_if (env.fails Point.insert_code) (failure 500 Code.internal)
    >> (modify (λ db. record db { otps = rows }) >> pure (code_reply cfg id code))

-- `otpRequest`: the SMS goes out, or its failure is logged.
unfoldable pub otp_request : Env → Config → Option String → Handler AuthDb CodeSent
unfolding valid_phone create_otp code_created
otp_request env cfg body = do
  phone ← or_raise body (failure 400 Code.bad_request)
  raise_if (not (valid_phone phone)) (failure 400 Code.validation)
  raise_if (ltb_ℤ (pos 0) cfg.otp_rate_limit && env.fails Point.count_codes)
      (failure 500 Code.internal)
  made ← gets (λ db.
      create_otp env.hash env.now env.fresh_id env.fresh_code phone cfg.otp_rate_limit db.otps)
  code_created env cfg made

unfoldable pub otp_policy : Config → OtpPolicy
unfolding is_prod test_phone_set test_phones_are_universal
otp_policy cfg = record {
  allow_master = not (is_prod cfg);
  test_phones = test_phone_set cfg;
  test_all_phones = test_phones_are_universal cfg;
  test_code = cfg.test_otp_code;
}

-- What `VerifyOTP` came to: what it wrote stays written.
unfoldable pub code_checked : Result OtpError (Unit {0}) × List OtpRow → Handler AuthDb (Unit {0})
code_checked (ok _, rows) = modify (λ db. record db { otps = rows })
code_checked (err OtpError.expired, rows) =
    modify (λ db. record db { otps = rows }) >> raise (failure 410 Code.otp_expired)
code_checked (err OtpError.invalid, rows) =
    modify (λ db. record db { otps = rows }) >> raise (failure 400 Code.otp_invalid)
code_checked (err OtpError.database, rows) = fail
code_checked (err OtpError.rate_limited, rows) = fail
code_checked (err OtpError.not_verified, rows) = fail

-- `otpVerify`: the body has the verification's id and the code.
unfoldable pub otp_verify : Env → Config → Option (String × String) → Handler AuthDb (Unit {0})
unfolding verify_otp otp_policy code_checked
otp_verify env cfg body = do
  req ← or_raise body (failure 400 Code.bad_request)
  raise_if (env.fails Point.read_code) (failure 500 Code.internal)
  checked ← gets (λ db.
      verify_otp env.hash (otp_policy cfg) env.now (env.fails Point.write_code) req.0 req.1 db.otps)
  code_checked checked

-- The file of the multipart form. The simulated client does not look at its contents.
pub data Selfie : Type 0 where
  missing unreadable present : Selfie

pub record MyIdForm : Type 0 where
  pub verification_id : String
  pub passport_series : String
  pub passport_number : String
  pub pinfl : String
  pub birth_date : String
  pub selfie : Selfie

unfoldable pub phone_checked : Result OtpError String → Handler AuthDb (Unit {0})
phone_checked (ok _) = pure tt
phone_checked (err OtpError.not_verified) = raise (failure 403 Code.otp_not_verified)
phone_checked (err OtpError.rate_limited) = fail
phone_checked (err OtpError.expired) = fail
phone_checked (err OtpError.invalid) = fail
phone_checked (err OtpError.database) = fail

unfoldable pub selfie_read : Selfie → Handler AuthDb (Unit {0})
selfie_read Selfie.missing = raise (failure 400 Code.validation)
selfie_read Selfie.unreadable = fail
selfie_read Selfie.present = pure tt

abbrev to_request : Env → MyIdForm → MyIdVerifyRequest
to_request env form = record {
  verification_id = form.verification_id;
  passport_series = env.to_upper form.passport_series;
  passport_number = form.passport_number;
  pinfl = form.pinfl;
  birth_date = form.birth_date;
}

unfoldable pub person_checked : Result MyIdError MyIdVerifyResult → Handler AuthDb MyIdVerifyResult
person_checked (ok res) =
    if res.is_matched then pure res else raise (failure 422 Code.face_mismatch)
person_checked (err MyIdError.passport_not_found) = raise (failure 404 Code.passport_not_found)
person_checked (err MyIdError.myid_unavailable) = raise (failure 503 Code.myid_unavailable)

unfoldable pub pass_for : Env → MyIdVerifyRequest → MyIdVerifyResult → MyIdRecord
pass_for env req res = record {
  token = env.fresh_token;
  verification_id = req.verification_id;
  pinfl = req.pinfl;
  passport_series = req.passport_series;
  passport_number = req.passport_number;
  verified_full_name = res.verified_full_name;
  confidence = res.confidence;
  birth_date = env.parse_date req.birth_date;
}

abbrev incomplete : MyIdVerifyRequest → Bool
incomplete req = req.verification_id == "" || (req.pinfl == "" || req.passport_number == "")

-- A match is kept as a pass.
unfoldable pub pass_stored : Env → MyIdVerifyRequest → MyIdVerifyResult → Handler AuthDb MyIdRecord
unfolding pass_for create_pass
pass_stored env req res = do
  raise_if (env.fails Point.insert_pass) (failure 500 Code.internal)
  modify (λ db. record db { passes = create_pass env.now (pass_for env req res) db.passes })
  pure (pass_for env req res)

-- `myidVerify`
unfoldable pub myid_verify : Env → Option MyIdForm → Handler AuthDb MyIdRecord
unfolding phone_behind phone_checked selfie_read verify_person person_checked pass_stored
myid_verify env body = do
  form ← or_raise body (failure 400 Code.bad_request)
  raise_if (incomplete (to_request env form)) (failure 400 Code.validation)
  phone ← gets (phone_behind env form.verification_id)
  phone_checked phone
  selfie_read form.selfie
  res ← person_checked (verify_person env.digest env.caller_gone (to_request env form))
  pass_stored env (to_request env form) res
