-- ===== src/Auth/SignIn.antt =====
-- internal/auth/handler.go: registration, the ways to sign in, and sessions.
pub mod Registration
pub mod Logins
pub mod Tokens
use yukbor_backend.Common.{
  String, Option, none, some, Bool, true, false, not, ◌&&◌, List, [], ◌==◌, string_Eq,
  if◌then◌else◌,
}
use yukbor_backend.Common.Exec.{
  Result, ok, err, pure, gets, or_raise, raise_if, modify, ◌>>=◌, ◌>>◌,
}
use yukbor_backend.Httpx.{Code, Failure, failure, Handler}
use yukbor_backend.Config.{Config, is_prod, admin_password_matches}
use yukbor_backend.Models.Enums.{UserRole, VerificationStatus, verification_status_Eq}
use yukbor_backend.Jwtx
use yukbor_backend.Jwtx.{unix}
use yukbor_backend.Auth.Otp.{recently_verified}
use yukbor_backend.Auth.Passes.{MyIdRecord, PassRow, PassError, consume_pass}
use yukbor_backend.Auth.Sessions.{SessionRow, SessionError, rotate_session, revoke_session}
use yukbor_backend.Auth.Users.{
  UserRecord, NewUser, UserError, create_user, user_by_id, user_by_phone, admin_account, has_admin,
}
use yukbor_backend.Auth.Registry.{
  LicenseResult, verify_driver_license, needs_license_check, required_category_for_role,
}
use yukbor_backend.Auth.Core.{
  AuthDb, Env, Point, TokenPair, SignedIn, valid_role, prefer_verified_name, phone_behind, belongs,
  mint_pair, issue_tokens, admin_account_phone, admin_account_name,
}

-- The body of POST /auth/register.
pub record RegisterRequest : Type 0 where
  pub full_name : String
  pub phone_number : String
  pub role : UserRole
  pub myid_verification_token : String

unfoldable pub take_result : Result PassError MyIdRecord → List PassRow → Handler AuthDb MyIdRecord
take_result (ok rec) passes db = (ok rec, record db { passes = passes })
take_result (err _) passes db =
    (err (failure 401 Code.myid_token_invalid), record db { passes = passes })

-- The pass is used up.
unfoldable pub take_pass : Env → String → Handler AuthDb MyIdRecord
unfolding take_result consume_pass
take_pass env token db =
    let (r, passes) = consume_pass env.now token db.passes in take_result r passes db

unfoldable pub new_user : RegisterRequest → MyIdRecord → NewUser
unfolding prefer_verified_name
new_user req kyc = record {
  role = req.role;
  full_name = prefer_verified_name kyc.verified_full_name req.full_name;
  phone_number = req.phone_number;
  verification_status = VerificationStatus.approved;
  rejection_reason = none;
  pinfl = kyc.pinfl;
  passport_series = kyc.passport_series;
  passport_number = kyc.passport_number;
  birth_date = kyc.birth_date;
  license_number = none;
  license_categories = [];
  vehicle_plate = none;
}

unfoldable pub with_license : LicenseResult → NewUser → NewUser
with_license lic n = record n {
  license_number = some lic.license_number;
  license_categories = lic.categories;
  vehicle_plate = some lic.vehicle_plate;
}

unfoldable pub with_rejection : String → NewUser → NewUser
with_rejection reason n = record n {
  verification_status = VerificationStatus.rejected;
  rejection_reason = some reason;
}

pub data AccountError : Type 0 where
  taken database : AccountError

unfoldable pub created :
    Env
    → AuthDb
    → Result UserError UserRecord × List UserRecord
    → Result AccountError UserRecord × AuthDb
created env db (err _, users) = (err AccountError.taken, db)
created env db (ok u, users) =
    if env.fails Point.write_user
    then (err AccountError.database, db)
    else (ok u, record db { users = users })

-- `CreateUser`, which the database may fail.
unfoldable pub try_create : Env → NewUser → AuthDb → Result AccountError UserRecord × AuthDb
unfolding created create_user
try_create env n db =
    if env.fails Point.read_user
    then (err AccountError.database, db)
    else created env db (create_user env.fresh_id env.now n db.users)

unfoldable pub account_made :
    Result AccountError UserRecord × AuthDb → Result Failure UserRecord × AuthDb
account_made (ok u, db) = (ok u, db)
account_made (err AccountError.taken, db) = (err (failure 409 Code.phone_already_registered), db)
account_made (err AccountError.database, db) = (err (failure 500 Code.internal), db)

unfoldable pub make_account : Env → NewUser → Handler AuthDb UserRecord
unfolding account_made try_create
make_account env n db = account_made (try_create env n db)

-- The applicant without the category is kept with the reason, where that works.
unfoldable pub turn_away : Env → NewUser → Handler AuthDb NewUser
unfolding try_create
turn_away env n db = (err (failure 403 Code.license_category_mismatch), (try_create env n db).1)

unfoldable pub admit : Env → NewUser → LicenseResult → Handler AuthDb NewUser
unfolding turn_away with_license with_rejection
admit env n lic =
    if lic.status == VerificationStatus.rejected
    then turn_away env (with_rejection lic.reason (with_license lic n))
    else pure (with_license lic n)

-- The check of the driving licence.
unfoldable pub through_registry : Env → MyIdRecord → NewUser → Handler AuthDb NewUser
unfolding admit verify_driver_license required_category_for_role
through_registry env kyc n = do
  lic ←
      or_raise
        (verify_driver_license env.digest env.caller_gone (record {
          pinfl = kyc.pinfl;
          vehicle_type = none;
          role_category = required_category_for_role n.role;
        }))
        (failure 500 Code.internal)
  admit env n lic

-- The gate of the drivers and of the equipment providers.
unfoldable pub licensed : Env → MyIdRecord → NewUser → Handler AuthDb NewUser
unfolding through_registry needs_license_check
licensed env kyc n = if needs_license_check n.role then through_registry env kyc n else pure n

-- `register`, once its body is read.
unfoldable pub register_applicant : Env → Config → RegisterRequest → Handler AuthDb SignedIn
unfolding valid_role take_pass phone_behind new_user licensed make_account issue_tokens
register_applicant env cfg req = do
  raise_if (not (valid_role req.role)) (failure 400 Code.validation)
  raise_if (env.fails Point.use_pass) (failure 500 Code.internal)
  kyc ← take_pass env req.myid_verification_token
  phone ← gets (phone_behind env kyc.verification_id)
  raise_if (not (belongs req.phone_number phone)) (failure 401 Code.myid_token_invalid)
  n ← licensed env kyc (new_user req kyc)
  u ← make_account env n
  issue_tokens env cfg u 201

-- `register`
unfoldable pub register : Env → Config → Option RegisterRequest → Handler AuthDb SignedIn
unfolding register_applicant
register env cfg body = do
  req ← or_raise body (failure 400 Code.bad_request)
  register_applicant env cfg req

-- The body of POST /auth/login; the contract sends no verification's id.
pub record LoginRequest : Type 0 where
  pub phone_number : String
  pub verification_id : String

-- `case req.VerificationID != ""`
unfoldable pub proves_by_id : Env → LoginRequest → Handler AuthDb (Unit {0})
unfolding phone_behind
proves_by_id env req = do
  phone ← gets (phone_behind env req.verification_id)
  raise_if (not (belongs req.phone_number phone)) (failure 401 Code.otp_not_verified)

-- `case h.cfg.IsProd()`
unfoldable pub proves_recent : Env → LoginRequest → Handler AuthDb (Unit {0})
unfolding recently_verified
proves_recent env req = do
  raise_if (env.fails Point.read_recent) (failure 500 Code.internal)
  recent ← gets (λ db. recently_verified env.now req.phone_number db.otps)
  raise_if (not recent) (failure 401 Code.otp_not_verified)

-- The proof that the caller holds the number.
unfoldable pub proves_phone : Env → Config → LoginRequest → Handler AuthDb (Unit {0})
unfolding proves_by_id proves_recent is_prod
proves_phone env cfg req =
    if not (req.verification_id == "")
    then proves_by_id env req
    else if is_prod cfg
    then proves_recent env req
    else pure tt

-- `login`
unfoldable pub login : Env → Config → Option LoginRequest → Handler AuthDb SignedIn
unfolding proves_phone user_by_phone issue_tokens
login env cfg body = do
  req ← or_raise body (failure 400 Code.bad_request)
  proves_phone env cfg req
  raise_if (env.fails Point.read_user) (failure 500 Code.internal)
  found ← gets (λ db. user_by_phone req.phone_number db.users)
  u ← or_raise found (failure 404 Code.user_not_found)
  issue_tokens env cfg u 200

-- `AdminAccount` as the handler calls it: its INSERT is made only where there is no administrator.
unfoldable pub resolve_account : Env → Handler AuthDb UserRecord
unfolding admin_account has_admin
resolve_account env db =
    if env.fails Point.insert_admin && not (has_admin db.users)
    then (err (failure 500 Code.internal), db)
    else let (u, users) =
        admin_account env.fresh_id env.now admin_account_phone admin_account_name db.users in
      (ok u, record db { users = users })

-- `adminLogin`: the body is the username and the password.
unfoldable pub admin_login : Env → Config → Option (String × String) → Handler AuthDb SignedIn
unfolding admin_password_matches resolve_account issue_tokens
admin_login env cfg body = do
  req ← or_raise body (failure 400 Code.bad_request)
  raise_if (not (admin_password_matches cfg req.0 req.1)) (failure 401 Code.invalid_credentials)
  raise_if (env.fails Point.read_user) (failure 500 Code.internal)
  u ← resolve_account env
  issue_tokens env cfg u 200

unfoldable pub rotate_result : Result SessionError String → List SessionRow → Handler AuthDb String
rotate_result (ok user) rows db = (ok user, record db { sessions = rows })
rotate_result (err _) rows db = (err (failure 401 Code.unauthorized), record db { sessions = rows })

unfoldable pub exchange : Env → String → Handler AuthDb String
unfolding rotate_result rotate_session
exchange env token db =
    let (r, rows) = rotate_session env.now (env.hash token) db.sessions in rotate_result r rows db

abbrev is_valid_token : Env → Config → String → Bool
is_valid_token env cfg token = elim (Jwtx.verify env.codec cfg.jwt_secret (unix env.now) token) [
  | ok _ ↦ true
  | err _ ↦ false
]

-- `refresh`
unfoldable pub refresh : Env → Config → Option String → Handler AuthDb TokenPair
unfolding Jwtx.verify exchange user_by_id mint_pair
refresh env cfg body = do
  token ← or_raise body (failure 400 Code.bad_request)
  raise_if (not (is_valid_token env cfg token)) (failure 401 Code.unauthorized)
  raise_if (env.fails Point.rotate_token) (failure 500 Code.internal)
  id ← exchange env token
  raise_if (env.fails Point.read_user) (failure 500 Code.internal)
  found ← gets (λ db. user_by_id id db.users)
  u ← or_raise found (failure 500 Code.internal)
  mint_pair env cfg u.user

-- `logout`
unfoldable pub logout : Env → Option String → Handler AuthDb (Unit {0})
unfolding revoke_session
logout env body = do
  token ← or_raise body (failure 400 Code.bad_request)
  raise_if (env.fails Point.revoke_token) (failure 500 Code.internal)
  modify (λ db. record db { sessions = revoke_session env.now (env.hash token) db.sessions })
