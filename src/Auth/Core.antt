-- ===== src/Auth/Core.antt =====
-- internal/auth/handler.go: what its requests share. The state of the service, what a request
-- meets, and the helpers.
use Prim.Native.Char.{code}
use Prim.Native.String
use text.Mathlib.Text.{starts_with}
use yukbor_backend.Common.{
  ℕ, ◌+◌, String, Option, Bool, true, false, ◌&&◌, not, List, ◌==◌, string_Eq, leb, natb,
  if◌then◌else◌,
}
use yukbor_backend.Common.Text.{trim_space}
use yukbor_backend.Common.Exec.{Result, ok, err, pure, raise_if, modify, ◌>>=◌, ◌>>◌}
use yukbor_backend.Httpx.{Code, failure, Handler}
use yukbor_backend.Models.Enums.{Time, UserRole, user_role_text}
use yukbor_backend.Models.Admin.{User, UserDetail}
use yukbor_backend.Config.{Config}
use yukbor_backend.Jwtx
use yukbor_backend.Jwtx.{Codec, new_access, new_refresh}
use yukbor_backend.Auth.Otp.{OtpRow, OtpError, verified_phone, seconds}
use yukbor_backend.Auth.Passes.{PassRow}
use yukbor_backend.Auth.Sessions.{SessionRow, save_session}
use yukbor_backend.Auth.Users.{UserRecord}
use yukbor_backend.Auth.Registry.{Digest}

-- The schema auth.
pub record AuthDb : Type 0 where
  pub otps : List OtpRow
  pub passes : List PassRow
  pub users : List UserRecord
  pub sessions : List SessionRow

-- The statements that can fail in the database; one that fails changes nothing. One that is given
-- a text for a UUID that is none fails too.
pub data Point : Type 0 where
  count_codes insert_code read_code write_code read_phone read_recent : Point
  insert_pass use_pass : Point
  read_user write_user insert_admin : Point
  save_token rotate_token revoke_token : Point

-- What a request meets: the clock, what is drawn at random, the failures, whether the caller is
-- gone when a registry answers, and what the standard library computes.
pub record Env : Type 0 where
  pub now : Time
  pub fresh_id : String
  pub fresh_code : String
  pub fresh_token : String
  pub fails : Point → Bool
  pub caller_gone : Bool
  pub hash : String → String
  pub digest : Digest
  pub codec : Codec
  pub parse_date : String → Option Time
  pub to_upper : String → String

abbrev pub access_token_ttl : Time
access_token_ttl = seconds 86400

abbrev pub refresh_token_ttl : Time
refresh_token_ttl = seconds 2592000

abbrev pub admin_account_phone : String
admin_account_phone = "+998900000000"

abbrev pub admin_account_name : String
admin_account_name = "Administrator"

abbrev all_digits : String → Bool
all_digits String.[] = true
all_digits (String.◌∷◌ c s) = leb 48 (code c) && leb (code c) 57 && all_digits s

-- `validPhone`
unfoldable pub valid_phone : String → Bool
valid_phone p =
    if not (starts_with p "+998" && natb (String.len p) 13)
    then false
    else all_digits (String.slice p 1 (String.len p))

-- `validRole`
unfoldable pub valid_role : UserRole → Bool
valid_role UserRole.client = true
valid_role UserRole.driver = true
valid_role UserRole.equipment_provider = true
valid_role UserRole.labor_provider = true
valid_role UserRole.fleet_admin = true
valid_role UserRole.admin = true
valid_role (UserRole.other _) = false

-- `preferVerifiedName`
unfoldable pub prefer_verified_name : String → String → String
unfolding trim_space
prefer_verified_name verified typed = if trim_space verified == "" then typed else verified

-- `detail`
unfoldable pub detail : UserRecord → UserDetail
detail u = record {
  user = u.user;
  created_at = u.created_at;
  license_number = u.license_number;
  license_categories = u.license_categories;
  vehicle_plate = u.vehicle_plate;
  rejection_reason = u.rejection_reason;
}

-- `VerifiedPhone`, which the database may fail.
unfoldable pub phone_behind : Env → String → AuthDb → Result OtpError String
phone_behind env id db =
    if env.fails Point.read_phone then err OtpError.database else verified_phone id db.otps

abbrev pub belongs : String → Result OtpError String → Bool
belongs phone (ok p) = p == phone
belongs phone (err _) = false

-- The two tokens of a session.
pub record TokenPair : Type 0 where
  pub access_token : String
  pub refresh_token : String

unfoldable pub pair_for : Env → Config → User → TokenPair
unfolding Jwtx.sign new_access new_refresh
pair_for env cfg u = record {
  access_token =
      Jwtx.sign env.codec cfg.jwt_secret
        (new_access env.now u.id (user_role_text u.role) access_token_ttl);
  refresh_token =
      Jwtx.sign env.codec cfg.jwt_secret
        (new_refresh env.now u.id (user_role_text u.role) refresh_token_ttl);
}

unfoldable pub save_pair : Env → User → TokenPair → AuthDb → AuthDb
unfolding save_session
save_pair env u pair db = record db {
  sessions =
      save_session (env.hash pair.refresh_token) u.id (env.now + refresh_token_ttl) db.sessions;
}

-- `mintPair`
unfoldable pub mint_pair : Env → Config → User → Handler AuthDb TokenPair
unfolding pair_for save_pair
mint_pair env cfg u = do
  raise_if (env.fails Point.save_token) (failure 500 Code.internal)
  modify (save_pair env u (pair_for env cfg u))
  pure (pair_for env cfg u)

-- The reply of a sign-in.
pub record SignedIn : Type 0 where
  pub status : ℕ
  pub user : User
  pub tokens : TokenPair

-- `issueTokens`
unfoldable pub issue_tokens : Env → Config → UserRecord → ℕ → Handler AuthDb SignedIn
unfolding mint_pair
issue_tokens env cfg u status = do
  pair ← mint_pair env cfg u.user
  pure (record { status = status; user = u.user; tokens = pair })
