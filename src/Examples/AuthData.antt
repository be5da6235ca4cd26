-- ===== src/Examples/AuthData.antt =====
-- A table of users, codes, passes and sessions, and what the requests to auth meet.
use yukbor_backend.Common.{ℕ, String, none, some, true, false, [], ◌∷◌}
use yukbor_backend.Common.Int.{pos}
use yukbor_backend.Config.{Config}
use yukbor_backend.Jwtx.{Claims, Codec}
use yukbor_backend.Models.Enums.{UserRole, VerificationStatus}
use yukbor_backend.Models.Admin.{User}
use yukbor_backend.Auth.Otp.{OtpRow, seconds}
use yukbor_backend.Auth.Passes.{MyIdRecord, PassRow}
use yukbor_backend.Auth.Sessions.{SessionRow}
use yukbor_backend.Auth.Users.{UserRecord}
use yukbor_backend.Auth.Core.{AuthDb, Env}
use yukbor_backend.Auth.SignIn.{RegisterRequest}

abbrev pub phone : String
phone = "+998901234567"

abbrev pub now_s : ℕ
now_s = seconds 1000

abbrev pub driver_claims : Claims
driver_claims = record { sub = "u2"; role = "driver"; typ = "access"; exp = 87400; iat = 1000 }

-- A codec that writes the user's id, and one set of claims.
abbrev pub codec : Codec
codec = record { mac = λ _ _. "mac"; encode = λ c. c.sub; decode = λ _. some driver_claims }

abbrev pub env : Env
env = record {
  now = now_s;
  fresh_id = "u2";
  fresh_code = "1234";
  fresh_token = "myid_tok_2";
  fails = λ _. false;
  caller_gone = false;
  hash = λ s. s;
  digest = λ _ _. 7;
  codec = codec;
  parse_date = λ _. none;
  to_upper = λ s. s;
}

abbrev pub cfg : Config
cfg = record {
  port = "8081";
  database_url = "postgres://auth";
  app_env = "prod";
  jwt_secret = "secret";
  internal_token = "internal";
  test_phones = "";
  test_otp_code = "0000";
  otp_rate_limit = pos 3;
  admin_username = "admin";
  admin_password = "long password";
  auth_url = "http://auth";
  orders_url = "http://orders";
  wallet_url = "http://wallet";
  notifications_url = "http://notifications";
  reviews_url = "http://reviews";
}

abbrev pub code_row : OtpRow
code_row = record {
  verification_id = "v1";
  phone_number = phone;
  code_hash = "1234";
  attempts = 0;
  verified = true;
  expires_at = seconds 1100;
  created_at = seconds 980;
}

abbrev pub pass : MyIdRecord
pass = record {
  token = "myid_tok_1";
  verification_id = "v1";
  pinfl = "31234567890124";
  passport_series = "AB";
  passport_number = "1234567";
  verified_full_name = "Karimov Aziz";
  confidence = 95;
  birth_date = none;
}

abbrev pub pass_row : PassRow
pass_row = record { pass = pass; consumed = false; expires_at = seconds 1500 }

abbrev pub driver : User
driver = record {
  id = "u2";
  role = UserRole.driver;
  full_name = "Karimov Aziz";
  phone_number = phone;
  email = none;
  is_verified = true;
  verification_status = VerificationStatus.approved;
  rating = 0;
  ratings_count = 0;
}

abbrev pub driver_record : UserRecord
driver_record = record {
  user = driver;
  pinfl = none;
  passport_series = none;
  passport_number = none;
  birth_date = none;
  license_number = none;
  license_categories = "B" ∷ "C" ∷ [];
  vehicle_plate = none;
  rejection_reason = none;
  created_at = 0;
  updated_at = 0;
}

abbrev pub session : SessionRow
session = record {
  token_hash = "header.u2.mac";
  user_id = "u2";
  expires_at = seconds 2000;
  revoked_at = none;
}

-- Before the registration, and after it.
abbrev pub empty_db : AuthDb
empty_db = record { otps = code_row ∷ []; passes = pass_row ∷ []; users = []; sessions = [] }

abbrev pub full_db : AuthDb
full_db = record {
  otps = code_row ∷ [];
  passes = [];
  users = driver_record ∷ [];
  sessions = session ∷ [];
}

abbrev pub register_body : RegisterRequest
register_body = record {
  full_name = "Aziz";
  phone_number = phone;
  role = UserRole.driver;
  myid_verification_token = "myid_tok_1";
}
