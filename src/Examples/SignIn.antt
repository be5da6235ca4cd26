-- ===== src/Examples/SignIn.antt =====
-- Registration and sign-ins at concrete requests.
use yukbor_backend.Common.{
  ◌≤◌, String, none, some, true, false, List, [], ◌∷◌, String-discrete, ◌≡◌, ◌≢◌, refl, arith,
}
use yukbor_backend.Common.Exec.{ok, pure, ◌>>=◌}
use yukbor_backend.Common.Text.{split}
use yukbor_backend.Config.{is_prod}
use yukbor_backend.Httpx.{Handler}
use yukbor_backend.Httpx.Guards.{authed_role}
use yukbor_backend.Models.Enums.{
  UserRole, user_role_text, VerificationStatus, VerificationStatus-discrete, UserRole-discrete,
}
use yukbor_backend.Jwtx.{Claims, new_access}
use yukbor_backend.Jwtx.Tokens.{CodecLaws}
use yukbor_backend.Auth.Otp.{verified_phone, OtpRow, OtpPolicy, settle, judge}
use yukbor_backend.Auth.Otp.Attempts.{Desk, Pending, Step, Reach, attempts_of, Reach-attempts}
use yukbor_backend.Auth.Users.Accounts.{Sound}
use yukbor_backend.Auth.Core.{AuthDb, Env, SignedIn, pair_for, access_token_ttl}
use yukbor_backend.Auth.SignIn
use yukbor_backend.Auth.SignIn.{LoginRequest}
use yukbor_backend.Auth.SignIn.Registration.{Registered, register-Registered}
use yukbor_backend.Auth.SignIn.Logins.{
  PhoneProved, IsAccountOf, IsOperator, login-PhoneProved, admin_login-IsOperator,
}
use yukbor_backend.Auth.SignIn.Tokens.{bearer, access_token_opens, pair_for_same_second}
use yukbor_backend.Auth.Requests
use yukbor_backend.Auth.Requests.Exchanged.{refresh-once}
use yukbor_backend.Auth.Requests.{Request, serve_all-Sound}
use yukbor_backend.Examples.AuthData.{
  phone, env, cfg, driver_claims, code_row, driver, session, empty_db, full_db, register_body,
}

abbrev registered : SignedIn
registered = record { status = 201; user = driver; tokens = pair_for env cfg driver }

abbrev after_register : AuthDb
after_register = (SignIn.register env cfg (some register_body) empty_db).1

registers : (SignIn.register env cfg (some register_body) empty_db).0 ≡ ok registered
unfolding SignIn.register ◌>>=◌ String-discrete VerificationStatus-discrete verified_phone
registers = refl

register-Registered_example : Registered env register_body empty_db registered after_register
register-Registered_example =
    register-Registered env cfg register_body empty_db registered registers

abbrev login_body : LoginRequest
login_body = record { phone_number = phone; verification_id = "" }

abbrev logged_in : SignedIn
logged_in = record { status = 200; user = driver; tokens = pair_for env cfg driver }

logs_in : (SignIn.login env cfg (some login_body) full_db).0 ≡ ok logged_in
unfolding SignIn.login ◌>>=◌ String-discrete
logs_in = refl

in_prod : is_prod cfg ≡ true
unfolding is_prod String-discrete
in_prod = refl

login-PhoneProved_example :
    (req : LoginRequest) × (some login_body ≡ some req)
    × PhoneProved env req full_db
    × IsAccountOf req.phone_number logged_in full_db
login-PhoneProved_example =
    login-PhoneProved env cfg (some login_body) full_db logged_in in_prod logs_in

abbrev operator_body : String × String
operator_body = ("admin", "long password")

abbrev operator : SignedIn
operator = record {
  status = 200;
  user = record driver {
    role = UserRole.admin;
    full_name = "Administrator";
    phone_number = "+998900000000";
  };
  tokens = pair_for env cfg (record driver { role = UserRole.admin });
}

operates : (SignIn.admin_login env cfg (some operator_body) full_db).0 ≡ ok operator
unfolding SignIn.admin_login ◌>>=◌ String-discrete VerificationStatus-discrete UserRole-discrete
operates = refl

admin_login-IsOperator_example :
    (req : String × String) × (some operator_body ≡ some req) × IsOperator cfg req operator
admin_login-IsOperator_example =
    admin_login-IsOperator env cfg (some operator_body) full_db operator operates

access_laws :
    CodecLaws env.codec (new_access env.now "u2" (user_role_text UserRole.driver) access_token_ttl)
unfolding new_access user_role_text
access_laws = record {
  encode_lacks = (refl, (refl, tt));
  mac_lacks = λ _ _. (refl, (refl, (refl, tt)));
  decode-encode = refl;
}

abbrev show_caller : Claims → Handler AuthDb String
show_caller c = pure c.sub

access_token_opens_example :
    authed_role (bearer env cfg (pair_for env cfg driver).access_token) ("driver" ∷ []) show_caller
    ≡ show_caller driver_claims
unfolding String-discrete new_access user_role_text
access_token_opens_example =
    access_token_opens env env cfg driver ("driver" ∷ []) show_caller access_laws refl (omega arith)

abbrev token : String
token = "eyJhbGciOiJIUzI1NiIsInR5cCI6IkpXVCJ9.u2.mac"

abbrev token_db : AuthDb
token_db = record full_db { sessions = record session { token_hash = token } ∷ [] }

refreshes : (SignIn.refresh env cfg (some token) token_db).0 ≡ ok (pair_for env cfg driver)
unfolding SignIn.refresh ◌>>=◌ String-discrete split
refreshes = refl

-- In between, the user signs in within the same second, and the token is tried once more.
abbrev in_between : List Request
in_between = Request.login env cfg (some login_body) ∷ Request.refresh env cfg (some token) ∷ []

refresh-once_example :
    (SignIn.refresh env cfg
      (some token)
      (Requests.serve_all in_between (SignIn.refresh env cfg (some token) token_db).1)).0
    ≢ ok (pair_for env cfg driver)
unfolding String-discrete
refresh-once_example =
    refresh-once env env cfg cfg token token_db (pair_for env cfg driver) (pair_for env cfg driver)
      in_between (omega arith) refl refreshes

abbrev half_second_later : Env
half_second_later = record env { now = 1000500000000 }

pair_for_same_second_example : pair_for half_second_later cfg driver ≡ pair_for env cfg driver
pair_for_same_second_example = pair_for_same_second env half_second_later cfg driver refl refl

abbrev requests : List Request
requests =
    Request.register env cfg (some register_body)
    ∷ Request.register env cfg (some register_body)
    ∷ Request.login env cfg (some login_body)
    ∷ Request.set_verification env "u2"
        (some (record { status = some VerificationStatus.rejected; reason = none }))
    ∷ []

serve_all-Sound_example : Sound (Requests.serve_all requests empty_db).users
serve_all-Sound_example =
    serve_all-Sound requests empty_db (record { phones = λ q. omega arith; whole = refl })

-- A wrong guess that is read and then written.
abbrev young_row : OtpRow
young_row = record code_row { verified = false }

abbrev policy : OtpPolicy
policy = record {
  allow_master = false;
  test_phones = [];
  test_all_phones = false;
  test_code = "0000";
}

abbrev quiet : Desk
quiet = record { rows = young_row ∷ []; pending = [] }

abbrev guess : Pending
guess = record { id = "v1"; verdict = judge (λ s. s) policy 9 "9999" young_row; lost = false }

abbrev guessed : Desk
guessed = record { rows = (settle false "v1" guess.verdict (young_row ∷ [])).1; pending = [] }

one_guess : Reach (λ s. s) 2 quiet guessed
unfolding String-discrete
one_guess =
    Reach.next
      (Reach.next Reach.here
        (Step.read quiet policy 9 false "v1" "9999" young_row refl (omega arith)))
      (Step.write (record { rows = young_row ∷ []; pending = guess ∷ [] }) guess [] [] refl)

few_before : (id : String) → attempts_of id (young_row ∷ []) ≤ 6
unfolding attempts_of
few_before id = ground arith

Reach-attempts_example : attempts_of "v1" guessed.rows ≤ 6
Reach-attempts_example =
    Reach-attempts (λ s. s) 2 (young_row ∷ []) guessed "v1" few_before one_guess
