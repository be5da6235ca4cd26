-- ===== src/Auth/Requests.antt =====
-- Any sequence of requests to the auth service: what it never does to the accounts.
pub mod Exchanged
use yukbor_backend.Common.{
  ℕ, String, Option, none, some, List, [], ◌∷◌, ◌≡◌, refl, subst, sym, arith, ◌==◌, ◌⊎◌, inl, inr,
  not, ◌&&◌, Bool-cases,
}
use yukbor_backend.Common.Exec.{
  Result, EndsIn, EndsIn-pure, EndsIn-bind, EndsIn-or_raise, EndsIn-gets, EndsIn-raise_if,
  EndsIn-if, ◌>>=◌, pure,
}
use yukbor_backend.Jwtx.{Claims}
use yukbor_backend.Config.{Config}
use yukbor_backend.Models.Admin.{Rating, User}
use yukbor_backend.Auth.Otp.{OtpRow, OtpError}
use yukbor_backend.Models.Enums.{VerificationStatus, verification_status_Eq}
use yukbor_backend.Auth.Registry.{LicenseResult, needs_license_check}
use yukbor_backend.Auth.Passes.{MyIdRecord}
use yukbor_backend.Auth.Core
use yukbor_backend.Auth.Core.{AuthDb, Env, TokenPair}
use yukbor_backend.Auth.Handler
use yukbor_backend.Auth.SignIn
use yukbor_backend.Auth.Profile
use yukbor_backend.Auth.Users
use yukbor_backend.Auth.Users.{UserRecord, NewUser, UserError, has_admin}
use yukbor_backend.Auth.Users.Accounts.{
  Sound, create_user-Sound, update_profile-Sound, set_verification-Sound, set_rating-Sound,
  admin_account-Sound,
}

-- A request that writes, with what it meets.
pub data Request : Type 0 where
  otp_request : Env → Config → Option String → Request
  otp_verify : Env → Config → Option (String × String) → Request
  myid_verify : Env → Option Handler.MyIdForm → Request
  register : Env → Config → Option SignIn.RegisterRequest → Request
  login : Env → Config → Option SignIn.LoginRequest → Request
  admin_login : Env → Config → Option (String × String) → Request
  refresh : Env → Config → Option String → Request
  logout : Env → Option String → Request
  update_me : Env → Claims → Option (Option String × Option String) → Request
  internal_rating : Env → String → Option (Rating × ℕ) → Request
  set_verification : Env → String → Option Profile.VerificationRequest → Request

unfoldable pub serve : Request → AuthDb → AuthDb
serve (Request.otp_request env cfg body) db = (Handler.otp_request env cfg body db).1
serve (Request.otp_verify env cfg body) db = (Handler.otp_verify env cfg body db).1
serve (Request.myid_verify env body) db = (Handler.myid_verify env body db).1
serve (Request.register env cfg body) db = (SignIn.register env cfg body db).1
serve (Request.login env cfg body) db = (SignIn.login env cfg body db).1
serve (Request.admin_login env cfg body) db = (SignIn.admin_login env cfg body db).1
serve (Request.refresh env cfg body) db = (SignIn.refresh env cfg body db).1
serve (Request.logout env body) db = (SignIn.logout env body db).1
serve (Request.update_me env claims body) db = (Profile.update_me env claims body db).1
serve (Request.internal_rating env id body) db = (Profile.internal_rating env id body db).1
serve (Request.set_verification env id body) db = (Profile.set_user_verification env id body db).1

unfoldable pub serve_all : List Request → AuthDb → AuthDb
unfolding serve
serve_all [] db = db
serve_all (req ∷ reqs) db = serve_all reqs (serve req db)

-- The requests that leave the accounts alone.
code_created_users :
    (env : Env) (cfg : Config) (made : Result OtpError (String × String) × List OtpRow)
    (db : AuthDb)
    → (Handler.code_created env cfg made db).1.users ≡ db.users
unfolding Handler.code_created ◌>>=◌
code_created_users env cfg made db = ground arith

code_checked_users :
    (checked : Result OtpError (Unit {0}) × List OtpRow) (db : AuthDb)
    → (Handler.code_checked checked db).1.users ≡ db.users
unfolding Handler.code_checked ◌>>=◌
code_checked_users checked db = ground arith

mint_pair_users :
    (env : Env) (cfg : Config) (u : User) (db : AuthDb)
    → (Core.mint_pair env cfg u db).1.users ≡ db.users
unfolding Core.mint_pair Core.save_pair ◌>>=◌
mint_pair_users env cfg u db = ground arith

issue_tokens_users :
    (env : Env) (cfg : Config) (u : UserRecord) (status : ℕ) (db : AuthDb)
    → (Core.issue_tokens env cfg u status db).1.users ≡ db.users
unfolding Core.issue_tokens Core.mint_pair Core.save_pair ◌>>=◌
issue_tokens_users env cfg u status db = ground arith

otp_request_users :
    (env : Env) (cfg : Config) (body : Option String) (db : AuthDb)
    → (Handler.otp_request env cfg body db).1.users ≡ db.users
unfolding Handler.otp_request ◌>>=◌
otp_request_users env cfg none db = refl
otp_request_users env cfg (some phone) db = ground arith

otp_verify_users :
    (env : Env) (cfg : Config) (body : Option (String × String)) (db : AuthDb)
    → (Handler.otp_verify env cfg body db).1.users ≡ db.users
unfolding Handler.otp_verify ◌>>=◌
otp_verify_users env cfg body db = ground arith

myid_verify_users :
    (env : Env) (body : Option Handler.MyIdForm) (db : AuthDb)
    → (Handler.myid_verify env body db).1.users ≡ db.users
unfolding Handler.myid_verify Handler.phone_checked Handler.selfie_read Handler.person_checked
    Handler.pass_stored ◌>>=◌
myid_verify_users env body db = ground arith

login_users :
    (env : Env) (cfg : Config) (body : Option SignIn.LoginRequest) (db : AuthDb)
    → (SignIn.login env cfg body db).1.users ≡ db.users
unfolding SignIn.login SignIn.proves_phone SignIn.proves_by_id SignIn.proves_recent ◌>>=◌
login_users env cfg body db = ground arith

refresh_users :
    (env : Env) (cfg : Config) (body : Option String) (db : AuthDb)
    → (SignIn.refresh env cfg body db).1.users ≡ db.users
unfolding SignIn.refresh SignIn.exchange SignIn.rotate_result ◌>>=◌
refresh_users env cfg body db = ground arith

logout_users :
    (env : Env) (body : Option String) (db : AuthDb)
    → (SignIn.logout env body db).1.users ≡ db.users
unfolding SignIn.logout ◌>>=◌
logout_users env body db = ground arith

-- Those that write them: the table is as before, or as a statement left it.
Sound-after :
    (before after written : List UserRecord)
    → (after ≡ before) ⊎ (after ≡ written)
    → Sound before
    → Sound written
    → Sound after
Sound-after before after written (inl e) s w = subst Sound (sym e) s
Sound-after before after written (inr e) s w = subst Sound (sym e) w

abbrev SoundDb : AuthDb → Type 0
SoundDb db = Sound db.users

try_create-Sound :
    (env : Env) (n : NewUser) (db : AuthDb)
    → Sound db.users
    → Sound (SignIn.try_create env n db).1.users
unfolding SignIn.try_create SignIn.created
try_create-Sound env n db s =
    Sound-after db.users (SignIn.try_create env n db).1.users _ (ground arith) s
      (create_user-Sound env.fresh_id env.now n db.users s)

take_pass_users :
    (env : Env) (token : String) (db : AuthDb) → (SignIn.take_pass env token db).1.users ≡ db.users
unfolding SignIn.take_pass SignIn.take_result
take_pass_users env token db = ground arith

make_account_state :
    (env : Env) (n : NewUser) (db : AuthDb)
    → (SignIn.make_account env n db).1 ≡ (SignIn.try_create env n db).1
unfolding SignIn.make_account SignIn.account_made
make_account_state env n db = ground arith

module _ (env : Env) where
  issue_tokens-Sound :
      (cfg : Config) (u : UserRecord) (status : ℕ) (db : AuthDb)
      → Sound db.users
      → EndsIn SoundDb (Core.issue_tokens env cfg u status) db
  issue_tokens-Sound cfg u status db s = record {
    at = subst Sound (sym (issue_tokens_users env cfg u status db)) s;
  }

  make_account-Sound :
      (n : NewUser) (db : AuthDb) → Sound db.users → Sound (SignIn.make_account env n db).1.users
  make_account-Sound n db s =
      subst SoundDb (sym (make_account_state env n db)) (try_create-Sound env n db s)

  abbrev rejected : LicenseResult → NewUser → NewUser
  rejected lic n = SignIn.with_rejection lic.reason (SignIn.with_license lic n)

  admit-Sound :
      (n : NewUser) (lic : LicenseResult) (db : AuthDb)
      → Sound db.users
      → EndsIn SoundDb (SignIn.admit env n lic) db
  unfolding SignIn.admit SignIn.turn_away
  admit-Sound n lic db s =
      EndsIn-if (lic.status == VerificationStatus.rejected) (SignIn.turn_away env (rejected lic n))
        (pure (SignIn.with_license lic n)) db
        (λ _. record { at = try_create-Sound env (rejected lic n) db s })
        (λ _. EndsIn-pure (SignIn.with_license lic n) db s)

  through_registry-Sound :
      (kyc : MyIdRecord) (n : NewUser) (db : AuthDb)
      → Sound db.users
      → EndsIn SoundDb (SignIn.through_registry env kyc n) db
  unfolding SignIn.through_registry
  through_registry-Sound kyc n db s = EndsIn-or_raise _ _ _ db s λ lic _. admit-Sound n lic db s

  licensed-Sound :
      (kyc : MyIdRecord) (n : NewUser) (db : AuthDb)
      → Sound db.users
      → EndsIn SoundDb (SignIn.licensed env kyc n) db
  unfolding SignIn.licensed
  licensed-Sound kyc n db s =
      EndsIn-if (needs_license_check n.role) (SignIn.through_registry env kyc n) (pure n) db
        (λ _. through_registry-Sound kyc n db s) (λ _. EndsIn-pure n db s)

  register_applicant-Sound :
      (cfg : Config) (req : SignIn.RegisterRequest) (db : AuthDb)
      → Sound db.users
      → EndsIn SoundDb (SignIn.register_applicant env cfg req) db
  unfolding SignIn.register_applicant
  register_applicant-Sound cfg req db s = EndsIn-raise_if _ _ _ db s λ _.
      EndsIn-raise_if _ _ _ db s λ _.
        let t = subst Sound (sym (take_pass_users env req.myid_verification_token db)) s in
        EndsIn-bind (SignIn.take_pass env req.myid_verification_token) _ db (λ _ _. t)
          λ kyc _. EndsIn-gets _ _ _ (
            EndsIn-raise_if _ _ _ _ t λ _.
              let l = (licensed-Sound kyc (SignIn.new_user req kyc) _ t).at in
              EndsIn-bind (SignIn.licensed env kyc (SignIn.new_user req kyc)) _ _ (λ _ _. l)
                λ n _.
                  EndsIn-bind (SignIn.make_account env n) _ _ (λ _ _. make_account-Sound n _ l)
                    λ u _. issue_tokens-Sound cfg u 201 _ (make_account-Sound n _ l))

  register-Sound :
      (cfg : Config) (body : Option SignIn.RegisterRequest) (db : AuthDb)
      → Sound db.users
      → EndsIn SoundDb (SignIn.register env cfg body) db
  unfolding SignIn.register
  register-Sound cfg body db s =
      EndsIn-or_raise _ _ _ db s λ req _. register_applicant-Sound cfg req db s

  resolve_account-Sound :
      (db : AuthDb) → Sound db.users → Sound (SignIn.resolve_account env db).1.users
  unfolding SignIn.resolve_account
  resolve_account-Sound db s =
      elim (Bool-cases (env.fails Core.Point.insert_admin && not (has_admin db.users))) [
        | inl lost ↦ rw lost s
        | inr made ↦ rw made (admin_account-Sound env.fresh_id env.now _ _ db.users s)
      ]

  admin_login-Sound :
      (cfg : Config) (body : Option (String × String)) (db : AuthDb)
      → Sound db.users
      → EndsIn SoundDb (SignIn.admin_login env cfg body) db
  unfolding SignIn.admin_login
  admin_login-Sound cfg body db s = EndsIn-or_raise _ _ _ db s λ req _.
      EndsIn-raise_if _ _ _ db s λ _. EndsIn-raise_if _ _ _ db s λ _.
        EndsIn-bind (SignIn.resolve_account env) _ db (λ _ _. resolve_account-Sound db s)
          λ u _. issue_tokens-Sound cfg u 200 _ (resolve_account-Sound db s)

  write_user-Sound :
      (f : List UserRecord → Result UserError UserRecord × List UserRecord) (db : AuthDb)
      → Sound (f db.users).1
      → Sound db.users
      → Sound (Profile.write_user env f db).1.users
  unfolding Profile.write_user Profile.update_result
  write_user-Sound f db after s =
      Sound-after db.users (Profile.write_user env f db).1.users _ (ground arith) s after

  update_me-Sound :
      (claims : Claims) (body : Option (Option String × Option String)) (db : AuthDb)
      → Sound db.users
      → EndsIn SoundDb (Profile.update_me env claims body) db
  unfolding Profile.update_me
  update_me-Sound claims body db s = EndsIn-or_raise _ _ _ db s λ req _.
      let f = Users.update_profile env.now claims.sub req.0 req.1 in
      let w =
        write_user-Sound f db (update_profile-Sound env.now claims.sub req.0 req.1 db.users s) s in
      EndsIn-bind (Profile.write_user env f) _ db (λ _ _. w) λ u _. EndsIn-pure _ _ w

  internal_rating-Sound :
      (id : String) (body : Option (Rating × ℕ)) (db : AuthDb)
      → Sound db.users
      → EndsIn SoundDb (Profile.internal_rating env id body) db
  unfolding Profile.internal_rating
  internal_rating-Sound id body db s = EndsIn-or_raise _ _ _ db s λ req _.
      let f = Users.set_rating env.now id req.0 req.1 in
      let w = write_user-Sound f db (set_rating-Sound env.now id req.0 req.1 db.users s) s in
      EndsIn-bind (Profile.write_user env f) _ db (λ _ _. w) λ u _. EndsIn-pure _ _ w

  flip_status-Sound :
      (id : String) (status : Option VerificationStatus) (reason : Option String) (db : AuthDb)
      → Sound db.users
      → Sound (Profile.flip_status env id status reason db).1.users
  unfolding Profile.flip_status ◌>>=◌
  flip_status-Sound id (some status) reason db s =
      write_user-Sound (Users.set_verification env.now id status reason) db
        (set_verification-Sound env.now id status reason db.users s) s
  flip_status-Sound id none reason db s = subst Sound {x = db.users} (ground arith) s

  set_verification-Sound_all :
      (id : String) (body : Option Profile.VerificationRequest) (db : AuthDb)
      → Sound db.users
      → EndsIn SoundDb (Profile.set_user_verification env id body) db
  unfolding Profile.set_user_verification
  set_verification-Sound_all id body db s = EndsIn-or_raise _ _ _ db s λ req _.
      let w = flip_status-Sound id req.status req.reason db s in
      EndsIn-bind (Profile.flip_status env id req.status req.reason) _ db (λ _ _. w)
        λ u _. EndsIn-pure _ _ w

serve-Sound : (req : Request) (db : AuthDb) → Sound db.users → Sound (serve req db).users
unfolding serve
serve-Sound (Request.otp_request env cfg body) db s =
    subst Sound (sym (otp_request_users env cfg body db)) s
serve-Sound (Request.otp_verify env cfg body) db s =
    subst Sound (sym (otp_verify_users env cfg body db)) s
serve-Sound (Request.myid_verify env body) db s =
    subst Sound (sym (myid_verify_users env body db)) s
serve-Sound (Request.register env cfg body) db s = (register-Sound env cfg body db s).at
serve-Sound (Request.login env cfg body) db s = subst Sound (sym (login_users env cfg body db)) s
serve-Sound (Request.admin_login env cfg body) db s = (admin_login-Sound env cfg body db s).at
serve-Sound (Request.refresh env cfg body) db s =
    subst Sound (sym (refresh_users env cfg body db)) s
serve-Sound (Request.logout env body) db s = subst Sound (sym (logout_users env body db)) s
serve-Sound (Request.update_me env claims body) db s = (update_me-Sound env claims body db s).at
serve-Sound (Request.internal_rating env id body) db s = (internal_rating-Sound env id body db s).at
serve-Sound (Request.set_verification env id body) db s =
    (set_verification-Sound_all env id body db s).at

-- After any requests to the auth service, whatever fails on the way, a phone number has one
-- account at most, and each account is verified exactly if its status is approved, if so it was
-- before.
pub serve_all-Sound :
    (reqs : List Request) (db : AuthDb) → Sound db.users → Sound (serve_all reqs db).users
unfolding serve_all
serve_all-Sound [] db s = s
serve_all-Sound (req ∷ reqs) db s = serve_all-Sound reqs (serve req db) (serve-Sound req db s)
