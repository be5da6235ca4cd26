-- ===== src/Auth/SignIn/Registration.antt =====
-- internal/auth/handler.go, `register`: who gets an account.
use yukbor_backend.Common.{
  ℕ, String, Option, none, some, true, false, not, List, string_Eq, contains, ◌≡◌, refl, sym, ap,
  ◌∙◌, eq_of_==, arith,
}
use yukbor_backend.Common.Exec.{ok, ◌>>=◌, Yields, Yields-bind, Yields-raise_if, Yields-gets}
use yukbor_backend.Common.Table.{query_row, query_row-fits}
use yukbor_backend.Config.{Config}
use yukbor_backend.Models.Enums.{Time, VerificationStatus-discrete}
use yukbor_backend.Models.Admin.{User}
use yukbor_backend.Auth.Otp.{verified_phone}
use yukbor_backend.Auth.Passes.{MyIdRecord, consume_pass}
use yukbor_backend.Auth.Users
use yukbor_backend.Auth.Users.{has_phone, UserRecord, NewUser, user_by_phone, is_rejected}
use yukbor_backend.Auth.Registry
use yukbor_backend.Auth.Registry.{license_categories_for, needs_license_check}
use yukbor_backend.Auth.Core
use yukbor_backend.Auth.Core.{AuthDb, Env, SignedIn, phone_behind, belongs}
use yukbor_backend.Auth.SignIn
use yukbor_backend.Auth.SignIn.{RegisterRequest}

-- What a registration that succeeded shows of its request.
pub record Registered (env : Env) (req : RegisterRequest) (db : AuthDb) (reply : SignedIn)
    (db' : AuthDb) : Type 0 where
  pub kyc : MyIdRecord
  pub passed : consume_pass env.now req.myid_verification_token db.passes ≡ (ok kyc, db'.passes)
  pub proved : verified_phone kyc.verification_id db.otps ≡ ok req.phone_number
  pub free :
      (u : UserRecord) → user_by_phone req.phone_number db.users ≡ some u → is_rejected u ≡ true
  pub entitled :
      needs_license_check req.role ≡ true → contains "C" (license_categories_for kyc.pinfl) ≡ true
  pub role : reply.user.role ≡ req.role
  pub phone : reply.user.phone_number ≡ req.phone_number
  pub approved : reply.user.is_verified ≡ true

take_pass_ok :
    (env : Env) (token : String) (db : AuthDb) (kyc : MyIdRecord)
    → (SignIn.take_pass env token db).0 ≡ ok kyc
    → ((consume_pass env.now token db.passes).0 ≡ ok kyc)
      × ((SignIn.take_pass env token db).1
          ≡ record db { passes = (consume_pass env.now token db.passes).1 })
unfolding SignIn.take_pass SignIn.take_result
take_pass_ok env token db kyc h = ground arith

phone_behind_ok :
    (env : Env) (id : String) (db : AuthDb) (phone : String)
    → not (belongs phone (phone_behind env id db)) ≡ false
    → verified_phone id db.otps ≡ ok phone
unfolding phone_behind
phone_behind_ok env id db phone h = ground arith

-- What the licence gate lets through.
record Cleared (kyc : MyIdRecord) (n n' : NewUser) : Type 0 where
  same_role : n'.role ≡ n.role
  same_phone : n'.phone_number ≡ n.phone_number
  same_status : n'.verification_status ≡ n.verification_status
  holds_c :
      needs_license_check n.role ≡ true → contains "C" (license_categories_for kyc.pinfl) ≡ true

licensed_ok :
    (env : Env) (kyc : MyIdRecord) (n n' : NewUser) (db : AuthDb)
    → (SignIn.licensed env kyc n db).0 ≡ ok n'
    → Cleared kyc n n' × ((SignIn.licensed env kyc n db).1 ≡ db)
unfolding SignIn.licensed SignIn.through_registry ◌>>=◌ SignIn.admit SignIn.with_license
    SignIn.turn_away Registry.verify_driver_license Registry.needs_license_check
    Registry.required_category_for_role Registry.required_category VerificationStatus-discrete
licensed_ok env kyc n n' db h = ground arith

-- What an account that was made is like.
record Made (n : NewUser) (rows : List UserRecord) (u : UserRecord) : Type 0 where
  was_free :
      (v : UserRecord) → query_row (has_phone n.phone_number) rows ≡ some v → is_rejected v ≡ true
  its_role : u.user.role ≡ n.role
  its_phone : u.user.phone_number ≡ n.phone_number
  its_standing : u.user.is_verified ≡ Users.is_approved n.verification_status

place_ok :
    (id : String) (now : Time) (n : NewUser) (o : Option UserRecord) (rows : List UserRecord)
    (u : UserRecord)
    → query_row (has_phone n.phone_number) rows ≡ o
    → (Users.place id now n o rows).0 ≡ ok u
    → Made n rows u
unfolding Users.place Users.new_record Users.overwritten
place_ok id now n none rows u found h = record {
  was_free = λ v e. cc;
  its_role = ground arith;
  its_phone = ground arith;
  its_standing = ground arith;
}
place_ok id now n (some w) rows u found h =
    let e =
      eq_of_== w.user.phone_number n.phone_number
        (query_row-fits (has_phone n.phone_number) rows w found) in
    record {
      was_free = λ v e. ground arith;
      its_role = ground arith;
      its_phone = ground arith;
      its_standing = ground arith;
    }

make_account_ok :
    (env : Env) (n : NewUser) (db : AuthDb) (u : UserRecord)
    → (SignIn.make_account env n db).0 ≡ ok u
    → ((Users.create_user env.fresh_id env.now n db.users).0 ≡ ok u)
      × ((SignIn.make_account env n db).1.passes ≡ db.passes)
unfolding SignIn.make_account SignIn.account_made SignIn.try_create SignIn.created
make_account_ok env n db u h = ground arith

make_account-Made :
    (env : Env) (n : NewUser) (db : AuthDb) (u : UserRecord)
    → (SignIn.make_account env n db).0 ≡ ok u
    → Made n db.users u
unfolding Users.create_user Users.user_by_phone
make_account-Made env n db u h =
    place_ok env.fresh_id env.now n _ db.users u refl (make_account_ok env n db u h).0

issue_tokens_ok :
    (env : Env) (cfg : Config) (u : UserRecord) (status : ℕ) (db : AuthDb) (reply : SignedIn)
    → (Core.issue_tokens env cfg u status db).0 ≡ ok reply
    → (reply.user ≡ u.user) × ((Core.issue_tokens env cfg u status db).1.passes ≡ db.passes)
unfolding Core.issue_tokens Core.mint_pair Core.save_pair ◌>>=◌
issue_tokens_ok env cfg u status db reply h = ground arith

module _ (env : Env) (cfg : Config) (req : RegisterRequest) (db : AuthDb) where
  -- The pass is used, the phone is proved and the licence gate is behind.
  finish :
      (kyc : MyIdRecord) (n : NewUser) (s : AuthDb)
      → consume_pass env.now req.myid_verification_token db.passes ≡ (ok kyc, s.passes)
      → s.users ≡ db.users
      → verified_phone kyc.verification_id db.otps ≡ ok req.phone_number
      → Cleared kyc (SignIn.new_user req kyc) n
      → Yields
          (Registered env req db)
          (SignIn.make_account env n >>= λ u. Core.issue_tokens env cfg u 201)
          s
  unfolding SignIn.new_user Users.user_by_phone VerificationStatus-discrete
  finish kyc n s passed users proved cleared = Yields-bind _ _ s λ u made. record {
    at = λ reply done.
        let m = make_account-Made env n s u made in
        let (same, passes) =
          issue_tokens_ok env cfg u 201 (SignIn.make_account env n s).1 reply done in
        let kept = passes ∙ (make_account_ok env n s u made).1 in
        record {
          kyc = kyc;
          passed = passed ∙ ap (λ p. (ok kyc, p)) (sym kept);
          proved = proved;
          free = λ v e. m.was_free v (
              ap (query_row (has_phone n.phone_number)) users
              ∙ ap (λ p. query_row (has_phone p) db.users) cleared.same_phone
              ∙ e);
          entitled = cleared.holds_c;
          role = ap (λ (w : User). w.role) same ∙ m.its_role ∙ cleared.same_role;
          phone = ap (λ (w : User). w.phone_number) same ∙ m.its_phone ∙ cleared.same_phone;
          approved =
              ap (λ (w : User). w.is_verified) same
              ∙ m.its_standing
              ∙ ap Users.is_approved cleared.same_status;
        };
  }

  -- From the state that the pass leaves.
  go_on :
      (kyc : MyIdRecord) (n : NewUser) (t s : AuthDb)
      → (SignIn.take_pass env req.myid_verification_token db) ≡ (ok kyc, t)
      → s ≡ t
      → verified_phone kyc.verification_id t.otps ≡ ok req.phone_number
      → Cleared kyc (SignIn.new_user req kyc) n
      → Yields
          (Registered env req db)
          (SignIn.make_account env n >>= λ u. Core.issue_tokens env cfg u 201)
          s
  go_on kyc n t s taken same proved cleared =
      let (passed, left) =
        take_pass_ok env req.myid_verification_token db kyc (ap (λ p. p.0) taken) in
      let after = sym (ap (λ p. p.1) taken) ∙ left in
      finish kyc n s (ground (arith, passed, after, same)) (ground (arith, after, same))
        (ground (arith, after, proved)) cleared

  register-Yields : Yields (Registered env req db) (SignIn.register_applicant env cfg req) db
  unfolding SignIn.register_applicant
  register-Yields = Yields-raise_if _ _ _ db λ _. Yields-raise_if _ _ _ db λ _.
      Yields-bind (SignIn.take_pass env req.myid_verification_token) _ db λ kyc taken.
        Yields-gets _ _ _ (
          Yields-raise_if _ _ _ _ λ owned.
            Yields-bind (SignIn.licensed env kyc (SignIn.new_user req kyc)) _ _ λ n let_in.
              let t = (SignIn.take_pass env req.myid_verification_token db).1 in
              let (cleared, same) = licensed_ok env kyc _ n t let_in in
              go_on kyc n t _ (ap (λ r. (r, t)) taken) same
                (phone_behind_ok env kyc.verification_id t req.phone_number owned) cleared)

  -- A registration that succeeds had a usable pass, which it used up; the pass belongs to a code
  -- that was confirmed for the same phone; the phone had no account but a rejected one; a driver
  -- or an equipment provider holds the category C; and the account has the role and the phone of
  -- the request and is approved.
  pub register-Registered :
      (reply : SignedIn)
      → (SignIn.register env cfg (some req) db).0 ≡ ok reply
      → Registered env req db reply (SignIn.register env cfg (some req) db).1
  unfolding SignIn.register ◌>>=◌
  register-Registered reply h = register-Yields.at reply h
