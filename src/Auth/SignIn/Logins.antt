-- ===== src/Auth/SignIn/Logins.antt =====
-- internal/auth/handler.go, `login` and `adminLogin`: who gets a session.
use yukbor_backend.Common.{
  ℕ, String, Option, none, some, true, false, not, List, string_Eq, ◌≡◌, refl, sym, ap, ◌∙◌, ◌⊎◌,
  arith, ◌≢◌, eq_of_==,
}
use yukbor_backend.Common.Exec.{
  ok, ◌>>=◌, Yields, Yields-bind, Yields-or_raise, Yields-raise_if, Yields-gets,
}
use yukbor_backend.Common.Table.{order_by, first, select, order_by-All, select-All, first-All}
use yukbor_backend.Config.{Config, is_prod, admin_password_matches}
use yukbor_backend.Models.Enums.{Time, UserRole, user_role_Eq}
use yukbor_backend.Models.Admin.{User}
use yukbor_backend.Auth.Otp.{verified_phone, recently_verified}
use yukbor_backend.Auth.Users
use yukbor_backend.Auth.Users.{UserRecord, user_by_phone, is_admin, older}
use yukbor_backend.Auth.Core
use yukbor_backend.Auth.Core.{AuthDb, Env, SignedIn, phone_behind, belongs}
use yukbor_backend.Auth.SignIn
use yukbor_backend.Auth.SignIn.{LoginRequest}

issue_tokens_user :
    (env : Env) (cfg : Config) (u : UserRecord) (status : ℕ) (db : AuthDb) (reply : SignedIn)
    → (Core.issue_tokens env cfg u status db).0 ≡ ok reply
    → reply.user ≡ u.user
unfolding Core.issue_tokens Core.mint_pair Core.save_pair ◌>>=◌
issue_tokens_user env cfg u status db reply h = ground arith

-- A code for the number was confirmed: under the id that the request names, or else recently.
abbrev pub PhoneProved : Env → LoginRequest → AuthDb → Type 0
PhoneProved env req db =
    (verified_phone req.verification_id db.otps ≡ ok req.phone_number)
    ⊎ (recently_verified env.now req.phone_number db.otps ≡ true)

proves_phone_ok :
    (env : Env) (cfg : Config) (req : LoginRequest) (db : AuthDb) (a : Unit {0})
    → is_prod cfg ≡ true
    → (SignIn.proves_phone env cfg req db).0 ≡ ok a
    → PhoneProved env req db
unfolding SignIn.proves_phone SignIn.proves_by_id SignIn.proves_recent Core.phone_behind ◌>>=◌
proves_phone_ok env cfg req db a prod h = ground arith

proves_phone_reads :
    (env : Env) (cfg : Config) (req : LoginRequest) (db : AuthDb)
    → (SignIn.proves_phone env cfg req db).1 ≡ db
unfolding SignIn.proves_phone SignIn.proves_by_id SignIn.proves_recent Core.phone_behind ◌>>=◌
proves_phone_reads env cfg req db = ground arith

-- The account of a phone number.
abbrev pub IsAccountOf : String → SignedIn → AuthDb → Type 0
IsAccountOf phone reply db =
    (u : UserRecord) × (user_by_phone phone db.users ≡ some u) × (reply.user ≡ u.user)

login-Yields :
    (env : Env) (cfg : Config) (body : Option LoginRequest) (db : AuthDb)
    → is_prod cfg ≡ true
    → Yields
        (λ reply _.
          (req : LoginRequest) × (body ≡ some req)
          × PhoneProved env req db
          × IsAccountOf req.phone_number reply db)
        (SignIn.login env cfg body)
        db
unfolding SignIn.login
login-Yields env cfg body db prod = Yields-or_raise _ _ _ db λ req same.
    Yields-bind (SignIn.proves_phone env cfg req) _ db λ a proved. Yields-raise_if _ _ _ _ λ _.
      Yields-gets _ _ _ (
        Yields-or_raise _ _ _ _ λ u found. record {
          at = λ reply h. (
            req,
            same,
            proves_phone_ok env cfg req db a prod proved,
            (
              u,
              ap (λ (d : AuthDb). user_by_phone req.phone_number d.users)
                    (sym (proves_phone_reads env cfg req db))
                  ∙ found,
              issue_tokens_user env cfg u 200 _ reply h,
            ),
          );
        })

-- In production, nobody signs in with a phone number alone. Where a sign-in succeeds, a code for
-- the number was confirmed, under the id that the request names or else in the last fifteen
-- minutes, and the session is for the account of that number.
pub login-PhoneProved :
    (env : Env) (cfg : Config) (body : Option LoginRequest) (db : AuthDb) (reply : SignedIn)
    → is_prod cfg ≡ true
    → (SignIn.login env cfg body db).0 ≡ ok reply
    → (req : LoginRequest) × (body ≡ some req)
      × PhoneProved env req db
      × IsAccountOf req.phone_number reply db
login-PhoneProved env cfg body db reply prod h = (login-Yields env cfg body db prod).at reply h

-- The administrator that is found is one.
found_is_admin :
    (rows : List UserRecord) (u : UserRecord)
    → first (order_by older (select is_admin rows)) ≡ some u
    → u.user.role ≡ UserRole.admin
found_is_admin rows u h = eq_of_== u.user.role UserRole.admin (
    first-All (λ (v : UserRecord). is_admin v ≡ true) (order_by older (select is_admin rows)) u
      (order_by-All (λ (v : UserRecord). is_admin v ≡ true) older (select is_admin rows)
        (select-All is_admin rows))
      h)

upsert-admin :
    (fresh : UserRecord) (o : Option UserRecord) (rows : List UserRecord)
    → fresh.user.role ≡ UserRole.admin
    → (Users.upsert_admin fresh o rows).0.user.role ≡ UserRole.admin
unfolding Users.upsert_admin
upsert-admin fresh none rows h = h
upsert-admin fresh (some u) rows h = refl

resolve-admin :
    (fresh : UserRecord) (o : Option UserRecord) (rows : List UserRecord)
    → fresh.user.role ≡ UserRole.admin
    → ((u : UserRecord) → o ≡ some u → u.user.role ≡ UserRole.admin)
    → (Users.resolve_admin fresh o rows).0.user.role ≡ UserRole.admin
unfolding Users.resolve_admin
resolve-admin fresh (some u) rows h found = found u refl
resolve-admin fresh none rows h found = upsert-admin fresh _ rows h

admin_account-admin :
    (id : String) (now : Time) (phone full_name : String) (rows : List UserRecord)
    → (Users.admin_account id now phone full_name rows).0.user.role ≡ UserRole.admin
unfolding Users.admin_account Users.new_admin Users.oldest_admin
admin_account-admin id now phone full_name rows = resolve-admin _ _ rows refl (found_is_admin rows)

resolve_account_ok :
    (env : Env) (db : AuthDb) (u : UserRecord)
    → (SignIn.resolve_account env db).0 ≡ ok u
    → u.user.role ≡ UserRole.admin
unfolding SignIn.resolve_account
resolve_account_ok env db u h = ground (
  arith,
  admin_account-admin env.fresh_id env.now Core.admin_account_phone Core.admin_account_name
      db.users,
)

matches_both :
    (cfg : Config) (name password : String)
    → not (admin_password_matches cfg name password) ≡ false
    → (cfg.admin_password ≢ "") × (name ≡ cfg.admin_username) × (password ≡ cfg.admin_password)
unfolding admin_password_matches
matches_both cfg name password h = ground arith

-- What a sign-in to the dashboard shows of its request.
abbrev pub IsOperator : Config → String × String → SignedIn → Type 0
IsOperator cfg req reply =
    (cfg.admin_password ≢ "")
    × (req.0 ≡ cfg.admin_username)
    × (req.1 ≡ cfg.admin_password)
    × (reply.user.role ≡ UserRole.admin)

admin_login-Yields :
    (env : Env) (cfg : Config) (body : Option (String × String)) (db : AuthDb)
    → Yields
        (λ reply _. (req : String × String) × (body ≡ some req) × IsOperator cfg req reply)
        (SignIn.admin_login env cfg body)
        db
unfolding SignIn.admin_login
admin_login-Yields env cfg body db = Yields-or_raise _ _ _ db λ req same.
    Yields-raise_if _ _ _ db λ right. Yields-raise_if _ _ _ db λ _.
      Yields-bind (SignIn.resolve_account env) _ db λ u found. record {
        at = λ reply h.
            let (closed, name, password) = matches_both cfg req.0 req.1 right in
            (
              req,
              same,
              (
                closed,
                name,
                password,
                ap (λ (w : User). w.role) (issue_tokens_user env cfg u 200 _ reply h)
                    ∙ resolve_account_ok env db u found,
              ),
            );
      }

-- The dashboard's sign-in is closed where no password is configured, and succeeds only with the
-- configured name and password; the session is for an account with the role of an administrator,
-- whatever the table holds.
pub admin_login-IsOperator :
    (env : Env) (cfg : Config) (body : Option (String × String)) (db : AuthDb) (reply : SignedIn)
    → (SignIn.admin_login env cfg body db).0 ≡ ok reply
    → (req : String × String) × (body ≡ some req) × IsOperator cfg req reply
admin_login-IsOperator env cfg body db reply h = (admin_login-Yields env cfg body db).at reply h
