-- ===== src/Auth/Requests/Exchanged.antt =====
-- internal/auth/handler.go: a refresh token that has been exchanged, whatever is asked afterwards.
use yukbor_backend.Common.{
  ℕ, ◌≤◌, String, Option, none, some, Bool, List, [], ◌∷◌, ◌++◌, string_Eq, ◌≡◌, refl, sym, subst,
  ◌∙◌, ◌≢◌, arith,
}
use mathlib.Core.Option.{some-injective}
use yukbor_backend.Common.Exec.{
  ok, EndsIn, EndsIn-pure, EndsIn-bind, EndsIn-or_raise, EndsIn-gets, EndsIn-raise_if, Yields,
  Yields-bind, Yields-or_raise, Yields-raise_if, Yields-gets, modify, ◌>>=◌,
}
use yukbor_backend.Common.Table.{count_where, query_row, update_where}
use yukbor_backend.Config.{Config}
use yukbor_backend.Jwtx.{Claims}
use yukbor_backend.Models.Admin.{Rating, User}
use yukbor_backend.Auth.Sessions
use yukbor_backend.Auth.Sessions.{SessionRow, is_alive, has_hash, revoked}
use yukbor_backend.Auth.Core
use yukbor_backend.Auth.Core.{AuthDb, Env, TokenPair, pair_for}
use yukbor_backend.Auth.Passes.{MyIdRecord}
use yukbor_backend.Auth.Users.{UserRecord, NewUser}
use yukbor_backend.Auth.Handler
use yukbor_backend.Auth.SignIn
use yukbor_backend.Auth.SignIn.Tokens.{Spent, save_session-dead, exchange-Spent, refresh-refused}
use yukbor_backend.Auth.Profile
use yukbor_backend.Auth.Requests.{Request, serve, serve_all}

-- The steps that leave the sessions alone.
take_pass_sessions :
    (env : Env) (token : String) (db : AuthDb)
    → (SignIn.take_pass env token db).1.sessions ≡ db.sessions
unfolding SignIn.take_pass SignIn.take_result
take_pass_sessions env token db = ground arith

licensed_sessions :
    (env : Env) (kyc : MyIdRecord) (n : NewUser) (db : AuthDb)
    → (SignIn.licensed env kyc n db).1.sessions ≡ db.sessions
unfolding SignIn.licensed SignIn.through_registry SignIn.admit SignIn.turn_away SignIn.try_create
    SignIn.created ◌>>=◌
licensed_sessions env kyc n db = ground arith

make_account_sessions :
    (env : Env) (n : NewUser) (db : AuthDb)
    → (SignIn.make_account env n db).1.sessions ≡ db.sessions
unfolding SignIn.make_account SignIn.account_made SignIn.try_create SignIn.created
make_account_sessions env n db = ground arith

resolve_sessions :
    (env : Env) (db : AuthDb) → (SignIn.resolve_account env db).1.sessions ≡ db.sessions
unfolding SignIn.resolve_account
resolve_sessions env db = ground arith

proof_sessions :
    (env : Env) (cfg : Config) (req : SignIn.LoginRequest) (db : AuthDb)
    → (SignIn.proves_phone env cfg req db).1.sessions ≡ db.sessions
unfolding SignIn.proves_phone SignIn.proves_by_id SignIn.proves_recent ◌>>=◌
proof_sessions env cfg req db = ground arith

otp_request_sessions :
    (env : Env) (cfg : Config) (body : Option String) (db : AuthDb)
    → (Handler.otp_request env cfg body db).1.sessions ≡ db.sessions
unfolding Handler.otp_request Handler.code_created ◌>>=◌
otp_request_sessions env cfg none db = refl
otp_request_sessions env cfg (some phone) db = ground arith

otp_verify_sessions :
    (env : Env) (cfg : Config) (body : Option (String × String)) (db : AuthDb)
    → (Handler.otp_verify env cfg body db).1.sessions ≡ db.sessions
unfolding Handler.otp_verify Handler.code_checked ◌>>=◌
otp_verify_sessions env cfg body db = ground arith

myid_verify_sessions :
    (env : Env) (body : Option Handler.MyIdForm) (db : AuthDb)
    → (Handler.myid_verify env body db).1.sessions ≡ db.sessions
unfolding Handler.myid_verify Handler.phone_checked Handler.selfie_read Handler.person_checked
    Handler.pass_stored ◌>>=◌
myid_verify_sessions env body db = ground arith

update_me_sessions :
    (env : Env) (claims : Claims) (body : Option (Option String × Option String)) (db : AuthDb)
    → (Profile.update_me env claims body db).1.sessions ≡ db.sessions
unfolding Profile.update_me Profile.write_user Profile.update_result ◌>>=◌
update_me_sessions env claims body db = ground arith

internal_rating_sessions :
    (env : Env) (id : String) (body : Option (Rating × ℕ)) (db : AuthDb)
    → (Profile.internal_rating env id body db).1.sessions ≡ db.sessions
unfolding Profile.internal_rating Profile.write_user Profile.update_result ◌>>=◌
internal_rating_sessions env id body db = ground arith

set_verification_sessions :
    (env : Env) (id : String) (body : Option Profile.VerificationRequest) (db : AuthDb)
    → (Profile.set_user_verification env id body db).1.sessions ≡ db.sessions
unfolding Profile.set_user_verification Profile.flip_status Profile.write_user Profile.update_result
    ◌>>=◌
set_verification_sessions env id body db = ground arith

module _ (hash : String) where
  abbrev SpentDb : AuthDb → Type 0
  SpentDb db = Spent hash db.sessions

  -- A row that is revoked stays, and revoking makes none alive.
  still_there :
      (p : SessionRow → Bool) (now : ℕ) (rows : List SessionRow)
      → query_row (has_hash hash) (update_where p (revoked now) rows) ≡ none
      → query_row (has_hash hash) rows ≡ none
  still_there p now [] h = refl
  still_there p now (r ∷ rows) h = ground (arith, still_there p now rows)

  none_revived :
      (p : SessionRow → Bool) (now : ℕ) (rows : List SessionRow)
      → count_where (is_alive hash) rows ≡ 0
      → count_where (is_alive hash) (update_where p (revoked now) rows) ≡ 0
  none_revived p now [] h = refl
  none_revived p now (r ∷ rows) h = ground (arith, none_revived p now rows)

  revoke-Spent :
      (p : SessionRow → Bool) (now : ℕ) (rows : List SessionRow)
      → Spent hash rows
      → Spent hash (update_where p (revoked now) rows)
  revoke-Spent p now rows spent = record {
    kept = λ gone. spent.kept (still_there p now rows gone);
    dead = none_revived p now rows spent.dead;
  }

  there_before :
      (rows : List SessionRow) (r : SessionRow)
      → query_row (has_hash hash) (rows ++ r ∷ []) ≡ none
      → query_row (has_hash hash) rows ≡ none
  there_before [] r h = refl
  there_before (q ∷ rows) r h = ground (arith, there_before rows r)

  kept_or_added-kept :
      (o : Option SessionRow) (r : SessionRow) (rows : List SessionRow)
      → query_row (has_hash hash) (Sessions.kept_or_added o r rows) ≡ none
      → query_row (has_hash hash) rows ≡ none
  unfolding Sessions.kept_or_added
  kept_or_added-kept none r rows h = there_before rows r h
  kept_or_added-kept (some q) r rows h = h

  save-Spent :
      (other user : String) (expires : ℕ) (rows : List SessionRow)
      → Spent hash rows
      → Spent hash (Sessions.save_session other user expires rows)
  unfolding Sessions.save_session
  save-Spent other user expires rows spent = record {
    kept = λ gone. spent.kept (kept_or_added-kept _ _ rows gone);
    dead = save_session-dead hash other user expires rows spent;
  }

  mint_pair-Spent :
      (env : Env) (cfg : Config) (u : User) (db : AuthDb)
      → SpentDb db
      → EndsIn SpentDb (Core.mint_pair env cfg u) db
  unfolding Core.mint_pair Core.save_pair
  mint_pair-Spent env cfg u db spent = EndsIn-raise_if _ _ _ db spent λ _.
      let after = save-Spent _ u.id _ db.sessions spent in
      EndsIn-bind (modify (Core.save_pair env u (pair_for env cfg u))) _ db (λ _ _. after)
        λ _ _. EndsIn-pure _ _ after

  issue_tokens-Spent :
      (env : Env) (cfg : Config) (u : UserRecord) (status : ℕ) (db : AuthDb)
      → SpentDb db
      → EndsIn SpentDb (Core.issue_tokens env cfg u status) db
  unfolding Core.issue_tokens
  issue_tokens-Spent env cfg u status db spent =
      let minted = (mint_pair-Spent env cfg u.user db spent).at in
      EndsIn-bind (Core.mint_pair env cfg u.user) _ db (λ _ _. minted)
        λ pair _. EndsIn-pure _ _ minted

  exchange_rows :
      (env : Env) (token : String) (db : AuthDb)
      → (SignIn.exchange env token db).1.sessions
        ≡ update_where (Sessions.is_live env.now (env.hash token)) (revoked env.now) db.sessions
  unfolding SignIn.exchange SignIn.rotate_result Sessions.rotate_session
  exchange_rows env token db = ground arith

  same_sessions : {rows rows' : List SessionRow} → rows' ≡ rows → Spent hash rows → Spent hash rows'
  same_sessions e spent = subst (Spent hash) (sym e) spent

  refresh-Spent :
      (env : Env) (cfg : Config) (body : Option String) (db : AuthDb)
      → SpentDb db
      → EndsIn SpentDb (SignIn.refresh env cfg body) db
  unfolding SignIn.refresh
  refresh-Spent env cfg body db spent = EndsIn-or_raise _ _ _ db spent λ t _.
      EndsIn-raise_if _ _ _ db spent λ _. EndsIn-raise_if _ _ _ db spent λ _.
        let after =
          subst (Spent hash) (sym (exchange_rows env t db))
            (revoke-Spent (Sessions.is_live env.now (env.hash t)) env.now db.sessions spent) in
        EndsIn-bind (SignIn.exchange env t) _ db (λ _ _. after)
          λ id _. EndsIn-raise_if _ _ _ _ after λ _.
            EndsIn-gets _ _ _
              (EndsIn-or_raise _ _ _ _ after λ u _. mint_pair-Spent env cfg u.user _ after)

  logout-Spent :
      (env : Env) (body : Option String) (db : AuthDb)
      → SpentDb db
      → EndsIn SpentDb (SignIn.logout env body) db
  unfolding SignIn.logout Sessions.revoke_session
  logout-Spent env body db spent = EndsIn-or_raise _ _ _ db spent λ t _.
      EndsIn-raise_if _ _ _ db spent
        λ _. record { at = revoke-Spent (is_alive (env.hash t)) env.now db.sessions spent }

  login-Spent :
      (env : Env) (cfg : Config) (body : Option SignIn.LoginRequest) (db : AuthDb)
      → SpentDb db
      → EndsIn SpentDb (SignIn.login env cfg body) db
  unfolding SignIn.login
  login-Spent env cfg body db spent = EndsIn-or_raise _ _ _ db spent λ req _.
      let proved = same_sessions (proof_sessions env cfg req db) spent in
      EndsIn-bind (SignIn.proves_phone env cfg req) _ db (λ _ _. proved)
        λ _ _. EndsIn-raise_if _ _ _ _ proved λ _.
          EndsIn-gets _ _ _
            (EndsIn-or_raise _ _ _ _ proved λ u _. issue_tokens-Spent env cfg u 200 _ proved)

  register-Spent :
      (env : Env) (cfg : Config) (body : Option SignIn.RegisterRequest) (db : AuthDb)
      → SpentDb db
      → EndsIn SpentDb (SignIn.register env cfg body) db
  unfolding SignIn.register SignIn.register_applicant
  register-Spent env cfg body db spent = EndsIn-or_raise _ _ _ db spent λ req _.
      EndsIn-raise_if _ _ _ db spent λ _. EndsIn-raise_if _ _ _ db spent λ _.
        let taken = same_sessions (take_pass_sessions env req.myid_verification_token db) spent in
        EndsIn-bind (SignIn.take_pass env req.myid_verification_token) _ db (λ _ _. taken)
          λ kyc _. EndsIn-gets _ _ _ (
            EndsIn-raise_if _ _ _ _ taken λ _.
              let n = SignIn.new_user req kyc in
              let checked = same_sessions (licensed_sessions env kyc n _) taken in
              EndsIn-bind (SignIn.licensed env kyc n) _ _ (λ _ _. checked)
                λ m _.
                  let made = same_sessions (make_account_sessions env m _) checked in
                  EndsIn-bind (SignIn.make_account env m) _ _ (λ _ _. made)
                    λ u _. issue_tokens-Spent env cfg u 201 _ made)

  admin_login-Spent :
      (env : Env) (cfg : Config) (body : Option (String × String)) (db : AuthDb)
      → SpentDb db
      → EndsIn SpentDb (SignIn.admin_login env cfg body) db
  unfolding SignIn.admin_login
  admin_login-Spent env cfg body db spent = EndsIn-or_raise _ _ _ db spent λ req _.
      EndsIn-raise_if _ _ _ db spent λ _. EndsIn-raise_if _ _ _ db spent λ _.
        let found = same_sessions (resolve_sessions env db) spent in
        EndsIn-bind (SignIn.resolve_account env) _ db (λ _ _. found)
          λ u _. issue_tokens-Spent env cfg u 200 _ found

  serve-Spent : (req : Request) (db : AuthDb) → SpentDb db → SpentDb (serve req db)
  unfolding serve
  serve-Spent (Request.otp_request env cfg body) db spent =
      same_sessions (otp_request_sessions env cfg body db) spent
  serve-Spent (Request.otp_verify env cfg body) db spent =
      same_sessions (otp_verify_sessions env cfg body db) spent
  serve-Spent (Request.myid_verify env body) db spent =
      same_sessions (myid_verify_sessions env body db) spent
  serve-Spent (Request.register env cfg body) db spent = (register-Spent env cfg body db spent).at
  serve-Spent (Request.login env cfg body) db spent = (login-Spent env cfg body db spent).at
  serve-Spent (Request.admin_login env cfg body) db spent =
      (admin_login-Spent env cfg body db spent).at
  serve-Spent (Request.refresh env cfg body) db spent = (refresh-Spent env cfg body db spent).at
  serve-Spent (Request.logout env body) db spent = (logout-Spent env body db spent).at
  serve-Spent (Request.update_me env claims body) db spent =
      same_sessions (update_me_sessions env claims body db) spent
  serve-Spent (Request.internal_rating env id body) db spent =
      same_sessions (internal_rating_sessions env id body db) spent
  serve-Spent (Request.set_verification env id body) db spent =
      same_sessions (set_verification_sessions env id body db) spent

  serve_all-Spent : (reqs : List Request) (db : AuthDb) → SpentDb db → SpentDb (serve_all reqs db)
  unfolding serve_all
  serve_all-Spent [] db spent = spent
  serve_all-Spent (req ∷ reqs) db spent =
      serve_all-Spent reqs (serve req db) (serve-Spent req db spent)

abbrev SpentAfter : String → {A : Type 0} → A → AuthDb → Type 0
SpentAfter hash _ db = Spent hash db.sessions

-- The exchange itself.
refresh-Exchanged :
    (env : Env) (cfg : Config) (token : String) (body : Option String) (db : AuthDb)
    → count_where (is_alive (env.hash token)) db.sessions ≤ 1
    → body ≡ some token
    → Yields (SpentAfter (env.hash token)) (SignIn.refresh env cfg body) db
unfolding SignIn.refresh
refresh-Exchanged env cfg token body db key e = Yields-or_raise _ _ _ db λ t same.
    Yields-raise_if _ _ _ db λ _. Yields-raise_if _ _ _ db λ _.
      Yields-bind (SignIn.exchange env t) _ db λ id exchanged. Yields-raise_if _ _ _ _ λ _.
        Yields-gets _ _ _ (
          Yields-or_raise _ _ _ _ λ u found. record {
            at = λ pair _.
                (mint_pair-Spent (env.hash token) env cfg u.user _ (
                  exchange-Spent env token t id db (some-injective token t (sym e ∙ same)) key
                    exchanged)).at;
          })

-- A refresh token is exchanged once: after an exchange that succeeded, and after any requests that
-- follow, exchanges of the same token and log-ins within the same second among them, an exchange of
-- that token is refused. The token's hash is the key of its row, and the two requests hash the token
-- alike.
pub refresh-once :
    (env later : Env) (cfg cfg' : Config) (token : String) (db : AuthDb) (pair pair' : TokenPair)
    (reqs : List Request)
    → count_where (is_alive (env.hash token)) db.sessions ≤ 1
    → later.hash token ≡ env.hash token
    → (SignIn.refresh env cfg (some token) db).0 ≡ ok pair
    → (SignIn.refresh later cfg'
        (some token)
        (serve_all reqs (SignIn.refresh env cfg (some token) db).1)).0
      ≢ ok pair'
refresh-once env later cfg cfg' token db pair pair' reqs key same first second =
    let spent =
      serve_all-Spent (env.hash token) reqs (SignIn.refresh env cfg (some token) db).1
        ((refresh-Exchanged env cfg token (some token) db key refl).at pair first) in
    let db' = serve_all reqs (SignIn.refresh env cfg (some token) db).1 in
    (refresh-refused later cfg' token (some token) db'
        (subst (λ h. count_where (is_alive h) db'.sessions ≡ 0) (sym same) spent.dead) refl).at
      pair' second
