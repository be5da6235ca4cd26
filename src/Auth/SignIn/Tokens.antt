-- ===== src/Auth/SignIn/Tokens.antt =====
-- internal/auth/handler.go, `issueTokens`, `mintPair` and `refresh`: what a session is worth.
use yukbor_backend.Common.{
  ℕ, ◌+◌, ◌*◌, ◌≤◌, String, Option, none, some, Bool, List, [], ◌∷◌, ◌++◌, ◌==◌, string_Eq, ◌≡◌,
  refl, sym, subst, ◌∙◌, ◌≢◌, Bool-cases, inl, inr, eq_of_==, arith, if◌then◌else◌, contains,
}
use mathlib.Core.Option.{some-injective}
use yukbor_backend.Common.Exec.{
  ok, err, Yields, Yields-bind, Yields-or_raise, Yields-raise_if, raise,
}
use yukbor_backend.Common.Table.{count_where, query_row, update_where}
use yukbor_backend.Config.{Config}
use yukbor_backend.Httpx.{Handler, Code, failure}
use yukbor_backend.Httpx.Guards.{authed, authed_role}
use yukbor_backend.Models.Enums.{user_role_text}
use yukbor_backend.Models.Admin.{User}
use yukbor_backend.Jwtx
use yukbor_backend.Jwtx.{Claims, TokenError, unix, new_access}
use yukbor_backend.Jwtx.Tokens.{CodecLaws, verify-sign}
use yukbor_backend.Auth.Sessions
use yukbor_backend.Auth.Sessions.{SessionRow, is_alive, is_live, has_hash, revoked, rotate-alive}
use yukbor_backend.Auth.Core.{AuthDb, Env, pair_for, access_token_ttl}
use yukbor_backend.Auth.SignIn

-- What a service hands to its guards: the claims of a token that it could verify.
abbrev pub bearer : Env → Config → String → Option Claims
bearer env cfg token = elim (Jwtx.verify env.codec cfg.jwt_secret (unix env.now) token) [
  | ok c ↦ some c
  | err _ ↦ none
]

-- The access token that a sign-in issues opens the routes of its user's role for a day: at any
-- later moment before then, a guard for roles lets the request through, as that user, exactly if
-- it lists his role.
pub access_token_opens :
    {S A : Type 0} (env later : Env) (cfg : Config) (u : User) (roles : List String)
    (next : Claims → Handler S A)
    (laws : CodecLaws env.codec (new_access env.now u.id (user_role_text u.role) access_token_ttl))
    → later.codec ≡ env.codec
    → unix later.now + 1 ≤ unix (env.now + access_token_ttl)
    → authed_role (bearer later cfg (pair_for env cfg u).access_token) roles next ≡ (
        if contains (user_role_text u.role) roles
        then next (new_access env.now u.id (user_role_text u.role) access_token_ttl)
        else raise (failure 403 Code.forbidden))
unfolding pair_for authed_role authed new_access
access_token_opens env later cfg u roles next laws same soon = ground (
  arith,
  verify-sign env.codec cfg.jwt_secret (unix later.now)
      (new_access env.now u.id (user_role_text u.role) access_token_ttl) laws,
)

-- The token's row is there and no longer alive.
pub record Spent (hash : String) (rows : List SessionRow) : Type 0 where
  pub kept : query_row (has_hash hash) rows ≢ none
  pub dead : count_where (is_alive hash) rows ≡ 0

live-has_hash :
    (now : ℕ) (hash : String) (rows : List SessionRow)
    → query_row (has_hash hash) rows ≡ none
    → query_row (is_live now hash) rows ≡ none
live-has_hash now hash [] h = refl
live-has_hash now hash (r ∷ rows) h = ground (arith, live-has_hash now hash rows)

revoked-has_hash :
    (now : ℕ) (hash : String) (rows : List SessionRow)
    → query_row (has_hash hash) (update_where (is_live now hash) (revoked now) rows) ≡ none
    → query_row (has_hash hash) rows ≡ none
revoked-has_hash now hash [] h = refl
revoked-has_hash now hash (r ∷ rows) h = ground (arith, revoked-has_hash now hash rows)

pub rotated-Spent :
    (now : ℕ) (hash id : String) (rows : List SessionRow)
    → count_where (is_alive hash) rows ≤ 1
    → (Sessions.rotate_session now hash rows).0 ≡ ok id
    → Spent hash (Sessions.rotate_session now hash rows).1
unfolding Sessions.rotate_session Sessions.user_of
rotated-Spent now hash id rows key h = record {
  kept = λ gone. ground (arith, live-has_hash now hash rows, revoked-has_hash now hash rows gone);
  dead = ground (arith, rotate-alive now hash rows);
}

dead_live :
    (now : ℕ) (hash : String) (rows : List SessionRow)
    → count_where (is_alive hash) rows ≡ 0
    → query_row (is_live now hash) rows ≡ none
dead_live now hash [] h = refl
dead_live now hash (r ∷ rows) h = ground (arith, dead_live now hash rows)

count_where-append :
    (p : SessionRow → Bool) (rs : List SessionRow) (r : SessionRow)
    → count_where p (rs ++ r ∷ []) ≡ count_where p rs + (if p r then 1 else 0)
count_where-append p [] r = omega arith
count_where-append p (q ∷ rs) r = omega (arith, count_where-append p rs r)

saved_dead :
    (hash : String) (o : Option SessionRow) (r : SessionRow) (rows : List SessionRow)
    → query_row (has_hash r.token_hash) rows ≡ o
    → Spent hash rows
    → count_where (is_alive hash) (Sessions.kept_or_added o r rows) ≡ 0
unfolding Sessions.kept_or_added
saved_dead hash (some q) r rows found spent = spent.dead
saved_dead hash none r rows found spent = elim (Bool-cases (r.token_hash == hash)) [
  | inl same ↦ absurd (
      spent.kept
        (subst (λ t. query_row (has_hash t) rows ≡ none) (eq_of_== r.token_hash hash same) found))
  | inr other ↦ ground (arith, spent.dead, count_where-append (is_alive hash) rows r)
]

pub exchange_ok :
    (env : Env) (token id : String) (db : AuthDb)
    → (SignIn.exchange env token db).0 ≡ ok id
    → ((Sessions.rotate_session env.now (env.hash token) db.sessions).0 ≡ ok id)
      × ((SignIn.exchange env token db).1.sessions
          ≡ (Sessions.rotate_session env.now (env.hash token) db.sessions).1)
unfolding SignIn.exchange SignIn.rotate_result
exchange_ok env token id db h = ground arith

pub save_session-dead :
    (hash other user : String) (expires : ℕ) (rows : List SessionRow)
    → Spent hash rows
    → count_where (is_alive hash) (Sessions.save_session other user expires rows) ≡ 0
unfolding Sessions.save_session
save_session-dead hash other user expires rows spent = saved_dead hash _ _ rows refl spent

pub exchange-Spent :
    (env : Env) (token t id : String) (db : AuthDb)
    → token ≡ t
    → count_where (is_alive (env.hash token)) db.sessions ≤ 1
    → (SignIn.exchange env t db).0 ≡ ok id
    → Spent (env.hash token) (SignIn.exchange env t db).1.sessions
exchange-Spent env token t id db same key exchanged =
    let x = subst (λ q. (SignIn.exchange env q db).0 ≡ ok id) (sym same) exchanged in
    let (rotated, rows) = exchange_ok env token id db x in
    subst (λ q. Spent (env.hash token) (SignIn.exchange env q db).1.sessions) same
      (subst (Spent (env.hash token)) (sym rows)
        (rotated-Spent env.now (env.hash token) id db.sessions key rotated))

pub no_exchange :
    (env : Env) (token t id : String) (db : AuthDb)
    → token ≡ t
    → count_where (is_alive (env.hash token)) db.sessions ≡ 0
    → (SignIn.exchange env t db).0 ≡ ok id
    → ⊥
unfolding SignIn.exchange SignIn.rotate_result Sessions.rotate_session Sessions.user_of
no_exchange env token t id db same dead exchanged =
    ground (arith, dead_live env.now (env.hash token) db.sessions dead)

abbrev pub Never : {A : Type 0} → A → AuthDb → Type 0
Never _ _ = ⊥

pub refresh-refused :
    (env : Env) (cfg : Config) (token : String) (body : Option String) (db : AuthDb)
    → count_where (is_alive (env.hash token)) db.sessions ≡ 0
    → body ≡ some token
    → Yields Never (SignIn.refresh env cfg body) db
unfolding SignIn.refresh
refresh-refused env cfg token body db dead e = Yields-or_raise _ _ _ db λ t same.
    Yields-raise_if _ _ _ db λ _. Yields-raise_if _ _ _ db λ _.
      Yields-bind (SignIn.exchange env t) _ db λ id exchanged.
        absurd
          (no_exchange env token t id db (some-injective token t (sym e ∙ same)) dead exchanged)

later_second :
    (a b ttl : ℕ) → unix a ≡ unix b → unix (a + ttl * 1000000000) ≡ unix (b + ttl * 1000000000)
later_second a b ttl h = omega (arith, h)

-- Two sessions that one user starts within one second get the same two tokens, since a token
-- counts in whole seconds and holds nothing drawn at random.
pub pair_for_same_second :
    (env later : Env) (cfg : Config) (u : User)
    → later.codec ≡ env.codec
    → unix later.now ≡ unix env.now
    → pair_for later cfg u ≡ pair_for env cfg u
unfolding pair_for Jwtx.new_access Jwtx.new_refresh Jwtx.sign
pair_for_same_second env later cfg u codec second = ground (
  arith,
  later_second later.now env.now 86400 second,
  later_second later.now env.now 2592000 second,
)
