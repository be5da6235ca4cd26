-- ===== src/Auth/Sessions.antt =====
-- internal/auth/store.go over the table auth.refresh_tokens: the sessions.
use yukbor_backend.Common.{
  ℕ, ◌+◌, ◌≤◌, String, Option, none, some, Bool, true, false, ◌&&◌, List, [], ◌∷◌, ◌++◌, ◌==◌,
  string_Eq, ltb, ◌≡◌, refl, arith,
}
use yukbor_backend.Common.Table.{query_row, update_where, count_where, update_where-alive}
use yukbor_backend.Common.Exec.{Result, ok, err, is_ok}
use yukbor_backend.Models.Enums.{Time}

-- A row of auth.refresh_tokens; a token is kept by its SHA-256.
pub record SessionRow : Type 0 where
  pub token_hash : String
  pub user_id : String
  pub expires_at : Time
  pub revoked_at : Option Time

abbrev pub has_hash : String → SessionRow → Bool
has_hash hash r = r.token_hash == hash

abbrev pub is_open : Option Time → Bool
is_open none = true
is_open (some _) = false

unfoldable pub kept_or_added : Option SessionRow → SessionRow → List SessionRow → List SessionRow
kept_or_added none r rows = rows ++ r ∷ []
kept_or_added (some _) r rows = rows

-- `SaveRefreshToken`: ON CONFLICT (token_hash) DO NOTHING.
unfoldable pub save_session : String → String → Time → List SessionRow → List SessionRow
unfolding kept_or_added
save_session hash user expires rows =
    kept_or_added (query_row (has_hash hash) rows)
      (record { token_hash = hash; user_id = user; expires_at = expires; revoked_at = none }) rows

-- `token_hash = $1 AND revoked_at IS NULL`
abbrev pub is_alive : String → SessionRow → Bool
is_alive hash r = r.token_hash == hash && is_open r.revoked_at

abbrev pub is_live : Time → String → SessionRow → Bool
is_live now hash r = is_alive hash r && ltb now r.expires_at

abbrev pub revoked : Time → SessionRow → SessionRow
revoked now r = record r { revoked_at = some now }

pub data SessionError : Type 0 where
  no_session : SessionError

unfoldable pub user_of : Option SessionRow → Result SessionError String
user_of none = err SessionError.no_session
user_of (some r) = ok r.user_id

-- `RotateRefreshToken`
unfoldable pub rotate_session :
    Time → String → List SessionRow → Result SessionError String × List SessionRow
unfolding user_of
rotate_session now hash rows = (
  user_of (query_row (is_live now hash) rows),
  update_where (is_live now hash) (revoked now) rows,
)

-- `RevokeRefreshToken`
unfoldable pub revoke_session : Time → String → List SessionRow → List SessionRow
revoke_session now hash rows = update_where (is_alive hash) (revoked now) rows

-- What happens to one token: it is exchanged, or its owner logs out.
pub data Use : Type 0 where
  rotate revoke : Time → Use

-- How often a token is exchanged for a new one.
unfoldable pub exchanges : String → List Use → List SessionRow → ℕ
exchanges hash [] rows = 0
exchanges hash (Use.rotate now ∷ us) rows =
    let (r, rows') = rotate_session now hash rows in is_ok r + exchanges hash us rows'
exchanges hash (Use.revoke now ∷ us) rows = exchanges hash us (revoke_session now hash rows)

pub rotate-alive :
    (now : Time) (hash : String) (rows : List SessionRow)
    → let (r, rows') = rotate_session now hash rows in
      count_where (is_alive hash) rows' + is_ok r ≤ count_where (is_alive hash) rows
unfolding rotate_session
rotate-alive now hash rows = ground (
  arith,
  update_where-alive (is_live now hash) (is_alive hash) (revoked now) rows (λ r h. ground arith),
)

revoke-alive :
    (now : Time) (hash : String) (rows : List SessionRow)
    → count_where (is_alive hash) (revoke_session now hash rows) ≡ 0
unfolding revoke_session
revoke-alive now hash [] = refl
revoke-alive now hash (r ∷ rows) = ground (arith, revoke-alive now hash rows)

-- A refresh token is exchanged no more often than the table has rows for it that are not revoked:
-- once at most, since the hash is the primary key. After its owner has logged out it is not
-- exchanged at all.
pub exchanges-le-alive :
    (hash : String) (us : List Use) (rows : List SessionRow)
    → exchanges hash us rows ≤ count_where (is_alive hash) rows
unfolding exchanges
exchanges-le-alive hash [] rows = omega arith
exchanges-le-alive hash (Use.rotate now ∷ us) rows =
    omega (
      arith,
      rotate-alive now hash rows,
      exchanges-le-alive hash us (rotate_session now hash rows).1,
    )
exchanges-le-alive hash (Use.revoke now ∷ us) rows =
    omega
      (arith, revoke-alive now hash rows, exchanges-le-alive hash us (revoke_session now hash rows))
