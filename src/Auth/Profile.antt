-- ===== src/Auth/Profile.antt =====
-- internal/auth/handler.go: the profile, and what the back office and the other services ask.
use yukbor_backend.Common.{ℕ, String, Option, none, some, List, map, if◌then◌else◌}
use yukbor_backend.Common.Exec.{Result, ok, err, pure, raise, gets, or_raise, raise_if, ◌>>=◌, ◌>>◌}
use yukbor_backend.Httpx.{Code, failure, Handler}
use yukbor_backend.Jwtx.{Claims}
use yukbor_backend.Models.Enums.{VerificationStatus}
use yukbor_backend.Models.Admin.{User, UserDetail, Rating}
use yukbor_backend.Auth.Users.{
  UserRecord, UserError, user_by_id, update_profile, set_verification, set_rating, list_users,
  count_users,
}
use yukbor_backend.Auth.Core.{AuthDb, Env, Point, detail}

-- The user that a request names.
unfoldable pub find_user : Env → String → Handler AuthDb UserRecord
unfolding user_by_id
find_user env id = do
  raise_if (env.fails Point.read_user) (failure 500 Code.internal)
  found ← gets (λ db. user_by_id id db.users)
  or_raise found (failure 404 Code.user_not_found)

-- `me`
unfoldable pub me : Env → Claims → Handler AuthDb User
unfolding find_user
me env claims = do u ← find_user env claims.sub; pure u.user

unfoldable pub update_result :
    Result UserError UserRecord → List UserRecord → Handler AuthDb UserRecord
update_result (ok u) users db = (ok u, record db { users = users })
update_result (err UserError.not_found) users db = (err (failure 404 Code.user_not_found), db)
update_result (err UserError.out_of_range) users db = (err (failure 500 Code.internal), db)
update_result (err UserError.phone_taken) users db = (err (failure 500 Code.internal), db)

-- One UPDATE of auth.users, which the database may fail.
unfoldable pub write_user :
    Env
    → (List UserRecord → Result UserError UserRecord × List UserRecord)
    → Handler AuthDb UserRecord
unfolding update_result
write_user env f db =
    if env.fails Point.write_user
    then (err (failure 500 Code.internal), db)
    else (let (r, users) = f db.users in update_result r users db)

-- `updateMe`: the body is the name and the e-mail, where they are sent.
unfoldable pub update_me :
    Env → Claims → Option (Option String × Option String) → Handler AuthDb User
unfolding write_user update_profile
update_me env claims body = do
  req ← or_raise body (failure 400 Code.bad_request)
  u ← write_user env (update_profile env.now claims.sub req.0 req.1)
  pure u.user

-- `adminUsers`
unfoldable pub admin_users : Env → String → Handler AuthDb (List UserDetail)
unfolding list_users detail
admin_users env role = do
  raise_if (env.fails Point.read_user) (failure 500 Code.internal)
  users ← gets (λ db. list_users role db.users)
  pure (map detail users)

-- `internalUser`
unfoldable pub internal_user : Env → String → Handler AuthDb UserDetail
unfolding find_user detail
internal_user env id = do u ← find_user env id; pure (detail u)

-- `internalUserStats`
unfoldable pub internal_user_stats : Env → Handler AuthDb ℕ
unfolding count_users
internal_user_stats env = do
  raise_if (env.fails Point.read_user) (failure 500 Code.internal)
  gets (λ db. count_users db.users)

-- `internalRating`: the rating is in hundredths, as its column rounds it.
unfoldable pub internal_rating : Env → String → Option (Rating × ℕ) → Handler AuthDb (Unit {0})
unfolding write_user set_rating
internal_rating env id body = do
  req ← or_raise body (failure 400 Code.bad_request)
  write_user env (set_rating env.now id req.0 req.1)
  pure tt

pub record VerificationRequest : Type 0 where
  -- `none` is a text that is no status: the column's CHECK refuses it.
  pub status : Option VerificationStatus
  pub reason : Option String

unfoldable pub flip_status :
    Env → String → Option VerificationStatus → Option String → Handler AuthDb UserRecord
unfolding write_user set_verification user_by_id
flip_status env id (some status) reason = write_user env (set_verification env.now id status reason)
flip_status env id none reason = do
  raise_if (env.fails Point.write_user) (failure 500 Code.internal)
  found ← gets (λ db. user_by_id id db.users)
  or_raise found (failure 404 Code.user_not_found)
  raise (failure 500 Code.internal)

-- `setVerification`
unfoldable pub set_user_verification :
    Env → String → Option VerificationRequest → Handler AuthDb UserDetail
unfolding flip_status detail
set_user_verification env id body = do
  req ← or_raise body (failure 400 Code.bad_request)
  u ← flip_status env id req.status req.reason
  pure (detail u)
