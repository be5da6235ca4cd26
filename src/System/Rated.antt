-- ===== src/System/Rated.antt =====
-- internal/reviews with internal/auth behind it: the rating of a user.
use mathlib.Core.Option
use yukbor_backend.Common.{
  ℕ, ◌≤◌, String, Option, none, some, true, false, List, [], ◌∷◌, ◌++◌, string_Eq, if◌then◌else◌,
  ◌≡◌, refl, sym, ap, subst, ◌∙◌, inl, inr, arith, All, leb,
}
use yukbor_backend.Common.Table.{query_row, query_row-update_where, query_row-fits}
use yukbor_backend.Common.Exec.{Result, ok, err, Exec, pure, or_raise, ◌>>=◌}
use yukbor_backend.Httpx.{Failure, failure, Code}
use yukbor_backend.Jwtx.{Claims}
use yukbor_backend.Models.Order.{Order}
use yukbor_backend.Models.Events.{Review}
use yukbor_backend.Svc.{CallError}
use yukbor_backend.Auth.Core
use yukbor_backend.Auth.Core.{AuthDb}
use yukbor_backend.Auth.Profile
use yukbor_backend.Auth.Users
use yukbor_backend.Auth.Users.{UserRecord, user_by_id, has_id, with_rating}
use yukbor_backend.Reviews
use yukbor_backend.Reviews.{AuthClient, State, RatingUpdate, CreateRequest, aggregate}
use yukbor_backend.Reviews.Ratings.{InStars, create-Written, aggregate-bounds}

answered : Result Failure (Unit {0}) → Result CallError (Unit {0})
answered (ok _) = ok tt
answered (err f) = err (CallError.upstream f)

-- POST /internal/users/{id}/rating, as the reviews service calls it.
unfoldable pub auth_client : Core.Env → AuthClient AuthDb
unfolding Profile.internal_rating answered
auth_client env = record {
  set_rating = λ id upd db.
      let (r, db') = Profile.internal_rating env id (some (upd.rating, upd.count)) db in
      (answered r, db');
}

renamed :
    (now rating count : ℕ) (id : String) (o : Option UserRecord)
    → ((u : UserRecord) → o ≡ some u → has_id id u ≡ true)
    → Option.map (λ u. if has_id id u then with_rating now rating count u else u) o
      ≡ Option.map (with_rating now rating count) o
renamed now rating count id none h = refl
renamed now rating count id (some u) h = rw (h u refl) refl

too_big : (rating : ℕ) → rating ≤ 500 → leb 1000 rating ≡ false
too_big rating h = ground arith

same_id :
    (now rating count : ℕ) (id : String) (u : UserRecord)
    → has_id id (with_rating now rating count u) ≡ has_id id u
unfolding with_rating
same_id now rating count id u = refl

update-reads :
    (now rating count : ℕ) (id : String) (rows : List UserRecord) (o : Option UserRecord)
    → query_row (has_id id) rows ≡ o
    → user_by_id id (Users.update_user (with_rating now rating count) id rows).1
      ≡ Option.map (with_rating now rating count) o
unfolding Users.update_user user_by_id
update-reads now rating count id rows o h =
    query_row-update_where (has_id id) (has_id id) (with_rating now rating count) rows
      (same_id now rating count id)
    ∙ ap (Option.map (λ u. if has_id id u then with_rating now rating count u else u)) h
    ∙ renamed now rating count id o (λ u e. query_row-fits (has_id id) rows u (h ∙ e))

rated-reads :
    (now rating count : ℕ) (id : String) (rows : List UserRecord) (o : Option UserRecord)
    → query_row (has_id id) rows ≡ o
    → rating ≤ 500
    → user_by_id id (Users.rated now rating count id o rows).1
      ≡ Option.map (with_rating now rating count) o
unfolding Users.rated user_by_id
rated-reads now rating count id rows none h low = h
rated-reads now rating count id rows (some u) h low =
    rw (too_big rating low) (update-reads now rating count id rows (some u) h)

set_rating-reads :
    (now rating count : ℕ) (id : String) (rows : List UserRecord)
    → rating ≤ 500
    → user_by_id id (Users.set_rating now id rating count rows).1
      ≡ Option.map (with_rating now rating count) (user_by_id id rows)
unfolding Users.set_rating user_by_id
set_rating-reads now rating count id rows low = rated-reads now rating count id rows _ refl low

at_most :
    (reviewee : String) (rows : List Review)
    → All InStars rows
    → (aggregate reviewee rows).rating ≤ 500
at_most reviewee rows h = elim (aggregate-bounds reviewee rows h) [
  | inl (_, zero_) ↦ omega arith
  | inr (_, _, most) ↦ most
]

All-append :
    (rows : List Review) (r : Review) → All InStars rows → InStars r → All InStars (rows ++ r ∷ [])
All-append [] r h g = (g, tt)
All-append (q ∷ rows) r h g = (h.0, All-append rows r h.1 g)

-- What the request does to the table.
once :
    {S E A B : Type 0} (e : E) (a : A) (f : A → Exec S E B) (s : S)
    → ((or_raise (some a) e >>= f) s).1 ≡ (f a s).1
unfolding ◌>>=◌
once e a f s = refl

then_done : {S E A : Type 0} (m : Exec S E A) (s : S) → ((m >>= λ _. pure tt) s).1 ≡ (m s).1
unfolding ◌>>=◌
then_done m s = ground arith

update_result_users :
    (r : Result Users.UserError UserRecord) (rows : List UserRecord) (db : AuthDb)
    → ((e : Users.UserError) → r ≡ err e → rows ≡ db.users)
    → (Profile.update_result r rows db).1.users ≡ rows
unfolding Profile.update_result
update_result_users (ok u) rows db h = refl
update_result_users (err Users.UserError.not_found) rows db h = sym (h _ refl)
update_result_users (err Users.UserError.out_of_range) rows db h = sym (h _ refl)
update_result_users (err Users.UserError.phone_taken) rows db h = sym (h _ refl)

write_user_up :
    (env : Core.Env) (f : List UserRecord → Result Users.UserError UserRecord × List UserRecord)
    (db : AuthDb)
    → env.fails Core.Point.write_user ≡ false
    → (Profile.write_user env f db).1 ≡ (Profile.update_result (f db.users).0 (f db.users).1 db).1
unfolding Profile.write_user
write_user_up env f db up = rw up refl

rated_fails :
    (now rating count : ℕ) (id : String) (o : Option UserRecord) (rows : List UserRecord)
    (e : Users.UserError)
    → query_row (has_id id) rows ≡ o
    → (Users.rated now rating count id o rows).0 ≡ err e
    → (Users.rated now rating count id o rows).1 ≡ rows
unfolding Users.rated Users.update_user Users.or_not_found
rated_fails now rating count id none rows e found h = refl
rated_fails now rating count id (some u) rows e found h = ground arith

set_rating-fails :
    (now rating count : ℕ) (id : String) (rows : List UserRecord) (e : Users.UserError)
    → (Users.set_rating now id rating count rows).0 ≡ err e
    → (Users.set_rating now id rating count rows).1 ≡ rows
unfolding Users.set_rating
set_rating-fails now rating count id rows e h = rated_fails now rating count id _ rows e refl h

push-users :
    (env : Core.Env) (id : String) (upd : RatingUpdate) (db : AuthDb)
    → env.fails Core.Point.write_user ≡ false
    → ((auth_client env).set_rating id upd db).1.users
      ≡ (Users.set_rating env.now id upd.rating upd.count db.users).1
unfolding auth_client Profile.internal_rating
push-users env id upd db up =
    let f = Users.set_rating env.now id upd.rating upd.count in
    ap (λ (d : AuthDb). d.users)
      (once (failure 400 Code.bad_request) (upd.rating, upd.count)
          (λ req. Profile.write_user env (Users.set_rating env.now id req.0 req.1) >>= λ _. pure tt)
          db
        ∙ then_done (Profile.write_user env f) db
        ∙ write_user_up env f db up)
    ∙ update_result_users (f db.users).0 (f db.users).1 db
        (set_rating-fails env.now upd.rating upd.count id db.users)

-- Once a review is written and nothing failed on the way, the auth service shows the reviewed
-- user's new rating and count, and they are those of the table of reviews: the rating is never
-- refused. The stored reviews have one to five stars.
pub rating_reaches_auth :
    (auth : Core.Env) (orders : String → Result CallError Order) (env : Reviews.Env)
    (claims : Claims) (body : Option CreateRequest) (s : State AuthDb) (r : Review)
    → All InStars s.reviews
    → auth.fails Core.Point.write_user ≡ false
    → env.fails Reviews.Point.aggregate_reviews ≡ false
    → (Reviews.create (auth_client auth) orders env claims body s).0 ≡ ok r
    → let s' = (Reviews.create (auth_client auth) orders env claims body s).1 in
      let agg = aggregate r.reviewee_id s'.reviews in
      user_by_id r.reviewee_id s'.auth.users
      ≡ Option.map
          (with_rating auth.now agg.rating agg.count)
          (user_by_id r.reviewee_id s.auth.users)
rating_reaches_auth auth orders env claims body s r stars up read h =
    let w = create-Written (auth_client auth) orders env claims body s r h in
    let s' = (Reviews.create (auth_client auth) orders env claims body s).1 in
    let agg = aggregate r.reviewee_id s'.reviews in
    ap (λ (db : AuthDb). user_by_id r.reviewee_id db.users) (w.pushed read)
    ∙ ap (user_by_id r.reviewee_id) (push-users auth r.reviewee_id agg s.auth up)
    ∙ set_rating-reads auth.now agg.rating agg.count r.reviewee_id s.auth.users (
        at_most r.reviewee_id s'.reviews
          (subst (All InStars) (sym w.kept) (All-append s.reviews r stars w.stars)))
