-- ===== src/Reviews.antt =====
-- internal/reviews/store.go and handler.go over the table reviews.reviews: reviews of finished
-- work, and the ratings that they add up to.
pub mod Ratings
pub mod Finished
use Prim.Native.String
use yukbor_backend.Common.{
  ℕ, zero, suc, ◌+◌, ◌*◌, ◌/◌, String, Option, none, some, Bool, true, false, ◌&&◌, ◌||◌, not, List,
  [], ◌∷◌, ◌++◌, ◌==◌, string_Eq, if◌then◌else◌, leb,
}
use yukbor_backend.Common.Int.{ℤ, pos, ltb_ℤ, pos_part}
use yukbor_backend.Common.Strconv.{format_int}
use yukbor_backend.Common.Table.{select, query_row, count_where, order_by}
use yukbor_backend.Common.Exec.{
  Result, ok, err, pure, raise, gets, or_raise, raise_if, modify, ◌>>=◌, ◌>>◌,
}
use yukbor_backend.Httpx.{Code, Failure, failure, Handler}
use yukbor_backend.Jwtx.{Claims}
use yukbor_backend.Models.Enums.{Time, OrderStatus, order_status_Eq, NotificationType}
use yukbor_backend.Models.Order.{Order}
use yukbor_backend.Models.Admin.{Rating}
use yukbor_backend.Models.Events.{Review, EmitEventRequest, EventName, Payload}
use yukbor_backend.Svc.{CallError}

pub data Point : Type 0 where
  write_review aggregate_reviews list_reviews : Point

pub record Env : Type 0 where
  pub now : Time
  pub fresh_id : String
  pub fails : Point → Bool

-- models.go, `RatingUpdate`
pub record RatingUpdate : Type 0 where
  pub rating : Rating
  pub count : ℕ

-- The auth service, over a state that is its own.
pub record AuthClient (A : Type 0) : Type 0 where
  pub set_rating : String → RatingUpdate → A → Result CallError (Unit {0}) × A

-- The table, the auth service and the events that were fired.
pub record State (A : Type 0) : Type 0 where
  pub reviews : List Review
  pub auth : A
  pub sent : List EmitEventRequest

-- UNIQUE (order_id, reviewer_id, reviewee_id)
abbrev pub is_triple : String → String → String → Review → Bool
is_triple order reviewer reviewee r =
    r.order_id == order && (r.reviewer_id == reviewer && r.reviewee_id == reviewee)

abbrev same_triple : Review → Review → Bool
same_triple r = is_triple r.order_id r.reviewer_id r.reviewee_id

pub data StoreError : Type 0 where
  duplicate : StoreError

unfoldable pub insert_result :
    Option Review → Review → List Review → Result StoreError Review × List Review
insert_result (some _) r rows = (err StoreError.duplicate, rows)
insert_result none r rows = (ok r, rows ++ r ∷ [])

-- `Create`: the row has the id and the time that the database gives it.
unfoldable pub insert_review : Review → List Review → Result StoreError Review × List Review
unfolding insert_result
insert_review r rows = insert_result (query_row (same_triple r) rows) r rows

abbrev pub is_of : String → Review → Bool
is_of reviewee r = r.reviewee_id == reviewee

unfoldable pub sum_of : String → List Review → ℕ
sum_of reviewee [] = 0
sum_of reviewee (r ∷ rows) =
    (if r.reviewee_id == reviewee then r.rating else 0) + sum_of reviewee rows

-- `ROUND(sum / count, 2)` in hundredths, halves up; no row gives 0.
unfoldable pub rounded_mean : ℕ → ℕ → Rating
rounded_mean sum zero = 0
rounded_mean sum (suc n) = (2 * (100 * sum) + suc n) / (2 * suc n)

-- `Aggregate`
unfoldable pub aggregate : String → List Review → RatingUpdate
unfolding sum_of rounded_mean
aggregate reviewee rows =
    let n = count_where (is_of reviewee) rows in
    record { rating = rounded_mean (sum_of reviewee rows) n; count = n }

abbrev newer : Review → Review → Bool
newer r q = leb q.created_at r.created_at

-- `ListByReviewee`
unfoldable pub list_by_reviewee : String → List Review → List Review
list_by_reviewee reviewee rows = order_by newer (select (is_of reviewee) rows)

abbrev is_completed : OrderStatus → Bool
is_completed status = status == OrderStatus.completed

unfoldable pub completed_or_none : Option OrderStatus → Bool
completed_or_none none = true
completed_or_none (some status) = is_completed status

-- `completed`
unfoldable pub completed : Order → Bool
unfolding completed_or_none
completed o =
    is_completed o.status
    && (completed_or_none o.equipment_status && completed_or_none o.labor_status)

unfoldable pub rating_text : ℕ → String
unfolding format_int
rating_text rating =
    String.◌++◌ "Вам поставили оценку " (String.◌++◌ (format_int (pos rating)) " из 5")

-- The body of POST /reviews.
pub record CreateRequest : Type 0 where
  pub order_id : String
  pub reviewer_id : String
  pub reviewee_id : String
  pub rating : ℤ
  pub comment : Option String

abbrev pub reviewer_of : Claims → CreateRequest → String
reviewer_of claims req = if req.reviewer_id == "" then claims.sub else req.reviewer_id

unfoldable pub review_for : Env → Claims → CreateRequest → Review
review_for env claims req = record {
  id = env.fresh_id;
  order_id = req.order_id;
  reviewer_id = reviewer_of claims req;
  reviewee_id = req.reviewee_id;
  rating = pos_part req.rating;
  comment = req.comment;
  created_at = env.now;
}

unfoldable pub loaded : {A : Type 0} → Result CallError Order → Handler (State A) Order
loaded (ok o) = pure o
loaded (err (CallError.upstream f)) = elim f.code [
  | Code.order_not_found ↦ raise (failure 404 Code.order_not_found)
  | _ ↦ raise (failure 500 Code.internal)
]
loaded (err CallError.transport) = raise (failure 500 Code.internal)

unfoldable pub stored :
    {A : Type 0} → Result StoreError Review × List Review → Handler (State A) Review
stored (ok r, rows) s = (ok r, record s { reviews = rows })
stored (err StoreError.duplicate, rows) s = (err (failure 409 Code.review_already_exists), s)

unfoldable pub review_event : Review → EmitEventRequest
unfolding rating_text
review_event r = record {
  user_ids = r.reviewee_id ∷ [];
  event = some EventName.notification_created;
  payload = some (Payload.review r);
  notify = some (record {
    notification_type = NotificationType.review_received;
    title = "Новый отзыв";
    body = rating_text r.rating;
    related_order_id = some r.order_id;
  });
  notify_user_ids = [];
}

-- `propagate`: a push that fails is logged.
unfoldable pub propagate : {A : Type 0} → AuthClient A → Env → Review → State A → State A
unfolding aggregate review_event
propagate auth env r s = if env.fails Point.aggregate_reviews then s else record s {
  auth = (auth.set_rating r.reviewee_id (aggregate r.reviewee_id s.reviews) s.auth).1;
  sent = s.sent ++ review_event r ∷ [];
}

-- `create`: `orders` is GET /internal/orders/{id}.
unfoldable pub create :
    {A : Type 0}
    → AuthClient A
    → (String → Result CallError Order)
    → Env
    → Claims
    → Option CreateRequest
    → Handler (State A) Review
unfolding loaded completed insert_review stored propagate review_for
create auth orders env claims body = do
  req ← or_raise body (failure 400 Code.bad_request)
  raise_if (not (reviewer_of claims req == claims.sub) && not (claims.role == "admin"))
      (failure 403 Code.forbidden)
  raise_if (ltb_ℤ req.rating (pos 1) || ltb_ℤ (pos 5) req.rating) (failure 400 Code.validation)
  raise_if (req.reviewee_id == "" || req.reviewee_id == reviewer_of claims req)
      (failure 400 Code.validation)
  order ← loaded (orders req.order_id)
  raise_if (not (completed order)) (failure 409 Code.order_not_completed)
  raise_if (env.fails Point.write_review) (failure 500 Code.internal)
  made ← gets (λ s. insert_review (review_for env claims req) s.reviews)
  review ← stored made
  modify (propagate auth env review)
  pure review

abbrev asked_user : Claims → String → String
asked_user claims user = if user == "" then claims.sub else user

-- `rating`
unfoldable pub rating : {A : Type 0} → Env → Claims → String → Handler (State A) RatingUpdate
unfolding aggregate
rating env claims user = do
  raise_if (env.fails Point.aggregate_reviews) (failure 500 Code.internal)
  gets (λ s. aggregate (asked_user claims user) s.reviews)

-- `list`
unfoldable pub list : {A : Type 0} → Env → Claims → String → Handler (State A) (List Review)
unfolding list_by_reviewee
list env claims user = do
  raise_if (env.fails Point.list_reviews) (failure 500 Code.internal)
  gets (λ s. list_by_reviewee (asked_user claims user) s.reviews)
