-- ===== src/Reviews/Ratings.antt =====
-- internal/reviews: which reviews are written, and what the ratings come to.
use native.Mathlib.Nat.{le-div_iff_mul-le, div-lt_iff_lt-mul}
use yukbor_backend.Common.{
  ℕ, zero, suc, ◌+◌, ◌*◌, ◌≤◌, String, Option, none, true, false, ◌||◌, not, List, [], ◌∷◌, ◌++◌,
  ◌==◌, string_Eq, ◌≡◌, ◌≢◌, refl, sym, ap, subst, ◌∙◌, arith, All, inl, inr, ◌⊎◌,
}
use yukbor_backend.Common.Int.{pos, ltb_ℤ}
use yukbor_backend.Common.Table.{count_where, query_row}
use yukbor_backend.Common.Exec.{
  Result, ok, Yields, Yields-pure, Yields-bind, Yields-or_raise, Yields-raise_if, Yields-gets,
  modify,
}
use yukbor_backend.Jwtx.{Claims}
use yukbor_backend.Models.Order.{Order}
use yukbor_backend.Models.Events.{Review}
use yukbor_backend.Svc.{CallError}
use yukbor_backend.Reviews
use yukbor_backend.Reviews.{
  Point, AuthClient, State, Env, CreateRequest, RatingUpdate, aggregate, completed, is_of,
  is_triple, reviewer_of, rounded_mean, sum_of,
}

-- One to five stars.
abbrev pub InStars : Review → Type 0
InStars r = (1 ≤ r.rating) × (r.rating ≤ 5)

sum-bounds :
    (reviewee : String) (rows : List Review)
    → All InStars rows
    → (count_where (is_of reviewee) rows ≤ sum_of reviewee rows)
      × (sum_of reviewee rows ≤ 5 * count_where (is_of reviewee) rows)
unfolding sum_of
sum-bounds reviewee [] h = omega arith
sum-bounds reviewee (r ∷ rows) h = ground (arith, sum-bounds reviewee rows h.1)

mean-bounds :
    (sum n : ℕ)
    → suc n ≤ sum
    → sum ≤ 5 * suc n
    → (100 ≤ rounded_mean sum (suc n)) × (rounded_mean sum (suc n) ≤ 500)
unfolding rounded_mean
mean-bounds sum n low high = (
  (le-div_iff_mul-le {k = 2 * suc n} (omega arith)).1 (omega arith),
  omega (
    arith,
    (div-lt_iff_lt-mul {k = 2 * suc n} {x = 2 * (100 * sum) + suc n} {y = 501} (omega arith)).1
        (omega arith),
  ),
)

bounds_by_count :
    (n sum : ℕ)
    → n ≤ sum
    → sum ≤ 5 * n
    → ((n ≡ 0) × (rounded_mean sum n ≡ 0))
      ⊎ ((1 ≤ n) × (100 ≤ rounded_mean sum n) × (rounded_mean sum n ≤ 500))
unfolding rounded_mean
bounds_by_count zero sum low high = inl (refl, refl)
bounds_by_count (suc n) sum low high =
    let (least, most) = mean-bounds sum n low high in inr (omega arith, least, most)

-- A rating stands between one star and five, in hundredths, where there is a review, and is 0
-- where there is none: it always fits the column NUMERIC(3,2) that keeps it. The stored reviews
-- have one to five stars.
pub aggregate-bounds :
    (reviewee : String) (rows : List Review)
    → All InStars rows
    → let agg = aggregate reviewee rows in
      ((agg.count ≡ 0) × (agg.rating ≡ 0))
      ⊎ ((1 ≤ agg.count) × (100 ≤ agg.rating) × (agg.rating ≤ 500))
unfolding aggregate
aggregate-bounds reviewee rows h =
    let (low, high) = sum-bounds reviewee rows h in bounds_by_count _ _ low high

-- What a review that was written shows of its request.
pub record Written {A : Type 0} (auth : AuthClient A) (orders : String → Result CallError Order)
    (env : Env) (before : State A) (r : Review) (s : State A) : Type 0 where
  pub order : Order
  pub loaded : orders r.order_id ≡ ok order
  pub finished : completed order ≡ true
  pub stars : InStars r
  pub of_another : r.reviewee_id ≢ r.reviewer_id
  pub first_one : query_row (is_triple r.order_id r.reviewer_id r.reviewee_id) before.reviews ≡ none
  pub kept : s.reviews ≡ before.reviews ++ r ∷ []
  pub pushed :
      env.fails Point.aggregate_reviews ≡ false
      → s.auth ≡ (auth.set_rating r.reviewee_id (aggregate r.reviewee_id s.reviews) before.auth).1

module _ {A : Type 0} (auth : AuthClient A) (orders : String → Result CallError Order) (env : Env)
    (claims : Claims) where
  stored_ok :
      (r made : Review) (s : State A)
      → (Reviews.stored (Reviews.insert_review r s.reviews) s).0 ≡ ok made
      → (made ≡ r)
        × (query_row (is_triple r.order_id r.reviewer_id r.reviewee_id) s.reviews ≡ none)
        × ((Reviews.stored (Reviews.insert_review r s.reviews) s).1.reviews ≡ s.reviews ++ r ∷ [])
        × ((Reviews.stored (Reviews.insert_review r s.reviews) s).1.auth ≡ s.auth)
  unfolding Reviews.stored Reviews.insert_review Reviews.insert_result
  stored_ok r made s h = ground arith

  loaded_ok :
      (reply : Result CallError Order) (o : Order) (s : State A)
      → (Reviews.loaded reply s).0 ≡ ok o
      → (reply ≡ ok o) × ((Reviews.loaded reply s).1 ≡ s)
  unfolding Reviews.loaded
  loaded_ok reply o s h = ground arith

  propagate_reviews :
      (r : Review) (s : State A) → (Reviews.propagate auth env r s).reviews ≡ s.reviews
  unfolding Reviews.propagate
  propagate_reviews r s = ground arith

  propagate_auth :
      (r : Review) (s : State A)
      → env.fails Point.aggregate_reviews ≡ false
      → (Reviews.propagate auth env r s).auth
        ≡ (auth.set_rating r.reviewee_id
            (aggregate r.reviewee_id (Reviews.propagate auth env r s).reviews)
            s.auth).1
  unfolding Reviews.propagate
  propagate_auth r s up = ground arith

  abbrev draft : CreateRequest → Review
  draft req = Reviews.review_for env claims req

  stars_ok :
      (req : CreateRequest)
      → ltb_ℤ req.rating (pos 1) || ltb_ℤ (pos 5) req.rating ≡ false
      → InStars (draft req)
  unfolding Reviews.review_for
  stars_ok req h = ground arith

  another_ok :
      (req : CreateRequest)
      → req.reviewee_id == "" || req.reviewee_id == reviewer_of claims req ≡ false
      → (draft req).reviewee_id ≢ (draft req).reviewer_id
  unfolding Reviews.review_for
  another_ok req h = ground arith

  written :
      (req : CreateRequest) (s l : State A) (o : Order) (r : Review)
      → (Reviews.loaded (orders req.order_id) s).0 ≡ ok o
      → l ≡ s
      → ltb_ℤ req.rating (pos 1) || ltb_ℤ (pos 5) req.rating ≡ false
      → req.reviewee_id == "" || req.reviewee_id == reviewer_of claims req ≡ false
      → not (completed o) ≡ false
      → (Reviews.stored (Reviews.insert_review (draft req) l.reviews) l).0 ≡ ok r
      → Written auth orders env s r (
          Reviews.propagate auth env r
            (Reviews.stored (Reviews.insert_review (draft req) l.reviews) l).1)
  unfolding Reviews.review_for
  written req s l o r got same stars other done made =
      let (is_draft, first_one, rows, kept_auth) = stored_ok (draft req) r l made in
      let t = (Reviews.stored (Reviews.insert_review (draft req) l.reviews) l).1 in
      subst (λ q. Written auth orders env s q (Reviews.propagate auth env q t)) (sym is_draft)
        (record {
          order = o;
          loaded = (loaded_ok (orders req.order_id) o s got).0;
          finished = ground arith;
          stars = stars_ok req stars;
          of_another = another_ok req other;
          first_one =
              ap
                (λ (x : State A).
                  query_row
                    (is_triple (draft req).order_id (draft req).reviewer_id (draft req).reviewee_id)
                    x.reviews)
                (sym same)
              ∙ first_one;
          kept =
              propagate_reviews (draft req) t
              ∙ rows
              ∙ ap (λ (x : State A). x.reviews ++ draft req ∷ []) same;
          pushed = λ up.
              propagate_auth (draft req) t up
              ∙ ap
                  (λ a.
                    (auth.set_rating (draft req).reviewee_id
                      (aggregate (draft req).reviewee_id
                        (Reviews.propagate auth env (draft req) t).reviews)
                      a).1)
                  (kept_auth ∙ ap (λ (x : State A). x.auth) same);
        })

  create-Yields :
      (body : Option CreateRequest) (s : State A)
      → Yields (Written auth orders env s) (Reviews.create auth orders env claims body) s
  unfolding Reviews.create
  create-Yields body s = Yields-or_raise _ _ _ s λ req _. Yields-raise_if _ _ _ s λ _.
      Yields-raise_if _ _ _ s λ stars. Yields-raise_if _ _ _ s λ other.
        Yields-bind (Reviews.loaded (orders req.order_id)) _ s λ order got.
          Yields-raise_if _ _ _ _ λ done. Yields-raise_if _ _ _ _ λ _. Yields-gets _ _ _ (
            Yields-bind (Reviews.stored _) _ _ λ r made.
              Yields-bind (modify (Reviews.propagate auth env r)) _ _ λ _ _. Yields-pure _ _ (
                written req s _ order r got (loaded_ok (orders req.order_id) order s got).1 stars
                  other done made))

  -- A review that is written is of an order that the orders service gave and that is completed, has
  -- one to five stars, is not of its own writer, and is the first that he wrote of this person for
  -- this order; it is the one row that the table gained.
  pub create-Written :
      (body : Option CreateRequest) (s : State A) (r : Review)
      → (Reviews.create auth orders env claims body s).0 ≡ ok r
      → Written auth orders env s r (Reviews.create auth orders env claims body s).1
  create-Written body s r h = (create-Yields body s).at r h
