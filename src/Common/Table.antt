-- ===== src/Common/Table.antt =====
-- A table of the database as the list of its rows, and the statements that the stores run.
use Prim.Native.Nat.{ℕ, ◌+◌, ◌≤◌}
use mathlib.Core.Path.{◌≡◌, refl, subst}
use mathlib.Core.Bool.{Bool, true, false}
use mathlib.Core.Option
use mathlib.Core.Option.{Option, none, some, some-injective}
use mathlib.Core.List.{List, [], ◌∷◌}
use native.Mathlib.Omega.{arith}
use yukbor_backend.Common.Tests.{if◌then◌else◌, Bool-cases}
use yukbor_backend.Common.Lists.{All}
use mathlib.Core.Logic.{inl, inr}

module _ {ℓ} {A : Type ℓ} where
  -- `SELECT … WHERE p`
  abbrev pub select : (A → Bool) → List A → List A
  select p [] = []
  select p (r ∷ rs) = if p r then r ∷ select p rs else select p rs

  -- `QueryRow`: the first row that fits
  abbrev pub query_row : (A → Bool) → List A → Option A
  query_row p [] = none
  query_row p (r ∷ rs) = if p r then some r else query_row p rs

  -- `UPDATE … SET f WHERE p`
  abbrev pub update_where : (A → Bool) → (A → A) → List A → List A
  update_where p f [] = []
  update_where p f (r ∷ rs) = (if p r then f r else r) ∷ update_where p f rs

  -- `RowsAffected`, and `count(*) … WHERE p`
  abbrev pub count_where : (A → Bool) → List A → ℕ
  count_where p [] = 0
  count_where p (r ∷ rs) = (if p r then 1 else 0) + count_where p rs

  -- A statement that fits no row changes nothing.
  pub update_where-none :
      (p : A → Bool) (f : A → A) (rs : List A) → query_row p rs ≡ none → update_where p f rs ≡ rs
  update_where-none p f [] h = refl
  update_where-none p f (r ∷ rs) h = ground (arith, update_where-none p f rs)

  pub count_where-zero : (p : A → Bool) (rs : List A) → count_where p rs ≡ 0 → query_row p rs ≡ none
  count_where-zero p [] h = refl
  count_where-zero p (r ∷ rs) h = ground (arith, count_where-zero p rs)

  pub query_row-fits : (p : A → Bool) (rs : List A) (r : A) → query_row p rs ≡ some r → p r ≡ true
  query_row-fits p [] r h = cc
  query_row-fits p (q ∷ rs) r h = ground (arith, query_row-fits p rs r)

  -- A search by a key that the statement leaves alone finds the same row, updated.
  pub query_row-update_where :
      (k p : A → Bool) (f : A → A) (rs : List A)
      → ((r : A) → k (f r) ≡ k r)
      → query_row k (update_where p f rs)
        ≡ Option.map (λ r. if p r then f r else r) (query_row k rs)
  query_row-update_where k p f [] h = refl
  query_row-update_where k p f (r ∷ rs) h = ground (arith, h r, query_row-update_where k p f rs h)

  abbrev pub found : Option A → ℕ
  found none = 0
  found (some _) = 1

  -- A conditional UPDATE that ends the life of the rows that it fits: each row that it found was
  -- alive, and is not any more.
  pub update_where-alive :
      (due alive : A → Bool) (mark : A → A) (rs : List A)
      → ((r : A) → due r ≡ true → (alive r ≡ true) × (alive (mark r) ≡ false))
      → count_where alive (update_where due mark rs) + found (query_row due rs)
        ≤ count_where alive rs
  update_where-alive due alive mark [] h = omega arith
  update_where-alive due alive mark (r ∷ rs) h =
      ground (arith, h r, update_where-alive due alive mark rs h)

-- A row's standing before and after an UPDATE that does not touch what `p` reads.
pub count_where-update_where :
    {A : Type 0} (p q : A → Bool) (f : A → A) (rs : List A)
    → ((r : A) → p (f r) ≡ p r)
    → count_where p (update_where q f rs) ≡ count_where p rs
count_where-update_where p q f [] h = refl
count_where-update_where p q f (r ∷ rs) h = ground (arith, h r, count_where-update_where p q f rs h)

-- `ORDER BY`: `before a b` says that `a` may stand in front of `b`.
module _ {A : Type 0} (before : A → A → Bool) where
  abbrev pub insert_ordered : A → List A → List A
  insert_ordered a [] = a ∷ []
  insert_ordered a (b ∷ bs) =
      let rest = insert_ordered a bs in if before a b then a ∷ b ∷ bs else b ∷ rest

  abbrev pub order_by : List A → List A
  order_by [] = []
  order_by (a ∷ bs) = insert_ordered a (order_by bs)

abbrev pub first : {A : Type 0} → List A → Option A
first [] = none
first (a ∷ _) = some a

-- Sorting keeps what holds of every row.
pub insert_ordered-All :
    {A : Type 0} (P : A → Type 0) (before : A → A → Bool) (a : A) (rs : List A)
    → P a
    → All P rs
    → All P (insert_ordered before a rs)
insert_ordered-All P before a [] h hs = (h, hs)
insert_ordered-All P before a (b ∷ bs) h hs = elim (Bool-cases (before a b)) [
  | inl front ↦ rw front (h, hs)
  | inr behind ↦ rw behind (hs.0, insert_ordered-All P before a bs h hs.1)
]

pub order_by-All :
    {A : Type 0} (P : A → Type 0) (before : A → A → Bool) (rs : List A)
    → All P rs
    → All P (order_by before rs)
order_by-All P before [] h = h
order_by-All P before (a ∷ rs) h =
    insert_ordered-All P before a (order_by before rs) h.0 (order_by-All P before rs h.1)

pub select-All : {A : Type 0} (p : A → Bool) (rs : List A) → All (λ r. p r ≡ true) (select p rs)
select-All p [] = tt
select-All p (r ∷ rs) = elim (Bool-cases (p r)) [
  | inl fits ↦ rw fits (fits, select-All p rs)
  | inr not_ ↦ rw not_ (select-All p rs)
]

pub first-All :
    {A : Type 0} (P : A → Type 0) (rs : List A) (a : A) → All P rs → first rs ≡ some a → P a
first-All P [] a h e = cc
first-All P (b ∷ bs) a h e = subst P (some-injective b a e) h.0
