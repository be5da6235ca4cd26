-- ===== src/Database/Names.antt =====
-- Lists of file names without repetition, and what sorting keeps of them.
use yukbor_backend.Common.{
  String, Bool, true, false, List, [], ◌∷◌, ◌++◌, ◌≡◌, refl, ◌∙◌, ap, subst, inl, inr, arith,
  string_Eq, ◌==◌, All, contains, Bool-cases, ==_refl, ◌||◌,
}
use yukbor_backend.Common.Table.{insert_ordered, order_by}

-- No name stands twice.
abbrev pub Distinct : List String → Type 0
Distinct [] = Unit
Distinct (n ∷ ns) = (contains n ns ≡ false) × Distinct ns

pub append_nil : (ns : List String) → ns ++ [] ≡ ns
append_nil [] = refl
append_nil (n ∷ ns) = ap (λ r. n ∷ r) (append_nil ns)

pub append_one :
    (ns : List String) (n : String) (rest : List String) → (ns ++ n ∷ []) ++ rest ≡ ns ++ n ∷ rest
append_one [] n rest = refl
append_one (m ∷ ns) n rest = ap (λ r. m ∷ r) (append_one ns n rest)

contains-append :
    (a : String) (xs ys : List String) → contains a (xs ++ ys) ≡ (contains a xs || contains a ys)
contains-append a [] ys = refl
contains-append a (x ∷ xs) ys = ground (arith, contains-append a xs ys)

==_sym : (s t : String) → (s == t) ≡ (t == s)
==_sym s t = ground arith

apart : (d : String) (ns : List String) → contains d ns ≡ false → All (λ n. (d == n) ≡ false) ns
apart d [] h = tt
apart d (n ∷ ns) h = (ground (arith, ==_sym d n), apart d ns (ground arith))

All-both :
    {P Q R : String → Type 0} (ns : List String)
    → ((n : String) → P n → Q n → R n)
    → All P ns
    → All Q ns
    → All R ns
All-both [] f p q = tt
All-both (n ∷ ns) f p q = (f n p.0 q.0, All-both ns f p.1 q.1)

-- In a list without repetition, nothing in the second part stands in the first.
pub All-fresh : (xs ys : List String) → Distinct (xs ++ ys) → All (λ n. contains n xs ≡ false) ys
All-fresh [] ys h = nothing ys
  where
    nothing : (ns : List String) → All (λ n. contains n [] ≡ false) ns
    nothing [] = tt
    nothing (n ∷ ns) = (refl, nothing ns)
All-fresh (x ∷ xs) ys h =
    All-both ys (λ n p q. ground arith) (apart x ys (ground (arith, contains-append x xs ys)))
      (All-fresh xs ys h.1)

pub All-known : (xs seen : List String) → All (λ n. contains n (seen ++ xs) ≡ true) xs
All-known [] seen = tt
All-known (x ∷ xs) seen = (
  rw (contains-append x seen (x ∷ xs)) (ground (arith, ==_refl x)),
  subst (λ zs. All (λ n. contains n zs ≡ true) xs) (append_one seen x xs)
      (All-known xs (seen ++ x ∷ [])),
)

module _ (before : String → String → Bool) where
  contains-insert_ordered :
      (a b : String) (ns : List String)
      → contains a (insert_ordered before b ns) ≡ contains a (b ∷ ns)
  contains-insert_ordered a b [] = refl
  contains-insert_ordered a b (n ∷ ns) = ground (arith, contains-insert_ordered a b ns)

  contains-order_by :
      (a : String) (ns : List String) → contains a (order_by before ns) ≡ contains a ns
  contains-order_by a [] = refl
  contains-order_by a (n ∷ ns) =
      contains-insert_ordered a n (order_by before ns)
      ∙ ap (λ b. (n == a) || b) (contains-order_by a ns)

  insert_ordered-Distinct :
      (b : String) (ns : List String)
      → contains b ns ≡ false
      → Distinct ns
      → Distinct (insert_ordered before b ns)
  insert_ordered-Distinct b [] new d = (refl, tt)
  insert_ordered-Distinct b (n ∷ ns) new d = elim (Bool-cases (before b n)) [
    | inl first ↦ rw first (new, d)
    | inr behind ↦ rw behind (
      rw (contains-insert_ordered n b ns) (ground (arith, ==_sym b n)),
      insert_ordered-Distinct b ns (ground arith) d.1,
    )
  ]

  pub order_by-Distinct : (ns : List String) → Distinct ns → Distinct (order_by before ns)
  order_by-Distinct [] d = tt
  order_by-Distinct (n ∷ ns) d =
      insert_ordered-Distinct n (order_by before ns) (contains-order_by n ns ∙ d.0)
        (order_by-Distinct ns d.1)
