-- ===== src/Database/Connecting.antt =====
-- pkg/db/db.go: how long a service waits for the database.
use yukbor_backend.Common.{
  ℕ, zero, suc, ◌+◌, ◌≤◌, ◌<◌, true, false, ◌≡◌, refl, subst, ◌⊎◌, inl, inr, arith, Bool-cases,
}
use native.Mathlib.Decide.{dec_lt}
use yukbor_backend.Common.Exec.{Result, ok, err}
use yukbor_backend.Database.{Attempt, ConnectError, attempts_from, connect}

-- An attempt that does not end the loop.
abbrev pub Passes : Attempt → Type 0
Passes a = (a.reached ≡ false) × (a.cancelled ≡ false)

-- What the attempt that ends the loop makes it return.
abbrev pub EndsWith : (ℕ → Attempt) → ℕ → Result ConnectError ℕ → Type 0
EndsWith meets m r =
    (((meets m).reached ≡ true) × (r ≡ ok m))
    ⊎ (((meets m).reached ≡ false)
        × ((meets m).cancelled ≡ true)
        × (r ≡ err ConnectError.cancelled))

-- The loop from the attempt `first` on, with `left` attempts left.
abbrev pub Decided : (ℕ → Attempt) → ℕ → ℕ → Result ConnectError ℕ → Type 0
Decided meets first left r =
    ((m : ℕ) × (first ≤ m)
      × (m < first + left)
      × ((k : ℕ) → first ≤ k → k < m → Passes (meets k))
      × EndsWith meets m r)
    ⊎ (((k : ℕ) → first ≤ k → k < first + left → Passes (meets k))
        × (r ≡ err ConnectError.unreachable))

goes_on :
    (meets : ℕ → Attempt) (first m k : ℕ)
    → Passes (meets first)
    → ((k : ℕ) → first + 1 ≤ k → k < m → Passes (meets k))
    → first ≤ k
    → k < m
    → Passes (meets k)
goes_on meets first m k here later lo hi = elim (dec_lt first k) [
  | yes h ↦ later k (omega arith) hi
  | no h ↦ subst (λ j. Passes (meets j)) {x = first} (omega arith) here
]

Decided-next :
    (meets : ℕ → Attempt) (first left : ℕ) (r : Result ConnectError ℕ)
    → Passes (meets first)
    → Decided meets (first + 1) left r
    → Decided meets first (suc left) r
Decided-next meets first left r here (inl (m, lo, hi, before, end)) =
    inl (m, omega arith, omega arith, (λ k a b. goes_on meets first m k here before a b), end)
Decided-next meets first left r here (inr (all, e)) = inr (
  (λ k a b. goes_on meets first (first + suc left) k here (λ j c d. all j c (omega arith)) a b),
  e,
)

attempts_from-Decided :
    (meets : ℕ → Attempt) (left first : ℕ)
    → Decided meets first left (attempts_from left first meets)
unfolding attempts_from
attempts_from-Decided meets zero first = inr ((λ k a b. absurd (omega arith)), refl)
attempts_from-Decided meets (suc left) first = elim (Bool-cases (meets first).reached) [
  | inl got ↦
      inl (first, omega arith, omega arith, (λ k a b. absurd (omega arith)), inl (got, rw got refl))
  | inr down ↦ elim (Bool-cases (meets first).cancelled) [
    | inl over ↦ inl (
      first,
      omega arith,
      omega arith,
      (λ k a b. absurd (omega arith)),
      inr (down, over, rw (down, over) refl),
    )
    | inr on ↦
        rw (down, on)
          (Decided-next meets first left (attempts_from left (first + 1) meets) (down, on)
            (attempts_from-Decided meets left (first + 1)))
  ]
]

-- A service waits for the database as long as thirty attempts take, no shorter and no longer: where
-- the URL parses, the first of the attempts 1 to 30 that reaches the database, or after which the
-- context ends, decides: `Connect` returns that attempt's pool or the context's error; and if there
-- is none among them, it gives up.
pub connect_in_time : (meets : ℕ → Attempt) → Decided meets 1 30 (connect true meets)
unfolding connect
connect_in_time meets = attempts_from-Decided meets 30 1
