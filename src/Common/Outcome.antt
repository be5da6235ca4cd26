-- ===== src/Common/Outcome.antt =====
-- What holds when a handler has ended, by whether it returned a value: `P` of the state then, or `Q`.
use mathlib.Core.Bool.{Bool, true, false}
use mathlib.Core.Path.{◌≡◌, refl}
use mathlib.Core.Option.{Option, none, some}
use yukbor_backend.Common.Exec.{Result, ok, err, Exec, lift, or_raise, raise_if, gets, ◌>>=◌}

pub data Outcome {S E A : Type 0} (P Q : S → Type 0) (p : Result E A × S) : Type 0 where
  did : (a : A) → p.0 ≡ ok a → P p.1 → Outcome P Q p
  did_not : (e : E) → p.0 ≡ err e → Q p.1 → Outcome P Q p

module _ {S E A B : Type 0} {P Q : S → Type 0} (s : S) (stop : Q s) where
  pub Outcome-or_raise :
      (o : Option A) (e : E) (f : A → Exec S E B)
      → ((a : A) → o ≡ some a → Outcome P Q (f a s))
      → Outcome P Q ((or_raise o e >>= f) s)
  unfolding ◌>>=◌
  Outcome-or_raise none e f go = did_not e refl stop
  Outcome-or_raise (some a) e f go = go a refl

  -- A first step that leaves the state alone.
  pub Outcome-reader :
      (r : Result E A) (f : A → Exec S E B)
      → ((a : A) → r ≡ ok a → Outcome P Q (f a s))
      → Outcome P Q ((lift r >>= f) s)
  unfolding ◌>>=◌
  Outcome-reader (ok a) f go = go a refl
  Outcome-reader (err e) f go = did_not e refl stop

module _ {S E B : Type 0} {P Q : S → Type 0} (s : S) where
  pub Outcome-raise_if :
      (c : Bool) (e : E) (k : Unit {0} → Exec S E B)
      → Q s
      → (c ≡ false → Outcome P Q (k tt s))
      → Outcome P Q ((raise_if c e >>= k) s)
  unfolding ◌>>=◌
  Outcome-raise_if true e k stop go = did_not e refl stop
  Outcome-raise_if false e k stop go = go refl

  pub Outcome-gets :
      {A : Type 0} (g : S → A) (f : A → Exec S E B)
      → Outcome P Q (f (g s) s)
      → Outcome P Q ((gets g >>= f) s)
  unfolding ◌>>=◌
  Outcome-gets g f go = go

module _ {S E A B : Type 0} {P Q : S → Type 0} (s : S) where
  pub Outcome-some :
      (a : A) (e : E) (f : A → Exec S E B)
      → Outcome P Q (f a s)
      → Outcome P Q ((or_raise (some a) e >>= f) s)
  unfolding ◌>>=◌
  Outcome-some a e f go = go
