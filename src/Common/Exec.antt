-- ===== src/Common/Exec.antt =====
-- A request handler: it reads and writes the state of its service, and returns a value or stops
-- early. What was written before it stops stays written.
use Prim.Native.Nat.{ℕ}
use mathlib.Core.Bool.{Bool, true, false}
use mathlib.Core.Path.{◌≡◌, refl, sym, subst, ap}
use mathlib.Core.Option.{Option, none, some}
use yukbor_backend.Common.Tests.{if◌then◌else◌}

pub data Result (E A : Type 0) : Type 0 where
  ok : A → Result E A
  err : E → Result E A

-- To count the successes.
abbrev pub is_ok : {E A : Type 0} → Result E A → ℕ
is_ok (ok _) = 1
is_ok (err _) = 0

abbrev pub Exec : Type 0 → Type 0 → Type 0 → Type 0
Exec S E A = S → Result E A × S

module _ {S E A : Type 0} where
  abbrev pub pure : A → Exec S E A
  pure a s = (ok a, s)

  abbrev pub raise : E → Exec S E A
  raise e s = (err e, s)

  abbrev pub gets : (S → A) → Exec S E A
  gets f s = (ok (f s), s)

  abbrev pub lift : Result E A → Exec S E A
  lift r s = (r, s)

  abbrev pub or_raise : Option A → E → Exec S E A
  or_raise none e = raise e
  or_raise (some a) e = pure a

infixl 5 ◌>>=◌ ◌>>◌
unfoldable pub ◌>>=◌ : {S E A B : Type 0} → Exec S E A → (A → Exec S E B) → Exec S E B
◌>>=◌ m f s = let (r, s') = m s in elim r [ ok a ↦ f a s' | err e ↦ raise e s' ]

abbrev pub ◌>>◌ : {S E A B : Type 0} → Exec S E A → Exec S E B → Exec S E B
m >> k = m >>= λ _. k

module _ {S E : Type 0} where
  abbrev pub raise_if : Bool → E → Exec S E (Unit {0})
  raise_if c e s = (if c then err e else ok tt, s)

  abbrev pub modify : (S → S) → Exec S E (Unit {0})
  modify f s = (ok tt, f s)

-- What holds of the state when `m`, begun at `s`, has ended: one rule for each step of a handler.
pub record EndsIn {S E A : Type 0} (R : S → Type 0) (m : Exec S E A) (s : S) : Type 0 where
  pub at : R (m s).1

module _ {S E A : Type 0} {R : S → Type 0} where
  pub EndsIn-pure : (a : A) (s : S) → R s → EndsIn {E = E} R (pure a) s
  EndsIn-pure a s h = record { at = h }

  pub EndsIn-raise : (e : E) (s : S) → R s → EndsIn {A = A} R (raise e) s
  EndsIn-raise e s h = record { at = h }

bind_step :
    {S E A B : Type 0} {R : S → Type 0} (r : Result E A) (s : S) (f : A → Exec S E B)
    → ((e : E) → r ≡ err e → R s)
    → ((a : A) → r ≡ ok a → EndsIn R (f a) s)
    → R ((lift r >>= f) s).1
unfolding ◌>>=◌
bind_step (ok a) s f stop go = (go a refl).at
bind_step (err e) s f stop go = stop e refl

-- The step's result and state, taken apart.
after_step :
    {S E A B : Type 0} {R : S → Type 0} (r : Result E A) (s' : S) (f : A → Exec S E B) (s : S)
    → s' ≡ s
    → R s
    → ((a : A) → r ≡ ok a → EndsIn R (f a) s)
    → R ((lift r >>= f) s').1
unfolding ◌>>=◌
after_step {R = R} (ok a) s' f s e stop go = subst (λ t. R (f a t).1) (sym e) (go a refl).at
after_step {R = R} (err x) s' f s e stop go = subst R (sym e) stop

module _ {S E A B : Type 0} {R : S → Type 0} where
  -- Any first step, by how it ended.
  pub EndsIn-bind :
      (m : Exec S E A) (f : A → Exec S E B) (s : S)
      → ((e : E) → (m s).0 ≡ err e → R (m s).1)
      → ((a : A) → (m s).0 ≡ ok a → EndsIn R (f a) (m s).1)
      → EndsIn R (m >>= f) s
  unfolding ◌>>=◌
  EndsIn-bind m f s stop go = record { at = bind_step (m s).0 (m s).1 f stop go }

  -- A first step that leaves the state alone.
  pub EndsIn-reader :
      (m : Exec S E A) (f : A → Exec S E B) (s : S)
      → (m s).1 ≡ s
      → R s
      → ((a : A) → (m s).0 ≡ ok a → EndsIn R (f a) s)
      → EndsIn R (m >>= f) s
  unfolding ◌>>=◌
  EndsIn-reader m f s reads stop go = record { at = after_step (m s).0 (m s).1 f s reads stop go }

module _ {S E A B : Type 0} {R : S → Type 0} where
  pub EndsIn-or_raise :
      (o : Option A) (e : E) (f : A → Exec S E B) (s : S)
      → R s
      → ((a : A) → o ≡ some a → EndsIn R (f a) s)
      → EndsIn R (or_raise o e >>= f) s
  unfolding ◌>>=◌
  EndsIn-or_raise none e f s stop go = record { at = stop }
  EndsIn-or_raise (some a) e f s stop go = record { at = (go a refl).at }

  pub EndsIn-gets :
      (g : S → A) (f : A → Exec S E B) (s : S) → EndsIn R (f (g s)) s → EndsIn R (gets g >>= f) s
  unfolding ◌>>=◌
  EndsIn-gets g f s go = record { at = go.at }

module _ {S E B : Type 0} {R : S → Type 0} where
  pub EndsIn-raise_if :
      (c : Bool) (e : E) (k : Unit {0} → Exec S E B) (s : S)
      → R s
      → (c ≡ false → EndsIn R (k tt) s)
      → EndsIn R (raise_if c e >>= k) s
  unfolding ◌>>=◌
  EndsIn-raise_if true e k s stop go = record { at = stop }
  EndsIn-raise_if false e k s stop go = record { at = (go refl).at }

  pub EndsIn-if :
      (c : Bool) (m n : Exec S E B) (s : S)
      → (c ≡ true → EndsIn R m s)
      → (c ≡ false → EndsIn R n s)
      → EndsIn R (if c then m else n) s
  EndsIn-if true m n s p q = p refl
  EndsIn-if false m n s p q = q refl

-- What holds of the state where `m`, begun at `s`, returns a value.
pub record Gives {S E A : Type 0} (R : S → Type 0) (m : Exec S E A) (s : S) : Type 0 where
  pub at : (a : A) → (m s).0 ≡ ok a → R (m s).1

gives_step :
    {S E A B : Type 0} {R : S → Type 0} (r : Result E A) (s : S) (f : A → Exec S E B)
    → ((a : A) → r ≡ ok a → Gives R (f a) s)
    → (b : B) → ((lift r >>= f) s).0 ≡ ok b
    → R ((lift r >>= f) s).1
unfolding ◌>>=◌
gives_step (ok a) s f go b h = (go a refl).at b h
gives_step (err e) s f go b h = cc

module _ {S E A B : Type 0} {R : S → Type 0} where
  pub Gives-bind :
      (m : Exec S E A) (f : A → Exec S E B) (s : S)
      → ((a : A) → (m s).0 ≡ ok a → Gives R (f a) (m s).1)
      → Gives R (m >>= f) s
  unfolding ◌>>=◌
  Gives-bind m f s go = record { at = gives_step (m s).0 (m s).1 f go }

  pub Gives-some :
      (a : A) (e : E) (f : A → Exec S E B) (s : S)
      → Gives R (f a) s
      → Gives R (or_raise (some a) e >>= f) s
  unfolding ◌>>=◌
  Gives-some a e f s go = record { at = go.at }

  pub Gives-gets :
      (g : S → A) (f : A → Exec S E B) (s : S) → Gives R (f (g s)) s → Gives R (gets g >>= f) s
  unfolding ◌>>=◌
  Gives-gets g f s go = record { at = go.at }

-- What holds of the value and of the state where `m`, begun at `s`, returns a value.
pub record Yields {S E A : Type 0} (R : A → S → Type 0) (m : Exec S E A) (s : S) : Type 0 where
  pub at : (a : A) → (m s).0 ≡ ok a → R a (m s).1

yields_step :
    {S E A B : Type 0} {R : B → S → Type 0} (r : Result E A) (s : S) (f : A → Exec S E B)
    → ((a : A) → r ≡ ok a → Yields R (f a) s)
    → (b : B) → ((lift r >>= f) s).0 ≡ ok b
    → R b ((lift r >>= f) s).1
unfolding ◌>>=◌
yields_step (ok a) s f go b h = (go a refl).at b h
yields_step (err e) s f go b h = cc

ok_of : {E A : Type 0} → A → Result E A → A
ok_of a (ok b) = b
ok_of a (err _) = a

module _ {S E A : Type 0} {R : A → S → Type 0} where
  pub Yields-pure : (a : A) (s : S) → R a s → Yields {E = E} R (pure a) s
  unfolding ok_of
  Yields-pure a s h = record { at = λ b e. subst (λ c. R c s) (ap (ok_of a) e) h }

  pub Yields-raise : (e : E) (s : S) → Yields R (raise e) s
  Yields-raise e s = record { at = λ b h. cc }

module _ {S E A B : Type 0} {R : B → S → Type 0} where
  pub Yields-bind :
      (m : Exec S E A) (f : A → Exec S E B) (s : S)
      → ((a : A) → (m s).0 ≡ ok a → Yields R (f a) (m s).1)
      → Yields R (m >>= f) s
  unfolding ◌>>=◌
  Yields-bind m f s go = record { at = yields_step (m s).0 (m s).1 f go }

  pub Yields-or_raise :
      (o : Option A) (e : E) (f : A → Exec S E B) (s : S)
      → ((a : A) → o ≡ some a → Yields R (f a) s)
      → Yields R (or_raise o e >>= f) s
  unfolding ◌>>=◌
  Yields-or_raise none e f s go = record { at = λ b h. cc }
  Yields-or_raise (some a) e f s go = record { at = (go a refl).at }

  pub Yields-some :
      (a : A) (e : E) (f : A → Exec S E B) (s : S)
      → Yields R (f a) s
      → Yields R (or_raise (some a) e >>= f) s
  unfolding ◌>>=◌
  Yields-some a e f s go = record { at = go.at }

  pub Yields-gets :
      (g : S → A) (f : A → Exec S E B) (s : S) → Yields R (f (g s)) s → Yields R (gets g >>= f) s
  unfolding ◌>>=◌
  Yields-gets g f s go = record { at = go.at }

module _ {S E B : Type 0} {R : B → S → Type 0} where
  pub Yields-raise_if :
      (c : Bool) (e : E) (k : Unit {0} → Exec S E B) (s : S)
      → (c ≡ false → Yields R (k tt) s)
      → Yields R (raise_if c e >>= k) s
  unfolding ◌>>=◌
  Yields-raise_if true e k s go = record { at = λ b h. cc }
  Yields-raise_if false e k s go = record { at = (go refl).at }

  pub Yields-if :
      (c : Bool) (m n : Exec S E B) (s : S)
      → (c ≡ true → Yields R m s)
      → (c ≡ false → Yields R n s)
      → Yields R (if c then m else n) s
  Yields-if true m n s p q = p refl
  Yields-if false m n s p q = q refl
