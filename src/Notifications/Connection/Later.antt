-- ===== src/Notifications/Connection/Later.antt =====
-- internal/notifications/hub.go: what a publication adds to one channel.
use yukbor_backend.Common.{
  ℕ, zero, suc, ◌≤◌, Option, some, true, false, List, [], ◌∷◌, ◌++◌, string_Eq, ltb, natb, length,
  ◌≡◌, refl, ap, sym, subst, arith, Bool-cases, Option-cases, inl, inr,
}
use yukbor_backend.Notifications.Hub.{WsEvent, Chan, capacity, chan_at, send}
use yukbor_backend.Notifications.Connection.{buffer_at}

-- The first list is what is left of the second one when some entries are left out.
pub data InOrder : List WsEvent → List WsEvent → Type 0 where
  nothing : InOrder [] []
  skip : {xs ys : List WsEvent} (y : WsEvent) → InOrder xs ys → InOrder xs (y ∷ ys)
  keep : {xs ys : List WsEvent} (y : WsEvent) → InOrder xs ys → InOrder (y ∷ xs) (y ∷ ys)

pub InOrder-none : (ys : List WsEvent) → InOrder [] ys
InOrder-none [] = nothing
InOrder-none (y ∷ ys) = skip y (InOrder-none ys)

pub InOrder-all : (ys : List WsEvent) → InOrder ys ys
InOrder-all [] = nothing
InOrder-all (y ∷ ys) = keep y (InOrder-all ys)

pub InOrder-more : (xs ys : List WsEvent) → InOrder xs (xs ++ ys)
InOrder-more [] ys = InOrder-none ys
InOrder-more (x ∷ xs) ys = keep x (InOrder-more xs ys)

pub InOrder-append :
    {xs ys : List WsEvent} (zs : List WsEvent) → InOrder xs ys → InOrder (xs ++ zs) (ys ++ zs)
InOrder-append zs nothing = InOrder-all zs
InOrder-append zs (skip y s) = skip y (InOrder-append zs s)
InOrder-append zs (keep y s) = keep y (InOrder-append zs s)

pub InOrder-trans : {xs ys zs : List WsEvent} → InOrder xs ys → InOrder ys zs → InOrder xs zs
InOrder-trans s nothing = s
InOrder-trans s (skip y t) = skip y (InOrder-trans s t)
InOrder-trans (skip _ s) (keep y t) = skip y (InOrder-trans s t)
InOrder-trans (keep _ s) (keep y t) = keep y (InOrder-trans s t)

-- From `cs` to `cs'`, the channel `key` gets no more than the events `evs`, in their order.
pub record Later (key : ℕ) (evs : List WsEvent) (cs cs' : List Chan) : Type 0 where
  pub grows : InOrder (buffer_at key cs') (buffer_at key cs ++ evs)
  pub longer : length cs ≤ length cs'

pub append_assoc : (xs ys zs : List WsEvent) → (xs ++ ys) ++ zs ≡ xs ++ (ys ++ zs)
append_assoc [] ys zs = refl
append_assoc (x ∷ xs) ys zs = ap (λ l. x ∷ l) (append_assoc xs ys zs)

pub Later-trans :
    (key : ℕ) (a b : List WsEvent) (cs mid cs' : List Chan)
    → Later key a cs mid
    → Later key b mid cs'
    → Later key (a ++ b) cs cs'
Later-trans key a b cs mid cs' s t = record {
  grows = InOrder-trans t.grows (
      subst (λ l. InOrder (buffer_at key mid ++ b) l) (append_assoc (buffer_at key cs) a b)
        (InOrder-append b s.grows));
  longer = omega (arith, s.longer, t.longer);
}

pub Later-same : (key : ℕ) (evs : List WsEvent) (cs : List Chan) → Later key evs cs cs
Later-same key evs cs = record { grows = InOrder-more (buffer_at key cs) evs; longer = omega arith }

-- An operation on a channel that adds no more than `evs` to it.
abbrev pub Adds : (Chan → Option Chan) → List WsEvent → Type 0
Adds f evs = (c c' : Chan) → f c ≡ some c' → InOrder c'.buffer (c.buffer ++ evs)

-- The list after an operation on its first channel, and on a later one.
pub first_done :
    (f : Chan → Option Chan) (c : Chan) (cs cs' : List Chan)
    → chan_at f zero (c ∷ cs) ≡ some cs'
    → (c' : Chan) × (f c ≡ some c') × (cs' ≡ c' ∷ cs)
unfolding chan_at
first_done f c cs cs' h = elim (Option-cases (f c)) [
  | inl panics ↦ absurd (ground arith)
  | inr (c', fine) ↦ (c', fine, ground arith)
]

pub next_done :
    (f : Chan → Option Chan) (k : ℕ) (c : Chan) (cs cs' : List Chan)
    → chan_at f (suc k) (c ∷ cs) ≡ some cs'
    → (ds : List Chan) × (chan_at f k cs ≡ some ds) × (cs' ≡ c ∷ ds)
unfolding chan_at
next_done f k c cs cs' h = elim (Option-cases (chan_at f k cs)) [
  | inl panics ↦ absurd (ground arith)
  | inr (ds, fine) ↦ (ds, fine, ground arith)
]

pub chan_at-length :
    (f : Chan → Option Chan) (k : ℕ) (cs cs' : List Chan)
    → chan_at f k cs ≡ some cs'
    → length cs ≤ length cs'
unfolding chan_at
chan_at-length f k [] cs' h = omega arith
chan_at-length f zero (c ∷ cs) cs' h =
    let (c', fine, e) = first_done f c cs cs' h in
    subst (λ l. length (c ∷ cs) ≤ length l) (sym e) (omega arith)
chan_at-length f (suc k) (c ∷ cs) cs' h =
    let (ds, fine, e) = next_done f k c cs cs' h in
    subst (λ l. length (c ∷ cs) ≤ length l) (sym e) (omega (arith, chan_at-length f k cs ds fine))

Later-cons :
    (key : ℕ) (evs : List WsEvent) (c : Chan) (cs ds cs' : List Chan)
    → cs' ≡ c ∷ ds
    → Later key evs cs ds
    → Later (suc key) evs (c ∷ cs) cs'
Later-cons key evs c cs ds cs' e l =
    subst (Later (suc key) evs (c ∷ cs)) (sym e)
      (record { grows = l.grows; longer = omega (arith, l.longer) })

pub chan_at-Later :
    (f : Chan → Option Chan) (evs : List WsEvent) (k : ℕ) (cs cs' : List Chan)
    → Adds f evs
    → chan_at f k cs ≡ some cs'
    → Later k evs cs cs'
unfolding chan_at
chan_at-Later f evs k [] cs' adds h = absurd (cc)
chan_at-Later f evs zero (c ∷ cs) cs' adds h =
    let (c', fine, e) = first_done f c cs cs' h in
    subst (Later zero evs (c ∷ cs)) (sym e)
      (record { grows = adds c c' fine; longer = omega arith })
chan_at-Later f evs (suc k) (c ∷ cs) cs' adds h =
    let (ds, fine, e) = next_done f k c cs cs' h in
    Later-cons k evs c cs ds cs' e (chan_at-Later f evs k cs ds adds fine)

pub chan_at-other :
    (f : Chan → Option Chan) (key k : ℕ) (cs cs' : List Chan)
    → natb k key ≡ false
    → chan_at f k cs ≡ some cs'
    → Later key [] cs cs'
unfolding chan_at
chan_at-other f key k [] cs' other h = absurd (cc)
chan_at-other f zero zero (c ∷ cs) cs' other h = absurd (ground arith)
chan_at-other f (suc key) zero (c ∷ cs) cs' other h =
    let (c', fine, e) = first_done f c cs cs' h in
    subst (Later (suc key) [] (c ∷ cs)) (sym e)
      (record { grows = InOrder-more (buffer_at key cs) []; longer = omega arith })
chan_at-other f zero (suc k) (c ∷ cs) cs' other h =
    let (ds, fine, e) = next_done f k c cs cs' h in
    subst (Later zero [] (c ∷ cs)) (sym e) (record {
      grows = InOrder-more c.buffer [];
      longer = omega (arith, chan_at-length f k cs ds fine);
    })
chan_at-other f (suc key) (suc k) (c ∷ cs) cs' other h =
    let (ds, fine, e) = next_done f k c cs cs' h in
    Later-cons key [] c cs ds cs' e (chan_at-other f key k cs ds (ground (arith, other)) fine)

sent_there :
    (ev : WsEvent) (c c' : Chan)
    → c.closed ≡ false
    → ltb (length c.buffer) capacity ≡ true
    → send ev c ≡ some c'
    → record c { buffer = c.buffer ++ ev ∷ [] } ≡ c'
sent_there ev c c' live room h = ground arith

sent_full :
    (ev : WsEvent) (c c' : Chan)
    → c.closed ≡ false
    → ltb (length c.buffer) capacity ≡ false
    → send ev c ≡ some c'
    → c ≡ c'
sent_full ev c c' live full h = ground arith

pub send-Adds : (ev : WsEvent) → Adds (send ev) (ev ∷ [])
send-Adds ev c c' h = elim (Bool-cases c.closed) [
  | inl shut ↦ absurd (ground arith)
  | inr live ↦ elim (Bool-cases (ltb (length c.buffer) capacity)) [
    | inl room ↦
        subst (λ (d : Chan). InOrder d.buffer (c.buffer ++ ev ∷ []))
          (sent_there ev c c' live room h) (InOrder-all (c.buffer ++ ev ∷ []))
    | inr full ↦
        subst (λ (d : Chan). InOrder d.buffer (c.buffer ++ ev ∷ [])) (sent_full ev c c' live full h)
          (InOrder-more c.buffer (ev ∷ []))
  ]
]
