-- ===== src/Notifications/Hub/Safe.antt =====
-- internal/notifications/hub.go: the hub never panics, and no channel holds more than it has room
-- for.
use yukbor_backend.Common.{
  ℕ, zero, suc, ◌≤◌, ◌<◌, Option, none, some, Bool, true, false, List, [], ◌∷◌, ◌++◌, string_Eq,
  if◌then◌else◌, ltb, natb, length, All, ◌≡◌, refl, ap, ◌∙◌, arith,
}
use yukbor_backend.Notifications.Hub
use yukbor_backend.Notifications.Hub.{
  WsEvent, Chan, Hub, capacity, chan_at, send, close_chan, is_among, remove_first, run,
}

-- Whether channel number `k` is there and fits.
abbrev pub holds_at : (Chan → Bool) → ℕ → List Chan → Bool
holds_at p k [] = false
holds_at p zero (c ∷ cs) = p c
holds_at p (suc k) (c ∷ cs) = holds_at p k cs

abbrev pub is_open : Chan → Bool
is_open c = if c.closed then false else true

abbrev pub open_at : ℕ → List Chan → Bool
open_at = holds_at is_open

abbrev pub set_at : (Chan → Chan) → ℕ → List Chan → List Chan
set_at g k [] = []
set_at g zero (c ∷ cs) = g c ∷ cs
set_at g (suc k) (c ∷ cs) = c ∷ set_at g k cs

abbrev pub Fits : Chan → Type 0
Fits c = length c.buffer ≤ capacity

pub chan_at-set_at :
    (p : Chan → Bool) (f : Chan → Option Chan) (g : Chan → Chan) (k : ℕ) (cs : List Chan)
    → ((c : Chan) → p c ≡ true → f c ≡ some (g c))
    → holds_at p k cs ≡ true
    → chan_at f k cs ≡ some (set_at g k cs)
unfolding chan_at
chan_at-set_at p f g k [] h at = cc
chan_at-set_at p f g zero (c ∷ cs) h at = rw (h c at, chan_at) refl
chan_at-set_at p f g (suc k) (c ∷ cs) h at = rw (chan_at-set_at p f g k cs h at, chan_at) refl

pub set_at-Fits :
    (g : Chan → Chan) (k : ℕ) (cs : List Chan)
    → ((c : Chan) → Fits c → Fits (g c))
    → All Fits cs
    → All Fits (set_at g k cs)
set_at-Fits g k [] h fit = tt
set_at-Fits g zero (c ∷ cs) h fit = (h c fit.0, fit.1)
set_at-Fits g (suc k) (c ∷ cs) h fit = (fit.0, set_at-Fits g k cs h fit.1)

pub set_at-open :
    (g : Chan → Chan) (k j : ℕ) (cs : List Chan)
    → ((c : Chan) → is_open (g c) ≡ is_open c)
    → open_at j (set_at g k cs) ≡ open_at j cs
set_at-open g k j [] h = refl
set_at-open g zero zero (c ∷ cs) h = h c
set_at-open g zero (suc j) (c ∷ cs) h = refl
set_at-open g (suc k) zero (c ∷ cs) h = refl
set_at-open g (suc k) (suc j) (c ∷ cs) h = set_at-open g k j cs h

abbrev pub shut : Chan → Chan
shut c = record c { closed = true }

pub set_at-shut :
    (k j : ℕ) (cs : List Chan) → natb j k ≡ false → open_at j (set_at shut k cs) ≡ open_at j cs
set_at-shut k j [] h = refl
set_at-shut zero zero (c ∷ cs) h = cc
set_at-shut zero (suc j) (c ∷ cs) h = refl
set_at-shut (suc k) zero (c ∷ cs) h = refl
set_at-shut (suc k) (suc j) (c ∷ cs) h = set_at-shut k j cs (ground (arith, h))

pub open_at-bound : (j : ℕ) (cs : List Chan) → open_at j cs ≡ true → j < length cs
open_at-bound j [] h = cc
open_at-bound zero (c ∷ cs) h = omega arith
open_at-bound (suc j) (c ∷ cs) h = omega (arith, open_at-bound j cs h)

pub open_at-append :
    (j : ℕ) (cs : List Chan) (c : Chan) → open_at j cs ≡ true → open_at j (cs ++ c ∷ []) ≡ true
open_at-append j [] c h = cc
open_at-append zero (d ∷ cs) c h = h
open_at-append (suc j) (d ∷ cs) c h = open_at-append j cs c h

pub open_at-new : (cs : List Chan) → open_at (length cs) (cs ++ Hub.new_chan ∷ []) ≡ true
open_at-new [] = refl
open_at-new (d ∷ cs) = open_at-new cs

pub append-Fits : (cs : List Chan) → All Fits cs → All Fits (cs ++ Hub.new_chan ∷ [])
append-Fits [] fit = (omega arith, tt)
append-Fits (d ∷ cs) fit = (fit.0, append-Fits cs fit.1)

length-put : (es : List WsEvent) (ev : WsEvent) → length (es ++ ev ∷ []) ≡ suc (length es)
length-put [] ev = refl
length-put (e ∷ es) ev = ap suc (length-put es ev)

abbrev put : WsEvent → Chan → Chan
put ev c = if ltb (length c.buffer) capacity then record c { buffer = c.buffer ++ ev ∷ [] } else c

put-Fits : (ev : WsEvent) (c : Chan) → Fits c → Fits (put ev c)
put-Fits ev c h = ground (arith, length-put c.buffer ev)

put-open : (ev : WsEvent) (c : Chan) → is_open (put ev c) ≡ is_open c
put-open ev c = ground arith

send-put : (ev : WsEvent) (c : Chan) → is_open c ≡ true → send ev c ≡ some (put ev c)
send-put ev c h = ground arith

-- What a run of sends keeps.
pub record Sent (cs cs' : List Chan) : Type 0 where
  pub same_open : (j : ℕ) → open_at j cs' ≡ open_at j cs
  pub fit : All Fits cs'

-- The end of an operation that may panic.
abbrev pub Ends : {A : Type 0} → (A → Type 0) → Option A → Type 0
Ends P none = ⊥
Ends P (some a) = P a

abbrev pub AllOpen : List ℕ → List Chan → Type 0
AllOpen ks cs = All (λ k. open_at k cs ≡ true) ks

AllOpen-after :
    (ks : List ℕ) (cs cs' : List Chan)
    → ((j : ℕ) → open_at j cs' ≡ open_at j cs)
    → AllOpen ks cs
    → AllOpen ks cs'
AllOpen-after [] cs cs' same h = tt
AllOpen-after (k ∷ ks) cs cs' same h = (same k ∙ h.0, AllOpen-after ks cs cs' same h.1)

pub after_Sent :
    (cs mid : List Chan) (o : Option (List Chan))
    → ((j : ℕ) → open_at j mid ≡ open_at j cs)
    → Ends (Sent mid) o
    → Ends (Sent cs) o
after_Sent cs mid none same h = h
after_Sent cs mid (some cs') same h = record {
  same_open = λ j. h.same_open j ∙ same j;
  fit = h.fit;
}

pub send_all-Sent :
    (ev : WsEvent) (ks : List ℕ) (cs : List Chan)
    → AllOpen ks cs
    → All Fits cs
    → Ends (Sent cs) (Hub.send_all ev ks cs)
unfolding Hub.send_all
send_all-Sent ev [] cs h fit = record { same_open = λ j. refl; fit = fit }
send_all-Sent ev (k ∷ ks) cs h fit =
    rw (chan_at-set_at is_open (send ev) (put ev) k cs (send-put ev) h.0, Ends, Hub.send_all)
      (after_Sent cs (set_at (put ev) k cs) _ (λ j. set_at-open (put ev) k j cs (put-open ev))
        (send_all-Sent ev ks (set_at (put ev) k cs)
          (AllOpen-after ks cs (set_at (put ev) k cs)
            (λ j. set_at-open (put ev) k j cs (put-open ev)) h.1)
          (set_at-Fits (put ev) k cs (put-Fits ev) fit)))
