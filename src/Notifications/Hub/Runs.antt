-- ===== src/Notifications/Hub/Runs.antt =====
-- internal/notifications/hub.go: any order of what happens to a hub.
use yukbor_backend.Common.{
  ℕ, zero, suc, String, Option, none, some, true, List, [], ◌∷◌, ltb, natb, length, All, ◌≡◌, refl,
  ◌∙◌, sym, subst, arith, Bool-cases, inl, inr,
}
use yukbor_backend.Notifications.Hub
use yukbor_backend.Notifications.Hub.{WsEvent, Chan, Hub, capacity, chan_at, Event, is_among}
use yukbor_backend.Notifications.Hub.Safe.{
  open_at, AllOpen, is_open, holds_at, Fits, Ends, Sent, send_all-Sent, set_at-Fits, set_at-open,
  chan_at-set_at,
}
use yukbor_backend.Notifications.Hub.Calm.{Inv, All-map, subscribe-Inv, unsubscribe-Inv}

-- Channels with the same ones open, as many as fit.
Inv-after : (h : Hub) (cs : List Chan) → Inv h → Sent h.chans cs → Inv (record h { chans = cs })
Inv-after h cs i s = record {
  owner = i.owner;
  registered = λ u. All-map (h.subs u) (λ k p. (p.0, s.same_open k ∙ p.1)) (i.registered u);
  distinct = i.distinct;
  fit = s.fit;
}

-- After the connections of one user, those of the others.
abbrev continue :
    (String → List ℕ) → WsEvent → List String → Option (List Chan) → Option (List Chan)
continue subs ev users none = none
continue subs ev users (some cs) = Hub.publish_chans subs ev users cs

Sent-trans : (a b c : List Chan) → Sent a b → Sent b c → Sent a c
Sent-trans a b c s t = record { same_open = λ j. t.same_open j ∙ s.same_open j; fit = t.fit }

publish_chans-continue :
    (subs : String → List ℕ) (ev : WsEvent) (user : String) (users : List String) (cs : List Chan)
    → Hub.publish_chans subs ev (user ∷ users) cs
      ≡ continue subs ev users (Hub.send_all ev (subs user) cs)
unfolding Hub.publish_chans
publish_chans-continue subs ev user users cs = ground arith

continue-Sent :
    (h : Hub) (ev : WsEvent) (users : List String) (cs : List Chan) (o : Option (List Chan))
    → ((cs' : List Chan)
        → Sent h.chans cs'
        → Ends (Sent h.chans) (Hub.publish_chans h.subs ev users cs'))
    → Sent h.chans cs
    → Ends (Sent cs) o
    → Ends (Sent h.chans) (continue h.subs ev users o)
continue-Sent h ev users cs none go s e = e
continue-Sent h ev users cs (some cs') go s e = go cs' (Sent-trans h.chans cs cs' s e)

publish_chans-Sent :
    (h : Hub) (ev : WsEvent) (users : List String) (cs : List Chan)
    → Inv h
    → Sent h.chans cs
    → Ends (Sent h.chans) (Hub.publish_chans h.subs ev users cs)
unfolding Hub.publish_chans
publish_chans-Sent h ev [] cs i s = s
publish_chans-Sent h ev (user ∷ users) cs i s =
    subst (Ends (Sent h.chans)) (sym (publish_chans-continue h.subs ev user users cs)) (
      continue-Sent h ev users cs (Hub.send_all ev (h.subs user) cs)
        (λ cs' s'. publish_chans-Sent h ev users cs' i s') s
        (send_all-Sent ev (h.subs user) cs
          (All-map (h.subs user) (λ k p. s.same_open k ∙ p.1) (i.registered user)) s.fit))

with_chans-Inv :
    (h : Hub) (o : Option (List Chan))
    → Inv h
    → Ends (Sent h.chans) o
    → Ends Inv (Hub.with_chans (λ cs. record h { chans = cs }) o)
unfolding Hub.with_chans
with_chans-Inv h none i e = e
with_chans-Inv h (some cs) i e = Inv-after h cs i e

pub publish-Inv :
    (users : List String) (ev : WsEvent) (h : Hub) → Inv h → Ends Inv (Hub.publish users ev h)
unfolding Hub.publish
publish-Inv users ev h i =
    with_chans-Inv h _ i
      (publish_chans-Sent h ev users h.chans i (record { same_open = λ j. refl; fit = i.fit }))

abbrev tail : Chan → Chan
tail c = elim c.buffer [ [] ↦ c | _ ∷ rest ↦ record c { buffer = rest } ]

pop-tail : (c : Chan) → Hub.pop c ≡ some (tail c)
pop-tail c = ground arith

tail-Fits : (c : Chan) → Fits c → Fits (tail c)
tail-Fits c h = ground arith

tail-open : (c : Chan) → is_open (tail c) ≡ is_open c
tail-open c = ground arith

there_at :
    (key : ℕ) (cs : List Chan) → ltb key (length cs) ≡ true → holds_at (λ _. true) key cs ≡ true
there_at key [] h = ground arith
there_at zero (c ∷ cs) h = refl
there_at (suc key) (c ∷ cs) h = there_at key cs (ground arith)

pub receive-Inv : (key : ℕ) (h : Hub) → Inv h → Ends Inv (Hub.receive key h)
unfolding Hub.receive
receive-Inv key h i = elim (Bool-cases (ltb key (length h.chans))) [
  | inr beyond ↦ rw (beyond, Ends) i
  | inl there ↦ rw there (
      with_chans-Inv h _ i (
        subst (Ends (Sent h.chans))
          (sym (
            chan_at-set_at (λ _. true) Hub.pop tail key h.chans (λ c _. pop-tail c)
              (there_at key h.chans there)))
          (record {
            same_open = λ j. set_at-open tail key j h.chans tail-open;
            fit = set_at-Fits tail key h.chans tail-Fits i.fit;
          })))
]

open_among :
    (key : ℕ) (ks : List ℕ) (cs : List Chan)
    → AllOpen ks cs
    → is_among key ks ≡ true
    → open_at key cs ≡ true
open_among key [] cs all there = ground arith
open_among key (k ∷ ks) cs all there = elim (Bool-cases (natb k key)) [
  | inl same ↦ subst (λ j. open_at j cs ≡ true) (ground arith) all.0
  | inr other ↦ open_among key ks cs all.1 (ground (arith, there))
]

offer-Inv :
    (user : String) (key : ℕ) (ev : WsEvent) (h : Hub) → Inv h → Ends Inv (Hub.offer user key ev h)
unfolding Hub.offer
offer-Inv user key ev h i = elim (Bool-cases (is_among key (h.subs user))) [
  | inr gone ↦ rw (gone, Ends) i
  | inl there ↦ rw there (
      with_chans-Inv h _ i (
        send_all-Sent ev (key ∷ []) h.chans
          (
            open_among key (h.subs user) h.chans
                (All-map (h.subs user) (λ k p. p.1) (i.registered user)) there,
            tt,
          )
          i.fit))
]

pub step-Inv : (e : Event) (h : Hub) → Inv h → Ends Inv (Hub.step e h)
unfolding Hub.step
step-Inv (Event.subscribed user) h i = subscribe-Inv user h i
step-Inv (Event.unsubscribed user key) h i = unsubscribe-Inv user key h i
step-Inv (Event.published users ev) h i = publish-Inv users ev h i
step-Inv (Event.offered user key ev) h i = offer-Inv user key ev h i
step-Inv (Event.received key) h i = receive-Inv key h i

abbrev run_on : List Event → Option Hub → Option Hub
run_on es none = none
run_on es (some h) = Hub.run es h

run-run_on : (e : Event) (es : List Event) (h : Hub) → Hub.run (e ∷ es) h ≡ run_on es (Hub.step e h)
unfolding Hub.run
run-run_on e es h = ground arith

run_on-Inv :
    (es : List Event) (o : Option Hub)
    → ((h : Hub) → Inv h → Ends Inv (Hub.run es h))
    → Ends Inv o
    → Ends Inv (run_on es o)
run_on-Inv es none go e = e
run_on-Inv es (some h) go e = go h e

pub run-Inv : (es : List Event) (h : Hub) → Inv h → Ends Inv (Hub.run es h)
unfolding Hub.run
run-Inv [] h i = i
run-Inv (e ∷ es) h i =
    subst (Ends Inv) (sym (run-run_on e es h))
      (run_on-Inv es (Hub.step e h) (run-Inv es) (step-Inv e h i))

pub new_hub-Inv : Inv Hub.new_hub
new_hub-Inv = record { owner = λ _. ""; registered = λ u. tt; distinct = λ u. tt; fit = tt }

Ends-Fits : (o : Option Hub) → Ends Inv o → Ends (λ h. All Fits h.chans) o
Ends-Fits none e = e
Ends-Fits (some h) e = e.fit

-- The hub never panics: in whatever order connections come and go, twice if need be, events are
-- published, by publications that overlap or not, and connections read, no event is sent on a closed channel and no channel is closed
-- twice; and at the end no channel holds more than its sixteen events.
pub run-Fits : (es : List Event) → Ends (λ h. All Fits h.chans) (Hub.run es Hub.new_hub)
run-Fits es = Ends-Fits (Hub.run es Hub.new_hub) (run-Inv es Hub.new_hub new_hub-Inv)
