-- ===== src/Notifications/Hub.antt =====
-- internal/notifications/hub.go: the fan-out of events to the connections of a user.
pub mod Safe
pub mod Calm
pub mod Runs
use yukbor_backend.Common.{
  ℕ, zero, suc, ◌+◌, ◌-◌, String, Option, none, some, Bool, true, false, List, [], ◌∷◌, ◌++◌, ◌==◌,
  string_Eq, if◌then◌else◌, ltb, natb, length, any,
}
use yukbor_backend.Models.Events.{EventName, Payload}

-- models.go, `WSEvent`
pub record WsEvent : Type 0 where
  pub event : EventName
  pub payload : Payload

-- A channel of Go with room for 16 events.
pub record Chan : Type 0 where
  pub buffer : List WsEvent
  pub closed : Bool

-- The channels made so far, by the order in which they were made, and the channels of each user.
pub record Hub : Type 0 where
  pub chans : List Chan
  pub subs : String → List ℕ

abbrev pub capacity : ℕ
capacity = 16

abbrev pub new_chan : Chan
new_chan = record { buffer = []; closed = false }

-- `NewHub`
abbrev pub new_hub : Hub
new_hub = record { chans = []; subs = λ _. [] }

abbrev pub set_subs : String → List ℕ → (String → List ℕ) → String → List ℕ
set_subs user keys subs u = if user == u then keys else subs u

-- `Subscribe`
unfoldable pub subscribe : String → Hub → ℕ × Hub
subscribe user h =
    let key = length h.chans in
    (
      key,
      record {
        chans = h.chans ++ new_chan ∷ [];
        subs = set_subs user (h.subs user ++ key ∷ []) h.subs;
      },
    )

-- An operation on the channel number `k`; `none` is a panic.
unfoldable pub chan_at : (Chan → Option Chan) → ℕ → List Chan → Option (List Chan)
chan_at f k [] = none
chan_at f zero (c ∷ cs) = elim (f c) [ none ↦ none | some c' ↦ some (c' ∷ cs) ]
chan_at f (suc k) (c ∷ cs) = elim (chan_at f k cs) [ none ↦ none | some cs' ↦ some (c ∷ cs') ]

-- `close(ch)`: it panics on a closed channel.
abbrev pub close_chan : Chan → Option Chan
close_chan c = if c.closed then none else some (record c { closed = true })

-- `select { case ch <- ev: default: }`: a send on a closed channel panics, and a full one is
-- skipped.
abbrev pub send : WsEvent → Chan → Option Chan
send ev c =
    if c.closed
    then none
    else if ltb (length c.buffer) capacity
    then some (record c { buffer = c.buffer ++ ev ∷ [] })
    else some c

-- `append(list[:i], list[i+1:]...)` at the first place of the key
unfoldable pub remove_first : ℕ → List ℕ → List ℕ
remove_first key [] = []
remove_first key (k ∷ ks) = let rest = remove_first key ks in if natb k key then ks else k ∷ rest

abbrev pub is_among : ℕ → List ℕ → Bool
is_among key ks = any (λ k. natb k key) ks

unfoldable pub with_chans : (List Chan → Hub) → Option (List Chan) → Option Hub
with_chans f none = none
with_chans f (some cs) = some (f cs)

-- The function that `Subscribe` returns.
unfoldable pub unsubscribe : String → ℕ → Hub → Option Hub
unfolding with_chans chan_at remove_first
unsubscribe user key h =
    if is_among key (h.subs user)
    then with_chans
        (λ cs. record { chans = cs; subs = set_subs user (remove_first key (h.subs user)) h.subs })
        (chan_at close_chan key h.chans)
    else some h

-- The inner loop of `Publish`.
unfoldable pub send_all : WsEvent → List ℕ → List Chan → Option (List Chan)
unfolding chan_at
send_all ev [] cs = some cs
send_all ev (k ∷ ks) cs = elim (chan_at (send ev) k cs) [
  | none ↦ none
  | some cs' ↦ send_all ev ks cs'
]

-- `Publish`
unfoldable pub publish_chans :
    (String → List ℕ) → WsEvent → List String → List Chan → Option (List Chan)
unfolding send_all
publish_chans subs ev [] cs = some cs
publish_chans subs ev (user ∷ users) cs = elim (send_all ev (subs user) cs) [
  | none ↦ none
  | some cs' ↦ publish_chans subs ev users cs'
]

unfoldable pub publish : List String → WsEvent → Hub → Option Hub
unfolding with_chans publish_chans
publish users ev h =
    with_chans (λ cs. record h { chans = cs }) (publish_chans h.subs ev users h.chans)

-- One send of `Publish`. The channels of a user stay as they are while a publication holds the lock.
unfoldable pub offer : String → ℕ → WsEvent → Hub → Option Hub
unfolding with_chans send_all
offer user key ev h =
    if is_among key (h.subs user)
    then with_chans (λ cs. record h { chans = cs }) (send_all ev (key ∷ []) h.chans)
    else some h

-- `Count`
unfoldable pub count : String → Hub → ℕ
count user h = length (h.subs user)

abbrev pub pop : Chan → Option Chan
pop c = elim c.buffer [ [] ↦ some c | _ ∷ rest ↦ some (record c { buffer = rest }) ]

-- A connection takes an event off its channel.
unfoldable pub receive : ℕ → Hub → Option Hub
unfolding with_chans chan_at
receive key h =
    if ltb key (length h.chans)
    then with_chans (λ cs. record h { chans = cs }) (chan_at pop key h.chans)
    else some h

-- What happens to a hub, one event after the other. A publication that has the hub for itself is
-- `published`; publications share the lock, so one that overlaps another is its sends, each `offered`.
pub data Event : Type 0 where
  subscribed : String → Event
  unsubscribed : String → ℕ → Event
  published : List String → WsEvent → Event
  offered : String → ℕ → WsEvent → Event
  received : ℕ → Event

unfoldable pub step : Event → Hub → Option Hub
unfolding subscribe unsubscribe publish offer receive
step (Event.subscribed user) h = some (subscribe user h).1
step (Event.unsubscribed user key) h = unsubscribe user key h
step (Event.published users ev) h = publish users ev h
step (Event.offered user key ev) h = offer user key ev h
step (Event.received key) h = receive key h

unfoldable pub run : List Event → Hub → Option Hub
unfolding step
run [] h = some h
run (e ∷ es) h = elim (step e h) [ none ↦ none | some h' ↦ run es h' ]
