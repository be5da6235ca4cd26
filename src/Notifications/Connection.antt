-- ===== src/Notifications/Connection.antt =====
-- internal/notifications/handler.go, `websocket`: a connection, from its token to its end.
pub mod Later
pub mod Streams
pub mod Opened
pub mod Owned
pub mod Order
use yukbor_backend.Common.{
  ℕ, zero, suc, String, Option, none, some, Bool, true, false, List, [], ◌∷◌, if◌then◌else◌,
}
use yukbor_backend.Common.Exec.{Result, ok, err}
use yukbor_backend.Httpx.{Failure, Code, failure}
use yukbor_backend.Jwtx.{Claims, TokenError}
use yukbor_backend.Notifications.Hub
use yukbor_backend.Notifications.Hub.{WsEvent, Chan, Hub, Event}

-- What happens while the loop waits: something to the hub; the peer goes; the ticker, by whether
-- the ping is answered in time; or the channel is ready, by whether the write succeeds in time.
pub data Moment : Type 0 where
  elsewhere : Event → Moment
  disconnected : Moment
  ticked ready : Bool → Moment

abbrev pub buffer_at : ℕ → List Chan → List WsEvent
buffer_at k [] = []
buffer_at zero (c ∷ cs) = c.buffer
buffer_at (suc k) (c ∷ cs) = buffer_at k cs

abbrev pub is_closed_at : ℕ → List Chan → Bool
is_closed_at k [] = false
is_closed_at zero (c ∷ cs) = c.closed
is_closed_at (suc k) (c ∷ cs) = is_closed_at k cs

-- The deferred call of `unsubscribe`.
unfoldable pub leave : String → ℕ → Hub → Option (List WsEvent × Hub)
unfolding Hub.unsubscribe
leave user key h = elim (Hub.unsubscribe user key h) [ none ↦ none | some h' ↦ some ([], h') ]

abbrev pub written : WsEvent → Option (List WsEvent × Hub) → Option (List WsEvent × Hub)
written ev none = none
written ev (some (evs, h)) = some (ev ∷ evs, h)

-- The loop: the events that are written, and the hub at the end. `none` is a panic. What happens
-- after the loop has ended is not its own.
unfoldable pub stream : String → ℕ → List Moment → Hub → Option (List WsEvent × Hub)
unfolding leave Hub.step Hub.receive
stream user key [] h = some ([], h)
stream user key (Moment.elsewhere e ∷ ms) h = elim (Hub.step e h) [
  | none ↦ none
  | some h' ↦ stream user key ms h'
]
stream user key (Moment.disconnected ∷ ms) h = leave user key h
stream user key (Moment.ticked answered ∷ ms) h =
    let rest = stream user key ms h in if answered then rest else leave user key h
stream user key (Moment.ready sent ∷ ms) h = elim (buffer_at key h.chans) [
  | [] ↦
      (let rest = stream user key ms h in
        if is_closed_at key h.chans then leave user key h else rest)
  | ev ∷ _ ↦ elim (Hub.receive key h) [
    | none ↦ none
    | some h' ↦
        (let rest = stream user key ms h' in if sent then written ev rest else leave user key h')
  ]
]

abbrev pub accepted : Option (List WsEvent × Hub) → Option (Result Failure (List WsEvent) × Hub)
accepted none = none
accepted (some (evs, h)) = some (ok evs, h)

-- `websocket`: `claims` is what `wsClaims` gives, and `upgraded` says whether the upgrade succeeds.
unfoldable pub websocket :
    Result TokenError Claims
    → Bool
    → List Moment
    → Hub
    → Option (Result Failure (List WsEvent) × Hub)
unfolding stream Hub.subscribe
websocket (err e) upgraded ms h = some (err (failure 401 Code.unauthorized), h)
websocket (ok claims) false ms h = some (ok [], h)
websocket (ok claims) true ms h =
    let (key, h') = Hub.subscribe claims.sub h in accepted (stream claims.sub key ms h')
