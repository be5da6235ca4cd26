-- ===== src/Notifications/Connection/Opened.antt =====
-- internal/notifications/handler.go, `websocket`: a connection from its beginning to its end.
use yukbor_backend.Common.{
  ℕ, String, Option, some, true, false, List, [], ◌∷◌, ◌++◌, ◌==◌, string_Eq, length, All, ◌≡◌,
  refl, ap, subst, arith, Bool-cases, Option-cases, inl, inr, eq_of_==, length-append,
}
use yukbor_backend.Common.Exec.{ok}
use yukbor_backend.Jwtx.{Claims}
use yukbor_backend.Notifications.Hub
use yukbor_backend.Notifications.Hub.{WsEvent, Chan, Hub, Event, set_subs, is_among, new_chan}
use yukbor_backend.Notifications.Hub.Safe.{Ends}
use yukbor_backend.Notifications.Hub.Calm.{Inv, subscribe-Inv, unsubscribe-Inv, fresh_among}
use yukbor_backend.Notifications.Hub.Runs.{step-Inv, receive-Inv, run-Inv, new_hub-Inv}
use yukbor_backend.Notifications.Connection.{
  buffer_at, is_closed_at, Moment, leave, stream, websocket, written, accepted,
}
use yukbor_backend.Notifications.Connection.Later.{InOrder}
use yukbor_backend.Notifications.Connection.Owned.{Owned, step-Later}
use yukbor_backend.Notifications.Connection.Streams.{
  told, IsAlone, received, stream-InOrder, List-cases,
}

-- A loop that has ended.
abbrev Returns : Option (List WsEvent × Hub) → Type 0
Returns o = (evs : List WsEvent) × (h : Hub) × (o ≡ some (evs, h))

module _ (user : String) (key : ℕ) where
  leave-Returns : (h : Hub) → Inv h → Returns (leave user key h)
  unfolding leave
  leave-Returns h i = elim (Option-cases (Hub.unsubscribe user key h)) [
    | inl panics ↦ absurd (subst (Ends Inv) panics (unsubscribe-Inv user key h i))
    | inr (g, fine) ↦ ([], g, rw (fine, leave) refl)
  ]

  written-Returns :
      (ev : WsEvent) (o : Option (List WsEvent × Hub)) → Returns o → Returns (written ev o)
  written-Returns ev o (evs, h, e) = (ev ∷ evs, h, rw e refl)

  stream-Returns :
      (ms : List Moment) (h : Hub)
      → Owned user key h
      → All (IsAlone key) ms
      → Returns (stream user key ms h)
  unfolding stream
  stream-Returns [] h own alone = ([], h, refl)
  stream-Returns (Moment.elsewhere e ∷ ms) h own alone = elim (Option-cases (Hub.step e h)) [
    | inl panics ↦ absurd (subst (Ends Inv) panics (step-Inv e h own.inv))
    | inr (g, fine) ↦
        rw (fine, stream)
          (stream-Returns ms g (step-Later user key h own e g alone.0 fine).1 alone.1)
  ]
  stream-Returns (Moment.disconnected ∷ ms) h own alone = leave-Returns h own.inv
  stream-Returns (Moment.ticked true ∷ ms) h own alone = stream-Returns ms h own alone.1
  stream-Returns (Moment.ticked false ∷ ms) h own alone = leave-Returns h own.inv
  stream-Returns (Moment.ready sent ∷ ms) h own alone = elim (List-cases (buffer_at key h.chans)) [
    | inl empty ↦ elim (Bool-cases (is_closed_at key h.chans)) [
      | inl shut ↦ rw (empty, shut, stream) (leave-Returns h own.inv)
      | inr live ↦ rw (empty, live, stream) (stream-Returns ms h own alone.1)
    ]
    | inr (ev, rest, full) ↦ elim (Option-cases (Hub.receive key h)) [
      | inl panics ↦ absurd (subst (Ends Inv) panics (receive-Inv key h own.inv))
      | inr (g, fine) ↦
          (let (left, owned) = received user key h g ev rest own full fine in
            elim (Bool-cases sent) [
              | inl well ↦
                  rw (full, fine, well, stream)
                    (written-Returns ev _ (stream-Returns ms g owned alone.1))
              | inr broken ↦ rw (full, fine, broken, stream) (leave-Returns g owned.inv)
            ])
    ]
  ]

new_buffer : (cs : List Chan) → buffer_at (length cs) (cs ++ new_chan ∷ []) ≡ []
new_buffer [] = refl
new_buffer (c ∷ cs) = new_buffer cs

-- The channel that `subscribe` makes.
subscribed-Owned :
    (user : String) (h : Hub) → Inv h → Owned user (length h.chans) (Hub.subscribe user h).1
unfolding Hub.subscribe
subscribed-Owned user h i = record {
  inv = subscribe-Inv user h i;
  only = λ v other. elim (Bool-cases (user == v)) [
    | inl same ↦ absurd (ground (arith, eq_of_== user v same))
    | inr differs ↦
        rw (differs, set_subs) (fresh_among i.owner h.chans v (h.subs v) (i.registered v))
  ];
  made = omega (arith, length-append h.chans (new_chan ∷ []));
}

-- A connection sees what its user is told, in order: nothing panics while it is open, and what it
-- has written is what was published to its user after it was opened, in the same order, some of it
-- left out perhaps, but nothing more often than it was published, and nothing that is meant for
-- somebody else. Of publications that overlap, the order is that of their sends to this connection. The
-- hub has come about by any events, and no other connection reads this one's
-- channel.
pub websocket-InOrder :
    (claims : Claims) (es : List Event) (ms : List Moment) (h : Hub)
    → Hub.run es Hub.new_hub ≡ some h
    → All (IsAlone (length h.chans)) ms
    → (evs : List WsEvent) × (h' : Hub) × (websocket (ok claims) true ms h ≡ some (ok evs, h'))
      × InOrder evs (told claims.sub (length h.chans) ms)
unfolding websocket Hub.subscribe
websocket-InOrder claims es ms h ran alone =
    let i : Inv h = subst (Ends Inv) ran (run-Inv es Hub.new_hub new_hub-Inv) in
    let own = subscribed-Owned claims.sub h i in
    let (evs, h', e) =
      stream-Returns claims.sub (length h.chans) ms (Hub.subscribe claims.sub h).1 own alone in
    (
      evs,
      h',
      ap accepted e,
      subst (λ b. InOrder evs (b ++ told claims.sub (length h.chans) ms)) (new_buffer h.chans)
          (stream-InOrder claims.sub (length h.chans) ms (Hub.subscribe claims.sub h).1 h' evs own
            alone e),
    )
