-- ===== src/Notifications/Connection/Streams.antt =====
-- internal/notifications/handler.go, `websocket`: the order of what a connection writes.
use yukbor_backend.Common.{
  ℕ, zero, suc, ◌<◌, String, Option, none, some, Bool, true, false, List, [], ◌∷◌, ◌++◌, ltb,
  length, All, ◌≡◌, refl, sym, ◌∙◌, subst, arith, Bool-cases, Option-cases, ◌⊎◌, inl, inr,
}
use yukbor_backend.Notifications.Hub
use yukbor_backend.Notifications.Hub.{WsEvent, Chan, Hub, Event, chan_at, pop}
use yukbor_backend.Notifications.Hub.Safe.{Ends}
use yukbor_backend.Notifications.Hub.Calm.{Inv}
use yukbor_backend.Notifications.Hub.Runs.{step-Inv}
use yukbor_backend.Notifications.Connection.{
  buffer_at, is_closed_at, Moment, leave, stream, written,
}
use yukbor_backend.Notifications.Connection.Later.{
  InOrder, keep, InOrder-none, InOrder-append, InOrder-trans, first_done, next_done, chan_at-length,
  append_assoc,
}
use yukbor_backend.Notifications.Connection.Order.{IsOnly}
use yukbor_backend.Notifications.Connection.Owned.{
  Owned, addressed, LeavesAlone, step-Later, with_chans_cases,
}

-- What the hub was told for a user's connection in the course of it.
abbrev pub told : String → ℕ → List Moment → List WsEvent
told user key [] = []
told user key (Moment.elsewhere e ∷ ms) = addressed user key e ++ told user key ms
told user key (_ ∷ ms) = told user key ms

-- Nobody else reads the channel.
abbrev pub IsAlone : ℕ → Moment → Type 0
IsAlone key (Moment.elsewhere e) = LeavesAlone key e
IsAlone key _ = Unit

pop_buffer :
    (c c' : Chan) (ev : WsEvent) (rest : List WsEvent)
    → pop c ≡ some c'
    → c.buffer ≡ ev ∷ rest
    → c'.buffer ≡ rest
pop_buffer c c' ev rest h b = ground arith

popped :
    (key : ℕ) (cs cs' : List Chan) (ev : WsEvent) (rest : List WsEvent)
    → chan_at pop key cs ≡ some cs'
    → buffer_at key cs ≡ ev ∷ rest
    → buffer_at key cs' ≡ rest
popped key [] cs' ev rest h b = absurd (cc)
popped zero (c ∷ cs) cs' ev rest h b =
    let (c', fine, e) = first_done pop c cs cs' h in
    subst (λ l. buffer_at zero l ≡ rest) (sym e) (pop_buffer c c' ev rest fine b)
popped (suc key) (c ∷ cs) cs' ev rest h b =
    let (ds, fine, e) = next_done pop key c cs cs' h in
    subst (λ l. buffer_at (suc key) l ≡ rest) (sym e) (popped key cs ds ev rest fine b)

pub List-cases :
    (xs : List WsEvent) → (xs ≡ []) ⊎ ((x : WsEvent) × (rest : List WsEvent) × (xs ≡ x ∷ rest))
List-cases [] = inl refl
List-cases (x ∷ rest) = inr (x, rest, refl)

not_nothing : {A : Type 0} (a : A) → none ≡ some a → ⊥
not_nothing a h = cc

pub there : (user : String) (key : ℕ) (h : Hub) → Owned user key h → ltb key (length h.chans) ≡ true
there user key h own = ground (arith, own.made)

module _ (user : String) (key : ℕ) where
  pub received :
      (h h' : Hub) (ev : WsEvent) (rest : List WsEvent)
      → Owned user key h
      → buffer_at key h.chans ≡ ev ∷ rest
      → Hub.receive key h ≡ some h'
      → (buffer_at key h'.chans ≡ rest) × Owned user key h'
  unfolding Hub.receive Hub.step
  received h h' ev rest own b e =
      let (cs, fine, now) =
        with_chans_cases (λ cs. record h { chans = cs }) (chan_at pop key h.chans) h'
          (sym (rw (there user key h own) refl) ∙ e) in
      (
        subst (λ (x : Hub). buffer_at key x.chans ≡ rest) (sym now)
            (popped key h.chans cs ev rest fine b),
        record {
          inv = subst (Ends Inv) e (step-Inv (Event.received key) h own.inv);
          only = subst (λ (x : Hub). IsOnly user key x.subs) (sym now) own.only;
          made =
              subst (λ (x : Hub). key < length x.chans) (sym now)
                (omega (arith, own.made, chan_at-length pop key h.chans cs fine));
        },
      )

  leave-nothing : (h h' : Hub) (evs : List WsEvent) → leave user key h ≡ some (evs, h') → evs ≡ []
  unfolding leave
  leave-nothing h h' evs e = elim (Option-cases (Hub.unsubscribe user key h)) [
    | inl panics ↦ ground arith
    | inr (g, fine) ↦ ground arith
  ]

  -- One wait for the channel, by what is in it.
  ready_empty :
      (sent : Bool) (ms : List Moment) (h h' : Hub) (evs : List WsEvent)
      → buffer_at key h.chans ≡ []
      → stream user key (Moment.ready sent ∷ ms) h ≡ some (evs, h')
      → (stream user key ms h ≡ some (evs, h')) ⊎ (evs ≡ [])
  unfolding stream
  ready_empty sent ms h h' evs b e = elim (Bool-cases (is_closed_at key h.chans)) [
    | inl shut ↦ inr (leave-nothing h h' evs (sym (rw (b, shut, stream) refl) ∙ e))
    | inr live ↦ inl (sym (rw (b, live, stream) refl) ∙ e)
  ]

  written_cases :
      (ev : WsEvent) (o : Option (List WsEvent × Hub)) (h' : Hub) (evs : List WsEvent)
      → written ev o ≡ some (evs, h')
      → (more : List WsEvent) × (evs ≡ ev ∷ more) × (o ≡ some (more, h'))
  written_cases ev none h' evs e = absurd (cc)
  written_cases ev (some (more, g)) h' evs e = (more, cc, cc)

  ready_event :
      (sent : Bool) (ms : List Moment) (h h' : Hub) (evs : List WsEvent) (ev : WsEvent)
      (rest : List WsEvent)
      → buffer_at key h.chans ≡ ev ∷ rest
      → stream user key (Moment.ready sent ∷ ms) h ≡ some (evs, h')
      → (g : Hub) × (Hub.receive key h ≡ some g)
        × (((more : List WsEvent) × (evs ≡ ev ∷ more) × (stream user key ms g ≡ some (more, h')))
            ⊎ (evs ≡ []))
  unfolding stream
  ready_event sent ms h h' evs ev rest b e = elim (Option-cases (Hub.receive key h)) [
    | inl panics ↦ absurd (not_nothing (evs, h') (sym (rw (b, panics, stream) refl) ∙ e))
    | inr (g, fine) ↦ (
      g,
      fine,
      elim (Bool-cases sent) [
        | inl well ↦ inl (written_cases ev _ h' evs (sym (rw (b, fine, well, stream) refl) ∙ e))
        | inr broken ↦ inr (leave-nothing g h' evs (sym (rw (b, fine, broken, stream) refl) ∙ e))
      ],
    )
  ]

  after_elsewhere :
      (e : Event) (ms : List Moment) (h h' : Hub) (evs : List WsEvent)
      → stream user key (Moment.elsewhere e ∷ ms) h ≡ some (evs, h')
      → (g : Hub) × (Hub.step e h ≡ some g) × (stream user key ms g ≡ some (evs, h'))
  unfolding stream
  after_elsewhere e ms h h' evs eq = elim (Option-cases (Hub.step e h)) [
    | inl panics ↦ absurd (not_nothing (evs, h') (sym (rw (panics, stream) refl) ∙ eq))
    | inr (g, fine) ↦ (g, fine, sym (rw (fine, stream) refl) ∙ eq)
  ]

  from_nothing : (evs ys : List WsEvent) → evs ≡ [] → InOrder evs ys
  from_nothing evs ys e = subst (λ xs. InOrder xs ys) (sym e) (InOrder-none ys)

  pub stream-InOrder :
      (ms : List Moment) (h h' : Hub) (evs : List WsEvent)
      → Owned user key h
      → All (IsAlone key) ms
      → stream user key ms h ≡ some (evs, h')
      → InOrder evs (buffer_at key h.chans ++ told user key ms)
  unfolding stream
  stream-InOrder [] h h' evs own alone e = from_nothing evs _ (cc)
  stream-InOrder (Moment.elsewhere ev ∷ ms) h h' evs own alone e =
      let (g, fine, more) = after_elsewhere ev ms h h' evs e in
      let (later, owned) = step-Later user key h own ev g alone.0 fine in
      InOrder-trans (stream-InOrder ms g h' evs owned alone.1 more) (
        subst (InOrder (buffer_at key g.chans ++ told user key ms))
          (append_assoc (buffer_at key h.chans) (addressed user key ev) (told user key ms))
          (InOrder-append (told user key ms) later.grows))
  stream-InOrder (Moment.disconnected ∷ ms) h h' evs own alone e =
      from_nothing evs _ (leave-nothing h h' evs e)
  stream-InOrder (Moment.ticked true ∷ ms) h h' evs own alone e =
      stream-InOrder ms h h' evs own alone.1 e
  stream-InOrder (Moment.ticked false ∷ ms) h h' evs own alone e =
      from_nothing evs _ (leave-nothing h h' evs e)
  stream-InOrder (Moment.ready sent ∷ ms) h h' evs own alone e =
      elim (List-cases (buffer_at key h.chans)) [
        | inl empty ↦ elim (ready_empty sent ms h h' evs empty e) [
          | inl more ↦ stream-InOrder ms h h' evs own alone.1 more
          | inr done ↦ from_nothing evs _ done
        ]
        | inr (ev, rest, full) ↦
            (let (g, fine, ended) = ready_event sent ms h h' evs ev rest full e in
              let (left, owned) = received h g ev rest own full fine in
              elim ended [
                | inl (more, all, on) ↦
                    subst (λ l. InOrder l (buffer_at key h.chans ++ told user key ms)) (sym all)
                      (subst (λ b. InOrder (ev ∷ more) (b ++ told user key ms)) (sym full)
                        (keep ev (
                          subst (λ b. InOrder more (b ++ told user key ms)) left
                            (stream-InOrder ms g h' more owned alone.1 on))))
                | inr done ↦ from_nothing evs _ done
              ])
      ]
