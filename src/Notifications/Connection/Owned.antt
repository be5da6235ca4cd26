-- ===== src/Notifications/Connection/Owned.antt =====
-- internal/notifications: what happens to the hub while a connection is there.
use yukbor_backend.Common.{
  ℕ, zero, suc, ◌<◌, String, Option, none, some, true, false, ◌&&◌, if◌then◌else◌, List, [], ◌∷◌,
  ◌++◌, ◌==◌, string_Eq, ltb, natb, length, ◌≡◌, refl, sym, ◌∙◌, subst, arith, Bool-cases, ◌⊎◌, inl,
  inr, eq_of_==, length-append,
}
use yukbor_backend.Notifications.Hub
use yukbor_backend.Notifications.Hub.{
  WsEvent, Chan, Hub, Event, chan_at, close_chan, pop, is_among, remove_first, set_subs, new_chan,
}
use yukbor_backend.Notifications.Hub.Safe.{Ends}
use yukbor_backend.Notifications.Hub.Calm.{Inv, among-snoc, gone-among}
use yukbor_backend.Notifications.Hub.Runs.{step-Inv}
use yukbor_backend.Notifications.Connection.{buffer_at}
use yukbor_backend.Notifications.Connection.Later.{
  InOrder, InOrder-more, Later, Later-same, Adds, chan_at-Later, chan_at-other,
}
use yukbor_backend.Notifications.Connection.Order.{
  copies, IsOnly, publish_chans-Later, send_all-Later, send_all-other,
}

-- The hub while the channel `key` is the user's.
pub record Owned (user : String) (key : ℕ) (h : Hub) : Type 0 where
  pub inv : Inv h
  pub only : IsOnly user key h.subs
  pub made : key < length h.chans

-- What an event of the hub has for a user's connection: a publication for the user, or one of its
-- sends, where that is to this connection.
abbrev pub addressed : String → ℕ → Event → List WsEvent
addressed user key (Event.published users ev) = copies user ev users
addressed user key (Event.offered u k ev) = if u == user && natb k key then ev ∷ [] else []
addressed user key _ = []

not_sent :
    (user u : String) (key k : ℕ) (ev : WsEvent)
    → natb k key ≡ false
    → [] ≡ addressed user key (Event.offered u k ev)
not_sent user u key k ev other = elim (Bool-cases (u == user)) [
  | inl his ↦ rw (his, other) refl
  | inr differs ↦ rw differs refl
]

-- No other connection reads the channel.
abbrev pub LeavesAlone : ℕ → Event → Type 0
LeavesAlone key (Event.received k) = natb k key ≡ false
LeavesAlone key _ = Unit

pub some_inj : {A : Type 0} (a b : A) → some a ≡ some b → a ≡ b
some_inj a b h = cc

pub with_chans_cases :
    (f : List Chan → Hub) (o : Option (List Chan)) (h' : Hub)
    → Hub.with_chans f o ≡ some h'
    → (cs : List Chan) × (o ≡ some cs) × (h' ≡ f cs)
unfolding Hub.with_chans
with_chans_cases f none h' e = absurd (cc)
with_chans_cases f (some cs) h' e = (cs, refl, cc)

any_chan :
    (f : Chan → Option Chan) (key k : ℕ) (cs cs' : List Chan)
    → Adds f []
    → chan_at f k cs ≡ some cs'
    → Later key [] cs cs'
any_chan f key k cs cs' adds h = elim (Bool-cases (natb k key)) [
  | inl same ↦ subst (λ j. Later j [] cs cs') (ground arith) (chan_at-Later f [] k cs cs' adds h)
  | inr other ↦ chan_at-other f key k cs cs' other h
]

close-same : (c c' : Chan) → close_chan c ≡ some c' → record c { closed = true } ≡ c'
close-same c c' h = ground arith

close-Adds : Adds close_chan []
close-Adds c c' h =
    subst (λ (d : Chan). InOrder d.buffer (c.buffer ++ [])) (close-same c c' h)
      (InOrder-more c.buffer [])

buffer_at-append :
    (key : ℕ) (cs : List Chan)
    → key < length cs
    → buffer_at key (cs ++ new_chan ∷ []) ≡ buffer_at key cs
buffer_at-append key [] h = absurd (omega (arith, h))
buffer_at-append zero (c ∷ cs) h = refl
buffer_at-append (suc key) (c ∷ cs) h = buffer_at-append key cs (omega (arith, h))

append-Later : (key : ℕ) (cs : List Chan) → key < length cs → Later key [] cs (cs ++ new_chan ∷ [])
append-Later key cs h = record {
  grows =
      subst (λ l. InOrder l (buffer_at key cs ++ [])) (sym (buffer_at-append key cs h))
        (InOrder-more (buffer_at key cs) []);
  longer = omega (arith, length-append cs (new_chan ∷ []));
}

abbrev removed : String → ℕ → Hub → List Chan → Hub
removed u k h cs = record { chans = cs; subs = set_subs u (remove_first k (h.subs u)) h.subs }

-- The hub after `unsubscribe` and after `receive`, by whether they find the channel.
unsubscribe_cases :
    (u : String) (k : ℕ) (h h' : Hub)
    → Hub.unsubscribe u k h ≡ some h'
    → (Hub.with_chans (removed u k h) (chan_at close_chan k h.chans) ≡ some h') ⊎ (h ≡ h')
unfolding Hub.unsubscribe
unsubscribe_cases u k h h' e = elim (Bool-cases (is_among k (h.subs u))) [
  | inl there ↦ inl (sym (rw there refl) ∙ e)
  | inr absent ↦ inr (some_inj h h' (sym (rw absent refl) ∙ e))
]

receive_cases :
    (k : ℕ) (h h' : Hub)
    → Hub.receive k h ≡ some h'
    → (Hub.with_chans (λ cs. record h { chans = cs }) (chan_at pop k h.chans) ≡ some h') ⊎ (h ≡ h')
unfolding Hub.receive
receive_cases k h h' e = elim (Bool-cases (ltb k (length h.chans))) [
  | inl there ↦ inl (sym (rw there refl) ∙ e)
  | inr absent ↦ inr (some_inj h h' (sym (rw absent refl) ∙ e))
]

is_his :
    (key k : ℕ) (ks : List ℕ)
    → natb k key ≡ true
    → is_among k ks ≡ true
    → is_among key ks ≡ false
    → ⊥
is_his key k ks same there gone =
    let also : is_among k ks ≡ false = subst (λ j. is_among j ks ≡ false) (ground arith) gone in
    absurd (cc)

-- The hub after `offer`, by whether the user has the channel.
offer_cases :
    (u : String) (k : ℕ) (ev : WsEvent) (h h' : Hub)
    → Hub.offer u k ev h ≡ some h'
    → ((is_among k (h.subs u) ≡ true)
        × (Hub.with_chans (λ cs. record h { chans = cs }) (Hub.send_all ev (k ∷ []) h.chans)
            ≡ some h'))
      ⊎ (h ≡ h')
unfolding Hub.offer
offer_cases u k ev h h' e = elim (Bool-cases (is_among k (h.subs u))) [
  | inl there ↦ inl (there, sym (rw there refl) ∙ e)
  | inr absent ↦ inr (some_inj h h' (sym (rw absent refl) ∙ e))
]

module _ (user : String) (key : ℕ) (h : Hub) (own : Owned user key h) where
  -- A step of the hub, once its lists of channels are known.
  Step : Event → Hub → Type 0
  Step e h' = Later key (addressed user key e) h.chans h'.chans × IsOnly user key h'.subs

  subscribed_step : (u : String) → Step (Event.subscribed u) (Hub.subscribe u h).1
  unfolding Step Hub.subscribe
  subscribed_step u = (
    append-Later key h.chans own.made,
    λ v other. elim (Bool-cases (u == v)) [
      | inl same ↦
          rw (same, set_subs)
            (among-snoc (length h.chans) key (h.subs u)
              (subst (λ x. is_among key (h.subs x) ≡ false) (sym (eq_of_== u v same))
                (own.only v other))
              (ground (arith, own.made)))
      | inr differs ↦ rw (differs, set_subs) (own.only v other)
    ],
  )

  removed-IsOnly :
      (u : String) (k : ℕ) → IsOnly user key (set_subs u (remove_first k (h.subs u)) h.subs)
  removed-IsOnly u k v other = elim (Bool-cases (u == v)) [
    | inl same ↦
        rw (same, set_subs)
          (gone-among k key (h.subs u) (
            subst (λ x. is_among key (h.subs x) ≡ false) (sym (eq_of_== u v same))
              (own.only v other)))
    | inr differs ↦ rw (differs, set_subs) (own.only v other)
  ]

  unsubscribed_step :
      (u : String) (k : ℕ) (h' : Hub)
      → Hub.unsubscribe u k h ≡ some h'
      → Step (Event.unsubscribed u k) h'
  unfolding Step Hub.unsubscribe
  unsubscribed_step u k h' e = elim (unsubscribe_cases u k h h' e) [
    | inl there ↦
        (let (cs, fine, now) = with_chans_cases _ _ h' there in
          subst (Step (Event.unsubscribed u k)) (sym now)
            (any_chan close_chan key k h.chans cs close-Adds fine, removed-IsOnly u k))
    | inr absent ↦
        subst (Step (Event.unsubscribed u k)) absent (Later-same key [] h.chans, own.only)
  ]

  published_step :
      (users : List String) (ev : WsEvent) (h' : Hub)
      → Hub.publish users ev h ≡ some h'
      → Step (Event.published users ev) h'
  unfolding Step Hub.publish
  published_step users ev h' e =
      let (cs, fine, now) = with_chans_cases _ _ h' e in
      subst (Step (Event.published users ev)) (sym now) (
        publish_chans-Later h.subs user key ev users h.chans cs own.only own.inv.distinct fine,
        own.only,
      )

  offered_step :
      (u : String) (k : ℕ) (ev : WsEvent) (h' : Hub)
      → Hub.offer u k ev h ≡ some h'
      → Step (Event.offered u k ev) h'
  unfolding Step Hub.offer
  offered_step u k ev h' e = elim (offer_cases u k ev h h' e) [
    | inr gone ↦
        subst (Step (Event.offered u k ev)) gone
          (Later-same key (addressed user key (Event.offered u k ev)) h.chans, own.only)
    | inl (there, after) ↦
        (let (cs, fine, now) = with_chans_cases _ _ h' after in
          subst (Step (Event.offered u k ev)) (sym now) (elim (Bool-cases (natb k key)) [
            | inr other ↦ (
              subst (λ evs. Later key evs h.chans cs) (not_sent user u key k ev other)
                  (send_all-other ev key (k ∷ []) h.chans cs (ground (arith, other)) fine),
              own.only,
            )
            | inl same ↦ elim (Bool-cases (u == user)) [
              | inl his ↦ (
                rw (his, same) (send_all-Later ev key (k ∷ []) h.chans cs (refl, tt) fine),
                own.only,
              )
              | inr differs ↦ absurd (is_his key k (h.subs u) same there (own.only u differs))
            ]
          ]))
  ]

  received_step :
      (k : ℕ) (h' : Hub)
      → natb k key ≡ false
      → Hub.receive k h ≡ some h'
      → Step (Event.received k) h'
  unfolding Step Hub.receive
  received_step k h' other e = elim (receive_cases k h h' e) [
    | inl there ↦
        (let (cs, fine, now) = with_chans_cases _ _ h' there in
          subst (Step (Event.received k)) (sym now)
            (chan_at-other pop key k h.chans cs other fine, own.only))
    | inr absent ↦ subst (Step (Event.received k)) absent (Later-same key [] h.chans, own.only)
  ]

  step_step : (e : Event) (h' : Hub) → LeavesAlone key e → Hub.step e h ≡ some h' → Step e h'
  unfolding Hub.step
  step_step (Event.subscribed u) h' alone e =
      subst (Step (Event.subscribed u)) (some_inj _ h' e) (subscribed_step u)
  step_step (Event.unsubscribed u k) h' alone e = unsubscribed_step u k h' e
  step_step (Event.published users ev) h' alone e = published_step users ev h' e
  step_step (Event.offered u k ev) h' alone e = offered_step u k ev h' e
  step_step (Event.received k) h' alone e = received_step k h' alone e

  pub step-Later :
      (e : Event) (h' : Hub)
      → LeavesAlone key e
      → Hub.step e h ≡ some h'
      → Later key (addressed user key e) h.chans h'.chans × Owned user key h'
  unfolding Step
  step-Later e h' alone done =
      let (later, only) = step_step e h' alone done in
      (
        later,
        record {
          inv = subst (Ends Inv) done (step-Inv e h own.inv);
          only = only;
          made = omega (arith, own.made, later.longer);
        },
      )
