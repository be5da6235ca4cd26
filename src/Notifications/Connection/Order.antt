-- ===== src/Notifications/Connection/Order.antt =====
-- internal/notifications: what a connection writes, against what was published.
use yukbor_backend.Common.{
  ℕ, String, some, true, false, List, [], ◌∷◌, ◌==◌, string_Eq, if◌then◌else◌, natb, ◌≡◌, subst,
  arith, Bool-cases, Option-cases, inl, inr,
}
use yukbor_backend.Notifications.Hub
use yukbor_backend.Notifications.Hub.{WsEvent, Chan, Hub, Event, chan_at, send, is_among}
use yukbor_backend.Notifications.Hub.Calm.{Distinct}
use yukbor_backend.Notifications.Connection.Later.{
  Later, Later-same, Later-trans, chan_at-Later, chan_at-other, send-Adds,
}

-- How often a list of recipients names a user, as copies of the event.
abbrev pub copies : String → WsEvent → List String → List WsEvent
copies user ev [] = []
copies user ev (u ∷ us) = let rest = copies user ev us in if u == user then ev ∷ rest else rest

key_is : (k key : ℕ) → natb k key ≡ true → k ≡ key
key_is k key h = ground arith

send_all_cases :
    (ev : WsEvent) (k : ℕ) (ks : List ℕ) (cs cs' : List Chan)
    → Hub.send_all ev (k ∷ ks) cs ≡ some cs'
    → (mid : List Chan) × (chan_at (send ev) k cs ≡ some mid) × (Hub.send_all ev ks mid ≡ some cs')
unfolding Hub.send_all
send_all_cases ev k ks cs cs' h = elim (Option-cases (chan_at (send ev) k cs)) [
  | inl panics ↦ absurd (ground arith)
  | inr (mid, fine) ↦ (mid, fine, ground arith)
]

same_list : (key : ℕ) (cs cs' : List Chan) → some cs ≡ some cs' → Later key [] cs cs'
same_list key cs cs' h = subst (Later key [] cs) (cc) (Later-same key [] cs)

-- Sends to other channels.
pub send_all-other :
    (ev : WsEvent) (key : ℕ) (ks : List ℕ) (cs cs' : List Chan)
    → is_among key ks ≡ false
    → Hub.send_all ev ks cs ≡ some cs'
    → Later key [] cs cs'
unfolding Hub.send_all
send_all-other ev key [] cs cs' n h = same_list key cs cs' h
send_all-other ev key (k ∷ ks) cs cs' n h =
    let (mid, first, more) = send_all_cases ev k ks cs cs' h in
    Later-trans key [] [] cs mid cs'
      (chan_at-other (send ev) key k cs mid (ground (arith, n)) first)
      (send_all-other ev key ks mid cs' (ground (arith, n)) more)

-- Sends to channels that are all different.
pub send_all-Later :
    (ev : WsEvent) (key : ℕ) (ks : List ℕ) (cs cs' : List Chan)
    → Distinct ks
    → Hub.send_all ev ks cs ≡ some cs'
    → Later key (ev ∷ []) cs cs'
unfolding Hub.send_all
send_all-Later ev key [] cs cs' d h =
    Later-trans key [] (ev ∷ []) cs cs' cs' (same_list key cs cs' h) (Later-same key (ev ∷ []) cs')
send_all-Later ev key (k ∷ ks) cs cs' d h =
    let (mid, first, more) = send_all_cases ev k ks cs cs' h in
    elim (Bool-cases (natb k key)) [
      | inl same ↦
          Later-trans key (ev ∷ []) [] cs mid cs'
            (subst (λ j. Later j (ev ∷ []) cs mid) (key_is k key same)
              (chan_at-Later (send ev) (ev ∷ []) k cs mid (send-Adds ev) first))
            (send_all-other ev key ks mid cs'
              (subst (λ j. is_among j ks ≡ false) (key_is k key same) d.0) more)
      | inr other ↦
          Later-trans key [] (ev ∷ []) cs mid cs' (chan_at-other (send ev) key k cs mid other first)
            (send_all-Later ev key ks mid cs' d.1 more)
    ]

publish_cases :
    (subs : String → List ℕ) (ev : WsEvent) (u : String) (us : List String) (cs cs' : List Chan)
    → Hub.publish_chans subs ev (u ∷ us) cs ≡ some cs'
    → (mid : List Chan) × (Hub.send_all ev (subs u) cs ≡ some mid)
      × (Hub.publish_chans subs ev us mid ≡ some cs')
unfolding Hub.publish_chans
publish_cases subs ev u us cs cs' h = elim (Option-cases (Hub.send_all ev (subs u) cs)) [
  | inl panics ↦ absurd (ground arith)
  | inr (mid, fine) ↦ (mid, fine, ground arith)
]

-- A channel is its user's only.
abbrev pub IsOnly : String → ℕ → (String → List ℕ) → Type 0
IsOnly user key subs = (u : String) → (u == user) ≡ false → is_among key (subs u) ≡ false

pub publish_chans-Later :
    (subs : String → List ℕ) (user : String) (key : ℕ) (ev : WsEvent) (users : List String)
    (cs cs' : List Chan)
    → IsOnly user key subs
    → ((u : String) → Distinct (subs u))
    → Hub.publish_chans subs ev users cs ≡ some cs'
    → Later key (copies user ev users) cs cs'
unfolding Hub.publish_chans
publish_chans-Later subs user key ev [] cs cs' only d h = same_list key cs cs' h
publish_chans-Later subs user key ev (u ∷ us) cs cs' only d h =
    let (mid, first, more) = publish_cases subs ev u us cs cs' h in
    let rest : Later key (copies user ev us) mid cs' =
      publish_chans-Later subs user key ev us mid cs' only d more in
    elim (Bool-cases (u == user)) [
      | inl his ↦
          rw (his, copies)
            (Later-trans key (ev ∷ []) (copies user ev us) cs mid cs'
              (send_all-Later ev key (subs u) cs mid (d u) first) rest)
      | inr other ↦
          rw (other, copies)
            (Later-trans key [] (copies user ev us) cs mid cs'
              (send_all-other ev key (subs u) cs mid (only u other) first) rest)
    ]
