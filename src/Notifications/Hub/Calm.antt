-- ===== src/Notifications/Hub/Calm.antt =====
-- internal/notifications/hub.go: no order of subscriptions, publications and disconnections makes
-- the hub panic.
use yukbor_backend.Common.{
  ℕ, String, some, true, false, List, [], ◌∷◌, ◌++◌, ◌==◌, string_Eq, if◌then◌else◌, natb, length,
  All, ◌≡◌, ◌≢◌, refl, ap, sym, ◌∙◌, subst, arith, Bool-cases, inl, inr, eq_of_==,
}
use yukbor_backend.Notifications.Hub
use yukbor_backend.Notifications.Hub.{
  WsEvent, Chan, Hub, capacity, chan_at, send, close_chan, is_among, remove_first, set_subs, run,
  Event,
}
use yukbor_backend.Notifications.Hub.Safe.{
  open_at, is_open, Fits, Ends, set_at, set_at-Fits, set_at-shut, shut, open_at-bound,
  open_at-append, open_at-new, append-Fits, chan_at-set_at,
}

abbrev pub Distinct : List ℕ → Type 0
Distinct [] = Unit
Distinct (k ∷ ks) = (is_among k ks ≡ false) × Distinct ks

abbrev pub Registered : (ℕ → String) → List Chan → String → ℕ → Type 0
Registered owner cs user k = (owner k ≡ user) × (open_at k cs ≡ true)

-- Each registered channel is open and has one owner, and is registered once.
pub record Inv (h : Hub) : Type 0 where
  pub owner : ℕ → String
  pub registered : (user : String) → All (Registered owner h.chans user) (h.subs user)
  pub distinct : (user : String) → Distinct (h.subs user)
  pub fit : All Fits h.chans

pub All-map : {P Q : ℕ → Type 0} (ks : List ℕ) → ((k : ℕ) → P k → Q k) → All P ks → All Q ks
All-map [] f h = tt
All-map (k ∷ ks) f h = (f k h.0, All-map ks f h.1)

All-snoc : (P : ℕ → Type 0) (ks : List ℕ) (k : ℕ) → All P ks → P k → All P (ks ++ k ∷ [])
All-snoc P [] k h g = (g, tt)
All-snoc P (j ∷ ks) k h g = (h.0, All-snoc P ks k h.1 g)

-- A channel that is made now is new to every list.
pub fresh_among :
    (owner : ℕ → String) (cs : List Chan) (user : String) (ks : List ℕ)
    → All (Registered owner cs user) ks
    → is_among (length cs) ks ≡ false
fresh_among owner cs user [] h = refl
fresh_among owner cs user (k ∷ ks) h =
    ground (arith, open_at-bound k cs h.0.1, fresh_among owner cs user ks h.1)

pub among-snoc :
    (key j : ℕ) (ks : List ℕ)
    → is_among j ks ≡ false
    → natb key j ≡ false
    → is_among j (ks ++ key ∷ []) ≡ false
among-snoc key j [] h n = ground arith
among-snoc key j (k ∷ ks) h n = ground (arith, among-snoc key j ks)

Distinct-snoc :
    (key : ℕ) (ks : List ℕ) → Distinct ks → is_among key ks ≡ false → Distinct (ks ++ key ∷ [])
Distinct-snoc key [] d n = (refl, tt)
Distinct-snoc key (k ∷ ks) d n =
    (among-snoc key k ks d.0 (ground arith), Distinct-snoc key ks d.1 (ground arith))

abbrev owner_after : ℕ → String → (ℕ → String) → ℕ → String
owner_after key user owner k = if natb k key then user else owner k

still :
    (owner : ℕ → String) (cs : List Chan) (user u : String) (k : ℕ)
    → Registered owner cs u k
    → Registered (owner_after (length cs) user owner) (cs ++ Hub.new_chan ∷ []) u k
still owner cs user u k h =
    (ground (arith, open_at-bound k cs h.1), open_at-append k cs Hub.new_chan h.1)

natb_refl : (k : ℕ) → natb k k ≡ true
natb_refl k = ground arith

mine :
    (user : String) (h : Hub) (i : Inv h)
    → All
        (Registered (owner_after (length h.chans) user i.owner) (h.chans ++ Hub.new_chan ∷ []) user)
        (h.subs user ++ length h.chans ∷ [])
mine user h i =
    All-snoc _ (h.subs user) (length h.chans)
      (All-map (h.subs user) (still i.owner h.chans user user) (i.registered user))
      (ground (arith, natb_refl (length h.chans)), open_at-new h.chans)

pub subscribe-Inv : (user : String) (h : Hub) → Inv h → Inv (Hub.subscribe user h).1
unfolding Hub.subscribe
subscribe-Inv user h i = record {
  owner = owner_after (length h.chans) user i.owner;
  registered = λ u. elim (Bool-cases (user == u)) [
    | inl same ↦
        rw (same, set_subs)
          (subst
            (λ v.
              All
                (Registered (owner_after (length h.chans) user i.owner)
                  (h.chans ++ Hub.new_chan ∷ []) v)
                (h.subs user ++ length h.chans ∷ []))
            (eq_of_== user u same) (mine user h i))
    | inr other ↦
        rw (other, set_subs) (All-map (h.subs u) (still i.owner h.chans user u) (i.registered u))
  ];
  distinct = λ u. elim (Bool-cases (user == u)) [
    | inl same ↦
        rw (same, set_subs)
          (Distinct-snoc (length h.chans) (h.subs user) (i.distinct user)
            (fresh_among i.owner h.chans user (h.subs user) (i.registered user)))
    | inr other ↦ rw (other, set_subs) (i.distinct u)
  ];
  fit = append-Fits h.chans i.fit;
}

natb_eq : (k key : ℕ) → natb k key ≡ true → k ≡ key
natb_eq k key h = ground arith

differ : (user u : String) → (user == u) ≡ false → user ≢ u
differ user u other same = ground arith

others :
    (P : ℕ → Type 0) (key k : ℕ) (ks : List ℕ)
    → k ≡ key
    → is_among k ks ≡ false
    → All P ks
    → All (λ j. P j × (natb j key ≡ false)) ks
others P key k [] e n h = tt
others P key k (j ∷ ks) e n h = ((h.0, ground arith), others P key k ks e (ground arith) h.1)

-- What is left of a list when a key goes: the others.
left_over :
    (P : ℕ → Type 0) (key : ℕ) (ks : List ℕ)
    → Distinct ks
    → All P ks
    → All (λ k. P k × (natb k key ≡ false)) (remove_first key ks)
unfolding remove_first
left_over P key [] d h = tt
left_over P key (k ∷ ks) d h = elim (Bool-cases (natb k key)) [
  | inl same ↦ rw same (others P key k ks (ground arith) d.0 h.1)
  | inr other ↦ rw other ((h.0, other), left_over P key ks d.1 h.1)
]

pub gone-among :
    (key j : ℕ) (ks : List ℕ) → is_among j ks ≡ false → is_among j (remove_first key ks) ≡ false
unfolding remove_first
gone-among key j [] h = refl
gone-among key j (k ∷ ks) h = ground (arith, gone-among key j ks)

remove_first-Distinct : (key : ℕ) (ks : List ℕ) → Distinct ks → Distinct (remove_first key ks)
unfolding remove_first
remove_first-Distinct key [] d = tt
remove_first-Distinct key (k ∷ ks) d = elim (Bool-cases (natb k key)) [
  | inl same ↦ rw same d.1
  | inr other ↦ rw other (gone-among key k ks d.0, remove_first-Distinct key ks d.1)
]

among-All : (P : ℕ → Type 0) (key : ℕ) (ks : List ℕ) → is_among key ks ≡ true → All P ks → P key
among-All P key [] m h = cc
among-All P key (k ∷ ks) m h = elim (Bool-cases (natb k key)) [
  | inl same ↦ subst P (natb_eq k key same) h.0
  | inr other ↦ among-All P key ks (ground arith) h.1
]

shut-Fits : (c : Chan) → Fits c → Fits (shut c)
shut-Fits c h = h

close-shut : (c : Chan) → is_open c ≡ true → close_chan c ≡ some (shut c)
close-shut c h = ground arith

-- A channel of another user is another channel.
not_his :
    (owner : ℕ → String) (user u : String) (key k : ℕ)
    → owner key ≡ user
    → (user == u) ≡ false
    → owner k ≡ u
    → natb k key ≡ false
not_his owner user u key k mine other his = elim (Bool-cases (natb k key)) [
  | inl same ↦ absurd (differ user u other (sym mine ∙ ap owner (sym (natb_eq k key same)) ∙ his))
  | inr fine ↦ fine
]

kept_registered :
    (owner : ℕ → String) (cs : List Chan) (u : String) (key k : ℕ)
    → Registered owner cs u k
    → natb k key ≡ false
    → Registered owner (set_at shut key cs) u k
kept_registered owner cs u key k h n = (h.0, set_at-shut key k cs n ∙ h.1)

pub unsubscribe-Inv :
    (user : String) (key : ℕ) (h : Hub) → Inv h → Ends Inv (Hub.unsubscribe user key h)
unfolding Hub.unsubscribe Hub.with_chans
unsubscribe-Inv user key h i = elim (Bool-cases (is_among key (h.subs user))) [
  | inr absent ↦ rw (absent, Ends) i
  | inl there ↦
      let (owned, opened) =
        among-All (Registered i.owner h.chans user) key (h.subs user) there (i.registered user) in
      rw (there, chan_at-set_at is_open close_chan shut key h.chans close-shut opened, Ends)
        (record {
          owner = i.owner;
          registered = λ u. elim (Bool-cases (user == u)) [
            | inl same ↦
                rw (same, set_subs)
                  (subst
                    (λ v.
                      All (Registered i.owner (set_at shut key h.chans) v)
                        (remove_first key (h.subs user)))
                    (eq_of_== user u same)
                    (All-map (remove_first key (h.subs user))
                      (λ k p. kept_registered i.owner h.chans user key k p.0 p.1)
                      (left_over (Registered i.owner h.chans user) key (h.subs user)
                        (i.distinct user) (i.registered user))))
            | inr other ↦
                rw (other, set_subs)
                  (All-map (h.subs u)
                    (λ k p.
                      kept_registered i.owner h.chans u key k p
                        (not_his i.owner user u key k owned other p.0))
                    (i.registered u))
          ];
          distinct = λ u. elim (Bool-cases (user == u)) [
            | inl same ↦
                rw (same, set_subs) (remove_first-Distinct key (h.subs user) (i.distinct user))
            | inr other ↦ rw (other, set_subs) (i.distinct u)
          ];
          fit = set_at-Fits shut key h.chans shut-Fits i.fit;
        })
]
