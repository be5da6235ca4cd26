-- ===== src/Orders/Race/Covered.antt =====
-- internal/orders/handler.go: no leg stays assigned without an escrow, however requests overlap.
use yukbor_backend.Common.{
  String, Bool, true, false, List, [], ◌∷◌, ◌++◌, ◌≡◌, refl, ◌⊎◌, inl, inr, arith, string_Eq, any,
  All, subst,
}
use yukbor_backend.Common.Exec.{ok}
use yukbor_backend.Models.Enums.{Time, Leg, leg_Eq, order_status_Eq}
use yukbor_backend.Models.Money.{Transaction}
use yukbor_backend.Svc.{WalletClient}
use yukbor_backend.Orders.Store
use yukbor_backend.Orders.Store.{LegRow, is_leg, is_open, is_of, claimed, unclaimed, moved}
use yukbor_backend.Orders.Store.Claims.{claim_leg-rows}
use yukbor_backend.Orders.Escrow.{EscrowLaws, All-update}
use yukbor_backend.Orders.Escrow.Steps.{update_leg_status-rows, cancel-rows, complete_all_legs-rows}
use yukbor_backend.Common.GoMap.{GoMap}
use yukbor_backend.Common.Int.{ℤ}
use yukbor_backend.Orders.Race
use yukbor_backend.Orders.Race.Claims.{
  is_claim, IsCovered, any-split, any-swap, is_claim-eq, CoveredBy-map, AllCovered-map,
  same_executors,
}
use yukbor_backend.Orders.Race.{Claim, Shared, Step, Reach}

module _ {W : Type 0} (wallet : WalletClient W) (laws : EscrowLaws wallet) where
  open laws use {Has, opens, open_keeps, release_keeps, refund_keeps}

  abbrev pub AllCovered : Shared W → Type 0
  AllCovered s = All (IsCovered (λ o x. Has o x s.wallet) s.claims) s.db.legs

  claimed-AllCovered :
      (now : Time) (lost : Bool) (name : String) (c : Claim) (s : Shared W)
      → AllCovered s
      → All
          (IsCovered (λ o x. Has o x s.wallet) (c ∷ s.claims))
          (Store.claim_leg now lost c.request.order_id c.leg c.request.payee_id name s.db).1.legs
  claimed-AllCovered now lost name c s h =
      rw (claim_leg-rows now lost c.request.order_id c.leg c.request.payee_id name s.db) (
        All-update _ _ (is_open c.request.order_id c.leg) _ s.db.legs (λ r e b. inr (ground arith))
          (λ r e b.
            CoveredBy-map (λ o x. Has o x s.wallet) (λ o x. Has o x s.wallet) s.claims
              (c ∷ s.claims) r.order_id r.entry.leg r.entry.executor_id (λ x p. p)
              (λ x q. inr (ground arith)) b)
          h)

  -- A claim whose escrow is open has no need to cover its leg any more.
  paid-AllCovered :
      (before after : List Claim) (c : Claim) (tx : Transaction) (s : Shared W)
      → s.claims ≡ before ++ c ∷ after
      → (wallet.open_escrow c.request s.wallet).0 ≡ ok tx
      → AllCovered s
      → All
          (IsCovered (λ o x. Has o x (wallet.open_escrow c.request s.wallet).1) (before ++ after))
          s.db.legs
  paid-AllCovered before after c tx s e paid h =
      AllCovered-map _ _ s.claims (before ++ after) s.db.legs (open_keeps c.request s.wallet) freed
        h
    where
      w' : W
      w' = (wallet.open_escrow c.request s.wallet).1

      freed :
          (o : String) (leg : Leg) (x : String)
          → any (is_claim o leg x) s.claims ≡ true
          → Has o x w' ⊎ (any (is_claim o leg x) (before ++ after) ≡ true)
      freed o leg x q = elim (any-split (is_claim o leg x) before after c (rw e at q)) [
        | inl own ↦
            let (same_order, _, same_payee) = is_claim-eq o leg x c own in
            inl (
              subst (λ z. Has o z w') same_payee
                (subst (λ y. Has y c.request.payee_id w') same_order
                  (opens c.request s.wallet paid)))
        | inr other ↦ inr other
      ]

  unpaid-AllCovered :
      (before after : List Claim) (c : Claim) (s : Shared W)
      → s.claims ≡ before ++ c ∷ after
      → AllCovered s
      → All
          (IsCovered
            (λ o x. Has o x (wallet.open_escrow c.request s.wallet).1)
            (before ++ Race.declined c ∷ after))
          s.db.legs
  unpaid-AllCovered before after c s e h =
      AllCovered-map _ _ s.claims _ s.db.legs (open_keeps c.request s.wallet)
        (λ o leg x q.
          inr (any-swap (is_claim o leg x) before after c (Race.declined c) refl (rw e at q)))
        h

  -- A claim that is given back takes its leg's executor with it.
  gave_back-AllCovered :
      (now : Time) (before after : List Claim) (c : Claim) (s : Shared W)
      → s.claims ≡ before ++ c ∷ after
      → AllCovered s
      → All
          (IsCovered (λ o x. Has o x s.wallet) (before ++ after))
          (Store.release_leg_claim now c.request.order_id c.leg s.db).legs
  unfolding Store.release_leg_claim
  gave_back-AllCovered now before after c s e h =
      All-update _ _ (is_leg c.request.order_id c.leg) _ s.db.legs (λ r f b. tt)
        (λ r f b.
          CoveredBy-map P P s.claims (before ++ after) r.order_id r.entry.leg r.entry.executor_id
            (λ x p. p)
            (λ x q.
              elim (any-split (is_claim r.order_id r.entry.leg x) before after c (rw e at q)) [
                | inl own ↦ absurd (others r x f own)
                | inr other ↦ inr other
              ])
            b)
        h
    where
      P : String → String → Type 0
      P o x = Has o x s.wallet

      others :
          (r : LegRow) (x : String)
          → is_leg c.request.order_id c.leg r ≡ false
          → is_claim r.order_id r.entry.leg x c ≡ true
          → ⊥
      others r x f own = ground arith

  placed-AllCovered :
      (now : Time) (id : String) (n : Store.NewOrder) (s : Shared W)
      → AllCovered s
      → All (IsCovered (λ o x. Has o x s.wallet) s.claims) (Store.create now id n s.db).legs
  unfolding Store.create Store.new_legs
  placed-AllCovered now id n s h =
      All-append-new s.db.legs (Store.new_legs now id n.leg_prices) h (new_covered n.leg_prices)
    where
      new_covered :
          (prices : GoMap Leg ℤ)
          → All (IsCovered (λ o x. Has o x s.wallet) s.claims) (Store.new_legs now id prices)
      new_covered [] = tt
      new_covered ((leg, price) ∷ prices) = (tt, new_covered prices)

      All-append-new :
          (old new : List LegRow)
          → All (IsCovered (λ o x. Has o x s.wallet) s.claims) old
          → All (IsCovered (λ o x. Has o x s.wallet) s.claims) new
          → All (IsCovered (λ o x. Has o x s.wallet) s.claims) (old ++ new)
      All-append-new [] new p q = q
      All-append-new (r ∷ old) new p q = (p.0, All-append-new old new p.1 q)

  Step-AllCovered : {s t : Shared W} → Step wallet s t → AllCovered s → AllCovered t
  Step-AllCovered {s} (Step.claimed now lost name c won) h = claimed-AllCovered now lost name c s h
  Step-AllCovered {s} (Step.paid before after c tx e fresh got) h =
      paid-AllCovered before after c tx s e got h
  Step-AllCovered {s} (Step.unpaid before after c x e fresh failed) h =
      unpaid-AllCovered before after c s e h
  Step-AllCovered {s} (Step.gave_back now before after c e late) h =
      gave_back-AllCovered now before after c s e h
  Step-AllCovered {s} (Step.moved now lost order leg before status allowed) h =
      rw (update_leg_status-rows now lost order leg status s.db)
        (same_executors _ s.claims _ _ s.db.legs (λ l. refl) (λ l. refl) h)
  Step-AllCovered {s} (Step.cancelled now lost rec early) h =
      rw (cancel-rows now lost rec.id s.db)
        (same_executors _ s.claims _ _ s.db.legs (λ l. refl) (λ l. refl) h)
  Step-AllCovered {s} (Step.completed now lost rec ready) h =
      rw (complete_all_legs-rows now lost rec.id s.db)
        (same_executors _ s.claims _ _ s.db.legs (λ l. refl) (λ l. refl) h)
  Step-AllCovered {s} (Step.placed now id n) h = placed-AllCovered now id n s h
  Step-AllCovered {s} (Step.released order payee) h =
      AllCovered-map _ _ s.claims s.claims s.db.legs (release_keeps order payee s.wallet)
        (λ o leg x q. inr q) h
  Step-AllCovered {s} (Step.refunded order) h =
      AllCovered-map _ _ s.claims s.claims s.db.legs (refund_keeps order s.wallet)
        (λ o leg x q. inr q) h

  -- No leg stays assigned without an escrow, however requests overlap: after any steps of any
  -- requests that run at the same time, in any order, each leg with an executor has an escrow for its
  -- order and that executor, or the accept that claimed it for him is still on its way to open one or
  -- to give the claim back; if it was so before. The wallet keeps its laws.
  pub Reach-AllCovered : {s t : Shared W} → Reach wallet s t → AllCovered s → AllCovered t
  Reach-AllCovered Reach.start h = h
  Reach-AllCovered (Reach.later r st) h = Step-AllCovered st (Reach-AllCovered r h)
