-- ===== src/System/Laws/Overlap.antt =====
-- The two services together, with requests that overlap.
use yukbor_backend.Common.{ℕ, String, Option, none, some, List, [], ◌∷◌, ◌≡◌, inl, inr, All, subst}
use yukbor_backend.Orders.Escrow.{BackedBy, AllBacked}
use yukbor_backend.Orders.Store.{LegRow}
use yukbor_backend.Orders.Race.{Claim, Shared, Reach}
use yukbor_backend.Orders.Race.Claims.{CoveredBy, IsCovered}
use yukbor_backend.Orders.Race.Covered.{Reach-AllCovered}
use yukbor_backend.Wallet.Handler.{Env}
use yukbor_backend.System.{Delivery, Remote, wallet_client}
use yukbor_backend.System.Laws.{HasEscrow, wallet_laws}
use yukbor_backend.Models.Enums.{Leg}

module _ (P : String → String → Type 0) where
  covers :
      (claims : List Claim) (order : String) (leg : Leg) (executor : Option String)
      → BackedBy P order executor
      → CoveredBy P claims order leg executor
  covers claims order leg none h = tt
  covers claims order leg (some x) h = inl h

  covered :
      (claims : List Claim) (rows : List LegRow) → AllBacked P rows → All (IsCovered P claims) rows
  covered claims [] h = tt
  covered claims (r ∷ rows) h =
      (covers claims r.order_id r.entry.leg r.entry.executor_id h.0, covered claims rows h.1)

  -- With no accept running, what is covered is backed.
  backs :
      (order : String) (leg : Leg) (executor : Option String)
      → CoveredBy P [] order leg executor
      → BackedBy P order executor
  backs order leg none h = tt
  backs order leg (some x) (inl p) = p
  backs order leg (some x) (inr c) = cc

  backed : (rows : List LegRow) → All (IsCovered P []) rows → AllBacked P rows
  backed [] h = tt
  backed (r ∷ rows) h = (backs r.order_id r.entry.leg r.entry.executor_id h.0, backed rows h.1)

-- No leg stays assigned without an escrow, however requests overlap: after any steps of requests
-- that run at the same time, in any order, whichever calls to the wallet or their replies are lost,
-- once no accept is between its claim and its end, each leg that has an executor has a transaction in
-- the wallet's ledger for its order and that executor, if it was so before. An accept ends when the
-- wallet has answered that the escrow is open, or when the claim is given back.
pub overlapping_is_funded :
    (conditions : ℕ → Env × Delivery) (s t : Shared Remote)
    → Reach (wallet_client conditions) s t
    → t.claims ≡ []
    → AllBacked (λ o p. HasEscrow o p s.wallet.db) s.db.legs
    → AllBacked (λ o p. HasEscrow o p t.wallet.db) t.db.legs
unfolding wallet_laws
overlapping_is_funded conditions s t r ended h = backed _ t.db.legs (
    subst (λ cs. All (IsCovered (λ o p. HasEscrow o p t.wallet.db) cs) t.db.legs) ended
      (Reach-AllCovered (wallet_client conditions) (wallet_laws conditions) r
        (covered _ s.claims s.db.legs h)))
