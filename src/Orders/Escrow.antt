-- ===== src/Orders/Escrow.antt =====
-- No leg sits assigned without an escrow behind it.
pub mod Steps
pub mod Requests
use yukbor_backend.Common.{
  ℕ, String, Option, none, some, Bool, true, false, ◌&&◌, not, List, [], ◌∷◌, ◌==◌, string_Eq,
  if◌then◌else◌, ◌≡◌, refl, ◌≢◌, arith, ◌⊎◌, inl, inr, Bool-cases, ap, ◌∙◌, All, subst,
}
use yukbor_backend.Common.Table.{
  query_row, update_where, count_where, query_row-update_where, update_where-none, count_where-zero,
}
use yukbor_backend.Common.Exec.{
  Result, ok, err, EndsIn, EndsIn-pure, EndsIn-reader, EndsIn-or_raise, EndsIn-raise_if,
  EndsIn-gets, ◌>>=◌,
}
use yukbor_backend.Httpx.Guards.{Claims}
use yukbor_backend.Models.Enums.{Time, OrderStatus, order_status_Eq, Leg, leg_Eq}
use yukbor_backend.Models.Money.{Transaction}
use yukbor_backend.Svc.{WalletClient, CallError, EscrowRequest}
use yukbor_backend.Orders.Record.{OrderRecord, LegRecord}
use yukbor_backend.Orders.Store
use yukbor_backend.Orders.Store.{
  LegRow, OrdersDb, StoreError, is_leg, is_open, is_null, is_of, claimed, unclaimed, moved, touch,
  claim_leg, release_leg_claim, update_leg_status, complete_all_legs,
}
use yukbor_backend.Orders.Store.Claims.{LegsAreUnique}
use yukbor_backend.Orders.Handler
use yukbor_backend.Orders.Handler.{Env, State, Point, AcceptRequest, StatusRequest}

-- What the orders service relies on of the wallet: an escrow that was opened is there, and no call
-- takes one away.
pub record EscrowLaws {W : Type 0} (wallet : WalletClient W) : Type 1 where
  pub Has : String → String → W → Type 0
  pub opens :
      (req : EscrowRequest) (w : W) {tx : Transaction}
      → (wallet.open_escrow req w).0 ≡ ok tx
      → Has req.order_id req.payee_id (wallet.open_escrow req w).1
  pub open_keeps :
      (req : EscrowRequest) (w : W) (o p : String)
      → Has o p w
      → Has o p (wallet.open_escrow req w).1
  pub release_keeps :
      (a b : String) (w : W) (o p : String) → Has o p w → Has o p (wallet.release a b w).1
  pub refund_keeps : (a : String) (w : W) (o p : String) → Has o p w → Has o p (wallet.refund a w).1

abbrev pub BackedBy : (String → String → Type 0) → String → Option String → Type 0
BackedBy P order none = Unit
BackedBy P order (some x) = P order x

-- A leg with an executor has what `P` says of its order and its executor.
abbrev pub IsBacked : (String → String → Type 0) → LegRow → Type 0
IsBacked P r = BackedBy P r.order_id r.executor_id

abbrev pub AllBacked : (String → String → Type 0) → List LegRow → Type 0
AllBacked P rows = All (IsBacked P) rows

pub BackedBy-mono :
    (P Q : String → String → Type 0) (order : String) (executor : Option String)
    → ((o x : String) → P o x → Q o x)
    → BackedBy P order executor
    → BackedBy Q order executor
BackedBy-mono P Q order none f h = tt
BackedBy-mono P Q order (some x) f h = f order x h

pub AllBacked-mono :
    (P Q : String → String → Type 0) (rows : List LegRow)
    → ((o x : String) → P o x → Q o x)
    → AllBacked P rows
    → AllBacked Q rows
AllBacked-mono P Q [] f h = tt
AllBacked-mono P Q (r ∷ rows) f h =
    (BackedBy-mono P Q r.order_id r.executor_id f h.0, AllBacked-mono P Q rows f h.1)

-- What an UPDATE does to every row.
pub All-update :
    (P Q : LegRow → Type 0) (p : LegRow → Bool) (f : LegRow → LegRow) (rows : List LegRow)
    → ((r : LegRow) → p r ≡ true → P r → Q (f r))
    → ((r : LegRow) → p r ≡ false → P r → Q r)
    → All P rows
    → All Q (update_where p f rows)
All-update P Q p f [] hit miss h = tt
All-update P Q p f (r ∷ rows) hit miss h = (
  elim (Bool-cases (p r)) [ inl e ↦ rw e (hit r e h.0) | inr e ↦ rw e (miss r e h.0) ],
  All-update P Q p f rows hit miss h.1,
)

-- An UPDATE that leaves the keys alone keeps the legs unique.
pub update-LegsAreUnique :
    (p : LegRow → Bool) (f : LegRecord → LegRecord) (rows : List LegRow)
    → ((l : LegRecord) → (f l).leg ≡ l.leg)
    → LegsAreUnique rows
    → LegsAreUnique (update_where p (λ r. record r { entry = f r.entry }) rows)
update-LegsAreUnique p f [] keeps u = tt
update-LegsAreUnique p f (r ∷ rows) keeps u = ground (
  arith,
  keeps r.entry,
  update-LegsAreUnique p f rows keeps u.1,
  query_row-update_where (is_leg r.order_id r.leg) p (λ q. record q { entry = f q.entry }) rows
      (λ q. ground (arith, keeps q.entry)),
)

-- The legs while a claim on one of them waits for its escrow.
abbrev pub IsPending : (String → String → Type 0) → String → Leg → String → LegRow → Type 0
IsPending P order leg executor r =
    IsBacked P r ⊎ ((is_leg order leg r ≡ true) × (r.executor_id ≡ some executor))

module _ (P : String → String → Type 0) (now : Time) (order : String) (leg : Leg)
    (executor name : String) where
  pub claim-IsPending :
      (rows : List LegRow)
      → AllBacked P rows
      → All (IsPending P order leg executor) (
          update_where
            (is_open order leg)
            (λ r. record r { entry = claimed now executor name r.entry })
            rows)
  claim-IsPending rows h =
      All-update (IsBacked P) (IsPending P order leg executor) (is_open order leg) _ rows
        (λ r e b. inr (ground arith, refl)) (λ r e b. inl b) h

  -- Giving the claim back leaves every other leg as it was.
  pub give_back-backed :
      (Q : String → String → Type 0) (rows : List LegRow)
      → ((o x : String) → P o x → Q o x)
      → All (IsPending P order leg executor) rows
      → AllBacked Q
          (update_where (is_leg order leg) (λ r. record r { entry = unclaimed now r.entry }) rows)
  give_back-backed Q rows f h =
      All-update (IsPending P order leg executor) (IsBacked Q) (is_leg order leg) _ rows
        (λ r e b. tt)
        (λ r e b. elim b [
          | inl q ↦ BackedBy-mono P Q r.order_id r.executor_id f q
          | inr c ↦ cc c.0
        ])
        h

  pending_row :
      (Q : String → String → Type 0) (r : LegRow)
      → ((o x : String) → P o x → Q o x)
      → Q order executor
      → IsPending P order leg executor r
      → IsBacked Q r
  pending_row Q r f q (inl b) = BackedBy-mono P Q r.order_id r.executor_id f b
  pending_row Q r f q (inr (e, x)) = rw x (subst (λ o. Q o executor) (order_of_is_leg r e) q)
    where
      order_of_is_leg : (r : LegRow) → is_leg order leg r ≡ true → order ≡ r.order_id
      order_of_is_leg r e = ground arith

  -- Once the escrow is open, every leg is backed.
  pub opened-backed :
      (Q : String → String → Type 0) (rows : List LegRow)
      → ((o x : String) → P o x → Q o x)
      → Q order executor
      → All (IsPending P order leg executor) rows
      → AllBacked Q rows
  opened-backed Q [] f q h = tt
  opened-backed Q (r ∷ rows) f q h = (pending_row Q r f q h.0, opened-backed Q rows f q h.1)
