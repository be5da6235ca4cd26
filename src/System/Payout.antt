-- ===== src/System/Payout.antt =====
-- The orders service and the wallet together: what a confirmation does to the escrows.
use yukbor_backend.Common.{
  ℕ, String, none, some, true, false, List, [], ◌∷◌, ◌==◌, string_Eq, if◌then◌else◌, ◌≡◌, ◌≢◌, refl,
  arith, sym, ap, ◌∙◌, contains, ==_refl, Bool-cases, inl, inr, map,
}
use yukbor_backend.Common.Table.{query_row}
use yukbor_backend.Common.Exec.{
  Result, ok, err, Yields, Yields-bind, Yields-raise_if, Yields-pure, ◌>>=◌,
}
use yukbor_backend.Models.Enums.{Leg, leg_Eq, TransactionStatus, transaction_status_Eq}
use yukbor_backend.Models.Money.{Transaction}
use yukbor_backend.Models.Order.{Order}
use yukbor_backend.Httpx.Guards.{Claims}
use yukbor_backend.Svc.{CallError}
use yukbor_backend.Orders.Record.{OrderRecord, LegRecord, leg_of}
use yukbor_backend.Orders.Audience.{executors, first_of_each, payees}
use yukbor_backend.Orders.Handler as Orders
use yukbor_backend.Orders.Handler.{State}
use yukbor_backend.Orders.Replies.{Reads}
use yukbor_backend.Wallet.Store.{WalletDb}
use yukbor_backend.Wallet.Handler as Wallet
use yukbor_backend.Wallet.Requests.{released_state}
use yukbor_backend.Wallet.Contract.{Op, Phase, act, act_all, settled_as}
use yukbor_backend.Wallet.Contract.Kept.{phase, release-Did}
use yukbor_backend.System.{Delivery, Remote, remotely, call, wallet_client}

-- Every call gets to the wallet, whether or not its reply comes back, and no UPDATE of a release
-- fails there.
pub record Arrives (conditions : ℕ → Wallet.Env × Delivery) : Type 0 where
  pub gets_there : (n : ℕ) → (conditions n).1 ≢ Delivery.request_lost
  pub writes : (n : ℕ) → (conditions n).0.fails Wallet.Point.release_transaction ≡ false

abbrev pub phase_at : String → String → State Remote → Phase
phase_at order payee s = phase order payee s.wallet.db.transactions

module _ (order payee o p : String) where
  release_writes :
      (env : Wallet.Env) (db : WalletDb)
      → env.fails Wallet.Point.release_transaction ≡ false
      → phase o p
          (Wallet.release env
            (some (record { order_id = order; payee_id = payee }))
            db).1.transactions
        ≡ act (Op.release order payee) o p (phase o p db.transactions)
  unfolding Wallet.release ◌>>=◌
  release_writes env db up = rw up (
      ap (λ (d : WalletDb). phase o p d.transactions) (released_state _ _)
      ∙ release-Did env.now order payee o p db.transactions)

  call_writes :
      {A : Type 0} (way : Delivery) (handle : WalletDb → Result _ (ℕ × A) × WalletDb)
      (db : WalletDb) (st : Phase)
      → way ≢ Delivery.request_lost
      → phase o p (handle db).1.transactions ≡ st
      → phase o p (call way handle db).1.transactions ≡ st
  unfolding call
  call_writes Delivery.delivered handle db st there h = h
  call_writes Delivery.request_lost handle db st there h = absurd (there refl)
  call_writes Delivery.reply_lost handle db st there h = h

module _ (conditions : ℕ → Wallet.Env × Delivery) (arrives : Arrives conditions)
    (order o p : String) where
  release_arrives :
      (payee : String) (w : Remote)
      → phase o p ((wallet_client conditions).release order payee w).1.db.transactions
        ≡ act (Op.release order payee) o p (phase o p w.db.transactions)
  unfolding remotely
  release_arrives payee w =
      call_writes order payee o p (conditions w.calls).1 _ w.db _ (arrives.gets_there w.calls)
        (release_writes order payee o p (conditions w.calls).0 w.db (arrives.writes w.calls))

  released_wallet :
      (payee : String) (r : Result CallError Transaction) (s : State Remote)
      → (Orders.released (wallet_client conditions) order payee r s).wallet ≡ s.wallet
  unfolding Orders.released Orders.emit_to
  released_wallet payee (ok tx) s = refl
  released_wallet payee (err e) s = refl

  release_all-phase :
      (payees : List String) (s : State Remote)
      → phase_at o p (Orders.release_all (wallet_client conditions) order payees s)
        ≡ act_all (map (Op.release order) payees) o p (phase_at o p s)
  unfolding Orders.release_all
  release_all-phase [] s = refl
  release_all-phase (payee ∷ payees) s =
      release_all-phase payees _
      ∙ ap (act_all (map (Op.release order) payees) o p) (
          ap (λ (w : Remote). phase o p w.db.transactions) (released_wallet payee _ _)
          ∙ release_arrives payee s.wallet)

ok-injective : {E A : Type 0} {a b : A} → ◌≡◌ {A = Result E A} (ok a) (ok b) → a ≡ b
ok-injective h = cc

settled_once :
    (st : Phase)
    → settled_as TransactionStatus.released (settled_as TransactionStatus.released st)
      ≡ settled_as TransactionStatus.released st
settled_once none = refl
settled_once (some st) = ground arith

-- Releasing a payee's escrow once or more settles it.
module _ (order x : String) where
  act_here :
      (payee : String) (st : Phase)
      → act (Op.release order payee) order x st
        ≡ (if payee == x then settled_as TransactionStatus.released st else st)
  act_here payee st = ground (arith, ==_refl order)

  settled_stays :
      (payees : List String) (st : Phase)
      → act_all (map (Op.release order) payees) order x (settled_as TransactionStatus.released st)
        ≡ settled_as TransactionStatus.released st
  settled_stays [] st = refl
  settled_stays (payee ∷ payees) st = elim (Bool-cases (payee == x)) [
    | inl same ↦
        ap (act_all (map (Op.release order) payees) order x)
          (act_here payee _ ∙ rw same (settled_once st))
        ∙ settled_stays payees st
    | inr other ↦
        ap (act_all (map (Op.release order) payees) order x) (act_here payee _ ∙ rw other refl)
        ∙ settled_stays payees st
  ]

  settled_for :
      (payees : List String) (st : Phase)
      → contains x payees ≡ true
      → act_all (map (Op.release order) payees) order x st
        ≡ settled_as TransactionStatus.released st
  settled_for [] st h = cc
  settled_for (payee ∷ payees) st h = elim (Bool-cases (payee == x)) [
    | inl same ↦
        ap (act_all (map (Op.release order) payees) order x) (act_here payee _ ∙ rw same refl)
        ∙ settled_stays payees st
    | inr other ↦
        ap (act_all (map (Op.release order) payees) order x) (act_here payee _ ∙ rw other refl)
        ∙ settled_for payees st (ground arith)
  ]

-- Each executor is among the payees.
contains-first_of_each :
    (x : String) (seen ids : List String)
    → contains x seen ≡ false
    → contains x ids ≡ true
    → contains x (first_of_each seen ids) ≡ true
unfolding first_of_each
contains-first_of_each x seen [] new h = cc
contains-first_of_each x seen (id ∷ ids) new h = elim (Bool-cases (contains id seen)) [
  | inl again ↦ rw again (contains-first_of_each x seen ids new (ground arith))
  | inr fresh ↦ rw fresh (elim (Bool-cases (id == x)) [
    | inl same ↦ ground arith
    | inr other ↦
        ground (arith, contains-first_of_each x (id ∷ seen) ids (ground arith) (ground arith))
  ])
]

contains-executors :
    (leg : Leg) (legs : List LegRecord) (l : LegRecord) (x : String)
    → query_row (λ (l : LegRecord). l.leg == leg) legs ≡ some l
    → l.executor_id ≡ some x
    → contains x (executors legs) ≡ true
contains-executors leg [] l x found has = cc
contains-executors leg (k ∷ legs) l x found has = elim (Bool-cases (k.leg == leg)) [
  | inl here_ ↦ ground (arith, ==_refl x)
  | inr further ↦ ground (arith, contains-executors leg legs l x)
]

module _ (conditions : ℕ → Wallet.Env × Delivery) (arrives : Arrives conditions) (env : Orders.Env)
    (claims : Claims) (id : String) (s : State Remote) (rec : OrderRecord) (x : String) where
  -- A confirmation that returns has released what was held for the executor.
  Released : Order → State Remote → Type 0
  Released o s' = phase_at rec.id x s' ≡ settled_as TransactionStatus.released (phase_at rec.id x s)

  load-Reads : Reads env id s rec → Orders.load env id s ≡ (ok rec, s)
  unfolding Orders.load ◌>>=◌
  load-Reads reads = ground arith

  reload_wallet :
      (order : String) (t : State Remote) → (Orders.reload env order t).1.wallet ≡ t.wallet
  unfolding Orders.reload ◌>>=◌
  reload_wallet order t = ground arith

  after_release :
      (t : State Remote) (w : Remote)
      → t.wallet ≡ s.wallet
      → contains x (payees rec) ≡ true
      → w ≡ (Orders.release_all (wallet_client conditions) rec.id (payees rec) t).wallet
      → phase rec.id x w.db.transactions
        ≡ settled_as TransactionStatus.released (phase_at rec.id x s)
  after_release t w same owed e =
      ap (λ (v : Remote). phase rec.id x v.db.transactions) e
      ∙ release_all-phase conditions arrives rec.id rec.id x (payees rec) t
      ∙ settled_for rec.id x (payees rec) _ owed
      ∙ ap
          (λ (w : Remote). settled_as TransactionStatus.released (phase rec.id x w.db.transactions))
          same

  confirm-Released :
      Reads env id s rec
      → contains x (payees rec) ≡ true
      → Yields Released (Orders.confirm (wallet_client conditions) env claims id) s
  unfolding Orders.confirm Orders.on_db Orders.emit_to Released
  confirm-Released reads owed = Yields-bind _ _ s λ rec' loaded.
      let read = load-Reads reads in
      let same : rec' ≡ rec = ok-injective (sym loaded ∙ ap (λ p. p.0) read) in
      rw (ap (λ p. p.1) read, same)
        (Yields-raise_if _ _ _ s λ _. Yields-raise_if _ _ _ s λ _. Yields-raise_if _ _ _ s λ _.
          Yields-bind _ _ s λ _ _. Yields-bind _ _ _ λ _ _. Yields-bind _ _ _ λ updated _.
            Yields-bind _ _ _
              λ _ _. Yields-pure _ _ (after_release _ _ refl owed (reload_wallet _ _)))

-- A confirmation pays everybody: where it returns, every executor who has a leg of the order and for
-- whom something was held has it released, and what was settled before, or was never there, is as it
-- was. The order is read; every call of the wallet gets there, whether or not its reply comes back,
-- and no release fails in the wallet's database.
pub confirm_pays :
    (conditions : ℕ → Wallet.Env × Delivery) (env : Orders.Env) (claims : Claims) (id : String)
    (s : State Remote) (rec : OrderRecord) (leg : Leg) (l : LegRecord) (x : String) (o : Order)
    → Arrives conditions
    → Reads env id s rec
    → leg_of leg rec.legs ≡ some l
    → l.executor_id ≡ some x
    → (Orders.confirm (wallet_client conditions) env claims id s).0 ≡ ok o
    → phase_at rec.id x (Orders.confirm (wallet_client conditions) env claims id s).1
      ≡ settled_as TransactionStatus.released (phase_at rec.id x s)
unfolding leg_of payees Released
confirm_pays conditions env claims id s rec leg l x o arrives reads found has done =
    (confirm-Released conditions arrives env claims id s rec x reads (
        contains-first_of_each x [] (executors rec.legs) refl
          (contains-executors leg rec.legs l x found has))).at
      o done
