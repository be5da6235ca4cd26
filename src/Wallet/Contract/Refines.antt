-- ===== src/Wallet/Contract/Refines.antt =====
-- internal/wallet/handler.go: any requests do to the escrows what the contract says.

use yukbor_backend.Common.{
  String, Option, none, some, Bool, true, false, List, [], ◌∷◌, ◌++◌, string_Eq, if◌then◌else◌, ◌≡◌,
  refl, arith, sym, ap, ◌∙◌, Option-cases, Bool-cases, inl, inr,
}
use yukbor_backend.Common.Int.{ℤ}
use yukbor_backend.Common.Exec.{Result, ok, err, ◌>>=◌}
use yukbor_backend.Common.Outcome.{
  Outcome, did, did_not, Outcome-some, Outcome-or_raise, Outcome-raise_if, Outcome-gets,
}
use yukbor_backend.Httpx.{Failure, Handler, failure, Code}
use yukbor_backend.Models.Enums.{transaction_status_Eq}
use yukbor_backend.Wallet.Store
use yukbor_backend.Wallet.Store.{TxRecord, TxRow, WalletDb, existing}
use yukbor_backend.Wallet.Handler
use yukbor_backend.Wallet.Handler.{Env, CreateRequest, ReleaseRequest}
use yukbor_backend.Wallet.Ledger.Pairs.{row_of}
use yukbor_backend.Wallet.Requests.{Request, serve, serve_all}
use yukbor_backend.Wallet.Contract.{Op, Phase, act, act_all}
use yukbor_backend.Wallet.Contract.Kept.{
  phase, release-Did, refund_order-Did, create-Did, create_failed, release_failed,
}

-- What a request asks for, if its body decodes.
abbrev pub asked : Request → List Op
asked (Request.create env none) = []
asked (Request.create env (some b)) = Op.open_escrow b.order_id b.payee_id ∷ []
asked (Request.release env none) = []
asked (Request.release env (some b)) = Op.release b.order_id b.payee_id ∷ []
asked (Request.refund env none) = []
asked (Request.refund env (some order)) = Op.refund order ∷ []

abbrev is_positive : {A : Type 0} → Result Failure A → Bool
is_positive (ok _) = true
is_positive (err _) = false

-- Whether the answer to a request is positive.
unfoldable pub succeeds : Request → WalletDb → Bool
succeeds (Request.create env body) db = is_positive (Handler.create env body db).0
succeeds (Request.release env body) db = is_positive (Handler.release env body db).0
succeeds (Request.refund env body) db = is_positive (Handler.refund env body db).0

-- The operations of the requests that are answered positively, in order.
unfoldable pub accepted : List Request → WalletDb → List Op
unfolding succeeds serve
accepted [] db = []
accepted (req ∷ reqs) db =
    let rest = accepted reqs (serve req db) in if succeeds req db then asked req ++ rest else rest

-- An escrow that is there stays as it is.
already :
    (order payee o p : String) (rows : List TxRow) (tx : TxRecord)
    → existing o p rows ≡ some tx
    → phase order payee rows ≡ act (Op.open_escrow o p) order payee (phase order payee rows)
unfolding existing
already order payee o p rows tx h = elim (Option-cases (row_of o p rows)) [
  | inl gone ↦ absurd (ground arith)
  | inr (r, there) ↦ ground arith
]

module _ (env : Env) (order payee : String) (db : WalletDb) where
  abbrev Done : Op → WalletDb → Type 0
  Done op db' =
      phase order payee db'.transactions ≡ act op order payee (phase order payee db.transactions)

  abbrev Same : WalletDb → Type 0
  Same db' = phase order payee db'.transactions ≡ phase order payee db.transactions

  abbrev Serves : {A : Type 0} → Op → Result Failure A × WalletDb → Type 0
  Serves op p = Outcome (Done op) Same p

  stored-Serves :
      (n : Store.NewTx) (r : Result Store.StoreError (TxRecord × Bool)) (db' : WalletDb)
      → ((x : TxRecord × Bool) → r ≡ ok x → Done (Op.open_escrow n.order_id n.payee_id) db')
      → ((e : Store.StoreError) → r ≡ err e → Same db')
      → Serves (Op.open_escrow n.order_id n.payee_id) (Handler.stored r db')
  unfolding Handler.stored
  stored-Serves n (ok x) db' yes_ no_ = did _ refl (yes_ x refl)
  stored-Serves n (err e) db' yes_ no_ = did_not _ refl (no_ e refl)

  insert_tx-Serves :
      (n : Store.NewTx) → Serves (Op.open_escrow n.order_id n.payee_id) (Handler.insert_tx env n db)
  unfolding Handler.insert_tx
  insert_tx-Serves n =
      stored-Serves n _ _ (λ x h. create-Did env.fresh_id env.now n order payee db.transactions x h)
        (λ e h.
          ap (phase order payee)
            (create_failed env.fresh_id env.now n order payee db.transactions e h))

  charged-Serves :
      {A : Type 0} (op : Op) (r : Result Handler.ChargeError String)
      (k : String → Handler WalletDb A)
      → ((ref : String) → Serves op (k ref db))
      → Serves op ((Handler.charged r >>= k) db)
  unfolding Handler.charged ◌>>=◌
  charged-Serves op (ok ref) k go = go ref
  charged-Serves op (err Handler.ChargeError.payment_declined) k go = did_not _ refl refl
  charged-Serves op (err Handler.ChargeError.caller_gone) k go = did_not _ refl refl

  open_new-Serves :
      (b : CreateRequest) (amount : ℤ)
      → Serves (Op.open_escrow b.order_id b.payee_id) (Handler.open_new env b amount db)
  unfolding Handler.open_new Handler.new_tx
  open_new-Serves b amount = charged-Serves (Op.open_escrow b.order_id b.payee_id) _ _ λ ref.
      Outcome-raise_if db _ _ _ refl
        λ _. Outcome-gets db _ _ (Outcome-raise_if db _ _ _ refl λ _. insert_tx-Serves _)

  answer-Serves :
      (b : CreateRequest) (amount : ℤ) (found : Option TxRecord)
      → existing b.order_id b.payee_id db.transactions ≡ found
      → Serves
          (Op.open_escrow b.order_id b.payee_id)
          (Handler.answer_existing env b amount found db)
  unfolding Handler.answer_existing existing
  answer-Serves b amount none h = open_new-Serves b amount
  answer-Serves b amount (some tx) h =
      did (200, tx) refl (already order payee b.order_id b.payee_id db.transactions tx h)

  create-Serves :
      (b : CreateRequest)
      → Serves (Op.open_escrow b.order_id b.payee_id) (Handler.create env (some b) db)
  unfolding Handler.create
  create-Serves b = Outcome-some db b (failure 400 Code.bad_request) _ (
      Outcome-or_raise db refl _ _ _ λ amount _. Outcome-raise_if db _ _ _ refl λ _.
        Outcome-raise_if db _ _ _ refl λ _. Outcome-gets db _ _ (answer-Serves b amount _ refl))

  released-Serves :
      (op : Op) (r : Result Store.StoreError TxRecord) (db' : WalletDb)
      → Done op db'
      → ((e : Store.StoreError) → r ≡ err e → Same db')
      → Serves op (Handler.released r db')
  unfolding Handler.released
  released-Serves op (ok tx) db' done same = did _ refl done
  released-Serves op (err Store.StoreError.not_found) db' done same = did_not _ refl (same _ refl)
  released-Serves op (err Store.StoreError.constraint) db' done same = did_not _ refl (same _ refl)

  release-Serves :
      (b : ReleaseRequest)
      → Serves (Op.release b.order_id b.payee_id) (Handler.release env (some b) db)
  unfolding Handler.release
  release-Serves b = Outcome-some db b (failure 400 Code.bad_request) _ (
      Outcome-raise_if db _ _ _ refl λ _.
        released-Serves (Op.release b.order_id b.payee_id) _ _
          (release-Did env.now b.order_id b.payee_id order payee db.transactions)
          (λ e h. release_failed env.now b.order_id b.payee_id order payee db.transactions e h))

  refund-Serves : (o : String) → Serves (Op.refund o) (Handler.refund env (some o) db)
  unfolding Handler.refund
  refund-Serves o = Outcome-some db o (failure 400 Code.bad_request) _ (
      Outcome-raise_if db _ _ _ refl
        λ _. did _ refl (refund_order-Did env.now o "" order payee db.transactions))

module _ (order payee : String) where
  abbrev Kept : Request → WalletDb → Type 0
  Kept req db = phase order payee (serve req db).transactions ≡ (
      if succeeds req db
      then act_all (asked req) order payee (phase order payee db.transactions)
      else phase order payee db.transactions)

  outcome_kept :
      {A : Type 0} (op : Op) (db : WalletDb) (env : Env) (p : Result Failure A × WalletDb)
      → Serves env order payee db op p
      → phase order payee p.1.transactions ≡ (
          if is_positive p.0
          then act op order payee (phase order payee db.transactions)
          else phase order payee db.transactions)
  outcome_kept op db env p (did a e h) = rw e h
  outcome_kept op db env p (did_not x e h) = rw e h

  no_body :
      (env : Env) (db : WalletDb)
      → Kept (Request.create env none) db
        × Kept (Request.release env none) db
        × Kept (Request.refund env none) db
  unfolding serve succeeds Handler.create Handler.release Handler.refund ◌>>=◌
  no_body env db = (refl, refl, refl)

  serve-Kept : (req : Request) (db : WalletDb) → Kept req db
  unfolding serve succeeds
  serve-Kept (Request.create env none) db = (no_body env db).0
  serve-Kept (Request.create env (some b)) db =
      outcome_kept (Op.open_escrow b.order_id b.payee_id) db env _
        (create-Serves env order payee db b)
  serve-Kept (Request.release env none) db = (no_body env db).1
  serve-Kept (Request.release env (some b)) db =
      outcome_kept (Op.release b.order_id b.payee_id) db env _ (release-Serves env order payee db b)
  serve-Kept (Request.refund env none) db = (no_body env db).2
  serve-Kept (Request.refund env (some o)) db =
      outcome_kept (Op.refund o) db env _ (refund-Serves env order payee db o)

  act_all-append :
      (ops more : List Op) (st : Phase)
      → act_all (ops ++ more) order payee st ≡ act_all more order payee (act_all ops order payee st)
  act_all-append [] more st = refl
  act_all-append (op ∷ ops) more st = act_all-append ops more (act op order payee st)

  -- The wallet keeps its contract: after any requests, whatever fails on the way, the escrow of an
  -- order and a payee stands where the operations leave it that the positively answered requests
  -- asked for, in their order; so a request takes effect at once and whole if it is answered
  -- positively, and not at all if it is not. What else the table holds of the escrow, and the order
  -- of its rows, plays no part.
  pub serve_all-act_all :
      (reqs : List Request) (db : WalletDb)
      → phase order payee (serve_all reqs db).transactions
        ≡ act_all (accepted reqs db) order payee (phase order payee db.transactions)
  unfolding serve_all accepted
  serve_all-act_all [] db = refl
  serve_all-act_all (req ∷ reqs) db = elim (Bool-cases (succeeds req db)) [
    | inl yes_ ↦
        serve_all-act_all reqs (serve req db)
        ∙ rw yes_ (
            ap (act_all (accepted reqs (serve req db)) order payee)
              (serve-Kept req db ∙ rw yes_ refl)
            ∙ sym (act_all-append (asked req) (accepted reqs (serve req db)) _))
    | inr no_ ↦
        serve_all-act_all reqs (serve req db)
        ∙ rw no_ (
            ap (act_all (accepted reqs (serve req db)) order payee)
              (serve-Kept req db ∙ rw no_ refl))
  ]
