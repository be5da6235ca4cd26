-- ===== src/Wallet/Statuses.antt =====
-- internal/wallet/handler.go: the HTTP statuses of the answers to the other services.
use yukbor_backend.Common.{
  ℕ, String, Option, none, some, Bool, true, false, ◌||◌, natb, leb, ◌≡◌, refl, arith,
}
use yukbor_backend.Common.Int.{ℤ}
use yukbor_backend.Common.Exec.{Result, ok, err, ◌>>=◌, or_raise, gets, raise_if}
use yukbor_backend.Httpx.{Failure, Handler}
use yukbor_backend.Wallet.Store
use yukbor_backend.Wallet.Store.{TxRecord, WalletDb, StoreError, NewTx}
use yukbor_backend.Wallet.Handler
use yukbor_backend.Wallet.Handler.{Env, CreateRequest, ReleaseRequest, ChargeError}

-- 200 or 201 with a value, or an error from 400 on.
abbrev pub has_status : {A : Type 0} → Result Failure (ℕ × A) → Bool
has_status (ok (status, _)) = natb status 200 || natb status 201
has_status (err f) = leb 400 f.status

-- One rule for each step of a handler.
module _ {S A B : Type 0} (s : S) where
  after_option :
      (o : Option A) (e : Failure) (f : A → Handler S (ℕ × B))
      → leb 400 e.status ≡ true
      → ((a : A) → has_status (f a s).0 ≡ true)
      → has_status ((or_raise o e >>= f) s).0 ≡ true
  unfolding ◌>>=◌
  after_option none e f stop go = stop
  after_option (some a) e f stop go = go a

  after_gets :
      (g : S → A) (f : A → Handler S (ℕ × B))
      → has_status (f (g s) s).0 ≡ true
      → has_status ((gets g >>= f) s).0 ≡ true
  unfolding ◌>>=◌
  after_gets g f go = go

module _ {S B : Type 0} (s : S) where
  after_raise_if :
      (c : Bool) (e : Failure) (k : Unit {0} → Handler S (ℕ × B))
      → leb 400 e.status ≡ true
      → has_status (k tt s).0 ≡ true
      → has_status ((raise_if c e >>= k) s).0 ≡ true
  unfolding ◌>>=◌
  after_raise_if true e k stop go = stop
  after_raise_if false e k stop go = go

stored_status :
    (r : Result StoreError (TxRecord × Bool)) (db : WalletDb)
    → has_status (Handler.stored r db).0 ≡ true
unfolding Handler.stored
stored_status r db = ground arith

released_status :
    (r : Result StoreError TxRecord) (db : WalletDb) → has_status (Handler.released r db).0 ≡ true
unfolding Handler.released
released_status r db = ground arith

insert_status :
    (env : Env) (n : NewTx) (db : WalletDb) → has_status (Handler.insert_tx env n db).0 ≡ true
unfolding Handler.insert_tx
insert_status env n db =
    let (r, rows) = Store.create env.fresh_id env.now n db.transactions in
    stored_status r (record db { transactions = rows })

after_charged :
    {B : Type 0} (r : Result ChargeError String) (db : WalletDb)
    (f : String → Handler WalletDb (ℕ × B))
    → ((ref : String) → has_status (f ref db).0 ≡ true)
    → has_status ((Handler.charged r >>= f) db).0 ≡ true
unfolding Handler.charged ◌>>=◌
after_charged (ok ref) db f go = go ref
after_charged (err ChargeError.payment_declined) db f go = refl
after_charged (err ChargeError.caller_gone) db f go = refl

release_status :
    (env : Env) (req : ReleaseRequest) (db : WalletDb)
    → has_status (Handler.release_rows env req db).0 ≡ true
unfolding Handler.release_rows
release_status env req db =
    let (r, rows) = Store.release env.now req.order_id req.payee_id db.transactions in
    released_status r (record db { transactions = rows })

open_new_status :
    (env : Env) (req : CreateRequest) (amount : ℤ) (db : WalletDb)
    → has_status (Handler.open_new env req amount db).0 ≡ true
unfolding Handler.open_new
open_new_status env req amount db = after_charged _ db _ λ ref.
    after_raise_if db _ _ _ refl
      (after_gets db _ _ (after_raise_if db _ _ _ refl (insert_status env _ db)))

existing_status :
    (env : Env) (req : CreateRequest) (amount : ℤ) (found : Option TxRecord) (db : WalletDb)
    → has_status (Handler.answer_existing env req amount found db).0 ≡ true
unfolding Handler.answer_existing
existing_status env req amount none db = open_new_status env req amount db
existing_status env req amount (some tx) db = refl

pub create-has_status :
    (env : Env) (body : Option CreateRequest) (db : WalletDb)
    → has_status (Handler.create env body db).0 ≡ true
unfolding Handler.create
create-has_status env body db = after_option db body _ _ refl λ req.
    after_option db _ _ _ refl λ amount.
      after_raise_if db _ _ _ refl
        (after_raise_if db _ _ _ refl (after_gets db _ _ (existing_status env req amount _ db)))

pub release-has_status :
    (env : Env) (body : Option ReleaseRequest) (db : WalletDb)
    → has_status (Handler.release env body db).0 ≡ true
unfolding Handler.release
release-has_status env body db =
    after_option db body _ _ refl λ req. after_raise_if db _ _ _ refl (release_status env req db)

pub refund-has_status :
    (env : Env) (body : Option String) (db : WalletDb)
    → has_status (Handler.refund env body db).0 ≡ true
unfolding Handler.refund Handler.refund_rows
refund-has_status env body db =
    after_option db body _ _ refl λ order. after_raise_if db _ _ _ refl refl
