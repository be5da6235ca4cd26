-- ===== src/System/Calls.antt =====
-- The calls that orders makes of the wallet, over bytes: pkg/svc/client.go, the routes of
-- internal/wallet/handler.go, and its handlers.
use yukbor_backend.Common.{
  map, ℕ, String, Option, none, some, true, false, List, [], ◌∷◌, ◌==◌, ◌≡◌, ap, subst, arith,
  string_Eq,
}
use yukbor_backend.Common.Tests.{String-discrete}
use yukbor_backend.Common.Exec.{Result, ok, err}
use yukbor_backend.Httpx.{Failure, Handler}
use yukbor_backend.Httpx.Mux.{Guard, Route, find}
use yukbor_backend.Models.Money.{Transaction}
use yukbor_backend.Svc.Client.{Client, do_call}
use yukbor_backend.System.{Delivery, call, map_ok, decoded_tx}
use yukbor_backend.System.Wire.{
  Wire, IsFaithful, CanSend, HasStatus, OpensTo, route_handler, network, as_result, do_call-call,
}
use yukbor_backend.Routes.{Endpoint, Request, route_of, Service}
use yukbor_backend.Wallet.Store.{WalletDb, TxRecord}
use yukbor_backend.Wallet.Handler
use yukbor_backend.Wallet.Handler.{Env, CreateRequest, ReleaseRequest}
use yukbor_backend.Wallet.Statuses.{
  has_status, create-has_status, release-has_status, refund-has_status,
}

HasStatus-has_status : {A : Type 0} (r : Result Failure (ℕ × A)) → has_status r ≡ true → HasStatus r
HasStatus-has_status (ok (status, a)) h = (ground arith, λ e. ground arith)
HasStatus-has_status (err f) h = ground arith

-- The three calls: the type of the body and of the value, the path, its parts, and the handler.
pub data Kind : Type 0 where
  opening releasing refunding : Kind

abbrev pub BodyOf : Kind → Type 0
BodyOf Kind.opening = CreateRequest
BodyOf Kind.releasing = ReleaseRequest
BodyOf Kind.refunding = String

abbrev pub ValueOf : Kind → Type 0
ValueOf Kind.opening = TxRecord
ValueOf Kind.releasing = TxRecord
ValueOf Kind.refunding = List TxRecord

-- The type that orders decodes the answer into, and what it keeps of the answer.
abbrev pub SeenOf : Kind → Type 0
SeenOf Kind.opening = Transaction
SeenOf Kind.releasing = Transaction
SeenOf Kind.refunding = List Transaction

abbrev pub see : (k : Kind) → ValueOf k → SeenOf k
see Kind.opening = decoded_tx
see Kind.releasing = decoded_tx
see Kind.refunding = map decoded_tx

abbrev pub path_of : Kind → String
path_of Kind.opening = "/wallet/transactions"
path_of Kind.releasing = "/wallet/transactions/release"
path_of Kind.refunding = "/internal/transactions/refund"

abbrev pub request_of : Kind → String → Request
request_of k token = record {
  method = "POST";
  parts = elim k [
    | Kind.opening ↦ "wallet" ∷ "transactions" ∷ []
    | Kind.releasing ↦ "wallet" ∷ "transactions" ∷ "release" ∷ []
    | Kind.refunding ↦ "internal" ∷ "transactions" ∷ "refund" ∷ []
  ];
  bearer = none;
  header = token;
}

abbrev pub handler_of : (k : Kind) → Env → Option (BodyOf k) → Handler WalletDb (ℕ × ValueOf k)
handler_of Kind.opening env = Handler.create env
handler_of Kind.releasing env = Handler.release env
handler_of Kind.refunding env = Handler.refund env

handler_of-has_status :
    (k : Kind) (env : Env) (b : BodyOf k) (db : WalletDb)
    → has_status (handler_of k env (some b) db).0 ≡ true
handler_of-has_status Kind.opening env b db = create-has_status env (some b) db
handler_of-has_status Kind.releasing env b db = release-has_status env (some b) db
handler_of-has_status Kind.refunding env b db = refund-has_status env (some b) db

guard_or : Guard → Option (Route Endpoint) → Guard
guard_or g none = g
guard_or g (some r) = r.guard

same_guard :
    (g : Guard) (o : Option (Route Endpoint)) (r : Route Endpoint)
    → o ≡ some r
    → guard_or g o ≡ r.guard
unfolding guard_or
same_guard g o r h = ap (guard_or g) h

-- The guard of the route lets the token in.
route-OpensTo :
    (k : Kind) (token : String) (r : Route Endpoint)
    → (token == "") ≡ false
    → route_of Service.wallet (request_of k token) ≡ some r
    → OpensTo token r.guard
unfolding route_of find guard_or String-discrete
route-OpensTo Kind.opening token r h found =
    subst (OpensTo token)
      (same_guard Guard.unguarded (route_of Service.wallet (request_of Kind.opening token)) r found)
      h
route-OpensTo Kind.releasing token r h found =
    subst (OpensTo token)
      (same_guard Guard.unguarded (route_of Service.wallet (request_of Kind.releasing token)) r
        found)
      h
route-OpensTo Kind.refunding token r h found =
    subst (OpensTo token)
      (same_guard Guard.unguarded (route_of Service.wallet (request_of Kind.refunding token)) r
        found)
      h

module _ (k : Kind) (env : Env) (c : Client) (message : Failure → String)
    (w : Wire (BodyOf k) (ValueOf k) (SeenOf k)) where
  -- What orders asks of the wallet over the network is what the model of the two services says: the
  -- internal token opens the three routes; a positive answer comes back, less the reference of the
  -- provider and the date of the refund, which orders does not read; a refusal comes back with its
  -- status, its code and its text; and a lost request or reply is an error of the transport. JSON
  -- reads what it wrote of this body and of these parts of this answer, an error takes up at most
  -- 8192 bytes, the body and the URL make a request, the token is not the empty one, and `r` is the
  -- route that the wallet has for the call.
  pub calls_are_carried :
      (way : Delivery) (b : BodyOf k) (db : WalletDb) (r : Route Endpoint)
      → (c.token == "") ≡ false
      → IsFaithful w (see k) message b (handler_of k env (some b) db).0
      → CanSend w c "POST" (path_of k) b
      → route_of Service.wallet (request_of k c.token) ≡ some r
      → do_call
          (network way (route_handler w r.guard c.token message (handler_of k env)))
          c
          w.stdlib
          "POST"
          (path_of k)
          (some b)
          (some w.decode)
          db
        ≡ (
          as_result message (map_ok (see k) (call way (handler_of k env (some b)) db).0),
          (call way (handler_of k env (some b)) db).1,
        )
  calls_are_carried way b db r token faithful can found =
      do_call-call w (see k) message r.guard c (route-OpensTo k c.token r token found) way "POST"
        (path_of k) b (handler_of k env) db can
        (HasStatus-has_status _ (handler_of-has_status k env b db)) faithful
