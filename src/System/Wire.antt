-- ===== src/System/Wire.antt =====
-- pkg/svc/client.go and pkg/httpx: a call over bytes, from the client's body to the handler and back.
use Prim.Native.String
use yukbor_backend.Common.{
  ℕ, zero, suc, ◌≤◌, ◌<◌, String, Option, none, some, true, false, [], ◌∷◌, ◌==◌, ◌≡◌, ◌≢◌, refl,
  ap, arith, length, string_Eq,
}
use yukbor_backend.Common.Tests.{==_refl}
use yukbor_backend.Common.Exec.{Result, ok, err}
use yukbor_backend.Httpx.{Failure, Handler}
use yukbor_backend.Httpx.Guards.{authed_or_internal, internal_only}
use yukbor_backend.Httpx.Mux.{Guard, guarded}
use yukbor_backend.Httpx.Reply.{
  Bytes, Response, ApiError, code_text, code_text-not_empty, replied, write_json, write_error,
}
use yukbor_backend.Svc.{CallError}
use yukbor_backend.Svc.Client.{
  Client, HttpRequest, ClientError, Stdlib, do_call, send_request, marshalled, read_response,
  read_out, decoded, parse_error, limit,
}
use yukbor_backend.System.{Delivery, answer, call, map_ok}
use yukbor_backend.Wallet.Store.{WalletDb}

-- JSON on both sides of the wire: the body `B`, the answer `A` of the handler, and the caller's type
-- `V`.
pub record Wire (B A V : Type 0) : Type 0 where
  pub stdlib : Stdlib B
  pub decode_body : Bytes → Option B
  pub encode : A → Bytes
  pub decode : Bytes → Option V
  pub encode_error : ApiError → Bytes

abbrev pub shown : (Failure → String) → Failure → ApiError
shown message f = record { code = code_text f.code; message = message f }

-- What is written of a body on one side is read on the other, of an answer what `see` keeps of it is
-- read, and so is an error, which is short.
pub record IsFaithful {B A V : Type 0} (w : Wire B A V) (see : A → V) (message : Failure → String)
    (b : B) (r : Result Failure (ℕ × A)) : Type 0 where
  pub body_read : (bs : Bytes) → w.stdlib.marshal b ≡ some bs → w.decode_body bs ≡ some b
  pub value_read : (status : ℕ) (a : A) → r ≡ ok (status, a) → w.decode (w.encode a) ≡ some (see a)
  pub error_read :
      (f : Failure)
      → r ≡ err f
      → w.stdlib.unmarshal (w.encode_error (shown message f)) ≡ shown message f
  pub error_short : (f : Failure) → r ≡ err f → length (w.encode_error (shown message f)) ≤ 8192

-- A route of a service: the guard, and the handler on the body as it decodes.
unfoldable pub route_handler :
    {B A V S : Type 0}
    → Wire B A V
    → Guard
    → String
    → (Failure → String)
    → (Option B → Handler S (ℕ × A))
    → HttpRequest
    → S
    → Response × S
unfolding guarded replied
route_handler w guard token message handle req s =
    let (r, s') =
      guarded guard none token req.internal_token (λ _. handle (w.decode_body req.body)) s in
    (replied w.encode w.encode_error message r, s')

-- The network before a service.
unfoldable pub network :
    {S : Type 0}
    → Delivery
    → (HttpRequest → S → Response × S)
    → HttpRequest
    → S
    → Option Response × S
network Delivery.delivered service req s = let (r, s') = service req s in (some r, s')
network Delivery.request_lost service req s = (none, s)
network Delivery.reply_lost service req s = let (r, s') = service req s in (none, s')

-- What the caller of the client learns from the error of a call.
abbrev pub as_error : (Failure → String) → CallError → ClientError
as_error message (CallError.upstream f) =
    ClientError.upstream
      (record { status = f.status; code = code_text f.code; message = message f })
as_error message CallError.transport = ClientError.transport

abbrev pub as_result :
    {A : Type 0} → (Failure → String) → Result CallError A → Result ClientError (Option A)
as_result message (ok a) = ok (some a)
as_result message (err e) = err (as_error message e)

-- A positive answer has a status below 300 and a body, and a refusal a status from 300.
abbrev pub HasStatus : {A : Type 0} → Result Failure (ℕ × A) → Type 0
HasStatus (ok (status, a)) = (status < 300) × (status ≢ 204)
HasStatus (err f) = 300 ≤ f.status

limit_all : (n : ℕ) (bs : Bytes) → length bs ≤ n → limit n bs ≡ bs
unfolding limit
limit_all zero [] h = refl
limit_all zero (b ∷ bs) h = absurd (omega (arith, h))
limit_all (suc n) [] h = refl
limit_all (suc n) (b ∷ bs) h = ap (λ cs. b ∷ cs) (limit_all n bs (omega (arith, h)))

-- An error goes through the client as it was written.
parse-written :
    {B A V : Type 0} (w : Wire B A V) (message : Failure → String) (f : Failure)
    → w.stdlib.unmarshal (w.encode_error (shown message f)) ≡ shown message f
    → length (w.encode_error (shown message f)) ≤ 8192
    → parse_error w.stdlib.unmarshal w.stdlib.text
        (write_error w.encode_error f.status (code_text f.code) (message f))
      ≡ record { status = f.status; code = code_text f.code; message = message f }
unfolding parse_error write_error write_json
parse-written w message f reads short =
    rw (limit_all 8192 _ short, reads, code_text-not_empty f.code) refl

read-replied :
    {B A V : Type 0} (w : Wire B A V) (see : A → V) (message : Failure → String) (b : B)
    (r : Result Failure (ℕ × A))
    → IsFaithful w see message b r
    → HasStatus r
    → read_response w.stdlib.unmarshal w.stdlib.text
        (some w.decode)
        (some (replied w.encode w.encode_error message r))
      ≡ as_result message (map_ok see (answer r))
unfolding read_response replied answer read_out write_json decoded
read-replied w see message b (ok (status, a)) faithful h =
    ground (arith, faithful.value_read status a refl, h.0, h.1)
read-replied w see message b (err f) faithful h =
    ground (
      arith,
      parse-written w message f (faithful.error_read f refl) (faithful.error_short f refl),
      h,
    )

-- The body of a call is there to be sent, and the method and the URL make a request.
pub record CanSend {B A V : Type 0} (w : Wire B A V) (c : Client) (method path : String) (b : B)
    : Type 0 where
  pub bytes : Bytes
  pub marshals : w.stdlib.marshal b ≡ some bytes
  pub requests : w.stdlib.is_request method (String.◌++◌ c.base path) ≡ true

-- Whether a guard lets a request with the service's own token through.
abbrev pub OpensTo : String → Guard → Type 0
OpensTo token Guard.unguarded = Unit
OpensTo token Guard.token_or_internal = (token == "") ≡ false
OpensTo token Guard.by_internal = (token == "") ≡ false
OpensTo token Guard.by_token = ⊥
OpensTo token (Guard.by_role roles) = ⊥

guarded-opens :
    {S A : Type 0} (token : String) (guard : Guard) (next : Handler S A) (s : S)
    → OpensTo token guard
    → guarded guard none token token (λ _. next) s ≡ next s
unfolding guarded authed_or_internal internal_only
guarded-opens token Guard.unguarded next s h = refl
guarded-opens token Guard.token_or_internal next s h = rw (h, ==_refl token) refl
guarded-opens token Guard.by_internal next s h = rw (h, ==_refl token) refl
guarded-opens token Guard.by_token next s h = absurd h
guarded-opens token (Guard.by_role roles) next s h = absurd h

module _ {B A V : Type 0} (w : Wire B A V) (see : A → V) (message : Failure → String)
    (guard : Guard) (c : Client) (opens : OpensTo c.token guard) where
  -- A call of the service of pkg/svc over bytes is the call of the model.
  pub do_call-call :
      (way : Delivery) (method path : String) (b : B) (handle : Option B → Handler WalletDb (ℕ × A))
      (db : WalletDb)
      → CanSend w c method path b
      → HasStatus (handle (some b) db).0
      → IsFaithful w see message b (handle (some b) db).0
      → do_call
          (network way (route_handler w guard c.token message handle))
          c
          w.stdlib
          method
          path
          (some b)
          (some w.decode)
          db
        ≡ (
          as_result message (map_ok see (call way (handle (some b)) db).0),
          (call way (handle (some b)) db).1,
        )
  unfolding do_call marshalled send_request network route_handler call
  do_call-call Delivery.request_lost method path b handle db can h faithful =
      rw (can.marshals, can.requests, read_response) refl
  do_call-call Delivery.reply_lost method path b handle db can h faithful =
      rw
        (
          can.marshals,
          can.requests,
          faithful.body_read can.bytes can.marshals,
          guarded-opens c.token guard (handle (some b)) db opens,
          read_response,
        )
        refl
  do_call-call Delivery.delivered method path b handle db can h faithful =
      rw
        (
          can.marshals,
          can.requests,
          faithful.body_read can.bytes can.marshals,
          guarded-opens c.token guard (handle (some b)) db opens,
          read-replied w see message b (handle (some b) db).0 faithful h,
        )
        refl
