-- ===== src/Svc/Client.antt =====
-- pkg/svc/client.go: the client over bytes. The network and JSON are parameters.
use Prim.Native.String
use yukbor_backend.Common.{
  ℕ, zero, suc, String, Option, none, some, Bool, [], ◌∷◌, ◌==◌, string_Eq, if◌then◌else◌, leb,
  natb,
}
use yukbor_backend.Common.Exec.{Result, ok, err}
use yukbor_backend.Httpx.Reply.{Bytes, Response, ApiError}

pub record Client : Type 0 where
  pub base : String
  pub token : String

-- A request as it is sent. The content type is always that of JSON.
pub record HttpRequest : Type 0 where
  pub method : String
  pub url : String
  pub internal_token : String
  pub body : Bytes

-- `Error`: the upstream's status, code and message.
pub record Upstream : Type 0 where
  pub status : ℕ
  pub code : String
  pub message : String

pub data ClientError : Type 0 where
  marshal_failed bad_request transport decode_failed : ClientError
  upstream : Upstream → ClientError

-- `io.LimitReader`: at most so many bytes.
unfoldable pub limit : ℕ → Bytes → Bytes
limit zero bs = []
limit (suc n) [] = []
limit (suc n) (b ∷ bs) = b ∷ limit n bs

-- `parseError`. `unmarshal` gives what the bytes put into the empty envelope, and `text` is the
-- conversion of bytes to a string.
unfoldable pub parse_error : (Bytes → ApiError) → (Bytes → String) → Response → Upstream
unfolding limit
parse_error unmarshal text resp =
    let body = limit 8192 resp.body in
    let envelope = unmarshal body in
    if envelope.code == ""
    then record { status = resp.status; code = "UPSTREAM_ERROR"; message = text body }
    else record { status = resp.status; code = envelope.code; message = envelope.message }

-- What the packages of the standard library do for a call: `marshal` of the body, `none` where it
-- fails; whether a method and a URL make a request; and the two conversions of an error's body.
pub record Stdlib (B : Type 0) : Type 0 where
  pub marshal : B → Option Bytes
  pub is_request : String → String → Bool
  pub unmarshal : Bytes → ApiError
  pub text : Bytes → String

unfoldable pub marshalled : {B : Type 0} → (B → Option Bytes) → Option B → Option Bytes
marshalled marshal none = some []
marshalled marshal (some b) = marshal b

unfoldable pub decoded : {A : Type 0} → Option A → Result ClientError (Option A)
decoded none = err ClientError.decode_failed
decoded (some a) = ok (some a)

-- `out` is how the body is decoded, `none` where `out` is nil.
unfoldable pub read_out :
    {A : Type 0} → Option (Bytes → Option A) → Response → Result ClientError (Option A)
unfolding decoded
read_out none resp = ok none
read_out (some decode) resp = if natb resp.status 204 then ok none else decoded (decode resp.body)

unfoldable pub read_response :
    {A : Type 0}
    → (Bytes → ApiError)
    → (Bytes → String)
    → Option (Bytes → Option A)
    → Option Response
    → Result ClientError (Option A)
unfolding parse_error read_out
read_response unmarshal text out none = err ClientError.transport
read_response unmarshal text out (some resp) =
    if leb 300 resp.status
    then err (ClientError.upstream (parse_error unmarshal text resp))
    else read_out out resp

-- `c.http.Do` on what the body is marshalled to.
unfoldable pub send_request :
    {W B A : Type 0}
    → (HttpRequest → W → Option Response × W)
    → Client
    → Stdlib B
    → String
    → String
    → Option (Bytes → Option A)
    → Option Bytes
    → W
    → Result ClientError (Option A) × W
unfolding read_response
send_request http c lib method path out none w = (err ClientError.marshal_failed, w)
send_request http c lib method path out (some body) w =
    let req : HttpRequest = record {
      method = method;
      url = String.◌++◌ c.base path;
      internal_token = c.token;
      body = body;
    } in
    let (resp, w') = http req w in
    if lib.is_request method (String.◌++◌ c.base path)
    then (read_response lib.unmarshal lib.text out resp, w')
    else (err ClientError.bad_request, w)

-- `Do`: `http` is the network with what stands behind it, and `none` is a failure of the transport.
unfoldable pub do_call :
    {W B A : Type 0}
    → (HttpRequest → W → Option Response × W)
    → Client
    → Stdlib B
    → String
    → String
    → Option B
    → Option (Bytes → Option A)
    → W
    → Result ClientError (Option A) × W
unfolding marshalled send_request
do_call http c lib method path body out w =
    send_request http c lib method path out (marshalled lib.marshal body) w
