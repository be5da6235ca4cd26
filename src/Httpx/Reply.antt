-- ===== src/Httpx/Reply.antt =====
-- pkg/httpx/httpx.go and errors.go: what a handler's answer is on the wire. JSON is a parameter.
use yukbor_backend.Common.{ℕ, String, false, List, ◌==◌, string_Eq, ◌≡◌, refl}
use yukbor_backend.Common.Tests.{String-discrete}
use yukbor_backend.Common.Exec.{Result, ok, err}
use yukbor_backend.Httpx.Core.{Code, Failure}

abbrev pub Bytes : Type 0
Bytes = List ℕ

-- errors.go, the constants
unfoldable pub code_text : Code → String
code_text Code.otp_invalid = "OTP_INVALID"
code_text Code.otp_expired = "OTP_EXPIRED"
code_text Code.otp_rate_limited = "OTP_RATE_LIMITED"
code_text Code.otp_not_verified = "OTP_NOT_VERIFIED"
code_text Code.phone_already_registered = "PHONE_ALREADY_REGISTERED"
code_text Code.user_not_found = "USER_NOT_FOUND"
code_text Code.invalid_credentials = "INVALID_CREDENTIALS"
code_text Code.passport_not_found = "PASSPORT_NOT_FOUND"
code_text Code.face_mismatch = "FACE_MISMATCH"
code_text Code.myid_unavailable = "MYID_SERVICE_UNAVAILABLE"
code_text Code.myid_token_invalid = "MYID_TOKEN_EXPIRED_OR_INVALID"
code_text Code.license_category_mismatch = "LICENSE_CATEGORY_MISMATCH"
code_text Code.order_not_found = "ORDER_NOT_FOUND"
code_text Code.order_not_published = "ORDER_NOT_PUBLISHED"
code_text Code.leg_already_taken = "LEG_ALREADY_TAKEN"
code_text Code.leg_not_found = "LEG_NOT_FOUND"
code_text Code.invalid_status_transition = "INVALID_STATUS_TRANSITION"
code_text Code.order_not_ready = "ORDER_NOT_READY"
code_text Code.order_not_cancellable = "ORDER_NOT_CANCELLABLE"
code_text Code.payment_declined = "PAYMENT_DECLINED"
code_text Code.transaction_not_found = "TRANSACTION_NOT_FOUND"
code_text Code.review_already_exists = "REVIEW_ALREADY_EXISTS"
code_text Code.order_not_completed = "ORDER_NOT_COMPLETED"
code_text Code.bad_request = "BAD_REQUEST"
code_text Code.validation = "VALIDATION_ERROR"
code_text Code.unauthorized = "UNAUTHORIZED"
code_text Code.forbidden = "FORBIDDEN"
code_text Code.not_found = "NOT_FOUND"
code_text Code.internal = "INTERNAL_ERROR"

pub record Response : Type 0 where
  pub status : ℕ
  pub body : Bytes

-- `APIError`
pub record ApiError : Type 0 where
  pub code : String
  pub message : String

-- `WriteJSON`, of a value that is not nil; `encode` is what the encoder writes.
unfoldable pub write_json : {A : Type 0} → (A → Bytes) → ℕ → A → Response
write_json encode status v = record { status = status; body = encode v }

-- `WriteError`
unfoldable pub write_error : (ApiError → Bytes) → ℕ → String → String → Response
unfolding write_json
write_error encode status code message =
    write_json encode status (record { code = code; message = message })

-- What a handler has written when it has ended; `message` is its text for people.
unfoldable pub replied :
    {A : Type 0}
    → (A → Bytes)
    → (ApiError → Bytes)
    → (Failure → String)
    → Result Failure (ℕ × A)
    → Response
unfolding write_json write_error code_text
replied encode encode_error message (ok (status, a)) = write_json encode status a
replied encode encode_error message (err f) =
    write_error encode_error f.status (code_text f.code) (message f)

-- No code is the empty text, which stands for an error without a code.
pub code_text-not_empty : (c : Code) → (code_text c == "") ≡ false
unfolding code_text String-discrete
code_text-not_empty Code.otp_invalid = refl
code_text-not_empty Code.otp_expired = refl
code_text-not_empty Code.otp_rate_limited = refl
code_text-not_empty Code.otp_not_verified = refl
code_text-not_empty Code.phone_already_registered = refl
code_text-not_empty Code.user_not_found = refl
code_text-not_empty Code.invalid_credentials = refl
code_text-not_empty Code.passport_not_found = refl
code_text-not_empty Code.face_mismatch = refl
code_text-not_empty Code.myid_unavailable = refl
code_text-not_empty Code.myid_token_invalid = refl
code_text-not_empty Code.license_category_mismatch = refl
code_text-not_empty Code.order_not_found = refl
code_text-not_empty Code.order_not_published = refl
code_text-not_empty Code.leg_already_taken = refl
code_text-not_empty Code.leg_not_found = refl
code_text-not_empty Code.invalid_status_transition = refl
code_text-not_empty Code.order_not_ready = refl
code_text-not_empty Code.order_not_cancellable = refl
code_text-not_empty Code.payment_declined = refl
code_text-not_empty Code.transaction_not_found = refl
code_text-not_empty Code.review_already_exists = refl
code_text-not_empty Code.order_not_completed = refl
code_text-not_empty Code.bad_request = refl
code_text-not_empty Code.validation = refl
code_text-not_empty Code.unauthorized = refl
code_text-not_empty Code.forbidden = refl
code_text-not_empty Code.not_found = refl
code_text-not_empty Code.internal = refl
