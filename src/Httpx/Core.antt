-- ===== src/Httpx/Core.antt =====
-- pkg/httpx: error codes and the type of a handler.
use yukbor_backend.Common.{ℕ}
use yukbor_backend.Common.Exec.{Exec, raise}

-- errors.go
pub data Code : Type 0 where
  otp_invalid otp_expired otp_rate_limited otp_not_verified phone_already_registered : Code
  user_not_found invalid_credentials : Code
  passport_not_found face_mismatch myid_unavailable myid_token_invalid : Code
  license_category_mismatch : Code
  order_not_found order_not_published leg_already_taken leg_not_found : Code
  invalid_status_transition order_not_ready order_not_cancellable : Code
  payment_declined transaction_not_found : Code
  review_already_exists order_not_completed : Code
  bad_request validation unauthorized forbidden not_found internal : Code

-- `WriteError`: the HTTP status and the contract code. The message for people is left out.
pub record Failure : Type 0 where
  pub status : ℕ
  pub code : Code

abbrev pub failure : ℕ → Code → Failure
failure s c = record { status = s; code = c }

abbrev pub Handler : Type 0 → Type 0 → Type 0
Handler S A = Exec S Failure A

-- `h.fail(w, op, err)`
abbrev pub fail : {S A : Type 0} → Handler S A
fail = raise (failure 500 Code.internal)
