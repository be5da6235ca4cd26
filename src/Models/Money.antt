-- ===== src/Models/Money.antt =====
-- The transaction DTO of pkg/models/models.go, with the two columns that the wallet adds.
use yukbor_backend.Common.{String, Option}
use yukbor_backend.Models.Enums.{Time, PaymentMethod, TransactionStatus}

-- `amount` and `platform_commission` are decimal strings.
pub record Transaction : Type 0 where
  pub id : String
  pub order_id : String
  pub order_title : String
  pub payer_id : String
  pub payee_id : String
  pub amount : String
  pub platform_commission : String
  pub payment_method : PaymentMethod
  pub status : TransactionStatus
  pub created_at : Time
  pub released_at : Option Time
