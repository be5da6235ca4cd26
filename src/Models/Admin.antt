-- ===== src/Models/Admin.antt =====
-- pkg/models/admin.go: what the orders service reads of a user.
use yukbor_backend.Common.{ℕ, String, Bool, List, Option, contains, string_Eq}
use yukbor_backend.Models.Enums.{UserRole, VerificationStatus, Time}

-- Hundredths, as a NUMERIC(3,2) column holds them.
abbrev pub Rating : Type 0
Rating = ℕ

pub record User : Type 0 where
  pub id : String
  pub role : UserRole
  pub full_name : String
  pub phone_number : String
  pub email : Option String
  pub is_verified : Bool
  pub verification_status : VerificationStatus
  pub rating : Rating
  pub ratings_count : ℕ

pub record UserDetail : Type 0 where
  pub user : User
  pub created_at : Time
  pub license_number : Option String
  pub license_categories : List String
  pub vehicle_plate : Option String
  pub rejection_reason : Option String

unfoldable pub has_category : UserDetail → String → Bool
has_category u category = contains category u.license_categories
