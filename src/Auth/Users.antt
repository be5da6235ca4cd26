-- ===== src/Auth/Users.antt =====
-- internal/auth/store.go over the table auth.users (migrations 0001, 0006 and 0007).
pub mod Accounts
use mathlib.Core.Option
use yukbor_backend.Common.{
  ℕ, String, Option, none, some, Bool, true, false, ◌||◌, List, [], ◌∷◌, ◌++◌, ◌==◌, string_Eq,
  if◌then◌else◌, leb, length,
}
use yukbor_backend.Common.Table.{select, query_row, update_where, order_by, first}
use yukbor_backend.Common.Exec.{Result, ok, err}
use yukbor_backend.Models.Enums.{
  Time, UserRole, VerificationStatus, user_role_Eq, verification_status_Eq, user_role_text,
}
use yukbor_backend.Models.Admin.{User, Rating}

-- A row of auth.users. The identity columns never leave the service.
pub record UserRecord : Type 0 where
  pub user : User
  pub pinfl : Option String
  pub passport_series : Option String
  pub passport_number : Option String
  pub birth_date : Option Time
  pub license_number : Option String
  pub license_categories : List String
  pub vehicle_plate : Option String
  pub rejection_reason : Option String
  pub created_at : Time
  pub updated_at : Time

pub record NewUser : Type 0 where
  pub role : UserRole
  pub full_name : String
  pub phone_number : String
  pub verification_status : VerificationStatus
  pub rejection_reason : Option String
  pub pinfl : String
  pub passport_series : String
  pub passport_number : String
  pub birth_date : Option Time
  pub license_number : Option String
  pub license_categories : List String
  pub vehicle_plate : Option String

pub data UserError : Type 0 where
  phone_taken not_found out_of_range : UserError

abbrev pub has_id : String → UserRecord → Bool
has_id id u = u.user.id == id

abbrev pub has_phone : String → UserRecord → Bool
has_phone phone u = u.user.phone_number == phone

-- `UserByID` and `UserByPhone`; `none` is `db.ErrNotFound`.
unfoldable pub user_by_id : String → List UserRecord → Option UserRecord
user_by_id id rows = query_row (has_id id) rows

unfoldable pub user_by_phone : String → List UserRecord → Option UserRecord
user_by_phone phone rows = query_row (has_phone phone) rows

abbrev pub is_approved : VerificationStatus → Bool
is_approved status = status == VerificationStatus.approved

abbrev pub is_rejected : UserRecord → Bool
is_rejected u = u.user.verification_status == VerificationStatus.rejected

-- The row that the INSERT writes.
unfoldable pub new_record : String → Time → NewUser → UserRecord
new_record id now n = record {
  user = record {
    id = id;
    role = n.role;
    full_name = n.full_name;
    phone_number = n.phone_number;
    email = none;
    is_verified = is_approved n.verification_status;
    verification_status = n.verification_status;
    rating = 0;
    ratings_count = 0;
  };
  pinfl = some n.pinfl;
  passport_series = some n.passport_series;
  passport_number = some n.passport_number;
  birth_date = n.birth_date;
  license_number = n.license_number;
  license_categories = n.license_categories;
  vehicle_plate = n.vehicle_plate;
  rejection_reason = n.rejection_reason;
  created_at = now;
  updated_at = now;
}

-- The UPDATE of a rejected applicant: the phone, the e-mail and the rating stay.
unfoldable pub overwritten : Time → NewUser → UserRecord → UserRecord
overwritten now n u = record {
  user = record u.user {
    role = n.role;
    full_name = n.full_name;
    is_verified = is_approved n.verification_status;
    verification_status = n.verification_status;
  };
  pinfl = some n.pinfl;
  passport_series = some n.passport_series;
  passport_number = some n.passport_number;
  birth_date = n.birth_date;
  license_number = n.license_number;
  license_categories = n.license_categories;
  vehicle_plate = n.vehicle_plate;
  rejection_reason = n.rejection_reason;
  created_at = u.created_at;
  updated_at = now;
}

unfoldable pub place :
    String
    → Time
    → NewUser
    → Option UserRecord
    → List UserRecord
    → Result UserError UserRecord × List UserRecord
unfolding new_record overwritten
place id now n none rows = (ok (new_record id now n), rows ++ new_record id now n ∷ [])
place id now n (some u) rows =
    if is_rejected u
    then (ok (overwritten now n u), update_where (has_id u.user.id) (overwritten now n) rows)
    else (err UserError.phone_taken, rows)

-- `CreateUser`: `id` is drawn by the database.
unfoldable pub create_user :
    String → Time → NewUser → List UserRecord → Result UserError UserRecord × List UserRecord
unfolding place user_by_phone
create_user id now n rows = place id now n (user_by_phone n.phone_number rows) rows

unfoldable pub or_not_found : Option UserRecord → Result UserError UserRecord
or_not_found none = err UserError.not_found
or_not_found (some u) = ok u

-- `UPDATE auth.users SET f WHERE id = $1 RETURNING …`
unfoldable pub update_user :
    (UserRecord → UserRecord)
    → String
    → List UserRecord
    → Result UserError UserRecord × List UserRecord
unfolding or_not_found
update_user f id rows =
    (or_not_found (Option.map f (query_row (has_id id) rows)), update_where (has_id id) f rows)

abbrev coalesce : {A : Type 0} → Option A → A → A
coalesce none a = a
coalesce (some b) a = b

abbrev pub or_else : {A : Type 0} → Option A → Option A → Option A
or_else none o = o
or_else (some b) o = some b

unfoldable pub with_profile : Time → Option String → Option String → UserRecord → UserRecord
with_profile now full_name email u = record u {
  user = record u.user {
    full_name = coalesce full_name u.user.full_name;
    email = or_else email u.user.email;
  };
  updated_at = now;
}

unfoldable pub with_status : Time → VerificationStatus → Option String → UserRecord → UserRecord
with_status now status reason u = record u {
  user = record u.user { verification_status = status; is_verified = is_approved status };
  rejection_reason = reason;
  updated_at = now;
}

unfoldable pub with_rating : Time → Rating → ℕ → UserRecord → UserRecord
with_rating now rating count u = record u {
  user = record u.user { rating = rating; ratings_count = count };
  updated_at = now;
}

-- `UpdateProfile`
unfoldable pub update_profile :
    Time
    → String
    → Option String
    → Option String
    → List UserRecord
    → Result UserError UserRecord × List UserRecord
unfolding update_user with_profile
update_profile now id full_name email rows = update_user (with_profile now full_name email) id rows

-- `SetVerification`
unfoldable pub set_verification :
    Time
    → String
    → VerificationStatus
    → Option String
    → List UserRecord
    → Result UserError UserRecord × List UserRecord
unfolding update_user with_status
set_verification now id status reason rows = update_user (with_status now status reason) id rows

unfoldable pub rated :
    Time
    → Rating
    → ℕ
    → String
    → Option UserRecord
    → List UserRecord
    → Result UserError UserRecord × List UserRecord
unfolding update_user with_rating
rated now rating count id none rows = (err UserError.not_found, rows)
rated now rating count id (some u) rows =
    if leb 1000 rating
    then (err UserError.out_of_range, rows)
    else update_user (with_rating now rating count) id rows

-- `SetRating`: a rating of 10 or more does not fit NUMERIC(3,2).
unfoldable pub set_rating :
    Time → String → Rating → ℕ → List UserRecord → Result UserError UserRecord × List UserRecord
unfolding rated
set_rating now id rating count rows = rated now rating count id (query_row (has_id id) rows) rows

abbrev pub newer : UserRecord → UserRecord → Bool
newer u v = leb v.created_at u.created_at

abbrev pub older : UserRecord → UserRecord → Bool
older u v = leb u.created_at v.created_at

-- `ListUsers`
unfoldable pub list_users : String → List UserRecord → List UserRecord
list_users role rows =
    order_by newer (select (λ u. role == "" || user_role_text u.user.role == role) rows)

abbrev pub is_admin : UserRecord → Bool
is_admin u = u.user.role == UserRole.admin

unfoldable pub new_admin : String → Time → String → String → UserRecord
new_admin id now phone full_name = record {
  user = record {
    id = id;
    role = UserRole.admin;
    full_name = full_name;
    phone_number = phone;
    email = none;
    is_verified = true;
    verification_status = VerificationStatus.approved;
    rating = 0;
    ratings_count = 0;
  };
  pinfl = none;
  passport_series = none;
  passport_number = none;
  birth_date = none;
  license_number = none;
  license_categories = [];
  vehicle_plate = none;
  rejection_reason = none;
  created_at = now;
  updated_at = now;
}

abbrev pub as_admin : UserRecord → UserRecord
as_admin u = record u { user = record u.user { role = UserRole.admin } }

-- `INSERT … ON CONFLICT (phone_number) DO UPDATE SET role = 'admin'`
unfoldable pub upsert_admin :
    UserRecord → Option UserRecord → List UserRecord → UserRecord × List UserRecord
upsert_admin fresh none rows = (fresh, rows ++ fresh ∷ [])
upsert_admin fresh (some u) rows =
    (as_admin u, update_where (has_phone fresh.user.phone_number) as_admin rows)

unfoldable pub resolve_admin :
    UserRecord → Option UserRecord → List UserRecord → UserRecord × List UserRecord
unfolding upsert_admin
resolve_admin fresh (some u) rows = (u, rows)
resolve_admin fresh none rows =
    upsert_admin fresh (query_row (has_phone fresh.user.phone_number) rows) rows

-- The first query of `AdminAccount`
unfoldable pub oldest_admin : List UserRecord → Option UserRecord
oldest_admin rows = first (order_by older (select is_admin rows))

-- Whether that query finds a row
unfoldable pub has_admin : List UserRecord → Bool
unfolding oldest_admin
has_admin rows = elim (oldest_admin rows) [ none ↦ false | some _ ↦ true ]

-- `AdminAccount`: the oldest administrator, or a new one.
unfoldable pub admin_account :
    String → Time → String → String → List UserRecord → UserRecord × List UserRecord
unfolding resolve_admin new_admin oldest_admin
admin_account id now phone full_name rows =
    resolve_admin (new_admin id now phone full_name) (oldest_admin rows) rows

-- `CountUsers`
unfoldable pub count_users : List UserRecord → ℕ
count_users rows = length rows
