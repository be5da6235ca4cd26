-- ===== src/Auth/Users/Accounts.antt =====
-- internal/auth/store.go over auth.users: what every statement keeps true of the table.
use yukbor_backend.Common.{
  ℕ, ◌+◌, ◌≤◌, String, Option, none, some, Bool, true, false, List, [], ◌∷◌, ◌++◌, ◌==◌, string_Eq,
  if◌then◌else◌, ◌≡◌, refl, arith, subst, ap, eq_of_==, Bool-cases, inl, inr, leb,
}
use yukbor_backend.Common.Table.{query_row, update_where, count_where, count_where-update_where}
use yukbor_backend.Models.Enums.{
  VerificationStatus-discrete, Time, VerificationStatus, verification_status_Eq,
}
use yukbor_backend.Models.Admin.{Rating}
use yukbor_backend.Auth.Users
use yukbor_backend.Auth.Users.{
  UserRecord, NewUser, has_id, has_phone, is_approved, user_by_phone, is_rejected,
}

-- A row that says of its owner that he is verified when his status is not approved, or the reverse.
abbrev pub is_torn : UserRecord → Bool
is_torn u =
    if u.user.is_verified
    then (if is_approved u.user.verification_status then false else true)
    else is_approved u.user.verification_status

-- A phone number has one account at most, and each account is verified exactly if its status is
-- approved.
pub record Sound (rows : List UserRecord) : Type 0 where
  pub phones : (phone : String) → count_where (has_phone phone) rows ≤ 1
  pub whole : count_where is_torn rows ≡ 0

count_where-append :
    (p : UserRecord → Bool) (rs : List UserRecord) (r : UserRecord)
    → count_where p (rs ++ r ∷ []) ≡ count_where p rs + (if p r then 1 else 0)
count_where-append p [] r = omega arith
count_where-append p (q ∷ rs) r = omega (arith, count_where-append p rs r)

count_where-none :
    (p : UserRecord → Bool) (rs : List UserRecord) → query_row p rs ≡ none → count_where p rs ≡ 0
count_where-none p [] h = refl
count_where-none p (r ∷ rs) h = ground (arith, count_where-none p rs)

phones_after :
    (r : UserRecord) (rows : List UserRecord) (phone : String)
    → query_row (has_phone r.user.phone_number) rows ≡ none
    → count_where (has_phone phone) rows ≤ 1
    → count_where (has_phone phone) (rows ++ r ∷ []) ≤ 1
phones_after r rows phone free h = elim (Bool-cases (r.user.phone_number == phone)) [
  | inl same ↦
      let none_yet = count_where-none (has_phone phone) rows (
        subst (λ q. query_row (has_phone q) rows ≡ none) (eq_of_== r.user.phone_number phone same)
          free) in
      ground (arith, count_where-append (has_phone phone) rows r, none_yet)
  | inr other ↦ ground (arith, count_where-append (has_phone phone) rows r)
]

-- An INSERT of a row whose phone has no account yet.
insert-Sound :
    (r : UserRecord) (rows : List UserRecord)
    → is_torn r ≡ false
    → query_row (has_phone r.user.phone_number) rows ≡ none
    → Sound rows
    → Sound (rows ++ r ∷ [])
insert-Sound r rows whole free s = record {
  phones = λ phone. phones_after r rows phone free (s.phones phone);
  whole = ground (arith, count_where-append is_torn rows r, s.whole, whole);
}

whole_after :
    (q : UserRecord → Bool) (f : UserRecord → UserRecord) (rows : List UserRecord)
    → ((u : UserRecord) → is_torn u ≡ false → is_torn (f u) ≡ false)
    → count_where is_torn rows ≡ 0
    → count_where is_torn (update_where q f rows) ≡ 0
whole_after q f [] whole h = refl
whole_after q f (r ∷ rows) whole h = ground (arith, whole r, whole_after q f rows whole)

-- An UPDATE that leaves the phones alone and tears no row.
update-Sound :
    (q : UserRecord → Bool) (f : UserRecord → UserRecord) (rows : List UserRecord)
    → ((u : UserRecord) → (f u).user.phone_number ≡ u.user.phone_number)
    → ((u : UserRecord) → is_torn u ≡ false → is_torn (f u) ≡ false)
    → Sound rows
    → Sound (update_where q f rows)
update-Sound q f rows phone whole s = record {
  phones = λ number. omega (
    arith,
    s.phones number,
    count_where-update_where (has_phone number) q f rows (λ u. ap (λ x. x == number) (phone u)),
  );
  whole = whole_after q f rows whole s.whole;
}

written-whole :
    (status : VerificationStatus)
    → (if is_approved status
        then (if is_approved status then false else true)
        else is_approved status)
      ≡ false
written-whole status = ground arith

place-Sound :
    (id : String) (now : Time) (n : NewUser) (o : Option UserRecord) (rows : List UserRecord)
    → query_row (has_phone n.phone_number) rows ≡ o
    → Sound rows
    → Sound (Users.place id now n o rows).1
unfolding Users.place Users.new_record Users.overwritten
place-Sound id now n none rows h s = insert-Sound _ rows (written-whole n.verification_status) h s
place-Sound id now n (some u) rows h s = elim (Bool-cases (is_rejected u)) [
  | inl yes_ ↦ rw yes_ (
      update-Sound (has_id u.user.id) (Users.overwritten now n) rows (λ v. refl)
        (λ v _. written-whole n.verification_status) s)
  | inr no_ ↦ rw no_ s
]

pub create_user-Sound :
    (id : String) (now : Time) (n : NewUser) (rows : List UserRecord)
    → Sound rows
    → Sound (Users.create_user id now n rows).1
unfolding Users.create_user Users.user_by_phone
create_user-Sound id now n rows s = place-Sound id now n _ rows refl s

pub update_profile-Sound :
    (now : Time) (id : String) (full_name email : Option String) (rows : List UserRecord)
    → Sound rows
    → Sound (Users.update_profile now id full_name email rows).1
unfolding Users.update_profile Users.update_user Users.with_profile
update_profile-Sound now id full_name email rows s =
    update-Sound (has_id id) (Users.with_profile now full_name email) rows (λ u. refl) (λ u h. h) s

pub set_verification-Sound :
    (now : Time) (id : String) (status : VerificationStatus) (reason : Option String)
    (rows : List UserRecord)
    → Sound rows
    → Sound (Users.set_verification now id status reason rows).1
unfolding Users.set_verification Users.update_user Users.with_status
set_verification-Sound now id status reason rows s =
    update-Sound (has_id id) (Users.with_status now status reason) rows (λ u. refl)
      (λ u _. written-whole status) s

rated-Sound :
    (now : Time) (rating : Rating) (count : ℕ) (id : String) (o : Option UserRecord)
    (rows : List UserRecord)
    → Sound rows
    → Sound (Users.rated now rating count id o rows).1
unfolding Users.rated Users.update_user Users.with_rating
rated-Sound now rating count id none rows s = s
rated-Sound now rating count id (some u) rows s = elim (Bool-cases (leb 1000 rating)) [
  | inl big ↦ rw big s
  | inr fits ↦
      rw fits (
        update-Sound (has_id id) (Users.with_rating now rating count) rows (λ u. refl) (λ u h. h) s)
]

pub set_rating-Sound :
    (now : Time) (id : String) (rating : Rating) (count : ℕ) (rows : List UserRecord)
    → Sound rows
    → Sound (Users.set_rating now id rating count rows).1
unfolding Users.set_rating
set_rating-Sound now id rating count rows s = rated-Sound now rating count id _ rows s

upsert-Sound :
    (fresh : UserRecord) (o : Option UserRecord) (rows : List UserRecord)
    → is_torn fresh ≡ false
    → query_row (has_phone fresh.user.phone_number) rows ≡ o
    → Sound rows
    → Sound (Users.upsert_admin fresh o rows).1
unfolding Users.upsert_admin
upsert-Sound fresh none rows whole h s = insert-Sound fresh rows whole h s
upsert-Sound fresh (some u) rows whole h s =
    update-Sound (has_phone fresh.user.phone_number) Users.as_admin rows (λ u. refl) (λ u h. h) s

resolve-Sound :
    (fresh : UserRecord) (o : Option UserRecord) (rows : List UserRecord)
    → is_torn fresh ≡ false
    → Sound rows
    → Sound (Users.resolve_admin fresh o rows).1
unfolding Users.resolve_admin
resolve-Sound fresh (some u) rows whole s = s
resolve-Sound fresh none rows whole s = upsert-Sound fresh _ rows whole refl s

pub admin_account-Sound :
    (id : String) (now : Time) (phone full_name : String) (rows : List UserRecord)
    → Sound rows
    → Sound (Users.admin_account id now phone full_name rows).1
unfolding Users.admin_account Users.new_admin Users.oldest_admin VerificationStatus-discrete
admin_account-Sound id now phone full_name rows s = resolve-Sound _ _ rows refl s
