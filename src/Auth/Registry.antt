-- ===== src/Auth/Registry.antt =====
-- internal/auth/license.go, names.go and verification.go: the simulated registries. What they say
-- of a person derives from the SHA-256 of his PINFL.
use Prim.Native.Char.{Char, code}
use Prim.Native.String
use text.Mathlib.Text.{starts_with}
use yukbor_backend.Common.{
  ℕ, zero, suc, ◌+◌, ◌-◌, ◌*◌, ◌/◌, ◌%◌, String, Option, none, some, Bool, true, false, ◌&&◌, not,
  List, [], ◌∷◌, ◌==◌, string_Eq, if◌then◌else◌, leb, natb, contains,
}
use yukbor_backend.Common.Strconv.{digit}
use yukbor_backend.Common.Exec.{Result, ok, err}
use yukbor_backend.Models.Enums.{UserRole, VerificationStatus, VehicleType}
use yukbor_backend.Models.Licensing.{required_license_category}

-- The bytes of the SHA-256 of a text, by their place: the standard library computes it.
abbrev pub Digest : Type 0
Digest = String → ℕ → ℕ

infixr 60 ◌⋯◌
abbrev pub ◌⋯◌ : String → String → String
a ⋯ b = String.◌++◌ a b

-- The draw number `i` of `derive(pinfl, salt)`, below `n`: four bytes of the digest, from a place
-- that wraps.
unfoldable pub draw : Digest → String → String → ℕ → ℕ → ℕ
draw digest pinfl salt i zero = 0
draw digest pinfl salt i (suc n) =
    let byte = λ (k : ℕ). digest (salt ⋯ ":" ⋯ pinfl) ((i * 4) % 28 + k) in
    (((byte 0 * 256 + byte 1) * 256 + byte 2) * 256 + byte 3) % suc n

abbrev plate_alphabet : String
plate_alphabet = "ABCDEFGHJKLMNPRSTUVXYZ"

abbrev letter : ℕ → String
letter i = String.slice plate_alphabet i (suc i)

abbrev pub plate_regions : List String
plate_regions =
    "01" ∷ "10" ∷ "20" ∷ "25" ∷ "30" ∷ "40" ∷ "50" ∷ "60" ∷ "70" ∷ "75" ∷ "80" ∷ "85" ∷ "90" ∷ []

-- An entry of a table of texts; the draws stay inside the tables.
unfoldable pub entry : List String → ℕ → String
entry [] i = ""
entry (s ∷ ss) zero = s
entry (s ∷ ss) (suc i) = entry ss i

-- `%0wd` of a number with `w` digits at most, in front of `out`.
unfoldable pub padded : ℕ → ℕ → String → String
unfolding digit
padded zero n out = out
padded (suc w) n out = padded w (n / 10) (String.◌∷◌ (digit (n % 10)) out)

-- `GenerateLicenseNumber`
unfoldable pub generate_license_number : Digest → String → String
unfolding draw padded
generate_license_number digest pinfl =
    let next = draw digest pinfl "license" in
    letter (next 0 22) ⋯ letter (next 1 22) ⋯ padded 7 (next 2 10000000) ""

-- `GenerateVehiclePlate`
unfoldable pub generate_vehicle_plate : Digest → String → String
unfolding draw padded entry
generate_vehicle_plate digest pinfl =
    let next = draw digest pinfl "plate" in
    let region = entry plate_regions (next 0 13) in
    let digits = padded 3 (next 1 1000) "" in
    if natb (next 2 2) 0
    then region ⋯ " " ⋯ digits ⋯ " " ⋯ letter (next 3 22) ⋯ letter (next 4 22) ⋯ letter (next 5 22)
    else region
      ⋯ " "
      ⋯ letter (next 3 22)
      ⋯ " "
      ⋯ digits
      ⋯ " "
      ⋯ letter (next 4 22)
      ⋯ letter (next 5 22)

unfoldable pub required_category_for_role : UserRole → String
required_category_for_role UserRole.driver = "C"
required_category_for_role UserRole.equipment_provider = "C"
required_category_for_role UserRole.client = ""
required_category_for_role UserRole.labor_provider = ""
required_category_for_role UserRole.fleet_admin = ""
required_category_for_role UserRole.admin = ""
required_category_for_role (UserRole.other _) = ""

unfoldable pub needs_license_check : UserRole → Bool
unfolding required_category_for_role
needs_license_check role = not (required_category_for_role role == "")

abbrev male_stems : List String
male_stems =
    "Karim" ∷ "Rashid" ∷ "Yusup" ∷ "Toshmat" ∷ "Nazar" ∷ "Abdulla" ∷ "Ergash" ∷ "Sulton" ∷ "Xolmat"
    ∷ "Qodir" ∷ "Umar" ∷ "Said" ∷ []

abbrev male_names : List String
male_names =
    "Aziz" ∷ "Botir" ∷ "Sherzod" ∷ "Jasur" ∷ "Otabek" ∷ "Bekzod" ∷ "Sardor" ∷ "Javohir" ∷ "Ulugbek"
    ∷ "Farrux" ∷ "Doniyor" ∷ "Rustam" ∷ []

abbrev female_names : List String
female_names =
    "Dilnoza" ∷ "Nilufar" ∷ "Gulnora" ∷ "Zilola" ∷ "Malika" ∷ "Sevara" ∷ "Kamola" ∷ "Nodira"
    ∷ "Shahnoza" ∷ "Feruza" ∷ "Zarina" ∷ "Muattar" ∷ []

abbrev patronymic_stems : List String
patronymic_stems =
    "Baxtiyor" ∷ "Alisher" ∷ "Rustam" ∷ "Shavkat" ∷ "Zafar" ∷ "Oybek" ∷ "Ilhom" ∷ "Nodir" ∷ "Sanjar"
    ∷ "Timur" ∷ "Ravshan" ∷ "Anvar" ∷ []

-- `isFemalePINFL`: the first digit is even.
unfoldable pub is_female_pinfl : String → Bool
is_female_pinfl String.[] = false
is_female_pinfl (String.◌∷◌ c s) =
    if leb 48 (code c) && leb (code c) 57 then natb ((code c - 48) % 2) 0 else false

-- `SimulatedFullName`
unfoldable pub simulated_full_name : Digest → String → String
unfolding draw entry is_female_pinfl
simulated_full_name digest pinfl =
    let next = draw digest pinfl "name" in
    let surname_stem = entry male_stems (next 0 12) in
    let patronymic_stem = entry patronymic_stems (next 1 12) in
    if is_female_pinfl pinfl
    then surname_stem
      ⋯ "ova"
      ⋯ " "
      ⋯ entry female_names (next 2 12)
      ⋯ " "
      ⋯ patronymic_stem
      ⋯ "ovna"
    else surname_stem ⋯ "ov" ⋯ " " ⋯ entry male_names (next 2 12) ⋯ " " ⋯ patronymic_stem ⋯ "ovich"

-- verification.go: the identity check.
pub record MyIdVerifyRequest : Type 0 where
  pub verification_id : String
  pub passport_series : String
  pub passport_number : String
  pub pinfl : String
  pub birth_date : String

-- The confidence is in hundredths.
pub record MyIdVerifyResult : Type 0 where
  pub is_matched : Bool
  pub confidence : ℕ
  pub verified_full_name : String

pub data MyIdError : Type 0 where
  passport_not_found myid_unavailable : MyIdError

-- `sum += int(c)` over the characters
abbrev code_sum : String → ℕ
code_sum String.[] = 0
code_sum (String.◌∷◌ c s) = code c + code_sum s

-- `SimulatedMyIDClient.VerifyPerson`: `gone` says that the caller left during the wait.
unfoldable pub verify_person : Digest → Bool → MyIdVerifyRequest → Result MyIdError MyIdVerifyResult
unfolding simulated_full_name
verify_person digest gone req =
    if gone
    then err MyIdError.myid_unavailable
    else if req.passport_number == "0000000"
    then err MyIdError.passport_not_found
    else if starts_with req.pinfl "99"
    then ok (record { is_matched = false; confidence = 41; verified_full_name = "" })
    else ok (record {
      is_matched = true;
      confidence = 93 + code_sum req.pinfl % 7;
      verified_full_name = simulated_full_name digest req.pinfl;
    })

-- verification.go: the licence check.
pub record LicenseVerificationRequest : Type 0 where
  pub pinfl : String
  pub vehicle_type : Option VehicleType
  pub role_category : String

pub record LicenseResult : Type 0 where
  pub status : VerificationStatus
  pub categories : List String
  pub reason : String
  pub license_number : String
  pub vehicle_plate : String

abbrev wanted : Option VehicleType → String → String
wanted none category = category
wanted (some vehicle) category = required_license_category vehicle

-- `requiredCategory`
unfoldable pub required_category : LicenseVerificationRequest → String
required_category req = wanted req.vehicle_type req.role_category

-- The last byte in UTF-8 of a text that ends in `c`.
abbrev last_byte : Char → ℕ
last_byte c = if leb (code c) 127 then code c else 128 + code c % 64

-- The last byte minus that of the digit 0, as a byte.
last_digit : Char → String → ℕ
last_digit c String.[] = (last_byte c + 208) % 256
last_digit c (String.◌∷◌ d s) = last_digit d s

-- `LicenseCategoriesFor`
unfoldable pub license_categories_for : String → List String
unfolding last_digit
license_categories_for String.[] = "B" ∷ "C" ∷ "CE" ∷ []
license_categories_for (String.◌∷◌ c s) =
    if natb (last_digit c s % 2) 1
    then "B" ∷ []
    else if leb 6 (last_digit c s)
    then "B" ∷ "C" ∷ "CE" ∷ []
    else "B" ∷ "C" ∷ []

-- `SimulatedLicenseVerifier.VerifyDriverLicense`: `none` where the caller left during the wait.
unfoldable pub verify_driver_license :
    Digest → Bool → LicenseVerificationRequest → Option LicenseResult
unfolding license_categories_for required_category generate_license_number generate_vehicle_plate
verify_driver_license digest gone req =
    let categories = license_categories_for req.pinfl in
    let need = required_category req in
    let refused = not (need == "") && not (contains need categories) in
    if gone
    then none
    else some (record {
      status = if refused then VerificationStatus.rejected else VerificationStatus.approved;
      categories = categories;
      reason = if refused then "LICENSE_CATEGORY_MISMATCH" else "";
      license_number = generate_license_number digest req.pinfl;
      vehicle_plate = generate_vehicle_plate digest req.pinfl;
    })
