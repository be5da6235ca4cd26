-- ===== src/Examples/Auth.antt =====
-- Registration, sign-ins and sessions at concrete requests.
use yukbor_backend.Common.{
  ◌+◌, ◌≤◌, ◌<◌, some, true, false, List, [], ◌∷◌, String-discrete, ◌≡◌, refl, arith,
}
use yukbor_backend.Common.Table.{query_row}
use yukbor_backend.Jwtx.Tokens.{CodecLaws}
use yukbor_backend.Auth.Otp.{OtpRow, OtpPolicy, new_otp, recent_codes, is_id, accepts, verify_otp}
use yukbor_backend.Auth.Otp.Limit.{codes_in, verify_otp-confirmed}
use yukbor_backend.Auth.Otp.Overlap
use yukbor_backend.Auth.Otp.Overlap.{Asked, Reach-codes_in}
use yukbor_backend.Auth.Sessions.{Use}
use yukbor_backend.Examples.AuthData.{phone, codec, driver_claims, code_row}

codec_laws : CodecLaws codec driver_claims
codec_laws = record {
  encode_lacks = (refl, (refl, tt));
  mac_lacks = λ _ _. (refl, (refl, (refl, tt)));
  decode-encode = refl;
}

abbrev first_ask : Asked
first_ask = record { id = "a"; code = "1111"; phone = phone; counted_at = 5 }

abbrev second_ask : Asked
second_ask = record { id = "b"; code = "2222"; phone = phone; counted_at = 6 }

abbrev two_codes : Overlap.Desk
two_codes = record {
  rows = new_otp (λ s. s) 7 "a" "1111" phone ∷ new_otp (λ s. s) 8 "b" "2222" phone ∷ [];
  asked = [];
}

-- Both requests count before either inserts.
both_count : Overlap.Reach (λ s. s) 1 2 (record { rows = []; asked = [] }) two_codes
unfolding recent_codes
both_count =
    Overlap.Reach.next
      (Overlap.Reach.next
        (Overlap.Reach.next
          (Overlap.Reach.next Overlap.Reach.here
            (Overlap.Step.count (record { rows = []; asked = [] }) first_ask refl (omega arith)))
          (Overlap.Step.count (record { rows = []; asked = first_ask ∷ [] }) second_ask refl
            (omega arith)))
        (Overlap.Step.insert (record { rows = []; asked = second_ask ∷ first_ask ∷ [] }) 7 first_ask
          (second_ask ∷ []) [] refl (omega arith)))
      (Overlap.Step.insert
        (record { rows = new_otp (λ s. s) 7 "a" "1111" phone ∷ []; asked = second_ask ∷ [] }) 8
        second_ask [] [] refl (omega arith))

Reach-codes_in_example : codes_in 9 phone two_codes.rows + 1 ≤ 1 + 2
Reach-codes_in_example =
    Reach-codes_in (λ s. s) 1 2 [] two_codes phone (omega arith) (λ t. omega arith) both_count 9

abbrev policy : OtpPolicy
policy = record {
  allow_master = false;
  test_phones = [];
  test_all_phones = false;
  test_code = "0000";
}

abbrev unset_row : OtpRow
unset_row = record code_row { verified = false }

verified_now :
    query_row (is_id "v1") (verify_otp (λ s. s) policy 9 false "v1" "1234" (unset_row ∷ [])).1
    ≡ some code_row
unfolding verify_otp String-discrete
verified_now = refl

verify_otp-confirmed_example :
    (9 ≤ unset_row.expires_at)
    × (unset_row.attempts < 5)
    × (accepts (λ s. s) policy phone "1234" "1234" ≡ true)
verify_otp-confirmed_example =
    verify_otp-confirmed (λ s. s) policy 9 false "v1" "1234" (unset_row ∷ []) unset_row code_row
      (ground arith) refl verified_now refl

abbrev stolen : List Use
stolen = Use.rotate 7 ∷ Use.rotate 8 ∷ Use.revoke 9 ∷ []
