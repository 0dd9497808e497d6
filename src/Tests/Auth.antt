-- ===== src/Tests/Auth.antt =====
-- Phones, passwords and tokens, with stand-ins for Argon2, JOSE and SHA-256.
use ulov_backend.Prelude.{
  ℕ, zero, suc, ◌≡◌, refl, true, false, Option, none, some, List, [], ◌∷◌, ◌++◌, arith,
}
use ulov_backend.Prelude.Tests.{ltb, ◌==◌, if◌then◌else◌}
use ulov_backend.Prelude.Text.{Text, text_eq, text_eq_refl, codes}
use ulov_backend.Config.{Settings}
use ulov_backend.Errors.{auth_otp_locked, auth_otp_expired}
use ulov_backend.Exec.{ok, err}
use ulov_backend.Rbac.{Role, customer, mechanic, owner, admin}
use ulov_backend.Security.{Hasher, IsHasher, Jwt, IsJwt, Claims, create_access_token}
use ulov_backend.Bearer.{get_current_user}
use ulov_backend.Bearer.Roundtrip.{get_current_user-create_access_token}
use ulov_backend.Auth.Otp.{six_digits, request_otp, verify_otp}
use ulov_backend.Auth.Otp.Machine.{Phone, request, verify}
use ulov_backend.Auth.Otp.Refine.{IsPhone, Shows, request_otp_refines, otp_refines}
use ulov_backend.Auth.Otp.Promise.{Try, try_all, try_all-request_otp, request_otp-verify_otp}
use ulov_backend.Tests.Redis.{Store, store, store_laws, empty}

abbrev pub cfg : Settings
cfg = record {
  payme_merchant_id = codes "m1";
  payme_secret = codes "k";
  payme_test_mode = true;
  click_secret_key = codes "s";
  otp_ttl_seconds = 120;
  otp_max_attempts = 3;
  otp_lock_seconds = 600;
  jwt_access_ttl_seconds = 900;
  jwt_refresh_ttl_seconds = 2592000;
  s3_max_upload_bytes = 10485760;
  s3_bucket = codes "ulov";
  s3_endpoint_url = none;
  s3_public_url = some (codes "https://cdn/");
  s3_presign_expires_seconds = 600;
}

abbrev pub hasher : Hasher
hasher = record {
  hash = λ salt p. salt ∷ p;
  verify = λ stored p. elim stored [ [] ↦ false | _ ∷ q ↦ text_eq q p ];
}

pub hasher_laws : IsHasher hasher
hasher_laws = record { verify_hash = λ salt p. text_eq_refl p }

-- A token is the list of its claims.
abbrev of_option : Option ℕ → ℕ
of_option none = 0
of_option (some n) = suc n

abbrev to_option : ℕ → Option ℕ
to_option zero = none
to_option (suc n) = some n

abbrev of_role : Option (Option Role) → ℕ
of_role none = 0
of_role (some none) = 1
of_role (some (some customer)) = 2
of_role (some (some mechanic)) = 3
of_role (some (some owner)) = 4
of_role (some (some admin)) = 5

abbrev to_role : ℕ → Option (Option Role)
to_role zero = none
to_role (suc n) = some (
    if n == 1
    then some customer
    else if n == 2
    then some mechanic
    else if n == 3
    then some owner
    else if n == 4
    then some admin
    else none)

abbrev read_claims : ℕ → Text → Option Claims
read_claims now (s ∷ (r ∷ (c ∷ (i ∷ (e ∷ []))))) =
    if ltb now e
    then some
        (record { sub = to_option s; role = to_role r; center_id = to_option c; iat = i; exp = e })
    else none
read_claims now _ = none

abbrev pub jwt : Jwt
jwt = record {
  encode = λ c. of_option c.sub ∷ of_role c.role ∷ of_option c.center_id ∷ c.iat ∷ c.exp ∷ [];
  decode = read_claims;
}

role_again : (r : Option (Option Role)) → to_role (of_role r) ≡ r
role_again none = refl
role_again (some none) = refl
role_again (some (some customer)) = refl
role_again (some (some mechanic)) = refl
role_again (some (some owner)) = refl
role_again (some (some admin)) = refl

option_again : (o : Option ℕ) → to_option (of_option o) ≡ o
option_again none = refl
option_again (some n) = refl

pub jwt_laws : IsJwt jwt
jwt_laws = record {
  decode_encode = λ now c alive.
      ground (arith, alive, role_again c.role, option_again c.sub, option_again c.center_id);
  encode_full = λ c. refl;
}

abbrev pub phone : Text
phone = codes "+998901234567"

pub phone-IsPhone : IsPhone phone
phone-IsPhone = (codes "998901234567", refl)

abbrev blank : Phone
blank = record { issued = none; locked_until = none }

blank-Shows : Shows store store_laws cfg empty phone blank
blank-Shows = record { code_slot = refl; lock_slot = refl }

otp_refines_example :
    (((request_otp store cfg 0 phone 7 empty).0 ≡ (request cfg 0 7 blank).0)
      × Shows store store_laws cfg
          (request_otp store cfg 0 phone 7 empty).1
          phone
          (request cfg 0 7 blank).1)
    × (((verify_otp store cfg 0 phone (codes "1") empty).0 ≡ (verify cfg 0 (codes "1") blank).0)
        × Shows store store_laws cfg
            (verify_otp store cfg 0 phone (codes "1") empty).1
            phone
            (verify cfg 0 (codes "1") blank).1)
otp_refines_example =
    otp_refines store store_laws cfg empty phone blank phone-IsPhone blank-Shows 0 7 (codes "1")

-- A phone that was sent the code 000007.
abbrev pub sent : Store
sent = (request_otp store cfg 0 phone 7 empty).1

abbrev tries : List Try
tries = (1, codes "1") ∷ (2, codes "2") ∷ (3, codes "3") ∷ []

try_all-request_otp_example :
    (request_otp store cfg 500 phone 8 (try_all store cfg phone tries sent)).0
    ≡ (if ltb 500 603 then err auth_otp_locked else ok (six_digits 8, 120))
unfolding request
try_all-request_otp_example =
    try_all-request_otp store cfg phone store_laws phone-IsPhone tries sent
      (request cfg 0 7 blank).1 (record { code = six_digits 7; tries = 0; dies_at = 120 }) 500 8
      (request_otp_refines store store_laws cfg empty phone blank phone-IsPhone blank-Shows 0 7).1
      refl refl
      (
        (ground arith, λ e. ground (arith, e)),
        ((ground arith, λ e. ground (arith, e)), ((ground arith, λ e. ground (arith, e)), tt)),
      )
      (ground arith) refl

-- The code is accepted.
pub sent_accepted : (verify_otp store cfg 5 phone (six_digits 7) sent).0 ≡ ok tt
sent_accepted =
    (request_otp-verify_otp store cfg phone store_laws phone-IsPhone empty blank 0 7 5 6 blank-Shows
      refl (ground arith)).1

request_otp-verify_otp_example :
    ((request_otp store cfg 0 phone 7 empty).0 ≡ ok (six_digits 7, 120))
    × ((verify_otp store cfg 5 phone (six_digits 7) sent).0 ≡ ok tt)
    × ((verify_otp store cfg 6 phone
          (six_digits 7)
          (verify_otp store cfg 5 phone (six_digits 7) sent).1).0
        ≡ err auth_otp_expired)
request_otp-verify_otp_example =
    request_otp-verify_otp store cfg phone store_laws phone-IsPhone empty blank 0 7 5 6 blank-Shows
      refl (ground arith)

get_current_user-create_access_token_example :
    get_current_user jwt 800000000
      (some (codes "Bearer " ++ create_access_token cfg jwt 0 2 (some owner) (some 10)))
    ≡ ok (record { id = 2; role = some owner; center_id = some 10 })
get_current_user-create_access_token_example =
    get_current_user-create_access_token cfg jwt jwt_laws 0 800000000 2 (some owner) (some 10)
      (ground arith)
