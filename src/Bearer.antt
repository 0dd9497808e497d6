-- ===== src/Bearer.antt =====
-- app/deps.py: from the `Authorization` header to the current user.
pub mod Roundtrip
use ulov_backend.Prelude.{
  ℕ, ◌+◌, Bool, true, false, not, ◌&&◌, ◌||◌, Option, none, some, List, [], ◌∷◌,
}
use ulov_backend.Prelude.Tests.{leb, ◌==◌, if◌then◌else◌}
use ulov_backend.Prelude.Text.{Text, text_eq, codes, truthy, truthy?, text_or_empty}
use ulov_backend.Errors.{Code, auth_missing, auth_invalid_scheme, auth_invalid_token}
use ulov_backend.Exec.{Result, ok, err}
use ulov_backend.Rbac.{Role, customer, CurrentUser}
use ulov_backend.Security.{Claims, Jwt, decode_access_token}

-- `s.partition(" ")`, without the separator
unfoldable pub partition : Text → Text × Text
partition [] = ([], [])
partition (c ∷ s) = if c == b' ' then ([], s) else (c ∷ (partition s).0, (partition s).1)

-- `scheme.lower() == "bearer"`: no character above ASCII has one of these letters as its lower
-- case.
lower : ℕ → ℕ
lower c = if leb 65 c && leb c 90 then c + 32 else c

unfoldable pub is_bearer : Text → Text → Bool
unfolding lower
is_bearer [] [] = true
is_bearer (x ∷ s) (c ∷ cs) = (lower x == c) && is_bearer s cs
is_bearer _ _ = false

unfoldable pub extract_bearer : Option Text → Result Text
extract_bearer authorization =
    if not (truthy? authorization)
    then err auth_missing
    else (let (scheme, token) = partition (text_or_empty authorization) in
        if not (is_bearer scheme (codes "bearer")) || not (truthy token)
        then err auth_invalid_scheme
        else ok token)

-- `CurrentUser(...)`: a token without a role is a customer's.
unfoldable pub user_of : Claims → Result CurrentUser
user_of c = elim (c.sub) [
  | none ↦ err auth_invalid_token
  | some i ↦ ok (record {
    id = i;
    role = elim (c.role) [ none ↦ some customer | some r ↦ r ];
    center_id = c.center_id;
  })
]

infixl 5 ◌>>=◌
abbrev ◌>>=◌ : {A B : Type 0} → Result A → (A → Result B) → Result B
ok a >>= f = f a
err e >>= f = err e

unfoldable pub get_current_user : Jwt → ℕ → Option Text → Result CurrentUser
unfolding user_of
get_current_user jwt now authorization = do
  token ← extract_bearer authorization
  claims ← decode_access_token jwt now token
  user_of claims

-- The errors that it catches are all of this call's.
unfoldable pub get_optional_user : Jwt → ℕ → Option Text → Option CurrentUser
get_optional_user jwt now authorization =
    if not (truthy? authorization)
    then none
    else elim (get_current_user jwt now authorization) [ ok u ↦ some u | err _ ↦ none ]
