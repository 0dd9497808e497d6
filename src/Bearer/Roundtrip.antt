-- ===== src/Bearer/Roundtrip.antt =====
-- A token that was issued names its user until it expires.
use ulov_backend.Prelude.{ℕ, ◌+◌, ◌*◌, ◌<◌, ◌≡◌, Option, some, ◌++◌, arith}
use ulov_backend.Prelude.Text.{codes}
use ulov_backend.Config.{Settings}
use ulov_backend.Exec.{ok}
use ulov_backend.Rbac.{Role}
use ulov_backend.Security.{Claims, Jwt, IsJwt, seconds, create_access_token, decode_access_token}
use ulov_backend.Bearer.{extract_bearer, is_bearer, partition, get_current_user}

module _ (cfg : Settings) (jwt : Jwt) (laws : IsJwt jwt) where
  -- A token that was issued at `issued`, sent as a bearer token before it expires, gives the user
  -- that it was issued for, with role and centre.
  pub get_current_user-create_access_token :
      (issued now i : ℕ) (role : Option Role) (center_id : Option ℕ)
      → seconds now < seconds (issued + cfg.jwt_access_ttl_seconds * 1000000)
      → get_current_user jwt now
          (some (codes "Bearer " ++ create_access_token cfg jwt issued i role center_id))
        ≡ ok (record { id = i; role = role; center_id = center_id })
  unfolding get_current_user extract_bearer is_bearer partition decode_access_token
      create_access_token
  get_current_user-create_access_token issued now i role center_id fresh =
      let c : Claims = record {
        sub = some i;
        role = some role;
        center_id = center_id;
        iat = seconds issued;
        exp = seconds (issued + cfg.jwt_access_ttl_seconds * 1000000);
      } in
      ground (arith, laws.decode_encode (seconds now) c fresh, laws.encode_full c)
