-- ===== src/Uploads.antt =====
-- app/modules/uploads/service.py, router.py and client.py: presigned uploads and their
-- confirmation. The object store and the texts that Python makes of UUIDs and types are `Host`.
pub mod Rules
pub mod Effect
pub mod Names
use ulov_backend.Prelude.{
  ℕ, Bool, true, false, not, ◌&&◌, ◌||◌, Option, none, some, List, [], ◌∷◌, ◌++◌,
}
use mathlib.Core.List.{reverse}
use ulov_backend.Prelude.Tests.{ltb, ◌==◌, or_else, if◌then◌else◌}
use ulov_backend.Prelude.Text.{Text, text_eq, codes, fits}
use ulov_backend.Prelude.Pages.{take}
use ulov_backend.Config.{Settings}
use ulov_backend.Errors.{
  upload_entity_required, upload_staff_only, upload_content_type_invalid, upload_too_large,
  car_not_found, car_not_owner, center_not_found, center_not_owner, database_error,
}
use ulov_backend.Exec.{Exec, pure, raise, or_raise, raise_if, ◌>>=◌, ◌>>◌}
use ulov_backend.Rbac.{CurrentUser, admin, has_role, is_staff}
use ulov_backend.Db.{Db}
use ulov_backend.Db.Rows.{Car}
use ulov_backend.Cars.Repository as cars_repo
use ulov_backend.Centers
use ulov_backend.Centers.Profile as centers
use ulov_backend.Users as users

-- `UPLOAD_KINDS`; the forms admit no other kind.
pub data Kind : Type 0 where
  avatar car_photo center_avatar service_photo : Kind

pub record Host : Type 0 where
  -- `str(UUID)` and `uuid4().hex`
  pub uuid_text : ℕ → Text
  pub uuid_hex : ℕ → Text
  -- `str.lower`
  pub lower : Text → Text
  -- `mimetypes.guess_extension`
  pub guess_extension : Text → Option Text
  -- `s3.generate_presigned_url` for a bucket, a key, a content type and a lifetime
  pub presigned_url : Text → Text → Text → ℕ → Text

-- `ALLOWED_CONTENT_TYPES`
abbrev pub allowed_content_types : List Text
allowed_content_types =
    codes "image/jpeg"
    ∷ codes "image/png"
    ∷ codes "image/webp"
    ∷ codes "image/heic"
    ∷ codes "image/heif"
    ∷ []

unfoldable pub mem_text : Text → List Text → Bool
mem_text s [] = false
mem_text s (t ∷ ts) = text_eq s t || mem_text s ts

-- `s.lstrip(c)` and `s.rstrip(c)`
unfoldable pub lstrip : ℕ → Text → Text
lstrip x [] = []
lstrip x (c ∷ s) = if c == x then lstrip x s else c ∷ s

unfoldable pub rstrip : ℕ → Text → Text
unfolding lstrip
rstrip x s = reverse (lstrip x (reverse s))

-- `filename.rsplit(".", 1)[-1]`, `none` where there is no dot
unfoldable pub after_dot : Text → Option Text
after_dot [] = none
after_dot (c ∷ s) = elim (after_dot s) [
  | some t ↦ some t
  | none ↦ if c == b'.' then some s else none
]

-- `_ext_for`
unfoldable pub ext_for : Host → Text → Option Text → Text
unfolding after_dot lstrip
ext_for host content_type filename =
    elim (elim filename as (λ _. Option Text) [ none ↦ none | some name ↦ after_dot name ]) [
      | some ext ↦ take 8 (host.lower ext)
      | none ↦ lstrip b'.' (or_else (host.guess_extension content_type) (codes ".bin"))
    ]

-- `parts[kind]`; `spare` is the UUID that is drawn where there is no entity.
abbrev pub folder : Kind → Text
folder avatar = codes "avatars"
folder car_photo = codes "cars"
folder center_avatar = codes "centers"
folder service_photo = codes "services"

abbrev pub owner_of : Kind → CurrentUser → Option ℕ → ℕ → ℕ
owner_of avatar u entity_id spare = u.id
owner_of _ u entity_id spare = or_else entity_id spare

-- `_key_for`; `unique` is the UUID that the name gets.
unfoldable pub key_for : Host → Kind → CurrentUser → Option ℕ → ℕ → ℕ → Text → Text
key_for host kind u entity_id spare unique ext =
    folder kind
    ++ b'/'
      ∷ (host.uuid_text (owner_of kind u entity_id spare)
          ++ b'/' ∷ (host.uuid_hex unique ++ b'.' ∷ ext))

-- `public_url_for`
unfoldable pub public_url_for : Settings → Text → Text
unfolding lstrip rstrip
public_url_for cfg key = elim (cfg.s3_public_url) [
  | some base ↦ rstrip b'/' base ++ b'/' ∷ lstrip b'/' key
  | none ↦ elim (cfg.s3_endpoint_url) [
    | some base ↦ rstrip b'/' base ++ b'/' ∷ (cfg.s3_bucket ++ b'/' ∷ lstrip b'/' key)
    | none ↦ key
  ]
]

-- `_assert_can_upload`
unfoldable pub assert_can_upload : Kind → CurrentUser → Option ℕ → Exec Db (Unit {0})
unfolding cars_repo.get_by_id Centers.get_by_id
assert_can_upload avatar u entity_id = pure tt
assert_can_upload car_photo u entity_id = do
  i ← or_raise entity_id upload_entity_required
  found ← cars_repo.get_by_id i
  car ← or_raise found car_not_found
  raise_if (not (car.owner_id == u.id) && not (has_role u admin)) car_not_owner
assert_can_upload center_avatar u entity_id = do
  i ← or_raise entity_id upload_entity_required
  found ← Centers.get_by_id i
  center ← or_raise found center_not_found
  if has_role u admin
      then pure tt
      else raise_if (not (center.owner_user_id == u.id)) center_not_owner
assert_can_upload service_photo u entity_id = raise_if (not (is_staff u)) upload_staff_only

-- `presign_upload`'s answer; the headers carry the content type.
pub record PresignOut : Type 0 where
  pub upload_url : Text
  pub content_type : Text
  pub key : Text
  pub public_url : Text
  pub expires_in : ℕ

pub record PresignIn : Type 0 where
  pub kind : Kind
  pub content_type : Text
  pub size_bytes : ℕ
  pub filename : Option Text
  pub entity_id : Option ℕ

-- The key that a presigned upload gets.
abbrev pub key_of : Host → CurrentUser → ℕ → ℕ → PresignIn → Text
key_of host u spare unique body =
    key_for host body.kind u body.entity_id spare unique
      (ext_for host body.content_type body.filename)

module _ (cfg : Settings) (host : Host) where
  abbrev pub presigned : CurrentUser → ℕ → ℕ → PresignIn → PresignOut
  presigned u spare unique body = record {
    upload_url =
        host.presigned_url cfg.s3_bucket (key_of host u spare unique body) body.content_type
          cfg.s3_presign_expires_seconds;
    content_type = body.content_type;
    key = key_of host u spare unique body;
    public_url = public_url_for cfg (key_of host u spare unique body);
    expires_in = cfg.s3_presign_expires_seconds;
  }

  unfoldable pub presign_put : CurrentUser → ℕ → ℕ → PresignIn → Exec Db PresignOut
  unfolding mem_text assert_can_upload key_for ext_for public_url_for
  presign_put u spare unique body = do
    raise_if (not (mem_text (host.lower body.content_type) allowed_content_types))
        upload_content_type_invalid
    raise_if (ltb cfg.s3_max_upload_bytes body.size_bytes) upload_too_large
    assert_can_upload body.kind u body.entity_id
    pure (presigned u spare unique body)

abbrev pub no_fields : centers.Fields
no_fields = record {
  name = none;
  phone = none;
  address = none;
  description = none;
  avatar_url = none;
  schedule = none;
  services = none;
  location = none;
}

abbrev pub with_photo : Text → Car → Car
with_photo url c = record c { photo_url = some url }

-- The writes of `confirm`.
unfoldable pub attach : Kind → CurrentUser → Text → Option ℕ → Exec Db (Unit {0})
unfolding users.update_fields cars_repo.update_fields centers.update_fields
attach avatar u url entity_id = do
  _ ←
      users.update_fields u.id
        (record { full_name = none; email = none; city = none; avatar_url = some url })
  pure tt
attach car_photo u url none = pure tt
attach car_photo u url (some i) = do
  raise_if (not (fits 500 url)) database_error
  _ ← cars_repo.update_fields i (with_photo url)
  pure tt
attach center_avatar u url none = pure tt
attach center_avatar u url (some i) = do
  raise_if (not (fits 500 url)) database_error
  _ ← centers.update_fields i (record no_fields { avatar_url = some url })
  pure tt
attach service_photo u url entity_id = pure tt

unfoldable pub confirm : Settings → Kind → CurrentUser → Text → Option ℕ → Exec Db (Text × Option ℕ)
unfolding assert_can_upload attach public_url_for
confirm cfg kind u key entity_id = do
  assert_can_upload kind u entity_id
  attach kind u (public_url_for cfg key) entity_id
  pure (public_url_for cfg key, entity_id)
