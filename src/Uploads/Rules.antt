-- ===== src/Uploads/Rules.antt =====
-- Who may upload what.
use ulov_backend.Prelude.{ℕ, ◌≤◌, ◌≡◌, ◌⊎◌, sym, true, Option, none, some, inl, inr, arith}
use mathlib.Core.Path.{subst}
use ulov_backend.Prelude.Tests.{◌==◌, ==_iff, Bool-cases, Option-cases}
use ulov_backend.Prelude.Lists.{find_row}
use ulov_backend.Config.{Settings}
use ulov_backend.Errors.{
  Code, upload_entity_required, car_not_found, car_not_owner, center_not_found, center_not_owner,
  upload_staff_only,
}
use ulov_backend.Exec.{Result, ok, err}
use ulov_backend.Rbac.{CurrentUser, admin, has_role, is_staff}
use ulov_backend.Db.{Db}
use ulov_backend.Db.Rows.{Car, ServiceCenter}
use ulov_backend.Cars.Repository as cars_repo
use ulov_backend.Centers
use ulov_backend.Uploads.{
  Kind, avatar, car_photo, center_avatar, service_photo, Host, PresignIn, PresignOut, presigned,
  assert_can_upload, allowed_content_types, mem_text,
}

-- The rule: an avatar is the caller's own; the photo of a car is its owner's or an admin's; the
-- avatar of a centre its owner's or an admin's; the photo of a service any member of staff's.
abbrev pub MayUpload : Db → CurrentUser → Kind → Option ℕ → Type 0
MayUpload d u avatar entity_id = Unit
MayUpload d u car_photo none = ⊥
MayUpload d u car_photo (some i) =
    (c : Car) × (find_row (λ x. x.id == i) d.cars ≡ some c)
    × ((c.owner_id ≡ u.id) ⊎ (has_role u admin ≡ true))
MayUpload d u center_avatar none = ⊥
MayUpload d u center_avatar (some i) =
    (c : ServiceCenter) × (find_row (λ x. x.id == i) d.centers ≡ some c)
    × ((c.owner_user_id ≡ u.id) ⊎ (has_role u admin ≡ true))
MayUpload d u service_photo entity_id = is_staff u ≡ true

-- What the check answers: it passes and the rule holds, or it fails and the rule does not.
pub data Answers (P : Type 0) (d : Db) : Result (Unit {0}) × Db → Type 0 where
  allows : P → Answers P d (ok tt, d)
  denies : (e : Code) → ¬ P → Answers P d (err e, d)

module _ {P : Type 0} {d : Db} {x : Result (Unit {0}) × Db} where
  allowed_by : x ≡ (ok tt, d) → P → Answers P d x
  allowed_by e p = subst (Answers P d) (sym e) (allows p)

  denied_by : (c : Code) → x ≡ (err c, d) → ¬ P → Answers P d x
  denied_by c e p = subst (Answers P d) (sym e) (denies c p)

abbrev pub Judged : Kind → CurrentUser → Option ℕ → Db → Type 0
Judged kind u entity_id d =
    Answers (MayUpload d u kind entity_id) d (assert_can_upload kind u entity_id d)

car_Judged : (u : CurrentUser) (i : ℕ) (d : Db) → Judged car_photo u (some i) d
unfolding assert_can_upload cars_repo.get_by_id
car_Judged u i d = elim (Option-cases (find_row (λ x. x.id == i) d.cars)) [
  | inl e ↦ denied_by car_not_found (ground (arith, e)) (λ (c, f, may). cc (e, f))
  | inr (c, e) ↦ elim (Bool-cases (c.owner_id == u.id)) [
    | inl own ↦ allowed_by (ground (arith, e, own)) (c, e, inl ((==_iff c.owner_id u.id).0 own))
    | inr own ↦ elim (Bool-cases (has_role u admin)) [
      | inl a ↦ allowed_by (ground (arith, e, own, a)) (c, e, inr a)
      | inr a ↦ denied_by car_not_owner (ground (arith, e, own, a)) (λ (c', f, may).
          let same : c ≡ c' = ground (arith, e, f) in
          elim may [ inl mine ↦ ground (arith, own, same, mine) | inr adm ↦ cc (adm, a) ])
    ]
  ]
]

center_Judged : (u : CurrentUser) (i : ℕ) (d : Db) → Judged center_avatar u (some i) d
unfolding assert_can_upload Centers.get_by_id
center_Judged u i d = elim (Option-cases (find_row (λ x. x.id == i) d.centers)) [
  | inl e ↦ denied_by center_not_found (ground (arith, e)) (λ (c, f, may). cc (e, f))
  | inr (c, e) ↦ elim (Bool-cases (has_role u admin)) [
    | inl a ↦ allowed_by (ground (arith, e, a)) (c, e, inr a)
    | inr a ↦ elim (Bool-cases (c.owner_user_id == u.id)) [
      | inl own ↦
          allowed_by (ground (arith, e, own, a)) (c, e, inl ((==_iff c.owner_user_id u.id).0 own))
      | inr own ↦ denied_by center_not_owner (ground (arith, e, own, a)) (λ (c', f, may).
          let same : c ≡ c' = ground (arith, e, f) in
          elim may [ inl mine ↦ ground (arith, own, same, mine) | inr adm ↦ cc (adm, a) ])
    ]
  ]
]

pub assert_can_upload-Judged :
    (kind : Kind) (u : CurrentUser) (entity_id : Option ℕ) (d : Db) → Judged kind u entity_id d
unfolding assert_can_upload
assert_can_upload-Judged avatar u entity_id d = allows tt
assert_can_upload-Judged car_photo u none d = denies upload_entity_required (λ h. h)
assert_can_upload-Judged car_photo u (some i) d = car_Judged u i d
assert_can_upload-Judged center_avatar u none d = denies upload_entity_required (λ h. h)
assert_can_upload-Judged center_avatar u (some i) d = center_Judged u i d
assert_can_upload-Judged service_photo u entity_id d = elim (Bool-cases (is_staff u)) [
  | inl s ↦ allowed_by (ground (arith, s)) s
  | inr s ↦ denied_by upload_staff_only (ground (arith, s)) (λ h. cc (h, s))
]

module _ (cfg : Settings) (host : Host) (u : CurrentUser) (spare unique : ℕ)
    (body : PresignIn) where
  -- What a presigned upload needs.
  abbrev pub Fits : Db → Type 0
  Fits d =
      (mem_text (host.lower body.content_type) allowed_content_types ≡ true)
      × (body.size_bytes ≤ cfg.s3_max_upload_bytes)
      × MayUpload d u body.kind body.entity_id

  abbrev pub Presigns : Db → Result PresignOut × Db → Type 0
  Presigns d r =
      (r.1 ≡ d)
      × (Fits d → r.0 ≡ ok (presigned cfg host u spare unique body))
      × ((x : PresignOut) → r.0 ≡ ok x → Fits d)
