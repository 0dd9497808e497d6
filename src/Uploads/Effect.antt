-- ===== src/Uploads/Effect.antt =====
-- What a confirmed upload writes.
use ulov_backend.Errors.{Code}
use ulov_backend.Prelude.{ℕ, ◌≡◌, ◌⊎◌, true, Option, none, some, List, inl, ◌≤◌}
use mathlib.Core.Option
use ulov_backend.Prelude.Tests.{◌==◌}
use ulov_backend.Prelude.Text.{Text}
use ulov_backend.Prelude.Lists.{find_row, length}
use ulov_backend.Config.{Settings}
use ulov_backend.Exec.{Result, ok, err}
use ulov_backend.Rbac.{CurrentUser, admin, has_role}
use ulov_backend.Db.{Db}
use ulov_backend.Cars.Repository as cars_repo
use ulov_backend.Centers
use ulov_backend.Centers.Profile as centers
use ulov_backend.Users as users
use ulov_backend.Uploads.{Kind, service_photo, public_url_for, no_fields, with_photo}
use ulov_backend.Uploads.Rules.{MayUpload}

-- Each row that a table has after is one that it had, or comes from a row with `P` by `f`.
abbrev pub Only : {A : Type 0} → (A → ℕ) → (A → A) → (A → Type 0) → List A → List A → Type 0
Only {A} key f P xs ys =
    (j : ℕ) (a' : A)
    → find_row (λ x. key x == j) ys ≡ some a'
    → (find_row (λ x. key x == j) xs ≡ some a')
      ⊎ ((a : A) × (find_row (λ x. key x == j) xs ≡ some a) × (a' ≡ f a) × P a)

module _ {A : Type 0} (key : A → ℕ) (f : A → A) (P : A → Type 0) where
  same_Only : (xs : List A) → Only key f P xs xs
  same_Only xs j a' h = inl h

-- The columns that an upload sets.
abbrev pub avatar_fields : Text → users.Fields
avatar_fields url = record { full_name = none; email = none; city = none; avatar_url = some url }

abbrev pub center_fields : Text → centers.Fields
center_fields url = record no_fields { avatar_url = some url }

-- Nobody's avatar but the caller's, and no photo of a car or avatar of a centre but of one that is
-- the caller's, or any where the caller is an admin.
abbrev pub Scoped : CurrentUser → Text → Db → Db → Type 0
Scoped u url d d' =
    Only (λ x. x.id) (users.with_fields (avatar_fields url)) (λ x. x.id ≡ u.id) d.users d'.users
    × Only (λ x. x.id) (with_photo url) (λ x. (x.owner_id ≡ u.id) ⊎ (has_role u admin ≡ true))
        d.cars d'.cars
    × Only (λ x. x.id) (centers.with_fields (center_fields url))
        (λ x. (x.owner_user_id ≡ u.id) ⊎ (has_role u admin ≡ true)) d.centers d'.centers

-- The URL fits into the column that the upload sets, if it sets one.
abbrev pub Stores : Kind → Text → Type 0
Stores service_photo url = Unit
Stores _ url = length url ≤ 500

module _ (u : CurrentUser) (url : Text) where
  -- What the writes of a permitted upload come to.
  data Attaches (kind : Kind) (d : Db) : Result (Unit {0}) × Db → Type 0 where
    stored : (d' : Db) → Stores kind url → Scoped u url d d' → Attaches kind d (ok tt, d')
    too_long : (c : Code) → ¬ Stores kind url → Attaches kind d (err c, d)

module _ (cfg : Settings) (kind : Kind) (u : CurrentUser) (key : Text) (entity_id : Option ℕ) where
  -- The caller may upload, and the URL of the key fits.
  abbrev pub Allowed : Db → Type 0
  Allowed d = MayUpload d u kind entity_id × Stores kind (public_url_for cfg key)

  abbrev pub Confirms : Db → Result (Text × Option ℕ) × Db → Type 0
  Confirms d r =
      (Allowed d → r.0 ≡ ok (public_url_for cfg key, entity_id))
      × ((x : Text × Option ℕ) → r.0 ≡ ok x → Allowed d)
      × (¬ Allowed d → r.1 ≡ d)
      × Scoped u (public_url_for cfg key) d r.1
