-- ===== src/Services/Invariant/Editing.antt =====
-- An edit keeps the invariant of the services.
use ulov_backend.Prelude.{ℕ, ◌<◌, ◌≡◌, refl, some, arith}
use ulov_backend.Prelude.Tests.{◌==◌}
use ulov_backend.Prelude.Keys.{Keyed-update_rows}
use ulov_backend.Prelude.Lists.{All-map, All-update_rows}
use ulov_backend.Exec.{ok}
use ulov_backend.Rbac.{CurrentUser}
use ulov_backend.Db.{Db}
use ulov_backend.Db.Rows.{Service, ServiceTransition}
use ulov_backend.Services.History.{replay, unknown}
use ulov_backend.Services.Transition.Timing.{IsTimed}
use ulov_backend.Services.Edit.{PatchForm, patch}
use ulov_backend.Services.Edit.Effect.{Patched, patch-Patched, edited}
use ulov_backend.Services.Invariant.{IsValid}

edited-IsTimed : (form : PatchForm) (s : Service) → IsTimed s → IsTimed (edited form s)
edited-IsTimed form s t = ground arith

pub edited-id : (form : PatchForm) (s : Service) → (edited form s).id ≡ s.id
edited-id form s = refl

edited-traced :
    (d : Db) (form : PatchForm) (s : Service)
    → replay unknown d.transitions s.id ≡ some s.status
    → replay unknown d.transitions (edited form s).id ≡ some (edited form s).status
edited-traced d form s h = h

module _ (service_id : ℕ) (u : CurrentUser) (form : PatchForm) (d d' : Db)
    (p : Patched service_id u form d d') (v : IsValid d) where
  Patched-IsValid : IsValid d'
  Patched-IsValid = record {
    keyed = rw p.services_set (
        Keyed-update_rows (λ (s : Service). s.id) (λ s. s.id == p.row.id) (edited form)
          (edited-id form) d.services v.keyed);
    below = rw p.services_set (
        All-update_rows (λ (s : Service). s.id < d'.next_id) (λ s. s.id == p.row.id) (edited form)
          (λ s _ h. rw (edited-id form s) h) d.services
          (All-map (λ s h. omega (arith, p.later)) d.services v.below));
    timed = rw p.services_set (
        All-update_rows IsTimed (λ s. s.id == p.row.id) (edited form)
          (λ s _ h. edited-IsTimed form s h) d.services v.timed);
    traced =
        rw (p.services_set, p.transitions_kept)
          (All-update_rows (λ s. replay unknown d.transitions s.id ≡ some s.status)
            (λ s. s.id == p.row.id) (edited form) (λ s _ h. edited-traced d form s h) d.services
            v.traced);
    walk = rw p.transitions_kept v.walk;
    named_below =
        rw p.transitions_kept (
          All-map (λ (t : ServiceTransition) h. omega (arith, p.later)) d.transitions
            v.named_below);
  }

-- An edit keeps the invariant.
pub patch-IsValid :
    (service_id : ℕ) (u : CurrentUser) (form : PatchForm) (d : Db) {s : Service}
    → IsValid d
    → (patch service_id u form d).0 ≡ ok s
    → IsValid (patch service_id u form d).1
patch-IsValid service_id u form d v h =
    Patched-IsValid service_id u form d (patch service_id u form d).1
      (patch-Patched service_id u form d h) v
