-- ===== src/Services/Invariant/Opening.antt =====
-- An intake keeps the invariant of the services.
use ulov_backend.Prelude.{ℕ, ◌<◌, ◌≡◌, some, none, [], ◌∷◌, arith}
use ulov_backend.Prelude.Tests.{◌==◌, if◌then◌else◌}
use ulov_backend.Prelude.Keys.{Keyed-append}
use ulov_backend.Prelude.Lists.{All, All-append, All-map, All-map_both}
use ulov_backend.Exec.{ok}
use ulov_backend.Rbac.{CurrentUser}
use ulov_backend.Db.{Db}
use ulov_backend.Db.Rows.{Service, ServiceTransition, Car}
use ulov_backend.Services.History.{
  IsWalk, first, replay, unknown, replay-append, replay_unnamed, IsWalk-append,
}
use ulov_backend.Services.Transition.Timing.{IsTimed}
use ulov_backend.Services.Intake.{IntakeForm, create}
use ulov_backend.Services.Intake.Effect.{Opened, intake_row, create-Admitted}
use ulov_backend.Services.Invariant.{IsValid}

module _ (car : Car) (center_id : ℕ) (u : CurrentUser) (form : IntakeForm) (d d' : Db)
    (o : Opened car center_id u form d d') (v : IsValid d) where
  replay_after :
      (i : ℕ)
      → replay unknown d'.transitions i ≡ (
          if o.entry.service_id == i
          then some o.entry.to_status
          else replay unknown d.transitions i)
  replay_after i = rw o.logged (replay-append unknown d.transitions o.entry i)

  not_yet : replay unknown d.transitions d.next_id ≡ none
  not_yet =
      replay_unnamed unknown d.transitions d.next_id
        (All-map (λ t h e. absurd (omega (arith, h, e))) d.transitions v.named_below)

  Opened-traced : All (λ s. replay unknown d'.transitions s.id ≡ some s.status) d'.services
  Opened-traced = rw o.row_added (
      All-append (λ s. replay unknown d'.transitions s.id ≡ some s.status) d.services
        (intake_row center_id form d ∷ [])
        (All-map_both (λ s b t. ground (arith, b, t, replay_after s.id, o.entry_service)) d.services
          v.below v.traced)
        (ground (arith, replay_after d.next_id, o.entry_service, o.entry_to), tt))

  Opened-IsWalk : IsWalk unknown d'.transitions
  Opened-IsWalk = rw o.logged (
      IsWalk-append unknown d.transitions o.entry v.walk
        (first (rw o.entry_service not_yet) o.entry_from o.entry_to))

  Opened-IsValid : IsValid d'
  Opened-IsValid = record {
    keyed = rw o.row_added (
        Keyed-append (λ (s : Service). s.id) d.services (intake_row center_id form d) v.below
          v.keyed);
    below = rw o.row_added (
        All-append (λ (s : Service). s.id < d'.next_id) d.services
          (intake_row center_id form d ∷ [])
          (All-map (λ s h. omega (arith, o.later)) d.services v.below) (o.later, tt));
    timed = rw o.row_added (
        All-append IsTimed d.services (intake_row center_id form d ∷ []) v.timed
          (ground arith, tt));
    traced = Opened-traced;
    walk = Opened-IsWalk;
    named_below = rw o.logged (
        All-append (λ (t : ServiceTransition). t.service_id < d'.next_id) d.transitions
          (o.entry ∷ []) (All-map (λ t h. omega (arith, o.later)) d.transitions v.named_below)
          (omega (arith, o.entry_service, o.later), tt));
  }

-- An intake keeps the invariant: the new service waits, and its history begins there.
pub create-IsValid :
    (center_id : ℕ) (u : CurrentUser) (form : IntakeForm) (d : Db) {s : Service}
    → IsValid d
    → (create center_id u form d).0 ≡ ok s
    → IsValid (create center_id u form d).1
create-IsValid center_id u form d v h =
    let a = create-Admitted center_id u form d h in
    Opened-IsValid a.car center_id u form d (create center_id u form d).1 a.opened v
