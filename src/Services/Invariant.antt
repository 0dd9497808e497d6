-- ===== src/Services/Invariant.antt =====
-- What holds of the tables of services between two requests.
pub mod Kept
pub mod Opening
pub mod Editing
pub mod Runs
pub mod Forever
use ulov_backend.Prelude.{◌<◌, ◌≡◌, some}
use ulov_backend.Prelude.Keys.{Keyed}
use ulov_backend.Prelude.Lists.{All}
use ulov_backend.Db.{Db}
use ulov_backend.Db.Rows.{Service, ServiceTransition}
use ulov_backend.Services.History.{IsWalk, replay, unknown}
use ulov_backend.Services.Transition.Timing.{IsTimed}

-- Ids are unique and below the next one, the times of every service fit its state, the log is a
-- walk in the diagram, and replaying it gives the state that each service is in.
pub record IsValid (d : Db) : Type 0 where
  pub keyed : Keyed (λ (s : Service). s.id) d.services
  pub below : All (λ s. s.id < d.next_id) d.services
  pub timed : All IsTimed d.services
  pub traced : All (λ s. replay unknown d.transitions s.id ≡ some s.status) d.services
  pub walk : IsWalk unknown d.transitions
  pub named_below : All (λ (t : ServiceTransition). t.service_id < d.next_id) d.transitions
