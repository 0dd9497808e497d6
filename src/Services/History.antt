-- ===== src/Services/History.antt =====
-- The log of transitions as a history: what state it leaves each service in, and when it is a walk
-- in the diagram.
use ulov_backend.Prelude.{ℕ, ◌≡◌, ◌≢◌, refl, Option, none, some, List, [], ◌∷◌, ◌++◌, arith}
use ulov_backend.Prelude.Tests.{◌==◌, if◌then◌else◌}
use ulov_backend.Prelude.Lists.{All}
use ulov_backend.Db.Rows.{ServiceTransition, Status, waiting}
use ulov_backend.Services.StateMachine.Graph.{◌⟶◌}

-- What is known of each service.
abbrev pub States : Type 0
States = ℕ → Option Status

abbrev pub unknown : States
unknown _ = none

abbrev pub enter : States → ServiceTransition → States
enter cur t i = if t.service_id == i then some t.to_status else cur i

-- The states after a log.
unfoldable pub replay : States → List ServiceTransition → States
replay cur [] = cur
replay cur (t ∷ ts) = replay (enter cur t) ts

-- A new service begins by waiting; any other goes on from the state that it is in, along an arrow.
pub data Legal (cur : Option Status) (t : ServiceTransition) : Type 0 where
  first : cur ≡ none → t.from_status ≡ none → t.to_status ≡ waiting → Legal cur t
  onward : (s : Status) → cur ≡ some s → t.from_status ≡ some s → (s ⟶ t.to_status) → Legal cur t

abbrev pub IsWalk : States → List ServiceTransition → Type 0
IsWalk cur [] = Unit
IsWalk cur (t ∷ ts) = Legal (cur t.service_id) t × IsWalk (enter cur t) ts

pub replay-append :
    (cur : States) (ts : List ServiceTransition) (t : ServiceTransition) (i : ℕ)
    → replay cur (ts ++ t ∷ []) i
      ≡ (if t.service_id == i then some t.to_status else replay cur ts i)
unfolding replay
replay-append cur [] t i = refl
replay-append cur (r ∷ ts) t i = replay-append (enter cur r) ts t i

pub IsWalk-append :
    (cur : States) (ts : List ServiceTransition) (t : ServiceTransition)
    → IsWalk cur ts
    → Legal (replay cur ts t.service_id) t
    → IsWalk cur (ts ++ t ∷ [])
unfolding replay
IsWalk-append cur [] t w l = (l, tt)
IsWalk-append cur (r ∷ ts) t w l = (w.0, IsWalk-append (enter cur r) ts t w.1 l)

-- A log that never names a service says nothing of it.
pub replay_unnamed :
    (cur : States) (ts : List ServiceTransition) (i : ℕ)
    → All (λ t. t.service_id ≢ i) ts
    → replay cur ts i ≡ cur i
unfolding replay
replay_unnamed cur [] i h = refl
replay_unnamed cur (t ∷ ts) i h = ground (arith, h.0, replay_unnamed (enter cur t) ts i h.1)
