-- ===== src/Trips/Requests.antt =====
-- A run of the requests that write to trips, one session for each: those of
-- app/modules/trips/router.py and the deletion of a car. The environment chooses the requests, who
-- makes them and the times.
use ulov_backend.Prelude.{Bool, ℕ, Option, List, [], ◌∷◌}
use ulov_backend.Exec.{request}
use ulov_backend.Trips.{Floats, PointIn, Store, start, append_points, finish, delete_car}

-- The requests that write.
pub data Request (F : Type 0) : Type 0 where
  start_trip : ℕ → Option ℕ → Request F
  send_points : ℕ → ℕ → List (PointIn F) → Request F
  finish_trip : ℕ → ℕ → Request F
  drop_car : (ℕ → Bool) → ℕ → ℕ → Request F

-- The state that one request leaves, rolled back where it fails.
unfoldable pub step : {F D : Type 0} → Floats F D → ℕ → Request F → Store F D → Store F D
step fl now (start_trip u c) w = (request (start fl u c) w).1
step fl now (send_points i u ps) w = (request (append_points fl now i u ps) w).1
step fl now (finish_trip i u) w = (request (finish fl now i u) w).1
step fl now (drop_car insured c u) w = (request (delete_car fl insured c u) w).1

unfoldable pub serve : {F D : Type 0} → Floats F D → List (ℕ × Request F) → Store F D → Store F D
unfolding step
serve fl [] w = w
serve fl ((now, r) ∷ rs) w = serve fl rs (step fl now r w)
