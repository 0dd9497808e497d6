-- ===== src/Tests/Centers.antt =====
-- Centres, mechanics, lists, the inbox and the rate limit.
use ulov_backend.Prelude.{
  ℕ, ◌≡◌, ◌≢◌, ◌↔◌, refl, not, ◌||◌, ◌&&◌, false, none, some, [], ◌∷◌, arith,
}
use ulov_backend.Prelude.Tests.{◌==◌, is_some, if◌then◌else◌}
use ulov_backend.Prelude.Text.{codes, all_fit}
use ulov_backend.Prelude.Lists.{All, find_row, select_rows}
use ulov_backend.Errors.{center_not_owner, database_error, mechanic_login_duplicate}
use ulov_backend.Exec.{Succeeds, ok, err}
use ulov_backend.Rbac.{has_role, admin}
use ulov_backend.Db.{Db}
use ulov_backend.Db.Rows.{Mechanic, Notification, waiting, subscription, paid_bill}
use ulov_backend.Centers.Profile.{delete}
use ulov_backend.Centers.Removal.{delete_complete}
use ulov_backend.Mechanics.{has_login, new_mechanic}
use ulov_backend.Mechanics.Service.{MechanicCreateIn, create}
use ulov_backend.Mechanics.Logins.{is_live, keywords, create_outcome}
use ulov_backend.RateLimit.Window.{let_through, let_through_window}
use ulov_backend.Cars.Repository as cars_repo
use ulov_backend.Services.Access.{validate_car}
use ulov_backend.Services.Lists.{list_for_car, list_vehicle_history}
use ulov_backend.Services.Lists.Views.{Sees, answer_of, list_vehicle_history_iff}
use ulov_backend.Tests.Data.{center, shop, boss, driver, service_row}
use ulov_backend.Tests.Redis.{store, store_laws, empty}
use ulov_backend.Tests.Auth.{hasher}

let_through_window_example :
    let_through store store_laws (codes "ip") 2 60 (125 ∷ (120 ∷ (179 ∷ []))) empty ≡ 2
let_through_window_example =
    let_through_window store store_laws (codes "ip") 2 60 2 (125 ∷ (120 ∷ (179 ∷ []))) empty
      (ground arith) (refl, (refl, (refl, tt))) (λ t there. refl)

-- A mechanic who was deleted.
abbrev gone : Mechanic
gone = record {
  id = 5;
  center_id = 10;
  full_name = codes "Ali";
  login = codes "ali";
  password_hash = codes "hash";
  service_types = [];
  deleted_at = some 3;
  created_at = 1;
}

abbrev staffed : Db
staffed = record (shop [] [] []) { mechanics = gone ∷ [] }

abbrev hire : MechanicCreateIn
hire = record {
  full_name = codes "Ali";
  login = codes "ali";
  password = codes "secret";
  service_types = [];
}

staffed_center : find_row (λ c. c.id == 10) staffed.centers ≡ some center
unfolding find_row
staffed_center = refl

create_outcome_example : (create hasher 4 10 boss hire staffed).0 ≡ (
    if not (has_role boss admin || (center.owner_user_id == boss.id))
    then err center_not_owner
    else (if is_some (find_row (λ m. has_login (codes "ali") m && is_live m) staffed.mechanics)
        then err mechanic_login_duplicate
        else (if is_some (find_row (has_login (codes "ali")) staffed.mechanics)
              || not (all_fit 64 hire.service_types)
            then err database_error
            else ok (new_mechanic (keywords hasher 4 10 hire) 100 7))))
create_outcome_example = create_outcome hasher 4 boss hire staffed center staffed_center

delete_complete_example :
    ((delete 10 boss staffed).0 ≡ (
      if not (has_role boss admin || (center.owner_user_id == boss.id))
      then err center_not_owner
      else (if is_some (find_row (λ s. s.center_id == 10) staffed.services)
          then err database_error
          else ok tt)))
    × ((delete 10 boss staffed).0 ≡ ok tt
        → let d' = (delete 10 boss staffed).1 in
          (find_row (λ c'. c'.id == 10) d'.centers ≡ none)
          × All (λ m. (m.center_id == 10) ≡ false) d'.mechanics
          × ((j : ℕ)
              → j ≢ 10
              → find_row (λ c'. c'.id == j) d'.centers
                ≡ find_row (λ c'. c'.id == j) staffed.centers))
delete_complete_example = delete_complete center boss staffed staffed_center

abbrev note : Notification
note = record { id = 70; user_id = 2; about = paid_bill 50 90000 subscription; read_at = none }

abbrev inbox : Db
inbox = record (shop [] [] []) { notifications = note ∷ [] }

abbrev queue : Db
queue = shop (service_row 30 waiting ∷ []) [] []

queue_listed : (list_for_car 20 driver 100 0 queue).0 ≡ ok (service_row 30 waiting ∷ [])
unfolding list_for_car validate_car cars_repo.get_by_id find_row select_rows
queue_listed = refl

list_vehicle_history_iff_example :
    (Succeeds (list_vehicle_history 20 100 0 driver queue).0
      ↔ All (Sees driver queue) (service_row 30 waiting ∷ []))
    × (All (Sees driver queue) (service_row 30 waiting ∷ [])
        → (list_vehicle_history 20 100 0 driver queue).0
          ≡ ok (answer_of queue (service_row 30 waiting ∷ [])))
list_vehicle_history_iff_example =
    list_vehicle_history_iff driver queue 20 100 0 (service_row 30 waiting ∷ []) (tt, tt)
      queue_listed
