-- ===== src/Tests/Stats.antt =====
-- The dashboard on a small database.
use ulov_backend.Prelude.{ℕ, ◌≡◌, refl, none, some, [], ◌∷◌}
use ulov_backend.Prelude.Text.{codes}
use ulov_backend.Prelude.Lists.{find_row, select_rows}
use ulov_backend.Prelude.Groups.{group_by}
use ulov_backend.Exec.{ok}
use ulov_backend.Db.{Db}
use ulov_backend.Db.Rows.{Service, ServiceItem, waiting, completed}
use ulov_backend.Centers.{assert_ops_access}
use ulov_backend.Stats.{mechanic_load, outer_join}
use ulov_backend.Stats.Overview.{Tallies, overview-Tallies}
use ulov_backend.Tests.Data.{shop, boss, service_row}

abbrev item : ℕ → ℕ → ℕ → ServiceItem
item i service_id amount = record {
  id = i;
  service_id = service_id;
  fields = record {
    service_type = codes "oil";
    parts = codes "[]";
    notes = none;
    service_price = amount;
    parts_price = 0;
  };
  created_at = 1;
}

-- One service that is done on the first day, with two items, and one that waits.
abbrev done_row : Service
done_row = record (service_row 30 completed) { completed_at = some 5; mechanic_id = some 8 }

abbrev busy : Db
busy = record (shop (done_row ∷ service_row 31 waiting ∷ []) [] []) {
  items = item 60 30 100 ∷ item 61 30 250 ∷ [];
}

overview-Tallies_example : Tallies 7 10 boss busy (assert_ops_access 10 boss busy).0
overview-Tallies_example = overview-Tallies 7 10 boss busy

-- The mechanic has done one service, which counts for two.
load_runs :
    (mechanic_load 10 boss busy).0
    ≡ ok (
        record { mechanic_id = none; services = 1; revenue = 0 }
        ∷ record { mechanic_id = some 8; services = 2; revenue = 350 }
        ∷ [])
unfolding mechanic_load assert_ops_access outer_join group_by select_rows find_row
load_runs = refl
