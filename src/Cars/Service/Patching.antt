-- ===== src/Cars/Service/Patching.antt =====
-- What an edit of a car has done when it succeeds.
use ulov_backend.Prelude.{
  ℕ, ◌≡◌, ◌≢◌, refl, ap, ◌∙◌, Bool, true, false, Option, none, some, inl, inr, arith,
}
use ulov_backend.Prelude.Tests.{
  if◌then◌else◌, ◌==◌, ==_iff, ==_refl, or_else, Option-cases, Bool-cases,
}
use mathlib.Core.Path.{subst}
use ulov_backend.Prelude.Text.{Text}
use ulov_backend.Prelude.Keys.{Keyed, Keyed-find_row}
use ulov_backend.Prelude.Lists.{All, find_row, find_row-test, find_row-update_rows, update_rows}
use ulov_backend.Exec.{ok}
use ulov_backend.Db.{Db}
use ulov_backend.Db.Rows.{Car}
use ulov_backend.Cars.Repository.{clashes}
use ulov_backend.Cars.Service.{
  PatchForm, columns_of, get_owned, check_plate, check_vin, check_unique_plate, check_unique_vin,
  lowers, note_mileage, patch,
}
use ulov_backend.Cars.Service.Mileage.{car_of}
use ulov_backend.Cars.Service.Uniqueness.{UniquePlates, no_clash, update-UniquePlates}

check_plate-state : (plate : Option Text) (car : Car) (d : Db) → (check_plate plate car d).1 ≡ d
unfolding check_plate check_unique_plate
check_plate-state none car d = refl
check_plate-state (some plate) car d = ground arith

check_vin-state : (vin : Option Text) (car : Car) (d : Db) → (check_vin vin car d).1 ≡ d
unfolding check_vin check_unique_vin
check_vin-state none car d = refl
check_vin-state (some vin) car d = ground arith

note_mileage_ok :
    (m : Option ℕ) (car_id seen : ℕ) (d : Db)
    → ((note_mileage m car_id seen d).0 ≡ ok tt) × ((note_mileage m car_id seen d).1.cars ≡ d.cars)
unfolding note_mileage
note_mileage_ok none car_id seen d = (refl, refl)
note_mileage_ok (some m) car_id seen d = elim (Bool-cases (m == seen)) [
  | inl e ↦ ground (arith, e)
  | inr e ↦ ground (arith, e)
]

note_mileage_seen :
    (m : Option ℕ) (car_id old : ℕ) (d : Db) → (note_mileage m car_id (or_else m old) d).1 ≡ d
unfolding note_mileage
note_mileage_seen none car_id old d = refl
note_mileage_seen (some m) car_id old d = ground (arith, ==_refl m)

-- What a successful edit has read and written.
pub record Edited (i owner_id : ℕ) (form : PatchForm) (d d' : Db) (q : Car) : Type 0 where
  pub row : Car
  pub found : car_of i d ≡ some row
  pub owned : row.owner_id ≡ owner_id
  pub not_lower : lowers form.mileage row.mileage ≡ false
  pub free : clashes (columns_of form row) d ≡ false
  pub cars_set : d'.cars ≡ update_rows (λ c. c.id == row.id) (columns_of form) d.cars
  pub answer : q ≡ columns_of form row

module _ (i owner_id : ℕ) (form : PatchForm) (d : Db) where
  abbrev written : Car → Db
  written c = record d { cars = update_rows (λ x. x.id == c.id) (columns_of form) d.cars }

  -- The row is found again, with its columns set.
  reread :
      (c : Car)
      → car_of i d ≡ some c
      → find_row (λ x. x.id == c.id) (update_rows (λ x. x.id == c.id) (columns_of form) d.cars)
        ≡ some (columns_of form c)
  unfolding columns_of
  reread c found =
      let c_id : c.id ≡ i = (==_iff c.id i).0 (find_row-test (λ x. x.id == i) d.cars found) in
      find_row-update_rows (λ x. x.id == c.id) (λ x. x.id == c.id) (columns_of form) (λ x _. refl)
        d.cars
      ∙ rw (c_id, found) (rw (c_id, ==_refl i) refl)

  abbrev seen : Bool → Car → ℕ
  seen synced c = if synced then (columns_of form c).mileage else c.mileage

  patch-passes :
      (synced : Bool) (c : Car) {q : Car}
      → car_of i d ≡ some c
      → (patch synced i owner_id form d).0 ≡ ok q
      → (c.owner_id ≡ owner_id)
        × (lowers form.mileage c.mileage ≡ false)
        × (clashes (columns_of form c) d ≡ false)
        × (q ≡ columns_of form c)
        × ((patch synced i owner_id form d).1
            ≡ (note_mileage form.mileage c.id (seen synced c) (written c)).1)
  unfolding patch get_owned
  patch-passes synced c found h = ground (
    arith,
    found,
    check_plate-state form.plate c d,
    check_vin-state form.vin c d,
    reread c found,
    (note_mileage_ok form.mileage c.id (seen synced c) (written c)).0,
  )

  patch-found :
      (synced : Bool) {q : Car}
      → (patch synced i owner_id form d).0 ≡ ok q
      → (c : Car) × (car_of i d ≡ some c)
  unfolding patch get_owned
  patch-found synced h = elim (Option-cases (car_of i d)) [
    | inl missing ↦ absurd (ground (arith, missing))
    | inr (c, found) ↦ (c, found)
  ]

  -- A successful edit was asked by the owner of the car and does not lower its mileage; the given
  -- columns of that row alone are set, to a plate and a VIN that no other car has, and the answer
  -- is that row.
  pub patch-Edited :
      (synced : Bool) {q : Car}
      → (patch synced i owner_id form d).0 ≡ ok q
      → Edited i owner_id form d (patch synced i owner_id form d).1 q
  patch-Edited synced h =
      let (c, found) = patch-found synced h in
      let (owned, not_lower, free, same, state) = patch-passes synced c found h in
      record {
        row = c;
        found = found;
        owned = owned;
        not_lower = not_lower;
        free = free;
        cars_set =
            ap (λ (x : Db). x.cars) state
            ∙ (note_mileage_ok form.mileage c.id (seen synced c) (written c)).1;
        answer = same;
      }

  others_free :
      (c : Car)
      → clashes (columns_of form c) d ≡ false
      → All (λ x. x.id ≢ c.id → x.plate ≢ (columns_of form c).plate) d.cars
  unfolding columns_of
  others_free c free = no_clash (columns_of form c) d free

  -- Where ids of cars differ and no two cars have one plate, no two have one after a successful
  -- edit.
  pub patch-UniquePlates :
      (synced : Bool) {q : Car}
      → Keyed (λ (c : Car). c.id) d.cars
      → UniquePlates d
      → (patch synced i owner_id form d).0 ≡ ok q
      → UniquePlates (patch synced i owner_id form d).1
  patch-UniquePlates synced ids unique h =
      let e = patch-Edited synced h in
      rw e.cars_set (
        update-UniquePlates e.row (columns_of form) d.cars ids unique
          (Keyed-find_row (λ (c : Car). c.id) (λ c. c.id == i) d.cars e.row ids e.found)
          (others_free e.row e.free))

  history_kept :
      (c : Car) → (note_mileage form.mileage c.id (seen true c) (written c)).1 ≡ written c
  unfolding columns_of
  history_kept c = note_mileage_seen form.mileage c.id c.mileage (written c)

  -- Where the session's rows show an update at once, a successful edit leaves the history of
  -- mileages as it was, whatever mileage it sets.
  pub patch-readings :
      {q : Car}
      → (patch true i owner_id form d).0 ≡ ok q
      → ((patch true i owner_id form d).1.readings ≡ d.readings)
        × (car_of i (patch true i owner_id form d).1 ≡ some q)
  patch-readings h =
      let (c, found) = patch-found true h in
      let (owned, not_lower, free, same, state) = patch-passes true c found h in
      let kept : (patch true i owner_id form d).1 ≡ written c = state ∙ history_kept c in
      let c_id : c.id ≡ i = (==_iff c.id i).0 (find_row-test (λ x. x.id == i) d.cars found) in
      (
        ap (λ (x : Db). x.readings) kept,
        rw (kept, same)
            (subst (λ k. find_row (λ x. x.id == k) (written c).cars ≡ some (columns_of form c)) c_id
              (reread c found)),
      )
