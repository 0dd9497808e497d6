-- ===== src/Services/Edit/Effect.antt =====
-- What an edit has done when it succeeds.
use ulov_backend.Prelude.{
  ℕ, ◌≤◌, ◌≡◌, refl, false, Option, none, some, inl, inr, List, arith, not, ◌&&◌,
}
use ulov_backend.Prelude.Tests.{◌==◌, Option-cases, is_some}
use ulov_backend.Prelude.Lists.{find_row, update_rows}
use ulov_backend.Prelude.Text.{Text}
use ulov_backend.Exec.{ok}
use ulov_backend.Rbac.{CurrentUser}
use ulov_backend.Db.{Db}
use ulov_backend.Db.Rows.{Service, ItemFields, Stage, Mechanic}
use ulov_backend.Services.StateMachine.{mem_status, terminal}
use ulov_backend.Services.Repository.{is_live}
use ulov_backend.Services.Repository.Items.{
  Spares, items_of, replace_items-Spares, replace_items_ok, replace_items-items_of,
}
use ulov_backend.Mechanics as mechanics
use ulov_backend.Services.Access.{assert_can_mutate, validate_mechanic_for_center}
use ulov_backend.Services.Access.Rules.{assert_can_mutate-state}
use ulov_backend.Services.Edit.{
  PatchForm, check_mechanic, payload_of, store_items, patch, add_condition_photo,
}

store_items-Spares :
    (service_id : ℕ) (fs : Option (List ItemFields)) (d : Db)
    → Spares d (store_items service_id fs d).1
unfolding store_items
store_items-Spares service_id none d = ground arith
store_items-Spares service_id (some fs) d =
    ground (arith, replace_items-Spares service_id fs d, (replace_items_ok service_id fs d).1)

store_items_ok :
    (service_id : ℕ) (fs : Option (List ItemFields)) (d : Db)
    → (store_items service_id fs d).0 ≡ ok tt
unfolding store_items
store_items_ok service_id none d = refl
store_items_ok service_id (some fs) d = ground (arith, (replace_items_ok service_id fs d).1)

-- The line items that an edit asks for.
abbrev pub items_after : Option (List ItemFields) → List ItemFields → List ItemFields
items_after none old = old
items_after (some fs) old = fs

store_items-items_of :
    (service_id : ℕ) (fs : Option (List ItemFields)) (d : Db)
    → items_of service_id (store_items service_id fs d).1 ≡ items_after fs (items_of service_id d)
unfolding store_items
store_items-items_of service_id none d = refl
store_items-items_of service_id (some fs) d =
    ground (arith, replace_items-items_of service_id fs d, (replace_items_ok service_id fs d).1)

check_mechanic-state :
    (center_id : ℕ) (m : Option (Option ℕ)) (d : Db) → (check_mechanic center_id m d).1 ≡ d
unfolding check_mechanic validate_mechanic_for_center
check_mechanic-state center_id none d = refl
check_mechanic-state center_id (some none) d = refl
check_mechanic-state center_id (some (some m)) d = ground arith

-- The row of a service after an edit: what the form gives, else what it had.
abbrev pub given {ℓ} : {A : Type ℓ} → Option A → A → A
given none old = old
given (some new) old = new

abbrev pub given? {ℓ} : {A : Type ℓ} → Option A → Option A → Option A
given? none old = old
given? (some new) old = some new

abbrev pub edited : PatchForm → Service → Service
edited form s = record s {
  mechanic_id = given form.mechanic_id s.mechanic_id;
  next_recommended_mileage = given? form.next_recommended_mileage s.next_recommended_mileage;
  notes = given? form.notes s.notes;
}

-- The mechanic that a form names works in the centre and is not deleted.
abbrev pub WorksIn : ℕ → Option (Option ℕ) → Db → Type 0
WorksIn center_id (some (some i)) d =
    (m : Mechanic) × (find_row (λ m. (m.id == i) && not (is_some m.deleted_at)) d.mechanics
      ≡ some m)
    × (m.center_id ≡ center_id)
WorksIn center_id _ d = Unit

check_mechanic-WorksIn :
    (center_id : ℕ) (m : Option (Option ℕ)) (d : Db)
    → (check_mechanic center_id m d).0 ≡ ok tt
    → WorksIn center_id m d
unfolding check_mechanic validate_mechanic_for_center mechanics.get_by_id
check_mechanic-WorksIn center_id none d h = tt
check_mechanic-WorksIn center_id (some none) d h = tt
check_mechanic-WorksIn center_id (some (some i)) d h =
    elim (Option-cases (find_row (λ m. (m.id == i) && not (is_some m.deleted_at)) d.mechanics)) [
      | inl e ↦ absurd (ground (arith, e, h))
      | inr (m, e) ↦ (m, e, ground (arith, e, h))
    ]

-- What a successful edit has done.
pub record Patched (service_id : ℕ) (u : CurrentUser) (form : PatchForm) (d d' : Db) : Type 0 where
  pub row : Service
  pub found : find_row (is_live service_id) d.services ≡ some row
  pub permitted : (assert_can_mutate row u d).0 ≡ ok tt
  pub unlocked : mem_status row.status terminal ≡ false
  pub mechanic_checked : WorksIn row.center_id form.mechanic_id d
  pub services_set : d'.services ≡ update_rows (λ s. s.id == row.id) (edited form) d.services
  pub transitions_kept : d'.transitions ≡ d.transitions
  pub items_set : items_of row.id d' ≡ items_after form.items (items_of row.id d)
  pub later : d.next_id ≤ d'.next_id

module _ (service_id : ℕ) (u : CurrentUser) (form : PatchForm) (d : Db) where
  abbrev written : Service → Db
  written s = record d { services = update_rows (λ r. r.id == s.id) (payload_of form) d.services }

  -- The checks of `patch` pass, and what is left is the writes.
  patch-passes :
      (s : Service) {r : Service}
      → find_row (is_live service_id) d.services ≡ some s
      → (patch service_id u form d).0 ≡ ok r
      → ((assert_can_mutate s u d).0 ≡ ok tt)
        × (mem_status s.status terminal ≡ false)
        × ((check_mechanic s.center_id form.mechanic_id d).0 ≡ ok tt)
        × ((patch service_id u form d).1 ≡ (store_items s.id form.items (written s)).1)
  unfolding patch
  patch-passes s found h = ground (
    arith,
    assert_can_mutate-state d s u,
    check_mechanic-state s.center_id form.mechanic_id d,
    store_items_ok s.id form.items (written s),
  )

  patch-found :
      {r : Service}
      → (patch service_id u form d).0 ≡ ok r
      → (s : Service) × (find_row (is_live service_id) d.services ≡ some s)
  unfolding patch
  patch-found h = elim (Option-cases (find_row (is_live service_id) d.services)) [
    | inl missing ↦ absurd (ground arith)
    | inr found ↦ found
  ]

  -- A successful edit was asked by someone who may change the service, which was at no end, with a
  -- mechanic of its centre who is not deleted, or none. It has set the columns that were given, and
  -- no other, of that service alone, replaced its items exactly if items are given, and left the
  -- log.
  pub patch-Patched :
      {r : Service}
      → (patch service_id u form d).0 ≡ ok r
      → Patched service_id u form d (patch service_id u form d).1
  unfolding payload_of
  patch-Patched h =
      let (s, found) = patch-found h in
      let (permitted, unlocked, mechanic, state) = patch-passes s found h in
      let spared : Spares (written s) (store_items s.id form.items (written s)).1 =
        store_items-Spares s.id form.items (written s) in
      rw state (record {
        row = s;
        found = found;
        permitted = permitted;
        unlocked = unlocked;
        mechanic_checked = check_mechanic-WorksIn s.center_id form.mechanic_id d mechanic;
        services_set = spared.services_kept;
        transitions_kept = spared.transitions_kept;
        items_set = store_items-items_of s.id form.items (written s);
        later = spared.later;
      })

-- A photo is added and nothing else is changed, whether or not it succeeds.
pub add_condition_photo-Spares :
    (service_id : ℕ) (u : CurrentUser) (url : Text) (stage : Stage) (d : Db)
    → Spares d (add_condition_photo service_id u url stage d).1
unfolding add_condition_photo
add_condition_photo-Spares service_id u url stage d =
    elim (Option-cases (find_row (is_live service_id) d.services)) [
      | inl missing ↦ ground (arith, missing)
      | inr (s, found) ↦ ground (arith, found, assert_can_mutate-state d s u)
    ]
