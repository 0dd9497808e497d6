-- ===== src/Services/Repository/Items.antt =====
-- What the loop over line items leaves alone.
use ulov_backend.Prelude.{ℕ, ◌≤◌, ◌≡◌, refl, sym, ◌∙◌, List, [], ◌∷◌, ◌++◌, map, arith}
use ulov_backend.Prelude.Tests.{◌==◌, ==_refl}
use ulov_backend.Prelude.Lists.{
  select_rows, delete_rows, select_rows-append, select_rows-delete_rows,
}
use mathlib.Core.List.{append-nil, append_assoc, map-append}
use ulov_backend.Exec.{ok}
use ulov_backend.Db.{Db}
use ulov_backend.Db.Rows.{ItemFields, ServiceItem}
use ulov_backend.Services.Repository.{add_item, add_items, replace_items}

-- All that an intake or an edit reads beside the items, and the order of ids.
pub record Spares (d d' : Db) : Type 0 where
  pub services_kept : d'.services ≡ d.services
  pub transitions_kept : d'.transitions ≡ d.transitions
  pub users_kept : d'.users ≡ d.users
  pub cars_kept : d'.cars ≡ d.cars
  pub readings_kept : d'.readings ≡ d.readings
  pub later : d.next_id ≤ d'.next_id

add_items-Spares :
    (service_id : ℕ) (fs : List ItemFields) (d : Db) → Spares d (add_items service_id fs d).1
unfolding add_items add_item
add_items-Spares service_id [] d = ground arith
add_items-Spares service_id (f ∷ fs) d =
    ground (arith, add_items-Spares service_id fs (add_item service_id f d).1)

-- The row that `add_item` adds.
abbrev add_item_row : ℕ → ItemFields → Db → ServiceItem
add_item_row service_id f d = record {
  id = d.next_id;
  service_id = service_id;
  fields = f;
  created_at = d.tx_now;
}

add_items_ok :
    (service_id : ℕ) (fs : List ItemFields) (d : Db)
    → (out : List ServiceItem) × ((add_items service_id fs d).0 ≡ ok out)
unfolding add_items add_item
add_items_ok service_id [] d = ([], refl)
add_items_ok service_id (f ∷ fs) d =
    let (out, e) = add_items_ok service_id fs (add_item service_id f d).1 in
    ((add_item_row service_id f d) ∷ out, ground (arith, e))

-- The state that the loop of `replace_items` begins in.
abbrev cleared : ℕ → Db → Db
cleared service_id d = record d { items = delete_rows (λ i. i.service_id == service_id) d.items }

pub replace_items-Spares :
    (service_id : ℕ) (fs : List ItemFields) (d : Db) → Spares d (replace_items service_id fs d).1
unfolding replace_items
replace_items-Spares service_id fs d =
    ground (arith, add_items-Spares service_id fs (cleared service_id d))

pub replace_items_ok :
    (service_id : ℕ) (fs : List ItemFields) (d : Db)
    → (out : List ServiceItem) × ((replace_items service_id fs d).0 ≡ ok out)
unfolding replace_items
replace_items_ok service_id fs d =
    let (out, e) = add_items_ok service_id fs (cleared service_id d) in (out, ground (arith, e))

-- The line items of one service, without their ids and times.
abbrev pub items_of : ℕ → Db → List ItemFields
items_of service_id d = map (λ i. i.fields) (select_rows (λ i. i.service_id == service_id) d.items)

add_item-items_of :
    (service_id : ℕ) (f : ItemFields) (d : Db)
    → items_of service_id (add_item service_id f d).1 ≡ items_of service_id d ++ f ∷ []
unfolding add_item select_rows
add_item-items_of service_id f d =
    rw
      (
        select_rows-append (λ (i : ServiceItem). i.service_id == service_id),
        map-append,
        ==_refl service_id,
      )
      refl

add_items-step :
    (service_id : ℕ) (f : ItemFields) (fs : List ItemFields) (d : Db)
    → (add_items service_id (f ∷ fs) d).1 ≡ (add_items service_id fs (add_item service_id f d).1).1
unfolding add_items add_item
add_items-step service_id f fs d =
    ground (arith, (add_items_ok service_id fs (add_item service_id f d).1).1)

add_items-items_of :
    (service_id : ℕ) (fs : List ItemFields) (d : Db)
    → items_of service_id (add_items service_id fs d).1 ≡ items_of service_id d ++ fs
unfolding add_items
add_items-items_of service_id [] d = sym (append-nil _)
add_items-items_of service_id (f ∷ fs) d = rw (add_items-step service_id f fs d) (
    add_items-items_of service_id fs (add_item service_id f d).1
    ∙ rw (add_item-items_of service_id f d) (append_assoc (items_of service_id d) (f ∷ []) fs))

-- After the items of a service are replaced, they are the new ones in their order.
pub replace_items-items_of :
    (service_id : ℕ) (fs : List ItemFields) (d : Db)
    → items_of service_id (replace_items service_id fs d).1 ≡ fs
unfolding replace_items
replace_items-items_of service_id fs d =
    ground (arith, (add_items_ok service_id fs (cleared service_id d)).1)
    ∙ add_items-items_of service_id fs (cleared service_id d)
    ∙ rw (select_rows-delete_rows (λ (i : ServiceItem). i.service_id == service_id) d.items) refl
