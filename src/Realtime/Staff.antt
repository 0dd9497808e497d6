-- ===== src/Realtime/Staff.antt =====
-- How an endpoint of the staff ends.
use ulov_backend.Prelude.Lists.{find_row}
use ulov_backend.Prelude.{◌≡◌, ◌∙◌, refl, ℕ, Option, List, ◌++◌, inl, inr, arith, [], ◌∷◌, some}
use ulov_backend.Prelude.Tests.{Bool-cases, ◌==◌}
use ulov_backend.Prelude.Text.{Text, codes}
use ulov_backend.Errors.{Code}
use ulov_backend.Exec.{Exec, Result, ok, err, Result-cases}
use ulov_backend.Rbac.{CurrentUser, is_staff, get_current_staff}
use ulov_backend.Db.{Db}
use ulov_backend.Db.Rows.{Service, ServiceItem, Status, Car}
use ulov_backend.Realtime.{World, event_of, channels_of, publications, serve_staff, Event}

-- A request of the staff that fails publishes nothing and leaves the database alone.
pub serve_staff_failed :
    (uuid_text : ℕ → Text) (caller : Result CurrentUser) (to : Option Status)
    (handler : CurrentUser → Exec Db (Service × List ServiceItem)) (w : World) (e : Code)
    → (serve_staff uuid_text caller to handler w).0 ≡ err e
    → (serve_staff uuid_text caller to handler w).1 ≡ w
unfolding serve_staff
serve_staff_failed uuid_text (err c) to handler w e h = refl
serve_staff_failed uuid_text (ok u) to handler w e h = elim (Result-cases (get_current_staff u)) [
  | inl (c, q) ↦ ground (arith, q)
  | inr (v, q) ↦ elim (Result-cases (handler v w.0).0) [
    | inl (c, f) ↦ ground (arith, q, f)
    | inr (r, f) ↦ absurd (ground (arith, q, f, h))
  ]
]

-- One that succeeds leaves what its handler left, and publishes after it.
pub serve_staff_ok :
    (uuid_text : ℕ → Text) (u : CurrentUser) (to : Option Status)
    (handler : CurrentUser → Exec Db (Service × List ServiceItem)) (w : World) (s : Service)
    (items : List ServiceItem)
    → (serve_staff uuid_text (ok u) to handler w).0 ≡ ok (s, items)
    → ((handler u w.0).0 ≡ ok (s, items))
      × ((serve_staff uuid_text (ok u) to handler w).1 ≡ (
        (handler u w.0).1,
        w.1 ++ publications (channels_of uuid_text s (handler u w.0).1) (event_of s to),
      ))
unfolding serve_staff get_current_staff
serve_staff_ok uuid_text u to handler w s items h = elim (Bool-cases (is_staff u)) [
  | inr guest ↦ absurd (ground (arith, guest, h))
  | inl member ↦ elim (Result-cases (handler u w.0).0) [
    | inl (c, f) ↦ absurd (ground (arith, member, f, h))
    | inr ((s', items'), f) ↦
        let same : ok (s', items') ≡ ok (s, items) = ground (arith, member, f, h) in
        (f ∙ same, ground (arith, member, f, same))
  ]
]

-- The three publications about a service: on its own channel, on its centre's and on its customer's.
abbrev pub told : (ℕ → Text) → ℕ → ℕ → ℕ → Event → List (Text × Event)
told uuid_text service_id center_id user_id e =
    (codes "events:service:" ++ uuid_text service_id, e)
    ∷ (codes "events:services:" ++ uuid_text center_id, e)
    ∷ (codes "events:user:" ++ uuid_text user_id, e)
    ∷ []

pub publications-told :
    (uuid_text : ℕ → Text) (s : Service) (d : Db) (to : Option Status) (c : Car)
    → find_row (λ x. x.id == s.car_id) d.cars ≡ some c
    → publications (channels_of uuid_text s d) (event_of s to)
      ≡ told uuid_text s.id s.center_id c.owner_id
          (record { service_id = s.id; center_id = s.center_id; status = s.status; to_status = to })
unfolding publications channels_of
publications-told uuid_text s d to c found = ground (arith, found)
