-- ===== src/Services/Lists/Views.antt =====
-- A list of services with their items is answered where the user may see each of them.
use ulov_backend.Prelude.{
  ℕ, ◌≡◌, refl, ap, ◌∙◌, ◌↔◌, Bool, true, ◌&&◌, not, some, inl, inr, List, [], ◌∷◌, arith,
}
use mathlib.Core.Path.{subst, sym}
use ulov_backend.Prelude.Tests.{◌==◌, is_some, Bool-cases, Option-cases}
use ulov_backend.Prelude.Keys.{Keyed, Keyed-find_self}
use ulov_backend.Prelude.Lists.{All, All-map, find_row, select_rows}
use ulov_backend.Prelude.Pages.{All-take, All-drop, All-reverse, All-select_rows}
use ulov_backend.Exec.{Result-cases, Succeeds, ok, err}
use ulov_backend.Errors.{Code}
use ulov_backend.Rbac.{CurrentUser, is_staff}
use ulov_backend.Db.{Db}
use ulov_backend.Db.Rows.{Service, ServiceItem}
use ulov_backend.Cars.Repository as cars_repo
use ulov_backend.Services.Repository as repo
use ulov_backend.Services.Access.{
  validate_car, list_items, get_for_user, get_or_404, assert_view_access,
}
use ulov_backend.Services.Access.Rules.{CanView, assert_view_access_iff}
use ulov_backend.Services.Lists.{page, list_for_car, with_items, list_vehicle_history}

-- The id of a service finds it.
abbrev pub IsFound : Db → Service → Type 0
IsFound d s = find_row (repo.is_live s.id) d.services ≡ some s

abbrev items_of : Db → Service → List ServiceItem
items_of d s = select_rows (λ i. i.service_id == s.id) d.items

-- The body of the answer.
abbrev pub answer_of : Db → List Service → List (Service × List ServiceItem)
answer_of d [] = []
answer_of d (s ∷ ss) = (s, items_of d s) ∷ answer_of d ss

page-IsFound :
    (p : Service → Bool) (limit offset : ℕ) (d : Db)
    → Keyed (λ s. s.id) d.services
    → All (IsFound d) (page p limit offset d)
page-IsFound p limit offset d keyed = All-take (IsFound d) limit _ (
    All-drop (IsFound d) offset _ (
      All-reverse (IsFound d) _ (
        All-map {Q = IsFound d} (λ s r. r.0 (live s r.1)) _
          (All-select_rows _ (λ s. not (is_some s.deleted_at) && p s) d.services
            (Keyed-find_self (λ s. s.id) (λ s. not (is_some s.deleted_at)) d.services keyed)))))
  where
    live :
        (s : Service)
        → (not (is_some s.deleted_at) && p s) ≡ true
        → not (is_some s.deleted_at) ≡ true
    live s e = ground (arith, e)

module _ (u : CurrentUser) (d : Db) where
  abbrev pub Sees : Service → Type 0
  Sees s = CanView d s u

  assert_view_access-state : (s : Service) → (assert_view_access s u d).1 ≡ d
  unfolding assert_view_access
  assert_view_access-state s = ground arith

  list_items_answer :
      (s : Service) → IsFound d s → Sees s → list_items s.id u d ≡ (ok (items_of d s), d)
  unfolding list_items get_for_user get_or_404 repo.get_by_id repo.list_items
  list_items_answer s found sees =
      let may : (assert_view_access s u d).0 ≡ ok tt = (assert_view_access_iff d s u).1 sees in
      ground (arith, found, may, assert_view_access-state s)

  -- Where the user may not see a service, its items are not answered, and nothing is written.
  list_items_refused :
      (s : Service) (e : Code)
      → IsFound d s
      → (assert_view_access s u d).0 ≡ err e
      → (list_items s.id u d).0 ≡ err e
  unfolding list_items get_for_user get_or_404 repo.get_by_id
  list_items_refused s e found q = ground (arith, found, q)

  with_items_answer :
      (ss : List Service)
      → All (IsFound d) ss
      → All Sees ss
      → with_items u ss d ≡ (ok (answer_of d ss), d)
  unfolding with_items
  with_items_answer [] f v = refl
  with_items_answer (s ∷ ss) f v =
      ground (arith, list_items_answer s f.0 v.0, with_items_answer ss f.1 v.1)

  with_items-All :
      (ss : List Service) → All (IsFound d) ss → Succeeds (with_items u ss d).0 → All Sees ss
  unfolding with_items
  with_items-All [] f h = tt
  with_items-All (s ∷ ss) f (a, h) = elim (Result-cases (assert_view_access s u d).0) [
    | inl (e, q) ↦ absurd (ground (arith, h, list_items_refused s e f.0 q))
    | inr (_, q) ↦
        let sees : Sees s = (assert_view_access_iff d s u).0 q in
        elim (Result-cases (with_items u ss d).0) [
          | inl (e, r) ↦ absurd (ground (arith, h, list_items_answer s f.0 sees, r))
          | inr (b, r) ↦ (sees, with_items-All ss f.1 (b, r))
        ]
  ]

  list_for_car_done :
      (car_id limit offset : ℕ) (ss : List Service)
      → (list_for_car car_id u limit offset d).0 ≡ ok ss
      → (list_for_car car_id u limit offset d ≡ (ok ss, d))
        × (page (λ s. s.car_id == car_id) limit offset d ≡ ss)
  unfolding list_for_car validate_car cars_repo.get_by_id
  list_for_car_done car_id limit offset ss listed =
      elim (Option-cases (find_row (λ c. c.id == car_id) d.cars)) [
        | inl e ↦ absurd (ground (arith, e, listed))
        | inr (c, e) ↦ elim (Bool-cases (not (is_staff u) && not (c.owner_id == u.id))) [
          | inl q ↦ absurd (ground (arith, e, q, listed))
          | inr q ↦
              let given : list_for_car car_id u limit offset d
                  ≡ (ok (page (λ s. s.car_id == car_id) limit offset d), d) =
                ground (arith, e, q) in
              let rows : page (λ s. s.car_id == car_id) limit offset d ≡ ss =
                ground (arith, given, listed) in
              (given ∙ rw rows refl, rows)
        ]
      ]

  -- When the list of a car's services is given, it is answered with their items exactly where the
  -- user may see each service on it; and then it is those services, each with its items.
  pub list_vehicle_history_iff :
      (car_id limit offset : ℕ) (ss : List Service)
      → Keyed (λ s. s.id) d.services
      → (list_for_car car_id u limit offset d).0 ≡ ok ss
      → (Succeeds (list_vehicle_history car_id limit offset u d).0 ↔ All Sees ss)
        × (All Sees ss → (list_vehicle_history car_id limit offset u d).0 ≡ ok (answer_of d ss))
  unfolding list_vehicle_history
  list_vehicle_history_iff car_id limit offset ss keyed listed =
      let (whole, rows) = list_for_car_done car_id limit offset ss listed in
      let found : All (IsFound d) ss =
        subst (All (IsFound d)) rows
          (page-IsFound (λ s. s.car_id == car_id) limit offset d keyed) in
      let same : list_vehicle_history car_id limit offset u d ≡ with_items u ss d =
        ground (arith, whole) in
      let answer : All Sees ss
          → (list_vehicle_history car_id limit offset u d).0 ≡ ok (answer_of d ss) =
        λ sees. ap (λ r. r.0) (same ∙ with_items_answer ss found sees) in
      (
        (
          λ r. with_items-All ss found (r.0, ap (λ p. p.0) (sym same) ∙ r.1),
          λ sees. (answer_of d ss, answer sees),
        ),
        answer,
      )
