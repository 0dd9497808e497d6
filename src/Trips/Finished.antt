-- ===== src/Trips/Finished.antt =====
-- A finished trip.
use ulov_backend.Prelude.{
  ℕ, suc, ◌≡◌, ◌∙◌, refl, sym, ap, true, false, Option, none, some, List, [], ◌∷◌, ◌++◌, map, inl,
  inr, arith, ◌⊎◌, Bool,
}
use mathlib.Core.List.{append-nil}
use mathlib.Core.Path.{subst}
use ulov_backend.Prelude.Tests.{◌==◌, ==_iff, ==_refl, Bool-cases, Option-cases}
use ulov_backend.Prelude.Lists.{
  find_row, find_row-test, find_row-append, select_rows, select_rows-append, update_rows,
}
use ulov_backend.Prelude.Pages.{find_key-update_rows}
use ulov_backend.Exec.{ok, request, Result-cases}
use ulov_backend.Trips.{
  Floats, Trip, TripPoint, PointIn, Store, get_owned, new_trip, unknown_ref, start, point_of,
  append_points, finished_trip, points_of, distance_of, finish, forget_car, delete_car, set_null,
}
use ulov_backend.Cars.Service as cars
use ulov_backend.Trips.Requests.{
  Request, start_trip, send_points, finish_trip, step, serve, drop_car,
}

apart_sym : (a b : ℕ) → (a == b) ≡ false → (b == a) ≡ false
apart_sym a b h = ground (arith, h)

module _ {F D : Type 0} (fl : Floats F D) (i : ℕ) (t : Trip D) (x : ℕ)
    (done : t.finished_at ≡ some x) (pts : List (TripPoint F)) where
  -- The trip and its points.
  abbrev Holds : Store F D → Type 0
  Holds w =
      (find_row (λ y. y.id == i) w.trips ≡ some t)
      × (select_rows (λ p. p.trip_id == i) w.points ≡ pts)

  lands : (w' w'' : Store F D) → w' ≡ w'' → Holds w'' → Holds w'
  lands w' w'' e h = subst Holds (sym e) h

  -- An open trip is another one.
  other_apart :
      (w : Store F D)
      → Holds w
      → (j : ℕ) (y : Trip D) → find_row (λ y. y.id == j) w.trips ≡ some y
      → y.id ≡ j
      → y.finished_at ≡ none
      → (y.id == i) ≡ false
  other_apart w h j y e named going = elim (Bool-cases (y.id == i)) [
    | inr ne ↦ ne
    | inl same ↦
        let here : j ≡ i = sym named ∙ (==_iff y.id i).0 same in
        let found : find_row (λ z. z.id == i) w.trips ≡ some y =
          subst (λ k. find_row (λ z. z.id == k) w.trips ≡ some y) here e in
        let eq : y ≡ t = ground (arith, found, h.0) in
        absurd (cc (ap (λ z. z.finished_at) eq, going, done))
  ]

  start-Holds :
      (u : ℕ) (c : Option ℕ) (w : Store F D) → Holds w → Holds (request (start fl u c) w).1
  unfolding request start
  start-Holds u c w h = elim (Bool-cases (unknown_ref u c w.db)) [
    | inl bad ↦ lands (request (start fl u c) w).1 w (ground (arith, bad)) h
    | inr good ↦
        let trip : Trip D = new_trip fl w.next_trip w.db.tx_now u c in
        let w' : Store F D = record w {
          next_trip = suc w.next_trip;
          trips = w.trips ++ trip ∷ [];
        } in
        let found : find_row (λ y. y.id == i) (w.trips ++ trip ∷ []) ≡ some t =
          ground (arith, find_row-append (λ y. y.id == i) w.trips (trip ∷ []), h.0) in
        lands (request (start fl u c) w).1 w' (ground (arith, good)) (found, h.1)
  ]

  points_apart :
      (j now : ℕ) (ps : List (PointIn F))
      → (j == i) ≡ false
      → select_rows (λ p. p.trip_id == i) (map (point_of fl j now) ps) ≡ []
  unfolding select_rows
  points_apart j now [] ne = refl
  points_apart j now (p ∷ ps) ne = ground (arith, ne, points_apart j now ps ne)

  append_points-Holds :
      (now j u : ℕ) (ps : List (PointIn F)) (w : Store F D)
      → Holds w
      → Holds (request (append_points fl now j u ps) w).1
  unfolding request append_points get_owned
  append_points-Holds now j u ps w h = elim (Option-cases (find_row (λ y. y.id == j) w.trips)) [
    | inl e ↦ lands (request (append_points fl now j u ps) w).1 w (ground (arith, e)) h
    | inr (y, e) ↦ elim (Bool-cases (y.user_id == u)) [
      | inr other ↦ lands (request (append_points fl now j u ps) w).1 w (ground (arith, e, other)) h
      | inl own ↦ elim (Option-cases (y.finished_at)) [
        | inr (z, f) ↦
            lands (request (append_points fl now j u ps) w).1 w (ground (arith, e, own, f)) h
        | inl going ↦
            let named : y.id ≡ j = (==_iff y.id j).0 (find_row-test (λ y. y.id == j) w.trips e) in
            let apart : (y.id == i) ≡ false = other_apart w h j y e named going in
            let w' : Store F D = record w { points = w.points ++ map (point_of fl y.id now) ps } in
            let kept : select_rows (λ p. p.trip_id == i) w'.points ≡ pts =
              select_rows-append (λ p. p.trip_id == i) w.points (map (point_of fl y.id now) ps)
              ∙ ap (λ zs. select_rows (λ p. p.trip_id == i) w.points ++ zs)
                  (points_apart y.id now ps apart)
              ∙ append-nil _
              ∙ h.1 in
            lands (request (append_points fl now j u ps) w).1 w' (ground (arith, e, own, going))
              (h.0, kept)
      ]
    ]
  ]

  finish-Holds : (now j u : ℕ) (w : Store F D) → Holds w → Holds (request (finish fl now j u) w).1
  unfolding request finish get_owned
  finish-Holds now j u w h = elim (Option-cases (find_row (λ y. y.id == j) w.trips)) [
    | inl e ↦ lands (request (finish fl now j u) w).1 w (ground (arith, e)) h
    | inr (y, e) ↦ elim (Bool-cases (y.user_id == u)) [
      | inr other ↦ lands (request (finish fl now j u) w).1 w (ground (arith, e, other)) h
      | inl own ↦ elim (Option-cases (y.finished_at)) [
        | inr (z, f) ↦ lands (request (finish fl now j u) w).1 w (ground (arith, e, own, f)) h
        | inl going ↦
            let named : y.id ≡ j = (==_iff y.id j).0 (find_row-test (λ y. y.id == j) w.trips e) in
            let apart : (y.id == i) ≡ false = other_apart w h j y e named going in
            let set : Trip D → Trip D =
              finished_trip fl now (distance_of fl (points_of fl y.id w)) in
            let w' : Store F D = record w { trips = update_rows (λ v. v.id == y.id) set w.trips } in
            let kept : find_row (λ v. v.id == i) w'.trips ≡ some t =
              find_key-update_rows (λ v. v.id) y.id i set (λ _. refl) w.trips
              ∙ rw (h.0, apart_sym y.id i apart) refl in
            lands (request (finish fl now j u) w).1 w' (ground (arith, e, own, going)) (kept, h.1)
      ]
    ]
  ]

module _ {F D : Type 0} (fl : Floats F D) (i : ℕ) (pts : List (TripPoint F)) where
  -- The trip, without its car if that was deleted.
  abbrev pub Kept : Trip D → Trip D → Type 0
  Kept t t' = (t' ≡ t) ⊎ (t' ≡ record t { car_id = none })

  -- The trip is there but for its car, and its points are as they were.
  abbrev pub Stays : Trip D → Store F D → Type 0
  Stays t w =
      (t' : Trip D) × Kept t t'
      × (find_row (λ y. y.id == i) w.trips ≡ some t')
      × (select_rows (λ p. p.trip_id == i) w.points ≡ pts)

  set_null-cases : (c : ℕ) (o : Option ℕ) → (set_null c o ≡ o) ⊎ (set_null c o ≡ none)
  set_null-cases c none = inl refl
  set_null-cases c (some k) = elim (Bool-cases (k == c)) [
    | inl same ↦ inr (ground (arith, same))
    | inr other ↦ inl (ground (arith, other))
  ]

  forget_car-Kept : (c : ℕ) (t : Trip D) → Kept t (forget_car fl c t)
  forget_car-Kept c t = elim (set_null-cases c t.car_id) [
    | inl e ↦ inl (ap (λ k. record t { car_id = k }) e)
    | inr e ↦ inr (ap (λ k. record t { car_id = k }) e)
  ]

  find_row-forget_car :
      (c : ℕ) (ts : List (Trip D)) (t : Trip D)
      → find_row (λ y. y.id == i) ts ≡ some t
      → find_row (λ y. y.id == i) (map (forget_car fl c) ts) ≡ some (forget_car fl c t)
  unfolding find_row
  find_row-forget_car c [] t e = absurd (cc e)
  find_row-forget_car c (y ∷ ts) t e = elim (Bool-cases (y.id == i)) [
    | inl here ↦
        let same : y ≡ t = ground (arith, e, here) in
        rw here (ap (λ z. some (forget_car fl c z)) same)
    | inr other ↦ rw other (find_row-forget_car c ts t (rw other at e))
  ]

  delete_car-Stays :
      (t : Trip D) (insured : ℕ → Bool) (c u : ℕ) (w : Store F D)
      → find_row (λ y. y.id == i) w.trips ≡ some t
      → select_rows (λ p. p.trip_id == i) w.points ≡ pts
      → Stays t (request (delete_car fl insured c u) w).1
  unfolding request delete_car
  delete_car-Stays t insured c u w f p = elim (Result-cases (cars.delete insured c u w.db).0) [
    | inl (e, q) ↦ (t, inl refl, ground (arith, q, f), ground (arith, q, p))
    | inr (_, q) ↦ (
      forget_car fl c t,
      forget_car-Kept c t,
      ground (arith, q, find_row-forget_car c w.trips t f),
      ground (arith, q, p),
    )
  ]

  unmoved :
      (t : Trip D) (w : Store F D)
      → (find_row (λ y. y.id == i) w.trips ≡ some t)
        × (select_rows (λ p. p.trip_id == i) w.points ≡ pts)
      → Stays t w
  unmoved t w h = (t, inl refl, h.0, h.1)

  step-Stays :
      (t : Trip D) (x : ℕ)
      → t.finished_at ≡ some x
      → (now : ℕ) (r : Request F) (w : Store F D) → find_row (λ y. y.id == i) w.trips ≡ some t
      → select_rows (λ p. p.trip_id == i) w.points ≡ pts
      → Stays t (step fl now r w)
  unfolding step
  step-Stays t x done now (start_trip u c) w f p =
      unmoved t (step fl now (start_trip u c) w) (start-Holds fl i t x done pts u c w (f, p))
  step-Stays t x done now (send_points j u ps) w f p =
      unmoved t (step fl now (send_points j u ps) w)
        (append_points-Holds fl i t x done pts now j u ps w (f, p))
  step-Stays t x done now (finish_trip j u) w f p =
      unmoved t (step fl now (finish_trip j u) w) (finish-Holds fl i t x done pts now j u w (f, p))
  step-Stays t x done now (drop_car insured c u) w f p = delete_car-Stays t insured c u w f p

  Kept-finished_at :
      (t t' : Trip D) (x : ℕ) → Kept t t' → t.finished_at ≡ some x → t'.finished_at ≡ some x
  Kept-finished_at t t' x (inl e) done = ap (λ y. y.finished_at) e ∙ done
  Kept-finished_at t t' x (inr e) done = ap (λ y. y.finished_at) e ∙ done

  Kept-trans : (a b c : Trip D) → Kept a b → Kept b c → Kept a c
  Kept-trans a b c (inl e) (inl f) = inl (f ∙ e)
  Kept-trans a b c (inl e) (inr f) = inr (f ∙ ap {A = Trip D} (λ y. record y { car_id = none }) e)
  Kept-trans a b c (inr e) (inl f) = inr (f ∙ e)
  Kept-trans a b c (inr e) (inr f) = inr (f ∙ ap {A = Trip D} (λ y. record y { car_id = none }) e)

  -- Whatever trips anyone starts, extends and finishes and whatever cars anyone deletes, at whatever
  -- times, a finished trip stays as it is, but that its car may be cleared, and its points stay as
  -- they are.
  pub serve-Stays :
      (rs : List (ℕ × Request F)) (t : Trip D) (x : ℕ) (w : Store F D)
      → t.finished_at ≡ some x
      → find_row (λ y. y.id == i) w.trips ≡ some t
      → select_rows (λ p. p.trip_id == i) w.points ≡ pts
      → Stays t (serve fl rs w)
  unfolding serve
  serve-Stays [] t x w done f p = (t, inl refl, f, p)
  serve-Stays ((now, r) ∷ rs) t x w done f p =
      let (t1, kept, f1, p1) = step-Stays t x done now r w f p in
      let (t2, kept2, f2, p2) =
        serve-Stays rs t1 x (step fl now r w) (Kept-finished_at t t1 x kept done) f1 p1 in
      (t2, Kept-trans t t1 t2 kept kept2, f2, p2)

-- The owner of an open trip finishes it: its distance is that of its points in the order of their
-- times, its duration that since its start, and to finish it again, whenever, answers the same trip
-- and changes nothing.
pub finish_again :
    {F D : Type 0} (fl : Floats F D) (now later : ℕ) (t : Trip D) (w : Store F D)
    → find_row (λ y. y.id == t.id) w.trips ≡ some t
    → t.finished_at ≡ none
    → let t' = finished_trip fl now (distance_of fl (points_of fl t.id w)) t in
      let w' = (finish fl now t.id t.user_id w).1 in
      ((finish fl now t.id t.user_id w).0 ≡ ok t')
      × (find_row (λ y. y.id == t.id) w'.trips ≡ some t')
      × (finish fl later t.id t.user_id w' ≡ (ok t', w'))
unfolding finish get_owned
finish_again {F} {D} fl now later t w found going =
    let set : Trip D → Trip D = finished_trip fl now (distance_of fl (points_of fl t.id w)) in
    let w' : Store F D = record w { trips = update_rows (λ v. v.id == t.id) set w.trips } in
    let there : find_row (λ y. y.id == t.id) w'.trips ≡ some (set t) =
      find_key-update_rows (λ v. v.id) t.id t.id set (λ _. refl) w.trips
      ∙ rw (found, ==_refl t.id) refl in
    let own : (t.user_id == t.user_id) ≡ true = ==_refl t.user_id in
    let ran : finish fl now t.id t.user_id w ≡ (ok (set t), w') =
      ground (arith, found, going, own) in
    (
      ap (λ r. r.0) ran,
      subst (λ r. find_row (λ y. y.id == t.id) r.1.trips ≡ some (set t)) (sym ran) there,
      subst (λ r. finish fl later t.id t.user_id r.1 ≡ (ok (set t), r.1)) (sym ran)
          (ground (arith, there, own)),
    )
