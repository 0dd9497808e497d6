-- ===== src/Realtime/Audience.antt =====
-- Who hears of a service.
use ulov_backend.Prelude.{
  ℕ, ◌≡◌, ◌∙◌, refl, sym, ap, Bool, true, false, ◌&&◌, Option, none, some, List, [], ◌∷◌, inl, inr,
  arith,
}
use mathlib.Core.Path.{subst}
use ulov_backend.Prelude.Tests.{◌==◌, ==_iff, holds_id, both_true, Bool-cases, Option-cases}
use ulov_backend.Prelude.Text.{Text}
use ulov_backend.Prelude.Lists.{find_row, find_row-test}
use ulov_backend.Exec.{Result, ok, err, Result-cases}
use ulov_backend.Rbac.{CurrentUser, Role, admin, mechanic, has_role, same_role}
use ulov_backend.Db.{Db}
use ulov_backend.Db.Rows.{Service, ServiceCenter, Car}
use ulov_backend.Centers.{assert_ops_access, can_view_center_ops}
use ulov_backend.Services.Repository.{is_live}
use ulov_backend.Services.Repository as services_repo
use ulov_backend.Services.Access.{assert_view_access, get_or_404, get_for_user}
use ulov_backend.Services.Access.Rules.{
  CanView, by_mutate, by_admin, by_mechanic, assert_view_access_iff,
}
use ulov_backend.Stats.Overview.{assert_ops_access_outcome}
use ulov_backend.Realtime.{
  Door, service_door, center_door, me_door, open_socket, ws_service, ws_center, ws_me, admit, Hears,
  Among, channels_of, service_channel, center_channel, user_channel,
}
use ulov_backend.Realtime.Channels.{
  service_channel-injective, center_channel-injective, user_channel-injective, service_center_apart,
  service_user_apart, center_user_apart,
}

-- Who may hear of a service: who may see it, the user who owns its centre, and the user who owns its
-- car.
pub data Entitled (d : Db) (s : Service) (u : CurrentUser) : Type 0 where
  by_view : CanView d s u → Entitled d s u
  by_center :
      (c : ServiceCenter)
      → find_row (λ c. c.id == s.center_id) d.centers ≡ some c
      → c.owner_user_id ≡ u.id
      → Entitled d s u
  by_car :
      (c : Car)
      → find_row (λ c. c.id == s.car_id) d.cars ≡ some c
      → c.owner_id ≡ u.id
      → Entitled d s u

same_role_eq : (a b : Role) → same_role a b ≡ true → a ≡ b
same_role_eq a b h = ground (arith, h)

role_eq_at :
    (o : Option Role) (r : Role)
    → elim o as (λ _. Bool) [ none ↦ false | some x ↦ same_role x r ] ≡ true
    → o ≡ some r
role_eq_at none r h = cc
role_eq_at (some x) r h = ap some (same_role_eq x r h)

role_eq : (u : CurrentUser) (r : Role) → has_role u r ≡ true → u.role ≡ some r
role_eq u r h = role_eq_at u.role r h

holds_id_eq : (o : Option ℕ) (k : ℕ) → holds_id o k ≡ true → o ≡ some k
holds_id_eq none k h = cc
holds_id_eq (some j) k h = ap some ((==_iff j k).0 h)

module _ (d : Db) (s : Service) (u : CurrentUser) where
  -- Who gets through the check of a read may see the service.
  view_Entitled :
      (i : ℕ) (x : Service)
      → find_row (is_live s.id) d.services ≡ some s
      → i ≡ s.id
      → (get_for_user i u d).0 ≡ ok x
      → Entitled d s u
  unfolding get_for_user get_or_404 services_repo.get_by_id
  view_Entitled i x live same h =
      let here : find_row (is_live i) d.services ≡ some s =
        subst (λ k. find_row (is_live k) d.services ≡ some s) (sym same) live in
      elim (Result-cases (assert_view_access s u d).0) [
        | inl (e, q) ↦ absurd (ground (arith, here, q, h))
        | inr (_, q) ↦ by_view ((assert_view_access_iff d s u).0 q)
      ]

  passed :
      (c : ServiceCenter)
      → find_row (λ c. c.id == s.center_id) d.centers ≡ some c
      → can_view_center_ops c u ≡ true
      → Entitled d s u
  unfolding can_view_center_ops
  passed c e v = elim (Bool-cases (has_role u admin)) [
    | inl a ↦ by_view (by_mutate (by_admin (role_eq u admin a)))
    | inr a ↦ elim (Bool-cases (c.owner_user_id == u.id)) [
      | inl own ↦ by_center c e ((==_iff c.owner_user_id u.id).0 own)
      | inr own ↦
          let works : (has_role u mechanic && holds_id u.center_id c.id) ≡ true =
            rw (a, own) at v in
          let halves = both_true (has_role u mechanic) (holds_id u.center_id c.id) works in
          let same : c.id ≡ s.center_id =
            (==_iff c.id s.center_id).0 (find_row-test (λ c. c.id == s.center_id) d.centers e) in
          by_view (
            by_mutate (
              by_mechanic (role_eq u mechanic halves.0)
                (holds_id_eq u.center_id c.id halves.1 ∙ ap some same)))
    ]
  ]

  -- Who gets through the check of a centre's operations.
  center_Entitled :
      (x : ServiceCenter) → (assert_ops_access s.center_id u d).0 ≡ ok x → Entitled d s u
  center_Entitled x h = elim (Option-cases (find_row (λ c. c.id == s.center_id) d.centers)) [
    | inl e ↦ absurd (ground (arith, e, h, assert_ops_access_outcome s.center_id u d))
    | inr (c, e) ↦ elim (Bool-cases (can_view_center_ops c u)) [
      | inl v ↦ passed c e v
      | inr v ↦ absurd (ground (arith, e, v, h, assert_ops_access_outcome s.center_id u d))
    ]
  ]

module _ (uuid_text : ℕ → Text) (text-injective : (i j : ℕ) → uuid_text i ≡ uuid_text j → i ≡ j)
    (d : Db) (s : Service) where
  -- The channels that the events of a service go to.
  data Goes : Text → Type 0 where
    to_service : Goes (service_channel uuid_text s.id)
    to_center : Goes (center_channel uuid_text s.center_id)
    to_user :
        (c : Car)
        → find_row (λ c. c.id == s.car_id) d.cars ≡ some c
        → Goes (user_channel uuid_text c.owner_id)

  split_channels :
      (ch : Text) (o : Option Car)
      → find_row (λ c. c.id == s.car_id) d.cars ≡ o
      → Among ch (
          service_channel uuid_text s.id
          ∷ center_channel uuid_text s.center_id
          ∷ elim o as (λ _. List Text) [
            | none ↦ []
            | some c ↦ user_channel uuid_text c.owner_id ∷ []
          ])
      → Goes ch
  split_channels ch o e (inl h) = subst Goes (sym h) to_service
  split_channels ch o e (inr (inl h)) = subst Goes (sym h) to_center
  split_channels ch none e (inr (inr h)) = absurd h
  split_channels ch (some c) e (inr (inr (inl h))) = subst Goes (sym h) (to_user c e)
  split_channels ch (some c) e (inr (inr (inr h))) = absurd h

  channels_of-Goes : (ch : Text) → Among ch (channels_of uuid_text s d) → Goes ch
  unfolding channels_of
  channels_of-Goes ch a = split_channels ch (find_row (λ c. c.id == s.car_id) d.cars) refl a

  heard :
      {A : Type 0} (r : Result A) (x ch : Text)
      → Hears (admit r (x ∷ [])) ch
      → ((a : A) × (r ≡ ok a)) × (ch ≡ x)
  heard (err e) x ch h = absurd h
  heard (ok a) x ch (inl h) = ((a, refl), h)
  heard (ok a) x ch (inr h) = absurd h

  module _ (u : CurrentUser) (live : find_row (is_live s.id) d.services ≡ some s) where
    door_Entitled :
        (door : Door) (ch : Text)
        → Goes ch
        → Hears (open_socket uuid_text door (ok u) d) ch
        → Entitled d s u
    unfolding open_socket ws_service ws_center ws_me
    door_Entitled (service_door i) ch to_service h =
        let got = heard (get_for_user i u d).0 _ _ h in
        view_Entitled d s u i got.0.0 live
          (sym (service_channel-injective uuid_text text-injective s.id i got.1)) got.0.1
    door_Entitled (service_door i) ch to_center h =
        absurd (
          service_center_apart uuid_text i s.center_id (sym (heard (get_for_user i u d).0 _ _ h).1))
    door_Entitled (service_door i) ch (to_user c e) h =
        absurd
          (service_user_apart uuid_text i c.owner_id (sym (heard (get_for_user i u d).0 _ _ h).1))
    door_Entitled (center_door i) ch to_service h =
        absurd (service_center_apart uuid_text s.id i (heard (assert_ops_access i u d).0 _ _ h).1)
    door_Entitled (center_door i) ch to_center h =
        let got = heard (assert_ops_access i u d).0 _ _ h in
        let same = center_channel-injective uuid_text text-injective s.center_id i got.1 in
        center_Entitled d s u got.0.0
          (subst (λ k. (assert_ops_access k u d).0 ≡ ok got.0.0) (sym same) got.0.1)
    door_Entitled (center_door i) ch (to_user c e) h =
        absurd (
          center_user_apart uuid_text i c.owner_id
            (sym (heard (assert_ops_access i u d).0 _ _ h).1))
    door_Entitled me_door ch to_service (inl h) = absurd (service_user_apart uuid_text s.id u.id h)
    door_Entitled me_door ch to_center (inl h) =
        absurd (center_user_apart uuid_text s.center_id u.id h)
    door_Entitled me_door ch (to_user c e) (inl h) =
        by_car c e (user_channel-injective uuid_text text-injective c.owner_id u.id h)
    door_Entitled me_door ch g (inr h) = absurd h

    -- Where the texts of UUIDs differ, a WebSocket that a user opens at any address hears an event of
    -- a live service only if the user may see the service, owns its centre, or owns its car.
    pub open_socket-Entitled :
        (door : Door) (ch : Text)
        → Among ch (channels_of uuid_text s d)
        → Hears (open_socket uuid_text door (ok u) d) ch
        → Entitled d s u
    open_socket-Entitled door ch a h = door_Entitled door ch (channels_of-Goes ch a) h
