-- ===== src/Services/Access/Rules.antt =====
-- Who may change and who may see a service: the access helpers of app/modules/services/service.py
-- against relations that say it without an order of tests.
use ulov_backend.Prelude.{◌≡◌, refl, ap, ◌↔◌, Option, none, some, inl, inr, arith}
use ulov_backend.Prelude.Tests.{◌==◌, Option-cases}
use ulov_backend.Prelude.Lists.{find_row}
use ulov_backend.Exec.{ok}
use ulov_backend.Rbac.{CurrentUser, Role, customer, mechanic, owner, admin}
use ulov_backend.Db.{Db}
use ulov_backend.Db.Rows.{Service, ServiceCenter, Car}
use ulov_backend.Services.Access.{assert_can_mutate, assert_view_access}

pub data CanMutate (d : Db) (s : Service) (u : CurrentUser) : Type 0 where
  by_admin : u.role ≡ some admin → CanMutate d s u
  by_mechanic : u.role ≡ some mechanic → u.center_id ≡ some s.center_id → CanMutate d s u
  by_owner :
      (c : ServiceCenter)
      → u.role ≡ some owner
      → find_row (λ c. c.id == s.center_id) d.centers ≡ some c
      → c.owner_user_id ≡ u.id
      → CanMutate d s u

pub data CanView (d : Db) (s : Service) (u : CurrentUser) : Type 0 where
  by_mutate : CanMutate d s u → CanView d s u
  by_customer :
      (c : Car)
      → u.role ≡ some customer
      → find_row (λ c. c.id == s.car_id) d.cars ≡ some c
      → c.owner_id ≡ u.id
      → CanView d s u

CanMutate-assert :
    (d : Db) (s : Service) (u : CurrentUser)
    → CanMutate d s u
    → assert_can_mutate s u d ≡ (ok tt, d)
unfolding assert_can_mutate
CanMutate-assert d s u (by_admin r) = ground arith
CanMutate-assert d s u (by_mechanic r e) = ground arith
CanMutate-assert d s u (by_owner c r f e) = ground arith

-- By the role of the user.
assert-CanMutate_at :
    (r : Option Role) (d : Db) (s : Service) (u : CurrentUser)
    → u.role ≡ r
    → (assert_can_mutate s u d).0 ≡ ok tt
    → CanMutate d s u
unfolding assert_can_mutate
assert-CanMutate_at (some admin) d s u e h = by_admin e
assert-CanMutate_at (some mechanic) d s u e h = by_mechanic e (ground arith)
assert-CanMutate_at (some owner) d s u e h =
    elim (Option-cases (find_row (λ c. c.id == s.center_id) d.centers)) [
      | inl lost ↦ absurd (ground arith)
      | inr (c, found) ↦ by_owner c e found (ground arith)
    ]
assert-CanMutate_at (some customer) d s u e h = absurd (ground arith)
assert-CanMutate_at none d s u e h = absurd (ground arith)

pub assert-CanMutate :
    (d : Db) (s : Service) (u : CurrentUser) → (assert_can_mutate s u d).0 ≡ ok tt → CanMutate d s u
assert-CanMutate d s u h = assert-CanMutate_at u.role d s u refl h

-- The check before every change of a service passes exactly for an admin, a mechanic of the
-- service's centre, and the owner of that centre.
pub assert_can_mutate_iff :
    (d : Db) (s : Service) (u : CurrentUser)
    → ((assert_can_mutate s u d).0 ≡ ok tt) ↔ CanMutate d s u
assert_can_mutate_iff d s u =
    (assert-CanMutate d s u, λ c. ap (λ r. r.0) (CanMutate-assert d s u c))

CanView-assert :
    (d : Db) (s : Service) (u : CurrentUser) → CanView d s u → (assert_view_access s u d).0 ≡ ok tt
unfolding assert_view_access
CanView-assert d s u (by_mutate (by_admin r)) = ground arith
CanView-assert d s u (by_mutate (by_mechanic r e)) = ground arith
CanView-assert d s u (by_mutate (by_owner c r f e)) = ground arith
CanView-assert d s u (by_customer c r f e) = ground arith

assert-CanView_at :
    (r : Option Role) (d : Db) (s : Service) (u : CurrentUser)
    → u.role ≡ r
    → (assert_view_access s u d).0 ≡ ok tt
    → CanView d s u
unfolding assert_view_access
assert-CanView_at (some admin) d s u e h = by_mutate (by_admin e)
assert-CanView_at (some mechanic) d s u e h = by_mutate (by_mechanic e (ground arith))
assert-CanView_at (some owner) d s u e h =
    elim (Option-cases (find_row (λ c. c.id == s.center_id) d.centers)) [
      | inl lost ↦ absurd (ground arith)
      | inr (c, found) ↦ by_mutate (by_owner c e found (ground arith))
    ]
assert-CanView_at (some customer) d s u e h =
    elim (Option-cases (find_row (λ c. c.id == s.car_id) d.cars)) [
      | inl lost ↦ absurd (ground arith)
      | inr (c, found) ↦ by_customer c e found (ground arith)
    ]
assert-CanView_at none d s u e h = absurd (ground arith)

-- The check before a read passes exactly for who may change the service, and for the customer who
-- owns the car.
pub assert_view_access_iff :
    (d : Db) (s : Service) (u : CurrentUser)
    → ((assert_view_access s u d).0 ≡ ok tt) ↔ CanView d s u
assert_view_access_iff d s u = (assert-CanView_at u.role d s u refl, CanView-assert d s u)

-- Neither check writes.
pub assert_can_mutate-state :
    (d : Db) (s : Service) (u : CurrentUser) → (assert_can_mutate s u d).1 ≡ d
unfolding assert_can_mutate
assert_can_mutate-state d s u = ground arith
