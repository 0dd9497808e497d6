-- ===== src/Auth/Routes/Owners.antt =====
-- A new owner and the new centre.
use ulov_backend.Prelude.{
  ℕ, suc, ◌≡◌, refl, ◌∙◌, Bool, true, none, some, inl, inr, [], ◌∷◌, ◌++◌, arith,
}
use ulov_backend.Prelude.Tests.{◌==◌, ==_refl, is_some, Bool-cases, Option-cases}
use ulov_backend.Prelude.Text.{text_eq, text_eq_refl}
use ulov_backend.Prelude.Lists.{find_row, update_rows, find_row-update_rows, find_row-append}
use ulov_backend.Exec.{ok}
use ulov_backend.Rbac.{owner}
use ulov_backend.Db.{Db}
use ulov_backend.Db.Rows.{User, ServiceCenter}
use ulov_backend.Security.{Hasher, IsHasher}
use ulov_backend.Centers.{get_by_id, get_or_404}
use ulov_backend.Centers.Profile.{new_center, insert}
use ulov_backend.Mechanics.Service.{assert_center_admin}
use ulov_backend.Auth.Repository as repo
use ulov_backend.Auth.Service.{
  RegisterCenterIn, owner_keywords, center_keywords, register_center, authenticate, check_password,
}

module _ (hasher : Hasher) (salt : ℕ) (body : RegisterCenterIn) (d : Db) where
  abbrev new_owner : User
  new_owner = repo.new_user (owner_keywords hasher salt body) d.next_id

  abbrev new_place : ServiceCenter
  new_place = new_center (center_keywords hasher d.next_id body) (suc d.next_id)

  abbrev by_phone : User → Bool
  by_phone u = text_eq u.phone body.phone

  abbrev placed : User → User
  placed u = record u { center_id = some (suc d.next_id) }

  -- What a registration that succeeds has found, and what it leaves.
  register_center_done :
      (u : User) (c : ServiceCenter)
      → (register_center hasher salt body d).0 ≡ ok (u, c)
      → let d' = (register_center hasher salt body d).1 in
        (find_row by_phone d.users ≡ none)
        × (placed new_owner ≡ u)
        × (new_place ≡ c)
        × (d'.users ≡ update_rows (λ v. v.id == d.next_id) placed (d.users ++ new_owner ∷ []))
        × (d'.centers ≡ d.centers ++ new_place ∷ [])
  unfolding register_center repo.get_user_by_phone repo.create_user insert
  register_center_done u c done = elim (Option-cases (find_row by_phone d.users)) [
    | inr (_, e) ↦ absurd (ground (arith, e, done))
    | inl e ↦
        elim (Bool-cases
          (is_some (find_row (λ v. v.id == d.next_id) (d.users ++ new_owner ∷ [])))) [
            | inr q ↦ absurd (ground (arith, e, q, done))
            | inl q ↦ (
              e,
              ground (arith, e, q, done),
              ground (arith, e, q, done),
              ground (arith, e, q),
              ground (arith, e, q),
            )
          ]
  ]

  -- When the registration of an owner with a centre succeeds, and the id that the centre draws is
  -- new, the user is an owner bound to the centre, who is let in by the phone and the password that
  -- were given, as the same row, and who may manage the centre.
  pub register_center_outcome :
      (u : User) (c : ServiceCenter)
      → IsHasher hasher
      → find_row (λ c'. c'.id == suc d.next_id) d.centers ≡ none
      → (register_center hasher salt body d).0 ≡ ok (u, c)
      → let d' = (register_center hasher salt body d).1 in
        (u.role ≡ owner)
        × (u.center_id ≡ some c.id)
        × ((authenticate hasher body.phone body.password d').0 ≡ ok u)
        × ((assert_center_admin c.id
              (record { id = u.id; role = some u.role; center_id = u.center_id })
              d').0
            ≡ ok tt)
  unfolding authenticate check_password repo.get_user_by_phone assert_center_admin get_or_404
      get_by_id find_row
  register_center_outcome u c laws fresh done =
      let (free, row, place, users, centers) = register_center_done u c done in
      let found : find_row by_phone (register_center hasher salt body d).1.users ≡ some u =
        rw users (
          find_row-update_rows by_phone (λ v. v.id == d.next_id) placed (λ v _. refl)
            (d.users ++ new_owner ∷ [])
          ∙ rw
              (
                find_row-append by_phone d.users (new_owner ∷ []),
                free,
                text_eq_refl body.phone,
                ==_refl d.next_id,
                row,
              )
              refl) in
      let there : find_row (λ c'. c'.id == c.id) (register_center hasher salt body d).1.centers
          ≡ some c =
        rw
          (
            centers,
            ← place,
            find_row-append (λ c'. c'.id == suc d.next_id) d.centers (new_place ∷ []),
            fresh,
            ==_refl (suc d.next_id),
          )
          refl in
      let right : hasher.verify u.password_hash body.password ≡ true =
        rw⁻¹ row (laws.verify_hash salt body.password) in
      let active : u.is_active ≡ true = rw⁻¹ row refl in
      let owns : (c.owner_user_id == u.id) ≡ true = rw (← row, ← place) (==_refl d.next_id) in
      (
        rw⁻¹ row refl,
        rw (← row, ← place) refl,
        ground (arith, found, right, active),
        ground (arith, there, owns),
      )
