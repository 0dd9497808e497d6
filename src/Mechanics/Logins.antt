-- ===== src/Mechanics/Logins.antt =====
-- A new login: when it is taken, and what it opens.
use ulov_backend.Prelude.{
  ℕ, ◌≡◌, refl, Bool, true, not, ◌&&◌, ◌||◌, none, some, inl, inr, [], ◌∷◌, ◌++◌, arith,
}
use ulov_backend.Prelude.Tests.{◌==◌, is_some, if◌then◌else◌, Bool-cases, Option-cases}
use ulov_backend.Prelude.Text.{text_eq_refl, all_fit}
use ulov_backend.Prelude.Lists.{find_row, find_row-append}
use ulov_backend.Errors.{center_not_owner, mechanic_login_duplicate, database_error}
use ulov_backend.Exec.{ok, err}
use ulov_backend.Rbac.{CurrentUser, admin, has_role}
use ulov_backend.Db.{Db}
use ulov_backend.Db.Rows.{Mechanic, ServiceCenter}
use ulov_backend.Security.{Hasher, IsHasher}
use ulov_backend.Centers.{get_by_id, get_or_404}
use ulov_backend.Mechanics.{NewMechanic, new_mechanic, has_login, get_by_login, refused}
use ulov_backend.Mechanics as repo
use ulov_backend.Mechanics.Service.{MechanicCreateIn, assert_center_admin, create}
use ulov_backend.Auth.Service.{authenticate_mechanic, check_password}

abbrev pub is_live : Mechanic → Bool
is_live m = not (is_some m.deleted_at)

abbrev pub keywords : Hasher → ℕ → ℕ → MechanicCreateIn → NewMechanic
keywords hasher salt center_id body = record {
  center_id = center_id;
  full_name = body.full_name;
  login = body.login;
  password_hash = hasher.hash salt body.password;
  service_types = body.service_types;
}

module _ (hasher : Hasher) (salt : ℕ) (u : CurrentUser) (body : MechanicCreateIn) (d : Db) where
  -- For a centre that there is, hiring by someone who is neither its owner nor an admin is answered
  -- CENTER_NOT_OWNER; else with the login of a mechanic who is not deleted,
  -- MECHANIC_LOGIN_DUPLICATE; else with the login of a deleted mechanic, or a type of service of more
  -- than 64 characters, it ends in an error of the database; and else it gives the new row.
  pub create_outcome :
      (c : ServiceCenter)
      → find_row (λ c'. c'.id == c.id) d.centers ≡ some c
      → (create hasher salt c.id u body d).0 ≡ (
          if not (has_role u admin || (c.owner_user_id == u.id))
          then err center_not_owner
          else (if is_some (find_row (λ m. has_login body.login m && is_live m) d.mechanics)
              then err mechanic_login_duplicate
              else (if is_some (find_row (has_login body.login) d.mechanics)
                    || not (all_fit 64 body.service_types)
                  then err database_error
                  else ok (new_mechanic (keywords hasher salt c.id body) d.next_id d.tx_now))))
  unfolding create assert_center_admin get_or_404 get_by_id get_by_login repo.create
  create_outcome c found = ground (arith, found)

  -- What a hire that succeeds has found, and what it leaves.
  create_done :
      (center_id : ℕ) (m : Mechanic)
      → (create hasher salt center_id u body d).0 ≡ ok m
      → let new = new_mechanic (keywords hasher salt center_id body) d.next_id d.tx_now in
        (find_row (λ m'. has_login body.login m' && is_live m') d.mechanics ≡ none)
        × (new ≡ m)
        × ((create hasher salt center_id u body d).1.mechanics ≡ d.mechanics ++ new ∷ [])
  unfolding create assert_center_admin get_or_404 get_by_id get_by_login repo.create
  create_done center_id m done = elim (Option-cases (find_row (λ c. c.id == center_id) d.centers)) [
    | inl e ↦ absurd (ground (arith, e, done))
    | inr (c, e) ↦ elim (Bool-cases (has_role u admin || (c.owner_user_id == u.id))) [
      | inr o ↦ absurd (ground (arith, e, o, done))
      | inl o ↦
          elim (Option-cases (find_row (λ m'. has_login body.login m' && is_live m') d.mechanics)) [
            | inr (_, l) ↦ absurd (ground (arith, e, o, l, done))
            | inl l ↦ elim (Bool-cases (refused (keywords hasher salt center_id body) d)) [
              | inl q ↦ absurd (ground (arith, e, o, l, q, done))
              | inr q ↦ (l, ground (arith, e, o, l, q, done), ground (arith, e, o, l, q))
            ]
          ]
    ]
  ]

  -- A mechanic who was hired is let in by the login and the password that were given, as the same
  -- row, in the centre that hired.
  pub authenticate_mechanic-create :
      (center_id : ℕ) (m : Mechanic)
      → IsHasher hasher
      → (create hasher salt center_id u body d).0 ≡ ok m
      → ((authenticate_mechanic hasher body.login body.password
            (create hasher salt center_id u body d).1).0
          ≡ ok m)
        × (m.center_id ≡ center_id)
  unfolding authenticate_mechanic check_password get_by_login find_row
  authenticate_mechanic-create center_id m laws done =
      let new : Mechanic = new_mechanic (keywords hasher salt center_id body) d.next_id d.tx_now in
      let (free, same, left) = create_done center_id m done in
      let row : find_row (λ m'. has_login body.login m' && is_live m')
            (create hasher salt center_id u body d).1.mechanics
          ≡ some m =
        rw
          (
            left,
            find_row-append (λ m'. has_login body.login m' && is_live m') d.mechanics (new ∷ []),
            free,
            text_eq_refl body.login,
            same,
          )
          refl in
      let right : hasher.verify m.password_hash body.password ≡ true =
        rw⁻¹ same (laws.verify_hash salt body.password) in
      (ground (arith, row, right), rw⁻¹ same refl)
