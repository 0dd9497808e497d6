-- ===== src/Centers/Removal.antt =====
-- Deleting a centre.
use ulov_backend.Prelude.{
  ℕ, ◌≡◌, ◌≢◌, refl, Bool, true, false, not, ◌&&◌, ◌||◌, none, some, inl, inr, arith,
}
use ulov_backend.Prelude.Tests.{◌==◌, is_some, if◌then◌else◌, Bool-cases, Option-cases}
use ulov_backend.Prelude.Lists.{All, find_row, delete_rows, none-find_row}
use ulov_backend.Prelude.Pages.{delete_rows-All, find_row-delete_rows}
use ulov_backend.Errors.{center_not_owner, database_error}
use ulov_backend.Exec.{ok, err}
use ulov_backend.Rbac.{CurrentUser, owner, admin, is_owner, has_role}
use ulov_backend.Db.{Db}
use ulov_backend.Db.Rows.{ServiceCenter}
use ulov_backend.Centers.{get_by_id, get_or_404}
use ulov_backend.Centers.Profile.{assert_can_mutate, delete, remove}

admin_is_owner : (u : CurrentUser) → is_owner u && has_role u admin ≡ has_role u admin
admin_is_owner u = elim (Bool-cases (has_role u admin)) [
  | inl e ↦ ground (arith, e)
  | inr e ↦ rw e (elim (Bool-cases (has_role u owner)) [ inl q ↦ rw q refl | inr q ↦ rw q refl ])
]

-- `_assert_can_mutate` lets the owner and an admin pass.
assert_can_mutate_outcome :
    (c : ServiceCenter) (u : CurrentUser) (d : Db)
    → assert_can_mutate c u d
      ≡ (if has_role u admin || (c.owner_user_id == u.id) then ok tt else err center_not_owner, d)
unfolding assert_can_mutate
assert_can_mutate_outcome c u d = rw (admin_is_owner u) (elim (Bool-cases (has_role u admin)) [
  | inl a ↦ rw a refl
  | inr a ↦
      rw a (elim (Bool-cases (c.owner_user_id == u.id)) [ inl w ↦ rw w refl | inr w ↦ rw w refl ])
])

module _ (c : ServiceCenter) (u : CurrentUser) (d : Db)
    (found : find_row (λ c'. c'.id == c.id) d.centers ≡ some c) where
  remove_answer : (remove c.id d).0 ≡ (
      if is_some (find_row (λ s. s.center_id == c.id) d.services)
      then err database_error
      else ok tt)
  unfolding remove
  remove_answer = elim (Option-cases (find_row (λ s. s.center_id == c.id) d.services)) [
    | inl q ↦ rw q refl
    | inr (_, q) ↦ rw (q, found) refl
  ]

  -- The steps after the check of the caller.
  checked_delete :
      (b : Bool)
      → assert_can_mutate c u d ≡ (if b then ok tt else err center_not_owner, d)
      → (delete c.id u d).0 ≡ (
          if not b
          then err center_not_owner
          else (if is_some (find_row (λ s. s.center_id == c.id) d.services)
              then err database_error
              else ok tt))
  unfolding delete get_or_404 get_by_id
  checked_delete true e = ground (arith, found, e, remove_answer)
  checked_delete false e = ground (arith, found, e)

  -- The answer.
  delete_outcome : (delete c.id u d).0 ≡ (
      if not (has_role u admin || (c.owner_user_id == u.id))
      then err center_not_owner
      else (if is_some (find_row (λ s. s.center_id == c.id) d.services)
          then err database_error
          else ok tt))
  delete_outcome =
      checked_delete (has_role u admin || (c.owner_user_id == u.id))
        (assert_can_mutate_outcome c u d)

  -- The effect.
  delete_effect :
      (delete c.id u d).0 ≡ ok tt
      → let d' = (delete c.id u d).1 in
        (find_row (λ c'. c'.id == c.id) d'.centers ≡ none)
        × All (λ m. (m.center_id == c.id) ≡ false) d'.mechanics
        × ((j : ℕ)
            → j ≢ c.id
            → find_row (λ c'. c'.id == j) d'.centers ≡ find_row (λ c'. c'.id == j) d.centers)
  unfolding delete get_or_404 get_by_id remove
  delete_effect done =
      let left : ((delete c.id u d).1.centers ≡ delete_rows (λ c'. c'.id == c.id) d.centers)
          × ((delete c.id u d).1.mechanics ≡ delete_rows (λ m. m.center_id == c.id) d.mechanics) =
        elim (Bool-cases (has_role u admin || (c.owner_user_id == u.id))) [
          | inl o ↦ elim (Bool-cases (is_some (find_row (λ s. s.center_id == c.id) d.services))) [
            | inl e ↦ absurd (ground (arith, found, assert_can_mutate_outcome c u d, o, e, done))
            | inr e ↦ (
              ground (arith, found, assert_can_mutate_outcome c u d, o, e),
              ground (arith, found, assert_can_mutate_outcome c u d, o, e),
            )
          ]
          | inr o ↦ absurd (ground (arith, found, assert_can_mutate_outcome c u d, o, done))
        ] in
      (
        rw left.0 (
            none-find_row (λ c'. c'.id == c.id) _
              (delete_rows-All (λ c'. c'.id == c.id) d.centers)),
        rw left.1 (delete_rows-All (λ m. m.center_id == c.id) d.mechanics),
        λ j other. rw left.0 (
            find_row-delete_rows (λ c'. c'.id == j) (λ c'. c'.id == c.id)
              (λ c' e. ground (arith, e, other)) d.centers),
      )

  -- For a centre that there is, a deletion by someone who is neither its owner nor an admin is
  -- answered CENTER_NOT_OWNER; else, when a service was ever taken in there, even one that is
  -- deleted, it ends in an IntegrityError; and else it succeeds. A deletion that succeeds takes the
  -- centre and its mechanics away, and leaves every other centre.
  pub delete_complete :
      ((delete c.id u d).0 ≡ (
        if not (has_role u admin || (c.owner_user_id == u.id))
        then err center_not_owner
        else (if is_some (find_row (λ s. s.center_id == c.id) d.services)
            then err database_error
            else ok tt)))
      × ((delete c.id u d).0 ≡ ok tt
          → let d' = (delete c.id u d).1 in
            (find_row (λ c'. c'.id == c.id) d'.centers ≡ none)
            × All (λ m. (m.center_id == c.id) ≡ false) d'.mechanics
            × ((j : ℕ)
                → j ≢ c.id
                → find_row (λ c'. c'.id == j) d'.centers ≡ find_row (λ c'. c'.id == j) d.centers))
  delete_complete = (delete_outcome, delete_effect)
