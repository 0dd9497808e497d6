-- ===== src/Users/Profile.antt =====
-- What a change of the profile shows afterwards.
use ulov_backend.Prelude.{ℕ, ◌≡◌, ◌∙◌, refl, ap, false, Option, none, some, arith}
use mathlib.Core.Option
use ulov_backend.Prelude.Tests.{◌==◌, ==_refl, if◌then◌else◌}
use ulov_backend.Prelude.Text.{Text}
use ulov_backend.Prelude.Lists.{find_row, update_rows}
use ulov_backend.Prelude.Pages.{find_key-update_rows}
use ulov_backend.Exec.{ok}
use ulov_backend.Rbac.{CurrentUser, mechanic, has_role}
use ulov_backend.Db.{Db}
use ulov_backend.Db.Rows.{User}
use ulov_backend.Users.{
  Fields, with_fields, get_by_id, update_fields, get_user, patch_me, set_avatar, get_me, me_of_user,
  with_avatar,
}

-- The keywords of a patch.
abbrev pub patch_fields : Option Text → Option Text → Option Text → Fields
patch_fields full_name email city = record {
  full_name = full_name;
  email = email;
  city = city;
  avatar_url = none;
}

pub update_fields_found :
    (i : ℕ) (f : Fields) (d : Db)
    → find_row (λ x. x.id == i) (update_rows (λ x. x.id == i) (with_fields f) d.users)
      ≡ Option.map (with_fields f) (find_row (λ x. x.id == i) d.users)
update_fields_found i f d =
    find_key-update_rows (λ x. x.id) i i (with_fields f) (λ _. refl) d.users
    ∙ ap
        (λ b.
          Option.map (λ x. if b then with_fields f x else x) (find_row (λ x. x.id == i) d.users))
        (==_refl i)

set_avatar_found :
    (i : ℕ) (url : Option Text) (d : Db)
    → find_row (λ x. x.id == i) (update_rows (λ x. x.id == i) (with_avatar url) d.users)
      ≡ Option.map (with_avatar url) (find_row (λ x. x.id == i) d.users)
set_avatar_found i url d =
    find_key-update_rows (λ x. x.id) i i (with_avatar url) (λ _. refl) d.users
    ∙ ap
        (λ b.
          Option.map (λ x. if b then with_avatar url x else x) (find_row (λ x. x.id == i) d.users))
        (==_refl i)

-- For a caller who is no mechanic and whose row exists, a patch of the profile succeeds and the
-- profile then shows the fields that were sent and keeps the others; and setting the avatar makes
-- the profile show what was sent, no avatar where nothing was.
pub get_me-patch_me :
    (u : CurrentUser) (full_name email city url : Option Text) (d : Db) (row : User)
    → has_role u mechanic ≡ false
    → find_row (λ x. x.id == u.id) d.users ≡ some row
    → let new = with_fields (patch_fields full_name email city) row in
      ((patch_me u.id full_name email city d).0 ≡ ok new)
      × ((get_me u (patch_me u.id full_name email city d).1).0 ≡ ok (me_of_user new))
      × ((set_avatar u.id url d).0 ≡ ok (with_avatar url row))
      × ((get_me u (set_avatar u.id url d).1).0 ≡ ok (me_of_user (with_avatar url row)))
unfolding patch_me update_fields get_by_id get_me get_user set_avatar
get_me-patch_me u full_name email city url d row other e =
    let fields = patch_fields full_name email city in
    (
      ground (arith, e, update_fields_found u.id fields d),
      ground (arith, e, other, update_fields_found u.id fields d),
      ground (arith, e),
      ground (arith, e, other, set_avatar_found u.id url d),
    )
