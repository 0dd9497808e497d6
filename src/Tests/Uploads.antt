-- ===== src/Tests/Uploads.antt =====
-- Uploads and the accounts of the platform on a small database.
use ulov_backend.Services.Repository.{user_exists}
use ulov_backend.Prelude.{
  ℕ, zero, suc, ◌≡◌, ◌≢◌, refl, ap, false, Option, none, some, [], ◌∷◌, arith, true,
}
use mathlib.Core.Option
use ulov_backend.Prelude.Tests.{◌==◌}
use ulov_backend.Prelude.Text.{Text, codes}
use ulov_backend.Prelude.Lists.{All, find_row}
use ulov_backend.Exec.{ok}
use ulov_backend.Rbac.{CurrentUser, customer, admin}
use ulov_backend.Db.{Db}
use ulov_backend.Db.Rows.{User}
use ulov_backend.Auth.Service.{Pair, authenticate, rotate_refresh}
use ulov_backend.Users as users
use ulov_backend.Uploads.{
  car_photo, Host, PresignIn, public_url_for, key_for, lstrip, rstrip, owner_of,
}
use ulov_backend.Uploads.Names.{key_for-injective}
use ulov_backend.Admin.{set_active}
use ulov_backend.Admin.Accounts.{set_active-locks}
use ulov_backend.Tests.Data.{shop, account, driver, worker}
use ulov_backend.Tests.Auth.{cfg, jwt, hasher}

-- A text for each id: as many letters.
abbrev pub ones : ℕ → Text
ones zero = []
ones (suc n) = 97 ∷ ones n

pub ones-injective : (i j : ℕ) → ones i ≡ ones j → i ≡ j
ones-injective zero zero e = refl
ones-injective zero (suc j) e = absurd (cc)
ones-injective (suc i) zero e = absurd (cc)
ones-injective (suc i) (suc j) e = ap suc (ones-injective i j (ground (arith, e)))

ones_plain : (c : ℕ) → 97 ≢ c → (i : ℕ) → All (λ x. x ≢ c) (ones i)
ones_plain c ne zero = tt
ones_plain c ne (suc i) = (ne, ones_plain c ne i)

abbrev host : Host
host = record {
  uuid_text = ones;
  uuid_hex = ones;
  lower = λ s. s;
  guess_extension = λ s. none;
  presigned_url = λ bucket key content_type ttl. key;
}

abbrev photo : PresignIn
photo = record {
  kind = car_photo;
  content_type = codes "image/png";
  size_bytes = 1000;
  filename = none;
  entity_id = some 20;
}

abbrev db : Db
db = shop [] [] []

abbrev drawn : ℕ
drawn = 7

key_for-injective_example :
    (car_photo ≡ car_photo)
    × (owner_of car_photo driver (some 20) 1 ≡ owner_of car_photo worker (some 20) 2)
    × (drawn ≡ drawn)
    × (codes "png" ≡ codes "png")
unfolding key_for
key_for-injective_example =
    key_for-injective host (ones_plain 47 (λ e. ground (arith, e)))
      (ones_plain 46 (λ e. ground (arith, e))) ones-injective ones-injective car_photo car_photo
      driver worker (some 20) (some 20) 1 2 drawn drawn (codes "png") (codes "png") refl

public_url_runs : public_url_for cfg (codes "/a") ≡ codes "https://cdn/a"
unfolding public_url_for lstrip rstrip
public_url_runs = refl

abbrev root : CurrentUser
root = record { id = 4; role = some admin; center_id = none }

root_known : user_exists (some 4) db ≡ true
unfolding find_row
root_known = refl

third : find_row (λ x. x.id == 3) db.users ≡ some (account 3 customer)
unfolding find_row
third = refl

set_active-locks_example :
    let (r, d') = set_active root 3 (some false) db in
    (r ≡ ok false)
    × ((phone password : Text) (x : User)
        → (authenticate hasher phone password d').0 ≡ ok x
        → x.id ≢ 3)
    × ((now : ℕ) (old raw : Text) (user_agent ip : Option Text) (p : Pair) (x : User)
        → (rotate_refresh cfg jwt (λ s. s) now old raw user_agent ip d').0 ≡ ok (p, x)
        → x.id ≢ 3)
    × ((j : ℕ) → j ≢ 3 → find_row (λ x. x.id == j) d'.users ≡ find_row (λ x. x.id == j) db.users)
set_active-locks_example =
    set_active-locks cfg jwt (λ s. s) hasher root 3 db (account 3 customer) refl root_known third
