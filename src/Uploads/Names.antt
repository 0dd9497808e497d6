-- ===== src/Uploads/Names.antt =====
-- The keys of uploads never collide.
use ulov_backend.Prelude.{ℕ, ◌≡◌, ◌≢◌, refl, sym, ap, ◌∙◌, Option, [], ◌∷◌, ◌++◌, arith}
use ulov_backend.Prelude.Text.{Text, codes, text_eq}
use ulov_backend.Prelude.Tests.{if◌then◌else◌}
use ulov_backend.Prelude.Lists.{All}
use ulov_backend.Rbac.{CurrentUser}
use ulov_backend.Uploads.{
  Kind, avatar, car_photo, center_avatar, service_photo, Host, folder, owner_of, key_for,
}

-- Two texts that are cut at the first of a character are the same where their parts are.
cut-injective :
    (c : ℕ) (xs ys : Text) (s t : Text)
    → All (λ x. x ≢ c) xs
    → All (λ x. x ≢ c) ys
    → xs ++ c ∷ s ≡ ys ++ c ∷ t
    → (xs ≡ ys) × (s ≡ t)
cut-injective c [] [] s t hx hy e = ground arith
cut-injective c [] (y ∷ ys) s t hx hy e = absurd (ground (arith, hy.0))
cut-injective c (x ∷ xs) [] s t hx hy e = absurd (ground (arith, hx.0))
cut-injective c (x ∷ xs) (y ∷ ys) s t hx hy e = ground (arith, cut-injective c xs ys s t hx.1 hy.1)

-- The kind that a folder stands for.
kind_of : Text → Kind
kind_of t =
    if text_eq t (codes "avatars")
    then avatar
    else if text_eq t (codes "cars")
    then car_photo
    else if text_eq t (codes "centers")
    then center_avatar
    else service_photo

kind_of-folder : (k : Kind) → kind_of (folder k) ≡ k
unfolding kind_of text_eq
kind_of-folder avatar = refl
kind_of-folder car_photo = refl
kind_of-folder center_avatar = refl
kind_of-folder service_photo = refl

folder-injective : (k l : Kind) → folder k ≡ folder l → k ≡ l
folder-injective k l h = sym (kind_of-folder k) ∙ ap kind_of h ∙ kind_of-folder l

folder_plain : (k : Kind) → All (λ x. x ≢ b'/') (folder k)
folder_plain avatar = ground arith
folder_plain car_photo = ground arith
folder_plain center_avatar = ground arith
folder_plain service_photo = ground arith

module _ (host : Host) (text_plain : (i : ℕ) → All (λ x. x ≢ b'/') (host.uuid_text i))
    (hex_plain : (i : ℕ) → All (λ x. x ≢ b'.') (host.uuid_hex i))
    (text-injective : (i j : ℕ) → host.uuid_text i ≡ host.uuid_text j → i ≡ j)
    (hex-injective : (i j : ℕ) → host.uuid_hex i ≡ host.uuid_hex j → i ≡ j) where
  -- Where the texts of UUIDs differ and have no slash, and their hexadecimal forms differ and have no
  -- dot, two keys are equal only for one kind, one owner, one drawn UUID and one extension.
  pub key_for-injective :
      (k l : Kind) (u v : CurrentUser) (e f : Option ℕ) (a b i j : ℕ) (x y : Text)
      → key_for host k u e a i x ≡ key_for host l v f b j y
      → (k ≡ l) × (owner_of k u e a ≡ owner_of l v f b) × (i ≡ j) × (x ≡ y)
  unfolding key_for
  key_for-injective k l u v e f a b i j x y h =
      let o = owner_of k u e a in
      let q = owner_of l v f b in
      let first =
        cut-injective b'/' (folder k) (folder l) _ _ (folder_plain k) (folder_plain l) h in
      let second =
        cut-injective b'/' (host.uuid_text o) (host.uuid_text q) _ _ (text_plain o) (text_plain q)
          first.1 in
      let third =
        cut-injective b'.' (host.uuid_hex i) (host.uuid_hex j) _ _ (hex_plain i) (hex_plain j)
          second.1 in
      (
        folder-injective k l first.0,
        text-injective o q second.0,
        hex-injective i j third.0,
        third.1,
      )
