-- ===== src/Prelude/Pages.antt =====
-- What an update or a deletion leaves, and the pages of a query.
use Prim.Native.Nat.{ℕ, zero, suc}
use mathlib.Core.Path.{◌≡◌, refl}
use mathlib.Core.Logic.{inl, inr}
use mathlib.Core.Bool.{Bool, true, false}
use mathlib.Core.List.{List, [], ◌∷◌, reverse, reverse-cons}
use native.Mathlib.Omega.{arith}
use mathlib.Core.Option
use ulov_backend.Prelude.Tests.{◌==◌, if◌then◌else◌, Bool-cases}
use ulov_backend.Prelude.Lists.{find_row, select_rows, update_rows, delete_rows, All, All-append}

module _ {ℓ} {A : Type ℓ} where
  -- What an update makes true, and what the rows that it leaves alone have.
  pub update_rows-All {κ} :
      (P : A → Type κ) (q : A → Bool) (f : A → A)
      → ((x : A) → q x ≡ true → P (f x))
      → ((x : A) → q x ≡ false → P x)
      → (xs : List A) → All P (update_rows q f xs)
  unfolding update_rows
  update_rows-All P q f new old [] = tt
  update_rows-All P q f new old (x ∷ xs) = elim (Bool-cases (q x)) [
    | inl e ↦ rw e (new x e, update_rows-All P q f new old xs)
    | inr e ↦ rw e (old x e, update_rows-All P q f new old xs)
  ]

  -- A deletion leaves no row that passes its test, and a query that no such row passes alone.
  pub delete_rows-All : (q : A → Bool) (xs : List A) → All (λ x. q x ≡ false) (delete_rows q xs)
  unfolding delete_rows
  delete_rows-All q [] = tt
  delete_rows-All q (x ∷ xs) = elim (Bool-cases (q x)) [
    | inl e ↦ rw e (delete_rows-All q xs)
    | inr e ↦ rw e (e, delete_rows-All q xs)
  ]

  pub find_row-delete_rows :
      (p q : A → Bool)
      → ((x : A) → q x ≡ true → p x ≡ false)
      → (xs : List A) → find_row p (delete_rows q xs) ≡ find_row p xs
  unfolding find_row delete_rows
  find_row-delete_rows p q apart [] = refl
  find_row-delete_rows p q apart (x ∷ xs) = elim (Bool-cases (q x)) [
    | inl e ↦ ground (arith, e, apart x e, find_row-delete_rows p q apart xs)
    | inr e ↦ ground (arith, e, find_row-delete_rows p q apart xs)
  ]

-- The row that a key finds, after an update of the rows with a key.
pub find_key-update_rows {ℓ} :
    {A : Type ℓ} (key : A → ℕ) (i j : ℕ) (f : A → A)
    → ((x : A) → key (f x) ≡ key x)
    → (xs : List A)
    → find_row (λ x. key x == j) (update_rows (λ x. key x == i) f xs)
      ≡ Option.map (λ x. if j == i then f x else x) (find_row (λ x. key x == j) xs)
unfolding find_row update_rows
find_key-update_rows key i j f keep [] = refl
find_key-update_rows key i j f keep (x ∷ xs) = elim (Bool-cases (key x == i)) [
  | inl e ↦ ground (arith, e, keep x, find_key-update_rows key i j f keep xs)
  | inr e ↦ ground (arith, e, find_key-update_rows key i j f keep xs)
]

-- `.limit(n)` and `.offset(n)`
abbrev pub take {ℓ} : {A : Type ℓ} → ℕ → List A → List A
take zero xs = []
take (suc n) [] = []
take (suc n) (x ∷ xs) = x ∷ take n xs

abbrev pub drop {ℓ} : {A : Type ℓ} → ℕ → List A → List A
drop zero xs = xs
drop (suc n) [] = []
drop (suc n) (x ∷ xs) = drop n xs

module _ {ℓ κ} {A : Type ℓ} (P : A → Type κ) where
  pub All-take : (n : ℕ) (xs : List A) → All P xs → All P (take n xs)
  All-take zero xs h = tt
  All-take (suc n) [] h = tt
  All-take (suc n) (x ∷ xs) h = (h.0, All-take n xs h.1)

  pub All-drop : (n : ℕ) (xs : List A) → All P xs → All P (drop n xs)
  All-drop zero xs h = h
  All-drop (suc n) [] h = tt
  All-drop (suc n) (x ∷ xs) h = All-drop n xs h.1

  pub All-reverse : (xs : List A) → All P xs → All P (reverse xs)
  All-reverse [] h = tt
  All-reverse (x ∷ xs) h =
      rw (reverse-cons x xs) (All-append P (reverse xs) (x ∷ []) (All-reverse xs h.1) (h.0, tt))

  pub All-select_rows :
      (p : A → Bool) (xs : List A) → All P xs → All (λ x. P x × (p x ≡ true)) (select_rows p xs)
  unfolding select_rows
  All-select_rows p [] h = tt
  All-select_rows p (x ∷ xs) h = elim (Bool-cases (p x)) [
    | inl e ↦ rw e ((h.0, e), All-select_rows p xs h.1)
    | inr e ↦ rw e (All-select_rows p xs h.1)
  ]
