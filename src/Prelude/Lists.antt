-- ===== src/Prelude/Lists.antt =====
-- Rows of a table: the queries and updates by a test, and their laws.
use Prim.Native.Nat.{ℕ, suc}
use mathlib.Core.Path.{◌≡◌, refl, subst}
use mathlib.Core.Logic.{inl, inr}
use mathlib.Core.Option
use mathlib.Core.Bool.{Bool, true, false}
use mathlib.Core.Option.{Option, none, some, some-injective}
use mathlib.Core.List.{List, [], ◌∷◌, ◌++◌}
use native.Mathlib.Omega.{arith}
use ulov_backend.Prelude.Tests.{if◌then◌else◌, Bool-cases}

module _ {ℓ} {A : Type ℓ} where
  abbrev pub length : List A → ℕ
  length [] = 0
  length (_ ∷ xs) = suc (length xs)

  -- `select(...).where(p)` read by `scalar_one_or_none`, for a test that at most one row passes.
  unfoldable pub find_row : (A → Bool) → List A → Option A
  find_row p [] = none
  find_row p (x ∷ xs) = if p x then some x else find_row p xs

  -- `select(...).where(p)` read by `scalars`.
  unfoldable pub select_rows : (A → Bool) → List A → List A
  select_rows p [] = []
  select_rows p (x ∷ xs) = if p x then x ∷ select_rows p xs else select_rows p xs

  -- `update(...).where(p).values(...)`.
  unfoldable pub update_rows : (A → Bool) → (A → A) → List A → List A
  update_rows p f [] = []
  update_rows p f (x ∷ xs) = (if p x then f x else x) ∷ update_rows p f xs

  -- `delete(...).where(p)`.
  unfoldable pub delete_rows : (A → Bool) → List A → List A
  delete_rows p [] = []
  delete_rows p (x ∷ xs) = if p x then delete_rows p xs else x ∷ delete_rows p xs

  -- The `rowcount` of an update or a delete.
  unfoldable pub count_rows : (A → Bool) → List A → ℕ
  count_rows p [] = 0
  count_rows p (x ∷ xs) = if p x then suc (count_rows p xs) else count_rows p xs

  abbrev pub All {κ} : (A → Type κ) → List A → Type κ
  All P [] = Unit
  All P (x ∷ xs) = P x × All P xs

module _ {ℓ} {A : Type ℓ} where
  -- The row that a query gives passes its test.
  pub find_row-test : (p : A → Bool) (xs : List A) {a : A} → find_row p xs ≡ some a → p a ≡ true
  unfolding find_row
  find_row-test p [] h = cc
  find_row-test p (x ∷ xs) {a} h = ground (arith, find_row-test p xs {a = a})

  -- Where a query gives nothing, each row that another query gives fails its test.
  pub find_row-none :
      (p t : A → Bool) (xs : List A) (a : A)
      → find_row p xs ≡ none
      → find_row t xs ≡ some a
      → p a ≡ false
  unfolding find_row
  find_row-none p t [] a h e = cc
  find_row-none p t (x ∷ xs) a h e = elim (Bool-cases (p x)) [
    | inl px ↦ cc (rw px at h)
    | inr px ↦ elim (Bool-cases (t x)) [
      | inl tx ↦
          let same : x ≡ a = some-injective _ _ (rw tx at e) in subst (λ y. p y ≡ false) same px
      | inr tx ↦ find_row-none p t xs a (rw px at h) (rw tx at e)
    ]
  ]

  -- Where a query gives nothing, every row fails its test.
  pub find_row-All : (p : A → Bool) (xs : List A) → find_row p xs ≡ none → All (λ x. p x ≡ false) xs
  unfolding find_row
  find_row-All p [] h = tt
  find_row-All p (x ∷ xs) h = elim (Bool-cases (p x)) [
    | inl px ↦ cc (rw px at h)
    | inr px ↦ (px, find_row-All p xs (rw px at h))
  ]

  pub none-find_row :
      (p : A → Bool) (xs : List A) → All (λ x. p x ≡ false) xs → find_row p xs ≡ none
  unfolding find_row
  none-find_row p [] h = refl
  none-find_row p (x ∷ xs) h = ground (arith, h.0, none-find_row p xs h.1)

  -- An update that leaves a query's test alone changes the row that the query gives, and no more.
  pub find_row-update_rows :
      (p q : A → Bool) (f : A → A)
      → ((x : A) → q x ≡ true → p (f x) ≡ p x)
      → (xs : List A)
      → find_row p (update_rows q f xs) ≡ Option.map (λ x. if q x then f x else x) (find_row p xs)
  unfolding find_row update_rows
  find_row-update_rows p q f keep [] = refl
  find_row-update_rows p q f keep (x ∷ xs) = elim (Bool-cases (q x)) [
    | inl e ↦ ground (arith, e, keep x e, find_row-update_rows p q f keep xs)
    | inr e ↦ ground (arith, e, find_row-update_rows p q f keep xs)
  ]

  pub find_row-append :
      (p : A → Bool) (xs ys : List A)
      → find_row p (xs ++ ys) ≡ elim (find_row p xs) [ some x ↦ some x | none ↦ find_row p ys ]
  unfolding find_row
  find_row-append p [] ys = refl
  find_row-append p (x ∷ xs) ys = ground (arith, find_row-append p xs ys)

  pub All-append {κ} : (P : A → Type κ) (xs ys : List A) → All P xs → All P ys → All P (xs ++ ys)
  All-append P [] ys hx hy = hy
  All-append P (x ∷ xs) ys hx hy = (hx.0, All-append P xs ys hx.1 hy)

  pub All-update_rows {κ} :
      (P : A → Type κ) (q : A → Bool) (f : A → A)
      → ((x : A) → q x ≡ true → P x → P (f x))
      → (xs : List A) → All P xs
      → All P (update_rows q f xs)
  unfolding update_rows
  All-update_rows P q f keep [] h = h
  All-update_rows P q f keep (x ∷ xs) h = elim (Bool-cases (q x)) [
    | inl e ↦ rw e (keep x e h.0, All-update_rows P q f keep xs h.1)
    | inr e ↦ rw e (h.0, All-update_rows P q f keep xs h.1)
  ]

  pub All-find_row {κ} :
      (P : A → Type κ) (p : A → Bool) (xs : List A) {a : A}
      → All P xs
      → find_row p xs ≡ some a
      → P a
  unfolding find_row
  All-find_row P p [] h e = absurd (cc)
  All-find_row P p (x ∷ xs) h e = elim (Bool-cases (p x)) [
    | inl t ↦ subst P (some-injective _ _ (rw t at e)) h.0
    | inr t ↦ All-find_row P p xs h.1 (rw t at e)
  ]

  pub All-always {κ} : {P : A → Type κ} → ((x : A) → P x) → (xs : List A) → All P xs
  All-always f [] = tt
  All-always f (x ∷ xs) = (f x, All-always f xs)

  pub All-map {κ ρ} :
      {P : A → Type κ} {Q : A → Type ρ}
      → ((x : A) → P x → Q x)
      → (xs : List A) → All P xs
      → All Q xs
  All-map f [] h = tt
  All-map f (x ∷ xs) h = (f x h.0, All-map f xs h.1)

  pub All-map_both {κ ρ σ} :
      {P : A → Type κ} {Q : A → Type ρ} {R : A → Type σ}
      → ((x : A) → P x → Q x → R x)
      → (xs : List A) → All P xs
      → All Q xs
      → All R xs
  All-map_both f [] h k = tt
  All-map_both f (x ∷ xs) h k = (f x h.0 k.0, All-map_both f xs h.1 k.1)

module _ {ℓ} {A : Type ℓ} (p : A → Bool) where
  pub select_rows-delete_rows : (xs : List A) → select_rows p (delete_rows p xs) ≡ []
  unfolding select_rows delete_rows
  select_rows-delete_rows [] = refl
  select_rows-delete_rows (x ∷ xs) = ground (arith, select_rows-delete_rows xs)

  pub select_rows-append :
      (xs ys : List A) → select_rows p (xs ++ ys) ≡ select_rows p xs ++ select_rows p ys
  unfolding select_rows
  select_rows-append [] ys = refl
  select_rows-append (x ∷ xs) ys = ground (arith, select_rows-append xs ys)
