-- ===== src/Prelude/Groups.antt =====
-- What SQL makes of a table: groups by a key, sums, joins and orders.
use Prim.Native.Nat.{ℕ, ◌+◌}
use mathlib.Core.Path.{◌≡◌, refl, sym, ◌∙◌}
use mathlib.Core.Logic.{◌↔◌, ◌≢◌, inl, inr}
use mathlib.Core.Bool.{Bool, true, false}
use mathlib.Core.Option.{none, some}
use mathlib.Core.List.{List, [], ◌∷◌, ◌++◌, map}
use native.Mathlib.Omega.{arith}
use ulov_backend.Prelude.Tests.{if◌then◌else◌, Bool-cases}
use ulov_backend.Prelude.Lists.{find_row, select_rows, All, All-map, All-map_both, length}
use ulov_backend.Prelude.Keys.{Keyed}

-- `func.sum`, `coalesce`d to 0.
abbrev pub sum_of {ℓ} : {A : Type ℓ} → (A → ℕ) → List A → ℕ
sum_of w [] = 0
sum_of w (x ∷ xs) = w x + sum_of w xs

module _ {A K : Type 0} (same : K → K → Bool) (key : A → K) where
  unfoldable pub add_to : A → List (K × List A) → List (K × List A)
  add_to x [] = (key x, x ∷ []) ∷ []
  add_to x (g ∷ gs) = if same g.0 (key x) then (g.0, x ∷ g.1) ∷ gs else g ∷ add_to x gs

  -- `group_by(key)`: each key that a row has, with its rows.
  unfoldable pub group_by : List A → List (K × List A)
  unfolding add_to
  group_by [] = []
  group_by (x ∷ xs) = add_to x (group_by xs)

-- The rows of a group, none where no row has the key.
abbrev pub members : {A K : Type 0} → (K → K → Bool) → K → List (K × List A) → List A
members same k gs = elim (find_row (λ g. same g.0 k) gs) [ none ↦ [] | some g ↦ g.1 ]

module _ {A K : Type 0} (same : K → K → Bool) (key : A → K)
    (same_iff : (a b : K) → (same a b ≡ true) ↔ (a ≡ b)) where
  members-add_to :
      (k : K) (x : A) (gs : List (K × List A))
      → members same k (add_to same key x gs)
        ≡ (if same (key x) k then x ∷ members same k gs else members same k gs)
  unfolding add_to find_row
  members-add_to k x [] = ground arith
  members-add_to k x (g ∷ gs) =
      ground
        (arith, same_iff g.0 (key x), same_iff g.0 k, same_iff (key x) k, members-add_to k x gs)

  -- A group holds the rows that have its key.
  pub members-group_by :
      (k : K) (xs : List A)
      → members same k (group_by same key xs) ≡ select_rows (λ x. same (key x) k) xs
  unfolding group_by select_rows find_row
  members-group_by k [] = refl
  members-group_by k (x ∷ xs) =
      ground (arith, members-add_to k x (group_by same key xs), members-group_by k xs)

  add_to-All :
      (k : K) (x : A) (gs : List (K × List A))
      → key x ≢ k
      → All (λ g. g.0 ≢ k) gs
      → All (λ g. g.0 ≢ k) (add_to same key x gs)
  unfolding add_to
  add_to-All k x [] ne h = (ne, tt)
  add_to-All k x (g ∷ gs) ne h = elim (Bool-cases (same g.0 (key x))) [
    | inl e ↦ rw e (h.0, h.1)
    | inr e ↦ rw e (h.0, add_to-All k x gs ne h.1)
  ]

  add_to-Keyed :
      (x : A) (gs : List (K × List A))
      → Keyed (λ g. g.0) gs
      → Keyed (λ g. g.0) (add_to same key x gs)
  unfolding add_to
  add_to-Keyed x [] h = (tt, tt)
  add_to-Keyed x (g ∷ gs) h = elim (Bool-cases (same g.0 (key x))) [
    | inl e ↦ rw e (h.0, h.1)
    | inr e ↦
        let ne : key x ≢ g.0 = λ eq. ground (arith, e, eq, same_iff g.0 (key x)) in
        rw e (add_to-All g.0 x gs ne h.0, add_to-Keyed x gs h.1)
  ]

  -- Each key has one group.
  pub group_by-Keyed : (xs : List A) → Keyed (λ g. g.0) (group_by same key xs)
  unfolding group_by
  group_by-Keyed [] = tt
  group_by-Keyed (x ∷ xs) = add_to-Keyed x (group_by same key xs) (group_by-Keyed xs)

  -- Each group holds the rows that have its key, and no others.
  groups_All :
      (gs : List (K × List A)) → Keyed (λ g. g.0) gs → All (λ g. members same g.0 gs ≡ g.1) gs
  unfolding find_row
  groups_All [] h = tt
  groups_All (g ∷ gs) h = (
    rw (members, (same_iff g.0 g.0).1 refl) refl,
    All-map_both
        (λ g' ne e.
          let off : same g.0 g'.0 ≡ false = ground (arith, ne, same_iff g.0 g'.0) in
          rw (members, off) e)
        gs h.0 (groups_All gs h.1),
  )

  pub group_by-All :
      (xs : List A) → All (λ g. g.1 ≡ select_rows (λ x. same (key x) g.0) xs) (group_by same key xs)
  group_by-All xs =
      let gs = group_by same key xs in
      All-map {Q = λ g. g.1 ≡ select_rows (λ x. same (key x) g.0) xs}
        (λ g e. sym e ∙ members-group_by g.0 xs) gs (groups_All gs (group_by-Keyed xs))

module _ {κ} {A K : Type 0} (same : K → K → Bool) (key : A → K) (P : K → Type κ) where
  add_to-keys :
      (x : A) (gs : List (K × List A))
      → P (key x)
      → All (λ g. P g.0) gs
      → All (λ g. P g.0) (add_to same key x gs)
  unfolding add_to
  add_to-keys x [] px h = (px, tt)
  add_to-keys x (g ∷ gs) px h = elim (Bool-cases (same g.0 (key x))) [
    | inl e ↦ rw e (h.0, h.1)
    | inr e ↦ rw e (h.0, add_to-keys x gs px h.1)
  ]

  -- What the keys of all rows have, those of the groups have.
  pub group_by-keys :
      (xs : List A) → All (λ x. P (key x)) xs → All (λ g. P g.0) (group_by same key xs)
  unfolding group_by
  group_by-keys [] h = tt
  group_by-keys (x ∷ xs) h = add_to-keys x (group_by same key xs) h.0 (group_by-keys xs h.1)

module _ {A K : Type 0} (same : K → K → Bool) (key : A → K) (w : A → ℕ) where
  sum_of-add_to :
      (x : A) (gs : List (K × List A))
      → sum_of (λ g. sum_of w g.1) (add_to same key x gs) ≡ w x + sum_of (λ g. sum_of w g.1) gs
  unfolding add_to
  sum_of-add_to x [] = omega arith
  sum_of-add_to x (g ∷ gs) = elim (Bool-cases (same g.0 (key x))) [
    | inl e ↦ rw e (omega arith)
    | inr e ↦ rw e (omega (arith, sum_of-add_to x gs))
  ]

  -- The sums of the groups add up to the sum of all rows.
  pub sum_of-group_by :
      (xs : List A) → sum_of (λ g. sum_of w g.1) (group_by same key xs) ≡ sum_of w xs
  unfolding group_by
  sum_of-group_by [] = refl
  sum_of-group_by (x ∷ xs) =
      omega (arith, sum_of-add_to x (group_by same key xs), sum_of-group_by xs)

module _ {A : Type 0} (before : A → A → Bool) where
  unfoldable pub insert_by : A → List A → List A
  insert_by x [] = x ∷ []
  insert_by x (y ∷ ys) = if before x y then x ∷ y ∷ ys else y ∷ insert_by x ys

  -- `order_by(...)`
  unfoldable pub order_by : List A → List A
  unfolding insert_by
  order_by [] = []
  order_by (x ∷ xs) = insert_by x (order_by xs)

  module _ {κ} (P : A → Type κ) where
    insert_by-All : (x : A) (ys : List A) → P x → All P ys → All P (insert_by x ys)
    unfolding insert_by
    insert_by-All x [] px h = (px, tt)
    insert_by-All x (y ∷ ys) px h = elim (Bool-cases (before x y)) [
      | inl e ↦ rw e (px, (h.0, h.1))
      | inr e ↦ rw e (h.0, insert_by-All x ys px h.1)
    ]

    pub order_by-All : (xs : List A) → All P xs → All P (order_by xs)
    unfolding order_by
    order_by-All [] h = tt
    order_by-All (x ∷ xs) h = insert_by-All x (order_by xs) h.0 (order_by-All xs h.1)

  module _ (w : A → ℕ) where
    sum_of-insert_by : (x : A) (ys : List A) → sum_of w (insert_by x ys) ≡ w x + sum_of w ys
    unfolding insert_by
    sum_of-insert_by x [] = refl
    sum_of-insert_by x (y ∷ ys) = elim (Bool-cases (before x y)) [
      | inl e ↦ rw e refl
      | inr e ↦ rw e (omega (arith, sum_of-insert_by x ys))
    ]

    -- An order changes no sum.
    pub sum_of-order_by : (xs : List A) → sum_of w (order_by xs) ≡ sum_of w xs
    unfolding order_by
    sum_of-order_by [] = refl
    sum_of-order_by (x ∷ xs) = omega (arith, sum_of-insert_by x (order_by xs), sum_of-order_by xs)

pub sum_of-map {ℓ κ} :
    {A : Type ℓ} {B : Type κ} (w : B → ℕ) (f : A → B) (xs : List A)
    → sum_of w (map f xs) ≡ sum_of (λ x. w (f x)) xs
sum_of-map w f [] = refl
sum_of-map w f (x ∷ xs) = omega (arith, sum_of-map w f xs)

pub sum_of-append {ℓ} :
    {A : Type ℓ} (w : A → ℕ) (xs ys : List A) → sum_of w (xs ++ ys) ≡ sum_of w xs + sum_of w ys
sum_of-append w [] ys = omega arith
sum_of-append w (x ∷ xs) ys = omega (arith, sum_of-append w xs ys)

pub map-All {ℓ κ ρ} :
    {A : Type ℓ} {B : Type κ} (P : B → Type ρ) (f : A → B) (xs : List A)
    → All (λ x. P (f x)) xs
    → All P (map f xs)
map-All P f [] h = tt
map-All P f (x ∷ xs) h = (h.0, map-All P f xs h.1)

pub map-Keyed :
    {A B K : Type 0} (key : B → K) (f : A → B) (xs : List A)
    → Keyed (λ x. key (f x)) xs
    → Keyed key (map f xs)
map-Keyed key f [] h = tt
map-Keyed key f (x ∷ xs) h = (map-All (λ y. key y ≢ key (f x)) f xs h.0, map-Keyed key f xs h.1)

pub length-append {ℓ} : {A : Type ℓ} (xs ys : List A) → length (xs ++ ys) ≡ length xs + length ys
length-append [] ys = omega arith
length-append (x ∷ xs) ys = omega (arith, length-append xs ys)

pub length-map {ℓ κ} :
    {A : Type ℓ} {B : Type κ} (f : A → B) (xs : List A) → length (map f xs) ≡ length xs
length-map f [] = refl
length-map f (x ∷ xs) = omega (arith, length-map f xs)
