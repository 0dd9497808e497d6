-- ===== src/Prelude/Keys.antt =====
-- Tables whose rows have different keys.
use Prim.Native.Nat.{ℕ, ◌<◌}
use mathlib.Core.Path.{◌≡◌, refl, sym, ap, ◌∙◌, subst}
use mathlib.Core.Logic.{◌≢◌, inl, inr}
use mathlib.Core.Bool.{Bool, true, false, ◌&&◌}
use mathlib.Core.Option.{some, some-injective}
use mathlib.Core.List.{List, [], ◌∷◌, ◌++◌}
use native.Mathlib.Omega.{arith}
use ulov_backend.Prelude.Tests.{◌==◌, ==_refl, Bool-cases, ==_iff}
use ulov_backend.Prelude.Lists.{
  find_row, update_rows, All, find_row-test, All-append, All-update_rows, All-find_row, All-map,
  All-map_both,
}

-- A table whose rows have different keys.
module _ {ℓ} {A : Type ℓ} {K : Type 0} (key : A → K) where
  abbrev pub Keyed : List A → Type ℓ
  Keyed [] = Unit
  Keyed (x ∷ xs) = All (λ y. key y ≢ key x) xs × Keyed xs

module _ {ℓ} {A : Type ℓ} {K : Type 0} (key : A → K) where
  -- A new row with a key that no other has.
  pub Keyed-append_new :
      (xs : List A) (a : A) → All (λ x. key x ≢ key a) xs → Keyed key xs → Keyed key (xs ++ a ∷ [])
  Keyed-append_new [] a new k = (tt, tt)
  Keyed-append_new (x ∷ xs) a new k = (
    All-append (λ y. key y ≢ key x) xs (a ∷ []) k.0 ((λ e. new.0 (sym e)), tt),
    Keyed-append_new xs a new.1 k.1,
  )

module _ {ℓ} {A : Type ℓ} (key : A → ℕ) where
  -- The row that a query gives is the only one with its key.
  pub Keyed-find_row :
      (p : A → Bool) (xs : List A) (a : A)
      → Keyed key xs
      → find_row p xs ≡ some a
      → All (λ x. key x ≡ key a → x ≡ a) xs
  unfolding find_row
  Keyed-find_row p [] a k h = tt
  Keyed-find_row p (x ∷ xs) a k h = elim (Bool-cases (p x)) [
    | inl e ↦
        let same : x ≡ a = some-injective _ _ (rw e at h) in
        ((λ _. same), All-map (λ y ne eq. absurd (ne (eq ∙ ap key (sym same)))) xs k.0)
    | inr e ↦
        let rest : find_row p xs ≡ some a = rw e at h in
        (
          (λ eq. absurd (All-find_row (λ y. key y ≢ key x) p xs k.0 rest (sym eq))),
          Keyed-find_row p xs a k.1 rest,
        )
  ]

  pub Keyed-update_rows :
      (q : A → Bool) (f : A → A)
      → ((x : A) → key (f x) ≡ key x)
      → (xs : List A) → Keyed key xs
      → Keyed key (update_rows q f xs)
  unfolding update_rows
  Keyed-update_rows q f keep [] k = tt
  Keyed-update_rows q f keep (x ∷ xs) k = elim (Bool-cases (q x)) [
    | inl e ↦ rw (e, keep x) (others, Keyed-update_rows q f keep xs k.1)
    | inr e ↦ rw e (others, Keyed-update_rows q f keep xs k.1)
  ]
    where
      others : All (λ y. key y ≢ key x) (update_rows q f xs)
      others = All-update_rows (λ y. key y ≢ key x) q f (λ y _ ne. rw (keep y) ne) xs k.0

  -- A new row with a key above all others.
  pub Keyed-append :
      (xs : List A) (a : A) → All (λ x. key x < key a) xs → Keyed key xs → Keyed key (xs ++ a ∷ [])
  Keyed-append [] a below k = (tt, tt)
  Keyed-append (x ∷ xs) a below k = (
    All-append (λ y. key y ≢ key x) xs (a ∷ []) k.0 ((λ e. omega arith), tt),
    Keyed-append xs a below.1 k.1,
  )

  -- An update of the row with the key of `a`: what held of each other row may change with it.
  pub All-update_at {κ ρ} :
      (P : A → Type κ) (Q : A → Type ρ) (f : A → A) (a : A)
      → ((x : A) → key x ≢ key a → P x → Q x)
      → Q (f a)
      → (xs : List A) → All (λ x. key x ≡ key a → x ≡ a) xs
      → All P xs
      → All Q (update_rows (λ x. key x == key a) f xs)
  unfolding update_rows
  All-update_at P Q f a others here [] only h = tt
  All-update_at P Q f a others here (x ∷ xs) only h =
      let rest : All Q (update_rows (λ x. key x == key a) f xs) =
        All-update_at P Q f a others here xs only.1 h.1 in
      elim (Bool-cases (key x == key a)) [
        | inl e ↦
            let same : x ≡ a = only.0 ((==_iff (key x) (key a)).0 e) in
            rw e (subst (λ y. Q (f y)) (sym same) here, rest)
        | inr e ↦
            let ne : key x ≢ key a = λ eq. ground (arith, e, eq) in rw e (others x ne h.0, rest)
      ]

module _ {ℓ} {A : Type ℓ} (key : A → ℕ) where
  -- The row that any query gives is also what its key finds.
  pub Keyed-find_key :
      (p : A → Bool) (xs : List A) (a : A)
      → All (λ x. key x ≡ key a → x ≡ a) xs
      → find_row p xs ≡ some a
      → find_row (λ x. key x == key a) xs ≡ some a
  unfolding find_row
  Keyed-find_key p [] a only h = cc
  Keyed-find_key p (x ∷ xs) a only h = elim (Bool-cases (key x == key a)) [
    | inl e ↦ rw e (ap some (only.0 ((==_iff (key x) (key a)).0 e)))
    | inr e ↦ elim (Bool-cases (p x)) [
      | inl t ↦
          let same : x ≡ a = some-injective _ _ (rw t at h) in
          absurd (ground (arith, e, ap key same))
      | inr t ↦ rw e (Keyed-find_key p xs a only.1 (rw t at h))
    ]
  ]

  -- A query still gives the row that it gave, after that row alone was replaced by one that passes.
  pub find_row-replace :
      (p : A → Bool) (b : A) (xs : List A) (a : A)
      → p b ≡ true
      → All (λ x. key x ≡ key a → x ≡ a) xs
      → find_row p xs ≡ some a
      → find_row p (update_rows (λ x. key x == key a) (λ _. b) xs) ≡ some b
  unfolding find_row update_rows
  find_row-replace p b [] a ok only h = cc
  find_row-replace p b (x ∷ xs) a ok only h = elim (Bool-cases (p x)) [
    | inl t ↦
        let same : x ≡ a = some-injective _ _ (rw t at h) in
        let e : (key x == key a) ≡ true = (==_iff (key x) (key a)).1 (ap key same) in
        ground (arith, e, ok)
    | inr t ↦
        let rest : find_row p xs ≡ some a = rw t at h in
        elim (Bool-cases (key x == key a)) [
          | inl e ↦
              let same : x ≡ a = only.0 ((==_iff (key x) (key a)).0 e) in
              absurd (cc (ap p same, t, find_row-test p xs rest))
          | inr e ↦ ground (arith, e, t, find_row-replace p b xs a ok only.1 rest)
        ]
  ]

-- In a table with different keys, the key of a row that passes a test finds it.
pub Keyed-find_self {ℓ} :
    {A : Type ℓ} (key : A → ℕ) (q : A → Bool) (xs : List A)
    → Keyed key xs
    → All (λ x. q x ≡ true → find_row (λ y. (key y == key x) && q y) xs ≡ some x) xs
unfolding find_row
Keyed-find_self key q [] k = tt
Keyed-find_self key q (x ∷ xs) k = (
  (λ e. rw (e, ==_refl (key x)) refl),
  All-map_both
      (λ y ne found e. let o : (key x == key y) ≡ false = ground (arith, ne) in rw o (found e)) xs
      k.0 (Keyed-find_self key q xs k.1),
)
