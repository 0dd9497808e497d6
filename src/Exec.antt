-- ===== src/Exec.antt =====
-- Actions on a state that may raise: what was written before a raise stays written in the state
-- that comes back, as in a session before its rollback. `request` is the session's life in
-- app/deps.py: commit, or roll back and raise again.
use mathlib.Core.Path.{subst}
use ulov_backend.Prelude.{Bool, true, false, Option, none, some, ◌≡◌, refl, sym, ◌⊎◌, inl, inr}
use ulov_backend.Errors.{Code}

pub data Result {ℓ} (A : Type ℓ) : Type ℓ where
  ok : A → Result A
  err : Code → Result A

pub Result-cases {ℓ} :
    {A : Type ℓ} (r : Result A) → ((e : Code) × (r ≡ err e)) ⊎ ((a : A) × (r ≡ ok a))
Result-cases (ok a) = inr (a, refl)
Result-cases (err e) = inl (e, refl)

abbrev pub Exec : Type 0 → Type 0 → Type 0
Exec S A = S → Result A × S

module _ {S A : Type 0} where
  abbrev pub pure : A → Exec S A
  pure a s = (ok a, s)

  abbrev pub raise : Code → Exec S A
  raise e s = (err e, s)

  abbrev pub gets : (S → A) → Exec S A
  gets f s = (ok (f s), s)

  -- The value of a query, or an exception where it gives none.
  abbrev pub or_raise : Option A → Code → Exec S A
  or_raise none e = raise e
  or_raise (some a) _ = pure a

module _ {S : Type 0} where
  abbrev pub modify : (S → S) → Exec S (Unit {0})
  modify f s = (ok tt, f s)

  -- `if c: raise`
  abbrev pub raise_if : Bool → Code → Exec S (Unit {0})
  raise_if true e = raise e
  raise_if false e = pure tt

  -- `if c: m`
  abbrev pub when : Bool → Exec S (Unit {0}) → Exec S (Unit {0})
  when true m = m
  when false m = pure tt

infixl 5 ◌>>=◌ ◌>>◌
abbrev pub ◌>>=◌ : {S A B : Type 0} → Exec S A → (A → Exec S B) → Exec S B
◌>>=◌ m f s = let (r, s') = m s in elim r [ ok a ↦ f a s' | err e ↦ raise e s' ]

-- What follows an action that has given a value.
pub bind_ok :
    {S A B : Type 0} (m : Exec S A) (f : A → Exec S B) (s s' : S) (a : A)
    → m s ≡ (ok a, s')
    → (m >>= f) s ≡ f a s'
bind_ok {S} {A} {B} m f s s' a e =
    subst
      (λ p. (elim (p.0) as (λ _. Result B × S) [ ok x ↦ f x p.1 | err c ↦ raise c p.1 ]) ≡ f a s')
      (sym e) refl

abbrev pub ◌>>◌ : {S B : Type 0} → Exec S (Unit {0}) → Exec S B → Exec S B
m >> k = m >>= λ _. k

-- `get_db`: the state after a request is the one that the handler left, or the old one.
unfoldable pub request : {S A : Type 0} → Exec S A → Exec S A
request m s = let (r, s') = m s in elim r [ ok a ↦ (ok a, s') | err e ↦ (err e, s) ]

abbrev pub Succeeds : {A : Type 0} → Result A → Type 0
Succeeds {A} r = (a : A) × (r ≡ ok a)
