-- ===== src/Plate/Canonical.antt =====
-- The canonical form is canonical: what is accepted is made of the right characters, and is
-- accepted again as it is.
use ulov_backend.Prelude.{
  ℕ, suc, ◌≤◌, ◌≡◌, refl, ap, ◌⊎◌, ◌↔◌, inl, inr, Bool, true, false, ◌||◌, Option, some, List, [],
  ◌∷◌, arith,
}
use mathlib.Core.Path.{subst}
use ulov_backend.Prelude.Tests.{Bool-cases}
use ulov_backend.Prelude.Text.{Text, strip, is_space, truthy, truthy-strip, text_or_empty}
use ulov_backend.Prelude.Lists.{length}
use ulov_backend.Db.Rows.{PlateType, standard, legal, other}
use ulov_backend.Plate.{
  accepted, is_alnum, upper, keep_alnum, upper_all, strip_plate, all_chars, matches, standard_re,
  legal_re, matches_other, shape_of, normalize_plate, detect_plate_type, validate_plate_type,
  validate_vin, matches_run, is_vin_char,
}

keep_alnum-all : (s : Text) → all_chars is_alnum (keep_alnum s) ≡ true
unfolding keep_alnum all_chars
keep_alnum-all [] = refl
keep_alnum-all (c ∷ s) = elim (Bool-cases (is_alnum c)) [
  | inl e ↦ rw e (rw e (keep_alnum-all s))
  | inr e ↦ rw e (keep_alnum-all s)
]

upper-alnum : (c : ℕ) → is_alnum c ≡ true → upper c ≡ c ∷ []
unfolding upper
upper-alnum c h = ground arith

-- A text of the right characters is its own canonical form.
strip_plate_fixed : (s : Text) → all_chars is_alnum s ≡ true → strip_plate s ≡ s
unfolding strip_plate all_chars keep_alnum upper_all
strip_plate_fixed [] h = refl
strip_plate_fixed (c ∷ s) h =
    let good : is_alnum c ≡ true = ground (arith, h) in
    let rest : keep_alnum (upper_all s) ≡ s = strip_plate_fixed s (ground (arith, h)) in
    rw (upper-alnum c good) (rw good (ap (λ t. c ∷ t) rest))

is_space-alnum : (c : ℕ) → is_alnum c ≡ true → is_space c ≡ false
unfolding is_space
is_space-alnum c h = ground arith

not_blank : (s : Text) → all_chars is_alnum s ≡ true → truthy s ≡ true → truthy (strip s) ≡ true
unfolding all_chars
not_blank [] h t = cc
not_blank (c ∷ s) h t = truthy-strip c s (is_space-alnum c (ground (arith, h)))

matches-length : (ps : List (ℕ → Bool)) (s : Text) → matches ps s ≡ true → length s ≡ length ps
unfolding matches
matches-length [] [] h = refl
matches-length [] (c ∷ s) h = cc
matches-length (p ∷ ps) [] h = cc
matches-length (p ∷ ps) (c ∷ s) h = ap suc (matches-length ps s (ground (arith, h)))

strip_plate-all : (raw : Text) → all_chars is_alnum (strip_plate raw) ≡ true
unfolding strip_plate
strip_plate-all raw = keep_alnum-all (upper_all raw)

-- What `normalize_plate` has found when it accepts.
normalize_plate-parts :
    (raw : Option Text) (s : Text)
    → normalize_plate raw ≡ accepted s
    → (strip_plate (text_or_empty raw) ≡ s)
      × (truthy s ≡ true)
      × ((matches standard_re s || matches legal_re s || matches_other s) ≡ true)
unfolding normalize_plate
normalize_plate-parts raw s h = ground arith

-- A plate that is accepted has only capital letters and digits, at least one and at most 15.
pub normalize_plate-canonical :
    (raw : Option Text) (s : Text)
    → normalize_plate raw ≡ accepted s
    → (all_chars is_alnum s ≡ true) × (1 ≤ length s) × (length s ≤ 15)
normalize_plate-canonical raw s h =
    let (plate, full, shaped) = normalize_plate-parts raw s h in
    let good : all_chars is_alnum s ≡ true =
      subst (λ t. all_chars is_alnum t ≡ true) plate (strip_plate-all (text_or_empty raw)) in
    (
      good,
      ground (arith, shaped, matches-length standard_re s, matches-length legal_re s),
      ground (arith, shaped, matches-length standard_re s, matches-length legal_re s),
    )

-- A plate that is accepted is accepted again as it is.
pub normalize_plate_again :
    (raw : Option Text) (s : Text)
    → normalize_plate raw ≡ accepted s
    → normalize_plate (some s) ≡ accepted s
unfolding normalize_plate
normalize_plate_again raw s h =
    let (plate, full, shaped) = normalize_plate-parts raw s h in
    let good : all_chars is_alnum s ≡ true = (normalize_plate-canonical raw s h).0 in
    ground (arith, full, shaped, not_blank s good full, strip_plate_fixed s good)

-- For a plate with an accepted canonical form, a strict type accepts exactly the plates of its
-- shape; `other` accepts every one.
pub validate_plate_type_iff :
    (raw : Option Text) (s : Text) (expected : PlateType)
    → normalize_plate raw ≡ accepted s
    → (validate_plate_type raw expected ≡ accepted s)
      ↔ ((expected ≡ other) ⊎ (shape_of s ≡ expected))
unfolding validate_plate_type detect_plate_type
validate_plate_type_iff raw s expected h =
    let again : normalize_plate (some s) ≡ accepted s = normalize_plate_again raw s h in
    (held expected again, λ k. ground (arith, h, again, k))
  where
    held :
        (expected : PlateType)
        → normalize_plate (some s) ≡ accepted s
        → validate_plate_type raw expected ≡ accepted s
        → (expected ≡ other) ⊎ (shape_of s ≡ expected)
    held standard again k = inr (ground (arith, h, again, k))
    held legal again k = inr (ground (arith, h, again, k))
    held other again k = inl refl

-- A VIN that is accepted has 17 characters, none of them I, O or Q, and is accepted again.
pub validate_vin-canonical :
    (raw : Option Text) (s : Text)
    → validate_vin raw ≡ accepted (some s)
    → (all_chars is_vin_char s ≡ true)
      × (length s ≡ 17)
      × (validate_vin (some s) ≡ accepted (some s))
unfolding validate_vin
validate_vin-canonical raw s h =
    let plate : strip_plate (text_or_empty raw) ≡ s = ground arith in
    let good : all_chars is_alnum s ≡ true =
      subst (λ t. all_chars is_alnum t ≡ true) plate (strip_plate-all (text_or_empty raw)) in
    let run : matches_run is_vin_char 17 17 s ≡ true = ground arith in
    let full : truthy s ≡ true = by_length s run in
    (
      ground (arith, run),
      ground (arith, run),
      ground (arith, run, not_blank s good full, strip_plate_fixed s good),
    )
  where
    by_length : (s : Text) → matches_run is_vin_char 17 17 s ≡ true → truthy s ≡ true
    by_length [] r = ground (arith, r)
    by_length (c ∷ s) r = refl

-- A plate that is accepted has only capital letters and digits, at least one and at most 15, and is
-- accepted again as it is.
pub normalize_plate_outcome :
    (raw : Option Text) (s : Text)
    → normalize_plate raw ≡ accepted s
    → (all_chars is_alnum s ≡ true)
      × (1 ≤ length s)
      × (length s ≤ 15)
      × (normalize_plate (some s) ≡ accepted s)
normalize_plate_outcome raw s h =
    let (good, full, short) = normalize_plate-canonical raw s h in
    (good, full, short, normalize_plate_again raw s h)
