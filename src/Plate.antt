-- ===== src/Plate.antt =====
-- app/core/plate.py: the canonical form and the shape of plates, VINs and tech passports. Texts are
-- lists of code points.
pub mod Canonical
use ulov_backend.Prelude.{
  ℕ, suc, ◌-◌, Bool, true, false, ◌&&◌, ◌||◌, not, Option, none, some, List, [], ◌∷◌, ◌++◌,
}
use ulov_backend.Prelude.Tests.{leb, ◌==◌, if◌then◌else◌}
use ulov_backend.Prelude.Text.{Text, codes, strip, truthy, text_or_empty}
use ulov_backend.Prelude.Lists.{length}
use ulov_backend.Db.Rows.{PlateType, standard, legal, other}

pub data PlateError : Type 0 where
  required no_valid_characters unrecognised type_mismatch invalid_vin : PlateError
  invalid_tech_passport : PlateError

-- A value, or a `PlateError`.
pub data Checked (A : Type 0) : Type 0 where
  accepted : A → Checked A
  rejected : PlateError → Checked A

infixl 5 ◌>>=◌
abbrev pub ◌>>=◌ : {A B : Type 0} → Checked A → (A → Checked B) → Checked B
accepted a >>= f = f a
rejected e >>= f = rejected e

abbrev pub is_digit : ℕ → Bool
is_digit c = leb 48 c && leb c 57

abbrev pub is_letter : ℕ → Bool
is_letter c = leb 65 c && leb c 90

abbrev pub is_alnum : ℕ → Bool
is_alnum c = is_letter c || is_digit c

-- The characters above ASCII whose `str.upper` has ASCII letters in it, with those letters; what
-- else it has is no letter or digit of ASCII.
special : List (ℕ × Text)
special =
    (223, codes "SS")
    ∷ (305, codes "I")
    ∷ (329, codes "N")
    ∷ (383, codes "S")
    ∷ (496, codes "J")
    ∷ (7830, codes "H")
    ∷ (7831, codes "T")
    ∷ (7832, codes "W")
    ∷ (7833, codes "Y")
    ∷ (7834, codes "A")
    ∷ (64256, codes "FF")
    ∷ (64257, codes "FI")
    ∷ (64258, codes "FL")
    ∷ (64259, codes "FFI")
    ∷ (64260, codes "FFL")
    ∷ (64261, codes "ST")
    ∷ (64262, codes "ST")
    ∷ []

upper_special : List (ℕ × Text) → ℕ → Text
upper_special [] c = c ∷ []
upper_special ((k, s) ∷ rest) c = if k == c then s else upper_special rest c

-- `str.upper` of one character, up to characters that are dropped afterwards.
unfoldable pub upper : ℕ → Text
unfolding special upper_special
upper c =
    if leb 97 c && leb c 122
    then (c - 32) ∷ []
    else if leb c 127
    then c ∷ []
    else upper_special special c

unfoldable pub keep_alnum : Text → Text
keep_alnum [] = []
keep_alnum (c ∷ s) = if is_alnum c then c ∷ keep_alnum s else keep_alnum s

unfoldable pub upper_all : Text → Text
upper_all [] = []
upper_all (c ∷ s) = upper c ++ upper_all s

-- `_strip`
unfoldable pub strip_plate : Text → Text
strip_plate raw = keep_alnum (upper_all raw)

unfoldable pub all_chars : (ℕ → Bool) → Text → Bool
all_chars p [] = true
all_chars p (c ∷ s) = p c && all_chars p s

-- A pattern of one class for each character.
unfoldable pub matches : List (ℕ → Bool) → Text → Bool
matches [] [] = true
matches (p ∷ ps) (c ∷ s) = p c && matches ps s
matches _ _ = false

abbrev pub standard_re : List (ℕ → Bool)
standard_re =
    is_digit ∷ is_digit ∷ is_letter ∷ is_digit ∷ is_digit ∷ is_digit ∷ is_letter ∷ is_letter ∷ []

abbrev pub legal_re : List (ℕ → Bool)
legal_re =
    is_digit ∷ is_digit ∷ is_digit ∷ is_digit ∷ is_digit ∷ is_letter ∷ is_letter ∷ is_letter ∷ []

-- `^[class]{lo,hi}$`
abbrev pub matches_run : (ℕ → Bool) → ℕ → ℕ → Text → Bool
matches_run p lo hi s = all_chars p s && leb lo (length s) && leb (length s) hi

abbrev pub matches_other : Text → Bool
matches_other = matches_run is_alnum 1 15

-- A text that is missing or blank.
abbrev pub is_blank : Option Text → Bool
is_blank raw = not (truthy (strip (text_or_empty raw)))

unfoldable pub normalize_plate : Option Text → Checked Text
normalize_plate raw =
    if is_blank raw
    then rejected required
    else (let s = strip_plate (text_or_empty raw) in
        if not (truthy s)
        then rejected no_valid_characters
        else if matches standard_re s || matches legal_re s || matches_other s
        then accepted s
        else rejected unrecognised)

-- The shape of a text that is in canonical form.
abbrev pub shape_of : Text → PlateType
shape_of s = if matches standard_re s then standard else if matches legal_re s then legal else other

unfoldable pub detect_plate_type : Option Text → Checked PlateType
detect_plate_type raw = do s ← normalize_plate raw; accepted (shape_of s)

abbrev pub same_type : PlateType → PlateType → Bool
same_type standard standard = true
same_type legal legal = true
same_type other other = true
same_type _ _ = false

-- Only `standard` and `legal` are held against the shape.
abbrev pub is_strict : PlateType → Bool
is_strict standard = true
is_strict legal = true
is_strict other = false

abbrev pub hold_type : PlateType → Text → PlateType → Checked Text
hold_type expected s actual =
    if is_strict expected && not (same_type actual expected)
    then rejected type_mismatch
    else accepted s

unfoldable pub validate_plate_type : Option Text → PlateType → Checked Text
validate_plate_type raw expected = do
  s ← normalize_plate raw
  actual ← detect_plate_type (some s)
  hold_type expected s actual

-- `[A-HJ-NPR-Z0-9]`
abbrev pub is_vin_char : ℕ → Bool
is_vin_char c = is_alnum c && not (c == b'I' || c == b'O' || c == b'Q')

unfoldable pub validate_vin : Option Text → Checked (Option Text)
validate_vin raw =
    if is_blank raw
    then accepted none
    else (let s = strip_plate (text_or_empty raw) in
        if not (matches_run is_vin_char 17 17 s) then rejected invalid_vin else accepted (some s))

unfoldable pub validate_tech_passport : Option Text → Checked (Option Text)
validate_tech_passport raw =
    if is_blank raw
    then accepted none
    else (let s = strip_plate (text_or_empty raw) in
        if not (matches_run is_alnum 6 10 s)
        then rejected invalid_tech_passport
        else accepted (some s))
