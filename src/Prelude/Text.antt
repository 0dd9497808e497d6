-- ===== src/Prelude/Text.antt =====
-- Texts as lists of code points: equality, Python's `str.strip` and the truth of a text.
use Prim.Native.Nat.{ℕ}
use Prim.Native.Char.{code}
use Prim.Native.String.{String}
use mathlib.Core.Path.{◌≡◌, refl}
use mathlib.Core.Logic.{◌↔◌, inl, inr}
use mathlib.Core.Bool.{Bool, true, false, ◌&&◌, ◌||◌}
use mathlib.Core.Option.{Option, none, some}
use mathlib.Core.List.{List, [], ◌∷◌, ◌++◌, reverse, reverse-append}
use native.Mathlib.Omega.{arith}
use ulov_backend.Prelude.Lists.{length}
use ulov_backend.Prelude.Tests.{leb, ◌==◌, if◌then◌else◌, Bool-cases}

abbrev pub Text : Type 0
Text = List ℕ

-- A text that a column `String(n)` takes.
abbrev pub fits : ℕ → Text → Bool
fits n s = leb (length s) n

unfoldable pub all_fit : ℕ → List Text → Bool
all_fit n [] = true
all_fit n (s ∷ ss) = fits n s && all_fit n ss

abbrev pub fits? : ℕ → Option Text → Bool
fits? n none = true
fits? n (some s) = fits n s

abbrev pub codes : String → Text
codes String.[] = []
codes (String.◌∷◌ c s) = code c ∷ codes s

unfoldable pub text_eq : Text → Text → Bool
text_eq [] [] = true
text_eq (a ∷ s) (b ∷ t) = (a == b) && text_eq s t
text_eq _ _ = false

pub text_eq_iff : (s t : Text) → (text_eq s t ≡ true) ↔ (s ≡ t)
unfolding text_eq
text_eq_iff [] [] = ground arith
text_eq_iff [] (b ∷ t) = ground arith
text_eq_iff (a ∷ s) [] = ground arith
text_eq_iff (a ∷ s) (b ∷ t) = ground (arith, text_eq_iff s t)

pub text_eq_refl : (s : Text) → text_eq s s ≡ true
text_eq_refl s = (text_eq_iff s s).1 refl

-- `str.isspace` of one character.
unfoldable pub is_space : ℕ → Bool
is_space c =
    (leb 9 c && leb c 13)
    || (leb 28 c && leb c 32)
    || (c == 133)
    || (c == 160)
    || (c == 5760)
    || (leb 8192 c && leb c 8202)
    || (c == 8232)
    || (c == 8233)
    || (c == 8239)
    || (c == 8287)
    || (c == 12288)

strip_left : Text → Text
strip_left [] = []
strip_left (c ∷ s) = if is_space c then strip_left s else c ∷ s

-- `s.strip()`
unfoldable pub strip : Text → Text
unfolding strip_left
strip s = reverse (strip_left (reverse (strip_left s)))

-- `bool(s)`
abbrev pub truthy : Text → Bool
truthy [] = false
truthy (_ ∷ _) = true

-- `bool(o)` of an optional text.
abbrev pub truthy? : Option Text → Bool
truthy? none = false
truthy? (some s) = truthy s

-- `(o or "")`
abbrev pub text_or_empty : Option Text → Text
text_or_empty none = []
text_or_empty (some s) = s

-- `s or None`
abbrev pub nonempty : Text → Option Text
nonempty [] = none
nonempty (c ∷ s) = some (c ∷ s)

truthy-append : (s : Text) (c : ℕ) → truthy (s ++ c ∷ []) ≡ true
truthy-append [] c = refl
truthy-append (x ∷ s) c = refl

truthy-reverse : (s : Text) → truthy s ≡ true → truthy (reverse s) ≡ true
truthy-reverse [] h = h
truthy-reverse (c ∷ s) h = rw (reverse-append (c ∷ []) s) (truthy-append (reverse s) c)

strip_left-append :
    (s : Text) (c : ℕ) → is_space c ≡ false → truthy (strip_left (s ++ c ∷ [])) ≡ true
unfolding strip_left
strip_left-append [] c h = rw h refl
strip_left-append (x ∷ s) c h = elim (Bool-cases (is_space x)) [
  | inl e ↦ rw e (strip_left-append s c h)
  | inr e ↦ rw e refl
]

-- A text that begins with no blank is not blank.
pub truthy-strip : (c : ℕ) (s : Text) → is_space c ≡ false → truthy (strip (c ∷ s)) ≡ true
unfolding strip strip_left
truthy-strip c s h = rw h (
    truthy-reverse (strip_left (reverse (c ∷ s)))
      (rw (reverse-append (c ∷ []) s) (strip_left-append (reverse s) c h)))
