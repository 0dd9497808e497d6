-- ===== src/Tests/Plates.antt =====
-- Plates and VINs as users type them.
use ulov_backend.Prelude.{◌≡◌, ◌≤◌, refl, true, some}
use ulov_backend.Prelude.Text.{Text, codes, strip, is_space}
use ulov_backend.Prelude.Lists.{length}
use ulov_backend.Db.Rows.{legal}
use ulov_backend.Plate.{
  accepted, rejected, type_mismatch, is_alnum, upper, keep_alnum, upper_all, strip_plate, all_chars,
  matches, shape_of, normalize_plate, detect_plate_type, validate_plate_type, validate_vin,
}
use ulov_backend.Plate.Canonical.{normalize_plate_outcome}

abbrev typed : Text
typed = codes " 01 a 234-bc "

abbrev plate : Text
plate = codes "01A234BC"

typed_runs : normalize_plate (some typed) ≡ accepted plate
unfolding normalize_plate strip is_space strip_plate keep_alnum upper_all upper matches
typed_runs = refl

abbrev vin : Text
vin = codes "WVWZZZ1JZXW000001"

vin_runs : validate_vin (some (codes "wvwzzz1jzxw000001")) ≡ accepted (some vin)
unfolding validate_vin strip is_space strip_plate keep_alnum upper_all upper all_chars length
vin_runs = refl

-- A plate of the standard shape is not one of the legal shape.
legal_refused : validate_plate_type (some typed) legal ≡ rejected type_mismatch
unfolding validate_plate_type normalize_plate detect_plate_type shape_of strip is_space strip_plate
    keep_alnum upper_all upper matches
legal_refused = refl

normalize_plate_outcome_example :
    (all_chars is_alnum plate ≡ true)
    × (1 ≤ length plate)
    × (length plate ≤ 15)
    × (normalize_plate (some plate) ≡ accepted plate)
normalize_plate_outcome_example = normalize_plate_outcome (some typed) plate typed_runs
