-- ===== src/Tests/Mileages.antt =====
-- Recommendations at some mileages.
use ulov_backend.Prelude.{◌≡◌, ◌<◌, refl, arith}
use ulov_backend.Prelude.Text.{codes}
use ulov_backend.Cars.Recommendations.{Interval, optional, recommend}

abbrev oil : Interval
oil = record {
  service_type = codes "oil_change";
  interval_km = 10000;
  reason_due = codes "Oil change is overdue";
  reason_upcoming = codes "Oil change is approaching";
}

-- The interval is not 0.
oil_positive : 0 < 10000
oil_positive = ground arith

-- One kilometre past a milestone, the next mark is a whole interval away.
past_due : (recommend 20001 oil).priority ≡ optional
unfolding recommend
past_due = refl
