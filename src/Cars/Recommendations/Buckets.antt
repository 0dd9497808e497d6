-- ===== src/Cars/Recommendations/Buckets.antt =====
-- The recommendations, one by one and in their order.
use ulov_backend.Prelude.{
  ℕ, ◌+◌, ◌*◌, ◌/◌, ◌%◌, ◌≤◌, ◌<◌, ◌≡◌, refl, ap, ◌∙◌, ◌↔◌, ◌⊎◌, inl, inr, Option, List, [], ◌∷◌,
  ◌++◌, map, arith,
}
use native.Mathlib.Nat.{mod-lt, mod-add-div'}
use ulov_backend.Prelude.Tests.{◌==◌, ==_iff, ℤ, Bool-cases}
use ulov_backend.Prelude.Lists.{All, All-map, All-append, select_rows}
use ulov_backend.Cars.Recommendations.{
  Interval, Item, Priority, due, upcoming, optional, order, intervals, clamp_mileage, recommend,
  insert_by_order, sort_by_order, compute,
}

-- The items of one priority, in the order in which they are listed.
abbrev pub bucket : Priority → List Item → List Item
bucket p = select_rows (λ i. order i.priority == order p)

insert-front :
    (r : Item) (xs : List Item)
    → All (λ x. order r.priority ≤ order x.priority) xs
    → insert_by_order r xs ≡ r ∷ xs
unfolding insert_by_order
insert-front r [] h = refl
insert-front r (x ∷ xs) h = ground (arith, h.0)

insert-skip :
    (r : Item) (xs ys : List Item)
    → All (λ x. order x.priority < order r.priority) xs
    → insert_by_order r (xs ++ ys) ≡ xs ++ insert_by_order r ys
unfolding insert_by_order
insert-skip r [] ys h = refl
insert-skip r (x ∷ xs) ys h = ground (arith, h.0, insert-skip r xs ys h.1)

bucket-All : (p : Priority) (xs : List Item) → All (λ x. order x.priority ≡ order p) (bucket p xs)
unfolding select_rows
bucket-All p [] = tt
bucket-All p (x ∷ xs) = elim (Bool-cases (order x.priority == order p)) [
  | inl e ↦ rw e ((==_iff (order x.priority) (order p)).0 e, bucket-All p xs)
  | inr e ↦ rw e (bucket-All p xs)
]

-- The sorted list of all buckets.
abbrev pub by_priority : List Item → List Item
by_priority xs = bucket due xs ++ (bucket upcoming xs ++ bucket optional xs)

-- Items of one bucket against a new item of another.
bucket-above :
    (r : Item) (p : Priority) (xs : List Item)
    → order r.priority ≤ order p
    → All (λ x. order r.priority ≤ order x.priority) (bucket p xs)
bucket-above r p xs h = All-map (λ x e. omega (arith, e, h)) (bucket p xs) (bucket-All p xs)

bucket-below :
    (r : Item) (p : Priority) (xs : List Item)
    → order p < order r.priority
    → All (λ x. order x.priority < order r.priority) (bucket p xs)
bucket-below r p xs h = All-map (λ x e. omega (arith, e, h)) (bucket p xs) (bucket-All p xs)

module _ (r : Item) (xs : List Item) where
  above :
      (p : Priority)
      → order r.priority ≤ order p
      → All (λ x. order r.priority ≤ order x.priority) (bucket p xs)
  above p h = bucket-above r p xs h

  insert-due : order r.priority ≡ 0 → insert_by_order r (by_priority xs) ≡ by_priority (r ∷ xs)
  unfolding select_rows
  insert-due e =
      insert-front r (by_priority xs) (
        All-append (λ x. order r.priority ≤ order x.priority) (bucket due xs)
          (bucket upcoming xs ++ bucket optional xs) (above due (omega (arith, e)))
          (All-append (λ x. order r.priority ≤ order x.priority) (bucket upcoming xs)
            (bucket optional xs) (above upcoming (omega (arith, e)))
            (above optional (omega (arith, e)))))
      ∙ ground (arith, e)

  insert-upcoming : order r.priority ≡ 1 → insert_by_order r (by_priority xs) ≡ by_priority (r ∷ xs)
  unfolding select_rows
  insert-upcoming e =
      insert-skip r (bucket due xs) (bucket upcoming xs ++ bucket optional xs)
        (bucket-below r due xs (omega (arith, e)))
      ∙ ap (λ t. bucket due xs ++ t)
          (insert-front r (bucket upcoming xs ++ bucket optional xs) (
            All-append (λ x. order r.priority ≤ order x.priority) (bucket upcoming xs)
              (bucket optional xs) (above upcoming (omega (arith, e)))
              (above optional (omega (arith, e)))))
      ∙ ground (arith, e)

  insert-optional : order r.priority ≡ 2 → insert_by_order r (by_priority xs) ≡ by_priority (r ∷ xs)
  unfolding select_rows
  insert-optional e =
      insert-skip r (bucket due xs) (bucket upcoming xs ++ bucket optional xs)
        (bucket-below r due xs (omega (arith, e)))
      ∙ ap (λ t. bucket due xs ++ t)
          (insert-skip r (bucket upcoming xs) (bucket optional xs)
              (bucket-below r upcoming xs (omega (arith, e)))
            ∙ ap (λ t. bucket upcoming xs ++ t)
                (insert-front r (bucket optional xs) (above optional (omega (arith, e)))))
      ∙ ground (arith, e)

order-cases : (p : Priority) → (order p ≡ 0) ⊎ ((order p ≡ 1) ⊎ (order p ≡ 2))
order-cases due = inl refl
order-cases upcoming = inr (inl refl)
order-cases optional = inr (inr refl)

insert-by_priority :
    (r : Item) (xs : List Item) → insert_by_order r (by_priority xs) ≡ by_priority (r ∷ xs)
insert-by_priority r xs = elim (order-cases r.priority) [
  | inl e ↦ insert-due r xs e
  | inr (inl e) ↦ insert-upcoming r xs e
  | inr (inr e) ↦ insert-optional r xs e
]

sort-by_priority : (xs : List Item) → sort_by_order xs ≡ by_priority xs
unfolding sort_by_order select_rows
sort-by_priority [] = refl
sort-by_priority (x ∷ xs) = ap (insert_by_order x) (sort-by_priority xs) ∙ insert-by_priority x xs

-- The answer lists what is due, then what is coming up, then the rest, and each of these in the
-- order of the table of intervals.
pub compute-by_priority :
    (mileage : Option ℤ)
    → compute mileage ≡ by_priority (map (recommend (clamp_mileage mileage)) intervals)
unfolding compute
compute-by_priority mileage = sort-by_priority (map (recommend (clamp_mileage mileage)) intervals)

-- The mileage as whole intervals and a rest.
module _ (m : ℕ) (itv : Interval) (h : 0 < itv.interval_km) where
  abbrev k : ℕ
  k = itv.interval_km

  abbrev whole : ℕ
  whole = m / itv.interval_km * itv.interval_km

  parts : m % itv.interval_km + whole ≡ m
  parts = mod-add-div' m itv.interval_km

  rest : m % itv.interval_km < itv.interval_km
  rest = mod-lt m h

  mark : (recommend m itv).next_due_km ≡ whole + itv.interval_km
  unfolding recommend
  mark = ground arith

  -- For an interval that is not 0, the next mark is the first multiple of the interval above the
  -- mileage.
  pub recommend-next_due :
      (m < (recommend m itv).next_due_km)
      × ((recommend m itv).next_due_km ≤ m + itv.interval_km)
      × ((recommend m itv).next_due_km ≡ (m / itv.interval_km + 1) * itv.interval_km)
  recommend-next_due =
      (omega (arith, parts, rest, mark), omega (arith, parts, rest, mark), omega (arith, mark))

  -- A milestone: a multiple of the interval that is not 0.
  abbrev pub AtMilestone : Type 0
  AtMilestone = (0 < m) × (m % itv.interval_km ≡ 0)

  due-AtMilestone : (recommend m itv).priority ≡ due → AtMilestone
  unfolding recommend
  due-AtMilestone e = (ground (arith, parts, rest), ground (arith, parts, rest))

  whole_positive : AtMilestone → itv.interval_km ≤ m
  whole_positive e = grind (arith, parts)

  AtMilestone-due : AtMilestone → (recommend m itv).priority ≡ due
  unfolding recommend
  AtMilestone-due e = ground (arith, parts, rest, whole_positive e)

  -- For an interval that is not 0, an item is due exactly if the mileage is a multiple of the
  -- interval other than 0.
  pub recommend-due : ((recommend m itv).priority ≡ due) ↔ AtMilestone
  recommend-due = (due-AtMilestone, AtMilestone-due)

  -- For an interval that is not 0 and a mileage that is at no milestone, an item is coming up
  -- exactly if its next mark is within 1500 km.
  pub recommend-upcoming :
      ¬ AtMilestone
      → ((recommend m itv).priority ≡ upcoming) ↔ ((recommend m itv).next_due_km ≤ m + 1500)
  unfolding recommend
  recommend-upcoming off =
      ((λ e. ground (arith, parts, rest, e)), λ e. ground (arith, parts, rest, e))

  -- For an interval that is not 0, the next mark is the first multiple of the interval above the
  -- mileage; an item is due exactly if the mileage is a multiple of the interval other than 0; and
  -- else it is coming up exactly if its next mark is within 1500 km.
  pub recommend_outcome :
      ((m < (recommend m itv).next_due_km)
        × ((recommend m itv).next_due_km ≤ m + itv.interval_km)
        × ((recommend m itv).next_due_km ≡ (m / itv.interval_km + 1) * itv.interval_km))
      × (((recommend m itv).priority ≡ due) ↔ AtMilestone)
      × (¬ AtMilestone
          → ((recommend m itv).priority ≡ upcoming) ↔ ((recommend m itv).next_due_km ≤ m + 1500))
  recommend_outcome = (recommend-next_due, recommend-due, recommend-upcoming)
