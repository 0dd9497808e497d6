-- ===== src/RateLimit/Window.antt =====
-- How many requests a window lets through.
use ulov_backend.Prelude.{
  ℕ, suc, ◌+◌, ◌-◌, min, ◌*◌, ◌/◌, ◌<◌, ◌≡◌, refl, sym, ap, ◌∙◌, Bool, true, false, none, some, inl,
  inr, List, [], ◌∷◌, arith,
}
use ulov_backend.Prelude.Tests.{ltb, leb, if◌then◌else◌, Bool-cases}
use ulov_backend.Prelude.Text.{Text, text_eq_refl}
use ulov_backend.Prelude.Lists.{All, length}
use ulov_backend.Exec.{Result, ok, err}
use ulov_backend.Redis.{Redis, IsRedis, Slot, Entry, counter, live, count_of, deadline_of}
use ulov_backend.RateLimit.{full_key, check_rate_limit}

abbrev is_ok : {A : Type 0} → Result A → Bool
is_ok (ok _) = true
is_ok (err _) = false

-- A deadline that a live slot had is still to come.
live-deadline_of :
    (t : ℕ) (s : Slot) (e : Entry)
    → live t (some (e, deadline_of (live t s))) ≡ some (e, deadline_of (live t s))
live-deadline_of t none e = refl
live-deadline_of t (some (e', none)) e = refl
live-deadline_of t (some (e', some u)) e = elim (Bool-cases (ltb t u)) [
  | inl q ↦ ground (arith, q)
  | inr q ↦ ground (arith, q)
]

-- Two times of one window are less than its length apart.
same_window : (t u w : ℕ) → 0 < w → t / w ≡ u / w → u < t + w
same_window t u w full e = let p : w * (t / w) ≡ w * (u / w) = ap (λ q. w * q) e in omega arith

module _ {R : Type 0} (redis : Redis R) (laws : IsRedis redis) (key : Text) (limit w : ℕ) where
  -- How many of the requests at these times are let through.
  unfoldable pub let_through : List ℕ → R → ℕ
  let_through [] r = 0
  let_through (t ∷ ts) r =
      let (a, r') = check_rate_limit redis key limit w t r in
      let rest = let_through ts r' in if is_ok a then suc rest else rest

  module _ (full : 0 < w) (i : ℕ) where
    -- The key of the window counts `c` at each of its times.
    abbrev Counts : R → ℕ → Type 0
    Counts r c = (t : ℕ) → t / w ≡ i → count_of (live t (redis.view r (full_key key w t))) ≡ c

    module _ (t c : ℕ) (r : R) (here : t / w ≡ i) (counts : Counts r c) where
      abbrev key_now : Text
      key_now = full_key key w t

      counted : (redis.incr t key_now r).0 ≡ suc c
      counted = (laws.incr_law t key_now key_now r).0 ∙ ap suc (counts t here)

      -- What the key holds after both commands.
      seen :
          redis.view (redis.expire t key_now w (redis.incr t key_now r).1) key_now
          ≡ some (counter (suc c), some (t + w))
      seen =
          let s : Slot = live t (redis.view r key_now) in
          let e : Entry = counter (suc (count_of s)) in
          let incremented : redis.view (redis.incr t key_now r).1 key_now
              ≡ some (e, deadline_of s) =
            (laws.incr_law t key_now key_now r).1 ∙ rw (text_eq_refl key_now) refl in
          laws.expire_law t key_now w key_now (redis.incr t key_now r).1 e (deadline_of s)
            (ap (live t) incremented ∙ live-deadline_of t (redis.view r key_now) e)
          ∙ rw (text_eq_refl key_now, counts t here) refl

      checked :
          ((check_rate_limit redis key limit w t r).1
            ≡ redis.expire t key_now w (redis.incr t key_now r).1)
          × (is_ok (check_rate_limit redis key limit w t r).0 ≡ leb (suc c) limit)
      unfolding check_rate_limit
      checked = elim (Bool-cases (ltb limit (redis.incr t key_now r).0)) [
        | inl q ↦ (rw q refl, rw q (ground (arith, q, counted)))
        | inr q ↦ (rw q refl, rw q (ground (arith, q, counted)))
      ]

      check-Counts : Counts (check_rate_limit redis key limit w t r).1 (suc c)
      check-Counts u there =
          let same : u / w ≡ t / w = there ∙ sym here in
          let slot : redis.view (check_rate_limit redis key limit w t r).1 (full_key key w u)
              ≡ some (counter (suc c), some (t + w)) =
            rw (same, checked.0) seen in
          rw slot (ground (arith, same_window t u w full (sym same)))

    -- The bound, for a window that has counted `c`.
    let_through_from :
        (ts : List ℕ) (c : ℕ) (r : R)
        → All (λ t. t / w ≡ i) ts
        → Counts r c
        → let_through ts r ≡ min (length ts) (limit - c)
    unfolding let_through
    let_through_from [] c r here counts = ground arith
    let_through_from (t ∷ ts) c r here counts =
        let rest : let_through ts (check_rate_limit redis key limit w t r).1
            ≡ min (length ts) (limit - suc c) =
          let_through_from ts (suc c) _ here.1 (check-Counts t c r here.0 counts) in
        elim (Bool-cases (leb (suc c) limit)) [
          | inl q ↦ rw (rest, (checked t c r here.0 counts).1, q) (ground (arith, q))
          | inr q ↦ rw (rest, (checked t c r here.0 counts).1, q) (ground (arith, q))
        ]

  -- Of the requests at any times of one window, in any order, on a key of which Redis holds
  -- nothing, as many are let through as there are, but at most the limit.
  pub let_through_window :
      (i : ℕ) (ts : List ℕ) (r : R)
      → 0 < w
      → All (λ t. t / w ≡ i) ts
      → ((t : ℕ) → t / w ≡ i → redis.view r (full_key key w t) ≡ none)
      → let_through ts r ≡ min (length ts) limit
  let_through_window i ts r full here empty =
      let_through_from full i ts 0 r here (λ t there. ap (λ s. count_of (live t s)) (empty t there))
      ∙ omega arith
