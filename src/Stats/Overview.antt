-- ===== src/Stats/Overview.antt =====
-- What the overview of a centre counts.
use ulov_backend.Prelude.{
  ℕ, ◌+◌, ◌*◌, ◌≡◌, ◌≢◌, ◌↔◌, refl, true, false, ◌&&◌, Option, none, some, List, [], ◌∷◌, map, inl,
  inr, arith,
}
use ulov_backend.Prelude.Tests.{◌==◌, leb, if◌then◌else◌, Bool-cases, Option-cases}
use ulov_backend.Prelude.Lists.{find_row, select_rows, length, All, All-map, none-find_row}
use ulov_backend.Prelude.Keys.{Keyed}
use ulov_backend.Prelude.Groups.{group_by, members-group_by, group_by-Keyed}
use ulov_backend.Errors.{center_not_found, center_forbidden}
use ulov_backend.Exec.{Result, ok, err}
use ulov_backend.Rbac.{CurrentUser}
use ulov_backend.Db.{Db}
use ulov_backend.Db.Rows.{
  ServiceCenter, Service, Status, waiting, in_progress, paused, completed, cancelled,
}
use ulov_backend.Centers.{get_by_id, get_or_404, can_view_center_ops, assert_ops_access}
use ulov_backend.Services.StateMachine.{same_status}
use ulov_backend.Stats.{Kpis, fill, status_counts, overview, is_live_of, utc_today, day_us}

-- `assert_ops_access` answers by the centre and the caller.
pub assert_ops_access_outcome :
    (center_id : ℕ) (u : CurrentUser) (d : Db)
    → assert_ops_access center_id u d ≡ (
      elim (find_row (λ c. c.id == center_id) d.centers) [
        | none ↦ err center_not_found
        | some c ↦ if can_view_center_ops c u then ok c else err center_forbidden
      ],
      d,
    )
unfolding assert_ops_access get_or_404 get_by_id
assert_ops_access_outcome center_id u d =
    elim (Option-cases (find_row (λ c. c.id == center_id) d.centers)) [
      | inl e ↦ ground (arith, e)
      | inr (c, e) ↦ elim (Bool-cases (can_view_center_ops c u)) [
        | inl v ↦ ground (arith, e, v)
        | inr v ↦ ground (arith, e, v)
      ]
    ]

pub assert_ops_access-reads :
    (center_id : ℕ) (u : CurrentUser) (d : Db)
    → assert_ops_access center_id u d ≡ ((assert_ops_access center_id u d).0, d)
assert_ops_access-reads center_id u d = rw (assert_ops_access_outcome center_id u d) refl

pub same_status_iff : (a b : Status) → (same_status a b ≡ true) ↔ (a ≡ b)
same_status_iff a b = ground arith

abbrev counted : List (Status × List Service) → List (Status × ℕ)
counted gs = map (λ g. (g.0, length g.1)) gs

absent :
    (s t : Status) (gs : List (Status × List Service))
    → t ≡ s
    → All (λ g. g.0 ≢ t) gs
    → find_row (λ g. same_status g.0 s) gs ≡ none
absent s t gs e h =
    none-find_row (λ g. same_status g.0 s) gs
      (All-map {Q = λ g. same_status g.0 s ≡ false}
        (λ g ne. ground (arith, e, ne, same_status_iff g.0 s)) gs h)

-- Where each key has one group, the loop leaves the size of a state's group, or what was there.
fill-counted :
    (s : Status) (gs : List (Status × List Service)) (by : Status → ℕ)
    → Keyed (λ g. g.0) gs
    → fill (counted gs) by s
      ≡ elim (find_row (λ g. same_status g.0 s) gs) [ none ↦ by s | some g ↦ length g.1 ]
unfolding fill find_row
fill-counted s [] by k = refl
fill-counted s (g ∷ gs) by k =
    let rest = fill-counted s gs (λ t. if same_status g.0 t then length g.1 else by t) k.1 in
    elim (Bool-cases (same_status g.0 s)) [
      | inl e ↦ ground (arith, rest, e, absent s g.0 gs ((same_status_iff g.0 s).0 e) k.0)
      | inr e ↦ ground (arith, rest, e)
    ]

length_group :
    (o : Option (Status × List Service))
    → elim o as (λ _. ℕ) [ none ↦ 0 | some g ↦ length g.1 ]
      ≡ length (elim o as (λ _. List Service) [ none ↦ [] | some g ↦ g.1 ])
length_group none = refl
length_group (some g) = refl

fill-status_counts :
    (s : Status) (rows : List Service)
    → fill (status_counts rows) (λ _. 0) s ≡ length (select_rows (λ x. same_status x.status s) rows)
fill-status_counts s rows =
    let groups = group_by same_status (λ x. x.status) rows in
    ground (
      arith,
      fill-counted s groups (λ _. 0)
          (group_by-Keyed same_status (λ x. x.status) same_status_iff rows),
      members-group_by same_status (λ x. x.status) same_status_iff s rows,
      length_group (find_row (λ g. same_status g.0 s) groups),
    )

-- A row counts for its state alone.
abbrev pub in_state : Status → List Service → ℕ
in_state s rows = length (select_rows (λ x. same_status x.status s) rows)

abbrev pub in_states : List Service → ℕ
in_states rows =
    in_state waiting rows
    + in_state in_progress rows
    + in_state paused rows
    + in_state completed rows
    + in_state cancelled rows

state_counts :
    (x : Service) (rows : List Service) (s : Status)
    → x.status ≡ s
    → in_states rows ≡ length rows
    → in_states (x ∷ rows) ≡ length (x ∷ rows)
unfolding select_rows
state_counts x rows waiting e h = rw e (omega (arith, h))
state_counts x rows in_progress e h = rw e (omega (arith, h))
state_counts x rows paused e h = rw e (omega (arith, h))
state_counts x rows completed e h = rw e (omega (arith, h))
state_counts x rows cancelled e h = rw e (omega (arith, h))

-- Every row is in one state.
select_rows_states : (rows : List Service) → in_states rows ≡ length rows
unfolding select_rows
select_rows_states [] = refl
select_rows_states (x ∷ rows) = state_counts x rows x.status refl (select_rows_states rows)

-- The rows that an overview counts.
abbrev pub live_of : ℕ → Db → List Service
live_of center_id d = select_rows (is_live_of center_id) d.services

-- An answer that agrees with the rows, by how the access check ended.
abbrev pub Tallies : ℕ → ℕ → CurrentUser → Db → Result ServiceCenter → Type 0
Tallies now center_id u d (err e) = overview now center_id u d ≡ (err e, d)
Tallies now center_id u d (ok _) =
    (k : Kpis) × (overview now center_id u d ≡ (ok k, d))
    × ((s : Status) → k.by_status s ≡ in_state s (live_of center_id d))
    × (k.queue + k.by_status completed + k.by_status cancelled ≡ length (live_of center_id d))

overview_from :
    (now center_id : ℕ) (u : CurrentUser) (d : Db) (r : Result ServiceCenter)
    → assert_ops_access center_id u d ≡ (r, d)
    → Tallies now center_id u d r
unfolding overview
overview_from now center_id u d (err e) h = ground (arith, h)
overview_from now center_id u d (ok c) h =
    let rows = live_of center_id d in
    let by_status = fill (status_counts rows) (λ _. 0) in
    (
      record {
        by_status = by_status;
        queue = by_status waiting + by_status in_progress + by_status paused;
        today_intakes = length (
            select_rows (λ s. is_live_of center_id s && leb (utc_today now * day_us) s.created_at)
              d.services);
      },
      ground (arith, h),
      (λ s. fill-status_counts s rows),
      omega (
        arith,
        fill-status_counts waiting rows,
        fill-status_counts in_progress rows,
        fill-status_counts paused rows,
        fill-status_counts completed rows,
        fill-status_counts cancelled rows,
        select_rows_states rows,
      ),
    )

-- The overview fails as the access check does and changes nothing. Otherwise each state's count is
-- the number of the centre's services in it that are not deleted, and the queue, the completed and
-- the cancelled are together all of them.
pub overview-Tallies :
    (now center_id : ℕ) (u : CurrentUser) (d : Db)
    → Tallies now center_id u d (assert_ops_access center_id u d).0
overview-Tallies now center_id u d =
    overview_from now center_id u d (assert_ops_access center_id u d).0
      (assert_ops_access-reads center_id u d)
