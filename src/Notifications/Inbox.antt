-- ===== src/Notifications/Inbox.antt =====
-- Reading a notification, and registering a device twice.
use ulov_backend.Prelude.{
  ℕ, ◌≡◌, refl, ◌∙◌, Bool, true, false, not, ◌&&◌, some, inl, inr, List, [], ◌∷◌, arith,
}
use mathlib.Core.Option
use ulov_backend.Prelude.Tests.{◌==◌, is_some, if◌then◌else◌, Bool-cases, Option-cases}
use ulov_backend.Prelude.Lists.{
  All, All-map, find_row-All, find_row, find_row-test, update_rows, count_rows,
  find_row-update_rows,
}
use ulov_backend.Prelude.Pages.{update_rows-All}
use ulov_backend.Errors.{notification_not_found}
use ulov_backend.Exec.{ok, err}
use ulov_backend.Db.{Db}
use ulov_backend.Db.Rows.{Notification}
use ulov_backend.Notifications.{is_of, set_read, get_for_user, mark_read}

count_rows-none :
    {A : Type 0} (p : A → Bool) (xs : List A) → All (λ x. p x ≡ false) xs → count_rows p xs ≡ 0
unfolding count_rows
count_rows-none p [] h = refl
count_rows-none p (x ∷ xs) h = ground (arith, h.0, count_rows-none p xs h.1)

-- Nothing is updated where no row passes the test.
update_rows-none :
    {A : Type 0} (p : A → Bool) (f : A → A) (xs : List A)
    → All (λ x. p x ≡ false) xs
    → update_rows p f xs ≡ xs
unfolding update_rows
update_rows-none p f [] h = refl
update_rows-none p f (x ∷ xs) h = ground (arith, h.0, update_rows-none p f xs h.1)

module _ (i user_id : ℕ) where
  abbrev to_read : Notification → Bool
  to_read n = is_of i user_id n && not (is_some n.read_at)

  abbrev read_now : ℕ → Notification → Notification
  read_now now n = record n { read_at = some now }

  mark_read_state :
      (now : ℕ) (d : Db)
      → (mark_read now i user_id d).1
        ≡ record d { notifications = update_rows to_read (read_now now) d.notifications }
  unfolding mark_read set_read get_for_user
  mark_read_state now d = elim (Bool-cases (count_rows to_read d.notifications == 0)) [
    | inr e ↦ rw e refl
    | inl e ↦
        rw e
          (elim (Option-cases
            (find_row (is_of i user_id) (update_rows to_read (read_now now) d.notifications))) [
              | inl q ↦ rw q refl
              | inr (_, q) ↦ rw q refl
            ])
  ]

  found_after :
      (now : ℕ) (d : Db)
      → find_row (is_of i user_id) (update_rows to_read (read_now now) d.notifications)
        ≡ Option.map
            (λ n. if is_some n.read_at then n else read_now now n)
            (find_row (is_of i user_id) d.notifications)
  found_after now d =
      find_row-update_rows (is_of i user_id) to_read (read_now now) (λ n _. refl) d.notifications
      ∙ elim (Option-cases (find_row (is_of i user_id) d.notifications)) [
        | inl e ↦ rw e refl
        | inr (n, e) ↦
            let of : is_of i user_id n ≡ true = find_row-test (is_of i user_id) d.notifications e in
            rw e (elim (Option-cases n.read_at) [
              | inl q ↦ rw (of, q) refl
              | inr (_, q) ↦ rw (of, q) refl
            ])
      ]

  mark_read_answer :
      (now : ℕ) (d : Db)
      → (mark_read now i user_id d).0 ≡ (
          if is_some (find_row (is_of i user_id) d.notifications)
          then ok tt
          else err notification_not_found)
  unfolding mark_read set_read get_for_user
  mark_read_answer now d = elim (Option-cases (find_row (is_of i user_id) d.notifications)) [
    | inl e ↦
        let none_left : count_rows to_read d.notifications ≡ 0 =
          count_rows-none to_read d.notifications (
            All-map {Q = λ n. to_read n ≡ false} (λ n q. ground (arith, q)) d.notifications
              (find_row-All (is_of i user_id) d.notifications e)) in
        ground (arith, e, none_left, found_after now d)
    | inr (n, e) ↦ elim (Bool-cases (count_rows to_read d.notifications == 0)) [
      | inl q ↦ ground (arith, e, q, found_after now d)
      | inr q ↦ ground (arith, e, q)
    ]
  ]

  -- Marking a notification as read succeeds exactly where the user has it, read or not; it is then
  -- read, at the time that it was first marked; and marking it again, at any time, changes nothing.
  pub mark_read_outcome :
      (now : ℕ) (d : Db)
      → let (r, d') = mark_read now i user_id d in
        let found = find_row (is_of i user_id) d.notifications in
        (r ≡ (if is_some found then ok tt else err notification_not_found))
        × (find_row (is_of i user_id) d'.notifications
            ≡ Option.map
                (λ n. if is_some n.read_at then n else record n { read_at = some now })
                found)
        × ((later : ℕ) → (mark_read later i user_id d').1 ≡ d')
  mark_read_outcome now d =
      let same : (later : ℕ)
          → update_rows to_read (read_now later)
              (update_rows to_read (read_now now) d.notifications)
            ≡ update_rows to_read (read_now now) d.notifications =
        λ later. update_rows-none to_read (read_now later) _ (
          update_rows-All (λ n. to_read n ≡ false) to_read (read_now now) (λ n e. ground arith)
            (λ n e. e) d.notifications) in
      (
        mark_read_answer now d,
        rw (mark_read_state now d) (found_after now d),
        λ later. rw (mark_read_state now d, mark_read_state later, same later) refl,
      )
