-- ===== src/Services/Invariant/Forever.antt =====
-- What no run of requests can undo.
use ulov_backend.Prelude.{
  ℕ, ◌≡◌, ◌≢◌, refl, sym, ap, ◌∙◌, true, false, some, Option, List, [], ◌∷◌, ◌++◌, arith,
}
use mathlib.Core.List.{append-nil, append_assoc}
use ulov_backend.Prelude.Tests.{◌==◌}
use ulov_backend.Prelude.Text.{Text}
use ulov_backend.Prelude.Keys.{Keyed-find_row}
use ulov_backend.Prelude.Lists.{
  find_row, update_rows, All-find_row, find_row-update_rows, find_row-append,
}
use ulov_backend.Exec.{ok, request}
use ulov_backend.Db.{Db}
use ulov_backend.Db.Rows.{Service, ServiceTransition, Status}
use ulov_backend.Services.StateMachine.{mem_status, terminal, validate}
use ulov_backend.Services.Repository.{is_live}
use ulov_backend.Services.Intake as intake
use ulov_backend.Services.Intake.Effect.{create-Admitted, intake_row}
use ulov_backend.Services.Edit.{patch, add_condition_photo}
use ulov_backend.Services.Edit.Effect.{patch-Patched, add_condition_photo-Spares, edited}
use ulov_backend.Services.Transition.{fields_of, transition}
use ulov_backend.Services.Transition.Effect.{transition-Done}
use ulov_backend.Services.Transition.Outcome.{fields_of-id}
use ulov_backend.Services.Requests.{Request, open_service, edit, move, photo, handle, serve}
use ulov_backend.Services.Invariant.{IsValid}
use ulov_backend.Services.Invariant.Editing.{edited-id}
use ulov_backend.Services.Invariant.Runs.{request_keeps, handle-IsValid, at-IsValid}

-- The row with an id, deleted or not.
abbrev pub row_of : ℕ → Db → Option Service
row_of i d = find_row (λ s. s.id == i) d.services

validate-live :
    (from to : Status) (reason : Option Text)
    → validate from to reason ≡ ok tt
    → mem_status from terminal ≡ false
unfolding validate
validate-live from to reason h = ground arith

module _ (i : ℕ) (s : Service) (over : mem_status s.status terminal ≡ true) where
  -- A service that is at an end is not the one that a request writes.
  not_written :
      (d : Db) (service_id : ℕ) (w : Service)
      → IsValid d
      → row_of i d ≡ some s
      → find_row (is_live service_id) d.services ≡ some w
      → mem_status w.status terminal ≡ false
      → s.id ≢ w.id
  not_written d service_id w v here found live e =
      let same : s ≡ w =
        All-find_row (λ x. x.id ≡ w.id → x ≡ w) (λ x. x.id == i) d.services
          (Keyed-find_row (λ (x : Service). x.id) (is_live service_id) d.services w v.keyed found)
          here e in
      cc (ap (λ (x : Service). mem_status x.status terminal) same, over, live)

  update_elsewhere :
      (d : Db) (f : Service → Service) (w : Service)
      → ((x : Service) → (f x).id ≡ x.id)
      → s.id ≢ w.id
      → row_of i d ≡ some s
      → find_row (λ x. x.id == i) (update_rows (λ x. x.id == w.id) f d.services) ≡ some s
  update_elsewhere d f w keep ne here =
      find_row-update_rows (λ x. x.id == i) (λ x. x.id == w.id) f (λ x _. rw (keep x) refl)
        d.services
      ∙ rw here (ground (arith, ne))

  handle-row_of :
      (r : Request) (d : Db)
      → IsValid d
      → row_of i d ≡ some s
      → row_of i (request (handle r) d).1 ≡ some s
  unfolding handle
  handle-row_of (open_service center_id u form) d v here =
      request_keeps (λ d'. row_of i d' ≡ some s) (intake.create center_id u form) d
        (λ _ h. rw (create-Admitted center_id u form d h).opened.row_added (
          find_row-append (λ x. x.id == i) d.services (intake_row center_id form d ∷ [])
          ∙ rw here refl))
        here
  handle-row_of (edit service_id u form) d v here =
      request_keeps (λ d'. row_of i d' ≡ some s) (patch service_id u form) d
        (λ _ h.
          let p = patch-Patched service_id u form d h in
          rw p.services_set (
            update_elsewhere d (edited form) p.row (edited-id form)
              (not_written d service_id p.row v here p.found p.unlocked) here))
        here
  handle-row_of (move service_id u to reason now) d v here =
      request_keeps (λ d'. row_of i d' ≡ some s) (transition service_id u to reason now) d
        (λ _ h.
          let (w, done) = transition-Done service_id u to reason now d h in
          rw done.services_set (
            update_elsewhere d (fields_of to w reason now) w (fields_of-id to w reason now)
              (not_written d service_id w v here done.found
                (validate-live w.status to reason done.checked))
              here))
        here
  handle-row_of (photo service_id u url stage) d v here =
      request_keeps (λ d'. row_of i d' ≡ some s) (add_condition_photo service_id u url stage) d
        (λ _ h. rw (add_condition_photo-Spares service_id u url stage d).services_kept here) here

  -- From a database with the invariant, once a service is completed or cancelled, no run of
  -- requests changes any column of its row.
  pub serve-row_of :
      (rs : List (ℕ × Request)) (d : Db)
      → IsValid d
      → row_of i d ≡ some s
      → row_of i (serve d rs) ≡ some s
  unfolding serve
  serve-row_of [] d v here = here
  serve-row_of ((at, r) ∷ rs) d v here =
      serve-row_of rs (request (handle r) (record d { tx_now = at })).1
        (handle-IsValid r (record d { tx_now = at }) (at-IsValid at d v))
        (handle-row_of r (record d { tx_now = at }) (at-IsValid at d v) here)

-- What a log has become.
abbrev pub Grows : List ServiceTransition → List ServiceTransition → Type 0
Grows old new = (more : List ServiceTransition) × (new ≡ old ++ more)

Grows-trans : (a b c : List ServiceTransition) → Grows a b → Grows b c → Grows a c
Grows-trans a b c (x, e) (y, f) = (x ++ y, f ∙ rw e (append_assoc a x y))

handle-Grows : (r : Request) (d : Db) → Grows d.transitions (request (handle r) d).1.transitions
unfolding handle
handle-Grows (open_service center_id u form) d =
    request_keeps (λ d'. Grows d.transitions d'.transitions) (intake.create center_id u form) d
      (λ _ h. let o = (create-Admitted center_id u form d h).opened in (o.entry ∷ [], o.logged))
      ([], sym (append-nil _))
handle-Grows (edit service_id u form) d =
    request_keeps (λ d'. Grows d.transitions d'.transitions) (patch service_id u form) d
      (λ _ h. ([], (patch-Patched service_id u form d h).transitions_kept ∙ sym (append-nil _)))
      ([], sym (append-nil _))
handle-Grows (move service_id u to reason now) d =
    request_keeps (λ d'. Grows d.transitions d'.transitions) (transition service_id u to reason now)
      d (λ _ h. (_, (transition-Done service_id u to reason now d h).1.logged))
      ([], sym (append-nil _))
handle-Grows (photo service_id u url stage) d =
    request_keeps (λ d'. Grows d.transitions d'.transitions)
      (add_condition_photo service_id u url stage) d
      (λ _ h. (
        [],
        (add_condition_photo-Spares service_id u url stage d).transitions_kept ∙ sym (append-nil _),
      ))
      ([], sym (append-nil _))

-- The log of transitions only grows: after any run of requests it is the old log with rows behind
-- it.
pub serve-Grows : (rs : List (ℕ × Request)) (d : Db) → Grows d.transitions (serve d rs).transitions
unfolding serve
serve-Grows [] d = ([], sym (append-nil _))
serve-Grows ((at, r) ∷ rs) d =
    Grows-trans d.transitions (request (handle r) (record d { tx_now = at })).1.transitions
      (serve (request (handle r) (record d { tx_now = at })).1 rs).transitions
      (handle-Grows r (record d { tx_now = at }))
      (serve-Grows rs (request (handle r) (record d { tx_now = at })).1)
