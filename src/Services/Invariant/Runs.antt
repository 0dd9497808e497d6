-- ===== src/Services/Invariant/Runs.antt =====
-- The invariant over whole runs of requests.
use ulov_backend.Prelude.{ℕ, ◌≡◌, List, [], ◌∷◌, inl, inr, arith}
use ulov_backend.Exec.{Exec, ok, err, request, Result-cases}
use ulov_backend.Errors.{Code}
use ulov_backend.Db.{Db}
use ulov_backend.Db.Rows.{Service, ServiceTransition}
use ulov_backend.Services.Requests.{Request, open_service, edit, move, photo, forget, handle, serve}
use ulov_backend.Services.Intake as intake
use ulov_backend.Services.Edit.{patch, add_condition_photo}
use ulov_backend.Services.Transition.{transition}
use ulov_backend.Services.Repository.Items.{Spares}
use ulov_backend.Services.Edit.Effect.{add_condition_photo-Spares}
use ulov_backend.Prelude.Lists.{All-map}
use ulov_backend.Services.Invariant.{IsValid}
use ulov_backend.Services.Invariant.Kept.{transition-IsValid}
use ulov_backend.Services.Invariant.Opening.{create-IsValid}
use ulov_backend.Services.Invariant.Editing.{patch-IsValid}

-- A session that fails is rolled back, and one that succeeds leaves what its handler left.
request_failed :
    {A : Type 0} (m : Exec Db A) (d : Db) {e : Code}
    → (m d).0 ≡ err e
    → (request (forget m) d).1 ≡ d
unfolding request
request_failed m d h = ground arith

request_done :
    {A : Type 0} (m : Exec Db A) (d : Db) {a : A}
    → (m d).0 ≡ ok a
    → (request (forget m) d).1 ≡ (m d).1
unfolding request
request_done m d h = ground arith

-- A session keeps what its handler keeps when it succeeds.
pub request_keeps :
    {A : Type 0} (P : Db → Type 0) (m : Exec Db A) (d : Db)
    → ((a : A) → (m d).0 ≡ ok a → P (m d).1)
    → P d
    → P (request (forget m) d).1
request_keeps P m d keep h = elim (Result-cases (m d).0) [
  | inl (e, failed) ↦ rw (request_failed m d failed) h
  | inr (a, done) ↦ rw (request_done m d done) (keep a done)
]

-- The invariant is about two tables and the next id.
Spares-IsValid : (d d' : Db) → Spares d d' → IsValid d → IsValid d'
Spares-IsValid d d' sp v = record {
  keyed = rw sp.services_kept v.keyed;
  below =
      rw sp.services_kept (All-map (λ (s : Service) h. omega (arith, sp.later)) d.services v.below);
  timed = rw sp.services_kept v.timed;
  traced = rw (sp.services_kept, sp.transitions_kept) v.traced;
  walk = rw sp.transitions_kept v.walk;
  named_below =
      rw sp.transitions_kept (
        All-map (λ (t : ServiceTransition) h. omega (arith, sp.later)) d.transitions v.named_below);
}

pub handle-IsValid : (r : Request) (d : Db) → IsValid d → IsValid (request (handle r) d).1
unfolding handle
handle-IsValid (open_service center_id u form) d v =
    request_keeps IsValid (intake.create center_id u form) d
      (λ s h. create-IsValid center_id u form d v h) v
handle-IsValid (edit service_id u form) d v =
    request_keeps IsValid (patch service_id u form) d (λ s h. patch-IsValid service_id u form d v h)
      v
handle-IsValid (move service_id u to reason now) d v =
    request_keeps IsValid (transition service_id u to reason now) d
      (λ s h. transition-IsValid service_id u to reason now d v h) v
handle-IsValid (photo service_id u url stage) d v =
    request_keeps IsValid (add_condition_photo service_id u url stage) d
      (λ s h.
        Spares-IsValid d (add_condition_photo service_id u url stage d).1
          (add_condition_photo-Spares service_id u url stage d) v)
      v

pub at-IsValid : (at : ℕ) (d : Db) → IsValid d → IsValid (record d { tx_now = at })
at-IsValid at d v = record {
  keyed = v.keyed;
  below = v.below;
  timed = v.timed;
  traced = v.traced;
  walk = v.walk;
  named_below = v.named_below;
}

-- Whatever is asked, by whom and in which order, failed requests included, the invariant holds
-- after every run of requests that began with it.
pub serve-IsValid : (rs : List (ℕ × Request)) (d : Db) → IsValid d → IsValid (serve d rs)
unfolding serve
serve-IsValid [] d v = v
serve-IsValid ((at, r) ∷ rs) d v =
    serve-IsValid rs (request (handle r) (record d { tx_now = at })).1
      (handle-IsValid r (record d { tx_now = at }) (at-IsValid at d v))
