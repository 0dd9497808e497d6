-- ===== src/Billing/Refs.antt =====
-- No two payments have one external reference, and a webhook touches one payment.
use ulov_backend.Prelude.{
  ℕ, ◌≡◌, ◌≢◌, refl, sym, ap, ◌∙◌, ◌⊎◌, inl, inr, true, false, ◌&&◌, not, none, some, arith,
}
use mathlib.Core.Path.{subst}
use mathlib.Core.Option.{some-injective}
use ulov_backend.Prelude.Tests.{◌==◌, ==_iff, if◌then◌else◌, Bool-cases}
use ulov_backend.Prelude.Text.{Text, text_eq_iff}
use ulov_backend.Prelude.Lists.{find_row, find_row-test, find_row-none}
use ulov_backend.Exec.{ok}
use ulov_backend.Db.{Db}
use ulov_backend.Db.Rows.{Payment, PaymentStatus}
use ulov_backend.Billing.{settled, has_ref, ref_taken, apply_webhook}
use ulov_backend.Billing.Webhook.{payment_of, flushed, payment_of-flushed}
use ulov_backend.Billing.Outcome.{Handled, already, changed, apply_webhook-Handled}

-- Payments that are found by two ids and have one reference have one id.
abbrev pub UniqueRefs : Db → Type 0
UniqueRefs d =
    (i j : ℕ) (p q : Payment) (ref : Text)
    → payment_of i d ≡ some p
    → payment_of j d ≡ some q
    → p.external_ref ≡ some ref
    → q.external_ref ≡ some ref
    → i ≡ j

-- A reference that is free for a payment is on no other.
free-ref :
    (w : Payment) (ref : Text) (d : Db) (j : ℕ) (q : Payment)
    → ref_taken w ref d ≡ false
    → payment_of j d ≡ some q
    → q.external_ref ≡ some ref
    → j ≡ w.id
free-ref w ref d j q free found e = elim (Bool-cases (j == w.id)) [
  | inl same ↦ (==_iff j w.id).0 same
  | inr other ↦
      let j_id : (q.id == j) ≡ true = find_row-test (λ r. r.id == j) d.payments found in
      let none_found : find_row (λ r. has_ref ref r && not (r.id == w.id)) d.payments ≡ none =
        ground (arith, free) in
      let fails : (has_ref ref q && not (q.id == w.id)) ≡ false =
        find_row-none (λ r. has_ref ref r && not (r.id == w.id)) (λ r. r.id == j) d.payments q
          none_found found in
      absurd (ground (arith, fails, j_id, other, e, (text_eq_iff ref ref).1 refl))
]

module _ (i : ℕ) (w p₀ : Payment) (ref : Text) (d d' : Db) (found : payment_of w.id d ≡ some p₀)
    (written : d'.payments ≡ (flushed w d).payments) (w_ref : w.external_ref ≡ some ref)
    (free : ref_taken w ref d ≡ false) where
  after : (k : ℕ) → payment_of k d' ≡ (if w.id == k then some w else payment_of k d)
  after k = ap (find_row (λ r. r.id == k)) written ∙ payment_of-flushed k w p₀ d found

  -- The row with an id afterwards is the written one, or it is the row from before.
  row_after :
      (k : ℕ) (p : Payment)
      → payment_of k d' ≡ some p
      → ((w.id ≡ k) × (w ≡ p)) ⊎ (payment_of k d ≡ some p)
  row_after k p h = elim (Bool-cases (w.id == k)) [
    | inl e ↦ inl ((==_iff w.id k).0 e, some-injective _ _ (ground (arith, e, after k)))
    | inr e ↦ inr (ground (arith, e, after k))
  ]

  flushed-UniqueRefs : UniqueRefs d → UniqueRefs d'
  flushed-UniqueRefs u a b p q r fa fb ea eb = by_rows (row_after a p fa) (row_after b q fb)
    where
      same_ref : w.external_ref ≡ some r → r ≡ ref
      same_ref e = some-injective _ _ (sym e ∙ w_ref)

      by_rows :
          ((w.id ≡ a) × (w ≡ p)) ⊎ (payment_of a d ≡ some p)
          → ((w.id ≡ b) × (w ≡ q)) ⊎ (payment_of b d ≡ some q)
          → a ≡ b
      by_rows (inl (x, _)) (inl (y, _)) = sym x ∙ y
      by_rows (inl (x, s)) (inr old) =
          sym x
          ∙ sym (
              free-ref w ref d b q free old
                (eb ∙ ap some (same_ref (ap (λ (z : Payment). z.external_ref) s ∙ ea))))
      by_rows (inr old) (inl (y, s)) =
          free-ref w ref d a p free old
            (ea ∙ ap some (same_ref (ap (λ (z : Payment). z.external_ref) s ∙ eb)))
          ∙ y
      by_rows (inr old) (inr old') = u a b p q r old old' ea eb

module _ (i : ℕ) (ref : Text) (status : PaymentStatus) (now : ℕ) (d : Db) {q : Payment}
    (h : (apply_webhook i ref status now d).0 ≡ ok q) where
  abbrev d' : Db
  d' = (apply_webhook i ref status now d).1

  found_at : (p : Payment) → payment_of i d ≡ some p → payment_of p.id d ≡ some p
  found_at p found =
      subst (λ k. payment_of k d ≡ some p)
        (sym ((==_iff p.id i).0 (find_row-test (λ r. r.id == i) d.payments found))) found

  -- A successful webhook keeps the references of payments apart.
  pub apply_webhook-UniqueRefs : UniqueRefs d → UniqueRefs d'
  apply_webhook-UniqueRefs u =
      let (p, found, handled) = apply_webhook-Handled i ref status now d h in kept p found handled
    where
      kept :
          (p : Payment) → payment_of i d ≡ some p → Handled p ref status now d d' q → UniqueRefs d'
      kept p found (already over same state) = subst UniqueRefs (sym state) u
      kept p found (changed more same payments accepts free) =
          flushed-UniqueRefs i (settled p ref status now) p ref d d' (found_at p found) payments
            refl free u

  -- A successful webhook for one payment leaves every other payment as it is.
  pub apply_webhook_others : (j : ℕ) → j ≢ i → payment_of j d' ≡ payment_of j d
  apply_webhook_others j ne =
      let (p, found, handled) = apply_webhook-Handled i ref status now d h in kept p found handled
    where
      kept :
          (p : Payment)
          → payment_of i d ≡ some p
          → Handled p ref status now d d' q
          → payment_of j d' ≡ payment_of j d
      kept p found (already over same state) = rw state refl
      kept p found (changed more same payments accepts free) =
          let p_id : p.id ≡ i =
            (==_iff p.id i).0 (find_row-test (λ r. r.id == i) d.payments found) in
          ap (find_row (λ r. r.id == j)) payments
          ∙ payment_of-flushed j (settled p ref status now) p d (found_at p found)
          ∙ ground (arith, p_id, ne)

  -- A successful webhook keeps the references of payments apart, and leaves every payment but its
  -- own as it is.
  pub apply_webhook_apart :
      (UniqueRefs d → UniqueRefs d') × ((j : ℕ) → j ≢ i → payment_of j d' ≡ payment_of j d)
  apply_webhook_apart = (apply_webhook-UniqueRefs, apply_webhook_others)
