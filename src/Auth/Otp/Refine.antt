-- ===== src/Auth/Otp/Refine.antt =====
-- The passwords in Redis against what they promise for each phone.
use ulov_backend.Prelude.{
  ℕ, suc, ◌+◌, ◌≡◌, ◌≢◌, refl, ap, ◌∙◌, true, false, Option, none, some, inl, inr, ◌∷◌, arith,
}
use ulov_backend.Prelude.Tests.{leb, is_some, Option-cases, Bool-cases}
use ulov_backend.Prelude.Text.{Text, text_eq, text_eq_iff, text_eq_refl, codes}
use ulov_backend.Config.{Settings}
use ulov_backend.Redis.{Redis, IsRedis, Slot, hash, string, live, hash_of, put}
use ulov_backend.Auth.Otp.{otp_key, otp_lock_key, six_digits, request_otp, wrong_code, verify_otp}
use ulov_backend.Auth.Otp.Machine.{Issued, Phone, is_locked, current, request, miss, verify}

-- E.164: the normalised form begins with `+`.
abbrev pub IsPhone : Text → Type 0
IsPhone phone = (rest : Text) × (phone ≡ b'+' ∷ rest)

abbrev pub slot_of : Option Issued → Slot
slot_of none = none
slot_of (some c) = some (hash c.code c.tries, some c.dies_at)

abbrev pub lock_of : Option ℕ → Slot
lock_of none = none
lock_of (some t) = some (string (codes "1"), some t)

same_key : (p q : Text) → text_eq (otp_key p) (otp_key q) ≡ text_eq p q
unfolding text_eq
same_key p q = refl

same_lock : (p q : Text) → text_eq (otp_lock_key p) (otp_lock_key q) ≡ text_eq p q
unfolding text_eq
same_lock p q = refl

lock_apart :
    (p q : Text)
    → IsPhone p
    → (text_eq (otp_key p) (otp_lock_key q) ≡ false)
      × (text_eq (otp_lock_key q) (otp_key p) ≡ false)
unfolding text_eq
lock_apart p q (rest, e) = rw e (refl, refl)

module _ {R : Type 0} (redis : Redis R) (laws : IsRedis redis) (cfg : Settings) where
  open redis use {view}

  -- The keys of a phone hold what the phone has.
  pub record Shows (r : R) (phone : Text) (p : Phone) : Type 0 where
    pub code_slot : view r (otp_key phone) ≡ slot_of p.issued
    pub lock_slot : view r (otp_lock_key phone) ≡ lock_of p.locked_until

  -- The three commands that issue a code.
  abbrev issue : ℕ → Text → Text → R → R
  issue now k code r =
      redis.expire now k cfg.otp_ttl_seconds (redis.hset k code 0 (redis.delete k r))

  issue-view :
      (now : ℕ) (k code : Text) (r : R) (j : Text)
      → view (issue now k code r) j
        ≡ put k (some (hash code 0, some (now + cfg.otp_ttl_seconds))) (view r) j
  issue-view now k code r j =
      let bare : view (redis.delete k r) k ≡ none =
        laws.delete_law k k r ∙ ground (arith, text_eq_refl k) in
      let set : (i : Text)
          → view (redis.hset k code 0 (redis.delete k r)) i
            ≡ put k (some (hash code 0, none)) (view (redis.delete k r)) i =
        λ i. laws.hset_law k code 0 i (redis.delete k r) bare in
      let here : live now (view (redis.hset k code 0 (redis.delete k r)) k)
          ≡ some (hash code 0, none) =
        ap (live now) (set k) ∙ ground (arith, text_eq_refl k) in
      laws.expire_law now k cfg.otp_ttl_seconds j (redis.hset k code 0 (redis.delete k r))
        (hash code 0) none here
      ∙ ground (arith, set j, laws.delete_law k j r)

  -- The commands that lock a phone.
  abbrev lock : ℕ → Text → Text → R → R
  lock now k l r = redis.setex now l cfg.otp_lock_seconds (codes "1") (redis.delete k r)

  lock-view :
      (now : ℕ) (k l : Text) (r : R) (j : Text)
      → view (lock now k l r) j
        ≡ put l
            (some (string (codes "1"), some (now + cfg.otp_lock_seconds)))
            (put k none (view r))
            j
  lock-view now k l r j =
      laws.setex_law now l cfg.otp_lock_seconds (codes "1") j (redis.delete k r)
      ∙ ground (arith, laws.delete_law k j r)

  live-slot_of : (now : ℕ) (p : Phone) → live now (slot_of p.issued) ≡ slot_of (current now p)
  unfolding current
  live-slot_of now p = elim (Option-cases p.issued) [
    | inl e ↦ rw e refl
    | inr (c, e) ↦ ground (arith, e)
  ]

  module _ (r : R) (phone : Text) (p : Phone) (is_phone : IsPhone phone)
      (shows : Shows r phone p) where
    abbrev k : Text
    k = otp_key phone

    abbrev l : Text
    l = otp_lock_key phone

    keys :
        (text_eq k k ≡ true) × (text_eq l l ≡ true) × (text_eq k l ≡ false) × (text_eq l k ≡ false)
    keys = let (a, b) = lock_apart phone phone is_phone in (text_eq_refl k, text_eq_refl l, a, b)

    exists_lock : (now : ℕ) → redis.exists now l r ≡ is_locked now p
    exists_lock now =
        laws.exists_law now l r
        ∙ ap (λ s. is_some (live now s)) shows.lock_slot
        ∙ elim (Option-cases p.locked_until) [ inl e ↦ rw e refl | inr (t, e) ↦ ground (arith, e) ]

    stored : (now : ℕ) → live now (view r k) ≡ slot_of (current now p)
    stored now = ap (live now) shows.code_slot ∙ live-slot_of now p

    -- The keys after a phone was given a code, and after it was locked.
    issued-Shows :
        (now : ℕ) (code : Text)
        → Shows (issue now k code r) phone (record p {
          issued = some (record { code = code; tries = 0; dies_at = now + cfg.otp_ttl_seconds });
        })
    issued-Shows now code = record {
      code_slot = issue-view now k code r k ∙ ground (arith, keys);
      lock_slot = issue-view now k code r l ∙ ground (arith, keys, shows.lock_slot);
    }

    -- A request for a code answers what is promised and leaves what is promised.
    pub request_otp_refines :
        (now drawn : ℕ)
        → ((request_otp redis cfg now phone drawn r).0 ≡ (request cfg now drawn p).0)
          × Shows (request_otp redis cfg now phone drawn r).1 phone (request cfg now drawn p).1
    unfolding request_otp request
    request_otp_refines now drawn = elim (Bool-cases (is_locked now p)) [
      | inl e ↦
          let x : redis.exists now l r ≡ true = exists_lock now ∙ e in
          (rw (e, x) refl, rw (e, x) shows)
      | inr e ↦
          let x : redis.exists now l r ≡ false = exists_lock now ∙ e in
          (rw (e, x) refl, rw (e, x) (issued-Shows now (six_digits drawn)))
    ]

    -- What is stored where a code is alive.
    alive :
        (now : ℕ) (c : Issued)
        → current now p ≡ some c
        → live now (view r k) ≡ some (hash c.code c.tries, some c.dies_at)
    alive now c e = stored now ∙ ap slot_of e

    wrong_code_refines :
        (now : ℕ) (c : Issued)
        → current now p ≡ some c
        → ((wrong_code redis cfg now phone r).0 ≡ (miss cfg now c p).0)
          × Shows (wrong_code redis cfg now phone r).1 phone (miss cfg now c p).1
    unfolding wrong_code miss
    wrong_code_refines now c e =
        let n : (redis.hincrby now k r).0 ≡ suc c.tries =
          (laws.hincrby_law now k k r c.code c.tries (some c.dies_at) (alive now c e)).0 in
        let v : (j : Text)
            → view (redis.hincrby now k r).1 j
              ≡ put k (some (hash c.code (suc c.tries), some c.dies_at)) (view r) j =
          λ j. (laws.hincrby_law now k j r c.code c.tries (some c.dies_at) (alive now c e)).1 in
        elim (Bool-cases (leb cfg.otp_max_attempts (suc c.tries))) [
          | inl over ↦ (
            rw (n, over) refl,
            rw (n, over)
                (record {
                  code_slot = lock-view now k l (redis.hincrby now k r).1 k ∙ ground (arith, keys);
                  lock_slot = lock-view now k l (redis.hincrby now k r).1 l ∙ ground (arith, keys);
                }),
          )
          | inr more ↦ (
            rw (n, more) refl,
            rw (n, more)
                (record {
                  code_slot = v k ∙ ground (arith, keys);
                  lock_slot = v l ∙ ground (arith, keys, shows.lock_slot);
                }),
          )
        ]

    used-Shows : Shows (redis.delete k r) phone (record p { issued = none })
    used-Shows = record {
      code_slot = laws.delete_law k k r ∙ ground (arith, keys);
      lock_slot = laws.delete_law k l r ∙ ground (arith, keys, shows.lock_slot);
    }

    -- A try of a code answers what is promised and leaves what is promised.
    pub verify_otp_refines :
        (now : ℕ) (code : Text)
        → ((verify_otp redis cfg now phone code r).0 ≡ (verify cfg now code p).0)
          × Shows (verify_otp redis cfg now phone code r).1 phone (verify cfg now code p).1
    unfolding verify_otp verify
    verify_otp_refines now code =
        let found : redis.hgetall now k r ≡ hash_of (slot_of (current now p)) =
          laws.hgetall_law now k r ∙ ap hash_of (stored now) in
        elim (Option-cases (current now p)) [
          | inl e ↦
              let h : redis.hgetall now k r ≡ none = found ∙ ap (λ o. hash_of (slot_of o)) e in
              (rw (verify, e, h) refl, rw (verify, e, h) shows)
          | inr (c, e) ↦
              let h : redis.hgetall now k r ≡ some (c.code, c.tries) =
                found ∙ ap (λ o. hash_of (slot_of o)) e in
              elim (Bool-cases (text_eq c.code code)) [
                | inl right ↦ (rw (verify, e, h, right) refl, rw (verify, e, h, right) used-Shows)
                | inr wrong ↦
                    let (a, b) = wrong_code_refines now c e in
                    (rw (verify, e, h, wrong) a, rw (verify, e, h, wrong) b)
              ]
        ]

    -- For a phone in E.164 form whose keys in Redis hold what the abstract phone has: asking for a
    -- code and trying one each answer what is promised, and leave in Redis what is promised.
    pub otp_refines :
        (now drawn : ℕ) (code : Text)
        → (((request_otp redis cfg now phone drawn r).0 ≡ (request cfg now drawn p).0)
            × Shows (request_otp redis cfg now phone drawn r).1 phone (request cfg now drawn p).1)
          × (((verify_otp redis cfg now phone code r).0 ≡ (verify cfg now code p).0)
              × Shows (verify_otp redis cfg now phone code r).1 phone (verify cfg now code p).1)
    otp_refines now drawn code = (request_otp_refines now drawn, verify_otp_refines now code)

    request_otp-view :
        (now drawn : ℕ) (j : Text)
        → text_eq k j ≡ false
        → view (request_otp redis cfg now phone drawn r).1 j ≡ view r j
    unfolding request_otp
    request_otp-view now drawn j other = elim (Bool-cases (redis.exists now l r)) [
      | inl x ↦ rw x refl
      | inr x ↦ rw x (issue-view now k (six_digits drawn) r j ∙ ground (arith, other))
    ]

    verify_otp-view :
        (now : ℕ) (code j : Text)
        → text_eq k j ≡ false
        → text_eq l j ≡ false
        → view (verify_otp redis cfg now phone code r).1 j ≡ view r j
    unfolding verify_otp wrong_code
    verify_otp-view now code j other other' =
        let found : redis.hgetall now k r ≡ hash_of (slot_of (current now p)) =
          laws.hgetall_law now k r ∙ ap hash_of (stored now) in
        elim (Option-cases (current now p)) [
          | inl e ↦
              let h : redis.hgetall now k r ≡ none = found ∙ ap (λ o. hash_of (slot_of o)) e in
              rw h refl
          | inr (c, e) ↦
              let h : redis.hgetall now k r ≡ some (c.code, c.tries) =
                found ∙ ap (λ o. hash_of (slot_of o)) e in
              let v : view (redis.hincrby now k r).1 j ≡ view r j =
                (laws.hincrby_law now k j r c.code c.tries (some c.dies_at) (alive now c e)).1
                ∙ ground (arith, other) in
              elim (Bool-cases (text_eq c.code code)) [
                | inl right ↦ rw (h, right) (laws.delete_law k j r ∙ ground (arith, other))
                | inr wrong ↦
                    elim (Bool-cases (leb cfg.otp_max_attempts (redis.hincrby now k r).0)) [
                      | inl over ↦
                          rw (h, wrong, over)
                            (lock-view now k l (redis.hincrby now k r).1 j
                              ∙ ground (arith, other, other', v))
                      | inr more ↦ rw (h, wrong, more) v
                    ]
              ]
        ]

    -- What is asked and tried for one phone leaves every other phone as it is.
    pub verify_otp_others :
        (q : Text) (s : Phone) (now drawn : ℕ) (code : Text)
        → IsPhone q
        → q ≢ phone
        → Shows r q s
        → Shows (request_otp redis cfg now phone drawn r).1 q s
          × Shows (verify_otp redis cfg now phone code r).1 q s
    verify_otp_others q s now drawn code q_phone ne other =
        let apart : text_eq phone q ≡ false = ground (arith, text_eq_iff phone q, ne) in
        let kq : text_eq k (otp_key q) ≡ false = same_key phone q ∙ apart in
        let lq : text_eq l (otp_lock_key q) ≡ false = same_lock phone q ∙ apart in
        let kl : text_eq k (otp_lock_key q) ≡ false = (lock_apart phone q is_phone).0 in
        let lk : text_eq l (otp_key q) ≡ false = (lock_apart q phone q_phone).1 in
        (
          record {
            code_slot = request_otp-view now drawn (otp_key q) kq ∙ other.code_slot;
            lock_slot = request_otp-view now drawn (otp_lock_key q) kl ∙ other.lock_slot;
          },
          record {
            code_slot = verify_otp-view now code (otp_key q) kq lk ∙ other.code_slot;
            lock_slot = verify_otp-view now code (otp_lock_key q) kl lq ∙ other.lock_slot;
          },
        )
