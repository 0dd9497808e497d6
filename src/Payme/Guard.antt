-- ===== src/Payme/Guard.antt =====
-- Which calls of Payme can change anything.
use ulov_backend.Prelude.{
  ℕ, ◌≡◌, ◌⊎◌, ◌↔◌, inl, inr, Bool, true, false, not, ◌&&◌, ◌||◌, Option, some, arith,
}
use ulov_backend.Prelude.Tests.{Option-cases, Bool-cases, if◌then◌else◌}
use ulov_backend.Prelude.Text.{Text, text_eq, text_eq_iff, truthy, codes}
use ulov_backend.Config.{Settings, Codecs}
use ulov_backend.Db.{Db}
use ulov_backend.Payme.{
  Params, Method, check_perform, check_transaction, unknown_method, handle_check_perform,
  handle_check, run_method, parse_basic, verify_basic_auth, dispatch,
}

-- The methods that only look.
pub data IsLookup : Method → Type 0 where
  looks_perform : IsLookup check_perform
  looks_check : IsLookup check_transaction
  looks_nothing : IsLookup unknown_method

reads_perform : (params : Params) (d : Db) → (handle_check_perform params d).1 ≡ d
unfolding handle_check_perform
reads_perform params d = ground arith

reads_check : (params : Params) (d : Db) → (handle_check params d).1 ≡ d
unfolding handle_check
reads_check params d = ground arith

module _ (cfg : Settings) (codecs : Codecs) where
  -- The credentials that a call must have: the secret, which is set, and the merchant's id, or the
  -- name of the test user in test mode.
  pub record Authorized (header : Option Text) : Type 0 where
    pub username : Text
    pub password : Text
    pub parsed : parse_basic cfg codecs header ≡ some (username, password)
    pub right_password : password ≡ cfg.payme_secret
    pub secret_set : truthy cfg.payme_secret ≡ true
    pub right_user :
        (username ≡ cfg.payme_merchant_id)
        ⊎ ((cfg.payme_test_mode ≡ true) × (username ≡ codes "Paycom"))

  accepts : Text → Text → Bool
  accepts username password =
      if not (text_eq password cfg.payme_secret) || not (truthy cfg.payme_secret)
      then false
      else if cfg.payme_test_mode && text_eq username (codes "Paycom")
      then true
      else text_eq username cfg.payme_merchant_id

  accepts-user :
      (username password : Text)
      → accepts username password ≡ true
      → (username ≡ cfg.payme_merchant_id)
        ⊎ ((cfg.payme_test_mode ≡ true) × (username ≡ codes "Paycom"))
  unfolding accepts
  accepts-user username password h = elim (Bool-cases (text_eq username cfg.payme_merchant_id)) [
    | inl e ↦ inl ((text_eq_iff username cfg.payme_merchant_id).0 e)
    | inr e ↦
        inr (ground (arith, e, h), (text_eq_iff username (codes "Paycom")).0 (ground (arith, e, h)))
  ]

  verify-Authorized :
      (header : Option Text) → verify_basic_auth cfg codecs header ≡ true → Authorized header
  unfolding verify_basic_auth accepts
  verify-Authorized header h = elim (Option-cases (parse_basic cfg codecs header)) [
    | inl bare ↦ absurd (ground (arith, bare))
    | inr (credentials, parsed) ↦
        let accepted : accepts credentials.0 credentials.1 ≡ true = ground (arith, parsed) in
        record {
          username = credentials.0;
          password = credentials.1;
          parsed = parsed;
          right_password =
              (text_eq_iff credentials.1 cfg.payme_secret).0 (ground (arith, accepted));
          secret_set = ground (arith, accepted);
          right_user = accepts-user credentials.0 credentials.1 accepted;
        }
  ]

  Authorized-verify :
      (header : Option Text) → Authorized header → verify_basic_auth cfg codecs header ≡ true
  unfolding verify_basic_auth
  Authorized-verify header a = ground (
    arith,
    a.parsed,
    a.right_password,
    a.secret_set,
    a.right_user,
    text_eq_iff a.password cfg.payme_secret,
    text_eq_iff a.username cfg.payme_merchant_id,
    text_eq_iff a.username (codes "Paycom"),
  )

  -- A header is accepted exactly with the configured credentials; with no secret set, none is.
  pub verify_basic_auth_iff :
      (header : Option Text) → (verify_basic_auth cfg codecs header ≡ true) ↔ Authorized header
  verify_basic_auth_iff header = (verify-Authorized header, Authorized-verify header)

  -- A call that is not accepted, and a call of a method that only looks, writes nothing.
  pub dispatch-reads :
      (header : Option Text) (method : Method) (params : Params) (now : ℕ) (d : Db)
      → (verify_basic_auth cfg codecs header ≡ false) ⊎ IsLookup method
      → (dispatch cfg codecs header method params now d).1 ≡ d
  unfolding dispatch run_method
  dispatch-reads header method params now d (inl refused) = ground (arith, refused)
  dispatch-reads header method params now d (inr looks_perform) =
      ground (arith, reads_perform params d)
  dispatch-reads header method params now d (inr looks_check) = ground (arith, reads_check params d)
  dispatch-reads header method params now d (inr looks_nothing) = ground arith
