-- ===== src/Payme.antt =====
-- app/integrations/payme.py: Payme's JSON-RPC calls. A body is taken as it is decoded from JSON,
-- with its numbers not negative; the bodies of answers carry no texts, and ids as numbers.
pub mod Lifecycle
pub mod Creation
pub mod Guard
use mathlib.Core.Option
use ulov_backend.Prelude.{ℕ, ◌+◌, Bool, true, false, ◌&&◌, ◌||◌, not, Option, none, some, [], ◌∷◌}
use ulov_backend.Prelude.Tests.{◌==◌, leb, or_else, if◌then◌else◌}
use ulov_backend.Prelude.Text.{Text, codes, text_eq, truthy, truthy?, text_or_empty}
use ulov_backend.Prelude.Lists.{find_row}
use ulov_backend.Config.{Settings, Codecs}
use ulov_backend.Exec.{Exec, pure, gets, ◌>>=◌, ◌>>◌}
use ulov_backend.Db.{Db}
use ulov_backend.Db.Rows.{Payment, PaymentStatus, pending, paid, failed, refunded}
use ulov_backend.Billing.{has_ref, same_payment_status, flush_payment, apply_webhook}

-- An id in `params["account"]`: a text that is empty, that is a UUID, or that is none.
pub data RawId : Type 0 where
  blank malformed : RawId
  uuid : ℕ → RawId

-- `params`; a missing `account` has neither id.
pub record Params : Type 0 where
  pub payment_id : Option RawId
  pub order_id : Option RawId
  pub amount : Option ℕ
  pub id : Option Text
  pub time : Option ℕ

pub data Method : Type 0 where
  check_perform create_transaction perform_transaction cancel_transaction check_transaction : Method
  unknown_method : Method

-- The negative codes of the protocol.
pub data ErrorCode : Type 0 where
  invalid_amount transaction_not_found invalid_account unauthorized : ErrorCode

-- `state`: 1, 2 and -2.
pub data TxState : Type 0 where
  created performed cancelled : TxState

pub data Reply : Type 0 where
  error : ErrorCode → Reply
  allow : Reply
  -- `transaction`, `state` and the time that is sent back, if one is.
  result : ℕ → TxState → Option ℕ → Reply

-- `account.get("payment_id") or account.get("order_id")`
raw_id : Option RawId → Option RawId → Option RawId
raw_id none other = other
raw_id (some blank) other = other
raw_id (some malformed) other = some malformed
raw_id (some (uuid n)) other = some (uuid n)

-- `UUID(str(raw))`
parse_id : Option RawId → Option ℕ
parse_id none = none
parse_id (some blank) = none
parse_id (some malformed) = none
parse_id (some (uuid n)) = some n

unfoldable pub payment_id_from_account : Params → Option ℕ
unfolding raw_id parse_id
payment_id_from_account params = parse_id (raw_id params.payment_id params.order_id)

-- `_load_payment`
unfoldable pub load_payment : Option ℕ → Exec Db (Option Payment)
load_payment none = pure none
load_payment (some i) = gets (λ d. find_row (λ p. p.id == i) d.payments)

-- The payment that a transaction id is attached to.
unfoldable pub by_ref : Text → Exec Db (Option Payment)
by_ref ref = gets (λ d. find_row (has_ref ref) d.payments)

-- `str(params.get("id") or "")`
abbrev pub payme_id : Params → Text
payme_id params = text_or_empty params.id

-- `int(params.get("amount") or 0)` and `int(params.get("time") or 0)`
abbrev pub amount_of : Params → ℕ
amount_of params = or_else params.amount 0

abbrev pub time_of : Params → ℕ
time_of params = or_else params.time 0

check_loaded : Params → Option Payment → Reply
check_loaded params none = error invalid_account
check_loaded params (some p) =
    if not (amount_of params == p.amount)
    then error invalid_amount
    else if not (same_payment_status p.status pending)
    then error invalid_account
    else allow

unfoldable pub handle_check_perform : Params → Exec Db Reply
unfolding payment_id_from_account load_payment check_loaded
handle_check_perform params = do
  found ← load_payment (payment_id_from_account params)
  pure (check_loaded params found)

-- The transaction id is written if the payment has none.
attach : Params → Payment → Exec Db (Unit {0})
unfolding flush_payment
attach params p =
    if truthy? p.external_ref
    then pure tt
    else flush_payment (record p { external_ref = some (payme_id params) })

create_loaded : Params → Option Payment → Exec Db Reply
unfolding attach
create_loaded params none = pure (error invalid_account)
create_loaded params (some p) =
    if not (amount_of params == p.amount)
    then pure (error invalid_amount)
    else if not (truthy (payme_id params))
    then pure (error transaction_not_found)
    else if truthy? p.external_ref && not (text_eq (text_or_empty p.external_ref) (payme_id params))
    then pure (error invalid_account)
    else (do attach params p; pure (result p.id created (some (time_of params))))

unfoldable pub handle_create : Params → Exec Db Reply
unfolding payment_id_from_account load_payment create_loaded
handle_create params = do
  found ← load_payment (payment_id_from_account params)
  create_loaded params found

-- The outcome is applied to the payment that was found, and the answer gives its state.
finish_loaded : Params → PaymentStatus → TxState → ℕ → Option Payment → Exec Db Reply
finish_loaded params status state now none = pure (error transaction_not_found)
finish_loaded params status state now (some p) = do
  _ ← apply_webhook p.id (payme_id params) status now
  pure (result p.id state (some (time_of params)))

unfoldable pub handle_perform : Params → ℕ → Exec Db Reply
unfolding by_ref finish_loaded
handle_perform params now =
    if not (truthy (payme_id params))
    then pure (error transaction_not_found)
    else (do found ← by_ref (payme_id params); finish_loaded params paid performed now found)

unfoldable pub handle_cancel : Params → ℕ → Exec Db Reply
unfolding by_ref finish_loaded
handle_cancel params now = do
  found ← by_ref (payme_id params)
  finish_loaded params failed cancelled now found

abbrev pub state_of : PaymentStatus → TxState
state_of pending = created
state_of paid = performed
state_of failed = cancelled
state_of refunded = cancelled

status_loaded : Option Payment → Reply
status_loaded none = error transaction_not_found
status_loaded (some p) = result p.id (state_of p.status) none

unfoldable pub handle_check : Params → Exec Db Reply
unfolding by_ref status_loaded
handle_check params = do found ← by_ref (payme_id params); pure (status_loaded found)

-- `METHODS`
unfoldable pub run_method : Method → Params → ℕ → Exec Db Reply
run_method check_perform params now = handle_check_perform params
run_method create_transaction params now = handle_create params
run_method perform_transaction params now = handle_perform params now
run_method cancel_transaction params now = handle_cancel params now
run_method check_transaction params now = handle_check params
run_method unknown_method params now = pure (error transaction_not_found)

-- `header.lower().startswith("basic ")`; no other letter has one of these as its lower case.
lower_ascii : ℕ → ℕ
lower_ascii c = if leb 65 c && leb c 90 then c + 32 else c

unfoldable pub starts_with : Text → Text → Bool
unfolding lower_ascii
starts_with [] s = true
starts_with (c ∷ cs) [] = false
starts_with (c ∷ cs) (x ∷ s) = (lower_ascii x == c) && starts_with cs s

-- `s.split(sep, 1)[1]`, if `sep` is in `s`, with the part before it.
unfoldable pub split_once : ℕ → Text → Option (Text × Text)
split_once sep [] = none
split_once sep (c ∷ s) =
    if c == sep then some ([], s) else Option.map (λ r. (c ∷ r.0, r.1)) (split_once sep s)

module _ (cfg : Settings) (codecs : Codecs) where
  -- The user name and the password of a header.
  unfoldable pub parse_basic : Option Text → Option (Text × Text)
  unfolding starts_with split_once
  parse_basic none = none
  parse_basic (some header) =
      if not (starts_with (codes "basic ") header) then none else elim (split_once b' ' header) [
        | none ↦ none
        | some (_, rest) ↦ elim (codecs.b64_text rest) [
          | none ↦ none
          | some raw ↦ split_once b':' raw
        ]
      ]

  unfoldable pub verify_basic_auth : Option Text → Bool
  unfolding parse_basic
  verify_basic_auth header = elim (parse_basic header) [
    | none ↦ false
    | some (username, password) ↦
        if not (text_eq password cfg.payme_secret) || not (truthy cfg.payme_secret)
        then false
        else if cfg.payme_test_mode && text_eq username (codes "Paycom")
        then true
        else text_eq username cfg.payme_merchant_id
  ]

  unfoldable pub dispatch : Option Text → Method → Params → ℕ → Exec Db Reply
  dispatch header method params now =
      if not (verify_basic_auth header)
      then pure (error unauthorized)
      else run_method method params now
