-- ===== src/Client/Payments.antt =====
-- `OcnPaymentManagerCli` of src/lib/ocnPaymentManager.ts.
use ocn_registry_v.Base.{
  ℕ, zero, suc, ◌≡◌, arith, ◌&&◌, Option, none, some, List, [], ◌∷◌, ◌++◌, ◌==◌, nat_eq, numbers_eq,
  if◌then◌else◌, or_default,
}
use ocn_registry_v.Text.{Text, codes, split, join}
use ocn_registry_v.Client.Failures.{
  Revert, Failure, new_error, Decoder, arg, joined, is_full, text_of, or_unknown, first_pattern,
}
use ocn_registry_v.Client.Wrapper.{
  Outcome, done, failed, is_done, ◌>=>◌, Ethers, Wrapper, verify_writable,
}

pub data PaymentCall : Type 0 where
  paid withdrawn : Text → PaymentCall

pub data PaymentStatus : Type 0 where
  pending payment_up_to_date insufficient_funds inactive : PaymentStatus

-- The payment manager on its network.
pub record PaymentNetwork : Type 0 where
  pub get_payment_status : List PaymentCall → Text → Outcome (Option ℕ)
  pub get_funding_yearly_amount : List PaymentCall → Outcome ℕ
  -- whether the network takes the transaction
  pub accept : List PaymentCall → PaymentCall → Outcome (Unit {0})
  -- `tx.wait()`
  pub wait : List PaymentCall → PaymentCall → Outcome (Unit {0})

-- `PaymentStatus[status]`
unfoldable pub payment_status_at : ℕ → Option PaymentStatus
payment_status_at n =
    if n == 0
    then some pending
    else if n == 1
    then some payment_up_to_date
    else if n == 2
    then some insufficient_funds
    else if n == 3
    then some inactive
    else none

abbrev pub payment_errors : List (Text × Text)
payment_errors =
    (codes "StakeAlreadyDeposited", codes "Stake has already been deposited for this party")
    ∷ (codes "InsufficientAllowance", codes "Insufficient allowance for token transfer")
    ∷ (codes "TransferFailed", codes "Token transfer failed - check balance and allowance")
    ∷ (codes "NoFundsStaked", codes "No funds staked for this party")
    ∷ (codes "WithdrawalNotAllowed", codes "Withdrawal is not allowed at this time")
    ∷ []

unfoldable pub fixed_message : Text → List (Text × Text) → Option Text
fixed_message name [] = none
fixed_message name ((known, text) ∷ errors) =
    if name == known then some text else fixed_message name errors

-- The `switch` on the name of a decoded error.
unfoldable pub payment_message : Revert → Text
payment_message r =
    if r.name == codes "AccessControlUnauthorizedAccount"
    then codes "Account " ++ arg 0 r.args ++ codes " is missing required role " ++ arg 1 r.args
    else or_default (fixed_message r.name payment_errors)
        (codes "Contract error: " ++ r.name ++ codes " " ++ join (codes ", ") (joined r.args))

abbrev pub payment_patterns : List (Text × Text)
payment_patterns =
    (codes "insufficient funds", codes "Insufficient funds in wallet to complete this transaction")
    ∷ (
      codes "nonce too low",
      codes "Transaction nonce is too low - try resetting your wallet nonce",
    )
    ∷ (codes "gas required exceeds allowance", codes "Transaction would exceed gas limit")
    ∷ (codes "user rejected", codes "Transaction was rejected by the user")
    ∷ (codes "execution reverted", codes "Transaction was reverted by the contract")
    ∷ (
      codes "transfer amount exceeds balance",
      codes "Token transfer amount exceeds available balance",
    )
    ∷ (
      codes "transfer amount exceeds allowance",
      codes "Token transfer amount exceeds approved allowance",
    )
    ∷ (codes "network error", codes "Network connection error - please check your connection")
    ∷ (codes "deadline expired", codes "Transaction deadline expired - please try again")
    ∷ (
      codes "replacement fee too low",
      codes "Gas price too low for replacement - increase gas price",
    )
    ∷ (codes "transaction underpriced", codes "Gas price too low - increase gas price")
    ∷ (codes "invalid operator", codes "Invalid operator address provided")
    ∷ (codes "already initialized", codes "Contract has already been initialized")
    ∷ (codes "zero address", codes "Zero address is not allowed for this operation")
    ∷ []

module _ (E : Ethers) (D : Decoder) (N : PaymentNetwork) (w : Wrapper) where
  unfoldable pub payment_readable : Failure → Text
  payment_readable e =
      or_default (first_pattern (D.to_lower (text_of e.message)) payment_patterns)
        (codes "Transaction failed: " ++ or_unknown (text_of e.message))

  -- `parseError(message.split(" ")[1])`, which throws where there is no second word.
  abbrev parse_second : List Text → Option Revert
  parse_second [] = none
  parse_second (a ∷ []) = none
  parse_second (a ∷ b ∷ texts) = D.parse_error b

  abbrev decoded : Text → Option Revert
  decoded message = if is_full message then parse_second (split b' ' message) else none

  unfoldable pub handle_payment_error : Failure → Failure
  handle_payment_error e = elim (decoded (text_of e.info_message)) [
    | some r ↦ new_error (payment_message r)
    | none ↦ new_error (payment_readable e)
  ]

  unfoldable pub submit_payment :
      PaymentCall → List PaymentCall → Outcome PaymentCall × List PaymentCall
  submit_payment c h = elim (N.accept h c) [
    | failed e ↦ (failed (handle_payment_error e), h)
    | done _ ↦ elim (N.wait (h ++ c ∷ []) c) [
      | failed e ↦ (failed (handle_payment_error e), h ++ c ∷ [])
      | done _ ↦ (done c, h ++ c ∷ [])
    ]
  ]

  abbrev guarded : PaymentCall → List PaymentCall → Outcome PaymentCall × List PaymentCall
  guarded c h = elim (verify_writable E w) [
    | failed e ↦ (failed e, h)
    | done _ ↦ submit_payment c h
  ]

  unfoldable pub pay : Text → List PaymentCall → Outcome PaymentCall × List PaymentCall
  pay address h = guarded (paid address) h

  unfoldable pub withdraw : Text → List PaymentCall → Outcome PaymentCall × List PaymentCall
  withdraw address h = guarded (withdrawn address) h

  abbrev status_of : Option ℕ → Option PaymentStatus
  status_of none = none
  status_of (some n) = payment_status_at n

  unfoldable pub get_payment_status : Text → List PaymentCall → Outcome (Option PaymentStatus)
  get_payment_status party h = N.get_payment_status h party >=> λ status. done (status_of status)

  -- `amount || undefined`
  abbrev if_some : ℕ → Option ℕ
  if_some zero = none
  if_some (suc n) = some (suc n)

  unfoldable pub get_funding_yearly_amount : List PaymentCall → Outcome (Option ℕ)
  get_funding_yearly_amount h = N.get_funding_yearly_amount h >=> λ amount. done (if_some amount)

  abbrev pub payments_after : List PaymentCall → PaymentCall → List PaymentCall
  payments_after h c = if w.is_writable && is_done (N.accept h c) then h ++ c ∷ [] else h

  -- `pay` and `withdraw` each send one transaction, their own, exactly if there is a signer and the
  -- network takes it, also where waiting for it fails afterwards; and each returns exactly if it has
  -- sent the transaction and the wait has succeeded.
  pub payments_sent :
      (address : Text) (h : List PaymentCall)
      → ((pay address h).1 ≡ payments_after h (paid address))
        × ((withdraw address h).1 ≡ payments_after h (withdrawn address))
        × (is_done (pay address h).0 ≡ (
            w.is_writable
            && is_done (N.accept h (paid address))
            && is_done (N.wait (h ++ paid address ∷ []) (paid address))))
        × (is_done (withdraw address h).0 ≡ (
            w.is_writable
            && is_done (N.accept h (withdrawn address))
            && is_done (N.wait (h ++ withdrawn address ∷ []) (withdrawn address))))
  unfolding pay withdraw submit_payment verify_writable
  payments_sent address h = (ground arith, ground arith, ground arith, ground arith)
