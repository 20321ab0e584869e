-- ===== src/Client/Wrapper.antt =====
-- `ContractWrapper` of src/lib/contract-wrapper.ts, and actions on a contract: they may send
-- transactions and may throw.
use ocn_registry_v.Base.{
  ℕ, Bool, true, false, Option, none, some, [], ◌∷◌, ◌++◌, ◌==◌, nat_eq, numbers_eq, if◌then◌else◌,
  or_default, or_else,
}
use ocn_registry_v.Base.Lists.{length}
use ocn_registry_v.Base.Dict.{Dict, lookup}
use ocn_registry_v.Text.{Text, codes}
use ocn_registry_v.Client.Failures.{Failure, new_error}

pub data Outcome (A : Type 0) : Type 0 where
  done : A → Outcome A
  failed : Failure → Outcome A

abbrev pub is_done : {A : Type 0} → Outcome A → Bool
is_done (done a) = true
is_done (failed e) = false

-- What the code calls of ethers and of the engine.
pub record Ethers : Type 0 where
  -- whether `ethers.getAddress` returns
  pub is_address : Text → Bool
  -- the address of `new ethers.Wallet(key)`
  pub wallet_of : Text → Outcome Text
  -- `new URL(text).origin`
  pub origin : Text → Outcome Text
  pub to_upper : Text → Text
  -- `hexlify(toUtf8Bytes(text))`
  pub hexlify : Text → Text
  -- `ethers.toUtf8String`
  pub to_utf8_string : Text → Outcome Text
  -- a number in a template
  pub show : ℕ → Text

pub record Provider : Type 0 where
  pub protocol : Text
  pub host : Text
  pub port : Text
  pub url : Option Text

-- `Partial<Provider>`
pub record Overrides : Type 0 where
  pub protocol : Option Text
  pub host : Option Text
  pub port : Option Text
  pub url : Option Text

pub record Wrapper : Type 0 where
  pub rpc_url : Text
  -- the address of the signer's wallet
  pub wallet : Option Text
  -- `mode` is "r+w"
  pub is_writable : Bool
  pub target : Text

infixl 5 ◌>=>◌
abbrev pub ◌>=>◌ : {A B : Type 0} → Outcome A → (A → Outcome B) → Outcome B
done a >=> f = f a
failed e >=> f = failed e

module _ (E : Ethers) where
  unfoldable pub verify_address : Text → Outcome (Unit {0})
  verify_address address =
      if E.is_address address
      then done tt
      else failed (
          new_error
            (codes "Invalid address. Expected Ethereum address, got \"" ++ address ++ codes "\"."))

  unfoldable pub verify_writable : Wrapper → Outcome (Unit {0})
  verify_writable w =
      if w.is_writable
      then done tt
      else failed (new_error (codes "No signer provided. Unable to send transaction."))

  unfoldable pub verify_string_len : Text → ℕ → Outcome (Unit {0})
  verify_string_len text len =
      if length text == len
      then done tt
      else failed (
          new_error (
            codes "Invalid string length. Wanted "
            ++ E.show len
            ++ codes ", got \""
            ++ text
            ++ codes "\" ("
            ++ E.show (length text)
            ++ codes ")"))

  unfoldable pub verify_url : Text → Outcome (Unit {0})
  verify_url url = elim (E.origin url) [
    | done o ↦ done tt
    | failed e ↦
        failed (new_error (codes "Invalid URL. Expected valid URL, got \"" ++ url ++ codes "\"."))
  ]

  unfoldable pub to_bytes : Text → Text
  to_bytes text = E.hexlify (E.to_upper text)

  unfoldable pub rpc_url_of : Provider → Overrides → Text
  rpc_url_of p o = or_default (or_else o.url p.url) (
      or_default o.protocol p.protocol
      ++ codes "://"
      ++ or_default o.host p.host
      ++ codes ":"
      ++ or_default o.port p.port)

  -- An empty private key counts as none.
  unfoldable pub wallet_for : Text → Outcome (Option Text)
  wallet_for [] = done none
  wallet_for (c ∷ key) = E.wallet_of (c ∷ key) >=> λ address. done (some address)

  unfoldable pub target_for : Text → Text → Outcome Text
  target_for deployed [] = done deployed
  target_for deployed (c ∷ address) = verify_address (c ∷ address) >=> λ _. done (c ∷ address)

  abbrev is_signer : Option Text → Bool
  is_signer none = false
  is_signer (some address) = true

  -- The constructor. `signer` and `specific` are empty where they are not given.
  unfoldable pub create :
      Dict Text Provider → Text → Text → Text → Overrides → Text → Outcome Wrapper
  create networks deployed environment signer overrides specific =
      elim (lookup environment networks) [
        | none ↦ failed (
            new_error
              (codes "Option \"" ++ environment ++ codes "\" not found in configured networks."))
        | some provider ↦ wallet_for signer >=> λ wallet. target_for deployed specific >=> λ target.
            done (record {
              rpc_url = rpc_url_of provider overrides;
              wallet = wallet;
              is_writable = is_signer wallet;
              target = target;
            })
      ]
