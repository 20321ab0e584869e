-- ===== src/Client/Failures.antt =====
-- Errors as src/lib/registry.ts reads them, and the messages for reverts and known causes.
use ocn_registry_v.Base.{
  ℕ, zero, suc, Bool, true, false, Option, none, some, List, [], ◌∷◌, ◌++◌, ◌==◌, nat_eq,
  numbers_eq, if◌then◌else◌, or_default,
}
use ocn_registry_v.Text.{Text, codes, includes, join}

-- An argument of a revert, as ethers decodes it: a number or bigint, or anything else, each with its
-- text.
pub data Argument : Type 0 where
  number : Text → Argument
  plain : Text → Argument

pub record Revert : Type 0 where
  pub name : Text
  pub args : List Argument

-- The fields of a thrown error that the code reads. `info_data` and `info_message` stand in
-- `error.info.error`.
pub record Failure : Type 0 where
  pub revert : Option Revert
  pub reason : Option Text
  pub data_field : Option Text
  pub info_data : Option Text
  pub info_message : Option Text
  pub message : Option Text

-- `new Error(message)`, and `RecognizedError` too.
abbrev pub new_error : Text → Failure
new_error message = record {
  revert = none;
  reason = none;
  data_field = none;
  info_data = none;
  info_message = none;
  message = some message;
}

-- What the code uses of ethers and of the engine: `none` where a call throws or yields null.
pub record Decoder : Type 0 where
  -- `this.contract.interface.parseError`
  pub parse_error : Text → Option Revert
  -- `iface.parseError`, for the extra errors
  pub parse_extra : Text → Option Revert
  -- the string that the bytes of a hexadecimal text encode
  pub decode_string : Text → Option Text
  pub to_lower : Text → Text

abbrev pub shown : Argument → Text
shown (number text) = text
shown (plain text) = text

-- `${args[n]}`
abbrev pub arg : ℕ → List Argument → Text
arg n [] = codes "undefined"
arg zero (a ∷ args) = shown a
arg (suc n) (a ∷ args) = arg n args

-- `args.join(", ")`
abbrev pub joined : List Argument → List Text
joined [] = []
joined (a ∷ args) = shown a ∷ joined args

abbrev is_number : List Argument → Bool
is_number (number text ∷ args) = true
is_number args = false

abbrev pub call : Revert → Text
call r = r.name ++ codes "(" ++ join (codes ", ") (joined r.args) ++ codes ")"

-- The error names whose message is a text and the first argument.
abbrev pub plain_errors : List (Text × Text)
plain_errors =
    (codes "CerificateOwnerMismatch", codes "Certificate owner mismatch: ")
    ∷ (codes "DomainNameAlreadyRegistered", codes "Domain name already registered: ")
    ∷ (codes "EmptyCountryCode", codes "Empty country code: ")
    ∷ (codes "EmptyDomainName", codes "Empty domain name: ")
    ∷ (codes "EmptyOperator", codes "Empty operator: ")
    ∷ (codes "EmptyPartyId", codes "Empty party ID: ")
    ∷ (codes "NoRolesProvided", codes "No roles provided: ")
    ∷ (codes "PartyAlreadyRegistered", codes "Party already registered: ")
    ∷ (codes "PartyNotRegistered", codes "Party not registered: ")
    ∷ (codes "SignerMismatch", codes "Signer mismatch: ")
    ∷ []

unfoldable pub plain_message : Revert → List (Text × Text) → Option Text
plain_message r [] = none
plain_message r ((name, text) ∷ errors) =
    if r.name == name then some (text ++ arg 0 r.args) else plain_message r errors

unfoldable pub provider_message : Revert → Text
provider_message r =
    if is_number r.args
    then codes "Provider not found for role " ++ arg 0 r.args ++ codes ": " ++ arg 1 r.args
    else codes "Provider not found in oracle: "
      ++ arg 0 r.args
      ++ codes " for identifier \""
      ++ arg 1 r.args
      ++ codes "\". Register the party in the CPO/EMSP oracle first."

-- The `switch` on the name of a revert.
unfoldable pub revert_message : Revert → Text
revert_message r =
    if r.name == codes "AccessControlUnauthorizedAccount"
    then codes "Account " ++ arg 0 r.args ++ codes " is missing required role " ++ arg 1 r.args
    else if r.name == codes "InvalidCertificate"
    then codes "Invalid certificate from verifier " ++ arg 0 r.args ++ codes ": " ++ arg 1 r.args
    else if r.name == codes "ProviderNotFound"
    then provider_message r
    else or_default (plain_message r plain_errors) (codes "Contract reverted: " ++ call r)

-- A string is false exactly if it is empty.
abbrev pub is_full : Text → Bool
is_full [] = false
is_full (c ∷ text) = true

-- A field that is missing counts as the empty string in the tests on it.
abbrev pub text_of : Option Text → Text
text_of o = or_default o []

abbrev pub non_empty : Text → Option Text
non_empty [] = none
non_empty (c ∷ text) = some (c ∷ text)

abbrev pub error_patterns : List (Text × Text)
error_patterns =
    (codes "insufficient funds", codes "Insufficient funds in wallet to complete this transaction")
    ∷ (
      codes "nonce too low",
      codes "Transaction nonce is too low - try resetting your wallet nonce",
    )
    ∷ (codes "gas required exceeds allowance", codes "Transaction would exceed gas limit")
    ∷ (codes "user rejected", codes "Transaction was rejected by the user")
    ∷ (codes "already registered", codes "This address is already registered")
    ∷ (codes "network error", codes "Network connection error - please check your connection")
    ∷ (codes "deadline expired", codes "Transaction deadline expired - please try again")
    ∷ (
      codes "replacement fee too low",
      codes "Gas price too low for replacement - increase gas price",
    )
    ∷ (codes "transaction underpriced", codes "Gas price too low - increase gas price")
    ∷ []

unfoldable pub first_pattern : Text → List (Text × Text) → Option Text
first_pattern message [] = none
first_pattern message ((pattern_text, readable) ∷ rest) =
    if includes pattern_text message then some readable else first_pattern message rest

-- `message || "Unknown error"`
abbrev pub or_unknown : Text → Text
or_unknown [] = codes "Unknown error"
or_unknown (c ∷ text) = c ∷ text
