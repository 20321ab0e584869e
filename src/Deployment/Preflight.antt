-- ===== src/Deployment/Preflight.antt =====
-- scripts/deployment/preflight.ts. A variable that is not set is empty: the script treats the two alike.
use ocn_registry_v.Base.{
  Bool, not, ◌&&◌, ◌||◌, List, [], ◌∷◌, ◌++◌, ◌==◌, nat_eq, numbers_eq, map, if◌then◌else◌,
}
use ocn_registry_v.Base.Lists.{length, keep}
use ocn_registry_v.Text.{Text, codes, starts_with, slice, all_hex, split, trim}
use ocn_registry_v.Client.Failures.{new_error, is_full}
use ocn_registry_v.Client.Wrapper.{Outcome, done, failed, ◌>=>◌}

-- `process.env` after `dotenv.config`
pub record Environment : Type 0 where
  pub deployer_private_key : Text
  pub graph_deploy_key : Text
  pub default_operator : Text
  pub allowed_verifiers : Text
  pub stablecoin_address : Text

abbrev pub fail : {A : Type 0} → Text → Outcome A
fail message = failed (new_error message)

abbrev pub ensure : Bool → Text → Outcome (Unit {0})
ensure b message = if b then done tt else fail message

abbrev pub normalize_private_key : Text → Text
normalize_private_key key = if starts_with (codes "0x") key then key else codes "0x" ++ key

-- `/^0x[a-fA-F0-9]{64}$/.test(key)`
unfoldable pub is_private_key : Text → Bool
is_private_key key =
    starts_with (codes "0x") key && length (slice 2 key) == 64 && all_hex (slice 2 key)

unfoldable pub assert_private_key : Text → Text → Outcome (Unit {0})
assert_private_key name value = ensure (is_full value) (name ++ codes " is required.") >=> λ _.
    ensure (is_private_key (normalize_private_key value))
      (codes "Invalid " ++ name ++ codes " format. Expected 64 hex chars (0x prefix optional).")

unfoldable pub parse_allowed_verifiers : Text → List Text
parse_allowed_verifiers raw =
    if not (is_full raw) then [] else keep is_full (map trim (split b',' raw))

-- `isAddress` of ethers is a parameter.
module _ (is_address : Text → Bool) where
  unfoldable pub assert_address : Text → Text → Outcome (Unit {0})
  assert_address name value = ensure (is_full value) (name ++ codes " is required.") >=> λ _.
      ensure (is_address value) (codes "Invalid " ++ name ++ codes ": " ++ value)

  unfoldable pub check_verifiers : List Text → Outcome (Unit {0})
  check_verifiers [] = done tt
  check_verifiers (verifier ∷ verifiers) =
      ensure (is_address verifier) (codes "Invalid verifier in ALLOWED_VERIFIERS: " ++ verifier)
      >=> λ _. check_verifiers verifiers

  -- The checks of one mode only.
  unfoldable pub check_mode : Text → Text → Environment → Outcome (Unit {0})
  check_mode mode stablecoin e =
      (if mode == codes "mock"
        then ensure (not (is_full e.stablecoin_address) || is_address e.stablecoin_address)
            (codes "Invalid STABLECOIN_ADDRESS in environment: " ++ e.stablecoin_address)
        else done tt)
      >=> λ _.
          if mode == codes "external"
          then assert_address (codes "stablecoin-address argument") stablecoin
          else done tt

  -- Whether the key for the subgraph is there, which is what is printed at the end.
  unfoldable pub preflight : Text → Text → Environment → Outcome Bool
  preflight mode stablecoin e =
      ensure (mode == codes "mock" || mode == codes "external") (
        codes "Usage: ts-node scripts/deployment/preflight.ts <mock|external> [stablecoin-address]")
      >=> λ _. assert_private_key (codes "DEPLOYER_PRIVATE_KEY") e.deployer_private_key >=> λ _.
          ensure (not (is_full e.default_operator) || is_address e.default_operator)
            (codes "Invalid DEFAULT_OPERATOR: " ++ e.default_operator)
          >=> λ _. check_verifiers (parse_allowed_verifiers e.allowed_verifiers) >=> λ _.
              check_mode mode stablecoin e >=> λ _. done (is_full e.graph_deploy_key)
