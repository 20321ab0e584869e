-- ===== src/Tests/Administration.antt =====
-- The registry with an administrator, and a validator that is being deployed.
use ocn_registry_v.Base.{
  false, ℕ, Bool, ◌==◌, map, if◌then◌else◌, ◌≡◌, refl, true, not, ◌&&◌, List, [], ◌∷◌, contains,
  numbers_eq, nat_eq,
}
use ocn_registry_v.Text.{Text, codes, split, split_from, trim, trim_end, trim_start, is_space}
use ocn_registry_v.Base.Lists.{keep}
use ocn_registry_v.Client.Types.{node_set, zero_address}
use ocn_registry_v.Client.Wrapper.{Outcome, done, failed, is_done}
use ocn_registry_v.Contract.Administration.{
  public_call, operator_removed, ownership_given, new_validator, ValidatorState, set_verifier,
}
use ocn_registry_v.Contract.Administered.{Transaction}
use ocn_registry_v.Contract.Verifiers.New.{is_distinct}
use ocn_registry_v.Contract.Verifiers.Addresses.{addresses_of, are_readable}
use ocn_registry_v.Contract.State.{set}
use ocn_registry_v.Client.Failures.{new_error}
use ocn_registry_v.Contract.Verifiers.{validator_chain, set_verifiers, allow_verifiers_distinct}
use ocn_registry_v.Deployment.Verifiers.{
  DeployChain, allow_verifiers, verifiers_to_allow, allow_all, allowed_from_env,
}
use ocn_registry_v.Tests.Contract.{outside}
use ocn_registry_v.Tests.Staking.{some_roles, account}

abbrev calls : List Transaction
calls =
    (outside, account 1, public_call (node_set (codes "https://node")))
    ∷ (outside, account 3, operator_removed (account 1))
    ∷ (outside, account 3, ownership_given (account 4))
    ∷ []

-- Texts that ethers reads: those that begin with 0, where the case of letters does not matter.
abbrev lower : ℕ → ℕ
lower n = if n == b'A' then b'a' else n

abbrev encode : Text → Outcome Text
encode [] = failed (new_error (codes "unconfigured name"))
encode (c ∷ raw) =
    if c == b'0' then done (c ∷ map lower raw) else failed (new_error (codes "unconfigured name"))

abbrev listed : Text
listed = codes "0x0A,0x0b"

abbrev fresh_validator : ValidatorState (Text → Text → Bool)
fresh_validator = new_validator some_roles (account 3) (account 9)

abbrev of_validator : DeployChain
of_validator = validator_chain some_roles (account 3) encode (done []) (done []) fresh_validator

allow_verifiers_distinct_example :
    let addresses = addresses_of encode (allowed_from_env listed) in
    let ended = allow_verifiers of_validator (codes "gnosis") listed [] in
    (is_done ended.0 ≡ (
      are_readable encode (allowed_from_env listed)
      && not (contains addresses zero_address)
      && is_distinct addresses))
    × (is_done ended.0 ≡ true
        → (address : Text)
        → (set_verifiers some_roles
              (account 3)
              (addresses_of encode ended.1)
              fresh_validator).allowed_certificate_verifiers
            address
          ≡ contains addresses address)
unfolding numbers_eq
allow_verifiers_distinct_example =
    allow_verifiers_distinct some_roles (account 3) encode (done []) (done []) (codes "gnosis")
      listed (account 9) refl

-- Two spellings of one address are not distinct.
spelled_twice :
    is_done (allow_verifiers of_validator (codes "gnosis") (codes "0x0A,0x0a") []).0 ≡ false
unfolding allow_verifiers verifiers_to_allow allow_all allowed_from_env set_verifiers set_verifier
    addresses_of set numbers_eq nat_eq keep split split_from trim trim_end trim_start is_space
spelled_twice = refl
