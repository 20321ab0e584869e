-- ===== src/Tests/Refusals.antt =====
-- A contract that refuses a party that is registered already.
use ocn_registry_v.Base.{◌≡◌, refl, true, none, some, [], ◌∷◌, ◌++◌, nat_eq}
use ocn_registry_v.Text.{Text, codes, starts_with}
use ocn_registry_v.Client.Failures.{Failure, Decoder, new_error}
use ocn_registry_v.Client.Types.{Network}
use ocn_registry_v.Client.Wrapper.{Ethers, Wrapper, done, failed}
use ocn_registry_v.Client.Registry.{set_party}
use ocn_registry_v.Client.Refusals.{already_registered, set_party_refused}

abbrev taken : Text
taken = codes "taken"

abbrev raw : Text
raw = codes "0x0123456789"

abbrev refusal : Failure
refusal = record {
  revert = none;
  reason = none;
  data_field = some raw;
  info_data = none;
  info_message = none;
  message = some (codes "execution reverted");
}

abbrev ethers : Ethers
ethers = record {
  is_address = λ a. true;
  wallet_of = λ key. done key;
  origin = λ url. done url;
  to_upper = λ text. text;
  hexlify = λ text. text;
  to_utf8_string = λ text. done text;
  show = λ n. [];
}

abbrev decoder : Decoder
decoder = record {
  parse_error = λ text. some (already_registered taken);
  parse_extra = λ text. none;
  decode_string = λ text. none;
  to_lower = λ text. text;
}

abbrev network : Network
network = record {
  get_node = λ h a. done [];
  get_node_operators = λ h. done [];
  get_party_details_by_address = λ h a. failed refusal;
  get_party_details_by_ocpi = λ h cc id. failed refusal;
  get_parties = λ h. done [];
  payment_manager = λ h. done [];
  accept = λ h c. failed refusal;
  wait = λ h c. done tt;
  sign_node = λ a domain. record { v = 27; r = a; s = domain };
  sign_deletion = λ a. record { v = 27; r = a; s = a };
}

abbrev wrapper : Wrapper
wrapper = record { rpc_url = []; wallet = some (1 ∷ []); is_writable = true; target = [] }

set_party_refused_example :
    set_party ethers decoder network wrapper (codes "DE") (codes "ABC") [] (1 ∷ []) [] [] []
    ≡ (failed (new_error (codes "Party already registered: " ++ taken)), [])
unfolding starts_with nat_eq
set_party_refused_example =
    set_party_refused ethers decoder network wrapper (codes "DE") (codes "ABC") [] (1 ∷ []) [] []
      raw taken refusal [] refl refl (refl, refl, refl, refl)
