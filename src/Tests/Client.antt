-- ===== src/Tests/Client.antt =====
-- A registry with one node, and the client library on it.
use ocn_registry_v.Base.{
  ℕ, ◌+◌, ◌≡◌, Bool, true, ◌&&◌, Option, none, some, [], ◌∷◌, map, ◌==◌, nat_eq, numbers_eq, leb,
  if◌then◌else◌,
}
use ocn_registry_v.Base.Dict.{Dict}
use ocn_registry_v.Base.Lists.{length}
use ocn_registry_v.Text.{Text, codes}
use ocn_registry_v.Client.Failures.{Decoder, new_error, is_full}
use ocn_registry_v.Client.Types.{Network, RawParty, node_set, party_set}
use ocn_registry_v.Client.Wrapper.{Outcome, done, failed, is_done, Ethers, Wrapper, Provider}
use ocn_registry_v.Client.Registry.{set_node, set_party}
use ocn_registry_v.Client.Sending.{is_free, after, set_party_sends, set_node_sends}
use ocn_registry_v.Client.Payments.{
  PaymentNetwork, paid, withdrawn, pay, withdraw, payments_after, payments_sent,
}

abbrev pub readable : Text → Outcome Text
readable [] = failed (new_error (codes "Invalid URL"))
readable (c ∷ url) = done (c ∷ url)

abbrev pub ethers : Ethers
ethers = record {
  is_address = is_full;
  wallet_of = readable;
  origin = readable;
  to_upper = λ text. text;
  hexlify = λ text. text;
  to_utf8_string = λ text. done text;
  show = λ n. codes "2";
}

abbrev lower : ℕ → ℕ
lower c = if leb 65 c && leb c 90 then c + 32 else c

abbrev pub decoder : Decoder
decoder = record {
  parse_error = λ raw. none;
  parse_extra = λ raw. none;
  decode_string = λ raw. none;
  to_lower = map lower;
}

abbrev url_of : Text → Text
url_of a = if a == 1 ∷ [] then codes "https://ocn.org" else []

abbrev no_party : RawParty
no_party = record {
  party_address = [];
  country_code = [];
  party_id = [];
  roles = [];
  payment_status = 0;
  operator_address = [];
  name = [];
  url = [];
  active = Bool.false;
}

abbrev network : Network
network = record {
  get_node = λ h a. done (url_of a);
  get_node_operators = λ h. done ((1 ∷ []) ∷ (2 ∷ []) ∷ []);
  get_party_details_by_address = λ h a. done no_party;
  get_party_details_by_ocpi = λ h cc id. done no_party;
  get_parties = λ h. done [];
  payment_manager = λ h. done [];
  accept = λ h c. done tt;
  wait = λ h c. done tt;
  sign_node = λ a domain. record { v = 27; r = a; s = domain };
  sign_deletion = λ a. record { v = 27; r = a; s = a };
}

abbrev pub wrapper : Option Text → Bool → Wrapper
wrapper wallet is_writable = record {
  rpc_url = codes "http://localhost:8545";
  wallet = wallet;
  is_writable = is_writable;
  target = codes "0x";
}

abbrev first_owner : Wrapper
first_owner = wrapper (some (1 ∷ [])) true

abbrev second_owner : Wrapper
second_owner = wrapper (some (2 ∷ [])) true

abbrev domain : Text
domain = codes "https://x.org"

set_party_sends_example :
    (set_party ethers decoder network first_owner
      (codes "DE")
      (codes "ABC")
      []
      (1 ∷ [])
      []
      domain
      []).1
    ≡ (if true
          && length (codes "DE") == 2
          && length (codes "ABC") == 3
          && is_full (1 ∷ [])
          && is_done (readable domain)
        then after ethers decoder network first_owner [] (
            party_set
              (ethers.hexlify (ethers.to_upper (codes "DE")))
              (ethers.hexlify (ethers.to_upper (codes "ABC")))
              []
              (1 ∷ [])
              []
              domain)
        else [])
set_party_sends_example =
    set_party_sends ethers decoder network first_owner (codes "DE") (codes "ABC") [] (1 ∷ []) []
      domain []

set_node_sends_example : (set_node ethers decoder network second_owner domain []).1 ≡ (
    if true && is_full (2 ∷ []) && is_free ethers decoder network second_owner [] (2 ∷ [])
    then after ethers decoder network second_owner [] (node_set domain)
    else [])
set_node_sends_example = set_node_sends ethers decoder network second_owner domain []

abbrev pub networks : Dict Text Provider
networks =
    (
      codes "localhost",
      record { protocol = codes "http"; host = codes "localhost"; port = codes "8545"; url = none },
    )
    ∷ []

abbrev taken : Outcome (Unit {0})
taken = done tt

abbrev timed_out : Outcome (Unit {0})
timed_out = failed (new_error (codes "timeout"))

-- It takes every transaction, and waits for none.
abbrev payment_network : PaymentNetwork
payment_network = record {
  get_payment_status = λ h a. done none;
  get_funding_yearly_amount = λ h. done 0;
  accept = λ h c. done tt;
  wait = λ h c. timed_out;
}

payments_sent_example :
    ((pay ethers decoder payment_network first_owner (3 ∷ []) []).1
      ≡ payments_after ethers decoder payment_network first_owner [] (paid (3 ∷ [])))
    × ((withdraw ethers decoder payment_network first_owner (3 ∷ []) []).1
        ≡ payments_after ethers decoder payment_network first_owner [] (withdrawn (3 ∷ [])))
    × (is_done (pay ethers decoder payment_network first_owner (3 ∷ []) []).0
        ≡ (true && is_done taken && is_done timed_out))
    × (is_done (withdraw ethers decoder payment_network first_owner (3 ∷ []) []).0
        ≡ (true && is_done taken && is_done timed_out))
payments_sent_example = payments_sent ethers decoder payment_network first_owner (3 ∷ []) []
