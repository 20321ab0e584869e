-- ===== src/Tests/Watching.antt =====
-- The subgraph behind the contract: a node, a party on it, and the removal of the node.
use mathlib.Core.Option
use ocn_registry_v.Base.{
  ◌≡◌, refl, sym, ap, ◌∙◌, ◌⊎◌, inl, inr, arith, String, Bool, true, ◌||◌, List, [], ◌∷◌, ◌==◌,
  numbers_eq, nat_eq, string_eq, if◌then◌else◌,
}
use ocn_registry_v.Base.Dict.{lookup}
use ocn_registry_v.Text.{Text, codes}
use ocn_registry_v.Client.Types.{node_set, party_set}
use ocn_registry_v.Contract.Administered.{Transaction, run_registry}
use ocn_registry_v.Contract.Administration.{
  RegistryState, public_call, operator_removed, ownership_given, new_registry, administer,
}
use ocn_registry_v.Contract.Logged.{node_if_listed}
use ocn_registry_v.Contract.Operations.{
  transact, set_node_of, delete_node_of, set_party_of, register_party,
}
use ocn_registry_v.Contract.State.{set}
use ocn_registry_v.Contract.Validator.{
  validate_registration, check_roles, check_role, verify_certificate, check_oracle,
}
use ocn_registry_v.Indexer.Events.{
  Event, operator_update, party_update, role_granted, role_revoked, handle_all,
}
use ocn_registry_v.Indexer.Operators.{domain_of}
use ocn_registry_v.Indexer.Schema.{
  Host, Meta, OperatorUpdateEvent, PartyUpdateEvent, RoleEvent, empty,
}
use ocn_registry_v.Indexer.Watching.{Watches, nothing, node, party, other, operators_watched}
use ocn_registry_v.Tests.Contract.{one, two, outside, role_of}
use ocn_registry_v.Tests.Staking.{some_roles, account}

abbrev hex : Text → String
hex a = if a == one then "0x" else "0x2"

abbrev is_address : Text → Bool
is_address a = a == one || a == two

abbrev host : Host
host = record {
  to_hex_string = λ b. if b == 1 ∷ [] then "0x" else "0x2";
  to_text = λ b. "-";
  concat_i32 = λ b i. i ∷ b;
}

one_or_two : (a : Text) → is_address a ≡ true → (a ≡ one) ⊎ (a ≡ two)
one_or_two a h = ground (arith, h)

hex_inj : (a b : Text) → is_address a ≡ true → is_address b ≡ true → hex a ≡ hex b → a ≡ b
unfolding numbers_eq
hex_inj a b h k same = elim (one_or_two a h) [
  | inl p ↦ elim (one_or_two b k) [
    | inl q ↦ p ∙ sym q
    | inr q ↦ absurd (cc (sym (ap hex p) ∙ same ∙ ap hex q))
  ]
  | inr p ↦ elim (one_or_two b k) [
    | inl q ↦ absurd (cc (sym (ap hex p) ∙ same ∙ ap hex q))
    | inr q ↦ p ∙ sym q
  ]
]

abbrev calls : List Transaction
calls =
    (outside, two, public_call (node_set (codes "https://node")))
    ∷ (
      outside,
      one,
      public_call (party_set (codes "0x4445") (codes "0x414243") (role_of one) two [] []),
    )
    ∷ (outside, account 3, ownership_given (account 4))
    ∷ (outside, account 4, operator_removed two)
    ∷ []

abbrev at : Meta
at = record { transaction_hash = 7 ∷ []; log_index = 0; block_number = 1; block_timestamp = 5 }

abbrev domain_event : String → OperatorUpdateEvent
domain_event domain = record { meta = at; operator = 2 ∷ []; domain = domain }

abbrev party_event : PartyUpdateEvent
party_event = record {
  meta = at;
  country_code = 68 ∷ 69 ∷ [];
  party_id = 65 ∷ 66 ∷ 67 ∷ [];
  party_address = 1 ∷ [];
  roles = 1 ∷ [];
  name = "";
  url = "";
  payment_status = 0;
  cv_status = 0;
  active = true;
  operator_address = 2 ∷ [];
}

abbrev role_event : RoleEvent
role_event = record { meta = at; role = 0 ∷ []; account = 4 ∷ []; sender = 3 ∷ [] }

abbrev events : List Event
events =
    operator_update (domain_event "https://node")
    ∷ party_update party_event
    ∷ role_granted role_event
    ∷ role_revoked role_event
    ∷ operator_update (domain_event "")
    ∷ []

abbrev registry : RegistryState (Text → Text → Bool)
registry =
    run_registry some_roles calls (new_registry some_roles (account 3) (account 8) (account 9))

watched : Watches host is_address hex registry.listings.log events
unfolding run_registry administer transact set_node_of delete_node_of set_party_of register_party
    validate_registration check_roles check_role verify_certificate check_oracle set numbers_eq
    nat_eq
watched = node two (domain_event "https://node") refl refl (
    party one _ two party_event refl refl (
      other (role_granted role_event) refl
        (other (role_revoked role_event) refl (node two (domain_event "") refl refl nothing))))

operators_watched_example :
    Option.map codes (domain_of (lookup "0x2" (handle_all host events empty).operators))
    ≡ node_if_listed registry.listings two
unfolding numbers_eq
operators_watched_example =
    operators_watched host is_address hex hex_inj some_roles (account 3) (account 8) (account 9)
      calls events two refl watched
