-- ===== src/CommandLine/Commands.antt =====
-- The commands of src/cli.ts and their handlers. What yargs itself refuses (an unknown command, a
-- missing or conflicting option) does not come here.
use ocn_registry_v.Base.{
  ℕ, Bool, not, Option, none, some, List, [], ◌==◌, numbers_eq, if◌then◌else◌,
}
use ocn_registry_v.Base.Lists.{any}
use ocn_registry_v.Text.{Text, codes}
use ocn_registry_v.Client.Failures.{new_error, is_full}
use ocn_registry_v.Client.Types.{Call, Node, PartyDetails}
use ocn_registry_v.Client.Wrapper.{Outcome, done, failed, Wrapper, ◌>=>◌}
use ocn_registry_v.Client.Payments.{PaymentCall, PaymentStatus}
use ocn_registry_v.Client.Oracle.{Listed}
use ocn_registry_v.Client.Registry
use ocn_registry_v.CommandLine.Arguments.{
  Machine, Services, Arguments, signer_of, new_registry, new_payment_manager, new_oracle,
}
use ocn_registry_v.CommandLine.Certificates.{
  Encoded, read_json_certificates, encode_certificates, all_roles,
}

-- Whom get-party and is-party-registered look for.
pub record PartyQuery : Type 0 where
  pub address : Text
  pub credentials : Option (Text × Text)

pub record PartyOptions : Type 0 where
  pub country_code : Text
  pub party_id : Text
  pub certificates : List Text
  pub operator : Text
  pub name : Text
  pub url : Text

pub data QueryCommand : Type 0 where
  get_registry_contract_address get_payment_contract_address list_nodes : QueryCommand
  get_node is_node_registered : Text → QueryCommand
  is_signer_registered_as_node is_signer_registered_as_party get_signer_address : QueryCommand
  get_party is_party_registered : PartyQuery → QueryCommand
  list_parties : QueryCommand
  get_payment_status : Text → QueryCommand
  get_funding_yearly_amount get_ocn_payment_manager : QueryCommand
  get_all_providers : Text → QueryCommand
  get_provider : Text → Text → Text → QueryCommand

pub data ChangeCommand : Type 0 where
  set_node set_node_raw : Text → ChangeCommand
  delete_node delete_node_raw : ChangeCommand
  set_party : PartyOptions → ChangeCommand
  delete_party : ChangeCommand
  pay withdraw : Text → ChangeCommand
  set_provider : Text → Text → Text → Text → ChangeCommand

-- A command that only asks the contracts, or one that sends a transaction.
pub data Command : Type 0 where
  query : QueryCommand → Command
  change : ChangeCommand → Command

-- What is printed at the end, before it is formatted.
pub data Printed : Type 0 where
  text : Text → Printed
  answer : Bool → Printed
  nodes : List Node → Printed
  party : PartyDetails → Printed
  parties : List PartyDetails → Printed
  sent : Call → Printed
  status : Option PaymentStatus → Printed
  amount : Option ℕ → Printed
  paid : PaymentCall → Printed
  provider : Listed → Printed
  providers : List Listed → Printed

-- The transactions that went out, to each of the contracts.
pub record World : Type 0 where
  pub calls : List Call
  pub payments : List PaymentCall
  pub added : List Listed

abbrev pub no_key : Printed
no_key = text (codes "No signer private key provided.")

abbrev pub text_or : Text → Option Text → Printed
text_or missing none = text missing
text_or missing (some t) = text t

abbrev pub party_or_missing : Option PartyDetails → Printed
party_or_missing none = text (codes "OCPI Party not listed in registry.")
party_or_missing (some p) = party p

module _ (M : Machine) (V : Services) (a : Arguments) where
  -- A query of the registry, which needs no key.
  abbrev pub asked : (Wrapper → Outcome Printed) → Outcome Printed
  asked f = new_registry M V a [] a.ocn_registry >=> f

  abbrev pub asked_payments : (Wrapper → Outcome Printed) → Outcome Printed
  asked_payments f = new_payment_manager M V a [] a.ocn_payment_manager >=> f

  abbrev pub asked_oracle : Text → (Wrapper → Outcome Printed) → Outcome Printed
  asked_oracle role f = new_oracle M V a role [] >=> f

  -- Whether one of some addresses is that of the signer's key.
  unfoldable pub has_signer : List Text → Outcome Printed
  has_signer addresses =
      if not (is_full (signer_of M V a))
      then done no_key
      else V.ethers.wallet_of (signer_of M V a) >=> λ wallet.
          done (answer (any (λ x. V.decoder.to_lower x == V.decoder.to_lower wallet) addresses))

  -- With the check of `getPartyBuilder`.
  unfoldable pub find_party : PartyQuery → List Call → Outcome (Option PartyDetails)
  find_party q h =
      if is_full q.address
      then (new_registry M V a [] a.ocn_registry >=> λ w.
          Registry.get_party_by_address V.ethers V.decoder (V.registry w) w q.address h)
      else elim q.credentials [
        | none ↦ failed (new_error (codes "Expected one of the following arguments: address, ocpi"))
        | some c ↦ new_registry M V a [] a.ocn_registry >=> λ w.
            Registry.get_party_by_ocpi V.ethers V.decoder (V.registry w) w c.0 c.1 h
      ]

  -- What a command makes of its client, and of what the client sent.
  abbrev pub sends :
      Outcome Wrapper
      → (Wrapper → List Call → Outcome Call × List Call)
      → World
      → Outcome Printed × World
  sends (failed e) f s = (failed e, s)
  sends (done w) f s = let r = f w s.calls in (r.0 >=> λ c. done (sent c), record s { calls = r.1 })

  abbrev pub sends_payment :
      Outcome Wrapper
      → (Wrapper → List PaymentCall → Outcome PaymentCall × List PaymentCall)
      → World
      → Outcome Printed × World
  sends_payment (failed e) f s = (failed e, s)
  sends_payment (done w) f s =
      let r = f w s.payments in (r.0 >=> λ c. done (paid c), record s { payments = r.1 })

  abbrev pub sends_provider :
      Outcome Wrapper
      → (Wrapper → List Listed → Outcome Listed × List Listed)
      → World
      → Outcome Printed × World
  sends_provider (failed e) f s = (failed e, s)
  sends_provider (done w) f s =
      let r = f w s.added in (r.0 >=> λ c. done (provider c), record s { added = r.1 })

  -- `registry.setParty` with the encoded certificates. A role without a number is refused by ethers
  -- after the checks of the method.
  unfoldable pub send_party :
      PartyOptions → List Encoded → Wrapper → List Call → Outcome Call × List Call
  send_party o encoded w h = elim (all_roles encoded) [
    | some roles ↦
        Registry.set_party V.ethers V.decoder (V.registry w) w o.country_code o.party_id roles
          o.operator o.name o.url h
    | none ↦ (
      Registry.party_checks V.ethers V.decoder (V.registry w) w o.country_code o.party_id o.operator
            o.url
          >=> λ _. Registry.caught V.ethers V.decoder (V.registry w) w (failed M.no_role),
      h,
    )
  ]

  unfoldable pub set_party_handler : PartyOptions → Wrapper → List Call → Outcome Call × List Call
  set_party_handler o w h = elim (encode_certificates M (read_json_certificates M o.certificates)) [
    | failed e ↦ (failed e, h)
    | done encoded ↦ send_party o encoded w h
  ]
