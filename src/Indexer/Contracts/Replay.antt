-- ===== src/Indexer/Contracts/Replay.antt =====
-- The tables of the certificates, the coin and the proxy after any events.
use ocn_registry_v.Base.{◌≡◌, refl, ap, ◌∙◌, Option, none, some, List, [], ◌∷◌}
use ocn_registry_v.Base.Dict.{Dict}
use ocn_registry_v.Indexer.Schema.{Bytes, bytes_eq, Host}
use ocn_registry_v.Indexer.Handlers.{origin_of, id_of}
use ocn_registry_v.Indexer.Contracts.Written.{HaveOwnKeys, rows, write, written, written-rows}
use ocn_registry_v.Indexer.Contracts.Entities.{
  EmpVerified, CertificateVerified, Approval, Transfer, Upgraded, VerifiedEvent, ContractStore,
  nothing_saved,
}
use ocn_registry_v.Indexer.Contracts.Handling.{
  ContractEvent, emp_verified, cpo_verified, other_verified, approval, transfer, upgraded,
  handle_contract, handle_contract_all, contract_meta, handle_emp_verified, handle_cpo_verified,
  handle_other_verified, handle_approval, handle_transfer, handle_upgraded,
}

-- What each event adds to each table.
abbrev pub certificate_of : VerifiedEvent → CertificateVerified
certificate_of e = record {
  sign_address = e.signer;
  identifier = e.identifier;
  name = e.name;
  owner = e.owner;
  block_number = e.meta.block_number;
}

abbrev pub emp_row : ContractEvent → Option EmpVerified
emp_row (emp_verified e) = some (record {
  sign_address = e.signer;
  identifier = e.identifier;
  name = e.name;
  marktfunktion = e.marktfunktion;
  lieferant = e.lieferant;
  bilanzkreis = e.bilanzkreis;
  vatid = e.vatid;
  billing_address = e.billing_address;
  billing_city = e.billing_city;
  billing_postal_code = e.billing_postal_code;
  billing_country = e.billing_country;
  billing_email = e.billing_email;
  owner = e.owner;
  block_number = e.meta.block_number;
})
emp_row e = none

abbrev pub cpo_row : ContractEvent → Option CertificateVerified
cpo_row (cpo_verified e) = some (certificate_of e)
cpo_row e = none

abbrev pub other_row : ContractEvent → Option CertificateVerified
other_row (other_verified e) = some (certificate_of e)
other_row e = none

abbrev pub transfer_row : ContractEvent → Option Transfer
transfer_row (transfer e) = some (record {
  sender = e.sender;
  receiver = e.receiver;
  value = e.value;
  origin = origin_of e.meta;
})
transfer_row e = none

abbrev pub approval_row : ContractEvent → Option Approval
approval_row (approval e) =
    some
      (record { owner = e.owner; spender = e.spender; value = e.value; origin = origin_of e.meta })
approval_row e = none

abbrev pub upgraded_row : ContractEvent → Option Upgraded
upgraded_row (upgraded e) =
    some (record { implementation = e.implementation; origin = origin_of e.meta })
upgraded_row e = none

module _ (H : Host) where
  abbrev pub contract_key : ContractEvent → Bytes
  contract_key e = id_of H (contract_meta H e)

  follows :
      {V : Type 0} (table : ContractStore → Dict Bytes V) (row : ContractEvent → Option V)
      → ((e : ContractEvent) (s : ContractStore)
          → table (handle_contract H e s) ≡ write contract_key row e (table s))
      → (es : List ContractEvent) (s : ContractStore)
      → table (handle_contract_all H es s) ≡ written contract_key row es (table s)
  unfolding handle_contract_all written
  follows table row one [] s = refl
  follows table row one (e ∷ es) s =
      follows table row one es (handle_contract H e s) ∙ ap (written contract_key row es) (one e s)

  emp_step :
      (e : ContractEvent) (s : ContractStore)
      → (handle_contract H e s).emp_verified_table
        ≡ write contract_key emp_row e s.emp_verified_table
  unfolding handle_contract handle_emp_verified handle_cpo_verified handle_other_verified
      handle_approval handle_transfer handle_upgraded
  emp_step (emp_verified e) s = refl
  emp_step (cpo_verified e) s = refl
  emp_step (other_verified e) s = refl
  emp_step (approval e) s = refl
  emp_step (transfer e) s = refl
  emp_step (upgraded e) s = refl

  cpo_step :
      (e : ContractEvent) (s : ContractStore)
      → (handle_contract H e s).cpo_verified_table
        ≡ write contract_key cpo_row e s.cpo_verified_table
  unfolding handle_contract handle_emp_verified handle_cpo_verified handle_other_verified
      handle_approval handle_transfer handle_upgraded
  cpo_step (emp_verified e) s = refl
  cpo_step (cpo_verified e) s = refl
  cpo_step (other_verified e) s = refl
  cpo_step (approval e) s = refl
  cpo_step (transfer e) s = refl
  cpo_step (upgraded e) s = refl

  other_step :
      (e : ContractEvent) (s : ContractStore)
      → (handle_contract H e s).other_verified_table
        ≡ write contract_key other_row e s.other_verified_table
  unfolding handle_contract handle_emp_verified handle_cpo_verified handle_other_verified
      handle_approval handle_transfer handle_upgraded
  other_step (emp_verified e) s = refl
  other_step (cpo_verified e) s = refl
  other_step (other_verified e) s = refl
  other_step (approval e) s = refl
  other_step (transfer e) s = refl
  other_step (upgraded e) s = refl

  approval_step :
      (e : ContractEvent) (s : ContractStore)
      → (handle_contract H e s).approval_table ≡ write contract_key approval_row e s.approval_table
  unfolding handle_contract handle_emp_verified handle_cpo_verified handle_other_verified
      handle_approval handle_transfer handle_upgraded
  approval_step (emp_verified e) s = refl
  approval_step (cpo_verified e) s = refl
  approval_step (other_verified e) s = refl
  approval_step (approval e) s = refl
  approval_step (transfer e) s = refl
  approval_step (upgraded e) s = refl

  transfer_step :
      (e : ContractEvent) (s : ContractStore)
      → (handle_contract H e s).transfer_table ≡ write contract_key transfer_row e s.transfer_table
  unfolding handle_contract handle_emp_verified handle_cpo_verified handle_other_verified
      handle_approval handle_transfer handle_upgraded
  transfer_step (emp_verified e) s = refl
  transfer_step (cpo_verified e) s = refl
  transfer_step (other_verified e) s = refl
  transfer_step (approval e) s = refl
  transfer_step (transfer e) s = refl
  transfer_step (upgraded e) s = refl

  upgraded_step :
      (e : ContractEvent) (s : ContractStore)
      → (handle_contract H e s).upgraded_table ≡ write contract_key upgraded_row e s.upgraded_table
  unfolding handle_contract handle_emp_verified handle_cpo_verified handle_other_verified
      handle_approval handle_transfer handle_upgraded
  upgraded_step (emp_verified e) s = refl
  upgraded_step (cpo_verified e) s = refl
  upgraded_step (other_verified e) s = refl
  upgraded_step (approval e) s = refl
  upgraded_step (transfer e) s = refl
  upgraded_step (upgraded e) s = refl

  replay :
      {V : Type 0} (table : ContractStore → Dict Bytes V) (row : ContractEvent → Option V)
      → ((e : ContractEvent) (s : ContractStore)
          → table (handle_contract H e s) ≡ write contract_key row e (table s))
      → table nothing_saved ≡ []
      → (es : List ContractEvent) → HaveOwnKeys contract_key es
      → table (handle_contract_all H es nothing_saved) ≡ rows contract_key row es
  replay table row one empty es own =
      follows table row one es nothing_saved
      ∙ ap (written contract_key row es) empty
      ∙ written-rows contract_key row es own

  -- After any events of the certificate verifier, the stable coin and the proxy whose identifiers differ, each
  -- of the six tables holds one row for each event of its kind, in the order of the events, with what the
  -- event said and its block, and nothing else: no verified certificate and no transfer is lost or overwritten.
  pub contracts_replay :
      (es : List ContractEvent)
      → HaveOwnKeys contract_key es
      → ((handle_contract_all H es nothing_saved).emp_verified_table ≡ rows contract_key emp_row es)
        × ((handle_contract_all H es nothing_saved).cpo_verified_table
            ≡ rows contract_key cpo_row es)
        × ((handle_contract_all H es nothing_saved).other_verified_table
            ≡ rows contract_key other_row es)
        × ((handle_contract_all H es nothing_saved).approval_table
            ≡ rows contract_key approval_row es)
        × ((handle_contract_all H es nothing_saved).transfer_table
            ≡ rows contract_key transfer_row es)
        × ((handle_contract_all H es nothing_saved).upgraded_table
            ≡ rows contract_key upgraded_row es)
  contracts_replay es own = (
    replay (λ s. s.emp_verified_table) emp_row emp_step refl es own,
    replay (λ s. s.cpo_verified_table) cpo_row cpo_step refl es own,
    replay (λ s. s.other_verified_table) other_row other_step refl es own,
    replay (λ s. s.approval_table) approval_row approval_step refl es own,
    replay (λ s. s.transfer_table) transfer_row transfer_step refl es own,
    replay (λ s. s.upgraded_table) upgraded_row upgraded_step refl es own,
  )
