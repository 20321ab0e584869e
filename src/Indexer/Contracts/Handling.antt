-- ===== src/Indexer/Contracts/Handling.antt =====
-- src/ocn-certificate-verifier.ts, src/euro-stable-coin.ts and src/erc-1967-proxy.ts of
-- thegraph-indexer/ocn-registry-oli. Each handler saves one entity.
use ocn_registry_v.Base.{List, [], ◌∷◌}
use ocn_registry_v.Base.Dict.{insert}
use ocn_registry_v.Indexer.Schema.{bytes_eq, Host, Meta}
use ocn_registry_v.Indexer.Handlers.{origin_of, id_of}
use ocn_registry_v.Indexer.Contracts.Entities.{
  EmpVerifiedEvent, VerifiedEvent, ApprovalEvent, TransferEvent, UpgradedEvent, ContractStore,
}

pub data ContractEvent : Type 0 where
  emp_verified : EmpVerifiedEvent → ContractEvent
  cpo_verified other_verified : VerifiedEvent → ContractEvent
  approval : ApprovalEvent → ContractEvent
  transfer : TransferEvent → ContractEvent
  upgraded : UpgradedEvent → ContractEvent

module _ (H : Host) where
  unfoldable pub handle_other_verified : VerifiedEvent → ContractStore → ContractStore
  handle_other_verified e s = record s {
    other_verified_table =
        insert (id_of H e.meta)
          (record {
            sign_address = e.signer;
            identifier = e.identifier;
            name = e.name;
            owner = e.owner;
            block_number = e.meta.block_number;
          })
          s.other_verified_table;
  }

  unfoldable pub handle_cpo_verified : VerifiedEvent → ContractStore → ContractStore
  handle_cpo_verified e s = record s {
    cpo_verified_table =
        insert (id_of H e.meta)
          (record {
            sign_address = e.signer;
            identifier = e.identifier;
            name = e.name;
            owner = e.owner;
            block_number = e.meta.block_number;
          })
          s.cpo_verified_table;
  }

  unfoldable pub handle_emp_verified : EmpVerifiedEvent → ContractStore → ContractStore
  handle_emp_verified e s = record s {
    emp_verified_table =
        insert (id_of H e.meta)
          (record {
            sign_address = e.signer;
            identifier = e.identifier;
            name = e.name;
            marktfunktion = e.marktfunktion;
            lieferant = e.lieferant;
            bilanzkreis = e.bilanzkreis;
            vatid = e.vatid;
            billing_address = e.billing_address;
            billing_city = e.billing_city;
            billing_postal_code = e.billing_postal_code;
            billing_country = e.billing_country;
            billing_email = e.billing_email;
            owner = e.owner;
            block_number = e.meta.block_number;
          })
          s.emp_verified_table;
  }

  unfoldable pub handle_approval : ApprovalEvent → ContractStore → ContractStore
  handle_approval e s = record s {
    approval_table =
        insert (id_of H e.meta)
          (record {
            owner = e.owner;
            spender = e.spender;
            value = e.value;
            origin = origin_of e.meta;
          })
          s.approval_table;
  }

  unfoldable pub handle_transfer : TransferEvent → ContractStore → ContractStore
  handle_transfer e s = record s {
    transfer_table =
        insert (id_of H e.meta)
          (record {
            sender = e.sender;
            receiver = e.receiver;
            value = e.value;
            origin = origin_of e.meta;
          })
          s.transfer_table;
  }

  unfoldable pub handle_upgraded : UpgradedEvent → ContractStore → ContractStore
  handle_upgraded e s = record s {
    upgraded_table =
        insert (id_of H e.meta)
          (record { implementation = e.implementation; origin = origin_of e.meta })
          s.upgraded_table;
  }

  unfoldable pub handle_contract : ContractEvent → ContractStore → ContractStore
  handle_contract (emp_verified e) s = handle_emp_verified e s
  handle_contract (cpo_verified e) s = handle_cpo_verified e s
  handle_contract (other_verified e) s = handle_other_verified e s
  handle_contract (approval e) s = handle_approval e s
  handle_contract (transfer e) s = handle_transfer e s
  handle_contract (upgraded e) s = handle_upgraded e s

  unfoldable pub handle_contract_all : List ContractEvent → ContractStore → ContractStore
  handle_contract_all [] s = s
  handle_contract_all (e ∷ es) s = handle_contract_all es (handle_contract e s)

  abbrev pub contract_meta : ContractEvent → Meta
  contract_meta (emp_verified e) = e.meta
  contract_meta (cpo_verified e) = e.meta
  contract_meta (other_verified e) = e.meta
  contract_meta (approval e) = e.meta
  contract_meta (transfer e) = e.meta
  contract_meta (upgraded e) = e.meta
