-- ===== src/Indexer/Contracts/Entities.antt =====
-- The events that src/ocn-certificate-verifier.ts, src/euro-stable-coin.ts and src/erc-1967-proxy.ts of
-- thegraph-indexer/ocn-registry-oli read, their entities (schema.graphql), and the tables.
use ocn_registry_v.Base.{ℕ, String, []}
use ocn_registry_v.Base.Dict.{Dict}
use ocn_registry_v.Indexer.Schema.{Bytes, Meta, Origin}

pub record EmpVerifiedEvent : Type 0 where
  pub meta : Meta
  pub signer : Bytes
  pub identifier : String
  pub name : String
  pub marktfunktion : String
  pub lieferant : String
  pub bilanzkreis : String
  pub owner : Bytes
  pub vatid : String
  pub billing_address : String
  pub billing_city : String
  pub billing_postal_code : String
  pub billing_country : String
  pub billing_email : String

-- The events `CPOVerified` and `OtherVerified`, which have the same parameters.
pub record VerifiedEvent : Type 0 where
  pub meta : Meta
  pub signer : Bytes
  pub identifier : String
  pub name : String
  pub owner : Bytes

pub record ApprovalEvent : Type 0 where
  pub meta : Meta
  pub owner : Bytes
  pub spender : Bytes
  pub value : ℕ

pub record TransferEvent : Type 0 where
  pub meta : Meta
  pub sender : Bytes
  pub receiver : Bytes
  pub value : ℕ

pub record UpgradedEvent : Type 0 where
  pub meta : Meta
  pub implementation : Bytes

pub record EmpVerified : Type 0 where
  pub sign_address : Bytes
  pub identifier : String
  pub name : String
  pub marktfunktion : String
  pub lieferant : String
  pub bilanzkreis : String
  pub vatid : String
  pub billing_address : String
  pub billing_city : String
  pub billing_postal_code : String
  pub billing_country : String
  pub billing_email : String
  pub owner : Bytes
  pub block_number : ℕ

-- `CPOVerified` and `OtherVerified`, which have the same fields.
pub record CertificateVerified : Type 0 where
  pub sign_address : Bytes
  pub identifier : String
  pub name : String
  pub owner : Bytes
  pub block_number : ℕ

pub record Approval : Type 0 where
  pub owner : Bytes
  pub spender : Bytes
  pub value : ℕ
  pub origin : Origin

pub record Transfer : Type 0 where
  pub sender : Bytes
  pub receiver : Bytes
  pub value : ℕ
  pub origin : Origin

pub record Upgraded : Type 0 where
  pub implementation : Bytes
  pub origin : Origin

pub record ContractStore : Type 0 where
  pub emp_verified_table : Dict Bytes EmpVerified
  pub cpo_verified_table : Dict Bytes CertificateVerified
  pub other_verified_table : Dict Bytes CertificateVerified
  pub approval_table : Dict Bytes Approval
  pub transfer_table : Dict Bytes Transfer
  pub upgraded_table : Dict Bytes Upgraded

abbrev pub nothing_saved : ContractStore
nothing_saved = record {
  emp_verified_table = [];
  cpo_verified_table = [];
  other_verified_table = [];
  approval_table = [];
  transfer_table = [];
  upgraded_table = [];
}
