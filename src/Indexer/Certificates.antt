-- ===== src/Indexer/Certificates.antt =====
-- `createCertificateEntitiesFromPartyUpdate` of thegraph-indexer/ocn-registry-oli/src/ocn-registry-oli.ts,
-- which reads the certificates out of the call that registered a party. No handler calls it.
use mathlib.Core.Option
use ocn_registry_v.Base.{
  ℕ, ◌+◌, ◌≡◌, refl, ap, ◌∙◌, arith, Option, none, some, List, [], ◌∷◌, ◌==◌, String, nat_eq,
  if◌then◌else◌, ltb,
}
use ocn_registry_v.Base.Dict.{insert}
use ocn_registry_v.Base.Lists.{length}
use ocn_registry_v.Text.{Text, codes, front, slice}
use ocn_registry_v.Indexer.Schema.{Bytes, bytes_eq, Host}
use ocn_registry_v.Indexer.Contracts.Entities.{
  EmpVerified, CertificateVerified, ContractStore, nothing_saved,
}
use ocn_registry_v.Indexer.Contracts.Written.{HaveOwnKeys, rows, write, written, written-rows}

-- What the function reads of the event and its transaction.
pub record PartyCall : Type 0 where
  pub hash : Bytes
  pub sender : Bytes
  pub input : Bytes
  pub log_index : ℕ
  pub block_number : ℕ

-- One of the roles in the call, without its signature.
pub record CalledRole : Type 0 where
  pub certificate_data : Bytes
  pub role : ℕ

pub record EmpCertificate : Type 0 where
  pub identifier : String
  pub name : String
  pub marktfunktion : String
  pub lieferant : String
  pub bilanzkreis : String
  pub owner : Bytes
  pub vatid : String
  pub billing_address : String
  pub billing_city : String
  pub billing_postal_code : String
  pub billing_country : String
  pub billing_email : String

pub record ShortCertificate : Type 0 where
  pub identifier : String
  pub name : String
  pub owner : Bytes

-- `ethereum.decode` at the four types, where `none` is null: the roles of the two calls, and the two
-- kinds of certificate.
pub record Decoding : Type 0 where
  pub set_party : Bytes → Option (List CalledRole)
  pub set_party_raw : Bytes → Option (List CalledRole)
  pub emp : Bytes → Option EmpCertificate
  pub short : Bytes → Option ShortCertificate

module _ (H : Host) (D : Decoding) where
  abbrev selector : Bytes → Text
  selector input = front 10 (codes (H.to_hex_string input))

  abbrev or_no_roles : Option (List CalledRole) → List CalledRole
  or_no_roles none = []
  or_no_roles (some roles) = roles

  unfoldable pub roles_of : PartyCall → List CalledRole
  roles_of c =
      if ltb (length c.input) 4
      then []
      else if selector c.input == codes "0x0799363d"
      then or_no_roles (D.set_party (slice 4 c.input))
      else if selector c.input == codes "0xe1e64995"
      then or_no_roles (D.set_party_raw (slice 4 c.input))
      else []

  abbrev emp_entity : PartyCall → EmpCertificate → EmpVerified
  emp_entity c certificate = record {
    sign_address = c.sender;
    identifier = certificate.identifier;
    name = certificate.name;
    marktfunktion = certificate.marktfunktion;
    lieferant = certificate.lieferant;
    bilanzkreis = certificate.bilanzkreis;
    owner = certificate.owner;
    vatid = certificate.vatid;
    billing_address = certificate.billing_address;
    billing_city = certificate.billing_city;
    billing_postal_code = certificate.billing_postal_code;
    billing_country = certificate.billing_country;
    billing_email = certificate.billing_email;
    block_number = c.block_number;
  }

  abbrev short_entity : PartyCall → ShortCertificate → CertificateVerified
  short_entity c certificate = record {
    sign_address = c.sender;
    identifier = certificate.identifier;
    name = certificate.name;
    owner = certificate.owner;
    block_number = c.block_number;
  }

  abbrev pub base_id : PartyCall → ℕ → Bytes
  base_id c i = H.concat_i32 (H.concat_i32 c.hash c.log_index) i

  abbrev save_emp : PartyCall → ℕ → Option EmpCertificate → ContractStore → ContractStore
  save_emp c i none s = s
  save_emp c i (some certificate) s = record s {
    emp_verified_table = insert (base_id c i) (emp_entity c certificate) s.emp_verified_table;
  }

  abbrev save_cpo : PartyCall → ℕ → Option ShortCertificate → ContractStore → ContractStore
  save_cpo c i none s = s
  save_cpo c i (some certificate) s = record s {
    cpo_verified_table = insert (base_id c i) (short_entity c certificate) s.cpo_verified_table;
  }

  abbrev save_other : PartyCall → ℕ → Option ShortCertificate → ContractStore → ContractStore
  save_other c i none s = s
  save_other c i (some certificate) s = record s {
    other_verified_table = insert (base_id c i) (short_entity c certificate) s.other_verified_table;
  }

  -- The body of the loop.
  unfoldable pub save_certificate : PartyCall → ℕ → CalledRole → ContractStore → ContractStore
  save_certificate c i r s =
      if r.role == 1
      then save_emp c i (D.emp r.certificate_data) s
      else if r.role == 0
      then save_cpo c i (D.short r.certificate_data) s
      else save_other c i (D.short r.certificate_data) s

  unfoldable pub save_certificates : PartyCall → ℕ → List CalledRole → ContractStore → ContractStore
  save_certificates c i [] s = s
  save_certificates c i (r ∷ roles) s = save_certificates c (i + 1) roles (save_certificate c i r s)

  unfoldable pub create_certificate_entities : PartyCall → ContractStore → ContractStore
  create_certificate_entities c s = save_certificates c 0 (roles_of c) s

  -- Each role with its index, and the row that it writes in each table, if any.
  abbrev pub numbered : ℕ → List CalledRole → List (ℕ × CalledRole)
  numbered i [] = []
  numbered i (r ∷ roles) = (i, r) ∷ numbered (i + 1) roles

  abbrev pub role_key : PartyCall → ℕ × CalledRole → Bytes
  role_key c (i, r) = base_id c i

  abbrev pub emp_row : PartyCall → ℕ × CalledRole → Option EmpVerified
  emp_row c (i, r) =
      if r.role == 1 then Option.map (emp_entity c) (D.emp r.certificate_data) else none

  abbrev pub cpo_row : PartyCall → ℕ × CalledRole → Option CertificateVerified
  cpo_row c (i, r) =
      if r.role == 0 then Option.map (short_entity c) (D.short r.certificate_data) else none

  abbrev pub other_row : PartyCall → ℕ × CalledRole → Option CertificateVerified
  other_row c (i, r) =
      if r.role == 1
      then none
      else if r.role == 0
      then none
      else Option.map (short_entity c) (D.short r.certificate_data)

  emp_step :
      (c : PartyCall) (i : ℕ) (r : CalledRole) (s : ContractStore)
      → (save_certificate c i r s).emp_verified_table
        ≡ write (role_key c) (emp_row c) (i, r) s.emp_verified_table
  unfolding save_certificate
  emp_step c i r s = ground arith

  emp_written :
      (c : PartyCall) (i : ℕ) (roles : List CalledRole) (s : ContractStore)
      → (save_certificates c i roles s).emp_verified_table
        ≡ written (role_key c) (emp_row c) (numbered i roles) s.emp_verified_table
  unfolding save_certificates written
  emp_written c i [] s = refl
  emp_written c i (r ∷ roles) s =
      emp_written c (i + 1) roles (save_certificate c i r s)
      ∙ ap (written (role_key c) (emp_row c) (numbered (i + 1) roles)) (emp_step c i r s)

  cpo_step :
      (c : PartyCall) (i : ℕ) (r : CalledRole) (s : ContractStore)
      → (save_certificate c i r s).cpo_verified_table
        ≡ write (role_key c) (cpo_row c) (i, r) s.cpo_verified_table
  unfolding save_certificate
  cpo_step c i r s = ground arith

  cpo_written :
      (c : PartyCall) (i : ℕ) (roles : List CalledRole) (s : ContractStore)
      → (save_certificates c i roles s).cpo_verified_table
        ≡ written (role_key c) (cpo_row c) (numbered i roles) s.cpo_verified_table
  unfolding save_certificates written
  cpo_written c i [] s = refl
  cpo_written c i (r ∷ roles) s =
      cpo_written c (i + 1) roles (save_certificate c i r s)
      ∙ ap (written (role_key c) (cpo_row c) (numbered (i + 1) roles)) (cpo_step c i r s)

  other_step :
      (c : PartyCall) (i : ℕ) (r : CalledRole) (s : ContractStore)
      → (save_certificate c i r s).other_verified_table
        ≡ write (role_key c) (other_row c) (i, r) s.other_verified_table
  unfolding save_certificate
  other_step c i r s = ground arith

  other_written :
      (c : PartyCall) (i : ℕ) (roles : List CalledRole) (s : ContractStore)
      → (save_certificates c i roles s).other_verified_table
        ≡ written (role_key c) (other_row c) (numbered i roles) s.other_verified_table
  unfolding save_certificates written
  other_written c i [] s = refl
  other_written c i (r ∷ roles) s =
      other_written c (i + 1) roles (save_certificate c i r s)
      ∙ ap (written (role_key c) (other_row c) (numbered (i + 1) roles)) (other_step c i r s)

  -- Where the identifiers of the roles differ, the function writes one entity for each role of the call whose
  -- certificate can be decoded, in the order of the roles: of an EMSP in the first table, of a CPO in the
  -- second, of any other role in the third. A certificate that cannot be decoded is passed over.
  pub certificates_created :
      (c : PartyCall)
      → HaveOwnKeys (role_key c) (numbered 0 (roles_of c))
      → let s = create_certificate_entities c nothing_saved in
        (s.emp_verified_table ≡ rows (role_key c) (emp_row c) (numbered 0 (roles_of c)))
        × (s.cpo_verified_table ≡ rows (role_key c) (cpo_row c) (numbered 0 (roles_of c)))
        × (s.other_verified_table ≡ rows (role_key c) (other_row c) (numbered 0 (roles_of c)))
  unfolding create_certificate_entities
  certificates_created c own =
      let roles = numbered 0 (roles_of c) in
      (
        emp_written c 0 (roles_of c) nothing_saved
            ∙ written-rows (role_key c) (emp_row c) roles own,
        cpo_written c 0 (roles_of c) nothing_saved
            ∙ written-rows (role_key c) (cpo_row c) roles own,
        other_written c 0 (roles_of c) nothing_saved
            ∙ written-rows (role_key c) (other_row c) roles own,
      )
