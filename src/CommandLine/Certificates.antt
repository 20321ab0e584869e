-- ===== src/CommandLine/Certificates.antt =====
-- The certificates of a party: `readJsonCertificates` and the encoders of src/lib/helpers.ts, and the
-- roles that the command set-party makes of them.
use ocn_registry_v.Base.{ℕ, Option, none, some, List, [], ◌∷◌, ◌==◌, numbers_eq, if◌then◌else◌}
use ocn_registry_v.Text.{Text, codes}
use ocn_registry_v.Client.Wrapper.{Outcome, done, failed, ◌>=>◌}
use ocn_registry_v.Client.Types.{RoleDetails}
use ocn_registry_v.CommandLine.Arguments.{Machine, JsonCertificate}

-- `Role[role]` of src/lib/types.ts, where it is a number.
unfoldable pub role_index : Text → Option ℕ
role_index role =
    if role == codes "CPO"
    then some 0
    else if role == codes "EMSP"
    then some 1
    else if role == codes "NAP"
    then some 2
    else if role == codes "NSP"
    then some 3
    else if role == codes "OTHER"
    then some 4
    else if role == codes "SCSP"
    then some 5
    else if role == codes "HUB"
    then some 6
    else none

-- The role's number may be missing: ethers finds that later, as it encodes the call.
pub record Encoded : Type 0 where
  pub certificate_data : Text
  pub signature : Text
  pub index : Option ℕ

abbrev with_index : Encoded → Option ℕ → List RoleDetails → Option (List RoleDetails)
with_index e none roles = none
with_index e (some n) roles =
    some
      (record { certificate_data = e.certificate_data; signature = e.signature; role = n } ∷ roles)

-- The roles, if each has a number.
unfoldable pub all_roles : List Encoded → Option (List RoleDetails)
all_roles [] = some []
all_roles (e ∷ es) = elim (all_roles es) [ none ↦ none | some roles ↦ with_index e e.index roles ]

module _ (M : Machine) where
  -- `Promise.all` over the files: one that fails makes it fail.
  unfoldable pub read_all : List Text → Outcome (List JsonCertificate)
  read_all [] = done []
  read_all (path ∷ paths) = M.read_certificate path >=> λ c. read_all paths >=> λ cs. done (c ∷ cs)

  -- An error is printed, and the list is then empty.
  unfoldable pub read_json_certificates : List Text → List JsonCertificate
  read_json_certificates paths = elim (read_all paths) [ failed e ↦ [] | done cs ↦ cs ]

  unfoldable pub encode_emp_certificate : (Text → Option Text) → Outcome Text
  encode_emp_certificate c =
      M.encode_tuple
        (codes
          "tuple(string,string,string,string,string,address,string,string,string,string,string,string)")
        (c (codes "identifier")
          ∷ c (codes "name")
          ∷ c (codes "marktfunktion")
          ∷ c (codes "lieferant")
          ∷ c (codes "bilanzkreis")
          ∷ c (codes "owner")
          ∷ c (codes "vatid")
          ∷ c (codes "billingAddress")
          ∷ c (codes "billingCity")
          ∷ c (codes "billingPostalCode")
          ∷ c (codes "billingCountry")
          ∷ c (codes "billingEmail")
          ∷ [])

  unfoldable pub encode_cpo_certificate : (Text → Option Text) → Outcome Text
  encode_cpo_certificate c =
      M.encode_tuple (codes "tuple(string,string,address)")
        (c (codes "identifier") ∷ c (codes "name") ∷ c (codes "owner") ∷ [])

  unfoldable pub encode_other_certificate : (Text → Option Text) → Outcome Text
  encode_other_certificate c =
      M.encode_tuple (codes "tuple(string,string,address)")
        (c (codes "identifier") ∷ c (codes "name") ∷ c (codes "owner") ∷ [])

  unfoldable pub encode_certificate_signature : JsonCertificate → Outcome Text
  encode_certificate_signature c =
      M.encode_tuple (codes "tuple(bytes32,bytes32,uint8)") (c.r ∷ c.s ∷ c.v ∷ [])

  -- One round of the `map` over the certificates.
  unfoldable pub encode_certificate : JsonCertificate → Outcome Encoded
  encode_certificate c =
      (if c.role == codes "EMSP"
        then encode_emp_certificate c.certificate
        else if c.role == codes "CPO"
        then encode_cpo_certificate c.certificate
        else encode_other_certificate c.certificate)
      >=> λ certificate_data. encode_certificate_signature c >=> λ signature. done (record {
        certificate_data = certificate_data;
        signature = signature;
        index = role_index c.role;
      })

  unfoldable pub encode_certificates : List JsonCertificate → Outcome (List Encoded)
  encode_certificates [] = done []
  encode_certificates (c ∷ cs) =
      encode_certificate c >=> λ e. encode_certificates cs >=> λ es. done (e ∷ es)
