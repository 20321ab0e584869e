-- ===== src/CommandLine/Unreadable.antt =====
-- The command set-party with a certificate that cannot be read.
use ocn_registry_v.Base.{◌≡◌, ◌&&◌, ◌==◌, nat_eq, List, [], if◌then◌else◌}
use ocn_registry_v.Base.Lists.{length}
use ocn_registry_v.Client.Failures.{Failure}
use ocn_registry_v.Client.Types.{Call, party_set}
use ocn_registry_v.Client.Wrapper.{failed, is_done, Wrapper}
use ocn_registry_v.Client.Sending.{after, set_party_sends}
use ocn_registry_v.CommandLine.Arguments.{Machine, Services, Arguments}
use ocn_registry_v.CommandLine.Certificates.{
  read_all, read_json_certificates, encode_certificates, all_roles,
}
use ocn_registry_v.CommandLine.Commands.{PartyOptions, set_party_handler, send_party}

-- If one of the files of certificates cannot be read or parsed, set-party goes on all the same: it sends
-- the party with no roles at all, also those of the other files, exactly if there is a signer, the country code
-- has two characters and the party id three, the operator is an address, the URL can be read and the
-- network takes the transaction; else it sends nothing.
pub set_party_unreadable :
    (M : Machine) (V : Services) (a : Arguments) (o : PartyOptions) (w : Wrapper) (h : List Call)
    (e : Failure)
    → read_all M o.certificates ≡ failed e
    → (set_party_handler M V a o w h).1 ≡ (
        if w.is_writable
          && length o.country_code == 2
          && length o.party_id == 3
          && V.ethers.is_address o.operator
          && is_done (V.ethers.origin o.url)
        then after V.ethers V.decoder (V.registry w) w h (
            party_set
              (V.ethers.hexlify (V.ethers.to_upper o.country_code))
              (V.ethers.hexlify (V.ethers.to_upper o.party_id))
              []
              o.operator
              o.name
              o.url)
        else h)
unfolding set_party_handler read_json_certificates encode_certificates send_party all_roles
set_party_unreadable M V a o w h e unreadable =
    rw (set_party_handler, unreadable)
      (set_party_sends V.ethers V.decoder (V.registry w) w o.country_code o.party_id [] o.operator
        o.name o.url h)
