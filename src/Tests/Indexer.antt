-- ===== src/Tests/Indexer.antt =====
-- A run of the registry's handlers: a node, a party on it, and the party's deletion.
use ocn_registry_v.Base.{
  ℕ, ◌≡◌, refl, String, true, false, none, some, List, [], ◌∷◌, if◌then◌else◌, string_eq, or_else,
}
use ocn_registry_v.Base.Dict.{lookup}
use ocn_registry_v.Indexer.Schema.{
  Bytes, Host, Meta, OperatorUpdateEvent, PartyDeleteEvent, PartyUpdateEvent, Party, empty,
  bytes_eq,
}
use ocn_registry_v.Indexer.Handlers.{handle_party_delete}
use ocn_registry_v.Indexer.Events.{Event, operator_update, party_update, handle_all}
use ocn_registry_v.Indexer.Deletion.{deletion_is_lost}
use ocn_registry_v.Indexer.Operators.{domain_of, last_domain, is_mentioned, operators_replay}
use ocn_registry_v.Indexer.Rows.{row_of, last_row, parties_replay}

abbrev text_of : Bytes → String
text_of [] = ""
text_of (a ∷ []) = "-"
text_of (a ∷ b ∷ []) = "DE"
text_of (a ∷ b ∷ c ∷ rest) = "ABC"

abbrev host : Host
host = record { to_hex_string = λ b. "0x1"; to_text = text_of; concat_i32 = λ b i. i ∷ b }

abbrev meta : ℕ → Meta
meta i = record { transaction_hash = 9 ∷ []; log_index = i; block_number = 1; block_timestamp = 1 }

abbrev node : OperatorUpdateEvent
node = record { meta = meta 0; operator = 1 ∷ []; domain = "https://ocn.org" }

abbrev registered : PartyUpdateEvent
registered = record {
  meta = meta 1;
  country_code = 68 ∷ 69 ∷ [];
  party_id = 65 ∷ 66 ∷ 67 ∷ [];
  party_address = 2 ∷ [];
  roles = 0 ∷ [];
  name = "Party";
  url = "https://party.org";
  payment_status = 0;
  cv_status = 1;
  active = true;
  operator_address = 1 ∷ [];
}

abbrev removed : PartyDeleteEvent
removed = record {
  meta = meta 2;
  country_code = 68 ∷ 69 ∷ [];
  party_id = 65 ∷ 66 ∷ 67 ∷ [];
  party_address = 2 ∷ [];
  roles = 0 ∷ [];
  name = "Party";
  url = "https://party.org";
  payment_status = 0;
  cv_status = 1;
  active = true;
}

abbrev events : List Event
events = operator_update node ∷ party_update registered ∷ []

deletion_is_lost_example :
    ((k : String) (p : Party)
      → lookup k (handle_all host events empty).parties ≡ some p
      → p.deleted ≡ false)
    × ((handle_party_delete host removed (handle_all host events empty)).parties
        ≡ (handle_all host events empty).parties)
deletion_is_lost_example =
    deletion_is_lost host events removed (tt, ((refl, refl), tt)) (refl, refl)

operators_replay_example :
    domain_of (lookup "0x1" (handle_all host events empty).operators)
    ≡ or_else
        (last_domain host "0x1" events)
        (if is_mentioned host "0x1" events then some "unknown" else none)
operators_replay_example = operators_replay host events "0x1"

parties_replay_example :
    row_of (lookup "DE/ABC" (handle_all host events empty).parties) ≡ last_row host "DE/ABC" events
parties_replay_example = parties_replay host events "DE/ABC"
