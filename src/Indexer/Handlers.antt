-- ===== src/Indexer/Handlers.antt =====
-- thegraph-indexer/ocn-registry-oli/src/ocn-registry-oli.ts: the handlers. An entity is written as it
-- is saved, all fields at once; `load` is a lookup.
use ocn_registry_v.Base.{
  String, ◌<>◌, Bool, true, false, Option, none, some, map, string_eq, is_some, if◌then◌else◌,
}
use ocn_registry_v.Base.Dict.{lookup, insert}
use ocn_registry_v.Indexer.Schema.{
  Bytes, bytes_eq, Host, Meta, OperatorUpdateEvent, OwnershipTransferredEvent, PartyDeleteEvent,
  PartyUpdateEvent, RoleAdminChangedEvent, RoleEvent, Origin, Listing, Party, Store,
  get_payment_status, get_cv_status, get_role,
}

abbrev pub origin_of : Meta → Origin
origin_of m = record {
  block_number = m.block_number;
  block_timestamp = m.block_timestamp;
  transaction_hash = m.transaction_hash;
}

module _ (H : Host) where
  -- `event.transaction.hash.concatI32(event.logIndex.toI32())`
  abbrev pub id_of : Meta → Bytes
  id_of m = H.concat_i32 m.transaction_hash m.log_index

  abbrev pub listing_of_delete : PartyDeleteEvent → Listing
  listing_of_delete e = record {
    country_code = H.to_text e.country_code;
    party_id = H.to_text e.party_id;
    party_address = H.to_hex_string e.party_address;
    roles = map get_role e.roles;
    name = e.name;
    url = e.url;
    payment_status = get_payment_status e.payment_status;
    cv_status = get_cv_status e.cv_status;
    active = e.active;
  }

  abbrev pub listing_of_update : PartyUpdateEvent → Listing
  listing_of_update e = record {
    country_code = H.to_text e.country_code;
    party_id = H.to_text e.party_id;
    party_address = H.to_hex_string e.party_address;
    roles = map get_role e.roles;
    name = e.name;
    url = e.url;
    payment_status = get_payment_status e.payment_status;
    cv_status = get_cv_status e.cv_status;
    active = e.active;
  }

  unfoldable pub handle_operator_update : OperatorUpdateEvent → Store → Store
  handle_operator_update e s = record s {
    operator_updates =
        insert (id_of e.meta)
          (record { operator = e.operator; domain = e.domain; origin = origin_of e.meta })
          s.operator_updates;
    operators = insert (H.to_hex_string e.operator) (record { domain = e.domain }) s.operators;
  }

  unfoldable pub handle_ownership_transferred : OwnershipTransferredEvent → Store → Store
  handle_ownership_transferred e s = record s {
    ownership_transfers =
        insert (id_of e.meta)
          (record { old_admin = e.old_admin; new_admin = e.new_admin; origin = origin_of e.meta })
          s.ownership_transfers;
  }

  -- The key that the deletion looks under.
  abbrev pub deleted_key : PartyDeleteEvent → String
  deleted_key e = H.to_text e.country_code <> H.to_text e.party_id

  unfoldable pub handle_party_delete : PartyDeleteEvent → Store → Store
  handle_party_delete e s = record s {
    party_deletes =
        insert (id_of e.meta) (record { listing = listing_of_delete e; origin = origin_of e.meta })
          s.party_deletes;
    parties = elim (lookup (deleted_key e) s.parties) [
      | none ↦ s.parties
      | some party ↦ insert (deleted_key e) (record party { deleted = true }) s.parties
    ];
  }

  -- The key that the update writes under.
  abbrev pub party_key : PartyUpdateEvent → String
  party_key e = H.to_text e.country_code <> ("/" <> H.to_text e.party_id)

  abbrev pub was_deleted : Option Party → Bool
  was_deleted none = false
  was_deleted (some party) = party.deleted

  unfoldable pub handle_party_update : PartyUpdateEvent → Store → Store
  handle_party_update e s = record s {
    party_updates =
        insert (id_of e.meta)
          (record {
            listing = listing_of_update e;
            operator_address = e.operator_address;
            origin = origin_of e.meta;
          })
          s.party_updates;
    operators =
        if is_some (lookup (H.to_hex_string e.operator_address) s.operators)
        then s.operators
        else insert (H.to_hex_string e.operator_address) (record { domain = "unknown" })
            s.operators;
    parties =
        insert (party_key e)
          (record {
            listing = listing_of_update e;
            deleted = was_deleted (lookup (party_key e) s.parties);
            operator = H.to_hex_string e.operator_address;
          })
          s.parties;
  }

  unfoldable pub handle_role_admin_changed : RoleAdminChangedEvent → Store → Store
  handle_role_admin_changed e s = record s {
    role_admin_changes =
        insert (id_of e.meta)
          (record {
            role = e.role;
            previous_admin_role = e.previous_admin_role;
            new_admin_role = e.new_admin_role;
            origin = origin_of e.meta;
          })
          s.role_admin_changes;
  }

  unfoldable pub handle_role_granted : RoleEvent → Store → Store
  handle_role_granted e s = record s {
    roles_granted =
        insert (id_of e.meta)
          (record {
            role = e.role;
            account = e.account;
            sender = e.sender;
            origin = origin_of e.meta;
          })
          s.roles_granted;
  }

  unfoldable pub handle_role_revoked : RoleEvent → Store → Store
  handle_role_revoked e s = record s {
    roles_revoked =
        insert (id_of e.meta)
          (record {
            role = e.role;
            account = e.account;
            sender = e.sender;
            origin = origin_of e.meta;
          })
          s.roles_revoked;
  }
