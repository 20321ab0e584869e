-- ===== src/Indexer/Events.antt =====
-- A chain's events, handled in their order.
use ocn_registry_v.Base.{List, [], ◌∷◌}
use ocn_registry_v.Indexer.Schema.{
  Host, OperatorUpdateEvent, OwnershipTransferredEvent, PartyDeleteEvent, PartyUpdateEvent,
  RoleAdminChangedEvent, RoleEvent, Store,
}
use ocn_registry_v.Indexer.Handlers.{
  handle_operator_update, handle_ownership_transferred, handle_party_delete, handle_party_update,
  handle_role_admin_changed, handle_role_granted, handle_role_revoked,
}

pub data Event : Type 0 where
  operator_update : OperatorUpdateEvent → Event
  ownership_transferred : OwnershipTransferredEvent → Event
  party_delete : PartyDeleteEvent → Event
  party_update : PartyUpdateEvent → Event
  role_admin_changed : RoleAdminChangedEvent → Event
  role_granted role_revoked : RoleEvent → Event

-- The `eventHandlers` of the registry's data source in subgraph.yaml.
unfoldable pub handle : Host → Event → Store → Store
handle H (operator_update e) s = handle_operator_update H e s
handle H (ownership_transferred e) s = handle_ownership_transferred H e s
handle H (party_delete e) s = handle_party_delete H e s
handle H (party_update e) s = handle_party_update H e s
handle H (role_admin_changed e) s = handle_role_admin_changed H e s
handle H (role_granted e) s = handle_role_granted H e s
handle H (role_revoked e) s = handle_role_revoked H e s

unfoldable pub handle_all : Host → List Event → Store → Store
handle_all H [] s = s
handle_all H (e ∷ es) s = handle_all H es (handle H e s)

module _ (H : Host) {P : Store → Type 0}
    (step : (e : Event) (s : Store) → P s → P (handle H e s)) where
  -- What every handler keeps is kept by any run.
  pub handle_all_induction : (es : List Event) (s : Store) → P s → P (handle_all H es s)
  unfolding handle_all
  handle_all_induction [] s h = h
  handle_all_induction (e ∷ es) s h = handle_all_induction es (handle H e s) (step e s h)
