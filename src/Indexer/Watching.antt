-- ===== src/Indexer/Watching.antt =====
-- The subgraph behind the contract: thegraph-indexer/ocn-registry-oli/src/ocn-registry-oli.ts handles the
-- events of contracts/OcnRegistry.sol.
use mathlib.Core.Option
use ocn_registry_v.Base.{
  ◌≡◌, refl, arith, String, Bool, true, false, none, List, [], ◌∷◌, ◌==◌, numbers_eq, string_eq,
}
use ocn_registry_v.Base.Dict.{lookup}
use ocn_registry_v.Text.{Text, codes}
use ocn_registry_v.Contract.Access.{Roles}
use ocn_registry_v.Contract.Administered.{Transaction, run_registry}
use ocn_registry_v.Contract.Administration.{new_registry}
use ocn_registry_v.Contract.Logged.{
  last_node, is_served, node_if_listed, IsLogged, run_registry-IsLogged,
}
use ocn_registry_v.Contract.State.{
  PartyRow, LogEntry, operator_updated, party_updated, party_deleted, State,
}
use ocn_registry_v.Indexer.Schema.{
  Host, OperatorUpdateEvent, PartyDeleteEvent, PartyUpdateEvent, empty,
}
use ocn_registry_v.Indexer.Events.{Event, operator_update, party_delete, party_update, handle_all}
use ocn_registry_v.Indexer.Operators.{
  domain_of, domain_in, mentions, last_domain, is_mentioned, operators_replay,
}

-- The events of roles and of ownership, which the log of the listings leaves out.
abbrev is_of_listings : Event → Bool
is_of_listings (operator_update e) = true
is_of_listings (party_update e) = true
is_of_listings (party_delete e) = true
is_of_listings _ = false

-- The contract's addresses are texts with checksum, and `hex` is the subgraph's text of one.
module _ (H : Host) (is_address : Text → Bool) (hex : Text → String) where
  -- The chain's events are those of the log, in its order, with others between them.
  pub data Watches : List LogEntry → List Event → Type 0 where
    nothing : Watches [] []
    node :
        {log : List LogEntry} {es : List Event}
        → (operator : Text) (e : OperatorUpdateEvent) → is_address operator ≡ true
        → H.to_hex_string e.operator ≡ hex operator
        → Watches log es
        → Watches (operator_updated operator (codes e.domain) ∷ log) (operator_update e ∷ es)
    party :
        {log : List LogEntry} {es : List Event}
        → (owner : Text) (row : PartyRow) (operator : Text) (e : PartyUpdateEvent)
        → is_address operator ≡ true
        → H.to_hex_string e.operator_address ≡ hex operator
        → Watches log es
        → Watches (party_updated owner row operator ∷ log) (party_update e ∷ es)
    deletion :
        {log : List LogEntry} {es : List Event}
        → (owner : Text) (row : PartyRow) (e : PartyDeleteEvent) → Watches log es
        → Watches (party_deleted owner row ∷ log) (party_delete e ∷ es)
    other :
        {log : List LogEntry} {es : List Event}
        → (e : Event) → is_of_listings e ≡ false
        → Watches log es
        → Watches log (e ∷ es)

  other_says :
      (id : String) (e : Event)
      → is_of_listings e ≡ false
      → (domain_in H id e ≡ none) × (mentions H id e ≡ false)
  other_says id (operator_update e) apart = absurd (cc apart)
  other_says id (party_update e) apart = absurd (cc apart)
  other_says id (party_delete e) apart = absurd (cc apart)
  other_says id _ apart = (refl, refl)

  module _
      (hex_inj : (a b : Text)
        → is_address a ≡ true
        → is_address b ≡ true
        → hex a ≡ hex b
        → a ≡ b) where
    hex_eq : (a b : Text) → is_address a ≡ true → is_address b ≡ true → (hex a == hex b) ≡ (a == b)
    hex_eq a b h k = ground (arith, hex_inj a b h k)

    last_domain-Watches :
        {log : List LogEntry} {es : List Event}
        → (a : Text) → is_address a ≡ true
        → Watches log es
        → Option.map codes (last_domain H (hex a) es) ≡ last_node a log
    unfolding last_domain last_node
    last_domain-Watches a h nothing = ground arith
    last_domain-Watches a h (node operator e there same w) =
        ground (arith, last_domain-Watches a h w, hex_eq a operator h there, same)
    last_domain-Watches a h (party owner row operator e there same w) =
        ground (arith, last_domain-Watches a h w)
    last_domain-Watches a h (deletion owner row e w) = ground (arith, last_domain-Watches a h w)
    last_domain-Watches a h (other e apart w) =
        ground (arith, last_domain-Watches a h w, (other_says (hex a) e apart).0)

    is_mentioned-Watches :
        {log : List LogEntry} {es : List Event}
        → (a : Text) → is_address a ≡ true
        → Watches log es
        → is_mentioned H (hex a) es ≡ is_served a log
    unfolding is_mentioned is_served
    is_mentioned-Watches a h nothing = ground arith
    is_mentioned-Watches a h (node operator e there same w) =
        ground (arith, is_mentioned-Watches a h w)
    is_mentioned-Watches a h (party owner row operator e there same w) =
        ground (arith, is_mentioned-Watches a h w, hex_eq a operator h there, same)
    is_mentioned-Watches a h (deletion owner row e w) = ground (arith, is_mentioned-Watches a h w)
    is_mentioned-Watches a h (other e apart w) =
        ground (arith, is_mentioned-Watches a h w, (other_says (hex a) e apart).1)

    watched_operator :
        (s : State) (es : List Event) (a : Text)
        → is_address a ≡ true
        → IsLogged s
        → Watches s.log es
        → Option.map codes (domain_of (lookup (hex a) (handle_all H es empty).operators))
          ≡ node_if_listed s a
    watched_operator s es a h logged w = ground (
      arith,
      operators_replay H es (hex a),
      last_domain-Watches a h w,
      is_mentioned-Watches a h w,
      logged.told a,
      logged.serving a,
    )

    -- Whatever transactions are made by whomever after the deployment, those of administrators among
    -- them: once the subgraph has handled the events of the log, in its order and with those of roles and of
    -- ownership between them, its table of operators is the contract's. An operator
    -- is in it exactly if it ever had a node, with the domain of its node, which is empty if the node was
    -- deleted. The "unknown" that the handler of a party writes for a missing operator is never there.
    -- The operators are addresses, and different addresses have different texts in the subgraph.
    pub operators_watched :
        (R : Roles) (sender manager validator : Text) (calls : List Transaction) (es : List Event)
        (operator : Text)
        → is_address operator ≡ true
        → Watches (run_registry R calls (new_registry R sender manager validator)).listings.log es
        → Option.map codes (domain_of (lookup (hex operator) (handle_all H es empty).operators))
          ≡ node_if_listed
              (run_registry R calls (new_registry R sender manager validator)).listings
              operator
    operators_watched R sender manager validator calls es operator real watched =
        watched_operator _ es operator real (run_registry-IsLogged R sender manager validator calls)
          watched
