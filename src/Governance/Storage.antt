-- ===== src/Governance/Storage.antt =====
-- helper/storeProposals.ts: the proposals of each network, kept in a JSON file. The file is what it
-- parses to, and `none` where there is none. `this.proposals` has own keys only.
use ocn_registry_v.Base.{
  String, Option, none, some, List, [], ◌∷◌, ◌++◌, ◌==◌, string_eq, or_default,
}
use ocn_registry_v.Base.Lists.{find, last}
use ocn_registry_v.Base.Dict.{Dict, lookup, insert}

pub record Proposal : Type 0 where
  pub proposal_id : String
  pub encoded_function : String
  pub description : String

abbrev pub Proposals : Type 0
Proposals = Dict String (List Proposal)

-- The constructor, by `loadProposals`.
unfoldable pub load_proposals : Option Proposals → Proposals
load_proposals file = or_default file []

unfoldable pub get_proposals : String → Proposals → List Proposal
get_proposals network_name proposals = or_default (lookup network_name proposals) []

-- The new value of `this.proposals`, which `saveProposals` writes to the file.
unfoldable pub store_proposal : String → String → String → String → Proposals → Proposals
store_proposal network_name id encoded description proposals =
    let before : List Proposal = or_default (lookup network_name proposals) [] in
    insert network_name
      (before
        ++ (record { proposal_id = id; encoded_function = encoded; description = description }
            ∷ []))
      proposals

unfoldable pub get_proposal_by_encoded_function : String → String → Proposals → Option Proposal
get_proposal_by_encoded_function network_name encoded proposals =
    elim (lookup network_name proposals) [
      | none ↦ none
      | some stored ↦ find (λ p. p.encoded_function == encoded) stored
    ]

unfoldable pub get_proposal_by_id : String → String → Proposals → Option Proposal
get_proposal_by_id network_name id proposals = elim (lookup network_name proposals) [
  | none ↦ none
  | some stored ↦ find (λ p. p.proposal_id == id) stored
]

unfoldable pub get_last_proposal : String → Proposals → Option Proposal
get_last_proposal network_name proposals = elim (lookup network_name proposals) [
  | none ↦ none
  | some stored ↦ last stored
]
