-- ===== src/Tests/Directory.antt =====
-- The list of nodes of a registry with one node.
use ocn_registry_v.Base.{◌≡◌, true, some, List, [], ◌∷◌}
use ocn_registry_v.Text.{codes}
use ocn_registry_v.Client.Wrapper.{done}
use ocn_registry_v.Client.Types.{Node, node_set}
use ocn_registry_v.Client.Registry.{get_all_nodes}
use ocn_registry_v.Contract.State.{State}
use ocn_registry_v.Tests.Staking.{some_roles, account}
use ocn_registry_v.Contract.Administration.{public_call, operator_removed, new_registry}
use ocn_registry_v.Contract.Administered.{Transaction, run_registry}
use ocn_registry_v.Contract.Run.{run_own, network}
use ocn_registry_v.Contract.Directory.{Shows, get_all_nodes-Shows}
use ocn_registry_v.Tests.Client.{ethers, decoder, wrapper}
use ocn_registry_v.Tests.Contract.{one, two, outside, sign_node, sign_deletion}

abbrev past : List Transaction
past =
    (outside, one, public_call (node_set (codes "https://ocn.org")))
    ∷ (outside, account 3, operator_removed one)
    ∷ []

abbrev before : State
before =
    (run_registry some_roles past (new_registry some_roles (account 3) [] (account 9))).listings

get_all_nodes-Shows_example :
    (nodes : List Node) × ((get_all_nodes ethers decoder
          (network outside two sign_node sign_deletion [] before)
          (wrapper (some two) true)
          (node_set (codes "https://x.org") ∷ [])
        ≡ done nodes)
      × Shows nodes (run_own outside two (node_set (codes "https://x.org") ∷ []) before).node_of)
get_all_nodes-Shows_example =
    get_all_nodes-Shows ethers decoder outside two sign_node sign_deletion []
      (wrapper (some two) true) some_roles (account 3) (account 9) past
      (node_set (codes "https://x.org") ∷ [])
