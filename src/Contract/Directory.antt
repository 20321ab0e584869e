-- ===== src/Contract/Directory.antt =====
-- The list of nodes that the client library gives, against the contract's own record.
use ocn_registry_v.Base.{
  ◌≡◌, refl, arith, true, false, List, [], ◌∷◌, ◌==◌, numbers_eq, nat_eq, if◌then◌else◌, Bool-cases,
  inl, inr, contains, map,
}
use ocn_registry_v.Base.Lists.{keep, All}
use ocn_registry_v.Text.{Text}
use ocn_registry_v.Client.Failures.{is_full, Decoder}
use ocn_registry_v.Client.Wrapper.{done, Ethers, Wrapper}
use ocn_registry_v.Client.Types.{Call, Node, Signature, Network}
use ocn_registry_v.Client.Registry.{get_all_nodes}
use ocn_registry_v.Client.Nodes.{nodes_of, get_all_nodes_lem}
use ocn_registry_v.Contract.State.{State}
use ocn_registry_v.Contract.Operations.{Outside}
use ocn_registry_v.Contract.Nodes.{IsConsistent, HasNoRepeat}
use ocn_registry_v.Contract.Run.{run_own, network}
use ocn_registry_v.Contract.Access.{Roles}
use ocn_registry_v.Contract.Administration.{new_registry}
use ocn_registry_v.Contract.Administered.{Transaction, run_registry, run_registry-IsConsistent}
use ocn_registry_v.Contract.History.{run_own_induction, NodeStep-IsConsistent}

-- Where a list of nodes has an operator, the first entry for it.
unfoldable pub url_in : List Node → Text → Text
url_in [] a = []
url_in (n ∷ nodes) a = if a == n.operator then n.url else url_in nodes a

-- The directory is a function from operators to domains, empty for those without a node. A list shows
-- it if looking an operator up in the list gives its domain, if no entry has an empty domain, and if no
-- operator and no domain occurs twice.
pub record Shows (nodes : List Node) (directory : Text → Text) : Type 0 where
  pub agrees : (a : Text) → url_in nodes a ≡ directory a
  pub none_empty : All (λ (n : Node). is_full n.url ≡ true) nodes
  pub operators_once : HasNoRepeat (map (λ n. n.operator) nodes)
  pub urls_once : HasNoRepeat (map (λ n. n.url) nodes)

module _ (E : Ethers) (D : Decoder) (N : Network) (w : Wrapper) (h : List Call)
    (d : Text → Text) where
  abbrev shown_nodes : List Text → List Node
  shown_nodes operators = nodes_of E D N w h d operators

  url_in-nodes_of :
      (operators : List Text) (a : Text)
      → url_in (shown_nodes operators) a ≡ (if contains operators a then d a else [])
  unfolding nodes_of url_in keep
  url_in-nodes_of [] a = refl
  url_in-nodes_of (b ∷ operators) a = ground (arith, url_in-nodes_of operators a)

  urls_are_full :
      (operators : List Text) → All (λ (n : Node). is_full n.url ≡ true) (shown_nodes operators)
  unfolding nodes_of keep
  urls_are_full [] = tt
  urls_are_full (a ∷ operators) = elim (Bool-cases (is_full (d a))) [
    | inr empty ↦ rw empty (urls_are_full operators)
    | inl full ↦ rw full (full, urls_are_full operators)
  ]

  absent_operator :
      (operators : List Text) (b : Text)
      → contains operators b ≡ false
      → contains (map (λ (n : Node). n.operator) (shown_nodes operators)) b ≡ false
  unfolding nodes_of keep
  absent_operator [] b h = refl
  absent_operator (a ∷ operators) b h = ground (arith, h, absent_operator operators b)

  module _ (distinct : (a b : Text) → is_full (d a) ≡ true → d a ≡ d b → a ≡ b) where
    absent_url :
        (operators : List Text) (b : Text)
        → is_full (d b) ≡ true
        → contains operators b ≡ false
        → contains (map (λ (n : Node). n.url) (shown_nodes operators)) (d b) ≡ false
    unfolding nodes_of keep
    absent_url [] b full h = refl
    absent_url (a ∷ operators) b full h =
        ground (arith, h, full, distinct b a, absent_url operators b full)

    no_repeats :
        (operators : List Text)
        → HasNoRepeat operators
        → HasNoRepeat (map (λ (n : Node). n.operator) (shown_nodes operators))
          × HasNoRepeat (map (λ (n : Node). n.url) (shown_nodes operators))
    unfolding nodes_of keep
    no_repeats [] h = (tt, tt)
    no_repeats (a ∷ operators) (fresh, h) =
        let rest = no_repeats operators h in
        elim (Bool-cases (is_full (d a))) [
          | inr empty ↦ rw empty rest
          | inl full ↦ rw full (
            (absent_operator operators a fresh, rest.0),
            (absent_url operators a full fresh, rest.1),
          )
        ]

module _ (E : Ethers) (D : Decoder) (O : Outside) (sender : Text)
    (sign_node : Text → Text → Signature) (sign_deletion : Text → Signature) (manager : Text)
    (w : Wrapper) where
  consistent_shown :
      (s : State) (h : List Call) (N : Network)
      → IsConsistent s
      → Shows (nodes_of E D N w h s.node_of s.operators) s.node_of
  consistent_shown s h N c =
      let once = no_repeats E D N w h s.node_of c.distinct s.operators c.once in
      record {
        agrees = λ a.
            ground
              (arith, url_in-nodes_of E D N w h s.node_of s.operators a, c.known a, c.listed a);
        none_empty = urls_are_full E D N w h s.node_of s.operators;
        operators_once = once.0;
        urls_once = once.1;
      }

  -- Whatever transactions anyone has made since the deployment, those of administrators among them, and whatever
  -- the client has sent after them while nothing else happened, `getAllNodes` returns a list that shows the
  -- contract's directory of nodes: looking an operator up in it gives the operator's domain, an operator without
  -- a node is not in it, and no operator and no domain is in it twice.
  pub get_all_nodes-Shows :
      (R : Roles) (deployer validator : Text) (past : List Transaction) (h : List Call)
      → let s = (run_registry R past (new_registry R deployer manager validator)).listings in
        (nodes : List Node) × ((get_all_nodes E D
              (network O sender sign_node sign_deletion manager s)
              w
              h
            ≡ done nodes)
          × Shows nodes (run_own O sender h s).node_of)
  get_all_nodes-Shows R deployer validator past h =
      let s = (run_registry R past (new_registry R deployer manager validator)).listings in
      let N = network O sender sign_node sign_deletion manager s in
      let t = run_own O sender h s in
      let c =
        run_own_induction O IsConsistent NodeStep-IsConsistent sender h s
          (run_registry-IsConsistent R deployer manager validator past) in
      (
        nodes_of E D N w h t.node_of t.operators,
        (
          get_all_nodes_lem E D N w h t.node_of t.operators refl (λ a. refl),
          consistent_shown t h N c,
        ),
      )
