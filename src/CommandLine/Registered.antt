-- ===== src/CommandLine/Registered.antt =====
-- The commands set-node and is-signer-registered-as-node, one after the other, on the registry contract.
use ocn_registry_v.Base.{
  ◌≡◌, refl, ap, ◌∙◌, arith, ℕ, true, false, some, List, [], ◌∷◌, ◌++◌, ◌==◌, numbers_eq, nat_eq,
  contains, map,
}
use ocn_registry_v.Base.Lists.{any, keep}
use ocn_registry_v.Text.{Text}
use ocn_registry_v.Client.Failures.{is_full, Decoder}
use ocn_registry_v.Client.Wrapper.{Outcome, done, Ethers, Wrapper}
use ocn_registry_v.Client.Types.{Call, Node, Network, Signature, node_set}
use ocn_registry_v.Client.Nodes.{nodes_of, get_all_nodes_lem}
use ocn_registry_v.Contract.State.{State}
use ocn_registry_v.Contract.Operations.{Outside}
use ocn_registry_v.Contract.Nodes.{IsConsistent}
use ocn_registry_v.Contract.Run.{run_own, network}
use ocn_registry_v.Contract.Access.{Roles}
use ocn_registry_v.Contract.Administration.{new_registry as registry_deployed}
use ocn_registry_v.Contract.Administered.{Transaction, run_registry, run_registry-IsConsistent}
use ocn_registry_v.Contract.History.{run_own_induction, NodeStep-IsConsistent}
use ocn_registry_v.Contract.NodeCalls.{set_node-get_node, found_after}
use ocn_registry_v.CommandLine.Arguments.{Machine, Services, Arguments, signer_of, new_registry}
use ocn_registry_v.CommandLine.Commands.{
  change, set_node, is_signer_registered_as_node, sent, answer, World, sends, has_signer,
}
use ocn_registry_v.CommandLine.Handlers.{perform, perform_change, perform_query}

any_listed :
    (E : Ethers) (D : Decoder) (N : Network) (w : Wrapper) (h : List Call) (d : Text → Text)
    (f : Text → Text) (operators : List Text) (b : Text)
    → contains operators b ≡ true
    → is_full (d b) ≡ true
    → any (λ x. f x == f b) (map (λ (n : Node). n.operator) (nodes_of E D N w h d operators)) ≡ true
unfolding nodes_of keep any
any_listed E D N w h d f [] b listed full = listed
any_listed E D N w h d f (a ∷ operators) b listed full =
    ground (arith, any_listed E D N w h d f operators b, listed, full)

module _ (M : Machine) (V : Services) (a : Arguments) (O : Outside) (sender : Text)
    (sign_node : Text → Text → Signature) (sign_deletion : Text → Signature) (manager : Text)
    (R : Roles) (deployer validator : Text) (past : List Transaction) where
  -- The registry contract's listings after anyone's transactions.
  abbrev pub begun : State
  begun = (run_registry R past (registry_deployed R deployer manager validator)).listings

  -- The registry contract from then on.
  abbrev pub chain : Network
  chain = network O sender sign_node sign_deletion manager begun

  abbrev pub state_at : List Call → State
  state_at h = run_own O sender h begun

  sends_done :
      (m : Outcome Wrapper) (f : Wrapper → List Call → Outcome Call × List Call) (w : Wrapper)
      (c : Call) (h : List Call) (s : World)
      → m ≡ done w
      → f w s.calls ≡ (done c, h)
      → sends M V a m f s ≡ (done (sent c), record s { calls = h })
  sends_done m f w c h s made sent_it = rw made (rw (sent_it) refl)

  -- A signer that has a node in the contract's state is found in the list of all nodes.
  finds_signer :
      (v : Wrapper) (s : World) (n : ℕ) (key : Text)
      → signer_of M V a ≡ n ∷ key
      → V.ethers.wallet_of (n ∷ key) ≡ done sender
      → new_registry M V a [] a.ocn_registry ≡ done v
      → V.registry v ≡ chain
      → is_full ((state_at s.calls).node_of sender) ≡ true
      → perform_query M V a is_signer_registered_as_node s ≡ done (answer true)
  unfolding perform_query has_signer
  finds_signer v s n key signer own reading at_v full =
      let t = state_at s.calls in
      let c : IsConsistent t =
        run_own_induction O IsConsistent NodeStep-IsConsistent sender s.calls begun
          (run_registry-IsConsistent R deployer manager validator past) in
      let all =
        get_all_nodes_lem V.ethers V.decoder chain v s.calls t.node_of t.operators refl
          (λ x. refl) in
      let listed : contains t.operators sender ≡ true = c.known sender ∙ c.listed sender full in
      rw (reading, at_v)
        (rw all (
          rw (signer, own)
            (ap (λ b. done (answer b))
              (any_listed V.ethers V.decoder chain v s.calls t.node_of V.decoder.to_lower
                t.operators sender listed full))))

  -- Suppose a signer is given, the client of the registry can be made with it and without it, and the contract
  -- has seen any transactions of anyone, administrators among them, and then only some of this signer. If the signer has no
  -- node, and the domain can be read as a URL whose origin is not empty and is free, then set-node
  -- sends its transaction, and is-signer-registered-as-node then prints true.
  pub set_node_registered :
      (w v : Wrapper) (s : World) (n : ℕ) (key domain origin : Text)
      → signer_of M V a ≡ n ∷ key
      → V.ethers.wallet_of (n ∷ key) ≡ done sender
      → new_registry M V a (n ∷ key) a.ocn_registry ≡ done w
      → new_registry M V a [] a.ocn_registry ≡ done v
      → w.is_writable ≡ true
      → w.wallet ≡ some sender
      → V.registry w ≡ chain
      → V.registry v ≡ chain
      → V.ethers.is_address sender ≡ true
      → V.ethers.origin domain ≡ done origin
      → is_full origin ≡ true
      → (state_at s.calls).node_of sender ≡ []
      → (state_at s.calls).unique_domains origin ≡ false
      → ((perform M V a (change (set_node domain)) s).0 ≡ done (sent (node_set origin)))
        × (perform_query M V a is_signer_registered_as_node
              (perform M V a (change (set_node domain)) s).1
            ≡ done (answer true))
  unfolding perform perform_change perform_query has_signer
  set_node_registered w v s n key domain origin signer own writing reading writable wallet at_w at_v
        valid url full fresh free =
      let called =
        (set_node-get_node V.ethers V.decoder O sender sign_node sign_deletion manager begun w
          s.calls domain origin writable wallet valid url full fresh free).0 in
      let went : perform M V a (change (set_node domain)) s
          ≡ (done (sent (node_set origin)), record s { calls = s.calls ++ node_set origin ∷ [] }) =
        sends_done (new_registry M V a (signer_of M V a) a.ocn_registry) _ w (node_set origin)
          (s.calls ++ node_set origin ∷ []) s
          (ap (λ k. new_registry M V a k a.ocn_registry) signer ∙ writing) (rw at_w called) in
      (
        rw went refl,
        rw went (
            finds_signer v (record s { calls = s.calls ++ node_set origin ∷ [] }) n key signer own
              reading at_v
              (ap is_full (
                  found_after V.ethers V.decoder O sender sign_node sign_deletion manager begun w
                    s.calls origin full free)
                ∙ full)),
      )
