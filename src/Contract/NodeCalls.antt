-- ===== src/Contract/NodeCalls.antt =====
-- The node operations of the client library on the registry contract.
use ocn_registry_v.Base.{
  ◌≡◌, refl, ap, ◌∙◌, true, false, some, List, [], ◌∷◌, ◌++◌, numbers_eq, nat_eq,
}
use ocn_registry_v.Text.{Text, codes}
use ocn_registry_v.Client.Failures.{
  revert_message, plain_message, Failure, Decoder, new_error, is_full,
}
use ocn_registry_v.Client.Wrapper.{done, failed, Ethers, Wrapper, verify_address, verify_writable}
use ocn_registry_v.Client.Types.{Call, Signature, Network, node_set}
use ocn_registry_v.Client.Registry.{
  settled, get_node, set_node, try_set_node, check_for_existing_node, no_node, submit,
}
use ocn_registry_v.Client.Handling.{handle_contract_error, get_decoded_revert}
use ocn_registry_v.Contract.State.{State, set_same, reverted}
use ocn_registry_v.Contract.Operations.{Outside, with_node, set_node_of, transact}
use ocn_registry_v.Contract.Run.{after_transaction, run_own, network, accepted}

module _ (O : Outside) where
  pub run_own-append :
      (sender : Text) (h : List Call) (c : Call) (s : State)
      → run_own O sender (h ++ c ∷ []) s
        ≡ after_transaction (transact O sender c (run_own O sender h s)) (run_own O sender h s)
  unfolding run_own
  run_own-append sender [] c s = refl
  run_own-append sender (d ∷ h) c s = run_own-append sender h c _

module _ (E : Ethers) (D : Decoder) (N : Network) (w : Wrapper) (h : List Call) where
  -- Past the guards, all that is left is the transaction.
  set_node_submits :
      (domain origin wallet : Text)
      → w.is_writable ≡ true
      → w.wallet ≡ some wallet
      → E.is_address wallet ≡ true
      → E.origin domain ≡ done origin
      → N.get_node h wallet ≡ done []
      → set_node E D N w domain h ≡ settled E D N w (submit E D N w (node_set origin) h)
  unfolding set_node try_set_node verify_writable verify_address check_for_existing_node get_node
      no_node
  set_node_submits domain origin wallet writable own valid url fresh =
      rw (writable, url, own, valid, fresh) refl

  submit_done :
      (c : Call)
      → N.accept h c ≡ done tt
      → N.wait (h ++ c ∷ []) c ≡ done tt
      → submit E D N w c h ≡ (done c, h ++ c ∷ [])
  unfolding submit
  submit_done c taken mined = rw (submit, taken, mined) refl

  submit_failed :
      (c : Call) (e : Failure) → N.accept h c ≡ failed e → submit E D N w c h ≡ (failed e, h)
  unfolding submit
  submit_failed c e refused = rw (submit, refused) refl

pub set_node_of_free :
    (operator domain : Text) (s : State)
    → is_full domain ≡ true
    → s.unique_domains domain ≡ false
    → set_node_of operator domain s ≡ done (with_node operator domain s)
unfolding set_node_of
set_node_of_free operator domain s full free = rw (full, free) refl

abbrev pub taken_error : Failure
taken_error =
    reverted (codes "DomainNameAlreadyRegistered") (codes "Domain name already registered.")

refused_text :
    (D : Decoder)
    → handle_contract_error D taken_error
      ≡ new_error (codes "Domain name already registered: Domain name already registered.")
unfolding handle_contract_error get_decoded_revert revert_message plain_message numbers_eq
refused_text D = refl

pub set_node_of_taken :
    (operator domain : Text) (s : State)
    → is_full domain ≡ true
    → s.unique_domains domain ≡ true
    → set_node_of operator domain s ≡ failed taken_error
unfolding set_node_of
set_node_of_taken operator domain s full free = rw (full, free) refl

module _ (E : Ethers) (D : Decoder) (O : Outside) (sender : Text)
    (sign_node : Text → Text → Signature) (sign_deletion : Text → Signature) (manager : Text)
    (s : State) (w : Wrapper) (h : List Call) where
  abbrev chain : Network
  chain = network O sender sign_node sign_deletion manager s

  -- The state that the client finds.
  abbrev present : State
  present = run_own O sender h s

  -- What a transaction that the contract takes makes of the state that the client finds next.
  after_call :
      (c : Call) (t : State)
      → transact O sender c present ≡ done t
      → run_own O sender (h ++ c ∷ []) s ≡ t
  after_call c t taken = run_own-append O sender h c s ∙ ap (λ o. after_transaction o present) taken

  pub found_after :
      (origin : Text)
      → is_full origin ≡ true
      → present.unique_domains origin ≡ false
      → (run_own O sender (h ++ node_set origin ∷ []) s).node_of sender ≡ origin
  unfolding transact
  found_after origin full free =
      ap (λ (t : State). t.node_of sender)
        (after_call (node_set origin) (with_node sender origin present)
          (set_node_of_free sender origin present full free))
      ∙ set_same sender origin present.node_of

  -- If the signer's own address has no node, the domain can be read as a URL with a non-empty origin,
  -- and that origin is free, then `setNode` sends its transaction, the contract takes it, and `getNode`,
  -- asked next, answers the origin for the signer.
  pub set_node-get_node :
      (domain origin : Text)
      → w.is_writable ≡ true
      → w.wallet ≡ some sender
      → E.is_address sender ≡ true
      → E.origin domain ≡ done origin
      → is_full origin ≡ true
      → present.node_of sender ≡ []
      → present.unique_domains origin ≡ false
      → (set_node E D chain w domain h ≡ (done (node_set origin), h ++ node_set origin ∷ []))
        × (get_node E D chain w sender (set_node E D chain w domain h).1 ≡ done (some origin))
  unfolding transact get_node verify_address
  set_node-get_node domain origin writable own valid url full fresh free =
      let called : set_node E D chain w domain h
          ≡ (done (node_set origin), h ++ node_set origin ∷ []) =
        set_node_submits E D chain w h domain origin sender writable own valid url (ap done fresh)
        ∙ ap (settled E D chain w) (
            submit_done E D chain w h (node_set origin)
              (ap accepted (set_node_of_free sender origin present full free)) refl) in
      let found : (run_own O sender (h ++ node_set origin ∷ []) s).node_of sender ≡ origin =
        found_after origin full free in
      (called, rw called (rw (valid, found, full) refl))

  -- If the signer's address has no node, but the origin is marked as taken, `setNode` sends no
  -- transaction, and its error gives the contract's reason, once as the text for the name of the error
  -- and once as its argument.
  pub set_node_taken :
      (domain origin : Text)
      → w.is_writable ≡ true
      → w.wallet ≡ some sender
      → E.is_address sender ≡ true
      → E.origin domain ≡ done origin
      → is_full origin ≡ true
      → present.node_of sender ≡ []
      → present.unique_domains origin ≡ true
      → set_node E D chain w domain h ≡ (
        failed
            (new_error (codes "Domain name already registered: Domain name already registered.")),
        h,
      )
  unfolding transact
  set_node_taken domain origin writable own valid url full fresh taken =
      set_node_submits E D chain w h domain origin sender writable own valid url (ap done fresh)
      ∙ ap (settled E D chain w) (
          submit_failed E D chain w h (node_set origin) taken_error
            (ap accepted (set_node_of_taken sender origin present full taken)))
      ∙ ap (λ e. (failed e, h)) (refused_text D)
