-- ===== src/Client/Nodes.antt =====
-- What the list of all nodes holds, and what the guard against a second node makes of its own error.
use ocn_registry_v.Base.{◌≡◌, refl, arith, ℕ, true, false, none, some, List, [], ◌∷◌, ◌++◌, map}
use ocn_registry_v.Base.Lists.{keep}
use ocn_registry_v.Text.{Text, codes, includes}
use ocn_registry_v.Client.Failures.{Decoder, new_error, is_full, first_pattern, error_patterns}
use ocn_registry_v.Client.Handling.{
  handle_contract_error, get_decoded_revert, revert_of_data, revert_of_message,
  get_readable_error_message,
}
use ocn_registry_v.Client.Types.{Call, Network, Node}
use ocn_registry_v.Client.Wrapper.{done, failed, Ethers, Wrapper, verify_address, verify_writable}
use ocn_registry_v.Client.Registry.{
  nodes_from, get_all_nodes, get_node, check_for_existing_node, no_node, set_node, try_set_node,
}

module _ (E : Ethers) (D : Decoder) (N : Network) (w : Wrapper) (h : List Call) where
  -- The nodes of the operators that have one.
  unfoldable pub nodes_of : (Text → Text) → List Text → List Node
  nodes_of url_of operators =
      map (λ a. record { operator = a; url = url_of a }) (keep (λ a. is_full (url_of a)) operators)

  nodes_from-nodes_of :
      (url_of : Text → Text) (operators : List Text)
      → ((a : Text) → N.get_node h a ≡ done (url_of a))
      → nodes_from E D N w h operators ≡ done (nodes_of url_of operators)
  unfolding nodes_from nodes_of keep
  nodes_from-nodes_of url_of [] answers = refl
  nodes_from-nodes_of url_of (a ∷ operators) answers =
      ground (arith, answers a, nodes_from-nodes_of url_of operators answers)

  -- If the contract answers for every operator, the list of all nodes has, in the contract's order, one
  -- entry for each operator whose domain is not empty, and none for the others.
  pub get_all_nodes_lem :
      (url_of : Text → Text) (operators : List Text)
      → N.get_node_operators h ≡ done operators
      → ((a : Text) → N.get_node h a ≡ done (url_of a))
      → get_all_nodes E D N w h ≡ done (nodes_of url_of operators)
  unfolding get_all_nodes
  get_all_nodes_lem url_of operators listed answers =
      rw listed (nodes_from-nodes_of url_of operators answers)

abbrev pub existing_node : Text
existing_node =
    codes "This operator has an existing node. Call delete-node to remove prior to updating."

abbrev pub prefixed : Text → Text
prefixed text = codes "Transaction failed: " ++ text

-- The lower-case form of a message has none of the texts that are looked for.
abbrev pub IsUnrecognised : Decoder → Text → Type 0
IsUnrecognised D text =
    (includes (codes "execution reverted") (D.to_lower text) ≡ false)
    × (first_pattern (D.to_lower text) error_patterns ≡ none)

handled_prefixed :
    (D : Decoder) (c : ℕ) (text : Text)
    → IsUnrecognised D (c ∷ text)
    → handle_contract_error D (new_error (c ∷ text)) ≡ new_error (prefixed (c ∷ text))
unfolding handle_contract_error get_decoded_revert revert_of_data revert_of_message
    get_readable_error_message
handled_prefixed D c text (plain, unmatched) = rw (plain, unmatched) refl

module _ (E : Ethers) (D : Decoder) (N : Network) (w : Wrapper) (h : List Call) where
  -- If an operator that has a node calls `setNode` with a URL that can be read, nothing is sent, and the
  -- error that is thrown says "Transaction failed: " twice before its own text. The conditions are that
  -- the operator is the signer and its address valid, and that the lower-case forms of the error's text
  -- and of the text with the prefix hold none of the texts that the error handling looks for.
  pub set_node_existing :
      (domain origin wallet : Text) (c : ℕ) (node : Text)
      → w.is_writable ≡ true
      → w.wallet ≡ some wallet
      → E.is_address wallet ≡ true
      → E.origin domain ≡ done origin
      → N.get_node h wallet ≡ done (c ∷ node)
      → IsUnrecognised D existing_node
      → IsUnrecognised D (prefixed existing_node)
      → set_node E D N w domain h ≡ (failed (new_error (prefixed (prefixed existing_node))), h)
  unfolding set_node try_set_node verify_writable verify_address check_for_existing_node get_node
      no_node
  set_node_existing domain origin wallet c node writable signer valid url listed once twice =
      rw (writable, url, signer, valid, listed)
        (rw (handled_prefixed D _ _ once) (rw (handled_prefixed D _ _ twice) refl))
