-- ===== src/Client/Sending.antt =====
-- Which transactions the methods that write send: the history after each of them, on all branches.
use ocn_registry_v.Base.{
  ◌≡◌, arith, Bool, true, false, ◌&&◌, none, some, List, [], ◌∷◌, ◌++◌, ◌==◌, nat_eq, if◌then◌else◌,
}
use ocn_registry_v.Base.Lists.{length}
use ocn_registry_v.Base.Dict.{Dict}
use ocn_registry_v.Text.{Text, codes}
use ocn_registry_v.Client.Failures.{Decoder, new_error}
use ocn_registry_v.Client.Types.{RoleDetails, Call, node_set, node_set_raw, party_set, Network}
use ocn_registry_v.Client.Wrapper.{
  Outcome, done, failed, is_done, Ethers, Wrapper, Provider, Overrides, create, wallet_for,
  verify_address, verify_writable, verify_string_len, verify_url, to_bytes,
}
use ocn_registry_v.Client.Registry.{
  submit, set_node, try_set_node, check_for_existing_node, get_node, no_node, set_node_raw,
  set_party, delete_node, delete_node_raw, delete_party,
}

module _ (E : Ethers) (D : Decoder) (N : Network) (w : Wrapper) where
  -- The history after a transaction that the network may refuse.
  abbrev pub after : List Call → Call → List Call
  after h c = if is_done (N.accept h c) then h ++ c ∷ [] else h

  -- Whether the contract says that an address has no node.
  abbrev pub is_free : List Call → Text → Bool
  is_free h address = elim (N.get_node h address) [
    | failed e ↦ false
    | done [] ↦ true
    | done (c ∷ t) ↦ false
  ]

  submit-after : (c : Call) (h : List Call) → (submit E D N w c h).1 ≡ after h c
  unfolding submit
  submit-after c h = ground arith

  -- A party is set by one transaction, with the upper-case codes in hexadecimal, exactly if there is a
  -- signer, the country code has two characters and the party id three, the operator is an address,
  -- the URL can be read and the network takes the transaction. In all other cases nothing is sent.
  pub set_party_sends :
      (country_code party_id : Text) (roles : List RoleDetails) (operator name url : Text)
      (h : List Call)
      → (set_party E D N w country_code party_id roles operator name url h).1 ≡ (
          if w.is_writable
            && length country_code == 2
            && length party_id == 3
            && E.is_address operator
            && is_done (E.origin url)
          then after h (
              party_set
                (E.hexlify (E.to_upper country_code))
                (E.hexlify (E.to_upper party_id))
                roles
                operator
                name
                url)
          else h)
  unfolding set_party verify_writable verify_string_len verify_address verify_url to_bytes submit
  set_party_sends country_code party_id roles operator name url h = ground arith

  -- A node is set by one transaction with the origin of the URL, exactly if there is a signer, the URL
  -- can be read, the wallet is there and its address valid, the contract says that it has no node yet,
  -- and the network takes the transaction. In all other cases nothing is sent.
  pub set_node_sends :
      (domain : Text) (h : List Call)
      → (set_node E D N w domain h).1 ≡ (elim (E.origin domain) [
        | failed e ↦ h
        | done origin ↦ elim w.wallet [
          | none ↦ h
          | some wallet ↦
              if w.is_writable && E.is_address wallet && is_free h wallet
              then after h (node_set origin)
              else h
        ]
      ])
  unfolding set_node try_set_node verify_writable verify_address check_for_existing_node get_node
      no_node submit
  set_node_sends domain h = ground arith

  -- A node is set by a signed transaction with the domain as it was given, exactly if there is a
  -- signer, the owner's key gives a wallet with a valid address, the contract says that it has no node
  -- yet, and the network takes the transaction. In all other cases nothing is sent.
  pub set_node_raw_sends :
      (domain signer : Text) (h : List Call)
      → (set_node_raw E D N w domain signer h).1 ≡ (elim (E.wallet_of signer) [
        | failed e ↦ h
        | done wallet ↦
            if w.is_writable && E.is_address wallet && is_free h wallet
            then after h (node_set_raw wallet domain (N.sign_node wallet domain))
            else h
      ])
  unfolding set_node_raw verify_writable verify_address check_for_existing_node get_node no_node
      submit
  set_node_raw_sends domain signer h = ground arith

  abbrev pub no_signer : List Call → Outcome Call × List Call
  no_signer h = (failed (new_error (codes "No signer provided. Unable to send transaction.")), h)

  -- The six methods that write, in a wrapper with no signer.
  abbrev pub IsReadOnly : Type 0
  IsReadOnly =
      (h : List Call)
      → ((domain : Text) → set_node E D N w domain h ≡ no_signer h)
        × ((domain signer : Text) → set_node_raw E D N w domain signer h ≡ no_signer h)
        × (delete_node E D N w h ≡ no_signer h)
        × ((signer : Text) → delete_node_raw E D N w signer h ≡ no_signer h)
        × ((cc id operator name url : Text) (roles : List RoleDetails)
            → set_party E D N w cc id roles operator name url h ≡ no_signer h)
        × (delete_party E D N w h ≡ no_signer h)

  pub not_writable-IsReadOnly : w.is_writable ≡ false → IsReadOnly
  unfolding set_node set_node_raw delete_node delete_node_raw set_party delete_party verify_writable
  not_writable-IsReadOnly e h = (
    λ domain. ground arith,
    λ domain signer. ground arith,
    ground arith,
    λ signer. ground arith,
    λ cc id operator name url roles. ground arith,
    ground arith,
  )

pub create-not_writable :
    (E : Ethers) (networks : Dict Text Provider) (deployed environment : Text)
    (overrides : Overrides) (specific : Text) (w : Wrapper)
    → create E networks deployed environment [] overrides specific ≡ done w
    → w.is_writable ≡ false
unfolding create wallet_for
create-not_writable E networks deployed environment overrides specific w e = ground (arith, e)

-- If the constructor is given no signer and returns, then each of the six methods that write throws
-- the error on the missing signer and sends nothing, whatever its arguments are.
pub create-IsReadOnly :
    (E : Ethers) (D : Decoder) (N : Network) (networks : Dict Text Provider)
    (deployed environment : Text) (overrides : Overrides) (specific : Text) (w : Wrapper)
    → create E networks deployed environment [] overrides specific ≡ done w
    → IsReadOnly E D N w
create-IsReadOnly E D N networks deployed environment overrides specific w e =
    not_writable-IsReadOnly E D N w
      (create-not_writable E networks deployed environment overrides specific w e)
