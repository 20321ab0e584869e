-- ===== src/Client/Registry.antt =====
-- `Registry` of src/lib/registry.ts, with the signatures of src/lib/sign.ts.
use ocn_registry_v.Base.{
  Option, none, some, List, [], ◌∷◌, ◌++◌, map, ◌==◌, numbers_eq, if◌then◌else◌,
}
use ocn_registry_v.Text.{Text, codes}
use ocn_registry_v.Client.Failures.{Decoder, new_error, is_full}
use ocn_registry_v.Client.Handling.{handle_contract_error}
use ocn_registry_v.Client.Types.{
  RoleDetails, Call, node_set, node_set_raw, node_deleted, node_deleted_raw, party_set,
  party_deleted, RawParty, PartyDetails, Node, Network, zero_address, role_at,
}
use ocn_registry_v.Client.Wrapper.{
  Outcome, done, failed, Ethers, Wrapper, ◌>=>◌, verify_address, verify_writable, verify_string_len,
  verify_url, to_bytes,
}

module _ (E : Ethers) (D : Decoder) (N : Network) (w : Wrapper) where
  -- The `catch` of the methods.
  abbrev pub caught : {A : Type 0} → Outcome A → Outcome A
  caught (done a) = done a
  caught (failed e) = failed (handle_contract_error D e)

  abbrev pub settled : {A : Type 0} → Outcome A × List Call → Outcome A × List Call
  settled (o, h) = (caught o, h)

  -- `const tx = await this.contract.…; await tx.wait(); return tx`
  unfoldable pub submit : Call → List Call → Outcome Call × List Call
  submit c h = elim (N.accept h c) [
    | failed e ↦ (failed e, h)
    | done _ ↦ (N.wait (h ++ c ∷ []) c >=> λ _. done c, h ++ c ∷ [])
  ]

  -- Go on with a value, or stop with the error and no transaction.
  infixl 5 ◌then◌
  abbrev ◌then◌ :
      {A B : Type 0}
      → Outcome A
      → (A → List Call → Outcome B × List Call)
      → List Call
      → Outcome B × List Call
  ◌then◌ (done a) f h = f a h
  ◌then◌ (failed e) f h = (failed e, h)

  unfoldable pub get_node : Text → List Call → Outcome (Option Text)
  get_node operator h = verify_address E operator >=> λ _.
      N.get_node h operator >=> λ node. done (if is_full node then some node else none)

  unfoldable pub nodes_from : List Call → List Text → Outcome (List Node)
  nodes_from h [] = done []
  nodes_from h (operator ∷ operators) = N.get_node h operator >=> λ url.
      nodes_from h operators >=> λ nodes.
      done (if is_full url then record { operator = operator; url = url } ∷ nodes else nodes)

  unfoldable pub get_all_nodes : List Call → Outcome (List Node)
  get_all_nodes h = N.get_node_operators h >=> nodes_from h

  unfoldable pub no_node : Option Text → Outcome (Unit {0})
  no_node none = done tt
  no_node (some node) = failed (
      new_error
        (codes "This operator has an existing node. Call delete-node to remove prior to updating."))

  unfoldable pub check_for_existing_node : Text → List Call → Outcome (Unit {0})
  check_for_existing_node address h = caught (get_node address h >=> no_node)

  abbrev wallet_or_error : Option Text → Outcome Text
  wallet_or_error none =
      failed (new_error (codes "Signer address is needed to verify for existing node registration"))
  wallet_or_error (some address) = done address

  -- The body of `try` in `setNode`.
  unfoldable pub try_set_node : Text → List Call → Outcome Call × List Call
  try_set_node domain h =
      ((E.origin domain >=> λ origin. wallet_or_error w.wallet >=> λ wallet.
      check_for_existing_node wallet h >=> λ _. done (node_set origin))
          then submit)
        h

  unfoldable pub set_node : Text → List Call → Outcome Call × List Call
  set_node domain h = (verify_writable E w then λ _ h'. settled (try_set_node domain h')) h

  abbrev attempt_raw : Text → Text → List Call → Outcome Call
  attempt_raw domain signer h = E.wallet_of signer >=> λ wallet.
      check_for_existing_node wallet h >=> λ _.
      done (node_set_raw wallet domain (N.sign_node wallet domain))

  unfoldable pub set_node_raw : Text → Text → List Call → Outcome Call × List Call
  set_node_raw domain signer h =
      (verify_writable E w then λ _ h'. settled (((attempt_raw domain signer h') then submit) h')) h

  unfoldable pub delete_node : List Call → Outcome Call × List Call
  delete_node h = (verify_writable E w then λ _ h'. settled (submit node_deleted h')) h

  abbrev attempt_deletion : Text → Outcome Call
  attempt_deletion signer =
      E.wallet_of signer >=> λ wallet. done (node_deleted_raw wallet (N.sign_deletion wallet))

  unfoldable pub delete_node_raw : Text → List Call → Outcome Call × List Call
  delete_node_raw signer h =
      (verify_writable E w then λ _ h'. settled ((attempt_deletion signer then submit) h')) h

  abbrev pub party_checks : Text → Text → Text → Text → Outcome (Unit {0})
  party_checks country_code party_id operator url = verify_writable E w >=> λ _.
      verify_string_len E country_code 2 >=> λ _.
      verify_string_len E party_id 3 >=> λ _. verify_address E operator >=> λ _. verify_url E url

  unfoldable pub set_party :
      Text → Text → List RoleDetails → Text → Text → Text → List Call → Outcome Call × List Call
  set_party country_code party_id roles operator name url h =
      let sent =
        party_set (to_bytes E country_code) (to_bytes E party_id) roles operator name url in
      (party_checks country_code party_id operator url then λ _ h'. settled (submit sent h')) h

  unfoldable pub delete_party : List Call → Outcome Call × List Call
  delete_party h = (verify_writable E w then λ _ h'. settled (submit party_deleted h')) h

  unfoldable pub get_ocn_payment_manager : List Call → Outcome Text
  get_ocn_payment_manager h = caught (N.payment_manager h)

  unfoldable pub to_party_details : RawParty → Outcome PartyDetails
  to_party_details p = E.to_utf8_string p.country_code >=> λ country_code.
      E.to_utf8_string p.party_id >=> λ party_id. done (record {
        party_address = p.party_address;
        country_code = country_code;
        party_id = party_id;
        roles = map role_at p.roles;
        payment_status = p.payment_status;
        operator_address = p.operator_address;
        name = p.name;
        url = p.url;
        active = p.active;
      })

  abbrev if_listed : PartyDetails → Option PartyDetails
  if_listed p = if p.operator_address == zero_address then none else some p

  unfoldable pub get_party_by_address : Text → List Call → Outcome (Option PartyDetails)
  get_party_by_address address h = caught (
      N.get_party_details_by_address h address >=> λ details.
      to_party_details details >=> λ party. done (if_listed party))

  unfoldable pub get_party_by_ocpi : Text → Text → List Call → Outcome (Option PartyDetails)
  get_party_by_ocpi country_code party_id h = verify_string_len E country_code 2 >=> λ _.
      verify_string_len E party_id 3 >=> λ _. caught (
        N.get_party_details_by_ocpi h (to_bytes E country_code) (to_bytes E party_id) >=> λ details.
        to_party_details details >=> λ party. done (if_listed party))

  unfoldable pub parties_from : List Call → List Text → Outcome (List PartyDetails)
  parties_from h [] = done []
  parties_from h (address ∷ addresses) = N.get_party_details_by_address h address >=> λ details.
      if details.operator_address == zero_address
      then parties_from h addresses
      else to_party_details details >=> λ party.
          parties_from h addresses >=> λ parties. done (party ∷ parties)

  unfoldable pub get_all_parties : List Call → Outcome (List PartyDetails)
  get_all_parties h = N.get_parties h >=> parties_from h
