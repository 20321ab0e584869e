-- ===== src/Client/Refusals.antt =====
-- What the caller of `setParty` learns when the contract refuses the party.
use ocn_registry_v.Base.{
  ◌≡◌, refl, ap, ◌∙◌, arith, true, ◌&&◌, none, some, List, [], ◌∷◌, ◌++◌, ◌==◌, nat_eq, numbers_eq,
  ltb,
}
use ocn_registry_v.Base.Lists.{length}
use ocn_registry_v.Text.{Text, codes, starts_with}
use ocn_registry_v.Client.Failures.{
  plain, Revert, Failure, new_error, Decoder, revert_message, plain_message, is_full,
}
use ocn_registry_v.Client.Handling.{handle_contract_error, get_decoded_revert, revert_of_data}
use ocn_registry_v.Client.Types.{Call, RoleDetails, Network, party_set}
use ocn_registry_v.Client.Wrapper.{
  failed, is_done, Ethers, Wrapper, to_bytes, verify_writable, verify_string_len, verify_address,
  verify_url,
}
use ocn_registry_v.Client.Registry.{set_party, submit}

abbrev pub already_registered : Text → Revert
already_registered reason = record {
  name = codes "PartyAlreadyRegistered";
  args = plain reason ∷ [];
}

-- An error that carries the encoded revert in its `data`, as ethers throws it.
abbrev pub Carries : Decoder → Failure → Text → Revert → Type 0
Carries D e raw r =
    (e.revert ≡ none)
    × (e.data_field ≡ some raw)
    × ((starts_with (codes "0x") raw && ltb 10 (length raw)) ≡ true)
    × (D.parse_error raw ≡ some r)

full_prefixed :
    (raw : Text)
    → (starts_with (codes "0x") raw && ltb 10 (length raw)) ≡ true
    → (is_full raw && starts_with (codes "0x") raw && ltb 10 (length raw)) ≡ true
unfolding starts_with
full_prefixed [] h = absurd (cc h)
full_prefixed (c ∷ raw) h = h

carried_decoded :
    (D : Decoder) (e : Failure) (raw : Text) (r : Revert)
    → Carries D e raw r
    → get_decoded_revert D e ≡ some r
unfolding get_decoded_revert revert_of_data
carried_decoded D e raw r (own, field, prefix, parsed) =
    rw (own, field) (rw (full_prefixed raw prefix, parsed) refl)

already_registered-message :
    (reason : Text)
    → revert_message (already_registered reason) ≡ codes "Party already registered: " ++ reason
unfolding revert_message plain_message numbers_eq
already_registered-message reason = refl

handled :
    (D : Decoder) (e : Failure) (r : Revert)
    → get_decoded_revert D e ≡ some r
    → handle_contract_error D e ≡ new_error (revert_message r)
unfolding handle_contract_error
handled D e r found = rw (found, handle_contract_error) refl

module _ (E : Ethers) (D : Decoder) (N : Network) (w : Wrapper) where
  went :
      (country_code party_id : Text) (roles : List RoleDetails) (operator name url : Text)
      (e : Failure) (h : List Call)
      → (w.is_writable
          && length country_code == 2
          && length party_id == 3
          && E.is_address operator
          && is_done (E.origin url))
        ≡ true
      → N.accept h
          (party_set (to_bytes E country_code) (to_bytes E party_id) roles operator name url)
        ≡ failed e
      → set_party E D N w country_code party_id roles operator name url h
        ≡ (failed (handle_contract_error D e), h)
  unfolding set_party verify_writable verify_string_len verify_address verify_url submit
  went country_code party_id roles operator name url e h checks refused =
      ground (arith, checks, refused)

  -- If the arguments of `setParty` pass the checks, there is a signer, and the network refuses the
  -- transaction with an error that carries the contract's revert PartyAlreadyRegistered in its data, then
  -- nothing is sent and the error that is thrown reads "Party already registered: " and the reason.
  pub set_party_refused :
      (country_code party_id : Text) (roles : List RoleDetails)
      (operator name url raw reason : Text) (e : Failure) (h : List Call)
      → (w.is_writable
          && length country_code == 2
          && length party_id == 3
          && E.is_address operator
          && is_done (E.origin url))
        ≡ true
      → N.accept h
          (party_set (to_bytes E country_code) (to_bytes E party_id) roles operator name url)
        ≡ failed e
      → Carries D e raw (already_registered reason)
      → set_party E D N w country_code party_id roles operator name url h
        ≡ (failed (new_error (codes "Party already registered: " ++ reason)), h)
  set_party_refused country_code party_id roles operator name url raw reason e h checks refused
        carries =
      went country_code party_id roles operator name url e h checks refused
      ∙ ap (λ f. (failed f, h))
          (handled D e (already_registered reason) (carried_decoded D e raw _ carries)
            ∙ ap new_error (already_registered-message reason))
