-- ===== src/Contract/PartyList.antt =====
-- The list of parties that the client library gives, against the contract's own record.
use ocn_registry_v.Base.{
  ◌≡◌, refl, sym, ap, ◌∙◌, Bool, true, false, not, ◌&&◌, List, [], ◌∷◌, ◌==◌, nat_eq, numbers_eq,
  contains, map, Bool-cases, inl, inr,
}
use ocn_registry_v.Base.Lists.{keep, All}
use ocn_registry_v.Text.{Text}
use ocn_registry_v.Client.Failures.{Decoder}
use ocn_registry_v.Client.Wrapper.{done, Ethers, Wrapper}
use ocn_registry_v.Client.Types.{Call, Network, PartyDetails, Signature, zero_address, role_at}
use ocn_registry_v.Client.Registry.{get_all_parties, parties_from, to_party_details}
use ocn_registry_v.Contract.State.{State}
use ocn_registry_v.Contract.Operations.{Outside, get_party_details_by_address}
use ocn_registry_v.Contract.Nodes.{HasNoRepeat}
use ocn_registry_v.Contract.Entries.{contains-entry, contains-keep, keep-HasNoRepeat}
use ocn_registry_v.Contract.PartySteps.{HasOwners}
use ocn_registry_v.Contract.Indexed.{
  IsIndexed, HaveOwners, run_registry-IsIndexed, run_own-IsIndexed,
}
use ocn_registry_v.Contract.Access.{Roles}
use ocn_registry_v.Contract.Administration.{new_registry}
use ocn_registry_v.Contract.Administered.{Transaction, run_registry}
use ocn_registry_v.Contract.Run.{run_own, network}

abbrev pub is_registered : State → Text → Bool
is_registered t a = not (t.operator_of a == zero_address)

-- The details of a party, with its codes decoded.
abbrev pub details_of : State → (Text → Text) → (Text → Text) → Text → PartyDetails
details_of t country_of id_of a =
    let row = t.party_of a in
    record {
      party_address = a;
      country_code = country_of a;
      party_id = id_of a;
      roles = map role_at row.roles;
      payment_status = row.payment_status;
      operator_address = t.operator_of a;
      name = row.name;
      url = row.url;
      active = row.active;
    }

-- The registered parties are listed, each once, and no others.
pub record ListsParties (t : State) (country_of id_of : Text → Text) (ps : List PartyDetails)
    : Type 0 where
  pub listed : (a : Text) → contains (map (λ p. p.party_address) ps) a ≡ is_registered t a
  pub once : HasNoRepeat (map (λ p. p.party_address) ps)
  pub agree : All (λ (p : PartyDetails). p ≡ details_of t country_of id_of p.party_address) ps

-- The bytes of the codes of the registered parties can be decoded.
abbrev pub AreReadable : Ethers → State → (Text → Text) → (Text → Text) → Type 0
AreReadable E t country_of id_of =
    (a : Text)
    → is_registered t a ≡ true
    → (E.to_utf8_string (t.party_of a).country_code ≡ done (country_of a))
      × (E.to_utf8_string (t.party_of a).party_id ≡ done (id_of a))

and_absorbs : (c r : Bool) → (r ≡ true → c ≡ true) → (c && r) ≡ r
and_absorbs true r h = refl
and_absorbs false true h = h refl
and_absorbs false false h = refl

module _ (t : State) (country_of id_of : Text → Text) where
  addresses_of :
      (xs : List Text)
      → map (λ (p : PartyDetails). p.party_address) (map (details_of t country_of id_of) xs) ≡ xs
  addresses_of [] = refl
  addresses_of (a ∷ xs) = ap (λ ys. a ∷ ys) (addresses_of xs)

  details_agree :
      (xs : List Text)
      → All
          (λ (p : PartyDetails). p ≡ details_of t country_of id_of p.party_address)
          (map (details_of t country_of id_of) xs)
  details_agree [] = tt
  details_agree (a ∷ xs) = (refl, details_agree xs)

  indexed-ListsParties :
      IsIndexed t
      → ListsParties t country_of id_of
          (map (details_of t country_of id_of) (keep (is_registered t) t.parties))
  indexed-ListsParties h = record {
    listed = λ a. rw (addresses_of (keep (is_registered t) t.parties)) (
        contains-keep (is_registered t) t.parties a
        ∙ and_absorbs _ _ (λ r. contains-entry _ t.parties a (h.at_index a (h.marked a ∙ r))));
    once = rw (addresses_of (keep (is_registered t) t.parties)) (
        keep-HasNoRepeat (is_registered t) t.parties λ i j a r at_i at_j.
          (let real = h.nonzero a (h.marked a ∙ r) in
            sym (h.only_there i a at_i real).1 ∙ (h.only_there j a at_j real).1));
    agree = details_agree (keep (is_registered t) t.parties);
  }

  parties_from-details_of :
      (E : Ethers) (D : Decoder) (N : Network) (w : Wrapper) (h : List Call)
      → ((a : Text) → N.get_party_details_by_address h a ≡ done (get_party_details_by_address a t))
      → AreReadable E t country_of id_of
      → (xs : List Text)
      → parties_from E D N w h xs
        ≡ done (map (details_of t country_of id_of) (keep (is_registered t) xs))
  unfolding parties_from to_party_details get_party_details_by_address keep
  parties_from-details_of E D N w h answers readable [] = refl
  parties_from-details_of E D N w h answers readable (a ∷ xs) =
      let rest = parties_from-details_of E D N w h answers readable xs in
      elim (Bool-cases (t.operator_of a == zero_address)) [
        | inl gone ↦ rw (answers a, gone) rest
        | inr there ↦
            (let codes_read = readable a (ap not there) in
              rw (answers a, there) (rw (codes_read.0, codes_read.1, rest) refl))
      ]

module _ (E : Ethers) (D : Decoder) (O : Outside) (sender : Text)
    (sign_node : Text → Text → Signature) (sign_deletion : Text → Signature) (manager : Text)
    (w : Wrapper) (R : Roles) (deployer validator : Text) (past : List Transaction)
    (h : List Call) where
  -- The state that the past has left.
  abbrev pub begun : State
  begun = (run_registry R past (new_registry R deployer manager validator)).listings

  -- The state that the client finds.
  abbrev pub present : State
  present = run_own O sender h begun

  -- Whatever transactions anyone has made since the deployment, those of administrators among them, whatever the
  -- validator and the payment manager answered to each, and whatever the client has sent after them while nothing
  -- else happened: if no validator ever gives the zero address as the owner of some roles, and the codes of the
  -- registered parties are readable as UTF-8, then `getAllParties` returns a list of exactly the parties that have
  -- an operator, each of them once, with the details that the contract keeps for it.
  pub get_all_parties-ListsParties :
      (country_of id_of : Text → Text)
      → HaveOwners past
      → HasOwners O
      → AreReadable E present country_of id_of
      → (ps : List PartyDetails) × ((get_all_parties E D
              (network O sender sign_node sign_deletion manager begun)
              w
              h
            ≡ done ps)
          × ListsParties present country_of id_of ps)
  unfolding get_all_parties
  get_all_parties-ListsParties country_of id_of past_owners owners readable =
      let N = network O sender sign_node sign_deletion manager begun in
      (
        map (details_of present country_of id_of) (keep (is_registered present) present.parties),
        (
          parties_from-details_of present country_of id_of E D N w h (λ a. refl) readable
              present.parties,
          indexed-ListsParties present country_of id_of (
              run_own-IsIndexed O owners sender h begun
                (run_registry-IsIndexed R deployer manager validator past past_owners)),
        ),
      )
