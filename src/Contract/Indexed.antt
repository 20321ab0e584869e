-- ===== src/Contract/Indexed.antt =====
-- The index that each registered party has in the array of parties.
use ocn_registry_v.Base.{
  ◌≡◌, refl, sym, ap, ◌∙◌, arith, ℕ, true, false, not, some, List, [], ◌∷◌, ◌++◌, ◌==◌, nat_eq,
  numbers_eq, if◌then◌else◌, Bool-cases, inl, inr,
}
use ocn_registry_v.Base.Lists.{length, All}
use ocn_registry_v.Text.{Text}
use ocn_registry_v.Client.Types.{Call, zero_address}
use ocn_registry_v.Contract.State.{State, PartyRow, set, deployed}
use ocn_registry_v.Contract.Operations.{Outside, with_party, without_party, blank, transact}
use ocn_registry_v.Contract.Entries.{
  entry, entry-append, entry-blank_same, entry-blank_other, entry-bound,
}
use ocn_registry_v.Contract.PartySteps.{
  PartyStep, registered, unregistered, unchanged, HasOwners, after_transaction-PartyStep,
  transact-PartyStep,
}
use ocn_registry_v.Contract.Access.{Roles}
use ocn_registry_v.Contract.Administration.{new_registry}
use ocn_registry_v.Contract.Administered.{Transaction, run_registry, restricted_induction}
use ocn_registry_v.Contract.Leads.{run_own_keeps, map-Leads}
use ocn_registry_v.Contract.Run.{run_own, after_transaction}

-- The parties with an operator are those marked as registered, each is at the index of its own row, and at
-- no other.
pub record IsIndexed (s : State) : Type 0 where
  pub marked : (a : Text) → s.unique_party_addresses a ≡ not (s.operator_of a == zero_address)
  pub nonzero : (a : Text) → s.unique_party_addresses a ≡ true → (a == zero_address) ≡ false
  pub at_index :
      (a : Text)
      → s.unique_party_addresses a ≡ true
      → entry (s.party_of a).party_index s.parties ≡ some a
  pub only_there :
      (i : ℕ) (a : Text)
      → entry i s.parties ≡ some a
      → (a == zero_address) ≡ false
      → (s.unique_party_addresses a ≡ true) × ((s.party_of a).party_index ≡ i)

equal_text : (a b : Text) → (a == b) ≡ true → a ≡ b
equal_text a b h = ground (arith, h)

module _ (s : State) (owner operator : Text) (row : PartyRow) (h : IsIndexed s)
    (given : (operator == zero_address) ≡ false)
    (owner_real : (owner == zero_address) ≡ false) where
  marked_after :
      (a : Text)
      → (with_party owner row operator s).unique_party_addresses a
        ≡ not ((with_party owner row operator s).operator_of a == zero_address)
  unfolding set
  marked_after a = elim (Bool-cases (a == owner)) [
    | inl same ↦ rw (same, given) refl
    | inr other ↦ rw other (h.marked a)
  ]

  nonzero_after :
      (a : Text)
      → (with_party owner row operator s).unique_party_addresses a ≡ true
      → (a == zero_address) ≡ false
  unfolding set
  nonzero_after a k = elim (Bool-cases (a == owner)) [
    | inl same ↦ ap (λ x. x == zero_address) (equal_text a owner same) ∙ owner_real
    | inr other ↦
        h.nonzero a (sym (ap (λ b. if b then true else s.unique_party_addresses a) other) ∙ k)
  ]

  again-IsIndexed :
      s.unique_party_addresses owner ≡ true
      → row.party_index ≡ (s.party_of owner).party_index
      → IsIndexed (with_party owner row operator s)
  unfolding set
  again-IsIndexed there index = record {
    marked = marked_after;
    nonzero = nonzero_after;
    at_index = λ a k. rw there (ground (arith, h.at_index a, h.at_index owner, index, there, k));
    only_there = λ i a k real.
        (let e : entry i s.parties ≡ some a =
            sym (ap (λ b. entry i (if b then s.parties else s.parties ++ owner ∷ [])) there) ∙ k in
          ground (arith, h.only_there i a e real, index));
  }

  new-IsIndexed :
      s.unique_party_addresses owner ≡ false
      → row.party_index ≡ length s.parties
      → IsIndexed (with_party owner row operator s)
  unfolding set
  new-IsIndexed fresh index = record {
    marked = marked_after;
    nonzero = nonzero_after;
    at_index = λ a k. rw fresh (
        ground (
          arith,
          index,
          k,
          h.at_index a,
          entry-append row.party_index s.parties owner,
          entry-append (s.party_of a).party_index s.parties owner,
          entry-bound (s.party_of a).party_index s.parties a,
        ));
    only_there = λ i a k real.
        (let e : entry i (s.parties ++ owner ∷ []) ≡ some a =
            sym (ap (λ b. entry i (if b then s.parties else s.parties ++ owner ∷ [])) fresh) ∙ k in
          ground (arith, e, h.only_there i a, real, index, fresh, entry-append i s.parties owner));
  }

  registered-IsIndexed :
      row.party_index ≡ (
        if s.unique_party_addresses owner then (s.party_of owner).party_index else length s.parties)
      → IsIndexed (with_party owner row operator s)
  registered-IsIndexed index = elim (Bool-cases (s.unique_party_addresses owner)) [
    | inl there ↦ again-IsIndexed there (ground (arith, index, there))
    | inr fresh ↦ new-IsIndexed fresh (ground (arith, index, fresh))
  ]

zero_is_zero : (zero_address == zero_address) ≡ true
unfolding numbers_eq
zero_is_zero = refl

pub at_zero : (a : Text) → a ≡ zero_address → (a == zero_address) ≡ false → ⊥
at_zero a same real =
    let clash : true ≡ false = sym (ap (λ x. x == zero_address) same ∙ zero_is_zero) ∙ real in
    absurd (cc clash)

equal_index : (i j : ℕ) → (i == j) ≡ true → i ≡ j
equal_index i j h = ground (arith, h)

module _ (party : Text) (s : State) (h : IsIndexed s)
    (there : s.unique_party_addresses party ≡ true) where
  index_apart :
      (a : Text)
      → (a == party) ≡ false
      → s.unique_party_addresses a ≡ true
      → ((s.party_of a).party_index == (s.party_of party).party_index) ≡ false
  index_apart a other k = ground (arith, h.at_index a k, h.at_index party there, other)

  -- An entry that is left was there before, and is not the party's.
  left :
      (i : ℕ) (a : Text)
      → entry i (blank (s.party_of party).party_index s.parties) ≡ some a
      → (a == zero_address) ≡ false
      → (entry i s.parties ≡ some a) × ((i == (s.party_of party).party_index) ≡ false)
  left i a k real = elim (Bool-cases (i == (s.party_of party).party_index)) [
    | inr other ↦ (sym (entry-blank_other i _ s.parties other) ∙ k, other)
    | inl same ↦ absurd (
        at_zero a
          (entry-blank_same i s.parties a
            (ap (λ j. entry i (blank j s.parties)) (equal_index i _ same) ∙ k))
          real)
  ]

  not_party :
      (i : ℕ) (a : Text)
      → s.unique_party_addresses a ≡ true
      → (s.party_of a).party_index ≡ i
      → (i == (s.party_of party).party_index) ≡ false
      → (a == party) ≡ false
  not_party i a k index other = ground (arith, index, other)

  unregistered-IsIndexed : IsIndexed (without_party party s)
  unfolding set
  unregistered-IsIndexed = record {
    marked = λ a. elim (Bool-cases (a == party)) [
      | inl same ↦ rw same (ap not (sym zero_is_zero))
      | inr other ↦ rw other (h.marked a)
    ];
    nonzero = λ a k. h.nonzero a (ground (arith, k));
    at_index = λ a k. elim (Bool-cases (a == party)) [
      | inl same ↦ absurd (ground (arith, k, same))
      | inr other ↦
          (let old : s.unique_party_addresses a ≡ true = ground (arith, k, other) in
            rw other (
              entry-blank_other (s.party_of a).party_index _ s.parties (index_apart a other old)
              ∙ h.at_index a old))
    ];
    only_there = λ i a k real.
        (let before = left i a k real in
          let old = h.only_there i a before.0 real in rw (not_party i a old.0 old.1 before.1) old);
  }

PartyStep-IsIndexed : (s t : State) → PartyStep s t → IsIndexed s → IsIndexed t
PartyStep-IsIndexed s _ (registered owner operator row real given index) h =
    registered-IsIndexed s owner operator row h given real index
PartyStep-IsIndexed s _ (unregistered party listed) h =
    unregistered-IsIndexed party s h (h.marked party ∙ ap not listed)
PartyStep-IsIndexed s t (unchanged _ u p o l) h = record {
  marked = rw (u, o) h.marked;
  nonzero = rw u h.nonzero;
  at_index = rw (u, p, l) h.at_index;
  only_there = rw (u, p, l) h.only_there;
}

deployed-IsIndexed : IsIndexed deployed
unfolding numbers_eq entry
deployed-IsIndexed = record {
  marked = λ a. refl;
  nonzero = λ a k. absurd (cc k);
  at_index = λ a k. absurd (cc k);
  only_there = λ i a k real. absurd (cc k);
}

-- The validator that each transaction meets never gives the zero address as an owner.
abbrev pub HaveOwners : List Transaction → Type 0
HaveOwners past = All (λ (t : Transaction). HasOwners t.0) past

pub run_registry-IsIndexed :
    (R : Roles) (deployer manager validator : Text) (past : List Transaction)
    → HaveOwners past
    → IsIndexed (run_registry R past (new_registry R deployer manager validator)).listings
run_registry-IsIndexed R deployer manager validator past owners =
    restricted_induction R HasOwners IsIndexed
      (λ O sender c s given h.
        map-Leads (λ t k. PartyStep-IsIndexed s t k h) (transact-PartyStep O given sender c s))
      past (new_registry R deployer manager validator) owners deployed-IsIndexed

module _ (O : Outside) (owners : HasOwners O) where
  stays-IsIndexed :
      (sender : Text) (c : Call) (s : State)
      → IsIndexed s
      → IsIndexed (after_transaction (transact O sender c s) s)
  stays-IsIndexed sender c s h =
      PartyStep-IsIndexed s _ (after_transaction-PartyStep O owners sender c s) h

  pub run_own-IsIndexed :
      (sender : Text) (h : List Call) (s : State) → IsIndexed s → IsIndexed (run_own O sender h s)
  run_own-IsIndexed sender h s indexed =
      run_own_keeps O IsIndexed stays-IsIndexed sender h s indexed
