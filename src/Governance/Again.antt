-- ===== src/Governance/Again.antt =====
-- A second proposal of the same call.
use ocn_registry_v.Base.{
  ◌≡◌, refl, sym, ◌∙◌, String, Option, none, some, [], ◌∷◌, ◌==◌, string_eq, is_some, arith, ℕ,
  true,
}
use ocn_registry_v.Base.Exec.{
  ok, pure, ◌>>=◌, IsPreorder, Moves, Moves-bind, Moves-bind-known, Moves-ask, Moves-pure, Ensures,
  Ensures-bind, Ensures-bind-known, returned_subst, ensures_rules,
}
use ocn_registry_v.Base.Lists.{find, find-append}
use ocn_registry_v.Governance.Storage.{
  Proposals, load_proposals, get_proposals, store_proposal, get_proposal_by_encoded_function,
}
use ocn_registry_v.Governance.Chain.{number, Chain, World, write_file}
use ocn_registry_v.Governance.Tasks.{
  confirm_proposal, submit_proposal, propose_amount_from, propose_amount, given_number,
  new_yearly_amount,
}
use ocn_registry_v.Governance.Once.{encoded-eq-find, store_proposal-get_proposals}

-- What the file says of a call after a run that proposed it.
abbrev IsRecorded : String → String → Option String → World → Type 0
IsRecorded network encoded none w = Unit
IsRecorded network encoded (some id) w =
    is_some (get_proposal_by_encoded_function network encoded (load_proposals w.file)) ≡ true

store_proposal-finds :
    (network id encoded description : String) (ps : Proposals)
    → is_some (
        get_proposal_by_encoded_function network encoded
          (store_proposal network id encoded description ps))
      ≡ true
unfolding find
store_proposal-finds network id encoded description ps =
    rw (encoded-eq-find, store_proposal-get_proposals)
      (ground (
        arith,
        find-append (λ p. p.encoded_function == encoded) (get_proposals network ps)
            (record { proposal_id = id; encoded_function = encoded; description = description }
              ∷ []),
      ))

okay : {a b : String} → ok a ≡ ok b → a ≡ b
okay e = cc e

abbrev SameWorld : World → World → Type 0
SameWorld v w = w ≡ v

SameWorld-IsPreorder : IsPreorder SameWorld
SameWorld-IsPreorder = record { same = λ s. refl; chain = λ s t u p q. q ∙ p }

module _ (C : Chain) (network : String) where
  write-IsRecorded :
      (id encoded description : String) (storage : Proposals)
      → Ensures (IsRecorded network encoded) (
          write_file (store_proposal network id encoded description storage) >>= λ _.
          pure (some id))
  unfolding write_file ◌>>=◌
  write-IsRecorded id encoded description storage = record {
    at = λ s t a e.
        returned_subst (IsRecorded network encoded) e
          (unfold load_proposals in store_proposal-finds network id encoded description storage);
  }

  submit-IsRecorded :
      (storage : Proposals) (target encoded description : String)
      → Ensures
          (IsRecorded network encoded)
          (submit_proposal C network storage target encoded description)
  unfolding submit_proposal confirm_proposal
  submit-IsRecorded storage target encoded description =
      search (ensures_rules, write-IsRecorded) depth 30 fits 3000

  -- The call of an amount, as it was encoded.
  abbrev IsAmountRecorded : Option ℕ → Option String → World → Type 0
  IsAmountRecorded amount a w =
      (encoded : String)
      → C.encode "OcnPaymentManager" "setFundingYearlyAmount"
          (number (given_number amount new_yearly_amount) ∷ [])
        ≡ ok encoded
      → IsRecorded network encoded a w

  submit-IsAmountRecorded :
      (storage : Proposals) (target encoded description : String) (amount : Option ℕ)
      → C.encode "OcnPaymentManager" "setFundingYearlyAmount"
          (number (given_number amount new_yearly_amount) ∷ [])
        ≡ ok encoded
      → Ensures
          (IsAmountRecorded amount)
          (submit_proposal C network storage target encoded description)
  submit-IsAmountRecorded storage target encoded description amount known = record {
    at = λ s t a e other same.
        rw (← okay (sym known ∙ same))
          ((submit-IsRecorded storage target encoded description).at s t a e);
  }

  amount-IsRecorded :
      (storage : Proposals) (amount : Option ℕ) (descr : Option String)
      → Ensures (IsAmountRecorded amount) (propose_amount_from C network storage amount descr)
  unfolding propose_amount_from
  amount-IsRecorded storage amount descr = Ensures-bind _ _ λ _. Ensures-bind _ _ λ manager.
      Ensures-bind-known _ _
        λ encoded known. submit-IsAmountRecorded storage manager encoded _ amount known

  submit_known :
      (storage : Proposals) (target encoded description : String)
      → is_some (get_proposal_by_encoded_function network encoded storage) ≡ true
      → Moves SameWorld (submit_proposal C network storage target encoded description)
  unfolding submit_proposal
  submit_known storage target encoded description known =
      rw known (Moves-pure SameWorld-IsPreorder none)

  amount_known :
      (storage : Proposals) (amount : Option ℕ) (descr : Option String)
      → ((encoded : String)
          → C.encode "OcnPaymentManager" "setFundingYearlyAmount"
              (number (given_number amount new_yearly_amount) ∷ [])
            ≡ ok encoded
          → is_some (get_proposal_by_encoded_function network encoded storage) ≡ true)
      → Moves SameWorld (propose_amount_from C network storage amount descr)
  unfolding propose_amount_from
  amount_known storage amount descr known =
      Moves-bind SameWorld-IsPreorder _ _ (Moves-ask SameWorld-IsPreorder _) λ _.
        Moves-bind SameWorld-IsPreorder _ _ (Moves-ask SameWorld-IsPreorder _) λ manager.
          Moves-bind-known SameWorld-IsPreorder _ _
            λ encoded e. submit_known storage manager encoded _ (known encoded e)

  -- Once an amount has been proposed, proposing it again, under any description, sends nothing and
  -- writes nothing.
  pub propose_amount_again :
      (amount : Option ℕ) (descr descr' : Option String) (id : String) (v w : World)
      → propose_amount C network amount descr v ≡ (ok (some id), w)
      → (propose_amount C network amount descr' w).1 ≡ w
  unfolding propose_amount
  propose_amount_again amount descr descr' id v w h =
      (amount_known (load_proposals w.file) amount descr'
          ((amount-IsRecorded (load_proposals v.file) amount descr).at v w (some id) h)).at
        w
