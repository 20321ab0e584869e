-- ===== src/Governance/Submitting.antt =====
-- What the proposing tasks, and the tasks that carry a proposal out, send and write.
use ocn_registry_v.Base.{
  ◌≡◌, refl, sym, ◌∙◌, ap, ◌⊎◌, String, Option, none, some, List, [], ◌∷◌, ◌++◌, string_eq, is_some,
  arith, ℕ, or_default, Bool-cases, inl, inr,
}
use mathlib.Core.List.{append_assoc}
use ocn_registry_v.Base.Exec.{
  Result, ok, err, pure, ◌>>=◌, >>=-eq-ok, Moves, moves_rules, Ensures, returned_subst,
  ensures_rules,
}
use ocn_registry_v.Base.Lists.{last-append}
use ocn_registry_v.Base.Dict.{lookup, lookup-insert}
use ocn_registry_v.Governance.Storage.{
  Proposal, Proposals, load_proposals, store_proposal, get_last_proposal,
  get_proposal_by_encoded_function,
}
use ocn_registry_v.Governance.Chain.{Request, propose, Chain, World, send, write_file}
use ocn_registry_v.Governance.Tasks.{
  first, move_blocks, confirm_proposal, submit_proposal, carry_out, chosen_proposal,
}
use ocn_registry_v.Governance.Frame.{
  finish_carrying-Moves, AnyRequest, AnyRequest-PermitsMining, Sends, Sends-IsPreorder, send-Sends,
  move_blocks-Moves,
}

-- A request was the first to be sent, and others may have followed.
abbrev pub Submits : Request → World → World → Type 0
Submits r v w = (rest : List Request) × (w.sent ≡ v.sent ++ r ∷ rest)

-- The proposal that the file holds last.
abbrev pub IsLast : String → String → String → Option String → World → Type 0
IsLast network encoded description none w = Unit
IsLast network encoded description (some id) w =
    get_last_proposal network (load_proposals w.file)
    ≡ some (record { proposal_id = id; encoded_function = encoded; description = description })

store_proposal-last :
    (network id encoded description : String) (ps : Proposals)
    → get_last_proposal network (store_proposal network id encoded description ps)
      ≡ some (record { proposal_id = id; encoded_function = encoded; description = description })
unfolding store_proposal get_last_proposal
store_proposal-last network id encoded description ps =
    let p : Proposal = record {
      proposal_id = id;
      encoded_function = encoded;
      description = description;
    } in
    let before : List Proposal = or_default (lookup network ps) [] in
    ground (arith, lookup-insert network network (before ++ p ∷ []) ps, last-append before p)

none-some : {a : String} → Path (Result (Option String)) (ok none) (ok (some a)) → ⊥
none-some e = cc e

pub err_ok : {message a : String} → Path (Result (Option String)) (err message) (ok (some a)) → ⊥
err_ok e = cc e

pub Result-cases :
    {A : Type 0} (r : Result A) → ((a : A) × (r ≡ ok a)) ⊎ ((m : String) × (r ≡ err m))
Result-cases (ok a) = inl (a, refl)
Result-cases (err m) = inr (m, refl)

module _ (C : Chain) (network : String) where
  write-IsLast :
      (id encoded description : String) (storage : Proposals)
      → Ensures (IsLast network encoded description) (
          write_file (store_proposal network id encoded description storage) >>= λ _.
          pure (some id))
  unfolding write_file ◌>>=◌
  write-IsLast id encoded description storage = record {
    at = λ s t a e.
        returned_subst (IsLast network encoded description) e
          (unfold load_proposals in store_proposal-last network id encoded description storage);
  }

  confirm-IsLast :
      (storage : Proposals) (request : Request) (encoded description : String)
      → Ensures
          (IsLast network encoded description)
          (confirm_proposal C network storage request encoded description)
  unfolding confirm_proposal
  confirm-IsLast storage request encoded description =
      search (ensures_rules, write-IsLast) depth 30 fits 3000

  first-Sends : (ids : List String) → Moves (Sends AnyRequest) (first ids)
  first-Sends [] = search (moves_rules, Sends-IsPreorder)
  first-Sends (id ∷ ids) = search (moves_rules, Sends-IsPreorder)

  mining-Sends : (n : ℕ) → Moves (Sends AnyRequest) (move_blocks C network n)
  mining-Sends =
      move_blocks-Moves C network (Sends-IsPreorder AnyRequest) (send-Sends C AnyRequest)
        AnyRequest-PermitsMining

  write-Sends : (ps : Proposals) → Moves (Sends AnyRequest) (write_file ps)
  unfolding write_file
  write-Sends ps = record { at = (Sends-IsPreorder AnyRequest).same }

  confirm-Sends :
      (storage : Proposals) (request : Request) (encoded description : String)
      → Moves (Sends AnyRequest) (confirm_proposal C network storage request encoded description)
  unfolding confirm_proposal
  confirm-Sends storage request encoded description =
      search (moves_rules, Sends-IsPreorder, mining-Sends, first-Sends, write-Sends) depth 40 fits
        4000

  send_ok :
      (r : Request) (v u : World) {x : Unit {0}}
      → send C r v ≡ (ok x, u)
      → u.sent ≡ v.sent ++ r ∷ []
  unfolding send
  send_ok r v u e = ground arith

  pub submit-Submits :
      (storage : Proposals) (target encoded description id : String) (v w : World)
      → submit_proposal C network storage target encoded description v ≡ (ok (some id), w)
      → Submits (propose (target ∷ []) (0 ∷ []) (encoded ∷ []) description) v w
        × IsLast network encoded description (some id) w
  unfolding submit_proposal
  submit-Submits storage target encoded description id v w h =
      elim (Bool-cases (is_some (get_proposal_by_encoded_function network encoded storage))) [
        | inl known ↦ absurd (none-some (ap (λ x. x.0) (rw known at h)))
        | inr fresh ↦
            let r = propose (target ∷ []) (0 ∷ []) (encoded ∷ []) description in
            let (x, u, sent, confirmed) = >>=-eq-ok (send C r) _ v (rw fresh at h) in
            let (rest, e, _) = (confirm-Sends storage r encoded description).at u in
            (
              (
                rest,
                sym (ap (λ x. x.1.sent) confirmed) ∙ e ∙ rw (send_ok r v u sent, append_assoc),
              ),
              (confirm-IsLast storage r encoded description).at u w (some id) confirmed,
            )
      ]

  carry_out-Submits :
      (request : List String → List ℕ → List String → String → Request) (p : Proposal)
      (manager governor : String) (w : World)
      → C.contract w.sent "OcnPaymentManager" ≡ ok manager
      → C.contract w.sent "OcnGovernor" ≡ ok governor
      → C.accepts w.sent
          (request (manager ∷ []) (0 ∷ []) (p.encoded_function ∷ []) (C.hash p.description))
        ≡ ok tt
      → Submits
          (request (manager ∷ []) (0 ∷ []) (p.encoded_function ∷ []) (C.hash p.description))
          w
          (carry_out C network request (some p) w).1
  unfolding carry_out ◌>>=◌ send
  carry_out-Submits request p manager governor w hm hg accepted =
      let filled =
        request (manager ∷ []) (0 ∷ []) (p.encoded_function ∷ []) (C.hash p.description) in
      let (rest, e, _) =
        (finish_carrying-Moves C network (Sends-IsPreorder AnyRequest) (send-Sends C AnyRequest)
            AnyRequest-PermitsMining filled).at
          (record w { sent = w.sent ++ filled ∷ [] }) in
      rw hm (rw hg (rw accepted (rest, e ∙ rw append_assoc)))

  -- The last proposal of the file, carried out with no identifier given.
  pub last_carried_out :
      (request : List String → List ℕ → List String → String → Request)
      (encoded description id manager governor : String) (w : World)
      → IsLast network encoded description (some id) w
      → C.contract w.sent "OcnPaymentManager" ≡ ok manager
      → C.contract w.sent "OcnGovernor" ≡ ok governor
      → C.accepts w.sent (request (manager ∷ []) (0 ∷ []) (encoded ∷ []) (C.hash description))
        ≡ ok tt
      → Submits
          (request (manager ∷ []) (0 ∷ []) (encoded ∷ []) (C.hash description))
          w
          (carry_out C network request (chosen_proposal C network none (load_proposals w.file)) w).1
  unfolding chosen_proposal
  last_carried_out request encoded description id manager governor w found hm hg accepted =
      rw found (carry_out-Submits request _ manager governor w hm hg accepted)
