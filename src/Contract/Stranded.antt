-- ===== src/Contract/Stranded.antt =====
-- A domain that an operator leaves by setting another one without a deletion in between.
use ocn_registry_v.Base.{◌≡◌, ◌≢◌, ap, arith, true, false, List, ◌∷◌, ◌==◌, numbers_eq, nat_eq}
use ocn_registry_v.Text.{Text}
use ocn_registry_v.Client.Failures.{is_full}
use ocn_registry_v.Client.Wrapper.{done, failed}
use ocn_registry_v.Client.Types.{node_set}
use ocn_registry_v.Contract.State.{State, set}
use ocn_registry_v.Contract.Operations.{Outside, with_node, transact}
use ocn_registry_v.Contract.Nodes.{IsConsistent}
use ocn_registry_v.Contract.NodeCalls.{taken_error, set_node_of_free, set_node_of_taken}
use ocn_registry_v.Contract.Steps.{NodeStep, placed, removed, kept, transact-Leads}
use ocn_registry_v.Contract.Access.{Roles}
use ocn_registry_v.Contract.Administration.{
  RegistryState, public_call, with_listings, administer, new_registry,
}
use ocn_registry_v.Contract.Administered.{
  Transaction, after_call, run_registry, run_registry-IsConsistent, registry_induction,
}
use ocn_registry_v.Contract.Leads.{map-Leads}

-- The domain is marked as taken, and no operator has it.
abbrev pub IsStranded : Text → State → Type 0
IsStranded domain s =
    (s.unique_domains domain ≡ true) × ((operator : Text) → (s.node_of operator == domain) ≡ false)

NodeStep-IsStranded :
    (domain : Text)
    → is_full domain ≡ true
    → (s t : State) → NodeStep s t
    → IsStranded domain s
    → IsStranded domain t
unfolding set
NodeStep-IsStranded domain full s _ (placed operator other filled free) (taken, none_has) =
    (ground (arith, taken), λ a. ground (arith, none_has a, taken, free))
NodeStep-IsStranded domain full s _ (removed operator there) (taken, none_has) =
    (ground (arith, taken, none_has operator), λ a. ground (arith, none_has a, full))
NodeStep-IsStranded domain full s t (kept _ n d u o) (taken, none_has) =
    (rw d taken, λ a. rw n (none_has a))

replaced-IsStranded :
    (operator old new : Text) (s : State)
    → IsConsistent s
    → s.node_of operator ≡ old
    → is_full old ≡ true
    → (old == new) ≡ false
    → IsStranded old (with_node operator new s)
unfolding set
replaced-IsStranded operator old new s c has full differ = (
  ground (arith, c.taken operator, has, full),
  λ a. ground (arith, c.distinct operator a, has, full, differ),
)

module _ (R : Roles) (deployer manager validator : Text) (past : List Transaction) where
  -- The registry after any transactions since its deployment.
  abbrev pub reached : RegistryState R.Held
  reached = run_registry R past (new_registry R deployer manager validator)

  set_node_taken_up :
      (O : Outside) (operator new : Text) (calls : List Transaction)
      → is_full new ≡ true
      → reached.listings.unique_domains new ≡ false
      → run_registry R ((O, operator, public_call (node_set new)) ∷ calls) reached
        ≡ run_registry R calls
            (record reached { listings = with_node operator new reached.listings })
  unfolding run_registry administer transact
  set_node_taken_up O operator new calls filled free =
      ap (λ o. run_registry R calls (after_call (with_listings R reached o) reached))
        (set_node_of_free operator new reached.listings filled free)

  -- Suppose that after any transactions since the deployment, those of administrators among them, an operator has
  -- a node, and sends `setNode` with another domain that is free. Then the contract takes the transaction. After
  -- that no operator has the old domain, whatever transactions follow, those of administrators among them, and
  -- nobody can register it again: the contract answers that it is taken.
  pub replaced_domain :
      (operator old new : Text) (O later : Outside) (calls : List Transaction) (sender : Text)
      → reached.listings.node_of operator ≡ old
      → is_full old ≡ true
      → is_full new ≡ true
      → reached.listings.unique_domains new ≡ false
      → let replaced : Transaction = (O, operator, public_call (node_set new)) in
        (administer R O operator (public_call (node_set new)) reached
          ≡ done (record reached { listings = with_node operator new reached.listings }))
        × ((a : Text) → (run_registry R (replaced ∷ calls) reached).listings.node_of a ≢ old)
        × (administer R later sender
              (public_call (node_set old))
              (run_registry R (replaced ∷ calls) reached)
            ≡ failed taken_error)
  unfolding administer transact
  replaced_domain operator old new O later calls sender has full filled free =
      let s = reached.listings in
      let c : IsConsistent s = run_registry-IsConsistent R deployer manager validator past in
      let t : RegistryState R.Held = record reached { listings = with_node operator new s } in
      let stranded : IsStranded old (run_registry R calls t).listings =
        registry_induction R (IsStranded old)
          (λ O sender c s h.
            map-Leads (λ t k. NodeStep-IsStranded old full s t k h) (transact-Leads O sender c s))
          calls t
          (replaced-IsStranded operator old new s c has full
            (ground (arith, c.taken operator, has, full, free))) in
      (
        ap (with_listings R reached) (set_node_of_free operator new s filled free),
        rw (set_node_taken_up O operator new calls filled free)
            (λ a same. ground (arith, stranded.1 a, same)),
        rw (set_node_taken_up O operator new calls filled free) (
            ap (with_listings R (run_registry R calls t))
              (set_node_of_taken sender old (run_registry R calls t).listings full stranded.0)),
      )
