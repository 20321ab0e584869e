-- ===== src/Contract/Administered.antt =====
-- The listing of nodes over any history of transactions, those of administrators among them.
use ocn_registry_v.Base.{Bool, not, true, false, List, [], ◌∷◌, ◌==◌, numbers_eq}
use ocn_registry_v.Base.Lists.{All}
use ocn_registry_v.Text.{Text}
use ocn_registry_v.Client.Failures.{Failure}
use ocn_registry_v.Client.Types.{Call, node_deleted, party_deleted, zero_address}
use ocn_registry_v.Client.Wrapper.{Outcome, done, failed, ◌>=>◌}
use ocn_registry_v.Contract.Access.{Roles, require}
use ocn_registry_v.Contract.Administration.{
  RegistryState, RegistryCall, public_call, operator_removed, party_removed, validator_set,
  ownership_given, administer, is_admin, with_listings, new_registry,
}
use ocn_registry_v.Contract.History.{NodeStep-IsConsistent, deployed-IsConsistent}
use ocn_registry_v.Contract.Leads.{Leads, reverts, steps, map-Leads}
use ocn_registry_v.Contract.Nodes.{IsConsistent}
use ocn_registry_v.Contract.Operations.{Outside, transact}
use ocn_registry_v.Contract.State.{State}
use ocn_registry_v.Contract.Steps.{transact-Leads}

abbrev pub after_call : {H : Type 0} → Outcome (RegistryState H) → RegistryState H → RegistryState H
after_call (done r) old = r
after_call (failed e) old = old

-- A transaction: what the contract asks of others while it runs, which may change from one to the next, its sender,
-- and the call.
abbrev pub Transaction : Type 0
Transaction = Outside × Text × RegistryCall

module _ (R : Roles) where
  -- Transactions of any senders, one after the other. One that reverts changes nothing.
  unfoldable pub run_registry : List Transaction → RegistryState R.Held → RegistryState R.Held
  run_registry [] r = r
  run_registry ((O, sender, c) ∷ calls) r =
      run_registry calls (after_call (administer R O sender c r) r)

  -- What every operation on the listings keeps is kept by every history, those of administrators in it, where
  -- what is asked of others is restricted as `Q` says.
  module _ (Q : Outside → Type 0) (P : State → Type 0)
      (stays : (O : Outside) (sender : Text) (c : Call) (s : State)
        → Q O
        → P s
        → Leads P (transact O sender c s)) where
    listed_step :
        (r : RegistryState R.Held) (o : Outcome State)
        → Leads P o
        → P r.listings
        → P (after_call (with_listings R r o) r).listings
    listed_step r _ (reverts e) h = h
    listed_step r _ (steps t k) h = k

    guarded :
        (b : Bool) (e : Failure) (r : RegistryState R.Held) (o : Outcome (RegistryState R.Held))
        → P r.listings
        → P (after_call o r).listings
        → P (after_call (require b e >=> λ _. o) r).listings
    guarded true e r o h k = k
    guarded false e r o h k = h

    administer_keeps :
        (O : Outside) (sender : Text) (c : RegistryCall) (r : RegistryState R.Held)
        → Q O
        → P r.listings
        → P (after_call (administer R O sender c r) r).listings
    unfolding administer transact
    administer_keeps O sender (public_call c) r q h =
        listed_step r _ (stays O sender c r.listings q h) h
    administer_keeps O sender (operator_removed operator) r q h =
        guarded (is_admin R sender r.held) _ r _ h
          (listed_step r _ (stays O operator node_deleted r.listings q h) h)
    administer_keeps O sender (party_removed country_code party_id) r q h =
        let party = r.listings.unique_parties country_code party_id in
        guarded (is_admin R sender r.held) _ r _ h
          (listed_step r _ (stays O party party_deleted r.listings q h) h)
    administer_keeps O sender (validator_set validator) r q h =
        guarded (is_admin R sender r.held) _ r _ h
          (guarded (not (validator == zero_address)) _ r (done _) h h)
    administer_keeps O sender (ownership_given owner) r q h =
        guarded (is_admin R sender r.held) _ r (done _) h h

    pub restricted_induction :
        (calls : List Transaction) (r : RegistryState R.Held)
        → All (λ (t : Transaction). Q t.0) calls
        → P r.listings
        → P (run_registry calls r).listings
    unfolding run_registry
    restricted_induction [] r qs h = h
    restricted_induction ((O, sender, c) ∷ calls) r (q, qs) h =
        restricted_induction calls _ qs (administer_keeps O sender c r q h)

  unrestricted : (calls : List Transaction) → All (λ (t : Transaction). Unit {0}) calls
  unrestricted [] = tt
  unrestricted (t ∷ calls) = (tt, unrestricted calls)

  pub registry_induction :
      (P : State → Type 0)
      (stays : (O : Outside) (sender : Text) (c : Call) (s : State)
        → P s
        → Leads P (transact O sender c s))
      (calls : List Transaction) (r : RegistryState R.Held)
      → P r.listings
      → P (run_registry calls r).listings
  registry_induction P stays calls r h =
      restricted_induction (λ O. Unit {0}) P (λ O sender c s q k. stays O sender c s k) calls r
        (unrestricted calls) h

  pub run_registry-IsConsistent :
      (sender manager validator : Text) (calls : List Transaction)
      → IsConsistent (run_registry calls (new_registry R sender manager validator)).listings
  run_registry-IsConsistent sender manager validator calls =
      registry_induction IsConsistent
        (λ O sender c s h.
          map-Leads (λ t k. NodeStep-IsConsistent s t k h) (transact-Leads O sender c s))
        calls (new_registry R sender manager validator) deployed-IsConsistent
