-- ===== src/Contract/History.antt =====
-- The listing of nodes over any history of transactions.
use ocn_registry_v.Base.{◌≡◌, refl, List, numbers_eq}
use ocn_registry_v.Text.{Text}
use ocn_registry_v.Client.Types.{Call}
use ocn_registry_v.Base.{nat_eq}
use ocn_registry_v.Contract.Steps.{NodeStep, placed, removed, kept, transact-NodeStep}
use ocn_registry_v.Contract.State.{State, deployed}
use ocn_registry_v.Contract.Operations.{Outside, transact}
use ocn_registry_v.Contract.Nodes.{IsConsistent, with_node-IsConsistent, without_node-IsConsistent}
use ocn_registry_v.Contract.Leads.{run_own_keeps}
use ocn_registry_v.Contract.Run.{after_transaction, run_own}

module _ (O : Outside) (P : State → Type 0) (step : (s t : State) → NodeStep s t → P s → P t) where
  stays_by_step :
      (sender : Text) (c : Call) (s : State) → P s → P (after_transaction (transact O sender c s) s)
  stays_by_step sender c s h = step s _ (transact-NodeStep O sender c s) h

  -- What every step keeps is kept by the transactions of one sender.
  pub run_own_induction :
      (sender : Text) (calls : List Call) (s : State) → P s → P (run_own O sender calls s)
  run_own_induction sender calls s h = run_own_keeps O P stays_by_step sender calls s h

pub kept-IsConsistent :
    (s t : State)
    → t.node_of ≡ s.node_of
    → t.unique_domains ≡ s.unique_domains
    → t.unique_operators ≡ s.unique_operators
    → t.operators ≡ s.operators
    → IsConsistent s
    → IsConsistent t
kept-IsConsistent s t n d u o h = record {
  taken = rw (n, d) h.taken;
  distinct = rw n h.distinct;
  listed = rw (n, u) h.listed;
  known = rw (o, u) h.known;
  once = rw o h.once;
}

pub NodeStep-IsConsistent : (s t : State) → NodeStep s t → IsConsistent s → IsConsistent t
NodeStep-IsConsistent s _ (placed operator domain full free) h =
    with_node-IsConsistent operator domain s h free
NodeStep-IsConsistent s _ (removed operator full) h = without_node-IsConsistent operator s h full
NodeStep-IsConsistent s t (kept _ n d u o) h = kept-IsConsistent s t n d u o h

pub deployed-IsConsistent : IsConsistent deployed
deployed-IsConsistent = record {
  taken = λ a full. absurd (cc full);
  distinct = λ a b full same. absurd (cc full);
  listed = λ a full. absurd (cc full);
  known = λ a. refl;
  once = tt;
}
