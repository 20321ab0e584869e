-- ===== src/Contract/Leads.antt =====
-- What holds of the state that an operation of the registry contract leaves, if it does not revert.
use ocn_registry_v.Base.{Bool, true, false, List, [], ◌∷◌, if◌then◌else◌}
use ocn_registry_v.Text.{Text}
use ocn_registry_v.Client.Failures.{Failure}
use ocn_registry_v.Client.Types.{Call}
use ocn_registry_v.Client.Wrapper.{Outcome, done, failed, ◌>=>◌}
use ocn_registry_v.Contract.State.{State}
use ocn_registry_v.Contract.Operations.{Outside, transact}
use ocn_registry_v.Contract.Run.{after_transaction, run_own}

pub data Leads (P : State → Type 0) : Outcome State → Type 0 where
  reverts : (e : Failure) → Leads P (failed e)
  steps : (t : State) → P t → Leads P (done t)

pub after_transaction_lem :
    (P : State → Type 0) (s : State) (o : Outcome State)
    → P s
    → Leads P o
    → P (after_transaction o s)
after_transaction_lem P s _ same (reverts e) = same
after_transaction_lem P s _ same (steps t h) = h

pub map-Leads :
    {P Q : State → Type 0} {o : Outcome State} → ((t : State) → P t → Q t) → Leads P o → Leads Q o
map-Leads f (reverts e) = reverts e
map-Leads f (steps t h) = steps t (f t h)

pub if-Leads :
    {P : State → Type 0} {o : Outcome State}
    → (b : Bool) (e : Failure) → Leads P o
    → Leads P (if b then failed e else o)
if-Leads true e h = reverts e
if-Leads false e h = h

pub bind-Leads :
    {P : State → Type 0} {A : Type 0}
    → (m : Outcome A) (f : A → Outcome State) → ((a : A) → Leads P (f a))
    → Leads P (m >=> f)
bind-Leads (done a) f h = h a
bind-Leads (failed e) f h = reverts e

module _ (O : Outside) (P : State → Type 0)
    (stays : (sender : Text) (c : Call) (s : State)
      → P s
      → P (after_transaction (transact O sender c s) s)) where
  -- What every transaction keeps is kept by those of one sender.
  pub run_own_keeps :
      (sender : Text) (calls : List Call) (s : State) → P s → P (run_own O sender calls s)
  unfolding run_own
  run_own_keeps sender [] s h = h
  run_own_keeps sender (c ∷ calls) s h = run_own_keeps sender calls _ (stays sender c s h)
