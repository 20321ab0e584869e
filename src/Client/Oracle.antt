-- ===== src/Client/Oracle.antt =====
-- `OracleCli` of src/lib/oracle.ts. Unlike the other clients it makes no checks of its own.
use ocn_registry_v.Base.{List, [], ◌∷◌, ◌++◌}
use ocn_registry_v.Text.{Text}
use ocn_registry_v.Client.Wrapper.{Outcome, done, failed, ◌>=>◌}

-- A provider as the contract keeps it.
pub record Listed : Type 0 where
  pub tag : Text
  pub identifier : Text

-- The oracle on its network. What it answers depends on the providers added before, the last one last.
pub record OracleNetwork : Type 0 where
  pub get_provider : List Listed → Text → Outcome Listed
  pub get_providers : List Listed → Outcome (List Listed)
  -- whether the network takes the transaction
  pub accept : List Listed → Listed → Outcome (Unit {0})
  -- `tx.wait()`
  pub wait : List Listed → Listed → Outcome (Unit {0})

module _ (N : OracleNetwork) where
  unfoldable pub get_provider : Text → List Listed → Outcome Listed
  get_provider identifier h = N.get_provider h identifier

  unfoldable pub get_all_providers : List Listed → Outcome (List Listed)
  get_all_providers h = N.get_providers h

  unfoldable pub set_provider : Text → Text → List Listed → Outcome Listed × List Listed
  set_provider identifier tag h =
      let added : Listed = record { tag = tag; identifier = identifier } in
      elim (N.accept h added) [
        | failed e ↦ (failed e, h)
        | done _ ↦ (N.wait (h ++ added ∷ []) added >=> λ _. done added, h ++ added ∷ [])
      ]
