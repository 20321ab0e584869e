-- ===== src/Staking/Status.antt =====
-- The payment status of a party, told from the events of the contract.
use ocn_registry_v.Base.{◌≡◌, ℕ, ◌<◌, List, [], ◌∷◌, ◌==◌, nat_eq, numbers_eq, ltb, if◌then◌else◌}
use ocn_registry_v.Text.{Text}
use ocn_registry_v.Staking.State.{
  Tokens, Roles, LogEntry, party_staked, stake_withdrawn, ownership_transferred_entry,
}
use ocn_registry_v.Staking.Operations.{Staking, get_payment_status}
use ocn_registry_v.Staking.Reached.{Reached}

-- The status after an event, from the one before.
abbrev pub status_after : Text → ℕ → LogEntry → ℕ
status_after party status (party_staked sender p amount) =
    if p == party then (if ltb 0 amount then 1 else 2) else status
status_after party status (stake_withdrawn p amount) = if p == party then 2 else status
status_after party status (ownership_transferred_entry sender owner) = status

pub replay : Text → ℕ → List LogEntry → ℕ
replay party status [] = status
replay party status (entry ∷ log) = replay party (status_after party status entry) log

module _ (R : Roles) (T : Tokens) (this coin : Text) where
  record IsToldByLog (w : Staking R T) : Type 0 where
    told : (party : Text) → get_payment_status R T party w ≡ replay party 0 w.manager.log
    begun : (party : Text) → 0 < w.manager.staked_funds party → 0 < w.manager.staking_block party
