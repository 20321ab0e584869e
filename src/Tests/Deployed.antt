-- ===== src/Tests/Deployed.antt =====
-- The deployment of all contracts, the copy of a small folder, and the tasks with tokens.
use mathlib.Core.Path.{subst}
use mathlib.Core.Logic.{if_neg}
use ocn_registry_v.Base.{
  sym, ◌≡◌, refl, arith, ℕ, ◌<◌, Bool, true, false, none, some, List, [], ◌∷◌, ◌++◌, ◌==◌,
  numbers_eq, nat_eq, if◌then◌else◌,
}
use ocn_registry_v.Base.Lists.{All}
use ocn_registry_v.Text.{Text, codes}
use ocn_registry_v.Client.Failures.{new_error, is_full}
use ocn_registry_v.Client.Wrapper.{Outcome, done, failed, is_done}
use ocn_registry_v.Deployment.Hardhat.{Hardhat, text, Sent}
use ocn_registry_v.Deployment.Scripts.{PaymentEnvironment, deploy_contracts}
use ocn_registry_v.Deployment.Ordered.{Progress}
use ocn_registry_v.Deployment.Plans.{IsStable, contracts_plan}
use ocn_registry_v.Deployment.Planned.{deploy_contracts_ordered}
use ocn_registry_v.Deployment.Finished.{IsWilling, deploy_contracts_sends}
use ocn_registry_v.Deployment.Copies.{
  Action, Files, IsBelow, IsNested, copy_deployments, copy_deployments_ends,
}
use ocn_registry_v.Deployment.Funding.{
  TokenChain, send_stable_coins, named_accounts, send_stable_coins_unnamed,
}

abbrev chain : Hardhat
chain = record {
  deployer = codes "0xd";
  contract = λ h name. done name;
  get = λ h name. done name;
  query = λ h a name. done name;
  accept = λ h r. done tt;
  wait = λ h r. done tt;
  address_of = λ h name. name;
}

result_eq : {a b : Text} → Path (Outcome Text) (done a) (done b) → b ≡ a
result_eq e = cc

chain-IsStable : IsStable chain (λ name. name) (λ name. name)
chain-IsStable = record {
  placed = λ h name. refl;
  found = λ h name a e. result_eq e;
  got = λ h name a e. result_eq e;
  roles = λ h timelock name a known e. result_eq e;
}

chain-IsWilling : IsWilling chain
chain-IsWilling = record {
  accepts = λ h r. refl;
  confirms = λ h r. refl;
  finds = λ h name. refl;
  gets = λ h name. refl;
  answers = λ h a name. refl;
}

abbrev payment_environment : PaymentEnvironment
payment_environment = record {
  stablecoin_address = codes "0x1";
  stablecoin_deployment_name = [];
  default_operator = codes "0x2";
}

abbrev whole_plan : List Sent
whole_plan = contracts_plan chain (λ name. name) (λ name. name) text payment_environment

deploy_contracts_ordered_example :
    Progress whole_plan []
      (deploy_contracts chain text is_full payment_environment (codes "gnosis") []).1
      (is_done (deploy_contracts chain text is_full payment_environment (codes "gnosis") []).0)
deploy_contracts_ordered_example =
    deploy_contracts_ordered chain (λ name. name) (λ name. name) chain-IsStable text is_full
      payment_environment (codes "gnosis") []

deploy_contracts_sends_example :
    deploy_contracts chain text is_full payment_environment (codes "gnosis") []
    ≡ (done tt, [] ++ whole_plan)
unfolding numbers_eq
deploy_contracts_sends_example =
    deploy_contracts_sends chain chain-IsWilling (codes "gnosis") refl (λ name. name) (λ name. name)
      chain-IsStable text is_full payment_environment refl []

-- A folder "a" with a file "f" and a folder "b", which has a file "g".
abbrev entries_of : Text → List (Text × Bool)
entries_of path =
    if path == codes "a"
    then (codes "f", false) ∷ (codes "b", true) ∷ []
    else if path == codes "ab"
    then (codes "g", false) ∷ []
    else []

abbrev files : Files
files = record {
  exists_sync = λ h path. false;
  readdir_sync = λ h path. done (entries_of path);
  accept = λ h a. done tt;
  path_join = λ folder name. folder ++ name;
}

abbrev depth_of : Text → ℕ
depth_of path = if path == codes "a" then 1 else 0

nested_at : (path : Text) → All (IsBelow files depth_of path) (entries_of path)
unfolding numbers_eq
nested_at path = elim (numbers_eq.dec path (codes "a")) [
  | yes same ↦
      subst (λ q. All (IsBelow files depth_of q) (entries_of q)) (sym same) (tt, (omega arith, tt))
  | no other ↦ elim (numbers_eq.dec path (codes "ab")) [
    | yes same ↦ subst (λ q. All (IsBelow files depth_of q) (entries_of q)) (sym same) (tt, tt)
    | no another ↦ rw (if_neg _ other) (rw (if_neg _ another) tt)
  ]
]

listed_eq :
    {a b : List (Text × Bool)} → Path (Outcome (List (Text × Bool))) (done a) (done b) → a ≡ b
listed_eq e = cc

files-IsNested : IsNested files depth_of
files-IsNested h path entries listed =
    subst (All (IsBelow files depth_of path)) (listed_eq listed) (nested_at path)

copy_deployments_ends_example :
    (r : Outcome (Unit {0}) × List Action) × (copy_deployments files 2 (codes "a") (codes "c") []
      ≡ some r)
    × ((more : ℕ)
        → depth_of (codes "a") < more
        → copy_deployments files more (codes "a") (codes "c") [] ≡ some r)
unfolding numbers_eq
copy_deployments_ends_example =
    copy_deployments_ends files depth_of files-IsNested 2 (codes "a") (codes "c") [] (omega arith)

abbrev tokens : TokenChain
tokens = record {
  contract = λ h name. done name;
  signer = λ h account. elim account [ some a ↦ done a | none ↦ failed (new_error []) ];
  first_signer = codes "0xd";
  address_arg = λ account. elim account [ some a ↦ done (text a) | none ↦ failed (new_error []) ];
  asked = λ h a account. done tt;
  accept = λ h c. done tt;
  parse_units = text;
  max_uint = text (codes "max");
}

send_stable_coins_unnamed_example :
    (is_done (send_stable_coins tokens (named_accounts (codes "0xd")) []).0 ≡ false)
    × ((send_stable_coins tokens (named_accounts (codes "0xd")) []).1 ≡ [])
send_stable_coins_unnamed_example =
    send_stable_coins_unnamed tokens (new_error []) (codes "0xd") [] refl
