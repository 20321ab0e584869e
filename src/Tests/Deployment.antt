-- ===== src/Tests/Deployment.antt =====
-- A deployment on a network that takes all transactions.
use ocn_registry_v.Base.{◌≡◌, refl, true, false, [], ◌++◌, numbers_eq, nat_eq}
use ocn_registry_v.Base.Lists.{All, keep}
use ocn_registry_v.Text.{
  codes, starts_with, slice, all_hex, is_hex, split, split_from, trim, trim_start, trim_end,
  is_space,
}
use ocn_registry_v.Client.Failures.{is_full}
use ocn_registry_v.Client.Wrapper.{done}
use ocn_registry_v.Deployment.Preflight.{
  Environment, preflight, assert_private_key, is_private_key, check_verifiers,
  parse_allowed_verifiers, check_mode,
}
use ocn_registry_v.Deployment.Verifiers.{DeployChain, allow_verifiers, allowed_from_env}
use ocn_registry_v.Base.{some}
use ocn_registry_v.Deployment.Registry.{RegistryChain, deploy_registry}
use ocn_registry_v.Deployment.HandedOver.{plan, deploy_registry_sends}
use ocn_registry_v.Deployment.Allowed.{preflight-allow_verifiers}

abbrev deploy_chain : DeployChain
deploy_chain = record {
  cpo_verifier = λ h. done (codes "0x01");
  emp_verifier = λ h. done (codes "0x01");
  accept = λ h v. done tt;
  wait = λ h v. done tt;
}

abbrev environment : Environment
environment = record {
  deployer_private_key = codes "00000000000000000000000000000000000000000000000000000000000000aF";
  graph_deploy_key = [];
  default_operator = [];
  allowed_verifiers = codes "0x01, 0x02 ,";
  stablecoin_address = [];
}

passes : preflight is_full (codes "mock") [] environment ≡ done false
unfolding preflight assert_private_key is_private_key starts_with slice all_hex is_hex
    check_verifiers parse_allowed_verifiers check_mode split split_from trim trim_start trim_end
    is_space keep numbers_eq nat_eq
passes = refl

preflight-allow_verifiers_example :
    (allow_verifiers deploy_chain (codes "gnosis") (codes "0x01, 0x02 ,") []
      ≡ (done tt, [] ++ allowed_from_env (codes "0x01, 0x02 ,")))
    × All (λ v. is_full v ≡ true) (allowed_from_env (codes "0x01, 0x02 ,"))
unfolding numbers_eq
preflight-allow_verifiers_example =
    preflight-allow_verifiers deploy_chain (λ h v. (refl, refl)) is_full (codes "mock") []
      (codes "gnosis") environment false [] passes refl

abbrev registry_chain : RegistryChain
registry_chain = record {
  contract = λ h name. done name;
  contract_or_null = λ h name. done (some name);
  cpo_verifier = λ h. done (codes "0x01");
  emp_verifier = λ h. done (codes "0x01");
  accept = λ h r. done tt;
  wait = λ h r. done tt;
}

deploy_registry_sends_example :
    deploy_registry registry_chain (codes "gnosis") (codes "0x01, 0x02 ,") []
    ≡ (done tt, [] ++ plan (λ name. name) (λ name. some name) (codes "0x01, 0x02 ,"))
unfolding numbers_eq
deploy_registry_sends_example =
    deploy_registry_sends registry_chain (λ name. name) (λ name. some name) (λ h name. refl)
      (λ h name. refl) (λ h r. (refl, refl)) (codes "gnosis") (codes "0x01, 0x02 ,") [] refl refl
