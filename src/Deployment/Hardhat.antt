-- ===== src/Deployment/Hardhat.antt =====
-- What the deployment scripts do with hardhat: they look contracts up, and they deploy, call and copy.
-- What was done before a throw stays done.
use ocn_registry_v.Base.{ℕ, List, [], ◌∷◌, ◌++◌, numbers_eq, nat_eq, contains, if◌then◌else◌}
use ocn_registry_v.Text.{Text, codes}
use ocn_registry_v.Client.Failures.{new_error}
use ocn_registry_v.Client.Wrapper.{Outcome, done, failed}
use ocn_registry_v.Deployment.Registry.{configured_networks}

pub data Argument : Type 0 where
  text : Text → Argument
  number : ℕ → Argument
  none_of_them : Argument

pub data Sent : Type 0 where
  -- a contract, or a proxy for one, with the arguments of its constructor or initializer
  deployed proxy_deployed : Text → List Argument → Sent
  -- the record of a deployment, by its name and address
  saved : Text → Text → Sent
  -- a transaction: the contract's address, the function and its arguments
  called : Text → Text → List Argument → Sent
  -- `copyDeployments(deploymentsDefaultDir, deploymentsDestDir)`
  files_copied : Sent

-- The network, hardhat-deploy and the files. What they answer depends on what was sent before, the last
-- one last.
pub record Hardhat : Type 0 where
  -- `getNamedAccounts().deployer`
  pub deployer : Text
  -- the address of `ethers.getContract`
  pub contract : List Sent → Text → Outcome Text
  -- the address of `deployments.get`
  pub get : List Sent → Text → Outcome Text
  -- what a function of a contract returns
  pub query : List Sent → Text → Text → Outcome Text
  pub accept : List Sent → Sent → Outcome (Unit {0})
  pub wait : List Sent → Sent → Outcome (Unit {0})
  -- the address of the contract that was deployed last
  pub address_of : List Sent → Text → Text

abbrev pub Script : Type 0 → Type 0
Script A = List Sent → Outcome A × List Sent

infixl 5 ◌>>=◌ ◌>>◌
unfoldable pub ◌>>=◌ : {A B : Type 0} → Script A → (A → Script B) → Script B
◌>>=◌ m f h = elim ((m h).0) [ done a ↦ f a (m h).1 | failed e ↦ (failed e, (m h).1) ]

abbrev pub ◌>>◌ : {A B : Type 0} → Script A → Script B → Script B
m >> n = m >>= λ _. n

abbrev pub pure : {A : Type 0} → A → Script A
pure a h = (done a, h)

abbrev pub ask : {A : Type 0} → (List Sent → Outcome A) → Script A
ask f h = (f h, h)

-- `networkExtraConfig[network.name].blockConfirmations || 1`
abbrev pub confirmations : Text → Script (Unit {0})
confirmations network = ask (λ _.
    if contains configured_networks network
    then done tt
    else failed
        (new_error (codes "Cannot read properties of undefined (reading 'blockConfirmations')")))

module _ (H : Hardhat) where
  -- A request, and the wait for it to be confirmed.
  unfoldable pub send : Sent → Script (Unit {0})
  send r h = elim (H.accept h r) [
    | failed e ↦ (failed e, h)
    | done _ ↦ (H.wait (h ++ r ∷ []) r, h ++ r ∷ [])
  ]

  -- `deploy(contractName, { from: deployer, args, … })`
  unfoldable pub deploy_contract : Text → Text → List Argument → Script Text
  deploy_contract network name args = do
    confirmations network
    send (deployed name args)
    ask (λ h. done (H.address_of h name))
