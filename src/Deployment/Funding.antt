-- ===== src/Deployment/Funding.antt =====
-- tasks/sendStablecoinsToParties.ts, tasks/checkBalance.ts and tasks/checkFundingYearlyAmount.ts. What
-- is printed is left out; the queries made for it are there.
use ocn_registry_v.Base.{◌≡◌, arith, false, if◌then◌else◌, Option, none, some, List, [], ◌∷◌, ◌++◌}
use ocn_registry_v.Text.{Text, codes}
use ocn_registry_v.Client.Wrapper.{Outcome, done, failed, is_done, ◌>=>◌}
use ocn_registry_v.Client.Failures.{Failure, is_full}
use ocn_registry_v.Deployment.Hardhat.{Argument, text}

-- A transaction: the signer, the contract, the function and its arguments.
pub record SignedCall : Type 0 where
  pub signer : Text
  pub contract : Text
  pub function : Text
  pub arguments : List Argument

-- `getNamedAccounts()`, where an account that the configuration does not name is undefined
pub record NamedAccounts : Type 0 where
  pub deployer : Option Text
  pub node_operator : Option Text
  pub cpo_operator : Option Text
  pub emsp_operator : Option Text

-- hardhat.config.ts names the first account only.
abbrev pub named_accounts : Text → NamedAccounts
named_accounts first = record {
  deployer = some first;
  node_operator = none;
  cpo_operator = none;
  emsp_operator = none;
}

-- The network, by what was sent before. A transaction is awaited until it is sent, not until it is mined.
pub record TokenChain : Type 0 where
  -- the address of `ethers.getContract`
  pub contract : List SignedCall → Text → Outcome Text
  -- `ethers.getSigner`
  pub signer : List SignedCall → Option Text → Outcome Text
  -- the first signer, which a contract has that is not connected to another one
  pub first_signer : Text
  -- an argument of type address, as ethers reads it
  pub address_arg : Option Text → Outcome Argument
  -- `balanceOf`, `getBalance` and `getFundingYearlyAmount`, which are only printed
  pub asked : List SignedCall → Text → Option Text → Outcome (Unit {0})
  pub accept : List SignedCall → SignedCall → Outcome (Unit {0})
  -- `parseUnits`, and MaxUint256
  pub parse_units : Text → Argument
  pub max_uint : Argument

abbrev pub Action : Type 0 → Type 0
Action A = List SignedCall → Outcome A × List SignedCall

infixl 5 ◌>>=◌ ◌>>◌
unfoldable pub ◌>>=◌ : {A B : Type 0} → Action A → (A → Action B) → Action B
◌>>=◌ m f h = elim ((m h).0) [ done a ↦ f a (m h).1 | failed e ↦ (failed e, (m h).1) ]

abbrev pub ◌>>◌ : {A B : Type 0} → Action A → Action B → Action B
m >> n = m >>= λ _. n

abbrev pub ask : {A : Type 0} → (List SignedCall → Outcome A) → Action A
ask f h = (f h, h)

module _ (C : TokenChain) where
  unfoldable pub send : SignedCall → Action (Unit {0})
  send c h = elim (C.accept h c) [ failed e ↦ (failed e, h) | done _ ↦ (done tt, h ++ c ∷ []) ]

  -- `transfer`, signed by the deployer
  abbrev pub transfer : Text → Option Text → Option Text → Action (Unit {0})
  transfer token deployer account = do
    signer ← ask (λ h. C.signer h deployer)
    receiver ← ask (λ h. C.address_arg account)
    send (record {
      signer = signer;
      contract = token;
      function = codes "transfer";
      arguments = receiver ∷ C.parse_units (codes "1000") ∷ [];
    })

  abbrev pub balance_of : Text → Option Text → Action (Unit {0})
  balance_of token account = ask (λ h. C.asked h token account)

  abbrev pub approve : Text → Text → Text → Action (Unit {0})
  approve signer token manager = send (record {
    signer = signer;
    contract = token;
    function = codes "approve";
    arguments = text manager ∷ C.max_uint ∷ [];
  })

  unfoldable pub send_stable_coins : NamedAccounts → Action (Unit {0})
  send_stable_coins a = do
    token ← ask (λ h. C.contract h (codes "EuroStableCoin"))
    transfer token a.deployer a.node_operator
    transfer token a.deployer a.cpo_operator
    transfer token a.deployer a.emsp_operator
    balance_of token a.deployer
    balance_of token a.node_operator
    balance_of token a.cpo_operator
    balance_of token a.emsp_operator
    manager ← ask (λ h. C.contract h (codes "OcnPaymentManager"))
    approve C.first_signer token manager
    cpo ← ask (λ h. C.signer h a.cpo_operator)
    approve cpo token manager
    emsp ← ask (λ h. C.signer h a.emsp_operator)
    approve emsp token manager

-- The accounts that the task sends to are not configured. If ethers does not read undefined as an
-- address, the task fails, whatever the network answers, and sends nothing.
pub send_stable_coins_unnamed :
    (C : TokenChain) (e : Failure) (first : Text) (h : List SignedCall)
    → C.address_arg none ≡ failed e
    → (is_done (send_stable_coins C (named_accounts first) h).0 ≡ false)
      × ((send_stable_coins C (named_accounts first) h).1 ≡ h)
unfolding send_stable_coins ◌>>=◌
send_stable_coins_unnamed C e first h undefined' =
    (ground (arith, undefined'), ground (arith, undefined'))

-- check-balance: the balance of the given account, or of the first signer
unfoldable pub check_balance : TokenChain → Text → List SignedCall → Outcome (Unit {0})
check_balance C address h =
    let account = some (if is_full address then address else C.first_signer) in
    C.asked h (codes "provider") account >=> λ _.
    C.contract h (codes "EuroStableCoin") >=> λ token. C.asked h token account

-- check-funding
unfoldable pub check_funding : TokenChain → List SignedCall → Outcome (Unit {0})
check_funding C h = C.contract h (codes "OcnPaymentManager") >=> λ manager. C.asked h manager none
