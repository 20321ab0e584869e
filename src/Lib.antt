-- ===== src/Lib.antt =====
-- The OCN registry: a registry of the Open Charging Network's nodes and parties on a chain, with
-- the contract that keeps it and the scripts that deploy it, its client library and command line,
-- its governance tasks, the subgraph that indexes its events, and the check of staged changes for
-- private keys.
--
-- Governance is about tasks/ and helper/: propose.ts, proposeSetVerifier.ts, vote.ts, queue.ts,
-- execute.ts and fastForward.ts, which share the file of proposals (helper/storeProposals.ts) and
-- move development chains on (helper/moveBlocks.ts, helper/moveTime.ts). Governance/Storage has the
-- file, Governance/Tasks each task by its name (`propose` is `propose_amount`, `queue` is
-- `queue_proposal`, `execute` is `execute_proposal`, `ff` is `fast_forward`), and
-- Governance/History runs of many tasks. A task acts on a world: the requests sent and the file.
-- Governance/Chain has the chain that one task meets, a parameter: its answers are any functions of
-- what was sent before. In Governance/History each task has a chain of its own. What is printed is left out; the queries made for it are there.
--
-- Indexer is about thegraph-indexer/ocn-registry-oli/src/ocn-registry-oli.ts: Indexer/Schema has
-- the entities and the store, Indexer/Handlers each handler by its name, and Indexer/Events runs of
-- many events. Indexer/Governor has the handlers of src/ocn-governor.ts beside it. The conversions
-- of bytes are parameters. Indexer/Contracts has the handlers of the certificate verifier, the
-- stable coin and the proxy (src/ocn-certificate-verifier.ts, src/euro-stable-coin.ts and
-- src/erc-1967-proxy.ts), and Indexer/Certificates createCertificateEntitiesFromPartyUpdate, which
-- nothing calls; `ethereum.decode` is a parameter there. Contract/Logged is about what the log of
-- the registry contract says, and Indexer/Watching joins the two: the handlers on its events.
--
-- Client is about src/lib: Client/Wrapper has the constructor and the checks of
-- contract-wrapper.ts, Client/Registry the methods of registry.ts by their names, Client/Failures
-- and Client/Handling its error handling, Client/Types the data of types.ts, and Client/Payments
-- ocnPaymentManager.ts. The contract is a parameter, whose answers are any functions of the
-- transactions sent before; so are ethers, URL and the signatures of sign.ts.
--
-- Contract is about contracts/OcnRegistry.sol and contracts/PartyRegistrationValidator.sol:
-- Contract/State has the storage, Contract/Operations the functions by their names (the private
-- `setNode` is `set_node_of`, and so on; `transact` is the public ones by the sender), and
-- Contract/Validator `validateRegistration`. Addresses are texts with checksum, so that one address
-- has one text. Contract/Run puts the transactions of one sender one after the other, and makes of
-- the contract the network that Client takes as a parameter, for a client that is alone on it: Contract/NodeCalls, Contract/Directory and
-- Contract/PartyList are about the two together. The verifier of certificates, the oracles, the
-- payment manager and ecrecover are parameters. An array that no chain can hold (2 ^ 256 entries)
-- is left out of account; the uint8 counter of `validateRegistration` is not.
--
-- CommandLine is about src/cli.ts, with src/lib/helpers.ts: CommandLine/Arguments has the shared
-- options and what the machine gives, CommandLine/Certificates the reading and encoding of
-- certificates, CommandLine/Commands the commands, and CommandLine/Handlers the handler of each, up
-- to the exit status. Client/Oracle is about src/lib/oracle.ts. The parsing of arguments by yargs,
-- the files and the coding of ethers are parameters.
--
-- PreCommit is about scripts/pre-commit-check.ts: PreCommit/Keys has the tokens and keys,
-- PreCommit/Diff `parseDiff`, and PreCommit/Check `main`, from the diff to the exit status. The
-- constructor of Wallet and toLowerCase are parameters.
--
-- Subgraph is about scripts/deployment/update-subgraph-yaml.ts: Subgraph/Update has the functions
-- that read a deployment and update a data source, and Subgraph/Script `main`, from the parsed
-- files to the data sources that are written.
--
-- Staking is about contracts/OcnPaymentManager.sol: Staking/State has the storage, with ERC20 tokens
-- as a parameter, Staking/Operations the functions by their names, Staking/Effects what a
-- transaction has done that went through, and Staking/Reached histories, in which others act on the
-- tokens and the roles between the transactions. Staking/Client makes of the contract the network
-- that Client/Payments takes as a parameter. `initialize` is called once, when the proxy is
-- deployed, as the guard of OpenZeppelin has it; after an upgrade the contract is another one.
-- Sums and products are checked against 2 ^ 256, as the compiler has it. Contract/Access has what
-- the contracts use of AccessControl, whose roles are a parameter; Contract/Administration the
-- functions for administrators, and Contract/Administered histories of all calls of the registry, in
-- which what the validator, the payment manager and ecrecover answer may change from one
-- transaction to the next.
--
-- Deployment is about scripts/deployment/preflight.ts (Deployment/Preflight) and deploy/:
-- Deployment/Verifiers has the verifiers that 09_deployOcnRegistry.ts allows, and
-- Deployment/Registry the whole of it. Deployment/Hardhat has what the scripts before it do with
-- hardhat, Deployment/Scripts each of them (`deploy_vote_token` is 01_deployOcnVoteToken.ts, and so
-- on; `deploy_contracts` runs them in the order of their names, as hardhat-deploy does), and
-- Deployment/Plans what they have to send. Deployment/Verification is about verifyAll.ts and
-- helper/verify.ts, Deployment/Copies about helper/copyDeploymentsToSrc.ts, and Deployment/Funding
-- about the tasks sendStablecoinsToParties.ts, checkBalance.ts and checkFundingYearlyAmount.ts. The
-- network, the files and hardhat-deploy are parameters. Contract/Verifiers is about
-- 09_deployOcnRegistry.ts on the contract of the validator; how ethers reads a text as an address
-- is a parameter there.
--
-- Base has the shared types and lemmas, Text JavaScript strings as lists of code units with their
-- methods. Numbers are natural numbers: those of the program are counts, codes and amounts, and
-- only what is named above is computed in a bounded width. All loops go over a list or count down,
-- so that no fuel is needed, but for the copy of folders (Deployment/Copies), whose fuel is the
-- depth of the folders. Tests applies the theorems to concrete runs.
--
-- Not modelled: the contracts that only choose among those of OpenZeppelin (the governor, the
-- timelock and the tokens), the parsing of arguments and the tables of networks, and what is
-- printed on the way.
pub mod Base
pub mod Text
pub mod Client
pub mod Contract
pub mod CommandLine
pub mod Deployment
pub mod Governance
pub mod Indexer
pub mod PreCommit
pub mod Subgraph
pub mod Staking
pub mod Tests
