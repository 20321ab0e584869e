-- ===== src/Tests/Governance.antt =====
-- A chain that takes everything, and the governance tasks on it.
use ocn_registry_v.Base.{◌≡◌, refl, String, none, some, [], ◌∷◌, string_eq, ◌==◌, if◌then◌else◌}
use ocn_registry_v.Base.Exec.{ok, ◌>>=◌}
use ocn_registry_v.Base.Dict.{lookup, insert}
use ocn_registry_v.Governance.Storage.{
  load_proposals, get_proposals, get_last_proposal, store_proposal,
  get_proposal_by_encoded_function,
}
use ocn_registry_v.Governance.Chain.{Chain, World, Request, send, write_file}
use ocn_registry_v.Governance.Tasks.{
  propose_amount, propose_amount_from, propose_set_verifier_from, submit_proposal, confirm_proposal,
  is_development, given_text, id_of, propose_set_verifier, vote, queue_proposal, execute_proposal,
}
use ocn_registry_v.Governance.Once.{IsOnce}
use ocn_registry_v.Governance.History.{propose, run_all, run_all-IsOnce}
use ocn_registry_v.Governance.Carrying.{carry_out_proposed, queue_of, execute_of}
use ocn_registry_v.Governance.Submitting.{Submits}
use ocn_registry_v.Governance.Frame.{Sends}
use ocn_registry_v.Governance.Voting.{IsVoteNotAgainst, vote-Sends}

abbrev chain : Chain
chain = record {
  contract = λ sent name. ok (
      if name == "OcnPaymentManager"
      then "0x1"
      else if name == "OcnRegistry"
      then "0x02"
      else "0x03");
  accepts = λ sent r. ok tt;
  receipt = λ sent r. ok ("7" ∷ []);
  state = λ sent id. ok 0;
  proposal_snapshot = λ sent id. ok 1;
  proposal_deadline = λ sent id. ok 6;
  funding_yearly_amount = λ sent. ok 100;
  block_number = λ sent. ok 12;
  encode = λ name function arguments. ok "0xda";
  hash = λ text. text;
}

abbrev start : World
start = record { sent = []; file = none }

abbrev amount_request : Request
amount_request = Request.propose ("0x1" ∷ []) (0 ∷ []) ("0xda" ∷ []) "Proposal 104 in the Box!"

-- After `propose` on volta.
abbrev proposed : World
proposed = record {
  sent = amount_request ∷ [];
  file = some (
      (
        "volta",
        record {
          proposal_id = "7";
          encoded_function = "0xda";
          description = "Proposal 104 in the Box!";
        }
            ∷ [],
      )
      ∷ []);
}

proposed_ok : propose_amount chain "volta" none none start ≡ (ok (some "7"), proposed)
unfolding propose_amount propose_amount_from propose_set_verifier propose_set_verifier_from ◌>>=◌
    submit_proposal get_proposal_by_encoded_function lookup load_proposals send confirm_proposal
    is_development string_eq write_file store_proposal insert
proposed_ok = refl

abbrev verifier_request : Request
verifier_request =
    Request.propose ("0x02" ∷ []) (0 ∷ []) ("0xda" ∷ []) "Proposal to set new verifier: 0xab"

-- After `propose-set-verifier` on volta.
abbrev verifier_proposed : World
verifier_proposed = record {
  sent = verifier_request ∷ [];
  file = some (
      (
        "volta",
        record {
          proposal_id = "7";
          encoded_function = "0xda";
          description = "Proposal to set new verifier: 0xab";
        }
            ∷ [],
      )
      ∷ []);
}

nothing_stored : IsOnce (load_proposals none)
unfolding load_proposals get_proposals lookup
nothing_stored network = tt

run_all-IsOnce_example : IsOnce (
    load_proposals
      (run_all
        ((chain, "localhost", propose none none)
          ∷ (chain, "localhost", propose none (some "again"))
          ∷ [])
        start).file)
run_all-IsOnce_example =
    run_all-IsOnce
      ((chain, "localhost", propose none none)
        ∷ (chain, "localhost", propose none (some "again"))
        ∷ [])
      start nothing_stored

carry_out_proposed_example :
    (r : Request) × Submits r start proposed
    × Submits (queue_of chain r) proposed (queue_proposal chain "volta" none proposed).1
    × Submits (execute_of chain r) proposed (execute_proposal chain "volta" none proposed).1
unfolding string_eq
carry_out_proposed_example =
    carry_out_proposed chain "volta" none none "7" "0xda" "0x1" "0x03" start proposed proposed_ok
      refl refl refl refl refl refl

vote-Sends_example :
    Sends
      (IsVoteNotAgainst
        (given_text none (id_of (get_last_proposal "volta" (load_proposals proposed.file)))))
      proposed
      (vote chain "volta" none (some 0) proposed).1
vote-Sends_example = vote-Sends chain "volta" none (some 0) proposed

abbrev localhost : String
localhost = "localhost"
