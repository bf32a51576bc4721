-- ===== src/Bft/Accumulator/Tests.antt =====
-- Four authorities, 0 to 3, of whom one may be faulty. An authority `a` signs digest `d` by the
-- number 100 * d + a.
use polkadot.Prelude.{
  ℕ, ◌+◌, ◌*◌, ◌/◌, ◌%◌, ◌≤◌, ◌<◌, ◌≡◌, ◌↔◌, refl, Option, none, some, List, [], ◌∷◌, arith, ok,
  err, if◌then◌else◌, length, nat_eq, ◌==◌, contains, insert, Distinct, All,
}
use polkadot.Prelude.Map
use polkadot.Prelude.Map.{Map}
use polkadot.Bft.Messages.{
  prepare, commit, advance_round, LocalizedMessage, propose, vote, message_round, message_sender,
  vote_round,
}
use polkadot.Bft.Threshold.{
  bft_threshold, required_signatures, max_faulty_of, required_signatures_bounds,
}
use polkadot.Bft.Justification.{Justification, check}
use polkadot.Bft.Justification.Voters.{Supported, check_exact}
use polkadot.Bft.Accumulator.{
  committed, advanced, Accumulator, counts_of, signatures_for, justify, record_prepare,
  record_commit, observe_prepared, advance_state, propose_state, accept_proposal, import_proposal,
  import_prepare, import_commit, import_advance_round, import_vote, import_same_round,
  import_message, new, double_commit,
}
use polkadot.Bft.Accumulator.Runs.{import_all, import_all-IsConsistent}
use polkadot.Bft.Accumulator.Invariant.{IsConsistent, new-IsConsistent}
use polkadot.Bft.Accumulator.Imports.{import_message-IsConsistent}
use polkadot.Bft.Accumulator.Evidence.{Proves, import_message_error}
use polkadot.Bft.Accumulator.Checks.{StateChecks, import_all-StateChecks}
use polkadot.Bft.Accumulator.Quorum.{
  Reports, import_all-Reports, IsCommitted, HasQuorum, import_all-IsCommitted,
}
use polkadot.Bft.Accumulator.Agreement.{Equivocates}
use polkadot.Bft.Accumulator.Senders.{IsKnownSender}
use polkadot.Bft.Accumulator.Safety.{agreement}
use polkadot.Bft.Accumulator.Progress.{stage, stage-import_message, import_message_twice}

abbrev Acc : Type 0
Acc = Accumulator ℕ ℕ ℕ ℕ

abbrev Msg : Type 0
Msg = LocalizedMessage ℕ ℕ ℕ ℕ

abbrev prepare_by : ℕ → ℕ → Msg
prepare_by d a = vote (record { vote = prepare 1 d; sender = a; signature = 100 * d + a })

abbrev commit_by : ℕ → ℕ → Msg
commit_by d a = vote (record { vote = commit 1 d; sender = a; signature = 100 * d + a })

abbrev advance_by : ℕ → Msg
advance_by a = vote (record { vote = advance_round 1; sender = a; signature = a })

abbrev proposal_by : ℕ → ℕ → Msg
proposal_by d a = propose (record {
  round_number = 1;
  proposal = d;
  digest = d;
  sender = a;
  digest_signature = 100 * d + a;
  full_signature = 100 * d + a;
})

abbrev signer : ℕ → ℕ → ℕ → Option ℕ
signer r d s = if s / 100 == d then some (s % 100) else none

abbrev start : Acc
start = new 1 3 0

-- every definition that a run goes through
run : ℕ
unfolding import_all import_message import_same_round import_vote import_commit import_prepare
    import_advance_round import_proposal accept_proposal record_commit record_prepare counts_of
    justify signatures_for observe_prepared advance_state propose_state new Map.get Map.insert
    Map.contains_key insert contains message_round vote_round Map.keys
run = 0

abbrev commits_a : List Msg
commits_a = commit_by 7 0 ∷ commit_by 7 1 ∷ commit_by 7 2 ∷ []

abbrev commits_b : List Msg
commits_b = commit_by 7 3 ∷ commit_by 7 1 ∷ commit_by 7 2 ∷ []

abbrev acc_a : Acc
acc_a = import_all commits_a start

abbrev acc_b : Acc
acc_b = import_all commits_b start

abbrev justification_a : Justification ℕ ℕ
justification_a = record {
  unchecked = record { round_number = 1; digest = 7; signatures = 700 ∷ 701 ∷ 702 ∷ [] };
}

abbrev justification_b : Justification ℕ ℕ
justification_b = record {
  unchecked = record { round_number = 1; digest = 7; signatures = 703 ∷ 701 ∷ 702 ∷ [] };
}

state_a : acc_a.state ≡ committed justification_a
unfolding run
state_a = refl

state_b : acc_b.state ≡ committed justification_b
unfolding run
state_b = refl

consistent : (ms : List Msg) → IsConsistent (import_all ms start)
consistent ms = import_all-IsConsistent ms start (new-IsConsistent 1 3 0 (omega arith))

only_seven_a : (d a s : ℕ) → Map.get acc_a.commits a ≡ some (d, s) → d ≡ 7
unfolding run
only_seven_a d a s h = ground arith

only_seven_b : (d a s : ℕ) → Map.get acc_b.commits a ≡ some (d, s) → d ≡ 7
unfolding run
only_seven_b d a s h = ground arith

no_equivocation :
    (both : List ℕ)
    → Distinct both
    → All (Equivocates acc_a.commits acc_b.commits) both
    → length both ≤ 1
no_equivocation [] d h = omega arith
no_equivocation (a ∷ both) d ((d₁, d₂, (s₁, g₁), (s₂, g₂), ne), h) =
    absurd (omega (arith, only_seven_a d₁ a s₁ g₁, only_seven_b d₂ a s₂ g₂, ne))

abbrev four : List ℕ
four = 0 ∷ 1 ∷ 2 ∷ 3 ∷ []

known_senders_a : All (IsKnownSender {C = ℕ} {D = ℕ} {S = ℕ} four) commits_a
unfolding run message_sender
known_senders_a = (refl, (refl, (refl, tt)))

known_senders_b : All (IsKnownSender {C = ℕ} {D = ℕ} {S = ℕ} four) commits_b
unfolding run message_sender
known_senders_b = (refl, (refl, (refl, tt)))

agreement_example : ◌≡◌ {A = ℕ} 7 7
unfolding bft_threshold
agreement_example =
    agreement four 1 1 0 0 commits_a commits_b justification_a justification_b (omega arith)
      known_senders_a known_senders_b no_equivocation state_a state_b

-- Prepares of three authorities, then advance-round votes of three.
abbrev a_round : List Msg
a_round =
    proposal_by 7 0
    ∷ prepare_by 7 0
    ∷ prepare_by 8 3
    ∷ prepare_by 7 1
    ∷ prepare_by 7 2
    ∷ advance_by 0
    ∷ advance_by 1
    ∷ advance_by 1
    ∷ advance_by 2
    ∷ []

advanced_after :
    (import_all a_round start).state
    ≡ advanced (
        some (record {
          unchecked = record { round_number = 1; digest = 7; signatures = 700 ∷ 701 ∷ 702 ∷ [] };
        }))
unfolding run
advanced_after = refl

import_all-StateChecks_example : StateChecks signer signer 3 (import_all a_round start).state
import_all-StateChecks_example =
    import_all-StateChecks signer signer 1 3 0 a_round (omega arith)
      (tt, (refl, (refl, (refl, (refl, (tt, (tt, (tt, (tt, tt)))))))))

import_message-IsConsistent_example : IsConsistent (import_message (commit_by 8 3) acc_a).0
import_message-IsConsistent_example =
    import_message-IsConsistent acc_a (commit_by 8 3) (consistent commits_a)

import_all-Reports_example : Reports 3 (import_all a_round start) (import_all a_round start).state
import_all-Reports_example = import_all-Reports 1 3 0 a_round (omega arith)

import_all-IsCommitted_example :
    IsCommitted (import_all commits_a start).state
    ↔ HasQuorum 3 (import_all commits_a start).commits
import_all-IsCommitted_example = import_all-IsCommitted 1 3 0 commits_a (omega arith)

double_commit_result :
    (import_message (commit_by 8 1) acc_a).1 ≡ err (double_commit 1 (7, 701) (8, 801))
unfolding run
double_commit_result = refl

import_message_error_example :
    ((import_message (commit_by 8 1) acc_a).0 ≡ acc_a)
    × Proves acc_a (commit_by 8 1) (double_commit 1 (7, 701) (8, 801))
import_message_error_example =
    import_message_error acc_a (commit_by 8 1) (double_commit 1 (7, 701) (8, 801))
      double_commit_result

stage-import_message_example :
    stage acc_a.state ≤ stage (import_message (advance_by 1) acc_a).0.state
stage-import_message_example = stage-import_message acc_a (advance_by 1)

import_message_twice_example :
    import_message (commit_by 8 3) (import_message (commit_by 8 3) acc_a).0
    ≡ import_message (commit_by 8 3) acc_a
import_message_twice_example = import_message_twice acc_a (commit_by 8 3)

check_exact_example :
    (check justification_a.unchecked 3 signer ≡ ok justification_a)
    ↔ Supported signer 3 justification_a.unchecked
check_exact_example = check_exact signer 3 justification_a.unchecked

required_signatures_bounds_example :
    (2 * 4 < 3 * required_signatures 4)
    × (required_signatures 4 ≤ 4)
    × (4 + max_faulty_of 4 < 2 * required_signatures 4)
    × (3 * max_faulty_of 4 < 4)
    × (required_signatures 4 + max_faulty_of 4 ≤ 4)
required_signatures_bounds_example = required_signatures_bounds 4 (omega arith)
