-- ===== src/Bft/Strategy/Turns/Tests.antt =====
-- Four authorities, 0 to 3, of whom one may be faulty. A candidate is its digest, the proposer of
-- round `r` is `r % 4`, and the local authority is 0.
use polkadot.Prelude.{
  ℕ, ◌%◌, ◌≤◌, ◌⊎◌, refl, inl, inr, true, some, List, [], ◌∷◌, length, arith, nat_eq,
}
use polkadot.Bft.Messages.{Vote, Message, LocalizedMessage}
use polkadot.Bft.Justification.{Justification}
use polkadot.Bft.Strategy.{
  Context, ready, not_ready, Environment, Communication, Locked, Strategy, Node, no_messages,
  create, import_lock_proof,
}
use polkadot.Bft.Strategy.Sound.{IsSound}
use polkadot.Bft.Strategy.Rounds.{Ends, LocksTo, import_lock_proof-LocksTo}
use polkadot.Bft.Strategy.Turns.{prepare}
use polkadot.Bft.Strategy.Turns.Drive.{poll, run}
use polkadot.Bft.Strategy.Turns.Sent.{Signs, Ascending, place, sent_at, message_stamp}
use polkadot.Bft.Strategy.Turns.Runs.{create-IsSound, create-run, create-run-once}
use polkadot.Bft.Strategy.Turns.Loop.{Stops, poll-Stops}
use polkadot.Bft.Strategy.Turns.Locks.{PreparesOnly, prepare-PreparesOnly}

abbrev signed_a : Message ℕ ℕ → LocalizedMessage ℕ ℕ ℕ ℕ
signed_a (Message.propose round c) = LocalizedMessage.propose (record {
  round_number = round;
  proposal = c;
  digest = c;
  sender = 0;
  digest_signature = c;
  full_signature = c;
})
signed_a (Message.vote v) = LocalizedMessage.vote (record { vote = v; sender = 0; signature = 9 })

abbrev ctx_a : Context ℕ ℕ ℕ ℕ
ctx_a = record {
  local_id = 0;
  candidate_digest = λ c. c;
  sign_local = signed_a;
  round_proposer = λ round. round % 4;
}

Signs-a : Signs ctx_a
Signs-a (Message.propose round c) = (refl, refl, refl, refl)
Signs-a (Message.vote v) = (refl, refl)

-- The futures are ready: the proposal 7, which is valid, and no timeout.
abbrev env_a : Environment ℕ ℕ
env_a = record { proposal = ready 7; proposal_valid = ready true; round_timeout = not_ready }

abbrev vote_of : Vote ℕ → ℕ → Communication ℕ ℕ ℕ ℕ
vote_of v a =
    Communication.consensus (LocalizedMessage.vote (record { vote = v; sender = a; signature = a }))

abbrev Event : Type 0
Event = Communication ℕ ℕ ℕ ℕ ⊎ Environment ℕ ℕ

-- The node proposes 7 and prepares it; two more prepares arrive; it commits.
abbrev events_a : List Event
events_a =
    inr env_a
    ∷ inl (vote_of (Vote.prepare 0 7) 1)
    ∷ inl (vote_of (Vote.prepare 0 7) 2)
    ∷ inr env_a
    ∷ []

abbrev start_a : Node ℕ ℕ ℕ ℕ
start_a = (create ctx_a 4 1, no_messages)

create-run_example :
    Ends (λ n. IsSound ctx_a n.0 × Ascending 0 (place n.0) n.1.items) (run ctx_a events_a start_a)
create-run_example = create-run ctx_a 4 1 events_a Signs-a (omega arith)

create-run-once_example :
    Ends
      (λ n.
        length (sent_at (message_stamp {C = ℕ} {D = ℕ} (Message.vote (Vote.commit 0 7))) n.1.items)
        ≤ 1)
      (run ctx_a events_a start_a)
create-run-once_example =
    create-run-once ctx_a 4 1 events_a (Message.vote (Vote.commit 0 7)) Signs-a (omega arith)

abbrev proof_a : Justification ℕ ℕ
proof_a = record {
  unchecked = record { round_number = 5; digest = 7; signatures = 1 ∷ 2 ∷ 3 ∷ [] };
}

start_a-IsSound : IsSound ctx_a (create ctx_a 4 1)
start_a-IsSound = create-IsSound ctx_a 4 1 (omega arith)

import_lock_proof-LocksTo_example :
    Ends {E = ℕ}
      (LocksTo ctx_a proof_a (create ctx_a 4 1))
      (import_lock_proof ctx_a proof_a (create ctx_a 4 1))
import_lock_proof-LocksTo_example =
    import_lock_proof-LocksTo ℕ ctx_a proof_a (create ctx_a 4 1) start_a-IsSound

abbrev envs_a : List (Environment ℕ ℕ)
envs_a = env_a ∷ env_a ∷ env_a ∷ env_a ∷ env_a ∷ env_a ∷ []

poll-Stops_example : Ends (Stops ctx_a 1 start_a) (poll ctx_a envs_a start_a)
poll-Stops_example = poll-Stops ctx_a 1 envs_a start_a Signs-a start_a-IsSound (omega arith)

abbrev lock_a : Locked ℕ ℕ
lock_a = record { justification = proof_a }

abbrev locked_a : Strategy ℕ ℕ ℕ ℕ
locked_a = record (create ctx_a 4 1) { locked = some lock_a }

prepare-PreparesOnly_example :
    Ends
      (PreparesOnly ctx_a 7 (locked_a, no_messages))
      (prepare ctx_a env_a (locked_a, no_messages))
prepare-PreparesOnly_example = prepare-PreparesOnly ctx_a env_a lock_a locked_a no_messages refl
