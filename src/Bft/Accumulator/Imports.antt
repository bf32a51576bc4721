-- ===== src/Bft/Accumulator/Imports.antt =====
-- substrate/bft/src/generic/accumulator.rs: the invariant in `import_message`.
use polkadot.Prelude.{
  ℕ, List, insert, length-insert, ◌≤◌, ◌<◌, arith, ltb, length, Eq, nat_eq, ◌==◌, insert-Distinct,
  Bool-cases, inl, inr, Option-cases,
}
use polkadot.Prelude.Map
use polkadot.Prelude.Map.{Map}
use polkadot.Bft.Messages.{
  Vote, prepare, commit, advance_round, LocalizedProposal, LocalizedMessage, propose, vote,
  message_round,
}
use polkadot.Bft.Accumulator.{
  State, begin, proposed, prepared, committed, advanced, Accumulator, advance_state, propose_state,
  accept_proposal, import_proposal, import_prepare, import_commit, import_advance_round,
  import_vote, import_same_round, import_message,
}
use polkadot.Bft.Accumulator.Invariant.{Backed, Pending, IsConsistent}
use polkadot.Bft.Accumulator.Prepares.{record_prepare-IsConsistent}
use polkadot.Bft.Accumulator.Commits.{record_commit-IsConsistent}

module _ {C D A S : Type 0} ⦃eD : Eq D⦄ ⦃eA : Eq A⦄ where
  import_prepare-IsConsistent :
      (acc : Accumulator C D A S) (d : D) (a : A) (s : S)
      → IsConsistent acc
      → IsConsistent (import_prepare d a s acc).0
  unfolding import_prepare
  import_prepare-IsConsistent acc d a s inv = elim (Option-cases (Map.get acc.prepares a)) [
    | inl q ↦ rw (q, import_prepare) (record_prepare-IsConsistent acc d a s q inv)
    | inr ((d', s'), q) ↦ elim (Bool-cases (d' == d)) [
      | inl e ↦ rw (q, import_prepare, e) inv
      | inr e ↦ rw (q, import_prepare, e) inv
    ]
  ]

  import_commit-IsConsistent :
      (acc : Accumulator C D A S) (d : D) (a : A) (s : S)
      → IsConsistent acc
      → IsConsistent (import_commit d a s acc).0
  unfolding import_commit
  import_commit-IsConsistent acc d a s inv = elim (Option-cases (Map.get acc.commits a)) [
    | inl q ↦ rw (q, import_commit) (record_commit-IsConsistent acc d a s q inv)
    | inr ((d', s'), q) ↦ elim (Bool-cases (d' == d)) [
      | inl e ↦ rw (q, import_commit, e) inv
      | inr e ↦ rw (q, import_commit, e) inv
    ]
  ]

  -- the state after an advance-round message, before and after the threshold
  advance-Pending :
      (t n n' : ℕ) (prepares commits : Map A (D × S)) (state : State C D S)
      → n ≤ n'
      → n' < t
      → Pending t n prepares commits state
      → Pending t n' prepares commits state
  advance-Pending t n n' p m begin le lt k = (k.0, lt, k.2)
  advance-Pending t n n' p m (proposed c) le lt k = (k.0, lt, k.2)
  advance-Pending t n n' p m (prepared c) le lt k = (lt, k.1)
  advance-Pending t n n' p m (advanced c) le lt k = (omega (arith, k.0), k.1)
  advance-Pending t n n' p m (committed c) le lt k = tt

  advance_state-Pending :
      (t n n' : ℕ) (prepares commits : Map A (D × S)) (state : State C D S)
      → t ≤ n'
      → Pending t n prepares commits state
      → Pending t n' prepares commits (advance_state state)
  unfolding advance_state
  advance_state-Pending t n n' p m begin le k = (le, k.2)
  advance_state-Pending t n n' p m (proposed c) le k = (le, k.2)
  advance_state-Pending t n n' p m (prepared c) le k = (le, k.1)
  advance_state-Pending t n n' p m (advanced c) le k = (le, k.1)
  advance_state-Pending t n n' p m (committed c) le k = tt

  advance_state-Backed :
      (t r : ℕ) (prepares commits : Map A (D × S)) (state : State C D S)
      → Backed t r prepares commits state
      → Backed t r prepares commits (advance_state state)
  unfolding advance_state
  advance_state-Backed t r p m begin k = tt
  advance_state-Backed t r p m (proposed c) k = tt
  advance_state-Backed t r p m (prepared c) k = k
  advance_state-Backed t r p m (advanced c) k = k
  advance_state-Backed t r p m (committed c) k = k

  import_advance_round-IsConsistent :
      (acc : Accumulator C D A S) (a : A)
      → IsConsistent acc
      → IsConsistent (import_advance_round a acc).0
  unfolding import_advance_round
  import_advance_round-IsConsistent acc a inv =
      elim (Bool-cases (ltb (length seen) acc.threshold)) [
        | inl below ↦
            rw (below, import_advance_round)
              (record {
                prepares_distinct = inv.prepares_distinct;
                commits_distinct = inv.commits_distinct;
                advance_distinct = insert-Distinct acc.advance_round a inv.advance_distinct;
                prepared_counted = inv.prepared_counted;
                committed_counted = inv.committed_counted;
                backed = inv.backed;
                pending =
                    advance-Pending acc.threshold (length acc.advance_round) (length seen)
                      acc.prepares acc.commits acc.state
                      (ground (arith, length-insert acc.advance_round a)) (ground arith)
                      inv.pending;
              })
        | inr reached ↦
            rw (reached, import_advance_round)
              (record {
                prepares_distinct = inv.prepares_distinct;
                commits_distinct = inv.commits_distinct;
                advance_distinct = insert-Distinct acc.advance_round a inv.advance_distinct;
                prepared_counted = inv.prepared_counted;
                committed_counted = inv.committed_counted;
                backed =
                    advance_state-Backed acc.threshold acc.round_number acc.prepares acc.commits
                      acc.state inv.backed;
                pending =
                    advance_state-Pending acc.threshold (length acc.advance_round) (length seen)
                      acc.prepares acc.commits acc.state (ground arith) inv.pending;
              })
      ]
    where
      seen : List A
      seen = insert acc.advance_round a

  propose_state-Backed :
      (t r : ℕ) (c : C) (prepares commits : Map A (D × S)) (state : State C D S)
      → Backed t r prepares commits state
      → Backed t r prepares commits (propose_state c state)
  unfolding propose_state
  propose_state-Backed t r c p m begin k = tt
  propose_state-Backed t r c p m _ k = k

  propose_state-Pending :
      (t n : ℕ) (c : C) (prepares commits : Map A (D × S)) (state : State C D S)
      → Pending t n prepares commits state
      → Pending t n prepares commits (propose_state c state)
  unfolding propose_state
  propose_state-Pending t n c p m begin k = k
  propose_state-Pending t n c p m _ k = k

  accept_proposal-IsConsistent :
      (acc : Accumulator C D A S) (p : LocalizedProposal C D A S)
      → IsConsistent acc
      → IsConsistent (accept_proposal p acc).0
  unfolding accept_proposal
  accept_proposal-IsConsistent acc p inv = record {
    prepares_distinct = inv.prepares_distinct;
    commits_distinct = inv.commits_distinct;
    advance_distinct = inv.advance_distinct;
    prepared_counted = inv.prepared_counted;
    committed_counted = inv.committed_counted;
    backed =
        propose_state-Backed acc.threshold acc.round_number p.proposal acc.prepares acc.commits
          acc.state inv.backed;
    pending =
        propose_state-Pending acc.threshold (length acc.advance_round) p.proposal acc.prepares
          acc.commits acc.state inv.pending;
  }

  import_proposal-IsConsistent :
      (acc : Accumulator C D A S) (p : LocalizedProposal C D A S)
      → IsConsistent acc
      → IsConsistent (import_proposal p acc).0
  unfolding import_proposal
  import_proposal-IsConsistent acc p inv = elim (Bool-cases (p.sender == acc.round_proposer)) [
    | inr q ↦ rw (q, import_proposal) inv
    | inl q ↦ elim (Option-cases acc.proposal) [
      | inl r ↦ rw (q, import_proposal, r) (accept_proposal-IsConsistent acc p inv)
      | inr (old, r) ↦ elim (Bool-cases (old.digest == p.digest)) [
        | inl same ↦ rw (q, import_proposal, r, same) (accept_proposal-IsConsistent acc p inv)
        | inr other ↦ rw (q, import_proposal, r, other) inv
      ]
    ]
  ]

  import_vote-IsConsistent :
      (acc : Accumulator C D A S) (v : Vote D) (a : A) (s : S)
      → IsConsistent acc
      → IsConsistent (import_vote v a s acc).0
  unfolding import_vote
  import_vote-IsConsistent acc (prepare r d) a s inv = import_prepare-IsConsistent acc d a s inv
  import_vote-IsConsistent acc (commit r d) a s inv = import_commit-IsConsistent acc d a s inv
  import_vote-IsConsistent acc (advance_round r) a s inv =
      import_advance_round-IsConsistent acc a inv

  import_same_round-IsConsistent :
      (acc : Accumulator C D A S) (m : LocalizedMessage C D A S)
      → IsConsistent acc
      → IsConsistent (import_same_round m acc).0
  unfolding import_same_round
  import_same_round-IsConsistent acc (propose p) inv = import_proposal-IsConsistent acc p inv
  import_same_round-IsConsistent acc (vote v) inv =
      import_vote-IsConsistent acc v.vote v.sender v.signature inv

  -- Every import, whatever the message and its result, keeps the invariant: distinct voters, vote
  -- counts that are the numbers of recorded votes, a justification made of recorded votes of
  -- `threshold` voters, and a state that is no further than the votes.
  pub import_message-IsConsistent :
      (acc : Accumulator C D A S) (m : LocalizedMessage C D A S)
      → IsConsistent acc
      → IsConsistent (import_message m acc).0
  unfolding import_message
  import_message-IsConsistent acc m inv = elim (Bool-cases (message_round m == acc.round_number)) [
    | inl q ↦ rw (q, import_message) (import_same_round-IsConsistent acc m inv)
    | inr q ↦ rw (q, import_message) inv
  ]
