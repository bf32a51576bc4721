-- ===== src/Bft/Accumulator.antt =====
-- substrate/bft/src/generic/accumulator.rs: the vote accumulator of one round of consensus.
-- A handler returns the new accumulator and its result. The proofs stand in the modules below.
pub mod Votes
pub mod Invariant
mod Prepares
mod Commits
pub mod Imports
pub mod Evidence
pub mod Signers
pub mod Runs
pub mod Senders
pub mod Checks
pub mod Quorum
pub mod Agreement
pub mod Safety
pub mod Progress
mod Tests
use polkadot.Prelude.{
  ℕ, ◌+◌, ◌≡◌, Bool, true, false, not, Option, none, some, List, [], ◌∷◌, arith, leb, ltb, Result,
  ok, err, if◌then◌else◌, length, Eq, ◌==◌, insert, nat_eq,
}
use polkadot.Prelude.Map
use polkadot.Prelude.Map.{Map}
use polkadot.Bft.Messages.{
  Vote, prepare, commit, advance_round, LocalizedProposal, LocalizedVote, LocalizedMessage, propose,
  vote, message_round,
}
use polkadot.Bft.Justification.{UncheckedJustification, Justification}

pub data State (C D S : Type 0) : Type 0 where
  begin : State C D S
  proposed : C → State C D S
  prepared : Justification D S → State C D S
  committed : Justification D S → State C D S
  advanced : Option (Justification D S) → State C D S

pub record VoteCounts : Type 0 where
  pub prepared : ℕ
  pub committed : ℕ

pub record Proposal (C D S : Type 0) : Type 0 where
  pub proposal : C
  pub digest : D
  pub digest_signature : S

pub data Misbehavior (D S : Type 0) : Type 0 where
  propose_out_of_turn : ℕ → D → S → Misbehavior D S
  double_propose : ℕ → D × S → D × S → Misbehavior D S
  double_prepare : ℕ → D × S → D × S → Misbehavior D S
  double_commit : ℕ → D × S → D × S → Misbehavior D S

pub record Accumulator (C D A S : Type 0) : Type 0 where
  pub round_number : ℕ
  pub threshold : ℕ
  pub round_proposer : A
  pub proposal : Option (Proposal C D S)
  pub prepares : Map A (D × S)
  pub commits : Map A (D × S)
  pub vote_counts : Map D VoteCounts
  pub advance_round : List A
  pub state : State C D S

-- `or_insert_with(Default::default)`
pub counts_of : {D : Type 0} ⦃eD : Eq D⦄ → Map D VoteCounts → D → VoteCounts
counts_of counts d = elim (Map.get counts d) [
  | none ↦ record { prepared = 0; committed = 0 }
  | some c ↦ c
]

-- `values().filter(|(d, _)| d == digest).map(|(_, s)| s)`
pub signatures_for : {D A S : Type 0} ⦃eD : Eq D⦄ → D → Map A (D × S) → List S
signatures_for d [] = []
signatures_for d ((a, (d', s)) ∷ m) = if d' == d then s ∷ signatures_for d m else signatures_for d m

pub justify : {D A S : Type 0} ⦃eD : Eq D⦄ → ℕ → D → Map A (D × S) → Justification D S
justify round digest votes = record {
  unchecked = record {
    round_number = round;
    digest = digest;
    signatures = signatures_for digest votes;
  };
}

-- `if let State::Begin = self.state`
propose_state : {C D S : Type 0} → C → State C D S → State C D S
propose_state c begin = proposed c
propose_state c state = state

-- only allow transition to prepare from begin or proposed state
valid_transition : {C D S : Type 0} → State C D S → Bool
valid_transition begin = true
valid_transition (proposed _) = true
valid_transition _ = false

observe_prepared : {C D S : Type 0} → Justification D S → State C D S → State C D S
unfolding valid_transition
observe_prepared j state = if valid_transition state then prepared j else state

-- allow transition to new round only if we haven't produced a justification yet
advance_state : {C D S : Type 0} → State C D S → State C D S
advance_state (committed j) = committed j
advance_state (prepared j) = advanced (some j)
advance_state (advanced j) = advanced j
advance_state begin = advanced none
advance_state (proposed _) = advanced none

-- the accumulator after a call, and what the call returns
abbrev pub Outcome : Type 0 → Type 0 → Type 0 → Type 0 → Type 0
Outcome C D A S = Accumulator C D A S × Result (Unit {0}) (Misbehavior D S)

module _ {C D A S : Type 0} ⦃eD : Eq D⦄ ⦃eA : Eq A⦄ where
  unfoldable pub new : ℕ → ℕ → A → Accumulator C D A S
  new round_number threshold round_proposer = record {
    round_number = round_number;
    threshold = threshold;
    round_proposer = round_proposer;
    proposal = none;
    prepares = [];
    commits = [];
    vote_counts = [];
    advance_round = [];
    state = begin;
  }

  pub advance_votes : Accumulator C D A S → ℕ
  advance_votes acc = length acc.advance_round

  pub current_proposal : Accumulator C D A S → Option C
  current_proposal acc = elim acc.proposal [ none ↦ none | some p ↦ some p.proposal ]

  -- the new proposal, unless another digest was proposed before
  accept_proposal : LocalizedProposal C D A S → Accumulator C D A S → Outcome C D A S
  accept_proposal p acc =
      let new_proposal : Proposal C D S = record {
        proposal = p.proposal;
        digest = p.digest;
        digest_signature = p.digest_signature;
      } in
      (
        record acc { proposal = some new_proposal; state = propose_state p.proposal acc.state },
        ok tt,
      )

  pub import_proposal : LocalizedProposal C D A S → Accumulator C D A S → Outcome C D A S
  import_proposal p acc =
      if p.sender == acc.round_proposer
      then elim acc.proposal [
        | none ↦ accept_proposal p acc
        | some old ↦ if old.digest == p.digest then accept_proposal p acc else (
          acc,
          err (
              double_propose acc.round_number (old.digest, old.digest_signature)
                (p.digest, p.digest_signature)),
        )
      ]
      else (acc, err (propose_out_of_turn acc.round_number p.digest p.digest_signature))

  -- a vote of a sender who has not prepared before: the counts, and the threshold test
  pub record_prepare : D → A → S → Accumulator C D A S → Accumulator C D A S
  record_prepare digest sender signature acc =
      let count = counts_of acc.vote_counts digest in
      let count' = record count { prepared = count.prepared + 1 } in
      let prepares' = Map.insert acc.prepares sender (digest, signature) in
      record acc {
        prepares = prepares';
        vote_counts = Map.insert acc.vote_counts digest count';
        state =
            if leb acc.threshold count'.prepared
            then observe_prepared (justify acc.round_number digest prepares') acc.state
            else acc.state;
      }

  pub import_prepare : D → A → S → Accumulator C D A S → Outcome C D A S
  import_prepare digest sender signature acc = elim (Map.get acc.prepares sender) [
    | none ↦ (record_prepare digest sender signature acc, ok tt)
    | some (old_digest, old_signature) ↦ if old_digest == digest then (acc, ok tt) else (
      acc,
      err (double_prepare acc.round_number (old_digest, old_signature) (digest, signature)),
    )
  ]

  -- transition to concluded state always valid
  pub record_commit : D → A → S → Accumulator C D A S → Accumulator C D A S
  record_commit digest sender signature acc =
      let count = counts_of acc.vote_counts digest in
      let count' = record count { committed = count.committed + 1 } in
      let commits' = Map.insert acc.commits sender (digest, signature) in
      record acc {
        commits = commits';
        vote_counts = Map.insert acc.vote_counts digest count';
        state =
            if leb acc.threshold count'.committed
            then committed (justify acc.round_number digest commits')
            else acc.state;
      }

  pub import_commit : D → A → S → Accumulator C D A S → Outcome C D A S
  import_commit digest sender signature acc = elim (Map.get acc.commits sender) [
    | none ↦ (record_commit digest sender signature acc, ok tt)
    | some (old_digest, old_signature) ↦ if old_digest == digest then (acc, ok tt) else (
      acc,
      err (double_commit acc.round_number (old_digest, old_signature) (digest, signature)),
    )
  ]

  pub import_advance_round : A → Accumulator C D A S → Outcome C D A S
  import_advance_round sender acc =
      let seen = insert acc.advance_round sender in
      let acc' : Accumulator C D A S = record acc { advance_round = seen } in
      if ltb (length seen) acc.threshold
      then (acc', ok tt)
      else (record acc' { state = advance_state acc.state }, ok tt)

  import_vote : Vote D → A → S → Accumulator C D A S → Outcome C D A S
  import_vote (prepare _ d) sender signature acc = import_prepare d sender signature acc
  import_vote (commit _ d) sender signature acc = import_commit d sender signature acc
  import_vote (advance_round _) sender signature acc = import_advance_round sender acc

  import_same_round : LocalizedMessage C D A S → Accumulator C D A S → Outcome C D A S
  import_same_round (propose p) acc = import_proposal p acc
  import_same_round (vote v) acc = import_vote v.vote v.sender v.signature acc

  -- a message from a different round is ignored
  pub import_message : LocalizedMessage C D A S → Accumulator C D A S → Outcome C D A S
  import_message m acc =
      if message_round m == acc.round_number then import_same_round m acc else (acc, ok tt)
