-- ===== src/Bft/Strategy/Turns.antt =====
-- substrate/bft/src/generic/mod.rs: a turn of `Strategy::poll`, `poll_once`.
pub mod Sent
pub mod Steps
pub mod Ranks
pub mod Propose
pub mod Judge
pub mod Polls
pub mod Conclude
pub mod Drive
pub mod Runs
pub mod Loop
pub mod Locks
mod Tests
use polkadot.Prelude.{
  inl, inr, ◌⊎◌, ℕ, ◌+◌, Bool, true, false, not, ◌&&◌, ◌||◌, Option, none, some, List, [], ◌∷◌, ltb,
  if◌then◌else◌, Eq, ◌==◌, nat_eq,
}
use polkadot.Prelude.Map
use polkadot.Bft.Messages.{Vote, Message}
use polkadot.Bft.Justification.{Justification}
use polkadot.Bft.Accumulator.{
  State, begin, proposed, prepared, committed, advanced, advance_votes, current_proposal,
}
use polkadot.Bft.Strategy.{
  Context, Poll, ready, not_ready, Environment, Communication, Sending, Committed, Locked,
  locked_digest, LocalState, Strategy, Outcome, done, failed, panicked, ◌>>=◌, push, Node,
  current_round, advance_to_round, import_message, import_lock_proof, import_and_send_message,
}

-- a local state in which the node may still prepare
pub may_prepare : LocalState → Bool
may_prepare LocalState.start = true
may_prepare LocalState.proposed = true
may_prepare _ = false

pub may_commit : LocalState → Bool
may_commit LocalState.committed = false
may_commit LocalState.vote_advance = false
may_commit _ = true

pub is_start : LocalState → Bool
is_start LocalState.start = true
is_start _ = false

pub has_voted_advance : LocalState → Bool
has_voted_advance LocalState.vote_advance = true
has_voted_advance _ = false

pub found_invalid : LocalState → Bool
found_invalid (LocalState.prepared valid) = not valid
found_invalid _ = false

pub is_begin : {C D S : Type 0} → State C D S → Bool
is_begin begin = true
is_begin _ = false

module _ {C D A S : Type 0} ⦃eD : Eq D⦄ ⦃eA : Eq A⦄ (ctx : Context C D A S) where
  -- the future of the proposal is kept until it is ready
  pub fetch_proposal :
      {E : Type 0} → Poll C E → Strategy C D A S → Outcome (Strategy C D A S × Option C) E
  fetch_proposal (ready p) s = done (record s { fetching_proposal = true }, some p)
  fetch_proposal not_ready s = done (record s { fetching_proposal = true }, none)
  fetch_proposal (failed e) s = failed e

  -- the proposal to broadcast, if there is one yet
  pub obtain_proposal :
      {E : Type 0}
      → Environment C E
      → Option (Locked D S)
      → Strategy C D A S
      → Outcome (Strategy C D A S × Option C) E
  obtain_proposal env (some l) s = done (s, Map.get s.notable_candidates (locked_digest l))
  obtain_proposal env none s = fetch_proposal env.proposal s

  -- the justification is broadcast along with the proposal if the node is locked
  pub send_lock :
      Option (Locked D S) → Sending (Communication C D A S) → Sending (Communication C D A S)
  send_lock none sending = sending
  send_lock (some l) sending = push (Communication.auxiliary l.justification) sending

  pub send_proposal : Option C → Node C D A S → Node C D A S
  send_proposal none n = n
  send_proposal (some p) (s, sending) =
      let (s', sending') =
        import_and_send_message ctx (Message.propose (current_round s) p)
          (record s { fetching_proposal = false }, sending) in
      (record s' { local_state = LocalState.proposed }, send_lock s'.locked sending')

  pub propose : {E : Type 0} → Environment C E → Node C D A S → Outcome (Node C D A S) E
  propose env (s, sending) =
      if is_start s.local_state
        && (is_begin s.current_accumulator.state
            && s.local_id == ctx.round_proposer (current_round s))
      then obtain_proposal env s.locked s >>= (λ (s', p). done (send_proposal p (s', sending)))
      else done (s, sending)

  pub send_prepare : Option D → Node C D A S → Node C D A S
  send_prepare none n = n
  send_prepare (some digest) (s, sending) =
      import_and_send_message ctx (Message.vote (Vote.prepare (current_round s) digest))
        (s, sending)

  -- the verdict on a proposal of a node that is not locked: the state, and the digest to prepare
  pub evaluate :
      {E : Type 0} → Poll Bool E → D → Strategy C D A S → Outcome (Strategy C D A S × Option D) E
  evaluate (ready valid) digest s = done (
    record s { evaluating_proposal = false; local_state = LocalState.prepared valid },
    if valid then some digest else none,
  )
  evaluate not_ready digest s = done (record s { evaluating_proposal = true }, none)
  evaluate (failed e) digest s = failed e

  -- a locked node does not check validity, and prepares its lock only
  pub judge :
      {E : Type 0}
      → Environment C E
      → C
      → Option (Locked D S)
      → Strategy C D A S
      → Outcome (Strategy C D A S × Option D) E
  judge env candidate (some l) s =
      let digest = ctx.candidate_digest candidate in
      done (
        if locked_digest l == digest
        then (record s { local_state = LocalState.prepared true }, some digest)
        else (s, none))
  judge env candidate none s = evaluate env.proposal_valid (ctx.candidate_digest candidate) s

  pub judge_state :
      {E : Type 0}
      → Environment C E
      → State C D S
      → Strategy C D A S
      → Outcome (Strategy C D A S × Option D) E
  judge_state env (proposed candidate) s = judge env candidate s.locked s
  judge_state env _ s = done (s, none)

  pub prepare : {E : Type 0} → Environment C E → Node C D A S → Outcome (Node C D A S) E
  prepare env (s, sending) =
      if may_prepare s.local_state
      then judge_state env s.current_accumulator.state s
        >>= (λ (s', digest). done (send_prepare digest (s', sending)))
      else done (s, sending)

  -- the node is now locked to the prepare justification
  pub commit_to : State C D S → Node C D A S → Node C D A S
  commit_to (prepared j) (s, sending) =
      let (s', sending') =
        import_and_send_message ctx
          (Message.vote (Vote.commit (current_round s) j.unchecked.digest))
          (record s { locked = some (record { justification = j }) }, sending) in
      (record s' { local_state = LocalState.committed }, sending')
  commit_to _ n = n

  pub commit : Node C D A S → Node C D A S
  commit (s, sending) =
      if may_commit s.local_state
      then commit_to s.current_accumulator.state (s, sending)
      else (s, sending)

  pub send_advance : Node C D A S → Node C D A S
  send_advance (s, sending) =
      let (s', sending') =
        import_and_send_message ctx (Message.vote (Vote.advance_round (current_round s)))
          (s, sending) in
      (record s' { local_state = LocalState.vote_advance }, sending')

  -- f + 1 advance votes, or a bad proposal
  pub wants_advance : Strategy C D A S → Bool
  wants_advance s =
      ltb s.max_faulty (advance_votes s.current_accumulator) || found_invalid s.local_state

  pub after_timeout : {E : Type 0} → Poll (Unit {0}) E → Node C D A S → Outcome (Node C D A S) E
  after_timeout (ready _) n = done (send_advance n)
  after_timeout not_ready n = done (if wants_advance n.0 then send_advance n else n)
  after_timeout (failed e) n = failed e

  pub vote_advance : {E : Type 0} → Environment C E → Node C D A S → Outcome (Node C D A S) E
  vote_advance env (s, sending) =
      if has_voted_advance s.local_state
      then done (s, sending)
      else after_timeout env.round_timeout (s, sending)

  -- the candidate of the committed digest, as far as the node knows it
  pub known_candidate : Strategy C D A S → D → Option C
  known_candidate s digest = elim (current_proposal s.current_accumulator) [
    | none ↦ Map.get s.notable_candidates digest
    | some c ↦
        if ctx.candidate_digest c == digest then some c else Map.get s.notable_candidates digest
  ]

  pub lock_witnessed : Option (Justification D S) → Strategy C D A S → Strategy C D A S
  lock_witnessed none s = s
  lock_witnessed (some j) s = record s { locked = some (record { justification = j }) }

  -- the node after a turn, and what it has committed
  pub conclude :
      {E : Type 0}
      → State C D S
      → Node C D A S
      → Outcome (Node C D A S × Option (Committed C D S)) E
  conclude (advanced j) (s, sending) =
      advance_to_round ctx (current_round s + 1) (lock_witnessed j s)
      >>= (λ s'. done ((s', sending), none))
  conclude (committed j) (s, sending) = done (
    (s, sending),
    some (record { candidate = known_candidate s j.unchecked.digest; justification = j }),
  )
  conclude _ n = done (n, none)

  pub send_votes : {E : Type 0} → Environment C E → Node C D A S → Outcome (Node C D A S) E
  send_votes env n = propose env n >>= prepare env >>= (λ n'. vote_advance env (commit n'))

  pub poll_once :
      {E : Type 0}
      → Environment C E
      → Node C D A S
      → Outcome (Node C D A S × Option (Committed C D S)) E
  poll_once env n = send_votes env n >>= (λ n'. conclude n'.0.current_accumulator.state n')
