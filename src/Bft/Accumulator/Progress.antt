-- ===== src/Bft/Accumulator/Progress.antt =====
-- substrate/bft/src/generic/accumulator.rs: the order of the states, and repeated messages.
use native.Mathlib.Decide.{ℕ_discrete}
use polkadot.Prelude.{
  ℕ, ◌≤◌, ◌≡◌, ◌≢◌, ◌⊎◌, refl, sym, ap, ◌∙◌, arith, ok, err, insert-insert, Result, Eq, nat_eq,
  ==_refl, inl, inr,
}
use polkadot.Prelude.Map
use polkadot.Prelude.Map.{Map}
use polkadot.Bft.Messages.{
  Vote, prepare, commit, advance_round, LocalizedProposal, LocalizedMessage, propose, vote,
  message_round,
}
use polkadot.Bft.Justification.{Justification}
use polkadot.Bft.Accumulator.{
  State, begin, proposed, prepared, committed, advanced, Accumulator, justify, record_prepare,
  record_commit, observe_prepared, advance_state, propose_state, accept_proposal, import_proposal,
  import_prepare, import_commit, import_advance_round, import_vote, import_same_round,
  import_message,
}
use polkadot.Bft.Accumulator.Evidence.{import_message_error}
use polkadot.Bft.Accumulator.Runs.{import_message-SameRound}

-- The stages of a round, in the order in which they may follow one another.
abbrev pub stage : {C D S : Type 0} → State C D S → ℕ
stage begin = 0
stage (proposed _) = 1
stage (prepared _) = 2
stage (advanced _) = 3
stage (committed _) = 4

stage-propose_state :
    {C D S : Type 0} (c : C) (s : State C D S) → stage s ≤ stage (propose_state c s)
unfolding propose_state
stage-propose_state c begin = omega arith
stage-propose_state c _ = omega arith

stage-observe_prepared :
    {C D S : Type 0} (j : Justification D S) (s : State C D S)
    → stage s ≤ stage (observe_prepared j s)
unfolding observe_prepared
stage-observe_prepared j begin = omega arith
stage-observe_prepared j _ = omega arith

stage-le : {C D S : Type 0} (s : State C D S) → stage s ≤ 4
stage-le begin = omega arith
stage-le _ = omega arith

stage-advance_state :
    {C D S : Type 0} (s : State C D S)
    → (stage s ≤ stage (advance_state s)) × (advance_state (advance_state s) ≡ advance_state s)
unfolding advance_state
stage-advance_state begin = (omega arith, refl)
stage-advance_state _ = (omega arith, refl)

propose_state_twice :
    {C D S : Type 0} (c : C) (s : State C D S)
    → propose_state c (propose_state c s) ≡ propose_state c s
unfolding propose_state
propose_state_twice c begin = refl
propose_state_twice c _ = refl

Result-cases : {E : Type 0} (r : Result (Unit {0}) E) → (r ≡ ok tt) ⊎ ((e : E) × (r ≡ err e))
Result-cases (ok u) = inl refl
Result-cases (err e) = inr (e, refl)

module _ {C D A S : Type 0} ⦃eD : Eq D⦄ ⦃eA : Eq A⦄ where
  stage-import_prepare :
      (acc : Accumulator C D A S) (d : D) (a : A) (s : S)
      → stage acc.state ≤ stage (import_prepare d a s acc).0.state
  unfolding import_prepare record_prepare
  stage-import_prepare acc d a s =
      let j = justify acc.round_number d (Map.insert acc.prepares a (d, s)) in
      ground (arith, stage-observe_prepared j acc.state)

  stage-import_commit :
      (acc : Accumulator C D A S) (d : D) (a : A) (s : S)
      → stage acc.state ≤ stage (import_commit d a s acc).0.state
  unfolding import_commit record_commit
  stage-import_commit acc d a s = ground (arith, stage-le acc.state)

  stage-import_advance_round :
      (acc : Accumulator C D A S) (a : A)
      → stage acc.state ≤ stage (import_advance_round a acc).0.state
  unfolding import_advance_round
  stage-import_advance_round acc a = ground (arith, stage-advance_state acc.state)

  stage-import_vote :
      (acc : Accumulator C D A S) (v : Vote D) (a : A) (s : S)
      → stage acc.state ≤ stage (import_vote v a s acc).0.state
  unfolding import_vote
  stage-import_vote acc (prepare r d) a s = stage-import_prepare acc d a s
  stage-import_vote acc (commit r d) a s = stage-import_commit acc d a s
  stage-import_vote acc (advance_round r) a s = stage-import_advance_round acc a

  stage-import_same_round :
      (acc : Accumulator C D A S) (m : LocalizedMessage C D A S)
      → stage acc.state ≤ stage (import_same_round m acc).0.state
  unfolding import_same_round import_proposal accept_proposal
  stage-import_same_round acc (propose p) = ground (arith, stage-propose_state p.proposal acc.state)
  stage-import_same_round acc (vote v) = stage-import_vote acc v.vote v.sender v.signature

  -- An import never takes the state back: begun, proposed, prepared, advanced, committed.
  pub stage-import_message :
      (acc : Accumulator C D A S) (m : LocalizedMessage C D A S)
      → stage acc.state ≤ stage (import_message m acc).0.state
  unfolding import_message
  stage-import_message acc m = ground (arith, stage-import_same_round acc m)

  import_prepare_twice :
      (acc : Accumulator C D A S) (d : D) (a : A) (s : S)
      → (import_prepare d a s acc).1 ≡ ok tt
      → import_prepare d a s (import_prepare d a s acc).0 ≡ ((import_prepare d a s acc).0, ok tt)
  unfolding import_prepare record_prepare
  import_prepare_twice acc d a s h =
      ground (arith, ==_refl d, Map.get-insert_self acc.prepares a (d, s))

  import_commit_twice :
      (acc : Accumulator C D A S) (d : D) (a : A) (s : S)
      → (import_commit d a s acc).1 ≡ ok tt
      → import_commit d a s (import_commit d a s acc).0 ≡ ((import_commit d a s acc).0, ok tt)
  unfolding import_commit record_commit
  import_commit_twice acc d a s h =
      ground (arith, ==_refl d, Map.get-insert_self acc.commits a (d, s))

  import_advance_round_twice :
      (acc : Accumulator C D A S) (a : A)
      → import_advance_round a (import_advance_round a acc).0
        ≡ ((import_advance_round a acc).0, ok tt)
  unfolding import_advance_round
  import_advance_round_twice acc a =
      ground (arith, insert-insert acc.advance_round a, stage-advance_state acc.state)

  import_vote_twice :
      (acc : Accumulator C D A S) (v : Vote D) (a : A) (s : S)
      → (import_vote v a s acc).1 ≡ ok tt
      → import_vote v a s (import_vote v a s acc).0 ≡ ((import_vote v a s acc).0, ok tt)
  unfolding import_vote
  import_vote_twice acc (prepare r d) a s h = import_prepare_twice acc d a s h
  import_vote_twice acc (commit r d) a s h = import_commit_twice acc d a s h
  import_vote_twice acc (advance_round r) a s h = import_advance_round_twice acc a

  import_proposal_twice :
      (acc : Accumulator C D A S) (p : LocalizedProposal C D A S)
      → (import_proposal p acc).1 ≡ ok tt
      → import_proposal p (import_proposal p acc).0 ≡ ((import_proposal p acc).0, ok tt)
  unfolding import_proposal accept_proposal
  import_proposal_twice acc p h =
      ground (arith, ==_refl p.digest, propose_state_twice p.proposal acc.state)

  import_same_round_twice :
      (acc : Accumulator C D A S) (m : LocalizedMessage C D A S)
      → (import_same_round m acc).1 ≡ ok tt
      → import_same_round m (import_same_round m acc).0 ≡ ((import_same_round m acc).0, ok tt)
  unfolding import_same_round
  import_same_round_twice acc (propose p) h = import_proposal_twice acc p h
  import_same_round_twice acc (vote v) h = import_vote_twice acc v.vote v.sender v.signature h

  import_message-same_round :
      (acc : Accumulator C D A S) (m : LocalizedMessage C D A S)
      → message_round m ≡ acc.round_number
      → import_message m acc ≡ import_same_round m acc
  unfolding import_message
  import_message-same_round acc m q = ground (arith, q)

  import_message-other_round :
      (acc : Accumulator C D A S) (m : LocalizedMessage C D A S)
      → message_round m ≢ acc.round_number
      → import_message m acc ≡ (acc, ok tt)
  unfolding import_message
  import_message-other_round acc m q = ground arith

  import_message_ok_twice :
      (acc : Accumulator C D A S) (m : LocalizedMessage C D A S)
      → (import_message m acc).1 ≡ ok tt
      → import_message m (import_message m acc).0 ≡ ((import_message m acc).0, ok tt)
  import_message_ok_twice acc m h = elim (ℕ_discrete (message_round m) acc.round_number) [
    | yes q ↦
        let e = import_message-same_round acc m q in
        let same = import_message-SameRound acc m in
        rw e (
          import_message-same_round (import_same_round m acc).0 m (q ∙ sym (rw e at same.0))
          ∙ import_same_round_twice acc m (rw e at h))
    | no q ↦ rw (import_message-other_round acc m q) (import_message-other_round acc m q)
  ]

  -- Importing a message a second time has the result of the first time and changes nothing.
  pub import_message_twice :
      (acc : Accumulator C D A S) (m : LocalizedMessage C D A S)
      → import_message m (import_message m acc).0 ≡ import_message m acc
  import_message_twice acc m = elim (Result-cases (import_message m acc).1) [
    | inl good ↦ cc (import_message_ok_twice acc m good, good)
    | inr (e, bad) ↦ ap (import_message m) (import_message_error acc m e bad).0
  ]
