-- ===== src/Bft/Strategy/Turns/Polls.antt =====
-- substrate/bft/src/generic/mod.rs: `Strategy::prepare`, `commit`, `vote_advance` and `poll_once`.
use mathlib.Core.Path.{subst}
use polkadot.Prelude.{
  ℕ, ◌≤◌, ◌≡◌, sym, refl, true, false, inl, inr, Option, none, some, arith, Eq, nat_eq, Bool-cases,
}
use polkadot.Bft.Messages.{Vote, Message}
use polkadot.Bft.Justification.{Justification}
use polkadot.Bft.Accumulator.{State, begin, proposed, prepared, committed, advanced}
use polkadot.Bft.Accumulator.Votes.{IsJustified}
use polkadot.Bft.Accumulator.Invariant.{Backed}
use polkadot.Bft.Strategy.{
  Context, Poll, Environment, ready, not_ready, Communication, Sending, Locked, LocalState,
  Strategy, Outcome, done, failed, panicked, ◌>>=◌, Node, current_round,
}
use polkadot.Bft.Strategy.Sound.{IsSound}
use polkadot.Bft.Strategy.Rounds.{Ends, Ends->>=, IsLaterLock, locked-IsSound}
use polkadot.Bft.Strategy.Turns.{
  may_prepare, may_commit, after_timeout, wants_advance, has_voted_advance, propose, send_prepare,
  judge_state, prepare, commit_to, commit, send_advance, vote_advance,
}
use polkadot.Bft.Strategy.Turns.Sent.{Signs}
use polkadot.Bft.Strategy.Turns.Steps.{
  Turned, Turned-trans, IsLaterLock-refl, quiet, quiet_Stands, send_and_set-Turned,
  set_and_send-Turned,
}
use polkadot.Bft.Strategy.Turns.Ranks.{rank-may_prepare, rank-may_commit, rank_may_advance}
use polkadot.Bft.Strategy.Turns.Propose.{propose-Turned}
use polkadot.Bft.Strategy.Turns.Judge.{Judged, judge_state-Judged}
use polkadot.Bft.Strategy.Turns.{send_votes}

pub later_lock :
    {D S : Type 0} (l : Option (Locked D S)) (j : Justification D S) (n : ℕ)
    → ((l' : Locked D S) → l ≡ some l' → l'.justification.unchecked.round_number ≤ n)
    → n ≤ j.unchecked.round_number
    → IsLaterLock l (some (record { justification = j }))
later_lock none j n h k = tt
later_lock (some l) j n h k = omega (arith, h l refl)

module _ {C D A S : Type 0} ⦃eD : Eq D⦄ ⦃eA : Eq A⦄ (ctx : Context C D A S) where
  send_prepare-Turned :
      (digest : Option D) (s s' : Strategy C D A S) (sending : Sending (Communication C D A S))
      → Signs ctx
      → may_prepare s.local_state ≡ true
      → Judged ctx s (s', digest)
      → Turned ctx (s, sending) (send_prepare ctx digest (s', sending))
  unfolding send_prepare
  send_prepare-Turned none s s' sending signs may (k, round, lock, rank_le, _) =
      quiet ctx s s' sending k (omega (arith, round)) (rw lock (IsLaterLock-refl s.locked))
        (omega (arith, round, rank_le))
  send_prepare-Turned (some d) s s' sending signs may (k, round, lock, _, at) =
      let first = rank-may_prepare s.local_state may in
      let state = at d refl in
      set_and_send-Turned ctx (Message.vote (Vote.prepare (current_round s') d)) s s' sending signs
        k (sym round) (rw lock (IsLaterLock-refl s.locked)) (omega (arith, round, first))
        (rw state (omega arith))

  prepare-Turned :
      {E : Type 0} (env : Environment C E) (s : Strategy C D A S)
      (sending : Sending (Communication C D A S))
      → Signs ctx
      → IsSound ctx s
      → Ends (Turned ctx (s, sending)) (prepare ctx env (s, sending))
  unfolding prepare
  prepare-Turned env s sending signs k = elim (Bool-cases (may_prepare s.local_state)) [
    | inr done_so ↦ rw done_so (quiet_Stands ctx s s sending k (refl, refl, refl))
    | inl may ↦ rw may (
        Ends->>= (Judged ctx s) (Turned ctx (s, sending))
          (judge_state ctx env s.current_accumulator.state s) _
          (judge_state-Judged ctx env s.current_accumulator.state s k may)
          (λ (s', digest) judged. send_prepare-Turned digest s s' sending signs may judged))
  ]

  -- The justification of the accumulator is of its round.
  prepared_round :
      (s : Strategy C D A S) (j : Justification D S)
      → IsSound ctx s
      → s.current_accumulator.state ≡ prepared j
      → j.unchecked.round_number ≡ current_round s
  prepared_round s j k h =
      let justified : IsJustified s.current_accumulator.threshold (current_round s)
          s.current_accumulator.prepares j =
        subst
          (Backed s.current_accumulator.threshold (current_round s) s.current_accumulator.prepares
            s.current_accumulator.commits)
          h k.present.consistent.backed in
      justified.same_round

  commit_to-Turned :
      (st : State C D S) (s : Strategy C D A S) (sending : Sending (Communication C D A S))
      → s.current_accumulator.state ≡ st
      → Signs ctx
      → IsSound ctx s
      → may_commit s.local_state ≡ true
      → Turned ctx (s, sending) (commit_to ctx st (s, sending))
  unfolding commit_to
  commit_to-Turned (prepared j) s sending here signs k may =
      let first = rank-may_commit s.local_state may in
      let round = prepared_round s j k here in
      send_and_set-Turned ctx (Message.vote (Vote.commit (current_round s) j.unchecked.digest)) s
        (record s { locked = some (record { justification = j }) }) LocalState.committed sending
        signs (locked-IsSound ctx j s k (omega (arith, round))) refl
        (later_lock s.locked j _ k.lock_round (omega (arith, round))) (omega (arith, first))
        (omega arith)
  commit_to-Turned begin s sending here signs k may =
      quiet_Stands ctx s s sending k (refl, refl, refl)
  commit_to-Turned (proposed _) s sending here signs k may =
      quiet_Stands ctx s s sending k (refl, refl, refl)
  commit_to-Turned (committed _) s sending here signs k may =
      quiet_Stands ctx s s sending k (refl, refl, refl)
  commit_to-Turned (advanced _) s sending here signs k may =
      quiet_Stands ctx s s sending k (refl, refl, refl)

  commit-Turned : (n : Node C D A S) → Signs ctx → IsSound ctx n.0 → Turned ctx n (commit ctx n)
  unfolding commit
  commit-Turned (s, sending) signs k = elim (Bool-cases (may_commit s.local_state)) [
    | inr done_so ↦ rw done_so (quiet_Stands ctx s s sending k (refl, refl, refl))
    | inl may ↦ rw may (commit_to-Turned s.current_accumulator.state s sending refl signs k may)
  ]

  send_advance-Turned :
      (s : Strategy C D A S) (sending : Sending (Communication C D A S))
      → Signs ctx
      → IsSound ctx s
      → has_voted_advance s.local_state ≡ false
      → Turned ctx (s, sending) (send_advance ctx (s, sending))
  unfolding send_advance
  send_advance-Turned s sending signs k may =
      let first = rank_may_advance s.local_state may in
      send_and_set-Turned ctx (Message.vote (Vote.advance_round (current_round s))) s s
        LocalState.vote_advance sending signs k refl (IsLaterLock-refl s.locked)
        (omega (arith, first)) (omega arith)

  after_timeout-Turned :
      {E : Type 0} (poll : Poll (Unit {0}) E) (s : Strategy C D A S)
      (sending : Sending (Communication C D A S))
      → Signs ctx
      → IsSound ctx s
      → has_voted_advance s.local_state ≡ false
      → Ends (Turned ctx (s, sending)) (after_timeout ctx poll (s, sending))
  unfolding after_timeout
  after_timeout-Turned (ready _) s sending signs k may = send_advance-Turned s sending signs k may
  after_timeout-Turned (failed e) s sending signs k may = tt
  after_timeout-Turned not_ready s sending signs k may = elim (Bool-cases (wants_advance ctx s)) [
    | inl wants ↦ rw wants (send_advance-Turned s sending signs k may)
    | inr other ↦ rw other (quiet_Stands ctx s s sending k (refl, refl, refl))
  ]

  vote_advance-Turned :
      {E : Type 0} (env : Environment C E) (n : Node C D A S)
      → Signs ctx
      → IsSound ctx n.0
      → Ends (Turned ctx n) (vote_advance ctx env n)
  unfolding vote_advance
  vote_advance-Turned env (s, sending) signs k =
      elim (Bool-cases (has_voted_advance s.local_state)) [
        | inl done_so ↦ rw done_so (quiet_Stands ctx s s sending k (refl, refl, refl))
        | inr may ↦ rw may (after_timeout-Turned env.round_timeout s sending signs k may)
      ]

  pub after_turn :
      {E : Type 0} (l m : Node C D A S) (o : Outcome (Node C D A S) E)
      → Turned ctx l m
      → Ends (Turned ctx m) o
      → Ends (Turned ctx l) o
  after_turn l m (done n) h k = Turned-trans ctx l m n h k
  after_turn l m (failed e) h k = tt
  after_turn l m panicked h k = k

  pub send_votes-Turned :
      {E : Type 0} (env : Environment C E) (n : Node C D A S)
      → Signs ctx
      → IsSound ctx n.0
      → Ends (Turned ctx n) (send_votes ctx env n)
  unfolding send_votes
  send_votes-Turned env n signs k =
      Ends->>= (Turned ctx n) (Turned ctx n) (propose ctx env n >>= prepare ctx env) _
        (Ends->>= (Turned ctx n) (Turned ctx n) (propose ctx env n) _
          (propose-Turned ctx env n.0 n.1 signs k)
          (λ n₁ h. after_turn n n₁ _ h (prepare-Turned env n₁.0 n₁.1 signs h.sound)))
        (λ n₂ h.
          let committed_too = commit-Turned n₂ signs h.sound in
          after_turn n _ _ (Turned-trans ctx n n₂ _ h committed_too)
            (vote_advance-Turned env _ signs committed_too.sound))
