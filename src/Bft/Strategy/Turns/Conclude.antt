-- ===== src/Bft/Strategy/Turns/Conclude.antt =====
-- substrate/bft/src/generic/mod.rs: the end of `Strategy::poll_once`.
use mathlib.Core.Path.{subst}
use polkadot.Prelude.{
  ◌+◌, ◌≡◌, sym, refl, inl, inr, Option, none, some, arith, Eq, ◌==◌, ==_iff, nat_eq, Bool-cases,
  Option-cases,
}
use polkadot.Bft.Justification.{Justification}
use polkadot.Bft.Accumulator.{State, begin, proposed, prepared, committed, advanced}
use polkadot.Bft.Accumulator.Votes.{IsJustified}
use polkadot.Bft.Accumulator.Invariant.{Backed}
use polkadot.Bft.Strategy.{
  Context, Environment, Communication, Sending, Strategy, Outcome, done, failed, panicked, ◌>>=◌,
  Node, current_round,
}
use polkadot.Bft.Strategy.Sound.{IsSound}
use polkadot.Bft.Strategy.Rounds.{Ends, Ends->>=, IsLaterLock, locked-IsSound}
use polkadot.Bft.Strategy.Turns.Sent.{Signs}
use polkadot.Bft.Strategy.Turns.Steps.{Turned, Turned-trans, IsLaterLock-refl, quiet, quiet_Stands}
use polkadot.Bft.Strategy.Rounds.{begin_round-IsSound, begin_round-round, advance_to_round_lem}
use polkadot.Bft.Strategy.{Committed, begin_round, advance_to_round}
use polkadot.Bft.Strategy.Turns.{known_candidate, lock_witnessed, conclude, send_votes, poll_once}
use polkadot.Bft.Accumulator.{current_proposal}
use polkadot.Bft.Threshold.{bft_threshold}
use polkadot.Bft.Strategy.Turns.Polls.{later_lock, send_votes-Turned}
use polkadot.Bft.Strategy.Turns.Ranks.{rank_le}

module _ {C D A S : Type 0} ⦃eD : Eq D⦄ ⦃eA : Eq A⦄ (ctx : Context C D A S) where
  -- A justification by a threshold of the commits of the round, and the candidate of its digest.
  pub record IsCommitted (s : Strategy C D A S) (c : Committed C D S) : Type 0 where
    pub justified :
        IsJustified
          (bft_threshold s.nodes s.max_faulty)
          (current_round s)
          s.current_accumulator.commits
          c.justification
    pub same_digest :
        (x : C) → c.candidate ≡ some x → ctx.candidate_digest x ≡ c.justification.unchecked.digest

  known_candidate_lem :
      (s : Strategy C D A S) (digest : D) (x : C)
      → IsSound ctx s
      → known_candidate ctx s digest ≡ some x
      → ctx.candidate_digest x ≡ digest
  unfolding known_candidate
  known_candidate_lem s digest x k h =
      elim (Option-cases (current_proposal s.current_accumulator)) [
        | inl q ↦ k.candidates digest x (ground (arith, h, q))
        | inr (c, q) ↦ elim (Bool-cases (ctx.candidate_digest c == digest)) [
          | inl same ↦ ground (arith, h, q, same, ==_iff (ctx.candidate_digest c) digest)
          | inr other ↦ k.candidates digest x (ground (arith, h, q, other))
        ]
      ]

  -- The end of a turn: the node after it, and what it has committed.
  abbrev pub Concluded : Node C D A S → Node C D A S × Option (Committed C D S) → Type 0
  Concluded n (n', result) =
      Turned ctx n n' × ((c : Committed C D S) → result ≡ some c → IsCommitted n'.0 c)

  nothing_committed : (n n' : Node C D A S) → Turned ctx n n' → Concluded n (n', none)
  nothing_committed n n' h = (h, λ c q. absurd (ground (arith, q)))

  prepares_round :
      (s : Strategy C D A S) (j : Justification D S)
      → s.current_accumulator.state ≡ advanced (some j)
      → IsSound ctx s
      → j.unchecked.round_number ≡ current_round s
  prepares_round s j here k =
      let justified : IsJustified s.current_accumulator.threshold (current_round s)
          s.current_accumulator.prepares j =
        subst
          (Backed s.current_accumulator.threshold (current_round s) s.current_accumulator.prepares
            s.current_accumulator.commits)
          here k.present.consistent.backed in
      justified.same_round

  next_round-Concluded :
      (E : Type 0) (s s' : Strategy C D A S) (sending : Sending (Communication C D A S))
      → IsSound ctx s'
      → current_round s' ≡ current_round s
      → IsLaterLock s.locked s'.locked
      → Ends {E = E}
          (Concluded (s, sending))
          (advance_to_round ctx (current_round s' + 1) s' >>= (λ s''. done ((s'', sending), none)))
  unfolding begin_round
  next_round-Concluded E s s' sending k same_round later_lock =
      let round = current_round s' + 1 in
      let at = begin_round-round ctx round s' k (omega arith) in
      let last = rank_le s.local_state in
      rw (advance_to_round_lem E ctx round s' (omega arith)) (
        nothing_committed (s, sending) _
          (quiet ctx s (begin_round ctx round s') sending
            (begin_round-IsSound ctx round s' k (omega arith)) (omega (arith, at, same_round))
            later_lock (omega (arith, at, same_round, last))))

  committed-IsCommitted :
      (s : Strategy C D A S) (j : Justification D S)
      → s.current_accumulator.state ≡ committed j
      → IsSound ctx s
      → IsCommitted s
          (record { candidate = known_candidate ctx s j.unchecked.digest; justification = j })
  committed-IsCommitted s j here k = record {
    justified = rw (sym k.present.of_threshold) (
        subst
          (Backed s.current_accumulator.threshold (current_round s) s.current_accumulator.prepares
            s.current_accumulator.commits)
          here k.present.consistent.backed);
    same_digest = λ x h. known_candidate_lem s j.unchecked.digest x k h;
  }

  only-IsCommitted :
      (s : Strategy C D A S) (c c' : Committed C D S)
      → IsCommitted s c
      → some c ≡ some c'
      → IsCommitted s c'
  only-IsCommitted s c c' h q =
      let same : c ≡ c' = ground (arith, q) in subst (IsCommitted s) same h

  conclude-Concluded :
      (E : Type 0) (st : State C D S) (s : Strategy C D A S)
      (sending : Sending (Communication C D A S))
      → s.current_accumulator.state ≡ st
      → IsSound ctx s
      → Ends {E = E} (Concluded (s, sending)) (conclude ctx st (s, sending))
  unfolding conclude lock_witnessed
  conclude-Concluded E (advanced none) s sending here k =
      next_round-Concluded E s s sending k refl (IsLaterLock-refl s.locked)
  conclude-Concluded E (advanced (some j)) s sending here k =
      let round = prepares_round s j here k in
      next_round-Concluded E s (record s { locked = some (record { justification = j }) }) sending
        (locked-IsSound ctx j s k (omega (arith, round))) refl
        (later_lock s.locked j _ k.lock_round (omega (arith, round)))
  conclude-Concluded E (committed j) s sending here k = (
    quiet_Stands ctx s s sending k (refl, refl, refl),
    λ c q. only-IsCommitted s _ c (committed-IsCommitted s j here k) q,
  )
  conclude-Concluded E begin s sending here k =
      nothing_committed _ _ (quiet_Stands ctx s s sending k (refl, refl, refl))
  conclude-Concluded E (proposed _) s sending here k =
      nothing_committed _ _ (quiet_Stands ctx s s sending k (refl, refl, refl))
  conclude-Concluded E (prepared _) s sending here k =
      nothing_committed _ _ (quiet_Stands ctx s s sending k (refl, refl, refl))

  and_then :
      {E : Type 0} (l m : Node C D A S) (o : Outcome (Node C D A S × Option (Committed C D S)) E)
      → Turned ctx l m
      → Ends (Concluded m) o
      → Ends (Concluded l) o
  and_then l m (done (n, c)) h (k, k') = (Turned-trans ctx l m n h k, k')
  and_then l m (failed e) h k = tt
  and_then l m panicked h k = k

  pub poll_once-Concluded :
      {E : Type 0} (env : Environment C E) (n : Node C D A S)
      → Signs ctx
      → IsSound ctx n.0
      → Ends (Concluded n) (poll_once ctx env n)
  unfolding poll_once
  poll_once-Concluded {E} env n signs k =
      Ends->>= (Turned ctx n) (Concluded n) (send_votes ctx env n) _
        (send_votes-Turned ctx env n signs k)
        (λ n' h.
          and_then n n' _ h
            (conclude-Concluded E n'.0.current_accumulator.state n'.0 n'.1 refl h.sound))
