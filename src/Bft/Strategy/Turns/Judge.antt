-- ===== src/Bft/Strategy/Turns/Judge.antt =====
-- substrate/bft/src/generic/mod.rs: the verdict of `Strategy::prepare` on a proposal.
use polkadot.Prelude.{
  ◌≤◌, ◌≡◌, refl, Bool, true, false, inl, inr, Option, none, some, arith, Eq, ◌==◌, nat_eq,
  Bool-cases,
}
use polkadot.Bft.Accumulator.{State, begin, proposed, prepared, committed, advanced}
use polkadot.Bft.Strategy.{
  Context, Poll, Environment, ready, not_ready, Locked, locked_digest, LocalState, Strategy, failed,
  current_round,
}
use polkadot.Bft.Strategy.Sound.{IsSound}
use polkadot.Bft.Strategy.Rounds.{Ends}
use polkadot.Bft.Strategy.Turns.{may_prepare, evaluate, judge, judge_state}
use polkadot.Bft.Strategy.Turns.Sent.{rank}
use polkadot.Bft.Strategy.Turns.Ranks.{rank-may_prepare}

module _ {C D A S : Type 0} ⦃eD : Eq D⦄ ⦃eA : Eq A⦄ (ctx : Context C D A S) where
  -- What a verdict leaves of a node that may prepare.
  abbrev pub Judged : Strategy C D A S → Strategy C D A S × Option D → Type 0
  Judged s (s', digest) =
      IsSound ctx s'
      × (current_round s' ≡ current_round s)
      × (s'.locked ≡ s.locked)
      × (rank s.local_state ≤ rank s'.local_state)
      × ((d : D) → digest ≡ some d → s'.local_state ≡ LocalState.prepared true)

  -- No verdict is possible.
  unjudged : (s : Strategy C D A S) → IsSound ctx s → Judged s (s, none)
  unjudged s k = (k, refl, refl, omega arith, λ d h. absurd (ground (arith, h)))

  evaluate-Judged :
      {E : Type 0} (poll : Poll Bool E) (d : D) (s : Strategy C D A S)
      → IsSound ctx s
      → may_prepare s.local_state ≡ true
      → Ends (Judged s) (evaluate ctx poll d s)
  unfolding evaluate
  evaluate-Judged (ready true) d s k may =
      (k, refl, refl, omega (arith, rank-may_prepare s.local_state may), λ d' h. refl)
  evaluate-Judged (ready false) d s k may = (
    k,
    refl,
    refl,
    omega (arith, rank-may_prepare s.local_state may),
    λ d' h. absurd (ground (arith, h)),
  )
  evaluate-Judged not_ready d s k may =
      (k, refl, refl, omega arith, λ d' h. absurd (ground (arith, h)))
  evaluate-Judged (failed e) d s k may = tt

  judge-Judged :
      {E : Type 0} (env : Environment C E) (c : C) (l : Option (Locked D S)) (s : Strategy C D A S)
      → IsSound ctx s
      → may_prepare s.local_state ≡ true
      → Ends (Judged s) (judge ctx env c l s)
  unfolding judge
  judge-Judged env c none s k may = evaluate-Judged env.proposal_valid _ s k may
  judge-Judged env c (some l) s k may =
      elim (Bool-cases (locked_digest l == ctx.candidate_digest c)) [
        | inl same ↦
            rw same (k, refl, refl, omega (arith, rank-may_prepare s.local_state may), λ d h. refl)
        | inr other ↦ rw other (unjudged s k)
      ]

  pub judge_state-Judged :
      {E : Type 0} (env : Environment C E) (st : State C D S) (s : Strategy C D A S)
      → IsSound ctx s
      → may_prepare s.local_state ≡ true
      → Ends (Judged s) (judge_state ctx env st s)
  unfolding judge_state
  judge_state-Judged env (proposed c) s k may = judge-Judged env c s.locked s k may
  judge_state-Judged env begin s k may = unjudged s k
  judge_state-Judged env (prepared _) s k may = unjudged s k
  judge_state-Judged env (committed _) s k may = unjudged s k
  judge_state-Judged env (advanced _) s k may = unjudged s k
