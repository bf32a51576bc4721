-- ===== src/Bft/Strategy/Turns/Locks.antt =====
-- substrate/bft/src/generic/mod.rs: what a locked node proposes and prepares.
use polkadot.Prelude.{
  ==_iff, ◌⊎◌, ◌≡◌, refl, inl, inr, Option, none, some, [], ◌∷◌, ◌++◌, arith, Eq, ◌==◌, nat_eq,
  Bool-cases,
}
use polkadot.Bft.Messages.{Vote, Message}
use polkadot.Bft.Accumulator.{State, begin, proposed, prepared, committed, advanced}
use polkadot.Bft.Strategy.{
  import_and_send_message, Context, Environment, Communication, Sending, Locked, locked_digest,
  Strategy, push, Node, current_round,
}
use polkadot.Bft.Strategy.Rounds.{Ends, Ends->>=}
use polkadot.Bft.Strategy.Turns.{may_prepare, send_prepare, judge, judge_state, prepare}

module _ {C D A S : Type 0} ⦃eD : Eq D⦄ ⦃eA : Eq A⦄ (ctx : Context C D A S) where
  -- The queue after a call: as before, or with one prepare vote for a digest of the round.
  abbrev pub PreparesOnly : D → Node C D A S → Node C D A S → Type 0
  PreparesOnly d (s, sending) (s', sending') =
      (sending'.items ≡ sending.items)
      ⊎ (sending'.items
          ≡ sending.items
            ++ Communication.consensus
                (ctx.sign_local (Message.vote (Vote.prepare (current_round s) d)))
              ∷ [])

  abbrev LockedVerdict : D → Strategy C D A S → Strategy C D A S × Option D → Type 0
  LockedVerdict d s (s', digest) =
      (current_round s' ≡ current_round s) × ((d' : D) → digest ≡ some d' → d' ≡ d)

  judge-LockedVerdict :
      {E : Type 0} (env : Environment C E) (c : C) (lock : Option (Locked D S)) (l : Locked D S)
      (s : Strategy C D A S)
      → lock ≡ some l
      → Ends (LockedVerdict (locked_digest l) s) (judge ctx env c lock s)
  unfolding judge
  judge-LockedVerdict env c none l s h = absurd (ground (arith, h))
  judge-LockedVerdict env c (some l') l s h =
      let same : l' ≡ l = ground (arith, h) in
      elim (Bool-cases (locked_digest l' == ctx.candidate_digest c)) [
        | inl e ↦ rw e (
          refl,
          λ d' q. ground (arith, q, e, same, ==_iff (locked_digest l') (ctx.candidate_digest c)),
        )
        | inr e ↦ rw e (refl, λ d' q. absurd (ground (arith, q)))
      ]

  judge_state-LockedVerdict :
      {E : Type 0} (env : Environment C E) (st : State C D S) (l : Locked D S)
      (s : Strategy C D A S)
      → s.locked ≡ some l
      → Ends (LockedVerdict (locked_digest l) s) (judge_state ctx env st s)
  unfolding judge_state
  judge_state-LockedVerdict env (proposed c) l s h = judge-LockedVerdict env c s.locked l s h
  judge_state-LockedVerdict env begin l s h = (refl, λ d' q. absurd (ground (arith, q)))
  judge_state-LockedVerdict env (prepared _) l s h = (refl, λ d' q. absurd (ground (arith, q)))
  judge_state-LockedVerdict env (committed _) l s h = (refl, λ d' q. absurd (ground (arith, q)))
  judge_state-LockedVerdict env (advanced _) l s h = (refl, λ d' q. absurd (ground (arith, q)))

  send_prepare-PreparesOnly :
      (d : D) (s : Strategy C D A S) (sending : Sending (Communication C D A S))
      (v : Strategy C D A S × Option D)
      → LockedVerdict d s v
      → PreparesOnly d (s, sending) (send_prepare ctx v.1 (v.0, sending))
  unfolding send_prepare import_and_send_message push
  send_prepare-PreparesOnly d s sending (s', none) (round, only) = inl refl
  send_prepare-PreparesOnly d s sending (s', some d') (round, only) =
      inr (rw (round, only d' refl) refl)

  -- A node that is locked sends no prepare vote but for the digest of its lock, whatever the
  -- futures answer.
  pub prepare-PreparesOnly :
      {E : Type 0} (env : Environment C E) (l : Locked D S) (s : Strategy C D A S)
      (sending : Sending (Communication C D A S))
      → s.locked ≡ some l
      → Ends (PreparesOnly (locked_digest l) (s, sending)) (prepare ctx env (s, sending))
  unfolding prepare
  prepare-PreparesOnly env l s sending h = elim (Bool-cases (may_prepare s.local_state)) [
    | inr done_so ↦ rw done_so (inl refl)
    | inl may ↦ rw may (
        Ends->>= (LockedVerdict (locked_digest l) s) (PreparesOnly (locked_digest l) (s, sending))
          (judge_state ctx env s.current_accumulator.state s) _
          (judge_state-LockedVerdict env s.current_accumulator.state l s h)
          (λ v verdict. send_prepare-PreparesOnly (locked_digest l) s sending v verdict))
  ]
