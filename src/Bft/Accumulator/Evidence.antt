-- ===== src/Bft/Accumulator/Evidence.antt =====
-- substrate/bft/src/generic/accumulator.rs: the misbehavior reports of `import_message`.
use polkadot.Prelude.{
  ℕ, ◌≡◌, ◌≢◌, some, arith, ok, err, Eq, nat_eq, ◌==◌, ==_iff, Bool-cases, inl, inr, Option-cases,
}
use polkadot.Prelude.Map
use polkadot.Prelude.Map.{Map}
use polkadot.Bft.Messages.{
  Vote, prepare, commit, advance_round, LocalizedProposal, LocalizedMessage, propose, vote,
  message_round, vote_round,
}
use polkadot.Bft.Accumulator.{
  Accumulator, accept_proposal, import_proposal, import_prepare, import_commit,
  import_advance_round, import_vote, import_same_round, import_message, Misbehavior,
  propose_out_of_turn, double_propose, double_prepare, double_commit, Proposal,
}

module _ {C D A S : Type 0} ⦃eD : Eq D⦄ ⦃eA : Eq A⦄ where
  -- What a report says of the accumulator and of the message that was refused.
  abbrev pub Proves : Accumulator C D A S → LocalizedMessage C D A S → Misbehavior D S → Type 0
  Proves acc (propose p) (propose_out_of_turn r d s) =
      (r ≡ acc.round_number)
      × (p.sender ≢ acc.round_proposer)
      × (d ≡ p.digest)
      × (s ≡ p.digest_signature)
  Proves acc (propose p) (double_propose r (d₁, s₁) (d₂, s₂)) =
      (r ≡ acc.round_number)
      × (p.sender ≡ acc.round_proposer)
      × (d₁ ≢ d₂)
      × (d₂ ≡ p.digest)
      × (s₂ ≡ p.digest_signature)
      × ((old : Proposal C D S) × (acc.proposal ≡ some old)
          × (old.digest ≡ d₁)
          × (old.digest_signature ≡ s₁))
  Proves acc (vote v) (double_prepare r (d₁, s₁) (d₂, s₂)) =
      (r ≡ acc.round_number)
      × (d₁ ≢ d₂)
      × (Map.get acc.prepares v.sender ≡ some (d₁, s₁))
      × (v.vote ≡ prepare r d₂)
      × (v.signature ≡ s₂)
  Proves acc (vote v) (double_commit r (d₁, s₁) (d₂, s₂)) =
      (r ≡ acc.round_number)
      × (d₁ ≢ d₂)
      × (Map.get acc.commits v.sender ≡ some (d₁, s₁))
      × (v.vote ≡ commit r d₂)
      × (v.signature ≡ s₂)
  Proves acc _ _ = ⊥

  import_prepare_error :
      (acc : Accumulator C D A S) (r : ℕ) (d : D) (a : A) (s : S) (e : Misbehavior D S)
      → r ≡ acc.round_number
      → (import_prepare d a s acc).1 ≡ err e
      → ((import_prepare d a s acc).0 ≡ acc)
        × Proves acc (vote (record { vote = prepare r d; sender = a; signature = s })) e
  unfolding import_prepare
  import_prepare_error acc r d a s (double_prepare r' (d₁, s₁) (d₂, s₂)) q h =
      ground (arith, ==_iff d₁ d)
  import_prepare_error acc r d a s (double_commit r' (d₁, s₁) (d₂, s₂)) q h = absurd (ground arith)
  import_prepare_error acc r d a s (double_propose r' (d₁, s₁) (d₂, s₂)) q h = absurd (ground arith)
  import_prepare_error acc r d a s (propose_out_of_turn r' d₁ s₁) q h = absurd (ground arith)

  import_commit_error :
      (acc : Accumulator C D A S) (r : ℕ) (d : D) (a : A) (s : S) (e : Misbehavior D S)
      → r ≡ acc.round_number
      → (import_commit d a s acc).1 ≡ err e
      → ((import_commit d a s acc).0 ≡ acc)
        × Proves acc (vote (record { vote = commit r d; sender = a; signature = s })) e
  unfolding import_commit
  import_commit_error acc r d a s (double_commit r' (d₁, s₁) (d₂, s₂)) q h =
      ground (arith, ==_iff d₁ d)
  import_commit_error acc r d a s (double_prepare r' (d₁, s₁) (d₂, s₂)) q h = absurd (ground arith)
  import_commit_error acc r d a s (double_propose r' (d₁, s₁) (d₂, s₂)) q h = absurd (ground arith)
  import_commit_error acc r d a s (propose_out_of_turn r' d₁ s₁) q h = absurd (ground arith)

  import_advance_round_ok :
      (acc : Accumulator C D A S) (a : A) → (import_advance_round a acc).1 ≡ ok tt
  unfolding import_advance_round
  import_advance_round_ok acc a = ground arith

  import_vote_error :
      (acc : Accumulator C D A S) (v : Vote D) (a : A) (s : S) (e : Misbehavior D S)
      → vote_round v ≡ acc.round_number
      → (import_vote v a s acc).1 ≡ err e
      → ((import_vote v a s acc).0 ≡ acc)
        × Proves acc (vote (record { vote = v; sender = a; signature = s })) e
  unfolding import_vote vote_round
  import_vote_error acc (prepare r d) a s e q h = import_prepare_error acc r d a s e q h
  import_vote_error acc (commit r d) a s e q h = import_commit_error acc r d a s e q h
  import_vote_error acc (advance_round r) a s e q h = absurd (cc (h, import_advance_round_ok acc a))

  import_proposal_error :
      (acc : Accumulator C D A S) (p : LocalizedProposal C D A S) (e : Misbehavior D S)
      → (import_proposal p acc).1 ≡ err e
      → ((import_proposal p acc).0 ≡ acc) × Proves acc (propose p) e
  unfolding import_proposal accept_proposal
  import_proposal_error acc p (propose_out_of_turn r d s) h =
      ground (arith, ==_iff p.sender acc.round_proposer)
  import_proposal_error acc p (double_propose r (d₁, s₁) (d₂, s₂)) h =
      elim (Option-cases acc.proposal) [
        | inl q ↦ absurd (ground arith)
        | inr (old, q) ↦
            let facts : ((import_proposal p acc).0 ≡ acc)
                × (r ≡ acc.round_number)
                × (p.sender ≡ acc.round_proposer)
                × (d₁ ≢ d₂)
                × (d₂ ≡ p.digest)
                × (s₂ ≡ p.digest_signature)
                × (old.digest ≡ d₁)
                × (old.digest_signature ≡ s₁) =
              ground (arith, ==_iff p.sender acc.round_proposer, ==_iff old.digest p.digest) in
            (facts.0, (facts.1, facts.2, facts.3, facts.4, facts.5, (old, q, facts.6, facts.7)))
      ]
  import_proposal_error acc p (double_prepare r (d₁, s₁) (d₂, s₂)) h = absurd (ground arith)
  import_proposal_error acc p (double_commit r (d₁, s₁) (d₂, s₂)) h = absurd (ground arith)

  import_same_round_error :
      (acc : Accumulator C D A S) (m : LocalizedMessage C D A S) (e : Misbehavior D S)
      → message_round m ≡ acc.round_number
      → (import_same_round m acc).1 ≡ err e
      → ((import_same_round m acc).0 ≡ acc) × Proves acc m e
  unfolding import_same_round message_round
  import_same_round_error acc (propose p) e q h = import_proposal_error acc p e h
  import_same_round_error acc (vote v) e q h =
      import_vote_error acc v.vote v.sender v.signature e q h

  -- A reported misbehavior leaves the accumulator as it was, and holds a proof: a proposal of
  -- another authority than the proposer of the round, or two different digests, the one recorded
  -- before and that of the message, that the sender signed in this round.
  pub import_message_error :
      (acc : Accumulator C D A S) (m : LocalizedMessage C D A S) (e : Misbehavior D S)
      → (import_message m acc).1 ≡ err e
      → ((import_message m acc).0 ≡ acc) × Proves acc m e
  unfolding import_message
  import_message_error acc m e h = elim (Bool-cases (message_round m == acc.round_number)) [
    | inl q ↦
        rw (q, import_message)
          (import_same_round_error acc m e ((==_iff _ _).0 q) (rw (q, import_message) at h))
    | inr q ↦ absurd (ground arith)
  ]
