-- ===== src/Bft/Accumulator/Signers.antt =====
-- substrate/bft/src/generic/accumulator.rs: the signatures of the recorded votes. The functions
-- that recover the signer of a signature are parameters.
use polkadot.Prelude.{
  ℕ, ◌≡◌, Option, some, List, [], ◌∷◌, arith, Eq, nat_eq, ◌==◌, ==_iff, Bool-cases, inl, inr,
  Option-cases,
}
use polkadot.Prelude.Map
use polkadot.Prelude.Map.{Map}
use polkadot.Bft.Messages.{
  Vote, prepare, commit, advance_round, LocalizedProposal, LocalizedMessage, propose, vote,
  message_round, vote_round,
}
use polkadot.Bft.Justification.{Signed}
use polkadot.Bft.Accumulator.{
  Accumulator, record_prepare, record_commit, accept_proposal, import_proposal, import_prepare,
  import_commit, import_advance_round, import_vote, import_same_round, import_message,
}
use polkadot.Bft.Accumulator.Votes.{Recorded}

module _ {D A S : Type 0} where
  abbrev pub VoteIsSigned :
      (ℕ → D → S → Option A) → (ℕ → D → S → Option A) → Vote D → A → S → Type 0
  VoteIsSigned prepare_signer commit_signer (prepare r d) a s = prepare_signer r d s ≡ some a
  VoteIsSigned prepare_signer commit_signer (commit r d) a s = commit_signer r d s ≡ some a
  VoteIsSigned prepare_signer commit_signer (advance_round r) a s = Unit

module _ {D A S : Type 0} ⦃eA : Eq A⦄ where
  abbrev pub MapSigned : (D → S → Option A) → Map A (D × S) → Type 0
  MapSigned signer m = (a : A) (d : D) (s : S) → Map.get m a ≡ some (d, s) → signer d s ≡ some a

  MapSigned-insert :
      (signer : D → S → Option A) (m : Map A (D × S)) (a : A) (d : D) (s : S)
      → signer d s ≡ some a
      → MapSigned signer m
      → MapSigned signer (Map.insert m a (d, s))
  MapSigned-insert signer m a d s h inv a' d' s' g =
      ground (arith, Map.get-insert m a a' (d, s), ==_iff a a', inv a' d' s')

  pub Signed-of_Recorded :
      (signer : D → S → Option A) (m : Map A (D × S)) (d : D) (voters : List A) (ss : List S)
      → MapSigned signer m
      → Recorded m d voters ss
      → Signed (signer d) voters ss
  Signed-of_Recorded signer m d [] [] inv r = tt
  Signed-of_Recorded signer m d [] (s ∷ ss) inv r = r
  Signed-of_Recorded signer m d (a ∷ voters) [] inv r = r
  Signed-of_Recorded signer m d (a ∷ voters) (s ∷ ss) inv r =
      (inv a d s r.0, Signed-of_Recorded signer m d voters ss inv r.1)

module _ {C D A S : Type 0} ⦃eD : Eq D⦄ ⦃eA : Eq A⦄ where
  abbrev SameVotes : Accumulator C D A S → Accumulator C D A S → Type 0
  SameVotes a b =
      (a.round_number ≡ b.round_number) × (a.prepares ≡ b.prepares) × (a.commits ≡ b.commits)

  import_advance_round-same :
      (acc : Accumulator C D A S) (a : A) → SameVotes (import_advance_round a acc).0 acc
  unfolding import_advance_round
  import_advance_round-same acc a = ground arith

  import_proposal-same :
      (acc : Accumulator C D A S) (p : LocalizedProposal C D A S)
      → SameVotes (import_proposal p acc).0 acc
  unfolding import_proposal accept_proposal
  import_proposal-same acc p = ground arith

  module _ (prepare_signer commit_signer : ℕ → D → S → Option A) where
    -- The signature of a prepare or a commit vote is its sender's.
    abbrev pub IsSigned : LocalizedMessage C D A S → Type 0
    IsSigned (propose p) = Unit
    IsSigned (vote v) = VoteIsSigned prepare_signer commit_signer v.vote v.sender v.signature

    pub record VotesSigned (acc : Accumulator C D A S) : Type 0 where
      pub prepares_signed : MapSigned (prepare_signer acc.round_number) acc.prepares
      pub commits_signed : MapSigned (commit_signer acc.round_number) acc.commits

    SameVotes-VotesSigned :
        (acc acc' : Accumulator C D A S) → SameVotes acc' acc → VotesSigned acc → VotesSigned acc'
    SameVotes-VotesSigned acc acc' same inv = record {
      prepares_signed = rw (same.0, same.1) inv.prepares_signed;
      commits_signed = rw (same.0, same.2) inv.commits_signed;
    }

    import_prepare-VotesSigned :
        (acc : Accumulator C D A S) (d : D) (a : A) (s : S)
        → prepare_signer acc.round_number d s ≡ some a
        → VotesSigned acc
        → VotesSigned (import_prepare d a s acc).0
    unfolding import_prepare record_prepare
    import_prepare-VotesSigned acc d a s h inv = elim (Option-cases (Map.get acc.prepares a)) [
      | inl q ↦
          rw (q, import_prepare)
            (record {
              prepares_signed =
                  MapSigned-insert (prepare_signer acc.round_number) acc.prepares a d s h
                    inv.prepares_signed;
              commits_signed = inv.commits_signed;
            })
      | inr ((d', s'), q) ↦ elim (Bool-cases (d' == d)) [
        | inl e ↦ rw (q, import_prepare, e) inv
        | inr e ↦ rw (q, import_prepare, e) inv
      ]
    ]

    import_commit-VotesSigned :
        (acc : Accumulator C D A S) (d : D) (a : A) (s : S)
        → commit_signer acc.round_number d s ≡ some a
        → VotesSigned acc
        → VotesSigned (import_commit d a s acc).0
    unfolding import_commit record_commit
    import_commit-VotesSigned acc d a s h inv = elim (Option-cases (Map.get acc.commits a)) [
      | inl q ↦
          rw (q, import_commit)
            (record {
              prepares_signed = inv.prepares_signed;
              commits_signed =
                  MapSigned-insert (commit_signer acc.round_number) acc.commits a d s h
                    inv.commits_signed;
            })
      | inr ((d', s'), q) ↦ elim (Bool-cases (d' == d)) [
        | inl e ↦ rw (q, import_commit, e) inv
        | inr e ↦ rw (q, import_commit, e) inv
      ]
    ]

    import_vote-VotesSigned :
        (acc : Accumulator C D A S) (v : Vote D) (a : A) (s : S)
        → vote_round v ≡ acc.round_number
        → VoteIsSigned prepare_signer commit_signer v a s
        → VotesSigned acc
        → VotesSigned (import_vote v a s acc).0
    unfolding import_vote vote_round
    import_vote-VotesSigned acc (prepare r d) a s q h inv =
        import_prepare-VotesSigned acc d a s (rw (← q) h) inv
    import_vote-VotesSigned acc (commit r d) a s q h inv =
        import_commit-VotesSigned acc d a s (rw (← q) h) inv
    import_vote-VotesSigned acc (advance_round r) a s q h inv =
        SameVotes-VotesSigned acc _ (import_advance_round-same acc a) inv

    import_same_round-VotesSigned :
        (acc : Accumulator C D A S) (m : LocalizedMessage C D A S)
        → message_round m ≡ acc.round_number
        → IsSigned m
        → VotesSigned acc
        → VotesSigned (import_same_round m acc).0
    unfolding import_same_round message_round
    import_same_round-VotesSigned acc (propose p) q h inv =
        SameVotes-VotesSigned acc _ (import_proposal-same acc p) inv
    import_same_round-VotesSigned acc (vote v) q h inv =
        import_vote-VotesSigned acc v.vote v.sender v.signature q h inv

    pub import_message-VotesSigned :
        (acc : Accumulator C D A S) (m : LocalizedMessage C D A S)
        → IsSigned m
        → VotesSigned acc
        → VotesSigned (import_message m acc).0
    unfolding import_message
    import_message-VotesSigned acc m h inv =
        elim (Bool-cases (message_round m == acc.round_number)) [
          | inl q ↦
              rw (q, import_message) (import_same_round-VotesSigned acc m ((==_iff _ _).0 q) h inv)
          | inr q ↦ rw (q, import_message) inv
        ]
