-- ===== src/Bft/Messages.antt =====
-- substrate/bft/src/generic/mod.rs: votes and localized messages.
use polkadot.Prelude.{ℕ}

pub data Vote (D : Type 0) : Type 0 where
  prepare : ℕ → D → Vote D
  commit : ℕ → D → Vote D
  advance_round : ℕ → Vote D

pub data Message (C D : Type 0) : Type 0 where
  propose : ℕ → C → Message C D
  vote : Vote D → Message C D

pub record LocalizedProposal (C D V S : Type 0) : Type 0 where
  pub round_number : ℕ
  pub proposal : C
  pub digest : D
  pub sender : V
  pub digest_signature : S
  pub full_signature : S

pub record LocalizedVote (D V S : Type 0) : Type 0 where
  pub vote : Vote D
  pub sender : V
  pub signature : S

pub data LocalizedMessage (C D V S : Type 0) : Type 0 where
  propose : LocalizedProposal C D V S → LocalizedMessage C D V S
  vote : LocalizedVote D V S → LocalizedMessage C D V S

unfoldable pub vote_round : {D : Type 0} → Vote D → ℕ
vote_round (prepare round _) = round
vote_round (commit round _) = round
vote_round (advance_round round) = round

module _ {C D V S : Type 0} where
  unfoldable pub message_sender : LocalizedMessage C D V S → V
  message_sender (propose proposal) = proposal.sender
  message_sender (vote v) = v.sender

  unfoldable pub message_round : LocalizedMessage C D V S → ℕ
  unfolding vote_round
  message_round (propose proposal) = proposal.round_number
  message_round (vote v) = vote_round v.vote
