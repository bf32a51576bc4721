-- ===== src/Bft/Accumulator/Senders.antt =====
-- substrate/bft/src/generic/accumulator.rs: the senders of the recorded votes.
use polkadot.Prelude.{◌≡◌, true, List, [], ◌∷◌, arith, All, Eq, nat_eq, ==_iff, contains, ap}
use polkadot.Prelude.Map
use polkadot.Bft.Messages.{
  Vote, prepare, commit, advance_round, LocalizedMessage, propose, vote, message_sender,
}
use polkadot.Bft.Accumulator.{
  Accumulator, record_prepare, record_commit, accept_proposal, import_proposal, import_prepare,
  import_commit, import_advance_round, import_vote, import_same_round, import_message,
}
use polkadot.Bft.Accumulator.Runs.{import_all}

module _ {C D A S : Type 0} ⦃eD : Eq D⦄ ⦃eA : Eq A⦄ (authorities : List A) where
  abbrev pub HasKnownVoters : Accumulator C D A S → Type 0
  HasKnownVoters acc =
      (a : A) → Map.contains_key acc.commits a ≡ true → contains authorities a ≡ true

  abbrev pub IsKnownSender : LocalizedMessage C D A S → Type 0
  IsKnownSender m = contains authorities (message_sender m) ≡ true

  import_vote-HasKnownVoters :
      (v : Vote D) (sender : A) (s : S) (acc : Accumulator C D A S)
      → contains authorities sender ≡ true
      → HasKnownVoters acc
      → HasKnownVoters (import_vote v sender s acc).0
  unfolding import_vote import_prepare import_commit import_advance_round record_prepare
      record_commit Map.contains_key
  import_vote-HasKnownVoters (prepare r d) sender s acc h k a = ground (arith, k a)
  import_vote-HasKnownVoters (commit r d) sender s acc h k a = ground (
    arith,
    k a,
    ==_iff sender a,
    ap (contains authorities),
    Map.get-insert acc.commits sender a (d, s),
  )
  import_vote-HasKnownVoters (advance_round r) sender s acc h k a = ground (arith, k a)

  import_message-HasKnownVoters :
      (m : LocalizedMessage C D A S) (acc : Accumulator C D A S)
      → IsKnownSender m
      → HasKnownVoters acc
      → HasKnownVoters (import_message m acc).0
  unfolding import_message import_same_round import_proposal accept_proposal message_sender
  import_message-HasKnownVoters (propose p) acc h k a = ground (arith, k a)
  import_message-HasKnownVoters (vote v) acc h k a =
      ground (arith, k a, import_vote-HasKnownVoters v.vote v.sender v.signature acc h k a)

  pub import_all-HasKnownVoters :
      (ms : List (LocalizedMessage C D A S)) (acc : Accumulator C D A S)
      → All IsKnownSender ms
      → HasKnownVoters acc
      → HasKnownVoters (import_all ms acc)
  unfolding import_all
  import_all-HasKnownVoters [] acc h k = k
  import_all-HasKnownVoters (m ∷ ms) acc h k =
      import_all-HasKnownVoters ms (import_message m acc).0 h.1
        (import_message-HasKnownVoters m acc h.0 k)
