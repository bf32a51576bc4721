-- ===== src/Bft/Accumulator/Runs.antt =====
-- Runs of an accumulator: any messages, in the order of their arrival.
use polkadot.Prelude.{◌≡◌, refl, ◌∙◌, List, [], ◌∷◌, arith, Eq, nat_eq}
use polkadot.Bft.Messages.{LocalizedMessage, propose, vote}
use polkadot.Bft.Accumulator.{
  Accumulator, record_prepare, record_commit, accept_proposal, import_proposal, import_prepare,
  import_commit, import_advance_round, import_vote, import_same_round, import_message,
}
use polkadot.Bft.Accumulator.Invariant.{IsConsistent}
use polkadot.Bft.Accumulator.Imports.{import_message-IsConsistent}

module _ {C D A S : Type 0} ⦃eD : Eq D⦄ ⦃eA : Eq A⦄ where
  -- Imports the messages in turn, whatever the results.
  unfoldable pub import_all :
      List (LocalizedMessage C D A S) → Accumulator C D A S → Accumulator C D A S
  import_all [] acc = acc
  import_all (m ∷ ms) acc = import_all ms (import_message m acc).0

  -- Any run keeps the invariant.
  pub import_all-IsConsistent :
      (ms : List (LocalizedMessage C D A S)) (acc : Accumulator C D A S)
      → IsConsistent acc
      → IsConsistent (import_all ms acc)
  unfolding import_all
  import_all-IsConsistent [] acc inv = inv
  import_all-IsConsistent (m ∷ ms) acc inv =
      import_all-IsConsistent ms (import_message m acc).0 (import_message-IsConsistent acc m inv)

  -- No import changes the round or the threshold.
  abbrev pub SameRound : Accumulator C D A S → Accumulator C D A S → Type 0
  SameRound a b = (a.round_number ≡ b.round_number) × (a.threshold ≡ b.threshold)

  pub import_message-SameRound :
      (acc : Accumulator C D A S) (m : LocalizedMessage C D A S)
      → SameRound (import_message m acc).0 acc
  unfolding import_message import_same_round import_vote import_prepare import_commit
      import_proposal import_advance_round accept_proposal record_prepare record_commit
  import_message-SameRound acc (propose p) = ground arith
  import_message-SameRound acc (vote v) = ground arith

  pub import_all-SameRound :
      (ms : List (LocalizedMessage C D A S)) (acc : Accumulator C D A S)
      → SameRound (import_all ms acc) acc
  unfolding import_all
  import_all-SameRound [] acc = (refl, refl)
  import_all-SameRound (m ∷ ms) acc =
      let (r, t) = import_all-SameRound ms (import_message m acc).0 in
      let (r', t') = import_message-SameRound acc m in (r ∙ r', t ∙ t')
