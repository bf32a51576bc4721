-- ===== src/Bft/Strategy/Turns/Runs.antt =====
-- substrate/bft/src/generic/mod.rs: `Strategy::poll` and the inputs and turns of a node.
use polkadot.Prelude.{
  ◌⊎◌, length, ℕ, ◌+◌, ◌≤◌, ◌<◌, ◌≡◌, refl, inl, inr, List, [], ◌∷◌, arith, Eq, nat_eq, ltb,
  Bool-cases,
}
use polkadot.Bft.Messages.{Message}
use polkadot.Bft.Justification.{Justification}
use polkadot.Bft.Accumulator
use polkadot.Bft.Accumulator.{State, begin, proposed, prepared, committed, advanced}
use polkadot.Bft.Strategy.{
  no_messages, create, Context, Environment, Communication, Sending, Strategy, Outcome, done,
  failed, panicked, Node, current_round,
}
use polkadot.Bft.Strategy.Sound.{new-IsRound, import_message-IsSound, IsSound}
use polkadot.Bft.Strategy.Rounds.{Ends_map, import_lock_proof-LocksTo, LocksTo, Ends, Ends->>=}
use polkadot.Bft.Strategy.Turns.Drive.{import_input, run}
use polkadot.Bft.Strategy.Turns.Sent.{
  Ascending-weaken, message_stamp, Ascending, sent_at, length-sent_at, Signs, place,
}
use polkadot.Bft.Strategy.Turns.Steps.{import_message-Stands, Turned, quiet, quiet_Stands}
use polkadot.Bft.Strategy.Turns.Ranks.{rank_le}
use polkadot.Bft.Strategy.Turns.{poll_once}
use polkadot.Bft.Accumulator.{current_proposal}
use polkadot.Bft.Threshold.{bft_threshold}
use polkadot.Prelude.Map
use polkadot.Bft.Strategy.Turns.Polls.{after_turn}
use polkadot.Bft.Strategy.Turns.Conclude.{Concluded, poll_once-Concluded}

module _ {C D A S : Type 0} ⦃eD : Eq D⦄ ⦃eA : Eq A⦄ (ctx : Context C D A S) where
  pub create-IsSound :
      (nodes max_faulty : ℕ) → max_faulty < nodes → IsSound ctx (create ctx nodes max_faulty)
  unfolding create bft_threshold Map.get Accumulator.new
  create-IsSound nodes max_faulty h = record {
    positive = omega (arith, h);
    present = new-IsRound _ 0 _ (omega (arith, h));
    keyed = λ r acc q. absurd (ground (arith, q));
    ahead = λ r acc q. absurd (ground (arith, q));
    lock_round = λ l q. absurd (ground (arith, q));
    candidates = λ d c q. absurd (ground (arith, q));
  }

  proof-Turned :
      (E : Type 0) (j : Justification D S) (s : Strategy C D A S)
      (sending : Sending (Communication C D A S)) (o : Outcome (Strategy C D A S) E)
      → Ends (LocksTo ctx j s) o
      → Ends (λ s'. Turned ctx (s, sending) (s', sending)) o
  proof-Turned E j s sending (failed e) h = tt
  proof-Turned E j s sending panicked h = h
  proof-Turned E j s sending (done s') (sound, round, state, _, lock) =
      let last = rank_le s.local_state in
      elim (Bool-cases (ltb (current_round s) j.unchecked.round_number)) [
        | inl e ↦
            let up : current_round s + 1 ≤ current_round s' = ground (arith, round, e) in
            quiet ctx s s' sending sound (omega (arith, up)) lock (omega (arith, up, last))
        | inr e ↦
            let same : current_round s' ≡ current_round s = ground (arith, round, e) in
            let same_state : s'.local_state ≡ s.local_state = ground (arith, state, e) in
            quiet ctx s s' sending sound (omega (arith, same)) lock
              (rw (same, same_state) (omega arith))
      ]

  import_input-Turned :
      (E : Type 0) (input : Communication C D A S) (s : Strategy C D A S)
      (sending : Sending (Communication C D A S))
      → IsSound ctx s
      → Ends {E = E} (λ s'. Turned ctx (s, sending) (s', sending)) (import_input ctx input s)
  unfolding import_input
  import_input-Turned E (Communication.consensus msg) s sending k =
      quiet_Stands ctx s _ sending (import_message-IsSound ctx msg s k)
        (import_message-Stands ctx msg s)
  import_input-Turned E (Communication.auxiliary j) s sending k =
      proof-Turned E j s sending _ (import_lock_proof-LocksTo E ctx j s k)

  run-Turned :
      {E : Type 0} (events : List (Communication C D A S ⊎ Environment C E)) (n : Node C D A S)
      → Signs ctx
      → IsSound ctx n.0
      → Ends (Turned ctx n) (run ctx events n)
  unfolding run
  run-Turned [] n signs k = quiet_Stands ctx n.0 n.0 n.1 k (refl, refl, refl)
  run-Turned {E} (inl input ∷ events) n signs k =
      Ends->>= (λ s. Turned ctx n (s, n.1)) (Turned ctx n) (import_input ctx input n.0) _
        (import_input-Turned E input n.0 n.1 k)
        (λ s h. after_turn ctx n (s, n.1) _ h (run-Turned events (s, n.1) signs h.sound))
  run-Turned (inr env ∷ events) n signs k =
      Ends->>= (Concluded ctx n) (Turned ctx n) (poll_once ctx env n) _
        (poll_once-Concluded ctx env n signs k)
        (λ (n', _) (h, _). after_turn ctx n n' _ h (run-Turned events n' signs h.sound))

  -- From `create`, with fewer faulty nodes than nodes and for a signer that returns what it
  -- signs, no sequence of inputs and turns of the futures makes the node panic. Unless a future
  -- fails, the invariant of the node holds afterwards, and its messages have come in the order
  -- proposal, prepare, commit, advance of each round, round by round.
  pub create-run :
      {E : Type 0} (nodes max_faulty : ℕ) (events : List (Communication C D A S ⊎ Environment C E))
      → Signs ctx
      → max_faulty < nodes
      → Ends
          (λ n. IsSound ctx n.0 × Ascending 0 (place n.0) n.1.items)
          (run ctx events (create ctx nodes max_faulty, no_messages))
  create-run nodes max_faulty events signs h =
      Ends_map (Turned ctx (create ctx nodes max_faulty, no_messages)) _
        (run ctx events (create ctx nodes max_faulty, no_messages))
        (run-Turned events _ signs (create-IsSound nodes max_faulty h))
        (λ n t. (t.sound, rw t.queued (Ascending-weaken 0 _ _ t.sent (omega arith) t.ascending)))

  -- Under the same conditions, a node sends at most one message of each kind in a round: it
  -- never proposes, prepares or commits twice.
  pub create-run-once :
      {E : Type 0} (nodes max_faulty : ℕ) (events : List (Communication C D A S ⊎ Environment C E))
      (m : Message C D)
      → Signs ctx
      → max_faulty < nodes
      → Ends
          (λ n. length (sent_at (message_stamp m) n.1.items) ≤ 1)
          (run ctx events (create ctx nodes max_faulty, no_messages))
  create-run-once nodes max_faulty events m signs h =
      Ends_map _ _ (run ctx events (create ctx nodes max_faulty, no_messages))
        (create-run nodes max_faulty events signs h)
        (λ n (_, ordered). length-sent_at (message_stamp m) 0 (place n.0) n.1.items ordered)
