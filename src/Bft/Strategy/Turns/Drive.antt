-- ===== src/Bft/Strategy/Turns/Drive.antt =====
-- substrate/bft/src/generic/mod.rs: the loop of `Strategy::poll`, and the inputs of `Agreement::poll`.
use polkadot.Prelude.{
  inl, inr, ◌⊎◌, Bool, true, false, not, ◌&&◌, Option, none, some, List, [], ◌∷◌, if◌then◌else◌, Eq,
  ◌==◌, nat_eq,
}
use polkadot.Bft.Strategy.{
  Context, Environment, Communication, Committed, LocalState, Strategy, Outcome, done, ◌>>=◌, Node,
  current_round, import_message, import_lock_proof,
}
use polkadot.Bft.Strategy.Turns.{poll_once}

unfoldable pub local_state_eq : LocalState → LocalState → Bool
local_state_eq LocalState.start LocalState.start = true
local_state_eq LocalState.proposed LocalState.proposed = true
local_state_eq (LocalState.prepared true) (LocalState.prepared v) = v
local_state_eq (LocalState.prepared false) (LocalState.prepared v) = not v
local_state_eq LocalState.committed LocalState.committed = true
local_state_eq LocalState.vote_advance LocalState.vote_advance = true
local_state_eq _ _ = false

unfoldable pub same_watermark : {C D A S : Type 0} → Strategy C D A S → Strategy C D A S → Bool
same_watermark s s' =
    current_round s == current_round s' && local_state_eq s.local_state s'.local_state

-- The loop of `poll` as far as the answers of the futures go: it waits for them, it has concluded,
-- or it runs on.
pub data Polled (C D A S : Type 0) : Type 0 where
  waiting running : Node C D A S → Polled C D A S
  concluded : Node C D A S → Committed C D S → Polled C D A S

module _ {C D A S : Type 0} ⦃eD : Eq D⦄ ⦃eA : Eq A⦄ (ctx : Context C D A S) where
  -- the loop stops with a commit, or when the watermark is as before
  unfoldable pub settle :
      {E : Type 0}
      → Strategy C D A S
      → Node C D A S
      → Option (Committed C D S)
      → Outcome (Polled C D A S) E
      → Outcome (Polled C D A S) E
  settle last n (some c) rest = done (concluded n c)
  settle last n none rest = if same_watermark last n.0 then done (waiting n) else rest

  unfoldable pub poll :
      {E : Type 0} → List (Environment C E) → Node C D A S → Outcome (Polled C D A S) E
  poll [] n = done (running n)
  poll (env ∷ envs) n =
      poll_once ctx env n >>= (λ (n', result). settle n.0 n' result (poll envs n'))

  -- the input of `Agreement::poll`
  unfoldable pub import_input :
      {E : Type 0} → Communication C D A S → Strategy C D A S → Outcome (Strategy C D A S) E
  import_input (Communication.consensus msg) s = done (import_message ctx msg s)
  import_input (Communication.auxiliary j) s = import_lock_proof ctx j s

  -- what happens to a node, in order: an input, or a turn of its futures
  unfoldable pub run :
      {E : Type 0}
      → List (Communication C D A S ⊎ Environment C E)
      → Node C D A S
      → Outcome (Node C D A S) E
  run [] n = done n
  run (inl input ∷ events) n = import_input input n.0 >>= (λ s. run events (s, n.1))
  run (inr env ∷ events) n = poll_once ctx env n >>= (λ (n', _). run events n')
