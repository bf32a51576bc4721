-- ===== src/Bft/Strategy.antt =====
-- substrate/bft/src/generic/mod.rs: `Strategy`, the view of one node over the rounds. The futures of
-- the context are polled at most once in a turn: an `Environment` holds their answers.
pub mod Sound
pub mod Rounds
pub mod Turns
use polkadot.Prelude.{
  ℕ, zero, suc, ◌+◌, ◌-◌, Bool, true, false, not, ◌&&◌, ◌||◌, Option, none, some, List, [], ◌∷◌,
  ◌++◌, ltb, Result, ok, err, if◌then◌else◌, Eq, ◌==◌, nat_eq,
}
use polkadot.Prelude.Map
use polkadot.Prelude.Map.{Map}
use polkadot.Bft.Messages.{Vote, Message, LocalizedMessage, message_sender, message_round}
use polkadot.Bft.Threshold.{bft_threshold}
use polkadot.Bft.Justification.{Justification}
use polkadot.Bft.Accumulator
use polkadot.Bft.Accumulator.{Misbehavior, Accumulator, current_proposal}

-- The part of the trait `Context` that makes no future.
pub record Context (C D A S : Type 0) : Type 0 where
  pub local_id : A
  pub candidate_digest : C → D
  pub sign_local : Message C D → LocalizedMessage C D A S
  pub round_proposer : ℕ → A

pub data Poll (T E : Type 0) : Type 0 where
  ready : T → Poll T E
  not_ready : Poll T E
  failed : E → Poll T E

-- What the futures `proposal`, `proposal_valid` and `begin_round_timeout` answer in one turn.
pub record Environment (C E : Type 0) : Type 0 where
  pub proposal : Poll C E
  pub proposal_valid : Poll Bool E
  pub round_timeout : Poll (Unit {0}) E

pub data Communication (C D A S : Type 0) : Type 0 where
  consensus : LocalizedMessage C D A S → Communication C D A S
  auxiliary : Justification D S → Communication C D A S

pub record Sending (T : Type 0) : Type 0 where
  pub items : List T
  pub flushing : Bool

pub record Committed (C D S : Type 0) : Type 0 where
  pub candidate : Option C
  pub justification : Justification D S

pub record Locked (D S : Type 0) : Type 0 where
  pub justification : Justification D S

abbrev pub locked_digest : {D S : Type 0} → Locked D S → D
locked_digest l = l.justification.unchecked.digest

pub data LocalState : Type 0 where
  start proposed : LocalState
  prepared : Bool → LocalState
  committed vote_advance : LocalState

pub record Strategy (C D A S : Type 0) : Type 0 where
  pub nodes : ℕ
  pub max_faulty : ℕ
  pub fetching_proposal : Bool
  pub evaluating_proposal : Bool
  -- the round of the timeout that runs
  pub round_timeout : ℕ
  pub local_state : LocalState
  pub locked : Option (Locked D S)
  pub notable_candidates : Map D C
  pub current_accumulator : Accumulator C D A S
  pub future_accumulators : Map ℕ (Accumulator C D A S)
  pub local_id : A
  pub misbehavior : Map A (Misbehavior D S)

-- the end of a call: its result, an error of a future, or a panic
pub data Outcome (T E : Type 0) : Type 0 where
  done : T → Outcome T E
  failed : E → Outcome T E
  panicked : Outcome T E

infixl 5 ◌>>=◌
abbrev pub ◌>>=◌ : {T U E : Type 0} → Outcome T E → (T → Outcome U E) → Outcome U E
done t >>= f = f t
failed e >>= f = failed e
panicked >>= f = panicked

-- the queue of a new `Agreement`
abbrev pub no_messages : {T : Type 0} → Sending T
no_messages = record { items = []; flushing = false }

pub push : {T : Type 0} → T → Sending T → Sending T
push item sending = record { items = sending.items ++ item ∷ []; flushing = false }

-- the strategy and the queue of its messages
abbrev pub Node : Type 0 → Type 0 → Type 0 → Type 0 → Type 0
Node C D A S = Strategy C D A S × Sending (Communication C D A S)

abbrev pub current_round : {C D A S : Type 0} → Strategy C D A S → ℕ
current_round s = s.current_accumulator.round_number

-- `for irrelevant in from..from + count`
pub remove_range : {T : Type 0} → ℕ → ℕ → Map ℕ T → Map ℕ T
remove_range zero from m = m
remove_range (suc count) from m = remove_range count (from + 1) (Map.remove m from)

-- `map_or(true, |l| l.justification.round_number < justification.round_number)`
pub lock_to_new : {D S : Type 0} → Justification D S → Option (Locked D S) → Bool
lock_to_new j none = true
lock_to_new j (some l) = ltb l.justification.unchecked.round_number j.unchecked.round_number

module _ {C D A S : Type 0} ⦃eD : Eq D⦄ ⦃eA : Eq A⦄ where
  pub new_accumulator : Context C D A S → Strategy C D A S → ℕ → Accumulator C D A S
  new_accumulator ctx s round =
      Accumulator.new round (bft_threshold s.nodes s.max_faulty) (ctx.round_proposer round)

  pub create : Context C D A S → ℕ → ℕ → Strategy C D A S
  create ctx nodes max_faulty = record {
    nodes = nodes;
    max_faulty = max_faulty;
    fetching_proposal = false;
    evaluating_proposal = false;
    round_timeout = 0;
    local_state = LocalState.start;
    locked = none;
    notable_candidates = [];
    current_accumulator = Accumulator.new 0 (bft_threshold nodes max_faulty) (ctx.round_proposer 0);
    future_accumulators = [];
    local_id = ctx.local_id;
    misbehavior = [];
  }

  pub note_misbehavior :
      A → Result (Unit {0}) (Misbehavior D S) → Strategy C D A S → Strategy C D A S
  note_misbehavior sender (ok _) s = s
  note_misbehavior sender (err m) s = record s { misbehavior = Map.insert s.misbehavior sender m }

  pub import_current : LocalizedMessage C D A S → Strategy C D A S → Strategy C D A S
  import_current msg s =
      let (acc, result) = Accumulator.import_message msg s.current_accumulator in
      note_misbehavior (message_sender msg) result (record s { current_accumulator = acc })

  pub import_future :
      Context C D A S → LocalizedMessage C D A S → Strategy C D A S → Strategy C D A S
  import_future ctx msg s =
      let round = message_round msg in
      let future : Accumulator C D A S = elim (Map.get s.future_accumulators round) [
        | none ↦ new_accumulator ctx s round
        | some acc ↦ acc
      ] in
      let (acc, result) = Accumulator.import_message msg future in
      note_misbehavior (message_sender msg) result
        (record s { future_accumulators = Map.insert s.future_accumulators round acc })

  pub import_message :
      Context C D A S → LocalizedMessage C D A S → Strategy C D A S → Strategy C D A S
  import_message ctx msg s =
      let round = message_round msg in
      if round == current_round s
      then import_current msg s
      else if ltb (current_round s) round
      then import_future ctx msg s
      else s

  -- the witnessed proposal is stored away under its digest, unless one is there
  pub note_candidate : Context C D A S → Option C → Map D C → Map D C
  note_candidate ctx none m = m
  note_candidate ctx (some c) m =
      if Map.contains_key m (ctx.candidate_digest c)
      then m
      else Map.insert m (ctx.candidate_digest c) c

  pub begin_round : Context C D A S → ℕ → Strategy C D A S → Strategy C D A S
  begin_round ctx round s =
      let next = current_round s + 1 in
      let between = remove_range (round - next) next s.future_accumulators in
      record s {
        fetching_proposal = false;
        evaluating_proposal = false;
        round_timeout = round;
        local_state = LocalState.start;
        notable_candidates =
            note_candidate ctx (current_proposal s.current_accumulator) s.notable_candidates;
        future_accumulators = Map.remove between round;
        current_accumulator = elim (Map.get between round) [
          | some acc ↦ acc
          | none ↦ new_accumulator ctx s round
        ];
      }

  -- the source asserts that the round is higher
  pub advance_to_round :
      {E : Type 0} → Context C D A S → ℕ → Strategy C D A S → Outcome (Strategy C D A S) E
  advance_to_round ctx round s =
      if ltb (current_round s) round then done (begin_round ctx round s) else panicked

  pub take_lock : Justification D S → Strategy C D A S → Strategy C D A S
  take_lock j s =
      if lock_to_new j s.locked
      then record s { locked = some (record { justification = j }) }
      else s

  pub import_lock_proof :
      {E : Type 0}
      → Context C D A S
      → Justification D S
      → Strategy C D A S
      → Outcome (Strategy C D A S) E
  import_lock_proof ctx j s =
      if ltb (current_round s) j.unchecked.round_number
      then advance_to_round ctx j.unchecked.round_number s >>= (λ s'. done (take_lock j s'))
      else done (take_lock j s)

  pub import_and_send_message : Context C D A S → Message C D → Node C D A S → Node C D A S
  import_and_send_message ctx message (s, sending) =
      let signed = ctx.sign_local message in
      (import_message ctx signed s, push (Communication.consensus signed) sending)
