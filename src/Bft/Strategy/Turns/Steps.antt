-- ===== src/Bft/Strategy/Turns/Steps.antt =====
-- substrate/bft/src/generic/mod.rs: what the calls of a turn have in common.
use polkadot.Prelude.{
  ◌+◌, ◌*◌, ◌≤◌, ◌<◌, ◌≡◌, ◌∙◌, sym, refl, inl, inr, Option, none, some, List, [], ◌∷◌, ◌++◌, arith,
  Eq, ◌==◌, nat_eq, ltb, Bool-cases, Result, ok, err,
}
use mathlib.Core.List.{append-nil, append_assoc}
use polkadot.Bft.Messages.{Message, LocalizedMessage, message_round}
use polkadot.Bft.Accumulator.{Misbehavior}
use polkadot.Bft.Accumulator.Runs.{import_message-SameRound}
use polkadot.Bft.Strategy.{
  Context, Communication, Sending, Locked, LocalState, Strategy, push, Node, current_round,
  note_misbehavior, import_current, import_future, import_message, import_and_send_message,
}
use polkadot.Bft.Strategy.Sound.{IsSound, import_message-IsSound}
use polkadot.Bft.Strategy.Rounds.{IsLaterLock}
use polkadot.Bft.Strategy.Turns.{send_lock}
use polkadot.Bft.Strategy.Turns.Sent.{
  Signs, stamp_lem, message_stamp, rank, place, Ascending, Ascending-append,
}

pub IsLaterLock-refl : {D S : Type 0} (l : Option (Locked D S)) → IsLaterLock l l
IsLaterLock-refl none = tt
IsLaterLock-refl (some l) = omega arith

pub IsLaterLock-trans :
    {D S : Type 0} (l m n : Option (Locked D S))
    → IsLaterLock l m
    → IsLaterLock m n
    → IsLaterLock l n
IsLaterLock-trans none m n h k = tt
IsLaterLock-trans (some l) none n h k = absurd h
IsLaterLock-trans (some l) (some m) none h k = absurd k
IsLaterLock-trans (some l) (some m) (some n) h k = omega (arith, h, k)

module _ {C D A S : Type 0} ⦃eD : Eq D⦄ ⦃eA : Eq A⦄ where
  -- The round, the local state and the lock are as before.
  abbrev pub Stands : Strategy C D A S → Strategy C D A S → Type 0
  Stands s s' =
      (current_round s' ≡ current_round s)
      × (s'.local_state ≡ s.local_state)
      × (s'.locked ≡ s.locked)

  note_misbehavior-Stands :
      (sender : A) (r : Result (Unit {0}) (Misbehavior D S)) (s : Strategy C D A S)
      → Stands s (note_misbehavior sender r s)
  unfolding note_misbehavior
  note_misbehavior-Stands sender (ok _) s = (refl, refl, refl)
  note_misbehavior-Stands sender (err m) s = (refl, refl, refl)

  import_current-Stands :
      (m : LocalizedMessage C D A S) (s : Strategy C D A S) → Stands s (import_current m s)
  unfolding import_current
  import_current-Stands m s =
      let (round, state, lock) = note_misbehavior-Stands _ _ _ in
      (round ∙ (import_message-SameRound s.current_accumulator m).0, state, lock)

  pub import_message-Stands :
      (ctx : Context C D A S) (m : LocalizedMessage C D A S) (s : Strategy C D A S)
      → Stands s (import_message ctx m s)
  unfolding import_message import_future
  import_message-Stands ctx m s = elim (Bool-cases (message_round m == current_round s)) [
    | inl now ↦ rw now (import_current-Stands m s)
    | inr other ↦ elim (Bool-cases (ltb (current_round s) (message_round m))) [
      | inl later ↦ rw (other, later) (note_misbehavior-Stands _ _ _)
      | inr earlier ↦ rw (other, earlier) (refl, refl, refl)
    ]
  ]

  -- The invariant holds after a step, the round and the round of the lock have not fallen, and
  -- the messages sent are in order from the place of the node before to its place after.
  pub record Turned (ctx : Context C D A S) (n n' : Node C D A S) : Type 0 where
    pub sound : IsSound ctx n'.0
    pub round : current_round n.0 ≤ current_round n'.0
    pub lock : IsLaterLock n.0.locked n'.0.locked
    pub sent : List (Communication C D A S)
    pub queued : n'.1.items ≡ n.1.items ++ sent
    pub ascending : Ascending (place n.0) (place n'.0) sent

  pub Turned-trans :
      (ctx : Context C D A S) (l m n : Node C D A S)
      → Turned ctx l m
      → Turned ctx m n
      → Turned ctx l n
  Turned-trans ctx l m n h k = record {
    sound = k.sound;
    round = omega (arith, h.round, k.round);
    lock = IsLaterLock-trans l.0.locked _ _ h.lock k.lock;
    sent = h.sent ++ k.sent;
    queued = simp (h.queued, k.queued, append_assoc);
    ascending = Ascending-append _ _ _ h.sent k.sent h.ascending k.ascending;
  }

  -- A step that sends nothing.
  pub quiet :
      (ctx : Context C D A S) (s s' : Strategy C D A S) (sending : Sending (Communication C D A S))
      → IsSound ctx s'
      → current_round s ≤ current_round s'
      → IsLaterLock s.locked s'.locked
      → place s ≤ place s'
      → Turned ctx (s, sending) (s', sending)
  quiet ctx s s' sending sound round lock later = record {
    sound = sound;
    round = round;
    lock = lock;
    sent = [];
    queued = sym (append-nil _);
    ascending = later;
  }

  -- A step that sends nothing and keeps the round, the local state and the lock.
  pub quiet_Stands :
      (ctx : Context C D A S) (s s' : Strategy C D A S) (sending : Sending (Communication C D A S))
      → IsSound ctx s'
      → Stands s s'
      → Turned ctx (s, sending) (s', sending)
  quiet_Stands ctx s s' sending sound (round, state, lock) =
      quiet ctx s s' sending sound (omega (arith, round)) (rw lock (IsLaterLock-refl s.locked))
        (rw (round, state) (omega arith))

  -- A step that sends one message.
  sends :
      (ctx : Context C D A S) (m : Message C D) (s s' : Strategy C D A S)
      (sending : Sending (Communication C D A S))
      → Signs ctx
      → IsSound ctx s'
      → current_round s ≤ current_round s'
      → IsLaterLock s.locked s'.locked
      → place s ≤ message_stamp m
      → message_stamp m < place s'
      → Turned ctx (s, sending) (s', push (Communication.consensus (ctx.sign_local m)) sending)
  unfolding push
  sends ctx m s s' sending signs sound round lock from to =
      let at = stamp_lem ctx m (ctx.sign_local m) (signs m) in
      record {
        sound = sound;
        round = round;
        lock = lock;
        sent = Communication.consensus (ctx.sign_local m) ∷ [];
        queued = refl;
        ascending = (omega (arith, at, from), omega (arith, at, to));
      }

  -- A message is imported and sent, and then the local state is set.
  pub send_and_set-Turned :
      (ctx : Context C D A S) (m : Message C D) (s₀ s : Strategy C D A S) (state : LocalState)
      (sending : Sending (Communication C D A S))
      → Signs ctx
      → IsSound ctx s
      → current_round s₀ ≡ current_round s
      → IsLaterLock s₀.locked s.locked
      → place s₀ ≤ message_stamp m
      → message_stamp m < 6 * current_round s + rank state
      → let (s', sending') = import_and_send_message ctx m (s, sending) in
        Turned ctx (s₀, sending) (record s' { local_state = state }, sending')
  unfolding import_and_send_message
  send_and_set-Turned ctx m s₀ s state sending signs k same_round later_lock from to =
      let signed = ctx.sign_local m in
      let (round, _, lock) = import_message-Stands ctx signed s in
      sends ctx m s₀ _ sending signs (import_message-IsSound ctx signed s k)
        (omega (arith, round, same_round)) (rw lock later_lock) from (omega (arith, round))

  -- A message is imported and sent after the local state was set.
  pub set_and_send-Turned :
      (ctx : Context C D A S) (m : Message C D) (s₀ s : Strategy C D A S)
      (sending : Sending (Communication C D A S))
      → Signs ctx
      → IsSound ctx s
      → current_round s₀ ≡ current_round s
      → IsLaterLock s₀.locked s.locked
      → place s₀ ≤ message_stamp m
      → message_stamp m < place s
      → Turned ctx (s₀, sending) (import_and_send_message ctx m (s, sending))
  unfolding import_and_send_message
  set_and_send-Turned ctx m s₀ s sending signs k same_round later_lock from to =
      let signed = ctx.sign_local m in
      let (round, state, lock) = import_message-Stands ctx signed s in
      sends ctx m s₀ _ sending signs (import_message-IsSound ctx signed s k)
        (omega (arith, round, same_round)) (rw lock later_lock) from (rw (round, state) to)

  -- A lock that is sent along is no message of a round.
  pub send_lock-Turned :
      (ctx : Context C D A S) (n : Node C D A S) (s : Strategy C D A S)
      (sending : Sending (Communication C D A S)) (l : Option (Locked D S))
      → Turned ctx n (s, sending)
      → Turned ctx n (s, send_lock ctx l sending)
  unfolding send_lock push
  send_lock-Turned ctx n s sending none h = h
  send_lock-Turned ctx n s sending (some l) h =
      Turned-trans ctx n (s, sending) _ h
        (record {
          sound = h.sound;
          round = omega arith;
          lock = IsLaterLock-refl s.locked;
          sent = Communication.auxiliary l.justification ∷ [];
          queued = refl;
          ascending = omega arith;
        })
