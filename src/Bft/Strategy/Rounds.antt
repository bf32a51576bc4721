-- ===== src/Bft/Strategy/Rounds.antt =====
-- substrate/bft/src/generic/mod.rs: `Strategy::advance_to_round` and `import_lock_proof`, and the
-- invariant from one round to the next.
use polkadot.Prelude.{
  ℕ, zero, suc, ◌+◌, ◌-◌, ◌≤◌, ◌<◌, ◌≡◌, ◌≢◌, ◌∙◌, refl, inl, inr, ◌&&◌, Option, none, some, arith,
  ltb, leb, if◌then◌else◌, Eq, ==_iff, nat_eq, Option-cases, Bool-cases,
}
use polkadot.Prelude.Map
use polkadot.Prelude.Map.{Map}
use polkadot.Bft.Justification.{Justification}
use polkadot.Bft.Threshold.{bft_threshold}
use polkadot.Bft.Accumulator.{Accumulator}
use polkadot.Bft.Strategy.{
  Context, Locked, LocalState, Strategy, Outcome, done, failed, panicked, ◌>>=◌, current_round,
  new_accumulator, remove_range, note_candidate, begin_round, advance_to_round, lock_to_new,
  take_lock, import_lock_proof,
}
use polkadot.Bft.Strategy.Sound.{IsRound, IsSound, new-IsRound}

-- A call that does not panic, and whose result has a property.
abbrev pub Ends : {T E : Type 0} → (T → Type 0) → Outcome T E → Type 0
Ends P (done t) = P t
Ends P (failed e) = Unit
Ends P panicked = ⊥

pub Ends_map :
    {T E : Type 0} (P Q : T → Type 0) (o : Outcome T E)
    → Ends P o
    → ((t : T) → P t → Q t)
    → Ends Q o
Ends_map P Q (done t) h k = k t h
Ends_map P Q (failed e) h k = tt
Ends_map P Q panicked h k = h

pub Ends->>= :
    {T U E : Type 0} (P : T → Type 0) (Q : U → Type 0) (o : Outcome T E) (f : T → Outcome U E)
    → Ends P o
    → ((t : T) → P t → Ends Q (f t))
    → Ends Q (o >>= f)
Ends->>= P Q (done t) f h k = k t h
Ends->>= P Q (failed e) f h k = tt
Ends->>= P Q panicked f h k = h

get-remove_range :
    {T : Type 0} (count from r : ℕ) (m : Map ℕ T)
    → Map.get (remove_range count from m) r
      ≡ (if leb from r && ltb r (from + count) then none else Map.get m r)
unfolding remove_range
get-remove_range zero from r m = ground arith
get-remove_range (suc count) from r m = ground (
  arith,
  get-remove_range count (from + 1) r (Map.remove m from),
  Map.get-remove m from r,
  ==_iff from r,
)

-- A lock to a justification of a round or a later one.
abbrev pub LocksFrom : {D S : Type 0} → ℕ → Option (Locked D S) → Type 0
LocksFrom round none = ⊥
LocksFrom round (some l) = round ≤ l.justification.unchecked.round_number

abbrev pub IsLaterLock : {D S : Type 0} → Option (Locked D S) → Option (Locked D S) → Type 0
IsLaterLock none l = Unit
IsLaterLock (some l) l' = LocksFrom l.justification.unchecked.round_number l'

locked_round :
    {D S : Type 0} (j : Justification D S) (l : Locked D S) (n : ℕ)
    → some (record { justification = j }) ≡ some l
    → j.unchecked.round_number ≤ n
    → l.justification.unchecked.round_number ≤ n
locked_round j l n q h = ground (arith, q)

module _ {C D A S : Type 0} ⦃eD : Eq D⦄ ⦃eA : Eq A⦄ where
  note_candidate_lem :
      (ctx : Context C D A S) (p : Option C) (m : Map D C)
      → ((d : D) (c : C) → Map.get m d ≡ some c → ctx.candidate_digest c ≡ d)
      → (d : D) (c : C) → Map.get (note_candidate ctx p m) d ≡ some c
      → ctx.candidate_digest c ≡ d
  unfolding note_candidate
  note_candidate_lem ctx none m k d c h = k d c h
  note_candidate_lem ctx (some p) m k d c h = ground (
    arith,
    h,
    k d c,
    Map.get-insert m (ctx.candidate_digest p) d p,
    ==_iff (ctx.candidate_digest p) d,
  )

  -- The accumulator of the next round: one that was kept, or a new one.
  next-IsRound :
      (ctx : Context C D A S) (t round count from : ℕ) (s : Strategy C D A S)
      (future : Map ℕ (Accumulator C D A S))
      → bft_threshold s.nodes s.max_faulty ≡ t
      → 0 < t
      → ((r : ℕ) (acc : Accumulator C D A S) → Map.get future r ≡ some acc → IsRound t r acc)
      → IsRound t round
          (elim (Map.get (remove_range count from future) round) as (λ _. Accumulator C D A S) [
            | some acc ↦ acc
            | none ↦ new_accumulator ctx s round
          ])
  unfolding new_accumulator
  next-IsRound ctx t round count from s future same positive keyed =
      elim (Option-cases (Map.get (remove_range count from future) round)) [
        | inl q ↦ rw (q, same) (new-IsRound _ round _ positive)
        | inr (acc, q) ↦
            rw q (keyed round acc (ground (arith, q, get-remove_range count from round future)))
      ]

  pub begin_round-IsSound :
      (ctx : Context C D A S) (round : ℕ) (s : Strategy C D A S)
      → IsSound ctx s
      → current_round s < round
      → IsSound ctx (begin_round ctx round s)
  unfolding begin_round
  begin_round-IsSound ctx round s k h =
      let next = current_round s + 1 in
      let left : (r : ℕ) (acc : Accumulator C D A S)
          → Map.get (Map.remove (remove_range (round - next) next s.future_accumulators) round) r
            ≡ some acc
          → (Map.get s.future_accumulators r ≡ some acc)
            × (r ≢ round)
            × ¬ ((next ≤ r) × (r < round)) =
        λ r acc q. ground (
          arith,
          q,
          Map.get-remove (remove_range (round - next) next s.future_accumulators) round r,
          get-remove_range (round - next) next r s.future_accumulators,
          ==_iff round r,
        ) in
      let now =
        next-IsRound ctx _ round (round - next) next s s.future_accumulators refl k.positive
          k.keyed in
      record {
        positive = k.positive;
        present = rw now.of_round now;
        keyed = λ r acc q. k.keyed r acc (left r acc q).0;
        ahead = λ r acc q. rw now.of_round (ground (arith, left r acc q, k.ahead r acc));
        lock_round = λ l q. rw now.of_round (ground (arith, k.lock_round l q));
        candidates = note_candidate_lem ctx _ s.notable_candidates k.candidates;
      }

  pub begin_round-round :
      (ctx : Context C D A S) (round : ℕ) (s : Strategy C D A S)
      → IsSound ctx s
      → current_round s < round
      → current_round (begin_round ctx round s) ≡ round
  unfolding begin_round
  begin_round-round ctx round s k h =
      (next-IsRound ctx _ round (round - (current_round s + 1)) (current_round s + 1) s
        s.future_accumulators refl k.positive k.keyed).of_round

  pub advance_to_round_lem :
      (E : Type 0) (ctx : Context C D A S) (round : ℕ) (s : Strategy C D A S)
      → current_round s < round
      → advance_to_round {E = E} ctx round s ≡ done (begin_round ctx round s)
  unfolding advance_to_round
  advance_to_round_lem E ctx round s h = ground (arith, h)

  pub locked-IsSound :
      (ctx : Context C D A S) (j : Justification D S) (s : Strategy C D A S)
      → IsSound ctx s
      → j.unchecked.round_number ≤ current_round s
      → IsSound ctx (record s { locked = some (record { justification = j }) })
  locked-IsSound ctx j s k h = record {
    positive = k.positive;
    present = k.present;
    keyed = k.keyed;
    ahead = k.ahead;
    lock_round = λ l q. locked_round j l _ q h;
    candidates = k.candidates;
  }

  take_lock-IsSound :
      (ctx : Context C D A S) (j : Justification D S) (s : Strategy C D A S)
      → IsSound ctx s
      → j.unchecked.round_number ≤ current_round s
      → IsSound ctx (take_lock j s)
  unfolding take_lock
  take_lock-IsSound ctx j s k h = elim (Bool-cases (lock_to_new j s.locked)) [
    | inl e ↦ rw e (locked-IsSound ctx j s k h)
    | inr e ↦ rw e k
  ]

  -- The lock after a justification is of its round at least, and of the round of the old lock.
  take_lock-LocksFrom :
      (j : Justification D S) (s : Strategy C D A S)
      → LocksFrom j.unchecked.round_number (take_lock j s).locked
        × IsLaterLock s.locked (take_lock j s).locked
        × (current_round (take_lock j s) ≡ current_round s)
        × ((take_lock j s).local_state ≡ s.local_state)
  unfolding take_lock lock_to_new
  take_lock-LocksFrom j s = elim (Option-cases s.locked) [
    | inl q ↦ rw q (omega arith, tt, refl, refl)
    | inr (l, q) ↦
        elim (Bool-cases (ltb l.justification.unchecked.round_number j.unchecked.round_number)) [
          | inl e ↦ rw (q, e) (omega arith, ground arith, refl, refl)
          | inr e ↦ rw (q, e) (ground arith, omega arith, refl, refl)
        ]
  ]

  abbrev pub LocksTo :
      Context C D A S → Justification D S → Strategy C D A S → Strategy C D A S → Type 0
  LocksTo ctx j s s' =
      IsSound ctx s'
      × (current_round s' ≡ (
          if ltb (current_round s) j.unchecked.round_number
          then j.unchecked.round_number
          else current_round s))
      × (s'.local_state ≡ (
          if ltb (current_round s) j.unchecked.round_number
          then LocalState.start
          else s.local_state))
      × LocksFrom j.unchecked.round_number s'.locked
      × IsLaterLock s.locked s'.locked

  -- From the invariant of a node, the import of a lock proof does not panic and keeps the
  -- invariant. Afterwards the round is the later one of the round before and the round of the
  -- proof, a new round begins in the state `Start`, and the node is locked to a justification
  -- that is as late as the proof and as the lock before.
  pub import_lock_proof-LocksTo :
      (E : Type 0) (ctx : Context C D A S) (j : Justification D S) (s : Strategy C D A S)
      → IsSound ctx s
      → Ends {E = E} (LocksTo ctx j s) (import_lock_proof ctx j s)
  unfolding import_lock_proof begin_round
  import_lock_proof-LocksTo E ctx j s k =
      elim (Bool-cases (ltb (current_round s) j.unchecked.round_number)) [
        | inl e ↦
            let after : current_round s < j.unchecked.round_number = ground arith in
            let s' = begin_round ctx j.unchecked.round_number s in
            let at = begin_round-round ctx j.unchecked.round_number s k after in
            let (new, old, round, state) = take_lock-LocksFrom j s' in
            rw (e, advance_to_round_lem E ctx j.unchecked.round_number s after)
              (
                take_lock-IsSound ctx j s'
                    (begin_round-IsSound ctx j.unchecked.round_number s k after)
                    (omega (arith, at)),
                rw e (round ∙ at),
                rw e (state ∙ unfold begin_round in refl),
                new,
                unfold begin_round in old,
              )
        | inr e ↦
            let (new, old, round, state) = take_lock-LocksFrom j s in
            rw e (take_lock-IsSound ctx j s k (ground arith), rw e round, rw e state, new, old)
      ]
