-- ===== src/StateDb/Panics.antt =====
-- substrate/state-db/src: calls that may panic, which is `none`.
use polkadot.Prelude.{◌≡◌, Option, none, some}
use polkadot.StateDb.Types.{and_then}

-- A call that does not panic, and whose result has a property.
abbrev pub Returns : {T : Type 0} → (T → Type 0) → Option T → Type 0
Returns P none = ⊥
Returns P (some t) = P t

pub Returns_some :
    {T : Type 0} (P : T → Type 0) (o : Option T) (t : T) → o ≡ some t → P t → Returns P o
Returns_some P o t h p = rw h p

pub Returns_map :
    {T : Type 0} (P Q : T → Type 0) (o : Option T)
    → Returns P o
    → ((t : T) → P t → Q t)
    → Returns Q o
Returns_map P Q none h k = h
Returns_map P Q (some t) h k = k t h

pub Returns-and_then :
    {T U : Type 0} (P : T → Type 0) (Q : U → Type 0) (o : Option T) (f : T → Option U)
    → Returns P o
    → ((t : T) → P t → Returns Q (f t))
    → Returns Q (and_then o f)
Returns-and_then P Q none f h k = h
Returns-and_then P Q (some t) f h k = k t h
