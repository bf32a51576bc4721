-- ===== src/StateMachine/Overlay.antt =====
-- substrate/state-machine/src/lib.rs: `OverlayedChanges`. A value `none` is a deletion.
pub mod Transactions
mod Tests
use polkadot.Prelude.{Option, none, some, List, [], ◌∷◌, Eq}
use polkadot.Prelude.Map
use polkadot.Prelude.Map.{Map}

pub record OverlayedChanges (K V : Type 0) : Type 0 where
  pub prospective : Map K (Option V)
  pub committed : Map K (Option V)

module _ {K V : Type 0} ⦃e : Eq K⦄ where
  -- `none` if the backend is to be asked
  pub storage : OverlayedChanges K V → K → Option (Option V)
  storage c key = elim (Map.get c.prospective key) [
    | some v ↦ some v
    | none ↦ Map.get c.committed key
  ]

  pub set_storage : K → Option V → OverlayedChanges K V → OverlayedChanges K V
  set_storage key val c = record c { prospective = Map.insert c.prospective key val }

  -- `committed.extend(prospective.drain())`
  pub extend : Map K (Option V) → Map K (Option V) → Map K (Option V)
  extend m [] = m
  extend m ((k, v) ∷ changes) = extend (Map.insert m k v) changes

  pub commit_prospective : OverlayedChanges K V → OverlayedChanges K V
  commit_prospective c = elim c.committed [
    | [] ↦ record { prospective = []; committed = c.prospective }
    | _ ∷ _ ↦ record { prospective = []; committed = extend c.committed c.prospective }
  ]

module _ {K V : Type 0} where
  pub discard_prospective : OverlayedChanges K V → OverlayedChanges K V
  discard_prospective c = record c { prospective = [] }

  -- the overlay that is left, and the drained changes
  pub drain : OverlayedChanges K V → OverlayedChanges K V × Map K (Option V)
  drain c = (record c { committed = [] }, c.committed)
