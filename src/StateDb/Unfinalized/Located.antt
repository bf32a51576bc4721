-- ===== src/StateDb/Unfinalized/Located.antt =====
-- substrate/state-db/src/unfinalized.rs: where the block is that `finalize` looks for.
use polkadot.Prelude.{
  ◌⊎◌, ℕ, ◌+◌, true, false, some, List, [], ◌∷◌, Eq, ◌==◌, nat_eq, ◌≡◌, arith, inl, inr, Bool-cases,
  Option-cases, ◌≤◌, ◌<◌, if◌then◌else◌,
}
use polkadot.StateDb.Types.{ChangeSet, no_changes}
use polkadot.StateDb.Unfinalized.{BlockOverlay}
use polkadot.StateDb.Unfinalized.Finalizing.{position}
use polkadot.StateDb.Unfinalized.Tree.{count_level, has_hash}

module _ {H K : Type 0} ⦃eH : Eq H⦄ where
  pub position_has :
      (hash : H) (os : List (BlockOverlay H K))
      → has_hash hash os ≡ true
      → (d : ℕ) × (position hash os ≡ some d)
  unfolding position has_hash
  position_has hash [] h = absurd (ground (arith, h))
  position_has hash (o ∷ os) h = elim (Bool-cases (o.hash == hash)) [
    | inl e ↦ (0, ground (arith, e))
    | inr e ↦
        let (d, q) = position_has hash os (ground (arith, h, e)) in (d + 1, ground (arith, e, q))
  ]

  -- The changes of the first block with a hash.
  unfoldable pub changes_of : H → List (BlockOverlay H K) → ChangeSet K
  changes_of hash [] = no_changes
  changes_of hash (o ∷ os) =
      if o.hash == hash
      then record { inserted = o.values; deleted = o.deleted }
      else changes_of hash os

  -- The block is behind the loop, which has its changes, and not in front of it, or at a distance in front of it.
  abbrev pub IsLocated : ℕ → ℕ → H → ChangeSet K → ChangeSet K → List (BlockOverlay H K) → Type 0
  IsLocated i index target want changes os =
      ((index < i) × (changes ≡ want) × (count_level target os ≡ 0))
      ⊎ ((d : ℕ) × (position target os ≡ some d) × (index ≡ i + d) × (changes_of target os ≡ want))

  pub IsLocated-here :
      (i index : ℕ) (target : H) (want changes : ChangeSet K) (o : BlockOverlay H K)
      (os : List (BlockOverlay H K))
      → IsLocated i index target want changes (o ∷ os)
      → (i == index) ≡ true
      → count_level target (o ∷ os) ≤ 1
      → (o.hash == target ≡ true)
        × IsLocated
            (i + 1)
            index
            target
            want
            (record { inserted = o.values; deleted = o.deleted })
            os
  unfolding position changes_of count_level
  IsLocated-here i index target want changes o os (inl (behind, _, _)) e once =
      absurd (ground (arith, behind, e))
  IsLocated-here i index target want changes o os (inr (d, at, ahead, same)) e once =
      elim (Bool-cases (o.hash == target)) [
        | inl here ↦
            (here, inl (ground (arith, e), ground (arith, same, here), ground (arith, once, here)))
        | inr other ↦ absurd (ground (arith, e, ahead, at, other))
      ]

  pub IsLocated-next :
      (i index : ℕ) (target : H) (want changes : ChangeSet K) (o : BlockOverlay H K)
      (os : List (BlockOverlay H K))
      → IsLocated i index target want changes (o ∷ os)
      → (i == index) ≡ false
      → (o.hash == target ≡ false) × IsLocated (i + 1) index target want changes os
  unfolding position changes_of count_level
  IsLocated-next i index target want changes o os (inl (behind, same, past)) e =
      (ground (arith, past), inl (omega (arith, behind), same, ground (arith, past)))
  IsLocated-next i index target want changes o os (inr (d, at, ahead, same)) e =
      elim (Bool-cases (o.hash == target)) [
        | inl here ↦ absurd (ground (arith, e, ahead, at, here))
        | inr other ↦ elim (Option-cases (position target os)) [
          | inl q ↦ absurd (ground (arith, at, other, q))
          | inr (d', q) ↦
              (other, inr (d', q, ground (arith, ahead, at, other, q), ground (arith, same, other)))
        ]
      ]
