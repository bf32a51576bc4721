-- ===== src/StateDb/Unfinalized/Values.antt =====
-- substrate/state-db/src/unfinalized.rs: the values that `get` finds after `insert`.
use polkadot.Prelude.{
  ℕ, zero, suc, ◌+◌, true, Option, none, some, List, [], ◌∷◌, ◌++◌, length, Eq, ◌==◌, nat_eq, ◌≡◌,
  refl, arith, inl, inr, Bool-cases, Option-cases, ◌∙◌, ◌≤◌, ◌<◌, ap, length-append, if◌then◌else◌,
}
use polkadot.Prelude.Map
use polkadot.Prelude.Map.{Map}
use polkadot.StateDb.Panics.{Returns, Returns-and_then}
use polkadot.StateDb.Types.{Bytes, ChangeSet, Encoders}
use polkadot.StateDb.Unfinalized.{
  BlockOverlay, UnfinalizedOverlay, is_nil, front_block_number, push_overlay, begin_insert, fits,
  open_level, collect_values, new_overlay, insert, first_value, get_levels, get,
}

-- The value of the last entry for a key.
unfoldable pub last_value :
    {K : Type 0} ⦃eK : Eq K⦄ → List (K × Bytes) → Option Bytes → K → Option Bytes
last_value [] old key = old
last_value ((k, v) ∷ rest) old key = last_value rest (if k == key then some v else old) key

get-collect_values :
    {K : Type 0} ⦃eK : Eq K⦄ (entries : List (K × Bytes)) (m : Map K Bytes) (key : K)
    → Map.get (collect_values entries m) key ≡ last_value entries (Map.get m key) key
unfolding collect_values last_value
get-collect_values [] m key = refl
get-collect_values ((k, v) ∷ rest) m key =
    get-collect_values rest (Map.insert m k v) key
    ∙ ap (λ old. last_value rest old key) (Map.get-insert m k key v)

module _ {H K : Type 0} ⦃eK : Eq K⦄ where
  first_value-append :
      (os : List (BlockOverlay H K)) (o : BlockOverlay H K) (key : K)
      → first_value os key ≡ none
      → first_value (os ++ o ∷ []) key ≡ Map.get o.values key
  unfolding first_value
  first_value-append [] o key h = ground (arith, Option-cases (Map.get o.values key))
  first_value-append (o' ∷ os) o key h = elim (Option-cases (Map.get o'.values key)) [
    | inl q ↦ ground (arith, h, q, first_value-append os o key)
    | inr (v, q) ↦ absurd (ground (arith, h, q))
  ]

  get_levels-append :
      (levels : List (List (BlockOverlay H K))) (key : K)
      → get_levels (levels ++ [] ∷ []) key ≡ get_levels levels key
  unfolding get_levels first_value
  get_levels-append [] key = refl
  get_levels-append (level ∷ levels) key = elim (Option-cases (first_value level key)) [
    | inl q ↦ ground (arith, q, get_levels-append levels key)
    | inr (v, q) ↦ ground (arith, q)
  ]

  get_levels_cons :
      (level : List (BlockOverlay H K)) (levels : List (List (BlockOverlay H K))) (key : K)
      → get_levels (level ∷ levels) key ≡ none
      → (first_value level key ≡ none) × (get_levels levels key ≡ none)
  unfolding get_levels
  get_levels_cons level levels key h = elim (Option-cases (first_value level key)) [
    | inl q ↦ (q, ground (arith, h, q))
    | inr (v, q) ↦ absurd (ground (arith, h, q))
  ]

  pushed_below :
      (level : List (BlockOverlay H K)) (levels : List (List (BlockOverlay H K))) (key : K)
      (value : Option Bytes)
      → first_value level key ≡ none
      → get_levels levels key ≡ value
      → get_levels (level ∷ levels) key ≡ value
  unfolding get_levels
  pushed_below level levels key value here found = ground (arith, here, found)

  pushed_here :
      (level : List (BlockOverlay H K)) (levels : List (List (BlockOverlay H K)))
      (o : BlockOverlay H K) (key : K) (value : Option Bytes)
      → first_value level key ≡ none
      → get_levels levels key ≡ none
      → Map.get o.values key ≡ value
      → get_levels ((level ++ o ∷ []) ∷ levels) key ≡ value
  unfolding get_levels
  pushed_here level levels o key value here below made =
      let at_end = first_value-append level o key here in
      elim (Option-cases value) [
        | inl q ↦ ground (arith, at_end, made, q, below)
        | inr (v, q) ↦ ground (arith, at_end, made, q)
      ]

  get-push_overlay :
      (make : ℕ → BlockOverlay H K) (index : ℕ) (levels : List (List (BlockOverlay H K))) (key : K)
      (value : Option Bytes)
      → ((i : ℕ) → Map.get (make i).values key ≡ value)
      → index < length levels
      → get_levels levels key ≡ none
      → Returns (λ (levels', _). get_levels levels' key ≡ value) (push_overlay make index levels)
  unfolding push_overlay
  get-push_overlay make index [] key value made h none_yet = absurd (omega (arith, h))
  get-push_overlay make zero (level ∷ levels) key value made h none_yet =
      let (here, below) = get_levels_cons level levels key none_yet in
      pushed_here level levels (make (length level)) key value here below (made (length level))
  get-push_overlay make (suc index) (level ∷ levels) key value made h none_yet =
      let (here, below) = get_levels_cons level levels key none_yet in
      Returns-and_then (λ (levels', _). get_levels levels' key ≡ value) _
        (push_overlay make index levels) _
        (get-push_overlay make index levels key value made (omega (arith, h)) below)
        (λ (levels', n) found. pushed_below level levels' key value here found)

  -- The level of a block that fits, and the values in all levels as they are opened.
  open_level_lem :
      (number front : ℕ) (levels : List (List (BlockOverlay H K))) (key : K)
      → front ≤ number
      → number < front + length levels + 1
      → ((open_level number front levels).1 < length (open_level number front levels).0)
        × (get_levels (open_level number front levels).0 key ≡ get_levels levels key)
  unfolding open_level is_nil
  open_level_lem number front [] key low high = (omega arith, get_levels-append [] key)
  open_level_lem number front (level ∷ levels) key low high =
      elim (Bool-cases (number == front + length (level ∷ levels))) [
        | inl e ↦ rw e (
          omega (arith, length-append (level ∷ levels) ([] ∷ [])),
          get_levels-append (level ∷ levels) key,
        )
        | inr e ↦ rw e (ground (arith, e, low, high), refl)
      ]

module _ {H K : Type 0} ⦃eH : Eq H⦄ ⦃eK : Eq K⦄ where
  pub fits_range :
      (last : H × ℕ) (number : ℕ) (parent_hash : H) (o : UnfinalizedOverlay H K)
      → fits last number parent_hash o ≡ true
      → (last.1 + 1 ≤ number) × (number < last.1 + 1 + length o.levels + 1)
  unfolding fits
  fits_range (h, n) number parent_hash o ok = (ground (arith, ok), ground (arith, ok))

  pub begin_insert_lem :
      (codec : Encoders H K) (number : ℕ) (parent_hash : H) (o : UnfinalizedOverlay H K)
      (last : H × ℕ)
      → o.last_finalized ≡ some last
      → fits last number parent_hash o ≡ true
      → begin_insert codec number parent_hash o o.last_finalized ≡ some (some last, [])
  unfolding begin_insert
  begin_insert_lem codec number parent_hash o last at ok = rw at (ground (arith, ok))

  -- After the last block finalized, a block that fits behind it or behind a block that is not
  -- final yet is inserted without a panic; and a key that no block had a value for has then the
  -- last value that the new block has inserted for it, if any.
  pub get-insert :
      (codec : Encoders H K) (hash : H) (number : ℕ) (parent_hash : H) (changes : ChangeSet K)
      (o : UnfinalizedOverlay H K) (last : H × ℕ) (key : K)
      → o.last_finalized ≡ some last
      → fits last number parent_hash o ≡ true
      → get o key ≡ none
      → Returns
          (λ (o', _). get o' key ≡ last_value changes.inserted none key)
          (insert codec hash number parent_hash changes o)
  unfolding insert get new_overlay front_block_number Map.get
  get-insert codec hash number parent_hash changes o last key at ok none_yet =
      let (low, high) = fits_range last number parent_hash o ok in
      let (below, same) = open_level_lem number (last.1 + 1) o.levels key low high in
      rw (begin_insert_lem codec number parent_hash o last at ok) (
        Returns-and_then
          (λ (levels', _). get_levels levels' key ≡ last_value changes.inserted none key) _
          (push_overlay (new_overlay codec hash number changes) _ _) _
          (get-push_overlay (new_overlay codec hash number changes) _ _ key _
            (λ i. get-collect_values changes.inserted [] key) below (same ∙ none_yet))
          (λ (levels', n) found. found))
