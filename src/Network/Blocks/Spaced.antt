-- ===== src/Network/Blocks/Spaced.antt =====
-- substrate/network/src/blocks.rs: ranges that do not overlap, and `needed_blocks`.
use polkadot.Prelude.{
  ℕ, ◌+◌, ◌-◌, ◌%◌, ◌^◌, ◌≤◌, ◌<◌, ◌≡◌, ◌⊎◌, inl, inr, min, sym, refl, false, Option, none, some,
  [], ◌∷◌, arith, leb, ltb, Eq, nat_eq, ◌==◌, Bool-cases,
}
use mathlib.Core.Path.{subst}
use polkadot.Prelude.Map
use polkadot.Prelude.Map.{Map}
use polkadot.Network.Blocks.{
  BlockRangeState, downloading, Ranges, BlockCollection, len, insert_range, is_open, next_range,
  first_range, needed_blocks,
}

module _ {B P : Type 0} where
  -- Ranges in ascending order from `lo` on, none of them empty or open, and no two overlapping.
  abbrev pub Spaced : ℕ → Ranges B P → Type 0
  Spaced lo [] = Unit
  Spaced lo ((start, r) ∷ m) =
      (lo ≤ start) × (0 < len r) × (is_open r ≡ false) × Spaced (start + len r) m

  -- The numbers from `start` to before `end` are in none of the ranges.
  abbrev pub Fits : ℕ → ℕ → Ranges B P → Type 0
  Fits start end [] = Unit
  Fits start end ((s, r) ∷ m) = ((s + len r ≤ start) ⊎ (end ≤ s)) × Fits start end m

  Fits-before : (start end lo : ℕ) (m : Ranges B P) → end ≤ lo → Spaced lo m → Fits start end m
  Fits-before start end lo [] h sp = tt
  Fits-before start end lo ((s, r) ∷ m) h (a, b, c, sp) =
      (inr (omega (arith, a, h)), Fits-before start end (s + len r) m (omega (arith, a, h)) sp)

  Fits-shorter :
      (start end end' : ℕ) (m : Ranges B P) → end' ≤ end → Fits start end m → Fits start end' m
  Fits-shorter start end end' [] h f = tt
  Fits-shorter start end end' ((s, r) ∷ m) h (inl a, f) = (inl a, Fits-shorter start end end' m h f)
  Fits-shorter start end end' ((s, r) ∷ m) h (inr a, f) =
      (inr (omega (arith, a, h)), Fits-shorter start end end' m h f)

  insert_range-Spaced :
      (lo k : ℕ) (r : BlockRangeState B P) (m : Ranges B P)
      → Spaced lo m
      → lo ≤ k
      → 0 < len r
      → is_open r ≡ false
      → Fits k (k + len r) m
      → Spaced lo (insert_range m k r)
  unfolding insert_range
  insert_range-Spaced lo k r [] sp h pos o f = (h, pos, o, tt)
  insert_range-Spaced lo k r ((s, q) ∷ m) (a, b, c, sp) h pos o (at, f) =
      elim (Bool-cases (ltb k s)) [
        | inl below ↦
            rw (below)
              (h, pos, o, ((elim at [ inl x ↦ absurd (ground arith) | inr x ↦ x ]), b, c, sp))
        | inr above ↦ elim (Bool-cases (k == s)) [
          | inl same ↦ absurd (elim at [ inl x ↦ ground arith | inr x ↦ ground arith ])
          | inr other ↦
              rw (above, other)
                (
                  a,
                  b,
                  c,
                  insert_range-Spaced (s + len q) k r m sp
                      (elim at [ inl x ↦ x | inr x ↦ absurd (ground arith) ]) pos o f,
                )
        ]
      ]

  -- A range that starts at `lo` or later, is not empty, not downloaded yet, and in no other range.
  abbrev pub IsFresh : ℕ → Ranges B P → ℕ × ℕ × ℕ → Type 0
  IsFresh lo m (start, end, n) = (lo ≤ start) × (start < end) × (n ≡ 0) × Fits start end m

  next_range-IsFresh :
      (count s : ℕ) (r : BlockRangeState B P) (m : Ranges B P)
      → 0 < count
      → is_open r ≡ false
      → Spaced (s + len r) m
      → IsFresh (s + len r) m (next_range count (s, r) m)
  unfolding next_range
  next_range-IsFresh count s r [] pos o sp = rw (o) (omega arith, omega (arith, pos), refl, tt)
  next_range-IsFresh count s r ((t, q) ∷ m) pos o (a, b, c, sp) =
      elim (Bool-cases (ltb (s + len r) t)) [
        | inl gap ↦
            rw (o, gap)
              (
                omega arith,
                ground (arith, pos),
                refl,
                (inr (ground arith), Fits-before _ _ (t + len q) m (ground arith) sp),
              )
        | inr tight ↦
            let (x, y, z, f) = next_range-IsFresh count t q m pos c sp in
            let step : next_range count (s, r) ((t, q) ∷ m) ≡ next_range count (t, q) m =
              rw (o, tight) refl in
            subst (IsFresh (s + len r) ((t, q) ∷ m)) (sym step)
              (omega (arith, a, x), y, z, (inl x, f))
      ]

  pub first_range-IsFresh :
      (count fd : ℕ) (m : Ranges B P)
      → 0 < count
      → Spaced 0 m
      → IsFresh 0 m (first_range count fd m)
  unfolding first_range
  first_range-IsFresh count fd [] pos sp = (omega arith, omega (arith, pos), refl, tt)
  first_range-IsFresh count fd ((t, q) ∷ m) pos (a, b, c, sp) = elim (Bool-cases (ltb fd t)) [
    | inl gap ↦ rw (gap) (
      omega arith,
      ground (arith, pos),
      refl,
      (inr (ground arith), Fits-before _ _ (t + len q) m (ground arith) sp),
    )
    | inr tight ↦
        let (x, y, z, f) = next_range-IsFresh count t q m pos c sp in
        let step : first_range count fd ((t, q) ∷ m) ≡ next_range count (t, q) m =
          rw (tight) refl in
        subst (IsFresh 0 ((t, q) ∷ m)) (sym step) (omega arith, y, z, (inl x, f))
  ]

module _ {B P : Type 0} ⦃eP : Eq P⦄ where
  -- What `needed_blocks` promises: nothing changes when there is no range for the peer; else the
  -- range starts at most at the peer's best block and ends at most there, is not empty and in none of
  -- the ranges, is noted for the peer, and the ranges of the new collection do not overlap.
  abbrev pub IsNeeded : P → ℕ → BlockCollection B P → BlockCollection B P → Option (ℕ × ℕ) → Type 0
  IsNeeded peer best c c' none = c' ≡ c
  IsNeeded peer best c c' (some (start, end)) =
      (start < end)
      × (end ≤ best + 1)
      × Fits start end c.blocks
      × Spaced 0 c'.blocks
      × (Map.get c'.peer_requests peer ≡ some start)

  -- If some blocks are asked for, the peer's best number is not the greatest `u64`, and no ranges of
  -- the collection overlap, are empty or could be downloaded once more, then `needed_blocks` does not panic. Either it returns no range and changes
  -- nothing; or the range that it returns is not empty, ends at most at the peer's best block,
  -- overlaps with no range of the collection, is noted for the peer, and the ranges of the new
  -- collection are again as supposed.
  pub needed_blocks-IsNeeded :
      (peer : P) (count best common : ℕ) (c : BlockCollection B P)
      → 0 < count
      → best + 1 < 2 ^ 64
      → Spaced 0 c.blocks
      → (c' : BlockCollection B P) × (r : Option (ℕ × ℕ)) × (needed_blocks peer count best common c
          ≡ some (c', r))
        × IsNeeded peer best c c' r
  unfolding needed_blocks len is_open
  needed_blocks-IsNeeded peer count best common c pos small sp =
      let (start, end, n) = first_range count (common + 1) c.blocks in
      let (h, less, once, fits) = first_range-IsFresh count (common + 1) c.blocks pos sp in
      elim (Bool-cases (ltb best start)) [
        | inl beyond ↦ (c, none, rw (beyond, needed_blocks) refl, refl)
        | inr within ↦
            let no_wrap : (best + 1) % 2 ^ 64 ≡ best + 1 = omega (arith, small) in
            let end' = min (best + 1) end in
            let some_left : start < end' = ground (arith, less, within) in
            let full : leb end' start ≡ false = ground (arith, some_left) in
            let range : BlockRangeState B P = downloading (end' - start) (n + 1) in
            (
              record c {
                peer_requests = Map.insert c.peer_requests peer start;
                blocks = insert_range c.blocks start range;
              },
              some (start, end'),
              rw (within, no_wrap, full, needed_blocks) refl,
              (
                some_left,
                omega arith,
                Fits-shorter start end end' c.blocks (omega arith) fits,
                insert_range-Spaced 0 start range c.blocks sp h (omega (arith, some_left))
                    (ground arith)
                    (Fits-shorter start end _ c.blocks (omega (arith, some_left)) fits),
                Map.get-insert_self c.peer_requests peer start,
              ),
            )
      ]
