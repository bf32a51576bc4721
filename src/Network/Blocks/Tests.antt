-- ===== src/Network/Blocks/Tests.antt =====
-- Blocks are their numbers, and peers are numbers.
use polkadot.Prelude.{ℕ, ◌≡◌, refl, Option, none, some, [], ◌∷◌, ◌++◌, map, length, arith, nat_eq}
use polkadot.Prelude.Map
use polkadot.Network.Blocks.{
  BlockData, downloading, complete, BlockCollection, new, len, insert_range, is_open, downloads,
  next_range, first_range, needed_blocks, insert, drain_loop, remove_all, drain,
  clear_peer_download,
}
use polkadot.Network.Blocks.Spaced.{Spaced, IsNeeded, needed_blocks-IsNeeded}
use polkadot.Network.Blocks.Drained.{IsDrained, drain-IsDrained}

abbrev block_of : ℕ → BlockData ℕ ℕ
block_of n = record { block = n; origin = 9 }

-- Blocks 1 to 3 are there, 4 and 5 are on their way, and 8 is there.
abbrev some_blocks : BlockCollection ℕ ℕ
some_blocks = record {
  blocks =
      (1, complete (map block_of (1 ∷ 2 ∷ 3 ∷ [])))
      ∷ (4, downloading 2 1)
      ∷ (8, complete (map block_of (8 ∷ [])))
      ∷ [];
  peer_requests = (7, 4) ∷ [];
}

-- every definition that a run goes through
run : ℕ
unfolding len insert_range is_open downloads next_range first_range needed_blocks insert drain_loop
    remove_all drain clear_peer_download new Map.get Map.insert Map.remove length
run = 0

abbrev range_of : {B P : Type 0} → Option (BlockCollection B P × Option (ℕ × ℕ)) → Option (ℕ × ℕ)
range_of none = none
range_of (some (_, r)) = r

-- The gap between the two downloads is next, and then what follows.
gap_range : range_of (needed_blocks 5 40 150 0 some_blocks) ≡ some (6, 8)
unfolding run
gap_range = refl

abbrev collection_of :
    {B P : Type 0} → Option (BlockCollection B P × Option (ℕ × ℕ)) → BlockCollection B P
collection_of none = new
collection_of (some (c, _)) = c

last_range :
    range_of (needed_blocks 6 40 150 0 (collection_of (needed_blocks 5 40 150 0 some_blocks)))
    ≡ some (9, 49)
unfolding run
last_range = refl

drained :
    (drain 1 (insert 4 (4 ∷ 5 ∷ []) 7 (clear_peer_download 7 some_blocks))).1
    ≡ map block_of (1 ∷ 2 ∷ 3 ∷ []) ++ map (λ n. record { block = n; origin = 7 }) (4 ∷ 5 ∷ [])
unfolding run
drained = refl

some_blocks-Spaced : Spaced 1 some_blocks.blocks
unfolding run
some_blocks-Spaced = (
  omega arith,
  omega arith,
  refl,
  (omega arith, omega arith, refl, (omega arith, omega arith, refl, tt)),
)

spread_from_zero : Spaced 0 some_blocks.blocks
unfolding run
spread_from_zero = (
  omega arith,
  omega arith,
  refl,
  (omega arith, omega arith, refl, (omega arith, omega arith, refl, tt)),
)

needed_blocks-IsNeeded_example :
    (c : BlockCollection ℕ ℕ) × (r : Option (ℕ × ℕ)) × (needed_blocks 5 40 150 0 some_blocks
      ≡ some (c, r))
    × IsNeeded 5 150 some_blocks c r
needed_blocks-IsNeeded_example =
    needed_blocks-IsNeeded 5 40 150 0 some_blocks (omega arith) (omega arith) spread_from_zero

drain-IsDrained_example :
    IsDrained (λ n. n) 1 some_blocks.blocks (drain 1 some_blocks).1 (drain 1 some_blocks).0.blocks
drain-IsDrained_example =
    drain-IsDrained (λ n. n) 1 some_blocks some_blocks-Spaced
      ((refl, (refl, (refl, tt))), ((refl, tt), tt))
