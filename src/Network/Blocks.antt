-- ===== src/Network/Blocks.antt =====
-- substrate/network/src/blocks.rs: the blocks that are being downloaded, by ranges. A `BTreeMap` is
-- an association list in ascending order. The best number of a peer is any `u64`; the numbers of
-- the ranges grow with the local chain, and their sums are written without a bound.
pub mod Spaced
pub mod Drained
mod Tests
use polkadot.Prelude.{
  ℕ, ◌+◌, ◌-◌, ◌%◌, ◌^◌, min, Bool, true, false, Option, none, some, List, [], ◌∷◌, ◌++◌, map,
  length, leb, ltb, Eq, nat_eq, ◌==◌, if◌then◌else◌,
}
use polkadot.Prelude.Map
use polkadot.Prelude.Map.{Map}

pub record BlockData (B P : Type 0) : Type 0 where
  pub block : B
  pub origin : P

pub data BlockRangeState (B P : Type 0) : Type 0 where
  downloading : ℕ → ℕ → BlockRangeState B P
  complete : List (BlockData B P) → BlockRangeState B P

abbrev pub Ranges : Type 0 → Type 0 → Type 0
Ranges B P = Map ℕ (BlockRangeState B P)

pub record BlockCollection (B P : Type 0) : Type 0 where
  pub blocks : Ranges B P
  pub peer_requests : Map P ℕ

-- `MAX_PARALLEL_DOWNLOADS`
abbrev pub max_parallel_downloads : ℕ
max_parallel_downloads = 1

module _ {B P : Type 0} where
  pub len : BlockRangeState B P → ℕ
  len (downloading n _) = n
  len (complete bs) = length bs

  -- `BTreeMap::insert`
  pub insert_range : Ranges B P → ℕ → BlockRangeState B P → Ranges B P
  insert_range [] k r = (k, r) ∷ []
  insert_range ((j, q) ∷ m) k r =
      let rest = insert_range m k r in
      if ltb k j then (k, r) ∷ (j, q) ∷ m else if k == j then (k, r) ∷ m else (j, q) ∷ rest

  -- a test of the first arm of the loop: a range that may be downloaded once more
  pub is_open : BlockRangeState B P → Bool
  is_open (downloading _ n) = ltb n max_parallel_downloads
  is_open (complete _) = false

  pub downloads : BlockRangeState B P → ℕ
  downloads (downloading _ n) = n
  downloads (complete _) = 0

  -- The loop from the second turn on, with the range before it: the start and the end of the next
  -- range, and how often it is being downloaded.
  pub next_range : ℕ → ℕ × BlockRangeState B P → Ranges B P → ℕ × ℕ × ℕ
  unfolding is_open len downloads
  next_range count (start, r) [] =
      if is_open r
      then (start, start + len r, downloads r)
      else (start + len r, start + len r + count, 0)
  next_range count (start, r) ((next_start, q) ∷ m) =
      let rest = next_range count (next_start, q) m in
      if is_open r
      then (start, start + len r, downloads r)
      else if ltb (start + len r) next_start
      then (start + len r, min next_start (start + len r + count), 0)
      else rest

  pub first_range : ℕ → ℕ → Ranges B P → ℕ × ℕ × ℕ
  first_range count first_different [] = (first_different, first_different + count, 0)
  first_range count first_different ((start, q) ∷ m) =
      if ltb first_different start
      then (first_different, min (first_different + count) start, 0)
      else next_range count (start, q) m

module _ {B P : Type 0} ⦃eP : Eq P⦄ where
  -- the new collection and the range; `none` for the panic on an empty range, which is also what a
  -- sum that wraps leads to (where overflow is checked, the sum panics)
  pub needed_blocks :
      P → ℕ → ℕ → ℕ → BlockCollection B P → Option (BlockCollection B P × Option (ℕ × ℕ))
  needed_blocks peer count peer_best common c =
      let (start, end, n) = first_range count (common + 1) c.blocks in
      if ltb peer_best start
      then some (c, none)
      else let end' = min ((peer_best + 1) % 2 ^ 64) end in
        if leb end' start
        then none
        else some (
          record c {
            peer_requests = Map.insert c.peer_requests peer start;
            blocks = insert_range c.blocks start (downloading (end' - start) (n + 1));
          },
          some (start, end'),
        )

module _ {B P : Type 0} where
  -- a debug assertion is off: data that is still being downloaded is ignored
  pub insert : ℕ → List B → P → BlockCollection B P → BlockCollection B P
  insert start [] peer c = c
  insert start (b ∷ bs) peer c =
      let fresh : BlockRangeState B P =
        complete (map (λ x. record { block = x; origin = peer }) (b ∷ bs)) in
      let stored = record c { blocks = insert_range c.blocks start fresh } in
      elim (Map.get c.blocks start) [
        | none ↦ stored
        | some (downloading _ _) ↦ c
        | some (complete existing) ↦ if leb (length (b ∷ bs)) (length existing) then c else stored
      ]

  -- the drained blocks and the starts of their ranges
  pub drain_loop : ℕ → Ranges B P → List (BlockData B P) × List ℕ
  drain_loop prev [] = ([], [])
  drain_loop prev ((start, downloading _ _) ∷ m) = ([], [])
  drain_loop prev ((start, complete bs) ∷ m) =
      let (drained, ranges) = drain_loop (start + length bs) m in
      if leb start prev then (bs ++ drained, start ∷ ranges) else ([], [])

  pub remove_all : List ℕ → Ranges B P → Ranges B P
  remove_all [] m = m
  remove_all (k ∷ ks) m = remove_all ks (Map.remove m k)

  pub drain : ℕ → BlockCollection B P → BlockCollection B P × List (BlockData B P)
  drain from c =
      let (drained, ranges) = drain_loop from c.blocks in
      (record c { blocks = remove_all ranges c.blocks }, drained)

module _ {B P : Type 0} ⦃eP : Eq P⦄ where
  pub clear_peer_download : P → BlockCollection B P → BlockCollection B P
  clear_peer_download peer c = elim (Map.get c.peer_requests peer) [
    | none ↦ c
    | some start ↦
        let requests = Map.remove c.peer_requests peer in
        elim (Map.get c.blocks start) [
          | none ↦ record c { peer_requests = requests }
          | some (complete _) ↦ record c { peer_requests = requests }
          | some (downloading n k) ↦
              if ltb 1 k
              then record {
                peer_requests = requests;
                blocks = insert_range c.blocks start (downloading n (k - 1));
              }
              else record { peer_requests = requests; blocks = Map.remove c.blocks start }
        ]
  ]

pub new : {B P : Type 0} → BlockCollection B P
new = record { blocks = []; peer_requests = [] }

pub clear : {B P : Type 0} → BlockCollection B P → BlockCollection B P
clear c = record { blocks = []; peer_requests = [] }
