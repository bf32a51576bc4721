-- ===== src/Network/Blocks/Drained.antt =====
-- substrate/network/src/blocks.rs: the blocks that `drain` takes, and those that it leaves.
use mathlib.Core.Path.{subst}
use polkadot.Prelude.{
  ℕ, ◌+◌, ◌<◌, ◌≡◌, ◌≢◌, ap, sym, refl, none, some, List, [], ◌∷◌, ◌++◌, arith, length,
  length-append, leb, nat_eq, Bool-cases, inl, inr,
}
use polkadot.Prelude.Map
use polkadot.Prelude.Map.{Map}
use polkadot.Network.Blocks.{
  BlockData, BlockRangeState, downloading, complete, Ranges, BlockCollection, len, drain_loop,
  remove_all, drain,
}
use polkadot.Network.Blocks.Spaced.{Spaced}

module _ {B P : Type 0} where
  get_below : (lo k : ℕ) (m : Ranges B P) → Spaced lo m → k < lo → Map.get m k ≡ none
  unfolding Map.get
  get_below lo k [] sp h = refl
  get_below lo k ((s, r) ∷ m) (a, b, c, sp) h =
      ground (arith, a, h, get_below (s + len r) k m sp (omega (arith, a, h)))

  remove_below : (lo k : ℕ) (m : Ranges B P) → Spaced lo m → k < lo → Map.remove m k ≡ m
  unfolding Map.remove
  remove_below lo k [] sp h = refl
  remove_below lo k ((s, r) ∷ m) (a, b, c, sp) h =
      ground (arith, a, h, remove_below (s + len r) k m sp (omega (arith, a, h)))

  remove_first :
      (lo s : ℕ) (r : BlockRangeState B P) (m : Ranges B P)
      → Spaced lo ((s, r) ∷ m)
      → Map.remove ((s, r) ∷ m) s ≡ m
  unfolding Map.remove
  remove_first lo s r m (a, b, c, sp) =
      ground (arith, remove_below (s + len r) s m sp (omega (arith, b)))

  module _ (number : B → ℕ) where
    -- Blocks with consecutive numbers.
    abbrev pub IsRun : ℕ → List (BlockData B P) → Type 0
    IsRun n [] = Unit
    IsRun n (b ∷ bs) = (number b.block ≡ n) × IsRun (n + 1) bs

    -- Each complete range has the blocks of its numbers.
    abbrev pub Stored : Ranges B P → Type 0
    Stored [] = Unit
    Stored ((s, downloading _ _) ∷ m) = Stored m
    Stored ((s, complete bs) ∷ m) = IsRun s bs × Stored m

    IsRun-append :
        (n : ℕ) (xs ys : List (BlockData B P))
        → IsRun n xs
        → IsRun (n + length xs) ys
        → IsRun n (xs ++ ys)
    unfolding length
    IsRun-append n [] ys a b = subst (λ k. IsRun k ys) (omega arith) b
    IsRun-append n (x ∷ xs) ys (a, more) b =
        (a, IsRun-append (n + 1) xs ys more (subst (λ k. IsRun k ys) (omega arith) b))

    -- Complete ranges, with their starts.
    abbrev pub complete_ranges : List (ℕ × List (BlockData B P)) → Ranges B P
    complete_ranges [] = []
    complete_ranges ((s, bs) ∷ taken) = (s, complete bs) ∷ complete_ranges taken

    abbrev pub blocks_in : List (ℕ × List (BlockData B P)) → List (BlockData B P)
    blocks_in [] = []
    blocks_in ((s, bs) ∷ taken) = bs ++ blocks_in taken

    -- The ranges are complete ones, all blocks of which are drained, and then those that are left;
    -- the drained blocks have consecutive numbers, and there is no complete range for the next.
    abbrev pub IsDrained : ℕ → Ranges B P → List (BlockData B P) → Ranges B P → Type 0
    IsDrained from m drained rest =
        ((taken : List (ℕ × List (BlockData B P))) × (m ≡ complete_ranges taken ++ rest)
          × (drained ≡ blocks_in taken))
        × IsRun from drained
        × Spaced (from + length drained) rest
        × ((bs : List (BlockData B P)) → Map.get rest (from + length drained) ≢ some (complete bs))

    stopped-IsDrained :
        (prev : ℕ) (m : Ranges B P)
        → Spaced prev m
        → ((bs : List (BlockData B P)) → Map.get m prev ≢ some (complete bs))
        → IsDrained prev m [] m
    unfolding length
    stopped-IsDrained prev m sp end =
        let here : prev ≡ prev + 0 = omega arith in
        (
          ([], refl, refl),
          tt,
          subst (λ k. Spaced k m) here sp,
          λ bs h. end bs (subst (λ k. Map.get m k ≡ some (complete bs)) (sym here) h),
        )

    more-IsDrained :
        (prev : ℕ) (bs more : List (BlockData B P)) (m rest : Ranges B P)
        → IsRun prev bs
        → IsDrained (prev + length bs) m more rest
        → IsDrained prev ((prev, complete bs) ∷ m) (bs ++ more) rest
    more-IsDrained prev bs more m rest r ((taken, split, all), run, sp, end) =
        let there : prev + length bs + length more ≡ prev + length (bs ++ more) =
          omega (arith, length-append bs more) in
        (
          ((prev, bs) ∷ taken, ap (λ l. (prev, complete bs) ∷ l) split, ap (λ l. bs ++ l) all),
          IsRun-append prev bs more r run,
          subst (λ k. Spaced k rest) there sp,
          λ x h. end x (subst (λ k. Map.get rest k ≡ some (complete x)) (sym there) h),
        )

    drain_loop-IsDrained :
        (prev : ℕ) (m : Ranges B P)
        → Spaced prev m
        → Stored m
        → IsDrained prev m (drain_loop prev m).0 (remove_all (drain_loop prev m).1 m)
    unfolding drain_loop remove_all Map.get len
    drain_loop-IsDrained prev [] sp st =
        stopped-IsDrained prev [] tt (λ bs h. absurd (ground arith))
    drain_loop-IsDrained prev ((s, downloading n k) ∷ m) sp st =
        stopped-IsDrained prev ((s, downloading n k) ∷ m) sp (λ bs h.
          absurd (ground (arith, get_below (s + n) prev m sp.3 (omega (arith, sp.0, sp.1)))))
    drain_loop-IsDrained prev ((s, complete bs) ∷ m) sp st = elim (Bool-cases (leb s prev)) [
      | inl next ↦
          let (more, ks) = drain_loop (s + length bs) m in
          let here : s ≡ prev = ground (arith, next, sp.0) in
          let step : drain_loop prev ((s, complete bs) ∷ m) ≡ (bs ++ more, s ∷ ks) =
            rw (next) refl in
          let left : Map.remove ((s, complete bs) ∷ m) s ≡ m =
            remove_first prev s (complete bs) m sp in
          let after = drain_loop-IsDrained (s + length bs) m sp.3 st.1 in
          subst
            (λ x. IsDrained prev ((s, complete bs) ∷ m) x.0 (remove_all x.1 ((s, complete bs) ∷ m)))
            (sym step)
            (subst (λ x. IsDrained prev ((s, complete bs) ∷ m) (bs ++ more) (remove_all ks x))
              (sym left)
              (subst (λ k. IsDrained k ((s, complete bs) ∷ m) (bs ++ more) (remove_all ks m)) here
                (more-IsDrained s bs more m (remove_all ks m) st.0 after)))
      | inr later ↦
          let step : drain_loop prev ((s, complete bs) ∷ m) ≡ ([], []) = rw (later) refl in
          let none_here =
            get_below s prev ((s, complete bs) ∷ m) (omega arith, sp.1, sp.2, sp.3)
              (ground (arith, later)) in
          subst
            (λ x. IsDrained prev ((s, complete bs) ∷ m) x.0 (remove_all x.1 ((s, complete bs) ∷ m)))
            (sym step)
            (stopped-IsDrained prev ((s, complete bs) ∷ m) sp
              (λ xs h. absurd (ground (arith, none_here))))
    ]

    -- If the ranges start at `from` or later, do not overlap and are not empty, and each complete
    -- one has the blocks of its numbers, then the ranges are some complete ones and then those that
    -- `drain` leaves; it returns all the blocks of the former, which have consecutive numbers from
    -- `from` on in ascending order, and the number after the last drained block has no
    -- complete range: the chain could not have been longer.
    pub drain-IsDrained :
        (from : ℕ) (c : BlockCollection B P)
        → Spaced from c.blocks
        → Stored c.blocks
        → IsDrained from c.blocks (drain from c).1 (drain from c).0.blocks
    unfolding drain
    drain-IsDrained from c sp st = drain_loop-IsDrained from c.blocks sp st
