-- ===== src/Consensus/Includable/Tracking.antt =====
-- polkadot/consensus/src/shared_table/includable.rs: the count of includable candidates, and
-- `try_complete`.
use polkadot.Prelude.{
  ◌≡◌, ◌↔◌, ◌⊎◌, refl, Bool, true, some, List, [], ◌∷◌, arith, length, Eq, nat_eq, ◌==◌, ==_iff,
  ==_refl, inl, inr, Bool-cases, Distinct,
}
use polkadot.Prelude.Map
use polkadot.Prelude.Map.{Map}
use polkadot.Consensus.Includable.{IncludabilitySender, try_complete, is_complete, collect}

module _ {H : Type 0} ⦃e : Eq H⦄ where
  abbrev pub AllIncludable : Map H Bool → Type 0
  AllIncludable m = (h : H) (b : Bool) → Map.get m h ≡ some b → b ≡ true

  AllIncludable-tail :
      (m : Map H Bool) (i : H) (w : Bool)
      → Distinct (Map.keys ((i, w) ∷ m))
      → AllIncludable ((i, w) ∷ m)
      → AllIncludable m
  unfolding Map.get Map.keys Map.contains_key
  AllIncludable-tail m i w d all h b g =
      all h b (ground (arith, d.0, Map.contains-keys m i, ==_iff i h))

  -- All entries are counted exactly if all candidates are includable.
  count_values-AllIncludable :
      (m : Map H Bool)
      → Distinct (Map.keys m)
      → (Map.count_values (λ b. b) m ≡ length m) ↔ AllIncludable m
  unfolding Map.get Map.keys Map.count_values length
  count_values-AllIncludable [] d = (λ _ h b g. absurd (ground arith), λ _. refl)
  count_values-AllIncludable ((i, w) ∷ m) d =
      let rest = count_values-AllIncludable m d.1 in
      let most = Map.count_values-le (λ b. b) m in
      (
        λ q h b g. elim (Bool-cases (i == h)) [
          | inl same ↦ ground (arith, most)
          | inr other ↦ rest.0 (ground arith) h b (ground arith)
        ],
        λ all.
            let here = all i w (ground (arith, ==_refl i)) in
            let there = rest.1 (AllIncludable-tail m i w d all) in ground arith,
      )

  pub record IsTracking (s : IncludabilitySender H) : Type 0 where
    pub distinct : Distinct (Map.keys s.tracking)
    pub counted : s.includable_count ≡ Map.count_values (λ b. b) s.tracking
    pub completed : AllIncludable s.tracking → is_complete s ≡ true

  pub record IsCounted (s : IncludabilitySender H) : Type 0 where
    pub distinct : Distinct (Map.keys s.tracking)
    pub counted : s.includable_count ≡ Map.count_values (λ b. b) s.tracking

  pub try_complete-true :
      (s : IncludabilitySender H)
      → IsCounted s
      → ((try_complete s).1 ≡ true) ↔ AllIncludable s.tracking
  unfolding try_complete
  try_complete-true s k =
      let (to, from) = count_values-AllIncludable s.tracking k.distinct in
      (λ q. to (ground (arith, k.counted)), λ all. ground (arith, k.counted, from all))

  pub try_complete-tracking : (s : IncludabilitySender H) → (try_complete s).0.tracking ≡ s.tracking
  unfolding try_complete
  try_complete-tracking s = ground arith

  try_complete-includable_count :
      (s : IncludabilitySender H) → (try_complete s).0.includable_count ≡ s.includable_count
  unfolding try_complete
  try_complete-includable_count s = ground arith

  pub try_complete-is_complete :
      (s : IncludabilitySender H)
      → IsCounted s
      → (is_complete (try_complete s).0 ≡ true)
        ↔ ((is_complete s ≡ true) ⊎ AllIncludable s.tracking)
  unfolding try_complete is_complete
  try_complete-is_complete s k = elim (Bool-cases (try_complete s).1) [
    | inl q ↦ (λ _. inr ((try_complete-true s k).0 q), λ _. ground arith)
    | inr q ↦ (
      λ c. inl (ground arith),
      λ h. elim h [
        | inl c ↦ ground arith
        | inr all ↦ ground (arith, (try_complete-true s k).1 all)
      ],
    )
  ]

  pub try_complete-IsTracking :
      (s : IncludabilitySender H) → IsCounted s → IsTracking (try_complete s).0
  try_complete-IsTracking s k = record {
    distinct = rw (try_complete-tracking s) k.distinct;
    counted = rw (try_complete-tracking s, try_complete-includable_count s) k.counted;
    completed = λ all. (try_complete-is_complete s k).1 (inr (rw (try_complete-tracking s) at all));
  }

  pub collect-Distinct :
      (cs : List (H × Bool)) (m : Map H Bool)
      → Distinct (Map.keys m)
      → Distinct (Map.keys (collect cs m))
  unfolding collect
  collect-Distinct [] m d = d
  collect-Distinct ((h, b) ∷ cs) m d =
      collect-Distinct cs (Map.insert m h b) (Map.insert-Distinct m h b d)
