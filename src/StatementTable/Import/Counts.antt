-- ===== src/StatementTable/Import/Counts.antt =====
-- polkadot/statement-table/src/generic.rs: `update_includable_count`.
use polkadot.Prelude.{
  ℕ, ◌+◌, ◌-◌, ◌≡◌, ap, inl, inr, Option-cases, Bool-cases, Bool, true, false, none, some, arith,
  Eq, nat_eq, ◌==◌, ==_iff, if◌then◌else◌,
}
use polkadot.Prelude.Map
use polkadot.Prelude.Map.{Map}
use polkadot.StatementTable.Import.{less_includable, more_includable, update_includable_count}

module _ {G : Type 0} ⦃eG : Eq G⦄ where
  -- The map holds the numbers `f`, and no entry for zero.
  abbrev pub Tracks : Map G ℕ → (G → ℕ) → Type 0
  Tracks counts f = (g : G) → Map.get counts g ≡ (if f g == 0 then none else some (f g))

  less_includable-Tracks :
      (counts : Map G ℕ) (g : G) (f f' : G → ℕ)
      → Tracks counts f
      → ((h : G) → (g == h) ≡ false → f' h ≡ f h)
      → f' g + 1 ≡ f g
      → Tracks (less_includable counts g) f'
  unfolding less_includable
  less_includable-Tracks counts g f f' t others here h = elim (Option-cases (Map.get counts g)) [
    | inl q ↦ absurd (ground (arith, t g))
    | inr (n, q) ↦ elim (Bool-cases (g == h)) [
      | inl same ↦
          let e : g ≡ h = (==_iff g h).0 same in
          rw (q, less_includable)
            (ground (
              arith,
              t g,
              ap f e,
              ap f' e,
              Map.get-remove counts g h,
              Map.get-insert counts g h (n - 1),
            ))
      | inr other ↦
          rw (q, less_includable)
            (ground (
              arith,
              t g,
              t h,
              others h other,
              Map.get-remove counts g h,
              Map.get-insert counts g h (n - 1),
            ))
    ]
  ]

  more_includable-Tracks :
      (counts : Map G ℕ) (g : G) (f f' : G → ℕ)
      → Tracks counts f
      → ((h : G) → (g == h) ≡ false → f' h ≡ f h)
      → f' g ≡ f g + 1
      → Tracks (more_includable counts g) f'
  unfolding more_includable
  more_includable-Tracks counts g f f' t others here h =
      let next : ℕ = elim (Map.get counts g) [ none ↦ 1 | some n ↦ n + 1 ] in
      elim (Bool-cases (g == h)) [
        | inl same ↦
            let e : g ≡ h = (==_iff g h).0 same in
            ground (arith, t g, ap f e, ap f' e, Map.get-insert counts g h next)
        | inr other ↦ ground (arith, t h, others h other, Map.get-insert counts g h next)
      ]

  -- Numbers that did not change are still tracked.
  Tracks-same :
      (counts : Map G ℕ) (g : G) (f f' : G → ℕ)
      → Tracks counts f
      → ((h : G) → (g == h) ≡ false → f' h ≡ f h)
      → f' g ≡ f g
      → Tracks counts f'
  Tracks-same counts g f f' t others here h = elim (Bool-cases (g == h)) [
    | inl same ↦ let e : g ≡ h = (==_iff g h).0 same in ground (arith, t h, ap f e, ap f' e)
    | inr other ↦ ground (arith, t h, others h other)
  ]

  pub update_includable_count-Tracks :
      (counts : Map G ℕ) (g : G) (was is : Bool) (f f' : G → ℕ)
      → Tracks counts f
      → ((h : G) → (g == h) ≡ false → f' h ≡ f h)
      → f' g + (if was then 1 else 0) ≡ f g + (if is then 1 else 0)
      → Tracks (update_includable_count counts g was is) f'
  unfolding update_includable_count
  update_includable_count-Tracks counts g true true f f' t others here =
      Tracks-same counts g f f' t others (omega arith)
  update_includable_count-Tracks counts g true false f f' t others here =
      less_includable-Tracks counts g f f' t others (omega arith)
  update_includable_count-Tracks counts g false true f f' t others here =
      more_includable-Tracks counts g f f' t others (omega arith)
  update_includable_count-Tracks counts g false false f f' t others here =
      Tracks-same counts g f f' t others (omega arith)
