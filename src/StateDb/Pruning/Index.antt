-- ===== src/StateDb/Pruning/Index.antt =====
-- substrate/state-db/src/pruning.rs: the index of deleted keys and the rows that hold them.
use polkadot.Prelude.{
  ℕ, zero, suc, ◌+◌, ◌-◌, ◌≤◌, ◌<◌, ◌≡◌, ◌∙◌, refl, inl, inr, Bool, false, Option, none, some, List,
  [], ◌∷◌, arith, Eq, ◌==◌, ==_iff, nat_eq, contains, without, contains-without, Option-cases,
}
use polkadot.Prelude.Map
use polkadot.Prelude.Map.{Map}
use polkadot.StateDb.Pruning.{DeathRow, RefWindow, remove_from_row, revive, revive_all}
use polkadot.StateDb.Pruning.Window.{Removed-none, Removed, Removed-trans}

abbrev pub points : Option ℕ → ℕ → Bool
points none n = false
points (some b) n = b == n

points_low : (o : Option ℕ) (n : ℕ) → ((b : ℕ) → o ≡ some b → b < n) → points o n ≡ false
points_low none n low = refl
points_low (some b) n low = ground (arith, low b refl)

module _ {H K : Type 0} ⦃eK : Eq K⦄ where
  -- The index has the number of the row that holds a key, for the rows from a number on.
  abbrev pub Indexed : Map K ℕ → ℕ → List (DeathRow H K) → Type 0
  Indexed index n [] = (k : K) (b : ℕ) → Map.get index k ≡ some b → b < n
  Indexed index n (r ∷ rows) =
      ((k : K) → contains r.deleted k ≡ points (Map.get index k) n) × Indexed index (n + 1) rows

  -- The index is exact.
  pub record IsExact (w : RefWindow H K) : Type 0 where
    pub indexed : Indexed w.death_index w.pending_number w.death_rows
    pub pending : (k : K) (b : ℕ) → Map.get w.death_index k ≡ some b → w.pending_number ≤ b

  -- A key that the index does not place in the rows is in none of them.
  untouched :
      (k : K) (index : Map K ℕ) (n : ℕ) (rows : List (DeathRow H K))
      → Indexed index n rows
      → ((b : ℕ) → Map.get index k ≡ some b → b < n)
      → Removed (λ j. k == j) rows rows
  untouched k index n [] x low = tt
  untouched k index n (r ∷ rows) (x, xs) low = (
    λ j. ground (arith, x k, ==_iff k j, points_low (Map.get index k) n low),
    refl,
    untouched k index (n + 1) rows xs (λ b q. omega (arith, low b q)),
  )

  remove_from_row-Removed :
      (k : K) (i n : ℕ) (index : Map K ℕ) (rows : List (DeathRow H K))
      → Indexed index n rows
      → Map.get index k ≡ some (n + i)
      → (rows' : List (DeathRow H K)) × (remove_from_row i k rows ≡ some rows')
        × Removed (λ j. k == j) rows rows'
  unfolding remove_from_row
  remove_from_row-Removed k i n index [] x at = absurd (omega (arith, x k (n + i) at))
  remove_from_row-Removed k zero n index (r ∷ rows) (x, xs) at = (
    record r { deleted = without r.deleted k } ∷ rows,
    refl,
    (
      λ j. ground (arith, contains-without r.deleted k j),
      refl,
      untouched k index (n + 1) rows xs (λ b q. ground (arith, q, at)),
    ),
  )
  remove_from_row-Removed k (suc i) n index (r ∷ rows) (x, xs) at =
      let later : Map.get index k ≡ some (n + 1 + i) = ground (arith, at) in
      let (rows', found, removed) = remove_from_row-Removed k i (n + 1) index rows xs later in
      (r ∷ rows', rw found refl, (λ j. ground (arith, x k, x j, at, ==_iff k j), refl, removed))

  Indexed-remove :
      (k : K) (index : Map K ℕ) (n : ℕ) (rows rows' : List (DeathRow H K))
      → Indexed index n rows
      → Removed (λ j. k == j) rows rows'
      → Indexed (Map.remove index k) n rows'
  Indexed-remove k index n [] [] x p = λ j b q. ground (arith, q, Map.get-remove index k j, x j b)
  Indexed-remove k index n [] (_ ∷ _) x p = absurd p
  Indexed-remove k index n (_ ∷ _) [] x p = absurd p
  Indexed-remove k index n (r ∷ rows) (r' ∷ rows') (x, xs) (p, _, ps) = (
    λ j. ground (arith, x j, p j, Map.get-remove index k j),
    Indexed-remove k index (n + 1) rows rows' xs ps,
  )

  -- What the loop over the inserted keys leaves: the same rows without them.
  abbrev pub Revived : (K → Bool) → RefWindow H K → RefWindow H K → Type 0
  Revived gone w w' =
      IsExact w' × (w'.pending_number ≡ w.pending_number) × Removed gone w.death_rows w'.death_rows

  revive_found :
      (k : K) (b : ℕ) (w : RefWindow H K) (rows : List (DeathRow H K))
      → Map.get w.death_index k ≡ some b
      → remove_from_row (b - w.pending_number) k w.death_rows ≡ some rows
      → revive k w ≡ some (record w { death_rows = rows; death_index = Map.remove w.death_index k })
  unfolding revive
  revive_found k b w rows q found = ground (arith, q, found)

  revive_all_cons :
      (k : K) (ks : List K) (w w' : RefWindow H K)
      → revive k w ≡ some w'
      → revive_all (k ∷ ks) w ≡ revive_all ks w'
  unfolding revive_all
  revive_all_cons k ks w w' found = ground (arith, found)

  revive-Revived :
      (k : K) (w : RefWindow H K)
      → IsExact w
      → (w' : RefWindow H K) × (revive k w ≡ some w') × Revived (λ j. k == j) w w'
  unfolding revive
  revive-Revived k w x = elim (Option-cases (Map.get w.death_index k)) [
    | inl q ↦ (
      w,
      ground (arith, q),
      (
        x,
        refl,
        untouched k w.death_index w.pending_number w.death_rows x.indexed
            (λ b q'. absurd (ground (arith, q, q'))),
      ),
    )
    | inr (b, q) ↦
        let (rows, found, removed) =
          remove_from_row-Removed k (b - w.pending_number) w.pending_number w.death_index
            w.death_rows x.indexed (ground (arith, q, x.pending k b q)) in
        (
          record w { death_rows = rows; death_index = Map.remove w.death_index k },
          revive_found k b w rows q found,
          (
            record {
              indexed =
                  Indexed-remove k w.death_index w.pending_number w.death_rows rows x.indexed
                    removed;
              pending =
                  λ j b' q'. ground (arith, q', Map.get-remove w.death_index k j, x.pending j b');
            },
            refl,
            removed,
          ),
        )
  ]

  pub revive_all-Revived :
      (ks : List K) (w : RefWindow H K)
      → IsExact w
      → (w' : RefWindow H K) × (revive_all ks w ≡ some w') × Revived (contains ks) w w'
  unfolding revive_all contains
  revive_all-Revived [] w x = (w, refl, (x, refl, Removed-none w.death_rows))
  revive_all-Revived (k ∷ ks) w x =
      let (w₁, found₁, (x₁, same₁, removed₁)) = revive-Revived k w x in
      let (w₂, found₂, (x₂, same₂, removed₂)) = revive_all-Revived ks w₁ x₁ in
      (
        w₂,
        revive_all_cons k ks w w₁ found₁ ∙ found₂,
        (
          x₂,
          same₂ ∙ same₁,
          Removed-trans _ _ _ w.death_rows w₁.death_rows w₂.death_rows (λ j. refl) removed₁
              removed₂,
        ),
      )
