-- ===== src/StateDb/Pruning/Entries.antt =====
-- substrate/state-db/src/pruning.rs: the index as rows are added and dropped.
use polkadot.Prelude.{
  ℕ, ◌+◌, ◌<◌, ◌≡◌, ◌∙◌, refl, inl, inr, Bool, true, none, some, List, [], ◌∷◌, ◌++◌, length, arith,
  Eq, ==_iff, nat_eq, contains, contains-insert, if◌then◌else◌, Option-cases, Bool-cases,
}
use polkadot.Prelude.Map
use polkadot.Prelude.Map.{Map}
use polkadot.StateDb.Pruning.{DeathRow, index_all, unindex_all, collect_deleted}
use polkadot.StateDb.Pruning.Window.{Absent}
use polkadot.StateDb.Pruning.Index.{Indexed}

module _ {K : Type 0} ⦃eK : Eq K⦄ where
  pub get-index_all :
      (ks : List K) (n : ℕ) (m : Map K ℕ) (k : K)
      → Map.get (index_all ks n m) k ≡ (if contains ks k then some n else Map.get m k)
  unfolding index_all contains
  get-index_all [] n m k = refl
  get-index_all (j ∷ ks) n m k =
      ground (arith, get-index_all ks n (Map.insert m j n) k, Map.get-insert m j k n, ==_iff j k)

  pub get-unindex_all :
      (ks : List K) (m : Map K ℕ) (k : K)
      → Map.get (unindex_all ks m) k ≡ (if contains ks k then none else Map.get m k)
  unfolding unindex_all contains
  get-unindex_all [] m k = refl
  get-unindex_all (j ∷ ks) m k =
      ground (arith, get-unindex_all ks (Map.remove m j) k, Map.get-remove m j k, ==_iff j k)

  pub contains-collect_deleted :
      (ks : List K) (k : K) → contains (collect_deleted ks) k ≡ contains ks k
  unfolding collect_deleted contains
  contains-collect_deleted [] k = refl
  contains-collect_deleted (j ∷ ks) k =
      ground (arith, contains-insert (collect_deleted ks) j k, contains-collect_deleted ks k)

module _ {H K : Type 0} ⦃eK : Eq K⦄ where
  pub Indexed-extend :
      (del : K → Bool) (old new : Map K ℕ) (n : ℕ) (rows : List (DeathRow H K)) (row : DeathRow H K)
      → Indexed old n rows
      → ((k : K) → del k ≡ true → Absent k rows)
      → ((k : K) → Map.get new k ≡ (if del k then some (n + length rows) else Map.get old k))
      → ((k : K) → contains row.deleted k ≡ del k)
      → Indexed new n (rows ++ row ∷ [])
  Indexed-extend del old new n [] row x fresh get_new same = (
    λ k. elim (Bool-cases (del k)) [
      | inl d ↦ ground (arith, d, get_new k, same k)
      | inr d ↦ elim (Option-cases (Map.get old k)) [
        | inl q ↦ ground (arith, d, get_new k, same k, q)
        | inr (b, q) ↦ ground (arith, d, get_new k, same k, q, x k b)
      ]
    ],
    λ k b q. elim (Bool-cases (del k)) [
      | inl d ↦ ground (arith, d, get_new k, q)
      | inr d ↦ ground (arith, d, get_new k, q, x k b)
    ],
  )
  Indexed-extend del old new n (r ∷ rows) row (x, xs) fresh get_new same =
      let shift : n + length (r ∷ rows) ≡ n + 1 + length rows = omega arith in
      (
        λ k. elim (Bool-cases (del k)) [
          | inl d ↦ ground (arith, d, get_new k, (fresh k d).0, shift)
          | inr d ↦ ground (arith, d, get_new k, x k)
        ],
        Indexed-extend del old new (n + 1) rows row xs (λ k d. (fresh k d).1)
            (λ k. get_new k ∙ rw shift refl) same,
      )

  pub Indexed-forget :
      (gone : K → Bool) (old new : Map K ℕ) (n : ℕ) (rows : List (DeathRow H K))
      → Indexed old n rows
      → ((k : K) → Map.get new k ≡ (if gone k then none else Map.get old k))
      → ((k : K) (b : ℕ) → gone k ≡ true → Map.get old k ≡ some b → b < n)
      → Indexed new n rows
  Indexed-forget gone old new n [] x get_new low = λ k b q. ground (arith, q, get_new k, x k b)
  Indexed-forget gone old new n (r ∷ rows) (x, xs) get_new low = (
    λ k. elim (Bool-cases (gone k)) [
      | inr d ↦ ground (arith, d, get_new k, x k)
      | inl d ↦ elim (Option-cases (Map.get old k)) [
        | inl q ↦ ground (arith, d, get_new k, x k, q)
        | inr (b, q) ↦ ground (arith, d, get_new k, x k, q, low k b)
      ]
    ],
    Indexed-forget gone old new (n + 1) rows xs get_new (λ k b d q. omega (arith, low k b d q)),
  )
