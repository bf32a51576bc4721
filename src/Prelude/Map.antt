-- ===== src/Prelude/Map.antt =====
-- `HashMap` as an association list. Iteration goes through the entries in the order of their
-- first insertion, which stands for the arbitrary order of the source.
use Prim.Native.Nat.{ℕ, ◌≤◌, ◌+◌}
use mathlib.Core.Path.{◌≡◌, refl}
use mathlib.Core.Bool.{Bool, true, false}
use mathlib.Core.Option.{Option, none, some}
use mathlib.Core.List.{List, [], ◌∷◌, ◌++◌}
use native.Mathlib.Omega.{arith}
use polkadot.Prelude.Tests.{if◌then◌else◌}
use polkadot.Prelude.Lists.{length, All, All-map}
use polkadot.Prelude.Classes.{Eq, ◌==◌, ==_iff, ==_refl}
use polkadot.Prelude.Sets.{contains, Distinct, Distinct-append_one}

abbrev pub Map {ℓ κ} : Type ℓ → Type κ → Type (ℓ ⊔ κ)
Map K V = List (K × V)

module _ {ℓ κ} {K : Type ℓ} {V : Type κ} where
  unfoldable pub keys : Map K V → List K
  keys [] = []
  keys ((k, v) ∷ m) = k ∷ keys m

  unfoldable pub values : Map K V → List V
  values [] = []
  values ((k, v) ∷ m) = v ∷ values m

  -- How many entries have a value that passes a test.
  unfoldable pub count_values : (V → Bool) → Map K V → ℕ
  count_values p [] = 0
  count_values p ((k, v) ∷ m) = if p v then count_values p m + 1 else count_values p m

module _ {ℓ κ} {K : Type ℓ} {V : Type κ} ⦃e : Eq K⦄ where
  unfoldable pub get : Map K V → K → Option V
  get [] k = none
  get ((j, v) ∷ m) k = if j == k then some v else get m k

  -- `HashMap::insert` and a write through an entry: an old value is replaced.
  unfoldable pub insert : Map K V → K → V → Map K V
  insert [] k v = (k, v) ∷ []
  insert ((j, w) ∷ m) k v = if j == k then (j, v) ∷ m else (j, w) ∷ insert m k v

  unfoldable pub remove : Map K V → K → Map K V
  remove [] k = []
  remove ((j, w) ∷ m) k = if j == k then remove m k else (j, w) ∷ remove m k

  unfoldable pub contains_key : Map K V → K → Bool
  unfolding get
  contains_key m k = elim (get m k) [ none ↦ false | some v ↦ true ]

  pub get-insert :
      (m : Map K V) (k j : K) (v : V) → get (insert m k v) j ≡ (if k == j then some v else get m j)
  unfolding get insert
  get-insert [] k j v = refl
  get-insert ((i, w) ∷ m) k j v =
      ground (arith, ==_iff i k, ==_iff i j, ==_iff k j, get-insert m k j v)

  pub get-insert_self : (m : Map K V) (k : K) (v : V) → get (insert m k v) k ≡ some v
  get-insert_self m k v = ground (arith, get-insert m k k v, ==_refl k)

  pub get-remove : (m : Map K V) (k j : K) → get (remove m k) j ≡ (if k == j then none else get m j)
  unfolding get remove
  get-remove [] k j = ground arith
  get-remove ((i, w) ∷ m) k j = ground (arith, ==_iff i k, ==_iff i j, ==_iff k j, get-remove m k j)

  -- Writing an absent key adds one entry at the end.
  pub insert_vacant :
      (m : Map K V) (k : K) (v : V) → get m k ≡ none → insert m k v ≡ m ++ (k, v) ∷ []
  unfolding get insert
  insert_vacant [] k v h = refl
  insert_vacant ((i, w) ∷ m) k v h = ground (arith, insert_vacant m k v)

  pub length-insert :
      (m : Map K V) (k : K) (v : V)
      → length (insert m k v) ≡ (if contains_key m k then length m else length m + 1)
  unfolding contains_key insert get
  length-insert [] k v = omega arith
  length-insert ((i, w) ∷ m) k v = ground (arith, length-insert m k v)

  pub contains-keys : (m : Map K V) (k : K) → contains (keys m) k ≡ contains_key m k
  unfolding contains keys contains_key
  contains-keys [] k = refl
  contains-keys ((i, w) ∷ m) k = ground (arith, contains-keys m k)

  pub keys-insert :
      (m : Map K V) (k : K) (v : V)
      → keys (insert m k v) ≡ (if contains_key m k then keys m else keys m ++ k ∷ [])
  unfolding keys insert contains_key get
  keys-insert [] k v = refl
  keys-insert ((i, w) ∷ m) k v = ground (arith, keys-insert m k v)

  pub insert-Distinct :
      (m : Map K V) (k : K) (v : V) → Distinct (keys m) → Distinct (keys (insert m k v))
  insert-Distinct m k v d =
      ground (arith, keys-insert m k v, contains-keys m k, Distinct-append_one (keys m) k)

  abbrev pub Entries : Map K V → Map K V → Type κ
  Entries n m = All (λ (k, v). get n k ≡ some v) m

  get_cons_ne :
      (m : Map K V) (i j : K) (w v : V)
      → contains (keys m) i ≡ false
      → get m j ≡ some v
      → get ((i, w) ∷ m) j ≡ some v
  unfolding get contains_key
  get_cons_ne m i j w v h g = ground (arith, contains-keys m i, ==_iff i j)

  -- Every entry of a map with distinct keys is what `get` finds.
  pub get_of_Entries : (m : Map K V) → Distinct (keys m) → Entries m m
  unfolding get keys
  get_of_Entries [] d = tt
  get_of_Entries ((i, w) ∷ m) d = (
    ground (arith, ==_refl i),
    All-map m (λ (j, v) g. get_cons_ne m i j w v d.0 g) (get_of_Entries m d.1),
  )

  pub count_values-insert :
      (p : V → Bool) (m : Map K V) (k : K) (v : V)
      → get m k ≡ none
      → count_values p (insert m k v) ≡ count_values p m + (if p v then 1 else 0)
  unfolding count_values insert get
  count_values-insert p [] k v h = ground arith
  count_values-insert p ((i, w) ∷ m) k v h = ground (arith, count_values-insert p m k v)

  pub count_values-replace :
      (p : V → Bool) (m : Map K V) (k : K) (v w : V)
      → get m k ≡ some w
      → count_values p (insert m k v) + (if p w then 1 else 0)
        ≡ count_values p m + (if p v then 1 else 0)
  unfolding count_values insert get
  count_values-replace p [] k v w h = absurd (ground arith)
  count_values-replace p ((i, u) ∷ m) k v w h = ground (arith, count_values-replace p m k v w)

  pub count_values-le : (p : V → Bool) (m : Map K V) → count_values p m ≤ length m
  unfolding count_values
  count_values-le p [] = omega arith
  count_values-le p ((i, u) ∷ m) = ground (arith, count_values-le p m)
