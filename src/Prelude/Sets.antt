-- ===== src/Prelude/Sets.antt =====
-- `HashSet` as a list without repetitions.
use Prim.Native.Nat.{◌+◌}
use mathlib.Core.Path.{◌≡◌, refl}
use mathlib.Core.Bool.{Bool, true, false, ◌||◌}
use mathlib.Core.List.{List, [], ◌∷◌, ◌++◌}
use native.Mathlib.Omega.{arith}
use polkadot.Prelude.Tests.{if◌then◌else◌}
use polkadot.Prelude.Lists.{length, length-append}
use polkadot.Prelude.Classes.{Eq, ◌==◌, ==_iff, ==_refl}

module _ {ℓ} {A : Type ℓ} ⦃e : Eq A⦄ where
  unfoldable pub contains : List A → A → Bool
  contains [] a = false
  contains (x ∷ xs) a = x == a || contains xs a

  -- `HashSet::insert` adds the value unless it is there.
  unfoldable pub insert : List A → A → List A
  unfolding contains
  insert xs a = if contains xs a then xs else xs ++ a ∷ []

  -- `HashSet::remove`
  unfoldable pub without : List A → A → List A
  without [] a = []
  without (x ∷ xs) a = if x == a then without xs a else x ∷ without xs a

  abbrev pub Distinct : List A → Type 0
  Distinct [] = Unit
  Distinct (x ∷ xs) = (contains xs x ≡ false) × Distinct xs

  pub contains-append :
      (xs ys : List A) (a : A) → contains (xs ++ ys) a ≡ (contains xs a || contains ys a)
  unfolding contains
  contains-append [] ys a = refl
  contains-append (x ∷ xs) ys a = ground (arith, contains-append xs ys a)

  pub contains-insert :
      (xs : List A) (a b : A) → contains (insert xs a) b ≡ (contains xs b || a == b)
  unfolding insert contains
  contains-insert xs a b = ground (arith, contains-append xs (a ∷ []) b, ==_iff a b)

  pub contains-without :
      (xs : List A) (a b : A)
      → contains (without xs a) b ≡ (if a == b then false else contains xs b)
  unfolding contains without
  contains-without [] a b = ground arith
  contains-without (x ∷ xs) a b =
      ground (arith, ==_iff x a, ==_iff x b, ==_iff a b, contains-without xs a b)

  pub Distinct-append_one :
      (xs : List A) (a : A) → contains xs a ≡ false → Distinct xs → Distinct (xs ++ a ∷ [])
  unfolding contains
  Distinct-append_one [] a h d = (refl, tt)
  Distinct-append_one (x ∷ xs) a h d = (
    ground (arith, contains-append xs (a ∷ []) x, ==_iff x a, ==_iff a x),
    Distinct-append_one xs a (ground arith) d.1,
  )

  pub insert-Distinct : (xs : List A) (a : A) → Distinct xs → Distinct (insert xs a)
  unfolding insert
  insert-Distinct xs a d = ground (arith, Distinct-append_one xs a)

  pub length-insert :
      (xs : List A) (a : A)
      → length (insert xs a) ≡ (if contains xs a then length xs else length xs + 1)
  unfolding insert
  length-insert xs a = ground (arith, length-append xs (a ∷ []))

  pub insert_new : (xs : List A) (a : A) → contains xs a ≡ false → insert xs a ≡ xs ++ a ∷ []
  unfolding insert
  insert_new xs a h = rw h

  -- In a list without repetitions no element stands before itself.
  pub Distinct-middle : (xs ys : List A) (a : A) → Distinct (xs ++ a ∷ ys) → contains xs a ≡ false
  unfolding contains
  Distinct-middle [] ys a d = refl
  Distinct-middle (x ∷ xs) ys a d =
      ground
        (arith, contains-append xs (a ∷ ys) x, ==_iff x a, ==_iff a x, Distinct-middle xs ys a d.1)

  pub insert_known : (xs : List A) (a : A) → contains xs a ≡ true → insert xs a ≡ xs
  unfolding insert
  insert_known xs a h = rw h

  pub insert-insert : (xs : List A) (a : A) → insert (insert xs a) a ≡ insert xs a
  insert-insert xs a =
      insert_known (insert xs a) a (ground (arith, contains-insert xs a a, ==_refl a))
