-- ===== src/Prelude/Counting.antt =====
-- Counting elements of lists without repetitions: subsets are no longer, and two large lists of
-- the same population share elements.
use Prim.Native.Nat.{◌+◌, ◌≤◌}
use mathlib.Core.Path.{◌≡◌, refl, subst}
use mathlib.Core.Bool.{true, false}
use mathlib.Core.Logic.{inl, inr}
use mathlib.Core.List.{List, [], ◌∷◌}
use native.Mathlib.Omega.{arith}
use polkadot.Prelude.Tests.{if◌then◌else◌, Bool-cases}
use polkadot.Prelude.Lists.{length, All}
use polkadot.Prelude.Classes.{Eq, ◌==◌, ==_iff, ==_refl}
use polkadot.Prelude.Sets.{contains, without, Distinct, contains-without}

module _ {ℓ} {A : Type ℓ} ⦃e : Eq A⦄ where
  abbrev pub IsSubset : List A → List A → Type ℓ
  IsSubset xs ys = (a : A) → contains xs a ≡ true → contains ys a ≡ true

  length-without_le : (xs : List A) (a : A) → length (without xs a) ≤ length xs
  unfolding without
  length-without_le [] a = omega arith
  length-without_le (x ∷ xs) a = ground (arith, length-without_le xs a)

  length-without :
      (xs : List A) (a : A) → contains xs a ≡ true → length (without xs a) + 1 ≤ length xs
  unfolding contains without
  length-without [] a h = absurd (ground arith)
  length-without (x ∷ xs) a h = ground (arith, length-without_le xs a, length-without xs a)

  IsSubset-tail :
      (x : A) (xs ys : List A)
      → contains xs x ≡ false
      → IsSubset (x ∷ xs) ys
      → IsSubset xs (without ys x)
  unfolding contains
  IsSubset-tail x xs ys h s a k = ground (arith, s a, contains-without ys x a, ==_iff x a)

  -- Different elements of a list are no more than the list is long.
  pub length_le_of_subset : (xs ys : List A) → Distinct xs → IsSubset xs ys → length xs ≤ length ys
  length_le_of_subset [] ys d s = omega arith
  length_le_of_subset (x ∷ xs) ys d s = omega (
    arith,
    length_le_of_subset xs (without ys x) d.1 (IsSubset-tail x xs ys d.0 s),
    length-without ys x (s x (unfold contains in ground (arith, ==_refl x))),
  )

  -- The elements of `xs` that `ys` has too.
  pub common : List A → List A → List A
  common [] ys = []
  common (x ∷ xs) ys = if contains ys x then x ∷ common xs ys else common xs ys

  common-cons : (xs ys : List A) (y : A) → contains xs y ≡ false → common xs (y ∷ ys) ≡ common xs ys
  unfolding common contains
  common-cons [] ys y h = refl
  common-cons (x ∷ xs) ys y h = ground (arith, common-cons xs ys y, ==_iff y x, ==_iff x y)

  -- Two lists of different elements of one population share at least what is too many.
  pub length-common :
      (xs ys us : List A)
      → Distinct xs
      → Distinct ys
      → IsSubset xs us
      → IsSubset ys us
      → length xs + length ys ≤ length us + length (common xs ys)
  unfolding common contains
  length-common [] ys us dx dy sx sy = omega (arith, length_le_of_subset ys us dy sy)
  length-common (x ∷ xs) ys us dx dy sx sy = elim (Bool-cases (contains ys x)) [
    | inl h ↦ ground (arith, length-common xs ys us dx.1 dy (λ a k. sx a (ground arith)) sy)
    | inr h ↦ ground (
      arith,
      length-common xs (x ∷ ys) us dx.1 (h, dy) (λ a k. sx a (ground arith))
          (λ a k. ground (arith, sy a, sx a)),
      common-cons xs ys x dx.0,
    )
  ]

  contains-common :
      (xs ys : List A) (a : A) → contains xs a ≡ false → contains (common xs ys) a ≡ false
  unfolding common contains
  contains-common [] ys a h = refl
  contains-common (x ∷ xs) ys a h = ground (arith, contains-common xs ys a)

  pub common-Distinct : (xs ys : List A) → Distinct xs → Distinct (common xs ys)
  unfolding common
  common-Distinct [] ys d = tt
  common-Distinct (x ∷ xs) ys d = elim (Bool-cases (contains ys x)) [
    | inl h ↦ rw (h, common) (contains-common xs ys x d.0, common-Distinct xs ys d.1)
    | inr h ↦ rw (h, common) (common-Distinct xs ys d.1)
  ]

  pub All_contained {κ} :
      (P : A → Type κ) (xs : List A) (a : A) → All P xs → contains xs a ≡ true → P a
  unfolding contains
  All_contained P [] a h c = absurd (ground arith)
  All_contained P (x ∷ xs) a h c = elim (Bool-cases (x == a)) [
    | inl q ↦ subst P ((==_iff x a).0 q) h.0
    | inr q ↦ All_contained P xs a h.1 (ground arith)
  ]

  -- What holds of all elements on either side holds of the common ones.
  pub common-All {κ} :
      (P Q : A → Type κ) (xs ys : List A)
      → All P xs
      → All Q ys
      → All (λ a. P a × Q a) (common xs ys)
  unfolding common
  common-All P Q [] ys h k = tt
  common-All P Q (x ∷ xs) ys h k = elim (Bool-cases (contains ys x)) [
    | inl c ↦ rw (c, common) ((h.0, All_contained Q ys x k c), common-All P Q xs ys h.1 k)
    | inr c ↦ rw (c, common) (common-All P Q xs ys h.1 k)
  ]
