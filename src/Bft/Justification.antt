-- ===== src/Bft/Justification.antt =====
-- substrate/bft/src/generic/accumulator.rs: justifications and `UncheckedJustification::check`.
-- `check_message`, the closure that recovers the signer of a signature, is a parameter.
pub mod Voters
use polkadot.Prelude.{
  ℕ, ◌+◌, ◌≤◌, ◌≡◌, refl, sym, ap, ◌↔◌, Bool, true, false, Option, none, some, List, [], ◌∷◌, ◌++◌,
  arith, leb, Result, ok, err, if◌then◌else◌, length, Eq, contains, insert, Distinct,
}

pub record UncheckedJustification (D S : Type 0) : Type 0 where
  pub round_number : ℕ
  pub digest : D
  pub signatures : List S

pub record Justification (D S : Type 0) : Type 0 where
  pub unchecked : UncheckedJustification D S

module _ {V S : Type 0} where
  -- Each signature is one of the voter in its place.
  abbrev pub Signed : (S → Option V) → List V → List S → Type 0
  Signed signer [] [] = Unit
  Signed signer (v ∷ vs) (s ∷ ss) = (signer s ≡ some v) × Signed signer vs ss
  Signed signer _ _ = ⊥

module _ {S V : Type 0} ⦃e : Eq V⦄ where
  -- The loop of `checks_out`: the voters seen, unless a signature is invalid or its voter is known.
  collect_voters : (S → Option V) → List S → List V → Option (List V)
  collect_voters signer [] voted = some voted
  collect_voters signer (s ∷ ss) voted = elim (signer s) [
    | none ↦ none
    | some v ↦ if contains voted v then none else collect_voters signer ss (insert voted v)
  ]

  pub check :
      {D : Type 0}
      → UncheckedJustification D S
      → ℕ
      → (ℕ → D → S → Option V)
      → Result (Justification D S) (UncheckedJustification D S)
  unfolding collect_voters
  check j threshold check_message =
      elim (collect_voters (check_message j.round_number j.digest) j.signatures []) [
        | none ↦ err j
        | some voted ↦ if leb threshold (length voted) then ok (record { unchecked = j }) else err j
      ]
