-- ===== src/StateMachine/Overlay/Tests.antt =====
-- Keys and values are numbers.
use polkadot.Prelude.{ℕ, ◌≡◌, refl, Option, none, some, List, [], ◌∷◌, nat_eq}
use polkadot.Prelude.Map
use polkadot.StateMachine.Overlay.{
  OverlayedChanges, storage, set_storage, extend, commit_prospective, discard_prospective, drain,
}
use polkadot.StateMachine.Overlay.Transactions.{set_all, last_set, storage-transaction}

abbrev base : OverlayedChanges ℕ ℕ
base = record { prospective = []; committed = (1, some 10) ∷ (2, none) ∷ [] }

abbrev changes : List (ℕ × Option ℕ)
changes = (1, some 11) ∷ (3, some 30) ∷ (1, none) ∷ []

committed_one : storage (commit_prospective (set_all changes base)) 1 ≡ some none
unfolding storage set_storage extend commit_prospective set_all Map.get Map.insert
committed_one = refl

storage-transaction_example :
    (storage (discard_prospective (set_all changes base)) 1 ≡ storage base 1)
    × (Map.get (drain (commit_prospective (set_all changes base))).1 1
        ≡ last_set changes 1 (storage base 1))
    × (storage (discard_prospective (commit_prospective (set_all changes base))) 1
        ≡ last_set changes 1 (storage base 1))
storage-transaction_example = storage-transaction changes base 1 refl
