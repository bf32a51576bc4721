-- ===== src/StateMachine/Overlay/Transactions.antt =====
-- Transactions on the overlay: changes, and then a commit or a discard.
use polkadot.Prelude.{
  ◌≡◌, ◌∙◌, ap, refl, sym, Option, none, some, List, [], ◌∷◌, arith, Eq, ◌==◌, ==_iff,
  if◌then◌else◌, Bool-cases, Option-cases, inl, inr, Distinct,
}
use polkadot.Prelude.Map
use polkadot.Prelude.Map.{Map}
use polkadot.StateMachine.Overlay.{
  OverlayedChanges, storage, set_storage, extend, commit_prospective, discard_prospective, drain,
}

module _ {K V : Type 0} ⦃e : Eq K⦄ where
  get-extend :
      (m changes : Map K (Option V)) (key : K)
      → Distinct (Map.keys changes)
      → Map.get (extend m changes) key ≡ elim (Map.get changes key) as (λ _. Option (Option V)) [
        | some v ↦ some v
        | none ↦ Map.get m key
      ]
  unfolding extend Map.get Map.keys Map.contains_key
  get-extend m [] key d = refl
  get-extend m ((k, v) ∷ changes) key d = ground (
    arith,
    get-extend (Map.insert m k v) changes key d.1,
    Map.get-insert m k key v,
    Map.contains-keys changes k,
    ==_iff k key,
  )

  unfoldable pub set_all : List (K × Option V) → OverlayedChanges K V → OverlayedChanges K V
  set_all [] c = c
  set_all ((k, v) ∷ sets) c = set_all sets (set_storage k v c)

  -- The last value that is set for a key.
  pub last_set : List (K × Option V) → K → Option (Option V) → Option (Option V)
  last_set [] key old = old
  last_set ((k, v) ∷ sets) key old = last_set sets key (if k == key then some v else old)

  storage-set_storage :
      (k key : K) (v : Option V) (c : OverlayedChanges K V)
      → storage (set_storage k v c) key ≡ (if k == key then some v else storage c key)
  unfolding storage set_storage
  storage-set_storage k key v c = elim (Bool-cases (k == key)) [
    | inl q ↦ rw (storage, set_storage, Map.get-insert c.prospective k key v, q) refl
    | inr q ↦ rw (storage, set_storage, Map.get-insert c.prospective k key v, q) refl
  ]

  storage-set_all :
      (sets : List (K × Option V)) (c : OverlayedChanges K V) (key : K)
      → storage (set_all sets c) key ≡ last_set sets key (storage c key)
  unfolding set_all last_set
  storage-set_all [] c key = refl
  storage-set_all ((k, v) ∷ sets) c key =
      storage-set_all sets (set_storage k v c) key
      ∙ ap (last_set sets key) (storage-set_storage k key v c)

  set_all-Distinct :
      (sets : List (K × Option V)) (c : OverlayedChanges K V)
      → Distinct (Map.keys c.prospective)
      → Distinct (Map.keys (set_all sets c).prospective)
  unfolding set_all set_storage
  set_all-Distinct [] c d = d
  set_all-Distinct ((k, v) ∷ sets) c d =
      set_all-Distinct sets (set_storage k v c) (Map.insert-Distinct c.prospective k v d)

  set_all-committed :
      (sets : List (K × Option V)) (c : OverlayedChanges K V)
      → (set_all sets c).committed ≡ c.committed
  unfolding set_all set_storage
  set_all-committed [] c = refl
  set_all-committed ((k, v) ∷ sets) c = set_all-committed sets (set_storage k v c)

  committed_storage :
      (p committed : Map K (Option V)) (key : K)
      → Distinct (Map.keys p)
      → Map.get
          (commit_prospective (record { prospective = p; committed = committed })).committed
          key
        ≡ storage (record { prospective = p; committed = committed }) key
  unfolding commit_prospective storage Map.get
  committed_storage p [] key d = elim (Option-cases (Map.get p key)) [
    | inl q ↦ rw (q, storage) refl
    | inr (v, q) ↦ rw (q, storage) refl
  ]
  committed_storage p (x ∷ committed) key d = get-extend (x ∷ committed) p key d

  commit_prospective-prospective :
      (c : OverlayedChanges K V) → (commit_prospective c).prospective ≡ []
  unfolding commit_prospective
  commit_prospective-prospective c = commit_of c.committed
    where
      commit_of :
          (m : Map K (Option V))
          → (commit_prospective (record { prospective = c.prospective; committed = m })).prospective
            ≡ []
      commit_of [] = refl
      commit_of (x ∷ m) = refl

  storage_none :
      (c : OverlayedChanges K V) (key : K)
      → c.prospective ≡ []
      → storage c key ≡ Map.get c.committed key
  unfolding storage Map.get
  storage_none c key h = rw (h) refl

  -- On an overlay with no prospective changes, whatever values are then set: a discard brings back
  -- what the overlay held for each key; after a commit, `drain` gives for each key the last value
  -- that was set for it, or what it held before; and a discard after the commit does not undo it.
  pub storage-transaction :
      (sets : List (K × Option V)) (c : OverlayedChanges K V) (key : K)
      → c.prospective ≡ []
      → (storage (discard_prospective (set_all sets c)) key ≡ storage c key)
        × (Map.get (drain (commit_prospective (set_all sets c))).1 key
            ≡ last_set sets key (storage c key))
        × (storage (discard_prospective (commit_prospective (set_all sets c))) key
            ≡ last_set sets key (storage c key))
  unfolding discard_prospective drain
  storage-transaction sets c key empty =
      let after = set_all sets c in
      let distinct : Distinct (Map.keys c.prospective) = rw (empty) (unfold Map.keys in tt) in
      let kept : Map.get (commit_prospective after).committed key
          ≡ last_set sets key (storage c key) =
        committed_storage after.prospective after.committed key (set_all-Distinct sets c distinct)
        ∙ storage-set_all sets c key in
      (
        storage_none (discard_prospective after) key refl
            ∙ ap (λ m. Map.get m key) (set_all-committed sets c)
            ∙ sym (storage_none c key empty),
        kept,
        storage_none (discard_prospective (commit_prospective after)) key refl ∙ kept,
      )
