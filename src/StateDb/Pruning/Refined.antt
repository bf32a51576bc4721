-- ===== src/StateDb/Pruning/Refined.antt =====
-- substrate/state-db/src/pruning.rs: `note_finalized` and `prune_one` on a window of blocks.
use polkadot.Prelude.{
  ℕ, ◌+◌, ◌≤◌, ◌≡◌, ◌∙◌, ap, refl, inl, inr, Bool, not, ◌&&◌, ◌||◌, some, List, [], ◌∷◌, ◌++◌,
  length, length-append, contains-append, arith, Eq, nat_eq, contains, Bool-cases,
}
use mathlib.Core.List.{map}
use polkadot.Prelude.Map
use polkadot.Prelude.Map.{Map}
use polkadot.StateDb.Panics.{Returns, Returns_some}
use polkadot.StateDb.Types.{Bytes, CommitSet, Encoders}
use polkadot.StateDb.Pruning.{
  DeathRow, RefWindow, revive_all, collect_deleted, add_row, import, prune_row, prune_one, noted,
  note_finalized, to_journal_key, window_size,
}
use polkadot.StateDb.Pruning.Window.{
  Change, reinserted, IsFresh, Views, Views-append, Removed, length-Removed, tag_of, tags-Removed,
  Absent-fresh,
}
use polkadot.StateDb.Pruning.Index.{Indexed, IsExact, Revived, revive_all-Revived}
use polkadot.StateDb.Types.{ChangeSet}
use polkadot.StateDb.Pruning.Entries.{
  get-index_all, get-unindex_all, contains-collect_deleted, Indexed-extend, Indexed-forget,
}

abbrev pub keys_of : {K : Type 0} → ChangeSet K → Change K
keys_of changes = (map (λ (k, _). k) changes.inserted, changes.deleted)

abbrev pub change_of : {K : Type 0} → CommitSet K → Change K
change_of commit = keys_of commit.data_changes

module _ {H K : Type 0} ⦃eK : Eq K⦄ where
  -- A window stands for the blocks in it: its rows hold what they delete for good, and its index
  -- is exact.
  pub record IsWindow (w : RefWindow H K) (bs : List (Change K)) : Type 0 where
    pub views : Views bs w.death_rows
    pub exact : IsExact w

  add_row-IsWindow :
      (hash : H) (journal_key : Bytes) (b : Change K) (bs : List (Change K)) (w w' : RefWindow H K)
      → IsWindow w bs
      → IsFresh bs b
      → Revived (contains b.0) w w'
      → IsWindow (add_row hash journal_key b.1 w') (bs ++ b ∷ [])
  unfolding add_row
  add_row-IsWindow hash journal_key (ins, del) bs w w' k fresh (x, same, removed) =
      let row : DeathRow H K = record {
        hash = hash;
        journal_key = journal_key;
        deleted = collect_deleted del;
      } in
      record {
        views =
            Views-append bs (ins, del) w.death_rows w'.death_rows row k.views removed
              (contains-collect_deleted del);
        exact = record {
          indexed =
              Indexed-extend (contains del) w'.death_index _ w'.pending_number w'.death_rows row
                x.indexed
                (λ j d.
                  Absent-fresh j bs ins w.death_rows w'.death_rows (fresh j d) k.views removed)
                (λ j. get-index_all del (w'.pending_number + length w'.death_rows) w'.death_index j)
                (contains-collect_deleted del);
          pending = λ j b' q. elim (Bool-cases (contains del j)) [
            | inl d ↦ ground (
              arith,
              d,
              q,
              get-index_all del (w'.pending_number + length w'.death_rows) w'.death_index j,
            )
            | inr d ↦ x.pending j b' (
                ground (
                  arith,
                  d,
                  q,
                  get-index_all del (w'.pending_number + length w'.death_rows) w'.death_index j,
                ))
          ];
        };
      }

  import-some :
      (hash : H) (journal_key : Bytes) (ins del : List K) (w w' : RefWindow H K)
      → revive_all ins w ≡ some w'
      → import hash journal_key ins del w ≡ some (add_row hash journal_key del w')
  unfolding import
  import-some hash journal_key ins del w w' found = ground (arith, found)

  length-add_row :
      (hash : H) (journal_key : Bytes) (del : List K) (gone : K → Bool) (w w' : RefWindow H K)
      → Removed gone w.death_rows w'.death_rows
      → window_size (add_row hash journal_key del w') ≡ window_size w + 1
  unfolding add_row window_size
  length-add_row hash journal_key del gone w w' removed = omega (
    arith,
    length-Removed gone w.death_rows w'.death_rows removed,
    length-append w'.death_rows
        (record { hash = hash; journal_key = journal_key; deleted = collect_deleted del } ∷ []),
  )

  tags-add_row :
      (hash : H) (journal_key : Bytes) (del : List K) (gone : K → Bool) (w w' : RefWindow H K)
      → Removed gone w.death_rows w'.death_rows
      → map tag_of (add_row hash journal_key del w').death_rows
        ≡ map tag_of w.death_rows ++ (hash, journal_key) ∷ []
  unfolding add_row
  tags-add_row hash journal_key del gone w w' removed =
      map-append w'.death_rows
        (record { hash = hash; journal_key = journal_key; deleted = collect_deleted del } ∷ [])
      ∙ ap (λ l. l ++ (hash, journal_key) ∷ [])
          (tags-Removed gone w.death_rows w'.death_rows removed)
    where
      map-append : (l m : List (DeathRow H K)) → map tag_of (l ++ m) ≡ map tag_of l ++ map tag_of m
      map-append [] m = refl
      map-append (r ∷ l) m = ap (λ x. tag_of r ∷ x) (map-append l m)

  note_some :
      (codec : Encoders H K) (hash : H) (commit : CommitSet K) (w w' : RefWindow H K)
      → import hash
          (to_journal_key codec (w.pending_number + window_size w))
          (change_of commit).0
          (change_of commit).1
          w
        ≡ some w'
      → note_finalized codec hash commit w ≡ some (w', noted codec hash commit w)
  unfolding note_finalized
  note_some codec hash commit w w' h = ground (arith, h)

  pub import-IsWindow :
      (hash : H) (journal_key : Bytes) (b : Change K) (w : RefWindow H K) (bs : List (Change K))
      → IsWindow w bs
      → IsFresh bs b
      → Returns
          (λ w'.
            IsWindow w' (bs ++ b ∷ [])
            × (w'.pending_number ≡ w.pending_number)
            × (map tag_of w'.death_rows ≡ map tag_of w.death_rows ++ (hash, journal_key) ∷ []))
          (import hash journal_key b.0 b.1 w)
  unfolding add_row
  import-IsWindow hash journal_key b w bs k fresh =
      let (w', found, revived) = revive_all-Revived b.0 w k.exact in
      Returns_some _ (import hash journal_key b.0 b.1 w) _
        (import-some hash journal_key b.0 b.1 w w' found)
        (
          add_row-IsWindow hash journal_key b bs w w' k fresh revived,
          revived.1,
          tags-add_row hash journal_key b.1 _ w w' revived.2,
        )

  -- For a window of blocks and a block that deletes only what it inserts or what is not deleted
  -- yet, `note_finalized` does not panic: the window is that of the blocks and this one, and all
  -- deletions are taken out of the commit.
  pub note_finalized-IsWindow :
      (codec : Encoders H K) (hash : H) (commit : CommitSet K) (w : RefWindow H K)
      (bs : List (Change K))
      → IsWindow w bs
      → IsFresh bs (change_of commit)
      → Returns
          (λ (w', commit').
            IsWindow w' (bs ++ change_of commit ∷ [])
            × (window_size w' ≡ window_size w + 1)
            × (commit'.data_changes.inserted ≡ commit.data_changes.inserted)
            × (commit'.data_changes.deleted ≡ []))
          (note_finalized codec hash commit w)
  unfolding noted
  note_finalized-IsWindow codec hash commit w bs k fresh =
      let (w', found, revived) = revive_all-Revived (change_of commit).0 w k.exact in
      let journal_key = to_journal_key codec (w.pending_number + window_size w) in
      Returns_some _ (note_finalized codec hash commit w) _
        (note_some codec hash commit w _
          (import-some hash journal_key (change_of commit).0 (change_of commit).1 w w' found))
        (
          add_row-IsWindow hash journal_key (change_of commit) bs w w' k fresh revived,
          length-add_row hash journal_key (change_of commit).1 _ w w' revived.2,
          refl,
          refl,
        )

  prune_row-IsWindow :
      (codec : Encoders H K) (r : DeathRow H K) (rows : List (DeathRow H K)) (w : RefWindow H K)
      (commit : CommitSet K) (bs : List (Change K))
      → Views bs rows
      → Indexed w.death_index w.pending_number (r ∷ rows)
      → ((k : K) (b : ℕ) → Map.get w.death_index k ≡ some b → w.pending_number ≤ b)
      → IsWindow (prune_row codec r rows w commit).0 bs
  unfolding prune_row
  prune_row-IsWindow codec r rows w commit bs views (x, xs) pending = record {
    views = views;
    exact = record {
      indexed =
          Indexed-forget (contains r.deleted) w.death_index _ (w.pending_number + 1) rows xs
            (get-unindex_all r.deleted w.death_index) (λ k b d q. ground (arith, d, q, x k));
      pending =
          λ k b q. ground (arith, q, x k, get-unindex_all r.deleted w.death_index k, pending k b);
    };
  }

  abbrev pub Prunes :
      Change K
      → List (Change K)
      → RefWindow H K
      → CommitSet K
      → RefWindow H K × CommitSet K
      → Type 0
  Prunes b bs w commit (w', commit') =
      IsWindow w' bs
      × (window_size w ≡ window_size w' + 1)
      × (commit'.data_changes.inserted ≡ commit.data_changes.inserted)
      × ((k : K)
          → contains commit'.data_changes.deleted k
            ≡ (contains commit.data_changes.deleted k || contains b.1 k && not (reinserted k bs)))

  prune_rows :
      (codec : Encoders H K) (commit : CommitSet K) (w : RefWindow H K) (b : Change K)
      (bs : List (Change K)) (rows : List (DeathRow H K))
      → w.death_rows ≡ rows
      → Views (b ∷ bs) rows
      → Indexed w.death_index w.pending_number rows
      → ((k : K) (n : ℕ) → Map.get w.death_index k ≡ some n → w.pending_number ≤ n)
      → Returns (Prunes b bs w commit) (prune_one codec commit w)
  unfolding prune_one prune_row window_size
  prune_rows codec commit w b bs [] q views x pending = absurd views
  prune_rows codec commit w b bs (r ∷ rows) q (view, views) x pending =
      Returns_some (Prunes b bs w commit) (prune_one codec commit w)
        (prune_row codec r rows w commit) (ground (arith, q))
        (
          prune_row-IsWindow codec r rows w commit bs views x pending,
          rw q (omega arith),
          refl,
          λ k. ground (arith, contains-append commit.data_changes.deleted r.deleted k, view k),
        )

  -- For a window of blocks, `prune_one` does not panic: the window is that of the later blocks,
  -- and the commit deletes, besides what it did, what the first block has deleted and no later one
  -- has inserted.
  pub prune_one-IsWindow :
      (codec : Encoders H K) (commit : CommitSet K) (w : RefWindow H K) (b : Change K)
      (bs : List (Change K))
      → IsWindow w (b ∷ bs)
      → Returns (Prunes b bs w commit) (prune_one codec commit w)
  prune_one-IsWindow codec commit w b bs k =
      prune_rows codec commit w b bs w.death_rows refl k.views k.exact.indexed k.exact.pending
