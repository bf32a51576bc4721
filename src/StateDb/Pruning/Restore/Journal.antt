-- ===== src/StateDb/Pruning/Restore/Journal.antt =====
-- substrate/state-db/src/pruning.rs: the window that `RefWindow::new` reads from a journal.
use polkadot.Prelude.{
  ◌⊎◌, inl, inr, ℕ, zero, suc, ◌+◌, ◌<◌, ◌≡◌, ◌∙◌, ap, refl, sym, Option, none, some, List, [], ◌∷◌,
  ◌++◌, length, arith, ok, Eq,
}
use mathlib.Core.Path.{subst}
use mathlib.Core.List.{append-nil, append_assoc, map}
use polkadot.Prelude.Map
use polkadot.StateDb.Types.{Bytes, Encoders, Decoders, to_meta_key}
use polkadot.StateDb.Panics.{Returns}
use polkadot.StateDb.Pruning.{RefWindow, JournalRecord, last_pruned, to_journal_key}
use polkadot.StateDb.Pruning.Window.{Change, IsFresh, tag_of}
use polkadot.StateDb.Pruning.Refined.{IsWindow, import-IsWindow}
use polkadot.StateDb.Pruning.Restore.{
  Restored, done, failed, panicked, unfinished, MetaDb, decode_record, continue_with,
  import_decoded, read_step, read_journal, window_from, read_from, read_last_pruned, restore,
}

-- A call that ends with a result that has a property.
abbrev pub Reads : {T E : Type 0} → (T → Type 0) → Restored T E → Type 0
Reads P (done t) = P t
Reads P (failed _) = ⊥
Reads P panicked = ⊥
Reads P unfinished = ⊥

abbrev pub change_in : {H K : Type 0} → JournalRecord H K → Change K
change_in r = (r.inserted, r.deleted)

module _ {H K E : Type 0} ⦃eK : Eq K⦄ (codec : Encoders H K) (decoders : Decoders H K)
    (db : MetaDb E) where
  -- The database has the records of blocks from a number on, and none after them.
  abbrev pub HasJournal : ℕ → List (JournalRecord H K) → Type 0
  HasJournal block [] = db (to_journal_key codec block) ≡ ok none
  HasJournal block (r ∷ rs) =
      ((bytes : Bytes) × (db (to_journal_key codec block) ≡ ok (some bytes))
        × (decode_record decoders bytes ≡ some r))
      × HasJournal (block + 1) rs

  -- The hashes of the records, and their keys in the journal.
  abbrev pub journal_tags : ℕ → List (JournalRecord H K) → List (H × Bytes)
  journal_tags block [] = []
  journal_tags block (r ∷ rs) = (r.hash, to_journal_key codec block) ∷ journal_tags (block + 1) rs

  -- A window of blocks, with a number, and the hash and the journal key of each row.
  abbrev pub IsRead : List (Change K) → ℕ → List (H × Bytes) → RefWindow H K → Type 0
  IsRead bs pending tags w =
      IsWindow w bs × (w.pending_number ≡ pending) × (map tag_of w.death_rows ≡ tags)

  -- Each block deletes only what it inserts or what is not deleted yet.
  abbrev pub AreFresh : List (Change K) → List (JournalRecord H K) → Type 0
  AreFresh bs [] = Unit
  AreFresh bs (r ∷ rs) = IsFresh bs (change_in r) × AreFresh (bs ++ change_in r ∷ []) rs

  continued :
      (P Q : RefWindow H K → Type 0) (continue : RefWindow H K → Restored (RefWindow H K) E)
      (o : Option (RefWindow H K))
      → Returns P o
      → ((w : RefWindow H K) → P w → Reads Q (continue w))
      → Reads Q (continue_with codec decoders db continue o)
  unfolding continue_with
  continued P Q continue none h k = h
  continued P Q continue (some w) h k = k w h

  ap3 :
      {bs cs : List (Change K)} {m n : ℕ} {ts us : List (H × Bytes)}
      → bs ≡ cs
      → m ≡ n
      → ts ≡ us
      → ◌≡◌ {A = List (Change K) × ℕ × List (H × Bytes)} (bs, m, ts) (cs, n, us)
  ap3 p q r = rw (p, q, r) refl

  read_journal-IsWindow :
      (turns block : ℕ) (rs : List (JournalRecord H K)) (w : RefWindow H K) (bs : List (Change K))
      → IsWindow w bs
      → HasJournal block rs
      → AreFresh bs rs
      → length rs < turns
      → Reads
          (IsRead
            (bs ++ map change_in rs)
            w.pending_number
            (map tag_of w.death_rows ++ journal_tags block rs))
          (read_journal codec decoders db turns block w)
  unfolding read_journal read_step import_decoded
  read_journal-IsWindow zero block rs w bs k has fresh enough = absurd (omega (arith, enough))
  read_journal-IsWindow (suc turns) block [] w bs k has fresh enough =
      rw has (subst (IsWindow w) (sym (append-nil bs)) k, refl, sym (append-nil _))
  read_journal-IsWindow (suc turns) block (r ∷ rs) w bs k ((bytes, at, decodes), has)
        (fresh, freshs) enough =
      rw (at, decodes)
        (continued
          (λ w'.
            IsWindow w' (bs ++ change_in r ∷ [])
            × (w'.pending_number ≡ w.pending_number)
            × (map tag_of w'.death_rows
                ≡ map tag_of w.death_rows ++ (r.hash, to_journal_key codec block) ∷ []))
          _ (read_journal codec decoders db turns (block + 1)) _
          (import-IsWindow r.hash (to_journal_key codec block) (change_in r) w bs k fresh)
          (λ w' (k', same, tags).
            subst
              (λ (l, n, t).
                Reads (IsRead l n t) (read_journal codec decoders db turns (block + 1) w'))
              (ap3 (append_assoc bs (change_in r ∷ []) (map change_in rs)) same (
                ap (λ t. t ++ journal_tags (block + 1) rs) tags
                ∙ append_assoc (map tag_of w.death_rows) ((r.hash, to_journal_key codec block) ∷ [])
                    (journal_tags (block + 1) rs)))
              (read_journal-IsWindow turns (block + 1) rs w' (bs ++ change_in r ∷ []) k' has freshs
                (omega (arith, enough)))))

  window_from-IsWindow : (n : ℕ) → IsWindow (window_from codec decoders db n) []
  unfolding Map.get
  window_from-IsWindow n = record {
    views = tt;
    exact = record {
      indexed = λ k b q. absurd (ground (arith, q));
      pending = λ k b q. absurd (ground (arith, q));
    };
  }

  -- The number of the last block pruned, 0 if there is none.
  abbrev pub HasPruned : ℕ → Type 0
  HasPruned n =
      ((db (to_meta_key last_pruned []) ≡ ok none) × (n ≡ 0))
      ⊎ ((bytes : Bytes) × (rest : Bytes) × (db (to_meta_key last_pruned []) ≡ ok (some bytes))
          × (decoders.decode_number bytes ≡ some (n, rest)))

  -- If the database has the number of the last block pruned, and then the journal records of a list
  -- of blocks of which each deletes only what it inserts or what is not deleted yet, the journal is
  -- read back in one turn more than there are blocks, without an error or a panic; the window is
  -- that of these blocks, its first number is the one after the block pruned, and its rows have the
  -- hashes of the records and their keys in the journal.
  pub restore-IsWindow :
      (turns pruned : ℕ) (rs : List (JournalRecord H K))
      → HasPruned pruned
      → HasJournal (pruned + 1) rs
      → AreFresh [] rs
      → length rs < turns
      → Reads
          (IsRead (map change_in rs) (pruned + 1) (journal_tags (pruned + 1) rs))
          (restore codec decoders db turns)
  unfolding restore read_last_pruned read_from
  restore-IsWindow turns pruned rs (inl (at, first)) has fresh enough = rw at (
      subst
        (λ n.
          Reads (IsRead (map change_in rs) (n + 1) (journal_tags (n + 1) rs))
            (read_journal codec decoders db turns 1 (window_from codec decoders db 1)))
        (sym first)
        (read_journal-IsWindow turns 1 rs (window_from codec decoders db 1) []
          (window_from-IsWindow 1) (subst (λ n. HasJournal (n + 1) rs) first has) fresh enough))
  restore-IsWindow turns pruned rs (inr (bytes, rest, at, decodes)) has fresh enough =
      rw (at, decodes)
        (read_journal-IsWindow turns (pruned + 1) rs _ [] (window_from-IsWindow (pruned + 1)) has
          fresh enough)
