-- ===== src/Catalog/Entries.antt =====
-- The entries of an index: `InsertEntry`, `RemoveEntry` and `LookupInteger` of
-- src/include/onebase/catalog/catalog.h.
use zlchen_dsaa2031_project.Prelude.{
  ℕ, ◌≡◌, refl, Option, none, some, Bool, false, List, [], ◌∷◌, ◌++◌, ◌==◌, lookup, lookup-insert,
  lookup-erase, Option-cases, inl, inr, if◌then◌else◌, arith,
}
use zlchen_dsaa2031_project.Rows.{Schema}
use zlchen_dsaa2031_project.Catalog.{
  IndexInfo, lookup_integer, or_none, insert_entry, remove_entry, without, keep_or_erase, key_of,
}

-- The `RID`s under a key.
abbrev pub rids : IndexInfo → ℕ → List ℕ
rids index key = or_none (lookup_integer index key)

lookup-keep_or_erase :
    (m : List (ℕ × List ℕ)) (key other : ℕ) (qs : List ℕ)
    → or_none (lookup other (keep_or_erase m key qs))
      ≡ (if key == other then qs else or_none (lookup other m))
lookup-keep_or_erase m key other [] = ground (arith, lookup-erase key other m)
lookup-keep_or_erase m key other (q ∷ qs) = ground (arith, lookup-insert key other (q ∷ qs) m)

-- `LookupInteger` after `InsertEntry` finds the new `RID` last under its key, and after
-- `RemoveEntry` finds no occurrence of the one that is removed; the other keys keep theirs.
pub lookup_integer-insert_entry-remove_entry :
    (index : IndexInfo) (key r other : ℕ)
    → (rids (insert_entry index key r) other
        ≡ (if key == other then rids index key ++ r ∷ [] else rids index other))
      × (rids (remove_entry index key r) other
          ≡ (if key == other then without r (rids index key) else rids index other))
unfolding insert_entry remove_entry without
lookup_integer-insert_entry-remove_entry index key r other =
    (ground (arith, lookup-insert key other (rids index key ++ r ∷ []) index.int_rid_map), removed)
  where
    removed :
        rids (remove_entry index key r) other
        ≡ (if key == other then without r (rids index key) else rids index other)
    removed = elim (Option-cases (lookup key index.int_rid_map)) [
      | inl missing ↦ ground arith
      | inr (qs, found) ↦
          ground (arith, lookup-keep_or_erase index.int_rid_map key other (without r qs))
    ]

abbrev is_key : ℕ → Option ℕ → Bool
is_key key none = false
is_key key (some k) = k == key

-- The `RID`s of the tuples with a key, in the order of the tuples.
unfoldable pub rids_with : Schema → ℕ → ℕ → List (ℕ × List ℕ) → List ℕ
rids_with schema attr key [] = []
rids_with schema attr key (row ∷ rows) =
    let later = rids_with schema attr key rows in
    if is_key key (key_of schema attr row) then row.0 ∷ later else later

pub append_assoc : (a b c : List ℕ) → (a ++ b) ++ c ≡ a ++ (b ++ c)
append_assoc [] b c = refl
append_assoc (x ∷ a) b c = ground (arith, append_assoc a b c)

pub append-nil : (a : List ℕ) → a ++ [] ≡ a
append-nil [] = refl
append-nil (x ∷ a) = ground (arith, append-nil a)
