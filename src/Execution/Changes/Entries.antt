-- ===== src/Execution/Changes/Entries.antt =====
-- One index of a table in the loops of src/execution/executors/insert_executor.cpp and
-- delete_executor.cpp over all of them.
use zlchen_dsaa2031_project.Prelude.{
  ℕ, suc, ◌≡◌, refl, Option, none, some, Bool, true, false, List, [], ◌∷◌, ◌++◌, ◌==◌, lookup,
  insert, lookup-insert, Option-cases, Bool-cases, inl, inr, if◌then◌else◌, arith,
}
use zlchen_dsaa2031_project.Rows.{Tuple, Schema}
use zlchen_dsaa2031_project.Catalog.{Catalog, IndexInfo, insert_entry, remove_entry, without}
use zlchen_dsaa2031_project.Catalog.Entries.{rids, lookup_integer-insert_entry-remove_entry}
use zlchen_dsaa2031_project.Execution.Changes.{
  key_at, lookup_attr, inserted, removed, add_entry, drop_entry, maintain,
}

-- How often an oid stands among the names of the indexes of a table.
unfoldable pub occurs : ℕ → List (List ℕ × ℕ) → ℕ
occurs oid [] = 0
occurs oid (entry ∷ names) =
    let later = occurs oid names in if entry.1 == oid then suc later else later

-- The loop over the indexes leaves alone an index that is not among them, and changes once one that
-- is there once.
maintain-none :
    (change : IndexInfo → Option IndexInfo) (oid : ℕ) (names : List (List ℕ × ℕ)) (c c' : Catalog)
    → occurs oid names ≡ 0
    → maintain change names c ≡ some c'
    → lookup oid c'.indexes ≡ lookup oid c.indexes
unfolding maintain occurs
maintain-none change oid [] c c' absent done = ground arith
maintain-none change oid (entry ∷ names) c c' absent done =
    elim (Option-cases (lookup entry.1 c.indexes)) [
      | inl missing ↦ ground arith
      | inr (index, found) ↦ elim (Option-cases (change index)) [
        | inl fails ↦ ground arith
        | inr (index', changed) ↦ ground (
          arith,
          lookup-insert entry.1 oid index' c.indexes,
          maintain-none change oid names (record c { indexes = insert entry.1 index' c.indexes })
              c',
        )
      ]
    ]

pub maintain-lookup :
    (change : IndexInfo → Option IndexInfo) (oid : ℕ) (names : List (List ℕ × ℕ)) (c c' : Catalog)
    (index : IndexInfo)
    → occurs oid names ≡ 1
    → maintain change names c ≡ some c'
    → lookup oid c.indexes ≡ some index
    → (index' : IndexInfo) × (change index ≡ some index') × (lookup oid c'.indexes ≡ some index')
unfolding maintain occurs
maintain-lookup change oid [] c c' index once done found = absurd (ground arith)
maintain-lookup change oid (entry ∷ names) c c' index once done found =
    elim (Option-cases (lookup entry.1 c.indexes)) [
      | inl missing ↦ absurd (ground arith)
      | inr (first, first_found) ↦ elim (Option-cases (change first)) [
        | inl fails ↦ absurd (ground arith)
        | inr (first', changed) ↦
            let c1 = record c { indexes = insert entry.1 first' c.indexes } in
            elim (Bool-cases (entry.1 == oid)) [
              | inl here ↦ (
                first',
                ground arith,
                ground (
                  arith,
                  lookup-insert entry.1 oid first' c.indexes,
                  maintain-none change oid names c1 c',
                ),
              )
              | inr elsewhere ↦
                  maintain-lookup change oid names c1 c' index (ground arith) (ground arith)
                    (ground (arith, lookup-insert entry.1 oid first' c.indexes))
            ]
      ]
    ]

abbrev pub is_under : ℕ → Option (Option ℕ) → Bool
is_under key (some (some k)) = k == key
is_under key (some none) = false
is_under key none = false

-- What an insertion and a removal do to one index.
lookup_attr-inserted :
    (index : IndexInfo) (r : ℕ) (key : Option ℕ)
    → (lookup_attr (inserted index r key) ≡ lookup_attr index)
      × ((inserted index r key).supports_point_lookup ≡ index.supports_point_lookup)
unfolding insert_entry
lookup_attr-inserted index r none = (refl, refl)
lookup_attr-inserted index r (some key) = (refl, refl)

rids-inserted :
    (index : IndexInfo) (r : ℕ) (entry : Option ℕ) (key : ℕ)
    → rids (inserted index r entry) key
      ≡ (if is_under key (some entry) then rids index key ++ r ∷ [] else rids index key)
rids-inserted index r none key = refl
rids-inserted index r (some k) key =
    ground (arith, (lookup_integer-insert_entry-remove_entry index k r key).0)

-- One row, in an index of the table.
pub add_entry-rids :
    (schema : Schema) (t : Tuple) (r : ℕ) (index index' : IndexInfo) (key : ℕ)
    → index.supports_point_lookup ≡ true
    → add_entry schema t r index ≡ some index'
    → (lookup_attr index' ≡ lookup_attr index)
      × (index'.supports_point_lookup ≡ true)
      × (rids index' key ≡ (
          if is_under key (key_at schema t (lookup_attr index))
          then rids index key ++ r ∷ []
          else rids index key))
unfolding add_entry
add_entry-rids schema t r index index' key pointed added =
    elim (Option-cases (key_at schema t (lookup_attr index))) [
      | inl fails ↦ ground arith
      | inr (k, found) ↦ ground (arith, lookup_attr-inserted index r k, rids-inserted index r k key)
    ]

lookup_attr-removed :
    (index : IndexInfo) (r : ℕ) (key : Option ℕ)
    → (lookup_attr (removed index r key) ≡ lookup_attr index)
      × ((removed index r key).supports_point_lookup ≡ index.supports_point_lookup)
unfolding remove_entry
lookup_attr-removed index r none = (refl, refl)
lookup_attr-removed index r (some key) = elim (Option-cases (lookup key index.int_rid_map)) [
  | inl missing ↦ ground arith
  | inr (qs, found) ↦ ground arith
]

rids-removed :
    (index : IndexInfo) (r : ℕ) (entry : Option ℕ) (key : ℕ)
    → rids (removed index r entry) key
      ≡ (if is_under key (some entry) then without r (rids index key) else rids index key)
rids-removed index r none key = refl
rids-removed index r (some k) key =
    ground (arith, (lookup_integer-insert_entry-remove_entry index k r key).1)

pub drop_entry-rids :
    (schema : Schema) (t : Tuple) (r : ℕ) (index index' : IndexInfo) (key : ℕ)
    → index.supports_point_lookup ≡ true
    → drop_entry schema t r index ≡ some index'
    → (lookup_attr index' ≡ lookup_attr index)
      × (index'.supports_point_lookup ≡ true)
      × (rids index' key ≡ (
          if is_under key (key_at schema t (lookup_attr index))
          then without r (rids index key)
          else rids index key))
unfolding drop_entry
drop_entry-rids schema t r index index' key pointed dropped =
    elim (Option-cases (key_at schema t (lookup_attr index))) [
      | inl fails ↦ ground arith
      | inr (k, found) ↦ ground (arith, lookup_attr-removed index r k, rids-removed index r k key)
    ]
