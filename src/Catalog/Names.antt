-- ===== src/Catalog/Names.antt =====
-- The names of the catalog and its entries: src/catalog/catalog.cpp.
use zlchen_dsaa2031_project.Prelude.{
  ℕ, ◌<◌, ◌≡◌, ap, sym, ◌&&◌, none, some, true, List, [], ◌∷◌, lookup, lookup-insert, Option-cases,
  inl, inr, if◌then◌else◌, is_some, arith,
}
use zlchen_dsaa2031_project.Storage.TableHeap.{Pages, new_table_heap}
use zlchen_dsaa2031_project.Types.Compare.{text_equal}
use zlchen_dsaa2031_project.Types.Order.{text_equal-eq}
use zlchen_dsaa2031_project.Types.TextMaps.{
  find_text, put_text, remove_text, find_text-put_text, find_text-remove_text,
}
use zlchen_dsaa2031_project.Rows.{Schema}
use zlchen_dsaa2031_project.Catalog.{
  Catalog, TableInfo, IndexInfo, new_catalog, get_table, create_table, index_oid, get_table_by_oid,
  names_of, keep_names, oid_in,
}

-- The names and the entries agree: a name's oid has an entry, of this name and oid, and has been
-- given out.
pub record IsValid (c : Catalog) : Type 0 where
  pub named :
      (name : List ℕ) (oid : ℕ)
      → find_text name c.table_names ≡ some oid
      → (info : TableInfo) × ((lookup oid c.tables ≡ some info)
          × (info.name ≡ name)
          × (info.oid ≡ oid)
          × (oid < c.next_table_oid))
  pub indexed :
      (index_name table_name : List ℕ) (oid : ℕ)
      → index_oid c index_name table_name ≡ some oid
      → (info : IndexInfo) × ((lookup oid c.indexes ≡ some info)
          × (info.name ≡ index_name)
          × (info.table_name ≡ table_name)
          × (info.oid ≡ oid)
          × (oid < c.next_index_oid))

pub new_catalog-IsValid : IsValid new_catalog
unfolding find_text
new_catalog-IsValid = record {
  named = λ name oid found. ground arith;
  indexed = λ index_name table_name oid found. ground arith;
}

same_text :
    (table_name t : List ℕ) (m : List (List ℕ × List (List ℕ × ℕ)))
    → text_equal table_name t ≡ true
    → find_text t m ≡ find_text table_name m
same_text table_name t m h = ap (λ n. find_text n m) (sym (text_equal-eq table_name t h))

-- `CreateTable` of a name that no table has, while there is room for a page, makes a table that
-- `GetTable` finds by its name and by its oid, and every other name finds what it found.
pub get_table-create_table :
    (c : Catalog) (s : Pages) (name other : List ℕ) (schema : Schema)
    → IsValid c
    → find_text name c.table_names ≡ none
    → is_some (new_table_heap s) ≡ true
    → let (c', s', outcome) = create_table c s name schema in
      get_table c' other ≡ (
        if text_equal name other
        then some (get_table_by_oid c' c.next_table_oid)
        else get_table c other)
unfolding create_table get_table
get_table-create_table c s name other schema valid fresh room =
    elim (Option-cases (new_table_heap s)) [
      | inl full ↦ ground arith
      | inr ((page_id, s1), made) ↦ elim (Option-cases (find_text other c.table_names)) [
        | inl unknown ↦ ground (
          arith,
          lookup-insert c.next_table_oid c.next_table_oid (table_of page_id) c.tables,
          find_text-put_text name other c.next_table_oid c.table_names,
        )
        | inr (oid, known) ↦ ground (
          arith,
          lookup-insert c.next_table_oid c.next_table_oid (table_of page_id) c.tables,
          lookup-insert c.next_table_oid oid (table_of page_id) c.tables,
          find_text-put_text name other c.next_table_oid c.table_names,
          older oid known,
        )
      ]
    ]
  where
    table_of : ℕ → TableInfo
    table_of page_id = record {
      schema = schema;
      name = name;
      table = page_id;
      oid = c.next_table_oid;
    }

    older : (oid : ℕ) → find_text other c.table_names ≡ some oid → oid < c.next_table_oid
    older oid known =
        let (info, (there, its_name, its_oid, low)) = valid.named other oid known in low

pub index_oid-put :
    (index_name table_name i t : List ℕ) (oid : ℕ) (m : List (List ℕ × List (List ℕ × ℕ)))
    → oid_in i (
        find_text t
          (put_text table_name (put_text index_name oid (names_of (find_text table_name m))) m))
      ≡ (if text_equal table_name t && text_equal index_name i
          then some oid
          else oid_in i (find_text t m))
unfolding find_text
index_oid-put index_name table_name i t oid m = elim (Option-cases (find_text table_name m)) [
  | inl unknown ↦ ground (
    arith,
    find_text-put_text table_name t (put_text index_name oid (names_of (find_text table_name m))) m,
    find_text-put_text index_name i oid (names_of (find_text table_name m)),
    same_text table_name t m,
  )
  | inr (names, known) ↦ ground (
    arith,
    find_text-put_text table_name t (put_text index_name oid (names_of (find_text table_name m))) m,
    find_text-put_text index_name i oid (names_of (find_text table_name m)),
    same_text table_name t m,
  )
]

pub index_oid-drop :
    (index_name table_name i t : List ℕ) (m : List (List ℕ × List (List ℕ × ℕ)))
    → oid_in i (
        find_text t
          (keep_names table_name (remove_text index_name (names_of (find_text table_name m))) m))
      ≡ (if text_equal table_name t && text_equal index_name i
          then none
          else oid_in i (find_text t m))
unfolding find_text
index_oid-drop index_name table_name i t m =
    by_left (remove_text index_name (names_of (find_text table_name m)))
      (find_text-remove_text index_name i (names_of (find_text table_name m)))
  where
    by_left :
        (left : List (List ℕ × ℕ))
        → find_text i left ≡ (
            if text_equal index_name i
            then none
            else find_text i (names_of (find_text table_name m)))
        → oid_in i (find_text t (keep_names table_name left m)) ≡ (
            if text_equal table_name t && text_equal index_name i
            then none
            else oid_in i (find_text t m))
    by_left [] left_same =
        ground (arith, find_text-remove_text table_name t m, same_text table_name t m)
    by_left (entry ∷ left) left_same =
        ground (arith, find_text-put_text table_name t (entry ∷ left) m, same_text table_name t m)
