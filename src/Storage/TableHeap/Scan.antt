-- ===== src/Storage/TableHeap/Scan.antt =====
-- A whole walk along a table heap: src/storage/table/table_heap.cpp.
use zlchen_dsaa2031_project.Prelude.{
  ℕ, zero, suc, ◌+◌, ◌%◌, ◌<◌, ◌≤◌, ◌≡◌, refl, sym, subst, ◌∙◌, ◌⊎◌, none, some, false, List, [],
  ◌∷◌, ◌++◌, ◌==◌, ltb, length, if◌then◌else◌, ◌>>=◌, ap, Bool-cases, inl, inr, arith,
}
use zlchen_dsaa2031_project.Storage.Bytes.{Bytes}
use zlchen_dsaa2031_project.Storage.Disk.{invalid_page_id}
use zlchen_dsaa2031_project.Storage.TablePage.{next_page_id, num_tuples, get_tuple, get_tuple_size}
use zlchen_dsaa2031_project.Concurrency.Transaction.{rid}
use zlchen_dsaa2031_project.Storage.TableHeap.{
  Pages, fetch, page_of, slot_of, end_rid, find_slot, seek, begin, scan_from,
}

-- The pages of a heap: each can be fetched, names the next, and has fewer slots than 2 ^ 16.
unfoldable pub IsChain : Pages → ℕ → List ℕ → Type 0
IsChain s page_id [] = page_id ≡ invalid_page_id
IsChain s page_id (id ∷ ids) =
    (page_id ≡ id)
    × (id < invalid_page_id)
    × ((m : Bytes) × ((fetch s id ≡ some m)
          × (num_tuples m < 65536)
          × IsChain s (next_page_id m) ids))

-- The tuples of a page from a slot on, those deleted left out.
unfoldable pub live : ℕ → Bytes → ℕ → ℕ → List (ℕ × List ℕ)
live page_id m slot zero = []
live page_id m slot (suc n) =
    let later = live page_id m (slot + 1) n in
    if ltb 0 (get_tuple_size m slot) then (rid page_id slot, get_tuple m slot) ∷ later else later

-- The tuples of the heap, page by page.
unfoldable pub heap_tuples : Pages → List ℕ → List (ℕ × List ℕ)
heap_tuples s [] = []
heap_tuples s (id ∷ ids) =
    (elim (fetch s id) [ none ↦ [] | some m ↦ live id m 0 (num_tuples m) ]) ++ heap_tuples s ids

-- Where `find_slot` stops: at the first tuple that is left, or behind the last.
find_slot-live :
    (page_id : ℕ) (m : Bytes) (slot n fuel : ℕ)
    → num_tuples m < 65536
    → slot + n ≡ num_tuples m
    → n ≤ fuel
    → ((find_slot m slot fuel ≡ none) × (live page_id m slot n ≡ []))
      ⊎ ((found : ℕ) × (k : ℕ) × ((find_slot m slot fuel ≡ some found)
            × (found + suc k ≡ num_tuples m)
            × (live page_id m slot n
                ≡ (rid page_id found, get_tuple m found) ∷ live page_id m (found + 1) k)))
unfolding find_slot live
find_slot-live page_id m slot zero zero low at enough = inl (refl, refl)
find_slot-live page_id m slot zero (suc fuel) low at enough = inl (ground arith, refl)
find_slot-live page_id m slot (suc n) zero low at enough = ground arith
find_slot-live page_id m slot (suc n) (suc fuel) low at enough =
    elim (Bool-cases (ltb 0 (get_tuple_size m slot))) [
      | inl used ↦ inr (slot, n, (ground arith, ground arith, ground arith))
      | inr deleted ↦
          elim (find_slot-live page_id m (slot + 1) n fuel low (omega arith) (omega arith)) [
            | inl (h, k) ↦ inl (ground (arith, wraps), ground arith)
            | inr (found, k, (h, last, rest)) ↦
                inr (found, k, (ground (arith, wraps), last, ground arith))
          ]
    ]
  where
    wraps : (slot + 1) % 65536 ≡ slot + 1
    wraps = omega arith

-- A place in a walk: a slot of a page, and the pages behind.
record Position (s : Pages) : Type 0 where
  id : ℕ
  page : Bytes
  ids : List ℕ
  slot : ℕ
  slots_left : ℕ
  fetched : fetch s id ≡ some page
  known : id < invalid_page_id
  low : num_tuples page < 65536
  chain : IsChain s (next_page_id page) ids
  inside : slot + slots_left ≡ num_tuples page

module _ (s : Pages) where
  pending : Position s → List (ℕ × List ℕ)
  pending p = live p.id p.page p.slot p.slots_left ++ heap_tuples s p.ids

  -- What `seek` finds: the end, where nothing is pending, or the first tuple that is.
  Found : ℕ → List (ℕ × List ℕ) → ℕ → Type 0
  Found found list bound =
      ((found ≡ end_rid) × (list ≡ []))
      ⊎ ((q : Position s) × (at : ℕ) × ((found ≡ rid q.id at)
            × (q.slot ≡ at + 1)
            × (list ≡ (rid q.id at, get_tuple q.page at) ∷ pending q)
            × (length q.ids ≤ bound)))

  seek_end : (fuel : ℕ) → seek s invalid_page_id 0 fuel ≡ end_rid
  unfolding seek
  seek_end zero = refl
  seek_end (suc fuel) = refl

  weaken :
      (found bound bound' : ℕ) (list : List (ℕ × List ℕ))
      → bound ≤ bound'
      → Found found list bound
      → Found found list bound'
  unfolding Found
  weaken found bound bound' list less (inl ended) = inl ended
  weaken found bound bound' list less (inr (q, at, (h, k, l, b))) =
      inr (q, at, (h, k, l, omega arith))

  -- The walk goes on at the next page.
  next_page-Found :
      (page_id : ℕ) (ids : List ℕ) (fuel : ℕ)
      → ((q : Position s)
          → length q.ids < fuel
          → Found (seek s q.id q.slot fuel) (pending q) (length q.ids))
      → IsChain s page_id ids
      → length ids < suc fuel
      → Found (seek s page_id 0 fuel) (heap_tuples s ids) (length ids)
  unfolding IsChain heap_tuples pending Found
  next_page-Found page_id [] fuel again chain enough =
      subst (λ id. Found (seek s id 0 fuel) [] 0) (sym chain) (inl (seek_end fuel, refl))
  next_page-Found page_id (id ∷ ids) fuel again (same, known, (m, (fetched, low, chain))) enough =
      subst (λ i. Found (seek s i 0 fuel) (heap_tuples s (id ∷ ids)) (suc (length ids))) (sym same)
        (subst (λ list. Found (seek s id 0 fuel) list (suc (length ids))) (ground (arith, fetched))
          (weaken (seek s id 0 fuel) (length ids) (suc (length ids)) (pending first) (omega arith)
            (again first (omega arith))))
    where
      first : Position s
      first = record {
        id = id;
        page = m;
        ids = ids;
        slot = 0;
        slots_left = num_tuples m;
        fetched = fetched;
        known = known;
        low = low;
        chain = chain;
        inside = ground arith;
      }

  seek-Found :
      (p : Position s) (fuel : ℕ)
      → length p.ids < fuel
      → Found (seek s p.id p.slot fuel) (pending p) (length p.ids)
  unfolding Found seek pending
  seek-Found p zero enough = ground arith
  seek-Found p (suc fuel) enough =
      elim (find_slot-live p.id p.page p.slot p.slots_left (num_tuples p.page) p.low p.inside
        (omega (arith, p.inside))) [
          | inr (found, k, (h, last, rest)) ↦ inr (
            record {
              id = p.id;
              page = p.page;
              ids = p.ids;
              slot = found + 1;
              slots_left = k;
              fetched = p.fetched;
              known = p.known;
              low = p.low;
              chain = p.chain;
              inside = omega arith;
            },
            found,
            (ground (arith, p.fetched, p.known), refl, ground arith, omega arith),
          )
          | inl (none_here, nothing) ↦
              subst (λ found. Found found (pending p) (length p.ids))
                (ground (arith, p.fetched, p.known))
                (subst (λ list. Found (seek s (next_page_id p.page) 0 fuel) list (length p.ids))
                  (ground arith)
                  (next_page-Found (next_page_id p.page) p.ids fuel (λ q. seek-Found q fuel) p.chain
                    enough))
        ]

  -- A tuple of the walk, and the walk behind it.
  scan_from-rid :
      (q : Position s) (at calls : ℕ)
      → q.slot ≡ at + 1
      → scan_from s (rid q.id at) (suc calls) ≡ (
          scan_from s (seek s q.id q.slot (suc (length s.pages))) calls >>= λ more.
          some ((rid q.id at, get_tuple q.page at) ∷ more))
  unfolding scan_from
  scan_from-rid q at calls next = ground (arith, its_page, its_slot, wraps, no_end, q.fetched)
    where
      its_page : page_of (rid q.id at) ≡ q.id
      its_page = omega (arith, next, q.inside, q.low)

      its_slot : slot_of (rid q.id at) ≡ at
      its_slot = omega (arith, next, q.inside, q.low)

      wraps : (at + 1) % 65536 ≡ q.slot
      wraps = omega (arith, next, q.inside, q.low)

      no_end : (rid q.id at == end_rid) ≡ false
      no_end = ground (arith, next, q.inside, q.low, q.known)

  scan_from-pending :
      (p : Position s) (fuel calls : ℕ)
      → length p.ids < fuel
      → length p.ids ≤ length s.pages
      → length (pending p) < calls
      → scan_from s (seek s p.id p.slot fuel) calls ≡ some (pending p)
  unfolding scan_from Found
  scan_from-pending p fuel zero enough few long = ground arith
  scan_from-pending p fuel (suc calls) enough few long = elim (seek-Found p fuel enough) [
    | inl (ended, nothing) ↦ ground arith
    | inr (q, at, (h, next, list, bound)) ↦ ground (
      arith,
      scan_from-rid q at calls next,
      ap (λ r. scan_from s r (suc calls)) h,
      scan_from-pending q (suc (length s.pages)) calls (omega arith) (omega arith) (ground arith),
    )
  ]

-- A walk from `Begin` to `End` along the pages of a heap reads each tuple that is not deleted, once,
-- page by page and slot by slot, with its `RID`; it ends, and no page fails. The heap is a chain of
-- pages with fewer than 2 ^ 16 slots, no longer than there are pages.
pub scan_from-begin :
    (s : Pages) (first_page_id : ℕ) (ids : List ℕ) (calls : ℕ)
    → IsChain s first_page_id ids
    → length ids ≤ length s.pages
    → length (heap_tuples s ids) < calls
    → scan_from s (begin s first_page_id) calls ≡ some (heap_tuples s ids)
unfolding IsChain heap_tuples pending scan_from
scan_from-begin s first_page_id [] zero chain few long = ground arith
scan_from-begin s first_page_id [] (suc calls) chain few long =
    ground (arith, seek_end s (suc (length s.pages)))
scan_from-begin s first_page_id (id ∷ ids) calls (same, known, (m, (fetched, low, chain))) few
      long =
    ap (λ i. scan_from s (seek s i 0 (suc (length s.pages))) calls) same
    ∙ scan_from-pending s first (suc (length s.pages)) calls (omega arith) (omega arith)
        (ground (arith, listed))
    ∙ ap some listed
  where
    first : Position s
    first = record {
      id = id;
      page = m;
      ids = ids;
      slot = 0;
      slots_left = num_tuples m;
      fetched = fetched;
      known = known;
      low = low;
      chain = chain;
      inside = ground arith;
    }

    listed : pending s first ≡ heap_tuples s (id ∷ ids)
    listed = ground (arith, fetched)
