-- ===== src/Buffer/Pool/Calls.antt =====
-- Each call of the pool: its result on every branch, and that it keeps the invariant.
use zlchen_dsaa2031_project.Prelude.{
  ℕ, ◌+◌, ◌-◌, ◌<◌, ◌≤◌, ◌≡◌, refl, ◌⊎◌, inl, inr, List, [], ◌∷◌, none, some, Bool, true, false,
  ◌||◌, ◌==◌, arith, contains, contains-append, Distinct-snoc, lookup, erase, lookup-insert,
  lookup-erase, erase-Distinct, if◌then◌else◌, Option-cases, Bool-cases,
}
use zlchen_dsaa2031_project.Storage.Disk.{
  Disk, read_page, write_page, allocate_page, deallocate_page,
}
use zlchen_dsaa2031_project.Storage.Disk.Failure.{next_page_id-read_page, next_page_id-write_page}
use zlchen_dsaa2031_project.Buffer.Replacer.{Replacer}
use zlchen_dsaa2031_project.Buffer.Replacer.Marks.{mark, mark-set_evictable, remove-Drops, Drops}
use zlchen_dsaa2031_project.Buffer.Replacer.Invariant.{set_evictable-IsValid}
use zlchen_dsaa2031_project.Buffer.Pool.{
  Pool, returned, not_positive, install, pin_again, new_page, fetch_page, unpin_page, unpin_frame,
  delete_page, flush_page, released, write_out, flush_pages, flush_all_pages,
}
use zlchen_dsaa2031_project.Buffer.Pool.Claim.{IsValid, Claims, IsFull, claim_frame-Claims}
use zlchen_dsaa2031_project.Buffer.Pool.Invariant.{
  HasRoom, install-IsValid, pin_again-IsValid, with_disk-IsValid, with_page-IsValid,
}

-- The page `q` stands pinned in frame `f`.
pub record Holds {D : Type 0} (p : Pool D) (q f : ℕ) : Type 0 where
  pub resident : lookup q p.page_table ≡ some f
  pub pinned : 0 < (p.pages f).pin_count

install-Holds :
    {D : Type 0} (p : Pool D) (f page_id : ℕ) (content : D)
    → Holds (install p f page_id content) page_id f
unfolding install
install-Holds p f page_id content = record {
  resident = ground (arith, lookup-insert page_id page_id f p.page_table);
  pinned = ground arith;
}

-- No page has the id that is handed out next.
pub next_page_id_unused :
    {D : Type 0} (p : Pool D) → IsValid p → lookup p.disk.next_page_id p.page_table ≡ none
next_page_id_unused p v = elim (Option-cases (lookup p.disk.next_page_id p.page_table)) [
  | inl missing ↦ missing
  | inr (f, here) ↦ absurd (omega (arith, v.allocated p.disk.next_page_id f here))
]

module _ {D : Type 0} (z : D) (p : Pool D) (v : IsValid p) (room : HasRoom p) where
  pin_again-Holds :
      (page_id f : ℕ) → lookup page_id p.page_table ≡ some f → Holds (pin_again p f) page_id f
  unfolding pin_again
  pin_again-Holds page_id f here = record { resident = here; pinned = ground (arith, room.pins f) }

  zeroed : (q : Pool D) (f page_id : ℕ) → ((install q f page_id z).pages f).content ≡ z
  unfolding install
  zeroed q f page_id = ground arith

  installed :
      (q : Pool D) (f : ℕ) (d : Disk D) (page_id : ℕ) (content : D)
      → Claims p f q
      → q.disk.next_page_id ≤ d.next_page_id
      → lookup page_id p.page_table ≡ none
      → page_id < d.next_page_id
      → let p' = install (record q { disk = d }) f page_id content in
        IsValid p' × Holds p' page_id f
  installed q f d page_id content c le new low = (
    install-IsValid (record q { disk = d }) f (with_disk-IsValid q c.valid d le)
        (record {
          clock = omega (arith, c.clock, room.clock);
          entries = omega (arith, c.shrinks, room.entries);
          pins = λ g. ground (arith, c.same_pages g, room.pins g);
        })
        page_id content
        (record {
          unmarked = c.unmarked;
          not_free = c.not_free;
          in_range = ground (arith, c.in_range, c.same_size);
        })
        (c.absent page_id new) low,
    install-Holds (record q { disk = d }) f page_id content,
  )

  -- `FetchPage` of an allocated page, in a valid pool whose clock, map of frames and pin counts
  -- have room for one more, never runs into undefined behaviour and never throws. It pins the page
  -- in a frame, or returns `nullptr`, the pool unchanged, and that only if the page is not in the
  -- pool, no frame is free and every page of the pool is pinned. The pool stays valid.
  pub fetch_page-IsValid :
      (page_id : ℕ)
      → page_id < p.disk.next_page_id
      → ((f : ℕ) × (p' : Pool D) × (fetch_page z p page_id ≡ returned p' (some f))
          × IsValid p'
          × Holds p' page_id f)
        ⊎ ((fetch_page z p page_id ≡ returned p none)
            × (lookup page_id p.page_table ≡ none)
            × IsFull p)
  unfolding fetch_page
  fetch_page-IsValid page_id low = elim (Option-cases (lookup page_id p.page_table)) [
    | inr (f, here) ↦ inl (
      f,
      pin_again p f,
      rw (here, fetch_page),
      pin_again-IsValid p f v room page_id here,
      pin_again-Holds page_id f here,
    )
    | inl missing ↦ elim (claim_frame-Claims z p v) [
      | inl (run, full) ↦ inr (rw (missing, fetch_page) (rw run), missing, full)
      | inr (f, q, run, c) ↦
          let (valid, holds) =
            installed q f (read_page z q.disk page_id).0 page_id (read_page z q.disk page_id).1 c
              (omega (arith, next_page_id-read_page z q.disk page_id)) missing
              (omega (arith, next_page_id-read_page z q.disk page_id, c.next_page_id)) in
          inl (f, _, rw (missing, fetch_page) (rw run), valid, holds)
    ]
  ]

  -- In a valid pool whose clock, map of frames and pin counts have room for one more, and with a
  -- page id left, `NewPage` hands out the next page id with a pinned, zeroed frame, or returns
  -- `nullptr`, the pool unchanged, and that only if no frame is free and every page of the pool is
  -- pinned. The pool stays valid.
  pub new_page-IsValid :
      p.disk.next_page_id < 2147483647
      → ((f : ℕ) × (p' : Pool D) × (new_page z p ≡ returned p' (some (p.disk.next_page_id, f)))
          × IsValid p'
          × Holds p' p.disk.next_page_id f
          × ((p'.pages f).content ≡ z))
        ⊎ ((new_page z p ≡ returned p none) × IsFull p)
  unfolding new_page allocate_page
  new_page-IsValid low = elim (claim_frame-Claims z p v) [
    | inl (run, full) ↦ inr (rw run, full)
    | inr (f, q, run, c) ↦
        let d = (allocate_page q.disk).0 in
        let next : d.next_page_id ≡ p.disk.next_page_id + 1 = omega (arith, c.next_page_id) in
        let (valid, holds) =
          installed q f d p.disk.next_page_id z c (omega (arith, c.next_page_id))
            (next_page_id_unused p v) (omega arith) in
        inl (
          f,
          install (record q { disk = d }) f p.disk.next_page_id z,
          ground (arith, run, c.next_page_id),
          valid,
          holds,
          zeroed (record q { disk = d }) f p.disk.next_page_id,
        )
  ]

module _ {D : Type 0} (p : Pool D) (v : IsValid p) where
  unpin_frame-IsValid :
      (page_id f : ℕ) (dirty : Bool)
      → lookup page_id p.page_table ≡ some f
      → 0 < (p.pages f).pin_count
      → IsValid (unpin_frame p f dirty)
  unpin_frame-IsValid page_id f dirty here pinned = record {
    replacer = elim (Bool-cases (pins == 0)) [
      | inl last ↦ rw last (set_evictable-IsValid p.replacer f true v.replacer)
      | inr more ↦ rw more v.replacer
    ];
    distinct = v.distinct;
    homed = λ q g h. ground (arith, v.homed q g h);
    marked = λ q g h. ground (arith, v.marked q g h, marks g);
    tracked = λ g b h. ground (arith, marks g, v.tracked g b, v.homed page_id f here);
    free = λ g h. ground (arith, v.free g h, marks g, v.marked page_id f here);
    free_distinct = v.free_distinct;
    in_range_table = v.in_range_table;
    in_range_free = v.in_range_free;
    allocated = v.allocated;
    pins = λ g. ground (arith, v.pins g, v.pins f);
  }
    where
      pins : ℕ
      pins = (p.pages f).pin_count - 1

      marks :
          (g : ℕ)
          → mark (unpin_frame p f dirty).replacer g
            ≡ (if f == g then some (pins == 0) else mark p.replacer g)
      marks g =
          ground (arith, mark-set_evictable p.replacer f g true false, v.marked page_id f here)

  -- `UnpinPage` in a valid pool refuses a page that is not in the pool or has no pin, and changes
  -- nothing then. Otherwise it takes one pin away and keeps the page where it is, its content as it
  -- was and its dirty flag set if it was set or is asked for; the replacer may take the frame
  -- exactly when no pin is left. The pool stays valid.
  pub unpin_page-IsValid :
      (page_id : ℕ) (dirty : Bool)
      → ((unpin_page p page_id dirty ≡ (p, false)) × ((f : ℕ) → ¬ Holds p page_id f))
        ⊎ ((f : ℕ) × (p' : Pool D) × (unpin_page p page_id dirty ≡ (p', true))
            × IsValid p'
            × Holds p page_id f
            × (p'.page_table ≡ p.page_table)
            × (p'.pages f ≡ record (p.pages f) {
              pin_count = (p.pages f).pin_count - 1;
              is_dirty = (p.pages f).is_dirty || dirty;
            })
            × (mark p'.replacer f ≡ some ((p.pages f).pin_count == 1)))
  unfolding unpin_page
  unpin_page-IsValid page_id dirty = elim (Option-cases (lookup page_id p.page_table)) [
    | inl missing ↦ inl (rw (missing, unpin_page), λ f h. ground (arith, h.resident))
    | inr (f, here) ↦ elim (Bool-cases (not_positive (p.pages f).pin_count)) [
      | inl refused ↦ inl (
        rw (here, unpin_page) (rw refused),
        λ g h. ground (arith, v.pins f, h.resident, h.pinned),
      )
      | inr allowed ↦
          let pinned : 0 < (p.pages f).pin_count = ground arith in
          let valid = unpin_frame-IsValid page_id f dirty here pinned in
          inr (
            f,
            unpin_frame p f dirty,
            rw (here, unpin_page) (rw allowed),
            valid,
            record { resident = here; pinned = pinned },
            refl,
            ground arith,
            ground (arith, valid.marked page_id f here),
          )
    ]
  ]

module _ {D : Type 0} (z : D) where
  write_out-IsValid : (p : Pool D) (page_id f : ℕ) → IsValid p → IsValid (write_out z p page_id f)
  unfolding write_out
  write_out-IsValid p page_id f v =
      let d = write_page z p.disk page_id (p.pages f).content in
      with_page-IsValid (record p { disk = d })
        (with_disk-IsValid p v d
          (omega (arith, next_page_id-write_page z p.disk page_id (p.pages f).content)))
        f (record (p.pages f) { is_dirty = false }) refl refl

  -- `FlushPage` keeps the pool valid.
  pub flush_page-IsValid :
      (p : Pool D) (page_id : ℕ) → IsValid p → IsValid (flush_page z p page_id).0
  unfolding flush_page
  flush_page-IsValid p page_id v = elim (Option-cases (lookup page_id p.page_table)) [
    | inl missing ↦ rw (missing, flush_page) v
    | inr (f, here) ↦ rw (here, flush_page) (write_out-IsValid p page_id f v)
  ]

  flush_pages-IsValid : (es : List (ℕ × ℕ)) (p : Pool D) → IsValid p → IsValid (flush_pages z es p)
  unfolding flush_pages
  flush_pages-IsValid [] p v = v
  flush_pages-IsValid ((page_id, f) ∷ es) p v =
      flush_pages-IsValid es (write_out z p page_id f) (write_out-IsValid p page_id f v)

  -- `FlushAllPages` keeps a valid pool valid.
  pub flush_all_pages-IsValid : (p : Pool D) → IsValid p → IsValid (flush_all_pages z p)
  unfolding flush_all_pages
  flush_all_pages-IsValid p v = flush_pages-IsValid p.page_table p v

  release-IsValid :
      (p : Pool D) (page_id f : ℕ) (r : Replacer)
      → IsValid p
      → lookup page_id p.page_table ≡ some f
      → Drops p.replacer f r
      → IsValid (released z p page_id f r)
  unfolding deallocate_page
  release-IsValid p page_id f r v here d = record {
    replacer = d.valid;
    distinct = erase-Distinct page_id p.page_table v.distinct;
    homed = λ q g h. ground (arith, erased q, v.homed q g, v.homed q f, v.homed page_id f here);
    marked = λ q g h.
        ground (arith, erased q, v.marked q g, v.homed q f, v.homed page_id f here, d.marks g);
    tracked = λ g b h. ground (
      arith,
      d.marks g,
      v.tracked g b,
      erased (p.pages g).page_id,
      v.homed page_id f here,
      elsewhere g,
    );
    free = λ g h. ground (arith, contains-append g p.free_list (f ∷ []), v.free g, d.marks g);
    free_distinct =
        Distinct-snoc f p.free_list (ground (arith, v.free f, d.was_evictable)) v.free_distinct;
    in_range_table = λ q g h. ground (arith, erased q, v.in_range_table q g);
    in_range_free = λ g h. ground (
      arith,
      contains-append g p.free_list (f ∷ []),
      v.in_range_free g,
      v.in_range_table page_id f here,
    );
    allocated = λ q g h. ground (arith, erased q, v.allocated q g);
    pins = λ g. ground (arith, v.pins g);
  }
    where
      erased :
          (q : ℕ)
          → lookup q (erase page_id p.page_table)
            ≡ (if page_id == q then none else lookup q p.page_table)
      erased q = lookup-erase page_id q p.page_table

      elsewhere : (g : ℕ) → lookup page_id p.page_table ≡ some g → g ≡ f
      elsewhere g h = ground (arith, here)

  -- `DeletePage` of a valid pool never throws: it answers true for a page that is not in the pool,
  -- false for a pinned one, both with the pool unchanged, and otherwise frees the frame.
  pub delete_page-IsValid :
      (p : Pool D) (page_id : ℕ)
      → IsValid p
      → ((delete_page z p page_id ≡ returned p true) × (lookup page_id p.page_table ≡ none))
        ⊎ ((f : ℕ) × (delete_page z p page_id ≡ returned p false) × Holds p page_id f)
        ⊎ ((f : ℕ) × (p' : Pool D) × (delete_page z p page_id ≡ returned p' true)
            × (lookup page_id p.page_table ≡ some f)
            × ((p.pages f).pin_count ≡ 0)
            × IsValid p'
            × (lookup page_id p'.page_table ≡ none)
            × (contains f p'.free_list ≡ true))
  unfolding delete_page
  delete_page-IsValid p page_id v = elim (Option-cases (lookup page_id p.page_table)) [
    | inl missing ↦ inl (rw (missing, delete_page), missing)
    | inr (f, here) ↦ elim (Bool-cases (not_positive (p.pages f).pin_count)) [
      | inr held ↦ inr (
          inl (
            f,
            rw (here, delete_page) (rw held),
            record { resident = here; pinned = ground arith },
          ))
      | inl unheld ↦
          let unpinned : (p.pages f).pin_count ≡ 0 = ground (arith, v.pins f) in
          let (r, run, d) =
            remove-Drops p.replacer f v.replacer (ground (arith, v.marked page_id f here)) in
          inr (
            inr (
              f,
              released z p page_id f r,
              rw (here, delete_page) (rw unheld (rw run)),
              here,
              unpinned,
              release-IsValid p page_id f r v here d,
              ground (arith, lookup-erase page_id page_id p.page_table),
              ground (arith, contains-append f p.free_list (f ∷ [])),
            ))
    ]
  ]
