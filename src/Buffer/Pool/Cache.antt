-- ===== src/Buffer/Pool/Cache.antt =====
-- The buffer pool is a transparent cache: what each call does to the contents of the pages.
use zlchen_dsaa2031_project.Prelude.{
  ℕ, ◌<◌, ◌≤◌, ◌≡◌, ◌≢◌, refl, sym, subst, ◌∙◌, ◌⊎◌, inl, inr, Option, none, some, Bool, true,
  false, ◌==◌, arith, length, lookup, if◌then◌else◌, Option-cases, Bool-cases,
}
use zlchen_dsaa2031_project.Storage.Disk.{Disk, write_page, allocate_page}
use zlchen_dsaa2031_project.Storage.Disk.Failure.{on_disk, on_disk-write_page, read_page_inside}
use zlchen_dsaa2031_project.Buffer.Pool.{
  Pool, Outcome, returned, install, pin_again, new_page, fetch_page, unpin_page, unpin_frame,
  not_positive, flush_page, write_out,
}
use zlchen_dsaa2031_project.Buffer.Pool.Claim.{IsValid, Claims, claim_frame-Claims}
use zlchen_dsaa2031_project.Buffer.Pool.Invariant.{with_disk-IsValid}
use zlchen_dsaa2031_project.Buffer.Pool.Contents.{
  contents, IsSaved, Preserves, frame_along, claim_frame-Preserves, contents-install,
  install-IsSaved,
}

module _ {D : Type 0} (z : D) where
  pin_again-Preserves :
      (p : Pool D) (f : ℕ) → IsValid p → IsSaved z p → Preserves z p (pin_again p f)
  unfolding contents pin_again
  pin_again-Preserves p f v s = record {
    saved = record {
      good = s.good;
      ids = s.ids;
      saved = λ q g here unpinned clean. ground (arith, s.saved q g here, v.pins f);
    };
    same = λ q. ground (arith, Option-cases (lookup q p.page_table));
    grows = omega arith;
  }

  -- A frame that shows the content of a page, and no content changed.
  abbrev pub Serves : Pool D → ℕ → Pool D → ℕ → Type 0
  Serves p page_id p' f = Preserves z p p' × ((p'.pages f).content ≡ contents z p page_id)

  fetch_hit-Serves :
      (p : Pool D) (page_id f : ℕ)
      → IsValid p
      → IsSaved z p
      → lookup page_id p.page_table ≡ some f
      → Serves p page_id (pin_again p f) f
  unfolding contents pin_again
  fetch_hit-Serves p page_id f v s here = (pin_again-Preserves p f v s, ground (arith, here))

  contents_missing :
      (p : Pool D) (q : ℕ) → lookup q p.page_table ≡ none → contents z p q ≡ on_disk z p.disk q
  unfolding contents
  contents_missing p q missing = rw (missing, contents)

  content-install :
      (p : Pool D) (f page_id : ℕ) (x : D) → ((install p f page_id x).pages f).content ≡ x
  unfolding install
  content-install p f page_id x = ground arith

  disk-install : (p : Pool D) (f page_id : ℕ) (x : D) → (install p f page_id x).disk ≡ p.disk
  unfolding install
  disk-install p f page_id x = refl

  fetch_miss-Serves :
      (p q : Pool D) (page_id f : ℕ)
      → lookup page_id p.page_table ≡ none
      → Claims p f q
      → Preserves z p q
      → Serves p page_id (install q f page_id (on_disk z q.disk page_id)) f
  fetch_miss-Serves p q page_id f missing c pr = (
    record {
      saved = install-IsSaved z q f page_id x c.valid c.unmarked pr.saved;
      same = λ r. contents-install z q f page_id x r c.valid c.unmarked ∙ unchanged r ∙ pr.same r;
      grows = rw disk-install pr.grows;
    },
    content-install q f page_id x ∙ read ∙ pr.same page_id,
  )
    where
      x : D
      x = on_disk z q.disk page_id

      read : x ≡ contents z q page_id
      read = sym (contents_missing q page_id (c.absent page_id missing))

      unchanged : (r : ℕ) → (if page_id == r then x else contents z q r) ≡ contents z q r
      unchanged r = ground (arith, read)

  -- In a valid pool over a good stream, whose unpinned clean pages are as in the file, fetching an
  -- allocated page that is in the pool or in the file, where it gets a frame, hands out the content
  -- of the page, and the content of no page changes: the pool is a transparent cache, evictions and
  -- write-backs included. The pool stays such a pool, and the file does not shrink.
  pub fetch_page-Serves :
      (p p' : Pool D) (page_id f : ℕ)
      → IsValid p
      → IsSaved z p
      → page_id < p.disk.next_page_id
      → (lookup page_id p.page_table ≢ none) ⊎ (page_id < length p.disk.file)
      → fetch_page z p page_id ≡ returned p' (some f)
      → Serves p page_id p' f
  unfolding fetch_page
  fetch_page-Serves p p' page_id f v s low readable run =
      elim (Option-cases (lookup page_id p.page_table)) [
        | inr (g, here) ↦
            frame_along z (Serves p page_id) (pin_again p g) p' g f
              (fetch_hit-Serves p page_id g v s here) (rw (here, fetch_page) at run)
        | inl missing ↦ elim (claim_frame-Claims z p v) [
          | inl (refusal, full) ↦ absurd (ground (arith, missing, refusal))
          | inr (g, q, claim, c) ↦
              let pr = (claim_frame-Preserves z p q g v s claim).1 in
              let inside : page_id < length p.disk.file = elim readable [
                | inl there ↦ absurd (there missing)
                | inr there ↦ there
              ] in
              let read =
                read_page_inside z q.disk page_id pr.saved.good (omega (arith, inside, pr.grows))
                  (omega (arith, s.ids)) in
              frame_along z (Serves p page_id) (install q g page_id (on_disk z q.disk page_id)) p' g
                f (fetch_miss-Serves p q page_id g missing c pr)
                (rw read at (rw claim at (rw (missing, fetch_page) at run)))
        ]
      ]

  with_disk-IsSaved :
      (p : Pool D) (d : Disk D)
      → IsSaved z p
      → d.failed ≡ false
      → d.file ≡ p.disk.file
      → d.next_page_id ≤ 2147483648
      → IsSaved z (record p { disk = d })
  with_disk-IsSaved p d s good same_file ids = record {
    good = good;
    ids = ids;
    saved = λ q f here unpinned clean. rw same_file (s.saved q f here unpinned clean);
  }

  contents-with_disk :
      (p : Pool D) (d : Disk D) (q : ℕ)
      → d.file ≡ p.disk.file
      → contents z (record p { disk = d }) q ≡ contents z p q
  unfolding contents
  contents-with_disk p d q same_file = ground (arith, Option-cases (lookup q p.page_table))

  -- In a valid pool over a good stream, whose unpinned clean pages are as in the file and with a
  -- page id left, a `NewPage` that gets a frame returns the next page id and makes that page read
  -- as zeros; the content of every other page is as before, and no unpinned clean page differs from
  -- the file.
  pub new_page-contents :
      (p p' : Pool D) (page_id f : ℕ)
      → IsValid p
      → IsSaved z p
      → p.disk.next_page_id < 2147483647
      → new_page z p ≡ returned p' (some (page_id, f))
      → (page_id ≡ p.disk.next_page_id)
        × IsSaved z p'
        × ((q : ℕ) → contents z p' q ≡ (if page_id == q then z else contents z p q))
  unfolding new_page allocate_page
  new_page-contents p p' page_id f v s low run = elim (claim_frame-Claims z p v) [
    | inl (refusal, full) ↦ absurd (ground (arith, refusal))
    | inr (g, q, claim, c) ↦
        let pr = (claim_frame-Preserves z p q g v s claim).1 in
        let d = (allocate_page q.disk).0 in
        let le : q.disk.next_page_id ≤ d.next_page_id = omega (arith, c.next_page_id) in
        let wider = with_disk-IsValid q c.valid d le in
        let saved =
          with_disk-IsSaved q d pr.saved pr.saved.good refl (omega (arith, c.next_page_id)) in
        let q' = record q { disk = d } in
        let out : ◌≡◌ {A = Outcome D (Option (ℕ × ℕ))}
            (returned (install q' g q.disk.next_page_id z) (some (q.disk.next_page_id, g)))
            (returned p' (some (page_id, f))) =
          rw claim at run in
        let same_id : q.disk.next_page_id ≡ page_id = ground arith in
        let same_pool : install q' g q.disk.next_page_id z ≡ p' = ground arith in
        (
          sym same_id ∙ c.next_page_id,
          subst (IsSaved z) same_pool
              (install-IsSaved z q' g q.disk.next_page_id z wider c.unmarked saved),
          λ r. ground (
            arith,
            same_pool,
            contents-install z q' g q.disk.next_page_id z r wider c.unmarked,
            contents-with_disk q d r refl,
            pr.same r,
          ),
        )
  ]

  unpin_frame-Preserves :
      (p : Pool D) (page_id f : ℕ) (dirty : Bool)
      → IsValid p
      → IsSaved z p
      → lookup page_id p.page_table ≡ some f
      → (dirty ≡ true) ⊎ ((p.pages f).content ≡ on_disk z p.disk page_id)
      → Preserves z p (unpin_frame p f dirty)
  unfolding contents
  unpin_frame-Preserves p page_id f dirty v s here told = record {
    saved = record {
      good = s.good;
      ids = s.ids;
      saved = λ q g there unpinned clean.
          ground (arith, s.saved q g there, told, v.homed q g there, v.homed page_id f here);
    };
    same = λ q. ground (arith, Option-cases (lookup q p.page_table));
    grows = omega arith;
  }

  -- In a valid pool over a good stream, whose unpinned clean pages are as in the file, `UnpinPage`
  -- of a page of the pool changes the content of no page, and the pool stays such a pool, if the
  -- page is marked dirty or the file has its content already.
  pub unpin_page-Preserves :
      (p : Pool D) (page_id f : ℕ) (dirty : Bool)
      → IsValid p
      → IsSaved z p
      → lookup page_id p.page_table ≡ some f
      → (dirty ≡ true) ⊎ ((p.pages f).content ≡ on_disk z p.disk page_id)
      → Preserves z p (unpin_page p page_id dirty).0
  unfolding unpin_page
  unpin_page-Preserves p page_id f dirty v s here told =
      elim (Bool-cases (not_positive (p.pages f).pin_count)) [
        | inl no_pin ↦
            rw (here, unpin_page)
              (rw no_pin (record { saved = s; same = λ q. refl; grows = omega arith }))
        | inr allowed ↦
            rw (here, unpin_page)
              (rw allowed (unpin_frame-Preserves p page_id f dirty v s here told))
      ]

  write_out-Preserves :
      (p : Pool D) (page_id f : ℕ)
      → IsValid p
      → IsSaved z p
      → lookup page_id p.page_table ≡ some f
      → let p' = write_out z p page_id f in
        Preserves z p p' × (on_disk z p'.disk page_id ≡ (p.pages f).content)
  unfolding write_out contents
  write_out-Preserves p page_id f v s here = (
    record {
      saved = record {
        good = (written 0).0;
        ids = ground (arith, s.ids, written 0);
        saved = λ q g there unpinned clean.
            ground (
              arith,
              s.saved q g there,
              written q,
              here,
              v.homed q g there,
              v.homed page_id f here,
            );
      };
      same = λ q. ground (arith, Option-cases (lookup q p.page_table), written q, here);
      grows = (written 0).2;
    },
    ground (arith, written page_id),
  )
    where
      written :
          (q : ℕ)
          → let d' = write_page z p.disk page_id (p.pages f).content in
            (d'.failed ≡ false)
            × (on_disk z d' q ≡ (if page_id == q then (p.pages f).content else on_disk z p.disk q))
            × (length p.disk.file ≤ length d'.file)
            × (d'.next_page_id ≡ p.disk.next_page_id)
      written q =
          on_disk-write_page z p.disk page_id q (p.pages f).content s.good
            (omega (arith, s.ids, v.allocated page_id f here))

  -- In a valid pool over a good stream, whose unpinned clean pages are as in the file, `FlushPage`
  -- of a page of the pool writes the page's content to the file and changes the content of no page,
  -- and the pool stays such a pool.
  pub flush_page-Preserves :
      (p : Pool D) (page_id f : ℕ)
      → IsValid p
      → IsSaved z p
      → lookup page_id p.page_table ≡ some f
      → let p' = (flush_page z p page_id).0 in
        Preserves z p p' × (on_disk z p'.disk page_id ≡ contents z p page_id)
  unfolding flush_page contents
  flush_page-Preserves p page_id f v s here =
      rw (here, flush_page, contents) (write_out-Preserves p page_id f v s here)
