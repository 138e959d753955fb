-- ===== src/Buffer/Pool/Contents.antt =====
-- The pool seen as a map from page ids to contents: caching, eviction and write-back do not show.
use zlchen_dsaa2031_project.Prelude.{
  ℕ, ◌≤◌, ◌≡◌, refl, subst, inl, inr, List, none, some, true, false, ◌==◌, arith, length, lookup,
  lookup-insert, lookup-erase, if◌then◌else◌, Option-cases,
}
use zlchen_dsaa2031_project.Storage.Disk.{write_page}
use zlchen_dsaa2031_project.Storage.Disk.Failure.{on_disk, on_disk-write_page}
use zlchen_dsaa2031_project.Buffer.Replacer.{Replacer}
use zlchen_dsaa2031_project.Buffer.Replacer.Marks.{mark, Drops, evict-Drops}
use zlchen_dsaa2031_project.Buffer.Pool.{
  Pool, returned, install, write_back, claim_victim, claim_from, claim_frame,
}
use zlchen_dsaa2031_project.Buffer.Pool.Claim.{IsValid, Claims, claim_free, evict_frame, list_cases}

-- The content of a page: of its frame if it has one, and of the file otherwise.
unfoldable pub contents : {D : Type 0} → D → Pool D → ℕ → D
contents z p q = elim (lookup q p.page_table) [
  | some f ↦ (p.pages f).content
  | none ↦ on_disk z p.disk q
]

-- Nothing is lost if an unpinned clean frame is dropped: the file has its content.
pub record IsSaved {D : Type 0} (z : D) (p : Pool D) : Type 0 where
  pub good : p.disk.failed ≡ false
  pub ids : p.disk.next_page_id ≤ 2147483648
  pub saved :
      (q f : ℕ)
      → lookup q p.page_table ≡ some f
      → (p.pages f).pin_count ≡ 0
      → (p.pages f).is_dirty ≡ false
      → (p.pages f).content ≡ on_disk z p.disk q

pub record Preserves {D : Type 0} (z : D) (p p' : Pool D) : Type 0 where
  pub saved : IsSaved z p'
  pub same : (q : ℕ) → contents z p' q ≡ contents z p q
  pub grows : length p.disk.file ≤ length p'.disk.file

module _ {D : Type 0} (z : D) where
  claim_free-Preserves :
      (p : Pool D) (rest : List ℕ) → IsSaved z p → Preserves z p (record p { free_list = rest })
  unfolding contents
  claim_free-Preserves p rest s = record {
    saved = record { good = s.good; ids = s.ids; saved = s.saved };
    same = λ q. refl;
    grows = omega arith;
  }

  write_back-Preserves :
      (p : Pool D) (f : ℕ) (r : Replacer)
      → IsValid p
      → IsSaved z p
      → Drops p.replacer f r
      → Preserves z p (write_back z (record p { replacer = r }) f)
  unfolding contents write_back
  write_back-Preserves p f r v s d = record {
    saved = record {
      good = ground (arith, s.good, written 0);
      ids = ground (arith, s.ids, written 0);
      saved = λ q g here unpinned clean.
          ground (arith, lookup-erase home q p.page_table, written q, s.saved q g);
    };
    same = λ q. ground (
      arith,
      lookup-erase home q p.page_table,
      written q,
      resident,
      s.saved home f resident,
      v.marked home f resident,
      d.was_evictable,
    );
    grows = ground (arith, written 0);
  }
    where
      home : ℕ
      home = (p.pages f).page_id

      resident : lookup home p.page_table ≡ some f
      resident = v.tracked f true d.was_evictable

      written :
          (q : ℕ)
          → let d' = write_page z p.disk home (p.pages f).content in
            (d'.failed ≡ false)
            × (on_disk z d' q ≡ (if home == q then (p.pages f).content else on_disk z p.disk q))
            × (length p.disk.file ≤ length d'.file)
            × (d'.next_page_id ≡ p.disk.next_page_id)
      written q =
          on_disk-write_page z p.disk home q (p.pages f).content s.good
            (omega (arith, s.ids, v.allocated home f resident))

  pub frame_along :
      (P : Pool D → ℕ → Type 0) (q p' : Pool D) (g f : ℕ)
      → P q g
      → returned q (some g) ≡ returned p' (some f)
      → P p' f
  frame_along P q p' g f holds run =
      let same_frame : g ≡ f = ground arith in
      let same_pool : q ≡ p' = ground arith in
      subst (P p') same_frame (subst (λ r. P r g) same_pool holds)

  -- A frame is claimed without a trace.
  pub claim_frame-Preserves :
      (p p' : Pool D) (f : ℕ)
      → IsValid p
      → IsSaved z p
      → claim_frame z p ≡ returned p' (some f)
      → Claims p f p' × Preserves z p p'
  unfolding claim_frame
  claim_frame-Preserves p p' f v s run = elim (list_cases p.free_list) [
    | inr (g, rest, eq) ↦
        frame_along (λ q h. Claims p h q × Preserves z p q) (record p { free_list = rest }) p' g f
          (claim_free z p g rest v eq, claim_free-Preserves p rest s)
          (subst (λ l. claim_from z p l ≡ returned p' (some f)) eq run)
    | inl eq ↦
        let tried = subst (λ l. claim_from z p l ≡ returned p' (some f)) eq run in
        elim (evict-Drops p.replacer v.replacer) [
          | inl (none_left, all_pinned) ↦ absurd (
              ground
                (arith, subst (λ e. claim_victim z p e ≡ returned p' (some f)) none_left tried))
          | inr (g, r, out, d) ↦
              frame_along (λ q h. Claims p h q × Preserves z p q)
                (write_back z (record p { replacer = r }) g) p' g f
                (evict_frame z p g r v eq d, write_back-Preserves p g r v s d)
                (subst (λ e. claim_victim z p e ≡ returned p' (some f)) out tried)
        ]
  ]

  -- The installed page reads as what was put in; every other page reads as before.
  pub contents-install :
      (p : Pool D) (f page_id : ℕ) (content : D) (q : ℕ)
      → IsValid p
      → mark p.replacer f ≡ none
      → contents z (install p f page_id content) q
        ≡ (if page_id == q then content else contents z p q)
  unfolding contents install
  contents-install p f page_id content q v unmarked = elim (Option-cases (lookup q p.page_table)) [
    | inl missing ↦ ground (arith, missing, lookup-insert page_id q f p.page_table)
    | inr (g, here) ↦
        ground (arith, here, v.marked q g here, unmarked, lookup-insert page_id q f p.page_table)
  ]

  pub install-IsSaved :
      (p : Pool D) (f page_id : ℕ) (content : D)
      → IsValid p
      → mark p.replacer f ≡ none
      → IsSaved z p
      → IsSaved z (install p f page_id content)
  unfolding install
  install-IsSaved p f page_id content v unmarked s = record {
    good = s.good;
    ids = s.ids;
    saved = λ q g here unpinned clean.
        ground (arith, lookup-insert page_id q f p.page_table, s.saved q g, v.marked q g, unmarked);
  }
