-- ===== src/Buffer/Pool/Pins.antt =====
-- A pin holds: while a page is pinned no call takes its frame or touches its bytes.
use zlchen_dsaa2031_project.Prelude.{
  ℕ, ◌≡◌, ◌≢◌, refl, subst, inl, inr, Option, none, some, arith, lookup, lookup-insert,
  Option-cases,
}
use zlchen_dsaa2031_project.Storage.Disk.{Disk, read_page, allocate_page}
use zlchen_dsaa2031_project.Buffer.Pool.{Pool, returned, install, pin_again, new_page, fetch_page}
use zlchen_dsaa2031_project.Buffer.Pool.Claim.{IsValid, Claims, claim_frame-Claims}
use zlchen_dsaa2031_project.Buffer.Pool.Invariant.{HasRoom}
use zlchen_dsaa2031_project.Buffer.Pool.Calls.{Holds, next_page_id_unused}

-- Every pinned page stays pinned in its frame, with its content.
abbrev pub Keeps : {D : Type 0} → Pool D → Pool D → Type 0
Keeps p p' = (q g : ℕ) → Holds p q g → Holds p' q g × ((p'.pages g).content ≡ (p.pages g).content)

module _ {D : Type 0} where
  claimed_elsewhere : (p p' : Pool D) (f q g : ℕ) → Claims p f p' → Holds p q g → g ≢ f
  claimed_elsewhere p p' f q g c h e = ground (arith, c.unpinned q, h.resident, h.pinned)

  install-Keeps :
      (p p' : Pool D) (f : ℕ) (d : Disk D) (page_id : ℕ) (content : D)
      → Claims p f p'
      → lookup page_id p.page_table ≡ none
      → Keeps p (install (record p' { disk = d }) f page_id content)
  unfolding install
  install-Keeps p p' f d page_id content c new q g h = (
    record {
      resident =
          ground (
            arith,
            lookup-insert page_id q f p'.page_table,
            c.kept q g h.resident other,
            h.resident,
          );
      pinned = ground (arith, c.same_pages g, h.pinned);
    },
    ground (arith, c.same_pages g, other),
  )
    where
      other : g ≢ f
      other = claimed_elsewhere p p' f q g c h

  pin_again-Keeps : (p : Pool D) (f : ℕ) → HasRoom p → Keeps p (pin_again p f)
  unfolding pin_again
  pin_again-Keeps p f room q g h = (
    record { resident = h.resident; pinned = ground (arith, room.pins g, h.pinned) },
    ground arith,
  )

  outcome_along :
      {A : Type 0} (P : Pool D → Type 0) (q p' : Pool D) (a b : A)
      → P q
      → returned q a ≡ returned p' b
      → P p'
  outcome_along P q p' a b holds run =
      let same_pool : q ≡ p' = ground arith in subst P same_pool holds

module _ {D : Type 0} (z : D) (p : Pool D) (v : IsValid p) (room : HasRoom p) where
  -- In a valid pool whose clock, map of frames and pin counts have room for one more, `FetchPage`
  -- keeps every pinned page pinned in its frame, with its content, whatever page it evicts.
  pub fetch_page-Keeps :
      (p' : Pool D) (page_id : ℕ) (result : Option ℕ)
      → fetch_page z p page_id ≡ returned p' result
      → (q g : ℕ) → Holds p q g
      → Holds p' q g × ((p'.pages g).content ≡ (p.pages g).content)
  unfolding fetch_page
  fetch_page-Keeps p' page_id result run = elim (Option-cases (lookup page_id p.page_table)) [
    | inr (f, here) ↦
        outcome_along (Keeps p) (pin_again p f) p' (some f) result (pin_again-Keeps p f room)
          (rw (here, fetch_page) at run)
    | inl missing ↦ elim (claim_frame-Claims z p v) [
      | inl (refusal, full) ↦
          outcome_along (Keeps p) p p' none result (λ q g h. (h, refl))
            (rw refusal at (rw (missing, fetch_page) at run))
      | inr (f, q, claim, c) ↦
          let (d, content) = read_page z q.disk page_id in
          outcome_along (Keeps p) (install (record q { disk = d }) f page_id content) p' (some f)
            result (install-Keeps p q f d page_id content c missing)
            (rw claim at (rw (missing, fetch_page) at run))
    ]
  ]

  -- In a valid pool whose clock, map of frames and pin counts have room for one more, `NewPage`
  -- keeps every pinned page pinned in its frame, with its content, whatever page it evicts.
  pub new_page-Keeps :
      (p' : Pool D) (result : Option (ℕ × ℕ))
      → new_page z p ≡ returned p' result
      → (q g : ℕ) → Holds p q g
      → Holds p' q g × ((p'.pages g).content ≡ (p.pages g).content)
  unfolding new_page allocate_page
  new_page-Keeps p' result run = elim (claim_frame-Claims z p v) [
    | inl (refusal, full) ↦
        outcome_along (Keeps p) p p' none result (λ q g h. (h, refl)) (rw refusal at run)
    | inr (f, q, claim, c) ↦
        let (d, page_id) = allocate_page q.disk in
        outcome_along (Keeps p) (install (record q { disk = d }) f page_id z) p' (some (page_id, f))
          result (install-Keeps p q f d page_id z c (rw c.next_page_id (next_page_id_unused p v)))
          (rw claim at run)
  ]
