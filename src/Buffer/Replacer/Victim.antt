-- ===== src/Buffer/Replacer/Victim.antt =====
-- The frame that `Evict` takes is the one with the largest backward k-distance.
use zlchen_dsaa2031_project.Prelude.{
  ◌&&◌, ap, ◌∙◌, subst, Option-cases, All-of_lookup, erase, dec64, ℕ, ◌≡◌, refl, ◌⊎◌, inl, inr,
  List, [], ◌∷◌, none, some, true, false, arith, All, Distinct, lookup, keys, lookup_absent,
}
use zlchen_dsaa2031_project.Buffer.Replacer.{
  Search, scan, start, FrameEntry, Replacer, evict, refused, evicted, conclude,
}
use zlchen_dsaa2031_project.Buffer.Replacer.Invariant.{IsValid, IsValidEntry, Below}
use zlchen_dsaa2031_project.Buffer.Replacer.Scan.{
  IsStamped, Best, pick, best_of, goes_before, frame_of, scan-best_of,
}

-- `best` is evictable, and no evictable entry of the list goes before it.
abbrev Beats : ℕ → Best → ℕ × FrameEntry → Type 0
Beats k none p = p.1.is_evictable ≡ false
Beats k (some (f, e)) p = p.1.is_evictable ≡ true → goes_before k p.1 e ≡ false

pick-Beats : (k : ℕ) (best : Best) (f : ℕ) (e : FrameEntry) → Beats k (pick k best f e) (f, e)
unfolding pick goes_before
pick-Beats k none f e = ground arith
pick-Beats k (some (g, e')) f e = ground arith

pick-Beats_old :
    (k : ℕ) (best : Best) (f : ℕ) (e : FrameEntry) (p : ℕ × FrameEntry)
    → Beats k best p
    → Beats k (pick k best f e) p
unfolding pick goes_before
pick-Beats_old k none f e p h = ground arith
pick-Beats_old k (some (g, e')) f e p h = ground arith

best_of-Beats_old :
    (k : ℕ) (es : List (ℕ × FrameEntry)) (best : Best) (p : ℕ × FrameEntry)
    → Beats k best p
    → Beats k (best_of k es best) p
unfolding best_of
best_of-Beats_old k [] best p h = h
best_of-Beats_old k ((f, e) ∷ es) best p h =
    best_of-Beats_old k es (pick k best f e) p (pick-Beats_old k best f e p h)

best_of-Beats :
    (k : ℕ) (es : List (ℕ × FrameEntry)) (best : Best) (g : ℕ) (e' : FrameEntry)
    → lookup g es ≡ some e'
    → Beats k (best_of k es best) (g, e')
unfolding best_of lookup
best_of-Beats k [] best g e' h = absurd (ground arith)
best_of-Beats k ((f, e) ∷ es) best g e' h = ground (
  arith,
  best_of-Beats_old k es (pick k best f e) (f, e) (pick-Beats k best f e),
  best_of-Beats k es (pick k best f e) g e',
)

-- What the reference returns is evictable and stands in the list.
best_of-Found :
    (k : ℕ) (es : List (ℕ × FrameEntry)) (best : Best) (f : ℕ) (e : FrameEntry)
    → Distinct (keys es)
    → best_of k es best ≡ some (f, e)
    → (best ≡ some (f, e)) ⊎ ((lookup f es ≡ some e) × (e.is_evictable ≡ true))
unfolding best_of lookup pick
best_of-Found k [] best f e d h = inl h
best_of-Found k ((g, w) ∷ es) best f e d h = elim (best_of-Found k es (pick k best g w) f e d.1 h) [
  | inl picked ↦ picked_cases best picked
  | inr (found, can) ↦ inr (ground (arith, lookup_absent g es d.0), can)
]
  where
    picked_cases :
        (b : Best)
        → pick k b g w ≡ some (f, e)
        → (b ≡ some (f, e)) ⊎ ((lookup f ((g, w) ∷ es) ≡ some e) × (e.is_evictable ≡ true))
    picked_cases none p = ground arith
    picked_cases (some (i, x)) p = ground arith

IsStamped-of_valid :
    (k now : ℕ) (e : FrameEntry) (h : List ℕ)
    → e.history ≡ h
    → IsValidEntry k now e
    → IsStamped now e
IsStamped-of_valid k now e [] eq v = ground (arith, v.accessed)
IsStamped-of_valid k now e (t ∷ h) eq v =
    let past : Below now (t ∷ h) = subst (Below now) eq v.past in rw eq (omega arith, past.0)

-- What `Evict` promises of a replacer, its result in hand.
abbrev pub Evicts : Replacer → Type 0
Evicts r =
    ((evict r ≡ refused)
      × ((g : ℕ) (e : FrameEntry) → lookup g r.entries ≡ some e → e.is_evictable ≡ false))
    ⊎ ((f : ℕ) × (e : FrameEntry) × (evict r
          ≡ evicted f (record r { curr_size = dec64 r.curr_size; entries = erase f r.entries }))
        × (lookup f r.entries ≡ some e)
        × (e.is_evictable ≡ true)
        × ((g : ℕ) (e' : FrameEntry)
            → lookup g r.entries ≡ some e'
            → e'.is_evictable ≡ true
            → goes_before r.k e' e ≡ false))

-- `Evict` runs the reference: its loop reads no empty history, and its victim is the best entry.
evict-best_of :
    (r : Replacer) → IsValid r → evict r ≡ conclude r (frame_of (best_of r.k r.entries none))
unfolding evict
evict-best_of r v = ground (arith, run, result.2)
  where
    result :
        (s : Search) × (scan r.k r.current_timestamp r.entries start ≡ some s)
        × (s.victim_frame ≡ frame_of (best_of r.k r.entries none))
    result = scan-best_of r.k r.current_timestamp r.entries v.no_wrap (
        All-of_lookup (λ p. IsStamped r.current_timestamp p.1) r.entries v.distinct
          (λ g e found.
            IsStamped-of_valid r.k r.current_timestamp e e.history refl (v.entry g e found)))

    run : scan r.k r.current_timestamp r.entries start ≡ some (result.0)
    run = result.1

-- `Evict` on a valid replacer, by frame.
pub evict-Evicts : (r : Replacer) → IsValid r → Evicts r
evict-Evicts r v = elim (Option-cases (best_of r.k r.entries none)) [
  | inl absent ↦ inl (
    evict-best_of r v ∙ ap (λ b. conclude r (frame_of b)) absent,
    λ g e found.
        subst (λ b. Beats r.k b (g, e)) absent (best_of-Beats r.k r.entries none g e found),
  )
  | inr ((f, e), present) ↦
      let (found, can) : (lookup f r.entries ≡ some e) × (e.is_evictable ≡ true) =
        elim (best_of-Found r.k r.entries none f e v.distinct present) [
          | inl impossible ↦ cc
          | inr here ↦ here
        ] in
      inr (
        f,
        e,
        evict-best_of r v ∙ ap (λ b. conclude r (frame_of b)) present,
        found,
        can,
        λ g e' there.
            subst (λ b. Beats r.k b (g, e')) present (best_of-Beats r.k r.entries none g e' there),
      )
]

-- On a valid replacer `Evict` never reads an empty history. It refuses exactly when no frame is
-- evictable; otherwise it drops an evictable frame before which no evictable frame goes: an
-- infinite backward k-distance before a finite one, and of two alike the one whose oldest
-- recorded access is earlier.
pub evict-goes_before :
    (r : Replacer)
    → IsValid r
    → ((evict r ≡ refused) × All (λ p. p.1.is_evictable ≡ false) r.entries)
      ⊎ ((f : ℕ) × (e : FrameEntry) × (evict r
            ≡ evicted f (record r { curr_size = dec64 r.curr_size; entries = erase f r.entries }))
          × (lookup f r.entries ≡ some e)
          × (e.is_evictable ≡ true)
          × All (λ p. (p.1.is_evictable && goes_before r.k p.1 e) ≡ false) r.entries)
evict-goes_before r v = elim (evict-Evicts r v) [
  | inl (run, none_left) ↦ inl (run, All-of_lookup _ r.entries v.distinct none_left)
  | inr (f, e, run, found, can, first) ↦ inr (
    f,
    e,
    run,
    found,
    can,
    All-of_lookup _ r.entries v.distinct (λ g e' there. ground (arith, first g e' there)),
  )
]
