-- ===== src/Buffer/Replacer/Tests.antt =====
-- The replacer run on a small history.
use zlchen_dsaa2031_project.Prelude.{
  ℕ, ◌≡◌, ◌⊎◌, [], ◌∷◌, some, true, false, ◌&&◌, arith, All, lookup, erase, dec64, insert,
}
use zlchen_dsaa2031_project.Buffer.Replacer.{
  Replacer, FrameEntry, init, push_access, record_access, set_evictable, evict, evicted, refused,
}
use zlchen_dsaa2031_project.Buffer.Replacer.Invariant.{
  IsValid, init-IsValid, record_access-IsValid, set_evictable-IsValid,
}
use zlchen_dsaa2031_project.Buffer.Replacer.Scan.{goes_before}
use zlchen_dsaa2031_project.Buffer.Replacer.Victim.{evict-goes_before}

-- Frame 0 twice, frame 1 once, frame 2 twice; frame 2 is pinned.
abbrev r0 : Replacer
r0 = init 3 2

abbrev r1 : Replacer
r1 = record_access r0 0

abbrev r2 : Replacer
r2 = record_access r1 0

abbrev r3 : Replacer
r3 = record_access r2 1

abbrev r4 : Replacer
r4 = record_access r3 2

abbrev r5 : Replacer
r5 = set_evictable r4 0 true

abbrev r6 : Replacer
r6 = set_evictable r5 1 true

r6-IsValid : IsValid r6
unfolding init record_access push_access set_evictable insert lookup
r6-IsValid = set_evictable-IsValid r5 1 true (
    set_evictable-IsValid r4 0 true (
      record_access-IsValid r3 2
        (record_access-IsValid r2 1
          (record_access-IsValid r1 0
            (record_access-IsValid r0 0 (init-IsValid 3 2 (omega arith)) (omega arith)
              (omega arith))
            (omega arith) (omega arith))
          (omega arith) (omega arith))
        (omega arith) (omega arith)))

-- The frame with one access goes first.
abbrev victim : FrameEntry
victim = record { history = 2 ∷ []; is_evictable = true }

evict-goes_before_example :
    ((evict r6 ≡ refused) × All (λ p. p.1.is_evictable ≡ false) r6.entries)
    ⊎ ((f : ℕ) × (e : FrameEntry) × (evict r6
          ≡ evicted f (record r6 { curr_size = dec64 r6.curr_size; entries = erase f r6.entries }))
        × (lookup f r6.entries ≡ some e)
        × (e.is_evictable ≡ true)
        × All (λ p. (p.1.is_evictable && goes_before r6.k p.1 e) ≡ false) r6.entries)
evict-goes_before_example = evict-goes_before r6 r6-IsValid
