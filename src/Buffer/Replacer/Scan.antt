-- ===== src/Buffer/Replacer/Scan.antt =====
-- The loop of `Evict` keeps four variables; the reference keeps the best entry seen so far.
use zlchen_dsaa2031_project.Prelude.{
  ℕ, ◌<◌, ◌-◌, ◌≡◌, refl, List, [], ◌∷◌, Option, none, some, Bool, true, false, not, arith, length,
  get_or, ltb, if◌then◌else◌, All,
}
use zlchen_dsaa2031_project.Buffer.Replacer.{FrameEntry, Search, start, visit, scan}

-- The access that the k-distance is measured from.
abbrev pub oldest : FrameEntry → ℕ
oldest e = get_or e.history 0 0

-- Fewer than k accesses: the backward k-distance is infinite.
abbrev pub is_infinite : ℕ → FrameEntry → Bool
is_infinite k e = ltb (length e.history) k

-- The entry `e` goes before `e'`: an infinite distance before a finite one, and of two alike the
-- one whose oldest recorded access is earlier.
unfoldable pub goes_before : ℕ → FrameEntry → FrameEntry → Bool
goes_before k e e' =
    if is_infinite k e
    then (if is_infinite k e' then ltb (oldest e) (oldest e') else true)
    else (if is_infinite k e' then false else ltb (oldest e) (oldest e'))

abbrev pub Best : Type 0
Best = Option (ℕ × FrameEntry)

unfoldable pub pick : ℕ → Best → ℕ → FrameEntry → Best
pick k best f e = if not e.is_evictable then best else elim best [
  | none ↦ some (f, e)
  | some (g, e') ↦ if goes_before k e e' then some (f, e) else some (g, e')
]

unfoldable pub best_of : ℕ → List (ℕ × FrameEntry) → Best → Best
best_of k [] best = best
best_of k ((f, e) ∷ rest) best = best_of k rest (pick k best f e)

-- A recorded access exists, and the oldest lies in the past.
abbrev pub IsStamped : ℕ → FrameEntry → Type 0
IsStamped now e = (0 < length e.history) × (oldest e < now)

-- What the four variables say of the best entry.
abbrev pub Tracks : ℕ → ℕ → Search → Best → Type 0
Tracks k now s none = (s.victim_frame ≡ none) × (s.found_inf_frame ≡ false)
Tracks k now s (some (f, e)) =
    (s.victim_frame ≡ some f)
    × (oldest e < now)
    × (s.found_inf_frame ≡ is_infinite k e)
    × (is_infinite k e ≡ true → s.earliest_timestamp ≡ oldest e)
    × (is_infinite k e ≡ false → s.max_k_distance ≡ now - oldest e)

abbrev visited : Option Search → Search → Search
visited none s = s
visited (some s') s = s'

visit-Tracks :
    (k now f : ℕ) (e : FrameEntry) (s : Search) (best : Best)
    → now < 18446744073709551616
    → IsStamped now e
    → Tracks k now s best
    → let s' = visited (visit k now f e s) s in
      (visit k now f e s ≡ some s') × Tracks k now s' (pick k best f e)
unfolding visit pick goes_before
visit-Tracks k now f e s none small st t = ground arith
visit-Tracks k now f e s (some (g, e')) small st t = ground arith

scan-Tracks :
    (k now : ℕ) (es : List (ℕ × FrameEntry)) (s : Search) (best : Best)
    → now < 18446744073709551616
    → All (λ p. IsStamped now p.1) es
    → Tracks k now s best
    → (s' : Search) × (scan k now es s ≡ some s') × Tracks k now s' (best_of k es best)
unfolding scan best_of
scan-Tracks k now [] s best small st t = (s, refl, t)
scan-Tracks k now ((f, e) ∷ rest) s best small st t =
    let (stepped, t') = visit-Tracks k now f e s best small st.0 t in
    rw stepped (scan-Tracks k now rest _ (pick k best f e) small st.1 t')

-- The frame that the reference names.
abbrev pub frame_of : Best → Option ℕ
frame_of none = none
frame_of (some (f, e)) = some f

victim_of_Tracks :
    (k now : ℕ) (s : Search) (best : Best) → Tracks k now s best → s.victim_frame ≡ frame_of best
victim_of_Tracks k now s none t = t.0
victim_of_Tracks k now s (some (f, e)) t = t.0

pub scan-best_of :
    (k now : ℕ) (es : List (ℕ × FrameEntry))
    → now < 18446744073709551616
    → All (λ p. IsStamped now p.1) es
    → (s : Search) × (scan k now es start ≡ some s)
      × (s.victim_frame ≡ frame_of (best_of k es none))
scan-best_of k now es small st =
    let (s, run, t) = scan-Tracks k now es start none small st (refl, refl) in
    (s, run, victim_of_Tracks k now s (best_of k es none) t)
