-- ===== src/Buffer/Replacer/Marks.antt =====
-- Whether a frame is tracked, and whether it is evictable: the view that the buffer pool needs.
use zlchen_dsaa2031_project.Prelude.{
  ◌≤◌, ◌≢◌, length, length-erase-le, ◌⊎◌, inl, inr, ℕ, ◌≡◌, refl, Option, none, some, Bool, true,
  false, ◌==◌, arith, if◌then◌else◌, Option-cases, lookup, lookup-insert, lookup-erase, erase,
  dec64,
}
use zlchen_dsaa2031_project.Buffer.Replacer.{
  FrameEntry, Replacer, init, record_access, set_evictable, evict, refused, evicted, remove,
  removed,
}
use zlchen_dsaa2031_project.Buffer.Replacer.Invariant.{IsValid, accessed, drop_frame-IsValid}
use zlchen_dsaa2031_project.Buffer.Replacer.Victim.{evict-Evicts}

abbrev pub mark_of : Option FrameEntry → Option Bool
mark_of none = none
mark_of (some e) = some e.is_evictable

unfoldable pub mark : Replacer → ℕ → Option Bool
mark r f = mark_of (lookup f r.entries)

pub mark-init : (n k f : ℕ) → mark (init n k) f ≡ none
unfolding mark init lookup
mark-init n k f = refl

-- A frame that was just accessed and marked carries that mark; no other frame's mark moves.
pub mark-set_evictable-record_access :
    (r : Replacer) (f g : ℕ) (set : Bool)
    → mark (set_evictable (record_access r f) f set) g ≡ (if f == g then some set else mark r g)
unfolding mark set_evictable record_access
mark-set_evictable-record_access r f g set = ground (
  arith,
  lookup-insert f f (accessed r f) r.entries,
  lookup-insert f g (accessed r f) r.entries,
  lookup-insert f g (record (accessed r f) { is_evictable = set }) (record_access r f).entries,
)

pub mark-set_evictable :
    (r : Replacer) (f g : ℕ) (set b : Bool)
    → mark r f ≡ some b
    → mark (set_evictable r f set) g ≡ (if f == g then some set else mark r g)
unfolding mark set_evictable
mark-set_evictable r f g set b h = elim (Option-cases (lookup f r.entries)) [
  | inl missing ↦ ground arith
  | inr (e, found) ↦
      ground (arith, found, lookup-insert f g (record e { is_evictable = set }) r.entries)
]

pub mark-erase :
    (r : Replacer) (f g n : ℕ)
    → mark (record r { curr_size = n; entries = erase f r.entries }) g
      ≡ (if f == g then none else mark r g)
unfolding mark
mark-erase r f g n = ground (arith, lookup-erase f g r.entries)

-- `r'` is `r` without the frame `f`, which was evictable.
pub record Drops (r : Replacer) (f : ℕ) (r' : Replacer) : Type 0 where
  pub was_evictable : mark r f ≡ some true
  pub valid : IsValid r'
  pub marks : (g : ℕ) → mark r' g ≡ (if f == g then none else mark r g)
  pub clock : r'.current_timestamp ≡ r.current_timestamp
  pub shrinks : length r'.entries ≤ length r.entries

drop_frame-Drops :
    (r : Replacer) (f : ℕ) (e : FrameEntry)
    → IsValid r
    → lookup f r.entries ≡ some e
    → e.is_evictable ≡ true
    → Drops r f (record r { curr_size = dec64 r.curr_size; entries = erase f r.entries })
unfolding mark
drop_frame-Drops r f e v found can = record {
  was_evictable = ground arith;
  valid = drop_frame-IsValid r f e v found can;
  marks = λ g. mark-erase r f g (dec64 r.curr_size);
  clock = refl;
  shrinks = length-erase-le f r.entries;
}

pub evict-Drops :
    (r : Replacer)
    → IsValid r
    → ((evict r ≡ refused) × ((f : ℕ) → mark r f ≢ some true))
      ⊎ ((f : ℕ) × (r' : Replacer) × (evict r ≡ evicted f r') × Drops r f r')
unfolding mark
evict-Drops r v = elim (evict-Evicts r v) [
  | inl (run, all_pinned) ↦
      inl (run, λ f e. pinned f (Option-cases (lookup f r.entries)) all_pinned e)
  | inr (f, e, run, found, can, _) ↦ inr (f, _, run, drop_frame-Drops r f e v found can)
]
  where
    pinned :
        (f : ℕ)
        → (lookup f r.entries ≡ none) ⊎ ((e : FrameEntry) × (lookup f r.entries ≡ some e))
        → ((g : ℕ) (e : FrameEntry) → lookup g r.entries ≡ some e → e.is_evictable ≡ false)
        → mark r f ≡ some true
        → ⊥
    pinned f (inl missing) all_pinned m = ground arith
    pinned f (inr (e, found)) all_pinned m = ground (arith, all_pinned f e found)

pub remove-Drops :
    (r : Replacer) (f : ℕ)
    → IsValid r
    → mark r f ≡ some true
    → (r' : Replacer) × (remove r f ≡ removed r') × Drops r f r'
unfolding mark remove
remove-Drops r f v can = elim (Option-cases (lookup f r.entries)) [
  | inl missing ↦ absurd (ground arith)
  | inr (e, found) ↦
      let yes_it_is : e.is_evictable ≡ true = ground arith in
      (_, rw (found, remove) (rw yes_it_is), drop_frame-Drops r f e v found yes_it_is)
]
