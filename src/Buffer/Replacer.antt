-- ===== src/Buffer/Replacer.antt =====
-- `LRUKReplacer`: src/buffer/lru_k_replacer.cpp and src/include/onebase/buffer/lru_k_replacer.h.
-- Frame ids are array indices, so the local -1 that `Evict` starts from is `none` here.
pub mod Scan
pub mod Victim
pub mod Invariant
pub mod Marks
pub mod Tests
use zlchen_dsaa2031_project.Prelude.{
  ℕ, ◌-◌, List, [], ◌∷◌, ◌++◌, Option, none, some, Bool, true, false, not, ◌&&◌, ◌||◌, length,
  lookup, insert, erase, ltb, if◌then◌else◌, ◌>>=◌, inc64, dec64, sub64,
}

pub record FrameEntry : Type 0 where
  pub history : List ℕ
  pub is_evictable : Bool

pub record Replacer : Type 0 where
  pub max_frames : ℕ
  pub k : ℕ
  pub curr_size : ℕ
  pub current_timestamp : ℕ
  pub entries : List (ℕ × FrameEntry)

unfoldable pub init : ℕ → ℕ → Replacer
init num_frames k = record {
  max_frames = num_frames;
  k = k;
  curr_size = 0;
  current_timestamp = 0;
  entries = [];
}

-- The locals of the loop of `Evict`.
pub record Search : Type 0 where
  pub victim_frame : Option ℕ
  pub max_k_distance : ℕ
  pub earliest_timestamp : ℕ
  pub found_inf_frame : Bool

abbrev pub start : Search
start = record {
  victim_frame = none;
  max_k_distance = 0;
  earliest_timestamp = 18446744073709551615;
  found_inf_frame = false;
}

-- `history_.front()`; `none` is the undefined front of an empty list.
abbrev pub front : List ℕ → Option ℕ
front [] = none
front (t ∷ ts) = some t

abbrev pub is_none {ℓ} : {A : Type ℓ} → Option A → Bool
is_none none = true
is_none (some a) = false

-- One round of the loop.
unfoldable pub visit : ℕ → ℕ → ℕ → FrameEntry → Search → Option Search
visit k now fid entry s =
    if not entry.is_evictable
    then some s
    else if ltb (length entry.history) k
    then (do first ← front entry.history; some (closer first))
    else if s.found_inf_frame
    then some s
    else (do first ← front entry.history; some (farther (sub64 now first)))
  where
    closer : ℕ → Search
    closer first =
        if not s.found_inf_frame || ltb first s.earliest_timestamp
        then record s {
          victim_frame = some fid;
          earliest_timestamp = first;
          found_inf_frame = true;
        }
        else s

    farther : ℕ → Search
    farther k_distance =
        if is_none s.victim_frame || ltb s.max_k_distance k_distance
        then record s { victim_frame = some fid; max_k_distance = k_distance }
        else s

unfoldable pub scan : ℕ → ℕ → List (ℕ × FrameEntry) → Search → Option Search
scan k now [] s = some s
scan k now ((fid, entry) ∷ rest) s = do s' ← visit k now fid entry s; scan k now rest s'

pub data Eviction : Type 0 where
  undefined : Eviction
  refused : Eviction
  evicted : ℕ → Replacer → Eviction

-- The end of `Evict`, from the victim that the loop found.
abbrev pub conclude : Replacer → Option ℕ → Eviction
conclude r none = refused
conclude r (some f) =
    evicted f (record r { entries = erase f r.entries; curr_size = dec64 r.curr_size })

unfoldable pub evict : Replacer → Eviction
evict r = elim (scan r.k r.current_timestamp r.entries start) [
  | none ↦ undefined
  | some s ↦ conclude r s.victim_frame
]

abbrev pub fresh_entry : FrameEntry
fresh_entry = record { history = []; is_evictable = false }

-- `entries_[frame_id]`, which makes an entry where there is none.
abbrev pub entry_or_fresh : Option FrameEntry → FrameEntry
entry_or_fresh none = fresh_entry
entry_or_fresh (some e) = e

abbrev pub pop_front : List ℕ → List ℕ
pop_front [] = []
pop_front (t ∷ ts) = ts

unfoldable pub push_access : ℕ → ℕ → List ℕ → List ℕ
push_access k now history =
    let longer = history ++ now ∷ [] in if ltb k (length longer) then pop_front longer else longer

unfoldable pub record_access : Replacer → ℕ → Replacer
unfolding push_access
record_access r f =
    let e = entry_or_fresh (lookup f r.entries) in
    record r {
      entries =
          insert f (record e { history = push_access r.k r.current_timestamp e.history }) r.entries;
      current_timestamp = inc64 r.current_timestamp;
    }

-- The count of evictable frames after one frame's mark goes from `old` to `new`.
abbrev pub recount : Bool → Bool → ℕ → ℕ
recount true false n = dec64 n
recount false true n = inc64 n
recount true true n = n
recount false false n = n

unfoldable pub set_evictable : Replacer → ℕ → Bool → Replacer
set_evictable r f set = elim (lookup f r.entries) [
  | none ↦ r
  | some e ↦ record r {
    curr_size = recount e.is_evictable set r.curr_size;
    entries = insert f (record e { is_evictable = set }) r.entries;
  }
]

pub data Removal : Type 0 where
  runtime_error : Removal
  removed : Replacer → Removal

unfoldable pub remove : Replacer → ℕ → Removal
remove r f = elim (lookup f r.entries) [
  | none ↦ removed r
  | some e ↦
      if not e.is_evictable
      then runtime_error
      else removed (record r { curr_size = dec64 r.curr_size; entries = erase f r.entries })
]

pub size : Replacer → ℕ
size r = r.curr_size
