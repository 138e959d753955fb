-- ===== src/Buffer/Replacer/Invariant.antt =====
-- The well-formedness of the replacer, kept by every operation.
use zlchen_dsaa2031_project.Prelude.{
  Bool-cases, Option-cases, subst, ◌⊎◌, inl, inr, inc64, dec64, ℕ, ◌+◌, ◌<◌, ◌≤◌, ◌≡◌, refl, List,
  [], ◌∷◌, ◌++◌, some, Bool, true, false, ◌==◌, arith, length, Distinct, lookup, insert, erase,
  keys, lookup-insert, lookup-erase, lookup_absent, length-insert-le, length-insert_present,
  length-erase-le, erase_absent, insert-Distinct, erase-Distinct, if◌then◌else◌,
}
use zlchen_dsaa2031_project.Buffer.Replacer.{
  FrameEntry, Replacer, entry_or_fresh, push_access, record_access, set_evictable, remove, removed,
  runtime_error, init,
}

-- The number of evictable frames.
pub evictable_count : List (ℕ × FrameEntry) → ℕ
evictable_count [] = 0
evictable_count ((f, e) ∷ es) = (if e.is_evictable then 1 else 0) + evictable_count es

-- All recorded accesses lie in the past.
abbrev pub Below : ℕ → List ℕ → Type 0
Below now [] = Unit
Below now (t ∷ ts) = (t < now) × Below now ts

pub record IsValidEntry (k now : ℕ) (e : FrameEntry) : Type 0 where
  pub accessed : 0 < length e.history
  pub bounded : length e.history ≤ k
  pub past : Below now e.history

-- `length entries` is a bound on `curr_size`, so neither counter wraps.
pub record IsValid (r : Replacer) : Type 0 where
  pub positive : 0 < r.k
  pub no_wrap : r.current_timestamp < 18446744073709551616
  pub few : length r.entries < 18446744073709551616
  pub distinct : Distinct (keys r.entries)
  pub counted : r.curr_size ≡ evictable_count r.entries
  pub entry :
      (f : ℕ) (e : FrameEntry)
      → lookup f r.entries ≡ some e
      → IsValidEntry r.k r.current_timestamp e

pub init-IsValid : (n k : ℕ) → 0 < k → IsValid (init n k)
unfolding init evictable_count lookup
init-IsValid n k h = record {
  positive = h;
  no_wrap = omega arith;
  few = omega arith;
  distinct = tt;
  counted = refl;
  entry = λ f e found. absurd (ground arith);
}

Below-mono : (now : ℕ) (ts : List ℕ) → Below now ts → Below (now + 1) ts
Below-mono now [] b = tt
Below-mono now (t ∷ ts) b = (omega arith, Below-mono now ts b.1)

Below-snoc : (now : ℕ) (ts : List ℕ) → Below now ts → Below (now + 1) (ts ++ now ∷ [])
Below-snoc now [] b = (omega arith, tt)
Below-snoc now (t ∷ ts) b = (omega arith, Below-snoc now ts b.1)

IsValidEntry-later :
    {k now : ℕ} {e : FrameEntry} → IsValidEntry k now e → IsValidEntry k (now + 1) e
IsValidEntry-later {now = now} {e = e} v = record {
  accessed = v.accessed;
  bounded = v.bounded;
  past = Below-mono now e.history v.past;
}

length-snoc : (ts : List ℕ) (now : ℕ) → length (ts ++ now ∷ []) ≡ length ts + 1
length-snoc [] now = omega arith
length-snoc (t ∷ ts) now = omega (arith, length-snoc ts now)

push_access-IsValidEntry :
    (k now : ℕ) (h : List ℕ) (b : Bool)
    → 0 < k
    → length h ≤ k
    → Below now h
    → IsValidEntry k (now + 1) (record { history = push_access k now h; is_evictable = b })
unfolding push_access
push_access-IsValidEntry k now [] b pos le past = ground arith
push_access-IsValidEntry k now (t ∷ h) b pos le past =
    ground (arith, length-snoc h now, Below-snoc now h past.1)

-- Counting over the map operations.
evictable_count-insert :
    (f : ℕ) (e : FrameEntry) (es : List (ℕ × FrameEntry))
    → Distinct (keys es)
    → evictable_count (insert f e es)
        + (if (entry_or_fresh (lookup f es)).is_evictable then 1 else 0)
      ≡ evictable_count es + (if e.is_evictable then 1 else 0)
unfolding evictable_count insert lookup
evictable_count-insert f e [] d = ground arith
evictable_count-insert f e ((g, e') ∷ es) d = ground (arith, evictable_count-insert f e es d.1)

evictable_count-erase :
    (f : ℕ) (es : List (ℕ × FrameEntry))
    → Distinct (keys es)
    → evictable_count (erase f es) + (if (entry_or_fresh (lookup f es)).is_evictable then 1 else 0)
      ≡ evictable_count es
unfolding evictable_count erase lookup
evictable_count-erase f [] d = ground arith
evictable_count-erase f ((g, e') ∷ es) d =
    ground (arith, evictable_count-erase f es d.1, erase_absent g es, lookup_absent g es)

evictable_count-le : (es : List (ℕ × FrameEntry)) → evictable_count es ≤ length es
unfolding evictable_count
evictable_count-le [] = omega arith
evictable_count-le ((f, e) ∷ es) = ground (arith, evictable_count-le es)

-- An entry of the map with one entry written is that one or an old one.
insert_entry :
    (P : FrameEntry → Type 0) (f : ℕ) (e : FrameEntry) (es : List (ℕ × FrameEntry))
    → P e
    → ((g : ℕ) (e' : FrameEntry) → lookup g es ≡ some e' → P e')
    → (g : ℕ) (e' : FrameEntry) → lookup g (insert f e es) ≡ some e'
    → P e'
insert_entry P f e es new old g e' h = elim (Bool-cases (f == g)) [
  | inl same ↦ subst P (ground (arith, lookup-insert f g e es)) new
  | inr other ↦ old g e' (ground (arith, lookup-insert f g e es))
]

erase_entry :
    (f g : ℕ) (e : FrameEntry) (es : List (ℕ × FrameEntry))
    → lookup g (erase f es) ≡ some e
    → lookup g es ≡ some e
erase_entry f g e es h = ground (arith, lookup-erase f g es)

-- The entry that an access leaves.
abbrev pub accessed : Replacer → ℕ → FrameEntry
accessed r f =
    let e = entry_or_fresh (lookup f r.entries) in
    record e { history = push_access r.k r.current_timestamp e.history }

accessed-IsValidEntry :
    (r : Replacer) (f : ℕ) → IsValid r → IsValidEntry r.k (r.current_timestamp + 1) (accessed r f)
accessed-IsValidEntry r f v = elim (Option-cases (lookup f r.entries)) [
  | inl missing ↦
      rw missing
        (push_access-IsValidEntry r.k r.current_timestamp [] false v.positive (omega arith) tt)
  | inr (e, found) ↦
      let old = v.entry f e found in
      rw found (
        push_access-IsValidEntry r.k r.current_timestamp e.history e.is_evictable v.positive
          old.bounded old.past)
]

-- `RecordAccess` keeps the replacer valid, while the clock and the map of frames have room: the
-- histories stay within k accesses, all in the past, and the count of evictable frames right.
pub record_access-IsValid :
    (r : Replacer) (f : ℕ)
    → IsValid r
    → r.current_timestamp + 1 < 18446744073709551616
    → length r.entries + 1 < 18446744073709551616
    → IsValid (record_access r f)
unfolding record_access
record_access-IsValid r f v time room = record {
  positive = v.positive;
  no_wrap = omega arith;
  few = omega (arith, length-insert-le f (accessed r f) r.entries);
  distinct = insert-Distinct f (accessed r f) r.entries v.distinct;
  counted = omega (arith, evictable_count-insert f (accessed r f) r.entries v.distinct);
  entry =
      let tick : inc64 r.current_timestamp ≡ r.current_timestamp + 1 = omega arith in
      insert_entry (IsValidEntry r.k (inc64 r.current_timestamp)) f (accessed r f) r.entries
        (rw tick (accessed-IsValidEntry r f v))
        (λ g e h. rw tick (IsValidEntry-later (v.entry g e h)));
}

-- `SetEvictable` keeps the replacer valid: `curr_size_` stays the number of evictable frames.
pub set_evictable-IsValid :
    (r : Replacer) (f : ℕ) (set : Bool) → IsValid r → IsValid (set_evictable r f set)
unfolding set_evictable
set_evictable-IsValid r f set v = elim (Option-cases (lookup f r.entries)) [
  | inl missing ↦ rw (missing, set_evictable) v
  | inr (e, found) ↦
      let marked : FrameEntry = record e { is_evictable = set } in
      let old = v.entry f e found in
      let size = length-insert_present f marked e r.entries found in
      rw (found, set_evictable)
        (record {
          positive = v.positive;
          no_wrap = v.no_wrap;
          few = omega (arith, size);
          distinct = insert-Distinct f marked r.entries v.distinct;
          counted = ground (
            arith,
            evictable_count-insert f marked r.entries v.distinct,
            evictable_count-le (insert f marked r.entries),
            size,
          );
          entry =
              insert_entry (IsValidEntry r.k r.current_timestamp) f marked r.entries
                (record { accessed = old.accessed; bounded = old.bounded; past = old.past })
                v.entry;
        })
]

-- Dropping an evictable frame keeps the replacer valid: the common end of `Evict` and `Remove`.
pub drop_frame-IsValid :
    (r : Replacer) (f : ℕ) (e : FrameEntry)
    → IsValid r
    → lookup f r.entries ≡ some e
    → e.is_evictable ≡ true
    → IsValid (record r { curr_size = dec64 r.curr_size; entries = erase f r.entries })
drop_frame-IsValid r f e v found can = record {
  positive = v.positive;
  no_wrap = v.no_wrap;
  few = omega (arith, length-erase-le f r.entries);
  distinct = erase-Distinct f r.entries v.distinct;
  counted =
      ground (arith, evictable_count-erase f r.entries v.distinct, evictable_count-le r.entries);
  entry = λ g e' h. v.entry g e' (erase_entry f g e' r.entries h);
}

-- `Remove` keeps the replacer valid, and throws exactly for a tracked frame that is not evictable.
pub remove-IsValid :
    (r : Replacer) (f : ℕ)
    → IsValid r
    → ((r' : Replacer) × (remove r f ≡ removed r') × IsValid r')
      ⊎ ((e : FrameEntry) × (lookup f r.entries ≡ some e)
          × (e.is_evictable ≡ false)
          × (remove r f ≡ runtime_error))
unfolding remove
remove-IsValid r f v = elim (Option-cases (lookup f r.entries)) [
  | inl missing ↦ inl (r, rw (missing, remove), v)
  | inr (e, found) ↦ elim (Bool-cases e.is_evictable) [
    | inl can ↦ inl (
      record r { curr_size = dec64 r.curr_size; entries = erase f r.entries },
      rw (found, remove) (rw can),
      drop_frame-IsValid r f e v found can,
    )
    | inr cannot ↦ inr (e, found, cannot, rw (found, remove) (rw cannot))
  ]
]
