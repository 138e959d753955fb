-- ===== src/Buffer/Pool/Invariant.antt =====
-- Every call of the pool keeps its invariant, and which call fails when.
use zlchen_dsaa2031_project.Prelude.{
  zero, suc, ℕ, ◌+◌, ◌<◌, ◌≤◌, ◌≡◌, ◌≢◌, inl, inr, none, some, true, false, ◌==◌, arith, length,
  contains, Distinct, lookup, lookup-insert, insert-Distinct, if◌then◌else◌, Bool-cases,
}
use zlchen_dsaa2031_project.Storage.Disk.{Disk}
use zlchen_dsaa2031_project.Buffer.Replacer.Marks.{
  mark, mark-init, mark-set_evictable-record_access,
}
use zlchen_dsaa2031_project.Buffer.Replacer.Invariant
use zlchen_dsaa2031_project.Buffer.Replacer.Invariant.{record_access-IsValid, set_evictable-IsValid}
use zlchen_dsaa2031_project.Buffer.Pool.{
  Page, Pool, init, frames_from, touch_pinned, update, install, pin_again,
}
use zlchen_dsaa2031_project.Buffer.Pool.Claim.{IsValid}

-- The clock, the map of the replacer and the pin counts are not at their limits.
pub record HasRoom {D : Type 0} (p : Pool D) : Type 0 where
  pub clock : p.replacer.current_timestamp + 1 < 18446744073709551616
  pub entries : length p.replacer.entries + 1 < 18446744073709551616
  pub pins : (f : ℕ) → (p.pages f).pin_count + 1 < 2147483648

-- A frame that no page uses.
pub record IsUnused {D : Type 0} (p : Pool D) (f : ℕ) : Type 0 where
  pub unmarked : mark p.replacer f ≡ none
  pub not_free : contains f p.free_list ≡ false
  pub in_range : f < p.pool_size

touch_pinned-IsValid :
    {D : Type 0} (p : Pool D) (f : ℕ)
    → IsValid p
    → HasRoom p
    → Invariant.IsValid (touch_pinned p.replacer f)
touch_pinned-IsValid p f v room =
    set_evictable-IsValid _ f false
      (record_access-IsValid p.replacer f v.replacer room.clock room.entries)

module _ {D : Type 0} (p : Pool D) (f : ℕ) (v : IsValid p) (room : HasRoom p) where
  pub install-IsValid :
      (page_id : ℕ) (content : D)
      → IsUnused p f
      → lookup page_id p.page_table ≡ none
      → page_id < p.disk.next_page_id
      → IsValid (install p f page_id content)
  unfolding install
  install-IsValid page_id content u new low = record {
    replacer = touch_pinned-IsValid p f v room;
    distinct = insert-Distinct page_id f p.page_table v.distinct;
    homed =
        λ q g h. ground (arith, lookup-insert page_id q f p.page_table, v.homed q g, elsewhere q g);
    marked = λ q g h.
        ground
          (arith, lookup-insert page_id q f p.page_table, v.marked q g, marks g, elsewhere q g);
    tracked = λ g b h. ground (
      arith,
      marks g,
      v.tracked g b,
      lookup-insert page_id page_id f p.page_table,
      lookup-insert page_id (p.pages g).page_id f p.page_table,
      u.unmarked,
    );
    free = λ g h. ground (arith, v.free g h, marks g, u.not_free);
    free_distinct = v.free_distinct;
    in_range_table = λ q g h.
        ground (arith, lookup-insert page_id q f p.page_table, v.in_range_table q g, u.in_range);
    in_range_free = v.in_range_free;
    allocated = λ q g h. ground (arith, lookup-insert page_id q f p.page_table, v.allocated q g);
    pins = λ g. ground (arith, v.pins g);
  }
    where
      marks :
          (g : ℕ)
          → mark (touch_pinned p.replacer f) g ≡ (if f == g then some false else mark p.replacer g)
      marks g = mark-set_evictable-record_access p.replacer f g false

      elsewhere : (q g : ℕ) → lookup q p.page_table ≡ some g → g ≢ f
      elsewhere q g h e = ground (arith, v.marked q g h, u.unmarked)

  pub pin_again-IsValid :
      (page_id : ℕ) → lookup page_id p.page_table ≡ some f → IsValid (pin_again p f)
  unfolding pin_again
  pin_again-IsValid page_id here = record {
    replacer = touch_pinned-IsValid p f v room;
    distinct = v.distinct;
    homed = λ q g h. ground (arith, v.homed q g h);
    marked = λ q g h. ground (arith, v.marked q g h, marks g, room.pins f);
    tracked = λ g b h. ground (arith, marks g, v.tracked g b, v.homed page_id f here);
    free = λ g h. ground (arith, v.free g h, marks g, v.marked page_id f here);
    free_distinct = v.free_distinct;
    in_range_table = v.in_range_table;
    in_range_free = v.in_range_free;
    allocated = v.allocated;
    pins = λ g. ground (arith, v.pins g, room.pins f);
  }
    where
      marks :
          (g : ℕ)
          → mark (touch_pinned p.replacer f) g ≡ (if f == g then some false else mark p.replacer g)
      marks g = mark-set_evictable-record_access p.replacer f g false

module _ {D : Type 0} (p : Pool D) (v : IsValid p) where
  -- The disk may change, as long as no page id is taken back.
  pub with_disk-IsValid :
      (d : Disk D) → p.disk.next_page_id ≤ d.next_page_id → IsValid (record p { disk = d })
  with_disk-IsValid d le = record {
    replacer = v.replacer;
    distinct = v.distinct;
    homed = v.homed;
    marked = v.marked;
    tracked = v.tracked;
    free = v.free;
    free_distinct = v.free_distinct;
    in_range_table = v.in_range_table;
    in_range_free = v.in_range_free;
    allocated = λ q f h. omega (arith, v.allocated q f h);
    pins = v.pins;
  }

  -- So may the content and the dirty flag of a frame.
  pub with_page-IsValid :
      (f : ℕ) (page : Page D)
      → page.page_id ≡ (p.pages f).page_id
      → page.pin_count ≡ (p.pages f).pin_count
      → IsValid (record p { pages = update p.pages f page })
  with_page-IsValid f page same_id same_pins = record {
    replacer = v.replacer;
    distinct = v.distinct;
    homed = λ q g h. ground (arith, v.homed q g h);
    marked = λ q g h. ground (arith, v.marked q g h);
    tracked = λ g b h. ground (arith, v.tracked g b h);
    free = v.free;
    free_distinct = v.free_distinct;
    in_range_table = v.in_range_table;
    in_range_free = v.in_range_free;
    allocated = v.allocated;
    pins = λ g. ground (arith, v.pins g);
  }

frames_from-contains :
    (first n f : ℕ) → contains f (frames_from first n) ≡ true → (first ≤ f) × (f < first + n)
unfolding frames_from
frames_from-contains first zero f h = absurd (ground arith)
frames_from-contains first (suc n) f h = ground (arith, frames_from-contains (first + 1) n f)

frames_from-Distinct : (first n : ℕ) → Distinct (frames_from first n)
unfolding frames_from
frames_from-Distinct first zero = tt
frames_from-Distinct first (suc n) = (
  elim (Bool-cases (contains first (frames_from (first + 1) n))) [
    | inl twice ↦ absurd (omega (arith, frames_from-contains (first + 1) n first twice))
    | inr once ↦ once
  ],
  frames_from-Distinct (first + 1) n,
)

-- A new pool is valid, whatever its size, if the replacer looks back at least one access.
pub init-IsValid :
    {D : Type 0} (z : D) (pool_size : ℕ) (disk : Disk D) (replacer_k : ℕ)
    → 0 < replacer_k
    → IsValid (init z pool_size disk replacer_k)
unfolding init lookup
init-IsValid z pool_size disk replacer_k pos = record {
  replacer = Invariant.init-IsValid pool_size replacer_k pos;
  distinct = tt;
  homed = λ q f h. absurd (ground arith);
  marked = λ q f h. absurd (ground arith);
  tracked = λ f b h. absurd (ground (arith, mark-init pool_size replacer_k f));
  free = λ f h. mark-init pool_size replacer_k f;
  free_distinct = frames_from-Distinct 0 pool_size;
  in_range_table = λ q f h. absurd (ground arith);
  in_range_free = λ f h. omega (arith, frames_from-contains 0 pool_size f h);
  allocated = λ q f h. absurd (ground arith);
  pins = λ f. omega arith;
}
