-- ===== src/Buffer/Pool/Claim.antt =====
-- The invariant of the pool, and what claiming a frame does to it.
use zlchen_dsaa2031_project.Prelude.{
  ◌≤◌, subst, ℕ, ◌<◌, ◌≡◌, ◌≢◌, refl, ◌⊎◌, inl, inr, List, [], ◌∷◌, none, some, Bool, true, false,
  ◌==◌, arith, length, contains, Distinct, lookup, erase, keys, lookup-erase, erase-Distinct,
}
use zlchen_dsaa2031_project.Storage.Disk.{write_page}
use zlchen_dsaa2031_project.Storage.Disk.Failure.{next_page_id-write_page}
use zlchen_dsaa2031_project.Buffer.Replacer.{Replacer}
use zlchen_dsaa2031_project.Buffer.Replacer.Marks.{mark, Drops, evict-Drops}
use zlchen_dsaa2031_project.Buffer.Replacer.Invariant
use zlchen_dsaa2031_project.Buffer.Pool.{Pool, returned, write_back, claim_frame}

-- The page table, the frames, the replacer and the free list agree: a page in the table is in the
-- frame that the table names, a frame is evictable exactly when its pin count is 0, the replacer
-- tracks the frames of the table, and the free frames are the others.
pub record IsValid {D : Type 0} (p : Pool D) : Type 0 where
  pub replacer : Invariant.IsValid p.replacer
  pub distinct : Distinct (keys p.page_table)
  pub homed : (q f : ℕ) → lookup q p.page_table ≡ some f → (p.pages f).page_id ≡ q
  pub marked :
      (q f : ℕ)
      → lookup q p.page_table ≡ some f
      → mark p.replacer f ≡ some ((p.pages f).pin_count == 0)
  pub tracked :
      (f : ℕ) (b : Bool)
      → mark p.replacer f ≡ some b
      → lookup (p.pages f).page_id p.page_table ≡ some f
  pub free : (f : ℕ) → contains f p.free_list ≡ true → mark p.replacer f ≡ none
  pub free_distinct : Distinct p.free_list
  pub in_range_table : (q f : ℕ) → lookup q p.page_table ≡ some f → f < p.pool_size
  pub in_range_free : (f : ℕ) → contains f p.free_list ≡ true → f < p.pool_size
  pub allocated : (q f : ℕ) → lookup q p.page_table ≡ some f → q < p.disk.next_page_id
  pub pins : (f : ℕ) → (p.pages f).pin_count < 2147483648

-- What claiming frame `f` leaves: the frame is nobody's, and every page that is still in the table
-- was there, in the same frame.
pub record Claims {D : Type 0} (p : Pool D) (f : ℕ) (p' : Pool D) : Type 0 where
  pub valid : IsValid p'
  pub unmarked : mark p'.replacer f ≡ none
  pub not_free : contains f p'.free_list ≡ false
  pub in_range : f < p.pool_size
  pub same_size : p'.pool_size ≡ p.pool_size
  pub same_pages : (g : ℕ) → p'.pages g ≡ p.pages g
  pub unpinned : (q : ℕ) → lookup q p.page_table ≡ some f → (p.pages f).pin_count ≡ 0
  pub kept : (q g : ℕ) → lookup q p.page_table ≡ some g → g ≢ f → lookup q p'.page_table ≡ some g
  pub gone : (q : ℕ) → lookup q p.page_table ≡ some f → lookup q p'.page_table ≡ none
  pub absent : (q : ℕ) → lookup q p.page_table ≡ none → lookup q p'.page_table ≡ none
  pub next_page_id : p'.disk.next_page_id ≡ p.disk.next_page_id
  pub clock : p'.replacer.current_timestamp ≡ p.replacer.current_timestamp
  pub shrinks : length p'.replacer.entries ≤ length p.replacer.entries

pub record IsFull {D : Type 0} (p : Pool D) : Type 0 where
  pub no_free_frame : p.free_list ≡ []
  pub all_pinned : (q f : ℕ) → lookup q p.page_table ≡ some f → (p.pages f).pin_count ≢ 0

pub list_cases : (xs : List ℕ) → (xs ≡ []) ⊎ ((y : ℕ) × (ys : List ℕ) × (xs ≡ y ∷ ys))
list_cases [] = inl refl
list_cases (y ∷ ys) = inr (y, ys, refl)

module _ {D : Type 0} (z : D) where
  pub claim_free :
      (p : Pool D) (f : ℕ) (rest : List ℕ)
      → IsValid p
      → p.free_list ≡ f ∷ rest
      → Claims p f (record p { free_list = rest })
  claim_free p f rest v eq = record {
    valid = record {
      replacer = v.replacer;
      distinct = v.distinct;
      homed = v.homed;
      marked = v.marked;
      tracked = v.tracked;
      free = λ g h. v.free g (rw eq (ground arith));
      free_distinct = free_distinct.1;
      in_range_table = v.in_range_table;
      in_range_free = λ g h. v.in_range_free g (rw eq (ground arith));
      allocated = v.allocated;
      pins = v.pins;
    };
    unmarked = unmarked;
    not_free = free_distinct.0;
    in_range = v.in_range_free f (rw eq (ground arith));
    same_size = refl;
    same_pages = λ g. refl;
    unpinned = λ q h. absurd (ground (arith, v.marked q f h, unmarked));
    kept = λ q g h other. h;
    gone = λ q h. absurd (ground (arith, v.marked q f h, unmarked));
    absent = λ q h. h;
    next_page_id = refl;
    clock = refl;
    shrinks = omega arith;
  }
    where
      unmarked : mark p.replacer f ≡ none
      unmarked = v.free f (rw eq (ground arith))

      free_distinct : Distinct (f ∷ rest)
      free_distinct = subst Distinct eq v.free_distinct

  pub evict_frame :
      (p : Pool D) (f : ℕ) (r : Replacer)
      → IsValid p
      → p.free_list ≡ []
      → Drops p.replacer f r
      → Claims p f (write_back z (record p { replacer = r }) f)
  unfolding write_back
  evict_frame p f r v eq d = record {
    valid = record {
      replacer = d.valid;
      distinct = erase-Distinct home p.page_table v.distinct;
      homed = λ q g h. v.homed q g (still q g h);
      marked =
          λ q g h. ground (arith, v.marked q g (still q g h), d.marks g, homed_elsewhere q g h);
      tracked = λ g b h. ground (
        arith,
        d.marks g,
        v.tracked g b,
        lookup-erase home (p.pages g).page_id p.page_table,
        v.tracked f true d.was_evictable,
      );
      free = λ g h. absurd (ground (arith, eq));
      free_distinct = rw eq tt;
      in_range_table = λ q g h. v.in_range_table q g (still q g h);
      in_range_free = λ g h. absurd (ground (arith, eq));
      allocated = λ q g h. ground (arith, v.allocated q g (still q g h), written);
      pins = v.pins;
    };
    unmarked = ground (arith, d.marks f);
    not_free = rw eq refl;
    in_range = v.in_range_table home f resident;
    same_size = refl;
    same_pages = λ g. refl;
    unpinned = λ q h. ground (arith, v.marked home f resident, d.was_evictable);
    kept = λ q g h other. ground (arith, lookup-erase home q p.page_table, resident);
    gone = λ q h. ground (arith, lookup-erase home q p.page_table, v.homed q f h);
    absent = λ q h. ground (arith, lookup-erase home q p.page_table);
    next_page_id = ground (arith, written);
    clock = d.clock;
    shrinks = d.shrinks;
  }
    where
      home : ℕ
      home = (p.pages f).page_id

      resident : lookup home p.page_table ≡ some f
      resident = v.tracked f true d.was_evictable

      written : (write_page z p.disk home (p.pages f).content).next_page_id ≡ p.disk.next_page_id
      written = next_page_id-write_page z p.disk home (p.pages f).content

      still :
          (q g : ℕ) → lookup q (erase home p.page_table) ≡ some g → lookup q p.page_table ≡ some g
      still q g h = ground (arith, lookup-erase home q p.page_table)

      homed_elsewhere : (q g : ℕ) → lookup q (erase home p.page_table) ≡ some g → g ≢ f
      homed_elsewhere q g h e =
          ground (arith, lookup-erase home q p.page_table, v.homed q g (still q g h))

  -- Claiming a frame of a valid pool never runs into undefined behaviour. It fails only if no frame
  -- is free and every page in the table is pinned.
  pub claim_frame-Claims :
      (p : Pool D)
      → IsValid p
      → ((claim_frame z p ≡ returned p none) × IsFull p)
        ⊎ ((f : ℕ) × (p' : Pool D) × (claim_frame z p ≡ returned p' (some f)) × Claims p f p')
  unfolding claim_frame
  claim_frame-Claims p v = elim (list_cases p.free_list) [
    | inr (f, rest, eq) ↦ inr (f, _, rw eq, claim_free p f rest v eq)
    | inl eq ↦ elim (evict-Drops p.replacer v.replacer) [
      | inl (none_left, all_pinned) ↦ inl (
        rw eq (rw none_left),
        record {
          no_free_frame = eq;
          all_pinned = λ q f h e. all_pinned f (ground (arith, v.marked q f h));
        },
      )
      | inr (f, r, run, d) ↦ inr (f, _, rw eq (rw run), evict_frame p f r v eq d)
    ]
  ]
