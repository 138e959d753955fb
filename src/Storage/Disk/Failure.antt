-- ===== src/Storage/Disk/Failure.antt =====
-- What reaches the file, and what a failed stream loses.
use zlchen_dsaa2031_project.Prelude.{
  ℕ, zero, suc, ◌≤◌, ◌<◌, ◌≡◌, ◌≢◌, ap, refl, List, [], ◌∷◌, none, some, true, false, ◌==◌, arith,
  length, get_elem?, get_or, if◌then◌else◌,
}
use zlchen_dsaa2031_project.Storage.Disk.{Disk, write_at, read_page, write_page, allocate_page}

-- The page that the file holds, zeros beyond its end.
abbrev pub on_disk : {D : Type 0} → D → Disk D → ℕ → D
on_disk z d page_id = get_or d.file page_id z

module _ {D : Type 0} (z : D) where
  pub get_or-write_at :
      (file : List D) (i j : ℕ) (x : D)
      → get_or (write_at z file i x) j z ≡ (if i == j then x else get_or file j z)
  unfolding write_at
  get_or-write_at [] zero zero x = ground arith
  get_or-write_at [] zero (suc j) x = ground arith
  get_or-write_at [] (suc i) zero x = ground arith
  get_or-write_at [] (suc i) (suc j) x = ground (arith, get_or-write_at [] i j x)
  get_or-write_at (y ∷ ys) zero zero x = ground arith
  get_or-write_at (y ∷ ys) zero (suc j) x = ground arith
  get_or-write_at (y ∷ ys) (suc i) zero x = ground arith
  get_or-write_at (y ∷ ys) (suc i) (suc j) x = ground (arith, get_or-write_at ys i j x)

  pub length-write_at : (file : List D) (i : ℕ) (x : D) → length file ≤ length (write_at z file i x)
  unfolding write_at
  length-write_at [] i x = omega arith
  length-write_at (y ∷ ys) zero x = omega arith
  length-write_at (y ∷ ys) (suc i) x = omega (arith, length-write_at ys i x)

  get_elem?_of_lt :
      (file : List D) (i : ℕ) → i < length file → get_elem? file i ≡ some (get_or file i z)
  get_elem?_of_lt [] i h = elim h [ ]
  get_elem?_of_lt (y ∷ ys) zero h = refl
  get_elem?_of_lt (y ∷ ys) (suc i) h = get_elem?_of_lt ys i (omega arith)

  -- A read inside the file gives the page that is there and leaves the disk as it was.
  pub read_page_inside :
      (d : Disk D) (page_id : ℕ)
      → d.failed ≡ false
      → page_id < length d.file
      → page_id < 2147483648
      → read_page z d page_id ≡ (d, on_disk z d page_id)
  unfolding read_page
  read_page_inside d page_id ok inside small = ground (arith, get_elem?_of_lt d.file page_id inside)

  pub next_page_id-write_page :
      (d : Disk D) (i : ℕ) (x : D) → (write_page z d i x).next_page_id ≡ d.next_page_id
  unfolding write_page
  next_page_id-write_page d i x = ground arith

  pub next_page_id-read_page :
      (d : Disk D) (i : ℕ) → (read_page z d i).0.next_page_id ≡ d.next_page_id
  unfolding read_page
  next_page_id-read_page d i = ground arith

  pub on_disk-write_page :
      (d : Disk D) (i j : ℕ) (x : D)
      → d.failed ≡ false
      → i < 2147483648
      → ((write_page z d i x).failed ≡ false)
        × (on_disk z (write_page z d i x) j ≡ (if i == j then x else on_disk z d j))
        × (length d.file ≤ length (write_page z d i x).file)
        × ((write_page z d i x).next_page_id ≡ d.next_page_id)
  unfolding write_page
  on_disk-write_page d i j x ok small =
      ground (arith, get_or-write_at d.file i j x, length-write_at d.file i x)

  get_elem?_of_le : (file : List D) (i : ℕ) → length file ≤ i → get_elem? file i ≡ none
  get_elem?_of_le [] i h = refl
  get_elem?_of_le (y ∷ ys) zero h = absurd (omega arith)
  get_elem?_of_le (y ∷ ys) (suc i) h = get_elem?_of_le ys i (omega arith)

  -- A read past the end of the file returns zeros and fails the stream.
  pub read_page_outside :
      (d : Disk D) (i : ℕ)
      → length d.file ≤ i
      → d.failed ≡ false
      → read_page z d i ≡ (record d { failed = true }, z)
  unfolding read_page
  read_page_outside d i past ok = ground (arith, get_elem?_of_le d.file i past)

  length-written : (file : List D) (i : ℕ) (x : D) → i < length (write_at z file i x)
  unfolding write_at
  length-written [] zero x = omega arith
  length-written [] (suc i) x = omega (arith, length-written [] i x)
  length-written (y ∷ ys) zero x = omega arith
  length-written (y ∷ ys) (suc i) x = omega (arith, length-written ys i x)

  get_or-beyond : (file : List D) (i : ℕ) → length file ≤ i → get_or file i z ≡ z
  get_or-beyond [] i h = refl
  get_or-beyond (y ∷ ys) zero h = absurd (omega arith)
  get_or-beyond (y ∷ ys) (suc i) h = get_or-beyond ys i (omega arith)

  written :
      (d : Disk D) (i : ℕ) (x : D)
      → d.failed ≡ false
      → i < 2147483648
      → (write_page z d i x).file ≡ write_at z d.file i x
  unfolding write_page
  written d i x ok small = ground arith

  -- `WritePage` on a good stream, of a page id that is not negative, is read back by `ReadPage`. A
  -- page that the file had before and another than the written one is read as it was before, and a
  -- page between the old end of the file and the written one is read as zeros. Neither the write nor
  -- these reads fail the stream, the file does not shrink, and the next page id is as before.
  pub read_page-write_page :
      (d : Disk D) (i : ℕ) (x : D)
      → d.failed ≡ false
      → i < 2147483648
      → let d' = write_page z d i x in
        (read_page z d' i ≡ (d', x))
        × ((j : ℕ)
            → j < length d.file
            → j < 2147483648
            → i ≢ j
            → read_page z d' j ≡ (d', (read_page z d j).1))
        × ((j : ℕ) → length d.file ≤ j → j < i → read_page z d' j ≡ (d', z))
        × (d'.failed ≡ false)
        × (length d.file ≤ length d'.file)
        × (d'.next_page_id ≡ d.next_page_id)
  read_page-write_page d i x ok small =
      let d' = write_page z d i x in
      let (good, here, longer, next) = on_disk-write_page d i i x ok small in
      (
        ground (arith, read_page_inside d' i good (reaches i (omega arith)) small, here),
        λ j inside low apart. ground (
          arith,
          read_page_inside d' j good (omega (arith, longer)) low,
          read_page_inside d j ok inside low,
          (on_disk-write_page d i j x ok small).1,
          apart,
        ),
        λ j beyond below. ground (
          arith,
          read_page_inside d' j good (reaches j (omega arith)) (omega arith),
          (on_disk-write_page d i j x ok small).1,
          get_or-beyond d.file j beyond,
        ),
        good,
        longer,
        next,
      )
    where
      file_written : (write_page z d i x).file ≡ write_at z d.file i x
      file_written = written d i x ok small

      reaches : (j : ℕ) → j ≤ i → j < length (write_page z d i x).file
      reaches j le = omega (arith, length-written d.file i x, ap length file_written)

-- The calls that a buffer pool makes of the disk.
pub data Request (D : Type 0) : Type 0 where
  read : ℕ → Request D
  write : ℕ → D → Request D
  allocate : Request D

module _ {D : Type 0} (z : D) where
  pub serve : Disk D → List (Request D) → Disk D
  serve d [] = d
  serve d (read i ∷ rest) = serve (read_page z d i).0 rest
  serve d (write i x ∷ rest) = serve (write_page z d i x) rest
  serve d (allocate ∷ rest) = serve (allocate_page d).0 rest

  serve_failed :
      (d : Disk D) (rs : List (Request D))
      → d.failed ≡ true
      → ((serve d rs).file ≡ d.file) × ((serve d rs).failed ≡ true)
  unfolding serve read_page write_page allocate_page
  serve_failed d [] f = (refl, f)
  serve_failed d (read i ∷ rs) f =
      ground (arith, serve_failed (read_page z d i).0 rs (ground arith))
  serve_failed d (write i x ∷ rs) f =
      ground (arith, serve_failed (write_page z d i x) rs (ground arith))
  serve_failed d (allocate ∷ rs) f = serve_failed (allocate_page d).0 rs f

  -- One read past the end of the file, on a good stream, makes the disk lose every later write:
  -- whatever the requests that follow, the file stays as it was, and every page that is read then
  -- is zeros.
  pub serve_after_short_read :
      (d : Disk D) (i j : ℕ) (rs : List (Request D))
      → length d.file ≤ i
      → d.failed ≡ false
      → let d' = serve (read_page z d i).0 rs in (d'.file ≡ d.file) × ((read_page z d' j).1 ≡ z)
  unfolding read_page
  serve_after_short_read d i j rs past ok =
      ground
        (arith, read_page_outside z d i past ok, serve_failed (record d { failed = true }) rs refl)
