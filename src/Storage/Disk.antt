-- ===== src/Storage/Disk.antt =====
-- `DiskManager`: src/storage/disk/disk_manager.cpp. A page's bytes are never looked into here, so
-- they are a type `D` with a value for the zeroed page. The file is its list of whole pages, as
-- `WritePage` leaves it; `failed` is the failbit of `db_io_`, which no line of the class clears.
-- A `page_id_t` is the 32-bit pattern of an `int32_t`, so -1 is 4294967295. A file of 2 ^ 31 pages
-- or more is out of scope. `badbit` (a failing device) is out of scope as well.
pub mod Failure
pub mod Tests
use zlchen_dsaa2031_project.Prelude.{
  ℕ, zero, suc, ◌+◌, List, [], ◌∷◌, Option, none, some, Bool, true, false, get_elem?, length, ltb,
  leb, if◌then◌else◌, inc32, inc64,
}

abbrev pub invalid_page_id : ℕ
invalid_page_id = 4294967295

pub record Disk (D : Type 0) : Type 0 where
  pub file : List D
  pub failed : Bool
  pub num_pages : ℕ
  pub next_page_id : ℕ

-- The constructor, over a file that is there or was just made.
unfoldable pub open_file : {D : Type 0} → List D → Disk D
open_file file = record {
  file = file;
  failed = false;
  num_pages = length file;
  next_page_id = length file;
}

-- A write at a page's offset; a gap before it is a hole of zeros.
unfoldable pub write_at : {D : Type 0} → D → List D → ℕ → D → List D
write_at z [] zero x = x ∷ []
write_at z [] (suc i) x = z ∷ write_at z [] i x
write_at z (y ∷ ys) zero x = x ∷ ys
write_at z (y ∷ ys) (suc i) x = y ∷ write_at z ys i x

-- A negative id is a negative offset, to which no seek succeeds.
abbrev pub is_negative : ℕ → Bool
is_negative page_id = leb 2147483648 page_id

-- `static_cast<size_t>(page_id)`
abbrev pub as_size : ℕ → ℕ
as_size page_id = if is_negative page_id then page_id + 18446744069414584320 else page_id

module _ {D : Type 0} (z : D) where
  -- What a short read leaves: the rest of the buffer is zeroed, and the stream has failed.
  abbrev pub short_read : Disk D → Option D → Disk D × D
  short_read d none = (record d { failed = true }, z)
  short_read d (some x) = (d, x)

  unfoldable pub read_page : Disk D → ℕ → Disk D × D
  read_page d page_id =
      if d.failed
      then (d, z)
      else short_read d (if is_negative page_id then none else get_elem? d.file page_id)

  -- On a failed stream `write` does nothing and `bad()` is false, so the count still moves.
  abbrev pub counted : ℕ → Disk D → Disk D
  counted page_id d =
      if leb d.num_pages (as_size page_id)
      then record d { num_pages = inc64 (as_size page_id) }
      else d

  unfoldable pub write_page : Disk D → ℕ → D → Disk D
  write_page d page_id x =
      if d.failed
      then counted page_id d
      else if is_negative page_id
      then counted page_id (record d { failed = true })
      else counted page_id (record d { file = write_at z d.file page_id x })

unfoldable pub allocate_page : {D : Type 0} → Disk D → Disk D × ℕ
allocate_page d = (record d { next_page_id = inc32 d.next_page_id }, d.next_page_id)

unfoldable pub deallocate_page : {D : Type 0} → Disk D → ℕ → Disk D
deallocate_page d page_id = d
