-- ===== src/Storage/Disk/Tests.antt =====
-- The disk manager run over a file of two pages.
use zlchen_dsaa2031_project.Prelude.{ℕ, ◌≤◌, ◌<◌, ◌≡◌, ◌≢◌, refl, [], ◌∷◌, false, arith, length}
use zlchen_dsaa2031_project.Storage.Disk.{Disk, read_page, write_page}
use zlchen_dsaa2031_project.Storage.Disk.Failure.{
  read_page-write_page, serve_after_short_read, read, write, serve,
}

abbrev disk : Disk ℕ
disk = record { file = 7 ∷ 8 ∷ []; failed = false; num_pages = 2; next_page_id = 2 }

-- A write behind a gap of one page.
read_page-write_page_example :
    let d' = write_page 0 disk 3 9 in
    (read_page 0 d' 3 ≡ (d', 9))
    × ((j : ℕ) → j < 2 → j < 2147483648 → 3 ≢ j → read_page 0 d' j ≡ (d', (read_page 0 disk j).1))
    × ((j : ℕ) → 2 ≤ j → j < 3 → read_page 0 d' j ≡ (d', 0))
    × (d'.failed ≡ false)
    × (length disk.file ≤ length d'.file)
    × (d'.next_page_id ≡ disk.next_page_id)
read_page-write_page_example = read_page-write_page 0 disk 3 9 refl (omega arith)

serve_after_short_read_example :
    let d' = serve 0 (read_page 0 disk 2).0 (write 0 9 ∷ read 1 ∷ []) in
    (d'.file ≡ disk.file) × ((read_page 0 d' 0).1 ≡ 0)
serve_after_short_read_example =
    serve_after_short_read 0 disk 2 0 (write 0 9 ∷ read 1 ∷ []) (omega arith) refl
