-- ===== src/Buffer/Pool/Tests.antt =====
-- The pool run with one frame over a file of two pages.
use zlchen_dsaa2031_project.Prelude.{
  ℕ, ◌<◌, ◌≡◌, refl, subst, ◌⊎◌, inl, inr, [], ◌∷◌, Option, none, some, Bool, true, arith, length,
  lookup, insert, erase,
}
use zlchen_dsaa2031_project.Storage.Disk.{Disk, open_file, read_page, write_page}
use zlchen_dsaa2031_project.Buffer.Replacer
use zlchen_dsaa2031_project.Buffer.Replacer.{
  evict, scan, visit, record_access, push_access, set_evictable, remove,
}
use zlchen_dsaa2031_project.Buffer.Pool.{
  Pool, Outcome, returned, init, frames_from, install, write_back, claim_victim, claim_from,
  claim_frame, fetch_page, unpin_page,
}
use zlchen_dsaa2031_project.Buffer.Pool.Claim.{IsValid, IsFull}
use zlchen_dsaa2031_project.Buffer.Pool.Invariant.{HasRoom, init-IsValid}
use zlchen_dsaa2031_project.Buffer.Pool.Calls.{Holds, fetch_page-IsValid, unpin_page-IsValid}
use zlchen_dsaa2031_project.Buffer.Pool.Contents.{contents, IsSaved, Preserves}
use zlchen_dsaa2031_project.Buffer.Pool.Cache.{fetch_page-Serves}

-- The valid pool that a call leaves, its outcome known.
fetched :
    {D : Type 0} (z : D) (p p' : Pool D) (page_id f : ℕ)
    → IsValid p
    → HasRoom p
    → page_id < p.disk.next_page_id
    → fetch_page z p page_id ≡ returned p' (some f)
    → IsValid p'
fetched z p p' page_id f v room low run = elim (fetch_page-IsValid z p v room page_id low) [
  | inl (g, q, ran, valid, _) ↦
      let same : q ≡ p' = ground (arith, run, ran) in subst IsValid same valid
  | inr (ran, _, _) ↦ absurd (ground (arith, run, ran))
]

unpinned :
    {D : Type 0} (p p' : Pool D) (page_id : ℕ) (dirty : Bool)
    → IsValid p
    → unpin_page p page_id dirty ≡ (p', true)
    → IsValid p'
unpinned p p' page_id dirty v run = elim (unpin_page-IsValid p v page_id dirty) [
  | inl (ran, _) ↦ absurd (ground (arith, run, ran))
  | inr (f, q, ran, valid, _, _, _, _) ↦
      let same : q ≡ p' = ground (arith, run, ran) in subst IsValid same valid
]

abbrev disk : Disk ℕ
disk = open_file (7 ∷ 8 ∷ [])

abbrev p0 : Pool ℕ
p0 = init 0 1 disk 2

p0-IsValid : IsValid p0
p0-IsValid = init-IsValid 0 1 disk 2 (omega arith)

p0-HasRoom : HasRoom p0
unfolding init Replacer.init
p0-HasRoom = record { clock = omega arith; entries = omega arith; pins = λ f. ground arith }

-- Page 0 is fetched, written to, and unpinned as dirty.
abbrev p1 : Pool ℕ
p1 = install (record p0 { free_list = [] }) 0 0 7

fetch_p0 : fetch_page 0 p0 0 ≡ returned p1 (some 0)
unfolding fetch_page init frames_from claim_frame claim_from read_page lookup Replacer.init
    open_file
fetch_p0 = refl

p1-IsValid : IsValid p1
unfolding init open_file
p1-IsValid = fetched 0 p0 p1 0 0 p0-IsValid p0-HasRoom (omega arith) fetch_p0

abbrev p2 : Pool ℕ
p2 = (unpin_page p1 0 true).0

unpin_p1 : unpin_page p1 0 true ≡ (p2, true)
unfolding init install unpin_page insert lookup
unpin_p1 = refl

p2-IsValid : IsValid p2
p2-IsValid = unpinned p1 p2 0 true p1-IsValid unpin_p1

p2-HasRoom : HasRoom p2
unfolding init install unpin_page record_access push_access set_evictable insert lookup
    Replacer.init
p2-HasRoom = record { clock = omega arith; entries = omega arith; pins = λ f. ground arith }

p2-IsSaved : IsSaved 0 p2
unfolding init install unpin_page open_file insert lookup
p2-IsSaved = record {
  good = refl;
  ids = omega arith;
  saved = λ q f here unpinned clean. absurd (ground arith);
}

-- Page 1 takes the one frame, and page 0 goes back to the file.
abbrev fetched_pool : Outcome ℕ (Option ℕ) → Pool ℕ
fetched_pool (returned p o) = p
fetched_pool _ = p0

abbrev p3 : Pool ℕ
p3 = fetched_pool (fetch_page 0 p2 1)

fetch_p2 : fetch_page 0 p2 1 ≡ returned p3 (some 0)
unfolding fetch_page init install unpin_page evict scan visit record_access push_access
    set_evictable write_back write_page read_page claim_frame claim_from claim_victim open_file
    insert lookup erase Replacer.init
fetch_p2 = refl

fetch_page-IsValid_example :
    ((f : ℕ) × (p' : Pool ℕ) × (fetch_page 0 p2 1 ≡ returned p' (some f))
      × IsValid p'
      × Holds p' 1 f)
    ⊎ ((fetch_page 0 p2 1 ≡ returned p2 none) × (lookup 1 p2.page_table ≡ none) × IsFull p2)
unfolding unpin_page lookup install insert init open_file
fetch_page-IsValid_example = fetch_page-IsValid 0 p2 p2-IsValid p2-HasRoom 1 (omega arith)

-- Each claim at work.
p2_next : p2.disk.next_page_id ≡ 2
unfolding unpin_page lookup install insert init open_file
p2_next = refl

p2_file : 1 < length p2.disk.file
unfolding unpin_page lookup install insert init open_file
p2_file = omega arith

fetch_page-Serves_example : Preserves 0 p2 p3 × ((p3.pages 0).content ≡ contents 0 p2 1)
fetch_page-Serves_example =
    fetch_page-Serves 0 p2 p3 1 0 p2-IsValid p2-IsSaved (omega (arith, p2_next)) (inr p2_file)
      fetch_p2
