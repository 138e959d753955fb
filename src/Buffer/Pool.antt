-- ===== src/Buffer/Pool.antt =====
-- `BufferPoolManager`: src/buffer/buffer_pool_manager.cpp, with the `Page` of
-- src/include/onebase/storage/page/page.h. A `Page *` is the index of its frame. Each call holds
-- `latch_` from its first line to its last, so each is one step.
pub mod Claim
pub mod Invariant
pub mod Calls
pub mod Contents
pub mod Cache
pub mod Pins
pub mod Tests
use zlchen_dsaa2031_project.Prelude.{
  ℕ, ◌+◌, ◌-◌, List, [], ◌∷◌, ◌++◌, Option, none, some, Bool, true, false, not, ◌||◌, ◌==◌, lookup,
  insert, erase, leb, ltb, if◌then◌else◌, inc32,
}
use zlchen_dsaa2031_project.Storage.Disk.{
  Disk, invalid_page_id, is_negative, read_page, write_page, allocate_page, deallocate_page,
}
use zlchen_dsaa2031_project.Buffer.Replacer
use zlchen_dsaa2031_project.Buffer.Replacer.{
  Replacer, Eviction, undefined, refused, evicted, Removal, runtime_error, removed, evict,
  record_access, set_evictable, remove,
}

pub record Page (D : Type 0) : Type 0 where
  pub content : D
  pub page_id : ℕ
  pub pin_count : ℕ
  pub is_dirty : Bool

pub record Pool (D : Type 0) : Type 0 where
  pub pool_size : ℕ
  pub disk : Disk D
  pub replacer : Replacer
  pub pages : ℕ → Page D
  pub page_table : List (ℕ × ℕ)
  pub free_list : List ℕ

-- The frame numbers 0, ..., n - 1, in order: `first` of them are behind us.
pub frames_from : ℕ → ℕ → List ℕ
frames_from first ℕ.zero = []
frames_from first (ℕ.suc n) = first ∷ frames_from (first + 1) n

abbrev pub update : {D : Type 0} → (ℕ → D) → ℕ → D → ℕ → D
update g i v j = if i == j then v else g j

-- A call returns, throws, or runs into undefined behaviour.
pub data Outcome (D A : Type 0) : Type 0 where
  returned : Pool D → A → Outcome D A
  undefined_behaviour : Outcome D A
  throws : Outcome D A

module _ {D : Type 0} (z : D) where
  abbrev pub empty_page : Page D
  empty_page = record { content = z; page_id = invalid_page_id; pin_count = 0; is_dirty = false }

  pub init : ℕ → Disk D → ℕ → Pool D
  unfolding frames_from
  init pool_size disk replacer_k = record {
    pool_size = pool_size;
    disk = disk;
    replacer = Replacer.init pool_size replacer_k;
    pages = λ f. empty_page;
    page_table = [];
    free_list = frames_from 0 pool_size;
  }

  -- The victim's page leaves the pool, written back if it is dirty.
  pub write_back : Pool D → ℕ → Pool D
  write_back p f =
      let victim = p.pages f in
      record p {
        disk =
            if victim.is_dirty then write_page z p.disk victim.page_id victim.content else p.disk;
        page_table = erase victim.page_id p.page_table;
      }

  pub claim_victim : Pool D → Eviction → Outcome D (Option ℕ)
  claim_victim p undefined = undefined_behaviour
  claim_victim p refused = returned p none
  claim_victim p (evicted f r) = returned (write_back (record p { replacer = r }) f) (some f)

  pub claim_from : Pool D → List ℕ → Outcome D (Option ℕ)
  unfolding claim_victim
  claim_from p [] = claim_victim p (evict p.replacer)
  claim_from p (f ∷ rest) = returned (record p { free_list = rest }) (some f)

  -- The frame for a new page: the head of the free list, or an evicted one.
  pub claim_frame : Pool D → Outcome D (Option ℕ)
  unfolding claim_from
  claim_frame p = claim_from p p.free_list

abbrev pub touch_pinned : Replacer → ℕ → Replacer
touch_pinned r f = set_evictable (record_access r f) f false

module _ {D : Type 0} where
  -- The page enters the pool, pinned once.
  pub install : Pool D → ℕ → ℕ → D → Pool D
  install p f page_id content = record p {
    pages =
        update p.pages f
          (record { content = content; page_id = page_id; pin_count = 1; is_dirty = false });
    page_table = insert page_id f p.page_table;
    replacer = touch_pinned p.replacer f;
  }

  pub pin_again : Pool D → ℕ → Pool D
  pin_again p f =
      let page = p.pages f in
      record p {
        pages = update p.pages f (record page { pin_count = inc32 page.pin_count });
        replacer = touch_pinned p.replacer f;
      }

-- `nullptr` if no frame was found, and the rest of the call otherwise.
abbrev pub with_frame :
    {D A : Type 0}
    → Outcome D (Option ℕ)
    → (Pool D → ℕ → Outcome D (Option A))
    → Outcome D (Option A)
with_frame (returned p none) k = returned p none
with_frame (returned p (some f)) k = k p f
with_frame undefined_behaviour k = undefined_behaviour
with_frame throws k = throws

-- `pin_count_ <= 0`, for the bit pattern of an `int`
abbrev pub not_positive : ℕ → Bool
not_positive n = (n == 0) || is_negative n

module _ {D : Type 0} (z : D) where
  -- The id of the new page and its frame.
  pub new_page : Pool D → Outcome D (Option (ℕ × ℕ))
  new_page p = with_frame (claim_frame z p) λ q f.
      let (disk, page_id) = allocate_page q.disk in
      returned (install (record q { disk = disk }) f page_id z) (some (page_id, f))

  abbrev fetch_missing : Pool D → ℕ → Outcome D (Option ℕ)
  fetch_missing p page_id = with_frame (claim_frame z p) λ q f.
      let (disk, content) = read_page z q.disk page_id in
      returned (install (record q { disk = disk }) f page_id content) (some f)

  pub fetch_page : Pool D → ℕ → Outcome D (Option ℕ)
  fetch_page p page_id = elim (lookup page_id p.page_table) [
    | some f ↦ returned (pin_again p f) (some f)
    | none ↦ fetch_missing p page_id
  ]

  pub write_out : Pool D → ℕ → ℕ → Pool D
  write_out p page_id f =
      let page = p.pages f in
      record p {
        disk = write_page z p.disk page_id page.content;
        pages = update p.pages f (record page { is_dirty = false });
      }

  pub flush_page : Pool D → ℕ → Pool D × Bool
  unfolding write_out
  flush_page p page_id = elim (lookup page_id p.page_table) [
    | some f ↦ (write_out p page_id f, true)
    | none ↦ (p, false)
  ]

  pub flush_pages : List (ℕ × ℕ) → Pool D → Pool D
  unfolding write_out
  flush_pages [] p = p
  flush_pages ((page_id, f) ∷ rest) p = flush_pages rest (write_out p page_id f)

  pub flush_all_pages : Pool D → Pool D
  unfolding flush_pages
  flush_all_pages p = flush_pages p.page_table p

  abbrev pub released : Pool D → ℕ → ℕ → Replacer → Pool D
  released p page_id f r = record p {
    page_table = erase page_id p.page_table;
    replacer = r;
    pages =
        update p.pages f
          (record (p.pages f) { content = z; page_id = invalid_page_id; is_dirty = false });
    free_list = p.free_list ++ f ∷ [];
    disk = deallocate_page p.disk page_id;
  }

  -- `Remove` may end the call by its exception.
  abbrev release_frame : Pool D → ℕ → ℕ → Removal → Outcome D Bool
  release_frame p page_id f runtime_error = throws
  release_frame p page_id f (removed r) = returned (released p page_id f r) true

  pub delete_page : Pool D → ℕ → Outcome D Bool
  delete_page p page_id = elim (lookup page_id p.page_table) [
    | none ↦ returned p true
    | some f ↦
        if not (not_positive (p.pages f).pin_count)
        then returned p false
        else release_frame p page_id f (remove p.replacer f)
  ]

module _ {D : Type 0} where
  abbrev pub unpin_frame : Pool D → ℕ → Bool → Pool D
  unpin_frame p f dirty =
      let page = p.pages f in
      let pins = page.pin_count - 1 in
      record p {
        pages =
            update p.pages f (record page { pin_count = pins; is_dirty = page.is_dirty || dirty });
        replacer = if pins == 0 then set_evictable p.replacer f true else p.replacer;
      }

  pub unpin_page : Pool D → ℕ → Bool → Pool D × Bool
  unpin_page p page_id dirty = elim (lookup page_id p.page_table) [
    | none ↦ (p, false)
    | some f ↦
        if not_positive (p.pages f).pin_count then (p, false) else (unpin_frame p f dirty, true)
  ]

  -- What a caller does with the page that it was handed.
  pub store : Pool D → ℕ → D → Pool D
  store p f x = record p { pages = update p.pages f (record (p.pages f) { content = x }) }
