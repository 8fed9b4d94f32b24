-- ===== src/Slab.antt =====
-- fd32/kernel/slabmem.c: caches of objects of one size, with lists threaded through the pages.
pub mod Bytes
pub mod Alloc
pub mod Destroy
pub mod Lists
pub mod Pool
pub mod Tests
use free_dos.Common.{
  ℕ, zero, suc, ◌+◌, ◌*◌, ◌/◌, ◌%◌, ◌-◌, Option, none, some, ◌==◌, if◌then◌else◌, List, [], ◌∷◌,
}
use free_dos.Common.Word.{sub32}
use free_dos.Memory.Ops.{MemOps}

-- SLABMEM_PAGE_SIZE, and the size of a pointer.
abbrev pub slabmem_page_size : ℕ
slabmem_page_size = 4096

abbrev pub pointer_size : ℕ
pointer_size = 4

-- The bytes of the memory, by address.
abbrev pub Bytes : Type 0
Bytes = ℕ → ℕ

-- A pointer in four bytes, the lowest first.
abbrev pub load_pointer : ℕ → Bytes → ℕ
load_pointer a m = m a + 256 * m (a + 1) + 65536 * m (a + 2) + 16777216 * m (a + 3)

unfoldable pub store_pointer : ℕ → ℕ → Bytes → Bytes
store_pointer a v m i =
    if i == a
    then v % 256
    else if i == a + 1
    then v / 256 % 256
    else if i == a + 2
    then v / 65536 % 256
    else if i == a + 3
    then v / 16777216 % 256
    else m i

-- struct SlabCache; 0 is NULL.
pub record SlabCache : Type 0 where
  pub pages : ℕ
  pub obj_size : ℕ
  pub free_objs : ℕ

pub slabmem_create : ℕ → SlabCache
slabmem_create obj_size = record { pages = 0; obj_size = obj_size; free_objs = 0 }

-- The loop that links the objects of a page, and the end of the list.
pub link_objects : ℕ → ℕ → ℕ → Bytes → Bytes
link_objects zero obj size m = store_pointer obj 0 m
link_objects (suc count) obj size m =
    link_objects count (obj + size) size (store_pointer obj (obj + size) m)

-- Where a page has the pointer to the next one.
abbrev pub link_of : ℕ → ℕ
link_of page = page + slabmem_page_size - pointer_size

-- The number of links: `size_t`, so it wraps where not even one object fits.
abbrev pub link_count : ℕ → ℕ
link_count obj_size = sub32 ((slabmem_page_size - pointer_size) / obj_size) 1

-- A new page is cut into objects, which are all free.
pub add_page : ℕ → SlabCache → Bytes → SlabCache × Bytes
unfolding link_objects
add_page page c m = (
  record c { free_objs = page; pages = page },
  store_pointer (link_of page) c.pages (link_objects (link_count c.obj_size) page c.obj_size m),
)

-- The first free object.
abbrev pub take_first : SlabCache → Bytes → SlabCache
take_first c m = record c { free_objs = load_pointer c.free_objs m }

abbrev pub emptied : {S : Type 0} → SlabCache → Option S → Option (SlabCache × S)
emptied c none = none
emptied c (some s) = some (record c { pages = 0; free_objs = 0 }, s)

module _ {S : Type 0} (mem : MemOps S) where
  -- The object, 0 for NULL, with the cache, the bytes of the memory and the state of its manager.
  pub slabmem_alloc : SlabCache → Bytes → S → ℕ × SlabCache × Bytes × S
  unfolding add_page
  slabmem_alloc c m s =
      let got = mem.mem_get slabmem_page_size s in
      let (c', m') = add_page got.0 c m in
      if c.free_objs == 0
      then (if got.0 == 0 then (0, c, m, got.1) else (got.0, take_first c' m', m', got.1))
      else (c.free_objs, take_first c m, m, s)

  -- The loop over the pages, on fuel; `none` is that it ran out or that mem_free aborts.
  pub free_pages : ℕ → ℕ → Bytes → S → Option S
  free_pages zero page m s = none
  free_pages (suc fuel) page m s =
      if page == 0 then some s else elim (mem.mem_free page slabmem_page_size s) [
        | none ↦ none
        | some r ↦ free_pages fuel (load_pointer (link_of page) m) m (r.1)
      ]

  -- `fuel` bounds the number of pages.
  pub slabmem_destroy : ℕ → SlabCache → Bytes → S → Option (SlabCache × S)
  unfolding free_pages
  slabmem_destroy fuel c m s = emptied c (free_pages fuel c.pages m s)

pub slabmem_free : ℕ → SlabCache → Bytes → SlabCache × Bytes
slabmem_free obj c m = (record c { free_objs = obj }, store_pointer obj c.free_objs m)
