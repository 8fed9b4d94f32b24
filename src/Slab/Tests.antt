-- ===== src/Slab/Tests.antt =====
-- Runs of fd32/kernel/slabmem.c with objects of 1000 bytes and pages from 8192 on.
use free_dos.Common.{ℕ, ◌+◌, ◌≡◌, refl, ◌⊎◌, inl, List, [], ◌∷◌, none, some, arith}
use free_dos.Common.Int.{pos}
use free_dos.Memory.Ops.{MemOps}
use free_dos.Slab.{
  Bytes, SlabCache, slabmem_page_size, slabmem_create, slabmem_alloc, slabmem_free, slabmem_destroy,
  add_page, link_objects, store_pointer, load_pointer,
}
use free_dos.Slab.Bytes.{SameBut}
use free_dos.Slab.Pool.{Represents, slabmem_free-Represents}
use free_dos.Slab.Alloc.{IsTaken, IsGrown, slabmem_alloc-Represents}
use free_dos.Slab.Destroy.{free_all, slabmem_destroy_lem}

-- The state is the number of the next page.
abbrev page_ops : MemOps ℕ
page_ops = record {
  mem_get = λ bytes s. (8192, s + 1);
  mem_free = λ place bytes s. some (pos 0, s);
}

abbrev zeroes : Bytes
zeroes i = 0

abbrev empty_cache : SlabCache
empty_cache = record { pages = 0; obj_size = 1000; free_objs = 0 }

test_create : slabmem_create 1000 ≡ empty_cache
unfolding slabmem_create
test_create = refl

empty-Represents : Represents empty_cache zeroes [] []
empty-Represents = record {
  size_min = omega arith;
  size_max = omega arith;
  free = refl;
  linked = refl;
  disjoint = tt;
}

-- One page, and no free object.
abbrev used_cache : SlabCache
used_cache = record { pages = 8192; obj_size = 1000; free_objs = 0 }

used-Represents : Represents used_cache zeroes [] (8192 ∷ [])
used-Represents = record {
  size_min = omega arith;
  size_max = omega arith;
  free = refl;
  linked = (refl, omega arith, omega arith, refl);
  disjoint = (tt, tt);
}

-- Four objects fit in a page.
test_alloc :
    let r = slabmem_alloc page_ops empty_cache zeroes 0 in
    ◌≡◌ {A = ℕ × ℕ × ℕ} (r.0, r.1.free_objs, load_pointer 11192 (r.2)) (8192, 9192, 0)
unfolding slabmem_alloc add_page link_objects store_pointer
test_alloc = refl

slabmem_alloc-Represents_example :
    let got = page_ops.mem_get slabmem_page_size 0 in
    IsTaken empty_cache zeroes [] [] 0 (slabmem_alloc page_ops empty_cache zeroes 0)
    ⊎ (◌≡◌ {A = List ℕ} [] []
        × IsGrown empty_cache zeroes [] got (slabmem_alloc page_ops empty_cache zeroes 0))
slabmem_alloc-Represents_example =
    slabmem_alloc-Represents page_ops empty_cache zeroes [] 0 [] empty-Represents
      (λ n. (omega arith, tt))

slabmem_free-Represents_example :
    let r = slabmem_free 8192 used_cache zeroes in
    Represents (r.0) (r.1) (8192 ∷ []) (8192 ∷ []) × SameBut 8192 1000 zeroes (r.1)
slabmem_free-Represents_example =
    slabmem_free-Represents used_cache zeroes [] (8192 ∷ []) 8192 used-Represents (omega arith)
      (omega arith) (inl (omega arith), tt)

slabmem_destroy_lem_example :
    let r = slabmem_destroy page_ops 2 used_cache zeroes 0 in
    ((free_all page_ops (8192 ∷ []) 0 ≡ none) × (r ≡ none))
    ⊎ ((s : ℕ) × (free_all page_ops (8192 ∷ []) 0 ≡ some s)
        × (r ≡ some (record { pages = 0; obj_size = used_cache.obj_size; free_objs = 0 }, s)))
slabmem_destroy_lem_example =
    slabmem_destroy_lem page_ops 2 used_cache zeroes [] (8192 ∷ []) 0 used-Represents (omega arith)
