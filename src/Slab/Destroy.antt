-- ===== src/Slab/Destroy.antt =====
-- slabmem_destroy of fd32/kernel/slabmem.c gives back each page of a cache, once and in order.
use free_dos.Common.{
  ℕ, zero, suc, ◌+◌, ◌<◌, ◌≡◌, ◌⊎◌, refl, sym, ap, ◌∙◌, inl, inr, List, [], ◌∷◌, Option, none, some,
  length, arith, ◌==◌, ==_iff, Option-cases, true, false,
}
use free_dos.Memory.Ops.{MemOps}
use free_dos.Slab.{
  Bytes, SlabCache, load_pointer, link_of, slabmem_page_size, emptied, free_pages, slabmem_destroy,
}
use free_dos.Slab.Lists.{Linked}
use free_dos.Slab.Pool.{Represents}

module _ {S : Type 0} (mem : MemOps S) where
  -- The pages given back one after another; `none` is that mem_free aborts.
  pub free_all : List ℕ → S → Option S
  free_all [] s = some s
  free_all (p ∷ ps) s = elim (mem.mem_free p slabmem_page_size s) [
    | none ↦ none
    | some r ↦ free_all ps (r.1)
  ]

  free_pages_lem :
      (fuel l : ℕ) (m : Bytes) (ps : List ℕ) (s : S)
      → length ps < fuel
      → Linked 4092 m l ps
      → free_pages mem fuel l m s ≡ free_all ps s
  unfolding free_pages free_all
  free_pages_lem zero l m ps s h e = absurd (omega arith)
  free_pages_lem (suc fuel) l m [] s h e =
      let empty : (l == 0) ≡ true = (==_iff l 0).1 e in rw empty refl
  free_pages_lem (suc fuel) l m (p ∷ ps) s h (e, x, y, rest) =
      let some_left : (p == 0) ≡ false = ground arith in
      let next : load_pointer (p + 4092) m ≡ load_pointer (link_of p) m =
        ap (λ t. load_pointer t m) (omega arith) in
      ap (λ q. free_pages mem (suc fuel) q m s) e
      ∙ elim (Option-cases (mem.mem_free p slabmem_page_size s)) [
        | inl f ↦ rw (free_pages, some_left, f) (rw (free_all, f) refl)
        | inr (r, f) ↦
            rw (free_pages, some_left, f)
              (ap (λ q. free_pages mem fuel q m (r.1)) (sym next)
                ∙ free_pages_lem fuel (load_pointer (p + 4092) m) m ps (r.1) (omega arith) rest
                ∙ sym (rw (free_all, f) refl))
      ]

  -- For a cache with the pages `ps`, and a bound above their number: slabmem_destroy gives back the pages
  -- of `ps` to the memory manager, each once, from the newest to the oldest, and the cache keeps the size of
  -- its objects and has neither pages nor free objects (both pointers are null); where mem_free aborts,
  -- it does.
  pub slabmem_destroy_lem :
      (fuel : ℕ) (c : SlabCache) (m : Bytes) (xs ps : List ℕ) (s : S)
      → Represents c m xs ps
      → length ps < fuel
      → ((free_all ps s ≡ none) × (slabmem_destroy mem fuel c m s ≡ none))
        ⊎ ((s' : S) × (free_all ps s ≡ some s')
            × (slabmem_destroy mem fuel c m s
                ≡ some (record { pages = 0; obj_size = c.obj_size; free_objs = 0 }, s')))
  unfolding slabmem_destroy
  slabmem_destroy_lem fuel c m xs ps s r h =
      let e = free_pages_lem fuel c.pages m ps s h r.linked in
      elim (Option-cases (free_all ps s)) [
        | inl f ↦ inl (f, ap (emptied c) (e ∙ f))
        | inr (s', f) ↦ inr (s', f, ap (emptied c) (e ∙ f))
      ]
