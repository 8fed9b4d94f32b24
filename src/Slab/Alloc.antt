-- ===== src/Slab/Alloc.antt =====
-- slabmem_alloc of fd32/kernel/slabmem.c, with a new page where no object is free.
use native.Mathlib.Nat.{div-mul-le_self, le-div_iff_mul-le, div-le_self}
use free_dos.Common.{
  ℕ, zero, suc, ◌+◌, ◌*◌, ◌-◌, length, ◌/◌, ◌^◌, ◌≤◌, ◌<◌, ◌≡◌, ◌≢◌, refl, sym, ap, subst, ◌∙◌, ◌⊎◌,
  inl, inr, List, [], ◌∷◌, arith, ◌==◌, ==_iff, Bool-cases, true, false, true≢false,
}
use free_dos.Memory.Ops.{MemOps}
use free_dos.Slab.{
  Bytes, SlabCache, load_pointer, store_pointer, link_of, link_count, link_objects, add_page,
  take_first, slabmem_alloc, slabmem_page_size,
}
use free_dos.Slab.Bytes.{SameBut, store_pointer-SameBut, load_pointer-store_pointer}
use free_dos.Slab.Lists.{
  Linked, AllApart, link_cells, cells, pages-SameBut, objects-SameBut, objects, Fits, Fits-le,
  link_objects_lem,
}
use free_dos.Slab.Pool.{Represents, PagesApart, objects-Disjoint, apart_from_links}

suc_mul : (n size : ℕ) → suc n * size ≡ n * size + size
suc_mul n size = omega arith

Fits-intro : (n obj size end : ℕ) → obj + (n * size + size) ≤ end → Fits n obj size end
Fits-intro zero obj size end h = omega arith
Fits-intro (suc n) obj size end h =
    let grows : suc n * size ≡ n * size + size = suc_mul n size in
    Fits-intro n (obj + size) size end (omega arith)

link_count_lem :
    (size : ℕ)
    → 4 ≤ size
    → size ≤ 4092
    → (suc (link_count size) ≡ 4092 / size) × (link_count size * size + size ≤ 4092)
link_count_lem size l h =
    let q = 4092 / size in
    let one : 1 ≤ q =
      (le-div_iff_mul-le {k = size} {x = 1} {y = 4092} (omega arith)).1 (omega arith) in
    let few : q ≤ 4092 = div-le_self 4092 size in
    let count : suc (link_count size) ≡ q = omega arith in
    let all : suc (link_count size) * size ≤ 4092 =
      subst (λ n. n * size ≤ 4092) (sym count) (div-mul-le_self 4092 size) in
    (count, omega (arith, all, suc_mul (link_count size) size))

-- The objects of a page behind the first one.
abbrev pub more : ℕ → ℕ → ℕ → List ℕ
more zero obj size = []
more (suc n) obj size = objects n (obj + size) size

objects-more : (n obj size : ℕ) → objects n obj size ≡ obj ∷ more n obj size
objects-more zero obj size = refl
objects-more (suc n) obj size = refl

length-objects : (n obj size : ℕ) → length (objects n obj size) ≡ suc n
length-objects zero obj size = refl
length-objects (suc n) obj size = ap suc (length-objects n (obj + size) size)

-- The first free object is taken.
pub take_first-Represents :
    (c : SlabCache) (m : Bytes) (x : ℕ) (xs ps : List ℕ)
    → Represents c m (x ∷ xs) ps
    → (c.free_objs ≡ x)
      × Represents (take_first c m) m xs ps
      × AllApart (x, c.obj_size) (cells c.obj_size xs ps)
take_first-Represents c m x xs ps r =
    let (e, l, b, rest) = r.free in
    let next : load_pointer (x + 0) m ≡ load_pointer c.free_objs m =
      ap (λ t. load_pointer t m) (omega (arith, e)) in
    (
      e,
      record {
        size_min = r.size_min;
        size_max = r.size_max;
        free = subst (λ t. Linked 0 m t xs) next rest;
        linked = r.linked;
        disjoint = r.disjoint.1;
      },
      r.disjoint.0,
    )

-- A cell behind the objects.
apart_behind :
    (a k n obj size : ℕ) (ps : List ℕ)
    → Fits n obj size a
    → AllApart (a, k) (link_cells ps)
    → AllApart (a, k) (cells size (objects n obj size) ps)
apart_behind a k zero obj size ps f h = (inr f, h)
apart_behind a k (suc n) obj size ps f h = (
  inr (omega (arith, Fits-le n (obj + size) size a f)),
  apart_behind a k n (obj + size) size ps f h,
)

first_page_lt : (m : Bytes) (l : ℕ) (ps : List ℕ) → Linked 4092 m l ps → l < 2 ^ 32
first_page_lt m l [] e = omega (arith, e)
first_page_lt m l (p ∷ ps) (e, x, y, t) = omega (arith, e)

module _ (c : SlabCache) (m : Bytes) (ps : List ℕ) (page : ℕ) (r : Represents c m [] ps)
    (l : 0 < page) (b : page + 4096 < 2 ^ 32) (o : PagesApart page ps) where
  abbrev n : ℕ
  n = link_count c.obj_size

  abbrev size : ℕ
  size = c.obj_size

  abbrev m1 : Bytes
  m1 = link_objects n page size m

  abbrev m2 : Bytes
  m2 = store_pointer (page + 4092) c.pages m1

  fits : Fits n page size (page + 4092)
  fits =
      Fits-intro n page size (page + 4092)
        (omega (arith, (link_count_lem size r.size_min r.size_max).1))

  cut : SameBut page (page + 4092 - page) m m1 × Linked 0 m1 page (objects n page size)
  cut = link_objects_lem n page size (page + 4092) m r.size_min l (omega arith) fits

  ends : AllApart (page + 4092, 4) (link_cells ps)
  ends = apart_from_links page (page + 4092) 4 ps (omega arith) (omega arith) o

  linked_pages : Linked 4092 m2 page (page ∷ ps)
  linked_pages =
      let kept =
        pages-SameBut page (page + 4092 - page) m m1 c.pages ps cut.0
          (apart_from_links page page (page + 4092 - page) ps (omega arith) (omega arith) o)
          r.linked in
      let kept2 =
        pages-SameBut (page + 4092) 4 m1 m2 c.pages ps
          (store_pointer-SameBut (page + 4092) c.pages m1) ends kept in
      (
        refl,
        l,
        omega arith,
        subst (λ t. Linked 4092 m2 t ps)
            (sym (
              load_pointer-store_pointer (page + 4092) c.pages m1
                (first_page_lt m c.pages ps r.linked)))
            kept2,
      )

  in_page : SameBut page 4096 m m2
  in_page i (inl h) =
      store_pointer-SameBut (page + 4092) c.pages m1 i (inl (omega arith)) ∙ cut.0 i (inl h)
  in_page i (inr h) =
      store_pointer-SameBut (page + 4092) c.pages m1 i (inr (omega arith))
      ∙ cut.0 i (inr (omega arith))

  pub add_page-Represents :
      let r = add_page page c m in
      Represents (r.0) (r.1) (objects n page size) (page ∷ ps) × SameBut page 4096 m (r.1)
  unfolding add_page
  add_page-Represents =
      let place : link_of page ≡ page + 4092 = omega arith in
      subst
        (λ a.
          Represents (record c { free_objs = page; pages = page }) (store_pointer a c.pages m1)
            (objects n page size) (page ∷ ps)
          × SameBut page 4096 m (store_pointer a c.pages m1))
        (sym place)
        (
          record {
            size_min = r.size_min;
            size_max = r.size_max;
            free =
                objects-SameBut (page + 4092) 4 size m1 m2 page (objects n page size) ps r.size_min
                  (store_pointer-SameBut (page + 4092) c.pages m1)
                  (apart_behind (page + 4092) 4 n page size ps fits ends) cut.1;
            linked = linked_pages;
            disjoint = objects-Disjoint n page size page ps (omega arith) fits o (ends, r.disjoint);
          },
          in_page,
        )

-- What slabmem_alloc returns where an object is free: it, and the cache without it.
abbrev pub IsTaken :
    {S : Type 0} → SlabCache → Bytes → List ℕ → List ℕ → S → ℕ × SlabCache × Bytes × S → Type 0
IsTaken c m [] ps s r = ⊥
IsTaken c m (x ∷ xs) ps s r =
    (r.0 ≡ x)
    × (r.2 ≡ m)
    × (r.3 ≡ s)
    × Represents (r.1) m xs ps
    × AllApart (x, c.obj_size) (cells c.obj_size xs ps)

-- And where none is: NULL and the same cache, or the first object of a new page, with the others free.
abbrev pub IsGrown :
    {S : Type 0} → SlabCache → Bytes → List ℕ → ℕ × S → ℕ × SlabCache × Bytes × S → Type 0
IsGrown c m ps got r =
    (r.3 ≡ got.1)
    × (((got.0 ≡ 0) × (r.0 ≡ 0) × (r.1 ≡ c) × (r.2 ≡ m))
        ⊎ ((got.0 ≢ 0)
            × (r.0 ≡ got.0)
            × SameBut (got.0) 4096 m (r.2)
            × ((xs : List ℕ) × (suc (length xs) ≡ 4092 / c.obj_size)
                × Represents (r.1) (r.2) xs (got.0 ∷ ps)
                × AllApart (got.0, c.obj_size) (cells c.obj_size xs (got.0 ∷ ps)))))

module _ {S : Type 0} (mem : MemOps S) (c : SlabCache) (m : Bytes) (ps : List ℕ) (s : S) where
  taken :
      (x : ℕ) (xs : List ℕ)
      → Represents c m (x ∷ xs) ps
      → IsTaken c m (x ∷ xs) ps s (slabmem_alloc mem c m s)
  unfolding slabmem_alloc
  taken x xs r =
      let (e, rest, apart) = take_first-Represents c m x xs ps r in
      let (f, l, b, more) = r.free in
      let some_free : (c.free_objs == 0) ≡ false = ground (arith, f) in
      rw some_free (e, refl, refl, rest, apart)

  none_free :
      let got = mem.mem_get slabmem_page_size s in
      Represents c m [] ps
      → (got.0 ≢ 0 → (got.0 + 4096 < 2 ^ 32) × PagesApart (got.0) ps)
      → IsGrown c m ps got (slabmem_alloc mem c m s)
  unfolding slabmem_alloc
  none_free r fresh =
      let page = (mem.mem_get slabmem_page_size s).0 in
      let empty : (c.free_objs == 0) ≡ true = (==_iff c.free_objs 0).1 r.free in
      elim (Bool-cases (page == 0)) [
        | inl e ↦ rw (empty, e) (refl, inl ((==_iff page 0).0 e, refl, refl, refl))
        | inr e ↦
            let there : page ≢ 0 = λ q. true≢false (sym ((==_iff page 0).1 q) ∙ e) in
            let (b, o) = fresh there in
            let n = link_count c.obj_size in
            let (whole, same) = add_page-Represents c m ps page r (omega (arith, there)) b o in
            let (count, room) = link_count_lem c.obj_size r.size_min r.size_max in
            let whole' =
              subst (λ os. Represents (add_page page c m).0 (add_page page c m).1 os (page ∷ ps))
                (objects-more n page c.obj_size) whole in
            let (f, rest, apart) =
              take_first-Represents (add_page page c m).0 (add_page page c m).1 page
                (more n page c.obj_size) (page ∷ ps) whole' in
            rw (empty, e)
              (
                refl,
                inr (
                  there,
                  refl,
                  same,
                  (
                    more n page c.obj_size,
                    sym (ap length (objects-more n page c.obj_size))
                        ∙ length-objects n page c.obj_size
                        ∙ count,
                    rest,
                    apart,
                  ),
                ),
              )
      ]

  -- For a cache with the free objects `xs` and the pages `ps`, where a page from the memory manager does
  -- not meet its pages and does not reach the end of the address space: where `xs` is not empty,
  -- slabmem_alloc returns its first object, and the cache has the others; where it is, a page is asked
  -- for, and either there is none, NULL is returned and nothing changes, or the first object of the page
  -- is returned, the page is added, its other objects are free, as many as fit, and no byte outside the
  -- page changed. The object that is returned meets no free object and no pointer of the cache.
  pub slabmem_alloc-Represents :
      (xs : List ℕ)
      → Represents c m xs ps
      → let got = mem.mem_get slabmem_page_size s in
        (got.0 ≢ 0 → (got.0 + 4096 < 2 ^ 32) × PagesApart (got.0) ps)
        → IsTaken c m xs ps s (slabmem_alloc mem c m s)
          ⊎ ((xs ≡ []) × IsGrown c m ps got (slabmem_alloc mem c m s))
  slabmem_alloc-Represents [] r fresh = inr (refl, none_free r fresh)
  slabmem_alloc-Represents (x ∷ xs) r fresh = inl (taken x xs r)
