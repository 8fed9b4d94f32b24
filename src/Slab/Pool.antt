-- ===== src/Slab/Pool.antt =====
-- A cache of fd32/kernel/slabmem.c hands out objects that meet no other object and no pointer of it.
use free_dos.Common.{
  ℕ, zero, suc, ◌+◌, ◌^◌, ◌≤◌, ◌<◌, ◌≡◌, refl, sym, ap, subst, ◌∙◌, ◌⊎◌, inl, inr, List, [], ◌∷◌,
  arith,
}
use free_dos.Slab.{Bytes, SlabCache, load_pointer, store_pointer, slabmem_free}
use free_dos.Slab.Bytes.{SameBut, store_pointer-SameBut, load_pointer-store_pointer}
use free_dos.Slab.Lists.{
  Linked, AllApart, Disjoint, link_cells, cells, pages-SameBut, objects-SameBut, AllApart-pages,
  objects, Fits, Fits-le,
}

-- The free objects `xs` and the pages `ps` of a cache, in memory. An object has room for a pointer, and
-- at least one fits in a page.
pub record Represents (c : SlabCache) (m : Bytes) (xs ps : List ℕ) : Type 0 where
  pub size_min : 4 ≤ c.obj_size
  pub size_max : c.obj_size ≤ 4092
  pub free : Linked 0 m c.free_objs xs
  pub linked : Linked 4092 m c.pages ps
  pub disjoint : Disjoint (cells c.obj_size xs ps)

-- What the owner of the cells apart from it writes leaves a cache as it is.
pub Represents-SameBut :
    (c : SlabCache) (m m' : Bytes) (xs ps : List ℕ) (a n : ℕ)
    → Represents c m xs ps
    → AllApart (a, n) (cells c.obj_size xs ps)
    → SameBut a n m m'
    → Represents c m' xs ps
Represents-SameBut c m m' xs ps a n r h s = record {
  size_min = r.size_min;
  size_max = r.size_max;
  free = objects-SameBut a n c.obj_size m m' c.free_objs xs ps r.size_min s h r.free;
  linked = pages-SameBut a n m m' c.pages ps s (AllApart-pages (a, n) c.obj_size xs ps h) r.linked;
  disjoint = r.disjoint;
}

-- slabmem_free of an object that is apart from the free ones and the pointers of the cache puts it in
-- front of the free objects, and writes nothing outside of it.
pub slabmem_free-Represents :
    (c : SlabCache) (m : Bytes) (xs ps : List ℕ) (obj : ℕ)
    → Represents c m xs ps
    → 0 < obj
    → obj + 4 < 2 ^ 32
    → AllApart (obj, c.obj_size) (cells c.obj_size xs ps)
    → let r = slabmem_free obj c m in
      Represents (r.0) (r.1) (obj ∷ xs) ps × SameBut obj c.obj_size m (r.1)
unfolding slabmem_free
slabmem_free-Represents c m xs ps obj r l b h =
    let m' = store_pointer obj c.free_objs m in
    let same : SameBut obj c.obj_size m m' =
      λ i o. store_pointer-SameBut obj c.free_objs m i (wider i o) in
    let kept = Represents-SameBut c m m' xs ps obj c.obj_size r h same in
    let here : load_pointer (obj + 0) m' ≡ c.free_objs =
      ap (λ t. load_pointer t m') (omega arith)
      ∙ load_pointer-store_pointer obj c.free_objs m (first_lt c.free_objs xs r.free) in
    (
      record {
        size_min = r.size_min;
        size_max = r.size_max;
        free = (refl, l, omega arith, subst (λ t. Linked 0 m' t xs) (sym here) kept.free);
        linked = kept.linked;
        disjoint = (h, r.disjoint);
      },
      same,
    )
  where
    wider : (i : ℕ) → (i < obj) ⊎ (obj + c.obj_size ≤ i) → (i < obj) ⊎ (obj + 4 ≤ i)
    wider i (inl o) = inl o
    wider i (inr o) = inr (omega (arith, r.size_min))

    first_lt : (f : ℕ) (ys : List ℕ) → Linked 0 m f ys → f < 2 ^ 32
    first_lt f [] e = omega (arith, e)
    first_lt f (y ∷ ys) (e, x, z, t) = omega (arith, e)

-- The cells of the free objects of a page lie in it, do not meet, and are apart from the pointers that
-- are.
abbrev pub PagesApart : ℕ → List ℕ → Type 0
PagesApart page [] = Unit
PagesApart page (p ∷ ps) = ((page + 4096 ≤ p) ⊎ (p + 4096 ≤ page)) × PagesApart page ps

pub apart_from_links :
    (page a n : ℕ) (ps : List ℕ)
    → page ≤ a
    → a + n ≤ page + 4096
    → PagesApart page ps
    → AllApart (a, n) (link_cells ps)
apart_from_links page a n [] l b h = tt
apart_from_links page a n (p ∷ ps) l b (inl o, h) =
    (inl (omega arith), apart_from_links page a n ps l b h)
apart_from_links page a n (p ∷ ps) l b (inr o, h) =
    (inr (omega arith), apart_from_links page a n ps l b h)

-- A cell in front of the objects.
pub apart_from_objects :
    (a k n obj size page : ℕ) (ps : List ℕ)
    → a + k ≤ obj
    → Fits n obj size (page + 4092)
    → AllApart (a, k) (link_cells (page ∷ ps))
    → AllApart (a, k) (cells size (objects n obj size) (page ∷ ps))
apart_from_objects a k zero obj size page ps l f h = (inl l, h)
apart_from_objects a k (suc n) obj size page ps l f h =
    (inl l, apart_from_objects a k n (obj + size) size page ps (omega arith) f h)

pub objects-Disjoint :
    (n obj size page : ℕ) (ps : List ℕ)
    → page ≤ obj
    → Fits n obj size (page + 4092)
    → PagesApart page ps
    → Disjoint (link_cells (page ∷ ps))
    → Disjoint (cells size (objects n obj size) (page ∷ ps))
objects-Disjoint zero obj size page ps l f h d =
    ((inl f, apart_from_links page obj size ps l (omega arith) h), d)
objects-Disjoint (suc n) obj size page ps l f h d =
    let le = Fits-le n (obj + size) size (page + 4092) f in
    (
      apart_from_objects obj size n (obj + size) size page ps (omega arith) f
          (inl (omega arith), apart_from_links page obj size ps l (omega arith) h),
      objects-Disjoint n (obj + size) size page ps (omega arith) f h d,
    )
