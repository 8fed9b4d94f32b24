-- ===== src/Slab/Lists.antt =====
-- The lists of fd32/kernel/slabmem.c in the memory: free objects, and pages.
use free_dos.Common.{
  ℕ, zero, suc, ◌+◌, ◌-◌, ◌^◌, ◌≤◌, ◌<◌, ◌≡◌, refl, sym, ap, subst, ◌∙◌, ◌⊎◌, inl, inr, List, [],
  ◌∷◌, arith,
}
use free_dos.Slab.{Bytes, load_pointer, store_pointer, link_objects}
use free_dos.Slab.Bytes.{
  SameBut, store_pointer-SameBut, load_pointer-store_pointer, load_pointer-SameBut,
}

-- The places of a list that starts at `l` and has the pointer to the next place `at` bytes behind each.
abbrev pub Linked : ℕ → Bytes → ℕ → List ℕ → Type 0
Linked at m l [] = l ≡ 0
Linked at m l (x ∷ xs) =
    (l ≡ x) × (0 < x) × (x + at + 4 < 2 ^ 32) × Linked at m (load_pointer (x + at) m) xs

-- A place with a number of bytes.
abbrev pub Cell : Type 0
Cell = ℕ × ℕ

abbrev pub IsApart : Cell → Cell → Type 0
IsApart (a, n) (b, k) = (a + n ≤ b) ⊎ (b + k ≤ a)

abbrev pub AllApart : Cell → List Cell → Type 0
AllApart c [] = Unit
AllApart c (d ∷ ds) = IsApart c d × AllApart c ds

abbrev pub Disjoint : List Cell → Type 0
Disjoint [] = Unit
Disjoint (c ∷ cs) = AllApart c cs × Disjoint cs

-- The pointers at the ends of the pages, and in front of them the free objects.
abbrev pub link_cells : List ℕ → List Cell
link_cells [] = []
link_cells (p ∷ ps) = (p + 4092, 4) ∷ link_cells ps

abbrev pub cells : ℕ → List ℕ → List ℕ → List Cell
cells size [] ps = link_cells ps
cells size (x ∷ xs) ps = (x, size) ∷ cells size xs ps

-- A write in a cell apart from them leaves both lists.
pub pages-SameBut :
    (a n : ℕ) (m m' : Bytes) (l : ℕ) (ps : List ℕ)
    → SameBut a n m m'
    → AllApart (a, n) (link_cells ps)
    → Linked 4092 m l ps
    → Linked 4092 m' l ps
pages-SameBut a n m m' l [] s h e = e
pages-SameBut a n m m' l (p ∷ ps) s (h, hs) (e, x, y, rest) =
    let same : load_pointer (p + 4092) m' ≡ load_pointer (p + 4092) m =
      load_pointer-SameBut a n (p + 4092) m m' (flip h) s in
    (
      e,
      x,
      y,
      subst (λ t. Linked 4092 m' t ps) (sym same)
          (pages-SameBut a n m m' (load_pointer (p + 4092) m) ps s hs rest),
    )
  where
    flip : IsApart (a, n) (p + 4092, 4) → (p + 4092 + 4 ≤ a) ⊎ (a + n ≤ p + 4092)
    flip (inl h) = inr h
    flip (inr h) = inl h

pub objects-SameBut :
    (a n size : ℕ) (m m' : Bytes) (l : ℕ) (xs ps : List ℕ)
    → 4 ≤ size
    → SameBut a n m m'
    → AllApart (a, n) (cells size xs ps)
    → Linked 0 m l xs
    → Linked 0 m' l xs
objects-SameBut a n size m m' l [] ps w s h e = e
objects-SameBut a n size m m' l (x ∷ xs) ps w s (h, hs) (e, y, z, rest) =
    let same : load_pointer (x + 0) m' ≡ load_pointer (x + 0) m =
      load_pointer-SameBut a n (x + 0) m m' (flip h) s in
    (
      e,
      y,
      z,
      subst (λ t. Linked 0 m' t xs) (sym same)
          (objects-SameBut a n size m m' (load_pointer (x + 0) m) xs ps w s hs rest),
    )
  where
    flip : IsApart (a, n) (x, size) → (x + 0 + 4 ≤ a) ⊎ (a + n ≤ x + 0)
    flip (inl h) = inr (omega arith)
    flip (inr h) = inl (omega arith)

pub AllApart-pages :
    (c : Cell) (size : ℕ) (xs ps : List ℕ)
    → AllApart c (cells size xs ps)
    → AllApart c (link_cells ps)
AllApart-pages c size [] ps h = h
AllApart-pages c size (x ∷ xs) ps (h, hs) = AllApart-pages c size xs ps hs

-- The objects of a page that `link_objects` links: all between `obj` and `end`.
abbrev pub objects : ℕ → ℕ → ℕ → List ℕ
objects zero obj size = obj ∷ []
objects (suc n) obj size = obj ∷ objects n (obj + size) size

abbrev pub Fits : ℕ → ℕ → ℕ → ℕ → Type 0
Fits zero obj size end = obj + size ≤ end
Fits (suc n) obj size end = Fits n (obj + size) size end

pub Fits-le : (n obj size end : ℕ) → Fits n obj size end → obj + size ≤ end
Fits-le zero obj size end h = h
Fits-le (suc n) obj size end h = omega (arith, Fits-le n (obj + size) size end h)

pub link_objects_lem :
    (n obj size end : ℕ) (m : Bytes)
    → 4 ≤ size
    → 0 < obj
    → end + 4 < 2 ^ 32
    → Fits n obj size end
    → SameBut obj (end - obj) m (link_objects n obj size m)
      × Linked 0 (link_objects n obj size m) obj (objects n obj size)
unfolding link_objects
link_objects_lem zero obj size end m w l b h = (
  λ i. elim_outside i,
  (refl, l, omega arith, (load_zero ∙ load_pointer-store_pointer obj 0 m (omega arith))),
)
  where
    elim_outside : (i : ℕ) → (i < obj) ⊎ (obj + (end - obj) ≤ i) → store_pointer obj 0 m i ≡ m i
    elim_outside i (inl o) = store_pointer-SameBut obj 0 m i (inl o)
    elim_outside i (inr o) = store_pointer-SameBut obj 0 m i (inr (omega arith))

    load_zero :
        load_pointer (obj + 0) (store_pointer obj 0 m) ≡ load_pointer obj (store_pointer obj 0 m)
    load_zero = ap (λ t. load_pointer t (store_pointer obj 0 m)) (omega arith)
link_objects_lem (suc n) obj size end m w l b h =
    let m1 = store_pointer obj (obj + size) m in
    let m2 = link_objects n (obj + size) size m1 in
    let le = Fits-le n (obj + size) size end h in
    let (same, chain) = link_objects_lem n (obj + size) size end m1 w (omega arith) b h in
    let here : load_pointer (obj + 0) m2 ≡ obj + size =
      ap (λ t. load_pointer t m2) (omega arith)
      ∙ load_pointer-SameBut (obj + size) (end - (obj + size)) obj m1 m2 (inl (omega arith)) same
      ∙ load_pointer-store_pointer obj (obj + size) m (omega arith) in
    (
      λ i o. same i (further i o) ∙ store_pointer-SameBut obj (obj + size) m i (near i o),
      (
        refl,
        l,
        omega arith,
        subst (λ t. Linked 0 m2 t (objects n (obj + size) size)) (sym here) chain,
      ),
    )
  where
    further :
        (i : ℕ)
        → (i < obj) ⊎ (obj + (end - obj) ≤ i)
        → (i < obj + size) ⊎ (obj + size + (end - (obj + size)) ≤ i)
    further i (inl o) = inl (omega arith)
    further i (inr o) = inr (omega (arith, Fits-le n (obj + size) size end h))

    near : (i : ℕ) → (i < obj) ⊎ (obj + (end - obj) ≤ i) → (i < obj) ⊎ (obj + 4 ≤ i)
    near i (inl o) = inl o
    near i (inr o) = inr (omega (arith, Fits-le n (obj + size) size end h))
