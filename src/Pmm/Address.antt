-- ===== src/Pmm/Address.antt =====
-- pmm_alloc_address of fd32/kernel/pmm.c.
use free_dos.Common.{
  ℕ, ◌+◌, ◌≤◌, ◌<◌, ◌^◌, ◌≡◌, refl, ◌⊎◌, inl, inr, List, [], ◌∷◌, ◌++◌, ◌-◌, ◌&&◌, true, false, leb,
  ap, arith,
}
use free_dos.Common.Int.{ℤ, pos, negsuc}
use free_dos.Common.Word.{add32, sub32}
use free_dos.Pmm.{
  left_over, behind, chunk_end, Memheader, Mempool, alloc_address_walk, pmm_alloc_address,
}
use free_dos.Pmm.Chain.{
  IsChain, IsFree, Within, Outside, HasChunk, IsFree-above, HasChunk-IsChain, HasChunk-end,
  left_over-IsChain, left_over-IsFree,
}

-- One chunk has the whole region.
abbrev pub HasRoom : List Memheader → ℕ → ℕ → Type 0
HasRoom [] base size = ⊥
HasRoom (p ∷ rest) base size =
    ((p.addr ≤ base) × (base + size ≤ p.addr + p.size)) ⊎ HasRoom rest base size

-- `size ≤ lo`: no chunk ends below the address `size`, so `end - size` does not wrap.
address_walk_here :
    (lo total : ℕ) (p : Memheader) (rest : List Memheader) (base size : ℕ)
    → IsChain lo (p ∷ rest)
    → size ≤ lo
    → p.addr ≤ base
    → base + size ≤ p.addr + p.size
    → let r = alloc_address_walk total (p ∷ rest) base size in
      (r.0 ≡ pos 1)
      × (r.1.chunks
          ≡ left_over p.addr (base - p.addr)
            ++ (left_over (base + size) (p.addr + p.size - (base + size)) ++ rest))
unfolding alloc_address_walk
address_walk_here lo total p rest base size c s l r =
    let d : sub32 base p.addr ≡ base - p.addr = omega arith in
    let e : sub32 (chunk_end p) (add32 base size) ≡ p.addr + p.size - (base + size) = omega arith in
    let g : add32 base size ≡ base + size = omega arith in
    let fits : leb base (sub32 (chunk_end p) size) ≡ true = ground arith in
    let low : leb p.addr base ≡ true = ground arith in rw (d, e, g, fits, low) (refl, refl)

address_walk_passes :
    (lo total : ℕ) (p : Memheader) (rest : List Memheader) (base size : ℕ)
    → IsChain lo (p ∷ rest)
    → size ≤ lo
    → base + size < 2 ^ 32
    → (base < p.addr) ⊎ (p.addr + p.size < base + size)
    → alloc_address_walk total (p ∷ rest) base size
      ≡ behind p (alloc_address_walk total rest base size)
unfolding alloc_address_walk
address_walk_passes lo total p rest base size c s b d =
    let no_room : (leb base (sub32 (chunk_end p) size) && leb p.addr base) ≡ false = ground arith in
    rw no_room

-- A region that is cut out of a chunk, in plain arithmetic.
abbrev carve : Memheader → List Memheader → ℕ → ℕ → List Memheader
carve p rest base size =
    left_over p.addr (base - p.addr)
    ++ (left_over (base + size) (p.addr + p.size - (base + size)) ++ rest)

carve-IsChain :
    (lo : ℕ) (p : Memheader) (rest : List Memheader) (base size : ℕ)
    → IsChain lo (p ∷ rest)
    → 0 < size
    → p.addr ≤ base
    → base + size ≤ p.addr + p.size
    → IsChain lo (carve p rest base size)
carve-IsChain lo p rest base size c s l r =
    let above =
      left_over-IsChain base (base + size) (p.addr + p.size - (base + size)) (p.addr + p.size) rest
        (omega arith) (omega arith) (omega arith) c.3 in
    left_over-IsChain lo p.addr (base - p.addr) base
      (left_over (base + size) (p.addr + p.size - (base + size)) ++ rest) (omega arith)
      (omega arith) (omega arith) above

carve_shrinks :
    (lo : ℕ) (p : Memheader) (rest : List Memheader) (base size a : ℕ)
    → IsChain lo (p ∷ rest)
    → p.addr ≤ base
    → base + size ≤ p.addr + p.size
    → IsFree (carve p rest base size) a
    → IsFree (p ∷ rest) a × Outside base size a
carve_shrinks lo p rest base size a c l r f =
    let above = left_over (base + size) (p.addr + p.size - (base + size)) ++ rest in
    elim (left_over-IsFree p.addr (base - p.addr) a above f) [
      | inl w ↦ (inl (omega arith, omega arith), inl (omega arith))
      | inr g ↦ elim (left_over-IsFree (base + size) (p.addr + p.size - (base + size)) a rest g) [
        | inl w ↦ (inl (omega arith, omega arith), inr (omega arith))
        | inr h ↦ (inr h, inr (omega (arith, IsFree-above (p.addr + p.size) rest a c.3 h)))
      ]
    ]

Room-cases :
    (p : Memheader) (base size : ℕ)
    → ((p.addr ≤ base) × (base + size ≤ p.addr + p.size))
      ⊎ ((base < p.addr) ⊎ (p.addr + p.size < base + size))
Room-cases p base size = ground arith

HasRoom-IsFree :
    (cs : List Memheader) (base size a : ℕ)
    → HasRoom cs base size
    → Within base size a
    → IsFree cs a
HasRoom-IsFree [] base size a h w = absurd h
HasRoom-IsFree (p ∷ rest) base size a (inl h) w = inl (omega arith, omega arith)
HasRoom-IsFree (p ∷ rest) base size a (inr h) w = inr (HasRoom-IsFree rest base size a h w)

-- What the walk does, for a request that no chunk ends below: it carves the region out of the chunk
-- that has it, or leaves the chain alone where none has.
abbrev Answers : ℕ → List Memheader → ℕ → ℕ → ℤ × Mempool → Type 0
Answers lo cs base size r =
    ((r.0 ≡ pos 1)
      × HasRoom cs base size
      × IsChain lo (r.1.chunks)
      × ((a : ℕ) → IsFree (r.1.chunks) a → IsFree cs a × Outside base size a))
    ⊎ ((r.0 ≡ negsuc 0) × (r.1.chunks ≡ cs) × ¬ HasRoom cs base size)

HasRoom-above :
    (lo : ℕ) (cs : List Memheader) (base size : ℕ)
    → IsChain lo cs
    → HasRoom cs base size
    → lo < base
HasRoom-above lo [] base size c h = absurd h
HasRoom-above lo (p ∷ rest) base size c (inl h) = omega arith
HasRoom-above lo (p ∷ rest) base size c (inr h) =
    omega (arith, HasRoom-above (p.addr + p.size) rest base size c.3 h)

passes :
    (lo : ℕ) (p : Memheader) (rest : List Memheader) (base size : ℕ) (r : ℤ × Mempool)
    → IsChain lo (p ∷ rest)
    → (base < p.addr) ⊎ (p.addr + p.size < base + size)
    → Answers (p.addr + p.size) rest base size r
    → Answers lo (p ∷ rest) base size (behind p r)
passes lo p rest base size r c d (inl (e, room, chain, shrinks)) = inl (
  e,
  inr room,
  (c.0, c.1, c.2, chain),
  λ a f. ground (arith, shrinks a, HasRoom-above (p.addr + p.size) rest base size c.3 room),
)
passes lo p rest base size r c d (inr (e, same, no_room)) =
    inr (e, ap (λ cs. p ∷ cs) same, λ h. ground (arith, no_room))

address_walk-Answers :
    (lo total : ℕ) (cs : List Memheader) (base size : ℕ)
    → IsChain lo cs
    → size ≤ lo
    → 0 < size
    → base + size < 2 ^ 32
    → Answers lo cs base size (alloc_address_walk total cs base size)
address_walk-Answers lo total [] base size c s z b =
    unfold alloc_address_walk in inr (refl, refl, λ h. h)
address_walk-Answers lo total (p ∷ rest) base size c s z b = elim (Room-cases p base size) [
  | inl (l, r) ↦
      let here = address_walk_here lo total p rest base size c s l r in
      inl (
        here.0,
        inl (l, r),
        rw (here.1) (carve-IsChain lo p rest base size c z l r),
        rw (here.1) (λ a f. carve_shrinks lo p rest base size a c l r f),
      )
  | inr d ↦ rw (address_walk_passes lo total p rest base size c s b d) (
      passes lo p rest base size (alloc_address_walk total rest base size) c d
        (address_walk-Answers (p.addr + p.size) total rest base size c.3 (omega arith) z b))
]

-- For a well-formed pool none of whose chunks begins at or below the address `size` (so that
-- `end - size` does not wrap), and a region that is not empty and does not reach the end of the
-- address space: pmm_alloc_address returns 1 exactly if one free chunk has the whole region; then
-- the pool stays well-formed, every byte of the region was free, and what is free afterwards was
-- free and lies outside the region. Otherwise it returns -1 and leaves the chain alone.
pub pmm_alloc_address_lem :
    (mp : Mempool) (base size : ℕ)
    → IsChain size mp.chunks
    → 0 < size
    → base + size < 2 ^ 32
    → let r = pmm_alloc_address mp base size in
      ((r.0 ≡ pos 1)
        × HasRoom mp.chunks base size
        × IsChain size (r.1.chunks)
        × ((a : ℕ) → Within base size a → IsFree mp.chunks a)
        × ((a : ℕ) → IsFree (r.1.chunks) a → IsFree mp.chunks a × Outside base size a))
      ⊎ ((r.0 ≡ negsuc 0) × (r.1.chunks ≡ mp.chunks) × ¬ HasRoom mp.chunks base size)
unfolding pmm_alloc_address
pmm_alloc_address_lem mp base size c z b =
    elim (address_walk-Answers size mp.total mp.chunks base size c (omega arith) z b) [
      | inl (e, room, chain, shrinks) ↦
          inl (e, room, chain, λ a w. HasRoom-IsFree mp.chunks base size a room w, shrinks)
      | inr h ↦ inr h
    ]

address_walk_wraps :
    (lo total : ℕ) (cs : List Memheader) (base n size : ℕ)
    → IsChain lo cs
    → HasChunk cs base n
    → base + n < size
    → size < 2 ^ 32
    → (alloc_address_walk total cs base size).0 ≡ pos 1
unfolding alloc_address_walk
address_walk_wraps lo total [] base n size c h l b = absurd h
address_walk_wraps lo total (p ∷ rest) base n size c h l b = ground (
  arith,
  HasChunk-IsChain lo (p ∷ rest) base n c h,
  address_walk_wraps (p.addr + p.size) total rest base n size c.3,
)

-- A defect: for a well-formed pool with a free chunk of `n` bytes at `base`, a request at `base` for
-- more bytes than the chunk's end address is granted (`end-size` wraps), though the byte behind the
-- chunk is in the region and is not free.
pub pmm_alloc_address_wraps :
    (mp : Mempool) (base n size : ℕ)
    → IsChain 0 mp.chunks
    → HasChunk mp.chunks base n
    → base + n < size
    → size < 2 ^ 32
    → ((pmm_alloc_address mp base size).0 ≡ pos 1)
      × Within base size (base + n)
      × ¬ IsFree mp.chunks (base + n)
unfolding pmm_alloc_address
pmm_alloc_address_wraps mp base n size c h l b = (
  address_walk_wraps 0 mp.total mp.chunks base n size c h l b,
  omega arith,
  HasChunk-end 0 mp.chunks base n c h,
)
