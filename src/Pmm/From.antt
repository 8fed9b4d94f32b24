-- ===== src/Pmm/From.antt =====
-- pmm_alloc_from of fd32/kernel/pmm.c.
use free_dos.Common.{
  ℕ, ◌+◌, ◌≤◌, ◌<◌, ◌≡◌, refl, ◌⊎◌, inl, inr, List, [], ◌∷◌, ◌++◌, ◌-◌, ◌&&◌, true, false, leb,
  arith,
}
use free_dos.Common.Word.{add32, sub32}
use free_dos.Pmm.{
  Memheader, Mempool, pool, left_over, behind, chunk_end, alloc_from_walk, pmm_alloc_from,
}
use free_dos.Pmm.Chain.{
  IsChain, IsFree, Within, Outside, IsFree-above, left_over-IsChain, left_over-IsFree,
}

-- From the front of a chunk that begins at `base` or above.
from_walk_front :
    (lo total : ℕ) (p : Memheader) (rest : List Memheader) (base size : ℕ)
    → IsChain lo (p ∷ rest)
    → size ≤ p.size
    → base ≤ p.addr
    → alloc_from_walk total (p ∷ rest) base size
      ≡ (p.addr, pool total (left_over (p.addr + size) (p.size - size) ++ rest))
unfolding alloc_from_walk
from_walk_front lo total p rest base size c s b =
    let e : add32 p.addr size ≡ p.addr + size = omega arith in
    let d : sub32 (chunk_end p) (p.addr + size) ≡ p.size - size = omega arith in
    let fits : leb p.addr (sub32 (chunk_end p) size) ≡ true = ground arith in
    let high : leb base (sub32 (chunk_end p) size) ≡ true = ground arith in
    let low : leb base p.addr ≡ true = ground arith in rw (fits, high, low, e, d)

-- From the back of a chunk that begins below.
from_walk_back :
    (lo total : ℕ) (p : Memheader) (rest : List Memheader) (base size : ℕ)
    → IsChain lo (p ∷ rest)
    → p.addr < base
    → base + size ≤ p.addr + p.size
    → alloc_from_walk total (p ∷ rest) base size
      ≡ (p.addr + p.size - size, pool total (left_over p.addr (p.size - size) ++ rest))
unfolding alloc_from_walk
from_walk_back lo total p rest base size c s b =
    let t : sub32 (chunk_end p) size ≡ p.addr + p.size - size = omega arith in
    let d : sub32 (p.addr + p.size - size) p.addr ≡ p.size - size = omega arith in
    let fits : leb p.addr (p.addr + p.size - size) ≡ true = ground arith in
    let high : leb base (p.addr + p.size - size) ≡ true = ground arith in
    let low : leb base p.addr ≡ false = ground arith in rw (t, fits, high, low, d)

from_walk_passes :
    (lo total : ℕ) (p : Memheader) (rest : List Memheader) (base size : ℕ)
    → IsChain lo (p ∷ rest)
    → size ≤ lo
    → (p.size < size) ⊎ (p.addr + p.size < base + size)
    → alloc_from_walk total (p ∷ rest) base size ≡ behind p (alloc_from_walk total rest base size)
unfolding alloc_from_walk
from_walk_passes lo total p rest base size c s d =
    let no_room : (leb p.addr (sub32 (chunk_end p) size) && leb base (sub32 (chunk_end p) size))
        ≡ false =
      ground arith in
    rw no_room

-- The block `r` of a result is none, or is taken out of the chain.
abbrev Takes : ℕ → ℕ → List Memheader → ℕ → ℕ → ℕ × Mempool → Type 0
Takes lo total cs base size r =
    ((r.0 ≡ 0) × (r.1 ≡ pool total cs))
    ⊎ ((lo < r.0)
        × (base ≤ r.0)
        × (r.1.total ≡ total)
        × IsChain lo (r.1.chunks)
        × ((a : ℕ) → Within (r.0) size a → IsFree cs a)
        × ((a : ℕ) → IsFree (r.1.chunks) a → IsFree cs a × Outside (r.0) size a))

from_cases :
    (p : Memheader) (base size : ℕ)
    → ((size ≤ p.size) × (base ≤ p.addr))
      ⊎ ((p.addr < base) × (base + size ≤ p.addr + p.size))
      ⊎ ((p.size < size) ⊎ (p.addr + p.size < base + size))
from_cases p base size = ground arith

passes-Takes :
    (lo total : ℕ) (p : Memheader) (rest : List Memheader) (base size : ℕ) (r : ℕ × Mempool)
    → IsChain lo (p ∷ rest)
    → Takes (p.addr + p.size) total rest base size r
    → Takes lo total (p ∷ rest) base size (behind p r)
passes-Takes lo total p rest base size r c (inl h) = inl (ground arith)
passes-Takes lo total p rest base size r c (inr (l, b, t, chain, within, shrinks)) = inr (
  omega arith,
  b,
  t,
  (c.0, c.1, c.2, chain),
  λ a w. inr (within a w),
  λ a f. ground (arith, shrinks a),
)

from_walk-Takes :
    (lo total : ℕ) (cs : List Memheader) (base size : ℕ)
    → IsChain lo cs
    → size ≤ lo
    → Takes lo total cs base size (alloc_from_walk total cs base size)
from_walk-Takes lo total [] base size c s = unfold alloc_from_walk in inl (refl, refl)
from_walk-Takes lo total (p ∷ rest) base size c s = elim (from_cases p base size) [
  | inl (f, b) ↦ rw (from_walk_front lo total p rest base size c f b) (
      inr (
        c.0,
        b,
        refl,
        left_over-IsChain lo (p.addr + size) (p.size - size) (p.addr + p.size) rest (omega arith)
            (omega arith) (omega arith) c.3,
        λ a w. inl (omega arith, omega arith),
        λ a g. ground (
          arith,
          left_over-IsFree (p.addr + size) (p.size - size) a rest g,
          IsFree-above (p.addr + p.size) rest a c.3,
        ),
      ))
  | inr (inl (l, b)) ↦ rw (from_walk_back lo total p rest base size c l b) (
      inr (
        omega arith,
        omega arith,
        refl,
        left_over-IsChain lo p.addr (p.size - size) (p.addr + p.size) rest (omega arith)
            (omega arith) (omega arith) c.3,
        λ a w. inl (omega arith, omega arith),
        λ a g. ground (
          arith,
          left_over-IsFree p.addr (p.size - size) a rest g,
          IsFree-above (p.addr + p.size) rest a c.3,
        ),
      ))
  | inr (inr d) ↦ rw (from_walk_passes lo total p rest base size c s d) (
      passes-Takes lo total p rest base size (alloc_from_walk total rest base size) c
        (from_walk-Takes (p.addr + p.size) total rest base size c.3 (omega arith)))
]

-- For a well-formed pool none of whose chunks begins at or below the address `size`: pmm_alloc_from
-- returns 0 and leaves the pool alone; or it returns a block at `base` or above, all of it free
-- before; then the pool stays well-formed, what is free afterwards was free and lies outside the
-- block, and `top.size` is as it was, although the block is gone from the pool.
pub pmm_alloc_from_lem :
    (mp : Mempool) (base size : ℕ)
    → IsChain size mp.chunks
    → let r = pmm_alloc_from mp base size in
      ((r.0 ≡ 0) × (r.1 ≡ mp))
      ⊎ ((base ≤ r.0)
          × (r.1.total ≡ mp.total)
          × IsChain size (r.1.chunks)
          × ((a : ℕ) → Within (r.0) size a → IsFree mp.chunks a)
          × ((a : ℕ) → IsFree (r.1.chunks) a → IsFree mp.chunks a × Outside (r.0) size a))
unfolding pmm_alloc_from
pmm_alloc_from_lem mp base size c =
    elim (from_walk-Takes size mp.total mp.chunks base size c (omega arith)) [
      | inl h ↦ inl h
      | inr h ↦ inr (h.1, h.2, h.3, h.4, h.5)
    ]
