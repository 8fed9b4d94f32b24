-- ===== src/Pmm/Alloc.antt =====
-- pmm_alloc of fd32/kernel/pmm.c: the block it hands out, and what stays free.
use free_dos.Common.{ℕ, ◌+◌, ◌≤◌, ◌<◌, ◌^◌, ◌≡◌, refl, ◌≢◌, ◌⊎◌, inl, inr, List, [], ◌∷◌, arith}
use free_dos.Pmm.{Memheader, Mempool, pool, alloc_walk, pmm_alloc}
use free_dos.Pmm.Chain.{
  IsChain, IsFree, Within, Outside, free_bytes, IsChain-weaken, IsFree-above, free_bytes-lt,
}

alloc_walk-IsChain :
    (lo total : ℕ) (cs : List Memheader) (size : ℕ)
    → IsChain lo cs
    → IsChain lo (alloc_walk total cs size).1.chunks
unfolding alloc_walk
alloc_walk-IsChain lo total [] size c = tt
alloc_walk-IsChain lo total (p ∷ rest) size c = ground (
  arith,
  IsChain-weaken (p.addr + p.size) lo rest,
  alloc_walk-IsChain (p.addr + p.size) total rest size c.3,
)

-- A found block is free before.
alloc_walk-Within :
    (lo total : ℕ) (cs : List Memheader) (size a : ℕ)
    → IsChain lo cs
    → (alloc_walk total cs size).0 ≢ 0
    → Within (alloc_walk total cs size).0 size a
    → IsFree cs a
unfolding alloc_walk
alloc_walk-Within lo total [] size a c h w = absurd (h refl)
alloc_walk-Within lo total (p ∷ rest) size a c h w =
    ground (arith, alloc_walk-Within (p.addr + p.size) total rest size a c.3)

-- The block that is returned lies above the bound.
pub alloc_walk_above :
    (lo total : ℕ) (cs : List Memheader) (size : ℕ)
    → IsChain lo cs
    → (alloc_walk total cs size).0 ≢ 0
    → lo < (alloc_walk total cs size).0
unfolding alloc_walk
alloc_walk_above lo total [] size c h = absurd (h refl)
alloc_walk_above lo total (p ∷ rest) size c h =
    ground (arith, alloc_walk_above (p.addr + p.size) total rest size c.3)

-- What is free behind the call was free, and is not in the block.
alloc_walk_shrinks :
    (lo total : ℕ) (cs : List Memheader) (size a : ℕ)
    → IsChain lo cs
    → (alloc_walk total cs size).0 ≢ 0
    → IsFree (alloc_walk total cs size).1.chunks a
    → IsFree cs a × Outside (alloc_walk total cs size).0 size a
unfolding alloc_walk
alloc_walk_shrinks lo total [] size a c h f = absurd (h refl)
alloc_walk_shrinks lo total (p ∷ rest) size a c h f = ground (
  arith,
  IsFree-above (p.addr + p.size) rest a c.3,
  alloc_walk_above (p.addr + p.size) total rest size c.3,
  alloc_walk_shrinks (p.addr + p.size) total rest size a c.3,
)

-- What was free and is not in the block stays free, but for a tail of less than 8 bytes.
alloc_walk_keeps :
    (lo total : ℕ) (cs : List Memheader) (size a : ℕ)
    → IsChain lo cs
    → (alloc_walk total cs size).0 ≢ 0
    → IsFree cs a
    → Outside (alloc_walk total cs size).0 size a
    → IsFree (alloc_walk total cs size).1.chunks a
      ⊎ Within ((alloc_walk total cs size).0 + size) 8 a
unfolding alloc_walk
alloc_walk_keeps lo total [] size a c h f o = absurd (h refl)
alloc_walk_keeps lo total (p ∷ rest) size a c h (inl f) o =
    ground (arith, alloc_walk_keeps (p.addr + p.size) total rest size a c.3)
alloc_walk_keeps lo total (p ∷ rest) size a c h (inr f) o =
    ground (arith, alloc_walk_keeps (p.addr + p.size) total rest size a c.3)

-- No chunk is large enough.
abbrev pub TooSmall : ℕ → List Memheader → Type 0
TooSmall size [] = Unit {0}
TooSmall size (p ∷ rest) = (p.size < size) × TooSmall size rest

alloc_walk_fails :
    (lo total : ℕ) (cs : List Memheader) (size : ℕ)
    → IsChain lo cs
    → (alloc_walk total cs size).0 ≡ 0
    → TooSmall size cs × ((alloc_walk total cs size).1 ≡ pool total cs)
unfolding alloc_walk
alloc_walk_fails lo total [] size c h = (tt, refl)
alloc_walk_fails lo total (p ∷ rest) size c h =
    ground (arith, alloc_walk_fails (p.addr + p.size) total rest size c.3)

-- `extra` is the number of bytes in the chunks before the walk.
alloc_walk_total :
    (lo extra total : ℕ) (cs : List Memheader) (size : ℕ)
    → IsChain lo cs
    → extra ≤ lo
    → lo < 2 ^ 32
    → total ≡ extra + free_bytes cs
    → (alloc_walk total cs size).1.total ≡ extra + free_bytes ((alloc_walk total cs size).1.chunks)
unfolding alloc_walk
alloc_walk_total lo extra total [] size c h l e = e
alloc_walk_total lo extra total (p ∷ rest) size c h l e = ground (
  arith,
  free_bytes-lt (p.addr + p.size) rest,
  alloc_walk_total (p.addr + p.size) (extra + p.size) total rest size c.3,
)

-- For a well-formed pool: if pmm_alloc returns a block (not 0), then the pool stays well-formed;
-- every byte of the block was free; what is free afterwards was free before and lies outside the
-- block; and what was free outside the block stays free, but for at most 8 bytes behind it.
pub pmm_alloc_lem :
    (mp : Mempool) (size : ℕ)
    → IsChain 0 mp.chunks
    → (pmm_alloc mp size).0 ≢ 0
    → let r = (pmm_alloc mp size).0 in
      let after = (pmm_alloc mp size).1.chunks in
      IsChain 0 after
      × ((a : ℕ) → Within r size a → IsFree mp.chunks a)
      × ((a : ℕ) → IsFree after a → IsFree mp.chunks a × Outside r size a)
      × ((a : ℕ) → IsFree mp.chunks a → Outside r size a → IsFree after a ⊎ Within (r + size) 8 a)
unfolding pmm_alloc
pmm_alloc_lem mp size c h = (
  alloc_walk-IsChain 0 mp.total mp.chunks size c,
  λ a w. alloc_walk-Within 0 mp.total mp.chunks size a c h w,
  λ a f. alloc_walk_shrinks 0 mp.total mp.chunks size a c h f,
  λ a f o. alloc_walk_keeps 0 mp.total mp.chunks size a c h f o,
)

-- For a well-formed pool: if pmm_alloc returns 0, then every free chunk is smaller than the
-- request, and the pool is as it was.
pub pmm_alloc_fails :
    (mp : Mempool) (size : ℕ)
    → IsChain 0 mp.chunks
    → (pmm_alloc mp size).0 ≡ 0
    → TooSmall size mp.chunks × ((pmm_alloc mp size).1 ≡ mp)
unfolding pmm_alloc
pmm_alloc_fails mp size c h = alloc_walk_fails 0 mp.total mp.chunks size c h

-- For a well-formed pool whose `top.size` is the number of free bytes, it still is after pmm_alloc.
pub pmm_alloc_total :
    (mp : Mempool) (size : ℕ)
    → IsChain 0 mp.chunks
    → mp.total ≡ free_bytes mp.chunks
    → (pmm_alloc mp size).1.total ≡ free_bytes ((pmm_alloc mp size).1.chunks)
unfolding pmm_alloc
pmm_alloc_total mp size c e =
    let sum =
      alloc_walk_total 0 0 mp.total mp.chunks size c (omega arith) (omega arith) (omega arith) in
    omega (arith, sum)
