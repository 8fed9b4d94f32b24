-- ===== src/Pmm/Resize.antt =====
-- pmm_resize of fd32/kernel/pmm.c.
use free_dos.Common.{
  ℕ, ◌+◌, ◌-◌, ◌≤◌, ◌<◌, ◌^◌, ◌≡◌, refl, ◌⊎◌, inl, inr, List, [], ◌∷◌, ◌++◌, ltb, leb, ◌==◌, true,
  false, arith,
}
use free_dos.Common.Word.{add32, sub32}
use free_dos.Pmm.{Memheader, Mempool, pool, behind, left_over, resize_walk, pmm_resize}
use free_dos.Pmm.Chain.{
  IsChain, IsFree, Within, Outside, HasChunk, HasChunk-IsChain, HasChunk-end, IsFree-above,
  left_over-IsChain, left_over-IsFree,
}
use free_dos.Pmm.Free.{Apart}

-- The chunk behind the block moves its front to the new end of the block.
resize_here :
    (lo total : ℕ) (p : Memheader) (rest : List Memheader) (base oldsize newsize : ℕ)
    → IsChain lo (p ∷ rest)
    → base + oldsize ≡ p.addr
    → newsize ≤ oldsize + p.size
    → resize_walk total (p ∷ rest) base oldsize newsize
      ≡ (newsize, pool total (left_over (base + newsize) (p.size + oldsize - newsize) ++ rest))
unfolding resize_walk
resize_here lo total p rest base oldsize newsize c e s =
    let at : (add32 base oldsize == p.addr) ≡ true = ground arith in
    let l : sub32 p.size (sub32 newsize oldsize) ≡ p.size + oldsize - newsize = omega arith in
    let n : add32 p.addr (sub32 newsize oldsize) ≡ base + newsize = omega arith in
    rw (at, l, n) (ground arith)

-- A block too large for the chunk: `lsize`, negative as an int, is a large unsigned word.
resize_over :
    (lo total : ℕ) (p : Memheader) (rest : List Memheader) (base oldsize newsize : ℕ)
    → IsChain lo (p ∷ rest)
    → base + oldsize ≡ p.addr
    → oldsize + p.size < newsize
    → newsize < 2 ^ 32
    → (resize_walk total (p ∷ rest) base oldsize newsize).0 ≡ newsize
unfolding resize_walk
resize_over lo total p rest base oldsize newsize c e s b =
    let at : (add32 base oldsize == p.addr) ≡ true = ground arith in
    let big : leb 8 (sub32 p.size (sub32 newsize oldsize)) ≡ true = ground arith in rw (at, big)

resize_passes :
    (total : ℕ) (p : Memheader) (rest : List Memheader) (base oldsize newsize : ℕ)
    → p.addr < base + oldsize
    → base + oldsize < 2 ^ 32
    → resize_walk total (p ∷ rest) base oldsize newsize
      ≡ behind p (resize_walk total rest base oldsize newsize)
unfolding resize_walk
resize_passes total p rest base oldsize newsize l b =
    let not_at : (add32 base oldsize == p.addr) ≡ false = ground arith in
    let not_below : ltb (add32 base oldsize) p.addr ≡ false = ground arith in rw (not_at, not_below)

-- The new size is returned, and the bytes between the old and the new end change hands.
abbrev Resizes : ℕ → ℕ → List Memheader → ℕ → ℕ → ℕ → ℕ × Mempool → Type 0
Resizes lo total cs base oldsize newsize r =
    (r.0 ≡ newsize)
    × (r.1.total ≡ total)
    × IsChain lo (r.1.chunks)
    × ((a : ℕ)
        → IsFree (r.1.chunks) a
        → (IsFree cs a ⊎ Within base oldsize a) × Outside base newsize a)

resize_walk-Resizes :
    (lo total : ℕ) (cs : List Memheader) (base oldsize newsize n : ℕ)
    → IsChain lo cs
    → lo < base + newsize
    → 0 < newsize
    → HasChunk cs (base + oldsize) n
    → Apart cs base oldsize
    → newsize ≤ oldsize + n
    → Resizes lo total cs base oldsize newsize (resize_walk total cs base oldsize newsize)
resize_walk-Resizes lo total [] base oldsize newsize n c l z h d s = absurd h
resize_walk-Resizes lo total (p ∷ rest) base oldsize newsize n c l z (inl h) d s =
    rw (resize_here lo total p rest base oldsize newsize c (omega arith) (omega arith)) (
      refl,
      refl,
      left_over-IsChain lo (base + newsize) (p.size + oldsize - newsize) (p.addr + p.size) rest l
          (omega arith) (omega arith) c.3,
      λ a f. ground (
        arith,
        left_over-IsFree (base + newsize) (p.size + oldsize - newsize) a rest f,
        IsFree-above (p.addr + p.size) rest a c.3,
      ),
    )
resize_walk-Resizes lo total (p ∷ rest) base oldsize newsize n c l z (inr h) d s =
    let there = HasChunk-IsChain (p.addr + p.size) rest (base + oldsize) n c.3 h in
    let below : p.addr + p.size ≤ base = omega arith in
    let (e, t, chain, shrinks) =
      resize_walk-Resizes (p.addr + p.size) total rest base oldsize newsize n c.3 (omega arith) z h
        d.1 s in
    rw (resize_passes total p rest base oldsize newsize (omega arith) (omega arith))
      (e, t, (c.0, c.1, c.2, chain), λ a f. ground (arith, shrinks a))

-- For a well-formed pool, a block of `oldsize` bytes at `base` that no free chunk meets, and a free
-- chunk of `n` bytes right behind it: if the new size is not 0 and ends within that chunk,
-- pmm_resize returns the new size, the pool stays well-formed, and what is free afterwards was free
-- or in the old block, and lies outside the new block. `top.size` is as it was, although the number
-- of free bytes is not.
pub pmm_resize_lem :
    (mp : Mempool) (base oldsize newsize n : ℕ)
    → IsChain 0 mp.chunks
    → 0 < newsize
    → HasChunk mp.chunks (base + oldsize) n
    → Apart mp.chunks base oldsize
    → newsize ≤ oldsize + n
    → let r = pmm_resize mp base oldsize newsize in
      (r.0 ≡ newsize)
      × (r.1.total ≡ mp.total)
      × IsChain 0 (r.1.chunks)
      × ((a : ℕ)
          → IsFree (r.1.chunks) a
          → (IsFree mp.chunks a ⊎ Within base oldsize a) × Outside base newsize a)
unfolding pmm_resize
pmm_resize_lem mp base oldsize newsize n c z h d s =
    resize_walk-Resizes 0 mp.total mp.chunks base oldsize newsize n c (omega arith) z h d s

resize_walk_over :
    (lo total : ℕ) (cs : List Memheader) (base oldsize newsize n : ℕ)
    → IsChain lo cs
    → HasChunk cs (base + oldsize) n
    → oldsize + n < newsize
    → newsize < 2 ^ 32
    → (resize_walk total cs base oldsize newsize).0 ≡ newsize
resize_walk_over lo total [] base oldsize newsize n c h s b = absurd h
resize_walk_over lo total (p ∷ rest) base oldsize newsize n c (inl h) s b =
    resize_over lo total p rest base oldsize newsize c (omega arith) (omega arith) b
resize_walk_over lo total (p ∷ rest) base oldsize newsize n c (inr h) s b =
    let there = HasChunk-IsChain (p.addr + p.size) rest (base + oldsize) n c.3 h in
    rw (resize_passes total p rest base oldsize newsize (omega arith) (omega arith))
      (resize_walk_over (p.addr + p.size) total rest base oldsize newsize n c.3 h s b)

-- A defect: for a well-formed pool with a free chunk of `n` bytes right behind the block, pmm_resize
-- grants every 32-bit size beyond that chunk, though the byte behind the chunk is then in the block
-- and was not free.
pub pmm_resize_overruns :
    (mp : Mempool) (base oldsize newsize n : ℕ)
    → IsChain 0 mp.chunks
    → HasChunk mp.chunks (base + oldsize) n
    → oldsize + n < newsize
    → newsize < 2 ^ 32
    → ((pmm_resize mp base oldsize newsize).0 ≡ newsize)
      × Within base newsize (base + oldsize + n)
      × ¬ IsFree mp.chunks (base + oldsize + n)
unfolding pmm_resize
pmm_resize_overruns mp base oldsize newsize n c h s b = (
  resize_walk_over 0 mp.total mp.chunks base oldsize newsize n c h s b,
  omega arith,
  HasChunk-end 0 mp.chunks (base + oldsize) n c h,
)
