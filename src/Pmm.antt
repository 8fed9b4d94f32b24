-- ===== src/Pmm.antt =====
-- fd32/kernel/pmm.c: the physical memory manager.
-- A pool is the chain of its free chunks; the header of a chunk lies in the chunk itself, so a chunk
-- is its address with its size. Pointers and sizes are 32-bit words. `total` is `mp->top.size`.
pub mod Chain
pub mod Alloc
pub mod Free
pub mod Address
pub mod From
pub mod Resize
pub mod Tests
use free_dos.Common.{
  ℕ, ◌^◌, ◌&&◌, List, [], ◌∷◌, ◌++◌, Option, none, some, ltb, leb, ◌==◌, if◌then◌else◌,
}
use free_dos.Common.Int.{ℤ, pos, negsuc}
use free_dos.Common.Word.{add32, sub32}
use mathlib.Core.Option

-- struct memheader: `addr` is the address at which the header stands.
pub record Memheader : Type 0 where
  pub addr : ℕ
  pub size : ℕ

-- struct mempool.
pub record Mempool : Type 0 where
  pub total : ℕ
  pub chunks : List Memheader

abbrev pub sizeof_memheader : ℕ
sizeof_memheader = 8

abbrev pub chunk : ℕ → ℕ → Memheader
chunk a n = record { addr = a; size = n }

abbrev pub pool : ℕ → List Memheader → Mempool
pool t cs = record { total = t; chunks = cs }

abbrev pub chunk_end : Memheader → ℕ
chunk_end p = add32 p.addr p.size

-- The walk goes on behind `p`, which stays in the chain.
abbrev pub behind {ℓ} : {R : Type ℓ} → Memheader → R × Mempool → R × Mempool
behind p (r, mp) = (r, record mp { chunks = p ∷ mp.chunks })

pub pmm_init : Mempool → Mempool
pmm_init mp = pool 0 []

-- What is left of a chunk, where it can hold a header.
abbrev pub left_over : ℕ → ℕ → List Memheader
left_over a n = if ltb n sizeof_memheader then [] else chunk a n ∷ []

-- `top.size` loses what is left of a chunk, where it cannot hold a header.
abbrev pub lose : ℕ → ℕ → ℕ
lose total n = if ltb n sizeof_memheader then sub32 total n else total

pub alloc_walk : ℕ → List Memheader → ℕ → ℕ × Mempool
alloc_walk total [] size = (0, pool total [])
alloc_walk total (p ∷ rest) size =
    let lsize = sub32 p.size size in
    if leb size p.size
    then (
      p.addr,
      pool (sub32 (lose total lsize) size) (left_over (add32 p.addr size) lsize ++ rest),
    )
    else behind p (alloc_walk total rest size)

-- The address of the block, or 0.
pub pmm_alloc : Mempool → ℕ → ℕ × Mempool
unfolding alloc_walk
pmm_alloc mp size = alloc_walk mp.total mp.chunks size

pub alloc_address_walk : ℕ → List Memheader → ℕ → ℕ → ℤ × Mempool
alloc_address_walk total [] base size = (negsuc 0, pool total [])
alloc_address_walk total (p ∷ rest) base size =
    let end = chunk_end p in
    let before = sub32 base p.addr in
    let after = sub32 end (add32 base size) in
    if leb base (sub32 end size) && leb p.addr base
    then (
      pos 1,
      pool (sub32 (lose (lose total before) after) size)
          (left_over p.addr before ++ (left_over (add32 base size) after ++ rest)),
    )
    else behind p (alloc_address_walk total rest base size)

-- 1, or -1 where the memory is not available.
pub pmm_alloc_address : Mempool → ℕ → ℕ → ℤ × Mempool
unfolding alloc_address_walk
pmm_alloc_address mp base size = alloc_address_walk mp.total mp.chunks base size

pub alloc_from_walk : ℕ → List Memheader → ℕ → ℕ → ℕ × Mempool
alloc_from_walk total [] base size = (0, pool total [])
alloc_from_walk total (p ∷ rest) base size =
    let end = chunk_end p in
    let top = sub32 end size in
    let above = add32 p.addr size in
    if leb p.addr top && leb base top
    then (if leb base p.addr
        then (p.addr, pool total (left_over above (sub32 end above) ++ rest))
        else (top, pool total (left_over p.addr (sub32 top p.addr) ++ rest)))
    else behind p (alloc_from_walk total rest base size)

-- The address of a block that does not lie below `base`, or 0. `top.size` is not written.
pub pmm_alloc_from : Mempool → ℕ → ℕ → ℕ × Mempool
unfolding alloc_from_walk
pmm_alloc_from mp base size = alloc_from_walk mp.total mp.chunks base size

-- `lsize >= sizeof(struct memheader)` compares an int with a size_t, so as unsigned words: the test
-- `lsize < 0` behind it (bit 31 set) comes only after that.
pub resize_walk : ℕ → List Memheader → ℕ → ℕ → ℕ → ℕ × Mempool
resize_walk total [] base oldsize newsize = (0, pool total [])
resize_walk total (p ∷ rest) base oldsize newsize =
    let asize = sub32 newsize oldsize in
    let lsize = sub32 p.size asize in
    if add32 base oldsize == p.addr
    then (if leb sizeof_memheader lsize
        then (newsize, pool total (chunk (add32 p.addr asize) lsize ∷ rest))
        else if leb (2 ^ 31) lsize
        then (0, pool total (p ∷ rest))
        else (newsize, pool total rest))
    else if ltb (add32 base oldsize) p.addr
    then (0, pool total (p ∷ rest))
    else behind p (resize_walk total rest base oldsize newsize)

-- The new size, or 0. `res` is an int: `newsize` keeps its bits. `top.size` is not written.
pub pmm_resize : Mempool → ℕ → ℕ → ℕ → ℕ × Mempool
unfolding resize_walk
pmm_resize mp base oldsize newsize = resize_walk mp.total mp.chunks base oldsize newsize

-- A region that begins where the chunk `p` ends, by what follows `p`. `none`: fd32_abort, which
-- does not return.
pub grow : Memheader → List Memheader → ℕ → ℕ → Option (ℕ × List Memheader)
grow p [] base size = some (size, chunk p.addr (add32 p.size size) ∷ [])
grow p (q ∷ rest) base size =
    if add32 base size == q.addr
    then some (size, chunk p.addr (add32 p.size (add32 size q.size)) ∷ rest)
    else if ltb (add32 base size) q.addr
    then some (size, chunk p.addr (add32 p.size size) ∷ (q ∷ rest))
    else none

abbrev pub keep_chunk : Memheader → ℕ × List Memheader → ℕ × List Memheader
keep_chunk p (n, cs) = (n, p ∷ cs)

-- The result holds the local variable `size` as the loop leaves it, and the chain.
-- Where the last chunk is merged, `p` is 0 behind the loop, and the block under `if (p == 0)` writes
-- the same header again.
pub free_walk : List Memheader → ℕ → ℕ → Option (ℕ × List Memheader)
unfolding grow
free_walk [] base size = some (size, chunk base size ∷ [])
free_walk (p ∷ rest) base size =
    if base == chunk_end p
    then grow p rest base size
    else if ltb base (chunk_end p)
    then (if leb (add32 base size) p.addr
        then (if add32 base size == p.addr
            then some (add32 size p.size, chunk base (add32 size p.size) ∷ rest)
            else some (size, chunk base size ∷ (p ∷ rest)))
        else none)
    else Option.map (keep_chunk p) (free_walk rest base size)

-- Returns 0, or does not return.
pub pmm_free : Mempool → ℕ → ℕ → Option (ℤ × Mempool)
unfolding free_walk
pmm_free mp base size =
    Option.map (λ r. (pos 0, pool (add32 mp.total (r.0)) (r.1))) (free_walk mp.chunks base size)
