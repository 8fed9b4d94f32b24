-- ===== src/Memory/RoundTrip.antt =====
-- Blocks of any size are handed out and given back by fd32/boot/mem.c.
use free_dos.Common.{ℕ, ◌+◌, ◌-◌, ◌%◌, ◌^◌, ◌≤◌, ◌<◌, ◌≡◌, ◌≢◌, Option, none, some, arith, Returns}
use free_dos.Common.Int.{ℤ}
use free_dos.Pmm.{Mempool, pmm_alloc, pmm_free}
use free_dos.Pmm.Chain.{IsChain}
use free_dos.Pmm.Free.{IsAligned, pmm_free-pmm_alloc}
use free_dos.Memory.{
  Memory, aligned, high_or_abort, dos_or_abort, mem_get, mem_free, dosmem_get, dosmem_free,
}

-- A size is rounded up to 8 bytes, where that does not wrap.
pub aligned_lem :
    (size : ℕ)
    → 0 < size
    → size ≤ 2 ^ 32 - 8
    → (8 ≤ aligned size)
      × (aligned size % 8 ≡ 0)
      × (size ≤ aligned size)
      × (aligned size < size + 8)
aligned_lem size l h = ground arith

high-Returns :
    (m : Memory) (cs : Mempool) (o : Option (ℤ × Mempool))
    → Returns (λ r. r.1.chunks ≡ cs.chunks) o
    → Returns (λ r. r.1.high_mem_pool.chunks ≡ cs.chunks) (high_or_abort m o)
high-Returns m cs none h = h
high-Returns m cs (some r) h = h

dos-Returns :
    (m : Memory) (cs : Mempool) (o : Option (ℤ × Mempool))
    → Returns (λ r. r.1.chunks ≡ cs.chunks) o
    → Returns (λ r. r.1.dos_mem_pool.chunks ≡ cs.chunks) (dos_or_abort m o)
dos-Returns m cs none h = h
dos-Returns m cs (some r) h = h

-- For a well-formed pool of 8-byte units and any size from 1 to 2^32 - 8: where mem_get returns a block,
-- mem_free of the block with the same size does not abort and gives back the chain of free chunks
-- of the high memory as it was.
pub mem_free-mem_get :
    (m : Memory) (size : ℕ)
    → IsChain 0 m.high_mem_pool.chunks
    → IsAligned m.high_mem_pool.chunks
    → 0 < size
    → size ≤ 2 ^ 32 - 8
    → (mem_get size m).0 ≢ 0
    → Returns
        (λ r. r.1.high_mem_pool.chunks ≡ m.high_mem_pool.chunks)
        (mem_free ((mem_get size m).0) size ((mem_get size m).1))
unfolding mem_get mem_free
mem_free-mem_get m size c k l h got =
    let (x, y, z, w) = aligned_lem size l h in
    let r = pmm_alloc m.high_mem_pool (aligned size) in
    high-Returns ((mem_get size m).1) m.high_mem_pool (pmm_free (r.1) (r.0) (aligned size))
      (pmm_free-pmm_alloc m.high_mem_pool (aligned size) c k x y got)

-- The same for the DOS memory, with dosmem_get and dosmem_free.
pub dosmem_free-dosmem_get :
    (m : Memory) (size : ℕ)
    → IsChain 0 m.dos_mem_pool.chunks
    → IsAligned m.dos_mem_pool.chunks
    → 0 < size
    → size ≤ 2 ^ 32 - 8
    → (dosmem_get size m).0 ≢ 0
    → Returns
        (λ r. r.1.dos_mem_pool.chunks ≡ m.dos_mem_pool.chunks)
        (dosmem_free ((dosmem_get size m).0) size ((dosmem_get size m).1))
unfolding dosmem_get dosmem_free
dosmem_free-dosmem_get m size c k l h got =
    let (x, y, z, w) = aligned_lem size l h in
    let r = pmm_alloc m.dos_mem_pool (aligned size) in
    dos-Returns ((dosmem_get size m).1) m.dos_mem_pool (pmm_free (r.1) (r.0) (aligned size))
      (pmm_free-pmm_alloc m.dos_mem_pool (aligned size) c k x y got)
