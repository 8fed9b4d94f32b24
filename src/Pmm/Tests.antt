-- ===== src/Pmm/Tests.antt =====
-- Runs of fd32/kernel/pmm.c on small pools.
use free_dos.Common.{
  ℕ, ◌+◌, ◌≤◌, ◌%◌, ◌≡◌, refl, ◌≢◌, ◌⊎◌, inl, inr, ◌↔◌, List, [], ◌∷◌, Returns, ◌^◌, arith,
}
use free_dos.Common.Int.{pos, negsuc}
use free_dos.Pmm.{
  Memheader, Mempool, chunk, pool, alloc_walk, pmm_alloc, pmm_alloc_address, pmm_alloc_from,
  pmm_resize, pmm_free,
}
use free_dos.Pmm.Chain.{IsChain, IsFree, Within, Outside, free_bytes}
use free_dos.Pmm.Alloc.{pmm_alloc_lem}
use free_dos.Pmm.Free.{merged_above, pmm_free_lem, pmm_free_total, pmm_free-pmm_alloc}
use free_dos.Pmm.Address.{HasRoom, pmm_alloc_address_lem}
use free_dos.Pmm.From.{pmm_alloc_from_lem}
use free_dos.Pmm.Resize.{pmm_resize_lem}

-- 16 bytes at 100 and 64 bytes at 200.
abbrev pub chunks : List Memheader
chunks = chunk 100 16 ∷ chunk 200 64 ∷ []

abbrev pub two_chunks : Mempool
two_chunks = pool 80 chunks

pub two_chunks-IsChain : IsChain 0 chunks
two_chunks-IsChain = omega arith

granted : (pmm_alloc two_chunks 32).0 ≡ 200
unfolding pmm_alloc alloc_walk
granted = refl

refused : (pmm_alloc two_chunks 65).0 ≡ 0
unfolding pmm_alloc alloc_walk
refused = refl

pub granted_some : (pmm_alloc two_chunks 32).0 ≢ 0
granted_some = omega (arith, granted)

pmm_alloc_example :
    let r = (pmm_alloc two_chunks 32).0 in
    let after = (pmm_alloc two_chunks 32).1.chunks in
    IsChain 0 after
    × ((a : ℕ) → Within r 32 a → IsFree chunks a)
    × ((a : ℕ) → IsFree after a → IsFree chunks a × Outside r 32 a)
    × ((a : ℕ) → IsFree chunks a → Outside r 32 a → IsFree after a ⊎ Within (r + 32) 8 a)
pmm_alloc_example = pmm_alloc_lem two_chunks 32 two_chunks-IsChain granted_some

pmm_free_example :
    Returns
      (λ r.
        (r.0 ≡ pos 0)
        × IsChain 0 (r.1.chunks)
        × ((a : ℕ) → IsFree (r.1.chunks) a ↔ (IsFree chunks a ⊎ Within 116 84 a)))
      (pmm_free two_chunks 116 84)
pmm_free_example =
    pmm_free_lem two_chunks 116 84 two_chunks-IsChain (omega arith) (omega arith) (omega arith)
      (omega arith)

pmm_free_total_example :
    Returns
      (λ r. r.1.total ≡ (free_bytes (r.1.chunks) + merged_above chunks 150 50) % 2 ^ 32)
      (pmm_free two_chunks 150 50)
pmm_free_total_example =
    pmm_free_total two_chunks 150 50 two_chunks-IsChain (omega arith) (omega arith) (omega arith)
      (omega arith) refl

pmm_free-pmm_alloc_example :
    Returns
      (λ r. r.1.chunks ≡ chunks)
      (pmm_free ((pmm_alloc two_chunks 32).1) ((pmm_alloc two_chunks 32).0) 32)
pmm_free-pmm_alloc_example =
    pmm_free-pmm_alloc two_chunks 32 two_chunks-IsChain (omega arith) (omega arith) refl
      granted_some

pmm_alloc_address_example :
    let r = pmm_alloc_address two_chunks 216 32 in
    ((r.0 ≡ pos 1)
      × HasRoom chunks 216 32
      × IsChain 32 (r.1.chunks)
      × ((a : ℕ) → Within 216 32 a → IsFree chunks a)
      × ((a : ℕ) → IsFree (r.1.chunks) a → IsFree chunks a × Outside 216 32 a))
    ⊎ ((r.0 ≡ negsuc 0) × (r.1.chunks ≡ chunks) × ¬ HasRoom chunks 216 32)
pmm_alloc_address_example =
    pmm_alloc_address_lem two_chunks 216 32 (omega arith) (omega arith) (omega arith)

pmm_alloc_from_example :
    let r = pmm_alloc_from two_chunks 150 32 in
    ((r.0 ≡ 0) × (r.1 ≡ two_chunks))
    ⊎ ((150 ≤ r.0)
        × (r.1.total ≡ 80)
        × IsChain 32 (r.1.chunks)
        × ((a : ℕ) → Within (r.0) 32 a → IsFree chunks a)
        × ((a : ℕ) → IsFree (r.1.chunks) a → IsFree chunks a × Outside (r.0) 32 a))
pmm_alloc_from_example = pmm_alloc_from_lem two_chunks 150 32 (omega arith)

pmm_resize_example :
    let r = pmm_resize two_chunks 150 50 100 in
    (r.0 ≡ 100)
    × (r.1.total ≡ 80)
    × IsChain 0 (r.1.chunks)
    × ((a : ℕ) → IsFree (r.1.chunks) a → (IsFree chunks a ⊎ Within 150 50 a) × Outside 150 100 a)
pmm_resize_example =
    pmm_resize_lem two_chunks 150 50 100 64 two_chunks-IsChain (omega arith)
      (inr (inl (refl, refl))) (omega arith) (omega arith)
