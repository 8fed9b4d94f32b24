-- ===== src/Memory/Tests.antt =====
-- Runs of fd32/boot/mem.c on small pools.
use free_dos.Common.{◌≡◌, ◌≢◌, refl, List, [], ◌∷◌, Returns, arith}
use free_dos.Pmm.{pool}
use free_dos.Pmm.Tests.{chunks, two_chunks, two_chunks-IsChain, granted_some}
use free_dos.Memory.{Memory, Module, aligned, mem_get, mem_free, next_start, release_end}
use free_dos.Memory.RoundTrip.{mem_free-mem_get}

abbrev memory : Memory
memory = record { high_mem_pool = two_chunks; dos_mem_pool = pool 0 [] }

-- A size in the last 7 bytes of the address space is rounded to 0.
test_wraps : aligned 0xFFFF_FFFF ≡ 0
test_wraps = refl

got_some : (mem_get 30 memory).0 ≢ 0
unfolding mem_get
got_some = granted_some

-- Modules at 100, 300 and 200: the region of the first ends where the third starts.
abbrev modules : List Module
modules =
    record { mod_start = 100; mod_end = 150 }
    ∷ (record { mod_start = 300; mod_end = 350 } ∷ (record { mod_start = 200; mod_end = 250 } ∷ []))

test_release : release_end (record { mod_start = 100; mod_end = 150 }) modules ≡ 200
unfolding release_end next_start
test_release = refl

mem_free-mem_get_example :
    Returns
      (λ r. r.1.high_mem_pool.chunks ≡ chunks)
      (mem_free ((mem_get 30 memory).0) 30 ((mem_get 30 memory).1))
mem_free-mem_get_example =
    mem_free-mem_get memory 30 two_chunks-IsChain (omega arith) (omega arith) (omega arith) got_some
