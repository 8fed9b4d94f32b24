-- ===== src/DosMemory/Tests.antt =====
-- Runs of oslib/xlib/xdosm.c.
use free_dos.Common.{ℕ, ◌<◌, ◌≡◌, ◌⊎◌, true, false, List, [], ◌∷◌, Returns, arith}
use free_dos.DosMemory.{Partition, dos_alloc}
use free_dos.DosMemory.Alloc.{Within, IsFree, IsTable, TooSmall, dos_alloc_lem}

abbrev partitions : List Partition
partitions =
    record { used = true; addr = 0x500; size = 16 }
    ∷ record { used = false; addr = 0; size = 0 }
    ∷ record { used = true; addr = 0x1000; size = 0x8000 }
    ∷ []

partitions-IsTable : IsTable partitions
partitions-IsTable = ground arith

dos_alloc_example :
    Returns
      (λ r.
        ((r.0 ≡ 0) × (r.1 ≡ partitions) × TooSmall 0x100 partitions)
        ⊎ ((0 < r.0)
            × ((a : ℕ) → Within (r.0) 0x100 a → IsFree partitions a × ¬ IsFree (r.1) a)
            × ((a : ℕ) → IsFree (r.1) a → IsFree partitions a)
            × ((a : ℕ) → IsFree partitions a → ¬ Within (r.0) 0x100 a → IsFree (r.1) a)))
      (dos_alloc partitions 0x100)
dos_alloc_example = dos_alloc_lem partitions 0x100 partitions-IsTable
