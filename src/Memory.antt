-- ===== src/Memory.antt =====
-- fd32/boot/mem.c: the pools of high and of DOS memory, over the physical memory manager.
pub mod RoundTrip
pub mod Ops
pub mod Release
pub mod Tests
use free_dos.Common.{
  ℕ, zero, suc, ◌+◌, ◌-◌, ◌*◌, ◌/◌, ◌%◌, ◌^◌, ◌&&◌, Option, none, some, ltb, leb, ◌==◌,
  if◌then◌else◌, List, [], ◌∷◌,
}
use free_dos.Common.Int.{ℤ}
use free_dos.Common.Word.{add32, sub32}
use free_dos.Pmm.{Mempool, pmm_alloc, pmm_alloc_address, pmm_free, pmm_resize, pmm_init}

-- The static pools.
pub record Memory : Type 0 where
  pub high_mem_pool : Mempool
  pub dos_mem_pool : Mempool

-- CONFIG_MEMORY_ALIGNMENT.
abbrev pub config_memory_alignment : ℕ
config_memory_alignment = 8

-- `(size + CONFIG_MEMORY_ALIGNMENT-1) & ~(CONFIG_MEMORY_ALIGNMENT-1)`
abbrev pub aligned : ℕ → ℕ
aligned size =
    add32 size (config_memory_alignment - 1) / config_memory_alignment * config_memory_alignment

abbrev pub on_high {ℓ} : {A : Type ℓ} → Memory → A × Mempool → A × Memory
on_high m r = (r.0, record m { high_mem_pool = r.1 })

abbrev pub on_dos {ℓ} : {A : Type ℓ} → Memory → A × Mempool → A × Memory
on_dos m r = (r.0, record m { dos_mem_pool = r.1 })

-- `none`: pmm_free aborts.
abbrev pub high_or_abort : Memory → Option (ℤ × Mempool) → Option (ℤ × Memory)
high_or_abort m none = none
high_or_abort m (some r) = some (on_high m r)

abbrev pub dos_or_abort : Memory → Option (ℤ × Mempool) → Option (ℤ × Memory)
dos_or_abort m none = none
dos_or_abort m (some r) = some (on_dos m r)

pub mem_get : ℕ → Memory → ℕ × Memory
mem_get amount m = on_high m (pmm_alloc m.high_mem_pool (aligned amount))

pub mem_free : ℕ → ℕ → Memory → Option (ℤ × Memory)
mem_free base size m = high_or_abort m (pmm_free m.high_mem_pool base (aligned size))

pub mem_get_region : ℕ → ℕ → Memory → ℤ × Memory
mem_get_region base size m = on_high m (pmm_alloc_address m.high_mem_pool base (aligned size))

pub dosmem_get : ℕ → Memory → ℕ × Memory
dosmem_get amount m = on_dos m (pmm_alloc m.dos_mem_pool (aligned amount))

pub dosmem_free : ℕ → ℕ → Memory → Option (ℤ × Memory)
dosmem_free base size m = dos_or_abort m (pmm_free m.dos_mem_pool base (aligned size))

pub dosmem_get_region : ℕ → ℕ → Memory → ℤ × Memory
dosmem_get_region base size m = on_dos m (pmm_alloc_address m.dos_mem_pool base (aligned size))

pub dosmem_resize : ℕ → ℕ → ℕ → Memory → ℕ × Memory
dosmem_resize base oldsize newsize m =
    on_dos m (pmm_resize m.dos_mem_pool base (aligned oldsize) (aligned newsize))

-- The addresses of a module, by module_address of fd32/boot/modules.c.
pub record Module : Type 0 where
  pub mod_start : ℕ
  pub mod_end : ℕ

-- The loop of mem_release_module over the modules: `nms` is the lowest start found that is not below
-- `me`, 0 for none.
pub next_start : ℕ → ℕ → List Module → ℕ
next_start me nms [] = nms
next_start me nms (m ∷ rest) =
    next_start me
      (if nms == 0
        then (if leb me m.mod_start then m.mod_start else nms)
        else if leb me m.mod_start && ltb m.mod_start nms
        then m.mod_start
        else nms)
      rest

abbrev pub or_end : ℕ → ℕ → ℕ
or_end me nms = if nms == 0 then me else nms

-- The end of the region that mem_release_module gives back, which starts where the module does.
pub release_end : Module → List Module → ℕ
unfolding next_start
release_end m modules = or_end m.mod_end (next_start m.mod_end 0 modules)

-- The region of mem_init2: from the lowest of the starts to the highest of the ends of the kernel and
-- the modules.
pub kernel_region : ℕ → ℕ → List Module → ℕ × ℕ
kernel_region start end [] = (start, end)
kernel_region start end (m ∷ rest) =
    kernel_region (if ltb m.mod_start start then m.mod_start else start)
      (if ltb end m.mod_end then m.mod_end else end) rest

-- kmem.h defines pmm_add_region as pmm_free, and pmm_remove_region as pmm_alloc_address.
pub mem_release_module : Module → List Module → Memory → Option (ℤ × Memory)
unfolding release_end
mem_release_module m modules mem =
    high_or_abort mem
      (pmm_free mem.high_mem_pool m.mod_start (sub32 (release_end m modules) m.mod_start))

pub mem_init2 : ℕ → ℕ → List Module → Memory → ℤ × Memory
unfolding kernel_region
mem_init2 ks ke modules mem =
    let r = kernel_region ks ke modules in
    on_high mem (pmm_alloc_address mem.high_mem_pool (r.0) (sub32 (r.1) (r.0)))

pub mem_init_from_size : ℕ → ℕ → Memory → Option (ℤ × Memory)
mem_init_from_size start size mem =
    high_or_abort mem (pmm_free (pmm_init mem.high_mem_pool) start size)

pub dosmem_init : ℕ → ℕ → Memory → Option (ℤ × Memory)
dosmem_init base size mem = dos_or_abort mem (pmm_free (pmm_init mem.dos_mem_pool) base size)
