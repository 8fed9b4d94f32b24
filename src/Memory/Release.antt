-- ===== src/Memory/Release.antt =====
-- The region that mem_release_module of fd32/boot/mem.c gives back, and the region of mem_init2.
use free_dos.Common.{ℕ, ◌≤◌, ◌<◌, ◌≡◌, refl, ◌⊎◌, inl, List, [], ◌∷◌, arith}
use free_dos.Memory.{Module, next_start, release_end, kernel_region}

-- No module starts from `me` on, and before `limit`.
abbrev pub NoneBetween : ℕ → ℕ → List Module → Type 0
NoneBetween me limit [] = Unit {0}
NoneBetween me limit (m ∷ rest) =
    ((m.mod_start < me) ⊎ (limit ≤ m.mod_start)) × NoneBetween me limit rest

abbrev pub NoneFrom : ℕ → List Module → Type 0
NoneFrom me [] = Unit {0}
NoneFrom me (m ∷ rest) = (m.mod_start < me) × NoneFrom me rest

abbrev pub Starts : ℕ → List Module → Type 0
Starts n [] = ⊥
Starts n (m ∷ rest) = (m.mod_start ≡ n) ⊎ Starts n rest

-- From a start that was found before: the lowest one.
next_start-some :
    (me nms : ℕ) (modules : List Module)
    → 0 < me
    → me ≤ nms
    → let n = next_start me nms modules in
      (me ≤ n) × (n ≤ nms) × ((n ≡ nms) ⊎ Starts n modules) × NoneBetween me n modules
unfolding next_start
next_start-some me nms [] l h = (h, omega arith, inl refl, tt)
next_start-some me nms (m ∷ rest) l h =
    ground (arith, next_start-some me nms rest, next_start-some me m.mod_start rest)

next_start-none :
    (me : ℕ) (modules : List Module)
    → 0 < me
    → let n = next_start me 0 modules in
      ((n ≡ 0) × NoneFrom me modules) ⊎ ((me ≤ n) × Starts n modules × NoneBetween me n modules)
unfolding next_start
next_start-none me [] l = inl (refl, tt)
next_start-none me (m ∷ rest) l =
    ground (arith, next_start-none me rest, next_start-some me m.mod_start rest)

-- For a module that does not end at 0: the region that mem_release_module gives back ends where the
-- module does, if no module starts from there on; else at the lowest such start, so that no module
-- starts between the end of the module and the end of the region.
pub release_end_lem :
    (m : Module) (modules : List Module)
    → 0 < m.mod_end
    → let e = release_end m modules in
      ((e ≡ m.mod_end) × NoneFrom m.mod_end modules)
      ⊎ ((m.mod_end ≤ e) × Starts e modules × NoneBetween m.mod_end e modules)
unfolding release_end
release_end_lem m modules l = ground (arith, next_start-none m.mod_end modules)

-- The starts and the ends of the modules lie in a region.
abbrev pub Covers : ℕ → ℕ → List Module → Type 0
Covers start end [] = Unit {0}
Covers start end (m ∷ rest) = (start ≤ m.mod_start) × (m.mod_end ≤ end) × Covers start end rest

-- The region that mem_init2 takes away holds the kernel and every module.
pub kernel_region_lem :
    (start end : ℕ) (modules : List Module)
    → let r = kernel_region start end modules in
      (r.0 ≤ start) × (end ≤ r.1) × Covers (r.0) (r.1) modules
unfolding kernel_region
kernel_region_lem start end [] = (omega arith, omega arith, tt)
kernel_region_lem start end (m ∷ rest) = ground (
  arith,
  kernel_region_lem start end rest,
  kernel_region_lem m.mod_start end rest,
  kernel_region_lem start m.mod_end rest,
  kernel_region_lem m.mod_start m.mod_end rest,
)
