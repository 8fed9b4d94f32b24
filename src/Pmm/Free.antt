-- ===== src/Pmm/Free.antt =====
-- pmm_free of fd32/kernel/pmm.c: what becomes free, and that neighbours are merged.
use free_dos.Common.{
  ℕ, ◌+◌, ◌≤◌, ◌<◌, ◌^◌, ◌≡◌, refl, ◌≢◌, ◌⊎◌, inl, inr, List, [], ◌∷◌, arith, ◌↔◌, Returns,
  Option-cases, Bool-cases, ltb, ltb→lt, leb, leb→le, ◌++◌, if◌then◌else◌, ◌==◌, ◌%◌,
}
use free_dos.Common.Int.{pos}
use free_dos.Pmm.{Memheader, Mempool, left_over, free_walk, pmm_free, alloc_walk, pmm_alloc}
use free_dos.Common.Word.{add32, sub32}
use free_dos.Pmm.Alloc.{alloc_walk_above}
use free_dos.Pmm.Chain.{IsChain, IsFree, Within, free_bytes, IsChain-weaken}

-- No free chunk meets the region.
abbrev pub Apart : List Memheader → ℕ → ℕ → Type 0
Apart [] base size = Unit {0}
Apart (p ∷ rest) base size =
    ((base + size ≤ p.addr) ⊎ (p.addr + p.size ≤ base)) × Apart rest base size

free_walk-IsChain :
    (lo : ℕ) (cs : List Memheader) (base size : ℕ)
    → IsChain lo cs
    → lo < base
    → 8 ≤ size
    → base + size < 2 ^ 32
    → Apart cs base size
    → Returns (λ r. IsChain lo (r.1)) (free_walk cs base size)
unfolding free_walk
free_walk-IsChain lo [] base size c l s b d = omega arith
free_walk-IsChain lo (p ∷ []) base size c l s b d = ground arith
free_walk-IsChain lo (p ∷ q ∷ rest) base size c l s b d = ground (
  arith,
  free_walk-IsChain (p.addr + p.size) (q ∷ rest) base size c.3,
  IsChain-weaken (p.addr + p.size) (base + size) rest,
)

-- What is free afterwards: what was free before, and the region.
free_walk-IsFree :
    (lo : ℕ) (cs : List Memheader) (base size a : ℕ)
    → IsChain lo cs
    → lo < base
    → 8 ≤ size
    → base + size < 2 ^ 32
    → Apart cs base size
    → Returns (λ r. IsFree (r.1) a ↔ (IsFree cs a ⊎ Within base size a)) (free_walk cs base size)
unfolding free_walk
free_walk-IsFree lo [] base size a c l s b d = ground arith
free_walk-IsFree lo (p ∷ []) base size a c l s b d = ground arith
free_walk-IsFree lo (p ∷ q ∷ rest) base size a c l s b d =
    ground (arith, free_walk-IsFree (p.addr + p.size) (q ∷ rest) base size a c.3)

-- The size of the chunk that begins where the region ends where no chunk ends where it begins, else 0: with
-- chunks on both sides the size of the upper one is 0 here too, though it is merged.
abbrev pub merged_above : List Memheader → ℕ → ℕ → ℕ
merged_above [] base size = 0
merged_above (p ∷ rest) base size =
    if p.addr + p.size == base
    then 0
    else if base + size == p.addr
    then p.size
    else merged_above rest base size

merged_above_zero :
    (lo : ℕ) (cs : List Memheader) (base size : ℕ)
    → IsChain lo cs
    → base + size ≤ lo
    → merged_above cs base size ≡ 0
merged_above_zero lo [] base size c h = refl
merged_above_zero lo (p ∷ rest) base size c h =
    ground (arith, merged_above_zero (p.addr + p.size) rest base size c.3)

free_walk_bytes :
    (lo : ℕ) (cs : List Memheader) (base size : ℕ)
    → IsChain lo cs
    → lo < base
    → 8 ≤ size
    → base + size < 2 ^ 32
    → Apart cs base size
    → Returns (λ r. free_bytes (r.1) ≡ free_bytes cs + size) (free_walk cs base size)
unfolding free_walk
free_walk_bytes lo [] base size c l s b d = ground arith
free_walk_bytes lo (p ∷ []) base size c l s b d = ground arith
free_walk_bytes lo (p ∷ q ∷ rest) base size c l s b d =
    ground (arith, free_walk_bytes (p.addr + p.size) (q ∷ rest) base size c.3)

-- A walk that passes `p` counts as it does behind `p`.
free_walk_passes_count :
    (p : Memheader) (cs : List Memheader) (base size n : ℕ)
    → p.addr + p.size < base
    → p.addr + p.size < 2 ^ 32
    → Returns (λ r. r.0 ≡ n) (free_walk cs base size)
    → Returns (λ r. r.0 ≡ n) (free_walk (p ∷ cs) base size)
unfolding free_walk
free_walk_passes_count p cs base size n l b h = ground arith

merged_above_passes :
    (p : Memheader) (cs : List Memheader) (base size : ℕ)
    → p.addr + p.size < base
    → merged_above cs base size ≡ merged_above (p ∷ cs) base size
merged_above_passes p cs base size h = ground arith

-- The walk ends at `p`.
free_walk_counts_here :
    (p : Memheader) (cs : List Memheader) (base size lo : ℕ)
    → base ≤ p.addr + p.size
    → IsChain lo (p ∷ cs)
    → 8 ≤ size
    → base + size < 2 ^ 32
    → Apart (p ∷ cs) base size
    → merged_above cs base size ≡ 0 ⊎ (base ≡ p.addr + p.size)
    → Returns (λ r. r.0 ≡ size + merged_above (p ∷ cs) base size) (free_walk (p ∷ cs) base size)
unfolding free_walk
free_walk_counts_here p [] base size lo h c s b d z = ground arith
free_walk_counts_here p (q ∷ cs) base size lo h c s b d z =
    elim (Bool-cases (base == p.addr + p.size)) [
      | inl e ↦ let e' : base ≡ p.addr + p.size = ground arith in ground arith
      | inr e ↦ ground arith
    ]

free_walk_counts :
    (lo : ℕ) (cs : List Memheader) (base size : ℕ)
    → IsChain lo cs
    → lo < base
    → 8 ≤ size
    → base + size < 2 ^ 32
    → Apart cs base size
    → Returns (λ r. r.0 ≡ size + merged_above cs base size) (free_walk cs base size)
free_walk_counts lo [] base size c l s b d = unfold free_walk in ground arith
free_walk_counts lo (p ∷ rest) base size c l s b d =
    elim (Bool-cases (ltb (p.addr + p.size) base)) [
      | inl e ↦
          let e' = ltb→lt _ _ e in
          rw (← merged_above_passes p rest base size e') (
            free_walk_passes_count p rest base size _ e' c.2
              (free_walk_counts (p.addr + p.size) rest base size c.3 e' s b d.1))
      | inr e ↦
          let here : base ≤ p.addr + p.size = ground arith in
          free_walk_counts_here p rest base size lo here c s b d
            (ground (arith, merged_above_zero (p.addr + p.size) rest base size c.3))
    ]

-- For a well-formed pool and a region of at least 8 bytes that no free chunk meets: pmm_free
-- returns 0 (it does not abort), the pool stays well-formed, and the free bytes are those that were
-- free before and those of the region.
pub pmm_free_lem :
    (mp : Mempool) (base size : ℕ)
    → IsChain 0 mp.chunks
    → 0 < base
    → 8 ≤ size
    → base + size < 2 ^ 32
    → Apart mp.chunks base size
    → Returns
        (λ r.
          (r.0 ≡ pos 0)
          × IsChain 0 (r.1.chunks)
          × ((a : ℕ) → IsFree (r.1.chunks) a ↔ (IsFree mp.chunks a ⊎ Within base size a)))
        (pmm_free mp base size)
unfolding pmm_free
pmm_free_lem mp base size c l s b d = elim (Option-cases (free_walk mp.chunks base size)) [
  | inl e ↦ absurd (rw e at (free_walk-IsChain 0 mp.chunks base size c l s b d))
  | inr (r, e) ↦ rw e (
    refl,
    rw e at (free_walk-IsChain 0 mp.chunks base size c l s b d),
    λ a. rw e at (free_walk-IsFree 0 mp.chunks base size a c l s b d),
  )
]

-- For a well-formed pool whose `top.size` is the number of free bytes, and a region of 8 bytes or more
-- that lies below 2^32, not at address 0, and apart from the chunks: after pmm_free `top.size` is, modulo
-- 2^32, the number of free bytes and `merged_above`. That is the size of the chunk that begins where the
-- region ends where no chunk ends where the region begins: that chunk is counted twice. It is 0, so that
-- `top.size` is right, where no chunk begins at the region's end, and also where the region has a chunk on
-- either side, both of which are merged with it.
pub pmm_free_total :
    (mp : Mempool) (base size : ℕ)
    → IsChain 0 mp.chunks
    → 0 < base
    → 8 ≤ size
    → base + size < 2 ^ 32
    → Apart mp.chunks base size
    → mp.total ≡ free_bytes mp.chunks
    → Returns
        (λ r. r.1.total ≡ (free_bytes (r.1.chunks) + merged_above mp.chunks base size) % 2 ^ 32)
        (pmm_free mp base size)
unfolding pmm_free
pmm_free_total mp base size c l s b d t = elim (Option-cases (free_walk mp.chunks base size)) [
  | inl e ↦ absurd (rw e at (free_walk_bytes 0 mp.chunks base size c l s b d))
  | inr (r, e) ↦
      let bytes = rw e at (free_walk_bytes 0 mp.chunks base size c l s b d) in
      let counts = rw e at (free_walk_counts 0 mp.chunks base size c l s b d) in
      rw e (omega (arith, bytes, counts))
]

-- Every chunk is a whole number of 8-byte units, as fd32/boot/mem.c rounds its requests.
abbrev pub IsAligned : List Memheader → Type 0
IsAligned [] = Unit {0}
IsAligned (p ∷ rest) = (p.size % 8 ≡ 0) × IsAligned rest

-- The region `size` at the front of the chunk `p` is freed into what pmm_alloc left of it.
give_back :
    (lo : ℕ) (p : Memheader) (rest : List Memheader) (size : ℕ)
    → IsChain lo (p ∷ rest)
    → p.size % 8 ≡ 0
    → 8 ≤ size
    → size % 8 ≡ 0
    → size ≤ p.size
    → Returns
        (λ r. r.1 ≡ p ∷ rest)
        (free_walk (left_over (add32 p.addr size) (sub32 p.size size) ++ rest) p.addr size)
unfolding free_walk
give_back lo p [] size c k s m h = ground arith
give_back lo p (q ∷ rest) size c k s m h = ground arith

-- A walk that passes `p` leaves it alone.
free_walk_passes :
    (p : Memheader) (cs cs' : List Memheader) (base size : ℕ)
    → p.addr + p.size < base
    → p.addr + p.size < 2 ^ 32
    → Returns (λ r. r.1 ≡ cs') (free_walk cs base size)
    → Returns (λ r. r.1 ≡ p ∷ cs') (free_walk (p ∷ cs) base size)
unfolding free_walk
free_walk_passes p cs cs' base size l b h = ground arith

free_walk-alloc_walk :
    (lo total : ℕ) (cs : List Memheader) (size : ℕ)
    → IsChain lo cs
    → IsAligned cs
    → 8 ≤ size
    → size % 8 ≡ 0
    → (alloc_walk total cs size).0 ≢ 0
    → Returns
        (λ r. r.1 ≡ cs)
        (free_walk ((alloc_walk total cs size).1.chunks) ((alloc_walk total cs size).0) size)
unfolding alloc_walk
free_walk-alloc_walk lo total [] size c k s m h = absurd (h refl)
free_walk-alloc_walk lo total (p ∷ rest) size c k s m h = elim (Bool-cases (leb size p.size)) [
  | inl fits ↦ rw fits (give_back lo p rest size c k.0 s m (leb→le _ _ fits))
  | inr small ↦
      let h' = rw small at h in
      rw small (
        free_walk_passes p _ rest _ size (alloc_walk_above (p.addr + p.size) total rest size c.3 h')
          c.2 (free_walk-alloc_walk (p.addr + p.size) total rest size c.3 k.1 s m h'))
]

-- For a well-formed pool of 8-byte units: pmm_free of the block that pmm_alloc returned, of the same
-- size in 8-byte units, does not abort and gives back the chain of free chunks as it was.
pub pmm_free-pmm_alloc :
    (mp : Mempool) (size : ℕ)
    → IsChain 0 mp.chunks
    → IsAligned mp.chunks
    → 8 ≤ size
    → size % 8 ≡ 0
    → (pmm_alloc mp size).0 ≢ 0
    → Returns
        (λ r. r.1.chunks ≡ mp.chunks)
        (pmm_free ((pmm_alloc mp size).1) ((pmm_alloc mp size).0) size)
unfolding pmm_alloc pmm_free
pmm_free-pmm_alloc mp size c k s m h =
    ground (arith, free_walk-alloc_walk 0 mp.total mp.chunks size c k s m h)
