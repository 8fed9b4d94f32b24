-- ===== src/Memory/Ops.antt =====
-- mem_get and mem_free of fd32/boot/mem.c for the parts that stand on them: the operations, what is
-- promised of them, and that the pool of high memory keeps it.
use free_dos.Common.{
  ℕ, ◌+◌, ◌-◌, ◌^◌, ◌≤◌, ◌<◌, ◌≡◌, ◌≢◌, ap, inl, inr, List, [], ◌∷◌, Option, none, some, arith,
  Returns, leb, leb→le, Bool-cases,
}
use free_dos.Common.Int.{ℤ}
use free_dos.Pmm.{Memheader, Mempool, pmm_alloc, pmm_free}
use free_dos.Pmm.Chain.{IsChain, IsFree, Within, Outside, IsFree-above}
use free_dos.Pmm.Alloc.{pmm_alloc_lem, pmm_alloc_fails}
use free_dos.Pmm.Free.{Apart, pmm_free_lem}
use free_dos.Memory.{Memory, aligned, high_or_abort, mem_get, mem_free}
use free_dos.Memory.RoundTrip.{aligned_lem}

-- 0 is no memory, and `none` that mem_free aborts.
pub record MemOps (S : Type 0) : Type 0 where
  pub mem_get : ℕ → S → ℕ × S
  pub mem_free : ℕ → ℕ → S → Option (ℤ × S)

-- The sizes that are rounded up to 8 bytes without wrapping.
abbrev pub CanRound : ℕ → Type 0
CanRound bytes = (0 < bytes) × (bytes ≤ 2 ^ 32 - 8)

-- A request that fails changes nothing. A block that was handed out is held, and after another one was
-- handed out it can be given back, which leaves the other one held.
pub record MemLaws {S : Type 0} (mem : MemOps S) : Type 1 where
  pub IsSound : S → Type 0
  pub Held : ℕ → ℕ → S → Type 0
  pub get_fails :
      (bytes : ℕ) (s : S) → IsSound s → (mem.mem_get bytes s).0 ≡ 0 → (mem.mem_get bytes s).1 ≡ s
  pub get_held :
      (bytes : ℕ) (s : S)
      → IsSound s
      → CanRound bytes
      → (mem.mem_get bytes s).0 ≢ 0
      → IsSound ((mem.mem_get bytes s).1)
        × Held ((mem.mem_get bytes s).0) bytes ((mem.mem_get bytes s).1)
  pub get_free :
      (bytes place old : ℕ) (s : S)
      → IsSound s
      → CanRound bytes
      → Held place old s
      → (mem.mem_get bytes s).0 ≢ 0
      → Returns
          (λ r. IsSound r.1 × Held ((mem.mem_get bytes s).0) bytes (r.1))
          (mem.mem_free place old ((mem.mem_get bytes s).1))

abbrev pub kernel_ops : MemOps Memory
kernel_ops = record { mem_get = mem_get; mem_free = mem_free }

-- A region without a free byte meets no free chunk.
Apart-of :
    (lo : ℕ) (cs : List Memheader) (base size : ℕ)
    → IsChain lo cs
    → 0 < size
    → ((a : ℕ) → Within base size a → ¬ IsFree cs a)
    → Apart cs base size
Apart-of lo [] base size c l h = tt
Apart-of lo (p ∷ rest) base size c l h = (
  elim (Bool-cases (leb (base + size) p.addr)) [
    | inl e ↦ inl (leb→le (base + size) p.addr e)
    | inr e ↦ elim (Bool-cases (leb (p.addr + p.size) base)) [
      | inl f ↦ inr (leb→le (p.addr + p.size) base f)
      | inr f ↦ elim (Bool-cases (leb base p.addr)) [
        | inl g ↦ absurd (h p.addr (ground arith) (inl (ground arith)))
        | inr g ↦ absurd (h base (ground arith) (inl (ground arith)))
      ]
    ]
  ],
  Apart-of (p.addr + p.size) rest base size c.3 l (λ a w f. h a w (inr f)),
)

IsFree-lt : (lo : ℕ) (cs : List Memheader) (a : ℕ) → IsChain lo cs → IsFree cs a → a + 1 < 2 ^ 32
IsFree-lt lo [] a c f = absurd f
IsFree-lt lo (p ∷ rest) a c (inl f) = omega arith
IsFree-lt lo (p ∷ rest) a c (inr f) = IsFree-lt (p.addr + p.size) rest a c.3 f

-- The block lies in the address space, and none of its bytes is free.
abbrev pub IsBlock : ℕ → ℕ → Memory → Type 0
IsBlock place bytes m =
    (0 < place)
    × CanRound bytes
    × (place + aligned bytes < 2 ^ 32)
    × ((a : ℕ) → Within place (aligned bytes) a → ¬ IsFree m.high_mem_pool.chunks a)

abbrev pub IsPool : Memory → Type 0
IsPool m = IsChain 0 m.high_mem_pool.chunks

module _ (bytes : ℕ) (m : Memory) (c : IsPool m) where
  pub kernel_get_fails : (mem_get bytes m).0 ≡ 0 → (mem_get bytes m).1 ≡ m
  unfolding mem_get
  kernel_get_fails e =
      ap (λ p. record m { high_mem_pool = p })
        ((pmm_alloc_fails m.high_mem_pool (aligned bytes) c e).1)

  module _ (fits : CanRound bytes) (got : (mem_get bytes m).0 ≢ 0) where
    block_lem : (0 < (mem_get bytes m).0) × ((mem_get bytes m).0 + aligned bytes < 2 ^ 32)
    unfolding mem_get
    block_lem =
        let r = (pmm_alloc m.high_mem_pool (aligned bytes)).0 in
        let (x, y, z, w) = aligned_lem bytes fits.0 fits.1 in
        let (chain, within, shrinks, keeps) = pmm_alloc_lem m.high_mem_pool (aligned bytes) c got in
        let end = r + aligned bytes - 1 in
        (
          IsFree-above 0 m.high_mem_pool.chunks r c (within r (omega arith)),
          omega (arith, IsFree-lt 0 m.high_mem_pool.chunks end c (within end (omega arith))),
        )

    pub kernel_get_held :
        IsPool ((mem_get bytes m).1) × IsBlock ((mem_get bytes m).0) bytes ((mem_get bytes m).1)
    unfolding mem_get
    kernel_get_held =
        let (chain, within, shrinks, keeps) = pmm_alloc_lem m.high_mem_pool (aligned bytes) c got in
        (chain, (block_lem.0, fits, block_lem.1, λ a w f. apart a w ((shrinks a f).1)))
      where
        apart :
            (a : ℕ)
            → Within ((mem_get bytes m).0) (aligned bytes) a
            → Outside ((mem_get bytes m).0) (aligned bytes) a
            → ⊥
        apart a w (inl o) = omega arith
        apart a w (inr o) = omega arith

high_or_abort-Returns :
    (P : Memory → Type 0) (m : Memory) (o : Option (ℤ × Mempool))
    → Returns (λ r. P (record m { high_mem_pool = r.1 })) o
    → Returns (λ r. P (r.1)) (high_or_abort m o)
high_or_abort-Returns P m none h = h
high_or_abort-Returns P m (some r) h = h

Returns-weaken :
    {A : Type 0} (P Q : A → Type 0) (o : Option A)
    → ((a : A) → P a → Q a)
    → Returns P o
    → Returns Q o
Returns-weaken P Q none f h = h
Returns-weaken P Q (some a) f h = f a h

module _ (bytes place old : ℕ) (m : Memory) (c : IsPool m) (fits : CanRound bytes)
    (held : IsBlock place old m) (got : (mem_get bytes m).0 ≢ 0) where
  abbrev r : ℕ
  r = (mem_get bytes m).0

  abbrev m' : Memory
  m' = (mem_get bytes m).1

  -- The byte was not free, so it is not in the new block.
  not_both : (a : ℕ) → Within place (aligned old) a → Within r (aligned bytes) a → ⊥
  unfolding mem_get
  not_both a w v =
      let (chain, within, shrinks, keeps) = pmm_alloc_lem m.high_mem_pool (aligned bytes) c got in
      held.3 a w (within a v)

  still_used : (a : ℕ) → Within place (aligned old) a → ¬ IsFree m'.high_mem_pool.chunks a
  unfolding mem_get
  still_used a w f =
      let (chain, within, shrinks, keeps) = pmm_alloc_lem m.high_mem_pool (aligned bytes) c got in
      held.3 a w ((shrinks a f).0)

  pub kernel_get_free : Returns (λ q. IsPool (q.1) × IsBlock r bytes (q.1)) (mem_free place old m')
  unfolding mem_free
  kernel_get_free =
      let (sound, (pos_r, _, below, unused)) = kernel_get_held bytes m c fits got in
      let (x, y, z, w) = aligned_lem old (held.1.0) (held.1.1) in
      let freed =
        pmm_free_lem m'.high_mem_pool place (aligned old) sound held.0 x held.2
          (Apart-of 0 m'.high_mem_pool.chunks place (aligned old) sound (omega arith) still_used) in
      high_or_abort-Returns (λ q. IsPool q × IsBlock r bytes q) m'
        (pmm_free m'.high_mem_pool place (aligned old))
        (Returns-weaken _ _ (pmm_free m'.high_mem_pool place (aligned old))
          (λ q p. (
            p.1,
            (
              pos_r,
              fits,
              below,
              λ a v f. elim ((p.2 a).0 f) [ inl g ↦ unused a v g | inr g ↦ not_both a g v ],
            ),
          ))
          freed)

unfoldable pub kernel_ops-MemLaws : MemLaws kernel_ops
kernel_ops-MemLaws = record {
  IsSound = IsPool;
  Held = IsBlock;
  get_fails = kernel_get_fails;
  get_held = kernel_get_held;
  get_free = λ bytes place old m c fits held got. kernel_get_free bytes place old m c fits held got;
}
