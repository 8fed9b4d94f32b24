-- ===== src/Pmm/Chain.antt =====
-- What a chain of free chunks (fd32/kernel/pmm.c) means: well-formedness, the bytes it holds free,
-- and their number.
use free_dos.Common.{ℕ, ◌+◌, ◌≤◌, ◌<◌, ◌^◌, ◌≡◌, ◌⊎◌, inl, inr, List, [], ◌∷◌, ◌++◌, arith}
use free_dos.Pmm.{Memheader, left_over}

-- Addresses rise, two chunks never touch, a chunk can hold its header, and none reaches the end of
-- the address space.
abbrev pub IsChain : ℕ → List Memheader → Type 0
IsChain lo [] = Unit {0}
IsChain lo (p ∷ rest) =
    (lo < p.addr) × (8 ≤ p.size) × (p.addr + p.size < 2 ^ 32) × IsChain (p.addr + p.size) rest

-- Byte `a` lies in a free chunk.
abbrev pub IsFree : List Memheader → ℕ → Type 0
IsFree [] a = ⊥
IsFree (p ∷ rest) a = ((p.addr ≤ a) × (a < p.addr + p.size)) ⊎ IsFree rest a

abbrev pub Within : ℕ → ℕ → ℕ → Type 0
Within base size a = (base ≤ a) × (a < base + size)

abbrev pub Outside : ℕ → ℕ → ℕ → Type 0
Outside base size a = (a < base) ⊎ (base + size ≤ a)

abbrev pub free_bytes : List Memheader → ℕ
free_bytes [] = 0
free_bytes (p ∷ rest) = p.size + free_bytes rest

pub IsChain-weaken : (lo lo' : ℕ) (cs : List Memheader) → lo' ≤ lo → IsChain lo cs → IsChain lo' cs
IsChain-weaken lo lo' [] h c = tt
IsChain-weaken lo lo' (p ∷ rest) h c = (omega arith, c.1, c.2, c.3)

-- A free byte lies above the bound of its chain.
pub IsFree-above : (lo : ℕ) (cs : List Memheader) (a : ℕ) → IsChain lo cs → IsFree cs a → lo < a
IsFree-above lo [] a c f = absurd f
IsFree-above lo (p ∷ rest) a c (inl f) = omega arith
IsFree-above lo (p ∷ rest) a c (inr f) = omega (arith, IsFree-above (p.addr + p.size) rest a c.3 f)

pub free_bytes-lt :
    (lo : ℕ) (cs : List Memheader) → lo < 2 ^ 32 → IsChain lo cs → lo + free_bytes cs < 2 ^ 32
free_bytes-lt lo [] h c = omega arith
free_bytes-lt lo (p ∷ rest) h c =
    omega (arith, free_bytes-lt (p.addr + p.size) rest (omega arith) c.3)

-- There is a chunk of `n` bytes at `a`.
abbrev pub HasChunk : List Memheader → ℕ → ℕ → Type 0
HasChunk [] a n = ⊥
HasChunk (p ∷ rest) a n = ((p.addr ≡ a) × (p.size ≡ n)) ⊎ HasChunk rest a n

pub HasChunk-IsChain :
    (lo : ℕ) (cs : List Memheader) (a n : ℕ)
    → IsChain lo cs
    → HasChunk cs a n
    → (lo < a) × (8 ≤ n) × (a + n < 2 ^ 32)
HasChunk-IsChain lo [] a n c h = absurd h
HasChunk-IsChain lo (p ∷ rest) a n c (inl h) = omega arith
HasChunk-IsChain lo (p ∷ rest) a n c (inr h) =
    omega (arith, HasChunk-IsChain (p.addr + p.size) rest a n c.3 h)

-- The byte behind a chunk is not free.
pub HasChunk-end :
    (lo : ℕ) (cs : List Memheader) (a n : ℕ) → IsChain lo cs → HasChunk cs a n → ¬ IsFree cs (a + n)
HasChunk-end lo [] a n c h f = h
HasChunk-end lo (p ∷ rest) a n c (inl h) (inl f) = omega arith
HasChunk-end lo (p ∷ rest) a n c (inl h) (inr f) =
    omega (arith, IsFree-above (p.addr + p.size) rest (a + n) c.3 f)
HasChunk-end lo (p ∷ rest) a n c (inr h) (inl f) =
    omega (arith, HasChunk-IsChain (p.addr + p.size) rest a n c.3 h)
HasChunk-end lo (p ∷ rest) a n c (inr h) (inr f) = HasChunk-end (p.addr + p.size) rest a n c.3 h f

-- What is left of a chunk, in front of a chain.
pub left_over-IsChain :
    (lo a n hi : ℕ) (cs : List Memheader)
    → lo < a
    → a + n < 2 ^ 32
    → a + n ≤ hi
    → IsChain hi cs
    → IsChain lo (left_over a n ++ cs)
left_over-IsChain lo a n hi cs l b h c =
    ground (arith, IsChain-weaken hi (a + n) cs, IsChain-weaken hi lo cs)

pub left_over-IsFree :
    (a n x : ℕ) (cs : List Memheader) → IsFree (left_over a n ++ cs) x → Within a n x ⊎ IsFree cs x
left_over-IsFree a n x cs f = ground arith

pub IsFree-left_over :
    (a n x : ℕ) (cs : List Memheader)
    → Within a n x ⊎ IsFree cs x
    → IsFree (left_over a n ++ cs) x ⊎ ((n < 8) × Within a n x)
IsFree-left_over a n x cs f = ground arith
