-- ===== src/Slab/Bytes.antt =====
-- Pointers in the memory of fd32/kernel/slabmem.c: what a write leaves.
use free_dos.Common.{ℕ, ◌+◌, ◌/◌, ◌%◌, ◌^◌, ◌≤◌, ◌<◌, ◌≡◌, ◌⊎◌, inl, inr, arith}
use free_dos.Slab.{Bytes, load_pointer, store_pointer}

-- Two memories are the same but for the bytes from `a` to `a + n`.
abbrev pub SameBut : ℕ → ℕ → Bytes → Bytes → Type 0
SameBut a n m m' = (i : ℕ) → (i < a) ⊎ (a + n ≤ i) → m' i ≡ m i

pub store_pointer-SameBut : (a v : ℕ) (m : Bytes) → SameBut a 4 m (store_pointer a v m)
unfolding store_pointer
store_pointer-SameBut a v m i (inl h) = ground arith
store_pointer-SameBut a v m i (inr h) = ground arith

pub load_pointer-store_pointer :
    (a v : ℕ) (m : Bytes) → v < 2 ^ 32 → load_pointer a (store_pointer a v m) ≡ v
unfolding store_pointer
load_pointer-store_pointer a v m h =
    let e0 : store_pointer a v m a ≡ v % 256 = ground arith in
    let e1 : store_pointer a v m (a + 1) ≡ v / 256 % 256 = ground arith in
    let e2 : store_pointer a v m (a + 2) ≡ v / 65536 % 256 = ground arith in
    let e3 : store_pointer a v m (a + 3) ≡ v / 16777216 % 256 = ground arith in
    omega (arith, e0, e1, e2, e3)

pub load_pointer-SameBut :
    (a n b : ℕ) (m m' : Bytes)
    → (b + 4 ≤ a) ⊎ (a + n ≤ b)
    → SameBut a n m m'
    → load_pointer b m' ≡ load_pointer b m
load_pointer-SameBut a n b m m' (inl h) s = omega (
  arith,
  s b (inl (omega arith)),
  s (b + 1) (inl (omega arith)),
  s (b + 2) (inl (omega arith)),
  s (b + 3) (inl (omega arith)),
)
load_pointer-SameBut a n b m m' (inr h) s = omega (
  arith,
  s b (inr (omega arith)),
  s (b + 1) (inr (omega arith)),
  s (b + 2) (inr (omega arith)),
  s (b + 3) (inr (omega arith)),
)
