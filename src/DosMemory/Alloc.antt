-- ===== src/DosMemory/Alloc.antt =====
-- dos_alloc of oslib/xlib/xdosm.c.
use free_dos.Common.{
  ℕ, ◌+◌, ◌≤◌, ◌<◌, ◌^◌, ◌≡◌, refl, ◌⊎◌, inl, inr, ◌==◌, ◌&&◌, true, false, leb, List, [], ◌∷◌,
  arith, Returns, Bool-cases, Option-cases, ap, subst,
}
use free_dos.DosMemory.{Partition, cut, dos_alloc}

abbrev pub Within : ℕ → ℕ → ℕ → Type 0
Within base size a = (base ≤ a) × (a < base + size)

-- Byte `a` lies in a free partition.
abbrev pub IsFree : List Partition → ℕ → Type 0
IsFree [] a = ⊥
IsFree (p ∷ rest) a = ((p.used ≡ true) × Within p.addr p.size a) ⊎ IsFree rest a

-- The free partitions lie in the address space, not at 0, and no two of them meet.
abbrev pub IsTable : List Partition → Type 0
IsTable [] = Unit {0}
IsTable (p ∷ rest) =
    (p.used ≡ true → (0 < p.addr) × (p.addr + p.size < 2 ^ 32))
    × (p.used ≡ true → (a : ℕ) → Within p.addr p.size a → ¬ IsFree rest a)
    × IsTable rest

-- No partition is large enough.
abbrev pub TooSmall : ℕ → List Partition → Type 0
TooSmall s [] = Unit {0}
TooSmall s (p ∷ rest) = (p.used ≡ true → p.size < s) × TooSmall s rest

abbrev pub Served : List Partition → ℕ → ℕ × List Partition → Type 0
Served table s r =
    ((r.0 ≡ 0) × (r.1 ≡ table) × TooSmall s table)
    ⊎ ((0 < r.0)
        × ((a : ℕ) → Within (r.0) s a → IsFree table a × ¬ IsFree (r.1) a)
        × ((a : ℕ) → IsFree (r.1) a → IsFree table a)
        × ((a : ℕ) → IsFree table a → ¬ Within (r.0) s a → IsFree (r.1) a))

here_lem :
    (p : Partition) (rest : List Partition) (s : ℕ)
    → IsTable (p ∷ rest)
    → p.used ≡ true
    → s ≤ p.size
    → Served (p ∷ rest) s (p.addr, cut s p ∷ rest)
here_lem p rest s t u h =
    let (low, high) = t.0 u in
    inr (
      low,
      λ a w. (ground arith, λ f. ground (arith, t.1 u a)),
      λ a f. ground arith,
      λ a f n. ground arith,
    )

later_lem :
    (p : Partition) (rest : List Partition) (s : ℕ) (r : ℕ × List Partition)
    → IsTable (p ∷ rest)
    → (p.used && leb s p.size) ≡ false
    → Served rest s r
    → Served (p ∷ rest) s (r.0, p ∷ r.1)
later_lem p rest s r t miss (inl (z, e, small)) =
    inl (z, ap (λ l. p ∷ l) e, (λ u. ground (arith, u, miss), small))
later_lem p rest s r t miss (inr (low, block, fewer, kept)) = inr (
  low,
  λ a w. (
    inr ((block a w).0),
    λ f. elim f [ inl (u, x) ↦ t.1 u a x ((block a w).0) | inr y ↦ (block a w).1 y ],
  ),
  λ a f. elim f [ inl x ↦ inl x | inr y ↦ inr (fewer a y) ],
  λ a f n. elim f [ inl x ↦ inl x | inr y ↦ inr (kept a y n) ],
)

-- For a table of free partitions that do not meet and lie in the address space, not at address 0:
-- dos_alloc ends. Where it returns 0 every free partition is too small, and the table is as it was.
-- Otherwise every byte of the block was free and is not any more, and other bytes are free exactly if
-- they were.
pub dos_alloc_lem :
    (table : List Partition) (s : ℕ)
    → IsTable table
    → Returns
        (λ r.
          ((r.0 ≡ 0) × (r.1 ≡ table) × TooSmall s table)
          ⊎ ((0 < r.0)
              × ((a : ℕ) → Within (r.0) s a → IsFree table a × ¬ IsFree (r.1) a)
              × ((a : ℕ) → IsFree (r.1) a → IsFree table a)
              × ((a : ℕ) → IsFree table a → ¬ Within (r.0) s a → IsFree (r.1) a)))
        (dos_alloc table s)
unfolding dos_alloc
dos_alloc_lem [] s t = inl (refl, refl, tt)
dos_alloc_lem (p ∷ rest) s t = elim (Bool-cases (p.used && leb s p.size)) [
  | inl e ↦
      let u : p.used ≡ true = ground arith in
      let some_addr : (p.addr == 0) ≡ false = ground (arith, t.0 u) in
      rw e (rw some_addr (here_lem p rest s t u (ground arith)))
  | inr e ↦ elim (Option-cases (dos_alloc rest s)) [
    | inl n ↦ absurd (subst (Returns (Served rest s)) n (dos_alloc_lem rest s (t.2)))
    | inr (r, f) ↦ rw e (
        rw f (
          later_lem p rest s r t e
            (subst (Returns (Served rest s)) f (dos_alloc_lem rest s (t.2)))))
  ]
]
