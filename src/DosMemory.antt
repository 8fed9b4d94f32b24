-- ===== src/DosMemory.antt =====
-- oslib/xlib/xdosm.c: the allocator of low memory, a table of free partitions.
pub mod Alloc
pub mod Tests
use free_dos.Common.{
  ℕ, zero, suc, ◌+◌, ◌==◌, ◌&&◌, ◌||◌, not, if◌then◌else◌, Bool, true, false, leb, ltb, List, [],
  ◌∷◌, Option, none, some, get_elem?, length,
}
use free_dos.Common.Word.{add32, sub32}

-- An entry of mem_table: `used` marks one that describes free memory.
pub record Partition : Type 0 where
  pub used : Bool
  pub addr : ℕ
  pub size : ℕ

-- What dos_alloc leaves of the partition.
abbrev pub cut : ℕ → Partition → Partition
cut s p =
    if ltb s p.size
    then record p { size = sub32 p.size s; addr = add32 p.addr s }
    else record p { used = false }

abbrev pub behind : Partition → Option (ℕ × List Partition) → Option (ℕ × List Partition)
behind p r = elim r [ none ↦ none | some q ↦ some (q.0, p ∷ q.1) ]

-- The address, or 0 where no partition is large enough. `none`: the loop does not end, since the
-- partition found stands at address 0.
pub dos_alloc : List Partition → ℕ → Option (ℕ × List Partition)
dos_alloc [] s = some (0, [])
dos_alloc (p ∷ rest) s =
    let r = dos_alloc rest s in
    if p.used && leb s p.size
    then (if p.addr == 0 then none else some (p.addr, cut s p ∷ rest))
    else behind p r

-- The indices of the partitions below and above the block, 0 where there is none; `i` counts from 1.
pub neighbours : ℕ → List Partition → ℕ → ℕ → ℕ → ℕ → ℕ × ℕ
neighbours i [] i1 i2 p s = (i1, i2)
neighbours i (e ∷ rest) i1 i2 p s =
    let j1 = if e.used && (add32 e.addr e.size == p) then i else i1 in
    let j2 = if e.used && (e.addr == add32 p s) then i else i2 in
    let r = neighbours (suc i) rest j1 j2 p s in if i1 == 0 || i2 == 0 then r else (i1, i2)

-- mem_table[i], changed.
abbrev pub at : ℕ → (Partition → Partition) → List Partition → List Partition
at i f [] = []
at zero f (e ∷ rest) = f e ∷ rest
at (suc i) f (e ∷ rest) = e ∷ at i f rest

abbrev pub size_of : Option Partition → ℕ
size_of none = 0
size_of (some e) = e.size

-- The block as a new entry in the first unused place.
pub add_entry : ℕ → ℕ → List Partition → Option (List Partition)
add_entry p s [] = none
add_entry p s (e ∷ rest) =
    let r = add_entry p s rest in
    if e.used
    then elim r [ none ↦ none | some l ↦ some (e ∷ l) ]
    else some (record { used = true; addr = p; size = s } ∷ rest)

abbrev pub tail : List Partition → List Partition
tail [] = []
tail (e ∷ rest) = rest

-- FALSE where the table is full.
pub dos_free : List Partition → ℕ → ℕ → Bool × List Partition
unfolding neighbours add_entry
dos_free table p s =
    let n = neighbours 1 (tail table) 0 0 p s in
    let above = size_of (get_elem? table (n.1)) in
    if n.0 == 0
    then (if n.1 == 0
        then elim (add_entry p s table) [ none ↦ (false, table) | some l ↦ (true, l) ]
        else (true, at (n.1) (λ e. record e { addr = p; size = add32 e.size s }) table))
    else if n.1 == 0
    then (true, at (n.0) (λ e. record e { size = add32 e.size s }) table)
    else (
      true,
      at (n.1) (λ e. record e { used = false })
          (at (n.0) (λ e. record e { size = add32 e.size (add32 above s) }) table),
    )
