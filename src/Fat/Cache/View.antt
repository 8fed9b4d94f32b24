-- ===== src/Fat/Cache/View.antt =====
-- The block device under the buffers of fd32/modules/fat/volume.c, the well-formedness of the
-- buffers, and what a reader of the volume sees through them.
use Prim.Native.Nat.{min}
use free_dos.Common.{
  true≢false, ℕ, zero, suc, ◌+◌, ◌-◌, ◌*◌, ◌/◌, ◌≤◌, ◌<◌, ◌≡◌, refl, ◌⊎◌, inl, inr, ap, sym, subst,
  ◌∙◌, true, false, List, [], ◌∷◌, none, some, length, get_or, arith, Option-cases, ◌++◌, set,
}
use free_dos.Common.Errno.{ok}
use free_dos.Fat.Cache.{
  fat_read_ahead, Sector, BlockDev, Buffer, blank, covers, find_from, find_buffer, erase,
}

-- `disk d n` is sector `n` of the device, which has `blocks` sectors. A read gives the sectors up to
-- the end of the device, or fails; it changes none. A write stores the sectors, or fails; it changes
-- no other sector.
pub record DevLaws {D : Type 0} (dev : BlockDev D) (blocks : ℕ) : Type 0 where
  pub disk : D → ℕ → Sector
  pub read_keeps :
      (d : D) (count from n : ℕ) → disk ((dev.fat_blockdev_read count from d).1) n ≡ disk d n
  pub read_answers :
      (d : D) (count from k : ℕ) (contents : ℕ → Sector)
      → (dev.fat_blockdev_read count from d).0 ≡ ok (k, contents)
      → (k ≡ min count (blocks - from)) × ((i : ℕ) → i < k → contents i ≡ disk d (from + i))
  pub write_keeps :
      (d : D) (contents : ℕ → Sector) (count from n : ℕ)
      → (n < from) ⊎ (from + count ≤ n)
      → disk ((dev.fat_blockdev_write contents count from d).1) n ≡ disk d n
  pub write_stores :
      (d : D) (contents : ℕ → Sector) (count from i : ℕ)
      → (dev.fat_blockdev_write contents count from d).0 ≡ ok count
      → i < count
      → disk ((dev.fat_blockdev_write contents count from d).1) (from + i) ≡ contents i

-- All places of the list are places of `n` buffers.
abbrev pub AllBelow : ℕ → List ℕ → Type 0
AllBelow n [] = Unit {0}
AllBelow n (i ∷ rest) = (i < n) × AllBelow n rest

-- A valid buffer starts at a multiple of its size, holds the sectors up to its end or that of the
-- device, and those of the device unless it is dirty.
abbrev pub IsGood : ℕ → (ℕ → Sector) → Buffer → Type 0
IsGood blocks d b =
    (b.sector ≡ b.sector / fat_read_ahead * fat_read_ahead)
    × (b.sector < blocks)
    × (b.count ≡ min fat_read_ahead (blocks - b.sector))
    × (b.dirty ≡ false → (i : ℕ) → i < b.count → b.contents i ≡ d (b.sector + i))

-- The buffer at a place.
abbrev pub at : List Buffer → ℕ → Buffer
at bs i = get_or bs i blank

-- Each valid buffer is good, no two hold the same sectors, and the order of use names the buffers.
pub record IsCoherent (blocks : ℕ) (d : ℕ → Sector) (bs : List Buffer) (lru : List ℕ) : Type 0 where
  pub good : (i : ℕ) → i < length bs → (at bs i).valid ≡ true → IsGood blocks d (at bs i)
  pub apart :
      (i j : ℕ)
      → i < length bs
      → j < length bs
      → (at bs i).valid ≡ true
      → (at bs j).valid ≡ true
      → (at bs i).sector ≡ (at bs j).sector
      → i ≡ j
  pub places : AllBelow (length bs) lru
  pub some_place : (j : ℕ) × (rest : List ℕ) × (lru ≡ j ∷ rest)

-- What find_buffer gives.
pub find_from-some :
    (k : ℕ) (bs : List Buffer) (s i : ℕ)
    → find_from k bs s ≡ some i
    → (k ≤ i) × (i < k + length bs) × (covers (get_or bs (i - k) blank) s ≡ true)
unfolding find_from
find_from-some k [] s i h = cc
find_from-some k (b ∷ rest) s i h = ground (arith, find_from-some (suc k) rest s i)

-- A buffer with the same sectors in its place.
pub find_from-set :
    (k : ℕ) (bs : List Buffer) (i : ℕ) (b : Buffer) (s : ℕ)
    → covers b s ≡ covers (get_or bs i blank) s
    → find_from k (set bs i b) s ≡ find_from k bs s
unfolding find_from
find_from-set k [] i b s h = refl
find_from-set k (x ∷ bs) zero b s h = rw h refl
find_from-set k (x ∷ bs) (suc i) b s h = rw (find_from-set (suc k) bs i b s h) refl

pub find_buffer-some :
    (bs : List Buffer) (s i : ℕ)
    → find_from 0 bs s ≡ some i
    → (i < length bs) × (covers (get_or bs i blank) s ≡ true)
find_buffer-some bs s i h =
    let (x, y, z) = find_from-some 0 bs s i h in
    let e : i - 0 ≡ i = omega arith in
    (omega arith, subst (λ j. covers (get_or bs j blank) s ≡ true) e z)

find_from-tail :
    (k : ℕ) (b : Buffer) (rest : List Buffer) (s : ℕ)
    → find_from k (b ∷ rest) s ≡ none
    → (covers b s ≡ false) × (find_from (suc k) rest s ≡ none)
unfolding find_from
find_from-tail k b rest s h = ground arith

pub find_from-none :
    (k : ℕ) (bs : List Buffer) (s : ℕ)
    → find_from k bs s ≡ none
    → (j : ℕ) → j < length bs
    → covers (get_or bs j blank) s ≡ false
find_from-none k [] s h j l = absurd (omega arith)
find_from-none k (a ∷ rest) s h zero l = (find_from-tail k a rest s h).0
find_from-none k (a ∷ rest) s h (suc j) l =
    find_from-none (suc k) rest s ((find_from-tail k a rest s h).1) j (omega arith)

pub erase-AllBelow : (n i : ℕ) (xs : List ℕ) → AllBelow n xs → AllBelow n (erase i xs)
erase-AllBelow n i [] h = tt
erase-AllBelow n i (x ∷ xs) h = ground (arith, erase-AllBelow n i xs)

pub append-AllBelow : (n i : ℕ) (xs : List ℕ) → AllBelow n xs → i < n → AllBelow n (xs ++ (i ∷ []))
append-AllBelow n i [] h l = (l, tt)
append-AllBelow n i (x ∷ xs) h l = (h.0, append-AllBelow n i xs (h.1) l)

pub append-some_place :
    (i : ℕ) (xs : List ℕ) → (j : ℕ) × (rest : List ℕ) × (xs ++ (i ∷ []) ≡ j ∷ rest)
append-some_place i [] = (i, [], refl)
append-some_place i (x ∷ xs) = (x, xs ++ (i ∷ []), refl)

-- Sector `n` of the volume: from the buffer that holds it, else from the device.
unfoldable pub seen : (ℕ → Sector) → List Buffer → ℕ → Sector
unfolding find_buffer
seen d bs n = elim (find_buffer bs n) [
  | none ↦ d n
  | some i ↦ (at bs i).contents (n - (at bs i).sector)
]

pub covers_lem :
    (b : Buffer) (s : ℕ)
    → covers b s ≡ true
    → (b.valid ≡ true) × (b.sector ≤ s) × (s < b.sector + b.count)
covers_lem b s h = ground arith

-- A good buffer that covers a sector starts at a multiple of its size before it.
pub covers-base :
    (blocks : ℕ) (d : ℕ → Sector) (b : Buffer) (s : ℕ)
    → IsGood blocks d b
    → covers b s ≡ true
    → b.sector ≡ s / fat_read_ahead * fat_read_ahead
covers-base blocks d b s g h =
    let (v, lo, hi) = covers_lem b s h in
    let e : b.count ≤ fat_read_ahead = omega (arith, g.2) in omega (arith, g.0)

pub seen-uncovered :
    (d : ℕ → Sector) (bs : List Buffer) (n : ℕ)
    → ((i : ℕ) → i < length bs → covers (at bs i) n ≡ false)
    → seen d bs n ≡ d n
unfolding seen find_buffer
seen-uncovered d bs n h = elim (Option-cases (find_from 0 bs n)) [
  | inl e ↦ rw (e, seen) refl
  | inr (j, e) ↦ let (x, z) = find_buffer-some bs n j e in absurd (true≢false (sym z ∙ h j x))
]

module _ {blocks : ℕ} {d : ℕ → Sector} {bs : List Buffer} {lru : List ℕ}
    (inv : IsCoherent blocks d bs lru) where
  pub covers_unique :
      (i j n : ℕ)
      → i < length bs
      → j < length bs
      → covers (at bs i) n ≡ true
      → covers (at bs j) n ≡ true
      → i ≡ j
  covers_unique i j n l m h k =
      let (v, x, x2) = covers_lem (at bs i) n h in
      let (w, y, y2) = covers_lem (at bs j) n k in
      inv.apart i j l m v w (
        covers-base blocks d (at bs i) n (inv.good i l v) h
        ∙ sym (covers-base blocks d (at bs j) n (inv.good j m w) k))

  pub seen-covered :
      (i n : ℕ)
      → i < length bs
      → covers (at bs i) n ≡ true
      → seen d bs n ≡ (at bs i).contents (n - (at bs i).sector)
  unfolding seen find_buffer
  seen-covered i n l h = elim (Option-cases (find_from 0 bs n)) [
    | inl e ↦ absurd (true≢false (sym h ∙ find_from-none 0 bs n e i l))
    | inr (j, e) ↦
        let (x, z) = find_buffer-some bs n j e in
        rw (e, seen)
          (ap (λ k. (at bs k).contents (n - (at bs k).sector)) (covers_unique j i n x l z h))
  ]

-- Another device shows the same through the buffers, where it differs in covered sectors only.
pub seen-device :
    (d d' : ℕ → Sector) (bs : List Buffer) (n : ℕ)
    → (((i : ℕ) → i < length bs → covers (at bs i) n ≡ false) → d' n ≡ d n)
    → seen d' bs n ≡ seen d bs n
unfolding seen find_buffer
seen-device d d' bs n h = elim (Option-cases (find_from 0 bs n)) [
  | inl e ↦ rw (e, seen) (h (find_from-none 0 bs n e))
  | inr (j, e) ↦ rw (e, seen) refl
]
