-- ===== src/Fat/Entry/Places.antt =====
-- The places of the entries of FAT16 in the copies of the FAT (fat16_seek of fd32/modules/fat/alloc.c).
use native.Mathlib.Nat.{mul-le-mul_left, div-lt_iff_lt-mul, div-add-mod', one-le-pow}
use free_dos.Common.{
  ℕ, ◌+◌, ◌*◌, ◌/◌, ◌%◌, ◌^◌, ◌≤◌, ◌<◌, ◌≡◌, ◌≢◌, ◌⊎◌, inl, inr, arith, ◌==◌, Bool-cases, ap,
}
use free_dos.Fat.Entry.{Layout, locate}

-- Each copy of the FAT has room for its entries, the copies lie in the first 2^32 sectors, and no number
-- of a cluster is a mark of the end.
pub record HasRoom (v : Layout) (copies : ℕ) : Type 0 where
  pub entries_fit : (v.data_clusters + 2) * 2 ≤ v.fat_size * 2 ^ v.log_bytes_per_sector
  pub copies_fit : v.fat_size * copies + v.fat_start < 2 ^ 32
  pub few : v.data_clusters + 1 < 0xFFF8

-- Two sectors of copies of `size` sectors are different, or the same sector of the same copy.
same_place :
    (size k q k' q' : ℕ)
    → q < size
    → q' < size
    → size * k + q ≡ size * k' + q'
    → (k ≡ k') × (q ≡ q')
same_place size k q k' q' h h' e =
    let apart = λ (a b : ℕ) (l : a < b). mul-le-mul_left {m = a + 1} {n = b} size (omega arith) in
    let order : (k < k') ⊎ ((k' < k) ⊎ (k ≡ k')) = omega arith in
    elim order [
      | inl l ↦
          let m : size * (k + 1) ≤ size * k' = apart k k' l in
          let x : size * (k + 1) ≡ size * k + size = ground arith in absurd (omega arith)
      | inr (inl l) ↦
          let m : size * (k' + 1) ≤ size * k = apart k' k l in
          let x : size * (k' + 1) ≡ size * k' + size = ground arith in absurd (omega arith)
      | inr (inr l) ↦ let x : size * k ≡ size * k' = ap (λ w. size * w) l in (l, omega arith)
    ]

module _ (v : Layout) (copies : ℕ) (fits : HasRoom v copies) where
  abbrev bytes : ℕ
  bytes = 2 ^ v.log_bytes_per_sector

  inside : (n : ℕ) → n ≤ v.data_clusters + 1 → n * 2 / bytes < v.fat_size
  inside n h =
      (div-lt_iff_lt-mul {k = bytes} {x = n * 2} {y = v.fat_size}
          (one-le-pow v.log_bytes_per_sector 2 (omega arith))).1
        (omega (arith, fits.entries_fit))

  place_lem :
      (k n : ℕ)
      → k < copies
      → n ≤ v.data_clusters + 1
      → ((locate v k (n * 2 % 2 ^ 32)).0 ≡ v.fat_size * k + n * 2 / bytes + v.fat_start)
        × ((locate v k (n * 2 % 2 ^ 32)).1 ≡ n * 2 % bytes)
  place_lem k n l h =
      let small : n * 2 % 2 ^ 32 ≡ n * 2 = omega (arith, fits.few) in
      let q = inside n h in
      let m : v.fat_size * (k + 1) ≤ v.fat_size * copies =
        mul-le-mul_left v.fat_size (omega arith) in
      let x : v.fat_size * (k + 1) ≡ v.fat_size * k + v.fat_size = ground arith in
      let y : k * v.fat_size ≡ v.fat_size * k = ground arith in
      (rw small (omega (arith, fits.copies_fit, q, m, x, y)), ap (λ w. w % bytes) small)

  -- Byte `i` of one entry is not byte `j` of another.
  pub places_apart :
      (k n k' n' i j : ℕ)
      → k < copies
      → k' < copies
      → n ≤ v.data_clusters + 1
      → n' ≤ v.data_clusters + 1
      → i < 2
      → j < 2
      → (k' ≢ k) ⊎ (n' ≢ n)
      → let p = locate v k (n * 2 % 2 ^ 32) in
        let p' = locate v k' (n' * 2 % 2 ^ 32) in (p'.0 ≢ p.0) ⊎ (p'.1 + j ≢ p.1 + i)
  places_apart k n k' n' i j l l' h h' a b d =
      let p = locate v k (n * 2 % 2 ^ 32) in
      let p' = locate v k' (n' * 2 % 2 ^ 32) in
      let (x, y) = place_lem k n l h in
      let (x', y') = place_lem k' n' l' h' in
      elim (Bool-cases (p'.0 == p.0)) [
        | inr ne ↦ inl (ground arith)
        | inl same ↦
            let e : p'.0 ≡ p.0 = ground arith in
            let s : v.fat_size * k' + n' * 2 / bytes ≡ v.fat_size * k + n * 2 / bytes =
              omega (arith, x, x', e) in
            let (u, w) =
              same_place v.fat_size k' (n' * 2 / bytes) k (n * 2 / bytes) (inside n' h')
                (inside n h) s in
            let t : n' * 2 / bytes * bytes ≡ n * 2 / bytes * bytes = ap (λ z. z * bytes) w in
            let f = div-add-mod' (n * 2) bytes in
            let f' = div-add-mod' (n' * 2) bytes in
            inr (λ z. elim d [ inl ne ↦ ne u | inr ne ↦ ne (omega (arith, z, y, y', t, f, f')) ])
      ]
