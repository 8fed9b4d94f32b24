-- ===== src/Fat/Laws.antt =====
-- What alloc.c relies on in `fat_read` and `fat_write`, and what follows for read_fat_entry and
-- write_fat_entry of fd32/modules/fat/alloc.c.
use free_dos.Common.{ℕ, zero, suc, ◌+◌, ◌≤◌, ◌<◌, ◌≡◌, refl, ◌≢◌, ◌⊎◌, inl, inr, ap, ◌∙◌, arith}
use free_dos.Common.Errno.{Res, ok, err, enospc, enxio}
use free_dos.Fat.{FatOps, Volume, fat_eoc, read_fat_entry, write_copies, write_fat_entry}

-- `entry s k n` is the entry of cluster `n` in copy `k` of the FAT. A read returns it or fails; it
-- changes no entry. A number past the last cluster is answered by -ENXIO. A write of the number of a
-- cluster, of 0 or of FAT_EOC into one of the copies stores it, or fails; it changes no other entry.
pub record FatLaws {S : Type 0} (ops : FatOps S) (copies dc : ℕ) : Type 0 where
  pub entry : S → ℕ → ℕ → ℕ
  pub read_keeps :
      (s : S) (k n : ℕ) (k' n' : ℕ) → entry ((ops.fat_read n k s).1) k' n' ≡ entry s k' n'
  pub read_answers :
      (s : S) (k n : ℕ)
      → k < copies
      → n ≤ dc + 1
      → ((ops.fat_read n k s).0 ≡ ok (entry s k n))
        ⊎ ((e : ℕ) × ((ops.fat_read n k s).0 ≡ err e) × (e ≢ enospc))
  pub read_range : (s : S) (k n : ℕ) → dc + 1 < n → (ops.fat_read n k s).0 ≡ err enxio
  pub write_keeps :
      (s : S) (k n value : ℕ) (k' n' : ℕ)
      → k < copies
      → (k' ≢ k) ⊎ (n' ≢ n)
      → entry ((ops.fat_write n k value s).1) k' n' ≡ entry s k' n'
  pub write_answers :
      (s : S) (k n value : ℕ)
      → k < copies
      → n ≤ dc + 1
      → (value ≤ dc + 1) ⊎ (value ≡ fat_eoc)
      → ((ops.fat_write n k value s).0 ≡ ok tt)
          × (entry ((ops.fat_write n k value s).1) k n ≡ value)
        ⊎ ((e : ℕ) × ((ops.fat_write n k value s).0 ≡ err e))

-- The volume has the geometry that the laws speak of. FAT_EOC is no cluster.
pub record IsVolume {S : Type 0} (copies dc : ℕ) (v : Volume S) : Type 0 where
  pub copies_of : v.num_fats ≡ copies
  pub active : v.active_fat < copies
  pub clusters_of : v.data_clusters ≡ dc
  pub few : dc + 1 < fat_eoc

pub IsVolume-same :
    {S : Type 0} (copies dc : ℕ) (v w : Volume S)
    → w ≡ record v { store = w.store }
    → IsVolume copies dc v
    → IsVolume copies dc w
IsVolume-same copies dc v w e g = record {
  copies_of = cc (ap (λ u. u.num_fats) e, g.copies_of);
  active = let h : w.active_fat ≡ v.active_fat = ap (λ u. u.active_fat) e in omega (arith, h);
  clusters_of = cc (ap (λ u. u.data_clusters) e, g.clusters_of);
  few = g.few;
}

module _ {S : Type 0} (ops : FatOps S) {copies dc : ℕ} (laws : FatLaws ops copies dc) where
  open laws use {entry, read_keeps, read_answers, write_keeps, write_answers}

  -- The entry of cluster `n` in the active copy of the FAT.
  abbrev pub fat_entry : Volume S → ℕ → ℕ
  fat_entry v n = entry v.store v.active_fat n

  pub fat_entry-same :
      (v w : Volume S)
      → w ≡ record v { store = w.store }
      → ((k n : ℕ) → entry w.store k n ≡ entry v.store k n)
      → (n : ℕ) → fat_entry w n ≡ fat_entry v n
  fat_entry-same v w same keeps n =
      let active : w.active_fat ≡ v.active_fat = ap (λ u. u.active_fat) same in
      ap (λ k. entry w.store k n) active ∙ keeps v.active_fat n

  abbrev pub Failed : {A T : Type 0} → Res A × T → Type 0
  Failed r = (e : ℕ) × (r.0 ≡ err e)

  pub read_fat_entry_lem :
      (v : Volume S) (n : ℕ)
      → IsVolume copies dc v
      → n ≤ dc + 1
      → let r = read_fat_entry ops n v in
        (r.1 ≡ record v { store = r.1.store })
        × ((k m : ℕ) → entry r.1.store k m ≡ entry v.store k m)
        × ((r.0 ≡ ok (fat_entry v n)) ⊎ ((e : ℕ) × (r.0 ≡ err e) × (e ≢ enospc)))
  unfolding read_fat_entry
  read_fat_entry_lem v n g h = (
    refl,
    λ k m. read_keeps v.store v.active_fat n k m,
    read_answers v.store v.active_fat n g.active h,
  )

  -- Copies before `k` and other clusters keep their entries.
  write_copies_keeps :
      (rounds k n value : ℕ) (s : S) (k' n' : ℕ)
      → k + rounds ≤ copies
      → (k' < k) ⊎ (n' ≢ n)
      → entry ((write_copies ops rounds k n value s).1) k' n' ≡ entry s k' n'
  unfolding write_copies
  write_copies_keeps zero k n value s k' n' b d = refl
  write_copies_keeps (suc rounds) k n value s k' n' b d = ground (
    arith,
    write_keeps s k n value k' n',
    write_copies_keeps rounds (k + 1) n value ((ops.fat_write n k value s).1) k' n',
  )

  write_copies_answers :
      (rounds k n value : ℕ) (s : S)
      → k + rounds ≤ copies
      → n ≤ dc + 1
      → (value ≤ dc + 1) ⊎ (value ≡ fat_eoc)
      → ((write_copies ops rounds k n value s).0 ≡ ok tt)
        ⊎ Failed (write_copies ops rounds k n value s)
  unfolding write_copies
  write_copies_answers zero k n value s b h val = inl refl
  write_copies_answers (suc rounds) k n value s b h val = ground (
    arith,
    write_answers s k n value,
    write_copies_answers rounds (k + 1) n value ((ops.fat_write n k value s).1),
  )

  write_copies_stores :
      (rounds k n value : ℕ) (s : S) (k' : ℕ)
      → k + rounds ≤ copies
      → n ≤ dc + 1
      → (value ≤ dc + 1) ⊎ (value ≡ fat_eoc)
      → (write_copies ops rounds k n value s).0 ≡ ok tt
      → k ≤ k'
      → k' < k + rounds
      → entry ((write_copies ops rounds k n value s).1) k' n ≡ value
  unfolding write_copies
  write_copies_stores zero k n value s k' b h val e l u = absurd (omega arith)
  write_copies_stores (suc rounds) k n value s k' b h val e l u = ground (
    arith,
    write_answers s k n value,
    write_copies_keeps rounds (k + 1) n value ((ops.fat_write n k value s).1) k' n,
    write_copies_stores rounds (k + 1) n value ((ops.fat_write n k value s).1) k',
  )

  -- For a volume of the laws' geometry, a cluster of it and a value that is the number of a cluster,
  -- 0 or FAT_EOC: write_fat_entry changes nothing but entries of that cluster; it stores the value in
  -- every copy of the FAT, or fails.
  pub write_fat_entry_lem :
      (v : Volume S) (n value : ℕ)
      → IsVolume copies dc v
      → n ≤ dc + 1
      → (value ≤ dc + 1) ⊎ (value ≡ fat_eoc)
      → let r = write_fat_entry ops n value v in
        (r.1 ≡ record v { store = r.1.store })
        × ((k m : ℕ) → m ≢ n → entry r.1.store k m ≡ entry v.store k m)
        × (((r.0 ≡ ok tt) × ((k : ℕ) → k < copies → entry r.1.store k n ≡ value)) ⊎ Failed r)
  unfolding write_fat_entry
  write_fat_entry_lem v n value g h val =
      let fits : 0 + v.num_fats ≤ copies = omega arith in
      (
        refl,
        λ k m d. write_copies_keeps v.num_fats 0 n value v.store k m fits (inr d),
        elim (write_copies_answers v.num_fats 0 n value v.store fits h val) [
          | inl e ↦ inl (
            e,
            λ k l.
                write_copies_stores v.num_fats 0 n value v.store k fits h val e (omega arith)
                  (omega arith),
          )
          | inr e ↦ inr e
        ],
      )
