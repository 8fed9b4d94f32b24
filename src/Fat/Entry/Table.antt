-- ===== src/Fat/Entry/Table.antt =====
-- fat16_read and fat16_write of fd32/modules/fat/alloc.c as the functions fat_read and fat_write of a
-- volume, over sound states of the buffers, with the laws that the rest of alloc.c relies on.
use free_dos.Common.{
  ℕ, ◌+◌, ◌≤◌, ◌<◌, ◌≡◌, refl, ◌≢◌, ◌⊎◌, inl, inr, arith, ltb, leb, ◌&&◌, if◌then◌else◌, Bool-cases,
  ap, sym, ◌∙◌, true,
}
use free_dos.Common.Errno.{ok, err, M, enxio}
use free_dos.Fat.{FatOps, fat_eoc}
use free_dos.Fat.Laws.{FatLaws}
use free_dos.Fat.Entry.{Buffers, Layout, fat16_seek, fat16_read, fat16_write}
use free_dos.Fat.Entry.Laws.{BufferLaws}
use free_dos.Fat.Entry.Places.{HasRoom, places_apart}
use free_dos.Fat.Entry.RoundTrip.{
  Reads, entry_16, sector_16, offset_16, fat16_read_lem, fat16_write_lem, stored_entry_16,
}

module _ {S : Type 0} (b : Buffers S) (v : Layout) (laws : BufferLaws b) where
  open laws use {IsSound, seen}

  abbrev pub Sound : Type 0
  Sound = (s : S) × IsSound s

  pub beyond_read :
      (n k : ℕ) (s : S) → v.data_clusters + 1 < n → fat16_read b v n k s ≡ (err enxio, s)
  unfolding fat16_read fat16_seek
  beyond_read n k s h =
      let e : ltb (v.data_clusters + 1) n ≡ true = ground arith in rw (e, fat16_read) refl

  pub beyond_write :
      (n k value : ℕ) (s : S)
      → v.data_clusters + 1 < n
      → fat16_write b v n k value s ≡ (err enxio, s)
  unfolding fat16_write fat16_seek
  beyond_write n k value s h =
      let e : ltb (v.data_clusters + 1) n ≡ true = ground arith in rw (e, fat16_write) refl

  in_range : (n : ℕ) → (n ≤ v.data_clusters + 1) ⊎ (v.data_clusters + 1 < n)
  in_range n = omega arith

  pub read-IsSound : (n k : ℕ) (s : S) → IsSound s → IsSound ((fat16_read b v n k s).1)
  read-IsSound n k s w = elim (in_range n) [
    | inl h ↦ (fat16_read_lem b v laws n k h s w).0
    | inr h ↦ rw (beyond_read n k s h) w
  ]

  pub write-IsSound :
      (n k value : ℕ) (s : S) → IsSound s → IsSound ((fat16_write b v n k value s).1)
  write-IsSound n k value s w = elim (in_range n) [
    | inl h ↦ (fat16_write_lem b v laws n k h value s w).0
    | inr h ↦ rw (beyond_write n k value s h) w
  ]

  unfoldable pub sound_read : ℕ → ℕ → M Sound ℕ
  sound_read n k (s, w) = let r = fat16_read b v n k s in (r.0, (r.1, read-IsSound n k s w))

  unfoldable pub sound_write : ℕ → ℕ → ℕ → M Sound (Unit {0})
  sound_write n k value (s, w) =
      let r = fat16_write b v n k value s in (r.0, (r.1, write-IsSound n k value s w))

  abbrev pub fat16_ops : FatOps Sound
  fat16_ops = record { fat_read = sound_read; fat_write = sound_write }

  module _ (copies : ℕ) (fits : HasRoom v copies) where
    -- The entries of the copies of the FAT; nothing is asked of other numbers.
    abbrev pub entry : S → ℕ → ℕ → ℕ
    entry s k n = if ltb k copies && leb n (v.data_clusters + 1) then entry_16 b v laws s k n else 0

    pub entry-same :
        (s t : S) (k n : ℕ)
        → (k < copies → n ≤ v.data_clusters + 1 → entry_16 b v laws t k n ≡ entry_16 b v laws s k n)
        → entry t k n ≡ entry s k n
    entry-same s t k n h = elim (Bool-cases (ltb k copies && leb n (v.data_clusters + 1))) [
      | inl e ↦ rw e (h (ground arith) (ground arith))
      | inr e ↦ rw e refl
    ]

    entry-in :
        (s : S) (k n : ℕ)
        → k < copies
        → n ≤ v.data_clusters + 1
        → entry s k n ≡ entry_16 b v laws s k n
    entry-in s k n l h =
        let e : (ltb k copies && leb n (v.data_clusters + 1)) ≡ true = ground arith in rw e refl

    pub seen-entry :
        (s t : S) (k n : ℕ)
        → seen t (sector_16 b v laws k n) (offset_16 b v laws k n)
          ≡ seen s (sector_16 b v laws k n) (offset_16 b v laws k n)
        → seen t (sector_16 b v laws k n) (offset_16 b v laws k n + 1)
          ≡ seen s (sector_16 b v laws k n) (offset_16 b v laws k n + 1)
        → entry_16 b v laws t k n ≡ entry_16 b v laws s k n
    seen-entry s t k n low high = rw (low, high) refl

    pub read_keeps :
        (s : S) (w : IsSound s) (k n k' n' : ℕ)
        → entry ((fat16_read b v n k s).1) k' n' ≡ entry s k' n'
    read_keeps s w k n k' n' = elim (in_range n) [
      | inr h ↦ ap (λ r. entry (r.1) k' n') (beyond_read n k s h)
      | inl h ↦
          let (x, same, y) = fat16_read_lem b v laws n k h s w in
          let t = (fat16_read b v n k s).1 in
          entry-same s t k' n' (λ l l'.
            seen-entry s t k' n' (same (sector_16 b v laws k' n') (offset_16 b v laws k' n'))
              (same (sector_16 b v laws k' n') (offset_16 b v laws k' n' + 1)))
    ]

    -- A byte of another entry is none of those that a write changes.
    other_byte :
        (k n k' n' j : ℕ)
        → k < copies
        → k' < copies
        → n ≤ v.data_clusters + 1
        → n' ≤ v.data_clusters + 1
        → j < 2
        → (k' ≢ k) ⊎ (n' ≢ n)
        → let o = offset_16 b v laws k n in
          let o' = offset_16 b v laws k' n' in
          (sector_16 b v laws k' n' ≢ sector_16 b v laws k n) ⊎ ((o' + j ≢ o) × (o' + j ≢ o + 1))
    other_byte k n k' n' j l l' h h' c d =
        let zeroth = places_apart v copies fits k n k' n' 0 j l l' h h' (omega arith) c d in
        let first = places_apart v copies fits k n k' n' 1 j l l' h h' (omega arith) c d in
        let o = offset_16 b v laws k n in
        let e : o + 0 ≡ o = omega arith in
        elim zeroth [
          | inl x ↦ inl x
          | inr x ↦ elim first [ inl y ↦ inl y | inr y ↦ inr (λ z. x (z ∙ sym e), y) ]
        ]

    -- For buffers as in BufferLaws, a layout with room for its copies, a sound state of the buffers and one of
    -- the copies: fat16_write of an entry, whatever the number of the cluster, the value and the result, keeps
    -- every other entry of every copy.
    pub fat16_write_keeps :
        (s : S) (w : IsSound s) (k n value k' n' : ℕ)
        → k < copies
        → (k' ≢ k) ⊎ (n' ≢ n)
        → entry ((fat16_write b v n k value s).1) k' n' ≡ entry s k' n'
    fat16_write_keeps s w k n value k' n' l d = elim (in_range n) [
      | inr h ↦ ap (λ r. entry (r.1) k' n') (beyond_write n k value s h)
      | inl h ↦
          let (x, same, y) = fat16_write_lem b v laws n k h value s w in
          let t = (fat16_write b v n k value s).1 in
          let sector' = sector_16 b v laws k' n' in
          let offset' = offset_16 b v laws k' n' in
          let e : offset' + 0 ≡ offset' = omega arith in
          entry-same s t k' n' (λ l' h'.
            seen-entry s t k' n'
              (ap (seen t sector') (sym e)
                ∙ same sector' (offset' + 0) (other_byte k n k' n' 0 l l' h h' (omega arith) d)
                ∙ ap (seen s sector') e)
              (same sector' (offset' + 1) (other_byte k n k' n' 1 l l' h h' (omega arith) d)))
    ]

    pub read_answers :
        (s : S) (w : IsSound s) (k n : ℕ)
        → k < copies
        → n ≤ v.data_clusters + 1
        → Reads (entry s k n) (fat16_read b v n k s)
    read_answers s w k n l h = rw (entry-in s k n l h) ((fat16_read_lem b v laws n k h s w).2)

    pub write_answers :
        (s : S) (w : IsSound s) (k n value : ℕ)
        → k < copies
        → n ≤ v.data_clusters + 1
        → (value ≤ v.data_clusters + 1) ⊎ (value ≡ fat_eoc)
        → ((fat16_write b v n k value s).0 ≡ ok tt)
            × (entry ((fat16_write b v n k value s).1) k n ≡ value)
          ⊎ ((e : ℕ) × ((fat16_write b v n k value s).0 ≡ err e))
    write_answers s w k n value l h range =
        let t = (fat16_write b v n k value s).1 in
        let range' : (value < 0xFFF8) ⊎ (value ≡ fat_eoc) = omega (arith, fits.few, range) in
        elim ((fat16_write_lem b v laws n k h value s w).2) [
          | inr e ↦ inr e
          | inl (e, low, high) ↦
              inl (e, entry-in t k n l h ∙ stored_entry_16 b v laws n k h value t range' low high)
        ]

    -- Over buffers as in BufferLaws and a layout with room for its copies.
    unfoldable pub fat16-laws : FatLaws fat16_ops copies v.data_clusters
    unfolding sound_read sound_write
    fat16-laws = record {
      entry = λ p. entry (p.0);
      read_keeps = λ p k n k' n'. read_keeps (p.0) (p.1) k n k' n';
      read_answers = λ p k n. read_answers (p.0) (p.1) k n;
      read_range = λ p k n h. ap (λ r. r.0) (beyond_read n k (p.0) h);
      write_keeps = λ p k n value k' n'. fat16_write_keeps (p.0) (p.1) k n value k' n';
      write_answers = λ p k n value. write_answers (p.0) (p.1) k n value;
    }
