-- ===== src/Fat/Entry/RoundTrip.antt =====
-- The entries of FAT16 (fd32/modules/fat/alloc.c): a written entry is read back.
use free_dos.Common.{
  ℕ, ◌+◌, ◌*◌, ◌/◌, ◌%◌, ◌^◌, ◌≤◌, ◌<◌, ◌≡◌, refl, ◌⊎◌, inl, inr, ◌==◌, if◌then◌else◌, arith, ◌≢◌,
  ◌∙◌, subst,
}
use free_dos.Common.Errno.{Res, ok, err, ◌>>=◌, ◌>>◌, enospc}
use free_dos.Fat.{fat_eoc}
use free_dos.Fat.Entry.{Buffers, Layout, locate, read_value, fat16_seek, fat16_read, fat16_write}
use free_dos.Fat.Entry.Laws.{BufferLaws}

abbrev pub Reads : {S : Type 0} → ℕ → Res ℕ × S → Type 0
Reads value r = (r.0 ≡ ok value) ⊎ ((e : ℕ) × (r.0 ≡ err e) × (e ≢ enospc))

-- FAT_EOC is stored as 0xFFFF.
abbrev pub coded_16 : ℕ → ℕ
coded_16 value = if value == fat_eoc then 0xFFFF else value

pub coded_16_lem :
    (value : ℕ)
    → (value < 0xFFF8) ⊎ (value ≡ fat_eoc)
    → read_value 0xFFF8 (coded_16 value % 2 ^ 8 + coded_16 value / 2 ^ 8 % 2 ^ 8 * 2 ^ 8) ≡ value
coded_16_lem value h = ground arith

module _ {S : Type 0} (b : Buffers S) (v : Layout) (laws : BufferLaws b) where
  open laws use {
    IsSound, Holds, seen, read_sound, read_keeps, read_answers, byte_seen, put_holds, put_there,
    put_elsewhere, dirty_sound, dirty_keeps, dirty_answers,
  }

  -- The sector and the offset of the entry of cluster `n` in copy `k`.
  abbrev pub sector_16 : ℕ → ℕ → ℕ
  sector_16 k n = (locate v k (n * 2 % 2 ^ 32)).0

  abbrev pub offset_16 : ℕ → ℕ → ℕ
  offset_16 k n = (locate v k (n * 2 % 2 ^ 32)).1

  abbrev pub entry_16 : S → ℕ → ℕ → ℕ
  entry_16 s k n =
      read_value 0xFFF8 (
        seen s (sector_16 k n) (offset_16 k n) + seen s (sector_16 k n) (offset_16 k n + 1) * 2 ^ 8)

  module _ (n k : ℕ) (h : n ≤ v.data_clusters + 1) where
    abbrev sector : ℕ
    sector = sector_16 k n

    abbrev offset : ℕ
    offset = offset_16 k n

    found_16 : fat16_seek v n k ≡ ok (sector, offset)
    unfolding fat16_seek
    found_16 = ground arith

    pub fat16_read_lem :
        (s : S)
        → IsSound s
        → let r = fat16_read b v n k s in
          IsSound r.1 × ((a o : ℕ) → seen r.1 a o ≡ seen s a o) × Reads (entry_16 s k n) r
    unfolding fat16_read
    fat16_read_lem s w =
        let q = (b.fat_readbuf sector s).1 in
        elim (read_answers s sector w) [
          | inr (e, r, ne) ↦
              rw (found_16, fat16_read)
                (rw (r, ◌>>◌, ◌>>=◌)
                  (read_sound s sector w, λ a o. read_keeps s sector a o w, inr (e, refl, ne)))
          | inl (r, held) ↦
              let low : b.byte q sector offset ≡ seen s sector offset =
                byte_seen q sector offset held ∙ read_keeps s sector sector offset w in
              let high : b.byte q sector (offset + 1) ≡ seen s sector (offset + 1) =
                byte_seen q sector (offset + 1) held ∙ read_keeps s sector sector (offset + 1) w in
              rw (found_16, fat16_read)
                (rw (r, ◌>>◌, ◌>>=◌)
                  (
                    read_sound s sector w,
                    λ a o. read_keeps s sector a o w,
                    inl (rw (low, high) refl),
                  ))
        ]

    -- What a write of the two bytes of `x` does to the state.
    abbrev pub Writes : ℕ → S → Res (Unit {0}) × S → Type 0
    Writes x s r =
        IsSound r.1
        × ((a o : ℕ) → (a ≢ sector) ⊎ ((o ≢ offset) × (o ≢ offset + 1)) → seen r.1 a o ≡ seen s a o)
        × (((r.0 ≡ ok tt)
              × (seen r.1 sector offset ≡ x % 2 ^ 8)
              × (seen r.1 sector (offset + 1) ≡ x / 2 ^ 8 % 2 ^ 8))
            ⊎ ((e : ℕ) × (r.0 ≡ err e)))

    abbrev stored : ℕ → S → S
    stored x s = b.put sector (offset + 1) (x / 2 ^ 8 % 2 ^ 8) (b.put sector offset (x % 2 ^ 8) s)

    stored-Writes :
        (x : ℕ) (s : S) → Holds sector s → Writes x s (b.fat_dirtybuf sector (stored x s))
    stored-Writes x s held =
        let s1 = b.put sector offset (x % 2 ^ 8) s in
        let high = x / 2 ^ 8 % 2 ^ 8 in
        let held1 = put_holds s sector offset (x % 2 ^ 8) held in
        let held2 = put_holds s1 sector (offset + 1) high held1 in
        let shown = λ (a o : ℕ). dirty_keeps (stored x s) sector a o held2 in
        (
          dirty_sound (stored x s) sector held2,
          λ a o d.
              shown a o
              ∙ put_elsewhere s1 sector (offset + 1) high a o held1 (ground arith)
              ∙ put_elsewhere s sector offset (x % 2 ^ 8) a o held (ground arith),
          elim (dirty_answers (stored x s) sector held2) [
            | inr e ↦ inr e
            | inl e ↦ inl (
              e,
              shown sector offset
                  ∙ put_elsewhere s1 sector (offset + 1) high sector offset held1
                      (inr (omega arith))
                  ∙ put_there s sector offset (x % 2 ^ 8) held
                  ∙ omega arith,
              shown sector (offset + 1) ∙ put_there s1 sector (offset + 1) high held1 ∙ omega arith,
            )
          ],
        )

    pub fat16_write_lem :
        (value : ℕ) (s : S) → IsSound s → Writes (coded_16 value) s (fat16_write b v n k value s)
    unfolding fat16_write
    fat16_write_lem value s w =
        let q = (b.fat_readbuf sector s).1 in
        elim (read_answers s sector w) [
          | inr (e, r, ne) ↦
              rw (found_16, fat16_write)
                (rw (r, ◌>>◌, ◌>>=◌)
                  (read_sound s sector w, λ a o d. read_keeps s sector a o w, inr (e, refl)))
          | inl (r, held) ↦
              let (x, y, z) = stored-Writes (coded_16 value) q held in
              rw (found_16, fat16_write)
                (rw (r, ◌>>◌, ◌>>=◌) (x, λ a o d. y a o d ∙ read_keeps s sector a o w, z))
        ]

    pub stored_entry_16 :
        (value : ℕ) (s : S)
        → (value < 0xFFF8) ⊎ (value ≡ fat_eoc)
        → seen s sector offset ≡ coded_16 value % 2 ^ 8
        → seen s sector (offset + 1) ≡ coded_16 value / 2 ^ 8 % 2 ^ 8
        → entry_16 s k n ≡ value
    stored_entry_16 value s range low high = rw (low, high) (coded_16_lem value range)

  -- For buffers as in BufferLaws, a sound state of them, a cluster of the volume, and a value below 0xFFF8
  -- or FAT_EOC: where fat16_write reports no error, the state after it is sound (the buffer that was
  -- changed is marked), and fat16_read of the same entry gives that value there, or reports an error.
  pub fat16_read-fat16_write :
      (n k value : ℕ) (s : S)
      → n ≤ v.data_clusters + 1
      → IsSound s
      → (value < 0xFFF8) ⊎ (value ≡ fat_eoc)
      → (fat16_write b v n k value s).0 ≡ ok tt
      → let t = (fat16_write b v n k value s).1 in IsSound t × Reads value (fat16_read b v n k t)
  fat16_read-fat16_write n k value s h w range done =
      let t = (fat16_write b v n k value s).1 in
      let (sound, keeps, out) = fat16_write_lem n k h value s w in
      elim out [
        | inr (e, f) ↦ absurd (cc (done, f))
        | inl (e, low, high) ↦ (
          sound,
          subst (λ x. Reads x (fat16_read b v n k t)) (stored_entry_16 n k h value t range low high)
              ((fat16_read_lem n k h t sound).2),
        )
      ]
