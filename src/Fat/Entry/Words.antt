-- ===== src/Fat/Entry/Words.antt =====
-- A written entry of FAT32 (fd32/modules/fat/alloc.c) is read back, and its four reserved bits are kept.
use free_dos.Common.{
  ℕ, ◌+◌, ◌*◌, ◌/◌, ◌%◌, ◌^◌, ◌≤◌, ◌<◌, ◌≡◌, refl, ◌⊎◌, inl, inr, ◌==◌, if◌then◌else◌, arith, ◌≢◌,
  ◌∙◌, ap, subst,
}
use free_dos.Common.Errno.{ok, err, ◌>>=◌, ◌>>◌}
use free_dos.Fat.{fat_eoc}
use free_dos.Fat.Entry.{Buffers, Layout, locate, read_value, fat32_seek, fat32_read, fat32_write}
use free_dos.Fat.Entry.Laws.{BufferLaws}
use free_dos.Fat.Entry.RoundTrip.{Reads}

-- FAT_EOC is stored as 0xFFFFFFF.
abbrev coded_32 : ℕ → ℕ
coded_32 value = (if value == fat_eoc then 0xFFF_FFFF else value) % 2 ^ 28

coded_32_lem :
    (value : ℕ)
    → (value < 0xFFF_FFF8) ⊎ (value ≡ fat_eoc)
    → read_value 0xFFF_FFF8 (coded_32 value) ≡ value
coded_32_lem value h = ground arith

module _ {S : Type 0} (b : Buffers S) (v : Layout) (laws : BufferLaws b) where
  open laws use {
    IsSound, Holds, seen, read_sound, read_keeps, read_answers, byte_seen, put_holds, put_there,
    put_elsewhere, dirty_sound, dirty_keeps, dirty_answers, is_byte,
  }

  module _ (n k : ℕ) (h : n ≤ v.data_clusters + 1) where
    abbrev sector : ℕ
    sector = (locate v k (n * 4 % 2 ^ 32)).0

    abbrev offset : ℕ
    offset = (locate v k (n * 4 % 2 ^ 32)).1

    found_32 : fat32_seek v n k ≡ ok (sector, offset)
    unfolding fat32_seek
    found_32 = ground arith

    -- Byte `i` of the entry.
    abbrev part : S → ℕ → ℕ
    part s i = seen s sector (offset + i)

    abbrev word : S → ℕ
    word s =
        seen s sector offset
        + part s 1 * 2 ^ 8
        + (part s 2 + seen s sector (offset + 2 + 1) * 2 ^ 8) * 2 ^ 16

    read_32 :
        (s : S) → IsSound s → Reads (read_value 0xFFF_FFF8 (word s % 2 ^ 28)) (fat32_read b v n k s)
    unfolding fat32_read
    read_32 s w =
        let q = (b.fat_readbuf sector s).1 in
        elim (read_answers s sector w) [
          | inr (e, r, ne) ↦ inr (e, rw (found_32, fat32_read) (rw (r, ◌>>◌, ◌>>=◌) refl), ne)
          | inl (r, held) ↦
              let same = λ (o : ℕ). byte_seen q sector o held ∙ read_keeps s sector sector o w in
              inl (
                rw (found_32, fat32_read)
                  (rw (r, ◌>>◌, ◌>>=◌)
                    (rw (same offset, same (offset + 1), same (offset + 2), same (offset + 2 + 1))
                      refl)))
        ]

    abbrev stored : ℕ → S → S
    stored x s = b.put sector (offset + 3) (b.byte s sector (offset + 3) / 16 * 16 + x / 2 ^ 24) (
        b.put sector (offset + 2) (x / 2 ^ 16 % 2 ^ 8)
          (b.put sector (offset + 1) (x / 2 ^ 8 % 2 ^ 8) (b.put sector offset (x % 2 ^ 8) s)))

    write_32 :
        (value : ℕ) (s : S)
        → IsSound s
        → let q = (b.fat_readbuf sector s).1 in
          ((fat32_write b v n k value s ≡ b.fat_dirtybuf sector (stored (coded_32 value) q))
            × Holds sector q)
          ⊎ ((e : ℕ) × ((fat32_write b v n k value s).0 ≡ err e))
    unfolding fat32_write
    write_32 value s w = elim (read_answers s sector w) [
      | inl (r, held) ↦ inl (rw (found_32, fat32_write) (rw (r, ◌>>◌, ◌>>=◌) refl), held)
      | inr (e, r, ne) ↦ inr (e, rw (found_32, fat32_write) (rw (r, ◌>>◌, ◌>>=◌) refl))
    ]

    stored_32 :
        (x : ℕ) (s : S)
        → x < 2 ^ 28
        → Holds sector s
        → let t = (b.fat_dirtybuf sector (stored x s)).1 in
          IsSound t × (word t % 2 ^ 28 ≡ x) × (part t 3 / 16 ≡ part s 3 / 16)
    stored_32 x s c held =
        let t = (b.fat_dirtybuf sector (stored x s)).1 in
        let p0 = b.put sector offset (x % 2 ^ 8) s in
        let p1 = b.put sector (offset + 1) (x / 2 ^ 8 % 2 ^ 8) p0 in
        let p2 = b.put sector (offset + 2) (x / 2 ^ 16 % 2 ^ 8) p1 in
        let top = b.byte s sector (offset + 3) / 16 * 16 + x / 2 ^ 24 in
        let h0 : Holds sector p0 = put_holds s sector offset (x % 2 ^ 8) held in
        let h1 : Holds sector p1 = put_holds p0 sector (offset + 1) (x / 2 ^ 8 % 2 ^ 8) h0 in
        let h2 : Holds sector p2 = put_holds p1 sector (offset + 2) (x / 2 ^ 16 % 2 ^ 8) h1 in
        let h3 : Holds sector (stored x s) = put_holds p2 sector (offset + 3) top h2 in
        let later = λ (o : ℕ) (d : o ≢ offset + 3).
          dirty_keeps (stored x s) sector sector o h3
          ∙ put_elsewhere p2 sector (offset + 3) top sector o h2 (inr d) in
        let same : offset + 2 + 1 ≡ offset + 3 = omega arith in
        let b0 : seen t sector offset ≡ x % 2 ^ 8 =
          later offset (omega arith)
          ∙ put_elsewhere p1 sector (offset + 2) (x / 2 ^ 16 % 2 ^ 8) sector offset h1
              (inr (omega arith))
          ∙ put_elsewhere p0 sector (offset + 1) (x / 2 ^ 8 % 2 ^ 8) sector offset h0
              (inr (omega arith))
          ∙ put_there s sector offset (x % 2 ^ 8) held
          ∙ omega arith in
        let b1 : part t 1 ≡ x / 2 ^ 8 % 2 ^ 8 =
          later (offset + 1) (omega arith)
          ∙ put_elsewhere p1 sector (offset + 2) (x / 2 ^ 16 % 2 ^ 8) sector (offset + 1) h1
              (inr (omega arith))
          ∙ put_there p0 sector (offset + 1) (x / 2 ^ 8 % 2 ^ 8) h0
          ∙ omega arith in
        let b2 : part t 2 ≡ x / 2 ^ 16 % 2 ^ 8 =
          later (offset + 2) (omega arith)
          ∙ put_there p1 sector (offset + 2) (x / 2 ^ 16 % 2 ^ 8) h1
          ∙ omega arith in
        let old : b.byte s sector (offset + 3) ≡ part s 3 = byte_seen s sector (offset + 3) held in
        let b3 : part t 3 ≡ top =
          dirty_keeps (stored x s) sector sector (offset + 3) h3
          ∙ put_there p2 sector (offset + 3) top h2
          ∙ omega (arith, old, is_byte s sector (offset + 3)) in
        let b3' : seen t sector (offset + 2 + 1) ≡ top = ap (seen t sector) same ∙ b3 in
        (dirty_sound (stored x s) sector h3, omega (arith, b0, b1, b2, b3'), omega (arith, b3, old))

  -- For buffers as in BufferLaws, a sound state of them, a cluster of the volume, and a value below
  -- 0xFFFFFF8 or FAT_EOC: where fat32_write reports no error, the state after it is sound (the buffer that
  -- was changed is marked), fat32_read of the same entry gives that value there, or reports an error;
  -- and a reader of the volume sees the four highest bits of the entry as they were.
  pub fat32_read-fat32_write :
      (n k value : ℕ) (s : S)
      → n ≤ v.data_clusters + 1
      → IsSound s
      → (value < 0xFFF_FFF8) ⊎ (value ≡ fat_eoc)
      → (fat32_write b v n k value s).0 ≡ ok tt
      → let t = (fat32_write b v n k value s).1 in
        let p = locate v k (n * 4 % 2 ^ 32) in
        IsSound t
        × Reads value (fat32_read b v n k t)
        × (seen t (p.0) (p.1 + 3) / 16 ≡ seen s (p.0) (p.1 + 3) / 16)
  fat32_read-fat32_write n k value s h w range done =
      let x : ℕ = coded_32 value in
      let q = (b.fat_readbuf (sector n k h) s).1 in
      let t = (b.fat_dirtybuf (sector n k h) (stored n k h x q)).1 in
      elim (write_32 n k h value s w) [
        | inr (e, f) ↦ absurd (cc (done, f))
        | inl (f, held) ↦
            let (sound, back, top) = stored_32 n k h x q (omega arith) held in
            rw f (
              sound,
              subst (λ y. Reads y (fat32_read b v n k t))
                  (ap (read_value 0xFFF_FFF8) back ∙ coded_32_lem value range)
                  (read_32 n k h t sound),
              top
                  ∙ ap (λ y. y / 16)
                      (read_keeps s (sector n k h) (sector n k h) (offset n k h + 3) w),
            )
      ]
