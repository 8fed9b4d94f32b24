-- ===== src/Fat/Io/Disk.antt =====
-- The data of a FAT16 volume in the buffers: fat_readbuf over sound states of them, for fat_read of
-- fd32/modules/fat/file.c.
use free_dos.Common.{ℕ, ◌+◌, ◌≤◌, ◌<◌, ◌≡◌, ◌⊎◌, inl, inr, ap, ◌∙◌, arith}
use free_dos.Common.Errno.{ok, M}
use free_dos.Fat.Entry.{Buffers, Layout, fat16_read}
use free_dos.Fat.Entry.Laws.{BufferLaws}
use free_dos.Fat.Entry.Places.{HasRoom}
use free_dos.Fat.Entry.RoundTrip.{sector_16, offset_16, fat16_read_lem}
use free_dos.Fat.Entry.Table.{Sound, fat16-laws, sound_read, entry-same, seen-entry, beyond_read}
use free_dos.Fat.Io.{DataOps}
use free_dos.Fat.Io.Sector.{DataLaws}

module _ {S : Type 0} (b : Buffers S) (v : Layout) (laws : BufferLaws b) where
  open laws use {IsSound, seen, read_sound, read_keeps, read_answers, byte_seen}

  unfoldable pub sound_readbuf : ℕ → M (Sound b v laws) (Unit {0})
  sound_readbuf sector (s, w) =
      let r = b.fat_readbuf sector s in (r.0, (r.1, read_sound s sector w))

  -- The time is not asked for.
  abbrev pub sound_data : DataOps (Sound b v laws)
  sound_data = record { fat_readbuf = sound_readbuf; byte = λ p. b.byte (p.0); now = λ p. (0, 0) }

  read_seen :
      (n k : ℕ) (s : S) → IsSound s → (a i : ℕ) → seen ((fat16_read b v n k s).1) a i ≡ seen s a i
  read_seen n k s w a i =
      let range : (n ≤ v.data_clusters + 1) ⊎ (v.data_clusters + 1 < n) = omega arith in
      elim range [
        | inl h ↦ (fat16_read_lem b v laws n k h s w).1 a i
        | inr h ↦ ap (λ r. seen (r.1) a i) (beyond_read b v laws n k s h)
      ]

  buffer_byte :
      (s : S) (w : IsSound s) (sector i : ℕ)
      → (b.fat_readbuf sector s).0 ≡ ok tt
      → b.byte ((b.fat_readbuf sector s).1) sector i ≡ seen s sector i
  buffer_byte s w sector i e = elim (read_answers s sector w) [
    | inl (r, held) ↦
        byte_seen ((b.fat_readbuf sector s).1) sector i held ∙ read_keeps s sector sector i w
    | inr (x, r, ne) ↦ absurd (cc (e, r))
  ]

  -- For buffers as in BufferLaws and a layout with room for its copies.
  pub sound_data-laws :
      (copies : ℕ) (fits : HasRoom v copies) → DataLaws sound_data (fat16-laws b v laws copies fits)
  unfolding fat16-laws sound_read sound_readbuf
  sound_data-laws copies fits = record {
    seen = λ p. seen (p.0);
    fat_read_seen = λ p k n a i. read_seen n k (p.0) (p.1) a i;
    readbuf_seen = λ p sector a i. read_keeps (p.0) sector a i (p.1);
    readbuf_byte = λ p sector i e. buffer_byte (p.0) (p.1) sector i e;
    readbuf_entries = λ p sector k n.
        let t = (b.fat_readbuf sector (p.0)).1 in
        let at = sector_16 b v laws k n in
        let o = offset_16 b v laws k n in
        entry-same b v laws copies fits (p.0) t k n (λ l h.
          seen-entry b v laws copies fits (p.0) t k n (read_keeps (p.0) sector at o (p.1))
            (read_keeps (p.0) sector at (o + 1) (p.1)));
  }
