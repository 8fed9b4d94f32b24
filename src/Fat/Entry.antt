-- ===== src/Fat/Entry.antt =====
-- fd32/modules/fat/alloc.c: the entries of FAT12, FAT16 and FAT32 in the sectors of a volume: the functions
-- behind `fat_read` and `fat_write`.
pub mod Laws
pub mod Places
pub mod Table
pub mod RoundTrip
pub mod Words
pub mod Tests
use free_dos.Common.{ℕ, ◌+◌, ◌-◌, ◌*◌, ◌/◌, ◌%◌, ◌^◌, ◌==◌, if◌then◌else◌, ltb, leb, ◌&&◌, Bool}
use free_dos.Common.Errno.{Res, ok, err, M, ◌>>=◌, ◌>>◌, return, enxio}
use free_dos.Common.Word.{add32}
use free_dos.Fat.{fat_eoc}

-- fat_readbuf and fat_dirtybuf (fd32/modules/fat/volume.c) over the buffers, and the bytes of a sector
-- that is buffered: a buffer is named by its sector.
pub record Buffers (S : Type 0) : Type 0 where
  pub fat_readbuf : ℕ → M S (Unit {0})
  pub fat_dirtybuf : ℕ → M S (Unit {0})
  pub byte : S → ℕ → ℕ → ℕ
  pub put : ℕ → ℕ → ℕ → S → S

-- struct Volume, the fields of the seek functions.
pub record Layout : Type 0 where
  pub data_clusters : ℕ
  pub fat_size : ℕ
  pub fat_start : ℕ
  pub log_bytes_per_sector : ℕ

-- The sector of a byte offset into copy `fat_num` of the FAT, and the offset in that sector.
abbrev pub locate : Layout → ℕ → ℕ → ℕ × ℕ
locate v fat_num offset = (
  add32 ((fat_num * v.fat_size + v.fat_start) % 2 ^ 32) (offset / 2 ^ v.log_bytes_per_sector),
  offset % 2 ^ v.log_bytes_per_sector,
)

pub fat12_seek : Layout → ℕ → ℕ → Res (ℕ × ℕ)
fat12_seek v n fat_num =
    if ltb (v.data_clusters + 1) n then err enxio else ok (locate v fat_num (add32 n (n / 2)))

unfoldable pub fat16_seek : Layout → ℕ → ℕ → Res (ℕ × ℕ)
fat16_seek v n fat_num =
    if ltb (v.data_clusters + 1) n then err enxio else ok (locate v fat_num (n * 2 % 2 ^ 32))

pub fat32_seek : Layout → ℕ → ℕ → Res (ℕ × ℕ)
fat32_seek v n fat_num =
    if ltb (v.data_clusters + 1) n then err enxio else ok (locate v fat_num (n * 4 % 2 ^ 32))

-- IS_FAT12_EOC and its like: the value as it is handed out.
abbrev pub read_value : ℕ → ℕ → ℕ
read_value first_eoc c = if leb first_eoc c then fat_eoc else c

-- The entry of cluster `n` in the two bytes that hold it.
abbrev pub entry12 : ℕ → ℕ → ℕ → ℕ
entry12 n lsb msb = if n % 2 == 1 then (lsb + msb * 256) / 16 else (lsb + msb * 256) % 2 ^ 12

-- The two bytes with the entry of cluster `n` put over them.
abbrev pub put12_lsb : ℕ → ℕ → ℕ → ℕ
put12_lsb n value lsb = if n % 2 == 1 then lsb % 16 + value * 16 % 256 else value % 2 ^ 12 % 256

abbrev pub put12_msb : ℕ → ℕ → ℕ → ℕ
put12_msb n value msb =
    if n % 2 == 1 then value * 16 / 256 % 256 else msb / 16 * 16 + value % 2 ^ 12 / 256 % 256

module _ {S : Type 0} (b : Buffers S) (v : Layout) where
  abbrev word16 : S → ℕ → ℕ → ℕ
  word16 s sector o = b.byte s sector o + b.byte s sector (o + 1) * 2 ^ 8

  abbrev word32 : S → ℕ → ℕ → ℕ
  word32 s sector o = word16 s sector o + word16 s sector (o + 2) * 2 ^ 16

  -- The sector and the offset of the byte behind one in a sector: where the entry spans across two
  -- sectors it is the first byte of the next one.
  abbrev pub next_byte : ℕ → ℕ → ℕ × ℕ
  next_byte sector o =
      if ltb o (2 ^ v.log_bytes_per_sector - 1) then (sector, o + 1) else (sector + 1, 0)

  abbrev pub spans : ℕ → Bool
  spans o = leb (2 ^ v.log_bytes_per_sector - 1) o

  -- What is done for the byte behind one at offset `o` where it lies in the next sector.
  abbrev pub where_spans : ℕ → M S (Unit {0}) → M S (Unit {0})
  where_spans o m = if spans o then m else return tt

  pub fat12_read : ℕ → ℕ → M S ℕ
  fat12_read n fat_num s = elim (fat12_seek v n fat_num) [
    | err e ↦ (err e, s)
    | ok p ↦
        let q = next_byte (p.0) (p.1) in
        (do
          b.fat_readbuf (p.0)
          where_spans (p.1) (b.fat_readbuf (q.0))
          λ s. (ok (read_value 0xFF8 (entry12 n (b.byte s (p.0) (p.1)) (b.byte s (q.0) (q.1)))), s))
          s
  ]

  unfoldable pub fat16_read : ℕ → ℕ → M S ℕ
  fat16_read n fat_num s = elim (fat16_seek v n fat_num) [
    | err e ↦ (err e, s)
    | ok p ↦ (do b.fat_readbuf (p.0); λ s. (ok (read_value 0xFFF8 (word16 s (p.0) (p.1))), s)) s
  ]

  pub fat32_read : ℕ → ℕ → M S ℕ
  fat32_read n fat_num s = elim (fat32_seek v n fat_num) [
    | err e ↦ (err e, s)
    | ok p ↦
        (do
          b.fat_readbuf (p.0)
          λ s. (ok (read_value 0xFFF_FFF8 (word32 s (p.0) (p.1) % 2 ^ 28)), s))
          s
  ]

  pub fat12_write : ℕ → ℕ → ℕ → M S (Unit {0})
  fat12_write n fat_num value s = elim (fat12_seek v n fat_num) [
    | err e ↦ (err e, s)
    | ok p ↦
        let q = next_byte (p.0) (p.1) in
        let x = if value == fat_eoc then 0xFFF else value in
        (do
          b.fat_readbuf (p.0)
          where_spans (p.1) (b.fat_readbuf (q.0))
          λ s.
              let t = b.put (p.0) (p.1) (put12_lsb n x (b.byte s (p.0) (p.1))) s in
              (do b.fat_dirtybuf (p.0); where_spans (p.1) (b.fat_dirtybuf (q.0)))
                (b.put (q.0) (q.1) (put12_msb n x (b.byte t (q.0) (q.1))) t))
          s
  ]

  unfoldable pub fat16_write : ℕ → ℕ → ℕ → M S (Unit {0})
  fat16_write n fat_num value s = elim (fat16_seek v n fat_num) [
    | err e ↦ (err e, s)
    | ok p ↦
        let x = if value == fat_eoc then 0xFFFF else value in
        (do
          b.fat_readbuf (p.0)
          λ s.
              b.fat_dirtybuf (p.0)
                (b.put (p.0) (p.1 + 1) (x / 2 ^ 8 % 2 ^ 8) (b.put (p.0) (p.1) (x % 2 ^ 8) s)))
          s
  ]

  -- The four highest bits of the entry are kept.
  pub fat32_write : ℕ → ℕ → ℕ → M S (Unit {0})
  fat32_write n fat_num value s = elim (fat32_seek v n fat_num) [
    | err e ↦ (err e, s)
    | ok p ↦
        let x = (if value == fat_eoc then 0xFFF_FFFF else value) % 2 ^ 28 in
        (do
          b.fat_readbuf (p.0)
          λ s. b.fat_dirtybuf (p.0) (
              b.put (p.0) (p.1 + 3) (b.byte s (p.0) (p.1 + 3) / 16 * 16 + x / 2 ^ 24) (
                b.put (p.0) (p.1 + 2) (x / 2 ^ 16 % 2 ^ 8)
                  (b.put (p.0) (p.1 + 1) (x / 2 ^ 8 % 2 ^ 8) (b.put (p.0) (p.1) (x % 2 ^ 8) s)))))
          s
  ]
