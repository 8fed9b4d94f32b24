-- ===== src/Fat/Cache.antt =====
-- fd32/modules/fat/volume.c: the sector buffers of a volume, over its block device.
pub mod Device
pub mod View
pub mod Set
pub mod Flush
pub mod Load
pub mod Read
pub mod Dirty
pub mod Sync
pub mod Changed
pub mod Entries
pub mod Tests
use free_dos.Common.{
  ℕ, zero, suc, ◌+◌, ◌-◌, ◌*◌, ◌/◌, ◌%◌, ◌^◌, Bool, true, false, ◌&&◌, not, ltb, leb, ◌==◌,
  if◌then◌else◌, List, [], ◌∷◌, ◌++◌, Option, none, some, get_elem?, get_or, set,
}
use free_dos.Common.Errno.{Res, ok, err, eio, einval}

-- FAT_READ_AHEAD: the sectors of a buffer.
abbrev pub fat_read_ahead : ℕ
fat_read_ahead = 8

-- The bytes of a sector.
abbrev pub Sector : Type 0
Sector = ℕ → ℕ

-- fat_blockdev_read and fat_blockdev_write, which call the driver of the block device: count, first
-- sector. A read gives the number of sectors read, and the sectors.
pub record BlockDev (D : Type 0) : Type 0 where
  pub fat_blockdev_read : ℕ → ℕ → D → Res (ℕ × (ℕ → Sector)) × D
  pub fat_blockdev_write : (ℕ → Sector) → ℕ → ℕ → D → Res ℕ × D

-- struct Buffer. `valid` and `dirty` are BUF_VALID and BUF_DIRTY; `contents` is `data`, by sector.
pub record Buffer : Type 0 where
  pub sector : ℕ
  pub count : ℕ
  pub valid : Bool
  pub dirty : Bool
  pub contents : ℕ → Sector

-- struct Volume, the fields of the buffers. `buffers_lru` is a list of places in `buffers`.
pub record Cache (D : Type 0) : Type 0 where
  pub blk : D
  pub log_bytes_per_sector : ℕ
  pub buffers : List Buffer
  pub buffers_lru : List ℕ
  pub buf_access : ℕ
  pub buf_miss : ℕ
  pub buf_hit : ℕ

abbrev pub blank : Buffer
blank = record { sector = 0; count = 0; valid = false; dirty = false; contents = λ i o. 0 }

abbrev pub buffer_at : {D : Type 0} → Cache D → ℕ → Buffer
buffer_at c i = get_or c.buffers i blank

abbrev pub set_buffer : {D : Type 0} → ℕ → Buffer → Cache D → Cache D
set_buffer i b c = record c { buffers = set c.buffers i b }

abbrev pub covers : Buffer → ℕ → Bool
covers b s = b.valid && (leb b.sector s && ltb s (b.sector + b.count))

-- The place of the first buffer that holds the sector; `k` is the place of the first of the list.
unfoldable pub find_from : ℕ → List Buffer → ℕ → Option ℕ
find_from k [] s = none
find_from k (b ∷ rest) s = let r = find_from (suc k) rest s in if covers b s then some k else r

unfoldable pub find_buffer : List Buffer → ℕ → Option ℕ
unfolding find_from
find_buffer bs s = find_from 0 bs s

-- list_erase.
abbrev pub erase : ℕ → List ℕ → List ℕ
erase i [] = []
erase i (j ∷ rest) = if j == i then rest else j ∷ erase i rest

-- The place to use for a sector that is not buffered: the caller's, or the least recently used.
abbrev pub victim : {D : Type 0} → Option ℕ → Cache D → ℕ
victim none c = get_or c.buffers_lru 0 0
victim (some i) c = i

-- The end of fat_readbuf: the buffer becomes the most recently used; its place, and the byte offset
-- of the sector.
abbrev pub touch : {D : Type 0} → ℕ → ℕ → Cache D → Res (ℕ × ℕ) × Cache D
touch s i c = (
  ok (i, (s - (buffer_at c i).sector) * 2 ^ c.log_bytes_per_sector),
  record c { buf_access = c.buf_access + 1; buffers_lru = erase i c.buffers_lru ++ (i ∷ []) },
)

module _ {D : Type 0} (dev : BlockDev D) where
  unfoldable pub flush_buffer : ℕ → Cache D → Res (Unit {0}) × Cache D
  flush_buffer i c =
      let b = buffer_at c i in
      let w = dev.fat_blockdev_write b.contents b.count b.sector c.blk in
      if b.valid && b.dirty
      then elim (w.0) [
        | err e ↦ (err eio, record c { blk = w.1 })
        | ok n ↦
            if n == b.count
            then (
              ok tt,
              record c { blk = w.1; buffers = set c.buffers i (record b { dirty = false }) },
            )
            else (err eio, record c { blk = w.1 })
      ]
      else (ok tt, c)

  -- A buffer that is flushed gets the sectors around `s`. On an error it is left invalid.
  unfoldable pub load : ℕ → ℕ → Cache D → Res (ℕ × ℕ) × Cache D
  load s i c =
      let base = s / fat_read_ahead * fat_read_ahead in
      let r = dev.fat_blockdev_read fat_read_ahead base c.blk in
      let b = record (buffer_at c i) { sector = base; valid = false; dirty = false } in
      elim (r.0) [
        | err e ↦ (err eio, record c { blk = r.1; buffers = set c.buffers i b })
        | ok (n, contents) ↦
            if leb (base + n) s
            then (
              err eio,
              record c { blk = r.1; buffers = set c.buffers i (record b { contents = contents }) },
            )
            else touch s i (record c {
              blk = r.1;
              buffers = set c.buffers i (record b { count = n; valid = true; contents = contents });
            })
      ]

  -- The buffer is written back, and gets the sectors around `s`.
  unfoldable pub refill : ℕ → ℕ → Cache D → Res (ℕ × ℕ) × Cache D
  unfolding load flush_buffer
  refill s i c =
      let f = flush_buffer i c in elim (f.0) [ err e ↦ (err e, f.1) | ok u ↦ load s i (f.1) ]

  -- The place of the buffer and the byte offset of the sector in it. `buffer` is `*buffer`.
  unfoldable pub fat_readbuf : ℕ → Option ℕ → Cache D → Res (ℕ × ℕ) × Cache D
  unfolding refill find_buffer
  fat_readbuf s buffer c = elim (find_buffer c.buffers s) [
    | some i ↦ touch s i (record c { buf_hit = c.buf_hit + 1 })
    | none ↦ refill s (victim buffer c) (record c { buf_miss = c.buf_miss + 1 })
  ]

  unfoldable pub fat_dirtybuf : ℕ → Bool → Cache D → Res (Unit {0}) × Cache D
  unfolding flush_buffer
  fat_dirtybuf i write_through c =
      let b = buffer_at c i in
      let d = set_buffer i (record b { dirty = true }) c in
      if b.valid then (if write_through then flush_buffer i d else (ok tt, d)) else (err einval, c)

  -- The loop of fat_sync, from the buffer `k` on, `rounds` of them.
  pub sync_loop : ℕ → ℕ → Cache D → Res (Unit {0}) × Cache D
  unfolding flush_buffer
  sync_loop zero k c = (ok tt, c)
  sync_loop (suc rounds) k c =
      let f = flush_buffer k c in
      let r = sync_loop rounds (suc k) (f.1) in elim (f.0) [ err e ↦ (err e, f.1) | ok u ↦ r ]
