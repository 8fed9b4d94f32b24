-- ===== src/Fat/Cache/Tests.antt =====
-- Runs of the sector buffers on a small device in memory, with the laws of that device.
use Prim.Native.Nat.{min}
use free_dos.Common.{
  true≢false, ℕ, zero, suc, ◌+◌, ◌-◌, ◌*◌, ◌≤◌, ◌<◌, ◌≡◌, refl, ◌⊎◌, ap, sym, ◌∙◌, subst, true,
  false, ◌&&◌, ltb, leb, if◌then◌else◌, [], ◌∷◌, arith, none,
}
use free_dos.Common.Errno.{Res, ok, err, eio}
use free_dos.Fat.Cache.{
  Sector, BlockDev, Cache, blank, fat_readbuf, fat_dirtybuf, sync_loop, buffer_at, find_from,
  find_buffer, load, refill, flush_buffer,
}
use free_dos.Fat.Cache.View.{DevLaws, IsGood}
use free_dos.Fat.Cache.Flush.{IsWell, Keeps, view}
use free_dos.Fat.Cache.Read.{Reads, fat_readbuf-Reads}
use free_dos.Fat.Cache.Dirty.{Dirties, fat_dirtybuf-Dirties}
use free_dos.Fat.Cache.Sync.{sync_loop_lem}

-- 20 sectors in memory.
abbrev pub blocks : ℕ
blocks = 20

abbrev stored : (ℕ → Sector) → ℕ → ℕ → (ℕ → Sector) → ℕ → Sector
stored contents count from d n =
    if leb from n && ltb n (from + count) then contents (n - from) else d n

abbrev pub ram : BlockDev (ℕ → Sector)
ram = record {
  fat_blockdev_read = λ count from d. (ok (min count (blocks - from), λ i. d (from + i)), d);
  fat_blockdev_write = λ contents count from d. (ok count, stored contents count from d);
}

pub stored-inside :
    (contents : ℕ → Sector) (count from : ℕ) (d : ℕ → Sector) (i : ℕ)
    → i < count
    → stored contents count from d (from + i) ≡ contents i
stored-inside contents count from d i h =
    let e : (leb from (from + i) && ltb (from + i) (from + count)) ≡ true = ground arith in
    rw e (ap contents (omega arith))

pub stored-outside :
    (contents : ℕ → Sector) (count from : ℕ) (d : ℕ → Sector) (n : ℕ)
    → (n < from) ⊎ (from + count ≤ n)
    → stored contents count from d n ≡ d n
stored-outside contents count from d n h =
    let e : (leb from n && ltb n (from + count)) ≡ false = ground arith in rw e refl

abbrev or_else : {A : Type 0} → A → Res A → A
or_else a (ok b) = b
or_else a (err e) = a

unfoldable pub ram-laws : DevLaws ram blocks
ram-laws = record {
  disk = λ d. d;
  read_keeps = λ d count from n. refl;
  read_answers = λ d count from k contents e.
      let h = ap (or_else (0, λ i. d i)) e in
      (sym (ap (λ p. p.0) h), λ i l. ap (λ p. p.1 i) (sym h));
  write_keeps = λ d contents count from n h. stored-outside contents count from d n h;
  write_stores = λ d contents count from i e h. stored-inside contents count from d i h;
}

-- Byte `o` of sector `n` of the device.
abbrev pattern_of : ℕ → Sector
pattern_of n o = n * 512 + o

-- No sector is buffered.
abbrev pub cold : Cache (ℕ → Sector)
cold = record {
  blk = pattern_of;
  log_bytes_per_sector = 9;
  buffers = blank ∷ (blank ∷ []);
  buffers_lru = 0 ∷ (1 ∷ []);
  buf_access = 0;
  buf_miss = 0;
  buf_hit = 0;
}

-- Sectors 8 to 15 are in the first buffer, which was changed.
abbrev warm : Cache (ℕ → Sector)
warm = record cold {
  buffers =
      record { sector = 8; count = 8; valid = true; dirty = true; contents = λ i o. 7 }
      ∷ (blank ∷ []);
}

warm-valid : (i : ℕ) → (buffer_at warm i).valid ≡ true → i ≡ 0
warm-valid zero h = refl
warm-valid (suc zero) h = cc
warm-valid (suc (suc i)) h = cc

first-IsGood : IsGood blocks pattern_of (buffer_at warm 0)
first-IsGood = (refl, omega arith, refl, λ e. absurd (true≢false e))

warm-IsWell : IsWell ram-laws warm
unfolding ram-laws
warm-IsWell = record {
  good = λ i l v.
      subst (λ j. IsGood blocks pattern_of (buffer_at warm j)) (sym (warm-valid i v)) first-IsGood;
  apart = λ i j l m v w e. warm-valid i v ∙ sym (warm-valid j w);
  places = (omega arith, (omega arith, tt));
  some_place = (0, 1 ∷ [], refl);
}

-- The first read misses and loads sectors 16 to 19; the second finds them.
abbrev one_read : Res (ℕ × ℕ) × Cache (ℕ → Sector)
one_read = fat_readbuf ram 17 none warm

test_miss : (one_read.0 ≡ ok (0, 512)) × (one_read.1.buf_miss ≡ 1)
unfolding fat_readbuf refill load flush_buffer find_buffer find_from
test_miss = (refl, refl)

abbrev two_reads : Res (ℕ × ℕ) × Cache (ℕ → Sector)
two_reads = fat_readbuf ram 19 none (one_read.1)

test_hit : (two_reads.0 ≡ ok (0, 1536)) × (two_reads.1.buf_hit ≡ 1)
unfolding fat_readbuf refill load flush_buffer find_buffer find_from
test_hit = (refl, refl)

test_past_the_end : (fat_readbuf ram 20 none warm).0 ≡ err eio
unfolding fat_readbuf refill load flush_buffer find_buffer find_from
test_past_the_end = refl

fat_readbuf-Reads_example : Reads ram-laws 17 warm one_read
fat_readbuf-Reads_example = fat_readbuf-Reads ram-laws 17 none warm warm-IsWell (λ i e. cc)

fat_dirtybuf-Dirties_example :
    Dirties ram-laws 0
      (λ i o. 7)
      warm
      warm-IsWell
      (omega arith)
      refl
      (fat_dirtybuf ram 0 true (record warm {
        buffers = record (buffer_at warm 0) { contents = λ i o. 7 } ∷ (blank ∷ []);
      }))
fat_dirtybuf-Dirties_example =
    fat_dirtybuf-Dirties ram-laws 0 (λ i o. 7) warm warm-IsWell (omega arith) refl true

sync_loop_lem_example :
    let r = sync_loop ram 2 0 warm in
    Keeps ram-laws warm r.1
    × (((r.0 ≡ ok tt) × ((n : ℕ) → ram-laws.disk r.1.blk n ≡ view ram-laws warm n))
        ⊎ (r.0 ≡ err eio))
sync_loop_lem_example = sync_loop_lem ram-laws warm warm-IsWell
