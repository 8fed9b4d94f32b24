-- ===== src/Fat/Entry/Tests.antt =====
-- Entries of fd32/modules/fat/alloc.c written and read in the buffers of fd32/modules/fat/volume.c, over a
-- device in memory.
use free_dos.Common.{
  ℕ, ◌+◌, ◌*◌, ◌/◌, ◌%◌, ◌^◌, ◌≡◌, refl, inl, inr, arith, zero, suc, true, [], ◌∷◌,
}
use free_dos.Common.Errno.{ok}
use free_dos.Fat.{fat_eoc}
use free_dos.Fat.Cache.{
  Sector, buffer_at, find_from, find_buffer, flush_buffer, load, refill, fat_readbuf, fat_dirtybuf,
}
use free_dos.Fat.Cache.Tests.{ram, ram-laws, cold}
use free_dos.Fat.Cache.Flush.{IsWell}
use free_dos.Fat.Cache.Entries.{cached, cached-laws}
use free_dos.Fat.Entry.{
  Layout, locate, fat12_seek, fat16_seek, fat32_seek, fat12_read, fat12_write, fat16_read,
  fat16_write, fat32_read, fat32_write,
}
use free_dos.Fat.Entry.Places.{HasRoom}
use free_dos.Fat.Entry.Table.{entry, fat16_write_keeps}
use free_dos.Fat.Entry.RoundTrip.{Reads, fat16_read-fat16_write}
use free_dos.Fat.Entry.Words.{fat32_read-fat32_write}

-- Sectors of 512 bytes, of which the device has 20.
abbrev layout : Layout
layout = record { data_clusters = 1000; fat_size = 4; fat_start = 1; log_bytes_per_sector = 9 }

-- No sector is buffered, whatever the device holds.
invalid : (d : ℕ → Sector) (i : ℕ) → ¬ ((buffer_at (record cold { blk = d }) i).valid ≡ true)
invalid d zero h = cc
invalid d (suc zero) h = cc
invalid d (suc (suc i)) h = cc

pub cold-IsWell : (d : ℕ → Sector) → IsWell ram-laws (record cold { blk = d })
unfolding ram-laws
cold-IsWell d = record {
  good = λ i l v. absurd (invalid d i v);
  apart = λ i j l m v w e. absurd (invalid d i v);
  places = (omega arith, (omega arith, tt));
  some_place = (0, 1 ∷ [], refl);
}

-- The entry 341 of FAT12 spans across two sectors.
done_12 :
    let t = (fat12_write (cached ram) layout 341 1 0x123 cold).1 in
    ((fat12_write (cached ram) layout 341 1 0x123 cold).0 ≡ ok tt)
    × ((fat12_read (cached ram) layout 341 1 t).0 ≡ ok 0x123)
unfolding fat12_write fat12_read fat12_seek fat_readbuf fat_dirtybuf refill load flush_buffer
    find_buffer find_from
done_12 = (refl, refl)

done_16 : (fat16_write (cached ram) layout 300 1 fat_eoc cold).0 ≡ ok tt
unfolding fat16_write fat16_seek fat_readbuf fat_dirtybuf refill load flush_buffer find_buffer
    find_from
done_16 = refl

done_32 : (fat32_write (cached ram) layout 200 0 0x12345 cold).0 ≡ ok tt
unfolding fat32_write fat32_seek fat_readbuf fat_dirtybuf refill load flush_buffer find_buffer
    find_from
done_32 = refl

abbrev cold_well : IsWell ram-laws cold
cold_well = cold-IsWell cold.blk

fat16_read-fat16_write_example :
    let t = (fat16_write (cached ram) layout 300 1 fat_eoc cold).1 in
    IsWell ram-laws t × Reads fat_eoc (fat16_read (cached ram) layout 300 1 t)
unfolding cached-laws
fat16_read-fat16_write_example =
    fat16_read-fat16_write (cached ram) layout (cached-laws ram-laws) 300 1 fat_eoc cold
      (omega arith) cold_well (inr refl) done_16

fat32_read-fat32_write_example :
    let t = (fat32_write (cached ram) layout 200 0 0x12345 cold).1 in
    let p = locate layout 0 (200 * 4 % 2 ^ 32) in
    let laws = cached-laws ram-laws in
    IsWell ram-laws t
    × Reads 0x12345 (fat32_read (cached ram) layout 200 0 t)
    × (laws.seen t (p.0) (p.1 + 3) / 16 ≡ laws.seen cold (p.0) (p.1 + 3) / 16)
unfolding cached-laws
fat32_read-fat32_write_example =
    fat32_read-fat32_write (cached ram) layout (cached-laws ram-laws) 200 0 0x12345 cold
      (omega arith) cold_well (inl (omega arith)) done_32

layout-HasRoom : HasRoom layout 2
layout-HasRoom = record { entries_fit = omega arith; copies_fit = omega arith; few = omega arith }

fat16_write_keeps_example :
    let laws = cached-laws ram-laws in
    entry
      (cached ram)
      layout
      laws
      2
      layout-HasRoom
      ((fat16_write (cached ram) layout 300 1 fat_eoc cold).1)
      0
      300
    ≡ entry (cached ram) layout laws 2 layout-HasRoom cold 0 300
unfolding cached-laws
fat16_write_keeps_example =
    fat16_write_keeps (cached ram) layout (cached-laws ram-laws) 2 layout-HasRoom cold cold_well 1
      300 fat_eoc 0 300 (omega arith) (inl (omega arith))
