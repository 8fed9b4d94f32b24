-- ===== src/Fat/Io/Tests.antt =====
-- Runs of fd32/modules/fat/file.c on a FAT16 volume on a device in memory, with sectors of 16 bytes.
use free_dos.Common.{◌≡◌, refl, inl, true, false, [], ◌∷◌, some, arith}
use free_dos.Common.Int.{negsuc}
use free_dos.Common.Errno.{ok}
use free_dos.Fat.{fat_get_file_sector, seek_loop, read_fat_entry}
use free_dos.Fat.Tests.{Disk, disk_ops, disk_laws, layout, layout-HasRoom, channel, channel-IsFile}
use free_dos.Fat.Cache.{find_from, find_buffer, flush_buffer, load, refill, fat_readbuf}
use free_dos.Fat.Cache.Tests.{ram, ram-laws}
use free_dos.Fat.Cache.Entries.{cached, cached-laws}
use free_dos.Fat.Entry.{fat16_seek, fat16_read}
use free_dos.Fat.Entry.Table.{sound_read}
use free_dos.Fat.Io.Disk.{sound_readbuf, sound_data, sound_data-laws}
use free_dos.Fat.Io.{DataOps, Handle, fat_read, fat_lseek, seek_end, read_on, read_loop, read_part}
use free_dos.Fat.Io.Sector.{DataLaws}
use free_dos.Fat.Io.Read.{ReadDone, fat_read_lem}

abbrev disk_data : DataOps Disk
disk_data = sound_data (cached ram) layout (cached-laws ram-laws)

abbrev data_laws : DataLaws disk_data disk_laws
data_laws = sound_data-laws (cached ram) layout (cached-laws ram-laws) 2 layout-HasRoom

-- 52 bytes in clusters 2 and 4, each of two sectors; the file pointer stands in the second sector.
abbrev handle : Handle Disk
handle = record {
  o = channel 0 0;
  log_bytes_per_sector = 4;
  file_pointer = 28;
  is_readable = true;
  is_writeable = false;
  o_append = false;
  o_sync = false;
  o_noatime = true;
  is_directory = false;
  is_archive = false;
  file_size = 52;
  acc_date = 0;
  mod_date = 0;
  mod_time = 0;
}

-- The last four bytes of sector 11, and two of sector 14.
test_read :
    (fat_read disk_ops disk_data 7 6 handle).0 ≡ ok (some (188 ∷ 189 ∷ 190 ∷ 191 ∷ 224 ∷ 225 ∷ []))
unfolding fat_read read_on read_loop read_part fat_get_file_sector seek_loop read_fat_entry
    sound_read sound_readbuf fat16_read fat16_seek fat_readbuf refill load flush_buffer find_buffer
    find_from
test_read = refl

test_seek : (fat_lseek (negsuc 2) seek_end handle).0 ≡ ok 49
unfolding fat_lseek
test_seek = refl

fat_read_lem_example :
    ReadDone disk_ops disk_data disk_laws data_laws 6 2
      (4 ∷ [])
      handle
      (fat_read disk_ops disk_data 7 6 handle)
fat_read_lem_example =
    fat_read_lem disk_ops disk_data disk_laws data_laws 7 6 2 (4 ∷ []) handle (omega arith)
      (channel-IsFile 0 0) (inl refl) refl refl (λ n l. omega arith)
