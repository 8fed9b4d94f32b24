-- ===== src/Fat/Tests.antt =====
-- A FAT16 volume on a device in memory, read and written through the buffers of
-- fd32/modules/fat/volume.c, and runs of fd32/modules/fat/alloc.c on it.
use free_dos.Common.{
  ℕ, ◌<◌, ◌≡◌, refl, ◌⊎◌, inl, ◌==◌, if◌then◌else◌, false, ◌||◌, ◌*◌, ◌%◌, ◌+◌, [], ◌∷◌, none, some,
  get_elem?, arith,
}
use free_dos.Common.Errno.{ok, err}
use free_dos.Fat.{
  FatOps, Volume, Open, fat_fsi_na, read_fat_entry, write_copies, write_fat_entry,
  fat_get_file_sector, fat_append_cluster, fat_delete_clusters, fat_delete_file_clusters,
  sector_address,
}
use free_dos.Fat.Cache.{
  Sector, Cache, find_from, find_buffer, flush_buffer, load, refill, fat_readbuf, fat_dirtybuf,
}
use free_dos.Fat.Cache.View.{seen}
use free_dos.Fat.Cache.Tests.{ram, ram-laws, cold}
use free_dos.Fat.Cache.Entries.{cached, cached-laws}
use free_dos.Fat.Entry.{Layout, fat16_seek, fat16_read, fat16_write}
use free_dos.Fat.Entry.Places.{HasRoom}
use free_dos.Fat.Entry.Table.{Sound, fat16_ops, fat16-laws, sound_read, sound_write}
use free_dos.Fat.Entry.Tests.{cold-IsWell}
use free_dos.Fat.Chain.{Linked}
use free_dos.Fat.Laws.{FatLaws, IsVolume, fat_entry}
use free_dos.Fat.Seek.{IsFile, Unmoved, fat_get_file_sector_lem}
use free_dos.Fat.Delete.{Deleted, fat_delete_clusters_lem}
use free_dos.Fat.Append.{fat_append_cluster_lem, Appended}
use free_dos.Fat.Truncate.{Trimmed, delete_file_clusters_tail}

-- Sectors of 16 bytes; four data clusters: 2, 3, 4 and 5.
abbrev pub layout : Layout
layout = record { data_clusters = 4; fat_size = 1; fat_start = 1; log_bytes_per_sector = 4 }

pub layout-HasRoom : HasRoom layout 2
layout-HasRoom = record { entries_fit = omega arith; copies_fit = omega arith; few = omega arith }

-- Sectors 1 and 2 are the copies of the FAT: 2 → 4 → end; 3 and 5 are free.
abbrev pub fat_disk : ℕ → Sector
fat_disk n o =
    if n == 1 || n == 2
    then (if o == 4 then 4 else if o == 8 || o == 9 then 0xFF else 0)
    else (16 * n + o) % 256

abbrev pub store : Cache (ℕ → Sector)
store = record cold { blk = fat_disk; log_bytes_per_sector = 4 }

abbrev pub Disk : Type 0
Disk = Sound (cached ram) layout (cached-laws ram-laws)

abbrev pub disk_ops : FatOps Disk
disk_ops = fat16_ops (cached ram) layout (cached-laws ram-laws)

abbrev pub disk_laws : FatLaws disk_ops 2 4
disk_laws = fat16-laws (cached ram) layout (cached-laws ram-laws) 2 layout-HasRoom

pub store-IsSound : (cached-laws ram-laws).IsSound store
unfolding cached-laws
store-IsSound = cold-IsWell fat_disk

abbrev disk : Disk
disk = (store, store-IsSound)

abbrev volume : Volume Disk
volume = record {
  store = disk;
  num_fats = 2;
  active_fat = 0;
  log_sectors_per_cluster = 1;
  root_sector = 0;
  root_size = 0;
  data_start = 10;
  data_clusters = 4;
  free_clusters = 2;
  next_free = fat_fsi_na;
  fsinfo_changed = false;
}

abbrev pub channel : ℕ → ℕ → Open Disk
channel i n = record {
  v = volume;
  f = record {
    de_sector = 7;
    first_cluster = 2;
    de_first_cluster_hi = 0;
    de_first_cluster_lo = 2;
    de_changed = false;
  };
  c = record { cluster_index = i; cluster = n };
}

volume-IsVolume : IsVolume 2 4 volume
volume-IsVolume = record {
  copies_of = refl;
  active = omega arith;
  clusters_of = refl;
  few = omega arith;
}

abbrev Chain : Type 0
Chain = Linked 4 (fat_entry disk_ops disk_laws volume) 2 (4 ∷ [])

volume-Linked : Chain
unfolding fat16-laws cached-laws ram-laws seen find_buffer find_from
volume-Linked = (refl, omega arith, omega arith, refl)

pub channel-IsFile : (i n : ℕ) → IsFile disk_ops disk_laws (channel i n) 2 (4 ∷ [])
channel-IsFile i n = record {
  volume = volume-IsVolume;
  first = refl;
  low = omega arith;
  high = omega arith;
  linked = volume-Linked;
}

fat_get_file_sector_example :
    let r = fat_get_file_sector disk_ops 3 (channel 0 0) in
    Unmoved disk_ops disk_laws (channel 0 0) (r.1)
    × (get_elem? (2 ∷ 4 ∷ []) r.1.c.cluster_index ≡ some r.1.c.cluster)
    × (((r.0 ≡ ok (some (sector_address volume r.1.c.cluster 1))) × (r.1.c.cluster_index ≡ 1))
        ⊎ ((r.0 ≡ ok none) × (r.1.c.cluster_index ≡ 1) × (1 < 1))
        ⊎ ((e : ℕ) × (r.0 ≡ err e)))
fat_get_file_sector_example =
    fat_get_file_sector_lem disk_ops disk_laws 3 2 (4 ∷ []) (channel 0 0) (channel-IsFile 0 0)
      (inl refl)

fat_delete_clusters_example :
    Deleted disk_ops disk_laws (2 ∷ 4 ∷ []) volume (fat_delete_clusters disk_ops 2 2 volume)
fat_delete_clusters_example =
    fat_delete_clusters_lem disk_ops disk_laws 2 2 (4 ∷ []) volume volume-IsVolume (omega arith)
      volume-Linked (omega arith)

fat_append_cluster_example :
    Appended disk_ops disk_laws 2 (4 ∷ []) (channel 1 4) (fat_append_cluster disk_ops (channel 1 4))
    ⊎ ((e : ℕ) × ((fat_append_cluster disk_ops (channel 1 4)).0 ≡ err e))
fat_append_cluster_example =
    fat_append_cluster_lem disk_ops disk_laws 2 (4 ∷ []) (channel 1 4) (channel-IsFile 1 4) refl

delete_file_clusters_tail_example :
    let r = fat_delete_file_clusters disk_ops 1 2 (channel 0 0) in
    Trimmed disk_ops disk_laws 2 (4 ∷ []) (channel 0 0) r ⊎ ((e : ℕ) × (r.0 ≡ err e))
delete_file_clusters_tail_example =
    delete_file_clusters_tail disk_ops disk_laws 1 2 4 [] (channel 0 0) volume-IsVolume
      (omega arith) (omega arith) volume-Linked (omega arith)

-- The chain is freed in both copies, whatever the errors could be.
freed : (fat_delete_clusters disk_ops 2 2 volume).0 ≡ ok (some tt)
unfolding fat_delete_clusters read_fat_entry write_fat_entry write_copies sound_read sound_write
    fat16_read fat16_write fat16_seek fat_readbuf fat_dirtybuf refill load flush_buffer find_buffer
    find_from
freed = refl
