-- ===== src/Fat.antt =====
-- fd32/modules/fat/alloc.c: allocation of clusters, over the functions `fat_read` and `fat_write`
-- that a volume holds as pointers.
pub mod Laws
pub mod Search
pub mod Chain
pub mod Seek
pub mod Delete
pub mod Append
pub mod Truncate
pub mod Entry
pub mod Cache
pub mod Io
pub mod Tests
use free_dos.Common.{
  ℕ, zero, suc, ◌+◌, ◌-◌, ◌*◌, ◌/◌, ◌%◌, ◌^◌, Bool, true, ◌&&◌, ◌||◌, Option, none, some, ltb, leb,
  ◌==◌, if◌then◌else◌,
}
use free_dos.Common.Errno.{ok, err, M, ◌>>=◌, ◌>>◌, return, fail, eio, enospc, efbig}
use free_dos.Common.Word.{add32, sub32}

abbrev pub fat_eoc : ℕ
fat_eoc = 0x0FFF_FFFF

-- FAT_FSI_NA of fd32/modules/fat/ondisk.h.
abbrev pub fat_fsi_na : ℕ
fat_fsi_na = 0xFFFF_FFFF

-- `v->fat_read` and `v->fat_write`, over the state `S` of the buffers and the block device:
-- cluster number, number of the copy of the FAT, value.
pub record FatOps (S : Type 0) : Type 0 where
  pub fat_read : ℕ → ℕ → M S ℕ
  pub fat_write : ℕ → ℕ → ℕ → M S (Unit {0})

-- struct Volume, the fields that alloc.c reads or writes.
pub record Volume (S : Type 0) : Type 0 where
  pub store : S
  pub num_fats : ℕ
  pub active_fat : ℕ
  pub log_sectors_per_cluster : ℕ
  pub root_sector : ℕ
  pub root_size : ℕ
  pub data_start : ℕ
  pub data_clusters : ℕ
  pub free_clusters : ℕ
  pub next_free : ℕ
  pub fsinfo_changed : Bool

-- struct File.
pub record File : Type 0 where
  pub de_sector : ℕ
  pub first_cluster : ℕ
  pub de_first_cluster_hi : ℕ
  pub de_first_cluster_lo : ℕ
  pub de_changed : Bool

-- struct Channel: the cached cluster position.
pub record Channel : Type 0 where
  pub cluster_index : ℕ
  pub cluster : ℕ

-- A channel `c`, its file `c->f` and the volume `c->f->v`.
pub record Open (S : Type 0) : Type 0 where
  pub v : Volume S
  pub f : File
  pub c : Channel

abbrev pub modify : {T : Type 0} → (T → T) → M T (Unit {0})
modify g t = (ok tt, g t)

-- A call on the volume of the channel.
abbrev pub on_volume : {S A : Type 0} → M (Volume S) A → M (Open S) A
on_volume m o = let r = m o.v in (r.0, record o { v = r.1 })

-- `if (res != -ENOSPC) return res;`
abbrev pub unless_full : {S : Type 0} → M (Volume S) ℕ → M (Volume S) ℕ → M (Volume S) ℕ
unless_full m k v = elim ((m v).0) [
  | ok a ↦ (ok a, (m v).1)
  | err e ↦ if e == enospc then k ((m v).1) else (err e, (m v).1)
]

abbrev pub start_hint : {S : Type 0} → Volume S → ℕ
start_hint v =
    if v.next_free == fat_fsi_na || (ltb v.next_free 2 || ltb (v.data_clusters + 1) v.next_free)
    then 2
    else v.next_free

-- The cached position is of use only where it is set, and not behind the wanted one.
abbrev pub restart : {S : Type 0} → ℕ → Open S → Open S
restart index o =
    if o.c.cluster_index == 0 || ltb index o.c.cluster_index
    then record o { c = record { cluster_index = 0; cluster = o.f.first_cluster } }
    else o

abbrev pub sector_address : {S : Type 0} → Volume S → ℕ → ℕ → ℕ
sector_address v cluster in_cluster =
    add32 (add32 ((sub32 cluster 2 * 2 ^ v.log_sectors_per_cluster) % 2 ^ 32) v.data_start)
      in_cluster

abbrev pub count_down : {S : Type 0} → Volume S → Volume S
count_down v = record v { free_clusters = sub32 v.free_clusters 1; fsinfo_changed = true }

abbrev pub count_up : {S : Type 0} → Volume S → Volume S
count_up v = record v { free_clusters = add32 v.free_clusters 1; fsinfo_changed = true }

abbrev pub forget_clusters : File → File
forget_clusters f = record f {
  first_cluster = 0;
  de_first_cluster_hi = 0;
  de_first_cluster_lo = 0;
  de_changed = true;
}

module _ {S : Type 0} (ops : FatOps S) where
  pub read_fat_entry : ℕ → M (Volume S) ℕ
  read_fat_entry n v =
      let r = ops.fat_read n v.active_fat v.store in (r.0, record v { store = r.1 })

  -- The loop over the copies `k`, `k + 1`, ... of the FAT, `rounds` of them.
  pub write_copies : ℕ → ℕ → ℕ → ℕ → M S (Unit {0})
  write_copies zero k n value s = (ok tt, s)
  write_copies (suc rounds) k n value s =
      let rest = write_copies rounds (k + 1) n value in (ops.fat_write n k value >> rest) s

  pub write_fat_entry : ℕ → ℕ → M (Volume S) (Unit {0})
  unfolding write_copies
  write_fat_entry n value v =
      let r = write_copies v.num_fats 0 n value v.store in (r.0, record v { store = r.1 })

  -- `k` runs over `rounds` clusters.
  pub find_free_loop : ℕ → ℕ → M (Volume S) ℕ
  find_free_loop zero k = fail enospc
  find_free_loop (suc rounds) k =
      let rest = find_free_loop rounds (k + 1) in
      read_fat_entry k >>= λ res.
      if res == 0 then (λ v. (ok k, record v { next_free = k; fsinfo_changed = true })) else rest

  pub find_free_cluster_in_range : ℕ → ℕ → M (Volume S) ℕ
  unfolding find_free_loop
  find_free_cluster_in_range from to = find_free_loop (to - from) from

  pub find_free_cluster : M (Volume S) ℕ
  unfolding find_free_cluster_in_range
  find_free_cluster v =
      unless_full (find_free_cluster_in_range (start_hint v) (v.data_clusters + 2))
        (unless_full (find_free_cluster_in_range 2 (start_hint v))
          (λ w. (err enospc, record w { next_free = fat_fsi_na; fsinfo_changed = true })))
        v

  -- The loop of fat_get_file_sector: `rounds` is what `c->cluster_index` has to grow by. `none`: the
  -- chain ends before (the function returns 1).
  pub seek_loop : ℕ → M (Open S) (Option (Unit {0}))
  seek_loop zero o = return (some tt) o
  seek_loop (suc rounds) o =
      let rest = seek_loop rounds in
      (on_volume (read_fat_entry o.c.cluster) >>= λ nc p.
      if nc == fat_eoc
      then (ok none, p)
      else if ltb nc 2 || ltb (p.v.data_clusters + 1) nc
      then (err eio, p)
      else rest (record p { c = record { cluster_index = p.c.cluster_index + 1; cluster = nc } }))
        o

  abbrev pub to_cluster : ℕ → M (Open S) (Option (Unit {0}))
  to_cluster index o = let p = restart index o in seek_loop (index - p.c.cluster_index) p

  -- `ok (some sector)`: 0 is returned; `ok none`: 1, the sector lies behind the end of the file.
  -- `sectors_per_cluster` is 2 ^ log_sectors_per_cluster.
  pub fat_get_file_sector : ℕ → M (Open S) (Option ℕ)
  unfolding seek_loop read_fat_entry
  fat_get_file_sector index o =
      if o.f.de_sector == 0 && o.f.first_cluster == 0
      then (if leb o.v.root_size index
          then (ok none, o)
          else (ok (some (add32 index o.v.root_sector)), o))
      else if o.f.first_cluster == 0
      then (ok none, o)
      else (to_cluster (index / 2 ^ o.v.log_sectors_per_cluster) >>= λ r p. elim r [
        | none ↦ (ok none, p)
        | some u ↦ (
          ok (some (sector_address p.v p.c.cluster (index % 2 ^ p.v.log_sectors_per_cluster))),
          p,
        )
      ])
          o

  -- The file gets its first cluster, or its last cluster is linked to the new one.
  pub link_cluster : ℕ → M (Open S) (Unit {0})
  link_cluster cluster o =
      if o.f.first_cluster == 0
      then (
        ok tt,
        record o {
          f = record o.f {
            first_cluster = cluster;
            de_first_cluster_hi = cluster / 2 ^ 16 % 2 ^ 16;
            de_first_cluster_lo = cluster % 2 ^ 16;
            de_changed = true;
          };
        },
      )
      else on_volume (write_fat_entry o.c.cluster cluster) o

  pub fat_append_cluster : M (Open S) ℕ
  unfolding link_cluster
  fat_append_cluster o =
      if o.f.de_sector == 0 && o.f.first_cluster == 0
      then (err efbig, o)
      else (do
        cluster ← on_volume find_free_cluster
        link_cluster cluster
        on_volume (modify count_down)
        on_volume (write_fat_entry cluster fat_eoc)
        return cluster)
          o

  -- The do-while loop, on fuel; `none`: the fuel ran out.
  pub fat_delete_clusters : ℕ → ℕ → M (Volume S) (Option (Unit {0}))
  fat_delete_clusters zero from = return none
  fat_delete_clusters (suc fuel) from = do
    next ← read_fat_entry from
    write_fat_entry from 0
    modify count_up
    (let rest = fat_delete_clusters fuel next in if next == fat_eoc then return (some tt) else rest)

  -- `new_last_cluster` 0: all clusters are deleted. `assert` is not modelled.
  pub fat_delete_file_clusters : ℕ → ℕ → M (Open S) (Option (Unit {0}))
  unfolding fat_delete_clusters
  fat_delete_file_clusters fuel new_last_cluster o =
      if new_last_cluster == 0
      then on_volume (fat_delete_clusters fuel o.f.first_cluster)
          (record o { f = forget_clusters o.f })
      else (do
        next ← on_volume (read_fat_entry new_last_cluster)
        on_volume (write_fat_entry new_last_cluster fat_eoc)
        on_volume (fat_delete_clusters fuel next))
          o
