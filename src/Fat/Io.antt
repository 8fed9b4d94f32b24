-- ===== src/Fat/Io.antt =====
-- fd32/modules/fat/file.c: reading, writing and seeking in open files, over the clusters of a file and the
-- sector buffers.
pub mod Bytes
pub mod Sector
pub mod Part
pub mod Read
pub mod Disk
pub mod Write
pub mod Tests
use free_dos.Common.{
  ℕ, zero, suc, ◌+◌, ◌-◌, ◌*◌, ◌/◌, ◌%◌, ◌^◌, Bool, true, false, not, ◌&&◌, ◌||◌, Option, none,
  some, ltb, leb, ◌==◌, if◌then◌else◌, List, [], ◌∷◌, ◌++◌, length, drop,
}
use free_dos.Common.Int.{ℤ, pos, negsuc}
use free_dos.Common.Errno.{
  Res, ok, err, M, ◌>>=◌, ◌>>◌, return, fail, ebadf, einval, eio, efbig, enospc,
}
use free_dos.Fat.{
  FatOps, Volume, File, Channel, Open, fat_get_file_sector, fat_append_cluster,
  fat_delete_file_clusters,
}

-- What a read asks for: fat_readbuf of fd32/modules/fat/volume.c, over the buffers; a byte of a buffered
-- sector; and the date and time of fat_timestamps.
pub record DataOps (S : Type 0) : Type 0 where
  pub fat_readbuf : ℕ → M S (Unit {0})
  pub byte : S → ℕ → ℕ → ℕ
  pub now : S → ℕ × ℕ

-- An open channel with its file and volume: the fields of struct Channel, of its directory entry and
-- of struct Volume that file.c uses. The flags are those of `flags` and `attr`.
pub record Handle (S : Type 0) : Type 0 where
  pub o : Open S
  pub log_bytes_per_sector : ℕ
  pub file_pointer : ℕ
  pub is_readable : Bool
  pub is_writeable : Bool
  pub o_append : Bool
  pub o_sync : Bool
  pub o_noatime : Bool
  pub is_directory : Bool
  pub is_archive : Bool
  pub file_size : ℕ
  pub acc_date : ℕ
  pub mod_date : ℕ
  pub mod_time : ℕ

pub data Whence : Type 0 where
  seek_set : Whence
  seek_cur : Whence
  seek_end : Whence
  seek_other : Whence

abbrev pub bytes_per_sector : {S : Type 0} → Handle S → ℕ
bytes_per_sector h = 2 ^ h.log_bytes_per_sector

-- A call on the channel and its clusters, and one on the buffers.
abbrev pub on_open : {S A : Type 0} → M (Open S) A → M (Handle S) A
on_open m h = let r = m h.o in (r.0, record h { o = r.1 })

abbrev pub set_store : {S : Type 0} → S → Handle S → Handle S
set_store s h = record h { o = record h.o { v = record h.o.v { store = s } } }

abbrev pub on_store : {S A : Type 0} → M S A → M (Handle S) A
on_store m h = let r = m h.o.v.store in (r.0, set_store (r.1) h)

abbrev pub update : {T : Type 0} → (T → T) → M T (Unit {0})
update g t = (ok tt, g t)

-- `f 0`, `f 1`, ... from `from` on, `n` of them.
abbrev pub bytes_from : (ℕ → ℕ) → ℕ → ℕ → List ℕ
bytes_from f from zero = []
bytes_from f from (suc n) = f from ∷ bytes_from f (suc from) n

-- SEEK_SET, SEEK_CUR and SEEK_END; the last one not for directories.
abbrev pub plus : ℤ → ℕ → ℤ
plus (pos a) n = pos (a + n)
plus (negsuc a) n = if ltb a n then pos (n - suc a) else negsuc (a - n)

abbrev pub seek_to : {S : Type 0} → Whence → ℤ → Handle S → ℤ
seek_to seek_set offset h = offset
seek_to seek_cur offset h = plus offset h.file_pointer
seek_to seek_end offset h = if h.is_directory then negsuc (einval - 1) else plus offset h.file_size
seek_to seek_other offset h = negsuc (einval - 1)

pub fat_lseek : {S : Type 0} → ℤ → Whence → M (Handle S) ℕ
fat_lseek offset whence h = elim (seek_to whence offset h) [
  | pos n ↦ (ok n, record h { file_pointer = n })
  | negsuc n ↦ (err einval, h)
]

-- What is read or written in one sector: up to its end, and no more than `todo` bytes; a read of a
-- regular file stops at the end of the file.
abbrev pub up_to : ℕ → ℕ → ℕ
up_to todo count = if ltb todo count then todo else count

abbrev pub rest_of_sector : {S : Type 0} → ℕ → Handle S → ℕ
rest_of_sector offset h = bytes_per_sector h - offset % bytes_per_sector h

abbrev pub read_count : {S : Type 0} → ℕ → ℕ → Handle S → ℕ
read_count todo offset h = up_to todo (
    if not h.is_directory && leb h.file_size (offset + rest_of_sector offset h)
    then h.file_size - offset
    else rest_of_sector offset h)

abbrev pub at_eof : {S : Type 0} → ℕ → Handle S → Bool
at_eof offset h = not h.is_directory && leb h.file_size offset

module _ {S : Type 0} (ops : FatOps S) (b : DataOps S) where
  abbrev pub in_sector : ℕ → ℕ → ℕ → Handle S → List ℕ
  in_sector sector offset n h =
      bytes_from (b.byte h.o.v.store sector) (offset % bytes_per_sector h) n

  abbrev pub put_in_front : List ℕ → Option (List ℕ) → Option (List ℕ)
  put_in_front bytes none = none
  put_in_front bytes (some more) = some (bytes ++ more)

  -- The part of a read in one sector, with `rest` for what is behind it.
  pub read_part :
      (ℕ → ℕ → M (Handle S) (Option (List ℕ))) → ℕ → ℕ → ℕ → M (Handle S) (Option (List ℕ))
  read_part rest todo offset sector = on_store (b.fat_readbuf sector) >>= λ u q.
      let n = read_count todo offset q in
      (rest (todo - n) (offset + n) >>= λ more.
      return (put_in_front (in_sector sector offset n q) more))
        q

  -- The loop of fat_read, on fuel, from `offset` on, `todo` bytes (`size - k`): the bytes that it copies.
  -- `none`: the fuel ran out.
  pub read_loop : ℕ → ℕ → ℕ → M (Handle S) (Option (List ℕ))
  unfolding fat_get_file_sector read_part
  read_loop zero todo offset h = (ok none, h)
  read_loop (suc fuel) todo offset h =
      let rest = read_loop fuel in
      if todo == 0 || at_eof offset h
      then (ok (some []), h)
      else (on_open (fat_get_file_sector ops (offset / bytes_per_sector h)) >>= λ found p.
            elim found [
              | none ↦ (ok (some []), p)
              | some sector ↦ read_part rest todo offset sector p
            ])
          h

  abbrev pub accessed : Handle S → Handle S
  accessed h =
      if not h.o_noatime && not h.is_directory
      then record h {
        acc_date = (b.now h.o.v.store).0;
        o = record h.o { f = record h.o.f { de_changed = true } };
      }
      else h

  abbrev pub read_done : Handle S → Option (List ℕ) → Handle S → Res (Option (List ℕ)) × Handle S
  read_done h none p = (ok none, p)
  read_done h (some bytes) p =
      (ok (some bytes), record (accessed p) { file_pointer = h.file_pointer + length bytes })

  pub read_on : ℕ → ℕ → M (Handle S) (Option (List ℕ))
  unfolding read_loop
  read_on fuel size h = (read_loop fuel size h.file_pointer >>= read_done h) h

  -- The tests for null pointers and the magic number are not modelled.
  pub fat_read : ℕ → ℕ → M (Handle S) (Option (List ℕ))
  unfolding read_on
  fat_read fuel size h = if not h.is_readable then (err ebadf, h) else read_on fuel size h
