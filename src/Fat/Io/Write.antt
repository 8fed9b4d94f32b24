-- ===== src/Fat/Io/Write.antt =====
-- Writing, truncating and the attributes of fd32/modules/fat/file.c.
use free_dos.Common.{
  ℕ, zero, suc, ◌+◌, ◌-◌, ◌*◌, ◌/◌, ◌%◌, Bool, true, not, ◌&&◌, ◌||◌, Option, none, some, ltb, leb,
  ◌==◌, if◌then◌else◌, List, [], ◌∷◌, length, take, drop, replicate,
}
use free_dos.Common.Errno.{ok, err, M, ◌>>=◌, ◌>>◌, return, ebadf, efbig, enospc}
use free_dos.Fat.{FatOps, fat_get_file_sector, fat_append_cluster}
use free_dos.Fat.Io.{
  DataOps, Handle, bytes_per_sector, on_open, on_store, set_store, up_to, rest_of_sector,
}

abbrev pub write_count : {S : Type 0} → ℕ → ℕ → Handle S → ℕ
write_count todo offset h = up_to todo (rest_of_sector offset h)

-- The file grows with what is written behind its end.
abbrev pub grow_file : {S : Type 0} → ℕ → Handle S → Handle S
grow_file end h =
    if not h.is_directory && leb h.file_size end then record h { file_size = end } else h

-- The limits of a file: UINT32_MAX bytes, and UINT16_MAX entries of 32 bytes for a directory.
abbrev pub too_big : {S : Type 0} → ℕ → Handle S → Bool
too_big end h = if h.is_directory then ltb (65535 * 32) end else ltb 4294967295 end

-- What a write asks for beyond what a read does: fat_dirtybuf (with write_through) and fat_sync of
-- fd32/modules/fat/volume.c, and a byte stored in a sector that is buffered.
pub record WriteOps (S : Type 0) : Type 0 where
  pub reads : DataOps S
  pub fat_dirtybuf : ℕ → Bool → M S (Unit {0})
  pub fat_sync : M S (Unit {0})
  pub put : ℕ → ℕ → ℕ → S → S

module _ {S : Type 0} (ops : FatOps S) (b : WriteOps S) where
  abbrev pub put_bytes : ℕ → ℕ → List ℕ → S → S
  put_bytes sector offset [] s = s
  put_bytes sector offset (x ∷ rest) s =
      put_bytes sector (suc offset) rest (b.put sector offset x s)

  -- The part of a write in one sector: `bytes` are copied to it, and the buffer is marked.
  pub write_part : ℕ → ℕ → List ℕ → M (Handle S) (Unit {0})
  write_part sector offset bytes h =
      (on_store (b.reads.fat_readbuf sector) >>= λ u p.
      on_store (b.fat_dirtybuf sector p.o_sync)
        (set_store (put_bytes sector (offset % bytes_per_sector p) bytes p.o.v.store) p))
        (grow_file (offset + length bytes) h)

  -- The loop of fat_do_write, on fuel: `k` bytes are written, `bytes` are left. A cluster is appended where
  -- the file has none for `offset`. `none`: the fuel ran out.
  pub write_loop : ℕ → ℕ → List ℕ → ℕ → M (Handle S) (Option ℕ)
  unfolding fat_get_file_sector fat_append_cluster write_part
  write_loop zero k bytes offset h = (ok none, h)
  write_loop (suc fuel) k bytes offset h =
      let rest = write_loop fuel in
      if length bytes == 0
      then (ok (some k), h)
      else (on_open (fat_get_file_sector ops (offset / bytes_per_sector h)) >>= λ found p.
            elim found [
              | none ↦
                  let r = on_open (fat_append_cluster ops) p in
                  elim (r.0) [
                    | err e ↦
                        if e == enospc && not (k == 0) then (ok (some k), r.1) else (err e, r.1)
                    | ok cluster ↦ rest k bytes offset (r.1)
                  ]
              | some sector ↦
                  let n = write_count (length bytes) offset p in
                  (write_part sector offset (take n bytes)
                      >> rest (k + n) (drop n bytes) (offset + n))
                    p
            ])
          h

  abbrev pub modified : Handle S → Handle S
  modified h =
      let t = b.reads.now h.o.v.store in
      record h {
        mod_date = t.0;
        mod_time = t.1;
        acc_date = t.0;
        is_archive = true;
        o = record h.o { f = record h.o.f { de_changed = true } };
      }

  abbrev pub stamped : Handle S → Handle S
  stamped h = if h.is_directory then h else modified h

  -- `if (c->flags & O_SYNC)`.
  abbrev pub sync_if_asked : M (Handle S) (Unit {0})
  sync_if_asked h = if h.o_sync then on_store b.fat_sync h else (ok tt, h)

  abbrev pub write_done : Option ℕ → M (Handle S) (Option ℕ)
  write_done none p = (ok none, p)
  write_done (some k) p = (sync_if_asked >> return (some k)) (stamped p)

  -- For a null pointer the bytes are zeroes.
  pub fat_do_write : ℕ → List ℕ → ℕ → M (Handle S) (Option ℕ)
  unfolding write_loop
  fat_do_write fuel bytes offset h =
      if length bytes == 0
      then (ok (some 0), h)
      else if too_big (offset + length bytes) h
      then (err efbig, h)
      else (write_loop fuel 0 bytes offset >>= write_done) h

  abbrev pub to_end : Handle S → Handle S
  to_end h = if h.o_append then record h { file_pointer = h.file_size } else h

  -- The bytes themselves, behind `padding` bytes: what is returned counts both.
  pub write_bytes : ℕ → ℕ → List ℕ → M (Handle S) (Option ℕ)
  unfolding fat_do_write
  write_bytes fuel padding bytes h =
      (fat_do_write fuel bytes h.file_pointer >>= λ res p. elim res [
        | none ↦ (ok none, p)
        | some k ↦ (ok (some (padding + k)), record p { file_pointer = p.file_pointer + k })
      ])
        h

  -- Zeroes up to the file pointer first, where it is behind the end of the file.
  pub pad_and_write : ℕ → List ℕ → M (Handle S) (Option ℕ)
  unfolding fat_do_write write_bytes
  pad_and_write fuel bytes h =
      let gap = h.file_pointer - h.file_size in
      if ltb h.file_size h.file_pointer
      then (fat_do_write fuel (replicate gap 0) h.file_size >>= λ res p. elim res [
        | none ↦ (ok none, p)
        | some k ↦ if ltb k gap then (ok (some k), p) else write_bytes fuel k bytes p
      ])
          h
      else write_bytes fuel 0 bytes h

  -- The tests for null pointers and the magic number are not modelled.
  pub fat_write : ℕ → List ℕ → M (Handle S) (Option ℕ)
  unfolding pad_and_write
  fat_write fuel bytes h =
      if not h.is_writeable || h.is_directory
      then (err ebadf, h)
      else if length bytes == 0
      then (ok (some 0), h)
      else pad_and_write fuel bytes (to_end h)
