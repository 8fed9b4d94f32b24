-- ===== src/Fat/Io/Read.antt =====
-- fat_read of fd32/modules/fat/file.c.
use Prim.Native.Nat.{min}
use free_dos.Common.{
  ℕ, zero, suc, ◌+◌, ◌-◌, ◌/◌, ◌^◌, ◌<◌, ◌≡◌, refl, sym, ◌∙◌, ap, subst, List, ◌∷◌, length, arith,
  true, false, not, ◌&&◌, ◌||◌, ◌==◌, if◌then◌else◌, Option, some, ◌⊎◌, inl, inr, Bool-cases,
}
use free_dos.Common.Errno.{ebadf, Res, ok, err, ◌>>=◌}
use free_dos.Fat.{FatOps, Volume}
use free_dos.Fat.Laws.{FatLaws}
use free_dos.Fat.Seek.{IsFile, IsCached}
use free_dos.Fat.Io.{
  DataOps, Handle, bytes_per_sector, bytes_from, at_eof, read_loop, read_on, fat_read, accessed,
}
use free_dos.Fat.Io.Bytes.{length-bytes_from}
use free_dos.Fat.Io.Sector.{
  DataLaws, Fits, Reads, Keeps-refl, file_byte, Keeps, get_sector, get_sector-SectorOf,
}
use free_dos.Fat.Io.Part.{read_part-Reads, file_byte-Keeps}

module _ {S : Type 0} (ops : FatOps S) (b : DataOps S) {copies dc : ℕ}
    (laws : FatLaws ops copies dc) (data_laws : DataLaws b laws) where
  open data_laws use {seen}

  Fits-Keeps :
      (x : ℕ) (xs : List ℕ) (h q : Handle S)
      → Keeps ops seen laws x xs h q
      → Fits (x ∷ xs) h
      → Fits (x ∷ xs) q
  Fits-Keeps x xs h q k fits m l =
      let size_same : q.file_size ≡ h.file_size = ap (λ (w : Handle S). w.file_size) k.same in
      let bytes : bytes_per_sector q ≡ bytes_per_sector h =
        ap (λ (w : Handle S). bytes_per_sector w) k.same in
      let sectors : q.o.v.log_sectors_per_cluster ≡ h.o.v.log_sectors_per_cluster =
        ap (λ (w : Volume S). w.log_sectors_per_cluster) k.volume_same in
      subst (λ d. m / d / 2 ^ q.o.v.log_sectors_per_cluster < length (x ∷ xs)) (sym bytes)
        (subst (λ j. m / bytes_per_sector h / 2 ^ j < length (x ∷ xs)) (sym sectors)
          (fits m (omega arith)))

  nothing_left :
      (todo offset : ℕ) (h : Handle S)
      → h.is_directory ≡ false
      → (todo == 0 || at_eof offset h) ≡ true
      → 0 ≡ min todo (h.file_size - offset)
  nothing_left todo offset h regular e = ground arith

  something_left :
      (todo offset : ℕ) (h : Handle S)
      → h.is_directory ≡ false
      → (todo == 0 || at_eof offset h) ≡ false
      → (0 < todo) × (offset < h.file_size)
  something_left todo offset h regular e = ground arith

  read_loop_lem :
      (fuel todo offset x : ℕ) (xs : List ℕ) (h : Handle S)
      → todo < fuel
      → IsFile ops laws h.o x xs
      → IsCached ops laws h.o.c (x ∷ xs)
      → h.is_directory ≡ false
      → Fits (x ∷ xs) h
      → Reads ops seen laws offset todo x xs h (read_loop ops b fuel todo offset h)
  unfolding read_loop
  read_loop_lem zero todo offset x xs h l file cached regular fits = absurd (omega arith)
  read_loop_lem (suc fuel) todo offset x xs h l file cached regular fits =
      elim (Bool-cases (todo == 0 || at_eof offset h)) [
        | inl e ↦
            rw (e, read_loop)
              (
                Keeps-refl ops seen laws x xs h file cached,
                inl (
                    ap (λ j. ok (some (bytes_from (file_byte seen h (x ∷ xs)) offset j)))
                      (nothing_left todo offset h regular e)),
              )
        | inr e ↦
            let (k, out) = get_sector-SectorOf ops b laws data_laws offset x xs h file cached in
            let p = (get_sector ops seen laws offset h).1 in
            elim out [
              | inr (inr (y, r)) ↦ rw (e, r, read_loop, ◌>>=◌) (k, inr (y, refl))
              | inr (inl (r, far)) ↦ absurd (
                  let (u, v) = something_left todo offset h regular e in
                  let f = fits offset v in omega arith)
              | inl (c, at, r) ↦
                  let (u, v) = something_left todo offset h regular e in
                  rw (e, r, read_loop, ◌>>=◌)
                    (read_part-Reads ops b laws data_laws (read_loop ops b fuel) offset todo x c xs
                      h p k regular u v at
                      (λ n q lo hi kq.
                        read_loop_lem fuel (todo - n) (offset + n) x xs q (omega arith) kq.file
                          kq.cached (ap (λ (w : Handle S). w.is_directory) kq.same ∙ regular)
                          (Fits-Keeps x xs h q kq fits)))
            ]
      ]

  accessed-file_byte :
      (chain : List ℕ) (p : Handle S) (fp n : ℕ)
      → file_byte seen (record (accessed ops b p) { file_pointer = fp }) chain n
        ≡ file_byte seen p chain n
  accessed-file_byte chain p fp n = elim (Bool-cases (not p.o_noatime && not p.is_directory)) [
    | inl e ↦ rw e refl
    | inr e ↦ rw e refl
  ]

  abbrev pub ReadDone : ℕ → ℕ → List ℕ → Handle S → Res (Option (List ℕ)) × Handle S → Type 0
  ReadDone size x xs h r =
      let count = min size (h.file_size - h.file_pointer) in
      ((r.0 ≡ ok (some (bytes_from (file_byte seen h (x ∷ xs)) h.file_pointer count)))
        × (r.1.file_pointer ≡ h.file_pointer + count)
        × ((n : ℕ) → file_byte seen r.1 (x ∷ xs) n ≡ file_byte seen h (x ∷ xs) n))
      ⊎ ((e : ℕ) × (r.0 ≡ err e) × (r.1.file_pointer ≡ h.file_pointer))

  read_on-ReadDone :
      (fuel size x : ℕ) (xs : List ℕ) (h : Handle S)
      → size < fuel
      → IsFile ops laws h.o x xs
      → IsCached ops laws h.o.c (x ∷ xs)
      → h.is_directory ≡ false
      → Fits (x ∷ xs) h
      → ReadDone size x xs h (read_on ops b fuel size h)
  unfolding read_on
  read_on-ReadDone fuel size x xs h l file cached regular fits =
      let fp = h.file_pointer in
      let count = min size (h.file_size - fp) in
      let bytes = bytes_from (file_byte seen h (x ∷ xs)) fp count in
      let p = (read_loop ops b fuel size fp h).1 in
      let (keeps, out) = read_loop_lem fuel size fp x xs h l file cached regular fits in
      elim out [
        | inl e ↦
            rw (e, read_on, ◌>>=◌)
              (inl (
                refl,
                ap (λ n. fp + n) (length-bytes_from (file_byte seen h (x ∷ xs)) fp count),
                λ n.
                    accessed-file_byte (x ∷ xs) p (fp + length bytes) n
                    ∙ file_byte-Keeps ops b laws data_laws x xs h p n keeps,
              ))
        | inr (y, e) ↦
            rw (e, read_on, ◌>>=◌) (inr (y, refl, ap (λ (w : Handle S). w.file_pointer) keeps.same))
      ]

  -- For a regular file with clusters for all its bytes, open for reading, with a cached position that is
  -- unset or right, and fuel for more bytes than are wanted: fat_read returns the bytes of the file,
  -- as a reader of the volume sees them, from the file pointer on, up to `size` of them and to the end of
  -- the file; it moves the file pointer behind them, and no byte of the file changes. Or it reports an error, and the file
  -- pointer stays.
  pub fat_read_lem :
      (fuel size x : ℕ) (xs : List ℕ) (h : Handle S)
      → size < fuel
      → IsFile ops laws h.o x xs
      → IsCached ops laws h.o.c (x ∷ xs)
      → h.is_directory ≡ false
      → h.is_readable ≡ true
      → Fits (x ∷ xs) h
      → ReadDone size x xs h (fat_read ops b fuel size h)
  unfolding fat_read
  fat_read_lem fuel size x xs h l file cached regular readable fits =
      subst (ReadDone size x xs h)
        (sym (ap (λ t. if not t then (err ebadf, h) else read_on ops b fuel size h) readable))
        (read_on-ReadDone fuel size x xs h l file cached regular fits)
