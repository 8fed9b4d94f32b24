-- ===== src/Fat/Io/Part.antt =====
-- The part of fat_read in one sector; fd32/modules/fat/file.c.
use Prim.Native.Nat.{min}
use native.Mathlib.Nat.{one-le-pow, lt-div-mul-add, div-add-mod'}
use free_dos.Common.{
  ℕ, ◌+◌, ◌-◌, ◌/◌, ◌%◌, ◌^◌, ◌≤◌, ◌<◌, ◌≡◌, refl, sym, ◌∙◌, ap, List, ◌∷◌, ◌++◌, arith, false,
  Option, some, get_elem?, ◌⊎◌, inl, inr, Option-cases,
}
use free_dos.Common.Errno.{Res, Res-cases, ok, err, ◌>>=◌}
use free_dos.Fat.{FatOps, Volume, sector_address}
use free_dos.Fat.Laws.{FatLaws}
use free_dos.Fat.Io.{
  DataOps, Handle, bytes_per_sector, set_store, bytes_from, read_count, rest_of_sector, in_sector,
  read_part,
}
use free_dos.Fat.Io.Bytes.{bytes_from-append, bytes_from-same, same_sector}
use free_dos.Fat.Io.Sector.{
  DataLaws, Reads, cell, byte_at, file_byte, Keeps, Keeps-trans, read_buffer-Keeps,
}

pow2-pos : (n : ℕ) → 0 < 2 ^ n
pow2-pos n = one-le-pow n 2 (omega arith)

count_lem :
    {S : Type 0} (todo offset : ℕ) (q : Handle S)
    → q.is_directory ≡ false
    → 0 < todo
    → offset < q.file_size
    → 0 < rest_of_sector offset q
    → let n = read_count todo offset q in
      (1 ≤ n) × (n ≤ todo) × (n ≤ q.file_size - offset) × (n ≤ rest_of_sector offset q)
count_lem todo offset q regular t o r = rw regular (ground arith)

cell-same :
    {S : Type 0} (v : Volume S) (f g : ℕ → ℕ → ℕ) (chain : List ℕ) (index rem : ℕ)
    → ((a i : ℕ) → f a i ≡ g a i)
    → cell v f chain index rem ≡ cell v g chain index rem
cell-same v f g chain index rem h =
    elim (Option-cases (get_elem? chain (index / 2 ^ v.log_sectors_per_cluster))) [
      | inl e ↦ rw (e, cell) refl
      | inr (x, e) ↦
          rw (e, cell) (h (sector_address v x (index % 2 ^ v.log_sectors_per_cluster)) rem)
    ]

cell-found :
    {S : Type 0} (v : Volume S) (f : ℕ → ℕ → ℕ) (chain : List ℕ) (index rem c : ℕ)
    → get_elem? chain (index / 2 ^ v.log_sectors_per_cluster) ≡ some c
    → cell v f chain index rem ≡ f (sector_address v c (index % 2 ^ v.log_sectors_per_cluster)) rem
cell-found v f chain index rem c e = rw (e, cell) refl

byte_at-found :
    {S : Type 0} (log_bytes : ℕ) (v : Volume S) (f : ℕ → ℕ → ℕ) (chain : List ℕ) (n index rem c : ℕ)
    → n / 2 ^ log_bytes ≡ index
    → n % 2 ^ log_bytes ≡ rem
    → get_elem? chain (index / 2 ^ v.log_sectors_per_cluster) ≡ some c
    → byte_at log_bytes v f chain n
      ≡ f (sector_address v c (index % 2 ^ v.log_sectors_per_cluster)) rem
byte_at-found log_bytes v f chain n index rem c d m e =
    ap (λ i. cell v f chain i (n % 2 ^ log_bytes)) d
    ∙ ap (λ r. cell v f chain index r) m
    ∙ cell-found v f chain index rem c e

module _ {S : Type 0} (ops : FatOps S) (b : DataOps S) {copies dc : ℕ}
    (laws : FatLaws ops copies dc) (data_laws : DataLaws b laws) where
  open data_laws use {seen, readbuf_byte, readbuf_seen}

  pub file_byte-Keeps :
      (x : ℕ) (xs : List ℕ) (h q : Handle S) (n : ℕ)
      → Keeps ops seen laws x xs h q
      → file_byte seen q (x ∷ xs) n ≡ file_byte seen h (x ∷ xs) n
  file_byte-Keeps x xs h q n k =
      let log_same : q.log_bytes_per_sector ≡ h.log_bytes_per_sector =
        ap (λ (w : Handle S). w.log_bytes_per_sector) k.same in
      ap (λ l. byte_at l q.o.v (seen q.o.v.store) (x ∷ xs) n) log_same
      ∙ ap (λ v. byte_at h.log_bytes_per_sector v (seen q.o.v.store) (x ∷ xs) n) k.volume_same
      ∙ cell-same h.o.v (seen q.o.v.store) (seen h.o.v.store) (x ∷ xs) (n / bytes_per_sector h)
          (n % bytes_per_sector h) k.bytes_same

  rest-pos : (offset : ℕ) (h : Handle S) → 0 < rest_of_sector offset h
  rest-pos offset h =
      let d = bytes_per_sector h in
      omega (
        arith,
        lt-div-mul-add {a = offset} {b = d} (pow2-pos h.log_bytes_per_sector),
        div-add-mod' offset d,
      )

  in_sector_lem :
      (offset n c x : ℕ) (xs : List ℕ) (h q : Handle S)
      → Keeps ops seen laws x xs h q
      → n ≤ rest_of_sector offset h
      → get_elem? (x ∷ xs) (offset / bytes_per_sector h / 2 ^ h.o.v.log_sectors_per_cluster)
        ≡ some c
      → let sector =
          sector_address h.o.v c
            (offset / bytes_per_sector h % 2 ^ h.o.v.log_sectors_per_cluster) in
        ((i : ℕ) → b.byte q.o.v.store sector i ≡ seen q.o.v.store sector i)
        → in_sector ops b sector offset n q ≡ bytes_from (file_byte seen h (x ∷ xs)) offset n
  in_sector_lem offset n c x xs h q k l e same_byte =
      let d = bytes_per_sector h in
      let sector = sector_address h.o.v c (offset / d % 2 ^ h.o.v.log_sectors_per_cluster) in
      let log_same : bytes_per_sector q ≡ d = ap (λ (w : Handle S). bytes_per_sector w) k.same in
      ap (λ w. bytes_from (b.byte q.o.v.store sector) (offset % w) n) log_same
      ∙ bytes_from-same (b.byte q.o.v.store sector) (file_byte seen h (x ∷ xs)) (offset % d) offset
          n
          (λ i m.
            let (same_index, rem) =
              same_sector offset i d (pow2-pos h.log_bytes_per_sector) (omega arith) in
            same_byte (offset % d + i)
            ∙ k.bytes_same sector (offset % d + i)
            ∙ sym (
                byte_at-found h.log_bytes_per_sector h.o.v (seen h.o.v.store) (x ∷ xs) (offset + i)
                  (offset / d) (offset % d + i) c same_index rem e))

  -- A part of a sector in front of what is read behind it.
  Reads-next :
      (offset todo n x : ℕ) (xs : List ℕ) (h q : Handle S) (r : Res (Option (List ℕ)) × Handle S)
      → Keeps ops seen laws x xs h q
      → n ≤ todo
      → n ≤ h.file_size - offset
      → Reads ops seen laws (offset + n) (todo - n) x xs q r
      → Keeps ops seen laws x xs h r.1
        × ((r.0
              ≡ ok (
                  some (
                    bytes_from
                      (file_byte seen h (x ∷ xs))
                      (offset + n)
                      (min todo (h.file_size - offset) - n))))
            ⊎ ((e : ℕ) × (r.0 ≡ err e)))
  Reads-next offset todo n x xs h q r k l m (keeps, out) =
      let size_same : q.file_size ≡ h.file_size = ap (λ (w : Handle S). w.file_size) k.same in
      let count : min (todo - n) (q.file_size - (offset + n))
          ≡ min todo (h.file_size - offset) - n =
        omega (arith, size_same) in
      let bytes : bytes_from (file_byte seen q (x ∷ xs)) (offset + n)
            (min (todo - n) (q.file_size - (offset + n)))
          ≡ bytes_from (file_byte seen h (x ∷ xs)) (offset + n)
              (min todo (h.file_size - offset) - n) =
        ap (λ j. bytes_from (file_byte seen q (x ∷ xs)) (offset + n) j) count
        ∙ bytes_from-same (file_byte seen q (x ∷ xs)) (file_byte seen h (x ∷ xs)) (offset + n)
            (offset + n) (min todo (h.file_size - offset) - n)
            (λ i u. file_byte-Keeps x xs h q (offset + n + i) k) in
      (
        Keeps-trans ops seen laws x xs h q (r.1) k keeps,
        elim out [ inl e ↦ inl (e ∙ ap (λ t. ok (some t)) bytes) | inr e ↦ inr e ],
      )

  -- The sector of `offset`, where that is a byte of the file, and then what `rest` reads.
  module _ (rest : ℕ → ℕ → Handle S → Res (Option (List ℕ)) × Handle S) (offset todo x c : ℕ)
      (xs : List ℕ) (h p : Handle S) (k : Keeps ops seen laws x xs h p)
      (regular : h.is_directory ≡ false) (left : 0 < todo) (inside : offset < h.file_size)
      (at : get_elem? (x ∷ xs) (offset / bytes_per_sector h / 2 ^ h.o.v.log_sectors_per_cluster)
        ≡ some c)
      (goes_on : (n : ℕ) (q : Handle S)
        → 1 ≤ n
        → n ≤ todo
        → Keeps ops seen laws x xs h q
        → Reads ops seen laws (offset + n) (todo - n) x xs q (rest (todo - n) (offset + n) q)) where
    abbrev sector : ℕ
    sector =
        sector_address h.o.v c (offset / bytes_per_sector h % 2 ^ h.o.v.log_sectors_per_cluster)

    abbrev q : Handle S
    q = set_store ((b.fat_readbuf sector p.o.v.store).1) p

    abbrev n : ℕ
    n = read_count todo offset q

    q-Keeps : Keeps ops seen laws x xs h q
    q-Keeps =
        Keeps-trans ops seen laws x xs h p q k
          (read_buffer-Keeps ops b laws data_laws sector x xs p k.file k.cached)

    n_lem : (1 ≤ n) × (n ≤ todo) × (n ≤ h.file_size - offset) × (n ≤ rest_of_sector offset h)
    n_lem =
        let size_same : q.file_size ≡ h.file_size =
          ap (λ (w : Handle S). w.file_size) q-Keeps.same in
        let rest_same : rest_of_sector offset q ≡ rest_of_sector offset h =
          ap (λ (w : Handle S). rest_of_sector offset w) q-Keeps.same in
        let (u, v, w, z) =
          count_lem todo offset q (ap (λ (w : Handle S). w.is_directory) q-Keeps.same ∙ regular)
            left (omega arith) (rest-pos offset q) in
        (u, v, omega arith, omega arith)

    read_byte :
        (b.fat_readbuf sector p.o.v.store).0 ≡ ok tt
        → (i : ℕ) → b.byte q.o.v.store sector i ≡ seen q.o.v.store sector i
    read_byte e i =
        readbuf_byte p.o.v.store sector i e ∙ sym (readbuf_seen p.o.v.store sector sector i)

    joined :
        (b.fat_readbuf sector p.o.v.store).0 ≡ ok tt
        → in_sector ops b sector offset n q
            ++ bytes_from
                (file_byte seen h (x ∷ xs))
                (offset + n)
                (min todo (h.file_size - offset) - n)
          ≡ bytes_from (file_byte seen h (x ∷ xs)) offset (min todo (h.file_size - offset))
    joined done =
        let (u, v, w, z) = n_lem in
        let m = min todo (h.file_size - offset) in
        let total : n + (m - n) ≡ m = omega arith in
        ap (λ bs. bs ++ bytes_from (file_byte seen h (x ∷ xs)) (offset + n) (m - n))
          (in_sector_lem offset n c x xs h q q-Keeps z at (read_byte done))
        ∙ bytes_from-append (file_byte seen h (x ∷ xs)) offset n (m - n)
        ∙ ap (λ j. bytes_from (file_byte seen h (x ∷ xs)) offset j) total

    pub read_part-Reads :
        Reads ops seen laws offset todo x xs h (read_part ops b rest todo offset sector p)
    unfolding read_part
    read_part-Reads =
        let (u, v, w, z) = n_lem in
        let r = rest (todo - n) (offset + n) q in
        elim (Res-cases ((b.fat_readbuf sector p.o.v.store).0)) [
          | inr (y, e) ↦ rw (e, read_part, ◌>>=◌) (q-Keeps, inr (y, refl))
          | inl (t, e) ↦
              let (keeps, out) =
                Reads-next offset todo n x xs h q r q-Keeps v w (goes_on n q u v q-Keeps) in
              elim out [
                | inr (y, f) ↦ rw (e, f, read_part, ◌>>=◌) (keeps, inr (y, refl))
                | inl f ↦
                    rw (e, f, read_part, ◌>>=◌) (keeps, inl (ap (λ bs. ok (some bs)) (joined e)))
              ]
        ]
