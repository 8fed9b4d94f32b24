-- ===== src/Fat/Io/Sector.antt =====
-- The sector of a byte of a file, as fat_read of fd32/modules/fat/file.c finds and reads it.
use Prim.Native.Nat.{min}
use free_dos.Common.{
  ℕ, zero, suc, ◌+◌, ◌-◌, ◌/◌, ◌%◌, ◌^◌, ◌<◌, ◌≡◌, refl, sym, ◌∙◌, ap, List, ◌∷◌, length, ◌&&◌,
  ◌||◌, ltb, leb, ◌==◌, Option, none, some, get_elem?, ◌⊎◌, inl, inr, Bool-cases, Option-cases,
}
use free_dos.Common.Errno.{Res, Res-cases, ok, err, ◌>>=◌}
use free_dos.Fat.{
  FatOps, Volume, Open, fat_eoc, read_fat_entry, seek_loop, restart, to_cluster, sector_address,
  fat_get_file_sector,
}
use free_dos.Fat.Laws.{FatLaws, fat_entry, IsVolume-same, fat_entry-same}
use free_dos.Fat.Chain.{Linked-same}
use free_dos.Fat.Seek.{Unmoved, IsFile, IsCached, fat_get_file_sector_lem}
use free_dos.Fat.Io.{DataOps, Handle, bytes_per_sector, on_open, on_store, bytes_from}

-- `seen s a i` is byte `i` of sector `a` as a reader of the volume sees it. Reading the FAT or a sector
-- changes no byte that is seen, and no entry of the FAT; where fat_readbuf reports no error, the bytes in the
-- buffer are those that are seen.
pub record DataLaws {S : Type 0} {ops : FatOps S} {copies dc : ℕ} (b : DataOps S)
    (laws : FatLaws ops copies dc) : Type 0 where
  pub seen : S → ℕ → ℕ → ℕ
  pub fat_read_seen : (s : S) (k n a i : ℕ) → seen ((ops.fat_read n k s).1) a i ≡ seen s a i
  pub readbuf_seen : (s : S) (sector a i : ℕ) → seen ((b.fat_readbuf sector s).1) a i ≡ seen s a i
  pub readbuf_byte :
      (s : S) (sector i : ℕ)
      → (b.fat_readbuf sector s).0 ≡ ok tt
      → b.byte ((b.fat_readbuf sector s).1) sector i ≡ seen s sector i
  pub readbuf_entries :
      (s : S) (sector k n : ℕ) → laws.entry ((b.fat_readbuf sector s).1) k n ≡ laws.entry s k n

-- Byte `rem` of sector `index` of the file with these clusters, by the bytes of the sectors.
abbrev pub cell : {S : Type 0} → Volume S → (ℕ → ℕ → ℕ) → List ℕ → ℕ → ℕ → ℕ
cell v byte chain index rem =
    let spc = 2 ^ v.log_sectors_per_cluster in
    elim (get_elem? chain (index / spc)) [
      | none ↦ 0
      | some x ↦ byte (sector_address v x (index % spc)) rem
    ]

-- Byte `n` of the file.
abbrev pub byte_at : {S : Type 0} → ℕ → Volume S → (ℕ → ℕ → ℕ) → List ℕ → ℕ → ℕ
byte_at log_bytes v byte chain n = cell v byte chain (n / 2 ^ log_bytes) (n % 2 ^ log_bytes)

abbrev pub file_byte : {S : Type 0} → (S → ℕ → ℕ → ℕ) → Handle S → List ℕ → ℕ → ℕ
file_byte seen h = byte_at h.log_bytes_per_sector h.o.v (seen h.o.v.store)

-- Every byte of the file lies in one of its clusters.
abbrev pub Fits : {S : Type 0} → List ℕ → Handle S → Type 0
Fits chain h =
    (n : ℕ)
    → n < h.file_size
    → n / bytes_per_sector h / 2 ^ h.o.v.log_sectors_per_cluster < length chain

module _ {S : Type 0} (ops : FatOps S) (seen : S → ℕ → ℕ → ℕ) {copies dc : ℕ}
    (laws : FatLaws ops copies dc) where
  -- The file, the data and the settings of the channel are as before, and the cached position is right.
  pub record Keeps (x : ℕ) (xs : List ℕ) (h h' : Handle S) : Type 0 where
    pub file : IsFile ops laws h'.o x xs
    pub cached : IsCached ops laws h'.o.c (x ∷ xs)
    pub same : h' ≡ record h { o = h'.o }
    pub volume_same : h'.o.v ≡ record h.o.v { store = h'.o.v.store }
    pub bytes_same : (a i : ℕ) → seen h'.o.v.store a i ≡ seen h.o.v.store a i

  pub Keeps-trans :
      (x : ℕ) (xs : List ℕ) (h i j : Handle S) → Keeps x xs h i → Keeps x xs i j → Keeps x xs h j
  Keeps-trans x xs h i j p q = record {
    file = q.file;
    cached = q.cached;
    same = q.same ∙ ap (λ (w : Handle S). record w { o = j.o }) p.same;
    volume_same =
        q.volume_same ∙ ap (λ (w : Volume S). record w { store = j.o.v.store }) p.volume_same;
    bytes_same = λ a k. q.bytes_same a k ∙ p.bytes_same a k;
  }

  -- The bytes of the file from `offset` on: up to `todo` of them, and to its end.
  abbrev pub Reads : ℕ → ℕ → ℕ → List ℕ → Handle S → Res (Option (List ℕ)) × Handle S → Type 0
  Reads offset todo x xs h r =
      Keeps x xs h r.1
      × ((r.0
            ≡ ok (
                some (
                  bytes_from (file_byte seen h (x ∷ xs)) offset (min todo (h.file_size - offset)))))
          ⊎ ((e : ℕ) × (r.0 ≡ err e)))

  pub Keeps-refl :
      (x : ℕ) (xs : List ℕ) (h : Handle S)
      → IsFile ops laws h.o x xs
      → IsCached ops laws h.o.c (x ∷ xs)
      → Keeps x xs h h
  Keeps-refl x xs h file cached = record {
    file = file;
    cached = cached;
    same = refl;
    volume_same = refl;
    bytes_same = λ a i. refl;
  }

  IsFile-same :
      (x : ℕ) (xs : List ℕ) (o p : Open S)
      → Unmoved ops laws o p
      → IsFile ops laws o x xs
      → IsFile ops laws p x xs
  IsFile-same x xs o p (f, v, keeps) file = record {
    volume = IsVolume-same copies dc o.v p.v v file.volume;
    first = ap (λ w. w.first_cluster) f ∙ file.first;
    low = file.low;
    high = file.high;
    linked =
        Linked-same dc (fat_entry ops laws o.v) (fat_entry ops laws p.v) x xs
          (fat_entry-same ops laws o.v p.v v keeps) file.linked;
  }

  abbrev pub get_sector : ℕ → Handle S → Res (Option ℕ) × Handle S
  get_sector offset h = on_open (fat_get_file_sector ops (offset / bytes_per_sector h)) h

  -- The outcome of the search for the sector of a byte of the file.
  abbrev pub SectorOf : ℕ → ℕ → List ℕ → Handle S → Res (Option ℕ) × Handle S → Type 0
  SectorOf offset x xs h r =
      let index = offset / bytes_per_sector h in
      let spc = 2 ^ h.o.v.log_sectors_per_cluster in
      Keeps x xs h r.1
      × (((c : ℕ) × (get_elem? (x ∷ xs) (index / spc) ≡ some c)
            × (r.0 ≡ ok (some (sector_address h.o.v c (index % spc)))))
          ⊎ ((r.0 ≡ ok none) × (length xs < index / spc))
          ⊎ ((e : ℕ) × (r.0 ≡ err e)))

module _ {S : Type 0} (ops : FatOps S) (b : DataOps S) {copies dc : ℕ}
    (laws : FatLaws ops copies dc) (data_laws : DataLaws b laws) where
  open data_laws use {seen, fat_read_seen, readbuf_seen, readbuf_entries}

  seek_loop-bytes :
      (rounds : ℕ) (o : Open S) (a i : ℕ)
      → seen ((seek_loop ops rounds o).1.v.store) a i ≡ seen o.v.store a i
  unfolding seek_loop read_fat_entry
  seek_loop-bytes zero o a i = refl
  seek_loop-bytes (suc rounds) o a i =
      let keeps = fat_read_seen o.v.store o.v.active_fat o.c.cluster a i in
      elim (Res-cases ((read_fat_entry ops o.c.cluster o.v).0)) [
        | inr (e, r) ↦ rw (r, ◌>>=◌, seek_loop) keeps
        | inl (nc, r) ↦ elim (Bool-cases (nc == fat_eoc)) [
          | inl x ↦ rw (r, ◌>>=◌, seek_loop) (rw x keeps)
          | inr x ↦ elim (Bool-cases (ltb nc 2 || ltb (o.v.data_clusters + 1) nc)) [
            | inl y ↦ rw (r, ◌>>=◌, seek_loop) (rw (x, y) keeps)
            | inr y ↦ rw (r, ◌>>=◌, seek_loop) (rw (x, y) (seek_loop-bytes rounds _ a i ∙ keeps))
          ]
        ]
      ]

  restart-bytes :
      (n : ℕ) (o : Open S) (a i : ℕ) → seen (restart n o).v.store a i ≡ seen o.v.store a i
  restart-bytes n o a i = elim (Bool-cases (o.c.cluster_index == 0 || ltb n o.c.cluster_index)) [
    | inl e ↦ rw e refl
    | inr e ↦ rw e refl
  ]

  to_cluster-bytes :
      (n : ℕ) (o : Open S) (a i : ℕ)
      → seen ((to_cluster ops n o).1.v.store) a i ≡ seen o.v.store a i
  to_cluster-bytes n o a i =
      let p = restart n o in seek_loop-bytes (n - p.c.cluster_index) p a i ∙ restart-bytes n o a i

  get_sector-bytes :
      (index : ℕ) (o : Open S) (a i : ℕ)
      → seen ((fat_get_file_sector ops index o).1.v.store) a i ≡ seen o.v.store a i
  unfolding fat_get_file_sector
  get_sector-bytes index o a i =
      let n = index / 2 ^ o.v.log_sectors_per_cluster in
      elim (Bool-cases (o.f.de_sector == 0 && o.f.first_cluster == 0)) [
        | inl e ↦ elim (Bool-cases (leb o.v.root_size index)) [
          | inl f ↦ rw (e, f, fat_get_file_sector) refl
          | inr f ↦ rw (e, f, fat_get_file_sector) refl
        ]
        | inr e ↦ elim (Bool-cases (o.f.first_cluster == 0)) [
          | inl f ↦ rw (e, f, fat_get_file_sector) refl
          | inr f ↦ elim (Res-cases ((to_cluster ops n o).0)) [
            | inr (x, r) ↦ rw (e, f, fat_get_file_sector) (rw (r, ◌>>=◌) (to_cluster-bytes n o a i))
            | inl (t, r) ↦ elim (Option-cases t) [
              | inl x ↦
                  rw (e, f, fat_get_file_sector) (rw (r, ◌>>=◌) (rw x (to_cluster-bytes n o a i)))
              | inr (u, x) ↦
                  rw (e, f, fat_get_file_sector) (rw (r, ◌>>=◌) (rw x (to_cluster-bytes n o a i)))
            ]
          ]
        ]
      ]

  pub get_sector-SectorOf :
      (offset x : ℕ) (xs : List ℕ) (h : Handle S)
      → IsFile ops laws h.o x xs
      → IsCached ops laws h.o.c (x ∷ xs)
      → SectorOf ops seen laws offset x xs h (get_sector ops seen laws offset h)
  get_sector-SectorOf offset x xs h file cached =
      let index = offset / bytes_per_sector h in
      let p = fat_get_file_sector ops index h.o in
      let (unmoved, at, out) = fat_get_file_sector_lem ops laws index x xs h.o file cached in
      (
        record {
          file = IsFile-same ops seen laws x xs h.o (p.1) unmoved file;
          cached = inr at;
          same = refl;
          volume_same = unmoved.1;
          bytes_same = get_sector-bytes index h.o;
        },
        elim out [
          | inl (e, n) ↦ inl (p.1.c.cluster, ap (λ k. get_elem? (x ∷ xs) k) (sym n) ∙ at, e)
          | inr (inl (e, n, l)) ↦ inr (inl (e, l))
          | inr (inr e) ↦ inr (inr e)
        ],
      )

  pub read_buffer-Keeps :
      (sector x : ℕ) (xs : List ℕ) (h : Handle S)
      → IsFile ops laws h.o x xs
      → IsCached ops laws h.o.c (x ∷ xs)
      → Keeps ops seen laws x xs h ((on_store (b.fat_readbuf sector) h).1)
  read_buffer-Keeps sector x xs h file cached = record {
    file =
        IsFile-same ops seen laws x xs h.o
          (record h.o { v = record h.o.v { store = (b.fat_readbuf sector h.o.v.store).1 } })
          (refl, refl, readbuf_entries h.o.v.store sector) file;
    cached = cached;
    same = refl;
    volume_same = refl;
    bytes_same = readbuf_seen h.o.v.store sector;
  }
