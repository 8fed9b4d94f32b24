-- ===== src/Fat/Seek.antt =====
-- fat_get_file_sector of fd32/modules/fat/alloc.c.
use free_dos.Common.{
  ℕ, zero, suc, ◌+◌, ◌-◌, ◌/◌, ◌%◌, ◌^◌, ◌≤◌, ◌<◌, ◌≡◌, refl, ◌⊎◌, inl, inr, ltb, ◌==◌, ◌&&◌, ◌||◌,
  false, List, [], ◌∷◌, Option, none, some, length, get_elem?, get_elem?-lt, drop, length-drop, ◌∙◌,
  sym, ap, Bool-cases, arith,
}
use free_dos.Common.Errno.{Res, ok, err, ◌>>=◌}
use free_dos.Fat.{
  FatOps, Volume, File, Channel, Open, fat_eoc, read_fat_entry, seek_loop, to_cluster,
  sector_address, fat_get_file_sector,
}
use free_dos.Fat.Laws.{
  FatLaws, IsVolume, IsVolume-same, fat_entry, fat_entry-same, read_fat_entry_lem,
}
use free_dos.Fat.Chain.{Linked, Linked-same, Linked-drop, get_elem?-drop, get_elem?-Linked}

module _ {S : Type 0} (ops : FatOps S) {copies dc : ℕ} (laws : FatLaws ops copies dc) where
  open laws use {entry}

  -- The file and the volume are as they were; the state of the buffers may differ, the FAT does not.
  abbrev pub Unmoved : Open S → Open S → Type 0
  Unmoved o p =
      (p.f ≡ o.f)
      × (p.v ≡ record o.v { store = p.v.store })
      × ((k m : ℕ) → entry p.v.store k m ≡ entry o.v.store k m)

  abbrev at_cluster : Volume S → File → ℕ → ℕ → Open S
  at_cluster v f i x = record { v = v; f = f; c = record { cluster_index = i; cluster = x } }

  -- Outcome of `rounds` steps along the chain `x ∷ ys`, from index `i`: the position is the `j`-th
  -- cluster behind `x`.
  abbrev Sought : ℕ → ℕ → ℕ → List ℕ → Volume S → File → Res (Option (Unit {0})) × Open S → Type 0
  Sought rounds i x ys v f r =
      Unmoved (at_cluster v f i x) (r.1)
      × ((j : ℕ) × (y : ℕ) × (r.1.c ≡ record { cluster_index = i + j; cluster = y })
          × (get_elem? (x ∷ ys) j ≡ some y)
          × (((r.0 ≡ ok (some tt)) × (j ≡ rounds))
              ⊎ ((r.0 ≡ ok none) × (j ≡ length ys) × (length ys < rounds))
              ⊎ ((e : ℕ) × (r.0 ≡ err e))))

  module _ (rounds i x : ℕ) (v : Volume S) (f : File) where
    seek_eoc :
        (read_fat_entry ops x v).0 ≡ ok fat_eoc
        → seek_loop ops (suc rounds) (at_cluster v f i x)
          ≡ (ok none, at_cluster ((read_fat_entry ops x v).1) f i x)
    unfolding seek_loop
    seek_eoc h = rw (h, ◌>>=◌)

    seek_step :
        {y : ℕ}
        → (read_fat_entry ops x v).0 ≡ ok y
        → y < fat_eoc
        → 2 ≤ y
        → y ≤ (read_fat_entry ops x v).1.data_clusters + 1
        → seek_loop ops (suc rounds) (at_cluster v f i x)
          ≡ seek_loop ops rounds (at_cluster ((read_fat_entry ops x v).1) f (i + 1) y)
    unfolding seek_loop
    seek_step {y} h a b c =
        let no_eoc : (y == fat_eoc) ≡ false = ground arith in
        let in_volume : (ltb y 2 || ltb ((read_fat_entry ops x v).1.data_clusters + 1) y) ≡ false =
          ground arith in
        rw (h, ◌>>=◌) (rw (no_eoc, in_volume))

    seek_err :
        {e : ℕ}
        → (read_fat_entry ops x v).0 ≡ err e
        → seek_loop ops (suc rounds) (at_cluster v f i x)
          ≡ (err e, at_cluster ((read_fat_entry ops x v).1) f i x)
    unfolding seek_loop
    seek_err h = rw (h, ◌>>=◌)

  -- A step along the chain in front of a search.
  Sought-next :
      (rounds i x y : ℕ) (ys : List ℕ) (v w : Volume S) (f : File)
      (r : Res (Option (Unit {0})) × Open S)
      → w ≡ record v { store = w.store }
      → ((k m : ℕ) → entry w.store k m ≡ entry v.store k m)
      → Sought rounds (i + 1) y ys w f r
      → Sought (suc rounds) i x (y ∷ ys) v f r
  Sought-next rounds i x y ys v w f r same keeps ((a, b, c), (j, z, e, at, o)) =
      ((a, ground arith, λ k m. c k m ∙ keeps k m), (suc j, z, e ∙ ground arith, at, ground arith))

  seek_loop_lem :
      (rounds i x : ℕ) (ys : List ℕ) (v : Volume S) (f : File)
      → IsVolume copies dc v
      → x ≤ dc + 1
      → Linked dc (fat_entry ops laws v) x ys
      → Sought rounds i x ys v f (seek_loop ops rounds (at_cluster v f i x))
  seek_loop_lem zero i x ys v f g b l =
      unfold seek_loop in ((refl, refl, λ k m. refl), (0, x, ground arith, refl, inl (refl, refl)))
  seek_loop_lem (suc rounds) i x [] v f g b l =
      let (same, keeps, answer) = read_fat_entry_lem ops laws v x g b in
      elim answer [
        | inl y ↦
            rw (seek_eoc rounds i x v f (y ∙ ap ok l))
              ((refl, same, keeps), (0, x, ground arith, refl, inr (inl (refl, refl, omega arith))))
        | inr (e, y, d) ↦
            rw (seek_err rounds i x v f y)
              ((refl, same, keeps), (0, x, ground arith, refl, inr (inr (e, refl))))
      ]
  seek_loop_lem (suc rounds) i x (y ∷ ys) v f g b l =
      let (same, keeps, answer) = read_fat_entry_lem ops laws v x g b in
      let w : Volume S = (read_fat_entry ops x v).1 in
      let g' = IsVolume-same copies dc v w same g in
      elim answer [
        | inl r ↦
            rw
              (seek_step rounds i x v f (r ∙ ap ok (l.0)) (omega (arith, g.few)) l.1
                (omega (arith, g'.clusters_of)))
              (Sought-next rounds i x y ys v w f _ same keeps (
                seek_loop_lem rounds (i + 1) y ys w f g' l.2 (
                  Linked-same dc (fat_entry ops laws v) (fat_entry ops laws w) y ys
                    (fat_entry-same ops laws v w same keeps) l.3)))
        | inr (e, r, d) ↦
            rw (seek_err rounds i x v f r)
              ((refl, same, keeps), (0, x, ground arith, refl, inr (inr (e, refl))))
      ]

  -- The clusters of the file of `o` are `x ∷ xs`.
  pub record IsFile (o : Open S) (x : ℕ) (xs : List ℕ) : Type 0 where
    pub volume : IsVolume copies dc o.v
    pub first : o.f.first_cluster ≡ x
    pub low : 2 ≤ x
    pub high : x ≤ dc + 1
    pub linked : Linked dc (fat_entry ops laws o.v) x xs

  -- The cached position is unset, or right.
  abbrev pub IsCached : Channel → List ℕ → Type 0
  IsCached c chain = (c.cluster_index ≡ 0) ⊎ (get_elem? chain c.cluster_index ≡ some c.cluster)

  -- The position is the `j`-th cluster of the chain: the wanted one, or the last one where the chain
  -- is too short, or one before it where a read failed.
  abbrev pub Located : ℕ → ℕ → List ℕ → Open S → Res (Option (Unit {0})) × Open S → Type 0
  Located n x xs o r =
      Unmoved o (r.1)
      × (get_elem? (x ∷ xs) r.1.c.cluster_index ≡ some r.1.c.cluster)
      × (((r.0 ≡ ok (some tt)) × (r.1.c.cluster_index ≡ n))
          ⊎ ((r.0 ≡ ok none) × (r.1.c.cluster_index ≡ length xs) × (length xs < n))
          ⊎ ((e : ℕ) × (r.0 ≡ err e)))

  Sought-Located :
      (n i y x : ℕ) (xs : List ℕ) (o : Open S) (r : Res (Option (Unit {0})) × Open S)
      → i ≤ n
      → get_elem? (x ∷ xs) i ≡ some y
      → Sought (n - i) i y (drop i xs) o.v o.f r
      → Located n x xs o r
  Sought-Located n i y x xs o r b here (u, (j, z, e, at, out)) =
      let there : get_elem? (x ∷ xs) (i + j) ≡ some z = sym (get_elem?-drop x xs i j y here) ∙ at in
      let index : r.1.c.cluster_index ≡ i + j = ap (λ c. c.cluster_index) e in
      let cluster : r.1.c.cluster ≡ z = ap (λ c. c.cluster) e in
      let inside : i < suc (length xs) = get_elem?-lt (x ∷ xs) i here in
      (
        u,
        rw (index, cluster) there,
        elim out [
          | inl (a, d) ↦ inl (a, omega arith)
          | inr (inl (a, d, l)) ↦
              inr (inl (a, omega (arith, length-drop i xs), omega (arith, length-drop i xs)))
          | inr (inr a) ↦ inr (inr a)
        ],
      )

  to_cluster-Located :
      (n x : ℕ) (xs : List ℕ) (o : Open S)
      → IsFile o x xs
      → IsCached o.c (x ∷ xs)
      → Located n x xs o (to_cluster ops n o)
  to_cluster-Located n x xs o file cached =
      let fat = fat_entry ops laws o.v in
      let seek = λ (i y : ℕ) (b : i ≤ n) (e : get_elem? (x ∷ xs) i ≡ some y).
        Sought-Located n i y x xs o (seek_loop ops (n - i) (at_cluster o.v o.f i y)) b e (
          seek_loop_lem (n - i) i y (drop i xs) o.v o.f file.volume
            ((get_elem?-Linked dc fat x xs i y file.linked file.low file.high e).1)
            (Linked-drop dc fat x xs i y file.linked e)) in
      elim (Bool-cases (o.c.cluster_index == 0 || ltb n o.c.cluster_index)) [
        | inl far ↦ rw far (seek 0 o.f.first_cluster (omega arith) (ap some (sym file.first)))
        | inr near ↦ rw near (seek o.c.cluster_index o.c.cluster (ground arith) (ground arith))
      ]

  -- For a file whose clusters are `x ∷ xs`, in a volume of the laws' geometry, with a cached position
  -- that is unset or right: fat_get_file_sector changes neither the file nor an entry of the FAT. With
  -- `n` the index of the wanted cluster, it returns the address of the sector in the `n`-th cluster of
  -- the file, at which the position then stands; or it reports the end of the file exactly where the
  -- file has no `n`-th cluster, and the position is the last cluster; or it passes on an error of
  -- `fat_read`. The position stays right in each case.
  pub fat_get_file_sector_lem :
      (index x : ℕ) (xs : List ℕ) (o : Open S)
      → IsFile o x xs
      → IsCached o.c (x ∷ xs)
      → let r = fat_get_file_sector ops index o in
        let n = index / 2 ^ o.v.log_sectors_per_cluster in
        let in_cluster = index % 2 ^ o.v.log_sectors_per_cluster in
        Unmoved o (r.1)
        × (get_elem? (x ∷ xs) r.1.c.cluster_index ≡ some r.1.c.cluster)
        × (((r.0 ≡ ok (some (sector_address o.v r.1.c.cluster in_cluster)))
              × (r.1.c.cluster_index ≡ n))
            ⊎ ((r.0 ≡ ok none) × (r.1.c.cluster_index ≡ length xs) × (length xs < n))
            ⊎ ((e : ℕ) × (r.0 ≡ err e)))
  unfolding fat_get_file_sector
  fat_get_file_sector_lem index x xs o file cached =
      let n = index / 2 ^ o.v.log_sectors_per_cluster in
      let p = to_cluster ops n o in
      let some_cluster : (o.f.first_cluster == 0) ≡ false = ground (arith, file.first, file.low) in
      let no_root : (o.f.de_sector == 0 && o.f.first_cluster == 0) ≡ false =
        ground (arith, file.first, file.low) in
      let ((same, geometry, keeps), at, out) = to_cluster-Located n x xs o file cached in
      let address =
        ap
          (λ (w : Volume S).
            ok (some (sector_address w p.1.c.cluster (index % 2 ^ w.log_sectors_per_cluster))))
          geometry in
      rw (no_root, some_cluster)
        (elim out [
          | inl (e, d) ↦ rw (e, ◌>>=◌) ((same, geometry, keeps), at, inl (address, d))
          | inr (inl (e, d, l)) ↦
              rw (e, ◌>>=◌) ((same, geometry, keeps), at, inr (inl (refl, d, l)))
          | inr (inr (x, e)) ↦ rw (e, ◌>>=◌) ((same, geometry, keeps), at, inr (inr (x, refl)))
        ])
