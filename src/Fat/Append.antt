-- ===== src/Fat/Append.antt =====
-- fat_append_cluster of fd32/modules/fat/alloc.c.
use free_dos.Common.{
  ℕ, ◌+◌, ◌≤◌, ◌≡◌, refl, ◌≢◌, ◌⊎◌, inl, inr, ◌==◌, ◌&&◌, true, false, List, [], ◌∷◌, ◌++◌, length,
  ◌∙◌, sym, ap, arith,
}
use free_dos.Common.Errno.{Res, ok, err, ◌>>=◌, ◌>>◌, enospc}
use free_dos.Common.Word.{sub32}
use free_dos.Fat.{
  FatOps, Volume, Open, fat_eoc, write_fat_entry, find_free_cluster, count_down, link_cluster,
  fat_append_cluster,
}
use free_dos.Fat.Laws.{FatLaws, IsVolume, IsVolume-same, fat_entry, write_fat_entry_lem}
use free_dos.Fat.Search.{find_free_cluster_lem}
use free_dos.Fat.Seek.{IsFile}
use free_dos.Fat.Chain.{
  Linked-used, Linked-append, last, All, All-last, get_elem?-Linked, get_elem?-last,
}

module _ {S : Type 0} (ops : FatOps S) {copies dc : ℕ} (laws : FatLaws ops copies dc) where
  open laws use {entry}

  -- The steps of a call on a file that has clusters, as equations.
  module _ (o : Open S) (some_cluster : (o.f.first_cluster == 0) ≡ false) where
    abbrev found : Res ℕ × Volume S
    found = find_free_cluster ops o.v

    abbrev linked : ℕ → Res (Unit {0}) × Volume S
    linked n = write_fat_entry ops o.c.cluster n found.1

    abbrev marked : ℕ → Res (Unit {0}) × Volume S
    marked n = write_fat_entry ops n fat_eoc (count_down (linked n).1)

    no_root : (o.f.de_sector == 0 && o.f.first_cluster == 0) ≡ false
    no_root = rw some_cluster (ground arith)

    append_full : {e : ℕ} → found.0 ≡ err e → (fat_append_cluster ops o).0 ≡ err e
    unfolding fat_append_cluster
    append_full f = rw no_root (rw (f, ◌>>=◌))

    append_link_err :
        {n e : ℕ} → found.0 ≡ ok n → (linked n).0 ≡ err e → (fat_append_cluster ops o).0 ≡ err e
    unfolding fat_append_cluster link_cluster
    append_link_err f l =
        rw no_root (rw (f, ◌>>=◌) (rw (some_cluster, ◌>>◌, ◌>>=◌) (rw (l, ◌>>=◌))))

    append_mark_err :
        {n e : ℕ}
        → found.0 ≡ ok n
        → (linked n).0 ≡ ok tt
        → (marked n).0 ≡ err e
        → (fat_append_cluster ops o).0 ≡ err e
    unfolding fat_append_cluster link_cluster
    append_mark_err f l m = rw no_root (
        rw (f, ◌>>=◌)
          (rw (some_cluster, ◌>>◌, ◌>>=◌)
            (rw (l, ◌>>=◌) (rw (some_cluster, ◌>>◌, ◌>>=◌) (rw (m, ◌>>◌, ◌>>=◌))))))

    append_ok :
        {n : ℕ}
        → found.0 ≡ ok n
        → (linked n).0 ≡ ok tt
        → (marked n).0 ≡ ok tt
        → fat_append_cluster ops o ≡ (ok n, record o { v = (marked n).1 })
    unfolding fat_append_cluster link_cluster
    append_ok f l m = rw no_root (
        rw (f, ◌>>=◌)
          (rw (some_cluster, ◌>>◌, ◌>>=◌)
            (rw (l, ◌>>=◌)
              (rw (some_cluster, ◌>>◌, ◌>>=◌)
                (rw (m, ◌>>◌, ◌>>=◌) (rw (some_cluster, link_cluster)))))))

  -- The volume is that of `v` but for the buffers, the FAT, and what a search and a count change.
  abbrev SameGeometry : Volume S → Volume S → Type 0
  SameGeometry v w =
      (w.num_fats ≡ v.num_fats)
      × (w.active_fat ≡ v.active_fat)
      × (w.data_clusters ≡ v.data_clusters)

  geometry-IsVolume :
      (v w : Volume S) → SameGeometry v w → IsVolume copies dc v → IsVolume copies dc w
  geometry-IsVolume v w (a, b, c) g = record {
    copies_of = a ∙ g.copies_of;
    active = omega (arith, b, g.active);
    clusters_of = c ∙ g.clusters_of;
    few = g.few;
  }

  abbrev pub Appended : ℕ → List ℕ → Open S → Res ℕ × Open S → Type 0
  Appended x xs o r =
      (n : ℕ) × (r.0 ≡ ok n)
      × (fat_entry ops laws o.v n ≡ 0)
      × IsFile ops laws (r.1) x (xs ++ (n ∷ []))
      × (r.1.v.free_clusters ≡ sub32 o.v.free_clusters 1)
      × ((k m : ℕ) → m ≢ n → m ≢ last x xs → entry r.1.v.store k m ≡ entry o.v.store k m)

  -- The file with its new last cluster.
  linked-IsFile :
      (n x : ℕ) (xs : List ℕ) (o : Open S)
      → IsFile ops laws o x xs
      → (w : Volume S) → IsVolume copies dc w
      → 2 ≤ n
      → n ≤ dc + 1
      → All (λ y. y ≢ n) (x ∷ xs)
      → w.active_fat ≡ o.v.active_fat
      → ((k m : ℕ) → m ≢ n → m ≢ last x xs → entry w.store k m ≡ entry o.v.store k m)
      → entry w.store o.v.active_fat n ≡ fat_eoc
      → entry w.store o.v.active_fat (last x xs) ≡ n
      → IsFile ops laws (record o { v = w }) x (xs ++ (n ∷ []))
  linked-IsFile n x xs o file w g low high apart active keeps end link =
      let at = λ (m : ℕ). ap (λ k. entry w.store k m) active in
      record {
        volume = g;
        first = file.first;
        low = file.low;
        high = file.high;
        linked =
            Linked-append dc (fat_entry ops laws o.v) (fat_entry ops laws w) n x xs g.few low high
              (λ m d e. at m ∙ keeps o.v.active_fat m d e) (at n ∙ end) (at (last x xs) ∙ link)
              apart file.linked;
      }

  -- From the search on.
  append_found :
      (n x : ℕ) (xs : List ℕ) (o : Open S) (used : (o.f.first_cluster == 0) ≡ false)
      → IsFile ops laws o x xs
      → o.c.cluster ≡ last x xs
      → (found o used).0 ≡ ok n
      → 2 ≤ n
      → n ≤ dc + 1
      → fat_entry ops laws o.v n ≡ 0
      → (found o used).1
        ≡ record o.v { store = (found o used).1.store; next_free = n; fsinfo_changed = true }
      → ((k m : ℕ) → entry (found o used).1.store k m ≡ entry o.v.store k m)
      → Appended x xs o (fat_append_cluster ops o)
        ⊎ ((e : ℕ) × ((fat_append_cluster ops o).0 ≡ err e))
  append_found n x xs o used file at f low high z same1 keeps1 =
      let fat = fat_entry ops laws o.v in
      let last_in_volume =
        get_elem?-Linked dc fat x xs (length xs) (last x xs) file.linked file.low file.high
          (get_elem?-last x xs) in
      let apart = Linked-used dc fat n x xs z file.linked in
      let last_ne = All-last (λ y. y ≢ n) x xs apart in
      let a = o.v.active_fat in
      let v1 : Volume S = (found o used).1 in
      let v2 : Volume S = (linked o used n).1 in
      let g1 =
        geometry-IsVolume o.v v1
          (
            ap (λ (u : Volume S). u.num_fats) same1,
            ap (λ (u : Volume S). u.active_fat) same1,
            ap (λ (u : Volume S). u.data_clusters) same1,
          )
          file.volume in
      let in_volume : o.c.cluster ≤ dc + 1 = omega (arith, at, last_in_volume.1) in
      let (same2, keeps2, link) =
        write_fat_entry_lem ops laws v1 o.c.cluster n g1 in_volume (inl high) in
      let g2 = IsVolume-same copies dc v1 v2 same2 g1 in
      let g3 = geometry-IsVolume v2 (count_down v2) (refl, refl, refl) g2 in
      let (same4, keeps4, mark) =
        write_fat_entry_lem ops laws (count_down v2) n fat_eoc g3 high (inr refl) in
      let v4 : Volume S = (marked o used n).1 in
      let active4 : v4.active_fat ≡ a =
        ap (λ (u : Volume S). u.active_fat) same4
        ∙ ap (λ (u : Volume S). u.active_fat) same2
        ∙ ap (λ (u : Volume S). u.active_fat) same1 in
      let free2 : v2.free_clusters ≡ o.v.free_clusters =
        ap (λ (u : Volume S). u.free_clusters) same2
        ∙ ap (λ (u : Volume S). u.free_clusters) same1 in
      let count : v4.free_clusters ≡ sub32 o.v.free_clusters 1 =
        ap (λ (u : Volume S). u.free_clusters) same4 ∙ ap (λ t. sub32 t 1) free2 in
      let keeps : (k m : ℕ) → m ≢ n → m ≢ last x xs → entry v4.store k m ≡ entry o.v.store k m =
        λ k m d e. keeps4 k m d ∙ keeps2 k m (λ t. e (t ∙ at)) ∙ keeps1 k m in
      elim link [
        | inr (e, l) ↦ inr (e, append_link_err o used f l)
        | inl (l, stored) ↦ elim mark [
          | inr (e, m) ↦ inr (e, append_mark_err o used f l m)
          | inl (m, marked_entry) ↦ inl (
              rw (append_ok o used f l m) (
                n,
                refl,
                z,
                linked-IsFile n x xs o file v4 (IsVolume-same copies dc (count_down v2) v4 same4 g3)
                    low high apart active4 keeps (marked_entry a file.volume.active)
                    (ap (λ t. entry v4.store a t) (sym at)
                      ∙ keeps4 a o.c.cluster (λ e. last_ne (sym at ∙ e))
                      ∙ stored a file.volume.active),
                count,
                keeps,
              ))
        ]
      ]

  -- For a file whose clusters are `x ∷ xs`, in a volume of the laws' geometry, with the position at the
  -- last cluster: unless it reports an error, fat_append_cluster returns a cluster that was free; it is
  -- then the last cluster of the file, behind those of before; one cluster less is counted as free, and
  -- no entry differs but that of the new cluster and that of the one before it.
  pub fat_append_cluster_lem :
      (x : ℕ) (xs : List ℕ) (o : Open S)
      → IsFile ops laws o x xs
      → o.c.cluster ≡ last x xs
      → Appended x xs o (fat_append_cluster ops o)
        ⊎ ((e : ℕ) × ((fat_append_cluster ops o).0 ≡ err e))
  fat_append_cluster_lem x xs o file at =
      let used : (o.f.first_cluster == 0) ≡ false = ground (arith, file.first, file.low) in
      let (keeps1, outcome) = find_free_cluster_lem ops laws o.v file.volume in
      elim outcome [
        | inl (n, f, low, high, z, same1) ↦
            append_found n x xs o used file at f low high z same1 keeps1
        | inr (inl (f, full, t)) ↦ inr (enospc, append_full o used f)
        | inr (inr (e, f, d, t)) ↦ inr (e, append_full o used f)
      ]
