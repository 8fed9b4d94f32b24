-- ===== src/Fat/Truncate.antt =====
-- fat_delete_file_clusters of fd32/modules/fat/alloc.c.
use free_dos.Common.{
  ℕ, suc, ◌+◌, ◌≤◌, ◌<◌, ◌≡◌, refl, ◌≢◌, ◌⊎◌, inl, inr, ◌==◌, false, List, ◌∷◌, Option, some,
  length, ◌∙◌, sym, ap, subst, arith,
}
use free_dos.Common.Errno.{Res, ok, err, ◌>>=◌, ◌>>◌, enxio}
use free_dos.Fat.{
  FatOps, Volume, Open, fat_eoc, read_fat_entry, write_fat_entry, on_volume, fat_delete_clusters,
  forget_clusters, fat_delete_file_clusters,
}
use free_dos.Fat.Laws.{
  FatLaws, IsVolume, IsVolume-same, fat_entry, read_fat_entry_lem, write_fat_entry_lem,
}
use free_dos.Fat.Chain.{Linked, Linked-except, Linked-first, All}
use free_dos.Fat.Delete.{Deleted, fat_delete_clusters_lem}
use free_dos.Fat.Seek.{IsFile}

module _ {S : Type 0} (ops : FatOps S) {copies dc : ℕ} (laws : FatLaws ops copies dc) where
  open laws use {entry, read_range}

  -- For a file whose clusters are `x ∷ xs` and more fuel than the chain has links:
  -- fat_delete_file_clusters with 0 leaves the file without a cluster, and frees all its clusters as
  -- fat_delete_clusters does.
  pub delete_file_clusters_all :
      (fuel x : ℕ) (xs : List ℕ) (o : Open S)
      → IsFile ops laws o x xs
      → length xs < fuel
      → let r = fat_delete_file_clusters ops fuel 0 o in
        (r.1.f ≡ forget_clusters o.f) × Deleted ops laws (x ∷ xs) o.v (r.0, r.1.v)
  unfolding fat_delete_file_clusters
  delete_file_clusters_all fuel x xs o file b = (
    refl,
    subst (λ y. Deleted ops laws (x ∷ xs) o.v (fat_delete_clusters ops fuel y o.v)) (sym file.first)
        (fat_delete_clusters_lem ops laws fuel x xs o.v file.volume file.high file.linked b),
  )

  module _ (fuel n : ℕ) (o : Open S) (keep : (n == 0) ≡ false) where
    abbrev cut : Res (Unit {0}) × Volume S
    cut = write_fat_entry ops n fat_eoc ((read_fat_entry ops n o.v).1)

    tail_ok :
        {y : ℕ}
        → (read_fat_entry ops n o.v).0 ≡ ok y
        → cut.0 ≡ ok tt
        → fat_delete_file_clusters ops fuel n o
          ≡ on_volume (fat_delete_clusters ops fuel y) (record o { v = cut.1 })
    unfolding fat_delete_file_clusters
    tail_ok r w = rw keep (rw (r, ◌>>=◌) (rw (w, ◌>>◌, ◌>>=◌)))

    tail_read_err :
        {e : ℕ}
        → (read_fat_entry ops n o.v).0 ≡ err e
        → (fat_delete_file_clusters ops fuel n o).0 ≡ err e
    unfolding fat_delete_file_clusters
    tail_read_err r = rw keep (rw (r, ◌>>=◌))

    tail_write_err :
        {y e : ℕ}
        → (read_fat_entry ops n o.v).0 ≡ ok y
        → cut.0 ≡ err e
        → (fat_delete_file_clusters ops fuel n o).0 ≡ err e
    unfolding fat_delete_file_clusters
    tail_write_err r w = rw keep (rw (r, ◌>>=◌) (rw (w, ◌>>◌, ◌>>=◌)))

  -- A number past the last cluster ends the deletion with -ENXIO.
  delete_range :
      (fuel n : ℕ) (v : Volume S)
      → IsVolume copies dc v
      → dc + 1 < n
      → (fat_delete_clusters ops (suc fuel) n v).0 ≡ err enxio
  unfolding fat_delete_clusters read_fat_entry
  delete_range fuel n v g h = rw (read_range v.store v.active_fat n h, ◌>>=◌)

  -- A defect: for a volume of the laws' geometry and a cluster `n` of it that is the last one of its
  -- chain, fat_delete_file_clusters with `n` as the new last cluster, where nothing has to be deleted,
  -- always reports an error (the deletion goes on at FAT_EOC, which is no cluster).
  pub delete_file_clusters_nothing :
      (fuel n : ℕ) (o : Open S)
      → IsVolume copies dc o.v
      → 0 < n
      → n ≤ dc + 1
      → fat_entry ops laws o.v n ≡ fat_eoc
      → (e : ℕ) × ((fat_delete_file_clusters ops (suc fuel) n o).0 ≡ err e)
  delete_file_clusters_nothing fuel n o g p b last =
      let keep : (n == 0) ≡ false = ground arith in
      let (same, keeps, answer) = read_fat_entry_lem ops laws o.v n g b in
      let w : Volume S = (read_fat_entry ops n o.v).1 in
      let g' = IsVolume-same copies dc o.v w same g in
      let (same', keeps', written) = write_fat_entry_lem ops laws w n fat_eoc g' b (inr refl) in
      let g'' = IsVolume-same copies dc w ((cut (suc fuel) n o keep).1) same' g' in
      elim answer [
        | inr (e, r, d) ↦ (e, tail_read_err (suc fuel) n o keep r)
        | inl r ↦ elim written [
          | inr (e, u) ↦ (e, tail_write_err (suc fuel) n o keep r u)
          | inl (u, z) ↦ (
            enxio,
            ap (λ t. t.0) (tail_ok (suc fuel) n o keep (r ∙ ap ok last) u)
                ∙ delete_range fuel fat_eoc ((cut (suc fuel) n o keep).1) g'' g.few,
          )
        ]
      ]

  -- `n` is the last cluster, the clusters of the list are free, and nothing else changed.
  abbrev pub Trimmed : ℕ → List ℕ → Open S → Res (Option (Unit {0})) × Open S → Type 0
  Trimmed n chain o r =
      (r.0 ≡ ok (some tt))
      × (r.1.f ≡ o.f)
      × ((k : ℕ) → k < copies → entry r.1.v.store k n ≡ fat_eoc)
      × All (λ m. (k : ℕ) → k < copies → entry r.1.v.store k m ≡ 0) chain
      × ((k m : ℕ) → m ≢ n → All (λ z. z ≢ m) chain → entry r.1.v.store k m ≡ entry o.v.store k m)

  -- For a volume of the laws' geometry, a cluster `n` of it with the chain `y ∷ ys` behind it, and more
  -- fuel than that chain has links: unless fat_delete_file_clusters with `n` as the new last cluster
  -- reports an error, `n` is the last cluster of its chain, all entries of the chain behind it are 0 in
  -- every copy of the FAT, and entries of other clusters are as they were; the file is as it was.
  pub delete_file_clusters_tail :
      (fuel n y : ℕ) (ys : List ℕ) (o : Open S)
      → IsVolume copies dc o.v
      → 0 < n
      → n ≤ dc + 1
      → Linked dc (fat_entry ops laws o.v) n (y ∷ ys)
      → length ys < fuel
      → let r = fat_delete_file_clusters ops fuel n o in
        Trimmed n (y ∷ ys) o r ⊎ ((e : ℕ) × (r.0 ≡ err e))
  delete_file_clusters_tail fuel n y ys o g p b l f =
      let keep : (n == 0) ≡ false = ground arith in
      let (same, keeps, answer) = read_fat_entry_lem ops laws o.v n g b in
      let w : Volume S = (read_fat_entry ops n o.v).1 in
      let u : Volume S = (cut fuel n o keep).1 in
      let g' = IsVolume-same copies dc o.v w same g in
      let (same', keeps', written) = write_fat_entry_lem ops laws w n fat_eoc g' b (inr refl) in
      let g'' = IsVolume-same copies dc w u same' g' in
      let apart = Linked-first dc (fat_entry ops laws o.v) n (y ∷ ys) g.few l in
      let active : u.active_fat ≡ o.v.active_fat =
        ap (λ (t : Volume S). t.active_fat) same' ∙ ap (λ (t : Volume S). t.active_fat) same in
      let rest =
        Linked-except dc (fat_entry ops laws o.v) (fat_entry ops laws u) n y ys
          (λ m d.
            ap (λ k. entry u.store k m) active ∙ keeps' o.v.active_fat m d ∙ keeps o.v.active_fat m)
          apart l.3 in
      let (kept, out) = fat_delete_clusters_lem ops laws fuel y ys u g'' l.2 rest f in
      elim answer [
        | inr (e, r, d) ↦ inr (e, tail_read_err fuel n o keep r)
        | inl r ↦ elim written [
          | inr (e, t) ↦ inr (e, tail_write_err fuel n o keep r t)
          | inl (t, z) ↦
              subst (λ r. Trimmed n (y ∷ ys) o r ⊎ ((e : ℕ) × (r.0 ≡ err e)))
                (sym (tail_ok fuel n o keep (r ∙ ap ok l.0) t))
                (elim out [
                  | inr (e, x) ↦ inr (e, x)
                  | inl (x, zeros, count) ↦ inl (
                    x,
                    refl,
                    λ k b. kept k n apart ∙ z k b,
                    zeros,
                    λ k m d a. kept k m a ∙ keeps' k m d ∙ keeps k m,
                  )
                ])
        ]
      ]
