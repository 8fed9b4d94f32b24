-- ===== src/Fat/Delete.antt =====
-- fat_delete_clusters and fat_delete_file_clusters of fd32/modules/fat/alloc.c.
use free_dos.Common.{
  ℕ, zero, suc, ◌+◌, ◌%◌, ◌^◌, ◌≤◌, ◌<◌, ◌≡◌, refl, ◌≢◌, ◌⊎◌, inl, inr, ◌==◌, if◌then◌else◌, true,
  false, List, [], ◌∷◌, Option, some, length, ◌∙◌, sym, ap, subst, arith,
}
use free_dos.Common.Errno.{Res, ok, err, ◌>>=◌, return}
use free_dos.Common.Word.{add32}
use free_dos.Fat.{
  FatOps, Volume, fat_eoc, read_fat_entry, write_fat_entry, count_up, fat_delete_clusters,
}
use free_dos.Fat.Laws.{
  FatLaws, IsVolume, IsVolume-same, fat_entry, read_fat_entry_lem, write_fat_entry_lem,
}
use free_dos.Fat.Chain.{Linked, Linked-except, Linked-first, All}

module _ {S : Type 0} (ops : FatOps S) {copies dc : ℕ} (laws : FatLaws ops copies dc) where
  open laws use {entry}

  -- One round of the loop.
  module _ (fuel from : ℕ) (v : Volume S) where
    abbrev after_read : Volume S
    after_read = (read_fat_entry ops from v).1

    abbrev after_write : Volume S
    after_write = (write_fat_entry ops from 0 after_read).1

    delete_step :
        {y : ℕ}
        → (read_fat_entry ops from v).0 ≡ ok y
        → (write_fat_entry ops from 0 after_read).0 ≡ ok tt
        → fat_delete_clusters ops (suc fuel) from v
          ≡ (if y == fat_eoc then return (some tt) else fat_delete_clusters ops fuel y)
              (count_up after_write)
    unfolding fat_delete_clusters
    delete_step r w = rw (r, ◌>>=◌) (rw (w, ◌>>=◌))

    delete_read_err :
        {e : ℕ}
        → (read_fat_entry ops from v).0 ≡ err e
        → fat_delete_clusters ops (suc fuel) from v ≡ (err e, after_read)
    unfolding fat_delete_clusters
    delete_read_err r = rw (r, ◌>>=◌)

    delete_write_err :
        {y e : ℕ}
        → (read_fat_entry ops from v).0 ≡ ok y
        → (write_fat_entry ops from 0 after_read).0 ≡ err e
        → fat_delete_clusters ops (suc fuel) from v ≡ (err e, after_write)
    unfolding fat_delete_clusters
    delete_write_err r w = rw (r, ◌>>=◌) (rw (w, ◌>>=◌))

  -- The entries of other clusters are as they were; all entries of the chain are 0 in every copy of
  -- the FAT and as many clusters more are counted as free, or an error is passed on.
  abbrev pub Deleted : List ℕ → Volume S → Res (Option (Unit {0})) × Volume S → Type 0
  Deleted chain v r =
      ((k m : ℕ) → All (λ y. y ≢ m) chain → entry r.1.store k m ≡ entry v.store k m)
      × (((r.0 ≡ ok (some tt))
            × All (λ y. (k : ℕ) → k < copies → entry r.1.store k y ≡ 0) chain
            × (r.1.free_clusters ≡ (v.free_clusters + length chain) % 2 ^ 32))
          ⊎ ((e : ℕ) × (r.0 ≡ err e)))

  -- The state behind one round.
  abbrev Freed : ℕ → Volume S → Volume S → Type 0
  Freed x v w =
      (w ≡ record v {
        store = w.store;
        free_clusters = add32 v.free_clusters 1;
        fsinfo_changed = true;
      })
      × ((k m : ℕ) → m ≢ x → entry w.store k m ≡ entry v.store k m)
      × ((k : ℕ) → k < copies → entry w.store k x ≡ 0)

  -- One round on a cluster of the volume: the cluster is freed and its old entry is handed to `go`,
  -- or an error is passed on.
  round_lem :
      (fuel x : ℕ) (v : Volume S)
      → IsVolume copies dc v
      → x ≤ dc + 1
      → ((w : Volume S) × Freed x v w
          × (fat_delete_clusters ops (suc fuel) x v
              ≡ (if fat_entry ops laws v x == fat_eoc
                    then return (some tt)
                    else fat_delete_clusters ops fuel (fat_entry ops laws v x))
                  w))
        ⊎ ((e : ℕ) × (w : Volume S) × (fat_delete_clusters ops (suc fuel) x v ≡ (err e, w))
            × ((k m : ℕ) → m ≢ x → entry w.store k m ≡ entry v.store k m))
  round_lem fuel x v g b =
      let (same, keeps, answer) = read_fat_entry_lem ops laws v x g b in
      let v1 : Volume S = after_read fuel x v in
      let v2 : Volume S = after_write fuel x v in
      let g1 = IsVolume-same copies dc v v1 same g in
      let (same', keeps', answer') = write_fat_entry_lem ops laws v1 x 0 g1 b (inl (omega arith)) in
      elim answer [
        | inl r ↦ elim answer' [
          | inl (w, zero_entry) ↦ inl (
            count_up v2,
            (ground arith, λ k m d. keeps' k m d ∙ keeps k m, zero_entry),
            delete_step fuel x v r w,
          )
          | inr (e, w) ↦
              inr (e, v2, delete_write_err fuel x v r w, λ k m d. keeps' k m d ∙ keeps k m)
        ]
        | inr (e, r, d) ↦ inr (e, v1, delete_read_err fuel x v r, λ k m d. keeps k m)
      ]

  Freed-IsVolume :
      (x : ℕ) (v w : Volume S) → Freed x v w → IsVolume copies dc v → IsVolume copies dc w
  Freed-IsVolume x v w (same, keeps, z) g = record {
    copies_of = cc (ap (λ (u : Volume S). u.num_fats) same, g.copies_of);
    active =
        let h : w.active_fat ≡ v.active_fat = ap (λ (u : Volume S). u.active_fat) same in
        omega (arith, h, g.active);
    clusters_of = cc (ap (λ (u : Volume S). u.data_clusters) same, g.clusters_of);
    few = g.few;
  }

  Deleted-next :
      (x y : ℕ) (ys : List ℕ) (v w : Volume S) (r : Res (Option (Unit {0})) × Volume S)
      → Freed x v w
      → All (λ z. z ≢ x) (y ∷ ys)
      → Deleted (y ∷ ys) w r
      → Deleted (x ∷ y ∷ ys) v r
  Deleted-next x y ys v w r (same, keeps, zero_entry) apart (kept, out) = (
    λ k m d. kept k m (d.1) ∙ keeps k m (λ e. d.0 (sym e)),
    elim out [
      | inl (e, zeros, count) ↦
          let before : w.free_clusters ≡ add32 v.free_clusters 1 =
            ap (λ (u : Volume S). u.free_clusters) same in
          inl (e, (λ k l. kept k x apart ∙ zero_entry k l, zeros), omega (arith, count, before))
      | inr e ↦ inr e
    ],
  )

  -- For a volume of the laws' geometry and a chain `x ∷ xs` in its FAT: given more fuel than the chain
  -- has links, fat_delete_clusters ends; unless it passes on an error, all entries of the chain are 0
  -- in every copy of the FAT and the count of free clusters grew by the length of the chain (as a
  -- 32-bit word). Entries of other clusters are as they were in any case.
  pub fat_delete_clusters_lem :
      (fuel x : ℕ) (xs : List ℕ) (v : Volume S)
      → IsVolume copies dc v
      → x ≤ dc + 1
      → Linked dc (fat_entry ops laws v) x xs
      → length xs < fuel
      → Deleted (x ∷ xs) v (fat_delete_clusters ops fuel x v)
  fat_delete_clusters_lem zero x xs v g b l f = absurd (omega arith)
  fat_delete_clusters_lem (suc fuel) x [] v g b l f = elim (round_lem fuel x v g b) [
    | inl (w, (same, keeps, zero_entry), e) ↦
        rw (e, l)
          (
            λ k m d. keeps k m (λ e. d.0 (sym e)),
            inl (refl, (zero_entry, tt), ap (λ (u : Volume S). u.free_clusters) same),
          )
    | inr (e, w, eq, keeps) ↦ rw eq (λ k m d. keeps k m (λ e. d.0 (sym e)), inr (e, refl))
  ]
  fat_delete_clusters_lem (suc fuel) x (y ∷ ys) v g b l f =
      let apart = Linked-first dc (fat_entry ops laws v) x (y ∷ ys) g.few l in
      let more : (fat_entry ops laws v x == fat_eoc) ≡ false = ground (arith, l.0, l.2, g.few) in
      elim (round_lem fuel x v g b) [
        | inl (w, freed, e) ↦
            let same : (n : ℕ) → n ≢ x → fat_entry ops laws w n ≡ fat_entry ops laws v n = λ n d.
              ap (λ k. entry w.store k n) (ap (λ (u : Volume S). u.active_fat) (freed.0))
              ∙ freed.1 v.active_fat n d in
            let whole : fat_delete_clusters ops (suc fuel) x v ≡ fat_delete_clusters ops fuel y w =
              e ∙ rw (more, l.0) refl in
            subst (Deleted (x ∷ y ∷ ys) v) (sym whole) (
              Deleted-next x y ys v w (fat_delete_clusters ops fuel y w) freed apart (
                fat_delete_clusters_lem fuel y ys w (Freed-IsVolume x v w freed g) l.2
                  (Linked-except dc (fat_entry ops laws v) (fat_entry ops laws w) x y ys same apart
                    l.3)
                  (omega arith)))
        | inr (e, w, eq, keeps) ↦ rw eq (λ k m d. keeps k m (λ e. d.0 (sym e)), inr (e, refl))
      ]
