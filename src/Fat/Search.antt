-- ===== src/Fat/Search.antt =====
-- find_free_cluster of fd32/modules/fat/alloc.c: what it finds, and when it reports a full volume.
use free_dos.Common.{
  ℕ, zero, suc, ◌+◌, ◌-◌, ◌≤◌, ◌<◌, ◌≡◌, refl, ◌≢◌, ◌⊎◌, inl, inr, true, false, ◌==◌, ◌∙◌,
  Bool-cases, arith,
}
use free_dos.Common.Errno.{Res, ok, err, enospc, >>=-of_ok, >>=-of_err}
use free_dos.Fat.{
  FatOps, Volume, fat_fsi_na, read_fat_entry, find_free_loop, find_free_cluster_in_range,
  find_free_cluster, start_hint, unless_full,
}
use free_dos.Fat.Laws.{FatLaws, IsVolume, IsVolume-same, fat_entry, read_fat_entry_lem}

module _ {S : Type 0} (ops : FatOps S) {copies dc : ℕ} (laws : FatLaws ops copies dc) where
  open laws use {entry}

  -- Outcome of a search over the clusters from `from` (included) to `to` (excluded).
  abbrev Searched : ℕ → ℕ → Volume S → Res ℕ × Volume S → Type 0
  Searched from to v r =
      ((k m : ℕ) → entry (r.1.store) k m ≡ entry v.store k m)
      × (((k : ℕ) × (r.0 ≡ ok k)
            × (from ≤ k)
            × (k < to)
            × (fat_entry ops laws v k ≡ 0)
            × ((m : ℕ) → from ≤ m → m < k → fat_entry ops laws v m ≢ 0)
            × (r.1 ≡ record v { store = r.1.store; next_free = k; fsinfo_changed = true }))
          ⊎ ((r.0 ≡ err enospc)
              × ((m : ℕ) → from ≤ m → m < to → fat_entry ops laws v m ≢ 0)
              × (r.1 ≡ record v { store = r.1.store }))
          ⊎ ((e : ℕ) × (r.0 ≡ err e) × (e ≢ enospc) × (r.1 ≡ record v { store = r.1.store })))

  -- The search goes on behind a cluster that is not free.
  Searched-next :
      (from to : ℕ) (v w : Volume S) (r : Res ℕ × Volume S)
      → fat_entry ops laws v from ≢ 0
      → w ≡ record v { store = w.store }
      → ((k m : ℕ) → entry w.store k m ≡ entry v.store k m)
      → Searched (from + 1) to w r
      → Searched from to v r
  Searched-next from to v w r used same keeps (kept, inl (k, e, l, u, z, before, t)) = (
    λ k m. kept k m ∙ keeps k m,
    inl (
      k,
      e,
      omega arith,
      u,
      ground (arith, keeps v.active_fat k),
      λ m a b. ground (arith, keeps v.active_fat m, before m),
      ground arith,
    ),
  )
  Searched-next from to v w r used same keeps (kept, inr (inl (e, before, t))) = (
    λ k m. kept k m ∙ keeps k m,
    inr (inl (e, λ m a b. ground (arith, keeps v.active_fat m, before m), ground arith)),
  )
  Searched-next from to v w r used same keeps (kept, inr (inr (x, e, d, t))) =
      (λ k m. kept k m ∙ keeps k m, inr (inr (x, e, d, ground arith)))

  find_free_loop_lem :
      (rounds from to : ℕ) (v : Volume S)
      → IsVolume copies dc v
      → from + rounds ≡ to
      → to ≤ dc + 2
      → Searched from to v (find_free_loop ops rounds from v)
  unfolding find_free_loop
  find_free_loop_lem zero from to v g e b =
      (λ k m. refl, inr (inl (refl, λ m l u. absurd (omega arith), refl)))
  find_free_loop_lem (suc rounds) from to v g e b =
      let read = read_fat_entry ops from in
      let w : Volume S = (read v).1 in
      let (same, keeps, answer) = read_fat_entry_lem ops laws v from g (omega arith) in
      elim answer [
        | inl y ↦ rw (>>=-of_ok read _ v y) (elim (Bool-cases (fat_entry ops laws v from == 0)) [
          | inl z ↦ rw z (
            keeps,
            inl (
              from,
              refl,
              omega arith,
              omega arith,
              ground arith,
              λ m l u. absurd (omega arith),
              ground arith,
            ),
          )
          | inr z ↦ rw z (
              Searched-next from to v w (find_free_loop ops rounds (from + 1) w) (ground arith) same
                keeps
                (find_free_loop_lem rounds (from + 1) to w (IsVolume-same copies dc v w same g)
                  (omega arith) b))
        ])
        | inr (x, y, d) ↦ rw (>>=-of_err read _ v y) (keeps, inr (inr (x, refl, d, same)))
      ]

  -- The outcome of a search of the whole volume.
  abbrev pub Found : Volume S → Res ℕ × Volume S → Type 0
  Found v r =
      ((k m : ℕ) → entry (r.1.store) k m ≡ entry v.store k m)
      × (((k : ℕ) × (r.0 ≡ ok k)
            × (2 ≤ k)
            × (k ≤ dc + 1)
            × (fat_entry ops laws v k ≡ 0)
            × (r.1 ≡ record v { store = r.1.store; next_free = k; fsinfo_changed = true }))
          ⊎ ((r.0 ≡ err enospc)
              × ((m : ℕ) → 2 ≤ m → m ≤ dc + 1 → fat_entry ops laws v m ≢ 0)
              × (r.1
                  ≡ record v { store = r.1.store; next_free = fat_fsi_na; fsinfo_changed = true }))
          ⊎ ((e : ℕ) × (r.0 ≡ err e) × (e ≢ enospc) × (r.1 ≡ record v { store = r.1.store })))

  start_hint_bounds :
      (v : Volume S) → IsVolume copies dc v → (2 ≤ start_hint v) × (start_hint v ≤ dc + 2)
  start_hint_bounds v g = ground arith

  range_lem :
      (from to : ℕ) (v : Volume S)
      → IsVolume copies dc v
      → from ≤ to
      → to ≤ dc + 2
      → Searched from to v (find_free_cluster_in_range ops from to v)
  unfolding find_free_cluster_in_range
  range_lem from to v g l b = find_free_loop_lem (to - from) from to v g (omega arith) b

  module _ (m k : Volume S → Res ℕ × Volume S) (v : Volume S) where
    unless_full-ok : {a : ℕ} → (m v).0 ≡ ok a → unless_full m k v ≡ (ok a, (m v).1)
    unless_full-ok h = rw (h, unless_full)

    unless_full-full : (m v).0 ≡ err enospc → unless_full m k v ≡ k ((m v).1)
    unless_full-full h = rw (h, unless_full)

    unless_full-err : {e : ℕ} → (m v).0 ≡ err e → e ≢ enospc → unless_full m k v ≡ (err e, (m v).1)
    unless_full-err {e} h d =
        let no : (e == enospc) ≡ false = ground arith in rw (h, unless_full) (rw no)

  -- The part of the volume before the hint, after the part behind it was searched in vain.
  abbrev wrapped : ℕ → Volume S → Res ℕ × Volume S
  wrapped hint =
      unless_full (find_free_cluster_in_range ops 2 hint)
        (λ w. (err enospc, record w { next_free = fat_fsi_na; fsinfo_changed = true }))

  wrapped-Found :
      (hint : ℕ) (v w : Volume S)
      → IsVolume copies dc w
      → 2 ≤ hint
      → hint ≤ dc + 2
      → w ≡ record v { store = w.store }
      → ((k m : ℕ) → entry w.store k m ≡ entry v.store k m)
      → ((m : ℕ) → hint ≤ m → m < dc + 2 → fat_entry ops laws v m ≢ 0)
      → Found v (wrapped hint w)
  wrapped-Found hint v w g l u same keeps used =
      let search = find_free_cluster_in_range ops 2 hint in
      let (kept, outcome) = range_lem 2 hint w g l u in
      let kept' = λ (k m : ℕ). kept k m ∙ keeps k m in
      elim outcome [
        | inl (k, e, a, b, z, before, t) ↦ rw (unless_full-ok search _ w e) (
          kept',
          inl (k, refl, a, omega arith, ground (arith, keeps v.active_fat k), ground arith),
        )
        | inr (inl (e, before, t)) ↦ rw (unless_full-full search _ w e) (
          kept',
          inr (
              inl (
                refl,
                λ m a b. ground (arith, keeps v.active_fat m, before m, used m),
                ground arith,
              )),
        )
        | inr (inr (x, e, d, t)) ↦
            rw (unless_full-err search _ w e d) (kept', inr (inr (x, refl, d, ground arith)))
      ]

  -- For a volume of the laws' geometry: find_free_cluster changes no entry of the FAT; it returns a
  -- cluster of the volume whose entry is 0, noting it in `next_free`; or it reports -ENOSPC, and then
  -- no cluster of the volume is free; or it passes on another error of `fat_read`.
  pub find_free_cluster_lem :
      (v : Volume S) → IsVolume copies dc v → Found v (find_free_cluster ops v)
  unfolding find_free_cluster
  find_free_cluster_lem v g =
      let hint = start_hint v in
      let search = find_free_cluster_in_range ops hint (v.data_clusters + 2) in
      let (l, u) = start_hint_bounds v g in
      let top : v.data_clusters + 2 ≡ dc + 2 = omega (arith, g.clusters_of) in
      let (kept, outcome) = range_lem hint (v.data_clusters + 2) v g (omega arith) (omega arith) in
      elim outcome [
        | inl (k, e, a, b, z, before, t) ↦
            rw (unless_full-ok search _ v e) (kept, inl (k, refl, omega arith, omega arith, z, t))
        | inr (inl (e, before, t)) ↦ rw (unless_full-full search _ v e) (
            wrapped-Found hint v ((search v).1) (IsVolume-same copies dc v _ t g) l u t kept
              (λ m a b. before m a (omega arith)))
        | inr (inr (x, e, d, t)) ↦
            rw (unless_full-err search _ v e d) (kept, inr (inr (x, refl, d, t)))
      ]
