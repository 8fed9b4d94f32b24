-- ===== src/Fat/Cache/Sync.antt =====
-- fat_dirtybuf and the loop of fat_sync of fd32/modules/fat/volume.c.
use free_dos.Common.{
  ℕ, zero, suc, ◌+◌, ◌<◌, ◌≡◌, refl, ◌⊎◌, inl, inr, sym, ◌∙◌, subst, ◌==◌, length, arith,
  Bool-cases, Option-cases,
}
use free_dos.Common.Errno.{Res, ok, err, eio}
use free_dos.Fat.Cache.{BlockDev, Cache, flush_buffer, buffer_at, find_from, sync_loop}
use free_dos.Fat.Cache.View.{
  DevLaws, seen-covered, seen-uncovered, covers_lem, find_buffer-some, find_from-none,
}
use free_dos.Fat.Cache.Flush.{
  IsWell, view, Keeps, Keeps-refl, Keeps-trans, IsFlushed, flush_buffer-Flushes,
}
use free_dos.Fat.Cache.Load.{clean-shows}

module _ {D : Type 0} {dev : BlockDev D} {blocks : ℕ} (laws : DevLaws dev blocks) where
  -- All buffers before place `k` hold nothing that the device does not.
  abbrev pub FlushedBelow : ℕ → Cache D → Type 0
  FlushedBelow k c = (i : ℕ) → i < k → IsFlushed laws i c

  -- Flushed buffers show the sectors of the device.
  pub flushed-view :
      (c : Cache D)
      → IsWell laws c
      → FlushedBelow (length c.buffers) c
      → (n : ℕ) → laws.disk c.blk n ≡ view laws c n
  flushed-view c inv flushed n = elim (Option-cases (find_from 0 c.buffers n)) [
    | inl e ↦ sym (seen-uncovered (laws.disk c.blk) c.buffers n (find_from-none 0 c.buffers n e))
    | inr (i, e) ↦
        let (l, h) = find_buffer-some c.buffers n i e in
        let (v, lo, hi) = covers_lem (buffer_at c i) n h in
        sym (
          seen-covered inv i n l h
          ∙ clean-shows blocks (laws.disk c.blk) (buffer_at c i) n (inv.good i l v) (flushed i l v)
              h)
  ]

  abbrev pub Syncs : Cache D → Res (Unit {0}) × Cache D → Type 0
  Syncs c r =
      Keeps laws c r.1 × (((r.0 ≡ ok tt) × FlushedBelow (length c.buffers) r.1) ⊎ (r.0 ≡ err eio))

  sync_loop-from :
      (rounds k : ℕ) (c : Cache D)
      → IsWell laws c
      → k + rounds ≡ length c.buffers
      → FlushedBelow k c
      → Syncs c (sync_loop dev rounds k c)
  unfolding sync_loop
  sync_loop-from zero k c inv h done =
      (Keeps-refl laws c inv, inl (refl, λ i l. done i (omega arith)))
  sync_loop-from (suc rounds) k c inv h done =
      let (keeps, lru, finds, kept, out) = flush_buffer-Flushes laws k c inv (omega arith) in
      let c' = (flush_buffer dev k c).1 in
      elim out [
        | inr e ↦ rw (e, sync_loop) (keeps, inr refl)
        | inl (e, flushed) ↦
            let done' : FlushedBelow (suc k) c' = λ i l. elim (Bool-cases (i == k)) [
              | inl x ↦ let y : k ≡ i = ground arith in subst (λ j. IsFlushed laws j c') y flushed
              | inr x ↦ kept i (done i (ground arith))
            ] in
            let (keeps', out') =
              sync_loop-from rounds (suc k) c' keeps.well (omega (arith, keeps.many)) done' in
            let r = sync_loop dev rounds (suc k) c' in
            rw (e, sync_loop)
              (
                Keeps-trans laws c c' (r.1) keeps keeps',
                subst (λ n. ((r.0 ≡ ok tt) × FlushedBelow n r.1) ⊎ (r.0 ≡ err eio)) keeps.many out',
              )
      ]

  -- For a device that keeps the laws and well-formed buffers: the loop of fat_sync over them all keeps
  -- them well-formed and every sector that a reader sees; it returns -EIO, or each sector of the
  -- device is then what a reader sees.
  pub sync_loop_lem :
      (c : Cache D)
      → IsWell laws c
      → let r = sync_loop dev (length c.buffers) 0 c in
        Keeps laws c r.1
        × (((r.0 ≡ ok tt) × ((n : ℕ) → laws.disk r.1.blk n ≡ view laws c n)) ⊎ (r.0 ≡ err eio))
  sync_loop_lem c inv =
      let (keeps, out) =
        sync_loop-from (length c.buffers) 0 c inv (omega arith) (λ i l. absurd (omega arith)) in
      let r = sync_loop dev (length c.buffers) 0 c in
      (
        keeps,
        elim out [
          | inr e ↦ inr e
          | inl (e, done) ↦ inl (
            e,
            λ n.
                flushed-view (r.1) keeps.well
                  (subst (λ m. FlushedBelow m r.1) (sym keeps.many) done) n
                ∙ keeps.same n,
          )
        ],
      )
