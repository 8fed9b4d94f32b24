-- ===== src/Fat/Cache/Dirty.antt =====
-- fat_dirtybuf of fd32/modules/fat/volume.c.
use free_dos.Common.{
  get_or-set_self, true≢false, ℕ, ◌-◌, ◌<◌, ◌≡◌, refl, ◌⊎◌, inl, inr, ap, sym, ◌∙◌, subst, Bool,
  true, false, if◌then◌else◌, length, arith, set, length-set,
}
use free_dos.Common.Errno.{Res, ok, err, eio}
use free_dos.Fat.Cache.{
  Sector, BlockDev, Buffer, Cache, blank, covers, flush_buffer, buffer_at, fat_dirtybuf, set_buffer,
}
use free_dos.Fat.Cache.View.{DevLaws, IsCoherent, at, seen, seen-covered}
use free_dos.Fat.Cache.Changed.{set-set}
use free_dos.Fat.Cache.Set.{seen-set, set-IsCoherent}
use free_dos.Fat.Cache.Flush.{IsWell, view, Keeps, Keeps-refl, flush_buffer-Flushes}

module _ {D : Type 0} {dev : BlockDev D} {blocks : ℕ} (laws : DevLaws dev blocks) where
  abbrev marked : ℕ → Bool → Cache D → Res (Unit {0}) × Cache D
  marked i write_through d = if write_through then flush_buffer dev i d else (ok tt, d)

  fat_dirtybuf-valid :
      (i : ℕ) (write_through : Bool) (c : Cache D)
      → (buffer_at c i).valid ≡ true
      → fat_dirtybuf dev i write_through c
        ≡ marked i write_through (set_buffer i (record (buffer_at c i) { dirty = true }) c)
  unfolding fat_dirtybuf
  fat_dirtybuf-valid i write_through c h = rw (h, fat_dirtybuf) refl

  -- A caller stores bytes in the data of a buffer, and marks it: from here on a reader sees them.
  module _ (i : ℕ) (contents : ℕ → Sector) (c : Cache D) (inv : IsWell laws c)
      (l : i < length c.buffers) (valid : (buffer_at c i).valid ≡ true) where
    abbrev b' : Buffer
    b' = record (buffer_at c i) { dirty = true; contents = contents }

    stored-IsCoherent : IsCoherent blocks (laws.disk c.blk) (set c.buffers i b') c.buffers_lru
    stored-IsCoherent =
        let (x, y, z, w) = inv.good i l valid in
        set-IsCoherent i b' inv l (λ v. (x, y, z, λ e. absurd (true≢false e)))
          (λ v j ne m u e. ne (inv.apart j i m l u v e)) (λ j ne m. inv.good j m)

    pub stored-covered :
        (n : ℕ)
        → covers (buffer_at c i) n ≡ true
        → seen (laws.disk c.blk) (set c.buffers i b') n ≡ contents (n - (buffer_at c i).sector)
    stored-covered n h =
        let here : at (set c.buffers i b') i ≡ b' = get_or-set_self c.buffers i b' blank l in
        seen-covered stored-IsCoherent i n (omega (arith, length-set c.buffers i b')) (rw here h)
        ∙ ap (λ w. w.contents (n - w.sector)) here

    stored-other :
        (n : ℕ)
        → covers (buffer_at c i) n ≡ false
        → seen (laws.disk c.blk) (set c.buffers i b') n ≡ view laws c n
    stored-other n h =
        seen-set i n b' inv stored-IsCoherent l (λ e. absurd (true≢false (sym e ∙ h)))
          (λ x e. absurd (true≢false (sym e ∙ h)))

    abbrev stored : Cache D
    stored = set_buffer i (record (buffer_at c i) { contents = contents }) c

    abbrev dirtied : Cache D
    dirtied = set_buffer i b' c

    dirtied-eq : set_buffer i (record (buffer_at stored i) { dirty = true }) stored ≡ dirtied
    dirtied-eq =
        let b : Buffer = record (buffer_at c i) { contents = contents } in
        rw (get_or-set_self c.buffers i b blank l)
          (ap (λ bs. record c { buffers = bs }) (set-set c.buffers i b b'))

    abbrev pub Dirties : Res (Unit {0}) × Cache D → Type 0
    Dirties r =
        IsWell laws r.1
        × ((n : ℕ)
            → covers (buffer_at c i) n ≡ true
            → view laws r.1 n ≡ contents (n - (buffer_at c i).sector))
        × ((n : ℕ) → covers (buffer_at c i) n ≡ false → view laws r.1 n ≡ view laws c n)
        × ((r.0 ≡ ok tt) ⊎ (r.0 ≡ err eio))

    dirtied-Dirties :
        (r : Res (Unit {0}) × Cache D)
        → Keeps laws dirtied r.1
        → (r.0 ≡ ok tt) ⊎ (r.0 ≡ err eio)
        → Dirties r
    dirtied-Dirties r k out =
        (k.well, λ n h. k.same n ∙ stored-covered n h, λ n h. k.same n ∙ stored-other n h, out)

    marked-Dirties : (write_through : Bool) → Dirties (marked i write_through dirtied)
    marked-Dirties false =
        dirtied-Dirties (ok tt, dirtied) (Keeps-refl laws dirtied stored-IsCoherent) (inl refl)
    marked-Dirties true =
        let (k, lru, finds, kept, out) =
          flush_buffer-Flushes laws i dirtied stored-IsCoherent
            (omega (arith, length-set c.buffers i b')) in
        dirtied-Dirties (flush_buffer dev i dirtied) k
          (elim out [ inl (x, y) ↦ inl x | inr x ↦ inr x ])

    -- For a device that keeps the laws, well-formed buffers, and the place of a valid one in whose data
    -- a caller has stored: fat_dirtybuf, written through or not, keeps the buffers well-formed, a
    -- reader of the volume sees what was stored in the sectors of that buffer, and all other sectors
    -- as before; it returns 0 or -EIO.
    pub fat_dirtybuf-Dirties :
        (write_through : Bool) → Dirties (fat_dirtybuf dev i write_through stored)
    fat_dirtybuf-Dirties write_through =
        let b : Buffer = record (buffer_at c i) { contents = contents } in
        let here : (buffer_at stored i).valid ≡ true =
          ap (λ w. w.valid) (get_or-set_self c.buffers i b blank l) ∙ valid in
        subst Dirties
          (sym (
            fat_dirtybuf-valid i write_through stored here
            ∙ ap (marked i write_through) dirtied-eq))
          (marked-Dirties write_through)
