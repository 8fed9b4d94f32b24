-- ===== src/Fat/Cache/Read.antt =====
-- fat_readbuf of fd32/modules/fat/volume.c.
use Prim.Native.Nat.{min}
use free_dos.Common.{
  get_or-set_self, ℕ, ◌+◌, ◌-◌, ◌*◌, ◌/◌, ◌^◌, ◌<◌, ◌≡◌, refl, ◌⊎◌, inl, inr, ap, sym, ◌∙◌, subst,
  true, false, leb, length, arith, Bool-cases, Option-cases, Option, none, some, set, length-set,
}
use free_dos.Common.Errno.{Res-cases, Res, ok, err, eio}
use free_dos.Fat.Cache.{
  fat_read_ahead, Sector, BlockDev, Buffer, Cache, blank, covers, flush_buffer, buffer_at,
  find_from, find_buffer, touch, load, refill, fat_readbuf, victim, erase,
}
use free_dos.Fat.Cache.View.{
  DevLaws, AllBelow, IsCoherent, seen, seen-device, seen-covered, find_buffer-some, erase-AllBelow,
  append-AllBelow, append-some_place,
}
use free_dos.Fat.Cache.Flush.{IsWell, view, Keeps, Keeps-trans, IsFlushed, flush_buffer-Flushes}
use free_dos.Fat.Cache.Load.{
  device-IsCoherent, covers-loaded, loaded-IsCoherent, loaded-seen, dropped-IsCoherent,
  dropped-seen,
}

module _ {D : Type 0} {dev : BlockDev D} {blocks : ℕ} (laws : DevLaws dev blocks) where
  -- The place of a valid buffer with the sector, and the byte offset of the sector in its data, which
  -- hold what a reader of the volume sees.
  abbrev pub Found : ℕ → ℕ → ℕ → Cache D → Type 0
  Found s i off c =
      (i < length c.buffers)
      × (covers (buffer_at c i) s ≡ true)
      × (off ≡ (s - (buffer_at c i).sector) * 2 ^ c.log_bytes_per_sector)
      × ((buffer_at c i).contents (s - (buffer_at c i).sector) ≡ view laws c s)

  abbrev pub Reads : ℕ → Cache D → Res (ℕ × ℕ) × Cache D → Type 0
  Reads s c r =
      Keeps laws c r.1
      × (((i : ℕ) × (off : ℕ) × (r.0 ≡ ok (i, off)) × Found s i off r.1) ⊎ (r.0 ≡ err eio))

  Reads-after :
      (s : ℕ) (a b : Cache D) (r : Res (ℕ × ℕ) × Cache D)
      → Keeps laws a b
      → Reads s b r
      → Reads s a r
  Reads-after s a b r k (x, y) = (Keeps-trans laws a b (r.1) k x, y)

  touch-Reads :
      (s i : ℕ) (c : Cache D)
      → IsWell laws c
      → i < length c.buffers
      → covers (buffer_at c i) s ≡ true
      → Reads s c (touch s i c)
  touch-Reads s i c inv l h =
      let places' =
        append-AllBelow (length c.buffers) i (erase i c.buffers_lru)
          (erase-AllBelow (length c.buffers) i c.buffers_lru inv.places) l in
      (
        record {
          well = record {
            good = inv.good;
            apart = inv.apart;
            places = places';
            some_place = append-some_place i (erase i c.buffers_lru);
          };
          same = λ n. refl;
          many = refl;
          log_same = refl;
        },
        inl (
          i,
          (s - (buffer_at c i).sector) * 2 ^ c.log_bytes_per_sector,
          refl,
          (l, h, refl, sym (seen-covered inv i s l h)),
        ),
      )

  module _ (s i : ℕ) (c : Cache D) (inv : IsWell laws c) (l : i < length c.buffers)
      (flushed : IsFlushed laws i c) (miss : find_from 0 c.buffers s ≡ none) where
    abbrev base : ℕ
    base = s / fat_read_ahead * fat_read_ahead

    abbrev got : Res (ℕ × (ℕ → Sector)) × D
    got = dev.fat_blockdev_read fat_read_ahead base c.blk

    got-same : (n : ℕ) → laws.disk got.1 n ≡ laws.disk c.blk n
    got-same n = laws.read_keeps c.blk fat_read_ahead base n

    got-IsCoherent : IsCoherent blocks (laws.disk got.1) c.buffers c.buffers_lru
    got-IsCoherent = device-IsCoherent inv got-same

    got-seen : (n : ℕ) → seen (laws.disk got.1) c.buffers n ≡ view laws c n
    got-seen n = seen-device (laws.disk c.blk) (laws.disk got.1) c.buffers n (λ u. got-same n)

    load-failed :
        (b : Buffer)
        → b.valid ≡ false
        → Reads s c (err eio, record c { blk = got.1; buffers = set c.buffers i b })
    load-failed b invalid = (
      record {
        well = dropped-IsCoherent i b got-IsCoherent l invalid;
        same = λ n. dropped-seen i b got-IsCoherent l invalid flushed n ∙ got-seen n;
        many = length-set c.buffers i b;
        log_same = refl;
      },
      inr refl,
    )

    abbrev filled : ℕ → (ℕ → Sector) → Cache D
    filled n contents =
        let b : Buffer = record {
          sector = base;
          count = n;
          valid = true;
          dirty = false;
          contents = contents;
        } in
        record c { blk = got.1; buffers = set c.buffers i b }

    abbrev count : ℕ
    count = min fat_read_ahead (blocks - base)

    load-filled :
        (contents : ℕ → Sector)
        → s < base + count
        → ((k : ℕ) → k < count → contents k ≡ laws.disk got.1 (base + k))
        → Reads s c (touch s i (filled count contents))
    load-filled contents h there =
        let b : Buffer = record {
          sector = base;
          count = count;
          valid = true;
          dirty = false;
          contents = contents;
        } in
        let c' = filled count contents in
        let inv' : IsWell laws c' =
          loaded-IsCoherent s i b contents got-IsCoherent l miss h there in
        let k : Keeps laws c c' = record {
          well = inv';
          same =
              λ n. loaded-seen s i b contents got-IsCoherent l miss h there flushed n ∙ got-seen n;
          many = length-set c.buffers i b;
          log_same = refl;
        } in
        Reads-after s c c' (touch s i c') k (
          touch-Reads s i c' inv' (omega (arith, length-set c.buffers i b)) (
            ap (λ w. covers w s) (get_or-set_self c.buffers i b blank l)
            ∙ covers-loaded s i b contents got-IsCoherent l miss h))

    load-done :
        (n : ℕ) (contents : ℕ → Sector)
        → got.0 ≡ ok (n, contents)
        → leb (base + n) s ≡ false
        → Reads s c (touch s i (filled n contents))
    load-done n contents r h =
        let (e, there) = laws.read_answers c.blk fat_read_ahead base n contents r in
        subst (λ m. Reads s c (touch s i (filled m contents))) (sym e)
          (load-filled contents (ground arith)
            (λ k m. there k (omega arith) ∙ sym (got-same (base + k))))

    pub load-Reads : Reads s c (load dev s i c)
    unfolding load
    load-Reads = elim (Res-cases (got.0)) [
      | inr (e, r) ↦
          rw (r, load)
            (load-failed (record (buffer_at c i) { sector = base; valid = false; dirty = false })
              refl)
      | inl ((n, contents), r) ↦ elim (Bool-cases (leb (base + n) s)) [
        | inl y ↦
            rw (r, y, load)
              (load-failed
                (record {
                  sector = base;
                  count = (buffer_at c i).count;
                  valid = false;
                  dirty = false;
                  contents = contents;
                })
                refl)
        | inr y ↦ rw (r, y, load) (load-done n contents r y)
      ]
    ]

  victim-lt :
      (buffer : Option ℕ) (c : Cache D)
      → IsWell laws c
      → ((i : ℕ) → buffer ≡ some i → i < length c.buffers)
      → victim buffer c < length c.buffers
  victim-lt (some i) c inv given = given i refl
  victim-lt none c inv given =
      let (j, rest, e) = inv.some_place in
      let h = subst (λ xs. AllBelow (length c.buffers) xs) e inv.places in rw e (h.0)

  counted :
      (c : Cache D) (h m : ℕ)
      → IsWell laws c
      → Keeps laws c (record c { buf_hit = h; buf_miss = m })
  counted c h m inv = record { well = inv; same = λ n. refl; many = refl; log_same = refl }

  refill-Reads :
      (s i : ℕ) (c : Cache D)
      → IsWell laws c
      → i < length c.buffers
      → find_from 0 c.buffers s ≡ none
      → Reads s c (refill dev s i c)
  unfolding refill
  refill-Reads s i c inv l miss =
      let (k, lru, finds, kept, done) = flush_buffer-Flushes laws i c inv l in
      let c' = (flush_buffer dev i c).1 in
      elim done [
        | inr e ↦ rw (e, refill) (k, inr refl)
        | inl (e, flushed) ↦
            rw (e, refill)
              (Reads-after s c c' (load dev s i c') k
                (load-Reads s i c' k.well (omega (arith, k.many)) flushed (finds s ∙ miss)))
      ]

  -- For a device that keeps the laws, well-formed buffers, and no place or the place of one:
  -- fat_readbuf keeps them well-formed and keeps every sector that a reader of the volume sees; it
  -- returns -EIO, or the place of a valid buffer that holds the sector, and the byte offset of what
  -- a reader sees of it.
  pub fat_readbuf-Reads :
      (s : ℕ) (buffer : Option ℕ) (c : Cache D)
      → IsWell laws c
      → ((i : ℕ) → buffer ≡ some i → i < length c.buffers)
      → Reads s c (fat_readbuf dev s buffer c)
  unfolding fat_readbuf find_buffer
  fat_readbuf-Reads s buffer c inv given = elim (Option-cases (find_from 0 c.buffers s)) [
    | inr (i, e) ↦
        let (l, h) = find_buffer-some c.buffers s i e in
        let c' = record c { buf_hit = c.buf_hit + 1 } in
        rw (e, fat_readbuf)
          (Reads-after s c c' (touch s i c') (counted c (c.buf_hit + 1) c.buf_miss inv)
            (touch-Reads s i c' inv l h))
    | inl e ↦
        let c' = record c { buf_miss = c.buf_miss + 1 } in
        let i = victim buffer c in
        rw (e, fat_readbuf)
          (Reads-after s c c' (refill dev s i c') (counted c c.buf_hit (c.buf_miss + 1) inv)
            (refill-Reads s i c' inv (victim-lt buffer c inv given) e))
  ]
