-- ===== src/Fat/Cache/Flush.antt =====
-- flush_buffer of fd32/modules/fat/volume.c.
use free_dos.Common.{
  get_or-set_self, true≢false, ℕ, ◌+◌, ◌≤◌, ◌<◌, ◌≡◌, refl, ◌≢◌, ◌⊎◌, inl, inr, ap, sym, ◌∙◌, subst,
  true, false, ◌==◌, List, length, arith, Bool-cases, set, length-set,
}
use free_dos.Common.Errno.{Res-cases, Res, ok, err, eio}
use free_dos.Fat.Cache.{
  fat_read_ahead, Sector, BlockDev, Buffer, Cache, blank, find_from, flush_buffer, buffer_at,
}
use free_dos.Fat.Cache.View.{
  DevLaws, IsGood, IsCoherent, at, seen, seen-device, seen-covered, find_from-set,
}
use free_dos.Fat.Cache.Set.{seen-set, set-cases, set-IsCoherent}

pub IsGood-device :
    (blocks : ℕ) (d d' : ℕ → Sector) (b : Buffer)
    → IsGood blocks d b
    → ((n : ℕ) → b.sector ≤ n → n < b.sector + b.count → d' n ≡ d n)
    → IsGood blocks d' b
IsGood-device blocks d d' b (x, y, z, w) h =
    (x, y, z, λ e i l. w e i l ∙ sym (h (b.sector + i) (omega arith) (omega arith)))

covered-elsewhere :
    (blocks : ℕ) (d : ℕ → Sector) (a b : Buffer) (n : ℕ)
    → IsGood blocks d a
    → IsGood blocks d b
    → a.sector ≢ b.sector
    → b.sector ≤ n
    → n < b.sector + b.count
    → (n < a.sector) ⊎ (a.sector + a.count ≤ n)
covered-elsewhere blocks d a b n (x, y, z, u) (x', y', z', u') ne lo hi =
    let p : a.count ≤ fat_read_ahead = omega arith in
    let q : b.count ≤ fat_read_ahead = omega arith in omega arith

-- What a flush of the buffer at `i` may do to the device.
module _ {blocks : ℕ} {d d' : ℕ → Sector} {bs : List Buffer} {lru : List ℕ} (i : ℕ)
    (inv : IsCoherent blocks d bs lru) (l : i < length bs) (valid : (at bs i).valid ≡ true)
    (keeps : (n : ℕ)
      → (n < (at bs i).sector) ⊎ ((at bs i).sector + (at bs i).count ≤ n)
      → d' n ≡ d n) where
  written-others :
      (j : ℕ) → j ≢ i → j < length bs → (at bs j).valid ≡ true → IsGood blocks d' (at bs j)
  written-others j ne m v =
      let ga = inv.good i l valid in
      let gb = inv.good j m v in
      IsGood-device blocks d d' (at bs j) gb (λ n lo hi. keeps n (
        covered-elsewhere blocks d (at bs i) (at bs j) n ga gb
          (λ e. ne (sym (inv.apart i j l m valid v e))) lo hi))

  written-apart :
      (j : ℕ) → j ≢ i → j < length bs → (at bs j).valid ≡ true → (at bs j).sector ≢ (at bs i).sector
  written-apart j ne m v e = ne (inv.apart j i m l v valid e)

  pub written-seen : (n : ℕ) → seen d' bs n ≡ seen d bs n
  written-seen n = seen-device d d' bs n (λ none_covers. keeps n (ground (arith, none_covers i l)))

  pub dirty-IsCoherent : (at bs i).dirty ≡ true → IsCoherent blocks d' bs lru
  dirty-IsCoherent dirty = record {
    good = λ j m v. elim (Bool-cases (j == i)) [
      | inl e ↦
          let h : i ≡ j = ground arith in
          let (x, y, z, w) = inv.good i l valid in
          subst (λ k. IsGood blocks d' (at bs k)) h
            (x, y, z, λ clean. absurd (true≢false (sym dirty ∙ clean)))
      | inr e ↦ written-others j (ground arith) m v
    ];
    apart = inv.apart;
    places = inv.places;
    some_place = inv.some_place;
  }

  pub clean-IsCoherent :
      ((k : ℕ) → k < (at bs i).count → d' ((at bs i).sector + k) ≡ (at bs i).contents k)
      → IsCoherent blocks d' (set bs i (record (at bs i) { dirty = false })) lru
  clean-IsCoherent stored =
      let (x, y, z, w) = inv.good i l valid in
      set-IsCoherent i (record (at bs i) { dirty = false }) inv l
        (λ v. (x, y, z, λ e k m. sym (stored k m))) (λ v. written-apart) written-others

module _ {D : Type 0} {dev : BlockDev D} {blocks : ℕ} (laws : DevLaws dev blocks) where
  abbrev pub IsWell : Cache D → Type 0
  IsWell c = IsCoherent blocks (laws.disk c.blk) c.buffers c.buffers_lru

  -- What a reader of the volume sees.
  abbrev pub view : Cache D → ℕ → Sector
  view c n = seen (laws.disk c.blk) c.buffers n

  -- The buffers are still well-formed and as many, and show the same sectors.
  pub record Keeps (c c' : Cache D) : Type 0 where
    pub well : IsWell c'
    pub same : (n : ℕ) → view c' n ≡ view c n
    pub many : length c'.buffers ≡ length c.buffers
    pub log_same : c'.log_bytes_per_sector ≡ c.log_bytes_per_sector

  pub Keeps-refl : (c : Cache D) → IsWell c → Keeps c c
  Keeps-refl c inv = record { well = inv; same = λ n. refl; many = refl; log_same = refl }

  pub Keeps-trans : (a b c : Cache D) → Keeps a b → Keeps b c → Keeps a c
  Keeps-trans a b c x y = record {
    well = y.well;
    same = λ n. y.same n ∙ x.same n;
    many = y.many ∙ x.many;
    log_same = y.log_same ∙ x.log_same;
  }

  -- The buffer at `i` holds nothing that the device does not.
  abbrev pub IsFlushed : ℕ → Cache D → Type 0
  IsFlushed i c = (buffer_at c i).valid ≡ true → (buffer_at c i).dirty ≡ false

  abbrev pub Flushes : ℕ → Cache D → Res (Unit {0}) × Cache D → Type 0
  Flushes i c f =
      Keeps c f.1
      × (f.1.buffers_lru ≡ c.buffers_lru)
      × ((s : ℕ) → find_from 0 f.1.buffers s ≡ find_from 0 c.buffers s)
      × ((j : ℕ) → IsFlushed j c → IsFlushed j f.1)
      × ((f.0 ≡ ok tt) × IsFlushed i f.1 ⊎ (f.0 ≡ err eio))

  module _ (i : ℕ) (c : Cache D) (inv : IsWell c) (l : i < length c.buffers)
      (valid : (buffer_at c i).valid ≡ true) (dirty : (buffer_at c i).dirty ≡ true) where
    abbrev b : Buffer
    b = buffer_at c i

    abbrev wrote : Res ℕ × D
    wrote = dev.fat_blockdev_write b.contents b.count b.sector c.blk

    wrote-keeps :
        (n : ℕ)
        → (n < b.sector) ⊎ (b.sector + b.count ≤ n)
        → laws.disk wrote.1 n ≡ laws.disk c.blk n
    wrote-keeps n h = laws.write_keeps c.blk b.contents b.count b.sector n h

    pub flush-failed : Flushes i c (err eio, record c { blk = wrote.1 })
    flush-failed = (
      record {
        well = dirty-IsCoherent i inv l valid wrote-keeps dirty;
        same = written-seen i inv l valid wrote-keeps;
        many = refl;
        log_same = refl;
      },
      refl,
      λ s. refl,
      λ j x. x,
      inr refl,
    )

    cleaned :
        (j : ℕ)
        → IsFlushed j c
        → IsFlushed j
            (record c { blk = wrote.1; buffers = set c.buffers i (record b { dirty = false }) })
    cleaned j x v = elim (set-cases c.buffers i j (record b { dirty = false }) blank l) [
      | inl (e, h) ↦ ap (λ w. w.dirty) h
      | inr (e, h) ↦ ap (λ w. w.dirty) h ∙ x (ap (λ w. w.valid) (sym h) ∙ v)
    ]

    pub flush-done :
        wrote.0 ≡ ok b.count
        → Flushes i c (
          ok tt,
          record c { blk = wrote.1; buffers = set c.buffers i (record b { dirty = false }) },
        )
    flush-done h =
        let b' : Buffer = record b { dirty = false } in
        let here = dirty-IsCoherent i inv l valid wrote-keeps dirty in
        let inv' =
          clean-IsCoherent i inv l valid wrote-keeps
            (λ k m. laws.write_stores c.blk b.contents b.count b.sector k h m) in
        (
          record {
            well = inv';
            same = λ n.
                seen-set i n b' here inv' l (λ e. sym (seen-covered here i n l e))
                  (λ e f. absurd (true≢false (sym f ∙ e)))
                ∙ written-seen i inv l valid wrote-keeps n;
            many = length-set c.buffers i b';
            log_same = refl;
          },
          refl,
          λ s. find_from-set 0 c.buffers i b' s refl,
          cleaned,
          inl (refl, λ v. ap (λ w. w.dirty) (get_or-set_self c.buffers i b' blank l)),
        )

  -- For well-formed buffers and the place of one: flush_buffer keeps them well-formed and keeps every
  -- sector that a reader sees; it returns -EIO, or the buffer then holds nothing that the device
  -- does not.
  pub flush_buffer-Flushes :
      (i : ℕ) (c : Cache D) → IsWell c → i < length c.buffers → Flushes i c (flush_buffer dev i c)
  unfolding flush_buffer
  flush_buffer-Flushes i c inv l = elim (Bool-cases ((buffer_at c i).valid)) [
    | inr v ↦
        rw (v, flush_buffer)
          (
            Keeps-refl c inv,
            refl,
            λ s. refl,
            λ j w. w,
            inl (refl, λ w. absurd (true≢false (sym w ∙ v))),
          )
    | inl v ↦ elim (Bool-cases ((buffer_at c i).dirty)) [
      | inr x ↦
          rw (v, x, flush_buffer) (Keeps-refl c inv, refl, λ s. refl, λ j w. w, inl (refl, λ w. x))
      | inl x ↦ elim (Res-cases ((wrote i c inv l v x).0)) [
        | inr (e, r) ↦ rw (v, x, r, flush_buffer) (flush-failed i c inv l v x)
        | inl (n, r) ↦ elim (Bool-cases (n == (buffer_at c i).count)) [
          | inl y ↦
              rw (v, x, r, y, flush_buffer) (flush-done i c inv l v x (r ∙ ap ok (ground arith)))
          | inr y ↦ rw (v, x, r, y, flush_buffer) (flush-failed i c inv l v x)
        ]
      ]
    ]
  ]
