-- ===== src/Fat/Cache/Load.antt =====
-- A buffered read of fd32/modules/fat/volume.c.
use Prim.Native.Nat.{min}
use free_dos.Common.{
  true≢false, ℕ, ◌+◌, ◌-◌, ◌*◌, ◌/◌, ◌<◌, ◌≡◌, refl, ◌≢◌, inl, inr, ap, sym, ◌∙◌, true, false, List,
  length, arith, Bool-cases, none, set,
}
use free_dos.Fat.Cache.{fat_read_ahead, Sector, Buffer, covers, find_from}
use free_dos.Fat.Cache.View.{
  IsGood, IsCoherent, at, seen, seen-uncovered, covers_lem, covers-base, find_from-none,
}
use free_dos.Fat.Cache.Set.{seen-set, set-IsCoherent}
use free_dos.Fat.Cache.Flush.{IsGood-device}

pub device-IsCoherent :
    {blocks : ℕ} {d d' : ℕ → Sector} {bs : List Buffer} {lru : List ℕ}
    → IsCoherent blocks d bs lru
    → ((n : ℕ) → d' n ≡ d n)
    → IsCoherent blocks d' bs lru
device-IsCoherent {blocks} {d} {d'} {bs} inv h = record {
  good = λ i l v. IsGood-device blocks d d' (at bs i) (inv.good i l v) (λ n x y. h n);
  apart = inv.apart;
  places = inv.places;
  some_place = inv.some_place;
}

pub clean-shows :
    (blocks : ℕ) (d : ℕ → Sector) (b : Buffer) (n : ℕ)
    → IsGood blocks d b
    → b.dirty ≡ false
    → covers b n ≡ true
    → b.contents (n - b.sector) ≡ d n
clean-shows blocks d b n (x, y, z, w) clean h =
    let (v, lo, hi) = covers_lem b n h in w clean (n - b.sector) (omega arith) ∙ ap d (omega arith)

-- The sectors around `s`, as they are read.
module _ {blocks : ℕ} {d : ℕ → Sector} {bs : List Buffer} {lru : List ℕ} (s i : ℕ) (old : Buffer)
    (contents : ℕ → Sector) (inv : IsCoherent blocks d bs lru) (l : i < length bs)
    (miss : find_from 0 bs s ≡ none) where
  abbrev base : ℕ
  base = s / fat_read_ahead * fat_read_ahead

  abbrev count : ℕ
  count = min fat_read_ahead (blocks - base)

  abbrev loaded : Buffer
  loaded = record { sector = base; count = count; valid = true; dirty = false; contents = contents }

  module _ (reached : s < base + count) where
    pub covers-loaded : covers loaded s ≡ true
    covers-loaded = ground arith

    not_buffered : (j : ℕ) → j < length bs → (at bs j).valid ≡ true → (at bs j).sector ≢ base
    not_buffered j m v e =
        let (x, y, z, w) = inv.good j m v in
        let h : covers (at bs j) s ≡ true = ground arith in
        true≢false (sym h ∙ find_from-none 0 bs s miss j m)

    near : (j n : ℕ) → j < length bs → covers loaded n ≡ true → covers (at bs j) n ≡ false
    near j n m h = elim (Bool-cases (covers (at bs j) n)) [
      | inr e ↦ e
      | inl e ↦
          let (v, lo2, hi2) = covers_lem (at bs j) n e in
          let b = covers-base blocks d (at bs j) n (inv.good j m v) e in
          let (w, lo, hi) = covers_lem loaded n h in absurd (not_buffered j m v (omega arith))
    ]

    module _ (there : (k : ℕ) → k < count → contents k ≡ d (base + k)) where
      pub loaded-IsCoherent : IsCoherent blocks d (set bs i loaded) lru
      loaded-IsCoherent =
          set-IsCoherent i loaded inv l (λ v. (omega arith, omega arith, refl, λ e. there))
            (λ v j ne m. not_buffered j m) (λ j ne m. inv.good j m)

      pub loaded-seen :
          ((at bs i).valid ≡ true → (at bs i).dirty ≡ false)
          → (n : ℕ) → seen d (set bs i loaded) n ≡ seen d bs n
      loaded-seen flushed n =
          seen-set i n loaded inv loaded-IsCoherent l
            (λ h.
              let (w, lo, hi) = covers_lem loaded n h in
              there (n - base) (omega arith)
              ∙ ap d (omega arith)
              ∙ sym (seen-uncovered d bs n (λ j m. near j n m h)))
            (λ h e.
              let (v, lo2, hi2) = covers_lem (at bs i) n e in
              clean-shows blocks d (at bs i) n (inv.good i l v) (flushed v) e)

-- A buffer that holds nothing that the device does not is made invalid.
module _ {blocks : ℕ} {d : ℕ → Sector} {bs : List Buffer} {lru : List ℕ} (i : ℕ) (b : Buffer)
    (inv : IsCoherent blocks d bs lru) (l : i < length bs) (invalid : b.valid ≡ false) where
  pub dropped-IsCoherent : IsCoherent blocks d (set bs i b) lru
  dropped-IsCoherent =
      set-IsCoherent i b inv l (λ v. absurd (true≢false (sym v ∙ invalid)))
        (λ v. absurd (true≢false (sym v ∙ invalid))) (λ j ne m. inv.good j m)

  pub dropped-seen :
      ((at bs i).valid ≡ true → (at bs i).dirty ≡ false)
      → (n : ℕ) → seen d (set bs i b) n ≡ seen d bs n
  dropped-seen flushed n =
      seen-set i n b inv dropped-IsCoherent l
        (λ h. absurd (true≢false (sym ((covers_lem b n h).0) ∙ invalid)))
        (λ h e.
          let (v, lo2, hi2) = covers_lem (at bs i) n e in
          clean-shows blocks d (at bs i) n (inv.good i l v) (flushed v) e)
