-- ===== src/Fat/Cache/Device.antt =====
-- fd32/modules/fat/fd32.c: the requests to a block device, which are repeated where the medium asks for
-- attention, as the device under the buffers of volume.c.
use Prim.Native.Nat.{min}
use free_dos.Common.{ℕ, zero, suc, ◌+◌, ◌-◌, ◌≤◌, ◌<◌, ◌≡◌, refl, sym, ◌∙◌, ap, ◌⊎◌, inl, inr}
use free_dos.Common.Errno.{Res, Res-cases, ok, err, eio}
use free_dos.Fat.Cache.{Sector, BlockDev}
use free_dos.Fat.Cache.View.{DevLaws}

-- The reply of a driver: a result, BLOCK_SENSE_ATTENTION, or another error.
pub data Reply (A : Type 0) : Type 0 where
  done : A → Reply A
  attention : Reply A
  failed : ℕ → Reply A

-- `bops->read` and `bops->write` of the driver: count and first sector. fat_handle_attention.
pub record Driver (D : Type 0) : Type 0 where
  pub read : ℕ → ℕ → D → Reply (ℕ × (ℕ → Sector)) × D
  pub write : (ℕ → Sector) → ℕ → ℕ → D → Reply ℕ × D
  pub fat_handle_attention : D → Res (Unit {0}) × D

-- The loops over `k`: `rounds` is `3 - k`.
pub attempts : {D A : Type 0} → (D → Res (Unit {0}) × D) → (D → Reply A × D) → ℕ → D → Res A × D
attempts handle call zero d = (err eio, d)
attempts handle call (suc rounds) d =
    let r = call d in
    let h = handle (r.1) in
    let again = attempts handle call rounds (h.1) in
    elim (r.0) [
      | done a ↦ (ok a, r.1)
      | failed e ↦ (err e, r.1)
      | attention ↦ elim (h.0) [ err e ↦ (err e, h.1) | ok u ↦ again ]
    ]

module _ {D : Type 0} (driver : Driver D) where
  pub fat_blockdev_read : ℕ → ℕ → D → Res (ℕ × (ℕ → Sector)) × D
  unfolding attempts
  fat_blockdev_read count from = attempts driver.fat_handle_attention (driver.read count from) 3

  pub fat_blockdev_write : (ℕ → Sector) → ℕ → ℕ → D → Res ℕ × D
  unfolding attempts
  fat_blockdev_write contents count from =
      attempts driver.fat_handle_attention (driver.write contents count from) 3

  pub block_dev : BlockDev D
  block_dev = record {
    fat_blockdev_read = fat_blockdev_read;
    fat_blockdev_write = fat_blockdev_write;
  }

Reply-cases :
    {A : Type 0} (r : Reply A)
    → ((a : A) × (r ≡ done a)) ⊎ (r ≡ attention) ⊎ ((e : ℕ) × (r ≡ failed e))
Reply-cases (done a) = inl (a, refl)
Reply-cases attention = inr (inl refl)
Reply-cases (failed e) = inr (inr (e, refl))

-- What every call and every attention keeps is kept.
attempts-keeps :
    {D A B : Type 0} (handle : D → Res (Unit {0}) × D) (call : D → Reply A × D) (f : D → B)
    → ((d : D) → f ((call d).1) ≡ f d)
    → ((d : D) → f ((handle d).1) ≡ f d)
    → (rounds : ℕ) (d : D) → f ((attempts handle call rounds d).1) ≡ f d
unfolding attempts
attempts-keeps handle call f c h zero d = refl
attempts-keeps handle call f c h (suc rounds) d = elim (Reply-cases ((call d).0)) [
  | inl (a, e) ↦ rw (e, attempts) (c d)
  | inr (inr (x, e)) ↦ rw (e, attempts) (c d)
  | inr (inl e) ↦ elim (Res-cases ((handle ((call d).1)).0)) [
    | inr (x, y) ↦ rw (e, y, attempts) (h ((call d).1) ∙ c d)
    | inl (u, y) ↦
        rw (e, y, attempts)
          (attempts-keeps handle call f c h rounds ((handle ((call d).1)).1) ∙ h ((call d).1) ∙ c d)
  ]
]

-- A result is that of the last call, on a device that the calls before it left.
attempts-done :
    {D A : Type 0} (handle : D → Res (Unit {0}) × D) (call : D → Reply A × D) (rounds : ℕ) (d : D)
    (a : A)
    → (attempts handle call rounds d).0 ≡ ok a
    → (d' : D) × ((call d').0 ≡ done a) × ((attempts handle call rounds d).1 ≡ (call d').1)
unfolding attempts
attempts-done handle call zero d a = λ h. cc
attempts-done {D} {A} handle call (suc rounds) d a = elim (Reply-cases ((call d).0)) [
  | inl (x, e) ↦ rw (e, attempts) (λ h. let k : x ≡ a = cc in (d, e ∙ ap done k, refl))
  | inr (inr (x, e)) ↦ rw (e, attempts) (λ h. cc)
  | inr (inl e) ↦ elim (Res-cases ((handle ((call d).1)).0)) [
    | inr (x, y) ↦ rw (e, y, attempts) (λ h. cc)
    | inl (u, y) ↦
        rw (e, y, attempts) (attempts-done handle call rounds ((handle ((call d).1)).1) a)
  ]
]

-- `disk d n` is sector `n` of a device of `blocks` sectors. A read gives the sectors up to its end or
-- fails, and changes none; a write stores the sectors or fails, and changes no other; attention that
-- is handled changes none.
pub record DriverLaws {D : Type 0} (driver : Driver D) (blocks : ℕ) : Type 0 where
  pub disk : D → ℕ → Sector
  pub handle_keeps : (d : D) (n : ℕ) → disk ((driver.fat_handle_attention d).1) n ≡ disk d n
  pub read_keeps : (d : D) (count from n : ℕ) → disk ((driver.read count from d).1) n ≡ disk d n
  pub read_answers :
      (d : D) (count from k : ℕ) (contents : ℕ → Sector)
      → (driver.read count from d).0 ≡ done (k, contents)
      → (k ≡ min count (blocks - from)) × ((i : ℕ) → i < k → contents i ≡ disk d (from + i))
  pub write_keeps :
      (d : D) (contents : ℕ → Sector) (count from n : ℕ)
      → (n < from) ⊎ (from + count ≤ n)
      → disk ((driver.write contents count from d).1) n ≡ disk d n
  pub write_stores :
      (d : D) (contents : ℕ → Sector) (count from i : ℕ)
      → (driver.write contents count from d).0 ≡ done count
      → i < count
      → disk ((driver.write contents count from d).1) (from + i) ≡ contents i

module _ {D : Type 0} {driver : Driver D} {blocks : ℕ} (laws : DriverLaws driver blocks) where
  open laws use {disk, handle_keeps}

  read_same :
      (d : D) (count from n : ℕ) → disk ((fat_blockdev_read driver count from d).1) n ≡ disk d n
  unfolding fat_blockdev_read
  read_same d count from n =
      attempts-keeps driver.fat_handle_attention (driver.read count from) (λ e. disk e n)
        (λ e. laws.read_keeps e count from n) (λ e. handle_keeps e n) 3 d

  read_there :
      (d : D) (count from k : ℕ) (contents : ℕ → Sector)
      → (fat_blockdev_read driver count from d).0 ≡ ok (k, contents)
      → (k ≡ min count (blocks - from)) × ((i : ℕ) → i < k → contents i ≡ disk d (from + i))
  unfolding fat_blockdev_read
  read_there d count from k contents h =
      let (d', e, last) =
        attempts-done driver.fat_handle_attention (driver.read count from) 3 d (k, contents) h in
      let (all, there) = laws.read_answers d' count from k contents e in
      (
        all,
        λ i l.
            there i l
            ∙ sym (laws.read_keeps d' count from (from + i))
            ∙ sym (ap (λ w. disk w (from + i)) last)
            ∙ read_same d count from (from + i),
      )

  -- A driver with these laws, whose requests are repeated, is a device as the buffers ask for it.
  pub block_dev-laws : DevLaws (block_dev driver) blocks
  unfolding block_dev fat_blockdev_read fat_blockdev_write
  block_dev-laws = record {
    disk = disk;
    read_keeps = read_same;
    read_answers = read_there;
    write_keeps = λ d contents count from n h.
        attempts-keeps driver.fat_handle_attention (driver.write contents count from)
          (λ e. disk e n) (λ e. laws.write_keeps e contents count from n h) (λ e. handle_keeps e n)
          3 d;
    write_stores = λ d contents count from i h l.
        let (d', e, last) =
          attempts-done driver.fat_handle_attention (driver.write contents count from) 3 d count
            h in
        ap (λ w. disk w (from + i)) last ∙ laws.write_stores d' contents count from i e l;
  }
