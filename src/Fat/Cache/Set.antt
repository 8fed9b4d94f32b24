-- ===== src/Fat/Cache/Set.antt =====
-- A buffer of fd32/modules/fat/volume.c is changed: what a reader of the volume sees, and that the
-- buffers stay well-formed.
use free_dos.Common.{
  get_or-set_self, get_or-set_ne, true≢false, ℕ, ◌-◌, ◌<◌, ◌≡◌, ◌≢◌, ◌⊎◌, inl, inr, ap, sym, ◌∙◌,
  subst, true, false, ◌==◌, List, length, get_or, arith, Bool-cases, Option-cases, set, length-set,
}
use free_dos.Fat.Cache.{Sector, Buffer, blank, covers, find_from}
use free_dos.Fat.Cache.View.{
  IsGood, IsCoherent, at, seen, AllBelow, seen-covered, seen-uncovered, find_from-none,
  find_buffer-some,
}

pub set-cases :
    {A : Type 0} (xs : List A) (i j : ℕ) (v d : A)
    → i < length xs
    → ((j ≡ i) × (get_or (set xs i v) j d ≡ v))
      ⊎ ((j ≢ i) × (get_or (set xs i v) j d ≡ get_or xs j d))
set-cases xs i j v d l = elim (Bool-cases (j == i)) [
  | inl e ↦
      let h : j ≡ i = ground arith in
      inl (h, ap (λ k. get_or (set xs i v) k d) h ∙ get_or-set_self xs i v d l)
  | inr e ↦ let h : j ≢ i = ground arith in inr (h, get_or-set_ne xs i j v d (λ k. h (sym k)))
]

-- A change of the buffer at one place keeps a sector where the new buffer shows it, or else the
-- old one holds what is on the device.
module _ {blocks : ℕ} {d : ℕ → Sector} {bs : List Buffer} {lru : List ℕ} (i n : ℕ) (b : Buffer)
    (inv : IsCoherent blocks d bs lru) (inv' : IsCoherent blocks d (set bs i b) lru)
    (l : i < length bs) where
  seen-set_covered :
      covers b n ≡ true
      → b.contents (n - b.sector) ≡ seen d bs n
      → seen d (set bs i b) n ≡ seen d bs n
  seen-set_covered h e =
      let l' : i < length (set bs i b) = omega (arith, length-set bs i b) in
      let here : at (set bs i b) i ≡ b = get_or-set_self bs i b blank l in
      seen-covered inv' i n l' (rw here h) ∙ ap (λ x. x.contents (n - x.sector)) here ∙ e

  seen-set_uncovered :
      covers b n ≡ false
      → (covers (at bs i) n ≡ true → (at bs i).contents (n - (at bs i).sector) ≡ d n)
      → ((j : ℕ) → j < length (set bs i b) → covers (at (set bs i b) j) n ≡ false)
      → seen d (set bs i b) n ≡ seen d bs n
  seen-set_uncovered h clean none_covers =
      seen-uncovered d (set bs i b) n none_covers ∙ elim (Bool-cases (covers (at bs i) n)) [
        | inl e ↦ sym (clean e) ∙ sym (seen-covered inv i n l e)
        | inr e ↦ sym (
            seen-uncovered d bs n (λ j m. elim (set-cases bs i j b blank l) [
              | inl (x, y) ↦ ap (λ k. covers (at bs k) n) x ∙ e
              | inr (x, y) ↦
                  ap (λ w. covers w n) (sym y) ∙ none_covers j (omega (arith, length-set bs i b))
            ]))
      ]

  seen-set_other :
      (j : ℕ)
      → j < length (set bs i b)
      → covers b n ≡ false
      → covers (at (set bs i b) j) n ≡ true
      → seen d (set bs i b) n ≡ seen d bs n
  seen-set_other j m h e = elim (set-cases bs i j b blank l) [
    | inl (x, y) ↦ absurd (true≢false (sym e ∙ ap (λ w. covers w n) y ∙ h))
    | inr (x, y) ↦
        seen-covered inv' j n m e
        ∙ ap (λ w. w.contents (n - w.sector)) y
        ∙ sym (
            seen-covered inv j n (omega (arith, length-set bs i b))
              (ap (λ w. covers w n) (sym y) ∙ e))
  ]

  pub seen-set :
      (covers b n ≡ true → b.contents (n - b.sector) ≡ seen d bs n)
      → (covers b n ≡ false
          → covers (at bs i) n ≡ true
          → (at bs i).contents (n - (at bs i).sector) ≡ d n)
      → seen d (set bs i b) n ≡ seen d bs n
  seen-set shows clean = elim (Bool-cases (covers b n)) [
    | inl e ↦ seen-set_covered e (shows e)
    | inr e ↦ elim (Option-cases (find_from 0 (set bs i b) n)) [
      | inl f ↦ seen-set_uncovered e (clean e) (find_from-none 0 (set bs i b) n f)
      | inr (j, f) ↦ let (m, c) = find_buffer-some (set bs i b) n j f in seen-set_other j m e c
    ]
  ]

-- A buffer that is invalid, or good for sectors that no other buffer holds, keeps the buffers
-- well-formed.
pub set-IsCoherent :
    {blocks : ℕ} {d d' : ℕ → Sector} {bs : List Buffer} {lru : List ℕ} (i : ℕ) (b : Buffer)
    → IsCoherent blocks d bs lru
    → i < length bs
    → (b.valid ≡ true → IsGood blocks d' b)
    → (b.valid ≡ true
        → (j : ℕ) → j ≢ i
        → j < length bs
        → (at bs j).valid ≡ true
        → (at bs j).sector ≢ b.sector)
    → ((j : ℕ) → j ≢ i → j < length bs → (at bs j).valid ≡ true → IsGood blocks d' (at bs j))
    → IsCoherent blocks d' (set bs i b) lru
set-IsCoherent {blocks} {d'} {bs} {lru} i b inv l good alone others =
    let len : length (set bs i b) ≡ length bs = length-set bs i b in
    record {
      good = λ j m v. elim (set-cases bs i j b blank l) [
        | inl (x, y) ↦ subst (IsGood blocks d') (sym y) (good (ap (λ w. w.valid) (sym y) ∙ v))
        | inr (x, y) ↦
            subst (IsGood blocks d') (sym y)
              (others j x (omega arith) (ap (λ w. w.valid) (sym y) ∙ v))
      ];
      apart = λ j k m o v w e. elim (set-cases bs i j b blank l) [
        | inl (x, y) ↦ elim (set-cases bs i k b blank l) [
          | inl (x', y') ↦ x ∙ sym x'
          | inr (x', y') ↦ absurd (
              alone (ap (λ w. w.valid) (sym y) ∙ v) k x' (omega arith)
                (ap (λ w. w.valid) (sym y') ∙ w)
                (ap (λ w. w.sector) (sym y') ∙ sym e ∙ ap (λ w. w.sector) y))
        ]
        | inr (x, y) ↦ elim (set-cases bs i k b blank l) [
          | inl (x', y') ↦ absurd (
              alone (ap (λ w. w.valid) (sym y') ∙ w) j x (omega arith)
                (ap (λ w. w.valid) (sym y) ∙ v)
                (ap (λ w. w.sector) (sym y) ∙ e ∙ ap (λ w. w.sector) y'))
          | inr (x', y') ↦
              inv.apart j k (omega arith) (omega arith) (ap (λ w. w.valid) (sym y) ∙ v)
                (ap (λ w. w.valid) (sym y') ∙ w)
                (ap (λ w. w.sector) (sym y) ∙ e ∙ ap (λ w. w.sector) y')
        ]
      ];
      places = subst (λ n. AllBelow n lru) (sym len) inv.places;
      some_place = inv.some_place;
    }
