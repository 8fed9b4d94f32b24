-- ===== src/Fat/Cache/Changed.antt =====
-- A buffer of fd32/modules/fat/volume.c whose data a caller has changed, and not marked yet.
use free_dos.Common.{
  ℕ, zero, suc, ◌-◌, ◌<◌, ◌≡◌, refl, ◌≢◌, inl, inr, ap, sym, ◌∙◌, true, false, List, [], ◌∷◌, none,
  some, length, get_or, set, Option-cases, true≢false, get_or-set_self, get_or-set_ne,
}
use free_dos.Fat.Cache.{Sector, Buffer, blank, covers, find_from, find_buffer}
use free_dos.Fat.Cache.View.{
  IsCoherent, at, seen, covers_unique, find_from-none, find_from-set, find_buffer-some,
}

pub set-get_or : {A : Type 0} (xs : List A) (i : ℕ) (d : A) → set xs i (get_or xs i d) ≡ xs
set-get_or [] i d = refl
set-get_or (x ∷ xs) zero d = refl
set-get_or (x ∷ xs) (suc i) d = rw (set-get_or xs i d) refl

pub set-set : {A : Type 0} (xs : List A) (i : ℕ) (x y : A) → set (set xs i x) i y ≡ set xs i y
set-set [] i x y = refl
set-set (z ∷ xs) zero x y = refl
set-set (z ∷ xs) (suc i) x y = rw (set-set xs i x y) refl

-- Other contents in the buffer at `i`, which may be unmarked.
module _ {blocks : ℕ} {d : ℕ → Sector} {bs : List Buffer} {lru : List ℕ}
    (inv : IsCoherent blocks d bs lru) (i : ℕ) (contents : ℕ → Sector) (l : i < length bs) where
  abbrev pub changed : Buffer
  changed = record (at bs i) { contents = contents }

  found-covered : (n : ℕ) → covers (at bs i) n ≡ true → find_from 0 bs n ≡ some i
  found-covered n h = elim (Option-cases (find_from 0 bs n)) [
    | inl e ↦ absurd (true≢false (sym h ∙ find_from-none 0 bs n e i l))
    | inr (j, e) ↦
        let (x, z) = find_buffer-some bs n j e in e ∙ ap some (covers_unique inv j i n x l z h)
  ]

  changed-found : (n : ℕ) → find_from 0 (set bs i changed) n ≡ find_from 0 bs n
  changed-found n = find_from-set 0 bs i changed n refl

  pub changed-covered :
      (n : ℕ)
      → covers (at bs i) n ≡ true
      → seen d (set bs i changed) n ≡ contents (n - (at bs i).sector)
  unfolding seen find_buffer
  changed-covered n h =
      let e : find_from 0 (set bs i changed) n ≡ some i = changed-found n ∙ found-covered n h in
      rw (e, seen) (ap (λ w. w.contents (n - w.sector)) (get_or-set_self bs i changed blank l))

  pub changed-other :
      (n : ℕ) → covers (at bs i) n ≡ false → seen d (set bs i changed) n ≡ seen d bs n
  unfolding seen find_buffer
  changed-other n h = elim (Option-cases (find_from 0 bs n)) [
    | inl e ↦
        let e' : find_from 0 (set bs i changed) n ≡ none = changed-found n ∙ e in
        rw (e', e, seen) refl
    | inr (j, e) ↦
        let e' : find_from 0 (set bs i changed) n ≡ some j = changed-found n ∙ e in
        let (x, z) = find_buffer-some bs n j e in
        let ne : i ≢ j = λ q. true≢false (sym z ∙ ap (λ k. covers (at bs k) n) (sym q) ∙ h) in
        let same : at (set bs i changed) j ≡ at bs j = get_or-set_ne bs i j changed blank ne in
        rw (e', e, seen) (ap (λ w. w.contents (n - w.sector)) same)
  ]

  pub find_buffer-covered : (n : ℕ) → covers (at bs i) n ≡ true → find_buffer bs n ≡ some i
  unfolding find_buffer
  find_buffer-covered n h = found-covered n h

  pub find_buffer-changed :
      (n : ℕ) → covers (at bs i) n ≡ true → find_buffer (set bs i changed) n ≡ some i
  unfolding find_buffer
  find_buffer-changed n h = changed-found n ∙ found-covered n h
