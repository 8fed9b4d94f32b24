-- ===== src/Drives/Walk.antt =====
-- The letters of the drives that are there, by the functions of fd32/filesys/drives.c that walk them.
use free_dos.Common.{
  ℕ, zero, suc, ◌+◌, ◌≤◌, ◌<◌, ◌≡◌, refl, sym, ap, ◌∙◌, inl, inr, List, [], ◌∷◌, ◌++◌, length,
  length-append, arith, true, false, ltb, ◌==◌, Bool-cases, if◌then◌else◌,
}
use free_dos.Common.Word.{sub32}
use free_dos.Drives.{
  Drive, Table, is_named, letter_a, letter_from, count_drives, fd32_drive_count,
  fd32_drive_get_first, fd32_drive_get_next,
}

module _ {R : Type 0} where
  -- The letters of the drives with a name, the first drive of the list having number `k`.
  pub letters : ℕ → List (Drive R) → List ℕ
  letters k [] = []
  letters k (d ∷ ds) =
      let rest = letters (suc k) ds in if is_named d.blk_name then (letter_a + k) ∷ rest else rest

  -- A walk from the letter `l` on, with a bound on the steps.
  pub walk_drives : ℕ → ℕ → Table R → List ℕ
  walk_drives zero l t = []
  walk_drives (suc fuel) l t =
      let rest = walk_drives fuel (fd32_drive_get_next l t) t in if l == 0 then [] else l ∷ rest

  letter_from_here :
      (i k : ℕ) (ds : List (Drive R)) → i ≤ k → letter_from i k ds ≡ letter_from 0 k ds
  unfolding letter_from
  letter_from_here i k [] h = refl
  letter_from_here i k (d ∷ ds) h =
      let not_before : ltb k i ≡ false = ground arith in
      let not_before_0 : ltb k 0 ≡ false = ground arith in
      rw (not_before, not_before_0, letter_from_here i (suc k) ds (omega arith)) refl

  letter_from_behind :
      (i k : ℕ) (before ds : List (Drive R))
      → k + length before ≡ i
      → letter_from i k (before ++ ds) ≡ letter_from 0 i ds
  unfolding letter_from
  letter_from_behind i k [] ds h =
      let same : k ≡ i = omega arith in
      letter_from_here i k ds (omega arith) ∙ ap (λ j. letter_from 0 j ds) same
  letter_from_behind i k (d ∷ before) ds h =
      let earlier : ltb k i ≡ true = ground arith in
      rw earlier (letter_from_behind i (suc k) before ds (omega arith))

  append_one :
      (before : List (Drive R)) (d : Drive R) (ds : List (Drive R))
      → (before ++ (d ∷ [])) ++ ds ≡ before ++ (d ∷ ds)
  append_one [] d ds = refl
  append_one (b ∷ before) d ds = ap (λ r. b ∷ r) (append_one before d ds)

  walk_lem :
      (fuel k : ℕ) (before ds : List (Drive R)) (t : Table R)
      → t.drives ≡ before ++ ds
      → length before ≡ k
      → k + length ds ≤ 26
      → length ds < fuel
      → walk_drives fuel (letter_from 0 k ds) t ≡ letters k ds
  unfolding walk_drives letters letter_from fd32_drive_get_next
  walk_lem zero k before ds t e l b h = absurd (omega arith)
  walk_lem (suc fuel) k before [] t e l b h = refl
  walk_lem (suc fuel) k before (d ∷ ds) t e l b h =
      let not_before : ltb k 0 ≡ false = ground arith in
      let e' : t.drives ≡ (before ++ (d ∷ [])) ++ ds = e ∙ sym (append_one before d ds) in
      let l' : length (before ++ (d ∷ [])) ≡ suc k =
        omega (arith, length-append before (d ∷ []), l) in
      elim (Bool-cases (is_named d.blk_name)) [
        | inr n ↦
            rw (not_before, n)
              (walk_lem (suc fuel) (suc k) (before ++ (d ∷ [])) ds t e' l' (omega arith)
                (omega arith))
        | inl n ↦
            let some_letter : (letter_a + k == 0) ≡ false = ground arith in
            let number : sub32 (letter_a + k + 1) letter_a ≡ suc k = omega arith in
            let next : fd32_drive_get_next (letter_a + k) t ≡ letter_from 0 (suc k) ds =
              ap (λ i. letter_from i 0 t.drives) number
              ∙ ap (λ q. letter_from (suc k) 0 q) e'
              ∙ letter_from_behind (suc k) 0 (before ++ (d ∷ [])) ds (omega (arith, l')) in
            rw (not_before, n, some_letter)
              (ap (λ r. (letter_a + k) ∷ r)
                (ap (λ w. walk_drives fuel w t) next
                  ∙ walk_lem fuel (suc k) (before ++ (d ∷ [])) ds t e' l' (omega arith)
                      (omega arith)))
      ]

  count_lem : (k : ℕ) (ds : List (Drive R)) → count_drives ds ≡ length (letters k ds)
  unfolding count_drives letters
  count_lem k [] = refl
  count_lem k (d ∷ ds) = elim (Bool-cases (is_named d.blk_name)) [
    | inl n ↦ rw n (ap suc (count_lem (suc k) ds))
    | inr n ↦ rw n (count_lem (suc k) ds)
  ]

  -- For a table of 26 drives: starting with fd32_drive_get_first and going on with fd32_drive_get_next
  -- until that returns 0 gives the letters of the drives with a block device, each once and in order, and
  -- fd32_drive_count is their number.
  pub walk_drives_lem :
      (t : Table R)
      → length t.drives ≡ 26
      → (walk_drives 27 (fd32_drive_get_first t) t ≡ letters 0 t.drives)
        × (fd32_drive_count t ≡ length (letters 0 t.drives))
  unfolding fd32_drive_get_first fd32_drive_count
  walk_drives_lem t h =
      (walk_lem 27 0 [] t.drives t refl refl (omega arith) (omega arith), count_lem 0 t.drives)
