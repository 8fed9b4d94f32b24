-- ===== src/Truename/Directories.antt =====
-- The current directories of fd32/filesys/truename.c, and the aliases of drives.
use free_dos.Common.{
  ℕ, suc, ◌≡◌, ◌≢◌, refl, ap, inl, inr, true, false, some, ◌==◌, if◌then◌else◌, List, [], ◌∷◌,
  length, Bool-cases, ==_iff,
}
use free_dos.Truename.{
  Drives, Entries, or_root, find_entry, overwrite_entry, set_directory, fd32_getcwd,
}

-- strcasecmp returns 0 for names that differ in the case of letters alone: an equivalence.
pub record CompareLaws (strcasecmp : List ℕ → List ℕ → ℕ) : Type 0 where
  pub same : (a : List ℕ) → strcasecmp a a ≡ 0
  pub joins : (a b c : List ℕ) → strcasecmp a b ≡ 0 → strcasecmp a c ≡ 0 → strcasecmp b c ≡ 0

module _ (strcasecmp : List ℕ → List ℕ → ℕ) (laws : CompareLaws strcasecmp) where
  off : (a b : List ℕ) → strcasecmp a b ≢ 0 → (strcasecmp a b == 0) ≡ false
  off a b n = elim (Bool-cases (strcasecmp a b == 0)) [
    | inl e ↦ absurd (n ((==_iff (strcasecmp a b) 0).0 e))
    | inr e ↦ e
  ]

  on : (a b : List ℕ) → strcasecmp a b ≡ 0 → (strcasecmp a b == 0) ≡ true
  on a b e = (==_iff (strcasecmp a b) 0).1 e

  find_entry-overwrite_entry :
      (drive dir other : List ℕ) (es : Entries)
      → strcasecmp drive other ≢ 0
      → find_entry strcasecmp other (overwrite_entry strcasecmp drive dir es)
        ≡ find_entry strcasecmp other es
  unfolding find_entry overwrite_entry
  find_entry-overwrite_entry drive dir other [] n = refl
  find_entry-overwrite_entry drive dir other ((name, old) ∷ rest) n =
      let ih = find_entry-overwrite_entry drive dir other rest n in
      elim (Bool-cases (strcasecmp name drive == 0)) [
        | inl e ↦
            let apart : (strcasecmp name other == 0) ≡ false =
              off name other
                (λ q. n (laws.joins name drive other ((==_iff (strcasecmp name drive) 0).0 e) q)) in
            rw (e, overwrite_entry, find_entry, apart) refl
        | inr e ↦
            rw (e, overwrite_entry, find_entry)
              (ap (λ m. if strcasecmp name other == 0 then some old else m) ih)
      ]

  length-overwrite_entry :
      (drive dir : List ℕ) (es : Entries)
      → length (overwrite_entry strcasecmp drive dir es) ≡ length es
  unfolding overwrite_entry
  length-overwrite_entry drive dir [] = refl
  length-overwrite_entry drive dir ((name, old) ∷ rest) =
      elim (Bool-cases (strcasecmp name drive == 0)) [
        | inl e ↦ rw e refl
        | inr e ↦ rw e (ap suc (length-overwrite_entry drive dir rest))
      ]

  -- Where there is memory, fd32_chdir ends with a list in which fd32_getcwd finds the new directory for
  -- the drive, and for the others what it found before. The list has one entry more, whether the drive
  -- had one or not.
  pub fd32_getcwd-set_directory :
      (drive dir : List ℕ) (d : Drives)
      → let d' = (set_directory strcasecmp true drive dir d).1 in
        (fd32_getcwd strcasecmp drive d' ≡ dir)
        × ((other : List ℕ)
            → strcasecmp drive other ≢ 0
            → fd32_getcwd strcasecmp other d' ≡ fd32_getcwd strcasecmp other d)
        × (length d'.cds_list ≡ suc (length d.cds_list))
  unfolding set_directory fd32_getcwd find_entry
  fd32_getcwd-set_directory drive dir d =
      let es = overwrite_entry strcasecmp drive dir d.cds_list in
      let here : find_entry strcasecmp drive ((drive, dir) ∷ es) ≡ some dir =
        rw (find_entry, on drive drive (laws.same drive)) refl in
      (
        ap or_root here,
        λ other n.
            let there : find_entry strcasecmp other ((drive, dir) ∷ es)
                ≡ find_entry strcasecmp other d.cds_list =
              rw (find_entry, off drive other n)
                (find_entry-overwrite_entry drive dir other d.cds_list n) in
            ap or_root there,
        ap suc (length-overwrite_entry drive dir d.cds_list),
      )
