-- ===== src/Truename/Tests.antt =====
-- Runs of fd32/filesys/truename.c with the current directory C:\a.
use free_dos.Common.{
  ℕ, suc, ◌≡◌, ◌≢◌, refl, sym, ap, subst, ◌∙◌, inl, inr, true, false, none, some, List, [], ◌∷◌,
  length, ◌==◌, Bool-cases, ==_iff, if◌then◌else◌, arith,
}
use free_dos.Common.Errno.{ok, err, enotdir}
use free_dos.Truename.{
  Drives, fd32_truename, fd32_getcwd, set_directory, truename_of, drive_spec, at_colon, root_of,
  start_of, continue_at, canonicalize, finished, finish, add_component, next_component, count_dots,
  rewind, find_entry,
}
use free_dos.Truename.Components.{components, walk, path_text}
use free_dos.Truename.Path.{path_result, fd32_truename_lem, fd32_truename-fd32_truename}
use free_dos.Truename.Directories.{CompareLaws, fd32_getcwd-set_directory}
use free_dos.Devices.Tests.{differ}

-- "a", "b", "C", "C:\a\b", "c/../b" and "C:..\..".
abbrev a_name : List ℕ
a_name = b'a' ∷ []

abbrev b_name : List ℕ
b_name = b'b' ∷ []

abbrev c_drive : List ℕ
c_drive = b'C' ∷ []

abbrev canonical : List ℕ
canonical = b'C' ∷ (b':' ∷ (92 ∷ (b'a' ∷ (92 ∷ (b'b' ∷ [])))))

abbrev relative : List ℕ
relative = b'c' ∷ (b'/' ∷ (b'.' ∷ (b'.' ∷ (b'/' ∷ (b'b' ∷ [])))))

abbrev above : List ℕ
above = b'C' ∷ (b':' ∷ (b'.' ∷ (b'.' ∷ (92 ∷ (b'.' ∷ (b'.' ∷ []))))))

abbrev drives : Drives
drives = record { default_drive = b'C'; subst_list = []; cds_list = (c_drive, (92 ∷ a_name)) ∷ [] }

test_relative : fd32_truename differ true true relative drives ≡ some (ok canonical)
unfolding fd32_truename truename_of drive_spec at_colon root_of start_of continue_at canonicalize
    finished finish add_component next_component count_dots rewind find_entry fd32_getcwd
test_relative = refl

test_above : fd32_truename differ true true above drives ≡ some (err enotdir)
unfolding fd32_truename truename_of drive_spec at_colon root_of start_of continue_at canonicalize
    finished finish add_component next_component count_dots rewind find_entry fd32_getcwd
test_above = refl

in_a : fd32_getcwd differ c_drive drives ≡ path_text (a_name ∷ [])
unfolding fd32_getcwd find_entry
in_a = refl

no_colon : drive_spec (b'C') relative ≡ (c_drive, relative)
unfolding drive_spec at_colon
no_colon = refl

no_alias : find_entry differ c_drive drives.subst_list ≡ none
unfolding find_entry
no_alias = refl

fd32_truename_lem_example :
    fd32_truename differ true true relative drives
    ≡ some (path_result c_drive (walk true (a_name ∷ []) (components relative)))
fd32_truename_lem_example =
    fd32_truename_lem differ true true drives relative c_drive relative (a_name ∷ []) no_colon
      no_alias (refl, (refl, (refl, (refl, (refl, (refl, tt)))))) (refl, (refl, tt), tt)
      (inr (refl, inl in_a))

fd32_truename-fd32_truename_example :
    fd32_truename differ true false canonical drives ≡ some (ok canonical)
fd32_truename-fd32_truename_example =
    fd32_truename-fd32_truename differ true false drives relative c_drive relative canonical
      (a_name ∷ []) no_colon (refl, tt) no_alias (refl, (refl, (refl, (refl, (refl, (refl, tt))))))
      (refl, (refl, tt), tt) (refl, tt) (inr (refl, inl in_a)) test_relative

differ-eq : (xs ys : List ℕ) → differ xs ys ≡ 0 → xs ≡ ys
differ-eq [] [] e = refl
differ-eq [] (y ∷ ys) e = absurd (omega (arith, e))
differ-eq (x ∷ xs) [] e = absurd (omega (arith, e))
differ-eq (x ∷ xs) (y ∷ ys) e = elim (Bool-cases (x == y)) [
  | inl q ↦
      ap (λ z. z ∷ xs) ((==_iff x y).0 q)
      ∙ ap (λ zs. y ∷ zs) (differ-eq xs ys (ap (λ b. if b then differ xs ys else 1) (sym q) ∙ e))
  | inr q ↦
      let wrong : ◌≡◌ {A = ℕ} 1 0 = ap (λ b. if b then differ xs ys else 1) (sym q) ∙ e in
      absurd (omega (arith, wrong))
]

differ-same : (xs : List ℕ) → differ xs xs ≡ 0
differ-same [] = refl
differ-same (x ∷ xs) = rw (((==_iff x x).1 refl)) (differ-same xs)

differ-CompareLaws : CompareLaws differ
differ-CompareLaws = record {
  same = differ-same;
  joins = λ a b c e f. subst (λ t. differ t c ≡ 0) (differ-eq a b e) f;
}

fd32_getcwd-set_directory_example :
    let d' = (set_directory differ true c_drive (92 ∷ b_name) drives).1 in
    (fd32_getcwd differ c_drive d' ≡ 92 ∷ b_name)
    × ((other : List ℕ)
        → differ c_drive other ≢ 0
        → fd32_getcwd differ other d' ≡ fd32_getcwd differ other drives)
    × (length d'.cds_list ≡ suc (length drives.cds_list))
fd32_getcwd-set_directory_example =
    fd32_getcwd-set_directory differ differ-CompareLaws c_drive (92 ∷ b_name) drives
