-- ===== src/Truename/Path.antt =====
-- fd32_truename of fd32/filesys/truename.c returns the path of the directories that its components lead to.
use free_dos.Common.{
  ℕ, zero, suc, ◌-◌, ◌≡◌, refl, sym, ap, subst, ◌∙◌, inl, inr, Bool, true, false, Option, none,
  some, if◌then◌else◌, List, [], ◌∷◌, ◌++◌, Bool-cases, ◌⊎◌, Option-cases, arith, length,
}
use free_dos.Common.Errno.{Res, ok, err, enotdir}
use free_dos.Truename.{
  Drives, colon, push_bytes, drive_spec, root_of, start_of, find_entry, fd32_getcwd, canonicalize,
  fd32_truename, truename_of, continue_at, finished,
}
use free_dos.Truename.Components.{
  components, components-slash, NoColon, Names, walk, aux_of, slash_text, path_text, visit, up,
  is_dots, components-Names,
}
use free_dos.Truename.Buffer.{canonicalize_lem, to_result, visit-Names}
use free_dos.Truename.Text.{
  with_slash_lem, finish_lem, components-path_text, NoDots, walk-rev_on, path_text-NoColon,
  is_absolute, path_text-is_absolute, at_colon-drive,
}

-- A current directory, with a slash at its end or without.
abbrev pub IsDirectory : List ℕ → List (List ℕ) → Type 0
IsDirectory dir st = (dir ≡ path_text st) ⊎ (dir ≡ slash_text st)

-- The directory where a path starts: the root, or the current one of the drive.
abbrev pub Starts : List ℕ → List ℕ → List (List ℕ) → Type 0
Starts path dir st =
    ((is_absolute path ≡ true) × (st ≡ [])) ⊎ ((is_absolute path ≡ false) × IsDirectory dir st)

-- What fd32_truename returns for a drive and the directories of a path, the innermost first.
abbrev pub path_result : List ℕ → Option (List (List ℕ)) → Res (List ℕ)
path_result drive none = err enotdir
path_result drive (some st) = ok (drive ++ (colon ∷ path_text st))

some_list : {x y : List (List ℕ)} → some x ≡ some y → x ≡ y
some_list e = cc

err_ok : {e : ℕ} {t : List ℕ} → ◌≡◌ {A = Option (Res (List ℕ))} (some (err e)) (some (ok t)) → ⊥
err_ok e = cc

ok_ok : {t u : List ℕ} → ◌≡◌ {A = Option (Res (List ℕ))} (some (ok t)) (some (ok u)) → t ≡ u
ok_ok e = cc

no_path : {A : Type 0} {st : List (List ℕ)} → ◌≡◌ {A = Option (List (List ℕ))} none (some st) → A
no_path e = cc

walk-Names :
    (collapse : Bool) (ps st st' : List (List ℕ))
    → Names ps
    → Names st
    → walk collapse st ps ≡ some st'
    → Names st'
walk-Names collapse [] st st' k h e = subst (λ t. Names t) (some_list e) h
walk-Names collapse (p ∷ ps) st st' (x, y, k) h e = elim (Option-cases (visit collapse p st)) [
  | inl v ↦ no_path (sym (rw (walk, v) refl) ∙ e)
  | inr (t, v) ↦
      walk-Names collapse ps t st' k (visit-Names collapse p st t x y h v)
        (sym (rw (walk, v) refl) ∙ e)
]

module _ (strcasecmp : List ℕ → List ℕ → ℕ) (resolve collapse : Bool) (d : Drives) where
  abbrev IsNoAlias : List ℕ → Type 0
  IsNoAlias drive = (if resolve then find_entry strcasecmp drive d.subst_list else none) ≡ none

  started :
      (root drive path : List ℕ) (st : List (List ℕ))
      → NoColon path
      → Names st
      → Starts path (fd32_getcwd strcasecmp drive d) st
      → (rest : List ℕ) × (start_of strcasecmp root drive path d ≡ (aux_of root st, rest))
        × (components rest ≡ components path)
        × NoColon rest
  unfolding start_of
  started root drive [] st k h (inl (a, e)) = cc
  started root drive [] st k h (inr (a, e)) = (
    [],
    ap (λ q. (q, [])) (with_slash_lem root (fd32_getcwd strcasecmp drive d) st h e),
    refl,
    tt,
  )
  started root drive (c ∷ cs) st (x, k) h (inl (a, e)) =
      (cs, rw (a, e) refl, sym (components-slash c cs a), k)
  started root drive (c ∷ cs) st (x, k) h (inr (a, e)) = (
    c ∷ cs,
    rw a (ap (λ q. (q, c ∷ cs)) (with_slash_lem root (fd32_getcwd strcasecmp drive d) st h e)),
    refl,
    (x, k),
  )

  result :
      (drive : List ℕ) (o : Option (List (List ℕ)))
      → ((st : List (List ℕ)) → o ≡ some st → Names st)
      → finished (some (to_result (colon ∷ push_bytes drive []) o)) ≡ some (path_result drive o)
  unfolding finished
  result drive none h = refl
  result drive (some st) h = ap (λ t. some (ok t)) (finish_lem drive st (h st refl))

  -- For a drive that is not replaced by what it is an alias for, and a path without a further colon,
  -- that starts at the root or in a current directory whose names have no slash or colon: fd32_truename
  -- ends, and returns the drive, a colon and the path of the directories that the components lead to,
  -- with one backslash between them and none at the end; components of one dot stay, those of n + 1 dots
  -- go n directories up, or are written as n times ".." where FD32_TNDOTS is not given, and with it
  -- -ENOTDIR is returned where that would leave the root.
  pub fd32_truename_lem :
      (source drive path : List ℕ) (st : List (List ℕ))
      → drive_spec d.default_drive source ≡ (drive, path)
      → IsNoAlias drive
      → NoColon path
      → Names st
      → Starts path (fd32_getcwd strcasecmp drive d) st
      → fd32_truename strcasecmp resolve collapse source d
        ≡ some (path_result drive (walk collapse st (components path)))
  unfolding fd32_truename truename_of root_of continue_at
  fd32_truename_lem source drive path st e n k h s =
      let root = colon ∷ push_bytes drive [] in
      let (rest, started_at, same, k') = started root drive path st k h s in
      let rooted : root_of strcasecmp resolve drive d ≡ root = rw (root_of, n) refl in
      let loop : canonicalize (suc (length rest)) collapse (length root) (aux_of root st) rest
          ≡ some (to_result root (walk collapse st (components path))) =
        canonicalize_lem (suc (length rest)) collapse root rest st (omega arith) k' h
        ∙ ap (λ c. some (to_result root (walk collapse st c))) same in
      ap (λ r. truename_of strcasecmp resolve collapse r.0 r.1 d) e
      ∙ ap (λ r. continue_at collapse r (start_of strcasecmp r drive path d)) rooted
      ∙ ap (λ r. continue_at collapse root r) started_at
      ∙ ap finished loop
      ∙ result drive (walk collapse st (components path))
          (λ st' w. walk-Names collapse (components path) st st' (components-Names path k) h w)

  -- A canonical path, of a drive that is not an alias and of names that are not made of dots, is its own
  -- true name.
  pub fd32_truename-path_text :
      (drive : List ℕ) (st : List (List ℕ))
      → NoColon drive
      → IsNoAlias drive
      → Names st
      → NoDots st
      → fd32_truename strcasecmp resolve collapse (drive ++ (colon ∷ path_text st)) d
        ≡ some (ok (drive ++ (colon ∷ path_text st)))
  unfolding drive_spec
  fd32_truename-path_text drive st c n h o =
      let spec : drive_spec d.default_drive (drive ++ (colon ∷ path_text st))
          ≡ (drive, path_text st) =
        rw (drive_spec, at_colon-drive drive (path_text st) c) refl in
      fd32_truename_lem (drive ++ (colon ∷ path_text st)) drive (path_text st) [] spec n
        (path_text-NoColon st h) tt (inl (path_text-is_absolute st, refl))
      ∙ ap (λ ps. some (path_result drive (walk collapse [] ps))) (components-path_text st h)
      ∙ ap (λ w. some (path_result drive w)) (walk-rev_on collapse st [] o)

up-NoDots : (n : ℕ) (st st' : List (List ℕ)) → NoDots st → up n st ≡ some st' → NoDots st'
up-NoDots zero st st' h e = subst (λ t. NoDots t) (some_list e) h
up-NoDots (suc n) [] st' h e = no_path e
up-NoDots (suc n) (p ∷ st) st' (x, h) e = up-NoDots n st st' h e

visit-NoDots :
    (p : List ℕ) (st st' : List (List ℕ)) → NoDots st → visit true p st ≡ some st' → NoDots st'
visit-NoDots p st st' h e = elim (Bool-cases (is_dots p)) [
  | inl d ↦
      up-NoDots (length p - 1) st st' h
        (ap (λ b. if b then up (length p - 1) st else some (p ∷ st)) (sym d) ∙ e)
  | inr d ↦
      subst (λ t. NoDots t)
        (some_list (ap (λ b. if b then up (length p - 1) st else some (p ∷ st)) (sym d) ∙ e)) (d, h)
]

walk-NoDots : (ps st st' : List (List ℕ)) → NoDots st → walk true st ps ≡ some st' → NoDots st'
walk-NoDots [] st st' h e = subst (λ t. NoDots t) (some_list e) h
walk-NoDots (p ∷ ps) st st' h e = elim (Option-cases (visit true p st)) [
  | inl v ↦ no_path (sym (rw (walk, v) refl) ∙ e)
  | inr (t, v) ↦ walk-NoDots ps t st' (visit-NoDots p st t h v) (sym (rw (walk, v) refl) ∙ e)
]

module _ (strcasecmp : List ℕ → List ℕ → ℕ) (resolve collapse : Bool) (d : Drives) where
  -- Where fd32_truename with FD32_TNDOTS returns a path under the conditions above, from a current
  -- directory without names of dots, a second fd32_truename gives that path back, for either choice of
  -- FD32_TNDOTS.
  pub fd32_truename-fd32_truename :
      (source drive path out : List ℕ) (st : List (List ℕ))
      → drive_spec d.default_drive source ≡ (drive, path)
      → NoColon drive
      → (if resolve then find_entry strcasecmp drive d.subst_list else none) ≡ none
      → NoColon path
      → Names st
      → NoDots st
      → Starts path (fd32_getcwd strcasecmp drive d) st
      → fd32_truename strcasecmp resolve true source d ≡ some (ok out)
      → fd32_truename strcasecmp resolve collapse out d ≡ some (ok out)
  fd32_truename-fd32_truename source drive path out st e c n k h o s r =
      let first = fd32_truename_lem strcasecmp resolve true d source drive path st e n k h s in
      again (walk true st (components path)) first (λ st' w. (
        walk-Names true (components path) st st' (components-Names path k) h w,
        walk-NoDots (components path) st st' o w,
      ))
    where
      again :
          (q : Option (List (List ℕ)))
          → fd32_truename strcasecmp resolve true source d ≡ some (path_result drive q)
          → ((st' : List (List ℕ)) → q ≡ some st' → Names st' × NoDots st')
          → fd32_truename strcasecmp resolve collapse out d ≡ some (ok out)
      again none f g = absurd (err_ok (sym f ∙ r))
      again (some st') f g =
          let (x, y) = g st' refl in
          let same : drive ++ (colon ∷ path_text st') ≡ out = ok_ok (sym f ∙ r) in
          subst (λ t. fd32_truename strcasecmp resolve collapse t d ≡ some (ok t)) same
            (fd32_truename-path_text strcasecmp resolve collapse d drive st' c n x y)
