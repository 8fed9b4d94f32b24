-- ===== src/Truename.antt =====
-- fd32/filesys/truename.c: the canonical form of paths, the current directories and the aliases of drives.
pub mod Components
pub mod Buffer
pub mod Directories
pub mod Path
pub mod Tests
pub mod Text
use free_dos.Common.{
  ℕ, zero, suc, ◌+◌, ◌-◌, Bool, true, false, not, ◌&&◌, ◌||◌, Option, none, some, ltb, ◌==◌,
  if◌then◌else◌, List, [], ◌∷◌, length,
}
use free_dos.Common.Errno.{Res, ok, err, enodev, enomem, enotdir}

-- The bytes that count in a path.
abbrev pub colon : ℕ
colon = b':'

abbrev pub backslash : ℕ
backslash = 92

abbrev pub slash : ℕ
slash = b'/'

abbrev pub dot : ℕ
dot = b'.'

-- A drive with its current directory (tCds), or an alias with what it stands for (tSubst).
abbrev pub Entries : Type 0
Entries = List (List ℕ × List ℕ)

-- The default drive of drives.c, and the two lists, the entry made last first.
pub record Drives : Type 0 where
  pub default_drive : ℕ
  pub subst_list : Entries
  pub cds_list : Entries

abbrev pub is_slash : ℕ → Bool
is_slash c = c == backslash || c == slash

-- Bytes are put at pAux. The buffer is held from its last byte to its first, so that pAux[-1] is in front.
abbrev pub push_bytes : List ℕ → List ℕ → List ℕ
push_bytes [] aux = aux
push_bytes (x ∷ xs) aux = push_bytes xs (x ∷ aux)

abbrev pub is_empty : List ℕ → Bool
is_empty [] = true
is_empty (x ∷ xs) = false

-- Whether pAux[-1] is `c`.
abbrev pub ends_in : ℕ → List ℕ → Bool
ends_in c [] = false
ends_in c (x ∷ xs) = x == c

abbrev pub drop_last : List ℕ → List ℕ
drop_last [] = []
drop_last (x ∷ xs) = xs

abbrev pub with_slash : List ℕ → List ℕ
with_slash aux = if ends_in backslash aux then aux else backslash ∷ aux

-- The bytes in front of the first colon, and those behind it; `none` without a colon.
pub at_colon : List ℕ → Option (List ℕ × List ℕ)
at_colon [] = none
at_colon (c ∷ cs) =
    let rest : Option (List ℕ × List ℕ) = elim (at_colon cs) [
      | none ↦ none
      | some (drive, path) ↦ some (c ∷ drive, path)
    ] in
    if c == colon then some ([], cs) else rest

-- The drive of a path, and the path without it; a default drive 0 is none.
pub drive_spec : ℕ → List ℕ → List ℕ × List ℕ
unfolding at_colon
drive_spec default source = elim (at_colon source) [
  | none ↦ (if default == 0 then [] else default ∷ [], source)
  | some r ↦ r
]

-- The bytes up to a slash, and those behind the slash.
pub next_component : List ℕ → List ℕ × List ℕ
next_component [] = ([], [])
next_component (c ∷ cs) =
    let rest : List ℕ × List ℕ = (c ∷ (next_component cs).0, (next_component cs).1) in
    if is_slash c then ([], cs) else rest

-- The loop that counts the dots of a component: 0 where it has another byte.
pub count_dots : ℕ → List ℕ → ℕ
count_dots dots [] = dots
count_dots dots (c ∷ cs) = let rest = count_dots (suc dots) cs in if c == dot then rest else 0

-- The path is rewound to the slash in front of as many components as there are dots but one; it stays
-- behind the root, which starts after `root` bytes. `none` is -ENOTDIR.
pub rewind : ℕ → ℕ → List ℕ → Option (List ℕ)
rewind root dots [] = none
rewind root dots (c ∷ rest) =
    let left = if c == backslash then dots - 1 else dots in
    let more = rewind root left rest in
    if left == 0 then some (c ∷ rest) else if length rest == root then none else more

-- "..\" as often as there are dots but one.
abbrev pub push_dots : ℕ → List ℕ → List ℕ
push_dots zero aux = aux
push_dots (suc n) aux = push_dots n (backslash ∷ (dot ∷ (dot ∷ aux)))

abbrev pub or_enotdir : Option (List ℕ) → Res (List ℕ)
or_enotdir none = err enotdir
or_enotdir (some aux) = ok aux

-- What one component does to the path; `collapse` is FD32_TNDOTS.
pub add_component : Bool → ℕ → List ℕ → List ℕ → Res (List ℕ)
unfolding count_dots rewind
add_component collapse root comp aux =
    let dots = count_dots 0 comp in
    if is_empty comp
    then ok aux
    else if dots == 0
    then ok (backslash ∷ push_bytes comp aux)
    else if collapse
    then (if ltb 1 dots then or_enotdir (rewind root dots aux) else ok aux)
    else ok (push_dots (dots - 1) aux)

-- The loop over the path, on fuel; `none` is that it ran out.
pub canonicalize : ℕ → Bool → ℕ → List ℕ → List ℕ → Option (Res (List ℕ))
unfolding next_component add_component
canonicalize zero collapse root aux source = none
canonicalize (suc fuel) collapse root aux source =
    let next = next_component source in
    if is_empty source then some (ok aux) else elim (add_component collapse root (next.0) aux) [
      | err e ↦ some (err e)
      | ok aux' ↦ canonicalize fuel collapse root aux' (next.1)
    ]

-- Without the slash at the end, unless that is the root of a drive; and from the first byte to the last.
pub finish : List ℕ → List ℕ
finish aux =
    push_bytes
      (if ends_in backslash aux && not (ends_in colon (drop_last aux)) then drop_last aux else aux)
      []

abbrev pub or_root : Option (List ℕ) → List ℕ
or_root none = backslash ∷ []
or_root (some dir) = dir

-- The end of fd32_truename, after its loop.
pub finished : Option (Res (List ℕ)) → Option (Res (List ℕ))
unfolding finish
finished none = none
finished (some (err e)) = some (err e)
finished (some (ok aux)) = some (ok (finish aux))

-- The loop, with a round for each byte that is left and one more.
pub continue_at : Bool → List ℕ → List ℕ × List ℕ → Option (Res (List ℕ))
unfolding canonicalize finished
continue_at collapse root start =
    finished (canonicalize (suc (length start.1)) collapse (length root) start.0 start.1)

module _ (strcasecmp : List ℕ → List ℕ → ℕ) where
  -- The first entry of the name.
  pub find_entry : List ℕ → Entries → Option (List ℕ)
  find_entry name [] = none
  find_entry name ((alias, target) ∷ rest) =
      let more = find_entry name rest in if strcasecmp alias name == 0 then some target else more

  pub fd32_query_subst : List ℕ → Drives → Res (List ℕ)
  unfolding find_entry
  fd32_query_subst alias d = elim (find_entry alias d.subst_list) [
    | none ↦ err enodev
    | some t ↦ ok t
  ]

  -- The list without the first entry of the name; `none` where there is none.
  pub unlink_entry : List ℕ → Entries → Option Entries
  unlink_entry name [] = none
  unlink_entry name ((alias, target) ∷ rest) =
      let more : Option Entries = elim (unlink_entry name rest) [
        | none ↦ none
        | some es ↦ some ((alias, target) ∷ es)
      ] in
      if strcasecmp alias name == 0 then some rest else more

  pub fd32_terminate_subst : List ℕ → Drives → Res ℕ × Drives
  unfolding unlink_entry
  fd32_terminate_subst alias d = elim (unlink_entry alias d.subst_list) [
    | none ↦ (err enodev, d)
    | some es ↦ (ok 0, record d { subst_list = es })
  ]

  pub fd32_getcwd : List ℕ → Drives → List ℕ
  unfolding find_entry
  fd32_getcwd drive d = or_root (find_entry drive d.cds_list)

  -- The loop of fd32_chdir over the list: the first entry of the drive is overwritten.
  pub overwrite_entry : List ℕ → List ℕ → Entries → Entries
  overwrite_entry drive dir [] = []
  overwrite_entry drive dir ((name, old) ∷ rest) =
      let more = (name, old) ∷ overwrite_entry drive dir rest in
      if strcasecmp name drive == 0 then (name, dir) ∷ rest else more

  -- The end of fd32_chdir: an entry is added also where one was overwritten; `memory` is whether mem_get
  -- returns some.
  pub set_directory : Bool → List ℕ → List ℕ → Drives → Res ℕ × Drives
  unfolding overwrite_entry
  set_directory memory drive dir d =
      let es = overwrite_entry drive dir d.cds_list in
      if memory
      then (ok 0, record d { cds_list = (drive, dir) ∷ es })
      else (err enomem, record d { cds_list = es })

  -- Where the path starts in the buffer: the drive, or what it is an alias for (`resolve` is FD32_TNSUBST).
  pub root_of : Bool → List ℕ → Drives → List ℕ
  root_of resolve drive d = elim (if resolve then find_entry drive d.subst_list else none) [
    | none ↦ colon ∷ push_bytes drive []
    | some target ↦
        let aux = push_bytes target [] in if ends_in backslash aux then drop_last aux else aux
  ]

  -- The slash of an absolute path, or the current directory and a slash.
  pub start_of : List ℕ → List ℕ → List ℕ → Drives → List ℕ × List ℕ
  unfolding fd32_getcwd
  start_of root drive [] d = (with_slash (push_bytes (fd32_getcwd drive d) root), [])
  start_of root drive (c ∷ cs) d =
      if is_slash c
      then (backslash ∷ root, cs)
      else (with_slash (push_bytes (fd32_getcwd drive d) root), c ∷ cs)

  -- The path of a drive.
  pub truename_of : Bool → Bool → List ℕ → List ℕ → Drives → Option (Res (List ℕ))
  unfolding root_of start_of continue_at
  truename_of resolve collapse drive path d =
      let root = root_of resolve drive d in continue_at collapse root (start_of root drive path d)

  pub fd32_truename : Bool → Bool → List ℕ → Drives → Option (Res (List ℕ))
  unfolding drive_spec truename_of
  fd32_truename resolve collapse source d =
      let spec = drive_spec d.default_drive source in truename_of resolve collapse spec.0 spec.1 d
