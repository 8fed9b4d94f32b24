-- ===== src/Drives.antt =====
-- fd32/filesys/drives.c: the table of drive letters, and the mounting of their file systems.
pub mod Mount
pub mod Tests
pub mod Walk
use free_dos.Common.{
  ℕ, zero, suc, ◌+◌, ◌-◌, Bool, true, false, ◌&&◌, ◌||◌, Option, none, some, ltb, ◌==◌,
  if◌then◌else◌, List, [], ◌∷◌, get_or, set, drop,
}
use free_dos.Common.Word.{sub32}
use free_dos.Common.Errno.{Res, ok, err, enodev, enomem}

-- Drive; `none` is NULL, and `R` the type of request functions.
pub record Drive (R : Type 0) : Type 0 where
  pub blk_name : Option (List ℕ)
  pub req : Option R
  pub handle : ℕ
  pub dos_dpb : ℕ
  pub dev_info : ℕ

-- The static variables: 26 drives, the letter of the default one (0 where there is none), and the
-- request functions of the file systems.
pub record Table (R : Type 0) : Type 0 where
  pub drives : List (Drive R)
  pub default_drive : ℕ
  pub fsreq : List (Option R)

abbrev pub drive_max_num : ℕ
drive_max_num = 26

abbrev pub letter_a : ℕ
letter_a = b'A'

abbrev pub letter_z : ℕ
letter_z = b'Z'

abbrev pub is_named : Option (List ℕ) → Bool
is_named none = false
is_named (some name) = true

-- strchr: the number of bytes in front of the first colon.
pub colon_index : List ℕ → Option ℕ
colon_index [] = none
colon_index (c ∷ cs) =
    let rest : Option ℕ = elim (colon_index cs) [ none ↦ none | some i ↦ some (suc i) ] in
    if c == b':' then some 0 else rest

-- The letter of a file name and the path behind it: the default drive without a colon, and the letter in
-- front of a colon that is the second byte.
pub letter_and_path : (ℕ → ℕ) → List ℕ → ℕ → Res (ℕ × List ℕ)
unfolding colon_index
letter_and_path toupper spec default =
    let upper = toupper (get_or spec 0 0) in
    elim (colon_index spec) [
      | none ↦ ok (default, spec)
      | some i ↦
          if i == 1
          then (if ltb upper letter_a || ltb letter_z upper
              then err enodev
              else ok (upper, drop 2 spec))
          else err enodev
    ]

module _ {R : Type 0} where
  abbrev pub no_drive : Drive R
  no_drive = record { blk_name = none; req = none; handle = 0; dos_dpb = 0; dev_info = 0 }

  pub count_drives : List (Drive R) → ℕ
  count_drives [] = 0
  count_drives (d ∷ ds) =
      let rest = count_drives ds in if is_named d.blk_name then suc rest else rest

  pub fd32_drive_count : Table R → ℕ
  unfolding count_drives
  fd32_drive_count t = count_drives t.drives

  -- The loop from the drive `i` on; `k` is the number of the first drive of the list. 0 is no letter.
  pub letter_from : ℕ → ℕ → List (Drive R) → ℕ
  letter_from i k [] = 0
  letter_from i k (d ∷ ds) =
      let rest = letter_from i (suc k) ds in
      if ltb k i then rest else if is_named d.blk_name then letter_a + k else rest

  pub fd32_drive_get_first : Table R → ℕ
  unfolding letter_from
  fd32_drive_get_first t = letter_from 0 0 t.drives

  -- `unsigned`, so a letter below '@' wraps to a number behind the last drive.
  pub fd32_drive_get_next : ℕ → Table R → ℕ
  unfolding letter_from
  fd32_drive_get_next drive t = letter_from (sub32 (drive + 1) letter_a) 0 t.drives

  -- `none`: the table is read behind its end.
  pub fd32_set_default_drive : (ℕ → ℕ) → ℕ → Table R → Option (Res ℕ × Table R)
  fd32_set_default_drive toupper drive t =
      let upper = toupper drive in
      if ltb upper letter_a || ltb letter_z upper
      then some (err enodev, t)
      else if ltb drive letter_a || ltb letter_z drive
      then none
      else some (
        ok (letter_z - letter_a + 1),
        if is_named (get_or t.drives (drive - letter_a) no_drive).blk_name
            then record t { default_drive = upper }
            else t,
      )

  pub fd32_get_default_drive : Table R → ℕ
  fd32_get_default_drive t = t.default_drive

-- The request FD32_MOUNT of a file system for a block device, which returns a handle.
pub record MountOps (S R : Type 0) : Type 0 where
  pub mount : R → List ℕ → S → Res ℕ × S

module _ {S R : Type 0} (ops : MountOps S R) where
  -- The loop over the file systems: the first that mounts the device, unless one fails in another way
  -- than not knowing it.
  pub mount_loop : List (Option R) → List ℕ → S → Res (R × ℕ) × S
  mount_loop [] name s = (err enodev, s)
  mount_loop (none ∷ rest) name s = mount_loop rest name s
  mount_loop (some r ∷ rest) name s =
      let q = ops.mount r name s in
      elim (q.0) [
        | ok handle ↦ (ok (r, handle), q.1)
        | err e ↦
            let more = mount_loop rest name (q.1) in if e == enodev then more else (err e, q.1)
      ]

  -- The drive `i`, as it is, is mounted with the outcome of the loop.
  pub mount_drive : ℕ → Drive R → Table R → Res (R × ℕ) × S → Res (R × ℕ) × Table R × S
  mount_drive i d t (err e, s) = (err e, t, s)
  mount_drive i d t (ok (r, handle), s) = (
    ok (r, handle),
    record t { drives = set t.drives i (record d { req = some r; handle = handle }) },
    s,
  )

  -- By the name of the block device and the request function of the drive.
  pub mounted_by :
      Option (List ℕ) → Option R → ℕ → Drive R → Table R → S → Res (R × ℕ) × Table R × S
  unfolding mount_loop mount_drive
  mounted_by none req i d t s = (err enodev, t, s)
  mounted_by (some name) (some r) i d t s = (ok (r, d.handle), t, s)
  mounted_by (some name) none i d t s = mount_drive i d t (mount_loop t.fsreq name s)

  -- The request function and the handle of the drive `i`, which is mounted where it was not.
  pub mounted : ℕ → Table R → S → Res (R × ℕ) × Table R × S
  unfolding mounted_by
  mounted i t s = let d = get_or t.drives i no_drive in mounted_by d.blk_name d.req i d t s

  pub with_path :
      ℕ → List ℕ → Res (R × ℕ) × Table R × S → Option (Res (ℕ × R × ℕ × List ℕ) × Table R × S)
  with_path letter path (err e, t, s) = some (err e, t, s)
  with_path letter path (ok (r, handle), t, s) = some (ok (letter, r, handle, path), t, s)

  pub of_letter : Res (ℕ × List ℕ) → Table R → S → Option (Res (ℕ × R × ℕ × List ℕ) × Table R × S)
  unfolding mounted with_path
  of_letter (err e) t s = some (err e, t, s)
  of_letter (ok (letter, path)) t s =
      if ltb letter letter_a then none else with_path letter path (mounted (letter - letter_a) t s)

  -- The letter, the request function, the handle and the path. `none`: there is no default drive, and
  -- the table is read in front of its start.
  pub fd32_get_drive :
      (ℕ → ℕ) → List ℕ → Table R → S → Option (Res (ℕ × R × ℕ × List ℕ) × Table R × S)
  unfolding letter_and_path of_letter
  fd32_get_drive toupper spec t s = of_letter (letter_and_path toupper spec t.default_drive) t s
