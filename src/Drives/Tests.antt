-- ===== src/Drives/Tests.antt =====
-- Runs of fd32/filesys/drives.c with one drive, C.
use free_dos.Common.{
  ℕ, ◌+◌, ◌-◌, ◌≡◌, refl, ◌&&◌, List, [], ◌∷◌, none, some, length, replicate, leb, if◌then◌else◌,
}
use free_dos.Common.Errno.{ok}
use free_dos.Drives.{
  Drive, Table, MountOps, no_drive, fd32_get_drive, letter_and_path, colon_index, of_letter,
  mounted, mounted_by, mount_drive, mount_loop, with_path, fd32_drive_count, fd32_drive_get_first,
  fd32_set_default_drive,
}
use free_dos.Drives.Mount.{fd32_get_drive-fd32_get_drive}
use free_dos.Drives.Walk.{walk_drives, letters, walk_drives_lem}

abbrev upper : ℕ → ℕ
upper c = if leb b'a' c && leb c b'z' then c - 32 else c

-- The state counts the mounts, and every device is known.
abbrev counting : MountOps ℕ ℕ
counting = record { mount = λ r name s. (ok 5, s + 1) }

abbrev hda1 : Drive ℕ
hda1 = record {
  blk_name = some (b'h' ∷ (b'd' ∷ []));
  req = none;
  handle = 0;
  dos_dpb = 0;
  dev_info = 0;
}

abbrev table : Table ℕ
table = record {
  drives = no_drive ∷ (no_drive ∷ (hda1 ∷ replicate 23 no_drive));
  default_drive = b'C';
  fsreq = none ∷ (some 7 ∷ []);
}

abbrev mounted_table : Table ℕ
mounted_table = record table {
  drives =
      no_drive ∷ (no_drive ∷ (record hda1 { req = some 7; handle = 5 } ∷ replicate 23 no_drive));
}

-- "c:x"
abbrev file : List ℕ
file = b'c' ∷ (b':' ∷ (b'x' ∷ []))

test_mount :
    fd32_get_drive counting upper file table 0 ≡ some (ok (b'C', 7, 5, b'x' ∷ []), mounted_table, 1)
unfolding fd32_get_drive letter_and_path colon_index of_letter mounted mounted_by mount_drive
    mount_loop with_path
test_mount = refl

-- A letter in lower case is read behind the end of the table.
test_lower_case : fd32_set_default_drive upper (b'c') table ≡ none
unfolding fd32_set_default_drive
test_lower_case = refl

fd32_get_drive-fd32_get_drive_example :
    fd32_get_drive counting upper file mounted_table 3
    ≡ some (ok (b'C', 7, 5, b'x' ∷ []), mounted_table, 3)
fd32_get_drive-fd32_get_drive_example =
    fd32_get_drive-fd32_get_drive counting upper file table 0 (b'C', 7, 5, b'x' ∷ []) mounted_table
      1 3 test_mount

walk_drives_lem_example :
    (walk_drives 27 (fd32_drive_get_first table) table ≡ letters 0 table.drives)
    × (fd32_drive_count table ≡ length (letters 0 table.drives))
walk_drives_lem_example = walk_drives_lem table refl
