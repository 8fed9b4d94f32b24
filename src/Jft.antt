-- ===== src/Jft.antt =====
-- fd32/filesys/jft.c: the table of the open files of a job, over the requests to file systems, and the
-- searches with long names.
pub mod Path
pub mod Console
pub mod Count
pub mod Lfn
pub mod Forcedup
pub mod Dup
pub mod Tests
use free_dos.Common.{
  ℕ, zero, suc, ◌+◌, ◌-◌, Bool, true, false, not, ◌||◌, ◌==◌, if◌then◌else◌, List, [], ◌∷◌, ◌++◌,
  Option, none, some, get_elem?, get_or, set, length, take, drop,
}
use free_dos.Common.Int.{ℤ, pos, negsuc}
use free_dos.Common.Errno.{Res, ok, err, enoent, ebadf, emfile, enmfile, enomem}

-- struct JftEntry, of an entry that is not free. `search` names a struct Search.
pub record JftEntry (R : Type 0) : Type 0 where
  pub request : R
  pub file : ℕ
  pub search : Option ℕ

-- A free entry, whose request is NULL, is `none`.
abbrev pub Jft : Type 0 → Type 0
Jft R = List (Option (JftEntry R))

-- struct Search.
pub record Search : Type 0 where
  pub flags : ℕ
  pub name : List ℕ

-- The functions of fd32/filesys/fs.c, which send a request to the file system of a file; the request
-- FD32_OPEN, which counts one more reference to a file; FD32_FINDFILE, of a directory, a name and
-- flags; slabmem_alloc and slabmem_free of searches; and cputs.
pub record FileOps (S R A : Type 0) : Type 0 where
  pub fs_open : List ℕ → ℕ → ℕ → ℕ → S → Res (ℕ × R × ℕ) × S
  pub fs_close : R → ℕ → S → Res ℕ × S
  pub fs_lseek : R → ℕ → ℤ → ℕ → S → Res ℕ × S
  pub fs_read : R → ℕ → ℕ → S → Res (List ℕ) × S
  pub fs_write : R → ℕ → List ℕ → S → Res ℕ × S
  pub fs_fflush : R → ℕ → S → Res ℕ × S
  pub fs_get_attributes : R → ℕ → S → Res A × S
  pub fs_set_attributes : R → ℕ → A → S → Res ℕ × S
  pub open_again : R → ℕ → S → S
  pub find_file : R → ℕ → List ℕ → ℕ → S → Res ℕ × S
  pub slabmem_alloc : S → Option ℕ × S
  pub slabmem_free : ℕ → S → S
  pub cputs : List ℕ → S → S

-- The table of the current job, the open searches by their names, and the files.
pub record Job (S R : Type 0) : Type 0 where
  pub jft : Jft R
  pub searches_open : List (ℕ × Search)
  pub files : S

-- The entry of a handle, or none for a free one or a number out of range.
abbrev pub entry_of : {R : Type 0} → Jft R → ℤ → Option (JftEntry R)
entry_of jft (negsuc n) = none
entry_of jft (pos n) = get_or jft n none

abbrev pub set_entry : {R : Type 0} → ℤ → Option (JftEntry R) → Jft R → Jft R
set_entry (negsuc n) e jft = jft
set_entry (pos n) e jft = set jft n e

abbrev pub files_only : {R : Type 0} → Option (JftEntry R) → Option (JftEntry R)
files_only none = none
files_only (some j) = elim (j.search) [ none ↦ some j | some p ↦ none ]

abbrev pub with_search : {R : Type 0} → JftEntry R → Option ℕ → Option (JftEntry R × ℕ)
with_search j none = none
with_search j (some p) = some (j, p)

abbrev pub searches_only : {R : Type 0} → Option (JftEntry R) → Option (JftEntry R × ℕ)
searches_only none = none
searches_only (some j) = with_search j j.search

pub validate_file_handle : {R : Type 0} → Jft R → ℤ → Option (JftEntry R)
validate_file_handle jft fd = files_only (entry_of jft fd)

-- Also gives the search of the entry.
pub validate_search_handle : {R : Type 0} → Jft R → ℤ → Option (JftEntry R × ℕ)
validate_search_handle jft handle = searches_only (entry_of jft handle)

-- The loops over the handles: the first entry that is free.
pub first_free : {R : Type 0} → Jft R → Option ℕ
first_free [] = none
first_free (none ∷ rest) = some 0
first_free (some j ∷ rest) = elim (first_free rest) [ none ↦ none | some h ↦ some (suc h) ]

-- Pieces of at most 254 characters, as they are passed to cputs; `rounds` bounds the loop.
pub console_pieces : ℕ → List ℕ → List (List ℕ)
console_pieces zero buffer = []
console_pieces (suc rounds) [] = []
console_pieces (suc rounds) (c ∷ rest) =
    take 254 (c ∷ rest) ∷ console_pieces rounds (drop 254 (c ∷ rest))

-- split_path. The loop moves back from the end until it stands at a backslash, or at the start.
abbrev pub backslash : ℕ
backslash = 92

pub move_back : List ℕ → ℕ → ℕ
move_back full_path zero = 0
move_back full_path (suc s) =
    let r = move_back full_path s in if get_or full_path (suc s) 0 == backslash then suc s else r

pub name_start : List ℕ → ℕ
unfolding move_back
name_start full_path =
    let s = move_back full_path (length full_path) in
    if get_or full_path s 0 == backslash then suc s else s

-- The path and the name.
pub split_path : List ℕ → List ℕ × List ℕ
unfolding name_start
split_path full_path =
    (take (name_start full_path) full_path, drop (name_start full_path) full_path)

abbrev pub erase_search : ℕ → List (ℕ × Search) → List (ℕ × Search)
erase_search p [] = []
erase_search p ((q, s) ∷ rest) = if q == p then rest else (q, s) ∷ erase_search p rest

abbrev pub find_search : ℕ → List (ℕ × Search) → Option Search
find_search p [] = none
find_search p ((q, s) ∷ rest) = if q == p then some s else find_search p rest

-- SAFE_CON_OUT is set.
abbrev pub is_con_out : ℤ → Bool
is_con_out (negsuc n) = false
is_con_out (pos n) = n == 1 || n == 2

abbrev pub is_handle : {R : Type 0} → Jft R → ℤ → Bool
is_handle jft (negsuc n) = false
is_handle jft (pos n) = elim (get_elem? jft n) [ none ↦ false | some e ↦ true ]

abbrev pub same_handle : ℤ → ℤ → Bool
same_handle (pos m) (pos n) = m == n
same_handle (negsuc m) (negsuc n) = m == n
same_handle (pos m) (negsuc n) = false
same_handle (negsuc m) (pos n) = false

module _ {S R A : Type 0} (ops : FileOps S R A) where
  -- A call of a request for a file that is open, and -EBADF otherwise.
  abbrev pub on_file : {B : Type 0} → (R → ℕ → S → Res B × S) → ℤ → Job S R → Res B × Job S R
  on_file call fd p = elim (validate_file_handle p.jft fd) [
    | none ↦ (err ebadf, p)
    | some j ↦ let r = call j.request j.file p.files in (r.0, record p { files = r.1 })
  ]

  -- `result`, where it is not NULL, gets the new position.
  pub fd32_lseek : ℤ → ℤ → ℕ → Job S R → Res ℕ × Job S R
  unfolding validate_file_handle
  fd32_lseek fd offset whence = on_file (λ r f. ops.fs_lseek r f offset whence) fd

  pub fd32_read : ℤ → ℕ → Job S R → Res (List ℕ) × Job S R
  unfolding validate_file_handle
  fd32_read fd size = on_file (λ r f. ops.fs_read r f size) fd

  pub fd32_set_attributes : ℤ → A → Job S R → Res ℕ × Job S R
  unfolding validate_file_handle
  fd32_set_attributes fd a = on_file (λ r f. ops.fs_set_attributes r f a) fd

  pub fd32_get_attributes : ℤ → Job S R → Res A × Job S R
  unfolding validate_file_handle
  fd32_get_attributes fd = on_file ops.fs_get_attributes fd

  pub fd32_fflush : ℤ → Job S R → Res ℕ × Job S R
  unfolding validate_file_handle
  fd32_fflush fd = on_file ops.fs_fflush fd

  abbrev pub put_pieces : List (List ℕ) → S → S
  put_pieces [] s = s
  put_pieces (piece ∷ rest) s = put_pieces rest (ops.cputs piece s)

  pub fake_console_write : List ℕ → Job S R → Res ℕ × Job S R
  unfolding console_pieces
  fake_console_write buffer p = (
    ok (length buffer),
    record p { files = put_pieces (console_pieces (length buffer) buffer) p.files },
  )

  pub fd32_write : ℤ → List ℕ → Job S R → Res ℕ × Job S R
  unfolding validate_file_handle fake_console_write
  fd32_write fd buffer p = elim (validate_file_handle p.jft fd) [
    | none ↦ if is_con_out fd then fake_console_write buffer p else (err ebadf, p)
    | some j ↦
        let r = ops.fs_write j.request j.file buffer p.files in (r.0, record p { files = r.1 })
  ]

  pub fd32_close : ℤ → Job S R → Res ℕ × Job S R
  unfolding validate_file_handle
  fd32_close fd p = elim (validate_file_handle p.jft fd) [
    | none ↦ (err ebadf, p)
    | some j ↦
        let r = ops.fs_close j.request j.file p.files in
        elim (r.0) [
          | err e ↦ (err e, record p { files = r.1 })
          | ok res ↦ (ok res, record p { files = r.1; jft = set_entry fd none p.jft })
        ]
  ]

  -- A second entry for an open file, which counts one more reference.
  abbrev pub copy_entry : JftEntry R → ℤ → Job S R → Job S R
  copy_entry j h p = record p {
    jft = set_entry h (some j) p.jft;
    files = ops.open_again j.request j.file p.files;
  }

  pub fd32_dup : ℤ → Job S R → Res ℕ × Job S R
  unfolding first_free
  fd32_dup oldfd p = elim (entry_of p.jft oldfd) [
    | none ↦ (err ebadf, p)
    | some j ↦ elim (first_free p.jft) [
      | none ↦ (err emfile, p)
      | some h ↦ (ok h, copy_entry j (pos h) p)
    ]
  ]

  -- `newfd` is closed first, if it is open.
  abbrev pub close_open : ℤ → Job S R → Res ℕ × Job S R
  close_open newfd p = elim (entry_of p.jft newfd) [
    | none ↦ (ok 0, p)
    | some j ↦ fd32_close newfd p
  ]

  pub fd32_forcedup : ℤ → ℤ → Job S R → Res ℕ × Job S R
  unfolding fd32_close
  fd32_forcedup oldfd newfd p = elim (entry_of p.jft oldfd) [
    | none ↦ (err ebadf, p)
    | some j ↦
        if same_handle newfd oldfd
        then (ok 0, p)
        else if not (is_handle p.jft newfd)
        then (err ebadf, p)
        else let c = close_open newfd p in
          elim (c.0) [ err e ↦ (err e, c.1) | ok u ↦ (ok 0, copy_entry j newfd (c.1)) ]
  ]

  -- Gives the handle; `result`, where it is not NULL, gets what fs_open returned.
  pub fd32_open : List ℕ → ℕ → ℕ → ℕ → Job S R → Res ℕ × Job S R
  unfolding first_free
  fd32_open file_name mode attr alias_hint p = elim (first_free p.jft) [
    | none ↦ (err emfile, p)
    | some fd ↦
        let r = ops.fs_open file_name mode attr alias_hint p.files in
        elim (r.0) [
          | err e ↦ (err e, record p { files = r.1 })
          | ok (res, request, file) ↦
              let j : JftEntry R = record { request = request; file = file; search = none } in
              (ok fd, record p { files = r.1; jft = set p.jft fd (some j) })
        ]
  ]
