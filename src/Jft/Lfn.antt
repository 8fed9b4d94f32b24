-- ===== src/Jft/Lfn.antt =====
-- The searches with long names of fd32/filesys/jft.c.
use free_dos.Common.{ℕ, ◌==◌, ◌^◌, if◌then◌else◌, List, [], ◌∷◌, Option, none, some, set}
use free_dos.Common.Int.{ℤ}
use free_dos.Common.Errno.{Res, ok, err, enoent, ebadf, emfile, enmfile}
use free_dos.Jft.{
  FileOps, Job, set_entry, validate_search_handle, first_free, split_path, erase_search,
  find_search,
}

-- O_RDONLY | O_DIRECTORY, and FD32_ANONE.
abbrev pub o_rdonly_directory : ℕ
o_rdonly_directory = 2 ^ 16

abbrev pub fd32_anone : ℕ
fd32_anone = 0

module _ {S R A : Type 0} (ops : FileOps S R A) where
  -- `none` is a write through a null pointer, where the memory for the search is missing:
  -- list_push_front follows the pointer before a caller tests it. The contents of a new search are
  -- not yet set.
  pub search_get : Job S R → Option (ℕ × Job S R)
  search_get p =
      let r = ops.slabmem_alloc p.files in
      elim (r.0) [
        | none ↦ none
        | some place ↦ some (
          place,
          record p {
            files = r.1;
            searches_open = (place, record { flags = 0; name = [] }) ∷ p.searches_open;
          },
        )
      ]

  pub search_put : ℕ → Job S R → Job S R
  search_put place p = record p {
    searches_open = erase_search place p.searches_open;
    files = ops.slabmem_free place p.files;
  }

  -- The entry of a search that found a first file.
  abbrev pub keep_search : ℕ → R → ℕ → ℕ → ℕ → List ℕ → Job S R → Job S R
  keep_search fd request file place flags name p = record p {
    searches_open =
        (place, record { flags = flags; name = name }) ∷ erase_search place p.searches_open;
    jft = set p.jft fd (some (record { request = request; file = file; search = some place }));
  }

  -- What follows fs_open: the request for the first file, and the way out where it fails.
  pub find_first : ℕ → R → ℕ → ℕ → ℕ → List ℕ → Job S R → Res ℕ × Job S R
  unfolding search_put
  find_first fd request file place flags name p =
      let r = ops.find_file request file name flags p.files in
      elim (r.0) [
        | ok u ↦ (ok fd, keep_search fd request file place flags name (record p { files = r.1 }))
        | err e ↦
            let q = search_put place (record p { files = r.1 }) in
            (
              err (if e == enmfile then enoent else e),
              record q { files = (ops.fs_close request file q.files).1 },
            )
      ]

  -- From fs_open on, with the search that search_get gave.
  pub open_search : ℕ → ℕ → ℕ → List ℕ → Job S R → Res ℕ × Job S R
  unfolding search_put find_first split_path
  open_search fd place flags file_spec q =
      let n = split_path file_spec in
      let r = ops.fs_open (n.0) o_rdonly_directory fd32_anone 0 q.files in
      elim (r.0) [
        | err e ↦ (err e, search_put place (record q { files = r.1 }))
        | ok (res, request, file) ↦
            find_first fd request file place flags (n.1) (record q { files = r.1 })
      ]

  pub fd32_lfn_findfirst : List ℕ → ℕ → Job S R → Option (Res ℕ × Job S R)
  unfolding search_get open_search first_free
  fd32_lfn_findfirst file_spec flags p = elim (first_free p.jft) [
    | none ↦ some (err emfile, p)
    | some fd ↦ elim (search_get p) [
      | none ↦ none
      | some (place, q) ↦ some (open_search fd place flags file_spec q)
    ]
  ]

  -- The name and the flags are those of the search; the flags that are passed are not used. `none` is
  -- a read of a search that was put back.
  pub fd32_lfn_findnext : ℤ → ℕ → Job S R → Option (Res ℕ × Job S R)
  unfolding validate_search_handle
  fd32_lfn_findnext fd flags p = elim (validate_search_handle p.jft fd) [
    | none ↦ some (err ebadf, p)
    | some (j, place) ↦ elim (find_search place p.searches_open) [
      | none ↦ none
      | some s ↦
          let r = ops.find_file j.request j.file s.name s.flags p.files in
          some (r.0, record p { files = r.1 })
    ]
  ]

  pub fd32_lfn_findclose : ℤ → Job S R → Res ℕ × Job S R
  unfolding validate_search_handle search_put
  fd32_lfn_findclose fd p = elim (validate_search_handle p.jft fd) [
    | none ↦ (err ebadf, p)
    | some (j, place) ↦
        let r = ops.fs_close j.request j.file p.files in
        elim (r.0) [
          | err e ↦ (err e, record p { files = r.1 })
          | ok res ↦
              let q = search_put place (record p { files = r.1 }) in
              (ok res, record q { jft = set_entry fd none q.jft })
        ]
  ]
