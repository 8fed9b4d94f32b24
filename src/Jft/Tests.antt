-- ===== src/Jft/Tests.antt =====
-- Runs of the calls of a job on a file system in memory that counts the references to its files.
use free_dos.Common.{
  ℕ, ◌+◌, ◌-◌, ◌≡◌, ◌⊎◌, refl, ◌==◌, if◌then◌else◌, List, [], ◌∷◌, none, some, length, true, false,
}
use free_dos.Common.Int.{pos}
use free_dos.Common.Errno.{ok, err, ebadf, enmfile}
use free_dos.Jft.{
  FileOps, Job, fd32_dup, fd32_forcedup, split_path, name_start, move_back, first_free, JftEntry,
  entry_of, same_handle,
}
use free_dos.Jft.Count.{one}
use free_dos.Jft.Dup.{Dups, fd32_dup_lem, Refers, fd32_forcedup_lem}

abbrev Counts : Type 0
Counts = ℕ → ℕ

-- File 7 is opened, whatever the name.
abbrev memory : FileOps Counts (Unit {0}) (Unit {0})
memory = record {
  fs_open = λ name mode attr alias s. (ok (0, tt, 7), λ f. s f + one 7 f);
  fs_close =
      λ request file s. if s file == 0 then (err ebadf, s) else (ok 0, λ f. s f - one file f);
  fs_lseek = λ request file offset whence s. (ok 0, s);
  fs_read = λ request file size s. (ok [], s);
  fs_write = λ request file buffer s. (ok (length buffer), s);
  fs_fflush = λ request file s. (ok 0, s);
  fs_get_attributes = λ request file s. (ok tt, s);
  fs_set_attributes = λ request file a s. (ok 0, s);
  open_again = λ request file s f. s f + one file f;
  find_file = λ request file name flags s. (err enmfile, s);
  slabmem_alloc = λ s. (some 1, s);
  slabmem_free = λ place s. s;
  cputs = λ piece s. s;
}

-- Three handles, the first of file 5.
abbrev job : Job Counts (Unit {0})
job = record {
  jft = some (record { request = tt; file = 5; search = none }) ∷ (none ∷ (none ∷ []));
  searches_open = [];
  files = one 5;
}

-- "C:\DOS\A"
abbrev full_path : List ℕ
full_path = 67 ∷ (58 ∷ (92 ∷ (68 ∷ (79 ∷ (83 ∷ (92 ∷ (65 ∷ [])))))))

test_split : (split_path full_path).1 ≡ 65 ∷ []
unfolding split_path name_start move_back
test_split = refl

test_dup : (fd32_dup memory (pos 0) job).0 ≡ ok 1
unfolding fd32_dup first_free
test_dup = refl

fd32_dup_lem_example : Dups memory (pos 0) job (fd32_dup memory (pos 0) job)
fd32_dup_lem_example = fd32_dup_lem memory (pos 0) job

forced : (fd32_forcedup memory (pos 0) (pos 2) job).0 ≡ ok 0
unfolding fd32_forcedup
forced = refl

fd32_forcedup_lem_example :
    (j : JftEntry (Unit {0})) × (entry_of job.jft (pos 0) ≡ some j)
    × (((same_handle (pos 2) (pos 0) ≡ true) × ((fd32_forcedup memory (pos 0) (pos 2) job).1 ≡ job))
        ⊎ ((same_handle (pos 2) (pos 0) ≡ false)
            × Refers memory (pos 2) j job.jft ((fd32_forcedup memory (pos 0) (pos 2) job).1.jft)))
fd32_forcedup_lem_example = fd32_forcedup_lem memory (pos 0) (pos 2) job forced
