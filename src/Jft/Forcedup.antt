-- ===== src/Jft/Forcedup.antt =====
-- What fd32_close of fd32/filesys/jft.c leaves of the table of a job, for fd32_forcedup.
use free_dos.Common.{
  get_or-set_ne, ℕ, ◌<◌, ◌≡◌, ◌≢◌, refl, subst, none, some, length, get_or, true, false,
  Option-cases, inl, inr, get_elem?, get_elem?-lt, length-set,
}
use free_dos.Common.Int.{pos}
use free_dos.Common.Errno.{Res-cases}
use free_dos.Jft.{Jft, FileOps, Job, validate_file_handle, fd32_close, is_handle}

pub is_handle-lt :
    {R : Type 0} (jft : Jft R) (n : ℕ) → is_handle jft (pos n) ≡ true → n < length jft
is_handle-lt jft n h = elim (Option-cases (get_elem? jft n)) [
  | inl e ↦
      let c : false ≡ true = subst (λ o. elim o [ none ↦ false | some e ↦ true ] ≡ true) e h in cc
  | inr (x, e) ↦ get_elem?-lt jft n e
]

-- The entry of each handle but one is as before.
abbrev pub SameBut : {R : Type 0} → ℕ → Jft R → Jft R → Type 0
SameBut h jft jft' = (i : ℕ) → h ≢ i → get_or jft' i none ≡ get_or jft i none

module _ {S R A : Type 0} (ops : FileOps S R A) where
  pub fd32_close-SameBut :
      (n : ℕ) (p : Job S R) → SameBut n p.jft ((fd32_close ops (pos n) p).1.jft)
  unfolding fd32_close
  fd32_close-SameBut n p i ne = elim (Option-cases (validate_file_handle p.jft (pos n))) [
    | inl e ↦ rw (e, fd32_close) refl
    | inr (j, e) ↦ elim (Res-cases ((ops.fs_close j.request j.file p.files).0)) [
      | inl (u, x) ↦ rw (e, x, fd32_close) (get_or-set_ne p.jft n i none none ne)
      | inr (u, x) ↦ rw (e, x, fd32_close) refl
    ]
  ]

  pub fd32_close-length :
      (n : ℕ) (p : Job S R) → length ((fd32_close ops (pos n) p).1.jft) ≡ length p.jft
  unfolding fd32_close
  fd32_close-length n p = elim (Option-cases (validate_file_handle p.jft (pos n))) [
    | inl e ↦ rw (e, fd32_close) refl
    | inr (j, e) ↦ elim (Res-cases ((ops.fs_close j.request j.file p.files).0)) [
      | inl (u, x) ↦ rw (e, x, fd32_close) (length-set p.jft n none)
      | inr (u, x) ↦ rw (e, x, fd32_close) refl
    ]
  ]
