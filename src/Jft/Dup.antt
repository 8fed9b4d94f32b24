-- ===== src/Jft/Dup.antt =====
-- What fd32_dup and fd32_forcedup of fd32/filesys/jft.c give.
use free_dos.Common.{
  ℕ, ◌≡◌, refl, sym, ◌∙◌, none, some, length, get_or, arith, true, false, Option-cases, Bool-cases,
  ◌⊎◌, inl, inr, get_or-set_self, get_or-set_ne, true≢false,
}
use free_dos.Common.Int.{ℤ, pos, negsuc}
use free_dos.Common.Errno.{Res, Res-cases, ok, err, ebadf, emfile}
use free_dos.Jft.{
  JftEntry, Jft, FileOps, Job, entry_of, first_free, fd32_dup, fd32_forcedup, copy_entry,
  close_open, same_handle, is_handle,
}
use free_dos.Jft.Count.{UsedBelow, FirstFree, first_free-some, first_free-none}
use free_dos.Jft.Forcedup.{SameBut, is_handle-lt, fd32_close-SameBut, fd32_close-length}

module _ {S R A : Type 0} (ops : FileOps S R A) where
  abbrev pub Dups : ℤ → Job S R → Res ℕ × Job S R → Type 0
  Dups oldfd p r =
      ((entry_of p.jft oldfd ≡ none) × (r ≡ (err ebadf, p)))
      ⊎ ((j : JftEntry R) × (entry_of p.jft oldfd ≡ some j)
          × (((h : ℕ) × (r.0 ≡ ok h)
                × FirstFree p.jft h
                × (get_or r.1.jft h none ≡ some j)
                × SameBut h p.jft r.1.jft)
              ⊎ (UsedBelow p.jft (length p.jft) × (r ≡ (err emfile, p)))))

  -- fd32_dup returns -EBADF for a handle that is free or out of range, -EMFILE where all entries are in
  -- use, and changes nothing then; otherwise it returns the lowest free handle, which gets the same
  -- entry, and every other handle keeps its own.
  pub fd32_dup_lem : (oldfd : ℤ) (p : Job S R) → Dups oldfd p (fd32_dup ops oldfd p)
  unfolding fd32_dup
  fd32_dup_lem oldfd p = elim (Option-cases (entry_of p.jft oldfd)) [
    | inl e ↦ inl (e, rw (e, fd32_dup) refl)
    | inr (j, e) ↦ inr (
      j,
      e,
      elim (Option-cases (first_free p.jft)) [
        | inl f ↦ inr (first_free-none p.jft f, rw (e, f, fd32_dup) refl)
        | inr (h, f) ↦
            let free = first_free-some p.jft h f in
            inl (
              h,
              rw (e, f, fd32_dup) refl,
              free,
              rw (e, f, fd32_dup) (get_or-set_self p.jft h (some j) none (free.0)),
              rw (e, f, fd32_dup) (λ i ne. get_or-set_ne p.jft h i (some j) none ne),
            )
      ],
    )
  ]

  close_other : (n : ℕ) (p : Job S R) → SameBut n p.jft ((close_open ops (pos n) p).1.jft)
  close_other n p i ne = elim (Option-cases (get_or p.jft n none)) [
    | inl e ↦ rw (e, close_open) refl
    | inr (j, e) ↦ rw (e, close_open) (fd32_close-SameBut ops n p i ne)
  ]

  close_length : (n : ℕ) (p : Job S R) → length ((close_open ops (pos n) p).1.jft) ≡ length p.jft
  close_length n p = elim (Option-cases (get_or p.jft n none)) [
    | inl e ↦ rw (e, close_open) refl
    | inr (j, e) ↦ rw (e, close_open) (fd32_close-length ops n p)
  ]

  -- The handle has the entry, and every other handle its own.
  abbrev pub Refers : ℤ → JftEntry R → Jft R → Jft R → Type 0
  Refers (negsuc n) j jft jft' = ⊥
  Refers (pos n) j jft jft' = (get_or jft' n none ≡ some j) × SameBut n jft jft'

  forced-Refers :
      (newfd : ℤ) (j : JftEntry R) (p : Job S R)
      → is_handle p.jft newfd ≡ true
      → Refers newfd j p.jft ((copy_entry ops j newfd ((close_open ops newfd p).1)).jft)
  forced-Refers (negsuc n) j p i = true≢false (sym i)
  forced-Refers (pos n) j p i =
      let q = (close_open ops (pos n) p).1 in
      (
        get_or-set_self q.jft n (some j) none
            (omega (arith, close_length n p, is_handle-lt p.jft n i)),
        λ k ne. get_or-set_ne q.jft n k (some j) none ne ∙ close_other n p k ne,
      )

  -- Where fd32_forcedup returns 0 for two different handles, the new one has the entry that the old one
  -- has, and every other handle keeps its own; the same handle twice changes nothing.
  pub fd32_forcedup_lem :
      (oldfd newfd : ℤ) (p : Job S R)
      → (fd32_forcedup ops oldfd newfd p).0 ≡ ok 0
      → (j : JftEntry R) × (entry_of p.jft oldfd ≡ some j)
        × (((same_handle newfd oldfd ≡ true) × ((fd32_forcedup ops oldfd newfd p).1 ≡ p))
            ⊎ ((same_handle newfd oldfd ≡ false)
                × Refers newfd j p.jft ((fd32_forcedup ops oldfd newfd p).1.jft)))
  unfolding fd32_forcedup
  fd32_forcedup_lem oldfd newfd p = elim (Option-cases (entry_of p.jft oldfd)) [
    | inl e ↦ rw (e, fd32_forcedup) (λ h. absurd cc)
    | inr (j, e) ↦ elim (Bool-cases (same_handle newfd oldfd)) [
      | inl s ↦ rw (e, s, fd32_forcedup) (λ h. (j, refl, inl (refl, refl)))
      | inr s ↦ elim (Bool-cases (is_handle p.jft newfd)) [
        | inr i ↦ rw (e, s, i, fd32_forcedup) (λ h. absurd cc)
        | inl i ↦ elim (Res-cases ((close_open ops newfd p).0)) [
          | inr (x, c) ↦ rw (e, s, i, c, fd32_forcedup) (λ h. absurd cc)
          | inl (x, c) ↦
              rw (e, s, i, c, fd32_forcedup) (λ h. (j, refl, inr (refl, forced-Refers newfd j p i)))
        ]
      ]
    ]
  ]
