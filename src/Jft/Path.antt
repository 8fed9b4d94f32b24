-- ===== src/Jft/Path.antt =====
-- split_path of fd32/filesys/jft.c.
use free_dos.Common.{
  ℕ, zero, suc, ◌≤◌, ◌<◌, ◌≡◌, ◌≢◌, refl, sym, ◌∙◌, ap, subst, ◌==◌, if◌then◌else◌, List, [], ◌∷◌,
  ◌++◌, length, get_or, take, drop, arith, true, false, Bool-cases, ◌⊎◌, inl, inr, take-append-drop,
}
use free_dos.Jft.{backslash, move_back, name_start, split_path}

abbrev pub NoBackslash : List ℕ → Type 0
NoBackslash [] = Unit {0}
NoBackslash (c ∷ rest) = (c ≢ backslash) × NoBackslash rest

-- Empty, or with a backslash at its end.
abbrev pub IsDirectory : List ℕ → Type 0
IsDirectory path = (path ≡ []) ⊎ ((p : List ℕ) × (path ≡ p ++ (backslash ∷ [])))

drop-NoBackslash :
    (xs : List ℕ) (s : ℕ)
    → ((i : ℕ) → s ≤ i → i < length xs → get_or xs i 0 ≢ backslash)
    → NoBackslash (drop s xs)
drop-NoBackslash [] zero h = tt
drop-NoBackslash [] (suc s) h = tt
drop-NoBackslash (x ∷ xs) zero h = (
  h 0 (omega arith) (omega arith),
  drop-NoBackslash xs 0 (λ i a b. h (suc i) (omega arith) (omega arith)),
)
drop-NoBackslash (x ∷ xs) (suc s) h =
    drop-NoBackslash xs s (λ i a b. h (suc i) (omega arith) (omega arith))

take-last :
    (xs : List ℕ) (s : ℕ) → s < length xs → take (suc s) xs ≡ take s xs ++ (get_or xs s 0 ∷ [])
take-last [] s h = absurd (omega arith)
take-last (x ∷ xs) zero h = refl
take-last (x ∷ xs) (suc s) h = ap (λ t. x ∷ t) (take-last xs s (omega arith))

-- Where the loop stops: at the start, or at a backslash; behind it there is none.
abbrev Stops : List ℕ → ℕ → ℕ → Type 0
Stops xs n s =
    (s ≤ n)
    × ((s ≡ 0) ⊎ (get_or xs s 0 ≡ backslash))
    × ((i : ℕ) → s < i → i ≤ n → get_or xs i 0 ≢ backslash)

equal : (m n : ℕ) → (m == n) ≡ true → m ≡ n
equal m n e = ground arith

unequal : (m n : ℕ) → (m == n) ≡ false → m ≢ n
unequal m n e = ground arith

move_back-Stops : (xs : List ℕ) (n : ℕ) → Stops xs n (move_back xs n)
unfolding move_back
move_back-Stops xs zero = (omega arith, inl refl, λ i a b. absurd (omega arith))
move_back-Stops xs (suc n) = elim (Bool-cases (get_or xs (suc n) 0 == backslash)) [
  | inl e ↦
      rw (e, move_back)
        (omega arith, inr (equal (get_or xs (suc n) 0) backslash e), λ i a b. absurd (omega arith))
  | inr e ↦
      let (x, y, z) = move_back-Stops xs n in
      rw (e, move_back)
        (
          omega arith,
          y,
          λ i a b. elim (Bool-cases (i == suc n)) [
            | inl f ↦
                subst (λ k. get_or xs k 0 ≢ backslash) (sym (equal i (suc n) f))
                  (unequal (get_or xs (suc n) 0) backslash e)
            | inr f ↦ z i a (ground arith)
          ],
        )
]

get_or-lt : (xs : List ℕ) (s : ℕ) → get_or xs s 0 ≡ backslash → s < length xs
get_or-lt [] s e = absurd (omega arith)
get_or-lt (x ∷ xs) zero e = omega arith
get_or-lt (x ∷ xs) (suc s) e = omega (arith, get_or-lt xs s e)

abbrev Splits : List ℕ → List ℕ × List ℕ → Type 0
Splits full_path (path, name) = (path ++ name ≡ full_path) × NoBackslash name × IsDirectory path

split_at :
    (xs : List ℕ) (s : ℕ)
    → Stops xs (length xs) s
    → let k = if get_or xs s 0 == backslash then suc s else s in Splits xs (take k xs, drop k xs)
split_at xs s (x, y, z) = elim (Bool-cases (get_or xs s 0 == backslash)) [
  | inl e ↦
      let h = equal (get_or xs s 0) backslash e in
      rw e (
        take-append-drop (suc s) xs,
        drop-NoBackslash xs (suc s) (λ i a b. z i (omega arith) (omega arith)),
        inr (take s xs, take-last xs s (get_or-lt xs s h) ∙ ap (λ c. take s xs ++ (c ∷ [])) h),
      )
  | inr e ↦
      let ne = unequal (get_or xs s 0) backslash e in
      let at_start : s ≡ 0 = elim y [ inl a ↦ a | inr b ↦ absurd (ne b) ] in
      rw e (
        take-append-drop s xs,
        drop-NoBackslash xs s (λ i a b. elim (Bool-cases (i == s)) [
          | inl f ↦ subst (λ k. get_or xs k 0 ≢ backslash) (sym (equal i s f)) ne
          | inr f ↦ z i (ground arith) (omega arith)
        ]),
        inl (ap (λ k. take k xs) at_start),
      )
]

-- The path and the name that split_path gives are the whole path, in order; the name has no
-- backslash, and the path is empty or ends with one.
pub split_path_lem : (full_path : List ℕ) → Splits full_path (split_path full_path)
unfolding split_path name_start
split_path_lem full_path =
    split_at full_path (move_back full_path (length full_path))
      (move_back-Stops full_path (length full_path))
