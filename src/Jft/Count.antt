-- ===== src/Jft/Count.antt =====
-- The entries of the table of fd32/filesys/jft.c that refer to a file.
use free_dos.Common.{
  ℕ, zero, suc, ◌+◌, ◌<◌, ◌≡◌, refl, subst, Option-cases, inl, inr, ◌==◌, if◌then◌else◌, [], ◌∷◌,
  Option, none, some, length, get_or, set, arith,
}
use free_dos.Jft.{JftEntry, Jft, first_free}

abbrev pub one : ℕ → ℕ → ℕ
one file f = if file == f then 1 else 0

abbrev pub refers : {R : Type 0} → Option (JftEntry R) → ℕ → ℕ
refers none f = 0
refers (some j) f = one j.file f

-- The number of entries for the file.
abbrev pub handles : {R : Type 0} → Jft R → ℕ → ℕ
handles [] f = 0
handles (e ∷ rest) f = refers e f + handles rest f

pub handles-set :
    {R : Type 0} (jft : Jft R) (i f : ℕ) (e : Option (JftEntry R))
    → i < length jft
    → handles (set jft i e) f + refers (get_or jft i none) f ≡ handles jft f + refers e f
handles-set [] i f e h = absurd (omega arith)
handles-set (x ∷ jft) zero f e h = omega arith
handles-set (x ∷ jft) (suc i) f e h = omega (arith, handles-set jft i f e (omega arith))

pub get_or-some :
    {R : Type 0} (jft : Jft R) (i : ℕ) (j : JftEntry R)
    → get_or jft i none ≡ some j
    → i < length jft
get_or-some [] i j h = cc
get_or-some (x ∷ jft) zero j h = omega arith
get_or-some (x ∷ jft) (suc i) j h = omega (arith, get_or-some jft i j h)

-- All entries before the place are in use.
abbrev pub UsedBelow : {R : Type 0} → Jft R → ℕ → Type 0
UsedBelow {R} jft h = (i : ℕ) → i < h → (j : JftEntry R) × (get_or jft i none ≡ some j)

UsedBelow-cons :
    {R : Type 0} (j : JftEntry R) (jft : Jft R) (h : ℕ)
    → UsedBelow jft h
    → UsedBelow (some j ∷ jft) (suc h)
UsedBelow-cons j jft h u zero l = (j, refl)
UsedBelow-cons j jft h u (suc i) l = u i (omega arith)

abbrev pub FirstFree : {R : Type 0} → Jft R → ℕ → Type 0
FirstFree jft h = (h < length jft) × (get_or jft h none ≡ none) × UsedBelow jft h

pub first_free-some : {R : Type 0} (jft : Jft R) (h : ℕ) → first_free jft ≡ some h → FirstFree jft h
unfolding first_free
first_free-some [] h e = cc
first_free-some (none ∷ jft) h e =
    let k : 0 ≡ h = cc in
    subst (FirstFree (none ∷ jft)) k (omega arith, refl, λ i l. absurd (omega arith))
first_free-some (some j ∷ jft) h e = elim (Option-cases (first_free jft)) [
  | inl n ↦
      let c : none ≡ some h =
        subst (λ o. elim o [ none ↦ none | some h ↦ some (suc h) ] ≡ some h) n e in
      cc
  | inr (k, n) ↦
      let c : some (suc k) ≡ some h =
        subst (λ o. elim o [ none ↦ none | some h ↦ some (suc h) ] ≡ some h) n e in
      let d : suc k ≡ h = cc in
      let (x, y, z) = first_free-some jft k n in
      subst (FirstFree (some j ∷ jft)) d (omega arith, y, UsedBelow-cons j jft k z)
]

pub first_free-none :
    {R : Type 0} (jft : Jft R) → first_free jft ≡ none → UsedBelow jft (length jft)
unfolding first_free
first_free-none [] e = λ i l. absurd (omega arith)
first_free-none (none ∷ jft) e = cc
first_free-none (some j ∷ jft) e = elim (Option-cases (first_free jft)) [
  | inl n ↦ UsedBelow-cons j jft (length jft) (first_free-none jft n)
  | inr (k, n) ↦
      let c : some (suc k) ≡ none =
        subst (λ o. elim o [ none ↦ none | some h ↦ some (suc h) ] ≡ none) n e in
      cc
]
