-- ===== src/Fat/Chain.antt =====
-- The chain of clusters of a file in the FAT.
use free_dos.Common.{
  ℕ, zero, suc, ◌+◌, ◌≤◌, ◌<◌, ◌≡◌, refl, ◌≢◌, List, [], ◌∷◌, ◌++◌, some, length, get_elem?, drop,
  ◌∙◌, ap, sym, subst, arith,
}
use free_dos.Fat.{fat_eoc}

-- The clusters behind `x` are those of the list, and the last one is marked FAT_EOC. `dc` is the
-- number of data clusters.
abbrev pub Linked : ℕ → (ℕ → ℕ) → ℕ → List ℕ → Type 0
Linked dc fat x [] = fat x ≡ fat_eoc
Linked dc fat x (y ∷ ys) = (fat x ≡ y) × (2 ≤ y) × (y ≤ dc + 1) × Linked dc fat y ys

abbrev pub All : (ℕ → Type 0) → List ℕ → Type 0
All P [] = Unit {0}
All P (x ∷ xs) = P x × All P xs

-- A chain goes on from each of its clusters.
pub Linked-drop :
    (dc : ℕ) (fat : ℕ → ℕ) (x : ℕ) (xs : List ℕ) (i y : ℕ)
    → Linked dc fat x xs
    → get_elem? (x ∷ xs) i ≡ some y
    → Linked dc fat y (drop i xs)
Linked-drop dc fat x xs zero y l e = ground arith
Linked-drop dc fat x [] (suc i) y l e = cc
Linked-drop dc fat x (z ∷ xs) (suc i) y l e = Linked-drop dc fat z xs i y l.3 e

pub get_elem?-drop :
    (x : ℕ) (xs : List ℕ) (i j y : ℕ)
    → get_elem? (x ∷ xs) i ≡ some y
    → get_elem? (y ∷ drop i xs) j ≡ get_elem? (x ∷ xs) (i + j)
get_elem?-drop x xs zero j y e = let e' : x ≡ y = ground arith in rw (← e') (ground arith)
get_elem?-drop x [] (suc i) j y e = cc
get_elem?-drop x (z ∷ xs) (suc i) j y e = get_elem?-drop z xs i j y e ∙ ground arith

-- The clusters of a chain lie in the volume.
pub get_elem?-Linked :
    (dc : ℕ) (fat : ℕ → ℕ) (x : ℕ) (xs : List ℕ) (i y : ℕ)
    → Linked dc fat x xs
    → 2 ≤ x
    → x ≤ dc + 1
    → get_elem? (x ∷ xs) i ≡ some y
    → (2 ≤ y) × (y ≤ dc + 1)
get_elem?-Linked dc fat x xs zero y l a b e = ground arith
get_elem?-Linked dc fat x [] (suc i) y l a b e = cc
get_elem?-Linked dc fat x (z ∷ xs) (suc i) y l a b e =
    get_elem?-Linked dc fat z xs i y l.3 l.1 l.2 e

-- Only the entries of the chain matter.
pub Linked-same :
    (dc : ℕ) (fat fat' : ℕ → ℕ) (x : ℕ) (xs : List ℕ)
    → ((m : ℕ) → fat' m ≡ fat m)
    → Linked dc fat x xs
    → Linked dc fat' x xs
Linked-same dc fat fat' x [] same l = same x ∙ l
Linked-same dc fat fat' x (y ∷ ys) same l =
    (same x ∙ l.0, l.1, l.2, Linked-same dc fat fat' y ys same l.3)

-- Entries of other clusters do not matter.
pub Linked-except :
    (dc : ℕ) (fat fat' : ℕ → ℕ) (n x : ℕ) (xs : List ℕ)
    → ((m : ℕ) → m ≢ n → fat' m ≡ fat m)
    → All (λ y. y ≢ n) (x ∷ xs)
    → Linked dc fat x xs
    → Linked dc fat' x xs
Linked-except dc fat fat' n x [] same d l = same x (d.0) ∙ l
Linked-except dc fat fat' n x (y ∷ ys) same d l =
    (same x (d.0) ∙ l.0, l.1, l.2, Linked-except dc fat fat' n y ys same (d.1) l.3)

-- The FAT determines the chain.
Linked-unique :
    (dc : ℕ) (fat : ℕ → ℕ) (x : ℕ) (xs ys : List ℕ)
    → dc + 1 < fat_eoc
    → Linked dc fat x xs
    → Linked dc fat x ys
    → length xs ≡ length ys
Linked-unique dc fat x [] [] few l k = refl
Linked-unique dc fat x [] (y ∷ ys) few l k = let (a, b, c, d) = k in omega (arith, l)
Linked-unique dc fat x (y ∷ ys) [] few l k = let (a, b, c, d) = l in omega (arith, k)
Linked-unique dc fat x (y ∷ ys) (z ∷ zs) few l k =
    let (a, b, c, d) = l in
    let (e, f, g, h) = k in
    let same : z ≡ y = omega (arith, a, e) in
    ap suc (Linked-unique dc fat y ys zs few d (subst (λ t. Linked dc fat t zs) same h))

Linked-ne :
    (dc : ℕ) (fat : ℕ → ℕ) (x : ℕ) (xs : List ℕ) (z : ℕ) (zs : List ℕ)
    → dc + 1 < fat_eoc
    → Linked dc fat x xs
    → Linked dc fat z zs
    → length zs < length xs
    → z ≢ x
Linked-ne dc fat x xs z zs few l k s e =
    let same = Linked-unique dc fat x xs zs few l (subst (λ t. Linked dc fat t zs) e k) in
    omega (arith, same, s)

Linked-apart :
    (dc : ℕ) (fat : ℕ → ℕ) (x : ℕ) (xs : List ℕ) (z : ℕ) (zs : List ℕ)
    → dc + 1 < fat_eoc
    → Linked dc fat x xs
    → Linked dc fat z zs
    → length zs < length xs
    → All (λ y. y ≢ x) (z ∷ zs)
Linked-apart dc fat x xs z [] few l k s = (Linked-ne dc fat x xs z [] few l k s, tt)
Linked-apart dc fat x xs z (u ∷ us) few l k s = (
  Linked-ne dc fat x xs z (u ∷ us) few l k s,
  Linked-apart dc fat x xs u us few l k.3 (omega arith),
)

-- The first cluster of a chain does not come again.
pub Linked-first :
    (dc : ℕ) (fat : ℕ → ℕ) (x : ℕ) (xs : List ℕ)
    → dc + 1 < fat_eoc
    → Linked dc fat x xs
    → All (λ y. y ≢ x) xs
Linked-first dc fat x [] few l = tt
Linked-first dc fat x (y ∷ ys) few l = Linked-apart dc fat x (y ∷ ys) y ys few l l.3 (omega arith)

abbrev pub last : ℕ → List ℕ → ℕ
last x [] = x
last x (y ∷ ys) = last y ys

pub get_elem?-last : (x : ℕ) (xs : List ℕ) → get_elem? (x ∷ xs) (length xs) ≡ some (last x xs)
get_elem?-last x [] = refl
get_elem?-last x (y ∷ ys) = get_elem?-last y ys

pub All-last : (P : ℕ → Type 0) (x : ℕ) (xs : List ℕ) → All P (x ∷ xs) → P (last x xs)
All-last P x [] h = h.0
All-last P x (y ∷ ys) h = All-last P y ys (h.1)

-- A cluster that is free is not in the chain.
pub Linked-used :
    (dc : ℕ) (fat : ℕ → ℕ) (n x : ℕ) (xs : List ℕ)
    → fat n ≡ 0
    → Linked dc fat x xs
    → All (λ y. y ≢ n) (x ∷ xs)
Linked-used dc fat n x [] z l = (λ e. let h = ap fat e in omega (arith, h), tt)
Linked-used dc fat n x (y ∷ ys) z l =
    (λ e. let h = ap fat e in omega (arith, h, l.0, l.1), Linked-used dc fat n y ys z l.3)

-- A chain whose last cluster is linked to a new one.
pub Linked-append :
    (dc : ℕ) (fat fat' : ℕ → ℕ) (n x : ℕ) (xs : List ℕ)
    → dc + 1 < fat_eoc
    → 2 ≤ n
    → n ≤ dc + 1
    → ((m : ℕ) → m ≢ n → m ≢ last x xs → fat' m ≡ fat m)
    → fat' n ≡ fat_eoc
    → fat' (last x xs) ≡ n
    → All (λ y. y ≢ n) (x ∷ xs)
    → Linked dc fat x xs
    → Linked dc fat' x (xs ++ (n ∷ []))
Linked-append dc fat fat' n x [] few a b same end link apart l = (link, a, b, end)
Linked-append dc fat fat' n x (y ∷ ys) few a b same end link apart l =
    let later = All-last (λ z. z ≢ x) y ys (Linked-first dc fat x (y ∷ ys) few l) in
    (
      same x (apart.0) (λ e. later (sym e)) ∙ l.0,
      l.1,
      l.2,
      Linked-append dc fat fat' n y ys few a b same end link (apart.1) l.3,
    )
