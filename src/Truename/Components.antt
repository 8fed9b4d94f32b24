-- ===== src/Truename/Components.antt =====
-- Paths as lists of components, and the buffer of fd32/filesys/truename.c that holds such a list.
use free_dos.Common.{
  ℕ, zero, suc, ◌-◌, ◌≤◌, ◌≡◌, refl, sym, ap, ◌∙◌, inl, inr, Bool, true, false, Option, none, some,
  ◌==◌, if◌then◌else◌, List, [], ◌∷◌, ◌++◌, length, arith, Bool-cases, true≢false,
}
use free_dos.Truename.{colon, backslash, dot, is_slash, push_bytes, is_empty, next_component}

-- No byte is a slash, or a colon.
abbrev pub is_plain : ℕ → Bool
is_plain c = if is_slash c then false else if c == colon then false else true

abbrev pub Plain : List ℕ → Type 0
Plain [] = Unit
Plain (c ∷ cs) = (is_plain c ≡ true) × Plain cs

plain_slash : (c : ℕ) → is_plain c ≡ true → is_slash c ≡ false
plain_slash c h = elim (Bool-cases (is_slash c)) [
  | inr e ↦ e
  | inl e ↦
      absurd
        (true≢false (sym h ∙ ap (λ b. if b then false else if c == colon then false else true) e))
]

abbrev pub keep : List ℕ → List (List ℕ) → List (List ℕ)
keep p rest = if is_empty p then rest else p ∷ rest

-- What stands in front of the first slash of a path, and the components behind it.
pub pieces : List ℕ → List ℕ × List (List ℕ)
pieces [] = ([], [])
pieces (c ∷ cs) =
    let (p, rest) = pieces cs in if is_slash c then ([], keep p rest) else (c ∷ p, rest)

-- The components of a path, in order: what stands between slashes, where that is not empty.
pub components : List ℕ → List (List ℕ)
unfolding pieces
components path = keep (pieces path).0 (pieces path).1

pub pieces-next_component :
    (path : List ℕ) → pieces path ≡ ((next_component path).0, components ((next_component path).1))
unfolding pieces components next_component
pieces-next_component [] = refl
pieces-next_component (c ∷ cs) = elim (Bool-cases (is_slash c)) [
  | inl e ↦ rw (e, pieces, next_component) refl
  | inr e ↦ rw (e, pieces, next_component) (ap (λ r. (c ∷ r.0, r.1)) (pieces-next_component cs))
]

pieces-Plain : (p tail : List ℕ) → Plain p → pieces (p ++ (backslash ∷ tail)) ≡ (p, components tail)
unfolding pieces components
pieces-Plain [] tail h = refl
pieces-Plain (c ∷ cs) tail (h, hs) =
    rw (plain_slash c h, pieces) (ap (λ r. (c ∷ r.0, r.1)) (pieces-Plain cs tail hs))

pieces-last : (p : List ℕ) → Plain p → pieces p ≡ (p, [])
unfolding pieces
pieces-last [] h = refl
pieces-last (c ∷ cs) (h, hs) =
    rw (plain_slash c h, pieces) (ap (λ r. (c ∷ r.0, r.1)) (pieces-last cs hs))

pub components-nil : components [] ≡ []
unfolding components pieces
components-nil = refl

pub components-slash :
    (c : ℕ) (cs : List ℕ) → is_slash c ≡ true → components (c ∷ cs) ≡ components cs
unfolding components pieces
components-slash c cs e = rw (e, pieces) refl

pub components-Plain :
    (p tail : List ℕ)
    → Plain p
    → is_empty p ≡ false
    → components (p ++ (backslash ∷ tail)) ≡ p ∷ components tail
unfolding components
components-Plain p tail h e =
    ap (λ r. keep r.0 r.1) (pieces-Plain p tail h)
    ∙ ap (λ b. if b then components tail else p ∷ components tail) e

pub components-last : (p : List ℕ) → Plain p → is_empty p ≡ false → components p ≡ p ∷ []
unfolding components
components-last p h e =
    ap (λ r. keep r.0 r.1) (pieces-last p h) ∙ ap (λ b. if b then [] else p ∷ []) e

pub components-next_component :
    (path : List ℕ)
    → components path ≡ keep (next_component path).0 (components ((next_component path).1))
unfolding components
components-next_component path = ap (λ r. keep r.0 r.1) (pieces-next_component path)

pub length-next_component : (c : ℕ) (cs : List ℕ) → length ((next_component (c ∷ cs)).1) ≤ length cs
unfolding next_component
length-next_component c [] = ground arith
length-next_component c (x ∷ cs) = ground (arith, length-next_component x cs)

abbrev pub NoColon : List ℕ → Type 0
NoColon [] = Unit
NoColon (c ∷ cs) = ((c == colon) ≡ false) × NoColon cs

-- Directories that can stand in a path: each has a byte, and no slash or colon.
abbrev pub Names : List (List ℕ) → Type 0
Names [] = Unit
Names (p ∷ ps) = (is_empty p ≡ false) × Plain p × Names ps

plain_byte : (c : ℕ) → is_slash c ≡ false → (c == colon) ≡ false → is_plain c ≡ true
plain_byte c e h =
    ap (λ b. if b then false else if c == colon then false else true) e
    ∙ ap (λ b. if b then false else true) h

pub next_component-Plain :
    (path : List ℕ)
    → NoColon path
    → Plain ((next_component path).0) × NoColon ((next_component path).1)
unfolding next_component
next_component-Plain [] h = (tt, tt)
next_component-Plain (c ∷ cs) (h, hs) = elim (Bool-cases (is_slash c)) [
  | inl e ↦ rw (e, next_component) (tt, hs)
  | inr e ↦
      let (p, q) = next_component-Plain cs hs in rw (e, next_component) ((plain_byte c e h, p), q)
]

-- The directory that is `n` above the one of the list, which has the innermost first.
abbrev pub up : ℕ → List (List ℕ) → Option (List (List ℕ))
up zero st = some st
up (suc n) [] = none
up (suc n) (p ∷ st) = up n st

abbrev pub is_dots : List ℕ → Bool
is_dots [] = true
is_dots (c ∷ cs) = if c == dot then is_dots cs else false

abbrev pub dot_dot : List ℕ
dot_dot = dot ∷ (dot ∷ [])

abbrev pub dots_up : ℕ → List (List ℕ) → List (List ℕ)
dots_up zero st = st
dots_up (suc n) st = dots_up n (dot_dot ∷ st)

-- A component of n + 1 dots goes n directories up, or stands for n times "..", as `collapse` says.
abbrev pub visit : Bool → List ℕ → List (List ℕ) → Option (List (List ℕ))
visit true p st = if is_dots p then up (length p - 1) st else some (p ∷ st)
visit false p st = if is_dots p then some (dots_up (length p - 1) st) else some (p ∷ st)

abbrev pub walk : Bool → List (List ℕ) → List (List ℕ) → Option (List (List ℕ))
walk collapse st [] = some st
walk collapse st (p ∷ ps) = elim (visit collapse p st) [
  | none ↦ none
  | some st' ↦ walk collapse st' ps
]

-- The path of a list of directories, with a slash at the end and without.
abbrev pub slash_text : List (List ℕ) → List ℕ
slash_text [] = backslash ∷ []
slash_text (p ∷ st) = slash_text st ++ (p ++ (backslash ∷ []))

abbrev pub path_text : List (List ℕ) → List ℕ
path_text [] = backslash ∷ []
path_text (p ∷ st) = slash_text st ++ p

-- The buffer that holds it behind the root.
abbrev pub aux_of : List ℕ → List (List ℕ) → List ℕ
aux_of root [] = backslash ∷ root
aux_of root (p ∷ st) = backslash ∷ push_bytes p (aux_of root st)

keep-Names : (p : List ℕ) (rest : List (List ℕ)) → Plain p → Names rest → Names (keep p rest)
keep-Names [] rest h k = k
keep-Names (c ∷ cs) rest h k = (refl, h, k)

pieces-Names : (path : List ℕ) → NoColon path → Plain ((pieces path).0) × Names ((pieces path).1)
unfolding pieces
pieces-Names [] h = (tt, tt)
pieces-Names (c ∷ cs) (h, hs) =
    let (p, ps) = pieces-Names cs hs in
    elim (Bool-cases (is_slash c)) [
      | inl e ↦ rw (e, pieces) (tt, keep-Names (pieces cs).0 (pieces cs).1 p ps)
      | inr e ↦ rw (e, pieces) ((plain_byte c e h, p), ps)
    ]

pub components-Names : (path : List ℕ) → NoColon path → Names (components path)
unfolding components
components-Names path h =
    let (p, ps) = pieces-Names path h in keep-Names (pieces path).0 (pieces path).1 p ps
