-- ===== src/Truename/Text.antt =====
-- The text of a canonical path of fd32/filesys/truename.c, and the buffer.
use free_dos.Common.{
  ℕ, ◌≡◌, refl, sym, ap, ◌∙◌, inl, inr, Bool, true, false, some, if◌then◌else◌, List, [], ◌∷◌, ◌++◌,
  ◌⊎◌,
}
use free_dos.Truename.{
  colon, backslash, is_slash, push_bytes, is_empty, ends_in, with_slash, finish, at_colon,
}
use free_dos.Truename.Components.{
  components, components-slash, components-Plain, components-last, components-nil, Plain, NoColon,
  Names, is_dots, walk, aux_of, slash_text, path_text,
}
use free_dos.Truename.Buffer.{plain_lem}

append_nil : (xs : List ℕ) → xs ++ [] ≡ xs
append_nil [] = refl
append_nil (x ∷ xs) = ap (λ r. x ∷ r) (append_nil xs)

append_assoc : (xs ys zs : List ℕ) → (xs ++ ys) ++ zs ≡ xs ++ (ys ++ zs)
append_assoc [] ys zs = refl
append_assoc (x ∷ xs) ys zs = ap (λ r. x ∷ r) (append_assoc xs ys zs)

push_bytes-append :
    (xs ys aux : List ℕ) → push_bytes (xs ++ ys) aux ≡ push_bytes ys (push_bytes xs aux)
push_bytes-append [] ys aux = refl
push_bytes-append (x ∷ xs) ys aux = push_bytes-append xs ys (x ∷ aux)

push_bytes-push_bytes :
    (xs aux out : List ℕ) → push_bytes (push_bytes xs aux) out ≡ push_bytes aux (xs ++ out)
push_bytes-push_bytes [] aux out = refl
push_bytes-push_bytes (x ∷ xs) aux out = push_bytes-push_bytes xs (x ∷ aux) out

pub slash_text-aux_of :
    (root : List ℕ) (st : List (List ℕ)) → push_bytes (slash_text st) root ≡ aux_of root st
slash_text-aux_of root [] = refl
slash_text-aux_of root (p ∷ st) =
    push_bytes-append (slash_text st) (p ++ (backslash ∷ [])) root
    ∙ push_bytes-append p (backslash ∷ []) (push_bytes (slash_text st) root)
    ∙ ap (λ a. backslash ∷ push_bytes p a) (slash_text-aux_of root st)

path_text-aux_of :
    (root p : List ℕ) (st : List (List ℕ))
    → push_bytes (path_text (p ∷ st)) root ≡ push_bytes p (aux_of root st)
path_text-aux_of root p st =
    push_bytes-append (slash_text st) p root ∙ ap (λ a. push_bytes p a) (slash_text-aux_of root st)

-- The last byte of a name is no slash and no colon.
ends-Plain :
    (p : List ℕ) (x : ℕ) (aux : List ℕ)
    → Plain (x ∷ p)
    → (ends_in colon (push_bytes p (x ∷ aux)) ≡ false)
      × (ends_in backslash (push_bytes p (x ∷ aux)) ≡ false)
ends-Plain [] x aux (h, hs) = let (a, b, c) = plain_lem x h in (c, a)
ends-Plain (y ∷ ys) x aux (h, hs) = ends-Plain ys y (x ∷ aux) hs

ends_name :
    (p aux : List ℕ)
    → is_empty p ≡ false
    → Plain p
    → (ends_in colon (push_bytes p aux) ≡ false) × (ends_in backslash (push_bytes p aux) ≡ false)
ends_name [] aux e h = cc
ends_name (x ∷ xs) aux e h = ends-Plain xs x aux h

-- A slash is put behind a directory that has none.
pub with_slash_lem :
    (root dir : List ℕ) (st : List (List ℕ))
    → Names st
    → (dir ≡ path_text st) ⊎ (dir ≡ slash_text st)
    → with_slash (push_bytes dir root) ≡ aux_of root st
with_slash_lem root dir [] h (inl e) = rw e refl
with_slash_lem root dir [] h (inr e) = rw e refl
with_slash_lem root dir (p ∷ st) (x, y, h) (inl e) =
    let (a, b) = ends_name p (aux_of root st) x y in
    ap (λ t. with_slash (push_bytes t root)) e
    ∙ ap with_slash (path_text-aux_of root p st)
    ∙ ap (λ t. if t then push_bytes p (aux_of root st) else aux_of root (p ∷ st)) b
with_slash_lem root dir (p ∷ st) (x, y, h) (inr e) =
    ap (λ t. with_slash (push_bytes t root)) e ∙ ap with_slash (slash_text-aux_of root (p ∷ st))

-- What is returned, for the directories in the buffer behind a drive.
pub finish_lem :
    (drive : List ℕ) (st : List (List ℕ))
    → Names st
    → finish (aux_of (colon ∷ push_bytes drive []) st) ≡ drive ++ (colon ∷ path_text st)
unfolding finish
finish_lem drive [] h = push_bytes-push_bytes drive [] (colon ∷ (backslash ∷ []))
finish_lem drive (p ∷ st) (x, y, h) =
    let root = colon ∷ push_bytes drive [] in
    let (a, b) = ends_name p (aux_of root st) x y in
    rw a (
      ap (λ q. push_bytes q []) (sym (path_text-aux_of root p st))
      ∙ push_bytes-push_bytes (path_text (p ∷ st)) root []
      ∙ ap (λ q. push_bytes root q) (append_nil (path_text (p ∷ st)))
      ∙ push_bytes-push_bytes drive [] (colon ∷ path_text (p ∷ st)))

-- A path is read back as its directories.
abbrev pub rev_on : List (List ℕ) → List (List ℕ) → List (List ℕ)
rev_on [] rest = rest
rev_on (p ∷ st) rest = rev_on st (p ∷ rest)

components-slash_text :
    (st : List (List ℕ)) (tail : List ℕ)
    → Names st
    → components (slash_text st ++ tail) ≡ rev_on st (components tail)
components-slash_text [] tail h = components-slash backslash tail refl
components-slash_text (p ∷ st) tail (x, y, h) =
    ap components (
      append_assoc (slash_text st) (p ++ (backslash ∷ [])) tail
      ∙ ap (λ r. slash_text st ++ r) (append_assoc p (backslash ∷ []) tail))
    ∙ components-slash_text st (p ++ (backslash ∷ tail)) h
    ∙ ap (rev_on st) (components-Plain p tail y x)

pub components-path_text :
    (st : List (List ℕ)) → Names st → components (path_text st) ≡ rev_on st []
components-path_text [] h = components-slash backslash [] refl ∙ components-nil
components-path_text (p ∷ st) (x, y, h) =
    components-slash_text st p h ∙ ap (rev_on st) (components-last p y x)

-- No name consists of dots.
abbrev pub NoDots : List (List ℕ) → Type 0
NoDots [] = Unit
NoDots (p ∷ st) = (is_dots p ≡ false) × NoDots st

pub walk-rev_on :
    (collapse : Bool) (st rest : List (List ℕ))
    → NoDots st
    → walk collapse [] (rev_on st rest) ≡ walk collapse st rest
walk-rev_on collapse [] rest h = refl
walk-rev_on true (p ∷ st) rest (e, h) = walk-rev_on true st (p ∷ rest) h ∙ rw (walk, e) refl
walk-rev_on false (p ∷ st) rest (e, h) = walk-rev_on false st (p ∷ rest) h ∙ rw (walk, e) refl

NoColon-append : (xs ys : List ℕ) → NoColon xs → NoColon ys → NoColon (xs ++ ys)
NoColon-append [] ys h k = k
NoColon-append (x ∷ xs) ys (h, hs) k = (h, NoColon-append xs ys hs k)

Plain-NoColon : (p : List ℕ) → Plain p → NoColon p
Plain-NoColon [] h = tt
Plain-NoColon (c ∷ cs) (h, hs) = let (a, b, e) = plain_lem c h in (e, Plain-NoColon cs hs)

slash_text-NoColon : (st : List (List ℕ)) → Names st → NoColon (slash_text st)
slash_text-NoColon [] h = (refl, tt)
slash_text-NoColon (p ∷ st) (x, y, h) =
    NoColon-append (slash_text st) (p ++ (backslash ∷ [])) (slash_text-NoColon st h)
      (NoColon-append p (backslash ∷ []) (Plain-NoColon p y) (refl, tt))

pub path_text-NoColon : (st : List (List ℕ)) → Names st → NoColon (path_text st)
path_text-NoColon [] h = (refl, tt)
path_text-NoColon (p ∷ st) (x, y, h) =
    NoColon-append (slash_text st) p (slash_text-NoColon st h) (Plain-NoColon p y)

abbrev pub is_absolute : List ℕ → Bool
is_absolute [] = false
is_absolute (c ∷ cs) = is_slash c

slash_text-is_absolute :
    (st : List (List ℕ)) (tail : List ℕ) → is_absolute (slash_text st ++ tail) ≡ true
slash_text-is_absolute [] tail = refl
slash_text-is_absolute (p ∷ st) tail =
    ap is_absolute (append_assoc (slash_text st) (p ++ (backslash ∷ [])) tail)
    ∙ slash_text-is_absolute st ((p ++ (backslash ∷ [])) ++ tail)

pub path_text-is_absolute : (st : List (List ℕ)) → is_absolute (path_text st) ≡ true
path_text-is_absolute [] = refl
path_text-is_absolute (p ∷ st) = slash_text-is_absolute st p

pub at_colon-drive :
    (drive path : List ℕ) → NoColon drive → at_colon (drive ++ (colon ∷ path)) ≡ some (drive, path)
unfolding at_colon
at_colon-drive [] path h = refl
at_colon-drive (c ∷ cs) path (h, hs) = rw (h, at_colon-drive cs path hs) refl
