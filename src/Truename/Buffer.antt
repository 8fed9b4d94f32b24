-- ===== src/Truename/Buffer.antt =====
-- The buffer of fd32_truename holds the directories that the components lead to.
use free_dos.Common.{
  ℕ, zero, suc, ◌+◌, ◌-◌, ◌<◌, ◌≡◌, refl, sym, ap, subst, ◌∙◌, inl, inr, Bool, true, false, Option,
  none, some, ltb, ◌==◌, if◌then◌else◌, List, [], ◌∷◌, length, arith, Bool-cases, Option-cases,
}
use free_dos.Common.Errno.{Res, ok, err, enotdir}
use free_dos.Truename.{
  colon, backslash, slash, dot, push_bytes, push_dots, is_empty, next_component, count_dots, rewind,
  add_component, canonicalize, or_enotdir,
}
use free_dos.Truename.Components.{
  components, components-nil, components-next_component, length-next_component, Plain, NoColon,
  Names, is_plain, next_component-Plain, up, is_dots, dot_dot, dots_up, visit, walk, aux_of,
}

pub plain_lem :
    (c : ℕ)
    → is_plain c ≡ true
    → ((c == backslash) ≡ false) × ((c == slash) ≡ false) × ((c == colon) ≡ false)
plain_lem c h = ground arith

length-push_bytes : (xs aux : List ℕ) → length (push_bytes xs aux) ≡ length xs + length aux
length-push_bytes [] aux = omega arith
length-push_bytes (x ∷ xs) aux = omega (arith, length-push_bytes xs (x ∷ aux))

length-aux_of : (root : List ℕ) (st : List (List ℕ)) → length root < length (aux_of root st)
length-aux_of root [] = omega arith
length-aux_of root (p ∷ st) =
    omega (arith, length-aux_of root st, length-push_bytes p (aux_of root st))

rewind_bytes :
    (root dots : ℕ) (p aux : List ℕ)
    → Plain p
    → root < length aux
    → rewind root (suc dots) (push_bytes p aux) ≡ rewind root (suc dots) aux
unfolding rewind
rewind_bytes root dots [] aux h l = refl
rewind_bytes root dots (x ∷ xs) aux (h, hs) l =
    let (a, b, c) = plain_lem x h in
    let far : (length aux == root) ≡ false = ground arith in
    let some_left : (suc dots == 0) ≡ false = ground arith in
    rewind_bytes root dots xs (x ∷ aux) hs (omega arith) ∙ rw (a, far, some_left) refl

module _ (root : List ℕ) where
  abbrev pub aux_result : Option (List (List ℕ)) → Option (List ℕ)
  aux_result none = none
  aux_result (some st) = some (aux_of root st)

  pub rewind-aux_of :
      (n : ℕ) (st : List (List ℕ))
      → Names st
      → rewind (length root) (suc n) (aux_of root st) ≡ aux_result (up n st)
  unfolding rewind
  rewind-aux_of zero [] h = refl
  rewind-aux_of zero (p ∷ st) h = refl
  rewind-aux_of (suc n) [] h =
      let same : (length root == length root) ≡ true = ground arith in
      let left : suc (suc n) - 1 ≡ suc n = omega arith in
      let some_left : (suc n == 0) ≡ false = ground arith in rw (left, same, some_left) refl
  rewind-aux_of (suc n) (p ∷ st) (e, h, hs) =
      let long = length-aux_of root st in
      let far : (length (push_bytes p (aux_of root st)) == length root) ≡ false =
        ground (arith, length-push_bytes p (aux_of root st)) in
      let left : suc (suc n) - 1 ≡ suc n = omega arith in
      let some_left : (suc n == 0) ≡ false = ground arith in
      rw (left, far, some_left)
        (rewind_bytes (length root) n p (aux_of root st) h long ∙ rewind-aux_of n st hs)

count_dots_lem : (n : ℕ) (p : List ℕ) → count_dots n p ≡ (if is_dots p then n + length p else 0)
unfolding count_dots
count_dots_lem n [] = omega arith
count_dots_lem n (c ∷ cs) = elim (Bool-cases (c == dot)) [
  | inl e ↦ rw (e, count_dots) (ground (arith, count_dots_lem (suc n) cs))
  | inr e ↦ rw (e, count_dots) refl
]

push_dots_lem :
    (root : List ℕ) (n : ℕ) (st : List (List ℕ))
    → push_dots n (aux_of root st) ≡ aux_of root (dots_up n st)
push_dots_lem root zero st = refl
push_dots_lem root (suc n) st = push_dots_lem root n (dot_dot ∷ st)

some_list : {x y : List (List ℕ)} → some x ≡ some y → x ≡ y
some_list e = cc

up-Names : (n : ℕ) (st st' : List (List ℕ)) → Names st → up n st ≡ some st' → Names st'
up-Names zero st st' h e = subst (λ t. Names t) (some_list e) h
up-Names (suc n) [] st' h e = cc
up-Names (suc n) (p ∷ st) st' (x, y, h) e = up-Names n st st' h e

dots_up-Names : (n : ℕ) (st : List (List ℕ)) → Names st → Names (dots_up n st)
dots_up-Names zero st h = h
dots_up-Names (suc n) st h = dots_up-Names n (dot_dot ∷ st) (refl, (refl, (refl, tt)), h)

pub visit-Names :
    (collapse : Bool) (p : List ℕ) (st st' : List (List ℕ))
    → is_empty p ≡ false
    → Plain p
    → Names st
    → visit collapse p st ≡ some st'
    → Names st'
visit-Names true p st st' x y h e = elim (Bool-cases (is_dots p)) [
  | inl d ↦
      up-Names (length p - 1) st st' h
        (ap (λ b. if b then up (length p - 1) st else some (p ∷ st)) (sym d) ∙ e)
  | inr d ↦
      subst (λ t. Names t)
        (some_list (ap (λ b. if b then up (length p - 1) st else some (p ∷ st)) (sym d) ∙ e))
        (x, y, h)
]
visit-Names false p st st' x y h e = elim (Bool-cases (is_dots p)) [
  | inl d ↦
      subst (λ t. Names t)
        (some_list
          (ap (λ b. if b then some (dots_up (length p - 1) st) else some (p ∷ st)) (sym d) ∙ e))
        (dots_up-Names (length p - 1) st h)
  | inr d ↦
      subst (λ t. Names t)
        (some_list
          (ap (λ b. if b then some (dots_up (length p - 1) st) else some (p ∷ st)) (sym d) ∙ e))
        (x, y, h)
]

-- A result of the loop: the directories in the buffer, or -ENOTDIR.
abbrev pub to_result : List ℕ → Option (List (List ℕ)) → Res (List ℕ)
to_result root none = err enotdir
to_result root (some st) = ok (aux_of root st)

rewound :
    (root : List ℕ) (n : ℕ) (st : List (List ℕ))
    → Names st
    → or_enotdir (rewind (length root) (suc n) (aux_of root st)) ≡ to_result root (up n st)
rewound root n st h = ap or_enotdir (rewind-aux_of root n st h) ∙ result (up n st)
  where
    result : (o : Option (List (List ℕ))) → or_enotdir (aux_result root o) ≡ to_result root o
    result none = refl
    result (some st) = refl

-- What is done for a component of `suc n` dots.
dots_lem :
    (collapse : Bool) (root : List ℕ) (n : ℕ) (st : List (List ℕ))
    → Names st
    → (if collapse
        then (if ltb 1 (suc n)
            then or_enotdir (rewind (length root) (suc n) (aux_of root st))
            else ok (aux_of root st))
        else ok (push_dots (suc n - 1) (aux_of root st)))
      ≡ to_result root (if collapse then up (suc n - 1) st else some (dots_up (suc n - 1) st))
dots_lem false root n st h = ap ok (push_dots_lem root (suc n - 1) st)
dots_lem true root zero st h = refl
dots_lem true root (suc n) st h =
    let more : ltb 1 (suc (suc n)) ≡ true = ground arith in
    let less : suc (suc n) - 1 ≡ suc n = omega arith in rw (more, less) (rewound root (suc n) st h)

visit_lem :
    (collapse : Bool) (p : List ℕ) (st : List (List ℕ))
    → visit collapse p st ≡ (
        if is_dots p
        then (if collapse then up (length p - 1) st else some (dots_up (length p - 1) st))
        else some (p ∷ st))
visit_lem true p st = refl
visit_lem false p st = refl

pub add_component_lem :
    (collapse : Bool) (root p : List ℕ) (st : List (List ℕ))
    → is_empty p ≡ false
    → Names st
    → add_component collapse (length root) p (aux_of root st) ≡ to_result root (visit collapse p st)
unfolding add_component
add_component_lem collapse root [] st e h = cc
add_component_lem collapse root (c ∷ cs) st e h =
    let n = length cs in
    let some_dots : (suc n == 0) ≡ false = ground arith in
    elim (Bool-cases (is_dots (c ∷ cs))) [
      | inr d ↦
          let dots : count_dots 0 (c ∷ cs) ≡ 0 =
            count_dots_lem 0 (c ∷ cs) ∙ ap (λ b. if b then 0 + suc n else 0) d in
          rw (dots, visit_lem collapse (c ∷ cs) st, d) refl
      | inl d ↦
          let dots : count_dots 0 (c ∷ cs) ≡ suc n =
            count_dots_lem 0 (c ∷ cs) ∙ ap (λ b. if b then 0 + suc n else 0) d ∙ omega arith in
          rw (dots, visit_lem collapse (c ∷ cs) st, d, some_dots) (dots_lem collapse root n st h)
    ]

add_component_empty :
    (collapse : Bool) (root : ℕ) (p aux : List ℕ)
    → is_empty p ≡ true
    → add_component collapse root p aux ≡ ok aux
unfolding add_component
add_component_empty collapse root p aux e = rw e refl

-- The loop, from a buffer that holds the directories `st`.
pub canonicalize_lem :
    (fuel : ℕ) (collapse : Bool) (root source : List ℕ) (st : List (List ℕ))
    → length source < fuel
    → NoColon source
    → Names st
    → canonicalize fuel collapse (length root) (aux_of root st) source
      ≡ some (to_result root (walk collapse st (components source)))
unfolding canonicalize
canonicalize_lem zero collapse root source st l k h = absurd (omega arith)
canonicalize_lem (suc fuel) collapse root [] st l k h = rw components-nil refl
canonicalize_lem (suc fuel) collapse root (c ∷ cs) st l k h =
    let p = (next_component (c ∷ cs)).0 in
    let rest = (next_component (c ∷ cs)).1 in
    let (plain, no_colon) = next_component-Plain (c ∷ cs) k in
    let shorter : length rest < fuel = omega (arith, length-next_component c cs) in
    let parts = components-next_component (c ∷ cs) in
    elim (Bool-cases (is_empty p)) [
      | inl e ↦
          let skipped : components (c ∷ cs) ≡ components rest =
            parts ∙ ap (λ b. if b then components rest else p ∷ components rest) e in
          rw (add_component_empty collapse (length root) p (aux_of root st) e, skipped)
            (canonicalize_lem fuel collapse root rest st shorter no_colon h)
      | inr e ↦
          let kept : components (c ∷ cs) ≡ p ∷ components rest =
            parts ∙ ap (λ b. if b then components rest else p ∷ components rest) e in
          elim (Option-cases (visit collapse p st)) [
            | inl v ↦ rw (add_component_lem collapse root p st e h, kept, walk, v) refl
            | inr (st', v) ↦
                rw (add_component_lem collapse root p st e h, kept, walk, v)
                  (canonicalize_lem fuel collapse root rest st' shorter no_colon
                    (visit-Names collapse p st st' e plain h v))
          ]
    ]
