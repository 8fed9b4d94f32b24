-- ===== src/Devices/Order.antt =====
-- The devices in the array of fd32/devices/devices.c, from the one registered last to the first.
use free_dos.Common.{
  ℕ, zero, suc, ◌≤◌, ◌<◌, ◌≡◌, ◌≢◌, refl, sym, ap, subst, ◌∙◌, ◌⊎◌, inl, inr, List, [], ◌∷◌, none,
  some, length, arith, true, false, ◌==◌, if◌then◌else◌, Bool-cases, true≢false, ltb, lt→ltb,
}
use free_dos.Common.Errno.{Res, ok, err, enodev}
use free_dos.Devices.{Link, Device, Registry, device, is_valid, search_from, fd32_dev_search}
use free_dos.Devices.Chain.{
  Mem, Distinct, remove, Seg, is_used, Seg-used, Distinct-remove, Mem-remove,
}

-- `xs` are the handles of the registered devices, the last one first.
pub record Represents {R : Type 0} (reg : Registry R) (xs : List ℕ) : Type 0 where
  pub size : length reg.devices ≡ reg.dev_size
  pub chain : Seg reg.devices none reg.dev_last reg.dev_first xs
  pub distinct : Distinct xs
  pub listed : (k : ℕ) → is_used reg.devices k ≡ true → Mem k xs

pub is_used-lt :
    {R : Type 0} (devices : List (Device R)) (k : ℕ) → is_used devices k ≡ true → k < length devices
is_used-lt [] k e = cc
is_used-lt (d ∷ rest) zero e = omega arith
is_used-lt (d ∷ rest) (suc k) e = omega (arith, is_used-lt rest k e)

module _ {R : Type 0} (reg : Registry R) (xs : List ℕ) (r : Represents reg xs) where
  pub Mem-lt : (k : ℕ) → Mem k xs → k < length reg.devices
  Mem-lt k m =
      is_used-lt reg.devices k (Seg-used reg.devices none reg.dev_last reg.dev_first xs k r.chain m)

  pub is_valid-Mem : (k : ℕ) → is_valid k reg ≡ true → Mem k xs
  is_valid-Mem k e = elim (Bool-cases (ltb k reg.dev_size)) [
    | inl l ↦ r.listed k (subst (λ b. (if b then is_used reg.devices k else false) ≡ true) l e)
    | inr l ↦ absurd (true≢false (sym e ∙ ap (λ b. if b then is_used reg.devices k else false) l))
  ]

  pub Mem-is_valid : (k : ℕ) → Mem k xs → is_valid k reg ≡ true
  Mem-is_valid k m =
      ap (λ b. if b then is_used reg.devices k else false)
        (lt→ltb k reg.dev_size (subst (λ n. k < n) r.size (Mem-lt k m)))
      ∙ Seg-used reg.devices none reg.dev_last reg.dev_first xs k r.chain m

-- Distinct handles below `n` are at most `n`.
below_remove :
    (n : ℕ) (xs : List ℕ)
    → Distinct xs
    → ((k : ℕ) → Mem k xs → k < suc n)
    → (k : ℕ) → Mem k (remove n xs)
    → k < n
below_remove n xs d h k m =
    let (e, f) = Distinct-remove n xs d in
    let other : k ≢ n = λ q. f (subst (λ y. Mem y (remove n xs)) q m) in
    omega (arith, h k (Mem-remove k n xs m), other)

length-remove : (n : ℕ) (xs : List ℕ) → length xs ≤ suc (length (remove n xs))
length-remove n [] = omega arith
length-remove n (x ∷ xs) = ground (arith, length-remove n xs)

pub length-Distinct :
    (n : ℕ) (xs : List ℕ) → Distinct xs → ((k : ℕ) → Mem k xs → k < n) → length xs ≤ n
length-Distinct zero [] d h = omega arith
length-Distinct zero (x ∷ xs) d h = absurd (omega (arith, h x (inl refl)))
length-Distinct (suc n) xs d h = omega (
  arith,
  length-remove n xs,
  length-Distinct n (remove n xs) ((Distinct-remove n xs d).0) (below_remove n xs d h),
)

-- The newest device in the list of the name.
pub find_name : {R : Type 0} → (List ℕ → List ℕ → ℕ) → List ℕ → List (Device R) → List ℕ → Res ℕ
find_name strcasecmp name devices [] = err enodev
find_name strcasecmp name devices (x ∷ xs) =
    let rest = find_name strcasecmp name devices xs in
    if strcasecmp ((device devices x).name) name == 0 then ok x else rest

module _ {R : Type 0} (strcasecmp : List ℕ → List ℕ → ℕ) (name : List ℕ) where
  pub find_name-cases :
      (devices : List (Device R)) (xs : List ℕ)
      → ((x : ℕ) × (find_name strcasecmp name devices xs ≡ ok x))
        ⊎ (find_name strcasecmp name devices xs ≡ err enodev)
  unfolding find_name
  find_name-cases devices [] = inr refl
  find_name-cases devices (x ∷ xs) =
      elim (Bool-cases (strcasecmp ((device devices x).name) name == 0)) [
        | inl t ↦ rw t (inl (x, refl))
        | inr t ↦ rw t (find_name-cases devices xs)
      ]

  search_from_lem :
      (fuel : ℕ) (devices : List (Device R)) (n l f : Link) (xs : List ℕ)
      → length xs < fuel
      → Seg devices n l f xs
      → search_from strcasecmp fuel name devices l ≡ some (find_name strcasecmp name devices xs)
  unfolding search_from find_name
  search_from_lem zero devices n l f xs h s = absurd (omega arith)
  search_from_lem (suc fuel) devices n none f [] h s = refl
  search_from_lem (suc fuel) devices n (some k) f [] h (e, s) = cc
  search_from_lem (suc fuel) devices n none f (x ∷ xs) h (e, u, v, s) = cc
  search_from_lem (suc fuel) devices n (some k) f (x ∷ xs) h (e, u, v, s) =
      let same : k ≡ x = cc in
      let rest =
        search_from_lem fuel devices (some x) ((device devices x).prev) f xs (omega arith) s in
      rw same (elim (Bool-cases (strcasecmp ((device devices x).name) name == 0)) [
        | inl t ↦ rw t refl
        | inr t ↦ rw (t, rest) refl
      ])

  -- For a registry of the devices `xs`, the last one first, fd32_dev_search ends within one round more
  -- than the array has entries, and returns the first of `xs` whose name strcasecmp finds equal to the
  -- one that is searched, -ENODEV where there is none.
  pub fd32_dev_search_lem :
      (reg : Registry R) (xs : List ℕ)
      → Represents reg xs
      → fd32_dev_search strcasecmp name reg ≡ some (find_name strcasecmp name reg.devices xs)
  unfolding fd32_dev_search
  fd32_dev_search_lem reg xs r =
      search_from_lem (suc reg.dev_size) reg.devices none reg.dev_last reg.dev_first xs
        (omega
          (arith, r.size, length-Distinct (length reg.devices) xs r.distinct (Mem-lt reg xs r)))
        r.chain
