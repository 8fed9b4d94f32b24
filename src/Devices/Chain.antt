-- ===== src/Devices/Chain.antt =====
-- The doubly linked list in the array of fd32/devices/devices.c, from the last device to the first.
use free_dos.Common.{
  ℕ, ◌≡◌, ◌≢◌, refl, sym, ap, subst, ◌∙◌, ◌⊎◌, inl, inr, List, [], ◌∷◌, none, some, arith, Bool,
  true, ◌==◌, if◌then◌else◌,
}
use free_dos.Devices.{Link, Device, device, has_request}

abbrev pub Mem : ℕ → List ℕ → Type 0
Mem k [] = ⊥
Mem k (x ∷ xs) = (k ≡ x) ⊎ Mem k xs

abbrev pub Distinct : List ℕ → Type 0
Distinct [] = Unit
Distinct (x ∷ xs) = ¬ Mem x xs × Distinct xs

abbrev pub remove : ℕ → List ℕ → List ℕ
remove h [] = []
remove h (x ∷ xs) = if x == h then xs else x ∷ remove h xs

pub Mem-remove : (k h : ℕ) (xs : List ℕ) → Mem k (remove h xs) → Mem k xs
Mem-remove k h [] m = m
Mem-remove k h (x ∷ xs) m = ground (arith, Mem-remove k h xs)

pub Mem-remove_ne : (k h : ℕ) (xs : List ℕ) → k ≢ h → Mem k xs → Mem k (remove h xs)
Mem-remove_ne k h [] n m = m
Mem-remove_ne k h (x ∷ xs) n m = ground (arith, Mem-remove_ne k h xs)

pub Distinct-remove :
    (h : ℕ) (xs : List ℕ) → Distinct xs → Distinct (remove h xs) × ¬ Mem h (remove h xs)
Distinct-remove h [] d = (tt, λ m. m)
Distinct-remove h (x ∷ xs) d = ground (arith, Distinct-remove h xs, Mem-remove x h xs)

module _ {R : Type 0} where
  abbrev pub is_used : List (Device R) → ℕ → Bool
  is_used devices k = has_request ((device devices k).request)

  -- The devices `xs` from `l` to `f` by the links `prev`; each one's link `next` goes to the one before it
  -- in `xs`, and that of the first of them to `n`.
  abbrev pub Seg : List (Device R) → Link → Link → Link → List ℕ → Type 0
  Seg devices n l f [] = (l ≡ none) × (f ≡ n)
  Seg devices n l f (x ∷ xs) =
      (l ≡ some x)
      × (is_used devices x ≡ true)
      × ((device devices x).next ≡ n)
      × Seg devices (some x) ((device devices x).prev) f xs

  -- Arrays that agree on the devices of a segment.
  pub Seg-same :
      (a b : List (Device R)) (n l f : Link) (xs : List ℕ)
      → ((k : ℕ) → Mem k xs → device b k ≡ device a k)
      → Seg a n l f xs
      → Seg b n l f xs
  Seg-same a b n l f [] h s = s
  Seg-same a b n l f (x ∷ xs) h (e, u, v, s) =
      let same : device b x ≡ device a x = h x (inl refl) in
      (
        e,
        ap (λ (d : Device R). has_request d.request) same ∙ u,
        ap (λ (d : Device R). d.next) same ∙ v,
        subst (λ p. Seg b (some x) p f xs) (sym (ap (λ (d : Device R). d.prev) same))
            (Seg-same a b (some x) ((device a x).prev) f xs (λ k m. h k (inr m)) s),
      )

  pub Seg-used :
      (a : List (Device R)) (n l f : Link) (xs : List ℕ) (k : ℕ)
      → Seg a n l f xs
      → Mem k xs
      → is_used a k ≡ true
  Seg-used a n l f [] k s m = elim m [ ]
  Seg-used a n l f (x ∷ xs) k (e, u, v, s) (inl m) = subst (λ y. is_used a y ≡ true) (sym m) u
  Seg-used a n l f (x ∷ xs) k (e, u, v, s) (inr m) =
      Seg-used a (some x) ((device a x).prev) f xs k s m

  pub Seg-last :
      (a : List (Device R)) (n l f : Link) (xs : List ℕ) (k : ℕ)
      → Seg a n l f xs
      → l ≡ some k
      → Mem k xs
  Seg-last a n l f [] k s e = cc
  Seg-last a n l f (x ∷ xs) k (p, u, v, s) e = inl (cc)

  -- Where the links of a device of the segment go.
  pub Seg-prev :
      (a : List (Device R)) (n l f : Link) (xs : List ℕ) (h k : ℕ)
      → Seg a n l f xs
      → Mem h xs
      → (device a h).prev ≡ some k
      → Mem k xs
  Seg-prev a n l f [] h k s m e = m
  Seg-prev a n l f (x ∷ xs) h k (p, u, v, s) (inl m) e = inr (
      Seg-last a (some x) ((device a x).prev) f xs k s
        (subst (λ y. (device a y).prev ≡ some k) m e))
  Seg-prev a n l f (x ∷ xs) h k (p, u, v, s) (inr m) e =
      inr (Seg-prev a (some x) ((device a x).prev) f xs h k s m e)

  pub Seg-next :
      (a : List (Device R)) (n l f : Link) (xs : List ℕ) (h k : ℕ)
      → Seg a n l f xs
      → Mem h xs
      → (device a h).next ≡ some k
      → (n ≡ some k) ⊎ Mem k xs
  Seg-next a n l f [] h k s m e = inr m
  Seg-next a n l f (x ∷ xs) h k (p, u, v, s) (inl m) e =
      inl (sym v ∙ subst (λ y. (device a y).next ≡ some k) m e)
  Seg-next a n l f (x ∷ xs) h k (p, u, v, s) (inr m) e =
      elim (Seg-next a (some x) ((device a x).prev) f xs h k s m e) [
        | inl q ↦ inr (inl (cc))
        | inr q ↦ inr (inr q)
      ]
