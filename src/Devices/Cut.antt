-- ===== src/Devices/Cut.antt =====
-- A device is taken out of the doubly linked list of fd32/devices/devices.c.
use free_dos.Common.{
  ℕ, ◌≡◌, ◌≢◌, refl, sym, ap, subst, ◌∙◌, ◌⊎◌, inl, inr, List, [], ◌∷◌, none, some, arith, ◌==◌,
  if◌then◌else◌, Bool-cases, ==_iff, true≢false,
}
use free_dos.Devices.{Link, Device, device, at_end}
use free_dos.Devices.Chain.{Mem, Distinct, remove, Seg, is_used, Seg-same, Seg-prev, Seg-next}

-- A link to `h` goes to `p` now.
abbrev pub skip : ℕ → Link → Link → Link
skip h p none = none
skip h p (some k) = if k == h then p else some k

pub some_injective : {x y : ℕ} → some x ≡ some y → x ≡ y
some_injective e = cc

pub none≢some : {k : ℕ} → ◌≡◌ {A = Link} none (some k) → ⊥
none≢some e = cc

pub Link_dec : (l : Link) (h : ℕ) → (l ≡ some h) ⊎ (l ≢ some h)
Link_dec none h = inr (λ e. cc)
Link_dec (some k) h = elim (Bool-cases (k == h)) [
  | inl e ↦ inl (ap some ((==_iff k h).0 e))
  | inr e ↦ inr (λ q. true≢false (sym ((==_iff k h).1 (some_injective q)) ∙ e))
]

pub skip_self : (h : ℕ) (p l : Link) → l ≡ some h → skip h p l ≡ p
skip_self h p none e = cc
skip_self h p (some k) e = let q : k ≡ h = cc in ground (arith, q)

pub skip_ne : (h : ℕ) (p l : Link) → l ≢ some h → skip h p l ≡ l
skip_ne h p none n = refl
skip_ne h p (some k) n = elim (Bool-cases (k == h)) [
  | inl e ↦ absurd (n (ap some ((==_iff k h).0 e)))
  | inr e ↦ rw e refl
]

pub at_end-none : (l v old : Link) → l ≡ none → at_end l v old ≡ v
at_end-none none v old e = refl
at_end-none (some k) v old e = cc

pub at_end-some : (l v old : Link) (k : ℕ) → l ≡ some k → at_end l v old ≡ old
at_end-some none v old k e = cc
at_end-some (some j) v old k e = refl

module _ {R : Type 0} (a b : List (Device R)) (h : ℕ) where
  -- In `b` the neighbours of `h` are linked to each other, and the others are as in `a`.
  pub record IsCut : Type 0 where
    pub used_same : (k : ℕ) → k ≢ h → is_used b k ≡ is_used a k
    pub prev_at :
        (k : ℕ) → k ≢ h → (device a h).next ≡ some k → (device b k).prev ≡ (device a h).prev
    pub prev_off :
        (k : ℕ) → k ≢ h → (device a h).next ≢ some k → (device b k).prev ≡ (device a k).prev
    pub next_at :
        (k : ℕ) → k ≢ h → (device a h).prev ≡ some k → (device b k).next ≡ (device a h).next
    pub next_off :
        (k : ℕ) → k ≢ h → (device a h).prev ≢ some k → (device b k).next ≡ (device a k).next
    pub others :
        (k : ℕ)
        → k ≢ h
        → (device a h).next ≢ some k
        → (device a h).prev ≢ some k
        → device b k ≡ device a k

-- The device that is linked first is the one whose next is the one in front.
pub first_next :
    {R : Type 0} (a : List (Device R)) (m : ℕ) (l f : Link) (xs : List ℕ) (h : ℕ)
    → Seg a (some m) l f xs
    → Mem h xs
    → ¬ Mem m xs
    → Distinct xs
    → (l ≡ some h → (device a h).next ≡ some m) × ((device a h).next ≡ some m → l ≡ some h)
first_next a m l f [] h s i n d = elim i [ ]
first_next a m l f (x ∷ xs) h (e, u, v, s) (inl i) n d =
    (λ p. subst (λ y. (device a y).next ≡ some m) (sym i) v, λ p. e ∙ ap some (sym i))
first_next a m l f (x ∷ xs) h (e, u, v, s) (inr i) n (d, ds) = (
  λ p. let q : h ≡ x = cc in absurd (d (subst (λ y. Mem y xs) q i)),
  λ p. elim (Seg-next a (some x) ((device a x).prev) f xs h m s i p) [
    | inl q ↦ absurd (n (inl (cc)))
    | inr q ↦ absurd (n (inr q))
  ],
)

module _ {R : Type 0} (a b : List (Device R)) (h : ℕ) (c : IsCut a b h) where
  open c use {used_same, prev_at, prev_off, next_at, next_off, others}

  abbrev older : Link
  older = (device a h).prev

  abbrev newer : Link
  newer = (device a h).next

  cut_head :
      (n f : Link) (xs : List ℕ)
      → newer ≡ n
      → Seg a (some h) older f xs
      → ¬ Mem h xs
      → Distinct xs
      → ((k : ℕ) → n ≡ some k → ¬ Mem k xs)
      → Seg b n older (at_end older newer f) xs
  cut_head n f [] e (p, q) m d o = (p, at_end-none older newer f p ∙ e)
  cut_head n f (y ∷ ys) e (p, u, v, s) m (d, ds) o =
      let other : y ≢ h = λ q. m (inl (sym q)) in
      let prev_same : (device b y).prev ≡ (device a y).prev =
        prev_off y other (λ q. o y (sym e ∙ q) (inl refl)) in
      (
        p,
        used_same y other ∙ u,
        next_at y other p ∙ e,
        subst (λ w. Seg b (some y) w (at_end older newer f) ys) (sym prev_same)
            (subst (λ w. Seg b (some y) ((device a y).prev) w ys)
              (sym (at_end-some older newer f y p))
              (Seg-same a b (some y) ((device a y).prev) f ys
                (λ k i.
                  others k (λ q. m (inr (subst (λ z. Mem z ys) q i))) (λ q. o k (sym e ∙ q) (inr i))
                    (λ q. let r : k ≡ y = cc in d (subst (λ z. Mem z ys) r i)))
                s)),
      )

  linked_prev :
      (x : ℕ)
      → x ≢ h
      → ((device a x).prev ≡ some h → newer ≡ some x)
        × (newer ≡ some x → (device a x).prev ≡ some h)
      → (device b x).prev ≡ skip h older ((device a x).prev)
  linked_prev x other (to, back) = elim (Link_dec ((device a x).prev) h) [
    | inl e ↦ prev_at x other (to e) ∙ sym (skip_self h older ((device a x).prev) e)
    | inr e ↦ prev_off x other (λ q. e (back q)) ∙ sym (skip_ne h older ((device a x).prev) e)
  ]

  pub Seg-remove :
      (n l f : Link) (xs : List ℕ)
      → Seg a n l f xs
      → Mem h xs
      → Distinct xs
      → ((k : ℕ) → n ≡ some k → ¬ Mem k xs)
      → Seg b n (skip h older l) (at_end older newer f) (remove h xs)
  Seg-remove n l f [] s i d o = elim i [ ]
  Seg-remove n l f (x ∷ xs) (e, u, v, s) i (d, ds) o = elim (Bool-cases (x == h)) [
    | inl t ↦
        let q : x ≡ h = (==_iff x h).0 t in
        subst (λ w. Seg b n w (at_end older newer f) (remove h (x ∷ xs)))
          (sym (skip_self h older l (e ∙ ap some q)))
          (rw t (
            cut_head n f xs (subst (λ y. (device a y).next ≡ n) q v)
              (subst (λ y. Seg a (some y) ((device a y).prev) f xs) q s)
              (subst (λ y. ¬ Mem y xs) q d) ds (λ k r m. o k r (inr m))))
    | inr t ↦
        let other : x ≢ h = λ q. true≢false (sym ((==_iff x h).1 q) ∙ t) in
        let tail : Mem h xs = elim i [ inl q ↦ absurd (other (sym q)) | inr q ↦ q ] in
        let first = first_next a x ((device a x).prev) f xs h s tail d ds in
        let prev_same : (device b x).prev ≡ skip h older ((device a x).prev) =
          linked_prev x other first in
        let rest =
          Seg-remove (some x) ((device a x).prev) f xs s tail ds
            (λ k r. subst (λ y. ¬ Mem y xs) (some_injective r) d) in
        subst (λ w. Seg b n w (at_end older newer f) (remove h (x ∷ xs)))
          (sym (skip_ne h older l (λ q. other (some_injective (sym e ∙ q)))))
          (rw t (
            e,
            used_same x other ∙ u,
            next_off x other (λ q. d (Seg-prev a (some x) ((device a x).prev) f xs h x s tail q))
                ∙ v,
            subst (λ w. Seg b (some x) w (at_end older newer f) (remove h xs)) (sym prev_same) rest,
          ))
  ]
