-- ===== src/Devices/Unregister.antt =====
-- fd32_dev_unregister of fd32/devices/devices.c takes one device out of the list, and leaves the others.
use free_dos.Common.{
  ℕ, ◌<◌, ◌≡◌, ◌≢◌, refl, sym, ap, subst, ◌∙◌, ◌⊎◌, inl, inr, List, [], ◌∷◌, none, some, length,
  set, arith, true, false, Bool-cases, get_or-set_self, get_or-set_ne, length-set, true≢false,
  Option-cases,
}
use free_dos.Common.Errno.{ok, err, enodev}
use free_dos.Devices.{
  Link, Device, Registry, device, zeroed, has_request, set_prev, set_next, is_valid, unlinked,
  fd32_dev_unregister, at_end,
}
use free_dos.Devices.Chain.{
  Mem, Distinct, remove, Seg, is_used, Seg-prev, Seg-next, Mem-remove_ne, Distinct-remove,
}
use free_dos.Devices.Cut.{
  IsCut, skip, skip_self, skip_ne, at_end-none, at_end-some, Seg-remove, some_injective, none≢some,
}
use free_dos.Devices.Links.{
  identity, set_prev-off, set_prev-at, set_prev-next, set_prev-identity, length-set_prev,
  set_next-off, set_next-at, set_next-prev, set_next-identity, length-set_next,
}
use free_dos.Devices.Order.{Represents, Mem-lt, is_valid-Mem, Mem-is_valid}

-- A device that is not linked last has one in front of it, and one that is linked last has none.
last_next :
    {R : Type 0} (a : List (Device R)) (m : ℕ) (l f : Link) (xs : List ℕ) (h : ℕ)
    → Seg a (some m) l f xs
    → Mem h xs
    → (device a h).next ≢ none
last_next a m l f [] h s i = elim i [ ]
last_next a m l f (x ∷ xs) h (e, u, v, s) (inl i) =
    λ q. let c : none ≡ some m = sym q ∙ subst (λ y. (device a y).next ≡ some m) (sym i) v in cc
last_next a m l f (x ∷ xs) h (e, u, v, s) (inr i) = last_next a x ((device a x).prev) f xs h s i

last_skip :
    {R : Type 0} (a : List (Device R)) (l f : Link) (xs : List ℕ) (h : ℕ) (p : Link)
    → Seg a none l f xs
    → Mem h xs
    → Distinct xs
    → skip h p l ≡ at_end ((device a h).next) p l
last_skip a l f [] h p s i d = elim i [ ]
last_skip a l f (x ∷ xs) h p (e, u, v, s) (inl i) d =
    skip_self h p l (e ∙ ap some (sym i))
    ∙ sym (at_end-none ((device a h).next) p l (subst (λ y. (device a y).next ≡ none) (sym i) v))
last_skip a l f (x ∷ xs) h p (e, u, v, s) (inr i) (d, ds) =
    elim (Option-cases ((device a h).next)) [
      | inl q ↦ absurd (last_next a x ((device a x).prev) f xs h s i q)
      | inr (k, q) ↦
          skip_ne h p l (λ t. d (subst (λ y. Mem y xs) (some_injective (sym t ∙ e)) i))
          ∙ sym (at_end-some ((device a h).next) p l k q)
    ]

module _ {R : Type 0} (reg : Registry R) (xs : List ℕ) (r : Represents reg xs) (h : ℕ)
    (i : Mem h xs) where
  abbrev a : List (Device R)
  a = reg.devices

  abbrev dropped : Device R
  dropped = record (device a h) { request = none }

  abbrev without : List (Device R)
  without = set a h dropped

  abbrev relinked : List (Device R)
  relinked = set_next ((device a h).prev) ((device a h).next) without

  abbrev b : List (Device R)
  b = set_prev ((device a h).next) ((device a h).prev) relinked

  without-ne : (k : ℕ) → k ≢ h → device without k ≡ device a k
  without-ne k n = get_or-set_ne a h k dropped zeroed (λ q. n (sym q))

  length-b : length b ≡ length a
  length-b =
      length-set_prev relinked ((device a h).next) ((device a h).prev)
      ∙ length-set_next without ((device a h).prev) ((device a h).next)
      ∙ length-set a h dropped

  b-identity : (k : ℕ) → identity (device b k) ≡ identity (device without k)
  b-identity k =
      set_prev-identity relinked ((device a h).next) ((device a h).prev) k
      ∙ set_next-identity without ((device a h).prev) ((device a h).next) k

  next-lt : (k : ℕ) → (device a h).next ≡ some k → k < length a
  next-lt k q = elim (Seg-next a none reg.dev_last reg.dev_first xs h k r.chain i q) [
    | inl c ↦ cc
    | inr m ↦ Mem-lt reg xs r k m
  ]

  prev-lt : (k : ℕ) → (device a h).prev ≡ some k → k < length a
  prev-lt k q = Mem-lt reg xs r k (Seg-prev a none reg.dev_last reg.dev_first xs h k r.chain i q)

  unlinked-IsCut : IsCut a b h
  unlinked-IsCut = record {
    used_same = λ k n.
        ap (λ t. has_request t.0) (b-identity k)
        ∙ ap (λ (d : Device R). has_request d.request) (without-ne k n);
    prev_at = λ k n q.
        ap (λ (d : Device R). d.prev)
          (set_prev-at relinked ((device a h).next) ((device a h).prev) k q (
            omega (
              arith,
              next-lt k q,
              length-set a h dropped,
              length-set_next without ((device a h).prev) ((device a h).next),
            )));
    prev_off = λ k n q.
        ap (λ (d : Device R). d.prev)
          (set_prev-off relinked ((device a h).next) ((device a h).prev) k q)
        ∙ set_next-prev without ((device a h).prev) ((device a h).next) k
        ∙ ap (λ (d : Device R). d.prev) (without-ne k n);
    next_at = λ k n q.
        set_prev-next relinked ((device a h).next) ((device a h).prev) k
        ∙ ap (λ (d : Device R). d.next)
            (set_next-at without ((device a h).prev) ((device a h).next) k q
              (omega (arith, prev-lt k q, length-set a h dropped)));
    next_off = λ k n q.
        set_prev-next relinked ((device a h).next) ((device a h).prev) k
        ∙ ap (λ (d : Device R). d.next)
            (set_next-off without ((device a h).prev) ((device a h).next) k q)
        ∙ ap (λ (d : Device R). d.next) (without-ne k n);
    others = λ k n q t.
        set_prev-off relinked ((device a h).next) ((device a h).prev) k q
        ∙ set_next-off without ((device a h).prev) ((device a h).next) k t
        ∙ without-ne k n;
  }

  b-unused : is_used b h ≡ false
  b-unused =
      ap (λ t. has_request t.0) (b-identity h)
      ∙ ap (λ (d : Device R). has_request d.request)
          (get_or-set_self a h dropped zeroed (Mem-lt reg xs r h i))

  b-listed : (k : ℕ) → is_used b k ≡ true → Mem k (remove h xs)
  b-listed k u =
      let other : k ≢ h = λ q. true≢false (sym (subst (λ y. is_used b y ≡ true) q u) ∙ b-unused) in
      Mem-remove_ne k h xs other (r.listed k (sym (unlinked-IsCut.used_same k other) ∙ u))

  pub unlinked-Represents : Represents (unlinked h reg) (remove h xs)
  unfolding unlinked
  unlinked-Represents = record {
    size = length-b ∙ r.size;
    chain =
        subst
          (λ l.
            Seg b none l (at_end ((device a h).prev) ((device a h).next) reg.dev_first)
              (remove h xs))
          (last_skip a reg.dev_last reg.dev_first xs h ((device a h).prev) r.chain i r.distinct)
          (Seg-remove a b h unlinked-IsCut none reg.dev_last reg.dev_first xs r.chain i r.distinct
            (λ k q. absurd (none≢some q)));
    distinct = (Distinct-remove h xs r.distinct).0;
    listed = b-listed;
  }

  pub unlinked-identity :
      (k : ℕ) → k ≢ h → identity (device (unlinked h reg).devices k) ≡ identity (device a k)
  unfolding unlinked
  unlinked-identity k n = b-identity k ∙ ap (λ (d : Device R). identity d) (without-ne k n)

-- For a registry of the devices `xs`, the last one first: a handle in `xs` is unregistered with the
-- result 0, and the registry is one of `xs` without it, in the same order, where the request functions,
-- identifiers and names of all other entries are as they were; any other handle gives -ENODEV and changes
-- nothing.
pub fd32_dev_unregister-Represents :
    {R : Type 0} (reg : Registry R) (xs : List ℕ) (h : ℕ)
    → Represents reg xs
    → let r = fd32_dev_unregister h reg in
      (Mem h xs
        × (r.0 ≡ ok 0)
        × Represents (r.1) (remove h xs)
        × ((k : ℕ) → k ≢ h → identity (device (r.1.devices) k) ≡ identity (device reg.devices k)))
      ⊎ ((¬ Mem h xs) × (r ≡ (err enodev, reg)))
unfolding fd32_dev_unregister
fd32_dev_unregister-Represents reg xs h r = elim (Bool-cases (is_valid h reg)) [
  | inl e ↦
      let i = is_valid-Mem reg xs r h e in
      rw (e, fd32_dev_unregister)
        (inl (i, refl, unlinked-Represents reg xs r h i, unlinked-identity reg xs r h i))
  | inr e ↦
      rw (e, fd32_dev_unregister)
        (inr (λ m. true≢false (sym (Mem-is_valid reg xs r h m) ∙ e), refl))
]
