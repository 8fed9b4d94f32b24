-- ===== src/Devices/Walk.antt =====
-- The neighbours of a device, by fd32_dev_next and fd32_dev_prev of fd32/devices/devices.c.
use free_dos.Common.{
  ℕ, ◌≡◌, ◌↔◌, refl, sym, subst, ◌∙◌, inl, inr, List, [], ◌∷◌, none, some, Bool, true, false,
  if◌then◌else◌,
}
use free_dos.Common.Errno.{ok, err, enodev}
use free_dos.Devices.{
  Link, Device, Registry, device, is_valid, link_result, fd32_dev_next, fd32_dev_prev,
}
use free_dos.Devices.Chain.{Mem, Distinct, Seg, Seg-prev, Seg-next}
use free_dos.Devices.Cut.{first_next, some_injective, none≢some}
use free_dos.Devices.Order.{Represents, is_valid-Mem, Mem-is_valid}

module _ {R : Type 0} (a : List (Device R)) where
  last_of :
      (m : ℕ) (l f : Link) (xs : List ℕ) (h : ℕ)
      → Seg a (some m) l f xs
      → l ≡ some h
      → (device a h).next ≡ some m
  last_of m l f [] h (p, q) e = absurd (none≢some (sym p ∙ e))
  last_of m l f (x ∷ xs) h (p, u, v, s) e =
      subst (λ t. (device a t).next ≡ some m) (some_injective (sym p ∙ e)) v

  next_of_prev :
      (n l f : Link) (xs : List ℕ) (h k : ℕ)
      → Seg a n l f xs
      → Mem k xs
      → (device a k).prev ≡ some h
      → (device a h).next ≡ some k
  next_of_prev n l f [] h k s i e = elim i [ ]
  next_of_prev n l f (x ∷ xs) h k (p, u, v, s) (inl i) e =
      subst (λ t. (device a h).next ≡ some t) (sym i)
        (last_of x ((device a x).prev) f xs h s (subst (λ t. (device a t).prev ≡ some h) i e))
  next_of_prev n l f (x ∷ xs) h k (p, u, v, s) (inr i) e =
      next_of_prev (some x) ((device a x).prev) f xs h k s i e

  prev_of_next :
      (n l f : Link) (xs : List ℕ) (h k : ℕ)
      → Seg a n l f xs
      → Distinct xs
      → (n ≡ some k → ¬ Mem k xs)
      → Mem h xs
      → Mem k xs
      → (device a h).next ≡ some k
      → (device a k).prev ≡ some h
  prev_of_next n l f [] h k s d o i j e = elim i [ ]
  prev_of_next n l f (x ∷ xs) h k (p, u, v, s) (d, ds) o (inl i) j e =
      absurd (o (sym v ∙ subst (λ t. (device a t).next ≡ some k) i e) j)
  prev_of_next n l f (x ∷ xs) h k (p, u, v, s) (d, ds) o (inr i) (inl j) e =
      subst (λ t. (device a t).prev ≡ some h) (sym j)
        ((first_next a x ((device a x).prev) f xs h s i d ds).1
          (subst (λ t. (device a h).next ≡ some t) j e))
  prev_of_next n l f (x ∷ xs) h k (p, u, v, s) (d, ds) o (inr i) (inr j) e =
      prev_of_next (some x) ((device a x).prev) f xs h k s ds
        (λ q m. d (subst (λ t. Mem t xs) (sym (some_injective q)) m)) i j e

link_some : (l : Link) (k : ℕ) → link_result l ≡ ok k → l ≡ some k
link_some none k e = cc
link_some (some j) k e = cc

-- A neighbour that is there belongs to a valid handle.
valid_link :
    (b : Bool) (l : Link) (k : ℕ)
    → (if b then link_result l else err enodev) ≡ ok k
    → (b ≡ true) × (l ≡ some k)
valid_link true l k e = (refl, link_some l k e)
valid_link false l k e = cc

-- In a registry with a list of its devices, fd32_dev_next leads from `h` to the device `k` exactly where
-- fd32_dev_prev leads back from `k` to `h`.
pub fd32_dev_next-fd32_dev_prev :
    {R : Type 0} (reg : Registry R) (xs : List ℕ) (h k : ℕ)
    → Represents reg xs
    → (fd32_dev_next h reg ≡ ok k) ↔ (fd32_dev_prev k reg ≡ ok h)
unfolding fd32_dev_next fd32_dev_prev
fd32_dev_next-fd32_dev_prev reg xs h k r =
    let a = reg.devices in
    (
      λ e.
          let (t, q) = valid_link (is_valid h reg) ((device a h).next) k e in
          let i = is_valid-Mem reg xs r h t in
          let j : Mem k xs = elim (Seg-next a none reg.dev_last reg.dev_first xs h k r.chain i q) [
            | inl c ↦ absurd (none≢some c)
            | inr m ↦ m
          ] in
          let back =
            prev_of_next a none reg.dev_last reg.dev_first xs h k r.chain r.distinct
              (λ c. absurd (none≢some c)) i j q in
          rw (Mem-is_valid reg xs r k j, back) refl,
      λ e.
          let (t, q) = valid_link (is_valid k reg) ((device a k).prev) h e in
          let j = is_valid-Mem reg xs r k t in
          let i = Seg-prev a none reg.dev_last reg.dev_first xs k h r.chain j q in
          let forth = next_of_prev a none reg.dev_last reg.dev_first xs h k r.chain j q in
          rw (Mem-is_valid reg xs r h i, forth) refl,
    )
