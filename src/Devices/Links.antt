-- ===== src/Devices/Links.antt =====
-- Writes of a link in the array of fd32/devices/devices.c.
use free_dos.Common.{
  ℕ, zero, suc, ◌<◌, ◌≡◌, ◌≢◌, refl, sym, ap, subst, List, [], ◌∷◌, Option, none, some, length,
  get_or, set, get_or-set_self, get_or-set_ne, length-set,
}
use free_dos.Devices.{Link, Device, device, zeroed, set_prev, set_next}
use free_dos.Devices.Cut.{some_injective}

-- What a device is without its links.
abbrev pub identity : {R : Type 0} → Device R → Option R × ℕ × List ℕ
identity d = (d.request, d.device_id, d.name)

pub set_field :
    {A B : Type 0} (f : A → B) (xs : List A) (j k : ℕ) (v d : A)
    → f v ≡ f (get_or xs j d)
    → f (get_or (set xs j v) k d) ≡ f (get_or xs k d)
set_field f [] j k v d h = refl
set_field f (x ∷ xs) zero zero v d h = h
set_field f (x ∷ xs) zero (suc k) v d h = refl
set_field f (x ∷ xs) (suc j) zero v d h = refl
set_field f (x ∷ xs) (suc j) (suc k) v d h = set_field f xs j k v d h

module _ {R : Type 0} (devices : List (Device R)) where
  pub set_prev-off :
      (l v : Link) (k : ℕ) → l ≢ some k → device (set_prev l v devices) k ≡ device devices k
  set_prev-off none v k n = refl
  set_prev-off (some j) v k n =
      get_or-set_ne devices j k (record (device devices j) { prev = v }) zeroed (λ e. n (ap some e))

  pub set_prev-at :
      (l v : Link) (k : ℕ)
      → l ≡ some k
      → k < length devices
      → device (set_prev l v devices) k ≡ record (device devices k) { prev = v }
  set_prev-at none v k e h = cc
  set_prev-at (some j) v k e h =
      subst
        (λ j.
          device (set devices j (record (device devices j) { prev = v })) k
          ≡ record (device devices k) { prev = v })
        (sym (some_injective e))
        (get_or-set_self devices k (record (device devices k) { prev = v }) zeroed h)

  pub set_prev-next :
      (l v : Link) (k : ℕ) → (device (set_prev l v devices) k).next ≡ (device devices k).next
  set_prev-next none v k = refl
  set_prev-next (some j) v k =
      set_field (λ d. d.next) devices j k (record (device devices j) { prev = v }) zeroed refl

  pub set_prev-identity :
      (l v : Link) (k : ℕ)
      → identity (device (set_prev l v devices) k) ≡ identity (device devices k)
  set_prev-identity none v k = refl
  set_prev-identity (some j) v k =
      set_field (λ d. identity d) devices j k (record (device devices j) { prev = v }) zeroed refl

  pub length-set_prev : (l v : Link) → length (set_prev l v devices) ≡ length devices
  length-set_prev none v = refl
  length-set_prev (some j) v = length-set devices j (record (device devices j) { prev = v })

  pub set_next-off :
      (l v : Link) (k : ℕ) → l ≢ some k → device (set_next l v devices) k ≡ device devices k
  set_next-off none v k n = refl
  set_next-off (some j) v k n =
      get_or-set_ne devices j k (record (device devices j) { next = v }) zeroed (λ e. n (ap some e))

  pub set_next-at :
      (l v : Link) (k : ℕ)
      → l ≡ some k
      → k < length devices
      → device (set_next l v devices) k ≡ record (device devices k) { next = v }
  set_next-at none v k e h = cc
  set_next-at (some j) v k e h =
      subst
        (λ j.
          device (set devices j (record (device devices j) { next = v })) k
          ≡ record (device devices k) { next = v })
        (sym (some_injective e))
        (get_or-set_self devices k (record (device devices k) { next = v }) zeroed h)

  pub set_next-prev :
      (l v : Link) (k : ℕ) → (device (set_next l v devices) k).prev ≡ (device devices k).prev
  set_next-prev none v k = refl
  set_next-prev (some j) v k =
      set_field (λ d. d.prev) devices j k (record (device devices j) { next = v }) zeroed refl

  pub set_next-identity :
      (l v : Link) (k : ℕ)
      → identity (device (set_next l v devices) k) ≡ identity (device devices k)
  set_next-identity none v k = refl
  set_next-identity (some j) v k =
      set_field (λ d. identity d) devices j k (record (device devices j) { next = v }) zeroed refl

  pub length-set_next : (l v : Link) → length (set_next l v devices) ≡ length devices
  length-set_next none v = refl
  length-set_next (some j) v = length-set devices j (record (device devices j) { next = v })
