-- ===== src/Devices/Linked.antt =====
-- An entry of the array of fd32/devices/devices.c is filled, and becomes the last device of the list.
use free_dos.Common.{
  ℕ, zero, suc, ◌+◌, ◌≤◌, ◌<◌, ◌≡◌, ◌≢◌, refl, sym, ap, subst, ◌∙◌, inl, inr, List, [], ◌∷◌, ◌++◌,
  Option, none, some, length, set, arith, true, false, ◌==◌, Bool-cases, get_or-set_self,
  get_or-set_ne, length-set, true≢false, ==_iff, replicate, length-append,
}
use free_dos.Devices.{
  Link, Device, Registry, device, zeroed, has_request, set_next, or_next, first_unused, linked,
  grown, at_end, dev_size_step,
}
use free_dos.Devices.Chain.{Mem, Distinct, Seg, is_used, Seg-used, Seg-last, Seg-same}
use free_dos.Devices.Cut.{some_injective}
use free_dos.Devices.Links.{identity, set_next-off, set_next-at, set_next-identity, length-set_next}
use free_dos.Devices.Order.{Represents, Mem-lt}

-- An entry of bytes 0 is what is read behind the array.
pub device-append :
    {R : Type 0} (a : List (Device R)) (n k : ℕ) → device (a ++ replicate n zeroed) k ≡ device a k
device-append [] zero k = refl
device-append [] (suc n) zero = refl
device-append [] (suc n) (suc k) = device-append [] n k
device-append (d ∷ a) n zero = refl
device-append (d ∷ a) n (suc k) = device-append a n k

abbrev pub IsFirstUnused : {R : Type 0} → List (Device R) → ℕ → Type 0
IsFirstUnused a n = (n ≤ length a) × (is_used a n ≡ false) × ((k : ℕ) → k < n → is_used a k ≡ true)

below_suc :
    {R : Type 0} (d : Device R) (a : List (Device R)) (q : R) (n : ℕ)
    → d.request ≡ some q
    → ((k : ℕ) → k < n → is_used a k ≡ true)
    → (k : ℕ) → k < suc n
    → is_used (d ∷ a) k ≡ true
below_suc d a q n e h zero l = ap has_request e
below_suc d a q n e h (suc k) l = h k (omega arith)

or_next_lem :
    {R : Type 0} (d : Device R) (a : List (Device R)) (n : ℕ) (o : Option R)
    → d.request ≡ o
    → IsFirstUnused a n
    → IsFirstUnused (d ∷ a) (or_next o n)
or_next_lem d a n none e h = (omega arith, ap has_request e, λ k l. absurd (omega arith))
or_next_lem d a n (some q) e (l, u, below) = (omega arith, u, below_suc d a q n e below)

pub first_unused_lem : {R : Type 0} (a : List (Device R)) → IsFirstUnused a (first_unused a)
unfolding first_unused
first_unused_lem [] = (omega arith, refl, λ k h. absurd (omega arith))
first_unused_lem (d ∷ a) = or_next_lem d a (first_unused a) d.request refl (first_unused_lem a)

-- The segment after `n`, in an array where that is the next of its last device.
Seg-front :
    {R : Type 0} (a b : List (Device R)) (n v l f : Link) (xs : List ℕ)
    → Seg a n l f xs
    → Distinct xs
    → ((k : ℕ) → Mem k xs → l ≢ some k → device b k ≡ device a k)
    → ((k : ℕ) → Mem k xs → l ≡ some k → device b k ≡ record (device a k) { next = v })
    → Seg b v l (at_end l v f) xs
Seg-front {R = R} a b n v l f [] (p, q) d off at = (p, ap (λ l. at_end l v f) p)
Seg-front {R = R} a b n v l f (x ∷ xs) (e, u, w, s) (d, ds) off at =
    let here : device b x ≡ record (device a x) { next = v } = at x (inl refl) e in
    (
      e,
      ap (λ (d : Device R). has_request d.request) here ∙ u,
      ap (λ (d : Device R). d.next) here,
      subst (λ t. Seg b (some x) t (at_end l v f) xs) (sym (ap (λ (d : Device R). d.prev) here))
          (subst (λ t. Seg b (some x) ((device a x).prev) t xs) (sym (ap (λ l. at_end l v f) e))
            (Seg-same a b (some x) ((device a x).prev) f xs
              (λ k m. off k (inr m) (λ q. d (subst (λ y. Mem y xs) (some_injective (sym q ∙ e)) m)))
              s)),
    )

module _ {R : Type 0} (reg : Registry R) (xs : List ℕ) (r : Represents reg xs) where
  pub grown-Represents : (place : ℕ) → Represents (grown place reg) xs
  grown-Represents place =
      let same : (k : ℕ)
          → device (reg.devices ++ replicate dev_size_step zeroed) k ≡ device reg.devices k =
        device-append reg.devices dev_size_step in
      record {
        size =
            length-append reg.devices (replicate dev_size_step zeroed)
            ∙ ap (λ n. n + dev_size_step) r.size;
        chain =
            Seg-same reg.devices (reg.devices ++ replicate dev_size_step zeroed) none reg.dev_last
              reg.dev_first xs (λ k m. same k) r.chain;
        distinct = r.distinct;
        listed =
            λ k u. r.listed k (ap (λ (d : Device R). has_request d.request) (sym (same k)) ∙ u);
      }

  module _ (k : ℕ) (request : R) (device_id : ℕ) (name : List ℕ) (inside : k < length reg.devices)
      (unused : is_used reg.devices k ≡ false) where
    abbrev a : List (Device R)
    a = reg.devices

    abbrev filled : Device R
    filled = record {
      request = some request;
      device_id = device_id;
      name = name;
      prev = reg.dev_last;
      next = none;
    }

    abbrev b : List (Device R)
    b = set_next reg.dev_last (some k) (set a k filled)

    fresh : ¬ Mem k xs
    fresh m = true≢false (sym (Seg-used a none reg.dev_last reg.dev_first xs k r.chain m) ∙ unused)

    not_last : reg.dev_last ≢ some k
    not_last e = fresh (Seg-last a none reg.dev_last reg.dev_first xs k r.chain e)

    at_k : device b k ≡ filled
    at_k =
        set_next-off (set a k filled) reg.dev_last (some k) k not_last
        ∙ get_or-set_self a k filled zeroed inside

    before : (j : ℕ) → j ≢ k → device (set a k filled) j ≡ device a j
    before j n = get_or-set_ne a k j filled zeroed (λ q. n (sym q))

    member_ne : (j : ℕ) → Mem j xs → j ≢ k
    member_ne j m q = fresh (subst (λ y. Mem y xs) q m)

    b-identity : (j : ℕ) → j ≢ k → identity (device b j) ≡ identity (device a j)
    b-identity j n =
        set_next-identity (set a k filled) reg.dev_last (some k) j
        ∙ ap (λ (d : Device R). identity d) (before j n)

    b-chain : Seg b none (some k) (at_end reg.dev_last (some k) reg.dev_first) (k ∷ xs)
    b-chain = (
      refl,
      ap (λ (d : Device R). has_request d.request) at_k,
      ap (λ (d : Device R). d.next) at_k,
      subst (λ t. Seg b (some k) t (at_end reg.dev_last (some k) reg.dev_first) xs)
          (sym (ap (λ (d : Device R). d.prev) at_k))
          (Seg-front a b none (some k) reg.dev_last reg.dev_first xs r.chain r.distinct
            (λ j m q.
              set_next-off (set a k filled) reg.dev_last (some k) j q ∙ before j (member_ne j m))
            (λ j m q.
              set_next-at (set a k filled) reg.dev_last (some k) j q
                (omega (arith, Mem-lt reg xs r j m, length-set a k filled))
              ∙ ap (λ (d : Device R). record d { next = some k }) (before j (member_ne j m)))),
    )

    b-listed : (j : ℕ) → is_used b j ≡ true → Mem j (k ∷ xs)
    b-listed j u = elim (Bool-cases (j == k)) [
      | inl e ↦ inl ((==_iff j k).0 e)
      | inr e ↦
          let other : j ≢ k = λ q. true≢false (sym ((==_iff j k).1 q) ∙ e) in
          inr (r.listed j (ap (λ t. has_request t.0) (sym (b-identity j other)) ∙ u))
    ]

    -- The entry `k` holds the new device, and no other entry changed but for its links.
    pub linked-Represents :
        let reg' = linked k (some request) device_id name reg in
        (¬ Mem k xs)
        × Represents reg' (k ∷ xs)
        × (identity (device reg'.devices k) ≡ (some request, device_id, name))
        × ((j : ℕ) → j ≢ k → identity (device reg'.devices j) ≡ identity (device a j))
    unfolding linked
    linked-Represents = (
      fresh,
      record {
        size =
            length-set_next (set a k filled) reg.dev_last (some k) ∙ length-set a k filled ∙ r.size;
        chain = b-chain;
        distinct = (fresh, r.distinct);
        listed = b-listed;
      },
      ap (λ (d : Device R). identity d) at_k,
      b-identity,
    )
