-- ===== src/Devices/Run.antt =====
-- Calls of fd32/devices/devices.c that change the registry, one after another.
use free_dos.Common.{
  suc, ◌+◌, ◌*◌, ◌≤◌, arith, length, ℕ, ◌≡◌, ◌≢◌, refl, sym, ap, subst, ◌∙◌, inl, inr, List, [],
  ◌∷◌, Option, none, some, true, Bool-cases, Option-cases, true≢false, set, get_or-set_ne,
  length-set, Returns, ◌==◌, ==_iff,
}
use free_dos.Common.Errno.{Res}
use free_dos.Devices.{
  dev_size_step, Link, Device, Registry, device, zeroed, has_request, is_valid, fd32_dev_register,
  fd32_dev_unregister, unlinked, fd32_dev_replace, no_devices,
}
use free_dos.Devices.Chain.{Mem, Seg, is_used, remove, Seg-used}
use free_dos.Devices.Links.{set_field}
use free_dos.Devices.Order.{Represents, is_valid-Mem}
use free_dos.Memory.Ops.{MemOps, MemLaws}
use free_dos.Devices.Room.{CanGrow, IsStored, bytes_of}
use free_dos.Devices.Register.{Outcome, fd32_dev_register-Represents}
use free_dos.Devices.Unregister.{fd32_dev_unregister-Represents}

-- A segment in an array where the same devices are used, with the same links.
Seg-links :
    {R : Type 0} (a b : List (Device R)) (n l f : Link) (xs : List ℕ)
    → ((k : ℕ)
        → Mem k xs
        → (is_used b k ≡ is_used a k)
          × ((device b k).next ≡ (device a k).next)
          × ((device b k).prev ≡ (device a k).prev))
    → Seg a n l f xs
    → Seg b n l f xs
Seg-links a b n l f [] h s = s
Seg-links a b n l f (x ∷ xs) h (e, u, v, s) =
    let (used, next, prev) = h x (inl refl) in
    (
      e,
      used ∙ u,
      next ∙ v,
      subst (λ p. Seg b (some x) p f xs) (sym prev)
          (Seg-links a b (some x) ((device a x).prev) f xs (λ k m. h k (inr m)) s),
    )

module _ {R : Type 0} (reg : Registry R) (xs : List ℕ) (r : Represents reg xs) (h : ℕ) (request : R)
    (device_id : ℕ) where
  abbrev a : List (Device R)
  a = reg.devices

  abbrev replaced : Device R
  replaced = record (device a h) { request = some request; device_id = device_id }

  abbrev b : List (Device R)
  b = set a h replaced

  used_before : (k : ℕ) → Mem h xs → is_used b k ≡ true → is_used a k ≡ true
  used_before k i u = elim (Bool-cases (h == k)) [
    | inl e ↦
        let q : h ≡ k = (==_iff h k).0 e in
        subst (λ y. is_used a y ≡ true) q
          (Seg-used a none reg.dev_last reg.dev_first xs h r.chain i)
    | inr e ↦
        let other : h ≢ k = λ q. true≢false (sym ((==_iff h k).1 q) ∙ e) in
        ap (λ (d : Device R). has_request d.request)
          (sym (get_or-set_ne a h k replaced zeroed other))
        ∙ u
  ]

  used_same : (k : ℕ) → Mem h xs → is_used a k ≡ true → is_used b k ≡ is_used a k
  used_same k i u =
      set_field (λ d. has_request d.request) a h k replaced zeroed
        (sym (Seg-used a none reg.dev_last reg.dev_first xs h r.chain i))

  replaced-Represents : Mem h xs → Represents (record reg { devices = b }) xs
  replaced-Represents i = record {
    size = length-set a h replaced ∙ r.size;
    chain =
        Seg-links a b none reg.dev_last reg.dev_first xs
          (λ k m. (
            used_same k i (Seg-used a none reg.dev_last reg.dev_first xs k r.chain m),
            set_field (λ d. d.next) a h k replaced zeroed refl,
            set_field (λ d. d.prev) a h k replaced zeroed refl,
          ))
          r.chain;
    distinct = r.distinct;
    listed = λ k u. r.listed k (used_before k i u);
  }

  pub fd32_dev_replace-Represents :
      Represents ((fd32_dev_replace h (some request) device_id reg).1) xs
  unfolding fd32_dev_replace
  fd32_dev_replace-Represents = elim (Bool-cases (is_valid h reg)) [
    | inl e ↦ rw (e, fd32_dev_replace) (replaced-Represents (is_valid-Mem reg xs r h e))
    | inr e ↦ rw (e, fd32_dev_replace) r
  ]

module _ {R : Type 0} (P : ℕ → ℕ → Type 0) (h : ℕ) (reg : Registry R) where
  -- The place of the array and its size.
  abbrev pub At : Registry R → Type 0
  At g = P g.place g.dev_size

  fd32_dev_unregister-At : At reg → At ((fd32_dev_unregister h reg).1)
  unfolding fd32_dev_unregister unlinked
  fd32_dev_unregister-At p = elim (Bool-cases (is_valid h reg)) [
    | inl e ↦ rw (e, fd32_dev_unregister) p
    | inr e ↦ rw (e, fd32_dev_unregister) p
  ]

  fd32_dev_replace-At :
      (request : Option R) (device_id : ℕ)
      → At reg
      → At ((fd32_dev_replace h request device_id reg).1)
  unfolding fd32_dev_replace
  fd32_dev_replace-At request device_id p = elim (Bool-cases (is_valid h reg)) [
    | inl e ↦ rw (e, fd32_dev_replace) p
    | inr e ↦ rw (e, fd32_dev_replace) p
  ]

-- The calls that change the registry, with request functions that are not NULL.
pub data Call (R : Type 0) : Type 0 where
  register : R → ℕ → List ℕ → Call R
  unregister : ℕ → Call R
  replace : ℕ → R → ℕ → Call R

module _ {S R : Type 0} (mem : MemOps S) (strcasecmp : List ℕ → List ℕ → ℕ) where
  pub call : Call R → Registry R → S → Option (Registry R × S)
  call (register request device_id name) reg s =
      elim (fd32_dev_register mem strcasecmp (some request) device_id name reg s) [
        | none ↦ none
        | some (result, reg', s') ↦ some (reg', s')
      ]
  call (unregister h) reg s = some ((fd32_dev_unregister h reg).1, s)
  call (replace h request device_id) reg s =
      some ((fd32_dev_replace h (some request) device_id reg).1, s)

  pub calls : List (Call R) → Registry R → S → Option (Registry R × S)
  unfolding call
  calls [] reg s = some (reg, s)
  calls (c ∷ rest) reg s = elim (call c reg s) [
    | none ↦ none
    | some (reg', s') ↦ calls rest reg' s'
  ]

  module _ (laws : MemLaws mem) where
    -- The registry after `n` calls.
    abbrev pub IsKept : ℕ → Registry R × S → Type 0
    IsKept n r =
        ((xs : List ℕ) × Represents (r.0) xs)
        × IsStored mem laws (r.0) (r.1)
        × (r.0.dev_size ≤ n * dev_size_step)

    Outcome-IsKept :
        (request : R) (device_id : ℕ) (name : List ℕ) (reg : Registry R) (xs : List ℕ) (s : S)
        (r : Res ℕ × Registry R × S) (n : ℕ)
        → Represents reg xs
        → IsStored mem laws reg s
        → reg.dev_size ≤ n * dev_size_step
        → Outcome mem laws request device_id name reg xs strcasecmp s r
        → IsKept (suc n) (r.1, r.2)
    Outcome-IsKept request device_id name reg xs s r n o h few (inl (x, found, e)) =
        rw e ((xs, o), h, omega arith)
    Outcome-IsKept request device_id name reg xs s r n o h few (inr (e, inl (k, z, a))) =
        ((k ∷ xs, a.order), a.stored, omega (arith, a.size_bound))
    Outcome-IsKept request device_id name reg xs s r n o h few (inr (e, inr (z, a))) =
        subst (λ g. IsKept (suc n) (g, r.2)) (sym a.same) ((xs, o), a.stored, omega arith)

    call-IsKept :
        (c : Call R) (reg : Registry R) (s : S) (n : ℕ)
        → CanGrow (n * dev_size_step)
        → IsKept n (reg, s)
        → Returns (IsKept (suc n)) (call c reg s)
    unfolding call
    call-IsKept (register request device_id name) reg s n can ((xs, r), h, few) =
        let p =
          fd32_dev_register-Represents mem laws request device_id name reg xs strcasecmp s r h
            (omega arith) in
        elim (Option-cases (fd32_dev_register mem strcasecmp (some request) device_id name reg s)) [
          | inl e ↦
              elim (subst
                (λ o. Returns (Outcome mem laws request device_id name reg xs strcasecmp s) o) e
                p) [ ]
          | inr (t, e) ↦
              rw (e, call)
                (Outcome-IsKept request device_id name reg xs s t n r h few (
                  subst
                    (λ o. Returns (Outcome mem laws request device_id name reg xs strcasecmp s) o) e
                    p))
        ]
    call-IsKept (unregister k) reg s n can ((xs, r), h, few) =
        let kept : IsStored mem laws ((fd32_dev_unregister k reg).1) s
            × ((fd32_dev_unregister k reg).1.dev_size ≤ suc n * dev_size_step) =
          fd32_dev_unregister-At
            (λ place size.
              (laws.IsSound s × (place ≢ 0 → laws.Held place (bytes_of size) s))
              × (size ≤ suc n * dev_size_step))
            k reg (h, omega arith) in
        elim (fd32_dev_unregister-Represents reg xs k r) [
          | inl (m, z, r', o) ↦ ((remove k xs, r'), kept.0, kept.1)
          | inr (m, e) ↦
              ((xs, subst (λ g. Represents g xs) (sym (ap (λ t. t.1) e)) r), kept.0, kept.1)
        ]
    call-IsKept (replace k request device_id) reg s n can ((xs, r), h, few) =
        let kept : IsStored mem laws ((fd32_dev_replace k (some request) device_id reg).1) s
            × ((fd32_dev_replace k (some request) device_id reg).1.dev_size
                ≤ suc n * dev_size_step) =
          fd32_dev_replace-At
            (λ place size.
              (laws.IsSound s × (place ≢ 0 → laws.Held place (bytes_of size) s))
              × (size ≤ suc n * dev_size_step))
            k reg (some request) device_id (h, omega arith) in
        ((xs, fd32_dev_replace-Represents reg xs r k request device_id), kept.0, kept.1)

    calls-IsKept :
        (cs : List (Call R)) (reg : Registry R) (s : S) (n : ℕ)
        → CanGrow ((n + length cs) * dev_size_step)
        → IsKept n (reg, s)
        → Returns (IsKept (n + length cs)) (calls cs reg s)
    unfolding calls
    calls-IsKept [] reg s n can h = subst (λ m. IsKept m (reg, s)) (omega arith) h
    calls-IsKept (c ∷ rest) reg s n can h =
        let p = call-IsKept c reg s n (omega arith) h in
        let more : suc n + length rest ≡ n + suc (length rest) = omega arith in
        elim (Option-cases (call c reg s)) [
          | inl e ↦ elim (subst (λ o. Returns (IsKept (suc n)) o) e p) [ ]
          | inr (t, e) ↦
              rw (e, calls)
                (subst (λ m. Returns (IsKept m) (calls rest (t.0) (t.1))) more
                  (calls-IsKept rest (t.0) (t.1) (suc n) (omega arith)
                    (subst (λ o. Returns (IsKept (suc n)) o) e p)))
        ]

    -- From an empty registry and a sound state of the memory manager, any sequence of up to 10,000,000
    -- registrations, removals and replacements with request functions that are not NULL runs to its end;
    -- the links are then those of a list of the devices without repetition, the array is in a block of
    -- the memory manager, and it has at most 20 entries for each call.
    pub calls-Represents :
        (cs : List (Call R)) (s : S)
        → length cs ≤ 10000000
        → laws.IsSound s
        → Returns
            (λ r.
              ((xs : List ℕ) × Represents (r.0) xs)
              × IsStored mem laws (r.0) (r.1)
              × (r.0.dev_size ≤ length cs * dev_size_step))
            (calls cs no_devices s)
    calls-Represents cs s few sound =
        subst (λ m. Returns (IsKept m) (calls cs no_devices s)) (omega arith)
          (calls-IsKept cs no_devices s 0 (omega arith) (
            (
              [],
              record {
                size = refl;
                chain = (refl, refl);
                distinct = tt;
                listed = λ k e. absurd (true≢false (sym e));
              },
            ),
            (sound, λ n. absurd (n refl)),
            omega arith,
          ))
