-- ===== src/Devices/Register.antt =====
-- fd32_dev_register of fd32/devices/devices.c puts a device at the end of the list.
use free_dos.Common.{
  ℕ, ◌+◌, ◌≤◌, ◌<◌, ◌≡◌, ◌≢◌, refl, sym, ap, subst, ◌∙◌, ◌⊎◌, inl, inr, List, ◌∷◌, some, length,
  arith, Bool, true, false, ◌==◌, Bool-cases, true≢false, Option-cases, ==_iff, replicate,
  length-append, Returns, if◌then◌else◌,
}
use free_dos.Common.Errno.{Res, ok, err, enodev, eexist, enomem}
use free_dos.Devices.{
  Device, Registry, device, zeroed, has_request, first_unused, linked, grown, enlarge, placed,
  fd32_dev_register, dev_size_step,
}
use free_dos.Devices.Chain.{Mem}
use free_dos.Devices.Links.{identity}
use free_dos.Devices.Linked.{device-append, first_unused_lem, grown-Represents, linked-Represents}
use free_dos.Memory.Ops.{MemOps, MemLaws}
use free_dos.Devices.Room.{CanGrow, IsStored, Enlarged, enlarge-Returns}
use free_dos.Devices.Order.{Represents, find_name, find_name-cases, fd32_dev_search_lem}

module _ {S R : Type 0} (mem : MemOps S) (laws : MemLaws mem) (request : R) (device_id : ℕ)
    (name : List ℕ) (reg : Registry R) (xs : List ℕ) where
  -- The new device is at `k`, which was free, and the last one; nothing else changed but for the links.
  pub record IsAdded (k : ℕ) (r : Registry R × S) : Type 0 where
    pub fresh : ¬ Mem k xs
    pub order : Represents r.0 (k ∷ xs)
    pub new : identity (device (r.0.devices) k) ≡ (some request, device_id, name)
    pub others :
        (j : ℕ) → j ≢ k → identity (device (r.0.devices) j) ≡ identity (device reg.devices j)
    pub stored : IsStored mem laws (r.0) (r.1)
    pub size_bound : r.0.dev_size ≤ reg.dev_size + dev_size_step

  -- No entry is free, and there is no memory for more.
  pub record IsFull (r : Registry R × S) : Type 0 where
    pub same : r.0 ≡ reg
    pub all_used : (k : ℕ) → k < reg.dev_size → Mem k xs
    pub stored : IsStored mem laws reg (r.1)

  abbrev pub IsPlaced : Res ℕ × Registry R × S → Type 0
  IsPlaced r =
      ((k : ℕ) × (r.0 ≡ ok k) × IsAdded k (r.1, r.2)) ⊎ ((r.0 ≡ err enomem) × IsFull (r.1, r.2))

  module _ (o : Represents reg xs) (s : S) (h : IsStored mem laws reg s)
      (can : CanGrow reg.dev_size) where
    abbrev k : ℕ
    k = first_unused reg.devices

    added :
        (reg' : Registry R) (s' : S)
        → Represents reg' xs
        → ((j : ℕ) → device reg'.devices j ≡ device reg.devices j)
        → k < length reg'.devices
        → IsStored mem laws reg' s'
        → reg'.dev_size ≤ reg.dev_size + dev_size_step
        → IsAdded k (linked k (some request) device_id name reg', s')
    unfolding linked
    added reg' s' o' same l h' bound =
        let (le, unused, below) = first_unused_lem reg.devices in
        let (fresh, order, new, others) =
          linked-Represents reg' xs o' k request device_id name l
            (ap (λ (d : Device R). has_request d.request) (same k) ∙ unused) in
        record {
          fresh = fresh;
          order = order;
          new = new;
          others = λ j n. others j n ∙ ap (λ (d : Device R). identity d) (same j);
          stored = h';
          size_bound = bound;
        }

    after_enlarge :
        (x : Bool × Registry R × S)
        → Enlarged mem laws reg x
        → k ≡ reg.dev_size
        → Returns IsPlaced (
            let (got, reg', s') = x in
            if got
            then some (ok k, linked k (some request) device_id name reg', s')
            else some (err enomem, reg', s'))
    after_enlarge (false, reg', s') (e, h') last =
        let (le, unused, below) = first_unused_lem reg.devices in
        inr (
          refl,
          record { same = e; all_used = λ j l. o.listed j (below j (omega arith)); stored = h' },
        )
    after_enlarge (true, reg', s') ((place, e), h') last = inl (
      k,
      refl,
      subst (λ g. IsStored mem laws g s' → IsAdded k (linked k (some request) device_id name g, s'))
          (sym e)
          (λ h''.
            added (grown place reg) s' (grown-Represents reg xs o place)
              (device-append reg.devices dev_size_step)
              (omega (arith, o.size, length-append reg.devices (replicate dev_size_step zeroed)))
              h'' (omega arith))
          h',
    )

    placed-Returns : Returns IsPlaced (placed mem (some request) device_id name reg s)
    unfolding placed
    placed-Returns =
        let (le, unused, below) = first_unused_lem reg.devices in
        elim (Bool-cases (k == reg.dev_size)) [
          | inr e ↦
              let other : k ≢ reg.dev_size =
                λ q. true≢false (sym ((==_iff k reg.dev_size).1 q) ∙ e) in
              rw (e, placed)
                (inl (k, refl, added reg s o (λ j. refl) (omega (arith, o.size)) h (omega arith)))
          | inl e ↦
              let big = enlarge-Returns mem laws reg s h can in
              elim (Option-cases (enlarge mem reg s)) [
                | inl f ↦ elim (subst (λ o. Returns (Enlarged mem laws reg) o) f big) [ ]
                | inr (x, f) ↦
                    rw (e, f, placed)
                      (after_enlarge x (subst (λ o. Returns (Enlarged mem laws reg) o) f big)
                        ((==_iff k reg.dev_size).0 e))
              ]
        ]

  abbrev pub Outcome :
      (strcasecmp : List ℕ → List ℕ → ℕ) (s : S) (r : Res ℕ × Registry R × S) → Type 0
  Outcome strcasecmp s r =
      ((x : ℕ) × (find_name strcasecmp name reg.devices xs ≡ ok x) × (r ≡ (err eexist, reg, s)))
      ⊎ ((find_name strcasecmp name reg.devices xs ≡ err enodev) × IsPlaced r)

  -- For a registry of the devices `xs`, the last one first, stored in a block of the memory manager,
  -- and with a size that can still grow by 20 entries below 2^32 - 8 bytes, fd32_dev_register with a
  -- request function ends. Where `xs` has a device of that name, the result is -EEXIST and nothing
  -- changes. Otherwise either the result is a handle that was not in `xs`, the registry is one of it in
  -- front of `xs`, with the given function, identifier and name, and those of all other entries are as
  -- they were; or every entry is used, the result is -ENOMEM, and the registry is as it was. The array is
  -- in a block of the memory manager again, and has at most 20 entries more.
  pub fd32_dev_register-Represents :
      (strcasecmp : List ℕ → List ℕ → ℕ) (s : S)
      → Represents reg xs
      → IsStored mem laws reg s
      → CanGrow reg.dev_size
      → Returns
          (Outcome strcasecmp s)
          (fd32_dev_register mem strcasecmp (some request) device_id name reg s)
  unfolding fd32_dev_register
  fd32_dev_register-Represents strcasecmp s o h can =
      let ends = fd32_dev_search_lem strcasecmp name reg xs o in
      elim (find_name-cases strcasecmp name reg.devices xs) [
        | inl (x, e) ↦ rw (ends, e, fd32_dev_register) (inl (x, e, refl))
        | inr e ↦
            let p = placed-Returns o s h can in
            elim (Option-cases (placed mem (some request) device_id name reg s)) [
              | inl f ↦ elim (subst (λ q. Returns IsPlaced q) f p) [ ]
              | inr (r, f) ↦
                  rw (ends, e, f, fd32_dev_register) (inr (e, subst (λ q. Returns IsPlaced q) f p))
            ]
      ]
