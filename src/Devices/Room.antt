-- ===== src/Devices/Room.antt =====
-- The array of fd32/devices/devices.c in memory: it is enlarged, and the old one is given back.
use free_dos.Common.{
  ℕ, ◌+◌, ◌-◌, ◌*◌, ◌%◌, ◌^◌, ◌≤◌, arith, ◌≡◌, ◌≢◌, refl, sym, subst, ◌∙◌, inl, inr, Bool, true,
  false, ◌==◌, Bool-cases, true≢false, Option-cases, ==_iff, Returns,
}
use free_dos.Memory.Ops.{MemOps, MemLaws, CanRound}
use free_dos.Devices.{Registry, grown, enlarge, free_old, dev_size_step, device_bytes}

abbrev pub bytes_of : ℕ → ℕ
bytes_of n = n * device_bytes % 2 ^ 32

-- The size of an array with more entries can be rounded up without wrapping.
abbrev pub CanGrow : ℕ → Type 0
CanGrow n = (n + dev_size_step) * device_bytes ≤ 2 ^ 32 - 8

module _ {S R : Type 0} (mem : MemOps S) (laws : MemLaws mem) where
  open laws use {IsSound, Held, get_fails, get_held, get_free}

  -- The array is a block of the memory manager, where there is one.
  abbrev pub IsStored : Registry R → S → Type 0
  IsStored reg s = IsSound s × (reg.place ≢ 0 → Held reg.place (bytes_of reg.dev_size) s)

  abbrev pub Enlarged : Registry R → Bool × Registry R × S → Type 0
  Enlarged reg (false, reg', s') = (reg' ≡ reg) × IsStored reg s'
  Enlarged reg (true, reg', s') = ((place : ℕ) × (reg' ≡ grown place reg)) × IsStored reg' s'

  module _ (reg : Registry R) (s : S) (stored : IsStored reg s) (can : CanGrow reg.dev_size) where
    abbrev want : ℕ
    want = bytes_of (reg.dev_size + dev_size_step)

    abbrev got : ℕ
    got = (mem.mem_get want s).0

    want-CanRound : CanRound want
    want-CanRound = omega arith

    abbrev Fresh : S → Type 0
    Fresh t = IsSound t × Held got want t

    old_given_back :
        got ≢ 0
        → Returns Fresh (free_old mem reg.place (bytes_of reg.dev_size) ((mem.mem_get want s).1))
    old_given_back n = elim (Bool-cases (reg.place == 0)) [
      | inl e ↦ rw (e, free_old) (get_held want s stored.0 want-CanRound n)
      | inr e ↦
          let there : reg.place ≢ 0 = λ q. true≢false (sym ((==_iff reg.place 0).1 q) ∙ e) in
          let old = bytes_of reg.dev_size in
          let kept = get_free want reg.place old s stored.0 want-CanRound (stored.1 there) n in
          rw (e, free_old)
            (elim (Option-cases (mem.mem_free reg.place old ((mem.mem_get want s).1))) [
              | inl f ↦ elim (subst (λ o. Returns (λ r. Fresh (r.1)) o) f kept) [ ]
              | inr (r, f) ↦ rw f (subst (λ o. Returns (λ r. Fresh (r.1)) o) f kept)
            ])
    ]

    pub enlarge-Returns : Returns (Enlarged reg) (enlarge mem reg s)
    unfolding enlarge
    enlarge-Returns = elim (Bool-cases (got == 0)) [
      | inl e ↦
          rw (e, enlarge)
            (
              refl,
              subst (λ t. IsStored reg t) (sym (get_fails want s stored.0 ((==_iff got 0).0 e)))
                  stored,
            )
      | inr e ↦
          let there : got ≢ 0 = λ q. true≢false (sym ((==_iff got 0).1 q) ∙ e) in
          let freed = old_given_back there in
          elim (Option-cases
            (free_old mem reg.place (bytes_of reg.dev_size) ((mem.mem_get want s).1))) [
              | inl f ↦ elim (subst (λ o. Returns Fresh o) f freed) [ ]
              | inr (t, f) ↦
                  let fresh = subst (λ o. Returns Fresh o) f freed in
                  rw (e, f, enlarge) ((got, refl), (fresh.0, λ n. fresh.1))
            ]
    ]
