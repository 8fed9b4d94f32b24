-- ===== src/Drives/Mount.antt =====
-- A drive of fd32/filesys/drives.c is mounted once.
use free_dos.Common.{
  ℕ, zero, suc, ◌-◌, ◌<◌, ◌≡◌, refl, sym, ap, subst, ◌∙◌, inl, inr, List, [], ◌∷◌, Option, none,
  some, length, get_or, set, arith, ltb, Bool-cases, Option-cases, get_or-set_self, if◌then◌else◌,
}
use free_dos.Common.Errno.{Res, ok, err, enodev}
use free_dos.Drives.{
  Drive, Table, MountOps, no_drive, mount_loop, mount_drive, mounted_by, mounted, with_path,
  of_letter, fd32_get_drive, letter_and_path, letter_a,
}

named_lt :
    {R : Type 0} (ds : List (Drive R)) (i : ℕ) (name : List ℕ)
    → (get_or ds i no_drive).blk_name ≡ some name
    → i < length ds
named_lt [] i name e = cc
named_lt (d ∷ ds) zero name e = omega arith
named_lt (d ∷ ds) (suc i) name e = omega (arith, named_lt ds i name e)

err_ok : {A : Type 0} {e : ℕ} {a : A} → ◌≡◌ {A = Res A} (err e) (ok a) → ⊥
err_ok e = cc

some_injective : {A : Type 0} {a b : A} → some a ≡ some b → a ≡ b
some_injective e = cc

none≢some : {A : Type 0} {a : A} → ◌≡◌ {A = Option A} none (some a) → ⊥
none≢some e = cc

ok_ok : {A : Type 0} {a b : A} → ok a ≡ ok b → a ≡ b
ok_ok e = cc

module _ {S R : Type 0} (ops : MountOps S R) where
  abbrev Outcome : Type 0
  Outcome = Res (R × ℕ) × Table R × S

  -- A drive with a name and a request function is mounted.
  mounted_is :
      (i : ℕ) (t : Table R) (s : S) (name : List ℕ) (r : R)
      → (get_or t.drives i no_drive).blk_name ≡ some name
      → (get_or t.drives i no_drive).req ≡ some r
      → mounted ops i t s ≡ (ok (r, (get_or t.drives i no_drive).handle), t, s)
  unfolding mounted mounted_by
  mounted_is i t s name r n q =
      let d = get_or t.drives i no_drive in
      ap (λ o. mounted_by ops o d.req i d t s) n ∙ ap (λ o. mounted_by ops (some name) o i d t s) q

  -- The table after a drive was mounted.
  IsMounted : ℕ → Table R → R × ℕ → Table R → Type 0
  IsMounted i t x t' =
      ((s : S) → mounted ops i t' s ≡ (ok x, t', s)) × (t'.default_drive ≡ t.default_drive)

  mount_drive_again :
      (i : ℕ) (t : Table R) (name : List ℕ) (q : Res (R × ℕ) × S) (x : R × ℕ) (t' : Table R)
      (s' : S)
      → (get_or t.drives i no_drive).blk_name ≡ some name
      → mount_drive ops i (get_or t.drives i no_drive) t q ≡ (ok x, t', s')
      → IsMounted i t x t'
  unfolding IsMounted mount_drive
  mount_drive_again i t name (err e, s) x t' s' n h = absurd (err_ok (ap (λ o. o.0) h))
  mount_drive_again i t name (ok (r, handle), s) x t' s' n h =
      let d = get_or t.drives i no_drive in
      let d' : Drive R = record d { req = some r; handle = handle } in
      let u : Table R = record t { drives = set t.drives i d' } in
      let here : get_or u.drives i no_drive ≡ d' =
        get_or-set_self t.drives i d' no_drive (named_lt t.drives i name n) in
      subst (λ w. IsMounted i t w t') (ok_ok (ap (λ o. o.0) h))
        (subst (λ w. IsMounted i t (r, handle) w) (ap (λ o. o.1) h)
          (
            λ z.
                mounted_is i u z name r (ap (λ (w : Drive R). w.blk_name) here ∙ n)
                  (ap (λ (w : Drive R). w.req) here)
                ∙ ap (λ (w : Drive R). (ok (r, w.handle), u, z)) here,
            refl,
          ))

  mounted_again :
      (i : ℕ) (t : Table R) (s : S) (x : R × ℕ) (t' : Table R) (s' : S)
      → mounted ops i t s ≡ (ok x, t', s')
      → IsMounted i t x t'
  unfolding IsMounted mounted mounted_by
  mounted_again i t s x t' s' h =
      let d = get_or t.drives i no_drive in
      elim (Option-cases (d.blk_name)) [
        | inl n ↦
            let e : (err enodev, t, s) ≡ (ok x, t', s') =
              sym (ap (λ o. mounted_by ops o d.req i d t s) n) ∙ h in
            absurd (err_ok (ap (λ o. o.0) e))
        | inr (name, n) ↦ elim (Option-cases (d.req)) [
          | inr (r, q) ↦
              let e : (ok (r, d.handle), t, s) ≡ (ok x, t', s') =
                sym (mounted_is i t s name r n q) ∙ h in
              subst (λ w. IsMounted i t w t') (ok_ok (ap (λ o. o.0) e))
                (subst (λ w. IsMounted i t (r, d.handle) w) (ap (λ o. o.1) e)
                  (λ z. mounted_is i t z name r n q, refl))
          | inl q ↦ mount_drive_again i t name (mount_loop ops t.fsreq name s) x t' s' n (
              sym (
                ap (λ o. mounted_by ops o d.req i d t s) n
                ∙ ap (λ o. mounted_by ops (some name) o i d t s) q)
              ∙ h)
        ]
      ]

  with_path_inv :
      (letter : ℕ) (path : List ℕ) (q : Outcome) (x : ℕ × R × ℕ × List ℕ) (t' : Table R) (s' : S)
      → with_path ops letter path q ≡ some (ok x, t', s')
      → (y : R × ℕ) × (q ≡ (ok y, t', s')) × ((letter, y.0, y.1, path) ≡ x)
  unfolding with_path
  with_path_inv letter path (err e, t, s) x t' s' h =
      absurd (err_ok (ap (λ o. o.0) (some_injective h)))
  with_path_inv letter path (ok (r, handle), t, s) x t' s' h = (
    (r, handle),
    ap (λ (o : Res (ℕ × R × ℕ × List ℕ) × Table R × S). (ok (r, handle), o.1, o.2))
        (some_injective h),
    ok_ok (ap (λ o. o.0) (some_injective h)),
  )

  of_letter_again :
      (q : Res (ℕ × List ℕ)) (t : Table R) (s : S) (x : ℕ × R × ℕ × List ℕ) (t' : Table R)
      (s' z : S)
      → of_letter ops q t s ≡ some (ok x, t', s')
      → (of_letter ops q t' z ≡ some (ok x, t', z)) × (t'.default_drive ≡ t.default_drive)
  unfolding of_letter IsMounted with_path
  of_letter_again (err e) t s x t' s' z h = absurd (err_ok (ap (λ o. o.0) (some_injective h)))
  of_letter_again (ok (letter, path)) t s x t' s' z h = elim (Bool-cases (ltb letter letter_a)) [
    | inl e ↦ absurd (
        none≢some (
          sym (
            ap
              (λ b.
                if b then none else with_path ops letter path (mounted ops (letter - letter_a) t s))
              e)
          ∙ h))
    | inr e ↦
        let inner =
          sym (
            ap
              (λ b.
                if b then none else with_path ops letter path (mounted ops (letter - letter_a) t s))
              e)
          ∙ h in
        let (y, m, p) =
          with_path_inv letter path (mounted ops (letter - letter_a) t s) x t' s' inner in
        let (again, same) = mounted_again (letter - letter_a) t s y t' s' m in
        (
          ap
                (λ b.
                  if b
                  then none
                  else with_path ops letter path (mounted ops (letter - letter_a) t' z))
                e
              ∙ ap (λ o. with_path ops letter path o) (again z)
              ∙ ap (λ w. some (ok w, t', z)) p,
          same,
        )
  ]

  -- Where fd32_get_drive has returned a drive, it returns the same letter, request function, handle and
  -- path for the same name from the table that it left, in any state of the file systems: it mounts
  -- nothing again, and changes neither the table nor that state.
  pub fd32_get_drive-fd32_get_drive :
      (toupper : ℕ → ℕ) (spec : List ℕ) (t : Table R) (s : S) (x : ℕ × R × ℕ × List ℕ)
      (t' : Table R) (s' z : S)
      → fd32_get_drive ops toupper spec t s ≡ some (ok x, t', s')
      → fd32_get_drive ops toupper spec t' z ≡ some (ok x, t', z)
  unfolding fd32_get_drive
  fd32_get_drive-fd32_get_drive toupper spec t s x t' s' z h =
      let (again, same) =
        of_letter_again (letter_and_path toupper spec t.default_drive) t s x t' s' z h in
      ap (λ l. of_letter ops (letter_and_path toupper spec l) t' z) same ∙ again
