-- ===== src/Devices/Tests.antt =====
-- Runs of fd32/devices/devices.c on a registry of three entries, two of them used.
use free_dos.Common.{
  ℕ, zero, suc, ◌*◌, ◌≤◌, length, ◌≡◌, ◌≢◌, ◌↔◌, refl, ◌⊎◌, inl, inr, List, [], ◌∷◌, none, some,
  arith, true, ◌==◌, if◌then◌else◌, Returns,
}
use free_dos.Common.Errno.{ok, err, enodev}
use free_dos.Devices.{
  Registry, device, zeroed, fd32_dev_search, fd32_dev_register, fd32_dev_unregister, fd32_dev_next,
  fd32_dev_prev, no_devices, search_from, dev_size_step,
}
use free_dos.Devices.Chain.{Mem, is_used, remove}
use free_dos.Devices.Links.{identity}
use free_dos.Devices.Order.{Represents, find_name, fd32_dev_search_lem}
use free_dos.Devices.Room.{IsStored}
use free_dos.Pmm.{chunk, pool}
use free_dos.Pmm.Chain.{IsFree, Within}
use free_dos.Memory.{Memory}
use free_dos.Memory.Ops.{kernel_ops, kernel_ops-MemLaws}
use free_dos.Devices.Register.{Outcome, fd32_dev_register-Represents}
use free_dos.Devices.Unregister.{fd32_dev_unregister-Represents}
use free_dos.Devices.Walk.{fd32_dev_next-fd32_dev_prev}
use free_dos.Devices.Run.{Call, register, unregister, replace, calls, calls-Represents}

-- High memory of 64 KB at 4096.
abbrev memory : Memory
memory = record { high_mem_pool = pool 65536 (chunk 4096 65536 ∷ []); dos_mem_pool = pool 0 [] }

-- 0 for texts that are the same.
abbrev pub differ : List ℕ → List ℕ → ℕ
differ [] [] = 0
differ [] (y ∷ ys) = 1
differ (x ∷ xs) [] = 1
differ (x ∷ xs) (y ∷ ys) = let rest = differ xs ys in if x == y then rest else 1

abbrev fda : List ℕ
fda = 102 ∷ (100 ∷ (97 ∷ []))

abbrev hda : List ℕ
hda = 104 ∷ (100 ∷ (97 ∷ []))

abbrev registry : Registry ℕ
registry = record {
  dev_size = 3;
  dev_first = some 2;
  dev_last = some 0;
  place = 64;
  devices =
      record { request = some 7; device_id = 1; name = hda; prev = some 2; next = none }
      ∷ (zeroed
          ∷ (record { request = some 8; device_id = 2; name = fda; prev = none; next = some 0 }
              ∷ []));
}

two_used : (k : ℕ) → is_used registry.devices k ≡ true → Mem k (0 ∷ (2 ∷ []))
two_used zero e = inl refl
two_used (suc zero) e = cc
two_used (suc (suc zero)) e = inr (inl refl)
two_used (suc (suc (suc k))) e = cc

registry-Represents : Represents registry (0 ∷ (2 ∷ []))
registry-Represents = record {
  size = refl;
  chain = (refl, refl, refl, (refl, refl, refl, (refl, refl)));
  distinct = (λ m. elim m [ inl e ↦ omega arith | inr n ↦ n ], ((λ m. m), tt));
  listed = two_used;
}

fd32_dev_search_lem_example :
    fd32_dev_search differ fda registry
    ≡ some (find_name differ fda registry.devices (0 ∷ (2 ∷ [])))
fd32_dev_search_lem_example =
    fd32_dev_search_lem differ fda registry (0 ∷ (2 ∷ [])) registry-Represents

test_search : fd32_dev_search differ fda registry ≡ some (ok 2)
unfolding fd32_dev_search search_from
test_search = refl

memory-IsStored : IsStored kernel_ops kernel_ops-MemLaws registry memory
unfolding kernel_ops-MemLaws
memory-IsStored =
    (omega arith, λ n. (omega arith, omega arith, omega arith, λ a w f. outside a w f))
  where
    outside : (a : ℕ) → Within 64 64 a → ¬ IsFree (chunk 4096 65536 ∷ []) a
    outside a w (inl f) = omega arith
    outside a w (inr f) = f

memory-IsSound : kernel_ops-MemLaws.IsSound memory
unfolding kernel_ops-MemLaws
memory-IsSound = omega arith

fd32_dev_register-Represents_example :
    Returns
      (Outcome kernel_ops kernel_ops-MemLaws 9 3 (110 ∷ []) registry (0 ∷ (2 ∷ [])) differ memory)
      (fd32_dev_register kernel_ops differ (some 9) 3 (110 ∷ []) registry memory)
fd32_dev_register-Represents_example =
    fd32_dev_register-Represents kernel_ops kernel_ops-MemLaws 9 3 (110 ∷ []) registry
      (0 ∷ (2 ∷ [])) differ memory registry-Represents memory-IsStored (omega arith)

fd32_dev_unregister-Represents_example :
    let r = fd32_dev_unregister 2 registry in
    (Mem 2 (0 ∷ (2 ∷ []))
      × (r.0 ≡ ok 0)
      × Represents (r.1) (remove 2 (0 ∷ (2 ∷ [])))
      × ((k : ℕ)
          → k ≢ 2
          → identity (device (r.1.devices) k) ≡ identity (device registry.devices k)))
    ⊎ ((¬ Mem 2 (0 ∷ (2 ∷ []))) × (r ≡ (err enodev, registry)))
fd32_dev_unregister-Represents_example =
    fd32_dev_unregister-Represents registry (0 ∷ (2 ∷ [])) 2 registry-Represents

fd32_dev_next-fd32_dev_prev_example :
    (fd32_dev_next 2 registry ≡ ok 0) ↔ (fd32_dev_prev 0 registry ≡ ok 2)
fd32_dev_next-fd32_dev_prev_example =
    fd32_dev_next-fd32_dev_prev registry (0 ∷ (2 ∷ [])) 2 0 registry-Represents

abbrev some_calls : List (Call ℕ)
some_calls =
    register 7 1 hda
    ∷ (register 8 2 fda ∷ (unregister 0 ∷ (replace 1 9 3 ∷ (register 5 4 hda ∷ []))))

calls-Represents_example :
    Returns
      (λ r.
        ((xs : List ℕ) × Represents (r.0) xs)
        × IsStored kernel_ops kernel_ops-MemLaws (r.0) (r.1)
        × (r.0.dev_size ≤ length some_calls * dev_size_step))
      (calls kernel_ops differ some_calls no_devices memory)
calls-Represents_example =
    calls-Represents kernel_ops differ kernel_ops-MemLaws some_calls memory (omega arith)
      memory-IsSound
