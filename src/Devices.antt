-- ===== src/Devices.antt =====
-- fd32/devices/devices.c: the registry of devices, a dynamic array with a doubly linked list in it.
pub mod Chain
pub mod Cut
pub mod Links
pub mod Order
pub mod Linked
pub mod Register
pub mod Room
pub mod Run
pub mod Tests
pub mod Unregister
pub mod Walk
use free_dos.Common.{
  ℕ, zero, suc, ◌+◌, ◌*◌, ◌%◌, ◌^◌, Bool, true, false, Option, none, some, ltb, ◌==◌, if◌then◌else◌,
  List, [], ◌∷◌, ◌++◌, get_or, set, take, replicate,
}
use free_dos.Memory.Ops.{MemOps}
use free_dos.Common.Errno.{Res, ok, err, enodev, eexist, enomem}

-- A place in the array: `none` stands for -ENODEV.
abbrev pub Link : Type 0
Link = Option ℕ

-- tDevice: `none` is a request function NULL, and names are the bytes before the 0.
pub record Device (R : Type 0) : Type 0 where
  pub request : Option R
  pub device_id : ℕ
  pub name : List ℕ
  pub prev : Link
  pub next : Link

-- The static variables; `place` is the address of the array, 0 for NULL.
pub record Registry (R : Type 0) : Type 0 where
  pub dev_size : ℕ
  pub dev_first : Link
  pub dev_last : Link
  pub devices : List (Device R)
  pub place : ℕ

-- DEVSIZESTEP, and the bytes of a tDevice.
abbrev pub dev_size_step : ℕ
dev_size_step = 20

abbrev pub device_bytes : ℕ
device_bytes = 20

abbrev pub link_result : Link → Res ℕ
link_result none = err enodev
link_result (some k) = ok k

-- `v` where the link is -ENODEV, and what was there elsewhere.
abbrev pub at_end : Link → Link → Link → Link
at_end none v old = v
at_end (some k) v old = old

module _ {R : Type 0} where
  -- An entry of bytes 0.
  abbrev pub zeroed : Device R
  zeroed = record { request = none; device_id = 0; name = []; prev = some 0; next = some 0 }

  abbrev pub device : List (Device R) → ℕ → Device R
  device devices k = get_or devices k zeroed

  abbrev pub has_request : Option R → Bool
  has_request none = false
  has_request (some r) = true

  abbrev pub is_valid : ℕ → Registry R → Bool
  is_valid handle reg =
      if ltb handle reg.dev_size then has_request ((device reg.devices handle).request) else false

  abbrev pub set_prev : Link → Link → List (Device R) → List (Device R)
  set_prev none v devices = devices
  set_prev (some k) v devices = set devices k (record (device devices k) { prev = v })

  abbrev pub set_next : Link → Link → List (Device R) → List (Device R)
  set_next none v devices = devices
  set_next (some k) v devices = set devices k (record (device devices k) { next = v })

  -- The request function, the identifier and the first `max_name` bytes of the name, filled up with 0.
  pub fd32_dev_get : ℕ → ℕ → Registry R → Res (Option R × ℕ × List ℕ)
  fd32_dev_get handle max_name reg =
      let d = device reg.devices handle in
      if is_valid handle reg
      then ok (d.request, d.device_id, take max_name (d.name ++ replicate max_name 0))
      else err enodev

  pub fd32_dev_first : Registry R → Res ℕ
  fd32_dev_first reg = link_result reg.dev_first

  pub fd32_dev_last : Registry R → Res ℕ
  fd32_dev_last reg = link_result reg.dev_last

  pub fd32_dev_next : ℕ → Registry R → Res ℕ
  fd32_dev_next handle reg =
      if is_valid handle reg then link_result ((device reg.devices handle).next) else err enodev

  pub fd32_dev_prev : ℕ → Registry R → Res ℕ
  fd32_dev_prev handle reg =
      if is_valid handle reg then link_result ((device reg.devices handle).prev) else err enodev

  pub unlinked : ℕ → Registry R → Registry R
  unlinked handle reg =
      let d = device reg.devices handle in
      record reg {
        devices =
            set_prev d.next d.prev
              (set_next d.prev d.next (set reg.devices handle (record d { request = none })));
        dev_first = at_end d.prev d.next reg.dev_first;
        dev_last = at_end d.next d.prev reg.dev_last;
      }

  pub fd32_dev_unregister : ℕ → Registry R → Res ℕ × Registry R
  unfolding unlinked
  fd32_dev_unregister handle reg =
      if is_valid handle reg then (ok 0, unlinked handle reg) else (err enodev, reg)

  pub fd32_dev_replace : ℕ → Option R → ℕ → Registry R → Res ℕ × Registry R
  fd32_dev_replace handle request device_id reg =
      let d = device reg.devices handle in
      if is_valid handle reg
      then (
        ok 0,
        record reg {
          devices = set reg.devices handle (record d { request = request; device_id = device_id });
        },
      )
      else (err enodev, reg)

  abbrev pub or_next : Option R → ℕ → ℕ
  or_next none n = 0
  or_next (some r) n = suc n

  -- The loop over the entries for one that is not used.
  pub first_unused : List (Device R) → ℕ
  first_unused [] = 0
  first_unused (d ∷ rest) = or_next d.request (first_unused rest)

  -- The entry `k` is filled and becomes the last one.
  pub linked : ℕ → Option R → ℕ → List ℕ → Registry R → Registry R
  linked k request device_id name reg = record reg {
    devices = set_next reg.dev_last (some k) (
        set reg.devices k (record {
          request = request;
          device_id = device_id;
          name = name;
          prev = reg.dev_last;
          next = none;
        }));
    dev_first = at_end reg.dev_last (some k) reg.dev_first;
    dev_last = some k;
  }

  -- The array at its new place, with more entries of bytes 0.
  abbrev pub grown : ℕ → Registry R → Registry R
  grown place reg = record reg {
    devices = reg.devices ++ replicate dev_size_step zeroed;
    dev_size = reg.dev_size + dev_size_step;
    place = place;
  }

module _ {R : Type 0} (strcasecmp : List ℕ → List ℕ → ℕ) where
  -- On fuel; `none` is that it ran out.
  pub search_from : ℕ → List ℕ → List (Device R) → Link → Option (Res ℕ)
  search_from zero name devices k = none
  search_from (suc fuel) name devices none = some (err enodev)
  search_from (suc fuel) name devices (some k) =
      let rest = search_from fuel name devices ((device devices k).prev) in
      if strcasecmp ((device devices k).name) name == 0 then some (ok k) else rest

  -- More rounds than the array has entries.
  pub fd32_dev_search : List ℕ → Registry R → Option (Res ℕ)
  unfolding search_from
  fd32_dev_search name reg = search_from (suc reg.dev_size) name reg.devices reg.dev_last

module _ {S : Type 0} (mem : MemOps S) where
  -- The array that was there is given back; there is none before the first device.
  abbrev pub free_old : ℕ → ℕ → S → Option S
  free_old place bytes s =
      if place == 0
      then some s
      else elim (mem.mem_free place bytes s) [ none ↦ none | some r ↦ some (r.1) ]

module _ {S R : Type 0} (mem : MemOps S) where
  -- Room for another device; `none` is that mem_free aborts.
  pub enlarge : Registry R → S → Option (Bool × Registry R × S)
  enlarge reg s =
      let got = mem.mem_get ((reg.dev_size + dev_size_step) * device_bytes % 2 ^ 32) s in
      if got.0 == 0
      then some (false, reg, got.1)
      else elim (free_old mem reg.place (reg.dev_size * device_bytes % 2 ^ 32) (got.1)) [
        | none ↦ none
        | some s' ↦ some (true, grown (got.0) reg, s')
      ]

  -- A device is put in the first entry that is not used.
  pub placed : Option R → ℕ → List ℕ → Registry R → S → Option (Res ℕ × Registry R × S)
  unfolding first_unused linked enlarge
  placed request device_id name reg s =
      let k = first_unused reg.devices in
      if k == reg.dev_size
      then elim (enlarge reg s) [
        | none ↦ none
        | some (got, reg', s') ↦
            if got
            then some (ok k, linked k request device_id name reg', s')
            else some (err enomem, reg', s')
      ]
      else some (ok k, linked k request device_id name reg, s)

module _ {S R : Type 0} (mem : MemOps S) (strcasecmp : List ℕ → List ℕ → ℕ) where
  pub fd32_dev_register : Option R → ℕ → List ℕ → Registry R → S → Option (Res ℕ × Registry R × S)
  unfolding fd32_dev_search placed
  fd32_dev_register request device_id name reg s = elim (fd32_dev_search strcasecmp name reg) [
    | none ↦ none
    | some (ok k) ↦ some (err eexist, reg, s)
    | some (err e) ↦ placed mem request device_id name reg s
  ]

-- Before the first registration.
abbrev pub no_devices : {R : Type 0} → Registry R
no_devices = record { dev_size = 0; dev_first = none; dev_last = none; devices = []; place = 0 }
