-- ===== src/Keyb/Flags/Release.antt =====
-- The state of the modifier keys in fd32/modules/keyb/src/keyb.c, and what a release does to keyb_flag.
use free_dos.Common.{
  ℕ, zero, suc, ◌+◌, ◌-◌, ◌/◌, ◌%◌, ◌^◌, ◌≤◌, ◌<◌, ◌≡◌, ◌⊎◌, ◌||◌, Bool, false, arith,
}
use free_dos.Keyb.Flags.{
  KeybStdStatus, Keyboard, mk_ctrl, mk_alt, break, keyb_send_cmd, keyb_ack_handler, press, release,
  preprocess,
}
use Prim.Native.Nat.{bit_and, bit_and-bitwise, digits, min}

-- ctrl, alt and shift say whether a key of the kind is down.
abbrev pub IsStatus : KeybStdStatus → Type 0
IsStatus st =
    (st.ctrl ≡ (st.lctrl || st.rctrl))
    × (st.alt ≡ (st.lalt || st.ralt))
    × (st.shift ≡ (st.lshift || st.rshift))

min_le : (a b : ℕ) → min a b ≤ b
min_le a b = omega arith

digits_le : (n a b : ℕ) → digits (λ b. zero) min n a b ≤ b
digits_le zero a b = omega arith
digits_le (suc n) zero b = omega arith
digits_le (suc n) (suc a) b =
    omega (arith, digits_le n (suc a / 2) (b / 2), min_le (suc a % 2) (b % 2))

bit_and_le : (a b : ℕ) → bit_and a b ≤ b
bit_and_le a b = rw (bit_and-bitwise a b) (digits_le a a b)

module _ {D : Type 0} (keyb_write : ℕ → D → Bool × D) where
  press-IsStatus :
      (code : ℕ) (ext : Bool) (k : Keyboard D)
      → IsStatus k.stdst
      → IsStatus ((press keyb_write code ext k).stdst)
  unfolding press keyb_send_cmd
  press-IsStatus code ext k h = ground arith

  release-IsStatus :
      (code : ℕ) (ext : Bool) (k : Keyboard D)
      → IsStatus k.stdst
      → IsStatus ((release keyb_write code ext k).stdst)
  unfolding release
  release-IsStatus code ext k h = ground arith

  -- For a state of the modifier keys in which ctrl, alt and shift say whether a key of the kind is
  -- down: after preprocess of any code they still do.
  pub preprocess-IsStatus :
      (code : ℕ) (k : Keyboard D)
      → IsStatus k.stdst
      → IsStatus ((preprocess keyb_write code k).1.stdst)
  unfolding preprocess keyb_ack_handler
  preprocess-IsStatus code k h = ground (
    arith,
    press-IsStatus code (k.e0_keycode) (record k { e0_keycode = false }),
    release-IsStatus (code - break) (k.e0_keycode) (record k { e0_keycode = false }),
  )

  -- A defect: the release of a Ctrl key leaves at most the bits below 8 in keyb_flag, and the release
  -- of an Alt key those below 16: the state of the lock keys, which is in bits 4 to 6, is lost there,
  -- though the state in stdst is as it was.
  pub preprocess-keyb_flag :
      (code : ℕ) (k : Keyboard D)
      → (code ≡ break + mk_ctrl) ⊎ (code ≡ break + mk_alt)
      → let r = (preprocess keyb_write code k).1 in
        (r.keyb_flag < 16)
        × (code ≡ break + mk_ctrl → r.keyb_flag < 8)
        × (r.stdst.numlk_active ≡ k.stdst.numlk_active)
        × (r.stdst.capslk_active ≡ k.stdst.capslk_active)
        × (r.stdst.scrlk_active ≡ k.stdst.scrlk_active)
  unfolding preprocess release
  preprocess-keyb_flag code k h = ground (
    arith,
    bit_and_le k.keyb_flag 3,
    bit_and_le k.keyb_flag 7,
    bit_and_le k.keyb_flag 15,
    bit_and_le (bit_and k.keyb_flag (2 ^ 16 - 1 - 0x100)) 3,
    bit_and_le (bit_and k.keyb_flag (2 ^ 16 - 1 - 0x100)) 7,
    bit_and_le (bit_and k.keyb_flag (2 ^ 16 - 1 - 0x200)) 7,
    bit_and_le (bit_and k.keyb_flag (2 ^ 16 - 1 - 0x200)) 15,
  )
