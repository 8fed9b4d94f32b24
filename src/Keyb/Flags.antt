-- ===== src/Keyb/Flags.antt =====
-- fd32/modules/keyb/src/keyb.c: `preprocess`, which keeps the state of the shift and lock keys, and the
-- commands to the keyboard.
pub mod Release
use free_dos.Common.{
  ℕ, zero, suc, ◌+◌, ◌-◌, ◌*◌, ◌/◌, ◌%◌, ◌^◌, ◌==◌, ◌||◌, not, if◌then◌else◌, Bool, true, false,
  ltb,
}
use free_dos.Keyb.Queues.{Queues, rawqueue_put}
use Prim.Native.Nat.{bit_and, bit_or, bit_xor}

-- union keyb_std_status, the bits that `preprocess` writes.
pub record KeybStdStatus : Type 0 where
  pub rshift : Bool
  pub lshift : Bool
  pub ctrl : Bool
  pub alt : Bool
  pub scrlk_active : Bool
  pub numlk_active : Bool
  pub capslk_active : Bool
  pub lctrl : Bool
  pub lalt : Bool
  pub rctrl : Bool
  pub ralt : Bool
  pub shift : Bool

-- The variables of keyb.c and the fields of bios_da that they go with. `port` is the keyboard
-- controller.
pub record Keyboard (D : Type 0) : Type 0 where
  pub stdst : KeybStdStatus
  pub ack_left : ℕ
  pub ack_cmd : ℕ
  pub led_state : ℕ
  pub e0_keycode : Bool
  pub keyb_flag : ℕ
  pub keyb_mode : ℕ
  pub keyb_led : ℕ
  pub queues : Queues
  pub port : D

-- The make codes and the flags of key.h.
abbrev pub mk_ctrl : ℕ
mk_ctrl = 0x1D

abbrev pub mk_lshift : ℕ
mk_lshift = 0x2A

abbrev pub mk_rshift : ℕ
mk_rshift = 0x36

abbrev pub mk_alt : ℕ
mk_alt = 0x38

abbrev pub mk_caps : ℕ
mk_caps = 0x3A

abbrev pub mk_numlk : ℕ
mk_numlk = 0x45

abbrev pub mk_scrlk : ℕ
mk_scrlk = 0x46

abbrev pub mk_sysrq : ℕ
mk_sysrq = 0x54

abbrev pub mk_insert : ℕ
mk_insert = 0x52

abbrev pub break : ℕ
break = 0x80

-- `x &= ~m` on a WORD.
abbrev pub clear : ℕ → ℕ → ℕ
clear m x = bit_and x (2 ^ 16 - 1 - m)

-- `x &= ~(m * ~b)` for a bit `b`, which is promoted to int: `~b` is -1 or -2, so `m * ~b` is -m or
-- -2m, and the complement is m - 1 or 2m - 1.
abbrev pub keep_below : ℕ → Bool → ℕ → ℕ
keep_below m b x = bit_and x (if b then 2 * m - 1 else m - 1)

-- keyb_write: waits for the controller and writes the byte; `false` where it does not get ready.
module _ {D : Type 0} (keyb_write : ℕ → D → Bool × D) where
  pub keyb_send_cmd : ℕ → Keyboard D → Keyboard D
  keyb_send_cmd cmd k =
      let r = keyb_write cmd k.port in
      if k.ack_left == 0
      then (if r.0
          then record k { port = r.1; ack_left = 2; ack_cmd = cmd }
          else record k { port = r.1 })
      else k

  -- fd32_error, which only prints, where no acknowledgement is awaited. The one command of the table
  -- is 0xED, with the LED state.
  pub keyb_ack_handler : Keyboard D → Keyboard D
  keyb_ack_handler k =
      if k.ack_left == 2
      then (if k.ack_cmd == 0xED
          then record k { port = (keyb_write k.led_state k.port).1; ack_left = 1 }
          else record k { ack_left = 1 })
      else if k.ack_left == 1
      then record k { ack_left = 0 }
      else k

  -- The state of a lock key is switched, and the LEDs are set.
  abbrev pub lock_key : KeybStdStatus → ℕ → ℕ → ℕ → Keyboard D → Keyboard D
  lock_key st flag active led k =
      let leds = bit_xor k.keyb_led led in
      keyb_send_cmd 0xED (record k {
        stdst = st;
        keyb_flag = bit_xor (bit_or k.keyb_flag flag) active;
        keyb_led = leds;
        led_state = bit_and leds 7;
      })

  -- `ext`: the code follows 0xE0.
  pub press : ℕ → Bool → Keyboard D → Keyboard D
  unfolding keyb_send_cmd
  press code ext k =
      if code == mk_ctrl
      then (if ext
          then record k {
            stdst = record k.stdst { ctrl = true; rctrl = true };
            keyb_flag = bit_or k.keyb_flag 0x4;
            keyb_mode = bit_or k.keyb_mode 0x4;
          }
          else record k {
            stdst = record k.stdst { ctrl = true; lctrl = true };
            keyb_flag = bit_or (bit_or k.keyb_flag 0x4) 0x100;
          })
      else if code == mk_lshift
      then record k {
        stdst = record k.stdst { shift = true; lshift = true };
        keyb_flag = bit_or k.keyb_flag 0x2;
      }
      else if code == mk_rshift
      then record k {
        stdst = record k.stdst { shift = true; rshift = true };
        keyb_flag = bit_or k.keyb_flag 0x1;
      }
      else if code == mk_alt
      then (if ext
          then record k {
            stdst = record k.stdst { alt = true; ralt = true };
            keyb_flag = bit_or k.keyb_flag 0x8;
            keyb_mode = bit_or k.keyb_mode 0x8;
          }
          else record k {
            stdst = record k.stdst { alt = true; lalt = true };
            keyb_flag = bit_or (bit_or k.keyb_flag 0x8) 0x200;
          })
      else if code == mk_caps
      then lock_key (record k.stdst { capslk_active = not k.stdst.capslk_active }) 0x4000 0x40 0x4 k
      else if code == mk_numlk
      then lock_key (record k.stdst { numlk_active = not k.stdst.numlk_active }) 0x2000 0x20 0x2 k
      else if code == mk_scrlk
      then lock_key (record k.stdst { scrlk_active = not k.stdst.scrlk_active }) 0x1000 0x10 0x1 k
      else if code == mk_sysrq
      then record k { keyb_flag = bit_or k.keyb_flag 0x400 }
      else k

  -- `code` without its break bit.
  pub release : ℕ → Bool → Keyboard D → Keyboard D
  release code ext k =
      let left_up = record k.stdst { lctrl = false; ctrl = k.stdst.rctrl } in
      let right_up = record k.stdst { rctrl = false; ctrl = k.stdst.lctrl } in
      let left_alt_up = record k.stdst { lalt = false; alt = k.stdst.ralt } in
      let right_alt_up = record k.stdst { ralt = false; alt = k.stdst.lalt } in
      if code == mk_ctrl
      then (if ext
          then record k {
            stdst = right_up;
            keyb_mode = clear 0x4 k.keyb_mode;
            keyb_flag = keep_below 0x4 right_up.ctrl k.keyb_flag;
          }
          else record k {
            stdst = left_up;
            keyb_flag = keep_below 0x4 left_up.ctrl (clear 0x100 k.keyb_flag);
          })
      else if code == mk_lshift
      then record k {
        stdst = record k.stdst { lshift = false; shift = k.stdst.rshift };
        keyb_flag = clear 0x2 k.keyb_flag;
      }
      else if code == mk_rshift
      then record k {
        stdst = record k.stdst { rshift = false; shift = k.stdst.lshift };
        keyb_flag = clear 0x1 k.keyb_flag;
      }
      else if code == mk_alt
      then (if ext
          then record k {
            stdst = right_alt_up;
            keyb_mode = clear 0x8 k.keyb_mode;
            keyb_flag = keep_below 0x8 right_alt_up.alt k.keyb_flag;
          }
          else record k {
            stdst = left_alt_up;
            keyb_flag = keep_below 0x8 left_alt_up.alt (clear 0x200 k.keyb_flag);
          })
      else if code == mk_caps
      then record k { keyb_flag = clear 0x4000 k.keyb_flag }
      else if code == mk_numlk
      then record k { keyb_flag = clear 0x2000 k.keyb_flag }
      else if code == mk_scrlk
      then record k { keyb_flag = clear 0x1000 k.keyb_flag }
      else if code == mk_sysrq
      then record k { keyb_flag = clear 0x400 k.keyb_flag }
      else k

  abbrev pub is_function_key : ℕ → Bool
  is_function_key c =
      c == mk_ctrl
      || (c == mk_lshift
          || (c == mk_rshift
              || (c == mk_alt
                  || (c == mk_caps || (c == mk_numlk || (c == mk_scrlk || c == mk_sysrq))))))

  -- The code goes to the raw queue, with the mark of an extended key.
  abbrev pub queue_key : ℕ → Bool → Keyboard D → Keyboard D
  queue_key code ext k = record k {
    queues = rawqueue_put (if ext then bit_or code 0x80 else code) k.queues;
  }

  -- `false`: the code was put into the raw queue. 0xE0 and 0xFA are no codes of a key.
  pub preprocess : ℕ → Keyboard D → Bool × Keyboard D
  unfolding keyb_ack_handler press release
  preprocess code k =
      let ext = k.e0_keycode in
      let j = record k { e0_keycode = false } in
      if code == 0xE0
      then (true, record k { e0_keycode = true })
      else if code == 0xFA
      then (true, keyb_ack_handler j)
      else if code == mk_insert
      then (false, queue_key code ext (record j { keyb_flag = bit_xor k.keyb_flag 0x80 }))
      else if ltb code break
      then (if is_function_key code
          then (true, press code ext j)
          else (false, queue_key code ext j))
      else (true, release (code - break) ext j)
