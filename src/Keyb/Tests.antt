-- ===== src/Keyb/Tests.antt =====
-- Runs of fd32/modules/keyb/src.
use free_dos.Common.{ℕ, ◌+◌, ◌≤◌, ◌<◌, ◌≡◌, refl, Bool, true, false, [], ◌∷◌, ◌++◌, length, arith}
use free_dos.Keyb.Queues.{Queues, keyqueue_put, keyqueue_get, keyqueue_check, keyqueue_empty}
use free_dos.Keyb.Queues.Ring.{IsQueue, keys, keyqueue_put_lem, keyqueue_check_lem}
use free_dos.Keyb.Flags.{Keyboard, preprocess}
use free_dos.Keyb.Flags.Release.{IsStatus, preprocess-IsStatus}

-- One key, in the last slot.
abbrev one_key : Queues
one_key = record {
  keyb_buf = λ i. i + 65;
  keyb_bufhead = 0x1E + 30;
  keyb_buftail = 0x1E;
  keyb_bufstart = 0x1E;
  keyb_bufend = 0x1E + 32;
  rawqueue_head = 1;
  rawqueue_tail = 1;
  scancode = 0;
}

one_key-IsQueue : IsQueue one_key
one_key-IsQueue = omega arith

keyqueue_put_example :
    let r = keyqueue_put 0x1E61 one_key in
    IsQueue r
    × (length (keys one_key) < 15 → keys r ≡ keys one_key ++ ((0x61, 0x1E) ∷ []))
    × (15 ≤ length (keys one_key) → keys r ≡ [])
keyqueue_put_example = keyqueue_put_lem 0x1E61 one_key one_key-IsQueue

keyqueue_check_example :
    (keyqueue_empty one_key ≡ true → keys one_key ≡ [])
    × (keys one_key ≡ [] → keyqueue_empty one_key ≡ true)
    × ((keyqueue_check one_key).0 ≡ (keyqueue_get one_key).0)
    × ((keyqueue_check one_key).1.scancode ≡ (keyqueue_get one_key).1.scancode)
    × (keys ((keyqueue_check one_key).1) ≡ keys one_key)
keyqueue_check_example = keyqueue_check_lem one_key one_key-IsQueue

-- A controller that is always ready, and counts the bytes written.
abbrev ready : ℕ → ℕ → Bool × ℕ
ready byte n = (true, n + 1)

-- NumLock is on, and left Ctrl is down.
abbrev keyboard : Keyboard ℕ
keyboard = record {
  stdst = record {
    rshift = false;
    lshift = false;
    ctrl = true;
    alt = false;
    scrlk_active = false;
    numlk_active = true;
    capslk_active = false;
    lctrl = true;
    lalt = false;
    rctrl = false;
    ralt = false;
    shift = false;
  };
  ack_left = 0;
  ack_cmd = 0;
  led_state = 2;
  e0_keycode = false;
  keyb_flag = 0x124;
  keyb_mode = 0;
  keyb_led = 2;
  queues = one_key;
  port = 0;
}

preprocess-IsStatus_example : IsStatus ((preprocess ready 0x9D keyboard).1.stdst)
preprocess-IsStatus_example = preprocess-IsStatus ready 0x9D keyboard (refl, refl, refl)
