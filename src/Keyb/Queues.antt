-- ===== src/Keyb/Queues.antt =====
-- fd32/modules/keyb/src/queues.c: the raw queue and the key queue share the 32 bytes of the BIOS data
-- area. fd32_cli and fd32_sti are not modelled: each operation is one step.
pub mod Ring
use free_dos.Common.{ℕ, zero, suc, ◌+◌, ◌-◌, ◌*◌, ◌/◌, ◌%◌, ◌^◌, ◌==◌, if◌then◌else◌, Bool}
use free_dos.Common.Word.{sub32}

-- bios_da, the fields of the queues, and the variables of the file.
pub record Queues : Type 0 where
  pub keyb_buf : ℕ → ℕ
  pub keyb_bufhead : ℕ
  pub keyb_buftail : ℕ
  pub keyb_bufstart : ℕ
  pub keyb_bufend : ℕ
  pub rawqueue_head : ℕ
  pub rawqueue_tail : ℕ
  pub scancode : ℕ

abbrev pub queue_max_size : ℕ
queue_max_size = 32

-- BDA_OFFSET(bios_da.keyb_buf): the buffer stands at 0x41E.
abbrev pub bda_offset : ℕ
bda_offset = 0x1E

-- A pointer as an index, a WORD.
abbrev pub word_index : ℕ → ℕ
word_index p = (p + 2 ^ 16 - bda_offset) % 2 ^ 16

abbrev pub store : ℕ → ℕ → (ℕ → ℕ) → ℕ → ℕ
store i x buf j = if j == i then x else buf j

pub rawqueue_put : ℕ → Queues → Queues
rawqueue_put code q =
    let tail = (q.rawqueue_tail + 2) % queue_max_size in
    record q {
      keyb_buf = store q.rawqueue_tail code q.keyb_buf;
      rawqueue_tail = tail;
      rawqueue_head =
          if tail == q.rawqueue_head
          then (q.rawqueue_head + 2) % queue_max_size
          else q.rawqueue_head;
    }

pub rawqueue_read : Queues → ℕ
rawqueue_read q =
    let rawqueue_index = (word_index q.keyb_buftail + 1) % queue_max_size in
    if q.rawqueue_tail == rawqueue_index then 0 else q.keyb_buf rawqueue_index

pub rawqueue_check : Queues → ℕ
rawqueue_check q = q.scancode

pub rawqueue_get : Queues → ℕ
rawqueue_get q = q.scancode

pub keyqueue_put : ℕ → Queues → Queues
keyqueue_put code q =
    let keyqueue_index = word_index q.keyb_buftail in
    let rawqueue_index = (keyqueue_index + 1) % queue_max_size in
    record q {
      keyb_buf =
          store rawqueue_index (code / 2 ^ 8 % 2 ^ 8)
            (store keyqueue_index (code % 2 ^ 8) q.keyb_buf);
      keyb_buftail = (keyqueue_index + 2) % queue_max_size + bda_offset;
    }

pub keyqueue_empty : Queues → Bool
keyqueue_empty q = q.keyb_buftail == q.keyb_bufhead

pub keyqueue_check : Queues → ℕ × Queues
keyqueue_check q =
    let i = sub32 q.keyb_bufhead bda_offset in
    if q.keyb_buftail == q.keyb_bufhead
    then (0, record q { scancode = 0 })
    else (q.keyb_buf i, record q { scancode = q.keyb_buf (i + 1) })

pub keyqueue_get : Queues → ℕ × Queues
keyqueue_get q =
    let i = sub32 q.keyb_bufhead bda_offset in
    if q.keyb_buftail == q.keyb_bufhead then (0, record q { scancode = 0 }) else (
      q.keyb_buf i,
      record q {
        keyb_bufhead = (i + 2) % queue_max_size + bda_offset;
        scancode = q.keyb_buf (i + 1);
      },
    )

pub keyb_queue_clear : Queues → Queues
keyb_queue_clear q = record q {
  rawqueue_head = 1;
  rawqueue_tail = 1;
  keyb_bufhead = bda_offset;
  keyb_buftail = bda_offset;
  keyb_bufstart = bda_offset;
  keyb_bufend = bda_offset + queue_max_size;
}
