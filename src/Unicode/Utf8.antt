-- ===== src/Unicode/Utf8.antt =====
-- fd32/modules/unicode/utf8.c. A string is the list of its first `size` bytes.
pub mod Decode
pub mod RoundTrip
use free_dos.Common.{
  ℕ, zero, suc, ◌+◌, ◌-◌, ◌*◌, ◌/◌, ◌%◌, ◌==◌, if◌then◌else◌, ltb, List, [], ◌∷◌, length,
}
use free_dos.Common.Int.{ℤ, pos, negsuc}
use free_dos.Common.Errno.{Res, ok, err, eilseq, enametoolong, einval}
use Prim.Native.Nat.{bit_and, bit_or}

-- Bit mask and bit values of a lead byte.
pub record Lead : Type 0 where
  pub mask : ℕ
  pub val : ℕ

abbrev lead : ℕ → ℕ → Lead
lead m v = record { mask = m; val = v }

abbrev pub leads : List Lead
leads = lead 0x80 0x00 ∷ lead 0xE0 0xC0 ∷ lead 0xF0 0xE0 ∷ lead 0xF8 0xF0 ∷ []

pub len_loop : ℕ → List Lead → ℕ → Res ℕ
len_loop k [] lead_byte = err eilseq
len_loop k (t ∷ ts) lead_byte =
    let rest = len_loop (k + 1) ts lead_byte in
    if bit_and lead_byte t.mask == t.val then ok (k + 1) else rest

pub unicode_utf8_len : ℕ → Res ℕ
unfolding len_loop
unicode_utf8_len lead_byte = len_loop 0 leads lead_byte

-- `rounds` more bytes; the shifted `wc` and the six bits have no bit in common. The list is long
-- enough where this is called.
pub trail_loop : ℕ → ℕ → List ℕ → Res ℕ
trail_loop zero wc string = ok wc
trail_loop (suc rounds) wc [] = err eilseq
trail_loop (suc rounds) wc (c ∷ string) =
    let rest = trail_loop rounds (wc * 64 + c % 64) string in
    if bit_and c 0xC0 == 0x80 then rest else err eilseq

abbrev pub with_length : ℕ → Res ℕ → Res (ℕ × ℕ)
with_length n r = elim r [ ok wc ↦ ok (n, wc) | err e ↦ err e ]

pub to_wchar_loop : ℕ → List Lead → ℕ → List ℕ → Res (ℕ × ℕ)
unfolding trail_loop
to_wchar_loop k [] c string = err eilseq
to_wchar_loop k (t ∷ ts) c string =
    let rest = to_wchar_loop (k + 1) ts c string in
    if bit_and c t.mask == t.val
    then (if ltb (suc (length string)) (k + 1)
        then err enametoolong
        else with_length (k + 1) (trail_loop k (bit_and c (0xFF - t.mask)) string))
    else rest

-- The length of the character with the wide character.
pub unicode_utf8_to_wchar : List ℕ → Res (ℕ × ℕ)
unfolding to_wchar_loop
unicode_utf8_to_wchar [] = err enametoolong
unicode_utf8_to_wchar (c ∷ string) = to_wchar_loop 0 leads c string

abbrev pub low_bits : ℕ → ℕ
low_bits wc = bit_or 0x80 (wc % 64)

-- The bytes that are stored.
pub unicode_wchar_to_utf8 : ℤ → ℕ → Res (List ℕ)
unicode_wchar_to_utf8 (negsuc n) size = err einval
unicode_wchar_to_utf8 (pos wc) size =
    if ltb wc 0x80
    then (if ltb size 1 then err enametoolong else ok (wc ∷ []))
    else if ltb wc 0x800
    then (if ltb size 2 then err enametoolong else ok (bit_or 0xC0 (wc / 64) ∷ low_bits wc ∷ []))
    else if ltb wc 0x1_0000
    then (if ltb size 3
        then err enametoolong
        else ok (bit_or 0xE0 (wc / 64 / 64) ∷ low_bits (wc / 64) ∷ low_bits wc ∷ []))
    else if ltb wc 0x20_0000
    then (if ltb size 4
        then err enametoolong
        else ok (
            bit_or 0xF0 (wc / 64 / 64 / 64)
            ∷ low_bits (wc / 64 / 64)
            ∷ low_bits (wc / 64)
            ∷ low_bits wc
            ∷ []))
    else err einval
