-- ===== src/Unicode/Utf16.antt =====
-- fd32/modules/unicode/utf16le.c and utf16be.c: one text but for the byte order of the 16-bit units.
-- A string is the list of its first `size` units.
pub mod Order
pub mod Surrogates
use free_dos.Common.{
  ℕ, zero, suc, ◌+◌, ◌-◌, ◌*◌, ◌/◌, ◌%◌, ◌^◌, ◌==◌, if◌then◌else◌, ltb, List, [], ◌∷◌,
}
use free_dos.Common.Int.{ℤ, pos, negsuc}
use free_dos.Common.Errno.{Res, ok, err, eilseq, enametoolong, einval}
use Prim.Native.Nat.{bit_and}

-- little_endian_16 and big_endian_16 on a little endian machine.
abbrev pub little_endian_16 : ℕ → ℕ
little_endian_16 v = v

abbrev pub big_endian_16 : ℕ → ℕ
big_endian_16 v = v % 2 ^ 8 * 2 ^ 8 + v / 2 ^ 8

-- `(uint16_t) (0xD800 + (((wc >> 16) - 1) << 6) + ((wc & 0x00FC00) >> 2))`.
abbrev pub high_unit : ℕ → ℕ
high_unit wc = (0xD800 + (wc / 2 ^ 16 - 1) * 2 ^ 6 + wc % 2 ^ 16 / 2 ^ 10 * 2 ^ 8) % 2 ^ 16

module _ (order : ℕ → ℕ) where
  pub utf16_len : ℕ → ℕ
  utf16_len lead_word = if order lead_word / 2 ^ 10 == 0xD800 / 2 ^ 10 then 2 else 1

  -- The number of units, and what `*result` holds: it is written before the second unit is looked at.
  pub utf16_to_wchar : ℕ → List ℕ → Res ℕ × ℕ
  utf16_to_wchar result [] = (err enametoolong, result)
  utf16_to_wchar result (u ∷ []) =
      if order u / 2 ^ 10 == 0xD800 / 2 ^ 10 then (err enametoolong, result) else (ok 1, order u)
  utf16_to_wchar result (u ∷ w ∷ rest) =
      let high = order u % 2 ^ 10 * 2 ^ 10 + 0x1_0000 in
      if order u / 2 ^ 10 == 0xD800 / 2 ^ 10
      then (if order w / 2 ^ 10 == 0xDC00 / 2 ^ 10
          then (ok 2, high + order w % 2 ^ 10)
          else (err eilseq, high))
      else (ok 1, order u)

  -- The units that are stored. `size` is not looked at.
  pub wchar_to_utf16 : ℤ → ℕ → Res (List ℕ)
  wchar_to_utf16 (negsuc n) size = err einval
  wchar_to_utf16 (pos wc) size =
      if ltb wc 0x1_0000
      then ok (order wc ∷ [])
      else if ltb wc 0x20_0000
      then ok (order (high_unit wc) ∷ (order (0xDC00 + wc % 2 ^ 10) ∷ []))
      else err einval

abbrev pub unicode_utf16le_len : ℕ → ℕ
unicode_utf16le_len = utf16_len little_endian_16

abbrev pub unicode_utf16be_len : ℕ → ℕ
unicode_utf16be_len = utf16_len big_endian_16

abbrev pub unicode_utf16le_to_wchar : ℕ → List ℕ → Res ℕ × ℕ
unicode_utf16le_to_wchar = utf16_to_wchar little_endian_16

abbrev pub unicode_utf16be_to_wchar : ℕ → List ℕ → Res ℕ × ℕ
unicode_utf16be_to_wchar = utf16_to_wchar big_endian_16

abbrev pub unicode_wchar_to_utf16le : ℤ → ℕ → Res (List ℕ)
unicode_wchar_to_utf16le = wchar_to_utf16 little_endian_16

abbrev pub unicode_wchar_to_utf16be : ℤ → ℕ → Res (List ℕ)
unicode_wchar_to_utf16be = wchar_to_utf16 big_endian_16
