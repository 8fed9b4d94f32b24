-- ===== src/Unicode/Tests.antt =====
-- Runs of the codecs of fd32/modules/unicode.
use free_dos.Common.{ℕ, ◌≤◌, ◌<◌, ◌≡◌, ◌⊎◌, List, [], ◌∷◌, ◌++◌, arith}
use free_dos.Common.Int.{pos}
use free_dos.Common.Errno.{ok, err, eilseq, enametoolong, einval}
use free_dos.Unicode.Utf8.{unicode_utf8_to_wchar, unicode_wchar_to_utf8, unicode_utf8_len}
use free_dos.Unicode.Utf8.Decode.{decode_3, unicode_utf8_len_lem}
use free_dos.Unicode.Utf8.RoundTrip.{units, utf8_to_wchar-wchar_to_utf8}
use free_dos.Unicode.Utf16.{big_endian_16, wchar_to_utf16}
use free_dos.Unicode.Utf16.Order.{big_endian_16-IsOrder}
use free_dos.Unicode.Utf16.Surrogates.{ComesBack, utf16_to_wchar-wchar_to_utf16}

-- U+20AC in UTF-8, and one byte more.
abbrev euro : List ℕ
euro = 0xE2 ∷ 0x82 ∷ 0xAC ∷ 0x41 ∷ []

euro_taken : unicode_utf8_to_wchar euro ≡ ok (3, 0x20AC)
euro_taken =
    decode_3 0xE2 0x82 0xAC (0x41 ∷ []) (omega arith) (omega arith) (omega arith) (omega arith)

utf8_to_wchar-wchar_to_utf8_example :
    ((0x20AC < 0x20_0000)
      × (units 0x20AC ≤ 4)
      × ((bs : List ℕ) × (unicode_wchar_to_utf8 (pos 0x20AC) 4 ≡ ok bs)
          × ((rest : List ℕ) → unicode_utf8_to_wchar (bs ++ rest) ≡ ok (units 0x20AC, 0x20AC))))
    ⊎ ((0x20AC < 0x20_0000)
        × (4 < units 0x20AC)
        × (unicode_wchar_to_utf8 (pos 0x20AC) 4 ≡ err enametoolong))
    ⊎ ((0x20_0000 ≤ 0x20AC) × (unicode_wchar_to_utf8 (pos 0x20AC) 4 ≡ err einval))
utf8_to_wchar-wchar_to_utf8_example = utf8_to_wchar-wchar_to_utf8 0x20AC 4

unicode_utf8_len_example :
    ((n wc : ℕ) → unicode_utf8_to_wchar euro ≡ ok (n, wc) → unicode_utf8_len 0xE2 ≡ ok n)
    × (unicode_utf8_len 0xE2 ≡ err eilseq → unicode_utf8_to_wchar euro ≡ err eilseq)
unicode_utf8_len_example = unicode_utf8_len_lem 0xE2 (0x82 ∷ 0xAC ∷ 0x41 ∷ [])

utf16_to_wchar-wchar_to_utf16_example :
    ComesBack big_endian_16 0x1_0041 (wchar_to_utf16 big_endian_16 (pos 0x1_0041) 2)
utf16_to_wchar-wchar_to_utf16_example =
    utf16_to_wchar-wchar_to_utf16 big_endian_16 big_endian_16-IsOrder 0x1_0041 2 (omega arith)
      (omega arith) (λ h. omega arith)
