-- ===== src/Unicode/Utf16/Surrogates.antt =====
-- Round trips through fd32/modules/unicode/utf16le.c and utf16be.c.
use free_dos.Common.{
  ℕ, ◌+◌, ◌*◌, ◌/◌, ◌%◌, ◌^◌, ◌≤◌, ◌<◌, ◌≡◌, sym, subst, ◌∙◌, ap, ◌≢◌, ◌⊎◌, List, [], ◌∷◌, ◌++◌,
  length, arith, inl, inr,
}
use free_dos.Common.Int.{pos}
use free_dos.Common.Errno.{Res, ok, err}
use free_dos.Unicode.Utf16.{high_unit, utf16_to_wchar, wchar_to_utf16}
use free_dos.Unicode.Utf16.Order.{IsOrder}

-- What the encoder stores is decoded to `wc`, whatever follows it.
abbrev pub ComesBack : (ℕ → ℕ) → ℕ → Res (List ℕ) → Type 0
ComesBack order wc (err e) = ⊥
ComesBack order wc (ok units) =
    (rest : List ℕ) (result : ℕ)
    → utf16_to_wchar order result (units ++ rest) ≡ (ok (length units), wc)

module _ (order : ℕ → ℕ) (o : IsOrder order) where
  open o use {twice, word}

  one_unit :
      (wc : ℕ) (rest : List ℕ) (result : ℕ)
      → wc < 2 ^ 16
      → wc / 2 ^ 10 ≢ 0xD800 / 2 ^ 10
      → utf16_to_wchar order result (order wc ∷ rest) ≡ (ok 1, wc)
  unfolding utf16_to_wchar
  one_unit wc [] result h d = ground (arith, twice wc)
  one_unit wc (w ∷ rest) result h d = ground (arith, twice wc)

  two_units :
      (u w : ℕ) (rest : List ℕ) (result : ℕ)
      → u < 2 ^ 16
      → w < 2 ^ 16
      → u / 2 ^ 10 ≡ 0xD800 / 2 ^ 10
      → w / 2 ^ 10 ≡ 0xDC00 / 2 ^ 10
      → utf16_to_wchar order result (order u ∷ order w ∷ rest)
        ≡ (ok 2, u % 2 ^ 10 * 2 ^ 10 + 0x1_0000 + w % 2 ^ 10)
  unfolding utf16_to_wchar
  two_units u w rest result h k d e = ground (arith, twice u, twice w)

  encode_one : (wc size : ℕ) → wc < 2 ^ 16 → wchar_to_utf16 order (pos wc) size ≡ ok (order wc ∷ [])
  unfolding wchar_to_utf16
  encode_one wc size h = ground arith

  encode_two :
      (wc size : ℕ)
      → 2 ^ 16 ≤ wc
      → wc < 0x20_0000
      → wchar_to_utf16 order (pos wc) size
        ≡ ok (order (high_unit wc) ∷ order (0xDC00 + wc % 2 ^ 10) ∷ [])
  unfolding wchar_to_utf16
  encode_two wc size l h = ground arith

  pair_back :
      (wc size : ℕ)
      → 2 ^ 16 ≤ wc
      → wc < 0x11_0000
      → wc % 2 ^ 16 < 2 ^ 10
      → ComesBack order wc (wchar_to_utf16 order (pos wc) size)
  pair_back wc size l b z =
      subst (ComesBack order wc) (sym (encode_two wc size l (omega arith))) (λ rest result.
        two_units (high_unit wc) (0xDC00 + wc % 2 ^ 10) rest result (omega arith) (omega arith)
          (omega arith) (omega arith)
        ∙ ap (λ n. (ok 2, n)) (omega arith))

  -- For a byte order and a wide character that is not in the range of high surrogates and either
  -- fits a unit, or is below 0x110000 with its bits 10 to 15 all zero: what the encoder stores is
  -- decoded to that wide character, whatever follows it, and all units stored are taken. This is for any
  -- size of the room for the units, also 0 and 1: the encoder stores the units where the documentation
  -- promises -ENAMETOOLONG for want of room.
  pub utf16_to_wchar-wchar_to_utf16 :
      (wc size : ℕ)
      → wc < 0x11_0000
      → wc / 2 ^ 10 ≢ 0xD800 / 2 ^ 10
      → (2 ^ 16 ≤ wc → wc % 2 ^ 16 < 2 ^ 10)
      → ComesBack order wc (wchar_to_utf16 order (pos wc) size)
  utf16_to_wchar-wchar_to_utf16 wc size b d z =
      let fits : (wc < 2 ^ 16) ⊎ (2 ^ 16 ≤ wc) = ground arith in
      elim fits [
        | inl h ↦
            subst (ComesBack order wc) (sym (encode_one wc size h))
              (λ rest result. one_unit wc rest result h d)
        | inr l ↦ pair_back wc size l b (z l)
      ]

  -- The pair of units of a wide character with one of the bits 10 to 15 set.
  pair_differs :
      (wc : ℕ)
      → 2 ^ 16 ≤ wc
      → wc < 0x11_0000
      → 2 ^ 10 ≤ wc % 2 ^ 16
      → utf16_to_wchar order 0 (order (high_unit wc) ∷ order (0xDC00 + wc % 2 ^ 10) ∷ [])
        ≢ (ok 2, wc)
  unfolding utf16_to_wchar
  pair_differs wc l b z =
      let h : high_unit wc < 2 ^ 16 = omega arith in
      let k : 0xDC00 + wc % 2 ^ 10 < 2 ^ 16 = omega arith in
      ground (arith, twice (high_unit wc), twice (0xDC00 + wc % 2 ^ 10))

  -- A defect: a wide character from 0x10000 to 0x10FFFF with one of its bits 10 to 15 set never
  -- comes back: what the encoder stores for it is not decoded to it (the encoder shifts these bits by
  -- 2 where it has to shift them by 10).
  pub utf16_to_wchar-wchar_to_utf16_differs :
      (wc size : ℕ)
      → 2 ^ 16 ≤ wc
      → wc < 0x11_0000
      → 2 ^ 10 ≤ wc % 2 ^ 16
      → ¬ ComesBack order wc (wchar_to_utf16 order (pos wc) size)
  utf16_to_wchar-wchar_to_utf16_differs wc size l b z back =
      pair_differs wc l b z
        (subst (ComesBack order wc) (encode_two wc size l (omega arith)) back [] 0)
