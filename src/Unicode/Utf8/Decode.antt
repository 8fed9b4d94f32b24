-- ===== src/Unicode/Utf8/Decode.antt =====
-- What unicode_utf8_to_wchar of fd32/modules/unicode/utf8.c accepts, by the number of bytes.
use free_dos.Common.{ℕ, ◌+◌, ◌*◌, ◌%◌, ◌≤◌, ◌<◌, ◌≡◌, refl, ◌⊎◌, List, [], ◌∷◌, arith}
use free_dos.Common.Errno.{ok, err, eilseq}
use free_dos.Unicode.Bytes.{lead_1, lead_2, lead_3, lead_4, trail, low_7, low_5, low_4, low_3}
use free_dos.Unicode.Utf8.{
  Lead, leads, trail_loop, to_wchar_loop, unicode_utf8_to_wchar, len_loop, unicode_utf8_len,
}

-- A byte 10xxxxxx.
abbrev pub IsTrail : ℕ → Type 0
IsTrail c = (0x80 ≤ c) × (c < 0xC0)

pub decode_1 : (c : ℕ) (s : List ℕ) → c < 0x80 → unicode_utf8_to_wchar (c ∷ s) ≡ ok (1, c)
unfolding unicode_utf8_to_wchar to_wchar_loop trail_loop
decode_1 c s h = ground (arith, lead_1 c, low_7 c)

pub decode_2 :
    (c d : ℕ) (s : List ℕ)
    → 0xC0 ≤ c
    → c < 0xE0
    → IsTrail d
    → unicode_utf8_to_wchar (c ∷ d ∷ s) ≡ ok (2, c % 32 * 64 + d % 64)
unfolding unicode_utf8_to_wchar to_wchar_loop trail_loop
decode_2 c d s l h t = ground (arith, lead_1 c, lead_2 c, low_5 c, trail d)

pub decode_3 :
    (c d e : ℕ) (s : List ℕ)
    → 0xE0 ≤ c
    → c < 0xF0
    → IsTrail d
    → IsTrail e
    → unicode_utf8_to_wchar (c ∷ d ∷ e ∷ s) ≡ ok (3, (c % 16 * 64 + d % 64) * 64 + e % 64)
unfolding unicode_utf8_to_wchar to_wchar_loop trail_loop
decode_3 c d e s l h t u = ground (arith, lead_1 c, lead_2 c, lead_3 c, low_4 c, trail d, trail e)

pub decode_4 :
    (c d e f : ℕ) (s : List ℕ)
    → 0xF0 ≤ c
    → c < 0xF8
    → IsTrail d
    → IsTrail e
    → IsTrail f
    → unicode_utf8_to_wchar (c ∷ d ∷ e ∷ f ∷ s)
      ≡ ok (4, ((c % 8 * 64 + d % 64) * 64 + e % 64) * 64 + f % 64)
unfolding unicode_utf8_to_wchar to_wchar_loop trail_loop
decode_4 c d e f s l h t u v =
    ground (arith, lead_1 c, lead_2 c, lead_3 c, lead_4 c, low_3 c, trail d, trail e, trail f)

-- The first bytes of a string are a lead byte with the trail bytes that it asks for.
abbrev pub Shape : List ℕ → Type 0
Shape [] = ⊥
Shape (c ∷ []) = c < 0x80
Shape (c ∷ d ∷ []) = (c < 0x80) ⊎ ((0xC0 ≤ c) × (c < 0xE0) × IsTrail d)
Shape (c ∷ d ∷ e ∷ []) =
    (c < 0x80)
    ⊎ ((0xC0 ≤ c) × (c < 0xE0) × IsTrail d)
    ⊎ ((0xE0 ≤ c) × (c < 0xF0) × IsTrail d × IsTrail e)
Shape (c ∷ d ∷ e ∷ f ∷ s) =
    (c < 0x80)
    ⊎ ((0xC0 ≤ c) × (c < 0xE0) × IsTrail d)
    ⊎ ((0xE0 ≤ c) × (c < 0xF0) × IsTrail d × IsTrail e)
    ⊎ ((0xF0 ≤ c) × (c < 0xF8) × IsTrail d × IsTrail e × IsTrail f)

abbrev pub AllBytes : List ℕ → Type 0
AllBytes [] = Unit {0}
AllBytes (c ∷ s) = (c < 256) × AllBytes s

pub to_wchar-Shape :
    (s : List ℕ) (r : ℕ × ℕ) → AllBytes s → unicode_utf8_to_wchar s ≡ ok r → Shape s
unfolding unicode_utf8_to_wchar to_wchar_loop trail_loop
to_wchar-Shape [] r b h = cc
to_wchar-Shape (c ∷ []) r b h = ground (arith, lead_1 c, lead_2 c, lead_3 c, lead_4 c)
to_wchar-Shape (c ∷ d ∷ []) r b h = ground (arith, lead_1 c, lead_2 c, lead_3 c, lead_4 c, trail d)
to_wchar-Shape (c ∷ d ∷ e ∷ []) r b h =
    ground (arith, lead_1 c, lead_2 c, lead_3 c, lead_4 c, trail d, trail e)
to_wchar-Shape (c ∷ d ∷ e ∷ f ∷ s) r b h =
    ground (arith, lead_1 c, lead_2 c, lead_3 c, lead_4 c, trail d, trail e, trail f)

len_loop_lem :
    (k : ℕ) (ts : List Lead) (c : ℕ) (s : List ℕ)
    → ((n wc : ℕ) → to_wchar_loop k ts c s ≡ ok (n, wc) → len_loop k ts c ≡ ok n)
      × (len_loop k ts c ≡ err eilseq → to_wchar_loop k ts c s ≡ err eilseq)
unfolding to_wchar_loop len_loop
len_loop_lem k [] c s = (λ n wc e. cc, λ e. refl)
len_loop_lem k (t ∷ ts) c s =
    let (a, b) = len_loop_lem (k + 1) ts c s in
    (λ n wc e. ground (arith, e, a n wc), λ e. ground (arith, e, b))

-- unicode_utf8_len of the first byte is the length that unicode_utf8_to_wchar reports, where it
-- accepts the string; and where unicode_utf8_len reports -EILSEQ, so does unicode_utf8_to_wchar.
pub unicode_utf8_len_lem :
    (c : ℕ) (s : List ℕ)
    → ((n wc : ℕ) → unicode_utf8_to_wchar (c ∷ s) ≡ ok (n, wc) → unicode_utf8_len c ≡ ok n)
      × (unicode_utf8_len c ≡ err eilseq → unicode_utf8_to_wchar (c ∷ s) ≡ err eilseq)
unfolding unicode_utf8_to_wchar unicode_utf8_len
unicode_utf8_len_lem c s = len_loop_lem 0 leads c s
