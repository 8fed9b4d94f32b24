-- ===== src/Unicode/Utf8/RoundTrip.antt =====
-- Round trips through fd32/modules/unicode/utf8.c.
use free_dos.Common.{
  ℕ, ◌+◌, ◌*◌, ◌/◌, ◌%◌, ◌≤◌, ◌<◌, ◌≡◌, ◌≢◌, ◌⊎◌, inl, inr, subst, ap, ◌∙◌, if◌then◌else◌, ltb,
  List, [], ◌∷◌, ◌++◌, length, take, arith,
}
use free_dos.Common.Int.{pos}
use free_dos.Common.Errno.{ok, err, enametoolong, einval}
use free_dos.Unicode.Bytes.{mark_trail, mark_2, mark_3, mark_4}
use free_dos.Unicode.Utf8.{unicode_wchar_to_utf8, unicode_utf8_to_wchar}
use free_dos.Unicode.Utf8.Decode.{
  decode_1, decode_2, decode_3, decode_4, IsTrail, AllBytes, to_wchar-Shape,
}

-- The number of bytes that a wide character takes.
abbrev pub units : ℕ → ℕ
units wc = if ltb wc 0x80 then 1 else if ltb wc 0x800 then 2 else if ltb wc 0x1_0000 then 3 else 4

-- The bytes of a wide character, as numbers.
abbrev bytes : ℕ → List ℕ
bytes wc =
    if ltb wc 0x80
    then wc ∷ []
    else if ltb wc 0x800
    then (0xC0 + wc / 64) ∷ (0x80 + wc % 64) ∷ []
    else if ltb wc 0x1_0000
    then (0xE0 + wc / 4096) ∷ (0x80 + wc / 64 % 64) ∷ (0x80 + wc % 64) ∷ []
    else (0xF0 + wc / 262144)
      ∷ (0x80 + wc / 4096 % 64)
      ∷ (0x80 + wc / 64 % 64)
      ∷ (0x80 + wc % 64)
      ∷ []

encode :
    (wc size : ℕ)
    → wc < 0x20_0000
    → units wc ≤ size
    → unicode_wchar_to_utf8 (pos wc) size ≡ ok (bytes wc)
unfolding unicode_wchar_to_utf8
encode wc size h b = ground (
  arith,
  mark_trail (wc % 64),
  mark_trail (wc / 64 % 64),
  mark_trail (wc / 64 / 64 % 64),
  mark_2 (wc / 64),
  mark_3 (wc / 64 / 64),
  mark_4 (wc / 64 / 64 / 64),
)

decode :
    (wc : ℕ) (rest : List ℕ)
    → wc < 0x20_0000
    → unicode_utf8_to_wchar (bytes wc ++ rest) ≡ ok (units wc, wc)
decode wc rest h = ground (
  arith,
  decode_1 wc rest,
  decode_2 (0xC0 + wc / 64) (0x80 + wc % 64) rest,
  decode_3 (0xE0 + wc / 4096) (0x80 + wc / 64 % 64) (0x80 + wc % 64) rest,
  decode_4 (0xF0 + wc / 262144) (0x80 + wc / 4096 % 64) (0x80 + wc / 64 % 64) (0x80 + wc % 64) rest,
)

-- For a wide character below 0x200000: with room for its `units` bytes, unicode_wchar_to_utf8 stores
-- that many bytes, and unicode_utf8_to_wchar takes them, whatever follows, and gives the wide
-- character back; with less room the result is -ENAMETOOLONG. From 0x200000 on it is -EINVAL.
pub utf8_to_wchar-wchar_to_utf8 :
    (wc size : ℕ)
    → ((wc < 0x20_0000)
        × (units wc ≤ size)
        × ((bs : List ℕ) × (unicode_wchar_to_utf8 (pos wc) size ≡ ok bs)
            × ((rest : List ℕ) → unicode_utf8_to_wchar (bs ++ rest) ≡ ok (units wc, wc))))
      ⊎ ((wc < 0x20_0000)
          × (size < units wc)
          × (unicode_wchar_to_utf8 (pos wc) size ≡ err enametoolong))
      ⊎ ((0x20_0000 ≤ wc) × (unicode_wchar_to_utf8 (pos wc) size ≡ err einval))
unfolding unicode_wchar_to_utf8
utf8_to_wchar-wchar_to_utf8 wc size = ground (arith, encode wc size, decode wc)

-- What follows for the `n` bytes at the front of `s` that were taken for `wc`.
abbrev pub Taken : List ℕ → ℕ → ℕ → Type 0
Taken s n wc =
    (wc < 0x20_0000)
    × (units wc ≤ n)
    × (n ≤ length s)
    × (units wc ≡ n → unicode_wchar_to_utf8 (pos wc) n ≡ ok (take n s))

abbrev Sound : List ℕ → Type 0
Sound s = (n wc : ℕ) → unicode_utf8_to_wchar s ≡ ok (n, wc) → Taken s n wc

-- One result is the only one.
only : (s : List ℕ) (a b : ℕ) → unicode_utf8_to_wchar s ≡ ok (a, b) → Taken s a b → Sound s
only s a b e t n wc f =
    let same : (a ≡ n) × (b ≡ wc) = ground (arith, e, f) in
    subst (λ n. Taken s n wc) (same.0) (subst (λ wc. Taken s a wc) (same.1) t)

accept_1 : (c : ℕ) (s : List ℕ) → c < 0x80 → Sound (c ∷ s)
accept_1 c s h = only (c ∷ s) 1 c (decode_1 c s h) (
  omega arith,
  ground arith,
  omega arith,
  λ f. encode c 1 (omega arith) (ground arith) ∙ ground arith,
)

accept_2 : (c d : ℕ) (s : List ℕ) → 0xC0 ≤ c → c < 0xE0 → IsTrail d → Sound (c ∷ d ∷ s)
accept_2 c d s l h t =
    let wc = c % 32 * 64 + d % 64 in
    only (c ∷ d ∷ s) 2 wc (decode_2 c d s l h t) (
      omega arith,
      ground arith,
      omega arith,
      λ f. encode wc 2 (omega arith) (omega (arith, f)) ∙ ground (arith, f),
    )

accept_3 :
    (c d e : ℕ) (s : List ℕ) → 0xE0 ≤ c → c < 0xF0 → IsTrail d → IsTrail e → Sound (c ∷ d ∷ e ∷ s)
accept_3 c d e s l h t u =
    let wc = (c % 16 * 64 + d % 64) * 64 + e % 64 in
    only (c ∷ d ∷ e ∷ s) 3 wc (decode_3 c d e s l h t u) (
      omega arith,
      ground arith,
      omega arith,
      λ f. encode wc 3 (omega arith) (omega (arith, f)) ∙ ground (arith, f),
    )

accept_4 :
    (c d e f : ℕ) (s : List ℕ)
    → 0xF0 ≤ c
    → c < 0xF8
    → IsTrail d
    → IsTrail e
    → IsTrail f
    → Sound (c ∷ d ∷ e ∷ f ∷ s)
accept_4 c d e f s l h t u v =
    let wc = ((c % 8 * 64 + d % 64) * 64 + e % 64) * 64 + f % 64 in
    only (c ∷ d ∷ e ∷ f ∷ s) 4 wc (decode_4 c d e f s l h t u v) (
      omega arith,
      ground arith,
      omega arith,
      λ g. encode wc 4 (omega arith) (omega (arith, g)) ∙ ground (arith, g),
    )

-- For a string of bytes that unicode_utf8_to_wchar accepts, `n` bytes being taken for `wc`: `wc` is
-- below 0x200000, the string has those `n` bytes, `wc` takes no more of them, and where it takes as
-- many (the form is not overlong), they are what unicode_wchar_to_utf8 stores for it.
pub unicode_utf8_to_wchar_lem :
    (s : List ℕ) (n wc : ℕ)
    → AllBytes s
    → unicode_utf8_to_wchar s ≡ ok (n, wc)
    → (wc < 0x20_0000)
      × (units wc ≤ n)
      × (n ≤ length s)
      × (units wc ≡ n → unicode_wchar_to_utf8 (pos wc) n ≡ ok (take n s))
unicode_utf8_to_wchar_lem [] n wc b e = absurd (to_wchar-Shape [] (n, wc) b e)
unicode_utf8_to_wchar_lem (c ∷ []) n wc b e =
    accept_1 c [] (to_wchar-Shape (c ∷ []) (n, wc) b e) n wc e
unicode_utf8_to_wchar_lem (c ∷ d ∷ []) n wc b e = elim (to_wchar-Shape (c ∷ d ∷ []) (n, wc) b e) [
  | inl h ↦ accept_1 c (d ∷ []) h n wc e
  | inr (l, h, t) ↦ accept_2 c d [] l h t n wc e
]
unicode_utf8_to_wchar_lem (c ∷ d ∷ x ∷ []) n wc b e =
    elim (to_wchar-Shape (c ∷ d ∷ x ∷ []) (n, wc) b e) [
      | inl h ↦ accept_1 c (d ∷ x ∷ []) h n wc e
      | inr (inl (l, h, t)) ↦ accept_2 c d (x ∷ []) l h t n wc e
      | inr (inr (l, h, t, u)) ↦ accept_3 c d x [] l h t u n wc e
    ]
unicode_utf8_to_wchar_lem (c ∷ d ∷ x ∷ y ∷ s) n wc b e =
    elim (to_wchar-Shape (c ∷ d ∷ x ∷ y ∷ s) (n, wc) b e) [
      | inl h ↦ accept_1 c (d ∷ x ∷ y ∷ s) h n wc e
      | inr (inl (l, h, t)) ↦ accept_2 c d (x ∷ y ∷ s) l h t n wc e
      | inr (inr (inl (l, h, t, u))) ↦ accept_3 c d x (y ∷ s) l h t u n wc e
      | inr (inr (inr (l, h, t, u, v))) ↦ accept_4 c d x y s l h t u v n wc e
    ]

-- A defect: every wide character below 0x80 is also accepted in an overlong form of two bytes, which
-- unicode_wchar_to_utf8 never stores.
pub unicode_utf8_to_wchar_overlong :
    (wc size : ℕ) (rest : List ℕ)
    → wc < 0x80
    → (unicode_utf8_to_wchar ((0xC0 + wc / 64) ∷ (0x80 + wc % 64) ∷ rest) ≡ ok (2, wc))
      × (unicode_wchar_to_utf8 (pos wc) size ≢ ok ((0xC0 + wc / 64) ∷ (0x80 + wc % 64) ∷ []))
unfolding unicode_wchar_to_utf8
unicode_utf8_to_wchar_overlong wc size rest h = (
  decode_2 (0xC0 + wc / 64) (0x80 + wc % 64) rest (omega arith) (omega arith) (omega arith)
      ∙ ap (λ n. ok (2, n)) (omega arith),
  λ e. ground arith,
)
