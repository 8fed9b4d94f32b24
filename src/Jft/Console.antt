-- ===== src/Jft/Console.antt =====
-- fake_console_write of fd32/filesys/jft.c.
use free_dos.Common.{
  ℕ, zero, suc, ◌≤◌, ◌≡◌, refl, ◌∙◌, ap, List, [], ◌∷◌, ◌++◌, length, take, drop, arith,
  take-append-drop, length-drop, length-take,
}
use free_dos.Jft.{console_pieces}

abbrev pub concat : List (List ℕ) → List ℕ
concat [] = []
concat (xs ∷ rest) = xs ++ concat rest

-- Each piece fits into the string with its end mark.
abbrev pub AllFit : List (List ℕ) → Type 0
AllFit [] = Unit {0}
AllFit (xs ∷ rest) = (length xs ≤ 254) × AllFit rest

-- As many rounds as there are characters are enough: fake_console_write passes on the whole buffer in
-- order, in pieces of at most 254 characters.
pub console_pieces_lem :
    (rounds : ℕ) (buffer : List ℕ)
    → length buffer ≤ rounds
    → (concat (console_pieces rounds buffer) ≡ buffer) × AllFit (console_pieces rounds buffer)
unfolding console_pieces
console_pieces_lem zero [] h = (refl, tt)
console_pieces_lem zero (c ∷ rest) h = absurd (omega arith)
console_pieces_lem (suc rounds) [] h = (refl, tt)
console_pieces_lem (suc rounds) (c ∷ rest) h =
    let (a, b) =
      console_pieces_lem rounds (drop 254 (c ∷ rest)) (omega (arith, length-drop 254 (c ∷ rest))) in
    (
      ap (λ t. take 254 (c ∷ rest) ++ t) a ∙ take-append-drop 254 (c ∷ rest),
      (omega (arith, length-take 254 (c ∷ rest)), b),
    )
