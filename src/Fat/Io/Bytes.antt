-- ===== src/Fat/Io/Bytes.antt =====
-- Runs of bytes, sector by sector.
use native.Mathlib.Nat.{div-eq_of_lt-le, div-add-mod', mod-eq-sub-div-mul}
use free_dos.Common.{
  ℕ, zero, suc, ◌+◌, ◌-◌, ◌*◌, ◌/◌, ◌%◌, ◌<◌, ◌≡◌, refl, ◌∙◌, ap, ◌∷◌, ◌++◌, length, arith,
}
use free_dos.Fat.Io.{bytes_from}

pub length-bytes_from : (f : ℕ → ℕ) (from n : ℕ) → length (bytes_from f from n) ≡ n
length-bytes_from f from zero = refl
length-bytes_from f from (suc n) = ap suc (length-bytes_from f (suc from) n)

-- Two runs, one behind the other.
pub bytes_from-append :
    (f : ℕ → ℕ) (from n m : ℕ)
    → bytes_from f from n ++ bytes_from f (from + n) m ≡ bytes_from f from (n + m)
bytes_from-append f from zero m =
    let x : from + 0 ≡ from = omega arith in
    let k : m ≡ 0 + m = omega arith in
    ap (λ y. bytes_from f y m) x ∙ ap (λ j. bytes_from f from j) k
bytes_from-append f from (suc n) m =
    let x : from + suc n ≡ suc from + n = omega arith in
    let k : suc (n + m) ≡ suc n + m = omega arith in
    ap (λ t. f from ∷ t)
      (ap (λ y. bytes_from f (suc from) n ++ bytes_from f y m) x
        ∙ bytes_from-append f (suc from) n m)
    ∙ ap (λ j. bytes_from f from j) k

pub bytes_from-same :
    (f g : ℕ → ℕ) (from to n : ℕ)
    → ((i : ℕ) → i < n → f (from + i) ≡ g (to + i))
    → bytes_from f from n ≡ bytes_from g to n
bytes_from-same f g from to zero h = refl
bytes_from-same f g from to (suc n) h =
    let f0 : from ≡ from + 0 = omega arith in
    let g0 : to + 0 ≡ to = omega arith in
    let head : f from ≡ g to = ap f f0 ∙ h 0 (omega arith) ∙ ap g g0 in
    let tail : bytes_from f (suc from) n ≡ bytes_from g (suc to) n =
      bytes_from-same f g (suc from) (suc to) n (λ i l.
        let fi : suc from + i ≡ from + suc i = omega arith in
        let gi : to + suc i ≡ suc to + i = omega arith in
        ap f fi ∙ h (suc i) (omega arith) ∙ ap g gi) in
    ap (λ x. x ∷ bytes_from f (suc from) n) head ∙ ap (λ t. g to ∷ t) tail

-- Bytes of one sector.
pub same_sector :
    (o i d : ℕ) → 0 < d → o % d + i < d → ((o + i) / d ≡ o / d) × ((o + i) % d ≡ o % d + i)
same_sector o i d pos h =
    let e = div-add-mod' o d in
    let q : (o + i) / d ≡ o / d = div-eq_of_lt-le d (omega (arith, e)) (omega (arith, e)) in
    (q, mod-eq-sub-div-mul (o + i) d ∙ ap (λ k. o + i - k * d) q ∙ omega (arith, e))
