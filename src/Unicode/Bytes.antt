-- ===== src/Unicode/Bytes.antt =====
-- Masks of bytes as arithmetic, checked at every byte.
use free_dos.Common.{
  ℕ, zero, suc, ◌+◌, ◌*◌, ◌/◌, ◌%◌, ◌<◌, ◌≡◌, refl, ◌⊎◌, inl, inr, if◌then◌else◌, false, Bool, true,
  ◌==◌, arith,
}
use Prim.Native.Nat.{bit_and, bit_or}

-- Two functions agree on the numbers below a bound.
same_to : (f g : ℕ → ℕ) → ℕ → Bool
same_to f g zero = true
same_to f g (suc k) = let below = same_to f g k in if f k == g k then below else false

agree_to : (f g : ℕ → ℕ) (k x : ℕ) → x < k → same_to f g k ≡ true → f x ≡ g x
unfolding same_to
agree_to f g zero x b s = absurd (omega arith)
agree_to f g (suc k) x b s =
    let last : (x < k) ⊎ (x ≡ k) = ground arith in
    elim last [ inl l ↦ agree_to f g k x l (ground arith) | inr e ↦ rw e (ground arith) ]

-- The first bits of a lead byte.
pub lead_1 : (c : ℕ) → c < 256 → bit_and c 0x80 ≡ c / 128 * 128
unfolding same_to
lead_1 c b = agree_to (λ c. bit_and c 0x80) (λ c. c / 128 * 128) 256 c b refl

pub lead_2 : (c : ℕ) → c < 256 → bit_and c 0xE0 ≡ c / 32 * 32
unfolding same_to
lead_2 c b = agree_to (λ c. bit_and c 0xE0) (λ c. c / 32 * 32) 256 c b refl

pub lead_3 : (c : ℕ) → c < 256 → bit_and c 0xF0 ≡ c / 16 * 16
unfolding same_to
lead_3 c b = agree_to (λ c. bit_and c 0xF0) (λ c. c / 16 * 16) 256 c b refl

pub lead_4 : (c : ℕ) → c < 256 → bit_and c 0xF8 ≡ c / 8 * 8
unfolding same_to
lead_4 c b = agree_to (λ c. bit_and c 0xF8) (λ c. c / 8 * 8) 256 c b refl

pub trail : (c : ℕ) → c < 256 → bit_and c 0xC0 ≡ c / 64 * 64
unfolding same_to
trail c b = agree_to (λ c. bit_and c 0xC0) (λ c. c / 64 * 64) 256 c b refl

-- The bits that a lead byte carries.
pub low_7 : (c : ℕ) → c < 256 → bit_and c 0x7F ≡ c % 128
unfolding same_to
low_7 c b = agree_to (λ c. bit_and c 0x7F) (λ c. c % 128) 256 c b refl

pub low_5 : (c : ℕ) → c < 256 → bit_and c 0x1F ≡ c % 32
unfolding same_to
low_5 c b = agree_to (λ c. bit_and c 0x1F) (λ c. c % 32) 256 c b refl

pub low_4 : (c : ℕ) → c < 256 → bit_and c 0x0F ≡ c % 16
unfolding same_to
low_4 c b = agree_to (λ c. bit_and c 0x0F) (λ c. c % 16) 256 c b refl

pub low_3 : (c : ℕ) → c < 256 → bit_and c 0x07 ≡ c % 8
unfolding same_to
low_3 c b = agree_to (λ c. bit_and c 0x07) (λ c. c % 8) 256 c b refl

-- Marks put over free bits.
pub mark_trail : (x : ℕ) → x < 64 → bit_or 0x80 x ≡ 0x80 + x
unfolding same_to
mark_trail x b = agree_to (λ x. bit_or 0x80 x) (λ x. 0x80 + x) 64 x b refl

pub mark_2 : (x : ℕ) → x < 32 → bit_or 0xC0 x ≡ 0xC0 + x
unfolding same_to
mark_2 x b = agree_to (λ x. bit_or 0xC0 x) (λ x. 0xC0 + x) 32 x b refl

pub mark_3 : (x : ℕ) → x < 16 → bit_or 0xE0 x ≡ 0xE0 + x
unfolding same_to
mark_3 x b = agree_to (λ x. bit_or 0xE0 x) (λ x. 0xE0 + x) 16 x b refl

pub mark_4 : (x : ℕ) → x < 8 → bit_or 0xF0 x ≡ 0xF0 + x
unfolding same_to
mark_4 x b = agree_to (λ x. bit_or 0xF0 x) (λ x. 0xF0 + x) 8 x b refl
