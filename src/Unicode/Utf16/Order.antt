-- ===== src/Unicode/Utf16/Order.antt =====
-- The byte order of the units of fd32/modules/unicode/utf16be.c and utf16le.c.
use free_dos.Common.{ℕ, ◌^◌, ◌<◌, ◌≡◌, refl, arith}
use free_dos.Unicode.Utf16.{little_endian_16, big_endian_16}

-- A byte order is an involution on 16-bit words.
pub record IsOrder (order : ℕ → ℕ) : Type 0 where
  pub twice : (v : ℕ) → v < 2 ^ 16 → order (order v) ≡ v
  pub word : (v : ℕ) → v < 2 ^ 16 → order v < 2 ^ 16

big_twice : (v : ℕ) → v < 2 ^ 16 → big_endian_16 (big_endian_16 v) ≡ v
big_twice v h = omega arith

big_word : (v : ℕ) → v < 2 ^ 16 → big_endian_16 v < 2 ^ 16
big_word v h = omega arith

pub little_endian_16-IsOrder : IsOrder little_endian_16
little_endian_16-IsOrder = record { twice = λ v h. refl; word = λ v h. h }

pub big_endian_16-IsOrder : IsOrder big_endian_16
big_endian_16-IsOrder = record { twice = big_twice; word = big_word }
