-- ===== src/Common/Errno.antt =====
-- fd32/include/errno.h, and results of C functions that return a negative error code.
use Prim.Native.Nat.{ℕ}
use mathlib.Core.Path.{◌≡◌, refl}
use mathlib.Core.Logic.{◌⊎◌, inl, inr}

-- `err e` stands for the return value `-e`.
pub data Res (A : Type 0) : Type 0 where
  ok : A → Res A
  err : ℕ → Res A

abbrev pub eio : ℕ
eio = 5

abbrev pub enoent : ℕ
enoent = 2

abbrev pub ebadf : ℕ
ebadf = 9

abbrev pub emfile : ℕ
emfile = 24

abbrev pub enmfile : ℕ
enmfile = 89

abbrev pub enxio : ℕ
enxio = 6

abbrev pub enodev : ℕ
enodev = 19

abbrev pub enotdir : ℕ
enotdir = 20

abbrev pub enomem : ℕ
enomem = 12

abbrev pub eexist : ℕ
eexist = 17

abbrev pub eilseq : ℕ
eilseq = 138

abbrev pub enametoolong : ℕ
enametoolong = 91

abbrev pub einval : ℕ
einval = 22

abbrev pub efbig : ℕ
efbig = 27

abbrev pub enospc : ℕ
enospc = 28

pub Res-cases : {A : Type 0} (r : Res A) → ((a : A) × (r ≡ ok a)) ⊎ ((e : ℕ) × (r ≡ err e))
Res-cases (ok a) = inl (a, refl)
Res-cases (err e) = inr (e, refl)

-- A C function over a state `T`: what was changed before an error stays changed.
abbrev pub M : Type 0 → Type 0 → Type 0
M T A = T → Res A × T

infixl 5 ◌>>=◌ ◌>>◌
abbrev pub ◌>>=◌ : {T A B : Type 0} → M T A → (A → M T B) → M T B
◌>>=◌ m f t = elim ((m t).0) [ ok a ↦ f a ((m t).1) | err e ↦ (err e, (m t).1) ]

abbrev pub ◌>>◌ : {T A B : Type 0} → M T A → M T B → M T B
m >> k = m >>= λ _. k

abbrev pub return : {T A : Type 0} → A → M T A
return a t = (ok a, t)

abbrev pub fail : {T A : Type 0} → ℕ → M T A
fail e t = (err e, t)

-- A call by the outcome of its first part.
module _ {T A B : Type 0} (m : M T A) (f : A → M T B) (t : T) where
  pub >>=-of_ok : {a : A} → (m t).0 ≡ ok a → (m >>= f) t ≡ f a ((m t).1)
  >>=-of_ok h = rw (h, ◌>>=◌)

  pub >>=-of_err : {e : ℕ} → (m t).0 ≡ err e → (m >>= f) t ≡ (err e, (m t).1)
  >>=-of_err h = rw (h, ◌>>=◌)
