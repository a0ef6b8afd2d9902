-- ===== src/Prelude/Integer.antt =====
-- The integers over the native natural numbers: `negsuc n` is -(n + 1).
use Prim.Native.Nat.{ℕ, ◌+◌, ◌-◌}
use mathlib.Core.Bool.{Bool, true, false}
use mnemostroma.Prelude.Tests.{leb, if◌then◌else◌}

pub data ℤ : Type 0 where
  pos : ℕ → ℤ
  negsuc : ℕ → ℤ

infix 60 ◌⊖◌
-- The difference of two natural numbers.
abbrev pub ◌⊖◌ : ℕ → ℕ → ℤ
m ⊖ n = if leb n m then pos (m - n) else negsuc (n - (m + 1))

infixl 60 ◌+ℤ◌
abbrev pub ◌+ℤ◌ : ℤ → ℤ → ℤ
pos m +ℤ pos n = pos (m + n)
pos m +ℤ negsuc n = m ⊖ (n + 1)
negsuc m +ℤ pos n = n ⊖ (m + 1)
negsuc m +ℤ negsuc n = negsuc (m + n + 1)

-- What is above zero of an integer, and what is below.
abbrev pub above : ℤ → ℕ
above (pos n) = n
above (negsuc n) = 0

abbrev pub below : ℤ → ℕ
below (pos n) = 0
below (negsuc n) = n + 1

abbrev pub abs : ℤ → ℕ
abs z = above z + below z

-- `a <= b`
abbrev pub leb_int : ℤ → ℤ → Bool
leb_int a b = leb (above a + below b) (above b + below a)

-- `max(a, b)`: the first unless the second is greater.
abbrev pub max_int : ℤ → ℤ → ℤ
max_int a b = if leb_int b a then a else b

abbrev pub is_negative : ℤ → Bool
is_negative (pos n) = false
is_negative (negsuc n) = true
