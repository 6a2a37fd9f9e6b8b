-- ===== src/Integers.antt =====
-- Go's int64, which time.Duration is too.
use Prim.Native.Nat.{◌-◌, Ordering, compare}
use rbacsync.Prelude.{ℕ, suc, ◌*◌, ◌^◌, ◌<◌, nat_eq, ◌==◌, Bool, true, false, not, if◌then◌else◌}

abbrev ltb : ℕ → ℕ → Bool
ltb a b = elim (compare a b) [ Ordering.lt ↦ true | _ ↦ false ]

-- `negsuc n` is -(n + 1).
pub data ℤ : Type 0 where
  pos : ℕ → ℤ
  negsuc : ℕ → ℤ

abbrev pub is_zero : ℤ → Bool
is_zero (pos n) = n == 0
is_zero (negsuc n) = false

abbrev pub is_positive : ℤ → Bool
is_positive (pos n) = not (n == 0)
is_positive (negsuc n) = false

-- The integers that an int64 holds.
abbrev pub IsInt64 : ℤ → Type 0
IsInt64 (pos n) = n < 2 ^ 63
IsInt64 (negsuc n) = n < 2 ^ 63

-- The 64 bits of an int64, as a number, and the int64 of 64 bits.
abbrev pub bits : ℤ → ℕ
bits (pos n) = n
bits (negsuc n) = 2 ^ 64 - 1 - n

abbrev pub signed : ℕ → ℤ
signed b = if ltb b (2 ^ 63) then pos b else negsuc (2 ^ 64 - 1 - b)

-- The product with a number, without a bound.
abbrev pub scaled : ℕ → ℤ → ℤ
scaled k (pos n) = pos (n * k)
scaled k (negsuc n) = negsuc (suc n * k - 1)
