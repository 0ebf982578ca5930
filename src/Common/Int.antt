-- ===== src/Common/Int.antt =====
-- Signed integers, and the conversion to a 32-bit int.
use Prim.Native.Nat.{ℕ, zero, suc, ◌+◌, ◌*◌, ◌-◌, ◌%◌, ◌^◌}
use mathlib.Core.Bool.{Bool, true, false}
use ip_finder.Common.Compare.{ltb, if◌then◌else◌}

-- `negsuc n` is -(n + 1).
pub data ℤ : Type 0 where
  pos : ℕ → ℤ
  negsuc : ℕ → ℤ

abbrev pub is_negative : ℤ → Bool
is_negative (pos n) = false
is_negative (negsuc n) = true

abbrev pub is_zero : ℤ → Bool
is_zero (pos zero) = true
is_zero (pos (suc n)) = false
is_zero (negsuc n) = false

-- The value of a bit pattern below 2 ^ 32.
abbrev pub signed32 : ℕ → ℤ
signed32 w = if ltb w (2 ^ 31) then pos w else negsuc (2 ^ 32 - 1 - w)

-- `static_cast<INT>`: the low 32 bits.
abbrev pub to_int32 : ℤ → ℤ
to_int32 (pos n) = signed32 (n % 2 ^ 32)
to_int32 (negsuc n) = signed32 (2 ^ 32 - 1 - n % 2 ^ 32)

-- `now() + timeout` in 64-bit nanoseconds, with the timeout in milliseconds. An instant that
-- overflows to a negative number is 0: every clock is past it.
unfoldable pub after_ms : ℕ → ℕ → ℕ
after_ms start timeout =
    let t = (start + timeout * 1000000) % 2 ^ 64 in if ltb t (2 ^ 63) then t else 0
