-- ===== src/Common/Decimal.antt =====
-- `std::to_string` of an unsigned number and of an int.
use Prim.Native.Nat.{ℕ, zero, suc, ◌+◌, ◌/◌, ◌%◌}
use mathlib.Core.List.{[], ◌∷◌, ◌++◌}
use ip_finder.Common.Compare.{ltb, if◌then◌else◌}
use ip_finder.Common.Bytes.{Bytes}
use ip_finder.Common.Int.{ℤ, pos, negsuc}

-- The digits, on fuel, which is enough when it exceeds the number.
unfoldable pub decimal : ℕ → ℕ → Bytes
decimal zero n = []
decimal (suc fuel) n =
    let front = decimal fuel (n / 10) in
    if ltb n 10 then (b'0' + n) ∷ [] else front ++ ((b'0' + n % 10) ∷ [])

abbrev pub to_string : ℕ → Bytes
to_string n = decimal (suc n) n

abbrev pub int_to_string : ℤ → Bytes
int_to_string (pos n) = to_string n
int_to_string (negsuc n) = b'-' ∷ to_string (suc n)
