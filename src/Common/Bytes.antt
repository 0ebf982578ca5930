-- ===== src/Common/Bytes.antt =====
-- std::string as a list of bytes, with the member functions that the sources call.
use Prim.Native.Char.{code}
use Prim.Native.String.{String}
use Prim.Native.Nat.{ℕ, ◌+◌, ◌-◌}
use mathlib.Core.Path.{◌≡◌, refl}
use mathlib.Core.Logic.{◌↔◌}
use mathlib.Core.Bool.{Bool, true, false, ◌&&◌, ◌||◌}
use mathlib.Core.List.{List, [], ◌∷◌, ◌++◌}
use native.Mathlib.Omega.{arith}
use ip_finder.Common.Compare.{ltb, ◌==◌, if◌then◌else◌, ==_refl, ==_iff}
use ip_finder.Common.Lists.{All, is_empty}

abbrev pub Bytes : Type 0
Bytes = List ℕ

-- The code points of a literal: its bytes, if it is ASCII.
abbrev pub codes : String → Bytes
codes String.[] = []
codes (String.◌∷◌ c s) = code c ∷ codes s

-- A digit of "%x" and of `std::hex`.
abbrev pub hex_digit : ℕ → ℕ
hex_digit n = if ltb n 10 then b'0' + n else b'a' + (n - 10)

-- `operator==`
unfoldable pub equal : Bytes → Bytes → Bool
equal [] t = is_empty t
equal (c ∷ s) [] = false
equal (c ∷ s) (d ∷ t) = c == d && equal s t

-- `text.rfind(prefix, 0) == 0`
unfoldable pub starts_with : Bytes → Bytes → Bool
starts_with [] s = true
starts_with (p ∷ ps) [] = false
starts_with (p ∷ ps) (c ∷ cs) = p == c && starts_with ps cs

-- `text.find(part) != npos`
unfoldable pub contains : Bytes → Bytes → Bool
unfolding starts_with
contains part [] = starts_with part []
contains part (c ∷ cs) = starts_with part (c ∷ cs) || contains part cs

-- `text.substr(0, text.find(b))`, and the whole text where the byte does not occur
unfoldable pub before : ℕ → Bytes → Bytes
before b [] = []
before b (c ∷ cs) = let rest = before b cs in if c == b then [] else c ∷ rest

-- Dropping the bytes that meet a test from the front, and from the back.
unfoldable pub strip_start : (ℕ → Bool) → Bytes → Bytes
strip_start p [] = []
strip_start p (c ∷ cs) = if p c then strip_start p cs else c ∷ cs

unfoldable pub strip_end : (ℕ → Bool) → Bytes → Bytes
strip_end p [] = []
strip_end p (c ∷ cs) = let rest = strip_end p cs in if p c && is_empty rest then [] else c ∷ rest

pub equal_iff : (s t : Bytes) → (equal s t ≡ true) ↔ (s ≡ t)
unfolding equal
equal_iff [] [] = ground arith
equal_iff [] (d ∷ t) = ground arith
equal_iff (c ∷ s) [] = ground arith
equal_iff (c ∷ s) (d ∷ t) = ground (arith, ==_iff c d, equal_iff s t)

pub equal_refl : (a : Bytes) → equal a a ≡ true
equal_refl a = (equal_iff a a).1 refl

pub starts_with-append : (p s : Bytes) → starts_with p (p ++ s) ≡ true
unfolding starts_with
starts_with-append [] s = refl
starts_with-append (c ∷ p) s = ground (arith, ==_refl c, starts_with-append p s)

pub starts_with-extend : (p s t : Bytes) → starts_with p s ≡ true → starts_with p (s ++ t) ≡ true
unfolding starts_with
starts_with-extend [] s t h = refl
starts_with-extend (c ∷ p) [] t h = cc
starts_with-extend (c ∷ p) (d ∷ s) t h = ground (arith, starts_with-extend p s t)

pub starts_with-eq_append : (p s : Bytes) → starts_with p s ≡ true → (t : Bytes) × (s ≡ p ++ t)
unfolding starts_with
starts_with-eq_append [] s h = (s, refl)
starts_with-eq_append (c ∷ p) [] h = cc
starts_with-eq_append (c ∷ p) (d ∷ s) h =
    let (t, e) = starts_with-eq_append p s (ground arith) in (t, ground arith)

pub before_absent : (b : ℕ) (s : Bytes) → All (λ c. (c == b) ≡ false) s → before b s ≡ s
unfolding before
before_absent b [] h = refl
before_absent b (c ∷ s) h = ground (arith, before_absent b s h.1)
