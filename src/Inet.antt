-- ===== src/Inet.antt =====
-- Winsock's address conversion, which is not part of the sources: a parameter of the model.
-- An in_addr is the number that its four bytes spell in host byte order, so that `ntohl` and
-- `htonl`, which every caller applies at once, are part of the conversion.
use ip_finder.Common.{All, ◌==◌, false, ℕ, ◌<◌, ◌^◌, ◌≡◌, Option, none, some, []}
use ip_finder.Common.Bytes.{Bytes}

pub record Inet : Type 0 where
  -- `::inet_pton(AF_INET, text, &addr) == 1`, with the address
  pub pton : Bytes → Option ℕ
  -- `::inet_ntop(AF_INET, &addr, buffer, size)`, with `none` for a null result
  pub ntop : ℕ → Option Bytes

-- What is documented of the two functions: a 32-bit address always has a text, which the other
-- function reads back and which has no zero byte; only 32-bit addresses are read; the empty text is
-- none.
pub record IsInet (net : Inet) : Type 0 where
  pub ntop_total : (a : ℕ) → a < 2 ^ 32 → (t : Bytes) × (net.ntop a ≡ some t)
  pub pton-ntop : (a : ℕ) (t : Bytes) → a < 2 ^ 32 → net.ntop a ≡ some t → net.pton t ≡ some a
  pub pton-lt : (t : Bytes) (a : ℕ) → net.pton t ≡ some a → a < 2 ^ 32
  pub pton-nil : net.pton [] ≡ none
  pub ntop-no_zero : (a : ℕ) (t : Bytes) → net.ntop a ≡ some t → All (λ c. (c == 0) ≡ false) t
