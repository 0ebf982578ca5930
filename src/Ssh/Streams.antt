-- ===== src/Ssh/Streams.antt =====
-- What the reading loops of a remote command append.
use ip_finder.Common.{
  ℕ, zero, suc, ◌<◌, ◌≡◌, refl, ◌∙◌, ap, Bool, true, false, [], ◌∷◌, ◌++◌, Option, some, arith,
}
use ip_finder.Common.Bytes.{Bytes}
use ip_finder.Ssh.Execute.{Read, block, end_of_stream, read_error, append_read, read_stream}

abbrev pub is_block : Read → Bool
is_block (block c cs) = true
is_block end_of_stream = false
is_block read_error = false

abbrev pub bytes_of : Read → Bytes
bytes_of (block c cs) = c ∷ cs
bytes_of end_of_stream = []
bytes_of read_error = []

-- The bytes of `n` reads from the read `i` on.
abbrev pub up_to : (ℕ → Read) → ℕ → ℕ → Bytes
up_to reads zero i = []
up_to reads (suc n) i = bytes_of (reads i) ++ up_to reads n (suc i)

-- `n` reads from the read `i` on give bytes, and the next one does not.
abbrev pub StopsAfter : (ℕ → Read) → ℕ → ℕ → Type 0
StopsAfter reads zero i = is_block (reads i) ≡ false
StopsAfter reads (suc n) i = (is_block (reads i) ≡ true) × StopsAfter reads n (suc i)

append_read-stop :
    (r : Read) (rest : Option Bytes) → is_block r ≡ false → append_read r rest ≡ some []
append_read-stop (block c cs) rest e = cc
append_read-stop end_of_stream rest e = refl
append_read-stop read_error rest e = refl

append_read-block :
    (r : Read) (rest : Bytes)
    → is_block r ≡ true
    → append_read r (some rest) ≡ some (bytes_of r ++ rest)
append_read-block (block c cs) rest e = refl
append_read-block end_of_stream rest e = cc
append_read-block read_error rest e = cc

pub read_stream-up_to :
    (reads : ℕ → Read) (n i fuel : ℕ)
    → StopsAfter reads n i
    → n < fuel
    → read_stream reads fuel i ≡ some (up_to reads n i)
unfolding read_stream
read_stream-up_to reads n i zero stops more = absurd (omega (arith, more))
read_stream-up_to reads zero i (suc fuel) stops more = append_read-stop (reads i) _ stops
read_stream-up_to reads (suc n) i (suc fuel) (now, later) more =
    ap (append_read (reads i)) (read_stream-up_to reads n (suc i) fuel later (omega arith))
    ∙ append_read-block (reads i) (up_to reads n (suc i)) now
