-- ===== src/Platform/Waiting.antt =====
-- What `wait_for_socket` asks of WSAPoll, and what closing a socket undoes.
use ip_finder.Common.{ℕ, ◌^◌, ◌-◌, ◌<◌, ◌≤◌, ◌≡◌, ◌↔◌, refl, All, none, some, ==_refl, arith}
use ip_finder.Common.Int.{ℤ, pos, negsuc}
use ip_finder.Platform.{Socket, Sockets, open_socket, close_socket, wait_argument, wait_for_socket}

-- Closing the newest socket restores the open handles.
pub close-open : (s : Socket) (w : Sockets) → close_socket s (open_socket s w) ≡ (none, w)
unfolding close_socket
close-open none w = refl
close-open (some h) w = ground (arith, ==_refl h)

-- A timeout reaches WSAPoll unchanged exactly when it fits a 32-bit int; from 2^31 up to 2^32
-- milliseconds the argument is negative, which WSAPoll reads as a wait without end; a negative
-- timeout is a wait of 0.
pub wait_argument-bounds :
    (t : ℕ)
    → ((wait_argument (pos t) ≡ pos t) ↔ (t < 2 ^ 31))
      × (2 ^ 31 ≤ t → t < 2 ^ 32 → wait_argument (pos t) ≡ negsuc (2 ^ 32 - 1 - t))
      × (wait_argument (negsuc t) ≡ pos 0)
unfolding wait_argument
wait_argument-bounds t = (ground arith, (λ h k. ground arith), refl)

-- A wait of a number of milliseconds up to the limit.
abbrev pub WaitsAtMost : ℕ → ℤ → Type 0
WaitsAtMost limit (pos m) = m ≤ limit
WaitsAtMost limit (negsuc n) = ⊥

pub wait-WaitsAtMost :
    (bound m : ℕ) (rc : ℤ) (w : Sockets)
    → bound < 2 ^ 31
    → m ≤ bound
    → All (WaitsAtMost bound) w.waits
    → All (WaitsAtMost bound) (wait_for_socket (pos m) rc w).1.waits
unfolding wait_for_socket
wait-WaitsAtMost bound m rc w short le h = (rw ((wait_argument-bounds m).0.1 (omega arith)) le, h)

pub close-waits : (s : Socket) (w : Sockets) → (close_socket s w).1.waits ≡ w.waits
unfolding close_socket
close-waits none w = refl
close-waits (some h) w = refl

pub open-waits : (s : Socket) (w : Sockets) → (open_socket s w).waits ≡ w.waits
open-waits none w = refl
open-waits (some h) w = refl
