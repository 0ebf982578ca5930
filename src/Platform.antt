-- ===== src/Platform.antt =====
-- platform/windows_sockets.{hpp,cpp}: socket handles of the process, closing, and waiting.
-- A `socket_t` is `none` for INVALID_SOCKET. What Windows answers to a call is an argument.
pub mod Waiting
use mathlib.Core.List.{List, [], ◌++◌}
use ip_finder.Common.{
  ℕ, Bool, true, false, ◌==◌, ◌||◌, ◌&&◌, ◌∷◌, if◌then◌else◌, is_empty, Option, none, some,
}
use ip_finder.Common.Bytes.{Bytes, codes, strip_end}
use ip_finder.Common.Decimal.{to_string}
use ip_finder.Common.Int.{ℤ, pos, is_negative, to_int32}

abbrev pub Socket : Type 0
Socket = Option ℕ

abbrev pub invalid_socket : Socket
invalid_socket = none

-- The handles that are open, the newest first, and the arguments of the calls of WSAPoll so far.
pub record Sockets : Type 0 where
  pub open_handles : List ℕ
  pub waits : List ℤ

abbrev pub erase_handle : ℕ → List ℕ → List ℕ
erase_handle h [] = []
erase_handle h (x ∷ xs) = let rest = erase_handle h xs in if x == h then xs else x ∷ rest

-- `::socket`, with its answer
abbrev pub open_socket : Socket → Sockets → Sockets
open_socket none w = w
open_socket (some h) w = record w { open_handles = h ∷ w.open_handles }

-- The handle afterwards, and the open handles.
unfoldable pub close_socket : Socket → Sockets → Socket × Sockets
close_socket none w = (none, w)
close_socket (some h) w =
    (invalid_socket, record w { open_handles = erase_handle h w.open_handles })

-- The argument of WSAPoll: a negative timeout counts as 0, and the rest is cast to a 32-bit int.
unfoldable pub wait_argument : ℤ → ℤ
wait_argument timeout = to_int32 (if is_negative timeout then pos 0 else timeout)

-- The answer of WSAPoll is passed on.
unfoldable pub wait_for_socket : ℤ → ℤ → Sockets → ℤ × Sockets
unfolding wait_argument
wait_for_socket timeout answer w = (answer, record w { waits = wait_argument timeout ∷ w.waits })

-- `std::call_once`, and a static that is initialised at its first use: the answer of the first call
-- is kept. `none` stands for a flag that is not set yet.
unfoldable pub initialise_once : Bool → Option Bool → Option Bool
initialise_once answer none = some answer
initialise_once answer (some ready) = some ready

-- Whether the flag is set, and the call has succeeded.
abbrev pub is_ready : Option Bool → Bool
is_ready none = false
is_ready (some ready) = ready

-- What is cut from the end of a message of Windows.
abbrev pub is_line_end : ℕ → Bool
is_line_end c = c == b'\r' || c == b'\n' || c == b' ' || c == b'.'

-- With the message that FormatMessage gives for the code: `none` where it fails.
unfoldable pub socket_error_text : (ℕ → Option Bytes) → ℕ → Bytes
unfolding strip_end
socket_error_text format_message error_code = elim (format_message error_code) [
  | none ↦ codes "Winsock error " ++ to_string error_code
  | some message ↦
      if is_empty message
      then codes "Winsock error " ++ to_string error_code
      else strip_end is_line_end message ++ codes " (error " ++ to_string error_code ++ codes ")"
]

-- What Windows says about the access token: it is opened, read, and elevated.
pub record Token : Type 0 where
  pub opened : Bool
  pub was_read : Bool
  pub elevated : Bool

unfoldable pub is_process_elevated : Token → Bool
is_process_elevated token = token.opened && (token.was_read && token.elevated)
