-- ===== src/Scanner/Connect.antt =====
-- scanner/port_scanner.{hpp,cpp}: one TCP connection attempt.
pub mod Ownership
pub mod Outcome
use ip_finder.Common.{
  ℕ, Bool, true, false, ◌&&◌, ◌||◌, not, ◌==◌, if◌then◌else◌, Option, none, some, is_some,
}
use ip_finder.Common.Bytes.{Bytes, codes, before}
use ip_finder.Common.Int.{ℤ, is_negative, is_zero}
use ip_finder.Inet.{Inet}
use ip_finder.Platform.{Socket, Sockets, invalid_socket, open_socket, close_socket, wait_for_socket}

pub data ConnectResult : Type 0 where
  connected refused timed_out unreachable error : ConnectResult

unfoldable pub to_string : ConnectResult → Bytes
to_string connected = codes "connected"
to_string refused = codes "connection refused"
to_string timed_out = codes "timed out"
to_string unreachable = codes "unreachable"
to_string error = codes "error"

-- The documented values of winsock2.h.
abbrev pub wsaenetdown : ℕ
wsaenetdown = 10050

abbrev pub wsaenetunreach : ℕ
wsaenetunreach = 10051

abbrev pub wsaetimedout : ℕ
wsaetimedout = 10060

abbrev pub wsaeconnrefused : ℕ
wsaeconnrefused = 10061

abbrev pub wsaehostdown : ℕ
wsaehostdown = 10064

abbrev pub wsaehostunreach : ℕ
wsaehostunreach = 10065

abbrev pub wsaewouldblock : ℕ
wsaewouldblock = 10035

abbrev pub wsaeinprogress : ℕ
wsaeinprogress = 10036

unfoldable pub classify : ℕ → ConnectResult
classify code =
    if code == 0
    then connected
    else if code == wsaeconnrefused
    then refused
    else if code == wsaetimedout
    then timed_out
    else if code == wsaehostunreach
        || code == wsaenetunreach
        || code == wsaehostdown
        || code == wsaenetdown
    then unreachable
    else error

-- What Windows answers to the calls of one attempt, in their order.
pub record Answers : Type 0 where
  pub winsock_ready : Bool
  pub new_socket : Socket
  pub non_blocking : Bool
  pub connected_at_once : Bool
  pub connect_error : ℕ
  pub poll : ℤ
  pub read_so_error : Bool
  pub so_error : ℕ

-- The result, `out_socket`, and the sockets of the process.
pub record Attempt : Type 0 where
  pub result : ConnectResult
  pub out_socket : Socket
  pub sockets : Sockets

abbrev refuse : ConnectResult → Sockets → Attempt
refuse r w = record { result = r; out_socket = invalid_socket; sockets = w }

abbrev close_and : ConnectResult → Socket → Sockets → Attempt
close_and r handle w = refuse r (close_socket handle w).1

-- From the answer of WSAPoll on.
after_poll : Answers → Socket → ℤ → Sockets → Attempt
after_poll a handle rc w =
    if is_zero rc
    then close_and timed_out handle w
    else if is_negative rc
    then close_and error handle w
    else if not a.read_so_error
    then close_and error handle w
    else if not (a.so_error == 0)
    then close_and (classify a.so_error) handle w
    else record { result = connected; out_socket = handle; sockets = w }

-- From `::connect` on.
after_connect : Answers → ℤ → Socket → Sockets → Attempt
unfolding after_poll
after_connect a timeout handle w =
    if a.connected_at_once
    then record { result = connected; out_socket = handle; sockets = w }
    else if not (a.connect_error == wsaewouldblock) && not (a.connect_error == wsaeinprogress)
    then close_and (classify a.connect_error) handle w
    else (let (rc, w') = wait_for_socket timeout a.poll w in after_poll a handle rc w')

unfoldable pub tcp_connect : Inet → Answers → Bytes → ℤ → Sockets → Attempt
unfolding after_connect before classify close_socket wait_for_socket
tcp_connect net a ip timeout w =
    if not a.winsock_ready
    then refuse error w
    else if not (is_some (net.pton (before 0 ip)))
    then refuse error w
    else if not (is_some a.new_socket)
    then refuse error w
    else (let handle = a.new_socket in
        let w' = open_socket handle w in
        if not a.non_blocking then close_and error handle w' else after_connect a timeout handle w')

-- Connecting, and closing at once.
unfoldable pub tcp_probe : Inet → Answers → Bytes → ℤ → Sockets → ConnectResult × Sockets
tcp_probe net a ip timeout w =
    let t = tcp_connect net a ip timeout w in (t.result, (close_socket t.out_socket t.sockets).1)
