-- ===== src/Scanner/Connect/Outcome.antt =====
-- When `tcp_connect` reports a connection, and how long it waits.
use ip_finder.Common.{true, false, ◌∷◌, ◌≡◌, ◌≢◌, ◌↔◌, ◌⊎◌, refl, is_some, arith}
use ip_finder.Common.Bytes.{Bytes, before}
use ip_finder.Common.Int.{ℤ, is_negative, is_zero}
use ip_finder.Inet.{Inet}
use ip_finder.Platform.Waiting.{close-waits, open-waits}
use ip_finder.Platform.{Socket, Sockets, open_socket, wait_argument, wait_for_socket}
use ip_finder.Scanner.Connect.{
  connected, wsaewouldblock, wsaeinprogress, Answers, after_connect, tcp_connect,
}
use ip_finder.Scanner.Connect.Ownership.{classify-connected}

-- What the peer and the local calls have to answer after the socket is there.
abbrev pub Handshake : Answers → Type 0
Handshake a =
    (a.connected_at_once ≡ true)
    ⊎ (((a.connect_error ≡ wsaewouldblock) ⊎ (a.connect_error ≡ wsaeinprogress))
        × (is_zero a.poll ≡ false)
        × (is_negative a.poll ≡ false)
        × (a.read_so_error ≡ true)
        × (a.so_error ≡ 0))

abbrev pub Ready : Inet → Answers → Bytes → Type 0
Ready net a ip =
    (a.winsock_ready ≡ true)
    × (is_some (net.pton (before 0 ip)) ≡ true)
    × (is_some a.new_socket ≡ true)
    × (a.non_blocking ≡ true)

-- The waits grow by at most one, for the given timeout.
abbrev pub WaitsOnce : ℤ → Sockets → Sockets → Type 0
WaitsOnce timeout w w' = (w'.waits ≡ w.waits) ⊎ (w'.waits ≡ wait_argument timeout ∷ w.waits)

wait-waits :
    (timeout answer : ℤ) (w : Sockets)
    → (wait_for_socket timeout answer w).1.waits ≡ wait_argument timeout ∷ w.waits
unfolding wait_for_socket
wait-waits timeout answer w = refl

module _ (a : Answers) (timeout : ℤ) (handle : Socket) (w : Sockets) where
  after_connect-connected :
      (a.connected_at_once ≡ false → a.connect_error ≢ 0)
      → (after_connect a timeout handle w).result ≡ connected
      → Handshake a
  unfolding after_connect wait_for_socket
  after_connect-connected sure h =
      ground (arith, classify-connected a.connect_error, classify-connected a.so_error, sure)

  connected-after_connect : Handshake a → (after_connect a timeout handle w).result ≡ connected
  unfolding after_connect wait_for_socket
  connected-after_connect h = ground arith

  after_connect-waits :
      ((after_connect a timeout handle w).sockets.waits ≡ w.waits)
      ⊎ ((after_connect a timeout handle w).sockets.waits ≡ wait_argument timeout ∷ w.waits)
  unfolding after_connect
  after_connect-waits = ground (
    arith,
    close-waits handle w,
    wait-waits timeout a.poll w,
    close-waits handle (wait_for_socket timeout a.poll w).1,
  )

module _ (net : Inet) (a : Answers) (ip : Bytes) (timeout : ℤ) (w : Sockets) where
  -- Provided that Windows gives an error code for a connect that fails: a connection is reported
  -- exactly when the address is valid, every local call succeeds, and the peer either answers at
  -- once or the pending attempt becomes ready in time and SO_ERROR confirms it; the sockets are
  -- polled at most once, with the given timeout.
  pub tcp_connect-connected :
      (a.connected_at_once ≡ false → a.connect_error ≢ 0)
      → (((tcp_connect net a ip timeout w).result ≡ connected) ↔ (Ready net a ip × Handshake a))
        × WaitsOnce timeout w (tcp_connect net a ip timeout w).sockets
  unfolding tcp_connect
  tcp_connect-connected sure =
      let w' = open_socket a.new_socket w in
      (
        (
          λ h. ground (arith, after_connect-connected a timeout a.new_socket w' sure),
          λ (r, h). ground (arith, connected-after_connect a timeout a.new_socket w' h),
        ),
        ground (
          arith,
          after_connect-waits a timeout a.new_socket w',
          close-waits a.new_socket w',
          open-waits a.new_socket w,
        ),
      )
