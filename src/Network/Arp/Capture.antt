-- ===== src/Network/Arp/Capture.antt =====
-- network/arp_discovery.cpp: the capture, and the discovery around it.
pub mod Discover
use ip_finder.Common.{
  ℕ, zero, suc, ◌+◌, ◌*◌, ◌-◌, ◌/◌, min, Bool, true, false, not, ◌&&◌, ◌||◌, List, [], ◌∷◌, ◌++◌,
  ◌==◌, leb, if◌then◌else◌, is_empty, is_some, Option, none, some,
}
use ip_finder.Common.Bytes.{Bytes, codes, equal, before}
use ip_finder.Common.Int.{pos, ℤ, is_negative, is_zero, after_ms}
use ip_finder.Inet.{Inet}
use ip_finder.Network.Arp.{
  L2Observation, ipv4_traffic, L2DiscoveryResult, add_observation, parse_ipv4_source_address, Row,
  read_neighbour_cache,
}
use ip_finder.Network.Interface.{NetworkInterface}
use ip_finder.Platform.{Socket, Sockets, open_socket, close_socket, wait_for_socket}

-- What `recv` gives: a packet; nothing, or the error WSAEMSGSIZE; another error.
pub data Received : Type 0 where
  packet : Bytes → Received
  no_packet : Received
  failed : Received

-- What one round of the loop gets: the clock in nanoseconds, and the answers of WSAPoll and `recv`.
pub record Round : Type 0 where
  pub now : ℕ
  pub poll : ℤ
  pub received : Received

abbrev is_failed : Received → Bool
is_failed (packet p) = false
is_failed no_packet = false
is_failed failed = true

-- Whether the round breaks out of the loop.
abbrev pub breaks : Round → Bool
breaks r = is_negative r.poll || (not (is_zero r.poll) && is_failed r.received)

unfoldable pub observe : Inet → Bytes → List L2Observation → Received → List L2Observation
observe net own observations (packet p) =
    let source = parse_ipv4_source_address net p in
    if is_empty source || equal source own
    then observations
    else add_observation net observations (record { ip = source; mac = []; source = ipv4_traffic })
observe net own observations no_packet = observations
observe net own observations failed = observations

-- `kCapturePollSlice`, in milliseconds
abbrev pub capture_poll_slice : ℕ
capture_poll_slice = 200

-- The loop on fuel; `none` means that the fuel ran out.
unfoldable pub capture_loop :
    Inet
    → Bytes
    → ℕ
    → (ℕ → Round)
    → ℕ
    → ℕ
    → List L2Observation
    → Sockets
    → Option (List L2Observation × Sockets)
capture_loop net own zero rounds i deadline observations w = none
capture_loop net own (suc fuel) rounds i deadline observations w =
    let r = rounds i in
    let remaining = (deadline - r.now) / 1000000 in
    let (rc, w') = wait_for_socket (pos (min remaining capture_poll_slice)) r.poll w in
    let seen = if is_zero rc then observations else observe net own observations r.received in
    let more = capture_loop net own fuel rounds (suc i) deadline seen w' in
    if leb deadline r.now
    then some (observations, w)
    else if breaks r
    then some (observations, w')
    else more

-- What Windows answers to the calls of one capture.
pub record Link : Type 0 where
  pub winsock_ready : Bool
  pub new_socket : Socket
  pub socket_error : ℕ
  pub elevated : Bool
  pub bound : Bool
  pub bind_error : ℕ
  pub promiscuous : Bool
  pub ioctl_error : ℕ
  pub start : ℕ
  pub rounds : ℕ → Round

-- The documented value of winsock2.h.
abbrev pub wsaeacces : ℕ
wsaeacces = 10013

abbrev elevation_hint : Bytes
elevation_hint =
    codes
      " (layer-2 discovery needs an elevated process: re-run device-discovery from an Administrator command prompt)"

abbrev with_error : Bytes → L2DiscoveryResult → L2DiscoveryResult
with_error text result = record result { error = text }

abbrev hint_if : Bool → Bytes
hint_if b = if b then elevation_hint else []

abbrev no_socket : (ℕ → Bytes) → Link → NetworkInterface → L2DiscoveryResult → L2DiscoveryResult
no_socket error_text link iface result =
    let denied = link.socket_error == wsaeacces in
    record result {
      permission_denied = denied;
      error =
          codes "cannot open a promiscuous capture socket on "
          ++ iface.name
          ++ codes ": "
          ++ error_text link.socket_error
          ++ hint_if (denied || not link.elevated);
    }

abbrev no_ioctl : (ℕ → Bytes) → Link → NetworkInterface → L2DiscoveryResult → L2DiscoveryResult
no_ioctl error_text link iface result =
    let denied = link.ioctl_error == wsaeacces in
    record result {
      permission_denied = denied;
      error =
          codes "cannot enable promiscuous mode on "
          ++ iface.name
          ++ codes ": "
          ++ error_text link.ioctl_error
          ++ hint_if denied;
    }

-- From the socket on; the guard closes it on every way out.
unfoldable pub capture_on :
    Inet
    → (ℕ → Bytes)
    → Link
    → ℕ
    → NetworkInterface
    → ℕ
    → L2DiscoveryResult
    → Sockets
    → Option (L2DiscoveryResult × Sockets)
unfolding after_ms
capture_on net error_text link fuel iface window result w =
    let handle = link.new_socket in
    let closed = (close_socket handle w).1 in
    let deadline = after_ms link.start window in
    if not (is_some (net.pton (before 0 iface.ipv4)))
    then some (
      with_error (codes "invalid local address " ++ iface.ipv4 ++ codes " for " ++ iface.name)
          result,
      closed,
    )
    else if not link.bound
    then some (
      with_error
          (codes "cannot bind the capture socket to "
            ++ iface.ipv4
            ++ codes ": "
            ++ error_text link.bind_error)
          result,
      closed,
    )
    else if not link.promiscuous
    then some (no_ioctl error_text link iface result, closed)
    else elim (capture_loop net iface.ipv4 fuel link.rounds 0 deadline result.observations w) [
      | none ↦ none
      | some (observations, w') ↦
          some (record result { observations = observations }, (close_socket handle w').1)
    ]

unfoldable pub capture_link_traffic :
    Inet
    → (ℕ → Bytes)
    → Link
    → ℕ
    → NetworkInterface
    → ℕ
    → L2DiscoveryResult
    → Sockets
    → Option (L2DiscoveryResult × Sockets)
capture_link_traffic net error_text link fuel iface window result w =
    if not link.winsock_ready
    then some (with_error (codes "Winsock initialisation failed") result, w)
    else if not (is_some link.new_socket)
    then some (no_socket error_text link iface result, w)
    else capture_on net error_text link fuel iface window result (open_socket link.new_socket w)

-- The loop over what the neighbour cache gives.
unfoldable pub add_cached :
    Inet → Bytes → List L2Observation → List L2Observation → List L2Observation
add_cached net own [] observations = observations
add_cached net own (o ∷ os) observations =
    add_cached net own os
      (if equal o.ip own then observations else add_observation net observations o)

unfoldable pub conclude : NetworkInterface → L2DiscoveryResult → L2DiscoveryResult
conclude iface result =
    if not (is_empty result.observations)
    then with_error [] result
    else if is_empty result.error
    then with_error
        (codes "no station announced an IPv4 address on "
          ++ iface.name
          ++ codes " during the layer-2 listening window")
        result
    else result

-- With what GetIpNetTable2 gives before and after the capture.
unfoldable pub discover_link_layer_hosts :
    Inet
    → (ℕ → Bytes)
    → Link
    → Option (List Row)
    → Option (List Row)
    → ℕ
    → NetworkInterface
    → ℕ
    → Sockets
    → Option (L2DiscoveryResult × Sockets)
discover_link_layer_hosts net error_text link first second fuel iface window w =
    let known = add_cached net iface.ipv4 (read_neighbour_cache net first iface.if_index) [] in
    elim (capture_link_traffic net error_text link fuel iface window
      (record { observations = known; permission_denied = false; error = [] }) w) [
        | none ↦ none
        | some (result, w') ↦
            let cached =
              add_cached net iface.ipv4 (read_neighbour_cache net second iface.if_index)
                result.observations in
            some (conclude iface (record result { observations = cached }), w')
      ]
