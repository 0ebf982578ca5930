-- ===== src/Tests/ArpTests.antt =====
-- A cache of four rows, one packet on the link, and a refused capture.
use ip_finder.Common.{
  ℕ, zero, suc, ◌+◌, ◌*◌, ◌<◌, ◌≤◌, ◌^◌, ◌≡◌, ◌⊎◌, refl, Bool, true, false, not, List, [], ◌∷◌,
  is_empty, any, All, length, none, some, arith,
}
use ip_finder.Common.Bytes.{Bytes, codes}
use ip_finder.Common.Int.{after_ms, pos}
use ip_finder.Network.Arp.{
  ipv4_traffic, neighbour_cache, L2DiscoveryResult, NeighbourEntry, is_zero_mac,
  select_neighbour_entries, format_ipv4, parse_ipv4_source_address, read_neighbour_cache,
}
use ip_finder.Network.Arp.Observed.{IsObserved, sees}
use ip_finder.Network.Arp.Neighbours.{shows, select_neighbour_entries_lem}
use ip_finder.Network.Arp.Packet.{packet_of, IsIpv4, parse_ipv4_source_address_lem}
use ip_finder.Network.Arp.Capture.{
  packet, no_packet, Round, Link, capture_on, capture_link_traffic, capture_loop, observe,
  add_cached, conclude, discover_link_layer_hosts,
}
use ip_finder.Network.Arp.Capture.Discover.{IsOthers, discover_link_layer_hosts-IsOthers}
use ip_finder.Network.Interface.{NetworkInterface}
use ip_finder.Platform.Waiting.{WaitsAtMost}
use ip_finder.Platform.{Sockets, wait_for_socket, close_socket}
use ip_finder.Tests.Dotted.{dotted, dotted-IsInet}

abbrev entry : ℕ → Bytes → Bytes → Bool → NeighbourEntry
entry if_index ip mac reachable = record {
  if_index = if_index;
  ip = ip;
  mac = mac;
  reachable = reachable;
}

abbrev cache : List NeighbourEntry
cache =
    entry 12 (codes "10.0.0.2") (codes "02:ab") true
    ∷ entry 12 (codes "10.0.0.3") (codes "00:00:00:00:00:00") true
    ∷ entry 12 (codes "224.0.0.22") (codes "01:00") true
    ∷ entry 7 (codes "10.0.0.4") (codes "02:cd") true
    ∷ entry 12 (codes "10.0.0.2") (codes "02:ef") true
    ∷ []

selects :
    select_neighbour_entries dotted cache 12
    ≡ record { ip = codes "10.0.0.2"; mac = codes "02:ab"; source = neighbour_cache } ∷ []
unfolding select_neighbour_entries dotted
selects = refl

abbrev wired : NetworkInterface
wired = record {
  name = codes "Ethernet";
  ipv4 = codes "192.168.10.50";
  netmask = codes "255.255.255.0";
  address = 3232238130;
  mask = 4294967040;
  is_loopback = false;
  is_up = true;
  is_running = true;
  is_point_to_point = false;
  if_index = 12;
  mac = codes "02:ab";
  description = codes "Realtek USB GbE";
}

-- The device sends one packet; two seconds later nothing has followed.
abbrev rounds : ℕ → Round
rounds zero = record {
  now = 0;
  poll = pos 1;
  received = packet (
      packet_of 5 (0 ∷ 0 ∷ 0 ∷ 0 ∷ 0 ∷ 0 ∷ 0 ∷ 0 ∷ 64 ∷ 17 ∷ 0 ∷ []) 167772162
        (255 ∷ 255 ∷ 255 ∷ 255 ∷ []));
}
rounds (suc i) = record { now = 2000000000; poll = pos 0; received = no_packet }

abbrev link : Link
link = record {
  winsock_ready = true;
  new_socket = some 7;
  socket_error = 0;
  elevated = true;
  bound = true;
  bind_error = 0;
  promiscuous = true;
  ioctl_error = 0;
  start = 0;
  rounds = rounds;
}

abbrev no_text : ℕ → Bytes
no_text code = []

abbrev no_sockets : Sockets
no_sockets = record { open_handles = []; waits = [] }

captures :
    discover_link_layer_hosts dotted no_text link none none 3 wired 1000 no_sockets
    ≡ some (
      record {
        observations = record { ip = codes "10.0.0.2"; mac = []; source = ipv4_traffic } ∷ [];
        permission_denied = false;
        error = [];
      },
      record { open_handles = []; waits = pos 200 ∷ [] },
    )
unfolding discover_link_layer_hosts capture_link_traffic capture_on capture_loop observe
    parse_ipv4_source_address read_neighbour_cache add_cached conclude dotted wait_for_socket
    close_socket
captures = refl

select_neighbour_entries_lem_example :
    IsObserved dotted (select_neighbour_entries dotted cache 12)
    × All (λ o. is_zero_mac o.mac ≡ false) (select_neighbour_entries dotted cache 12)
    × ((ip : Bytes)
        → sees ip (select_neighbour_entries dotted cache 12) ≡ any (shows dotted 12 ip) cache)
select_neighbour_entries_lem_example = select_neighbour_entries_lem dotted cache 12 dotted-IsInet

parse_ipv4_source_address_lem_example :
    ((words : ℕ) (middle : Bytes) (source : ℕ) (tail : Bytes)
      → 5 ≤ words
      → words < 16
      → length middle ≡ 11
      → source < 2 ^ 32
      → words * 4 ≤ 16 + length tail
      → parse_ipv4_source_address dotted (packet_of words middle source tail)
        ≡ format_ipv4 dotted source)
    × ((p : Bytes) → (parse_ipv4_source_address dotted p ≡ []) ⊎ IsIpv4 p)
parse_ipv4_source_address_lem_example = parse_ipv4_source_address_lem dotted

late : after_ms 0 1000 ≤ (rounds 1).now
unfolding after_ms
late = omega arith

discover_link_layer_hosts-IsOthers_example :
    (r : L2DiscoveryResult) × (w' : Sockets) × (discover_link_layer_hosts dotted no_text link none
        none 3 wired 1000 no_sockets
      ≡ some (r, w'))
    × IsOthers dotted (codes "192.168.10.50") r.observations
    × (is_empty r.error ≡ not (is_empty r.observations))
    × (w'.open_handles ≡ [])
    × All (WaitsAtMost 200) w'.waits
discover_link_layer_hosts-IsOthers_example =
    discover_link_layer_hosts-IsOthers dotted dotted-IsInet no_text link 3 1 wired 1000 200
      (omega arith) (omega arith) (omega arith) late none none no_sockets tt
