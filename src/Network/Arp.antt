-- ===== src/Network/Arp.antt =====
-- network/arp_discovery.{hpp,cpp}: stations that are seen on the link. GetIpNetTable2, the socket
-- calls and the clock are not modelled: their answers are arguments.
pub mod Observed
pub mod Packet
pub mod Neighbours
pub mod Capture
use ip_finder.Common.{
  ℕ, zero, suc, ◌+◌, ◌*◌, ◌-◌, ◌/◌, ◌%◌, min, bit_and, Bool, true, false, not, ◌&&◌, ◌||◌, List, [],
  ◌∷◌, ◌++◌, map, ◌==◌, ltb, leb, if◌then◌else◌, is_empty, length, drop, Option, none, some,
}
use ip_finder.Common.Bytes.{Bytes, codes, equal, before}
use ip_finder.Common.Int.{ℤ, pos, is_negative, is_zero}
use ip_finder.Inet.{Inet}
use ip_finder.Network.Interface.{NetworkInterface, or_empty, format_mac}
use ip_finder.Platform.{Socket, Sockets, open_socket, close_socket, wait_for_socket}

pub data L2ObservationSource : Type 0 where
  arp_traffic ipv4_traffic neighbour_cache : L2ObservationSource

unfoldable pub to_string : L2ObservationSource → Bytes
to_string arp_traffic = codes "arp"
to_string ipv4_traffic = codes "ipv4"
to_string neighbour_cache = codes "neighbour-cache"

pub record L2Observation : Type 0 where
  pub ip : Bytes
  pub mac : Bytes
  pub source : L2ObservationSource

pub record L2DiscoveryResult : Type 0 where
  pub observations : List L2Observation
  pub permission_denied : Bool
  pub error : Bytes

pub record NeighbourEntry : Type 0 where
  pub if_index : ℕ
  pub ip : Bytes
  pub mac : Bytes
  pub reachable : Bool

abbrev pub format_ipv4 : Inet → ℕ → Bytes
format_ipv4 net a = or_empty (net.ntop a)

unfoldable pub is_zero_mac : Bytes → Bool
unfolding equal
is_zero_mac mac =
    is_empty mac || equal mac (codes "00:00:00:00:00:00") || equal mac (codes "00-00-00-00-00-00")

-- From the result of inet_pton on.
abbrev pub is_multicast_or_none : Option ℕ → Bool
is_multicast_or_none none = true
is_multicast_or_none (some host_order) = leb 0xe000_0000 (bit_and host_order 0xf000_0000)

unfoldable pub is_uninteresting_address : Inet → Bytes → Bool
unfolding equal before
is_uninteresting_address net ip =
    is_empty ip
    || equal ip (codes "0.0.0.0")
    || equal ip (codes "255.255.255.255")
    || is_multicast_or_none (net.pton (before 0 ip))

-- The first observation of the address keeps its place and may get a hardware address; without one
-- the candidate is the new last.
unfoldable pub merge : L2Observation → List L2Observation → List L2Observation
unfolding equal is_zero_mac
merge candidate [] = candidate ∷ []
merge candidate (o ∷ os) =
    let rest = merge candidate os in
    if equal o.ip candidate.ip
    then (if is_zero_mac o.mac then record o { mac = candidate.mac } else o) ∷ os
    else o ∷ rest

unfoldable pub add_observation : Inet → List L2Observation → L2Observation → List L2Observation
unfolding is_uninteresting_address merge
add_observation net observations candidate =
    if is_uninteresting_address net candidate.ip then observations else merge candidate observations

-- The loop over the entries, with what was observed so far.
unfoldable pub select_loop :
    Inet → ℕ → List NeighbourEntry → List L2Observation → List L2Observation
unfolding add_observation is_zero_mac
select_loop net if_index [] observations = observations
select_loop net if_index (entry ∷ entries) observations =
    let skipped = select_loop net if_index entries observations in
    let added = select_loop net if_index entries (
      add_observation net observations
        (record { ip = entry.ip; mac = entry.mac; source = neighbour_cache })) in
    if not (entry.if_index == if_index) || not entry.reachable || is_zero_mac entry.mac
    then skipped
    else added

unfoldable pub select_neighbour_entries : Inet → List NeighbourEntry → ℕ → List L2Observation
unfolding select_loop
select_neighbour_entries net entries if_index = select_loop net if_index entries []

-- The number that four bytes spell in network order, from the front of a list of bytes.
abbrev pub network_order : Bytes → ℕ
network_order (a ∷ b ∷ c ∷ d ∷ rest) = ((a * 256 + b) * 256 + c) * 256 + d
network_order s = 0

abbrev pub first_byte : Bytes → ℕ
first_byte [] = 0
first_byte (c ∷ cs) = c

unfoldable pub parse_ipv4_source_address : Inet → Bytes → Bytes
parse_ipv4_source_address net packet =
    let header_length = first_byte packet % 16 * 4 in
    if ltb (length packet) 20
    then []
    else if not (first_byte packet / 16 == 4)
    then []
    else if ltb header_length 20 || ltb (length packet) header_length
    then []
    else format_ipv4 net (network_order (drop 12 packet))

-- The members of MIB_IPNET_ROW2 that are read.
pub record Row : Type 0 where
  pub interface_index : ℕ
  pub address : ℕ
  pub physical_address : List ℕ
  pub state : ℕ

-- The documented values of NL_NEIGHBOR_STATE.
abbrev pub nlns_unreachable : ℕ
nlns_unreachable = 0

abbrev pub nlns_incomplete : ℕ
nlns_incomplete = 1

unfoldable pub entry_of : Inet → Row → NeighbourEntry
unfolding format_mac
entry_of net row = record {
  if_index = row.interface_index;
  ip = format_ipv4 net row.address;
  mac = format_mac row.physical_address;
  reachable = not (row.state == nlns_unreachable) && not (row.state == nlns_incomplete);
}

-- With the rows of GetIpNetTable2, `none` where it fails.
unfoldable pub read_neighbour_cache : Inet → Option (List Row) → ℕ → List L2Observation
unfolding select_neighbour_entries entry_of
read_neighbour_cache net none if_index = []
read_neighbour_cache net (some table) if_index =
    select_neighbour_entries net (map (entry_of net) table) if_index
