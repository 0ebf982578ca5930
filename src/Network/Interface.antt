-- ===== src/Network/Interface.antt =====
-- network/interface_discovery.{hpp,cpp}: adapters, candidate interfaces, and their subnets.
-- An address or mask is a number below 2^32 in host byte order. What GetAdaptersAddresses and
-- WideCharToMultiByte answer is given: an adapter has its texts in UTF-8.
pub mod Prefix
pub mod Names
pub mod Candidates
pub mod Query
use ip_finder.Common.{
  ℕ, zero, suc, ◌+◌, ◌-◌, ◌*◌, ◌/◌, ◌%◌, ◌^◌, Bool, true, false, not, ◌&&◌, ◌||◌, List, [], ◌∷◌,
  ◌++◌, map, ◌==◌, ltb, leb, if◌then◌else◌, is_empty, any, Option, none, some, bit_and, bit_or,
}
use ip_finder.Common.Bytes.{hex_digit, Bytes, codes, equal, contains, before}
use ip_finder.Inet.{Inet}

pub record NetworkInterface : Type 0 where
  pub name : Bytes
  pub ipv4 : Bytes
  pub netmask : Bytes
  pub address : ℕ
  pub mask : ℕ
  pub is_loopback : Bool
  pub is_up : Bool
  pub is_running : Bool
  pub is_point_to_point : Bool
  pub if_index : ℕ
  pub mac : Bytes
  pub description : Bytes

unfoldable pub network : NetworkInterface → ℕ
network iface = bit_and iface.address iface.mask

-- `~mask` on 32 bits
abbrev pub complement : ℕ → ℕ
complement m = 2 ^ 32 - 1 - m

unfoldable pub broadcast : NetworkInterface → ℕ
unfolding network
broadcast iface = bit_or (network iface) (complement iface.mask)

-- The loop of `prefix_length` over the bits below `i`, from the highest down.
unfoldable pub leading_ones : ℕ → ℕ → ℕ
leading_ones zero mask = 0
leading_ones (suc i) mask =
    let more = leading_ones i mask in if mask / 2 ^ i % 2 == 1 then suc more else 0

unfoldable pub prefix_length : NetworkInterface → ℕ
unfolding leading_ones
prefix_length iface = leading_ones 32 iface.mask

unfoldable pub usable_host_count : NetworkInterface → ℕ
usable_host_count iface =
    let prefix = prefix_length iface in
    if leb 31 prefix then (if prefix == 32 then 1 else 2) else 2 ^ (32 - prefix) - 2

abbrev pub or_empty : Option Bytes → Bytes
or_empty none = []
or_empty (some t) = t

-- The mask of a prefix length: a 32-bit shift.
unfoldable pub prefix_mask : ℕ → ℕ
prefix_mask p = if p == 0 then 0 else 0xffff_ffff * 2 ^ (32 - p) % 2 ^ 32

unfoldable pub netmask_from_prefix : Inet → ℕ → Bytes
unfolding prefix_mask
netmask_from_prefix net p = if ltb 32 p then [] else or_empty (net.ntop (prefix_mask p))

unfoldable pub parse_ipv4 : Inet → Bytes → Option ℕ
unfolding before
parse_ipv4 net text = if is_empty text then none else net.pton (before 0 text)

-- `std::tolower` in the "C" locale
unfoldable pub lower : ℕ → ℕ
lower c = if leb b'A' c && leb c b'Z' then c + 32 else c

unfoldable pub to_lower : Bytes → Bytes
unfolding lower
to_lower s = map lower s

-- "%02x" for each byte, with colons between
unfoldable pub format_mac : List ℕ → Bytes
format_mac [] = []
format_mac (b ∷ []) = hex_digit (b / 16) ∷ hex_digit (b % 16) ∷ []
format_mac (b ∷ c ∷ r) = hex_digit (b / 16) ∷ hex_digit (b % 16) ∷ b':' ∷ format_mac (c ∷ r)

abbrev pub virtual_markers : List Bytes
virtual_markers =
    codes "vethernet"
    ∷ codes "hyper-v"
    ∷ codes "vmware"
    ∷ codes "vmnet"
    ∷ codes "virtualbox"
    ∷ codes "vbox"
    ∷ codes "loopback"
    ∷ codes "openvpn"
    ∷ codes "tap-windows"
    ∷ codes "wintun"
    ∷ codes "wireguard"
    ∷ codes "zerotier"
    ∷ codes "tailscale"
    ∷ codes "bluetooth"
    ∷ codes "wan miniport"
    ∷ codes "teredo"
    ∷ codes "isatap"
    ∷ codes "npcap"
    ∷ codes "pseudo-interface"
    ∷ codes "docker"
    ∷ codes "veth"
    ∷ codes "br-"
    ∷ codes "virbr"
    ∷ codes "tun"
    ∷ codes "tap"
    ∷ codes "vpn"
    ∷ codes "vswitch"
    ∷ codes "vlan"
    ∷ codes "tunnel"
    ∷ []

-- The loop over the markers.
unfoldable pub holds_marker : List Bytes → Bytes → Bool
unfolding contains
holds_marker [] lowered = false
holds_marker (m ∷ ms) lowered = contains m lowered || holds_marker ms lowered

unfoldable pub is_virtual_interface_name : Bytes → Bool
unfolding holds_marker to_lower
is_virtual_interface_name name = holds_marker virtual_markers (to_lower name)

pub record InterfaceSnapshot : Type 0 where
  pub name : Bytes
  pub ipv4 : Bytes
  pub netmask : Bytes
  pub is_loopback : Bool
  pub is_up : Bool
  pub is_running : Bool
  pub is_point_to_point : Bool
  pub has_ipv4 : Bool
  pub if_index : ℕ
  pub mac : Bytes
  pub description : Bytes

-- An IP_ADAPTER_UNICAST_ADDRESS, with its address if that is of the family AF_INET.
pub record Unicast : Type 0 where
  pub address : Option ℕ
  pub on_link_prefix_length : ℕ

-- The members of IP_ADAPTER_ADDRESSES that are read; a null or empty name is empty.
pub record Adapter : Type 0 where
  pub friendly_name : Bytes
  pub adapter_name : Bytes
  pub description : Bytes
  pub if_index : ℕ
  pub physical_address : List ℕ
  pub if_type : ℕ
  pub oper_status : ℕ
  pub unicast : List Unicast

-- The documented values of IF_TYPE_PPP, IF_TYPE_SOFTWARE_LOOPBACK, IF_TYPE_TUNNEL and
-- IfOperStatusUp.
abbrev pub if_type_ppp : ℕ
if_type_ppp = 23

abbrev pub if_type_software_loopback : ℕ
if_type_software_loopback = 24

abbrev pub if_type_tunnel : ℕ
if_type_tunnel = 131

abbrev pub if_oper_status_up : ℕ
if_oper_status_up = 1

-- The text of a unicast address, empty where the family is another one.
abbrev pub dotted_of : Inet → Option ℕ → Bytes
dotted_of net none = []
dotted_of net (some a) = or_empty (net.ntop a)

-- The loop over the unicast addresses: the first usable one fills the snapshot.
unfoldable pub first_ipv4 : Inet → List Unicast → InterfaceSnapshot → InterfaceSnapshot
unfolding equal netmask_from_prefix
first_ipv4 net [] snapshot = snapshot
first_ipv4 net (u ∷ us) snapshot =
    let later = first_ipv4 net us snapshot in
    let ipv4 = dotted_of net u.address in
    let netmask = netmask_from_prefix net u.on_link_prefix_length in
    if is_empty ipv4 || equal ipv4 (codes "0.0.0.0")
    then later
    else record snapshot { ipv4 = ipv4; netmask = netmask; has_ipv4 = not (is_empty netmask) }

unfoldable pub snapshot_of : Inet → Adapter → InterfaceSnapshot
unfolding first_ipv4 format_mac
snapshot_of net adapter =
    let up = adapter.oper_status == if_oper_status_up in
    first_ipv4 net adapter.unicast (record {
      name = if is_empty adapter.friendly_name then adapter.adapter_name else adapter.friendly_name;
      ipv4 = [];
      netmask = [];
      is_loopback = adapter.if_type == if_type_software_loopback;
      is_up = up;
      is_running = up;
      is_point_to_point = adapter.if_type == if_type_ppp || adapter.if_type == if_type_tunnel;
      has_ipv4 = false;
      if_index = adapter.if_index;
      mac = format_mac adapter.physical_address;
      description = adapter.description;
    })

unfoldable pub enumerate_interfaces : Inet → List Adapter → List InterfaceSnapshot
unfolding snapshot_of
enumerate_interfaces net adapters = map (snapshot_of net) adapters

-- The members that are copied, with the two numbers that are read from the texts.
abbrev pub interface_of : InterfaceSnapshot → ℕ → ℕ → NetworkInterface
interface_of s address mask = record {
  name = s.name;
  ipv4 = s.ipv4;
  netmask = s.netmask;
  address = address;
  mask = mask;
  is_loopback = s.is_loopback;
  is_up = s.is_up;
  is_running = s.is_running;
  is_point_to_point = s.is_point_to_point;
  if_index = s.if_index;
  mac = s.mac;
  description = s.description;
}

abbrev with_mask : InterfaceSnapshot → ℕ → Option ℕ → Option NetworkInterface
with_mask s a none = none
with_mask s a (some m) = some (interface_of s a m)

abbrev with_address : Inet → InterfaceSnapshot → Option ℕ → Option NetworkInterface
with_address net s none = none
with_address net s (some a) = with_mask s a (parse_ipv4 net s.netmask)

-- One round of the filter's loop: `none` where it continues with the next snapshot.
unfoldable pub candidate_of : Inet → InterfaceSnapshot → Option NetworkInterface
candidate_of net s =
    if s.is_loopback || not s.is_up || not s.is_running
    then none
    else if not s.has_ipv4
    then none
    else if is_virtual_interface_name s.name || is_virtual_interface_name s.description
    then none
    else with_address net s (parse_ipv4 net s.ipv4)

abbrev pub push_some : Option NetworkInterface → List NetworkInterface → List NetworkInterface
push_some none rest = rest
push_some (some i) rest = i ∷ rest

unfoldable pub filter_candidate_interfaces : Inet → List InterfaceSnapshot → List NetworkInterface
unfolding candidate_of
filter_candidate_interfaces net [] = []
filter_candidate_interfaces net (s ∷ ss) =
    push_some (candidate_of net s) (filter_candidate_interfaces net ss)

unfoldable pub discover_candidate_interfaces : Inet → List Adapter → List NetworkInterface
unfolding filter_candidate_interfaces enumerate_interfaces
discover_candidate_interfaces net adapters =
    filter_candidate_interfaces net (enumerate_interfaces net adapters)
