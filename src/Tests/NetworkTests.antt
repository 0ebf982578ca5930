-- ===== src/Tests/NetworkTests.antt =====
-- Three adapters, one of which qualifies, and their subnets.
use mathlib.Core.List.{Mem}
use ip_finder.Common.{
  ◌≢◌, if-cases, map_option, ltb, subst, if◌then◌else◌, Option, ℕ, ◌-◌, ◌<◌, ◌≤◌, ◌^◌, ◌≡◌, ◌↔◌,
  refl, true, false, List, [], ◌∷◌, map, none, some, arith, All, length,
}
use ip_finder.Common.Bytes.{equal, Bytes, codes}
use ip_finder.Common.Int.{pos}
use ip_finder.Network.Interface.{
  NetworkInterface, InterfaceSnapshot, Adapter, Unicast, broadcast, prefix_length,
  usable_host_count, prefix_mask, netmask_from_prefix, parse_ipv4, is_virtual_interface_name,
  virtual_markers, to_lower, interface_of, candidate_of, filter_candidate_interfaces,
  discover_candidate_interfaces,
}
use ip_finder.Network.Interface.Prefix.{prefix_length-netmask_from_prefix}
use ip_finder.Network.Interface.Query.{
  Answer, overflow, adapters, listed, query_adapter_addresses, IsQueried,
  query_adapter_addresses-IsQueried,
}
use ip_finder.Network.Interface.Names.{Occurs, upper, is_virtual_interface_name_lem}
use ip_finder.Network.Interface.Candidates.{Selected, Qualifies, filter_candidate_interfaces_lem}
use ip_finder.Scanner.Sweep.{to_dotted, link_loop, host_loop, enumerate_subnet_hosts}
use ip_finder.Scanner.Sweep.Hosts.{length-enumerate_subnet_hosts}
use ip_finder.Scanner.Sweep.Subnet.{probes, Ascending, IsPeer, enumerate_subnet_hosts-IsPeer}
use ip_finder.Scanner.Banner.{SshProbeStatus, SshProbeResult}
use ip_finder.Scanner.Sweep.{sweep_for_ssh}
use ip_finder.Scanner.Sweep.Found.{IsOrderly, IsDevice, Sifted, sweep_for_ssh-Sifted}
use ip_finder.Platform.{Sockets}
use ip_finder.Platform.Waiting.{WaitsAtMost}
use ip_finder.Scanner.Banner.Reading.{IsSteady}
use ip_finder.Scanner.Banner.{read_ssh_banner}
use ip_finder.Scanner.Connect.{tcp_connect}
use ip_finder.Scanner.Probe.{Peer}
use ip_finder.Tests.ScannerTests.{answering, device, greeting-IsSteady, has_error, no_sockets}
use ip_finder.Threading.Served.{Leads}
use ip_finder.Threading.{ThreadPool, thread_pool}
use ip_finder.Tests.Dotted.{dotted, dotted-IsInet}

abbrev adapter : Bytes → Bytes → List ℕ → ℕ → ℕ → List Unicast → Adapter
adapter name description mac if_type oper_status unicast = record {
  friendly_name = name;
  adapter_name = codes "{guid}";
  description = description;
  if_index = 12;
  physical_address = mac;
  if_type = if_type;
  oper_status = oper_status;
  unicast = unicast;
}

abbrev pub ethernet : Adapter
ethernet = adapter (codes "Ethernet") (codes "Realtek USB GbE") (0x02 ∷ 0xab ∷ []) 6 1 (
    record { address = none; on_link_prefix_length = 64 }
    ∷ record { address = some 3232238130; on_link_prefix_length = 30 }
    ∷ [])

abbrev pub hyper_v : Adapter
hyper_v =
    adapter (codes "vEthernet (Default Switch)") (codes "Hyper-V Virtual Ethernet Adapter") [] 6 1
      (record { address = some 2886729729; on_link_prefix_length = 20 } ∷ [])

abbrev unplugged : Adapter
unplugged =
    adapter (codes "Ethernet 2") (codes "Intel") [] 6 2
      (record { address = some 167772161; on_link_prefix_length = 8 } ∷ [])

abbrev pub wired : NetworkInterface
wired = record {
  name = codes "Ethernet";
  ipv4 = codes "192.168.10.50";
  netmask = codes "255.255.255.252";
  address = 3232238130;
  mask = 4294967292;
  is_loopback = false;
  is_up = true;
  is_running = true;
  is_point_to_point = false;
  if_index = 12;
  mac = codes "02:ab";
  description = codes "Realtek USB GbE";
}

discovers : discover_candidate_interfaces dotted (hyper_v ∷ ethernet ∷ unplugged ∷ []) ≡ wired ∷ []
unfolding discover_candidate_interfaces candidate_of parse_ipv4 is_virtual_interface_name dotted
discovers = refl

hosts : enumerate_subnet_hosts dotted wired (pos 22) ≡ some (codes "192.168.10.49" ∷ [])
unfolding enumerate_subnet_hosts prefix_length link_loop host_loop broadcast dotted
hosts = refl

-- A /31 has one peer, a /32 none.
pair :
    enumerate_subnet_hosts dotted (record wired { mask = 4294967294 }) (pos 22)
    ≡ some (codes "192.168.10.51" ∷ [])
unfolding enumerate_subnet_hosts prefix_length link_loop host_loop broadcast dotted
pair = refl

alone : enumerate_subnet_hosts dotted (record wired { mask = 4294967295 }) (pos 22) ≡ some []
unfolding enumerate_subnet_hosts prefix_length link_loop host_loop broadcast dotted
alone = refl

prefix_length-netmask_from_prefix_example :
    (30 ≤ 32
      → (m : ℕ) × (parse_ipv4 dotted (netmask_from_prefix dotted 30) ≡ some m)
        × (m < 2 ^ 32)
        × (wired.mask ≡ m → prefix_length wired ≡ 30))
    × (32 < 30 → netmask_from_prefix dotted 30 ≡ [])
prefix_length-netmask_from_prefix_example =
    prefix_length-netmask_from_prefix dotted dotted-IsInet 30 wired

is_virtual_interface_name_lem_example :
    ((is_virtual_interface_name (codes "TAP-Windows") ≡ true)
      ↔ ((m : Bytes) × Mem m virtual_markers × Occurs m (to_lower (codes "TAP-Windows"))))
    × (is_virtual_interface_name (map upper (codes "TAP-Windows"))
        ≡ is_virtual_interface_name (codes "TAP-Windows"))
is_virtual_interface_name_lem_example = is_virtual_interface_name_lem (codes "TAP-Windows")

abbrev snapshots : List InterfaceSnapshot
snapshots =
    record {
      name = codes "Ethernet";
      ipv4 = codes "192.168.10.50";
      netmask = codes "255.255.255.252";
      is_loopback = false;
      is_up = true;
      is_running = true;
      is_point_to_point = false;
      has_ipv4 = true;
      if_index = 12;
      mac = codes "02:ab";
      description = codes "Realtek USB GbE";
    }
    ∷ []

filter_candidate_interfaces_lem_example :
    All (Selected dotted snapshots) (filter_candidate_interfaces dotted snapshots)
    × ((s : InterfaceSnapshot) (a m : ℕ)
        → Mem s snapshots
        → Qualifies dotted s a m
        → Mem (interface_of s a m) (filter_candidate_interfaces dotted snapshots))
filter_candidate_interfaces_lem_example = filter_candidate_interfaces_lem dotted snapshots

length-enumerate_subnet_hosts_example :
    (found : List Bytes) × (enumerate_subnet_hosts dotted wired (pos 22) ≡ some found)
    × (length found ≤ usable_host_count wired)
    × ((q : ℕ) → q ≤ 30 → pos 22 ≡ pos q → length found ≤ 2 ^ (32 - q) - 2)
length-enumerate_subnet_hosts_example =
    length-enumerate_subnet_hosts dotted wired (pos 22) (omega arith)

wired_mask : wired.mask ≡ prefix_mask 30
unfolding prefix_mask
wired_mask = refl

enumerate_subnet_hosts-IsPeer_example :
    (addresses : List ℕ) × (enumerate_subnet_hosts dotted wired (pos 22)
      ≡ some (map (to_dotted dotted) addresses))
    × Ascending addresses
    × ((a : ℕ) → (probes a addresses ≡ true) ↔ IsPeer wired 30 a)
enumerate_subnet_hosts-IsPeer_example =
    enumerate_subnet_hosts-IsPeer dotted wired (pos 22) 30 (omega arith) (omega arith) wired_mask
      (omega arith) refl

-- A host that refuses the connection, and the device of the other tests at one address.
abbrev refusing : Peer
refusing = record device { answers = answering 10061 }

abbrev pub peers : Bytes → Option Peer
peers a = if equal a (codes "192.168.10.49") then some device else some refusing

pub peers-IsOrderly : IsOrderly peers
peers-IsOrderly a p e =
    if-cases
      (λ o.
        o ≡ some p
        → IsSteady p.start p.rounds
          × (p.answers.connected_at_once ≡ false → p.answers.connect_error ≢ 0))
      (equal a (codes "192.168.10.49")) _ _
      (λ _ e.
        let same : device ≡ p = ground arith in
        subst
          (λ (x : Peer).
            IsSteady x.start x.rounds
            × (x.answers.connected_at_once ≡ false → x.answers.connect_error ≢ 0))
          same (greeting-IsSteady, has_error 0))
      (λ _ e.
        let same : refusing ≡ p = ground arith in
        subst
          (λ (x : Peer).
            IsSteady x.start x.rounds
            × (x.answers.connected_at_once ≡ false → x.answers.connect_error ≢ 0))
          same (greeting-IsSteady, has_error 10061))
      e

abbrev swept_hosts : List Bytes
swept_hosts = codes "192.168.10.49" ∷ codes "192.168.10.51" ∷ []

finds_device :
    map_option
      (λ (x : ThreadPool Bytes × List SshProbeResult × Sockets). x.1)
      (sweep_for_ssh dotted peers 750 1000 (thread_pool 4) swept_hosts no_sockets)
    ≡ some (
        record {
          ip = codes "192.168.10.49";
          status = SshProbeStatus.ssh_detected;
          banner = codes "SSH-2.0-dropbear";
        }
        ∷ [])
unfolding sweep_for_ssh thread_pool tcp_connect read_ssh_banner dotted equal
finds_device = refl

sweep_for_ssh-Sifted_example :
    ((found : List SshProbeResult) × (w' : Sockets) × (sweep_for_ssh dotted peers 750 1000
          (thread_pool 4)
          swept_hosts
          no_sockets
        ≡ some (thread_pool 4, found, w'))
      × (w'.open_handles ≡ [])
      × All (WaitsAtMost 1000) w'.waits
      × Sifted (IsDevice dotted peers 1000) swept_hosts found)
    × Leads
        (record {
          pool = record (thread_pool 4) { tasks = swept_hosts; notify_one = 2 };
          accepted = swept_hosts;
          started = [];
          finished = [];
        })
        (thread_pool 4)
        swept_hosts
sweep_for_ssh-Sifted_example =
    sweep_for_ssh-Sifted dotted peers 1000 peers-IsOrderly 750 1000 (omega arith) (omega arith)
      (omega arith) 4 swept_hosts no_sockets tt

-- A Windows that needs 20000 bytes.
abbrev pub needing : List Adapter → ℕ → ℕ → Answer
needing found attempt size = if ltb size 20000 then overflow 20000 else adapters found

needs_more :
    query_adapter_addresses (λ code. none) (needing (ethernet ∷ [])) ≡ listed (ethernet ∷ [])
unfolding query_adapter_addresses
needs_more = refl

query_adapter_addresses-IsQueried_example :
    IsQueried
      (λ code. none)
      (needing (ethernet ∷ []))
      (query_adapter_addresses (λ code. none) (needing (ethernet ∷ [])))
query_adapter_addresses-IsQueried_example =
    query_adapter_addresses-IsQueried (λ code. none) (needing (ethernet ∷ []))
