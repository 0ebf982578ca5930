-- ===== src/App/Stages.antt =====
-- main.cpp: the two stages of the search, with what they write to the error stream. The arguments
-- of a stage are the peers that its sweep meets, and what Windows answers.
pub mod Ends
use ip_finder.App.Arguments.{Options}
use ip_finder.Common.{
  ℕ, Bool, not, List, [], ◌∷◌, ◌++◌, map, if◌then◌else◌, is_empty, length, Option, none, some,
}
use ip_finder.Common.Bytes.{Bytes, codes}
use ip_finder.Common.Decimal.{to_string}
use ip_finder.Common.Int.{pos}
use ip_finder.Inet.{Inet}
use ip_finder.Network.Arp.{L2Observation, L2DiscoveryResult, Row, to_string as source_text}
use ip_finder.Network.Arp.Capture.{Link, discover_link_layer_hosts}
use ip_finder.Network.Interface.{NetworkInterface, prefix_length}
use ip_finder.Platform.{Sockets, Token, is_process_elevated, socket_error_text}
use ip_finder.Scanner.Banner.{SshProbeResult}
use ip_finder.Scanner.Probe.{Peer}
use ip_finder.Scanner.Sweep.{enumerate_subnet_hosts, sweep_for_ssh}
use ip_finder.Threading.{ThreadPool}

unfoldable pub log : Bool → Bytes → List Bytes
log verbose message =
    if verbose then (codes "[device-discovery] " ++ message ++ codes "\n") ∷ [] else []

-- `defaults::kMinimumScanPrefix`
abbrev pub minimum_scan_prefix : ℕ
minimum_scan_prefix = 22

-- What a stage gives: the pool, the devices, what it writes, and its diagnostic.
pub record Stage : Type 0 where
  pub pool : ThreadPool Bytes
  pub devices : List SshProbeResult
  pub messages : List Bytes
  pub diagnostic : Bytes

-- An address and its prefix length.
abbrev pub with_prefix : NetworkInterface → Bytes
with_prefix iface = iface.ipv4 ++ codes "/" ++ to_string (prefix_length iface)

abbrev pub swept :
    List Bytes
    → Option (ThreadPool Bytes × List SshProbeResult × Sockets)
    → Option (Stage × Sockets)
swept messages none = none
swept messages (some (pool, devices, w)) =
    some (record { pool = pool; devices = devices; messages = messages; diagnostic = [] }, w)

abbrev pub scan_hosts :
    Inet
    → Options
    → NetworkInterface
    → (Bytes → Option Peer)
    → ThreadPool Bytes
    → Sockets
    → Option (List Bytes)
    → Option (Stage × Sockets)
scan_hosts net options iface peers pool w none = none
scan_hosts net options iface peers pool w (some []) = some (
  record {
    pool = pool;
    devices = [];
    messages = log options.verbose (
        codes "stage A skipped: subnet of "
        ++ iface.name
        ++ codes " is larger than /"
        ++ to_string minimum_scan_prefix);
    diagnostic = [];
  },
  w,
)
scan_hosts net options iface peers pool w (some (host ∷ hosts)) =
    swept
      (log options.verbose (
        codes "stage A: probing "
        ++ to_string (length (host ∷ hosts))
        ++ codes " addresses of "
        ++ with_prefix iface))
      (sweep_for_ssh net peers options.connect_timeout options.banner_timeout pool (host ∷ hosts) w)

-- `none` where the host loop is out of fuel, or a submission throws.
unfoldable pub stage_a_subnet_scan :
    Inet
    → Options
    → NetworkInterface
    → (Bytes → Option Peer)
    → ThreadPool Bytes
    → Sockets
    → Option (Stage × Sockets)
unfolding log
stage_a_subnet_scan net options iface peers pool w =
    scan_hosts net options iface peers pool w
      (enumerate_subnet_hosts net iface (pos minimum_scan_prefix))

-- What Windows answers to the layer-2 discovery, and the fuel of its loop.
pub record Layer2 : Type 0 where
  pub token : Token
  pub link : Link
  pub first : Option (List Row)
  pub second : Option (List Row)
  pub fuel : ℕ

abbrev pub concat : List Bytes → Bytes
concat [] = []
concat (t ∷ ts) = t ++ concat ts

abbrev pub observation_text : L2Observation → Bytes
observation_text o =
    codes "layer-2 observation: "
    ++ o.ip
    ++ codes " ("
    ++ o.mac
    ++ codes ", "
    ++ source_text o.source
    ++ codes ")"

-- The diagnostic for stations without a reachable SSH server.
abbrev pub unreachable_text : NetworkInterface → List L2Observation → Bytes
unreachable_text iface observations =
    codes
      "the directly connected device was seen on the link but no SSH server could be reached at:"
    ++ concat (
        map (λ (o : L2Observation). codes "\n         " ++ o.ip ++ codes " (" ++ o.mac ++ codes ")")
          observations)
    ++ codes "\n       If the address is outside "
    ++ with_prefix iface
    ++ codes " the PC has no route to it; add a temporary address on the device's\n"
    ++ codes "       subnet, e.g. netsh interface ipv4 add address \""
    ++ iface.name
    ++ codes "\" <free-ip> <netmask>"

abbrev pub diagnosed : NetworkInterface → List L2Observation → Stage → Stage
diagnosed iface observations s = record s {
  diagnostic = if is_empty s.devices then unreachable_text iface observations else [];
}

abbrev pub sweep_observed :
    NetworkInterface → List L2Observation → Option (Stage × Sockets) → Option (Stage × Sockets)
sweep_observed iface observations none = none
sweep_observed iface observations (some (s, w)) = some (diagnosed iface observations s, w)

-- What stage B writes before the discovery.
abbrev pub stage_b_messages : Options → NetworkInterface → Token → List Bytes
stage_b_messages options iface token =
    log options.verbose
      (codes "stage A found nothing, starting layer-2 discovery on " ++ iface.name)
    ++ (if not (is_process_elevated token)
        then log options.verbose (
            codes
              "not running elevated: promiscuous capture will most likely be refused by Windows")
        else [])

abbrev pub on_observations :
    Inet
    → Options
    → NetworkInterface
    → Token
    → (Bytes → Option Peer)
    → ThreadPool Bytes
    → Option (L2DiscoveryResult × Sockets)
    → Option (Stage × Sockets)
on_observations net options iface token peers pool none = none
on_observations net options iface token peers pool (some (l2, w)) =
    if is_empty l2.observations
    then some (
      record {
        pool = pool;
        devices = [];
        messages = stage_b_messages options iface token;
        diagnostic =
            if is_empty l2.error then codes "layer-2 discovery observed no station" else l2.error;
      },
      w,
    )
    else sweep_observed iface l2.observations (
        swept
          (stage_b_messages options iface token
            ++ (if options.verbose
                then map
                    (λ (o : L2Observation).
                      codes "[device-discovery] " ++ observation_text o ++ codes "\n")
                    l2.observations
                else []))
          (sweep_for_ssh net peers options.connect_timeout options.banner_timeout pool
            (map (λ (o : L2Observation). o.ip) l2.observations) w))

-- `none` where the capture is out of fuel, or a submission throws.
unfoldable pub stage_b_layer2 :
    Inet
    → (ℕ → Option Bytes)
    → Options
    → NetworkInterface
    → Layer2
    → (Bytes → Option Peer)
    → ThreadPool Bytes
    → Sockets
    → Option (Stage × Sockets)
unfolding log
stage_b_layer2 net messages options iface layer2 peers pool w =
    on_observations net options iface layer2.token peers pool (
      discover_link_layer_hosts net (socket_error_text messages) layer2.link layer2.first
        layer2.second layer2.fuel iface options.layer2_window w)
