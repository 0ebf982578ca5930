-- ===== src/App/Stages/Ends.antt =====
-- The stages end, on a fresh pool.
use ip_finder.App.Arguments.{Options}
use ip_finder.App.Stages.{
  Stage, minimum_scan_prefix, Layer2, swept, scan_hosts, stage_a_subnet_scan, on_observations,
  sweep_observed, diagnosed, stage_b_layer2,
}
use ip_finder.Common.{
  All, map, ℕ, ◌≤◌, ◌<◌, ◌^◌, ◌≡◌, refl, sym, ◌∙◌, ap, subst, List, [], ◌∷◌, if-cases, is_empty,
  Option, some,
}
use ip_finder.Common.Bytes.{Bytes}
use ip_finder.Common.Int.{after_ms, pos}
use ip_finder.Inet.{Inet, IsInet}
use ip_finder.Network.Arp.{L2Observation, L2DiscoveryResult}
use ip_finder.Network.Arp.Capture.Discover.{IsOthers, discover_link_layer_hosts-IsOthers}
use ip_finder.Network.Interface.{NetworkInterface}
use ip_finder.Platform.Waiting.{WaitsAtMost}
use ip_finder.Platform.{Sockets, socket_error_text}
use ip_finder.Scanner.Probe.{Peer}
use ip_finder.Scanner.Sweep.{enumerate_subnet_hosts, sweep_for_ssh}
use ip_finder.Scanner.Sweep.Found.{Found, IsOrderly, Sifted-Found, sweep_for_ssh-Sifted}
use ip_finder.Scanner.Sweep.Hosts.{length-enumerate_subnet_hosts}
use ip_finder.Threading.{thread_pool}

-- Timeouts and the poll slice of the capture are at most a bound, which WSAPoll takes as it is.
pub record IsShort (options : Options) (bound : ℕ) : Type 0 where
  pub short : bound < 2 ^ 31
  pub slice : 200 ≤ bound
  pub connects : options.connect_timeout ≤ bound
  pub banners : options.banner_timeout ≤ bound
  pub logins : options.auth_timeout ≤ bound

module _ (net : Inet) (options : Options) (iface : NetworkInterface) (peers : Bytes → Option Peer)
    (orderly : IsOrderly peers) (bound : ℕ) (short : IsShort options bound) (threads : ℕ) where
  -- A stage that ends, with a fresh pool, the open sockets as before, waits within the bound, and
  -- devices among the hosts.
  abbrev pub IsStage : List Bytes → Sockets → Option (Stage × Sockets) → Type 0
  IsStage hosts w o =
      (s : Stage) × (w' : Sockets) × (o ≡ some (s, w'))
      × (s.pool ≡ thread_pool threads)
      × (w'.open_handles ≡ w.open_handles)
      × All (WaitsAtMost bound) w'.waits
      × All (Found net peers options.banner_timeout hosts) s.devices

  swept-IsStage :
      (addresses messages : List Bytes) (w : Sockets)
      → All (WaitsAtMost bound) w.waits
      → IsStage addresses w (
          swept messages (
            sweep_for_ssh net peers options.connect_timeout options.banner_timeout
              (thread_pool threads)
              addresses
              w))
  swept-IsStage addresses messages w ws =
      let ((found, w', e, handles, ws', sifted), _) =
        sweep_for_ssh-Sifted net peers options.banner_timeout orderly options.connect_timeout bound
          short.connects short.banners short.short threads addresses w ws in
      (
        record {
          pool = thread_pool threads;
          devices = found;
          messages = messages;
          diagnostic = [];
        },
        w',
        ap (swept messages) e,
        refl,
        handles,
        ws',
        Sifted-Found net peers options.banner_timeout addresses found sifted,
      )

  scan_hosts-IsStage :
      (hosts : List Bytes) (w : Sockets)
      → All (WaitsAtMost bound) w.waits
      → IsStage hosts w (scan_hosts net options iface peers (thread_pool threads) w (some hosts))
  scan_hosts-IsStage [] w ws = (_, w, refl, refl, refl, ws, tt)
  scan_hosts-IsStage (host ∷ hosts) w ws = swept-IsStage (host ∷ hosts) _ w ws

  -- The first stage ends, with devices among the hosts of the subnet.
  pub stage_a_subnet_scan-IsStage :
      (w : Sockets)
      → All (WaitsAtMost bound) w.waits
      → iface.mask < 2 ^ 32
      → (hosts : List Bytes) × (enumerate_subnet_hosts net iface (pos minimum_scan_prefix)
          ≡ some hosts)
        × IsStage hosts w (stage_a_subnet_scan net options iface peers (thread_pool threads) w)
  unfolding stage_a_subnet_scan
  stage_a_subnet_scan-IsStage w ws mask =
      let (hosts, e, few, bounded) =
        length-enumerate_subnet_hosts net iface (pos minimum_scan_prefix) mask in
      (
        hosts,
        e,
        subst (λ o. IsStage hosts w (scan_hosts net options iface peers (thread_pool threads) w o))
            (sym e) (scan_hosts-IsStage hosts w ws),
      )

  -- The second stage ends, with devices among the addresses that it has observed.
  abbrev pub IsStageB : Sockets → Option (Stage × Sockets) → Type 0
  IsStageB w o =
      (os : List L2Observation) × IsOthers net iface.ipv4 os
      × IsStage (map (λ (o : L2Observation). o.ip) os) w o

  on_observations-IsStageB :
      (layer2 : Layer2) (l2 : L2DiscoveryResult) (w w' : Sockets)
      → w'.open_handles ≡ w.open_handles
      → All (WaitsAtMost bound) w'.waits
      → IsOthers net iface.ipv4 l2.observations
      → IsStageB w (
          on_observations net options iface layer2.token peers
            (thread_pool threads)
            (some (l2, w')))
  on_observations-IsStageB layer2 l2 w w' same ws others =
      let ips = map (λ (o : L2Observation). o.ip) l2.observations in
      (
        l2.observations,
        others,
        if-cases (IsStage ips w) (is_empty l2.observations) _ _
            (λ e. (_, w', refl, refl, same, ws, tt))
            (λ e.
              let (s, w'', swept_all, fresh, handles, ws', all) = swept-IsStage ips _ w' ws in
              (
                diagnosed iface l2.observations s,
                w'',
                ap (sweep_observed iface l2.observations) swept_all,
                fresh,
                handles ∙ same,
                ws',
                all,
              )),
      )

  pub stage_b_layer2-IsStageB :
      (messages : ℕ → Option Bytes) (layer2 : Layer2) (round : ℕ) (w : Sockets)
      → All (WaitsAtMost bound) w.waits
      → IsInet net
      → round < layer2.fuel
      → after_ms layer2.link.start options.layer2_window ≤ (layer2.link.rounds round).now
      → IsStageB w (stage_b_layer2 net messages options iface layer2 peers (thread_pool threads) w)
  unfolding stage_b_layer2
  stage_b_layer2-IsStageB messages layer2 round w ws k in_time late =
      let (l2, w', e, others, explained, same, ws') =
        discover_link_layer_hosts-IsOthers net k (socket_error_text messages) layer2.link
          layer2.fuel round iface options.layer2_window bound short.slice short.short in_time late
          layer2.first layer2.second w ws in
      subst
        (λ o.
          IsStageB w (on_observations net options iface layer2.token peers (thread_pool threads) o))
        (sym e) (on_observations-IsStageB layer2 l2 w w' same ws' others)
