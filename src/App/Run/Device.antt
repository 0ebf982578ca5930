-- ===== src/App/Run/Device.antt =====
-- From the interface of a run to its end.
use ip_finder.App.{ExitCode, success, select_interface, choose_device}
use ip_finder.App.Arguments.{Options}
use ip_finder.App.Run.{with_pool, on_device, on_devices, on_stage_b, on_stage_a, config_of}
use ip_finder.App.Run.Origin.{IsChosen, choose_device-IsChosen, IsFound, IsGood}
use ip_finder.App.Session.{Ran, Environment, stops, after, Target, after_login}
use ip_finder.App.Session.Clean.{IsClean, Ends, map_option-Ends}
use ip_finder.App.Session.Report.{Finishes, after_login-Ends}
use ip_finder.App.Stages.Ends.{IsShort, IsStage, IsStageB, stage_b_layer2-IsStageB}
use ip_finder.App.Stages.{minimum_scan_prefix, Stage, stage_b_layer2}
use ip_finder.Common.{
  true, map, ℕ, ◌≤◌, ◌<◌, ◌≡◌, ◌≢◌, inl, inr, refl, sym, ◌∙◌, ap, subst, false, List, [], All,
  if-cases, All-map, is_empty, Option, none, some,
}
use ip_finder.Common.Bytes.{Bytes, codes}
use ip_finder.Inet.{Inet, IsInet}
use ip_finder.Network.Interface.Query.{listed, query_adapter_addresses}
use ip_finder.Network.Interface.{Adapter, NetworkInterface}
use ip_finder.Network.Arp.{L2Observation}
use ip_finder.Common.Int.{after_ms, pos}
use ip_finder.Platform.{Sockets}
use ip_finder.Scanner.Sweep.{enumerate_subnet_hosts}
use ip_finder.Scanner.Sweep.Found.{Found, IsOrderly}
use ip_finder.Scanner.Banner.{SshProbeResult}
use ip_finder.Ssh.{SshConfig, Process, SshClient, ssh_client}
use ip_finder.Ssh.Connect.{connect_and_authenticate}
use ip_finder.Ssh.Login.Attempt.{connect_and_authenticate-IsLogin}
use ip_finder.Ssh.Ownership.{held, Owns, IsDisconnected}
use ip_finder.Ssh.Trust.{IsGuarded}
use ip_finder.Threading.{ThreadPool}

-- Windows and the peers keep to the documented behaviour of the socket calls; timeouts are at most
-- `bound`, which WSAPoll takes as it is; the clock reaches the end of the listening window, and the
-- reads of both commands stop, within the fuel.
pub record IsEnough (options : Options) (env : Environment) : Type 0 where
  pub explained : env.ssh.tcp.connected_at_once ≡ false → env.ssh.tcp.connect_error ≢ 0
  pub first_orderly : IsOrderly env.first_peers
  pub second_orderly : IsOrderly env.second_peers
  pub bound : ℕ
  pub timeouts : IsShort options bound
  pub round : ℕ
  pub in_time : round < env.layer2.fuel
  pub late :
      after_ms env.layer2.link.start options.layer2_window ≤ (env.layer2.link.rounds round).now
  pub ifconfig_ends : Finishes env.ifconfig env.fuel
  pub ip_addr_ends : Finishes env.ip_addr env.fuel

fresh : (config : SshConfig) → IsDisconnected (ssh_client config)
unfolding ssh_client
fresh config = record { no_socket = refl; no_session = refl }

clean-Owns :
    (start w : Process) (c : SshClient) (w' : Process)
    → IsClean start w
    → Owns w c w'
    → Owns start c w'
clean-Owns start w c w' (handles, live, channels, tables) (handles', live', channels', tables') = (
  handles' ∙ ap (held c.socket_handle) handles,
  live' ∙ ap (held c.session) live,
  channels' ∙ channels,
  tables' ∙ tables,
)

module _ (net : Inet) (options : Options) (env : Environment) (enough : IsEnough options env)
    (password : Bytes) (iface : NetworkInterface) (start : Process) (found : List Adapter)
    (queried : query_adapter_addresses env.format_message env.query ≡ listed found)
    (selected : select_interface net options.interface_hint found ≡ (success, some iface))
    (online : is_empty options.mock_ifconfig_file ≡ true) where
  abbrev Fine : Option Ran → Type 0
  Fine = Ends options.json (IsGood net options env) start

  on_device-Ends :
      (stage : Bytes) (refusal : List Bytes) (c : ExitCode × Option SshProbeResult) (w : Process)
      → IsChosen (IsFound net options env iface stage) c
      → w.calls ≡ []
      → IsClean start w
      → Fine (on_device net options env password iface stage refusal c w)
  unfolding config_of ssh_client
  on_device-Ends stage refusal (code, none) w refused calls clean =
      (stops code refusal w, refl, clean, inl (refl, refused.0, refused.1))
  on_device-Ends stage refusal (code, some d) w found_by_probe calls clean =
      let client = ssh_client (config_of options password d.ip) in
      let l = connect_and_authenticate net env.format_message env.ssh client w in
      let t : Target = record { iface = iface; stage = stage; device = d } in
      let is =
        connect_and_authenticate-IsLogin net env.format_message env.ssh client w enough.explained
          (fresh (config_of options password d.ip))
          (subst (All (IsGuarded env.ssh client.config)) (sym calls) tt) in
      map_option-Ends options.json (IsGood net options env) start (after _)
        (after_login net options env t l) (λ r. (refl, refl, refl))
        (after_login-Ends net options env t (IsGood net options env) start l enough.ifconfig_ends
          enough.ip_addr_ends
          (λ accepted interfaces listing.
            let (ready, joined, (blocking, session, (handshake, trusted, authenticated))) =
              is.succeeds.0 accepted in
            inr (
              online,
              record {
                iface = iface;
                device = d;
                adapters = found;
                queried = queried;
                selected = selected;
                found = found_by_probe;
                same_interface = refl;
                same_ip = refl;
                same_banner = refl;
                authenticated = authenticated;
                trusted = trusted;
                listing = listing;
              },
            ))
          (clean-Owns start w l.client l.process clean is.owns))

  on_devices-Ends :
      (stage diagnostic : Bytes) (pool : ThreadPool Bytes) (devices : List SshProbeResult)
      (w : Process)
      → All (IsFound net options env iface stage) devices
      → w.calls ≡ []
      → IsClean start w
      → Fine (on_devices net options env password iface stage diagnostic pool devices w)
  on_devices-Ends stage diagnostic pool devices w all calls clean =
      map_option-Ends options.json (IsGood net options env) start (with_pool pool) _
        (λ r. (refl, refl, refl))
        (on_device-Ends stage _ (choose_device options.select_candidate devices) w
          (choose_device-IsChosen (IsFound net options env iface stage) options.select_candidate
            devices all)
          calls clean)

  module _ (k : IsInet net) where
    on_stage_b-Ends :
        (w : Process) (o : Option (Stage × Sockets))
        → IsStageB net options iface env.second_peers enough.second_orderly enough.bound
            enough.timeouts options.threads w.sockets o
        → w.calls ≡ []
        → IsClean start w
        → Fine (on_stage_b net options env password iface w o)
    on_stage_b-Ends w o (os, others, (b, w', ran, fresh, same, ws, all)) calls clean =
        let (handles, live, channels, tables) = clean in
        subst (λ o. Fine (on_stage_b net options env password iface w o)) (sym ran)
          (map_option-Ends options.json (IsGood net options env) start (after b.messages) _
            (λ r. (refl, refl, refl))
            (on_devices-Ends (codes "layer2") b.diagnostic b.pool b.devices
              (record w { sockets = w' })
              (All-map
                (Found net env.second_peers options.banner_timeout
                  (map (λ (o : L2Observation). o.ip) os))
                (IsFound net options env iface (codes "layer2")) b.devices
                (λ d f. inr (refl, (os, others, f))) all)
              calls (same ∙ handles, live, channels, tables)))

    pub on_stage_a-Ends :
        (w : Process) (hosts : List Bytes) (o : Option (Stage × Sockets))
        → enumerate_subnet_hosts net iface (pos minimum_scan_prefix) ≡ some hosts
        → IsStage net options iface env.first_peers enough.first_orderly enough.bound
            enough.timeouts options.threads hosts w.sockets o
        → w.calls ≡ []
        → IsClean start w
        → Fine (on_stage_a net options env password iface w o)
    on_stage_a-Ends w hosts o swept_hosts (a, w', ran, fresh, same, ws, all) calls clean =
        let (handles, live, channels, tables) = clean in
        let v : Process = record w { sockets = w' } in
        let clean' : IsClean start v = (same ∙ handles, live, channels, tables) in
        subst (λ o. Fine (on_stage_a net options env password iface w o)) (sym ran)
          (map_option-Ends options.json (IsGood net options env) start (after a.messages) _
            (λ r. (refl, refl, refl))
            (if-cases Fine (is_empty a.devices) _ _
              (λ e.
                on_stage_b-Ends v _
                  (subst
                    (λ p.
                      IsStageB net options iface env.second_peers enough.second_orderly enough.bound
                        enough.timeouts options.threads w'
                        (stage_b_layer2 net env.format_message options iface env.layer2
                          env.second_peers p w'))
                    (sym fresh)
                    (stage_b_layer2-IsStageB net options iface env.second_peers
                      enough.second_orderly enough.bound enough.timeouts options.threads
                      env.format_message env.layer2 enough.round w' ws k enough.in_time
                      enough.late))
                  calls clean')
              (λ e.
                on_devices-Ends (codes "subnet-scan") [] a.pool a.devices v
                  (All-map (Found net env.first_peers options.banner_timeout hosts)
                    (IsFound net options env iface (codes "subnet-scan")) a.devices
                    (λ d f. inl (refl, (hosts, swept_hosts, f))) all)
                  calls clean')))
