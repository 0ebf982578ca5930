-- ===== src/App/Run/Secret.antt =====
-- What a run tells of the password.
use ip_finder.App.{ExitCode, select_interface, choose_device}
use ip_finder.App.Arguments.{Options}
use ip_finder.App.Messages.{device_messages}
use ip_finder.App.Run.{
  on_queried, with_pool, on_device, on_devices, on_stage_b, on_stage_a, on_interface, on_password,
  mock_run, select_password, config_of, run,
}
use ip_finder.App.Session.{Environment, Ran, after, Target, after_login}
use ip_finder.App.Session.Secret.{
  hide, hide_env, redact_ran, map_option-redact_ran, after_login-redact,
}
use ip_finder.App.Stages.{
  Stage, minimum_scan_prefix, Layer2, scan_hosts, stage_a_subnet_scan, on_observations,
  stage_b_layer2,
}
use ip_finder.Common.{
  ℕ, ◌≡◌, refl, sym, ◌∙◌, ap, ap₂, not, List, [], ◌∷◌, is_empty, if◌then◌else◌, if-of, map_option,
  Option, none, some,
}
use ip_finder.Common.Bytes.{Bytes, codes}
use ip_finder.Common.Int.{pos}
use ip_finder.Inet.{Inet}
use ip_finder.Network.Arp.{L2DiscoveryResult}
use ip_finder.Network.Arp.Capture.{discover_link_layer_hosts}
use ip_finder.Network.Interface.Query.{Queried, listed, thrown, query_adapter_addresses}
use ip_finder.Network.Interface.{Adapter, NetworkInterface}
use ip_finder.Platform.{Sockets, Token, socket_error_text}
use ip_finder.Scanner.Banner.{SshProbeResult}
use ip_finder.Scanner.Probe.{Peer}
use ip_finder.Scanner.Sweep.{enumerate_subnet_hosts}
use ip_finder.Ssh.{Process, ssh_client}
use ip_finder.Ssh.Connect.{connect_and_authenticate}
use ip_finder.Ssh.Secret.{redact_process, connect-redact}
use ip_finder.Threading.{ThreadPool, thread_pool}

-- The search does not look at the password.
module _ (net : Inet) (options : Options) (iface : NetworkInterface) (peers : Bytes → Option Peer)
    (pool : ThreadPool Bytes) where
  scan_hosts-hide :
      (w : Sockets) (o : Option (List Bytes))
      → scan_hosts net (hide options) iface peers pool w o
        ≡ scan_hosts net options iface peers pool w o
  scan_hosts-hide w none = refl
  scan_hosts-hide w (some []) = refl
  scan_hosts-hide w (some (host ∷ hosts)) = refl

  stage_a_subnet_scan-hide :
      (w : Sockets)
      → stage_a_subnet_scan net (hide options) iface peers pool w
        ≡ stage_a_subnet_scan net options iface peers pool w
  unfolding stage_a_subnet_scan
  stage_a_subnet_scan-hide w =
      scan_hosts-hide w (enumerate_subnet_hosts net iface (pos minimum_scan_prefix))

  on_observations-hide :
      (token : Token) (o : Option (L2DiscoveryResult × Sockets))
      → on_observations net (hide options) iface token peers pool o
        ≡ on_observations net options iface token peers pool o
  on_observations-hide token none = refl
  on_observations-hide token (some (l2, w)) = refl

  stage_b_layer2-hide :
      (messages : ℕ → Option Bytes) (layer2 : Layer2) (w : Sockets)
      → stage_b_layer2 net messages (hide options) iface layer2 peers pool w
        ≡ stage_b_layer2 net messages options iface layer2 peers pool w
  unfolding stage_b_layer2
  stage_b_layer2-hide messages layer2 w = on_observations-hide layer2.token (
      discover_link_layer_hosts net (socket_error_text messages) layer2.link layer2.first
        layer2.second layer2.fuel iface options.layer2_window w)

device_messages-hide :
    (options : Options) (iface : NetworkInterface) (diagnostic : Bytes) (ds : List SshProbeResult)
    → device_messages (hide options) iface diagnostic ds
      ≡ device_messages options iface diagnostic ds
unfolding device_messages
device_messages-hide options iface diagnostic [] = refl
device_messages-hide options iface diagnostic (d ∷ ds) = refl

module _ (net : Inet) (options : Options) (env : Environment) (password : Bytes)
    (iface : NetworkInterface) where
  -- A run with the password hidden everywhere is the run with the calls redacted.
  on_device-redact :
      (stage : Bytes) (refusal : List Bytes) (c : ExitCode × Option SshProbeResult) (w : Process)
      → on_device net (hide options) (hide_env env) [] iface stage refusal c (redact_process w)
        ≡ map_option redact_ran (on_device net options env password iface stage refusal c w)
  unfolding config_of ssh_client
  on_device-redact stage refusal (code, none) w = refl
  on_device-redact stage refusal (code, some d) w =
      let client = ssh_client (config_of options password d.ip) in
      let t : Target = record { iface = iface; stage = stage; device = d } in
      let l = connect_and_authenticate net env.format_message env.ssh client w in
      map_option-redact_ran (after _) (after_login net options env t l) _ (λ r. refl)
        (ap (after_login net (hide options) (hide_env env) t)
            (connect-redact net env.format_message env.ssh client w)
          ∙ after_login-redact net options env t l)

  on_devices-redact :
      (stage diagnostic : Bytes) (pool : ThreadPool Bytes) (devices : List SshProbeResult)
      (w : Process)
      → on_devices net
          (hide options)
          (hide_env env)
          []
          iface
          stage
          diagnostic
          pool
          devices
          (redact_process w)
        ≡ map_option redact_ran
            (on_devices net options env password iface stage diagnostic pool devices w)
  on_devices-redact stage diagnostic pool devices w =
      let c = choose_device options.select_candidate devices in
      let refusal = device_messages options iface diagnostic devices in
      map_option-redact_ran (with_pool pool)
        (on_device net options env password iface stage refusal c w) _ (λ r. refl)
        (ap
            (λ ms.
              on_device net (hide options) (hide_env env) [] iface stage ms c (redact_process w))
            (device_messages-hide options iface diagnostic devices)
          ∙ on_device-redact stage refusal c w)

  on_stage_b-redact :
      (w : Process) (o : Option (Stage × Sockets))
      → on_stage_b net (hide options) (hide_env env) [] iface (redact_process w) o
        ≡ map_option redact_ran (on_stage_b net options env password iface w o)
  on_stage_b-redact w none = refl
  on_stage_b-redact w (some (b, sockets)) =
      map_option-redact_ran (after b.messages)
        (on_devices net options env password iface (codes "layer2") b.diagnostic b.pool b.devices
          (record w { sockets = sockets }))
        _ (λ r. refl)
        (on_devices-redact (codes "layer2") b.diagnostic b.pool b.devices
          (record w { sockets = sockets }))

  on_stage_a-redact :
      (w : Process) (o : Option (Stage × Sockets))
      → on_stage_a net (hide options) (hide_env env) [] iface (redact_process w) o
        ≡ map_option redact_ran (on_stage_a net options env password iface w o)
  on_stage_a-redact w none = refl
  on_stage_a-redact w (some (a, sockets)) =
      let v : Process = record w { sockets = sockets } in
      let stage_b =
        stage_b_layer2 net env.format_message options iface env.layer2 env.second_peers a.pool
          sockets in
      map_option-redact_ran (after a.messages)
        (if is_empty a.devices
          then on_stage_b net options env password iface v stage_b
          else on_devices net options env password iface (codes "subnet-scan") [] a.pool a.devices
              v)
        _ (λ r. refl)
        (if-of (map_option redact_ran) (is_empty a.devices) _ _ _ _
          (ap (on_stage_b net (hide options) (hide_env env) [] iface (redact_process v)) (
              stage_b_layer2-hide net options iface env.second_peers a.pool env.format_message
                env.layer2 sockets)
            ∙ on_stage_b-redact v stage_b)
          (on_devices-redact (codes "subnet-scan") [] a.pool a.devices v))

module _ (net : Inet) (options : Options) (env : Environment) (password : Bytes) where
  on_interface-redact :
      (found : List Adapter) (c : ExitCode × Option NetworkInterface) (w : Process)
      → on_interface net (hide options) (hide_env env) [] found c (redact_process w)
        ≡ map_option redact_ran (on_interface net options env password found c w)
  on_interface-redact found (code, none) w = refl
  on_interface-redact found (code, some iface) w =
      let pool = thread_pool options.threads in
      let stage_a = stage_a_subnet_scan net options iface env.first_peers pool w.sockets in
      map_option-redact_ran (after _) (on_stage_a net options env password iface w stage_a) _
        (λ r. refl)
        (ap (on_stage_a net (hide options) (hide_env env) [] iface (redact_process w))
            (stage_a_subnet_scan-hide net options iface env.first_peers pool w.sockets)
          ∙ on_stage_a-redact net options env password iface w stage_a)

  on_queried-redact :
      (q : Queried) (w : Process)
      → on_queried net (hide options) (hide_env env) [] q (redact_process w)
        ≡ map_option redact_ran (on_queried net options env password q w)
  on_queried-redact (thrown text) w = refl
  on_queried-redact (listed found) w =
      on_interface-redact found (select_interface net options.interface_hint found) w

-- A run on options and an environment without a password.
abbrev hidden_run : Inet → Process → Options → Environment → Option Ran
hidden_run net w options env =
    if not (is_empty options.mock_ifconfig_file)
    then some (mock_run net options env w)
    else on_queried net options env [] (query_adapter_addresses env.format_message env.query) w

run-hidden_run :
    (net : Inet) (options : Options) (env : Environment) (w : Process) (password : Bytes)
    → select_password options env.getenv ≡ some password
    → map_option redact_ran (run net options env w)
      ≡ hidden_run net (redact_process w) (hide options) (hide_env env)
unfolding run
run-hidden_run net options env w password e = sym (
    if-of (map_option redact_ran) (not (is_empty options.mock_ifconfig_file)) _ _ _ _ refl (
      on_queried-redact net options env password
        (query_adapter_addresses env.format_message env.query) w
      ∙ ap (λ o. map_option redact_ran (on_password net options env o w)) (sym e)))

-- With the same environment and the same options but for the passwords: two runs that have a
-- password end with the same exit code, standard output, messages, pool and resources, and make
-- the same calls but for the password in the authentication itself.
pub run-redact :
    (net : Inet) (options options' : Options) (env env' : Environment) (w : Process) (p q : Bytes)
    → select_password options env.getenv ≡ some p
    → select_password options' env'.getenv ≡ some q
    → hide options ≡ hide options'
    → hide_env env ≡ hide_env env'
    → map_option redact_ran (run net options env w)
      ≡ map_option redact_ran (run net options' env' w)
run-redact net options options' env env' w p q e e' same same_env =
    run-hidden_run net options env w p e
    ∙ ap₂ (hidden_run net (redact_process w)) same same_env
    ∙ sym (run-hidden_run net options' env' w q e')
