-- ===== src/App/Run.antt =====
-- main.cpp: run up to the login, and main.
pub mod Device
pub mod Ends
pub mod Origin
pub mod Secret
pub mod Waits
pub mod Whole
use ip_finder.App.{
  no_device, ExitCode, usage_error, run_mock_mode, hinted, select_interface, choose_device,
}
use ip_finder.App.Arguments.{Options, Parsed, accepted, stopped, default_options, parse_options}
use ip_finder.App.Stages.{log, Stage, with_prefix, stage_a_subnet_scan, stage_b_layer2}
use ip_finder.Common.{
  map_option, Bool, not, List, [], ◌∷◌, ◌++◌, if◌then◌else◌, is_empty, Option, none, some,
}
use ip_finder.Common.Bytes.{Bytes, codes}
use ip_finder.Common.Int.{pos}
use ip_finder.Inet.{Inet}
use ip_finder.Network.Interface.Query.{Queried, listed, thrown, query_adapter_addresses}
use ip_finder.Network.Interface.{Adapter, NetworkInterface, discover_candidate_interfaces}
use ip_finder.Platform.{Sockets}
use ip_finder.Scanner.Banner.{SshProbeResult}
use ip_finder.Ssh.{warn, strict, SshConfig, Process, ssh_client}
use ip_finder.Ssh.Connect.{connect_and_authenticate}
use ip_finder.App.Messages.{mock_messages, selection_messages, password_messages, device_messages}
use ip_finder.App.Session.{Environment, Ran, stops, after, after_login}
use ip_finder.Threading.{ThreadPool, thread_pool, shutdown, join_all}

-- The variable of the password: null and the empty text count as not set.
abbrev pub set_variable : Option Bytes → Option Bytes
set_variable none = none
set_variable (some []) = none
set_variable (some (c ∷ cs)) = some (c ∷ cs)

unfoldable pub select_password : Options → (Bytes → Option Bytes) → Option Bytes
select_password options getenv =
    if options.password_from_cli
    then set_variable (some options.ssh_password)
    else set_variable (getenv options.password_env)

unfoldable pub config_of : Options → Bytes → Bytes → SshConfig
config_of options password ip = record {
  host = ip;
  port = 22;
  username = options.ssh_user;
  password = password;
  host_key_policy = if options.strict_host_key then strict else warn;
  connect_timeout = pos options.auth_timeout;
  auth_timeout = pos options.auth_timeout;
  command_timeout = pos options.command_timeout;
  known_hosts_path = [];
  verbose = options.verbose;
}

-- The shutdown of the pool, which joins its workers, and the one of its destructor, which returns at
-- once.
abbrev pub with_pool : ThreadPool Bytes → Ran → Ran
with_pool pool r = record r { pool = some (shutdown (join_all (shutdown pool))) }

-- With the device that is used, and what the search has written.
abbrev pub on_device :
    Inet
    → Options
    → Environment
    → Bytes
    → NetworkInterface
    → Bytes
    → List Bytes
    → ExitCode × Option SshProbeResult
    → Process
    → Option Ran
on_device net options env password iface stage refusal (code, none) w = some (stops code refusal w)
on_device net options env password iface stage refusal (code, some device) w =
    map_option
      (after (
        log options.verbose (
          codes "SSH server confirmed at "
          ++ device.ip
          ++ codes " ("
          ++ device.banner
          ++ codes ")")))
      (after_login net options env (record { iface = iface; stage = stage; device = device })
        (connect_and_authenticate net env.format_message env.ssh
          (ssh_client (config_of options password device.ip)) w))

-- With the devices that the stage named has found.
abbrev pub on_devices :
    Inet
    → Options
    → Environment
    → Bytes
    → NetworkInterface
    → Bytes
    → Bytes
    → ThreadPool Bytes
    → List SshProbeResult
    → Process
    → Option Ran
on_devices net options env password iface stage diagnostic pool devices w =
    map_option (with_pool pool) (
      on_device net options env password iface stage
        (device_messages options iface diagnostic devices)
        (choose_device options.select_candidate devices) w)

abbrev pub on_stage_b :
    Inet
    → Options
    → Environment
    → Bytes
    → NetworkInterface
    → Process
    → Option (Stage × Sockets)
    → Option Ran
on_stage_b net options env password iface process none = none
on_stage_b net options env password iface process (some (b, w)) = map_option (after b.messages) (
    on_devices net options env password iface (codes "layer2") b.diagnostic b.pool b.devices
      (record process { sockets = w }))

-- With what the first stage gives.
abbrev pub on_stage_a :
    Inet
    → Options
    → Environment
    → Bytes
    → NetworkInterface
    → Process
    → Option (Stage × Sockets)
    → Option Ran
on_stage_a net options env password iface process none = none
on_stage_a net options env password iface process (some (a, w)) = map_option (after a.messages) (
    if is_empty a.devices
    then on_stage_b net options env password iface (record process { sockets = w })
        (stage_b_layer2 net env.format_message options iface env.layer2 env.second_peers a.pool w)
    else on_devices net options env password iface (codes "subnet-scan") [] a.pool a.devices
        (record process { sockets = w }))

-- With the interface that is used.
abbrev pub on_interface :
    Inet
    → Options
    → Environment
    → Bytes
    → List Adapter
    → ExitCode × Option NetworkInterface
    → Process
    → Option Ran
on_interface net options env password found (code, none) w = some (
    stops code
      (selection_messages (hinted options.interface_hint (discover_candidate_interfaces net found)))
      w)
on_interface net options env password found (code, some iface) w =
    map_option
      (after (
        log options.verbose
          (codes "using interface " ++ iface.name ++ codes " (" ++ with_prefix iface ++ codes ")")))
      (on_stage_a net options env password iface w (
        stage_a_subnet_scan net options iface env.first_peers (thread_pool options.threads)
          w.sockets))

-- With the adapters, or an exception, which `main` catches.
abbrev pub on_queried : Inet → Options → Environment → Bytes → Queried → Process → Option Ran
on_queried net options env password (thrown text) w =
    some (stops no_device ((codes "Error: " ++ text ++ codes "\n") ∷ []) w)
on_queried net options env password (listed found) w =
    on_interface net options env password found (select_interface net options.interface_hint found)
      w

abbrev pub on_password : Inet → Options → Environment → Option Bytes → Process → Option Ran
on_password net options env none w = some (stops usage_error (password_messages options) w)
on_password net options env (some password) w =
    on_queried net options env password (query_adapter_addresses env.format_message env.query) w

abbrev pub mock_run : Inet → Options → Environment → Process → Ran
mock_run net options env w =
    let (code, output) = run_mock_mode net options.json env.mock_file in
    record {
      code = code;
      output = output;
      pool = none;
      messages = mock_messages net options.mock_ifconfig_file env.mock_file;
      process = w;
    }

-- `none` where some fuel runs out, or a submission throws.
unfoldable pub run : Inet → Options → Environment → Process → Option Ran
unfolding mock_messages password_messages device_messages select_password config_of log
run net options env w =
    if not (is_empty options.mock_ifconfig_file)
    then some (mock_run net options env w)
    else on_password net options env (select_password options env.getenv) w

abbrev pub on_parsed : Inet → Environment → Process → Parsed → Option Ran
on_parsed net env w (stopped code messages output) =
    some (record (stops code messages w) { output = output })
on_parsed net env w (accepted options) = run net options env w

-- With what WSAStartup answers.
unfoldable pub main : Inet → Bool → List Bytes → Environment → Process → Option Ran
unfolding run
main net winsock_ready arguments env w =
    let ran = on_parsed net env w (parse_options arguments default_options) in
    if not winsock_ready
    then some (stops usage_error (codes "Error: Winsock could not be initialised.\n" ∷ []) w)
    else ran
