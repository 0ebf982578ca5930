-- ===== src/App/Session.antt =====
-- main.cpp: run from the login on. What Windows, libssh2 and the peers answer is the environment.
-- A message is what one statement writes to the error stream.
pub mod Clean
pub mod Report
pub mod Listed
pub mod Secret
use ip_finder.App.{
  ExitCode, ssh_connection_failed, ssh_auth_failed, remote_command_failed, parse_failed,
  count_warnings, count_code, emit,
}
use ip_finder.App.Arguments.{Options}
use ip_finder.App.Stages.{log, Layer2}
use ip_finder.Common.{
  map_option, ℕ, Bool, not, ◌&&◌, List, [], ◌∷◌, ◌++◌, if◌then◌else◌, is_empty, Option, none, some,
}
use ip_finder.Common.Bytes.{Bytes, codes, equal, contains}
use ip_finder.Common.Int.{is_zero}
use ip_finder.Inet.{Inet}
use ip_finder.Network.Interface.Query.{Answer}
use ip_finder.Network.Interface.{NetworkInterface, Adapter}
use ip_finder.Output.{DiscoveryReport}
use ip_finder.Parser.{RemoteInterface, parse_ifconfig_output, parse_ip_addr_output}
use ip_finder.Scanner.Probe.{Peer}
use ip_finder.Scanner.Banner.{SshProbeResult}
use ip_finder.Threading.{ThreadPool}
use ip_finder.Ssh.{CommandResult, Process, SshClient, disconnect}
use ip_finder.Ssh.Connect.{SshAnswers, Login}
use ip_finder.Ssh.Execute.{ExecAnswers, execute}

-- What the program is given: the file of the offline mode, the variables, the answers to the query
-- for adapters, the peers at the addresses of both sweeps, and the answers to the other calls, with
-- the fuel of the reads.
pub record Environment : Type 0 where
  pub mock_file : Option Bytes
  pub getenv : Bytes → Option Bytes
  pub query : ℕ → ℕ → Answer
  pub first_peers : Bytes → Option Peer
  pub second_peers : Bytes → Option Peer
  pub layer2 : Layer2
  pub format_message : ℕ → Option Bytes
  pub ssh : SshAnswers
  pub ifconfig : ExecAnswers
  pub ip_addr : ExecAnswers
  pub fuel : ℕ

-- How a run ends: its exit code, the standard output, the messages, the pool, if there was one,
-- and the process.
pub record Ran : Type 0 where
  pub code : ExitCode
  pub output : Bytes
  pub messages : List Bytes
  pub pool : Option (ThreadPool Bytes)
  pub process : Process

-- A run that ends without a report.
abbrev pub stops : ExitCode → List Bytes → Process → Ran
stops code messages w = record {
  code = code;
  output = [];
  messages = messages;
  pool = none;
  process = w;
}

-- More messages in front.
abbrev pub after : List Bytes → Ran → Ran
after before r = record r { messages = before ++ r.messages }

-- A return from the part with the client: its destructor disconnects.
abbrev pub destroy : SshClient → Process → Process
destroy client w = (disconnect client w).1

-- The client is disconnected before the return.
abbrev pub leave : SshClient → Process → Process
leave client w = let (c, w') = disconnect client w in destroy c w'

-- What is known of the device.
pub record Target : Type 0 where
  pub iface : NetworkInterface
  pub stage : Bytes
  pub device : SshProbeResult

abbrev pub report_of : Target → Bytes → List RemoteInterface → DiscoveryReport
report_of t host_key_status interfaces = record {
  interface_name = t.iface.name;
  ssh_ip = t.device.ip;
  ssh_banner = t.device.banner;
  host_key_status = host_key_status;
  discovery_stage = t.stage;
  interfaces = interfaces;
  warnings = count_warnings interfaces;
}

-- From the interfaces that were parsed on, with the client disconnected.
unfoldable pub conclude_run :
    Options → Target → Bytes → Bytes → List RemoteInterface → Process → Ran
conclude_run options t source_command host_key_status interfaces w =
    if is_empty interfaces
    then stops parse_failed
        ((codes "Error: Could not parse network interfaces from '"
            ++ source_command
            ++ codes "' output.\n")
          ∷ [])
        w
    else record {
      code = count_code interfaces;
      output = emit options.json (report_of t host_key_status interfaces);
      messages = [];
      pool = none;
      process = w;
    }

abbrev pub is_usable : CommandResult → Bool
is_usable r = r.ok && (is_zero r.exit_code && not (is_empty r.stdout_data))

-- What is said of the first command.
abbrev pub in_brackets : CommandResult → Bytes
in_brackets r =
    if not (is_empty r.error)
    then codes " (" ++ r.error ++ codes ")"
    else if not (is_empty r.stderr_data)
    then codes " (" ++ r.stderr_data ++ codes ")"
    else []

-- With the result of the fallback.
unfoldable pub after_fallback :
    Inet → Options → Target → SshClient → CommandResult → CommandResult → Process → Ran
unfolding conclude_run
after_fallback net options t client command fallback w =
    if not (is_usable fallback)
    then stops remote_command_failed
        ((codes "Error: ifconfig execution failed on the target"
            ++ in_brackets command
            ++ codes " and the 'ip -4 addr' fallback failed as well.\n")
          ∷ [])
        (leave client w)
    else conclude_run options t (codes "ip -4 addr") client.host_key_status
        (parse_ip_addr_output net fallback.stdout_data) (leave client w)

abbrev pub on_fallback :
    Inet
    → Options
    → Target
    → SshClient
    → CommandResult
    → Option (CommandResult × Process)
    → Option Ran
on_fallback net options t client command none = none
on_fallback net options t client command (some (fallback, w)) =
    some (after_fallback net options t client command fallback w)

-- With the result of ifconfig.
unfoldable pub on_ifconfig :
    Inet
    → Options
    → Environment
    → Target
    → SshClient
    → Option (CommandResult × Process)
    → Option Ran
unfolding after_fallback conclude_run log
on_ifconfig net options env t client none = none
on_ifconfig net options env t client (some (command, w)) =
    if is_usable command
    then some (
        conclude_run options t (codes "ifconfig") client.host_key_status
          (parse_ifconfig_output net command.stdout_data) (leave client w))
    else map_option
        (after (
          log options.verbose
            (codes "ifconfig unavailable or failed, falling back to 'ip -4 addr'")))
        (on_fallback net options t client command
          (execute env.ip_addr env.fuel (codes "ip -4 addr") client w))

-- Whether the host key is unverified, which is warned of.
abbrev pub key_messages : Options → Bytes → List Bytes
key_messages options status =
    if not (equal status (codes "match")) && not options.strict_host_key
    then (codes "WARNING: SSH host key not verified (status: "
        ++ status
        ++ codes "); the link is trusted because it is a direct connection.\n")
      ∷ []
    else []

-- The exit code for a login that fails.
abbrev pub login_code : Bytes → ExitCode
login_code last_error =
    if contains (codes "authentication") last_error then ssh_auth_failed else ssh_connection_failed

-- From the login on.
unfoldable pub after_login : Inet → Options → Environment → Target → Login → Option Ran
unfolding on_ifconfig
after_login net options env t l =
    let commands =
      on_ifconfig net options env t l.client
        (execute env.ifconfig env.fuel (codes "ifconfig") l.client l.process) in
    if not l.accepted
    then some (
        stops (login_code l.client.last_error)
          ((codes "Error: " ++ l.client.last_error ++ codes "\n") ∷ [])
          (destroy l.client l.process))
    else map_option (after (key_messages options l.client.host_key_status)) commands
