-- ===== src/Tests/SshTests.antt =====
-- A login with a known host key, one with a refused password, and a command.
use ip_finder.Common.{
  ℕ, zero, suc, ◌≡◌, ◌≢◌, ◌↔◌, refl, Bool, true, false, [], ◌∷◌, ◌++◌, Option, none, some, arith,
}
use ip_finder.Common.Bytes.{Bytes, codes, contains, starts_with, equal}
use ip_finder.Common.Decimal.{decimal}
use ip_finder.Common.Int.{pos}
use ip_finder.Platform.{initialise_once, is_ready, socket_error_text}
use ip_finder.Scanner.Connect.{ConnectResult, tcp_connect}
use ip_finder.Ssh.{
  strict, SshConfig, CommandResult, Process, SshClient, libssh2_error_text, disconnect,
}
use ip_finder.Ssh.Command.{Runs, execute-Runs}
use ip_finder.Ssh.Connect.{SshAnswers, Login, connect_and_authenticate}
use ip_finder.Ssh.Execute.{
  block, end_of_stream, read_error, Read, ExecAnswers, execute, read_stream,
}
use ip_finder.Ssh.Login.{IsLogin}
use ip_finder.Ssh.Login.Attempt.{Succeeds, connect_and_authenticate-IsLogin}
use ip_finder.Ssh.Ownership.{Owns, IsDisconnected, disconnect_lem}
use ip_finder.Ssh.Secret.{with_password, redact, connect_and_authenticate-with_password}
use ip_finder.Ssh.Texts.{names_authentication}
use ip_finder.Ssh.Texts.Names.{Reaches, connect_and_authenticate-Reaches}
use ip_finder.Tests.Dotted.{dotted}
use ip_finder.Tests.ScannerTests.{answering, has_error, no_sockets}

abbrev pub idle : Process
idle = record {
  sockets = no_sockets;
  sessions = [];
  channels = [];
  known_hosts = [];
  libssh2 = none;
  calls = [];
}

abbrev pub answers : Bool → SshAnswers
answers authenticated = record {
  libssh2_init = true;
  tcp = answering 0;
  blocking = true;
  socket_error = 0;
  new_session = some 40;
  handshake = true;
  session_error = record { code = pos 0; message = some (codes "Unable to exchange keys") };
  profile = some (codes "C:\\Users\\me");
  host_key = some (record { key_type = 1; key = 1 ∷ 2 ∷ [] });
  new_known_hosts = some 50;
  check = pos 0;
  authenticated = authenticated;
}

abbrev config : SshConfig
config = record {
  host = codes "10.0.0.2";
  port = 22;
  username = codes "root";
  password = codes "secret";
  host_key_policy = strict;
  connect_timeout = pos 5000;
  auth_timeout = pos 5000;
  command_timeout = pos 5000;
  known_hosts_path = [];
  verbose = false;
}

abbrev client : SshClient
client = record {
  config = config;
  last_error = [];
  host_key_status = [];
  socket_handle = none;
  session = none;
}

abbrev no_message : ℕ → Option Bytes
no_message code = none

abbrev pub login : Bool → Login
login authenticated = connect_and_authenticate dotted no_message (answers authenticated) client idle

pub logged_in :
    ((login true).accepted ≡ true)
    × ((login true).client.host_key_status ≡ codes "match")
    × ((login true).process.sockets.open_handles ≡ 7 ∷ [])
    × ((login true).process.sessions ≡ 40 ∷ [])
unfolding connect_and_authenticate tcp_connect dotted equal
logged_in = (refl, refl, refl, refl)

pub has_session : (login true).client.session ≡ some 40
unfolding connect_and_authenticate tcp_connect dotted equal
has_session = refl

turned_away :
    ((login false).accepted ≡ false)
    × ((login false).client.last_error ≡ codes "SSH authentication failed for user 'root'")
    × ((login false).process.sockets.open_handles ≡ [])
    × ((login false).process.sessions ≡ [])
unfolding connect_and_authenticate tcp_connect dotted disconnect equal
turned_away = (refl, refl, refl, refl)

connect_and_authenticate-IsLogin_example :
    IsLogin idle
      (answers true)
      config
      (Succeeds dotted no_message (answers true) client idle)
      (login true)
connect_and_authenticate-IsLogin_example =
    connect_and_authenticate-IsLogin dotted no_message (answers true) client idle (has_error 0)
      (record { no_socket = refl; no_session = refl }) tt

blocking_text :
    names_authentication
      (codes "could not switch the SSH socket to blocking mode: " ++ socket_error_text no_message 0)
    ≡ false
unfolding contains starts_with socket_error_text decimal
blocking_text = refl

handshake_text :
    names_authentication
      (libssh2_error_text (some 0) (answers false).session_error (codes "SSH handshake failed"))
    ≡ false
unfolding contains starts_with libssh2_error_text
handshake_text = refl

connect_and_authenticate-Reaches_example :
    (names_authentication (login false).client.last_error ≡ true) ↔ (
      (is_ready (initialise_once true none) ≡ true)
      × ((tcp_connect dotted (answering 0) (codes "10.0.0.2") (pos 5000) no_sockets).result
          ≡ ConnectResult.connected)
      × Reaches (answers false) config)
connect_and_authenticate-Reaches_example =
    connect_and_authenticate-Reaches dotted no_message (answers false) client idle
      (blocking_text, handshake_text) turned_away.0

connect_and_authenticate-with_password_example :
    redact (
      connect_and_authenticate dotted no_message
        (answers false)
        (with_password (codes "secret") client)
        idle)
    ≡ redact (
        connect_and_authenticate dotted no_message
          (answers false)
          (with_password (codes "hunter2") client)
          idle)
connect_and_authenticate-with_password_example =
    connect_and_authenticate-with_password dotted no_message (answers false) (codes "secret")
      (codes "hunter2") client idle

-- One block of output, and then the end or an error.
abbrev pub output : Bytes → Read → ℕ → Read
output [] last i = last
output (c ∷ cs) last zero = block c cs
output (c ∷ cs) last (suc i) = last

abbrev pub printing : Bytes → Read → ExecAnswers
printing text last = record {
  new_channel = some 60;
  started = true;
  session_error = record { code = pos 0; message = none };
  stdout_reads = output text last;
  stderr_reads = output [] end_of_stream;
  exit_status = pos 0;
}

abbrev connected_client : SshClient
connected_client = record client { socket_handle = some 7; session = some 40 }

abbrev busy : Process
busy = record idle { sockets = record { open_handles = 7 ∷ []; waits = [] }; sessions = 40 ∷ [] }

abbrev result_of : Option (CommandResult × Process) → Option (Bool × Bytes)
result_of none = none
result_of (some (r, w)) = some (r.ok, r.stdout_data)

-- A read that fails counts as the end of the output.
cut_short :
    result_of
      (execute (printing (codes "eth0") read_error) 3 (codes "ifconfig") connected_client busy)
    ≡ some (true, codes "eth0")
unfolding execute read_stream
cut_short = refl

execute-Runs_example :
    Runs
      (printing (codes "eth0") read_error)
      1
      0
      ((connected_client.session ≢ none)
        × ((printing (codes "eth0") read_error).new_channel ≢ none)
        × (true ≡ true))
      busy
      (execute (printing (codes "eth0") read_error) 3 (codes "ifconfig") connected_client busy)
execute-Runs_example =
    execute-Runs (printing (codes "eth0") read_error) 1 0 3 (codes "ifconfig") connected_client busy
      (refl, refl) refl (omega arith) (omega arith)

disconnect_lem_example :
    let r = disconnect connected_client busy in
    Owns idle r.0 r.1 × IsDisconnected r.0 × (disconnect r.0 r.1 ≡ r)
disconnect_lem_example = disconnect_lem idle connected_client busy (refl, refl, refl, refl)
