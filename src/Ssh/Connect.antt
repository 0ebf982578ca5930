-- ===== src/Ssh/Connect.antt =====
-- ssh/ssh_client.cpp: connect_and_authenticate.
use ip_finder.Common.{
  ℕ, ◌&&◌, ◌==◌, ◌*◌, ◌^◌, bit_or, Bool, true, false, not, ◌∷◌, ◌++◌, if◌then◌else◌, is_empty,
  Option, none, some,
}
use ip_finder.Common.Bytes.{Bytes, codes, equal}
use ip_finder.Common.Int.{ℤ, pos, negsuc, to_int32}
use ip_finder.Inet.{Inet}
use ip_finder.Platform.{initialise_once, is_ready, socket_error_text, erase_handle}
use ip_finder.Scanner.Connect.{
  ConnectResult, connected, refused, timed_out, unreachable, error, to_string, Answers, tcp_connect,
}
use ip_finder.Ssh.{
  HostKeyPolicy, warn, strict, SshConfig, session_timeout, session_handshake, known_host_check,
  userauth_password, Process, SshClient, called, SessionError, libssh2_error_text,
  default_known_hosts_path, disconnect,
}

-- The type and the bytes of a host key.
pub record HostKey : Type 0 where
  pub key_type : ℕ
  pub key : Bytes

-- What Windows and libssh2 answer to the calls of one connection, in their order. A Boolean is
-- true for the answer 0 of a call; a pointer is `none` for null.
pub record SshAnswers : Type 0 where
  pub libssh2_init : Bool
  pub tcp : Answers
  pub blocking : Bool
  pub socket_error : ℕ
  pub new_session : Option ℕ
  pub handshake : Bool
  pub session_error : SessionError
  pub profile : Option Bytes
  pub host_key : Option HostKey
  pub new_known_hosts : Option ℕ
  pub check : ℤ
  pub authenticated : Bool

-- The documented values of libssh2.h.
abbrev hostkey_type_rsa : ℕ
hostkey_type_rsa = 1

abbrev knownhost_type_plain : ℕ
knownhost_type_plain = 1

abbrev knownhost_keyenc_raw : ℕ
knownhost_keyenc_raw = 2 ^ 16

abbrev knownhost_key_sshrsa : ℕ
knownhost_key_sshrsa = 2 * 2 ^ 18

unfoldable pub type_mask : ℕ → ℕ
type_mask key_type =
    bit_or (bit_or knownhost_type_plain knownhost_keyenc_raw)
      (if key_type == hostkey_type_rsa then knownhost_key_sshrsa else 0)

-- The answers MATCH, MISMATCH and NOTFOUND are 0, 1 and 2.
unfoldable pub check_status : ℤ → Bytes
check_status (pos n) =
    if n == 0
    then codes "match"
    else if n == 1
    then codes "mismatch"
    else if n == 2
    then codes "unknown"
    else codes "check-failure"
check_status (negsuc n) = codes "check-failure"

-- What `connect_and_authenticate` returns, and the client and the process then.
pub record Login : Type 0 where
  pub accepted : Bool
  pub client : SshClient
  pub process : Process

-- A failure: the text is kept, and everything released.
abbrev pub fail : Bytes → SshClient → Process → Login
fail text c w =
    let (client, process) = disconnect (record c { last_error = text }) w in
    record { accepted = false; client = client; process = process }

abbrev pub known_hosts_path : SshAnswers → SshConfig → Bytes
known_hosts_path a config =
    if is_empty config.known_hosts_path
    then default_known_hosts_path a.profile
    else config.known_hosts_path

-- With the host key, and the new table of known hosts, which is read and freed again.
abbrev pub look_up : SshAnswers → ℕ → SshConfig → Process → HostKey → Option ℕ → Bytes × Process
look_up a session config w host_key none = (codes "unknown", w)
look_up a session config w host_key (some table) = (
  check_status a.check,
  record w {
    known_hosts = erase_handle table (table ∷ w.known_hosts);
    calls =
        known_host_check session (known_hosts_path a config) config.host config.port
          (type_mask host_key.key_type)
        ∷ w.calls;
  },
)

abbrev pub check_key : SshAnswers → ℕ → SshConfig → Process → Option HostKey → Bytes × Process
check_key a session config w none = (codes "unknown", w)
check_key a session config w (some host_key) =
    if is_empty (known_hosts_path a config)
    then (codes "unknown", w)
    else look_up a session config w host_key a.new_known_hosts

-- The status of the host key.
unfoldable pub host_key_check : SshAnswers → ℕ → SshConfig → Process → Bytes × Process
unfolding default_known_hosts_path check_status type_mask
host_key_check a session config w = check_key a session config w a.host_key

abbrev pub is_strict : HostKeyPolicy → Bool
is_strict warn = false
is_strict strict = true

-- `userauth_password` and what follows it.
unfoldable pub authenticate : SshAnswers → ℕ → SshClient → Process → Login
authenticate a session c w =
    let w' = called (userauth_password session c.config.username c.config.password) w in
    if a.authenticated
    then record { accepted = true; client = c; process = w' }
    else fail (codes "SSH authentication failed for user '" ++ c.config.username ++ codes "'") c w'

abbrev pub refusal_text : Bytes → Bytes
refusal_text status =
    codes "SSH host key verification failed (status: "
    ++ status
    ++ codes "); add the key to known_hosts or run without --strict-host-key"

-- From the verification of the host key on.
unfoldable pub verify : SshAnswers → ℕ → SshClient → Process → Login
unfolding host_key_check authenticate
verify a session client process =
    let (status, w) = host_key_check a session client.config process in
    let c = record client { host_key_status = status } in
    if is_strict c.config.host_key_policy && not (equal status (codes "match"))
    then fail (refusal_text status) c w
    else authenticate a session c w

-- With the new session.
unfoldable pub with_session : SshAnswers → ℕ → SshClient → Process → Login
unfolding verify libssh2_error_text
with_session a session client process =
    let c = record client { session = some session } in
    let w = called (session_handshake session c.socket_handle) (
      called (session_timeout session (to_int32 c.config.auth_timeout))
        (record process { sessions = session ∷ process.sessions })) in
    if not a.handshake
    then fail (libssh2_error_text (some session) a.session_error (codes "SSH handshake failed")) c w
    else verify a session c w

abbrev pub start_session : SshAnswers → Option ℕ → SshClient → Process → Login
start_session a none c w = fail (codes "could not create SSH session") c w
start_session a (some session) c w = with_session a session c w

-- With the connected socket, which is made blocking again.
unfoldable pub with_socket : (ℕ → Option Bytes) → SshAnswers → SshClient → Process → Login
unfolding with_session
with_socket messages a c w =
    if not a.blocking
    then fail
        (codes "could not switch the SSH socket to blocking mode: "
          ++ socket_error_text messages a.socket_error)
        c w
    else start_session a a.new_session c w

abbrev pub is_connected : ConnectResult → Bool
is_connected connected = true
is_connected refused = false
is_connected timed_out = false
is_connected unreachable = false
is_connected error = false

-- `messages` is FormatMessage.
unfoldable pub connect_and_authenticate :
    Inet → (ℕ → Option Bytes) → SshAnswers → SshClient → Process → Login
unfolding with_socket initialise_once
connect_and_authenticate net messages a c process =
    let ready = initialise_once a.libssh2_init process.libssh2 in
    let w = record process { libssh2 = ready } in
    let t = tcp_connect net a.tcp c.config.host c.config.connect_timeout w.sockets in
    let w' = record w { sockets = t.sockets } in
    if not (is_ready ready)
    then record {
      accepted = false;
      client = record c { last_error = codes "libssh2 initialisation failed" };
      process = w;
    }
    else if not (is_connected t.result)
    then record {
      accepted = false;
      client = record c {
        last_error = codes "SSH connection failed (" ++ to_string t.result ++ codes ")";
      };
      process = w';
    }
    else with_socket messages a (record c { socket_handle = t.out_socket }) w'
