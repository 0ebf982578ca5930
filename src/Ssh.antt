-- ===== src/Ssh.antt =====
-- ssh/ssh_client.{hpp,cpp}: the SSH client over libssh2, with the resources of the process.
-- `Impl` is a part of the client; only the destructor sets the pointer to it to null.
pub mod Connect
pub mod Command
pub mod Execute
pub mod Login
pub mod Ownership
pub mod Secret
pub mod Waits
pub mod Streams
pub mod Texts
pub mod Trust
use ip_finder.Common.{
  ℕ, Bool, false, List, [], ◌∷◌, ◌++◌, if◌then◌else◌, is_empty, Option, none, some,
}
use ip_finder.Common.Bytes.{Bytes, codes}
use ip_finder.Common.Decimal.{int_to_string}
use ip_finder.Common.Int.{ℤ, negsuc}
use ip_finder.Platform.{Socket, Sockets, invalid_socket, close_socket, erase_handle}

pub data HostKeyPolicy : Type 0 where
  warn strict : HostKeyPolicy

-- Times are in milliseconds.
pub record SshConfig : Type 0 where
  pub host : Bytes
  pub port : ℕ
  pub username : Bytes
  pub password : Bytes
  pub host_key_policy : HostKeyPolicy
  pub connect_timeout : ℤ
  pub auth_timeout : ℤ
  pub command_timeout : ℤ
  pub known_hosts_path : Bytes
  pub verbose : Bool

pub record CommandResult : Type 0 where
  pub ok : Bool
  pub exit_code : ℤ
  pub stdout_data : Bytes
  pub stderr_data : Bytes
  pub error : Bytes

abbrev pub empty_result : CommandResult
empty_result = record {
  ok = false;
  exit_code = negsuc 0;
  stdout_data = [];
  stderr_data = [];
  error = [];
}

-- The calls that act on the peer or on a file, with the session that they are made on.
pub data Call : Type 0 where
  session_timeout : ℕ → ℤ → Call
  session_handshake : ℕ → Socket → Call
  known_host_check : ℕ → Bytes → Bytes → ℕ → ℕ → Call
  userauth_password : ℕ → Bytes → Bytes → Call
  channel_exec : ℕ → Bytes → Call
  session_disconnect : ℕ → Call

-- What the process holds: sockets, and the objects of libssh2 that are not freed yet, the newest
-- first. `libssh2` is the flag of `libssh2_init`, and `calls` the calls so far, the last one first.
pub record Process : Type 0 where
  pub sockets : Sockets
  pub sessions : List ℕ
  pub channels : List ℕ
  pub known_hosts : List ℕ
  pub libssh2 : Option Bool
  pub calls : List Call

pub record SshClient : Type 0 where
  pub config : SshConfig
  pub last_error : Bytes
  pub host_key_status : Bytes
  pub socket_handle : Socket
  pub session : Option ℕ

unfoldable pub ssh_client : SshConfig → SshClient
ssh_client config = record {
  config = config;
  last_error = [];
  host_key_status = [];
  socket_handle = invalid_socket;
  session = none;
}

-- A call is made.
abbrev pub called : Call → Process → Process
called call w = record w { calls = call ∷ w.calls }

-- What `libssh2_session_last_error` gives.
pub record SessionError : Type 0 where
  pub code : ℤ
  pub message : Option Bytes

abbrev coded : Bytes → ℤ → Bytes
coded fallback code = fallback ++ codes " (libssh2 error " ++ int_to_string code ++ codes ")"

abbrev pub described : Bytes → ℤ → Option Bytes → Bytes
described fallback code none = coded fallback code
described fallback code (some message) =
    if is_empty message then coded fallback code else fallback ++ codes ": " ++ message

unfoldable pub libssh2_error_text : Option ℕ → SessionError → Bytes → Bytes
libssh2_error_text none e fallback = fallback
libssh2_error_text (some session) e fallback = described fallback e.code e.message

-- With the value of USERPROFILE.
unfoldable pub default_known_hosts_path : Option Bytes → Bytes
default_known_hosts_path none = []
default_known_hosts_path (some profile) =
    if is_empty profile then [] else profile ++ codes "\\.ssh\\known_hosts"

-- The first part of `disconnect`, with the session of the client.
unfoldable pub end_session : Option ℕ → SshClient → Process → SshClient × Process
end_session none c w = (c, w)
end_session (some session) c w = (
  record c { session = none },
  record w {
    sessions = erase_handle session w.sessions;
    calls = session_disconnect session ∷ w.calls;
  },
)

unfoldable pub disconnect : SshClient → Process → SshClient × Process
unfolding end_session close_socket
disconnect client process =
    let (c, w) = end_session client.session client process in
    let (handle, sockets) = close_socket c.socket_handle w.sockets in
    (record c { socket_handle = handle }, record w { sockets = sockets })
