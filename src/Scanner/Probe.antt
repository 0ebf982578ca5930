-- ===== src/Scanner/Probe.antt =====
-- scanner/ssh_detector.cpp: `probe_ssh`, a connection attempt followed by the banner.
pub mod Verdict
use ip_finder.Common.{ℕ, [], Option, none, some}
use ip_finder.Common.Bytes.{Bytes}
use ip_finder.Common.Int.{ℤ, pos}
use ip_finder.Inet.{Inet}
use ip_finder.Platform.{Socket, Sockets, close_socket}
use ip_finder.Scanner.Banner.{SshProbeStatus, SshProbeResult, Round, read_ssh_banner}
use ip_finder.Scanner.Connect.{ConnectResult, Answers, tcp_connect}

-- How a host, and Windows on the way to it, behaves towards one probe: the answers to the
-- connection attempt, the clock when the banner is awaited, and the rounds of reading it.
pub record Peer : Type 0 where
  pub answers : Answers
  pub start : ℕ
  pub rounds : ℕ → Round

abbrev no_ssh : Bytes → SshProbeStatus → Sockets → Option (SshProbeResult × Sockets)
no_ssh ip status w = some (record { ip = ip; status = status; banner = [] }, w)

-- Closing the handle when the banner has been read.
abbrev closing : Socket → Option (SshProbeResult × Sockets) → Option (SshProbeResult × Sockets)
closing handle none = none
closing handle (some (r, w)) = some (r, (close_socket handle w).1)

-- The switch over the connection's result.
unfoldable pub after_attempt :
    Peer → Bytes → ℕ → ConnectResult → Socket → Sockets → Option (SshProbeResult × Sockets)
unfolding close_socket
after_attempt peer ip limit ConnectResult.connected handle w =
    closing handle (read_ssh_banner peer.start peer.rounds ip limit w)
after_attempt peer ip limit ConnectResult.refused handle w = no_ssh ip SshProbeStatus.port_closed w
after_attempt peer ip limit ConnectResult.timed_out handle w = no_ssh ip SshProbeStatus.timeout w
after_attempt peer ip limit ConnectResult.unreachable handle w =
    no_ssh ip SshProbeStatus.unreachable w
after_attempt peer ip limit ConnectResult.error handle w = no_ssh ip SshProbeStatus.error w

-- The port only selects the peer.
unfoldable pub probe_ssh : Inet → Peer → Bytes → ℕ → ℕ → Sockets → Option (SshProbeResult × Sockets)
unfolding after_attempt
probe_ssh net peer ip connect_timeout banner_timeout w =
    let a = tcp_connect net peer.answers ip (pos connect_timeout) w in
    after_attempt peer ip banner_timeout a.result a.out_socket a.sockets
