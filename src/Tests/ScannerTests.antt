-- ===== src/Tests/ScannerTests.antt =====
-- One host that answers with an SSH banner, and one that refuses.
use ip_finder.Common.{
  ℕ, ◌+◌, ◌<◌, ◌^◌, ◌≡◌, ◌≢◌, ◌↔◌, refl, true, false, [], ◌∷◌, none, some, arith, All, length, ◌≤◌,
  ◌-◌,
}
use ip_finder.Common.Bytes.{codes, starts_with}
use ip_finder.Common.Int.{after_ms, pos, negsuc}
use ip_finder.Platform.{Sockets, wait_argument}
use ip_finder.Platform.Waiting.{WaitsAtMost, wait_argument-bounds}
use ip_finder.Scanner.Banner.{
  SshProbeStatus, Round, judge, read_ssh_banner, sanitize_banner, is_ssh_identification,
}
use ip_finder.Scanner.Banner.Reading.{IsBanner, IsSteady, received, read_ssh_banner_lem}
use ip_finder.Scanner.Banner.Sanitized.{IsVisible, sanitize_banner-safe}
use ip_finder.Scanner.Connect.{ConnectResult, Answers, tcp_connect, tcp_probe}
use ip_finder.Scanner.Connect.Ownership.{Owns, tcp_connect-Owns, tcp_probe-open_handles}
use ip_finder.Scanner.Connect.Outcome.{Ready, Handshake, WaitsOnce, tcp_connect-connected}
use ip_finder.Scanner.Probe.{Peer, probe_ssh}
use ip_finder.Scanner.Probe.Verdict.{Reported, probe_ssh_lem}
use ip_finder.Tests.Dotted.{dotted}

abbrev pub no_sockets : Sockets
no_sockets = record { open_handles = []; waits = [] }

abbrev pub answering : ℕ → Answers
answering so_error = record {
  winsock_ready = true;
  new_socket = some 7;
  non_blocking = true;
  connected_at_once = false;
  connect_error = 10035;
  poll = pos 1;
  read_so_error = true;
  so_error = so_error;
}

-- The banner comes in one piece after a millisecond.
abbrev greeting : ℕ → Round
greeting i = record { now = 5000000 + 1000000; poll = pos 1; chunk = codes "SSH-2.0-dropbear\r\n" }

abbrev pub device : Peer
device = record { answers = answering 0; start = 5000000; rounds = greeting }

pub greeting-IsSteady : IsSteady 5000000 greeting
greeting-IsSteady = record { chunk_fits = λ i. omega arith; not_before = λ i. omega arith }

pub has_error : (n : ℕ) → (answering n).connected_at_once ≡ false → (answering n).connect_error ≢ 0
has_error n h e = cc

pending : tcp_connect dotted (answering 0) (codes "10.0.0.2") (pos 800) no_sockets ≡ record {
  result = ConnectResult.connected;
  out_socket = some 7;
  sockets = record { open_handles = 7 ∷ []; waits = pos 800 ∷ [] };
}
unfolding tcp_connect dotted
pending = refl

refused_later :
    tcp_connect dotted (answering 10061) (codes "10.0.0.2") (pos 800) no_sockets ≡ record {
      result = ConnectResult.refused;
      out_socket = none;
      sockets = record { open_handles = []; waits = pos 800 ∷ [] };
    }
unfolding tcp_connect dotted
refused_later = refl

found :
    probe_ssh dotted device (codes "10.0.0.2") 800 3000 no_sockets
    ≡ some (
      record {
        ip = codes "10.0.0.2";
        status = SshProbeStatus.ssh_detected;
        banner = codes "SSH-2.0-dropbear";
      },
      record { open_handles = []; waits = pos 2999 ∷ pos 800 ∷ [] },
    )
unfolding probe_ssh tcp_connect read_ssh_banner dotted
found = refl

dirty : sanitize_banner (codes "SSH-2.0\t \n more") ≡ codes "SSH-2.0?"
unfolding sanitize_banner
dirty = refl

wait_argument-bounds_example :
    ((wait_argument (pos 3000) ≡ pos 3000) ↔ (3000 < 2 ^ 31))
    × (2 ^ 31 ≤ 3000 → 3000 < 2 ^ 32 → wait_argument (pos 3000) ≡ negsuc (2 ^ 32 - 1 - 3000))
    × (wait_argument (negsuc 3000) ≡ pos 0)
wait_argument-bounds_example = wait_argument-bounds 3000

tcp_connect-Owns_example :
    Owns [] (tcp_connect dotted (answering 0) (codes "10.0.0.2") (pos 800) no_sockets)
tcp_connect-Owns_example =
    tcp_connect-Owns dotted (answering 0) (codes "10.0.0.2") (pos 800) no_sockets (has_error 0)

tcp_probe-open_handles_example :
    ((tcp_probe dotted (answering 0) (codes "10.0.0.2") (pos 800) no_sockets).0
      ≡ (tcp_connect dotted (answering 0) (codes "10.0.0.2") (pos 800) no_sockets).result)
    × ((tcp_probe dotted (answering 0) (codes "10.0.0.2") (pos 800) no_sockets).1.open_handles ≡ [])
tcp_probe-open_handles_example =
    tcp_probe-open_handles dotted (answering 0) (codes "10.0.0.2") (pos 800) no_sockets
      (has_error 0)

tcp_connect-connected_example :
    (((tcp_connect dotted (answering 10061) (codes "10.0.0.2") (pos 800) no_sockets).result
        ≡ ConnectResult.connected)
      ↔ (Ready dotted (answering 10061) (codes "10.0.0.2") × Handshake (answering 10061)))
    × WaitsOnce
        (pos 800)
        no_sockets
        (tcp_connect dotted (answering 10061) (codes "10.0.0.2") (pos 800) no_sockets).sockets
tcp_connect-connected_example =
    tcp_connect-connected dotted (answering 10061) (codes "10.0.0.2") (pos 800) no_sockets
      (has_error 10061)

sanitize_banner-safe_example :
    All IsVisible (sanitize_banner (codes "SSH-2.0\t \n more"))
    × (sanitize_banner (sanitize_banner (codes "SSH-2.0\t \n more"))
        ≡ sanitize_banner (codes "SSH-2.0\t \n more"))
    × (is_ssh_identification (sanitize_banner (codes "SSH-2.0\t \n more"))
        ≡ starts_with (codes "SSH-") (codes "SSH-2.0\t \n more"))
sanitize_banner-safe_example = sanitize_banner-safe (codes "SSH-2.0\t \n more")

read_ssh_banner_lem_example :
    (n : ℕ) × (w' : Sockets) × (read_ssh_banner 5000000 greeting (codes "10.0.0.2") 3000 no_sockets
      ≡ some (judge (codes "10.0.0.2") (received greeting n), w'))
    × IsBanner (after_ms 5000000 3000) greeting n
    × (n ≤ 513)
    × (length (received greeting n) < 640)
    × (w'.open_handles ≡ [])
    × All (WaitsAtMost 3000) w'.waits
read_ssh_banner_lem_example =
    read_ssh_banner_lem 5000000 3000 3000 greeting greeting-IsSteady (omega arith) (omega arith)
      (codes "10.0.0.2") no_sockets tt

probe_ssh_lem_example :
    Reported device
      (codes "10.0.0.2")
      3000
      3000
      []
      (tcp_connect dotted (answering 0) (codes "10.0.0.2") (pos 800) no_sockets).result
      (probe_ssh dotted device (codes "10.0.0.2") 800 3000 no_sockets)
probe_ssh_lem_example =
    probe_ssh_lem dotted device (codes "10.0.0.2") 800 3000 3000 no_sockets greeting-IsSteady
      (has_error 0) (omega arith) (omega arith) (omega arith) tt
