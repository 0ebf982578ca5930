-- ===== src/Scanner/Banner.antt =====
-- scanner/ssh_detector.{hpp,cpp}: the identification string of a peer.
pub mod Sanitized
pub mod Reading
use ip_finder.Common.{
  ℕ, suc, zero, ◌+◌, ◌*◌, ◌-◌, ◌/◌, Bool, true, false, ◌&&◌, ◌||◌, List, [], ◌∷◌, ◌++◌, ◌==◌, ltb,
  leb, if◌then◌else◌, is_empty, length, Option, none, some,
}
use ip_finder.Common.Bytes.{Bytes, codes, starts_with, contains, strip_end}
use ip_finder.Common.Int.{ℤ, pos, is_negative, is_zero, after_ms}
use ip_finder.Platform.{Sockets, wait_for_socket}

pub data SshProbeStatus : Type 0 where
  ssh_detected not_ssh no_banner port_closed timeout unreachable error : SshProbeStatus

unfoldable pub to_string : SshProbeStatus → Bytes
to_string SshProbeStatus.ssh_detected = codes "ssh detected"
to_string SshProbeStatus.not_ssh = codes "port 22 is open but does not identify as SSH"
to_string SshProbeStatus.no_banner = codes "port 22 is open but no SSH banner was received"
to_string SshProbeStatus.port_closed = codes "port 22 is closed"
to_string SshProbeStatus.timeout = codes "connection timed out"
to_string SshProbeStatus.unreachable = codes "host unreachable"
to_string SshProbeStatus.error = codes "probe error"

pub record SshProbeResult : Type 0 where
  pub ip : Bytes
  pub status : SshProbeStatus
  pub banner : Bytes

abbrev pub is_detected : SshProbeStatus → Bool
is_detected ssh_detected = true
is_detected not_ssh = false
is_detected no_banner = false
is_detected port_closed = false
is_detected timeout = false
is_detected unreachable = false
is_detected error = false

abbrev pub is_ssh : SshProbeResult → Bool
is_ssh r = is_detected r.status

unfoldable pub is_ssh_identification : Bytes → Bool
unfolding starts_with
is_ssh_identification line = starts_with (codes "SSH-") line

-- The loop of `sanitize_banner`, up to the end of the first line.
unfoldable pub visible : Bytes → Bytes
visible [] = []
visible (c ∷ cs) =
    let rest = visible cs in
    if c == b'\r' || c == b'\n' then [] else (if leb 0x20 c && ltb c 0x7f then c else b'?') ∷ rest

abbrev pub is_blank : ℕ → Bool
is_blank c = c == b' '

unfoldable pub sanitize_banner : Bytes → Bytes
unfolding visible strip_end
sanitize_banner raw = strip_end is_blank (visible raw)

-- What one round of the reading loop gets: the clock in nanoseconds, the answer of WSAPoll, and
-- the bytes of `recv`, none where its result is not positive.
pub record Round : Type 0 where
  pub now : ℕ
  pub poll : ℤ
  pub chunk : Bytes

abbrev pub max_banner_bytes : ℕ
max_banner_bytes = 512

-- The reading loop on fuel; `none` means that the fuel ran out.
unfoldable pub read_loop : ℕ → (ℕ → Round) → ℕ → ℕ → Bytes → Sockets → Option (Bytes × Sockets)
unfolding wait_for_socket contains
read_loop zero rounds i deadline buffer w = none
read_loop (suc fuel) rounds i deadline buffer w =
    let r = rounds i in
    let remaining = (deadline - r.now) / 1000000 in
    let (rc, w') = wait_for_socket (pos remaining) r.poll w in
    let buffer' = buffer ++ r.chunk in
    let more = read_loop fuel rounds (suc i) deadline buffer' w' in
    if leb deadline r.now
    then some (buffer, w)
    else if is_negative rc || is_zero rc
    then some (buffer, w')
    else if is_empty r.chunk
    then some (buffer, w')
    else if contains (codes "\n") buffer' || leb max_banner_bytes (length buffer')
    then some (buffer', w')
    else more

-- The end of `read_ssh_banner`.
unfoldable pub judge : Bytes → Bytes → SshProbeResult
unfolding sanitize_banner is_ssh_identification
judge ip buffer =
    if is_empty buffer
    then record { ip = ip; status = no_banner; banner = [] }
    else (let banner = sanitize_banner buffer in
        record {
          ip = ip;
          status = if is_ssh_identification banner then ssh_detected else not_ssh;
          banner = banner;
        })

-- A round adds a byte at least, so that one more than `max_banner_bytes` is enough.
abbrev pub banner_fuel : ℕ
banner_fuel = 513

-- With the clock at the start, and a timeout in milliseconds.
unfoldable pub read_ssh_banner :
    ℕ → (ℕ → Round) → Bytes → ℕ → Sockets → Option (SshProbeResult × Sockets)
unfolding read_loop judge after_ms
read_ssh_banner start rounds ip limit w =
    elim (read_loop banner_fuel rounds 0 (after_ms start limit) [] w) [
      | none ↦ none
      | some (buffer, w') ↦ some (judge ip buffer, w')
    ]
