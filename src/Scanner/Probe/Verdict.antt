-- ===== src/Scanner/Probe/Verdict.antt =====
-- What a probe reports, and its sockets.
use ip_finder.Common.{
  subst, ℕ, ◌^◌, ◌≤◌, ◌<◌, true, false, List, [], ◌∷◌, ◌≡◌, ◌≢◌, ◌↔◌, inl, inr, refl, ◌∙◌, All,
  Option, some, arith, if◌then◌else◌, ==_refl,
}
use ip_finder.Common.Bytes.{Bytes, codes, starts_with}
use ip_finder.Common.Int.{pos, after_ms}
use ip_finder.Inet.{Inet}
use ip_finder.Platform.{Socket, Sockets, close_socket}
use ip_finder.Platform.Waiting.{WaitsAtMost, close-waits, wait_argument-bounds}
use ip_finder.Scanner.Banner.{
  SshProbeStatus, SshProbeResult, judge, sanitize_banner, is_ssh_identification,
}
use ip_finder.Scanner.Banner.Reading.{
  IsBanner, IsBanner-unique, received, IsSteady, read_ssh_banner_lem,
}
use ip_finder.Scanner.Banner.Sanitized.{sanitize_banner-safe}
use ip_finder.Scanner.Connect.{ConnectResult, tcp_connect}
use ip_finder.Scanner.Connect.Ownership.{Owns, tcp_connect-Owns}
use ip_finder.Scanner.Connect.Outcome.{WaitsOnce, tcp_connect-connected}
use ip_finder.Scanner.Probe.{Peer, after_attempt, probe_ssh}

pub waits_once :
    (t bound : ℕ) (w w' : Sockets)
    → t ≤ bound
    → bound < 2 ^ 31
    → All (WaitsAtMost bound) w.waits
    → WaitsOnce (pos t) w w'
    → All (WaitsAtMost bound) w'.waits
waits_once t bound w w' le short ws (inl e) = rw e ws
waits_once t bound w w' le short ws (inr e) =
    rw (e, (wait_argument-bounds t).0.1 (omega arith)) (le, ws)

judge-cons :
    (ip : Bytes) (c : ℕ) (cs : Bytes)
    → (judge ip (c ∷ cs)).status ≡ (
        if is_ssh_identification (sanitize_banner (c ∷ cs))
        then SshProbeStatus.ssh_detected
        else SshProbeStatus.not_ssh)
unfolding judge
judge-cons ip c cs = refl

judge-ssh_detected :
    (ip buffer : Bytes)
    → ((judge ip buffer).status ≡ SshProbeStatus.ssh_detected)
      ↔ (starts_with (codes "SSH-") buffer ≡ true)
judge-ssh_detected ip [] = unfold judge starts_with in (λ e. cc, λ e. cc)
judge-ssh_detected ip (c ∷ cs) =
    let e = (sanitize_banner-safe (c ∷ cs)).2 in
    (λ h. ground (arith, judge-cons ip c cs), λ h. ground (arith, judge-cons ip c cs))

judge-ip : (ip buffer : Bytes) → (judge ip buffer).ip ≡ ip
unfolding judge
judge-ip ip buffer = ground arith

close-newest :
    (h : ℕ) (handles : List ℕ) (w : Sockets)
    → w.open_handles ≡ h ∷ handles
    → (close_socket (some h) w).1.open_handles ≡ handles
unfolding close_socket
close-newest h handles w e = rw e (ground (arith, ==_refl h))

-- The bytes that come in time from the peer, up to a line or 512 bytes, start with "SSH-".
abbrev pub Greets : Peer → ℕ → Type 0
Greets peer limit =
    (n : ℕ) × IsBanner (after_ms peer.start limit) peer.rounds n
    × (starts_with (codes "SSH-") (received peer.rounds n) ≡ true)

-- The outcome of a probe whose connection had the given result.
abbrev pub Reported :
    Peer → Bytes → ℕ → ℕ → List ℕ → ConnectResult → Option (SshProbeResult × Sockets) → Type 0
Reported peer ip limit bound handles res o =
    (r : SshProbeResult) × (w' : Sockets) × (o ≡ some (r, w'))
    × (r.ip ≡ ip)
    × (w'.open_handles ≡ handles)
    × All (WaitsAtMost bound) w'.waits
    × ((r.status ≡ SshProbeStatus.ssh_detected)
        ↔ ((res ≡ ConnectResult.connected) × Greets peer limit))

module _ (peer : Peer) (ip : Bytes) (limit bound : ℕ) (steady : IsSteady peer.start peer.rounds)
    (within : limit ≤ bound) (short : bound < 2 ^ 31) (handles : List ℕ) where
  Owns-handles :
      (res : ConnectResult) (s : Socket) (w : Sockets)
      → res ≢ ConnectResult.connected
      → Owns handles (record { result = res; out_socket = s; sockets = w })
      → w.open_handles ≡ handles
  Owns-handles res s w ne (inl (e, _)) = absurd (ne e)
  Owns-handles res s w ne (inr (_, _, o)) = o

  -- No banner is read where there is no connection.
  no_ssh-Reported :
      (res : ConnectResult) (status : SshProbeStatus) (s : Socket) (w : Sockets)
      → res ≢ ConnectResult.connected
      → status ≢ SshProbeStatus.ssh_detected
      → Owns handles (record { result = res; out_socket = s; sockets = w })
      → All (WaitsAtMost bound) w.waits
      → Reported peer ip limit bound handles res
          (some (record { ip = ip; status = status; banner = [] }, w))
  no_ssh-Reported res status s w ne off own ws = (
    record { ip = ip; status = status; banner = [] },
    w,
    refl,
    refl,
    Owns-handles res s w ne own,
    ws,
    (λ h. absurd (off h), λ (h, _). absurd (ne h)),
  )

  after_attempt-Reported :
      (res : ConnectResult) (s : Socket) (w : Sockets)
      → Owns handles (record { result = res; out_socket = s; sockets = w })
      → All (WaitsAtMost bound) w.waits
      → Reported peer ip limit bound handles res (after_attempt peer ip limit res s w)
  unfolding after_attempt
  after_attempt-Reported ConnectResult.connected s w (inl (_, (h, e, o))) ws =
      let (n, w', read, all, _, _, same, ws') =
        read_ssh_banner_lem peer.start limit bound peer.rounds steady within short ip w ws in
      let buffer = received peer.rounds n in
      let verdict = judge-ssh_detected ip buffer in
      (
        judge ip buffer,
        (close_socket (some h) w').1,
        rw (e, read),
        judge-ip ip buffer,
        close-newest h handles w' (same ∙ o),
        rw (close-waits (some h) w') ws',
        (
          λ d. (refl, (n, all, verdict.0 d)),
          λ (_, (m, all', t)). verdict.1 (
              subst (λ j. starts_with (codes "SSH-") (received peer.rounds j) ≡ true)
                (IsBanner-unique (after_ms peer.start limit) peer.rounds m n all' all) t),
        ),
      )
  after_attempt-Reported ConnectResult.connected s w (inr (ne, _, _)) ws = absurd (ne refl)
  after_attempt-Reported ConnectResult.refused s w own ws =
      no_ssh-Reported _ _ s w (λ e. cc) (λ e. cc) own ws
  after_attempt-Reported ConnectResult.timed_out s w own ws =
      no_ssh-Reported _ _ s w (λ e. cc) (λ e. cc) own ws
  after_attempt-Reported ConnectResult.unreachable s w own ws =
      no_ssh-Reported _ _ s w (λ e. cc) (λ e. cc) own ws
  after_attempt-Reported ConnectResult.error s w own ws =
      no_ssh-Reported _ _ s w (λ e. cc) (λ e. cc) own ws

-- Provided that a failed connect has an error code, `recv` keeps to its buffer, the clock does not
-- run backwards, and both timeouts are at most `bound`, which is below 2^31 ms: every probe gives a
-- result for its address; it reports SSH exactly when the connection was made and the bytes that
-- come in time, up to a line or 512 bytes, start with "SSH-"; it leaves the open sockets as they were, and waits at most `bound`
-- each time.
pub probe_ssh_lem :
    (net : Inet) (peer : Peer) (ip : Bytes) (connect_timeout limit bound : ℕ) (w : Sockets)
    → IsSteady peer.start peer.rounds
    → (peer.answers.connected_at_once ≡ false → peer.answers.connect_error ≢ 0)
    → connect_timeout ≤ bound
    → limit ≤ bound
    → bound < 2 ^ 31
    → All (WaitsAtMost bound) w.waits
    → Reported peer ip limit bound w.open_handles
        (tcp_connect net peer.answers ip (pos connect_timeout) w).result
        (probe_ssh net peer ip connect_timeout limit w)
unfolding probe_ssh
probe_ssh_lem net peer ip ct limit bound w steady sure c l short ws =
    let a = tcp_connect net peer.answers ip (pos ct) w in
    after_attempt-Reported peer ip limit bound steady l short w.open_handles a.result a.out_socket
      a.sockets (tcp_connect-Owns net peer.answers ip (pos ct) w sure)
      (waits_once ct bound w a.sockets c short ws
        (tcp_connect-connected net peer.answers ip (pos ct) w sure).1)
