-- ===== src/Scanner/Sweep.antt =====
-- scanner/subnet_sweep.cpp: the addresses of a subnet, and probing them on the thread pool. `int
-- min_prefix` is an ℤ.
pub mod Hosts
pub mod Subnet
pub mod Found
use ip_finder.Common.{
  ℕ, zero, suc, ◌+◌, ◌-◌, ◌%◌, ◌^◌, Bool, true, false, ◌||◌, List, [], ◌∷◌, ◌==◌, ltb, leb,
  if◌then◌else◌, map_option, Option, none, some,
}
use ip_finder.Common.Bytes.{Bytes}
use ip_finder.Common.Int.{ℤ, pos, negsuc}
use ip_finder.Inet.{Inet}
use ip_finder.Platform.{Sockets}
use ip_finder.Scanner.Banner.{SshProbeResult, is_ssh}
use ip_finder.Scanner.Probe.{Peer, probe_ssh}
use ip_finder.Threading.{ThreadPool, submit}
use ip_finder.Network.Interface.{NetworkInterface, or_empty, network, broadcast, prefix_length}

abbrev pub to_dotted : Inet → ℕ → Bytes
to_dotted net host_order = or_empty (net.ntop host_order)

-- `prefix < min_prefix`
abbrev pub below : ℕ → ℤ → Bool
below p (pos m) = ltb p m
below p (negsuc m) = false

-- The loop over a /31 or /32 link, `left` rounds from `i` on.
unfoldable pub link_loop : Inet → NetworkInterface → ℕ → ℕ → List Bytes
unfolding network
link_loop net iface zero i = []
link_loop net iface (suc left) i =
    let rest = link_loop net iface left (i + 1) in
    let address = (network iface + i) % 2 ^ 32 in
    if address == iface.address then rest else to_dotted net address ∷ rest

-- `push_back` in front of what the later rounds append.
abbrev push : Bytes → Option (List Bytes) → Option (List Bytes)
push t none = none
push t (some ts) = some (t ∷ ts)

-- The loop from `address` up to `last`, on fuel: `none` when it would go on.
unfoldable pub host_loop : Inet → ℕ → ℕ → ℕ → ℕ → Option (List Bytes)
host_loop net own last zero address = none
host_loop net own last (suc fuel) address =
    let rest = host_loop net own last fuel ((address + 1) % 2 ^ 32) in
    if ltb address last
    then (if address == own then rest else push (to_dotted net address) rest)
    else some []

-- The fuel is the capacity that is reserved for the hosts.
unfoldable pub enumerate_subnet_hosts : Inet → NetworkInterface → ℤ → Option (List Bytes)
enumerate_subnet_hosts net iface min_prefix =
    let prefix = prefix_length iface in
    let hosts =
      host_loop net iface.address (broadcast iface) (broadcast iface - network iface)
        ((network iface + 1) % 2 ^ 32) in
    if below prefix min_prefix || iface.mask == 0
    then some []
    else if leb 31 prefix
    then some (link_loop net iface (if prefix == 32 then 1 else 2) 0)
    else hosts

-- The loop of submissions, in order; `none` where one of them throws.
unfoldable pub submit_all : List Bytes → ThreadPool Bytes → Option (ThreadPool Bytes)
unfolding submit
submit_all [] pool = some pool
submit_all (address ∷ addresses) pool = elim (submit address pool) [
  | none ↦ none
  | some pool' ↦ submit_all addresses pool'
]

-- What a task of the pool gives to its future, and the sockets it leaves. Where there is no peer, the
-- task throws before it opens a socket.
unfoldable pub probe_task :
    Inet
    → (Bytes → Option Peer)
    → ℕ
    → ℕ
    → Bytes
    → Sockets
    → Option (Option SshProbeResult × Sockets)
unfolding probe_ssh
probe_task net peers connect_timeout banner_timeout address w = elim (peers address) [
  | none ↦ some (none, w)
  | some peer ↦
      map_option (λ (q : SshProbeResult × Sockets). (some q.0, q.1))
        (probe_ssh net peer address connect_timeout banner_timeout w)
]

-- One round of the loop over the futures, where `none` is an exception.
abbrev pub push_found : Option SshProbeResult → List SshProbeResult → List SshProbeResult
push_found none found = found
push_found (some result) found = if is_ssh result then result ∷ found else found

abbrev pub then_push :
    Option SshProbeResult
    → Option (List SshProbeResult × Sockets)
    → Option (List SshProbeResult × Sockets)
then_push result none = none
then_push result (some (found, w)) = some (push_found result found, w)

-- The loop over the futures, each of which waits for its task. Each probe works on a socket of its
-- own, so that the tasks are taken in the order of the queue.
unfoldable pub collect :
    Inet
    → (Bytes → Option Peer)
    → ℕ
    → ℕ
    → List Bytes
    → Sockets
    → Option (List SshProbeResult × Sockets)
unfolding probe_task
collect net peers connect_timeout banner_timeout [] w = some ([], w)
collect net peers connect_timeout banner_timeout (address ∷ addresses) w =
    elim (probe_task net peers connect_timeout banner_timeout address w) [
      | none ↦ none
      | some (result, w') ↦
          then_push result (collect net peers connect_timeout banner_timeout addresses w')
    ]

-- The pool when the last future is ready, and the workers are back at the lock.
abbrev pub served : ThreadPool Bytes → ThreadPool Bytes
served pool = record pool { tasks = []; notify_one = 0 }

abbrev with_results :
    ThreadPool Bytes
    → Option (List SshProbeResult × Sockets)
    → Option (ThreadPool Bytes × List SshProbeResult × Sockets)
with_results pool none = none
with_results pool (some (found, w)) = some (served pool, found, w)

-- A task of the pool is the address that it probes. `none` where a submission throws.
unfoldable pub sweep_for_ssh :
    Inet
    → (Bytes → Option Peer)
    → ℕ
    → ℕ
    → ThreadPool Bytes
    → List Bytes
    → Sockets
    → Option (ThreadPool Bytes × List SshProbeResult × Sockets)
unfolding submit_all collect
sweep_for_ssh net peers connect_timeout banner_timeout pool addresses w =
    elim (submit_all addresses pool) [
      | none ↦ none
      | some pool' ↦
          with_results pool' (collect net peers connect_timeout banner_timeout addresses w)
    ]
