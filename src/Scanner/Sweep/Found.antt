-- ===== src/Scanner/Sweep/Found.antt =====
-- What a sweep finds, and how it leaves the pool and the sockets.
use mathlib.Core.List.{Mem, mem-cons_self, mem-cons_of_mem, append-nil, append_assoc}
use ip_finder.Common.{
  ℕ, ◌+◌, ◌≤◌, ◌<◌, ◌^◌, ◌≡◌, ◌≢◌, ◌⊎◌, inl, inr, refl, sym, ◌∙◌, ap, subst, true, false,
  Option-cases, Bool-cases, List, [], ◌∷◌, ◌++◌, All, All-map, length, Option, none, some, arith,
}
use ip_finder.Common.Bytes.{Bytes}
use ip_finder.Common.Int.{pos}
use ip_finder.Inet.{Inet}
use ip_finder.Platform.{Sockets}
use ip_finder.Platform.Waiting.{WaitsAtMost}
use ip_finder.Scanner.Banner.Reading.{IsSteady}
use ip_finder.Scanner.Banner.{SshProbeStatus, SshProbeResult, is_detected, is_ssh}
use ip_finder.Scanner.Connect.Outcome.{Ready, Handshake, tcp_connect-connected}
use ip_finder.Scanner.Probe.Verdict.{Greets, probe_ssh_lem}
use ip_finder.Scanner.Probe.{Peer}
use ip_finder.Scanner.Sweep.{submit_all, probe_task, collect, sweep_for_ssh, push_found}
use ip_finder.Threading.Served.{Leads, thread_pool-Leads}
use ip_finder.Threading.{ThreadPool, thread_pool, submit}

submit-open :
    (a : Bytes) (pool : ThreadPool Bytes)
    → pool.stopping ≡ false
    → submit a pool
      ≡ some (record pool { tasks = pool.tasks ++ (a ∷ []); notify_one = pool.notify_one + 1 })
unfolding submit
submit-open a pool h = ground arith

-- Each address is one more task at the end of the queue, and one more notification.
submit_all-open :
    (addresses : List Bytes) (pool : ThreadPool Bytes)
    → pool.stopping ≡ false
    → submit_all addresses pool
      ≡ some (record pool {
        tasks = pool.tasks ++ addresses;
        notify_one = pool.notify_one + length addresses;
      })
unfolding submit_all
submit_all-open [] pool h =
    let due : pool.notify_one ≡ pool.notify_one + 0 = omega arith in
    ap (λ ts. some (record pool { tasks = ts })) (sym (append-nil pool.tasks))
    ∙ ap (λ n. some (record pool { tasks = pool.tasks ++ []; notify_one = n })) due
submit_all-open (a ∷ rest) pool h =
    let q : ThreadPool Bytes = record pool {
      tasks = pool.tasks ++ (a ∷ []);
      notify_one = pool.notify_one + 1;
    } in
    let due : pool.notify_one + 1 + length rest ≡ pool.notify_one + length (a ∷ rest) =
      omega arith in
    rw (submit-open a pool h, submit_all)
      (submit_all-open rest q h
        ∙ ap
            (λ ts.
              some (record pool { tasks = ts; notify_one = pool.notify_one + 1 + length rest }))
            (append_assoc pool.tasks (a ∷ []) rest)
        ∙ ap (λ n. some (record pool { tasks = pool.tasks ++ (a ∷ rest); notify_one = n })) due)

-- The peer at the address accepts a connection and greets as an SSH server does.
abbrev pub IsDevice : Inet → (Bytes → Option Peer) → ℕ → Bytes → Type 0
IsDevice net peers limit a =
    (p : Peer) × (peers a ≡ some p) × Ready net p.answers a × Handshake p.answers × Greets p limit

-- The results are those of the addresses that meet `P`, one for each and in their order.
abbrev pub Sifted : (Bytes → Type 0) → List Bytes → List SshProbeResult → Type 0
Sifted P [] found = found ≡ []
Sifted P (a ∷ as') found =
    (P a
      × ((r : SshProbeResult) × (rest : List SshProbeResult) × (found ≡ r ∷ rest)
          × (r.ip ≡ a)
          × (r.status ≡ SshProbeStatus.ssh_detected)
          × Sifted P as' rest))
    ⊎ (¬ P a × Sifted P as' found)

is_detected-eq : (s : SshProbeStatus) → is_detected s ≡ true → s ≡ SshProbeStatus.ssh_detected
is_detected-eq SshProbeStatus.ssh_detected h = refl
is_detected-eq SshProbeStatus.not_ssh h = cc
is_detected-eq SshProbeStatus.no_banner h = cc
is_detected-eq SshProbeStatus.port_closed h = cc
is_detected-eq SshProbeStatus.timeout h = cc
is_detected-eq SshProbeStatus.unreachable h = cc
is_detected-eq SshProbeStatus.error h = cc

-- A host that was swept, and that is a device.
abbrev pub Found : Inet → (Bytes → Option Peer) → ℕ → List Bytes → SshProbeResult → Type 0
Found net peers limit addresses r = Mem r.ip addresses × IsDevice net peers limit r.ip

-- Every peer keeps to the documented behaviour of the socket calls.
abbrev pub IsOrderly : (Bytes → Option Peer) → Type 0
IsOrderly peers =
    (a : Bytes) (p : Peer)
    → peers a ≡ some p
    → IsSteady p.start p.rounds
      × (p.answers.connected_at_once ≡ false → p.answers.connect_error ≢ 0)

module _ (net : Inet) (peers : Bytes → Option Peer) (limit : ℕ) where
  Found-later :
      (a : Bytes) (rest : List Bytes) (r : SshProbeResult)
      → Found net peers limit rest r
      → Found net peers limit (a ∷ rest) r
  Found-later a rest r (mem, d) = (mem-cons_of_mem a mem, d)

  pub Sifted-Found :
      (as' : List Bytes) (found : List SshProbeResult)
      → Sifted (IsDevice net peers limit) as' found
      → All (Found net peers limit as') found
  Sifted-Found [] found e = rw e tt
  Sifted-Found (a ∷ as') found (inl (d, (r, rest, e, ip, status, more))) = rw e (
    (rw ip mem-cons_self, subst (IsDevice net peers limit) (sym ip) d),
    All-map _ _ rest (Found-later a as') (Sifted-Found as' rest more),
  )
  Sifted-Found (a ∷ as') found (inr (none_here, more)) =
      All-map _ _ found (Found-later a as') (Sifted-Found as' found more)

  module _ (orderly : IsOrderly peers) (connect_timeout bound : ℕ)
      (connects : connect_timeout ≤ bound) (within : limit ≤ bound) (short : bound < 2 ^ 31) where
    -- A task ends, with the result of a probe or an exception.
    abbrev Probed : Bytes → Sockets → Option (Option SshProbeResult × Sockets) → Type 0
    Probed a w o =
        (q : Option SshProbeResult) × (w' : Sockets) × (o ≡ some (q, w'))
        × (w'.open_handles ≡ w.open_handles)
        × All (WaitsAtMost bound) w'.waits
        × (((r : SshProbeResult) × (q ≡ some r)
              × (r.ip ≡ a)
              × (r.status ≡ SshProbeStatus.ssh_detected)
              × IsDevice net peers limit a)
            ⊎ (¬ IsDevice net peers limit a
                × ((found : List SshProbeResult) → push_found q found ≡ found)))

    probe_task-Probed :
        (a : Bytes) (w : Sockets)
        → All (WaitsAtMost bound) w.waits
        → Probed a w (probe_task net peers connect_timeout limit a w)
    unfolding probe_task
    probe_task-Probed a w ws = elim (Option-cases (peers a)) [
      | inl nobody ↦ (
        none,
        w,
        rw (nobody, probe_task) refl,
        refl,
        ws,
        inr ((λ (p, e, ready, shakes, greets). cc (nobody, e)), λ found. refl),
      )
      | inr (p, there) ↦ probed p there
    ]
      where
        probed :
            (p : Peer)
            → peers a ≡ some p
            → Probed a w (probe_task net peers connect_timeout limit a w)
        probed p there =
            let (steady, sure) = orderly a p there in
            let (r, w', ran, ip, handles, ws', ssh) =
              probe_ssh_lem net p a connect_timeout limit bound w steady sure connects within short
                ws in
            let joined = (tcp_connect-connected net p.answers a (pos connect_timeout) w sure).0 in
            (
              some r,
              w',
              rw (there, ran, probe_task) refl,
              handles,
              ws',
              elim (Bool-cases (is_ssh r)) [
                | inl seen ↦
                    let d = is_detected-eq r.status seen in
                    let (c, greets) = ssh.0 d in
                    let (ready, shakes) = joined.0 c in
                    inl (r, refl, ip, d, (p, there, ready, shakes, greets))
                | inr no_ssh ↦ inr (
                  (λ (p', there', ready, shakes, greets).
                      let same : p' ≡ p = ground (arith, there, there') in
                      let d = ssh.1 (
                        joined.1 (
                          subst (λ (x : Peer). Ready net x.answers a) same ready,
                          subst (λ (x : Peer). Handshake x.answers) same shakes,
                        ),
                        subst (λ x. Greets x limit) same greets,
                      ) in
                      cc (ap is_detected d, no_ssh)),
                  λ found. rw no_ssh refl,
                )
              ],
            )

    abbrev Collected : List Bytes → Sockets → Option (List SshProbeResult × Sockets) → Type 0
    Collected as' w o =
        (found : List SshProbeResult) × (w' : Sockets) × (o ≡ some (found, w'))
        × (w'.open_handles ≡ w.open_handles)
        × All (WaitsAtMost bound) w'.waits
        × Sifted (IsDevice net peers limit) as' found

    collect-Collected :
        (as' : List Bytes) (w : Sockets)
        → All (WaitsAtMost bound) w.waits
        → Collected as' w (collect net peers connect_timeout limit as' w)
    unfolding collect
    collect-Collected [] w ws = ([], w, refl, refl, ws, refl)
    collect-Collected (a ∷ as') w ws =
        let (q, w1, ran, handles, ws1, verdict) = probe_task-Probed a w ws in
        let (rest, w2, ran', handles', ws2, sifted) = collect-Collected as' w1 ws1 in
        (
          push_found q rest,
          w2,
          rw (ran, ran', collect) refl,
          handles' ∙ handles,
          ws2,
          elim verdict [
            | inl (r, e, ip, status, d) ↦
                let seen = ap is_detected status in
                inl (d, (r, rest, rw (e, seen) refl, ip, status, sifted))
            | inr (other, skips) ↦
                inr (other, subst (Sifted (IsDevice net peers limit) as') (sym (skips rest)) sifted)
          ],
        )

    -- The pool with the tasks of the sweep.
    abbrev pub submitted : ℕ → List Bytes → ThreadPool Bytes
    submitted n addresses = record (thread_pool n) {
      tasks = addresses;
      notify_one = length addresses;
    }

    -- For peers that keep to the documented behaviour of the socket calls, and timeouts of at most
    -- `bound`, which is below 2^31 ms: a sweep on a fresh pool ends; its results are those of the
    -- addresses whose peer accepts a connection and greets as an SSH server does, one for each and
    -- in their order; the open sockets are as before, and no wait is longer than `bound`; and the
    -- pool is again a fresh one, as the workers can leave it when they have started the addresses
    -- as tasks, in their order, and finished them.
    pub sweep_for_ssh-Sifted :
        (n : ℕ) (addresses : List Bytes) (w : Sockets)
        → All (WaitsAtMost bound) w.waits
        → ((found : List SshProbeResult) × (w' : Sockets) × (sweep_for_ssh net peers connect_timeout
                limit
                (thread_pool n)
                addresses
                w
              ≡ some (thread_pool n, found, w'))
            × (w'.open_handles ≡ w.open_handles)
            × All (WaitsAtMost bound) w'.waits
            × Sifted (IsDevice net peers limit) addresses found)
          × Leads
              (record {
                pool = submitted n addresses;
                accepted = addresses;
                started = [];
                finished = [];
              })
              (thread_pool n)
              addresses
    unfolding sweep_for_ssh thread_pool
    sweep_for_ssh-Sifted n addresses w ws =
        let (found, w', ran, handles, ws', sifted) = collect-Collected addresses w ws in
        (
          (
            found,
            w',
            rw (submit_all-open addresses (thread_pool n) refl, ran, sweep_for_ssh) refl,
            handles,
            ws',
            sifted,
          ),
          thread_pool-Leads n addresses addresses (length addresses),
        )
