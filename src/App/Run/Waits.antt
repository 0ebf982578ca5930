-- ===== src/App/Run/Waits.antt =====
-- The waits of a run.
use ip_finder.App.{ExitCode, hinted, only, select_interface}
use ip_finder.App.Arguments.{Options}
use ip_finder.App.Run.Device.{IsEnough}
use ip_finder.App.Run.Origin.{IsWord, hinted-IsWord}
use ip_finder.App.Run.{
  config_of, with_pool, on_device, on_devices, on_stage_b, on_stage_a, on_interface, on_queried,
  on_password, select_password, run,
}
use ip_finder.App.Session.{
  Environment, Ran, after, destroy, leave, Target, is_usable, conclude_run, after_fallback,
  on_fallback, on_ifconfig, after_login,
}
use ip_finder.App.Session.Report.{Finishes}
use ip_finder.App.Stages.Ends.{
  IsStage, IsStageB, stage_a_subnet_scan-IsStage, stage_b_layer2-IsStageB,
}
use ip_finder.App.Stages.{Stage, stage_b_layer2}
use ip_finder.Common.{
  ℕ, ◌≡◌, refl, sym, subst, not, List, [], ◌∷◌, All, if-cases, is_empty, map_option, Option, none,
  some,
}
use ip_finder.Common.Bytes.{Bytes, codes}
use ip_finder.Inet.{Inet, IsInet}
use ip_finder.Network.Interface.Query.{Queried, listed, thrown, query_adapter_addresses}
use ip_finder.Network.Interface.{NetworkInterface, discover_candidate_interfaces}
use ip_finder.Parser.{RemoteInterface, parse_ifconfig_output, parse_ip_addr_output}
use ip_finder.Platform.Waiting.{WaitsAtMost}
use ip_finder.Platform.{Sockets}
use ip_finder.Scanner.Banner.{SshProbeResult}
use ip_finder.Scanner.Probe.Verdict.{waits_once}
use ip_finder.Ssh.Command.{execute-Runs}
use ip_finder.Ssh.Connect.{Login, connect_and_authenticate}
use ip_finder.Ssh.Execute.{execute}
use ip_finder.Ssh.Waits.{disconnect-waits, connect_and_authenticate-WaitsOnce}
use ip_finder.Ssh.{CommandResult, Process, SshClient, disconnect, ssh_client}
use ip_finder.Threading.{ThreadPool}

-- No wait of a run that ends is longer than the bound.
abbrev pub IsBrief : ℕ → Option Ran → Type 0
IsBrief bound none = Unit
IsBrief bound (some r) = All (WaitsAtMost bound) r.process.sockets.waits

module _ (bound : ℕ) where
  map_option-IsBrief :
      (f : Ran → Ran) (o : Option Ran)
      → ((r : Ran) → (f r).process ≡ r.process)
      → IsBrief bound o
      → IsBrief bound (map_option f o)
  map_option-IsBrief f none same h = tt
  map_option-IsBrief f (some r) same h =
      subst (λ (p : Process). All (WaitsAtMost bound) p.sockets.waits) (sym (same r)) h

  abbrev Brief : Process → Type 0
  Brief w = All (WaitsAtMost bound) w.sockets.waits

  destroy-Brief : (c : SshClient) (w : Process) → Brief w → Brief (destroy c w)
  destroy-Brief c w h = subst (All (WaitsAtMost bound)) (sym (disconnect-waits c w)) h

  leave-Brief : (c : SshClient) (w : Process) → Brief w → Brief (leave c w)
  leave-Brief c w h = destroy-Brief (disconnect c w).0 (disconnect c w).1 (destroy-Brief c w h)

  conclude_run-IsBrief :
      (options : Options) (t : Target) (source status : Bytes) (is : List RemoteInterface)
      (w : Process)
      → Brief w
      → IsBrief bound (some (conclude_run options t source status is w))
  unfolding conclude_run
  conclude_run-IsBrief options t source status is w h =
      if-cases (λ (r : Ran). Brief r.process) (is_empty is) _ _ (λ _. h) (λ _. h)

  module _ (net : Inet) (options : Options) (env : Environment) (t : Target)
      (f : Finishes env.ifconfig env.fuel) (g : Finishes env.ip_addr env.fuel) where
    on_fallback-IsBrief :
        (c : SshClient) (command : CommandResult) (w : Process)
        → Brief w
        → IsBrief bound (
            on_fallback net options t c command
              (execute env.ip_addr env.fuel (codes "ip -4 addr") c w))
    unfolding after_fallback
    on_fallback-IsBrief c command w h =
        let (q, v, ran, x) =
          execute-Runs env.ip_addr g.out_blocks g.err_blocks env.fuel (codes "ip -4 addr") c w
            g.out_stops g.err_stops g.out_enough g.err_enough in
        let h' = subst (λ (s : Sockets). All (WaitsAtMost bound) s.waits) (sym x.kept.sockets) h in
        subst (λ o. IsBrief bound (on_fallback net options t c command o)) (sym ran)
          (if-cases (λ (r : Ran). Brief r.process) (not (is_usable q)) _ _ (λ _. leave-Brief c v h')
            (λ _.
              conclude_run-IsBrief options t (codes "ip -4 addr") c.host_key_status
                (parse_ip_addr_output net q.stdout_data) (leave c v) (leave-Brief c v h')))

    pub after_login-IsBrief :
        (l : Login) → Brief l.process → IsBrief bound (after_login net options env t l)
    unfolding after_login on_ifconfig
    after_login-IsBrief l h =
        let (r, v, ran, x) =
          execute-Runs env.ifconfig f.out_blocks f.err_blocks env.fuel (codes "ifconfig") l.client
            l.process f.out_stops f.err_stops f.out_enough f.err_enough in
        let h' = subst (λ (s : Sockets). All (WaitsAtMost bound) s.waits) (sym x.kept.sockets) h in
        if-cases (IsBrief bound) (not l.accepted) _ _ (λ _. destroy-Brief l.client l.process h)
          (λ _.
            map_option-IsBrief (after _) _ (λ r. refl)
              (subst (λ o. IsBrief bound (on_ifconfig net options env t l.client o)) (sym ran)
                (if-cases (IsBrief bound) (is_usable r) _ _
                  (λ _.
                    conclude_run-IsBrief options t (codes "ifconfig") l.client.host_key_status
                      (parse_ifconfig_output net r.stdout_data) (leave l.client v)
                      (leave-Brief l.client v h'))
                  (λ _.
                    map_option-IsBrief (after _) _ (λ r. refl)
                      (on_fallback-IsBrief l.client r v h')))))

module _ (net : Inet) (k : IsInet net) (options : Options) (env : Environment)
    (enough : IsEnough options env) (password : Bytes) (iface : NetworkInterface) where
  on_device-IsBrief :
      (stage : Bytes) (refusal : List Bytes) (c : ExitCode × Option SshProbeResult) (w : Process)
      → Brief enough.bound w
      → IsBrief enough.bound (on_device net options env password iface stage refusal c w)
  unfolding config_of ssh_client
  on_device-IsBrief stage refusal (code, none) w h = h
  on_device-IsBrief stage refusal (code, some d) w h =
      let client = ssh_client (config_of options password d.ip) in
      let l = connect_and_authenticate net env.format_message env.ssh client w in
      map_option-IsBrief enough.bound (after _) _ (λ r. refl)
        (after_login-IsBrief enough.bound net options env _ enough.ifconfig_ends enough.ip_addr_ends
          l
          (waits_once options.auth_timeout enough.bound w.sockets l.process.sockets
            enough.timeouts.logins enough.timeouts.short h
            (connect_and_authenticate-WaitsOnce env.ssh net env.format_message client w
              enough.explained)))

  on_devices-IsBrief :
      (stage diagnostic : Bytes) (pool : ThreadPool Bytes) (devices : List SshProbeResult)
      (w : Process)
      → Brief enough.bound w
      → IsBrief enough.bound
          (on_devices net options env password iface stage diagnostic pool devices w)
  on_devices-IsBrief stage diagnostic pool devices w h =
      map_option-IsBrief enough.bound (with_pool pool) _ (λ r. refl)
        (on_device-IsBrief stage _ _ w h)

  on_stage_b-IsBrief :
      (w : Process) (o : Option (Stage × Sockets))
      → IsStageB net options iface env.second_peers enough.second_orderly enough.bound
          enough.timeouts options.threads w.sockets o
      → IsBrief enough.bound (on_stage_b net options env password iface w o)
  on_stage_b-IsBrief w o (os, others, (b, w', ran, fresh, same, ws, all)) =
      subst (λ o. IsBrief enough.bound (on_stage_b net options env password iface w o)) (sym ran)
        (map_option-IsBrief enough.bound (after b.messages) _ (λ r. refl)
          (on_devices-IsBrief (codes "layer2") b.diagnostic b.pool b.devices
            (record w { sockets = w' }) ws))

  pub on_stage_a-IsBrief :
      (w : Process) (hosts : List Bytes) (o : Option (Stage × Sockets))
      → IsStage net options iface env.first_peers enough.first_orderly enough.bound enough.timeouts
          options.threads hosts w.sockets o
      → IsBrief enough.bound (on_stage_a net options env password iface w o)
  on_stage_a-IsBrief w hosts o (a, w', ran, fresh, same, ws, all) =
      let v : Process = record w { sockets = w' } in
      subst (λ o. IsBrief enough.bound (on_stage_a net options env password iface w o)) (sym ran)
        (map_option-IsBrief enough.bound (after a.messages) _ (λ r. refl)
          (if-cases (IsBrief enough.bound) (is_empty a.devices) _ _
            (λ _. on_stage_b-IsBrief v _ (
              subst
                (λ p.
                  IsStageB net options iface env.second_peers enough.second_orderly enough.bound
                    enough.timeouts options.threads w'
                    (stage_b_layer2 net env.format_message options iface env.layer2 env.second_peers
                      p w'))
                (sym fresh)
                (stage_b_layer2-IsStageB net options iface env.second_peers enough.second_orderly
                  enough.bound enough.timeouts options.threads env.format_message env.layer2
                  enough.round w' ws k enough.in_time enough.late)))
            (λ _. on_devices-IsBrief (codes "subnet-scan") [] a.pool a.devices v ws)))

module _ (net : Inet) (k : IsInet net) (options : Options) (env : Environment)
    (enough : IsEnough options env) (start : Process) (waits : start.sockets.waits ≡ []) where
  idle : Brief enough.bound start
  idle = rw waits tt

  on_queried-IsBrief :
      (password : Bytes) (q : Queried)
      → IsBrief enough.bound (on_queried net options env password q start)
  unfolding select_interface
  on_queried-IsBrief password (thrown text) = idle
  on_queried-IsBrief password (listed found) = with_interface (hinted hint cs) refl
    where
      hint : Bytes
      hint = options.interface_hint

      cs : List NetworkInterface
      cs = discover_candidate_interfaces net found

      with_interface :
          (is : List NetworkInterface)
          → hinted hint cs ≡ is
          → IsBrief enough.bound (on_interface net options env password found (only is) start)
      with_interface [] e = idle
      with_interface (i ∷ j ∷ is) e = idle
      with_interface (i ∷ []) e =
          let (hosts, swept_hosts, stage_a) =
            stage_a_subnet_scan-IsStage net options i env.first_peers enough.first_orderly
              enough.bound enough.timeouts options.threads start.sockets idle
              (subst (All IsWord) e (hinted-IsWord net k hint found)).0 in
          map_option-IsBrief enough.bound (after _) _ (λ r. refl)
            (on_stage_a-IsBrief net k options env enough password i start hosts _ stage_a)

  on_password-IsBrief :
      (o : Option Bytes) → IsBrief enough.bound (on_password net options env o start)
  on_password-IsBrief none = idle
  on_password-IsBrief (some password) =
      on_queried-IsBrief password (query_adapter_addresses env.format_message env.query)

  pub run-IsBrief : IsBrief enough.bound (run net options env start)
  unfolding run
  run-IsBrief =
      if-cases (IsBrief enough.bound) (not (is_empty options.mock_ifconfig_file)) _ _ (λ _. idle)
        (λ _. on_password-IsBrief (select_password options env.getenv))
