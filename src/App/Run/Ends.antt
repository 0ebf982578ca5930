-- ===== src/App/Run/Ends.antt =====
-- How a run ends, what it leaves, and when it prints a report.
use ip_finder.App.{
  ExitCode, parse_either, mock_report, run_mock_mode, hinted, only, select_interface,
}
use ip_finder.App.Arguments.{Options}
use ip_finder.App.Messages.{mock_messages}
use ip_finder.App.Run.{on_queried, on_interface, on_password, mock_run, select_password, run}
use ip_finder.App.Run.Device.{IsEnough, on_stage_a-Ends}
use ip_finder.App.Run.Origin.{IsWord, hinted-IsWord, IsGood}
use ip_finder.App.Run.Waits.{IsBrief, run-IsBrief}
use ip_finder.App.Session.{Ran, Environment, after}
use ip_finder.App.Session.Clean.{IsPrinted, Ends, map_option-Ends}
use ip_finder.App.Stages.Ends.{stage_a_subnet_scan-IsStage}
use ip_finder.Common.{
  true, ◌≡◌, inl, inr, refl, ap, subst, false, not, List, [], ◌∷◌, All, if-cases, is_empty, Option,
  none, some, arith,
}
use ip_finder.Common.Bytes.{Bytes}
use ip_finder.Inet.{Inet, IsInet}
use ip_finder.Network.Interface.Query.{Queried, listed, thrown, query_adapter_addresses}
use ip_finder.Network.Interface.{NetworkInterface, discover_candidate_interfaces}
use ip_finder.Ssh.{Process}

module _ (net : Inet) (k : IsInet net) (options : Options) (env : Environment)
    (enough : IsEnough options env) (start : Process) (calls : start.calls ≡ [])
    (waits : start.sockets.waits ≡ []) where
  abbrev Fine : Option Ran → Type 0
  Fine = Ends options.json (IsGood net options env) start

  on_queried-Ends :
      (password : Bytes) (q : Queried)
      → is_empty options.mock_ifconfig_file ≡ true
      → query_adapter_addresses env.format_message env.query ≡ q
      → Fine (on_queried net options env password q start)
  unfolding select_interface
  on_queried-Ends password (thrown text) online queried =
      (_, refl, (refl, refl, refl, refl), inl (refl, (λ q. cc), λ q. cc))
  on_queried-Ends password (listed found) online queried = with_interface (hinted hint cs) refl
    where
      hint : Bytes
      hint = options.interface_hint

      cs : List NetworkInterface
      cs = discover_candidate_interfaces net found

      with_interface :
          (is : List NetworkInterface)
          → hinted hint cs ≡ is
          → Fine (on_interface net options env password found (only is) start)
      with_interface [] e = (_, refl, (refl, refl, refl, refl), inl (refl, (λ q. cc), λ q. cc))
      with_interface (i ∷ j ∷ is) e =
          (_, refl, (refl, refl, refl, refl), inl (refl, (λ q. cc), λ q. cc))
      with_interface (i ∷ []) e =
          let (hosts, swept_hosts, stage_a) =
            stage_a_subnet_scan-IsStage net options i env.first_peers enough.first_orderly
              enough.bound enough.timeouts options.threads start.sockets (rw waits tt)
              (subst (All IsWord) e (hinted-IsWord net k hint found)).0 in
          map_option-Ends options.json (IsGood net options env) start (after _) _
            (λ r. (refl, refl, refl))
            (on_stage_a-Ends net options env enough password i start found queried (ap only e)
              online k start hosts _ swept_hosts stage_a calls (refl, refl, refl, refl))

  on_password-Ends :
      (o : Option Bytes)
      → is_empty options.mock_ifconfig_file ≡ true
      → Fine (on_password net options env o start)
  on_password-Ends none online = (_, refl, (refl, refl, refl, refl), inl (refl, (λ q. cc), λ q. cc))
  on_password-Ends (some password) online =
      on_queried-Ends password (query_adapter_addresses env.format_message env.query) online refl

  mock_run-Ends :
      is_empty options.mock_ifconfig_file ≡ false → Fine (some (mock_run net options env start))
  unfolding run_mock_mode
  mock_run-Ends offline = with_file env.mock_file refl
    where
      with_file :
          (o : Option Bytes)
          → env.mock_file ≡ o
          → Fine (
              some (record {
                code = (run_mock_mode net options.json o).0;
                output = (run_mock_mode net options.json o).1;
                messages = mock_messages net options.mock_ifconfig_file env.mock_file;
                pool = none;
                process = start;
              }))
      with_file none read = (_, refl, (refl, refl, refl, refl), inl (refl, (λ q. cc), λ q. cc))
      with_file (some contents) read =
          let interfaces = parse_either net contents in
          (
            _,
            refl,
            (refl, refl, refl, refl),
            if-cases
                (λ (c : ExitCode × Bytes). IsPrinted options.json (IsGood net options env) c.0 c.1)
                (is_empty interfaces) _ _ (λ e. inl (refl, (λ q. cc), λ q. cc))
                (λ e. inr (
                  mock_report interfaces,
                  refl,
                  inl (offline, (contents, read, refl)),
                  e,
                  refl,
                  refl,
                )),
          )

  ended : Fine (run net options env start)
  unfolding run
  ended =
      if-cases Fine (not (is_empty options.mock_ifconfig_file)) _ _
        (λ e. mock_run-Ends (ground arith))
        (λ e. on_password-Ends (select_password options env.getenv) (ground arith))

  pub run-Ends :
      Ends options.json (IsGood net options env) start (run net options env start)
      × IsBrief enough.bound (run net options env start)
  run-Ends = (ended, run-IsBrief net k options env enough start waits)
