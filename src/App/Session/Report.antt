-- ===== src/App/Session/Report.antt =====
-- From the login to the report.
use ip_finder.App.Session.Clean.{
  Ends, map_option-Ends, destroy-IsClean, leave-IsClean, conclude_run-Ends,
}
use ip_finder.App.{success, unexpected_interface_count, ssh_auth_failed, ssh_connection_failed}
use ip_finder.App.Arguments.{Options}
use ip_finder.App.Session.{
  Environment, after, leave, Target, report_of, is_usable, after_fallback, on_fallback, on_ifconfig,
  key_messages, after_login,
}
use ip_finder.App.Stages.{log}
use ip_finder.Common.{
  arith, ℕ, ◌<◌, ◌≡◌, ◌≢◌, ◌⊎◌, inl, inr, refl, sym, ◌∙◌, ap, subst, Bool, true, false, not, List,
  if◌then◌else◌, if-cases, some,
}
use ip_finder.Common.Bytes.{Bytes, codes, contains}
use ip_finder.Inet.{Inet}
use ip_finder.Output.{DiscoveryReport}
use ip_finder.Parser.{RemoteInterface, parse_ifconfig_output, parse_ip_addr_output}
use ip_finder.Platform.{Sockets}
use ip_finder.Ssh.{CommandResult, Process, SshClient}
use ip_finder.Ssh.Streams.{up_to, StopsAfter}
use ip_finder.Ssh.Command.{IsKept, execute-Runs}
use ip_finder.Ssh.Connect.{Login}
use ip_finder.Ssh.Execute.{ExecAnswers, execute}
use ip_finder.Ssh.Ownership.{Owns}

-- The reads of a command stop, and the fuel is enough for both streams.
pub record Finishes (a : ExecAnswers) (fuel : ℕ) : Type 0 where
  pub out_blocks : ℕ
  pub err_blocks : ℕ
  pub out_stops : StopsAfter a.stdout_reads out_blocks 0
  pub err_stops : StopsAfter a.stderr_reads err_blocks 0
  pub out_enough : out_blocks < fuel
  pub err_enough : err_blocks < fuel

kept-Owns :
    (start : Process) (c : SshClient) (w w' : Process)
    → Owns start c w
    → IsKept w w'
    → Owns start c w'
kept-Owns start c w w' (handles, live, channels, tables) kept = (
  ap (λ (s : Sockets). s.open_handles) kept.sockets ∙ handles,
  kept.sessions ∙ live,
  kept.channels ∙ channels,
  kept.known_hosts ∙ tables,
)

-- The interfaces are those that one of the two commands lists, with all that it has printed.
abbrev pub IsListing : Inet → Environment → List RemoteInterface → Type 0
IsListing net env interfaces =
    ((n : ℕ) × StopsAfter env.ifconfig.stdout_reads n 0
      × (interfaces ≡ parse_ifconfig_output net (up_to env.ifconfig.stdout_reads n 0)))
    ⊎ ((n : ℕ) × StopsAfter env.ip_addr.stdout_reads n 0
        × (interfaces ≡ parse_ip_addr_output net (up_to env.ip_addr.stdout_reads n 0)))

usable-ok : (r : CommandResult) → is_usable r ≡ true → r.ok ≡ true
usable-ok r e = ground arith

module _ (net : Inet) (options : Options) (env : Environment) (t : Target)
    (Good : DiscoveryReport → Type 0) (start : Process) where
  -- Any report about the target with listed interfaces is good.
  abbrev pub Allows : Bytes → Type 0
  Allows status =
      (interfaces : List RemoteInterface)
      → IsListing net env interfaces
      → Good (report_of t status interfaces)

  after_fallback-Ends :
      (c : SshClient) (command fallback : CommandResult) (w : Process)
      → (is_usable fallback ≡ true
          → IsListing net env (parse_ip_addr_output net fallback.stdout_data))
      → Allows c.host_key_status
      → Owns start c w
      → Ends options.json Good start (some (after_fallback net options t c command fallback w))
  unfolding after_fallback
  after_fallback-Ends c command fallback w listing good owns =
      if-cases (λ r. Ends options.json Good start (some r)) (not (is_usable fallback)) _ _
        (λ e. (_, refl, leave-IsClean start c w owns, inl (refl, (λ q. cc), λ q. cc)))
        (λ e.
          conclude_run-Ends Good start options t (codes "ip -4 addr") c.host_key_status
            (parse_ip_addr_output net fallback.stdout_data) (leave c w)
            (good (parse_ip_addr_output net fallback.stdout_data) (listing (ground arith)))
            (leave-IsClean start c w owns))

  on_ifconfig-Ends :
      (c : SshClient) (command : CommandResult) (w : Process)
      → Finishes env.ip_addr env.fuel
      → (is_usable command ≡ true
          → IsListing net env (parse_ifconfig_output net command.stdout_data))
      → Allows c.host_key_status
      → Owns start c w
      → Ends options.json Good start (on_ifconfig net options env t c (some (command, w)))
  unfolding on_ifconfig
  on_ifconfig-Ends c command w f listing good owns =
      if-cases (Ends options.json Good start) (is_usable command) _ _
        (λ e.
          conclude_run-Ends Good start options t (codes "ifconfig") c.host_key_status
            (parse_ifconfig_output net command.stdout_data) (leave c w)
            (good (parse_ifconfig_output net command.stdout_data) (listing e))
            (leave-IsClean start c w owns))
        (λ e.
          map_option-Ends options.json Good start
            (after (
              log options.verbose
                (codes "ifconfig unavailable or failed, falling back to 'ip -4 addr'")))
            (on_fallback net options t c command
              (execute env.ip_addr env.fuel (codes "ip -4 addr") c w))
            (λ r. (refl, refl, refl)) fallback)
    where
      fallback : Ends options.json Good start (
          on_fallback net options t c command
            (execute env.ip_addr env.fuel (codes "ip -4 addr") c w))
      fallback =
          let (r, w', ran, x) =
            execute-Runs env.ip_addr f.out_blocks f.err_blocks env.fuel (codes "ip -4 addr") c w
              f.out_stops f.err_stops f.out_enough f.err_enough in
          subst (λ o. Ends options.json Good start (on_fallback net options t c command o))
            (sym ran)
            (after_fallback-Ends c command r w'
              (λ u. inr (
                f.out_blocks,
                f.out_stops,
                ap (parse_ip_addr_output net) (x.output (usable-ok r u)).0,
              ))
              good (kept-Owns start c w w' owns x.kept))

  -- A login that holds no more than its socket and its session.
  pub after_login-Ends :
      (l : Login)
      → Finishes env.ifconfig env.fuel
      → Finishes env.ip_addr env.fuel
      → (l.accepted ≡ true → Allows l.client.host_key_status)
      → Owns start l.client l.process
      → Ends options.json Good start (after_login net options env t l)
  unfolding after_login
  after_login-Ends l f g good owns =
      if-cases (Ends options.json Good start) (not l.accepted) _ _
        (λ e. (
          _,
          refl,
          destroy-IsClean start l.client l.process owns,
          inl (
              let fails = failure (contains (codes "authentication") l.client.last_error) in
              (refl, fails.0, fails.1)),
        ))
        (λ e.
          map_option-Ends options.json Good start
            (after (key_messages options l.client.host_key_status))
            (on_ifconfig net options env t l.client
              (execute env.ifconfig env.fuel (codes "ifconfig") l.client l.process))
            (λ r. (refl, refl, refl)) (commands (ground arith)))
    where
      failure :
          (b : Bool)
          → ((if b then ssh_auth_failed else ssh_connection_failed) ≢ success)
            × ((if b then ssh_auth_failed else ssh_connection_failed) ≢ unexpected_interface_count)
      failure true = ((λ q. cc), λ q. cc)
      failure false = ((λ q. cc), λ q. cc)

      commands :
          l.accepted ≡ true
          → Ends options.json Good start (
              on_ifconfig net options env t l.client
                (execute env.ifconfig env.fuel (codes "ifconfig") l.client l.process))
      commands e =
          let (r, w', ran, x) =
            execute-Runs env.ifconfig f.out_blocks f.err_blocks env.fuel (codes "ifconfig") l.client
              l.process f.out_stops f.err_stops f.out_enough f.err_enough in
          subst (λ o. Ends options.json Good start (on_ifconfig net options env t l.client o))
            (sym ran)
            (on_ifconfig-Ends l.client r w' g
              (λ u. inl (
                f.out_blocks,
                f.out_stops,
                ap (parse_ifconfig_output net) (x.output (usable-ok r u)).0,
              ))
              (good e) (kept-Owns start l.client l.process w' owns x.kept))
