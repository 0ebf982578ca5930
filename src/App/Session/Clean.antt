-- ===== src/App/Session/Clean.antt =====
-- What a session gives back when it ends, and what a run prints.
use ip_finder.App.{ExitCode, success, unexpected_interface_count, count_code, count_warnings, emit}
use ip_finder.App.Arguments.{Options}
use ip_finder.App.Session.{Ran, destroy, leave, Target, report_of, conclude_run}
use ip_finder.Common.{
  map_option, ◌≡◌, ◌≢◌, ◌⊎◌, inl, inr, refl, sym, ◌∙◌, ap, subst, Bool, false, List, [], if-cases,
  is_empty, Option, some,
}
use ip_finder.Common.Bytes.{Bytes}
use ip_finder.Output.{DiscoveryReport}
use ip_finder.Parser.{RemoteInterface}
use ip_finder.Ssh.{Process, SshClient, disconnect}
use ip_finder.Ssh.Ownership.{Owns, IsDisconnected, held, disconnect-Owns}

-- The sockets, sessions, channels and tables are those of the start.
abbrev pub IsClean : Process → Process → Type 0
IsClean start w =
    (w.sockets.open_handles ≡ start.sockets.open_handles)
    × (w.sessions ≡ start.sessions)
    × (w.channels ≡ start.channels)
    × (w.known_hosts ≡ start.known_hosts)

-- Nothing is printed, with a code of its own; or a report of some interface that meets `Good`, with
-- the code and the warnings for the number of its interfaces.
abbrev pub IsPrinted : Bool → (DiscoveryReport → Type 0) → ExitCode → Bytes → Type 0
IsPrinted json Good code output =
    ((output ≡ []) × (code ≢ success) × (code ≢ unexpected_interface_count))
    ⊎ ((report : DiscoveryReport) × (output ≡ emit json report)
        × Good report
        × (is_empty report.interfaces ≡ false)
        × (code ≡ count_code report.interfaces)
        × (report.warnings ≡ count_warnings report.interfaces))

-- How a run ends.
abbrev pub Ends : Bool → (DiscoveryReport → Type 0) → Process → Option Ran → Type 0
Ends json Good start o =
    (r : Ran) × (o ≡ some r) × IsClean start r.process × IsPrinted json Good r.code r.output

-- What is done to the messages and the pool of a run does not matter.
pub map_option-Ends :
    (json : Bool) (Good : DiscoveryReport → Type 0) (start : Process) (f : Ran → Ran)
    (o : Option Ran)
    → ((r : Ran) → ((f r).process ≡ r.process) × ((f r).code ≡ r.code) × ((f r).output ≡ r.output))
    → Ends json Good start o
    → Ends json Good start (map_option f o)
map_option-Ends json Good start f o same (r, ran, clean, printed) =
    let (p, c, out) = same r in
    (
      f r,
      ap (map_option f) ran,
      subst (IsClean start) (sym p) clean,
      subst (λ k. IsPrinted json Good k (f r).output) (sym c)
          (subst (IsPrinted json Good r.code) (sym out) printed),
    )

disconnected-IsClean :
    (start : Process) (c : SshClient) (w : Process)
    → Owns start c w
    → IsDisconnected c
    → IsClean start w
disconnected-IsClean start c w (handles, live, channels, tables) gone = (
  handles ∙ ap (λ o. held o start.sockets.open_handles) gone.no_socket,
  live ∙ ap (λ o. held o start.sessions) gone.no_session,
  channels,
  tables,
)

module _ (start : Process) (c : SshClient) (w : Process) (owns : Owns start c w) where
  pub destroy-IsClean : IsClean start (destroy c w)
  destroy-IsClean =
      let (owns', gone) = disconnect-Owns start c w owns in
      disconnected-IsClean start (disconnect c w).0 (disconnect c w).1 owns' gone

  pub leave-IsClean : IsClean start (leave c w)
  leave-IsClean =
      let (c', w') = disconnect c w in
      let (owns', gone) = disconnect-Owns start c w owns in
      let (owns'', gone') = disconnect-Owns start c' w' owns' in
      disconnected-IsClean start (disconnect c' w').0 (disconnect c' w').1 owns'' gone'

pub conclude_run-Ends :
    (Good : DiscoveryReport → Type 0) (start : Process) (options : Options) (t : Target)
    (source status : Bytes) (interfaces : List RemoteInterface) (w : Process)
    → Good (report_of t status interfaces)
    → IsClean start w
    → Ends options.json Good start (some (conclude_run options t source status interfaces w))
unfolding conclude_run
conclude_run-Ends Good start options t source status interfaces w good clean =
    if-cases (λ r. Ends options.json Good start (some r)) (is_empty interfaces) _ _
      (λ e. (_, refl, clean, inl (refl, (λ q. cc), λ q. cc)))
      (λ e. (_, refl, clean, inr (report_of t status interfaces, refl, good, e, refl, refl)))
