-- ===== src/App/Run/Whole.antt =====
-- The program as a whole, from its arguments on.
use ip_finder.App.Arguments.{Options, Parsed, accepted, stopped, default_options, parse_options}
use ip_finder.App.Arguments.Valid.{IsValid, IsOutcome, IsStop, parse_options_lem}
use ip_finder.App.Run.{on_parsed, main}
use ip_finder.App.Run.Device.{IsEnough}
use ip_finder.App.Run.Ends.{run-Ends}
use ip_finder.App.Run.Origin.{IsGood}
use ip_finder.App.Run.Waits.{IsBrief}
use ip_finder.App.Session.{Environment, Ran, stops}
use ip_finder.App.Session.Clean.{IsClean, IsPrinted}
use ip_finder.Common.{
  ℕ, ◌<◌, ◌^◌, All, subst, arith, ◌≡◌, ◌⊎◌, inl, inr, refl, Bool, not, List, [], Option, some,
  if-cases,
}
use ip_finder.Common.Bytes.{Bytes}
use ip_finder.Inet.{Inet, IsInet}
use ip_finder.Platform.Waiting.{WaitsAtMost}
use ip_finder.Ssh.{Process}

-- The program stops at once, with the help or as misused, or it runs on valid options.
abbrev pub IsExit : Inet → List Bytes → Environment → Ran → Type 0
IsExit net arguments env r =
    IsStop r.code r.messages r.output
    ⊎ ((options : Options) × (parse_options arguments default_options ≡ accepted options)
        × IsValid options
        × IsPrinted options.json (IsGood net options env) r.code r.output)

-- No wait for a socket is without end: all are at most a bound that WSAPoll takes as it is.
abbrev pub WaitsEnd : Process → Type 0
WaitsEnd w = (bound : ℕ) × (bound < 2 ^ 31) × All (WaitsAtMost bound) w.sockets.waits

module _ (net : Inet) (k : IsInet net) (winsock_ready : Bool) (arguments : List Bytes)
    (env : Environment) (start : Process) where
  Exits : Option Ran → Type 0
  Exits o =
      (r : Ran) × (o ≡ some r)
      × IsClean start r.process
      × WaitsEnd r.process
      × IsExit net arguments env r

  on_parsed-Exits :
      (p : Parsed)
      → parse_options arguments default_options ≡ p
      → IsOutcome p
      → ((options : Options) → p ≡ accepted options → IsEnough options env)
      → start.calls ≡ []
      → start.sockets.waits ≡ []
      → Exits (on_parsed net env start p)
  unfolding Exits
  on_parsed-Exits (stopped code messages output) e outcome enough calls waits = (
    record (stops code messages start) { output = output },
    refl,
    (refl, refl, refl, refl),
    (0, omega arith, rw waits tt),
    inl outcome,
  )
  on_parsed-Exits (accepted options) e outcome enough calls waits =
      let met = enough options refl in
      let ((r, ran, clean, printed), brief) = run-Ends net k options env met start calls waits in
      (
        r,
        ran,
        clean,
        (met.bound, met.timeouts.short, subst (IsBrief met.bound) ran brief),
        inr (options, e, outcome, printed),
      )

  -- Provided that the address conversion has the documented properties, that the arguments, where
  -- they are accepted, and the answers meet the conditions of a run (timeouts below 2^31 ms, peers
  -- and a clock that keep to the documented behaviour, reads that stop within the fuel), and that the
  -- process has made no call yet: the program ends. It leaves the sockets, sessions, channels and
  -- tables of the process as they were, and no wait for a socket is without end. It stops with the help and the code of a success, or with one
  -- error message and the code of a misuse, or it has the options of its arguments, which are valid,
  -- and prints nothing or a report as run does.
  pub main-Exits :
      ((options : Options)
        → parse_options arguments default_options ≡ accepted options
        → IsEnough options env)
      → start.calls ≡ []
      → start.sockets.waits ≡ []
      → (r : Ran) × (main net winsock_ready arguments env start ≡ some r)
        × IsClean start r.process
        × WaitsEnd r.process
        × IsExit net arguments env r
  unfolding main Exits
  main-Exits enough calls waits =
      if-cases Exits (not winsock_ready) _ _
        (λ e. (
          _,
          refl,
          (refl, refl, refl, refl),
          (0, omega arith, rw waits tt),
          inl (inr (refl, (_, refl), inl refl)),
        ))
        (λ e.
          on_parsed-Exits (parse_options arguments default_options) refl
            (parse_options_lem arguments) enough calls waits)
