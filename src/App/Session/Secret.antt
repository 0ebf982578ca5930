-- ===== src/App/Session/Secret.antt =====
-- What a session tells of the password.
use ip_finder.App.Arguments.{Options}
use ip_finder.App.Session.{
  Environment, Ran, stops, after, destroy, leave, Target, conclude_run, is_usable, after_fallback,
  on_fallback, on_ifconfig, login_code, after_login,
}
use ip_finder.Common.{
  ◌≡◌, refl, ◌∙◌, ap, not, List, [], ◌∷◌, ◌++◌, is_empty, Option, none, some, if-of, map_option,
}
use ip_finder.Common.Bytes.{Bytes, codes}
use ip_finder.Inet.{Inet}
use ip_finder.Parser.{RemoteInterface, parse_ifconfig_output, parse_ip_addr_output}
use ip_finder.Ssh.{CommandResult, Process, SshClient, disconnect}
use ip_finder.Ssh.Connect.{Login}
use ip_finder.Ssh.Execute.{execute}
use ip_finder.Ssh.Secret.{
  with_password, redact_process, redact, redact_result, disconnect-redact, execute-redact,
}

-- Without the password of the command line, and without the variables.
abbrev pub hide : Options → Options
hide options = record options { ssh_password = [] }

abbrev pub hide_env : Environment → Environment
hide_env env = record env { getenv = λ name. none }

-- A run, without the passwords of the calls.
abbrev pub redact_ran : Ran → Ran
redact_ran r = record r { process = redact_process r.process }

-- What is done to the messages and the pool of a run does not touch its calls.
pub map_option-redact_ran :
    (f : Ran → Ran) (o o' : Option Ran)
    → ((r : Ran) → f (redact_ran r) ≡ redact_ran (f r))
    → o' ≡ map_option redact_ran o
    → map_option f o' ≡ map_option redact_ran (map_option f o)
map_option-redact_ran f none o' same e = ap (map_option f) e
map_option-redact_ran f (some r) o' same e = ap (map_option f) e ∙ ap some (same r)

destroy-redact :
    (c : SshClient) (w : Process)
    → destroy (with_password [] c) (redact_process w) ≡ redact_process (destroy c w)
destroy-redact c w = ap (λ (r : SshClient × Process). r.1) (disconnect-redact c w)

leave-redact :
    (c : SshClient) (w : Process)
    → leave (with_password [] c) (redact_process w) ≡ redact_process (leave c w)
leave-redact c w =
    let (c', w') = disconnect c w in
    ap (λ (r : SshClient × Process). destroy r.0 r.1) (disconnect-redact c w) ∙ destroy-redact c' w'

conclude_run-redact :
    (options : Options) (t : Target) (source status : Bytes) (interfaces : List RemoteInterface)
    (w : Process)
    → conclude_run (hide options) t source status interfaces (redact_process w)
      ≡ redact_ran (conclude_run options t source status interfaces w)
unfolding conclude_run
conclude_run-redact options t source status interfaces w =
    if-of redact_ran (is_empty interfaces) _ _ _ _ refl refl

module _ (net : Inet) (options : Options) (env : Environment) (t : Target) where
  -- The report of a command, and the disconnect before it.
  concluded-redact :
      (source : Bytes) (interfaces : List RemoteInterface) (c : SshClient) (w : Process)
      → conclude_run
          (hide options)
          t
          source
          c.host_key_status
          interfaces
          (leave (with_password [] c) (redact_process w))
        ≡ redact_ran (conclude_run options t source c.host_key_status interfaces (leave c w))
  concluded-redact source interfaces c w =
      ap (conclude_run (hide options) t source c.host_key_status interfaces) (leave-redact c w)
      ∙ conclude_run-redact options t source c.host_key_status interfaces (leave c w)

  after_fallback-redact :
      (c : SshClient) (command fallback : CommandResult) (w : Process)
      → after_fallback net (hide options) t (with_password [] c) command fallback (redact_process w)
        ≡ redact_ran (after_fallback net options t c command fallback w)
  unfolding after_fallback
  after_fallback-redact c command fallback w =
      let interfaces = parse_ip_addr_output net fallback.stdout_data in
      if-of redact_ran (not (is_usable fallback)) (stops _ _ (leave c w))
        (conclude_run options t (codes "ip -4 addr") c.host_key_status interfaces (leave c w)) _ _
        (ap (stops _ _) (leave-redact c w)) (concluded-redact (codes "ip -4 addr") interfaces c w)

  on_fallback-redact :
      (c : SshClient) (command : CommandResult) (o : Option (CommandResult × Process))
      → on_fallback net (hide options) t (with_password [] c) command (map_option redact_result o)
        ≡ map_option redact_ran (on_fallback net options t c command o)
  on_fallback-redact c command none = refl
  on_fallback-redact c command (some (fallback, w)) =
      ap some (after_fallback-redact c command fallback w)

  on_ifconfig-redact :
      (c : SshClient) (o : Option (CommandResult × Process))
      → on_ifconfig net
          (hide options)
          (hide_env env)
          t
          (with_password [] c)
          (map_option redact_result o)
        ≡ map_option redact_ran (on_ifconfig net options env t c o)
  unfolding on_ifconfig
  on_ifconfig-redact c none = refl
  on_ifconfig-redact c (some (command, w)) =
      if-of (map_option redact_ran) (is_usable command) _ _ _ _
        (ap some
          (concluded-redact (codes "ifconfig") (parse_ifconfig_output net command.stdout_data) c w))
        (map_option-redact_ran (after _)
          (on_fallback net options t c command
            (execute env.ip_addr env.fuel (codes "ip -4 addr") c w))
          _ (λ r. refl)
          (ap (on_fallback net (hide options) t (with_password [] c) command)
              (execute-redact env.ip_addr env.fuel (codes "ip -4 addr") c w)
            ∙ on_fallback-redact c command _))

  pub after_login-redact :
      (l : Login)
      → after_login net (hide options) (hide_env env) t (redact l)
        ≡ map_option redact_ran (after_login net options env t l)
  unfolding after_login
  after_login-redact l =
      let code = login_code l.client.last_error in
      let message = codes "Error: " ++ l.client.last_error ++ codes "\n" in
      if-of (map_option redact_ran) (not l.accepted) _ _ _ _
        (ap (λ w. some (stops code (message ∷ []) w)) (destroy-redact l.client l.process))
        (map_option-redact_ran (after _)
          (on_ifconfig net options env t l.client
            (execute env.ifconfig env.fuel (codes "ifconfig") l.client l.process))
          _ (λ r. refl)
          (ap (on_ifconfig net (hide options) (hide_env env) t (with_password [] l.client))
              (execute-redact env.ifconfig env.fuel (codes "ifconfig") l.client l.process)
            ∙ on_ifconfig-redact l.client _))
