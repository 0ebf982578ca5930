-- ===== src/Ssh/Secret.antt =====
-- What a login tells of the password.
use ip_finder.Common.{
  if-of, map_option, ℕ, ◌≡◌, refl, sym, ◌∙◌, ap, false, not, [], ◌∷◌, map, if◌then◌else◌, is_empty,
  Option, none, some,
}
use ip_finder.Common.Bytes.{Bytes}
use ip_finder.Common.Int.{to_int32}
use ip_finder.Inet.{Inet}
use ip_finder.Platform.{initialise_once, is_ready}
use ip_finder.Scanner.Connect.{tcp_connect}
use ip_finder.Ssh.{
  CommandResult, SshConfig, Call, session_timeout, session_handshake, known_host_check,
  userauth_password, channel_exec, session_disconnect, Process, SshClient, called, end_session,
  disconnect,
}
use ip_finder.Ssh.Connect.{
  HostKey, SshAnswers, Login, fail, look_up, check_key, known_hosts_path, host_key_check,
  authenticate, verify, with_session, start_session, with_socket, is_connected,
  connect_and_authenticate, refusal_text,
}
use ip_finder.Ssh.Execute.{
  ExecAnswers, read_output, freed, with_channel, on_channel, on_session, execute,
}
use ip_finder.Ssh.Ownership.{close_in}
use ip_finder.Ssh.Trust.{refuses}

-- Without the passwords.
abbrev pub redact_call : Call → Call
redact_call (session_timeout s t) = session_timeout s t
redact_call (session_handshake s h) = session_handshake s h
redact_call (known_host_check s path host port mask) = known_host_check s path host port mask
redact_call (userauth_password s username password) = userauth_password s username []
redact_call (channel_exec s command) = channel_exec s command
redact_call (session_disconnect s) = session_disconnect s

abbrev pub with_password : Bytes → SshClient → SshClient
with_password password c = record c { config = record c.config { password = password } }

abbrev pub redact_process : Process → Process
redact_process w = record w { calls = map redact_call w.calls }

abbrev pub redact : Login → Login
redact l = record {
  accepted = l.accepted;
  client = with_password [] l.client;
  process = redact_process l.process;
}

abbrev redact_pair : SshClient × Process → SshClient × Process
redact_pair r = (with_password [] r.0, redact_process r.1)

end_session-redact :
    (o : Option ℕ) (c : SshClient) (w : Process)
    → end_session o (with_password [] c) (redact_process w) ≡ redact_pair (end_session o c w)
unfolding end_session
end_session-redact none c w = refl
end_session-redact (some s) c w = refl

pub disconnect-redact :
    (c : SshClient) (w : Process)
    → disconnect (with_password [] c) (redact_process w) ≡ redact_pair (disconnect c w)
unfolding disconnect
disconnect-redact c w = ap close_in (end_session-redact c.session c w)

fail-redact :
    (text : Bytes) (c : SshClient) (w : Process)
    → fail text (with_password [] c) (redact_process w) ≡ redact (fail text c w)
fail-redact text c w =
    ap (λ (r : SshClient × Process). record { accepted = false; client = r.0; process = r.1 })
      (disconnect-redact (record c { last_error = text }) w)

module _ (a : SshAnswers) (session : ℕ) where
  look_up-redact :
      (config : SshConfig) (w : Process) (host_key : HostKey) (o : Option ℕ)
      → let r = look_up a session config w host_key o in
        look_up a session (record config { password = [] }) (redact_process w) host_key o
        ≡ (r.0, redact_process r.1)
  look_up-redact config w host_key none = refl
  look_up-redact config w host_key (some table) = refl

  check_key-redact :
      (config : SshConfig) (w : Process) (o : Option HostKey)
      → let r = check_key a session config w o in
        check_key a session (record config { password = [] }) (redact_process w) o
        ≡ (r.0, redact_process r.1)
  check_key-redact config w none = refl
  check_key-redact config w (some k) =
      if-of (λ (r : Bytes × Process). (r.0, redact_process r.1))
        (is_empty (known_hosts_path a config)) _ _ _ _ refl
        (look_up-redact config w k a.new_known_hosts)

  authenticate-redact :
      (c : SshClient) (w : Process)
      → authenticate a session (with_password [] c) (redact_process w)
        ≡ redact (authenticate a session c w)
  unfolding authenticate
  authenticate-redact c w = if-of redact a.authenticated _ _ _ _ refl (fail-redact _ c _)

  -- What follows the check of the host key.
  abbrev pass : SshClient → Bytes × Process → Login
  pass client r =
      let c = record client { host_key_status = r.0 } in
      if refuses client.config r.0
      then fail (refusal_text r.0) c r.1
      else authenticate a session c r.1

  verify-redact :
      (c : SshClient) (w : Process)
      → verify a session (with_password [] c) (redact_process w) ≡ redact (verify a session c w)
  unfolding verify host_key_check
  verify-redact c w =
      let (status, w') = check_key a session c.config w a.host_key in
      let c' = record c { host_key_status = status } in
      ap (pass (with_password [] c)) (check_key-redact c.config w a.host_key)
      ∙ if-of redact (refuses c.config status) _ _ _ _ (fail-redact _ c' w')
          (authenticate-redact c' w')

  with_session-redact :
      (c : SshClient) (w : Process)
      → with_session a session (with_password [] c) (redact_process w)
        ≡ redact (with_session a session c w)
  unfolding with_session
  with_session-redact c w =
      let c' = record c { session = some session } in
      let w' = called (session_handshake session c.socket_handle) (
        called (session_timeout session (to_int32 c.config.auth_timeout))
          (record w { sessions = session ∷ w.sessions })) in
      if-of redact (not a.handshake) _ _ _ _ (fail-redact _ c' w') (verify-redact c' w')

start_session-redact :
    (a : SshAnswers) (o : Option ℕ) (c : SshClient) (w : Process)
    → start_session a o (with_password [] c) (redact_process w) ≡ redact (start_session a o c w)
start_session-redact a none c w = fail-redact _ c w
start_session-redact a (some session) c w = with_session-redact a session c w

module _ (net : Inet) (messages : ℕ → Option Bytes) (a : SshAnswers) where
  with_socket-redact :
      (c : SshClient) (w : Process)
      → with_socket messages a (with_password [] c) (redact_process w)
        ≡ redact (with_socket messages a c w)
  unfolding with_socket
  with_socket-redact c w =
      if-of redact (not a.blocking) _ _ _ _ (fail-redact _ c w)
        (start_session-redact a a.new_session c w)

  pub connect-redact :
      (c : SshClient) (w : Process)
      → connect_and_authenticate net messages a (with_password [] c) (redact_process w)
        ≡ redact (connect_and_authenticate net messages a c w)
  unfolding connect_and_authenticate
  connect-redact c w =
      let t = tcp_connect net a.tcp c.config.host c.config.connect_timeout w.sockets in
      let ready = initialise_once a.libssh2_init w.libssh2 in
      if-of redact (not (is_ready ready)) _ _ _ _ refl (
        if-of redact (not (is_connected t.result)) _ _ _ _ refl (
          with_socket-redact (record c { socket_handle = t.out_socket })
            (record w { libssh2 = ready; sockets = t.sockets })))

  -- With the same answers, two passwords lead to the same result, error text, host key status,
  -- resources, and calls but for the password in the authentication itself.
  pub connect_and_authenticate-with_password :
      (p q : Bytes) (c : SshClient) (w : Process)
      → redact (connect_and_authenticate net messages a (with_password p c) w)
        ≡ redact (connect_and_authenticate net messages a (with_password q c) w)
  connect_and_authenticate-with_password p q c w =
      sym (connect-redact (with_password p c) w) ∙ connect-redact (with_password q c) w

-- The result of a command, without the passwords of the calls.
abbrev pub redact_result : CommandResult × Process → CommandResult × Process
redact_result r = (r.0, redact_process r.1)

freed-redact :
    (channel : ℕ) (w : Process) (o : Option CommandResult)
    → freed channel (redact_process w) o ≡ map_option redact_result (freed channel w o)
freed-redact channel w none = refl
freed-redact channel w (some r) = refl

module _ (a : ExecAnswers) (fuel : ℕ) (command : Bytes) where
  with_channel-redact :
      (session channel : ℕ) (w : Process)
      → with_channel a fuel session channel command (redact_process w)
        ≡ map_option redact_result (with_channel a fuel session channel command w)
  unfolding with_channel
  with_channel-redact session channel w =
      let begun =
        called (channel_exec session command) (record w { channels = channel ∷ w.channels }) in
      if-of (map_option redact_result) (not a.started) _ _ _ _ refl
        (freed-redact channel begun (read_output a fuel))

  on_channel-redact :
      (session : ℕ) (o : Option ℕ) (w : Process)
      → on_channel a fuel session o command (redact_process w)
        ≡ map_option redact_result (on_channel a fuel session o command w)
  on_channel-redact session none w = refl
  on_channel-redact session (some channel) w = with_channel-redact session channel w

  on_session-redact :
      (o : Option ℕ) (c : SshClient) (w : Process)
      → on_session a fuel o command (with_password [] c) (redact_process w)
        ≡ map_option redact_result (on_session a fuel o command c w)
  on_session-redact none c w = refl
  on_session-redact (some session) c w = on_channel-redact session a.new_channel _

  pub execute-redact :
      (c : SshClient) (w : Process)
      → execute a fuel command (with_password [] c) (redact_process w)
        ≡ map_option redact_result (execute a fuel command c w)
  unfolding execute
  execute-redact c w = on_session-redact c.session c w
