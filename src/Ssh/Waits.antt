-- ===== src/Ssh/Waits.antt =====
-- The waits of a login: only those of the connection attempt.
use ip_finder.Common.{
  ℕ, ◌≡◌, ◌≢◌, false, inl, inr, refl, ◌∙◌, ap, not, ◌&&◌, if-cases, is_empty, Option, none, some,
}
use ip_finder.Common.Bytes.{Bytes, codes, equal}
use ip_finder.Inet.{Inet}
use ip_finder.Platform.Waiting.{close-waits}
use ip_finder.Platform.{initialise_once, is_ready}
use ip_finder.Scanner.Connect.Outcome.{WaitsOnce, tcp_connect-connected}
use ip_finder.Scanner.Connect.{Attempt, tcp_connect}
use ip_finder.Ssh.{SshConfig, Process, SshClient, end_session, disconnect}
use ip_finder.Ssh.Connect.{
  SshAnswers, HostKey, Login, known_hosts_path, look_up, check_key, host_key_check, is_strict,
  authenticate, verify, with_session, start_session, with_socket, is_connected,
  connect_and_authenticate,
}

end_session-sockets :
    (o : Option ℕ) (c : SshClient) (w : Process) → (end_session o c w).1.sockets ≡ w.sockets
unfolding end_session
end_session-sockets none c w = refl
end_session-sockets (some session) c w = refl

pub disconnect-waits :
    (c : SshClient) (w : Process) → (disconnect c w).1.sockets.waits ≡ w.sockets.waits
unfolding disconnect
disconnect-waits c w =
    close-waits (end_session c.session c w).0.socket_handle (end_session c.session c w).1.sockets
    ∙ ap (λ s. s.waits) (end_session-sockets c.session c w)

module _ (a : SshAnswers) where
  -- The login has not waited.
  abbrev At : Process → Login → Type 0
  At w l = l.process.sockets.waits ≡ w.sockets.waits

  look_up-sockets :
      (session : ℕ) (config : SshConfig) (w : Process) (k : HostKey) (o : Option ℕ)
      → (look_up a session config w k o).1.sockets ≡ w.sockets
  look_up-sockets session config w k none = refl
  look_up-sockets session config w k (some table) = refl

  check_key-sockets :
      (session : ℕ) (config : SshConfig) (w : Process) (o : Option HostKey)
      → (check_key a session config w o).1.sockets ≡ w.sockets
  check_key-sockets session config w none = refl
  check_key-sockets session config w (some k) =
      if-cases (λ (r : Bytes × Process). r.1.sockets ≡ w.sockets)
        (is_empty (known_hosts_path a config)) _ _ (λ _. refl)
        (λ _. look_up-sockets session config w k a.new_known_hosts)

  authenticate-At : (session : ℕ) (c : SshClient) (w : Process) → At w (authenticate a session c w)
  unfolding authenticate
  authenticate-At session c w =
      if-cases (At w) a.authenticated _ _ (λ _. refl) (λ _. disconnect-waits _ _)

  verify-At : (session : ℕ) (c : SshClient) (w : Process) → At w (verify a session c w)
  unfolding verify host_key_check
  verify-At session c w =
      let status = (check_key a session c.config w a.host_key).0 in
      let w' = (check_key a session c.config w a.host_key).1 in
      let same = ap (λ s. s.waits) (check_key-sockets session c.config w a.host_key) in
      if-cases (At w) (is_strict c.config.host_key_policy && not (equal status (codes "match"))) _ _
        (λ _. disconnect-waits _ w' ∙ same) (λ _. authenticate-At session _ w' ∙ same)

  start_session-At : (o : Option ℕ) (c : SshClient) (w : Process) → At w (start_session a o c w)
  unfolding with_session
  start_session-At none c w = disconnect-waits _ w
  start_session-At (some session) c w =
      if-cases (At w) (not a.handshake) _ _ (λ _. disconnect-waits _ _)
        (λ _. verify-At session (record c { session = some session }) _)

  with_socket-At :
      (messages : ℕ → Option Bytes) (c : SshClient) (w : Process)
      → At w (with_socket messages a c w)
  unfolding with_socket
  with_socket-At messages c w =
      if-cases (At w) (not a.blocking) _ _ (λ _. disconnect-waits _ w)
        (λ _. start_session-At a.new_session c w)

  -- Provided that Windows gives an error code for a connect that fails: a login waits at most once,
  -- for the connection.
  pub connect_and_authenticate-WaitsOnce :
      (net : Inet) (messages : ℕ → Option Bytes) (c : SshClient) (w : Process)
      → (a.tcp.connected_at_once ≡ false → a.tcp.connect_error ≢ 0)
      → WaitsOnce c.config.connect_timeout w.sockets
          (connect_and_authenticate net messages a c w).process.sockets
  unfolding connect_and_authenticate
  connect_and_authenticate-WaitsOnce net messages c w sure =
      let t = tcp_connect net a.tcp c.config.host c.config.connect_timeout w.sockets in
      let once =
        (tcp_connect-connected net a.tcp c.config.host c.config.connect_timeout w.sockets sure).1 in
      if-cases (λ (l : Login). WaitsOnce c.config.connect_timeout w.sockets l.process.sockets)
        (not (is_ready (initialise_once a.libssh2_init w.libssh2))) _ _ (λ _. inl refl)
        λ _.
          if-cases (λ (l : Login). WaitsOnce c.config.connect_timeout w.sockets l.process.sockets)
            (not (is_connected t.result)) _ _ (λ _. once) (λ _. joined t once)
    where
      joined :
          (t : Attempt)
          → WaitsOnce c.config.connect_timeout w.sockets t.sockets
          → WaitsOnce c.config.connect_timeout w.sockets
              (with_socket messages a
                (record c { socket_handle = t.out_socket })
                (record w {
                  libssh2 = initialise_once a.libssh2_init w.libssh2;
                  sockets = t.sockets;
                })).process.sockets
      joined t (inl e) = inl (with_socket-At messages _ _ ∙ e)
      joined t (inr e) = inr (with_socket-At messages _ _ ∙ e)
