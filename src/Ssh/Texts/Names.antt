-- ===== src/Ssh/Texts/Names.antt =====
-- Which failures of a login are told as failures of the authentication.
use ip_finder.Common.{
  ℕ, ◌≡◌, ◌≢◌, ◌↔◌, refl, ◌∙◌, ap, true, false, not, ◌∷◌, ◌++◌, if-cases, Option, none, some, arith,
}
use ip_finder.Common.Bytes.{Bytes, codes}
use ip_finder.Common.Int.{to_int32}
use ip_finder.Inet.{Inet}
use ip_finder.Platform.{initialise_once, is_ready, socket_error_text}
use ip_finder.Scanner.Connect.{connected, tcp_connect, Attempt}
use ip_finder.Ssh.{
  Process, SshClient, called, session_timeout, session_handshake, SshConfig, libssh2_error_text,
}
use ip_finder.Ssh.Connect.{
  SshAnswers, Login, fail, host_key_check, refusal_text, authenticate, verify, with_session,
  start_session, with_socket, is_connected, connect_and_authenticate,
}
use ip_finder.Ssh.Texts.{
  names_authentication, fail-last_error, authentication_text, connection_text, library_text,
  session_text, host_key_check-text,
}
use ip_finder.Ssh.Trust.{IsTrusted, is_connected_iff, refuses, refuses-IsTrusted}

-- A failed login names the authentication exactly where it got that far.
abbrev pub Names : Type 0 → Login → Type 0
Names Reached l = l.accepted ≡ false → (names_authentication l.client.last_error ≡ true) ↔ Reached

Names-iff : (S T : Type 0) (l : Login) → (S ↔ T) → Names S l → Names T l
Names-iff S T l same names e = let n = names e in ((λ q. same.0 (n.0 q)), λ t. n.1 (same.1 t))

fail-Names :
    (Reached : Type 0) (text : Bytes) (c : SshClient) (w : Process)
    → ¬ Reached
    → names_authentication text ≡ false
    → Names Reached (fail text c w)
fail-Names Reached text c w early silent e =
    let kept = ap names_authentication (fail-last_error text c w) ∙ silent in
    ((λ q. absurd (ground arith)), λ r. absurd (early r))

-- The word, in what Windows and libssh2 say.
abbrev pub IsSilent : (ℕ → Option Bytes) → SshAnswers → Type 0
IsSilent messages a =
    (names_authentication (
        codes "could not switch the SSH socket to blocking mode: "
        ++ socket_error_text messages a.socket_error)
      ≡ false)
    × (names_authentication
          (libssh2_error_text (some 0) a.session_error (codes "SSH handshake failed"))
        ≡ false)

module _ (a : SshAnswers) where
  authenticate-Names :
      (session : ℕ) (c : SshClient) (w : Process) → Names Unit (authenticate a session c w)
  unfolding authenticate
  authenticate-Names session c w =
      if-cases (Names Unit) a.authenticated _ _ (λ e q. cc)
        (λ e q. (
          (λ z. tt),
          λ z.
              ap names_authentication (fail-last_error _ c _)
              ∙ authentication_text c.config.username,
        ))

  verify-Names :
      (session : ℕ) (c : SshClient) (w : Process)
      → Names (IsTrusted a c.config) (verify a session c w)
  unfolding verify
  verify-Names session c w =
      let (status, w') = host_key_check a session c.config w in
      let c' = record c { host_key_status = status } in
      let passes = refuses-IsTrusted a session c.config w in
      if-cases (Names (IsTrusted a c.config)) (refuses c.config status) _ _
        (λ e.
          fail-Names (IsTrusted a c.config) (refusal_text status) c' w'
            (λ t. let q = passes.1 t in cc) (host_key_check-text a session c.config w))
        (λ e.
          Names-iff Unit (IsTrusted a c.config) (authenticate a session c' w')
            ((λ q. passes.0 e), λ q. tt) (authenticate-Names session c' w'))

  with_session-Names :
      (session : ℕ) (c : SshClient) (w : Process)
      → names_authentication
          (libssh2_error_text (some session) a.session_error (codes "SSH handshake failed"))
        ≡ false
      → Names ((a.handshake ≡ true) × IsTrusted a c.config) (with_session a session c w)
  unfolding with_session
  with_session-Names session c w silent =
      let c' = record c { session = some session } in
      let w' = called (session_handshake session c.socket_handle) (
        called (session_timeout session (to_int32 c.config.auth_timeout))
          (record w { sessions = session ∷ w.sessions })) in
      if-cases (Names ((a.handshake ≡ true) × IsTrusted a c.config)) (not a.handshake) _ _
        (λ e.
          fail-Names ((a.handshake ≡ true) × IsTrusted a c.config)
            (libssh2_error_text (some session) a.session_error (codes "SSH handshake failed")) c' w'
            (λ t. ground arith) silent)
        (λ e.
          Names-iff (IsTrusted a c.config) ((a.handshake ≡ true) × IsTrusted a c.config)
            (verify a session c' w') ((λ q. (ground arith, q)), λ q. q.1)
            (verify-Names session c' w'))

  start_session-Names :
      (o : Option ℕ) (c : SshClient) (w : Process)
      → names_authentication
          (libssh2_error_text (some 0) a.session_error (codes "SSH handshake failed"))
        ≡ false
      → Names ((o ≢ none) × (a.handshake ≡ true) × IsTrusted a c.config) (start_session a o c w)
  unfolding libssh2_error_text
  start_session-Names none c w silent =
      fail-Names ((none ≢ none) × (a.handshake ≡ true) × IsTrusted a c.config) _ c w (λ t. t.0 refl)
        session_text
  start_session-Names (some session) c w silent =
      Names-iff ((a.handshake ≡ true) × IsTrusted a c.config)
        ((some session ≢ none) × (a.handshake ≡ true) × IsTrusted a c.config)
        (with_session a session c w) ((λ q. ((λ z. cc), q.0, q.1)), λ q. (q.1, q.2))
        (with_session-Names session c w silent)

  -- What has to go well on a connected socket before the authentication.
  abbrev pub Reaches : SshConfig → Type 0
  Reaches config =
      (a.blocking ≡ true) × (a.new_session ≢ none) × (a.handshake ≡ true) × IsTrusted a config

  with_socket-Names :
      (messages : ℕ → Option Bytes) (c : SshClient) (w : Process)
      → IsSilent messages a
      → Names (Reaches c.config) (with_socket messages a c w)
  unfolding with_socket
  with_socket-Names messages c w silent =
      if-cases (Names (Reaches c.config)) (not a.blocking) _ _
        (λ e. fail-Names (Reaches c.config) _ c w (λ t. ground arith) silent.0)
        (λ e.
          Names-iff ((a.new_session ≢ none) × (a.handshake ≡ true) × IsTrusted a c.config)
            (Reaches c.config) (start_session a a.new_session c w)
            ((λ q. (ground arith, q.0, q.1, q.2)), λ q. (q.1, q.2, q.3))
            (start_session-Names a.new_session c w silent.1))

-- Provided that neither the message of Windows nor that of libssh2 has the word "authentication",
-- and for a login that fails: its error text has the word exactly where every step before the
-- authentication went well, that is where the server refused the password.
pub connect_and_authenticate-Reaches :
    (net : Inet) (messages : ℕ → Option Bytes) (a : SshAnswers) (c : SshClient) (w : Process)
    → IsSilent messages a
    → (connect_and_authenticate net messages a c w).accepted ≡ false
    → (names_authentication (connect_and_authenticate net messages a c w).client.last_error ≡ true)
      ↔ ((is_ready (initialise_once a.libssh2_init w.libssh2) ≡ true)
          × ((tcp_connect net a.tcp c.config.host c.config.connect_timeout w.sockets).result
              ≡ connected)
          × Reaches a c.config)
unfolding connect_and_authenticate
connect_and_authenticate-Reaches net messages a c w silent =
    if-cases (Names (Early × (t.result ≡ connected) × Reaches a c.config))
      (not (is_ready (initialise_once a.libssh2_init w.libssh2))) _ _
      (λ e q. ((λ z. absurd (ground (arith, library_text))), λ h. ground arith))
      (λ e.
        if-cases (Names (Early × (t.result ≡ connected) × Reaches a c.config))
          (not (is_connected t.result)) _ _
          (λ r q. (
            (λ z. absurd (ground (arith, connection_text t.result))),
            λ h. let s = (is_connected_iff t.result).1 h.1 in ground arith,
          ))
          (λ r.
            Names-iff (Reaches a c.config) (Early × (t.result ≡ connected) × Reaches a c.config)
              (with_socket messages a connected_client connected_process)
              ((λ q. (ground arith, (is_connected_iff t.result).0 (ground arith), q)), λ q. q.2)
              (with_socket-Names a messages connected_client connected_process silent)))
  where
    Early : Type 0
    Early = is_ready (initialise_once a.libssh2_init w.libssh2) ≡ true

    t : Attempt
    t = tcp_connect net a.tcp c.config.host c.config.connect_timeout w.sockets

    connected_client : SshClient
    connected_client = record c { socket_handle = t.out_socket }

    connected_process : Process
    connected_process = record w {
      libssh2 = initialise_once a.libssh2_init w.libssh2;
      sockets = t.sockets;
    }
