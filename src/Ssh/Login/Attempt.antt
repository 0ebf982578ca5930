-- ===== src/Ssh/Login/Attempt.antt =====
-- A login from the connection on.
use ip_finder.Common.{
  ℕ, ◌≡◌, ◌≢◌, refl, sym, ◌∙◌, ap, Bool, true, false, not, All, if◌then◌else◌, if-cases, inl, inr,
  Option, none, arith,
}
use ip_finder.Common.Bytes.{Bytes}
use ip_finder.Inet.{Inet}
use ip_finder.Platform.{Socket, initialise_once, is_ready}
use ip_finder.Scanner.Connect.{connected, Attempt, tcp_connect}
use ip_finder.Scanner.Connect.Ownership.{Owns as AttemptOwns, tcp_connect-Owns}
use ip_finder.Ssh.{Process, SshClient}
use ip_finder.Ssh.Connect.{SshAnswers, with_socket, is_connected, connect_and_authenticate}
use ip_finder.Ssh.Login.{IsLogin, IsLogin-iff, SocketSucceeds, with_socket-IsLogin}
use ip_finder.Ssh.Ownership.{held as owned, Owns, IsDisconnected}
use ip_finder.Ssh.Trust.{IsGuarded, is_connected_iff}

module _ (net : Inet) (messages : ℕ → Option Bytes) (a : SshAnswers) (c : SshClient)
    (start : Process) where
  abbrev attempt : Attempt
  attempt = tcp_connect net a.tcp c.config.host c.config.connect_timeout start.sockets

  -- What has to go well for a login to succeed.
  abbrev pub Succeeds : Type 0
  Succeeds =
      (is_ready (initialise_once a.libssh2_init start.libssh2) ≡ true)
      × (attempt.result ≡ connected)
      × SocketSucceeds start a c.config

  -- The client holds no session, and the process what it held at the start, beside the socket.
  attempt-Owns :
      (o : Socket) (t : Attempt) (ready : Option Bool)
      → c.session ≡ none
      → t.sockets.open_handles ≡ owned o start.sockets.open_handles
      → Owns start
          (record c { socket_handle = o })
          (record start { libssh2 = ready; sockets = t.sockets })
  attempt-Owns o t ready no_session handles =
      (handles, ap (λ s. owned s start.sessions) (sym no_session), refl, refl)

  after_attempt-IsLogin :
      (t : Attempt) (ready : Option Bool) (text : Bytes)
      → All (IsGuarded a c.config) start.calls
      → IsDisconnected c
      → AttemptOwns start.sockets.open_handles t
      → let w = record start { libssh2 = ready; sockets = t.sockets } in
        IsLogin start a c.config ((t.result ≡ connected) × SocketSucceeds start a c.config) (
          if not (is_connected t.result)
          then record { accepted = false; client = record c { last_error = text }; process = w }
          else with_socket messages a (record c { socket_handle = t.out_socket }) w)
  after_attempt-IsLogin t ready text calls gone owns =
      if-cases (IsLogin start a c.config ((t.result ≡ connected) × SocketSucceeds start a c.config))
        (not (is_connected t.result)) _ _ (λ e. no_connection (λ q. not_both e q) owns)
        (λ e. connection ((is_connected_iff t.result).0 (ground arith)) owns)
    where
      not_both : not (is_connected t.result) ≡ true → t.result ≢ connected
      not_both e q = let r = (is_connected_iff t.result).1 q in ground arith

      no_connection :
          t.result ≢ connected
          → AttemptOwns start.sockets.open_handles t
          → IsLogin start a c.config
              ((t.result ≡ connected) × SocketSucceeds start a c.config)
              (record {
                accepted = false;
                client = record c { last_error = text };
                process = record start { libssh2 = ready; sockets = t.sockets };
              })
      no_connection ne (inl (e, owns)) = absurd (ne e)
      no_connection ne (inr (_, no_socket, handles)) = record {
        owns = (
          handles ∙ ap (λ o. owned o start.sockets.open_handles) (sym gone.no_socket),
          ap (λ s. owned s start.sessions) (sym gone.no_session),
          refl,
          refl,
        );
        released = λ q. record { no_socket = gone.no_socket; no_session = gone.no_session };
        held = λ q. cc;
        succeeds = ((λ q. cc), λ q. absurd (ne q.0));
        guarded = calls;
      }

      connection :
          t.result ≡ connected
          → AttemptOwns start.sockets.open_handles t
          → IsLogin start a c.config ((t.result ≡ connected) × SocketSucceeds start a c.config) (
              with_socket messages a
                (record c { socket_handle = t.out_socket })
                (record start { libssh2 = ready; sockets = t.sockets }))
      connection e (inl (_, (h, socket, handles))) =
          IsLogin-iff start a (SocketSucceeds start a c.config)
            ((t.result ≡ connected) × SocketSucceeds start a c.config) c.config _
            ((λ q. (e, q)), λ q. q.1)
            (with_socket-IsLogin start a messages h (record c { socket_handle = t.out_socket })
              (record start { libssh2 = ready; sockets = t.sockets }) socket gone.no_session
              (attempt-Owns t.out_socket t ready gone.no_session
                (handles ∙ ap (λ o. owned o start.sockets.open_handles) (sym socket)))
              calls)
      connection e (inr (ne, _, _)) = absurd (ne e)

  -- Provided that Windows gives an error code for a connect that fails, and for a client that
  -- holds nothing yet: the login succeeds exactly when every step does and the policy trusts the
  -- host key; then the client holds one new socket and one new session. A login that fails leaves
  -- the sockets, sessions and tables of the process as they were. A password goes out only as
  -- configured, and only to a host that the policy trusts.
  pub connect_and_authenticate-IsLogin :
      (a.tcp.connected_at_once ≡ false → a.tcp.connect_error ≢ 0)
      → IsDisconnected c
      → All (IsGuarded a c.config) start.calls
      → IsLogin start a c.config Succeeds (connect_and_authenticate net messages a c start)
  unfolding connect_and_authenticate
  connect_and_authenticate-IsLogin sure gone calls =
      if-cases (IsLogin start a c.config Succeeds)
        (not (is_ready (initialise_once a.libssh2_init start.libssh2))) _ _
        (λ e. record {
          owns = (
            ap (λ o. owned o start.sockets.open_handles) (sym gone.no_socket),
            ap (λ s. owned s start.sessions) (sym gone.no_session),
            refl,
            refl,
          );
          released = λ q. record { no_socket = gone.no_socket; no_session = gone.no_session };
          held = λ q. cc;
          succeeds = ((λ q. cc), λ q. ground arith);
          guarded = calls;
        })
        (λ e.
          IsLogin-iff start a ((attempt.result ≡ connected) × SocketSucceeds start a c.config)
            Succeeds c.config _ ((λ q. (ground arith, q.0, q.1)), λ q. (q.1, q.2))
            (after_attempt-IsLogin attempt _ _ calls gone (
              tcp_connect-Owns net a.tcp c.config.host c.config.connect_timeout start.sockets
                sure)))
