-- ===== src/Ssh/Login.antt =====
-- When the steps of a login succeed, what the client holds then, and what a failure releases.
pub mod Attempt
use ip_finder.Common.{
  ℕ, ◌≡◌, ◌≢◌, ◌↔◌, refl, sym, ◌∙◌, ap, subst, Bool, true, false, not, ◌&&◌, ◌==◌, List, [], ◌∷◌,
  ◌++◌, All, if◌then◌else◌, if-cases, inl, inr, Option, none, some, arith,
}
use ip_finder.Common.Bytes.{Bytes, codes, equal}
use ip_finder.Common.Int.{ℤ, to_int32}
use ip_finder.Inet.{Inet}
use ip_finder.Platform.{Socket, initialise_once, is_ready, socket_error_text}
use ip_finder.Ssh.{
  strict, SshConfig, session_timeout, session_handshake, userauth_password, Process, SshClient,
  called, libssh2_error_text, disconnect,
}
use ip_finder.Ssh.Connect.{
  SshAnswers, Login, fail, host_key_check, is_strict, authenticate, verify, with_session,
  start_session, with_socket, is_connected, connect_and_authenticate,
}
use ip_finder.Ssh.Ownership.{held as owned, Owns, IsDisconnected, disconnect-Owns}
use ip_finder.Ssh.Trust.{
  IsTrusted, IsGuarded, refuses, host_key_check-kept, refuses-IsTrusted, disconnect-IsGuarded,
}

-- What one step has to show of a login: who holds what, when it succeeds, and the calls.
pub record IsLogin (start : Process) (a : SshAnswers) (config : SshConfig) (Succeeds : Type 0)
    (l : Login) : Type 0 where
  pub owns : Owns start l.client l.process
  pub released : l.accepted ≡ false → IsDisconnected l.client
  pub held : l.accepted ≡ true → (l.client.socket_handle ≢ none) × (l.client.session ≢ none)
  pub succeeds : (l.accepted ≡ true) ↔ Succeeds
  pub guarded : All (IsGuarded a config) l.process.calls

module _ (start : Process) (a : SshAnswers) where
  -- The condition for success, in other words.
  pub IsLogin-iff :
      (S T : Type 0) (config : SshConfig) (l : Login)
      → (S ↔ T)
      → IsLogin start a config S l
      → IsLogin start a config T l
  IsLogin-iff S T config l same is = record {
    owns = is.owns;
    released = is.released;
    held = is.held;
    succeeds = ((λ e. same.0 (is.succeeds.0 e)), λ t. is.succeeds.1 (same.1 t));
    guarded = is.guarded;
  }

  -- A step that fails.
  fail-IsLogin :
      (Succeeds : Type 0) (text : Bytes) (c : SshClient) (w : Process)
      → ¬ Succeeds
      → Owns start c w
      → All (IsGuarded a c.config) w.calls
      → IsLogin start a c.config Succeeds (fail text c w)
  fail-IsLogin Succeeds text c w no_success owns calls =
      let c' = record c { last_error = text } in
      let (kept, freed) = disconnect-Owns start c' w owns in
      record {
        owns = kept;
        released = λ e. freed;
        held = λ e. cc;
        succeeds = ((λ e. cc), λ h. absurd (no_success h));
        guarded = disconnect-IsGuarded a c.config c' w calls;
      }

  module _ (session h : ℕ) (c : SshClient) (w : Process) (socket : c.socket_handle ≡ some h)
      (live : c.session ≡ some session) (owns : Owns start c w)
      (calls : All (IsGuarded a c.config) w.calls) where
    authenticate-IsLogin :
        IsTrusted a c.config
        → IsLogin start a c.config (a.authenticated ≡ true) (authenticate a session c w)
    unfolding authenticate
    authenticate-IsLogin trusted =
        if-cases (IsLogin start a c.config (a.authenticated ≡ true)) a.authenticated _ _
          (λ e. record {
            owns = owns;
            released = λ q. cc;
            held = λ q. ((λ z. cc), λ z. cc);
            succeeds = ((λ q. e), λ q. refl);
            guarded = ((refl, refl, trusted), calls);
          })
          (λ e.
            fail-IsLogin (a.authenticated ≡ true) _ c _ (λ q. cc) owns
              ((refl, refl, trusted), calls))

  -- From the verification of the host key on.
  verify-IsLogin :
      (session h : ℕ) (c : SshClient) (w : Process)
      → c.socket_handle ≡ some h
      → c.session ≡ some session
      → Owns start c w
      → All (IsGuarded a c.config) w.calls
      → IsLogin start a c.config
          (IsTrusted a c.config × (a.authenticated ≡ true))
          (verify a session c w)
  unfolding verify
  verify-IsLogin session h c w socket live owns calls =
      let (status, w') = host_key_check a session c.config w in
      let c' = record c { host_key_status = status } in
      let (owns', calls') = host_key_check-kept a session c.config w start c owns calls in
      let passes = refuses-IsTrusted a session c.config w in
      if-cases (IsLogin start a c.config (IsTrusted a c.config × (a.authenticated ≡ true)))
        (refuses c.config status) _ _
        (λ e.
          fail-IsLogin (IsTrusted a c.config × (a.authenticated ≡ true)) _ c' w'
            (λ t. let q = passes.1 t.0 in cc) owns' calls')
        (λ e.
          IsLogin-iff (a.authenticated ≡ true) (IsTrusted a c.config × (a.authenticated ≡ true))
            c.config _ ((λ q. (passes.0 e, q)), λ q. q.1)
            (authenticate-IsLogin session h c' w' socket live owns' calls' (passes.0 e)))

  -- What has to go well on a connected socket.
  abbrev pub SessionSucceeds : SshConfig → Type 0
  SessionSucceeds config = (a.handshake ≡ true) × IsTrusted a config × (a.authenticated ≡ true)

  with_session-IsLogin :
      (session h : ℕ) (c : SshClient) (w : Process)
      → c.socket_handle ≡ some h
      → c.session ≡ none
      → Owns start c w
      → All (IsGuarded a c.config) w.calls
      → IsLogin start a c.config (SessionSucceeds c.config) (with_session a session c w)
  unfolding with_session
  with_session-IsLogin session h c w socket no_session (handles, live, no_channel, no_table) calls =
      let c' = record c { session = some session } in
      let w' = called (session_handshake session c.socket_handle) (
        called (session_timeout session (to_int32 c.config.auth_timeout))
          (record w { sessions = session ∷ w.sessions })) in
      let live' = ap (◌∷◌ session) (live ∙ ap (λ o. owned o start.sessions) no_session) in
      let owns' : Owns start c' w' = (handles, live', no_channel, no_table) in
      if-cases (IsLogin start a c.config (SessionSucceeds c.config)) (not a.handshake) _ _
        (λ e.
          fail-IsLogin (SessionSucceeds c.config) _ c' w' (λ t. ground arith) owns'
            (tt, (tt, calls)))
        (λ e.
          IsLogin-iff (IsTrusted a c.config × (a.authenticated ≡ true)) (SessionSucceeds c.config)
            c.config _ ((λ q. (ground arith, q.0, q.1)), λ q. (q.1, q.2))
            (verify-IsLogin session h c' w' socket refl owns' (tt, (tt, calls))))

  -- What has to go well once the host has accepted the connection.
  abbrev pub SocketSucceeds : SshConfig → Type 0
  SocketSucceeds config = (a.blocking ≡ true) × (a.new_session ≢ none) × SessionSucceeds config

  start_session-IsLogin :
      (o : Option ℕ) (h : ℕ) (c : SshClient) (w : Process)
      → c.socket_handle ≡ some h
      → c.session ≡ none
      → Owns start c w
      → All (IsGuarded a c.config) w.calls
      → IsLogin start a c.config ((o ≢ none) × SessionSucceeds c.config) (start_session a o c w)
  start_session-IsLogin none h c w socket no_session owns calls =
      fail-IsLogin ((none ≢ none) × SessionSucceeds c.config) _ c w (λ t. t.0 refl) owns calls
  start_session-IsLogin (some session) h c w socket no_session owns calls =
      IsLogin-iff (SessionSucceeds c.config) ((some session ≢ none) × SessionSucceeds c.config)
        c.config _ ((λ t. ((λ z. cc), t)), λ t. t.1)
        (with_session-IsLogin session h c w socket no_session owns calls)

  pub with_socket-IsLogin :
      (messages : ℕ → Option Bytes) (h : ℕ) (c : SshClient) (w : Process)
      → c.socket_handle ≡ some h
      → c.session ≡ none
      → Owns start c w
      → All (IsGuarded a c.config) w.calls
      → IsLogin start a c.config (SocketSucceeds c.config) (with_socket messages a c w)
  unfolding with_socket
  with_socket-IsLogin messages h c w socket no_session owns calls =
      if-cases (IsLogin start a c.config (SocketSucceeds c.config)) (not a.blocking) _ _
        (λ e. fail-IsLogin (SocketSucceeds c.config) _ c w (λ t. ground arith) owns calls)
        (λ e.
          IsLogin-iff ((a.new_session ≢ none) × SessionSucceeds c.config) (SocketSucceeds c.config)
            c.config _ ((λ t. (ground arith, t.0, t.1)), λ t. (t.1, t.2))
            (start_session-IsLogin a.new_session h c w socket no_session owns calls))
