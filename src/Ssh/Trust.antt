-- ===== src/Ssh/Trust.antt =====
-- When a host key counts as known, and what is done on the way to an answer.
use ip_finder.Common.{
  ℕ, zero, suc, ◌≡◌, ◌≢◌, ◌↔◌, refl, ◌∙◌, ap, Bool, true, false, not, ◌&&◌, All, is_empty, if-cases,
  Option, none, some, arith,
}
use ip_finder.Common.Bytes.{Bytes, codes, equal, equal_iff, equal_refl}
use ip_finder.Common.Int.{ℤ, pos, negsuc}
use ip_finder.Scanner.Connect.{ConnectResult, connected, refused, timed_out, unreachable, error}
use ip_finder.Ssh.{
  HostKeyPolicy, warn, strict, SshConfig, Call, session_timeout, session_handshake,
  known_host_check, userauth_password, channel_exec, session_disconnect, Process, SshClient,
  end_session, disconnect,
}
use ip_finder.Ssh.Connect.{
  SshAnswers, HostKey, check_status, look_up, check_key, known_hosts_path, host_key_check,
  is_strict, is_connected,
}
use ip_finder.Ssh.Ownership.{Owns, erase-head}

-- The table of known hosts has the key of the host.
abbrev pub IsKnown : SshAnswers → SshConfig → Type 0
IsKnown a config =
    (a.host_key ≢ none)
    × (is_empty (known_hosts_path a config) ≡ false)
    × (a.new_known_hosts ≢ none)
    × (a.check ≡ pos 0)

-- What the policy asks for.
abbrev pub IsTrusted : SshAnswers → SshConfig → Type 0
IsTrusted a config = config.host_key_policy ≡ strict → IsKnown a config

-- A password goes out as configured, and only to a host that is trusted.
abbrev pub IsGuarded : SshAnswers → SshConfig → Call → Type 0
IsGuarded a config (session_timeout s t) = Unit
IsGuarded a config (session_handshake s h) = Unit
IsGuarded a config (known_host_check s path host port mask) = Unit
IsGuarded a config (userauth_password s username password) =
    (username ≡ config.username) × (password ≡ config.password) × IsTrusted a config
IsGuarded a config (channel_exec s command) = Unit
IsGuarded a config (session_disconnect s) = Unit

pub is_connected_iff : (r : ConnectResult) → (is_connected r ≡ true) ↔ (r ≡ connected)
is_connected_iff connected = ((λ e. refl), λ e. refl)
is_connected_iff refused = ((λ e. cc), λ e. cc)
is_connected_iff timed_out = ((λ e. cc), λ e. cc)
is_connected_iff unreachable = ((λ e. cc), λ e. cc)
is_connected_iff error = ((λ e. cc), λ e. cc)

unknown-ne-match : codes "unknown" ≢ codes "match"
unknown-ne-match e = ground arith

check_status-match : (check : ℤ) → (check_status check ≡ codes "match") ↔ (check ≡ pos 0)
unfolding check_status
check_status-match (pos zero) = ((λ e. refl), λ e. refl)
check_status-match (pos (suc zero)) = ((λ e. ground arith), λ e. cc)
check_status-match (pos (suc (suc zero))) = ((λ e. ground arith), λ e. cc)
check_status-match (pos (suc (suc (suc n)))) = ((λ e. ground arith), λ e. cc)
check_status-match (negsuc n) = ((λ e. ground arith), λ e. cc)

module _ (a : SshAnswers) (session : ℕ) (config : SshConfig) (w : Process) where
  look_up-known :
      (host_key : HostKey) (o : Option ℕ)
      → ((look_up a session config w host_key o).0 ≡ codes "match")
        ↔ ((o ≢ none) × (a.check ≡ pos 0))
  look_up-known host_key none = ((λ e. absurd (unknown-ne-match e)), λ h. absurd (h.0 refl))
  look_up-known host_key (some table) =
      let known = check_status-match a.check in ((λ e. ((λ q. cc), known.0 e)), λ h. known.1 h.1)

  check_key-known :
      (o : Option HostKey)
      → ((check_key a session config w o).0 ≡ codes "match") ↔ (
          (o ≢ none)
          × (is_empty (known_hosts_path a config) ≡ false)
          × (a.new_known_hosts ≢ none)
          × (a.check ≡ pos 0))
  check_key-known none = ((λ e. absurd (unknown-ne-match e)), λ h. absurd (h.0 refl))
  check_key-known (some k) =
      if-cases
        (λ (r : Bytes × Process). (r.0 ≡ codes "match") ↔ (
          (some k ≢ none)
          × (is_empty (known_hosts_path a config) ≡ false)
          × (a.new_known_hosts ≢ none)
          × (a.check ≡ pos 0)))
        (is_empty (known_hosts_path a config)) _ _
        (λ e. ((λ q. absurd (unknown-ne-match q)), λ h. cc))
        (λ e.
          let known = look_up-known k a.new_known_hosts in
          (
            (λ q. let (table, matched) = known.0 q in ((λ z. cc), e, table, matched)),
            λ h. known.1 (h.2, h.3),
          ))

  -- The status of a host key is "match" exactly where the table of known hosts has it.
  pub host_key_check-IsKnown :
      ((host_key_check a session config w).0 ≡ codes "match") ↔ IsKnown a config
  unfolding host_key_check
  host_key_check-IsKnown = check_key-known a.host_key

  look_up-kept :
      (start : Process) (c : SshClient) (host_key : HostKey) (o : Option ℕ)
      → Owns start c w
      → All (IsGuarded a config) w.calls
      → let r = look_up a session config w host_key o in
        Owns start c r.1 × All (IsGuarded a config) r.1.calls
  look_up-kept start c host_key none owns calls = (owns, calls)
  look_up-kept start c host_key (some table) (handles, live, no_channel, no_table) calls =
      ((handles, live, no_channel, erase-head table w.known_hosts ∙ no_table), (tt, calls))

  -- The table of known hosts is freed again.
  pub host_key_check-kept :
      (start : Process) (c : SshClient)
      → Owns start c w
      → All (IsGuarded a config) w.calls
      → let r = host_key_check a session config w in
        Owns start c r.1 × All (IsGuarded a config) r.1.calls
  unfolding host_key_check
  host_key_check-kept start c owns calls = with_key a.host_key
    where
      with_key :
          (o : Option HostKey)
          → let r = check_key a session config w o in
            Owns start c r.1 × All (IsGuarded a config) r.1.calls
      with_key none = (owns, calls)
      with_key (some k) =
          if-cases (λ (r : Bytes × Process). Owns start c r.1 × All (IsGuarded a config) r.1.calls)
            (is_empty (known_hosts_path a config)) _ _ (λ e. (owns, calls))
            (λ e. look_up-kept start c k a.new_known_hosts owns calls)

-- Whether the policy refuses a status.
abbrev pub refuses : SshConfig → Bytes → Bool
refuses config status = is_strict config.host_key_policy && not (equal status (codes "match"))

refuses_iff :
    (policy : HostKeyPolicy) (status : Bytes)
    → ((is_strict policy && not (equal status (codes "match"))) ≡ false)
      ↔ (policy ≡ strict → status ≡ codes "match")
refuses_iff warn status = ((λ e q. cc), λ h. refl)
refuses_iff strict status = (
  (λ e q. (equal_iff status (codes "match")).0 (ground arith)),
  λ h. ap (λ s. not (equal s (codes "match"))) (h refl) ∙ ap not (equal_refl (codes "match")),
)

-- The policy lets a host pass exactly where it is trusted.
pub refuses-IsTrusted :
    (a : SshAnswers) (session : ℕ) (config : SshConfig) (w : Process)
    → (refuses config (host_key_check a session config w).0 ≡ false) ↔ IsTrusted a config
refuses-IsTrusted a session config w =
    let known = host_key_check-IsKnown a session config w in
    let passes = refuses_iff config.host_key_policy (host_key_check a session config w).0 in
    ((λ e q. known.0 (passes.0 e q)), λ h. passes.1 (λ q. known.1 (h q)))

module _ (a : SshAnswers) (config : SshConfig) where
  end_session-IsGuarded :
      (o : Option ℕ) (c : SshClient) (w : Process)
      → All (IsGuarded a config) w.calls
      → All (IsGuarded a config) (end_session o c w).1.calls
  unfolding end_session
  end_session-IsGuarded none c w h = h
  end_session-IsGuarded (some s) c w h = (tt, h)

  pub disconnect-IsGuarded :
      (c : SshClient) (w : Process)
      → All (IsGuarded a config) w.calls
      → All (IsGuarded a config) (disconnect c w).1.calls
  unfolding disconnect
  disconnect-IsGuarded c w h = end_session-IsGuarded c.session c w h
