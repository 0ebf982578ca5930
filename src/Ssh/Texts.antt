-- ===== src/Ssh/Texts.antt =====
-- Which error texts of a login have the word "authentication".
pub mod Names
use ip_finder.Common.{
  ℕ, zero, suc, ◌≡◌, ◌≢◌, ◌↔◌, refl, sym, ◌∙◌, ap, subst, Bool, true, false, not, ◌∷◌, ◌++◌, ◌==◌,
  if◌then◌else◌, if-cases, is_empty, Option, none, some, arith,
}
use ip_finder.Common.Bytes.{Bytes, codes, contains, starts_with}
use ip_finder.Common.Int.{ℤ, pos, negsuc, to_int32}
use ip_finder.Inet.{Inet}
use ip_finder.Network.Interface.Names.{contains-append}
use ip_finder.Platform.{initialise_once, is_ready, socket_error_text}
use ip_finder.Scanner.Connect.{
  ConnectResult, connected, refused, timed_out, unreachable, error, to_string, Answers, tcp_connect,
}
use ip_finder.Ssh.{
  Process, SshClient, called, session_timeout, session_handshake, userauth_password, SessionError,
  SshConfig, libssh2_error_text, end_session, disconnect,
}
use ip_finder.Ssh.Connect.{
  HostKey, SshAnswers, Login, fail, check_status, look_up, check_key, known_hosts_path,
  host_key_check, refusal_text, authenticate, verify, with_session, start_session, with_socket,
  is_connected, connect_and_authenticate,
}
use ip_finder.Ssh.Trust.{IsTrusted, refuses, refuses-IsTrusted}

-- `last_error().find("authentication") != npos`
abbrev pub names_authentication : Bytes → Bool
names_authentication text = contains (codes "authentication") text

end_session-last_error :
    (o : Option ℕ) (c : SshClient) (w : Process) → (end_session o c w).0.last_error ≡ c.last_error
unfolding end_session
end_session-last_error none c w = refl
end_session-last_error (some s) c w = refl

pub fail-last_error :
    (text : Bytes) (c : SshClient) (w : Process) → (fail text c w).client.last_error ≡ text
unfolding disconnect
fail-last_error text c w = end_session-last_error c.session (record c { last_error = text }) w

pub authentication_text :
    (username : Bytes)
    → names_authentication (codes "SSH authentication failed for user '" ++ username ++ codes "'")
      ≡ true
authentication_text username =
    contains-append (codes "SSH ") (codes "authentication")
      (codes " failed for user '" ++ username ++ codes "'")

pub connection_text :
    (r : ConnectResult)
    → names_authentication (codes "SSH connection failed (" ++ to_string r ++ codes ")") ≡ false
unfolding to_string contains starts_with
connection_text connected = refl
connection_text refused = refl
connection_text timed_out = refl
connection_text unreachable = refl
connection_text error = refl

unknown_text : names_authentication (refusal_text (codes "unknown")) ≡ false
unfolding contains starts_with
unknown_text = refl

mismatch_text : names_authentication (refusal_text (codes "mismatch")) ≡ false
unfolding contains starts_with
mismatch_text = refl

match_text : names_authentication (refusal_text (codes "match")) ≡ false
unfolding contains starts_with
match_text = refl

check_failure_text : names_authentication (refusal_text (codes "check-failure")) ≡ false
unfolding contains starts_with
check_failure_text = refl

status_text : (check : ℤ) → names_authentication (refusal_text (check_status check)) ≡ false
unfolding check_status
status_text (pos n) =
    if-cases IsQuiet (n == 0) _ _ (λ e. match_text)
      λ e.
        if-cases IsQuiet (n == 1) _ _ (λ e. mismatch_text)
          λ e. if-cases IsQuiet (n == 2) _ _ (λ e. unknown_text) (λ e. check_failure_text)
  where
    IsQuiet : Bytes → Type 0
    IsQuiet status = names_authentication (refusal_text status) ≡ false
status_text (negsuc n) = check_failure_text

pub library_text : names_authentication (codes "libssh2 initialisation failed") ≡ false
unfolding contains starts_with
library_text = refl

pub session_text : names_authentication (codes "could not create SSH session") ≡ false
unfolding contains starts_with
session_text = refl

module _ (a : SshAnswers) (session : ℕ) (config : SshConfig) (w : Process) where
  look_up-text :
      (host_key : HostKey) (o : Option ℕ)
      → names_authentication (refusal_text (look_up a session config w host_key o).0) ≡ false
  look_up-text host_key none = unknown_text
  look_up-text host_key (some table) = status_text a.check

  pub host_key_check-text :
      names_authentication (refusal_text (host_key_check a session config w).0) ≡ false
  unfolding host_key_check
  host_key_check-text = with_key a.host_key
    where
      with_key :
          (o : Option HostKey)
          → names_authentication (refusal_text (check_key a session config w o).0) ≡ false
      with_key none = unknown_text
      with_key (some k) =
          if-cases (λ (r : Bytes × Process). names_authentication (refusal_text r.0) ≡ false)
            (is_empty (known_hosts_path a config)) _ _ (λ e. unknown_text)
            (λ e. look_up-text k a.new_known_hosts)
