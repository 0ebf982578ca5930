-- ===== src/Ssh/Command.antt =====
-- What a remote command gives, and what it leaves behind.
use ip_finder.Ssh.Streams.{up_to, StopsAfter, read_stream-up_to}
use ip_finder.Common.{
  ℕ, ◌<◌, ◌≡◌, ◌≢◌, ◌↔◌, refl, sym, ap₂, subst, true, false, not, [], ◌∷◌, is_empty, if-cases,
  Option, none, some, arith,
}
use ip_finder.Common.Bytes.{Bytes, codes}
use ip_finder.Common.Int.{ℤ, negsuc, to_int32}
use ip_finder.Ssh.{
  CommandResult, Process, SshClient, called, session_timeout, channel_exec, SessionError, described,
  libssh2_error_text,
}
use ip_finder.Ssh.Execute.{
  ExecAnswers, failed, free_channel, finished, read_output, freed, with_channel, on_channel,
  on_session, execute,
}
use ip_finder.Ssh.Ownership.{erase-head}

-- Everything but the calls is as before.
pub record IsKept (w w' : Process) : Type 0 where
  pub sockets : w'.sockets ≡ w.sockets
  pub sessions : w'.sessions ≡ w.sessions
  pub channels : w'.channels ≡ w.channels
  pub known_hosts : w'.known_hosts ≡ w.known_hosts

-- A command that was run, with all that the peer sent, or an error without output.
pub record IsExecution (a : ExecAnswers) (n m : ℕ) (Succeeds : Type 0) (w : Process)
    (r : CommandResult) (w' : Process) : Type 0 where
  pub succeeds : (r.ok ≡ true) ↔ Succeeds
  pub output :
      r.ok ≡ true
      → (r.stdout_data ≡ up_to a.stdout_reads n 0)
        × (r.stderr_data ≡ up_to a.stderr_reads m 0)
        × (r.exit_code ≡ a.exit_status)
  pub no_output :
      r.ok ≡ false → (r.stdout_data ≡ []) × (r.stderr_data ≡ []) × (r.exit_code ≡ negsuc 0)
  pub explained : (r.ok ≡ true) ↔ (r.error ≡ [])
  pub kept : IsKept w w'

described-ne : (c : ℕ) (cs : Bytes) (code : ℤ) (m : Option Bytes) → described (c ∷ cs) code m ≢ []
described-ne c cs code none = λ e. cc
described-ne c cs code (some message) =
    if-cases (λ t. t ≢ []) (is_empty message) _ _ (λ _ e. cc) (λ _ e. cc)

libssh2_error_text-ne :
    (s : Option ℕ) (e : SessionError) (fallback : Bytes)
    → is_empty fallback ≡ false
    → libssh2_error_text s e fallback ≢ []
unfolding libssh2_error_text
libssh2_error_text-ne s e [] h = cc
libssh2_error_text-ne none e (c ∷ cs) h = λ q. cc
libssh2_error_text-ne (some s) e (c ∷ cs) h = described-ne c cs e.code e.message

module _ (a : ExecAnswers) (n m : ℕ) where
  abbrev pub Runs : Type 0 → Process → Option (CommandResult × Process) → Type 0
  Runs Succeeds w o =
      (r : CommandResult) × (w' : Process) × (o ≡ some (r, w')) × IsExecution a n m Succeeds w r w'

  failed-Runs :
      (Succeeds : Type 0) (text : Bytes) (w w' : Process)
      → ¬ Succeeds
      → text ≢ []
      → IsKept w w'
      → Runs Succeeds w (some (failed text, w'))
  failed-Runs Succeeds text w w' no_success ne kept = (
    failed text,
    w',
    refl,
    record {
      succeeds = ((λ e. cc), λ h. absurd (no_success h));
      output = λ e. cc;
      no_output = λ e. (refl, refl, refl);
      explained = ((λ e. cc), λ e. absurd (ne e));
      kept = kept;
    },
  )

  with_channel-Runs :
      (fuel session channel : ℕ) (command : Bytes) (w : Process)
      → StopsAfter a.stdout_reads n 0
      → StopsAfter a.stderr_reads m 0
      → n < fuel
      → m < fuel
      → Runs (a.started ≡ true) w (with_channel a fuel session channel command w)
  unfolding with_channel read_output
  with_channel-Runs fuel session channel command w out err n_more m_more =
      let begun =
        called (channel_exec session command) (record w { channels = channel ∷ w.channels }) in
      if-cases (Runs (a.started ≡ true) w) (not a.started) _ _
        (λ e.
          failed-Runs (a.started ≡ true) _ w _ (λ q. ground arith)
            (libssh2_error_text-ne (some session) a.session_error
              (codes "remote command execution failed") refl)
            kept)
        (λ e.
          subst (λ o. Runs (a.started ≡ true) w (freed channel begun o)) (sym ran)
            (
              _,
              _,
              refl,
              record {
                succeeds = ((λ q. ground arith), λ q. refl);
                output = λ q. (refl, refl, refl);
                no_output = λ q. cc;
                explained = ((λ q. refl), λ q. refl);
                kept = kept;
              },
            ))
    where
      kept : IsKept w (
          free_channel channel
            (called (channel_exec session command) (record w { channels = channel ∷ w.channels })))
      kept = record {
        sockets = refl;
        sessions = refl;
        channels = erase-head channel w.channels;
        known_hosts = refl;
      }

      ran :
          read_output a fuel
          ≡ finished a.exit_status
              (some (up_to a.stdout_reads n 0))
              (some (up_to a.stderr_reads m 0))
      ran =
          ap₂ (finished a.exit_status) (read_stream-up_to a.stdout_reads n 0 fuel out n_more)
            (read_stream-up_to a.stderr_reads m 0 fuel err m_more)

  on_channel-Runs :
      (fuel session : ℕ) (o : Option ℕ) (command : Bytes) (w : Process)
      → StopsAfter a.stdout_reads n 0
      → StopsAfter a.stderr_reads m 0
      → n < fuel
      → m < fuel
      → Runs ((o ≢ none) × (a.started ≡ true)) w (on_channel a fuel session o command w)
  on_channel-Runs fuel session none command w out err n_more m_more =
      failed-Runs ((none ≢ none) × (a.started ≡ true)) _ w w (λ h. h.0 refl)
        (libssh2_error_text-ne (some session) a.session_error (codes "could not open SSH channel")
          refl)
        (record { sockets = refl; sessions = refl; channels = refl; known_hosts = refl })
  on_channel-Runs fuel session (some channel) command w out err n_more m_more =
      let (r, w', e, x) = with_channel-Runs fuel session channel command w out err n_more m_more in
      (
        r,
        w',
        e,
        record {
          succeeds = ((λ q. ((λ z. cc), x.succeeds.0 q)), λ q. x.succeeds.1 q.1);
          output = x.output;
          no_output = x.no_output;
          explained = x.explained;
          kept = x.kept;
        },
      )

  on_session-Runs :
      (fuel : ℕ) (o : Option ℕ) (command : Bytes) (c : SshClient) (w : Process)
      → StopsAfter a.stdout_reads n 0
      → StopsAfter a.stderr_reads m 0
      → n < fuel
      → m < fuel
      → Runs
          ((o ≢ none) × (a.new_channel ≢ none) × (a.started ≡ true))
          w
          (on_session a fuel o command c w)
  on_session-Runs fuel none command c w out err n_more m_more =
      failed-Runs ((none ≢ none) × (a.new_channel ≢ none) × (a.started ≡ true)) _ w w
        (λ h. h.0 refl) (λ e. cc)
        (record { sockets = refl; sessions = refl; channels = refl; known_hosts = refl })
  on_session-Runs fuel (some session) command c w out err n_more m_more =
      let (r, w', e, x) =
        on_channel-Runs fuel session a.new_channel command
          (called (session_timeout session (to_int32 c.config.command_timeout)) w) out err n_more
          m_more in
      (
        r,
        w',
        e,
        record {
          succeeds = (
            (λ q. let h = x.succeeds.0 q in ((λ z. cc), h.0, h.1)),
            λ q. x.succeeds.1 (q.1, q.2),
          );
          output = x.output;
          no_output = x.no_output;
          explained = x.explained;
          kept = record {
            sockets = x.kept.sockets;
            sessions = x.kept.sessions;
            channels = x.kept.channels;
            known_hosts = x.kept.known_hosts;
          };
        },
      )

  -- Where the reads of the two streams stop after `n` and `m` blocks, whatever stops them, and the
  -- fuel exceeds both: a command ends; it succeeds exactly with a session, a channel, and a start;
  -- then its output is all the blocks in order, and otherwise there is an error text and no output.
  -- It keeps the sockets and the sessions, and leaves no channel.
  pub execute-Runs :
      (fuel : ℕ) (command : Bytes) (c : SshClient) (w : Process)
      → StopsAfter a.stdout_reads n 0
      → StopsAfter a.stderr_reads m 0
      → n < fuel
      → m < fuel
      → Runs
          ((c.session ≢ none) × (a.new_channel ≢ none) × (a.started ≡ true))
          w
          (execute a fuel command c w)
  unfolding execute
  execute-Runs fuel command c w out err n_more m_more =
      on_session-Runs fuel c.session command c w out err n_more m_more
