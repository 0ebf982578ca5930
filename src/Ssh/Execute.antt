-- ===== src/Ssh/Execute.antt =====
-- ssh/ssh_client.cpp: execute.
use ip_finder.Common.{
  ℕ, zero, suc, Bool, true, not, ◌∷◌, ◌++◌, [], if◌then◌else◌, Option, none, some,
}
use ip_finder.Common.Bytes.{Bytes, codes}
use ip_finder.Common.Int.{ℤ, to_int32}
use ip_finder.Platform.{erase_handle}
use ip_finder.Ssh.{
  CommandResult, empty_result, session_timeout, channel_exec, Process, SshClient, called,
  SessionError, libssh2_error_text,
}

-- What `libssh2_channel_read` gives: bytes, 0 at the end of the stream, or a negative error.
pub data Read : Type 0 where
  block : ℕ → Bytes → Read
  end_of_stream : Read
  read_error : Read

-- A read in front of what the later ones append.
abbrev pub append_read : Read → Option Bytes → Option Bytes
append_read (block c cs) none = none
append_read (block c cs) (some rest) = some (c ∷ (cs ++ rest))
append_read end_of_stream rest = some []
append_read read_error rest = some []

-- A loop over one stream, from its read `i` on, on fuel: `none` when it would go on.
unfoldable pub read_stream : (ℕ → Read) → ℕ → ℕ → Option Bytes
read_stream reads zero i = none
read_stream reads (suc fuel) i =
    let rest = read_stream reads fuel (suc i) in append_read (reads i) rest

-- What libssh2 answers to the calls of one command, in their order.
pub record ExecAnswers : Type 0 where
  pub new_channel : Option ℕ
  pub started : Bool
  pub session_error : SessionError
  pub stdout_reads : ℕ → Read
  pub stderr_reads : ℕ → Read
  pub exit_status : ℤ

abbrev pub failed : Bytes → CommandResult
failed text = record empty_result { error = text }

-- The channel is freed.
abbrev pub free_channel : ℕ → Process → Process
free_channel channel w = record w { channels = erase_handle channel w.channels }

abbrev pub finished : ℤ → Option Bytes → Option Bytes → Option CommandResult
finished exit_status none err = none
finished exit_status (some out) none = none
finished exit_status (some out) (some err) = some (record {
  ok = true;
  exit_code = exit_status;
  stdout_data = out;
  stderr_data = err;
  error = [];
})

-- The two loops, and the result, if both end.
unfoldable pub read_output : ExecAnswers → ℕ → Option CommandResult
unfolding read_stream
read_output a fuel =
    finished a.exit_status (read_stream a.stdout_reads fuel 0) (read_stream a.stderr_reads fuel 0)

abbrev pub freed : ℕ → Process → Option CommandResult → Option (CommandResult × Process)
freed channel w none = none
freed channel w (some result) = some (result, free_channel channel w)

-- With the new channel.
unfoldable pub with_channel :
    ExecAnswers → ℕ → ℕ → ℕ → Bytes → Process → Option (CommandResult × Process)
unfolding read_output libssh2_error_text
with_channel a fuel session channel command process =
    let w =
      called (channel_exec session command)
        (record process { channels = channel ∷ process.channels }) in
    if not a.started
    then some (
      failed (
          libssh2_error_text (some session) a.session_error
            (codes "remote command execution failed")),
      free_channel channel w,
    )
    else freed channel w (read_output a fuel)

abbrev pub on_channel :
    ExecAnswers → ℕ → ℕ → Option ℕ → Bytes → Process → Option (CommandResult × Process)
on_channel a fuel session none command w = some (
  failed (libssh2_error_text (some session) a.session_error (codes "could not open SSH channel")),
  w,
)
on_channel a fuel session (some channel) command w = with_channel a fuel session channel command w

abbrev pub on_session :
    ExecAnswers → ℕ → Option ℕ → Bytes → SshClient → Process → Option (CommandResult × Process)
on_session a fuel none command c w = some (failed (codes "no authenticated SSH session"), w)
on_session a fuel (some session) command c w =
    on_channel a fuel session a.new_channel command
      (called (session_timeout session (to_int32 c.config.command_timeout)) w)

-- `none` means that the fuel ran out in one of the loops.
unfoldable pub execute :
    ExecAnswers → ℕ → Bytes → SshClient → Process → Option (CommandResult × Process)
unfolding with_channel libssh2_error_text
execute a fuel command c w = on_session a fuel c.session command c w
