-- ===== src/App/Arguments.antt =====
-- main.cpp: the options and their arguments. Times are in milliseconds.
pub mod Valid
use ip_finder.App.{ExitCode, success, usage_error}
use ip_finder.App.Usage.{usage}
use ip_finder.Common.{
  ◌++◌, ℕ, zero, suc, ◌+◌, ◌*◌, ◌-◌, ◌^◌, min, Bool, true, false, List, [], ◌∷◌, ◌==◌, ◌||◌, ltb,
  if◌then◌else◌, Option, none, some, map_option,
}
use ip_finder.Common.Bytes.{Bytes, codes, equal, strip_start}
use ip_finder.Parser.Text.{is_space, is_digit}

pub record Options : Type 0 where
  pub threads : ℕ
  pub ssh_user : Bytes
  pub password_env : Bytes
  pub ssh_password : Bytes
  pub password_from_cli : Bool
  pub json : Bool
  pub verbose : Bool
  pub strict_host_key : Bool
  pub connect_timeout : ℕ
  pub banner_timeout : ℕ
  pub auth_timeout : ℕ
  pub command_timeout : ℕ
  pub layer2_window : ℕ
  pub interface_hint : Bytes
  pub select_candidate : Bytes
  pub mock_ifconfig_file : Bytes

abbrev pub default_options : Options
default_options = record {
  threads = 32;
  ssh_user = codes "root";
  password_env = codes "DEVICE_SSH_PASSWORD";
  ssh_password = [];
  password_from_cli = false;
  json = false;
  verbose = false;
  strict_host_key = false;
  connect_timeout = 750;
  banner_timeout = 1000;
  auth_timeout = 5000;
  command_timeout = 5000;
  layer2_window = 4000;
  interface_hint = [];
  select_candidate = [];
  mock_ifconfig_file = [];
}

-- The digits that `strtoll` reads, if they are all that is left.
unfoldable pub read_digits : ℕ → Bytes → Option ℕ
read_digits value [] = some value
read_digits value (c ∷ cs) =
    let more = read_digits (value * 10 + (c - b'0')) cs in if is_digit c then more else none

abbrev at_least_one : Bytes → Option ℕ
at_least_one [] = none
at_least_one (c ∷ cs) = read_digits 0 (c ∷ cs)

-- Behind the white space: a minus sign makes the value 0 or less.
abbrev after_sign : Bytes → Option ℕ
after_sign [] = none
after_sign (c ∷ cs) =
    if c == b'-' then none else if c == b'+' then at_least_one cs else at_least_one (c ∷ cs)

-- `strtoll` stops at LLONG_MAX.
abbrev positive : Option ℕ → Option ℕ
positive none = none
positive (some zero) = none
positive (some (suc n)) = some (min (suc n) (2 ^ 63 - 1))

unfoldable pub parse_positive : Bytes → Option ℕ
parse_positive text = positive (after_sign (strip_start is_space text))

-- What an argument is: the help, a flag, one that takes the next argument, with what it requires
-- there, or unknown.
pub data Argument : Type 0 where
  help : Argument
  flag : (Options → Options) → Argument
  valued : Bytes → (Bytes → Options → Option Options) → Argument
  unknown : Argument

-- A positive number of milliseconds.
abbrev pub next_ms : (ℕ → Options → Options) → Argument
next_ms store =
    valued (codes "a positive millisecond value")
      (λ text o. map_option (λ n. store n o) (parse_positive text))

abbrev pub next_value : (Bytes → Options → Options) → Argument
next_value store = valued (codes "a value") (λ text o. some (store text o))

abbrev pub threads_from : Options → Option ℕ → Option Options
threads_from o none = none
threads_from o (some n) = if ltb 1024 n then none else some (record o { threads = n })

-- The chain of comparisons.
unfoldable pub argument : Bytes → Argument
argument arg =
    if equal arg (codes "-h") || equal arg (codes "--help")
    then help
    else if equal arg (codes "--json")
    then flag (λ o. record o { json = true })
    else if equal arg (codes "--verbose")
    then flag (λ o. record o { verbose = true })
    else if equal arg (codes "--strict-host-key")
    then flag (λ o. record o { strict_host_key = true })
    else if equal arg (codes "--threads")
    then valued (codes "a value between 1 and 1024")
        (λ text o. threads_from o (parse_positive text))
    else if equal arg (codes "--ssh-user")
    then next_value (λ t o. record o { ssh_user = t })
    else if equal arg (codes "--ssh-password")
    then next_value (λ t o. record o { ssh_password = t; password_from_cli = true })
    else if equal arg (codes "--ssh-password-env")
    then next_value (λ t o. record o { password_env = t })
    else if equal arg (codes "--interface")
    then next_value (λ t o. record o { interface_hint = t })
    else if equal arg (codes "--select")
    then next_value (λ t o. record o { select_candidate = t })
    else if equal arg (codes "--mock-ifconfig")
    then next_value (λ t o. record o { mock_ifconfig_file = t })
    else if equal arg (codes "--timeout")
    then next_ms (λ n o. record o { connect_timeout = n })
    else if equal arg (codes "--banner-timeout")
    then next_ms (λ n o. record o { banner_timeout = n })
    else if equal arg (codes "--auth-timeout")
    then next_ms (λ n o. record o { auth_timeout = n })
    else if equal arg (codes "--command-timeout")
    then next_ms (λ n o. record o { command_timeout = n })
    else if equal arg (codes "--layer2-window")
    then next_ms (λ n o. record o { layer2_window = n })
    else unknown

-- The options, or the exit code with which the program ends at once, what it writes to the error
-- stream, and its output.
pub data Parsed : Type 0 where
  accepted : Options → Parsed
  stopped : ExitCode → List Bytes → Bytes → Parsed

abbrev pub asked_for_help : Parsed
asked_for_help = stopped success [] usage

-- The end where the argument lacks what it requires.
abbrev pub requires : Bytes → Bytes → Parsed
requires arg requirement =
    stopped usage_error
      ((codes "Error: " ++ arg ++ codes " requires " ++ requirement ++ codes "\n") ∷ []) []

abbrev pub is_unknown : Bytes → Parsed
is_unknown arg =
    stopped usage_error ((codes "Error: unknown argument '" ++ arg ++ codes "'\n") ∷ []) usage

abbrev pub on_options : Parsed → (Options → Parsed) → Option Options → Parsed
on_options refusal next none = refusal
on_options refusal next (some o) = next o

-- The last argument.
abbrev pub at_last : Bytes → Argument → Options → Parsed
at_last arg help o = asked_for_help
at_last arg (flag set) o = accepted (set o)
at_last arg (valued requirement read) o = requires arg requirement
at_last arg unknown o = is_unknown arg

-- An argument with the next one, and what follows either of them.
abbrev pub at_argument :
    Bytes → Argument → Bytes → (Options → Parsed) → (Options → Parsed) → Options → Parsed
at_argument arg help value next after_next o = asked_for_help
at_argument arg (flag set) value next after_next o = next (set o)
at_argument arg (valued requirement read) value next after_next o =
    on_options (requires arg requirement) after_next (read value o)
at_argument arg unknown value next after_next o = is_unknown arg

-- The loop over `argv`, from its second element on.
unfoldable pub parse_options : List Bytes → Options → Parsed
parse_options [] o = accepted o
parse_options (arg ∷ []) o = at_last arg (argument arg) o
parse_options (arg ∷ value ∷ rest) o =
    at_argument arg (argument arg) value (parse_options (value ∷ rest)) (parse_options rest) o
