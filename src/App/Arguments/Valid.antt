-- ===== src/App/Arguments/Valid.antt =====
-- Which options are accepted.
use ip_finder.App.{ExitCode, success, usage_error}
use ip_finder.App.Arguments.{
  Options, default_options, positive, parse_positive, Argument, help, flag, valued, unknown,
  asked_for_help, requires, is_unknown, next_ms, next_value, threads_from, argument, Parsed,
  accepted, stopped, on_options, at_last, at_argument, parse_options,
}
use ip_finder.App.Usage.{usage}
use ip_finder.Common.{
  map_option, ℕ, zero, suc, ◌^◌, ◌<◌, ◌≤◌, subst, Bool-cases, ◌≡◌, ◌⊎◌, refl, ◌||◌, List, [], ◌∷◌,
  ltb, if-cases, Option, none, some, inl, inr, arith,
}
use ip_finder.Common.Bytes.{Bytes, codes, equal}

-- A number of milliseconds that a `long long` holds, and that is positive.
abbrev pub IsTime : ℕ → Type 0
IsTime n = (0 < n) × (n < 2 ^ 63)

pub record IsBounded (threads connect banner auth command layer2 : ℕ) : Type 0 where
  pub some_thread : 0 < threads
  pub few_threads : threads ≤ 1024
  pub connect_time : IsTime connect
  pub banner_time : IsTime banner
  pub auth_time : IsTime auth
  pub command_time : IsTime command
  pub layer2_time : IsTime layer2

-- From 1 to 1024 threads, and every time limit positive.
abbrev pub IsValid : Options → Type 0
IsValid o =
    IsBounded o.threads o.connect_timeout o.banner_timeout o.auth_timeout o.command_timeout
      o.layer2_window

default-IsValid : IsValid default_options
default-IsValid = record {
  some_thread = omega arith;
  few_threads = omega arith;
  connect_time = (omega arith, omega arith);
  banner_time = (omega arith, omega arith);
  auth_time = (omega arith, omega arith);
  command_time = (omega arith, omega arith);
  layer2_time = (omega arith, omega arith);
}

positive-IsTime : (m : Option ℕ) (n : ℕ) → positive m ≡ some n → IsTime n
positive-IsTime none n h = cc
positive-IsTime (some zero) n h = cc
positive-IsTime (some (suc k)) n h = ground arith

parse_positive-IsTime : (text : Bytes) (n : ℕ) → parse_positive text ≡ some n → IsTime n
unfolding parse_positive
parse_positive-IsTime text n h = positive-IsTime _ n h

-- What an argument does keeps the options valid.
abbrev Keeps : Argument → Type 0
Keeps help = Unit
Keeps (flag set) = (o : Options) → IsValid o → IsValid (set o)
Keeps (valued requirement read) =
    (text : Bytes) (o q : Options) → read text o ≡ some q → IsValid o → IsValid q
Keeps unknown = Unit

-- The end of a call for help, without an error, or of a misuse, with one line of error.
abbrev pub IsStop : ExitCode → List Bytes → Bytes → Type 0
IsStop code messages output =
    ((code ≡ success) × (messages ≡ []) × (output ≡ usage))
    ⊎ ((code ≡ usage_error)
        × ((e : Bytes) × (messages ≡ e ∷ []))
        × ((output ≡ []) ⊎ (output ≡ usage)))

-- Accepted options are valid; otherwise the program ends with the help or as misused.
abbrev pub IsOutcome : Parsed → Type 0
IsOutcome (accepted o) = IsValid o
IsOutcome (stopped code messages output) = IsStop code messages output

help-IsStop : IsOutcome asked_for_help
help-IsStop = inl (refl, refl, refl)

requires-IsStop : (arg requirement : Bytes) → IsOutcome (requires arg requirement)
requires-IsStop arg requirement = inr (refl, (_, refl), inl refl)

unknown-IsStop : (arg : Bytes) → IsOutcome (is_unknown arg)
unknown-IsStop arg = inr (refl, (_, refl), inr refl)

next_ms-Keeps :
    (store : ℕ → Options → Options)
    → ((n : ℕ) (o : Options) → IsTime n → IsValid o → IsValid (store n o))
    → Keeps (next_ms store)
next_ms-Keeps store h text o q e v = with_number (parse_positive text) refl e
  where
    with_number :
        (m : Option ℕ)
        → parse_positive text ≡ m
        → map_option (λ n. store n o) m ≡ some q
        → IsValid q
    with_number none p e = cc
    with_number (some n) p e =
        let same : store n o ≡ q = ground arith in
        subst IsValid same (h n o (parse_positive-IsTime text n p) v)

next_value-Keeps :
    (store : Bytes → Options → Options)
    → ((t : Bytes) (o : Options) → IsValid o → IsValid (store t o))
    → Keeps (next_value store)
next_value-Keeps store h text o q e v =
    let same : store text o ≡ q = ground arith in subst IsValid same (h text o v)

threads-Keeps :
    Keeps
      (valued (codes "a value between 1 and 1024") (λ text o. threads_from o (parse_positive text)))
threads-Keeps text o q e v = with_number (parse_positive text) refl e
  where
    with_number : (m : Option ℕ) → parse_positive text ≡ m → threads_from o m ≡ some q → IsValid q
    with_number none p e = cc
    with_number (some n) p e = elim (Bool-cases (ltb 1024 n)) [
      | inl many ↦ absurd (ground arith)
      | inr few ↦
          let same : record o { threads = n } ≡ q = ground arith in
          subst IsValid same (record {
            some_thread = (parse_positive-IsTime text n p).0;
            few_threads = ground arith;
            connect_time = v.connect_time;
            banner_time = v.banner_time;
            auth_time = v.auth_time;
            command_time = v.command_time;
            layer2_time = v.layer2_time;
          })
    ]

argument-Keeps : (arg : Bytes) → Keeps (argument arg)
unfolding argument
argument-Keeps arg =
    if-cases Keeps (equal arg (codes "-h") || equal arg (codes "--help")) _ _ (λ _. tt)
      λ _.
        if-cases Keeps (equal arg (codes "--json")) _ _ (λ _ o v. v)
          λ _.
            if-cases Keeps (equal arg (codes "--verbose")) _ _ (λ _ o v. v)
              λ _.
                if-cases Keeps (equal arg (codes "--strict-host-key")) _ _ (λ _ o v. v)
                  λ _.
                    if-cases Keeps (equal arg (codes "--threads")) _ _ (λ _. threads-Keeps)
                      λ _.
                        if-cases Keeps (equal arg (codes "--ssh-user")) _ _
                          (λ _. next_value-Keeps _ (λ t o v. v))
                          λ _.
                            if-cases Keeps (equal arg (codes "--ssh-password")) _ _
                              (λ _. next_value-Keeps _ (λ t o v. v))
                              λ _.
                                if-cases Keeps (equal arg (codes "--ssh-password-env")) _ _
                                  (λ _. next_value-Keeps _ (λ t o v. v))
                                  λ _.
                                    if-cases Keeps (equal arg (codes "--interface")) _ _
                                      (λ _. next_value-Keeps _ (λ t o v. v))
                                      λ _.
                                        if-cases Keeps (equal arg (codes "--select")) _ _
                                          (λ _. next_value-Keeps _ (λ t o v. v))
                                          λ _.
                                            if-cases Keeps (equal arg (codes "--mock-ifconfig")) _ _
                                              (λ _. next_value-Keeps _ (λ t o v. v))
                                              λ _.
                                                if-cases Keeps (equal arg (codes "--timeout")) _ _
                                                  (λ _. next_ms-Keeps _ (λ n o t v. record {
                                                    some_thread = v.some_thread;
                                                    few_threads = v.few_threads;
                                                    connect_time = t;
                                                    banner_time = v.banner_time;
                                                    auth_time = v.auth_time;
                                                    command_time = v.command_time;
                                                    layer2_time = v.layer2_time;
                                                  }))
                                                  λ _.
                                                    if-cases Keeps
                                                      (equal arg (codes "--banner-timeout")) _ _
                                                      (λ _. next_ms-Keeps _ (λ n o t v. record {
                                                        some_thread = v.some_thread;
                                                        few_threads = v.few_threads;
                                                        connect_time = v.connect_time;
                                                        banner_time = t;
                                                        auth_time = v.auth_time;
                                                        command_time = v.command_time;
                                                        layer2_time = v.layer2_time;
                                                      }))
                                                      λ _.
                                                        if-cases Keeps
                                                          (equal arg (codes "--auth-timeout")) _ _
                                                          (λ _. next_ms-Keeps _ (λ n o t v. record {
                                                            some_thread = v.some_thread;
                                                            few_threads = v.few_threads;
                                                            connect_time = v.connect_time;
                                                            banner_time = v.banner_time;
                                                            auth_time = t;
                                                            command_time = v.command_time;
                                                            layer2_time = v.layer2_time;
                                                          }))
                                                          λ _.
                                                            if-cases Keeps
                                                            (equal arg (codes "--command-timeout"))
                                                            _ _
                                                            (λ _. next_ms-Keeps _ (λ n o t v.
                                                            record {
                                                            some_thread = v.some_thread;
                                                            few_threads = v.few_threads;
                                                            connect_time = v.connect_time;
                                                            banner_time = v.banner_time;
                                                            auth_time = v.auth_time;
                                                            command_time = t;
                                                            layer2_time = v.layer2_time;
                                                            }))
                                                            λ _.
                                                            if-cases Keeps
                                                            (equal arg (codes "--layer2-window")) _
                                                            _
                                                            (λ _. next_ms-Keeps _ (λ n o t v.
                                                            record {
                                                            some_thread = v.some_thread;
                                                            few_threads = v.few_threads;
                                                            connect_time = v.connect_time;
                                                            banner_time = v.banner_time;
                                                            auth_time = v.auth_time;
                                                            command_time = v.command_time;
                                                            layer2_time = t;
                                                            }))
                                                            λ _. tt

parse_options-IsOutcome :
    (args : List Bytes) (o : Options) → IsValid o → IsOutcome (parse_options args o)
unfolding parse_options
parse_options-IsOutcome [] o v = v
parse_options-IsOutcome (arg ∷ []) o v = last (argument arg) (argument-Keeps arg)
  where
    last : (a : Argument) → Keeps a → IsOutcome (at_last arg a o)
    last help k = help-IsStop
    last (flag set) k = k o v
    last (valued requirement read) k = requires-IsStop arg requirement
    last unknown k = unknown-IsStop arg
parse_options-IsOutcome (arg ∷ value ∷ rest) o v =
    step (argument arg) (argument-Keeps arg) (parse_options-IsOutcome (value ∷ rest))
      (parse_options-IsOutcome rest)
  where
    step :
        (a : Argument)
        → Keeps a
        → ((q : Options) → IsValid q → IsOutcome (parse_options (value ∷ rest) q))
        → ((q : Options) → IsValid q → IsOutcome (parse_options rest q))
        → IsOutcome (at_argument arg a value (parse_options (value ∷ rest)) (parse_options rest) o)
    step help k next later = help-IsStop
    step (flag set) k next later = next (set o) (k o v)
    step (valued requirement read) k next later = read_result (read value o) refl
      where
        read_result :
            (m : Option Options)
            → read value o ≡ m
            → IsOutcome (on_options (requires arg requirement) (parse_options rest) m)
        read_result none e = requires-IsStop arg requirement
        read_result (some q) e = later q (k value o q e v)
    step unknown k next later = unknown-IsStop arg

-- Whatever the arguments: the program ends at once, with the help and the code of a success, or
-- with one error message and the code of a misuse; or it goes on with 1 to 1024 threads and with
-- time limits that are positive and below 2^63 ms.
pub parse_options_lem : (args : List Bytes) → IsOutcome (parse_options args default_options)
parse_options_lem args = parse_options-IsOutcome args default_options default-IsValid
