-- ===== src/Tests/RunTests.antt =====
-- A run that finds one device on a link of two hosts, with two passwords.
use ip_finder.App.{ExitCode, usage_error}
use ip_finder.App.Arguments.{Options, default_options, accepted, argument, parse_options}
use ip_finder.App.Run.{select_password, run, main}
use ip_finder.App.Run.Whole.{IsExit, WaitsEnd, main-Exits}
use ip_finder.App.Run.Device.{IsEnough}
use ip_finder.App.Run.Secret.{run-redact}
use ip_finder.App.Session.{Environment, Ran}
use ip_finder.App.Session.Clean.{Ends, IsClean}
use ip_finder.App.Session.Secret.{redact_ran}
use ip_finder.Common.{
  sym, ◌∙◌, subst, List, ℕ, ◌≡◌, refl, true, [], ◌∷◌, Option, none, some, map_option, arith,
}
use ip_finder.Common.Bytes.{Bytes, codes, equal}
use ip_finder.Network.Arp.Capture.{no_packet, Round, Link}
use ip_finder.Common.Int.{after_ms, pos}
use ip_finder.Ssh.Execute.{end_of_stream}
use ip_finder.Tests.Dotted.{dotted, dotted-IsInet}
use ip_finder.Tests.NetworkTests.{ethernet, hyper_v, needing, peers, peers-IsOrderly}
use ip_finder.Tests.ScannerTests.{has_error}
use ip_finder.Tests.SshTests.{idle, answers, printing}

abbrev round : ℕ → Round
round i = record { now = 4000000000; poll = pos 0; received = no_packet }

abbrev link : Link
link = record {
  winsock_ready = true;
  new_socket = some 7;
  socket_error = 0;
  elevated = true;
  bound = true;
  bind_error = 0;
  promiscuous = true;
  ioctl_error = 0;
  start = 0;
  rounds = round;
}

abbrev listing : Bytes
listing =
    codes "eth0: flags=4163<UP>  mtu 1500\n        inet 192.168.10.49  netmask 255.255.255.252\n"

abbrev pub environment : Environment
environment = record {
  mock_file = none;
  getenv = λ name. none;
  query = needing (hyper_v ∷ ethernet ∷ []);
  first_peers = peers;
  second_peers = λ address. none;
  layer2 = record {
    token = record { opened = true; was_read = true; elevated = true };
    link = link;
    first = none;
    second = none;
    fuel = 3;
  };
  format_message = λ code. none;
  ssh = answers true;
  ifconfig = printing listing end_of_stream;
  ip_addr = printing [] end_of_stream;
  fuel = 3;
}

abbrev with_secret : Bytes → Options
with_secret password = record default_options {
  ssh_password = password;
  password_from_cli = true;
  json = true;
}

enough : IsEnough (with_secret (codes "secret")) environment
unfolding after_ms
enough = record {
  explained = has_error 0;
  first_orderly = peers-IsOrderly;
  second_orderly = λ a p e. cc;
  bound = 5000;
  timeouts = record {
    short = omega arith;
    slice = omega arith;
    connects = omega arith;
    banners = omega arith;
    logins = omega arith;
  };
  round = 0;
  in_time = omega arith;
  late = omega arith;
  ifconfig_ends = record {
    out_blocks = 1;
    err_blocks = 0;
    out_stops = (refl, refl);
    err_stops = refl;
    out_enough = omega arith;
    err_enough = omega arith;
  };
  ip_addr_ends = record {
    out_blocks = 0;
    err_blocks = 0;
    out_stops = refl;
    err_stops = refl;
    out_enough = omega arith;
    err_enough = omega arith;
  };
}

abbrev code_of : Option Ran → Option (ExitCode × Bytes)
code_of none = none
code_of (some r) = some (r.code, r.output)

unset : code_of (run dotted default_options environment idle) ≡ some (usage_error, [])
unfolding run
unset = refl

has_password :
    (c : ℕ) (cs : Bytes) → select_password (with_secret (c ∷ cs)) environment.getenv ≡ some (c ∷ cs)
unfolding select_password
has_password c cs = refl

run-redact_example :
    map_option redact_ran (run dotted (with_secret (codes "secret")) environment idle)
    ≡ map_option redact_ran (run dotted (with_secret (codes "hunter2")) environment idle)
run-redact_example =
    run-redact dotted (with_secret (codes "secret")) (with_secret (codes "hunter2")) environment
      environment idle (codes "secret") (codes "hunter2") (has_password _ _) (has_password _ _) refl
      refl

abbrev arguments : List Bytes
arguments = codes "--json" ∷ codes "--ssh-password" ∷ codes "secret" ∷ []

parses : parse_options arguments default_options ≡ accepted (with_secret (codes "secret"))
unfolding parse_options argument equal
parses = refl

environment-IsEnough :
    (options : Options)
    → parse_options arguments default_options ≡ accepted options
    → IsEnough options environment
environment-IsEnough options e =
    let both : accepted (with_secret (codes "secret")) ≡ accepted options = sym parses ∙ e in
    let same : with_secret (codes "secret") ≡ options = ground arith in
    subst (λ o. IsEnough o environment) same enough

main-Exits_example :
    (r : Ran) × (main dotted true arguments environment idle ≡ some r)
    × IsClean idle r.process
    × WaitsEnd r.process
    × IsExit dotted arguments environment r
main-Exits_example =
    main-Exits dotted dotted-IsInet true arguments environment idle environment-IsEnough refl refl
