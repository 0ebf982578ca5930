-- ===== src/Tests/ListedTests.antt =====
-- A login on a device without ifconfig, where "ip -4 addr" is used instead.
use ip_finder.App.Arguments.{Options, default_options}
use ip_finder.App.Session.{Environment, Target, after_login}
use ip_finder.App.Session.Listed.{Lists, Reports, after_login-Reports}
use ip_finder.App.Session.Report.{Finishes}
use ip_finder.Common.{◌≢◌, inl, inr, refl, sym, true, false, List, [], ◌∷◌, none, arith}
use ip_finder.Common.Bytes.{codes}
use ip_finder.Parser.{RemoteInterface}
use ip_finder.Parser.IpAddr.{print_links}
use ip_finder.Scanner.Banner.{SshProbeResult, SshProbeStatus}
use ip_finder.Ssh.Execute.{ExecAnswers, end_of_stream}
use ip_finder.Tests.Dotted.{dotted, dotted-IsInet}
use ip_finder.Tests.IpAddrTests.{links, links_interfaces, links-IsLink, links-Nodup}
use ip_finder.Tests.NetworkTests.{wired}
use ip_finder.Tests.ParserTests.{item}
use ip_finder.Tests.RunTests.{environment}
use ip_finder.Tests.SshTests.{login, logged_in, has_session, printing}

abbrev options : Options
options = record default_options { json = true }

abbrev not_found : ExecAnswers
not_found = record (printing [] end_of_stream) { started = false }

abbrev without_ifconfig : Environment
without_ifconfig = record environment {
  ifconfig = not_found;
  ip_addr = printing (print_links links) end_of_stream;
}

abbrev found_device : SshProbeResult
found_device = record {
  ip = codes "192.168.10.49";
  status = SshProbeStatus.ssh_detected;
  banner = codes "SSH-2.0-x";
}

abbrev target : Target
target = record { iface = wired; stage = codes "subnet-scan"; device = found_device }

abbrev interfaces : List RemoteInterface
interfaces = item "eth0" "192.168.10.50" ∷ item "ens33" "10.20.30.1" ∷ []

abbrev first_finishes : Finishes not_found 3
first_finishes = record {
  out_blocks = 0;
  err_blocks = 0;
  out_stops = refl;
  err_stops = refl;
  out_enough = omega arith;
  err_enough = omega arith;
}

abbrev second_finishes : Finishes (printing (print_links links) end_of_stream) 3
second_finishes = record {
  out_blocks = 1;
  err_blocks = 0;
  out_stops = (refl, refl);
  err_stops = refl;
  out_enough = omega arith;
  err_enough = omega arith;
}

interfaces-Lists : Lists dotted without_ifconfig 0 1 interfaces
interfaces-Lists = inr (
  inr (inl refl),
  (
    links,
    links-IsLink,
    links-Nodup,
    record { channel = λ e. cc; started = refl; exits = refl; output = refl },
    sym links_interfaces,
  ),
)

session_held : (login true).client.session ≢ none
session_held = rw has_session (λ e. cc)

after_login-Reports_example :
    Reports options target
      (login true).client.host_key_status
      interfaces
      (after_login dotted options without_ifconfig target (login true))
after_login-Reports_example =
    after_login-Reports dotted options target interfaces refl dotted-IsInet without_ifconfig
      first_finishes second_finishes (login true) logged_in.0 session_held interfaces-Lists
