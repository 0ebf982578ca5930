-- ===== src/Tests/AppTests.antt =====
-- The offline mode, and the choice of an interface and a device.
use mathlib.Core.List.{Mem}
use ip_finder.App.{
  success, multiple_devices, usage_error, mock_report, run_mock_mode, select_interface, find_device,
  choose_device,
}
use ip_finder.App.Arguments.{
  default_options, parse_positive, read_digits, argument, accepted, stopped, parse_options,
}
use ip_finder.App.Arguments.Valid.{IsOutcome, parse_options_lem}
use ip_finder.App.Choice.{IsChoice, choose_device-IsChoice, matches, select_interface-only}
use ip_finder.App.Mock.{run_mock_mode-print_blocks}
use ip_finder.Common.{
  ◌<◌, ◌≡◌, ◌↔◌, refl, true, false, List, [], ◌∷◌, All, length, is_empty, none, some, arith,
}
use ip_finder.Common.Bytes.{Bytes, codes, equal, strip_start}
use ip_finder.Common.Decimal.{decimal}
use ip_finder.Network.Interface.{
  discover_candidate_interfaces, candidate_of, parse_ipv4, is_virtual_interface_name,
}
use ip_finder.Output.Report.{read_report}
use ip_finder.Parser.Listing.{print_blocks, listed}
use ip_finder.Parser.Text.{is_space, is_digit}
use ip_finder.Scanner.Banner.{SshProbeStatus, SshProbeResult}
use ip_finder.Tests.Dotted.{dotted, dotted-IsInet}
use ip_finder.Tests.NetworkTests.{ethernet, hyper_v, wired}
use ip_finder.Tests.ParserTests.{listing, listing-IsBlock, listing-Nodup, listing_interfaces}

abbrev device : Bytes → SshProbeResult
device ip = record { ip = ip; status = SshProbeStatus.ssh_detected; banner = codes "SSH-2.0-x" }

abbrev devices : List SshProbeResult
devices = device (codes "10.0.0.2") ∷ device (codes "10.0.0.3") ∷ []

unselected : (choose_device [] devices).0 ≡ multiple_devices
unfolding choose_device
unselected = refl

selected : choose_device (codes "10.0.0.3") devices ≡ (success, some (device (codes "10.0.0.3")))
unfolding choose_device find_device equal
selected = refl

number : decimal 2048 2047 ≡ codes "2047"
unfolding decimal
number = refl

unreadable : run_mock_mode dotted true none ≡ (usage_error, [])
unfolding run_mock_mode
unreadable = refl

choose_device-IsChoice_example :
    IsChoice (codes "10.0.0.3") devices (choose_device (codes "10.0.0.3") devices)
choose_device-IsChoice_example = choose_device-IsChoice (codes "10.0.0.3") devices

adapters : select_interface dotted [] (hyper_v ∷ ethernet ∷ []) ≡ (success, some wired)
unfolding select_interface discover_candidate_interfaces candidate_of parse_ipv4
    is_virtual_interface_name dotted
adapters = refl

select_interface-only_example :
    All
      (λ j. matches [] j ≡ true → j ≡ wired)
      (discover_candidate_interfaces dotted (hyper_v ∷ ethernet ∷ []))
    × Mem wired (discover_candidate_interfaces dotted (hyper_v ∷ ethernet ∷ []))
    × (matches [] wired ≡ true)
select_interface-only_example =
    select_interface-only dotted [] (hyper_v ∷ ethernet ∷ []) wired adapters

some_listed : is_empty (listed listing) ≡ false
some_listed = rw listing_interfaces refl

few : length (listed listing) < 9
few = rw listing_interfaces (omega arith)

run_mock_mode-print_blocks_example :
    (((run_mock_mode dotted true (some (print_blocks listing))).0 ≡ success)
      ↔ (length (listed listing) ≡ 2))
    × (read_report 9 (run_mock_mode dotted true (some (print_blocks listing))).1
        ≡ some (mock_report (listed listing)))
run_mock_mode-print_blocks_example =
    run_mock_mode-print_blocks dotted listing 9 dotted-IsInet listing-IsBlock listing-Nodup
      some_listed few (omega arith)

abbrev arguments : List Bytes
arguments = codes "--json" ∷ codes "--timeout" ∷ codes " +800" ∷ []

accepts :
    parse_options arguments default_options
    ≡ accepted (record default_options { json = true; connect_timeout = 800 })
unfolding parse_options argument parse_positive read_digits equal strip_start is_space is_digit
accepts = refl

refuses :
    parse_options (codes "--threads" ∷ codes "1025" ∷ []) default_options
    ≡ stopped usage_error (codes "Error: --threads requires a value between 1 and 1024\n" ∷ []) []
unfolding parse_options argument parse_positive read_digits equal strip_start is_space is_digit
refuses = refl

negative : parse_positive (codes "-5") ≡ none
unfolding parse_positive strip_start is_space
negative = refl

parse_options_lem_example : IsOutcome (parse_options arguments default_options)
parse_options_lem_example = parse_options_lem arguments
