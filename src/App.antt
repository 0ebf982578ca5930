-- ===== src/App.antt =====
-- main.cpp and config.hpp: the offline mode, the choice of the interface and of the device.
-- The standard output is a list of bytes; the messages of the offline mode are in Messages.
pub mod Mock
pub mod Usage
pub mod Choice
pub mod Arguments
pub mod Stages
pub mod Messages
pub mod Session
pub mod Run
use ip_finder.Common.{
  ℕ, zero, suc, ◌+◌, ◌/◌, ◌%◌, Bool, true, false, not, List, [], ◌∷◌, ◌++◌, ◌==◌, ltb,
  if◌then◌else◌, is_empty, keep, length, Option, none, some,
}
use ip_finder.Common.Bytes.{Bytes, codes, equal}
use ip_finder.Common.Decimal.{to_string}
use ip_finder.Inet.{Inet}
use ip_finder.Network.Interface.{NetworkInterface, Adapter, discover_candidate_interfaces}
use ip_finder.Output.{DiscoveryReport, format_text, format_json}
use ip_finder.Parser.{RemoteInterface, parse_ifconfig_output, parse_ip_addr_output}
use ip_finder.Scanner.Banner.{SshProbeResult}

pub data ExitCode : Type 0 where
  success usage_error no_interface multiple_interfaces no_device multiple_devices : ExitCode
  ssh_connection_failed ssh_auth_failed remote_command_failed parse_failed : ExitCode
  unexpected_interface_count : ExitCode

-- What both modes warn of.
abbrev pub count_warnings : List RemoteInterface → List Bytes
count_warnings interfaces =
    if length interfaces == 2
    then []
    else (codes "expected two network interfaces but found " ++ to_string (length interfaces)) ∷ []

-- The exit code of a report that is printed.
abbrev pub count_code : List RemoteInterface → ExitCode
count_code interfaces = if length interfaces == 2 then success else unexpected_interface_count

abbrev pub emit : Bool → DiscoveryReport → Bytes
emit json report = if json then format_json report else format_text report

-- The first parser that finds an interface.
unfoldable pub parse_either : Inet → Bytes → List RemoteInterface
parse_either net contents =
    let interfaces = parse_ifconfig_output net contents in
    if is_empty interfaces then parse_ip_addr_output net contents else interfaces

abbrev pub mock_report : List RemoteInterface → DiscoveryReport
mock_report interfaces = record {
  interface_name = [];
  ssh_ip = [];
  ssh_banner = [];
  host_key_status = [];
  discovery_stage = codes "mock";
  interfaces = interfaces;
  warnings = count_warnings interfaces;
}

-- With the contents of the file, `none` where it cannot be read.
unfoldable pub run_mock_mode : Inet → Bool → Option Bytes → ExitCode × Bytes
run_mock_mode net json none = (usage_error, [])
run_mock_mode net json (some contents) =
    let interfaces = parse_either net contents in
    if is_empty interfaces
    then (parse_failed, [])
    else (count_code interfaces, emit json (mock_report interfaces))

-- `std::remove_if` of the other names, where a hint is given.
abbrev pub hinted : Bytes → List NetworkInterface → List NetworkInterface
hinted hint candidates =
    if is_empty hint then candidates else keep (λ i. equal i.name hint) candidates

abbrev only : List NetworkInterface → ExitCode × Option NetworkInterface
only [] = (no_interface, none)
only (i ∷ []) = (success, some i)
only (i ∷ j ∷ is) = (multiple_interfaces, none)

unfoldable pub select_interface : Inet → Bytes → List Adapter → ExitCode × Option NetworkInterface
select_interface net hint adapters = only (hinted hint (discover_candidate_interfaces net adapters))

-- `std::find_if` for the address that was selected.
unfoldable pub find_device : Bytes → List SshProbeResult → Option SshProbeResult
find_device ip [] = none
find_device ip (d ∷ ds) = if equal d.ip ip then some d else find_device ip ds

abbrev chosen : Option SshProbeResult → ExitCode × Option SshProbeResult
chosen none = (usage_error, none)
chosen (some d) = (success, some d)

-- From the devices that were found to the one that is used.
unfoldable pub choose_device : Bytes → List SshProbeResult → ExitCode × Option SshProbeResult
choose_device select_candidate [] = (no_device, none)
choose_device select_candidate (d ∷ []) = (success, some d)
choose_device select_candidate (d ∷ e ∷ ds) =
    if is_empty select_candidate
    then (multiple_devices, none)
    else chosen (find_device select_candidate (d ∷ e ∷ ds))
