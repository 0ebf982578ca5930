-- ===== src/App/Messages.antt =====
-- main.cpp: what is written to the error stream up to the login.
use ip_finder.App.{parse_either}
use ip_finder.App.Arguments.{Options}
use ip_finder.App.Stages.{with_prefix}
use ip_finder.Common.{List, [], ◌∷◌, ◌++◌, map, if◌then◌else◌, is_empty, Option, none, some}
use ip_finder.Common.Bytes.{Bytes, codes}
use ip_finder.Inet.{Inet}
use ip_finder.Network.Interface.{NetworkInterface}
use ip_finder.Scanner.Banner.{SshProbeResult}

-- The messages of `run_mock_mode`.
unfoldable pub mock_messages : Inet → Bytes → Option Bytes → List Bytes
mock_messages net path none = (codes "Error: could not read " ++ path ++ codes "\n") ∷ []
mock_messages net path (some contents) =
    if is_empty (parse_either net contents)
    then (codes "Error: could not parse network interfaces from " ++ path ++ codes "\n") ∷ []
    else []

-- The messages of `select_interface`.
abbrev pub selection_messages : List NetworkInterface → List Bytes
selection_messages [] =
    (codes "Error: No suitable network interface found.\n"
      ++ codes "       Looked for an adapter that is connected, non-loopback,\n"
      ++ codes "       non-virtual and carrying an IPv4 address.\n")
    ∷ []
selection_messages (i ∷ []) = []
selection_messages (i ∷ j ∷ is) =
    codes "Error: Multiple candidate interfaces found; refusing to guess.\n"
    ∷ (map
          (λ (k : NetworkInterface).
            codes "       " ++ k.name ++ codes " " ++ with_prefix k ++ codes "\n")
          (i ∷ j ∷ is)
        ++ (codes "       Disconnect the unrelated links or pass --interface NAME.\n" ∷ []))

unfoldable pub password_messages : Options → List Bytes
password_messages options =
    if options.password_from_cli
    then codes "Error: --ssh-password requires a non-empty value.\n" ∷ []
    else (codes "Error: SSH password not configured.\n"
        ++ codes "       Pass --ssh-password, or set the environment variable "
        ++ options.password_env
        ++ codes " (see --ssh-password-env).\n")
      ∷ []

-- The messages about the devices that were found, where the choice of one gives no device.
unfoldable pub device_messages :
    Options → NetworkInterface → Bytes → List SshProbeResult → List Bytes
device_messages options iface diagnostic [] =
    (codes "Error: No device discovered on " ++ iface.name ++ codes ".\n")
    ∷ (if is_empty diagnostic then [] else (codes "       " ++ diagnostic ++ codes "\n") ∷ [])
device_messages options iface diagnostic (d ∷ ds) =
    if is_empty options.select_candidate
    then codes "WARNING: multiple SSH devices discovered\n"
      ∷ (map (λ (e : SshProbeResult). codes "  " ++ e.ip ++ codes "  " ++ e.banner ++ codes "\n")
            (d ∷ ds)
          ++ (codes "Refusing to authenticate automatically; re-run with --select IP.\n" ∷ []))
    else (codes "Error: --select "
        ++ options.select_candidate
        ++ codes " does not match any discovered device.\n")
      ∷ []
