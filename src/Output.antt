-- ===== src/Output.antt =====
-- output/formatter.{hpp,cpp}: both reports, as bytes.
pub mod Escape
pub mod Report
use ip_finder.Common.{
  ℕ, zero, suc, ◌+◌, ◌-◌, ◌/◌, ◌%◌, max, Bool, true, false, List, [], ◌∷◌, ◌++◌, ◌==◌, ltb,
  if◌then◌else◌, is_empty, length, replicate,
}
use ip_finder.Common.Bytes.{Bytes, codes, hex_digit}
use ip_finder.Parser.{RemoteInterface}

pub record DiscoveryReport : Type 0 where
  pub interface_name : Bytes
  pub ssh_ip : Bytes
  pub ssh_banner : Bytes
  pub host_key_status : Bytes
  pub discovery_stage : Bytes
  pub interfaces : List RemoteInterface
  pub warnings : List Bytes

-- One round of the loop of `json_escape`: the switch over the byte.
unfoldable pub escaped : ℕ → Bytes
escaped c =
    if c == b'"'
    then codes "\\\""
    else if c == b'\\'
    then codes "\\\\"
    else if c == b'\n'
    then codes "\\n"
    else if c == b'\r'
    then codes "\\r"
    else if c == b'\t'
    then codes "\\t"
    else if ltb c 0x20
    then b'\\' ∷ b'u' ∷ b'0' ∷ b'0' ∷ hex_digit (c / 16) ∷ hex_digit (c % 16) ∷ []
    else c ∷ []

unfoldable pub json_escape : Bytes → Bytes
unfolding escaped
json_escape [] = []
json_escape (c ∷ value) = escaped c ++ json_escape value

-- `<< std::left << std::setw(width)`
abbrev padded : ℕ → Bytes → Bytes
padded width t = t ++ replicate (width - length t) b' '

abbrev text_if : Bool → Bytes → Bytes
text_if true t = t
text_if false t = []

-- The loop that finds the longest name.
abbrev pub name_width : ℕ → List RemoteInterface → ℕ
name_width width [] = width
name_width width (i ∷ is) = name_width (max width (length i.name)) is

abbrev pub interface_lines : ℕ → List RemoteInterface → Bytes
interface_lines width [] = []
interface_lines width (i ∷ is) =
    codes "  " ++ padded (width + 2) i.name ++ i.ipv4 ++ codes "\n" ++ interface_lines width is

abbrev pub warning_lines : List Bytes → Bytes
warning_lines [] = []
warning_lines (w ∷ ws) = codes "WARNING: " ++ w ++ codes "\n" ++ warning_lines ws

abbrev pub via_line : DiscoveryReport → Bytes
via_line r =
    if is_empty r.interface_name
    then []
    else codes "  Via:      "
      ++ r.interface_name
      ++ (if is_empty r.discovery_stage then [] else codes " (" ++ r.discovery_stage ++ codes ")")
      ++ codes "\n"

abbrev pub endpoint_lines : DiscoveryReport → Bytes
endpoint_lines r =
    if is_empty r.ssh_ip
    then codes "Network interfaces:\n"
    else codes "Directly connected device discovered\n\nSSH endpoint:\n  IP:       "
      ++ r.ssh_ip
      ++ codes "\n  Banner:   "
      ++ r.ssh_banner
      ++ codes "\n"
      ++ via_line r
      ++ (if is_empty r.host_key_status
          then []
          else codes "  Host key: " ++ r.host_key_status ++ codes "\n")
      ++ codes "\nNetwork interfaces:\n"

unfoldable pub format_text : DiscoveryReport → Bytes
format_text r =
    endpoint_lines r
    ++ (if is_empty r.interfaces
        then codes "  (none found)\n"
        else interface_lines (name_width 4 r.interfaces) r.interfaces)
    ++ (if is_empty r.warnings then [] else codes "\n" ++ warning_lines r.warnings)

-- A label, an escaped value, and the rest, which starts with the closing quote.
abbrev pub quoted : Bytes → Bytes → Bytes → Bytes
quoted label value rest = label ++ (json_escape value ++ (b'"' ∷ rest))

-- The loop over a list, and the bracket behind it.
abbrev pub json_items : {A : Type 0} → (A → Bytes → Bytes) → Bool → List A → Bytes → Bytes
json_items item first [] rest = (if first then codes "]" else codes "\n  ]") ++ rest
json_items item first (x ∷ xs) rest =
    (if first then codes "\n" else codes ",\n") ++ item x (json_items item false xs rest)

abbrev pub interface_item : RemoteInterface → Bytes → Bytes
interface_item i rest =
    quoted (codes "    {\n      \"name\": \"") i.name
      (quoted (codes ",\n      \"ipv4\": \"") i.ipv4 (codes "\n    }" ++ rest))

abbrev pub warning_item : Bytes → Bytes → Bytes
warning_item w rest = quoted (codes "    \"") w rest

unfoldable pub format_json : DiscoveryReport → Bytes
unfolding json_escape
format_json r = quoted (codes "{\n  \"ssh_ip\": \"") r.ssh_ip (
    quoted (codes ",\n  \"ssh_banner\": \"") r.ssh_banner (
      quoted (codes ",\n  \"local_interface\": \"") r.interface_name (
        quoted (codes ",\n  \"discovery_stage\": \"") r.discovery_stage (
          quoted (codes ",\n  \"host_key_status\": \"") r.host_key_status (
            codes ",\n  \"interfaces\": ["
            ++ json_items interface_item true r.interfaces (
                codes ",\n  \"warnings\": ["
                ++ json_items warning_item true r.warnings (codes "\n}\n")))))))
