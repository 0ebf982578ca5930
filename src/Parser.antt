-- ===== src/Parser.antt =====
-- parser/ifconfig_parser.{hpp,cpp}: the interfaces in the output of `ifconfig` and `ip -4 addr`.
pub mod Text
mod Words
pub mod Listing
mod Details
mod Append
mod DetailLine
mod HeaderLine
pub mod RoundTrip
pub mod IpAddr
pub mod Sound
use ip_finder.Common.{
  Bool, true, false, ◌&&◌, ◌||◌, List, [], ◌∷◌, ◌++◌, ◌==◌, if◌then◌else◌, is_empty, is_some, any,
  drop,
}
use ip_finder.Common.Bytes.{Bytes, codes, equal, starts_with, contains, before}
use ip_finder.Inet.{Inet}
use Text.{is_space, is_digit, trim, normalize_name, lines, words, word_at, rest_of}

pub record RemoteInterface : Type 0 where
  pub name : Bytes
  pub ipv4 : Bytes

unfoldable pub is_loopback_interface_name : Bytes → Bool
unfolding equal
is_loopback_interface_name name = equal name (codes "lo") || equal name (codes "lo0")

-- `text.c_str()` ends at the first zero byte.
unfoldable pub is_valid_ipv4 : Inet → Bytes → Bool
unfolding before
is_valid_ipv4 net text = is_some (net.pton (before 0 text))

-- What is left of a candidate, and whether it counts: an invalid one ends the search.
unfoldable pub checked : Inet → Bytes → Bytes
unfolding is_valid_ipv4 starts_with before
checked net candidate =
    let bare = if starts_with (codes "addr:") candidate then drop 5 candidate else candidate in
    let address = before b'/' bare in if is_valid_ipv4 net address then address else []

-- The loop over the tokens.
unfoldable pub scan_tokens : Inet → List Bytes → Bytes
unfolding checked equal starts_with word_at
scan_tokens net [] = []
scan_tokens net (token ∷ rest) =
    let later = scan_tokens net rest in
    if equal token (codes "inet")
    then (if is_empty rest then [] else checked net (word_at rest))
    else if starts_with (codes "addr:") token
    then checked net (drop 5 token)
    else later

unfoldable pub extract_inet_address : Inet → Bytes → Bytes
unfolding scan_tokens words trim
extract_inet_address net line = scan_tokens net (words (trim line))

abbrev pub same : RemoteInterface → RemoteInterface → Bool
same a b = equal a.name b.name && equal a.ipv4 b.ipv4

unfoldable pub append : List RemoteInterface → RemoteInterface → List RemoteInterface
unfolding is_loopback_interface_name equal
append interfaces new =
    if is_empty new.name || is_empty new.ipv4 || is_loopback_interface_name new.name
    then interfaces
    else if any (λ existing. same existing new) interfaces
    then interfaces
    else interfaces ++ new ∷ []

-- The variables of the two parsing loops.
pub record Scan : Type 0 where
  pub current : Bytes
  pub interfaces : List RemoteInterface

abbrev pub scan_start : Scan
scan_start = record { current = []; interfaces = [] }

-- The end of both loop bodies: an address on the line belongs to the current interface.
unfoldable pub take_address : Inet → Bytes → Scan → Scan
unfolding extract_inet_address append
take_address net line scan =
    if is_empty scan.current
    then scan
    else (let address = extract_inet_address net line in
        if is_empty address then scan else record scan {
          interfaces = append scan.interfaces (record { name = scan.current; ipv4 = address });
        })

-- One round of the loop of `parse_ifconfig_output`.
unfoldable pub ifconfig_line : Inet → Bytes → Scan → Scan
unfolding take_address is_space words normalize_name word_at
ifconfig_line net [] scan = scan
ifconfig_line net (c ∷ cs) scan =
    let line = c ∷ cs in
    let named = normalize_name (word_at (words line)) in
    take_address net line (record scan { current = if is_space c then scan.current else named })

unfoldable pub ifconfig_lines : Inet → List Bytes → Scan → Scan
unfolding ifconfig_line
ifconfig_lines net [] scan = scan
ifconfig_lines net (line ∷ rest) scan = ifconfig_lines net rest (ifconfig_line net line scan)

unfoldable pub parse_ifconfig_output : Inet → Bytes → List RemoteInterface
unfolding ifconfig_lines lines
parse_ifconfig_output net output = (ifconfig_lines net (lines output) scan_start).interfaces

-- One round of the loop of `parse_ip_addr_output`, on the trimmed line.
unfoldable pub ip_addr_line : Inet → Bytes → Scan → Scan
unfolding take_address is_digit contains words normalize_name word_at
ip_addr_line net [] scan = scan
ip_addr_line net (c ∷ cs) scan =
    let trimmed = c ∷ cs in
    if is_digit c && contains (codes ":") trimmed
    then record scan { current = normalize_name (word_at (rest_of (words trimmed))) }
    else take_address net trimmed scan

unfoldable pub ip_addr_lines : Inet → List Bytes → Scan → Scan
unfolding ip_addr_line trim
ip_addr_lines net [] scan = scan
ip_addr_lines net (line ∷ rest) scan = ip_addr_lines net rest (ip_addr_line net (trim line) scan)

unfoldable pub parse_ip_addr_output : Inet → Bytes → List RemoteInterface
unfolding ip_addr_lines lines
parse_ip_addr_output net output = (ip_addr_lines net (lines output) scan_start).interfaces
