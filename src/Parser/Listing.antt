-- ===== src/Parser/Listing.antt =====
-- The listings that `ifconfig` prints (net-tools and BusyBox), as a description of the text that is
-- independent of the parser.
use ip_finder.Common.{Bool, true, false, List, [], ◌∷◌, ◌++◌, ◌≡◌, ◌≢◌, ◌==◌, if◌then◌else◌, All}
use ip_finder.Common.Bytes.{Bytes, codes, equal, starts_with}
use ip_finder.Inet.{Inet}
use ip_finder.Parser.Text.{words}
use ip_finder.Parser.Words.{NoNewline, NoSpace}
use ip_finder.Parser.{RemoteInterface, is_loopback_interface_name, is_valid_ipv4}

-- A line below an interface: an address in one of three spellings, an IPv6 address in BusyBox's
-- spelling, or text that mentions no address.
pub data Detail : Type 0 where
  inet : (address tail : Bytes) → Detail
  inet_addr : (address tail : Bytes) → Detail
  inet_cidr : (address prefix tail : Bytes) → Detail
  inet6_addr : (tail : Bytes) → Detail
  remark : (text : Bytes) → Detail

abbrev pub print_detail : Detail → Bytes
print_detail (inet a t) = codes "inet " ++ a ++ b' ' ∷ t
print_detail (inet_addr a t) = codes "inet addr:" ++ a ++ b' ' ∷ t
print_detail (inet_cidr a p t) = codes "inet " ++ a ++ b'/' ∷ (p ++ b' ' ∷ t)
print_detail (inet6_addr t) = codes "inet6 addr: " ++ t
print_detail (remark t) = t

-- A header, with a colon behind the name (net-tools) or without one (BusyBox), and its lines.
pub record Block : Type 0 where
  pub name : Bytes
  pub colon : Bool
  pub flags : Bytes
  pub details : List Detail

abbrev pub print_header : Block → Bytes
print_header b = b.name ++ ((if b.colon then codes ":" else []) ++ b' ' ∷ b.flags)

abbrev pub indent : Bytes
indent = codes "        "

abbrev pub print_details : List Detail → Bytes → Bytes
print_details [] rest = rest
print_details (d ∷ ds) rest = (indent ++ print_detail d) ++ b'\n' ∷ print_details ds rest

-- Blocks are separated by an empty line.
abbrev pub print_blocks : List Block → Bytes
print_blocks [] = []
print_blocks (b ∷ bs) = print_header b ++ b'\n' ∷ print_details b.details (b'\n' ∷ print_blocks bs)

abbrev pub addresses : List Detail → List Bytes
addresses [] = []
addresses (inet a t ∷ ds) = a ∷ addresses ds
addresses (inet_addr a t ∷ ds) = a ∷ addresses ds
addresses (inet_cidr a p t ∷ ds) = a ∷ addresses ds
addresses (inet6_addr t ∷ ds) = addresses ds
addresses (remark t ∷ ds) = addresses ds

abbrev pub named : Bytes → List Bytes → List RemoteInterface
named n [] = []
named n (a ∷ as') = record { name = n; ipv4 = a } ∷ named n as'

-- The interfaces of a listing: every address of every block that is not the loopback one.
abbrev pub listed : List Block → List RemoteInterface
listed [] = []
listed (b ∷ bs) =
    (if is_loopback_interface_name b.name then [] else named b.name (addresses b.details))
    ++ listed bs

-- A word that does not start an address.
pub record IsQuiet (w : Bytes) : Type 0 where
  pub not_inet : equal w (codes "inet") ≡ false
  pub not_addr : starts_with (codes "addr:") w ≡ false

pub record IsAddress (net : Inet) (a : Bytes) : Type 0 where
  pub valid : is_valid_ipv4 net a ≡ true
  pub not_nil : a ≢ []
  pub one_word : NoSpace a
  pub no_slash : All (λ c. (c == b'/') ≡ false) a
  pub no_addr : starts_with (codes "addr:") a ≡ false

abbrev pub IsDetail : Inet → Detail → Type 0
IsDetail net (inet a t) = IsAddress net a × NoNewline t
IsDetail net (inet_addr a t) = IsAddress net a × NoNewline t
IsDetail net (inet_cidr a p t) = IsAddress net a × NoSpace p × NoNewline t
IsDetail net (inet6_addr t) = NoNewline t
IsDetail net (remark t) = NoNewline t × All IsQuiet (words t)

pub record IsBlock (net : Inet) (b : Block) : Type 0 where
  pub not_nil : b.name ≢ []
  pub one_word : NoSpace b.name
  pub no_at : All (λ c. (c == b'@') ≡ false) b.name
  pub no_colon : All (λ c. (c == b':') ≡ false) b.name
  pub quiet_name : IsQuiet (b.name ++ (if b.colon then codes ":" else []))
  pub one_line : NoNewline b.flags
  pub quiet_flags : All IsQuiet (words b.flags)
  pub each_detail : All (IsDetail net) b.details
