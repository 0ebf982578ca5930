-- ===== src/Parser/IpAddr.antt =====
-- The listings that `ip -4 addr` prints, as a description of the text that is independent of the
-- parser.
mod Trimmed
mod Header
pub mod RoundTrip
use ip_finder.Common.{
  Bool, true, false, List, [], ◌∷◌, ◌++◌, ◌≡◌, ◌≢◌, ◌==◌, All, map, Option, none, some,
}
use ip_finder.Common.Bytes.{Bytes, codes}
use ip_finder.Inet.{Inet}
use ip_finder.Parser.Listing.{
  Detail, inet, inet_addr, inet_cidr, inet6_addr, remark, Block, print_details, listed, IsDetail,
}
use ip_finder.Parser.Text.{is_digit, trim}
use ip_finder.Parser.Words.{NoNewline, NoSpace}
use ip_finder.Parser.{RemoteInterface}

-- A link: its index, its name, the link that it hangs on, if any, and the lines below.
pub record Link : Type 0 where
  pub index : Bytes
  pub name : Bytes
  pub peer : Option Bytes
  pub flags : Bytes
  pub details : List Detail

abbrev pub print_peer : Option Bytes → Bytes
print_peer none = []
print_peer (some p) = b'@' ∷ p

-- The second word of a header.
abbrev pub label : Link → Bytes
label l = (l.name ++ print_peer l.peer) ++ codes ":"

abbrev pub print_header : Link → Bytes
print_header l = (l.index ++ codes ":") ++ b' ' ∷ (label l ++ b' ' ∷ l.flags)

abbrev pub print_links : List Link → Bytes
print_links [] = []
print_links (l ∷ ls) = print_header l ++ b'\n' ∷ print_details l.details (print_links ls)

-- A link without its index and the link that it hangs on.
abbrev pub as_block : Link → Block
as_block l = record { name = l.name; colon = true; flags = l.flags; details = l.details }

-- The interfaces of a listing: every address of every link that is not the loopback one.
abbrev pub listed_links : List Link → List RemoteInterface
listed_links ls = listed (map as_block ls)

unfoldable pub starts_with_digit : Bytes → Bool
unfolding is_digit
starts_with_digit [] = false
starts_with_digit (c ∷ cs) = is_digit c

-- A remark does not start with a digit, as a header does.
abbrev pub IsRemark : Detail → Type 0
IsRemark (inet a t) = Unit
IsRemark (inet_addr a t) = Unit
IsRemark (inet_cidr a p t) = Unit
IsRemark (inet6_addr t) = Unit
IsRemark (remark t) = starts_with_digit (trim t) ≡ false

abbrev pub IsBelow : Inet → Detail → Type 0
IsBelow net d = IsDetail net d × IsRemark d

abbrev pub IsPeer : Option Bytes → Type 0
IsPeer none = Unit
IsPeer (some p) = NoSpace p

pub record IsLink (net : Inet) (l : Link) : Type 0 where
  pub index_not_nil : l.index ≢ []
  pub digits : All (λ c. is_digit c ≡ true) l.index
  pub not_nil : l.name ≢ []
  pub one_word : NoSpace l.name
  pub no_at : All (λ c. (c == b'@') ≡ false) l.name
  pub peer_word : IsPeer l.peer
  pub one_line : NoNewline l.flags
  pub each_detail : All (IsBelow net) l.details
