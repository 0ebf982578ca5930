-- ===== src/Parser/IpAddr/RoundTrip.antt =====
-- Reading back a listing of `ip -4 addr`.
use mathlib.Core.List.{Nodup, append_assoc, append-nil}
use mathlib.Core.List.Nodup as LibNodup
use ip_finder.Common.{List, [], ◌∷◌, ◌++◌, ◌≡◌, refl, All, All-map, ap, sym, ◌∙◌, subst}
use ip_finder.Common.Bytes.{Bytes}
use ip_finder.Inet.{Inet, IsInet}
use ip_finder.Parser.Append.{added}
use ip_finder.Parser.DetailLine.{state, NoNewline-detail}
use ip_finder.Parser.IpAddr.{
  Link, print_header, print_links, as_block, listed_links, IsBelow, IsLink,
}
use ip_finder.Parser.IpAddr.Header.{NoNewline-header, ip_addr_line-header, ip_addr_line-detail}
use ip_finder.Parser.Listing.{print_details, addresses, IsDetail}
use ip_finder.Parser.RoundTrip.{one-line, lines-details, own, added-own}
use ip_finder.Parser.Text.{trim, lines}
use ip_finder.Parser.{Scan, scan_start, ip_addr_line, ip_addr_lines, parse_ip_addr_output}

module _ (net : Inet) where
  round : Bytes → Scan → Scan
  round line = ip_addr_line net (trim line)

  at_line :
      (line : Bytes) (rest : List Bytes) (scan : Scan)
      → ip_addr_lines net (line ∷ rest) scan ≡ ip_addr_lines net rest (round line scan)
  unfolding ip_addr_lines round
  at_line line rest scan = refl

  -- The rounds over one link.
  lines-link :
      IsInet net
      → (l : Link) (rest : Bytes) (scan : Scan) → IsLink net l
      → ip_addr_lines net (lines (print_header l ++ b'\n' ∷ print_details l.details rest)) scan
        ≡ ip_addr_lines net
            (lines rest)
            (state l.name (added l.name (addresses l.details) scan.interfaces))
  unfolding round
  lines-link k l rest scan h =
      one-line (ip_addr_lines net) round at_line (print_header l) (print_details l.details rest)
        scan (NoNewline-header net l h)
      ∙ ap (ip_addr_lines net (lines (print_details l.details rest)))
          (ip_addr_line-header net l scan h)
      ∙ lines-details (ip_addr_lines net) round at_line (IsBelow net)
          (λ d b. NoNewline-detail net d b.0) (ip_addr_line-detail net k) l.details l.name rest
          scan.interfaces h.not_nil h.each_detail

  lines-links :
      IsInet net
      → (ls : List Link) (scan : Scan) → All (IsLink net) ls
      → Nodup (scan.interfaces ++ listed_links ls)
      → (ip_addr_lines net (lines (print_links ls)) scan).interfaces
        ≡ scan.interfaces ++ listed_links ls
  lines-links k [] scan h d = unfold ip_addr_lines lines in sym (append-nil scan.interfaces)
  lines-links k (l ∷ ls) scan h d =
      let b = as_block l in
      let now = added l.name (addresses l.details) scan.interfaces in
      let split = sym (append_assoc scan.interfaces (own net b) (listed_links ls)) in
      let d' = subst Nodup split d in
      let details = All-map (IsBelow net) (IsDetail net) l.details (λ x y. y.0) h.0.each_detail in
      let same =
        added-own net b scan.interfaces h.0.not_nil details
          (LibNodup.of_append_left (listed_links ls) d') in
      ap (λ (s : Scan). s.interfaces) (lines-link k l (print_links ls) scan h.0)
      ∙ lines-links k ls (state l.name now) h.1 (rw same d')
      ∙ rw same (append_assoc scan.interfaces (own net b) (listed_links ls))

  -- For an address conversion with the documented properties: reading back a printed listing of
  -- "ip -4 addr" gives exactly the listed interfaces, in order, each address with its link's name,
  -- without the link that it hangs on and without the loopback ones, provided that the links are
  -- well formed and list no pair twice.
  pub parse-print_links :
      IsInet net
      → (ls : List Link) → All (IsLink net) ls
      → Nodup (listed_links ls)
      → parse_ip_addr_output net (print_links ls) ≡ listed_links ls
  unfolding parse_ip_addr_output
  parse-print_links k ls h d = lines-links k ls scan_start h d
