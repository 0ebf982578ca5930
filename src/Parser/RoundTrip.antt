-- ===== src/Parser/RoundTrip.antt =====
-- Reading back a listing of `ifconfig`.
use mathlib.Core.List.{Nodup, append_assoc, append-nil}
use mathlib.Core.List.Nodup as LibNodup
use ip_finder.Common.{
  List, [], ◌∷◌, ◌++◌, ◌≡◌, ◌≢◌, refl, if◌then◌else◌, All, ap, sym, ◌∙◌, subst, Bool-cases, inl,
  inr,
}
use ip_finder.Common.Bytes.{Bytes}
use ip_finder.Inet.{Inet, IsInet}
use ip_finder.Parser.Text.{lines}
use ip_finder.Parser.Words.{NoNewline, lines-append}
use ip_finder.Parser.Listing.{
  Detail, inet, inet_addr, inet_cidr, inet6_addr, remark, print_detail, Block, print_header, indent,
  print_details, print_blocks, addresses, named, listed, IsDetail, IsBlock,
}
use ip_finder.Parser.Append.{added, added_loopback, added_fresh}
use ip_finder.Parser.DetailLine.{state, NoNewline-detail, ifconfig_line-detail}
use ip_finder.Parser.HeaderLine.{NoNewline-header, ifconfig_line-header}
use ip_finder.Parser.{
  RemoteInterface, is_loopback_interface_name, Scan, scan_start, ifconfig_line, ifconfig_lines,
  parse_ifconfig_output,
}

added-cons :
    (n : Bytes) (d : Detail) (ds : List Detail) (out : List RemoteInterface)
    → added n (addresses ds) (added n (addresses (d ∷ [])) out) ≡ added n (addresses (d ∷ ds)) out
added-cons n (inet a t) ds out = refl
added-cons n (inet_addr a t) ds out = refl
added-cons n (inet_cidr a p t) ds out = refl
added-cons n (inet6_addr t) ds out = refl
added-cons n (remark t) ds out = refl

-- The rounds of a parser over the lines of one interface: `loop` is its loop, `round` its body.
module _ (loop : List Bytes → Scan → Scan) (round : Bytes → Scan → Scan)
    (at_line : (line : Bytes) (rest : List Bytes) (scan : Scan)
      → loop (line ∷ rest) scan ≡ loop rest (round line scan)) where
  pub one-line :
      (line rest : Bytes) (scan : Scan)
      → NoNewline line
      → loop (lines (line ++ b'\n' ∷ rest)) scan ≡ loop (lines rest) (round line scan)
  one-line line rest scan h = rw (lines-append line rest h) (at_line line (lines rest) scan)

  pub lines-details :
      (P : Detail → Type 0)
      → ((d : Detail) → P d → NoNewline (indent ++ print_detail d))
      → ((d : Detail) (n : Bytes) (out : List RemoteInterface)
          → n ≢ []
          → P d
          → round (indent ++ print_detail d) (state n out)
            ≡ state n (added n (addresses (d ∷ [])) out))
      → (ds : List Detail) (n rest : Bytes) (out : List RemoteInterface) → n ≢ []
      → All P ds
      → loop (lines (print_details ds rest)) (state n out)
        ≡ loop (lines rest) (state n (added n (addresses ds) out))
  lines-details P one_line at_detail [] n rest out ne h = refl
  lines-details P one_line at_detail (d ∷ ds) n rest out ne h =
      one-line (indent ++ print_detail d) (print_details ds rest) (state n out) (one_line d h.0)
      ∙ ap (loop (lines (print_details ds rest))) (at_detail d n out ne h.0)
      ∙ lines-details P one_line at_detail ds n rest (added n (addresses (d ∷ [])) out) ne h.1
      ∙ ap (λ o. loop (lines rest) (state n o)) (added-cons n d ds out)

module _ (net : Inet) where
  addresses-ne-nil : (ds : List Detail) → All (IsDetail net) ds → All (λ a. a ≢ []) (addresses ds)
  addresses-ne-nil [] h = tt
  addresses-ne-nil (inet a t ∷ ds) h = (h.0.0.not_nil, addresses-ne-nil ds h.1)
  addresses-ne-nil (inet_addr a t ∷ ds) h = (h.0.0.not_nil, addresses-ne-nil ds h.1)
  addresses-ne-nil (inet_cidr a p t ∷ ds) h = (h.0.0.not_nil, addresses-ne-nil ds h.1)
  addresses-ne-nil (inet6_addr t ∷ ds) h = addresses-ne-nil ds h.1
  addresses-ne-nil (remark t ∷ ds) h = addresses-ne-nil ds h.1

  at_line :
      (line : Bytes) (rest : List Bytes) (scan : Scan)
      → ifconfig_lines net (line ∷ rest) scan
        ≡ ifconfig_lines net rest (ifconfig_line net line scan)
  unfolding ifconfig_lines
  at_line line rest scan = refl

  -- The rounds over one interface and the empty line behind it.
  lines-block :
      IsInet net
      → (b : Block) (rest : Bytes) (scan : Scan) → IsBlock net b
      → ifconfig_lines net
          (lines (print_header b ++ b'\n' ∷ print_details b.details (b'\n' ∷ rest)))
          scan
        ≡ ifconfig_lines net
            (lines rest)
            (state b.name (added b.name (addresses b.details) scan.interfaces))
  lines-block k b rest scan h =
      one-line loop round at_line (print_header b) (print_details b.details (b'\n' ∷ rest)) scan
        (NoNewline-header b h.one_word h.one_line)
      ∙ ap (ifconfig_lines net (lines (print_details b.details (b'\n' ∷ rest))))
          (ifconfig_line-header net b scan h)
      ∙ lines-details loop round at_line (IsDetail net) (NoNewline-detail net)
          (ifconfig_line-detail net k) b.details b.name (b'\n' ∷ rest) scan.interfaces h.not_nil
          h.each_detail
      ∙ one-line loop round at_line [] rest _ tt
      ∙ ap (ifconfig_lines net (lines rest)) (unfold ifconfig_line in refl)
    where
      loop : List Bytes → Scan → Scan
      loop = ifconfig_lines net

      round : Bytes → Scan → Scan
      round = ifconfig_line net

  abbrev pub own : Block → List RemoteInterface
  own b = if is_loopback_interface_name b.name then [] else named b.name (addresses b.details)

  pub added-own :
      (b : Block) (out : List RemoteInterface)
      → b.name ≢ []
      → All (IsDetail net) b.details
      → Nodup (out ++ own b)
      → added b.name (addresses b.details) out ≡ out ++ own b
  added-own b out ne h d = elim (Bool-cases (is_loopback_interface_name b.name)) [
    | inl lo ↦ rw lo (added_loopback b.name (addresses b.details) out lo ∙ sym (append-nil out))
    | inr other ↦ rw other (
        added_fresh b.name (addresses b.details) out ne other (addresses-ne-nil b.details h)
          (rw other at d))
  ]

  lines-blocks :
      IsInet net
      → (bs : List Block) (scan : Scan) → All (IsBlock net) bs
      → Nodup (scan.interfaces ++ listed bs)
      → (ifconfig_lines net (lines (print_blocks bs)) scan).interfaces
        ≡ scan.interfaces ++ listed bs
  lines-blocks k [] scan h d = unfold ifconfig_lines lines in sym (append-nil scan.interfaces)
  lines-blocks k (b ∷ bs) scan h d =
      let now = added b.name (addresses b.details) scan.interfaces in
      let split = sym (append_assoc scan.interfaces (own b) (listed bs)) in
      let d' = subst Nodup split d in
      let same =
        added-own b scan.interfaces h.0.not_nil h.0.each_detail
          (LibNodup.of_append_left (listed bs) d') in
      ap (λ (s : Scan). s.interfaces) (lines-block k b (print_blocks bs) scan h.0)
      ∙ lines-blocks k bs (state b.name now) h.1 (rw same d')
      ∙ rw same (append_assoc scan.interfaces (own b) (listed bs))

  -- For an address conversion with the documented properties: reading back a printed listing gives
  -- exactly the listed interfaces, in order, each address with its interface's name and the
  -- loopback ones left out, provided that the blocks are well formed and list no pair twice.
  pub parse-print_blocks :
      IsInet net
      → (bs : List Block) → All (IsBlock net) bs
      → Nodup (listed bs)
      → parse_ifconfig_output net (print_blocks bs) ≡ listed bs
  unfolding parse_ifconfig_output
  parse-print_blocks k bs h d = lines-blocks k bs scan_start h d
