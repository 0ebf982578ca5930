-- ===== src/Parser/DetailLine.antt =====
-- One round of the ifconfig loop on a line below an interface.
use ip_finder.Common.{
  false, List, [], ◌∷◌, ◌++◌, ◌≡◌, ◌≢◌, refl, ◌==◌, if◌then◌else◌, ◌∙◌, arith, is_empty, All-append,
  All-map,
}
use ip_finder.Common.Bytes.{Bytes, codes}
use ip_finder.Inet.{Inet, IsInet}
use ip_finder.Parser.Text.{is_space}
use ip_finder.Parser.Words.{NoNewline, NoSpace}
use ip_finder.Parser.Listing.{
  Detail, inet, inet_addr, inet_cidr, inet6_addr, remark, print_detail, indent, addresses, IsDetail,
}
use ip_finder.Parser.Append.{added}
use ip_finder.Parser.Details.{extract-detail, address_of}
use ip_finder.Parser.{
  RemoteInterface, append, extract_inet_address, Scan, take_address, ifconfig_line,
}

abbrev pub state : Bytes → List RemoteInterface → Scan
state n out = record { current = n; interfaces = out }

pub NoNewline-of_NoSpace : (s : Bytes) → NoSpace s → NoNewline s
unfolding is_space
NoNewline-of_NoSpace s h =
    All-map (λ c. is_space c ≡ false) (λ c. (c == b'\n') ≡ false) s (λ c e. ground arith) h

pub NoNewline-append : (s t : Bytes) → NoNewline s → NoNewline t → NoNewline (s ++ t)
NoNewline-append = All-append _

module _ (net : Inet) where
  NoNewline-body : (d : Detail) → IsDetail net d → NoNewline (print_detail d)
  NoNewline-body (inet a t) h =
      NoNewline-append (codes "inet " ++ a) (b' ' ∷ t)
        (NoNewline-append (codes "inet ") a (ground arith) (NoNewline-of_NoSpace a h.0.one_word))
        (refl, h.1)
  NoNewline-body (inet_addr a t) h =
      NoNewline-append (codes "inet addr:" ++ a) (b' ' ∷ t)
        (NoNewline-append (codes "inet addr:") a (ground arith)
          (NoNewline-of_NoSpace a h.0.one_word))
        (refl, h.1)
  NoNewline-body (inet_cidr a p t) h =
      NoNewline-append (codes "inet " ++ a) (b'/' ∷ (p ++ b' ' ∷ t))
        (NoNewline-append (codes "inet ") a (ground arith) (NoNewline-of_NoSpace a h.0.one_word))
        (refl, NoNewline-append p (b' ' ∷ t) (NoNewline-of_NoSpace p h.1) (refl, h.2))
  NoNewline-body (inet6_addr t) h = NoNewline-append (codes "inet6 addr: ") t (ground arith) h
  NoNewline-body (remark t) h = h.0

  pub NoNewline-detail : (d : Detail) → IsDetail net d → NoNewline (indent ++ print_detail d)
  NoNewline-detail d h =
      NoNewline-append indent (print_detail d) (ground arith) (NoNewline-body d h)

  pub take_address-lem :
      (line n : Bytes) (out : List RemoteInterface)
      → n ≢ []
      → take_address net line (state n out) ≡ (
          if is_empty (extract_inet_address net line)
          then state n out
          else state n (append out (record { name = n; ipv4 = extract_inet_address net line })))
  unfolding take_address
  take_address-lem line n out ne = ground arith

  ifconfig_line-indent :
      (s : Bytes) (scan : Scan)
      → ifconfig_line net (indent ++ s) scan ≡ take_address net (indent ++ s) scan
  unfolding ifconfig_line
  ifconfig_line-indent s scan = refl

  not_empty : (a : Bytes) → a ≢ [] → is_empty a ≡ false
  not_empty [] ne = absurd (ne refl)
  not_empty (c ∷ a) ne = refl

  pub added-address_of :
      (d : Detail) (n : Bytes) (out : List RemoteInterface)
      → IsDetail net d
      → (if is_empty (address_of net d)
          then state n out
          else state n (append out (record { name = n; ipv4 = address_of net d })))
        ≡ state n (added n (addresses (d ∷ [])) out)
  added-address_of (inet a t) n out h = rw (not_empty a h.0.not_nil)
  added-address_of (inet_addr a t) n out h = rw (not_empty a h.0.not_nil)
  added-address_of (inet_cidr a p t) n out h = rw (not_empty a h.0.not_nil)
  added-address_of (inet6_addr t) n out h = refl
  added-address_of (remark t) n out h = refl

  pub ifconfig_line-detail :
      IsInet net
      → (d : Detail) (n : Bytes) (out : List RemoteInterface) → n ≢ []
      → IsDetail net d
      → ifconfig_line net (indent ++ print_detail d) (state n out)
        ≡ state n (added n (addresses (d ∷ [])) out)
  ifconfig_line-detail k d n out ne h =
      ifconfig_line-indent (print_detail d) (state n out)
      ∙ take_address-lem (indent ++ print_detail d) n out ne
      ∙ rw (extract-detail net k d h) (added-address_of d n out h)
