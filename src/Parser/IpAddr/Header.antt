-- ===== src/Parser/IpAddr/Header.antt =====
-- One round of the loop of `parse_ip_addr_output` on the header of a link, and on a line below.
use mathlib.Core.List.{append_assoc, append-nil}
use ip_finder.Common.{
  false, true, ℕ, List, [], ◌∷◌, ◌++◌, ◌≡◌, ◌≢◌, refl, ◌==◌, All, All-append, All-map, ap, ◌∙◌,
  arith, Option, none, some,
}
use ip_finder.Common.Bytes.{Bytes, codes, contains, strip_end, before, before_absent}
use ip_finder.Inet.{Inet, IsInet}
use ip_finder.Parser.Append.{added}
use ip_finder.Parser.DetailLine.{
  state, NoNewline-of_NoSpace, NoNewline-append, take_address-lem, added-address_of,
}
use ip_finder.Parser.Details.{ends_blank, extract-detail, before-append}
use ip_finder.Parser.HeaderLine.{pop_colon-colon}
use ip_finder.Parser.IpAddr.{
  Link, print_peer, label, print_header, starts_with_digit, IsBelow, IsPeer, IsLink,
}
use ip_finder.Parser.IpAddr.Trimmed.{
  trim-cons, strip_end-append, contains-colon, detail_front, extract-trim, ip_addr_line-plain,
  ip_addr_line-front,
}
use ip_finder.Parser.Listing.{Detail, print_detail, indent, addresses}
use ip_finder.Parser.Text.{is_space, is_digit, is_trimmed, trim, words, word_at, normalize_name}
use ip_finder.Parser.Words.{NoNewline, NoSpace, words-append, words-blank, words-trim}
use ip_finder.Parser.{RemoteInterface, Scan, ip_addr_line}

digits-NoSpace : (s : Bytes) → All (λ c. is_digit c ≡ true) s → NoSpace s
unfolding is_space is_digit
digits-NoSpace s h =
    All-map (λ c. is_digit c ≡ true) (λ c. is_space c ≡ false) s (λ c e. ground arith) h

digit_stays : (c : ℕ) → is_digit c ≡ true → is_trimmed c ≡ false
unfolding is_digit is_trimmed
digit_stays c h = ground arith

with_colon : (s : Bytes) → NoSpace s → NoSpace (s ++ codes ":")
unfolding is_space
with_colon s h = All-append _ s (codes ":") h (refl, tt)

colon-ne-nil : (s : Bytes) → s ++ codes ":" ≢ []
colon-ne-nil [] e = cc
colon-ne-nil (c ∷ s) e = cc

peer-NoSpace : (o : Option Bytes) → IsPeer o → NoSpace (print_peer o)
unfolding is_space
peer-NoSpace none h = tt
peer-NoSpace (some p) h = (refl, h)

before-peer :
    (n : Bytes) (o : Option Bytes)
    → All (λ c. (c == b'@') ≡ false) n
    → before b'@' (n ++ print_peer o) ≡ n
before-peer n none h = ap (before b'@') (append-nil n) ∙ before_absent b'@' n h
before-peer n (some p) h = before-append b'@' n p h

module _ (net : Inet) (l : Link) (h : IsLink net l) where
  label-NoSpace : NoSpace (label l)
  label-NoSpace =
      with_colon (l.name ++ print_peer l.peer)
        (All-append _ l.name (print_peer l.peer) h.one_word (peer-NoSpace l.peer h.peer_word))

  index-NoSpace : NoSpace (l.index ++ codes ":")
  index-NoSpace = with_colon l.index (digits-NoSpace l.index h.digits)

  normalize_name-label : normalize_name (label l) ≡ l.name
  unfolding normalize_name
  normalize_name-label =
      ap (before b'@') (pop_colon-colon (l.name ++ print_peer l.peer))
      ∙ before-peer l.name l.peer h.no_at

  header-words : words (print_header l) ≡ (l.index ++ codes ":") ∷ label l ∷ words l.flags
  header-words =
      words-append (l.index ++ codes ":") _ (colon-ne-nil l.index) index-NoSpace (ends_blank _)
      ∙ ap (◌∷◌ (l.index ++ codes ":")) (
          words-blank b' ' (label l ++ b' ' ∷ l.flags) (unfold is_space in refl)
          ∙ words-append (label l) _ (colon-ne-nil _) label-NoSpace (ends_blank l.flags)
          ∙ ap (◌∷◌ (label l)) (words-blank b' ' l.flags (unfold is_space in refl)))

  pub NoNewline-header : NoNewline (print_header l)
  NoNewline-header =
      NoNewline-append (l.index ++ codes ":") _ (NoNewline-of_NoSpace _ index-NoSpace) (
        refl,
        NoNewline-append (label l) _ (NoNewline-of_NoSpace _ label-NoSpace) (refl, h.one_line),
      )

-- What the parser asks about a trimmed header.
header_front :
    (i s : Bytes)
    → i ≢ []
    → All (λ c. is_digit c ≡ true) i
    → (starts_with_digit (trim (i ++ b':' ∷ s)) ≡ true)
      × (contains (codes ":") (trim (i ++ b':' ∷ s)) ≡ true)
unfolding starts_with_digit
header_front [] s ne h = absurd (ne refl)
header_front (c ∷ i) s ne h =
    let kept =
      trim-cons c (i ++ b':' ∷ s) (digit_stays c h.0)
      ∙ ap (◌∷◌ c) (strip_end-append is_trimmed i b':' s (unfold is_trimmed in refl)) in
    rw kept (h.0, contains-colon (c ∷ i) (strip_end is_trimmed s))

module _ (net : Inet) where
  pub ip_addr_line-header :
      (l : Link) (scan : Scan)
      → IsLink net l
      → ip_addr_line net (trim (print_header l)) scan ≡ state l.name scan.interfaces
  unfolding word_at
  ip_addr_line-header l scan h =
      let s : Bytes = b' ' ∷ (label l ++ b' ' ∷ l.flags) in
      let split = append_assoc l.index (codes ":") s in
      let (digit, colon) = header_front l.index s h.index_not_nil h.digits in
      ip_addr_line-front net (trim (print_header l)) scan (rw split digit) (rw split colon)
      ∙ rw (words-trim (print_header l), header-words net l h, normalize_name-label net l h)

  pub ip_addr_line-detail :
      IsInet net
      → (d : Detail) (n : Bytes) (out : List RemoteInterface) → n ≢ []
      → IsBelow net d
      → ip_addr_line net (trim (indent ++ print_detail d)) (state n out)
        ≡ state n (added n (addresses (d ∷ [])) out)
  ip_addr_line-detail k d n out ne h =
      ip_addr_line-plain net (trim (indent ++ print_detail d)) (state n out) (detail_front d h.1)
      ∙ take_address-lem net (trim (indent ++ print_detail d)) n out ne
      ∙ rw (extract-trim net (indent ++ print_detail d), extract-detail net k d h.0)
          (added-address_of net d n out h.0)
