-- ===== src/Parser/IpAddr/Trimmed.antt =====
-- The trimmed lines of `ip -4 addr`.
use ip_finder.Common.{
  ℕ, Bool, true, false, [], ◌∷◌, ◌++◌, ◌≡◌, refl, ◌&&◌, is_empty, if◌then◌else◌, ap, ◌∙◌, sym,
  arith,
}
use ip_finder.Common.Bytes.{Bytes, codes, starts_with, contains, strip_start, strip_end}
use ip_finder.Inet.{Inet}
use ip_finder.Parser.Details.{extract-words}
use ip_finder.Parser.IpAddr.{starts_with_digit}
use ip_finder.Parser.Listing.{
  Detail, inet, inet_addr, inet_cidr, inet6_addr, remark, print_detail, indent,
}
use ip_finder.Parser.IpAddr.{IsRemark}
use ip_finder.Parser.Text.{is_digit, is_trimmed, trim, words, word_at, rest_of, normalize_name}
use ip_finder.Parser.Words.{words-trim}
use ip_finder.Parser.{Scan, extract_inet_address, scan_tokens, take_address, ip_addr_line}

-- A byte that stays ends what is dropped from the end.
pub strip_end-append :
    (p : ℕ → Bool) (w : Bytes) (c : ℕ) (s : Bytes)
    → p c ≡ false
    → strip_end p (w ++ c ∷ s) ≡ w ++ c ∷ strip_end p s
unfolding strip_end
strip_end-append p [] c s h = rw h
strip_end-append p (d ∷ w) c s h = rw (strip_end-append p w c s h) (kept w)
  where
    kept :
        (v : Bytes)
        → (if p d && is_empty (v ++ c ∷ strip_end p s) then [] else d ∷ (v ++ c ∷ strip_end p s))
          ≡ d ∷ (v ++ c ∷ strip_end p s)
    kept [] = ground arith
    kept (x ∷ v) = ground arith

strip_start-cons : (p : ℕ → Bool) (c : ℕ) (s : Bytes) → p c ≡ false → strip_start p (c ∷ s) ≡ c ∷ s
unfolding strip_start
strip_start-cons p c s h = rw h

-- A byte that stays ends what is dropped from the front.
pub trim-cons :
    (c : ℕ) (s : Bytes) → is_trimmed c ≡ false → trim (c ∷ s) ≡ c ∷ strip_end is_trimmed s
unfolding trim
trim-cons c s h =
    ap (strip_end is_trimmed) (strip_start-cons is_trimmed c s h)
    ∙ strip_end-append is_trimmed [] c s h

pub contains-colon : (w s : Bytes) → contains (codes ":") (w ++ b':' ∷ s) ≡ true
unfolding contains starts_with
contains-colon [] s = refl
contains-colon (c ∷ w) s = ground (arith, contains-colon w s)

trim-indent : (s : Bytes) → trim (indent ++ s) ≡ trim s
unfolding trim strip_start is_trimmed
trim-indent s = refl

pub detail_front :
    (d : Detail) → IsRemark d → starts_with_digit (trim (indent ++ print_detail d)) ≡ false
unfolding starts_with_digit trim strip_start strip_end is_trimmed is_digit
detail_front (inet a t) h = refl
detail_front (inet_addr a t) h = refl
detail_front (inet_cidr a p t) h = refl
detail_front (inet6_addr t) h = refl
detail_front (remark t) h = h

module _ (net : Inet) where
  pub extract-trim : (s : Bytes) → extract_inet_address net (trim s) ≡ extract_inet_address net s
  extract-trim s =
      extract-words net (trim s) ∙ ap (scan_tokens net) (words-trim s) ∙ sym (extract-words net s)

  -- A line that starts with no digit.
  pub ip_addr_line-plain :
      (t : Bytes) (scan : Scan)
      → starts_with_digit t ≡ false
      → ip_addr_line net t scan ≡ take_address net t scan
  unfolding ip_addr_line starts_with_digit take_address extract_inet_address trim strip_start
      strip_end words scan_tokens
  ip_addr_line-plain [] scan h = ground arith
  ip_addr_line-plain (c ∷ cs) scan h = rw h

  -- A line that starts with a digit and holds a colon.
  pub ip_addr_line-front :
      (t : Bytes) (scan : Scan)
      → starts_with_digit t ≡ true
      → contains (codes ":") t ≡ true
      → ip_addr_line net t scan
        ≡ record scan { current = normalize_name (word_at (rest_of (words t))) }
  unfolding ip_addr_line starts_with_digit
  ip_addr_line-front [] scan h e = cc
  ip_addr_line-front (c ∷ cs) scan h e = rw (h, e)
