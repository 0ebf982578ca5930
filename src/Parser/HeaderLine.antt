-- ===== src/Parser/HeaderLine.antt =====
-- One round of the ifconfig loop on the header of an interface.
use mathlib.Core.List.{append_assoc, append-nil}
use ip_finder.Common.{
  Bool, true, false, [], ◌∷◌, ◌++◌, ◌≡◌, ◌≢◌, refl, ◌==◌, if◌then◌else◌, All, ap, sym, ◌∙◌, arith,
  All-append,
}
use ip_finder.Common.Bytes.{Bytes, codes, before, before_absent}
use ip_finder.Inet.{Inet}
use ip_finder.Parser.Text.{is_space, words, word_at, normalize_name, pop_colon, ends_word}
use ip_finder.Parser.Words.{NoNewline, NoSpace, words-append, words-blank}
use ip_finder.Parser.Listing.{Block, print_header, IsBlock}
use ip_finder.Parser.DetailLine.{state, NoNewline-of_NoSpace, NoNewline-append, take_address-lem}
use ip_finder.Parser.Details.{ends_blank, extract-words, scan_tokens-quiet}
use ip_finder.Parser.{extract_inet_address, Scan, take_address, ifconfig_line}

pub pop_colon-colon : (n : Bytes) → pop_colon (n ++ codes ":") ≡ n
unfolding pop_colon
pop_colon-colon [] = refl
pop_colon-colon (c ∷ []) = refl
pop_colon-colon (c ∷ d ∷ n) = ap (◌∷◌ c) (pop_colon-colon (d ∷ n))

pop_colon-plain : (n : Bytes) → All (λ c. (c == b':') ≡ false) n → pop_colon n ≡ n
unfolding pop_colon
pop_colon-plain [] h = refl
pop_colon-plain (c ∷ []) h = rw h.0
pop_colon-plain (c ∷ d ∷ n) h = ap (◌∷◌ c) (pop_colon-plain (d ∷ n) h.1)

-- The first word of a header.
abbrev label : Block → Bytes
label b = b.name ++ (if b.colon then codes ":" else [])

normalize_name-label :
    (n : Bytes) (colon : Bool)
    → All (λ c. (c == b'@') ≡ false) n
    → All (λ c. (c == b':') ≡ false) n
    → normalize_name (n ++ (if colon then codes ":" else [])) ≡ n
unfolding normalize_name
normalize_name-label n true a h = ap (before b'@') (pop_colon-colon n) ∙ before_absent b'@' n a
normalize_name-label n false a h =
    ap (λ s. before b'@' (pop_colon s)) (append-nil n)
    ∙ ap (before b'@') (pop_colon-plain n h)
    ∙ before_absent b'@' n a

label-NoSpace :
    (n : Bytes) (colon : Bool) → NoSpace n → NoSpace (n ++ (if colon then codes ":" else []))
unfolding is_space
label-NoSpace n true h = All-append _ n (codes ":") h (ground arith)
label-NoSpace n false h = All-append _ n [] h tt

label-ne-nil : (n : Bytes) (colon : Bool) → n ≢ [] → n ++ (if colon then codes ":" else []) ≢ []
label-ne-nil [] colon ne e = ne refl
label-ne-nil (c ∷ n) colon ne e = cc

header-words :
    (b : Block) → b.name ≢ [] → NoSpace b.name → words (print_header b) ≡ label b ∷ words b.flags
header-words b ne h =
    ap words (sym (append_assoc b.name (if b.colon then codes ":" else []) (b' ' ∷ b.flags)))
    ∙ words-append (label b) (b' ' ∷ b.flags) (label-ne-nil b.name b.colon ne)
        (label-NoSpace b.name b.colon h) (ends_blank b.flags)
    ∙ ap (◌∷◌ (label b)) (words-blank b' ' b.flags (unfold is_space in refl))

front-NoSpace : (n rest : Bytes) → n ≢ [] → NoSpace n → ends_word (n ++ rest) ≡ false
unfolding ends_word
front-NoSpace [] rest ne h = absurd (ne refl)
front-NoSpace (c ∷ n) rest ne h = h.0

pub NoNewline-header : (b : Block) → NoSpace b.name → NoNewline b.flags → NoNewline (print_header b)
NoNewline-header b h f = NoNewline-append b.name _ (NoNewline-of_NoSpace b.name h) (
    NoNewline-append (if b.colon then codes ":" else []) (b' ' ∷ b.flags) (colon_line b.colon)
      (refl, f))
  where
    colon_line : (c : Bool) → NoNewline (if c then codes ":" else [])
    colon_line true = (refl, tt)
    colon_line false = tt

module _ (net : Inet) where
  extract-header : (b : Block) → IsBlock net b → extract_inet_address net (print_header b) ≡ []
  extract-header b h =
      extract-words net (print_header b)
      ∙ rw (header-words b h.not_nil h.one_word)
          (scan_tokens-quiet net (label b ∷ words b.flags) (h.quiet_name, h.quiet_flags))

  ifconfig_line-front :
      (line : Bytes) (scan : Scan)
      → ends_word line ≡ false
      → ifconfig_line net line scan
        ≡ take_address net line (record scan { current = normalize_name (word_at (words line)) })
  unfolding ifconfig_line ends_word
  ifconfig_line-front [] scan h = cc
  ifconfig_line-front (c ∷ cs) scan h = rw h

  pub ifconfig_line-header :
      (b : Block) (scan : Scan)
      → IsBlock net b
      → ifconfig_line net (print_header b) scan ≡ state b.name scan.interfaces
  unfolding word_at
  ifconfig_line-header b scan h =
      ifconfig_line-front (print_header b) scan (front-NoSpace b.name _ h.not_nil h.one_word)
      ∙ rw
          (
            header-words b h.not_nil h.one_word,
            normalize_name-label b.name b.colon h.no_at h.no_colon,
          )
          (take_address-lem net (print_header b) b.name scan.interfaces h.not_nil
            ∙ rw (extract-header b h))
