-- ===== src/Parser/Details.antt =====
-- The address that is read from each kind of line.
use mathlib.Core.List.{append_assoc, append-ne-nil_of_right_ne-nil}
use ip_finder.Common.{
  ℕ, true, false, List, [], ◌∷◌, ◌++◌, ◌≡◌, ◌≢◌, refl, ◌==◌, All, ap, sym, ◌∙◌, arith, All-append,
}
use ip_finder.Common.Bytes.{Bytes, codes, starts_with, before, before_absent}
use ip_finder.Inet.{Inet, IsInet}
use ip_finder.Parser.Text.{is_space, words, ends_word}
use ip_finder.Parser.Words.{NoSpace, words-append, words-trim}
use ip_finder.Parser.Listing.{
  Detail, inet, inet_addr, inet_cidr, inet6_addr, remark, print_detail, indent, IsQuiet, IsAddress,
  IsDetail,
}
use ip_finder.Parser.{is_valid_ipv4, checked, scan_tokens, extract_inet_address}

ne-cidr : (a p : Bytes) → a ++ b'/' ∷ p ≢ []
ne-cidr a p = append-ne-nil_of_right_ne-nil a (λ e. cc)

-- A byte that the prefix lacks does not complete it.
starts_with-stop :
    (b : ℕ) (q a p : Bytes)
    → All (λ c. (c == b) ≡ false) q
    → starts_with q (a ++ b ∷ p) ≡ starts_with q a
unfolding starts_with
starts_with-stop b [] a p h = refl
starts_with-stop b (c ∷ q) [] p h = ground arith
starts_with-stop b (c ∷ q) (d ∷ a) p h = ground (arith, starts_with-stop b q a p h.1)

pub ends_blank : (t : Bytes) → ends_word (b' ' ∷ t) ≡ true
unfolding ends_word
ends_blank t = refl

pub before-append :
    (b : ℕ) (a rest : Bytes) → All (λ c. (c == b) ≡ false) a → before b (a ++ b ∷ rest) ≡ a
unfolding before
before-append b [] rest h = ground arith
before-append b (c ∷ a) rest h = ground (arith, before-append b a rest h.1)

module _ (net : Inet) where
  -- What is read of a candidate that spells an address, with a prefix length or without.
  checked-bare :
      (c a : Bytes)
      → starts_with (codes "addr:") c ≡ false
      → before b'/' c ≡ a
      → is_valid_ipv4 net a ≡ true
      → checked net c ≡ a
  unfolding checked
  checked-bare c a n e v = ground arith

  checked-address : (a : Bytes) → IsAddress net a → checked net a ≡ a
  checked-address a h = checked-bare a a h.no_addr (before_absent b'/' a h.no_slash) h.valid

  checked-addr : (a : Bytes) → IsAddress net a → checked net (codes "addr:" ++ a) ≡ a
  unfolding checked
  checked-addr a h = ground (arith, before_absent b'/' a h.no_slash, h.valid)

  pub scan_tokens-quiet : (ws : List Bytes) → All IsQuiet ws → scan_tokens net ws ≡ []
  unfolding scan_tokens
  scan_tokens-quiet [] q = refl
  scan_tokens-quiet (w ∷ ws) q = ground (arith, scan_tokens-quiet ws q.1)

  pub extract-words : (line : Bytes) → extract_inet_address net line ≡ scan_tokens net (words line)
  unfolding extract_inet_address
  extract-words line = ap (scan_tokens net) (words-trim line)

  scan-inet :
      (w : Bytes) (ws : List Bytes) → scan_tokens net (codes "inet" ∷ w ∷ ws) ≡ checked net w
  unfolding scan_tokens
  scan-inet w ws = refl

  words-indent : (s : Bytes) → words (indent ++ s) ≡ words s
  unfolding words
  words-indent s = refl

  words-inet : (s : Bytes) → words (codes "inet " ++ s) ≡ codes "inet" ∷ words s
  unfolding words
  words-inet s = refl

  words-inet6 :
      (s : Bytes) → words (codes "inet6 addr: " ++ s) ≡ codes "inet6" ∷ codes "addr:" ∷ words s
  unfolding words
  words-inet6 s = refl

  scan-inet6 :
      IsInet net → (ws : List Bytes) → scan_tokens net (codes "inet6" ∷ codes "addr:" ∷ ws) ≡ []
  unfolding scan_tokens
  scan-inet6 k ws = ground (arith, k.pton-nil)

  -- The address of a line, if it has one.
  abbrev pub address_of : Detail → Bytes
  address_of (inet a t) = a
  address_of (inet_addr a t) = a
  address_of (inet_cidr a p t) = a
  address_of (inet6_addr t) = []
  address_of (remark t) = []

  extract-inet :
      (w t : Bytes)
      → w ≢ []
      → NoSpace w
      → extract_inet_address net (indent ++ (codes "inet " ++ (w ++ b' ' ∷ t))) ≡ checked net w
  extract-inet w t ne h =
      rw (extract-words, words-indent, words-inet, words-append w _ ne h (ends_blank t), scan-inet)

  NoSpace-addr : (a : Bytes) → NoSpace a → NoSpace (codes "addr:" ++ a)
  unfolding is_space
  NoSpace-addr a h = (refl, (refl, (refl, (refl, (refl, h)))))

  NoSpace-cidr : (a p : Bytes) → NoSpace a → NoSpace p → NoSpace (a ++ b'/' ∷ p)
  unfolding is_space
  NoSpace-cidr a p h k = All-append _ a (b'/' ∷ p) h (refl, k)

  checked-cidr : (a p : Bytes) → IsAddress net a → checked net (a ++ b'/' ∷ p) ≡ a
  checked-cidr a p h =
      checked-bare (a ++ b'/' ∷ p) a
        (starts_with-stop b'/' (codes "addr:") a p (refl, (refl, (refl, (refl, (refl, tt)))))
          ∙ h.no_addr)
        (before-append b'/' a p h.no_slash) h.valid

  pub extract-detail :
      IsInet net
      → (d : Detail) → IsDetail net d
      → extract_inet_address net (indent ++ print_detail d) ≡ address_of d
  extract-detail k (inet a t) h = extract-inet a t h.0.not_nil h.0.one_word ∙ checked-address a h.0
  extract-detail k (inet_addr a t) h =
      extract-inet (codes "addr:" ++ a) t (λ e. cc) (NoSpace-addr a h.0.one_word)
      ∙ checked-addr a h.0
  extract-detail k (inet_cidr a p t) h =
      ap (λ s. extract_inet_address net (indent ++ (codes "inet " ++ s)))
        (sym (append_assoc a (b'/' ∷ p) (b' ' ∷ t)))
      ∙ extract-inet (a ++ b'/' ∷ p) t (ne-cidr a p) (NoSpace-cidr a p h.0.one_word h.1)
      ∙ checked-cidr a p h.0
  extract-detail k (inet6_addr t) h =
      rw (extract-words, words-indent, words-inet6) (scan-inet6 k (words t))
  extract-detail k (remark t) h = rw (extract-words, words-indent) (scan_tokens-quiet (words t) h.1)
