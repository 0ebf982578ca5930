-- ===== src/Parser/Sound.antt =====
-- What the two parsers may return, whatever text they are given.
use mathlib.Core.HLevel.{⊥_prop}
use mathlib.Core.Logic.Or
use mathlib.Core.List.{Nodup, Nodup-append, Nodup-cons, Nodup-nil, Mem, mem-cons, not-mem-nil}
use ip_finder.Common.{
  true, false, ◌||◌, List, [], ◌∷◌, ◌++◌, ◌≡◌, ◌≢◌, ◌⊎◌, inl, inr, refl, is_empty, any, All,
  All-append, Bool-cases, arith, drop, subst,
}
use ip_finder.Common.Bytes.{Bytes, codes, equal_iff}
use ip_finder.Inet.{Inet}
use ip_finder.Parser.Text.{lines, words, trim, word_at}
use ip_finder.Parser.Append.{not-mem_of_any}
use ip_finder.Parser.{
  RemoteInterface, is_loopback_interface_name, is_valid_ipv4, checked, scan_tokens,
  extract_inet_address, same, append, Scan, scan_start, take_address, ifconfig_line, ifconfig_lines,
  parse_ifconfig_output, ip_addr_line, ip_addr_lines, parse_ip_addr_output,
}

-- A named interface, not the loopback one, with an address that inet_pton accepts.
pub record IsUsable (net : Inet) (i : RemoteInterface) : Type 0 where
  pub named : i.name ≢ []
  pub not_lo : i.name ≢ codes "lo"
  pub not_lo0 : i.name ≢ codes "lo0"
  pub has_address : i.ipv4 ≢ []
  pub valid : is_valid_ipv4 net i.ipv4 ≡ true

pub record IsReport (net : Inet) (interfaces : List RemoteInterface) : Type 0 where
  pub usable : All (IsUsable net) interfaces
  pub distinct : Nodup interfaces

module _ (net : Inet) where
  checked_cases : (c : Bytes) → (checked net c ≡ []) ⊎ (is_valid_ipv4 net (checked net c) ≡ true)
  unfolding checked
  checked_cases c = ground arith

  scan_tokens_cases :
      (ts : List Bytes)
      → (scan_tokens net ts ≡ []) ⊎ (is_valid_ipv4 net (scan_tokens net ts) ≡ true)
  unfolding scan_tokens
  scan_tokens_cases [] = inl refl
  scan_tokens_cases (t ∷ ts) =
      ground (arith, checked_cases (word_at ts), checked_cases (drop 5 t), scan_tokens_cases ts)

  address_cases :
      (line : Bytes)
      → (extract_inet_address net line ≡ [])
        ⊎ (is_valid_ipv4 net (extract_inet_address net line) ≡ true)
  unfolding extract_inet_address
  address_cases line = scan_tokens_cases (words (trim line))

module _ (net : Inet) where
  push-IsReport :
      {xs : List RemoteInterface} (new : RemoteInterface)
      → IsUsable net new
      → ¬ Mem new xs
      → IsReport net xs
      → IsReport net (xs ++ new ∷ [])
  push-IsReport {xs} new u fresh r = record {
    usable = All-append (IsUsable net) xs (new ∷ []) r.usable (u, tt);
    distinct = Nodup-append.1 (
      r.distinct,
      Nodup-cons.1 (not-mem-nil, Nodup-nil),
      λ a old other.
          Or.elim ⊥_prop (mem-cons.0 other) (λ e. fresh (subst (λ b. Mem b xs) e old)) not-mem-nil,
    );
  }

  IsUsable-of_tests :
      (new : RemoteInterface)
      → (is_empty new.name || is_empty new.ipv4 || is_loopback_interface_name new.name) ≡ false
      → is_valid_ipv4 net new.ipv4 ≡ true
      → IsUsable net new
  unfolding is_loopback_interface_name
  IsUsable-of_tests new t v = record {
    named = λ e. ground arith;
    not_lo = λ e. ground (arith, equal_iff new.name (codes "lo"));
    not_lo0 = λ e. ground (arith, equal_iff new.name (codes "lo0"));
    has_address = λ e. ground arith;
    valid = v;
  }

  append-IsReport :
      (xs : List RemoteInterface) (new : RemoteInterface)
      → (is_valid_ipv4 net new.ipv4 ≡ true)
      → IsReport net xs
      → IsReport net (append xs new)
  unfolding append
  append-IsReport xs new v r = elim (Bool-cases (any (λ x. same x new) xs)) [
    | inl dup ↦ ground arith
    | inr fresh ↦ ground (
      arith,
      λ (u : IsUsable net new). push-IsReport new u (not-mem_of_any new xs fresh) r,
      IsUsable-of_tests new,
    )
  ]

  take_address-IsReport :
      (line : Bytes) (scan : Scan)
      → IsReport net scan.interfaces
      → IsReport net (take_address net line scan).interfaces
  unfolding take_address
  take_address-IsReport line scan r = ground (
    arith,
    address_cases net line,
    append-IsReport scan.interfaces
        (record { name = scan.current; ipv4 = extract_inet_address net line }),
  )

  ifconfig_line-IsReport :
      (line : Bytes) (scan : Scan)
      → IsReport net scan.interfaces
      → IsReport net (ifconfig_line net line scan).interfaces
  unfolding ifconfig_line
  ifconfig_line-IsReport [] scan r = r
  ifconfig_line-IsReport (c ∷ cs) scan r = take_address-IsReport (c ∷ cs) _ r

  ip_addr_line-IsReport :
      (line : Bytes) (scan : Scan)
      → IsReport net scan.interfaces
      → IsReport net (ip_addr_line net line scan).interfaces
  unfolding ip_addr_line
  ip_addr_line-IsReport [] scan r = r
  ip_addr_line-IsReport (c ∷ cs) scan r = ground (arith, take_address-IsReport (c ∷ cs) scan r)

  ifconfig_lines-IsReport :
      (ls : List Bytes) (scan : Scan)
      → IsReport net scan.interfaces
      → IsReport net (ifconfig_lines net ls scan).interfaces
  unfolding ifconfig_lines
  ifconfig_lines-IsReport [] scan r = r
  ifconfig_lines-IsReport (l ∷ ls) scan r =
      ifconfig_lines-IsReport ls _ (ifconfig_line-IsReport l scan r)

  ip_addr_lines-IsReport :
      (ls : List Bytes) (scan : Scan)
      → IsReport net scan.interfaces
      → IsReport net (ip_addr_lines net ls scan).interfaces
  unfolding ip_addr_lines
  ip_addr_lines-IsReport [] scan r = r
  ip_addr_lines-IsReport (l ∷ ls) scan r =
      ip_addr_lines-IsReport ls _ (ip_addr_line-IsReport (trim l) scan r)

  start-IsReport : IsReport net []
  start-IsReport = record { usable = tt; distinct = Nodup-nil }

  -- For every text, both parsers return named interfaces other than lo and lo0, each with an
  -- address that inet_pton accepts, and no interface twice with one address.
  pub parse-IsReport :
      (output : Bytes)
      → IsReport net (parse_ifconfig_output net output)
        × IsReport net (parse_ip_addr_output net output)
  unfolding parse_ifconfig_output parse_ip_addr_output
  parse-IsReport output = (
    ifconfig_lines-IsReport (lines output) scan_start start-IsReport,
    ip_addr_lines-IsReport (lines output) scan_start start-IsReport,
  )
