-- ===== src/Tests/ParserTests.antt =====
-- Runs of parser/ifconfig_parser.cpp, from tests/test_ifconfig_parser.cpp.
use Prim.Native.String.{String}
use mathlib.Core.HLevel.{⊥_prop}
use mathlib.Core.Logic.Or
use mathlib.Core.List.{Nodup, Nodup-cons, Nodup-nil, mem-cons, not-mem-nil}
use ip_finder.Common.{◌≡◌, refl, Bool, true, false, List, [], ◌∷◌, All, arith}
use ip_finder.Common.Bytes.{Bytes, codes, equal, starts_with}
use ip_finder.Parser.Text.{words, is_space}
use ip_finder.Parser.Sound.{IsReport, parse-IsReport}
use ip_finder.Parser.Listing.{
  Detail, inet, inet_addr, inet_cidr, inet6_addr, remark, Block, print_blocks, listed, IsQuiet,
  IsAddress, IsBlock,
}
use ip_finder.Parser.RoundTrip.{parse-print_blocks}
use ip_finder.Parser.{
  RemoteInterface, is_loopback_interface_name, is_valid_ipv4, parse_ifconfig_output,
  parse_ip_addr_output,
}
use ip_finder.Tests.Dotted.{dotted, dotted-IsInet}

abbrev pub item : String → String → RemoteInterface
item n i = record { name = codes n; ipv4 = codes i }

net_tools :
    parse_ifconfig_output dotted (
      codes
        "eth0: flags=4163<UP>  mtu 1500\n        inet 192.168.10.50  netmask 255.255.255.0\n        inet6 fe80::20c  prefixlen 64\n\nlo: flags=73<UP>\n        inet 127.0.0.1  netmask 255.0.0.0\n")
    ≡ item "eth0" "192.168.10.50" ∷ []
unfolding parse_ifconfig_output dotted
net_tools = refl

busybox :
    parse_ifconfig_output dotted (
      codes
        "ens33     Link encap:Ethernet\n          inet addr:192.168.10.50  Bcast:192.168.10.255\n          inet6 addr: fe80::20c/64 Scope:Link\n")
    ≡ item "ens33" "192.168.10.50" ∷ []
unfolding parse_ifconfig_output dotted
busybox = refl

ip_addr :
    parse_ip_addr_output dotted (
      codes
        "1: lo: <LOOPBACK>\n    inet 127.0.0.1/8 scope host lo\n2: enp1s0@if3: <UP>\n    inet 192.168.10.50/24 brd 192.168.10.255\n")
    ≡ item "enp1s0" "192.168.10.50" ∷ []
unfolding parse_ip_addr_output dotted
ip_addr = refl

abbrev capture : Bytes
capture = codes "eth0: flags=4163<UP>\n        inet 192.168.10.50  netmask 255.255.255.0\n"

parse-IsReport_example :
    IsReport dotted (parse_ifconfig_output dotted capture)
    × IsReport dotted (parse_ip_addr_output dotted capture)
parse-IsReport_example = parse-IsReport dotted capture

abbrev block : String → Bool → String → List Detail → Block
block n colon f ds = record { name = codes n; colon = colon; flags = codes f; details = ds }

abbrev pub listing : List Block
listing =
    block "eth0" true "flags=4163<UP>" (
      inet (codes "192.168.10.50") (codes " netmask 255.255.255.0")
      ∷ remark (codes "ether 00:0c")
      ∷ [])
    ∷ block "ens33" false "    Link encap:Ethernet"
        (inet_addr (codes "10.20.30.1") [] ∷ inet6_addr (codes "fe80::1") ∷ [])
    ∷ block "lo" true "flags=73"
        (inet_cidr (codes "127.0.0.1") (codes "8") (codes "scope host") ∷ [])
    ∷ []

pub listing_interfaces :
    listed listing ≡ item "eth0" "192.168.10.50" ∷ item "ens33" "10.20.30.1" ∷ []
unfolding is_loopback_interface_name
listing_interfaces = refl

quiet :
    {w : Bytes} → equal w (codes "inet") ≡ false → starts_with (codes "addr:") w ≡ false → IsQuiet w
quiet a b = record { not_inet = a; not_addr = b }

pub first-IsAddress : IsAddress dotted (codes "192.168.10.50")
unfolding is_valid_ipv4 dotted is_space starts_with
first-IsAddress = record {
  valid = refl;
  not_nil = λ e. cc;
  one_word = ground arith;
  no_slash = ground arith;
  no_addr = refl;
}

pub second-IsAddress : IsAddress dotted (codes "10.20.30.1")
unfolding is_valid_ipv4 dotted is_space starts_with
second-IsAddress = record {
  valid = refl;
  not_nil = λ e. cc;
  one_word = ground arith;
  no_slash = ground arith;
  no_addr = refl;
}

pub local-IsAddress : IsAddress dotted (codes "127.0.0.1")
unfolding is_valid_ipv4 dotted is_space starts_with
local-IsAddress = record {
  valid = refl;
  not_nil = λ e. cc;
  one_word = ground arith;
  no_slash = ground arith;
  no_addr = refl;
}

pub listing-IsBlock : All (IsBlock dotted) listing
unfolding is_space words starts_with equal
listing-IsBlock = (
  record {
    not_nil = λ e. cc;
    one_word = ground arith;
    no_at = ground arith;
    no_colon = ground arith;
    quiet_name = quiet refl refl;
    one_line = ground arith;
    quiet_flags = ground arith;
    each_detail = ((first-IsAddress, ground arith), ((ground arith, ground arith), tt));
  },
  (
    record {
      not_nil = λ e. cc;
      one_word = ground arith;
      no_at = ground arith;
      no_colon = ground arith;
      quiet_name = quiet refl refl;
      one_line = ground arith;
      quiet_flags = ground arith;
      each_detail = ((second-IsAddress, tt), (ground arith, tt));
    },
    (
      record {
        not_nil = λ e. cc;
        one_word = ground arith;
        no_at = ground arith;
        no_colon = ground arith;
        quiet_name = quiet refl refl;
        one_line = ground arith;
        quiet_flags = ground arith;
        each_detail = ((local-IsAddress, ground arith, ground arith), tt);
      },
      tt,
    ),
  ),
)

pub items-Nodup : Nodup (item "eth0" "192.168.10.50" ∷ item "ens33" "10.20.30.1" ∷ [])
items-Nodup = Nodup-cons.1 (
  (λ m. Or.elim ⊥_prop (mem-cons.0 m) (λ e. cc) not-mem-nil),
  Nodup-cons.1 (not-mem-nil, Nodup-nil),
)

pub listing-Nodup : Nodup (listed listing)
listing-Nodup = rw listing_interfaces items-Nodup

parse-print_blocks_example : parse_ifconfig_output dotted (print_blocks listing) ≡ listed listing
parse-print_blocks_example =
    parse-print_blocks dotted dotted-IsInet listing listing-IsBlock listing-Nodup
