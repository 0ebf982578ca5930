-- ===== src/Tests/IpAddrTests.antt =====
-- A listing of `ip -4 addr` with the loopback link and a link that hangs on another.
use Prim.Native.String.{String}
use mathlib.Core.List.{Nodup}
use ip_finder.Common.{◌≡◌, refl, List, [], ◌∷◌, All, Option, none, some, arith}
use ip_finder.Common.Bytes.{Bytes, codes, equal, starts_with, strip_start, strip_end}
use ip_finder.Parser.IpAddr.{Link, print_links, listed_links, starts_with_digit, IsLink}
use ip_finder.Parser.IpAddr.RoundTrip.{parse-print_links}
use ip_finder.Parser.Listing.{Detail, inet_cidr, remark}
use ip_finder.Parser.Text.{words, is_space, is_digit, is_trimmed, trim}
use ip_finder.Parser.{is_loopback_interface_name, parse_ip_addr_output}
use ip_finder.Tests.Dotted.{dotted, dotted-IsInet}
use ip_finder.Tests.ParserTests.{
  item, first-IsAddress, second-IsAddress, local-IsAddress, items-Nodup,
}

abbrev link : String → String → Option Bytes → String → List Detail → Link
link i n p f ds = record {
  index = codes i;
  name = codes n;
  peer = p;
  flags = codes f;
  details = ds;
}

abbrev pub links : List Link
links =
    link "1" "lo" none "<LOOPBACK> mtu 65536"
      (inet_cidr (codes "127.0.0.1") (codes "8") (codes "scope host lo") ∷ [])
    ∷ link "2" "eth0" none "<UP> mtu 1500" (
        inet_cidr (codes "192.168.10.50") (codes "24") (codes "scope global eth0")
        ∷ remark (codes "   valid_lft forever")
        ∷ [])
    ∷ link "13" "ens33" (some (codes "if3")) "<UP>"
        (inet_cidr (codes "10.20.30.1") (codes "16") [] ∷ [])
    ∷ []

pub links_interfaces :
    listed_links links ≡ item "eth0" "192.168.10.50" ∷ item "ens33" "10.20.30.1" ∷ []
unfolding is_loopback_interface_name
links_interfaces = refl

pub links-IsLink : All (IsLink dotted) links
unfolding is_space is_digit words starts_with equal starts_with_digit trim strip_start strip_end
    is_trimmed
links-IsLink = (
  record {
    index_not_nil = λ e. cc;
    digits = ground arith;
    not_nil = λ e. cc;
    one_word = ground arith;
    no_at = ground arith;
    peer_word = tt;
    one_line = ground arith;
    each_detail = (((local-IsAddress, ground arith, ground arith), tt), tt);
  },
  (
    record {
      index_not_nil = λ e. cc;
      digits = ground arith;
      not_nil = λ e. cc;
      one_word = ground arith;
      no_at = ground arith;
      peer_word = tt;
      one_line = ground arith;
      each_detail = (
        ((first-IsAddress, ground arith, ground arith), tt),
        (((ground arith, ground arith), refl), tt),
      );
    },
    (
      record {
        index_not_nil = λ e. cc;
        digits = ground arith;
        not_nil = λ e. cc;
        one_word = ground arith;
        no_at = ground arith;
        peer_word = ground arith;
        one_line = ground arith;
        each_detail = (((second-IsAddress, ground arith, tt), tt), tt);
      },
      tt,
    ),
  ),
)

pub links-Nodup : Nodup (listed_links links)
links-Nodup = rw links_interfaces items-Nodup

parse-print_links_example : parse_ip_addr_output dotted (print_links links) ≡ listed_links links
parse-print_links_example = parse-print_links dotted dotted-IsInet links links-IsLink links-Nodup
