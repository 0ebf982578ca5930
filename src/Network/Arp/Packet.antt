-- ===== src/Network/Arp/Packet.antt =====
-- Reading the source address of a captured packet.
use ip_finder.Common.{
  ℕ, suc, ◌+◌, ◌*◌, ◌/◌, ◌%◌, ◌^◌, ◌<◌, ◌≤◌, ◌≡◌, ◌⊎◌, refl, sym, ◌∙◌, ap, false, ◌||◌, [], ◌∷◌,
  ◌++◌, ltb, length, length-append, drop, arith,
}
use ip_finder.Common.Bytes.{Bytes}
use ip_finder.Inet.{Inet}
use ip_finder.Network.Arp.{first_byte, format_ipv4, parse_ipv4_source_address}

-- A packet with a header of `words` 32-bit words, the 11 bytes up to the source address, and what
-- follows it: the destination, the options and the payload.
abbrev pub packet_of : ℕ → Bytes → ℕ → Bytes → Bytes
packet_of words middle source tail =
    (64 + words)
    ∷ (middle
        ++ ((source / 16777216)
            ∷ (source / 65536 % 256)
            ∷ (source / 256 % 256)
            ∷ (source % 256)
            ∷ tail))

-- RFC 791: version 4, and a header of at least 20 bytes that the packet holds.
abbrev pub IsIpv4 : Bytes → Type 0
IsIpv4 packet =
    (first_byte packet / 16 ≡ 4)
    × (20 ≤ first_byte packet % 16 * 4)
    × (first_byte packet % 16 * 4 ≤ length packet)

drop-append : (front back : Bytes) → drop (length front) (front ++ back) ≡ back
drop-append [] back = refl
drop-append (c ∷ front) back = drop-append front back

parse-packet_of :
    (net : Inet) (words : ℕ) (middle : Bytes) (source : ℕ) (tail : Bytes)
    → 5 ≤ words
    → words < 16
    → length middle ≡ 11
    → source < 2 ^ 32
    → words * 4 ≤ 16 + length tail
    → parse_ipv4_source_address net (packet_of words middle source tail) ≡ format_ipv4 net source
unfolding parse_ipv4_source_address
parse-packet_of net words middle source tail least most eleven fits whole =
    let back : Bytes =
      (source / 16777216) ∷ (source / 65536 % 256) ∷ (source / 256 % 256) ∷ (source % 256) ∷ tail in
    let size : length (middle ++ back) ≡ 15 + length tail =
      omega (arith, length-append middle back) in
    let found : drop 11 (middle ++ back) ≡ back =
      ap (λ n. drop n (middle ++ back)) (sym eleven) ∙ drop-append middle back in
    let spelt : ((source / 16777216 * 256 + source / 65536 % 256) * 256 + source / 256 % 256) * 256
          + source % 256
        ≡ source =
      omega arith in
    let version : (64 + words) / 16 ≡ 4 = omega arith in
    let header : (64 + words) % 16 ≡ words = omega arith in
    let long_enough : ltb (suc (15 + length tail)) 20 ≡ false = ground arith in
    let least_header : (ltb (words * 4) 20 || ltb (suc (15 + length tail)) (words * 4)) ≡ false =
      ground arith in
    rw (size, long_enough, version, header, least_header, found) (ap (format_ipv4 net) spelt)

parse-IsIpv4 :
    (net : Inet) (packet : Bytes) → (parse_ipv4_source_address net packet ≡ []) ⊎ IsIpv4 packet
unfolding parse_ipv4_source_address
parse-IsIpv4 net packet = ground arith

-- A packet with a header of 5 to 15 words, which it holds, gives the text of its source address,
-- whatever its other bytes are; and any packet that gives a text has the version and the header
-- length of an IPv4 packet.
pub parse_ipv4_source_address_lem :
    (net : Inet)
    → ((words : ℕ) (middle : Bytes) (source : ℕ) (tail : Bytes)
        → 5 ≤ words
        → words < 16
        → length middle ≡ 11
        → source < 2 ^ 32
        → words * 4 ≤ 16 + length tail
        → parse_ipv4_source_address net (packet_of words middle source tail)
          ≡ format_ipv4 net source)
      × ((packet : Bytes) → (parse_ipv4_source_address net packet ≡ []) ⊎ IsIpv4 packet)
parse_ipv4_source_address_lem net = (parse-packet_of net, parse-IsIpv4 net)
