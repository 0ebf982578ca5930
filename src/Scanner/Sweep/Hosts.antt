-- ===== src/Scanner/Sweep/Hosts.antt =====
-- The addresses that are probed.
use native.Mathlib.Nat.{pow-le-pow_right}
use ip_finder.Common.{
  ℕ, zero, suc, ◌+◌, ◌-◌, ◌/◌, ◌%◌, ◌^◌, ◌≤◌, ◌<◌, bit_and, ◌≡◌, refl, ◌∙◌, ap, true, false, not,
  ◌||◌, List, [], ◌∷◌, ◌==◌, ltb, leb, if◌then◌else◌, map, keep, length, length-keep-le, Bool-cases,
  inl, inr, ==_iff, some, arith,
}
use ip_finder.Common.Bits.{bit_and-digit, bit_and-nothing, masked-or-complement}
use ip_finder.Common.Bytes.{Bytes}
use ip_finder.Common.Int.{ℤ, pos}
use ip_finder.Inet.{Inet}
use ip_finder.Network.Interface.{
  NetworkInterface, network, broadcast, complement, prefix_length, usable_host_count, leading_ones,
}
use ip_finder.Network.Interface.Prefix.{complement-lt}
use ip_finder.Scanner.Sweep.{to_dotted, below, link_loop, host_loop, enumerate_subnet_hosts}

-- `n` numbers from `first` on
abbrev pub range : ℕ → ℕ → List ℕ
range first zero = []
range first (suc n) = first ∷ range (first + 1) n

abbrev pub others : ℕ → List ℕ → List ℕ
others own = keep (λ a. not (a == own))

length-range : (first n : ℕ) → length (range first n) ≡ n
length-range first zero = refl
length-range first (suc n) = ap suc (length-range (first + 1) n)

bit_and-le_fuel : (fuel x m : ℕ) → m ≤ fuel → bit_and x m ≤ m
bit_and-le_fuel zero x m h = let e : m ≡ 0 = omega arith in rw (e, bit_and-nothing x) (omega arith)
bit_and-le_fuel (suc fuel) x m h =
    omega (arith, bit_and-digit x m, bit_and-le_fuel fuel (x / 2) (m / 2) (omega arith))

link_loop-range :
    (net : Inet) (iface : NetworkInterface) (left i : ℕ)
    → network iface + i + left ≤ 2 ^ 32
    → link_loop net iface left i
      ≡ map (to_dotted net) (others iface.address (range (network iface + i) left))
unfolding link_loop
link_loop-range net iface zero i h = refl
link_loop-range net iface (suc left) i h =
    let fits : (network iface + i) % 2 ^ 32 ≡ network iface + i = omega arith in
    let next : network iface + (i + 1) ≡ network iface + i + 1 = omega arith in
    let ih = link_loop-range net iface left (i + 1) (omega arith) in
    rw (fits, ih, next) (ground arith)

host_loop-range :
    (net : Inet) (own last n address : ℕ)
    → address + n ≡ last
    → last < 2 ^ 32
    → host_loop net own last (suc n) address
      ≡ some (map (to_dotted net) (others own (range address n)))
unfolding host_loop
host_loop-range net own last zero address e h = ground arith
host_loop-range net own last (suc n) address e h =
    let fits : (address + 1) % 2 ^ 32 ≡ address + 1 = omega arith in
    let more : ltb address last ≡ true = ground arith in
    let ih = host_loop-range net own last n (address + 1) (omega arith) h in
    rw (fits, more, ih) (ground arith)

bit_and-le : (x m : ℕ) → bit_and x m ≤ m
bit_and-le x m = bit_and-le_fuel m x m (omega arith)

-- The network and what the mask leaves free make up the broadcast address, for any mask.
pub broadcast-sum :
    (iface : NetworkInterface)
    → iface.mask < 2 ^ 32
    → (broadcast iface ≡ network iface + complement iface.mask) × (broadcast iface < 2 ^ 32)
unfolding broadcast network
broadcast-sum iface h =
    let e = masked-or-complement 32 iface.address iface.mask h in
    (e, omega (arith, e, bit_and-le iface.address iface.mask))

all_ones : leading_ones 32 4294967295 ≡ 32
unfolding leading_ones
all_ones = refl

-- A shorter prefix than 32 leaves a digit free.
complement-positive :
    (iface : NetworkInterface)
    → iface.mask < 2 ^ 32
    → (prefix_length iface == 32) ≡ false
    → 0 < complement iface.mask
unfolding prefix_length
complement-positive iface h ne = elim (Bool-cases (iface.mask == 4294967295)) [
  | inl e ↦
      absurd (ground (arith, ap (leading_ones 32) ((==_iff iface.mask 4294967295).0 e), all_ones))
  | inr other ↦ ground arith
]

-- The addresses that the loops run over.
abbrev pub swept : NetworkInterface → ℤ → List ℕ
swept iface min_prefix =
    let prefix = prefix_length iface in
    if below prefix min_prefix || iface.mask == 0
    then []
    else if leb 31 prefix
    then range (network iface) (if prefix == 32 then 1 else 2)
    else range (network iface + 1) (complement iface.mask - 1)

link_of_single : (p : ℕ) → (p == 32) ≡ true → leb 31 p ≡ true
link_of_single p h = ground arith

pub enumerate_subnet_hosts-swept :
    (net : Inet) (iface : NetworkInterface) (min_prefix : ℤ)
    → iface.mask < 2 ^ 32
    → enumerate_subnet_hosts net iface min_prefix
      ≡ some (map (to_dotted net) (others iface.address (swept iface min_prefix)))
unfolding enumerate_subnet_hosts
enumerate_subnet_hosts-swept net iface min_prefix h =
    elim (Bool-cases (below (prefix_length iface) min_prefix || iface.mask == 0)) [
      | inl none_wanted ↦ rw none_wanted refl
      | inr wanted ↦ elim (Bool-cases (prefix_length iface == 32)) [
        | inl single ↦
            let link : leb 31 (prefix_length iface) ≡ true =
              link_of_single (prefix_length iface) single in
            rw (wanted, link, single) (from_zero 1 (omega (arith, sum)))
        | inr other ↦ elim (Bool-cases (leb 31 (prefix_length iface))) [
          | inl link ↦
              rw (wanted, link, other)
                (from_zero 2 (omega (arith, sum, complement-positive iface h other)))
          | inr wide ↦
              let free = complement-positive iface h other in
              let fuel : broadcast iface - network iface ≡ suc (complement iface.mask - 1) =
                omega (arith, sum) in
              let start : (network iface + 1) % 2 ^ 32 ≡ network iface + 1 = omega (arith, sum) in
              rw (wanted, wide, fuel, start)
                (host_loop-range net iface.address (broadcast iface) (complement iface.mask - 1)
                  (network iface + 1) (omega (arith, sum)) sum.1)
        ]
      ]
    ]
  where
    sum : (broadcast iface ≡ network iface + complement iface.mask) × (broadcast iface < 2 ^ 32)
    sum = broadcast-sum iface h

    from_zero :
        (left : ℕ)
        → network iface + left ≤ 2 ^ 32
        → some (link_loop net iface left 0)
          ≡ some (map (to_dotted net) (others iface.address (range (network iface) left)))
    from_zero left le =
        let at : network iface + 0 ≡ network iface = omega arith in
        ap some (link_loop-range net iface left 0 (omega arith) ∙ rw at)

length-swept :
    (iface : NetworkInterface) (min_prefix : ℤ)
    → iface.mask < 2 ^ 32
    → length (swept iface min_prefix) ≤ usable_host_count iface
unfolding usable_host_count prefix_length
length-swept iface min_prefix h =
    let free = complement-lt (prefix_length iface) iface.mask h (omega arith) in
    ground (
      arith,
      length-range (network iface) 1,
      length-range (network iface) 2,
      length-range (network iface + 1) (complement iface.mask - 1),
    )

length-map : {A B : Type 0} (f : A → B) (xs : List A) → length (map f xs) ≡ length xs
length-map f [] = refl
length-map f (x ∷ xs) = ap suc (length-map f xs)

usable-le :
    (iface : NetworkInterface) (q : ℕ)
    → q ≤ 30
    → ltb (prefix_length iface) q ≡ false
    → usable_host_count iface ≤ 2 ^ (32 - q) - 2
unfolding usable_host_count
usable-le iface q h enough = elim (Bool-cases (leb 31 (prefix_length iface))) [
  | inl link ↦
      rw link
        (ground (arith, pow-le-pow_right {n = 2} (omega arith) {i = 2} {j = 32 - q} (omega arith)))
  | inr wide ↦ rw wide (
      ground (
        arith,
        pow-le-pow_right {n = 2} (omega arith) {i = 32 - prefix_length iface} {j = 32 - q}
            (ground arith),
      ))
]

length-swept-prefix :
    (iface : NetworkInterface) (q : ℕ)
    → iface.mask < 2 ^ 32
    → q ≤ 30
    → length (swept iface (pos q)) ≤ 2 ^ (32 - q) - 2
length-swept-prefix iface q h le = elim (Bool-cases (ltb (prefix_length iface) q)) [
  | inl short ↦ rw short (omega arith)
  | inr enough ↦ omega (arith, length-swept iface (pos q) h, usable-le iface q le enough)
]

-- For every 32-bit mask, contiguous or not, the enumeration ends and gives at most as many hosts as
-- the interface counts as usable; and with a least prefix length of q, up to 30, at most
-- 2^(32-q) - 2.
pub length-enumerate_subnet_hosts :
    (net : Inet) (iface : NetworkInterface) (min_prefix : ℤ)
    → iface.mask < 2 ^ 32
    → (hosts : List Bytes) × (enumerate_subnet_hosts net iface min_prefix ≡ some hosts)
      × (length hosts ≤ usable_host_count iface)
      × ((q : ℕ) → q ≤ 30 → min_prefix ≡ pos q → length hosts ≤ 2 ^ (32 - q) - 2)
length-enumerate_subnet_hosts net iface min_prefix h =
    let hosts = map (to_dotted net) (others iface.address (swept iface min_prefix)) in
    let few : length hosts ≤ length (swept iface min_prefix) = omega (
      arith,
      length-map (to_dotted net) (others iface.address (swept iface min_prefix)),
      length-keep-le (λ a. not (a == iface.address)) (swept iface min_prefix),
    ) in
    (
      hosts,
      enumerate_subnet_hosts-swept net iface min_prefix h,
      omega (arith, few, length-swept iface min_prefix h),
      λ q le e.
          omega (arith, few, length-swept-prefix iface q h le, ap (λ m. length (swept iface m)) e),
    )
