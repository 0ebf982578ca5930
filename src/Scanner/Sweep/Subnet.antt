-- ===== src/Scanner/Sweep/Subnet.antt =====
-- What is probed under the mask of a prefix length.
use native.Mathlib.Nat.{
  div-add-mod', mod-lt, div-eq_of_lt-le, div-lt_iff_lt-mul, one-le-pow, two-pow-succ,
}
use ip_finder.Common.{
  ℕ, zero, suc, ◌+◌, ◌-◌, ◌*◌, ◌/◌, ◌%◌, ◌^◌, ◌≤◌, ◌<◌, bit_and, ◌≡◌, ap₂, ◌≢◌, ◌↔◌, refl, sym, ◌∙◌,
  ap, Bool, true, false, not, ◌&&◌, List, [], ◌∷◌, ◌==◌, ltb, leb, if◌then◌else◌, map, keep, any,
  All, Bool-cases, inl, inr, ==_iff, some, arith, and-true,
}
use ip_finder.Common.Bits.{bit_and-leading}
use ip_finder.Common.Int.{ℤ}
use ip_finder.Inet.{Inet}
use ip_finder.Network.Interface.{
  NetworkInterface, network, broadcast, complement, prefix_length, prefix_mask, leading_ones,
}
use ip_finder.Network.Interface.Prefix.{prefix_mask_lem, prefix_mask-lt}
use ip_finder.Scanner.Sweep.{to_dotted, below, enumerate_subnet_hosts}
use ip_finder.Scanner.Sweep.Hosts.{
  range, others, swept, broadcast-sum, enumerate_subnet_hosts-swept,
}

abbrev pub probes : ℕ → List ℕ → Bool
probes a xs = any (λ x. x == a) xs

abbrev pub Ascending : List ℕ → Type 0
Ascending [] = Unit
Ascending (x ∷ xs) = All (λ y. x < y) xs × Ascending xs

probes-range : (a first n : ℕ) → probes a (range first n) ≡ (leb first a && ltb a (first + n))
probes-range a first zero = ground arith
probes-range a first (suc n) = ground (arith, probes-range a (first + 1) n)

probes-others :
    (a own : ℕ) (xs : List ℕ) → probes a (others own xs) ≡ (probes a xs && not (a == own))
probes-others a own [] = refl
probes-others a own (x ∷ xs) = ground (arith, probes-others a own xs)

range-above : (x first n : ℕ) → x < first → All (λ y. x < y) (range first n)
range-above x first zero h = tt
range-above x first (suc n) h = (h, range-above x (first + 1) n (omega arith))

range-Ascending : (first n : ℕ) → Ascending (range first n)
range-Ascending first zero = tt
range-Ascending first (suc n) =
    (range-above first (first + 1) n (omega arith), range-Ascending (first + 1) n)

All-keep : (P : ℕ → Type 0) (p : ℕ → Bool) (xs : List ℕ) → All P xs → All P (keep p xs)
All-keep P p [] h = tt
All-keep P p (x ∷ xs) h = elim (Bool-cases (p x)) [
  | inl kept ↦ rw kept (h.0, All-keep P p xs h.1)
  | inr dropped ↦ rw dropped (All-keep P p xs h.1)
]

others-Ascending : (own : ℕ) (xs : List ℕ) → Ascending xs → Ascending (others own xs)
others-Ascending own [] h = tt
others-Ascending own (x ∷ xs) h = elim (Bool-cases (x == own)) [
  | inl kept ↦ rw kept (others-Ascending own xs h.1)
  | inr dropped ↦ rw dropped (All-keep _ _ xs h.0, others-Ascending own xs h.1)
]

same_block : (k q a : ℕ) → 0 < k → (a / k ≡ q) ↔ ((q * k ≤ a) × (a < q * k + k))
same_block k q a h = (
  (λ e.
      let f = ap (λ (t : ℕ). t * k) e in
      (omega (arith, f, div-add-mod' a k), omega (arith, f, div-add-mod' a k, mod-lt a h))),
  λ (l, u). div-eq_of_lt-le {k = q} k l (omega arith),
)

-- The hosts of the link that are not the interface itself: all of its addresses on a /31 or /32,
-- otherwise all but the first and the last.
abbrev pub IsPeer : NetworkInterface → ℕ → ℕ → Type 0
IsPeer iface p a =
    (a ≢ iface.address)
    × (a / 2 ^ (32 - p) ≡ iface.address / 2 ^ (32 - p))
    × (p < 31 → (a ≢ network iface) × (a ≢ broadcast iface))

pow-join : (p k : ℕ) → 2 ^ p * 2 ^ k ≡ 2 ^ (p + k)
pow-join zero k = let e : 0 + k ≡ k = omega arith in rw e (omega arith)
pow-join (suc p) k =
    let e : suc p + k ≡ suc (p + k) = omega arith in
    omega (
      arith,
      ap (λ (t : ℕ). 2 ^ t) e,
      ap (λ (t : ℕ). t * 2 ^ k) (two-pow-succ p),
      two-pow-succ (p + k),
      pow-join p k,
    )

module _ (iface : NetworkInterface) (p : ℕ) (positive : 0 < p) (within : p ≤ 32)
    (masked : iface.mask ≡ prefix_mask p) (fits : iface.address < 2 ^ 32) where
  mask-lt : iface.mask < 2 ^ 32
  mask-lt = rw masked (prefix_mask-lt p)

  blocks : 2 ^ p * 2 ^ (32 - p) ≡ 2 ^ 32
  blocks = let e : p + (32 - p) ≡ 32 = omega arith in pow-join p (32 - p) ∙ ap (λ (t : ℕ). 2 ^ t) e

  network-eq : network iface ≡ iface.address / 2 ^ (32 - p) * 2 ^ (32 - p)
  unfolding network
  network-eq =
      let q = iface.address / 2 ^ (32 - p) in
      let whole : iface.address ≡ q * 2 ^ (32 - p) + iface.address % 2 ^ (32 - p) =
        sym (div-add-mod' iface.address (2 ^ (32 - p))) in
      let kept =
        bit_and-leading (32 - p) p q (iface.address % 2 ^ (32 - p))
          ((div-lt_iff_lt-mul (one-le-pow (32 - p) 2 (omega arith))).1
            (omega (arith, blocks, fits)))
          (mod-lt iface.address (one-le-pow (32 - p) 2 (omega arith))) in
      ap₂ bit_and whole (masked ∙ (prefix_mask_lem p within).1) ∙ kept

  broadcast-eq : broadcast iface ≡ network iface + (2 ^ (32 - p) - 1)
  broadcast-eq =
      let r = 2 ^ p - 1 in
      let e : 2 ^ p ≡ suc r = omega (arith, one-le-pow p 2 (omega arith)) in
      omega (
        arith,
        (broadcast-sum iface mask-lt).0,
        masked,
        (prefix_mask_lem p within).1,
        blocks,
        ap (λ (t : ℕ). t * 2 ^ (32 - p)) e,
      )

  prefix-eq : prefix_length iface ≡ p
  unfolding prefix_length
  prefix-eq = ap (leading_ones 32) masked ∙ (prefix_mask_lem p within).0

  no_ones : leading_ones 32 0 ≡ 0
  unfolding leading_ones
  no_ones = refl

  masked_some : (iface.mask == 0) ≡ false
  masked_some = elim (Bool-cases (iface.mask == 0)) [
    | inl e ↦ absurd (
        omega (
          arith,
          (prefix_mask_lem p within).0,
          ap (leading_ones 32) masked,
          ap (leading_ones 32) ((==_iff iface.mask 0).0 e),
          no_ones,
        ))
    | inr other ↦ other
  ]

  link_size : leb 31 p ≡ true → (if p == 32 then 1 else 2) ≡ 2 ^ (32 - p)
  link_size h = elim (Bool-cases (p == 32)) [
    | inl single ↦ let e : 32 - p ≡ 0 = ground arith in rw (single, e)
    | inr double ↦ let e : 32 - p ≡ 1 = ground arith in rw (double, e)
  ]

  free_size : complement iface.mask ≡ 2 ^ (32 - p) - 1
  free_size = omega (arith, (broadcast-sum iface mask-lt).0, broadcast-eq)

  swept-range :
      (min_prefix : ℤ)
      → below p min_prefix ≡ false
      → swept iface min_prefix ≡ (
          if leb 31 p
          then range (network iface) (2 ^ (32 - p))
          else range (network iface + 1) (2 ^ (32 - p) - 1 - 1))
  swept-range min_prefix wide = elim (Bool-cases (leb 31 p)) [
    | inl link ↦ rw (prefix-eq, wide, masked_some, link, link_size link) refl
    | inr more ↦ rw (prefix-eq, wide, masked_some, more, free_size) refl
  ]

  if-range-Ascending :
      (b : Bool) (first count first' count' : ℕ)
      → Ascending (if b then range first count else range first' count')
  if-range-Ascending true first count first' count' = range-Ascending first count
  if-range-Ascending false first count first' count' = range-Ascending first' count'

  -- The addresses of the block, without its ends where the link is wider than two addresses.
  swept-block :
      (min_prefix : ℤ) (a : ℕ)
      → below p min_prefix ≡ false
      → (probes a (swept iface min_prefix) ≡ true) ↔ (
          (a / 2 ^ (32 - p) ≡ iface.address / 2 ^ (32 - p))
          × (p < 31 → (a ≢ network iface) × (a ≢ broadcast iface)))
  swept-block min_prefix a wide =
      let block =
        same_block (2 ^ (32 - p)) (iface.address / 2 ^ (32 - p)) a
          (one-le-pow (32 - p) 2 (omega arith)) in
      elim (Bool-cases (leb 31 p)) [
        | inl link ↦
            rw (swept-range min_prefix wide, link, probes-range a (network iface) (2 ^ (32 - p)))
              (
                λ h. (block.1 (ground (arith, network-eq)), λ s. absurd (ground arith)),
                λ (e, _). let b = block.0 e in ground (arith, network-eq),
              )
        | inr more ↦
            rw
              (
                swept-range min_prefix wide,
                more,
                probes-range a (network iface + 1) (2 ^ (32 - p) - 1 - 1),
              )
              (
                λ h. (
                  block.1 (ground (arith, network-eq)),
                  λ s. (λ e. ground arith, λ e. ground (arith, broadcast-eq)),
                ),
                λ (e, ends).
                    let b = block.0 e in
                    let d = ends (ground arith) in ground (arith, network-eq, broadcast-eq),
              )
      ]

-- For the mask of a prefix length p from 1 to 32 that is not below the least one: the enumeration
-- ends, and it gives the texts of exactly the other hosts of the subnet, each once and in ascending
-- order.
pub enumerate_subnet_hosts-IsPeer :
    (net : Inet) (iface : NetworkInterface) (min_prefix : ℤ) (p : ℕ)
    → 0 < p
    → p ≤ 32
    → iface.mask ≡ prefix_mask p
    → iface.address < 2 ^ 32
    → below p min_prefix ≡ false
    → (addresses : List ℕ) × (enumerate_subnet_hosts net iface min_prefix
        ≡ some (map (to_dotted net) addresses))
      × Ascending addresses
      × ((a : ℕ) → (probes a addresses ≡ true) ↔ IsPeer iface p a)
enumerate_subnet_hosts-IsPeer net iface min_prefix p positive within masked fits wide = (
  others iface.address (swept iface min_prefix),
  enumerate_subnet_hosts-swept net iface min_prefix (mask-lt iface p positive within masked fits),
  others-Ascending iface.address _ (
      rw (swept-range iface p positive within masked fits min_prefix wide)
        (if-range-Ascending iface p positive within masked fits (leb 31 p) _ _ _ _)),
  λ a.
      let kept = probes-others a iface.address (swept iface min_prefix) in
      let block = swept-block iface p positive within masked fits min_prefix a wide in
      (
        λ h.
            let both =
              and-true (probes a (swept iface min_prefix)) (not (a == iface.address))
                (sym kept ∙ h) in
            let (same, ends) = block.0 both.0 in (λ e. ground arith, same, ends),
        λ (other, same, ends). rw (kept, block.1 (same, ends)) (ground arith),
      ),
)
