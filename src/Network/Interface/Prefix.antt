-- ===== src/Network/Interface/Prefix.antt =====
-- Prefix lengths and masks.
use native.Mathlib.Nat.{
  two-pow-succ, div-add-mod', pow-suc, div-div-eq-div-mul, mod-eq-sub-div-mul, mod-eq_of_lt,
  pow-le-pow_right,
}
use ip_finder.Common.{
  ℕ, zero, suc, ◌+◌, ◌-◌, ◌*◌, ◌/◌, ◌%◌, ◌^◌, ◌≤◌, ◌<◌, ◌≡◌, refl, ◌∙◌, ap, sym, ◌==◌, Bool, true,
  false, ◌&&◌, [], and-true, Bool-cases, ltb, lt→ltb, ==_iff, inl, inr, arith, some, ◌∷◌,
}
use ip_finder.Common.Bytes.{Bytes, before_absent}
use ip_finder.Inet.{Inet, IsInet}
use ip_finder.Network.Interface.{
  NetworkInterface, leading_ones, prefix_length, prefix_mask, netmask_from_prefix, parse_ipv4,
  complement,
}

-- One more binary digit of a remainder.
mod-two-pow : (i m : ℕ) → m % 2 ^ suc i ≡ m / 2 ^ i % 2 * 2 ^ i + m % 2 ^ i
mod-two-pow i m =
    let p = 2 ^ i in
    let q = m / p in
    let halved : m / 2 ^ suc i ≡ q / 2 =
      ap (λ (t : ℕ). m / t) (pow-suc 2 i) ∙ sym (div-div-eq-div-mul m p 2) in
    let parts : q ≡ q / 2 * 2 + q % 2 = omega arith in
    omega (
      arith,
      mod-eq-sub-div-mul m (2 ^ suc i),
      ap (λ (t : ℕ). t * 2 ^ suc i) halved,
      ap (λ (t : ℕ). q / 2 * t) (two-pow-succ i),
      div-add-mod' m p,
      ap (λ (t : ℕ). t * p) parts,
    )

leading_ones-bound :
    (i m : ℕ) → (2 ^ i ≤ m % 2 ^ i + 2 ^ (i - leading_ones i m)) × (leading_ones i m ≤ i)
unfolding leading_ones
leading_ones-bound zero m = (omega arith, omega arith)
leading_ones-bound (suc i) m = elim (Bool-cases (m / 2 ^ i % 2 == 1)) [
  | inl one ↦
      let bit : m / 2 ^ i % 2 ≡ 1 = (==_iff (m / 2 ^ i % 2) 1).0 one in
      let ih = leading_ones-bound i m in
      let less : suc i - suc (leading_ones i m) ≡ i - leading_ones i m = omega arith in
      rw one (
        omega (
          arith,
          ih.0,
          mod-two-pow i m,
          two-pow-succ i,
          ap (λ (t : ℕ). t * 2 ^ i) bit,
          ap (λ (t : ℕ). 2 ^ t) less,
        ),
        omega (arith, ih.1),
      )
  | inr other ↦
      let whole : suc i - 0 ≡ suc i = omega arith in
      rw other (omega (arith, ap (λ (t : ℕ). 2 ^ t) whole), omega arith)
]

-- A prefix of ones bounds the complement of the mask, whatever digits follow.
pub complement-lt : (p m : ℕ) → m < 2 ^ 32 → p ≤ leading_ones 32 m → complement m < 2 ^ (32 - p)
complement-lt p m h le =
    let n = leading_ones 32 m in
    omega (
      arith,
      (leading_ones-bound 32 m).0,
      mod-eq_of_lt h,
      pow-le-pow_right {n = 2} (omega arith) {i = 32 - n} {j = 32 - p} (omega arith),
    )

-- Checks a property of every number below the bound by running it.
every_below : ℕ → (ℕ → Bool) → Bool
every_below zero p = true
every_below (suc n) p = p n && every_below n p

every_below_sound : (n : ℕ) (p : ℕ → Bool) → every_below n p ≡ true → (x : ℕ) → x < n → p x ≡ true
unfolding every_below
every_below_sound zero p h x l = absurd (omega arith)
every_below_sound (suc n) p h x l =
    let both = and-true (p n) (every_below n p) h in
    elim (Bool-cases (x == n)) [
      | inl e ↦ rw ((==_iff x n).0 e) both.0
      | inr ne ↦ every_below_sound n p both.1 x (ground arith)
    ]

prefix_table :
    every_below 33
      (λ p. leading_ones 32 (prefix_mask p) == p && prefix_mask p == (2 ^ p - 1) * 2 ^ (32 - p))
    ≡ true
unfolding every_below leading_ones prefix_mask
prefix_table = refl

-- The mask of a prefix length has that many leading ones, and zeros behind them.
pub prefix_mask_lem :
    (p : ℕ)
    → p ≤ 32
    → (leading_ones 32 (prefix_mask p) ≡ p) × (prefix_mask p ≡ (2 ^ p - 1) * 2 ^ (32 - p))
prefix_mask_lem p h =
    let both = and-true _ _ (every_below_sound 33 _ prefix_table p (omega arith)) in
    ((==_iff _ _).0 both.0, (==_iff _ _).0 both.1)

pub prefix_mask-lt : (p : ℕ) → prefix_mask p < 2 ^ 32
unfolding prefix_mask
prefix_mask-lt p = ground arith

parse_ipv4-ntop :
    (net : Inet)
    → IsInet net
    → (a : ℕ) (t : Bytes) → a < 2 ^ 32
    → net.ntop a ≡ some t
    → parse_ipv4 net t ≡ some a
unfolding parse_ipv4
parse_ipv4-ntop net k a [] h e = sym k.pton-nil ∙ k.pton-ntop a [] h e
parse_ipv4-ntop net k a (c ∷ t) h e =
    ap net.pton (before_absent 0 (c ∷ t) (k.ntop-no_zero a (c ∷ t) e)) ∙ k.pton-ntop a (c ∷ t) h e

-- For an address conversion with the documented properties: the netmask text that is made of an
-- on-link prefix length up to 32 reads back as a mask below 2^32, and an interface with that mask
-- has the prefix length that was given; from 33 on the text is empty.
pub prefix_length-netmask_from_prefix :
    (net : Inet)
    → IsInet net
    → (p : ℕ) (iface : NetworkInterface)
    → (p ≤ 32
        → (m : ℕ) × (parse_ipv4 net (netmask_from_prefix net p) ≡ some m)
          × (m < 2 ^ 32)
          × (iface.mask ≡ m → prefix_length iface ≡ p))
      × (32 < p → netmask_from_prefix net p ≡ [])
unfolding netmask_from_prefix prefix_length
prefix_length-netmask_from_prefix net k p iface = (
  (λ h.
      let m = prefix_mask p in
      let (t, e) = k.ntop_total m (prefix_mask-lt p) in
      let fits : ltb 32 p ≡ false = ground arith in
      (
        m,
        rw (fits, e) (parse_ipv4-ntop net k m t (prefix_mask-lt p) e),
        prefix_mask-lt p,
        λ same. ap (leading_ones 32) same ∙ (prefix_mask_lem p h).0,
      )),
  λ h. rw (lt→ltb 32 p h),
)
