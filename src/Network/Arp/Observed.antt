-- ===== src/Network/Arp/Observed.antt =====
-- Which addresses are kept.
use ip_finder.Common.{
  ℕ, ◌*◌, ◌+◌, ◌/◌, ◌%◌, ◌^◌, ◌<◌, bit_and, ◌≡◌, ◌≢◌, sym, ◌∙◌, ap, Bool, false, not, ◌&&◌, ◌||◌,
  List, [], ◌∷◌, leb, if-cases, any, is_empty, All, some, Option-cases, Bool-cases, inl, inr, arith,
}
use ip_finder.Common.Bits.{bit_and-leading}
use ip_finder.Common.Bytes.{Bytes, codes, equal, equal_iff, before}
use ip_finder.Inet.{Inet, IsInet}
use ip_finder.Network.Arp.{
  L2Observation, is_zero_mac, is_uninteresting_address, is_multicast_or_none, merge,
  add_observation,
}

-- inet_pton reads the address, below the multicast range, and it is not the text of 0.0.0.0. The
-- broadcast address of a subnet is such an address.
abbrev pub IsBelowMulticast : Inet → Bytes → Type 0
IsBelowMulticast net ip =
    (a : ℕ) × (net.pton (before 0 ip) ≡ some a) × (a < 0xe000_0000) × (ip ≢ codes "0.0.0.0")

abbrev pub Distinct : List L2Observation → Type 0
Distinct [] = Unit
Distinct (o ∷ os) = All (λ p. equal o.ip p.ip ≡ false) os × Distinct os

abbrev pub sees : Bytes → List L2Observation → Bool
sees ip os = any (λ o. equal o.ip ip) os

below_multicast :
    (a : ℕ) → a < 2 ^ 32 → leb 0xe000_0000 (bit_and a 0xf000_0000) ≡ false → a < 0xe000_0000
below_multicast a h small =
    let kept = bit_and-leading 28 4 (a / 2 ^ 28) (a % 2 ^ 28) (omega arith) (omega arith) in
    let e : a / 2 ^ 28 * 2 ^ 28 + a % 2 ^ 28 ≡ a = omega arith in
    ground (arith, ap (λ (t : ℕ). bit_and t 0xf000_0000) e, kept)

all_false : (a b c d : Bool) → (a || b || c || d) ≡ false → (b ≡ false) × (d ≡ false)
all_false a b c d h = ground arith

interesting-IsBelowMulticast :
    (net : Inet)
    → IsInet net
    → (ip : Bytes) → is_uninteresting_address net ip ≡ false
    → IsBelowMulticast net ip
unfolding is_uninteresting_address
interesting-IsBelowMulticast net k ip h =
    let (no_zero, no_multicast) =
      all_false (is_empty ip) (equal ip (codes "0.0.0.0")) (equal ip (codes "255.255.255.255"))
        (is_multicast_or_none (net.pton (before 0 ip))) h in
    let other : ip ≢ codes "0.0.0.0" =
      λ z. absurd (ground (arith, (equal_iff ip (codes "0.0.0.0")).1 z)) in
    elim (Option-cases (net.pton (before 0 ip))) [
      | inl nothing ↦ absurd (ground (arith, ap is_multicast_or_none nothing))
      | inr (a, e) ↦ (
        a,
        e,
        below_multicast a (k.pton-lt (before 0 ip) a e)
            (sym (ap is_multicast_or_none e) ∙ no_multicast),
        other,
      )
    ]

merge-All :
    (Q : Bytes → Type 0) (c : L2Observation) (os : List L2Observation)
    → Q c.ip
    → All (λ o. Q o.ip) os
    → All (λ o. Q o.ip) (merge c os)
unfolding merge
merge-All Q c [] q h = (q, tt)
merge-All Q c (o ∷ os) q (p, h) =
    if-cases (All (λ o. Q o.ip)) (equal o.ip c.ip) _ _
      (λ e. (elim (Bool-cases (is_zero_mac o.mac)) [ inl z ↦ rw z p | inr n ↦ rw n p ], h))
      (λ e. (p, merge-All Q c os q h))

merge-Distinct : (c : L2Observation) (os : List L2Observation) → Distinct os → Distinct (merge c os)
unfolding merge
merge-Distinct c [] h = (tt, tt)
merge-Distinct c (o ∷ os) (h, d) =
    if-cases Distinct (equal o.ip c.ip) _ _
      (λ e. elim (Bool-cases (is_zero_mac o.mac)) [ inl z ↦ rw z (h, d) | inr n ↦ rw n (h, d) ])
      (λ e. (merge-All (λ ip. equal o.ip ip ≡ false) c os e h, merge-Distinct c os d))

merge-sees :
    (c : L2Observation) (os : List L2Observation) (ip : Bytes)
    → sees ip (merge c os) ≡ (sees ip os || equal c.ip ip)
unfolding merge
merge-sees c [] ip = ground arith
merge-sees c (o ∷ os) ip = elim (Bool-cases (equal o.ip c.ip)) [
  | inl e ↦
      let f : equal c.ip ip ≡ equal o.ip ip =
        ap (λ s. equal s ip) (sym ((equal_iff o.ip c.ip).0 e)) in
      elim (Bool-cases (is_zero_mac o.mac)) [
        | inl z ↦ rw (e, z) (ground (arith, f))
        | inr n ↦ rw (e, n) (ground (arith, f))
      ]
  | inr other ↦ ground (arith, merge-sees c os ip)
]

pub merge-macs :
    (c : L2Observation) (os : List L2Observation)
    → is_zero_mac c.mac ≡ false
    → All (λ o. is_zero_mac o.mac ≡ false) os
    → All (λ o. is_zero_mac o.mac ≡ false) (merge c os)
unfolding merge
merge-macs c [] h k = (h, tt)
merge-macs c (o ∷ os) h (m, k) =
    if-cases (All (λ o. is_zero_mac o.mac ≡ false)) (equal o.ip c.ip) _ _ (λ e. rw m (m, k))
      (λ e. (m, merge-macs c os h k))

-- What is kept of the addresses that were seen.
pub record IsObserved (net : Inet) (os : List L2Observation) : Type 0 where
  pub distinct : Distinct os
  pub addresses : All (λ o. IsBelowMulticast net o.ip) os

pub add_observation-IsObserved :
    (net : Inet)
    → IsInet net
    → (os : List L2Observation) (c : L2Observation) → IsObserved net os
    → IsObserved net (add_observation net os c)
unfolding add_observation
add_observation-IsObserved net k os c o =
    if-cases (IsObserved net) (is_uninteresting_address net c.ip) os (merge c os) (λ _. o)
      λ fine. record {
        distinct = merge-Distinct c os o.distinct;
        addresses =
            merge-All (IsBelowMulticast net) c os (interesting-IsBelowMulticast net k c.ip fine)
              o.addresses;
      }

pub add_observation-sees :
    (net : Inet) (os : List L2Observation) (c : L2Observation) (ip : Bytes)
    → sees ip (add_observation net os c)
      ≡ (sees ip os || (not (is_uninteresting_address net c.ip) && equal c.ip ip))
unfolding add_observation
add_observation-sees net os c ip = ground (arith, merge-sees c os ip)

pub add_observation-All :
    (net : Inet) (Q : Bytes → Type 0) (os : List L2Observation) (c : L2Observation)
    → Q c.ip
    → All (λ o. Q o.ip) os
    → All (λ o. Q o.ip) (add_observation net os c)
unfolding add_observation
add_observation-All net Q os c q h =
    if-cases (All (λ o. Q o.ip)) (is_uninteresting_address net c.ip) os (merge c os) (λ _. h)
      (λ _. merge-All Q c os q h)
