-- ===== src/Network/Arp/Neighbours.antt =====
-- What is taken from the neighbour cache.
use ip_finder.Common.{
  ℕ, ◌≡◌, refl, Bool, false, not, ◌&&◌, ◌||◌, List, [], ◌∷◌, ◌==◌, if◌then◌else◌, if-cases, any,
  All, Bool-cases, inl, inr, arith,
}
use ip_finder.Common.Bytes.{Bytes, equal}
use ip_finder.Inet.{Inet, IsInet}
use ip_finder.Network.Arp.{
  L2Observation, NeighbourEntry, neighbour_cache, is_zero_mac, is_uninteresting_address, merge,
  add_observation, select_loop, select_neighbour_entries,
}
use ip_finder.Network.Arp.Observed.{
  IsObserved, sees, merge-macs, add_observation-IsObserved, add_observation-sees,
}

-- A row of the interface, with a hardware address, that is not marked as unreachable.
abbrev pub usable : ℕ → NeighbourEntry → Bool
usable if_index e = e.if_index == if_index && e.reachable && not (is_zero_mac e.mac)

-- A usable row for the address, which is not uninteresting.
abbrev pub shows : Inet → ℕ → Bytes → NeighbourEntry → Bool
shows net if_index ip e =
    usable if_index e && (not (is_uninteresting_address net e.ip) && equal e.ip ip)

abbrev observation_of : NeighbourEntry → L2Observation
observation_of e = record { ip = e.ip; mac = e.mac; source = neighbour_cache }

usable-skip :
    (if_index : ℕ) (e : NeighbourEntry)
    → (not (e.if_index == if_index) || not e.reachable || is_zero_mac e.mac)
      ≡ not (usable if_index e)
usable-skip if_index e = ground arith

abbrev HasMacs : List L2Observation → Type 0
HasMacs = All (λ o. is_zero_mac o.mac ≡ false)

module _ (net : Inet) (if_index : ℕ) where
  add_observation-macs :
      (os : List L2Observation) (c : L2Observation)
      → is_zero_mac c.mac ≡ false
      → HasMacs os
      → HasMacs (add_observation net os c)
  unfolding add_observation
  add_observation-macs os c h k =
      if-cases HasMacs (is_uninteresting_address net c.ip) os (merge c os) (λ _. k)
        (λ _. merge-macs c os h k)

  select_loop-cons :
      (e : NeighbourEntry) (es : List NeighbourEntry) (os : List L2Observation)
      → select_loop net if_index (e ∷ es) os ≡ (
          if usable if_index e
          then select_loop net if_index es (add_observation net os (observation_of e))
          else select_loop net if_index es os)
  unfolding select_loop
  select_loop-cons e es os = ground (arith, usable-skip if_index e)

  select_loop-kept :
      IsInet net
      → (es : List NeighbourEntry) (os : List L2Observation) → IsObserved net os
      → HasMacs os
      → IsObserved net (select_loop net if_index es os) × HasMacs (select_loop net if_index es os)
  select_loop-kept k [] os o m = unfold select_loop in (o, m)
  select_loop-kept k (e ∷ es) os o m = elim (Bool-cases (usable if_index e)) [
    | inl good ↦
        rw (select_loop-cons e es os, good)
          (select_loop-kept k es (add_observation net os (observation_of e))
            (add_observation-IsObserved net k os (observation_of e) o)
            (add_observation-macs os (observation_of e) (ground arith) m))
    | inr bad ↦ rw (select_loop-cons e es os, bad) (select_loop-kept k es os o m)
  ]

  select_loop-sees :
      (es : List NeighbourEntry) (os : List L2Observation) (ip : Bytes)
      → sees ip (select_loop net if_index es os) ≡ (sees ip os || any (shows net if_index ip) es)
  select_loop-sees [] os ip = unfold select_loop in (ground arith)
  select_loop-sees (e ∷ es) os ip = elim (Bool-cases (usable if_index e)) [
    | inl good ↦
        let rest = select_loop-sees es (add_observation net os (observation_of e)) ip in
        let now = add_observation-sees net os (observation_of e) ip in
        rw (select_loop-cons e es os, good, rest, now) (ground arith)
    | inr bad ↦ rw (select_loop-cons e es os, bad, select_loop-sees es os ip) refl
  ]

-- For an address conversion with the documented properties: what is selected from the neighbour
-- cache holds no address twice, and only addresses below the multicast range other than 0.0.0.0,
-- each with a hardware address that is not zero; and an address is selected exactly when a usable
-- row of the interface shows it, also where it is the broadcast address of the subnet.
pub select_neighbour_entries_lem :
    (net : Inet) (entries : List NeighbourEntry) (if_index : ℕ)
    → IsInet net
    → IsObserved net (select_neighbour_entries net entries if_index)
      × All (λ o. is_zero_mac o.mac ≡ false) (select_neighbour_entries net entries if_index)
      × ((ip : Bytes)
          → sees ip (select_neighbour_entries net entries if_index)
            ≡ any (shows net if_index ip) entries)
unfolding select_neighbour_entries
select_neighbour_entries_lem net entries if_index k =
    let (o, m) =
      select_loop-kept net if_index k entries [] (record { distinct = tt; addresses = tt }) tt in
    (o, m, λ ip. select_loop-sees net if_index entries [] ip)
