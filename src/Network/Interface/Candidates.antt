-- ===== src/Network/Interface/Candidates.antt =====
-- Which snapshots become candidates.
use mathlib.Core.Logic.Or
use mathlib.Core.List.{Mem, mem-cons, mem-cons_self, mem-cons_of_mem, not-mem-nil}
use ip_finder.Common.{
  ℕ, ◌≡◌, sym, ap, ◌∙◌, subst, true, false, List, [], ◌∷◌, All, All-map, inl, inr, Option, none,
  some, Option-cases, arith,
}
use ip_finder.Inet.{Inet}
use ip_finder.Network.Interface.{
  NetworkInterface, InterfaceSnapshot, interface_of, parse_ipv4, is_virtual_interface_name,
  candidate_of, push_some, filter_candidate_interfaces,
}

-- The documented selection rules, for a snapshot whose texts read as an address and a mask.
pub record Qualifies (net : Inet) (s : InterfaceSnapshot) (address mask : ℕ) : Type 0 where
  pub not_loopback : s.is_loopback ≡ false
  pub up : s.is_up ≡ true
  pub running : s.is_running ≡ true
  pub with_ipv4 : s.has_ipv4 ≡ true
  pub real_name : is_virtual_interface_name s.name ≡ false
  pub real_description : is_virtual_interface_name s.description ≡ false
  pub reads_address : parse_ipv4 net s.ipv4 ≡ some address
  pub reads_mask : parse_ipv4 net s.netmask ≡ some mask

-- A candidate comes from a qualifying snapshot of the list.
abbrev pub Selected : Inet → List InterfaceSnapshot → NetworkInterface → Type 0
Selected net ss i =
    (s : InterfaceSnapshot) × Mem s ss
    × Qualifies net s i.address i.mask
    × (i ≡ interface_of s i.address i.mask)

module _ (net : Inet) where
  candidate_of-Qualifies :
      (s : InterfaceSnapshot) (i : NetworkInterface)
      → candidate_of net s ≡ some i
      → Qualifies net s i.address i.mask × (i ≡ interface_of s i.address i.mask)
  unfolding candidate_of
  candidate_of-Qualifies s i h = ground arith

  Qualifies-candidate_of :
      (s : InterfaceSnapshot) (a m : ℕ)
      → Qualifies net s a m
      → candidate_of net s ≡ some (interface_of s a m)
  unfolding candidate_of
  Qualifies-candidate_of s a m q = rw (
    q.not_loopback, q.up, q.running, q.with_ipv4, q.real_name, q.real_description, q.reads_address,
    q.reads_mask,
  )

Mem_prop : {A : Type 0} (x : A) (xs : List A) → IsProp (Mem x xs)
Mem_prop x xs = hlevel

Selected-later :
    (net : Inet) (s : InterfaceSnapshot) (ss : List InterfaceSnapshot) (i : NetworkInterface)
    → Selected net ss i
    → Selected net (s ∷ ss) i
Selected-later net s ss i (t, mem, q, e) = (t, mem-cons_of_mem s mem, q, e)

filter-Selected :
    (net : Inet) (ss : List InterfaceSnapshot)
    → All (Selected net ss) (filter_candidate_interfaces net ss)
unfolding filter_candidate_interfaces
filter-Selected net [] = tt
filter-Selected net (s ∷ ss) =
    let later =
      All-map (Selected net ss) (Selected net (s ∷ ss)) (filter_candidate_interfaces net ss)
        (Selected-later net s ss) (filter-Selected net ss) in
    elim (Option-cases (candidate_of net s)) [
      | inl nothing ↦ rw nothing later
      | inr (i, e) ↦
          let (q, same) = candidate_of-Qualifies net s i e in
          rw e ((s, mem-cons_self, q, same), later)
    ]

Mem-push_some :
    (o : Option NetworkInterface) (i : NetworkInterface) (rest : List NetworkInterface)
    → Mem i rest
    → Mem i (push_some o rest)
Mem-push_some none i rest h = h
Mem-push_some (some j) i rest h = mem-cons_of_mem j h

Qualifies-filter :
    (net : Inet) (ss : List InterfaceSnapshot) (s : InterfaceSnapshot) (a m : ℕ)
    → Mem s ss
    → Qualifies net s a m
    → Mem (interface_of s a m) (filter_candidate_interfaces net ss)
unfolding filter_candidate_interfaces
Qualifies-filter net [] s a m h q = absurd (not-mem-nil h)
Qualifies-filter net (t ∷ ss) s a m h q =
    Or.elim (Mem_prop _ _) (mem-cons.0 h)
      (λ e.
        subst (λ o. Mem (interface_of s a m) (push_some o (filter_candidate_interfaces net ss)))
          (sym (Qualifies-candidate_of net s a m q) ∙ ap (candidate_of net) e) mem-cons_self)
      (λ later. Mem-push_some (candidate_of net t) _ _ (Qualifies-filter net ss s a m later q))

-- The candidates are exactly the snapshots that satisfy the selection rules: each result is the
-- copy of a snapshot that qualifies, with the address and the mask that its texts read as, and each
-- snapshot that qualifies is among the results.
pub filter_candidate_interfaces_lem :
    (net : Inet) (ss : List InterfaceSnapshot)
    → All (Selected net ss) (filter_candidate_interfaces net ss)
      × ((s : InterfaceSnapshot) (a m : ℕ)
          → Mem s ss
          → Qualifies net s a m
          → Mem (interface_of s a m) (filter_candidate_interfaces net ss))
filter_candidate_interfaces_lem net ss = (filter-Selected net ss, Qualifies-filter net ss)
