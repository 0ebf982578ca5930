-- ===== src/Network/Interface/Names.antt =====
-- Which names count as virtual.
use mathlib.Core.Logic.Or
use mathlib.Core.List.{Mem, mem-cons, mem-cons_self, mem-cons_of_mem, not-mem-nil}
use ip_finder.Common.{
  ℕ, ◌-◌, ◌≡◌, ◌↔◌, refl, ap, subst, Bool, true, ◌||◌, ◌&&◌, List, [], ◌∷◌, ◌++◌, map, leb,
  if◌then◌else◌, inl, inr, Bool-cases, arith,
}
use ip_finder.Common.Bytes.{Bytes, starts_with, contains, starts_with-append, starts_with-eq_append}
use ip_finder.Network.Interface.{
  lower, to_lower, virtual_markers, holds_marker, is_virtual_interface_name,
}

-- A text with the part in it, and what stands around it.
pub record Occurs (part s : Bytes) : Type 0 where
  pub front : Bytes
  pub back : Bytes
  pub splits : s ≡ front ++ (part ++ back)

contains-Occurs : (part s : Bytes) → contains part s ≡ true → Occurs part s
unfolding contains
contains-Occurs part [] h =
    let (t, e) = starts_with-eq_append part [] h in record { front = []; back = t; splits = e }
contains-Occurs part (c ∷ s) h = elim (Bool-cases (starts_with part (c ∷ s))) [
  | inl now ↦
      let (t, e) = starts_with-eq_append part (c ∷ s) now in
      record { front = []; back = t; splits = e }
  | inr no_start ↦
      let o = contains-Occurs part s (rw no_start at h) in
      record { front = c ∷ o.front; back = o.back; splits = ap (◌∷◌ c) o.splits }
]

contains_start : (part s : Bytes) → starts_with part s ≡ true → contains part s ≡ true
unfolding contains
contains_start part [] h = h
contains_start part (c ∷ s) h = ground arith

contains_later : (part s : Bytes) (c : ℕ) → contains part s ≡ true → contains part (c ∷ s) ≡ true
unfolding contains
contains_later part s c h = ground arith

pub contains-append : (front part back : Bytes) → contains part (front ++ (part ++ back)) ≡ true
contains-append [] part back = contains_start part (part ++ back) (starts_with-append part back)
contains-append (c ∷ front) part back =
    contains_later part (front ++ (part ++ back)) c (contains-append front part back)

is_true_prop : (b : Bool) → IsProp (b ≡ true)
is_true_prop b = hlevel

holds_marker-Occurs :
    (ms : List Bytes) (s : Bytes) → holds_marker ms s ≡ true → (m : Bytes) × Mem m ms × Occurs m s
unfolding holds_marker
holds_marker-Occurs [] s h = cc
holds_marker-Occurs (m ∷ ms) s h = elim (Bool-cases (contains m s)) [
  | inl here ↦ (m, mem-cons_self, contains-Occurs m s here)
  | inr not_here ↦
      let (n, mem, o) = holds_marker-Occurs ms s (rw not_here at h) in (n, mem-cons_of_mem m mem, o)
]

Occurs-holds_marker :
    (ms : List Bytes) (m s : Bytes) → Mem m ms → Occurs m s → holds_marker ms s ≡ true
unfolding holds_marker
Occurs-holds_marker [] m s mem o = absurd (not-mem-nil mem)
Occurs-holds_marker (n ∷ ms) m s mem o =
    Or.elim (is_true_prop _) (mem-cons.0 mem)
      (λ e. here e (rw o.splits (contains-append o.front m o.back)))
      (λ later. more (Occurs-holds_marker ms m s later o))
  where
    here : m ≡ n → contains m s ≡ true → (contains n s || holds_marker ms s) ≡ true
    here e h = let h' = subst (λ k. contains k s ≡ true) e h in rw h'

    more : holds_marker ms s ≡ true → (contains n s || holds_marker ms s) ≡ true
    more h = ground arith

pub upper : ℕ → ℕ
upper c = if leb b'a' c && leb c b'z' then c - 32 else c

lower-upper : (c : ℕ) → lower (upper c) ≡ lower c
unfolding lower upper
lower-upper c = ground arith

to_lower-upper : (s : Bytes) → to_lower (map upper s) ≡ to_lower s
unfolding to_lower
to_lower-upper [] = refl
to_lower-upper (c ∷ s) = cc (lower-upper c, to_lower-upper s)

-- A name counts as virtual exactly when one of the markers occurs somewhere in it, in lower case;
-- so spelling it in capitals changes nothing.
pub is_virtual_interface_name_lem :
    (name : Bytes)
    → ((is_virtual_interface_name name ≡ true)
        ↔ ((m : Bytes) × Mem m virtual_markers × Occurs m (to_lower name)))
      × (is_virtual_interface_name (map upper name) ≡ is_virtual_interface_name name)
unfolding is_virtual_interface_name
is_virtual_interface_name_lem name = (
  (
    holds_marker-Occurs virtual_markers (to_lower name),
    λ (m, mem, o). Occurs-holds_marker virtual_markers m (to_lower name) mem o,
  ),
  ap (holds_marker virtual_markers) (to_lower-upper name),
)
