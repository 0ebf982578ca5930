-- ===== src/Parser/Append.antt =====
-- `append`: when it adds an interface, and when it does not.
use mathlib.Core.HLevel.{⊥_prop}
use mathlib.Core.Logic.Or
use mathlib.Core.List.{
  Nodup, Mem, mem-cons, mem-cons_self, mem-cons_of_mem, not-mem-nil, append_assoc, append-nil,
  Nodup-append,
}
use ip_finder.Common.{
  true, false, List, [], ◌∷◌, ◌++◌, ◌≡◌, ◌≢◌, inl, inr, refl, any, Bool-cases, All, arith, ap, sym,
  ◌∙◌, subst,
}
use ip_finder.Common.Bytes.{Bytes, equal_iff}
use ip_finder.Parser.Listing.{named}
use ip_finder.Parser.{RemoteInterface, is_loopback_interface_name, same, append}

same_refl : (a b : RemoteInterface) → a ≡ b → same a b ≡ true
same_refl a b e = ground (
  arith,
  equal_iff a.name b.name,
  equal_iff a.ipv4 b.ipv4,
  ap (λ (x : RemoteInterface). x.name) e,
  ap (λ (x : RemoteInterface). x.ipv4) e,
)

h_head :
    (x new : RemoteInterface) (xs : List RemoteInterface)
    → any (λ y. same y new) (x ∷ xs) ≡ false
    → same x new ≡ false
h_head x new xs h = ground arith

pub not-mem_of_any :
    (new : RemoteInterface) (xs : List RemoteInterface)
    → any (λ x. same x new) xs ≡ false
    → ¬ Mem new xs
not-mem_of_any new [] h m = not-mem-nil m
not-mem_of_any new (x ∷ xs) h m =
    Or.elim ⊥_prop (mem-cons.0 m) (λ e. cc (h_head x new xs h, same_refl x new (sym e)))
      (not-mem_of_any new xs (ground arith))

same-eq : (a b : RemoteInterface) → same a b ≡ true → a ≡ b
same-eq a b h = ground (arith, equal_iff a.name b.name, equal_iff a.ipv4 b.ipv4)

mem_of_any :
    (new : RemoteInterface) (xs : List RemoteInterface)
    → any (λ x. same x new) xs ≡ true
    → Mem new xs
mem_of_any new [] h = cc
mem_of_any new (x ∷ xs) h = elim (Bool-cases (same x new)) [
  | inl e ↦ subst (λ y. Mem y (x ∷ xs)) (same-eq x new e) mem-cons_self
  | inr e ↦ mem-cons_of_mem x (mem_of_any new xs (rw e at h))
]

-- A usable interface that is not known yet is added at the end.
append-fresh :
    (xs : List RemoteInterface) (new : RemoteInterface)
    → new.name ≢ []
    → new.ipv4 ≢ []
    → is_loopback_interface_name new.name ≡ false
    → ¬ Mem new xs
    → append xs new ≡ xs ++ new ∷ []
unfolding append
append-fresh xs new n a l fresh = elim (Bool-cases (any (λ x. same x new) xs)) [
  | inl known ↦ absurd (fresh (mem_of_any new xs known))
  | inr unknown ↦ ground arith
]

pub append_loopback :
    (xs : List RemoteInterface) (new : RemoteInterface)
    → is_loopback_interface_name new.name ≡ true
    → append xs new ≡ xs
unfolding append
append_loopback xs new l = ground arith

-- The addresses of one interface, added one after the other.
abbrev pub added : Bytes → List Bytes → List RemoteInterface → List RemoteInterface
added n [] out = out
added n (a ∷ more) out = added n more (append out (record { name = n; ipv4 = a }))

pub added_loopback :
    (n : Bytes) (addresses : List Bytes) (out : List RemoteInterface)
    → is_loopback_interface_name n ≡ true
    → added n addresses out ≡ out
added_loopback n [] out l = refl
added_loopback n (a ∷ more) out l =
    rw (append_loopback out (record { name = n; ipv4 = a }) l) (added_loopback n more out l)

not-mem_of_Nodup :
    (out rest : List RemoteInterface) (x : RemoteInterface) → Nodup (out ++ x ∷ rest) → ¬ Mem x out
not-mem_of_Nodup out rest x d m = (Nodup-append.0 d).2 x m mem-cons_self

pub added_fresh :
    (n : Bytes) (addresses : List Bytes) (out : List RemoteInterface)
    → n ≢ []
    → is_loopback_interface_name n ≡ false
    → All (λ a. a ≢ []) addresses
    → Nodup (out ++ named n addresses)
    → added n addresses out ≡ out ++ named n addresses
added_fresh n [] out ne l h d = sym (append-nil out)
added_fresh n (a ∷ more) out ne l h d =
    let new : RemoteInterface = record { name = n; ipv4 = a } in
    rw (append-fresh out new ne h.0 l (not-mem_of_Nodup out (named n more) new d)) (
      added_fresh n more (out ++ new ∷ []) ne l h.1
        (subst Nodup (sym (append_assoc out (new ∷ []) (named n more))) d)
      ∙ append_assoc out (new ∷ []) (named n more))
