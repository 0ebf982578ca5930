-- ===== src/App/Choice.antt =====
-- The interface and the device that are used.
use mathlib.Core.List.{
  head-eq_of_cons-eq, tail-eq_of_cons-eq, nil≢cons, Mem, mem-cons_self, mem-cons_of_mem,
}
use ip_finder.Common.{
  ◌≡◌, ◌≢◌, ◌↔◌, ◌⊎◌, refl, sym, ◌∙◌, ap, subst, Bool, true, ◌||◌, List, [], ◌∷◌, if-cases,
  is_empty, keep, All, All-map, Option, none, some, Bool-cases, inl, inr, arith,
}
use ip_finder.Common.Bytes.{Bytes, equal, equal_iff}
use ip_finder.App.{
  ExitCode, chosen, only, success, usage_error, no_device, multiple_devices, find_device,
  choose_device, hinted, select_interface,
}
use ip_finder.Inet.{Inet}
use ip_finder.Network.Interface.{NetworkInterface, Adapter, discover_candidate_interfaces}
use ip_finder.Scanner.Banner.{SshProbeResult}

find_device-Mem :
    (ip : Bytes) (ds : List SshProbeResult) (d : SshProbeResult)
    → find_device ip ds ≡ some d
    → Mem d ds × (d.ip ≡ ip)
unfolding find_device
find_device-Mem ip [] d h = cc
find_device-Mem ip (e ∷ ds) d h = elim (Bool-cases (equal e.ip ip)) [
  | inl same ↦
      let found : e ≡ d = ground arith in
      (
        subst (λ x. Mem x (e ∷ ds)) found mem-cons_self,
        ap (λ (x : SshProbeResult). x.ip) (sym found) ∙ (equal_iff e.ip ip).0 same,
      )
  | inr other ↦
      let (mem, e') = find_device-Mem ip ds d (ground arith) in (mem-cons_of_mem e mem, e')
]

-- A device among those found: the only one, or the one at the address; with a successful code.
abbrev pub IsChoice : Bytes → List SshProbeResult → ExitCode × Option SshProbeResult → Type 0
IsChoice ip devices c =
    ((c.0 ≡ success) ↔ (c.1 ≢ none))
    × ((d : SshProbeResult) → c.1 ≡ some d → Mem d devices × ((devices ≡ d ∷ []) ⊎ (d.ip ≡ ip)))

refused :
    (ip : Bytes) (devices : List SshProbeResult) (c : ExitCode)
    → c ≢ success
    → IsChoice ip devices (c, none)
refused ip devices c h = ((λ e. absurd (h e), λ e. absurd (e refl)), λ d q. cc)

chosen-IsChoice :
    (ip : Bytes) (devices : List SshProbeResult) (o : Option SshProbeResult)
    → find_device ip devices ≡ o
    → IsChoice ip devices (chosen o)
chosen-IsChoice ip devices none e = refused ip devices usage_error (λ q. cc)
chosen-IsChoice ip devices (some f) e = (
  (λ q. (λ z. cc), λ q. refl),
  λ d h. let (mem, at) = find_device-Mem ip devices d (e ∙ h) in (mem, inr at),
)

-- The device that is used was found by a probe, and it is the only one found or the one at the
-- address of --select; there is one exactly when the exit code is success.
pub choose_device-IsChoice :
    (ip : Bytes) (devices : List SshProbeResult) → IsChoice ip devices (choose_device ip devices)
unfolding choose_device
choose_device-IsChoice ip [] = refused ip [] no_device (λ q. cc)
choose_device-IsChoice ip (e ∷ []) = (
  (λ q. (λ z. cc), λ q. refl),
  λ d h.
      let same : e ≡ d = ground arith in
      (
        subst (λ x. Mem x (e ∷ [])) same mem-cons_self,
        inl (ap (λ (x : SshProbeResult). x ∷ []) same),
      ),
)
choose_device-IsChoice ip (e ∷ f ∷ ds) =
    if-cases (IsChoice ip (e ∷ f ∷ ds)) (is_empty ip) _ _
      (λ _. refused ip (e ∷ f ∷ ds) multiple_devices (λ q. cc))
      (λ _. chosen-IsChoice ip (e ∷ f ∷ ds) (find_device ip (e ∷ f ∷ ds)) refl)

-- Whether a candidate has the name of the hint, if one is given.
abbrev pub matches : Bytes → NetworkInterface → Bool
matches hint i = is_empty hint || equal i.name hint

keep-none :
    (p : NetworkInterface → Bool) (is : List NetworkInterface) (i : NetworkInterface)
    → keep p is ≡ []
    → All (λ j. p j ≡ true → j ≡ i) is
keep-none p [] i h = tt
keep-none p (j ∷ is) i h = elim (Bool-cases (p j)) [
  | inl kept ↦ let e : j ∷ keep p is ≡ [] = sym (rw kept refl) ∙ h in absurd (nil≢cons (sym e))
  | inr dropped ↦ ((λ q. absurd (ground arith)), keep-none p is i (sym (rw dropped refl) ∙ h))
]

keep-All :
    (p : NetworkInterface → Bool) (is : List NetworkInterface) (i : NetworkInterface)
    → keep p is ≡ i ∷ []
    → All (λ j. p j ≡ true → j ≡ i) is × Mem i is × (p i ≡ true)
keep-All p [] i h = cc
keep-All p (j ∷ is) i h = elim (Bool-cases (p j)) [
  | inl kept ↦
      let e : j ∷ keep p is ≡ i ∷ [] = sym (rw kept refl) ∙ h in
      let same = head-eq_of_cons-eq e in
      (
        ((λ q. same), keep-none p is i (tail-eq_of_cons-eq e)),
        subst (λ x. Mem x (j ∷ is)) same mem-cons_self,
        ap p (sym same) ∙ kept,
      )
  | inr dropped ↦
      let e : keep p is ≡ i ∷ [] = sym (rw dropped refl) ∙ h in
      let (all, mem, q) = keep-All p is i e in
      (((λ k. absurd (ground arith)), all), mem-cons_of_mem j mem, q)
]

only-success :
    (is : List NetworkInterface) (i : NetworkInterface) → only is ≡ (success, some i) → is ≡ i ∷ []
only-success [] i h = cc
only-success (j ∷ []) i h =
    let same : j ≡ i = ground arith in ap (λ (x : NetworkInterface). x ∷ []) same
only-success (j ∷ k ∷ is) i h = cc

-- The interface that is used is a candidate that matches --interface, and the only such candidate.
pub select_interface-only :
    (net : Inet) (hint : Bytes) (adapters : List Adapter) (i : NetworkInterface)
    → select_interface net hint adapters ≡ (success, some i)
    → All (λ j. matches hint j ≡ true → j ≡ i) (discover_candidate_interfaces net adapters)
      × Mem i (discover_candidate_interfaces net adapters)
      × (matches hint i ≡ true)
unfolding select_interface
select_interface-only net hint adapters i h =
    let cs = discover_candidate_interfaces net adapters in
    let alone = only-success (hinted hint cs) i h in
    elim (Bool-cases (is_empty hint)) [
      | inl free ↦
          let e : cs ≡ i ∷ [] = sym (rw free refl) ∙ alone in
          rw (e, free) (((λ q. refl), tt), mem-cons_self, refl)
      | inr given ↦
          let e : keep (λ j. equal j.name hint) cs ≡ i ∷ [] = sym (rw given refl) ∙ alone in
          let (all, mem, q) = keep-All (λ j. equal j.name hint) cs i e in
          (
            All-map _ (λ j. matches hint j ≡ true → j ≡ i) cs (λ j f k. f (ground arith)) all,
            mem,
            ground arith,
          )
    ]
