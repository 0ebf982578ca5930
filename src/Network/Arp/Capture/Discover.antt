-- ===== src/Network/Arp/Capture/Discover.antt =====
-- The discovery on a link: the addresses it gives, its sockets and its waits.
use ip_finder.Common.{
  ◌^◌, ℕ, zero, suc, ◌+◌, ◌-◌, ◌/◌, ◌<◌, ◌≤◌, min, ◌≡◌, ◌≢◌, refl, sym, ◌∙◌, ap, subst, true, false,
  not, ◌||◌, List, [], ◌∷◌, ==_refl, leb, if-cases, is_empty, is_some, All, Option, some,
  Option-cases, inl, inr, arith,
}
use ip_finder.Common.Bytes.{Bytes, equal, equal_iff, before}
use ip_finder.Common.Int.{after_ms, pos, ℤ, is_zero}
use ip_finder.Inet.{Inet, IsInet}
use ip_finder.Network.Arp.{
  L2Observation, L2DiscoveryResult, add_observation, parse_ipv4_source_address, Row,
  read_neighbour_cache,
}
use ip_finder.Network.Arp.Capture.{
  Received, packet, no_packet, failed, Round, breaks, observe, capture_loop, Link, capture_on,
  capture_link_traffic, add_cached, conclude, discover_link_layer_hosts,
}
use ip_finder.Network.Arp.Observed.{IsObserved, add_observation-IsObserved, add_observation-All}
use ip_finder.Network.Interface.{NetworkInterface}
use ip_finder.Platform.Waiting.{WaitsAtMost, wait-WaitsAtMost, close-waits, open-waits}
use ip_finder.Platform.{Sockets, open_socket, close_socket, wait_for_socket}

-- Addresses that were seen on the link, other than the PC's own.
abbrev pub IsOthers : Inet → Bytes → List L2Observation → Type 0
IsOthers net own os = IsObserved net os × All (λ o. o.ip ≢ own) os

wait-handles : (t rc : ℤ) (w : Sockets) → (wait_for_socket t rc w).1.open_handles ≡ w.open_handles
unfolding wait_for_socket
wait-handles t rc w = refl

wait-answer : (t rc : ℤ) (w : Sockets) → (wait_for_socket t rc w).0 ≡ rc
unfolding wait_for_socket
wait-answer t rc w = refl

close-handles :
    (h : ℕ) (handles : List ℕ) (w : Sockets)
    → w.open_handles ≡ h ∷ handles
    → (close_socket (some h) w).1.open_handles ≡ handles
unfolding close_socket
close-handles h handles w e = rw e (ground (arith, ==_refl h))

module _ (net : Inet) (k : IsInet net) (own : Bytes) (bound : ℕ) (slice : 200 ≤ bound)
    (short : bound < 2 ^ 31) where
  add-IsOthers :
      (os : List L2Observation) (c : L2Observation)
      → equal c.ip own ≡ false
      → IsOthers net own os
      → IsOthers net own (add_observation net os c)
  add-IsOthers os c ne (o, a) = (
    add_observation-IsObserved net k os c o,
    add_observation-All net (λ ip. ip ≢ own) os c
        (λ e. absurd (ground (arith, (equal_iff c.ip own).1 e))) a,
  )

  observe-IsOthers :
      (os : List L2Observation) (r : Received)
      → IsOthers net own os
      → IsOthers net own (observe net own os r)
  unfolding observe
  observe-IsOthers os (packet p) o =
      if-cases (IsOthers net own)
        (is_empty (parse_ipv4_source_address net p) || equal (parse_ipv4_source_address net p) own)
        os _ (λ _. o) (λ ne. add-IsOthers os _ (ground arith) o)
  observe-IsOthers os no_packet o = o
  observe-IsOthers os failed o = o

  -- The loop has ended with addresses that were seen.
  abbrev Captured : Sockets → Option (List L2Observation × Sockets) → Type 0
  Captured w o =
      (os : List L2Observation) × (w' : Sockets) × (o ≡ some (os, w'))
      × IsOthers net own os
      × (w'.open_handles ≡ w.open_handles)
      × All (WaitsAtMost bound) w'.waits

  capture_loop-Captured :
      (rounds : ℕ → Round) (deadline fuel i n : ℕ) (os : List L2Observation) (w w0 : Sockets)
      → n < fuel
      → deadline ≤ (rounds (i + n)).now
      → IsOthers net own os
      → w.open_handles ≡ w0.open_handles
      → All (WaitsAtMost bound) w.waits
      → Captured w0 (capture_loop net own fuel rounds i deadline os w)
  unfolding capture_loop
  capture_loop-Captured rounds deadline zero i n os w w0 l late o e ws = absurd (omega arith)
  capture_loop-Captured rounds deadline (suc fuel) i zero os w w0 l late o e ws =
      let here : i + 0 ≡ i = omega arith in
      let over : deadline ≤ (rounds i).now = subst (λ j. deadline ≤ (rounds j).now) here late in
      let stop : leb deadline (rounds i).now ≡ true = ground arith in
      if-cases (Captured w0) (leb deadline (rounds i).now) _ _ (λ _. (os, w, refl, o, e, ws))
        (λ early. absurd (ground arith))
  capture_loop-Captured rounds deadline (suc fuel) i (suc n) os w w0 l late o e ws =
      let r = rounds i in
      let t = pos (min ((deadline - r.now) / 1000000) 200) in
      let w' = (wait_for_socket t r.poll w).1 in
      let e' = wait-handles t r.poll w ∙ e in
      let ws' =
        wait-WaitsAtMost bound (min ((deadline - r.now) / 1000000) 200) r.poll w short (omega arith)
          ws in
      let next : i + suc n ≡ suc i + n = omega arith in
      if-cases (Captured w0) (leb deadline r.now) _ _ (λ _. (os, w, refl, o, e, ws))
        λ early.
          if-cases (Captured w0) (breaks r) _ _ (λ _. (os, w', refl, o, e', ws'))
            λ _.
              capture_loop-Captured rounds deadline fuel (suc i) n _ w' w0 (omega arith)
                (subst (λ j. deadline ≤ (rounds j).now) next late)
                (if-cases (IsOthers net own) (is_zero (wait_for_socket t r.poll w).0) os
                  (observe net own os r.received) (λ _. o) (λ _. observe-IsOthers os r.received o))
                e' ws'

  add_cached-IsOthers :
      (cached os : List L2Observation)
      → IsOthers net own os
      → IsOthers net own (add_cached net own cached os)
  unfolding add_cached
  add_cached-IsOthers [] os o = o
  add_cached-IsOthers (c ∷ cached) os o = add_cached-IsOthers cached _ (
      if-cases (IsOthers net own) (equal c.ip own) os (add_observation net os c) (λ _. o)
        (λ ne. add-IsOthers os c ne o))

-- A result of the capture: addresses of others, the sockets as before, and waits within the bound.
abbrev IsCapture : Inet → Bytes → ℕ → List ℕ → Option (L2DiscoveryResult × Sockets) → Type 0
IsCapture net own bound handles o =
    (r : L2DiscoveryResult) × (w' : Sockets) × (o ≡ some (r, w'))
    × IsOthers net own r.observations
    × (w'.open_handles ≡ handles)
    × All (WaitsAtMost bound) w'.waits

module _ (net : Inet) (k : IsInet net) (error_text : ℕ → Bytes) (link : Link) (fuel n : ℕ)
    (iface : NetworkInterface) (window bound : ℕ) (slice : 200 ≤ bound) (short : bound < 2 ^ 31)
    (enough : n < fuel) (late : after_ms link.start window ≤ (link.rounds n).now) where
  capture_on-IsCapture :
      (h : ℕ) (handles : List ℕ) (result : L2DiscoveryResult) (w : Sockets)
      → link.new_socket ≡ some h
      → w.open_handles ≡ h ∷ handles
      → All (WaitsAtMost bound) w.waits
      → IsOthers net iface.ipv4 result.observations
      → IsCapture net iface.ipv4 bound handles
          (capture_on net error_text link fuel iface window result w)
  unfolding capture_on
  capture_on-IsCapture h handles result w s e ws o =
      let shut : (close_socket link.new_socket w).1.open_handles ≡ handles =
        ap (λ t. (close_socket t w).1.open_handles) s ∙ close-handles h handles w e in
      let shut_waits : All (WaitsAtMost bound) (close_socket link.new_socket w).1.waits =
        rw (close-waits link.new_socket w) ws in
      if-cases (IsCapture net iface.ipv4 bound handles)
        (not (is_some (net.pton (before 0 iface.ipv4)))) _ _
        (λ _. (_, (close_socket link.new_socket w).1, refl, o, shut, shut_waits))
        λ _.
          if-cases (IsCapture net iface.ipv4 bound handles) (not link.bound) _ _
            (λ _. (_, (close_socket link.new_socket w).1, refl, o, shut, shut_waits))
            λ _.
              if-cases (IsCapture net iface.ipv4 bound handles) (not link.promiscuous) _ _
                (λ _. (_, (close_socket link.new_socket w).1, refl, o, shut, shut_waits))
                λ _.
                  (let front : 0 + n ≡ n = omega arith in
                    let (os, w', ran, seen, same, ws') =
                      capture_loop-Captured net k iface.ipv4 bound slice short link.rounds
                        (after_ms link.start window) fuel 0 n result.observations w w enough
                        (subst (λ j. after_ms link.start window ≤ (link.rounds j).now) (sym front)
                          late)
                        o refl ws in
                    (
                      record result { observations = os },
                      (close_socket link.new_socket w').1,
                      rw ran refl,
                      seen,
                      ap (λ t. (close_socket t w').1.open_handles) s
                          ∙ close-handles h handles w' (same ∙ e),
                      rw (close-waits link.new_socket w') ws',
                    ))

  capture_link_traffic-IsCapture :
      (result : L2DiscoveryResult) (w : Sockets)
      → All (WaitsAtMost bound) w.waits
      → IsOthers net iface.ipv4 result.observations
      → IsCapture net iface.ipv4 bound w.open_handles
          (capture_link_traffic net error_text link fuel iface window result w)
  unfolding capture_link_traffic
  capture_link_traffic-IsCapture result w ws o =
      if-cases (IsCapture net iface.ipv4 bound w.open_handles) (not link.winsock_ready) _ _
        (λ _. (_, w, refl, o, refl, ws))
        λ _.
          if-cases (IsCapture net iface.ipv4 bound w.open_handles) (not (is_some link.new_socket)) _
            _ (λ _. (_, w, refl, o, refl, ws))
            λ there. elim (Option-cases link.new_socket) [
              | inl nothing ↦ absurd (ground (arith, ap is_some nothing))
              | inr (h, s) ↦
                  capture_on-IsCapture h w.open_handles result (open_socket link.new_socket w) s
                    (ap (λ t. (open_socket t w).open_handles) s)
                    (rw (open-waits link.new_socket w) ws) o
            ]

  conclude-error :
      (r : L2DiscoveryResult)
      → ((conclude iface r).observations ≡ r.observations)
        × (is_empty (conclude iface r).error ≡ not (is_empty r.observations))
  unfolding conclude
  conclude-error r = ground arith

  conclude-IsOthers :
      (r : L2DiscoveryResult)
      → IsOthers net iface.ipv4 r.observations
      → IsOthers net iface.ipv4 (conclude iface r).observations
        × (is_empty (conclude iface r).error ≡ not (is_empty (conclude iface r).observations))
  conclude-IsOthers r o =
      subst
        (λ os. IsOthers net iface.ipv4 os × (is_empty (conclude iface r).error ≡ not (is_empty os)))
        (sym (conclude-error r).0) (o, (conclude-error r).1)

  -- For an address conversion with the documented properties, a clock that reaches the end of the
  -- listening window by some round for which the fuel is enough, and a `bound` from 200 ms on and
  -- below 2^31 ms, which no wait so far has exceeded: the discovery ends, whatever Windows answers
  -- to its calls; the addresses of its observations are below the multicast range, other than
  -- 0.0.0.0 and the PC's own, and all different; the error is empty exactly when there is an
  -- observation; the open sockets are as before, and no wait is longer than `bound`.
  pub discover_link_layer_hosts-IsOthers :
      (first second : Option (List Row)) (w : Sockets)
      → All (WaitsAtMost bound) w.waits
      → (r : L2DiscoveryResult) × (w' : Sockets) × (discover_link_layer_hosts net error_text link
            first second fuel iface window w
          ≡ some (r, w'))
        × IsOthers net iface.ipv4 r.observations
        × (is_empty r.error ≡ not (is_empty r.observations))
        × (w'.open_handles ≡ w.open_handles)
        × All (WaitsAtMost bound) w'.waits
  unfolding discover_link_layer_hosts
  discover_link_layer_hosts-IsOthers first second w ws =
      let known = add_cached net iface.ipv4 (read_neighbour_cache net first iface.if_index) [] in
      let known_others =
        add_cached-IsOthers net k iface.ipv4 bound slice short
          (read_neighbour_cache net first iface.if_index) []
          (record { distinct = tt; addresses = tt }, tt) in
      let (r, w', ran, seen, same, ws') =
        capture_link_traffic-IsCapture
          (record { observations = known; permission_denied = false; error = [] }) w ws
          known_others in
      let cached =
        add_cached net iface.ipv4 (read_neighbour_cache net second iface.if_index) r.observations in
      let result = record r { observations = cached } in
      let done = conclude-IsOthers result (
        add_cached-IsOthers net k iface.ipv4 bound slice short
          (read_neighbour_cache net second iface.if_index) r.observations seen) in
      (
        conclude iface result,
        w',
        rw (ran, discover_link_layer_hosts) refl,
        done.0,
        done.1,
        same,
        ws',
      )
