-- ===== src/App/Run/Origin.antt =====
-- Where a report comes from, and which interface and device a run uses.
use ip_finder.App.{
  ExitCode, success, unexpected_interface_count, parse_either, mock_report, hinted,
  select_interface, find_device, chosen, choose_device,
}
use ip_finder.App.Arguments.{Options}
use ip_finder.App.Run.{config_of}
use ip_finder.App.Session.{Environment}
use ip_finder.App.Session.Report.{IsListing}
use ip_finder.App.Stages.{minimum_scan_prefix}
use ip_finder.Common.{
  true, map, ℕ, ◌<◌, ◌^◌, ◌≡◌, ◌≢◌, ◌⊎◌, inl, inr, refl, subst, Bool, false, List, [], ◌∷◌, All,
  if-cases, Bool-cases, All-map, keep, is_empty, Option, none, some, arith,
}
use ip_finder.Common.Bytes.{Bytes, codes, equal, before}
use ip_finder.Common.Int.{pos}
use ip_finder.Inet.{Inet, IsInet}
use ip_finder.Network.Interface.Query.{listed, query_adapter_addresses}
use ip_finder.Network.Interface.{
  NetworkInterface, Adapter, parse_ipv4, enumerate_interfaces, filter_candidate_interfaces,
  discover_candidate_interfaces,
}
use ip_finder.Network.Interface.Candidates.{Selected, filter_candidate_interfaces_lem}
use ip_finder.Network.Arp.{L2Observation}
use ip_finder.Network.Arp.Capture.Discover.{IsOthers}
use ip_finder.Output.{DiscoveryReport}
use ip_finder.Scanner.Sweep.{enumerate_subnet_hosts}
use ip_finder.Scanner.Sweep.Found.{Found}
use ip_finder.Scanner.Banner.{SshProbeResult}
use ip_finder.Ssh.Trust.{IsTrusted}

parse_ipv4-lt :
    (net : Inet) (k : IsInet net) (text : Bytes) (m : ℕ) → parse_ipv4 net text ≡ some m → m < 2 ^ 32
unfolding parse_ipv4
parse_ipv4-lt net k text m e = elim (Bool-cases (is_empty text)) [
  | inl empty ↦ absurd (ground arith)
  | inr given ↦ k.pton-lt (before 0 text) m (ground arith)
]

abbrev pub IsWord : NetworkInterface → Type 0
IsWord i = i.mask < 2 ^ 32

All-keep :
    (p : NetworkInterface → Bool) (is : List NetworkInterface)
    → All IsWord is
    → All IsWord (keep p is)
All-keep p [] all = tt
All-keep p (i ∷ is) (now, later) =
    let rest = All-keep p is later in
    if-cases (All IsWord) (p i) (i ∷ keep p is) (keep p is) (λ e. (now, rest)) (λ e. rest)

-- The mask of a candidate is a 32-bit number.
pub hinted-IsWord :
    (net : Inet) (k : IsInet net) (hint : Bytes) (adapters : List Adapter)
    → All IsWord (hinted hint (discover_candidate_interfaces net adapters))
unfolding discover_candidate_interfaces
hinted-IsWord net k hint adapters =
    let ss = enumerate_interfaces net adapters in
    let is = filter_candidate_interfaces net ss in
    let words =
      All-map (Selected net ss) IsWord is
        (λ j (s, m, q, same). parse_ipv4-lt net k s.netmask j.mask q.reads_mask)
        (filter_candidate_interfaces_lem net ss).0 in
    if-cases (All IsWord) (is_empty hint) _ _ (λ e. words)
      (λ e. All-keep (λ i. equal i.name hint) is words)

module _ (P : SshProbeResult → Type 0) where
  find_device-All :
      (ip : Bytes) (ds : List SshProbeResult) (d : SshProbeResult)
      → All P ds
      → find_device ip ds ≡ some d
      → P d
  unfolding find_device
  find_device-All ip [] d all e = cc
  find_device-All ip (x ∷ ds) d (now, later) e = elim (Bool-cases (equal x.ip ip)) [
    | inl same ↦ let found : x ≡ d = ground arith in subst P found now
    | inr other ↦ find_device-All ip ds d later (ground arith)
  ]

  -- A device that has been chosen; without one, a code other than those of a report.
  abbrev pub IsChosen : ExitCode × Option SshProbeResult → Type 0
  IsChosen (code, none) = (code ≢ success) × (code ≢ unexpected_interface_count)
  IsChosen (code, some d) = P d

  chosen-IsChosen :
      (o : Option SshProbeResult) → ((d : SshProbeResult) → o ≡ some d → P d) → IsChosen (chosen o)
  chosen-IsChosen none h = ((λ q. cc), λ q. cc)
  chosen-IsChosen (some d) h = h d refl

  pub choose_device-IsChosen :
      (ip : Bytes) (ds : List SshProbeResult) → All P ds → IsChosen (choose_device ip ds)
  unfolding choose_device
  choose_device-IsChosen ip [] all = ((λ q. cc), λ q. cc)
  choose_device-IsChosen ip (d ∷ []) all = all.0
  choose_device-IsChosen ip (d ∷ e ∷ ds) all =
      if-cases IsChosen (is_empty ip) _ _ (λ h. ((λ z. cc), λ z. cc))
        (λ h.
          chosen-IsChosen (find_device ip (d ∷ e ∷ ds))
            (λ f. find_device-All ip (d ∷ e ∷ ds) f all))

-- A device that the first stage has found among the hosts of the subnet, or the second one among
-- the other addresses seen on the link.
abbrev pub IsFound :
    Inet → Options → Environment → NetworkInterface → Bytes → SshProbeResult → Type 0
IsFound net options env iface stage device =
    ((stage ≡ codes "subnet-scan")
      × ((hosts : List Bytes) × (enumerate_subnet_hosts net iface (pos minimum_scan_prefix)
            ≡ some hosts)
          × Found net env.first_peers options.banner_timeout hosts device))
    ⊎ ((stage ≡ codes "layer2")
        × ((os : List L2Observation) × IsOthers net iface.ipv4 os
            × Found net env.second_peers options.banner_timeout
                (map (λ (o : L2Observation). o.ip) os) device))

-- What a report of a device is made of.
pub record IsReport (net : Inet) (options : Options) (env : Environment) (r : DiscoveryReport)
    : Type 0 where
  pub iface : NetworkInterface
  pub device : SshProbeResult
  pub adapters : List Adapter
  pub queried : query_adapter_addresses env.format_message env.query ≡ listed adapters
  pub selected : select_interface net options.interface_hint adapters ≡ (success, some iface)
  pub found : IsFound net options env iface r.discovery_stage device
  pub same_interface : r.interface_name ≡ iface.name
  pub same_ip : r.ssh_ip ≡ device.ip
  pub same_banner : r.ssh_banner ≡ device.banner
  pub authenticated : env.ssh.authenticated ≡ true
  pub trusted : IsTrusted env.ssh (config_of options [] device.ip)
  pub listing : IsListing net env r.interfaces

-- A report of the offline mode, or of a device.
abbrev pub IsGood : Inet → Options → Environment → DiscoveryReport → Type 0
IsGood net options env r =
    ((is_empty options.mock_ifconfig_file ≡ false)
      × ((contents : Bytes) × (env.mock_file ≡ some contents)
          × (r ≡ mock_report (parse_either net contents))))
    ⊎ ((is_empty options.mock_ifconfig_file ≡ true) × IsReport net options env r)
