-- ===== src/Network/Detect.antt =====
-- internal/network/detect.go: Detect, in the stages between its early returns. Each stage gets the plan
-- and the issues so far.
pub mod Finished
pub mod Ready
use mikrotik_chr_script.Common.{
  ℕ, Bool, true, false, not, ◌&&◌, ◌||◌, List, [], ◌∷◌, ◌++◌, Option, none, some, ◌==◌, ltb,
  if◌then◌else◌, any_of, length,
}
use mikrotik_chr_script.Common.Bytes.{Bytes, bytes_eq}
use mikrotik_chr_script.Common.Text.{codes, to_lower, contains, equal_fold, is_empty}
use mikrotik_chr_script.Common.Sort.{sort_strings}
use mikrotik_chr_script.Common.Paths.{itoa}
use mikrotik_chr_script.Common.Outcome.{Result, ok, err}
use mikrotik_chr_script.Network.Plan.{
  Evidence, unstated, inferred, verified, user_supplied, Severity, info, warning, blocking, Issue,
  Ipv4Plan, Ipv6Plan, DhcpProbe, NetworkPlan, in_turn, blocker, issue_if, block_if,
}
use mikrotik_chr_script.Network.Address.{HardwareAddr}
use mikrotik_chr_script.Network.Validate.{validate}
use mikrotik_chr_script.Network.Routes.{
  Route, Family, ipv4, ipv6, append_issue, select_default, inspect_route_set,
}
use mikrotik_chr_script.Network.Host.{
  Host, Link, AddrInfo, InterfaceAddress, read_routes, inspect_rules, read_network_driver,
  is_global, inspect_additional_physical_uplinks, read_link, read_addresses, normalize_mac,
}
use mikrotik_chr_script.Network.Sources.{
  SourceEvidence, supported_network_driver, has_flag, has_master, gateway_outside, detect_dns,
  inspect_configuration,
}
use mikrotik_chr_script.Network.Addresses.{
  no_probe, no_ipv4, no_ipv6, empty_plan, Addresses, no_addresses, add_v4, add_v6, add_address,
  classify, sorted_addresses, some_of, is_mode, ipv4_of, no_ipv4, no_ipv4, no_ipv4, no_ipv4,
  ipv6_of, no_ipv6,
}

-- The interface of the default routes: that of the IPv6 one too, unless IPv4 has another.
abbrev pub choose_uplink : Option Route → Option Route → Bytes × List Issue
choose_uplink none none = ([], [])
choose_uplink (some d4) none = (d4.device, [])
choose_uplink none (some d6) = (d6.device, [])
choose_uplink (some d4) (some d6) =
    if not (is_empty d4.device) && not (bytes_eq d4.device d6.device)
    then (d4.device, blocker (codes "multi-wan") ∷ [])
    else (d6.device, [])

abbrev pub is_verified : Evidence → Bool
is_verified verified = true
is_verified unstated = false
is_verified inferred = false
is_verified user_supplied = false

abbrev is_notable : Severity → Bool
is_notable blocking = true
is_notable warning = true
is_notable info = false

abbrev overall : NetworkPlan → List Issue → Evidence
overall plan issues =
    if not (is_verified plan.ipv4.evidence)
      || not (is_verified plan.ipv6.evidence)
      || any_of (λ i. is_notable i.severity) issues
    then inferred
    else verified

-- The message of the probe is that of its error, where it has one.
abbrev with_error : DhcpProbe × Option Bytes → DhcpProbe
with_error (probe, none) = probe
with_error (probe, some problem) = record probe { message = problem }

module _ (host : Host) where
  abbrev pub with_gateway4 : Addresses → Option Route → Ipv4Plan → Ipv4Plan
  with_gateway4 found none plan = plan
  with_gateway4 found (some d) plan = record plan {
    gateway = d.gateway;
    gateway_on_link =
        has_flag d.flags (codes "onlink")
        || gateway_outside host d.gateway (found.v4_dynamic ++ found.v4_static);
  }

  abbrev pub with_gateway6 : Addresses → Option Route → Ipv6Plan → Ipv6Plan
  with_gateway6 found none plan = plan
  with_gateway6 found (some d) plan = record plan {
    gateway = d.gateway;
    gateway_on_link =
        has_flag d.flags (codes "onlink")
        || gateway_outside host d.gateway (found.v6_static ++ found.v6_dynamic);
  }

  abbrev pub probe_dhcp : NetworkPlan → DhcpProbe
  probe_dhcp plan = elim (host.parsers.parse_mac plan.mac) [
    | none ↦ no_probe
    | some hardware ↦ with_error (host.probe plan.interface_name hardware.text)
  ]

  -- DHCP that a lease or an offer shows counts as verified.
  abbrev pub confirm_dhcp : SourceEvidence → NetworkPlan → NetworkPlan
  confirm_dhcp sources plan = record plan {
    ipv4 = record plan.ipv4 {
      evidence =
          (if is_mode plan.ipv4 (codes "dhcp") && (sources.lease4 || plan.dhcp_probe.offered)
            then verified
            else plan.ipv4.evidence);
    };
  }

  abbrev pub validation_issue : NetworkPlan → List Issue
  validation_issue plan = elim (validate host.parsers plan) [
    | ok done ↦ []
    | err problem ↦ blocker (codes "network-plan") ∷ []
  ]

  abbrev with_evidence : NetworkPlan → List Issue → NetworkPlan × List Issue
  with_evidence plan issues =
      let last = record plan { evidence = overall plan issues } in
      (last, issues ++ validation_issue last)

  -- The issues of the finished plan
  abbrev pub plan_inspections :
      List Route
      → List Route
      → Option Route
      → Option Route
      → Addresses
      → SourceEvidence
      → NetworkPlan
      → List (List Issue)
  plan_inspections v4 v6 default4 default6 found sources plan =
      block_if (some_of found.v4_dynamic && some_of found.v4_static) (codes "mixed-ipv4")
      ∷ inspect_route_set host.parsers default4 plan.interface_name ipv4
          (is_mode plan.ipv4 (codes "dhcp")) v4
      ∷ inspect_route_set host.parsers default6 plan.interface_name ipv6 false v6
      ∷ issue_if
          (not (some_of plan.dns) && is_mode plan.ipv4 (codes "static") && not plan.ipv6.dhcp)
          warning (codes "dns")
      ∷ block_if
          (is_mode plan.ipv4 (codes "dhcp") && not sources.lease4 && not plan.dhcp_probe.offered)
          (codes "dhcp-unverified")
      ∷ issue_if
          (is_mode plan.ipv4 (codes "static")
            && plan.dhcp_probe.attempted
            && not plan.dhcp_probe.offered)
          info (codes "dhcp-absent")
      ∷ block_if
          (is_mode plan.ipv4 (codes "none")
            && not (some_of found.v6_static)
            && not (some_of found.v6_dynamic))
          (codes "network")
      ∷ []

  unfoldable pub plan_issues :
      List Route
      → List Route
      → Option Route
      → Option Route
      → Addresses
      → SourceEvidence
      → NetworkPlan
      → List Issue
  plan_issues v4 v6 default4 default6 found sources plan =
      in_turn (plan_inspections v4 v6 default4 default6 found sources plan)

  abbrev pub found_in : InterfaceAddress → Addresses
  found_in uplink = sorted_addresses (classify uplink.addr_infos)

  abbrev pub sources_of : NetworkPlan → Link → InterfaceAddress → SourceEvidence
  sources_of plan link uplink =
      inspect_configuration host plan.interface_name link.index plan.mac
        ((found_in uplink).v4_dynamic ++ (found_in uplink).v4_static)

  abbrev addressed_plan :
      Option Route → Option Route → NetworkPlan → Addresses → SourceEvidence → NetworkPlan
  addressed_plan default4 default6 plan found sources = record plan {
    sources = sources.paths;
    ipv4 = with_gateway4 found default4 (ipv4_of found sources);
    ipv6 = with_gateway6 found default6 (ipv6_of found sources default6);
    dns = detect_dns host plan.interface_name;
  }

  abbrev pub probed_plan :
      Option Route → Option Route → NetworkPlan → Link → InterfaceAddress → NetworkPlan
  probed_plan default4 default6 plan link uplink =
      let addressed =
        addressed_plan default4 default6 plan (found_in uplink) (sources_of plan link uplink) in
      record addressed { dhcp_probe = probe_dhcp addressed }

  -- From the addresses of the uplink on
  unfoldable pub with_addresses :
      List Route
      → List Route
      → Option Route
      → Option Route
      → Link
      → NetworkPlan
      → List Issue
      → InterfaceAddress
      → NetworkPlan × List Issue
  with_addresses v4 v6 default4 default6 link plan issues uplink =
      let sources = sources_of plan link uplink in
      let probed = probed_plan default4 default6 plan link uplink in
      with_evidence (confirm_dhcp sources probed)
        (issues ++ plan_issues v4 v6 default4 default6 (found_in uplink) sources probed)

  abbrev pub link_inspections : Link → NetworkPlan → List (List Issue)
  link_inspections link plan =
      block_if (is_empty plan.driver || not (supported_network_driver plan.driver))
        (codes "nic-driver")
      ∷ block_if (has_master link.master || not (is_empty link.kind)) (codes "complex-uplink")
      ∷ block_if (not (bytes_eq link.link_type (codes "ether")) && not (is_empty link.link_type))
          (codes "uplink-type")
      ∷ block_if (is_empty plan.mac) (codes "uplink-mac")
      ∷ inspect_additional_physical_uplinks host plan.interface_name
      ∷ []

  unfoldable pub link_issues : Link → NetworkPlan → List Issue
  link_issues link plan = in_turn (link_inspections link plan)

  unfoldable pub with_link :
      List Route
      → List Route
      → Option Route
      → Option Route
      → Bytes
      → List Issue
      → Link
      → NetworkPlan × List Issue
  with_link v4 v6 default4 default6 interface_name issues link =
      let plan = record empty_plan {
        interface_name = interface_name;
        mac = normalize_mac host link.address;
        driver = read_network_driver host interface_name;
        mtu = link.mtu;
      } in
      elim (read_addresses host interface_name) [
        | none ↦ (plan, (issues ++ link_issues link plan) ++ blocker (codes "addresses") ∷ [])
        | some uplink ↦
            with_addresses v4 v6 default4 default6 link plan (issues ++ link_issues link plan)
              uplink
      ]

  unfoldable pub with_uplink :
      List Route
      → List Route
      → Option Route
      → Option Route
      → Bytes
      → List Issue
      → NetworkPlan × List Issue
  with_uplink v4 v6 default4 default6 interface_name issues =
      if is_empty interface_name
      then (empty_plan, issues ++ blocker (codes "default-route") ∷ [])
      else elim (read_link host interface_name) [
        | none ↦ (
          record empty_plan { interface_name = interface_name },
          (issues ++ inspect_rules host) ++ blocker (codes "uplink") ∷ [],
        )
        | some link ↦
            with_link v4 v6 default4 default6 interface_name (issues ++ inspect_rules host) link
      ]

  unfoldable pub with_routes : List Route → List Route → NetworkPlan × List Issue
  with_routes v4 v6 =
      let default4 = select_default v4 in
      let default6 = select_default v6 in
      let uplink = choose_uplink default4.0 default6.0 in
      with_uplink v4 v6 default4.0 default6.0 uplink.0
        (append_issue (append_issue [] default4.1) default6.1 ++ uplink.1)

  unfoldable pub detect : NetworkPlan × List Issue
  detect = elim (read_routes host ipv4) [
    | none ↦ (empty_plan, blocker (codes "ipv4-routes") ∷ [])
    | some v4 ↦ elim (read_routes host ipv6) [
      | none ↦ (empty_plan, blocker (codes "ipv6-routes") ∷ [])
      | some v6 ↦ with_routes v4 v6
    ]
  ]
