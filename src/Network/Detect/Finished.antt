-- ===== src/Network/Detect/Finished.antt =====
-- What the last stage of Detect, of internal/network/detect.go, leaves where it reports no blocker.
use mikrotik_chr_script.Common.{
  ℕ, true, false, not, ◌&&◌, ◌||◌, List, [], ◌∷◌, ◌++◌, Option, none, some, ◌≡◌, ◌≢◌, refl, ap, ◌⊎◌,
  inl, inr, All, Bool-cases, arith,
}
use mikrotik_chr_script.Common.Bytes.{Bytes, bytes_eq, bytes_eq_self}
use mikrotik_chr_script.Common.Text.{codes, is_empty, empty_or_same}
use mikrotik_chr_script.Common.Outcome.{Result, ok, err}
use mikrotik_chr_script.Network.Plan.{
  verified, Issue, blocked, blocked-append, in_turn-blocked, NetworkPlan, Ipv4Plan, Ipv6Plan,
  blocker, block_if-ok,
}
use mikrotik_chr_script.Network.Validate.{PlanError, validate, IsUsable, validate-IsUsable}
use mikrotik_chr_script.Network.Routes.{Route, Family, ipv4, ipv6}
use mikrotik_chr_script.Network.Routes.Carried.{IsCarried, inspect_route_set-IsCarried}
use mikrotik_chr_script.Network.Host.{
  Host, Link, InterfaceAddress, read_rules, rule_issues, is_standard_priority, inspect_family_rules,
  inspect_rules,
}
use mikrotik_chr_script.Network.Sources.{SourceEvidence, supported_network_driver}
use mikrotik_chr_script.Network.Addresses.{Addresses, is_mode, ipv4_of, ipv6_of}
use mikrotik_chr_script.Network.Detect.{
  choose_uplink, Addresses, is_mode, plan_inspections, plan_issues, link_inspections, with_gateway4,
  with_gateway6, ipv4_of, ipv6_of, confirm_dhcp, found_in, sources_of, probed_plan,
  validation_issue, with_addresses, link_issues,
}

-- A default route leaves by the uplink, where it names a device, and its gateway is the plan's.
abbrev pub UsesUplink : Bytes → Bytes → Option Route → Type 0
UsesUplink interface_name gateway default =
    (default ≡ none)
    ⊎ ((d : Route) × (default ≡ some d)
        × ((d.device ≡ []) ⊎ (d.device ≡ interface_name))
        × (gateway ≡ d.gateway))

abbrev pub OnUplink : Bytes → Option Route → Type 0
OnUplink interface_name default =
    (default ≡ none)
    ⊎ ((d : Route) × (default ≡ some d) × ((d.device ≡ []) ⊎ (d.device ≡ interface_name)))

pub choose_uplink-ok :
    (default4 default6 : Option Route)
    → blocked (choose_uplink default4 default6).1 ≡ false
    → OnUplink (choose_uplink default4 default6).0 default4
      × OnUplink (choose_uplink default4 default6).0 default6
choose_uplink-ok none none h = (inl refl, inl refl)
choose_uplink-ok none (some d6) h = (inl refl, inr (d6, refl, inr refl))
choose_uplink-ok (some d4) none h = (inr (d4, refl, inr refl), inl refl)
choose_uplink-ok (some d4) (some d6) h =
    elim (Bool-cases (not (is_empty d4.device) && not (bytes_eq d4.device d6.device))) [
      | inl e ↦ absurd (ground arith)
      | inr e ↦
          rw e ((inr (d4, refl, empty_or_same d4.device d6.device e), inr (d6, refl, inr refl)))
    ]

module _ (host : Host) where
  abbrev pub HasStandardRules : Family → Type 0
  HasStandardRules family =
      (priorities : List ℕ) × (read_rules host family ≡ some priorities)
      × All (λ n. (n ≡ 0) ⊎ ((n ≡ 32766) ⊎ (n ≡ 32767))) priorities

  only_ok :
      (r : Result PlanError (Unit {0}))
      → blocked (elim r [ ok done ↦ [] | err problem ↦ blocker (codes "network-plan") ∷ [] ])
        ≡ false
      → r ≡ ok tt
  only_ok (ok done) h = refl
  only_ok (err e) h = cc

  validation-IsUsable :
      (plan : NetworkPlan)
      → blocked (validation_issue host plan) ≡ false
      → IsUsable host.parsers plan
  validation-IsUsable plan h =
      validate-IsUsable host.parsers plan (only_ok (validate host.parsers plan) h)

  rule_issues-ok :
      (ns : List ℕ)
      → blocked (rule_issues ns) ≡ false
      → All (λ n. (n ≡ 0) ⊎ ((n ≡ 32766) ⊎ (n ≡ 32767))) ns
  rule_issues-ok [] h = tt
  rule_issues-ok (n ∷ ns) h = elim (Bool-cases (is_standard_priority n)) [
    | inl e ↦ (ground arith, rule_issues-ok ns (ground arith))
    | inr e ↦ absurd (ground arith)
  ]

  family_rules :
      (family : Family) (read : Option (List ℕ))
      → read_rules host family ≡ read
      → blocked (elim read [
        | none ↦ blocker (codes "policy-routing") ∷ []
        | some priorities ↦ rule_issues priorities
      ])
        ≡ false
      → HasStandardRules family
  family_rules family none e h = cc
  family_rules family (some ns) e h = (ns, e, rule_issues-ok ns h)

  pub inspect_rules-HasStandardRules :
      blocked (inspect_rules host) ≡ false → HasStandardRules ipv4 × HasStandardRules ipv6
  unfolding inspect_rules
  inspect_rules-HasStandardRules h =
      let (first, second) =
        blocked-append (inspect_family_rules host ipv4) (inspect_family_rules host ipv6) h in
      (
        family_rules ipv4 (read_rules host ipv4) refl first,
        family_rules ipv6 (read_rules host ipv6) refl second,
      )

  plan_issues-ok :
      (v4 v6 : List Route) (default4 default6 : Option Route) (found : Addresses)
      (sources : SourceEvidence) (plan : NetworkPlan)
      → blocked (plan_issues host v4 v6 default4 default6 found sources plan) ≡ false
      → All (IsCarried host.parsers default4 plan.interface_name ipv4) v4
        × All (IsCarried host.parsers default6 plan.interface_name ipv6) v6
        × ((is_mode plan.ipv4 (codes "dhcp") && not sources.lease4 && not plan.dhcp_probe.offered)
            ≡ false)
  unfolding plan_issues
  plan_issues-ok v4 v6 default4 default6 found sources plan h =
      let clear =
        in_turn-blocked (plan_inspections host v4 v6 default4 default6 found sources plan) h in
      (
        inspect_route_set-IsCarried host.parsers default4 plan.interface_name ipv4 _ v4 clear.1.0,
        inspect_route_set-IsCarried host.parsers default6 plan.interface_name ipv6 false v6
            clear.1.1.0,
        block_if-ok _ (codes "dhcp-unverified") clear.1.1.1.1.0,
      )

  pub link_issues-ok :
      (link : Link) (plan : NetworkPlan)
      → blocked (link_issues host link plan) ≡ false
      → supported_network_driver plan.driver ≡ true
  unfolding link_issues
  link_issues-ok link plan h =
      let clear = in_turn-blocked (link_inspections host link plan) h in
      let known =
        block_if-ok (is_empty plan.driver || not (supported_network_driver plan.driver))
          (codes "nic-driver") clear.0 in
      ground arith

  gateway4-of :
      (found : Addresses) (default : Option Route) (plan : Ipv4Plan)
      → (default ≡ none)
        ⊎ ((d : Route) × (default ≡ some d)
            × ((with_gateway4 host found default plan).gateway ≡ d.gateway))
  gateway4-of found none plan = inl refl
  gateway4-of found (some d) plan = inr (d, refl, refl)

  gateway6-of :
      (found : Addresses) (default : Option Route) (plan : Ipv6Plan)
      → (default ≡ none)
        ⊎ ((d : Route) × (default ≡ some d)
            × ((with_gateway6 host found default plan).gateway ≡ d.gateway))
  gateway6-of found none plan = inl refl
  gateway6-of found (some d) plan = inr (d, refl, refl)

  confirm_dhcp-ok :
      (sources : SourceEvidence) (plan : NetworkPlan)
      → (is_mode plan.ipv4 (codes "dhcp") && not sources.lease4 && not plan.dhcp_probe.offered)
        ≡ false
      → (plan.ipv4.mode ≢ codes "dhcp")
        ⊎ ((confirm_dhcp host sources plan).ipv4.evidence ≡ verified)
  confirm_dhcp-ok sources plan h = elim (Bool-cases (is_mode plan.ipv4 (codes "dhcp"))) [
    | inl e ↦ inr (ground arith)
    | inr e ↦
        inl
          (λ q. ground (arith, bytes_eq_self (codes "dhcp"), ap (λ m. bytes_eq m (codes "dhcp")) q))
  ]

  -- The plan behind the last stage
  pub record IsFinished (v4 v6 : List Route) (default4 default6 : Option Route)
      (interface_name driver : Bytes) (issues : List Issue) (plan : NetworkPlan) : Type 0 where
    pub before : blocked issues ≡ false
    pub same_interface : plan.interface_name ≡ interface_name
    pub same_driver : plan.driver ≡ driver
    pub usable : IsUsable host.parsers plan
    pub carried4 : All (IsCarried host.parsers default4 interface_name ipv4) v4
    pub carried6 : All (IsCarried host.parsers default6 interface_name ipv6) v6
    pub gateway4 :
        (default4 ≡ none) ⊎ ((d : Route) × (default4 ≡ some d) × (plan.ipv4.gateway ≡ d.gateway))
    pub gateway6 :
        (default6 ≡ none) ⊎ ((d : Route) × (default6 ≡ some d) × (plan.ipv6.gateway ≡ d.gateway))
    pub confirmed : (plan.ipv4.mode ≢ codes "dhcp") ⊎ (plan.ipv4.evidence ≡ verified)

  pub with_addresses-IsFinished :
      (v4 v6 : List Route) (default4 default6 : Option Route) (link : Link) (start : NetworkPlan)
      (issues : List Issue) (uplink : InterfaceAddress)
      → blocked (with_addresses host v4 v6 default4 default6 link start issues uplink).1 ≡ false
      → IsFinished v4 v6 default4 default6 start.interface_name start.driver issues
          (with_addresses host v4 v6 default4 default6 link start issues uplink).0
  unfolding with_addresses
  with_addresses-IsFinished v4 v6 default4 default6 link start issues uplink h =
      let parts =
        blocked-append
          (issues
            ++ plan_issues host v4 v6 default4 default6 (found_in host uplink)
                (sources_of host start link uplink)
                (probed_plan host default4 default6 start link uplink))
          (validation_issue host
            (with_addresses host v4 v6 default4 default6 link start issues uplink).0)
          h in
      let earlier = blocked-append issues _ parts.0 in
      let checked =
        plan_issues-ok v4 v6 default4 default6 (found_in host uplink)
          (sources_of host start link uplink) (probed_plan host default4 default6 start link uplink)
          earlier.1 in
      record {
        before = earlier.0;
        same_interface = refl;
        same_driver = refl;
        usable = validation-IsUsable _ parts.1;
        carried4 = checked.0;
        carried6 = checked.1;
        gateway4 =
            gateway4-of (found_in host uplink) default4
              (ipv4_of (found_in host uplink) (sources_of host start link uplink));
        gateway6 =
            gateway6-of (found_in host uplink) default6
              (ipv6_of (found_in host uplink) (sources_of host start link uplink) default6);
        confirmed =
            confirm_dhcp-ok (sources_of host start link uplink)
              (probed_plan host default4 default6 start link uplink) checked.2;
      }
