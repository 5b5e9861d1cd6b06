-- ===== src/Network/Validate.antt =====
-- internal/network/validate.go: Validate. What net.ParseMAC, netip.ParsePrefix and netip.ParseAddr
-- make of a text is the record `Parsers`, a parameter.
use mikrotik_chr_script.Common.{
  refl, ◌≤◌, ◌<◌, ◌≡◌, ◌≢◌, ◌⊎◌, inl, inr, Bool, true, false, not, ◌&&◌, ◌||◌, List, [], ◌∷◌, ltb,
  ◌==◌, if◌then◌else◌, length, Option, none, some, All, arith, Bool-cases, ap,
}
use mikrotik_chr_script.Common.Bytes.{Bytes, bytes_eq, bytes_eq→eq, bytes_eq_self}
use mikrotik_chr_script.Common.Text.{codes, trim_space, is_empty, split}
use mikrotik_chr_script.Common.Outcome.{
  Result, ok, err, ◌>>◌, reject_if, >>=-eq-ok, reject_if-eq-ok,
}
use mikrotik_chr_script.Network.Plan.{Ipv4Plan, NetworkPlan}
use mikrotik_chr_script.Network.Address.{Addr, HardwareAddr, Parsers}

pub data PlanError : Type 0 where
  no_interface bad_mac bad_mtu no_ipv4_address no_ipv4_gateway bad_ipv4_mode : PlanError
  bad_ipv4_prefix bad_ipv4_gateway bad_ipv6_prefix bad_ipv6_gateway bad_dns wrong_zone no_mode :
      PlanError

abbrev pub passes {ℓ} : {A : Type ℓ} → (A → Bool) → Option A → Bool
passes p none = false
passes p (some a) = p a

-- A loop that returns at the first element that the check rejects
unfoldable pub each_ok :
    (Bytes → Result PlanError (Unit {0})) → List Bytes → Result PlanError (Unit {0})
each_ok check [] = ok tt
each_ok check (v ∷ vs) = let rest = each_ok check vs in check v >> rest

-- The switch on the mode
abbrev pub check_mode : Ipv4Plan → Result PlanError (Unit {0})
check_mode plan =
    if bytes_eq plan.mode (codes "dhcp")
    then ok tt
    else if bytes_eq plan.mode (codes "static")
    then (if length plan.addresses == 0
        then err no_ipv4_address
        else reject_if (is_empty plan.gateway) no_ipv4_gateway)
    else reject_if (not (bytes_eq plan.mode (codes "none"))) bad_ipv4_mode

module _ (parsers : Parsers) where
  abbrev pub ipv4_prefix_ok : Bytes → Bool
  ipv4_prefix_ok value = passes (λ p. p.addr.is4) (parsers.parse_prefix (trim_space value))

  abbrev pub ipv6_prefix_ok : Bytes → Bool
  ipv6_prefix_ok value = passes (λ p. p.addr.is6) (parsers.parse_prefix (trim_space value))

  abbrev pub ipv4_gateway_ok : Bytes → Bool
  ipv4_gateway_ok value = passes (λ a. a.is4) (parsers.parse_addr (trim_space value))

  -- `strings.Split(..., "%")[0]`
  abbrev first_piece : List Bytes → Bytes
  first_piece [] = []
  first_piece (p ∷ ps) = p

  abbrev pub ipv6_gateway_ok : Bytes → Bool
  ipv6_gateway_ok value =
      passes (λ a. a.is6) (parsers.parse_addr (first_piece (split b'%' (trim_space value))))

  abbrev check_zone : Bytes → Option Addr → Result PlanError (Unit {0})
  check_zone interface_name none = err bad_dns
  check_zone interface_name (some a) =
      reject_if (a.is_link_local_unicast && not (bytes_eq a.zone interface_name)) wrong_zone

  abbrev pub check_dns : Bytes → Bytes → Result PlanError (Unit {0})
  check_dns interface_name value = check_zone interface_name (parsers.parse_addr (trim_space value))

  unfoldable pub validate : NetworkPlan → Result PlanError (Unit {0})
  validate plan = do
    reject_if (is_empty (trim_space plan.interface_name)) no_interface
    reject_if (not (passes (λ m. m.len == 6) (parsers.parse_mac plan.mac))) bad_mac
    reject_if (ltb plan.mtu 576 || ltb 9216 plan.mtu) bad_mtu
    check_mode plan.ipv4
    each_ok (λ v. reject_if (not (ipv4_prefix_ok v)) bad_ipv4_prefix) plan.ipv4.addresses
    reject_if (not (is_empty plan.ipv4.gateway) && not (ipv4_gateway_ok plan.ipv4.gateway))
        bad_ipv4_gateway
    each_ok (λ v. reject_if (not (ipv6_prefix_ok v)) bad_ipv6_prefix) plan.ipv6.addresses
    reject_if (not (is_empty plan.ipv6.gateway) && not (ipv6_gateway_ok plan.ipv6.gateway))
        bad_ipv6_gateway
    each_ok (check_dns plan.interface_name) plan.dns
    reject_if
        (bytes_eq plan.ipv4.mode (codes "none")
          && not plan.ipv6.slaac
          && not plan.ipv6.dhcp
          && length plan.ipv6.addresses == 0)
        no_mode

  -- The mode is one of the three, and a static one has an address and a gateway.
  pub record IsUsable (plan : NetworkPlan) : Type 0 where
    pub mtu_ok : (576 ≤ plan.mtu) × (plan.mtu ≤ 9216)
    pub mac_ok : (mac : HardwareAddr) × (parsers.parse_mac plan.mac ≡ some mac) × (mac.len ≡ 6)
    pub mode_ok :
        (plan.ipv4.mode ≡ codes "dhcp")
        ⊎ (((plan.ipv4.mode ≡ codes "static")
              × (0 < length plan.ipv4.addresses)
              × (ipv4_gateway_ok plan.ipv4.gateway ≡ true))
            ⊎ (plan.ipv4.mode ≡ codes "none"))
    pub ipv4_ok : All (λ v. ipv4_prefix_ok v ≡ true) plan.ipv4.addresses
    pub ipv6_ok : All (λ v. ipv6_prefix_ok v ≡ true) plan.ipv6.addresses
    pub some_mode :
        (plan.ipv4.mode ≢ codes "none")
        ⊎ ((plan.ipv6.slaac ≡ true) ⊎ ((plan.ipv6.dhcp ≡ true) ⊎ (0 < length plan.ipv6.addresses)))

  each_ok-All :
      (test : Bytes → Bool) (e : PlanError) (vs : List Bytes)
      → each_ok (λ v. reject_if (not (test v)) e) vs ≡ ok tt
      → All (λ v. test v ≡ true) vs
  unfolding each_ok
  each_ok-All test e [] h = tt
  each_ok-All test e (v ∷ vs) h =
      let (u, first, rest) = >>=-eq-ok (reject_if (not (test v)) e) _ h in
      (ground (arith, reject_if-eq-ok (not (test v)) e first), each_ok-All test e vs rest)

  passes_six :
      (o : Option HardwareAddr)
      → passes (λ m. m.len == 6) o ≡ true
      → (mac : HardwareAddr) × (o ≡ some mac) × (mac.len ≡ 6)
  passes_six none h = absurd cc
  passes_six (some mac) h = (mac, refl, ground arith)

  check_mode-ok :
      (plan : Ipv4Plan)
      → check_mode plan ≡ ok tt
      → (plan.mode ≡ codes "dhcp")
        ⊎ (((plan.mode ≡ codes "static")
              × (0 < length plan.addresses)
              × (is_empty plan.gateway ≡ false))
            ⊎ (plan.mode ≡ codes "none"))
  check_mode-ok plan h = elim (Bool-cases (bytes_eq plan.mode (codes "dhcp"))) [
    | inl dhcp ↦ inl (bytes_eq→eq plan.mode (codes "dhcp") dhcp)
    | inr other ↦ elim (Bool-cases (bytes_eq plan.mode (codes "static"))) [
      | inl static ↦
          inr (inl (bytes_eq→eq plan.mode (codes "static") static, ground arith, ground arith))
      | inr neither ↦ inr (inr (bytes_eq→eq plan.mode (codes "none") (ground arith)))
    ]
  ]

  mode_ne : (mode other : Bytes) → bytes_eq mode other ≡ false → mode ≢ other
  mode_ne mode other differ e = ground (arith, bytes_eq_self other, ap (λ m. bytes_eq m other) e)

  some_mode_of :
      (plan : NetworkPlan)
      → (bytes_eq plan.ipv4.mode (codes "none")
          && not plan.ipv6.slaac
          && not plan.ipv6.dhcp
          && length plan.ipv6.addresses == 0)
        ≡ false
      → (plan.ipv4.mode ≢ codes "none")
        ⊎ ((plan.ipv6.slaac ≡ true) ⊎ ((plan.ipv6.dhcp ≡ true) ⊎ (0 < length plan.ipv6.addresses)))
  some_mode_of plan h = elim (Bool-cases (bytes_eq plan.ipv4.mode (codes "none"))) [
    | inl off ↦ inr (ground arith)
    | inr on ↦ inl (mode_ne plan.ipv4.mode (codes "none") on)
  ]

  -- The steps of a validation that succeeds
  pub record HasPassed (plan : NetworkPlan) : Type 0 where
    pub named : reject_if (is_empty (trim_space plan.interface_name)) no_interface ≡ ok tt
    pub mac :
        reject_if (not (passes (λ m. m.len == 6) (parsers.parse_mac plan.mac))) bad_mac ≡ ok tt
    pub mtu : reject_if (ltb plan.mtu 576 || ltb 9216 plan.mtu) bad_mtu ≡ ok tt
    pub mode : check_mode plan.ipv4 ≡ ok tt
    pub prefixes :
        each_ok (λ v. reject_if (not (ipv4_prefix_ok v)) bad_ipv4_prefix) plan.ipv4.addresses
        ≡ ok tt
    pub gateway :
        reject_if
          (not (is_empty plan.ipv4.gateway) && not (ipv4_gateway_ok plan.ipv4.gateway))
          bad_ipv4_gateway
        ≡ ok tt
    pub prefixes6 :
        each_ok (λ v. reject_if (not (ipv6_prefix_ok v)) bad_ipv6_prefix) plan.ipv6.addresses
        ≡ ok tt
    pub gateway6 :
        reject_if
          (not (is_empty plan.ipv6.gateway) && not (ipv6_gateway_ok plan.ipv6.gateway))
          bad_ipv6_gateway
        ≡ ok tt
    pub servers : each_ok (check_dns plan.interface_name) plan.dns ≡ ok tt
    pub some_way :
        reject_if
          (bytes_eq plan.ipv4.mode (codes "none")
            && not plan.ipv6.slaac
            && not plan.ipv6.dhcp
            && length plan.ipv6.addresses == 0)
          no_mode
        ≡ ok tt

  pub validate-HasPassed : (plan : NetworkPlan) → validate plan ≡ ok tt → HasPassed plan
  unfolding validate
  validate-HasPassed plan h =
      let (u1, named, h1) =
        >>=-eq-ok (reject_if (is_empty (trim_space plan.interface_name)) no_interface) _ h in
      let (u2, mac, h2) =
        >>=-eq-ok (reject_if (not (passes (λ m. m.len == 6) (parsers.parse_mac plan.mac))) bad_mac)
          _ h1 in
      let (u3, mtu, h3) =
        >>=-eq-ok (reject_if (ltb plan.mtu 576 || ltb 9216 plan.mtu) bad_mtu) _ h2 in
      let (u4, mode, h4) = >>=-eq-ok (check_mode plan.ipv4) _ h3 in
      let (u5, prefixes, h5) =
        >>=-eq-ok
          (each_ok (λ v. reject_if (not (ipv4_prefix_ok v)) bad_ipv4_prefix) plan.ipv4.addresses) _
          h4 in
      let (u6, gateway, h6) =
        >>=-eq-ok
          (reject_if (not (is_empty plan.ipv4.gateway) && not (ipv4_gateway_ok plan.ipv4.gateway))
            bad_ipv4_gateway)
          _ h5 in
      let (u7, prefixes6, h7) =
        >>=-eq-ok
          (each_ok (λ v. reject_if (not (ipv6_prefix_ok v)) bad_ipv6_prefix) plan.ipv6.addresses) _
          h6 in
      let (u8, gateway6, h8) =
        >>=-eq-ok
          (reject_if (not (is_empty plan.ipv6.gateway) && not (ipv6_gateway_ok plan.ipv6.gateway))
            bad_ipv6_gateway)
          _ h7 in
      let (u9, servers, h9) = >>=-eq-ok (each_ok (check_dns plan.interface_name) plan.dns) _ h8 in
      record {
        named = named;
        mac = mac;
        mtu = mtu;
        mode = mode;
        prefixes = prefixes;
        gateway = gateway;
        prefixes6 = prefixes6;
        gateway6 = gateway6;
        servers = servers;
        some_way = h9;
      }

  pub HasPassed-validate : (plan : NetworkPlan) → HasPassed plan → validate plan ≡ ok tt
  unfolding validate
  HasPassed-validate plan p =
      rw
        (
          p.named, p.mac, p.mtu, p.mode, p.prefixes, p.gateway, p.prefixes6, p.gateway6, p.servers,
          p.some_way,
        )
        refl

  -- The gateway of a static plan is there, so it was checked.
  mode_of :
      (plan : NetworkPlan)
      → (plan.ipv4.mode ≡ codes "dhcp")
        ⊎ (((plan.ipv4.mode ≡ codes "static")
              × (0 < length plan.ipv4.addresses)
              × (is_empty plan.ipv4.gateway ≡ false))
            ⊎ (plan.ipv4.mode ≡ codes "none"))
      → (not (is_empty plan.ipv4.gateway) && not (ipv4_gateway_ok plan.ipv4.gateway)) ≡ false
      → (plan.ipv4.mode ≡ codes "dhcp")
        ⊎ (((plan.ipv4.mode ≡ codes "static")
              × (0 < length plan.ipv4.addresses)
              × (ipv4_gateway_ok plan.ipv4.gateway ≡ true))
            ⊎ (plan.ipv4.mode ≡ codes "none"))
  mode_of plan (inl dhcp) h = inl dhcp
  mode_of plan (inr (inl (static, some_address, set))) h =
      inr (inl (static, some_address, ground arith))
  mode_of plan (inr (inr off)) h = inr (inr off)

  -- A plan that `validate` accepts has an MTU from 576 to 9216, a MAC of six bytes, one of the three IPv4
  -- modes, with an address and a gateway that parses where it is static, prefixes that parse to addresses
  -- of their family, and some IPv4 or IPv6 mode.
  pub validate-IsUsable : (plan : NetworkPlan) → validate plan ≡ ok tt → IsUsable plan
  validate-IsUsable plan h =
      let p = validate-HasPassed plan h in
      let mtu = reject_if-eq-ok _ bad_mtu p.mtu in
      let mac = reject_if-eq-ok _ bad_mac p.mac in
      record {
        mtu_ok = ground arith;
        mac_ok = passes_six (parsers.parse_mac plan.mac) (ground arith);
        mode_ok =
            mode_of plan (check_mode-ok plan.ipv4 p.mode)
              (reject_if-eq-ok _ bad_ipv4_gateway p.gateway);
        ipv4_ok = each_ok-All ipv4_prefix_ok bad_ipv4_prefix plan.ipv4.addresses p.prefixes;
        ipv6_ok = each_ok-All ipv6_prefix_ok bad_ipv6_prefix plan.ipv6.addresses p.prefixes6;
        some_mode = some_mode_of plan (reject_if-eq-ok _ no_mode p.some_way);
      }
