-- ===== src/Network/Routes/Carried.antt =====
-- What inspectRouteSet of internal/network/detect.go lets pass, without the tests that it makes.
use mikrotik_chr_script.Common.{
  ◌≡◌, refl, ◌⊎◌, inl, inr, Bool, true, false, not, ◌&&◌, List, [], ◌∷◌, Option, none, some, All,
  Bool-cases, arith,
}
use mikrotik_chr_script.Common.Text.{codes, to_lower, is_empty, empty_or_same}
use mikrotik_chr_script.Common.Bytes.{Bytes, bytes_eq, bytes_eq→eq}
use mikrotik_chr_script.Network.Plan.{blocked, blocked-append}
use mikrotik_chr_script.Network.Address.{Parsers}
use mikrotik_chr_script.Network.Routes.{
  Route, Family, is_ipv6, is_default_route, is_redundant_dhcp_route, is_automatic, reaches_gateway,
  inspect_route, inspect_route_set, append_issue,
}
use mikrotik_chr_script.Network.Routes.Redundant.{
  TakesDefaultPath, IsGatewayHost, is_redundant_dhcp_route-TakesDefaultPath,
  reaches_gateway-IsGatewayHost,
}

module _ (parsers : Parsers) where
  module _ (default_route : Option Route) (interface_name : Bytes) (family : Family) where
    abbrev pub IsCarried : Route → Type 0
    IsCarried c =
        (is_default_route c.destination ≡ true)
        ⊎ ((to_lower c.protocol ≡ codes "kernel")
            ⊎ (((is_ipv6 family ≡ true) × (to_lower c.protocol ≡ codes "ra"))
                ⊎ (((c.device ≡ []) ⊎ (c.device ≡ interface_name))
                    × (d : Route) × (default_route ≡ some d)
                    × (IsGatewayHost parsers c d ⊎ TakesDefaultPath parsers c d))))

    automatic : (c : Route) → is_automatic family c ≡ true → IsCarried c
    automatic c h = elim (Bool-cases (bytes_eq (to_lower c.protocol) (codes "kernel"))) [
      | inl e ↦ inr (inl (bytes_eq→eq (to_lower c.protocol) _ e))
      | inr e ↦
          inr (
            inr (inl (ground arith, bytes_eq→eq (to_lower c.protocol) (codes "ra") (ground arith))))
    ]

    through_gateway :
        (c : Route) (default : Option Route)
        → reaches_gateway parsers c default ≡ true
        → (d : Route) × (default ≡ some d)
          × (IsGatewayHost parsers c d ⊎ TakesDefaultPath parsers c d)
    through_gateway c none h = cc
    through_gateway c (some d) h = (d, refl, inl (reaches_gateway-IsGatewayHost parsers c d h))

    through_default :
        (c : Route) (default : Option Route)
        → is_redundant_dhcp_route parsers c default ≡ true
        → (d : Route) × (default ≡ some d)
          × (IsGatewayHost parsers c d ⊎ TakesDefaultPath parsers c d)
    unfolding is_redundant_dhcp_route
    through_default c none h = cc
    through_default c (some d) h =
        (d, refl, inr (is_redundant_dhcp_route-TakesDefaultPath parsers c d h))

    inspect_route-IsCarried :
        (allow : Bool) (c : Route)
        → blocked
            (append_issue [] (inspect_route parsers default_route interface_name family allow c))
          ≡ false
        → IsCarried c
    unfolding inspect_route
    inspect_route-IsCarried allow c h = elim (Bool-cases (is_default_route c.destination)) [
      | inl e ↦ inl e
      | inr e ↦ elim (Bool-cases (is_automatic family c)) [
        | inl e1 ↦ automatic c e1
        | inr e1 ↦
            elim (Bool-cases (not (is_empty c.device) && not (bytes_eq c.device interface_name))) [
              | inl e2 ↦ absurd (ground arith)
              | inr e2 ↦ elim (Bool-cases (reaches_gateway parsers c default_route)) [
                | inl e3 ↦
                    let (d, chosen, same) = through_gateway c default_route e3 in
                    inr (inr (inr (empty_or_same c.device interface_name e2, d, chosen, same)))
                | inr e3 ↦
                    let (d, chosen, same) = through_default c default_route (ground arith) in
                    inr (inr (inr (empty_or_same c.device interface_name e2, d, chosen, same)))
              ]
            ]
      ]
    ]

    -- Where inspectRouteSet reports no blocker, every route is a default route, one that the kernel or a
    -- router advertisement (IPv6) made, or it leaves by the selected interface, or by none that it
    -- names, and either leads to the default route's gateway alone or takes packets the same way as it.
    pub inspect_route_set-IsCarried :
        (allow : Bool) (routes : List Route)
        → blocked (inspect_route_set parsers default_route interface_name family allow routes)
          ≡ false
        → All IsCarried routes
    unfolding inspect_route_set
    inspect_route_set-IsCarried allow [] h = tt
    inspect_route_set-IsCarried allow (c ∷ cs) h =
        let (first, rest) =
          blocked-append
            (append_issue [] (inspect_route parsers default_route interface_name family allow c)) _
            h in
        (inspect_route-IsCarried allow c first, inspect_route_set-IsCarried allow cs rest)
