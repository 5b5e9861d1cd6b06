-- ===== src/Network/Routes/Redundant.antt =====
-- When isRedundantDHCPRoute and isGatewayHostRoute of internal/network/detect.go hold, without their tests.
use mathlib.Core.List.{Perm}
use mikrotik_chr_script.Common.{
  suc, ◌≡◌, ◌≢◌, ◌↔◌, refl, ap, ◌⊎◌, inl, inr, Bool, true, false, not, ◌||◌, List, [], ◌∷◌, map,
  length, Option, none, some, if◌then◌else◌, Bool-cases, true_of_negated, Option-cases, arith,
}
use mikrotik_chr_script.Common.Text.{codes, trim_space, equal_fold, is_empty, is_empty→ne}
use mikrotik_chr_script.Common.Bytes.{Bytes, bytes_eq, bytes_eq→eq}
use mikrotik_chr_script.Common.Sort.{texts_eq-sort_strings, length-Perm}
use mikrotik_chr_script.Network.Address.{Addr, Prefix, Parsers}
use mikrotik_chr_script.Network.Routes.{
  Route, is_default_route, word, normalize_route_type, normalize_route_scope, same_route_flags,
  both_same, same_route_address, same_optional_route_address, is_ipv4_route_destination,
  host_route_of, same_attributes, is_redundant_dhcp_route, reaches_gateway,
}

length-map-word : (l : List Bytes) → length (map word l) ≡ length l
length-map-word [] = refl
length-map-word (x ∷ xs) = ap suc (length-map-word xs)

-- Two lists of flags are accepted as the same exactly if the flags of one, each trimmed and lowered, are
-- a rearrangement of those of the other.
pub same_route_flags-Perm :
    (left right : List Bytes)
    → (same_route_flags left right ≡ true) ↔ Perm (map word left) (map word right)
unfolding same_route_flags
same_route_flags-Perm left right = (
  (λ h. (texts_eq-sort_strings (map word left) (map word right)).0 (ground arith)),
  (λ p. ground (
    arith,
    length-map-word left,
    length-map-word right,
    length-Perm (map word left) (map word right) p,
    (texts_eq-sort_strings (map word left) (map word right)).1 p,
  )),
)

guard_passed :
    (reject rest : Bool)
    → (if reject then false else rest) ≡ true
    → (reject ≡ false) × (rest ≡ true)
guard_passed true rest h = cc
guard_passed false rest h = (refl, h)

neither : (a b : Bool) → (a || b) ≡ false → (a ≡ false) × (b ≡ false)
neither a b h = ground arith

module _ (parsers : Parsers) where
  -- Two texts that parse to one address, less its zone
  pub record SameAddress (left right : Bytes) : Type 0 where
    pub first : Addr
    pub second : Addr
    pub left_ok : parsers.parse_addr (trim_space left) ≡ some first
    pub right_ok : parsers.parse_addr (trim_space right) ≡ some second
    pub same : first.bytes ≡ second.bytes

  both_same-some :
      (a b : Option Addr)
      → both_same a b ≡ true
      → (x : Addr) × (y : Addr) × (a ≡ some x) × (b ≡ some y) × (x.bytes ≡ y.bytes)
  both_same-some none b h = cc
  both_same-some (some x) none h = cc
  both_same-some (some x) (some y) h = (x, y, refl, refl, bytes_eq→eq x.bytes y.bytes h)

  same_route_address-SameAddress :
      (left right : Bytes) → same_route_address parsers left right ≡ true → SameAddress left right
  same_route_address-SameAddress left right h =
      let (x, y, l, r, e) =
        both_same-some (parsers.parse_addr (trim_space left))
          (parsers.parse_addr (trim_space right)) h in
      record { first = x; second = y; left_ok = l; right_ok = r; same = e }

  -- Where neither has a key the attributes agree one by one, the flags in any order.
  pub record SameAttributes (c d : Route) : Type 0 where
    pub scope_ok : normalize_route_scope c.scope ≡ normalize_route_scope d.scope
    pub source_ok : c.source ≡ d.source
    pub pref_source_ok :
        (trim_space c.pref_source ≡ trim_space d.pref_source)
        ⊎ SameAddress c.pref_source d.pref_source
    pub metric_ok : c.metric ≡ d.metric
    pub tos_ok : c.tos ≡ d.tos
    pub flags_ok : Perm (map word c.flags) (map word d.flags)

  -- A route and a default route that take a packet the same way: unicast routes that DHCP made, out of
  -- one device and by one gateway, with the same attributes.
  pub record TakesDefaultPath (c d : Route) : Type 0 where
    pub is_default : is_default_route d.destination ≡ true
    pub protocols_ok : (word c.protocol ≡ codes "dhcp") × (word d.protocol ≡ codes "dhcp")
    pub types_ok :
        (normalize_route_type c.route_type ≡ codes "unicast")
        × (normalize_route_type d.route_type ≡ codes "unicast")
    pub device_ok : (c.device ≡ d.device) × (c.device ≢ [])
    pub gateway_ok : SameAddress c.gateway d.gateway
    pub attributes_ok :
        ((c.forwarding_key ≢ []) × (c.forwarding_key ≡ d.forwarding_key)) ⊎ SameAttributes c d

  pref_source-ok :
      (left right : Bytes)
      → same_optional_route_address parsers left right ≡ true
      → (trim_space left ≡ trim_space right) ⊎ SameAddress left right
  pref_source-ok left right h =
      elim (Bool-cases (is_empty (trim_space left) || is_empty (trim_space right))) [
        | inl e ↦ inl (bytes_eq→eq (trim_space left) (trim_space right) (ground arith))
        | inr e ↦ inr (same_route_address-SameAddress left right (ground arith))
      ]

  attributes-ok :
      (c d : Route)
      → same_attributes parsers c d ≡ true
      → ((c.forwarding_key ≢ []) × (c.forwarding_key ≡ d.forwarding_key)) ⊎ SameAttributes c d
  attributes-ok c d h =
      elim (Bool-cases (not (is_empty c.forwarding_key) || not (is_empty d.forwarding_key))) [
        | inl e ↦ inl (
          is_empty→ne c.forwarding_key (ground arith),
          bytes_eq→eq c.forwarding_key d.forwarding_key (ground arith),
        )
        | inr e ↦ inr (record {
          scope_ok =
              bytes_eq→eq (normalize_route_scope c.scope) (normalize_route_scope d.scope)
                (ground arith);
          source_ok = bytes_eq→eq c.source d.source (ground arith);
          pref_source_ok = pref_source-ok c.pref_source d.pref_source (ground arith);
          metric_ok = ground arith;
          tos_ok = ground arith;
          flags_ok = (same_route_flags-Perm c.flags d.flags).0 (ground arith);
        })
      ]

  -- What a route needs to be left out as redundant
  pub is_redundant_dhcp_route-TakesDefaultPath :
      (c d : Route) → is_redundant_dhcp_route parsers c (some d) ≡ true → TakesDefaultPath c d
  unfolding is_redundant_dhcp_route
  is_redundant_dhcp_route-TakesDefaultPath c d h =
      let (default, h1) =
        guard_passed (not (is_default_route d.destination) || is_default_route c.destination) _ h in
      let (dhcp, h2) =
        guard_passed
          (not (equal_fold (trim_space c.protocol) (codes "dhcp"))
            || not (equal_fold (trim_space d.protocol) (codes "dhcp")))
          _ h1 in
      let (unicast, h3) =
        guard_passed
          (not (bytes_eq (normalize_route_type c.route_type) (codes "unicast"))
            || not (bytes_eq (normalize_route_type d.route_type) (codes "unicast")))
          _ h2 in
      let (path, h4) =
        guard_passed
          (is_empty c.device
            || not (bytes_eq c.device d.device)
            || not (same_route_address parsers c.gateway d.gateway))
          _ h3 in
      let (dest, h5) = guard_passed (not (is_ipv4_route_destination parsers c.destination)) _ h4 in
      let (protocol_c, protocol_d) = neither _ _ dhcp in
      let (type_c, type_d) = neither _ _ unicast in
      let (device, hop) = neither (is_empty c.device || not (bytes_eq c.device d.device)) _ path in
      let (named, same) = neither (is_empty c.device) _ device in
      record {
        is_default = true_of_negated (is_default_route d.destination) (neither _ _ default).0;
        protocols_ok = (
          bytes_eq→eq (word c.protocol) _ (true_of_negated _ protocol_c),
          bytes_eq→eq (word d.protocol) _ (true_of_negated _ protocol_d),
        );
        types_ok = (
          bytes_eq→eq _ _ (true_of_negated _ type_c),
          bytes_eq→eq _ _ (true_of_negated _ type_d),
        );
        device_ok =
            (bytes_eq→eq c.device d.device (true_of_negated _ same), is_empty→ne c.device named);
        gateway_ok = same_route_address-SameAddress c.gateway d.gateway (true_of_negated _ hop);
        attributes_ok = attributes-ok c d h5;
      }

  -- A route to the gateway's address alone, without a next hop of its own
  pub record IsGatewayHost (c d : Route) : Type 0 where
    pub no_gateway : c.gateway ≡ []
    pub gateway : Addr
    pub gateway_ok : parsers.parse_addr (trim_space d.gateway) ≡ some gateway
    pub target : Addr
    pub target_ok :
        (parsers.parse_addr (trim_space c.destination) ≡ some target)
        ⊎ ((p : Prefix) × (parsers.parse_prefix (trim_space c.destination) ≡ some p)
            × (p.addr ≡ target)
            × (p.bits ≡ (if target.is4 then 32 else 128)))
    pub same : target.bytes ≡ gateway.bytes

  host_target :
      (destination : Bytes) (g : Addr)
      → host_route_of parsers destination (some g) ≡ true
      → (target : Addr) × ((parsers.parse_addr (trim_space destination) ≡ some target)
          ⊎ ((p : Prefix) × (parsers.parse_prefix (trim_space destination) ≡ some p)
              × (p.addr ≡ target)
              × (p.bits ≡ (if target.is4 then 32 else 128))))
        × (target.bytes ≡ g.bytes)
  host_target destination g h = elim (Option-cases (parsers.parse_addr (trim_space destination))) [
    | inl e ↦ elim (Option-cases (parsers.parse_prefix (trim_space destination))) [
      | inl e' ↦ absurd (ground arith)
      | inr (p, e') ↦
          (p.addr, inr (p, e', refl, ground arith), bytes_eq→eq p.addr.bytes g.bytes (ground arith))
    ]
    | inr (a, e) ↦ (a, inl e, bytes_eq→eq a.bytes g.bytes (ground arith))
  ]

  pub reaches_gateway-IsGatewayHost :
      (c d : Route) → reaches_gateway parsers c (some d) ≡ true → IsGatewayHost c d
  reaches_gateway-IsGatewayHost c d h =
      elim (Option-cases (parsers.parse_addr (trim_space d.gateway))) [
        | inl e ↦ absurd (ground arith)
        | inr (g, e) ↦
            let (target, named, same) = host_target c.destination g (ground arith) in
            record {
              no_gateway = ground arith;
              gateway = g;
              gateway_ok = e;
              target = target;
              target_ok = named;
              same = same;
            }
      ]
