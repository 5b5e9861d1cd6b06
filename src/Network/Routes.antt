-- ===== src/Network/Routes.antt =====
-- internal/network/detect.go: the routes of the main table, the default route that is selected among
-- them, and what inspectRouteSet says of the others.
pub mod Selected
pub mod Redundant
pub mod Carried
use mikrotik_chr_script.Common.{
  ℕ, Bool, true, false, not, ◌&&◌, ◌||◌, List, [], ◌∷◌, ◌++◌, map, Option, none, some, ◌==◌, leb,
  if◌then◌else◌, keep, length, any_of,
}
use mikrotik_chr_script.Common.Bytes.{Bytes, bytes_eq}
use mikrotik_chr_script.Common.Text.{codes, trim_space, to_lower, equal_fold, is_empty}
use mikrotik_chr_script.Common.Sort.{sort_strings, texts_eq}
use mikrotik_chr_script.Network.Plan.{Issue, info, blocker}
use mikrotik_chr_script.Network.Address.{Addr, Prefix, Parsers, same_addr}

pub record Route : Type 0 where
  pub route_type : Bytes
  pub destination : Bytes
  pub gateway : Bytes
  pub device : Bytes
  pub protocol : Bytes
  pub scope : Bytes
  pub source : Bytes
  pub pref_source : Bytes
  pub metric : ℕ
  pub tos : ℕ
  pub flags : List Bytes
  pub forwarding_key : Bytes

pub data Family : Type 0 where
  ipv4 ipv6 : Family

abbrev pub is_ipv6 : Family → Bool
is_ipv6 ipv4 = false
is_ipv6 ipv6 = true

abbrev pub append_issue : List Issue → Option Issue → List Issue
append_issue issues none = issues
append_issue issues (some issue) = issues ++ issue ∷ []

abbrev pub is_default_route : Bytes → Bool
is_default_route destination =
    bytes_eq destination (codes "default")
    || bytes_eq destination (codes "0.0.0.0/0")
    || bytes_eq destination (codes "::/0")

-- `sort.SliceStable` by metric, as an insertion sort: equal ones keep their order.
abbrev pub insert_by_metric : Route → List Route → List Route
insert_by_metric r [] = r ∷ []
insert_by_metric r (x ∷ xs) =
    let later = insert_by_metric r xs in if leb r.metric x.metric then r ∷ x ∷ xs else x ∷ later

abbrev pub sort_by_metric : List Route → List Route
sort_by_metric [] = []
sort_by_metric (r ∷ rs) = insert_by_metric r (sort_by_metric rs)

abbrev pub same_path : Route → Route → Bool
same_path selected candidate =
    bytes_eq candidate.device selected.device && bytes_eq candidate.gateway selected.gateway

-- The first of the sorted default routes, and a complaint where another one takes another path.
abbrev pub first_default : List Route → Option Route × Option Issue
first_default [] = (none, none)
first_default (selected ∷ others) = (
  some selected,
  (if any_of (λ c. not (same_path selected c)) others
      then some (blocker (codes "multiple-defaults"))
      else none),
)

unfoldable pub select_default : List Route → Option Route × Option Issue
select_default routes =
    first_default (sort_by_metric (keep (λ r. is_default_route r.destination) routes))

-- `strings.ToLower(strings.TrimSpace(value))`
abbrev pub word : Bytes → Bytes
word value = to_lower (trim_space value)

abbrev pub normalize_route_type : Bytes → Bytes
normalize_route_type value = if is_empty (word value) then codes "unicast" else word value

abbrev pub normalize_route_scope : Bytes → Bytes
normalize_route_scope value = if is_empty (word value) then codes "global" else word value

unfoldable pub same_route_flags : List Bytes → List Bytes → Bool
same_route_flags left right =
    length left == length right
    && texts_eq (sort_strings (map word left)) (sort_strings (map word right))

abbrev pub both_same : Option Addr → Option Addr → Bool
both_same (some a) (some b) = same_addr a b
both_same (some a) none = false
both_same none b = false

abbrev pub prefix_is4 : Option Prefix → Bool
prefix_is4 none = false
prefix_is4 (some p) = p.addr.is4

-- A prefix of all the bits of its address
abbrev pub is_host_prefix : Addr → Option Prefix → Bool
is_host_prefix gateway none = false
is_host_prefix gateway (some p) =
    p.bits == (if p.addr.is4 then 32 else 128) && same_addr p.addr gateway

-- The kernel's own routes, and those of router advertisements
abbrev pub is_automatic : Family → Route → Bool
is_automatic family c =
    bytes_eq (to_lower c.protocol) (codes "kernel")
    || (is_ipv6 family && bytes_eq (to_lower c.protocol) (codes "ra"))

module _ (parsers : Parsers) where
  abbrev pub same_route_address : Bytes → Bytes → Bool
  same_route_address left right =
      both_same (parsers.parse_addr (trim_space left)) (parsers.parse_addr (trim_space right))

  abbrev pub same_optional_route_address : Bytes → Bytes → Bool
  same_optional_route_address left right =
      if is_empty (trim_space left) || is_empty (trim_space right)
      then bytes_eq (trim_space left) (trim_space right)
      else same_route_address left right

  abbrev pub is_ipv4_route_destination : Bytes → Bool
  is_ipv4_route_destination destination = elim (parsers.parse_addr (trim_space destination)) [
    | some address ↦ address.is4
    | none ↦ prefix_is4 (parsers.parse_prefix (trim_space destination))
  ]

  abbrev pub host_route_of : Bytes → Option Addr → Bool
  host_route_of destination none = false
  host_route_of destination (some gateway) = elim (parsers.parse_addr (trim_space destination)) [
    | some address ↦ same_addr address gateway
    | none ↦ is_host_prefix gateway (parsers.parse_prefix (trim_space destination))
  ]

  abbrev pub is_gateway_host_route : Bytes → Bytes → Bool
  is_gateway_host_route destination gateway =
      host_route_of destination (parsers.parse_addr (trim_space gateway))

  -- The attributes are compared by the key where there is one, else one by one.
  abbrev pub same_attributes : Route → Route → Bool
  same_attributes c d =
      if not (is_empty c.forwarding_key) || not (is_empty d.forwarding_key)
      then not (is_empty c.forwarding_key) && bytes_eq c.forwarding_key d.forwarding_key
      else bytes_eq (normalize_route_scope c.scope) (normalize_route_scope d.scope)
        && bytes_eq c.source d.source
        && same_optional_route_address c.pref_source d.pref_source
        && c.metric == d.metric
        && c.tos == d.tos
        && same_route_flags c.flags d.flags

  unfoldable pub is_redundant_dhcp_route : Route → Option Route → Bool
  is_redundant_dhcp_route c none = false
  is_redundant_dhcp_route c (some d) =
      if not (is_default_route d.destination) || is_default_route c.destination
      then false
      else if not (equal_fold (trim_space c.protocol) (codes "dhcp"))
          || not (equal_fold (trim_space d.protocol) (codes "dhcp"))
      then false
      else if not (bytes_eq (normalize_route_type c.route_type) (codes "unicast"))
          || not (bytes_eq (normalize_route_type d.route_type) (codes "unicast"))
      then false
      else if is_empty c.device
          || not (bytes_eq c.device d.device)
          || not (same_route_address c.gateway d.gateway)
      then false
      else if not (is_ipv4_route_destination c.destination)
      then false
      else same_attributes c d

  abbrev pub reaches_gateway : Route → Option Route → Bool
  reaches_gateway c none = false
  reaches_gateway c (some d) = is_empty c.gateway && is_gateway_host_route c.destination d.gateway

  module _ (default_route : Option Route) (interface_name : Bytes) (family : Family)
      (allow_redundant : Bool) where
    -- A round of the loop of `inspectRouteSet`: the issue that it adds
    unfoldable pub inspect_route : Route → Option Issue
    inspect_route c =
        if is_default_route c.destination
        then none
        else if is_automatic family c
        then none
        else if not (is_empty c.device) && not (bytes_eq c.device interface_name)
        then some (blocker (codes "multi-uplink"))
        else if reaches_gateway c default_route
        then none
        else if allow_redundant && is_redundant_dhcp_route c default_route
        then some (record { severity = info; code = codes "redundant-dhcp-route" })
        else some (blocker (codes "unsupported-route"))

    unfoldable pub inspect_route_set : List Route → List Issue
    inspect_route_set [] = []
    inspect_route_set (c ∷ cs) = append_issue [] (inspect_route c) ++ inspect_route_set cs
