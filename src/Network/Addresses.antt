-- ===== src/Network/Addresses.antt =====
-- internal/network/detect.go: the addresses of the uplink by origin, and the IPv4 and the IPv6 part of
-- the plan that Detect makes of them.
use mikrotik_chr_script.Common.{
  Bool, true, false, not, ◌&&◌, ◌||◌, List, [], ◌∷◌, ◌++◌, Option, none, some, ltb, if◌then◌else◌,
  length,
}
use mikrotik_chr_script.Common.Bytes.{Bytes, bytes_eq}
use mikrotik_chr_script.Common.Text.{codes, to_lower, contains, equal_fold}
use mikrotik_chr_script.Common.Sort.{sort_strings}
use mikrotik_chr_script.Common.Paths.{itoa}
use mikrotik_chr_script.Network.Plan.{
  unstated, inferred, verified, Ipv4Plan, Ipv6Plan, DhcpProbe, NetworkPlan,
}
use mikrotik_chr_script.Network.Routes.{Route}
use mikrotik_chr_script.Network.Host.{AddrInfo, is_global}
use mikrotik_chr_script.Network.Sources.{SourceEvidence}

abbrev pub no_probe : DhcpProbe
no_probe = record { attempted = false; offered = false; address = []; server = []; message = [] }

abbrev pub no_ipv4 : Ipv4Plan
no_ipv4 = record {
  mode = [];
  addresses = [];
  gateway = [];
  gateway_on_link = false;
  use_peer_dns = false;
  evidence = unstated;
}

abbrev pub no_ipv6 : Ipv6Plan
no_ipv6 = record {
  slaac = false;
  dhcp = false;
  addresses = [];
  gateway = [];
  gateway_on_link = false;
  use_peer_dns = false;
  evidence = unstated;
}

-- The plan that Go starts with
abbrev pub empty_plan : NetworkPlan
empty_plan = record {
  interface_name = [];
  mac = [];
  driver = [];
  mtu = 0;
  ipv4 = no_ipv4;
  ipv6 = no_ipv6;
  dns = [];
  dhcp_probe = no_probe;
  evidence = unstated;
  sources = [];
}

-- The global addresses of the uplink by family and origin
pub record Addresses : Type 0 where
  pub v4_dynamic : List Bytes
  pub v4_static : List Bytes
  pub v6_dynamic : List Bytes
  pub v6_static : List Bytes
  pub v6_ra : Bool
  pub v6_dhcp_runtime : Bool

abbrev pub no_addresses : Addresses
no_addresses = record {
  v4_dynamic = [];
  v4_static = [];
  v6_dynamic = [];
  v6_static = [];
  v6_ra = false;
  v6_dhcp_runtime = false;
}

abbrev prefix_text : AddrInfo → Bytes
prefix_text a = a.local ++ b'/' ∷ itoa a.prefix_len

abbrev pub add_v4 : AddrInfo → Addresses → Addresses
add_v4 a found =
    if a.dynamic || equal_fold a.protocol (codes "dhcp")
    then record found { v4_dynamic = prefix_text a ∷ found.v4_dynamic }
    else record found { v4_static = prefix_text a ∷ found.v4_static }

abbrev says : Bytes → AddrInfo → Bool
says text a = contains text (to_lower a.protocol)

abbrev pub add_v6 : AddrInfo → Addresses → Addresses
add_v6 a found =
    if a.temporary
    then found
    else if a.dynamic || says (codes "ra") a || says (codes "dhcp") a
    then record found {
      v6_dynamic = prefix_text a ∷ found.v6_dynamic;
      v6_ra = found.v6_ra || says (codes "ra") a;
      v6_dhcp_runtime = found.v6_dhcp_runtime || says (codes "dhcp") a;
    }
    else record found { v6_static = prefix_text a ∷ found.v6_static }

abbrev pub add_address : AddrInfo → Addresses → Addresses
add_address a found =
    if not (is_global a)
    then found
    else if bytes_eq a.family (codes "inet")
    then add_v4 a found
    else if bytes_eq a.family (codes "inet6")
    then add_v6 a found
    else found

abbrev pub classify : List AddrInfo → Addresses
classify [] = no_addresses
classify (a ∷ rest) = add_address a (classify rest)

abbrev pub sorted_addresses : Addresses → Addresses
sorted_addresses found = record found {
  v4_dynamic = sort_strings found.v4_dynamic;
  v4_static = sort_strings found.v4_static;
  v6_dynamic = sort_strings found.v6_dynamic;
  v6_static = sort_strings found.v6_static;
}

abbrev pub some_of : List Bytes → Bool
some_of addresses = ltb 0 (length addresses)

abbrev pub is_mode : Ipv4Plan → Bytes → Bool
is_mode plan mode = bytes_eq plan.mode mode

-- The switch on the IPv4 addresses: where there are both kinds the plan stays empty.
abbrev pub ipv4_of : Addresses → SourceEvidence → Ipv4Plan
ipv4_of found sources =
    if some_of found.v4_dynamic && some_of found.v4_static
    then no_ipv4
    else if some_of found.v4_dynamic
    then record no_ipv4 {
      mode = codes "dhcp";
      addresses = found.v4_dynamic;
      use_peer_dns = true;
      evidence = verified;
    }
    else if some_of found.v4_static
    then record no_ipv4 { mode = codes "static"; addresses = found.v4_static; evidence = verified }
    else if sources.dhcp4
    then record no_ipv4 { mode = codes "dhcp"; use_peer_dns = true; evidence = inferred }
    else record no_ipv4 { mode = codes "none"; evidence = verified }

abbrev is_some : Option Route → Bool
is_some none = false
is_some (some r) = true

abbrev from_ra : Option Route → Bool
from_ra none = false
from_ra (some r) = contains (codes "ra") (to_lower r.protocol)

-- IPv6 in front of its gateway. Dynamic addresses of no known origin count as SLAAC.
abbrev pub ipv6_of : Addresses → SourceEvidence → Option Route → Ipv6Plan
ipv6_of found sources default =
    let slaac = found.v6_ra || from_ra default in
    let dhcp = found.v6_dhcp_runtime || sources.dhcp6 || sources.lease6 in
    let unknown = some_of found.v6_dynamic && not slaac && not dhcp in
    let active = some_of found.v6_static || some_of found.v6_dynamic || is_some default in
    record no_ipv6 {
      slaac = slaac || unknown;
      dhcp = dhcp;
      addresses = found.v6_static;
      use_peer_dns = dhcp;
      evidence =
          (if unknown
            then inferred
            else if active
            then verified
            else if dhcp && not sources.lease6
            then inferred
            else verified);
    }
