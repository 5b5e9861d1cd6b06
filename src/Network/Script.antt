-- ===== src/Network/Script.antt =====
-- internal/network/routeros.go: the RouterOS script that applies a plan, as lines of bytes.
pub mod Order
use mikrotik_chr_script.Common.{
  ℕ, Bool, true, false, not, ◌&&◌, List, [], ◌∷◌, ◌++◌, map, Option, none, some, if◌then◌else◌,
  any_of, length, ltb,
}
use mikrotik_chr_script.Common.Bytes.{Bytes, bytes_eq}
use mikrotik_chr_script.Common.Text.{codes, is_empty, split}
use mikrotik_chr_script.Common.Sort.{sort_strings}
use mikrotik_chr_script.Common.Paths.{itoa, to_upper}
use mikrotik_chr_script.Common.Outcome.{Result, ok, err, ◌>>=◌, ◌>>◌}
use mikrotik_chr_script.Network.Plan.{Ipv4Plan, Ipv6Plan, NetworkPlan}
use mikrotik_chr_script.Network.Address.{Addr, Prefix, HardwareAddr, Parsers, addr_string}
use mikrotik_chr_script.Network.Validate.{PlanError, validate}

abbrev pub ros_bool : Bool → Bytes
ros_bool true = codes "yes"
ros_bool false = codes "no"

abbrev join_with : Bytes → List Bytes → Bytes
join_with mark [] = []
join_with mark (s ∷ []) = s
join_with mark (s ∷ t ∷ rest) = s ++ mark ++ join_with mark (t ∷ rest)

-- `prefix.String()` of a text, which for one that does not parse is that of the zero value
abbrev prefix_text : Option Prefix → Bytes
prefix_text none = codes "invalid Prefix"
prefix_text (some p) = p.text

abbrev is_link_local : Option Addr → Bool
is_link_local none = false
is_link_local (some a) = a.is_link_local_unicast

abbrev first_of : List Bytes → Bytes
first_of [] = []
first_of (p ∷ ps) = p

-- An element of the expression for the servers, and whether it has a zone
abbrev dns_part : Option Addr → Bytes
dns_part none = codes "\"invalid IP\""
dns_part (some a) =
    if is_empty a.zone
    then codes "\"" ++ addr_string a ++ codes "\""
    else codes "\"" ++ a.text ++ codes "%\" . $uplinkName"

abbrev has_zone : Option Addr → Bool
has_zone none = false
has_zone (some a) = not (is_empty a.zone)

abbrev mac_text : Option HardwareAddr → Bytes
mac_text none = []
mac_text (some mac) = to_upper mac.text

abbrev mark : Bytes
mark = codes " comment=\"chr-install\""

module _ (parsers : Parsers) where
  -- The lines in front of the addresses
  abbrev preamble : NetworkPlan → List Bytes
  preamble plan =
      codes ":delay 15s"
      ∷ (codes ":local targetMac \"" ++ mac_text (parsers.parse_mac plan.mac) ++ codes "\"")
      ∷ codes ":local uplink [/interface/ethernet/find where mac-address=$targetMac]"
      ∷ codes
          ":if ([:len $uplink] != 1) do={ :log error \"chr-install: uplink MAC not found or ambiguous\"; :error \"chr-install uplink mismatch\" }"
      ∷ codes ":local uplinkName [/interface/ethernet/get $uplink name]"
      ∷ codes ":log info (\"chr-install: applying network plan to \" . $uplinkName)"
      ∷ (codes "/interface/ethernet/set $uplink mtu=" ++ itoa plan.mtu)
      ∷ codes "/ip/dhcp-client/remove [find where interface=$uplinkName]"
      ∷ codes "/ip/address/remove [find where interface=$uplinkName and dynamic=no]"
      ∷ codes "/ip/route/remove [find where comment=\"chr-install\"]"
      ∷ codes "/ip/route/remove [find where dst-address=\"0.0.0.0/0\" and dynamic=no]"
      ∷ codes "/ipv6/dhcp-client/remove [find where interface=$uplinkName]"
      ∷ codes "/ipv6/address/remove [find where interface=$uplinkName and dynamic=no]"
      ∷ codes "/ipv6/route/remove [find where comment=\"chr-install\"]"
      ∷ codes "/ipv6/route/remove [find where dst-address=\"::/0\" and dynamic=no]"
      ∷ codes ":delay 1s"
      ∷ []

  abbrev ipv4_address_line : Bytes → Bytes
  ipv4_address_line address =
      codes "/ip/address/add address="
      ++ prefix_text (parsers.parse_prefix address)
      ++ codes " interface=$uplinkName"
      ++ mark

  abbrev ipv4_gateway_lines : Ipv4Plan → List Bytes
  ipv4_gateway_lines plan =
      (if plan.gateway_on_link
        then (codes "/ip/route/add dst-address="
            ++ plan.gateway
            ++ codes "/32 gateway=$uplinkName scope=10"
            ++ mark)
          ∷ []
        else [])
      ++ (codes "/ip/route/add dst-address=0.0.0.0/0 gateway="
          ++ plan.gateway
          ++ (if plan.gateway_on_link then codes " target-scope=11" else [])
          ++ mark)
        ∷ []

  abbrev pub ipv4_lines : Ipv4Plan → List Bytes
  ipv4_lines plan =
      if bytes_eq plan.mode (codes "dhcp")
      then (codes "/ip/dhcp-client/add interface=$uplinkName add-default-route=yes use-peer-dns="
          ++ ros_bool plan.use_peer_dns
          ++ codes " use-peer-ntp=no disabled=no"
          ++ mark)
        ∷ []
      else if bytes_eq plan.mode (codes "static")
      then map ipv4_address_line (sort_strings plan.addresses) ++ ipv4_gateway_lines plan
      else []

  abbrev ipv6_address_line : Bytes → Bytes
  ipv6_address_line address =
      codes "/ipv6/address/add address="
      ++ prefix_text (parsers.parse_prefix address)
      ++ codes " interface=$uplinkName advertise=no"
      ++ mark

  abbrev ipv6_route_lines : Bytes → Bool → Bool → List Bytes
  ipv6_route_lines gateway link_local recursive =
      (if recursive
        then (codes "/ipv6/route/add dst-address="
            ++ gateway
            ++ codes "/128 gateway=$uplinkName scope=10"
            ++ mark)
          ∷ []
        else [])
      ++ (if link_local
          then (codes ":local ipv6Gateway (\"" ++ gateway ++ codes "%\" . $uplinkName)")
            ∷ (codes "/ipv6/route/add dst-address=::/0 gateway=$ipv6Gateway" ++ mark)
            ∷ []
          else (codes "/ipv6/route/add dst-address=::/0 gateway="
              ++ gateway
              ++ (if recursive then codes " target-scope=11" else [])
              ++ mark)
            ∷ [])

  abbrev ipv6_gateway_lines : Ipv6Plan → List Bytes
  ipv6_gateway_lines plan =
      let gateway = first_of (split b'%' plan.gateway) in
      let link_local = is_link_local (parsers.parse_addr gateway) in
      if is_empty plan.gateway
      then []
      else ipv6_route_lines gateway link_local (plan.gateway_on_link && not link_local)

  abbrev pub ipv6_lines : Ipv6Plan → List Bytes
  ipv6_lines plan =
      (codes "/ipv6/settings/set accept-router-advertisements=" ++ ros_bool plan.slaac)
        ∷ (if plan.dhcp
            then (codes
                  "/ipv6/dhcp-client/add interface=$uplinkName request=address add-default-route=yes use-peer-dns="
                ++ ros_bool plan.use_peer_dns
                ++ codes " disabled=no"
                ++ mark)
              ∷ []
            else [])
      ++ map ipv6_address_line (sort_strings plan.addresses)
      ++ ipv6_gateway_lines plan

  -- `dnsExpression`: the servers with a comma between each two
  abbrev dns_parts : List Bytes → List Bytes
  dns_parts [] = []
  dns_parts (s ∷ []) = dns_part (parsers.parse_addr s) ∷ []
  dns_parts (s ∷ t ∷ rest) = dns_part (parsers.parse_addr s) ∷ codes "\",\"" ∷ dns_parts (t ∷ rest)

  abbrev dns_lines_of : List Bytes → List Bytes
  dns_lines_of servers =
      if any_of (λ s. has_zone (parsers.parse_addr s)) servers
      then (codes ":local dnsServers (" ++ join_with (codes " . ") (dns_parts servers) ++ codes ")")
        ∷ codes "/ip/dns/set servers=$dnsServers"
        ∷ []
      else (codes "/ip/dns/set servers=\"" ++ join_with (codes ",") servers ++ codes "\"") ∷ []

  abbrev pub dns_lines : List Bytes → List Bytes
  dns_lines servers =
      if ltb 0 (length servers)
      then dns_lines_of (sort_strings servers)
      else codes "/ip/dns/set servers=\"\"" ∷ []

  abbrev pub script_lines : NetworkPlan → List Bytes
  script_lines plan =
      preamble plan
      ++ ipv4_lines plan.ipv4
      ++ ipv6_lines plan.ipv6
      ++ dns_lines plan.dns
      ++ codes ":log info \"chr-install: network plan applied\"" ∷ []

  abbrev pub script_text : NetworkPlan → Bytes
  script_text plan = join_with (10 ∷ []) (script_lines plan) ++ 10 ∷ []

  unfoldable pub router_os_script : NetworkPlan → Result PlanError Bytes
  router_os_script plan = validate parsers plan >> ok (script_text plan)
