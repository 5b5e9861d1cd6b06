-- ===== src/Network/Tests.antt =====
-- A concrete plan, options and packets on which the theorems on internal/network are applied.
use mikrotik_chr_script.Common.{
  ◌<◌, ◌+◌, ◌%◌, ◌≡◌, refl, true, false, [], ◌∷◌, none, some, length, slice, arith,
}
use mathlib.Core.List.Perm
use mikrotik_chr_script.Common.Outcome.{ok}
use mikrotik_chr_script.Network.Script.{router_os_script}
use mikrotik_chr_script.Network.Script.Order.{reordered, router_os_script-Perm}
use mikrotik_chr_script.Common.Text.{codes}
use mikrotik_chr_script.Common.Bytes.{Bytes}
use mikrotik_chr_script.Network.Dhcp.{
  Options, parse_from, parse_dhcp_options, checksum, build_dhcp_discover, parse_dhcp_offer,
}
use mikrotik_chr_script.Network.Dhcp.Options.{
  encode_options, newest_first, parse_from_total, parse_dhcp_options-encode_options,
}
use mikrotik_chr_script.Network.Dhcp.Discover.{
  word_sum, checksum-word_sum, build_dhcp_discover-word_sum,
}
use mikrotik_chr_script.Network.Address.{Addr, Parsers}
use mikrotik_chr_script.Network.Plan.{NetworkPlan, verified}
use mikrotik_chr_script.Network.Validate.{validate, each_ok}

abbrev an_addr : Addr
an_addr = record {
  bytes = 10 ∷ 0 ∷ 0 ∷ 1 ∷ [];
  zone = [];
  text = codes "10.0.0.1";
  is4 = true;
  is6 = false;
  is_link_local_unicast = false;
  is_loopback = false;
  is_unspecified = false;
}

abbrev some_parsers : Parsers
some_parsers = record {
  parse_mac = λ s. some (record { len = 6; text = codes "00:11:22:33:44:55" });
  parse_prefix = λ s. some (record { addr = an_addr; bits = 24; text = s });
  parse_addr = λ s. some an_addr;
}

abbrev a_plan : NetworkPlan
a_plan = record {
  interface_name = codes "eth0";
  mac = codes "00:11:22:33:44:55";
  driver = codes "virtio_net";
  mtu = 1500;
  ipv4 = record {
    mode = codes "static";
    addresses = codes "10.0.0.2/24" ∷ [];
    gateway = codes "10.0.0.1";
    gateway_on_link = false;
    use_peer_dns = false;
    evidence = verified;
  };
  ipv6 = record {
    slaac = false;
    dhcp = false;
    addresses = [];
    gateway = [];
    gateway_on_link = false;
    use_peer_dns = false;
    evidence = verified;
  };
  dns = codes "1.1.1.1" ∷ [];
  dhcp_probe = record {
    attempted = true;
    offered = false;
    address = [];
    server = [];
    message = [];
  };
  evidence = verified;
  sources = [];
}

-- The message type and a server
abbrev some_options : Options
some_options = (53, 2 ∷ []) ∷ (54, 10 ∷ 0 ∷ 0 ∷ 1 ∷ []) ∷ []

options_example : parse_dhcp_options (encode_options some_options) ≡ newest_first some_options []
options_example =
    parse_dhcp_options-encode_options some_options
      ((λ e. absurd cc, λ e. absurd cc), ((λ e. absurd cc, λ e. absurd cc), tt))

-- A length that goes beyond the end
parse_from_example : (options : Options) × (parse_from 4 (53 ∷ 9 ∷ 2 ∷ []) [] ≡ some options)
parse_from_example = parse_from_total 4 (53 ∷ 9 ∷ 2 ∷ []) [] (omega arith)

abbrev a_discover : Bytes
a_discover = build_dhcp_discover (2 ∷ 0 ∷ 0 ∷ 0 ∷ 0 ∷ 1 ∷ []) (9 ∷ 8 ∷ 7 ∷ 6 ∷ [])

-- A header of which the sum has a carry
abbrev carrying : Bytes
carrying = 0x45 ∷ 0 ∷ 0xff ∷ 0xff ∷ 0xff ∷ []

checksum_example :
    (checksum carrying < 65536) × ((word_sum carrying + checksum carrying) % 65535 ≡ 0)
checksum_example = checksum-word_sum carrying (unfold word_sum in omega arith)

discover_example :
    (length a_discover ≡ 302)
    × (word_sum (slice a_discover 14 34) % 65535 ≡ 0)
    × (parse_dhcp_offer a_discover (9 ∷ 8 ∷ 7 ∷ 6 ∷ []) ≡ none)
discover_example = build_dhcp_discover-word_sum 2 0 0 0 0 1 9 8 7 6 (9 ∷ 8 ∷ 7 ∷ 6 ∷ [])

abbrev two_servers : NetworkPlan
two_servers = record a_plan { dns = codes "1.1.1.1" ∷ codes "8.8.8.8" ∷ [] }

script_example :
    (script : Bytes) × (router_os_script some_parsers two_servers ≡ ok script)
    × (router_os_script some_parsers (
          reordered two_servers
            (codes "10.0.0.2/24" ∷ [])
            []
            (codes "8.8.8.8" ∷ codes "1.1.1.1" ∷ []))
        ≡ ok script)
script_example =
    router_os_script-Perm some_parsers two_servers (codes "10.0.0.2/24" ∷ []) []
      (codes "8.8.8.8" ∷ codes "1.1.1.1" ∷ []) (Perm.refl (codes "10.0.0.2/24" ∷ [])) (Perm.refl [])
      (Perm.swap (codes "8.8.8.8") (codes "1.1.1.1") []) (unfold validate each_ok in refl)
