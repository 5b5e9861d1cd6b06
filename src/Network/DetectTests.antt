-- ===== src/Network/DetectTests.antt =====
-- A host with a DHCP uplink, on which the theorems on internal/network/detect.go are applied.
use mathlib.Core.List.{Perm}
use mikrotik_chr_script.Common.{
  true, false, List, [], ◌∷◌, Option, none, some, ◌≡◌, ◌↔◌, refl, All, if◌then◌else◌, map,
}
use mikrotik_chr_script.Common.Bytes.{Bytes, bytes_eq}
use mikrotik_chr_script.Common.Text.{codes}
use mikrotik_chr_script.Network.Address.{Addr, Parsers}
use mikrotik_chr_script.Network.Routes.{
  Route, ipv4, word, select_default, same_route_flags, is_redundant_dhcp_route, inspect_route,
  inspect_route_set,
}
use mikrotik_chr_script.Network.Routes.Selected.{Outcome, select_default-Outcome}
use mikrotik_chr_script.Network.Routes.Carried.{IsCarried, inspect_route_set-IsCarried}
use mikrotik_chr_script.Network.Routes.Redundant.{same_route_flags-Perm}
use mikrotik_chr_script.Network.Host.{Host, Json}

abbrev default_route : Route
default_route = record {
  route_type = [];
  destination = codes "default";
  gateway = codes "10.0.0.1";
  device = codes "eth0";
  protocol = codes "dhcp";
  scope = [];
  source = [];
  pref_source = [];
  metric = 100;
  tos = 0;
  flags = [];
  forwarding_key = codes "k";
}

-- The same path, and the network that the kernel adds
abbrev redundant_route : Route
redundant_route = record default_route { destination = codes "1.1.1.1" }

abbrev kernel_route : Route
kernel_route = record default_route {
  destination = codes "10.0.0.0/24";
  gateway = [];
  protocol = codes "kernel";
}

abbrev some_routes : List Route
some_routes = redundant_route ∷ default_route ∷ kernel_route ∷ []

abbrev ten_addr : Addr
ten_addr = record {
  bytes = 10 ∷ 0 ∷ 0 ∷ 1 ∷ [];
  zone = [];
  text = codes "10.0.0.1";
  is4 = true;
  is6 = false;
  is_link_local_unicast = false;
  is_loopback = false;
  is_unspecified = false;
}

-- Only these two texts are addresses.
abbrev parse_test_addr : Bytes → Option Addr
parse_test_addr s =
    if bytes_eq s (codes "10.0.0.1")
    then some ten_addr
    else if bytes_eq s (codes "1.1.1.1")
    then some (record ten_addr { bytes = 1 ∷ 1 ∷ 1 ∷ 1 ∷ []; text = s })
    else none

abbrev test_parsers : Parsers
test_parsers = record {
  parse_mac = λ s. some (record { len = 6; text = s });
  parse_prefix = λ s. some (record { addr = ten_addr; bits = 24; text = s });
  parse_addr = parse_test_addr;
}

-- An output is the third word of the command: the family of `route show`, or the kind of the list.
abbrev third : List Bytes → Option Bytes
third (a ∷ b ∷ c ∷ rest) = some c
third (a ∷ b ∷ []) = none
third (a ∷ []) = none
third [] = none

abbrev test_json : Json
test_json = record {
  raw_messages =
      λ s. some (if bytes_eq s (codes "-4") then codes "d" ∷ codes "r" ∷ codes "k" ∷ [] else []);
  route = λ s. some (
      if bytes_eq s (codes "d")
      then default_route
      else if bytes_eq s (codes "r")
      then redundant_route
      else kernel_route);
  attributes = λ s. some ((codes "dst", s) ∷ []);
  marshal = λ attributes. some (codes "same");
  links = λ s. some (
      record {
        index = 2;
        mtu = 1500;
        master = [];
        address = codes "02:00:00:00:00:01";
        link_type = codes "ether";
        kind = [];
      }
      ∷ []);
  addresses = λ s. some (
      record {
        name = codes "eth0";
        addr_infos =
            record {
              family = codes "inet";
              local = codes "10.0.0.2";
              prefix_len = 24;
              scope = codes "global";
              dynamic = true;
              protocol = [];
              temporary = false;
              deprecated = false;
            }
            ∷ [];
      }
      ∷ []);
  rule_priorities = λ s. some (0 ∷ 32766 ∷ 32767 ∷ []);
}

abbrev test_host : Host
test_host = record {
  json = test_json;
  parsers = test_parsers;
  run = third;
  root = codes "/";
  glob = λ pattern. [];
  stat = λ path. none;
  read_file = λ path. none;
  eval_symlinks = λ path. some (codes "/sys/bus/virtio/drivers/virtio_net");
  probe = λ name mac.
      (record { attempted = true; offered = true; address = []; server = []; message = [] }, none);
}

select_default_example : Outcome some_routes (select_default some_routes)
select_default_example = select_default-Outcome some_routes

inspect_route_set_example :
    All (IsCarried test_parsers (some default_route) (codes "eth0") ipv4) some_routes
inspect_route_set_example =
    inspect_route_set-IsCarried test_parsers (some default_route) (codes "eth0") ipv4 true
      some_routes (unfold inspect_route_set inspect_route is_redundant_dhcp_route in refl)

same_flags_example :
    (same_route_flags
        (codes "Onlink" ∷ codes "pervasive" ∷ [])
        (codes "pervasive" ∷ codes "onlink" ∷ [])
      ≡ true)
    ↔ Perm
        (map word (codes "Onlink" ∷ codes "pervasive" ∷ []))
        (map word (codes "pervasive" ∷ codes "onlink" ∷ []))
same_flags_example =
    same_route_flags-Perm (codes "Onlink" ∷ codes "pervasive" ∷ [])
      (codes "pervasive" ∷ codes "onlink" ∷ [])
