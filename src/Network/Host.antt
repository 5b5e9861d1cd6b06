-- ===== src/Network/Host.antt =====
-- What internal/network/detect.go asks the host: the programs it runs, whose JSON it decodes, the files
-- it reads, and the DHCP probe. The answers are a parameter, `Host`; Detect runs each command once.
use mikrotik_chr_script.Common.{
  ℕ, Bool, not, ◌&&◌, ◌||◌, List, [], ◌∷◌, ◌++◌, map, Option, none, some, ◌==◌, if◌then◌else◌, keep,
  any_of,
}
use mikrotik_chr_script.Common.Bytes.{Bytes, bytes_eq}
use mikrotik_chr_script.Common.Text.{codes, trim_space, is_empty}
use mikrotik_chr_script.Common.Paths.{to_upper, base, join}
use mikrotik_chr_script.Network.Plan.{Issue, DhcpProbe, blocker}
use mikrotik_chr_script.Network.Address.{Parsers}
use mikrotik_chr_script.Network.Routes.{Route, Family, ipv4, ipv6}

pub record Link : Type 0 where
  pub index : ℕ
  pub mtu : ℕ
  pub master : Bytes
  pub address : Bytes
  pub link_type : Bytes
  pub kind : Bytes

pub record AddrInfo : Type 0 where
  pub family : Bytes
  pub local : Bytes
  pub prefix_len : ℕ
  pub scope : Bytes
  pub dynamic : Bool
  pub protocol : Bytes
  pub temporary : Bool
  pub deprecated : Bool

pub record InterfaceAddress : Type 0 where
  pub name : Bytes
  pub addr_infos : List AddrInfo

pub record FileInfo : Type 0 where
  pub is_dir : Bool
  pub size : ℕ

-- `json.Unmarshal` into the types of the program, and `json.Marshal` of an object; `none` is an error.
pub record Json : Type 0 where
  pub raw_messages : Bytes → Option (List Bytes)
  pub route : Bytes → Option Route
  pub attributes : Bytes → Option (List (Bytes × Bytes))
  pub marshal : List (Bytes × Bytes) → Option Bytes
  pub links : Bytes → Option (List Link)
  pub addresses : Bytes → Option (List InterfaceAddress)
  pub rule_priorities : Bytes → Option (List ℕ)

-- `run` is a command's output, `none` where it fails. `probe` is what the prober reports, and the text of
-- its error.
pub record Host : Type 0 where
  pub json : Json
  pub parsers : Parsers
  pub run : List Bytes → Option Bytes
  pub root : Bytes
  pub glob : Bytes → List Bytes
  pub stat : Bytes → Option FileInfo
  pub read_file : Bytes → Option Bytes
  pub eval_symlinks : Bytes → Option Bytes
  pub probe : Bytes → Bytes → DhcpProbe × Option Bytes

abbrev pub family_flag : Family → Bytes
family_flag ipv4 = codes "-4"
family_flag ipv6 = codes "-6"

-- `delete(attributes, "dst")`
abbrev without_dst : List (Bytes × Bytes) → List (Bytes × Bytes)
without_dst = keep (λ a. not (bytes_eq a.0 (codes "dst")))

abbrev option_then {ℓ κ} : {A : Type ℓ} {B : Type κ} → Option A → (A → Option B) → Option B
option_then none f = none
option_then (some a) f = f a

abbrev one_element {ℓ} : {A : Type ℓ} → List A → Option A
one_element [] = none
one_element (a ∷ []) = some a
one_element (a ∷ b ∷ rest) = none

module _ (json : Json) where
  abbrev decode_route : Bytes → Option Route
  decode_route value = option_then (json.route value) (λ r.
      option_then (json.attributes value) (λ attributes.
        option_then (json.marshal (without_dst attributes))
          (λ canonical. some (record r { forwarding_key = canonical }))))

  abbrev decode_each : List Bytes → Option (List Route)
  decode_each [] = some []
  decode_each (value ∷ values) =
      option_then (decode_route value) (λ r. option_then (decode_each values) (λ rs. some (r ∷ rs)))

  abbrev pub decode_routes : Bytes → Option (List Route)
  decode_routes output = option_then (json.raw_messages output) decode_each

-- The rules of the kernel: local, main and default
abbrev pub is_standard_priority : ℕ → Bool
is_standard_priority n = n == 0 || n == 32766 || n == 32767

abbrev pub rule_issues : List ℕ → List Issue
rule_issues [] = []
rule_issues (n ∷ ns) =
    (if is_standard_priority n then [] else blocker (codes "policy-routing") ∷ []) ++ rule_issues ns

abbrev pub is_global : AddrInfo → Bool
is_global a = bytes_eq a.scope (codes "global") && not a.deprecated

module _ (host : Host) where
  unfoldable pub read_routes : Family → Option (List Route)
  read_routes family =
      option_then
        (host.run (
          codes "ip"
          ∷ codes "-j"
          ∷ family_flag family
          ∷ codes "route"
          ∷ codes "show"
          ∷ codes "table"
          ∷ codes "main"
          ∷ []))
        (decode_routes host.json)

  abbrev pub read_rules : Family → Option (List ℕ)
  read_rules family =
      option_then
        (host.run (codes "ip" ∷ codes "-j" ∷ family_flag family ∷ codes "rule" ∷ codes "show" ∷ []))
        (λ output. host.json.rule_priorities output)

  abbrev pub inspect_family_rules : Family → List Issue
  inspect_family_rules family = elim (read_rules family) [
    | none ↦ blocker (codes "policy-routing") ∷ []
    | some priorities ↦ rule_issues priorities
  ]

  unfoldable pub inspect_rules : List Issue
  inspect_rules = inspect_family_rules ipv4 ++ inspect_family_rules ipv6

  -- The link the symbolic link leads to, else the content of the file
  abbrev pub driver_file : Bytes → Bytes
  driver_file path = elim (host.read_file path) [ none ↦ [] | some content ↦ trim_space content ]

  abbrev pub read_network_driver : Bytes → Bytes
  read_network_driver interface_name =
      let path =
        join host.root (codes "sys/class/net/" ++ interface_name ++ codes "/device/driver") in
      elim (host.eval_symlinks path) [
        | none ↦ driver_file path
        | some resolved ↦
            if bytes_eq (base resolved) (codes "driver") then driver_file path else base resolved
      ]

  abbrev additional_uplink : Bytes → InterfaceAddress → Bool
  additional_uplink selected candidate =
      not (
        bytes_eq candidate.name selected
        || bytes_eq candidate.name (codes "lo")
        || is_empty (read_network_driver candidate.name))
      && any_of is_global candidate.addr_infos

  unfoldable pub inspect_additional_physical_uplinks : Bytes → List Issue
  inspect_additional_physical_uplinks selected =
      elim (option_then (host.run (codes "ip" ∷ codes "-j" ∷ codes "address" ∷ codes "show" ∷ []))
        (λ output. host.json.addresses output)) [
          | none ↦ blocker (codes "uplink-enumeration") ∷ []
          | some interfaces ↦
              map (λ c. blocker (codes "multi-uplink"))
                (keep (additional_uplink selected) interfaces)
        ]

  abbrev pub read_link : Bytes → Option Link
  read_link interface_name =
      option_then
        (host.run (
          codes "ip"
          ∷ codes "-j"
          ∷ codes "link"
          ∷ codes "show"
          ∷ codes "dev"
          ∷ interface_name
          ∷ []))
        (λ output. option_then (host.json.links output) one_element)

  abbrev pub read_addresses : Bytes → Option InterfaceAddress
  read_addresses interface_name =
      option_then
        (host.run (
          codes "ip"
          ∷ codes "-j"
          ∷ codes "address"
          ∷ codes "show"
          ∷ codes "dev"
          ∷ interface_name
          ∷ []))
        (λ output. option_then (host.json.addresses output) one_element)

  unfoldable pub normalize_mac : Bytes → Bytes
  normalize_mac value = elim (host.parsers.parse_mac (trim_space value)) [
    | none ↦ []
    | some address ↦ if address.len == 6 then to_upper address.text else []
  ]
