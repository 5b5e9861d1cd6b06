-- ===== src/Network/Sources.antt =====
-- internal/network/detect.go: the configuration files and leases that inspectConfiguration reads, the
-- servers that detectDNS finds, and the tests of gateway, driver, flags and master.
use mikrotik_chr_script.Common.{
  ℕ, Bool, true, false, not, ◌&&◌, ◌||◌, List, [], ◌∷◌, ◌++◌, map, Option, none, some, ltb, ◌*◌,
  if◌then◌else◌, any_of,
}
use mikrotik_chr_script.Common.Bytes.{Bytes, bytes_eq}
use mikrotik_chr_script.Common.Text.{
  codes, trim_space, to_lower, trim_prefix, contains, fields, split, equal_fold, is_empty,
  replace_byte,
}
use mikrotik_chr_script.Common.Names.{listed}
use mikrotik_chr_script.Common.Sort.{sort_strings}
use mikrotik_chr_script.Common.Paths.{itoa, cut, base, join}
use mikrotik_chr_script.Network.Address.{Addr, Prefix, with_zone, addr_string, prefix_contains}
use mikrotik_chr_script.Network.Host.{Host}

pub record SourceEvidence : Type 0 where
  pub dhcp4 : Bool
  pub dhcp6 : Bool
  pub lease4 : Bool
  pub lease6 : Bool
  pub paths : List Bytes

abbrev no_evidence : SourceEvidence
no_evidence = record { dhcp4 = false; dhcp6 = false; lease4 = false; lease6 = false; paths = [] }

abbrev patterns : List Bytes
patterns =
    codes "etc/netplan/*.yaml"
    ∷ codes "etc/netplan/*.yml"
    ∷ codes "etc/systemd/network/*.network"
    ∷ codes "etc/network/interfaces"
    ∷ codes "etc/network/interfaces.d/*"
    ∷ codes "etc/NetworkManager/system-connections/*"
    ∷ codes "var/lib/dhcp/*"
    ∷ codes "var/lib/NetworkManager/*lease*"
    ∷ codes "run/systemd/netif/leases/*"
    ∷ []

abbrev pub contains_any : Bytes → List Bytes → Bool
contains_any content words = any_of (λ w. contains w content) words

-- The marks of a configuration in the text of a file, and of a lease where the path says that it is one.
abbrev pub note_content : Bytes → Bytes → SourceEvidence → SourceEvidence
note_content lower_path content e = record e {
  dhcp4 =
      e.dhcp4
      || contains_any content (
          codes "dhcp4: true"
          ∷ codes "inet dhcp"
          ∷ codes "method=auto"
          ∷ codes "dhcp=ipv4"
          ∷ codes "dhcp=yes"
          ∷ []);
  dhcp6 =
      e.dhcp6
      || contains_any content
          (codes "dhcp6: true" ∷ codes "inet6 dhcp" ∷ codes "dhcp=ipv6" ∷ codes "dhcp=yes" ∷ []);
  lease4 =
      e.lease4
      || (contains (codes "lease") lower_path
          && contains_any content (codes "address=" ∷ codes "fixed-address" ∷ []));
  lease6 =
      e.lease6
      || (contains (codes "lease") lower_path
          && contains_any content (codes "dhcp6" ∷ codes "ia-na" ∷ []));
}

abbrev pub gateway_in : Option Prefix → Addr → Bool
gateway_in none a = false
gateway_in (some p) a = prefix_contains p a

abbrev pub supported_network_driver : Bytes → Bool
supported_network_driver driver = listed (replace_byte b'-' b'_' (to_lower (trim_space driver))) (
    codes "virtio_net"
    ∷ codes "virtio_pci"
    ∷ codes "e1000"
    ∷ codes "e1000e"
    ∷ codes "vmxnet3"
    ∷ codes "hv_netvsc"
    ∷ codes "xen_netfront"
    ∷ codes "vif"
    ∷ codes "8139cp"
    ∷ codes "8139too"
    ∷ [])

abbrev pub has_flag : List Bytes → Bytes → Bool
has_flag flags expected = any_of (λ value. equal_fold value expected) flags

abbrev pub has_master : Bytes → Bool
has_master value =
    not (listed (trim_space value) ([] ∷ codes "null" ∷ codes "0" ∷ (34 ∷ 34 ∷ []) ∷ []))

abbrev first_of : List Bytes → Bytes
first_of [] = []
first_of (p ∷ ps) = p

-- The servers of the lines `nameserver ADDRESS`
abbrev server_of : List Bytes → List Bytes
server_of (key ∷ value ∷ []) = if bytes_eq key (codes "nameserver") then value ∷ [] else []
server_of (key ∷ value ∷ more ∷ rest) = []
server_of (key ∷ []) = []
server_of [] = []

abbrev pub nameservers : List Bytes → List Bytes
nameservers [] = []
nameservers (line ∷ lines) = server_of (fields line) ++ nameservers lines

abbrev is_empty_list : List Bytes → Bool
is_empty_list [] = true
is_empty_list (x ∷ xs) = false

-- An address that is link-local gets the interface as its zone.
abbrev pub zoned : Bytes → Addr → Addr
zoned interface_name a =
    if a.is_link_local_unicast && is_empty a.zone then with_zone interface_name a else a

abbrev add_server : Bytes → Bytes → List Bytes → Option Addr → Option Bytes
add_server interface_name server unique none = none
add_server interface_name server unique (some a) =
    if a.is_loopback || a.is_unspecified || listed (addr_string a) unique
    then none
    else some (addr_string (zoned interface_name a))

module _ (host : Host) where
  abbrev gateway_outside_of : Bytes → List Bytes → Option Addr → Bool
  gateway_outside_of gateway prefixes none = false
  gateway_outside_of gateway prefixes (some a) =
      if a.is_link_local_unicast
      then false
      else if any_of (λ value. gateway_in (host.parsers.parse_prefix value) a) prefixes
      then false
      else not (is_empty gateway)

  unfoldable pub gateway_outside : Bytes → List Bytes → Bool
  gateway_outside gateway prefixes =
      gateway_outside_of gateway prefixes
        (host.parsers.parse_addr (trim_space (first_of (split b'%' gateway))))

  -- The text of a file that is no directory and no larger than 2 MiB, in lower case
  abbrev pub small_file : Bytes → Option Bytes
  small_file path = elim (host.stat path) [
    | none ↦ none
    | some found ↦
        if found.is_dir || ltb (2 * 1024 * 1024) found.size
        then none
        else elim (host.read_file path) [ none ↦ none | some content ↦ some (to_lower content) ]
  ]

  module _ (interface_name : Bytes) (interface_index : ℕ) (mac : Bytes)
      (addresses : List Bytes) where
    abbrev pub is_relevant : Bytes → Bytes → Bool
    is_relevant path content =
        if contains (codes "/run/systemd/netif/leases/") path
        then bytes_eq (base path) (itoa interface_index)
        else contains (to_lower interface_name) content
          || contains (to_lower mac) content
          || any_of (λ address. contains (to_lower (cut b'/' address).0) content) addresses

    abbrev note_path : Bytes → SourceEvidence → SourceEvidence
    note_path path e = if listed path e.paths then e else record e { paths = e.paths ++ path ∷ [] }

    -- A round of the inner loop: the paths keep the root until the end.
    unfoldable pub inspect_file : Bytes → SourceEvidence → SourceEvidence
    inspect_file path e = elim (small_file path) [
      | none ↦ e
      | some content ↦
          if is_relevant path content
          then note_content (to_lower path) content (note_path path e)
          else e
    ]

    unfoldable pub inspect_files : List Bytes → SourceEvidence → SourceEvidence
    inspect_files [] e = e
    inspect_files (path ∷ paths) e = inspect_files paths (inspect_file path e)

    unfoldable pub inspect_patterns : List Bytes → SourceEvidence → SourceEvidence
    inspect_patterns [] e = e
    inspect_patterns (pattern ∷ rest) e =
        inspect_patterns rest (inspect_files (host.glob (join host.root pattern)) e)

    unfoldable pub inspect_configuration : SourceEvidence
    inspect_configuration =
        let evidence = inspect_patterns patterns no_evidence in
        record evidence { paths = sort_strings (map (trim_prefix host.root) evidence.paths) }

  -- The first of the two files that names a server
  abbrev resolv_conf : List Bytes → List Bytes
  resolv_conf [] = []
  resolv_conf (path ∷ paths) =
      let rest = resolv_conf paths in
      elim (host.read_file (join host.root path)) [
        | none ↦ rest
        | some content ↦
            (if is_empty_list (nameservers (split 10 content))
              then rest
              else nameservers (split 10 content))
      ]

  abbrev resolvectl_servers : Bytes → List Bytes
  resolvectl_servers interface_name =
      elim (host.run (codes "resolvectl" ∷ codes "dns" ∷ interface_name ∷ [])) [
        | none ↦ []
        | some output ↦ elim (cut b':' (trim_space output)).1 [
          | none ↦ []
          | some values ↦ fields values
        ]
      ]

  abbrev pub dns_candidates : Bytes → List Bytes
  dns_candidates interface_name =
      if is_empty_list (resolvectl_servers interface_name)
      then resolv_conf (codes "run/systemd/resolve/resolv.conf" ∷ codes "etc/resolv.conf" ∷ [])
      else resolvectl_servers interface_name

  -- The loop over the servers: `unique` holds the texts that were added.
  unfoldable pub unique_servers : Bytes → List Bytes → List Bytes → List Bytes
  unique_servers interface_name [] unique = unique
  unique_servers interface_name (server ∷ servers) unique =
      unique_servers interface_name servers
        (elim (add_server interface_name server unique
          (host.parsers.parse_addr (trim_space server))) [
            | none ↦ unique
            | some text ↦ unique ++ text ∷ []
          ])

  unfoldable pub detect_dns : Bytes → List Bytes
  detect_dns interface_name = unique_servers interface_name (dns_candidates interface_name) []
