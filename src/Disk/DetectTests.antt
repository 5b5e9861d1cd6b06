-- ===== src/Disk/DetectTests.antt =====
-- A host with one disk below its root, on which the theorems on internal/disk/detect.go are applied.
use mikrotik_chr_script.Common.{
  true, false, List, [], ◌∷◌, none, some, ◌≡◌, ◌↔◌, inl, inr, refl, ◌++◌, if◌then◌else◌, In,
  Bool-cases, subst, arith,
}
use mikrotik_chr_script.Common.Bytes.{Bytes, bytes_eq}
use mikrotik_chr_script.Common.Text.{codes, equal_fold}
use mikrotik_chr_script.Disk.Sysfs.{Sysfs, climb, fingerprint_from_sysfs}
use mikrotik_chr_script.Disk.Vpd.{parse_vpd83, parse_vpd80, canonical_wwn, text_identifier}
use mikrotik_chr_script.Disk.Hex.{utf8_from}
use mikrotik_chr_script.Install.Resources.{parse_digits}
use mikrotik_chr_script.Disk.Graph.{
  BlockNode, Forest, no_nodes, entry, Graph, walk, parse_graph, visit_parents, backing_disks,
  is_safe_type, nodes_of,
}
use mikrotik_chr_script.Disk.Graph.Closed.{Reaches, IsDiskKind, parents}
use mikrotik_chr_script.Disk.Graph.Backing.{backing_disks-Reaches}
use mikrotik_chr_script.Disk.Staging.{DiskHost, configure_staging}
use mikrotik_chr_script.Disk.Detect.{
  with_target, from_root, with_graph, read_root, read_graph, resolve_source, detect,
}
use mikrotik_chr_script.Disk.Detect.Chosen.{IsChosen, detect-IsChosen}

abbrev disk_node : BlockNode
disk_node = record {
  name = codes "sda";
  kname = codes "sda";
  path = codes "/dev/sda";
  node_type = codes "disk";
  pkname = [];
  size = 512000000;
  transport = codes "sata";
  major_minor = codes "8:0";
  read_only = false;
  removable = false;
  mountpoints = [];
}

abbrev part_node : BlockNode
part_node = record disk_node {
  name = codes "sda1";
  kname = codes "sda1";
  path = codes "/dev/sda1";
  node_type = codes "part";
  pkname = codes "sda";
  major_minor = codes "8:1";
  mountpoints = some (codes "/") ∷ [];
}

abbrev some_devices : Forest
some_devices = entry disk_node (entry part_node no_nodes no_nodes) no_nodes

-- One edge, from the partition to its disk
abbrev small_graph : Graph
small_graph = record {
  by_key = [];
  parents = (codes "sda1", disk_node ∷ []) ∷ [];
  children = (codes "sda", part_node ∷ []) ∷ [];
  disks = disk_node ∷ [];
}

abbrev some_kind : Bytes → Bytes
some_kind k = if bytes_eq k (codes "sda") then codes "disk" else codes "part"

parents_typed :
    (k : Bytes) (p : BlockNode)
    → In p (parents small_graph some_kind k)
    → p.node_type ≡ some_kind p.kname
parents_typed k p m = elim (Bool-cases (bytes_eq k (codes "sda1"))) [
  | inl e ↦
      let only : nodes_of k small_graph.parents ≡ disk_node ∷ [] = ground arith in
      elim (subst (In p) only m) [ inl q ↦ rw q refl | inr none_left ↦ absurd none_left ]
  | inr e ↦
      let nothing : nodes_of k small_graph.parents ≡ [] = ground arith in
      absurd (subst (In p) nothing m)
]

backing_disks_example :
    (disks : List BlockNode) × (unsafe : List Bytes) × (backing_disks small_graph part_node
      ≡ some (disks, unsafe))
    × (((d : BlockNode) × In d disks × (d.kname ≡ codes "sda")) ↔ (
        Reaches small_graph some_kind (codes "sda1") (codes "sda")
        × IsDiskKind small_graph some_kind (codes "sda")))
    × (In (codes "raid1") unsafe ↔ (
        (is_safe_type (codes "raid1") ≡ false)
        × (j : Bytes) × Reaches small_graph some_kind (codes "sda1") j
        × (some_kind j ≡ codes "raid1")))
backing_disks_example =
    backing_disks-Reaches small_graph some_kind (codes "sda1") parents_typed part_node refl refl
      (codes "sda") (codes "raid1")

abbrev block_dir : Bytes
block_dir = codes "/sys/class/block/sda"

abbrev disk_sysfs : Sysfs
disk_sysfs = record {
  root = codes "/";
  read = λ path.
      if bytes_eq path (block_dir ++ codes "/size")
      then some (codes "1000000")
      else if bytes_eq path (block_dir ++ codes "/dev")
      then some (codes "8:0")
      else if bytes_eq path (block_dir ++ codes "/serial")
      then some (codes "S1")
      else none;
  exists = λ path. true;
  resolve = λ path.
      if bytes_eq path (block_dir ++ codes "/device")
      then some (codes "/sys/devices/0")
      else if bytes_eq path (codes "/sys/devices/0/driver")
      then some (codes "/sys/bus/scsi/drivers/sd")
      else none;
  entries = none;
}

abbrev disk_host : DiskHost
disk_host = record {
  run = λ command. some (codes "/dev/sda1");
  look_path = λ name. true;
  findmnt = λ output. some ((codes "/dev/sda1", codes "ext4") ∷ []);
  lsblk = λ output. some some_devices;
  order = λ keys. keys;
  glob = λ pattern. [];
  sysfs = disk_sysfs;
}

disk_detect_example :
    (g : Graph) × (source : Bytes) × (fs_type : Bytes) × (read_root disk_host
      ≡ some (source, fs_type))
    × (read_graph disk_host ≡ some g)
    × (equal_fold fs_type (codes "btrfs") ≡ false)
    × IsChosen disk_host g (resolve_source disk_host source) fs_type (detect disk_host).0
disk_detect_example = detect-IsChosen disk_host (
    unfold detect parse_graph walk with_graph backing_disks visit_parents is_safe_type from_root
      with_target configure_staging fingerprint_from_sysfs climb parse_vpd83 parse_vpd80
      canonical_wwn parse_digits text_identifier utf8_from in
    refl)
