-- ===== src/Disk/Detect.antt =====
-- internal/disk/detect.go: Detect, which chooses the target disk and the way to stage the writer. What
-- the programs print and encoding/json makes of it is the record `DiskHost`.
pub mod Ways
pub mod Only
pub mod Target
pub mod Chosen
use mikrotik_chr_script.Common.{
  ℕ, ◌*◌, Bool, true, false, not, ◌&&◌, ◌||◌, List, [], ◌∷◌, ◌++◌, Option, none, some, ◌==◌, ltb,
  leb, if◌then◌else◌, any_of, all_of, keep, length, get_or,
}
use mikrotik_chr_script.Common.Bytes.{Bytes, bytes_eq}
use mikrotik_chr_script.Common.Text.{
  codes, trim_space, to_lower, is_empty, equal_fold, has_prefix, contains, replace_byte,
}
use mikrotik_chr_script.Common.Names.{listed}
use mikrotik_chr_script.Common.Paths.{join}
use mikrotik_chr_script.Network.Plan.{
  Issue, Severity, info, warning, blocking, blocker, issue_if, block_if, in_turn,
}
use mikrotik_chr_script.Disk.Fingerprint.{Fingerprint}
use mikrotik_chr_script.Disk.Sysfs.{Sysfs, fingerprint_from_sysfs, or_empty}
use mikrotik_chr_script.Disk.Graph.{
  BlockNode, Forest, Graph, parse_graph, lookup, backing_disks, has_mounted_descendant,
}
use mikrotik_chr_script.Disk.Staging.{
  DiskHost, InstallMethod, no_method, rescue_direct, staged_kexec, staged_grub, TargetDisk, no_disk,
  one_element, option_then, kexec_usable, grub_usable, staged, staging_inspections,
  configure_staging,
}

abbrev pub supported_storage_driver : Bytes → Bool
supported_storage_driver driver = listed (replace_byte b'-' b'_' (to_lower (trim_space driver))) (
    codes "sd"
    ∷ codes "virtio_blk"
    ∷ codes "virtio_scsi"
    ∷ codes "nvme"
    ∷ codes "xen_blkfront"
    ∷ codes "hv_storvsc"
    ∷ codes "ata_piix"
    ∷ codes "ahci"
    ∷ codes "mptspi"
    ∷ codes "mptsas"
    ∷ codes "vmw_pvscsi"
    ∷ codes "pvscsi"
    ∷ [])

abbrev pub supported_kernel_name : Bytes → Bool
supported_kernel_name name =
    has_prefix (codes "sd") name
    || has_prefix (codes "vd") name
    || has_prefix (codes "xvd") name
    || (has_prefix (codes "nvme") name && not (contains (codes "p") name))

abbrev pub is_live_filesystem : Bytes → Bytes → Bool
is_live_filesystem source fs_type =
    not (has_prefix (codes "/dev/") source)
    && listed (to_lower fs_type)
        (codes "overlay" ∷ codes "squashfs" ∷ codes "tmpfs" ∷ codes "ramfs" ∷ codes "rootfs" ∷ [])

module _ (host : DiskHost) where
  abbrev pub fingerprint : BlockNode → Fingerprint
  fingerprint n = record (fingerprint_from_sysfs host.sysfs n.kname) {
    path = (if is_empty n.path then codes "/dev/" ++ n.kname else n.path);
    transport = trim_space n.transport;
  }

  -- The checks of the target. Two issues of one code exclude each other.
  abbrev pub target_inspections : Graph → BlockNode → Bool → Fingerprint → List (List Issue)
  target_inspections g target root_backed f =
      block_if (f.size_bytes == 0 || (not (target.size == 0) && not (target.size == f.size_bytes)))
        (codes "disk-metadata")
      ∷ block_if
          (is_empty f.major_minor
            || (not (is_empty target.major_minor)
                && not (bytes_eq target.major_minor f.major_minor)))
          (codes "disk-metadata")
      ∷ block_if (ltb f.size_bytes (256 * 1024 * 1024)) (codes "disk-size")
      ∷ block_if (not (supported_kernel_name target.kname)) (codes "disk-driver")
      ∷ block_if (is_empty f.driver || not (supported_storage_driver f.driver))
          (codes "disk-driver")
      ∷ issue_if (is_empty f.serial && is_empty f.wwn)
          (if length g.disks == 1 then warning else blocking) (codes "disk-identity")
      ∷ issue_if (ltb 1 (length g.disks) && root_backed) warning (codes "extra-disks")
      ∷ []

  unfoldable pub with_target : Graph → BlockNode → TargetDisk → List Issue → TargetDisk × List Issue
  with_target g target disk issues =
      let found = record disk { fingerprint = fingerprint target } in
      let inspected =
        issues ++ in_turn (target_inspections g target disk.root_backed (fingerprint target)) in
      elim disk.root_backed [
        | true ↦ configure_staging host found inspected
        | false ↦ (found, inspected)
      ]

  abbrev pub root_disk : TargetDisk
  root_disk = record no_disk { root_backed = true; mounted = true }

  -- A root on a block device: the one disk behind it
  unfoldable pub from_root :
      Graph → List Issue → List BlockNode → List Bytes → TargetDisk × List Issue
  from_root g issues backing unsafe_types =
      let checked = issues ++ block_if (ltb 0 (length unsafe_types)) (codes "disk-stack") in
      elim (one_element backing) [
        | none ↦ (no_disk, checked ++ blocker (codes "disk-ambiguity") ∷ [])
        | some target ↦ with_target g target root_disk checked
      ]

  abbrev pub is_candidate : Graph → BlockNode → Bool
  is_candidate g n = not n.read_only && not n.removable && not (has_mounted_descendant g n)

  -- A root in memory: the one disk that nothing is mounted from
  unfoldable pub from_rescue : Graph → Bytes → Bytes → List Issue → TargetDisk × List Issue
  from_rescue g source fs_type issues =
      if not (is_live_filesystem source fs_type)
      then (no_disk, issues ++ blocker (codes "root-device") ∷ [])
      else elim (one_element (keep (is_candidate g) g.disks)) [
        | none ↦ (no_disk, issues ++ blocker (codes "disk-ambiguity") ∷ [])
        | some target ↦
            with_target g target (record no_disk { method = rescue_direct })
              (issues ++ record { severity = info; code = codes "rescue" } ∷ [])
      ]

  -- A search that is out of fuel has no disks.
  unfoldable pub with_graph : Graph → Bytes → Bytes → List Issue → TargetDisk × List Issue
  with_graph g source fs_type issues = elim (lookup g source) [
    | none ↦ from_rescue g source fs_type issues
    | some n ↦ elim (backing_disks g n) [
      | none ↦ from_root g issues [] []
      | some found ↦ from_root g issues found.0 found.1
    ]
  ]

  abbrev pub read_root : Option (Bytes × Bytes)
  read_root =
      option_then
        (host.run (
          codes "findmnt"
          ∷ codes "-J"
          ∷ codes "-n"
          ∷ codes "-o"
          ∷ codes "SOURCE,FSTYPE"
          ∷ codes "/"
          ∷ []))
        (λ output. option_then (host.findmnt output) one_element)

  abbrev pub resolve_source : Bytes → Bytes
  resolve_source source =
      if has_prefix (codes "/dev/") source
      then elim (host.run (codes "readlink" ∷ codes "-f" ∷ source ∷ [])) [
        | none ↦ source
        | some resolved ↦ trim_space resolved
      ]
      else source

  abbrev pub read_graph : Option Graph
  read_graph =
      option_then
        (host.run (
          codes "lsblk"
          ∷ codes "-J"
          ∷ codes "-b"
          ∷ codes "-o"
          ∷ codes "NAME,KNAME,PATH,TYPE,PKNAME,SIZE,TRAN,MAJ:MIN,RO,RM,MOUNTPOINTS"
          ∷ []))
        (λ output.
          option_then (host.lsblk output) (λ devices. some (parse_graph host.order devices)))

  unfoldable pub detect : TargetDisk × List Issue
  detect = elim read_root [
    | none ↦ (no_disk, blocker (codes "root-device") ∷ [])
    | some root ↦ elim read_graph [
      | none ↦ (no_disk, blocker (codes "block-devices") ∷ [])
      | some g ↦
          with_graph g (resolve_source root.0) root.1
            (block_if (equal_fold root.1 (codes "btrfs")) (codes "disk-stack"))
    ]
  ]
