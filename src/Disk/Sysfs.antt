-- ===== src/Disk/Sysfs.antt =====
-- internal/disk/fingerprint.go: the fingerprint that sysfs shows of a disk, and the list of the disks.
-- What the files hold, whether they are there, and what links resolve to is the record `Sysfs`.
use mikrotik_chr_script.Common.{
  ℕ, zero, suc, ◌*◌, ◌/◌, Bool, true, false, not, ◌&&◌, ◌||◌, List, [], ◌∷◌, ◌++◌, Option, none,
  some, leb, ◌==◌, if◌then◌else◌,
}
use mikrotik_chr_script.Common.Bytes.{Bytes, bytes_eq}
use mikrotik_chr_script.Common.Text.{codes, trim_space, is_empty, text_le}
use mikrotik_chr_script.Common.Paths.{base, dir, join}
use mikrotik_chr_script.Disk.Fingerprint.{Fingerprint}
use mikrotik_chr_script.Disk.Vpd.{
  Identity, parse_vpd83, parse_vpd80, canonical_wwn, text_identifier,
}
use mikrotik_chr_script.Install.Resources.{parse_uint, max_uint64}

-- `entries` are the names in /sys/class/block, in the order of os.ReadDir.
pub record Sysfs : Type 0 where
  pub root : Bytes
  pub read : Bytes → Option Bytes
  pub exists : Bytes → Bool
  pub resolve : Bytes → Option Bytes
  pub entries : Option (List Bytes)

abbrev pub or_empty : Option Bytes → Bytes
or_empty none = []
or_empty (some s) = s

abbrev pub or_zero : Option ℕ → ℕ
or_zero none = 0
or_zero (some n) = n

abbrev insert_fingerprint : Fingerprint → List Fingerprint → List Fingerprint
insert_fingerprint f [] = f ∷ []
insert_fingerprint f (x ∷ xs) =
    let later = insert_fingerprint f xs in
    if text_le f.kernel_name x.kernel_name then f ∷ x ∷ xs else x ∷ later

-- `sort.Slice` by kernel name, which no two entries share
abbrev sort_fingerprints : List Fingerprint → List Fingerprint
sort_fingerprints [] = []
sort_fingerprints (f ∷ fs) = insert_fingerprint f (sort_fingerprints fs)

module _ (sys : Sysfs) where
  abbrev pub read_trim : Bytes → Bytes
  read_trim path = trim_space (or_empty (sys.read path))

  abbrev pub read_identity_text : Bytes → Bytes
  read_identity_text path = elim (sys.read path) [
    | none ↦ []
    | some content ↦ or_empty (text_identifier content)
  ]

  -- The driver of a directory, where its link leads to one
  abbrev driver_at : Bytes → Option Bytes
  driver_at current = elim (sys.resolve (join current (codes "driver"))) [
    | none ↦ none
    | some resolved ↦
        if bytes_eq (base resolved) (codes "driver") then none else some (base resolved)
  ]

  -- Up from a device, for 16 rounds at most
  unfoldable pub climb : ℕ → Bytes → Bytes
  climb zero current = []
  climb (suc rounds) current = elim (driver_at current) [
    | some driver ↦ driver
    | none ↦ elim (bytes_eq (dir current) current) [
      | true ↦ []
      | false ↦ climb rounds (dir current)
    ]
  ]

  abbrev pub driver_from_sysfs_device : Bytes → Bytes
  driver_from_sysfs_device path = elim (sys.resolve path) [
    | none ↦ []
    | some current ↦ climb 16 current
  ]

  abbrev block_path : Bytes → Bytes → Bytes
  block_path kernel_name path = join sys.root (codes "sys/class/block/" ++ kernel_name ++ path)

  -- A number of sectors that would wrap counts as none.
  abbrev pub size_of : Bytes → ℕ
  size_of kernel_name =
      let sectors = or_zero (parse_uint (read_trim (block_path kernel_name (codes "/size")))) in
      if leb sectors (max_uint64 / 512) then sectors * 512 else 0

  abbrev pub driver_of : Bytes → Bytes
  driver_of kernel_name =
      let driver = driver_from_sysfs_device (block_path kernel_name (codes "/device")) in
      if is_empty driver
      then read_identity_text (block_path kernel_name (codes "/device/driver"))
      else driver

  -- What is known without an identity
  abbrev plain_fingerprint : Bytes → Fingerprint
  plain_fingerprint kernel_name = record {
    path = codes "/dev/" ++ kernel_name;
    kernel_name = kernel_name;
    major_minor = read_trim (block_path kernel_name (codes "/dev"));
    size_bytes = size_of kernel_name;
    model = read_identity_text (block_path kernel_name (codes "/device/model"));
    serial = [];
    wwn = [];
    transport = [];
    driver = driver_of kernel_name;
  }

  -- The last resort: the first of two texts that is set
  abbrev with_serial_file : Bytes → Fingerprint → Fingerprint
  with_serial_file kernel_name f =
      let first = read_identity_text (block_path kernel_name (codes "/device/serial")) in
      record f {
        serial =
            (if is_empty first
              then read_identity_text (block_path kernel_name (codes "/serial"))
              else first);
      }

  abbrev page80 : Bytes → Option Bytes
  page80 kernel_name = elim (sys.read (block_path kernel_name (codes "/device/vpd_pg80"))) [
    | none ↦ none
    | some page ↦ parse_vpd80 page
  ]

  abbrev page83 : Bytes → Option Identity
  page83 kernel_name = elim (sys.read (block_path kernel_name (codes "/device/vpd_pg83"))) [
    | none ↦ none
    | some page ↦ parse_vpd83 page
  ]

  abbrev wwid_at : Bytes → Bytes → Option Bytes
  wwid_at kernel_name path = canonical_wwn (read_identity_text (block_path kernel_name path))

  -- The identities in their order: page 83, the two wwid files, page 80, the two serial files
  unfoldable pub fingerprint_from_sysfs : Bytes → Fingerprint
  fingerprint_from_sysfs kernel_name =
      let plain = plain_fingerprint kernel_name in
      elim (page83 kernel_name) [
        | some identity ↦ record plain { serial = identity.serial; wwn = identity.wwn }
        | none ↦ elim (wwid_at kernel_name (codes "/wwid")) [
          | some value ↦ record plain { wwn = value }
          | none ↦ elim (wwid_at kernel_name (codes "/device/wwid")) [
            | some value ↦ record plain { wwn = value }
            | none ↦ elim (page80 kernel_name) [
              | some value ↦ record plain { serial = value }
              | none ↦ with_serial_file kernel_name plain
            ]
          ]
        ]
      ]

  -- Whether the loop of `SysfsDisks` goes on without the entry
  abbrev is_no_disk : Bytes → Bool
  is_no_disk name =
      let device_type = read_trim (block_path name (codes "/device/type")) in
      sys.exists (block_path name (codes "/partition"))
      || not (sys.exists (block_path name (codes "/device")))
      || (not (is_empty device_type) && not (bytes_eq device_type (codes "0")))
      || (fingerprint_from_sysfs name).size_bytes == 0

  abbrev kept_disks : List Bytes → List Fingerprint
  kept_disks [] = []
  kept_disks (name ∷ names) =
      let rest = kept_disks names in
      if is_no_disk name then rest else fingerprint_from_sysfs name ∷ rest

  unfoldable pub sysfs_disks : Option (List Fingerprint)
  sysfs_disks = elim sys.entries [
    | none ↦ none
    | some names ↦ some (sort_fingerprints (kept_disks names))
  ]
