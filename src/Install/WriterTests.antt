-- ===== src/Install/WriterTests.antt =====
-- A concrete manifest and a concrete run of the writer of internal/install.
use mikrotik_chr_script.Common.{
  ℕ, ◌+◌, ◌*◌, ◌≤◌, ◌<◌, ◌≡◌, ◌↔◌, inl, refl, true, false, [], ◌∷◌, none, some, replicate, arith,
}
use mikrotik_chr_script.Common.Bytes.{Bytes}
use mikrotik_chr_script.Common.Int.{negsuc}
use mikrotik_chr_script.Common.Text.{codes, split}
use mikrotik_chr_script.Common.Outcome.{ok}
use mikrotik_chr_script.Disk.Fingerprint.{
  Fingerprint, select_authorized_fingerprint, fingerprints_match, has_stable_identity,
  normalize_identity,
}
use mikrotik_chr_script.Disk.Hex.{hex_decode}
use mikrotik_chr_script.Network.Plan.{NetworkPlan, verified}
use mikrotik_chr_script.Network.Address.{Parsers}
use mikrotik_chr_script.Network.Validate.{validate, each_ok}
use mikrotik_chr_script.Install.Manifest.{
  Manifest, validate_manifest, validate_timestamp, timestamp_within_window, measured_rtc_offset,
  manifest_max_age, manifest_future_leeway, max_rtc_offset,
}
use mikrotik_chr_script.Install.Manifest.Window.{
  validate_timestamp_bounds, validate_timestamp-measured_rtc_offset,
}
use mikrotik_chr_script.Install.Resources.{
  Statfs, max_uint64, writer_memory_spare, ensure_filesystem_space, validate_initramfs_memory,
  parse_initramfs_listing, sum_listing, parse_digits,
}
use mikrotik_chr_script.Install.Resources.Bounds.{
  listed_bytes, ensure_filesystem_space_iff, validate_initramfs_memory-ok,
}
use mikrotik_chr_script.Install.Write.{
  Target, copy_image, copy_loop, copy_step, hash_prefix, hash_loop, hash_step, read_full, write,
  buffer_bytes,
}
use mikrotik_chr_script.Install.Writer.{
  World, authorize, write_and_verify, run_writer, wait_for_fingerprint, find_fingerprint,
  ensure_unmounted,
}
use mikrotik_chr_script.Install.Writer.Safe.{
  IsAuthorized, IsVerified, authorize-IsAuthorized, run_writer-IsVerified,
}

abbrev a_disk : Fingerprint
a_disk = record {
  path = codes "/dev/sda";
  kernel_name = codes "sda";
  major_minor = codes "8:0";
  size_bytes = 4096;
  model = [];
  serial = [];
  wwn = codes "naa.5001";
  transport = [];
  driver = [];
}

abbrev dhcp_plan : NetworkPlan
dhcp_plan = record {
  interface_name = codes "eth0";
  mac = codes "00:11:22:33:44:55";
  driver = codes "virtio_net";
  mtu = 1500;
  ipv4 = record {
    mode = codes "dhcp";
    addresses = [];
    gateway = [];
    gateway_on_link = false;
    use_peer_dns = false;
    evidence = verified;
  };
  ipv6 = record {
    slaac = false;
    dhcp = false;
    addresses = [];
    gateway = [];
    gateway_on_link = false;
    use_peer_dns = false;
    evidence = verified;
  };
  dns = [];
  dhcp_probe = record { attempted = true; offered = true; address = []; server = []; message = [] };
  evidence = verified;
  sources = [];
}

abbrev pub six_parsers : Parsers
six_parsers = record {
  parse_mac = λ s. some (record { len = 6; text = s });
  parse_prefix = λ s. none;
  parse_addr = λ s. none;
}

abbrev a_hash : Bytes
a_hash = replicate 64 97

abbrev one_hash : Bytes → Bytes
one_hash bytes = a_hash

-- The hardware clock is an hour ahead.
abbrev pub a_manifest : Manifest
a_manifest = record {
  schema = 1;
  created_at = 1000000;
  rtc_offset = negsuc 3599;
  disk = a_disk;
  image_path = codes "/image";
  image_sha256 = a_hash;
  image_size = 3;
  version = codes "7.16";
  network = dhcp_plan;
}

a_manifest_valid : validate_manifest six_parsers 1003700 a_manifest ≡ ok tt
unfolding validate_manifest validate each_ok validate_timestamp timestamp_within_window hex_decode
a_manifest_valid = refl

timestamp_ok : validate_timestamp a_manifest 1003700 ≡ ok tt
unfolding validate_timestamp timestamp_within_window
timestamp_ok = refl

timestamp_bounds_example :
    (1003700 ≤ a_manifest.created_at + manifest_max_age + max_rtc_offset)
    × (a_manifest.created_at ≤ 1003700 + manifest_future_leeway + max_rtc_offset)
timestamp_bounds_example = validate_timestamp_bounds a_manifest 1003700 (omega arith) timestamp_ok

measured : a_manifest.rtc_offset ≡ measured_rtc_offset 1000000 (some 1003600)
unfolding measured_rtc_offset
measured = refl

measured_rtc_offset_example : validate_timestamp a_manifest (1003600 + 100) ≡ ok tt
measured_rtc_offset_example =
    validate_timestamp-measured_rtc_offset a_manifest 1000000 1003600 100 (omega arith) refl
      measured (omega arith) (omega arith) (omega arith)

abbrev some_space : Statfs
some_space = record { available_blocks = 10; block_size = 4096 }

space_example : (ensure_filesystem_space (some some_space) 40000 ≡ ok tt) ↔ (
    (40000 ≤ some_space.available_blocks * some_space.block_size)
    × (some_space.available_blocks * some_space.block_size ≤ max_uint64))
space_example = ensure_filesystem_space_iff some_space 40000 (omega arith)

abbrev a_listing : Bytes
a_listing = codes "-rw------- 1 root root 512 chr.img"

memory_passed : validate_initramfs_memory (some a_listing) (some 300) 500000000 512 ≡ ok tt
unfolding validate_initramfs_memory parse_initramfs_listing sum_listing parse_digits
memory_passed = refl

memory_example :
    (n : ℕ) × (listed_bytes (split 10 a_listing) ≡ some n)
    × (0 < 512)
    × (512 ≤ n)
    × (n + 300 + writer_memory_spare ≤ 500000000)
memory_example =
    validate_initramfs_memory-ok a_listing 300 500000000 512 (omega arith) memory_passed

abbrev a_world : World
a_world = record {
  clock = 1003700;
  manifest = some a_manifest;
  image = λ path. some (7 ∷ 8 ∷ 9 ∷ []);
  first_poll = none;
  later_polls = some (a_disk ∷ []) ∷ [];
  mounts = λ path. record {
    target_dev = codes "8:0";
    target_resolved = codes "/sys/sda";
    entries = [];
    mountinfo = some [];
    swaps = some [];
    device_of = λ s. none;
  };
  stat = λ path. some true;
  source = λ path. some (record { rest = 7 ∷ 8 ∷ 9 ∷ []; broken = false });
  target = λ path. some (record { content = []; room = 4096; silent = false });
  sync_ok = true;
  close_ok = true;
  readback = λ path t. some (record { rest = t.content; broken = false });
  flush_ok = true;
  reboot_ok = true;
}

world_authorized : authorize one_hash six_parsers a_world ≡ ok (a_manifest, codes "/dev/sda")
unfolding authorize validate_manifest validate each_ok validate_timestamp timestamp_within_window
    hex_decode wait_for_fingerprint find_fingerprint select_authorized_fingerprint
    fingerprints_match has_stable_identity normalize_identity ensure_unmounted
world_authorized = refl

world-IsAuthorized : IsAuthorized one_hash six_parsers a_world a_manifest (codes "/dev/sda")
world-IsAuthorized = authorize-IsAuthorized one_hash six_parsers a_world world_authorized

world_reboots : run_writer one_hash six_parsers a_world true ≡ (true, ok tt)
unfolding run_writer authorize validate_manifest validate each_ok validate_timestamp
    timestamp_within_window hex_decode wait_for_fingerprint find_fingerprint
    select_authorized_fingerprint fingerprints_match has_stable_identity normalize_identity
    ensure_unmounted write_and_verify copy_image copy_loop copy_step hash_prefix hash_loop hash_step
    read_full write buffer_bytes
world_reboots = refl

run_writer_example :
    (m : Manifest) × (path : Bytes) × (written : Target) × IsAuthorized one_hash six_parsers a_world
      m path
    × IsVerified one_hash six_parsers a_world m path written
    × (true ≡ true)
run_writer_example =
    run_writer-IsVerified one_hash six_parsers a_world true true (ok tt) world_reboots (inl refl)
