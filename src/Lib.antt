-- ===== src/Lib.antt =====
-- CHR Install replaces the system of a Linux host by MikroTik's Cloud Hosted Router: it inspects the
-- host, downloads a RouterOS image, prepares the image, stages a small Linux that writes the image to
-- the chosen disk, and boots it. This library models parts of the program and states what makes them
-- correct.
--
-- Which file models what (paths from the root of the repository):
--   Common             lists, texts, bytes and results that the parts share
--   Disk/Fingerprint   internal/disk/fingerprint.go: FingerprintsMatch, SelectAuthorizedFingerprint
--   Disk/Hex, Disk/Vpd internal/disk/fingerprint.go: the identities that a disk reports
--   Disk/Sysfs         internal/disk/fingerprint.go: FingerprintFromSysfs, SysfsDisks
--   Disk/Graph         internal/disk/detect.go: parseGraph, backingDisks, hasMountedDescendant
--   Disk/Staging, Disk/Detect
--                      internal/disk/detect.go: configureStaging, Detect
--   Install/Manifest   internal/install/manifest.go
--   Install/Resources  internal/install/resources.go
--   Install/Write      internal/install/write.go: CopyImage, HashPrefix
--   Install/Writer     internal/install/writer_linux.go: RunWriter and what it calls
--   Install/Calls, Install/Boot
--                      internal/install/stage.go: executeKexec, executeGRUB, cleanupStage
--   Install/Initramfs  internal/install/initramfs.go
--   Install/StagePlan, Install/Stage
--                      internal/install/stage.go: PrepareStage, StageAndBoot
--   Install/Cmdline    internal/install/stage.go: writerCmdline
--   Mikrotik/Mbr       internal/mikrotik/image.go: Inspect; gpt.go: validateOfficialMBRLayout
--   Mikrotik/Gpt       internal/mikrotik/gpt.go
--   Mikrotik/Loader    internal/mikrotik/fat16.go: validateEFILoader
--   Mikrotik/FatReader, FatCheck, FatWriter
--                      internal/mikrotik/fat16.go: the reader, validateUEFIFAT16, buildUEFIFAT16
--   Mikrotik/Download, Mikrotik/Client
--                      internal/mikrotik/client.go
--   Mikrotik/Uefi      internal/mikrotik/uefi.go
--   Network/Plan       internal/model/model.go: NetworkPlan, Issue
--   Network/Validate   internal/network/validate.go: Validate
--   Network/Address    net/netip: addresses and prefixes as the program reads them
--   Network/Routes     internal/network/detect.go: selectDefault, inspectRouteSet
--   Network/Host, Network/Sources, Network/Addresses, Network/Detect
--                      internal/network/detect.go: Detect and what it reads
--   Network/Script     internal/network/routeros.go
--   Network/Dhcp       internal/network/dhcp_linux.go: the packets of the probe
-- The modules whose names end in Tests apply the theorems to concrete values.
--
-- How the parts meet. The writer reads the manifest (Manifest, which checks its plan by Validate),
-- finds the disk again by its fingerprint (Fingerprint), copies the image and reads it back (Write).
-- The preparation of the image inspects its tables (Mbr, Gpt), builds the new boot partition
-- (FatWriter), writes it, and checks both again (Uefi). A staged installation builds an initramfs with
-- the writer (Initramfs), stages it (Stage), and boots it by kexec or by GRUB (Boot).
--
-- State. A byte slice that is written in place is a function from offsets to bytes (Memory), with its
-- size beside it; other byte slices and strings are lists of bytes, and the functions on texts are
-- those of ASCII. A pair of a value and an error is a Result. The variables of a loop are a record. The
-- calls of the staged boot are events of a history. Arithmetic on uint16 and uint64 wraps where the
-- source's operands can reach the bound; the products on int64 stay below 2^63 by the tests in front.
--
-- Parameters. crc32, sha256, the hash of the copy, and what net and net/netip make of a text are
-- functions that the definitions take; what the operating system answers is a record of answers
-- (BootFs, ImageIo, World, System, Host, DiskHost, Sysfs), in which an answer may depend on what was called before.
--
-- Fuel. readChain visits a cluster once, so one round for each cluster and one more are enough; a
-- round of CopyImage and HashPrefix takes a byte at least, so a round for each byte and one more are;
-- a round over the descriptors of a page moves on by four bytes at least, and one over the DHCP options
-- by one. A download makes five attempts, a metadata request four. A search in the graph of devices goes into each kernel name once, so its depth is at most
-- their number and one. A sum of 32 bits has no carry left behind two rounds of the fold.
--
-- Not modelled: the sequence of steps of Prepare, the socket of the DHCP probe, StageAndBoot for the direct method,
-- which calls RunWriter, and, being input and output alone, the prompts, the report, the process runner and the entry point.
mod Common
pub mod Disk
pub mod Install
pub mod Mikrotik
pub mod Network
