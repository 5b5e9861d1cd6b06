-- ===== src/Mikrotik/FatWriter/Files.antt =====
-- On internal/mikrotik/fat16.go: the four objects of the boot partition and their chains.
use mikrotik_chr_script.Common.{
  ℕ, zero, suc, ◌+◌, ◌-◌, ◌≤◌, ◌<◌, ◌≡◌, refl, ◌&&◌, ltb, leb, ◌==◌, if◌then◌else◌, length, arith,
  length-replicate, replicate,
}
use mikrotik_chr_script.Common.Bytes.{Bytes, byte_at}
use mikrotik_chr_script.Common.Outcome.{ok}
use mikrotik_chr_script.Mikrotik.Loader.{max_efi_loader_bytes, max_efi_map_bytes}
use mikrotik_chr_script.Mikrotik.FatReader.{cluster_offset, cluster_bytes}
use mikrotik_chr_script.Mikrotik.FatWriter.{
  Volume, allocate, clusters_of, empty_cluster, new_volume, allocate_all,
}
use mikrotik_chr_script.Mikrotik.FatWriter.Allocate.{IsPlaced, allocate_lem}

abbrev pub official_clusters : ℕ
official_clusters = 16343

length-empty_cluster : length empty_cluster ≡ cluster_bytes
unfolding empty_cluster
length-empty_cluster = length-replicate {A = ℕ} cluster_bytes 0

byte_at-replicate_zero : (n i : ℕ) → byte_at (replicate n 0) i ≡ 0
byte_at-replicate_zero zero i = refl
byte_at-replicate_zero (suc n) zero = refl
byte_at-replicate_zero (suc n) (suc i) = byte_at-replicate_zero n i

byte_at-empty_cluster : (i : ℕ) → byte_at empty_cluster i ≡ 0
unfolding empty_cluster
byte_at-empty_cluster i = byte_at-replicate_zero cluster_bytes i

-- The sizes that the checks in front of the allocations let through.
pub record Fits (loader map_bytes : Bytes) : Type 0 where
  pub loader_some : 0 < length loader
  pub loader_max : length loader ≤ max_efi_loader_bytes
  pub map_some : 0 < length map_bytes
  pub map_max : length map_bytes ≤ max_efi_map_bytes

abbrev pub map_first : Bytes → ℕ
map_first loader = 4 + clusters_of (length loader)

abbrev chain_spec : ℕ → ℕ → ℕ → ℕ
chain_spec first clusters c = if c + 1 == first + clusters then 0xffff else c + 1

-- What the volume holds once all four objects are placed.
pub record HasFiles (loader map_bytes : Bytes) (v : Volume) : Type 0 where
  pub blank : (j : ℕ) → j < cluster_offset 4 → v.image j ≡ 0
  pub beyond : (j : ℕ) → cluster_offset (official_clusters + 2) ≤ j → v.image j ≡ 0
  pub loader_at : (i : ℕ) → i < length loader → v.image (cluster_offset 4 + i) ≡ byte_at loader i
  pub map_at :
      (i : ℕ)
      → i < length map_bytes
      → v.image (cluster_offset (map_first loader) + i) ≡ byte_at map_bytes i
  pub media : (v.fat 0 ≡ 0xfff8) × (v.fat 1 ≡ 0xffff)
  pub directories : (v.fat 2 ≡ 0xffff) × (v.fat 3 ≡ 0xffff)
  pub loader_chain :
      (c : ℕ)
      → 4 ≤ c
      → c < map_first loader
      → v.fat c ≡ chain_spec 4 (clusters_of (length loader)) c
  pub map_chain :
      (c : ℕ)
      → map_first loader ≤ c
      → c < map_first loader + clusters_of (length map_bytes)
      → v.fat c ≡ chain_spec (map_first loader) (clusters_of (length map_bytes)) c

module _ {loader map_bytes : Bytes} (f : Fits loader map_bytes) {v1 v2 v3 v4 : Volume}
    (q1 : IsPlaced empty_cluster new_volume v1) (q2 : IsPlaced empty_cluster v1 v2)
    (q3 : IsPlaced loader v2 v3) (q4 : IsPlaced map_bytes v3 v4) where
  next_clusters :
      (v1.next_cluster ≡ 3) × (v2.next_cluster ≡ 4) × (v3.next_cluster ≡ map_first loader)
  next_clusters = omega (arith, length-empty_cluster, q1.next_at, q2.next_at, q3.next_at)

  files_image :
      (j : ℕ)
      → v4.image j ≡ (
          if leb (cluster_offset (map_first loader)) j
            && ltb j (cluster_offset (map_first loader) + length map_bytes)
          then byte_at map_bytes (j - cluster_offset (map_first loader))
          else if leb (cluster_offset 4) j && ltb j (cluster_offset 4 + length loader)
          then byte_at loader (j - cluster_offset 4)
          else 0)
  files_image j = ground (
    arith,
    next_clusters,
    q1.image_at j,
    q2.image_at j,
    q3.image_at j,
    q4.image_at j,
    byte_at-empty_cluster (j - cluster_offset 2),
    byte_at-empty_cluster (j - cluster_offset 3),
  )

  files_fat :
      (c : ℕ)
      → v4.fat c ≡ (
          if leb (map_first loader) c && ltb c (map_first loader + clusters_of (length map_bytes))
          then chain_spec (map_first loader) (clusters_of (length map_bytes)) c
          else if leb 4 c && ltb c (map_first loader)
          then chain_spec 4 (clusters_of (length loader)) c
          else if c == 0
          then 0xfff8
          else if leb c 3
          then 0xffff
          else 0)
  files_fat c = ground (
    arith,
    next_clusters,
    length-empty_cluster,
    q1.fat_at c,
    q2.fat_at c,
    q3.fat_at c,
    q4.fat_at c,
  )

  files-HasFiles : HasFiles loader map_bytes v4
  files-HasFiles = record {
    blank = λ j h. ground (arith, files_image j);
    beyond = λ j h. ground (arith, f, files_image j);
    loader_at = λ i h. ground (arith, files_image (cluster_offset 4 + i));
    map_at = λ i h. ground (arith, files_image (cluster_offset (map_first loader) + i));
    media = (ground (arith, files_fat 0), ground (arith, files_fat 1));
    directories = (ground (arith, files_fat 2), ground (arith, files_fat 3));
    loader_chain = λ c lo hi. ground (arith, files_fat c);
    map_chain = λ c lo hi. ground (arith, files_fat c);
  }

abbrev Placement : Bytes → Volume → Type 0
Placement content v =
    (w : Volume) × (allocate official_clusters content v ≡ ok (v.next_cluster, w))
    × IsPlaced content v w

-- The two directories are the clusters 2 and 3, the loader's chain begins at 4, the map's behind it.
abbrev pub FilesPlaced : Bytes → Bytes → Type 0
FilesPlaced loader map_bytes =
    (v : Volume) × (allocate_all official_clusters loader map_bytes
      ≡ ok (record { efi = 2; boot = 3; loader = 4; map_start = map_first loader; volume = v }))
    × HasFiles loader map_bytes v

module _ {loader map_bytes : Bytes} (f : Fits loader map_bytes) where
  behind_loader :
      (a : Placement empty_cluster new_volume) (b : Placement empty_cluster a.0)
      (c : Placement loader b.0)
      → Placement map_bytes c.0
      → FilesPlaced loader map_bytes
  unfolding allocate_all
  behind_loader (v1, p1, q1) (v2, p2, q2) (v3, p3, q3) (v4, p4, q4) =
      (v4, ground (arith, next_clusters f q1 q2 q3 q4), files-HasFiles f q1 q2 q3 q4)

  behind_boot :
      (a : Placement empty_cluster new_volume) (b : Placement empty_cluster a.0)
      → Placement loader b.0
      → FilesPlaced loader map_bytes
  behind_boot (v1, p1, q1) (v2, p2, q2) (v3, p3, q3) =
      let n1 : v1.next_cluster ≡ 3 = omega (arith, length-empty_cluster, q1.next_at) in
      let n2 : v2.next_cluster ≡ 4 = omega (arith, length-empty_cluster, q2.next_at) in
      behind_loader (v1, p1, q1) (v2, p2, q2) (v3, p3, q3)
        (allocate_lem official_clusters map_bytes v3 f.map_some (omega (arith, q3.next_at))
          (omega (arith, f, q3.next_at)) (omega arith))

  behind_efi :
      (a : Placement empty_cluster new_volume)
      → Placement empty_cluster a.0
      → FilesPlaced loader map_bytes
  behind_efi (v1, p1, q1) (v2, p2, q2) =
      let n1 : v1.next_cluster ≡ 3 = omega (arith, length-empty_cluster, q1.next_at) in
      let n2 : v2.next_cluster ≡ 4 = omega (arith, length-empty_cluster, q2.next_at) in
      behind_boot (v1, p1, q1) (v2, p2, q2)
        (allocate_lem official_clusters loader v2 f.loader_some (omega arith) (omega (arith, f))
          (omega arith))

  behind_nothing : Placement empty_cluster new_volume → FilesPlaced loader map_bytes
  behind_nothing (v1, p1, q1) =
      let n1 : v1.next_cluster ≡ 3 = omega (arith, length-empty_cluster, q1.next_at) in
      behind_efi (v1, p1, q1)
        (allocate_lem official_clusters empty_cluster v1 (omega (arith, length-empty_cluster))
          (omega arith) (omega (arith, length-empty_cluster)) (omega arith))

  -- Within the size limits `allocate_all` succeeds.
  pub allocate_all_lem : FilesPlaced loader map_bytes
  allocate_all_lem = behind_nothing (
      allocate_lem official_clusters empty_cluster new_volume (omega (arith, length-empty_cluster))
        (omega arith) (omega (arith, length-empty_cluster)) (omega arith))
