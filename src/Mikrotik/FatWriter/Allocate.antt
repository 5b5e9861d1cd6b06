-- ===== src/Mikrotik/FatWriter/Allocate.antt =====
-- On internal/mikrotik/fat16.go: what the closure allocate writes, byte by byte and entry by entry.
use mikrotik_chr_script.Common.{
  ℕ, zero, suc, ◌+◌, ◌-◌, ◌*◌, ◌≤◌, ◌<◌, ◌≡◌, refl, ◌&&◌, ltb, leb, ◌==◌, if◌then◌else◌, length,
  arith,
}
use mikrotik_chr_script.Common.Bytes.{Bytes, byte_at}
use mikrotik_chr_script.Common.Outcome.{ok}
use mikrotik_chr_script.Mikrotik.Memory.{Memory}
use mikrotik_chr_script.Mikrotik.FatReader.{cluster_offset, cluster_bytes}
use mikrotik_chr_script.Mikrotik.FatWriter.{
  Volume, allocate_cluster, allocate_loop, allocate, clusters_of, u16,
}

pub clusters_of_bounds :
    (n : ℕ)
    → (n ≤ clusters_of n * cluster_bytes) × (clusters_of n * cluster_bytes < n + cluster_bytes)
clusters_of_bounds n = omega arith

-- A byte of the image behind the rounds from `index` on.
abbrev pub image_spec : Bytes → ℕ → ℕ → Memory → Memory
image_spec content first index image j =
    if leb (cluster_offset first + index * cluster_bytes) j
      && ltb j (cluster_offset first + length content)
    then byte_at content (j - cluster_offset first)
    else image j

abbrev pub fat_spec : ℕ → ℕ → ℕ → Memory → Memory
fat_spec clusters first index fat c =
    if leb (first + index) c && ltb c (first + clusters)
    then (if c + 1 == first + clusters then 0xffff else c + 1)
    else fat c

allocate_loop-image :
    (n : ℕ) (content : Bytes) (first index : ℕ) (v : Volume) (j : ℕ)
    → index + n ≡ clusters_of (length content)
    → 2 ≤ first
    → first + clusters_of (length content) < 65536
    → (allocate_loop n content (clusters_of (length content)) first index v).image j
      ≡ image_spec content first index v.image j
unfolding allocate_loop
allocate_loop-image zero content first index v j e lo hi = ground arith
allocate_loop-image (suc n) content first index v j e lo hi =
    let clusters : ℕ = clusters_of (length content) in
    let v' : Volume = allocate_cluster content clusters first index v in
    ground (arith, allocate_loop-image n content first (index + 1) v' j (omega arith) lo hi)

allocate_loop-fat :
    (n : ℕ) (content : Bytes) (clusters first index : ℕ) (v : Volume) (c : ℕ)
    → index + n ≡ clusters
    → first + clusters < 65536
    → (allocate_loop n content clusters first index v).fat c ≡ fat_spec clusters first index v.fat c
unfolding allocate_loop
allocate_loop-fat zero content clusters first index v c e hi = ground arith
allocate_loop-fat (suc n) content clusters first index v c e hi =
    let v' : Volume = allocate_cluster content clusters first index v in
    ground (arith, allocate_loop-fat n content clusters first (index + 1) v' c (omega arith) hi)

allocate_loop-next :
    (n : ℕ) (content : Bytes) (clusters first index : ℕ) (v : Volume)
    → (allocate_loop n content clusters first index v).next_cluster ≡ v.next_cluster
unfolding allocate_loop
allocate_loop-next zero content clusters first index v = refl
allocate_loop-next (suc n) content clusters first index v =
    allocate_loop-next n content clusters first (index + 1)
      (allocate_cluster content clusters first index v)

-- `w` is `v` with `content` in the clusters from `v.next_cluster` on, linked as one chain.
pub record IsPlaced (content : Bytes) (v w : Volume) : Type 0 where
  pub image_at : (j : ℕ) → w.image j ≡ image_spec content v.next_cluster 0 v.image j
  pub fat_at : (c : ℕ) → w.fat c ≡ fat_spec (clusters_of (length content)) v.next_cluster 0 v.fat c
  pub next_at : w.next_cluster ≡ v.next_cluster + clusters_of (length content)

abbrev placed : Bytes → Volume → Volume
placed content v =
    let clusters = clusters_of (length content) in
    let w = allocate_loop clusters content clusters v.next_cluster 0 v in
    record w { next_cluster = u16 (w.next_cluster + u16 clusters) }

-- An object that is not empty and fits is placed behind those before it.
pub allocate_lem :
    (cluster_count : ℕ) (content : Bytes) (v : Volume)
    → 0 < length content
    → 2 ≤ v.next_cluster
    → v.next_cluster + clusters_of (length content) ≤ cluster_count + 2
    → cluster_count + 2 < 65536
    → (w : Volume) × (allocate cluster_count content v ≡ ok (v.next_cluster, w))
      × IsPlaced content v w
unfolding allocate
allocate_lem cluster_count content v some_bytes lo fits hi =
    let clusters : ℕ = clusters_of (length content) in
    let first : ℕ = v.next_cluster in
    (
      placed content v,
      ground arith,
      record {
        image_at =
            λ j. allocate_loop-image clusters content first 0 v j (omega arith) lo (omega arith);
        fat_at = λ c.
            allocate_loop-fat clusters content clusters first 0 v c (omega arith) (omega arith);
        next_at = ground (arith, allocate_loop-next clusters content clusters first 0 v);
      },
    )
