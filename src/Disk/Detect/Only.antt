-- ===== src/Disk/Detect/Only.antt =====
-- The one disk of a rescue system that Detect, of internal/disk/detect.go, takes.
use mikrotik_chr_script.Common.{
  ◌≡◌, ap, ◌⊎◌, inl, inr, true, false, List, [], ◌∷◌, ◌++◌, keep, All, Bool-cases, arith,
}
use mikrotik_chr_script.Common.Bytes.{Bytes}
use mikrotik_chr_script.Disk.Graph.{BlockNode, Graph, has_mounted_descendant}
use mikrotik_chr_script.Disk.Graph.Mounted.{
  Below, HasUnmounted, has_mounted_descendant-HasUnmounted,
}
use mikrotik_chr_script.Disk.Staging.{DiskHost}
use mikrotik_chr_script.Disk.Detect.{is_candidate}

-- A disk that cannot be the target: it is read-only, or removable, or something of it is mounted.
abbrev pub IsUnfit : Graph → BlockNode → Type 0
IsUnfit g d = (d.read_only ≡ true) ⊎ ((d.removable ≡ true) ⊎ (has_mounted_descendant g d ≡ true))

-- The one disk that can
pub record IsOnlyFit (g : Graph) (target : BlockNode) : Type 0 where
  pub before : List BlockNode
  pub after : List BlockNode
  pub listed : g.disks ≡ before ++ target ∷ after
  pub writable : target.read_only ≡ false
  pub fixed : target.removable ≡ false
  pub unmounted : has_mounted_descendant g target ≡ false
  pub nothing_mounted : (k : Bytes) → Below g target.kname k → HasUnmounted k
  pub earlier : All (IsUnfit g) before
  pub later : All (IsUnfit g) after

module _ (host : DiskHost) (g : Graph) where
  is_candidate-IsUnfit : (d : BlockNode) → is_candidate host g d ≡ false → IsUnfit g d
  is_candidate-IsUnfit d h = elim (Bool-cases d.read_only) [
    | inl read_only ↦ inl read_only
    | inr writable ↦ elim (Bool-cases d.removable) [
      | inl removable ↦ inr (inl removable)
      | inr fixed ↦ inr (inr (ground arith))
    ]
  ]

  nothing_kept :
      (disks : List BlockNode) → keep (is_candidate host g) disks ≡ [] → All (IsUnfit g) disks
  nothing_kept [] h = tt
  nothing_kept (d ∷ ds) h = elim (Bool-cases (is_candidate host g d)) [
    | inl fit ↦ absurd (let kept = rw fit at h in cc)
    | inr unfit ↦ (is_candidate-IsUnfit d unfit, nothing_kept ds (rw unfit at h))
  ]

  pub only_kept :
      (disks : List BlockNode) (target : BlockNode)
      → keep (is_candidate host g) disks ≡ target ∷ []
      → (before : List BlockNode) × (after : List BlockNode) × (disks ≡ before ++ target ∷ after)
        × (is_candidate host g target ≡ true)
        × All (IsUnfit g) before
        × All (IsUnfit g) after
  only_kept [] target h = absurd cc
  only_kept (d ∷ ds) target h = elim (Bool-cases (is_candidate host g d)) [
    | inl fit ↦
        let kept = rw fit at h in
        let same : d ≡ target = ground arith in
        let rest : keep (is_candidate host g) ds ≡ [] = ground arith in
        ([], ds, ap (λ t. t ∷ ds) same, ground arith, tt, nothing_kept ds rest)
    | inr unfit ↦
        let (before, after, listed, fit, earlier, later) = only_kept ds target (rw unfit at h) in
        (
          d ∷ before,
          after,
          ap (λ l. d ∷ l) listed,
          fit,
          (is_candidate-IsUnfit d unfit, earlier),
          later,
        )
  ]

  pub only_kept-IsOnlyFit :
      (target : BlockNode) → keep (is_candidate host g) g.disks ≡ target ∷ [] → IsOnlyFit g target
  only_kept-IsOnlyFit target h =
      let (before, after, listed, fit, earlier, later) = only_kept g.disks target h in
      let unmounted : has_mounted_descendant g target ≡ false = ground arith in
      record {
        before = before;
        after = after;
        listed = listed;
        writable = ground arith;
        fixed = ground arith;
        unmounted = unmounted;
        nothing_mounted = has_mounted_descendant-HasUnmounted g target unmounted;
        earlier = earlier;
        later = later;
      }
