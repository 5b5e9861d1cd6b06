-- ===== src/Disk/Detect/Chosen.antt =====
-- What the target of Detect, of internal/disk/detect.go, has that comes without a blocker.
use mikrotik_chr_script.Common.{
  ◌≡◌, refl, ap, ap₂, ◌∙◌, ◌⊎◌, inl, inr, true, false, not, List, [], ◌∷◌, ◌++◌, none, some, ltb,
  keep, length, Bool-cases, Option-cases, true_of_negated,
}
use mikrotik_chr_script.Common.Bytes.{Bytes}
use mikrotik_chr_script.Common.Text.{codes, equal_fold}
use mikrotik_chr_script.Network.Plan.{
  Issue, info, blocked, block_if, blocked-append, block_if-ok, blocker-blocked, in_turn,
}
use mikrotik_chr_script.Disk.Graph.{BlockNode, Graph, lookup, backing_disks}
use mikrotik_chr_script.Disk.Staging.{DiskHost, rescue_direct, TargetDisk, one_element}
use mikrotik_chr_script.Disk.Detect.{
  is_live_filesystem, fingerprint, target_inspections, with_target, from_root, is_candidate,
  from_rescue, with_graph, read_root, resolve_source, read_graph, root_disk, detect,
}
use mikrotik_chr_script.Disk.Detect.Ways.{IsStaged}
use mikrotik_chr_script.Disk.Detect.Only.{IsOnlyFit, only_kept-IsOnlyFit}
use mikrotik_chr_script.Disk.Detect.Target.{
  one_element-some, no_elements, IsTarget, inspections-IsTarget, with_target-root,
}

module _ (host : DiskHost) where
  -- The target behind a root on a block device, and that of a rescue system
  pub record IsRootDisk (g : Graph) (source : Bytes) (disk : TargetDisk) : Type 0 where
    pub node : BlockNode
    pub node_ok : lookup g source ≡ some node
    pub target : BlockNode
    pub only_disk : backing_disks g node ≡ some (target ∷ [], [])
    pub target_ok : IsTarget host g target (fingerprint host target)
    pub fingerprint_ok : disk.fingerprint ≡ fingerprint host target
    pub staged_ok : IsStaged host disk

  pub record IsRescueDisk (g : Graph) (source fs_type : Bytes) (disk : TargetDisk) : Type 0 where
    pub no_node : lookup g source ≡ none
    pub live : is_live_filesystem source fs_type ≡ true
    pub target : BlockNode
    pub only_fit : IsOnlyFit g target
    pub target_ok : IsTarget host g target (fingerprint host target)
    pub fingerprint_ok : disk.fingerprint ≡ fingerprint host target
    pub method_ok : disk.method ≡ rescue_direct

  abbrev pub IsChosen : Graph → Bytes → Bytes → TargetDisk → Type 0
  IsChosen g source fs_type disk = IsRootDisk g source disk ⊎ IsRescueDisk g source fs_type disk

  from_root-ok :
      (g : Graph) (issues : List Issue) (backing : List BlockNode) (unsafe_types : List Bytes)
      → blocked (from_root host g issues backing unsafe_types).1 ≡ false
      → (blocked issues ≡ false)
        × (unsafe_types ≡ [])
        × (target : BlockNode) × (backing ≡ target ∷ [])
        × IsTarget host g target (fingerprint host target)
        × ((from_root host g issues backing unsafe_types).0.fingerprint ≡ fingerprint host target)
        × IsStaged host (from_root host g issues backing unsafe_types).0
  unfolding from_root
  from_root-ok g issues backing unsafe_types h =
      let stack = block_if (ltb 0 (length unsafe_types)) (codes "disk-stack") in
      elim (Option-cases (one_element backing)) [
        | inl e ↦
            absurd
              (blocker-blocked (issues ++ stack) (codes "disk-ambiguity") (rw (e, from_root) at h))
        | inr (target, e) ↦
            let (clear, target_ok, same, staged_ok) =
              with_target-root host g target (root_disk host) (issues ++ stack) refl
                (rw (e, from_root) at h) in
            let parts = blocked-append issues stack clear in
            rw (e, from_root)
              ((
                parts.0,
                no_elements unsafe_types (block_if-ok _ (codes "disk-stack") parts.1),
                target,
                one_element-some backing target e,
                target_ok,
                same,
                staged_ok,
              ))
      ]

  from_rescue-ok :
      (g : Graph) (source fs_type : Bytes) (issues : List Issue)
      → lookup g source ≡ none
      → blocked (from_rescue host g source fs_type issues).1 ≡ false
      → (blocked issues ≡ false)
        × IsRescueDisk g source fs_type (from_rescue host g source fs_type issues).0
  unfolding from_rescue with_target
  from_rescue-ok g source fs_type issues no_node h =
      elim (Bool-cases (not (is_live_filesystem source fs_type))) [
        | inl e ↦ absurd (blocker-blocked issues (codes "root-device") (rw (e, from_rescue) at h))
        | inr e ↦ elim (Option-cases (one_element (keep (is_candidate host g) g.disks))) [
          | inl e' ↦
              absurd
                (blocker-blocked issues (codes "disk-ambiguity") (rw (e, e', from_rescue) at h))
          | inr (target, e') ↦
              let f = fingerprint host target in
              let parts =
                blocked-append (issues ++ record { severity = info; code = codes "rescue" } ∷ [])
                  (in_turn (target_inspections host g target false f))
                  (rw (e, e', from_rescue) at h) in
              (
                (blocked-append issues _ parts.0).0,
                record {
                  no_node = no_node;
                  live = true_of_negated _ e;
                  target = target;
                  only_fit =
                      only_kept-IsOnlyFit host g target
                        (one_element-some (keep (is_candidate host g) g.disks) target e');
                  target_ok = inspections-IsTarget host g target false f parts.1;
                  fingerprint_ok = rw (e, e', from_rescue) refl;
                  method_ok = rw (e, e', from_rescue) refl;
                },
              )
        ]
      ]

  with_graph-IsChosen :
      (g : Graph) (source fs_type : Bytes) (issues : List Issue)
      → blocked (with_graph host g source fs_type issues).1 ≡ false
      → (blocked issues ≡ false)
        × IsChosen g source fs_type (with_graph host g source fs_type issues).0
  unfolding with_graph
  with_graph-IsChosen g source fs_type issues h = elim (Option-cases (lookup g source)) [
    | inl e ↦
        let (clear, chosen) = from_rescue-ok g source fs_type issues e (rw (e, with_graph) at h) in
        (clear, inr (rw (e, with_graph) chosen))
    | inr (n, e) ↦ elim (Option-cases (backing_disks g n)) [
      | inl e' ↦
          let (clear, none_unsafe, target, only, target_ok, same, staged_ok) =
            from_root-ok g issues [] [] (rw (e, e', with_graph) at h) in
          absurd cc
      | inr (found, e') ↦
          let (clear, none_unsafe, target, only, target_ok, same, staged_ok) =
            from_root-ok g issues found.0 found.1 (rw (e, e', with_graph) at h) in
          (
            clear,
            inl (
                rw (e, e', with_graph)
                  (record {
                    node = n;
                    node_ok = e;
                    target = target;
                    only_disk = e' ∙ ap some (ap₂ (λ a b. (a, b)) only none_unsafe);
                    target_ok = target_ok;
                    fingerprint_ok = same;
                    staged_ok = staged_ok;
                  })),
          )
    ]
  ]

  -- Where Detect of internal/disk reports no blocker, it has read the root's source, which is not btrfs,
  -- and the graph, and the target is: the one disk that backingDisks finds behind the root's device, with
  -- no unsupported type on the way to it, and a staged boot, with kernel, initramfs and the two programs
  -- for the initramfs in place, by kexec, where the program is there and neither Secure Boot nor the
  -- kernel's switch is against it, or else by GRUB, with its four programs and an environment block on a
  -- plain ext2; or, where the root is a live file system and no device, the one disk that is writable and
  -- not removable and has nothing mounted, on itself or on what is below it in the graph, where each
  -- other disk is read-only or removable or has a mounted descendant, for a direct write. Of either the fingerprint has at least 256 MiB, the size that lsblk reports where it reports one, a
  -- device number, a supported name and driver, and a serial number or a WWN unless it is the only disk.
  pub detect-IsChosen :
      blocked (detect host).1 ≡ false
      → (g : Graph) × (source : Bytes) × (fs_type : Bytes) × (read_root host
          ≡ some (source, fs_type))
        × (read_graph host ≡ some g)
        × (equal_fold fs_type (codes "btrfs") ≡ false)
        × IsChosen g (resolve_source host source) fs_type (detect host).0
  unfolding detect
  detect-IsChosen h = elim (Option-cases (read_root host)) [
    | inl e ↦ absurd (blocker-blocked [] (codes "root-device") (rw (e, detect) at h))
    | inr (root, e) ↦ elim (Option-cases (read_graph host)) [
      | inl e' ↦ absurd (blocker-blocked [] (codes "block-devices") (rw (e, e', detect) at h))
      | inr (g, e') ↦
          let (clear, chosen) =
            with_graph-IsChosen g (resolve_source host root.0) root.1
              (block_if (equal_fold root.1 (codes "btrfs")) (codes "disk-stack"))
              (rw (e, e', detect) at h) in
          (
            g,
            root.0,
            root.1,
            e,
            e',
            block_if-ok _ (codes "disk-stack") clear,
            rw (e, e', detect) chosen,
          )
    ]
  ]
