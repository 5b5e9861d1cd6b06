-- ===== src/Disk/Detect/Target.antt =====
-- On the target and the staging of internal/disk/detect.go, where no blocker is reported.
use mikrotik_chr_script.Common.{
  ℕ, ◌*◌, ◌≤◌, ◌≡◌, ◌≢◌, refl, ◌⊎◌, inl, inr, Bool, true, false, not, ◌&&◌, List, [], ◌∷◌, ◌++◌,
  some, ◌==◌, ltb, if◌then◌else◌, length, Bool-cases, Option-cases, arith, ge_of_ltb,
  true_of_negated,
}
use mikrotik_chr_script.Common.Bytes.{Bytes}
use mikrotik_chr_script.Common.Text.{codes, trim_space, is_empty, is_empty→ne}
use mikrotik_chr_script.Network.Plan.{
  Issue, Severity, warning, blocking, blocked, is_blocking, issue_if, blocked-append, block_if-ok,
  blocker-blocked, in_turn, in_turn-blocked,
}
use mikrotik_chr_script.Disk.Fingerprint.{Fingerprint}
use mikrotik_chr_script.Disk.Graph.{BlockNode, Graph}
use mikrotik_chr_script.Disk.Staging.{
  DiskHost, no_method, staged_kexec, staged_grub, TargetDisk, one_element, kexec_usable,
  grub_usable, staged, staging_inspections, configure_staging,
}
use mikrotik_chr_script.Disk.Detect.Ways.{IsStaged, method_of}
use mikrotik_chr_script.Disk.Detect.{
  supported_storage_driver, supported_kernel_name, fingerprint, target_inspections, with_target,
}

issue_if-ok :
    (bad : Bool) (severity : Severity) (code : Bytes)
    → blocked (issue_if bad severity code) ≡ false
    → (bad ≡ false) ⊎ (is_blocking severity ≡ false)
issue_if-ok true severity code h = ground arith
issue_if-ok false severity code h = inl refl

pub one_element-some {ℓ} : {A : Type ℓ} (l : List A) (a : A) → one_element l ≡ some a → l ≡ a ∷ []
one_element-some [] a h = absurd cc
one_element-some (x ∷ []) a h = ground arith
one_element-some (x ∷ y ∷ rest) a h = absurd cc

some_identity :
    (serial wwn : Bytes) (disks : ℕ)
    → ((is_empty serial && is_empty wwn) ≡ false)
      ⊎ (is_blocking (if disks == 1 then warning else blocking) ≡ false)
    → (serial ≢ []) ⊎ ((wwn ≢ []) ⊎ (disks ≡ 1))
some_identity serial wwn disks (inr h) = inr (inr (ground arith))
some_identity serial wwn disks (inl h) = elim (Bool-cases (is_empty serial)) [
  | inl e ↦ inr (inl (is_empty→ne wwn (ground arith)))
  | inr e ↦ inl (is_empty→ne serial e)
]

chosen_method :
    (kexec grub : Bool)
    → (not kexec && not grub) ≡ false
    → (((if kexec then staged_kexec else if grub then staged_grub else no_method) ≡ staged_kexec)
        × (kexec ≡ true))
      ⊎ (((if kexec then staged_kexec else if grub then staged_grub else no_method) ≡ staged_grub)
          × (kexec ≡ false)
          × (grub ≡ true))
chosen_method true grub h = inl (refl, refl)
chosen_method false true h = inr (refl, refl, refl)
chosen_method false false h = cc

pub no_elements {ℓ} : {A : Type ℓ} (l : List A) → ltb 0 (length l) ≡ false → l ≡ []
no_elements [] h = refl
no_elements (x ∷ l) h = absurd (ground arith)

module _ (host : DiskHost) where
  -- A target that can be written to after a reboot
  pub record IsTarget (g : Graph) (target : BlockNode) (f : Fingerprint) : Type 0 where
    pub size_ok : 256 * 1024 * 1024 ≤ f.size_bytes
    pub sizes_agree : (target.size ≡ 0) ⊎ (target.size ≡ f.size_bytes)
    pub device_ok : f.major_minor ≢ []
    pub name_ok : supported_kernel_name target.kname ≡ true
    pub driver_ok : supported_storage_driver f.driver ≡ true
    pub identity_ok : (f.serial ≢ []) ⊎ ((f.wwn ≢ []) ⊎ (length g.disks ≡ 1))

  pub inspections-IsTarget :
      (g : Graph) (target : BlockNode) (root_backed : Bool) (f : Fingerprint)
      → blocked (in_turn (target_inspections host g target root_backed f)) ≡ false
      → IsTarget g target f
  inspections-IsTarget g target root_backed f h =
      let clear = in_turn-blocked (target_inspections host g target root_backed f) h in
      let size = block_if-ok _ (codes "disk-metadata") clear.0 in
      let device = block_if-ok _ (codes "disk-metadata") clear.1.0 in
      let large = block_if-ok _ (codes "disk-size") clear.1.1.0 in
      let name = block_if-ok _ (codes "disk-driver") clear.1.1.1.0 in
      let driver = block_if-ok _ (codes "disk-driver") clear.1.1.1.1.0 in
      let identity = issue_if-ok _ _ (codes "disk-identity") clear.1.1.1.1.1.0 in
      record {
        size_ok = ge_of_ltb f.size_bytes (256 * 1024 * 1024) large;
        sizes_agree = ground arith;
        device_ok = is_empty→ne f.major_minor (ground arith);
        name_ok = ground arith;
        driver_ok = ground arith;
        identity_ok = some_identity f.serial f.wwn (length g.disks) identity;
      }

  configure_staging-IsStaged :
      (disk : TargetDisk) (issues : List Issue)
      → blocked (configure_staging host disk issues).1 ≡ false
      → (blocked issues ≡ false)
        × ((configure_staging host disk issues).0.fingerprint ≡ disk.fingerprint)
        × IsStaged host (configure_staging host disk issues).0
  unfolding configure_staging
  configure_staging-IsStaged disk issues h =
      elim (Option-cases (host.run (codes "uname" ∷ codes "-r" ∷ []))) [
        | inl e ↦ absurd (blocker-blocked issues (codes "kernel") (rw (e, configure_staging) at h))
        | inr (output, e) ↦
            let found = staged host disk (trim_space output) in
            let parts =
              blocked-append issues (in_turn (staging_inspections host found))
                (rw (e, configure_staging) at h) in
            let clear = in_turn-blocked (staging_inspections host found) parts.1 in
            let kernel = block_if-ok _ (codes "kernel") clear.0 in
            let initrd = block_if-ok _ (codes "initramfs") clear.1.0 in
            let way = block_if-ok _ (codes "staging") clear.1.1.1.1.1.0 in
            rw (e, configure_staging)
              ((
                parts.0,
                refl,
                record {
                  kernel_ok = true_of_negated _ kernel;
                  initrd_ok = true_of_negated _ initrd;
                  builder_ok =
                      true_of_negated _ (block_if-ok _ (codes "initramfs-builder") clear.1.1.0);
                  inspector_ok =
                      true_of_negated _ (block_if-ok _ (codes "initramfs-inspector") clear.1.1.1.0);
                  method_ok =
                      method_of host found
                        (chosen_method (kexec_usable host) (grub_usable host) way);
                },
              ))
      ]

  pub with_target-root :
      (g : Graph) (target : BlockNode) (disk : TargetDisk) (issues : List Issue)
      → disk.root_backed ≡ true
      → blocked (with_target host g target disk issues).1 ≡ false
      → (blocked issues ≡ false)
        × IsTarget g target (fingerprint host target)
        × ((with_target host g target disk issues).0.fingerprint ≡ fingerprint host target)
        × IsStaged host (with_target host g target disk issues).0
  unfolding with_target
  with_target-root g target disk issues e h =
      let f = fingerprint host target in
      let inspected = issues ++ in_turn (target_inspections host g target disk.root_backed f) in
      let (clear, same, staged_ok) =
        configure_staging-IsStaged (record disk { fingerprint = f }) inspected
          (rw (e, with_target) at h) in
      let parts =
        blocked-append issues (in_turn (target_inspections host g target disk.root_backed f))
          clear in
      rw (e, with_target)
        ((parts.0, inspections-IsTarget g target disk.root_backed f parts.1, same, staged_ok))
