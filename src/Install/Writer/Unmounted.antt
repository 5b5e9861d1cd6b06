-- ===== src/Install/Writer/Unmounted.antt =====
-- On internal/install/writer_linux.go, ensureUnmounted: what is not on the target.
use mikrotik_chr_script.Common.{
  ◌≤◌, ◌≡◌, ◌≢◌, ◌⊎◌, inl, inr, refl, subst, sym, true, false, List, [], ◌∷◌, Option, some, any_of,
  get_or, length, ltb, In, In-keep-of, All, ap, ◌∙◌, map, keep, ◌++◌, Bool-cases, arith,
}
use mikrotik_chr_script.Common.Bytes.{Bytes, bytes_eq→eq, bytes_eq_self}
use mikrotik_chr_script.Common.Text.{codes, fields, is_empty, has_prefix}
use mikrotik_chr_script.Common.Outcome.{ok, from_option, reject_if, >>=-eq-ok}
use mikrotik_chr_script.Install.Writer.{
  BlockEntry, Mounts, device_ids, is_target_partition, holds_device, mounts_target, swaps_on_target,
  swap_device, known_device, ensure_unmounted, mounts_unreadable, mounted,
}

-- A line of mountinfo whose third field is another device number, and a line of /proc/swaps that does
-- not name a file on the device
abbrev pub MountsOther : Bytes → Bytes → Type 0
MountsOther id line = (length (fields line) ≤ 2) ⊎ (get_or (fields line) 2 [] ≢ id)

abbrev pub SwapsOther : (Bytes → Option Bytes) → Bytes → Bytes → Type 0
SwapsOther device_of id line =
    (file : Bytes) (rest : List Bytes)
    → fields line ≡ file ∷ rest
    → device_of file ≡ some id
    → file ≡ codes "Filename"

-- A device number of the disk: its own, or that of a partition below its directory
abbrev pub IsDeviceOf : Mounts → Bytes → Type 0
IsDeviceOf m id =
    (id ≡ m.target_dev)
    ⊎ ((e : BlockEntry) × In e m.entries
        × (e.is_partition ≡ true)
        × (m.target_resolved ≢ [])
        × (has_prefix (m.target_resolved ++ codes "/") e.resolved ≡ true)
        × (id ≢ [])
        × (id ≡ e.dev))

-- No mounted file system and no swap area has a device number of the disk
pub record IsUnmounted (m : Mounts) : Type 0 where
  pub mount_lines : List Bytes
  pub swap_lines : List Bytes
  pub mounts_read : m.mountinfo ≡ some mount_lines
  pub swaps_read : m.swaps ≡ some swap_lines
  pub no_mount : (id : Bytes) → IsDeviceOf m id → All (MountsOther id) mount_lines
  pub no_swap : (id : Bytes) → IsDeviceOf m id → All (SwapsOther m.device_of id) swap_lines

holds_device-In : (ids : List Bytes) (id : Bytes) → In id ids → holds_device ids id ≡ true
holds_device-In [] id absent = elim absent [ ]
holds_device-In (x ∷ ids) id (inl same) =
    subst (λ y. holds_device (y ∷ ids) id ≡ true) same (rw (bytes_eq_self id) refl)
holds_device-In (x ∷ ids) id (inr later) = ground (arith, holds_device-In ids id later)

In-map_dev :
    (e : BlockEntry) (entries : List BlockEntry)
    → In e entries
    → In e.dev (map (λ entry. entry.dev) entries)
In-map_dev e [] absent = absent
In-map_dev e (x ∷ xs) (inl same) = inl (ap (λ entry. entry.dev) same)
In-map_dev e (x ∷ xs) (inr later) = inr (In-map_dev e xs later)

is_empty-ne : (s : Bytes) → s ≢ [] → is_empty s ≡ false
is_empty-ne [] h = absurd (h refl)
is_empty-ne (c ∷ s) h = refl

IsDeviceOf-holds_device :
    (m : Mounts) (id : Bytes) → IsDeviceOf m id → holds_device (device_ids m) id ≡ true
IsDeviceOf-holds_device m id (inl own) = holds_device-In (device_ids m) id (inl own)
IsDeviceOf-holds_device m id (inr (e, listed, partition, resolved, below, some_dev, same)) =
    let kept : is_target_partition m e ≡ true = ground (
      arith,
      is_empty-ne m.target_resolved resolved,
      is_empty-ne e.dev (λ none_dev. some_dev (same ∙ none_dev)),
    ) in
    holds_device-In (device_ids m) id (
      inr (
        subst (λ d. In d (map (λ entry. entry.dev) (keep (is_target_partition m) m.entries)))
          (sym same)
          (In-map_dev e (keep (is_target_partition m) m.entries)
            (In-keep-of (is_target_partition m) e m.entries kept listed))))

no_mount_of :
    (ids : List Bytes) (id : Bytes) (lines : List Bytes)
    → holds_device ids id ≡ true
    → any_of (mounts_target ids) lines ≡ false
    → All (MountsOther id) lines
no_mount_of ids id [] held h = tt
no_mount_of ids id (line ∷ lines) held h = (
  elim (Bool-cases (ltb 2 (length (fields line)))) [
    | inl long ↦ inr (λ same.
        let found : holds_device ids (get_or (fields line) 2 []) ≡ true =
          subst (λ x. holds_device ids x ≡ true) (sym same) held in
        ground arith)
    | inr short ↦ inl (ground arith)
  ],
  no_mount_of ids id lines held (ground arith),
)

no_swap_of :
    (m : Mounts) (ids : List Bytes) (id : Bytes) (lines : List Bytes)
    → holds_device ids id ≡ true
    → any_of (swaps_on_target m ids) lines ≡ false
    → All (SwapsOther m.device_of id) lines
no_swap_of m ids id [] held h = tt
no_swap_of m ids id (line ∷ lines) held h = (
  (λ file rest words device.
      let passed : swap_device m ids (file ∷ rest) ≡ false =
        subst (λ w. swap_device m ids w ≡ false) words (ground arith) in
      let known : known_device ids (m.device_of file) ≡ true = rw device held in
      bytes_eq→eq file (codes "Filename") (ground arith)),
  no_swap_of m ids id lines held (ground arith),
)

pub ensure_unmounted-IsUnmounted : (m : Mounts) → ensure_unmounted m ≡ ok tt → IsUnmounted m
unfolding ensure_unmounted
ensure_unmounted-IsUnmounted m e =
    let (mount_lines, read, e1) = >>=-eq-ok (from_option mounts_unreadable m.mountinfo) _ e in
    let (u2, free, e2) =
      >>=-eq-ok (reject_if (any_of (mounts_target (device_ids m)) mount_lines) mounted) _ e1 in
    let (swap_lines, read_swaps, e3) = >>=-eq-ok (from_option mounts_unreadable m.swaps) _ e2 in
    record {
      mount_lines = mount_lines;
      swap_lines = swap_lines;
      mounts_read = ground arith;
      swaps_read = ground arith;
      no_mount = λ id m_in.
          no_mount_of (device_ids m) id mount_lines (IsDeviceOf-holds_device m id m_in)
            (ground arith);
      no_swap = λ id m_in.
          no_swap_of m (device_ids m) id swap_lines (IsDeviceOf-holds_device m id m_in)
            (ground arith);
    }
