-- ===== src/Mikrotik/Mbr/Disjoint.antt =====
-- On internal/mikrotik/image.go: the layouts that Inspect accepts.
use mikrotik_chr_script.Common.{
  ℕ, zero, suc, ◌+◌, ◌*◌, ◌≤◌, ◌<◌, ◌≡◌, ◌≢◌, ◌⊎◌, inl, inr, not, ◌||◌, List, [], ◌∷◌, ltb, leb,
  ◌==◌, length, Option, none, some, All, All-append, arith, subst, ap, Bool-cases, length-append,
}
use mikrotik_chr_script.Common.Outcome.{ok, ◌>>◌, reject_if, >>=-eq-ok}
use mikrotik_chr_script.Mikrotik.Memory.{Memory}
use mikrotik_chr_script.Mikrotik.Mbr.{
  Partition, Layout, sector_size, read_partition, read_partitions, insert_by_offset, sort_by_offset,
  check_overlap, inspect, append_some, is_empty_list, no_partitions, read_mbr, missing_signature,
}

-- A partition of the table: numbered from 1, not empty, and within the image behind the MBR.
pub record IsInside (size : ℕ) (p : Partition) : Type 0 where
  pub index_ok : (1 ≤ p.index) × (p.index ≤ 4)
  pub type_ok : p.type ≢ 0
  pub some_sectors : 0 < p.sectors
  pub offset_ok : p.offset_bytes ≡ p.start_sector * sector_size
  pub size_ok : p.size_bytes ≡ p.sectors * sector_size
  pub behind_mbr : sector_size ≤ p.offset_bytes
  pub within : p.offset_bytes + p.size_bytes ≤ size

abbrev pub Apart : Partition → Partition → Type 0
Apart p q =
    (p.offset_bytes + p.size_bytes ≤ q.offset_bytes)
    ⊎ (q.offset_bytes + q.size_bytes ≤ p.offset_bytes)

abbrev pub AllApart : List Partition → Type 0
AllApart [] = Unit {0}
AllApart (p ∷ ps) = All (Apart p) ps × AllApart ps

read_partition-IsInside :
    (image : Memory) (size index : ℕ) {p : Partition}
    → index < 4
    → read_partition image size index ≡ ok (some p)
    → IsInside size p
unfolding read_partition
read_partition-IsInside image size index lt e = ground arith

append_some-IsInside :
    (image : Memory) (size index : ℕ) (ps : List Partition) (p : Option Partition)
    → index < 4
    → All (IsInside size) ps
    → read_partition image size index ≡ ok p
    → All (IsInside size) (append_some ps p) × (length (append_some ps p) ≤ length ps + 1)
append_some-IsInside image size index ps none lt h e = (h, omega arith)
append_some-IsInside image size index ps (some p) lt h e = (
  All-append _ ps (p ∷ []) h (read_partition-IsInside image size index lt e, tt),
  omega (arith, length-append ps (p ∷ [])),
)

read_partitions-IsInside :
    (n index : ℕ) (image : Memory) (size : ℕ) (ps : List Partition) {qs : List Partition}
    → index + n ≤ 4
    → All (IsInside size) ps
    → read_partitions n index image size ps ≡ ok qs
    → All (IsInside size) qs × (length qs ≤ length ps + n)
unfolding read_partitions
read_partitions-IsInside zero index image size ps {qs} le h e =
    let same : ps ≡ qs = cc in (subst (All (IsInside size)) same h, omega (arith, ap length same))
read_partitions-IsInside (suc n) index image size ps le h e =
    let (p, got, rest) = >>=-eq-ok (read_partition image size index) _ e in
    let (h', longer) = append_some-IsInside image size index ps p (omega arith) h got in
    let (all_inside, bound) =
      read_partitions-IsInside n (index + 1) image size (append_some ps p) (omega arith) h' rest in
    (all_inside, omega arith)

-- Sorting keeps what holds of every pair, whichever comes first.
insert_by_offset-All :
    (p x : Partition) (qs : List Partition)
    → All (Apart x) (insert_by_offset p qs)
    → Apart x p × All (Apart x) qs
unfolding insert_by_offset
insert_by_offset-All p x [] h = h
insert_by_offset-All p x (q ∷ qs) h = elim (Bool-cases (leb p.offset_bytes q.offset_bytes)) [
  | inl first ↦ rw first at h
  | inr later ↦
      let h' = rw later at h in
      let rest = insert_by_offset-All p x qs h'.1 in (rest.0, (h'.0, rest.1))
]

insert_by_offset-AllApart :
    (p : Partition) (qs : List Partition)
    → AllApart (insert_by_offset p qs)
    → All (Apart p) qs × AllApart qs
unfolding insert_by_offset
insert_by_offset-AllApart p [] h = h
insert_by_offset-AllApart p (q ∷ qs) h = elim (Bool-cases (leb p.offset_bytes q.offset_bytes)) [
  | inl first ↦ rw first at h
  | inr later ↦
      let h' = rw later at h in
      let (of_q, others) = insert_by_offset-All p q qs h'.0 in
      let (of_p, apart) = insert_by_offset-AllApart p qs h'.1 in
      ((omega (arith, of_q), of_p), (others, apart))
]

sort_by_offset-All :
    (x : Partition) (ps : List Partition) → All (Apart x) (sort_by_offset ps) → All (Apart x) ps
unfolding sort_by_offset
sort_by_offset-All x [] h = tt
sort_by_offset-All x (p ∷ ps) h =
    let (of_p, rest) = insert_by_offset-All p x (sort_by_offset ps) h in
    (of_p, sort_by_offset-All x ps rest)

sort_by_offset-AllApart : (ps : List Partition) → AllApart (sort_by_offset ps) → AllApart ps
unfolding sort_by_offset
sort_by_offset-AllApart [] h = tt
sort_by_offset-AllApart (p ∷ ps) h =
    let (of_p, rest) = insert_by_offset-AllApart p (sort_by_offset ps) h in
    (sort_by_offset-All p ps of_p, sort_by_offset-AllApart ps rest)

-- No overlap of neighbours is none at all.
check_overlap-below :
    (e : ℕ) (p : Partition) (ps : List Partition) {u : Unit {0}}
    → check_overlap (p ∷ ps) ≡ ok u
    → e ≤ p.offset_bytes
    → All (λ q. e ≤ q.offset_bytes) (p ∷ ps)
unfolding check_overlap
check_overlap-below e p [] h le = (le, tt)
check_overlap-below e p (q ∷ qs) h le =
    elim (Bool-cases (ltb q.offset_bytes (p.offset_bytes + p.size_bytes))) [
      | inl bad ↦ absurd (ground arith)
      | inr good ↦ (le, check_overlap-below e q qs (rw good at h) (ground arith))
    ]

below-Apart :
    (p : Partition) (ps : List Partition)
    → All (λ q. p.offset_bytes + p.size_bytes ≤ q.offset_bytes) ps
    → All (Apart p) ps
below-Apart p [] h = tt
below-Apart p (q ∷ qs) h = (inl h.0, below-Apart p qs h.1)

check_overlap-AllApart :
    (ps : List Partition) {u : Unit {0}} → check_overlap ps ≡ ok u → AllApart ps
unfolding check_overlap
check_overlap-AllApart [] h = tt
check_overlap-AllApart (p ∷ []) h = (tt, tt)
check_overlap-AllApart (p ∷ q ∷ qs) h =
    elim (Bool-cases (ltb q.offset_bytes (p.offset_bytes + p.size_bytes))) [
      | inl bad ↦ absurd (ground arith)
      | inr good ↦ (
        below-Apart p (q ∷ qs) (check_overlap-below _ q qs (rw good at h) (ground arith)),
        check_overlap-AllApart (q ∷ qs) (rw good at h),
      )
    ]

inspect_checks :
    (size : ℕ) (ps : List Partition) {layout : Layout}
    → All (IsInside size) ps
    → length ps ≤ 4
    → (reject_if (is_empty_list ps) no_partitions
        >> (check_overlap (sort_by_offset ps)
            >> ok (record { partitions = ps; autorun_partition = 0 })))
      ≡ ok layout
    → All (IsInside size) layout.partitions
      × AllApart layout.partitions
      × (1 ≤ length layout.partitions)
      × (length layout.partitions ≤ 4)
inspect_checks size [] inside bound e = cc
inspect_checks size (p ∷ ps) {layout} inside bound e =
    let (u, no_overlap, e1) = >>=-eq-ok (check_overlap (sort_by_offset (p ∷ ps))) _ e in
    let same : (p ∷ ps) ≡ layout.partitions = cc in
    rw (← same) (
      inside,
      sort_by_offset-AllApart (p ∷ ps) (check_overlap-AllApart _ no_overlap),
      omega arith,
      bound,
    )

-- A layout that `inspect` returns has one to four partitions, each not empty, behind the MBR and
-- within the image, and no two of them share a byte.
pub inspect-ok :
    (image : Memory) (size : ℕ) {layout : Layout}
    → inspect image size ≡ ok layout
    → All (IsInside size) layout.partitions
      × AllApart layout.partitions
      × (1 ≤ length layout.partitions)
      × (length layout.partitions ≤ 4)
unfolding inspect
inspect-ok image size {layout} e =
    let (u, readable, e1) = >>=-eq-ok (reject_if (ltb size sector_size) read_mbr) _ e in
    let (u', signed, e2) =
      >>=-eq-ok (reject_if (not (image 510 == 0x55) || not (image 511 == 0xaa)) missing_signature) _
        e1 in
    let (ps, got, e3) = >>=-eq-ok (read_partitions 4 0 image size []) _ e2 in
    let (inside, bound) = read_partitions-IsInside 4 0 image size [] (omega arith) tt got in
    inspect_checks size ps inside (omega arith) e3
