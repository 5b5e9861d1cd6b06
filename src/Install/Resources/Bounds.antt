-- ===== src/Install/Resources/Bounds.antt =====
-- On internal/install/resources.go: the sums and products of the checks, without wrap-around.
use mikrotik_chr_script.Common.{
  ℕ, ◌+◌, ◌-◌, ◌*◌, ◌/◌, ◌↔◌, ◌≤◌, ◌<◌, ◌≡◌, inl, inr, refl, true, false, ◌&&◌, ◌||◌, ltb, leb,
  ◌==◌, List, [], ◌∷◌, Option, none, some, get_or, arith, Option-cases, Bool-cases,
}
use native.Mathlib.Nat.{le-div_iff_mul-le}
use mikrotik_chr_script.Common.Bytes.{Bytes}
use mikrotik_chr_script.Common.Text.{fields, split}
use mikrotik_chr_script.Common.Outcome.{ok, reject_if, >>=-eq-ok}
use mikrotik_chr_script.Install.Resources.{
  Statfs, max_uint64, u64, writer_memory_spare, ensure_filesystem_space, is_digit, parse_digits,
  parse_uint, is_other_line, sum_listing, parse_initramfs_listing, validate_initramfs_memory,
  unknown_memory, incomplete_listing, memory_overflow,
}

-- On a file system with blocks of some size the check of the free space passes exactly where the free bytes do not wrap and cover what is
-- required.
pub ensure_filesystem_space_iff :
    (s : Statfs) (required : ℕ)
    → 0 < s.block_size
    → (ensure_filesystem_space (some s) required ≡ ok tt) ↔ (
        (required ≤ s.available_blocks * s.block_size)
        × (s.available_blocks * s.block_size ≤ max_uint64))
unfolding ensure_filesystem_space
ensure_filesystem_space_iff s required some_size =
    let (there, back) =
      le-div_iff_mul-le {k = s.block_size} {x = s.available_blocks} {y = max_uint64} some_size in
    elim (Bool-cases (leb s.available_blocks (max_uint64 / s.block_size))) [
      | inl fits ↦
          let small : s.available_blocks * s.block_size ≤ max_uint64 = there (ground arith) in
          ground arith
      | inr wraps ↦
          let large : max_uint64 < s.available_blocks * s.block_size = ground (arith, back) in
          ground arith
    ]

-- The sum of the sizes of the regular files of a listing, without a bound: `none` where a size is no
-- number.
pub listed_bytes : List Bytes → Option ℕ
listed_bytes [] = some 0
listed_bytes (line ∷ lines) = elim (is_other_line (fields line)) [
  | true ↦ listed_bytes lines
  | false ↦ elim (parse_uint (get_or (fields line) 4 [])) [
    | none ↦ none
    | some size ↦ elim (listed_bytes lines) [ none ↦ none | some n ↦ some (size + n) ]
  ]
]

parse_digits_bound :
    (s : Bytes) (n : ℕ) {m : ℕ} → n ≤ max_uint64 → parse_digits s n ≡ some m → m ≤ max_uint64
unfolding parse_digits
parse_digits_bound [] n le e = ground arith
parse_digits_bound (c ∷ s) n le e =
    elim (Bool-cases (is_digit c && leb (n * 10 + (c - 48)) max_uint64)) [
      | inl more ↦ parse_digits_bound s (n * 10 + (c - 48)) (ground arith) (ground arith)
      | inr stop ↦ absurd (ground arith)
    ]

parse_uint_bound : (s : Bytes) {m : ℕ} → parse_uint s ≡ some m → m ≤ max_uint64
parse_uint_bound [] e = absurd cc
parse_uint_bound (c ∷ s) e = parse_digits_bound (c ∷ s) 0 (omega arith) e

-- The files that are left, behind a sum of `total`.
sum_listing-ok :
    (lines : List Bytes) (total files : ℕ) {sum count : ℕ}
    → total ≤ max_uint64
    → sum_listing lines total files ≡ ok (sum, count)
    → (n : ℕ) × (listed_bytes lines ≡ some n) × (sum ≡ total + n) × (sum ≤ max_uint64)
unfolding sum_listing listed_bytes
sum_listing-ok [] total files le e = (0, refl, ground arith, ground arith)
sum_listing-ok (line ∷ lines) total files {sum} {count} le e =
    elim (Bool-cases (is_other_line (fields line))) [
      | inl other ↦
          let (n, listed, sum_eq, bound) =
            sum_listing-ok lines total files {sum = sum} {count = count} le (ground arith) in
          (n, ground arith, sum_eq, bound)
      | inr regular ↦ elim (Option-cases (parse_uint (get_or (fields line) 4 []))) [
        | inl bad ↦ absurd (ground arith)
        | inr (size, parsed) ↦
            let size_bound = parse_uint_bound (get_or (fields line) 4 []) parsed in
            let small : total + size ≤ max_uint64 = ground arith in
            let rest : sum_listing lines (total + size) (files + 1) ≡ ok (sum, count) =
              ground arith in
            let (n, listed, sum_eq, bound) =
              sum_listing-ok lines (total + size) (files + 1) small rest in
            (size + n, ground arith, omega arith, bound)
      ]
    ]

-- Where the check of the memory passes, for a memory size of 64 bits, the sizes of the listing are numbers, their sum does not wrap
-- and covers the image, and the memory covers that sum, the packed file and what the writer itself
-- needs, without wrapping.
pub validate_initramfs_memory-ok :
    (listing : Bytes) (file_size : ℕ) (memory_bytes image_size : ℕ)
    → memory_bytes ≤ max_uint64
    → validate_initramfs_memory (some listing) (some file_size) memory_bytes image_size ≡ ok tt
    → (n : ℕ) × (listed_bytes (split 10 listing) ≡ some n)
      × (0 < image_size)
      × (image_size ≤ n)
      × (n + file_size + writer_memory_spare ≤ memory_bytes)
unfolding validate_initramfs_memory parse_initramfs_listing
validate_initramfs_memory-ok listing file_size memory_bytes image_size le e =
    let (u1, known, e1) = >>=-eq-ok (reject_if (memory_bytes == 0) unknown_memory) _ e in
    let (unpacked, parsed, e2) = >>=-eq-ok (parse_initramfs_listing listing) _ e1 in
    let (u3, complete, e3) =
      >>=-eq-ok (reject_if (image_size == 0 || ltb unpacked image_size) incomplete_listing) _ e2 in
    let (u4, fits, e4) =
      >>=-eq-ok
        (reject_if
          (ltb (max_uint64 - writer_memory_spare) file_size
            || ltb (u64 (max_uint64 - file_size - writer_memory_spare)) unpacked)
          memory_overflow)
        _ e3 in
    let (sums, summed, e5) = >>=-eq-ok (sum_listing (split 10 listing) 0 0) _ parsed in
    let (n, listed, sum_eq, bound) =
      sum_listing-ok (split 10 listing) 0 0 {sum = sums.0} {count = sums.1} (omega arith) summed in
    let unpacked_eq : unpacked ≡ n = ground arith in
    (n, listed, ground arith, ground arith, ground arith)
