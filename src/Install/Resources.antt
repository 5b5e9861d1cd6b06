-- ===== src/Install/Resources.antt =====
-- internal/install/resources.go: the space and the memory that the staged writer needs. The sums and
-- products are on uint64.
pub mod Bounds
use mikrotik_chr_script.Common.{
  ℕ, zero, suc, ◌+◌, ◌-◌, ◌*◌, ◌/◌, ◌%◌, ◌^◌, Bool, true, false, not, ◌&&◌, ◌||◌, ltb, leb, ◌==◌,
  if◌then◌else◌, length, List, [], ◌∷◌, Option, none, some, get_or,
}
use mikrotik_chr_script.Common.Bytes.{Bytes}
use mikrotik_chr_script.Common.Text.{codes, fields, split, has_prefix}
use mikrotik_chr_script.Common.Outcome.{Result, ok, err, ◌>>=◌, ◌>>◌, reject_if, from_option}

abbrev pub max_uint64 : ℕ
max_uint64 = 2 ^ 64 - 1

abbrev pub u64 : ℕ → ℕ
u64 n = n % 2 ^ 64

abbrev pub writer_memory_spare : ℕ
writer_memory_spare = 384 * 1024 * 1024

pub data ResourceError : Type 0 where
  statfs_failed invalid_metadata space_overflow no_space : ResourceError
  unknown_memory listing_failed bad_size listing_overflow no_regular_files : ResourceError
  incomplete_listing stat_failed memory_overflow no_memory : ResourceError

-- `Bavail` is unsigned on Linux; `Bsize` is positive or is rejected.
pub record Statfs : Type 0 where
  pub available_blocks : ℕ
  pub block_size : ℕ

unfoldable pub ensure_filesystem_space : Option Statfs → ℕ → Result ResourceError (Unit {0})
ensure_filesystem_space statistics required = do
  s ← from_option statfs_failed statistics
  reject_if (s.block_size == 0) invalid_metadata
  reject_if (ltb (max_uint64 / s.block_size) s.available_blocks) space_overflow
  reject_if (ltb (u64 (s.available_blocks * s.block_size)) required) no_space

-- `strconv.ParseUint(s, 10, 64)`: digits only, one at least, and no value above the maximum
abbrev pub is_digit : ℕ → Bool
is_digit c = leb 48 c && leb c 57

unfoldable pub parse_digits : Bytes → ℕ → Option ℕ
parse_digits [] n = some n
parse_digits (c ∷ s) n =
    let rest = parse_digits s (n * 10 + (c - 48)) in
    if is_digit c && leb (n * 10 + (c - 48)) max_uint64 then rest else none

abbrev pub parse_uint : Bytes → Option ℕ
parse_uint [] = none
parse_uint (c ∷ s) = parse_digits (c ∷ s) 0

-- Whether the loop skips the line: fewer than six fields, or no regular file
abbrev pub is_other_line : List Bytes → Bool
is_other_line words = ltb (length words) 6 || not (has_prefix (codes "-") (get_or words 0 []))

-- The loop of `parseInitramfsListing`: the sum so far, and the number of files.
unfoldable pub sum_listing : List Bytes → ℕ → ℕ → Result ResourceError (ℕ × ℕ)
sum_listing [] total files = ok (total, files)
sum_listing (line ∷ lines) total files = elim (is_other_line (fields line)) [
  | true ↦ sum_listing lines total files
  | false ↦ elim (parse_uint (get_or (fields line) 4 [])) [
    | none ↦ err bad_size
    | some size ↦ elim (ltb (max_uint64 - size) total) [
      | true ↦ err listing_overflow
      | false ↦ sum_listing lines (u64 (total + size)) (files + 1)
    ]
  ]
]

unfoldable pub parse_initramfs_listing : Bytes → Result ResourceError ℕ
parse_initramfs_listing listing = do
  (total, files) ← sum_listing (split 10 listing) 0 0
  reject_if (files == 0) no_regular_files
  ok total

-- `listing` is what lsinitramfs prints, and `file_size` what os.Stat says; `none` is an error.
unfoldable pub validate_initramfs_memory :
    Option Bytes → Option ℕ → ℕ → ℕ → Result ResourceError (Unit {0})
validate_initramfs_memory listing file_size memory_bytes image_size = do
  reject_if (memory_bytes == 0) unknown_memory
  output ← from_option listing_failed listing
  unpacked ← parse_initramfs_listing output
  reject_if (image_size == 0 || ltb unpacked image_size) incomplete_listing
  compressed ← from_option stat_failed file_size
  reject_if
      (ltb (max_uint64 - writer_memory_spare) compressed
        || ltb (u64 (max_uint64 - compressed - writer_memory_spare)) unpacked)
      memory_overflow
  reject_if (ltb memory_bytes (u64 (u64 (unpacked + compressed) + writer_memory_spare))) no_memory
