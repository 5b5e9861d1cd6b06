-- ===== src/Mikrotik/FatWriter/Tables.antt =====
-- On internal/mikrotik/fat16.go: the two copies of the allocation table in the image.
use mikrotik_chr_script.Common.{ℕ, zero, suc, ◌+◌, ◌*◌, ◌≤◌, ◌<◌, ◌≡◌, refl, ◌⊎◌, arith, true}
use mikrotik_chr_script.Mikrotik.Memory.{Memory, zeros, put16, mem16, same_bytes, same_bytes_self}
use mikrotik_chr_script.Mikrotik.FatReader.{sub_slice, first_fat_offset, fat_bytes, root_offset}
use mikrotik_chr_script.Mikrotik.FatWriter.{serialize_fat, fat_entries, write_tables}

serialize_fat-before :
    (n index : ℕ) (fat m : Memory) (j : ℕ) → j < index * 2 → serialize_fat n index fat m j ≡ m j
unfolding serialize_fat
serialize_fat-before zero index fat m j h = refl
serialize_fat-before (suc n) index fat m j h = ground (
  arith,
  serialize_fat-before n (index + 1) fat (put16 m (index * 2) (fat index)) j (omega arith),
)

serialize_fat-at :
    (n index : ℕ) (fat m : Memory) (c : ℕ)
    → index ≤ c
    → c < index + n
    → fat c < 65536
    → mem16 (serialize_fat n index fat m) (c * 2) ≡ fat c
unfolding serialize_fat
serialize_fat-at zero index fat m c lo hi small = absurd (omega arith)
serialize_fat-at (suc n) index fat m c lo hi small = ground (
  arith,
  serialize_fat-before n (index + 1) fat (put16 m (index * 2) (fat index)) (c * 2),
  serialize_fat-before n (index + 1) fat (put16 m (index * 2) (fat index)) (c * 2 + 1),
  serialize_fat-at n (index + 1) fat (put16 m (index * 2) (fat index)) c,
)

pub write_tables-else :
    (m fat : Memory) (j : ℕ)
    → (j < first_fat_offset) ⊎ (root_offset ≤ j)
    → write_tables m fat j ≡ m j
unfolding write_tables
write_tables-else m fat j out = ground arith

-- The two copies are the same bytes.
pub write_tables-same :
    (m fat : Memory)
    → same_bytes
        (sub_slice (write_tables m fat) first_fat_offset)
        0
        (sub_slice (write_tables m fat) (first_fat_offset + fat_bytes))
        0
        fat_bytes
      ≡ true
write_tables-same m fat = same_bytes_self _ _ 0 0 fat_bytes (λ i lt. copies i lt)
  where
    copies :
        (i : ℕ)
        → i < fat_bytes
        → write_tables m fat (first_fat_offset + (0 + i))
          ≡ write_tables m fat (first_fat_offset + fat_bytes + (0 + i))
    copies i lt = unfold write_tables in ground arith

-- An entry of the table, as a reader sees it in the first copy.
pub write_tables-entry :
    (m fat : Memory) (c : ℕ)
    → c < fat_entries
    → fat c < 65536
    → mem16 (sub_slice (write_tables m fat) first_fat_offset) (c * 2) ≡ fat c
unfolding write_tables
write_tables-entry m fat c lt small = ground (arith, serialize_fat-at fat_entries 0 fat zeros c)
