-- ===== src/Mikrotik/FatReader/Find.antt =====
-- On internal/mikrotik/fat16.go: the loop of findFAT16DirectoryEntry, one entry at a time.
use mikrotik_chr_script.Common.{
  ℕ, suc, ◌+◌, ◌≡◌, ◌≢◌, ◌⊎◌, ◌∙◌, ◌<◌, true, false, arith, ◌∷◌, inl, inr,
}
use mikrotik_chr_script.Common.Bytes.{Bytes, bytes_eq, bytes_eq_self}
use mikrotik_chr_script.Common.Outcome.{ok}
use mikrotik_chr_script.Mikrotik.Memory.{Memory, read_bytes, read_bytes-cong, mem16, mem32}
use mikrotik_chr_script.Mikrotik.FatReader.{entry_at, is_skipped, find_from}

-- The entry at `off` of a directory
pub record HasEntry (directory : Memory) (off : ℕ) (name : Bytes) (attributes cluster size : ℕ)
    : Type 0 where
  pub name_at : read_bytes directory off 11 ≡ name
  pub attributes_at : directory (off + 11) ≡ attributes
  pub cluster_at : mem16 directory (off + 26) ≡ cluster
  pub size_at : mem32 directory (off + 28) ≡ size

abbrev pub SameEntry : Memory → ℕ → Memory → ℕ → Type 0
SameEntry m off k off' = (i : ℕ) → i < 32 → m (off + i) ≡ k (off' + i)

pub HasEntry-cong :
    {m k : Memory} {off off' : ℕ} {name : Bytes} {attributes cluster size : ℕ}
    → SameEntry k off' m off
    → HasEntry m off name attributes cluster size
    → HasEntry k off' name attributes cluster size
HasEntry-cong {m} {k} {off} {off'} same h = record {
  name_at = read_bytes-cong k m off' off 11 (λ i lt. same i (omega arith)) ∙ h.name_at;
  attributes_at = same 11 (omega arith) ∙ h.attributes_at;
  cluster_at = ground (arith, same 26 (omega arith), same 27 (omega arith), h.cluster_at);
  size_at = ground (
    arith,
    same 28 (omega arith),
    same 29 (omega arith),
    same 30 (omega arith),
    same 31 (omega arith),
    h.size_at,
  );
}

-- The entry that is looked for
pub find_from_hit :
    (directory : Memory) (name : Bytes) (off n : ℕ)
    → directory off ≢ 0
    → is_skipped directory off ≡ false
    → read_bytes directory off 11 ≡ name
    → find_from directory name off (suc n) ≡ ok (entry_at directory off)
unfolding find_from
find_from_hit directory name off n used kept e = ground (arith, bytes_eq_self name)

-- An entry that is passed over for what it is
pub find_from_skip :
    (directory : Memory) (name : Bytes) (off n : ℕ)
    → directory off ≢ 0
    → is_skipped directory off ≡ true
    → find_from directory name off (suc n) ≡ find_from directory name (off + 32) n
unfolding find_from
find_from_skip directory name off n used skipped = ground arith

-- An entry of another name
pub find_from_other :
    (directory : Memory) (name : Bytes) (off n : ℕ)
    → directory off ≢ 0
    → bytes_eq (read_bytes directory off 11) name ≡ false
    → find_from directory name off (suc n) ≡ find_from directory name (off + 32) n
unfolding find_from
find_from_other directory name off n used other = ground arith

module _ {directory : Memory} {off b attributes cluster size : ℕ} {rest : Bytes}
    (h : HasEntry directory off (b ∷ rest) attributes cluster size) where
  first_byte : directory off ≡ b
  unfolding read_bytes
  first_byte = cc h.name_at

  plain_kept :
      b ≢ 0xe5 → (attributes ≡ 0x10) ⊎ (attributes ≡ 0x20) → is_skipped directory off ≡ false
  plain_kept kept (inl p) = rw (first_byte, h.attributes_at, p) (ground arith)
  plain_kept kept (inr p) = rw (first_byte, h.attributes_at, p) (ground arith)

  label_skipped : attributes ≡ 0x08 → is_skipped directory off ≡ true
  label_skipped p = rw (h.attributes_at, p) (ground arith)

  -- A directory or a file of the wanted name is found,
  pub find_from-HasEntry :
      (n : ℕ)
      → b ≢ 0
      → b ≢ 0xe5
      → (attributes ≡ 0x10) ⊎ (attributes ≡ 0x20)
      → find_from directory (b ∷ rest) off (suc n)
        ≡ ok (record { attributes = attributes; cluster = cluster; size = size })
  find_from-HasEntry n used kept plain =
      find_from_hit directory (b ∷ rest) off n (ground (arith, first_byte)) (plain_kept kept plain)
        h.name_at
      ∙ ground (arith, h.attributes_at, h.cluster_at, h.size_at)

  -- one of another name is not,
  pub find_from-other :
      (name : Bytes) (n : ℕ)
      → b ≢ 0
      → bytes_eq (b ∷ rest) name ≡ false
      → find_from directory name off (suc n) ≡ find_from directory name (off + 32) n
  find_from-other name n used other =
      find_from_other directory name off n (ground (arith, first_byte)) (rw h.name_at other)

  -- and a volume label is passed over.
  pub find_from-label :
      (name : Bytes) (n : ℕ)
      → b ≢ 0
      → attributes ≡ 0x08
      → find_from directory name off (suc n) ≡ find_from directory name (off + 32) n
  find_from-label name n used label =
      find_from_skip directory name off n (ground (arith, first_byte)) (label_skipped label)
