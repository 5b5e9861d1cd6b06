-- ===== src/Mikrotik/FatReader/Chain.antt =====
-- On internal/mikrotik/fat16.go: the loop of readChain.
use mikrotik_chr_script.Common.{
  ℕ, zero, suc, ◌+◌, ◌*◌, ◌≤◌, ◌<◌, ◌≡◌, ◌≢◌, refl, ap, ◌∙◌, Bool, false, ◌||◌, List, [], ◌∷◌, ◌++◌,
  ◌==◌, if◌then◌else◌, length, any_of, All, append_assoc, arith, Bool-cases, inl, inr,
}
use mikrotik_chr_script.Common.Bytes.{Bytes}
use mikrotik_chr_script.Common.Outcome.{ok, err}
use mikrotik_chr_script.Mikrotik.Memory.{Memory, read_bytes, mem16, read_bytes-add}
use mikrotik_chr_script.Mikrotik.FatReader.{
  View, stuck, cluster_offset, cluster_bytes, is_bad_cluster, chain_loop, read_chain,
}

abbrev holds : ℕ → List ℕ → Bool
holds x = any_of (λ c. c == x)

abbrev pub Distinct : List ℕ → Type 0
Distinct [] = Unit {0}
Distinct (x ∷ xs) = (holds x xs ≡ false) × Distinct xs

without : ℕ → List ℕ → List ℕ
without v [] = []
without v (x ∷ xs) = let rest = without v xs in if x == v then rest else x ∷ rest

holds-without : (v y : ℕ) (xs : List ℕ) → holds y xs ≡ false → holds y (without v xs) ≡ false
unfolding without
holds-without v y [] h = refl
holds-without v y (x ∷ xs) h = ground (arith, holds-without v y xs)

without-Distinct : (v : ℕ) (xs : List ℕ) → Distinct xs → Distinct (without v xs)
unfolding without
without-Distinct v [] h = tt
without-Distinct v (x ∷ xs) h = ground (arith, holds-without v x xs, without-Distinct v xs)

without-bounds :
    (n : ℕ) (xs : List ℕ)
    → All (λ x. (2 ≤ x) × (x < suc n + 2)) xs
    → All (λ x. (2 ≤ x) × (x < n + 2)) (without (n + 2) xs)
unfolding without
without-bounds n [] h = tt
without-bounds n (x ∷ xs) h = elim (Bool-cases (x == n + 2)) [
  | inl e ↦ rw e (without-bounds n xs h.1)
  | inr e ↦ rw e ((h.0.0, ground arith), without-bounds n xs h.1)
]

length-without_absent :
    (v : ℕ) (xs : List ℕ) → holds v xs ≡ false → length (without v xs) ≡ length xs
unfolding without
length-without_absent v [] h = refl
length-without_absent v (x ∷ xs) h = ground (arith, length-without_absent v xs)

length-without : (v : ℕ) (xs : List ℕ) → Distinct xs → length xs ≤ suc (length (without v xs))
unfolding without
length-without v [] h = omega arith
length-without v (x ∷ xs) h = elim (Bool-cases (x == v)) [
  | inl e ↦ ground (arith, length-without_absent v xs)
  | inr e ↦ ground (arith, length-without v xs)
]

-- Distinct clusters out of `n` are at most `n`.
Distinct-bounded :
    (n : ℕ) (xs : List ℕ) → Distinct xs → All (λ x. (2 ≤ x) × (x < n + 2)) xs → length xs ≤ n
Distinct-bounded n [] d h = omega arith
Distinct-bounded zero (x ∷ xs) d h = absurd (omega arith)
Distinct-bounded (suc n) (x ∷ xs) d h = omega (
  arith,
  length-without (n + 2) (x ∷ xs) d,
  Distinct-bounded n (without (n + 2) (x ∷ xs)) (without-Distinct (n + 2) (x ∷ xs) d)
      (without-bounds n (x ∷ xs) h),
)

chain_loop-ne-stuck :
    (fuel : ℕ) (view : View) (cluster : ℕ) (seen : List ℕ) (value : Bytes)
    → Distinct seen
    → All (λ x. (2 ≤ x) × (x < view.data_cluster_count + 2)) seen
    → view.data_cluster_count < fuel + length seen
    → chain_loop fuel view cluster seen value ≢ err stuck
unfolding chain_loop
chain_loop-ne-stuck zero view cluster seen value d h enough e =
    absurd (omega (arith, Distinct-bounded view.data_cluster_count seen d h))
chain_loop-ne-stuck (suc fuel) view cluster seen value d h enough e =
    let longer : Bytes = value ++ read_bytes view.image (cluster_offset cluster) cluster_bytes in
    let next : ℕ = mem16 view.fat (cluster * 2) in
    elim (Bool-cases (is_bad_cluster view cluster || holds cluster seen)) [
      | inl stop ↦ ground arith
      | inr go ↦ ground (
        arith,
        chain_loop-ne-stuck fuel view next (cluster ∷ seen) longer (ground arith, d)
            ((ground arith, ground arith), h) (omega arith),
      )
    ]

-- On every table, loops and dangling entries included, `read_chain` ends: its fuel suffices.
pub read_chain-ne-stuck : (view : View) (start : ℕ) → read_chain view start ≢ err stuck
unfolding read_chain
read_chain-ne-stuck view start =
    ground (
      arith,
      chain_loop-ne-stuck (view.data_cluster_count + 1) view start [] [] tt tt (omega arith),
    )

-- The table holds a run of `k + 1` clusters from `c` on.
pub record IsRun (view : View) (c k : ℕ) : Type 0 where
  pub first_ok : 2 ≤ c
  pub last_ok : c + k < view.data_cluster_count + 2
  pub small : view.data_cluster_count + 2 < 65525
  pub table_ok : (view.data_cluster_count + 2) * 2 ≤ view.fat_size
  pub links : (i : ℕ) → i < k → mem16 view.fat ((c + i) * 2) ≡ c + i + 1
  pub end : mem16 view.fat ((c + k) * 2) ≡ 0xffff

IsRun-tail : {view : View} {c k : ℕ} → IsRun view c (suc k) → IsRun view (c + 1) k
IsRun-tail {view} {c} {k} r = record {
  first_ok = omega (arith, r.first_ok);
  last_ok = omega (arith, r.last_ok);
  small = r.small;
  table_ok = r.table_ok;
  links = λ i h. ground (arith, r.links (suc i) (omega arith));
  end = ground (arith, r.end);
}

not-holds : (c : ℕ) (seen : List ℕ) → All (λ x. x < c) seen → holds c seen ≡ false
not-holds c [] h = refl
not-holds c (x ∷ xs) h = ground (arith, not-holds c xs h.1)

All-lt-next : (c : ℕ) (seen : List ℕ) → All (λ x. x < c) seen → All (λ x. x < c + 1) seen
All-lt-next c [] h = tt
All-lt-next c (x ∷ xs) h = (omega (arith, h.0), All-lt-next c xs h.1)

-- One round on a cluster that is not the last of a run.
chain_loop_step :
    (fuel : ℕ) (view : View) (c : ℕ) (seen : List ℕ) (value : Bytes)
    → 2 ≤ c
    → c < view.data_cluster_count + 2
    → (view.data_cluster_count + 2) * 2 ≤ view.fat_size
    → holds c seen ≡ false
    → 2 ≤ mem16 view.fat (c * 2)
    → mem16 view.fat (c * 2) < 0xfff7
    → chain_loop (suc fuel) view c seen value
      ≡ chain_loop fuel view
          (mem16 view.fat (c * 2))
          (c ∷ seen)
          (value ++ read_bytes view.image (cluster_offset c) cluster_bytes)
unfolding chain_loop
chain_loop_step fuel view c seen value lo hi table fresh n1 n2 = ground arith

chain_loop_last :
    (fuel : ℕ) (view : View) (c : ℕ) (seen : List ℕ) (value : Bytes)
    → 2 ≤ c
    → c < view.data_cluster_count + 2
    → (view.data_cluster_count + 2) * 2 ≤ view.fat_size
    → holds c seen ≡ false
    → mem16 view.fat (c * 2) ≡ 0xffff
    → chain_loop (suc fuel) view c seen value
      ≡ ok (value ++ read_bytes view.image (cluster_offset c) cluster_bytes)
unfolding chain_loop
chain_loop_last fuel view c seen value lo hi table fresh n = ground arith

run_bytes :
    (m : Memory) (c k : ℕ)
    → 2 ≤ c
    → read_bytes m (cluster_offset c) cluster_bytes
        ++ read_bytes m (cluster_offset (c + 1)) ((k + 1) * cluster_bytes)
      ≡ read_bytes m (cluster_offset c) ((suc k + 1) * cluster_bytes)
run_bytes m c k h =
    let next : cluster_offset (c + 1) ≡ cluster_offset c + cluster_bytes = omega arith in
    let total : (suc k + 1) * cluster_bytes ≡ cluster_bytes + (k + 1) * cluster_bytes =
      omega arith in
    rw (next, total) (read_bytes-add m (cluster_offset c) cluster_bytes ((k + 1) * cluster_bytes))

chain_loop-run :
    (fuel : ℕ) (view : View) (c k : ℕ) (seen : List ℕ) (value : Bytes)
    → IsRun view c k
    → All (λ x. x < c) seen
    → k < fuel
    → chain_loop fuel view c seen value
      ≡ ok (value ++ read_bytes view.image (cluster_offset c) ((k + 1) * cluster_bytes))
chain_loop-run zero view c k seen value r old h = absurd (omega arith)
chain_loop-run (suc fuel) view c zero seen value r old h =
    chain_loop_last fuel view c seen value r.first_ok (omega arith) r.table_ok
      (not-holds c seen old) (ground (arith, r.end))
chain_loop-run (suc fuel) view c (suc k) seen value r old h =
    let here : Bytes = read_bytes view.image (cluster_offset c) cluster_bytes in
    let later : Bytes = read_bytes view.image (cluster_offset (c + 1)) ((k + 1) * cluster_bytes) in
    let longer : Bytes = value ++ here in
    let linked : mem16 view.fat (c * 2) ≡ c + 1 = ground (arith, r.links 0 (omega arith)) in
    chain_loop_step fuel view c seen value r.first_ok (omega arith) r.table_ok
      (not-holds c seen old) (omega arith) (omega arith)
    ∙ rw linked (
        chain_loop-run fuel view (c + 1) k (c ∷ seen) longer (IsRun-tail r)
          (omega arith, All-lt-next c seen old) (omega arith))
    ∙ ap ok
        (append_assoc value here later ∙ ap (λ t. value ++ t) (run_bytes view.image c k r.first_ok))

-- From the first cluster of a run, `read_chain` returns the bytes of the run, in order.
pub read_chain-run :
    (view : View) (c k : ℕ)
    → IsRun view c k
    → read_chain view c ≡ ok (read_bytes view.image (cluster_offset c) ((k + 1) * cluster_bytes))
unfolding read_chain
read_chain-run view c k r =
    ground (arith, chain_loop-run (view.data_cluster_count + 1) view c k [] [] r tt (omega arith))
