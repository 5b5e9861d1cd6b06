-- ===== src/Disk/Vpd/Best.antt =====
-- On internal/disk/fingerprint.go: the identity that parseVPD83 chooses.
use mikrotik_chr_script.Common.{
  ℕ, zero, suc, ◌+◌, ◌≤◌, ◌<◌, ◌≡◌, ◌≢◌, inl, inr, refl, ap, All-append, List, [], ◌∷◌, ◌++◌, ltb,
  leb, some, All, arith, Bool-cases,
}
use mikrotik_chr_script.Common.Bytes.{Bytes, byte_at, be16}
use mikrotik_chr_script.Disk.Vpd.{
  Identity, Scan, found, malformed, stuck, push_descriptor, scan_loop, best, first_ranked,
  parse_vpd83,
}

scan_loop-ne-stuck :
    (fuel : ℕ) (page : Bytes) (end offset : ℕ) (identities : List Identity)
    → end < fuel + offset
    → 0 < fuel
    → scan_loop fuel page end offset identities ≢ stuck
unfolding scan_loop
scan_loop-ne-stuck zero page end offset identities enough some_fuel e = absurd (omega arith)
scan_loop-ne-stuck (suc fuel) page end offset identities enough some_fuel e =
    let next : ℕ = offset + 4 + byte_at page (offset + 3) in
    elim (Bool-cases (ltb offset end)) [
      | inl inside ↦ ground (
        arith,
        scan_loop-ne-stuck fuel page end next (push_descriptor page offset next identities)
            (omega arith),
      )
      | inr behind ↦ ground arith
    ]

-- An element that no element of the list ranks below, and all in front of it rank above it.
pub record IsBest (i : Identity) (is : List Identity) : Type 0 where
  pub before : List Identity
  pub after : List Identity
  pub split_eq : is ≡ before ++ i ∷ after
  pub all_before : All (λ j. i.rank < j.rank) before
  pub all_after : All (λ j. i.rank ≤ j.rank) after

rank_le-All :
    (n m : ℕ) (is : List Identity) → n ≤ m → All (λ j. m ≤ j.rank) is → All (λ j. n ≤ j.rank) is
rank_le-All n m [] le h = tt
rank_le-All n m (j ∷ js) le h = (omega (arith, h.0), rank_le-All n m js le h.1)

rank_lt-All : (m : ℕ) (is : List Identity) → All (λ j. m < j.rank) is → All (λ j. m ≤ j.rank) is
rank_lt-All m [] h = tt
rank_lt-All m (j ∷ js) h = (omega (arith, h.0), rank_lt-All m js h.1)

rank_min-All :
    (n : ℕ) {i : Identity} {is : List Identity}
    → IsBest i is
    → n ≤ i.rank
    → All (λ j. n ≤ j.rank) is
rank_min-All n {i} r le =
    let front = rank_le-All n i.rank r.before le (rank_lt-All i.rank r.before r.all_before) in
    let back = rank_le-All n i.rank r.after le r.all_after in
    rw (r.split_eq) (All-append (λ j. n ≤ j.rank) r.before (i ∷ r.after) front (le, back))

best-IsBest : (i : Identity) (is : List Identity) → IsBest (best i is) (i ∷ is)
unfolding best
best-IsBest i [] = record {
  before = [];
  after = [];
  split_eq = refl;
  all_before = tt;
  all_after = tt;
}
best-IsBest i (j ∷ js) =
    let r = best-IsBest j js in
    elim (Bool-cases (leb i.rank (best j js).rank)) [
      | inl first ↦ rw first (record {
        before = [];
        after = j ∷ js;
        split_eq = refl;
        all_before = tt;
        all_after = rank_min-All i.rank r (ground arith);
      })
      | inr later ↦ rw later (record {
        before = i ∷ r.before;
        after = r.after;
        split_eq = ap (λ t. i ∷ t) r.split_eq;
        all_before = (ground arith, r.all_before);
        all_after = r.all_after;
      })
    ]

first_ranked-IsBest :
    (scan : Scan) {i : Identity}
    → first_ranked scan ≡ some i
    → (is : List Identity) × (scan ≡ found is) × IsBest i is
first_ranked-IsBest malformed e = absurd cc
first_ranked-IsBest stuck e = absurd cc
first_ranked-IsBest (found []) e = absurd cc
first_ranked-IsBest (found (j ∷ js)) {i} e =
    let chosen : best j js ≡ i = cc in (j ∷ js, refl, rw (← chosen) (best-IsBest j js))

-- The loop of `parseVPD83` ends on every page.
pub parse_vpd83-ne-stuck :
    (page : Bytes) → scan_loop (4 + be16 page 2 + 1) page (4 + be16 page 2) 4 [] ≢ stuck
parse_vpd83-ne-stuck page =
    scan_loop-ne-stuck (4 + be16 page 2 + 1) page (4 + be16 page 2) 4 [] (omega arith) (omega arith)

-- An identity that `parse_vpd83` returns is one of those that the scan of the page finds; none of
-- them ranks below it, and those in front of it rank above it.
pub parse_vpd83-IsBest :
    (page : Bytes) {i : Identity}
    → parse_vpd83 page ≡ some i
    → (is : List Identity) × (scan_loop (4 + be16 page 2 + 1) page (4 + be16 page 2) 4 []
        ≡ found is)
      × IsBest i is
unfolding parse_vpd83
parse_vpd83-IsBest page e =
    first_ranked-IsBest (scan_loop (4 + be16 page 2 + 1) page (4 + be16 page 2) 4 []) (ground arith)
