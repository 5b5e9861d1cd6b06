-- ===== src/Disk/Fingerprint/Authorized.antt =====
-- On internal/disk/fingerprint.go: the disk that SelectAuthorizedFingerprint selects.
use mikrotik_chr_script.Common.{
  ◌<◌, ◌≡◌, ◌⊎◌, inl, inr, refl, ap, ◌∙◌, Bool, true, false, List, [], ◌∷◌, ◌++◌, length, keep, All,
  arith, Bool-cases,
}
use mikrotik_chr_script.Common.Bytes.{bytes_eq_self}
use mikrotik_chr_script.Common.Text.{trim_space, to_lower}
use mikrotik_chr_script.Common.Outcome.{ok}
use mikrotik_chr_script.Disk.Fingerprint.{
  Fingerprint, has_stable_identity, normalize_identity, fingerprints_match, the_only,
  select_authorized_fingerprint,
}

-- One candidate passes the test, and those in front of it and behind it do not.
pub record IsOnly (test : Fingerprint → Bool) (c : Fingerprint) (cs : List Fingerprint)
    : Type 0 where
  pub before : List Fingerprint
  pub after : List Fingerprint
  pub split_eq : cs ≡ before ++ c ∷ after
  pub passes : test c ≡ true
  pub none_before : All (λ d. test d ≡ false) before
  pub none_after : All (λ d. test d ≡ false) after

keep-nil :
    (test : Fingerprint → Bool) (cs : List Fingerprint)
    → keep test cs ≡ []
    → All (λ d. test d ≡ false) cs
keep-nil test [] e = tt
keep-nil test (c ∷ cs) e = elim (Bool-cases (test c)) [
  | inl passed ↦ absurd (ground arith)
  | inr failed ↦ (failed, keep-nil test cs (ground arith))
]

IsOnly-behind :
    {test : Fingerprint → Bool} {c : Fingerprint} {cs : List Fingerprint} (d : Fingerprint)
    → test d ≡ false
    → IsOnly test c cs
    → IsOnly test c (d ∷ cs)
IsOnly-behind d failed r = record {
  before = d ∷ r.before;
  after = r.after;
  split_eq = ap (λ t. d ∷ t) r.split_eq;
  passes = r.passes;
  none_before = (failed, r.none_before);
  none_after = r.none_after;
}

keep-IsOnly :
    (test : Fingerprint → Bool) (cs : List Fingerprint) {c : Fingerprint}
    → keep test cs ≡ c ∷ []
    → IsOnly test c cs
keep-IsOnly test [] e = absurd cc
keep-IsOnly test (d ∷ cs) {c} e = elim (Bool-cases (test d)) [
  | inl passed ↦
      let same : d ≡ c = ground arith in
      record {
        before = [];
        after = cs;
        split_eq = ap (λ x. x ∷ cs) same;
        passes = rw (← same) passed;
        none_before = tt;
        none_after = keep-nil test cs (ground arith);
      }
  | inr failed ↦ IsOnly-behind d failed (keep-IsOnly test cs (ground arith))
]

keep-none :
    (test : Fingerprint → Bool) (cs : List Fingerprint)
    → All (λ d. test d ≡ false) cs
    → keep test cs ≡ []
keep-none test [] h = refl
keep-none test (d ∷ cs) h = ground (arith, keep-none test cs)

keep_split :
    (test : Fingerprint → Bool) (before after : List Fingerprint) {c : Fingerprint}
    → test c ≡ true
    → All (λ d. test d ≡ false) before
    → All (λ d. test d ≡ false) after
    → keep test (before ++ c ∷ after) ≡ c ∷ []
keep_split test [] after passed none_before none_after =
    rw (passed, keep-none test after none_after) refl
keep_split test (d ∷ before) after passed none_before none_after =
    rw (none_before.0) (keep_split test before after passed none_before.1 none_after)

the_only-ok :
    (matches : List Fingerprint) {c : Fingerprint} → the_only matches ≡ ok c → matches ≡ c ∷ []
the_only-ok [] e = absurd cc
the_only-ok (m ∷ []) e = cc
the_only-ok (m ∷ n ∷ ms) e = absurd cc

single_candidate :
    (test : Fingerprint → Bool) (candidates : List Fingerprint) {c : Fingerprint}
    → length candidates ≡ 1
    → keep test candidates ≡ c ∷ []
    → candidates ≡ c ∷ []
single_candidate test [] one kept = absurd (omega arith)
single_candidate test (d ∷ e ∷ ds) one kept = absurd (omega arith)
single_candidate test (d ∷ []) one kept = elim (Bool-cases (test d)) [
  | inl passed ↦ ground arith
  | inr failed ↦ absurd (ground arith)
]

-- The selected disk is among the candidates, matches the authorized fingerprint, and no other
-- candidate does; where the fingerprint has no stable identity it is the only candidate.
pub select_authorized_fingerprint-ok :
    (expected : Fingerprint) (candidates : List Fingerprint) {c : Fingerprint}
    → select_authorized_fingerprint expected candidates ≡ ok c
    → IsOnly (fingerprints_match expected) c candidates
      × ((has_stable_identity expected ≡ true) ⊎ (candidates ≡ c ∷ []))
unfolding select_authorized_fingerprint
select_authorized_fingerprint-ok expected candidates {c} e =
    let kept : keep (fingerprints_match expected) candidates ≡ c ∷ [] =
      the_only-ok (keep (fingerprints_match expected) candidates) (ground arith) in
    (
      keep-IsOnly (fingerprints_match expected) candidates kept,
      elim (Bool-cases (has_stable_identity expected)) [
        | inl stable ↦ inl stable
        | inr unstable ↦
            inr (single_candidate (fingerprints_match expected) candidates (ground arith) kept)
      ],
    )

-- Where one candidate matches and no other does, that one is selected, if the fingerprint has a
-- stable identity or there is no other candidate.
pub select_authorized_fingerprint_total :
    (expected : Fingerprint) (candidates : List Fingerprint) {c : Fingerprint}
    → IsOnly (fingerprints_match expected) c candidates
    → (has_stable_identity expected ≡ true) ⊎ (length candidates ≡ 1)
    → select_authorized_fingerprint expected candidates ≡ ok c
unfolding select_authorized_fingerprint
select_authorized_fingerprint_total expected candidates {c} r safe =
    let kept : keep (fingerprints_match expected) candidates ≡ c ∷ [] =
      ap (keep (fingerprints_match expected)) r.split_eq
      ∙ keep_split (fingerprints_match expected) r.before r.after r.passes r.none_before
          r.none_after in
    ground arith

-- A disk with a size and a stable identity matches its own fingerprint.
pub fingerprints_match_self :
    (f : Fingerprint)
    → 0 < f.size_bytes
    → has_stable_identity f ≡ true
    → fingerprints_match f f ≡ true
unfolding fingerprints_match has_stable_identity
fingerprints_match_self f some_bytes stable = ground (
  arith,
  bytes_eq_self (normalize_identity f.wwn),
  bytes_eq_self (normalize_identity f.serial),
  bytes_eq_self (to_lower (trim_space f.driver)),
)
