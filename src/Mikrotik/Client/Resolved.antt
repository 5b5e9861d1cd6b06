-- ===== src/Mikrotik/Client/Resolved.antt =====
-- On internal/mikrotik/client.go: the release that ResolveLatest returns, and the checks of Prepare on it.
use mikrotik_chr_script.Common.{
  ℕ, ◌≡◌, ◌↔◌, refl, sym, ap, subst, ◌∙◌, Bool, true, false, not, ◌||◌, [], ◌∷◌, ◌++◌, Option, none,
  some, length, Bool-cases, inl, inr, arith,
}
use mikrotik_chr_script.Common.Bytes.{Bytes}
use mikrotik_chr_script.Common.Text.{codes, is_empty, to_lower}
use mikrotik_chr_script.Common.Outcome.{
  Result, ok, err, reject_if, wrap_err, >>=-eq-ok, reject_if-eq-ok,
}
use mikrotik_chr_script.Mikrotik.Client.{
  ClientError, checksum_failed, resolve_failed, invalid_version, invalid_checksum,
  incomplete_release, untested_uefi, is_version, Release, SmallRound, get_small, first_field,
  is_checksum, checked_word, fetch_checksum, image_url_of, is_tested_uefi, is_in_boot_matrix,
  released, resolve_latest, check_release,
}

checked_word-ok :
    (test : Bytes → Bool) (problem : ClientError) (word : Option Bytes) (found : Bytes)
    → checked_word test problem word ≡ ok found
    → test found ≡ true
checked_word-ok test problem none found h = absurd cc
checked_word-ok test problem (some word) found h = elim (Bool-cases (test word)) [
  | inl e ↦ let same : word ≡ found = ground arith in subst (λ w. test w ≡ true) same e
  | inr e ↦ absurd (ground arith)
]

version_not_empty : (s : Bytes) → is_version s ≡ true → is_empty s ≡ false
version_not_empty [] h = absurd cc
version_not_empty (c ∷ s) h = refl

length-to_lower : (s : Bytes) → length (to_lower s) ≡ length s
length-to_lower [] = refl
length-to_lower (c ∷ s) = omega (arith, length-to_lower s)

not_empty : (s : Bytes) → length s ≡ 64 → is_empty s ≡ false
not_empty [] h = absurd (omega arith)
not_empty (c ∷ s) h = refl

append_not_empty : (a b : Bytes) → is_empty b ≡ false → is_empty (a ++ b) ≡ false
append_not_empty [] b h = h
append_not_empty (c ∷ a) b h = refl

-- The checksum of a release has the 64 digits that it was checked for.
fetch_checksum-length :
    (rounds : ℕ → SmallRound) (checksum : Bytes)
    → fetch_checksum rounds ≡ ok checksum
    → length checksum ≡ 64
unfolding fetch_checksum
fetch_checksum-length rounds checksum h =
    let (body, got, h1) = >>=-eq-ok (wrap_err checksum_failed (get_small rounds)) _ h in
    let (word, found, h2) =
      >>=-eq-ok (checked_word is_checksum invalid_checksum (first_field body)) _ h1 in
    let test = checked_word-ok is_checksum invalid_checksum (first_field body) word found in
    let size : length word ≡ 64 = ground arith in
    let same : to_lower word ≡ checksum = ground arith in
    omega (arith, length-to_lower word, ap length same)

-- What a release has that passes the checks
abbrev IsComplete : Release → Type 0
IsComplete r = (is_empty r.version || is_empty r.image_url || is_empty r.checksum) ≡ false

passed : (uefi tested : Bool) → (not uefi || not tested) ≡ false → uefi ≡ true
passed true tested h = refl
passed false tested h = cc

check_release-IsComplete :
    (r : Release)
    → IsComplete r
    → r.uefi_boot ≡ is_tested_uefi r.version r.checksum
    → (check_release r (codes "BIOS") ≡ ok tt)
      × ((check_release r (codes "UEFI") ≡ ok tt) ↔ (r.uefi_boot ≡ true))
unfolding check_release
check_release-IsComplete r complete tested = (
  rw complete refl,
  (
    (λ h.
        let (u, first, last) =
          >>=-eq-ok
            (reject_if (is_empty r.version || is_empty r.image_url || is_empty r.checksum)
              incomplete_release)
            _ h in
        passed r.uefi_boot _ (reject_if-eq-ok _ untested_uefi last)),
    (λ e. let again : is_in_boot_matrix r ≡ true = sym tested ∙ e in rw (complete, e, again) refl),
  ),
)

value_or {ℓ} : {A : Type ℓ} → A → Result ClientError A → A
value_or default (ok a) = a
value_or default (err e) = default

same_value :
    {a b : Release} → (let first : Result ClientError Release = ok a in first) ≡ ok b → a ≡ b
unfolding value_or
same_value {a} h = ap (value_or a) h

resolved :
    (download_base : Bytes) (version_rounds checksum_rounds : ℕ → SmallRound) (release : Release)
    → resolve_latest download_base version_rounds checksum_rounds ≡ ok release
    → IsComplete release × (release.uefi_boot ≡ is_tested_uefi release.version release.checksum)
unfolding resolve_latest
resolved download_base version_rounds checksum_rounds release h =
    let (body, got, h1) = >>=-eq-ok (wrap_err resolve_failed (get_small version_rounds)) _ h in
    let (version, found, h2) =
      >>=-eq-ok (checked_word is_version invalid_version (first_field body)) _ h1 in
    let (checksum, fetched, h3) = >>=-eq-ok (fetch_checksum checksum_rounds) _ h2 in
    let v =
      version_not_empty version
        (checked_word-ok is_version invalid_version (first_field body) version found) in
    let c = not_empty checksum (fetch_checksum-length checksum_rounds checksum fetched) in
    let url : is_empty (image_url_of download_base version) ≡ false =
      append_not_empty _ (codes ".img.zip") refl in
    let whole : IsComplete (released download_base version checksum) = rw (v, url, c) refl in
    subst (λ r. IsComplete r × (r.uefi_boot ≡ is_tested_uefi r.version r.checksum)) (same_value h3)
      (whole, refl)

-- A release that ResolveLatest returns passes the checks that Prepare makes of release and firmware: for
-- BIOS always, and for UEFI exactly if the release says that it boots by UEFI.
pub resolve_latest-check_release :
    (download_base : Bytes) (version_rounds checksum_rounds : ℕ → SmallRound) (release : Release)
    → resolve_latest download_base version_rounds checksum_rounds ≡ ok release
    → (check_release release (codes "BIOS") ≡ ok tt)
      × ((check_release release (codes "UEFI") ≡ ok tt) ↔ (release.uefi_boot ≡ true))
resolve_latest-check_release download_base version_rounds checksum_rounds release h =
    let (complete, tested) = resolved download_base version_rounds checksum_rounds release h in
    check_release-IsComplete release complete tested
