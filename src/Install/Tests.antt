-- ===== src/Install/Tests.antt =====
-- Concrete sources, targets and files on which the theorems on internal/install are applied.
use mikrotik_chr_script.Common.{◌≤◌, ◌<◌, ◌≡◌, refl, false, [], ◌∷◌, ◌++◌, length, take, arith, inl}
use mikrotik_chr_script.Common.Bytes.{Bytes}
use mikrotik_chr_script.Common.Outcome.{ok, is_ok}
use mikrotik_chr_script.Common.Text.{codes}
use mikrotik_chr_script.Install.Write.{Source, Target, Copy, copy_image, hash_prefix, start_copy}
use mikrotik_chr_script.Install.Write.Copied.{
  copy_image_total, copy_image_short, copy_image-ok, advance,
}
use mikrotik_chr_script.Install.Write.Verified.{hash_prefix-copy_image}

abbrev same_digest : Bytes → Bytes
same_digest bytes = bytes

abbrev a_source : Source
a_source = record { rest = 1 ∷ 2 ∷ 3 ∷ []; broken = false }

abbrev a_target : Target
a_target = record { content = []; room = 9; silent = false }

abbrev copied : Copy
copied = advance 3 (start_copy a_source a_target)

copy_image_example : copy_image same_digest a_source a_target 3 ≡ (ok (1 ∷ 2 ∷ 3 ∷ []), copied)
copy_image_example =
    copy_image_total same_digest a_source a_target 3 (omega arith) (omega arith) (omega arith)

copy_image_short_example : is_ok (copy_image same_digest a_source a_target 4).0 ≡ false
copy_image_short_example = copy_image_short same_digest a_source a_target 4 (inl (omega arith))

copy_image-ok_example :
    (0 < 3)
    × (3 ≤ length a_source.rest)
    × (3 ≤ a_target.room)
    × (1 ∷ 2 ∷ 3 ∷ [] ≡ same_digest (take 3 a_source.rest))
    × (copied.target.content ≡ a_target.content ++ take 3 a_source.rest)
copy_image-ok_example = copy_image-ok same_digest a_source a_target 3 copy_image_example

hash_prefix-copy_image_example :
    hash_prefix same_digest (record { rest = copied.target.content ++ 8 ∷ []; broken = false }) 3
    ≡ ok (1 ∷ 2 ∷ 3 ∷ [])
hash_prefix-copy_image_example =
    hash_prefix-copy_image same_digest a_source a_target 3 (8 ∷ []) false refl copy_image_example

abbrev a_cmdline : Bytes
a_cmdline = codes "BOOT_IMAGE=/vmlinuz  root=/dev/sda1 quiet initrd=x"
