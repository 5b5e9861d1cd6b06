-- ===== src/Install/Cmdline.antt =====
-- internal/install/stage.go, writerCmdline: the kernel command line of the staged writer.
pub mod Words
use mikrotik_chr_script.Common.{Bool, not, ◌||◌, List, [], ◌∷◌, ◌++◌, keep}
use mikrotik_chr_script.Common.Bytes.{Bytes}
use mikrotik_chr_script.Common.Text.{codes, fields, has_prefix}

-- `strings.Join(..., " ")`
unfoldable pub join_words : List Bytes → Bytes
join_words [] = []
join_words (w ∷ []) = w
join_words (w ∷ v ∷ ws) = w ++ 32 ∷ join_words (v ∷ ws)

-- The fields that the loop passes over are the others.
abbrev pub is_kept : Bytes → Bool
is_kept field = not (
    has_prefix (codes "BOOT_IMAGE=") field
    || has_prefix (codes "initrd=") field
    || has_prefix (codes "rdinit=") field
    || has_prefix (codes "chr.install=") field)

abbrev pub install_flag : Bytes
install_flag = codes "chr.install=1"

unfoldable pub writer_cmdline : Bytes → Bytes
writer_cmdline input = join_words (keep is_kept (fields input) ++ install_flag ∷ [])
