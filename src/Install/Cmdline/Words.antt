-- ===== src/Install/Cmdline/Words.antt =====
-- On internal/install/stage.go: the words of the text that writerCmdline builds.
use mikrotik_chr_script.Common.{◌≡◌, false, All}
use mikrotik_chr_script.Common.Bytes.{Bytes}
use mikrotik_chr_script.Common.Text.{is_space, is_empty}

-- No white space
abbrev pub IsPlain : Bytes → Type 0
IsPlain w = All (λ c. is_space c ≡ false) w

-- A word of a text: not empty, and without white space
abbrev pub IsWord : Bytes → Type 0
IsWord w = (is_empty w ≡ false) × IsPlain w
