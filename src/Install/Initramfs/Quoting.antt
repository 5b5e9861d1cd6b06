-- ===== src/Install/Initramfs/Quoting.antt =====
-- On internal/install/initramfs.go: what a POSIX shell reads from the text of shellQuote.
use mikrotik_chr_script.Common.{
  ℕ, ◌≡◌, refl, Bool, false, ◌&&◌, ◌||◌, ◌==◌, leb, if◌then◌else◌, [], ◌∷◌, ◌++◌, Option, none,
  some, Bool-cases, inl, inr, arith,
}
use mikrotik_chr_script.Common.Bytes.{Bytes}
use mikrotik_chr_script.Install.Initramfs.{quoted, shell_quote}

pub data Mode : Type 0 where
  unquoted in_single in_double : Mode

-- A byte that stands for itself outside of quotes
abbrev pub is_word_byte : ℕ → Bool
is_word_byte c =
    (leb 48 c && leb c 57)
    || (leb 65 c && leb c 90)
    || (leb 97 c && leb c 122)
    || c == 45
    || c == 46
    || c == 47
    || c == 95

-- The dollar sign, the backquote and the backslash keep their meaning between double quotes.
abbrev pub is_expanded : ℕ → Bool
is_expanded c = c == 36 || c == 96 || c == 92

-- What one byte adds to the word, and the mode behind it
abbrev pub shell_step : Mode → ℕ → Option (Mode × Bytes)
shell_step unquoted c =
    if c == 39
    then some (in_single, [])
    else if c == 34
    then some (in_double, [])
    else if is_word_byte c
    then some (unquoted, c ∷ [])
    else none
shell_step in_single c = if c == 39 then some (unquoted, []) else some (in_single, c ∷ [])
shell_step in_double c =
    if c == 34
    then some (unquoted, [])
    else if is_expanded c
    then none
    else some (in_double, c ∷ [])

abbrev pub added : Bytes → Option Bytes → Option Bytes
added s none = none
added s (some r) = some (s ++ r)

abbrev pub ends_word : Mode → Option Bytes
ends_word unquoted = some []
ends_word in_single = none
ends_word in_double = none

abbrev pub continued : Option (Mode × Bytes) → (Mode → Option Bytes) → Option Bytes
continued none rest = none
continued (some (next, text)) rest = added text (rest next)

-- The one word that the whole text is, after the removal of the quotes (POSIX.1, 2.2); `none` where
-- the text is no word or where the shell would expand something.
unfoldable pub shell_word : Mode → Bytes → Option Bytes
shell_word m [] = ends_word m
shell_word m (c ∷ s) = continued (shell_step m c) (λ next. shell_word next s)

-- Within single quotes, a byte that is no quote is one of the word.
in_single-other :
    (c : ℕ) (s rest : Bytes)
    → (c == 39) ≡ false
    → shell_word in_single rest ≡ some s
    → shell_word in_single (c ∷ rest) ≡ some (c ∷ s)
unfolding shell_word
in_single-other c s rest other same = rw (other, same) refl

shell_word-quoted : (value : Bytes) → shell_word in_single (quoted value ++ 39 ∷ []) ≡ some value
unfolding shell_word
shell_word-quoted [] = refl
shell_word-quoted (c ∷ s) = elim (Bool-cases (c == 39)) [
  | inl quote ↦ rw (quote, shell_word-quoted s) (ground arith)
  | inr other ↦ rw other (in_single-other c s _ other (shell_word-quoted s))
]

-- The shell reads the text that `shell_quote` makes of any bytes as one word, and the word is these
-- bytes: nothing in them is expanded, ends the word or opens another quote.
pub shell_word-shell_quote : (value : Bytes) → shell_word unquoted (shell_quote value) ≡ some value
unfolding shell_word shell_quote
shell_word-shell_quote value = rw (shell_word-quoted value) refl
