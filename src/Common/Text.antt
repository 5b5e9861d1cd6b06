-- ===== src/Common/Text.antt =====
-- Texts as the bytes that they hold, and the functions of package strings that the program calls.
-- The texts are ASCII: the case and the white space of other code points are not modelled.
use Prim.Native.Char.{code}
use Prim.Native.String.{String}
use Prim.Native.Nat.{ℕ, ◌+◌}
use mathlib.Core.Path.{◌≡◌, refl, ap}
use mathlib.Core.Logic.{◌≢◌, ◌⊎◌, inl, inr}
use native.Mathlib.Omega.{arith}
use mathlib.Core.Bool.{Bool, true, false, not, ◌&&◌, ◌||◌}
use mathlib.Core.List.{List, [], ◌∷◌, ◌++◌, map}
use mathlib.Core.Option.{Option, none, some}
use mikrotik_chr_script.Common.Tests.{◌==◌, leb, if◌then◌else◌}
use mikrotik_chr_script.Common.Lists.{any_of}
use mikrotik_chr_script.Common.Bytes.{Bytes, bytes_eq, bytes_eq→eq}

-- The bytes of an ASCII literal.
abbrev pub codes : String → Bytes
codes String.[] = []
codes (String.◌∷◌ c s) = code c ∷ codes s

-- `unicode.IsSpace` on ASCII
abbrev pub is_space : ℕ → Bool
is_space c = c == 32 || (leb 9 c && leb c 13)

abbrev pub to_lower_byte : ℕ → ℕ
to_lower_byte c = if leb 65 c && leb c 90 then c + 32 else c

abbrev pub to_lower : Bytes → Bytes
to_lower = map to_lower_byte

abbrev pub trim_left : Bytes → Bytes
trim_left [] = []
trim_left (c ∷ s) = let rest = trim_left s in if is_space c then rest else c ∷ s

-- Drops the white space at the end: a space goes if nothing but spaces follows it.
abbrev pub trim_right : Bytes → Bytes
trim_right [] = []
trim_right (c ∷ s) =
    let rest = trim_right s in
    elim rest [ [] ↦ if is_space c then [] else c ∷ [] | d ∷ r ↦ c ∷ d ∷ r ]

-- `strings.TrimSpace`
abbrev pub trim_space : Bytes → Bytes
trim_space s = trim_right (trim_left s)

abbrev pub is_empty : Bytes → Bool
is_empty [] = true
is_empty (c ∷ s) = false

-- `strings.EqualFold`
abbrev pub equal_fold : Bytes → Bytes → Bool
equal_fold a b = bytes_eq (to_lower a) (to_lower b)

-- The text behind a prefix, or `none` where the text does not begin with it.
abbrev pub strip_prefix : Bytes → Bytes → Option Bytes
strip_prefix [] s = some s
strip_prefix (p ∷ ps) [] = none
strip_prefix (p ∷ ps) (c ∷ s) = let rest = strip_prefix ps s in if p == c then rest else none

abbrev pub has_prefix : Bytes → Bytes → Bool
has_prefix p s = elim (strip_prefix p s) [ none ↦ false | some r ↦ true ]

-- `strings.TrimPrefix`
abbrev pub trim_prefix : Bytes → Bytes → Bytes
trim_prefix p s = elim (strip_prefix p s) [ none ↦ s | some r ↦ r ]

-- `strings.ReplaceAll` of one byte by nothing
abbrev pub remove_byte : ℕ → Bytes → Bytes
remove_byte b [] = []
remove_byte b (c ∷ s) = let rest = remove_byte b s in if c == b then rest else c ∷ rest

-- `strings.ReplaceAll` of one byte by another
abbrev pub replace_byte : ℕ → ℕ → Bytes → Bytes
replace_byte b d = map (λ c. if c == b then d else c)

-- `strings.Contains` of a one-byte text
abbrev pub contains_byte : ℕ → Bytes → Bool
contains_byte b s = any_of (λ c. c == b) s

-- `strings.Contains`
abbrev pub contains : Bytes → Bytes → Bool
contains sub [] = is_empty sub
contains sub (c ∷ s) = has_prefix sub (c ∷ s) || contains sub s

-- The first word and the rest: the white space in front of the word is dropped already.
abbrev pub fields_from : Bytes → Bytes → List Bytes
fields_from [] word = if is_empty word then [] else word ∷ []
fields_from (c ∷ s) word =
    let closed = fields_from s [] in
    let open_word = fields_from s (word ++ c ∷ []) in
    if is_space c then (if is_empty word then closed else word ∷ closed) else open_word

-- `strings.Fields`
abbrev pub fields : Bytes → List Bytes
fields s = fields_from s []

-- `strings.Split` at one byte
abbrev split_from : ℕ → Bytes → Bytes → List Bytes
split_from b [] piece = piece ∷ []
split_from b (c ∷ s) piece =
    let closed = split_from b s [] in
    let more = split_from b s (piece ++ c ∷ []) in if c == b then piece ∷ closed else more

abbrev pub split : ℕ → Bytes → List Bytes
split b s = split_from b s []

-- The order of `sort.Strings` and of `<` on strings.
abbrev pub text_le : Bytes → Bytes → Bool
text_le [] s = true
text_le (c ∷ r) [] = false
text_le (c ∷ r) (d ∷ s) = if c == d then text_le r s else leb c d

pub is_empty→eq : (s : Bytes) → is_empty s ≡ true → s ≡ []
is_empty→eq [] h = refl
is_empty→eq (c ∷ s) h = cc

pub is_empty→ne : (s : Bytes) → is_empty s ≡ false → s ≢ []
is_empty→ne s h e = absurd (ground (arith, ap is_empty e))

pub empty_or_same :
    (s expected : Bytes)
    → (not (is_empty s) && not (bytes_eq s expected)) ≡ false
    → (s ≡ []) ⊎ (s ≡ expected)
empty_or_same [] expected h = inl refl
empty_or_same (c ∷ s) expected h = inr (bytes_eq→eq (c ∷ s) expected (ground arith))
