-- ===== src/Common/Paths.antt =====
-- Paths of package path/filepath and numbers in decimal. `join` takes elements without dot elements and
-- doubled slashes, which filepath.Join would clean away.
use Prim.Native.Nat.{ℕ, zero, suc, ◌+◌, ◌-◌, ◌/◌, ◌%◌}
use mathlib.Core.Bool.{◌&&◌, ◌||◌}
use mathlib.Core.List.{List, [], ◌∷◌, ◌++◌, map}
use mathlib.Core.Option.{Option, none, some}
use mikrotik_chr_script.Common.Tests.{◌==◌, leb, if◌then◌else◌}
use mikrotik_chr_script.Common.Bytes.{Bytes, bytes_eq}
use mikrotik_chr_script.Common.Text.{codes, is_empty, split, has_prefix}

abbrev digits : ℕ → ℕ → Bytes → Bytes
digits zero n behind = behind
digits (suc fuel) n behind =
    let more = digits fuel (n / 10) ((48 + n % 10) ∷ behind) in
    if n / 10 == 0 then (48 + n % 10) ∷ behind else more

-- `strconv.Itoa` of a number that is not negative; 20 digits hold every 64-bit number.
abbrev pub itoa : ℕ → Bytes
itoa n = digits 20 n []

-- `strings.ToUpper`
abbrev pub to_upper : Bytes → Bytes
to_upper = map (λ c. if leb 97 c && leb c 122 then c - 32 else c)

-- `strings.Cut` at one byte: what stands before it, and behind it where it occurs.
abbrev pub cut : ℕ → Bytes → Bytes × Option Bytes
cut b [] = ([], none)
cut b (c ∷ s) = let later = cut b s in if c == b then ([], some s) else (c ∷ later.0, later.1)

abbrev drop_last_slashes : Bytes → Bytes
drop_last_slashes [] = []
drop_last_slashes (c ∷ s) =
    let rest = drop_last_slashes s in
    elim rest [ [] ↦ if c == b'/' then [] else c ∷ [] | d ∷ r ↦ c ∷ d ∷ r ]

abbrev last_piece : List Bytes → Bytes
last_piece [] = []
last_piece (p ∷ []) = p
last_piece (p ∷ q ∷ r) = last_piece (q ∷ r)

-- `filepath.Base`
abbrev pub base : Bytes → Bytes
base path =
    if is_empty path
    then codes "."
    else if is_empty (drop_last_slashes path)
    then codes "/"
    else last_piece (split b'/' (drop_last_slashes path))

abbrev drop_last_piece : List Bytes → Bytes
drop_last_piece [] = []
drop_last_piece (p ∷ []) = []
drop_last_piece (p ∷ q ∷ []) = p
drop_last_piece (p ∷ q ∷ r ∷ rest) = p ++ b'/' ∷ drop_last_piece (q ∷ r ∷ rest)

-- `filepath.Dir` of an absolute path
abbrev pub dir : Bytes → Bytes
dir path =
    let front = drop_last_piece (split b'/' path) in if is_empty front then codes "/" else front

-- `filepath.Join(root, path)`
abbrev pub join : Bytes → Bytes → Bytes
join root path = drop_last_slashes root ++ b'/' ∷ path

abbrev drop_first : List Bytes → List Bytes
drop_first [] = []
drop_first (p ∷ ps) = ps

-- The pieces of `filepath.Clean` of an absolute path, in reverse, on top of those so far
abbrev clean_onto : List Bytes → List Bytes → List Bytes
clean_onto stack [] = stack
clean_onto stack (p ∷ ps) =
    let skipped = clean_onto stack ps in
    let popped = clean_onto (drop_first stack) ps in
    let pushed = clean_onto (p ∷ stack) ps in
    if is_empty p || bytes_eq p (codes ".")
    then skipped
    else if bytes_eq p (codes "..")
    then popped
    else pushed

abbrev reverse_onto : List Bytes → List Bytes → List Bytes
reverse_onto [] ys = ys
reverse_onto (x ∷ xs) ys = reverse_onto xs (x ∷ ys)

abbrev pub clean : Bytes → List Bytes
clean path = reverse_onto (clean_onto [] (split b'/' path)) []

abbrev pub pieces_below : List Bytes → List Bytes → Option (List Bytes)
pieces_below [] ps = some ps
pieces_below (m ∷ ms) [] = none
pieces_below (m ∷ ms) (p ∷ ps) =
    let rest = pieces_below ms ps in if bytes_eq m p then rest else none

abbrev pub join_pieces : List Bytes → Bytes
join_pieces [] = []
join_pieces (p ∷ []) = p
join_pieces (p ∷ q ∷ ps) = p ++ b'/' ∷ join_pieces (q ∷ ps)

-- `filepath.Rel(root, path)` of absolute paths, for a path that stands at the root (`[]` for the dot)
-- or below it; elsewhere `none`, where Rel has an error or a text that begins with two dots.
abbrev pub relative : Bytes → Bytes → Option Bytes
relative root path =
    if has_prefix (codes "/") root && has_prefix (codes "/") path
    then elim (pieces_below (clean root) (clean path)) [
      | none ↦ none
      | some ps ↦ some (join_pieces ps)
    ]
    else none
