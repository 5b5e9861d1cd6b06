-- ===== src/Common/Sort.antt =====
-- sort.Strings of package sort, as an insertion sort: two texts that are equal cannot be told apart.
use Prim.Native.Nat.{◌+◌}
use mikrotik_chr_script.Common.Lists.{length, In}
use mathlib.Core.Path.{◌≡◌, refl, sym, subst, ap, ap₂, ◌∙◌}
use mathlib.Core.Bool.{Bool, true, false}
use mathlib.Core.Logic.{inl, inr, ◌⊎◌, ∥∥₁_elim, ◌↔◌}
use mathlib.Core.List.{List, [], ◌∷◌, Perm, Permᴰ}
use mathlib.Core.List.Perm
use native.Mathlib.Omega.{arith}
use mikrotik_chr_script.Common.Tests.{if◌then◌else◌, Bool-cases}
use mikrotik_chr_script.Common.Bytes.{Bytes, bytes_eq, bytes_eq→eq, bytes_eq_self}
use mikrotik_chr_script.Common.Text.{text_le}

abbrev insert_text : Bytes → List Bytes → List Bytes
insert_text x [] = x ∷ []
insert_text x (y ∷ ys) =
    let later = insert_text x ys in if text_le x y then x ∷ y ∷ ys else y ∷ later

-- `sort.Strings`
abbrev pub sort_strings : List Bytes → List Bytes
sort_strings [] = []
sort_strings (x ∷ xs) = insert_text x (sort_strings xs)

abbrev pub texts_eq : List Bytes → List Bytes → Bool
texts_eq [] [] = true
texts_eq [] (y ∷ ys) = false
texts_eq (x ∷ xs) [] = false
texts_eq (x ∷ xs) (y ∷ ys) = if bytes_eq x y then texts_eq xs ys else false

pub texts_eq→eq : (a b : List Bytes) → texts_eq a b ≡ true → a ≡ b
texts_eq→eq [] [] h = refl
texts_eq→eq [] (y ∷ ys) h = cc
texts_eq→eq (x ∷ xs) [] h = cc
texts_eq→eq (x ∷ xs) (y ∷ ys) h = ground (arith, bytes_eq→eq x y, texts_eq→eq xs ys)

pub texts_eq_self : (a : List Bytes) → texts_eq a a ≡ true
texts_eq_self [] = refl
texts_eq_self (x ∷ xs) = ground (arith, bytes_eq_self x, texts_eq_self xs)

text_le_antisym : (a b : Bytes) → text_le a b ≡ true → text_le b a ≡ true → a ≡ b
text_le_antisym [] [] h k = refl
text_le_antisym [] (y ∷ ys) h k = cc
text_le_antisym (x ∷ xs) [] h k = cc
text_le_antisym (x ∷ xs) (y ∷ ys) h k = ground (arith, text_le_antisym xs ys)

text_le_total : (a b : Bytes) → text_le a b ≡ false → text_le b a ≡ true
text_le_total [] b h = cc
text_le_total (x ∷ xs) [] h = refl
text_le_total (x ∷ xs) (y ∷ ys) h = ground (arith, text_le_total xs ys)

text_le_trans : (a b c : Bytes) → text_le a b ≡ true → text_le b c ≡ true → text_le a c ≡ true
text_le_trans [] b c h k = refl
text_le_trans (x ∷ xs) [] c h k = cc
text_le_trans (x ∷ xs) (y ∷ ys) [] h k = cc
text_le_trans (x ∷ xs) (y ∷ ys) (z ∷ zs) h k = ground (arith, text_le_trans xs ys zs)

-- Two texts can be put into a list in either order.
insert_text_comm :
    (x y : Bytes) (l : List Bytes)
    → insert_text x (insert_text y l) ≡ insert_text y (insert_text x l)
insert_text_comm x y [] = ground (arith, text_le_antisym x y, text_le_total x y)
insert_text_comm x y (z ∷ zs) = ground (
  arith,
  text_le_antisym x y,
  text_le_total x y,
  text_le_trans x y z,
  text_le_trans y x z,
  text_le_total x z,
  text_le_total y z,
  insert_text_comm x y zs,
)

sort_strings_permᴰ : (a b : List Bytes) → Permᴰ a b → sort_strings a ≡ sort_strings b
sort_strings_permᴰ a b Permᴰ.nil = refl
sort_strings_permᴰ a b (Permᴰ.cons {a = x} {l₁ = xs} {l₂ = ys} e p) =
    ap₂ insert_text e (sort_strings_permᴰ xs ys p)
sort_strings_permᴰ a b (Permᴰ.swap {a' = x} {b' = y} {l = l} e e') =
    rw (e, e') (insert_text_comm y x (sort_strings l))
sort_strings_permᴰ a b (Permᴰ.trans {l₁ = l₁} {l₂ = l₂} {l₃ = l₃} p q) =
    sort_strings_permᴰ l₁ l₂ p ∙ sort_strings_permᴰ l₂ l₃ q

insert_text_perm : (x : Bytes) (l : List Bytes) → Perm (insert_text x l) (x ∷ l)
insert_text_perm x [] = Perm.refl (x ∷ [])
insert_text_perm x (y ∷ ys) = elim (Bool-cases (text_le x y)) [
  | inl h ↦ rw h (Perm.refl (x ∷ y ∷ ys))
  | inr h ↦ rw h (Perm.trans (Perm.cons y (insert_text_perm x ys)) (Perm.swap x y ys))
]

pub sort_strings_perm : (l : List Bytes) → Perm (sort_strings l) l
sort_strings_perm [] = Perm.refl []
sort_strings_perm (x ∷ xs) =
    Perm.trans (insert_text_perm x (sort_strings xs)) (Perm.cons x (sort_strings_perm xs))

pub sort_strings-Perm : (a b : List Bytes) → Perm a b → sort_strings a ≡ sort_strings b
sort_strings-Perm a b p = ∥∥₁_elim p (hlevel) (sort_strings_permᴰ a b)

-- Two sorted copies are compared: they are equal exactly if one list is a rearrangement of the other.
pub texts_eq-sort_strings :
    (a b : List Bytes) → (texts_eq (sort_strings a) (sort_strings b) ≡ true) ↔ Perm a b
texts_eq-sort_strings a b = (
  (λ h. Perm.trans (Perm.symm (sort_strings_perm a)) (
      subst (λ s. Perm s b) (sym (texts_eq→eq (sort_strings a) (sort_strings b) h))
        (sort_strings_perm b))),
  (λ p. rw (sort_strings-Perm a b p) (texts_eq_self (sort_strings b))),
)

length-insert_text : (x : Bytes) (l : List Bytes) → length (insert_text x l) ≡ length l + 1
length-insert_text x [] = refl
length-insert_text x (y ∷ ys) = ground (arith, length-insert_text x ys)

length-sort_strings : (l : List Bytes) → length (sort_strings l) ≡ length l
length-sort_strings [] = refl
length-sort_strings (x ∷ xs) =
    omega (arith, length-insert_text x (sort_strings xs), length-sort_strings xs)

pub length-Perm : (a b : List Bytes) → Perm a b → length a ≡ length b
length-Perm a b p =
    omega (arith, length-sort_strings a, length-sort_strings b, ap length (sort_strings-Perm a b p))

In-insert_text : (a x : Bytes) (l : List Bytes) → In a (insert_text x l) ↔ ((a ≡ x) ⊎ In a l)
In-insert_text a x [] = (λ m. m, λ m. m)
In-insert_text a x (y ∷ l) = ground (arith, In-insert_text a x l, Bool-cases (text_le x y))

pub In-sort_strings : (a : Bytes) (l : List Bytes) → In a (sort_strings l) ↔ In a l
In-sort_strings a [] = (λ m. m, λ m. m)
In-sort_strings a (x ∷ l) = ground (arith, In-insert_text a x (sort_strings l), In-sort_strings a l)
