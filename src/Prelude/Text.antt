-- ===== src/Prelude/Text.antt =====
-- Go strings as lists of bytes (of code points where a module says so), and what Go's `strings`
-- does with them.
use Prim.Native.Nat.{ℕ, zero, suc, ◌-◌}
use gno_mcp.Prelude.Lists.{length}
use Prim.Native.Char.{code}
use Prim.Native.String.{String}
use mathlib.Core.Path.{◌≡◌, refl}
use mathlib.Core.Logic.{◌↔◌, ◌≢◌}
use mathlib.Core.Bool.{Bool, true, false, ◌&&◌, ◌||◌}
use mathlib.Core.List.{List, [], ◌∷◌, ◌++◌}
use native.Mathlib.Omega.{arith}
use gno_mcp.Prelude.Tests.{◌==◌, leb, ltb, if◌then◌else◌}

abbrev pub Bytes : Type 0
Bytes = List ℕ

-- The code points of a literal: its bytes, where it is ASCII.
abbrev pub codes : String → Bytes
codes String.[] = []
codes (String.◌∷◌ c s) = code c ∷ codes s

-- `a == b` on strings.
unfoldable pub eqb : Bytes → Bytes → Bool
eqb [] [] = true
eqb [] (y ∷ ys) = false
eqb (x ∷ xs) [] = false
eqb (x ∷ xs) (y ∷ ys) = x == y && eqb xs ys

pub eqb→eq : (a b : Bytes) → eqb a b ≡ true → a ≡ b
unfolding eqb
eqb→eq [] [] h = refl
eqb→eq [] (y ∷ ys) h = ground arith
eqb→eq (x ∷ xs) [] h = ground arith
eqb→eq (x ∷ xs) (y ∷ ys) h = ground (arith, eqb→eq xs ys)

pub eqb_refl : (a : Bytes) → eqb a a ≡ true
unfolding eqb
eqb_refl [] = refl
eqb_refl (x ∷ xs) = ground (arith, eqb_refl xs)

pub eqb_iff : (a b : Bytes) → (eqb a b ≡ true) ↔ (a ≡ b)
eqb_iff a b = (eqb→eq a b, λ e. rw e (eqb_refl b))

-- `s == ""`
abbrev pub is_empty : Bytes → Bool
is_empty [] = true
is_empty (x ∷ xs) = false

pub is_empty-append : (xs ys : Bytes) (c : ℕ) → is_empty (xs ++ (c ∷ ys)) ≡ false
is_empty-append [] ys c = refl
is_empty-append (x ∷ xs) ys c = refl

-- `strings.HasPrefix(s, p)`
unfoldable pub has_prefix : Bytes → Bytes → Bool
has_prefix s [] = true
has_prefix [] (y ∷ ys) = false
has_prefix (x ∷ xs) (y ∷ ys) = x == y && has_prefix xs ys

pub has_prefix-append : (p rest : Bytes) → has_prefix (p ++ rest) p ≡ true
unfolding has_prefix
has_prefix-append [] rest = refl
has_prefix-append (x ∷ p) rest = ground (arith, has_prefix-append p rest)

-- A text with the prefix `p` is `p` with some rest behind it.
pub has_prefix_split : (s p : Bytes) → has_prefix s p ≡ true → (rest : Bytes) × (s ≡ p ++ rest)
unfolding has_prefix
has_prefix_split s [] h = (s, refl)
has_prefix_split [] (y ∷ ys) h = absurd (ground arith)
has_prefix_split (x ∷ xs) (y ∷ ys) h =
    let (rest, e) = has_prefix_split xs ys (ground arith) in (rest, ground arith)

-- `strings.Split(s, sep)` for a separator of one character.
unfoldable pub split_on : ℕ → Bytes → List Bytes
split_on sep [] = [] ∷ []
split_on sep (c ∷ s) =
    let rest = split_on sep s in
    if c == sep
    then [] ∷ rest
    else elim rest [ [] ↦ (c ∷ []) ∷ [] | part ∷ parts ↦ (c ∷ part) ∷ parts ]

pub split_on-ne-nil : (sep : ℕ) (s : Bytes) → split_on sep s ≢ []
unfolding split_on
split_on-ne-nil sep [] = λ e. cc
split_on-ne-nil sep (c ∷ s) = ground arith

-- Text before a separator and text behind it are split apart.
pub split_on-append :
    (sep : ℕ) (s rest : Bytes)
    → split_on sep (s ++ (sep ∷ rest)) ≡ split_on sep s ++ split_on sep rest
unfolding split_on
split_on-append sep [] rest = ground arith
split_on-append sep (c ∷ s) rest = ground (arith, split_on-append sep s rest, split_on-ne-nil sep s)

-- unicode.IsSpace, on the bytes of a rune: U+0009 to U+000D and U+0020 in one byte,
abbrev is_space_1 : ℕ → Bool
is_space_1 a = (leb 9 a && leb a 13) || a == 32

-- U+0085 and U+00A0 in two,
abbrev is_space_2 : ℕ → ℕ → Bool
is_space_2 a b = a == 0xc2 && (b == 0x85 || b == 0xa0)

-- and U+1680, U+2000 to U+200A, U+2028, U+2029, U+202F, U+205F and U+3000 in three.
abbrev is_space_3 : ℕ → ℕ → ℕ → Bool
is_space_3 a b c =
    (a == 0xe1 && b == 0x9a && c == 0x80)
    || (a == 0xe2
        && b == 0x80
        && ((leb 0x80 c && leb c 0x8a) || c == 0xa8 || c == 0xa9 || c == 0xaf))
    || (a == 0xe2 && b == 0x81 && c == 0x9f)
    || (a == 0xe3 && b == 0x80 && c == 0x80)

-- the number of bytes of the space that a text begins with, 0 where it begins with none
unfoldable pub space_width : Bytes → ℕ
space_width [] = 0
space_width (a ∷ []) = if is_space_1 a then 1 else 0
space_width (a ∷ b ∷ []) = if is_space_1 a then 1 else if is_space_2 a b then 2 else 0
space_width (a ∷ b ∷ c ∷ s) =
    if is_space_1 a then 1 else if is_space_2 a b then 2 else if is_space_3 a b c then 3 else 0

-- the text behind `skip` bytes and the spaces that follow
unfoldable pub trim_left : ℕ → Bytes → Bytes
unfolding space_width
trim_left skip [] = []
trim_left (suc skip) (c ∷ s) = trim_left skip s
trim_left zero (c ∷ s) =
    let rest = trim_left (space_width (c ∷ s) - 1) s in
    if space_width (c ∷ s) == 0 then c ∷ s else rest

unfoldable pub trim_right : Bytes → Bytes
unfolding space_width
trim_right [] = []
trim_right (c ∷ s) =
    let rest = c ∷ trim_right s in if space_width rest == length rest then [] else rest

-- `strings.TrimSpace(s)`
unfoldable pub trim_space : Bytes → Bytes
unfolding trim_left trim_right space_width
trim_space s = trim_right (trim_left 0 s)

-- `strings.HasSuffix(s, p)`
unfoldable pub has_suffix : Bytes → Bytes → Bool
unfolding eqb
has_suffix [] p = eqb [] p
has_suffix (c ∷ s) p = eqb (c ∷ s) p || has_suffix s p

pub has_suffix-append : (s p : Bytes) → has_suffix (s ++ p) p ≡ true
unfolding has_suffix eqb
has_suffix-append [] [] = refl
has_suffix-append [] (x ∷ p) = ground (arith, eqb_iff p p)
has_suffix-append (c ∷ s) p = ground (arith, has_suffix-append s p)

-- `a < b` on strings
unfoldable pub less : Bytes → Bytes → Bool
less [] [] = false
less [] (y ∷ ys) = true
less (x ∷ xs) [] = false
less (x ∷ xs) (y ∷ ys) = ltb x y || (x == y && less xs ys)
