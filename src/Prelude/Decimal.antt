-- ===== src/Prelude/Decimal.antt =====
-- Decimal numbers in texts: `strconv.ParseInt` and `strconv.FormatInt` on what is not negative.
use Prim.Native.Nat.{ℕ, zero, suc, ◌+◌, ◌-◌, ◌*◌, ◌/◌, ◌%◌, ◌^◌, ◌<◌}
use mathlib.Core.Path.{◌≡◌, refl}
use mathlib.Core.Bool.{Bool, true, false, ◌&&◌}
use mathlib.Core.Option.{Option, none, some}
use mathlib.Core.List.{[], ◌∷◌, ◌++◌}
use native.Mathlib.Omega.{arith}
use gno_mcp.Prelude.Tests.{ltb, leb, if◌then◌else◌}
use gno_mcp.Prelude.Text.{Bytes, is_empty}

abbrev pub is_digit : ℕ → Bool
is_digit c = leb b'0' c && leb c b'9'

-- every character of a text passes a test
unfoldable pub all_chars : (ℕ → Bool) → Bytes → Bool
all_chars p [] = true
all_chars p (c ∷ s) = p c && all_chars p s

-- the longest prefix of characters that pass a test, and what stands behind it
unfoldable pub prefix_of : (ℕ → Bool) → Bytes → Bytes
prefix_of p [] = []
prefix_of p (c ∷ s) = let rest = prefix_of p s in if p c then c ∷ rest else []

unfoldable pub rest_of : (ℕ → Bool) → Bytes → Bytes
rest_of p [] = []
rest_of p (c ∷ s) = let rest = rest_of p s in if p c then rest else c ∷ s

unfoldable pub value_from : ℕ → Bytes → ℕ
value_from n [] = n
value_from n (c ∷ s) = value_from (n * 10 + (c - b'0')) s

-- `strconv.ParseInt(s, 10, bits)` on digits only: the value, or that it is above the largest
unfoldable pub parse_int : ℕ → Bytes → Option ℕ
parse_int largest s = if ltb largest (value_from 0 s) then none else some (value_from 0 s)

-- The last digits of a number, `k` at most.
unfoldable pub digits : ℕ → ℕ → Bytes
digits zero n = []
digits (suc k) n =
    let rest = digits k (n / 10) in
    if ltb n 10 then (b'0' + n) ∷ [] else rest ++ ((b'0' + n % 10) ∷ [])

-- `strconv.FormatInt(n, 10)`: an int64 has 19 digits at most.
abbrev pub format_int : ℕ → Bytes
format_int n = digits 20 n

value_from-append :
    (n c : ℕ) (s : Bytes) → value_from n (s ++ (c ∷ [])) ≡ value_from n s * 10 + (c - b'0')
unfolding value_from
value_from-append n c [] = refl
value_from-append n c (d ∷ s) = value_from-append (n * 10 + (d - b'0')) c s

value_from-digits : (k n : ℕ) → n < 10 ^ k → value_from 0 (digits k n) ≡ n
unfolding digits value_from
value_from-digits zero n h = ground arith
value_from-digits (suc k) n h =
    ground
      (arith, value_from-append 0 (b'0' + n % 10) (digits k (n / 10)), value_from-digits k (n / 10))

pub value_from-format_int : (n : ℕ) → n < 10 ^ 20 → value_from 0 (format_int n) ≡ n
value_from-format_int n h = value_from-digits 20 n h

pub all_chars-append :
    (p : ℕ → Bool) (s t : Bytes) → all_chars p (s ++ t) ≡ all_chars p s && all_chars p t
unfolding all_chars
all_chars-append p [] t = refl
all_chars-append p (c ∷ s) t = ground (arith, all_chars-append p s t)

digits-all_chars : (k n : ℕ) → all_chars is_digit (digits k n) ≡ true
unfolding digits all_chars
digits-all_chars zero n = refl
digits-all_chars (suc k) n = ground (
  arith,
  all_chars-append is_digit (digits k (n / 10)) ((b'0' + n % 10) ∷ []),
  digits-all_chars k (n / 10),
)

pub format_int-all_chars : (n : ℕ) → all_chars is_digit (format_int n) ≡ true
format_int-all_chars n = digits-all_chars 20 n

snoc-is_empty : (s : Bytes) (c : ℕ) → is_empty (s ++ (c ∷ [])) ≡ false
snoc-is_empty [] c = refl
snoc-is_empty (d ∷ s) c = refl

pub format_int-is_empty : (n : ℕ) → is_empty (format_int n) ≡ false
unfolding digits
format_int-is_empty n = ground (arith, snoc-is_empty (digits 19 (n / 10)) (b'0' + n % 10))

-- A prefix of passing characters, and behind it a text that begins with none.
module _ (p : ℕ → Bool) where
  pub prefix_of-append :
      (s : Bytes) (c : ℕ) (t : Bytes)
      → all_chars p s ≡ true
      → p c ≡ false
      → prefix_of p (s ++ (c ∷ t)) ≡ s
  unfolding prefix_of all_chars
  prefix_of-append [] c t h k = ground arith
  prefix_of-append (d ∷ s) c t h k = ground (arith, prefix_of-append s c t)

  pub rest_of-append :
      (s : Bytes) (c : ℕ) (t : Bytes)
      → all_chars p s ≡ true
      → p c ≡ false
      → rest_of p (s ++ (c ∷ t)) ≡ c ∷ t
  unfolding rest_of all_chars
  rest_of-append [] c t h k = ground arith
  rest_of-append (d ∷ s) c t h k = ground (arith, rest_of-append s c t)

  pub prefix_of-all_chars : (s : Bytes) → all_chars p (prefix_of p s) ≡ true
  unfolding prefix_of all_chars
  prefix_of-all_chars [] = refl
  prefix_of-all_chars (c ∷ s) = ground (arith, prefix_of-all_chars s)

  pub prefix_of-rest_of : (s : Bytes) → prefix_of p s ++ rest_of p s ≡ s
  unfolding prefix_of rest_of
  prefix_of-rest_of [] = refl
  prefix_of-rest_of (c ∷ s) = ground (arith, prefix_of-rest_of s)

-- A weaker test passes as well.
pub all_chars_mono :
    (p q : ℕ → Bool) (s : Bytes)
    → ((c : ℕ) → p c ≡ true → q c ≡ true)
    → all_chars p s ≡ true
    → all_chars q s ≡ true
unfolding all_chars
all_chars_mono p q [] le h = refl
all_chars_mono p q (c ∷ s) le h = ground (arith, le c, all_chars_mono p q s le)
