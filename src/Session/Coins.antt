-- ===== src/Session/Coins.antt =====
-- internal/session/scope.go: parseCoins and clampCoin, on texts such as "1000000ugnot".
use gno_mcp.Prelude.{
  ℕ, suc, ◌≤◌, ◌≡◌, refl, sym, inl, inr, Bool-cases, Bytes, eqb, eqb→eq, is_empty, is_empty-append,
  Bool, true, false, not, ◌||◌, Option, none, some, ◌∷◌, ◌++◌, arith, if◌then◌else◌, ltb, is_digit,
  prefix_of, rest_of, parse_int, format_int, format_int-all_chars, format_int-is_empty,
  value_from-format_int, prefix_of-append, rest_of-append,
}
use gno_mcp.Prelude.Int.{ℤ, pos, negsuc, max_int64}

-- parseCoins: the magnitude and the denomination. `s[:split]` is the longest prefix of digits.
unfoldable pub parse_coins : Bytes → Option (ℕ × Bytes)
unfolding prefix_of rest_of
parse_coins s =
    if is_empty s || is_empty (prefix_of is_digit s) || is_empty (rest_of is_digit s)
    then none
    else elim (parse_int max_int64 (prefix_of is_digit s)) [
      | none ↦ none
      | some mag ↦ some (mag, rest_of is_digit s)
    ]

-- clampCoin, behind its two parses: the smaller of the two, and whether that is the cap (`ceiling`)
abbrev pub clamp_parsed :
    Bytes → Bytes → Option (ℕ × Bytes) → Option (ℕ × Bytes) → Option (Bytes × Bool)
clamp_parsed a ceiling none c = none
clamp_parsed a ceiling (some x) none = none
clamp_parsed a ceiling (some (a_mag, a_denom)) (some (c_mag, c_denom)) =
    if not (eqb a_denom c_denom)
    then none
    else if ltb c_mag a_mag
    then some (ceiling, true)
    else some (a, false)

-- clampCoin
unfoldable pub clamp_coin : Bytes → Bytes → Option (Bytes × Bool)
unfolding parse_coins
clamp_coin a ceiling = clamp_parsed a ceiling (parse_coins a) (parse_coins ceiling)

-- `fmt.Sprintf("%d", n)`, strconv.FormatInt(n, 10)
abbrev pub format_int64 : ℤ → Bytes
format_int64 (pos n) = format_int n
format_int64 (negsuc n) = b'-' ∷ format_int (suc n)

-- A coin that is printed parses back.
pub parse_coins-format :
    (n c : ℕ) (denom : Bytes)
    → n ≤ max_int64
    → is_digit c ≡ false
    → parse_coins (format_int n ++ (c ∷ denom)) ≡ some (n, c ∷ denom)
unfolding parse_coins parse_int
parse_coins-format n c denom fits letter =
    let digits = format_int-all_chars n in
    ground (
      arith,
      prefix_of-append is_digit (format_int n) c denom digits letter,
      rest_of-append is_digit (format_int n) c denom digits letter,
      format_int-is_empty n,
      is_empty-append (format_int n) denom c,
      value_from-format_int n,
    )

clamp_parsed-le :
    (a ceiling r : Bytes) (did : Bool) (parsed : Option (ℕ × Bytes)) (c : ℕ) (denom : Bytes)
    → parse_coins a ≡ parsed
    → parse_coins ceiling ≡ some (c, denom)
    → clamp_parsed a ceiling parsed (some (c, denom)) ≡ some (r, did)
    → (mag : ℕ) × (parse_coins r ≡ some (mag, denom)) × (mag ≤ c)
clamp_parsed-le a ceiling r did none c denom ea e h = absurd (ground arith)
clamp_parsed-le a ceiling r did (some (m, d)) c denom ea e h =
    let same : d ≡ denom = eqb→eq d denom (ground arith) in
    elim (Bool-cases (ltb c m)) [
      | inl lt ↦ let er : ceiling ≡ r = ground arith in (c, rw (sym er) e, omega arith)
      | inr ge ↦ let er : a ≡ r = ground arith in (m, rw (sym er, ea, same) refl, ground arith)
    ]

-- What clamping gives is at most the cap, in its denomination.
pub clamp_coin-le :
    (a ceiling : Bytes) (r : Bytes) (did : Bool) (c : ℕ) (denom : Bytes)
    → parse_coins ceiling ≡ some (c, denom)
    → clamp_coin a ceiling ≡ some (r, did)
    → (mag : ℕ) × (parse_coins r ≡ some (mag, denom)) × (mag ≤ c)
unfolding clamp_coin
clamp_coin-le a ceiling r did c denom e h =
    clamp_parsed-le a ceiling r did (parse_coins a) c denom refl e (rw e at h)

clamp_parsed-kept :
    (a ceiling r : Bytes) (x y : Option (ℕ × Bytes))
    → clamp_parsed a ceiling x y ≡ some (r, false)
    → r ≡ a
clamp_parsed-kept a ceiling r none y h = absurd (ground arith)
clamp_parsed-kept a ceiling r (some x) none h = absurd (ground arith)
clamp_parsed-kept a ceiling r (some (m, d)) (some (c, e)) h = ground arith

-- Where nothing was clamped, the amount is the one that was asked for.
pub clamp_coin-kept : (a ceiling r : Bytes) → clamp_coin a ceiling ≡ some (r, false) → r ≡ a
unfolding clamp_coin
clamp_coin-kept a ceiling r h =
    clamp_parsed-kept a ceiling r (parse_coins a) (parse_coins ceiling) h
