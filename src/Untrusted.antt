-- ===== src/Untrusted.antt =====
-- internal/untrusted/untrusted.go and internal/budget/budget.go: the envelope around what comes
-- from a chain. A text is its UTF-8 bytes; Go's `%q` is the argument `quote`.
pub mod Follows
pub mod Envelope
pub mod Budget
pub mod Forgery
mod Tests
use gno_mcp.Prelude.{
  ℕ, Bytes, codes, Bool, true, false, ◌&&◌, ◌||◌, Option, none, some, List, [], ◌∷◌, ◌++◌,
  if◌then◌else◌, ◌==◌, ◌-◌,
}

-- `\s`: tab, line feed, form feed, carriage return, space
abbrev pub is_blank : ℕ → Bool
is_blank c = c == 9 || c == 10 || c == 12 || c == 13 || c == 32

-- `\s*`
unfoldable pub skip_blanks : Bytes → Bytes
skip_blanks [] = []
skip_blanks (c ∷ s) = let rest = skip_blanks s in if is_blank c then rest else c ∷ s

-- `/?`
unfoldable pub skip_slash : Bytes → Bytes
skip_slash [] = []
skip_slash (c ∷ s) = if c == b'/' then s else c ∷ s

-- U+017F, the long s, in UTF-8: `(?i)` folds it to `s`.
unfoldable pub long_s : ℕ → Bytes → Option Bytes
long_s c [] = none
long_s c (d ∷ s) = if c == 0xc5 && d == 0xbf then some s else none

-- one character of the pattern under `(?i)`: the rest of the text behind it
unfoldable pub fold_char : ℕ → Bytes → Option Bytes
unfolding long_s
fold_char p [] = none
fold_char p (c ∷ s) =
    if p == b'_'
    then (if c == b'_' then some s else none)
    else if c == p || c == p - 32
    then some s
    else if p == b's'
    then long_s c s
    else none

abbrev pub or_false {ℓ} : {A : Type ℓ} → (A → Bool) → Option A → Bool
or_false f none = false
or_false f (some a) = f a

-- the literal part of the pattern
unfoldable pub begins_folded : Bytes → Bytes → Bool
begins_folded [] s = true
begins_folded (p ∷ ps) s = or_false (begins_folded ps) (fold_char p s)

abbrev pub tag_name : Bytes
tag_name = codes "untrusted_content"

-- `\s*/?\s*untrusted_content`: what envTagRE wants behind a `<`
unfoldable pub tag_behind : Bytes → Bool
unfolding skip_blanks skip_slash begins_folded
tag_behind s = begins_folded tag_name (skip_blanks (skip_slash (skip_blanks s)))

-- an envelope tag begins here
abbrev pub is_tag : ℕ → Bytes → Bool
is_tag c s = c == b'<' && tag_behind s

-- Neutralize: `&lt;` for the `<` of every match of envTagRE. No match holds a second `<`, so that
-- going on behind its `<` instead of behind its end finds the same matches.
unfoldable pub neutralize : Bytes → Bytes
unfolding tag_behind
neutralize [] = []
neutralize (c ∷ s) =
    let rest = neutralize s in if is_tag c s then codes "&lt;" ++ rest else c ∷ rest

abbrev pub close_tag : Bytes
close_tag = codes "</untrusted_content>"

-- Wrap: its head line, and what follows
abbrev pub head_line : (Bytes → Bytes) → Bytes → Bytes → Bytes
head_line quote kind source =
    codes "<untrusted_content kind=" ++ quote kind ++ codes " source=" ++ quote source ++ codes ">"

abbrev pub tail_of : Bytes → Bytes
tail_of body = neutralize body ++ (b'\n' ∷ close_tag)

unfoldable pub wrap : (Bytes → Bytes) → Bytes → Bytes → Bytes → Bytes
wrap quote body kind source = head_line quote kind source ++ (b'\n' ∷ tail_of body)
