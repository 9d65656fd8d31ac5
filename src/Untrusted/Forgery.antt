-- ===== src/Untrusted/Forgery.antt =====
-- Neutralize against the tags themselves, described without the scan that looks for them.
use gno_mcp.Prelude.{
  ◌-◌, ◌≡◌, ◌≢◌, ◌⊎◌, refl, Bytes, Bool, true, false, [], ◌∷◌, ◌++◌, arith, All, none,
}
use gno_mcp.Untrusted.{
  is_blank, skip_blanks, skip_slash, begins_folded, tag_name, tag_behind, neutralize,
}
use gno_mcp.Untrusted.Follows.{fold_char-direct}
use gno_mcp.Untrusted.Envelope.{first_tag, first_tag-none, first_tag-neutralized}

abbrev pub AllBlank : Bytes → Type 0
AllBlank = All (λ c. is_blank c ≡ true)

-- The name of the tag, each letter in either case.
abbrev pub Spells : Bytes → Bytes → Type 0
Spells [] [] = Unit
Spells [] (c ∷ cs) = Path Bool true false
Spells (p ∷ ps) [] = Path Bool true false
Spells (p ∷ ps) (c ∷ cs) = ((c ≡ p) ⊎ ((p ≢ b'_') × (c ≡ p - 32))) × Spells ps cs

abbrev pub slash_if : Bool → Bytes
slash_if true = b'/' ∷ []
slash_if false = []

-- What stands behind the `<` of an opening or a closing tag: white space, perhaps a slash, white
-- space, and the name.
pub record TagText (t : Bytes) : Type 0 where
  pub before : Bytes
  pub closes : Bool
  pub after : Bytes
  pub name : Bytes
  pub rest : Bytes
  pub before_blank : AllBlank before
  pub after_blank : AllBlank after
  pub spelled : Spells tag_name name
  pub is : t ≡ before ++ (slash_if closes ++ (after ++ (name ++ rest)))

skip_blanks-append : (b x : Bytes) → AllBlank b → skip_blanks (b ++ x) ≡ skip_blanks x
unfolding skip_blanks
skip_blanks-append [] x h = refl
skip_blanks-append (c ∷ b) x (e, h) = rw (e, skip_blanks-append b x h) refl

begins_folded-spelled :
    (ps name rest : Bytes) → Spells ps name → begins_folded ps (name ++ rest) ≡ true
unfolding begins_folded
begins_folded-spelled [] name rest h = refl
begins_folded-spelled (p ∷ ps) [] rest h = absurd (ground arith)
begins_folded-spelled (p ∷ ps) (c ∷ cs) rest (same, h) =
    rw (fold_char-direct p c (cs ++ rest) (ground arith)) (begins_folded-spelled ps cs rest h)

name-skip :
    (name rest : Bytes)
    → Spells tag_name name
    → (skip_blanks (name ++ rest) ≡ name ++ rest) × (skip_slash (name ++ rest) ≡ name ++ rest)
unfolding skip_blanks skip_slash
name-skip [] rest h = absurd (ground arith)
name-skip (c ∷ cs) rest (same, h) = (ground arith, ground arith)

tag_behind-plain :
    (b1 b2 name rest : Bytes)
    → AllBlank b1
    → AllBlank b2
    → Spells tag_name name
    → tag_behind (b1 ++ (b2 ++ (name ++ rest))) ≡ true
unfolding tag_behind
tag_behind-plain b1 b2 name rest h1 h2 spelled =
    let (kept, no_slash) = name-skip name rest spelled in
    rw
      (
        skip_blanks-append b1 (b2 ++ (name ++ rest)) h1,
        skip_blanks-append b2 (name ++ rest) h2,
        kept,
        no_slash,
        kept,
      )
      (begins_folded-spelled tag_name name rest spelled)

tag_behind-slash :
    (b1 b2 name rest : Bytes)
    → AllBlank b1
    → AllBlank b2
    → Spells tag_name name
    → tag_behind (b1 ++ (b'/' ∷ (b2 ++ (name ++ rest)))) ≡ true
unfolding tag_behind
tag_behind-slash b1 b2 name rest h1 h2 spelled =
    let (kept, no_slash) = name-skip name rest spelled in
    rw
      (
        skip_blanks-append b1 (b'/' ∷ (b2 ++ (name ++ rest))) h1,
        skip_blanks-append b2 (name ++ rest) h2,
        kept,
      )
      (begins_folded-spelled tag_name name rest spelled)

tag_behind-TagText : (t : Bytes) → TagText t → tag_behind t ≡ true
tag_behind-TagText t h = rw h.is (go h.closes)
  where
    go :
        (b : Bool) → tag_behind (h.before ++ (slash_if b ++ (h.after ++ (h.name ++ h.rest)))) ≡ true
    go true = tag_behind-slash h.before h.after h.name h.rest h.before_blank h.after_blank h.spelled
    go false =
        tag_behind-plain h.before h.after h.name h.rest h.before_blank h.after_blank h.spelled

first_tag-ne-none : (pre t : Bytes) → tag_behind t ≡ true → first_tag (pre ++ (b'<' ∷ t)) ≢ none
first_tag-ne-none [] t h = λ e. let (untagged, rest) = first_tag-none b'<' t e in ground arith
first_tag-ne-none (c ∷ pre) t h = λ e.
    let (untagged, rest) = first_tag-none c (pre ++ (b'<' ∷ t)) e in first_tag-ne-none pre t h rest

-- No text that went through Neutralize contains a tag of the envelope, opening or closing, in any
-- spelling: nowhere does a `<` stand before white space, an optional slash, white space and the
-- name `untrusted_content` in whatever case.
pub neutralize-forgery : (s pre t : Bytes) → TagText t → neutralize s ≢ pre ++ (b'<' ∷ t)
neutralize-forgery s pre t h =
    λ e. first_tag-ne-none pre t (tag_behind-TagText t h) (rw e at (first_tag-neutralized s))
