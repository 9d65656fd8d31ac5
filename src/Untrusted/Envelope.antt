-- ===== src/Untrusted/Envelope.antt =====
-- No text that went through Neutralize can forge or close an envelope.
use gno_mcp.Prelude.{
  ℕ, suc, ◌+◌, ◌≡◌, refl, ap, Bytes, codes, false, Option, none, some, [], ◌∷◌, ◌++◌, arith,
  if◌then◌else◌, append-nil, length, Bool-cases, inl, inr,
}
use gno_mcp.Untrusted.{
  skip_blanks, skip_slash, fold_char, begins_folded, tag_behind, is_tag, neutralize, close_tag,
  tail_of,
}
use gno_mcp.Untrusted.Follows.{
  Blocked, empty, line, Follows, tag_behind-Follows, neutralize-Follows,
}

-- The position of the first envelope tag.
abbrev pub next_place : Option ℕ → Option ℕ
next_place none = none
next_place (some n) = some (suc n)

next_place-none : (o : Option ℕ) → next_place o ≡ none → o ≡ none
next_place-none none h = refl
next_place-none (some n) h = absurd (ground arith)

unfoldable pub first_tag : Bytes → Option ℕ
first_tag [] = none
first_tag (c ∷ s) = let rest = next_place (first_tag s) in if is_tag c s then some 0 else rest

first_tag-step :
    (c : ℕ) (s : Bytes) {n m : ℕ}
    → is_tag c s ≡ false
    → first_tag s ≡ some n
    → m ≡ suc n
    → first_tag (c ∷ s) ≡ some m
unfolding first_tag
first_tag-step c s e h k = ground (arith, h)

first_tag-escaped :
    (s : Bytes) {n m : ℕ}
    → first_tag s ≡ some n
    → m ≡ n + 4
    → first_tag (codes "&lt;" ++ s) ≡ some m
unfolding first_tag
first_tag-escaped s h k = rw h (ap some (omega arith))

first_tag-neutralize :
    (s rest : Bytes) (n : ℕ)
    → Blocked rest
    → first_tag rest ≡ some n
    → first_tag (neutralize s ++ rest) ≡ some (length (neutralize s) + n)
unfolding neutralize first_tag
first_tag-neutralize [] rest n b h = ground (arith, h)
first_tag-neutralize (c ∷ s) rest n b h = elim (Bool-cases (is_tag c s)) [
  | inl e ↦
      rw e
        (first_tag-escaped (neutralize s ++ rest) (first_tag-neutralize s rest n b h) (omega arith))
  | inr e ↦
      let behind = tag_behind-Follows (neutralize-Follows s rest b) in
      rw e (
        first_tag-step c (neutralize s ++ rest) (ground (arith, behind))
          (first_tag-neutralize s rest n b h) (omega arith))
]

first_tag-close_tag : first_tag (b'\n' ∷ close_tag) ≡ some 1
unfolding first_tag tag_behind skip_blanks skip_slash begins_folded fold_char
first_tag-close_tag = refl

Follows-neutralize : (s : Bytes) → Follows (neutralize s) s
Follows-neutralize s = rw (append-nil (neutralize s)) at (neutralize-Follows s [] empty)

first_tag-none_step :
    (c : ℕ) (s : Bytes) → is_tag c s ≡ false → first_tag s ≡ none → first_tag (c ∷ s) ≡ none
unfolding first_tag
first_tag-none_step c s e h = ground (arith, h)

first_tag-escaped_none : (s : Bytes) → first_tag s ≡ none → first_tag (codes "&lt;" ++ s) ≡ none
unfolding first_tag
first_tag-escaped_none s h = rw h refl

pub first_tag-none :
    (c : ℕ) (s : Bytes) → first_tag (c ∷ s) ≡ none → (is_tag c s ≡ false) × (first_tag s ≡ none)
unfolding first_tag
first_tag-none c s h = ground (arith, next_place-none (first_tag s))

-- Whatever the chain's text holds, the first envelope tag behind the head line of Wrap is the closing
-- tag that Wrap itself writes, at the end: the text can neither close the envelope nor open another.
pub first_tag-tail_of :
    (body : Bytes) → first_tag (tail_of body) ≡ some (length (neutralize body) + 1)
first_tag-tail_of body = first_tag-neutralize body (b'\n' ∷ close_tag) 1 line first_tag-close_tag

-- The same for mixed text without an envelope: Neutralize leaves no tag.
pub first_tag-neutralized : (s : Bytes) → first_tag (neutralize s) ≡ none
unfolding first_tag neutralize
first_tag-neutralized [] = refl
first_tag-neutralized (c ∷ s) = elim (Bool-cases (is_tag c s)) [
  | inl e ↦ rw e (first_tag-escaped_none (neutralize s) (first_tag-neutralized s))
  | inr e ↦
      let behind = tag_behind-Follows (Follows-neutralize s) in
      rw e (first_tag-none_step c (neutralize s) (ground (arith, behind)) (first_tag-neutralized s))
]

-- A text without a tag is left as it is.
pub neutralize-untagged : (s : Bytes) → first_tag s ≡ none → neutralize s ≡ s
unfolding first_tag neutralize
neutralize-untagged [] h = refl
neutralize-untagged (c ∷ s) h =
    let (no_tag, rest) = first_tag-none c s h in rw (no_tag, neutralize-untagged s rest) refl

-- Neutralizing twice is neutralizing once.
pub neutralize-neutralize : (s : Bytes) → neutralize (neutralize s) ≡ neutralize s
neutralize-neutralize s = neutralize-untagged (neutralize s) (first_tag-neutralized s)
