-- ===== src/Untrusted/Follows.antt =====
-- The matcher of an envelope tag on a text that agrees with another one up to a point.
use gno_mcp.Prelude.{
  ℕ, ◌≡◌, ◌≢◌, refl, sym, Bytes, Bool, true, false, ◌&&◌, ◌||◌, Option, none, some, [], ◌∷◌, ◌++◌,
  arith, if◌then◌else◌, ◌==◌, leb, ◌-◌, All, Bool-cases, inl, inr,
}
use gno_mcp.Untrusted.{
  is_blank, skip_blanks, skip_slash, long_s, fold_char, begins_folded, or_false, tag_name,
  tag_behind, is_tag, neutralize,
}

-- Where a text begins that holds no part of a tag's pattern.
pub data Blocked : Bytes → Type 0 where
  empty : Blocked []
  amp : {t : Bytes} → Blocked (b'&' ∷ t)
  angle : {t : Bytes} → Blocked (b'<' ∷ t)
  line : {t : Bytes} → Blocked (b'\n' ∷ b'<' ∷ t)

-- The first text is the second one, up to a point from where it is blocked.
pub data Follows : Bytes → Bytes → Type 0 where
  same : (c : ℕ) {t s : Bytes} → Follows t s → Follows (c ∷ t) (c ∷ s)
  stop : {t s : Bytes} → Blocked t → Follows t s

Blocked-skip_blanks : (t s : Bytes) → Blocked t → Follows (skip_blanks t) s
unfolding skip_blanks
Blocked-skip_blanks t s empty = stop empty
Blocked-skip_blanks t s amp = stop amp
Blocked-skip_blanks t s angle = stop angle
Blocked-skip_blanks t s line = stop angle

Follows-skip_blanks : {t s : Bytes} → Follows t s → Follows (skip_blanks t) (skip_blanks s)
unfolding skip_blanks
Follows-skip_blanks (stop b) = Blocked-skip_blanks _ _ b
Follows-skip_blanks (same c h) = elim (Bool-cases (is_blank c)) [
  | inl e ↦ rw e (Follows-skip_blanks h)
  | inr e ↦ rw e (same c h)
]

Follows-skip_slash : {t s : Bytes} → Follows t s → Follows (skip_slash t) (skip_slash s)
unfolding skip_slash
Follows-skip_slash (stop empty) = stop empty
Follows-skip_slash (stop amp) = stop amp
Follows-skip_slash (stop angle) = stop angle
Follows-skip_slash (stop line) = stop line
Follows-skip_slash (same c h) = elim (Bool-cases (c == b'/')) [
  | inl e ↦ rw e h
  | inr e ↦ rw e (same c h)
]

abbrev is_tag_char : ℕ → Bool
is_tag_char p = (leb b'a' p && leb p b'z') || p == b'_'

long_s-Follows :
    (c : ℕ) {t s : Bytes} (r : Bytes)
    → Follows t s
    → long_s c t ≡ some r
    → (r' : Bytes) × (long_s c s ≡ some r') × Follows r r'
unfolding long_s
long_s-Follows c r (stop empty) e = absurd (ground arith)
long_s-Follows c r (stop amp) e = absurd (ground arith)
long_s-Follows c r (stop angle) e = absurd (ground arith)
long_s-Follows c r (stop line) e = absurd (ground arith)
long_s-Follows c r (same d {t = t} {s = s} h) e = elim (Bool-cases (c == 0xc5 && d == 0xbf)) [
  | inl k ↦ let is : t ≡ r = ground arith in (s, ground arith, rw (sym is) h)
  | inr k ↦ absurd (ground arith)
]

-- A character that folds by itself.
abbrev pub folds : ℕ → ℕ → Bool
folds p c = if p == b'_' then c == b'_' else c == p || c == p - 32

pub fold_char-direct : (p c : ℕ) (s : Bytes) → folds p c ≡ true → fold_char p (c ∷ s) ≡ some s
unfolding fold_char
fold_char-direct p c s h = ground arith

fold_char-other :
    (p c : ℕ) (s : Bytes)
    → folds p c ≡ false
    → fold_char p (c ∷ s) ≡ (if p == b's' then long_s c s else none)
unfolding fold_char
fold_char-other p c s h = ground arith

fold_char-Blocked :
    (p : ℕ) (t r : Bytes) → is_tag_char p ≡ true → Blocked t → fold_char p t ≢ some r
unfolding fold_char long_s
fold_char-Blocked p t r tag empty = λ e. ground arith
fold_char-Blocked p t r tag amp = λ e. ground arith
fold_char-Blocked p t r tag angle = λ e. ground arith
fold_char-Blocked p t r tag line = λ e. ground arith

fold_char-Follows :
    (p : ℕ) {t s : Bytes} (r : Bytes)
    → is_tag_char p ≡ true
    → Follows t s
    → fold_char p t ≡ some r
    → (r' : Bytes) × (fold_char p s ≡ some r') × Follows r r'
fold_char-Follows p r tag (stop b) e = absurd (fold_char-Blocked p _ r tag b e)
fold_char-Follows p r tag (same c {t = t} {s = s} h) e = elim (Bool-cases (folds p c)) [
  | inl k ↦
      let is : t ≡ r = ground (arith, fold_char-direct p c t k) in
      (s, fold_char-direct p c s k, rw (sym is) h)
  | inr k ↦ elim (Bool-cases (p == b's')) [
    | inl is_s ↦
        let long : long_s c t ≡ some r = ground (arith, fold_char-other p c t k) in
        let (r', e', h') = long_s-Follows c r h long in
        (r', ground (arith, fold_char-other p c s k), h')
    | inr not_s ↦ absurd (ground (arith, fold_char-other p c t k))
  ]
]

begins_folded-Follows :
    (ps : Bytes) {t s : Bytes}
    → All (λ p. is_tag_char p ≡ true) ps
    → Follows t s
    → begins_folded ps t ≡ true
    → begins_folded ps s ≡ true
unfolding begins_folded
begins_folded-Follows [] tags h e = refl
begins_folded-Follows (p ∷ ps) {t} {s} (tag, tags) h e =
    go (fold_char p t) refl e (λ r r' k. begins_folded-Follows ps tags k)
  where
    go :
        (o : Option Bytes)
        → fold_char p t ≡ o
        → or_false (begins_folded ps) o ≡ true
        → ((r r' : Bytes) → Follows r r' → begins_folded ps r ≡ true → begins_folded ps r' ≡ true)
        → or_false (begins_folded ps) (fold_char p s) ≡ true
    go none is k rest = absurd (ground arith)
    go (some r) is k rest =
        let (r', e', h') = fold_char-Follows p r tag h is in rw e' (rest r r' h' k)

tag_name_lem : All (λ p. is_tag_char p ≡ true) tag_name
tag_name_lem = (
  refl,
  (
    refl,
    (
      refl,
      (
        refl,
        (
          refl,
          (
            refl,
            (
              refl,
              (refl, (refl, (refl, (refl, (refl, (refl, (refl, (refl, (refl, (refl, tt)))))))))),
            ),
          ),
        ),
      ),
    ),
  ),
)

pub tag_behind-Follows : {t s : Bytes} → Follows t s → tag_behind t ≡ true → tag_behind s ≡ true
unfolding tag_behind
tag_behind-Follows h e =
    begins_folded-Follows tag_name tag_name_lem
      (Follows-skip_blanks (Follows-skip_slash (Follows-skip_blanks h))) e

pub neutralize-Follows : (s rest : Bytes) → Blocked rest → Follows (neutralize s ++ rest) s
unfolding neutralize
neutralize-Follows [] rest b = stop b
neutralize-Follows (c ∷ s) rest b = elim (Bool-cases (is_tag c s)) [
  | inl e ↦ rw e (stop amp)
  | inr e ↦ rw e (same c (neutralize-Follows s rest b))
]
