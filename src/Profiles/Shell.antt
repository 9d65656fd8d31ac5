-- ===== src/Profiles/Shell.antt =====
-- The fields that stand in shell commands: what the checks of internal/profiles/validate.go let through.
use gno_mcp.Prelude.{
  ℕ, ◌≡◌, refl, sym, Bytes, codes, has_prefix, has_prefix_split, Bool, true, ◌||◌, [], ◌∷◌, ◌++◌,
  arith, ◌==◌, length, drop, is_digit, all_chars, prefix_of, rest_of, all_chars-append,
  all_chars_mono, prefix_of-all_chars, prefix_of-rest_of, inl, inr, Bool-cases,
}
use gno_mcp.Profiles.Formats.{
  is_alnum, is_chain_char, is_host_char, is_url_char, chain_id_valid, valid_rpc_url,
  valid_authority, valid_port_path, valid_url_path,
}

-- A character that no shell treats as syntax.
abbrev pub is_shell_safe : ℕ → Bool
is_shell_safe c = is_alnum c || c == b'.' || c == b'_' || c == b'-' || c == b'/' || c == b':'

-- Split a text at the end of its longest passing prefix.
pub all_chars_split :
    (p q : ℕ → Bool) (s : Bytes)
    → ((c : ℕ) → p c ≡ true → q c ≡ true)
    → all_chars q (rest_of p s) ≡ true
    → all_chars q s ≡ true
all_chars_split p q s le h = rw (sym (prefix_of-rest_of p s)) (
    rw
      (
        all_chars-append q (prefix_of p s) (rest_of p s),
        all_chars_mono p q (prefix_of p s) le (prefix_of-all_chars p s),
        h,
      )
      refl)

valid_url_path-safe : (s : Bytes) → valid_url_path s ≡ true → all_chars is_shell_safe s ≡ true
unfolding all_chars
valid_url_path-safe [] h = refl
valid_url_path-safe (c ∷ s) h =
    ground (arith, all_chars_mono is_url_char is_shell_safe s (λ d k. ground arith))

valid_port_path-safe : (s : Bytes) → valid_port_path s ≡ true → all_chars is_shell_safe s ≡ true
unfolding all_chars
valid_port_path-safe [] h = refl
valid_port_path-safe (c ∷ s) h = ground (
  arith,
  valid_url_path-safe (c ∷ s),
  valid_url_path-safe (rest_of is_digit s),
  all_chars_split is_digit is_shell_safe s (λ d k. ground arith),
)

valid_authority-safe : (s : Bytes) → valid_authority s ≡ true → all_chars is_shell_safe s ≡ true
valid_authority-safe s h =
    all_chars_split is_host_char is_shell_safe s (λ d k. ground arith)
      (valid_port_path-safe (rest_of is_host_char s) (ground arith))

drop-append : (p s : Bytes) → drop (length p) (p ++ s) ≡ s
drop-append [] s = refl
drop-append (c ∷ p) s = drop-append p s

-- A text behind a fixed safe beginning.
behind :
    (p s : Bytes)
    → has_prefix s p ≡ true
    → all_chars is_shell_safe p ≡ true
    → valid_authority (drop (length p) s) ≡ true
    → all_chars is_shell_safe s ≡ true
behind p s h safe k =
    let (rest, e) = has_prefix_split s p h in
    let tail = valid_authority-safe rest (rw (e, drop-append p rest) at k) in
    rw (e, all_chars-append is_shell_safe p rest, safe, tail) refl

pub valid_rpc_url-safe : (s : Bytes) → valid_rpc_url s ≡ true → all_chars is_shell_safe s ≡ true
unfolding valid_rpc_url all_chars
valid_rpc_url-safe s h = elim (Bool-cases (has_prefix s (codes "https://"))) [
  | inl e ↦ behind (codes "https://") s e refl (ground arith)
  | inr e ↦ behind (codes "http://") s (ground arith) refl (ground arith)
]

pub chain_id_valid-safe : (s : Bytes) → chain_id_valid s ≡ true → all_chars is_shell_safe s ≡ true
unfolding chain_id_valid
chain_id_valid-safe s h =
    all_chars_mono is_chain_char is_shell_safe s (λ d k. ground arith) (ground arith)
