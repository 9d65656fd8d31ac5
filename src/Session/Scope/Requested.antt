-- ===== src/Session/Scope/Requested.antt =====
-- What a scope holds before it is clamped: what the agent has asked for, or the defaults, in clean paths.
use gno_mcp.Prelude.{
  ℕ, ◌≡◌, refl, sym, Bytes, eqb→eq, is_empty, rest_of, Bool, true, false, not, ◌&&◌, Option, none,
  some, List, [], ◌∷◌, arith, All, all_chars, all_chars_mono, is_digit,
}
use gno_mcp.Prelude.Int.{ℤ, pos, ◌≤ℤ◌, ◌<ℤ◌}
use gno_mcp.Prelude.Result.{ok, guard, bind-ok}
use gno_mcp.Profiles.Formats.{spend_limit_valid, is_lower, is_lower_alnum}
use gno_mcp.Profiles.Shell.{all_chars_split}
use gno_mcp.Profiles.Profile.{Profile, effective_defaults}
use gno_mcp.Session.Coins.{parse_coins}
use gno_mcp.Session.Scope.{
  Scope, ScopeArgs, ScopeError, bad_expires_in, is_path_char, ugnot, validate_allow_path,
  validate_allow_paths, parsed_covers_fee, spend_limit_covers_fee, chosen_limit, chosen_expiry,
  or_error, requested_scope, no_paths,
}

-- A path that may stand in a session: no shell syntax, and a realm.
abbrev pub IsCleanPath : (Bytes → Bool) → Bytes → Type 0
IsCleanPath is_realm_path p = (all_chars is_path_char p ≡ true) × (is_realm_path p ≡ true)

-- The limit is a ugnot amount that pays at least one fee.
abbrev pub Pays : Bytes → ℤ → Type 0
Pays limit fee = (mag : ℕ) × (parse_coins limit ≡ some (mag, ugnot)) × (fee ≤ℤ pos mag)

-- a text of digits and lower-case letters, by either of the tests of a coin
pub spend_limit_valid-safe :
    (s : Bytes) → spend_limit_valid s ≡ true → all_chars is_lower_alnum s ≡ true
unfolding spend_limit_valid
spend_limit_valid-safe s h =
    all_chars_split is_digit is_lower_alnum s (λ d k. ground arith)
      (all_chars_mono is_lower is_lower_alnum (rest_of is_digit s) (λ d k. ground arith)
        (ground (arith, h)))

pub parse_coins-safe :
    (s : Bytes) (mag : ℕ) → parse_coins s ≡ some (mag, ugnot) → all_chars is_lower_alnum s ≡ true
unfolding parse_coins all_chars
parse_coins-safe s mag h =
    let unit : rest_of is_digit s ≡ ugnot = ground (arith, h) in
    all_chars_split is_digit is_lower_alnum s (λ d k. ground arith) (rw (unit) refl)

guard-ok : (b : Bool) (e : ScopeError) {u : Unit {0}} → guard b e ≡ ok u → b ≡ true
guard-ok true e h = refl
guard-ok false e h = absurd (ground arith)

validate_allow_path-clean :
    (is_realm_path : Bytes → Bool) (p : Bytes)
    → validate_allow_path is_realm_path p ≡ ok tt
    → IsCleanPath is_realm_path p
unfolding validate_allow_path
validate_allow_path-clean is_realm_path p h = (ground arith, ground arith)

validate_allow_paths-clean :
    (is_realm_path : Bytes → Bool) (ps : List Bytes)
    → validate_allow_paths is_realm_path ps ≡ ok tt
    → All (IsCleanPath is_realm_path) ps
unfolding validate_allow_paths
validate_allow_paths-clean is_realm_path [] h = tt
validate_allow_paths-clean is_realm_path (p ∷ ps) h =
    let (u, e, rest) = bind-ok (validate_allow_path is_realm_path p) _ h in
    (validate_allow_path-clean is_realm_path p e, validate_allow_paths-clean is_realm_path ps rest)

parsed_covers_fee-Pays :
    (fee : ℤ) (parsed : Option (ℕ × Bytes))
    → parsed_covers_fee fee parsed ≡ ok tt
    → (mag : ℕ) × (parsed ≡ some (mag, ugnot)) × (fee ≤ℤ pos mag)
parsed_covers_fee-Pays fee none h = absurd (ground arith)
parsed_covers_fee-Pays fee (some (mag, denom)) h =
    let same : denom ≡ ugnot = eqb→eq denom ugnot (ground arith) in
    (mag, rw same refl, ground arith)

pub covers_fee-Pays :
    (limit : Bytes) (fee : ℤ)
    → spend_limit_covers_fee limit fee ≡ ok tt
    → pos 0 <ℤ fee
    → Pays limit fee
unfolding spend_limit_covers_fee
covers_fee-Pays limit fee h k = parsed_covers_fee-Pays fee (parse_coins limit) (ground arith)

pub or_error-ok {ℓ} :
    {A : Type ℓ} (e : ScopeError) (o : Option A) (a : A) → or_error e o ≡ ok a → o ≡ some a
or_error-ok e none a h = absurd (ground arith)
or_error-ok e (some b) a h = ground arith

chosen_expiry-ok :
    (parse_duration : Bytes → Option ℤ) (args : ScopeArgs) (profile_expiry d : ℤ)
    → chosen_expiry parse_duration args profile_expiry ≡ ok d
    → is_empty args.expires_in ≡ false
    → parse_duration args.expires_in ≡ some d
unfolding chosen_expiry
chosen_expiry-ok parse_duration args profile_expiry d h k =
    or_error-ok bad_expires_in (parse_duration args.expires_in) d (ground arith)

-- What the scope of the request is made of, before any clamping.
pub record Requested (parse_duration : Bytes → Option ℤ) (is_realm_path : Bytes → Bool)
    (args : ScopeArgs) (s : Scope) : Type 0 where
  pub clean_paths : All (IsCleanPath is_realm_path) s.allow_paths
  pub one_period : s.spend_period ≡ s.expires_in
  pub limit_valid : spend_limit_valid s.spend_limit ≡ true
  pub paths_are : s.allow_paths ≡ args.allow_paths
  pub run_is : s.allow_run ≡ args.allow_run
  pub limit_is : is_empty args.spend_limit ≡ false → s.spend_limit ≡ args.spend_limit
  pub expiry_is :
      is_empty args.expires_in ≡ false → parse_duration args.expires_in ≡ some s.expires_in

pub requested_scope-Requested :
    (parse_duration : Bytes → Option ℤ) (is_realm_path : Bytes → Bool) (args : ScopeArgs)
    (profile : Profile) (fee : ℤ) (s : Scope)
    → requested_scope parse_duration is_realm_path args profile fee ≡ ok s
    → Requested parse_duration is_realm_path args s
unfolding requested_scope chosen_limit
requested_scope-Requested parse_duration is_realm_path args profile fee s h =
    let (u1, e1, h1) =
      bind-ok (guard (not (no_paths args.allow_paths && not args.allow_run)) _) _ h in
    let (u2, e2, h2) = bind-ok (validate_allow_paths is_realm_path args.allow_paths) _ h1 in
    let ((limit, expiry), e3, h3) =
      bind-ok (or_error _ (effective_defaults parse_duration profile)) _ h2 in
    let (u4, e4, h4) =
      bind-ok (guard (spend_limit_valid (chosen_limit args profile fee limit)) _) _ h3 in
    let (d, e5, h5) = bind-ok (chosen_expiry parse_duration args expiry) _ h4 in
    let built : Scope = record {
      spend_limit = chosen_limit args profile fee limit;
      spend_period = d;
      expires_in = d;
      allow_paths = args.allow_paths;
      allow_run = args.allow_run;
    } in
    let same : built ≡ s = ground arith in
    rw (sym same) (record {
      clean_paths = validate_allow_paths-clean is_realm_path args.allow_paths e2;
      one_period = refl;
      limit_valid = guard-ok (spend_limit_valid built.spend_limit) _ e4;
      paths_are = refl;
      run_is = refl;
      limit_is = λ k. ground arith;
      expiry_is = chosen_expiry-ok parse_duration args expiry d e5;
    })
