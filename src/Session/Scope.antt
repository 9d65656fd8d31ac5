-- ===== src/Session/Scope.antt =====
-- internal/session/scope.go: ResolveScope, the four-layer policy for the scope of a session. Go's
-- time.ParseDuration and the toolchain's gnolang.IsRealmPath are the arguments `parse_duration` and
-- `is_realm_path`; a duration is in nanoseconds, and a fee is an int64.
pub mod Requested
pub mod Clamps
pub mod Limits
pub mod Defaults
use gno_mcp.Prelude.{
  ℕ, ◌/◌, Bytes, codes, eqb, is_empty, Bool, true, false, not, ◌&&◌, ◌||◌, Option, none, some, List,
  [], ◌∷◌, ◌++◌, if◌then◌else◌, ltb, leb, ◌==◌, length, take, all_chars,
}
use gno_mcp.Prelude.Int.{ℤ, pos, ltb_ℤ, leb_ℤ, mul64, quot64}
use gno_mcp.Prelude.Result.{Result, ok, err, guard, ◌>>=◌, ◌>>◌}
use gno_mcp.Profiles.Formats.{spend_limit_valid, is_lower_alnum}
use gno_mcp.Profiles.Profile.{Profile, effective_defaults, HardLimits, hard_limits}
use gno_mcp.Session.Coins.{parse_coins, clamp_coin, format_int64}

pub record Scope : Type 0 where
  pub spend_limit : Bytes
  pub spend_period : ℤ
  pub expires_in : ℤ
  pub allow_paths : List Bytes
  pub allow_run : Bool

pub record ScopeArgs : Type 0 where
  pub spend_limit : Bytes
  pub expires_in : Bytes
  pub allow_paths : List Bytes
  pub allow_run : Bool

pub data ScopeError : Type 0 where
  nothing_requested : ScopeError
  empty_path illegal_path not_a_realm : Bytes → ScopeError
  bad_defaults invalid_spend_limit bad_expires_in not_comparable : ScopeError
  limit_unparsable limit_not_ugnot limit_below_fee : ScopeError

-- a warning, with what was asked for
pub data Warning : Type 0 where
  clamped_spend : Bytes → Warning
  clamped_expiry : ℤ → Warning
  clamped_paths : ℕ → Warning

-- a character that allowPathUnsafe lets pass: [a-z0-9./_-]
abbrev pub is_path_char : ℕ → Bool
is_path_char c = is_lower_alnum c || c == b'.' || c == b'/' || c == b'_' || c == b'-'

-- "ugnot"
abbrev pub ugnot : Bytes
ugnot = codes "ugnot"

abbrev pub no_paths : List Bytes → Bool
no_paths [] = true
no_paths (p ∷ ps) = false

-- validateAllowPath
unfoldable pub validate_allow_path : (Bytes → Bool) → Bytes → Result ScopeError (Unit {0})
validate_allow_path is_realm_path p =
    guard (not (is_empty p)) (empty_path p)
    >> guard (all_chars is_path_char p) (illegal_path p)
    >> guard (is_realm_path p) (not_a_realm p)

-- the loop over args.AllowPaths
unfoldable pub validate_allow_paths : (Bytes → Bool) → List Bytes → Result ScopeError (Unit {0})
unfolding validate_allow_path
validate_allow_paths is_realm_path [] = ok tt
validate_allow_paths is_realm_path (p ∷ ps) =
    validate_allow_path is_realm_path p >> validate_allow_paths is_realm_path ps

-- the cap of derivedSpendLimit, from the parse of the profile's hard limit
abbrev pub capped : ℤ → Option (ℕ × Bytes) → ℤ
capped mag none = mag
capped mag (some (max_mag, max_denom)) =
    if eqb max_denom ugnot && ltb_ℤ (pos max_mag) mag then pos max_mag else mag

-- derivedSpendLimit, with spendLimitWriteBudget = 10
unfoldable pub derived_spend_limit : ℤ → Profile → Bytes
derived_spend_limit fee profile =
    let mag = mul64 fee (pos 10) in
    let limit = (hard_limits profile).max_spend_limit in
    let bounded =
      if profile.bypass_hard_limits || is_empty limit
      then mag
      else capped mag (parse_coins limit) in
    format_int64 bounded ++ ugnot

-- spendLimitCoversFee, behind its parse
abbrev pub parsed_covers_fee : ℤ → Option (ℕ × Bytes) → Result ScopeError (Unit {0})
parsed_covers_fee fee none = err limit_unparsable
parsed_covers_fee fee (some (mag, denom)) =
    guard (eqb denom ugnot) limit_not_ugnot >> guard (not (ltb_ℤ (pos mag) fee)) limit_below_fee

-- spendLimitCoversFee
unfoldable pub spend_limit_covers_fee : Bytes → ℤ → Result ScopeError (Unit {0})
spend_limit_covers_fee spend_limit fee =
    if leb_ℤ fee (pos 0) then ok tt else parsed_covers_fee fee (parse_coins spend_limit)

-- WritesAtFee, behind its parse
abbrev pub parsed_writes : ℤ → Option (ℕ × Bytes) → Option ℤ
parsed_writes fee none = none
parsed_writes fee (some (mag, denom)) =
    if eqb denom ugnot then some (quot64 (pos mag) fee) else none

-- WritesAtFee
unfoldable pub writes_at_fee : Scope → ℤ → Option ℤ
writes_at_fee s fee =
    if leb_ℤ fee (pos 0) then none else parsed_writes fee (parse_coins s.spend_limit)

-- the spend limit before any clamping: the agent's, else the profile's, else the derived one
unfoldable pub chosen_limit : ScopeArgs → Profile → ℤ → Bytes → Bytes
unfolding derived_spend_limit
chosen_limit args profile fee profile_limit =
    if not (is_empty args.spend_limit)
    then args.spend_limit
    else if is_empty profile.default_spend_limit && ltb_ℤ (pos 0) fee
    then derived_spend_limit fee profile
    else profile_limit

abbrev pub or_error {ℓ} : {A : Type ℓ} → ScopeError → Option A → Result ScopeError A
or_error e none = err e
or_error e (some a) = ok a

-- the lifetime before any clamping: the agent's, else the profile's
unfoldable pub chosen_expiry : (Bytes → Option ℤ) → ScopeArgs → ℤ → Result ScopeError ℤ
chosen_expiry parse_duration args profile_expiry =
    if is_empty args.expires_in
    then ok profile_expiry
    else or_error bad_expires_in (parse_duration args.expires_in)

-- the three clamps of ResolveScope, each with its warning
abbrev pub after_clamp : Scope → Bytes × Bool → Scope × List Warning
after_clamp s (value, did) =
    if did then (record s { spend_limit = value }, clamped_spend s.spend_limit ∷ []) else (s, [])

unfoldable pub clamp_spend : HardLimits → Scope → Result ScopeError (Scope × List Warning)
clamp_spend limits s =
    if is_empty limits.max_spend_limit
    then ok (s, [])
    else or_error not_comparable (clamp_coin s.spend_limit limits.max_spend_limit) >>= λ c.
        ok (after_clamp s c)

unfoldable pub clamp_expiry : HardLimits → Scope → Scope × List Warning
clamp_expiry limits s =
    if ltb_ℤ (pos 0) limits.max_expires_in && ltb_ℤ limits.max_expires_in s.expires_in
    then (
      record s { expires_in = limits.max_expires_in; spend_period = limits.max_expires_in },
      clamped_expiry s.expires_in ∷ [],
    )
    else (s, [])

unfoldable pub clamp_paths : HardLimits → Scope → Scope × List Warning
clamp_paths limits s =
    if ltb 0 limits.max_allow_paths_count && ltb limits.max_allow_paths_count (length s.allow_paths)
    then (
      record s { allow_paths = take limits.max_allow_paths_count s.allow_paths },
      clamped_paths (length s.allow_paths) ∷ [],
    )
    else (s, [])

-- ResolveScope behind `if profile.BypassHardLimits`
unfoldable pub clamped_scope : HardLimits → ℤ → Scope → Result ScopeError (Scope × List Warning)
unfolding clamp_spend clamp_expiry clamp_paths spend_limit_covers_fee
clamped_scope limits fee s = do
  (s1, w1) ← clamp_spend limits s
  let (s2, w2) = clamp_expiry limits s1
  let (s3, w3) = clamp_paths limits s2
  spend_limit_covers_fee s3.spend_limit fee
  ok (s3, w1 ++ w2 ++ w3)

-- the scope that ResolveScope builds before any clamping
unfoldable pub requested_scope :
    (Bytes → Option ℤ) → (Bytes → Bool) → ScopeArgs → Profile → ℤ → Result ScopeError Scope
unfolding validate_allow_paths chosen_limit chosen_expiry
requested_scope parse_duration is_realm_path args profile fee = do
  guard (not (no_paths args.allow_paths && not args.allow_run)) nothing_requested
  validate_allow_paths is_realm_path args.allow_paths
  (profile_limit, profile_expiry) ←
      or_error bad_defaults (effective_defaults parse_duration profile)
  let limit = chosen_limit args profile fee profile_limit
  guard (spend_limit_valid limit) invalid_spend_limit
  expires_in ← chosen_expiry parse_duration args profile_expiry
  ok (record {
    spend_limit = limit;
    spend_period = expires_in;
    expires_in = expires_in;
    allow_paths = args.allow_paths;
    allow_run = args.allow_run;
  })

-- ResolveScope
unfoldable pub resolve_scope :
    (Bytes → Option ℤ)
    → (Bytes → Bool)
    → ScopeArgs
    → Profile
    → ℤ
    → Result ScopeError (Scope × List Warning)
unfolding requested_scope clamped_scope
resolve_scope parse_duration is_realm_path args profile fee = do
  s ← requested_scope parse_duration is_realm_path args profile fee
  if profile.bypass_hard_limits
      then spend_limit_covers_fee s.spend_limit fee >> ok (s, [])
      else clamped_scope (hard_limits profile) fee s
