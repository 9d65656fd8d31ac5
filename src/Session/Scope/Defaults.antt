-- ===== src/Session/Scope/Defaults.antt =====
-- The spend limit that is derived from the fee of a write, where nobody chose one.
use native.Mathlib.Nat.{mul-div_right}
use gno_mcp.Prelude.{
  ℕ, ◌*◌, ◌/◌, ◌≤◌, ◌<◌, ◌≡◌, refl, Bytes, codes, eqb, prefix_of, rest_of, parse_int, value_from,
  false, some, ◌++◌, arith, if◌then◌else◌, ltb,
}
use gno_mcp.Prelude.Int.{pos, max_int64, mul64-pos, quot64-pos}
use gno_mcp.Profiles.Profile.{Profile, hard_limits}
use gno_mcp.Session.Coins.{parse_coins, parse_coins-format, format_int64}
use gno_mcp.Session.Scope.{Scope, ugnot, capped, derived_spend_limit, writes_at_fee}

-- ten fees, and at most the cap of every profile that keeps the hard limits
abbrev pub ten_fees : ℕ → ℕ
ten_fees f = if ltb 100000000 (f * 10) then 100000000 else f * 10

abbrev testnet_cap : Bytes
testnet_cap = codes "100000000ugnot"

hard_limits-cap :
    (profile : Profile)
    → profile.bypass_hard_limits ≡ false
    → (hard_limits profile).max_spend_limit ≡ testnet_cap
unfolding hard_limits
hard_limits-cap profile h = ground arith

parse_coins-cap : parse_coins testnet_cap ≡ some (100000000, ugnot)
unfolding parse_coins prefix_of rest_of parse_int value_from
parse_coins-cap = refl

capped-ten : (f : ℕ) → capped (pos (f * 10)) (some (100000000, ugnot)) ≡ pos (ten_fees f)
unfolding eqb
capped-ten f = ground arith

derived_is :
    (f : ℕ) (profile : Profile)
    → f * 10 ≤ max_int64
    → profile.bypass_hard_limits ≡ false
    → derived_spend_limit (pos f) profile ≡ format_int64 (pos (ten_fees f)) ++ ugnot
unfolding derived_spend_limit
derived_is f profile fits h =
    ground (arith, hard_limits-cap profile h, parse_coins-cap, mul64-pos f 10 fits, capped-ten f)

derived-parse :
    (f : ℕ) (profile : Profile)
    → f * 10 ≤ max_int64
    → profile.bypass_hard_limits ≡ false
    → parse_coins (derived_spend_limit (pos f) profile) ≡ some (ten_fees f, ugnot)
derived-parse f profile fits h =
    rw (derived_is f profile fits h)
      (parse_coins-format (ten_fees f) b'u' (codes "gnot") (ground arith) refl)

-- Under a profile that keeps the hard limits, the limit derived from a fee `f` with `10 * f` in
-- int64 affords ten writes at that fee, or as many as 100000000 ugnot do where that is less.
pub writes_at_fee-derived :
    (f : ℕ) (profile : Profile) (s : Scope)
    → 0 < f
    → f * 10 ≤ max_int64
    → profile.bypass_hard_limits ≡ false
    → s.spend_limit ≡ derived_spend_limit (pos f) profile
    → writes_at_fee s (pos f) ≡ some (pos (if ltb 100000000 (f * 10) then 100000000 / f else 10))
unfolding writes_at_fee eqb
writes_at_fee-derived f profile s f_pos fits h is = ground (
  arith,
  is,
  derived-parse f profile fits h,
  quot64-pos (ten_fees f) f (ground arith),
  mul-div_right 10 f_pos,
)
