-- ===== src/Session/Scope/Limits.antt =====
-- What a resolved scope guarantees: the bounds of the profile, the paths, and a limit that pays.
use gno_mcp.Prelude.{
  ℕ, ◌≤◌, ◌≡◌, refl, sym, ap, Bytes, is_empty, Bool, true, false, Option, some, List, [], arith,
  if◌then◌else◌, length, All, all_chars, inl, inr, Bool-cases,
}
use gno_mcp.Prelude.Int.{ℤ, pos, ◌≤ℤ◌, ◌<ℤ◌}
use gno_mcp.Prelude.Result.{ok, ◌>>◌, bind-ok}
use gno_mcp.Profiles.Formats.{is_lower_alnum}
use gno_mcp.Profiles.Profile.{Profile, hard_limits}
use gno_mcp.Session.Coins.{parse_coins}
use gno_mcp.Session.Scope.{
  Scope, ScopeArgs, Warning, ugnot, spend_limit_covers_fee, clamped_scope, requested_scope,
  resolve_scope,
}
use gno_mcp.Session.Scope.Requested.{
  IsCleanPath, Pays, spend_limit_valid-safe, parse_coins-safe, covers_fee-Pays, Requested,
  requested_scope-Requested,
}
use gno_mcp.Session.Scope.Clamps.{hard_limits-Ceilings, same_result, clamped_scope-Clamped}

-- A scope under the ceilings of a profile that does not lift them.
pub record IsUnder (profile : Profile) (s : Scope) : Type 0 where
  pub expires_in_time : s.expires_in ≤ℤ (hard_limits profile).max_expires_in
  pub few_paths : length s.allow_paths ≤ (hard_limits profile).max_allow_paths_count
  pub mag : ℕ
  pub is_coin : parse_coins s.spend_limit ≡ some (mag, ugnot)
  pub in_cap : mag ≤ 100000000

pub record IsGranted (is_realm_path : Bytes → Bool) (profile : Profile) (fee : ℤ) (s : Scope)
    : Type 0 where
  pub clean_paths : All (IsCleanPath is_realm_path) s.allow_paths
  pub one_period : s.spend_period ≡ s.expires_in
  pub limit_safe : all_chars is_lower_alnum s.spend_limit ≡ true
  pub pays : pos 0 <ℤ fee → Pays s.spend_limit fee
  pub is_under : profile.bypass_hard_limits ≡ false → IsUnder profile s

module _ (parse_duration : Bytes → Option ℤ) (is_realm_path : Bytes → Bool) where
  resolve_scope-lem :
      (args : ScopeArgs) (profile : Profile) (fee : ℤ) (s s' : Scope) (warnings : List Warning)
      → Requested parse_duration is_realm_path args s
      → (if profile.bypass_hard_limits
          then spend_limit_covers_fee s.spend_limit fee >> ok (s, [])
          else clamped_scope (hard_limits profile) fee s)
        ≡ ok (s', warnings)
      → IsGranted is_realm_path profile fee s' × (warnings ≡ [] → s' ≡ s)
  resolve_scope-lem args profile fee s s' warnings req h =
      elim (Bool-cases profile.bypass_hard_limits) [
        | inl lifted ↦
            let h0 : (spend_limit_covers_fee s.spend_limit fee >> ok (s, [])) ≡ ok (s', warnings) =
              rw lifted at h in
            let (u, e, h1) = bind-ok (spend_limit_covers_fee s.spend_limit fee) _ h0 in
            let same : s ≡ s' = ap (λ x. x.0) (same_result (s, []) (s', warnings) h1) in
            (
              rw (sym same) (record {
                clean_paths = req.clean_paths;
                one_period = req.one_period;
                limit_safe = spend_limit_valid-safe s.spend_limit req.limit_valid;
                pays = covers_fee-Pays s.spend_limit fee e;
                is_under = λ k. absurd (ground arith);
              }),
              λ k. sym same,
            )
        | inr bound ↦
            let c =
              clamped_scope-Clamped (hard_limits profile) fee s (s', warnings)
                (hard_limits-Ceilings profile bound) (ground arith) in
            let (mag, is_coin, in_cap) = c.coin in
            (
              record {
                clean_paths = c.clean (IsCleanPath is_realm_path) req.clean_paths;
                one_period = c.period req.one_period;
                limit_safe = parse_coins-safe s'.spend_limit mag is_coin;
                pays = c.pays;
                is_under = λ k. record {
                  expires_in_time = c.in_time;
                  few_paths = c.few;
                  mag = mag;
                  is_coin = is_coin;
                  in_cap = in_cap;
                };
              },
              c.kept,
            )
      ]

  -- A scope that ResolveScope grants holds realm paths without shell syntax only and a spend limit of
  -- digits and lower-case letters, lasts as long as its spend period, and, where the fee of a write is known, pays at least one. Under a profile
  -- that does not lift the hard limits, its lifetime and its number of paths are within them, and
  -- its spend limit is a ugnot amount of at most 100000000.
  pub resolve_scope-IsGranted :
      (args : ScopeArgs) (profile : Profile) (fee : ℤ) (s : Scope) (warnings : List Warning)
      → resolve_scope parse_duration is_realm_path args profile fee ≡ ok (s, warnings)
      → IsGranted is_realm_path profile fee s
  unfolding resolve_scope
  resolve_scope-IsGranted args profile fee s warnings h =
      let (s0, e, h1) =
        bind-ok (requested_scope parse_duration is_realm_path args profile fee) _ h in
      (resolve_scope-lem args profile fee s0 s warnings
        (requested_scope-Requested parse_duration is_realm_path args profile fee s0 e) h1).0

  -- Nothing is clamped in silence: a scope that comes without a warning has the paths, the lifetime
  -- and the spend limit that the agent asked for, where it asked.
  pub resolve_scope-unwarned :
      (args : ScopeArgs) (profile : Profile) (fee : ℤ) (s : Scope)
      → resolve_scope parse_duration is_realm_path args profile fee ≡ ok (s, [])
      → (s.allow_paths ≡ args.allow_paths)
        × (s.allow_run ≡ args.allow_run)
        × (is_empty args.spend_limit ≡ false → s.spend_limit ≡ args.spend_limit)
        × (is_empty args.expires_in ≡ false → parse_duration args.expires_in ≡ some s.expires_in)
  unfolding resolve_scope
  resolve_scope-unwarned args profile fee s h =
      let (s0, e, h1) =
        bind-ok (requested_scope parse_duration is_realm_path args profile fee) _ h in
      let req = requested_scope-Requested parse_duration is_realm_path args profile fee s0 e in
      let same : s ≡ s0 = (resolve_scope-lem args profile fee s0 s [] req h1).1 refl in
      rw same (req.paths_are, req.run_is, req.limit_is, req.expiry_is)
