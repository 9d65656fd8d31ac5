-- ===== src/Session/Gnokey/Tests.antt =====
-- The command for a testnet session, and the theorem about it.
use gno_mcp.Prelude.{
  Bytes, codes, eqb, has_prefix, prefix_of, rest_of, all_chars, parse_int, value_from, Bool, true,
  Option, none, [], ◌∷◌, All, refl, ◌≡◌,
}
use gno_mcp.Prelude.Int.{ℤ, pos}
use gno_mcp.Prelude.Result.{ok}
use gno_mcp.Profiles.Formats.{
  is_lower_alnum, spend_limit_valid, chain_id_writable, is_testnet_chain_id,
}
use gno_mcp.Profiles.Profile.{Profile, is_local, is_read_only, effective_defaults, hard_limits}
use gno_mcp.Profiles.Config.{plain}
use gno_mcp.Profiles.Safety.{IsSafe}
use gno_mcp.Session.Coins.{parse_coins, clamp_coin}
use gno_mcp.Session.Scope.{
  Scope, ScopeArgs, resolve_scope, requested_scope, clamped_scope, clamp_spend, clamp_expiry,
  clamp_paths, spend_limit_covers_fee, chosen_limit, chosen_expiry, validate_allow_paths,
  validate_allow_path,
}
use gno_mcp.Session.Gnokey.{create_flags}
use gno_mcp.Session.Gnokey.Safety.{IsSafeFlag, create_flags-safe}

abbrev no_duration : Bytes → Option ℤ
no_duration s = none

abbrev realm_path : Bytes → Bool
realm_path p = has_prefix p (codes "gno.land/r/")

abbrev testnet : Profile
testnet = plain (codes "https://rpc.onyx.testnets.gno.land:443") (codes "onyx-1")

abbrev blog_args : ScopeArgs
blog_args = record {
  spend_limit = codes "5000000ugnot";
  expires_in = [];
  allow_paths = codes "gno.land/r/me/blog" ∷ [];
  allow_run = true;
}

abbrev blog_scope : Scope
blog_scope = record {
  spend_limit = codes "5000000ugnot";
  spend_period = pos 3600000000000;
  expires_in = pos 3600000000000;
  allow_paths = codes "gno.land/r/me/blog" ∷ [];
  allow_run = true;
}

resolve_scope-blog :
    resolve_scope no_duration realm_path blog_args testnet (pos 20000) ≡ ok (blog_scope, [])
unfolding resolve_scope requested_scope clamped_scope clamp_spend clamp_expiry clamp_paths
    spend_limit_covers_fee chosen_limit chosen_expiry validate_allow_paths validate_allow_path
    effective_defaults hard_limits is_local spend_limit_valid clamp_coin parse_coins prefix_of
    rest_of all_chars parse_int value_from eqb has_prefix
resolve_scope-blog = refl

testnet-IsSafe : IsSafe testnet
unfolding all_chars is_read_only chain_id_writable is_testnet_chain_id has_prefix eqb
testnet-IsSafe = record {
  rpc_url_safe = refl;
  chain_id_safe = refl;
  chain_id_begins = refl;
  no_master = λ h. refl;
  no_faucet = λ h. refl;
  no_faucet_service = λ h. refl;
}

pubkey-bech32 : all_chars is_lower_alnum (codes "gpub1pgfj7ard9") ≡ true
unfolding all_chars
pubkey-bech32 = refl

create_flags-safe_example :
    All IsSafeFlag (create_flags testnet (codes "gpub1pgfj7ard9") blog_scope (pos 20000) (pos 0))
create_flags-safe_example =
    create_flags-safe testnet testnet-IsSafe (codes "gpub1pgfj7ard9") pubkey-bech32 (pos 20000)
      no_duration realm_path blog_args (pos 20000) blog_scope [] (pos 0) resolve_scope-blog
