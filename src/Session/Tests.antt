-- ===== src/Session/Tests.antt =====
-- Scopes and sessions at concrete requests, and the theorems about them.
use gno_mcp.Prelude.{
  ℕ, ◌≡◌, ◌↔◌, refl, Bytes, codes, eqb, has_prefix, is_empty, prefix_of, rest_of, all_chars,
  parse_int, value_from, Bool, true, false, Option, none, some, List, [], ◌∷◌, arith,
}
use gno_mcp.Prelude.Int.{ℤ, pos, ◌≤ℤ◌}
use gno_mcp.Prelude.Map.{lookup}
use gno_mcp.Prelude.Result.{ok, err}
use gno_mcp.Profiles.Formats.{spend_limit_valid}
use gno_mcp.Profiles.Profile.{Profile, effective_defaults, hard_limits, is_local}
use gno_mcp.Profiles.Config.{plain}
use gno_mcp.Session.Coins.{parse_coins, clamp_coin}
use gno_mcp.Session.Scope.{
  Scope, ScopeArgs, clamped_spend, resolve_scope, requested_scope, clamped_scope, clamp_spend,
  clamp_expiry, clamp_paths, spend_limit_covers_fee, chosen_limit, chosen_expiry,
  validate_allow_paths, validate_allow_path,
}
use gno_mcp.Session.Scope.Limits.{IsGranted, resolve_scope-IsGranted, resolve_scope-unwarned}
use gno_mcp.Session.Manager.{
  State, active, SessionMeta, SessionState, QueryAnswer, failed, Sessions, pick_session,
  promote_all, promote, is_usable, is_zero_spend, candidates, picked, newest, matches_realm,
  covers_realm, no_active_session,
}
use gno_mcp.Session.Manager.Operations.{hydrate}
use gno_mcp.Session.Manager.Pick.{
  Offered, first, later, NoPaths, pick_session-best, pick_session-no_active,
}
use gno_mcp.Session.Manager.Spend.{HasLeft, charge_all, charge_all-HasLeft}
use gno_mcp.Session.Manager.Lifecycle.{Moves, Stored, Settles, pick_session-Moves, hydrate-Settles}
use gno_mcp.Session.Manager.Lifecycle

abbrev no_duration : Bytes → Option ℤ
no_duration s = none

abbrev realm_path : Bytes → Bool
realm_path p = has_prefix p (codes "gno.land/r/")

abbrev testnet : Profile
testnet = plain (codes "https://rpc.onyx.testnets.gno.land:443") (codes "onyx-1")

abbrev blog : Bytes
blog = codes "gno.land/r/me/blog"

abbrev greedy : ScopeArgs
greedy = record {
  spend_limit = codes "900000000ugnot";
  expires_in = [];
  allow_paths = blog ∷ [];
  allow_run = false;
}

abbrev granted : Scope
granted = record {
  spend_limit = codes "100000000ugnot";
  spend_period = pos 3600000000000;
  expires_in = pos 3600000000000;
  allow_paths = blog ∷ [];
  allow_run = false;
}

resolve_scope-greedy :
    resolve_scope no_duration realm_path greedy testnet (pos 20000)
    ≡ ok (granted, clamped_spend (codes "900000000ugnot") ∷ [])
unfolding resolve_scope requested_scope clamped_scope clamp_spend clamp_expiry clamp_paths
    spend_limit_covers_fee chosen_limit chosen_expiry validate_allow_paths validate_allow_path
    effective_defaults hard_limits is_local spend_limit_valid clamp_coin parse_coins prefix_of
    rest_of all_chars parse_int value_from eqb has_prefix
resolve_scope-greedy = refl

resolve_scope-IsGranted_example : IsGranted realm_path testnet (pos 20000) granted
resolve_scope-IsGranted_example =
    resolve_scope-IsGranted no_duration realm_path greedy testnet (pos 20000) granted
      (clamped_spend (codes "900000000ugnot") ∷ []) resolve_scope-greedy

abbrev modest : ScopeArgs
modest = record greedy { spend_limit = codes "100000000ugnot" }

resolve_scope-modest :
    resolve_scope no_duration realm_path modest testnet (pos 20000) ≡ ok (granted, [])
unfolding resolve_scope requested_scope clamped_scope clamp_spend clamp_expiry clamp_paths
    spend_limit_covers_fee chosen_limit chosen_expiry validate_allow_paths validate_allow_path
    effective_defaults hard_limits is_local spend_limit_valid clamp_coin parse_coins prefix_of
    rest_of all_chars parse_int value_from eqb has_prefix
resolve_scope-modest = refl

resolve_scope-unwarned_example :
    (granted.allow_paths ≡ modest.allow_paths)
    × (granted.allow_run ≡ modest.allow_run)
    × (is_empty modest.spend_limit ≡ false → granted.spend_limit ≡ modest.spend_limit)
    × (is_empty modest.expires_in ≡ false → no_duration modest.expires_in ≡ some granted.expires_in)
resolve_scope-unwarned_example =
    resolve_scope-unwarned no_duration realm_path modest testnet (pos 20000) granted
      resolve_scope-modest

abbrev meta_of : Bytes → Bool → List Bytes → State → SessionMeta
meta_of addr may_run paths st = record {
  session_address = addr;
  session_pubkey = codes "gpub1";
  master_address = codes "g1master";
  privkey = [];
  encrypted = false;
  allow_paths = paths;
  allow_run = may_run;
  spend_limit = codes "5000ugnot";
  spend_remaining = codes "5000ugnot";
  expires_at = pos 2000;
  created_at = pos 1000;
  state = st;
}

abbrev old : SessionMeta
old = meta_of (codes "g1old") false (blog ∷ []) active

abbrev runner : SessionMeta
runner = meta_of (codes "g1runner") true [] active

abbrev sessions : Sessions
sessions = (codes "g1old", record { state = active; meta = old }) ∷ []

abbrev silent : Bytes → Bytes → QueryAnswer
silent master addr = failed

old_may_sign : Offered (matches_realm blog) (pos 1500) old (promote_all silent sessions)
unfolding promote_all promote is_usable is_zero_spend parse_coins prefix_of rest_of parse_int
    value_from covers_realm eqb
old_may_sign =
    first
      (record {
        is_running = refl;
        in_time = λ h. omega arith;
        has_budget = λ n denom e. ground (arith, e);
        fits = refl;
      })
      refl

pick_session-old : (pick_session (matches_realm blog) silent (pos 1500) sessions).0 ≡ ok old
unfolding pick_session promote_all promote candidates is_usable is_zero_spend parse_coins prefix_of
    rest_of parse_int value_from covers_realm eqb picked newest
pick_session-old = refl

pick_session-best_example :
    Offered (matches_realm blog) (pos 1500) old (promote_all silent sessions)
    × ((other : SessionMeta)
        → Offered (matches_realm blog) (pos 1500) other (promote_all silent sessions)
        → other.created_at ≤ℤ pos 1000)
pick_session-best_example =
    pick_session-best (matches_realm blog) (pos 1500) silent sessions old pick_session-old

-- One session that may run scripts, and nothing else.
abbrev run_only : Sessions
run_only = (codes "g1runner", record { state = active; meta = runner }) ∷ []

nobody_signs :
    (meta : SessionMeta)
    → ¬ Offered (matches_realm blog) (pos 1500) meta (promote_all silent run_only)
unfolding promote_all promote covers_realm
nobody_signs meta (first may same) = absurd (ground (arith, may.fits))
nobody_signs meta (later h) = elim h [ ]

pick_session-no_active_example :
    ((pick_session (matches_realm blog) silent (pos 1500) run_only).0 ≡ err no_active_session)
    ↔ NoPaths (matches_realm blog) (pos 1500) (promote_all silent run_only)
pick_session-no_active_example =
    pick_session-no_active (matches_realm blog) (pos 1500) silent run_only nobody_signs

pick_session-Moves_example :
    (ss' : SessionState) × (lookup
        (codes "g1old")
        (pick_session (matches_realm blog) silent (pos 3000) sessions).1
      ≡ some ss')
    × Moves active ss'.state
pick_session-Moves_example =
    pick_session-Moves (matches_realm blog) silent (pos 3000) sessions (codes "g1old")
      (record { state = active; meta = old }) (unfold lookup eqb in refl)

old_left : HasLeft (codes "g1old") sessions 5000 b'u' (codes "gnot")
unfolding lookup eqb parse_coins prefix_of rest_of parse_int value_from
old_left = record {
  session = record { state = active; meta = old };
  found = refl;
  is_running = refl;
  left = refl;
}

abbrev two_fees : List (Bool × ℕ)
two_fees = (true, 3000) ∷ (false, 4000) ∷ []

charge_all-HasLeft_example :
    HasLeft (codes "g1old") (charge_all (codes "g1old") two_fees sessions) 0 b'u' (codes "gnot")
charge_all-HasLeft_example =
    charge_all-HasLeft (codes "g1old") b'u' (codes "gnot") refl two_fees sessions 5000 (omega arith)
      (omega arith) old_left

hydrate-Settles_example :
    Settles failed old (lookup (codes "g1old") (hydrate silent (runner ∷ old ∷ []) []))
hydrate-Settles_example =
    hydrate-Settles silent (runner ∷ old ∷ []) old (unfold eqb in ((refl, tt), (tt, tt)))
      (Lifecycle.there Lifecycle.here)
