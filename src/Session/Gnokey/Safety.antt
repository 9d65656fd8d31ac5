-- ===== src/Session/Gnokey/Safety.antt =====
-- No argument in a pasted command holds anything that a shell reads as syntax.
use gno_mcp.Prelude.{
  ℕ, ◌≡◌, refl, Bytes, codes, Bool, true, false, Option, List, [], ◌∷◌, ◌++◌, All, All-append,
  arith, all_chars, all_chars-append, all_chars_mono, is_digit, format_int, format_int-all_chars,
  if◌then◌else◌, suc,
}
use gno_mcp.Prelude.Int.{ℤ, pos, negsuc, ltb_ℤ, ◌+ℤ◌}
use gno_mcp.Chain.GasFee.{default_gas_wanted, default_gas_fee_ugnot}
use gno_mcp.Session.Manager.Operations.{unix}
use gno_mcp.Prelude.Result.{ok}
use gno_mcp.Profiles.Formats.{is_lower_alnum}
use gno_mcp.Profiles.Profile.{Profile}
use gno_mcp.Profiles.Shell.{is_shell_safe}
use gno_mcp.Profiles.Safety.{IsSafe}
use gno_mcp.Session.Coins.{format_int64}
use gno_mcp.Session.Scope.{Scope, ScopeArgs, Warning, is_path_char, resolve_scope}
use gno_mcp.Session.Scope.Requested.{IsCleanPath}
use gno_mcp.Session.Scope.Limits.{resolve_scope-IsGranted}
use gno_mcp.Session.Gnokey.{
  Flag, path_flags, run_flags, gas_fee_text, chain_flags, create_flags, revoke_flags,
}

-- the argument of a flag is free of shell syntax
abbrev pub IsSafeFlag : Flag → Type 0
IsSafeFlag (name, value) = all_chars is_shell_safe value ≡ true

path_flags-safe :
    (is_realm_path : Bytes → Bool) (ps : List Bytes)
    → All (IsCleanPath is_realm_path) ps
    → All IsSafeFlag (path_flags ps)
unfolding path_flags all_chars
path_flags-safe is_realm_path [] h = tt
path_flags-safe is_realm_path (p ∷ ps) ((clean, realm), h) = (
  all_chars_mono is_path_char is_shell_safe p (λ c k. ground arith) clean,
  path_flags-safe is_realm_path ps h,
)

run_flags-safe : (b : Bool) → All IsSafeFlag (run_flags b)
unfolding all_chars
run_flags-safe true = (refl, tt)
run_flags-safe false = tt

digits-safe : (n : ℕ) → all_chars is_shell_safe (format_int n) ≡ true
digits-safe n =
    all_chars_mono is_digit is_shell_safe (format_int n) (λ c k. ground arith)
      (format_int-all_chars n)

format_int64-safe : (n : ℤ) → all_chars is_shell_safe (format_int64 n) ≡ true
unfolding all_chars
format_int64-safe (pos n) = digits-safe n
format_int64-safe (negsuc n) = digits-safe (suc n)

abbrev offered : ℤ → ℤ
offered fee = if ltb_ℤ (pos 0) fee then fee else default_gas_fee_ugnot

gas_fee_text-safe : (fee : ℤ) → all_chars is_shell_safe (gas_fee_text fee) ≡ true
unfolding all_chars
gas_fee_text-safe fee =
    rw
      (
        all_chars-append is_shell_safe (format_int64 (offered fee)) (codes "ugnot"),
        format_int64-safe (offered fee),
      )
      refl

module _ (p : Profile) (safe : IsSafe p) (pubkey : Bytes)
    (bech32 : all_chars is_lower_alnum pubkey ≡ true) (fee : ℤ) where
  pubkey-safe : all_chars is_shell_safe pubkey ≡ true
  pubkey-safe = all_chars_mono is_lower_alnum is_shell_safe pubkey (λ c k. ground arith) bech32

  chain_flags-safe : All IsSafeFlag (chain_flags p fee)
  chain_flags-safe = (
    gas_fee_text-safe fee,
    (format_int64-safe default_gas_wanted, (safe.rpc_url_safe, (safe.chain_id_safe, tt))),
  )

  pub revoke_flags-safe : All IsSafeFlag (revoke_flags p pubkey fee)
  unfolding revoke_flags
  revoke_flags-safe = (pubkey-safe, chain_flags-safe)

  -- The command that a human pastes to authorize a session holds no shell syntax in any argument,
  -- whatever scope the agent has asked for: where ResolveScope has granted the scope for a profile whose
  -- fields Validate has passed, and the session's public key is of lower-case letters and digits, as
  -- bech32 is.
  pub create_flags-safe :
      (parse_duration : Bytes → Option ℤ) (is_realm_path : Bytes → Bool) (args : ScopeArgs)
      (floor : ℤ) (scope : Scope) (warnings : List Warning) (now : ℤ)
      → resolve_scope parse_duration is_realm_path args p floor ≡ ok (scope, warnings)
      → All IsSafeFlag (create_flags p pubkey scope fee now)
  unfolding create_flags
  create_flags-safe parse_duration is_realm_path args floor scope warnings now h =
      let granted =
        resolve_scope-IsGranted parse_duration is_realm_path args p floor scope warnings h in
      (
        pubkey-safe,
        All-append IsSafeFlag (path_flags scope.allow_paths ++ run_flags scope.allow_run) _
            (All-append IsSafeFlag (path_flags scope.allow_paths) (run_flags scope.allow_run)
              (path_flags-safe is_realm_path scope.allow_paths granted.clean_paths)
              (run_flags-safe scope.allow_run))
            (
              all_chars_mono is_lower_alnum is_shell_safe scope.spend_limit (λ c k. ground arith)
                  granted.limit_safe,
              (format_int64-safe (unix (now +ℤ scope.expires_in)), chain_flags-safe),
            ),
      )
