-- ===== src/Tools/Revoke/Returns.antt =====
-- A session that gnomcp manages can always be revoked.
use gno_mcp.Prelude.{◌≡◌, refl, Bytes, codes, is_empty, true, false, some, All, all_chars}
use gno_mcp.Prelude.Int.{ℤ}
use gno_mcp.Prelude.Map.{Map, lookup}
use gno_mcp.Prelude.Result.{ok}
use gno_mcp.Profiles.Formats.{is_lower_alnum}
use gno_mcp.Profiles.Profile.{Profile}
use gno_mcp.Profiles.Safety.{IsSafe}
use gno_mcp.Server.Args.{Args, string_arg}
use gno_mcp.Session.Manager.{Sessions, SessionState}
use gno_mcp.Session.Manager.Operations.{get}
use gno_mcp.Session.Gnokey.{command, revoke_flags, format_gnokey_revoke_command}
use gno_mcp.Session.Gnokey.Safety.{IsSafeFlag, revoke_flags-safe}
use gno_mcp.Tools.Propose.{require_profile}
use gno_mcp.Tools.Revoke.{LiveFee, Revocation, offered_fee, is_noted, session_revoke, revocation}

-- What a revocation holds: the session's key, and a command that a shell reads as it is written.
pub record Revokes (p : Profile) (pubkey : Bytes) (r : Revocation) : Type 0 where
  pub of_key : r.session_pubkey ≡ pubkey
  pub fee : ℤ
  pub is_command : r.revoke_command ≡ command (codes "revoke") (revoke_flags p pubkey fee)
  pub safe : All IsSafeFlag (revoke_flags p pubkey fee)

require_profile-ok :
    (config : Map Profile) (args : Args) (name : Bytes) (p : Profile)
    → string_arg args (codes "profile") ≡ ok name
    → is_empty name ≡ false
    → lookup name config ≡ some p
    → require_profile config args ≡ ok (name, p)
unfolding require_profile
require_profile-ok config args name p h1 h2 h3 = rw (h1, h2, h3) refl

module _ (config : Map Profile) (args : Args) (m : Sessions) (name addr : Bytes) (p : Profile)
    (ss : SessionState) where
  session_revoke-found :
      (answer : LiveFee)
      → require_profile config args ≡ ok (name, p)
      → string_arg args (codes "session_address") ≡ ok addr
      → is_empty addr ≡ false
      → lookup addr m ≡ some ss
      → session_revoke config answer args m ≡ revocation p answer (some ss.meta)
  unfolding session_revoke
  session_revoke-found answer h1 h4 h5 h6 = rw (h1, h4, h5, get, h6) refl

  -- session_revoke answers with the command for every session that the manager holds, whatever the chain
  -- client says or fails to say of the fee: where the arguments name a profile of the configuration
  -- and that session. No argument of the command holds shell syntax, where Validate has passed the profile
  -- and the session's public key is of lower-case letters and digits, as bech32 is.
  pub session_revoke-returns :
      (answer : LiveFee)
      → string_arg args (codes "profile") ≡ ok name
      → is_empty name ≡ false
      → lookup name config ≡ some p
      → string_arg args (codes "session_address") ≡ ok addr
      → is_empty addr ≡ false
      → lookup addr m ≡ some ss
      → IsSafe p
      → all_chars is_lower_alnum ss.meta.session_pubkey ≡ true
      → (r : Revocation) × (session_revoke config answer args m ≡ ok r)
        × Revokes p ss.meta.session_pubkey r
  unfolding revocation format_gnokey_revoke_command
  session_revoke-returns answer h1 h2 h3 h4 h5 h6 safe bech32 = (
    record {
      session_pubkey = ss.meta.session_pubkey;
      revoke_command = format_gnokey_revoke_command p ss.meta.session_pubkey (offered_fee answer);
      noted = is_noted answer;
    },
    session_revoke-found answer (require_profile-ok config args name p h1 h2 h3) h4 h5 h6,
    record {
      of_key = refl;
      fee = offered_fee answer;
      is_command = refl;
      safe = revoke_flags-safe p safe ss.meta.session_pubkey bech32 (offered_fee answer);
    },
  )
