-- ===== src/Tools/Revoke.antt =====
-- internal/tools/write/session_revoke.go: the command that revokes a session. What the chain client
-- says of the live fee is `LiveFee`.
pub mod Returns
mod Tests
use gno_mcp.Prelude.{
  Bytes, codes, is_empty, Bool, true, false, not, Option, none, some, ◌++◌, ◌∷◌, [],
}
use gno_mcp.Prelude.Int.{ℤ, pos}
use gno_mcp.Prelude.Map.{Map, lookup}
use gno_mcp.Prelude.Result.{Result, ok, err, guard, ◌>>=◌, ◌>>◌}
use gno_mcp.Profiles.Profile.{Profile}
use gno_mcp.Server.Args.{Args, string_arg}
use gno_mcp.Session.Manager.{Sessions, SessionMeta}
use gno_mcp.Session.Manager.Operations.{get}
use gno_mcp.Session.Gnokey.{format_gnokey_revoke_command}
use gno_mcp.Tools.Propose.{ProposeError, require_profile, of_arg}

pub data RevokeError : Type 0 where
  refused : ProposeError → RevokeError
  address_required session_unmanaged : RevokeError

-- the chain client of the profile, and its answer
pub data LiveFee : Type 0 where
  no_client query_failed : LiveFee
  live : ℤ → LiveFee

pub record Revocation : Type 0 where
  pub session_pubkey : Bytes
  pub revoke_command : Bytes
  pub noted : Bool

abbrev pub of_refused {ℓ} : {A : Type ℓ} → Result ProposeError A → Result RevokeError A
of_refused (ok a) = ok a
of_refused (err e) = err (refused e)

-- sessionRevokeHandler: an unknown fee is 0, which stands for the floor
abbrev pub offered_fee : LiveFee → ℤ
offered_fee no_client = pos 0
offered_fee query_failed = pos 0
offered_fee (live fee) = fee

-- sessionRevokeHandler: feeNote is shown where the query has failed
abbrev pub is_noted : LiveFee → Bool
is_noted no_client = false
is_noted query_failed = true
is_noted (live fee) = false

-- sessionRevokeHandler, for the session that Get has found
unfoldable pub revocation : Profile → LiveFee → Option SessionMeta → Result RevokeError Revocation
unfolding format_gnokey_revoke_command
revocation p fee none = err session_unmanaged
revocation p fee (some meta) = ok (record {
  session_pubkey = meta.session_pubkey;
  revoke_command = format_gnokey_revoke_command p meta.session_pubkey (offered_fee fee);
  noted = is_noted fee;
})

-- sessionRevokeHandler
unfoldable pub session_revoke :
    Map Profile → LiveFee → Args → Sessions → Result RevokeError Revocation
unfolding require_profile string_arg revocation lookup
session_revoke config fee args m = do
  (name, p) ← of_refused (require_profile config args)
  addr ← of_refused (of_arg (string_arg args (codes "session_address")))
  guard (not (is_empty addr)) address_required
  revocation p fee (get addr m)
