-- ===== src/Tools/Revoke/Tests.antt =====
-- The revocation of a session while the chain does not answer, and the theorem about revocations.
use gno_mcp.Prelude.{◌≡◌, refl, codes, eqb, all_chars, has_prefix, [], ◌∷◌}
use gno_mcp.Prelude.Map.{Map, lookup}
use gno_mcp.Prelude.Result.{ok}
use gno_mcp.Profiles.Config.{plain}
use gno_mcp.Profiles.Formats.{chain_id_writable, is_testnet_chain_id}
use gno_mcp.Profiles.Profile.{Profile, is_read_only}
use gno_mcp.Profiles.Safety.{IsSafe}
use gno_mcp.Server.Args.{Args, string_arg, string_value}
use gno_mcp.Session.Manager.{Sessions, SessionState, active}
use gno_mcp.Session.Store.Tests.{blog_session}
use gno_mcp.Tools.Revoke.{Revocation, query_failed, session_revoke}
use gno_mcp.Tools.Revoke.Returns.{Revokes, session_revoke-returns}

abbrev testnet : Profile
testnet = plain (codes "https://rpc.onyx.testnets.gno.land:443") (codes "onyx-1")

testnet-IsSafe : IsSafe testnet
unfolding all_chars is_read_only chain_id_writable is_testnet_chain_id has_prefix eqb
testnet-IsSafe = record {
  rpc_url_safe = refl;
  chain_id_safe = refl;
  chain_id_begins = refl;
  no_master = λ h. refl;
  no_faucet = λ h. refl;
  no_faucet_service = λ h. refl;
}

abbrev networks : Map Profile
networks = (codes "testnet", testnet) ∷ []

abbrev blog_state : SessionState
blog_state = record { state = active; meta = blog_session }

abbrev one_session : Sessions
one_session = (codes "g1s", blog_state) ∷ []

abbrev asked : Args
asked =
    (codes "profile", string_value (codes "testnet"))
    ∷ (codes "session_address", string_value (codes "g1s"))
    ∷ []

session_revoke-returns_example :
    (r : Revocation) × (session_revoke networks query_failed asked one_session ≡ ok r)
    × Revokes testnet blog_session.session_pubkey r
unfolding string_arg lookup eqb all_chars
session_revoke-returns_example =
    session_revoke-returns networks asked one_session (codes "testnet") (codes "g1s") testnet
      blog_state query_failed refl refl refl refl refl refl testnet-IsSafe refl
