-- ===== src/Tools/Tests.antt =====
-- A write under the blog's session, and the theorems about the dispatcher.
use gno_mcp.Prelude.{
  ◌≡◌, refl, Bytes, codes, eqb, true, false, none, some, [], ◌∷◌, All, arith, prefix_of, rest_of,
  all_chars, parse_int, value_from,
}
use gno_mcp.Prelude.Int.{pos}
use gno_mcp.Prelude.Map.{lookup}
use gno_mcp.Prelude.Result.{Result, ok}
use gno_mcp.Secret.Tests.{toy_cipher}
use gno_mcp.Session.Coins.{parse_coins}
use gno_mcp.Session.Store.Tests.{blog_session}
use gno_mcp.Session.Manager.{active, SessionMeta, failed, Sessions, PickError}
use gno_mcp.Session.Manager.Spend.{HasLeft}
use gno_mcp.Session.Manager.Operations.{master_report}
use gno_mcp.Keystore.Tests.{toy_wallet, store, no_fault, onyx, testing, after_alice}
use gno_mcp.Tools.Identity.{authentication_required}
use gno_mcp.Tools.Dispatch.{WriteTx, dispatch_write_tx}
use gno_mcp.Tools.Outcome.{
  IsAllowed, MapsPickErrors, audit_of, dispatch_write_tx-audit, dispatch_write_tx-Allowed,
  dispatch_write_tx-HasLeft,
}

abbrev one_session : Sessions
one_session = (codes "g1s", record { state = active; meta = blog_session }) ∷ []

abbrev picks_blog : Sessions → Result PickError SessionMeta × Sessions
picks_blog m = (ok blog_session, m)

abbrev call_tx : WriteTx Bytes
call_tx = record {
  profile_name = testing;
  key_name = [];
  profile = onyx;
  simulate = false;
  balance = λ addr. some (pos 5);
  pick = picks_blog;
  map_pick_err = λ e. some authentication_required;
  agent_op = λ signer. ok tt;
  session_op = λ addr master. ok (pos 15);
  precheck = none;
  query_session = λ master addr. failed;
  persist = true;
}

call_tx-maps : MapsPickErrors toy_wallet call_tx toy_cipher store no_fault after_alice
call_tx-maps e = refl

dispatch_write_tx-audit_example :
    (dispatch_write_tx toy_wallet call_tx toy_cipher store no_fault after_alice
      (codes "session")
      one_session).audit_result
    ≡ audit_of false
        (dispatch_write_tx toy_wallet call_tx toy_cipher store no_fault after_alice
          (codes "session")
          one_session).result
dispatch_write_tx-audit_example =
    dispatch_write_tx-audit toy_wallet call_tx toy_cipher store no_fault after_alice call_tx-maps
      (codes "session") one_session

dispatch_write_tx-Allowed_example :
    All
      (IsAllowed toy_wallet call_tx toy_cipher store no_fault after_alice one_session)
      (dispatch_write_tx toy_wallet call_tx toy_cipher store no_fault after_alice
        (codes "session")
        one_session).effects
dispatch_write_tx-Allowed_example =
    dispatch_write_tx-Allowed toy_wallet call_tx toy_cipher store no_fault after_alice
      (codes "session") one_session

one_session-HasLeft : HasLeft (codes "g1s") one_session 40 b'u' (codes "gnot")
unfolding lookup eqb parse_coins prefix_of rest_of all_chars parse_int value_from
one_session-HasLeft = record {
  session = record { state = active; meta = blog_session };
  found = refl;
  is_running = refl;
  left = refl;
}

silent : master_report call_tx.query_session (codes "g1s") (lookup (codes "g1s") one_session) ≡ none
unfolding lookup eqb
silent = refl

dispatch_write_tx-HasLeft_example :
    HasLeft
      (codes "g1s")
      (dispatch_write_tx toy_wallet call_tx toy_cipher store no_fault after_alice
        (codes "session")
        one_session).sessions
      25
      b'u'
      (codes "gnot")
dispatch_write_tx-HasLeft_example =
    dispatch_write_tx-HasLeft toy_wallet call_tx toy_cipher store no_fault after_alice one_session
      blog_session 40 15 b'u' (codes "gnot") refl refl refl refl refl silent refl (omega arith)
      (omega arith) one_session-HasLeft
