-- ===== src/Tools/Propose.antt =====
-- internal/tools/write/session_propose.go, with the profile argument of internal/tools/write/args.go:
-- the proposal of a session. The toolchain's bech32 parser is `is_address`, the live fee of the
-- chain `fee` (none where the query fails), and the drawing of a key pair `drawn`.
pub mod Reads
pub mod Granted
mod Tests
use gno_mcp.Prelude.{
  Bytes, codes, is_empty, Bool, true, false, not, ◌&&◌, ◌||◌, Option, none, some, List, [], ◌∷◌,
  if◌then◌else◌, ◌==◌,
}
use gno_mcp.Prelude.Int.{ℤ}
use gno_mcp.Prelude.Map.{Map, lookup}
use gno_mcp.Prelude.Result.{Result, ok, err, guard, ◌>>=◌, ◌>>◌}
use gno_mcp.Profiles.Profile.{Profile, is_read_only}
use gno_mcp.Server.Args.{Args, ArgError, string_arg, bool_arg, string_slice_arg}
use gno_mcp.Session.Scope.{Scope, ScopeArgs, ScopeError, Warning, resolve_scope}
use gno_mcp.Session.Manager.{Sessions, SessionMeta, ManagerError}
use gno_mcp.Session.Manager.Operations.{Keypair, add_pending}
use gno_mcp.Session.Gnokey.{format_gnokey_create_command}

pub data ProposeError : Type 0 where
  bad_arg : ArgError → ProposeError
  profile_required profile_not_found chain_read_only : ProposeError
  looks_like_seed_phrase invalid_master_address no_master_address : ProposeError
  no_chain_client fee_unknown no_keypair : ProposeError
  bad_scope : ScopeError → ProposeError
  pending_not_persisted : ManagerError → ProposeError

abbrev pub of_arg {ℓ} : {A : Type ℓ} → Result ArgError A → Result ProposeError A
of_arg (ok a) = ok a
of_arg (err e) = err (bad_arg e)

abbrev pub of_scope {ℓ} : {A : Type ℓ} → Result ScopeError A → Result ProposeError A
of_scope (ok a) = ok a
of_scope (err e) = err (bad_scope e)

abbrev pub found_or {ℓ} : {A : Type ℓ} → Option A → ProposeError → Result ProposeError A
found_or none e = err e
found_or (some a) e = ok a

-- requireProfile
unfoldable pub require_profile : Map Profile → Args → Result ProposeError (Bytes × Profile)
unfolding string_arg lookup
require_profile config args = of_arg (string_arg args (codes "profile")) >>= λ name.
    guard (not (is_empty name)) profile_required
    >> found_or (lookup name config) profile_not_found
    >>= λ p. ok (name, p)

-- strings.ContainsAny(s, " \t\r\n")
unfoldable pub has_blank : Bytes → Bool
has_blank [] = false
has_blank (c ∷ s) = c == 32 || c == 9 || c == 13 || c == 10 || has_blank s

-- validateUserMasterAddress
unfoldable pub validate_user_master_address :
    (Bytes → Bool) → Bytes → Result ProposeError (Unit {0})
unfolding has_blank
validate_user_master_address is_address s =
    guard (not (has_blank s)) looks_like_seed_phrase >> guard (is_address s) invalid_master_address

-- the master account of the session
unfoldable pub chosen_master : (Bytes → Bool) → Profile → Bytes → Result ProposeError Bytes
unfolding validate_user_master_address
chosen_master is_address p user =
    (if is_empty user
      then ok p.master_address
      else (validate_user_master_address is_address user >> ok user))
    >>= λ master. guard (not (is_empty master)) no_master_address >> ok master

-- what a proposal comes to
pub record Proposal : Type 0 where
  pub profile_name : Bytes
  pub master : Bytes
  pub scope : Scope
  pub warnings : List Warning
  pub auth_command : Bytes

-- sessionProposeHandler: the profile, which must be one that can be written to
unfoldable pub eligible_profile : Map Profile → Args → Result ProposeError (Bytes × Profile)
unfolding require_profile is_read_only
eligible_profile config args = require_profile config args >>= λ (name, p).
    guard (not (is_read_only p)) chain_read_only >> ok (name, p)

-- sessionProposeHandler: its other arguments
unfoldable pub scope_arguments : Args → Result ProposeError (ScopeArgs × Bytes)
unfolding string_slice_arg bool_arg string_arg
scope_arguments args = do
  allow_paths ← of_arg (string_slice_arg args (codes "allow_paths"))
  allow_run ← of_arg (bool_arg args (codes "allow_run"))
  spend_limit ← of_arg (string_arg args (codes "spend_limit"))
  expires_in ← of_arg (string_arg args (codes "expires_in"))
  user_master ← of_arg (string_arg args (codes "master_address"))
  ok (
    record {
      spend_limit = spend_limit;
      expires_in = expires_in;
      allow_paths = allow_paths;
      allow_run = allow_run;
    },
    user_master,
  )

-- sessionProposeHandler, up to AddPending: what it has established for the key pair that it draws
pub record PreparedProposal : Type 0 where
  pub profile_name : Bytes
  pub profile : Profile
  pub master : Bytes
  pub fee : ℤ
  pub scope : Scope
  pub warnings : List Warning
  pub keypair : Keypair

-- the answer, with the command of FormatGnokeyCreateCommand
unfoldable pub proposal : ℤ → PreparedProposal → Proposal
unfolding format_gnokey_create_command
proposal now r = record {
  profile_name = r.profile_name;
  master = r.master;
  scope = r.scope;
  warnings = r.warnings;
  auth_command = format_gnokey_create_command r.profile r.keypair.pubkey_bech32 r.scope r.fee now;
}

-- sessionProposeHandler, once AddPending has answered
abbrev pub added :
    ℤ
    → PreparedProposal
    → Result ManagerError SessionMeta × Sessions
    → Result ProposeError Proposal × Sessions
added now r (err e, m') = (err (pending_not_persisted e), m')
added now r (ok meta, m') = (ok (proposal now r), m')

-- sessionProposeHandler, from AddPending on
abbrev pub add_proposal :
    Bool
    → ℤ
    → Sessions
    → Result ProposeError PreparedProposal
    → Result ProposeError Proposal × Sessions
add_proposal persist now m (err e) = (err e, m)
add_proposal persist now m (ok r) =
    added now r (add_pending persist r.keypair r.scope r.master now m)

module _ (parse_duration : Bytes → Option ℤ) (is_realm_path is_address : Bytes → Bool)
    (config : Map Profile) (has_client : Bool) (fee : Option ℤ) (drawn : Option Keypair) where
  unfoldable pub prepared : Args → Result ProposeError PreparedProposal
  unfolding eligible_profile scope_arguments chosen_master resolve_scope
  prepared args = do
    (name, p) ← eligible_profile config args
    (scope_args, user_master) ← scope_arguments args
    master ← chosen_master is_address p user_master
    guard has_client no_chain_client
    live ← found_or fee fee_unknown
    (scope, warnings) ← of_scope (resolve_scope parse_duration is_realm_path scope_args p live)
    kp ← found_or drawn no_keypair
    ok (record {
      profile_name = name;
      profile = p;
      master = master;
      fee = live;
      scope = scope;
      warnings = warnings;
      keypair = kp;
    })

  -- sessionProposeHandler: the proposal, and the sessions that it leaves
  unfoldable pub propose : Bool → ℤ → Args → Sessions → Result ProposeError Proposal × Sessions
  unfolding prepared add_pending proposal
  propose persist now args m = add_proposal persist now m (prepared args)
