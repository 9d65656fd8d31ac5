-- ===== src/Tools/Identity.antt =====
-- internal/tools/write/identity.go: the agent's signer of a write, and the check that its account
-- holds coins.
use gno_mcp.Prelude.{Bytes, List, ◌==◌, Bool, false, not, ◌&&◌, Option, none, some, if◌then◌else◌}
use gno_mcp.Prelude.Int.{ℤ, pos, negsuc}
use gno_mcp.Prelude.Result.{Result, ok, err}
use gno_mcp.Secret.{Cipher}
use gno_mcp.Files.{Root}
use gno_mcp.Profiles.Profile.{Profile, is_testnet}
use gno_mcp.Session.Manager.{PickError}
use gno_mcp.Keystore.{Wallet, KeyError, no_agent_key, no_key_dir, Keystore, Io}
use gno_mcp.Keystore.Operations.{signer_for_profile}

-- an error of a chain operation: chain.ErrSimulateUnsupported, or another one with its text
pub data OpError : Type 0 where
  op_unsupported : OpError
  op_failed : Bytes → OpError

-- the errors of a write: the ToolErrors by their codes, and the wrapped errors
pub data WriteError : Type 0 where
  agent_identity_unavailable key_storage_unconfigured insufficient_funds : WriteError
  key_ignored_for_session simulate_unsupported authentication_required : WriteError
  scope_not_covered : List Bytes → WriteError
  signer_failed : KeyError → WriteError
  signer_info_failed balance_check_failed unknown_identity : WriteError
  precheck_refused : Bytes → WriteError
  pick_failed : PickError → WriteError
  broadcast_failed simulate_failed : OpError → WriteError

-- agentKeyToolError
unfoldable pub agent_key_tool_error : KeyError → Option WriteError
agent_key_tool_error e = elim e [
  | no_agent_key ↦ some agent_identity_unavailable
  | no_key_dir ↦ some key_storage_unconfigured
  | other ↦ none
]

abbrev pub or_wrapped : Option WriteError → WriteError → WriteError
or_wrapped (some e) d = e
or_wrapped none d = d

module _ (w : Wallet) (c : Cipher) (k : Keystore) (io : Io) (root : Root) where
  -- agentSigner, behind SignerForProfile
  abbrev pub signer_info : Result KeyError w.Signer → Result WriteError (w.Signer × Bytes)
  signer_info (err e) = err (or_wrapped (agent_key_tool_error e) (signer_failed e))
  signer_info (ok s) = elim (w.info_address s) [
    | none ↦ err signer_info_failed
    | some addr ↦ ok (s, addr)
  ]

  -- agentSigner
  unfoldable pub agent_signer : Bytes → Bytes → Profile → Result WriteError (w.Signer × Bytes)
  unfolding agent_key_tool_error signer_for_profile
  agent_signer profile_name key_name p =
      signer_info (signer_for_profile w c k io profile_name key_name p root)

abbrev pub is_zero : ℤ → Bool
is_zero (pos n) = n == 0
is_zero (negsuc n) = false

-- requireFunded, for the answer of the balance query
abbrev pub enough_funds : Option ℤ → Result WriteError (Unit {0})
enough_funds none = err balance_check_failed
enough_funds (some b) = if is_zero b then err insufficient_funds else ok tt

-- whether requireFunded asks for the balance
unfoldable pub asks_balance : Profile → Bool → Bool
unfolding is_testnet
asks_balance p simulate = is_testnet p && not simulate

-- requireFunded
unfoldable pub require_funded :
    (Bytes → Option ℤ) → Bytes → Profile → Bool → Result WriteError (Unit {0})
unfolding asks_balance
require_funded balance addr p simulate =
    if asks_balance p simulate then enough_funds (balance addr) else ok tt
