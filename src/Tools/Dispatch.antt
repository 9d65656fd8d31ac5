-- ===== src/Tools/Dispatch.antt =====
-- internal/tools/write/dispatch.go: the pipeline of a write, under the agent's or a session's identity.
-- The closures of the handler and the chain are the fields of `WriteTx`. Beside what the code returns
-- and changes, a run records the calls that it makes on the outside, in their order.
use gno_mcp.Prelude.{
  Bytes, codes, eqb, is_empty, Bool, true, false, not, Option, none, some, List, [], ◌∷◌, ◌++◌,
  if◌then◌else◌,
}
use gno_mcp.Prelude.Int.{ℤ}
use gno_mcp.Prelude.Result.{Result, ok, err}
use gno_mcp.Secret.{Cipher}
use gno_mcp.Files.{Root}
use gno_mcp.Profiles.Profile.{Profile}
use gno_mcp.Session.Manager.{SessionMeta, QueryAnswer, Sessions, PickError}
use gno_mcp.Session.Manager.Operations.{settle_spend}
use gno_mcp.Keystore.{Wallet, Keystore, Io}
use gno_mcp.Tools.Identity.{
  OpError, op_unsupported, op_failed, WriteError, key_ignored_for_session, simulate_unsupported,
  unknown_identity, precheck_refused, pick_failed, broadcast_failed, simulate_failed, or_wrapped,
  agent_signer, asks_balance, require_funded,
}

-- writeTxDispatch
pub record WriteTx (Signer : Type 0) : Type 0 where
  pub profile_name : Bytes
  pub key_name : Bytes
  pub profile : Profile
  pub simulate : Bool
  pub balance : Bytes → Option ℤ
  pub pick : Sessions → Result PickError SessionMeta × Sessions
  pub map_pick_err : PickError → Option WriteError
  pub agent_op : Signer → Result OpError (Unit {0})
  pub session_op : Bytes → Bytes → Result OpError ℤ
  pub precheck : Option (Bytes → Option Bytes)
  -- the chain and the disk, as SettleSpend meets them
  pub query_session : Bytes → Bytes → QueryAnswer
  pub persist : Bool

-- the values of the audit field that the dispatcher writes, or the one it found
pub data AuditResult : Type 0 where
  tool_err done_ok done_sim broadcast_err sim_err : AuditResult

-- a call on the outside
pub data Effect : Type 0 where
  prechecked : Bytes → Effect
  asked_balance : Bytes → Effect
  ran_agent_op : Bytes → Effect
  ran_session_op : Bytes → Bytes → Effect
  settled : Bytes → ℤ → Effect

-- the identity, the signer's address and the master
pub record Signed : Type 0 where
  pub as_session : Bool
  pub signer_addr : Bytes
  pub master : Bytes

pub record Run : Type 0 where
  pub result : Result WriteError Signed
  pub audit_result : AuditResult
  pub session_addr : Bytes
  pub sessions : Sessions
  pub effects : List Effect

-- a return with an error that leaves the audit fields alone
abbrev pub refused : WriteError → Bytes → Sessions → List Effect → Run
refused e session_addr m effects = record {
  result = err e;
  audit_result = tool_err;
  session_addr = session_addr;
  sessions = m;
  effects = effects;
}

-- txError
unfoldable pub tx_error : Bool → OpError → WriteError × AuditResult
tx_error simulate e =
    if simulate then (simulate_failed e, sim_err) else (broadcast_failed e, broadcast_err)

-- a return with txError
abbrev pub tx_failed : Bool → OpError → Bytes → Sessions → List Effect → Run
tx_failed simulate e session_addr m effects = record {
  result = err (tx_error simulate e).0;
  audit_result = (tx_error simulate e).1;
  session_addr = session_addr;
  sessions = m;
  effects = effects;
}

-- the end of dispatchWriteTx
abbrev pub succeeded : Bool → Signed → Bytes → Sessions → List Effect → Run
succeeded simulate signed session_addr m effects = record {
  result = ok signed;
  audit_result = if simulate then done_sim else done_ok;
  session_addr = session_addr;
  sessions = m;
  effects = effects;
}

-- the precheck, where there is one: its call and its refusal
abbrev pub precheck_effects : Option (Bytes → Option Bytes) → Bytes → List Effect
precheck_effects none addr = []
precheck_effects (some f) addr = prechecked addr ∷ []

abbrev pub precheck_answer : Option (Bytes → Option Bytes) → Bytes → Option Bytes
precheck_answer none addr = none
precheck_answer (some f) addr = f addr

module _ {Signer : Type 0} (d : WriteTx Signer) where
  -- the agent branch, behind the checks
  abbrev pub agent_operated : Signer → Bytes → Sessions → List Effect → Run
  agent_operated s addr m effects =
      let after = effects ++ (ran_agent_op addr ∷ []) in
      elim (d.agent_op s) [
        | err e ↦ tx_failed d.simulate e [] m after
        | ok u ↦
            succeeded d.simulate (record { as_session = false; signer_addr = addr; master = [] }) []
              m after
      ]

  -- the agent branch, behind the precheck
  abbrev pub agent_funded : Signer → Bytes → Sessions → List Effect → Run
  agent_funded s addr m effects =
      let asked =
        if asks_balance d.profile d.simulate
        then effects ++ (asked_balance addr ∷ [])
        else effects in
      elim (require_funded d.balance addr d.profile d.simulate) [
        | err e ↦ refused e [] m asked
        | ok u ↦ agent_operated s addr m asked
      ]

  -- the agent branch, behind agentSigner
  abbrev pub agent_prechecked : Signer → Bytes → Sessions → Run
  agent_prechecked s addr m =
      let effects = precheck_effects d.precheck addr in
      elim (precheck_answer d.precheck addr) [
        | some e ↦ refused (precheck_refused e) [] m effects
        | none ↦ agent_funded s addr m effects
      ]

  -- the session branch, behind the operation
  abbrev pub session_charged : Bytes → Bytes → ℤ → Sessions → List Effect → Run
  session_charged addr master fee m effects =
      let signed : Signed = record { as_session = true; signer_addr = addr; master = master } in
      if d.simulate
      then succeeded true signed addr m effects
      else succeeded false signed addr (settle_spend d.query_session d.persist addr fee m).1
          (effects ++ (settled addr fee ∷ []))

  -- the session branch, where the operation failed
  abbrev pub session_failed : Bytes → OpError → Sessions → List Effect → Run
  session_failed addr op_unsupported m effects =
      if d.simulate
      then refused simulate_unsupported addr m effects
      else tx_failed false op_unsupported addr m effects
  session_failed addr (op_failed text) m effects =
      tx_failed d.simulate (op_failed text) addr m effects

  -- the session branch, behind the precheck
  abbrev pub session_operated : Bytes → Bytes → Sessions → List Effect → Run
  session_operated addr master m effects =
      let after = effects ++ (ran_session_op addr master ∷ []) in
      elim (d.session_op addr master) [
        | err e ↦ session_failed addr e m after
        | ok fee ↦ session_charged addr master fee m after
      ]

  -- the session branch, behind pickSession
  abbrev pub session_picked : Result PickError SessionMeta → Sessions → Run
  session_picked (err e) m = refused (or_wrapped (d.map_pick_err e) (pick_failed e)) [] m []
  session_picked (ok meta) m =
      let effects = precheck_effects d.precheck meta.master_address in
      elim (precheck_answer d.precheck meta.master_address) [
        | some e ↦ refused (precheck_refused e) meta.session_address m effects
        | none ↦ session_operated meta.session_address meta.master_address m effects
      ]

  -- the session branch
  unfoldable pub session_branch : Sessions → Run
  unfolding settle_spend tx_error
  session_branch m =
      if not (is_empty d.key_name)
      then refused key_ignored_for_session [] m []
      else let (r, m') = d.pick m in session_picked r m'

module _ (w : Wallet) (d : WriteTx w.Signer) (c : Cipher) (k : Keystore) (io : Io)
    (root : Root) where
  -- the agent branch
  unfoldable pub agent_branch : Sessions → Run
  unfolding agent_signer require_funded asks_balance tx_error
  agent_branch m = elim (agent_signer w c k io root d.profile_name d.key_name d.profile) [
    | err e ↦ refused e [] m []
    | ok (signer, addr) ↦ agent_prechecked d signer addr m
  ]

  -- dispatchWriteTx
  unfoldable pub dispatch_write_tx : Bytes → Sessions → Run
  unfolding agent_branch session_branch eqb
  dispatch_write_tx identity_arg m =
      let identity = if is_empty identity_arg then codes "agent" else identity_arg in
      if eqb identity (codes "agent")
      then agent_branch m
      else if eqb identity (codes "session")
      then session_branch d m
      else refused unknown_identity [] m []
