-- ===== src/Tools/Outcome.antt =====
-- What a write reports and what it does on the outside, on every path through the dispatcher.
use gno_mcp.Prelude.{
  ℕ, ◌-◌, ◌≤◌, subst, sym, ◌∙◌, is_digit, ◌≡◌, inl, inr, refl, Bytes, codes, eqb, is_empty, Bool,
  true, false, none, if◌then◌else◌, arith, All,
}
use gno_mcp.Prelude.Int.{ℤ, pos, max_int64}
use gno_mcp.Prelude.Result.{Result, ok, err, Result-cases}
use gno_mcp.Secret.{Cipher}
use gno_mcp.Files.{Root}
use gno_mcp.Session.Manager.{SessionMeta, Sessions, PickError}
use gno_mcp.Session.Manager.Operations.{settle_spend, update_spend, master_report}
use gno_mcp.Session.Manager.Spend.{HasLeft, update_spend-HasLeft}
use gno_mcp.Prelude.Map.{lookup}
use gno_mcp.Keystore.{Wallet, Keystore, Io}
use gno_mcp.Keystore.Operations.{signer_for_profile}
use gno_mcp.Tools.Identity.{
  WriteError, broadcast_failed, simulate_failed, or_wrapped, pick_failed, agent_key_tool_error,
  agent_signer, asks_balance, require_funded,
}
use gno_mcp.Tools.Dispatch.{
  WriteTx, AuditResult, tool_err, done_ok, done_sim, broadcast_err, sim_err, Effect, prechecked,
  asked_balance, ran_agent_op, ran_session_op, settled, Signed, Run, tx_error, agent_prechecked,
  session_picked, agent_branch, session_branch, dispatch_write_tx, precheck_answer,
}

-- The audit field says what became of the write.
abbrev pub audit_of : Bool → Result WriteError Signed → AuditResult
audit_of simulate (ok signed) = if simulate then done_sim else done_ok
audit_of simulate (err e) = elim e [
  | broadcast_failed x ↦ broadcast_err
  | simulate_failed x ↦ sim_err
  | other ↦ tool_err
]

-- An outside call that is allowed: an operation runs under an identity that the keystore or the picked
-- session gives, with the precheck passed, and a charge stands for an operation that succeeded.
abbrev pub IsAllowed :
    (w : Wallet) (d : WriteTx w.Signer) → Cipher → Keystore → Io → Root → Sessions → Effect → Type 0
IsAllowed w d c k io root m (prechecked a) = Unit
IsAllowed w d c k io root m (asked_balance a) = Unit
IsAllowed w d c k io root m (ran_agent_op a) =
    ((s : w.Signer) × (agent_signer w c k io root d.profile_name d.key_name d.profile ≡ ok (s, a)))
    × (precheck_answer d.precheck a ≡ none)
    × (require_funded d.balance a d.profile d.simulate ≡ ok tt)
IsAllowed w d c k io root m (ran_session_op a master) =
    (is_empty d.key_name ≡ true)
    × ((meta : SessionMeta) × ((d.pick m).0 ≡ ok meta)
        × (meta.session_address ≡ a)
        × (meta.master_address ≡ master))
    × (precheck_answer d.precheck master ≡ none)
IsAllowed w d c k io root m (settled a fee) =
    (d.simulate ≡ false)
    × ((meta : SessionMeta) × ((d.pick m).0 ≡ ok meta)
        × (meta.session_address ≡ a)
        × (d.session_op a meta.master_address ≡ ok fee))

module _ (w : Wallet) (d : WriteTx w.Signer) (c : Cipher) (k : Keystore) (io : Io)
    (root : Root) where
  -- the handler's own picking errors are no errors of a transaction
  abbrev pub MapsPickErrors : Type 0
  MapsPickErrors =
      (e : PickError)
      → audit_of d.simulate (err (or_wrapped (d.map_pick_err e) (pick_failed e))) ≡ tool_err

  abbrev Audited : Run → Type 0
  Audited r = r.audit_result ≡ audit_of d.simulate r.result

  agent_prechecked-audit :
      (s : w.Signer) (addr : Bytes) (m : Sessions) → Audited (agent_prechecked d s addr m)
  unfolding require_funded tx_error asks_balance
  agent_prechecked-audit s addr m = ground arith

  agent_signer-refused :
      (x : WriteError)
      → agent_signer w c k io root d.profile_name d.key_name d.profile ≡ err x
      → audit_of d.simulate (err x) ≡ tool_err
  unfolding agent_signer agent_key_tool_error
  agent_signer-refused x h =
      elim (Result-cases (signer_for_profile w c k io d.profile_name d.key_name d.profile root)) [
        | inl (s, e) ↦ ground (arith, h, e)
        | inr (y, e) ↦ ground (arith, h, e)
      ]

  agent_branch-audit : (m : Sessions) → Audited (agent_branch w d c k io root m)
  unfolding agent_branch agent_signer agent_key_tool_error
  agent_branch-audit m =
      elim (Result-cases (agent_signer w c k io root d.profile_name d.key_name d.profile)) [
        | inl ((s, addr), e) ↦ ground (arith, e, agent_prechecked-audit s addr m)
        | inr (x, e) ↦ ground (arith, e, agent_signer-refused x e)
      ]

  session_picked-audit :
      MapsPickErrors
      → (r : Result PickError SessionMeta) (m : Sessions) → Audited (session_picked d r m)
  unfolding tx_error
  session_picked-audit maps (err e) m = ground (arith, maps e)
  session_picked-audit maps (ok meta) m = ground arith

  session_branch-audit : MapsPickErrors → (m : Sessions) → Audited (session_branch d m)
  unfolding session_branch
  session_branch-audit maps m = ground (arith, session_picked-audit maps (d.pick m).0 (d.pick m).1)

  -- The audit record of a write tells what became of it: "ok" or "sim" exactly where the write
  -- succeeded, the broadcast or the simulation error exactly where that failed, and else the denial.
  -- Condition: the handler maps a failure to pick a session to an error of its own.
  pub dispatch_write_tx-audit :
      MapsPickErrors
      → (identity : Bytes) (m : Sessions)
      → (dispatch_write_tx w d c k io root identity m).audit_result
        ≡ audit_of d.simulate (dispatch_write_tx w d c k io root identity m).result
  unfolding dispatch_write_tx
  dispatch_write_tx-audit maps identity m =
      ground (arith, agent_branch-audit m, session_branch-audit maps m)

  abbrev Allowed : Sessions → Run → Type 0
  Allowed m r = All (IsAllowed w d c k io root m) r.effects

  agent_prechecked-Allowed :
      (s : w.Signer) (addr : Bytes) (m : Sessions)
      → agent_signer w c k io root d.profile_name d.key_name d.profile ≡ ok (s, addr)
      → Allowed m (agent_prechecked d s addr m)
  unfolding require_funded tx_error
  agent_prechecked-Allowed s addr m h =
      let runs : precheck_answer d.precheck addr ≡ none
          → require_funded d.balance addr d.profile d.simulate ≡ ok tt
          → IsAllowed w d c k io root m (ran_agent_op addr) =
        λ p f. ((s, h), p, f) in
      ground (arith, runs)

  session_picked-Allowed :
      (r : Result PickError SessionMeta) (m m' : Sessions)
      → (d.pick m).0 ≡ r
      → is_empty d.key_name ≡ true
      → Allowed m (session_picked d r m')
  session_picked-Allowed (err e) m m' h key = tt
  session_picked-Allowed (ok meta) m m' h key =
      let runs : precheck_answer d.precheck meta.master_address ≡ none
          → IsAllowed w d c k io root m (ran_session_op meta.session_address meta.master_address) =
        λ p. (key, (meta, h, refl, refl), p) in
      elim (Result-cases (d.session_op meta.session_address meta.master_address)) [
        | inr (x, e) ↦ ground (arith, runs, e)
        | inl (fee, e) ↦
            let settles : d.simulate ≡ false
                → IsAllowed w d c k io root m (settled meta.session_address fee) =
              λ off. (off, (meta, h, refl, e)) in
            ground (arith, runs, settles, e)
      ]

  -- Nothing happens on the outside that is not allowed: an agent's operation runs only with the signer
  -- of the profile's key, past the precheck and the check of the account's coins; a session's operation
  -- runs only where no key was named, for the picked session and its master, past the precheck; and a
  -- session is charged only the fee of its own operation that succeeded and was not simulated.
  pub dispatch_write_tx-Allowed :
      (identity : Bytes) (m : Sessions)
      → All (IsAllowed w d c k io root m) (dispatch_write_tx w d c k io root identity m).effects
  unfolding dispatch_write_tx agent_branch session_branch
  dispatch_write_tx-Allowed identity m =
      elim (Result-cases (agent_signer w c k io root d.profile_name d.key_name d.profile)) [
        | inl ((s, addr), e) ↦ ground (
          arith,
          e,
          agent_prechecked-Allowed s addr m e,
          session_picked-Allowed (d.pick m).0 m (d.pick m).1 refl,
        )
        | inr (x, e) ↦ ground (arith, e, session_picked-Allowed (d.pick m).0 m (d.pick m).1 refl)
      ]

  -- A write under a session that is no simulation, whose operation succeeds with a fee, charges that
  -- session: the sessions that it leaves are those that SettleSpend makes of the picking's.
  session_branch-charged :
      (m : Sessions) (meta : SessionMeta) (fee : ℤ)
      → is_empty d.key_name ≡ true
      → (d.pick m).0 ≡ ok meta
      → precheck_answer d.precheck meta.master_address ≡ none
      → d.session_op meta.session_address meta.master_address ≡ ok fee
      → d.simulate ≡ false
      → (session_branch d m).sessions
        ≡ (settle_spend d.query_session d.persist meta.session_address fee (d.pick m).1).1
  unfolding session_branch
  session_branch-charged m meta fee key picks checked runs real =
      ground (arith, key, picks, checked, runs, real)

  -- A session pays for its writes: where the picked session has `n` of its denomination left, its
  -- operation succeeds for a fee and is no simulation, and the chain does not report the session's own
  -- budget, the write leaves `n` less the fee, and nothing where the fee exceeds it. Conditions: no key
  -- was named, the precheck passes, and the amounts are of int64.
  pub dispatch_write_tx-HasLeft :
      (m : Sessions) (meta : SessionMeta) (n f letter : ℕ) (denom : Bytes)
      → is_empty d.key_name ≡ true
      → (d.pick m).0 ≡ ok meta
      → precheck_answer d.precheck meta.master_address ≡ none
      → d.session_op meta.session_address meta.master_address ≡ ok (pos f)
      → d.simulate ≡ false
      → master_report d.query_session meta.session_address
          (lookup meta.session_address (d.pick m).1)
        ≡ none
      → is_digit letter ≡ false
      → n ≤ max_int64
      → f ≤ max_int64
      → HasLeft meta.session_address (d.pick m).1 n letter denom
      → HasLeft meta.session_address
          (dispatch_write_tx w d c k io root (codes "session") m).sessions
          (n - f)
          letter
          denom
  unfolding dispatch_write_tx settle_spend eqb
  dispatch_write_tx-HasLeft m meta n f letter denom key picks checked runs real silent latin n_fits
        f_fits h =
      let charged = session_branch-charged m meta (pos f) key picks checked runs real in
      let settle : (settle_spend d.query_session d.persist meta.session_address (pos f)
            (d.pick m).1).1
          ≡ (update_spend d.persist meta.session_address (pos f) (d.pick m).1).1 =
        ground (arith, silent) in
      subst (λ x. HasLeft meta.session_address x (n - f) letter denom) (sym (charged ∙ settle))
        (update_spend-HasLeft meta.session_address letter denom latin d.persist (d.pick m).1 n f
          n_fits f_fits h)
