-- ===== src/Session/Manager/Operations.antt =====
-- internal/session/manager.go: the methods of the manager that add, charge, settle and mark a
-- session, and Hydrate, which loads what the store holds. A time is in nanoseconds after the epoch.
use gno_mcp.Prelude.{
  ℕ, ◌/◌, Bytes, is_empty, Bool, true, false, not, ◌&&◌, Option, none, some, List, [], ◌∷◌, ◌++◌,
  if◌then◌else◌,
}
use gno_mcp.Prelude.Int.{ℤ, pos, negsuc, ltb_ℤ, sub64, ◌+ℤ◌}
use gno_mcp.Prelude.Map.{lookup, insert}
use gno_mcp.Prelude.Result.{Result, ok, err}
use gno_mcp.Session.Coins.{parse_coins, format_int64}
use gno_mcp.Session.Scope.{Scope}
use gno_mcp.Session.Manager.{
  State, pending, active, is_active, SessionMeta, SessionStatus, SessionState, apply_status,
  QueryAnswer, answered, no_client, unsupported, failed, ChainCheck, unresolved, unknown, inactive,
  confirmed, query_chain, Sessions, ManagerError, not_found, not_active, bad_remaining,
  not_persisted,
}

abbrev pub Done : Type 0
Done = Result ManagerError (Unit {0})

abbrev pub persisted : Bool → Done
persisted true = ok tt
persisted false = err not_persisted

-- (time.Time).Unix: whole seconds, rounded down
abbrev pub unix : ℤ → ℤ
unix (pos ns) = pos (ns / 1000000000)
unix (negsuc ns) = negsuc (ns / 1000000000)

-- Keypair, as far as AddPending reads it
pub record Keypair : Type 0 where
  pub address : Bytes
  pub pubkey_bech32 : Bytes
  pub priv : Bytes

-- the meta that AddPending builds
abbrev pub pending_meta : Keypair → Scope → Bytes → ℤ → SessionMeta
pending_meta kp scope master now = record {
  session_address = kp.address;
  session_pubkey = kp.pubkey_bech32;
  master_address = master;
  privkey = kp.priv;
  encrypted = false;
  allow_paths = scope.allow_paths;
  allow_run = scope.allow_run;
  spend_limit = scope.spend_limit;
  spend_remaining = scope.spend_limit;
  expires_at = unix (now +ℤ scope.expires_in);
  created_at = unix now;
  state = pending;
}

-- insertStateLocked
abbrev pub insert_state : SessionMeta → State → Sessions → Sessions
insert_state meta st m = insert meta.session_address (record { state = st; meta = meta }) m

-- AddPending
unfoldable pub add_pending :
    Bool → Keypair → Scope → Bytes → ℤ → Sessions → Result ManagerError SessionMeta × Sessions
add_pending persist kp scope master now m =
    let meta = pending_meta kp scope master now in
    if persist then (ok meta, insert_state meta pending m) else (err not_persisted, m)

-- Each of the following changes the session in memory, also where it cannot be persisted.
abbrev pub changed : Bool → Bytes → SessionState → Sessions → Done × Sessions
changed persist addr ss m = (persisted persist, insert addr ss m)

-- UpdateSpend, behind the parse of SpendRemaining
abbrev pub charged :
    Bool → Bytes → ℤ → SessionState → Option (ℕ × Bytes) → Sessions → Done × Sessions
charged persist addr gas_used ss none m = (err bad_remaining, m)
charged persist addr gas_used ss (some (remaining, denom)) m =
    let left = sub64 (pos remaining) gas_used in
    let kept = if ltb_ℤ left (pos 0) then pos 0 else left in
    changed persist addr
      (record {
        state = ss.state;
        meta = record ss.meta { spend_remaining = format_int64 kept ++ denom };
      })
      m

-- UpdateSpend, behind the lookup
abbrev pub update_found : Bool → Bytes → ℤ → Option SessionState → Sessions → Done × Sessions
update_found persist addr gas_used none m = (err not_found, m)
update_found persist addr gas_used (some ss) m =
    if is_active ss.state
    then charged persist addr gas_used ss (parse_coins ss.meta.spend_remaining) m
    else (err not_active, m)

-- UpdateSpend
unfoldable pub update_spend : Bool → Bytes → ℤ → Sessions → Done × Sessions
unfolding parse_coins lookup insert
update_spend persist addr gas_used m = update_found persist addr gas_used (lookup addr m) m

-- setSpendRemaining
abbrev pub set_found : Bool → Bytes → Bytes → Option SessionState → Sessions → Done × Sessions
set_found persist addr remaining none m = (err not_found, m)
set_found persist addr remaining (some ss) m =
    changed persist addr
      (record { state = ss.state; meta = record ss.meta { spend_remaining = remaining } }) m

unfoldable pub set_spend_remaining : Bool → Bytes → Bytes → Sessions → Done × Sessions
set_spend_remaining persist addr remaining m = set_found persist addr remaining (lookup addr m) m

-- the chain's record of the budget left, where it reports an active session
abbrev pub reported : QueryAnswer → Option Bytes
reported (answered st) =
    if st.is_active_on_chain && not (is_empty st.spend_remaining)
    then some st.spend_remaining
    else none
reported no_client = none
reported unsupported = none
reported failed = none

-- the record that SettleSpend asks for, where the session has a master
abbrev pub master_report :
    (Bytes → Bytes → QueryAnswer) → Bytes → Option SessionState → Option Bytes
master_report ask addr none = none
master_report ask addr (some ss) =
    if is_empty ss.meta.master_address then none else reported (ask ss.meta.master_address addr)

-- SettleSpend
unfoldable pub settle_spend :
    (Bytes → Bytes → QueryAnswer) → Bool → Bytes → ℤ → Sessions → Done × Sessions
unfolding update_spend set_spend_remaining
settle_spend ask persist addr fee m = elim (master_report ask addr (lookup addr m)) [
  | none ↦ update_spend persist addr fee m
  | some remaining ↦ set_spend_remaining persist addr remaining m
]

-- MarkActive
abbrev pub mark_found :
    Bool → Bytes → (SessionState → SessionState) → Option SessionState → Sessions → Done × Sessions
mark_found persist addr f none m = (err not_found, m)
mark_found persist addr f (some ss) m = changed persist addr (f ss) m

unfoldable pub mark_active : Bool → Bytes → SessionStatus → Sessions → Done × Sessions
unfolding apply_status
mark_active persist addr status m =
    mark_found persist addr (λ ss. record { state = active; meta = apply_status status ss.meta })
      (lookup addr m) m

-- MarkInactive
unfoldable pub mark_inactive : Bool → Bytes → State → Sessions → Done × Sessions
mark_inactive persist addr st m =
    mark_found persist addr (λ ss. record { state = st; meta = record ss.meta { state = st } })
      (lookup addr m) m

-- Get
abbrev pub get : Bytes → Sessions → Option SessionMeta
get addr m = elim (lookup addr m) [ none ↦ none | some ss ↦ some ss.meta ]

-- one round of Hydrate, by what the chain says
abbrev pub hydrated : ChainCheck → SessionMeta → Sessions → Sessions
hydrated unresolved meta m = insert_state meta meta.state m
hydrated unknown meta m = insert_state meta meta.state m
hydrated inactive meta m = m
hydrated (confirmed st) meta m = insert_state (apply_status st meta) active m

-- Hydrate, over the metas that the store lists
unfoldable pub hydrate : (Bytes → Bytes → QueryAnswer) → List SessionMeta → Sessions → Sessions
unfolding query_chain apply_status
hydrate ask [] m = m
hydrate ask (meta ∷ metas) m =
    let answer = ask meta.master_address meta.session_address in
    hydrate ask metas (hydrated (query_chain meta.master_address answer) meta m)
