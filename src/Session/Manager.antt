-- ===== src/Session/Manager.antt =====
-- internal/session/manager.go, internal/session/errors.go and internal/session/chain_check.go: the
-- manager of sessions, for one profile. IO comes in as arguments: `ask` is what the chain answers for
-- a session, and `persist` whether Store.Write succeeds. pickSession takes the lock once for each
-- pending session and once to pick; it is modelled with no other method in between. Maps are visited
-- in the order of their entries; of the newest candidates, which `sort.Slice` may order in any way,
-- the first is taken.
pub mod Operations
pub mod Pick
pub mod Spend
pub mod Lifecycle
use gno_mcp.Prelude.{
  ℕ, Bytes, codes, eqb, is_empty, has_prefix, Bool, true, false, not, ◌&&◌, ◌||◌, Option, none,
  some, List, [], ◌∷◌, ◌++◌, if◌then◌else◌, ltb, ◌==◌,
}
use gno_mcp.Prelude.Int.{ℤ, pos, ltb_ℤ, sub64, add64, quot}
use gno_mcp.Prelude.Map.{Map, lookup, insert}
use gno_mcp.Prelude.Result.{Result, ok, err}
use gno_mcp.Session.Coins.{parse_coins, format_int64}
use gno_mcp.Session.Scope.{Scope}

-- StatePending, StateActive, StateExpired, StateRevoked
pub data State : Type 0 where
  pending active expired revoked : State

abbrev pub is_pending : State → Bool
is_pending pending = true
is_pending active = false
is_pending expired = false
is_pending revoked = false

abbrev pub is_active : State → Bool
is_active active = true
is_active pending = false
is_active expired = false
is_active revoked = false

-- SessionMeta, without its version; `encrypted` is of the form on disk
pub record SessionMeta : Type 0 where
  pub session_address : Bytes
  pub session_pubkey : Bytes
  pub master_address : Bytes
  pub privkey : Bytes
  pub encrypted : Bool
  pub allow_paths : List Bytes
  pub allow_run : Bool
  pub spend_limit : Bytes
  pub spend_remaining : Bytes
  pub expires_at : ℤ
  pub created_at : ℤ
  pub state : State

-- chain.SessionStatus
pub record SessionStatus : Type 0 where
  pub is_active_on_chain : Bool
  pub allow_paths : List Bytes
  pub allow_run : Bool
  pub spend_limit : Bytes
  pub spend_remaining : Bytes
  pub expires_at : ℤ

-- sessionState
pub record SessionState : Type 0 where
  pub state : State
  pub meta : SessionMeta

-- applyStatus
unfoldable pub apply_status : SessionStatus → SessionMeta → SessionMeta
apply_status st meta = record meta {
  allow_paths = st.allow_paths;
  allow_run = st.allow_run;
  spend_limit = st.spend_limit;
  spend_remaining = st.spend_remaining;
  expires_at = st.expires_at;
  state = active;
}

-- What the resolver and Client.QuerySession give: no client, ErrSessionQueryUnsupported, any other
-- error, or a status.
pub data QueryAnswer : Type 0 where
  no_client unsupported failed : QueryAnswer
  answered : SessionStatus → QueryAnswer

-- chainCheckResult, or the error that there is no client
pub data ChainCheck : Type 0 where
  unresolved unknown inactive : ChainCheck
  confirmed : SessionStatus → ChainCheck

abbrev checked_status : QueryAnswer → ChainCheck
checked_status no_client = unresolved
checked_status unsupported = unknown
checked_status failed = inactive
checked_status (answered st) = if st.is_active_on_chain then confirmed st else inactive

abbrev is_no_client : QueryAnswer → Bool
is_no_client no_client = true
is_no_client unsupported = false
is_no_client failed = false
is_no_client (answered st) = false

-- queryChain
unfoldable pub query_chain : Bytes → QueryAnswer → ChainCheck
query_chain master answer =
    if is_no_client answer
    then unresolved
    else if is_empty master
    then unknown
    else checked_status answer

-- coversRealm
unfoldable pub covers_realm : List Bytes → Bytes → Bool
unfolding eqb has_prefix
covers_realm [] realm = false
covers_realm (p ∷ ps) realm =
    eqb p realm || has_prefix realm (p ++ (b'/' ∷ [])) || covers_realm ps realm

abbrev pub zero_mag : Option (ℕ × Bytes) → Bool
zero_mag none = false
zero_mag (some (mag, denom)) = mag == 0

-- isZeroSpend
unfoldable pub is_zero_spend : Bytes → Bool
unfolding parse_coins
is_zero_spend coin = not (is_empty coin) && zero_mag (parse_coins coin)

-- the map's membership test of dedup
unfoldable pub contains : Bytes → List Bytes → Bool
contains s [] = false
contains s (x ∷ xs) = eqb x s || contains s xs

-- dedup, with what it has `seen`
unfoldable pub dedup_from : List Bytes → List Bytes → List Bytes
unfolding contains
dedup_from seen [] = []
dedup_from seen (s ∷ xs) =
    let kept = dedup_from (s ∷ seen) xs in
    let rest = dedup_from seen xs in if contains s seen then rest else s ∷ kept

abbrev pub dedup : List Bytes → List Bytes
dedup xs = dedup_from [] xs

-- the sessions of one profile: session address → state
abbrev pub Sessions : Type 0
Sessions = Map SessionState

abbrev promoted : ChainCheck → SessionState → SessionState
promoted (confirmed st) ss = record { state = active; meta = apply_status st ss.meta }
promoted unresolved ss = ss
promoted unknown ss = ss
promoted inactive ss = ss

-- the promotion of one pending session in pickSession
unfoldable pub promote : (Bytes → Bytes → QueryAnswer) → Bytes → SessionState → SessionState
promote ask addr ss =
    let master = ss.meta.master_address in
    if is_pending ss.state then promoted (query_chain master (ask master addr)) ss else ss

-- steps 1 and 2 of pickSession
unfoldable pub promote_all : (Bytes → Bytes → QueryAnswer) → Sessions → Sessions
unfolding promote
promote_all ask [] = []
promote_all ask ((addr, ss) ∷ m) = (addr, promote ask addr ss) ∷ promote_all ask m

-- the clock is past a session's expiry
abbrev pub is_over : ℤ → SessionMeta → Bool
is_over now meta = ltb_ℤ (pos 0) meta.expires_at && ltb_ℤ meta.expires_at now

-- the round of step 3 of pickSession that expires a session
unfoldable pub expire : ℤ → SessionState → SessionState
expire now ss =
    if is_active ss.state && is_over now ss.meta then record ss { state = expired } else ss

unfoldable pub expire_all : ℤ → Sessions → Sessions
unfolding expire
expire_all now [] = []
expire_all now ((addr, ss) ∷ m) = (addr, expire now ss) ∷ expire_all now m

-- a session that step 3 does not pass over
unfoldable pub is_usable : ℤ → SessionState → Bool
unfolding is_zero_spend
is_usable now ss =
    is_active ss.state && not (is_over now ss.meta) && not (is_zero_spend ss.meta.spend_remaining)

unfoldable pub available_paths : ℤ → Sessions → List Bytes
unfolding is_usable
available_paths now [] = []
available_paths now ((addr, ss) ∷ m) =
    let rest = available_paths now m in
    if is_usable now ss then ss.meta.allow_paths ++ rest else rest

unfoldable pub candidates : (SessionMeta → Bool) → ℤ → Sessions → List SessionMeta
candidates matches now [] = []
candidates matches now ((addr, ss) ∷ m) =
    let rest = candidates matches now m in
    if is_usable now ss && matches ss.meta then ss.meta ∷ rest else rest

-- the first of the candidates sorted by CreatedAt, newest first
unfoldable pub newest : SessionMeta → List SessionMeta → SessionMeta
newest best [] = best
newest best (x ∷ xs) = if ltb_ℤ best.created_at x.created_at then newest x xs else newest best xs

pub data PickError : Type 0 where
  no_active_session : PickError
  scope_mismatch : List Bytes → PickError

-- the end of pickSession
unfoldable pub picked : List SessionMeta → List Bytes → Result PickError SessionMeta
unfolding newest dedup_from
picked (x ∷ xs) paths = ok (newest x xs)
picked [] [] = err no_active_session
picked [] (p ∷ paths) = err (scope_mismatch (dedup (p ∷ paths)))

-- pickSession: the session whose key signs, and the sessions that it leaves
unfoldable pub pick_session :
    (SessionMeta → Bool)
    → (Bytes → Bytes → QueryAnswer)
    → ℤ
    → Sessions
    → Result PickError SessionMeta × Sessions
unfolding promote_all expire_all available_paths candidates picked
pick_session matches ask now m =
    let m' = promote_all ask m in
    (picked (candidates matches now m') (available_paths now m'), expire_all now m')

-- PickSessionForProfile, PickSessionForRun
abbrev pub matches_realm : Bytes → SessionMeta → Bool
matches_realm realm meta = is_empty realm || covers_realm meta.allow_paths realm

abbrev pub matches_run : SessionMeta → Bool
matches_run meta = meta.allow_run

pub data ManagerError : Type 0 where
  not_found not_active bad_remaining not_persisted : ManagerError
