-- ===== src/Session/Manager/Lifecycle.antt =====
-- How the state of a session moves, and what Hydrate keeps of the store.
use gno_mcp.Prelude.{
  ◌≡◌, ◌⊎◌, inl, inr, refl, sym, subst, Bytes, is_empty, eqb, eqb_iff, eqb_refl, Bool, true, false,
  Option, none, some, List, [], ◌∷◌, arith,
}
use gno_mcp.Prelude.Int.{ℤ}
use gno_mcp.Prelude.Map.{lookup, lookup-insert}
use gno_mcp.Session.Manager.{
  State, pending, active, expired, revoked, is_pending, is_active, SessionMeta, SessionState,
  apply_status, SessionStatus, QueryAnswer, no_client, unsupported, failed, answered, ChainCheck,
  unresolved, unknown, inactive, confirmed, query_chain, promote, promoted, promote_all, expire,
  expire_all, pick_session, Sessions,
}
use gno_mcp.Session.Manager.Operations.{hydrated, hydrate}

-- The moves of pickSession: a pending session that the chain confirms becomes active, an active one
-- that is over expires, and nothing else moves.
pub data Moves : State → State → Type 0 where
  stays : {s : State} → Moves s s
  activates : Moves pending active
  ends : Moves active expired
  activates_and_ends : Moves pending expired

abbrev pub map_state : (SessionState → SessionState) → Option SessionState → Option SessionState
map_state f none = none
map_state f (some ss) = some (f ss)

lookup-promote_all :
    (ask : Bytes → Bytes → QueryAnswer) (addr : Bytes) (m : Sessions)
    → lookup addr (promote_all ask m) ≡ map_state (promote ask addr) (lookup addr m)
unfolding lookup promote_all
lookup-promote_all ask addr [] = refl
lookup-promote_all ask addr ((k, ss) ∷ m) =
    ground (arith, lookup-promote_all ask addr m, eqb_iff k addr)

lookup-expire_all :
    (now : ℤ) (addr : Bytes) (m : Sessions)
    → lookup addr (expire_all now m) ≡ map_state (expire now) (lookup addr m)
unfolding lookup expire_all
lookup-expire_all now addr [] = refl
lookup-expire_all now addr ((k, ss) ∷ m) = ground (arith, lookup-expire_all now addr m)

promoted-state :
    (check : ChainCheck) (ss : SessionState)
    → ((promoted check ss).state ≡ ss.state) ⊎ ((promoted check ss).state ≡ active)
promoted-state unresolved ss = inl refl
promoted-state unknown ss = inl refl
promoted-state inactive ss = inl refl
promoted-state (confirmed st) ss = inr refl

is_pending-eq : (s : State) → is_pending s ≡ true → s ≡ pending
is_pending-eq pending h = refl
is_pending-eq active h = absurd (ground arith)
is_pending-eq expired h = absurd (ground arith)
is_pending-eq revoked h = absurd (ground arith)

is_active-eq : (s : State) → is_active s ≡ true → s ≡ active
is_active-eq active h = refl
is_active-eq pending h = absurd (ground arith)
is_active-eq expired h = absurd (ground arith)
is_active-eq revoked h = absurd (ground arith)

promote-state :
    (ask : Bytes → Bytes → QueryAnswer) (addr : Bytes) (ss : SessionState)
    → ((promote ask addr ss).state ≡ ss.state)
      ⊎ ((ss.state ≡ pending) × ((promote ask addr ss).state ≡ active))
unfolding promote
promote-state ask addr ss =
    let master = ss.meta.master_address in
    let check = query_chain master (ask master addr) in
    ground (arith, promoted-state check ss, is_pending-eq ss.state)

expire-state :
    (now : ℤ) (ss : SessionState)
    → ((expire now ss).state ≡ ss.state) ⊎ ((ss.state ≡ active) × ((expire now ss).state ≡ expired))
unfolding expire
expire-state now ss = ground (arith, is_active-eq ss.state)

Moves-join :
    (a b c : State)
    → (b ≡ a) ⊎ ((a ≡ pending) × (b ≡ active))
    → (c ≡ b) ⊎ ((b ≡ active) × (c ≡ expired))
    → Moves a c
Moves-join a b c (inl p) (inl q) = rw (q, p) stays
Moves-join a b c (inl p) (inr (q, r)) = rw (r, sym p, q) ends
Moves-join a b c (inr (p, q)) (inl r) = rw (p, r, q) activates
Moves-join a b c (inr (p, q)) (inr (r, s)) = rw (p, s) activates_and_ends

-- pickSession keeps every session, and moves its state along `Moves` only: in particular a revoked
-- or an expired one never comes back.
pub pick_session-Moves :
    (matches : SessionMeta → Bool) (ask : Bytes → Bytes → QueryAnswer) (now : ℤ) (m : Sessions)
    (addr : Bytes) (ss : SessionState)
    → lookup addr m ≡ some ss
    → (ss' : SessionState) × (lookup addr (pick_session matches ask now m).1 ≡ some ss')
      × Moves ss.state ss'.state
unfolding pick_session
pick_session-Moves matches ask now m addr ss found =
    let p = promote ask addr ss in
    (
      expire now p,
      rw (lookup-expire_all now addr (promote_all ask m), lookup-promote_all ask addr m, found)
          refl,
      Moves-join ss.state p.state (expire now p).state (promote-state ask addr ss)
          (expire-state now p),
    )

-- The session is loaded as the store holds it.
abbrev pub IsAsStored : SessionMeta → Option SessionState → Type 0
IsAsStored meta o = o ≡ some (record { state = meta.state; meta = meta })

-- The session is loaded as active, with the scope that the chain reports, under the keys of the store.
pub record IsConfirmed (st : SessionStatus) (meta : SessionMeta) (o : Option SessionState)
    : Type 0 where
  pub session : SessionState
  pub found : o ≡ some session
  pub is_running : (session.state ≡ active) × (session.meta.state ≡ active)
  pub same_paths : session.meta.allow_paths ≡ st.allow_paths
  pub same_run : session.meta.allow_run ≡ st.allow_run
  pub same_limit : session.meta.spend_limit ≡ st.spend_limit
  pub same_remaining : session.meta.spend_remaining ≡ st.spend_remaining
  pub same_expiry : session.meta.expires_at ≡ st.expires_at
  pub same_creation : session.meta.created_at ≡ meta.created_at
  pub same_address : session.meta.session_address ≡ meta.session_address
  pub same_pubkey : session.meta.session_pubkey ≡ meta.session_pubkey
  pub same_master : session.meta.master_address ≡ meta.master_address
  pub same_privkey : session.meta.privkey ≡ meta.privkey

-- What becomes of a stored session, by what the chain client answers.
pub record Settles (answer : QueryAnswer) (meta : SessionMeta) (o : Option SessionState)
    : Type 0 where
  pub without_client : answer ≡ no_client → IsAsStored meta o
  pub without_master : is_empty meta.master_address ≡ true → IsAsStored meta o
  pub not_supported : answer ≡ unsupported → IsAsStored meta o
  pub query_failed : is_empty meta.master_address ≡ false → answer ≡ failed → o ≡ none
  pub confirms :
      (st : SessionStatus)
      → is_empty meta.master_address ≡ false
      → answer ≡ answered st
      → st.is_active_on_chain ≡ true
      → IsConfirmed st meta o
  pub denies :
      (st : SessionStatus)
      → is_empty meta.master_address ≡ false
      → answer ≡ answered st
      → st.is_active_on_chain ≡ false
      → o ≡ none

abbrev kept : ChainCheck → SessionMeta → Option SessionState
kept unresolved meta = some (record { state = meta.state; meta = meta })
kept unknown meta = some (record { state = meta.state; meta = meta })
kept inactive meta = none
kept (confirmed st) meta = some (record { state = active; meta = apply_status st meta })

kept-confirmed :
    (st : SessionStatus) (meta : SessionMeta) → IsConfirmed st meta (kept (confirmed st) meta)
unfolding apply_status
kept-confirmed st meta = record {
  session = record { state = active; meta = apply_status st meta };
  found = refl;
  is_running = (refl, refl);
  same_paths = refl;
  same_run = refl;
  same_limit = refl;
  same_remaining = refl;
  same_expiry = refl;
  same_creation = refl;
  same_address = refl;
  same_pubkey = refl;
  same_master = refl;
  same_privkey = refl;
}

kept-Settles :
    (answer : QueryAnswer) (meta : SessionMeta)
    → Settles answer meta (kept (query_chain meta.master_address answer) meta)
unfolding query_chain
kept-Settles answer meta = record {
  without_client = λ e. ground (arith, e);
  without_master = λ e. ground (arith, e);
  not_supported = λ e. ground (arith, e);
  query_failed = λ mastered e. ground (arith, e, mastered);
  confirms = λ st mastered e on. ground (arith, e, mastered, on, kept-confirmed st meta);
  denies = λ st mastered e off. ground (arith, e, mastered, off);
}

-- No stored session has the address.
abbrev pub Fresh : Bytes → List SessionMeta → Type 0
Fresh addr [] = Unit
Fresh addr (meta ∷ metas) = (eqb meta.session_address addr ≡ false) × Fresh addr metas

-- The stored sessions have addresses of their own, as files of their own.
abbrev pub Distinct : List SessionMeta → Type 0
Distinct [] = Unit
Distinct (meta ∷ metas) = Fresh meta.session_address metas × Distinct metas

pub data Stored (meta : SessionMeta) : List SessionMeta → Type 0 where
  here : {metas : List SessionMeta} → Stored meta (meta ∷ metas)
  there : {x : SessionMeta} {metas : List SessionMeta} → Stored meta metas → Stored meta (x ∷ metas)

hydrated-other :
    (check : ChainCheck) (meta : SessionMeta) (addr : Bytes) (m : Sessions)
    → eqb meta.session_address addr ≡ false
    → lookup addr (hydrated check meta m) ≡ lookup addr m
unfolding apply_status
hydrated-other unresolved meta addr m h = rw (lookup-insert meta.session_address addr _ m, h) refl
hydrated-other unknown meta addr m h = rw (lookup-insert meta.session_address addr _ m, h) refl
hydrated-other inactive meta addr m h = refl
hydrated-other (confirmed st) meta addr m h =
    rw (lookup-insert meta.session_address addr _ m, h) refl

hydrated-own :
    (check : ChainCheck) (meta : SessionMeta) (m : Sessions)
    → lookup meta.session_address m ≡ none
    → lookup meta.session_address (hydrated check meta m) ≡ kept check meta
unfolding apply_status
hydrated-own unresolved meta m h =
    rw (lookup-insert meta.session_address meta.session_address _ m, eqb_refl meta.session_address)
      refl
hydrated-own unknown meta m h =
    rw (lookup-insert meta.session_address meta.session_address _ m, eqb_refl meta.session_address)
      refl
hydrated-own inactive meta m h = h
hydrated-own (confirmed st) meta m h =
    rw (lookup-insert meta.session_address meta.session_address _ m, eqb_refl meta.session_address)
      refl

hydrate-other :
    (ask : Bytes → Bytes → QueryAnswer) (metas : List SessionMeta) (addr : Bytes) (m : Sessions)
    → Fresh addr metas
    → lookup addr (hydrate ask metas m) ≡ lookup addr m
unfolding hydrate
hydrate-other ask [] addr m h = refl
hydrate-other ask (meta ∷ metas) addr m (h, fresh) =
    rw
      (
        hydrate-other ask metas addr _ fresh,
        hydrated-other
            (query_chain meta.master_address (ask meta.master_address meta.session_address)) meta
            addr m h,
      )
      refl

abbrev check_of : (Bytes → Bytes → QueryAnswer) → SessionMeta → ChainCheck
check_of ask meta = query_chain meta.master_address (ask meta.master_address meta.session_address)

Fresh-Stored :
    (addr : Bytes) (meta : SessionMeta) (metas : List SessionMeta)
    → Fresh addr metas
    → Stored meta metas
    → eqb addr meta.session_address ≡ false
Fresh-Stored addr meta [] fresh h = elim h [ ]
Fresh-Stored addr meta (x ∷ metas) (e, fresh) here =
    ground (arith, eqb_iff addr meta.session_address, eqb_iff meta.session_address addr)
Fresh-Stored addr meta (x ∷ metas) (e, fresh) (there h) = Fresh-Stored addr meta metas fresh h

hydrate-own :
    (ask : Bytes → Bytes → QueryAnswer) (metas : List SessionMeta) (meta : SessionMeta)
    (m : Sessions)
    → Distinct metas
    → Stored meta metas
    → lookup meta.session_address m ≡ none
    → lookup meta.session_address (hydrate ask metas m) ≡ kept (check_of ask meta) meta
unfolding hydrate
hydrate-own ask [] meta m d h e = elim h [ ]
hydrate-own ask (x ∷ metas) meta m (fresh, d) here e =
    rw (hydrate-other ask metas x.session_address _ fresh) (hydrated-own (check_of ask x) x m e)
hydrate-own ask (x ∷ metas) meta m (fresh, d) (there h) e = hydrate-own ask metas meta _ d h (
    rw
      (
        hydrated-other (check_of ask x) x meta.session_address m
            (Fresh-Stored x.session_address meta metas fresh h),
        e,
      )
      refl)

-- Hydrate loads a stored session as active with every field of the scope that the chain reports, where
-- the chain reports it active; it drops the session where the chain reports it inactive or the query
-- fails; and it keeps what the store holds where there is no chain client, the session names no
-- master, or the client does not support the query. Condition: no two stored sessions have the same
-- address.
pub hydrate-Settles :
    (ask : Bytes → Bytes → QueryAnswer) (metas : List SessionMeta) (meta : SessionMeta)
    → Distinct metas
    → Stored meta metas
    → Settles
        (ask meta.master_address meta.session_address)
        meta
        (lookup meta.session_address (hydrate ask metas []))
unfolding lookup
hydrate-Settles ask metas meta d h =
    let answer = ask meta.master_address meta.session_address in
    subst (Settles answer meta) (sym (hydrate-own ask metas meta [] d h refl))
      (kept-Settles answer meta)
