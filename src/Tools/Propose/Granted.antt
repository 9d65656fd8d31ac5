-- ===== src/Tools/Propose/Granted.antt =====
-- What a proposal that succeeds has established, and what one that fails leaves.
use gno_mcp.Prelude.{
  ◌≡◌, ◌≢◌, refl, subst, Bytes, codes, eqb_iff, Bool, true, false, Option, some, List, [], ◌∷◌,
  ◌++◌, append_assoc, arith,
}
use gno_mcp.Prelude.Int.{ℤ, ◌+ℤ◌}
use gno_mcp.Prelude.Map.{Map, lookup, lookup-insert, lookup-insert_self}
use gno_mcp.Prelude.Result.{Result, ok, err, guard, bind-elim}
use gno_mcp.Profiles.Profile.{Profile, is_read_only}
use gno_mcp.Server.Args.{Args, string_arg}
use gno_mcp.Session.Scope.{Scope, ScopeArgs, resolve_scope}
use gno_mcp.Session.Scope.Limits.{IsGranted, resolve_scope-IsGranted}
use gno_mcp.Session.Manager.{Sessions, SessionState, pending}
use gno_mcp.Session.Manager.Operations.{Keypair, pending_meta, add_pending, unix}
use gno_mcp.Session.Coins.{format_int64}
use gno_mcp.Session.Gnokey.{
  Flag, path_flags, run_flags, chain_flags, create_flags, flag_lines, format_gnokey_create_command,
}
use gno_mcp.Tools.Propose.{
  ProposeError, PreparedProposal, add_proposal, Proposal, proposal, chosen_master, eligible_profile,
  scope_arguments, prepared, propose, of_scope, found_or,
}
use gno_mcp.Tools.Propose.Reads.{
  ok-inj, found_or-some, of_scope-ok, IsMaster, chosen_master-IsMaster, eligible_profile-writable,
  Reads, scope_arguments-Reads,
}

-- a stored session that waits for its approval, with the key pair and the terms of the proposal
pub record Waits (kp : Keypair) (p : Proposal) (now : ℤ) (ss : SessionState) : Type 0 where
  pub still_pending : (ss.state ≡ pending) × (ss.meta.state ≡ pending)
  pub of_address : ss.meta.session_address ≡ kp.address
  pub of_pubkey : ss.meta.session_pubkey ≡ kp.pubkey_bech32
  pub of_privkey : ss.meta.privkey ≡ kp.priv
  pub of_master : ss.meta.master_address ≡ p.master
  pub same_paths : ss.meta.allow_paths ≡ p.scope.allow_paths
  pub same_run : ss.meta.allow_run ≡ p.scope.allow_run
  pub same_limit : ss.meta.spend_limit ≡ p.scope.spend_limit
  pub unspent : ss.meta.spend_remaining ≡ p.scope.spend_limit
  pub in_time : ss.meta.expires_at ≡ unix (now +ℤ p.scope.expires_in)

-- a command that authorizes the public key
abbrev pub Authorizes : Bytes → Bytes → Type 0
Authorizes pubkey text =
    (rest : Bytes) × (text
      ≡ codes "gnokey maketx session create "
        ++ (92 ∷ 10 ∷ [])
        ++ codes "  --pubkey "
        ++ pubkey
        ++ (b' ' ∷ rest))

format-Authorizes :
    (p : Profile) (pubkey : Bytes) (scope : Scope) (fee now : ℤ)
    → Authorizes pubkey (format_gnokey_create_command p pubkey scope fee now)
unfolding format_gnokey_create_command create_flags flag_lines
format-Authorizes p pubkey scope fee now =
    let tail : Bytes = b' ' ∷ 92 ∷ 10 ∷ [] in
    let others : List Flag =
      path_flags scope.allow_paths
      ++ run_flags scope.allow_run
      ++ ((codes "spend-limit", scope.spend_limit)
          ∷ (codes "expires-at", format_int64 (unix (now +ℤ scope.expires_in)))
          ∷ chain_flags p fee) in
    let broadcast : Bytes = codes "  --broadcast " in
    let line_end : Bytes = 92 ∷ 10 ∷ [] in
    let signer : Bytes = codes "  <your-master-key-name>" in
    let lines = flag_lines others in
    (
      92 ∷ 10 ∷ (lines ++ broadcast ++ line_end ++ signer),
      rw
          (
            append_assoc pubkey tail lines,
            append_assoc pubkey (tail ++ lines) broadcast,
            append_assoc pubkey (tail ++ lines ++ broadcast) line_end,
            append_assoc pubkey (tail ++ lines ++ broadcast ++ line_end) signer,
          )
          refl,
    )

module _ (parse_duration : Bytes → Option ℤ) (is_realm_path is_address : Bytes → Bool)
    (config : Map Profile) (fee : Option ℤ) (drawn : Option Keypair) (args : Args) where
  -- what the handler has established before AddPending
  record IsReady (r : PreparedProposal) : Type 0 where
    is_named : string_arg args (codes "profile") ≡ ok r.profile_name
    configured : lookup r.profile_name config ≡ some r.profile
    writable : is_read_only r.profile ≡ false
    asked : ScopeArgs
    user : Bytes
    reads : Reads args (asked, user)
    of_master : IsMaster is_address r.profile user r.master
    resolved :
        resolve_scope parse_duration is_realm_path asked r.profile r.fee ≡ ok (r.scope, r.warnings)
    live : fee ≡ some r.fee
    key : drawn ≡ some r.keypair

  -- What a proposal that is made stands for: the profile and the scope that the arguments ask for, within
  -- the limits; the session that waits under the drawn key; and the command for that key.
  pub record IsProposal (persist : Bool) (now : ℤ) (m : Sessions) (p : Proposal) (m' : Sessions)
      : Type 0 where
    pub on_disk : persist ≡ true
    pub is_named : string_arg args (codes "profile") ≡ ok p.profile_name
    pub profile : Profile
    pub configured : lookup p.profile_name config ≡ some profile
    pub writable : is_read_only profile ≡ false
    pub asked : ScopeArgs
    pub user : Bytes
    pub reads : Reads args (asked, user)
    pub of_master : IsMaster is_address profile user p.master
    pub live : ℤ
    pub is_live : fee ≡ some live
    pub resolved :
        resolve_scope parse_duration is_realm_path asked profile live ≡ ok (p.scope, p.warnings)
    pub granted : IsGranted is_realm_path profile live p.scope
    pub keypair : Keypair
    pub is_drawn : drawn ≡ some keypair
    pub session : SessionState
    pub stored : lookup keypair.address m' ≡ some session
    pub waits : Waits keypair p now session
    pub others : (addr : Bytes) → addr ≢ keypair.address → lookup addr m' ≡ lookup addr m
    pub authorizes : Authorizes keypair.pubkey_bech32 p.auth_command

  -- what the handler answers, and the sessions that it leaves
  abbrev pub Outcome : Bool → ℤ → Sessions → Result ProposeError Proposal × Sessions → Type 0
  Outcome persist now m (err e, m') = m' ≡ m
  Outcome persist now m (ok p, m') = IsProposal persist now m p m'

  add_proposal-Outcome :
      (persist : Bool) (now : ℤ) (m : Sessions) (prepared : Result ProposeError PreparedProposal)
      → ((r : PreparedProposal) → prepared ≡ ok r → IsReady r)
      → Outcome persist now m (add_proposal persist now m prepared)
  unfolding add_pending proposal
  add_proposal-Outcome persist now m (err e) ready = refl
  add_proposal-Outcome false now m (ok r) ready = refl
  add_proposal-Outcome true now m (ok r) ready =
      let i = ready r refl in
      record {
        on_disk = refl;
        is_named = i.is_named;
        profile = r.profile;
        configured = i.configured;
        writable = i.writable;
        asked = i.asked;
        user = i.user;
        reads = i.reads;
        of_master = i.of_master;
        live = r.fee;
        is_live = i.live;
        resolved = i.resolved;
        granted =
            resolve_scope-IsGranted parse_duration is_realm_path i.asked r.profile r.fee r.scope
              r.warnings i.resolved;
        keypair = r.keypair;
        is_drawn = i.key;
        session = record { state = pending; meta = pending_meta r.keypair r.scope r.master now };
        stored = lookup-insert_self r.keypair.address _ m;
        waits = record {
          still_pending = (refl, refl);
          of_address = refl;
          of_pubkey = refl;
          of_privkey = refl;
          of_master = refl;
          same_paths = refl;
          same_run = refl;
          same_limit = refl;
          unspent = refl;
          in_time = refl;
        };
        others = λ addr away. ground (
          arith,
          away,
          eqb_iff r.keypair.address addr,
          lookup-insert r.keypair.address addr
              (record { state = pending; meta = pending_meta r.keypair r.scope r.master now }) m,
        );
        authorizes = format-Authorizes r.profile r.keypair.pubkey_bech32 r.scope r.fee now;
      }

  prepared-IsReady :
      (has_client : Bool) (r : PreparedProposal)
      → prepared parse_duration is_realm_path is_address config has_client fee drawn args ≡ ok r
      → IsReady r
  unfolding prepared
  prepared-IsReady has_client r h = bind-elim _ (eligible_profile config args) _ h λ (name, p) e h1.
      bind-elim _ (scope_arguments args) _ h1 λ (scope_args, user) e1 h2.
        bind-elim _ (chosen_master is_address p user) _ h2 λ master e2 h3.
          bind-elim _ (guard has_client _) _ h3 λ u e3 h4.
            bind-elim _ (found_or fee _) _ h4 λ live e4 h5.
              bind-elim _ (of_scope (resolve_scope parse_duration is_realm_path scope_args p live))
                _ h5
                λ (scope, warnings) e5 h6. bind-elim _ (found_or drawn _) _ h6 λ kp e6 h7.
                  let (is_named, configured, writable) =
                    eligible_profile-writable config args name p e in
                  subst IsReady (ok-inj h7) (record {
                    is_named = is_named;
                    configured = configured;
                    writable = writable;
                    asked = scope_args;
                    user = user;
                    reads = scope_arguments-Reads args (scope_args, user) e1;
                    of_master = chosen_master-IsMaster is_address p user master e2;
                    resolved =
                        of_scope-ok (resolve_scope parse_duration is_realm_path scope_args p live)
                          e5;
                    live = found_or-some fee _ e4;
                    key = found_or-some drawn _ e6;
                  })

  -- A proposal that session_propose makes is for the configured, writable profile that the arguments name;
  -- for the master account that they name, which has no blanks and is an address, or else the profile's;
  -- and for the scope that ResolveScope grants to them at the chain's live fee, within the limits of that profile.
  -- It leaves, persisted, a pending session under the drawn key's address with that key, master
  -- and scope, its whole limit unspent, and every other session as it was; its command authorizes the
  -- drawn public key. A proposal that is refused leaves the sessions as they are.
  pub propose-Outcome :
      (has_client persist : Bool) (now : ℤ) (m : Sessions)
      → Outcome persist now m (
          propose parse_duration is_realm_path is_address config has_client fee drawn persist now
            args m)
  unfolding propose
  propose-Outcome has_client persist now m =
      add_proposal-Outcome persist now m
        (prepared parse_duration is_realm_path is_address config has_client fee drawn args)
        (prepared-IsReady has_client)
