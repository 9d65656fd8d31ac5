-- ===== src/Profiles/Profile.antt =====
-- internal/profiles/config.go and internal/profiles/limits.go: one profile, the kind of its chain,
-- and the defaults and the ceilings of its sessions. `parse_duration` is Go's time.ParseDuration,
-- which gives nanoseconds.
use gno_mcp.Prelude.{
  ℕ, ◌*◌, Bytes, codes, eqb, is_empty, Bool, not, ◌&&◌, Option, none, some, [], if◌then◌else◌,
}
use gno_mcp.Prelude.Int.{ℤ, pos}
use gno_mcp.Profiles.Formats.{chain_id_writable}

pub record Profile : Type 0 where
  pub rpc_url : Bytes
  pub chain_id : Bytes
  pub tx_indexer_url : Bytes
  pub gnoweb_url : Bytes
  pub faucet_service_url : Bytes
  pub faucet_url : Bytes
  pub sunset : Bool
  pub master_address : Bytes
  pub default_spend_limit : Bytes
  pub default_expires_in : Bytes
  pub bypass_hard_limits : Bool

-- IsLocal
unfoldable pub is_local : Profile → Bool
is_local p = eqb p.chain_id (codes "dev")

-- IsTestnet
unfoldable pub is_testnet : Profile → Bool
unfolding is_local
is_testnet p = chain_id_writable p.chain_id && not (is_local p)

-- IsReadOnly
unfoldable pub is_read_only : Profile → Bool
is_read_only p = not (chain_id_writable p.chain_id)

-- the answers of Kind
pub data ProfileKind : Type 0 where
  local_chain read_only_chain testnet_chain : ProfileKind

-- Kind
unfoldable pub kind : Profile → ProfileKind
unfolding is_local is_read_only
kind p =
    if is_local p then local_chain else if is_read_only p then read_only_chain else testnet_chain

-- time.Hour
abbrev pub hour : ℕ
hour = 3600000000000

abbrev pub hard_default_spend_limit : Bytes
hard_default_spend_limit = codes "100000000ugnot"

abbrev pub hard_default_expires_in : ℤ
hard_default_expires_in = pos hour

-- EffectiveDefaults: an unparsable default-expires-in is its error.
unfoldable pub effective_defaults : (Bytes → Option ℤ) → Profile → Option (Bytes × ℤ)
effective_defaults parse_duration p =
    let spend_limit =
      if is_empty p.default_spend_limit then hard_default_spend_limit else p.default_spend_limit in
    if is_empty p.default_expires_in
    then some (spend_limit, hard_default_expires_in)
    else elim (parse_duration p.default_expires_in) [ none ↦ none | some d ↦ some (spend_limit, d) ]

-- HardLimits: an empty or zero field is no limit.
pub record HardLimits : Type 0 where
  pub max_spend_limit : Bytes
  pub max_expires_in : ℤ
  pub max_allow_paths_count : ℕ

-- (Profile).HardLimits
unfoldable pub hard_limits : Profile → HardLimits
unfolding is_local
hard_limits p =
    if p.bypass_hard_limits
    then record { max_spend_limit = []; max_expires_in = pos 0; max_allow_paths_count = 0 }
    else if is_local p
    then record {
      max_spend_limit = codes "100000000ugnot";
      max_expires_in = pos (30 * (24 * hour));
      max_allow_paths_count = 20;
    }
    else record {
      max_spend_limit = codes "100000000ugnot";
      max_expires_in = pos (7 * (24 * hour));
      max_allow_paths_count = 10;
    }
