-- ===== src/Profiles/Config.antt =====
-- internal/profiles/config.go, internal/profiles/validate.go and internal/profiles/sources.go: the
-- built-in profiles, the layering of config files, and Validate. The toolchain's bech32 parser and
-- Go's URL parser are the arguments `is_address` and `is_http_url` (an absolute http or https URL).
use gno_mcp.Prelude.{
  Bytes, codes, is_empty, Bool, true, false, not, ◌&&◌, Option, none, some, [], ◌∷◌, if◌then◌else◌,
}
use gno_mcp.Prelude.Int.{ℤ}
use gno_mcp.Prelude.Map.{Map, insert}
use gno_mcp.Prelude.Result.{Result, ok, err, guard, ◌>>=◌, ◌>>◌}
use gno_mcp.Profiles.Formats.{valid_rpc_url, chain_id_valid, chain_id_writable, spend_limit_valid}
use gno_mcp.Profiles.Profile.{Profile}

-- What Validate refuses, with the profile's name where it has one.
pub data Refusal : Type 0 where
  missing_rpc_url invalid_rpc_url missing_chain_id malformed_chain_id : Refusal
  invalid_expires_in invalid_spend_limit bypass_needs_master : Refusal
  master_on_read_only invalid_master : Refusal
  faucet_on_read_only invalid_faucet_url : Refusal

pub data ConfigError : Type 0 where
  no_profiles : ConfigError
  refused : Bytes → Refusal → ConfigError

-- `if x { return e }`
abbrev pub refuse_if : Bool → Refusal → Result Refusal (Unit {0})
refuse_if b e = guard (not b) e

abbrev pub named : Bytes → Result Refusal (Unit {0}) → Result ConfigError (Unit {0})
named name (ok u) = ok u
named name (err e) = err (refused name e)

module _ (parse_duration : Bytes → Option ℤ) (is_address is_http_url : Bytes → Bool) where
  abbrev pub parses : Bytes → Bool
  parses s = elim (parse_duration s) [ none ↦ false | some d ↦ true ]

  -- one round of the loop over the two faucet fields
  unfoldable pub validate_faucet : Profile → Bytes → Result Refusal (Unit {0})
  validate_faucet p url =
      if is_empty url
      then ok tt
      else refuse_if (not (chain_id_writable p.chain_id)) faucet_on_read_only
        >> refuse_if (not (is_http_url url)) invalid_faucet_url

  -- one round of the loop of Validate
  unfoldable pub validate_profile : Profile → Result Refusal (Unit {0})
  unfolding validate_faucet
  validate_profile p =
      refuse_if (is_empty p.rpc_url) missing_rpc_url
      >> refuse_if (not (valid_rpc_url p.rpc_url)) invalid_rpc_url
      >> refuse_if (is_empty p.chain_id) missing_chain_id
      >> refuse_if (not (chain_id_valid p.chain_id)) malformed_chain_id
      >> refuse_if (not (is_empty p.default_expires_in) && not (parses p.default_expires_in))
          invalid_expires_in
      >> refuse_if
          (not (is_empty p.default_spend_limit) && not (spend_limit_valid p.default_spend_limit))
          invalid_spend_limit
      >> refuse_if (p.bypass_hard_limits && is_empty p.master_address) bypass_needs_master
      >> refuse_if (not (is_empty p.master_address) && not (chain_id_writable p.chain_id))
          master_on_read_only
      >> refuse_if (not (is_empty p.master_address) && not (is_address p.master_address))
          invalid_master
      >> validate_faucet p p.faucet_url
      >> validate_faucet p p.faucet_service_url

  -- the loop of Validate, in the order in which it visits the map
  unfoldable pub validate_all : Map Profile → Result ConfigError (Unit {0})
  unfolding validate_profile
  validate_all [] = ok tt
  validate_all ((name, p) ∷ m) = named name (validate_profile p) >> validate_all m

  -- Validate
  unfoldable pub validate : Map Profile → Result ConfigError (Unit {0})
  unfolding validate_all
  validate [] = err no_profiles
  validate ((name, p) ∷ m) = validate_all ((name, p) ∷ m)

-- Merge: every entry of the overlay replaces the base's entry of that name.
unfoldable pub merge : Map Profile → Map Profile → Map Profile
merge base [] = base
merge base ((name, p) ∷ overlay) = merge (insert name p base) overlay

abbrev pub plain : Bytes → Bytes → Profile
plain rpc_url chain_id = record {
  rpc_url = rpc_url;
  chain_id = chain_id;
  tx_indexer_url = [];
  gnoweb_url = [];
  faucet_service_url = [];
  faucet_url = [];
  sunset = false;
  master_address = [];
  default_spend_limit = [];
  default_expires_in = [];
  bypass_hard_limits = false;
}

-- BuiltinProfiles
abbrev pub builtin_profiles : Map Profile
builtin_profiles =
    (codes "local", plain (codes "http://127.0.0.1:26657") (codes "dev"))
    ∷ (
      codes "testnet",
      record (plain (codes "https://rpc.onyx.testnets.gno.land:443") (codes "onyx-1")) {
        gnoweb_url = codes "https://onyx.testnets.gno.land";
        tx_indexer_url = codes "https://indexer.onyx.testnets.gno.land/graphql/query";
        faucet_service_url = codes "https://faucet-agent.onyx.testnets.gno.land";
      },
    )
    ∷ (
      codes "mainnet",
      record (plain (codes "https://rpc.gno.land:443") (codes "gnoland-1")) {
        gnoweb_url = codes "https://gno.land";
        tx_indexer_url = codes "https://indexer.gno.land/graphql/query";
      },
    )
    ∷ []

-- A config file: its path is empty, it does not exist, it cannot be opened or parsed, or Load has
-- read it.
pub data Source : Type 0 where
  unset missing broken : Source
  loaded : Map Profile → Source

pub data LoadError : Type 0 where
  not_opened : LoadError
  invalid : ConfigError → LoadError

-- LoadResolved's `layer`
unfoldable pub layer : Source → Bool → Map Profile → Result LoadError (Map Profile)
layer unset required m = ok m
layer missing required m = if required then err not_opened else ok m
layer broken required m = err not_opened
layer (loaded overlay) required m = ok (merge m overlay)

abbrev pub checked : Map Profile → Result ConfigError (Unit {0}) → Result LoadError (Map Profile)
checked m (ok u) = ok m
checked m (err e) = err (invalid e)

-- LoadResolved, with the three files of its Sources
unfoldable pub load_resolved :
    (Bytes → Option ℤ)
    → (Bytes → Bool)
    → (Bytes → Bool)
    → Source
    → Source
    → Source
    → Result LoadError (Map Profile)
unfolding layer
load_resolved parse_duration is_address is_http_url global project explicit = do
  m ← layer global false builtin_profiles
  m' ← layer project false m
  m'' ← layer explicit true m'
  checked m'' (validate parse_duration is_address is_http_url m'')
