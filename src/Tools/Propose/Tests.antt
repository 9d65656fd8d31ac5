-- ===== src/Tools/Propose/Tests.antt =====
-- A proposal on a test network, and the theorem about proposals.
use gno_mcp.Prelude.{
  ◌≡◌, refl, Bytes, codes, eqb, has_prefix, Bool, true, Option, none, some, [], ◌∷◌,
}
use gno_mcp.Prelude.Int.{ℤ, pos}
use gno_mcp.Prelude.Map.{Map, lookup}
use gno_mcp.Prelude.Result.{err}
use gno_mcp.Profiles.Config.{plain}
use gno_mcp.Profiles.Profile.{Profile, is_read_only}
use gno_mcp.Profiles.Formats.{chain_id_writable}
use gno_mcp.Server.Args.{
  Args, string_arg, bool_arg, string_slice_arg, string_value, array_value, and_more, no_more,
}
use gno_mcp.Session.Manager.Operations.{Keypair}
use gno_mcp.Tools.Propose.{
  propose, prepared, eligible_profile, require_profile, scope_arguments, chosen_master,
  validate_user_master_address, has_blank, looks_like_seed_phrase,
}
use gno_mcp.Tools.Propose.Granted.{Outcome, propose-Outcome}

abbrev no_duration : Bytes → Option ℤ
no_duration s = none

abbrev realm_path : Bytes → Bool
realm_path p = has_prefix p (codes "gno.land/r/")

abbrev public_address : Bytes → Bool
public_address s = has_prefix s (codes "g1")

abbrev networks : Map Profile
networks =
    (codes "testnet", plain (codes "https://rpc.onyx.testnets.gno.land:443") (codes "onyx-1"))
    ∷ (codes "mainnet", plain (codes "https://rpc.gno.land:443") (codes "gnoland1"))
    ∷ []

abbrev drawn_pair : Keypair
drawn_pair = record { address = codes "g1s"; pubkey_bech32 = codes "gpub1s"; priv = codes "k" }

abbrev asked : Bytes → Args
asked master =
    (codes "profile", string_value (codes "testnet"))
    ∷ (
      codes "allow_paths",
      array_value (and_more (string_value (codes "gno.land/r/me/blog")) no_more),
    )
    ∷ (codes "master_address", string_value master)
    ∷ []

-- a seed phrase in place of the address is turned away
propose-seed_phrase :
    propose no_duration realm_path public_address networks true
      (some (pos 20000))
      (some drawn_pair)
      true
      (pos 0)
      (asked (codes "g1 abandon ability"))
      []
    ≡ (err looks_like_seed_phrase, [])
unfolding propose prepared eligible_profile require_profile scope_arguments chosen_master
    validate_user_master_address has_blank string_arg bool_arg string_slice_arg lookup eqb
    is_read_only chain_id_writable
propose-seed_phrase = refl

propose-Outcome_example :
    Outcome no_duration realm_path public_address networks
      (some (pos 20000))
      (some drawn_pair)
      (asked (codes "g1me"))
      true
      (pos 0)
      []
      (propose no_duration realm_path public_address networks true
        (some (pos 20000))
        (some drawn_pair)
        true
        (pos 0)
        (asked (codes "g1me"))
        [])
propose-Outcome_example =
    propose-Outcome no_duration realm_path public_address networks (some (pos 20000))
      (some drawn_pair) (asked (codes "g1me")) true true (pos 0) []
