-- ===== src/Profiles/Tests.antt =====
-- Formats at concrete texts, and a configuration that loads.
use gno_mcp.Prelude.{
  ◌≡◌, refl, Bytes, codes, eqb, has_prefix, prefix_of, rest_of, all_chars, Bool, true, false,
  Option, none, some, [], ◌∷◌,
}
use gno_mcp.Prelude.Int.{ℤ, pos}
use gno_mcp.Prelude.Map.{Map, lookup, insert}
use gno_mcp.Prelude.Result.{ok}
use gno_mcp.Profiles.Formats.{
  valid_rpc_url, chain_id_valid, chain_id_writable, ends_in, is_testnet_chain_id,
}
use gno_mcp.Profiles.Profile.{Profile}
use gno_mcp.Profiles.Config.{
  Source, unset, loaded, plain, builtin_profiles, merge, layer, validate, validate_all,
  validate_profile, validate_faucet, load_resolved,
}
use gno_mcp.Profiles.Safety.{IsSafe, entry, or_else, load_resolved-IsSafe, load_resolved-lookup}

no_substitution : valid_rpc_url (codes "http://h/$(cmd)") ≡ false
unfolding valid_rpc_url has_prefix prefix_of rest_of all_chars
no_substitution = refl

no_flag : chain_id_valid (codes "-remote") ≡ false
unfolding chain_id_valid ends_in all_chars
no_flag = refl

abbrev hour_or_none : Bytes → Option ℤ
hour_or_none s = if_hour (eqb s (codes "1h"))
  where
    if_hour : Bool → Option ℤ
    if_hour true = some (pos 3600000000000)
    if_hour false = none

abbrev any_address : Bytes → Bool
any_address s = true

abbrev http_url : Bytes → Bool
http_url s = has_prefix s (codes "http")

-- A project file that points `testnet` at another node.
abbrev mirror : Profile
mirror = plain (codes "https://rpc.example.org:443/a") (codes "test-13")

abbrev project : Source
project = loaded ((codes "testnet", mirror) ∷ [])

abbrev effective : Map Profile
effective = merge builtin_profiles ((codes "testnet", mirror) ∷ [])

loads : load_resolved hour_or_none any_address http_url unset project unset ≡ ok effective
unfolding load_resolved layer merge insert eqb validate validate_all validate_profile
    validate_faucet valid_rpc_url has_prefix prefix_of rest_of all_chars chain_id_valid ends_in
    chain_id_writable is_testnet_chain_id
loads = refl

testnet_is : lookup (codes "testnet") effective ≡ some mirror
unfolding lookup merge insert eqb
testnet_is = refl

load_resolved-IsSafe_example : IsSafe mirror
load_resolved-IsSafe_example =
    load_resolved-IsSafe hour_or_none any_address http_url unset project unset effective
      (codes "testnet") mirror loads testnet_is

load_resolved-lookup_example :
    lookup (codes "mainnet") effective
    ≡ or_else none (
        or_else
          (entry (codes "mainnet") project)
          (or_else none (lookup (codes "mainnet") builtin_profiles)))
load_resolved-lookup_example =
    load_resolved-lookup hour_or_none any_address http_url unset project unset effective
      (codes "mainnet") tt (unfold lookup in (refl, tt)) tt loads
