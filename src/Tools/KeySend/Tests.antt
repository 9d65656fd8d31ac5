-- ===== src/Tools/KeySend/Tests.antt =====
-- A transfer from alice to bob, and the theorem about transfers.
use gno_mcp.Prelude.{
  ◌≡◌, refl, Bytes, codes, eqb, has_prefix, all_chars, true, Option, none, some, [], ◌∷◌, ◌++◌,
}
use gno_mcp.Prelude.Int.{ℤ, pos}
use gno_mcp.Prelude.Map.{Map, lookup}
use gno_mcp.Prelude.Result.{Result, ok}
use gno_mcp.Secret.{decrypt}
use gno_mcp.Secret.Tests.{toy_cipher, sixteen}
use gno_mcp.Files.{Root, file}
use gno_mcp.Profiles.Formats.{chain_id_writable, is_testnet_chain_id, valid_profile_name}
use gno_mcp.Profiles.Profile.{Profile, is_local, is_read_only, is_testnet}
use gno_mcp.Server.Args.{Args, string_arg, int64_arg, string_value, int_value}
use gno_mcp.Keystore.{valid_key_name, resolve_key_name, key_file}
use gno_mcp.Keystore.Operations.{agent_address, signer_for_profile}
use gno_mcp.Keystore.Tests.{toy_wallet, store, no_fault, onyx, testing, alice}
use gno_mcp.Tools.Identity.{OpError, agent_signer, require_funded, asks_balance}
use gno_mcp.Tools.Propose.{require_profile}
use gno_mcp.Tools.KeySend.{Transfer, transfer_of, send_arguments, key_send}
use gno_mcp.Tools.KeySend.Sent.{IsOwn, key_send-IsOwn}

abbrev bob : Bytes
bob = codes "bob"

abbrev blob_of : Bytes → Bytes
blob_of mnemonic = 1 ∷ (sixteen ++ codes "0123456789ab" ++ (codes "swordfish0123456" ++ mnemonic))

abbrev two_keys : Root
two_keys =
    (
      testing,
      (key_file alice, file (blob_of (codes "able bold")))
          ∷ (key_file bob, file (blob_of (codes "calm deep")))
          ∷ [],
    )
    ∷ []

abbrev configuration : Map Profile
configuration = (testing, onyx) ∷ []

abbrev no_number : Bytes → Option ℤ
no_number s = none

abbrev rich : Bytes → Option ℤ
rich addr = some (pos 1000)

abbrev lands : Transfer toy_wallet toy_cipher store no_fault two_keys → Result OpError (Unit {0})
lands t = ok tt

abbrev asked : Args
asked =
    (codes "profile", string_value testing)
    ∷ (codes "from", string_value alice)
    ∷ (codes "to", string_value bob)
    ∷ (codes "amount", int_value (pos 5))
    ∷ []

abbrev alice_to_bob : Transfer toy_wallet toy_cipher store no_fault two_keys
alice_to_bob = record {
  profile_name = testing;
  profile = onyx;
  from_key = alice;
  to_key = bob;
  signer = codes "able bold";
  from_address = codes "able";
  to_address = codes "calm";
  amount = pos 5;
}

key_send-alice :
    (key_send toy_wallet toy_cipher store no_fault two_keys no_number configuration true rich lands
      asked).called
    ≡ some alice_to_bob
unfolding key_send transfer_of require_profile send_arguments string_arg int64_arg agent_address
    signer_for_profile agent_signer require_funded asks_balance resolve_key_name valid_key_name
    is_testnet is_local is_read_only chain_id_writable is_testnet_chain_id valid_profile_name
    decrypt lookup eqb has_prefix all_chars
key_send-alice = refl

key_send-IsOwn_example :
    IsOwn toy_wallet toy_cipher store no_fault two_keys configuration rich alice_to_bob
key_send-IsOwn_example =
    key_send-IsOwn toy_wallet toy_cipher store no_fault two_keys no_number configuration true rich
      lands asked alice_to_bob key_send-alice
