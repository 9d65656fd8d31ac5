-- ===== src/Keystore/Tests.antt =====
-- A keystore of a testnet profile, and the theorems about it.
use gno_mcp.Prelude.{
  ◌≡◌, refl, Bytes, codes, eqb, has_prefix, all_chars, has_suffix, true, false, none, some, List,
  [], ◌∷◌, ◌++◌, take, In, arith,
}
use gno_mcp.Prelude.Int.{pos}
use gno_mcp.Prelude.Map.{lookup, insert, delete}
use gno_mcp.Prelude.Result.{ok}
use gno_mcp.Secret.{encrypt, decrypt}
use gno_mcp.Secret.Tests.{
  toy_cipher, toy_cipher-IsCipher, swordfish, sixteen, some_salt, some_nonce,
}
use gno_mcp.Files.{file, Root, dir_of, write_temp, write_file_exclusive}
use gno_mcp.Files.Tests.{all_succeed, temp}
use gno_mcp.Profiles.Formats.{valid_profile_name, is_testnet_chain_id, chain_id_writable}
use gno_mcp.Profiles.Profile.{Profile, is_local, is_testnet, is_read_only}
use gno_mcp.Profiles.Config.{plain}
use gno_mcp.Keystore.{
  Wallet, Keystore, Io, Draw, key_file, resolve_key_name, valid_key_name, key_count,
}
use gno_mcp.Keystore.Operations.{
  signer_for_profile, agent_address, count_keys, prepare, save_mnemonic, generate_for_profile,
  doomed, delete_for_profile,
}
use gno_mcp.Keystore.Keys.{IsTempName, IsDraw, agent_address-generate}
use gno_mcp.Keystore.Refinement.{
  view, KeepsOrAdds, KeepsOrDrops, generate_for_profile-KeepsOrAdds,
  delete_for_profile-KeepsOrDrops, delete_for_profile-ok,
}
use gno_mcp.Keystore.Cap.{IsCapped, KeystoreCall, generates, handle_all, handle_all-IsCapped}
use gno_mcp.Keystore.Listing.{KeyInfo, Tells, list_keys, list_keys-Tells}

abbrev pub toy_wallet : Wallet
toy_wallet = record {
  Signer = Bytes;
  signer_from_bip39 = λ mnemonic chain_id. some mnemonic;
  info_address = λ signer. some (take 4 signer);
}

abbrev pub store : Keystore
store = record { root_dir = codes "/keys"; passphrase = swordfish; max_keys = pos 2 }

abbrev pub no_fault : Io
no_fault = record { reads_dir = true; reads = λ name. true; stats = true; removes = true }

abbrev pub onyx : Profile
onyx = plain (codes "https://rpc.onyx.testnets.gno.land:443") (codes "onyx-1")

abbrev pub testing : Bytes
testing = codes "testing"

abbrev pub alice : Bytes
alice = codes "alice"

abbrev first_draw : Draw
first_draw = record {
  mnemonic = some (codes "able bold");
  salt = some_salt;
  nonce = some_nonce;
  tmp = temp;
  calls = all_succeed;
}

temp-IsTempName : IsTempName temp
unfolding has_suffix eqb
temp-IsTempName = record { dotted = refl; no_key = refl }

first_draw-IsDraw : IsDraw first_draw
first_draw-IsDraw = record {
  salt_sized = λ s e. ground (arith, e);
  nonce_sized = λ n e. ground (arith, e);
  temp_name = temp-IsTempName;
}

-- the files once alice's key is there
abbrev pub after_alice : Root
after_alice =
    (
      testing,
      (
        key_file alice,
        file (
            1
            ∷ (sixteen ++ codes "0123456789ab" ++ (codes "swordfish0123456" ++ codes "able bold"))),
      )
          ∷ [],
    )
    ∷ []

generate-alice :
    generate_for_profile toy_wallet toy_cipher store no_fault first_draw testing alice onyx []
    ≡ (ok (codes "able"), after_alice)
unfolding generate_for_profile prepare save_mnemonic count_keys key_count resolve_key_name
    valid_key_name is_testnet is_read_only is_local chain_id_writable is_testnet_chain_id
    valid_profile_name encrypt write_file_exclusive write_temp lookup insert delete eqb has_prefix
    all_chars has_suffix
generate-alice = refl

agent_address-generate_example :
    agent_address toy_wallet toy_cipher store no_fault testing alice onyx after_alice
    ≡ ok (codes "able")
agent_address-generate_example =
    agent_address-generate toy_wallet toy_cipher toy_cipher-IsCipher store no_fault first_draw
      first_draw-IsDraw testing [] alice (codes "able") onyx after_alice no_fault (λ name. refl)
      generate-alice

generate_for_profile-KeepsOrAdds_example : KeepsOrAdds testing (view toy_cipher store []) (
    view toy_cipher store (
      (generate_for_profile toy_wallet toy_cipher store no_fault first_draw testing alice onyx
        []).1))
generate_for_profile-KeepsOrAdds_example =
    generate_for_profile-KeepsOrAdds toy_wallet toy_cipher store no_fault testing []
      toy_cipher-IsCipher first_draw alice onyx first_draw-IsDraw

delete_for_profile-KeepsOrDrops_example : KeepsOrDrops testing (view toy_cipher store after_alice) (
    view toy_cipher store
      ((delete_for_profile toy_wallet toy_cipher store no_fault testing alice onyx after_alice).1))
delete_for_profile-KeepsOrDrops_example =
    delete_for_profile-KeepsOrDrops toy_wallet toy_cipher store no_fault testing after_alice alice
      onyx

delete-alice :
    delete_for_profile toy_wallet toy_cipher store no_fault testing alice onyx after_alice
    ≡ (ok (codes "able"), (testing, []) ∷ [])
unfolding delete_for_profile doomed agent_address signer_for_profile resolve_key_name valid_key_name
    is_testnet is_read_only is_local chain_id_writable is_testnet_chain_id valid_profile_name
    decrypt lookup insert delete eqb has_prefix all_chars
delete-alice = refl

delete_for_profile-ok_test :
    (name : Bytes) × (resolve_key_name alice ≡ ok name)
    × (agent_address toy_wallet toy_cipher store no_fault testing name onyx after_alice
        ≡ ok (codes "able"))
    × (view toy_cipher store ((testing, []) ∷ []) testing name ≡ none)
delete_for_profile-ok_test =
    delete_for_profile-ok toy_wallet toy_cipher store no_fault testing after_alice alice
      (codes "able") onyx ((testing, []) ∷ []) delete-alice

empty-IsCapped : IsCapped 2 []
unfolding IsCapped lookup key_count
empty-IsCapped q = omega arith

abbrev three_generated : List KeystoreCall
three_generated =
    generates first_draw no_fault testing alice onyx
    ∷ generates first_draw no_fault testing (codes "bob") onyx
    ∷ generates first_draw no_fault testing (codes "carol") onyx
    ∷ []

handle_all-IsCapped_example : IsCapped 2 (handle_all toy_wallet toy_cipher store three_generated [])
handle_all-IsCapped_example =
    handle_all-IsCapped toy_wallet toy_cipher store 1 three_generated [] refl empty-IsCapped

alice-stands :
    lookup (key_file alice) (dir_of testing after_alice)
    ≡ some (
        file (
          1 ∷ (sixteen ++ codes "0123456789ab" ++ (codes "swordfish0123456" ++ codes "able bold"))))
unfolding lookup eqb
alice-stands = refl

testing-valid : valid_profile_name testing ≡ true
unfolding valid_profile_name all_chars
testing-valid = refl

onyx-writable : is_read_only onyx ≡ false
unfolding is_read_only chain_id_writable is_testnet_chain_id has_prefix eqb
onyx-writable = refl

onyx-remote : is_local onyx ≡ false
unfolding is_local eqb
onyx-remote = refl

list_keys-Tells_example :
    (infos : List KeyInfo) × (list_keys toy_wallet toy_cipher store no_fault testing onyx
        after_alice
      ≡ ok infos)
    × ((info : KeyInfo) × Tells toy_wallet toy_cipher store no_fault testing onyx after_alice alice
          info
        × In info infos)
list_keys-Tells_example =
    list_keys-Tells toy_wallet toy_cipher store no_fault testing onyx after_alice alice _
      testing-valid onyx-writable onyx-remote refl refl alice-stands
