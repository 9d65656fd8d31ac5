-- ===== src/Session/Store/Tests.antt =====
-- A session written and read back, and the theorems about the store.
use gno_mcp.Prelude.{
  ◌≡◌, ◌≢◌, refl, Bytes, codes, eqb, Bool, true, false, Option, none, some, [], ◌∷◌, ◌++◌,
  if◌then◌else◌, arith, ◌==◌,
}
use gno_mcp.Prelude.Int.{pos}
use gno_mcp.Prelude.Map.{lookup, insert, delete}
use gno_mcp.Prelude.Result.{ok, err}
use gno_mcp.Secret.{encrypt}
use gno_mcp.Secret.Tests.{
  toy_cipher, toy_cipher-IsCipher, swordfish, sixteen, some_salt, some_nonce,
}
use gno_mcp.Files.{file, Root, write_temp, write_file_atomic}
use gno_mcp.Files.Tests.{all_succeed, temp}
use gno_mcp.Session.Manager.{active, SessionMeta}
use gno_mcp.Session.Store.{
  Codec, IsCodec, no_passphrase, session_file, StoreIo, StoreDraw, encode, write, read,
}
use gno_mcp.Session.Store.RoundTrip.{IsStoreDraw, read-write, read-no_passphrase}

abbrev pub blog_session : SessionMeta
blog_session = record {
  session_address = codes "g1s";
  session_pubkey = codes "gpub1s";
  master_address = codes "g1m";
  privkey = codes "secret";
  encrypted = false;
  allow_paths = codes "gno.land/r/me/blog" ∷ [];
  allow_run = false;
  spend_limit = codes "100ugnot";
  spend_remaining = codes "40ugnot";
  expires_at = pos 3600;
  created_at = pos 0;
  state = active;
}

-- the blog's session, as its key and its flag
abbrev marshal_blog : SessionMeta → Option Bytes
marshal_blog m = some ((if m.encrypted then 1 else 0) ∷ m.privkey)

abbrev unmarshal_blog : Bytes → Option SessionMeta
unmarshal_blog [] = none
unmarshal_blog (flag ∷ key) = some (record blog_session { privkey = key; encrypted = flag == 1 })

abbrev toy_codec : Codec
toy_codec = record { marshal = marshal_blog; unmarshal = unmarshal_blog }

unmarshal-marshal_blog :
    (key : Bytes) (enc : Bool)
    → (text : Bytes) × (marshal_blog (record blog_session { privkey = key; encrypted = enc })
        ≡ some text)
      × (unmarshal_blog text ≡ some (record blog_session { privkey = key; encrypted = enc }))
unmarshal-marshal_blog key true = (1 ∷ key, refl, refl)
unmarshal-marshal_blog key false = (0 ∷ key, refl, refl)

toy_codec-IsCodec : IsCodec toy_codec blog_session
toy_codec-IsCodec = record { unmarshal-marshal = unmarshal-marshal_blog }

abbrev fresh_draw : StoreDraw
fresh_draw = record { salt = some_salt; nonce = some_nonce; tmp = temp; calls = all_succeed }

fresh_draw-IsStoreDraw : IsStoreDraw fresh_draw
fresh_draw-IsStoreDraw = record {
  salt_sized = λ s e. ground (arith, e);
  nonce_sized = λ n e. ground (arith, e);
}

abbrev pub no_fault : StoreIo
no_fault = record { reads_dir = true; reads = λ name. true; removes = true }

abbrev stored : Root
stored =
    (
      codes "onyx",
      (
        codes "g1s.key",
        file (
            1
            ∷ 1
            ∷ (sixteen ++ codes "0123456789ab" ++ (codes "swordfish0123456" ++ codes "secret"))),
      )
          ∷ [],
    )
    ∷ []

write-blog :
    write toy_cipher toy_codec swordfish fresh_draw (codes "onyx") blog_session [] ≡ (ok tt, stored)
unfolding write encode encrypt write_file_atomic write_temp lookup insert delete eqb
write-blog = refl

apart : session_file blog_session.session_address ≢ temp
apart = λ e. cc

read-write_example :
    read toy_cipher toy_codec swordfish no_fault (codes "onyx") (codes "g1s") stored
    ≡ ok (record blog_session { encrypted = false })
read-write_example =
    read-write toy_cipher toy_cipher-IsCipher toy_codec fresh_draw fresh_draw-IsStoreDraw swordfish
      (codes "onyx") blog_session [] stored no_fault toy_codec-IsCodec apart refl write-blog

read-no_passphrase_test :
    read toy_cipher toy_codec [] no_fault (codes "onyx") (codes "g1s") stored ≡ err no_passphrase
read-no_passphrase_test =
    read-no_passphrase toy_cipher toy_cipher-IsCipher toy_codec fresh_draw fresh_draw-IsStoreDraw
      swordfish (codes "onyx") blog_session [] stored no_fault toy_codec-IsCodec apart refl refl
      write-blog
