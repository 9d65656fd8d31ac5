-- ===== src/Tools/KeySend/Sent.antt =====
-- What holds of a transfer that gno_key_send hands to the chain.
use gno_mcp.Prelude.{
  ◌≡◌, ◌≢◌, refl, sym, ap, ◌∙◌, subst, Bytes, codes, eqb, eqb_iff, is_empty, Bool, true, false, not,
  Option, none, some, arith, Bool-cases, inl, inr,
}
use gno_mcp.Prelude.Int.{ℤ, pos, ltb_ℤ, ◌<ℤ◌}
use gno_mcp.Prelude.Map.{Map, lookup}
use gno_mcp.Prelude.Result.{Result, ok, err, guard, bind-elim}
use gno_mcp.Secret.{Cipher}
use gno_mcp.Files.{Root}
use gno_mcp.Profiles.Profile.{Profile, is_testnet}
use gno_mcp.Server.Args.{Args, string_arg, int64_arg}
use gno_mcp.Keystore.{Wallet, Keystore, Io}
use gno_mcp.Keystore.Operations.{agent_address}
use gno_mcp.Tools.Identity.{
  OpError, agent_signer, require_funded, asks_balance, enough_funds, is_zero,
}
use gno_mcp.Tools.Propose.{require_profile}
use gno_mcp.Tools.Propose.Reads.{require_profile-named}
use gno_mcp.Tools.KeySend.{
  SendError, of_request, of_send_arg, of_write, destination, send_arguments, Transfer, transfer_of,
  after_send, sending, key_send,
}

of_request-ok {ℓ} : {A : Type ℓ} (r : Result _ A) {a : A} → of_request r ≡ ok a → r ≡ ok a
of_request-ok (ok b) h = ground arith
of_request-ok (err e) h = absurd (ground arith)

of_write-ok {ℓ} : {A : Type ℓ} (r : Result _ A) {a : A} → of_write r ≡ ok a → r ≡ ok a
of_write-ok (ok b) h = ground arith
of_write-ok (err e) h = absurd (ground arith)

destination-ok : (r : Result _ Bytes) {a : Bytes} → destination r ≡ ok a → r ≡ ok a
destination-ok (ok b) h = ground arith
destination-ok (err e) h = absurd (ground arith)

some-inj {ℓ} : {A : Type ℓ} {a b : A} → ◌≡◌ {A = Option A} (some a) (some b) → a ≡ b
some-inj h = ground (arith, h)

guard-true : (b : Bool) (e : SendError) {u : Unit {0}} → guard b e ≡ ok u → b ≡ true
guard-true true e h = refl
guard-true false e h = absurd (ground arith)

ok-inj {ℓ} : {A : Type ℓ} {a b : A} → ◌≡◌ {A = Result SendError A} (ok a) (ok b) → a ≡ b
ok-inj h = ground (arith, h)

distinct : (a b : Bytes) → not (eqb a b) ≡ true → a ≢ b
distinct a b h same = ground (arith, h, eqb_iff a b, same)

send_arguments-positive :
    (parse_int64 : Bytes → Option ℤ) (args : Args) (from to : Bytes) (amount : ℤ)
    → send_arguments parse_int64 args ≡ ok (from, to, amount)
    → pos 0 <ℤ amount
unfolding send_arguments
send_arguments-positive parse_int64 args from to amount h =
    bind-elim _ (of_send_arg (string_arg args (codes "from"))) _ h λ from' e1 h1.
      bind-elim _ (of_send_arg (string_arg args (codes "to"))) _ h1 λ to' e2 h2.
        bind-elim _ (guard (not (is_empty to')) _) _ h2 λ u e3 h3.
          bind-elim _ (of_send_arg (int64_arg parse_int64 args (codes "amount"))) _ h3
            λ amount' e4 h4.
              bind-elim _ (guard (ltb_ℤ (pos 0) amount') _) _ h4 λ u' e5 h5.
                subst (λ (q : Bytes × Bytes × ℤ). pos 0 <ℤ q.2) (ok-inj h5) (ground arith)

-- the account of a testnet profile holds coins, by the chain's answer
abbrev pub Holds : (Bytes → Option ℤ) → Bytes → Type 0
Holds balance addr = (b : ℤ) × (balance addr ≡ some b) × (is_zero b ≡ false)

enough_funds-Holds :
    (balance : Bytes → Option ℤ) (addr : Bytes) (o : Option ℤ) {u : Unit {0}}
    → balance addr ≡ o
    → enough_funds o ≡ ok u
    → Holds balance addr
enough_funds-Holds balance addr none is h = absurd (ground arith)
enough_funds-Holds balance addr (some b) is h = elim (Bool-cases (is_zero b)) [
  | inl zero ↦ absurd (ground (arith, rw zero at h))
  | inr held ↦ (b, is, held)
]

require_funded-Holds :
    (balance : Bytes → Option ℤ) (addr : Bytes) (p : Profile) {u : Unit {0}}
    → require_funded balance addr p false ≡ ok u
    → is_testnet p ≡ true
    → Holds balance addr
unfolding require_funded asks_balance
require_funded-Holds balance addr p h testnet =
    let asked : enough_funds (balance addr) ≡ ok _ = rw testnet at h in
    enough_funds-Holds balance addr (balance addr) refl asked

module _ (w : Wallet) (c : Cipher) (k : Keystore) (io : Io) (root : Root) where
  -- A transfer between two accounts of the agent: both are keys of one profile of the configuration.
  pub record IsOwn (config : Map Profile) (balance : Bytes → Option ℤ) (t : Transfer w c k io root)
      : Type 0 where
    pub configured : lookup t.profile_name config ≡ some t.profile
    pub positive : pos 0 <ℤ t.amount
    pub own_source :
        agent_signer w c k io root t.profile_name t.from_key t.profile
        ≡ ok (t.signer, t.from_address)
    pub own_destination :
        agent_address w c k io t.profile_name t.to_key t.profile root ≡ ok t.to_address
    pub distinct_accounts : t.from_address ≢ t.to_address
    pub funded : is_testnet t.profile ≡ true → Holds balance t.from_address

  transfer_of-IsOwn :
      (parse_int64 : Bytes → Option ℤ) (config : Map Profile) (has_client : Bool)
      (balance : Bytes → Option ℤ) (args : Args) (t : Transfer w c k io root)
      → transfer_of w c k io root parse_int64 config has_client balance args ≡ ok t
      → IsOwn config balance t
  unfolding transfer_of
  transfer_of-IsOwn parse_int64 config has_client balance args t h =
      bind-elim _ (of_request (require_profile config args)) _ h λ (name, p) e1 h1.
        bind-elim _ (send_arguments parse_int64 args) _ h1 λ (from, to, amount) e2 h2.
          bind-elim _ (destination (agent_address w c k io name to p root)) _ h2 λ to_addr e3 h3.
            bind-elim _ (guard has_client _) _ h3 λ u e4 h4.
              bind-elim _ (of_write (agent_signer w c k io root name from p)) _ h4
                λ (signer, from_addr) e5 h5.
                  bind-elim _ (of_write (require_funded balance from_addr p false)) _ h5 λ u' e6 h6.
                    bind-elim _ (guard (not (eqb from_addr to_addr)) _) _ h6 λ u'' e7 h7.
                      subst (IsOwn config balance) (ok-inj h7) (record {
                        configured =
                            (require_profile-named config args name p
                              (of_request-ok (require_profile config args) e1)).1;
                        positive = send_arguments-positive parse_int64 args from to amount e2;
                        own_source = of_write-ok (agent_signer w c k io root name from p) e5;
                        own_destination = destination-ok (agent_address w c k io name to p root) e3;
                        distinct_accounts =
                            distinct from_addr to_addr
                              (guard-true (not (eqb from_addr to_addr)) _ e7);
                        funded =
                            require_funded-Holds balance from_addr p
                              (of_write-ok (require_funded balance from_addr p false) e6);
                      })

  after_send-called :
      (t : Transfer w c k io root) (answer : Result OpError (Unit {0}))
      → (after_send w c k io root t answer).called ≡ some t
  after_send-called t (ok u) = refl
  after_send-called t (err e) = refl

  sending-called :
      (send : Transfer w c k io root → Result OpError (Unit {0}))
      (r : Result SendError (Transfer w c k io root)) (t : Transfer w c k io root)
      → (sending w c k io root send r).called ≡ some t
      → r ≡ ok t
  sending-called send (err e) t h = absurd (ground arith)
  sending-called send (ok t') t h =
      let same : some t' ≡ some t = sym (after_send-called t' (send t')) ∙ h in
      ap ok (some-inj same)

  -- What gno_key_send hands to the chain is a transfer between two keys of one profile of the configuration,
  -- at different addresses, of a positive amount, and signed by the first key; on a testnet the
  -- chain has said before that the first account holds coins.
  pub key_send-IsOwn :
      (parse_int64 : Bytes → Option ℤ) (config : Map Profile) (has_client : Bool)
      (balance : Bytes → Option ℤ) (send : Transfer w c k io root → Result OpError (Unit {0}))
      (args : Args) (t : Transfer w c k io root)
      → (key_send w c k io root parse_int64 config has_client balance send args).called ≡ some t
      → IsOwn config balance t
  unfolding key_send
  key_send-IsOwn parse_int64 config has_client balance send args t h =
      transfer_of-IsOwn parse_int64 config has_client balance args t (
        sending-called send (transfer_of w c k io root parse_int64 config has_client balance args) t
          h)
