-- ===== src/Tools/KeySend.antt =====
-- internal/tools/write/keysend.go: a transfer between two keys of one profile. Base-10 integers of a
-- request are read by `parse_int64`, `balance` is the chain's answer for an account (none where the query
-- fails), and `send` what the chain client's Send comes to.

pub mod Sent
mod Tests
use gno_mcp.Prelude.{Bytes, codes, eqb, is_empty, Bool, true, false, not, Option, none, some}
use gno_mcp.Prelude.Int.{ℤ, pos, ltb_ℤ}
use gno_mcp.Prelude.Map.{Map}
use gno_mcp.Prelude.Result.{Result, ok, err, guard, ◌>>=◌, ◌>>◌}
use gno_mcp.Secret.{Cipher}
use gno_mcp.Files.{Root}
use gno_mcp.Profiles.Profile.{Profile}
use gno_mcp.Server.Args.{Args, ArgError, string_arg, int64_arg}
use gno_mcp.Keystore.{Wallet, KeyError, Keystore, Io}
use gno_mcp.Keystore.Operations.{agent_address}
use gno_mcp.Tools.Identity.{
  OpError, WriteError, signer_failed, broadcast_failed, or_wrapped, agent_key_tool_error,
  agent_signer, require_funded,
}
use gno_mcp.Tools.Dispatch.{AuditResult, tool_err, done_ok, broadcast_err}
use gno_mcp.Tools.Propose.{ProposeError, require_profile}

pub data SendError : Type 0 where
  not_requested : ProposeError → SendError
  bad_send_arg : ArgError → SendError
  destination_required invalid_amount no_client same_account : SendError
  not_signed : WriteError → SendError

abbrev pub of_request {ℓ} : {A : Type ℓ} → Result ProposeError A → Result SendError A
of_request (ok a) = ok a
of_request (err e) = err (not_requested e)

abbrev pub of_send_arg {ℓ} : {A : Type ℓ} → Result ArgError A → Result SendError A
of_send_arg (ok a) = ok a
of_send_arg (err e) = err (bad_send_arg e)

abbrev pub of_write {ℓ} : {A : Type ℓ} → Result WriteError A → Result SendError A
of_write (ok a) = ok a
of_write (err e) = err (not_signed e)

-- keySendHandler: the address of the destination, behind AgentAddress
abbrev pub destination : Result KeyError Bytes → Result SendError Bytes
destination (ok addr) = ok addr
destination (err e) = err (not_signed (or_wrapped (agent_key_tool_error e) (signer_failed e)))

-- keySendHandler: its arguments
unfoldable pub send_arguments : (Bytes → Option ℤ) → Args → Result SendError (Bytes × Bytes × ℤ)
unfolding string_arg int64_arg
send_arguments parse_int64 args = do
  from ← of_send_arg (string_arg args (codes "from"))
  to ← of_send_arg (string_arg args (codes "to"))
  guard (not (is_empty to)) destination_required
  amount ← of_send_arg (int64_arg parse_int64 args (codes "amount"))
  guard (ltb_ℤ (pos 0) amount) invalid_amount
  ok (from, to, amount)

module _ (w : Wallet) (c : Cipher) (k : Keystore) (io : Io) (root : Root) where
  -- what Send is called with, and the names that it comes from
  pub record Transfer : Type 0 where
    pub profile_name : Bytes
    pub profile : Profile
    pub from_key : Bytes
    pub to_key : Bytes
    pub signer : w.Signer
    pub from_address : Bytes
    pub to_address : Bytes
    pub amount : ℤ

  -- what the handler returns, the audit's word for it, and the call of Send that it has made
  pub record Sending : Type 0 where
    pub result : Result SendError Transfer
    pub audit_result : AuditResult
    pub called : Option Transfer

  -- keySendHandler, up to Send
  unfoldable pub transfer_of :
      (Bytes → Option ℤ)
      → Map Profile
      → Bool
      → (Bytes → Option ℤ)
      → Args
      → Result SendError Transfer
  unfolding require_profile send_arguments agent_address agent_signer require_funded
  transfer_of parse_int64 config has_client balance args = do
    (name, p) ← of_request (require_profile config args)
    (from, to, amount) ← send_arguments parse_int64 args
    to_addr ← destination (agent_address w c k io name to p root)
    guard has_client no_client
    (signer, from_addr) ← of_write (agent_signer w c k io root name from p)
    of_write (require_funded balance from_addr p false)
    guard (not (eqb from_addr to_addr)) same_account
    ok (record {
      profile_name = name;
      profile = p;
      from_key = from;
      to_key = to;
      signer = signer;
      from_address = from_addr;
      to_address = to_addr;
      amount = amount;
    })

  -- keySendHandler, behind Send
  abbrev pub after_send : Transfer → Result OpError (Unit {0}) → Sending
  after_send t (ok u) = record { result = ok t; audit_result = done_ok; called = some t }
  after_send t (err e) = record {
    result = err (not_signed (broadcast_failed e));
    audit_result = broadcast_err;
    called = some t;
  }

  -- keySendHandler, from Send on
  abbrev pub sending : (Transfer → Result OpError (Unit {0})) → Result SendError Transfer → Sending
  sending send (err e) = record { result = err e; audit_result = tool_err; called = none }
  sending send (ok t) = after_send t (send t)

  -- keySendHandler
  unfoldable pub key_send :
      (Bytes → Option ℤ)
      → Map Profile
      → Bool
      → (Bytes → Option ℤ)
      → (Transfer → Result OpError (Unit {0}))
      → Args
      → Sending
  unfolding transfer_of
  key_send parse_int64 config has_client balance send args =
      sending send (transfer_of parse_int64 config has_client balance args)
