-- ===== src/Lib.antt =====
-- Verification of gno-mcp, the MCP server that lets an agent read and write gno chains, and of the
-- faucet service that funds agent keys.
--
-- The program's parts. An agent calls the tools of the server (cmd/gnomcp, internal/server,
-- internal/tools). A tool works on a profile (internal/profiles), which names a chain. It writes under
-- the agent's own key (internal/keystore) or under a session (internal/session), whose scope a human has
-- approved; private keys rest on disk as the blobs of internal/secret, by the writes of
-- internal/fsutil. A write pays a fee that is sized from the chain's live gas price
-- (internal/chain/gasfee.go, gasprice), and what a tool shows of a chain is put into an envelope and
-- under a budget (internal/untrusted, internal/budget). The faucet (faucet, cmd/agentfaucet) is a service
-- of its own, which pays fixed grants and is bounded by a limiter; internal/clientfaucet asks it.
--
-- What models what:
--   Prelude     shared: Boolean tests, lists, byte strings, decimal numbers, Go maps, int64 with its
--               wrap-around, `(value, error)` pairs. No code of the repository.
--   GasPrice    gasprice/gasprice.go: `compute` is Compute. Fee holds the proofs.
--   Chain       internal/chain/gasfee.go and three constants of internal/chain/real.go: gasWantedFor,
--               currentGasFee, GasFeeUgnot.
--   Faucet      Limiter is faucet/limiter.go: the state `Limiter`, and allow, refund, snapshot, policy
--               for Allow, Refund, Snapshot, Policy. Fund is (*Faucet).Fund of faucet/faucet.go, cut at
--               the send into begin_grant and end_grant. Service runs these two as the steps of
--               concurrent requests. Dispense is faucet/dispense.go. Http is faucet/server.go,
--               faucet/metrics.go and faucet/clientip.go. Float64 is the interface of Go's float64 that
--               the drip bucket uses. The grant that Fund sends and the one that the limiter counts are
--               fields of their own, as in the code, where one flag sets both.
--   Profiles    internal/profiles: Formats is the regular expressions of validate.go, Profile the
--               kinds and limits (config.go, limits.go), Config is Validate, Merge, the built-in
--               profiles and LoadResolved (sources.go).
--   Session     internal/session: Coins and Scope are scope.go (parse_coins, clamp_coin,
--               resolve_scope); Manager is manager.go and chain_check.go, for the sessions of one
--               profile (pick_session, update_spend, settle_spend, add_pending, mark_active,
--               mark_inactive, hydrate). Store is store.go (write, read, encode, decode), and Gnokey
--               is gnokey.go, the commands that a human pastes.
--   Untrusted   internal/untrusted/untrusted.go (neutralize, wrap) and internal/budget/budget.go
--               (apply, wrapped_at).
--   Files       internal/fsutil/fsutil.go: a write is the list of the moments that the directory passes
--               through. A crash can come at any of them, and leaves any bytes in the place of data
--               that no Sync has flushed.
--   Secret      internal/secret/secret.go: encrypt and decrypt over the interface Cipher.
--   Keystore    internal/keystore/keystore.go: Operations is generation, deletion and reading; Refinement
--               relates them to an abstract map from names to keys; Keys, Cap and Listing hold the rest.
--   Tools       internal/tools/write: Identity is identity.go, Dispatch the pipeline of dispatch.go, with
--               the calls it makes on the outside as a list of effects; Propose is
--               session_propose.go, Revoke session_revoke.go and KeySend keysend.go.
--   Server      internal/server: Args is args.go, Registry is registry.go.
--   ClientFaucet  internal/clientfaucet: the transport of a request and the reading of its answer. Poll
--               is pollFunded of internal/tools/write/faucet.go.
--
-- Conventions. A method of a Go object is a function from the old state to a result and the new state.
-- A mutex makes a method one step, so that an interleaving is a list of steps. A call of the clock, the
-- chain, the file system or a library is an argument. Errors are constructors, without their texts. A
-- Go string is the list of its bytes; a map is an association list in the order in which a `range`
-- visits it, and every theorem holds for any order. An int is unbounded where it only counts what is in
-- memory; an int64 is `add64`, `sub64`, `mul64`, `quot64` on integers where it is computed with. Two
-- definitions run on fuel: the printing of a decimal number, which has 20 digits where an int64 needs 19,
-- and the rounds of pollFunded, for which timeout / interval + 2 are enough.
--
-- Not modelled: the chain client (internal/chain/real.go), the indexer and gnoweb clients, the audit log
-- and the binaries, which do IO or call a library; the read, admin, indexer and parked tools, which format
-- what a node answers or edit a file by its library; the code that walks syntax trees
-- (internal/gnosrc); and of the write tools the handlers around the dispatcher (gno_call, gno_run, gno_addpkg), the
-- argument schemas and the texts of the results. The library's JSON, TOML, scrypt, AES-GCM, BIP39, bech32 and HTTP are
-- arguments.
pub mod Prelude
pub mod GasPrice
pub mod Chain
pub mod Faucet
pub mod Profiles
pub mod Session
pub mod Untrusted
pub mod Files
pub mod Secret
pub mod Keystore
pub mod Tools
pub mod Server
pub mod ClientFaucet
