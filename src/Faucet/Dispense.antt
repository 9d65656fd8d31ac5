-- ===== src/Faucet/Dispense.antt =====
-- faucet/dispense.go: the dispenser behind a grant, and the cache of the funding balance. The client of
-- the toolchain is the arguments: the parsed recipient, the chain's gas price, whether the transaction
-- is built and signed, and what the broadcast comes to.
pub mod Fresh
use gno_mcp.Prelude.{
  ℕ, ◌+◌, ◌-◌, ◌/◌, ◌%◌, Bytes, Bool, true, false, not, ◌&&◌, Option, none, some, [], ◌∷◌,
  if◌then◌else◌, ltb,
}
use gno_mcp.Prelude.Int.{ℤ, pos, quot}
use gno_mcp.Prelude.Result.{Result, ok, err}
use gno_mcp.GasPrice.{GasPrice, compute}
use gno_mcp.GasPrice
use gno_mcp.Faucet.Fund.{SendOutcome, sent, not_granted, outcome_unknown}

-- What BroadcastTxCommit comes to: a result, an error with a result, an error alone.
pub data Broadcast : Type 0 where
  committed : Bytes → Broadcast
  refused no_answer : Broadcast

-- hex.EncodeToString
abbrev pub hex_digit : ℕ → ℕ
hex_digit n = if ltb n 10 then b'0' + n else b'a' + (n - 10)

unfoldable pub hex : Bytes → Bytes
hex [] = []
hex (c ∷ s) = hex_digit (c / 16) ∷ hex_digit (c % 16) ∷ hex s

-- the switch at the end of Send
abbrev pub settled : Broadcast → SendOutcome
settled (committed hash) = sent (hex hash)
settled refused = not_granted
settled no_answer = outcome_unknown

-- Send behind the price: `builds` and `signs` say whether these steps succeed, `broadcast` what the
-- offered fee comes to
abbrev pub priced_send : Bool → Bool → (ℤ → Broadcast) → Result GasPrice.Error ℤ → SendOutcome
priced_send builds signs broadcast (err e) = not_granted
priced_send builds signs broadcast (ok fee) =
    if builds && signs then settled (broadcast fee) else not_granted

-- Send, of a dispenser that NewGnoclientDispenser has made for `gas_wanted`
unfoldable pub send :
    ℤ → Option Bytes → Option GasPrice → Bool → Bool → (ℤ → Broadcast) → SendOutcome
unfolding compute hex
send gas_wanted none price builds signs broadcast = not_granted
send gas_wanted (some to) none builds signs broadcast = not_granted
send gas_wanted (some to) (some price) builds signs broadcast =
    priced_send builds signs broadcast
      (compute price gas_wanted (quot gas_wanted (pos 1000)) (pos 2) (pos 1))

-- the variables of NewGnoclientBalance's closure
pub record Cache : Type 0 where
  pub cached : ℤ
  pub cached_at : ℕ
  pub seeded : Bool

-- one call of the closure at the time `now`, where a query would answer `queried`
unfoldable pub balance_at : ℕ → ℕ → Option ℤ → Cache → Option ℤ × Cache
balance_at ttl now queried c =
    if c.seeded && ltb (now - c.cached_at) ttl then (some c.cached, c) else elim queried [
      | none ↦ (none, c)
      | some b ↦ (some b, record { cached = b; cached_at = now; seeded = true })
    ]
