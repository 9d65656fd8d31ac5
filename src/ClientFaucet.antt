-- ===== src/ClientFaucet.antt =====
-- internal/clientfaucet: how gnomcp asks a faucet to fund the agent's key. The HTTP exchange and the
-- JSON decoder are arguments; a body is given as far as its bounded read goes.
pub mod Poll
pub mod Unsent
mod Tests
use gno_mcp.Prelude.{
  ℕ, ◌/◌, Bytes, codes, eqb, is_empty, has_prefix, all_chars, is_digit, drop, length, leb, Bool,
  true, false, not, ◌&&◌, ◌||◌, Option, none, some, if◌then◌else◌, ◌==◌,
}
use gno_mcp.Prelude.Int.{ℤ, pos, ltb_ℤ, quot}
use gno_mcp.Prelude.Result.{Result, ok, err}
use gno_mcp.Profiles.Profile.{Profile}

-- Outcome, without its instructions
pub data FundOutcome : Type 0 where
  by_service : Bytes → Bytes → FundOutcome
  by_link : Bytes → Bytes → FundOutcome
  by_hand : Bytes → FundOutcome

-- the errors of Fund
pub data ClientError : Type 0 where
  -- ErrServiceFailed
  service_failed : ClientError
  unreachable bad_response bad_tx_hash : ClientError
  service_error : ℕ → ClientError
  -- rateLimitMessage: whether it names the address, and its hours
  rate_limited : Bool → ℤ → ClientError

-- what the request comes to: a timeout, another failure, or a status and a body
pub data HttpAnswer : Type 0 where
  timed_out not_reached : HttpAnswer
  answered : ℕ → Bytes → HttpAnswer

-- the two decodings of a body: the tx_hash of a grant, the limit and the seconds of a refusal
pub record Decoder : Type 0 where
  pub tx_hash : Bytes → Option Bytes
  pub limit : Bytes → Bytes
  pub retry_after : Bytes → ℤ

-- [0-9a-fA-F]
abbrev pub is_hex : ℕ → Bool
is_hex c = is_digit c || (leb b'a' c && leb c b'f') || (leb b'A' c && leb c b'F')

-- `[0-9a-fA-F]{1,128}`
abbrev pub is_hex_text : Bytes → Bool
is_hex_text s = not (is_empty s) && leb (length s) 128 && all_chars is_hex s

-- `(0x)?[0-9a-fA-F]{1,128}`: txHashRE
unfoldable pub valid_tx_hash : Bytes → Bool
unfolding has_prefix all_chars
valid_tx_hash s = if has_prefix s (codes "0x") then is_hex_text (drop 2 s) else is_hex_text s

-- rateLimitMessage
unfoldable pub rate_limit_message : Decoder → Bytes → ClientError
unfolding eqb quot
rate_limit_message d body =
    let hours = quot (d.retry_after body) (pos 3600) in
    rate_limited (eqb (d.limit body) (codes "per_address"))
      (if ltb_ℤ hours (pos 1) then pos 24 else hours)

-- the statuses that do not rule out a landed grant: 500, 502 and 504
abbrev pub is_unsettled : ℕ → Bool
is_unsettled status = status == 500 || status == 502 || status == 504

-- (*ServiceFaucet).Fund, for a body that was decoded
abbrev pub with_hash : Bytes → Option Bytes → Result ClientError FundOutcome
with_hash address none = err bad_response
with_hash address (some tx) =
    if valid_tx_hash tx then ok (by_service address tx) else err bad_tx_hash

-- (*ServiceFaucet).Fund, behind http.Client.Do
unfoldable pub service_fund : Decoder → Bytes → HttpAnswer → Result ClientError FundOutcome
unfolding rate_limit_message valid_tx_hash
service_fund d address timed_out = err service_failed
service_fund d address not_reached = err unreachable
service_fund d address (answered status body) =
    if status == 429
    then err (rate_limit_message d body)
    else if not (status == 200)
    then if is_unsettled status then err service_failed else err (service_error status)
    else with_hash address (d.tx_hash body)

-- (*LinkFaucet).Fund
unfoldable pub link_fund : Bytes → Bytes → FundOutcome
link_fund faucet_url address =
    if is_empty faucet_url then by_hand address else by_link address faucet_url

-- Resolve, and the Fund of what it picks
unfoldable pub client_fund : Decoder → Profile → Bytes → HttpAnswer → Result ClientError FundOutcome
unfolding service_fund link_fund
client_fund d p address answer =
    if not (is_empty p.faucet_service_url)
    then service_fund d address answer
    else ok (link_fund p.faucet_url address)

-- Funded, of both backends, for the answer of the balance query
abbrev pub client_funded : Option ℤ → Option Bool
client_funded none = none
client_funded (some bal) = some (ltb_ℤ (pos 0) bal)

-- what FetchServiceLimits makes of an answer: no limits, a failure, or the limits
pub data LimitsAnswer : Type 0 where
  no_limits limits_failed : LimitsAnswer
  published : Bytes → LimitsAnswer

-- FetchServiceLimits
unfoldable pub fetch_service_limits : (Bytes → Option Bytes) → Profile → HttpAnswer → LimitsAnswer
fetch_service_limits decode p answer =
    if is_empty p.faucet_service_url then no_limits else elim answer [
      | timed_out ↦ limits_failed
      | not_reached ↦ limits_failed
      | answered status body ↦
          if status == 404 || status == 405
          then no_limits
          else if not (status == 200)
          then limits_failed
          else elim (decode body) [ none ↦ limits_failed | some l ↦ published l ]
    ]
