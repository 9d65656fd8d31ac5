-- ===== src/Faucet/Http.antt =====
-- faucet/server.go, faucet/metrics.go and faucet/clientip.go: the answer to POST /fund, the
-- published limits, and the client's address. The JSON decoder's result is an argument.
pub mod Disclosure
pub mod ClientIp
use gno_mcp.Prelude.{ℕ, Bytes, is_empty, Bool, true, false, Option, none, some, if◌then◌else◌, ◌==◌}
use gno_mcp.Prelude.Int.{ℤ, pos, ltb_ℤ}
use gno_mcp.Prelude.Result.{Result, ok, err}
use gno_mcp.Faucet.Float64.{Float64}
use gno_mcp.Faucet.Limiter.{cooldown, rate_limited, daily_cap, drip_limited, policy}
use gno_mcp.Faucet.Fund.{
  Faucet, Request, Balance, SendOutcome, FundError, chain_mismatch, bad_address, balance_failed,
  funding_low, limited, dispense_failed, fund,
}

-- the Outcome labels
pub data Outcome : Type 0 where
  success bad_request wrong_chain on_cooldown ip_limited cap_reached drip_exceeded low_funds
        failed :
      Outcome

-- classify
unfoldable pub classify : Result FundError Bytes → ℕ × Outcome
classify (ok tx) = (200, success)
classify (err bad_address) = (400, bad_request)
classify (err chain_mismatch) = (403, wrong_chain)
classify (err (limited cooldown)) = (429, on_cooldown)
classify (err (limited rate_limited)) = (429, ip_limited)
classify (err (limited daily_cap)) = (429, cap_reached)
classify (err (limited drip_limited)) = (429, drip_exceeded)
classify (err funding_low) = (503, low_funds)
classify (err balance_failed) = (502, failed)
classify (err dispense_failed) = (502, failed)

-- `outcome == OutcomeCooldown`
abbrev pub is_cooldown : Outcome → Bool
is_cooldown on_cooldown = true
is_cooldown _ = false

-- What is written to the client. `names_address` says whether the 429 body has
-- `"limit": "per_address"`; `error_text` is `err.Error()`.
pub data Response : Type 0 where
  malformed : Response
  funded : Bytes → ℤ → Response
  dispense_error : Response
  too_many : ℤ → Bool → Response
  error_text : ℕ → FundError → Response

abbrev pub status_of : Response → ℕ
status_of malformed = 400
status_of (funded tx amount) = 200
status_of dispense_error = 502
status_of (too_many retry names_address) = 429
status_of (error_text status e) = status

module _ (F : Float64) where
  open F use {seconds, to_int}

  -- retryAfterSeconds
  unfoldable pub retry_after_seconds : Faucet F → ℤ
  retry_after_seconds f =
      let w = to_int (seconds (policy F f.limiter).per_addr_window) in
      if ltb_ℤ (pos 86400) w then w else pos 86400

  -- FaucetLimits, (*Faucet).Limits
  pub record FaucetLimits : Type 0 where
    pub grant_ugnot : ℤ
    pub max : ℤ
    pub window_seconds : ℤ

  unfoldable pub limits : Faucet F → FaucetLimits
  limits f =
      let p = policy F f.limiter in
      record {
        grant_ugnot = f.grant_ugnot;
        max = p.per_addr_max;
        window_seconds = to_int (seconds p.per_addr_window);
      }

  -- The `switch` at the end of handleFund.
  unfoldable pub respond : Faucet F → Result FundError Bytes → ℕ → Outcome → Response
  respond f (ok tx) status outcome = funded tx f.grant_ugnot
  respond f (err e) status failed = dispense_error
  respond f (err e) status outcome =
      if status == 429
      then too_many (retry_after_seconds f) (is_cooldown outcome)
      else error_text status e

  -- handleFund behind the decoder: `decoded` is the request's address and chain-id.
  unfoldable pub handle_fund :
      (Bytes → Option Bytes)
      → Balance
      → (Bytes → SendOutcome)
      → Option (Bytes × Bytes)
      → Bytes
      → ℕ
      → ℕ
      → Faucet F
      → (Response × Outcome) × Faucet F
  unfolding respond retry_after_seconds
  handle_fund parse balance send none ip now later f = ((malformed, bad_request), f)
  handle_fund parse balance send (some (address, chain_id)) ip now later f =
      let q : Request F = record { address = address; ip = ip; chain_id = chain_id } in
      let (r, f') = fund F parse balance send q now later f in
      let (status, outcome) = classify r in
      if is_empty address
      then ((malformed, bad_request), f)
      else ((respond f' r status outcome, outcome), f')
