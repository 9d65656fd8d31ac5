-- ===== src/Faucet/Fund.antt =====
-- faucet/faucet.go: one request for a grant, `(*Faucet).Fund`. The bech32 parser of the toolchain is
-- the argument `parse` (the canonical address, or none), the funding balance is what
-- `fundingBalance` answers, and the outcome of the send is the dispenser's.
pub mod Checks
use gno_mcp.Prelude.{ℕ, Bytes, eqb, Bool, true, false, not, ◌&&◌, Option, none, some, if◌then◌else◌}
use gno_mcp.Prelude.Int.{ℤ, pos, ltb_ℤ}
use gno_mcp.Prelude.Result.{Result, ok, err}
use gno_mcp.Faucet.Float64.{Float64}
use gno_mcp.Faucet.Limiter.{Limiter, allow, refund}
use gno_mcp.Faucet.Limiter

-- What f.fundingBalance gives, where it is set: an amount, or a failed query.
pub data Balance : Type 0 where
  no_source : Balance
  query_failed : Balance
  holds : ℤ → Balance

-- Dispenser.Send: a transaction hash, a failure that wraps ErrNotGranted, any other failure.
pub data SendOutcome : Type 0 where
  sent : Bytes → SendOutcome
  not_granted : SendOutcome
  outcome_unknown : SendOutcome

pub data FundError : Type 0 where
  chain_mismatch bad_address balance_failed funding_low : FundError
  limited : Limiter.Error → FundError
  dispense_failed : FundError

module _ (F : Float64) where
  pub record Faucet : Type 0 where
    pub chain_id : Bytes
    pub grant_ugnot : ℤ
    pub min_funding_ugnot : ℤ
    pub limiter : Limiter F

  pub record Request : Type 0 where
    pub address : Bytes
    pub ip : Bytes
    pub chain_id : Bytes

  -- `f.fundingBalance != nil && f.minFundingUgnot > 0`, and the test behind it
  unfoldable pub check_balance : ℤ → Balance → Result FundError (Unit {0})
  check_balance min_funding no_source = ok tt
  check_balance min_funding query_failed =
      if ltb_ℤ (pos 0) min_funding then err balance_failed else ok tt
  check_balance min_funding (holds bal) =
      if ltb_ℤ (pos 0) min_funding && ltb_ℤ bal min_funding then err funding_low else ok tt

  -- The part of Fund before the send: on success the canonical address and the time of the grant.
  -- `recipient` is what `parse` gives for the request's address.
  unfoldable pub limited_grant : Bytes → Bytes → ℕ → Faucet → Result FundError (Bytes × ℕ) × Faucet
  limited_grant canonical ip now f =
      let (r, l) = allow F canonical ip now f.limiter in
      elim r [
        | ok granted_at ↦ (ok (canonical, granted_at), record f { limiter = l })
        | err e ↦ (err (limited e), record f { limiter = l })
      ]

  unfoldable pub funded_grant :
      Result FundError (Unit {0})
      → Bytes
      → Bytes
      → ℕ
      → Faucet
      → Result FundError (Bytes × ℕ) × Faucet
  unfolding limited_grant
  funded_grant (ok _) canonical ip now f = limited_grant canonical ip now f
  funded_grant (err e) canonical ip now f = (err e, f)

  unfoldable pub begin_grant :
      Option Bytes → Balance → Request → ℕ → Faucet → Result FundError (Bytes × ℕ) × Faucet
  unfolding check_balance funded_grant
  begin_grant recipient balance q now f =
      if not (eqb q.chain_id f.chain_id) then (err chain_mismatch, f) else elim recipient [
        | none ↦ (err bad_address, f)
        | some canonical ↦
            funded_grant (check_balance f.min_funding_ugnot balance) canonical q.ip now f
      ]

  -- The part of Fund behind the send, with `now` for the clock that Refund reads.
  unfoldable pub end_grant :
      SendOutcome → Bytes → Bytes → ℕ → ℕ → Faucet → Result FundError Bytes × Faucet
  end_grant (sent tx) canonical ip granted_at now f = (ok tx, f)
  end_grant not_granted canonical ip granted_at now f =
      (err dispense_failed, record f { limiter = refund F canonical ip granted_at now f.limiter })
  end_grant outcome_unknown canonical ip granted_at now f = (err dispense_failed, f)

  unfoldable pub after_begin :
      Result FundError (Bytes × ℕ)
      → Bytes
      → (Bytes → SendOutcome)
      → ℕ
      → Faucet
      → Result FundError Bytes × Faucet
  after_begin (ok (canonical, granted_at)) ip send now f =
      end_grant (send canonical) canonical ip granted_at now f
  after_begin (err e) ip send now f = (err e, f)

  -- Fund with no other request in between: `send` is the dispenser, `later` the time at which it
  -- has answered.
  unfoldable pub fund :
      (Bytes → Option Bytes)
      → Balance
      → (Bytes → SendOutcome)
      → Request
      → ℕ
      → ℕ
      → Faucet
      → Result FundError Bytes × Faucet
  unfolding begin_grant end_grant after_begin
  fund parse balance send q now later f =
      let (r, f') = begin_grant (parse q.address) balance q now f in
      after_begin r q.ip send later f'
