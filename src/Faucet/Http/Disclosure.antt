-- ===== src/Faucet/Http/Disclosure.antt =====
-- What an answer of POST /fund tells an anonymous caller.
use gno_mcp.Prelude.{
  ℕ, ◌≡◌, ◌↔◌, ◌⊎◌, inl, inr, Bytes, is_empty, Bool, true, Option, some, arith, Bool-cases, refl,
  sym, ◌∙◌,
}
use gno_mcp.Prelude.Int.{ℤ, pos, ◌≤ℤ◌}
use gno_mcp.Prelude.Result.{Result, ok, err}
use gno_mcp.Faucet.Float64.{Float64}
use gno_mcp.Faucet.Limiter.{cooldown}
use gno_mcp.Faucet.Fund.{
  Faucet, Request, Balance, SendOutcome, FundError, chain_mismatch, bad_address, funding_low,
  limited, fund,
}
use gno_mcp.Faucet.Http.{
  Response, malformed, too_many, error_text, status_of, classify, respond, retry_after_seconds,
  handle_fund,
}

module _ (F : Float64) where
  retry-ge-day : (f : Faucet F) → pos 86400 ≤ℤ retry_after_seconds F f
  unfolding retry_after_seconds
  retry-ge-day f = ground arith

  respond_limit :
      (f : Faucet F) (r : Result FundError Bytes) (retry : ℤ) (names : Bool)
      → respond F f r (classify r).0 (classify r).1 ≡ too_many retry names
      → (pos 86400 ≤ℤ retry) × ((names ≡ true) ↔ (r ≡ err (limited cooldown)))
  unfolding respond classify
  respond_limit f (ok tx) retry names h = absurd (cc)
  respond_limit f (err (limited cooldown)) retry names h = ground (arith, retry-ge-day f)
  respond_limit f (err chain_mismatch) retry names h = ground (arith, retry-ge-day f)
  respond_limit f (err e) retry names h = ground (arith, retry-ge-day f)

  respond_text :
      (f : Faucet F) (r : Result FundError Bytes) (status : ℕ) (e : FundError)
      → respond F f r (classify r).0 (classify r).1 ≡ error_text status e
      → (e ≡ chain_mismatch) ⊎ (e ≡ bad_address) ⊎ (e ≡ funding_low)
  unfolding respond classify
  respond_text f (ok tx) status e h = absurd (cc)
  respond_text f (err (limited cooldown)) status e h = ground arith
  respond_text f (err chain_mismatch) status e h = ground arith
  respond_text f (err x) status e h = ground arith

  respond_status :
      (f : Faucet F) (r : Result FundError Bytes)
      → status_of (respond F f r (classify r).0 (classify r).1) ≡ (classify r).0
  unfolding respond classify
  respond_status f (ok tx) = refl
  respond_status f (err (limited cooldown)) = refl
  respond_status f (err chain_mismatch) = refl
  respond_status f (err x) = refl

  module _ (parse : Bytes → Option Bytes) (balance : Balance) (send : Bytes → SendOutcome)
      (q : Request F) (now later : ℕ) (f : Faucet F) where
    abbrev pub answer : Response
    answer = (handle_fund F parse balance send (some (q.address, q.chain_id)) q.ip now later f).0.0

    answer_cases :
        (answer ≡ malformed)
        ⊎ (answer ≡ (
            let (r, f') = fund F parse balance send q now later f in
            respond F f' r (classify r).0 (classify r).1))
    unfolding handle_fund
    answer_cases = elim (Bool-cases (is_empty q.address)) [
      | inl e ↦ inl (rw (answer, e))
      | inr e ↦ inr (rw (answer, e))
    ]

    -- A 429 advises a wait of at least a day, and names the per-address limit exactly when that is
    -- the limit that was met: the per-IP limit, the daily cap and the drip rate stay unnamed.
    pub limit_disclosed :
        (retry : ℤ) (names : Bool)
        → answer ≡ too_many retry names
        → (pos 86400 ≤ℤ retry)
          × ((names ≡ true)
              ↔ ((fund F parse balance send q now later f).0 ≡ err (limited cooldown)))
    limit_disclosed retry names h = elim answer_cases [
      | inl e ↦ absurd (cc)
      | inr e ↦
          respond_limit (fund F parse balance send q now later f).1
            (fund F parse balance send q now later f).0 retry names (sym e ∙ h)
    ]

    -- The text of an error reaches the caller only where the request itself is at fault, or the
    -- wallet is low: never for a failed balance query or a failed send.
    pub text_disclosed :
        (status : ℕ) (e : FundError)
        → answer ≡ error_text status e
        → (e ≡ chain_mismatch) ⊎ (e ≡ bad_address) ⊎ (e ≡ funding_low)
    text_disclosed status e h = elim answer_cases [
      | inl a ↦ absurd (cc)
      | inr a ↦
          respond_text (fund F parse balance send q now later f).1
            (fund F parse balance send q now later f).0 status e (sym a ∙ h)
    ]
