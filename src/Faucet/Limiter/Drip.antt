-- ===== src/Faucet/Limiter/Drip.antt =====
-- The drip bucket, and what Snapshot shows of the limiter.
use gno_mcp.Prelude.{ℕ, ◌≡◌, List, [], ◌∷◌, Bytes, false, arith}
use gno_mcp.Prelude.Int.{pos, ◌≤ℤ◌, ◌-ℤ◌}
use gno_mcp.Faucet.Float64.{Float64}
use gno_mcp.Faucet.Limiter.{
  Limiter, LimiterCfg, new_limiter, allow, refund, roll_day, checked_grant, drip_then_grant,
  record_grant, refill_drip, credit_day, credit_drip, float_zero, cap_at,
}
use gno_mcp.Faucet.Limiter.Decisions.{Op, allow_op, refund_op, apply, apply_all}

module _ (F : Float64) where
  open F use {
    Float, of_int64, seconds, add, sub, mul, lt, lt_irrefl, lt_asymm, ge_trans, of_int64_mono,
    sub_nonneg, sub_le, add_nonneg, mul_nonneg,
  }

  -- The bucket holds between nothing and its capacity, and grants and refills are not negative.
  pub record IsFilled (l : Limiter F) : Type 0 where
    pub at_most : lt l.drip_burst l.drip_tokens ≡ false
    pub at_least : lt l.drip_tokens (float_zero F) ≡ false
    pub rate : lt l.drip_rate_per_sec (float_zero F) ≡ false
    pub burst : lt l.drip_burst (float_zero F) ≡ false
    pub grant : lt (of_int64 l.grant_ugnot) (float_zero F) ≡ false

  cap_at_bounds :
      (burst tokens : Float)
      → lt burst (float_zero F) ≡ false
      → lt tokens (float_zero F) ≡ false
      → (lt burst (cap_at F burst tokens) ≡ false)
        × (lt (cap_at F burst tokens) (float_zero F) ≡ false)
  cap_at_bounds burst tokens hb ht = ground (arith, lt_irrefl burst)

  refill_drip-IsFilled : (now : ℕ) (l : Limiter F) → IsFilled l → IsFilled (refill_drip F now l)
  unfolding refill_drip
  refill_drip-IsFilled now l h =
      let elapsed = seconds (pos now -ℤ pos l.drip_last) in
      let gained = mul elapsed l.drip_rate_per_sec in
      ground (
        arith,
        lt_asymm (float_zero F) elapsed,
        mul_nonneg elapsed l.drip_rate_per_sec,
        add_nonneg l.drip_tokens gained,
        cap_at_bounds l.drip_burst (add l.drip_tokens gained),
      )

  roll_day-IsFilled : (now : ℕ) (l : Limiter F) → IsFilled l → IsFilled (roll_day F now l)
  unfolding roll_day
  roll_day-IsFilled now l h = ground arith

  refill_drip_grant : (now : ℕ) (l : Limiter F) → (refill_drip F now l).grant_ugnot ≡ l.grant_ugnot
  unfolding refill_drip
  refill_drip_grant now l = ground arith

  -- Spending what the bucket holds leaves it between the bounds.
  spend_bounds :
      (burst tokens grant : Float)
      → lt burst tokens ≡ false
      → lt grant (float_zero F) ≡ false
      → lt tokens grant ≡ false
      → (lt burst (sub tokens grant) ≡ false) × (lt (sub tokens grant) (float_zero F) ≡ false)
  spend_bounds burst tokens grant hb hg ht = (
    ge_trans burst tokens (sub tokens grant) hb (sub_le tokens grant hg),
    sub_nonneg tokens grant ht,
  )

  drip_then_grant-IsFilled :
      (addr ip : Bytes) (now : ℕ) (l : Limiter F)
      → IsFilled l
      → IsFilled (drip_then_grant F addr ip now l).1
  unfolding drip_then_grant record_grant
  drip_then_grant-IsFilled addr ip now l h =
      let full = refill_drip F now l in
      let filled = refill_drip-IsFilled now l h in
      ground (
        arith,
        refill_drip_grant now l,
        spend_bounds full.drip_burst full.drip_tokens (of_int64 l.grant_ugnot),
      )

  -- Allow keeps the bucket within its bounds, granted or not.
  pub allow-IsFilled :
      (addr ip : Bytes) (now : ℕ) (l : Limiter F) → IsFilled l → IsFilled (allow F addr ip now l).1
  unfolding allow checked_grant
  allow-IsFilled addr ip now l h =
      let rolled = roll_day-IsFilled now l h in
      ground (arith, drip_then_grant-IsFilled addr ip now (roll_day F now l) rolled)

  credit_day-IsFilled :
      (granted_at : ℕ) (l : Limiter F) → IsFilled l → IsFilled (credit_day F granted_at l)
  unfolding credit_day
  credit_day-IsFilled granted_at l h = ground arith

  credit_drip-IsFilled : (now : ℕ) (l : Limiter F) → IsFilled l → IsFilled (credit_drip F now l)
  unfolding credit_drip
  credit_drip-IsFilled now l h =
      let full = refill_drip F now l in
      let filled = refill_drip-IsFilled now l h in
      ground (
        arith,
        add_nonneg full.drip_tokens (of_int64 full.grant_ugnot),
        cap_at_bounds full.drip_burst (add full.drip_tokens (of_int64 full.grant_ugnot)),
      )

  -- So does Refund: its credit is capped.
  pub refund-IsFilled :
      (addr ip : Bytes) (granted_at now : ℕ) (l : Limiter F)
      → IsFilled l
      → IsFilled (refund F addr ip granted_at now l)
  unfolding refund
  refund-IsFilled addr ip granted_at now l h =
      credit_drip-IsFilled now _ (credit_day-IsFilled granted_at _ (ground arith))

  apply_all-IsFilled : (ops : List Op) (l : Limiter F) → IsFilled l → IsFilled (apply_all F ops l)
  unfolding apply_all apply
  apply_all-IsFilled [] l h = h
  apply_all-IsFilled (allow_op addr ip now ∷ ops) l h =
      apply_all-IsFilled ops (allow F addr ip now l).1 (allow-IsFilled addr ip now l h)
  apply_all-IsFilled (refund_op addr ip granted_at now ∷ ops) l h =
      apply_all-IsFilled ops (refund F addr ip granted_at now l)
        (refund-IsFilled addr ip granted_at now l h)

  -- With a capacity, a rate and a grant that are not negative, every sequence of calls leaves the
  -- bucket between nothing and its capacity.
  pub drip_bounds :
      (cfg : LimiterCfg F) (ops : List Op)
      → pos 0 ≤ℤ cfg.drip_burst_ugnot
      → pos 0 ≤ℤ cfg.drip_rate_ugnot_per_sec
      → pos 0 ≤ℤ cfg.grant_ugnot
      → IsFilled (apply_all F ops (new_limiter F cfg))
  unfolding new_limiter
  drip_bounds cfg ops hb hr hg = apply_all-IsFilled ops (new_limiter F cfg) (record {
    at_most = lt_irrefl (of_int64 cfg.drip_burst_ugnot);
    at_least = of_int64_mono (pos 0) cfg.drip_burst_ugnot hb;
    rate = of_int64_mono (pos 0) cfg.drip_rate_ugnot_per_sec hr;
    burst = of_int64_mono (pos 0) cfg.drip_burst_ugnot hb;
    grant = of_int64_mono (pos 0) cfg.grant_ugnot hg;
  })
