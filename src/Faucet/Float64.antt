-- ===== src/Faucet/Float64.antt =====
-- What the drip bucket of the limiter uses of Go's float64. The laws are those of IEEE 754 on the
-- values that can arise there: finite ones, since a bucket is filled from int64 amounts.
use gno_mcp.Prelude.{Bool, true, false, ◌≡◌}
use gno_mcp.Prelude.Int.{ℤ, pos, ◌≤ℤ◌}

pub record Float64 : Type 1 where
  pub Float : Type 0
  -- float64(n)
  pub of_int64 : ℤ → Float
  -- now.Sub(last).Seconds(), for the nanoseconds between the two
  pub seconds : ℤ → Float
  -- int(x)
  pub to_int : Float → ℤ
  pub add : Float → Float → Float
  pub sub : Float → Float → Float
  pub mul : Float → Float → Float
  pub lt : Float → Float → Bool
  pub lt_irrefl : (a : Float) → lt a a ≡ false
  pub lt_asymm : (a b : Float) → lt a b ≡ true → lt b a ≡ false
  pub ge_trans : (a b c : Float) → lt a b ≡ false → lt b c ≡ false → lt a c ≡ false
  -- rounding is monotone
  pub of_int64_mono : (a b : ℤ) → a ≤ℤ b → lt (of_int64 b) (of_int64 a) ≡ false
  pub sub_nonneg : (a b : Float) → lt a b ≡ false → lt (sub a b) (of_int64 (pos 0)) ≡ false
  pub sub_le : (a b : Float) → lt b (of_int64 (pos 0)) ≡ false → lt a (sub a b) ≡ false
  pub add_nonneg :
      (a b : Float)
      → lt a (of_int64 (pos 0)) ≡ false
      → lt b (of_int64 (pos 0)) ≡ false
      → lt (add a b) (of_int64 (pos 0)) ≡ false
  pub mul_nonneg :
      (a b : Float)
      → lt a (of_int64 (pos 0)) ≡ false
      → lt b (of_int64 (pos 0)) ≡ false
      → lt (mul a b) (of_int64 (pos 0)) ≡ false
