-- ===== src/GasPrice/Fee.antt =====
-- What `Compute` returns, against the same formula over the unbounded naturals.
use native.Mathlib.Nat.{
  div-lt_iff_lt-mul, le-div_iff_mul-le, lt-div-mul-add, mul_comm, le_trans, mul-le-mul_right,
}
use gno_mcp.Prelude.{
  ℕ, ◌+◌, ◌-◌, ◌*◌, ◌/◌, ◌≤◌, ◌<◌, ◌≡◌, Bool, false, ◌||◌, arith, Bytes, ltb, if◌then◌else◌,
  eqb_refl,
}
use gno_mcp.Prelude.Int.{
  ℤ, pos, ◌≤ℤ◌, max_int64, add64, sub64, mul64, quot64, wrap64, ◌+ℤ◌, ◌-ℤ◌, mul64-pos, sub64-pos,
  quot64-pos,
}
use gno_mcp.Prelude.Result.{ok}
use gno_mcp.GasPrice.{GasPrice, ugnot, compute, priced_fee, scaled_fee}

-- Whatever the node reports, an offered fee is at least the floor.
pub floor-le-compute :
    (p : GasPrice) (w floor num den : ℤ) {r : ℤ} → compute p w floor num den ≡ ok r → floor ≤ℤ r
unfolding compute priced_fee
floor-le-compute p w floor num den h = ground arith

-- ceil(w * a / g), the least fee that the ante check accepts
abbrev pub min_fee : ℕ → ℕ → ℕ → ℕ
min_fee w a g = (w * a + g - 1) / g

-- The fee over unbounded numbers: the scaled minimum, never below the floor.
abbrev pub ideal_fee : ℕ → ℕ → ℕ → ℕ → ℕ → ℕ → ℕ
ideal_fee w a g floor num den =
    let fee = min_fee w a g * num / den in if ltb fee floor then floor else fee

-- Where a step of the formula does not fit in 63 bits.
abbrev pub overflows : ℕ → ℕ → ℕ → ℕ → Bool
overflows w a g num = ltb max_int64 (w * a + g - 1) || ltb max_int64 (min_fee w a g * num)

-- A test by division, `y / k < x`, is the test `y < x * k`.
ltb-div : (x y k : ℕ) → 0 < k → ltb (y / k) x ≡ ltb y (x * k)
ltb-div x y k h = ground (
  arith,
  (div-lt_iff_lt-mul {k = k} {x = y} {y = x} h).0,
  (div-lt_iff_lt-mul {k = k} {x = y} {y = x} h).1,
)

-- The sum may reach 2^63 before 1 is taken off: the wrap and its inverse cancel.
add-sub-one :
    (x g : ℕ)
    → 0 < g
    → x + g ≤ max_int64 + 1
    → sub64 (add64 (pos x) (pos g)) (pos 1) ≡ pos (x + g - 1)
unfolding add64 sub64 wrap64 ◌+ℤ◌ ◌-ℤ◌
add-sub-one x g h k = ground arith

scaled_fee_ideal :
    (m floor num den : ℕ)
    → 0 < num
    → den ≤ max_int64
    → scaled_fee (pos m) (pos floor) (pos num) (pos den) ≡ (
        if ltb max_int64 (m * num)
        then pos floor
        else let fee = m * num / den in pos (if ltb fee floor then floor else fee))
unfolding scaled_fee
scaled_fee_ideal m floor num den h k = ground (
  arith,
  quot64-pos max_int64 num,
  ltb-div m max_int64 num h,
  mul64-pos m num,
  quot64-pos (m * num) den,
)

module _ (w a g : ℕ) (w_pos : 0 < w) (g_pos : 0 < g) (g_fits : g ≤ max_int64) where
  -- The overflow guard of `Compute`, an integer division, refuses exactly what does not fit.
  guard_exact : ltb ((max_int64 - (g - 1)) / w) a ≡ ltb max_int64 (w * a + g - 1)
  guard_exact = rw (ltb-div a (max_int64 - (g - 1)) w w_pos) (ground (arith, mul_comm w a))

  guard_value :
      quot64 (sub64 (pos max_int64) (sub64 (pos g) (pos 1))) (pos w)
      ≡ pos ((max_int64 - (g - 1)) / w)
  guard_value = rw (
    sub64-pos g 1 g_fits g_pos,
    sub64-pos max_int64 (g - 1) (omega arith) (omega arith),
    quot64-pos (max_int64 - (g - 1)) w (omega arith),
  )

  min_fee_value :
      w * a + g - 1 ≤ max_int64
      → quot64 (sub64 (add64 (mul64 (pos w) (pos a)) (pos g)) (pos 1)) (pos g) ≡ pos (min_fee w a g)
  min_fee_value fits = rw (
    mul64-pos w a (omega arith),
    add-sub-one (w * a) g g_pos (omega arith),
    quot64-pos (w * a + g - 1) g fits,
  )

  priced_fee_ideal :
      (denom : Bytes) (floor num den : ℕ)
      → 0 < num
      → den ≤ max_int64
      → priced_fee
          (record { gas = pos g; amount = pos a; denom = denom })
          (pos w)
          (pos floor)
          (pos num)
          (pos den)
        ≡ pos (if overflows w a g num then floor else ideal_fee w a g floor num den)
  unfolding priced_fee
  priced_fee_ideal denom floor num den h k = ground (
    arith,
    guard_value,
    guard_exact,
    min_fee_value,
    scaled_fee_ideal (min_fee w a g) floor num den h k,
  )

-- On a valid request and a live ugnot price, `Compute` never wraps around: it returns the fee of
-- the unbounded formula, or the floor exactly where a step of the formula passes 2^63 - 1.
pub compute-eq-ideal_fee :
    (w a g floor num den : ℕ)
    → 0 < w
    → 0 < a
    → 0 < g
    → g ≤ max_int64
    → 0 < num
    → 0 < den
    → den ≤ max_int64
    → compute
        (record { gas = pos g; amount = pos a; denom = ugnot })
        (pos w)
        (pos floor)
        (pos num)
        (pos den)
      ≡ ok (pos (if overflows w a g num then floor else ideal_fee w a g floor num den))
unfolding compute
compute-eq-ideal_fee w a g floor num den hw ha hg kg hn hd kd =
    ground (arith, priced_fee_ideal w a g hw hg kg ugnot floor num den hn kd, eqb_refl ugnot)

-- The ante check accepts the minimum: it buys at least `w` gas at the price.
min_fee_enough : (w a g : ℕ) → 0 < g → w * a ≤ min_fee w a g * g
min_fee_enough w a g h = omega (arith, lt-div-mul-add {a = w * a + g - 1} {b = g} h)

scaled-le : (m num den : ℕ) → 0 < den → den ≤ num → m ≤ m * num / den
scaled-le m num den h k = (le-div_iff_mul-le {k = den} {x = m} {y = m * num} h).1 (grind arith)

min_fee-le-ideal_fee :
    (w a g floor num den : ℕ) → 0 < den → den ≤ num → min_fee w a g ≤ ideal_fee w a g floor num den
min_fee-le-ideal_fee w a g floor num den h k = ground (arith, scaled-le (min_fee w a g) num den h k)

-- Where nothing overflows and the margin is at least 1, the offered fee passes the chain's ante
-- check `fee / w ≥ a / g`.
pub compute-passes_ante :
    (w a g floor num den : ℕ)
    → 0 < w
    → 0 < a
    → 0 < g
    → g ≤ max_int64
    → 0 < den
    → den ≤ num
    → num ≤ max_int64
    → overflows w a g num ≡ false
    → (fee : ℕ) × (compute
          (record { gas = pos g; amount = pos a; denom = ugnot })
          (pos w)
          (pos floor)
          (pos num)
          (pos den)
        ≡ ok (pos fee))
      × (w * a ≤ fee * g)
compute-passes_ante w a g floor num den hw ha hg kg hd le kn fits = (
  ideal_fee w a g floor num den,
  rw (compute-eq-ideal_fee w a g floor num den hw ha hg kg (omega arith) hd (omega arith), fits),
  le_trans (min_fee_enough w a g hg)
      (mul-le-mul_right g (min_fee-le-ideal_fee w a g floor num den hd le)),
)
