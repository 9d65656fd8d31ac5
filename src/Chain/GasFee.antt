-- ===== src/Chain/GasFee.antt =====
-- internal/chain/gasfee.go: the gas limit and the fee of a broadcast, and the constants of
-- internal/chain/real.go that they rest on.
mod Tests
use native.Mathlib.Nat.{mul-le-mul, div-le_self}
use gno_mcp.Prelude.{ℕ, ◌+◌, ◌-◌, ◌*◌, ◌/◌, ◌≤◌, ◌<◌, ◌≡◌, refl, arith, ltb, if◌then◌else◌, false}
use gno_mcp.Prelude.Int.{
  ℤ, pos, negsuc, ◌≤ℤ◌, ltb_ℤ, max_int64, pos_part, mul64, quot64, mul64-pos, quot64-pos,
}
use gno_mcp.Prelude.Result.{Result, ok, err, ◌>>=◌}
use gno_mcp.GasPrice.{GasPrice, compute}
use gno_mcp.GasPrice
use gno_mcp.GasPrice.Fee.{floor-le-compute, compute-passes_ante, overflows, min_fee}

-- DefaultGasWanted, minGasPriceDivisor, DefaultGasFeeUgnot
abbrev pub default_gas_wanted : ℤ
default_gas_wanted = pos 10000000

abbrev pub default_gas_fee_ugnot : ℤ
default_gas_fee_ugnot = pos 10000

-- gasEstimateCeiling
abbrev pub gas_estimate_ceiling : ℤ
gas_estimate_ceiling = pos 1000000000

-- gasWantedFor, with gasWantedMarginNum / gasWantedMarginDen = 3 / 2
pub gas_wanted_for : ℤ → ℤ
gas_wanted_for measured =
    let want = quot64 (mul64 measured (pos 3)) (pos 2) in
    if ltb_ℤ want default_gas_wanted
    then default_gas_wanted
    else if ltb_ℤ gas_estimate_ceiling want
    then gas_estimate_ceiling
    else want

-- The node's answer to `auth/gasprice`, or that the query failed.
pub data FeeError : Type 0 where
  query_failed : FeeError
  compute_failed : GasPrice.Error → FeeError

priced : Result GasPrice.Error ℤ → Result FeeError ℤ
priced (ok fee) = ok fee
priced (err e) = err (compute_failed e)

-- currentGasFee, with `fetched` for `gasprice.Fetch(r.cli)`
pub current_gas_fee : Result FeeError GasPrice → ℤ → Result FeeError ℤ
unfolding priced
current_gas_fee fetched gas_wanted = do
  price ← fetched
  priced (compute price gas_wanted default_gas_fee_ugnot (pos 2) (pos 1))

-- (*Real).GasFeeUgnot
pub gas_fee_ugnot : Result FeeError GasPrice → Result FeeError ℤ
unfolding current_gas_fee
gas_fee_ugnot fetched = current_gas_fee fetched default_gas_wanted

-- The gas limit lies between the default and the ceiling, whatever a dry run reports: also for a
-- negative measure and where `measured * 3` wraps around.
pub gas_wanted_for_bounds :
    (measured : ℤ)
    → (default_gas_wanted ≤ℤ gas_wanted_for measured)
      × (gas_wanted_for measured ≤ℤ gas_estimate_ceiling)
unfolding gas_wanted_for
gas_wanted_for_bounds measured = ground arith

-- A measure that with its margin fits under the ceiling gets half again as much, and at least the
-- default.
pub gas_wanted_for_covers :
    (m : ℕ)
    → m * 3 ≤ 2000000000
    → (gas_wanted_for (pos m)
        ≡ (if ltb (m * 3 / 2) 10000000 then default_gas_wanted else pos (m * 3 / 2)))
      × (pos m ≤ℤ gas_wanted_for (pos m))
unfolding gas_wanted_for
gas_wanted_for_covers m h = ground (arith, mul64-pos m 3, quot64-pos (m * 3) 2)

priced_ok : (r : Result GasPrice.Error ℤ) {fee : ℤ} → priced r ≡ ok fee → r ≡ ok fee
unfolding priced
priced_ok (ok x) h = ground arith
priced_ok (err e) h = cc

-- A fee is never below the genesis floor, whatever the node answers and however large the gas limit.
pub floor-le-current_gas_fee :
    (fetched : Result FeeError GasPrice) (gas_wanted : ℤ) {fee : ℤ}
    → current_gas_fee fetched gas_wanted ≡ ok fee
    → default_gas_fee_ugnot ≤ℤ fee
unfolding current_gas_fee
floor-le-current_gas_fee (err e) gas_wanted h = cc
floor-le-current_gas_fee (ok p) gas_wanted h =
    floor-le-compute p gas_wanted default_gas_fee_ugnot (pos 2) (pos 1) (priced_ok _ h)

above-pos : (n : ℕ) (x : ℤ) → pos n ≤ℤ x → x ≡ pos (pos_part x)
above-pos n (pos m) h = refl
above-pos n (negsuc m) h = absurd (omega (arith, h))

-- a price of at most 10^9 for at most 10^9 gas does not overflow at the ceiling
price_fits :
    (w a g : ℕ)
    → 0 < g
    → w ≤ 1000000000
    → a ≤ 1000000000
    → g ≤ 1000000000
    → overflows w a g 2 ≡ false
price_fits w a g hg hw ha hgg =
    let product : w * a ≤ 1000000000 * 1000000000 = mul-le-mul hw ha in
    let quotient : min_fee w a g ≤ w * a + g - 1 = div-le_self (w * a + g - 1) g in
    ground (arith, product, quotient)

priced_at :
    (limit : ℤ) (w a g : ℕ)
    → limit ≡ pos w
    → 10000000 ≤ w
    → w ≤ 1000000000
    → 0 < a
    → 0 < g
    → a ≤ 1000000000
    → g ≤ 1000000000
    → (w : ℕ) × (fee : ℕ) × (limit ≡ pos w)
      × (current_gas_fee (ok (record { gas = pos g; amount = pos a; denom = GasPrice.ugnot })) limit
          ≡ ok (pos fee))
      × (10000000 ≤ w)
      × (w ≤ 1000000000)
      × (10000 ≤ fee)
      × (w * a ≤ fee * g)
unfolding current_gas_fee
priced_at limit w a g sized least most ha hg a_fits g_fits =
    let price : GasPrice = record { gas = pos g; amount = pos a; denom = GasPrice.ugnot } in
    let (fee, priced_is, passes) =
      compute-passes_ante w a g 10000 2 1 (omega (arith, least)) ha hg (omega (arith, g_fits))
        (omega arith) (omega arith) (omega arith) (price_fits w a g hg most a_fits g_fits) in
    let floored = floor-le-compute price (pos w) (pos 10000) (pos 2) (pos 1) priced_is in
    (w, fee, sized, rw (sized, priced_is) refl, least, most, omega (arith, floored), passes)

-- What a broadcast offers for the gas that its dry run has measured, whatever that is: a gas limit between
-- the default and the ceiling, and a fee that is not below the genesis floor and that passes the chain's
-- ante check `fee / limit ≥ amount / gas`. Condition: the node's price is positive and at most
-- 10^9 ugnot for at most 10^9 gas.
pub current_gas_fee-passes_ante :
    (measured : ℤ) (a g : ℕ)
    → 0 < a
    → 0 < g
    → a ≤ 1000000000
    → g ≤ 1000000000
    → (w : ℕ) × (fee : ℕ) × (gas_wanted_for measured ≡ pos w)
      × (current_gas_fee
            (ok (record { gas = pos g; amount = pos a; denom = GasPrice.ugnot }))
            (gas_wanted_for measured)
          ≡ ok (pos fee))
      × (10000000 ≤ w)
      × (w ≤ 1000000000)
      × (10000 ≤ fee)
      × (w * a ≤ fee * g)
current_gas_fee-passes_ante measured a g ha hg a_fits g_fits =
    let (low, high) = gas_wanted_for_bounds measured in
    let sized = above-pos 10000000 (gas_wanted_for measured) low in
    let limit = gas_wanted_for measured in
    priced_at limit (pos_part limit) a g sized (ground (arith, low, sized))
      (ground (arith, high, sized)) ha hg a_fits g_fits
