-- ===== src/Chain/GasFee/Tests.antt =====
-- gasWantedFor at light and heavy transactions, and its theorems at concrete measures.
use gno_mcp.Prelude.{ℕ, ◌*◌, ◌≤◌, ◌≡◌, refl, eqb, arith}
use gno_mcp.Prelude.Int.{pos, ◌≤ℤ◌, add64, sub64, mul64, quot64}
use gno_mcp.Prelude.Result.{ok}
use gno_mcp.GasPrice.{GasPrice, ugnot, compute, priced_fee}
use gno_mcp.Chain.GasFee.{
  default_gas_wanted, gas_estimate_ceiling, gas_wanted_for, gas_fee_ugnot, gas_wanted_for_bounds,
  current_gas_fee, current_gas_fee-passes_ante,
}

gas_wanted_for_heavy : gas_wanted_for (pos 40000000) ≡ pos 60000000
unfolding gas_wanted_for mul64 quot64
gas_wanted_for_heavy = refl

gas_wanted_for_bounds_test :
    (default_gas_wanted ≤ℤ gas_wanted_for (pos 9000000000))
    × (gas_wanted_for (pos 9000000000) ≤ℤ gas_estimate_ceiling)
gas_wanted_for_bounds_test = gas_wanted_for_bounds (pos 9000000000)

abbrev congested : GasPrice
congested = record { gas = pos 1000; amount = pos 7; denom = ugnot }

gas_fee_ugnot-congested : gas_fee_ugnot (ok congested) ≡ ok (pos 140000)
unfolding gas_fee_ugnot compute priced_fee eqb add64 sub64 mul64 quot64
gas_fee_ugnot-congested = refl

current_gas_fee-passes_ante_example :
    (w : ℕ) × (fee : ℕ) × (gas_wanted_for (pos 40000000) ≡ pos w)
    × (current_gas_fee
          (ok (record { gas = pos 1000; amount = pos 7; denom = ugnot }))
          (gas_wanted_for (pos 40000000))
        ≡ ok (pos fee))
    × (10000000 ≤ w)
    × (w ≤ 1000000000)
    × (10000 ≤ fee)
    × (w * 7 ≤ fee * 1000)
current_gas_fee-passes_ante_example =
    current_gas_fee-passes_ante (pos 40000000) 7 1000 (omega arith) (omega arith) (omega arith)
      (omega arith)
