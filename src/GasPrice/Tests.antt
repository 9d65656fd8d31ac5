-- ===== src/GasPrice/Tests.antt =====
-- Runs of `Compute`, and its theorems at concrete prices.
use gno_mcp.Prelude.{◌*◌, ◌≤◌, ◌≡◌, ℕ, refl, arith, eqb}
use gno_mcp.Prelude.Int.{pos, negsuc, max_int64, add64, sub64, mul64, quot64}
use gno_mcp.Prelude.Result.{ok, err}
use gno_mcp.GasPrice.{GasPrice, ugnot, compute, priced_fee, gas_wanted_not_positive}
use gno_mcp.GasPrice.Fee.{compute-eq-ideal_fee, compute-passes_ante}

-- The genesis price, 1 ugnot for 1000 gas.
abbrev genesis : GasPrice
genesis = record { gas = pos 1000; amount = pos 1; denom = ugnot }

compute-genesis : compute genesis (pos 10000000) (pos 10000) (pos 2) (pos 1) ≡ ok (pos 20000)
unfolding compute priced_fee eqb add64 sub64 mul64 quot64
compute-genesis = refl

compute_no_gas :
    compute genesis (negsuc 0) (pos 10000) (pos 2) (pos 1) ≡ err gas_wanted_not_positive
unfolding compute
compute_no_gas = refl

-- An absurd price does not wrap to a small fee: the floor is offered.
compute_absurd :
    let p : GasPrice = record { gas = pos 1; amount = pos max_int64; denom = ugnot } in
    compute p (pos 10000000) (pos 10000) (pos 2) (pos 1) ≡ ok (pos 10000)
unfolding compute priced_fee eqb add64 sub64 mul64 quot64
compute_absurd = refl

compute-eq-ideal_fee_example :
    compute genesis (pos 10000000) (pos 10000) (pos 2) (pos 1) ≡ ok (pos 20000)
compute-eq-ideal_fee_example =
    compute-eq-ideal_fee 10000000 1 1000 10000 2 1 (omega arith) (omega arith) (omega arith)
      (omega arith) (omega arith) (omega arith) (omega arith)

compute-passes_ante_example :
    (fee : ℕ) × (compute genesis (pos 10000000) (pos 10000) (pos 2) (pos 1) ≡ ok (pos fee))
    × (10000000 * 1 ≤ fee * 1000)
compute-passes_ante_example =
    compute-passes_ante 10000000 1 1000 10000 2 1 (omega arith) (omega arith) (omega arith)
      (omega arith) (omega arith) (omega arith) (omega arith) refl
