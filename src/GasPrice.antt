-- ===== src/GasPrice.antt =====
-- gasprice/gasprice.go: the fee to offer, from the chain's live minimum gas price. `Fetch` and
-- `decode` only call the node and its codec; what they return is the argument `price`.
pub mod Fee
mod Tests
use gno_mcp.Prelude.{Bytes, codes, eqb, ◌||◌, not, if◌then◌else◌}
use gno_mcp.Prelude.Int.{ℤ, pos, ltb_ℤ, leb_ℤ, max_int64, add64, sub64, mul64, quot64}
use gno_mcp.Prelude.Result.{Result, ok, err}

-- std.GasPrice: `price` ugnot buy `gas` units.
pub record GasPrice : Type 0 where
  pub gas : ℤ
  pub amount : ℤ
  pub denom : Bytes

pub data Error : Type 0 where
  gas_wanted_not_positive margin_not_positive denom_not_ugnot : Error

-- ugnot.Denom
abbrev pub ugnot : Bytes
ugnot = codes "ugnot"

-- The end of `Compute`, once the bare minimum is known.
unfoldable pub scaled_fee : ℤ → ℤ → ℤ → ℤ → ℤ
scaled_fee min_fee floor margin_num margin_den =
    if ltb_ℤ (quot64 (pos max_int64) margin_num) min_fee
    then floor
    else let with_margin = quot64 (mul64 min_fee margin_num) margin_den in
      if ltb_ℤ with_margin floor then floor else with_margin

unfoldable pub priced_fee : GasPrice → ℤ → ℤ → ℤ → ℤ → ℤ
unfolding scaled_fee
priced_fee p gas_wanted floor margin_num margin_den =
    if ltb_ℤ (quot64 (sub64 (pos max_int64) (sub64 p.gas (pos 1))) gas_wanted) p.amount
    then floor
    else scaled_fee (quot64 (sub64 (add64 (mul64 gas_wanted p.amount) p.gas) (pos 1)) p.gas) floor
        margin_num margin_den

-- Compute
unfoldable pub compute : GasPrice → ℤ → ℤ → ℤ → ℤ → Result Error ℤ
compute p gas_wanted floor margin_num margin_den =
    if leb_ℤ gas_wanted (pos 0)
    then err gas_wanted_not_positive
    else if leb_ℤ margin_num (pos 0) || leb_ℤ margin_den (pos 0)
    then err margin_not_positive
    else if leb_ℤ p.gas (pos 0) || leb_ℤ p.amount (pos 0)
    then ok floor
    else if not (eqb p.denom ugnot)
    then err denom_not_ugnot
    else ok (priced_fee p gas_wanted floor margin_num margin_den)
