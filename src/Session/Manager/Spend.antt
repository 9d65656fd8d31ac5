-- ===== src/Session/Manager/Spend.antt =====
-- What charging a session does to its budget.
use gno_mcp.Prelude.{
  ℕ, ◌+◌, ◌-◌, ◌≤◌, ◌≡◌, refl, Bytes, Bool, false, some, List, [], ◌∷◌, ◌++◌, arith, if◌then◌else◌,
  is_digit,
}
use gno_mcp.Prelude.Int.{pos, ltb_ℤ, sub64, max_int64, ◌-ℤ◌, wrap64}
use gno_mcp.Prelude.Map.{lookup, lookup-insert_self}
use gno_mcp.Session.Coins.{parse_coins, parse_coins-format, format_int64}
use gno_mcp.Session.Manager.{active, SessionState, Sessions}
use gno_mcp.Session.Manager.Operations.{update_spend}

-- Fees that are charged one after the other, each with the outcome of its Store.Write.
abbrev pub total : List (Bool × ℕ) → ℕ
total [] = 0
total ((persist, f) ∷ fs) = f + total fs

abbrev pub AllInt64 : List (Bool × ℕ) → Type 0
AllInt64 [] = Unit
AllInt64 ((persist, f) ∷ fs) = (f ≤ max_int64) × AllInt64 fs

unfoldable pub charge_all : Bytes → List (Bool × ℕ) → Sessions → Sessions
charge_all addr [] m = m
charge_all addr ((persist, f) ∷ fs) m = charge_all addr fs (update_spend persist addr (pos f) m).1

-- The session at `addr` is active and has `n` of its denomination `c ∷ denom` left.
pub record HasLeft (addr : Bytes) (m : Sessions) (n c : ℕ) (denom : Bytes) : Type 0 where
  pub session : SessionState
  pub found : lookup addr m ≡ some session
  pub is_running : session.state ≡ active
  pub left : parse_coins session.meta.spend_remaining ≡ some (n, c ∷ denom)

left_after :
    (n f : ℕ)
    → n ≤ max_int64
    → f ≤ max_int64
    → let x = sub64 (pos n) (pos f) in (if ltb_ℤ x (pos 0) then pos 0 else x) ≡ pos (n - f)
unfolding sub64 ◌-ℤ◌ wrap64
left_after n f h k = ground arith

minus-zero : (n : ℕ) → n - 0 ≡ n
minus-zero n = omega arith

minus-plus : (n f k : ℕ) → n - (f + k) ≡ n - f - k
minus-plus n f k = omega arith

module _ (addr : Bytes) (c : ℕ) (denom : Bytes) (letter : is_digit c ≡ false) where
  pub update_spend-HasLeft :
      (persist : Bool) (m : Sessions) (n f : ℕ)
      → n ≤ max_int64
      → f ≤ max_int64
      → HasLeft addr m n c denom
      → HasLeft addr (update_spend persist addr (pos f) m).1 (n - f) c denom
  unfolding update_spend
  update_spend-HasLeft persist m n f n_fits f_fits h =
      rw (h.found, h.is_running, h.left, left_after n f n_fits f_fits)
        (record {
          session = record {
            state = active;
            meta = record h.session.meta {
              spend_remaining = format_int64 (pos (n - f)) ++ (c ∷ denom);
            };
          };
          found = lookup-insert_self addr _ m;
          is_running = refl;
          left = parse_coins-format (n - f) c denom (omega arith) letter;
        })

  -- Charging an active session that has `n` left leaves `n` less the sum of the fees, and nothing
  -- where they exceed it, in the same denomination: also where a charge cannot be persisted.
  pub charge_all-HasLeft :
      (fees : List (Bool × ℕ)) (m : Sessions) (n : ℕ)
      → n ≤ max_int64
      → AllInt64 fees
      → HasLeft addr m n c denom
      → HasLeft addr (charge_all addr fees m) (n - total fees) c denom
  unfolding charge_all
  charge_all-HasLeft [] m n n_fits fit h = rw (minus-zero n) h
  charge_all-HasLeft ((persist, f) ∷ fees) m n n_fits (f_fits, fit) h =
      rw (minus-plus n f (total fees)) (
        charge_all-HasLeft fees (update_spend persist addr (pos f) m).1 (n - f) (omega arith) fit
          (update_spend-HasLeft persist m n f n_fits f_fits h))
