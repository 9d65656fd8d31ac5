-- ===== src/Faucet/Service.antt =====
-- The faucet as it serves requests concurrently: a request that has passed the limiter waits for
-- its send while others begin and end. The limiter's mutex makes the part before the send one step,
-- and the part behind it another.
pub mod Budget
use gno_mcp.Prelude.{
  ℕ, zero, suc, ◌+◌, ◌/◌, ◌≤◌, Bytes, Bool, true, false, Option, none, some, List, [], ◌∷◌,
  if◌then◌else◌, ◌==◌,
}
use gno_mcp.Prelude.Result.{Result, ok, err}
use gno_mcp.Faucet.Float64.{Float64}
use gno_mcp.Faucet.Limiter.{day, LimiterCfg, new_limiter}
use gno_mcp.Faucet.Fund.{
  Faucet, Request, Balance, SendOutcome, sent, not_granted, outcome_unknown, FundError, begin_grant,
  end_grant,
}

-- A grant that the limiter has counted.
pub record Grant : Type 0 where
  pub address : Bytes
  pub ip : Bytes
  pub granted_at : ℕ

abbrev pub get_elem? : List Grant → ℕ → Option Grant
get_elem? [] i = none
get_elem? (x ∷ xs) zero = some x
get_elem? (x ∷ xs) (suc i) = get_elem? xs i

abbrev pub remove : List Grant → ℕ → List Grant
remove [] i = []
remove (x ∷ xs) zero = xs
remove (x ∷ xs) (suc i) = x ∷ remove xs i

-- How many of the grants fall on the UTC day `d`.
abbrev pub on_day : ℕ → List Grant → ℕ
on_day d [] = 0
on_day d (x ∷ xs) = (if x.granted_at / day == d then 1 else 0) + on_day d xs

-- What may have been paid: a send that succeeded, or whose outcome is unknown.
abbrev pub may_have_landed : SendOutcome → Bool
may_have_landed (sent tx) = true
may_have_landed not_granted = false
may_have_landed outcome_unknown = true

module _ (F : Float64) where
  pub record Service : Type 0 where
    pub faucet : Faucet F
    pub in_flight : List Grant
    pub paid : List Grant  -- those that may have landed

  -- `begins`: a request, with what the parser and the balance query answer. `ends`: the send of the
  -- i-th grant in flight has answered.
  pub data Event : Type 0 where
    begins : Option Bytes → Balance → Request F → ℕ → Event
    ends : ℕ → SendOutcome → ℕ → Event

  abbrev pub time_of : Event → ℕ
  time_of (begins recipient balance q now) = now
  time_of (ends i outcome now) = now

  -- The clock does not run backwards.
  abbrev pub Monotone : ℕ → List Event → Type 0
  Monotone t [] = Unit
  Monotone t (e ∷ es) = (t ≤ time_of e) × Monotone (time_of e) es

  abbrev pub last_time : ℕ → List Event → ℕ
  last_time t [] = t
  last_time t (e ∷ es) = last_time (time_of e) es

  unfoldable pub enter : Result FundError (Bytes × ℕ) × Faucet F → Bytes → Service → Service
  enter (ok (canonical, granted_at), f) ip s = record s {
    faucet = f;
    in_flight = record { address = canonical; ip = ip; granted_at = granted_at } ∷ s.in_flight;
  }
  enter (err e, f) ip s = record s { faucet = f }

  unfoldable pub leave : Option Grant → ℕ → SendOutcome → ℕ → Service → Service
  leave none i outcome now s = s
  leave (some g) i outcome now s = record s {
    faucet = (end_grant F outcome g.address g.ip g.granted_at now s.faucet).1;
    in_flight = remove s.in_flight i;
    paid = if may_have_landed outcome then g ∷ s.paid else s.paid;
  }

  unfoldable pub step : Event → Service → Service
  unfolding enter leave
  step (begins recipient balance q now) s =
      enter (begin_grant F recipient balance q now s.faucet) q.ip s
  step (ends i outcome now) s = leave (get_elem? s.in_flight i) i outcome now s

  unfoldable pub run : List Event → Service → Service
  run [] s = s
  run (e ∷ es) s = run es (step e s)

  -- New over a new limiter, before any request.
  abbrev pub start_service : LimiterCfg F → Faucet F → Service
  start_service cfg f = record {
    faucet = record f { limiter = new_limiter F cfg };
    in_flight = [];
    paid = [];
  }
