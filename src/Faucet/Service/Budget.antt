-- ===== src/Faucet/Service/Budget.antt =====
-- What the faucet pays out on a day, whatever requests run side by side.
use gno_mcp.Prelude.{
  ℕ, zero, suc, ◌+◌, ◌*◌, ◌/◌, ◌≤◌, ◌<◌, ◌≡◌, refl, Bytes, Option, none, some, List, [], ◌∷◌, arith,
  if◌then◌else◌, ◌==◌,
}
use gno_mcp.Prelude.Int.{pos, max_int64}
use gno_mcp.Prelude.Result.{Result}
use gno_mcp.Faucet.Float64.{Float64}
use gno_mcp.Faucet.Limiter.{day, LimiterCfg}
use gno_mcp.Faucet.Limiter.Accounts.{
  Accounts, allow_ok-Accounts, allow_err-Accounts, Accounts-mono, new_limiter-Accounts,
  refund-Accounts,
}
use gno_mcp.Faucet.Fund.{
  Faucet, SendOutcome, sent, not_granted, outcome_unknown, FundError, begin_grant, end_grant,
}
use gno_mcp.Faucet.Fund.Checks.{Begun, refused, was_limited, granted, begin_grant-Begun}
use gno_mcp.Faucet.Service.{
  Grant, get_elem?, remove, on_day, Service, Event, begins, ends, time_of, Monotone, last_time,
  enter, leave, step, run, start_service,
}

on_day-remove :
    (d i : ℕ) (xs : List Grant) {g : Grant}
    → get_elem? xs i ≡ some g
    → on_day d xs ≡ (if g.granted_at / day == d then 1 else 0) + on_day d (remove xs i)
on_day-remove d i [] e = absurd (cc)
on_day-remove d zero (x ∷ xs) e = ground arith
on_day-remove d (suc i) (x ∷ xs) e = ground (arith, on_day-remove d i xs e)

module _ (F : Float64) (g c : ℕ) (c_fits : c ≤ max_int64) (g_fits : g ≤ max_int64) where
  -- Every grant in flight or paid is counted, and no day goes over the cap.
  abbrev IsWithin : Service F → ℕ → Type 0
  IsWithin s t =
      Accounts F g c c_fits g_fits s.faucet.limiter (λ d. on_day d s.in_flight + on_day d s.paid) t

  enter-IsWithin :
      (ip : Bytes) (s : Service F) (t now : ℕ) (r : Result FundError (Bytes × ℕ) × Faucet F)
      → Begun F ip now s.faucet r
      → IsWithin s t
      → t ≤ now
      → 0 < now
      → IsWithin (enter F r ip s) now
  unfolding enter
  enter-IsWithin ip s t now r (refused e) h le now_pos =
      Accounts-mono F g c c_fits g_fits s.faucet.limiter _ _ t now h le (λ d. refl)
  enter-IsWithin ip s t now r (was_limited canonical x e) h le now_pos =
      allow_err-Accounts F g c c_fits g_fits canonical ip s.faucet.limiter _ t now h le now_pos e
  enter-IsWithin ip s t now r (granted canonical at e) h le now_pos =
      allow_ok-Accounts F g c c_fits g_fits canonical ip s.faucet.limiter
        (λ d. on_day d s.in_flight + on_day d s.paid) _ t now h le now_pos e (λ d. omega arith)

  leave-IsWithin :
      (s : Service F) (i : ℕ) (outcome : SendOutcome) (t now : ℕ) (o : Option Grant)
      → get_elem? s.in_flight i ≡ o
      → IsWithin s t
      → t ≤ now
      → IsWithin (leave F o i outcome now s) now
  unfolding leave end_grant
  leave-IsWithin s i outcome t now none e h le =
      Accounts-mono F g c c_fits g_fits s.faucet.limiter _ _ t now h le (λ d. refl)
  leave-IsWithin s i (sent tx) t now (some x) e h le =
      Accounts-mono F g c c_fits g_fits s.faucet.limiter _ _ t now h le
        (λ d. omega (arith, on_day-remove d i s.in_flight e))
  leave-IsWithin s i not_granted t now (some x) e h le =
      refund-Accounts F g c c_fits g_fits x.address x.ip x.granted_at now s.faucet.limiter _ _ t h
        le (λ d. omega (arith, on_day-remove d i s.in_flight e))
  leave-IsWithin s i outcome_unknown t now (some x) e h le =
      Accounts-mono F g c c_fits g_fits s.faucet.limiter _ _ t now h le
        (λ d. omega (arith, on_day-remove d i s.in_flight e))

  step-IsWithin :
      (e : Event F) (s : Service F) (t : ℕ)
      → IsWithin s t
      → t ≤ time_of F e
      → 0 < time_of F e
      → IsWithin (step F e s) (time_of F e)
  unfolding step
  step-IsWithin (begins recipient balance q now) s t h le now_pos =
      enter-IsWithin q.ip s t now (begin_grant F recipient balance q now s.faucet)
        (begin_grant-Begun F recipient balance q now s.faucet) h le now_pos
  step-IsWithin (ends i outcome now) s t h le now_pos =
      leave-IsWithin s i outcome t now (get_elem? s.in_flight i) refl h le

  run-IsWithin :
      (es : List (Event F)) (s : Service F) (t : ℕ)
      → 0 < t
      → Monotone F t es
      → IsWithin s t
      → IsWithin (run F es s) (last_time F t es)
  unfolding run
  run-IsWithin [] s t t_pos m h = h
  run-IsWithin (e ∷ es) s t t_pos (le, m) h =
      run-IsWithin es (step F e s) (time_of F e) (omega arith) m
        (step-IsWithin e s t h le (omega arith))

  -- From a new limiter with the grant `g` and the daily cap `c`, both int64 amounts that are not
  -- negative, under every interleaving of
  -- concurrent requests on a clock that does not run backwards, the grants that may have been paid
  -- for any one UTC day, together with those still in flight, come to at most `c` ugnot.
  pub paid-le-daily_cap :
      (f : Faucet F) (cfg : LimiterCfg F) (es : List (Event F)) (t d : ℕ)
      → cfg.grant_ugnot ≡ pos g
      → cfg.daily_cap_ugnot ≡ pos c
      → 0 < t
      → Monotone F t es
      → let s = run F es (start_service F cfg f) in g * (on_day d s.in_flight + on_day d s.paid) ≤ c
  paid-le-daily_cap f cfg es t d ge ce t_pos m =
      (run-IsWithin es (start_service F cfg f) t t_pos m
          (new_limiter-Accounts F g c c_fits g_fits cfg _ t ge ce (λ n. omega arith))).in_cap
        d
