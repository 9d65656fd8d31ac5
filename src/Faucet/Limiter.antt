-- ===== src/Faucet/Limiter.antt =====
-- faucet/limiter.go: per-address and per-IP sliding windows, the daily cap, the drip bucket.
-- A time is the number of nanoseconds since the zero `time.Time` (so 0 is the zero time); the clock
-- is an argument, and the mutex makes each method one step. `hits` holds what a map gives for a
-- key that it lacks, the empty slice.
pub mod Windows
pub mod History
pub mod Decisions
pub mod Accounts
pub mod Drip
use gno_mcp.Prelude.{
  ℕ, zero, suc, ◌+◌, ◌/◌, Bytes, Bool, true, false, not, ◌||◌, Option, none, some, List, [], ◌∷◌,
  ◌++◌, if◌then◌else◌, leb, ◌==◌,
}
use gno_mcp.Prelude.Int.{ℤ, pos, ◌-ℤ◌, ltb_ℤ, leb_ℤ, add64, sub64, quot}
use gno_mcp.Prelude.Map.{Map, lookup, insert}
use gno_mcp.Prelude.Result.{Result, ok, err}
use gno_mcp.Faucet.Float64.{Float64}

pub data Error : Type 0 where
  cooldown rate_limited daily_cap drip_limited : Error

-- 24 * time.Hour, time.Hour
abbrev pub day : ℕ
day = 86400000000000

abbrev pub hour : ℕ
hour = 3600000000000

-- sameUTCDay: UTC days are 24 hours long and begin at a multiple of that after the zero time.
abbrev pub same_utc_day : ℕ → ℕ → Bool
same_utc_day a b = (a / day) == (b / day)

-- `!h.Before(now.Add(-window))`
abbrev pub in_window : ℤ → ℕ → ℕ → Bool
in_window window now h = not (ltb_ℤ (pos h) (pos now -ℤ window))

-- countWithin
unfoldable pub count_within : List ℕ → ℕ → ℤ → ℕ
count_within [] now window = 0
count_within (h ∷ hs) now window =
    (if in_window window now h then 1 else 0) + count_within hs now window

-- prune
unfoldable pub prune : List ℕ → ℕ → ℤ → List ℕ
prune [] now window = []
prune (h ∷ hs) now window =
    if in_window window now h then h ∷ prune hs now window else prune hs now window

-- pruneAndAppend
abbrev pub prune_and_append : List ℕ → ℕ → ℤ → List ℕ
prune_and_append hs now window = prune hs now window ++ (now ∷ [])

-- dropLast
unfoldable pub drop_last : List ℕ → List ℕ
drop_last [] = []
drop_last (h ∷ []) = []
drop_last (h ∷ k ∷ hs) = h ∷ drop_last (k ∷ hs)

abbrev pub hits : Bytes → Map (List ℕ) → List ℕ
hits k m = elim (lookup k m) [ none ↦ [] | some hs ↦ hs ]

-- one of the two loops of sweepStale
unfoldable pub sweep : ℤ → ℕ → Map (List ℕ) → Map (List ℕ)
sweep window now [] = []
sweep window now ((k, hs) ∷ m) =
    let rest = sweep window now m in
    elim (prune hs now window) [ [] ↦ rest | h ∷ kept ↦ (k, h ∷ kept) ∷ rest ]

module _ (F : Float64) where
  open F use {Float, of_int64, seconds, add, sub, mul, lt}

  pub record LimiterCfg : Type 0 where
    pub per_addr_window : ℤ
    pub per_addr_max : ℤ
    pub per_ip_window : ℤ
    pub per_ip_max : ℤ
    pub daily_cap_ugnot : ℤ
    pub grant_ugnot : ℤ
    pub drip_burst_ugnot : ℤ
    pub drip_rate_ugnot_per_sec : ℤ

  pub record Limiter : Type 0 where
    pub per_addr_window : ℤ
    pub per_addr_max : ℤ
    pub per_ip_window : ℤ
    pub per_ip_max : ℤ
    pub daily_cap_ugnot : ℤ
    pub grant_ugnot : ℤ
    pub addr_hits : Map (List ℕ)
    pub ip_hits : Map (List ℕ)
    pub day_spent : ℤ
    pub day_start : ℕ
    pub drip_tokens : Float
    pub drip_burst : Float
    pub drip_rate_per_sec : Float
    pub drip_last : ℕ

  abbrev or_default : ℤ → ℕ → ℤ
  or_default d n = if leb_ℤ d (pos 0) then (if leb_ℤ (pos 0) d then pos n else d) else d

  -- NewLimiter
  unfoldable pub new_limiter : LimiterCfg → Limiter
  new_limiter cfg = record {
    per_addr_window = or_default cfg.per_addr_window day;
    per_addr_max = cfg.per_addr_max;
    per_ip_window = or_default cfg.per_ip_window hour;
    per_ip_max = cfg.per_ip_max;
    daily_cap_ugnot = cfg.daily_cap_ugnot;
    grant_ugnot = cfg.grant_ugnot;
    addr_hits = [];
    ip_hits = [];
    day_spent = pos 0;
    day_start = 0;
    drip_tokens = of_int64 cfg.drip_burst_ugnot;
    drip_burst = of_int64 cfg.drip_burst_ugnot;
    drip_rate_per_sec = of_int64 cfg.drip_rate_ugnot_per_sec;
    drip_last = 0;
  }

  abbrev pub float_zero : Float
  float_zero = of_int64 (pos 0)

  -- `if tokens > burst { tokens = burst }`
  abbrev pub cap_at : Float → Float → Float
  cap_at burst tokens = if lt burst tokens then burst else tokens

  -- refillDrip
  unfoldable pub refill_drip : ℕ → Limiter → Limiter
  refill_drip now l =
      let elapsed = seconds (pos now -ℤ pos l.drip_last) in
      if l.drip_last == 0
      then record l { drip_last = now }
      else if not (lt float_zero elapsed)
      then l
      else record l {
        drip_tokens = cap_at l.drip_burst (add l.drip_tokens (mul elapsed l.drip_rate_per_sec));
        drip_last = now;
      }

  -- sweepStale
  abbrev pub sweep_stale : ℕ → Limiter → Limiter
  sweep_stale now l = record l {
    addr_hits = sweep l.per_addr_window now l.addr_hits;
    ip_hits = sweep l.per_ip_window now l.ip_hits;
  }

  -- the daily reset at the head of Allow
  unfoldable pub roll_day : ℕ → Limiter → Limiter
  roll_day now l =
      if l.day_start == 0 || not (same_utc_day l.day_start now)
      then sweep_stale now (record l { day_spent = pos 0; day_start = now })
      else l

  -- the end of Allow: prune, record the hit, count the grant
  unfoldable pub record_grant : Bytes → Bytes → ℕ → Limiter → Limiter
  record_grant addr ip now l = record l {
    addr_hits =
        insert addr (prune_and_append (hits addr l.addr_hits) now l.per_addr_window) l.addr_hits;
    ip_hits = insert ip (prune_and_append (hits ip l.ip_hits) now l.per_ip_window) l.ip_hits;
    day_spent = add64 l.day_spent l.grant_ugnot;
  }

  -- the drip check of Allow, then its end
  unfoldable pub drip_then_grant : Bytes → Bytes → ℕ → Limiter → Result Error ℕ × Limiter
  drip_then_grant addr ip now l =
      let grant = of_int64 l.grant_ugnot in
      let full = refill_drip now l in
      if lt float_zero l.drip_burst
      then (if lt full.drip_tokens grant then (err drip_limited, full) else (
        ok now,
        record_grant addr ip now (record full { drip_tokens = sub full.drip_tokens grant }),
      ))
      else (ok now, record_grant addr ip now l)

  -- Allow, behind the daily reset
  unfoldable pub checked_grant : Bytes → Bytes → ℕ → Limiter → Result Error ℕ × Limiter
  checked_grant addr ip now l =
      if leb_ℤ l.per_addr_max (pos (count_within (hits addr l.addr_hits) now l.per_addr_window))
      then (err cooldown, l)
      else if leb_ℤ l.per_ip_max (pos (count_within (hits ip l.ip_hits) now l.per_ip_window))
      then (err rate_limited, l)
      else if ltb_ℤ (sub64 l.daily_cap_ugnot l.grant_ugnot) l.day_spent
      then (err daily_cap, l)
      else drip_then_grant addr ip now l

  -- Allow
  unfoldable pub allow : Bytes → Bytes → ℕ → Limiter → Result Error ℕ × Limiter
  allow addr ip now l = checked_grant addr ip now (roll_day now l)

  -- Refund's credit to the daily counter
  unfoldable pub credit_day : ℕ → Limiter → Limiter
  credit_day granted_at l =
      let spent = sub64 l.day_spent l.grant_ugnot in
      if same_utc_day granted_at l.day_start
      then record l { day_spent = if ltb_ℤ spent (pos 0) then pos 0 else spent }
      else l

  -- Refund's credit to the drip bucket
  unfoldable pub credit_drip : ℕ → Limiter → Limiter
  credit_drip now l =
      let full = refill_drip now l in
      if lt float_zero l.drip_burst
      then record full {
        drip_tokens = cap_at full.drip_burst (add full.drip_tokens (of_int64 full.grant_ugnot));
      }
      else l

  -- Refund, with `now` for its call of the clock
  unfoldable pub refund : Bytes → Bytes → ℕ → ℕ → Limiter → Limiter
  refund addr ip granted_at now l =
      let dropped = record l {
        addr_hits = insert addr (drop_last (hits addr l.addr_hits)) l.addr_hits;
        ip_hits = insert ip (drop_last (hits ip l.ip_hits)) l.ip_hits;
      } in
      credit_drip now (credit_day granted_at dropped)

  pub record LimiterSnapshot : Type 0 where
    pub drip_enabled : Bool
    pub drip_tokens : Float
    pub drip_burst : Float
    pub daily_cap_ugnot : ℤ
    pub day_spent_ugnot : ℤ

  -- the tokens that Snapshot projects to `now`
  unfoldable pub projected_tokens : ℕ → Limiter → Float
  projected_tokens now l =
      let elapsed = seconds (pos now -ℤ pos l.drip_last) in
      if l.drip_last == 0
      then l.drip_tokens
      else if lt float_zero elapsed
      then cap_at l.drip_burst (add l.drip_tokens (mul elapsed l.drip_rate_per_sec))
      else l.drip_tokens

  -- Snapshot
  unfoldable pub snapshot : ℕ → Limiter → LimiterSnapshot
  snapshot now l = record {
    drip_enabled = lt float_zero l.drip_burst;
    drip_tokens = if lt float_zero l.drip_burst then projected_tokens now l else float_zero;
    drip_burst = l.drip_burst;
    daily_cap_ugnot = l.daily_cap_ugnot;
    day_spent_ugnot =
        if l.day_start == 0 || not (same_utc_day l.day_start now) then pos 0 else l.day_spent;
  }

  -- LimiterPolicy, Policy
  pub record LimiterPolicy : Type 0 where
    pub per_addr_max : ℤ
    pub per_addr_window : ℤ

  abbrev pub policy : Limiter → LimiterPolicy
  policy l = record { per_addr_max = l.per_addr_max; per_addr_window = l.per_addr_window }
