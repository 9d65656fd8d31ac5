-- ===== src/Faucet/Limiter/Decisions.antt =====
-- Sequences of Allow and Refund: the limiter, which prunes and sweeps, decides as if it kept the
-- complete history of grants.
use gno_mcp.Prelude.{
  ℕ, ◌≤◌, ◌≡◌, ◌↔◌, refl, ◌∙◌, ◌⊎◌, inl, inr, Bytes, eqb, List, [], ◌∷◌, ◌++◌, arith, if◌then◌else◌,
}
use gno_mcp.Prelude.Int.{ℤ, pos, ◌≤ℤ◌}
use gno_mcp.Prelude.Map.{Map, lookup, insert}
use gno_mcp.Prelude.Result.{Result, ok, err}
use gno_mcp.Faucet.Float64.{Float64}
use gno_mcp.Faucet.Limiter.{
  Limiter, LimiterCfg, new_limiter, Error, cooldown, rate_limited, count_within, prune,
  prune_and_append, drop_last, hits, sweep, allow, refund, roll_day, checked_grant, drip_then_grant,
  record_grant, refill_drip, credit_day, credit_drip,
}
use gno_mcp.Faucet.Limiter.History.{
  SameWindow-count, Tracks, Tracks-mono, Tracks-sweep, Tracks-grant, Tracks-refund,
}

-- The calls that the service makes, with the time of each.
pub data Op : Type 0 where
  allow_op : Bytes → Bytes → ℕ → Op
  refund_op : Bytes → Bytes → ℕ → ℕ → Op

abbrev pub time_of : Op → ℕ
time_of (allow_op addr ip now) = now
time_of (refund_op addr ip granted_at now) = now

-- The clock does not run backwards.
abbrev pub Monotone : ℕ → List Op → Type 0
Monotone t [] = Unit
Monotone t (op ∷ ops) = (t ≤ time_of op) × Monotone (time_of op) ops

abbrev pub last_time : ℕ → List Op → ℕ
last_time t [] = t
last_time t (op ∷ ops) = last_time (time_of op) ops

-- The two sliding windows: by recipient address and by client IP.
pub data Axis : Type 0 where
  by_addr by_ip : Axis

abbrev pub key : Axis → Bytes → Bytes → Bytes
key by_addr addr ip = addr
key by_ip addr ip = ip

-- The map that a call of Allow leaves on one axis, by its result.
abbrev hits_after : Result Error ℕ → Bytes → ℤ → Map (List ℕ) → Map (List ℕ)
hits_after (ok t) k w m = insert k (prune_and_append (hits k m) t w) m
hits_after (err e) k w m = m

-- The complete history of the key `a` behind a call of Allow: a grant adds its time.
abbrev pub past_after : Result Error ℕ → Bytes → Bytes → List ℕ → List ℕ
past_after (ok t) k a past = if eqb k a then past ++ (t ∷ []) else past
past_after (err e) k a past = past

Tracks-after :
    (a : Bytes) (w : ℤ) (now : ℕ) (m : Map (List ℕ)) (past : List ℕ) (k : Bytes)
    (r : Result Error ℕ)
    → ((t : ℕ) → r ≡ ok t → t ≡ now)
    → Tracks a w now m past
    → Tracks a w now (hits_after r k w m) (past_after r k a past)
Tracks-after a w now m past k (ok t) at h = rw (at t refl) (Tracks-grant a w now m past h k)
Tracks-after a w now m past k (err e) at h = h

module _ (F : Float64) where
  abbrev pub map_of : Axis → Limiter F → Map (List ℕ)
  map_of by_addr l = l.addr_hits
  map_of by_ip l = l.ip_hits

  abbrev pub window_of : Axis → Limiter F → ℤ
  window_of by_addr l = l.per_addr_window
  window_of by_ip l = l.per_ip_window

  unfoldable pub apply : Op → Limiter F → Limiter F
  apply (allow_op addr ip now) l = (allow F addr ip now l).1
  apply (refund_op addr ip granted_at now) l = refund F addr ip granted_at now l

  unfoldable pub apply_all : List Op → Limiter F → Limiter F
  apply_all [] l = l
  apply_all (op ∷ ops) l = apply_all ops (apply op l)

  abbrev pub past_step : Axis → Bytes → Op → Limiter F → List ℕ → List ℕ
  past_step x a (allow_op addr ip now) l past =
      past_after (allow F addr ip now l).0 (key x addr ip) a past
  past_step x a (refund_op addr ip granted_at now) l past =
      if eqb (key x addr ip) a then drop_last past else past

  -- What was granted to the key `a`, less what was refunded, in the order of the grants.
  unfoldable pub past_of : Axis → Bytes → List Op → Limiter F → List ℕ → List ℕ
  past_of x a [] l past = past
  past_of x a (op ∷ ops) l past = past_of x a ops (apply op l) (past_step x a op l past)

  roll_day-map :
      (x : Axis) (now : ℕ) (l : Limiter F)
      → (map_of x (roll_day F now l) ≡ map_of x l)
        ⊎ (map_of x (roll_day F now l) ≡ sweep (window_of x l) now (map_of x l))
  unfolding roll_day
  roll_day-map by_addr now l = ground arith
  roll_day-map by_ip now l = ground arith

  roll_day-window :
      (x : Axis) (now : ℕ) (l : Limiter F) → window_of x (roll_day F now l) ≡ window_of x l
  unfolding roll_day
  roll_day-window by_addr now l = ground arith
  roll_day-window by_ip now l = ground arith

  checked_grant-map :
      (x : Axis) (addr ip : Bytes) (now : ℕ) (l : Limiter F)
      → map_of x (checked_grant F addr ip now l).1
        ≡ hits_after (checked_grant F addr ip now l).0 (key x addr ip) (window_of x l) (map_of x l)
  unfolding checked_grant drip_then_grant record_grant refill_drip
  checked_grant-map by_addr addr ip now l = ground arith
  checked_grant-map by_ip addr ip now l = ground arith

  allow-map :
      (x : Axis) (addr ip : Bytes) (now : ℕ) (l : Limiter F)
      → map_of x (allow F addr ip now l).1
        ≡ hits_after
            (allow F addr ip now l).0
            (key x addr ip)
            (window_of x l)
            (map_of x (roll_day F now l))
  unfolding allow
  allow-map x addr ip now l =
      rw (checked_grant-map x addr ip now (roll_day F now l), roll_day-window x now l)

  allow_time :
      (addr ip : Bytes) (now : ℕ) (l : Limiter F) (t : ℕ)
      → (allow F addr ip now l).0 ≡ ok t
      → t ≡ now
  unfolding allow checked_grant drip_then_grant
  allow_time addr ip now l t h = ground arith

  refund-map :
      (x : Axis) (addr ip : Bytes) (granted_at now : ℕ) (l : Limiter F)
      → let k = key x addr ip in
        map_of x (refund F addr ip granted_at now l)
        ≡ insert k (drop_last (hits k (map_of x l))) (map_of x l)
  unfolding refund refill_drip credit_day credit_drip
  refund-map by_addr addr ip granted_at now l = ground arith
  refund-map by_ip addr ip granted_at now l = ground arith

  checked_grant-window :
      (x : Axis) (addr ip : Bytes) (now : ℕ) (l : Limiter F)
      → window_of x (checked_grant F addr ip now l).1 ≡ window_of x l
  unfolding checked_grant drip_then_grant record_grant refill_drip
  checked_grant-window by_addr addr ip now l = ground arith
  checked_grant-window by_ip addr ip now l = ground arith

  refund-window :
      (x : Axis) (addr ip : Bytes) (granted_at now : ℕ) (l : Limiter F)
      → window_of x (refund F addr ip granted_at now l) ≡ window_of x l
  unfolding refund refill_drip credit_day credit_drip
  refund-window by_addr addr ip granted_at now l = ground arith
  refund-window by_ip addr ip granted_at now l = ground arith

  allow-window :
      (x : Axis) (addr ip : Bytes) (now : ℕ) (l : Limiter F)
      → window_of x (allow F addr ip now l).1 ≡ window_of x l
  unfolding allow
  allow-window x addr ip now l =
      checked_grant-window x addr ip now (roll_day F now l) ∙ roll_day-window x now l

  apply-window : (x : Axis) (op : Op) (l : Limiter F) → window_of x (apply op l) ≡ window_of x l
  unfolding apply
  apply-window x (allow_op addr ip now) l = allow-window x addr ip now l
  apply-window x (refund_op addr ip granted_at now) l = refund-window x addr ip granted_at now l

  -- One axis of the limiter shows the window of the complete history of `a`.
  abbrev pub TracksAxis : Axis → Bytes → ℕ → Limiter F → List ℕ → Type 0
  TracksAxis x a t l past = Tracks a (window_of x l) t (map_of x l) past

  roll_day-Tracks :
      (x : Axis) (a : Bytes) (now : ℕ) (l : Limiter F) (past : List ℕ)
      → TracksAxis x a now l past
      → Tracks a (window_of x l) now (map_of x (roll_day F now l)) past
  roll_day-Tracks x a now l past h = elim (roll_day-map x now l) [
    | inl e ↦ rw e h
    | inr e ↦ rw e (Tracks-sweep a (window_of x l) now (map_of x l) past h)
  ]

  apply-Tracks :
      (x : Axis) (a : Bytes) (t : ℕ) (op : Op) (l : Limiter F) (past : List ℕ)
      → t ≤ time_of op
      → TracksAxis x a t l past
      → TracksAxis x a (time_of op) (apply op l) (past_step x a op l past)
  unfolding apply
  apply-Tracks x a t (allow_op addr ip now) l past le h =
      let h' = Tracks-mono a (window_of x l) t (map_of x l) past h now le in
      rw (allow-window x addr ip now l, allow-map x addr ip now l)
        (Tracks-after a (window_of x l) now (map_of x (roll_day F now l)) past (key x addr ip)
          (allow F addr ip now l).0 (allow_time addr ip now l) (roll_day-Tracks x a now l past h'))
  apply-Tracks x a t (refund_op addr ip granted_at now) l past le h =
      let h' = Tracks-mono a (window_of x l) t (map_of x l) past h now le in
      rw (refund-window x addr ip granted_at now l, refund-map x addr ip granted_at now l)
        (Tracks-refund a (window_of x l) now (map_of x l) past h' (key x addr ip))

  past_of-Tracks :
      (x : Axis) (a : Bytes) (t : ℕ) (ops : List Op) (l : Limiter F) (past : List ℕ)
      → Monotone t ops
      → TracksAxis x a t l past
      → TracksAxis x a (last_time t ops) (apply_all ops l) (past_of x a ops l past)
  unfolding apply_all past_of
  past_of-Tracks x a t [] l past m h = h
  past_of-Tracks x a t (op ∷ ops) l past (le, m) h =
      past_of-Tracks x a (time_of op) ops (apply op l) (past_step x a op l past) m
        (apply-Tracks x a t op l past le h)

  new_limiter-Tracks :
      (x : Axis) (a : Bytes) (cfg : LimiterCfg F) → TracksAxis x a 0 (new_limiter F cfg) []
  unfolding new_limiter lookup prune
  new_limiter-Tracks by_addr a cfg = record { window = ground arith; is_map = tt }
  new_limiter-Tracks by_ip a cfg = record { window = ground arith; is_map = tt }

  -- The count that Allow tests, on the map behind the daily reset.
  rolled_count :
      (x : Axis) (a : Bytes) (cfg : LimiterCfg F) (ops : List Op) (now : ℕ)
      → Monotone 0 ops
      → last_time 0 ops ≤ now
      → let l = apply_all ops (new_limiter F cfg) in
        count_within (hits a (map_of x (roll_day F now l))) now (window_of x l)
        ≡ count_within (past_of x a ops (new_limiter F cfg) []) now (window_of x l)
  rolled_count x a cfg ops now m le =
      let l = apply_all ops (new_limiter F cfg) in
      let past = past_of x a ops (new_limiter F cfg) [] in
      let t = last_time 0 ops in
      let h = past_of-Tracks x a 0 ops (new_limiter F cfg) [] m (new_limiter-Tracks x a cfg) in
      let h' = Tracks-mono a (window_of x l) t (map_of x l) past h now le in
      SameWindow-count (window_of x l) now (roll_day-Tracks x a now l past h').window

  roll_day-limits :
      (now : ℕ) (l : Limiter F)
      → ((roll_day F now l).per_addr_max ≡ l.per_addr_max)
        × ((roll_day F now l).per_ip_max ≡ l.per_ip_max)
  unfolding roll_day
  roll_day-limits now l = ground arith

  allow-cooldown :
      (addr ip : Bytes) (now : ℕ) (l : Limiter F)
      → ((allow F addr ip now l).0 ≡ err cooldown) ↔ (
          l.per_addr_max
          ≤ℤ pos (count_within (hits addr (roll_day F now l).addr_hits) now l.per_addr_window))
  unfolding allow checked_grant drip_then_grant
  allow-cooldown addr ip now l =
      let fixed = roll_day-limits now l in
      let same = roll_day-window by_addr now l in (λ h. ground arith, λ h. ground arith)

  allow-rate_limited :
      (addr ip : Bytes) (now : ℕ) (l : Limiter F)
      → ((allow F addr ip now l).0 ≡ err rate_limited)
        ↔ (¬ (
            l.per_addr_max
            ≤ℤ pos (count_within (hits addr (roll_day F now l).addr_hits) now l.per_addr_window)))
          × (l.per_ip_max
              ≤ℤ pos (count_within (hits ip (roll_day F now l).ip_hits) now l.per_ip_window))
  unfolding allow checked_grant drip_then_grant
  allow-rate_limited addr ip now l =
      let fixed = roll_day-limits now l in
      let same = roll_day-window by_addr now l in
      let same_ip = roll_day-window by_ip now l in
      (λ h. (λ k. ground arith, ground arith), λ h. ground arith)

  -- After any calls of Allow and Refund on a clock that does not run backwards, Allow answers
  -- `cooldown` exactly when the address has used up its grants in the window: pruning and sweeping
  -- never forget a grant that counts, and never count one twice.
  pub cooldown_iff :
      (addr ip : Bytes) (cfg : LimiterCfg F) (ops : List Op) (now : ℕ)
      → Monotone 0 ops
      → last_time 0 ops ≤ now
      → let l = apply_all ops (new_limiter F cfg) in
        let past = past_of by_addr addr ops (new_limiter F cfg) [] in
        ((allow F addr ip now l).0 ≡ err cooldown)
        ↔ (l.per_addr_max ≤ℤ pos (count_within past now l.per_addr_window))
  cooldown_iff addr ip cfg ops now m le =
      let l = apply_all ops (new_limiter F cfg) in
      rw (rolled_count by_addr addr cfg ops now m le) at (allow-cooldown addr ip now l)

  -- After any calls of Allow and Refund on a clock that does not run backwards, Allow answers `rate_limited` exactly when the
  -- address still has a grant left in its window and the IP has none.
  pub rate_limited_iff :
      (addr ip : Bytes) (cfg : LimiterCfg F) (ops : List Op) (now : ℕ)
      → Monotone 0 ops
      → last_time 0 ops ≤ now
      → let l = apply_all ops (new_limiter F cfg) in
        let past = past_of by_addr addr ops (new_limiter F cfg) [] in
        let ip_past = past_of by_ip ip ops (new_limiter F cfg) [] in
        ((allow F addr ip now l).0 ≡ err rate_limited)
        ↔ (¬ (l.per_addr_max ≤ℤ pos (count_within past now l.per_addr_window)))
          × (l.per_ip_max ≤ℤ pos (count_within ip_past now l.per_ip_window))
  rate_limited_iff addr ip cfg ops now m le =
      let l = apply_all ops (new_limiter F cfg) in
      rw (rolled_count by_addr addr cfg ops now m le, rolled_count by_ip ip cfg ops now m le) at
        (allow-rate_limited addr ip now l)
