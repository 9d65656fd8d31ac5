-- ===== src/Faucet/Limiter/Accounts.antt =====
-- The daily counter of the limiter against the grants that it has counted.
use native.Mathlib.Nat.{mul-add}
use gno_mcp.Prelude.{
  ℕ, ◌+◌, ◌*◌, ◌/◌, ◌≤◌, ◌<◌, ◌≡◌, ◌∙◌, inl, inr, Bytes, Bool, true, false, ◌||◌, not, arith,
  if◌then◌else◌, ◌==◌, Bool-cases,
}
use gno_mcp.Prelude.Int.{
  ℤ, pos, ◌-ℤ◌, ltb_ℤ, max_int64, add64, sub64, add64-pos, sub64-pos, sub64_id,
}
use gno_mcp.Prelude.Result.{ok, err}
use gno_mcp.Faucet.Float64.{Float64}
use gno_mcp.Faucet.Limiter.{
  Limiter, LimiterCfg, new_limiter, Error, day, same_utc_day, allow, refund, roll_day,
  checked_grant, drip_then_grant, record_grant, refill_drip, credit_day, credit_drip,
}

-- Does Allow begin a new day?
abbrev rolls : ℕ → ℕ → Bool
rolls start now = start == 0 || not (same_utc_day start now)

module _ (F : Float64) (g c : ℕ) (c_fits : c ≤ max_int64) (g_fits : g ≤ max_int64) where
  -- `count d` grants of `g` ugnot each are counted for the UTC day `d`. The counter holds exactly
  -- those of its own day, and no day goes over the cap `c`.
  pub record Accounts (l : Limiter F) (count : ℕ → ℕ) (t : ℕ) : Type 0 where
    pub grant_is : l.grant_ugnot ≡ pos g
    pub cap_is : l.daily_cap_ugnot ≡ pos c
    pub spent_is : l.day_spent ≡ pos (g * count (l.day_start / day))
    pub in_cap : (d : ℕ) → g * count d ≤ c
    pub none_later : (d : ℕ) → l.day_start / day < d → count d ≡ 0
    pub fresh : l.day_start ≡ 0 → count 0 ≡ 0
    pub started : l.day_start ≤ t

  -- On a new day nothing is counted yet.
  new_day_empty :
      (l : Limiter F) (count : ℕ → ℕ) (t now : ℕ)
      → Accounts l count t
      → t ≤ now
      → rolls l.day_start now ≡ true
      → count (now / day) ≡ 0
  new_day_empty l count t now h le e = ground (arith, h.none_later (now / day), h.fresh)

  roll_day-Accounts :
      (l : Limiter F) (count : ℕ → ℕ) (t now : ℕ)
      → Accounts l count t
      → t ≤ now
      → 0 < now
      → Accounts (roll_day F now l) count now
  unfolding roll_day
  roll_day-Accounts l count t now h le now_pos = elim (Bool-cases (rolls l.day_start now)) [
    | inl e ↦ rw e (record {
      grant_is = h.grant_is;
      cap_is = h.cap_is;
      spent_is = rw (new_day_empty l count t now h le e) (ground arith);
      in_cap = h.in_cap;
      none_later = λ d later. h.none_later d (omega arith);
      fresh = λ zero_start. absurd (omega arith);
      started = omega arith;
    })
    | inr e ↦ rw e (record {
      grant_is = h.grant_is;
      cap_is = h.cap_is;
      spent_is = h.spent_is;
      in_cap = h.in_cap;
      none_later = h.none_later;
      fresh = h.fresh;
      started = omega arith;
    })
  ]

  roll_day-today : (l : Limiter F) (now : ℕ) → (roll_day F now l).day_start / day ≡ now / day
  unfolding roll_day
  roll_day-today l now = ground arith

  roll_day-started : (l : Limiter F) (now : ℕ) → 0 < now → 0 < (roll_day F now l).day_start
  unfolding roll_day
  roll_day-started l now h = ground arith

  -- The test of the cap, a subtraction that may go below zero, leaves room for one grant.
  room_for_grant :
      (cap grant spent : ℤ) (s : ℕ)
      → cap ≡ pos c
      → grant ≡ pos g
      → spent ≡ pos s
      → ltb_ℤ (sub64 cap grant) spent ≡ false
      → s + g ≤ c
  unfolding ◌-ℤ◌
  room_for_grant cap grant spent s ce ge se room = ground (arith, sub64_id (pos c) (pos g))

  -- Counting one more grant of today, behind the test of the daily cap.
  counted-Accounts :
      (l l' : Limiter F) (count count' : ℕ → ℕ) (now : ℕ)
      → Accounts l count now
      → l.day_start / day ≡ now / day
      → 0 < l.day_start
      → ltb_ℤ (sub64 l.daily_cap_ugnot l.grant_ugnot) l.day_spent ≡ false
      → l'.grant_ugnot ≡ l.grant_ugnot
      → l'.daily_cap_ugnot ≡ l.daily_cap_ugnot
      → l'.day_start ≡ l.day_start
      → l'.day_spent ≡ add64 l.day_spent l.grant_ugnot
      → ((d : ℕ) → count' d ≡ (if now / day == d then 1 else 0) + count d)
      → Accounts l' count' now
  counted-Accounts l l' count count' now h today started room ge ce se de ne =
      let k = count (l.day_start / day) in
      let fits : g * k + g ≤ c =
        room_for_grant l.daily_cap_ugnot l.grant_ugnot l.day_spent (g * k) h.cap_is h.grant_is
          h.spent_is room in
      let one_more : count' (l'.day_start / day) ≡ 1 + k =
        ground (arith, ne (l'.day_start / day)) in
      record {
        grant_is = ge ∙ h.grant_is;
        cap_is = ce ∙ h.cap_is;
        spent_is = ground (arith, add64-pos (g * k) g, h.spent_is, h.grant_is, mul-add g 1 k);
        in_cap = λ d. ground (arith, ne d, h.in_cap d, mul-add g 1 (count d), mul-add g 1 k);
        none_later = λ d later. ground (arith, ne d, h.none_later d);
        fresh = λ zero_start. absurd (omega arith);
        started = omega arith;
      }

  -- What Allow makes of the counter, its day and the two constants, on success and on error.
  allow_ok :
      (addr ip : Bytes) (now : ℕ) (l : Limiter F) {t : ℕ}
      → (allow F addr ip now l).0 ≡ ok t
      → let m = roll_day F now l in
        let l' = (allow F addr ip now l).1 in
        (ltb_ℤ (sub64 m.daily_cap_ugnot m.grant_ugnot) m.day_spent ≡ false)
        × (l'.grant_ugnot ≡ m.grant_ugnot)
        × (l'.daily_cap_ugnot ≡ m.daily_cap_ugnot)
        × (l'.day_start ≡ m.day_start)
        × (l'.day_spent ≡ add64 m.day_spent m.grant_ugnot)
        × (t ≡ now)
  unfolding allow checked_grant drip_then_grant record_grant refill_drip
  allow_ok addr ip now l e = ground arith

  allow_err :
      (addr ip : Bytes) (now : ℕ) (l : Limiter F) {x : Error}
      → (allow F addr ip now l).0 ≡ err x
      → let m = roll_day F now l in
        let l' = (allow F addr ip now l).1 in
        (l'.grant_ugnot ≡ m.grant_ugnot)
        × (l'.daily_cap_ugnot ≡ m.daily_cap_ugnot)
        × (l'.day_start ≡ m.day_start)
        × (l'.day_spent ≡ m.day_spent)
  unfolding allow checked_grant drip_then_grant record_grant refill_drip
  allow_err addr ip now l e = ground arith

  same-Accounts :
      (l l' : Limiter F) (count : ℕ → ℕ) (t : ℕ)
      → Accounts l count t
      → l'.grant_ugnot ≡ l.grant_ugnot
      → l'.daily_cap_ugnot ≡ l.daily_cap_ugnot
      → l'.day_start ≡ l.day_start
      → l'.day_spent ≡ l.day_spent
      → Accounts l' count t
  same-Accounts l l' count t h ge ce se de = record {
    grant_is = ge ∙ h.grant_is;
    cap_is = ce ∙ h.cap_is;
    spent_is = rw se (de ∙ h.spent_is);
    in_cap = h.in_cap;
    none_later = rw se h.none_later;
    fresh = rw se h.fresh;
    started = rw se h.started;
  }

  -- The same counts, by another name, at a later time.
  pub Accounts-mono :
      (l : Limiter F) (count count' : ℕ → ℕ) (t now : ℕ)
      → Accounts l count t
      → t ≤ now
      → ((d : ℕ) → count d ≡ count' d)
      → Accounts l count' now
  Accounts-mono l count count' t now h le e = record {
    grant_is = h.grant_is;
    cap_is = h.cap_is;
    spent_is = ground (arith, h.spent_is, e (l.day_start / day));
    in_cap = λ d. ground (arith, h.in_cap d, e d);
    none_later = λ d later. ground (arith, h.none_later d, e d);
    fresh = λ zero_start. ground (arith, h.fresh, e 0);
    started = omega arith;
  }

  -- A refused call counts nothing.
  pub allow_err-Accounts :
      (addr ip : Bytes) (l : Limiter F) (count : ℕ → ℕ) (t now : ℕ) {x : Error}
      → Accounts l count t
      → t ≤ now
      → 0 < now
      → (allow F addr ip now l).0 ≡ err x
      → Accounts (allow F addr ip now l).1 count now
  allow_err-Accounts addr ip l count t now h le now_pos e =
      let (ge, ce, se, de) = allow_err addr ip now l e in
      same-Accounts (roll_day F now l) (allow F addr ip now l).1 count now
        (roll_day-Accounts l count t now h le now_pos) ge ce se de

  -- A grant is counted on the day of its time.
  pub allow_ok-Accounts :
      (addr ip : Bytes) (l : Limiter F) (count count' : ℕ → ℕ) (t now : ℕ) {at : ℕ}
      → Accounts l count t
      → t ≤ now
      → 0 < now
      → (allow F addr ip now l).0 ≡ ok at
      → ((d : ℕ) → count' d ≡ (if at / day == d then 1 else 0) + count d)
      → Accounts (allow F addr ip now l).1 count' now
  allow_ok-Accounts addr ip l count count' t now h le now_pos e ne =
      let (room, ge, ce, se, de, te) = allow_ok addr ip now l e in
      counted-Accounts (roll_day F now l) (allow F addr ip now l).1 count count' now
        (roll_day-Accounts l count t now h le now_pos) (roll_day-today l now)
        (roll_day-started l now now_pos) room ge ce se de (rw te at ne)

  refund_fields :
      (addr ip : Bytes) (granted_at now : ℕ) (l : Limiter F)
      → let l' = refund F addr ip granted_at now l in
        (l'.grant_ugnot ≡ l.grant_ugnot)
        × (l'.daily_cap_ugnot ≡ l.daily_cap_ugnot)
        × (l'.day_start ≡ l.day_start)
        × (l'.day_spent ≡ (
            if same_utc_day granted_at l.day_start
            then (if ltb_ℤ (sub64 l.day_spent l.grant_ugnot) (pos 0)
                then pos 0
                else sub64 l.day_spent l.grant_ugnot)
            else l.day_spent))
  unfolding refund refill_drip credit_day credit_drip
  refund_fields addr ip granted_at now l = ground arith

  -- The clamp at zero of Refund never acts: what it takes off was counted.
  credited :
      (spent grant : ℤ) (n k : ℕ) (b : Bool)
      → spent ≡ pos (g * n)
      → grant ≡ pos g
      → g * n ≤ c
      → n ≡ (if b then 1 else 0) + k
      → (if b
          then (if ltb_ℤ (sub64 spent grant) (pos 0) then pos 0 else sub64 spent grant)
          else spent)
        ≡ pos (g * k)
  credited spent grant n k true se ge fits e = ground (arith, sub64-pos (g * n) g, mul-add g 1 k)
  credited spent grant n k false se ge fits e = ground arith

  -- A refund takes its grant off the day of the grant, and off no other day's counter.
  pub refund-Accounts :
      (addr ip : Bytes) (granted_at now : ℕ) (l : Limiter F) (count count' : ℕ → ℕ) (t : ℕ)
      → Accounts l count t
      → t ≤ now
      → ((d : ℕ) → count d ≡ (if granted_at / day == d then 1 else 0) + count' d)
      → Accounts (refund F addr ip granted_at now l) count' now
  refund-Accounts addr ip granted_at now l count count' t h le ne =
      let (ge, ce, se, de) = refund_fields addr ip granted_at now l in
      let k = count' (l.day_start / day) in
      record {
        grant_is = ge ∙ h.grant_is;
        cap_is = ce ∙ h.cap_is;
        spent_is =
            rw (se, de)
              (credited l.day_spent l.grant_ugnot (count (l.day_start / day)) k
                (same_utc_day granted_at l.day_start) h.spent_is h.grant_is
                (h.in_cap (l.day_start / day)) (ne (l.day_start / day)));
        in_cap = λ d. ground (arith, ne d, h.in_cap d, mul-add g 1 (count' d));
        none_later = λ d later. ground (arith, ne d, h.none_later d);
        fresh = λ zero_start. ground (arith, ne 0);
        started = omega arith;
      }

  -- A new limiter has counted nothing.
  pub new_limiter-Accounts :
      (cfg : LimiterCfg F) (count : ℕ → ℕ) (t : ℕ)
      → cfg.grant_ugnot ≡ pos g
      → cfg.daily_cap_ugnot ≡ pos c
      → ((d : ℕ) → count d ≡ 0)
      → Accounts (new_limiter F cfg) count t
  unfolding new_limiter
  new_limiter-Accounts cfg count t ge ce none_yet = record {
    grant_is = ge;
    cap_is = ce;
    spent_is = ground (arith, none_yet 0);
    in_cap = λ d. ground (arith, none_yet d);
    none_later = λ d later. none_yet d;
    fresh = λ zero_start. none_yet 0;
    started = omega arith;
  }
