-- ===== src/ClientFaucet/Poll.antt =====
-- internal/tools/write/faucet.go: the poll for a grant, pollFunded. Of the i-th round, `answers i` is
-- what Funded answers, `clock i` the time then, in nanoseconds after the start, and `cancelled i`
-- whether the context is done before the next round.
use gno_mcp.Prelude.{
  ℕ, zero, suc, ◌+◌, ◌*◌, ◌/◌, ◌≤◌, ◌<◌, ◌≡◌, refl, Bool, true, false, Option, none, some, ltb,
  arith, Bool-cases, inl, inr, ◌⊎◌, subst, ◌∙◌, if◌then◌else◌,
}
use native.Mathlib.Nat.{lt-div-mul-add}

-- what pollFunded returns: whether the address is funded, and whether the last balance check that
-- counts failed
pub record Polled : Type 0 where
  pub is_funded : Bool
  pub check_failed : Bool

-- what one answer of Funded says
abbrev pub says_funded : Option Bool → Bool
says_funded none = false
says_funded (some b) = b

-- lastErr behind one answer
abbrev pub failed_by : Option Bool → Bool → Bool
failed_by none failed = true
failed_by (some b) failed = failed

plus_zero : (n : ℕ) → n + 0 ≡ n
plus_zero n = omega arith

plus_suc : (n m : ℕ) → n + suc m ≡ suc n + m
plus_suc n m = omega arith

quotient : (n d : ℕ) → 0 < d → n < suc (n / d) * d
quotient n d h = ground (arith, lt-div-mul-add {a = n} {b = d} h)

zero_plus : (n : ℕ) → n ≡ 0 + n
zero_plus n = omega arith

module _ (answers : ℕ → Option Bool) (clock : ℕ → ℕ) (cancelled : ℕ → Bool) (timeout : ℕ) where
  -- pollFunded, from the i-th round with `fuel` rounds to go
  unfoldable pub poll_from : ℕ → ℕ → Bool → Option Polled
  poll_from zero i failed = none
  poll_from (suc fuel) i failed =
      let failed' = failed_by (answers i) failed in
      let rest = poll_from fuel (suc i) failed' in
      if says_funded (answers i)
      then some (record { is_funded = true; check_failed = false })
      else if ltb timeout (clock i)
      then some (record { is_funded = false; check_failed = failed' })
      else if cancelled i
      then some (record { is_funded = false; check_failed = failed' })
      else rest

  unfoldable pub poll_funded : ℕ → Option Polled
  unfolding poll_from
  poll_funded fuel = poll_from fuel 0 false

  -- What a poll may return: not funded, or funded because some answer said so.
  abbrev pub Honest : Polled → Type 0
  Honest p = (p.is_funded ≡ false) ⊎ ((i : ℕ) × (says_funded (answers i) ≡ true))

  -- A round returns, or the poll goes on.
  one_round :
      (fuel i : ℕ) (failed : Bool)
      → ((p : Polled) × (poll_from (suc fuel) i failed ≡ some p) × Honest p)
        ⊎ ((ltb timeout (clock i) ≡ false)
            × (poll_from (suc fuel) i failed
                ≡ poll_from fuel (suc i) (failed_by (answers i) failed)))
  unfolding poll_from
  one_round fuel i failed =
      let unfunded : Polled = record {
        is_funded = false;
        check_failed = failed_by (answers i) failed;
      } in
      elim (Bool-cases (says_funded (answers i))) [
        | inl e ↦
            inl (record { is_funded = true; check_failed = false }, ground (arith, e), inr (i, e))
        | inr e ↦ elim (Bool-cases (ltb timeout (clock i))) [
          | inl l ↦ inl (unfunded, ground (arith, e, l), inl refl)
          | inr l ↦ elim (Bool-cases (cancelled i)) [
            | inl x ↦ inl (unfunded, ground (arith, e, l, x), inl refl)
            | inr x ↦ inr (l, ground (arith, e, l, x))
          ]
        ]
      ]

  poll_from-returns :
      (fuel i : ℕ) (failed : Bool)
      → timeout < clock (i + fuel)
      → (p : Polled) × (poll_from (suc fuel) i failed ≡ some p) × Honest p
  poll_from-returns zero i failed late = elim (one_round zero i failed) [
    | inl done ↦ done
    | inr (on, same) ↦
        absurd (ground (arith, subst (λ n. timeout < clock n) (plus_zero i) late, on))
  ]
  poll_from-returns (suc fuel) i failed late = elim (one_round (suc fuel) i failed) [
    | inl done ↦ done
    | inr (on, same) ↦
        let (p, returns, honest) =
          poll_from-returns fuel (suc i) (failed_by (answers i) failed)
            (subst (λ n. timeout < clock n) (plus_suc i fuel) late) in
        (p, same ∙ returns, honest)
  ]

  -- pollFunded ends: where every round takes at least the interval, it has returned after as many rounds
  -- as the timeout has intervals, and two; and it says that the address is funded only where an answer
  -- of Funded said so.
  pub poll_funded-returns :
      (interval : ℕ)
      → 0 < interval
      → ((i : ℕ) → i * interval ≤ clock i)
      → (p : Polled) × (poll_funded (suc (suc (timeout / interval))) ≡ some p) × Honest p
  unfolding poll_funded
  poll_funded-returns interval positive paced =
      poll_from-returns (suc (timeout / interval)) 0 false (
        subst (λ n. timeout < clock n) (zero_plus (suc (timeout / interval)))
          (omega (arith, paced (suc (timeout / interval)), quotient timeout interval positive)))
