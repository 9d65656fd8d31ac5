-- ===== src/Session/Scope/Clamps.antt =====
-- What the clamps to the hard limits of a profile do to a scope.
use gno_mcp.Prelude.{
  ℕ, ◌≤◌, ◌<◌, ◌≡◌, refl, sym, ap, ◌∙◌, Bytes, is_empty, prefix_of, rest_of, parse_int, value_from,
  Bool, true, false, some, List, [], ◌∷◌, ◌++◌, arith, length, length-take, All, All-take, inl, inr,
  Bool-cases,
}
use gno_mcp.Prelude.Int.{ℤ, pos, ◌≤ℤ◌, ◌<ℤ◌}
use gno_mcp.Prelude.Result.{Result, ok, ◌>>=◌, bind-ok}
use gno_mcp.Profiles.Profile.{Profile, HardLimits, hard_limits, is_local}
use gno_mcp.Session.Coins.{parse_coins, clamp_coin, clamp_coin-le, clamp_coin-kept}
use gno_mcp.Session.Scope.{
  Scope, ScopeError, not_comparable, Warning, ugnot, spend_limit_covers_fee, or_error, after_clamp,
  clamp_spend, clamp_expiry, clamp_paths, clamped_scope,
}
use gno_mcp.Session.Scope.Requested.{Pays, covers_fee-Pays, or_error-ok}

after_clamp-lem :
    (s s1 : Scope) (w1 : List Warning) (value : Bytes) (did : Bool)
    → (did ≡ false → value ≡ s.spend_limit)
    → Path
        (Result ScopeError (Scope × List Warning))
        (ok (after_clamp s (value, did)))
        (ok (s1, w1))
    → (s1 ≡ record s { spend_limit = value }) × (w1 ≡ [] → s1 ≡ s)
after_clamp-lem s s1 w1 value true same h = (ground arith, λ k. ground arith)
after_clamp-lem s s1 w1 value false same h = (ground (arith, same refl), λ k. ground arith)

module _ (limits : HardLimits) (s : Scope) where
  clamp_expiry-under :
      pos 0 <ℤ limits.max_expires_in → (clamp_expiry limits s).0.expires_in ≤ℤ limits.max_expires_in
  unfolding clamp_expiry
  clamp_expiry-under h = ground arith

  clamp_expiry-period :
      s.spend_period ≡ s.expires_in
      → (clamp_expiry limits s).0.spend_period ≡ (clamp_expiry limits s).0.expires_in
  unfolding clamp_expiry
  clamp_expiry-period h = ground arith

  clamp_expiry-rest :
      ((clamp_expiry limits s).0.spend_limit ≡ s.spend_limit)
      × ((clamp_expiry limits s).0.allow_paths ≡ s.allow_paths)
      × ((clamp_expiry limits s).0.allow_run ≡ s.allow_run)
  unfolding clamp_expiry
  clamp_expiry-rest = ground arith

  clamp_expiry-kept : (clamp_expiry limits s).1 ≡ [] → (clamp_expiry limits s).0 ≡ s
  unfolding clamp_expiry
  clamp_expiry-kept h = ground arith

  clamp_paths-under :
      0 < limits.max_allow_paths_count
      → length (clamp_paths limits s).0.allow_paths ≤ limits.max_allow_paths_count
  unfolding clamp_paths
  clamp_paths-under h = ground (arith, length-take limits.max_allow_paths_count s.allow_paths)

  clamp_paths-clean :
      (P : Bytes → Type 0) → All P s.allow_paths → All P (clamp_paths limits s).0.allow_paths
  unfolding clamp_paths
  clamp_paths-clean P h = ground (arith, All-take P limits.max_allow_paths_count s.allow_paths h)

  clamp_paths-rest :
      ((clamp_paths limits s).0.spend_limit ≡ s.spend_limit)
      × ((clamp_paths limits s).0.spend_period ≡ s.spend_period)
      × ((clamp_paths limits s).0.expires_in ≡ s.expires_in)
  unfolding clamp_paths
  clamp_paths-rest = ground arith

  clamp_paths-kept : (clamp_paths limits s).1 ≡ [] → (clamp_paths limits s).0 ≡ s
  unfolding clamp_paths
  clamp_paths-kept h = ground arith

  -- Clamping the spend limit changes that field at most.
  clamp_spend-value :
      (s1 : Scope) (w1 : List Warning) (c : ℕ)
      → is_empty limits.max_spend_limit ≡ false
      → parse_coins limits.max_spend_limit ≡ some (c, ugnot)
      → clamp_spend limits s ≡ ok (s1, w1)
      → (value : Bytes) × (s1 ≡ record s { spend_limit = value })
        × ((mag : ℕ) × (parse_coins value ≡ some (mag, ugnot)) × (mag ≤ c))
        × (w1 ≡ [] → s1 ≡ s)
  unfolding clamp_spend
  clamp_spend-value s1 w1 c some_cap cap_is h =
      let h0 : (or_error not_comparable (clamp_coin s.spend_limit limits.max_spend_limit) >>= λ x.
      ok (after_clamp s x))
          ≡ ok (s1, w1) =
        rw some_cap at h in
      let ((value, did), e, h1) =
        bind-ok (or_error not_comparable (clamp_coin s.spend_limit limits.max_spend_limit)) _ h0 in
      let clamped = or_error-ok not_comparable _ (value, did) e in
      let (is, kept) =
        after_clamp-lem s s1 w1 value did
          (λ k. clamp_coin-kept s.spend_limit limits.max_spend_limit value (rw k at clamped)) h1 in
      (
        value,
        is,
        clamp_coin-le s.spend_limit limits.max_spend_limit value did c ugnot cap_is clamped,
        kept,
      )

-- The ceilings of a profile that does not lift them.
pub record Ceilings (limits : HardLimits) : Type 0 where
  pub some_cap : is_empty limits.max_spend_limit ≡ false
  pub cap_is : parse_coins limits.max_spend_limit ≡ some (100000000, ugnot)
  pub some_time : pos 0 <ℤ limits.max_expires_in
  pub some_paths : 0 < limits.max_allow_paths_count

pub hard_limits-Ceilings :
    (profile : Profile) → profile.bypass_hard_limits ≡ false → Ceilings (hard_limits profile)
unfolding hard_limits parse_coins prefix_of rest_of parse_int value_from
hard_limits-Ceilings profile h = elim (Bool-cases (is_local profile)) [
  | inl e ↦
      rw (h, e)
        (record {
          some_cap = refl;
          cap_is = refl;
          some_time = omega arith;
          some_paths = omega arith;
        })
  | inr e ↦
      rw (h, e)
        (record {
          some_cap = refl;
          cap_is = refl;
          some_time = omega arith;
          some_paths = omega arith;
        })
]

-- A scope that passed the clamps.
pub record Clamped (limits : HardLimits) (fee : ℤ) (s s' : Scope) (warnings : List Warning)
    : Type 1 where
  pub in_time : s'.expires_in ≤ℤ limits.max_expires_in
  pub few : length s'.allow_paths ≤ limits.max_allow_paths_count
  pub clean : (P : Bytes → Type 0) → All P s.allow_paths → All P s'.allow_paths
  pub period : s.spend_period ≡ s.expires_in → s'.spend_period ≡ s'.expires_in
  pub coin : (mag : ℕ) × (parse_coins s'.spend_limit ≡ some (mag, ugnot)) × (mag ≤ 100000000)
  pub pays : pos 0 <ℤ fee → Pays s'.spend_limit fee
  pub kept : warnings ≡ [] → s' ≡ s

append-nil_parts : (a b c : List Warning) → a ++ b ++ c ≡ [] → (a ≡ []) × (b ≡ []) × (c ≡ [])
append-nil_parts [] [] c h = (refl, refl, h)
append-nil_parts [] (x ∷ b) c h = absurd (cc)
append-nil_parts (x ∷ a) b c h = absurd (cc)

clamps-Clamped :
    (limits : HardLimits) (fee : ℤ) (s s1 : Scope) (w1 : List Warning)
    → Ceilings limits
    → clamp_spend limits s ≡ ok (s1, w1)
    → let (s2, w2) = clamp_expiry limits s1 in
      let (s3, w3) = clamp_paths limits s2 in
      spend_limit_covers_fee s3.spend_limit fee ≡ ok tt → Clamped limits fee s s3 (w1 ++ w2 ++ w3)
clamps-Clamped limits fee s s1 w1 c e1 e2 =
    let (value, is, coin, kept1) =
      clamp_spend-value limits s s1 w1 100000000 c.some_cap c.cap_is e1 in
    let (s2, w2) = clamp_expiry limits s1 in
    let (s3, w3) = clamp_paths limits s2 in
    let (limit2, paths2, run2) = clamp_expiry-rest limits s1 in
    let (limit3, period3, time3) = clamp_paths-rest limits s2 in
    let limit : s3.spend_limit ≡ value = limit3 ∙ limit2 ∙ ap (λ x. x.spend_limit) is in
    record {
      in_time = rw time3 (clamp_expiry-under limits s1 c.some_time);
      few = clamp_paths-under limits s2 c.some_paths;
      clean = λ P k. clamp_paths-clean limits s2 P (rw (paths2, is) k);
      period = λ k.
          period3
          ∙ clamp_expiry-period limits s1
              (ap (λ x. x.spend_period) is ∙ k ∙ sym (ap (λ x. x.expires_in) is))
          ∙ sym time3;
      coin = rw limit coin;
      pays = covers_fee-Pays s3.spend_limit fee e2;
      kept = λ k.
          let (a, b, d) = append-nil_parts w1 w2 w3 k in
          clamp_paths-kept limits s2 d ∙ clamp_expiry-kept limits s1 b ∙ kept1 a;
    }

pub same_result :
    (x y : Scope × List Warning)
    → Path (Result ScopeError (Scope × List Warning)) (ok x) (ok y)
    → x ≡ y
same_result x y h = ground arith

Clamped-same :
    (limits : HardLimits) (fee : ℤ) (s : Scope) (x y : Scope × List Warning)
    → x ≡ y
    → Clamped limits fee s x.0 x.1
    → Clamped limits fee s y.0 y.1
Clamped-same limits fee s x y e h = rw (sym e) h

pub clamped_scope-Clamped :
    (limits : HardLimits) (fee : ℤ) (s : Scope) (r : Scope × List Warning)
    → Ceilings limits
    → clamped_scope limits fee s ≡ ok r
    → Clamped limits fee s r.0 r.1
unfolding clamped_scope
clamped_scope-Clamped limits fee s r c h =
    let ((s1, w1), e1, h1) = bind-ok (clamp_spend limits s) _ h in
    let (s2, w2) = clamp_expiry limits s1 in
    let (s3, w3) = clamp_paths limits s2 in
    let (u, e2, h2) = bind-ok (spend_limit_covers_fee s3.spend_limit fee) _ h1 in
    Clamped-same limits fee s (s3, w1 ++ w2 ++ w3) r (same_result (s3, w1 ++ w2 ++ w3) r h2)
      (clamps-Clamped limits fee s s1 w1 c e1 e2)
