-- ===== src/Faucet/Fund/Checks.antt =====
-- How the part of Fund before the send can end, and what it does to the limiter.
use gno_mcp.Prelude.{ℕ, ◌≡◌, refl, Bytes, eqb, Option, none, some, Bool-cases, inl, inr}
use gno_mcp.Prelude.Result.{Result, ok, err}
use gno_mcp.Faucet.Float64.{Float64}
use gno_mcp.Faucet.Limiter.{Limiter, allow}
use gno_mcp.Faucet.Limiter
use gno_mcp.Faucet.Fund.{
  Faucet, Request, Balance, FundError, limited, chain_mismatch, bad_address, check_balance,
  limited_grant, funded_grant, begin_grant,
}

module _ (F : Float64) where
  abbrev pub Outcome : Type 0
  Outcome = Result FundError (Bytes × ℕ) × Faucet F

  -- Refused before the limiter is asked, refused by the limiter, or granted at the time `at`.
  pub data Begun (ip : Bytes) (now : ℕ) (f : Faucet F) : Outcome → Type 0 where
    refused : (e : FundError) → Begun ip now f (err e, f)
    was_limited :
        (canonical : Bytes) (x : Limiter.Error)
        → (allow F canonical ip now f.limiter).0 ≡ err x
        → Begun ip now f
            (err (limited x), record f { limiter = (allow F canonical ip now f.limiter).1 })
    granted :
        (canonical : Bytes) (at : ℕ)
        → (allow F canonical ip now f.limiter).0 ≡ ok at
        → Begun ip now f
            (ok (canonical, at), record f { limiter = (allow F canonical ip now f.limiter).1 })

  limited_grant-Begun :
      (canonical ip : Bytes) (now : ℕ) (f : Faucet F)
      → Begun ip now f (limited_grant F canonical ip now f)
  unfolding limited_grant
  limited_grant-Begun canonical ip now f = go (allow F canonical ip now f.limiter).0 refl
    where
      go :
          (r : Result Limiter.Error ℕ)
          → (allow F canonical ip now f.limiter).0 ≡ r
          → Begun ip now f (
              let l = (allow F canonical ip now f.limiter).1 in
              elim r [
                | ok at ↦ (ok (canonical, at), record f { limiter = l })
                | err e ↦ (err (limited e), record f { limiter = l })
              ])
      go (ok at) e = granted canonical at e
      go (err x) e = was_limited canonical x e

  funded_grant-Begun :
      (r : Result FundError (Unit {0})) (canonical ip : Bytes) (now : ℕ) (f : Faucet F)
      → Begun ip now f (funded_grant F r canonical ip now f)
  unfolding funded_grant
  funded_grant-Begun (ok u) canonical ip now f = limited_grant-Begun canonical ip now f
  funded_grant-Begun (err e) canonical ip now f = refused e

  parsed_grant-Begun :
      (recipient : Option Bytes) (r : Result FundError (Unit {0})) (ip : Bytes) (now : ℕ)
      (f : Faucet F)
      → Begun ip now f (elim recipient [
        | none ↦ (err bad_address, f)
        | some canonical ↦ funded_grant F r canonical ip now f
      ])
  parsed_grant-Begun none r ip now f = refused bad_address
  parsed_grant-Begun (some canonical) r ip now f = funded_grant-Begun r canonical ip now f

  -- Every way in which the part of Fund before the send can end: a chain mismatch, a bad address
  -- or a low balance leaves the faucet as it was.
  pub begin_grant-Begun :
      (recipient : Option Bytes) (balance : Balance) (q : Request F) (now : ℕ) (f : Faucet F)
      → Begun q.ip now f (begin_grant F recipient balance q now f)
  unfolding begin_grant
  begin_grant-Begun recipient balance q now f = elim (Bool-cases (eqb q.chain_id f.chain_id)) [
    | inl e ↦
        rw e (parsed_grant-Begun recipient (check_balance F f.min_funding_ugnot balance) q.ip now f)
    | inr e ↦ rw e (refused chain_mismatch)
  ]
