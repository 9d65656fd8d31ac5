-- ===== src/ClientFaucet/Unsent.antt =====
-- The client and the faucet service together: which errors of the client rule out that a grant was
-- sent.
use gno_mcp.Prelude.{
  ℕ, ◌≡◌, ◌≢◌, ◌⊎◌, inl, inr, refl, Bytes, is_empty, true, Option, some, arith, Bool-cases,
}
use gno_mcp.Prelude.Int.{ℤ}
use gno_mcp.Prelude.Result.{Result, ok, err, Result-cases}
use gno_mcp.Faucet.Float64.{Float64}
use gno_mcp.Faucet.Fund.{
  Faucet, Request, Balance, SendOutcome, sent, not_granted, outcome_unknown, FundError,
  dispense_failed, begin_grant, end_grant, after_begin, fund,
}
use gno_mcp.Faucet.Http.{Response, funded, status_of, classify, respond, handle_fund}
use gno_mcp.Faucet.Http.Disclosure.{answer}
use gno_mcp.ClientFaucet.{
  Decoder, ClientError, service_failed, answered, service_fund, valid_tx_hash, FundOutcome,
  by_service,
}

-- What the service writes for an answer is what the client decodes, for a grant; and the hashes of the
-- dispenser are hashes.
pub record IsWire (d : Decoder) (body_of : Response → Bytes) (send : Bytes → SendOutcome)
    : Type 0 where
  pub decodes : (tx : Bytes) (amount : ℤ) → d.tx_hash (body_of (funded tx amount)) ≡ some tx
  pub hashes : (to tx : Bytes) → send to ≡ sent tx → valid_tx_hash tx ≡ true

send-cases :
    (o : SendOutcome) → ((tx : Bytes) × (o ≡ sent tx)) ⊎ ((o ≡ not_granted) ⊎ (o ≡ outcome_unknown))
send-cases (sent tx) = inl (tx, refl)
send-cases not_granted = inr (inl refl)
send-cases outcome_unknown = inr (inr refl)

module _ (F : Float64) (parse : Bytes → Option Bytes) (balance : Balance)
    (send : Bytes → SendOutcome) (q : Request F) (now later : ℕ) (f : Faucet F) (d : Decoder)
    (body_of : Response → Bytes) (wire : IsWire d body_of send) where
  -- what the client makes of the answer to a request, by what Fund came to
  abbrev read_back : Faucet F → Result FundError Bytes → Result ClientError FundOutcome
  read_back f' r =
      let a = respond F f' r (classify r).0 (classify r).1 in
      service_fund d q.address (answered (status_of a) (body_of a))

  read_back-dispensed : (f' : Faucet F) → read_back f' (err dispense_failed) ≡ err service_failed
  unfolding respond classify service_fund
  read_back-dispensed f' = refl

  read_back-granted :
      (f' : Faucet F) (to tx : Bytes)
      → send to ≡ sent tx
      → (o : FundOutcome) × (read_back f' (ok tx) ≡ ok o)
  unfolding respond classify service_fund
  read_back-granted f' to tx h =
      (by_service q.address tx, rw (wire.decodes tx f'.grant_ugnot, wire.hashes to tx h) refl)

  -- Once a send was attempted, the client reports success, or that the service failed.
  begun-read :
      (canonical : Bytes) (granted_at : ℕ) (f' : Faucet F) (e : ClientError)
      → read_back
          (after_begin F (ok (canonical, granted_at)) q.ip send later f').1
          (after_begin F (ok (canonical, granted_at)) q.ip send later f').0
        ≡ err e
      → e ≡ service_failed
  unfolding after_begin end_grant respond classify service_fund
  begun-read canonical granted_at f' e h = elim (send-cases (send canonical)) [
    | inl (tx, is_sent) ↦
        let (o, reads) = read_back-granted f' canonical tx is_sent in
        absurd (ground (arith, is_sent, reads, h))
    | inr unsent ↦ ground (arith, unsent, h)
  ]

  -- An error of the client that is not ErrServiceFailed, in answer to this repository's faucet service,
  -- means that no grant was sent: the request had no address, or Fund stopped before the send.
  -- Conditions: the body that the service writes for a grant is read back as its hash, and the hashes of
  -- the dispenser have the form of a hash.
  pub service_fund-unsent :
      (e : ClientError)
      → service_fund d q.address (
          answered
            (status_of (answer F parse balance send q now later f))
            (body_of (answer F parse balance send q now later f)))
        ≡ err e
      → e ≢ service_failed
      → (is_empty q.address ≡ true)
        ⊎ ((x : FundError) × ((begin_grant F (parse q.address) balance q now f).0 ≡ err x))
  unfolding handle_fund fund
  service_fund-unsent e h other = elim (Bool-cases (is_empty q.address)) [
    | inl e1 ↦ inl e1
    | inr named ↦ elim (Result-cases (begin_grant F (parse q.address) balance q now f).0) [
      | inr (x, stopped) ↦ inr (x, stopped)
      | inl ((canonical, granted_at), begun) ↦ absurd (
          other (
            begun-read canonical granted_at (begin_grant F (parse q.address) balance q now f).1 e
              (ground (arith, h, named, begun))))
    ]
  ]
