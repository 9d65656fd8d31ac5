-- ===== src/Faucet/Tests.antt =====
-- The faucet on concrete requests. Amounts are whole numbers here, and seconds are truncated: one
-- of the number types that meet the laws of `Float64`.
use gno_mcp.Prelude.{
  ℕ, ◌+◌, ◌*◌, ◌≤◌, ◌≡◌, ◌↔◌, ◌⊎◌, refl, Bytes, codes, eqb, true, false, Option, some, List, [],
  ◌∷◌, ◌++◌, arith, split_on, trim_space,
}
use gno_mcp.Prelude.Int.{ℤ, pos, negsuc, ◌≤ℤ◌, ◌+ℤ◌, ◌-ℤ◌, ◌*ℤ◌, quot, ltb_ℤ, add64, sub64}
use gno_mcp.Prelude.Map.{lookup, insert}
use gno_mcp.Prelude.Result.{err}
use gno_mcp.Faucet.Float64.{Float64}
use gno_mcp.Faucet.Limiter.{
  LimiterCfg, new_limiter, cooldown, rate_limited, day, hour, allow, roll_day, checked_grant,
  drip_then_grant, record_grant, refill_drip, refund, credit_day, credit_drip, count_within, prune,
  drop_last, sweep,
}
use gno_mcp.Faucet.Limiter.Decisions.{
  Op, allow_op, refund_op, by_addr, by_ip, apply, apply_all, past_of, cooldown_iff,
  rate_limited_iff,
}
use gno_mcp.Faucet.Limiter.Drip.{IsFilled, drip_bounds}
use gno_mcp.Faucet.Fund.{
  Faucet, Request, no_source, SendOutcome, sent, not_granted, outcome_unknown, limited,
  chain_mismatch, bad_address, funding_low, fund,
}
use gno_mcp.Faucet.Http.{too_many, error_text, classify, respond, handle_fund}
use gno_mcp.Faucet.Http.Disclosure.{answer, limit_disclosed, text_disclosed}
use gno_mcp.Faucet.Http.ClientIp.{client_ip, client_ip_unforgeable}
use gno_mcp.Faucet.Service.{Event, begins, ends, on_day, run, start_service}
use gno_mcp.Faucet.Service.Budget.{paid-le-daily_cap}
use gno_mcp.ClientFaucet.{
  Decoder, service_failed, service_error, answered, valid_tx_hash, service_fund,
}
use gno_mcp.ClientFaucet.Unsent.{IsWire, service_fund-unsent}
use gno_mcp.Faucet.Fund.{FundError, begin_grant}
use gno_mcp.Faucet.Http.{Response, funded, status_of}
use gno_mcp.Faucet.Http.Disclosure.{answer}
use gno_mcp.Prelude.{subst, ◌≢◌, ◌⊎◌, all_chars, has_prefix, is_empty}

lt_irrefl : (a : ℤ) → ltb_ℤ a a ≡ false
lt_irrefl a = ground arith

lt_asymm : (a b : ℤ) → ltb_ℤ a b ≡ true → ltb_ℤ b a ≡ false
lt_asymm a b h = ground arith

ge_trans : (a b c : ℤ) → ltb_ℤ a b ≡ false → ltb_ℤ b c ≡ false → ltb_ℤ a c ≡ false
ge_trans a b c h k = ground arith

int64_mono : (a b : ℤ) → a ≤ℤ b → ltb_ℤ b a ≡ false
int64_mono a b h = ground arith

sub_nonneg : (a b : ℤ) → ltb_ℤ a b ≡ false → ltb_ℤ (a -ℤ b) (pos 0) ≡ false
unfolding ◌-ℤ◌
sub_nonneg a b h = ground arith

sub_le : (a b : ℤ) → ltb_ℤ b (pos 0) ≡ false → ltb_ℤ a (a -ℤ b) ≡ false
unfolding ◌-ℤ◌
sub_le a b h = ground arith

add_nonneg :
    (a b : ℤ) → ltb_ℤ a (pos 0) ≡ false → ltb_ℤ b (pos 0) ≡ false → ltb_ℤ (a +ℤ b) (pos 0) ≡ false
unfolding ◌+ℤ◌
add_nonneg a b h k = ground arith

mul_nonneg :
    (a b : ℤ) → ltb_ℤ a (pos 0) ≡ false → ltb_ℤ b (pos 0) ≡ false → ltb_ℤ (a *ℤ b) (pos 0) ≡ false
unfolding ◌*ℤ◌
mul_nonneg (pos a) (pos b) h k = ground arith
mul_nonneg (pos a) (negsuc b) h k = ground arith
mul_nonneg (negsuc a) (pos b) h k = ground arith
mul_nonneg (negsuc a) (negsuc b) h k = ground arith

abbrev whole : Float64
whole = record {
  Float = ℤ;
  of_int64 = λ n. n;
  seconds = λ ns. quot ns (pos 1000000000);
  to_int = λ n. n;
  add = ◌+ℤ◌;
  sub = ◌-ℤ◌;
  mul = ◌*ℤ◌;
  lt = ltb_ℤ;
  lt_irrefl = lt_irrefl;
  lt_asymm = lt_asymm;
  ge_trans = ge_trans;
  of_int64_mono = int64_mono;
  sub_nonneg = sub_nonneg;
  sub_le = sub_le;
  add_nonneg = add_nonneg;
  mul_nonneg = mul_nonneg;
}

abbrev config : LimiterCfg whole
config = record {
  per_addr_window = pos 0;
  per_addr_max = pos 1;
  per_ip_window = pos 0;
  per_ip_max = pos 3;
  daily_cap_ugnot = pos 100;
  grant_ugnot = pos 40;
  drip_burst_ugnot = pos 60;
  drip_rate_ugnot_per_sec = pos 1;
}

abbrev alice : Bytes
alice = codes "g1alice"

abbrev home : Bytes
home = codes "10.0.0.1"

-- ten hours into the day 700,000
abbrev morning : ℕ
morning = 700000 * day + 10 * hour

abbrev calls : List Op
calls =
    allow_op alice home morning
    ∷ refund_op alice home morning (morning + 1)
    ∷ allow_op alice home (morning + 2)
    ∷ []

-- The refunded grant does not count against alice, the second one does.
alice_waits :
    (allow whole alice home (morning + 3) (apply_all whole calls (new_limiter whole config))).0
    ≡ err cooldown
unfolding allow apply_all apply new_limiter roll_day checked_grant drip_then_grant record_grant
    refill_drip refund credit_day credit_drip count_within prune drop_last lookup insert eqb sweep
    add64 sub64 ◌-ℤ◌ ◌+ℤ◌ ◌*ℤ◌ quot
alice_waits = refl

cooldown_iff_example :
    let l = apply_all whole calls (new_limiter whole config) in
    let past = past_of whole by_addr alice calls (new_limiter whole config) [] in
    ((allow whole alice home (morning + 3) l).0 ≡ err cooldown)
    ↔ (l.per_addr_max ≤ℤ pos (count_within past (morning + 3) l.per_addr_window))
cooldown_iff_example =
    cooldown_iff whole alice home config calls (morning + 3) (omega arith) (omega arith)

rate_limited_iff_example :
    let l = apply_all whole calls (new_limiter whole config) in
    let past = past_of whole by_addr alice calls (new_limiter whole config) [] in
    let ip_past = past_of whole by_ip home calls (new_limiter whole config) [] in
    ((allow whole alice home (morning + 3) l).0 ≡ err rate_limited)
    ↔ (¬ (l.per_addr_max ≤ℤ pos (count_within past (morning + 3) l.per_addr_window)))
      × (l.per_ip_max ≤ℤ pos (count_within ip_past (morning + 3) l.per_ip_window))
rate_limited_iff_example =
    rate_limited_iff whole alice home config calls (morning + 3) (omega arith) (omega arith)

drip_bounds_example : IsFilled whole (apply_all whole calls (new_limiter whole config))
drip_bounds_example = drip_bounds whole config calls (omega arith) (omega arith) (omega arith)

abbrev gateway : Faucet whole
gateway = record {
  chain_id = codes "test5";
  grant_ugnot = pos 40;
  min_funding_ugnot = pos 0;
  limiter = unfold new_limiter in new_limiter whole config;
}

abbrev request : Request whole
request = record { address = alice; ip = home; chain_id = codes "test5" }

-- Two requests at once: the first send fails, the outcome of the second stays unknown.
abbrev side_by_side : List (Event whole)
side_by_side =
    begins (some alice) no_source request morning
    ∷ begins (some (codes "g1bob")) no_source request (morning + 1)
    ∷ ends 1 not_granted (morning + 5)
    ∷ ends 0 outcome_unknown (morning + 9)
    ∷ []

paid-le-daily_cap_example :
    let s = run whole side_by_side (start_service whole config gateway) in
    40 * (on_day 700000 s.in_flight + on_day 700000 s.paid) ≤ 100
paid-le-daily_cap_example =
    paid-le-daily_cap whole 40 100 (omega arith) (omega arith) gateway config side_by_side morning
      700000 refl refl (omega arith) (omega arith)

abbrev known : Bytes → Option Bytes
known s = some s

abbrev delivered : Bytes → SendOutcome
delivered s = sent (codes "hash")

-- A limiter with no grants for an address blocks them all.
abbrev closed : Faucet whole
closed = record gateway { limiter = new_limiter whole (record config { per_addr_max = pos 0 }) }

answer-closed :
    answer whole known no_source delivered request morning morning closed
    ≡ too_many (pos 86400) true
unfolding handle_fund respond classify fund allow roll_day checked_grant new_limiter eqb quot ◌-ℤ◌
    lookup count_within sweep
answer-closed = refl

limit_disclosed_example :
    (pos 86400 ≤ℤ pos 86400)
    × ((true ≡ true) ↔ (
        (fund whole known no_source delivered request morning morning closed).0
        ≡ err (limited cooldown)))
limit_disclosed_example =
    limit_disclosed whole known no_source delivered request morning morning closed (pos 86400) true
      answer-closed

abbrev astray : Request whole
astray = record request { chain_id = codes "gnoland-1" }

answer-astray :
    answer whole known no_source delivered astray morning morning gateway
    ≡ error_text 403 chain_mismatch
unfolding handle_fund respond classify fund eqb
answer-astray = refl

text_disclosed_example :
    (chain_mismatch ≡ chain_mismatch)
    ⊎ (chain_mismatch ≡ bad_address)
    ⊎ (chain_mismatch ≡ funding_low)
text_disclosed_example =
    text_disclosed whole known no_source delivered astray morning morning gateway 403 chain_mismatch
      answer-astray

-- One proxy in front: the entry that it appended counts, not the one that the client sent.
client_ip_one_proxy :
    client_ip (codes "10.1.1.1") (codes "6.6.6.6, 203.0.113.7") (pos 1) ≡ codes "203.0.113.7"
unfolding client_ip split_on trim_space
client_ip_one_proxy = refl

client_ip_unforgeable_example :
    client_ip (codes "10.1.1.1") (codes "6.6.6.6" ++ (b',' ∷ codes " 203.0.113.7")) (pos 1)
    ≡ client_ip (codes "10.1.1.1") (codes " 203.0.113.7") (pos 1)
client_ip_unforgeable_example =
    client_ip_unforgeable (codes "10.1.1.1") (codes "6.6.6.6") (codes " 203.0.113.7") 1 (λ e. cc)
      (unfold split_on in omega arith)

abbrev plain_hash : Decoder
plain_hash = record { tx_hash = λ body. some body; limit = λ body. []; retry_after = λ body. pos 0 }

abbrev hash_of : Response → Bytes
hash_of (funded tx amount) = tx
hash_of other = []

abbrev sends : Bytes → SendOutcome
sends to = sent (codes "ab12")

ab12-valid : valid_tx_hash (codes "ab12") ≡ true
unfolding valid_tx_hash has_prefix all_chars
ab12-valid = refl

sends-IsWire : IsWire plain_hash hash_of sends
sends-IsWire = record {
  decodes = λ tx amount. refl;
  hashes = λ to tx e. subst (λ t. valid_tx_hash t ≡ true) (ground (arith, e)) ab12-valid;
}

wrong_chain-read :
    service_fund plain_hash astray.address (
      answered
        (status_of (answer whole known no_source sends astray 0 0 gateway))
        (hash_of (answer whole known no_source sends astray 0 0 gateway)))
    ≡ err (service_error 403)
unfolding handle_fund respond classify fund eqb begin_grant service_fund
wrong_chain-read = refl

not_failed : service_error 403 ≢ service_failed
not_failed = λ e. cc

service_fund-unsent_example :
    (is_empty astray.address ≡ true)
    ⊎ ((x : FundError) × ((begin_grant whole (known astray.address) no_source astray 0 gateway).0
          ≡ err x))
service_fund-unsent_example =
    service_fund-unsent whole known no_source sends astray 0 0 gateway plain_hash hash_of
      sends-IsWire (service_error 403) wrong_chain-read not_failed
