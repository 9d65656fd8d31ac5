-- ===== src/ClientFaucet/Tests.antt =====
-- A poll that is answered in the fourth round, and the theorem about polls.
use gno_mcp.Prelude.{
  ℕ, suc, ◌*◌, ◌/◌, ◌≤◌, ◌≡◌, Bool, true, false, Option, none, some, arith, if◌then◌else◌, ◌==◌,
}
use gno_mcp.ClientFaucet.Poll.{Polled, poll_funded, Honest, poll_funded-returns}

abbrev third_time : ℕ → Option Bool
third_time i = if i == 3 then some true else none

abbrev each_second : ℕ → ℕ
each_second i = i * 1000

each_second-paced : (i : ℕ) → i * 1000 ≤ each_second i
each_second-paced i = omega arith

poll_funded-returns_example :
    (p : Polled) × (poll_funded third_time each_second (λ i. false) 5000 (suc (suc (5000 / 1000)))
      ≡ some p)
    × Honest third_time each_second (λ i. false) 5000 p
poll_funded-returns_example =
    poll_funded-returns third_time each_second (λ i. false) 5000 1000 (omega arith)
      each_second-paced
