-- ===== src/Faucet/Dispense/Fresh.antt =====
-- What the dispenser and the balance cache promise to their callers.
use gno_mcp.Prelude.{
  ℕ, ◌-◌, ◌*◌, ◌≤◌, ◌<◌, ◌≡◌, ◌⊎◌, inl, inr, refl, Bytes, true, false, Option, none, some, List, [],
  ◌∷◌, length, arith, Bool-cases, all_chars, has_prefix, ltb, All, In, here, there, ◌&&◌,
}
use gno_mcp.Prelude.Int.{ℤ}
use gno_mcp.Faucet.Dispense.{hex, Cache, balance_at}
use gno_mcp.ClientFaucet.{is_hex, valid_tx_hash}

-- the bytes of a hash
abbrev pub IsByte : ℕ → Type 0
IsByte c = c < 256

hex-all_chars : (s : Bytes) → All IsByte s → all_chars is_hex (hex s) ≡ true
unfolding hex all_chars
hex-all_chars [] h = refl
hex-all_chars (c ∷ s) (byte, h) = ground (arith, hex-all_chars s h, byte)

length-hex : (s : Bytes) → length (hex s) ≡ 2 * length s
unfolding hex
length-hex [] = omega arith
length-hex (c ∷ s) = omega (arith, length-hex s)

-- A call of the balance source: its time, and what a query would answer then.
abbrev pub Ask : Type 0
Ask = ℕ × Option ℤ

-- A balance that is answered at the time `now` was the chain's answer to one of the calls so far, this
-- one or one less than the cache's lifetime ago.
abbrev pub IsFresh : ℕ → List Ask → ℕ → Option ℤ → Type 0
IsFresh ttl past now none = Unit
IsFresh ttl past now (some b) = (t : ℕ) × In (t, some b) past × ((now ≡ t) ⊎ (now - t < ttl))

-- All the answers of a run are fresh; `past` are the calls so far.
unfoldable pub AllFresh : ℕ → List Ask → List Ask → Cache → Type 0
unfolding balance_at
AllFresh ttl past [] c = Unit
AllFresh ttl past ((now, queried) ∷ asks) c =
    IsFresh ttl ((now, queried) ∷ past) now (balance_at ttl now queried c).0
    × AllFresh ttl ((now, queried) ∷ past) asks (balance_at ttl now queried c).1

-- what the cache holds was once an answer
abbrev pub Recorded : List Ask → Cache → Type 0
Recorded past c = (c.seeded ≡ false) ⊎ In (c.cached_at, some c.cached) past

older : (x : Ask) (past : List Ask) (c : Cache) → Recorded past c → Recorded (x ∷ past) c
older x past c (inl bare) = inl bare
older x past c (inr stands) = inr (there stands)

abbrev Answers : ℕ → ℕ → Option ℤ → List Ask → Cache → Type 0
Answers ttl now queried past c =
    IsFresh ttl ((now, queried) ∷ past) now (balance_at ttl now queried c).0
    × Recorded ((now, queried) ∷ past) (balance_at ttl now queried c).1

from_cache :
    (ttl now : ℕ) (queried : Option ℤ) (past : List Ask) (c : Cache)
    → Recorded past c
    → (c.seeded && ltb (now - c.cached_at) ttl) ≡ true
    → Answers ttl now queried past c
unfolding balance_at
from_cache ttl now queried past c (inl bare) e = absurd (ground (arith, e, bare))
from_cache ttl now queried past c (inr stands) e =
    rw (e) ((c.cached_at, there stands, inr (ground (arith, e))), inr (there stands))

from_chain :
    (ttl now : ℕ) (queried : Option ℤ) (past : List Ask) (c : Cache)
    → Recorded past c
    → (c.seeded && ltb (now - c.cached_at) ttl) ≡ false
    → Answers ttl now queried past c
unfolding balance_at
from_chain ttl now none past c h e = rw (e) (tt, older (now, none) past c h)
from_chain ttl now (some b) past c h e = rw (e) ((now, here refl, inl refl), inr (here refl))

one_answer :
    (ttl now : ℕ) (queried : Option ℤ) (past : List Ask) (c : Cache)
    → Recorded past c
    → Answers ttl now queried past c
one_answer ttl now queried past c h = elim (Bool-cases (c.seeded && ltb (now - c.cached_at) ttl)) [
  | inl e ↦ from_cache ttl now queried past c h e
  | inr e ↦ from_chain ttl now queried past c h e
]

-- Every balance that the source answers, over any sequence of calls, was the chain's answer to that call
-- or to an earlier one less than the cache's lifetime ago.
pub balance_at-AllFresh :
    (ttl : ℕ) (past asks : List Ask) (c : Cache) → Recorded past c → AllFresh ttl past asks c
unfolding AllFresh
balance_at-AllFresh ttl past [] c h = tt
balance_at-AllFresh ttl past ((now, queried) ∷ asks) c h =
    let (fresh, recorded) = one_answer ttl now queried past c h in
    (fresh, balance_at-AllFresh ttl ((now, queried) ∷ past) asks _ recorded)

-- A hash that Send returns has the form that the client of the faucet demands, where the chain's hash
-- is of 1 to 64 bytes.
pub hex-valid_tx_hash :
    (s : Bytes) → All IsByte s → 0 < length s → length s ≤ 64 → valid_tx_hash (hex s) ≡ true
unfolding hex valid_tx_hash has_prefix all_chars
hex-valid_tx_hash [] h some_byte few = absurd (omega arith)
hex-valid_tx_hash (c ∷ s) (byte, h) some_byte few =
    ground (arith, length-hex s, hex-all_chars s h, byte, few)
