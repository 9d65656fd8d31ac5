-- ===== src/Faucet/Limiter/Windows.antt =====
-- Lists of hits: what pruning, sweeping and dropping the last hit do to a window's count.
use gno_mcp.Prelude.{
  ℕ, ◌≤◌, ◌≡◌, refl, Bytes, eqb, eqb_iff, true, false, none, List, [], ◌∷◌, ◌++◌, arith, inl, inr,
  Bool-cases, if◌then◌else◌, All,
}
use gno_mcp.Prelude.Int.{ℤ, ◌-ℤ◌}
use gno_mcp.Prelude.Map.{Map, lookup, insert, lookup-insert, lookup-none, IsMap}
use gno_mcp.Faucet.Limiter.{in_window, count_within, prune, drop_last, hits, sweep}

-- A window only moves forward: what is in it later, is in it now.
in_window_mono :
    (w : ℤ) (now t h : ℕ) → now ≤ t → in_window w now h ≡ false → in_window w t h ≡ false
unfolding ◌-ℤ◌
in_window_mono w now t h le e = ground arith

-- A newer hit stays in the window for longer.
in_window_newer :
    (w : ℤ) (now h k : ℕ) → h ≤ k → in_window w now k ≡ false → in_window w now h ≡ false
unfolding ◌-ℤ◌
in_window_newer w now h k le e = ground arith

pub prune-prune :
    (hs : List ℕ) (w : ℤ) (now t : ℕ) → now ≤ t → prune (prune hs now w) t w ≡ prune hs t w
unfolding prune
prune-prune [] w now t le = refl
prune-prune (h ∷ hs) w now t le =
    ground (arith, in_window_mono w now t h le, prune-prune hs w now t le)

pub prune-append :
    (hs ks : List ℕ) (w : ℤ) (now : ℕ) → prune (hs ++ ks) now w ≡ prune hs now w ++ prune ks now w
unfolding prune
prune-append [] ks w now = refl
prune-append (h ∷ hs) ks w now = ground (arith, prune-append hs ks w now)

prune-cons :
    (h : ℕ) (hs : List ℕ) (w : ℤ) (now : ℕ)
    → prune (h ∷ hs) now w ≡ (if in_window w now h then h ∷ prune hs now w else prune hs now w)
unfolding prune
prune-cons h hs w now = refl

-- A window's count is a function of what pruning leaves.
pub count_within-prune :
    (hs : List ℕ) (w : ℤ) (now : ℕ) → count_within (prune hs now w) now w ≡ count_within hs now w
unfolding prune count_within
count_within-prune [] w now = refl
count_within-prune (h ∷ hs) w now = ground (arith, count_within-prune hs w now)

-- The hits stand in the order in which they were recorded, none before `lo`.
abbrev pub SortedFrom : ℕ → List ℕ → Type 0
SortedFrom lo [] = Unit
SortedFrom lo (h ∷ hs) = (lo ≤ h) × SortedFrom h hs

abbrev pub AllAtMost : ℕ → List ℕ → Type 0
AllAtMost t = All (λ h. h ≤ t)

pub SortedFrom-append :
    (lo t : ℕ) (hs : List ℕ)
    → lo ≤ t
    → SortedFrom lo hs
    → AllAtMost t hs
    → SortedFrom lo (hs ++ (t ∷ []))
SortedFrom-append lo t [] le s a = (le, tt)
SortedFrom-append lo t (h ∷ hs) le (p, s) (q, a) = (p, SortedFrom-append h t hs q s a)

pub SortedFrom-weaken : (lo h : ℕ) (hs : List ℕ) → lo ≤ h → SortedFrom h hs → SortedFrom lo hs
SortedFrom-weaken lo h [] le s = tt
SortedFrom-weaken lo h (k ∷ hs) le (p, s) = (omega arith, s)

pub prune-SortedFrom :
    (lo : ℕ) (hs : List ℕ) (w : ℤ) (now : ℕ) → SortedFrom lo hs → SortedFrom lo (prune hs now w)
unfolding prune
prune-SortedFrom lo [] w now s = tt
prune-SortedFrom lo (h ∷ hs) w now (p, s) =
    ground (arith, prune-SortedFrom h hs w now s, SortedFrom-weaken lo h (prune hs now w) p)

pub prune-AllAtMost :
    (t : ℕ) (hs : List ℕ) (w : ℤ) (now : ℕ) → AllAtMost t hs → AllAtMost t (prune hs now w)
unfolding prune
prune-AllAtMost t [] w now s = tt
prune-AllAtMost t (h ∷ hs) w now (p, s) = ground (arith, prune-AllAtMost t hs w now s)

pub drop_last-SortedFrom : (lo : ℕ) (hs : List ℕ) → SortedFrom lo hs → SortedFrom lo (drop_last hs)
unfolding drop_last
drop_last-SortedFrom lo [] s = tt
drop_last-SortedFrom lo (h ∷ []) s = tt
drop_last-SortedFrom lo (h ∷ k ∷ hs) (p, s) = (p, drop_last-SortedFrom h (k ∷ hs) s)

pub drop_last-AllAtMost : (t : ℕ) (hs : List ℕ) → AllAtMost t hs → AllAtMost t (drop_last hs)
unfolding drop_last
drop_last-AllAtMost t [] s = tt
drop_last-AllAtMost t (h ∷ []) s = tt
drop_last-AllAtMost t (h ∷ k ∷ hs) (p, s) = (p, drop_last-AllAtMost t (k ∷ hs) s)

pub AllAtMost-mono : (t u : ℕ) (hs : List ℕ) → t ≤ u → AllAtMost t hs → AllAtMost u hs
AllAtMost-mono t u [] le a = tt
AllAtMost-mono t u (h ∷ hs) le (p, a) = (omega arith, AllAtMost-mono t u hs le a)

in_window_keeps :
    (w : ℤ) (now h k : ℕ) → in_window w now h ≡ true → h ≤ k → in_window w now k ≡ true
unfolding ◌-ℤ◌
in_window_keeps w now h k e le = ground arith

-- Behind a hit in the window, all hits are in the window.
prune_all :
    (h : ℕ) (hs : List ℕ) (w : ℤ) (now : ℕ)
    → in_window w now h ≡ true
    → SortedFrom h hs
    → prune hs now w ≡ hs
unfolding prune
prune_all h [] w now e s = refl
prune_all h (k ∷ hs) w now e (p, s) =
    let e' = in_window_keeps w now h k e p in ground (arith, e', prune_all k hs w now e' s)

prune-drop_last_in :
    (h k : ℕ) (hs : List ℕ) (w : ℤ) (now : ℕ)
    → in_window w now h ≡ true
    → SortedFrom h (k ∷ hs)
    → prune (drop_last (k ∷ hs)) now w ≡ drop_last (prune (k ∷ hs) now w)
    → prune (h ∷ drop_last (k ∷ hs)) now w ≡ drop_last (prune (h ∷ k ∷ hs) now w)
prune-drop_last_in h k hs w now e s ih =
    let all = prune_all h (k ∷ hs) w now e s in
    rw (prune-cons h (drop_last (k ∷ hs)) w now, prune-cons h (k ∷ hs) w now, e, ih, all)
      (unfold drop_last in refl)

-- Dropping the newest hit and pruning commute, since a pruned hit is older than any that is kept.
pub prune-drop_last :
    (lo : ℕ) (hs : List ℕ) (w : ℤ) (now : ℕ)
    → SortedFrom lo hs
    → prune (drop_last hs) now w ≡ drop_last (prune hs now w)
unfolding prune drop_last
prune-drop_last lo [] w now s = refl
prune-drop_last lo (h ∷ []) w now s = ground arith
prune-drop_last lo (h ∷ k ∷ hs) w now (p, (q, s)) = elim (Bool-cases (in_window w now h)) [
  | inl e ↦ prune-drop_last_in h k hs w now e (q, s) (prune-drop_last h (k ∷ hs) w now (q, s))
  | inr e ↦ rw e (prune-drop_last h (k ∷ hs) w now (q, s))
]

-- What one round of the sweep leaves of an entry.
hits-kept :
    (k j : Bytes) (kept : List ℕ) (rest : Map (List ℕ))
    → let m : Map (List ℕ) = elim kept [ [] ↦ rest | h ∷ hs ↦ (j, h ∷ hs) ∷ rest ] in
      hits k m
      ≡ (if eqb j k then (elim kept [ [] ↦ hits k rest | h ∷ hs ↦ h ∷ hs ]) else hits k rest)
unfolding lookup
hits-kept k j [] rest = ground arith
hits-kept k j (h ∷ hs) rest = ground arith

-- Sweeping a map prunes the hits of every key.
pub hits-sweep :
    (k : Bytes) (m : Map (List ℕ)) (w : ℤ) (now : ℕ)
    → IsMap m
    → hits k (sweep w now m) ≡ prune (hits k m) now w
unfolding sweep lookup prune
hits-sweep k [] w now h = refl
hits-sweep k ((j, hs) ∷ m) w now (e, h) =
    ground
      (arith, hits-kept k j (prune hs now w) (sweep w now m), hits-sweep k m w now h, eqb_iff j k)

lookup-kept :
    (k j : Bytes) (kept : List ℕ) (rest : Map (List ℕ))
    → lookup k rest ≡ none
    → eqb j k ≡ false
    → let m : Map (List ℕ) = elim kept [ [] ↦ rest | h ∷ hs ↦ (j, h ∷ hs) ∷ rest ] in
      lookup k m ≡ none
unfolding lookup
lookup-kept k j [] rest e ne = e
lookup-kept k j (h ∷ hs) rest e ne = ground arith

lookup-sweep :
    (k : Bytes) (m : Map (List ℕ)) (w : ℤ) (now : ℕ)
    → lookup k m ≡ none
    → lookup k (sweep w now m) ≡ none
unfolding sweep
lookup-sweep k [] w now e = e
lookup-sweep k ((j, hs) ∷ m) w now e =
    let (other, e') = lookup-none k j hs m e in
    lookup-kept k j (prune hs now w) (sweep w now m) (lookup-sweep k m w now e') other

IsMap-kept :
    (j : Bytes) (kept : List ℕ) (rest : Map (List ℕ))
    → lookup j rest ≡ none
    → IsMap rest
    → let m : Map (List ℕ) = elim kept [ [] ↦ rest | h ∷ hs ↦ (j, h ∷ hs) ∷ rest ] in IsMap m
IsMap-kept j [] rest e h = h
IsMap-kept j (k ∷ ks) rest e h = (e, h)

pub sweep-IsMap : (m : Map (List ℕ)) (w : ℤ) (now : ℕ) → IsMap m → IsMap (sweep w now m)
unfolding sweep
sweep-IsMap [] w now h = tt
sweep-IsMap ((j, hs) ∷ m) w now (e, h) =
    IsMap-kept j (prune hs now w) (sweep w now m) (lookup-sweep j m w now e) (sweep-IsMap m w now h)

pub hits-insert :
    (k j : Bytes) (hs : List ℕ) (m : Map (List ℕ))
    → hits j (insert k hs m) ≡ (if eqb k j then hs else hits j m)
hits-insert k j hs m = ground (arith, lookup-insert k j hs m)
