-- ===== src/Faucet/Limiter/History.antt =====
-- Allow and Refund against the complete history of an address's grants, which the limiter prunes
-- and sweeps.
use gno_mcp.Prelude.{
  ℕ, ◌≤◌, ◌≡◌, ◌∙◌, sym, ap, inl, inr, Bytes, eqb, eqb→eq, List, [], ◌∷◌, ◌++◌, arith,
  if◌then◌else◌, All-append, Bool-cases,
}
use gno_mcp.Prelude.Int.{ℤ}
use gno_mcp.Prelude.Map.{Map, insert, IsMap, insert-IsMap}
use gno_mcp.Faucet.Limiter.{count_within, prune, prune_and_append, drop_last, hits, sweep}
use gno_mcp.Faucet.Limiter.Windows.{
  prune-prune, prune-append, count_within-prune, SortedFrom, AllAtMost, SortedFrom-append,
  prune-SortedFrom, prune-AllAtMost, drop_last-SortedFrom, drop_last-AllAtMost, AllAtMost-mono,
  prune-drop_last, hits-sweep, hits-insert, sweep-IsMap,
}

-- A list of kept hits and a complete list show the same hits in the window, at `t` and later.
pub record SameWindow (w : ℤ) (t : ℕ) (kept full : List ℕ) : Type 0 where
  pub same : prune kept t w ≡ prune full t w
  pub kept_sorted : SortedFrom 0 kept
  pub full_sorted : SortedFrom 0 full
  pub kept_past : AllAtMost t kept
  pub full_past : AllAtMost t full

module _ (w : ℤ) (t : ℕ) {kept full : List ℕ} (h : SameWindow w t kept full) where
  pub SameWindow-count : count_within kept t w ≡ count_within full t w
  SameWindow-count =
      sym (count_within-prune kept w t)
      ∙ ap (λ hs. count_within hs t w) h.same
      ∙ count_within-prune full w t

  SameWindow-mono : (u : ℕ) → t ≤ u → SameWindow w u kept full
  SameWindow-mono u le = record {
    same =
        sym (prune-prune kept w t u le)
        ∙ ap (λ hs. prune hs u w) h.same
        ∙ prune-prune full w t u le;
    kept_sorted = h.kept_sorted;
    full_sorted = h.full_sorted;
    kept_past = AllAtMost-mono t u kept le h.kept_past;
    full_past = AllAtMost-mono t u full le h.full_past;
  }

  SameWindow-prune : SameWindow w t (prune kept t w) full
  SameWindow-prune = record {
    same = prune-prune kept w t t (omega arith) ∙ h.same;
    kept_sorted = prune-SortedFrom 0 kept w t h.kept_sorted;
    full_sorted = h.full_sorted;
    kept_past = prune-AllAtMost t kept w t h.kept_past;
    full_past = h.full_past;
  }

  SameWindow-append : SameWindow w t (kept ++ (t ∷ [])) (full ++ (t ∷ []))
  SameWindow-append = record {
    same = rw (prune-append kept (t ∷ []) w t, prune-append full (t ∷ []) w t, h.same);
    kept_sorted = SortedFrom-append 0 t kept (omega arith) h.kept_sorted h.kept_past;
    full_sorted = SortedFrom-append 0 t full (omega arith) h.full_sorted h.full_past;
    kept_past = All-append _ kept (t ∷ []) h.kept_past (omega arith);
    full_past = All-append _ full (t ∷ []) h.full_past (omega arith);
  }

  SameWindow-drop_last : SameWindow w t (drop_last kept) (drop_last full)
  SameWindow-drop_last = record {
    same =
        prune-drop_last 0 kept w t h.kept_sorted
        ∙ ap drop_last h.same
        ∙ sym (prune-drop_last 0 full w t h.full_sorted);
    kept_sorted = drop_last-SortedFrom 0 kept h.kept_sorted;
    full_sorted = drop_last-SortedFrom 0 full h.full_sorted;
    kept_past = drop_last-AllAtMost t kept h.kept_past;
    full_past = drop_last-AllAtMost t full h.full_past;
  }

-- The hits that a map keeps for `a` show the same window as the complete history `past`.
pub record Tracks (a : Bytes) (w : ℤ) (t : ℕ) (m : Map (List ℕ)) (past : List ℕ) : Type 0 where
  pub window : SameWindow w t (hits a m) past
  pub is_map : IsMap m

module _ (a : Bytes) (w : ℤ) (t : ℕ) (m : Map (List ℕ)) (past : List ℕ)
    (h : Tracks a w t m past) where
  pub Tracks-mono : (u : ℕ) → t ≤ u → Tracks a w u m past
  Tracks-mono u le = record { window = SameWindow-mono w t h.window u le; is_map = h.is_map }

  pub Tracks-sweep : Tracks a w t (sweep w t m) past
  Tracks-sweep = record {
    window = rw (hits-sweep a m w t h.is_map) (SameWindow-prune w t h.window);
    is_map = sweep-IsMap m w t h.is_map;
  }

  Tracks-insert :
      (k : Bytes) (hs past' : List ℕ)
      → (k ≡ a → SameWindow w t hs past')
      → Tracks a w t (insert k hs m) (if eqb k a then past' else past)
  Tracks-insert k hs past' same = elim (Bool-cases (eqb k a)) [
    | inl e ↦ record {
      window = rw (hits-insert k a hs m, e) (same (eqb→eq k a e));
      is_map = insert-IsMap k hs m h.is_map;
    }
    | inr e ↦ record {
      window = rw (hits-insert k a hs m, e) h.window;
      is_map = insert-IsMap k hs m h.is_map;
    }
  ]

  -- the map behind a grant, and behind a refund
  pub Tracks-grant :
      (k : Bytes)
      → Tracks a w t
          (insert k (prune_and_append (hits k m) t w) m)
          (if eqb k a then past ++ (t ∷ []) else past)
  Tracks-grant k =
      Tracks-insert k (prune_and_append (hits k m) t w) (past ++ (t ∷ []))
        (λ e. rw e (SameWindow-append w t (SameWindow-prune w t h.window)))

  pub Tracks-refund :
      (k : Bytes)
      → Tracks a w t (insert k (drop_last (hits k m)) m) (if eqb k a then drop_last past else past)
  Tracks-refund k =
      Tracks-insert k (drop_last (hits k m)) (drop_last past)
        (λ e. rw e (SameWindow-drop_last w t h.window))
