-- ===== src/Session/Manager/Pick.antt =====
-- Which session pickSession gives, and when it gives none.
use gno_mcp.Prelude.{
  ℕ, ◌<◌, ◌≡◌, ◌↔◌, ◌⊎◌, inl, inr, refl, sym, Bytes, Bool, true, false, Option, none, some, ◌&&◌,
  List, [], ◌∷◌, ◌++◌, arith, Bool-cases,
}
use gno_mcp.Prelude.Int.{ℤ, pos, ltb_ℤ, ◌<ℤ◌, ◌≤ℤ◌}
use gno_mcp.Prelude.Result.{ok, err}
use gno_mcp.Session.Coins.{parse_coins}
use gno_mcp.Session.Manager.{
  State, pending, active, expired, revoked, is_active, is_zero_spend, zero_mag, SessionMeta,
  SessionState, QueryAnswer, is_usable, promote_all, available_paths, candidates, newest, picked,
  pick_session, Sessions, no_active_session,
}

-- A session of the map that may sign: active, not past its expiry where it has one, with something
-- left where it has a budget, and matching.
pub record MaySign (matches : SessionMeta → Bool) (now : ℤ) (ss : SessionState) : Type 0 where
  pub is_running : ss.state ≡ active
  pub in_time : pos 0 <ℤ ss.meta.expires_at → now ≤ℤ ss.meta.expires_at
  pub has_budget :
      (n : ℕ) (denom : Bytes) → parse_coins ss.meta.spend_remaining ≡ some (n, denom) → 0 < n
  pub fits : matches ss.meta ≡ true

is_active-true : (s : State) → is_active s ≡ true → s ≡ active
is_active-true active h = refl
is_active-true pending h = absurd (ground arith)
is_active-true expired h = absurd (ground arith)
is_active-true revoked h = absurd (ground arith)

parse_coins-nil : parse_coins [] ≡ none
unfolding parse_coins
parse_coins-nil = refl

is_zero_spend-false :
    (coin : Bytes) (n : ℕ) (denom : Bytes)
    → is_zero_spend coin ≡ false
    → parse_coins coin ≡ some (n, denom)
    → 0 < n
unfolding is_zero_spend
is_zero_spend-false [] n denom h e = absurd (ground (arith, e, parse_coins-nil))
is_zero_spend-false (c ∷ s) n denom h e = ground (arith, h, e)

zero_mag-false :
    (o : Option (ℕ × Bytes))
    → ((n : ℕ) (denom : Bytes) → o ≡ some (n, denom) → 0 < n)
    → zero_mag o ≡ false
zero_mag-false none h = refl
zero_mag-false (some (n, denom)) h = ground (arith, h n denom refl)

MaySign-usable :
    (matches : SessionMeta → Bool) (now : ℤ) (ss : SessionState)
    → MaySign matches now ss
    → is_usable now ss ≡ true
unfolding is_usable is_zero_spend
MaySign-usable matches now ss may = ground (
  arith,
  may.is_running,
  may.in_time,
  zero_mag-false (parse_coins ss.meta.spend_remaining) may.has_budget,
)

usable-MaySign :
    (matches : SessionMeta → Bool) (now : ℤ) (ss : SessionState)
    → is_usable now ss ≡ true
    → matches ss.meta ≡ true
    → MaySign matches now ss
unfolding is_usable
usable-MaySign matches now ss usable fits = record {
  is_running = is_active-true ss.state (ground arith);
  in_time = λ h. ground (arith, h, usable);
  has_budget =
      λ n denom e. is_zero_spend-false ss.meta.spend_remaining n denom (ground (arith, usable)) e;
  fits = fits;
}

-- The meta is the one of a session of the map that may sign.
pub data Offered (matches : SessionMeta → Bool) (now : ℤ) (meta : SessionMeta)
    : Sessions → Type 0 where
  first :
      {addr : Bytes} {ss : SessionState} {m : Sessions}
      → MaySign matches now ss
      → ss.meta ≡ meta
      → Offered matches now meta ((addr, ss) ∷ m)
  later :
      {entry : Bytes × SessionState} {m : Sessions}
      → Offered matches now meta m
      → Offered matches now meta (entry ∷ m)

data Among (meta : SessionMeta) : List SessionMeta → Type 0 where
  here : {xs : List SessionMeta} → Among meta (meta ∷ xs)
  there : {x : SessionMeta} {xs : List SessionMeta} → Among meta xs → Among meta (x ∷ xs)

newest-Among : (best : SessionMeta) (xs : List SessionMeta) → Among (newest best xs) (best ∷ xs)
unfolding newest
newest-Among best [] = here
newest-Among best (x ∷ xs) = elim (Bool-cases (ltb_ℤ best.created_at x.created_at)) [
  | inl e ↦ rw e (there (newest-Among x xs))
  | inr e ↦ rw e (skip (newest-Among best xs))
]
  where
    skip : {y : SessionMeta} → Among y (best ∷ xs) → Among y (best ∷ x ∷ xs)
    skip here = here
    skip (there h) = there (there h)

abbrev NotNewer : SessionMeta → SessionMeta → Type 0
NotNewer y x = x.created_at ≤ℤ y.created_at

newest-ge : (best : SessionMeta) (xs : List SessionMeta) → NotNewer (newest best xs) best
unfolding newest
newest-ge best [] = omega arith
newest-ge best (x ∷ xs) = ground (arith, newest-ge x xs, newest-ge best xs)

newest-top :
    (best y : SessionMeta) (xs : List SessionMeta) → Among y xs → NotNewer (newest best xs) y
unfolding newest
newest-top best y (x ∷ xs) here = ground (arith, newest-ge y xs, newest-ge best xs)
newest-top best y (x ∷ xs) (there h) = ground (arith, newest-top x y xs h, newest-top best y xs h)
newest-top best y [] h = elim h [ ]

newest-max :
    (best y : SessionMeta) (xs : List SessionMeta)
    → Among y (best ∷ xs)
    → NotNewer (newest best xs) y
newest-max best y xs here = newest-ge y xs
newest-max best y xs (there h) = newest-top best y xs h

Among-cases :
    {meta x : SessionMeta} {xs : List SessionMeta}
    → Among meta (x ∷ xs)
    → (x ≡ meta) ⊎ Among meta xs
Among-cases here = inl refl
Among-cases (there h) = inr h

module _ (matches : SessionMeta → Bool) (now : ℤ) where
  candidates-Offered :
      (meta : SessionMeta) (m : Sessions)
      → Among meta (candidates matches now m)
      → Offered matches now meta m
  unfolding candidates
  candidates-Offered meta [] h = elim h [ ]
  candidates-Offered meta ((addr, ss) ∷ m) h =
      elim (Bool-cases (is_usable now ss && matches ss.meta)) [
        | inl e ↦
            split (usable-MaySign matches now ss (ground arith) (ground arith))
              (Among-cases (rw e at h)) (candidates-Offered meta m)
        | inr e ↦ later (candidates-Offered meta m (rw e at h))
      ]
    where
      split :
          MaySign matches now ss
          → (ss.meta ≡ meta) ⊎ Among meta (candidates matches now m)
          → (Among meta (candidates matches now m) → Offered matches now meta m)
          → Offered matches now meta ((addr, ss) ∷ m)
      split may (inl same) rest = first may same
      split may (inr k) rest = later (rest k)

  Offered-candidates :
      (meta : SessionMeta) (m : Sessions)
      → Offered matches now meta m
      → Among meta (candidates matches now m)
  unfolding candidates
  Offered-candidates meta [] h = elim h [ ]
  Offered-candidates meta ((addr, ss) ∷ m) (first may same) =
      rw (MaySign-usable matches now ss may, may.fits, same) here
  Offered-candidates meta ((addr, ss) ∷ m) (later h) =
      elim (Bool-cases (is_usable now ss && matches ss.meta)) [
        | inl e ↦ rw e (there (Offered-candidates meta m h))
        | inr e ↦ rw e (Offered-candidates meta m h)
      ]

  picked-ok :
      (xs : List SessionMeta) (paths : List Bytes) (meta : SessionMeta)
      → picked xs paths ≡ ok meta
      → Among meta xs × ((other : SessionMeta) → Among other xs → NotNewer meta other)
  unfolding picked
  picked-ok [] [] meta h = absurd (cc)
  picked-ok [] (p ∷ paths) meta h = absurd (cc)
  picked-ok (x ∷ xs) paths meta h =
      let same : newest x xs ≡ meta = ground arith in
      rw (sym same) (newest-Among x xs, λ other k. newest-max x other xs k)

  picked-some :
      (xs : List SessionMeta) (paths : List Bytes) (meta : SessionMeta)
      → Among meta xs
      → (best : SessionMeta) × (picked xs paths ≡ ok best)
  unfolding picked
  picked-some [] paths meta h = elim h [ ]
  picked-some (x ∷ xs) paths meta h = (newest x xs, refl)

  -- The session that pickSession gives may sign: behind the promotion of the pending sessions it is
  -- active, not past its expiry where it has one, with something left where its budget is an amount,
  -- and it matches what was asked for; and no other such session was created later.
  pub pick_session-best :
      (ask : Bytes → Bytes → QueryAnswer) (m : Sessions) (meta : SessionMeta)
      → (pick_session matches ask now m).0 ≡ ok meta
      → Offered matches now meta (promote_all ask m)
        × ((other : SessionMeta)
            → Offered matches now other (promote_all ask m)
            → other.created_at ≤ℤ meta.created_at)
  unfolding pick_session
  pick_session-best ask m meta h =
      let m' = promote_all ask m in
      let (among, top) = picked-ok (candidates matches now m') (available_paths now m') meta h in
      (candidates-Offered meta m' among, λ other k. top other (Offered-candidates other m' k))

  -- Where some session may sign behind the promotion of the pending ones, pickSession gives one.
  pub pick_session-some :
      (ask : Bytes → Bytes → QueryAnswer) (m : Sessions) (meta : SessionMeta)
      → Offered matches now meta (promote_all ask m)
      → (best : SessionMeta) × ((pick_session matches ask now m).0 ≡ ok best)
  unfolding pick_session
  pick_session-some ask m meta h =
      let m' = promote_all ask m in
      picked-some (candidates matches now m') (available_paths now m') meta
        (Offered-candidates meta m' h)

  -- A session that is usable, whether or not it matches, has no paths.
  abbrev pub NoPaths : Sessions → Type 0
  NoPaths [] = Unit
  NoPaths ((addr, ss) ∷ m) = (is_usable now ss ≡ true → ss.meta.allow_paths ≡ []) × NoPaths m

  append-nil_left : (xs ys : List Bytes) → xs ++ ys ≡ [] → (xs ≡ []) × (ys ≡ [])
  append-nil_left [] ys h = (refl, h)
  append-nil_left (x ∷ xs) ys h = absurd (cc)

  available_paths-nil : (m : Sessions) → available_paths now m ≡ [] → NoPaths m
  unfolding available_paths
  available_paths-nil [] h = tt
  available_paths-nil ((addr, ss) ∷ m) h = elim (Bool-cases (is_usable now ss)) [
    | inl e ↦
        let (own, rest) = append-nil_left ss.meta.allow_paths (available_paths now m) (rw e at h) in
        (λ k. own, available_paths-nil m rest)
    | inr e ↦ (λ k. absurd (ground arith), available_paths-nil m (rw e at h))
  ]

  NoPaths-available_paths : (m : Sessions) → NoPaths m → available_paths now m ≡ []
  unfolding available_paths
  NoPaths-available_paths [] h = refl
  NoPaths-available_paths ((addr, ss) ∷ m) (own, h) =
      ground (arith, own, NoPaths-available_paths m h)

  picked-no_active :
      (xs : List SessionMeta) (paths : List Bytes)
      → (picked xs paths ≡ err no_active_session) ↔ (xs ≡ []) × (paths ≡ [])
  unfolding picked
  picked-no_active [] [] = (λ h. (refl, refl), λ h. refl)
  picked-no_active [] (p ∷ paths) = (λ h. absurd (cc), λ h. absurd (cc))
  picked-no_active (x ∷ xs) paths = (λ h. absurd (cc), λ h. absurd (cc))

  empty-candidates :
      (m : Sessions)
      → ((meta : SessionMeta) → ¬ Offered matches now meta m)
      → candidates matches now m ≡ []
  empty-candidates m h =
      go (candidates matches now m) (λ meta k. h meta (candidates-Offered meta m k))
    where
      go : (xs : List SessionMeta) → ((meta : SessionMeta) → ¬ Among meta xs) → xs ≡ []
      go [] k = refl
      go (x ∷ xs) k = absurd (k x here)

  -- Where no session may sign, pickSession answers `no active session` exactly when no usable session
  -- has a path. A usable session that holds no path, such as one that may only run scripts, is
  -- therefore not reported as a scope mismatch.
  pub pick_session-no_active :
      (ask : Bytes → Bytes → QueryAnswer) (m : Sessions)
      → ((meta : SessionMeta) → ¬ Offered matches now meta (promote_all ask m))
      → ((pick_session matches ask now m).0 ≡ err no_active_session) ↔ NoPaths (promote_all ask m)
  unfolding pick_session
  pick_session-no_active ask m none_signs =
      let m' = promote_all ask m in
      let none_left = empty-candidates m' none_signs in
      let decided = picked-no_active (candidates matches now m') (available_paths now m') in
      (
        λ h. available_paths-nil m' (decided.0 h).1,
        λ h. decided.1 (none_left, NoPaths-available_paths m' h),
      )
