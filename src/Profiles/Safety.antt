-- ===== src/Profiles/Safety.antt =====
-- What an effective configuration guarantees: which file decides a profile, and that every field
-- that is pasted into a shell command is free of shell syntax.
use gno_mcp.Prelude.{
  ◌≡◌, refl, sym, ◌∙◌, ap, Bytes, eqb, eqb_iff, is_empty, Bool, true, false, Option, none, some, [],
  ◌∷◌, arith, all_chars, inl, inr, Bool-cases,
}
use gno_mcp.Prelude.Int.{ℤ}
use gno_mcp.Prelude.Map.{Map, IsMap, lookup, insert, lookup-insert}
use gno_mcp.Prelude.Result.{Result, ok, err, ◌>>◌, bind-ok}
use gno_mcp.Profiles.Formats.{is_lower_alnum, begins_in, chain_id_valid}
use gno_mcp.Profiles.Profile.{Profile, is_read_only}
use gno_mcp.Profiles.Config.{
  validate, validate_all, validate_profile, validate_faucet, merge, builtin_profiles, Source, unset,
  missing, broken, loaded, layer, load_resolved, checked, Refusal, ConfigError, named,
}
use gno_mcp.Profiles.Shell.{is_shell_safe, valid_rpc_url-safe, chain_id_valid-safe}

-- What Validate guarantees of a profile: the two fields that are pasted into shell commands hold
-- nothing that a shell reads as syntax, the chain-id does not look like a flag, and a read-only
-- chain has no master address and no faucet.
pub record IsSafe (p : Profile) : Type 0 where
  pub rpc_url_safe : all_chars is_shell_safe p.rpc_url ≡ true
  pub chain_id_safe : all_chars is_shell_safe p.chain_id ≡ true
  pub chain_id_begins : begins_in is_lower_alnum p.chain_id ≡ true
  pub no_master : is_read_only p ≡ true → is_empty p.master_address ≡ true
  pub no_faucet : is_read_only p ≡ true → is_empty p.faucet_url ≡ true
  pub no_faucet_service : is_read_only p ≡ true → is_empty p.faucet_service_url ≡ true

named_ok :
    (name : Bytes) (r : Result Refusal (Unit {0})) (rest : Result ConfigError (Unit {0}))
    → (named name r >> rest) ≡ ok tt
    → (r ≡ ok tt) × (rest ≡ ok tt)
named_ok name (ok u) rest h = (refl, h)
named_ok name (err e) rest h = absurd (ground arith)

checked_ok :
    (m m' : Map Profile) (r : Result ConfigError (Unit {0}))
    → checked m r ≡ ok m'
    → (r ≡ ok tt) × (m ≡ m')
checked_ok m m' (ok u) h = (refl, ground arith)
checked_ok m m' (err e) h = absurd (ground arith)

-- What a file says of a name, where it was read.
abbrev pub entry : Bytes → Source → Option Profile
entry name (loaded m) = lookup name m
entry name unset = none
entry name missing = none
entry name broken = none

-- The map of a file that was read has every name once, as Go's maps do.
abbrev pub IsSource : Source → Type 0
IsSource (loaded m) = IsMap m
IsSource unset = Unit
IsSource missing = Unit
IsSource broken = Unit

abbrev pub or_else : Option Profile → Option Profile → Option Profile
or_else (some p) q = some p
or_else none q = q

lookup-merge :
    (name : Bytes) (base overlay : Map Profile)
    → IsMap overlay
    → lookup name (merge base overlay) ≡ or_else (lookup name overlay) (lookup name base)
unfolding merge lookup
lookup-merge name base [] h = refl
lookup-merge name base ((j, p) ∷ overlay) (e, h) = ground (
  arith,
  lookup-merge name (insert j p base) overlay h,
  lookup-insert j name p base,
  eqb_iff j name,
)

layer-entry :
    (s : Source) (required : Bool) (name : Bytes) (m m' : Map Profile)
    → IsSource s
    → layer s required m ≡ ok m'
    → lookup name m' ≡ or_else (entry name s) (lookup name m)
unfolding layer
layer-entry unset required name m m' src h = ground arith
layer-entry missing required name m m' src h = ground arith
layer-entry broken required name m m' src h = absurd (ground arith)
layer-entry (loaded overlay) required name m m' src h =
    ground (arith, lookup-merge name m overlay src)

module _ (parse_duration : Bytes → Option ℤ) (is_address is_http_url : Bytes → Bool) where
  validate_profile-IsSafe :
      (p : Profile) → validate_profile parse_duration is_address is_http_url p ≡ ok tt → IsSafe p
  unfolding validate_profile validate_faucet chain_id_valid is_read_only
  validate_profile-IsSafe p h = record {
    rpc_url_safe = valid_rpc_url-safe p.rpc_url (ground arith);
    chain_id_safe = chain_id_valid-safe p.chain_id (ground arith);
    chain_id_begins = ground arith;
    no_master = λ k. ground arith;
    no_faucet = λ k. ground arith;
    no_faucet_service = λ k. ground arith;
  }

  validate_all-IsSafe :
      (m : Map Profile) (name : Bytes) (p : Profile)
      → validate_all parse_duration is_address is_http_url m ≡ ok tt
      → lookup name m ≡ some p
      → IsSafe p
  unfolding validate_all lookup
  validate_all-IsSafe [] name p h k = absurd (ground arith)
  validate_all-IsSafe ((j, q) ∷ m) name p h k =
      let (valid, rest) =
        named_ok j (validate_profile parse_duration is_address is_http_url q) _ h in
      elim (Bool-cases (eqb j name)) [
        | inl e ↦ let same : q ≡ p = ground arith in rw (sym same) (validate_profile-IsSafe q valid)
        | inr e ↦ validate_all-IsSafe m name p rest (ground arith)
      ]

  validate-IsSafe :
      (m : Map Profile) (name : Bytes) (p : Profile)
      → validate parse_duration is_address is_http_url m ≡ ok tt
      → lookup name m ≡ some p
      → IsSafe p
  unfolding validate
  validate-IsSafe [] name p h k = absurd (ground arith)
  validate-IsSafe ((j, q) ∷ m) name p h k = validate_all-IsSafe ((j, q) ∷ m) name p h k

  -- The layers of a configuration that loads.
  record Layers (g s e : Source) (m : Map Profile) : Type 0 where
    first : Map Profile
    second : Map Profile
    of_global : layer g false builtin_profiles ≡ ok first
    of_project : layer s false first ≡ ok second
    of_explicit : layer e true second ≡ ok m
    valid : validate parse_duration is_address is_http_url m ≡ ok tt

  load_resolved-Layers :
      (g s e : Source) (m : Map Profile)
      → load_resolved parse_duration is_address is_http_url g s e ≡ ok m
      → Layers g s e m
  unfolding load_resolved
  load_resolved-Layers g s e m h =
      let (first, eg, h1) = bind-ok (layer g false builtin_profiles) _ h in
      let (second, es, h2) = bind-ok (layer s false first) _ h1 in
      let (third, ee, h3) = bind-ok (layer e true second) _ h2 in
      let (v, same) =
        checked_ok third m (validate parse_duration is_address is_http_url third) h3 in
      record {
        first = first;
        second = second;
        of_global = eg;
        of_project = es;
        of_explicit = ee ∙ ap ok same;
        valid = rw same at v;
      }

  -- A profile of a configuration that loads is safe to paste into a shell command: its rpc-url and
  -- its chain-id hold letters, digits and `.`, `_`, `-`, `/`, `:` only, the chain-id begins with a
  -- letter or a digit, and a profile of a read-only chain has no master address and no faucet.
  pub load_resolved-IsSafe :
      (g s e : Source) (m : Map Profile) (name : Bytes) (p : Profile)
      → load_resolved parse_duration is_address is_http_url g s e ≡ ok m
      → lookup name m ≡ some p
      → IsSafe p
  load_resolved-IsSafe g s e m name p h k =
      validate-IsSafe m name p (load_resolved-Layers g s e m h).valid k

  -- In a configuration that loads, a name's profile is wholly the one of the explicit file, else of
  -- the project's, else of the global file, else the built-in one.
  pub load_resolved-lookup :
      (g s e : Source) (m : Map Profile) (name : Bytes)
      → IsSource g
      → IsSource s
      → IsSource e
      → load_resolved parse_duration is_address is_http_url g s e ≡ ok m
      → lookup name m
        ≡ or_else
            (entry name e)
            (or_else (entry name s) (or_else (entry name g) (lookup name builtin_profiles)))
  load_resolved-lookup g s e m name hg hs he h =
      let l = load_resolved-Layers g s e m h in
      rw
        (
          layer-entry e true name l.second m he l.of_explicit,
          layer-entry s false name l.first l.second hs l.of_project,
          layer-entry g false name builtin_profiles l.first hg l.of_global,
        )
        refl
