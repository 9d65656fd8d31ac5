-- ===== src/Tools/Propose/Reads.antt =====
-- What the arguments of session_propose come to.
use gno_mcp.Prelude.{
  ◌≡◌, ◌≢◌, refl, subst, Bytes, codes, is_empty, Bool, true, false, not, Option, none, some, [],
  ◌∷◌, All, arith,
}
use gno_mcp.Prelude.Map.{Map, lookup}
use gno_mcp.Prelude.Result.{Result, ok, err, guard, ◌>>◌, bind-elim}
use gno_mcp.Profiles.Profile.{Profile, is_read_only}
use gno_mcp.Server.Args.{Args, ArgError, string_arg, bool_arg, string_slice_arg}
use gno_mcp.Session.Scope.{ScopeArgs}
use gno_mcp.Tools.Propose.{
  ProposeError, require_profile, has_blank, chosen_master, eligible_profile, scope_arguments,
  validate_user_master_address, of_arg, of_scope, found_or,
}

pub not-true : (b : Bool) (e : ProposeError) {u : Unit {0}} → guard (not b) e ≡ ok u → b ≡ false
not-true true e h = absurd (ground arith)
not-true false e h = refl

pub ok-inj {ℓ} : {A : Type ℓ} {a b : A} → ◌≡◌ {A = Result ProposeError A} (ok a) (ok b) → a ≡ b
ok-inj h = ground (arith, h)

pub found_or-some {ℓ} :
    {A : Type ℓ} (o : Option A) (e : ProposeError) {a : A} → found_or o e ≡ ok a → o ≡ some a
found_or-some none e h = absurd (ground arith)
found_or-some (some b) e h = ground arith

pub of_scope-ok {ℓ} : {A : Type ℓ} (r : Result _ A) {a : A} → of_scope r ≡ ok a → r ≡ ok a
of_scope-ok (ok b) h = ground arith
of_scope-ok (err e) h = absurd (ground arith)

of_arg-ok {ℓ} : {A : Type ℓ} (r : Result ArgError A) {a : A} → of_arg r ≡ ok a → r ≡ ok a
of_arg-ok (ok b) h = ground arith
of_arg-ok (err e) h = absurd (ground arith)

-- no space, tab, carriage return or line feed
abbrev pub NoBlank : Bytes → Type 0
NoBlank s = All (λ c. (c ≢ 32) × (c ≢ 9) × (c ≢ 13) × (c ≢ 10)) s

has_blank-NoBlank : (s : Bytes) → has_blank s ≡ false → NoBlank s
unfolding has_blank
has_blank-NoBlank [] h = tt
has_blank-NoBlank (c ∷ s) h = (
  (ground (arith, h), ground (arith, h), ground (arith, h), ground (arith, h)),
  has_blank-NoBlank s (ground (arith, h)),
)

-- The account that a session acts for: the profile's own, or the public address that the user names.
pub record IsMaster (is_address : Bytes → Bool) (p : Profile) (user master : Bytes) : Type 0 where
  pub known : is_empty master ≡ false
  pub of_profile : is_empty user ≡ true → master ≡ p.master_address
  pub of_user : is_empty user ≡ false → (master ≡ user) × NoBlank user × (is_address user ≡ true)

pub chosen_master-IsMaster :
    (is_address : Bytes → Bool) (p : Profile) (user master : Bytes)
    → chosen_master is_address p user ≡ ok master
    → IsMaster is_address p user master
unfolding chosen_master validate_user_master_address
chosen_master-IsMaster is_address p user master h = record {
  known = ground (arith, h);
  of_profile = λ e. ground (arith, h, e);
  of_user = λ e.
      (ground (arith, h, e), has_blank-NoBlank user (ground (arith, h, e)), ground (arith, h, e));
}

-- The profile that a handler goes on with is the one that the configuration has under the name in the
-- arguments.
pub require_profile-named :
    (config : Map Profile) (args : Args) (name : Bytes) (p : Profile)
    → require_profile config args ≡ ok (name, p)
    → (string_arg args (codes "profile") ≡ ok name) × (lookup name config ≡ some p)
unfolding require_profile
require_profile-named config args name p h =
    bind-elim _ (of_arg (string_arg args (codes "profile"))) _ h λ name2 e2 h3.
      bind-elim _ (guard (not (is_empty name2)) _ >> found_or (lookup name2 config) _) _ h3
        λ p2 e3 h4. bind-elim _ (guard (not (is_empty name2)) _) _ e3 λ u' e4 e5.
          subst
            (λ (q : Bytes × Profile).
              (string_arg args (codes "profile") ≡ ok q.0) × (lookup q.0 config ≡ some q.1))
            (ok-inj h4)
            (
              of_arg-ok (string_arg args (codes "profile")) e2,
              found_or-some (lookup name2 config) _ e5,
            )

pub eligible_profile-writable :
    (config : Map Profile) (args : Args) (name : Bytes) (p : Profile)
    → eligible_profile config args ≡ ok (name, p)
    → (string_arg args (codes "profile") ≡ ok name)
      × (lookup name config ≡ some p)
      × (is_read_only p ≡ false)
unfolding eligible_profile
eligible_profile-writable config args name p h =
    bind-elim _ (require_profile config args) _ h λ (name', p') e h1.
      bind-elim _ (guard (not (is_read_only p')) _) _ h1 λ u e1 h2.
        let (named, configured) = require_profile-named config args name' p' e in
        subst
          (λ (q : Bytes × Profile).
            (string_arg args (codes "profile") ≡ ok q.0)
            × (lookup q.0 config ≡ some q.1)
            × (is_read_only q.1 ≡ false))
          (ok-inj h2) (named, configured, not-true (is_read_only p') _ e1)

-- The scope that the arguments ask for, and the master that they name.
pub record Reads (args : Args) (q : ScopeArgs × Bytes) : Type 0 where
  pub paths : string_slice_arg args (codes "allow_paths") ≡ ok q.0.allow_paths
  pub may_run : bool_arg args (codes "allow_run") ≡ ok q.0.allow_run
  pub limit : string_arg args (codes "spend_limit") ≡ ok q.0.spend_limit
  pub expiry : string_arg args (codes "expires_in") ≡ ok q.0.expires_in
  pub master : string_arg args (codes "master_address") ≡ ok q.1

pub scope_arguments-Reads :
    (args : Args) (q : ScopeArgs × Bytes) → scope_arguments args ≡ ok q → Reads args q
unfolding scope_arguments
scope_arguments-Reads args q h =
    bind-elim _ (of_arg (string_slice_arg args (codes "allow_paths"))) _ h λ allow_paths e1 h1.
      bind-elim _ (of_arg (bool_arg args (codes "allow_run"))) _ h1 λ allow_run e2 h2.
        bind-elim _ (of_arg (string_arg args (codes "spend_limit"))) _ h2 λ spend_limit e3 h3.
          bind-elim _ (of_arg (string_arg args (codes "expires_in"))) _ h3 λ expires_in e4 h4.
            bind-elim _ (of_arg (string_arg args (codes "master_address"))) _ h4 λ user e5 h5.
              subst (Reads args) (ok-inj h5) (record {
                paths = of_arg-ok (string_slice_arg args (codes "allow_paths")) e1;
                may_run = of_arg-ok (bool_arg args (codes "allow_run")) e2;
                limit = of_arg-ok (string_arg args (codes "spend_limit")) e3;
                expiry = of_arg-ok (string_arg args (codes "expires_in")) e4;
                master = of_arg-ok (string_arg args (codes "master_address")) e5;
              })
