-- ===== src/Untrusted/Budget.antt =====
-- internal/budget/budget.go: the size budget of what a tool shows. `size` is the text's length in
-- bytes.
use gno_mcp.Prelude.{
  ℕ, ◌*◌, Bytes, codes, is_empty, Bool, true, false, [], ◌++◌, if◌then◌else◌, leb, length,
  format_int,
}
use gno_mcp.Untrusted.{wrap}

-- DefaultBudget, ExplicitBudget
abbrev pub default_budget : ℕ
default_budget = 4 * 1024

abbrev pub explicit_budget : ℕ
explicit_budget = 64 * 1024

-- Result, whose fields with `omitempty` are empty where they are left out
pub record BudgetResult : Type 0 where
  pub summary : Bytes
  pub gnoweb_url : Bytes
  pub truncated : Bool
  pub size : ℕ
  pub full : Bytes

abbrev pub summary_of : ℕ → Bytes → Bytes
summary_of size gnoweb_url =
    if is_empty gnoweb_url
    then format_int size
      ++ codes
          " bytes; preview omitted. Request a smaller slice (a specific file, symbol, or path)."
    else format_int size
      ++ codes " bytes; preview omitted. Request a slice (file/symbol/path), or view at "
      ++ gnoweb_url

-- Apply
unfoldable pub apply : Bytes → Bytes → ℕ → BudgetResult
apply full gnoweb_url limit =
    if leb (length full) limit
    then record {
      summary = [];
      gnoweb_url = gnoweb_url;
      truncated = false;
      size = length full;
      full = full;
    }
    else record {
      summary = summary_of (length full) gnoweb_url;
      gnoweb_url = gnoweb_url;
      truncated = true;
      size = length full;
      full = [];
    }

-- WrappedAt: the text, and whether it was cut off
unfoldable pub wrapped_at : (Bytes → Bytes) → Bytes → Bytes → Bytes → Bytes → ℕ → Bytes × Bool
unfolding apply wrap
wrapped_at quote full gnoweb_url kind source limit =
    let r = apply full gnoweb_url limit in
    if r.truncated then (r.summary, true) else (wrap quote r.full kind source, false)

-- Wrapped
abbrev pub wrapped : (Bytes → Bytes) → Bytes → Bytes → Bytes → Bytes → Bytes × Bool
wrapped quote full gnoweb_url kind source =
    wrapped_at quote full gnoweb_url kind source default_budget
