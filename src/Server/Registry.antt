-- ===== src/Server/Registry.antt =====
-- internal/server/registry.go: the tools of the server by their names. A handler is a step on the
-- state of the program; that it panics is an outcome of its own.
use gno_mcp.Prelude.{
  ℕ, Bytes, Bool, true, false, not, ◌&&◌, Option, none, some, List, [], ◌∷◌, length, if◌then◌else◌,
  less,
}
use gno_mcp.Prelude.Map.{Map, lookup, insert}
use gno_mcp.Prelude.Result.{Result, ok, err}
use gno_mcp.Server.Args.{Args}

pub data Capability : Type 0 where
  base_read indexer_read write write_prep session_read a2a : Capability

abbrev pub same_capability : Capability → Capability → Bool
same_capability base_read c = elim c [ base_read ↦ true | other ↦ false ]
same_capability indexer_read c = elim c [ indexer_read ↦ true | other ↦ false ]
same_capability write c = elim c [ write ↦ true | other ↦ false ]
same_capability write_prep c = elim c [ write_prep ↦ true | other ↦ false ]
same_capability session_read c = elim c [ session_read ↦ true | other ↦ false ]
same_capability a2a c = elim c [ a2a ↦ true | other ↦ false ]

pub record Annotations : Type 0 where
  pub read_only : Bool
  pub destructive : Bool
  pub idempotent : Bool
  pub open_world : Bool

-- (Annotations).Validate
unfoldable pub validate_annotations : Annotations → Bool
validate_annotations a = not (a.read_only && a.destructive)

-- what a handler comes to: a result, an error, or a panic
pub data Outcome (R : Type 0) : Type 0 where
  returned : R → Outcome R
  failed : Bytes → Outcome R
  panicked : Outcome R

pub data CallError : Type 0 where
  unknown_tool no_handler handler_panicked : Bytes → CallError
  handler_failed : Bytes → CallError

module _ (R : Type 0) where
  pub record Tool : Type 0 where
    pub name : Bytes
    pub capability : Capability
    pub annotations : Annotations
    pub self_audited : Bool
    pub handler : Option (Args → Outcome R)

  abbrev pub Registry : Type 0
  Registry = Map Tool

  -- Add
  unfoldable pub add_tool : Tool → Registry → Registry
  unfolding insert
  add_tool t r = insert t.name t r

  -- Get
  unfoldable pub get_tool : Bytes → Registry → Option Tool
  unfolding lookup
  get_tool name r = lookup name r

  -- Count
  abbrev pub count : Registry → ℕ
  count r = length r

  -- the sort of All and of WithCapability, by names that are all different
  unfoldable pub insert_tool : Tool → List Tool → List Tool
  insert_tool t [] = t ∷ []
  insert_tool t (u ∷ us) =
      let rest = insert_tool t us in if less u.name t.name then u ∷ rest else t ∷ u ∷ us

  -- All
  unfoldable pub all_tools : Registry → List Tool
  unfolding insert_tool
  all_tools [] = []
  all_tools ((name, t) ∷ r) = insert_tool t (all_tools r)

  -- WithCapability
  unfoldable pub with_capability : Capability → Registry → List Tool
  unfolding insert_tool
  with_capability c [] = []
  with_capability c ((name, t) ∷ r) =
      let rest = with_capability c r in
      if same_capability t.capability c then insert_tool t rest else rest

  abbrev pub outcome : Bytes → Outcome R → Result CallError R
  outcome name (returned x) = ok x
  outcome name (failed text) = err (handler_failed text)
  outcome name panicked = err (handler_panicked name)

  -- Call
  abbrev pub called : Bytes → Args → Option Tool → Result CallError R
  called name args none = err (unknown_tool name)
  called name args (some t) = elim t.handler [
    | none ↦ err (no_handler name)
    | some h ↦ outcome name (h args)
  ]

  unfoldable pub call : Bytes → Args → Registry → Result CallError R
  unfolding get_tool
  call name args r = called name args (get_tool name r)
