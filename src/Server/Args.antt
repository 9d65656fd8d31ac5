-- ===== src/Server/Args.antt =====
-- internal/server/args.go: the typed arguments of a tool, read from the decoded JSON of a request.
-- The number of a json.Number is read by `parse_int64`, which stands for
-- strconv.ParseInt in base 10.
use gno_mcp.Prelude.{
  ℕ, ◌+◌, leb, ◌&&◌, Bytes, Bool, false, Option, none, some, List, [], ◌∷◌, if◌then◌else◌, suc,
}
use gno_mcp.Prelude.Int.{ℤ, pos, pos_part, neg_part, max_int64}
use gno_mcp.Prelude.Map.{Map, lookup}
use gno_mcp.Prelude.Result.{Result, ok, err, ◌>>=◌}

-- What a decoded request can hold: null, a Boolean, a string, an array, an object, and the numbers in
-- their four forms. A float64 is given by its whole part and whether it is whole.
mutual
  pub data Json : Type 0 where
    null_value object_value : Json
    bool_value : Bool → Json
    string_value : Bytes → Json
    float_value : ℤ → Bool → Json
    int_value : ℤ → Json
    number_text : Bytes → Json
    array_value : Jsons → Json

  pub data Jsons : Type 0 where
    no_more : Jsons
    and_more : Json → Jsons → Jsons

abbrev pub Args : Type 0
Args = Map Json

-- the error of an argument: its name, and the place in an array
pub data ArgError : Type 0 where
  wrong_type not_whole : Bytes → ArgError
  wrong_element : Bytes → ℕ → ArgError

-- StringArg
unfoldable pub string_arg : Args → Bytes → Result ArgError Bytes
unfolding lookup
string_arg args name = elim (lookup name args) [
  | none ↦ ok []
  | some v ↦ elim v [ string_value s ↦ ok s | other ↦ err (wrong_type name) ]
]

-- BoolArg
unfoldable pub bool_arg : Args → Bytes → Result ArgError Bool
unfolding lookup
bool_arg args name = elim (lookup name args) [
  | none ↦ ok false
  | some v ↦ elim v [ bool_value b ↦ ok b | other ↦ err (wrong_type name) ]
]

abbrev pub whole_or : Bytes → Option ℤ → Result ArgError ℤ
whole_or name none = err (not_whole name)
whole_or name (some n) = ok n

-- is a whole float64 that of its int64?
abbrev pub in_int64 : ℤ → Bool
in_int64 n = leb (pos_part n) max_int64 && leb (neg_part n) (max_int64 + 1)

-- Int64Arg, of a value that is there
abbrev pub int64_value : (Bytes → Option ℤ) → Bytes → Json → Result ArgError ℤ
int64_value parse_int64 name v = elim v [
  | float_value n whole ↦ if whole && in_int64 n then ok n else err (not_whole name)
  | int_value n ↦ ok n
  | number_text s ↦ whole_or name (parse_int64 s)
  | other ↦ err (wrong_type name)
]

-- Int64Arg
unfoldable pub int64_arg : (Bytes → Option ℤ) → Args → Bytes → Result ArgError ℤ
unfolding lookup
int64_arg parse_int64 args name = elim (lookup name args) [
  | none ↦ ok (pos 0)
  | some v ↦ int64_value parse_int64 name v
]

-- one element of StringSliceArg's loop
abbrev pub string_element : Bytes → ℕ → Json → Result ArgError Bytes
string_element name i v = elim v [ string_value s ↦ ok s | other ↦ err (wrong_element name i) ]

-- the loop of StringSliceArg, from the index `i`
unfoldable pub string_elements : Bytes → ℕ → Jsons → Result ArgError (List Bytes)
string_elements name i no_more = ok []
string_elements name i (and_more v vs) =
    let rest = string_elements name (suc i) vs in
    string_element name i v >>= λ s. rest >>= λ ss. ok (s ∷ ss)

-- StringSliceArg; a missing argument is the empty slice
unfoldable pub string_slice_arg : Args → Bytes → Result ArgError (List Bytes)
unfolding lookup string_elements
string_slice_arg args name = elim (lookup name args) [
  | none ↦ ok []
  | some v ↦ elim v [ array_value vs ↦ string_elements name 0 vs | other ↦ err (wrong_type name) ]
]
