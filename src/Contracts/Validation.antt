-- ===== src/Contracts/Validation.antt =====
-- The readers of untrusted JSON (contracts/src/validation.ts). A missing member of an object is
-- `none`; `${path}` and the other parts of a message that are computed stand as written.
use openthrottle.Base.{
  ℕ, suc, ◌-◌, ◌≡◌, Bool, true, false, not, ◌&&◌, ◌||◌, Option, none, some, List, [], ◌∷◌, Text,
  text, Dict, lookup, keys, ltb, leb, ◌==◌, list_eq, nat_eq, contains, all, get_or, length,
  is_empty, is_digit, has_duplicates, Result, ok, err, ◌>>=◌, ◌>>◌, throw_if, or_throw, for_each,
  map_each, if◌then◌else◌, Walk, walk, visited_first, String,
}
use openthrottle.Contracts.Json.{
  Json, num, str, arr, bool, Items, nil, cons, Fields, end, field, as_object, member, member_names,
}
use openthrottle.Contracts.Formats.{is_identifier, is_command_name, decimal_value}
pub mod Again

unfoldable pub members : Items → List Json
members nil = []
members (cons x xs) = x ∷ members xs

unfoldable pub entries : Fields → Dict Json
entries end = []
entries (field k v fs) = (k, v) ∷ entries fs

abbrev pub any_text : Text → Bool
any_text s = true

-- objectAt, for a value that may be missing
unfoldable pub object_at : Option Json → List Text → Result Fields
object_at none allowed = err "${path}: must be an object"
object_at (some v) allowed = do
  fields ← or_throw (as_object v) "${path}: must be an object"
  for_each (λ k. throw_if (not (contains k allowed)) "${path}.${key}: unknown field")
      (member_names fields)
  ok fields

-- stringAt
unfoldable pub string_at : Option Json → ℕ → (Text → Bool) → Result Text
string_at (some (str s)) max pattern = do
  throw_if (is_empty s) "${path}: must be a non-empty string"
  throw_if (ltb max (length s)) "${path}: must be at most ${max} characters"
  throw_if (not (pattern s)) "${path}: has an invalid format"
  ok s
string_at _ max pattern = err "${path}: must be a non-empty string"

-- `options.max ?? 512`
abbrev pub default_max : ℕ
default_max = 512

-- integerAt. `JSON.stringify` prints a safe integer that is not negative with its digits alone.
unfoldable pub integer_at : Option Json → ℕ → ℕ → Result ℕ
integer_at (some (num s)) min max =
    let n = decimal_value s in
    throw_if
      (is_empty s
        || not (all is_digit s)
        || ltb 16 (length s)
        || ltb 9007199254740991 n
        || ltb n min
        || ltb max n)
      "${path}: must be an integer between ${min} and ${max}"
    >> ok n
integer_at _ min max = err "${path}: must be an integer between ${min} and ${max}"

-- booleanAt
unfoldable pub boolean_at : Option Json → Result Bool
boolean_at (some (bool b)) = ok b
boolean_at _ = err "${path}: must be a boolean"

-- enumAt, with the value that each text stands for
unfoldable pub enum_at {ℓ} : {T : Type ℓ} → Option Json → Dict T → Result T
enum_at (some (str s)) allowed = or_throw (lookup s allowed) "${path}: must be one of: ${allowed}"
enum_at _ allowed = err "${path}: must be one of: ${allowed}"

-- arrayAt
unfoldable pub array_at {ℓ} :
    {T : Type ℓ} → Option Json → (Option Json → Result T) → ℕ → ℕ → Result (List T)
array_at (some (arr xs)) parse min max =
    let values = members xs in
    throw_if (ltb (length values) min || ltb max (length values))
      "${path}: must contain between ${options.min ?? 0} and ${options.max} entries"
    >> map_each (λ x. parse (some x)) values
array_at _ parse min max = err "${path}: must be an array"

-- unique
unfoldable pub unique : List Text → Result (List Text)
unique values = throw_if (has_duplicates values) "${path}: must not contain duplicates" >> ok values

-- recordAt
unfoldable pub record_entries {ℓ} :
    {T : Type ℓ} → (Json → Result T) → ℕ → ℕ → (Text → Bool) → ℕ → Dict Json → Result (Dict T)
record_entries parse max key_max pattern count [] = ok []
record_entries parse max key_max pattern count ((key, entry) ∷ rest) = do
  throw_if (ltb max (suc count)) "${path}: must contain at most ${options.max} entries"
  throw_if (ltb key_max (length key))
      "${path}.${key}: key must contain at most ${options.keyMax} characters"
  throw_if (not (pattern key)) "${path}.${key}: has an invalid key"
  value ← parse entry
  output ← record_entries parse max key_max pattern (suc count) rest
  ok ((key, value) ∷ output)

unfoldable pub record_at {ℓ} :
    {T : Type ℓ} → Option Json → (Json → Result T) → ℕ → ℕ → (Text → Bool) → Result (Dict T)
unfolding record_entries
record_at none parse max key_max pattern = err "${path}: must be an object"
record_at (some v) parse max key_max pattern = do
  input ← or_throw (as_object v) "${path}: must be an object"
  record_entries parse max key_max pattern 0 (entries input)

-- parseIdentifierList
unfoldable pub parse_identifier_list : Option Json → ℕ → ℕ → Result (List Text)
unfolding string_at array_at unique
parse_identifier_list value min max =
    array_at value (λ entry. string_at entry default_max is_identifier) min max >>= unique

-- The result of parsePlanCommand.
pub record ExecutionPlanCommand : Type 0 where
  pub name : Text
  pub unit : Option Text

-- `input.unit === null ? null : stringAt(…)`
unfoldable pub unit_at : Json → Result (Option Text)
unfolding string_at
unit_at Json.null = ok none
unit_at v = string_at (some v) default_max is_identifier >>= λ s. ok (some s)

-- parsePlanCommand
unfoldable pub parse_plan_command : Option Json → Result ExecutionPlanCommand
unfolding unit_at object_at
parse_plan_command value = do
  input ← object_at value (text "name" ∷ text "unit" ∷ [])
  given ← or_throw (member (text "unit") input) "${path}.unit: is required"
  name ← string_at (member (text "name") input) 80 is_command_name
  unit ← unit_at given
  ok (record { name = name; unit = unit })

-- A node of the graph of assertAcyclicDependencies: its id and `depends_on`.
abbrev pub Dependencies : Type 0
Dependencies = Dict (List Text)

-- `byId.get(id)!.depends_on`; the callers have verified that every dependency is the id of a unit.
unfoldable pub depends_on : Dependencies → Text → List Text
depends_on units id = get_or (lookup id units) []

-- assertAcyclicDependencies, with fuel for each unit and one more
unfoldable pub assert_acyclic_dependencies : Dependencies → Result (Unit {0})
unfolding walk visited_first depends_on
assert_acyclic_dependencies units =
    walk (depends_on units) visited_first (λ id. "${path}.${id}.depends_on: creates a cycle")
      (suc (length units)) (keys units)
    >>= λ w. ok tt
