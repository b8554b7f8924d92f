-- ===== src/Contracts/Plan.antt =====
-- Execution plans, version 2 (contracts/src/execution-plan-v2.ts).
use openthrottle.Base.{
  ℕ, ◌*◌, Bool, not, ◌&&◌, Option, none, some, List, [], ◌∷◌, map, Text, text, ltb, list_eq, nat_eq,
  contains, has_duplicates, Result, ok, ◌>>=◌, ◌>>◌, throw_if, or_throw, for_each,
}
use openthrottle.Contracts.Json.{Json, member, is_string}
use openthrottle.Contracts.Formats.{is_identifier}
use openthrottle.Contracts.Validation.{
  object_at, string_at, array_at, any_text, default_max, parse_identifier_list, parse_plan_command,
  ExecutionPlanCommand, Dependencies, assert_acyclic_dependencies,
}
pub mod Print
pub mod Laws
pub mod Again

pub record ExecutionPlanUnit : Type 0 where
  pub id : Text
  pub title : Text
  pub depends_on : List Text
  pub objective : Text
  pub requirements : List Text
  pub files : List Text
  pub approach : List Text
  pub tests : List Text
  pub acceptance : List Text
  pub verification : List Text

pub record ExecutionPlanContract : Type 0 where
  pub pipeline_id : Text
  pub plan_id : Text
  pub units : List ExecutionPlanUnit
  pub commands : List ExecutionPlanCommand

-- EXECUTION_PLAN_SCHEMA_V2
abbrev pub execution_plan_schema : Text
execution_plan_schema = text "openthrottle.execution-plan/v2"

-- EXECUTION_PLAN_V2_MAX_BYTES
abbrev pub execution_plan_max_bytes : ℕ
execution_plan_max_bytes = 256 * 1024

-- parseTextList
unfoldable pub parse_text_list : Option Json → ℕ → ℕ → ℕ → Result (List Text)
unfolding array_at string_at
parse_text_list value min max item_max =
    array_at value (λ entry. string_at entry item_max any_text) min max

abbrev pub unit_fields : List Text
unit_fields =
    text "id"
    ∷ text "title"
    ∷ text "depends_on"
    ∷ text "objective"
    ∷ text "requirements"
    ∷ text "files"
    ∷ text "approach"
    ∷ text "tests"
    ∷ text "acceptance"
    ∷ text "verification"
    ∷ []

-- parseUnitV2
unfoldable pub parse_unit : Option Json → Result ExecutionPlanUnit
unfolding object_at parse_text_list parse_identifier_list
parse_unit value = do
  input ← object_at value unit_fields
  id ← string_at (member (text "id") input) default_max is_identifier
  title ← string_at (member (text "title") input) 160 any_text
  depends_on ← parse_identifier_list (member (text "depends_on") input) 0 32
  objective ← string_at (member (text "objective") input) 2000 any_text
  requirements ← parse_text_list (member (text "requirements") input) 1 32 2000
  files ← parse_text_list (member (text "files") input) 1 64 512
  approach ← parse_text_list (member (text "approach") input) 1 32 2000
  tests ← parse_text_list (member (text "tests") input) 1 32 2000
  acceptance ← parse_text_list (member (text "acceptance") input) 1 32 2000
  verification ← parse_text_list (member (text "verification") input) 1 32 2000
  ok (record {
    id = id;
    title = title;
    depends_on = depends_on;
    objective = objective;
    requirements = requirements;
    files = files;
    approach = approach;
    tests = tests;
    acceptance = acceptance;
    verification = verification;
  })

abbrev pub unit_ids : ExecutionPlanContract → List Text
unit_ids plan = map (λ (u : ExecutionPlanUnit). u.id) plan.units

abbrev pub unit_dependencies : ExecutionPlanContract → Dependencies
unit_dependencies plan = map (λ (u : ExecutionPlanUnit). (u.id, u.depends_on)) plan.units

-- `command.unit !== null && !units.has(command.unit)`
abbrev pub names_unknown_unit : List Text → Option Text → Bool
names_unknown_unit known none = Bool.false
names_unknown_unit known (some unit) = not (contains unit known)

unfoldable pub check_dependencies : List Text → ExecutionPlanUnit → Result (Unit {0})
check_dependencies known unit =
    for_each
      (λ d.
        throw_if (not (contains d known))
          "${source}.units.${unit.id}.depends_on: references an unknown unit")
      unit.depends_on

unfoldable pub check_command : List Text → ExecutionPlanCommand → Result (Unit {0})
check_command known command =
    throw_if (names_unknown_unit known command.unit)
      "${source}.commands.${command.name}.unit: references an unknown unit"

-- validatePlanV2
unfoldable pub validate_plan : ExecutionPlanContract → Result (Unit {0})
unfolding assert_acyclic_dependencies check_dependencies check_command
validate_plan plan = do
  throw_if (has_duplicates (unit_ids plan)) "${source}.units: must not contain duplicate IDs"
  for_each (check_dependencies (unit_ids plan)) plan.units
  for_each (check_command (unit_ids plan)) plan.commands
  assert_acyclic_dependencies (unit_dependencies plan)

-- What the validators take from canonical.ts and Node.js: the size in UTF-8 bytes of the canonical
-- JSON of a plan and of a text, and `JSON.parse` (`none` where it throws).
pub record Encoding : Type 0 where
  pub plan_bytes : ExecutionPlanContract → ℕ
  pub text_bytes : Text → ℕ
  pub parse_json : Text → Option Json

-- validateExecutionPlanContractV2; of the result, the value.
unfoldable pub validate_execution_plan : Encoding → Option Json → Result ExecutionPlanContract
unfolding parse_unit validate_plan parse_plan_command
validate_execution_plan encoding value = do
  input ←
      object_at value
        (text "schema" ∷ text "pipeline_id" ∷ text "plan_id" ∷ text "units" ∷ text "commands" ∷ [])
  throw_if (not (is_string (member (text "schema") input) execution_plan_schema))
      "${source}.schema: must be openthrottle.execution-plan/v2"
  pipeline_id ← string_at (member (text "pipeline_id") input) default_max is_identifier
  plan_id ← string_at (member (text "plan_id") input) default_max is_identifier
  units ← array_at (member (text "units") input) parse_unit 1 64
  commands ← array_at (member (text "commands") input) parse_plan_command 0 16
  let plan : ExecutionPlanContract = record {
    pipeline_id = pipeline_id;
    plan_id = plan_id;
    units = units;
    commands = commands;
  }
  validate_plan plan
  throw_if (ltb execution_plan_max_bytes (encoding.plan_bytes plan))
      "${source}: canonical JSON must contain at most 262144 UTF-8 bytes"
  ok plan

-- parseExecutionPlanContractV2
unfoldable pub parse_execution_plan : Encoding → Text → Result ExecutionPlanContract
unfolding validate_execution_plan
parse_execution_plan encoding raw = do
  throw_if (ltb execution_plan_max_bytes (encoding.text_bytes raw))
      "execution_plan: JSON exceeds 256 KiB"
  value ← or_throw (encoding.parse_json raw) "SyntaxError"
  validate_execution_plan encoding (some value)
