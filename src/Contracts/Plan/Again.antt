-- ===== src/Contracts/Plan/Again.antt =====
-- Reading a plan again from its own JSON (contracts/src/execution-plan-v2.ts).
use openthrottle.Base.{
  ℕ, ◌≡◌, refl, ◌∙◌, false, not, Option, some, List, [], ◌∷◌, Text, text, list_eq, nat_eq, list_beq,
  >>=-ok, throw_if-false, ok, ◌>>=◌, throw_if, for_each, or_throw, contains, Ensures, Ensures-ok,
  Ensures-bind, Ensures-throw_if,
}
use openthrottle.Contracts.Json.{Json, str, member, member_names, is_string}
use openthrottle.Contracts.Formats.{is_identifier, is_command_name}
use openthrottle.Contracts.Validation.{
  object_at, string_at, any_text, default_max, parse_identifier_list, parse_plan_command, unit_at,
  ExecutionPlanCommand,
}
use openthrottle.Contracts.Validation.Again.{
  texts_json, ReadsBack, string_at-again, array_at-again, parse_identifier_list-again,
  unit_at-again, nullable_json,
}
use openthrottle.Contracts.Plan.{
  parse_text_list, unit_fields, parse_unit, validate_execution_plan, Encoding, ExecutionPlanUnit,
  ExecutionPlanContract, execution_plan_schema,
}
use openthrottle.Contracts.Plan.Print.{
  unit_json, unit_members, command_json, command_members, plan_json, plan_members,
}

parse_text_list-again :
    (min max item_max : ℕ) (value : Option Json)
    → ReadsBack texts_json (λ v. parse_text_list v min max item_max) value
unfolding parse_text_list texts_json
parse_text_list-again min max item_max value =
    array_at-again str (λ v. string_at v item_max any_text) (string_at-again item_max any_text) min
      max value

-- The reads of the members of `u`, each from the JSON of the member.
record Reads (u : ExecutionPlanUnit) : Type 0 where
  pub r_id : string_at (some (str u.id)) default_max is_identifier ≡ ok u.id
  pub r_title : string_at (some (str u.title)) 160 any_text ≡ ok u.title
  pub r_depends_on : parse_identifier_list (some (texts_json u.depends_on)) 0 32 ≡ ok u.depends_on
  pub r_objective : string_at (some (str u.objective)) 2000 any_text ≡ ok u.objective
  pub r_requirements :
      parse_text_list (some (texts_json u.requirements)) 1 32 2000 ≡ ok u.requirements
  pub r_files : parse_text_list (some (texts_json u.files)) 1 64 512 ≡ ok u.files
  pub r_approach : parse_text_list (some (texts_json u.approach)) 1 32 2000 ≡ ok u.approach
  pub r_tests : parse_text_list (some (texts_json u.tests)) 1 32 2000 ≡ ok u.tests
  pub r_acceptance : parse_text_list (some (texts_json u.acceptance)) 1 32 2000 ≡ ok u.acceptance
  pub r_verification :
      parse_text_list (some (texts_json u.verification)) 1 32 2000 ≡ ok u.verification

parse_unit-Reads : (value : Option Json) → Ensures Reads (parse_unit value)
unfolding parse_unit
parse_unit-Reads value = Ensures-bind _ _ λ input e. Ensures-bind _ _ λ id e0.
    Ensures-bind _ _ λ title e1. Ensures-bind _ _ λ depends_on e2. Ensures-bind _ _ λ objective e3.
      Ensures-bind _ _ λ requirements e4. Ensures-bind _ _ λ files e5.
        Ensures-bind _ _ λ approach e6. Ensures-bind _ _ λ tests e7.
          Ensures-bind _ _ λ acceptance e8. Ensures-bind _ _ λ verification e9.
            Ensures-ok _ (record {
              r_id = (string_at-again _ _ _).at id e0;
              r_title = (string_at-again _ _ _).at title e1;
              r_depends_on = (parse_identifier_list-again _ _ _).at depends_on e2;
              r_objective = (string_at-again _ _ _).at objective e3;
              r_requirements = (parse_text_list-again _ _ _ _).at requirements e4;
              r_files = (parse_text_list-again _ _ _ _).at files e5;
              r_approach = (parse_text_list-again _ _ _ _).at approach e6;
              r_tests = (parse_text_list-again _ _ _ _).at tests e7;
              r_acceptance = (parse_text_list-again _ _ _ _).at acceptance e8;
              r_verification = (parse_text_list-again _ _ _ _).at verification e9;
            })

object_at-unit_json :
    (u : ExecutionPlanUnit) → object_at (some (unit_json u)) unit_fields ≡ ok (unit_members u)
unfolding object_at contains member_names unit_members text for_each throw_if or_throw ◌>>=◌
    list_beq
object_at-unit_json u = refl

Reads-again : (u : ExecutionPlanUnit) → Reads u → parse_unit (some (unit_json u)) ≡ ok u
unfolding parse_unit unit_members member text list_beq
Reads-again u r =
    >>=-ok _ _ (object_at-unit_json u)
    ∙ >>=-ok _ _ r.r_id
    ∙ >>=-ok _ _ r.r_title
    ∙ >>=-ok _ _ r.r_depends_on
    ∙ >>=-ok _ _ r.r_objective
    ∙ >>=-ok _ _ r.r_requirements
    ∙ >>=-ok _ _ r.r_files
    ∙ >>=-ok _ _ r.r_approach
    ∙ >>=-ok _ _ r.r_tests
    ∙ >>=-ok _ _ r.r_acceptance
    ∙ >>=-ok _ _ r.r_verification

parse_unit-again : (value : Option Json) → ReadsBack unit_json parse_unit value
parse_unit-again value = record { at = λ u e. Reads-again u ((parse_unit-Reads value).at u e) }

command-again :
    (c : ExecutionPlanCommand)
    → string_at (some (str c.name)) 80 is_command_name ≡ ok c.name
    → unit_at (nullable_json c.unit) ≡ ok c.unit
    → parse_plan_command (some (command_json c)) ≡ ok c
unfolding parse_plan_command object_at contains command_members member_names member text for_each
    throw_if or_throw ◌>>=◌ list_beq
command-again c name unit = >>=-ok _ _ name ∙ >>=-ok _ _ unit

parse_plan_command-again : (value : Option Json) → ReadsBack command_json parse_plan_command value
unfolding parse_plan_command
parse_plan_command-again value = Ensures-bind _ _ λ input e. Ensures-bind _ _ λ given e0.
    Ensures-bind _ _ λ name e1. Ensures-bind _ _ λ unit e2.
      Ensures-ok _
        (command-again _ ((string_at-again _ _ _).at name e1) ((unit_at-again given).at unit e2))

abbrev plan_fields : List Text
plan_fields =
    text "schema" ∷ text "pipeline_id" ∷ text "plan_id" ∷ text "units" ∷ text "commands" ∷ []

object_at-plan_json :
    (plan : ExecutionPlanContract)
    → object_at (some (plan_json plan)) plan_fields ≡ ok (plan_members plan)
unfolding object_at contains member_names plan_members text for_each throw_if or_throw ◌>>=◌
    list_beq
object_at-plan_json plan = refl

schema-plan_json :
    (plan : ExecutionPlanContract)
    → not (is_string (member (text "schema") (plan_members plan)) execution_plan_schema) ≡ false
unfolding member plan_members text list_beq
schema-plan_json plan = refl

validated_plan-again :
    (encoding : Encoding) (value : Option Json)
    → ReadsBack plan_json (validate_execution_plan encoding) value
unfolding validate_execution_plan plan_members member text list_beq
validated_plan-again encoding value = Ensures-bind _ _ λ input e. Ensures-throw_if _ _ _ λ schema.
    Ensures-bind _ _ λ pipeline_id e0. Ensures-bind _ _ λ plan_id e1. Ensures-bind _ _ λ units e2.
      Ensures-bind _ _ λ commands e3. Ensures-bind _ _ λ passed e4. Ensures-throw_if _ _ _ λ small.
        let plan : ExecutionPlanContract = record {
          pipeline_id = pipeline_id;
          plan_id = plan_id;
          units = units;
          commands = commands;
        } in
        Ensures-ok plan (
          >>=-ok _ _ (object_at-plan_json plan)
          ∙ throw_if-false _ _ _ (schema-plan_json plan)
          ∙ >>=-ok _ _ ((string_at-again _ _ _).at pipeline_id e0)
          ∙ >>=-ok _ _ ((string_at-again _ _ _).at plan_id e1)
          ∙ >>=-ok _ _ ((array_at-again unit_json parse_unit parse_unit-again _ _ _).at units e2)
          ∙ >>=-ok _ _ (
              (array_at-again command_json parse_plan_command parse_plan_command-again _ _ _).at
                commands e3)
          ∙ >>=-ok _ _ e4
          ∙ throw_if-false _ _ _ small)

-- Giving a plan that validateExecutionPlanContractV2 returned to it again, as JSON, returns the same
-- plan.
pub validate_execution_plan-again :
    (encoding : Encoding) (value : Option Json) (plan : ExecutionPlanContract)
    → validate_execution_plan encoding value ≡ ok plan
    → validate_execution_plan encoding (some (plan_json plan)) ≡ ok plan
validate_execution_plan-again encoding value = (validated_plan-again encoding value).at
