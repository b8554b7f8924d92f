-- ===== src/Contracts/Plan/Print.antt =====
-- The JSON of an execution plan: the object literals of contracts/src/execution-plan-v2.ts as JSON.
use openthrottle.Base.{text}
use openthrottle.Contracts.Json.{Json, str, arr, obj, Fields, end, field}
use openthrottle.Contracts.Validation.{ExecutionPlanCommand}
use openthrottle.Contracts.Validation.Again.{print_items, texts_json, nullable_json}
use openthrottle.Contracts.Plan.{ExecutionPlanUnit, ExecutionPlanContract, execution_plan_schema}

unfoldable pub unit_members : ExecutionPlanUnit → Fields
unfolding texts_json
unit_members u = field (text "id") (str u.id) (
    field (text "title") (str u.title) (
      field (text "depends_on") (texts_json u.depends_on) (
        field (text "objective") (str u.objective) (
          field (text "requirements") (texts_json u.requirements) (
            field (text "files") (texts_json u.files) (
              field (text "approach") (texts_json u.approach) (
                field (text "tests") (texts_json u.tests) (
                  field (text "acceptance") (texts_json u.acceptance)
                    (field (text "verification") (texts_json u.verification) end)))))))))

abbrev pub unit_json : ExecutionPlanUnit → Json
unit_json u = obj (unit_members u)

unfoldable pub command_members : ExecutionPlanCommand → Fields
command_members c =
    field (text "name") (str c.name) (field (text "unit") (nullable_json c.unit) end)

abbrev pub command_json : ExecutionPlanCommand → Json
command_json c = obj (command_members c)

unfoldable pub plan_members : ExecutionPlanContract → Fields
unfolding unit_members command_members
plan_members plan = field (text "schema") (str execution_plan_schema) (
    field (text "pipeline_id") (str plan.pipeline_id) (
      field (text "plan_id") (str plan.plan_id) (
        field (text "units") (arr (print_items unit_json plan.units))
          (field (text "commands") (arr (print_items command_json plan.commands)) end))))

abbrev pub plan_json : ExecutionPlanContract → Json
plan_json plan = obj (plan_members plan)
