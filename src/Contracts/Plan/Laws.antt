-- ===== src/Contracts/Plan/Laws.antt =====
-- The checks of an execution plan (contracts/src/execution-plan-v2.ts and assertAcyclicDependencies
-- of contracts/src/validation.ts).
use openthrottle.Base.{
  suc, ◌≡◌, refl, sym, ap, subst, String, ◌↔◌, true, false, not, List, [], ◌∷◌, Text, keys, lookup,
  list_eq, nat_eq, contains, all, has_duplicates, get_or, length, Result, ok, err, ◌>>=◌, arith,
  Walk, visited_first, Passes, Passes-then, Passes-throw_if, Passes-for_each, Passes-unless,
}
use openthrottle.Base.Search.Members.{Within}
use openthrottle.Base.Search.Laws.{visited_first-Finds}
use openthrottle.Base.Search.Closed.{keys-map_pair, lookup-Within}
use openthrottle.Base.Search.Decides.{Acyclic, Decides, walk-Decides}
use openthrottle.Contracts.Validation.{
  ExecutionPlanCommand, Dependencies, depends_on, assert_acyclic_dependencies,
}
use openthrottle.Contracts.Plan.{
  ExecutionPlanUnit, ExecutionPlanContract, unit_ids, unit_dependencies, names_unknown_unit,
  check_dependencies, check_command, validate_plan,
}

length-keys : (d : Dependencies) → length (keys d) ≡ length d
unfolding keys
length-keys [] = refl
length-keys ((k, v) ∷ d) = ap suc (length-keys d)

Decides-forget :
    (P : Type 0) (message : String) (r : Result (Walk Text))
    → Decides {0, 0} P message r
    → Decides {0, 0} P message (r >>= λ w. ok tt)
unfolding ◌>>=◌
Decides-forget P message (ok w) d = d
Decides-forget P message (err m) d = d

-- Where every dependency is the id of a unit, assertAcyclicDependencies passes exactly when no unit
-- depends on itself through others, and throws the error about a cycle otherwise; its fuel never
-- runs out.
pub assert_acyclic_dependencies-Decides :
    (units : Dependencies)
    → ((a : Text) → contains a (keys units) ≡ true → Within (depends_on units a) (keys units))
    → Decides
        (Acyclic (depends_on units) (keys units))
        "${path}.${id}.depends_on: creates a cycle"
        (assert_acyclic_dependencies units)
unfolding assert_acyclic_dependencies
assert_acyclic_dependencies-Decides units closed = Decides-forget _ _ _ (
    walk-Decides (depends_on units) visited_first _ visited_first-Finds (keys units) closed
      (suc (length units)) (keys units) (ground (arith, length-keys units)) (λ a m. m) (λ a m. m))

-- What validatePlanV2 checks, said of the plan.
pub record IsPlan (plan : ExecutionPlanContract) : Type 0 where
  pub no_twins : has_duplicates (unit_ids plan) ≡ false
  pub dependencies_known :
      all (λ (u : ExecutionPlanUnit). all (λ d. contains d (unit_ids plan)) u.depends_on) plan.units
      ≡ true
  pub commands_known :
      all
        (λ (c : ExecutionPlanCommand). not (names_unknown_unit (unit_ids plan) c.unit))
        plan.commands
      ≡ true
  pub acyclic : Acyclic (depends_on (unit_dependencies plan)) (unit_ids plan)

abbrev id_of : ExecutionPlanUnit → Text
id_of u = u.id

abbrev depends_on_of : ExecutionPlanUnit → List Text
depends_on_of u = u.depends_on

Passes-check_dependencies :
    (known : List Text) (u : ExecutionPlanUnit)
    → Passes (check_dependencies known u) ↔ (all (λ d. contains d known) u.depends_on ≡ true)
unfolding check_dependencies
Passes-check_dependencies known u =
    Passes-for_each _ (λ d. contains d known) (λ d. Passes-unless (contains d known) _) u.depends_on

Passes-check_command :
    (known : List Text) (c : ExecutionPlanCommand)
    → Passes (check_command known c) ↔ (not (names_unknown_unit known c.unit) ≡ true)
unfolding check_command
Passes-check_command known c = ground (
  arith,
  Passes-throw_if (names_unknown_unit known c.unit)
      "${source}.commands.${command.name}.unit: references an unknown unit",
)

plan-closed :
    (plan : ExecutionPlanContract)
    → all (λ (u : ExecutionPlanUnit). all (λ d. contains d (unit_ids plan)) u.depends_on) plan.units
      ≡ true
    → (a : Text) → Within (depends_on (unit_dependencies plan) a) (keys (unit_dependencies plan))
unfolding depends_on
plan-closed plan h a =
    subst (λ known. Within (get_or (lookup a (unit_dependencies plan)) []) known)
      (sym (keys-map_pair id_of depends_on_of plan.units))
      (lookup-Within id_of depends_on_of (unit_ids plan) plan.units a h)

Decides-Passes :
    (P : Type 0) (message : String) (r : Result (Unit {0}))
    → Decides {0, 0} P message r
    → Passes r ↔ P
Decides-Passes P message (ok tt) d = (λ h. d, λ h. refl)
Decides-Passes P message (err m) d = (λ h. cc, λ p. elim (d.0 p) [ ])

Passes-plan-Acyclic :
    (plan : ExecutionPlanContract)
    → all (λ (u : ExecutionPlanUnit). all (λ d. contains d (unit_ids plan)) u.depends_on) plan.units
      ≡ true
    → Passes (assert_acyclic_dependencies (unit_dependencies plan))
      ↔ Acyclic (depends_on (unit_dependencies plan)) (unit_ids plan)
Passes-plan-Acyclic plan h =
    subst
      (λ ids.
        Passes (assert_acyclic_dependencies (unit_dependencies plan))
        ↔ Acyclic (depends_on (unit_dependencies plan)) ids)
      (keys-map_pair id_of depends_on_of plan.units)
      (Decides-Passes _ _ _ (
        assert_acyclic_dependencies-Decides (unit_dependencies plan) (λ a m. plan-closed plan h a)))

-- validatePlanV2 passes exactly the plans whose unit ids are distinct, in which every dependency
-- and every unit of a command is the id of a unit, and in which no unit depends on itself through
-- others.
pub validate_plan-IsPlan :
    (plan : ExecutionPlanContract) → Passes (validate_plan plan) ↔ IsPlan plan
unfolding validate_plan
validate_plan-IsPlan plan = (checked, passed)
  where
    checked : Passes (validate_plan plan) → IsPlan plan
    checked h =
        let (twins, h1) = (Passes-then _ _).0 h in
        let (deps, h2) = (Passes-then _ _).0 h1 in
        let (commands, cycle) = (Passes-then _ _).0 h2 in
        let known =
          (Passes-for_each _ _ (Passes-check_dependencies (unit_ids plan)) plan.units).0 deps in
        record {
          no_twins = (Passes-throw_if _ _).0 twins;
          dependencies_known = known;
          commands_known =
              (Passes-for_each _ _ (Passes-check_command (unit_ids plan)) plan.commands).0 commands;
          acyclic = (Passes-plan-Acyclic plan known).0 cycle;
        }

    passed : IsPlan plan → Passes (validate_plan plan)
    passed h = (Passes-then _ _).1 (
      (Passes-throw_if _ _).1 h.no_twins,
      (Passes-then _ _).1 (
        (Passes-for_each _ _ (Passes-check_dependencies (unit_ids plan)) plan.units).1
            h.dependencies_known,
        (Passes-then _ _).1 (
          (Passes-for_each _ _ (Passes-check_command (unit_ids plan)) plan.commands).1
              h.commands_known,
          (Passes-plan-Acyclic plan h.dependencies_known).1 h.acyclic,
        ),
      ),
    )
