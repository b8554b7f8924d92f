-- ===== src/Contracts/Manifest/Laws.antt =====
-- The graph of a compiled pipeline (validateStages of contracts/src/pipeline.ts).
use openthrottle.Base.{
  suc, ◌≡◌, refl, sym, ◌∙◌, ◌↔◌, subst, Bool, true, false, not, List, [], ◌∷◌, Text, Dict, list_eq,
  nat_eq, contains, all, has_duplicates, length, flat_map, option_to_list, is_none, Result, ok, err,
  throw_if, for_each, arith, Walk, visiting_first, walk, Passes, Passes-then, Passes-throw_if,
  Passes-for_each, Passes-unless, if◌then◌else◌, reachable, String, >>=-eq-ok, >>=-ok,
}
use openthrottle.Base.Search.Members.{Within}
use openthrottle.Base.Search.Laws.{visiting_first-Finds}
use openthrottle.Base.Search.Closed.{lookup-Within, all-append, none-missing, Within-none-missing}
use openthrottle.Base.Search.Decides.{Acyclic, Decides, Decides-ok, walk-Decides}
use openthrottle.Base.Worklist.Laws.{Reachable, Collects, reachable-Collects}
use openthrottle.Contracts.Pipeline.{CompiledPipelineStage, PipelineTransition}
use openthrottle.Contracts.Manifest.Graph.{
  stage_ids, stage_successors, targets, unbounded_targets, loop_body, unbounded_target, follow,
  check_targets, validate_stages,
}

abbrev id_of : CompiledPipelineStage → Text
id_of s = s.id

-- What validateStages checks, said of the graph.
pub record IsStageGraph (stages : List CompiledPipelineStage) (entry : Text) : Type 0 where
  pub no_twins : has_duplicates (stage_ids stages) ≡ false
  pub entry_known : contains entry (stage_ids stages) ≡ true
  pub targets_known :
      all
        (λ (s : CompiledPipelineStage).
          all (λ t. contains t (stage_ids stages)) (stage_successors s))
        stages
      ≡ true
  pub all_reachable :
      (a : Text)
      → contains a (stage_ids stages) ≡ true
      → Reachable (follow stage_successors stages) entry a
  pub bounded : Acyclic (follow unbounded_targets stages) (stage_ids stages)

Passes-check_targets :
    (known : List Text) (s : CompiledPipelineStage)
    → Passes (check_targets known s) ↔ (all (λ t. contains t known) (stage_successors s) ≡ true)
unfolding check_targets stage_successors
Passes-check_targets known s = ground (
  arith,
  Passes-then
      (for_each
        (λ to.
          throw_if (not (contains to known))
            "${source}.stages[${index}].on.${outcome}.to: references an unknown stage")
        (targets s))
      (for_each
        (λ b.
          throw_if (not (contains b known))
            "${source}.stages[${index}].loop.body[${bodyIndex}]: references an unknown stage")
        (loop_body s.loop)),
  Passes-for_each _ (λ d. contains d known)
      (λ d.
        Passes-unless (contains d known)
          "${source}.stages[${index}].on.${outcome}.to: references an unknown stage")
      (targets s),
  Passes-for_each _ (λ d. contains d known)
      (λ d.
        Passes-unless (contains d known)
          "${source}.stages[${index}].loop.body[${bodyIndex}]: references an unknown stage")
      (loop_body s.loop),
  all-append (λ t. contains t known) (targets s) (loop_body s.loop),
)

all-if :
    (p : Text → Bool) (b : Bool) (xs : List Text)
    → all p xs ≡ true
    → all p (if b then xs else []) ≡ true
unfolding all
all-if p true xs h = h
all-if p false xs h = refl

module _ (known : List Text) where
  unbounded-known :
      (edge : Text × PipelineTransition)
      → all (λ t. contains t known) (option_to_list edge.1.to) ≡ true
      → all (λ t. contains t known) (unbounded_target edge.1) ≡ true
  unbounded-known edge h = all-if _ (is_none edge.1.max_reentries) (option_to_list edge.1.to) h

  unbounded_edges-known :
      (on : Dict PipelineTransition)
      → all
          (λ t. contains t known)
          (flat_map (λ (edge : Text × PipelineTransition). option_to_list edge.1.to) on)
        ≡ true
      → all
          (λ t. contains t known)
          (flat_map (λ (edge : Text × PipelineTransition). unbounded_target edge.1) on)
        ≡ true
  unfolding flat_map all
  unbounded_edges-known [] h = refl
  unbounded_edges-known (edge ∷ on) h = ground (
    arith,
    all-append (λ t. contains t known) (option_to_list edge.1.to)
        (flat_map (λ (edge : Text × PipelineTransition). option_to_list edge.1.to) on),
    all-append (λ t. contains t known) (unbounded_target edge.1)
        (flat_map (λ (edge : Text × PipelineTransition). unbounded_target edge.1) on),
    unbounded-known edge,
    unbounded_edges-known on,
  )

  unbounded_targets-known :
      (stages : List CompiledPipelineStage)
      → all (λ (s : CompiledPipelineStage). all (λ t. contains t known) (stage_successors s)) stages
        ≡ true
      → all
          (λ (s : CompiledPipelineStage). all (λ t. contains t known) (unbounded_targets s))
          stages
        ≡ true
  unfolding all stage_successors unbounded_targets targets
  unbounded_targets-known [] h = refl
  unbounded_targets-known (s ∷ stages) h = ground (
    arith,
    all-append (λ t. contains t known) (targets s) (loop_body s.loop),
    unbounded_edges-known s.on,
    unbounded_targets-known stages,
  )

follow-Within :
    (edges : CompiledPipelineStage → List Text) (stages : List CompiledPipelineStage)
    → all (λ (s : CompiledPipelineStage). all (λ t. contains t (stage_ids stages)) (edges s)) stages
      ≡ true
    → (a : Text) → Within (follow edges stages a) (stage_ids stages)
unfolding follow
follow-Within edges stages h a = lookup-Within id_of edges (stage_ids stages) stages a h

module _ (stages : List CompiledPipelineStage) (entry : Text) where
  -- The two passes over the graph, where the checks before them have passed.
  module _ (entry_known : contains entry (stage_ids stages) ≡ true)
      (known : all
          (λ (s : CompiledPipelineStage).
            all (λ t. contains t (stage_ids stages)) (stage_successors s))
          stages
        ≡ true) where
    reached-Collects :
        Collects
          (follow stage_successors stages)
          (stage_ids stages)
          entry
          (λ a m. follow-Within stage_successors stages known a)
          (reachable (follow stage_successors stages) (stage_ids stages) entry)
    reached-Collects =
        reachable-Collects (follow stage_successors stages) (stage_ids stages) entry
          (λ a m. follow-Within stage_successors stages known a) entry_known

    walk-bounded :
        Decides
          (Acyclic (follow unbounded_targets stages) (stage_ids stages))
          "${source}.stages: contains an unbounded transition cycle at ${id}"
          (walk
            (follow unbounded_targets stages)
            visiting_first
            (λ id. "${source}.stages: contains an unbounded transition cycle at ${id}")
            (suc (length (stage_ids stages)))
            (stage_ids stages))
    walk-bounded =
        walk-Decides (follow unbounded_targets stages) visiting_first _ visiting_first-Finds
          (stage_ids stages)
          (λ a m.
            follow-Within unbounded_targets stages
              (unbounded_targets-known (stage_ids stages) stages known) a)
          (suc (length (stage_ids stages))) (stage_ids stages) (ground arith) (λ a m. m) (λ a m. m)

ok_injective : {A : Type 0} {a b : A} → ok a ≡ ok b → a ≡ b
ok_injective e = cc

Decides-found :
    (P : Type 0) (message : String) (r : Result (Walk Text))
    → Decides {0, 0} P message r
    → P
    → (w : Walk Text) × (r ≡ ok w)
Decides-found P message (ok w) d p = (w, refl)
Decides-found P message (err m) d p = elim (d.0 p) [ ]

-- validateStages passes exactly the pipelines whose stage ids are distinct, whose entry, transitions
-- and loop bodies name stages, whose stages can all be reached from the entry, and which have no
-- cycle of transitions without a bound on re-entries.
pub validate_stages-IsStageGraph :
    (stages : List CompiledPipelineStage) (entry : Text)
    → Passes (validate_stages stages entry) ↔ IsStageGraph stages entry
unfolding validate_stages
validate_stages-IsStageGraph stages entry = (checked, passed)
  where
    checked : Passes (validate_stages stages entry) → IsStageGraph stages entry
    checked h =
        let (twins, h1) = (Passes-then _ _).0 h in
        let (first, h2) = (Passes-then _ _).0 h1 in
        let (edges, h3) = (Passes-then _ _).0 h2 in
        let (reached, e, h4) = >>=-eq-ok _ _ h3 in
        let (missing, h5) = (Passes-then _ _).0 h4 in
        let (walked, e', h6) = >>=-eq-ok _ _ h5 in
        let entry_known = (Passes-unless _ _).0 first in
        let known =
          (Passes-for_each _ _ (Passes-check_targets (stage_ids stages)) stages).0 edges in
        let (found, e'', all_found) = reached-Collects stages entry entry_known known in
        record {
          no_twins = (Passes-throw_if _ _).0 twins;
          entry_known = entry_known;
          targets_known = known;
          all_reachable = λ a m. (all_found a).0 (
              subst (λ k. contains a k ≡ true) (ok_injective (sym e ∙ e''))
                (none-missing reached (stage_ids stages) ((Passes-throw_if _ _).0 missing) a m));
          bounded = Decides-ok _ _ _ (walk-bounded stages entry entry_known known) e';
        }

    passed : IsStageGraph stages entry → Passes (validate_stages stages entry)
    passed g =
        let (found, e, all_found) = reached-Collects stages entry g.entry_known g.targets_known in
        let (w, e') =
          Decides-found _ _ _ (walk-bounded stages entry g.entry_known g.targets_known) g.bounded in
        let missing =
          Within-none-missing found (stage_ids stages)
            (λ a m. (all_found a).1 (g.all_reachable a m)) in
        (Passes-then _ _).1 (
          (Passes-throw_if _ _).1 g.no_twins,
          (Passes-then _ _).1 (
            (Passes-unless _ _).1 g.entry_known,
            (Passes-then _ _).1 (
              (Passes-for_each _ _ (Passes-check_targets (stage_ids stages)) stages).1
                  g.targets_known,
              >>=-ok _ _ e ∙ (Passes-then _ _).1 ((Passes-throw_if _ _).1 missing, >>=-ok _ _ e'),
            ),
          ),
        )
