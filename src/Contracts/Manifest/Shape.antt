-- ===== src/Contracts/Manifest/Shape.antt =====
-- The shape of the transitions and stages that are read (transition, parseStage and
-- validateCompiledPipelineManifest of contracts/src/pipeline.ts).
use openthrottle.Base.{
  ℕ, suc, ◌≡◌, refl, Bool, true, not, ◌&&◌, Option, none, some, List, [], ◌∷◌, Text, Dict, keys,
  leb, all, is_empty, is_some, arith, Result, ok, map_each, Ensures, Ensures-ok, Ensures-bind,
  Ensures-throw_if, Ensures-err, list_eq, nat_eq,
}
use openthrottle.Contracts.Json.{Json, num, arr}
use openthrottle.Contracts.Pipeline.{
  PipelineTransition, CompiledPipelineStage, CompiledPipelineManifest,
}
use openthrottle.Contracts.Validation.{array_at, record_at, record_entries, integer_at, members}
use openthrottle.Contracts.Manifest.{
  both_or_none, optional, parse_transition, parse_stage, validate_compiled_pipeline_manifest,
}
use openthrottle.Contracts.Manifest.Laws.{IsStageGraph, validate_stages-IsStageGraph}

abbrev within_bound : Option ℕ → Bool
within_bound none = true
within_bound (some n) = leb 1 n && leb n 100

-- Exactly one of a target and an outcome, a bound only with a way out of it and only on an edge that
-- goes on, and the bound between 1 and 100.
abbrev pub is_transition : PipelineTransition → Bool
is_transition t =
    not (both_or_none t.to t.terminal)
    && both_or_none t.max_reentries t.on_exhausted
    && not (is_some t.terminal && is_some t.max_reentries)
    && within_bound t.max_reentries

-- A stage with transitions, all of that shape.
abbrev pub has_transitions : CompiledPipelineStage → Bool
has_transitions s =
    not (is_empty (keys s.on))
    && all (λ (edge : Text × PipelineTransition). is_transition edge.1) s.on

integer_at-bound :
    (value : Option Json) (min max : ℕ)
    → Ensures (λ n. (leb min n && leb n max) ≡ true) (integer_at value min max)
unfolding integer_at
integer_at-bound (some (num s)) min max =
    Ensures-throw_if _ _ _ λ h. Ensures-ok _ (ground (arith, h))
integer_at-bound none min max = Ensures-err _
integer_at-bound (some v) min max = Ensures-err _

optional-bound :
    (value : Option Json)
    → Ensures (λ o. within_bound o ≡ true) (optional (λ v. integer_at v 1 100) value)
unfolding optional
optional-bound none = Ensures-ok none refl
optional-bound (some v) =
    Ensures-bind _ _ λ n e. Ensures-ok (some n) ((integer_at-bound (some v) 1 100).at n e)

parse_transition-shape :
    (value : Json) → Ensures (λ t. is_transition t ≡ true) (parse_transition value)
unfolding parse_transition
parse_transition-shape value = Ensures-bind _ _ λ input e0. Ensures-bind _ _ λ to e1.
    Ensures-bind _ _ λ terminal e2. Ensures-throw_if _ _ _ λ one.
      Ensures-bind _ _ λ max_reentries e3. Ensures-bind _ _ λ on_exhausted e4.
        Ensures-throw_if _ _ _ λ together. Ensures-throw_if _ _ _ λ going_on.
          let bound = (optional-bound _).at max_reentries e3 in
          Ensures-ok _ (ground (arith, one, together, going_on, bound))

module _ {ℓ κ} {A : Type κ} {T : Type ℓ} (p : T → Bool) where
  map_each-all :
      (f : A → Result T)
      → ((a : A) → Ensures (λ t. p t ≡ true) (f a))
      → (xs : List A) → Ensures (λ ts. all p ts ≡ true) (map_each f xs)
  unfolding map_each all
  map_each-all f h [] = Ensures-ok [] refl
  map_each-all f h (x ∷ xs) = Ensures-bind _ _ λ t e.
      Ensures-bind _ _
        λ ts es. Ensures-ok (t ∷ ts) (ground (arith, (h x).at t e, (map_each-all f h xs).at ts es))

module _ {ℓ} {T : Type ℓ} (p : T → Bool) where
  array_at-all :
      (parse : Option Json → Result T)
      → ((v : Option Json) → Ensures (λ t. p t ≡ true) (parse v))
      → (value : Option Json) (min max : ℕ)
      → Ensures (λ ts. all p ts ≡ true) (array_at value parse min max)
  unfolding array_at
  array_at-all parse h (some (arr xs)) min max =
      Ensures-throw_if _ _ _
        λ long. map_each-all p (λ x. parse (some x)) (λ x. h (some x)) (members xs)
  array_at-all parse h none min max = Ensures-err _
  array_at-all parse h (some v) min max = Ensures-err _

  record_entries-all :
      (parse : Json → Result T)
      → ((v : Json) → Ensures (λ t. p t ≡ true) (parse v))
      → (max key_max : ℕ) (pattern : Text → Bool) (count : ℕ) (entries : Dict Json)
      → Ensures
          (λ d. all (λ (e : Text × T). p e.1) d ≡ true)
          (record_entries parse max key_max pattern count entries)
  unfolding record_entries all
  record_entries-all parse h max key_max pattern count [] = Ensures-ok [] refl
  record_entries-all parse h max key_max pattern count ((key, entry) ∷ rest) =
      Ensures-throw_if _ _ _ λ few. Ensures-throw_if _ _ _ λ short. Ensures-throw_if _ _ _ λ good.
        Ensures-bind _ _ λ v e. Ensures-bind _ _ λ d es. Ensures-ok ((key, v) ∷ d) (
          ground (
            arith,
            (h entry).at v e,
            (record_entries-all parse h max key_max pattern (suc count) rest).at d es,
          ))

  record_at-all :
      (parse : Json → Result T)
      → ((v : Json) → Ensures (λ t. p t ≡ true) (parse v))
      → (value : Option Json) (max key_max : ℕ) (pattern : Text → Bool)
      → Ensures
          (λ d. all (λ (e : Text × T). p e.1) d ≡ true)
          (record_at value parse max key_max pattern)
  unfolding record_at
  record_at-all parse h none max key_max pattern = Ensures-err _
  record_at-all parse h (some v) max key_max pattern =
      Ensures-bind _ _ λ input e. record_entries-all parse h max key_max pattern 0 _

parse_stage-shape :
    (value : Option Json) → Ensures (λ s. has_transitions s ≡ true) (parse_stage value)
unfolding parse_stage
parse_stage-shape value = Ensures-bind _ _ λ input e0. Ensures-bind _ _ λ tag e1.
    Ensures-bind _ _ λ id e2. Ensures-bind _ _ λ loop e3. Ensures-bind _ _ λ on e4.
      Ensures-throw_if _ _ _ λ some_edge. Ensures-bind _ _ λ kind e5.
        let shapes =
          (record_at-all is_transition parse_transition parse_transition-shape _ 32 80 _).at on
            e4 in
        Ensures-ok _ (ground (arith, some_edge, shapes))

-- What a manifest that is accepted promises to the kernel.
pub record IsManifest (m : CompiledPipelineManifest) : Type 0 where
  pub graph : IsStageGraph m.stages m.entry_stage
  pub shapes : all has_transitions m.stages ≡ true

validated-IsManifest :
    (value : Option Json) → Ensures IsManifest (validate_compiled_pipeline_manifest value)
unfolding validate_compiled_pipeline_manifest
validated-IsManifest value = Ensures-bind _ _ λ input e0. Ensures-throw_if _ _ _ λ schema.
    Ensures-bind _ _ λ entry_stage e1. Ensures-bind _ _ λ stages e2. Ensures-bind _ _ λ passed e3.
      Ensures-bind _ _ λ pipeline_id e4. Ensures-bind _ _ λ pipeline_version e5.
        Ensures-bind _ _ λ hash e6. Ensures-bind _ _ λ compiler e7. Ensures-bind _ _ λ digest e8.
          Ensures-ok _ (record {
            graph = (validate_stages-IsStageGraph stages entry_stage).0 e3;
            shapes =
                (array_at-all has_transitions parse_stage parse_stage-shape _ 1 256).at stages e2;
          })

-- In a manifest that validateCompiledPipelineManifest returns, the stages form a graph as above, and
-- every stage has transitions, each with exactly one of a target and an outcome, and with a bound on
-- re-entries, of 1 to 100, exactly where it says how it ends when the bound is reached.
pub validate_compiled_pipeline_manifest-IsManifest :
    (value : Option Json) (m : CompiledPipelineManifest)
    → validate_compiled_pipeline_manifest value ≡ ok m
    → IsManifest m
validate_compiled_pipeline_manifest-IsManifest value = (validated-IsManifest value).at
