-- ===== src/Contracts/Manifest.antt =====
-- Reading compiled pipelines (contracts/src/pipeline.ts).
use openthrottle.Base.{
  ℕ, ◌-◌, ◌≡◌, Bool, true, false, not, ◌&&◌, ◌||◌, Option, none, some, List, [], ◌∷◌, ◌++◌, map,
  Text, text, Dict, lookup, keys, ltb, leb, ◌==◌, list_eq, nat_eq, contains, all, any, drop, length,
  is_empty, is_none, is_some, is_alnum, starts_with, Result, ok, err, ◌>>=◌, ◌>>◌, throw_if,
  or_throw, for_each, if◌then◌else◌, option_to_list, get_or, String,
}
use openthrottle.Contracts.Json.{Json, Fields, member, is_string}
use openthrottle.Contracts.Formats.{is_identifier, is_command_name, is_digest, is_version_reference}
use openthrottle.Contracts.Pipeline.{
  PipelineTerminalOutcome, RepositoryAuthority, Exhaustion, PipelineTransition, PipelineLoopBinding,
  Engine, AgentStage, StageKind, CompiledPipelineStage, CompiledPipelineManifest, claude, codex,
  opencode, inspect, edit,
}
use openthrottle.Contracts.Validation.{
  object_at, string_at, integer_at, array_at, record_at, unique, enum_at, default_max, any_text,
}
use openthrottle.Contracts.Manifest.Graph.{validate_stages}
pub mod Graph
pub mod Laws
pub mod Shape

-- `value === undefined ? undefined : read(value)`
unfoldable pub optional {ℓ} :
    {T : Type ℓ} → (Option Json → Result T) → Option Json → Result (Option T)
optional read none = ok none
optional read (some v) = read (some v) >>= λ t. ok (some t)

-- PIPELINE_TERMINAL_OUTCOMES
abbrev pub terminal_outcomes : Dict PipelineTerminalOutcome
terminal_outcomes =
    (text "completed", PipelineTerminalOutcome.completed)
    ∷ (text "no_change", PipelineTerminalOutcome.no_change)
    ∷ (text "needs_human", PipelineTerminalOutcome.needs_human)
    ∷ (text "failed", PipelineTerminalOutcome.failed)
    ∷ (text "canceled", PipelineTerminalOutcome.canceled)
    ∷ (text "superseded", PipelineTerminalOutcome.superseded)
    ∷ []

abbrev exhaustions : Dict Exhaustion
exhaustions = (text "needs_human", Exhaustion.needs_human) ∷ (text "failed", Exhaustion.failed) ∷ []

-- ENGINES
abbrev engines : Dict Engine
engines = (text "claude", claude) ∷ (text "codex", codex) ∷ (text "opencode", opencode) ∷ []

-- REPOSITORY_AUTHORITIES
abbrev authorities : Dict RepositoryAuthority
authorities = (text "inspect", inspect) ∷ (text "edit", edit) ∷ []

abbrev pub both_or_none : {A B : Type 0} → Option A → Option B → Bool
both_or_none none none = true
both_or_none (some a) (some b) = true
both_or_none _ _ = false

-- transition
unfoldable pub parse_transition : Json → Result PipelineTransition
unfolding object_at optional string_at enum_at integer_at
parse_transition value = do
  input ←
      object_at (some value)
        (text "to" ∷ text "terminal" ∷ text "max_reentries" ∷ text "on_exhausted" ∷ [])
  to ← optional (λ v. string_at v default_max is_identifier) (member (text "to") input)
  terminal ← optional (λ v. enum_at v terminal_outcomes) (member (text "terminal") input)
  throw_if (both_or_none to terminal) "${path}: must define exactly one of to or terminal"
  max_reentries ← optional (λ v. integer_at v 1 100) (member (text "max_reentries") input)
  on_exhausted ← optional (λ v. enum_at v exhaustions) (member (text "on_exhausted") input)
  throw_if (not (both_or_none max_reentries on_exhausted))
      "${path}: max_reentries and on_exhausted must be declared together"
  throw_if (is_some terminal && is_some max_reentries)
      "${path}: terminal transitions cannot re-enter"
  ok (record {
    to = to;
    terminal = terminal;
    max_reentries = max_reentries;
    on_exhausted = on_exhausted;
  })

-- `s.split("/")`
split_slash : Text → List Text
split_slash [] = [] ∷ []
split_slash (c ∷ s) = add (split_slash s)
  where
    add : List Text → List Text
    add [] = []
    add (part ∷ parts) = if c == b'/' then [] ∷ part ∷ parts else (c ∷ part) ∷ parts

-- The segments that stand behind a slash, and those that stand between two.
abbrev behind : List Text → List Text
behind [] = []
behind (part ∷ parts) = parts

drop_last : List Text → List Text
drop_last [] = []
drop_last (part ∷ []) = []
drop_last (part ∷ more ∷ parts) = part ∷ drop_last (more ∷ parts)

-- `s.endsWith(suffix)` with at least one character before it
ends_after : Text → Text → Bool
ends_after suffix s = ltb (length suffix) (length s) && drop (length s - length suffix) s == suffix

-- /^loops\/(?!.*(?:^|\/)\.\.(?:\/|$))(?!.*\/\/)[A-Za-z0-9._/-]+\.ya?ml$/
unfoldable pub is_loop_file : Text → Bool
unfolding split_slash drop_last ends_after
is_loop_file s =
    let rest = drop 6 s in
    starts_with s (text "loops/")
    && not (contains (text "..") (behind (split_slash rest)))
    && not (contains [] (drop_last (behind (split_slash rest))))
    && all (λ c. is_alnum c || c == b'.' || c == b'_' || c == b'/' || c == b'-') rest
    && (ends_after (text ".yml") rest || ends_after (text ".yaml") rest)

-- `segment === "" || segment === "." || segment === ".."`
abbrev is_dot_segment : Text → Bool
is_dot_segment segment = is_empty segment || segment == text "." || segment == text ".."

unfoldable pub parse_identifiers : Option Json → ℕ → ℕ → Result (List Text)
unfolding array_at string_at unique
parse_identifiers value min max =
    array_at value (λ entry. string_at entry default_max is_identifier) min max >>= unique

-- loopBinding
unfoldable pub parse_loop_binding : Option Json → Result PipelineLoopBinding
unfolding object_at optional parse_identifiers string_at is_loop_file split_slash integer_at
parse_loop_binding value = do
  input ←
      object_at value
        (text "over" ∷ text "max_parallel" ∷ text "max_rounds" ∷ text "body" ∷ text "file" ∷ [])
  body ← optional (λ v. parse_identifiers v 1 64) (member (text "body") input)
  file ← optional (λ v. string_at v 300 is_loop_file) (member (text "file") input)
  throw_if (any (λ f. any is_dot_segment (split_slash f)) (option_to_list file))
      "${path}.file: must not contain empty, current-directory, or parent-directory segments"
  throw_if (both_or_none body file) "${path}: must define exactly one of body or file"
  over ← string_at (member (text "over") input) 300 any_text
  max_parallel ← integer_at (member (text "max_parallel") input) 1 64
  max_rounds ← integer_at (member (text "max_rounds") input) 1 100
  ok (record {
    over = over;
    max_parallel = max_parallel;
    max_rounds = max_rounds;
    body = body;
    file = file;
  })

-- `rejectFields`
unfoldable pub reject_fields : Fields → List Text → String → Result (Unit {0})
reject_fields input fields message =
    for_each (λ f. throw_if (is_some (member f input)) message) fields

-- PIPELINE_STAGE_KINDS
pub data StageTag : Type 0 where
  agent_tag command_tag effect_tag wait_tag : StageTag

abbrev stage_tags : Dict StageTag
stage_tags =
    (text "agent", agent_tag)
    ∷ (text "command", command_tag)
    ∷ (text "effect", effect_tag)
    ∷ (text "wait", wait_tag)
    ∷ []

-- The fields of an agent stage.
unfoldable pub parse_agent_stage : Fields → Result AgentStage
unfolding reject_fields parse_identifiers optional string_at enum_at
parse_agent_stage input = do
  reject_fields input (text "command" ∷ text "effect" ∷ text "wait" ∷ [])
      "${path}.${field}: is not valid for an agent stage"
  skills ← parse_identifiers (member (text "skills") input) 0 32
  entry_skill ←
      optional (λ v. string_at v default_max is_identifier) (member (text "entry_skill") input)
  throw_if (any (λ s. not (contains s skills)) (option_to_list entry_skill))
      "${path}.entry_skill: must be included in skills"
  agent_id ← string_at (member (text "agent_id") input) default_max is_identifier
  authority ← enum_at (member (text "repository_authority") input) authorities
  eval ← string_at (member (text "eval") input) default_max is_identifier
  engine ← enum_at (member (text "engine") input) engines
  ok (record {
    agent_id = agent_id;
    repository_authority = authority;
    skills = skills;
    entry_skill = entry_skill;
    eval = eval;
    engine = engine;
  })

-- The part of parseStage behind the fields that all kinds share.
unfoldable pub parse_stage_kind : StageTag → Fields → Result StageKind
unfolding parse_agent_stage
parse_stage_kind agent_tag input = parse_agent_stage input >>= λ a. ok (StageKind.agent a)
parse_stage_kind tag input =
    reject_fields input
      (text "engine"
        ∷ text "agent_id"
        ∷ text "repository_authority"
        ∷ text "skills"
        ∷ text "entry_skill"
        ∷ text "eval"
        ∷ [])
      "${path}.${field}: is valid only for an agent stage"
    >>= λ none_of_agent. other tag
  where
    other : StageTag → Result StageKind
    other command_tag =
        reject_fields input (text "effect" ∷ text "wait" ∷ [])
          "${path}.${field}: is not valid for a command stage"
        >>= λ passed. string_at (member (text "command") input) 80 is_command_name >>= λ name.
            ok (StageKind.command name)
    other effect_tag =
        reject_fields input (text "command" ∷ text "wait" ∷ [])
          "${path}.${field}: is not valid for an effect stage"
        >>= λ passed. string_at (member (text "effect") input) 200 is_version_reference >>= λ name.
            ok (StageKind.effect name)
    other _ =
        reject_fields input (text "command" ∷ text "effect" ∷ [])
          "${path}.${field}: is not valid for a wait stage"
        >>= λ passed. string_at (member (text "wait") input) 200 is_version_reference >>= λ name.
            ok (StageKind.wait name)

abbrev stage_field_names : List Text
stage_field_names =
    text "id"
    ∷ text "kind"
    ∷ text "engine"
    ∷ text "agent_id"
    ∷ text "repository_authority"
    ∷ text "skills"
    ∷ text "entry_skill"
    ∷ text "eval"
    ∷ text "command"
    ∷ text "effect"
    ∷ text "wait"
    ∷ text "loop"
    ∷ text "on"
    ∷ []

-- parseStage, with `compiled`
unfoldable pub parse_stage : Option Json → Result CompiledPipelineStage
unfolding object_at enum_at optional parse_loop_binding record_at parse_transition parse_stage_kind
parse_stage value = do
  input ← object_at value stage_field_names
  tag ← enum_at (member (text "kind") input) stage_tags
  id ← string_at (member (text "id") input) default_max is_identifier
  loop ← optional parse_loop_binding (member (text "loop") input)
  on ← record_at (member (text "on") input) parse_transition 32 80 is_identifier
  throw_if (is_empty (keys on)) "${path}.on: must contain at least one transition"
  kind ← parse_stage_kind tag input
  ok (record { id = id; loop = loop; on = on; kind = kind })

abbrev manifest_field_names : List Text
manifest_field_names =
    text "schema"
    ∷ text "pipeline_id"
    ∷ text "pipeline_version"
    ∷ text "entry_stage"
    ∷ text "definition_bundle_hash"
    ∷ text "compiler_version"
    ∷ text "runtime_capability_digest"
    ∷ text "stages"
    ∷ []

-- validateCompiledPipelineManifest; of the result, the value.
unfoldable pub validate_compiled_pipeline_manifest : Option Json → Result CompiledPipelineManifest
unfolding parse_stage validate_stages
validate_compiled_pipeline_manifest value = do
  input ← object_at value manifest_field_names
  throw_if
      (not (
        is_string (member (text "schema") input)
          (text "openthrottle.compiled-pipeline-manifest/v1")))
      "${source}.schema: must be openthrottle.compiled-pipeline-manifest/v1"
  entry_stage ← string_at (member (text "entry_stage") input) default_max is_identifier
  stages ← array_at (member (text "stages") input) parse_stage 1 256
  validate_stages stages entry_stage
  pipeline_id ← string_at (member (text "pipeline_id") input) default_max is_identifier
  pipeline_version ← integer_at (member (text "pipeline_version") input) 1 1000000
  definition_bundle_hash ←
      string_at (member (text "definition_bundle_hash") input) default_max is_digest
  compiler_version ← string_at (member (text "compiler_version") input) 200 is_version_reference
  runtime_capability_digest ←
      string_at (member (text "runtime_capability_digest") input) default_max is_digest
  ok (record {
    pipeline_id = pipeline_id;
    pipeline_version = pipeline_version;
    entry_stage = entry_stage;
    definition_bundle_hash = definition_bundle_hash;
    compiler_version = compiler_version;
    runtime_capability_digest = runtime_capability_digest;
    stages = stages;
  })

-- validatePipelineLoopDefinition; of the result, the id and the body.
unfoldable pub validate_pipeline_loop_definition : Option Json → Result (Text × List Text)
unfolding object_at string_at parse_identifiers
validate_pipeline_loop_definition value = do
  input ← object_at value (text "schema" ∷ text "id" ∷ text "body" ∷ [])
  throw_if (not (is_string (member (text "schema") input) (text "openthrottle.pipeline-loop/v1")))
      "${source}.schema: must be openthrottle.pipeline-loop/v1"
  id ← string_at (member (text "id") input) default_max is_identifier
  body ← parse_identifiers (member (text "body") input) 1 64
  ok (id, body)
