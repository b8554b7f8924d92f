-- ===== src/Contracts/Pipeline.antt =====
-- Compiled pipelines (contracts/src/pipeline.ts).
use openthrottle.Base.{ℕ, Bool, true, false, Option, List, Text, Dict, ◌==◌, list_eq, nat_eq}

pub data PipelineTerminalOutcome : Type 0 where
  completed no_change needs_human failed canceled superseded : PipelineTerminalOutcome

pub data RepositoryAuthority : Type 0 where
  inspect edit : RepositoryAuthority

pub data Exhaustion : Type 0 where
  needs_human failed : Exhaustion

pub record PipelineTransition : Type 0 where
  pub to : Option Text
  pub terminal : Option PipelineTerminalOutcome
  pub max_reentries : Option ℕ
  pub on_exhausted : Option Exhaustion

pub record PipelineLoopBinding : Type 0 where
  pub over : Text
  pub max_parallel : ℕ
  pub max_rounds : ℕ
  pub body : Option (List Text)
  pub file : Option Text

pub data Engine : Type 0 where
  claude codex opencode : Engine

pub record AgentStage : Type 0 where
  pub agent_id : Text
  pub repository_authority : RepositoryAuthority
  pub skills : List Text
  pub entry_skill : Option Text
  pub eval : Text
  pub engine : Engine

pub data StageKind : Type 0 where
  agent : AgentStage → StageKind
  command effect wait : Text → StageKind

pub record CompiledPipelineStage : Type 0 where
  pub id : Text
  pub loop : Option PipelineLoopBinding
  pub on : Dict PipelineTransition
  pub kind : StageKind

pub record CompiledPipelineManifest : Type 0 where
  pub pipeline_id : Text
  pub pipeline_version : ℕ
  pub entry_stage : Text
  pub definition_bundle_hash : Text
  pub compiler_version : Text
  pub runtime_capability_digest : Text
  pub stages : List CompiledPipelineStage

-- `stage.kind === "effect"`, and so on
abbrev pub is_effect : StageKind → Bool
is_effect (effect e) = true
is_effect _ = false

abbrev pub is_wait : StageKind → Bool
is_wait (wait w) = true
is_wait _ = false

abbrev pub is_agent : StageKind → Bool
is_agent (agent a) = true
is_agent _ = false

-- `stage.kind === "effect" && stage.effect === name`
abbrev pub runs_effect : StageKind → Text → Bool
runs_effect (effect e) name = e == name
runs_effect _ name = false

abbrev pub is_edit : RepositoryAuthority → Bool
is_edit edit = true
is_edit inspect = false

unfoldable pub authority_beq : RepositoryAuthority → RepositoryAuthority → Bool
authority_beq inspect inspect = true
authority_beq edit edit = true
authority_beq _ _ = false
