-- ===== src/Kernel/Cases.antt =====
-- Cursors, messages and chains of checkpoints at concrete inputs.
use openthrottle.Contracts.Formats.{is_digest, is_iso_timestamp, is_context_id}
use openthrottle.Base.{
  ◌≡◌, refl, true, none, some, List, [], ◌∷◌, Text, text, Dict, keys, contains, replicate, ok, err,
  list_eq, nat_eq, list_beq, throw_if, ◌>>=◌, or_throw, lookup, filter, is_blank, all,
  normalize_lines, utf8_bytes, pad_start, find, map_each, has_duplicates, decimal, sorted_unique,
  text_le, sorted_record, starts_with, put, sort, for_each,
}
use openthrottle.Base.Search.Decides.{Acyclic, Decides}
use openthrottle.Contracts.Json.{Json, str, obj, end, field, member, member_names, check_json}
use openthrottle.Kernel.Push.{merge_causal_github_push_context}
use openthrottle.Kernel.Push.Context.{HasOwnPush, merge_causal_github_push_context-HasOwnPush}
use openthrottle.Contracts.Pipeline.{RepositoryAuthority}
use openthrottle.Contracts.Records.{
  AttemptState, ExecutionRecord, decision, delivery, inline, confirmed,
}
use openthrottle.Kernel.Types.{KernelAttempt, KernelCursor, KernelFrontierMember, ScopeKind, work}
use openthrottle.Kernel.Support.{frontier_member_key, member_key, attempt_scope_key}
use openthrottle.Kernel.Cursor.{CursorInput, edges, check_acyclic, compile_kernel_cursor}
use openthrottle.Kernel.Proofs.Cursor.{
  check_acyclic-Decides, IsFrontierOf, compile_kernel_cursor-IsFrontierOf,
}
use openthrottle.Kernel.Steering.{
  KernelRuntimeSessionBinding, KernelSteeringEnvelope, human, create_kernel_steering_envelope,
  authorize_kernel_steering_delivery,
}
use openthrottle.Kernel.Steering.Bound.{
  delivered, IsBound, create_kernel_steering_envelope-authorized,
  authorize_kernel_steering_delivery-IsBound,
}
use openthrottle.Kernel.Ancestry.{
  KernelCheckpointAncestryEntry, validate_kernel_checkpoint_ancestry_chain,
}
use openthrottle.Kernel.Ancestry.Answers.{Answer, validate_kernel_checkpoint_ancestry_chain-Answer}
use openthrottle.Kernel.Evaluators.{
  EvalDefinition, EvaluatedKernelResult, repair, semantic_schema, evaluate_semantic,
}
use openthrottle.Kernel.Evaluators.Outcomes.{IsEvaluated, evaluate_semantic-IsEvaluated}
use openthrottle.Contracts.Json.{arr, cons, nil}
use openthrottle.Contracts.Records.{ResultRecord}
use openthrottle.Kernel.Evaluators.Decisions
use openthrottle.Kernel.Evaluators.Decisions.{
  create_pipeline_decision_record, create_pipeline_decision_record-Decides,
}
use openthrottle.Kernel.Types.{Platform}

abbrev sibling : Text → KernelAttempt
sibling name = record {
  id = name;
  pipeline_run_id = text "r";
  scope = record {
    stage_id = text "s";
    kind =
        ScopeKind.loop_item (record {
          parent_attempt_id = text "p";
          group_id = text "g";
          member_id = name;
          index = 0;
        });
  };
  repository_authority = RepositoryAuthority.edit;
  request_hash = replicate 64 102;
  definition_bundle_hash = replicate 64 102;
  input_subject = replicate 40 48;
  context_record_ids = [];
  context_checkpoint_ids = [];
  output_subject = none;
  native_session_id = none;
  status = AttemptState.pending;
  version = 1;
  work_retry_ordinal = 0;
  result_correction_count = 0;
  result_correction_deadline = none;
  lease = none;
  checkpoint_id = none;
  result_record_id = none;
  decision_record_id = none;
  pending_result = none;
}

abbrev compiled_from : CursorInput
compiled_from = record {
  stage_id = text "s";
  version = 1;
  reentries = [];
  attempts = sibling (text "b") ∷ sibling (text "a") ∷ [];
  dependencies = [];
  completed_scope_keys = [];
}

abbrev checkpoints : List KernelCheckpointAncestryEntry
checkpoints =
    (record { checkpoint_id = text "2"; input_subject = text "b"; output_subject = text "c" })
    ∷ (record { checkpoint_id = text "1"; input_subject = text "a"; output_subject = text "b" })
    ∷ []

chain_example :
    validate_kernel_checkpoint_ancestry_chain checkpoints (text "a") (text "c")
    ≡ ok (
        (record { checkpoint_id = text "1"; input_subject = text "a"; output_subject = text "b" })
        ∷ (record { checkpoint_id = text "2"; input_subject = text "b"; output_subject = text "c" })
        ∷ [])
unfolding validate_kernel_checkpoint_ancestry_chain ◌>>=◌ throw_if contains list_beq text keys
    lookup filter or_throw
chain_example = refl

gap_example :
    validate_kernel_checkpoint_ancestry_chain checkpoints (text "b") (text "d")
    ≡ err "${label} contains a gap"
unfolding validate_kernel_checkpoint_ancestry_chain ◌>>=◌ throw_if contains list_beq text keys
    lookup filter or_throw
gap_example = refl

abbrev graph : Dict (List Text)
graph = (text "a", []) ∷ (text "b", text "a" ∷ []) ∷ []

check_acyclic-Decides_example :
    Decides
      (Acyclic (edges graph) (text "a" ∷ text "b" ∷ []))
      "kernel cursor dependencies contain a cycle"
      (check_acyclic graph (text "a" ∷ text "b" ∷ []))
unfolding keys
check_acyclic-Decides_example =
    check_acyclic-Decides graph (text "a" ∷ text "b" ∷ []) (λ a m. m) (λ a m. m)

abbrev binding : KernelRuntimeSessionBinding
binding = record {
  pipeline_run_id = text "r";
  attempt_id = text "a";
  request_hash = replicate 64 102;
  definition_bundle_hash = replicate 64 102;
  input_subject = replicate 40 48;
  native_session_id = text "n";
  scope = record { stage_id = text "s"; kind = ScopeKind.stage };
  generation = 0;
  attempt_status = AttemptState.running;
  repository_authority = RepositoryAuthority.edit;
  lease_id = text "l";
  lease_generation = 1;
  lease_worker_id = text "w";
  lease_purpose = work;
  lease_expires_at = text "2026-01-01T00:00:00.000Z";
  lease_started = true;
}

abbrev envelope : KernelSteeringEnvelope
envelope = record {
  message_id = text "m";
  source = human;
  body = 104 ∷ 10 ∷ 105 ∷ [];
  binding = record {
    pipeline_run_id = text "r";
    attempt_id = text "a";
    request_hash = replicate 64 102;
    definition_bundle_hash = replicate 64 102;
    input_subject = replicate 40 48;
    native_session_id = text "n";
    generation = 0;
    lease_id = text "l";
    lease_generation = 1;
    lease_purpose = work;
  };
}

-- "h\r\ni" becomes "h\ni".
create_returns :
    create_kernel_steering_envelope (text "m") human (104 ∷ 13 ∷ 10 ∷ 105 ∷ []) binding
    ≡ ok envelope
unfolding create_kernel_steering_envelope ◌>>=◌ throw_if is_context_id text all is_digest replicate
    is_iso_timestamp is_blank contains utf8_bytes normalize_lines
create_returns = refl

stale_binding :
    authorize_kernel_steering_delivery envelope (some (record binding { lease_generation = 2 }))
    ≡ err "steering ${mismatch} binding is stale or mismatched"
unfolding authorize_kernel_steering_delivery ◌>>=◌ or_throw throw_if is_context_id text all
    is_digest replicate is_iso_timestamp is_blank contains utf8_bytes list_beq
stale_binding = refl

create_kernel_steering_envelope-authorized_example :
    authorize_kernel_steering_delivery envelope (some binding) ≡ ok (delivered envelope binding)
create_kernel_steering_envelope-authorized_example =
    create_kernel_steering_envelope-authorized (text "m") human (104 ∷ 13 ∷ 10 ∷ 105 ∷ []) binding
      envelope create_returns

authorize_kernel_steering_delivery-IsBound_example :
    IsBound envelope (some binding) (delivered envelope binding)
authorize_kernel_steering_delivery-IsBound_example =
    authorize_kernel_steering_delivery-IsBound envelope (some binding) (delivered envelope binding)
      create_kernel_steering_envelope-authorized_example

validate_kernel_checkpoint_ancestry_chain-Answer_example :
    Answer checkpoints
      (text "a")
      (text "c")
      (validate_kernel_checkpoint_ancestry_chain checkpoints (text "a") (text "c"))
validate_kernel_checkpoint_ancestry_chain-Answer_example =
    validate_kernel_checkpoint_ancestry_chain-Answer checkpoints (text "a") (text "c")

abbrev member_of : Text → KernelFrontierMember
member_of name = record {
  scope_key = frontier_member_key (sibling name);
  attempt_id = name;
  scope = (sibling name).scope;
  depends_on = [];
}

abbrev compiled_cursor : KernelCursor
compiled_cursor = record {
  stage_id = some (text "s");
  version = 1;
  reentries = [];
  frontier = member_of (text "a") ∷ member_of (text "b") ∷ [];
  completed_scope_keys = [];
  barrier = some (record {
    member_scope_keys =
        frontier_member_key (sibling (text "a")) ∷ frontier_member_key (sibling (text "b")) ∷ [];
  });
}

compile_returns : compile_kernel_cursor compiled_from ≡ ok compiled_cursor
unfolding compile_kernel_cursor ◌>>=◌ throw_if has_duplicates list_beq frontier_member_key
    member_key attempt_scope_key text pad_start replicate decimal find keys map_each sorted_unique
    lookup filter text_le sorted_record
compile_returns = refl

compile_kernel_cursor-IsFrontierOf_example : IsFrontierOf compiled_from compiled_cursor
compile_kernel_cursor-IsFrontierOf_example =
    compile_kernel_cursor-IsFrontierOf compiled_from compiled_cursor compile_returns

-- A confirmed push of the branch, and the decision that settled the stage.
abbrev push_envelope : Json
push_envelope = obj (
    field (text "effect_kind") (str (text "github/push-checkpoint@1")) (
      field (text "provider") (str (text "github")) (
        field (text "result")
          (obj (
            field (text "schema") (str (text "openthrottle.github-push-delivery/v1")) (
              field (text "repository") (str (text "o/r")) (
                field (text "ref") (str (text "refs/heads/ot/x")) (
                  field (text "sha") (str (replicate 40 102))
                    (field (text "ref_mode") (str (text "update")) end))))))
          end)))

abbrev push_record : Text → ExecutionRecord
push_record id = delivery (record {
  base = record {
    id = id;
    pipeline_run_id = text "r";
    payload_schema = text "openthrottle.effect-delivery/v1";
    payload = inline push_envelope;
    created_at = [];
  };
  effect_id = text "e";
  idempotency_key = text "k";
  external_identity = text "github:o/r:refs/heads/ot/x";
  status = confirmed;
})

abbrev settled_record : ExecutionRecord
settled_record = decision (record {
  base = record {
    id = text "d";
    pipeline_run_id = text "r";
    payload_schema = text "s";
    payload = inline Json.null;
    created_at = [];
  };
  reducer = text "x";
  input_record_ids = [];
})

-- The push of the settlement takes the place of the inherited one.
merge_returns :
    merge_causal_github_push_context
      (text "r")
      (settled_record ∷ [])
      (push_record (text "p") ∷ [])
      (push_record (text "c") ∷ [])
    ≡ ok (push_record (text "c") ∷ settled_record ∷ [])
unfolding merge_causal_github_push_context ◌>>=◌ throw_if filter list_beq text member put or_throw
    starts_with all replicate sort text_le
merge_returns = refl

merge_causal_github_push_context-HasOwnPush_example :
    HasOwnPush (text "r") (push_record (text "c") ∷ settled_record ∷ [])
merge_causal_github_push_context-HasOwnPush_example =
    merge_causal_github_push_context-HasOwnPush (text "r") (settled_record ∷ [])
      (push_record (text "p") ∷ []) (push_record (text "c") ∷ [])
      (push_record (text "c") ∷ settled_record ∷ []) merge_returns

-- A review that says `success` beside a finding of severity P1.
abbrev review_eval : EvalDefinition
review_eval = record {
  id = text "review";
  evaluator = text "core/review-outcome@1";
  result_id = text "v";
  outcomes = text "success" ∷ text "failure" ∷ [];
}

abbrev review_payload : Json
review_payload = obj (
    field (text "schema") (str semantic_schema) (
      field (text "semantic_schema_id") (str (text "v")) (
        field (text "outcome") (str (text "success")) (
          field (text "payload")
            (obj (
              field (text "findings")
                (arr (cons (obj (field (text "severity") (str (text "P1")) end)) nil)) end))
            (field (text "transformations") (arr nil) end)))))

abbrev reviewed_record : ResultRecord
reviewed_record = record {
  base = record {
    id = text "x";
    pipeline_run_id = text "r";
    payload_schema = semantic_schema;
    payload = inline review_payload;
    created_at = [];
  };
  attempt_id = text "a";
  request_hash = [];
  definition_bundle_hash = [];
  input_subject = [];
  output_subject = none;
  original_candidate_hash = [];
  normalized_candidate_hash = [];
}

abbrev asks_for_repair : EvaluatedKernelResult
asks_for_repair = record {
  evaluator = text "core/review-outcome@1";
  outcome = repair;
  reason = text "blocking_review_finding";
}

evaluate_returns :
    evaluate_semantic (text "review") review_eval reviewed_record ≡ ok asks_for_repair
unfolding evaluate_semantic ◌>>=◌ throw_if list_beq text or_throw for_each member_names contains
    member check_json
evaluate_returns = refl

evaluate_semantic-IsEvaluated_example :
    IsEvaluated (text "review") review_eval reviewed_record asks_for_repair
evaluate_semantic-IsEvaluated_example =
    evaluate_semantic-IsEvaluated (text "review") review_eval reviewed_record asks_for_repair
      evaluate_returns

abbrev digests : Platform
digests = record {
  digest_json = λ value. replicate 64 48;
  digest_content = λ content. replicate 64 48;
  canonical_bytes = λ value. 0;
  parse_json = λ source. none;
}

create_pipeline_decision_record-Decides_example :
    Decisions.Decides
      (sibling (text "a"))
      (some reviewed_record)
      (settled_record ∷ [])
      asks_for_repair
      (create_pipeline_decision_record digests
        (sibling (text "a"))
        (some reviewed_record)
        (settled_record ∷ [])
        asks_for_repair
        (text "t"))
create_pipeline_decision_record-Decides_example =
    create_pipeline_decision_record-Decides digests (sibling (text "a")) (some reviewed_record)
      (settled_record ∷ []) asks_for_repair (text "t")
