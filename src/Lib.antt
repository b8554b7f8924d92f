-- ===== src/Lib.antt =====
-- The pipeline kernel of openthrottle: the reducer that turns a command on a pipeline run into one
-- atomic transition, and the checks of the store that applies it.
--
-- The program. A run of a compiled pipeline is a cursor over the pipeline's stages. Each stage is
-- worked on by attempts, which workers lease; the executor sends commands (start, work complete,
-- record a result, settle, retry, stop, …) to the kernel. `reduceKernelCommand` is a pure function:
-- it checks the command against the run, the current attempt and the records and checkpoints that it
-- cites, and answers with a transition bundle (the new run, the attempts that are written and
-- created, the records and checkpoints to append, the effects to request), or throws. The store
-- applies a bundle only where the versions that it fences still hold, once.
--
-- The files.
-- - Base and its children: the shared names; tests and equality (Tests), arrays (Lists), code that
--   throws (Outcome, Guards), strings (Strings), message bodies (Bodies), sorting and sets (Sort,
--   SortLaws, Distinct), maps (Maps, MapLaws). Search is the depth-first walk with a set of nodes
--   being visited, by which the code looks for cycles in four places, and Worklist the loop that
--   collects the reachable stages; their children have the paths and the lemmas.
-- - Contracts: contracts/src. Json is JsonValue of validation.ts; Formats the regular expressions;
--   Records, Pipeline and Effects the types of records.ts, pipeline.ts and effects.ts with
--   `validateEffectIntent`; Lifecycle is runtime-lifecycle.ts with `expandCompiledRuntimeLifecycle`.
--   Validation has the readers of validation.ts, with what they return read again in
--   Validation/Again; Plan is execution-plan-v2.ts, with its JSON in Plan/Print; Manifest reads the
--   compiled pipelines of pipeline.ts, whose `validateStages` is Manifest/Graph. Replay has
--   `assertSameIdempotentEffect` of effects.ts with its caller in effect-intent.ts. Cases has
--   concrete documents.
-- - Kernel: supervisor/src/pipeline/kernel. Types is types.ts; Support and Cursor are
--   reducer-support.ts, with `assertBaseInput` and `compileKernelCursor`; Evidence is
--   attempt-evidence.ts and effect-intent.ts; Recovery is sandbox-recovery.ts; Resource is
--   runtime-resource.ts; Lifecycle is runtime-lifecycle.ts; Store is store.ts. Steering is
--   steering.ts, and Ancestry checkpoint-ancestry.ts. Successor is `kernelSuccessorStageId` of
--   successor-attempt.ts; Push is github-push-delivery.ts, with `mergeCausalGithubPushContext` of
--   successor-attempt.ts; Evaluators is `evaluateSemantic` of evaluator-registry.ts, and
--   Evaluators/Decisions its decision records.
-- - Kernel/Reducer: reducer.ts. Bundle has the content of a transition, Bundle/Order the order of its
--   records and Bundle/Guards the guards that the commands share; Session the commands `start` and
--   `bind_runtime_session`; Attempt `work_complete`, `result_pending`, `record` and `retry`;
--   External `schedule_external` and `advance_external_subject`, whose evidence is read in
--   External/Advance; Settle `settle` and `correct_and_settle`, with the next attempts' subjects in
--   Settle/Lineage, the pipeline's edges in Settle/Transition and the guards on them in
--   Settle/Guards; Terminal the four commands that end a run, with what they write in
--   Terminal/Writes, the evidence of a cleanup in Terminal/Evidence and the recovery quarantine in
--   Terminal/Quarantine; Dispatch the entry point.
-- - Kernel/Proofs: Step is the relation between the state that a command is given and what it
--   writes, with the guards on that state and without the checks of evidence, in the words of the
--   handlers. Does says, action by action and apart from the handlers' functions, what a command
--   writes. Emits has the rules by which Refines relates each handler to both; the other files derive
--   the kernel's properties from the relation.
-- - Kernel/Scenarios: concrete runs; Kernel/Cases: concrete cursors, messages, chains and
--   results.
--
-- How the code is modelled.
-- - A function that throws returns a Result, whose error is the template of the message, with its
--   `${…}` as written.
-- - Versions, ordinals and indices are natural numbers, so the tests for a negative one are left out.
--   Fields whose type is one literal (`schema`, the barrier's kind) are left out.
-- - Objects and Maps are association lists in the order of insertion. JavaScript's own order of
--   integer-like keys and the keys of the prototype are not modelled. Where a theorem wants a map
--   without repeated keys, it says so.
-- - Strings are lists of UTF-16 code units; numbers inside JSON payloads are kept as printed.
-- - SHA-256 of canonical JSON, the size of canonical JSON and `JSON.parse` are a parameter, the
--   record Platform of Kernel/Types. Nothing is assumed of it.
-- - The handlers return the content of the transition, and the entry point seals it with its hash:
--   in the code each handler calls `bundle` last.
-- - The two kinds of sibling scopes share one record, with the fields that both have.
-- - The recursion of each `visit` is on fuel, one more than the number of nodes, where every call
--   adds a node to those being visited; the loop over pending stages has fuel for each edge, one turn
--   for the entry and one to end; the chain of checkpoints has one turn for each entry and one to
--   end. `appendRecordOrder` loops once for each record.
-- - The sizes of texts in UTF-8 are computed; that of the canonical JSON of a plan and `JSON.parse`
--   are parameters of the plan's readers (the record Encoding of Contracts/Plan), and canonical
--   JSON and its digest of the replay of effects (the record Encoder of Contracts/Replay).
--
-- Not modelled: the coordinators that choose commands, the persistence of the store, the HTTP
-- service, the sandbox runner and the command-line interface, which are input and output around
-- the kernel; of runtime-resource.ts the resolution of pools and slots to sandboxes, of
-- evaluator-registry.ts the results of commands, of successor-attempt.ts the construction of
-- attempts, and of contracts/src the parsers of the other documents and the authored form of
-- pipelines.
pub mod Base
pub mod Contracts
pub mod Kernel
