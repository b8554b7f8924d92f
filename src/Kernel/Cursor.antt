-- ===== src/Kernel/Cursor.antt =====
-- Building a cursor from the attempts of a stage (compileKernelCursor of
-- supervisor/src/pipeline/kernel/reducer-support.ts).
use openthrottle.Base.{
  ℕ, suc, not, some, List, [], ◌++◌, map, Text, text_le, Dict, keys, lookup, sorted_record, ◌==◌,
  nat_eq, list_eq, contains, find, truthy, is_some, filter, is_empty, has_duplicates, get_or,
  length, sort, sorted_unique, Result, ok, ◌>>=◌, ◌>>◌, throw_if, map_each, Walk, visiting_first,
  walk,
}
use openthrottle.Kernel.Types.{KernelAttempt, KernelCursor, KernelFrontierMember}
use openthrottle.Kernel.Support.{attempt_scope_key, frontier_member_key}

pub record CursorInput : Type 0 where
  pub stage_id : Text
  pub version : ℕ
  pub reentries : Dict ℕ
  pub attempts : List KernelAttempt
  pub dependencies : Dict (List Text)
  pub completed_scope_keys : List Text

-- `dependenciesByKey.get(key) ?? []`, without the keys that `dependenciesByKey` lacks
unfoldable pub edges : Dict (List Text) → Text → List Text
edges graph key = filter (λ d. contains d (keys graph)) (get_or (lookup key graph) [])

-- `for (const key of memberKeys) visit(key)`, with fuel for each member and one more.
unfoldable pub check_acyclic : Dict (List Text) → List Text → Result (Walk Text)
unfolding walk edges visiting_first
check_acyclic graph member_keys =
    walk (edges graph) visiting_first (λ key. "kernel cursor dependencies contain a cycle")
      (suc (length graph)) member_keys

-- The function that `input.attempts` is mapped by.
unfoldable pub frontier_member :
    CursorInput → List Text → KernelAttempt → Result KernelFrontierMember
frontier_member input known candidate = do
  throw_if (not (candidate.scope.stage_id == input.stage_id))
      "kernel cursor member ${candidate.id} targets another stage"
  let scope_key = frontier_member_key candidate
  let dependencies = sorted_unique (get_or (lookup scope_key input.dependencies) [])
  throw_if (contains scope_key dependencies)
      "kernel cursor member ${scopeKey} cannot depend on itself"
  throw_if (is_some (truthy (find (λ d. not (contains d known)) dependencies)))
      "kernel cursor dependency ${unknown} is unavailable"
  ok (record {
    scope_key = scope_key;
    attempt_id = candidate.id;
    scope = candidate.scope;
    depends_on = dependencies;
  })

-- compileKernelCursor
unfoldable pub compile_kernel_cursor : CursorInput → Result KernelCursor
unfolding frontier_member check_acyclic
compile_kernel_cursor input = do
  throw_if (is_empty input.attempts) "kernel cursor frontier cannot be empty"
  let completed = sorted_unique input.completed_scope_keys
  let member_keys = map frontier_member_key input.attempts
  throw_if (has_duplicates member_keys) "kernel cursor frontier scope keys must be unique"
  throw_if (has_duplicates (map (λ (a : KernelAttempt). attempt_scope_key a.scope) input.attempts))
      "kernel cursor frontier logical scopes must be unique"
  throw_if (is_some (truthy (find (λ k. not (contains k member_keys)) (keys input.dependencies))))
      "kernel cursor dependencies name unknown member ${unknownDependencyOwner}"
  members ← map_each (frontier_member input (member_keys ++ completed)) input.attempts
  let frontier = sort (λ (a b : KernelFrontierMember). text_le a.scope_key b.scope_key) members
  walk ←
      check_acyclic (map (λ (m : KernelFrontierMember). (m.scope_key, m.depends_on)) frontier)
        member_keys
  ok (record {
    stage_id = some input.stage_id;
    version = input.version;
    reentries = sorted_record input.reentries;
    frontier = frontier;
    completed_scope_keys = completed;
    barrier = some (record { member_scope_keys = sorted_unique member_keys });
  })
