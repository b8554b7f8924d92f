-- ===== src/Kernel/Ancestry.antt =====
-- Chains of checkpoints (supervisor/src/pipeline/kernel/checkpoint-ancestry.ts).
use openthrottle.Base.{
  ℕ, zero, suc, ◌+◌, Bool, not, ◌||◌, Option, none, some, List, [], ◌∷◌, ◌++◌, map, Text, Dict,
  lookup, keys, ltb, ◌==◌, list_eq, nat_eq, contains, length, Result, ok, err, ◌>>=◌, ◌>>◌,
  throw_if, or_throw, if◌then◌else◌, Walk, visiting_first, walk,
}
pub mod Laws
pub mod Answers

-- KERNEL_CHECKPOINT_ANCESTRY_MAX_ENTRIES
abbrev pub kernel_checkpoint_ancestry_max_entries : ℕ
kernel_checkpoint_ancestry_max_entries = 64

pub record KernelCheckpointAncestryEntry : Type 0 where
  pub checkpoint_id : Text
  pub input_subject : Text
  pub output_subject : Text

-- `byInput`, once the loop over the entries has found no two with one input.
abbrev pub by_input : List KernelCheckpointAncestryEntry → Dict KernelCheckpointAncestryEntry
by_input = map (λ (e : KernelCheckpointAncestryEntry). (e.input_subject, e))

-- The loop over the entries, with the sets that it fills.
unfoldable pub check_entries :
    List Text → List Text → List Text → List KernelCheckpointAncestryEntry → Result (Unit {0})
check_entries ids inputs outputs [] = ok tt
check_entries ids inputs outputs (e ∷ rest) = do
  throw_if (contains e.checkpoint_id ids) "${label} contains a duplicate checkpoint ID"
  throw_if (contains e.input_subject inputs || contains e.output_subject outputs)
      "${label} contains a fork"
  check_entries (e.checkpoint_id ∷ ids) (e.input_subject ∷ inputs) (e.output_subject ∷ outputs) rest

abbrev pub output_of : Option KernelCheckpointAncestryEntry → List Text
output_of none = []
output_of (some e) = e.output_subject ∷ []

-- The subject that `visit` goes on with.
unfoldable pub next_subject : List KernelCheckpointAncestryEntry → Text → List Text
next_subject entries subject = output_of (lookup subject (by_input entries))

-- `while (cursor !== input.end_subject)`; each turn but the last takes another entry.
unfoldable pub follow_chain :
    ℕ
    → List KernelCheckpointAncestryEntry
    → Text
    → Text
    → Result (List KernelCheckpointAncestryEntry)
follow_chain zero entries cursor end_subject = err "follow_chain: out of fuel"
follow_chain (suc fuel) entries cursor end_subject =
    if cursor == end_subject
    then ok []
    else (or_throw (lookup cursor (by_input entries)) "${label} contains a gap" >>= λ e.
        follow_chain fuel entries e.output_subject end_subject >>= λ ordered. ok (e ∷ ordered))

-- validateKernelCheckpointAncestryChain
unfoldable pub validate_kernel_checkpoint_ancestry_chain :
    List KernelCheckpointAncestryEntry → Text → Text → Result (List KernelCheckpointAncestryEntry)
unfolding check_entries walk visiting_first next_subject follow_chain
validate_kernel_checkpoint_ancestry_chain entries start_subject end_subject = do
  throw_if (ltb kernel_checkpoint_ancestry_max_entries (length entries))
      "${label} exceeds 64 checkpoints"
  check_entries [] [] [] entries
  walked ←
      walk (next_subject entries) visiting_first (λ subject. "${label} contains a cycle")
        (suc (length entries + length entries)) (keys (by_input entries))
  ordered ← follow_chain (suc (length entries)) entries start_subject end_subject
  throw_if (not (length ordered == length entries))
      "${label} contains disconnected extra checkpoints"
  ok ordered
