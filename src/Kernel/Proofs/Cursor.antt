-- ===== src/Kernel/Proofs/Cursor.antt =====
-- compileKernelCursor of supervisor/src/pipeline/kernel/reducer-support.ts.
use openthrottle.Base.{
  suc, ◌≡◌, refl, sym, ap, ◌∙◌, Bool, true, false, List, [], ◌∷◌, map, Text, text_le, Dict, keys,
  lookup, list_eq, list_beq_iff, nat_eq, contains, filter, length, get_or, has_duplicates, sort, ok,
  Ensures, Ensures-bind, Ensures-throw_if, Ensures-ok, arith, Walk, visiting_first, map_each,
  contains-map-sort, map-sort, has_duplicates-map-sort,
}
use openthrottle.Base.Search.Members.{Within}
use openthrottle.Base.Search.Laws.{visiting_first-Finds}
use openthrottle.Base.Search.Decides.{Acyclic, Decides, Decides-ok, walk-Decides}
use openthrottle.Kernel.Types.{KernelAttempt, KernelCursor, KernelFrontierMember}
use openthrottle.Kernel.Support.{frontier_member_key}
use openthrottle.Kernel.Cursor.{
  CursorInput, edges, check_acyclic, frontier_member, compile_kernel_cursor,
}

length-keys : (d : Dict (List Text)) → length (keys d) ≡ length d
unfolding keys
length-keys [] = refl
length-keys ((k, v) ∷ d) = ap suc (length-keys d)

contains-filter :
    (a : Text) (p : Text → Bool) (xs : List Text) → contains a (filter p xs) ≡ true → p a ≡ true
unfolding contains filter
contains-filter a p [] h = cc
contains-filter a p (x ∷ xs) h =
    ground (arith, contains-filter a p xs, list_beq_iff x a, (λ (q : x ≡ a). ap p q))

edges-Within : (graph : Dict (List Text)) (key : Text) → Within (edges graph key) (keys graph)
unfolding edges
edges-Within graph key a m =
    contains-filter a (λ d. contains d (keys graph)) (get_or (lookup key graph) []) m

-- For a graph and a list of exactly its keys, `visit` returns when no member depends on itself
-- through other members, and throws the error about a cycle otherwise; its fuel never runs out.
pub check_acyclic-Decides :
    (graph : Dict (List Text)) (member_keys : List Text)
    → Within member_keys (keys graph)
    → Within (keys graph) member_keys
    → Decides
        (Acyclic (edges graph) member_keys)
        "kernel cursor dependencies contain a cycle"
        (check_acyclic graph member_keys)
unfolding check_acyclic
check_acyclic-Decides graph member_keys inside covered =
    walk-Decides (edges graph) visiting_first "kernel cursor dependencies contain a cycle"
      visiting_first-Finds (keys graph) (λ a m. edges-Within graph a) (suc (length graph))
      member_keys (ground (arith, length-keys graph)) inside covered

-- `dependenciesByKey` of a cursor
abbrev pub dependencies_by_key : List KernelFrontierMember → Dict (List Text)
dependencies_by_key = map (λ (m : KernelFrontierMember). (m.scope_key, m.depends_on))

abbrev keys_of : List KernelFrontierMember → List Text
keys_of = map (λ (m : KernelFrontierMember). m.scope_key)

keys-dependencies_by_key :
    (frontier : List KernelFrontierMember) → keys (dependencies_by_key frontier) ≡ keys_of frontier
unfolding keys
keys-dependencies_by_key [] = refl
keys-dependencies_by_key (m ∷ frontier) = ap (◌∷◌ m.scope_key) (keys-dependencies_by_key frontier)

frontier_member-key :
    (input : CursorInput) (known : List Text) (candidate : KernelAttempt)
    → Ensures
        (λ (m : KernelFrontierMember). m.scope_key ≡ frontier_member_key candidate)
        (frontier_member input known candidate)
unfolding frontier_member
frontier_member-key input known candidate =
    Ensures-throw_if _ _ _
      λ h. Ensures-throw_if _ _ _ λ h. Ensures-throw_if _ _ _ λ h. Ensures-ok _ refl

members-keys :
    (input : CursorInput) (known : List Text) (attempts : List KernelAttempt)
    → Ensures
        (λ (members : List KernelFrontierMember).
          keys_of members ≡ map frontier_member_key attempts)
        (map_each (frontier_member input known) attempts)
unfolding map_each
members-keys input known [] = Ensures-ok [] refl
members-keys input known (a ∷ attempts) = Ensures-bind (frontier_member input known a) _ λ m e.
    Ensures-bind (map_each (frontier_member input known) attempts) _ λ ms es. Ensures-ok (m ∷ ms) (
      ground (
        arith,
        (frontier_member-key input known a).at m e,
        (members-keys input known attempts).at ms es,
      ))

-- What a compiled frontier is: its members are those of the attempts, in the order of their keys,
-- and none depends on itself.
pub record IsFrontierOf (input : CursorInput) (cursor : KernelCursor) : Type 0 where
  pub same_members : keys_of cursor.frontier ≡ sort text_le (map frontier_member_key input.attempts)
  pub no_twins : has_duplicates (keys_of cursor.frontier) ≡ false
  pub acyclic : Acyclic (edges (dependencies_by_key cursor.frontier)) (keys_of cursor.frontier)

abbrev in_order : List KernelFrontierMember → List KernelFrontierMember
in_order = sort (λ (a b : KernelFrontierMember). text_le a.scope_key b.scope_key)

contains-in_order :
    (a : Text) (members : List KernelFrontierMember)
    → contains a (keys (dependencies_by_key (in_order members))) ≡ contains a (keys_of members)
contains-in_order a members =
    ap (contains a) (keys-dependencies_by_key (in_order members))
    ∙ contains-map-sort (λ (m : KernelFrontierMember). m.scope_key) _ a members

frontier-Acyclic :
    (members : List KernelFrontierMember) (w : Walk Text)
    → check_acyclic (dependencies_by_key (in_order members)) (keys_of members) ≡ ok w
    → Acyclic (edges (dependencies_by_key (in_order members))) (keys_of (in_order members))
frontier-Acyclic members w passed a m =
    Decides-ok _ _ _
      (check_acyclic-Decides (dependencies_by_key (in_order members)) (keys_of members)
        (λ b k. contains-in_order b members ∙ k) (λ b k. sym (contains-in_order b members) ∙ k))
      passed a (sym (contains-map-sort (λ (m : KernelFrontierMember). m.scope_key) _ a members) ∙ m)

compiled-IsFrontierOf :
    (input : CursorInput) → Ensures (IsFrontierOf input) (compile_kernel_cursor input)
unfolding compile_kernel_cursor
compiled-IsFrontierOf input = Ensures-throw_if _ _ _ λ some_attempts. Ensures-throw_if _ _ _ λ once.
    Ensures-throw_if _ _ _ λ scopes. Ensures-throw_if _ _ _ λ owners. Ensures-bind _ _ λ members e.
      Ensures-bind _ _ λ w passed.
        let same = (members-keys input _ input.attempts).at members e in
        Ensures-ok _ (record {
          same_members =
              map-sort (λ (m : KernelFrontierMember). m.scope_key) text_le members
              ∙ ap (sort text_le) same;
          no_twins =
              has_duplicates-map-sort (λ (m : KernelFrontierMember). m.scope_key) _ members
              ∙ ap has_duplicates same
              ∙ once;
          acyclic =
              frontier-Acyclic members w
                (ap (check_acyclic (dependencies_by_key (in_order members))) same ∙ passed);
        })

-- When compileKernelCursor returns, the frontier has one member for each attempt, in the order of
-- the scope keys and without a repeated key, and no member depends on itself, directly or through
-- other members.
pub compile_kernel_cursor-IsFrontierOf :
    (input : CursorInput) (cursor : KernelCursor)
    → compile_kernel_cursor input ≡ ok cursor
    → IsFrontierOf input cursor
compile_kernel_cursor-IsFrontierOf input = (compiled-IsFrontierOf input).at
