-- ===== src/Kernel/Ancestry/Answers.antt =====
-- The answers of validateKernelCheckpointAncestryChain
-- (supervisor/src/pipeline/kernel/checkpoint-ancestry.ts).
use openthrottle.Base.{
  suc, ◌+◌, ◌≤◌, ◌≡◌, refl, sym, ap, ◌∙◌, inl, inr, subst, Bool, true, false, not, List, [], ◌∷◌,
  ◌++◌, Text, keys, list_eq, nat_eq, contains, length, distinct, distinct_from, has_duplicates,
  has_duplicates-distinct_from, map, Ensures, Ensures-ok, Ensures-throw_if, Result, ok, err, ◌>>=◌,
  ◌>>◌, throw_if, arith, Walk, visiting_first, walk, String,
}
use openthrottle.Base.Search.Members.{Within, distinct-covers}
use openthrottle.Base.Search.Laws.{visiting_first-Finds, Searched, walk-Searched}
use openthrottle.Base.Search.Decides.{Acyclic}
use openthrottle.Kernel.Ancestry.{
  KernelCheckpointAncestryEntry, by_input, next_subject, check_entries,
  validate_kernel_checkpoint_ancestry_chain,
}
use openthrottle.Kernel.Ancestry.Laws.{
  inputs, outputs, keys-by_input, length-inputs, length-outputs, length-append, contains-append,
  next-Within, Links, IsChain, Chained, follow_chain-start, Messages,
}

abbrev ids : List KernelCheckpointAncestryEntry → List Text
ids = map (λ (e : KernelCheckpointAncestryEntry). e.checkpoint_id)

-- Entries without a repeated checkpoint, input or output.
pub record NoForks (entries : List KernelCheckpointAncestryEntry) : Type 0 where
  pub once_each : has_duplicates (ids entries) ≡ false
  pub no_fork : has_duplicates (inputs entries) ≡ false
  pub no_join : has_duplicates (outputs entries) ≡ false

Passed : List Text → List Text → List Text → List KernelCheckpointAncestryEntry → Type 0
Passed seen ins outs entries =
    (distinct_from seen (ids entries) ≡ true)
    × (distinct_from ins (inputs entries) ≡ true)
    × (distinct_from outs (outputs entries) ≡ true)

check_entries-Passed :
    (seen ins outs : List Text) (entries : List KernelCheckpointAncestryEntry)
    → Ensures (λ done. Passed seen ins outs entries) (check_entries seen ins outs entries)
unfolding check_entries distinct_from Passed
check_entries-Passed seen ins outs [] = Ensures-ok tt (refl, refl, refl)
check_entries-Passed seen ins outs (e ∷ entries) = Ensures-throw_if _ _ _ λ new.
    Ensures-throw_if _ _ _ λ apart. record {
      at = λ done h.
          let (a, b, c) = (check_entries-Passed _ _ _ entries).at done h in
          (ground arith, ground arith, ground arith);
    }

check_entries-NoForks :
    (entries : List KernelCheckpointAncestryEntry) (done : Unit {0})
    → check_entries [] [] [] entries ≡ ok done
    → NoForks entries
unfolding Passed
check_entries-NoForks entries done h =
    let (a, b, c) = (check_entries-Passed [] [] [] entries).at done h in
    record {
      once_each = has_duplicates-distinct_from (ids entries) ∙ ap not a;
      no_fork = has_duplicates-distinct_from (inputs entries) ∙ ap not b;
      no_join = has_duplicates-distinct_from (outputs entries) ∙ ap not c;
    }

-- The chain that is returned.
pub record IsAncestry (entries : List KernelCheckpointAncestryEntry) (start end_subject : Text)
    (ordered : List KernelCheckpointAncestryEntry) : Type 0 where
  pub no_forks : NoForks entries
  pub links : Links start ordered end_subject
  pub once : distinct (inputs ordered) ≡ true
  pub all_given : Within (inputs ordered) (inputs entries)
  pub all_used : Within (inputs entries) (inputs ordered)
  pub same_length : length ordered ≡ length entries
  pub bound : length ordered ≤ 64

module _ (entries : List KernelCheckpointAncestryEntry) (start end_subject : Text) where
  -- A chain, or one of the errors that the code throws.
  abbrev pub Answer : Result (List KernelCheckpointAncestryEntry) → Type 0
  Answer (ok ordered) = IsAncestry entries start end_subject ordered
  Answer (err m) = Messages m

  Answer-throw_if :
      (b : Bool) (m : String) (r : Result (List KernelCheckpointAncestryEntry))
      → Messages m
      → (b ≡ false → Answer r)
      → Answer (throw_if b m >> r)
  unfolding throw_if ◌>>=◌
  Answer-throw_if true m r said go = said
  Answer-throw_if false m r said go = go refl

  Answer-bind :
      {B : Type 0} (first : Result B) (rest : B → Result (List KernelCheckpointAncestryEntry))
      → ((m : String) → first ≡ err m → Messages m)
      → ((b : B) → first ≡ ok b → Answer (rest b))
      → Answer (first >>= rest)
  unfolding ◌>>=◌
  Answer-bind (ok b) rest said go = go b refl
  Answer-bind (err m) rest said go = said m refl

  finished :
      (acyclic : Acyclic (next_subject entries) (inputs entries))
      (ordered : List KernelCheckpointAncestryEntry)
      → NoForks entries
      → length entries ≤ 64
      → IsChain entries acyclic start end_subject ordered
      → length ordered ≡ length entries
      → IsAncestry entries start end_subject ordered
  finished acyclic ordered no_forks few c same = record {
    no_forks = no_forks;
    links = c.links;
    once = c.once;
    all_given = c.inside;
    all_used =
        distinct-covers (inputs ordered) (inputs entries) c.once c.inside
          (length-inputs ordered ∙ same ∙ sym (length-inputs entries));
    same_length = same;
    bound = ground (arith, few, same);
  }

err_injective : {B : Type 0} (m n : String) → ◌≡◌ {A = Result B} (err m) (err n) → m ≡ n
err_injective m n e = cc

Says-throw_if :
    {B : Type 0} (b : Bool) (message : String) (r : Result B)
    → Messages message
    → ((m : String) → r ≡ err m → Messages m)
    → (m : String) → (throw_if b message >> r) ≡ err m
    → Messages m
unfolding throw_if ◌>>=◌
Says-throw_if true message r said go m h = subst Messages (err_injective message m h) said
Says-throw_if false message r said go m h = go m h

Says-ok : (m : String) → ◌≡◌ {A = Result (Unit {0})} (ok tt) (err m) → Messages m
Says-ok m h = elim (never h) [ ]
  where
    never : ◌≡◌ {A = Result (Unit {0})} (ok tt) (err m) → ⊥
    never e = cc

check_entries-said :
    (ids ins outs : List Text) (entries : List KernelCheckpointAncestryEntry) (m : String)
    → check_entries ids ins outs entries ≡ err m
    → Messages m
unfolding check_entries
check_entries-said ids ins outs [] = Says-ok
check_entries-said ids ins outs (e ∷ entries) =
    Says-throw_if _ _ _ (inr (inl refl))
      (Says-throw_if _ _ _ (inr (inr (inl refl))) (check_entries-said _ _ _ entries))

keys-Acyclic :
    (entries : List KernelCheckpointAncestryEntry)
    → Acyclic (next_subject entries) (keys (by_input entries))
    → Acyclic (next_subject entries) (inputs entries)
keys-Acyclic entries = subst (Acyclic (next_subject entries)) (keys-by_input entries)

length-both :
    (entries : List KernelCheckpointAncestryEntry)
    → length (inputs entries ++ outputs entries) ≡ length entries + length entries
length-both entries =
    length-append (inputs entries) (outputs entries)
    ∙ ground (arith, length-inputs entries, length-outputs entries)

walk-entries :
    (entries : List KernelCheckpointAncestryEntry)
    → Searched
        (next_subject entries)
        visiting_first
        (λ subject. "${label} contains a cycle")
        visiting_first-Finds
        (inputs entries ++ outputs entries)
        (λ a m. next-Within entries a)
        (keys (by_input entries))
        (walk
          (next_subject entries)
          visiting_first
          (λ subject. "${label} contains a cycle")
          (suc (length entries + length entries))
          (keys (by_input entries)))
walk-entries entries =
    walk-Searched (next_subject entries) visiting_first _ visiting_first-Finds
      (inputs entries ++ outputs entries) (λ a m. next-Within entries a) _ (keys (by_input entries))
      (ground (arith, length-both entries))
      (λ a m. ground (
        arith,
        contains-append a (inputs entries) (outputs entries),
        ap (contains a) (keys-by_input entries),
      ))

Searched-said :
    (entries : List KernelCheckpointAncestryEntry) (r : Result (Walk Text))
    → Searched
        (next_subject entries)
        visiting_first
        (λ subject. "${label} contains a cycle")
        visiting_first-Finds
        (inputs entries ++ outputs entries)
        (λ a m. next-Within entries a)
        (keys (by_input entries))
        r
    → (m : String) → r ≡ err m
    → Messages m
Searched-said entries (ok w) s m h = elim (never h) [ ]
  where
    never : ok w ≡ err m → ⊥
    never e = cc
Searched-said entries (err n) (k, same, known, cycle) m h =
    inr (inr (inr (inl (sym (err_injective n m h) ∙ same))))

Searched-Acyclic :
    (entries : List KernelCheckpointAncestryEntry) (r : Result (Walk Text)) (w : Walk Text)
    → Searched
        (next_subject entries)
        visiting_first
        (λ subject. "${label} contains a cycle")
        visiting_first-Finds
        (inputs entries ++ outputs entries)
        (λ a m. next-Within entries a)
        (keys (by_input entries))
        r
    → r ≡ ok w
    → Acyclic (next_subject entries) (inputs entries)
Searched-Acyclic entries (ok v) w s h = keys-Acyclic entries s
Searched-Acyclic entries (err n) w s h = elim (never h) [ ]
  where
    never : err n ≡ ok w → ⊥
    never e = cc

Chained-said :
    (entries : List KernelCheckpointAncestryEntry)
    (acyclic : Acyclic (next_subject entries) (inputs entries)) (start end_subject : Text)
    (r : Result (List KernelCheckpointAncestryEntry))
    → Chained entries acyclic start end_subject r
    → (m : String) → r ≡ err m
    → Messages m
Chained-said entries acyclic start end_subject (ok o) c m h = elim (never h) [ ]
  where
    never : ok o ≡ err m → ⊥
    never e = cc
Chained-said entries acyclic start end_subject (err n) c m h =
    inr (inr (inr (inr (inl (sym (err_injective n m h) ∙ c)))))

Chained-IsChain :
    (entries : List KernelCheckpointAncestryEntry)
    (acyclic : Acyclic (next_subject entries) (inputs entries)) (start end_subject : Text)
    (r : Result (List KernelCheckpointAncestryEntry)) (ordered : List KernelCheckpointAncestryEntry)
    → Chained entries acyclic start end_subject r
    → r ≡ ok ordered
    → IsChain entries acyclic start end_subject ordered
Chained-IsChain entries acyclic start end_subject (ok o) ordered c h =
    subst (IsChain entries acyclic start end_subject) (same h) c
  where
    same : ok o ≡ ok ordered → o ≡ ordered
    same e = cc
Chained-IsChain entries acyclic start end_subject (err n) ordered c h = elim (never h) [ ]
  where
    never : err n ≡ ok ordered → ⊥
    never e = cc

-- The chain comes in every case where no error of the code does: at most 64 entries that lead, each
-- from the output of the one before, from the start subject to the end subject, that have no input
-- subject twice and use every entry given, where no two entries share a checkpoint, an input or an
-- output. Otherwise the answer is one of the six errors of the code.
pub validate_kernel_checkpoint_ancestry_chain-Answer :
    (entries : List KernelCheckpointAncestryEntry) (start end_subject : Text)
    → Answer entries start end_subject
        (validate_kernel_checkpoint_ancestry_chain entries start end_subject)
unfolding validate_kernel_checkpoint_ancestry_chain
validate_kernel_checkpoint_ancestry_chain-Answer entries start end_subject =
    Answer-throw_if entries start end_subject _ _ _ (inl refl) λ few.
      Answer-bind entries start end_subject _ _ (check_entries-said [] [] [] entries) λ checked e0.
        Answer-bind entries start end_subject _ _ (Searched-said entries _ (walk-entries entries))
          λ w e1.
            let acyclic = Searched-Acyclic entries _ w (walk-entries entries) e1 in
            let chain = follow_chain-start entries acyclic start end_subject in
            Answer-bind entries start end_subject _ _
              (Chained-said entries acyclic start end_subject _ chain)
              λ ordered e2.
                Answer-throw_if entries start end_subject _ _ _ (inr (inr (inr (inr (inr refl)))))
                  λ same.
                    finished entries start end_subject acyclic ordered
                      (check_entries-NoForks entries checked e0) (ground (arith, few))
                      (Chained-IsChain entries acyclic start end_subject _ ordered chain e2)
                      (ground (arith, same))
