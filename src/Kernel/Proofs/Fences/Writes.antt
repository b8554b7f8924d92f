-- ===== src/Kernel/Proofs/Fences/Writes.antt =====
-- The writes of a command that ends every active attempt, against the versions that they fence.
use openthrottle.Base.{
  ℕ, ◌+◌, ◌≡◌, refl, ap, sym, ◌∙◌, Bool, true, false, Option, none, some, [], ◌∷◌, map, Text, Dict,
  keys, lookup, sorted_record, distinct, all, contains, sort, sort_texts, text_le, arith, ◌==◌,
  list_eq, nat_eq, option_eq, list_beq_iff, option_beq_iff, ok, ◌>>=◌, throw_if, for_each, keys-map,
  keys-sorted_record, lookup-sorted_record, sort-sort, distinct-map-sort,
}
use openthrottle.Contracts.Records.{AttemptState}
use openthrottle.Kernel.Types.{KernelAttempt}
use openthrottle.Kernel.Reducer.Bundle.{write_id}
use openthrottle.Kernel.Reducer.Terminal.{terminal_write, terminated, terminal_attempt_write}
use openthrottle.Kernel.Store.{assert_write}

-- Each entry of `d` is what `m` answers at its key.
unfoldable pub agrees : Dict ℕ → Dict ℕ → Bool
agrees m d = all (λ entry. lookup entry.0 m == some entry.1) d

agrees-cons :
    (k : Text) (v : ℕ) (m d : Dict ℕ)
    → contains k (keys d) ≡ false
    → agrees m d ≡ true
    → agrees ((k, v) ∷ m) d ≡ true
unfolding agrees all lookup contains keys
agrees-cons k v m [] h e = refl
agrees-cons k v m ((j, w) ∷ d) h e =
    ground (arith, agrees-cons k v m d, list_beq_iff k j, list_beq_iff j k)

pub agrees_self : (d : Dict ℕ) → distinct (keys d) ≡ true → agrees d d ≡ true
unfolding agrees all lookup distinct keys
agrees_self [] h = refl
agrees_self ((k, v) ∷ d) h =
    ground (
      arith,
      agrees_self d,
      agrees-cons k v d d,
      list_beq_iff k k,
      option_beq_iff (some v) (some v),
    )

agrees-cong :
    (m n d : Dict ℕ)
    → ((k : Text) → lookup k m ≡ lookup k n)
    → agrees m d ≡ true
    → agrees n d ≡ true
unfolding agrees all
agrees-cong m n [] same e = refl
agrees-cong m n ((k, v) ∷ d) same e = ground (arith, agrees-cong m n d same, same k)

distinct-sorted_record : (d : Dict ℕ) → distinct (keys (sorted_record d)) ≡ distinct (keys d)
unfolding sorted_record
distinct-sorted_record d =
    ap distinct (keys-map (sort (λ a b. text_le a.0 b.0) d))
    ∙ distinct-map-sort (λ entry. entry.0) (λ a b. text_le a.0 b.0) d
    ∙ ap distinct (sym (keys-map d))

module _ (d : Dict ℕ) (unique : distinct (keys d) ≡ true) where
  -- The fences of a command that ends the run are sorted once or twice.
  pub sorted-agrees : agrees (sorted_record d) d ≡ true
  sorted-agrees =
      agrees-cong d (sorted_record d) d (λ k. sym (lookup-sorted_record k d unique))
        (agrees_self d unique)

  pub sorted_twice-lookup : (k : Text) → lookup k (sorted_record (sorted_record d)) ≡ lookup k d
  sorted_twice-lookup k =
      lookup-sorted_record k (sorted_record d) (distinct-sorted_record d ∙ unique)
      ∙ lookup-sorted_record k d unique

  pub sorted_twice-agrees : agrees (sorted_record (sorted_record d)) d ≡ true
  sorted_twice-agrees =
      agrees-cong d (sorted_record (sorted_record d)) d (λ k. sym (sorted_twice-lookup k))
        (agrees_self d unique)

pub sort-keys-sorted : (d : Dict ℕ) → sort_texts (keys d) ≡ sort_texts (keys (sorted_record d))
unfolding sort_texts
sort-keys-sorted d = sym (ap (sort text_le) (keys-sorted_record d) ∙ sort-sort text_le (keys d))

-- The writes of `terminalAttemptWrites` name the active attempts, in their order.
pub map-write_id-terminal :
    (current : Option KernelAttempt) (status : AttemptState) (d : Dict ℕ)
    → map write_id (map (terminal_attempt_write current status) d) ≡ keys d
unfolding terminal_attempt_write terminal_write terminated keys
map-write_id-terminal none status [] = refl
map-write_id-terminal (some a) status [] = refl
map-write_id-terminal none status ((k, v) ∷ d) = ap (◌∷◌ k) (map-write_id-terminal none status d)
map-write_id-terminal (some a) status ((k, v) ∷ d) =
    ground (arith, map-write_id-terminal (some a) status d, list_beq_iff a.id k)

pub map-write_id-quarantine :
    (status : AttemptState) (d : Dict ℕ)
    → map write_id (map (λ entry. terminal_write entry.0 entry.1 status) d) ≡ keys d
unfolding terminal_write keys
map-write_id-quarantine status [] = refl
map-write_id-quarantine status ((k, v) ∷ d) = ap (◌∷◌ k) (map-write_id-quarantine status d)

-- Where the fences agree with the active attempts, each write advances its version by one.
pub terminal_writes-pass :
    (m : Dict ℕ) (current : Option KernelAttempt) (status : AttemptState) (d : Dict ℕ)
    → ((a : KernelAttempt) → current ≡ some a → lookup a.id m ≡ some a.version)
    → agrees m d ≡ true
    → for_each (assert_write m) (map (terminal_attempt_write current status) d) ≡ ok tt
unfolding terminal_attempt_write terminal_write terminated agrees all for_each assert_write throw_if
    ◌>>=◌
terminal_writes-pass m none status [] at e = refl
terminal_writes-pass m (some a) status [] at e = refl
terminal_writes-pass m none status ((k, v) ∷ d) at e = ground (
  arith,
  terminal_writes-pass m none status d at,
  option_beq_iff (lookup k m) (some v),
  option_beq_iff (some (v + 1)) (some (v + 1)),
)
terminal_writes-pass m (some a) status ((k, v) ∷ d) at e = ground (
  arith,
  terminal_writes-pass m (some a) status d at,
  at a refl,
  list_beq_iff a.id k,
  option_beq_iff (lookup k m) (some v),
  option_beq_iff (some (v + 1)) (some (v + 1)),
  option_beq_iff (some (a.version + 1)) (some (a.version + 1)),
)

pub quarantine_writes-pass :
    (m : Dict ℕ) (status : AttemptState) (d : Dict ℕ)
    → agrees m d ≡ true
    → for_each (assert_write m) (map (λ entry. terminal_write entry.0 entry.1 status) d) ≡ ok tt
unfolding terminal_write agrees all for_each assert_write throw_if ◌>>=◌
quarantine_writes-pass m status [] e = refl
quarantine_writes-pass m status ((k, v) ∷ d) e = ground (
  arith,
  quarantine_writes-pass m status d,
  option_beq_iff (lookup k m) (some v),
  option_beq_iff (some (v + 1)) (some (v + 1)),
)
