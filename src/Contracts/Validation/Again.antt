-- ===== src/Contracts/Validation/Again.antt =====
-- Values that the readers of contracts/src/validation.ts returned, given to them again as JSON.
use openthrottle.Base.{
  ℕ, suc, ◌≡◌, refl, sym, ap, ◌∙◌, subst, Bool, false, ◌||◌, Option, none, some, List, [], ◌∷◌,
  Text, length, ltb, Result, ok, ◌>>=◌, throw_if-false, >>=-ok, map_each, Ensures, Ensures-ok,
  Ensures-bind, Ensures-throw_if, Ensures-err, list_eq, nat_eq,
}
use openthrottle.Contracts.Json.{Json, str, arr, null, Items, nil, cons}
use openthrottle.Contracts.Formats.{is_identifier}
use openthrottle.Contracts.Validation.{
  members, string_at, array_at, unique, default_max, parse_identifier_list, unit_at,
}

module _ {ℓ} {A : Type ℓ} (print : A → Json) where
  unfoldable pub print_items : List A → Items
  print_items [] = nil
  print_items (x ∷ xs) = cons (print x) (print_items xs)

unfoldable pub texts_json : List Text → Json
unfolding print_items
texts_json texts = arr (print_items str texts)

-- A reader that reads back what it returned, printed by `print`.
abbrev pub ReadsBack {ℓ} :
    {T : Type ℓ} → (T → Json) → (Option Json → Result T) → Option Json → Type ℓ
ReadsBack print parse value = Ensures (λ t. parse (some (print t)) ≡ ok t) (parse value)

string_at-same :
    (s : Text) (max : ℕ) (pattern : Text → Bool)
    → Ensures (λ a. a ≡ s) (string_at (some (str s)) max pattern)
unfolding string_at
string_at-same s max pattern =
    Ensures-throw_if _ _ _
      λ h. Ensures-throw_if _ _ _ λ h. Ensures-throw_if _ _ _ λ h. Ensures-ok s refl

string_at-again_str :
    (s : Text) (max : ℕ) (pattern : Text → Bool)
    → ReadsBack str (λ v. string_at v max pattern) (some (str s))
string_at-again_str s max pattern = record {
  at = λ a e.
      subst (λ b. string_at (some (str b)) max pattern ≡ ok a)
        (sym ((string_at-same s max pattern).at a e)) e;
}

pub string_at-again :
    (max : ℕ) (pattern : Text → Bool) (value : Option Json)
    → ReadsBack str (λ v. string_at v max pattern) value
unfolding string_at
string_at-again max pattern (some (str s)) = string_at-again_str s max pattern
string_at-again max pattern none = Ensures-err _
string_at-again max pattern (some v) = Ensures-err _

module _ {ℓ} {T : Type ℓ} (print : T → Json) (parse : Option Json → Result T)
    (back : (v : Option Json) → ReadsBack print parse v) where
  map_each-again :
      (xs : List Json)
      → Ensures
          (λ ts.
            (map_each (λ x. parse (some x)) (members (print_items print ts)) ≡ ok ts)
            × (length (members (print_items print ts)) ≡ length xs))
          (map_each (λ x. parse (some x)) xs)
  unfolding map_each members print_items ◌>>=◌
  map_each-again [] = Ensures-ok [] (refl, refl)
  map_each-again (x ∷ xs) = Ensures-bind (parse (some x)) _ λ t e.
      Ensures-bind (map_each (λ x. parse (some x)) xs) _ λ ts es.
        let first = (back (some x)).at t e in
        let (rest, long) = (map_each-again xs).at ts es in
        Ensures-ok (t ∷ ts) (rw (first, rest), ap suc long)

  pub array_at-again :
      (min max : ℕ) (value : Option Json)
      → Ensures
          (λ ts. array_at (some (arr (print_items print ts))) parse min max ≡ ok ts)
          (array_at value parse min max)
  unfolding array_at
  array_at-again min max (some (arr xs)) = Ensures-throw_if _ _ _ λ h. record {
    at = λ ts e.
        let (again, long) = (map_each-again (members xs)).at ts e in
        throw_if-false _ _ _ (subst (λ n. (ltb n min || ltb max n) ≡ false) (sym long) h) ∙ again;
  }
  array_at-again min max none = Ensures-err _
  array_at-again min max (some v) = Ensures-err _

unique-again :
    (values : List Text) → Ensures (λ v. (v ≡ values) × (unique v ≡ ok v)) (unique values)
unfolding unique
unique-again values = Ensures-throw_if _ _ _ λ h. Ensures-ok values (refl, throw_if-false _ _ _ h)

-- The list of the texts, read as JSON.
pub parse_identifier_list-again :
    (min max : ℕ) (value : Option Json)
    → ReadsBack texts_json (λ v. parse_identifier_list v min max) value
unfolding parse_identifier_list texts_json ◌>>=◌
parse_identifier_list-again min max value = Ensures-bind _ unique λ texts read. record {
  at = λ v e.
      let (same, once) = (unique-again texts).at v e in
      let again =
        (array_at-again str (λ v. string_at v default_max is_identifier)
            (string_at-again default_max is_identifier) min max value).at
          texts read in
      subst
        (λ w.
          (array_at (some (arr (print_items str w))) (λ v. string_at v default_max is_identifier)
              min max
            >>= unique)
          ≡ ok v)
        (sym same) (>>=-ok _ unique again ∙ e);
}

abbrev pub nullable_json : Option Text → Json
nullable_json none = null
nullable_json (some s) = str s

unit_at-text :
    (v : Json)
    → Ensures
        (λ u. unit_at (nullable_json u) ≡ ok u)
        (string_at (some v) default_max is_identifier >>= λ s. ok (some s))
unfolding unit_at
unit_at-text v = Ensures-bind _ _ λ s e.
    Ensures-ok (some s) (>>=-ok _ _ ((string_at-again default_max is_identifier (some v)).at s e))

pub unit_at-again : (v : Json) → Ensures (λ u. unit_at (nullable_json u) ≡ ok u) (unit_at v)
unfolding unit_at
unit_at-again null = Ensures-ok none refl
unit_at-again v = unit_at-text v
