-- ===== src/Contracts/Formats.antt =====
-- The regular expressions that identities and timestamps are tested by, each as a function on
-- the code units (contracts/src/validation.ts and the modules that declare their own).
use openthrottle.Base.{
  ℕ, ◌+◌, ◌-◌, ◌*◌, ◌%◌, Bool, true, false, not, ◌&&◌, ◌||◌, List, [], ◌∷◌, Text, leb, ◌==◌,
  if◌then◌else◌, nat_eq, length, all, is_digit, is_lower, is_alnum, is_hex,
}

-- /^[A-Za-z0-9][…]{0,199}$/ for the class of characters that `more` adds to the alphanumeric ones
tagged : (ℕ → Bool) → Text → Bool
tagged more [] = false
tagged more (c ∷ s) = is_alnum c && all (λ d. is_alnum d || more d) s && leb (length s) 199

-- /^[A-Za-z0-9][A-Za-z0-9._:/-]{0,199}$/
unfoldable pub is_context_id : Text → Bool
unfolding tagged
is_context_id = tagged (λ c. c == b'.' || c == b'_' || c == b':' || c == b'/' || c == b'-')

-- /^[A-Za-z0-9][A-Za-z0-9._:/@-]{0,199}$/
unfoldable pub is_version_reference : Text → Bool
unfolding tagged
is_version_reference =
    tagged (λ c. c == b'.' || c == b'_' || c == b':' || c == b'/' || c == b'@' || c == b'-')

-- /^[A-Za-z0-9][A-Za-z0-9._-]{0,199}$/
unfoldable pub is_native_session_id : Text → Bool
unfolding tagged
is_native_session_id = tagged (λ c. c == b'.' || c == b'_' || c == b'-')

-- /^[a-f0-9]{64}$/
unfoldable pub is_digest : Text → Bool
is_digest s = all is_hex s && length s == 64

-- /^[a-f0-9]{40,64}$/
unfoldable pub is_git_subject : Text → Bool
is_git_subject s = all is_hex s && leb 40 (length s) && leb (length s) 64

-- [a-z0-9]
abbrev is_word : ℕ → Bool
is_word c = is_lower c || is_digit c

-- (?:[separators][a-z0-9]+)*$ after a character of a word, and after a separator
mutual
  in_word : (ℕ → Bool) → Text → Bool
  in_word separator [] = true
  in_word separator (c ∷ s) =
      (is_word c && in_word separator s) || (separator c && after_separator separator s)

  after_separator : (ℕ → Bool) → Text → Bool
  after_separator separator [] = false
  after_separator separator (c ∷ s) = is_word c && in_word separator s

dotted : (ℕ → Bool) → Text → Bool
unfolding in_word
dotted separator [] = false
dotted separator (c ∷ s) = is_lower c && in_word separator s

-- /^[a-z][a-z0-9]*(?:[._/-][a-z0-9]+)*$/
unfoldable pub is_external_phase : Text → Bool
unfolding dotted
is_external_phase = dotted (λ c. c == b'.' || c == b'_' || c == b'/' || c == b'-')

-- /^[a-z][a-z0-9]*(?:[._/-][a-z0-9]+)*$/
unfoldable pub is_identifier : Text → Bool
unfolding dotted
is_identifier = dotted (λ c. c == b'.' || c == b'_' || c == b'/' || c == b'-')

-- /^[a-z][a-z0-9]*(?:[._-][a-z0-9]+)*$/
unfoldable pub is_command_name : Text → Bool
unfolding dotted
is_command_name = dotted (λ c. c == b'.' || c == b'_' || c == b'-')

split_at_sign : Text → List Text
split_at_sign [] = [] ∷ []
split_at_sign (c ∷ s) = add (split_at_sign s)
  where
    add : List Text → List Text
    add [] = []
    add (part ∷ parts) = if c == b'@' then [] ∷ part ∷ parts else (c ∷ part) ∷ parts

-- /^[a-z][a-z0-9]*(?:[._:/-][a-z0-9]+)*@\d+$/
effect_kind_parts : List Text → Bool
unfolding dotted
effect_kind_parts (name ∷ (d ∷ ds) ∷ []) =
    dotted (λ c. c == b'.' || c == b'_' || c == b':' || c == b'/' || c == b'-') name
    && all is_digit (d ∷ ds)
effect_kind_parts _ = false

unfoldable pub is_effect_kind : Text → Bool
unfolding effect_kind_parts split_at_sign
is_effect_kind s = effect_kind_parts (split_at_sign s)

number : ℕ → Text → ℕ
number acc [] = acc
number acc (c ∷ s) = number (acc * 10 + (c - b'0')) s

-- `Number(s)` for decimal digits
unfoldable pub decimal_value : Text → ℕ
unfolding number
decimal_value s = number 0 s

is_leap : ℕ → Bool
is_leap y = (y % 4 == 0 && not (y % 100 == 0)) || y % 400 == 0

days_in_month : ℕ → ℕ → ℕ
unfolding is_leap
days_in_month y m =
    if m == 2
    then if is_leap y then 29 else 28
    else if m == 4 || m == 6 || m == 9 || m == 11
    then 30
    else 31

in_range : ℕ → ℕ → ℕ → Bool
in_range lo hi n = leb lo n && leb n hi

-- The pattern \d{4}-\d{2}-\d{2}T\d{2}:\d{2}:\d{2}\.\d{3}Z, and a date that exists: the timestamps
-- that `new Date(s).toISOString()` gives back unchanged.
unfoldable pub is_iso_timestamp : Text → Bool
unfolding number days_in_month in_range
is_iso_timestamp
      (y1 ∷ y2 ∷ y3 ∷ y4 ∷ d1 ∷ m1 ∷ m2 ∷ d2 ∷ a1 ∷ a2 ∷ t ∷ h1 ∷ h2 ∷ c1 ∷ n1 ∷ n2 ∷ c2 ∷ s1 ∷ s2
        ∷ p ∷ f1 ∷ f2 ∷ f3 ∷ z ∷ []) =
    let year = number 0 (y1 ∷ y2 ∷ y3 ∷ y4 ∷ []) in
    let month = number 0 (m1 ∷ m2 ∷ []) in
    all is_digit
      (y1 ∷ y2 ∷ y3 ∷ y4 ∷ m1 ∷ m2 ∷ a1 ∷ a2 ∷ h1 ∷ h2 ∷ n1 ∷ n2 ∷ s1 ∷ s2 ∷ f1 ∷ f2 ∷ f3 ∷ [])
    && d1 == b'-'
    && d2 == b'-'
    && t == b'T'
    && c1 == b':'
    && c2 == b':'
    && p == b'.'
    && z == b'Z'
    && in_range 1 12 month
    && in_range 1 (days_in_month year month) (number 0 (a1 ∷ a2 ∷ []))
    && in_range 0 23 (number 0 (h1 ∷ h2 ∷ []))
    && in_range 0 59 (number 0 (n1 ∷ n2 ∷ []))
    && in_range 0 59 (number 0 (s1 ∷ s2 ∷ []))
is_iso_timestamp _ = false
