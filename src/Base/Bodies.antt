-- ===== src/Base/Bodies.antt =====
-- Texts as message bodies: white space, UTF-8 sizes and line endings of JavaScript strings.
use Prim.Native.Nat.{ℕ, ◌+◌, ◌≤◌}
use mathlib.Core.Path.{◌≡◌, refl}
use mathlib.Core.Bool.{Bool, false, ◌&&◌, ◌||◌}
use mathlib.Core.List.{[], ◌∷◌}
use native.Mathlib.Omega.{arith}
use openthrottle.Base.Tests.{ltb, leb, ◌==◌, nat_eq, if◌then◌else◌}
use openthrottle.Base.Lists.{all, contains}
use openthrottle.Base.Strings.{Text}

-- What `String.prototype.trim` removes.
unfoldable pub is_space : ℕ → Bool
is_space c =
    (leb 9 c && leb c 13)
    || c == 32
    || c == 160
    || c == 5760
    || (leb 8192 c && leb c 8202)
    || c == 8232
    || c == 8233
    || c == 8239
    || c == 8287
    || c == 12288
    || c == 65279

-- `s.trim().length === 0`
unfoldable pub is_blank : Text → Bool
unfolding is_space
is_blank s = all is_space s

abbrev is_high : ℕ → Bool
is_high c = leb 55296 c && leb c 56319

abbrev is_low : ℕ → Bool
is_low c = leb 56320 c && leb c 57343

-- The bytes that a code unit adds, behind an unpaired high surrogate or not. An unpaired surrogate
-- is written as U+FFFD, in three bytes; with its low surrogate a high one takes four.
unfoldable unit_bytes : Bool → ℕ → ℕ
unit_bytes after_high c =
    if after_high && is_low c then 1 else if ltb c 128 then 1 else if ltb c 2048 then 2 else 3

unfoldable bytes_from : Bool → Text → ℕ
unfolding unit_bytes
bytes_from after_high [] = 0
bytes_from after_high (c ∷ s) = unit_bytes after_high c + bytes_from (is_high c) s

-- `Buffer.byteLength(s, "utf8")`
unfoldable pub utf8_bytes : Text → ℕ
unfolding bytes_from
utf8_bytes s = bytes_from false s

-- The rest of `s.replace(/\r\n?/g, "\n")`, behind a replaced "\r" or not
unfoldable lines_from : Bool → Text → Text
lines_from after_return [] = []
lines_from after_return (c ∷ s) =
    let rest = lines_from (c == 13) s in
    if after_return && c == 10 then rest else (if c == 13 then 10 else c) ∷ rest

unfoldable pub normalize_lines : Text → Text
unfolding lines_from
normalize_lines s = lines_from false s

is_blank-lines_from : (after : Bool) (s : Text) → is_blank (lines_from after s) ≡ is_blank s
unfolding is_blank lines_from all
is_blank-lines_from after [] = refl
is_blank-lines_from after (c ∷ s) = ground (arith, is_blank-lines_from (c == 13) s)

no_nul-lines_from : (after : Bool) (s : Text) → contains 0 (lines_from after s) ≡ contains 0 s
unfolding lines_from contains
no_nul-lines_from after [] = refl
no_nul-lines_from after (c ∷ s) = ground (arith, no_nul-lines_from (c == 13) s)

bytes_from-lines_from :
    (high after : Bool) (s : Text)
    → (high && after) ≡ false
    → bytes_from high (lines_from after s) ≤ bytes_from high s
unfolding bytes_from lines_from unit_bytes
bytes_from-lines_from high after [] h = omega arith
bytes_from-lines_from high after (c ∷ s) h =
    ground (
      arith,
      bytes_from-lines_from (is_high c) (c == 13) s,
      bytes_from-lines_from false (c == 13) s,
    )

pub is_blank-normalize_lines : (s : Text) → is_blank (normalize_lines s) ≡ is_blank s
unfolding normalize_lines
is_blank-normalize_lines s = is_blank-lines_from false s

pub no_nul-normalize_lines : (s : Text) → contains 0 (normalize_lines s) ≡ contains 0 s
unfolding normalize_lines
no_nul-normalize_lines s = no_nul-lines_from false s

pub utf8_bytes-normalize_lines : (s : Text) → utf8_bytes (normalize_lines s) ≤ utf8_bytes s
unfolding normalize_lines utf8_bytes
utf8_bytes-normalize_lines s = bytes_from-lines_from false false s refl
